-- ===== src/ScullPipe/Fifo.antt =====
-- Sequences of reads and writes on one pipe.
use ldd3_kernel.Prelude.{
  Bool, ℕ, ◌≤◌, ◌≡◌, sym, ap, subst, ◌∙◌, inl, inr, false, List, [], ◌++◌, length, take,
}
use mathlib.Core.List.{append_assoc, append-nil}
use ldd3_kernel.Kernel.{Kernel, IsLawful, Errno, ok, err, done, fault}
use ldd3_kernel.ScullPipe.{ScullPipe, File, Event, Ended, asleep, returned, unlock}
use ldd3_kernel.ScullPipe.Read.{scull_pipe_read}
use ldd3_kernel.ScullPipe.Write.{scull_pipe_write}
use ldd3_kernel.ScullPipe.Contents.{IsValid, contents, unlocked-IsValid}
use ldd3_kernel.Sleep.{Wake}
use ldd3_kernel.ScullPipe.Waiting.{LastMet}
use ldd3_kernel.ScullPipe.TakeData.{ReadResult, IsEmpty}
use ldd3_kernel.ScullPipe.PutData.{WriteResult, IsFull}
use ldd3_kernel.ScullPipe.ReadEffect.{scull_pipe_read_lem}
use ldd3_kernel.ScullPipe.WriteEffect.{scull_pipe_write_lem}

-- The calls of any processes in order, from one state of the pipe to another, with the bytes that
-- were taken from the writers and those that went to the readers. A call that falls asleep or
-- fails moves none; one that sleeps comes again later in the sequence.
pub data Trace : ScullPipe → List ℕ → List ℕ → ScullPipe → Type 0 where
  over : (dev : ScullPipe) → Trace dev [] [] dev
  reads :
      (k : Kernel) (filp : File) (count m : ℕ) (bytes : List ℕ) (events : List Event)
      {dev dev' last : ScullPipe} {sent received : List ℕ}
      → scull_pipe_read k [] dev filp count ≡ done (returned dev' (ok (m, bytes)) events)
      → Trace dev' sent received last
      → Trace dev sent (bytes ++ received) last
  read_fails :
      (k : Kernel) (filp : File) (count : ℕ) (e : Errno) (events : List Event)
      {dev dev' last : ScullPipe} {sent received : List ℕ}
      → scull_pipe_read k [] dev filp count ≡ done (returned dev' (err e) events)
      → Trace dev' sent received last
      → Trace dev sent received last
  read_sleeps :
      (k : Kernel) (filp : File) (count : ℕ) {dev dev' last : ScullPipe} {sent received : List ℕ}
      → scull_pipe_read k [] dev filp count ≡ done (asleep dev')
      → Trace dev' sent received last
      → Trace dev sent received last
  writes :
      (k : Kernel) (filp : File) (buf : List ℕ) (count m : ℕ) (events : List Event)
      {dev dev' last : ScullPipe} {sent received : List ℕ}
      → IsLawful k
      → count ≤ length buf
      → scull_pipe_write k [] dev filp buf count ≡ done (returned dev' (ok m) events)
      → Trace dev' sent received last
      → Trace dev (take m buf ++ sent) received last
  write_fails :
      (k : Kernel) (filp : File) (buf : List ℕ) (count : ℕ) (e : Errno) (events : List Event)
      {dev dev' last : ScullPipe} {sent received : List ℕ}
      → IsLawful k
      → count ≤ length buf
      → scull_pipe_write k [] dev filp buf count ≡ done (returned dev' (err e) events)
      → Trace dev' sent received last
      → Trace dev sent received last
  write_sleeps :
      (k : Kernel) (filp : File) (buf : List ℕ) (count : ℕ) {dev dev' last : ScullPipe}
      {sent received : List ℕ}
      → IsLawful k
      → count ≤ length buf
      → scull_pipe_write k [] dev filp buf count ≡ done (asleep dev')
      → Trace dev' sent received last
      → Trace dev sent received last

same_done : {A : Type 0} {a b : A} → done a ≡ done b → a ≡ b
same_done {a} e = ap (λ r. elim r [ done x ↦ x | fault f ↦ a ]) e

only_device :
    (lacks : ScullPipe → Type 0) (interrupted nonblock : Bool) (dev last : ScullPipe) (wake : Wake)
    → LastMet lacks interrupted nonblock [] dev last wake
    → last ≡ dev
only_device lacks interrupted nonblock dev last wake (inl (_, here, _)) = here
only_device lacks interrupted nonblock dev last wake (inr (_, (here, _))) = here

-- A call without rounds has met no device but the first.
module _ (n : ℕ) (dev : ScullPipe) (v : IsValid n dev) (free : dev.mutex ≡ false) where
  read_gives :
      (k : Kernel) (filp : File) (count : ℕ) (out : Ended (ℕ × List ℕ))
      → scull_pipe_read k [] dev filp count ≡ done out
      → ReadResult n count dev out
  read_gives k filp count out e =
      let (out', last, wake, e', at, _, h) = scull_pipe_read_lem k n filp count [] dev v free tt in
      let same : out' ≡ out = same_done (sym e' ∙ e) in
      subst (λ d. ReadResult n count d out)
        (only_device IsEmpty k.interrupted filp.nonblock dev last wake at)
        (subst (ReadResult n count last) same h)

  write_gives :
      (k : Kernel) (filp : File) (buf : List ℕ) (count : ℕ) (out : Ended ℕ)
      → IsLawful k
      → count ≤ length buf
      → scull_pipe_write k [] dev filp buf count ≡ done out
      → WriteResult n buf count dev out
  write_gives k filp buf count out lawful fits e =
      let (out', last, wake, e', at, _, h) =
        scull_pipe_write_lem k n filp buf count lawful fits [] dev v free tt in
      let same : out' ≡ out = same_done (sym e' ∙ e) in
      subst (λ d. WriteResult n buf count d out)
        (only_device (IsFull n) k.interrupted filp.nonblock dev last wake at)
        (subst (WriteResult n buf count last) same h)

-- A call that only gave the lock back
left :
    (n : ℕ) {dev dev' : ScullPipe}
    → IsValid n dev
    → dev' ≡ unlock dev
    → (contents dev' ≡ contents dev) × IsValid n dev' × (dev'.mutex ≡ false)
left n {dev} v e = (
  ap (λ d. contents d) e,
  subst (IsValid n) (sym e) (unlocked-IsValid v),
  ap (λ d. ScullPipe.mutex d) e,
)

-- From a valid pipe whose mutex is free, whatever reads and writes follow, the bytes that were in
-- the pipe and then those that the writers put in come out in this order: what the readers got,
-- followed by what is left. The pipe stays valid and its mutex free.
pub pipe_fifo :
    (n : ℕ) {dev last : ScullPipe} {sent received : List ℕ}
    → Trace dev sent received last
    → IsValid n dev
    → dev.mutex ≡ false
    → (contents dev ++ sent ≡ received ++ contents last) × IsValid n last × (last.mutex ≡ false)
pipe_fifo n (over dev) v free = (append-nil (contents dev), v, free)
pipe_fifo n (reads k filp count m bytes events {dev} {dev'} {last} {sent} {received} e t) v free =
    let (split, _, _, _, v', free', _) =
      read_gives n dev v free k filp count (returned dev' (ok (m, bytes)) events) e in
    let (q, v'', free'') = pipe_fifo n t v' free' in
    (
      ap (λ c. c ++ sent) split
          ∙ append_assoc bytes (contents dev') sent
          ∙ ap (λ c. bytes ++ c) q
          ∙ sym (append_assoc bytes received (contents last)),
      v'',
      free'',
    )
pipe_fifo n (read_fails k filp count err_no events {dev} {dev'} {last} {sent} e t) v free =
    let (same, _) = read_gives n dev v free k filp count (returned dev' (err err_no) events) e in
    let (kept, v', free') = left n v same in
    let (q, v'', free'') = pipe_fifo n t v' free' in
    (ap (λ c. c ++ sent) (sym kept) ∙ q, v'', free'')
pipe_fifo n (read_sleeps k filp count {dev} {dev'} {last} {sent} e t) v free =
    let (_, same) = read_gives n dev v free k filp count (asleep dev') e in
    let (kept, v', free') = left n v same in
    let (q, v'', free'') = pipe_fifo n t v' free' in
    (ap (λ c. c ++ sent) (sym kept) ∙ q, v'', free'')
pipe_fifo n (writes k filp buf count m events {dev} {dev'} {last} {sent} {received} lawful fits e t)
      v free =
    let (more, _, _, v', free', _) =
      write_gives n dev v free k filp buf count (returned dev' (ok m) events) lawful fits e in
    let (q, v'', free'') = pipe_fifo n t v' free' in
    (
      sym (append_assoc (contents dev) (take m buf) sent) ∙ ap (λ c. c ++ sent) (sym more) ∙ q,
      v'',
      free'',
    )
pipe_fifo n (write_fails k filp buf count err_no events {dev} {dev'} {last} {sent} lawful fits e t)
      v free =
    let (same, v', free', _) =
      write_gives n dev v free k filp buf count (returned dev' (err err_no) events) lawful fits e in
    let (q, v'', free'') = pipe_fifo n t v' free' in
    (ap (λ c. c ++ sent) (sym same) ∙ q, v'', free'')
pipe_fifo n (write_sleeps k filp buf count {dev} {dev'} {last} {sent} lawful fits e t) v free =
    let (_, same) = write_gives n dev v free k filp buf count (asleep dev') lawful fits e in
    let (kept, v', free') = left n v same in
    let (q, v'', free'') = pipe_fifo n t v' free' in
    (ap (λ c. c ++ sent) (sym kept) ∙ q, v'', free'')
