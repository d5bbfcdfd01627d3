-- ===== src/ScullPipe/PutData.antt =====
-- The part of scull_pipe_write behind scull_getwritespace, which stores the bytes.
use ldd3_kernel.Prelude.{
  ℕ, ◌+◌, ◌-◌, ◌≤◌, ◌<◌, ◌≡◌, ◌≢◌, refl, sym, ap, subst, ◌∙◌, inl, inr, true, false, List, [], ◌∷◌,
  some, arith, length, take, ◌++◌, leb, ◌==◌, if◌then◌else◌, overwrite, length-take, Bool-cases,
  le→leb,
}
use ldd3_kernel.Int.{pos, to_size-pos}
use ldd3_kernel.Kernel.{Kernel, IsLawful, ok, err, efault, done}
use ldd3_kernel.ScullPipe.{ScullPipe, Ended, asleep, returned, Event, wake_readers, sigio, unlock}
use ldd3_kernel.ScullPipe.Read.{advance}
use ldd3_kernel.ScullPipe.Write.{has_space, fitting, notices, put_data, write_space}
use ldd3_kernel.ScullPipe.Contents.{
  IsValid, queue, queued, contents, contents-queue, length-queue, spacefree_lem,
}
use ldd3_kernel.ScullPipe.Advance.{step, span-pos}
use ldd3_kernel.ScullPipe.Append.{fit, length-stored, queue_kept, queue_append}
use ldd3_kernel.Sleep.{goes_on}
use ldd3_kernel.ScullPipe.Waiting.{Replies}

-- What a write of `count` bytes of `buf` promises that last found the device as `dev`.
abbrev pub WriteResult : ℕ → List ℕ → ℕ → ScullPipe → Ended ℕ → Type 0
WriteResult n buf count dev (asleep dev') = (length (contents dev) ≡ n - 1) × (dev' ≡ unlock dev)
WriteResult n buf count dev (returned dev' (ok m) events) =
    (contents dev' ≡ contents dev ++ take m buf)
    × (m ≤ count)
    × (0 < count → 0 < m)
    × IsValid n dev'
    × (dev'.mutex ≡ false)
    × ((rest : List Event) × (events ≡ wake_readers ∷ rest))
WriteResult n buf count dev (returned dev' (err e) events) =
    (contents dev' ≡ contents dev) × IsValid n dev' × (dev'.mutex ≡ false) × (events ≡ [])

-- The copy from the user behind a reply is complete.
abbrev pub GoodInput : Kernel → List ℕ → ℕ → Type 0
GoodInput k buf m = (k.copy_from_user buf m).1 ≡ 0

-- A copy of some of the `count` bytes from the user fails.
abbrev pub BadInput : Kernel → List ℕ → ℕ → Type 0
BadInput k buf count = (m : ℕ) × (m ≤ count) × ((k.copy_from_user buf m).1 ≢ 0)

-- A pipe with a buffer of `n` bytes is full at `n - 1`.
abbrev pub IsFull : ℕ → ScullPipe → Type 0
IsFull n dev = length (contents dev) ≡ n - 1

readers_woken : (files : List ℕ) → (rest : List Event) × (notices files ≡ wake_readers ∷ rest)
readers_woken [] = ([], refl)
readers_woken (f ∷ fs) = (sigio ∷ [], refl)

module _ (k : Kernel) (n : ℕ) (dev : ScullPipe) (buf : List ℕ) (count : ℕ) (lawful : IsLawful k)
    (buf_fits : count ≤ length buf) (v : IsValid n dev) where
  open v use {bytes}

  abbrev m : ℕ
  m = fit n dev.rp dev.wp count

  abbrev src : List ℕ
  src = (k.copy_from_user buf m).0

  length-src : length src ≤ m
  length-src = lawful.copied_size buf m (ground arith)

  fitting_lem : fitting dev (pos (n - 1 - queued n dev.rp dev.wp)) count ≡ m
  fitting_lem =
      rw (to_size-pos (n - 1 - queued n dev.rp dev.wp) (omega arith))
        (elim (Bool-cases (leb dev.rp dev.wp)) [
          | inl le ↦
              rw (le, span-pos dev.end dev.wp (omega arith) (omega arith))
                (ground (arith, v.end_is))
          | inr gt ↦ rw (gt, span-pos dev.rp dev.wp (ground arith) (omega arith)) (ground arith)
        ])

  abbrev stored : List ℕ
  stored = overwrite bytes dev.wp src

  abbrev filled : ScullPipe
  filled = record dev { buffer = some stored }

  abbrev after : ScullPipe
  after = unlock (record filled { wp = advance dev dev.wp m })

  advance_lem : advance dev dev.wp m ≡ step n dev.wp m
  advance_lem = ap (λ e. if dev.wp + m == e then 0 else dev.wp + m) v.end_is

  with-IsValid : (w : ℕ) → w < n → IsValid n (unlock (record filled { wp = w }))
  with-IsValid w w_in = record {
    bytes = stored;
    buffer_is = refl;
    length_is =
        length-stored n bytes src dev.rp dev.wp count v.length_is v.rp_in v.wp_in length-src;
    end_is = v.end_is;
    buffersize_is = v.buffersize_is;
    rp_in = v.rp_in;
    wp_in = w_in;
    large = v.large;
    small = v.small;
  }

  appended : length src ≡ m → contents after ≡ contents dev ++ src
  appended all =
      ap (λ w. queue stored dev.rp w) advance_lem
      ∙ queue_append n bytes src dev.rp dev.wp count v.length_is v.rp_in v.wp_in all
      ∙ ap (λ q. q ++ src) (sym (contents-queue v))

  taken_all : ((k.copy_from_user buf m).1 == 0) ≡ true → length src ≡ m
  taken_all copied =
      ap length (lawful.copied_all buf m (ground arith) (ground (arith, copied)))
      ∙ omega (arith, length-take m buf, at_most)
    where
      at_most : m ≤ length buf
      at_most = ground arith

  put_data_lem :
      n - 1 - queued n dev.rp dev.wp ≢ 0
      → (out : Ended ℕ) × (put_data k dev buf m (some bytes) ≡ done out)
        × Replies (GoodInput k buf) (BadInput k buf count) goes_on out
        × WriteResult n buf count dev out
  unfolding put_data
  put_data_lem room =
      rw (le→leb (dev.wp + m) (length bytes) (ground (arith, v.length_is, v.rp_in, v.wp_in)))
        (elim (Bool-cases ((k.copy_from_user buf m).1 == 0)) [
          | inl copied ↦ (
            returned after (ok m) (notices dev.async_queue),
            rw copied refl,
            ground (arith, copied),
            (
              appended (taken_all copied)
                  ∙ ap (λ b. contents dev ++ b)
                      (lawful.copied_all buf m (ground arith) (ground (arith, copied))),
              ground arith,
              λ some_count. ground (arith, v.rp_in, v.wp_in),
              with-IsValid (advance dev dev.wp m)
                  (rw advance_lem (ground (arith, v.rp_in, v.wp_in))),
              refl,
              readers_woken dev.async_queue,
            ),
          )
          | inr failed ↦ (
            returned (unlock filled) (err efault) [],
            rw failed refl,
            (refl, (m, ground arith, λ e. ground (arith, failed))),
            (
              queue_kept n bytes src dev.rp dev.wp count v.length_is v.rp_in v.wp_in length-src
                  ∙ sym (contents-queue v),
              with-IsValid dev.wp v.wp_in,
              refl,
              refl,
            ),
          )
        ])

  -- With space there a write appends bytes, or fails in the copy and the queue is as before.
  pub write_space_lem :
      n - 1 - queued n dev.rp dev.wp ≢ 0
      → (out : Ended ℕ) × (write_space k buf count (has_space dev) ≡ done out)
        × Replies (GoodInput k buf) (BadInput k buf count) goes_on out
        × WriteResult n buf count dev out
  unfolding write_space
  write_space_lem room =
      rw (spacefree_lem v, fitting_lem)
        (subst
          (λ b.
            (out : Ended ℕ) × (put_data k dev buf m b ≡ done out)
            × Replies (GoodInput k buf) (BadInput k buf count) goes_on out
            × WriteResult n buf count dev out)
          (sym v.buffer_is) (put_data_lem room))

  length-contents : length (contents dev) ≡ queued n dev.rp dev.wp
  length-contents =
      ap length (contents-queue v) ∙ length-queue n bytes dev.rp dev.wp v.length_is v.rp_in v.wp_in

  pub contents-IsFull : n - 1 - queued n dev.rp dev.wp ≡ 0 → IsFull n dev
  contents-IsFull e = length-contents ∙ ground (arith, v.rp_in, v.wp_in)

  pub contents_room : n - 1 - queued n dev.rp dev.wp ≢ 0 → ¬ IsFull n dev
  contents_room room full = room (omega (arith, length-contents, full))
