-- ===== src/ScullPipe/WriteEffect.antt =====
-- What scull_pipe_write does to the pipe, however long it sleeps.
use ldd3_kernel.Prelude.{
  ℕ, zero, suc, ◌-◌, ◌≤◌, ◌≡◌, ◌≢◌, refl, ap, inl, inr, true, false, List, [], ◌∷◌, arith, length,
  Bool-cases, if_cases, ◌||◌,
}
use ldd3_kernel.Int.{pos, is_zero}
use ldd3_kernel.Kernel.{Kernel, IsLawful, ok, err, eagain, erestartsys, Run, done, ◌>>=◌}
use ldd3_kernel.ScullPipe.{ScullPipe, File, Round, Ended, asleep, returned, lock, unlock}
use ldd3_kernel.ScullPipe.Write.{
  Space, has_space, waits, fails, scull_getwritespace, write_space, scull_pipe_write,
}
use ldd3_kernel.ScullPipe.Contents.{
  IsValid, queued, spacefree_lem, unlocked-IsValid, locked-IsValid,
}
use ldd3_kernel.ScullPipe.Append.{fit}
use ldd3_kernel.ScullPipe.ReadEffect.{RoundsFit}
use ldd3_kernel.Sleep.{Wake, goes_on, would_block, signalled, still_asleep, ends_here}
use ldd3_kernel.ScullPipe.Waiting.{is_stopped, LastLocked, LastMet, Replies}
use ldd3_kernel.ScullPipe.PutData.{
  WriteResult, GoodInput, BadInput, IsFull, write_space_lem, contents-IsFull, contents_room,
}

no_room : (x : ℕ) → is_zero (pos x) ≡ true → x ≡ 0
no_room zero h = refl
no_room (suc x) h = cc

some_room : (x : ℕ) → is_zero (pos x) ≡ false → x ≢ 0
some_room zero h = cc
some_room (suc x) h = λ e. omega arith

result_unlocked :
    (n : ℕ) (buf : List ℕ) (count : ℕ) (dev : ScullPipe) (out : Ended ℕ)
    → WriteResult n buf count (lock dev) out
    → WriteResult n buf count dev out
result_unlocked n buf count dev (asleep dev') h = h
result_unlocked n buf count dev (returned dev' (ok m) events) h = h
result_unlocked n buf count dev (returned dev' (err e) events) h = h

module _ (k : Kernel) (n : ℕ) (filp : File) (buf : List ℕ) (count : ℕ) (lawful : IsLawful k)
    (buf_fits : count ≤ length buf) where
  WriteOf : List Round → ScullPipe → Run Space → Type 0
  WriteOf rs dev run =
      (out : Ended ℕ) × (last : ScullPipe) × (wake : Wake) × ((run >>= λ s.
      write_space k buf count s)
        ≡ done out)
      × LastLocked (IsFull n) filp.nonblock rs dev last wake
      × Replies (GoodInput k buf) (BadInput k buf count) wake out
      × WriteResult n buf count last out

  may_not_sleep :
      (rs : List Round) (dev : ScullPipe)
      → IsValid n dev
      → IsFull n dev
      → filp.nonblock ≡ true
      → WriteOf rs dev (done (fails (unlock dev) (err eagain)))
  unfolding WriteOf write_space
  may_not_sleep rs dev v full h = (
    returned (unlock dev) (err eagain) [],
    dev,
    would_block,
    refl,
    ends_here is_stopped (λ r. r.found) (IsFull n) filp.nonblock rs dev would_block (full, h),
    refl,
    (refl, unlocked-IsValid v, refl, refl),
  )

  signal_comes :
      (r : Round) (rs : List Round) (dev : ScullPipe)
      → IsFull n dev
      → filp.nonblock ≡ false
      → is_stopped r ≡ true
      → IsValid n r.found
      → r.found.mutex ≡ false
      → WriteOf (r ∷ rs) dev (done (fails r.found (err erestartsys)))
  unfolding WriteOf write_space
  signal_comes r rs dev full h stopped v free = (
    returned r.found (err erestartsys) [],
    r.found,
    signalled,
    refl,
    inr (full, h, inl (stopped, refl, refl)),
    refl,
    (refl, v, free, refl),
  )

  sleeps :
      (dev : ScullPipe)
      → IsFull n dev
      → filp.nonblock ≡ false
      → WriteOf [] dev (done (waits (unlock dev)))
  unfolding WriteOf write_space
  sleeps dev full h =
      (asleep (unlock dev), dev, still_asleep, refl, (refl, inr (full, h, refl)), tt, (full, refl))

  space_there :
      (rs : List Round) (dev : ScullPipe)
      → IsValid n dev
      → n - 1 - queued n dev.rp dev.wp ≢ 0
      → WriteOf rs dev (done (has_space (lock dev)))
  unfolding WriteOf
  space_there rs dev v room =
      let (out, e, reply, h) =
        write_space_lem k n (lock dev) buf count lawful buf_fits (locked-IsValid v) room in
      (
        out,
        dev,
        goes_on,
        e,
        ends_here is_stopped (λ r. r.found) (IsFull n) filp.nonblock rs dev goes_on
            (contents_room k n dev buf count lawful buf_fits v room),
        reply,
        result_unlocked n buf count dev out h,
      )

  sleeps_on :
      (r : Round) (rs : List Round) (dev : ScullPipe) (run : Run Space)
      → IsFull n dev
      → filp.nonblock ≡ false
      → is_stopped r ≡ false
      → WriteOf rs r.found run
      → WriteOf (r ∷ rs) dev run
  unfolding WriteOf
  sleeps_on r rs dev run full h woken (out, last, wake, e, at, reply, promise) =
      (out, last, wake, e, inr (full, h, inr (woken, at)), reply, promise)

  getwritespace_lem :
      (rs : List Round) (dev : ScullPipe)
      → IsValid n dev
      → RoundsFit n rs
      → WriteOf rs dev (scull_getwritespace rs (lock dev) filp)
  unfolding scull_getwritespace
  getwritespace_lem [] dev v fit =
      let free = n - 1 - queued n dev.rp dev.wp in
      let full_if = contents-IsFull k n dev buf count lawful buf_fits v in
      rw (spacefree_lem (locked-IsValid v)) (
        if_cases (WriteOf [] dev) (is_zero (pos free))
          (λ none_free.
            let full = full_if (no_room free none_free) in
            if_cases (WriteOf [] dev) filp.nonblock (may_not_sleep [] dev v full) (sleeps dev full))
          (λ room. space_there [] dev v (some_room free room)))
  getwritespace_lem (r ∷ rs) dev v fit =
      let free = n - 1 - queued n dev.rp dev.wp in
      let full_if = contents-IsFull k n dev buf count lawful buf_fits v in
      rw (spacefree_lem (locked-IsValid v)) (
        if_cases (WriteOf (r ∷ rs) dev) (is_zero (pos free))
          (λ none_free.
            let full = full_if (no_room free none_free) in
            let stops = signal_comes r rs dev full in
            if_cases (WriteOf (r ∷ rs) dev) filp.nonblock (may_not_sleep (r ∷ rs) dev v full) (λ h.
              if_cases (WriteOf (r ∷ rs) dev) r.signal
                (λ s. stops h (ap (λ b. b || r.interrupted) s) fit.0.0 fit.0.1)
                (λ s.
                  if_cases (WriteOf (r ∷ rs) dev) r.interrupted
                    (λ i. stops h (rw (s, i) refl) fit.0.0 fit.0.1)
                    (λ i.
                      sleeps_on r rs dev (scull_getwritespace rs (lock r.found) filp) full h
                        (rw (s, i) refl) (getwritespace_lem rs r.found fit.0.0 fit.1)))))
          (λ room. space_there (r ∷ rs) dev v (some_room free room)))

  -- On a pipe whose mutex is free, and that other processes leave so, a write of a user buffer of at
  -- least `count` bytes runs without a fault. It sleeps while it finds the pipe full and may sleep,
  -- and stops at the first of the devices it finds, `last`, that has room, or with EAGAIN at a full
  -- one where it may not sleep, or with ERESTARTSYS at a signal, or it still sleeps when there is
  -- nothing more to find. Where it finds room it replies with some `m` and has appended the first `m`
  -- bytes to what `last` held, at least one if any was given, and the readers are woken. It fails
  -- there only with EFAULT, where the copy from the user fails. If it fails or still sleeps, the pipe
  -- holds what `last` held. Unless it still sleeps, the pipe is valid and its mutex free.
  pub scull_pipe_write_lem :
      (rs : List Round) (dev : ScullPipe)
      → IsValid n dev
      → dev.mutex ≡ false
      → RoundsFit n rs
      → (out : Ended ℕ) × (last : ScullPipe) × (wake : Wake) × (scull_pipe_write k rs dev filp buf
            count
          ≡ done out)
        × LastMet (IsFull n) k.interrupted filp.nonblock rs dev last wake
        × Replies (GoodInput k buf) (BadInput k buf count) wake out
        × WriteResult n buf count last out
  unfolding scull_pipe_write WriteOf
  scull_pipe_write_lem rs dev v free fit = elim (Bool-cases k.interrupted) [
    | inl signal ↦ (
      returned dev (err erestartsys) [],
      dev,
      signalled,
      rw signal refl,
      inl (signal, refl, refl),
      refl,
      (refl, v, free, refl),
    )
    | inr had ↦
        let (out, last, wake, e, at, reply, promise) = getwritespace_lem rs dev v fit in
        (out, last, wake, simp had e, inr (had, at), reply, promise)
  ]
