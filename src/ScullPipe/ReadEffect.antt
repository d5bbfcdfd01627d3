-- ===== src/ScullPipe/ReadEffect.antt =====
-- What scull_pipe_read gives, however long it sleeps.
use ldd3_kernel.Prelude.{
  ℕ, ◌≡◌, refl, ap, inl, inr, true, false, List, [], ◌∷◌, arith, ◌==◌, Bool-cases, if_cases, ◌||◌,
  All,
}
use ldd3_kernel.Kernel.{Kernel, ok, err, eagain, erestartsys, Run, done}
use ldd3_kernel.ScullPipe.{ScullPipe, File, Round, Ended, asleep, returned, lock, unlock}
use ldd3_kernel.ScullPipe.Read.{take_data, read_locked, scull_pipe_read}
use ldd3_kernel.ScullPipe.Contents.{IsValid, locked-IsValid}
use ldd3_kernel.Sleep.{Wake, goes_on, would_block, signalled, still_asleep, ends_here}
use ldd3_kernel.ScullPipe.Waiting.{is_stopped, LastLocked, LastMet, Replies}
use ldd3_kernel.ScullPipe.TakeData.{
  ReadResult, GoodCopy, BadCopy, IsEmpty, take_data_lem, contents_empty, contents_some,
}

-- The other processes leave a valid device behind, and the mutex free.
abbrev pub RoundsFit : ℕ → List Round → Type 0
RoundsFit n rs = All (λ r. IsValid n r.found × (r.found.mutex ≡ false)) rs

pub unlocked_self : (dev : ScullPipe) → dev.mutex ≡ false → dev ≡ unlock dev
unlocked_self dev h = ap (λ m. record dev { mutex = m }) h

result_unlocked :
    (n count : ℕ) (dev : ScullPipe) (out : Ended (ℕ × List ℕ))
    → ReadResult n count (lock dev) out
    → ReadResult n count dev out
result_unlocked n count dev (asleep dev') h = h
result_unlocked n count dev (returned dev' (ok (m, bytes)) events) h = h
result_unlocked n count dev (returned dev' (err e) events) h = h

module _ (k : Kernel) (n : ℕ) (filp : File) (count : ℕ) where
  ReadOf : List Round → ScullPipe → Run (Ended (ℕ × List ℕ)) → Type 0
  ReadOf rs dev run =
      (out : Ended (ℕ × List ℕ)) × (last : ScullPipe) × (wake : Wake) × (run ≡ done out)
      × LastLocked IsEmpty filp.nonblock rs dev last wake
      × Replies (GoodCopy k) (BadCopy k last) wake out
      × ReadResult n count last out

  data_there :
      (rs : List Round) (dev : ScullPipe)
      → IsValid n dev
      → (dev.rp == dev.wp) ≡ false
      → ReadOf rs dev (take_data k (lock dev) count)
  unfolding ReadOf
  data_there rs dev v some_data =
      let (out, e, reply, h) =
        take_data_lem k n (lock dev) count (locked-IsValid v) (ground arith) in
      (
        out,
        dev,
        goes_on,
        e,
        ends_here is_stopped (λ r. r.found) IsEmpty filp.nonblock rs dev goes_on
            (contents_some k n dev count v some_data),
        reply,
        result_unlocked n count dev out h,
      )

  may_not_sleep :
      (rs : List Round) (dev : ScullPipe)
      → IsEmpty dev
      → filp.nonblock ≡ true
      → ReadOf rs dev (done (returned (unlock dev) (err eagain) []))
  unfolding ReadOf
  may_not_sleep rs dev none_there h = (
    returned (unlock dev) (err eagain) [],
    dev,
    would_block,
    refl,
    ends_here is_stopped (λ r. r.found) IsEmpty filp.nonblock rs dev would_block (none_there, h),
    refl,
    (refl, refl),
  )

  signal_comes :
      (r : Round) (rs : List Round) (dev : ScullPipe)
      → IsEmpty dev
      → filp.nonblock ≡ false
      → is_stopped r ≡ true
      → r.found.mutex ≡ false
      → ReadOf (r ∷ rs) dev (done (returned r.found (err erestartsys) []))
  unfolding ReadOf
  signal_comes r rs dev none_there h stopped free = (
    returned r.found (err erestartsys) [],
    r.found,
    signalled,
    refl,
    inr (none_there, h, inl (stopped, refl, refl)),
    refl,
    (unlocked_self r.found free, refl),
  )

  sleeps_on :
      (r : Round) (rs : List Round) (dev : ScullPipe) (run : Run (Ended (ℕ × List ℕ)))
      → IsEmpty dev
      → filp.nonblock ≡ false
      → is_stopped r ≡ false
      → ReadOf rs r.found run
      → ReadOf (r ∷ rs) dev run
  unfolding ReadOf
  sleeps_on r rs dev run none_there h woken (out, last, wake, e, at, reply, promise) =
      (out, last, wake, e, inr (none_there, h, inr (woken, at)), reply, promise)

  read_locked_lem :
      (rs : List Round) (dev : ScullPipe)
      → IsValid n dev
      → RoundsFit n rs
      → ReadOf rs dev (read_locked k rs (lock dev) filp count)
  unfolding read_locked ReadOf
  read_locked_lem [] dev v fit =
      if_cases (ReadOf [] dev) (dev.rp == dev.wp)
        (λ same.
          let none_there = contents_empty k n dev count v same in
          if_cases (ReadOf [] dev) filp.nonblock (may_not_sleep [] dev none_there) (λ h. (
            asleep (unlock dev),
            dev,
            still_asleep,
            refl,
            (refl, inr (none_there, h, refl)),
            tt,
            (none_there, refl),
          )))
        (data_there [] dev v)
  read_locked_lem (r ∷ rs) dev v fit =
      if_cases (ReadOf (r ∷ rs) dev) (dev.rp == dev.wp)
        (λ same.
          let none_there = contents_empty k n dev count v same in
          if_cases (ReadOf (r ∷ rs) dev) filp.nonblock (may_not_sleep (r ∷ rs) dev none_there) (λ h.
            if_cases (ReadOf (r ∷ rs) dev) r.signal
              (λ s. signal_comes r rs dev none_there h (ap (λ b. b || r.interrupted) s) fit.0.1)
              (λ s.
                if_cases (ReadOf (r ∷ rs) dev) r.interrupted
                  (λ i. signal_comes r rs dev none_there h (rw (s, i) refl) fit.0.1)
                  (λ i.
                    sleeps_on r rs dev (read_locked k rs (lock r.found) filp count) none_there h
                      (rw (s, i) refl) (read_locked_lem rs r.found fit.0.0 fit.1)))))
        (data_there (r ∷ rs) dev v)

  -- On a pipe whose mutex is free, and that other processes leave so, a read runs without a fault.
  -- It sleeps while it finds the pipe empty and may sleep, and stops at the first of the devices it
  -- finds, `last`, that is not empty, or with EAGAIN at an empty one where it may not sleep, or with
  -- ERESTARTSYS at a signal, or it still sleeps when there is nothing more to find. Where it finds
  -- bytes it replies with the oldest of `last`, at least one if any was asked for; the pipe is then
  -- valid, its mutex free, and holds the rest, and the writers are woken. It fails there only with
  -- EFAULT, where the copy to the user fails. If it fails or still sleeps, it has changed nothing.
  pub scull_pipe_read_lem :
      (rs : List Round) (dev : ScullPipe)
      → IsValid n dev
      → dev.mutex ≡ false
      → RoundsFit n rs
      → (out : Ended (ℕ × List ℕ)) × (last : ScullPipe) × (wake : Wake) × (scull_pipe_read k rs dev
            filp count
          ≡ done out)
        × LastMet IsEmpty k.interrupted filp.nonblock rs dev last wake
        × Replies (GoodCopy k) (BadCopy k last) wake out
        × ReadResult n count last out
  unfolding scull_pipe_read ReadOf
  scull_pipe_read_lem rs dev v free fit = elim (Bool-cases k.interrupted) [
    | inl signal ↦ (
      returned dev (err erestartsys) [],
      dev,
      signalled,
      rw signal refl,
      inl (signal, refl, refl),
      refl,
      (unlocked_self dev free, refl),
    )
    | inr had ↦
        let (out, last, wake, e, at, reply, promise) = read_locked_lem rs dev v fit in
        (out, last, wake, simp had e, inr (had, at), reply, promise)
  ]
