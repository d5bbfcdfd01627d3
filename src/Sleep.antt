-- ===== src/Sleep.antt =====
-- `wait_event_interruptible` and the loops around it: a call tests a condition of the device, sleeps
-- while the condition fails, and tests it again on what it finds when it wakes.
use ldd3_kernel.Prelude.{◌≡◌, refl, ◌⊎◌, inl, Bool, true, false, List, [], ◌∷◌}

-- How the waiting ends: the call goes on, it may not sleep, a signal came, or it sleeps to the last.
pub data Wake : Type 0 where
  goes_on : Wake
  would_block : Wake
  signalled : Wake
  still_asleep : Wake

-- The rounds are of type R; `stops` says whether a signal ends the sleep of a round, `found` what
-- the call finds when it wakes; `lacks dev` says that the condition fails on `dev`.
module _ {S R : Type 0} (stops : R → Bool) (found : R → S) (lacks : S → Type 0)
    (nonblock : Bool) where
  abbrev pub EndsHere : S → Wake → Type 0
  EndsHere dev goes_on = ¬ lacks dev
  EndsHere dev would_block = lacks dev × (nonblock ≡ true)
  EndsHere dev signalled = ⊥
  EndsHere dev still_asleep = ⊥

  -- From `dev` on, the waiting ends as `wake` says, and then the device was `last`. It moves from a
  -- device to what the next round found exactly where the condition fails and it may sleep.
  abbrev pub LastWake : List R → S → S → Wake → Type 0
  LastWake [] dev last wake =
      (last ≡ dev) × (EndsHere dev wake ⊎ (lacks dev × (nonblock ≡ false) × (wake ≡ still_asleep)))
  LastWake (r ∷ rs) dev last wake =
      ((last ≡ dev) × EndsHere dev wake)
      ⊎ (lacks dev
          × (nonblock ≡ false)
          × (((stops r ≡ true) × (last ≡ found r) × (wake ≡ signalled))
              ⊎ ((stops r ≡ false) × LastWake rs (found r) last wake)))

  pub ends_here :
      (rs : List R) (dev : S) (wake : Wake) → EndsHere dev wake → LastWake rs dev dev wake
  ends_here [] dev wake h = (refl, inl h)
  ends_here (r ∷ rs) dev wake h = inl (refl, h)
