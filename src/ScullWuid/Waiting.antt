-- ===== src/ScullWuid/Waiting.antt =====
-- Who comes in after waiting, and who is woken.
use ldd3_kernel.Prelude.{
  ◌+◌, ◌-◌, ◌%◌, ◌^◌, ◌≤◌, ◌<◌, ◌≡◌, ◌≢◌, refl, ap, ◌∙◌, ◌||◌, inl, inr, Bool, true, false, List,
  [], ◌∷◌, arith, if_cases, ◌==◌, ℕ,
}
use ldd3_kernel.Int.{size_mod, pos, to_int, is_zero}
use ldd3_kernel.Kernel.{ok, eagain, erestartsys}
use ldd3_kernel.ScullDev.Trim.{scull_dev_release}
use ldd3_kernel.ScullUid.{Caller}
use ldd3_kernel.ScullWuid.{
  ScullWuid, Round, Entry, enters, sleeps, fails, scull_w_available, claimed, enter, drop_user,
  scull_wuid_release,
}
use ldd3_kernel.Sleep.{
  Wake, goes_on, would_block, signalled, still_asleep, EndsHere, LastWake, ends_here,
}

abbrev pub IsTaken : Caller → ScullWuid → Type 0
IsTaken c w = scull_w_available w c ≡ false

-- The waiting of an open, from the device `w` on
abbrev pub LastMet : Caller → Bool → List Round → ScullWuid → ScullWuid → Wake → Type 0
LastMet c nonblock = LastWake (λ r. r.signal) (λ r. r.found) (IsTaken c) nonblock

-- What an open does at the device where its waiting ends
abbrev pub entry_at : Caller → ScullWuid → Wake → Entry
entry_at c last goes_on = enters (claimed last c)
entry_at c last would_block = fails last eagain
entry_at c last signalled = fails last erestartsys
entry_at c last still_asleep = sleeps last

EntryOf : Caller → Bool → List Round → ScullWuid → Entry → Type 0
EntryOf c nonblock rs w e =
    (last : ScullWuid) × (wake : Wake) × LastMet c nonblock rs w last wake
    × (e ≡ entry_at c last wake)

stays :
    (c : Caller) (nonblock : Bool) (rs : List Round) (w : ScullWuid) (wake : Wake)
    → EndsHere {R = Round} (λ r. r.signal) (λ r. r.found) (IsTaken c) nonblock w wake
    → EntryOf c nonblock rs w (entry_at c w wake)
unfolding EntryOf
stays c nonblock rs w wake h =
    (w, wake, ends_here (λ r. r.signal) (λ r. r.found) (IsTaken c) nonblock rs w wake h, refl)

available : {b : Bool} → b ≡ true → b ≢ false
available t f = cc

-- An open of scull_wuid sleeps while the device is not available to its caller and may sleep, and
-- stops at the first of the devices it finds, `last`, that is available. There it
-- comes in as `claimed` says. It fails only with EAGAIN, at a device that is taken where it may not
-- sleep, or with ERESTARTSYS, where it slept on one that is taken and a signal came; it still sleeps
-- only when there is nothing more to find. Where it does not come in it has changed nothing.
pub wuid_enter_lem :
    (c : Caller) (nonblock : Bool) (rs : List Round) (w : ScullWuid)
    → (last : ScullWuid) × (wake : Wake) × LastMet c nonblock rs w last wake
      × (enter rs w c nonblock ≡ entry_at c last wake)
unfolding enter EntryOf
wuid_enter_lem c nonblock [] w =
    if_cases (EntryOf c nonblock [] w) (scull_w_available w c)
      (λ h. stays c nonblock [] w goes_on (available h))
      (λ h.
        if_cases (EntryOf c nonblock [] w) nonblock (λ n. stays c nonblock [] w would_block (h, n))
          (λ n. (w, still_asleep, (refl, inr (h, n, refl)), refl)))
wuid_enter_lem c nonblock (r ∷ rs) w =
    if_cases (EntryOf c nonblock (r ∷ rs) w) (scull_w_available w c)
      (λ h. stays c nonblock (r ∷ rs) w goes_on (available h))
      (λ h.
        if_cases (EntryOf c nonblock (r ∷ rs) w) nonblock
          (λ n. stays c nonblock (r ∷ rs) w would_block (h, n))
          (λ n.
            if_cases (EntryOf c nonblock (r ∷ rs) w) r.signal
              (λ s. (r.found, signalled, inr (h, n, inl (s, refl, refl)), refl))
              (λ s.
                let (last, wake, at, e) = wuid_enter_lem c nonblock rs r.found in
                (last, wake, inr (h, n, inr (s, at)), e))))

zero_int : (n : ℕ) → is_zero (to_int (pos n)) ≡ (n % 2 ^ 32 == 0)
unfolding to_int
zero_int n = ground arith

-- A release by one of the users, of whom there are fewer than a size_t can count, leaves one less.
-- The openers that wait are woken exactly where the number left is a multiple of 2 ^ 32, which the
-- copy to an int makes 0. With at most 2 ^ 32 users this is where nobody is left, and then any
-- caller may come in.
pub wuid_release_lem :
    (w : ScullWuid) (c : Caller)
    → 0 < w.count
    → w.count < size_mod
    → let (w', r, woken) = scull_wuid_release w in
      (w' ≡ record w { count = w.count - 1 })
      × (r ≡ ok tt)
      × (woken ≡ ((w.count - 1) % 2 ^ 32 == 0))
      × (w.count ≤ 2 ^ 32
          → (woken ≡ (w.count == 1)) × (woken ≡ true → scull_w_available w' c ≡ true))
unfolding scull_wuid_release drop_user scull_dev_release
wuid_release_lem w c some_user small =
    let less : (w.count + size_mod - 1) % size_mod ≡ w.count - 1 = omega arith in
    let woken_is : is_zero (to_int (pos ((w.count + size_mod - 1) % size_mod)))
        ≡ ((w.count - 1) % 2 ^ 32 == 0) =
      ap (λ n. is_zero (to_int (pos n))) less ∙ zero_int (w.count - 1) in
    (
      ap (λ n. record w { count = n }) less,
      refl,
      woken_is,
      λ few. (
        woken_is ∙ ground arith,
        λ woken.
            let nobody : ((w.count + size_mod - 1) % size_mod == 0) ≡ true =
              ground (arith, woken_is, woken, few) in
            ap (λ b. b || (w.owner == c.uid || (w.owner == c.euid || c.dac_override))) nobody,
      ),
    )
