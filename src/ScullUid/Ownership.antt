-- ===== src/ScullUid/Ownership.antt =====
-- Opens and releases of scull_uid by any processes.
use ldd3_kernel.Prelude.{
  ℕ, ◌+◌, ◌<◌, ◌≡◌, refl, sym, subst, inl, inr, Bool, true, false, not, ◌&&◌, ◌||◌, ◌==◌,
  if◌then◌else◌, List, [], ◌∷◌, ◌++◌, length, length-append, All, none, some, arith, Bool-cases,
}
use mathlib.Core.Option.{some-injective}
use ldd3_kernel.Int.{size_mod}
use ldd3_kernel.ScullDev.{ScullDev}
use ldd3_kernel.ScullUid.{ScullUid, Caller, init_scull_uid, refuses, entered, grab, drop_user}

-- The states that opens and releases lead to, with the callers that have the device open. What the
-- files do to the memory device in between is left open.
pub data Reachable : ScullUid → List Caller → Type 0 where
  fresh : Reachable init_scull_uid []
  enters :
      {u u' : ScullUid} {users : List Caller} (c : Caller)
      → Reachable u users
      → length users + 1 < size_mod
      → grab u c ≡ some u'
      → Reachable u' (c ∷ users)
  leaves :
      {u : ScullUid} (before : List Caller) (c : Caller) (after : List Caller)
      → Reachable u (before ++ (c ∷ after))
      → Reachable (drop_user u) (before ++ after)
  uses :
      {u : ScullUid} {users : List Caller} (dev : ScullDev)
      → Reachable u users
      → Reachable (record u { dev = dev }) users

-- A caller that may have the device open: the owner, one who did su to it or from it, or root
abbrev pub is_admitted : ℕ → Caller → Bool
is_admitted owner c = owner == c.uid || (owner == c.euid || c.dac_override)

All-remove :
    {A : Type 0} (P : A → Type 0) (xs : List A) (y : A) (ys : List A)
    → All P (xs ++ (y ∷ ys))
    → All P (xs ++ ys)
All-remove P [] y ys h = h.1
All-remove P (x ∷ xs) y ys h = (h.0, All-remove P xs y ys h.1)

-- What a successful entry has done
grabbed :
    (u u' : ScullUid) (c : Caller) → grab u c ≡ some u' → (refuses u c ≡ false) × (entered u c ≡ u')
unfolding grab
grabbed u u' c e = go (refuses u c) e
  where
    none-ne-some : none ≡ some u' → ⊥
    none-ne-some d = cc

    go :
        (b : Bool)
        → (if b then none else some (entered u c)) ≡ some u'
        → (b ≡ false) × (entered u c ≡ u')
    go true d = absurd (none-ne-some d)
    go false d = (refl, some-injective _ _ d)

nobody : (P : Caller → Type 0) (users : List Caller) → length users ≡ 0 → All P users
nobody P [] h = tt
nobody P (c ∷ cs) h = absurd (omega arith)

-- Entering keeps everyone admitted: a new owner comes only where there is nobody.
entered-admits :
    (u : ScullUid) (c : Caller) (users : List Caller)
    → u.count ≡ length users
    → refuses u c ≡ false
    → All (λ d. is_admitted u.owner d ≡ true) users
    → All (λ d. is_admitted (entered u c).owner d ≡ true) (c ∷ users)
entered-admits u c users n fine h = elim (Bool-cases (u.count == 0)) [
  | inl first ↦
      subst with_owner (sym first)
        (ground arith, nobody (λ d. is_admitted c.uid d ≡ true) users ((ground (arith, first))))
  | inr later ↦ subst with_owner (sym later) (admitted (u.count == 0) later fine, h)
]
  where
    with_owner : Bool → Type 0
    with_owner b = All (λ d. is_admitted (if b then c.uid else u.owner) d ≡ true) (c ∷ users)

    admitted :
        (b : Bool)
        → b ≡ false
        → not b && (not (u.owner == c.uid) && (not (u.owner == c.euid) && not c.dac_override))
          ≡ false
        → is_admitted u.owner c ≡ true
    admitted b e q = ground (arith, e, q)

-- While files have a scull_uid device open, the count is their number, and each belongs to the user
-- who owns the device, or to a process with that effective user, or to root.
pub uid_owned :
    {u : ScullUid} {users : List Caller}
    → Reachable u users
    → (u.count ≡ length users)
      × (length users < size_mod)
      × All (λ c. is_admitted u.owner c ≡ true) users
unfolding init_scull_uid drop_user
uid_owned fresh = (refl, omega arith, tt)
uid_owned (enters {u} {u'} {users} c t small e) =
    let (n, below, fine) = uid_owned t in
    let (admitted, same) = grabbed u u' c e in
    subst
      (λ v.
        (v.count ≡ length (c ∷ users))
        × (length (c ∷ users) < size_mod)
        × All (λ d. is_admitted v.owner d ≡ true) (c ∷ users))
      same (omega arith, omega arith, entered-admits u c users n admitted fine)
uid_owned (leaves {u} before c after t) =
    let (n, small, fine) = uid_owned t in
    let fewer : length (before ++ (c ∷ after)) ≡ length (before ++ after) + 1 =
      omega (arith, length-append before (c ∷ after), length-append before after) in
    (
      omega (arith, fewer),
      omega arith,
      All-remove (λ d. is_admitted u.owner d ≡ true) before c after fine,
    )
uid_owned (uses dev t) = uid_owned t
