-- ===== src/Prelude/Lists.antt =====
-- Lists measured and indexed by native numbers, under the library's names.
use Prim.Native.Nat.{ℕ, zero, suc, ◌+◌, ◌-◌, ◌≤◌, ◌<◌, min}
use mathlib.Core.Path.{◌≡◌, refl, ap, ap₂, ◌∙◌, subst}
use mathlib.Core.Logic.{◌≢◌}
use mathlib.Core.List.{List, [], ◌∷◌, ◌++◌}
use mathlib.Core.Option.{Option, none, some, some-injective}
use native.Mathlib.Omega.{arith}

module _ {ℓ} {A : Type ℓ} where
  abbrev pub length : List A → ℕ
  length [] = 0
  length (x ∷ xs) = suc (length xs)

  abbrev pub get_elem? : List A → ℕ → Option A
  get_elem? [] i = none
  get_elem? (x ∷ xs) zero = some x
  get_elem? (x ∷ xs) (suc i) = get_elem? xs i

  -- A write out of bounds changes nothing.
  abbrev pub set : List A → ℕ → A → List A
  set [] i v = []
  set (x ∷ xs) zero v = v ∷ xs
  set (x ∷ xs) (suc i) v = x ∷ set xs i v

  abbrev pub take : ℕ → List A → List A
  take zero xs = []
  take (suc n) [] = []
  take (suc n) (x ∷ xs) = x ∷ take n xs

  abbrev pub drop : ℕ → List A → List A
  drop zero xs = xs
  drop (suc n) [] = []
  drop (suc n) (x ∷ xs) = drop n xs

  abbrev pub replicate : ℕ → A → List A
  replicate zero a = []
  replicate (suc n) a = a ∷ replicate n a

  -- memcpy into a list: `src` goes over the elements from index `i` on.
  abbrev pub overwrite : List A → ℕ → List A → List A
  overwrite xs i src = take i xs ++ (src ++ drop (i + length src) xs)

  abbrev pub All {κ} : (A → Type κ) → List A → Type κ
  All P [] = Unit
  All P (x ∷ xs) = P x × All P xs

  pub length-append : (xs ys : List A) → length (xs ++ ys) ≡ length xs + length ys
  length-append [] ys = omega arith
  length-append (x ∷ xs) ys = omega (arith, length-append xs ys)

  pub length-set : (xs : List A) (i : ℕ) (v : A) → length (set xs i v) ≡ length xs
  length-set [] i v = refl
  length-set (x ∷ xs) zero v = refl
  length-set (x ∷ xs) (suc i) v = ap suc (length-set xs i v)

  pub length-take : (n : ℕ) (xs : List A) → length (take n xs) ≡ min n (length xs)
  length-take zero xs = omega arith
  length-take (suc n) [] = omega arith
  length-take (suc n) (x ∷ xs) = omega (arith, length-take n xs)

  pub length-drop : (n : ℕ) (xs : List A) → length (drop n xs) ≡ length xs - n
  length-drop zero xs = omega arith
  length-drop (suc n) [] = omega arith
  length-drop (suc n) (x ∷ xs) = omega (arith, length-drop n xs)

  pub length-replicate : (n : ℕ) (a : A) → length (replicate n a) ≡ n
  length-replicate zero a = refl
  length-replicate (suc n) a = ap suc (length-replicate n a)

  pub get_elem?-set_self :
      (xs : List A) (i : ℕ) (v : A) → i < length xs → get_elem? (set xs i v) i ≡ some v
  get_elem?-set_self [] i v h = elim h [ ]
  get_elem?-set_self (x ∷ xs) zero v h = refl
  get_elem?-set_self (x ∷ xs) (suc i) v h = get_elem?-set_self xs i v (omega arith)

  pub get_elem?-set_ne :
      (xs : List A) (i j : ℕ) (v : A) → i ≢ j → get_elem? (set xs i v) j ≡ get_elem? xs j
  get_elem?-set_ne [] i j v h = refl
  get_elem?-set_ne (x ∷ xs) zero zero v h = absurd (h refl)
  get_elem?-set_ne (x ∷ xs) zero (suc j) v h = refl
  get_elem?-set_ne (x ∷ xs) (suc i) zero v h = refl
  get_elem?-set_ne (x ∷ xs) (suc i) (suc j) v h = get_elem?-set_ne xs i j v (λ e. h (ap suc e))

  pub get_elem?-some : (xs : List A) (i : ℕ) → i < length xs → (a : A) × (get_elem? xs i ≡ some a)
  get_elem?-some [] i h = elim h [ ]
  get_elem?-some (x ∷ xs) zero h = (x, refl)
  get_elem?-some (x ∷ xs) (suc i) h = get_elem?-some xs i (omega arith)

  pub get_elem?-lt : (xs : List A) (i : ℕ) {a : A} → get_elem? xs i ≡ some a → i < length xs
  get_elem?-lt [] i e = cc
  get_elem?-lt (x ∷ xs) zero e = omega arith
  get_elem?-lt (x ∷ xs) (suc i) e = omega (arith, get_elem?-lt xs i e)

  pub get_elem?-append_left :
      (xs ys : List A) (i : ℕ) → i < length xs → get_elem? (xs ++ ys) i ≡ get_elem? xs i
  get_elem?-append_left [] ys i h = elim h [ ]
  get_elem?-append_left (x ∷ xs) ys zero h = refl
  get_elem?-append_left (x ∷ xs) ys (suc i) h = get_elem?-append_left xs ys i (omega arith)

  pub get_elem?-append_right :
      (xs ys : List A) (i : ℕ)
      → length xs ≤ i
      → get_elem? (xs ++ ys) i ≡ get_elem? ys (i - length xs)
  get_elem?-append_right [] ys i h = ap (get_elem? ys) (omega arith)
  get_elem?-append_right (x ∷ xs) ys zero h = elim h [ ]
  get_elem?-append_right (x ∷ xs) ys (suc i) h =
      get_elem?-append_right xs ys i (omega arith) ∙ ap (get_elem? ys) (omega arith)

  pub get_elem?-take :
      (n : ℕ) (xs : List A) (i : ℕ) → i < n → get_elem? (take n xs) i ≡ get_elem? xs i
  get_elem?-take zero xs i h = elim h [ ]
  get_elem?-take (suc n) [] i h = refl
  get_elem?-take (suc n) (x ∷ xs) zero h = refl
  get_elem?-take (suc n) (x ∷ xs) (suc i) h = get_elem?-take n xs i (omega arith)

  pub get_elem?-drop :
      (n : ℕ) (xs : List A) (i : ℕ) → get_elem? (drop n xs) i ≡ get_elem? xs (n + i)
  get_elem?-drop zero xs i = ap (get_elem? xs) (omega arith)
  get_elem?-drop (suc n) [] i = refl
  get_elem?-drop (suc n) (x ∷ xs) i =
      let e : suc n + i ≡ suc (n + i) = omega arith in rw e (get_elem?-drop n xs i)

  -- Two lists of one length with the same elements are equal.
  pub list_ext :
      (xs ys : List A)
      → length xs ≡ length ys
      → ((j : ℕ) → j < length xs → get_elem? xs j ≡ get_elem? ys j)
      → xs ≡ ys
  list_ext [] [] l h = refl
  list_ext [] (y ∷ ys) l h = absurd (omega arith)
  list_ext (x ∷ xs) [] l h = absurd (omega arith)
  list_ext (x ∷ xs) (y ∷ ys) l h =
      ap₂ ◌∷◌ (some-injective _ _ (h 0 (omega arith)))
        (list_ext xs ys (omega arith) (λ j lt. h (suc j) (omega arith)))

  pub length-overwrite :
      (xs : List A) (i : ℕ) (src : List A)
      → i + length src ≤ length xs
      → length (overwrite xs i src) ≡ length xs
  length-overwrite xs i src h = omega (
    arith,
    length-append (take i xs) (src ++ drop (i + length src) xs),
    length-append src (drop (i + length src) xs),
    length-take i xs,
    length-drop (i + length src) xs,
  )

  -- Inside the part that is written over stands the source, outside it what was there.
  pub get_elem?-overwrite_in :
      (xs : List A) (i : ℕ) (src : List A) (m : ℕ)
      → i ≤ length xs
      → m < length src
      → get_elem? (overwrite xs i src) (i + m) ≡ get_elem? src m
  get_elem?-overwrite_in xs i src m h l =
      get_elem?-append_right (take i xs) (src ++ drop (i + length src) xs) (i + m)
        (omega (arith, length-take i xs))
      ∙ ap (get_elem? (src ++ drop (i + length src) xs)) (omega (arith, length-take i xs))
      ∙ get_elem?-append_left src (drop (i + length src) xs) m l

  pub get_elem?-overwrite_below :
      (xs : List A) (i : ℕ) (src : List A) (m : ℕ)
      → i ≤ length xs
      → m < i
      → get_elem? (overwrite xs i src) m ≡ get_elem? xs m
  get_elem?-overwrite_below xs i src m h l =
      get_elem?-append_left (take i xs) (src ++ drop (i + length src) xs) m
        (omega (arith, length-take i xs))
      ∙ get_elem?-take i xs m l

  pub get_elem?-overwrite_above :
      (xs : List A) (i : ℕ) (src : List A) (m : ℕ)
      → i ≤ length xs
      → i + length src ≤ m
      → get_elem? (overwrite xs i src) m ≡ get_elem? xs m
  get_elem?-overwrite_above xs i src m h l =
      get_elem?-append_right (take i xs) (src ++ drop (i + length src) xs) m
        (omega (arith, length-take i xs))
      ∙ get_elem?-append_right src (drop (i + length src) xs) (m - length (take i xs))
          (omega (arith, length-take i xs))
      ∙ get_elem?-drop (i + length src) xs (m - length (take i xs) - length src)
      ∙ ap (get_elem? xs) (omega (arith, length-take i xs))

module _ {ℓ κ} {A : Type ℓ} (P : A → Type κ) where
  pub All-get_elem? : (xs : List A) (i : ℕ) (a : A) → All P xs → get_elem? xs i ≡ some a → P a
  All-get_elem? [] i a h e = absurd (none-ne-some e)
    where
      none-ne-some : none ≡ some a → ⊥
      none-ne-some e' = cc
  All-get_elem? (x ∷ xs) zero a h e = subst P (some-injective _ _ e) h.0
  All-get_elem? (x ∷ xs) (suc i) a h e = All-get_elem? xs i a h.1 e

  pub All-set : (xs : List A) (i : ℕ) (a : A) → All P xs → P a → All P (set xs i a)
  All-set [] i a h p = h
  All-set (x ∷ xs) zero a h p = (p, h.1)
  All-set (x ∷ xs) (suc i) a h p = (h.0, All-set xs i a h.1 p)

  pub All-replicate : (n : ℕ) (a : A) → P a → All P (replicate n a)
  All-replicate zero a p = tt
  All-replicate (suc n) a p = (p, All-replicate n a p)
