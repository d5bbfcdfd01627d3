-- ===== src/Prelude/Slices.antt =====
-- Parts of a list that are taken one after the other.
use Prim.Native.Nat.{ℕ, zero, suc, ◌+◌, ◌≤◌}
use mathlib.Core.Path.{◌≡◌, refl, ap, sym, ◌∙◌}
use mathlib.Core.List.{append_assoc, append-nil, List, [], ◌∷◌, ◌++◌}
use native.Mathlib.Omega.{arith}
use ldd3_kernel.Prelude.Lists.{length, length-append, take, drop, replicate, overwrite}

suc_add : (m n : ℕ) → suc m + n ≡ suc (m + n)
suc_add m n = omega arith

zero_add : (n : ℕ) → 0 + n ≡ n
zero_add n = omega arith

module _ {ℓ} {A : Type ℓ} where
  drop-nil : (n : ℕ) → drop {A = A} n [] ≡ []
  drop-nil zero = refl
  drop-nil (suc n) = refl

  pub drop-drop : (n m : ℕ) (xs : List A) → drop n (drop m xs) ≡ drop (m + n) xs
  drop-drop n zero xs = ground arith
  drop-drop n (suc m) [] = drop-nil n ∙ sym (drop-nil (suc m + n))
  drop-drop n (suc m) (x ∷ xs) = rw (suc_add m n) (drop-drop n m xs)

  take-nil : (n : ℕ) → take {A = A} n [] ≡ []
  take-nil zero = refl
  take-nil (suc n) = refl

  pub take-all : (n : ℕ) (xs : List A) → length xs ≤ n → take n xs ≡ xs
  take-all n [] h = take-nil n
  take-all zero (x ∷ xs) h = absurd (omega (arith, h))
  take-all (suc n) (x ∷ xs) h = ap (λ t. x ∷ t) (take-all n xs (omega arith))

  pub take-drop : (n m : ℕ) (xs : List A) → drop n (take (n + m) xs) ≡ take m (drop n xs)
  take-drop zero m xs = ground arith
  take-drop (suc n) m [] = rw (take-nil (suc n + m)) (sym (take-nil m))
  take-drop (suc n) m (x ∷ xs) = rw (suc_add n m) (take-drop n m xs)

  pub take-take : (n m : ℕ) (xs : List A) → n ≤ m → take n (take m xs) ≡ take n xs
  take-take zero m xs h = refl
  take-take (suc n) zero xs h = elim h [ ]
  take-take (suc n) (suc m) [] h = refl
  take-take (suc n) (suc m) (x ∷ xs) h = ap (λ t. x ∷ t) (take-take n m xs (omega arith))

  pub take-split : (n m : ℕ) (xs : List A) → take n xs ++ take m (drop n xs) ≡ take (n + m) xs
  take-split zero m xs = ground arith
  take-split (suc n) m [] = take-nil m ∙ sym (take-nil (suc n + m))
  take-split (suc n) m (x ∷ xs) = rw (suc_add n m) (ap (λ t. x ∷ t) (take-split n m xs))

  pub overwrite-nil : (xs : List A) (i : ℕ) → overwrite xs i [] ≡ xs
  overwrite-nil xs zero = refl
  overwrite-nil [] (suc i) = drop-nil (suc i + 0)
  overwrite-nil (x ∷ xs) (suc i) = ground (arith, overwrite-nil xs i)

  append-overwrite :
      (a b ys : List A) → overwrite (a ++ ys) (length a) b ≡ a ++ (b ++ drop (length b) ys)
  append-overwrite [] b ys = rw (zero_add (length b)) refl
  append-overwrite (x ∷ a) b ys =
      rw (suc_add (length a) (length b)) (ap (λ t. x ∷ t) (append-overwrite a b ys))

  -- To write a list and then another one behind it is to write the two in one.
  pub overwrite-append :
      (xs : List A) (i : ℕ) (a b : List A)
      → i + length a ≤ length xs
      → overwrite (overwrite xs i a) (i + length a) b ≡ overwrite xs i (a ++ b)
  overwrite-append xs zero a b h =
      rw (zero_add (length a), zero_add (length (a ++ b)))
        (append-overwrite a b (drop (length a) xs)
          ∙ ap (λ t. a ++ (b ++ t)) (drop-drop (length b) (length a) xs)
          ∙ sym (append_assoc a b (drop (length a + length b) xs))
          ∙ ap (λ i. (a ++ b) ++ drop i xs) (sym (length-append a b)))
  overwrite-append [] (suc i) a b h = absurd (omega (arith, h))
  overwrite-append (x ∷ xs) (suc i) a b h =
      rw (suc_add i (length a), suc_add i (length (a ++ b)), suc_add (i + length a) (length b))
        (ap (λ t. x ∷ t) (overwrite-append xs i a b (omega arith)))

  pub take-append : (xs ys : List A) → take (length xs) (xs ++ ys) ≡ xs
  take-append [] ys = refl
  take-append (x ∷ xs) ys = ap (λ t. x ∷ t) (take-append xs ys)

  pub drop-append : (xs ys : List A) → drop (length xs) (xs ++ ys) ≡ ys
  drop-append [] ys = refl
  drop-append (x ∷ xs) ys = drop-append xs ys

  -- Behind the place where it is written, the list that is written comes first.
  pub drop-overwrite :
      (xs : List A) (i : ℕ) (src : List A)
      → i ≤ length xs
      → drop i (overwrite xs i src) ≡ src ++ drop (i + length src) xs
  drop-overwrite xs zero src h = refl
  drop-overwrite [] (suc i) src h = absurd (omega (arith, h))
  drop-overwrite (x ∷ xs) (suc i) src h =
      rw (suc_add i (length src)) (drop-overwrite xs i src (omega (arith, h)))

  drop-all : (xs : List A) (n : ℕ) → length xs ≡ n → drop n xs ≡ []
  drop-all [] n h = drop-nil n
  drop-all (x ∷ xs) zero h = absurd (omega (arith, h))
  drop-all (x ∷ xs) (suc n) h = drop-all xs n (omega (arith, h))

  pub overwrite-all : (xs src : List A) → length xs ≡ length src → overwrite xs 0 src ≡ src
  overwrite-all xs src h =
      ap (λ n. src ++ drop n xs) (zero_add (length src))
      ∙ ap (λ t. src ++ t) (drop-all xs (length src) h)
      ∙ append-nil src

  pub overwrite-replicate :
      (xs : List A) (a : A) → overwrite xs 0 (replicate (length xs) a) ≡ replicate (length xs) a
  overwrite-replicate [] a = refl
  overwrite-replicate (x ∷ xs) a = ground (arith, overwrite-replicate xs a)
