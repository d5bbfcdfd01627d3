-- ===== src/Snull/Addresses.antt =====
-- The addresses that snull_hw_tx changes.
use ldd3_kernel.Prelude.{
  ℕ, zero, suc, ◌≡◌, refl, ap, sym, ◌∙◌, List, [], ◌∷◌, arith, get_elem?, Option-cases, inl, inr,
}
use ldd3_kernel.Snull.Transmit.{xor_one, flip, twist}

xor_one-xor_one : (x : ℕ) → xor_one (xor_one x) ≡ x
xor_one-xor_one x = ground arith

-- Past the first byte, the change is made in the rest.
flip-suc : (i x : ℕ) (xs : List ℕ) → flip (suc i) (x ∷ xs) ≡ x ∷ flip i xs
flip-suc i x xs = elim (Option-cases (get_elem? xs i)) [
  | inl e ↦ rw (e, flip) refl
  | inr (y, e) ↦ rw (e, flip) refl
]

flip-flip : (i : ℕ) (xs : List ℕ) → flip i (flip i xs) ≡ xs
flip-flip i [] = refl
flip-flip zero (x ∷ xs) = ap (λ y. y ∷ xs) (xor_one-xor_one x)
flip-flip (suc i) (x ∷ xs) =
    ap (flip (suc i)) (flip-suc i x xs)
    ∙ flip-suc i x (flip i xs)
    ∙ ap (λ t. x ∷ t) (flip-flip i xs)

flip-commutes : (i j : ℕ) (xs : List ℕ) → flip i (flip j xs) ≡ flip j (flip i xs)
flip-commutes i j [] = refl
flip-commutes zero zero (x ∷ xs) = refl
flip-commutes zero (suc j) (x ∷ xs) =
    ap (flip zero) (flip-suc j x xs) ∙ sym (flip-suc j (xor_one x) xs)
flip-commutes (suc i) zero (x ∷ xs) =
    flip-suc i (xor_one x) xs ∙ sym (ap (flip zero) (flip-suc i x xs))
flip-commutes (suc i) (suc j) (x ∷ xs) =
    ap (flip (suc i)) (flip-suc j x xs)
    ∙ flip-suc i x (flip j xs)
    ∙ ap (λ t. x ∷ t) (flip-commutes i j xs)
    ∙ sym (flip-suc j x (flip i xs))
    ∙ ap (flip (suc j)) (sym (flip-suc i x xs))

-- To change the network octets of both addresses twice, as a frame that goes to the twin and
-- comes back has it done, restores the frame.
pub twist-twist : (buf : List ℕ) → twist (twist buf) ≡ buf
twist-twist buf =
    ap (flip 32) (flip-commutes 28 32 (flip 28 buf))
    ∙ flip-flip 32 (flip 28 (flip 28 buf))
    ∙ flip-flip 28 buf
