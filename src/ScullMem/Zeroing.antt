-- ===== src/ScullMem/Zeroing.antt =====
-- The memset that follows each allocation of a quantum, and the kernel whose memory comes zeroed.
use ldd3_kernel.Prelude.{
  ℕ, zero, suc, ◌+◌, ◌*◌, ◌/◌, ◌%◌, ◌≡◌, refl, ap, sym, ◌∙◌, List, [], ◌∷◌, Option, none, some,
  arith, leb, if◌then◌else◌, length, replicate, overwrite, Option-cases, inl, inr, le→leb,
  overwrite-replicate, length-replicate,
}
use mathlib.Core.Option.{some-injective}
use ldd3_kernel.Int.{ℤ, to_size, size_mod}
use ldd3_kernel.Kernel.{Kernel, IsLawful, Run, done, fault, bad_access}
use ldd3_kernel.ScullDev.{ScullQset, Quantum, zeroed_qset}
use ldd3_kernel.ScullDev.Follow.{follow, after_node, qset_bytes, pointer_bytes}
use ldd3_kernel.ScullDev.Write.{array_or_new}

-- `memset(dptr->data[s_pos], 0, quantum)`, for a block that is not null
unfoldable pub zeroed : ℕ → Option Quantum → Run (Option Quantum)
zeroed quantum none = done none
zeroed quantum (some mem) =
    if leb quantum (length mem)
    then done (some (overwrite mem 0 (replicate quantum 0)))
    else fault bad_access

abbrev pub zero_mem : Option (List ℕ) → Option (List ℕ)
zero_mem none = none
zero_mem (some mem) = some (replicate (length mem) 0)

pub zeroed_lem :
    (q : ℕ) (o : Option Quantum)
    → ((b : Quantum) → o ≡ some b → length b ≡ q)
    → zeroed q o ≡ done (zero_mem o)
unfolding zeroed
zeroed_lem q none h = refl
zeroed_lem q (some mem) h =
    rw (le→leb q (length mem) (omega (arith, h mem refl)), ← h mem refl)
      (ap (λ b. done (some b)) (overwrite-replicate mem 0))

module _ (k k' : Kernel) (same : (c n : ℕ) → k'.kmalloc c n ≡ zero_mem (k.kmalloc c n)) where
  pub follow-same : (c n : ℕ) (qsets : List ScullQset) → follow k c n qsets ≡ follow k' c n qsets
  unfolding follow
  follow-same c zero [] = elim (Option-cases (k.kmalloc c qset_bytes)) [
    | inl e ↦ rw (same c qset_bytes, e, follow) refl
    | inr (mem, e) ↦ rw (same c qset_bytes, e, follow) refl
  ]
  follow-same c zero (node ∷ rest) = refl
  follow-same c (suc n) [] = elim (Option-cases (k.kmalloc c qset_bytes)) [
    | inl e ↦ rw (same c qset_bytes, e, follow) refl
    | inr (mem, e) ↦
        rw (same c qset_bytes, e, follow) (ap (after_node zeroed_qset) (follow-same (c + 1) n []))
  ]
  follow-same c (suc n) (node ∷ rest) = ap (after_node node) (follow-same c n rest)

  pub array_or_new-same :
      (c : ℕ) (z : ℤ) (o : Option (List (Option Quantum)))
      → array_or_new k c z o ≡ array_or_new k' c z o
  unfolding array_or_new
  array_or_new-same c z (some arr) = refl
  array_or_new-same c z none =
      let n : ℕ = to_size z * pointer_bytes % size_mod in
      elim (Option-cases (k.kmalloc c n)) [
        | inl e ↦ rw (same c n, e, array_or_new) refl
        | inr (mem, e) ↦
            rw (same c n, e, array_or_new)
              (ap (λ i. (some (replicate (i / pointer_bytes) none), c + 1))
                (sym (length-replicate (length mem) 0)))
      ]

  pub zeroed_size : IsLawful k → (c n : ℕ) (b : List ℕ) → k'.kmalloc c n ≡ some b → length b ≡ n
  zeroed_size lawful c n b e = elim (Option-cases (k.kmalloc c n)) [
    | inl missing ↦ absurd (none-ne-some (ap zero_mem (sym missing) ∙ sym (same c n) ∙ e))
    | inr (mem, there) ↦
        ap length (sym (some-injective _ _ (ap zero_mem (sym there) ∙ sym (same c n) ∙ e)))
        ∙ length-replicate (length mem) 0
        ∙ lawful.kmalloc_size c n mem there
  ]
    where
      none-ne-some : none ≡ some b → ⊥
      none-ne-some d = cc
