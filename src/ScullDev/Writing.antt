-- ===== src/ScullDev/Writing.antt =====
-- What scull_dev_write does on a valid device, branch by branch.
use ldd3_kernel.Prelude.{
  ℕ, ◌+◌, ◌-◌, ◌*◌, ◌%◌, ◌≤◌, ◌<◌, ◌≡◌, refl, ap, sym, subst, ◌∙◌, ◌⊎◌, inl, inr, min, List, Option,
  none, some, arith, length, get_elem?, Bool-cases, ◌==◌, if◌then◌else◌, le→leb, overwrite,
  get_elem?-some, get_elem?-set_self, get_elem?-lt, All-get_elem?, length-overwrite, div-lt_of_mod,
}
use native.Mathlib.Nat.{mod-lt}
use ldd3_kernel.Int.{pos, to_uint, to_uint-pos, to_long-pos, int_min_abs, long_min_abs}
use ldd3_kernel.Kernel.{Kernel, IsLawful, ok, err, efault, enomem, Run, done}
use ldd3_kernel.ScullDev.{ScullDev, ScullQset, Quantum}
use ldd3_kernel.ScullDev.Follow.{follow}
use ldd3_kernel.ScullDev.Write.{
  write_place, write_array, write_slot, write_quantum, copy_in, Writing, array_or_new,
  quantum_or_new, put_array, put_quantum, grow,
}
use ldd3_kernel.ScullDev.Valid.{IsValid, NodeFits, ArrayFits, QuantumFits}
use ldd3_kernel.ScullDev.Places.{
  item, slot, offset, place, IsReachable, block_at, follow-All, follow-found, follow-lost,
  block_at-follow,
}
use ldd3_kernel.ScullDev.Lookup.{within_quantum-min, fetch-some}
use ldd3_kernel.ScullDev.Storage.{
  Same, Stored, array_or_new_cases, quantum_or_new_cases, put_array-Same, put_quantum-Stored,
  Same-trans, Same-Stored, block_at-get_elem?,
}

-- How many bytes a write at `p` takes.
abbrev pub writable : ℕ → ℕ → ℕ → ℕ → ℕ
writable q s count p = min count (q - offset q s p)

-- What the copy of `n` bytes leaves in the quantum `old`.
abbrev pub copied_over : Kernel → ℕ → ℕ → List ℕ → ℕ → ℕ → Quantum → Quantum
copied_over k q s buf n p old = overwrite old (offset q s p) (k.copy_from_user buf n).0

module _ (k : Kernel) (lawful : IsLawful k) (q s : ℕ) (dev : ScullDev) (v : IsValid q s dev)
    (buf : List ℕ) (count p : ℕ) (buf_fits : count ≤ length buf) (r : IsReachable q s p)
    (in_range : p + count < long_min_abs) where
  abbrev taken : ℕ
  taken = writable q s count p

  abbrev copied : Quantum → Quantum
  copied = copied_over k q s buf taken p

  -- No memory: nothing but null links, nodes and arrays has changed.
  pub record NoMemory (out : Run Writing) : Type 0 where
    pub dev' : ScullDev
    pub same : Same q s dev dev'
    pub request : (c : ℕ) × (n : ℕ) × (k.kmalloc c n ≡ none)
    pub is_done : out ≡ done (dev', pos p, err enomem)

  -- The quantum at `p` has been copied to.
  pub record Copied (out : Run Writing) : Type 0 where
    pub dev' : ScullDev
    pub old : Quantum
    pub old_length : length old ≡ q
    pub old_stored :
        (block_at dev.qsets (item q s p) (slot q s p) ≡ none)
        ⊎ (block_at dev.qsets (item q s p) (slot q s p) ≡ some old)
    pub stored : Stored q s dev dev' (item q s p) (slot q s p) (copied old)
    pub is_done : out ≡ (
        if (k.copy_from_user buf taken).1 == 0
        then done (grow dev' (pos (p + taken)), pos (p + taken), ok taken)
        else done (dev', pos p, err efault))

  taken_fits : offset q s p + taken ≤ q
  taken_fits = grind (arith, mod-lt (p % (q * s)) v.quantum_pos)

  length-copied : (old : Quantum) → length old ≡ q → length (copied old) ≡ q
  length-copied old l =
      length-overwrite old (offset q s p) (k.copy_from_user buf taken).0
        (omega (arith, lawful.copied_size buf taken (omega (arith, buf_fits)), taken_fits, l))
      ∙ l

  -- `copy_in` on a quantum that is there, or has just been allocated.
  copy_in_lem :
      (dev₂ : ScullDev) (i : ℕ) (arr : List (Option Quantum)) (j : ℕ) (old : Quantum)
      → length old ≡ q
      → copy_in k dev₂ i arr j old buf taken (pos p) (offset q s p) ≡ (
          if (k.copy_from_user buf taken).1 == 0
          then done (
            grow (put_quantum dev₂ i arr j (copied old)) (pos (p + taken)),
            pos (p + taken),
            ok taken,
          )
          else done (put_quantum dev₂ i arr j (copied old), pos p, err efault))
  unfolding copy_in
  copy_in_lem dev₂ i arr j old l = simp (
    le→leb (offset q s p + taken) (length old) (omega (arith, taken_fits, l)),
    to_long-pos (p + taken) (omega (arith, in_range)),
  )

  module _ (dev₂ : ScullDev) (same : Same q s dev dev₂) (arr : List (Option Quantum))
      (there : get_elem? dev₂.qsets (item q s p) ≡ some (record { quanta = some arr }))
      (array_fits : ArrayFits q s (some arr)) (c : ℕ) where
    slot-lt : slot q s p < s
    slot-lt = div-lt_of_mod p q s v.quantum_pos v.qset_pos

    abbrev slot_outcome : Run Writing
    slot_outcome =
        write_slot k c dev₂ (item q s p) arr buf (pos p) (pos (slot q s p)) (pos (offset q s p))
          taken

    by_quantum :
        (here : Option Quantum) {o : Option Quantum}
        → quantum_or_new k c (pos q) here ≡ o
        → quantum_or_new k c dev₂.quantum here ≡ o
    by_quantum here e = ap (λ z. quantum_or_new k c z here) same.valid.quantum_is ∙ e

    write_slot_at :
        (here : Option Quantum)
        → get_elem? arr (slot q s p) ≡ some here
        → NoMemory slot_outcome ⊎ Copied slot_outcome
    unfolding write_slot write_quantum
    write_slot_at here e =
        elim (quantum_or_new_cases k lawful q s v.quantum_pos v.qset_pos c here quantum_small
          (All-get_elem? (QuantumFits q) arr (slot q s p) here array_fits.1 e)) [
            | inl (missing, n, request) ↦ inl (record {
              dev' = dev₂;
              same = same;
              request = (c, n, request);
              is_done =
                  simp (fetch-some arr (slot q s p) here e)
                    (rw (by_quantum here missing, write_quantum));
            })
            | inr (old, found, l, was) ↦ inr (record {
              dev' = put_quantum dev₂ (item q s p) arr (slot q s p) (copied old);
              old = old;
              old_length = l;
              old_stored = ground (arith, was, same.content (item q s p) (slot q s p), holds_here);
              stored = Same-Stored same (
                  put_quantum-Stored q s dev₂ same.valid (item q s p) _ there arr array_fits
                    (λ j. refl) (slot q s p) (copied old) slot-lt (length-copied old l));
              is_done = simp (fetch-some arr (slot q s p) here e) (
                  rw (by_quantum here found, write_quantum)
                    (copy_in_lem dev₂ (item q s p) arr (slot q s p) old l));
            })
          ]
      where
        quantum_small : q < int_min_abs
        quantum_small = grind (arith, v.item_fits, v.qset_pos)

        holds_here : block_at dev₂.qsets (item q s p) (slot q s p) ≡ here
        holds_here = block_at-get_elem? dev₂.qsets (item q s p) (slot q s p) arr here there e

    write_slot_lem : NoMemory slot_outcome ⊎ Copied slot_outcome
    write_slot_lem =
        let (here, e) = get_elem?-some arr (slot q s p) (omega (arith, slot-lt, array_fits.0)) in
        write_slot_at here e

  -- A node that is reached is written to.
  module _ (dev₁ : ScullDev) (same : Same q s dev dev₁) (node : ScullQset)
      (there : get_elem? dev₁.qsets (item q s p) ≡ some node) (c : ℕ) where
    abbrev node_outcome : Run Writing
    node_outcome =
        write_array k dev₁ (item q s p) buf count (pos p) (place q s p)
          (array_or_new k c dev₁.qset node.quanta).0 (array_or_new k c dev₁.qset node.quanta).1

    node_fits : ArrayFits q s node.quanta
    node_fits = All-get_elem? (NodeFits q s) dev₁.qsets (item q s p) node same.valid.nodes_fit there

    by_qset :
        {o : Option (List (Option Quantum))}
        → (array_or_new k c (pos s) node.quanta).0 ≡ o
        → (array_or_new k c dev₁.qset node.quanta).0 ≡ o
    by_qset e = ap (λ z. (array_or_new k c z node.quanta).0) same.valid.qset_is ∙ e

    write_node_lem : NoMemory node_outcome ⊎ Copied node_outcome
    unfolding write_array
    write_node_lem =
        elim (array_or_new_cases k lawful q s v.quantum_pos v.qset_pos c node.quanta v.item_fits
          node_fits) [
            | inl (missing, n, request) ↦ inl (record {
              dev' = dev₁;
              same = same;
              request = (c, n, request);
              is_done = rw (by_qset missing, write_array);
            })
            | inr (arr, found, fits, holds) ↦
                subst (λ out. NoMemory out ⊎ Copied out)
                  (sym (
                    rw (by_qset found, write_array)
                      (simp (within_quantum-min q s p count dev₁ same.valid))))
                  (write_slot_lem (put_array dev₁ (item q s p) arr)
                    (Same-trans same
                      (put_array-Same q s dev₁ same.valid (item q s p) node there arr fits holds))
                    arr
                    (get_elem?-set_self dev₁.qsets (item q s p) (record { quanta = some arr })
                      (get_elem?-lt dev₁.qsets (item q s p) there))
                    fits (array_or_new k c dev₁.qset node.quanta).1)
          ]

  followed-Same : Same q s dev (record dev { qsets = (follow k 0 (item q s p) dev.qsets).0 })
  followed-Same = record {
    valid = record {
      quantum_is = v.quantum_is;
      qset_is = v.qset_is;
      quantum_pos = v.quantum_pos;
      qset_pos = v.qset_pos;
      item_fits = v.item_fits;
      size_fits = v.size_fits;
      nodes_fit = follow-All k (NodeFits q s) tt 0 (item q s p) dev.qsets v.nodes_fit;
    };
    content = block_at-follow k 0 (item q s p) dev.qsets;
    size_kept = refl;
    mutex_kept = refl;
    new_quantum_kept = refl;
    new_qset_kept = refl;
  }

  abbrev place_outcome : Run Writing
  place_outcome = write_place k dev buf count (pos p) (place q s p)

  item_uint : to_uint (pos (item q s p)) ≡ item q s p
  item_uint = to_uint-pos (item q s p) (omega (arith, r))

  -- A write either finds no memory or copies to the quantum at its position.
  pub write_place_lem : NoMemory place_outcome ⊎ Copied place_outcome
  unfolding write_place
  write_place_lem = elim (Bool-cases (follow k 0 (item q s p) dev.qsets).1) [
    | inl found ↦
        let (node, there) =
          get_elem?-some (follow k 0 (item q s p) dev.qsets).0 (item q s p)
            (follow-found k 0 (item q s p) dev.qsets found) in
        subst (λ out. NoMemory out ⊎ Copied out)
          (sym (
            simp (
              item_uint,
              found,
              fetch-some (follow k 0 (item q s p) dev.qsets).0 (item q s p) node there,
            )))
          (write_node_lem (record dev { qsets = (follow k 0 (item q s p) dev.qsets).0 })
            followed-Same node there (follow k 0 (item q s p) dev.qsets).2)
    | inr lost ↦ inl (record {
      dev' = record dev { qsets = (follow k 0 (item q s p) dev.qsets).0 };
      same = followed-Same;
      request = follow-lost k 0 (item q s p) dev.qsets lost;
      is_done = simp (item_uint, lost);
    })
  ]
