-- ===== src/ScullMem/WriteSame.antt =====
-- A write over `Ops` is a write of the memory device of scull_full.
use ldd3_kernel.Prelude.{
  ℕ, ◌+◌, ◌-◌, ◌*◌, ◌%◌, ◌≤◌, ◌<◌, ◌≡◌, refl, ap, sym, subst, ◌∙◌, min, Bool, true, false, not,
  List, Option, none, some, arith, length, overwrite, get_elem?, All, All-get_elem?, inl, inr, ◌==◌,
  if◌then◌else◌, le→leb, Bool-cases, Option-cases,
}
use mathlib.Core.Option.{some-injective}
use native.Mathlib.Nat.{mod-lt}
use ldd3_kernel.Int.{ℤ, pos, to_uint, to_size, to_size-pos, int_min_abs}
use ldd3_kernel.Kernel.{
  Kernel, IsLawful, err, erestartsys, efault, enomem, Run, done, fault, bad_access, ◌>>=◌,
}
use ldd3_kernel.ScullDev.{ScullDev, ScullQset, Quantum, lock, unlock}
use ldd3_kernel.ScullDev.Follow.{follow, fetch}
use ldd3_kernel.ScullDev.Write.{
  scull_dev_write, write_place, write_array, write_slot, write_quantum, copy_in, Writing,
  array_or_new, quantum_or_new, put_array, put_quantum,
}
use ldd3_kernel.ScullDev.Valid.{IsValid, NodeFits, QuantumFits, locked-IsValid}
use ldd3_kernel.ScullDev.Places.{item, slot, offset, place, IsReachable, locate-place, follow-All}
use ldd3_kernel.ScullDev.Reading.{item_uint}
use ldd3_kernel.ScullDev.Lookup.{within_quantum-min, fetch-some}
use ldd3_kernel.ScullDev.Storage.{array_or_new_cases}
use ldd3_kernel.ScullDev.Writing.{writable}
use ldd3_kernel.ScullDev.WriteEffect.{CanWrite}
use ldd3_kernel.ScullMem.{Ops}
use ldd3_kernel.ScullMem.Write.{
  finish_write, copy_to_block, block_or_alloc, write_slot_at, write_array_at, write_at, write_with,
}
use ldd3_kernel.ScullMem.Simulation.{Simulates}

fetch-none {ℓ} :
    {A : Type ℓ} (xs : List A) (i : ℕ) → get_elem? xs i ≡ none → fetch xs i ≡ fault bad_access
fetch-none xs i e = rw (e, fetch)

module _ (ops : Ops) (k k' : Kernel) (q s m : ℕ) (sim : Simulates ops k k' q m)
    (lawful : IsLawful k') (q_pos : 0 < q) (s_pos : 0 < s) (whole : q * s < int_min_abs)
    (buf : List ℕ) (p : ℕ) where
  finish-same :
      (dev : ScullDev) (f_pos : ℤ) (n : ℕ) (b : Bool)
      → done (finish_write dev f_pos n (not b))
        ≡ (if b then done (finish_write dev f_pos n false) else done (dev, f_pos, err efault))
  finish-same dev f_pos n true = refl
  finish-same dev f_pos n false = refl

  module _ (n : ℕ) (inside : offset q s p + n ≤ q) (small : n ≤ m) (given : n ≤ length buf) where
    copy_to_block-same :
        (dev : ScullDev) (i : ℕ) (arr : List (Option Quantum)) (j : ℕ) (o : Option Quantum)
        → ((block : Quantum) → o ≡ some block → length block ≡ q)
        → copy_to_block ops dev i arr j buf n (pos p) (offset q s p) o
          ≡ write_quantum k' dev i arr j buf n (pos p) (offset q s p) o
    unfolding copy_to_block write_quantum copy_in
    copy_to_block-same dev i arr j none l = refl
    copy_to_block-same dev i arr j (some block) l =
        rw
          (
            sim.same_in block (offset q s p) buf n (l block refl) inside small given,
            le→leb (offset q s p + n) (length block) (omega (arith, inside, l block refl)),
          )
          (finish-same
            (put_quantum dev i arr j (overwrite block (offset q s p) (k'.copy_from_user buf n).0))
            (pos p) n ((k'.copy_from_user buf n).1 == 0))

    size_lem : (z : ℤ) → z ≡ pos q → to_size z ≡ q
    size_lem z e = ap to_size e ∙ to_size-pos q (grind arith)

    block_or_alloc-same :
        (c : ℕ) (z : ℤ) (here : Option Quantum)
        → z ≡ pos q
        → block_or_alloc ops c here ≡ done (quantum_or_new k' c z here)
    unfolding block_or_alloc quantum_or_new
    block_or_alloc-same c z none e =
        sim.same_alloc c ∙ ap (λ x. done (k'.kmalloc c x)) (sym (size_lem z e))
    block_or_alloc-same c z (some block) e = refl

    block_fits :
        (c : ℕ) (z : ℤ) (here : Option Quantum)
        → z ≡ pos q
        → QuantumFits q here
        → (block : Quantum) → quantum_or_new k' c z here ≡ some block
        → length block ≡ q
    unfolding quantum_or_new
    block_fits c z none e h block f = lawful.kmalloc_size c (to_size z) block f ∙ size_lem z e
    block_fits c z (some b) e h block f = ap length (sym (some-injective _ _ f)) ∙ h

    write_slot_at-same :
        (dev : ScullDev) (c i j : ℕ) (arr : List (Option Quantum))
        → dev.quantum ≡ pos q
        → All (QuantumFits q) arr
        → write_slot_at ops c dev i arr buf (pos p) (pos j) (pos (offset q s p)) n
          ≡ write_slot k' c dev i arr buf (pos p) (pos j) (pos (offset q s p)) n
    unfolding write_slot_at write_slot
    write_slot_at-same dev c i j arr e h = elim (Option-cases (get_elem? arr j)) [
      | inl out ↦ rw (out, fetch) refl
      | inr (here, at) ↦
          simp (fetch-some arr j here at, block_or_alloc-same c dev.quantum here e)
            (copy_to_block-same dev i arr j (quantum_or_new k' c dev.quantum here)
              (block_fits c dev.quantum here e (All-get_elem? (QuantumFits q) arr j here h at)))
    ]

  write_array_at-same :
      (dev : ScullDev) (count c : ℕ) (o : Option (List (Option Quantum)))
      → IsValid q s dev
      → writable q s count p ≤ m
      → count ≤ length buf
      → ((arr : List (Option Quantum)) → o ≡ some arr → All (QuantumFits q) arr)
      → write_array_at ops dev (item q s p) buf count (pos p) (place q s p) o c
        ≡ write_array k' dev (item q s p) buf count (pos p) (place q s p) o c
  unfolding write_array_at write_array
  write_array_at-same dev count c none v small given h = refl
  write_array_at-same dev count c (some arr) v small given h =
      rw (within_quantum-min q s p count dev v) (
        write_slot_at-same (min count (q - offset q s p)) inside small (omega (arith, given))
          (put_array dev (item q s p) arr) c (item q s p) (slot q s p) arr v.quantum_is
          (h arr refl))
    where
      inside : offset q s p + min count (q - offset q s p) ≤ q
      inside = grind (arith, mod-lt (p % (q * s)) q_pos)

  array_fits :
      (dev : ScullDev) (node : ScullQset) (c : ℕ)
      → IsValid q s dev
      → NodeFits q s node
      → (arr : List (Option Quantum)) → (array_or_new k' c dev.qset node.quanta).0 ≡ some arr
      → All (QuantumFits q) arr
  array_fits dev node c v h arr e =
      elim (array_or_new_cases k' lawful q s q_pos s_pos c node.quanta whole h) [
        | inl (missing, _, _) ↦ absurd (none-ne-some (sym missing ∙ by_qset))
        | inr (arr', found, fits, _) ↦
            subst (All (QuantumFits q)) (some-injective _ _ (sym found ∙ by_qset)) fits.1
      ]
    where
      by_qset : (array_or_new k' c (pos s) node.quanta).0 ≡ some arr
      by_qset = ap (λ z. (array_or_new k' c z node.quanta).0) (sym v.qset_is) ∙ e

      none-ne-some : none ≡ some arr → ⊥
      none-ne-some d = cc

  module _ (dev : ScullDev) (count : ℕ) (v : IsValid q s dev) (small : writable q s count p ≤ m)
      (given : count ≤ length buf) (r : IsReachable q s p) where
    abbrev after_node :
        (ℕ → ℤ → Option (List (Option Quantum)) → Option (List (Option Quantum)) × ℕ)
        → List ScullQset × Bool × ℕ
        → ScullQset
        → Run Writing
    after_node arrays t dptr =
        write_array_at ops (record dev { qsets = t.0 }) (item q s p) buf count (pos p) (place q s p)
          (arrays t.2 dev.qset dptr.quanta).0 (arrays t.2 dev.qset dptr.quanta).1

    node-same :
        (qsets : List ScullQset) (c : ℕ) (node : ScullQset)
        → All (NodeFits q s) qsets
        → NodeFits q s node
        → after_node (array_or_new k) (qsets, true, c) node
          ≡ write_array k'
              (record dev { qsets = qsets })
              (item q s p)
              buf
              count
              (pos p)
              (place q s p)
              (array_or_new k' c dev.qset node.quanta).0
              (array_or_new k' c dev.qset node.quanta).1
    node-same qsets c node all h =
        ap
          (λ x.
            write_array_at ops (record dev { qsets = qsets }) (item q s p) buf count (pos p)
              (place q s p) x.0 x.1)
          (sim.same_arrays c dev.qset node.quanta)
        ∙ write_array_at-same (record dev { qsets = qsets }) count
            (array_or_new k' c dev.qset node.quanta).1 (array_or_new k' c dev.qset node.quanta).0
            with_list small given (array_fits (record dev { qsets = qsets }) node c with_list h)
      where
        with_list : IsValid q s (record dev { qsets = qsets })
        with_list = record {
          quantum_is = v.quantum_is;
          qset_is = v.qset_is;
          quantum_pos = v.quantum_pos;
          qset_pos = v.qset_pos;
          item_fits = v.item_fits;
          size_fits = v.size_fits;
          nodes_fit = all;
        }

    abbrev resume : List ScullQset × Bool × ℕ → Run Writing
    resume t =
        if t.1
        then (fetch t.0 (to_uint (pos (item q s p))) >>= λ dptr.
            write_array_at ops (record dev { qsets = t.0 }) (to_uint (pos (item q s p))) buf count
              (pos p) (place q s p) (array_or_new k t.2 dev.qset dptr.quanta).0
              (array_or_new k t.2 dev.qset dptr.quanta).1)
        else done (record dev { qsets = t.0 }, pos p, err enomem)

    write_at-found :
        (follow k' 0 (item q s p) dev.qsets).1 ≡ true
        → resume (follow k' 0 (item q s p) dev.qsets)
          ≡ write_place k' dev buf count (pos p) (place q s p)
    unfolding write_place
    write_at-found e =
        let t : List ScullQset × Bool × ℕ = follow k' 0 (item q s p) dev.qsets in
        let all : All (NodeFits q s) t.0 =
          follow-All k' (NodeFits q s) tt 0 (item q s p) dev.qsets v.nodes_fit in
        elim (Option-cases (get_elem? t.0 (item q s p))) [
          | inl out ↦ simp (item_uint k' q s dev v p r, e, fetch-none t.0 (item q s p) out) refl
          | inr (node, at) ↦
              simp (item_uint k' q s dev v p r, e, fetch-some t.0 (item q s p) node at)
                (node-same t.0 t.2 node all
                  (All-get_elem? (NodeFits q s) t.0 (item q s p) node all at))
        ]

    write_at-lost :
        (follow k' 0 (item q s p) dev.qsets).1 ≡ false
        → resume (follow k' 0 (item q s p) dev.qsets)
          ≡ write_place k' dev buf count (pos p) (place q s p)
    unfolding write_place
    write_at-lost e = simp (item_uint k' q s dev v p r, e) refl

    write_at-same :
        write_at ops k dev buf count (pos p) (place q s p)
        ≡ write_place k' dev buf count (pos p) (place q s p)
    unfolding write_at
    write_at-same =
        ap resume (sim.same_follow 0 (to_uint (pos (item q s p))) dev.qsets)
        ∙ ap (λ i. resume (follow k' 0 i dev.qsets)) (item_uint k' q s dev v p r)
        ∙ elim (Bool-cases (follow k' 0 (item q s p) dev.qsets).1) [
          | inl found ↦ write_at-found found
          | inr lost ↦ write_at-lost lost
        ]

  abbrev give_back : Run Writing → Run Writing
  give_back run = run >>= λ out. done (unlock out.0, out.1, out.2)

  -- On a valid device the two writes are the same, whatever the lock, the memory and the copies do.
  pub write_with-same :
      (dev : ScullDev) (count : ℕ)
      → CanWrite q s dev buf count p
      → writable q s count p ≤ m
      → write_with ops k dev buf count (pos p) ≡ scull_dev_write k' dev buf count (pos p)
  unfolding write_with scull_dev_write follow
  write_with-same dev count can small =
      let v : IsValid q s (lock dev) = locked-IsValid can.valid in
      rw (locate-place q s p (lock dev) v can.reachable, ← sim.same_lock)
        (ap (λ run. if k'.interrupted then done (dev, pos p, err erestartsys) else give_back run)
          (write_at-same (lock dev) count v small can.buf_fits can.reachable))
