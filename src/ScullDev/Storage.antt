-- ===== src/ScullDev/Storage.antt =====
-- How the stores of scull_dev_write change what is stored in the list of quantum sets.
use ldd3_kernel.Prelude.{
  ℕ, zero, suc, ◌*◌, ◌/◌, ◌<◌, ◌≡◌, ◌≢◌, refl, ap, ◌⊎◌, inl, inr, List, [], ◌∷◌, Option, none, some,
  arith, length, get_elem?, set, replicate, length-replicate, All-set, All-replicate,
  get_elem?-set_self, get_elem?-set_ne, length-set, get_elem?-lt, ◌∙◌, ◌%◌, Option-cases,
}
use ldd3_kernel.Int.{pos, to_size, to_size-pos, int_min_abs, size_mod}
use ldd3_kernel.Kernel.{Kernel, IsLawful}
use ldd3_kernel.ScullDev.{ScullDev, ScullQset, Quantum}
use ldd3_kernel.ScullDev.Write.{array_or_new, quantum_or_new, put_array, put_quantum}
use ldd3_kernel.ScullDev.Valid.{IsValid, NodeFits, ArrayFits, QuantumFits}
use ldd3_kernel.ScullDev.Places.{block_at, of_array}

-- Another place of the list than `(i, j)`.
abbrev pub IsElsewhere : ℕ → ℕ → ℕ → ℕ → Type 0
IsElsewhere i j i' j' = (i ≢ i') ⊎ (j ≢ j')

block_at-node :
    (qsets : List ScullQset) (i j : ℕ) (node : ScullQset)
    → get_elem? qsets i ≡ some node
    → block_at qsets i j ≡ of_array node.quanta j
block_at-node [] i j node e = absurd (cc)
block_at-node (x ∷ rest) zero j node e = ground arith
block_at-node (x ∷ rest) (suc i) j node e = block_at-node rest i j node e

block_at-set_self :
    (qsets : List ScullQset) (i j : ℕ) (node : ScullQset)
    → i < length qsets
    → block_at (set qsets i node) i j ≡ of_array node.quanta j
block_at-set_self [] i j node h = elim h [ ]
block_at-set_self (x ∷ rest) zero j node h = refl
block_at-set_self (x ∷ rest) (suc i) j node h = block_at-set_self rest i j node (omega arith)

-- A new node changes nothing where it holds what the old one held.
block_at-set :
    (qsets : List ScullQset) (i i' j : ℕ) (old node : ScullQset)
    → get_elem? qsets i ≡ some old
    → (i ≡ i' → of_array node.quanta j ≡ of_array old.quanta j)
    → block_at (set qsets i node) i' j ≡ block_at qsets i' j
block_at-set [] i i' j old node e h = refl
block_at-set (x ∷ rest) zero zero j old node e h = ground (arith, h refl)
block_at-set (x ∷ rest) zero (suc i') j old node e h = refl
block_at-set (x ∷ rest) (suc i) zero j old node e h = refl
block_at-set (x ∷ rest) (suc i) (suc i') j old node e h =
    block_at-set rest i i' j old node e (λ d. h (ap suc d))

of_array-replicate : (n j : ℕ) → of_array (some (replicate n none)) j ≡ none
of_array-replicate zero j = refl
of_array-replicate (suc n) zero = refl
of_array-replicate (suc n) (suc j) = of_array-replicate n j

of_array-set_self :
    (arr : List (Option Quantum)) (j : ℕ) (block : Quantum)
    → j < length arr
    → of_array (some (set arr j (some block))) j ≡ some block
of_array-set_self arr j block h = rw (get_elem?-set_self arr j (some block) h, of_array)

of_array-set_ne :
    (arr : List (Option Quantum)) (j j' : ℕ) (block : Quantum)
    → j ≢ j'
    → of_array (some (set arr j (some block))) j' ≡ of_array (some arr) j'
of_array-set_ne arr j j' block h = rw (get_elem?-set_ne arr j j' (some block) h, of_array)

module _ (k : Kernel) (lawful : IsLawful k) (q s : ℕ) (hq : 0 < q) (hs : 0 < s) where
  -- The array that a write uses: none for want of memory, or one that fits and holds what the node
  -- held.
  pub array_or_new_cases :
      (c : ℕ) (o : Option (List (Option Quantum)))
      → q * s < int_min_abs
      → ArrayFits q s o
      → (((array_or_new k c (pos s) o).0 ≡ none) × (n : ℕ) × (k.kmalloc c n ≡ none))
        ⊎ ((arr : List (Option Quantum)) × ((array_or_new k c (pos s) o).0 ≡ some arr)
            × ArrayFits q s (some arr)
            × ((j : ℕ) → of_array (some arr) j ≡ of_array o j))
  unfolding array_or_new
  array_or_new_cases c (some arr) small h = inr (arr, refl, h, λ j. refl)
  array_or_new_cases c none small h =
      elim (Option-cases (k.kmalloc c (to_size (pos s) * 8 % size_mod))) [
        | inl missing ↦ inl (rw (missing, array_or_new), to_size (pos s) * 8 % size_mod, missing)
        | inr (mem, e) ↦ inr (
          replicate (length mem / 8) none,
          rw (e, array_or_new),
          (
            length-replicate (length mem / 8) none ∙ eighth mem e,
            All-replicate (QuantumFits q) (length mem / 8) none tt,
          ),
          λ j. of_array-replicate (length mem / 8) j,
        )
      ]
    where
      s_small : s < int_min_abs
      s_small = grind (arith, small, hq)

      eighth :
          (mem : List ℕ)
          → k.kmalloc c (to_size (pos s) * 8 % size_mod) ≡ some mem
          → length mem / 8 ≡ s
      eighth mem e =
          omega
            (arith, lawful.kmalloc_size c _ mem e, to_size-pos s (omega (arith, s_small)), s_small)

  -- The quantum that a write uses.
  pub quantum_or_new_cases :
      (c : ℕ) (slot : Option Quantum)
      → q < int_min_abs
      → QuantumFits q slot
      → ((quantum_or_new k c (pos q) slot ≡ none) × (n : ℕ) × (k.kmalloc c n ≡ none))
        ⊎ ((block : Quantum) × (quantum_or_new k c (pos q) slot ≡ some block)
            × (length block ≡ q)
            × ((slot ≡ none) ⊎ (slot ≡ some block)))
  unfolding quantum_or_new
  quantum_or_new_cases c (some block) small h = inr (block, refl, h, inr refl)
  quantum_or_new_cases c none small h = elim (Option-cases (k.kmalloc c (to_size (pos q)))) [
    | inl missing ↦ inl (missing, to_size (pos q), missing)
    | inr (block, e) ↦
        inr (
          block,
          e,
          lawful.kmalloc_size c _ block e ∙ to_size-pos q (omega (arith, small)),
          inl refl,
        )
  ]

-- The same device but for null links, nodes and arrays that have been allocated: the same content.
pub record Same (q s : ℕ) (dev dev' : ScullDev) : Type 0 where
  pub valid : IsValid q s dev'
  pub content : (i j : ℕ) → block_at dev'.qsets i j ≡ block_at dev.qsets i j
  pub size_kept : dev'.size ≡ dev.size
  pub mutex_kept : dev'.mutex ≡ dev.mutex
  pub new_quantum_kept : dev'.new_quantum ≡ dev.new_quantum
  pub new_qset_kept : dev'.new_qset ≡ dev.new_qset

-- The same device with one quantum put at `(i, j)`.
pub record Stored (q s : ℕ) (dev dev' : ScullDev) (i j : ℕ) (block : Quantum) : Type 0 where
  pub valid : IsValid q s dev'
  pub put : block_at dev'.qsets i j ≡ some block
  pub elsewhere :
      (i' j' : ℕ) → IsElsewhere i j i' j' → block_at dev'.qsets i' j' ≡ block_at dev.qsets i' j'
  pub size_kept : dev'.size ≡ dev.size
  pub mutex_kept : dev'.mutex ≡ dev.mutex
  pub new_quantum_kept : dev'.new_quantum ≡ dev.new_quantum
  pub new_qset_kept : dev'.new_qset ≡ dev.new_qset

module _ (q s : ℕ) (dev : ScullDev) (v : IsValid q s dev) (i : ℕ) (node : ScullQset)
    (there : get_elem? dev.qsets i ≡ some node) (arr : List (Option Quantum))
    (array_fits : ArrayFits q s (some arr))
    (holds : (j : ℕ) → of_array (some arr) j ≡ of_array node.quanta j) where
  other_slot : {j : ℕ} (i' j' : ℕ) → IsElsewhere i j i' j' → i ≡ i' → j ≢ j'
  other_slot i' j' (inl ne) e = absurd (ne e)
  other_slot i' j' (inr ne) e = ne

  put_array-IsValid :
      (arr' : List (Option Quantum))
      → ArrayFits q s (some arr')
      → IsValid q s (put_array dev i arr')
  put_array-IsValid arr' f = record {
    quantum_is = v.quantum_is;
    qset_is = v.qset_is;
    quantum_pos = v.quantum_pos;
    qset_pos = v.qset_pos;
    item_fits = v.item_fits;
    size_fits = v.size_fits;
    nodes_fit = All-set (NodeFits q s) dev.qsets i (record { quanta = some arr' }) v.nodes_fit f;
  }

  pub put_array-Same : Same q s dev (put_array dev i arr)
  put_array-Same = record {
    valid = put_array-IsValid arr array_fits;
    content = λ i' j. block_at-set dev.qsets i i' j node _ there (λ _. holds j);
    size_kept = refl;
    mutex_kept = refl;
    new_quantum_kept = refl;
    new_qset_kept = refl;
  }

  pub put_quantum-Stored :
      (j : ℕ) (block : Quantum)
      → j < s
      → length block ≡ q
      → Stored q s dev (put_quantum dev i arr j block) i j block
  put_quantum-Stored j block hj l = record {
    valid = put_array-IsValid (set arr j (some block)) (
      length-set arr j (some block) ∙ array_fits.0,
      All-set (QuantumFits q) arr j (some block) array_fits.1 l,
    );
    put =
        block_at-set_self dev.qsets i j _ (get_elem?-lt dev.qsets i there)
        ∙ of_array-set_self arr j block (omega (arith, array_fits.0));
    elsewhere = λ i' j' ne.
        block_at-set dev.qsets i i' j' node _ there
          (λ e. of_array-set_ne arr j j' block (other_slot i' j' ne e) ∙ holds j');
    size_kept = refl;
    mutex_kept = refl;
    new_quantum_kept = refl;
    new_qset_kept = refl;
  }

pub Same-trans : {q s : ℕ} {a b c : ScullDev} → Same q s a b → Same q s b c → Same q s a c
Same-trans f g = record {
  valid = g.valid;
  content = λ i j. g.content i j ∙ f.content i j;
  size_kept = g.size_kept ∙ f.size_kept;
  mutex_kept = g.mutex_kept ∙ f.mutex_kept;
  new_quantum_kept = g.new_quantum_kept ∙ f.new_quantum_kept;
  new_qset_kept = g.new_qset_kept ∙ f.new_qset_kept;
}

pub Same-Stored :
    {q s i j : ℕ} {a b c : ScullDev} {block : Quantum}
    → Same q s a b
    → Stored q s b c i j block
    → Stored q s a c i j block
Same-Stored f g = record {
  valid = g.valid;
  put = g.put;
  elsewhere = λ i' j' ne. g.elsewhere i' j' ne ∙ f.content i' j';
  size_kept = g.size_kept ∙ f.size_kept;
  mutex_kept = g.mutex_kept ∙ f.mutex_kept;
  new_quantum_kept = g.new_quantum_kept ∙ f.new_quantum_kept;
  new_qset_kept = g.new_qset_kept ∙ f.new_qset_kept;
}

pub block_at-get_elem? :
    (qsets : List ScullQset) (i j : ℕ) (arr : List (Option Quantum)) (slot : Option Quantum)
    → get_elem? qsets i ≡ some (record { quanta = some arr })
    → get_elem? arr j ≡ some slot
    → block_at qsets i j ≡ slot
block_at-get_elem? qsets i j arr slot e f = block_at-node qsets i j _ e ∙ rw (f, of_array)
