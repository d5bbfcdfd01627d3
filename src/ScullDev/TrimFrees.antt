-- ===== src/ScullDev/TrimFrees.antt =====
-- What scull_trim and scull_dev_open leave behind.
use ldd3_kernel.Prelude.{
  ℕ, ◌+◌, ◌*◌, ◌<◌, ◌≡◌, refl, ap, ◌∙◌, true, false, List, [], ◌∷◌, Option, none, some, arith,
  length, All, if◌then◌else◌,
}
use ldd3_kernel.Int.{pos, int_min_abs}
use ldd3_kernel.Kernel.{Kernel, ok, err, erestartsys, done}
use ldd3_kernel.ScullDev.{ScullDev, ScullQset, Quantum, lock, unlock}
use ldd3_kernel.ScullDev.Trim.{
  free_quanta, free_qset, free_qsets, scull_trim, scull_dev_open, write_only,
}
use ldd3_kernel.ScullDev.Valid.{IsValid, locked-IsValid, unlocked-IsValid, NodeFits, ArrayFits}
use ldd3_kernel.ScullDev.Places.{byte_at}

-- How many allocations the list holds: nodes, arrays and quanta.
abbrev pub quanta_held : List (Option Quantum) → ℕ
quanta_held [] = 0
quanta_held (none ∷ arr) = quanta_held arr
quanta_held (some q ∷ arr) = quanta_held arr + 1

abbrev pub array_held : Option (List (Option Quantum)) → ℕ
array_held none = 1
array_held (some arr) = quanta_held arr + 2

abbrev pub held : List ScullQset → ℕ
held [] = 0
held (node ∷ rest) = array_held node.quanta + held rest

free_held_quanta :
    (arr : List (Option Quantum)) → free_quanta (length arr) arr ≡ done (quanta_held arr)
unfolding free_quanta
free_held_quanta [] = refl
free_held_quanta (none ∷ arr) = free_held_quanta arr
free_held_quanta (some q ∷ arr) = rw (free_held_quanta arr)

free_array :
    (q s : ℕ) (o : Option (List (Option Quantum)))
    → ArrayFits q s o
    → free_qset (pos s) (record { quanta = o }) ≡ done (array_held o)
free_array q s none h = refl
free_array q s (some arr) h = rw (← h.0, free_held_quanta arr)

free_held_qsets :
    (q s : ℕ) (qsets : List ScullQset)
    → All (NodeFits q s) qsets
    → free_qsets (pos s) qsets ≡ done (held qsets)
unfolding free_qsets
free_held_qsets q s [] h = refl
free_held_qsets q s (node ∷ rest) h =
    rw (free_array q s node.quanta h.0, free_held_qsets q s rest h.1)

-- The geometry that the next trim puts in force.
pub record NextGeometry (q s : ℕ) (dev : ScullDev) : Type 0 where
  pub quantum_is : dev.new_quantum ≡ pos q
  pub qset_is : dev.new_qset ≡ pos s
  pub quantum_pos : 0 < q
  pub qset_pos : 0 < s
  pub item_fits : q * s < int_min_abs

abbrev pub trimmed : ScullDev → ScullDev
trimmed dev = record dev { qsets = []; quantum = dev.new_quantum; qset = dev.new_qset; size = 0 }

-- On a valid device `scull_trim` runs without a fault, frees each node, array and quantum that the
-- device holds, once, and leaves it empty with the new geometry.
pub scull_trim_lem :
    (q s : ℕ) (dev : ScullDev)
    → IsValid q s dev
    → scull_trim dev ≡ done (trimmed dev, held dev.qsets)
unfolding scull_trim
scull_trim_lem q s dev v =
    let e : free_qsets dev.qset dev.qsets ≡ done (held dev.qsets) =
      ap (λ z. free_qsets z dev.qsets) v.qset_is ∙ free_held_qsets q s dev.qsets v.nodes_fit in
    simp e

pub trimmed-IsValid : {q s : ℕ} {dev : ScullDev} → NextGeometry q s dev → IsValid q s (trimmed dev)
trimmed-IsValid g = record {
  quantum_is = g.quantum_is;
  qset_is = g.qset_is;
  quantum_pos = g.quantum_pos;
  qset_pos = g.qset_pos;
  item_fits = g.item_fits;
  size_fits = omega arith;
  nodes_fit = tt;
}

-- What an open gives on a valid device, by its flags and the lock.
pub scull_dev_open_lem :
    (k : Kernel) (q s : ℕ) (dev : ScullDev) (f_flags : ℕ)
    → IsValid q s dev
    → scull_dev_open k dev f_flags
      ≡ done (
          if write_only f_flags
          then (if k.interrupted then (dev, err erestartsys) else (unlock (trimmed dev), ok tt))
          else (dev, ok tt))
unfolding scull_dev_open
scull_dev_open_lem k q s dev f_flags v =
    simp (scull_trim_lem q s (lock dev) (locked-IsValid v)) (ground arith)

-- Opening a valid device for writing only, with the lock granted, empties it: the file has size 0
-- and no stored byte, the device is valid with the geometry that was set for the next trim, and
-- the mutex is free.
pub open_truncates :
    (k : Kernel) (q s q' s' : ℕ) (dev : ScullDev) (f_flags : ℕ)
    → IsValid q s dev
    → NextGeometry q' s' dev
    → write_only f_flags ≡ true
    → k.interrupted ≡ false
    → (dev' : ScullDev) × (scull_dev_open k dev f_flags ≡ done (dev', ok tt))
      × IsValid q' s' dev'
      × (dev'.size ≡ 0)
      × (dev'.mutex ≡ false)
      × ((i : ℕ) → byte_at q' s' dev' i ≡ none)
open_truncates k q s q' s' dev f_flags v g wr had = (
  unlock (trimmed dev),
  scull_dev_open_lem k q s dev f_flags v ∙ simp (wr, had),
  unlocked-IsValid (trimmed-IsValid g),
  refl,
  refl,
  λ i. refl,
)
