-- ===== src/ScullDev/Valid.antt =====
-- When a scull device is well formed: the invariant that the operations keep.
use ldd3_kernel.Prelude.{ℕ, ◌*◌, ◌<◌, ◌≡◌, refl, List, Option, none, some, length, All, arith}
use ldd3_kernel.Int.{pos, int_min_abs, long_min_abs}
use ldd3_kernel.ScullDev.{ScullDev, ScullQset, Quantum, construct_scull_dev, lock, unlock}

-- A quantum that is there has `q` bytes.
abbrev pub QuantumFits : ℕ → Option Quantum → Type 0
QuantumFits q none = Unit
QuantumFits q (some block) = length block ≡ q

-- An array that is there has `s` places.
abbrev pub ArrayFits : ℕ → ℕ → Option (List (Option Quantum)) → Type 0
ArrayFits q s none = Unit
ArrayFits q s (some arr) = (length arr ≡ s) × All (QuantumFits q) arr

abbrev pub NodeFits : ℕ → ℕ → ScullQset → Type 0
NodeFits q s node = ArrayFits q s node.quanta

-- The device has quanta of `q` bytes in arrays of `s`, and its size is a file size.
pub record IsValid (q s : ℕ) (dev : ScullDev) : Type 0 where
  pub quantum_is : dev.quantum ≡ pos q
  pub qset_is : dev.qset ≡ pos s
  pub quantum_pos : 0 < q
  pub qset_pos : 0 < s
  pub item_fits : q * s < int_min_abs
  pub size_fits : dev.size < long_min_abs
  pub nodes_fit : All (NodeFits q s) dev.qsets

-- A new device is valid, with the default geometry.
pub construct_scull_dev-IsValid : IsValid 4000 1000 construct_scull_dev
unfolding construct_scull_dev
construct_scull_dev-IsValid = record {
  quantum_is = refl;
  qset_is = refl;
  quantum_pos = omega arith;
  qset_pos = omega arith;
  item_fits = omega arith;
  size_fits = omega arith;
  nodes_fit = tt;
}

-- The mutex is no part of it.
pub locked-IsValid : {q s : ℕ} {dev : ScullDev} → IsValid q s dev → IsValid q s (lock dev)
locked-IsValid v = record {
  quantum_is = v.quantum_is;
  qset_is = v.qset_is;
  quantum_pos = v.quantum_pos;
  qset_pos = v.qset_pos;
  item_fits = v.item_fits;
  size_fits = v.size_fits;
  nodes_fit = v.nodes_fit;
}

pub unlocked-IsValid : {q s : ℕ} {dev : ScullDev} → IsValid q s dev → IsValid q s (unlock dev)
unlocked-IsValid v = record {
  quantum_is = v.quantum_is;
  qset_is = v.qset_is;
  quantum_pos = v.quantum_pos;
  qset_pos = v.qset_pos;
  item_fits = v.item_fits;
  size_fits = v.size_fits;
  nodes_fit = v.nodes_fit;
}
