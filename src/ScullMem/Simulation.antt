-- ===== src/ScullMem/Simulation.antt =====
-- When a device over `Ops` behaves as the memory device of scull_full over another kernel.
use ldd3_kernel.Prelude.{
  ℕ, ◌+◌, ◌≤◌, ◌≡◌, not, List, Option, none, some, length, take, drop, overwrite, ◌==◌,
  if◌then◌else◌,
}
use ldd3_kernel.Int.{ℤ}
use ldd3_kernel.Kernel.{Kernel, done}
use ldd3_kernel.ScullDev.{ScullQset, Quantum}
use ldd3_kernel.ScullDev.Follow.{follow}
use ldd3_kernel.ScullDev.Write.{array_or_new}
use ldd3_kernel.ScullMem.{Ops}

-- What a copy to the user gives under a kernel
abbrev pub sent : Kernel → List ℕ → Option (List ℕ)
sent k bytes = if k.copy_to_user bytes == 0 then some bytes else none

-- For quanta of `q` bytes and copies of `m` bytes at most
pub record Simulates (ops : Ops) (k k' : Kernel) (q m : ℕ) : Type 0 where
  pub same_lock : k'.interrupted ≡ k.interrupted
  pub same_follow : (c n : ℕ) (qsets : List ScullQset) → follow k c n qsets ≡ follow k' c n qsets
  pub same_arrays :
      (c : ℕ) (z : ℤ) (o : Option (List (Option Quantum)))
      → array_or_new k c z o ≡ array_or_new k' c z o
  pub same_alloc : (c : ℕ) → ops.alloc c ≡ done (k'.kmalloc c q)
  pub same_out :
      (block : Quantum) (o n : ℕ)
      → length block ≡ q
      → o + n ≤ q
      → n ≤ m
      → ops.copy_out block o n ≡ done (sent k' (take n (drop o block)))
  pub same_in :
      (block : Quantum) (o : ℕ) (buf : List ℕ) (n : ℕ)
      → length block ≡ q
      → o + n ≤ q
      → n ≤ m
      → n ≤ length buf
      → ops.copy_in block o buf n
        ≡ done
            (overwrite block o (k'.copy_from_user buf n).0, not ((k'.copy_from_user buf n).1 == 0))
