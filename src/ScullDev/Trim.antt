-- ===== src/ScullDev/Trim.antt =====
-- scull_trim, scull_dev_open and scull_dev_release.
use ldd3_kernel.Prelude.{
  ℕ, zero, suc, ◌+◌, ◌%◌, Bool, List, [], ◌∷◌, Option, none, some, ◌==◌, if◌then◌else◌,
}
use ldd3_kernel.Int.{ℤ, pos, negsuc}
use ldd3_kernel.Kernel.{Kernel, Reply, ok, err, erestartsys, Run, done, fault, bad_access, ◌>>=◌}
use ldd3_kernel.ScullDev.{ScullDev, ScullQset, Quantum, lock, unlock}

-- `for (i = 0; i < qset; ++i) kfree(dptr->data[i])`: how many quanta are freed.
unfoldable pub free_quanta : ℕ → List (Option Quantum) → Run ℕ
free_quanta zero arr = done 0
free_quanta (suc n) [] = fault bad_access
free_quanta (suc n) (none ∷ arr) = free_quanta n arr
free_quanta (suc n) (some q ∷ arr) = free_quanta n arr >>= λ freed. done (freed + 1)

-- The rounds of `i = 0; i < qset; ++i`.
abbrev pub rounds : ℤ → ℕ
rounds (pos n) = n
rounds (negsuc n) = 0

-- One list item: its quanta, its array, itself.
abbrev pub free_qset : ℤ → ScullQset → Run ℕ
free_qset qset node = elim node.quanta [
  | none ↦ done 1
  | some arr ↦ free_quanta (rounds qset) arr >>= λ freed. done (freed + 2)
]

unfoldable pub free_qsets : ℤ → List ScullQset → Run ℕ
free_qsets qset [] = done 0
free_qsets qset (node ∷ rest) =
    free_qset qset node >>= λ here. free_qsets qset rest >>= λ later. done (here + later)

-- `scull_trim`: the emptied device and how many allocations were freed.
unfoldable pub scull_trim : ScullDev → Run (ScullDev × ℕ)
scull_trim dev = free_qsets dev.qset dev.qsets >>= λ freed.
    done
      (record dev { qsets = []; quantum = dev.new_quantum; qset = dev.new_qset; size = 0 }, freed)

-- `(f_flags & O_ACCMODE) == O_WRONLY`
abbrev pub write_only : ℕ → Bool
write_only f_flags = f_flags % 4 == 1

unfoldable pub scull_dev_open : Kernel → ScullDev → ℕ → Run (ScullDev × Reply (Unit {0}))
scull_dev_open k dev f_flags =
    if write_only f_flags
    then if k.interrupted
      then done (dev, err erestartsys)
      else (scull_trim (lock dev) >>= λ trimmed. done (unlock trimmed.0, ok tt))
    else done (dev, ok tt)

unfoldable pub scull_dev_release : ScullDev → ScullDev × Reply (Unit {0})
scull_dev_release dev = (dev, ok tt)
