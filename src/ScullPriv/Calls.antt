-- ===== src/ScullPriv/Calls.antt =====
-- The operations of scull_full/impl/scull_priv.c that pass a call on to the memory device of the
-- file, which is the one of the terminal `key` where it was opened, and clean_scull_priv.
use ldd3_kernel.Prelude.{ℕ, ◌+◌, List, [], ◌∷◌, Option, none, some}
use ldd3_kernel.Int.{ℤ}
use ldd3_kernel.Kernel.{Kernel, Task, Reply, ok, Run, done, fault, bad_access, ◌>>=◌}
use ldd3_kernel.ScullDev.{ScullDev}
use ldd3_kernel.ScullDev.Trim.{scull_trim}
use ldd3_kernel.ScullDev.Read.{scull_dev_read}
use ldd3_kernel.ScullDev.Write.{scull_dev_write}
use ldd3_kernel.ScullDev.Ioctl.{scull_dev_ioctl}
use ldd3_kernel.ScullDev.Seek.{scull_dev_llseek}
use ldd3_kernel.ScullPriv.{ScullListitem, ScullPriv, find, update}

-- `filp->private_data`, which points into an item of the list
abbrev private_data : ScullPriv → ℕ → Run ScullDev
private_data priv key = elim (find priv.items key) [ none ↦ fault bad_access | some dev ↦ done dev ]

abbrev changed : ScullPriv → ℕ → ScullDev → ScullPriv
changed priv key dev = record priv { items = update priv.items key dev }

abbrev scull_priv_release : ScullPriv → ScullPriv × Reply (Unit {0})
scull_priv_release priv = (priv, ok tt)

abbrev scull_priv_read : Kernel → ScullPriv → ℕ → ℕ → ℤ → Run (ScullPriv × ℤ × Reply (ℕ × List ℕ))
scull_priv_read k priv key count f_pos = private_data priv key >>= λ dev.
    scull_dev_read k dev count f_pos >>= λ out. done (changed priv key out.0, out.1, out.2)

abbrev scull_priv_write : Kernel → ScullPriv → ℕ → List ℕ → ℕ → ℤ → Run (ScullPriv × ℤ × Reply ℕ)
scull_priv_write k priv key buf count f_pos = private_data priv key >>= λ dev.
    scull_dev_write k dev buf count f_pos >>= λ out. done (changed priv key out.0, out.1, out.2)

abbrev scull_priv_ioctl : Task → ScullPriv → ℕ → ℕ → ℕ → Run (ScullPriv × Reply ℤ × Option ℤ)
scull_priv_ioctl t priv key cmd arg = private_data priv key >>= λ dev.
    (let (dev', r, stored) = scull_dev_ioctl t dev cmd arg in
      done (changed priv key dev', r, stored))

abbrev scull_priv_llseek : ScullPriv → ℕ → ℤ → ℤ → ℕ → Run (ℤ × Reply ℤ)
scull_priv_llseek priv key f_pos off whence =
    private_data priv key >>= λ dev. done (scull_dev_llseek dev f_pos off whence)

-- The loop over the list: how many allocations are freed, with the item itself
abbrev free_items : List ScullListitem → Run ℕ
free_items [] = done 0
free_items (item ∷ rest) =
    scull_trim item.dev >>= λ trimmed. free_items rest >>= λ later. done (trimmed.1 + 1 + later)

abbrev clean_scull_priv : ScullPriv → Run (ScullPriv × ℕ)
clean_scull_priv priv = free_items priv.items >>= λ freed. done (record priv { items = [] }, freed)
