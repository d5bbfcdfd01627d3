-- ===== src/Scullp.antt =====
-- scullp/include/scullp_dev.h, scullp.h, scullp/impl/scullp_dev_common.c and scullp.c: the memory device whose
-- quanta are blocks of pages, and the driver that passes its calls on to it.
pub mod Refinement
use ldd3_kernel.Prelude.{ℕ, ◌*◌, ◌^◌, Bool, true, false, List, [], Option, if◌then◌else◌}
use ldd3_kernel.Int.{ℤ, pos, to_size}
use ldd3_kernel.Kernel.{Kernel, Reply, ok, err, erestartsys, Run, done, ◌>>=◌}
use ldd3_kernel.ScullDev.{ScullDev, ScullQset, Quantum, default_qset}
use ldd3_kernel.ScullDev.Trim.{free_qsets, write_only}
use ldd3_kernel.ScullDev.Seek.{scull_dev_llseek}
use ldd3_kernel.ScullMem.Read.{read_with}
use ldd3_kernel.ScullMem.Write.{write_with}
use ldd3_kernel.ScullMem.Zeroing.{zeroed}
use ldd3_kernel.ScullMem.Paged.{page_size, quantum_of, paged_ops}

-- `struct scullp_dev`
pub record ScullpDev : Type 0 where
  pub qsets : List ScullQset
  pub order : ℕ
  pub qset : ℤ
  pub size : ℕ
  pub mutex : Bool

unfoldable pub construct_scullp_dev : ℕ → ScullpDev
construct_scullp_dev order = record {
  qsets = [];
  order = order;
  qset = default_qset;
  size = 0;
  mutex = false;
}

-- The fields that the text shared with scull_full reads and writes
abbrev pub as_scull : ScullpDev → ScullDev
as_scull dev = record {
  qsets = dev.qsets;
  quantum = quantum_of dev.order;
  qset = dev.qset;
  new_quantum = quantum_of dev.order;
  new_qset = dev.qset;
  size = dev.size;
  mutex = dev.mutex;
}

abbrev pub with_scull : ScullpDev → ScullDev → ScullpDev
with_scull dev d = record dev { qsets = d.qsets; size = d.size; mutex = d.mutex }

-- `__get_free_pages(GFP_KERNEL, dev->order)` and the memset
unfoldable pub pages_or_null : Kernel → ℕ → ℕ → Run (Option Quantum)
pages_or_null k order c = zeroed (to_size (quantum_of order)) (k.kmalloc c (page_size * 2 ^ order))

unfoldable pub scullp_trim : ScullpDev → Run (ScullpDev × ℕ)
scullp_trim dev =
    free_qsets dev.qset dev.qsets >>= λ freed. done (record dev { qsets = []; size = 0 }, freed)

unfoldable pub scullp_dev_open : Kernel → ScullpDev → ℕ → Run (ScullpDev × Reply (Unit {0}))
unfolding scullp_trim
scullp_dev_open k dev f_flags =
    if write_only f_flags
    then if k.interrupted
      then done (dev, err erestartsys)
      else (scullp_trim (record dev { mutex = true }) >>= λ trimmed.
          done (record trimmed.0 { mutex = false }, ok tt))
    else done (dev, ok tt)

abbrev pub scullp_dev_release : ScullpDev → ScullpDev × Reply (Unit {0})
scullp_dev_release dev = (dev, ok tt)

unfoldable pub scullp_dev_read :
    Kernel → ScullpDev → ℕ → ℤ → Run (ScullpDev × ℤ × Reply (ℕ × List ℕ))
scullp_dev_read k dev count f_pos =
    read_with (paged_ops k (pages_or_null k dev.order)) k (as_scull dev) count f_pos >>= λ out.
    done (with_scull dev out.0, out.1, out.2)

unfoldable pub scullp_dev_write :
    Kernel → ScullpDev → List ℕ → ℕ → ℤ → Run (ScullpDev × ℤ × Reply ℕ)
scullp_dev_write k dev buf count f_pos =
    write_with (paged_ops k (pages_or_null k dev.order)) k (as_scull dev) buf count f_pos >>= λ out.
    done (with_scull dev out.0, out.1, out.2)

abbrev pub scullp_dev_llseek : ScullpDev → ℤ → ℤ → ℕ → ℤ × Reply ℤ
scullp_dev_llseek dev f_pos off whence = scull_dev_llseek (as_scull dev) f_pos off whence

-- `struct scullp`, and the calls of its file operations
pub record Scullp : Type 0 where
  pub dev : ScullpDev

abbrev pub init_scullp : ℕ → Scullp
init_scullp order = record { dev = construct_scullp_dev order }

abbrev pub scullp_open : Kernel → Scullp → ℕ → Run (Scullp × Reply (Unit {0}))
scullp_open k s f_flags =
    scullp_dev_open k s.dev f_flags >>= λ out. done (record { dev = out.0 }, out.1)

abbrev pub scullp_release : Scullp → Scullp × Reply (Unit {0})
scullp_release s = let (dev, r) = scullp_dev_release s.dev in (record { dev = dev }, r)

abbrev pub scullp_read : Kernel → Scullp → ℕ → ℤ → Run (Scullp × ℤ × Reply (ℕ × List ℕ))
scullp_read k s count f_pos =
    scullp_dev_read k s.dev count f_pos >>= λ out. done (record { dev = out.0 }, out.1, out.2)

abbrev pub scullp_write : Kernel → Scullp → List ℕ → ℕ → ℤ → Run (Scullp × ℤ × Reply ℕ)
scullp_write k s buf count f_pos =
    scullp_dev_write k s.dev buf count f_pos >>= λ out. done (record { dev = out.0 }, out.1, out.2)

abbrev pub scullp_llseek : Scullp → ℤ → ℤ → ℕ → ℤ × Reply ℤ
scullp_llseek s f_pos off whence = scullp_dev_llseek s.dev f_pos off whence

abbrev pub clean_scullp : Scullp → Run (Scullp × ℕ)
clean_scullp s = scullp_trim s.dev >>= λ trimmed. done (record { dev = trimmed.0 }, trimmed.1)
