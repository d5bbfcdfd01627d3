-- ===== src/Scullv.antt =====
-- scullv/include/scullv_dev.h, scullv.h, scullv/impl/scullv_dev_common.c and scullv.c: the memory device whose
-- quanta are mapped by vmalloc, and the driver that passes its calls on to it.
pub mod Refinement
use ldd3_kernel.Prelude.{ℕ, ◌*◌, ◌^◌, Bool, true, false, List, [], Option, if◌then◌else◌}
use ldd3_kernel.Int.{ℤ, pos, to_size}
use ldd3_kernel.Kernel.{Kernel, Reply, ok, err, erestartsys, Run, done, ◌>>=◌}
use ldd3_kernel.ScullDev.{ScullDev, ScullQset, Quantum, default_qset}
use ldd3_kernel.ScullDev.Trim.{free_qsets, write_only}
use ldd3_kernel.ScullDev.Seek.{scull_dev_llseek}
use ldd3_kernel.ScullMem.Read.{read_with}
use ldd3_kernel.ScullMem.Write.{write_with}
use ldd3_kernel.ScullMem.Zeroing.{zeroed}
use ldd3_kernel.ScullMem.Paged.{page_size, quantum_of, paged_ops}

-- `struct scullv_dev`
pub record ScullvDev : Type 0 where
  pub qsets : List ScullQset
  pub order : ℕ
  pub qset : ℤ
  pub size : ℕ
  pub mutex : Bool

unfoldable pub construct_scullv_dev : ℕ → ScullvDev
construct_scullv_dev order = record {
  qsets = [];
  order = order;
  qset = default_qset;
  size = 0;
  mutex = false;
}

-- The fields that the text shared with scull_full reads and writes
abbrev pub as_scull : ScullvDev → ScullDev
as_scull dev = record {
  qsets = dev.qsets;
  quantum = quantum_of dev.order;
  qset = dev.qset;
  new_quantum = quantum_of dev.order;
  new_qset = dev.qset;
  size = dev.size;
  mutex = dev.mutex;
}

abbrev pub with_scull : ScullvDev → ScullDev → ScullvDev
with_scull dev d = record dev { qsets = d.qsets; size = d.size; mutex = d.mutex }

-- `vmalloc(quantum)` and the memset
unfoldable pub area_or_null : Kernel → ℕ → ℕ → Run (Option Quantum)
area_or_null k order c =
    zeroed (to_size (quantum_of order)) (k.kmalloc c (to_size (quantum_of order)))

unfoldable pub scullv_trim : ScullvDev → Run (ScullvDev × ℕ)
scullv_trim dev =
    free_qsets dev.qset dev.qsets >>= λ freed. done (record dev { qsets = []; size = 0 }, freed)

unfoldable pub scullv_dev_open : Kernel → ScullvDev → ℕ → Run (ScullvDev × Reply (Unit {0}))
unfolding scullv_trim
scullv_dev_open k dev f_flags =
    if write_only f_flags
    then if k.interrupted
      then done (dev, err erestartsys)
      else (scullv_trim (record dev { mutex = true }) >>= λ trimmed.
          done (record trimmed.0 { mutex = false }, ok tt))
    else done (dev, ok tt)

abbrev pub scullv_dev_release : ScullvDev → ScullvDev × Reply (Unit {0})
scullv_dev_release dev = (dev, ok tt)

unfoldable pub scullv_dev_read :
    Kernel → ScullvDev → ℕ → ℤ → Run (ScullvDev × ℤ × Reply (ℕ × List ℕ))
scullv_dev_read k dev count f_pos =
    read_with (paged_ops k (area_or_null k dev.order)) k (as_scull dev) count f_pos >>= λ out.
    done (with_scull dev out.0, out.1, out.2)

unfoldable pub scullv_dev_write :
    Kernel → ScullvDev → List ℕ → ℕ → ℤ → Run (ScullvDev × ℤ × Reply ℕ)
scullv_dev_write k dev buf count f_pos =
    write_with (paged_ops k (area_or_null k dev.order)) k (as_scull dev) buf count f_pos >>= λ out.
    done (with_scull dev out.0, out.1, out.2)

abbrev pub scullv_dev_llseek : ScullvDev → ℤ → ℤ → ℕ → ℤ × Reply ℤ
scullv_dev_llseek dev f_pos off whence = scull_dev_llseek (as_scull dev) f_pos off whence

-- `struct scullv`, and the calls of its file operations
pub record Scullv : Type 0 where
  pub dev : ScullvDev

abbrev pub init_scullv : ℕ → Scullv
init_scullv order = record { dev = construct_scullv_dev order }

abbrev pub scullv_open : Kernel → Scullv → ℕ → Run (Scullv × Reply (Unit {0}))
scullv_open k s f_flags =
    scullv_dev_open k s.dev f_flags >>= λ out. done (record { dev = out.0 }, out.1)

abbrev pub scullv_release : Scullv → Scullv × Reply (Unit {0})
scullv_release s = let (dev, r) = scullv_dev_release s.dev in (record { dev = dev }, r)

abbrev pub scullv_read : Kernel → Scullv → ℕ → ℤ → Run (Scullv × ℤ × Reply (ℕ × List ℕ))
scullv_read k s count f_pos =
    scullv_dev_read k s.dev count f_pos >>= λ out. done (record { dev = out.0 }, out.1, out.2)

abbrev pub scullv_write : Kernel → Scullv → List ℕ → ℕ → ℤ → Run (Scullv × ℤ × Reply ℕ)
scullv_write k s buf count f_pos =
    scullv_dev_write k s.dev buf count f_pos >>= λ out. done (record { dev = out.0 }, out.1, out.2)

abbrev pub scullv_llseek : Scullv → ℤ → ℤ → ℕ → ℤ × Reply ℤ
scullv_llseek s f_pos off whence = scullv_dev_llseek s.dev f_pos off whence

abbrev pub clean_scullv : Scullv → Run (Scullv × ℕ)
clean_scullv s = scullv_trim s.dev >>= λ trimmed. done (record { dev = trimmed.0 }, trimmed.1)
