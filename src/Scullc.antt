-- ===== src/Scullc.antt =====
-- scullc/include/scullc_dev.h, scullc.h, scullc/impl/scullc_dev_common.c and scullc.c: the memory
-- device whose quanta are objects of a slab cache, and the driver that passes its calls on to it.
pub mod Chunks
pub mod Copies
pub mod Receiving
pub mod Refinement
use ldd3_kernel.Prelude.{ℕ, ◌+◌, Bool, true, false, List, [], if◌then◌else◌}
use ldd3_kernel.Int.{ℤ, pos, to_size}
use ldd3_kernel.Kernel.{Kernel, Reply, ok, err, erestartsys, Run, done, ◌>>=◌}
use ldd3_kernel.ScullDev.{ScullDev, ScullQset, default_qset}
use ldd3_kernel.ScullDev.Trim.{free_qsets, write_only}
use ldd3_kernel.ScullDev.Seek.{scull_dev_llseek}
use ldd3_kernel.ScullMem.{Ops}
use ldd3_kernel.ScullMem.Read.{read_with}
use ldd3_kernel.ScullMem.Write.{write_with}
use ldd3_kernel.ScullMem.Zeroing.{zeroed}
use ldd3_kernel.Scullc.Chunks.{send_chunks, receive_chunks}

-- `struct scullc_dev`; `cache` is the size of the objects of the cache.
pub record ScullcDev : Type 0 where
  pub qsets : List ScullQset
  pub quantum : ℤ
  pub qset : ℤ
  pub size : ℕ
  pub mutex : Bool
  pub cache : ℕ

unfoldable pub construct_scullc_dev : ℤ → ℕ → ScullcDev
construct_scullc_dev quantum_size cache = record {
  qsets = [];
  quantum = quantum_size;
  qset = default_qset;
  size = 0;
  mutex = false;
  cache = cache;
}

-- The fields that the text shared with scull_full reads and writes
abbrev pub as_scull : ScullcDev → ScullDev
as_scull dev = record {
  qsets = dev.qsets;
  quantum = dev.quantum;
  qset = dev.qset;
  new_quantum = dev.quantum;
  new_qset = dev.qset;
  size = dev.size;
  mutex = dev.mutex;
}

abbrev pub with_scull : ScullcDev → ScullDev → ScullcDev
with_scull dev d = record dev { qsets = d.qsets; size = d.size; mutex = d.mutex }

-- The quanta come from the cache, and the copies go in chunks.
unfoldable pub scullc_ops : Kernel → (ℕ → Kernel) → ScullcDev → Ops
scullc_ops k chunks dev = record {
  alloc = λ c. zeroed (to_size dev.quantum) (k.kmalloc c dev.cache);
  copy_out = λ block q_pos n. send_chunks (n + 1) chunks block q_pos n 0;
  copy_in = λ block q_pos buf n. receive_chunks (n + 1) chunks block q_pos buf n 0;
}

unfoldable pub scullc_trim : ScullcDev → Run (ScullcDev × ℕ)
scullc_trim dev =
    free_qsets dev.qset dev.qsets >>= λ freed. done (record dev { qsets = []; size = 0 }, freed)

unfoldable pub scullc_dev_open : Kernel → ScullcDev → ℕ → Run (ScullcDev × Reply (Unit {0}))
unfolding scullc_trim
scullc_dev_open k dev f_flags =
    if write_only f_flags
    then if k.interrupted
      then done (dev, err erestartsys)
      else (scullc_trim (record dev { mutex = true }) >>= λ trimmed.
          done (record trimmed.0 { mutex = false }, ok tt))
    else done (dev, ok tt)

abbrev pub scullc_dev_release : ScullcDev → ScullcDev × Reply (Unit {0})
scullc_dev_release dev = (dev, ok tt)

unfoldable pub scullc_dev_read :
    Kernel → (ℕ → Kernel) → ScullcDev → ℕ → ℤ → Run (ScullcDev × ℤ × Reply (ℕ × List ℕ))
scullc_dev_read k chunks dev count f_pos =
    read_with (scullc_ops k chunks dev) k (as_scull dev) count f_pos >>= λ out.
    done (with_scull dev out.0, out.1, out.2)

unfoldable pub scullc_dev_write :
    Kernel → (ℕ → Kernel) → ScullcDev → List ℕ → ℕ → ℤ → Run (ScullcDev × ℤ × Reply ℕ)
scullc_dev_write k chunks dev buf count f_pos =
    write_with (scullc_ops k chunks dev) k (as_scull dev) buf count f_pos >>= λ out.
    done (with_scull dev out.0, out.1, out.2)

abbrev pub scullc_dev_llseek : ScullcDev → ℤ → ℤ → ℕ → ℤ × Reply ℤ
scullc_dev_llseek dev f_pos off whence = scull_dev_llseek (as_scull dev) f_pos off whence

-- `struct scullc`, and the calls of its file operations
pub record Scullc : Type 0 where
  pub dev : ScullcDev

abbrev pub init_scullc : ℤ → ℕ → Scullc
init_scullc quantum_size cache = record { dev = construct_scullc_dev quantum_size cache }

abbrev pub scullc_open : Kernel → Scullc → ℕ → Run (Scullc × Reply (Unit {0}))
scullc_open k s f_flags =
    scullc_dev_open k s.dev f_flags >>= λ out. done (record { dev = out.0 }, out.1)

abbrev pub scullc_release : Scullc → Scullc × Reply (Unit {0})
scullc_release s = let (dev, r) = scullc_dev_release s.dev in (record { dev = dev }, r)

abbrev pub scullc_read :
    Kernel → (ℕ → Kernel) → Scullc → ℕ → ℤ → Run (Scullc × ℤ × Reply (ℕ × List ℕ))
scullc_read k chunks s count f_pos = scullc_dev_read k chunks s.dev count f_pos >>= λ out.
    done (record { dev = out.0 }, out.1, out.2)

abbrev pub scullc_write :
    Kernel → (ℕ → Kernel) → Scullc → List ℕ → ℕ → ℤ → Run (Scullc × ℤ × Reply ℕ)
scullc_write k chunks s buf count f_pos = scullc_dev_write k chunks s.dev buf count f_pos >>= λ out.
    done (record { dev = out.0 }, out.1, out.2)

abbrev pub scullc_llseek : Scullc → ℤ → ℤ → ℕ → ℤ × Reply ℤ
scullc_llseek s f_pos off whence = scullc_dev_llseek s.dev f_pos off whence

abbrev pub clean_scullc : Scullc → Run (Scullc × ℕ)
clean_scullc s = scullc_trim s.dev >>= λ trimmed. done (record { dev = trimmed.0 }, trimmed.1)
