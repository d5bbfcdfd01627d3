-- ===== src/Scull.antt =====
-- scull_full/include/scull.h and scull_full/impl/scull.c: the driver that any number of files may
-- have open. Each operation passes the call on to the memory device.
use ldd3_kernel.Prelude.{ℕ, List, Option}
use ldd3_kernel.Int.{ℤ}
use ldd3_kernel.Kernel.{Kernel, Task, Reply, Run, done, ◌>>=◌}
use ldd3_kernel.ScullDev.{ScullDev, construct_scull_dev}
use ldd3_kernel.ScullDev.Trim.{scull_trim, scull_dev_open, scull_dev_release}
use ldd3_kernel.ScullDev.Read.{scull_dev_read}
use ldd3_kernel.ScullDev.Write.{scull_dev_write}
use ldd3_kernel.ScullDev.Ioctl.{scull_dev_ioctl}
use ldd3_kernel.ScullDev.Seek.{scull_dev_llseek}

-- `struct scull`
pub record Scull : Type 0 where
  pub dev : ScullDev

abbrev pub init_scull : Scull
init_scull = record { dev = construct_scull_dev }

abbrev pub scull_open : Kernel → Scull → ℕ → Run (Scull × Reply (Unit {0}))
scull_open k s f_flags =
    scull_dev_open k s.dev f_flags >>= λ out. done (record { dev = out.0 }, out.1)

abbrev scull_release : Scull → Scull × Reply (Unit {0})
scull_release s = let (dev, r) = scull_dev_release s.dev in (record { dev = dev }, r)

abbrev pub scull_read : Kernel → Scull → ℕ → ℤ → Run (Scull × ℤ × Reply (ℕ × List ℕ))
scull_read k s count f_pos =
    scull_dev_read k s.dev count f_pos >>= λ out. done (record { dev = out.0 }, out.1, out.2)

abbrev pub scull_write : Kernel → Scull → List ℕ → ℕ → ℤ → Run (Scull × ℤ × Reply ℕ)
scull_write k s buf count f_pos =
    scull_dev_write k s.dev buf count f_pos >>= λ out. done (record { dev = out.0 }, out.1, out.2)

abbrev scull_ioctl : Task → Scull → ℕ → ℕ → Scull × Reply ℤ × Option ℤ
scull_ioctl t s cmd arg =
    let (dev, r, stored) = scull_dev_ioctl t s.dev cmd arg in (record { dev = dev }, r, stored)

abbrev pub scull_llseek : Scull → ℤ → ℤ → ℕ → ℤ × Reply ℤ
scull_llseek s f_pos off whence = scull_dev_llseek s.dev f_pos off whence

abbrev pub clean_scull : Scull → Run (Scull × ℕ)
clean_scull s = scull_trim s.dev >>= λ trimmed. done (record { dev = trimmed.0 }, trimmed.1)
