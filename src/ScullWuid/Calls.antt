-- ===== src/ScullWuid/Calls.antt =====
-- The operations of scull_full/impl/scull_wuid.c that pass a call on to the memory device, and
-- clean_scull_wuid.
use ldd3_kernel.Prelude.{ℕ, List, Option}
use ldd3_kernel.Int.{ℤ}
use ldd3_kernel.Kernel.{Kernel, Task, Reply, Run, done, ◌>>=◌}
use ldd3_kernel.ScullDev.Trim.{scull_trim}
use ldd3_kernel.ScullDev.Read.{scull_dev_read}
use ldd3_kernel.ScullDev.Write.{scull_dev_write}
use ldd3_kernel.ScullDev.Ioctl.{scull_dev_ioctl}
use ldd3_kernel.ScullDev.Seek.{scull_dev_llseek}
use ldd3_kernel.ScullWuid.{ScullWuid}

abbrev scull_wuid_read : Kernel → ScullWuid → ℕ → ℤ → Run (ScullWuid × ℤ × Reply (ℕ × List ℕ))
scull_wuid_read k s count f_pos =
    scull_dev_read k s.dev count f_pos >>= λ out. done (record s { dev = out.0 }, out.1, out.2)

abbrev scull_wuid_write : Kernel → ScullWuid → List ℕ → ℕ → ℤ → Run (ScullWuid × ℤ × Reply ℕ)
scull_wuid_write k s buf count f_pos =
    scull_dev_write k s.dev buf count f_pos >>= λ out. done (record s { dev = out.0 }, out.1, out.2)

abbrev scull_wuid_ioctl : Task → ScullWuid → ℕ → ℕ → ScullWuid × Reply ℤ × Option ℤ
scull_wuid_ioctl t s cmd arg =
    let (dev, r, stored) = scull_dev_ioctl t s.dev cmd arg in (record s { dev = dev }, r, stored)

abbrev scull_wuid_llseek : ScullWuid → ℤ → ℤ → ℕ → ℤ × Reply ℤ
scull_wuid_llseek s f_pos off whence = scull_dev_llseek s.dev f_pos off whence

abbrev clean_scull_wuid : ScullWuid → Run (ScullWuid × ℕ)
clean_scull_wuid s = scull_trim s.dev >>= λ trimmed. done (record s { dev = trimmed.0 }, trimmed.1)
