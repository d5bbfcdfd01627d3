-- ===== src/ScullSingle/Calls.antt =====
-- The operations of scull_full/impl/scull_single.c that pass a call on to the memory device, and
-- clean_scull_single.
use ldd3_kernel.Prelude.{ℕ, List, Option}
use ldd3_kernel.Int.{ℤ}
use ldd3_kernel.Kernel.{Kernel, Task, Reply, Run, done, ◌>>=◌}
use ldd3_kernel.ScullDev.Trim.{scull_trim}
use ldd3_kernel.ScullDev.Read.{scull_dev_read}
use ldd3_kernel.ScullDev.Write.{scull_dev_write}
use ldd3_kernel.ScullDev.Ioctl.{scull_dev_ioctl}
use ldd3_kernel.ScullDev.Seek.{scull_dev_llseek}
use ldd3_kernel.ScullSingle.{ScullSingle}

abbrev scull_single_read : Kernel → ScullSingle → ℕ → ℤ → Run (ScullSingle × ℤ × Reply (ℕ × List ℕ))
scull_single_read k s count f_pos =
    scull_dev_read k s.dev count f_pos >>= λ out. done (record s { dev = out.0 }, out.1, out.2)

abbrev scull_single_write : Kernel → ScullSingle → List ℕ → ℕ → ℤ → Run (ScullSingle × ℤ × Reply ℕ)
scull_single_write k s buf count f_pos =
    scull_dev_write k s.dev buf count f_pos >>= λ out. done (record s { dev = out.0 }, out.1, out.2)

abbrev scull_single_ioctl : Task → ScullSingle → ℕ → ℕ → ScullSingle × Reply ℤ × Option ℤ
scull_single_ioctl t s cmd arg =
    let (dev, r, stored) = scull_dev_ioctl t s.dev cmd arg in (record s { dev = dev }, r, stored)

abbrev scull_single_llseek : ScullSingle → ℤ → ℤ → ℕ → ℤ × Reply ℤ
scull_single_llseek s f_pos off whence = scull_dev_llseek s.dev f_pos off whence

abbrev clean_scull_single : ScullSingle → Run (ScullSingle × ℕ)
clean_scull_single s =
    scull_trim s.dev >>= λ trimmed. done (record s { dev = trimmed.0 }, trimmed.1)
