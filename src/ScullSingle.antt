-- ===== src/ScullSingle.antt =====
-- scull_full/include/scull_single.h and scull_full/impl/scull_single.c: a memory device that one
-- file at a time may open. Its read, write, ioctl and llseek are those of the memory device.
pub mod Calls
pub mod Exclusion
use ldd3_kernel.Prelude.{ℕ, Bool, true, false, not, if◌then◌else◌}
use ldd3_kernel.Int.{ℤ, pos, ◌+ℤ◌, ◌-ℤ◌, is_zero, to_int}
use ldd3_kernel.Kernel.{Kernel, Reply, ok, err, ebusy, Run, done, ◌>>=◌}
use ldd3_kernel.ScullDev.{ScullDev, construct_scull_dev}
use ldd3_kernel.ScullDev.Trim.{scull_dev_open, scull_dev_release}

-- `struct scull_single`
pub record ScullSingle : Type 0 where
  pub dev : ScullDev
  pub available : ℤ

unfoldable pub init_scull_single : ScullSingle
init_scull_single = record { dev = construct_scull_dev; available = pos 1 }

-- `atomic_inc(&dev->available)`
unfoldable pub atomic_inc : ScullSingle → ScullSingle
atomic_inc s = record s { available = to_int (s.available +ℤ pos 1) }

-- `atomic_dec_and_test(&dev->available)`: whether it is zero now
unfoldable pub atomic_dec_and_test : ScullSingle → ScullSingle × Bool
atomic_dec_and_test s = (
  record s { available = to_int (s.available -ℤ pos 1) },
  is_zero (to_int (s.available -ℤ pos 1)),
)

-- After a scull_dev_open that failed the device is available again.
abbrev pub keep_if_open : ScullSingle → Reply (Unit {0}) → ScullSingle × Reply (Unit {0})
keep_if_open s (ok u) = (s, ok u)
keep_if_open s (err e) = (atomic_inc s, err e)

unfoldable pub scull_single_open : Kernel → ScullSingle → ℕ → Run (ScullSingle × Reply (Unit {0}))
scull_single_open k s f_flags =
    let (s', got) = atomic_dec_and_test s in
    if not got
    then done (atomic_inc s', err ebusy)
    else (scull_dev_open k s'.dev f_flags >>= λ opened.
        done (keep_if_open (record s' { dev = opened.0 }) opened.1))

unfoldable pub scull_single_release : ScullSingle → ScullSingle × Reply (Unit {0})
scull_single_release s =
    let s' = atomic_inc s in let (dev, r) = scull_dev_release s'.dev in (record s' { dev = dev }, r)
