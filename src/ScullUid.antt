-- ===== src/ScullUid.antt =====
-- scull_full/include/scull_uid.h and scull_full/impl/scull_uid.c: a memory device that the files of
-- one user may have open. Its read, write, ioctl and llseek are those of the memory device.
pub mod Calls
pub mod Ownership
use ldd3_kernel.Prelude.{ℕ, ◌+◌, ◌-◌, ◌%◌, Bool, not, ◌&&◌, ◌==◌, if◌then◌else◌, Option, none, some}
use ldd3_kernel.Int.{size_mod}
use ldd3_kernel.Kernel.{Kernel, Reply, ok, err, ebusy, Run, done, ◌>>=◌}
use ldd3_kernel.ScullDev.{ScullDev, construct_scull_dev}
use ldd3_kernel.ScullDev.Trim.{scull_dev_open, scull_dev_release}

-- `struct scull_uid`; `count` is a size_t.
pub record ScullUid : Type 0 where
  pub dev : ScullDev
  pub owner : ℕ
  pub count : ℕ

-- `current->cred`, and `capable(CAP_DAC_OVERRIDE)`
pub record Caller : Type 0 where
  pub uid : ℕ
  pub euid : ℕ
  pub dac_override : Bool

unfoldable pub init_scull_uid : ScullUid
init_scull_uid = record { dev = construct_scull_dev; owner = 0; count = 0 }

-- The condition of EBUSY
abbrev pub refuses : ScullUid → Caller → Bool
refuses u c =
    not (u.count == 0)
    && (not (u.owner == c.uid) && (not (u.owner == c.euid) && not c.dac_override))

-- The owner is set by the first, the count by each.
abbrev pub entered : ScullUid → Caller → ScullUid
entered u c = record u {
  owner = if u.count == 0 then c.uid else u.owner;
  count = (u.count + 1) % size_mod;
}

-- The first section under the spin lock: `none` for EBUSY
unfoldable pub grab : ScullUid → Caller → Option ScullUid
grab u c = if refuses u c then none else some (entered u c)

-- `--dev->count` under the spin lock
unfoldable pub drop_user : ScullUid → ScullUid
drop_user u = record u { count = (u.count + size_mod - 1) % size_mod }

abbrev pub keep_if_open : ScullUid → Reply (Unit {0}) → ScullUid × Reply (Unit {0})
keep_if_open u (ok x) = (u, ok x)
keep_if_open u (err e) = (drop_user u, err e)

unfoldable pub scull_uid_open : Kernel → ScullUid → Caller → ℕ → Run (ScullUid × Reply (Unit {0}))
scull_uid_open k u c f_flags = elim (grab u c) [
  | none ↦ done (u, err ebusy)
  | some u' ↦ scull_dev_open k u'.dev f_flags >>= λ opened.
      done (keep_if_open (record u' { dev = opened.0 }) opened.1)
]

unfoldable pub scull_uid_release : ScullUid → ScullUid × Reply (Unit {0})
scull_uid_release u =
    let u' = drop_user u in let (dev, r) = scull_dev_release u'.dev in (record u' { dev = dev }, r)
