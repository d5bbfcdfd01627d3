-- ===== src/ScullWuid.antt =====
-- scull_full/include/scull_wuid.h and scull_full/impl/scull_wuid.c: a memory device that the files
-- of one user may have open, where the others wait. Its read, write, ioctl and llseek are those of
-- the memory device.
pub mod Calls
pub mod Waiting
use ldd3_kernel.Prelude.{ℕ, ◌+◌, ◌-◌, ◌%◌, Bool, List, [], ◌∷◌, ◌||◌, ◌==◌, if◌then◌else◌}
use ldd3_kernel.Int.{pos, to_int, is_zero, size_mod}
use ldd3_kernel.Kernel.{Kernel, Errno, Reply, ok, err, eagain, erestartsys, Run, done, ◌>>=◌}
use ldd3_kernel.ScullDev.{ScullDev, construct_scull_dev}
use ldd3_kernel.ScullDev.Trim.{scull_dev_open, scull_dev_release}
use ldd3_kernel.ScullUid.{Caller}

-- `struct scull_wuid`; `count` is a size_t.
pub record ScullWuid : Type 0 where
  pub dev : ScullDev
  pub owner : ℕ
  pub count : ℕ

unfoldable pub init_scull_wuid : ScullWuid
init_scull_wuid = record { dev = construct_scull_dev; owner = 0; count = 0 }

abbrev pub scull_w_available : ScullWuid → Caller → Bool
scull_w_available w c = w.count == 0 || (w.owner == c.uid || (w.owner == c.euid || c.dac_override))

-- What a sleeping open meets when it runs again: whether a signal woke it, and the device.
pub record Round : Type 0 where
  pub signal : Bool
  pub found : ScullWuid

-- The owner is set by the first, the count by each.
abbrev pub claimed : ScullWuid → Caller → ScullWuid
claimed w c = record w {
  owner = if w.count == 0 then c.uid else w.owner;
  count = (w.count + 1) % size_mod;
}

-- How the part of an open under the spin lock ends.
pub data Entry : Type 0 where
  enters : ScullWuid → Entry
  sleeps : ScullWuid → Entry
  fails : ScullWuid → Errno → Entry

-- The loop and what follows it up to the last `spin_unlock`, for the rounds that are to come
unfoldable pub enter : List Round → ScullWuid → Caller → Bool → Entry
enter [] w c nonblock =
    if scull_w_available w c
    then enters (claimed w c)
    else if nonblock
    then fails w eagain
    else sleeps w
enter (r ∷ rs) w c nonblock =
    let rest = enter rs r.found c nonblock in
    if scull_w_available w c
    then enters (claimed w c)
    else if nonblock
    then fails w eagain
    else if r.signal
    then fails r.found erestartsys
    else rest

-- `--dev->count` under the spin lock
unfoldable pub drop_user : ScullWuid → ScullWuid
drop_user w = record w { count = (w.count + size_mod - 1) % size_mod }

pub data Opened : Type 0 where
  asleep : ScullWuid → Opened
  returned : ScullWuid → Reply (Unit {0}) → Opened

abbrev pub keep_if_open : ScullWuid → Reply (Unit {0}) → Opened
keep_if_open w (ok x) = returned w (ok x)
keep_if_open w (err e) = returned (drop_user w) (err e)

unfoldable pub open_entered : Kernel → ℕ → Entry → Run Opened
open_entered k f_flags (sleeps w) = done (asleep w)
open_entered k f_flags (fails w e) = done (returned w (err e))
open_entered k f_flags (enters w) = scull_dev_open k w.dev f_flags >>= λ opened.
    done (keep_if_open (record w { dev = opened.0 }) opened.1)

unfoldable pub scull_wuid_open : Kernel → List Round → ScullWuid → Caller → Bool → ℕ → Run Opened
unfolding open_entered
scull_wuid_open k rounds w c nonblock f_flags = open_entered k f_flags (enter rounds w c nonblock)

-- The device, the reply, and whether the sleeping openers are woken. The count is copied to
-- `int temp`, which is what the test reads.
unfoldable pub scull_wuid_release : ScullWuid → ScullWuid × Reply (Unit {0}) × Bool
scull_wuid_release w =
    let w' = drop_user w in
    let (dev, r) = scull_dev_release w'.dev in
    (record w' { dev = dev }, r, is_zero (to_int (pos w'.count)))
