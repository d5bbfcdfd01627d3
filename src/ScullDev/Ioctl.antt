-- ===== src/ScullDev/Ioctl.antt =====
-- scull_dev_ioctl.
use ldd3_kernel.Prelude.{
  ℕ, ◌+◌, ◌*◌, ◌/◌, ◌%◌, ◌^◌, Bool, false, not, Option, none, some, leb, ◌==◌, if◌then◌else◌,
}
use ldd3_kernel.Int.{ℤ, pos, to_int}
use ldd3_kernel.Kernel.{Task, Reply, ok, err, efault, enotty, eperm}
use ldd3_kernel.ScullDev.{ScullDev, default_quantum, default_qset}

-- The fields of a command: direction in bits 30-31 (1 write, 2 read), size in bits 16-29, type in
-- bits 8-15, number in bits 0-7.
abbrev pub ioc : ℕ → ℕ → ℕ → ℕ
ioc dir nr size = dir * 2 ^ 30 + size * 2 ^ 16 + b'k' * 2 ^ 8 + nr

abbrev pub ioc_type : ℕ → ℕ
ioc_type cmd = cmd / 2 ^ 8 % 2 ^ 8

abbrev pub ioc_nr : ℕ → ℕ
ioc_nr cmd = cmd % 2 ^ 8

abbrev pub ioc_size : ℕ → ℕ
ioc_size cmd = cmd / 2 ^ 16 % 2 ^ 14

abbrev pub ioc_dir : ℕ → ℕ
ioc_dir cmd = cmd / 2 ^ 30 % 4

abbrev pub reset : ℕ
reset = ioc 0 0 0

abbrev pub set_quantum : ℕ
set_quantum = ioc 1 1 4

abbrev pub tell_quantum : ℕ
tell_quantum = ioc 0 3 0

abbrev pub get_quantum : ℕ
get_quantum = ioc 2 5 4

abbrev pub query_quantum : ℕ
query_quantum = ioc 0 7 0

abbrev pub exchange_quantum : ℕ
exchange_quantum = ioc 3 9 4

abbrev pub shift_quantum : ℕ
shift_quantum = ioc 0 11 0

abbrev pub ioc_maxnr : ℕ
ioc_maxnr = 13

-- The device, the reply, and what was stored through `arg`.
abbrev pub Answer : Type 0
Answer = ScullDev × Reply ℤ × Option ℤ

abbrev pub status : Bool → Reply ℤ
status failed = if failed then err efault else ok (pos 0)

-- `__put_user(value, (int __user*)arg)`
abbrev pub store : Task → ScullDev → ℕ → ℤ → Answer
store t dev arg value =
    if t.put_user arg value then (dev, err efault, none) else (dev, ok (pos 0), some value)

exchange : Task → ScullDev → ℕ → Answer
exchange t dev arg =
    let (value, failed) = t.get_user arg in
    let dev' = record dev { new_quantum = value } in
    if failed then (dev', err efault, none) else store t dev' arg dev.new_quantum

-- The `switch`. Its cases for the privileged commands test the capability again.
switch : Task → ScullDev → ℕ → ℕ → Answer
switch t dev cmd arg =
    if cmd == reset
    then (record dev { new_quantum = default_quantum; new_qset = default_qset }, ok (pos 0), none)
    else if cmd == set_quantum
    then if not t.sys_admin
      then (dev, err eperm, none)
      else (record dev { new_quantum = (t.get_user arg).0 }, status (t.get_user arg).1, none)
    else if cmd == tell_quantum
    then if not t.sys_admin
      then (dev, err eperm, none)
      else (record dev { new_quantum = to_int (pos arg) }, ok (pos 0), none)
    else if cmd == get_quantum
    then store t dev arg dev.new_quantum
    else if cmd == query_quantum
    then (dev, ok dev.new_quantum, none)
    else if cmd == exchange_quantum
    then if not t.sys_admin then (dev, err eperm, none) else exchange t dev arg
    else if cmd == shift_quantum
    then if not t.sys_admin
      then (dev, err eperm, none)
      else (record dev { new_quantum = to_int (pos arg) }, ok dev.new_quantum, none)
    else (dev, err enotty, none)

-- `_IOC_DIR(cmd) & _IOC_READ` is the upper bit of the direction, `_IOC_WRITE` the lower.
abbrev pub refused : Task → ℕ → ℕ → Bool
refused t cmd arg =
    if ioc_dir cmd / 2 == 1
    then not (t.access_ok arg (ioc_size cmd))
    else if ioc_dir cmd % 2 == 1
    then not (t.access_ok arg (ioc_size cmd))
    else false

unfoldable pub scull_dev_ioctl : Task → ScullDev → ℕ → ℕ → Answer
unfolding exchange switch
scull_dev_ioctl t dev cmd arg =
    if not (ioc_type cmd == b'k')
    then (dev, err enotty, none)
    else if leb ioc_maxnr (ioc_nr cmd)
    then (dev, err enotty, none)
    else if refused t cmd arg
    then (dev, err efault, none)
    else if not t.sys_admin
    then (dev, err eperm, none)
    else switch t dev cmd arg
