-- ===== src/ScullDev/IoctlEffect.antt =====
-- What scull_dev_ioctl may change, who may use it, and where it leads.
use ldd3_kernel.Prelude.{
  ℕ, ◌%◌, ◌<◌, ◌≡◌, refl, ◌∙◌, true, false, List, none, arith, leb, ◌==◌, not, ◌||◌, if◌then◌else◌,
}
use ldd3_kernel.Int.{ℤ, pos, to_int, to_int-pos, negsuc, int_min_abs, div_checked}
use ldd3_kernel.Kernel.{
  Kernel, Task, ok, err, enotty, eperm, efault, Errno, done, fault, divide_error,
}
use ldd3_kernel.ScullDev.{ScullDev, lock, unlock}
use ldd3_kernel.ScullDev.Follow.{locate, itemsize}
use ldd3_kernel.ScullDev.Trim.{scull_dev_open, write_only}
use ldd3_kernel.ScullDev.Write.{scull_dev_write}
use ldd3_kernel.ScullDev.Ioctl.{
  scull_dev_ioctl, ioc_type, ioc_nr, ioc_maxnr, refused, tell_quantum, query_quantum, shift_quantum,
}
use ldd3_kernel.ScullDev.Valid.{IsValid}
use ldd3_kernel.ScullDev.TrimFrees.{trimmed, scull_dev_open_lem}

-- Every command, whoever calls it, leaves the stored data, the size, the mutex and the geometry in
-- force alone; only the geometry for the next trim changes.
pub ioctl_keeps_file :
    (t : Task) (dev : ScullDev) (cmd arg : ℕ)
    → let dev' = (scull_dev_ioctl t dev cmd arg).0 in
      dev' ≡ record dev { new_quantum = dev'.new_quantum; new_qset = dev'.new_qset }
unfolding scull_dev_ioctl
ioctl_keeps_file t dev cmd arg = ground arith

-- The error that a command without the capability ends in.
abbrev pub denial : Task → ℕ → ℕ → Errno
denial t cmd arg =
    if not (ioc_type cmd == b'k') || leb ioc_maxnr (ioc_nr cmd)
    then enotty
    else if refused t cmd arg
    then efault
    else eperm

-- Without the capability no command succeeds, and none changes or stores anything: the reply is
-- ENOTTY for a foreign type or number, else EFAULT for a bad address, else EPERM.
pub ioctl_unprivileged :
    (t : Task) (dev : ScullDev) (cmd arg : ℕ)
    → t.sys_admin ≡ false
    → scull_dev_ioctl t dev cmd arg ≡ (dev, err (denial t cmd arg), none)
unfolding scull_dev_ioctl
ioctl_unprivileged t dev cmd arg h = ground arith

-- A command whose number is even and not 0, as those for the array size are, ends in ENOTTY and
-- changes nothing, even with the capability and a good address.
pub qset_commands_missing :
    (t : Task) (dev : ScullDev) (cmd arg : ℕ)
    → t.sys_admin ≡ true
    → refused t cmd arg ≡ false
    → ioc_nr cmd % 2 ≡ 0
    → 0 < ioc_nr cmd
    → scull_dev_ioctl t dev cmd arg ≡ (dev, err enotty, none)
unfolding scull_dev_ioctl
qset_commands_missing t dev cmd arg admin good even some_nr = ground arith

-- A privileged tell sets the quantum for the next trim to its argument as an int, and a query then
-- returns it.
pub tell_query :
    (t : Task) (dev : ScullDev) (arg arg' : ℕ)
    → t.sys_admin ≡ true
    → let dev' = (scull_dev_ioctl t dev tell_quantum arg).0 in
      scull_dev_ioctl t dev' query_quantum arg' ≡ (dev', ok (to_int (pos arg)), none)
unfolding scull_dev_ioctl
tell_query t dev arg arg' h = ground (arith, h)

-- Where the quantum for the next trim is not negative, a privileged shift returns it and sets
-- another; a second shift with the value that the first returned restores the device.
pub shift_restores :
    (t : Task) (dev : ScullDev) (n arg : ℕ)
    → t.sys_admin ≡ true
    → dev.new_quantum ≡ pos n
    → n < int_min_abs
    → let (dev', r, _) = scull_dev_ioctl t dev shift_quantum arg in
      (r ≡ ok (pos n))
      × (scull_dev_ioctl t dev' shift_quantum n ≡ (dev, ok (to_int (pos arg)), none))
unfolding scull_dev_ioctl
shift_restores t dev n arg admin e small = ground (arith, to_int-pos n small)

-- A device whose item size is zero faults in the division.
itemsize_zero : (dev : ScullDev) (z : ℤ) → dev.qset ≡ z → dev.quantum ≡ pos 0 → itemsize dev ≡ pos 0
unfolding to_int
itemsize_zero dev (pos s) e f = rw (f, e) (ground arith)
itemsize_zero dev (negsuc s) e f = rw (f, e) (ground arith)

pub locate_zero :
    (dev : ScullDev) (f_pos : ℤ) → itemsize dev ≡ pos 0 → locate dev f_pos ≡ fault divide_error
unfolding locate div_checked
locate_zero dev f_pos e = rw e

pub write_zero :
    (k : Kernel) (dev : ScullDev) (buf : List ℕ) (count : ℕ) (f_pos : ℤ)
    → k.interrupted ≡ false
    → itemsize dev ≡ pos 0
    → scull_dev_write k dev buf count f_pos ≡ fault divide_error
unfolding scull_dev_write
write_zero k dev buf count f_pos had e = simp (had, locate_zero (lock dev) f_pos e)

tell_lem :
    (t : Task) (dev : ScullDev) (arg : ℕ)
    → t.sys_admin ≡ true
    → scull_dev_ioctl t dev tell_quantum arg
      ≡ (record dev { new_quantum = to_int (pos arg) }, ok (pos 0), none)
unfolding scull_dev_ioctl
tell_lem t dev arg h = ground arith

told-IsValid :
    {q s : ℕ} {dev : ScullDev} (z : ℤ)
    → IsValid q s dev
    → IsValid q s (record dev { new_quantum = z })
told-IsValid z v = record {
  quantum_is = v.quantum_is;
  qset_is = v.qset_is;
  quantum_pos = v.quantum_pos;
  qset_pos = v.qset_pos;
  item_fits = v.item_fits;
  size_fits = v.size_fits;
  nodes_fit = v.nodes_fit;
}

-- A privileged tell whose argument is zero as an int is accepted. On a valid device that is then
-- opened for writing only, every write that gets the lock divides by zero.
pub tell_zero_faults :
    (t : Task) (k k' : Kernel) (q s : ℕ) (dev : ScullDev) (arg f_flags : ℕ)
    → t.sys_admin ≡ true
    → IsValid q s dev
    → to_int (pos arg) ≡ pos 0
    → write_only f_flags ≡ true
    → k.interrupted ≡ false
    → k'.interrupted ≡ false
    → let (dev', r, _) = scull_dev_ioctl t dev tell_quantum arg in
      (r ≡ ok (pos 0))
      × (dev'' : ScullDev) × (scull_dev_open k dev' f_flags ≡ done (dev'', ok tt))
      × ((buf : List ℕ) (count : ℕ) (f_pos : ℤ)
          → scull_dev_write k' dev'' buf count f_pos ≡ fault divide_error)
tell_zero_faults t k k' q s dev arg f_flags admin v zero_arg wr had had' =
    let told : ScullDev = record dev { new_quantum = to_int (pos arg) } in
    simp (tell_lem t dev arg admin) (
      refl,
      unlock (trimmed told),
      scull_dev_open_lem k q s told f_flags (told-IsValid (to_int (pos arg)) v) ∙ simp (wr, had),
      λ buf count f_pos.
          write_zero k' (unlock (trimmed told)) buf count f_pos had'
            (itemsize_zero (unlock (trimmed told)) _ refl zero_arg),
    )
