-- ===== src/Tests/ScullDev.antt =====
-- The memory device with quanta of 4 bytes in arrays of 2.
use ldd3_kernel.Prelude.{ℕ, ◌<◌, ◌≡◌, refl, false, List, [], ◌∷◌, none, some, arith}
use ldd3_kernel.Int.{pos, negsuc, to_int, to_uint, to_long, to_size, div_checked, is_neg}
use ldd3_kernel.Kernel.{ok, err, enotty, eperm, done, fault, divide_error}
use ldd3_kernel.ScullDev.{ScullDev}
use ldd3_kernel.ScullDev.Follow.{follow, locate}
use ldd3_kernel.ScullDev.Trim.{scull_trim, free_qsets, free_quanta, scull_dev_open}
use ldd3_kernel.ScullDev.Read.{scull_dev_read, Reading}
use ldd3_kernel.ScullDev.Write.{scull_dev_write, Writing}
use ldd3_kernel.ScullDev.Seek.{scull_dev_llseek, seek_target}
use ldd3_kernel.ScullDev.Ioctl.{scull_dev_ioctl, shift_quantum, tell_quantum, ioc}
use ldd3_kernel.ScullDev.Valid.{IsValid}
use ldd3_kernel.ScullDev.Places.{byte_at}
use ldd3_kernel.ScullDev.Lookup.{Fits}
use ldd3_kernel.ScullDev.WriteEffect.{CanWrite, WriteResult, write_lem}
use ldd3_kernel.ScullDev.ReadEffect.{SameFile, AreStored, ReadResult, read_lem, read_answers}
use ldd3_kernel.ScullDev.RoundTrip.{write_read}
use ldd3_kernel.ScullDev.TrimFrees.{NextGeometry, scull_trim_lem, open_truncates}
use ldd3_kernel.ScullDev.IoctlEffect.{
  ioctl_keeps_file, ioctl_unprivileged, qset_commands_missing, shift_restores, tell_zero_faults,
}
use ldd3_kernel.ScullDev.SeekBounds.{Sought, llseek_bounds}
use ldd3_kernel.Tests.Kernels.{kernel, kernel-IsLawful, kernel-IsGenerous, root, user}

abbrev small : ScullDev
small = record {
  qsets = [];
  quantum = pos 4;
  qset = pos 2;
  new_quantum = pos 4;
  new_qset = pos 2;
  size = 0;
  mutex = false;
}

-- After the first three bytes of 7, 8, 9 have been written at position 5.
abbrev filled : ScullDev
filled = record small {
  qsets = record { quanta = some (none ∷ some (170 ∷ 7 ∷ 8 ∷ 9 ∷ []) ∷ []) } ∷ [];
  size = 8;
}

abbrev input : List ℕ
input = 7 ∷ 8 ∷ 9 ∷ 10 ∷ []

small-IsValid : IsValid 4 2 small
small-IsValid = record {
  quantum_is = refl;
  qset_is = refl;
  quantum_pos = omega arith;
  qset_pos = omega arith;
  item_fits = omega arith;
  size_fits = omega arith;
  nodes_fit = tt;
}

filled-IsValid : IsValid 4 2 filled
filled-IsValid = record {
  quantum_is = refl;
  qset_is = refl;
  quantum_pos = omega arith;
  qset_pos = omega arith;
  item_fits = omega arith;
  size_fits = omega arith;
  nodes_fit = omega arith;
}

can_write : CanWrite 4 2 small input 4 5
can_write = record {
  valid = small-IsValid;
  buf_fits = omega arith;
  reachable = omega arith;
  in_range = omega arith;
}

can_read : Fits 4 2 filled 2 6
can_read = record {
  valid = filled-IsValid;
  reachable = omega arith;
  position_fits = omega arith;
  count_fits = omega arith;
}

write_runs : scull_dev_write kernel small input 4 (pos 5) ≡ done (filled, pos 8, ok 3)
unfolding scull_dev_write locate follow to_int to_uint to_long to_size div_checked
write_runs = refl

read_runs : scull_dev_read kernel filled 2 (pos 6) ≡ done (filled, pos 8, ok (2, 8 ∷ 9 ∷ []))
unfolding scull_dev_read locate follow to_int to_uint to_long to_size div_checked
read_runs = refl

trim_runs : scull_trim filled ≡ done (small, 3)
unfolding scull_trim free_qsets free_quanta
trim_runs = refl

-- A byte that was never written but lies in a quantum that was allocated is read as the memory
-- came, here 170.
stale_byte_runs :
    scull_dev_read kernel filled 2 (pos 4) ≡ done (filled, pos 6, ok (2, 170 ∷ 7 ∷ []))
unfolding scull_dev_read locate follow to_int to_uint to_long to_size div_checked
stale_byte_runs = refl

write_lem_example :
    (out : Writing) × (scull_dev_write kernel small input 4 (pos 5) ≡ done out)
    × IsValid 4 2 out.0
    × (out.0.mutex ≡ false)
    × WriteResult 4 2 small input 4 5 out
write_lem_example = write_lem kernel 4 2 small input 4 5 kernel-IsLawful can_write refl

read_lem_example :
    (out : Reading) × (scull_dev_read kernel filled 2 (pos 6) ≡ done out)
    × SameFile 4 2 filled out.0
    × (out.0.mutex ≡ false)
    × ReadResult 4 2 filled 2 6 out
read_lem_example = read_lem kernel 4 2 filled 2 6 can_read refl

read_answers_example :
    (last : ScullDev) × (bytes : List ℕ) × (scull_dev_read kernel filled 2 (pos 6)
      ≡ done (last, pos 8, ok (2, bytes)))
    × AreStored 4 2 filled 6 2 bytes
read_answers_example = read_answers kernel 4 2 filled 2 6 can_read refl kernel-IsGenerous

write_read_example :
    (0 < 3)
    × (mid : ScullDev) × (last : ScullDev) × (scull_dev_write kernel small input 4 (pos 5)
        ≡ done (mid, pos 8, ok 3))
    × (scull_dev_read kernel mid 3 (pos 5) ≡ done (last, pos 8, ok (3, 7 ∷ 8 ∷ 9 ∷ [])))
write_read_example =
    write_read kernel kernel 4 2 small input 4 5 kernel-IsLawful kernel-IsGenerous kernel-IsGenerous
      can_write refl (omega arith)

scull_trim_lem_example : scull_trim filled ≡ done (small, 3)
scull_trim_lem_example = scull_trim_lem 4 2 filled filled-IsValid

filled-NextGeometry : NextGeometry 4 2 filled
filled-NextGeometry = record {
  quantum_is = refl;
  qset_is = refl;
  quantum_pos = omega arith;
  qset_pos = omega arith;
  item_fits = omega arith;
}

open_truncates_example :
    (dev' : ScullDev) × (scull_dev_open kernel filled 1 ≡ done (dev', ok tt))
    × IsValid 4 2 dev'
    × (dev'.size ≡ 0)
    × (dev'.mutex ≡ false)
    × ((i : ℕ) → byte_at 4 2 dev' i ≡ none)
open_truncates_example =
    open_truncates kernel 4 2 4 2 filled 1 filled-IsValid filled-NextGeometry refl refl

ioctl_keeps_file_example :
    let dev' = (scull_dev_ioctl root filled tell_quantum 8).0 in
    dev' ≡ record filled { new_quantum = dev'.new_quantum; new_qset = dev'.new_qset }
ioctl_keeps_file_example = ioctl_keeps_file root filled tell_quantum 8

ioctl_unprivileged_example : scull_dev_ioctl user filled tell_quantum 8 ≡ (filled, err eperm, none)
ioctl_unprivileged_example = ioctl_unprivileged user filled tell_quantum 8 refl

qset_commands_missing_example :
    scull_dev_ioctl root filled (ioc 0 4 0) 8 ≡ (filled, err enotty, none)
qset_commands_missing_example =
    qset_commands_missing root filled (ioc 0 4 0) 8 refl refl refl (omega arith)

shift_restores_example :
    let (dev', r, _) = scull_dev_ioctl root filled shift_quantum 8 in
    (r ≡ ok (pos 4))
    × (scull_dev_ioctl root dev' shift_quantum 4 ≡ (filled, ok (to_int (pos 8)), none))
shift_restores_example = shift_restores root filled 4 8 refl refl (omega arith)

tell_zero_faults_example :
    let (dev', r, _) = scull_dev_ioctl root filled tell_quantum 0 in
    (r ≡ ok (pos 0))
    × (dev'' : ScullDev) × (scull_dev_open kernel dev' 1 ≡ done (dev'', ok tt))
    × ((buf : List ℕ) (count : ℕ) (f_pos : _)
        → scull_dev_write kernel dev'' buf count f_pos ≡ fault divide_error)
unfolding to_int
tell_zero_faults_example =
    tell_zero_faults root kernel kernel 4 2 filled 0 1 refl filled-IsValid refl refl refl refl

llseek_bounds_example :
    (is_neg (scull_dev_llseek filled (pos 3) (negsuc 1) 2).0 ≡ false)
    × Sought
        (pos 3)
        (seek_target filled (pos 3) (negsuc 1) 2)
        (scull_dev_llseek filled (pos 3) (negsuc 1) 2)
llseek_bounds_example = llseek_bounds filled (pos 3) (negsuc 1) 2 refl
