-- ===== src/ScullMem/Read.antt =====
-- scullc_dev_read, and with it scullp_dev_read and scullv_dev_read.
use ldd3_kernel.Prelude.{ℕ, List, [], Option, none, some, leb, if◌then◌else◌}
use ldd3_kernel.Int.{ℤ, pos, negsuc, ◌+ℤ◌, to_uint, to_long, to_size}
use ldd3_kernel.Kernel.{Kernel, ok, err, erestartsys, efault, Run, done, fault, bad_access, ◌>>=◌}
use ldd3_kernel.ScullDev.{ScullDev, Quantum, lock, unlock}
use ldd3_kernel.ScullDev.Follow.{Place, follow, locate}
use ldd3_kernel.ScullDev.Read.{Reading, find_quantum, within_quantum, within_size}
use ldd3_kernel.ScullMem.{Ops}

-- `*f_pos += count; retval = count;`, or EFAULT
abbrev pub finish_read : ScullDev → ℤ → ℕ → Option (List ℕ) → Reading
finish_read dev f_pos n none = (dev, f_pos, err efault)
finish_read dev f_pos n (some bytes) = (dev, to_long (f_pos +ℤ pos n), ok (n, bytes))

abbrev pub copy_out_at : Ops → Quantum → ℤ → ℕ → Run (Option (List ℕ))
copy_out_at ops block (pos o) n = ops.copy_out block o n
copy_out_at ops block (negsuc o) n = fault bad_access

unfoldable pub copy_found : Ops → ScullDev → ℕ → ℤ → Place → Option Quantum → Run Reading
copy_found ops dev count f_pos place none = done (dev, f_pos, ok (0, []))
copy_found ops dev count f_pos place (some block) =
    let n = within_quantum dev place count in
    copy_out_at ops block place.q_pos n >>= λ r. done (finish_read dev f_pos n r)

unfoldable pub read_at : Ops → Kernel → ScullDev → ℕ → ℤ → Place → Run Reading
unfolding copy_found
read_at ops k dev count f_pos place =
    let (qsets, found, _) = follow k 0 (to_uint place.item) dev.qsets in
    let dev' = record dev { qsets = qsets } in
    if found
    then (find_quantum qsets place >>= λ quantum. copy_found ops dev' count f_pos place quantum)
    else done (dev', f_pos, ok (0, []))

unfoldable pub read_inside_lock : Ops → Kernel → ScullDev → ℕ → ℤ → Run Reading
unfolding read_at
read_inside_lock ops k dev count f_pos =
    if leb dev.size (to_size f_pos)
    then done (dev, f_pos, ok (0, []))
    else (locate dev f_pos >>= λ place. read_at ops k dev (within_size dev f_pos count) f_pos place)

unfoldable pub read_with : Ops → Kernel → ScullDev → ℕ → ℤ → Run Reading
unfolding read_inside_lock
read_with ops k dev count f_pos =
    if k.interrupted
    then done (dev, f_pos, err erestartsys)
    else (read_inside_lock ops k (lock dev) count f_pos >>= λ out.
        done (unlock out.0, out.1, out.2))
