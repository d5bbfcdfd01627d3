-- ===== src/ScullMem/Write.antt =====
-- scullc_dev_write, and with it scullp_dev_write and scullv_dev_write.
use ldd3_kernel.Prelude.{ℕ, Bool, true, false, List, Option, none, some, if◌then◌else◌}
use ldd3_kernel.Int.{ℤ, pos, negsuc, ◌+ℤ◌, to_uint, to_long}
use ldd3_kernel.Kernel.{
  Kernel, ok, err, erestartsys, efault, enomem, Run, done, fault, bad_access, ◌>>=◌,
}
use ldd3_kernel.ScullDev.{ScullDev, Quantum, lock, unlock}
use ldd3_kernel.ScullDev.Follow.{Place, follow, locate, fetch}
use ldd3_kernel.ScullDev.Read.{within_quantum}
use ldd3_kernel.ScullDev.Write.{Writing, array_or_new, put_array, put_quantum, grow}
use ldd3_kernel.ScullMem.{Ops}

-- The position and the size after the copy, or EFAULT
abbrev pub finish_write : ScullDev → ℤ → ℕ → Bool → Writing
finish_write dev f_pos n true = (dev, f_pos, err efault)
finish_write dev f_pos n false = let next = to_long (f_pos +ℤ pos n) in (grow dev next, next, ok n)

-- The copy into the quantum, which is in the array at `j`
unfoldable pub copy_to_block :
    Ops
    → ScullDev
    → ℕ
    → List (Option Quantum)
    → ℕ
    → List ℕ
    → ℕ
    → ℤ
    → ℕ
    → Option Quantum
    → Run Writing
copy_to_block ops dev i arr j buf n f_pos o none = done (dev, f_pos, err enomem)
copy_to_block ops dev i arr j buf n f_pos o (some block) = ops.copy_in block o buf n >>= λ out.
    done (finish_write (put_quantum dev i arr j out.0) f_pos n out.1)

-- `dptr->data[s_pos]`, allocated if it is null
unfoldable pub block_or_alloc : Ops → ℕ → Option Quantum → Run (Option Quantum)
block_or_alloc ops c (some block) = done (some block)
block_or_alloc ops c none = ops.alloc c

unfoldable pub write_slot_at :
    Ops → ℕ → ScullDev → ℕ → List (Option Quantum) → List ℕ → ℤ → ℤ → ℤ → ℕ → Run Writing
unfolding copy_to_block block_or_alloc
write_slot_at ops c dev i arr buf f_pos (pos j) (pos o) n = fetch arr j >>= λ slot.
    block_or_alloc ops c slot >>= λ block. copy_to_block ops dev i arr j buf n f_pos o block
write_slot_at ops c dev i arr buf f_pos (pos j) (negsuc o) n = fault bad_access
write_slot_at ops c dev i arr buf f_pos (negsuc j) o n = fault bad_access

unfoldable pub write_array_at :
    Ops → ScullDev → ℕ → List ℕ → ℕ → ℤ → Place → Option (List (Option Quantum)) → ℕ → Run Writing
unfolding write_slot_at
write_array_at ops dev i buf count f_pos place none c = done (dev, f_pos, err enomem)
write_array_at ops dev i buf count f_pos place (some arr) c =
    write_slot_at ops c (put_array dev i arr) i arr buf f_pos place.s_pos place.q_pos
      (within_quantum dev place count)

unfoldable pub write_at : Ops → Kernel → ScullDev → List ℕ → ℕ → ℤ → Place → Run Writing
unfolding write_array_at
write_at ops k dev buf count f_pos place =
    let i = to_uint place.item in
    let (qsets, found, c) = follow k 0 i dev.qsets in
    let dev' = record dev { qsets = qsets } in
    if found
    then (fetch qsets i >>= λ dptr.
        let (array, c') = array_or_new k c dev.qset dptr.quanta in
        write_array_at ops dev' i buf count f_pos place array c')
    else done (dev', f_pos, err enomem)

unfoldable pub write_with : Ops → Kernel → ScullDev → List ℕ → ℕ → ℤ → Run Writing
unfolding write_at
write_with ops k dev buf count f_pos =
    if k.interrupted
    then done (dev, f_pos, err erestartsys)
    else (locate (lock dev) f_pos >>= λ place.
        write_at ops k (lock dev) buf count f_pos place >>= λ out.
        done (unlock out.0, out.1, out.2))
