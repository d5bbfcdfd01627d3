-- ===== src/ScullDev/Read.antt =====
-- scull_dev_read.
use ldd3_kernel.Prelude.{
  ℕ, ◌+◌, ◌-◌, ◌%◌, List, [], Option, none, some, ltb, leb, ◌==◌, if◌then◌else◌, length, take, drop,
}
use ldd3_kernel.Int.{ℤ, pos, negsuc, ◌+ℤ◌, ◌-ℤ◌, to_int, to_uint, to_long, to_size, size_mod}
use ldd3_kernel.Kernel.{
  Kernel, Reply, ok, err, erestartsys, efault, Run, done, fault, bad_access, ◌>>=◌,
}
use ldd3_kernel.ScullDev.{ScullDev, ScullQset, Quantum, lock, unlock}
use ldd3_kernel.ScullDev.Follow.{Place, follow, locate, fetch, slot_at}

-- The device, `*f_pos`, and the reply: the number of bytes and the bytes that went to the user.
abbrev pub Reading : Type 0
Reading = ScullDev × ℤ × Reply (ℕ × List ℕ)

-- `dptr->data[s_pos]`, a null pointer where `dptr->data` is one.
abbrev pub find_quantum : List ScullQset → Place → Run (Option Quantum)
find_quantum qsets place = fetch qsets (to_uint place.item) >>= λ dptr. elim dptr.quanta [
  | none ↦ done none
  | some arr ↦ slot_at arr place.s_pos
]

-- `if (count > quantum - q_pos) count = quantum - q_pos;`
abbrev pub within_quantum : ScullDev → Place → ℕ → ℕ
within_quantum dev place count =
    let left = to_size (to_int (dev.quantum -ℤ place.q_pos)) in
    if ltb left count then left else count

-- The bytes of a quantum from `q_pos` on, if it has so many.
abbrev pub bytes_at : Quantum → ℤ → ℕ → Run (List ℕ)
bytes_at block (pos i) count =
    if leb (i + count) (length block) then done (take count (drop i block)) else fault bad_access
bytes_at block (negsuc i) count = fault bad_access

unfoldable pub copy_out : Kernel → ScullDev → ℕ → ℤ → Place → Option Quantum → Run Reading
copy_out k dev count f_pos place none = done (dev, f_pos, ok (0, []))
copy_out k dev count f_pos place (some block) =
    let n = within_quantum dev place count in
    bytes_at block place.q_pos n >>= λ bytes.
    if k.copy_to_user bytes == 0
    then done (dev, to_long (f_pos +ℤ pos n), ok (n, bytes))
    else done (dev, f_pos, err efault)

unfoldable pub read_place : Kernel → ScullDev → ℕ → ℤ → Place → Run Reading
read_place k dev count f_pos place =
    let (qsets, found, _) = follow k 0 (to_uint place.item) dev.qsets in
    let dev' = record dev { qsets = qsets } in
    if found
    then (find_quantum qsets place >>= λ quantum. copy_out k dev' count f_pos place quantum)
    else done (dev', f_pos, ok (0, []))

-- `if (*f_pos + count > dev->size) count = dev->size - *f_pos;`
abbrev pub within_size : ScullDev → ℤ → ℕ → ℕ
within_size dev f_pos count =
    if ltb dev.size ((to_size f_pos + count) % size_mod)
    then (dev.size + size_mod - to_size f_pos) % size_mod
    else count

unfoldable pub read_locked : Kernel → ScullDev → ℕ → ℤ → Run Reading
read_locked k dev count f_pos =
    if leb dev.size (to_size f_pos)
    then done (dev, f_pos, ok (0, []))
    else (locate dev f_pos >>= λ place. read_place k dev (within_size dev f_pos count) f_pos place)

unfoldable pub scull_dev_read : Kernel → ScullDev → ℕ → ℤ → Run Reading
unfolding copy_out read_place read_locked
scull_dev_read k dev count f_pos =
    if k.interrupted
    then done (dev, f_pos, err erestartsys)
    else (read_locked k (lock dev) count f_pos >>= λ out. done (unlock out.0, out.1, out.2))
