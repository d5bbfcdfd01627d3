-- ===== src/ScullDev/Write.antt =====
-- scull_dev_write.
use ldd3_kernel.Prelude.{
  ℕ, ◌+◌, ◌*◌, ◌/◌, ◌%◌, List, Option, none, some, ltb, leb, ◌==◌, if◌then◌else◌, length, set,
  replicate, overwrite,
}
use ldd3_kernel.Int.{ℤ, pos, negsuc, ◌+ℤ◌, to_uint, to_long, to_size, size_mod}
use ldd3_kernel.Kernel.{
  Kernel, Reply, ok, err, erestartsys, efault, enomem, Run, done, fault, bad_access, ◌>>=◌,
}
use ldd3_kernel.ScullDev.{ScullDev, Quantum, lock, unlock}
use ldd3_kernel.ScullDev.Follow.{Place, follow, locate, fetch, pointer_bytes}
use ldd3_kernel.ScullDev.Read.{within_quantum}

-- The device, `*f_pos`, and the reply: the number of bytes taken.
abbrev pub Writing : Type 0
Writing = ScullDev × ℤ × Reply ℕ

-- `dptr->data`, allocated and zeroed if it is null, and the number of the next request.
unfoldable pub array_or_new :
    Kernel → ℕ → ℤ → Option (List (Option Quantum)) → Option (List (Option Quantum)) × ℕ
array_or_new k c qset (some arr) = (some arr, c)
array_or_new k c qset none = elim (k.kmalloc c (to_size qset * pointer_bytes % size_mod)) [
  | none ↦ (none, c + 1)
  | some mem ↦ (some (replicate (length mem / pointer_bytes) none), c + 1)
]

-- `dptr->data[s_pos]`, allocated if it is null; the memory keeps the bytes that it came with.
unfoldable pub quantum_or_new : Kernel → ℕ → ℤ → Option Quantum → Option Quantum
quantum_or_new k c quantum (some block) = some block
quantum_or_new k c quantum none = k.kmalloc c (to_size quantum)

abbrev pub put_array : ScullDev → ℕ → List (Option Quantum) → ScullDev
put_array dev i arr = record dev { qsets = set dev.qsets i (record { quanta = some arr }) }

abbrev pub put_quantum : ScullDev → ℕ → List (Option Quantum) → ℕ → Quantum → ScullDev
put_quantum dev i arr j block = put_array dev i (set arr j (some block))

-- `if (dev->size < *f_pos) dev->size = *f_pos;`
abbrev pub grow : ScullDev → ℤ → ScullDev
grow dev f_pos = if ltb dev.size (to_size f_pos) then record dev { size = to_size f_pos } else dev

-- The quantum is in the array, at `j`, before its bytes are copied from `buf`.
unfoldable pub copy_in :
    Kernel → ScullDev → ℕ → List (Option Quantum) → ℕ → Quantum → List ℕ → ℕ → ℤ → ℕ → Run Writing
copy_in k dev i arr j block buf n f_pos q =
    if leb (q + n) (length block)
    then (let (bytes, left) = k.copy_from_user buf n in
        let dev' = put_quantum dev i arr j (overwrite block q bytes) in
        let next = to_long (f_pos +ℤ pos n) in
        if left == 0 then done (grow dev' next, next, ok n) else done (dev', f_pos, err efault))
    else fault bad_access

-- `dptr->data[s_pos]` as the array holds it or as it was allocated.
unfoldable pub write_quantum :
    Kernel
    → ScullDev
    → ℕ
    → List (Option Quantum)
    → ℕ
    → List ℕ
    → ℕ
    → ℤ
    → ℕ
    → Option Quantum
    → Run Writing
write_quantum k dev i arr j buf n f_pos q none = done (dev, f_pos, err enomem)
write_quantum k dev i arr j buf n f_pos q (some block) = copy_in k dev i arr j block buf n f_pos q

unfoldable pub write_slot :
    Kernel → ℕ → ScullDev → ℕ → List (Option Quantum) → List ℕ → ℤ → ℤ → ℤ → ℕ → Run Writing
write_slot k c dev i arr buf f_pos (pos j) (pos q) n = fetch arr j >>= λ slot.
    write_quantum k dev i arr j buf n f_pos q (quantum_or_new k c dev.quantum slot)
write_slot k c dev i arr buf f_pos (pos j) (negsuc q) n = fault bad_access
write_slot k c dev i arr buf f_pos (negsuc j) q n = fault bad_access

-- `dptr->data` as the node holds it or as it was allocated, with the number of the next request.
unfoldable pub write_array :
    Kernel
    → ScullDev
    → ℕ
    → List ℕ
    → ℕ
    → ℤ
    → Place
    → Option (List (Option Quantum))
    → ℕ
    → Run Writing
write_array k dev i buf count f_pos place none c = done (dev, f_pos, err enomem)
write_array k dev i buf count f_pos place (some arr) c =
    write_slot k c (put_array dev i arr) i arr buf f_pos place.s_pos place.q_pos
      (within_quantum dev place count)

unfoldable pub write_place : Kernel → ScullDev → List ℕ → ℕ → ℤ → Place → Run Writing
write_place k dev buf count f_pos place =
    let i = to_uint place.item in
    let (qsets, found, c) = follow k 0 i dev.qsets in
    let dev' = record dev { qsets = qsets } in
    if found
    then (fetch qsets i >>= λ dptr.
        let (array, c') = array_or_new k c dev.qset dptr.quanta in
        write_array k dev' i buf count f_pos place array c')
    else done (dev', f_pos, err enomem)

unfoldable pub scull_dev_write : Kernel → ScullDev → List ℕ → ℕ → ℤ → Run Writing
unfolding array_or_new quantum_or_new copy_in write_quantum write_slot write_array write_place
scull_dev_write k dev buf count f_pos =
    if k.interrupted
    then done (dev, f_pos, err erestartsys)
    else (locate (lock dev) f_pos >>= λ place.
        write_place k (lock dev) buf count f_pos place >>= λ out. done (unlock out.0, out.1, out.2))
