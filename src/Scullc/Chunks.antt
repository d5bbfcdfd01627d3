-- ===== src/Scullc/Chunks.antt =====
-- The loops of scullc_dev_read and scullc_dev_write that pass a quantum's bytes through `tmpBuf`,
-- 128 bytes at a time. `chunks` gives the kernel as the copy at an offset of the user's buffer meets
-- it. The loops run on fuel.
use ldd3_kernel.Prelude.{
  ℕ, zero, suc, ◌+◌, ◌-◌, Bool, true, false, List, [], ◌++◌, Option, none, some, ltb, leb, ◌==◌,
  if◌then◌else◌, length, take, drop, overwrite,
}
use ldd3_kernel.Kernel.{Kernel, Run, done, fault, bad_access, endless, ◌>>=◌}
use ldd3_kernel.ScullDev.{Quantum}

-- `count - readBytes > 128 ? 128 : count - readBytes`
abbrev pub chunk : ℕ → ℕ
chunk left = if ltb 128 left then 128 else left

abbrev pub after_chunk : List ℕ → Option (List ℕ) → Option (List ℕ)
after_chunk bytes none = none
after_chunk bytes (some rest) = some (bytes ++ rest)

-- From `read_bytes` on: the bytes that go to the user, or `none` for EFAULT.
unfoldable pub send_chunks : ℕ → (ℕ → Kernel) → Quantum → ℕ → ℕ → ℕ → Run (Option (List ℕ))
send_chunks zero chunks block q_pos count read_bytes = fault endless
send_chunks (suc fuel) chunks block q_pos count read_bytes =
    let n = chunk (count - read_bytes) in
    let bytes = take n (drop (q_pos + read_bytes) block) in
    let later = send_chunks fuel chunks block q_pos count (read_bytes + n) in
    if read_bytes == count
    then done (some [])
    else if leb (q_pos + read_bytes + n) (length block)
    then if (chunks read_bytes).copy_to_user bytes == 0
      then (later >>= λ rest. done (after_chunk bytes rest))
      else done none
    else fault bad_access

-- From `written` on: the quantum, and whether a copy failed.
unfoldable pub receive_chunks :
    ℕ → (ℕ → Kernel) → Quantum → ℕ → List ℕ → ℕ → ℕ → Run (Quantum × Bool)
receive_chunks zero chunks block q_pos buf count written = fault endless
receive_chunks (suc fuel) chunks block q_pos buf count written =
    let n = chunk (count - written) in
    let tmp = (chunks written).copy_from_user (drop written buf) n in
    let later =
      receive_chunks fuel chunks (overwrite block (q_pos + written) tmp.0) q_pos buf count
        (written + n) in
    if written == count
    then done (block, false)
    else if tmp.1 == 0
    then if leb (q_pos + written + n) (length block) then later else fault bad_access
    else done (block, true)
