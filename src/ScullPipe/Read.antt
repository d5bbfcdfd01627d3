-- ===== src/ScullPipe/Read.antt =====
-- scull_pipe_read.
use ldd3_kernel.Prelude.{
  ℕ, ◌+◌, List, [], ◌∷◌, Option, none, some, min, ltb, leb, ◌==◌, if◌then◌else◌, length, take, drop,
}
use ldd3_kernel.Kernel.{
  Kernel, ok, err, eagain, efault, erestartsys, Run, done, fault, bad_access, ◌>>=◌,
}
use ldd3_kernel.ScullPipe.{
  ScullPipe, File, Round, Ended, asleep, returned, wake_writers, lock, unlock, span,
}

-- How many bytes of `count` are there without a break
abbrev pub readable : ScullPipe → ℕ → ℕ
readable dev count =
    if ltb dev.rp dev.wp then min count (span dev.wp dev.rp) else min count (span dev.end dev.rp)

-- The bytes of the buffer from offset `i` on, if it has so many
unfoldable pub bytes_from : Option (List ℕ) → ℕ → ℕ → Run (List ℕ)
bytes_from none i count = fault bad_access
bytes_from (some bytes) i count =
    if leb (i + count) (length bytes) then done (take count (drop i bytes)) else fault bad_access

-- `p += count; if (p == dev->end) p = dev->buffer;`
abbrev pub advance : ScullPipe → ℕ → ℕ → ℕ
advance dev p count = if p + count == dev.end then 0 else p + count

-- Data is there; the lock is held.
unfoldable pub take_data : Kernel → ScullPipe → ℕ → Run (Ended (ℕ × List ℕ))
unfolding bytes_from
take_data k dev count =
    let n = readable dev count in
    bytes_from dev.buffer dev.rp n >>= λ bytes.
    if k.copy_to_user bytes == 0
    then done (
        returned (unlock (record dev { rp = advance dev dev.rp n })) (ok (n, bytes))
          (wake_writers ∷ []))
    else done (returned (unlock dev) (err efault) [])

-- From the loop on, with the lock held.
unfoldable pub read_locked : Kernel → List Round → ScullPipe → File → ℕ → Run (Ended (ℕ × List ℕ))
read_locked k [] dev filp count =
    if dev.rp == dev.wp
    then if filp.nonblock
      then done (returned (unlock dev) (err eagain) [])
      else done (asleep (unlock dev))
    else take_data k dev count
read_locked k (r ∷ rs) dev filp count =
    if dev.rp == dev.wp
    then if filp.nonblock
      then done (returned (unlock dev) (err eagain) [])
      else if r.signal
      then done (returned r.found (err erestartsys) [])
      else if r.interrupted
      then done (returned r.found (err erestartsys) [])
      else read_locked k rs (lock r.found) filp count
    else take_data k dev count

unfoldable pub scull_pipe_read :
    Kernel → List Round → ScullPipe → File → ℕ → Run (Ended (ℕ × List ℕ))
scull_pipe_read k rounds dev filp count =
    if k.interrupted
    then done (returned dev (err erestartsys) [])
    else read_locked k rounds (lock dev) filp count
