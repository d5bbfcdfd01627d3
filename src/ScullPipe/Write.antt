-- ===== src/ScullPipe/Write.antt =====
-- scull_getwritespace and scull_pipe_write.
use ldd3_kernel.Prelude.{
  ℕ, ◌+◌, ◌-◌, ◌%◌, List, [], ◌∷◌, Option, none, some, min, leb, ◌==◌, if◌then◌else◌, length,
  overwrite,
}
use ldd3_kernel.Int.{ℤ, is_zero, to_size, size_mod}
use ldd3_kernel.Kernel.{
  Kernel, Reply, ok, err, eagain, efault, erestartsys, Run, done, fault, bad_access, ◌>>=◌,
}
use ldd3_kernel.ScullPipe.{
  ScullPipe, File, Round, Ended, asleep, returned, Event, wake_readers, sigio, lock, unlock, span,
  spacefree,
}
use ldd3_kernel.ScullPipe.Read.{advance}

-- How scull_getwritespace ends: with the lock held and space there, or with the lock given back.
pub data Space : Type 0 where
  has_space : ScullPipe → Space
  waits : ScullPipe → Space
  fails : ScullPipe → Reply ℕ → Space

unfoldable pub scull_getwritespace : List Round → ScullPipe → File → Run Space
scull_getwritespace [] dev filp = spacefree dev >>= λ free.
    if is_zero free
    then if filp.nonblock then done (fails (unlock dev) (err eagain)) else done (waits (unlock dev))
    else done (has_space dev)
scull_getwritespace (r ∷ rs) dev filp = spacefree dev >>= λ free.
    if is_zero free
    then if filp.nonblock
      then done (fails (unlock dev) (err eagain))
      else if r.signal
      then done (fails r.found (err erestartsys))
      else if r.interrupted
      then done (fails r.found (err erestartsys))
      else scull_getwritespace rs (lock r.found) filp
    else done (has_space dev)

-- How many bytes of `count` fit in without a break, where `free` is the space
abbrev pub fitting : ScullPipe → ℤ → ℕ → ℕ
fitting dev free count =
    let n = min count (to_size free) in
    if leb dev.rp dev.wp
    then min n (span dev.end dev.wp)
    else min n ((span dev.rp dev.wp + size_mod - 1) % size_mod)

abbrev pub notices : List ℕ → List Event
notices [] = wake_readers ∷ []
notices (f ∷ fs) = wake_readers ∷ sigio ∷ []

-- `n` bytes to the buffer at `wp`
unfoldable pub put_data : Kernel → ScullPipe → List ℕ → ℕ → Option (List ℕ) → Run (Ended ℕ)
put_data k dev buf n none = fault bad_access
put_data k dev buf n (some bytes) =
    if leb (dev.wp + n) (length bytes)
    then (let (src, left) = k.copy_from_user buf n in
        let dev' = record dev { buffer = some (overwrite bytes dev.wp src) } in
        if left == 0
        then done (
            returned (unlock (record dev' { wp = advance dev dev.wp n })) (ok n)
              (notices dev.async_queue))
        else done (returned (unlock dev') (err efault) []))
    else fault bad_access

unfoldable pub write_space : Kernel → List ℕ → ℕ → Space → Run (Ended ℕ)
unfolding put_data
write_space k buf count (waits dev) = done (asleep dev)
write_space k buf count (fails dev r) = done (returned dev r [])
write_space k buf count (has_space dev) =
    spacefree dev >>= λ free. put_data k dev buf (fitting dev free count) dev.buffer

unfoldable pub scull_pipe_write :
    Kernel → List Round → ScullPipe → File → List ℕ → ℕ → Run (Ended ℕ)
unfolding write_space
scull_pipe_write k rounds dev filp buf count =
    if k.interrupted
    then done (returned dev (err erestartsys) [])
    else (scull_getwritespace rounds (lock dev) filp >>= λ s. write_space k buf count s)
