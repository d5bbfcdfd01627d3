-- ===== src/ScullPipe/Poll.antt =====
-- scull_pipe_poll.
use ldd3_kernel.Prelude.{ℕ, ◌+◌, ◌==◌, if◌then◌else◌}
use ldd3_kernel.Int.{is_zero}
use ldd3_kernel.Kernel.{Run, ◌>>=◌, done}
use ldd3_kernel.ScullPipe.{ScullPipe, lock, unlock, spacefree}

-- POLLIN | POLLRDNORM, POLLOUT | POLLWRNORM
abbrev pub readable_mask : ℕ
readable_mask = 1 + 64

abbrev pub writable_mask : ℕ
writable_mask = 4 + 256

-- The device afterwards, and the mask.
unfoldable pub scull_pipe_poll : ScullPipe → Run (ScullPipe × ℕ)
scull_pipe_poll dev = spacefree (lock dev) >>= λ free. done (
  unlock dev,
  (if dev.rp == dev.wp then 0 else readable_mask) + (if is_zero free then 0 else writable_mask),
)
