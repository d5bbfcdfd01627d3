-- ===== src/ScullPipe/Readiness.antt =====
-- What scull_pipe_poll tells of the next read and write.
use ldd3_kernel.Prelude.{ℕ, ◌+◌, ◌-◌, ◌==◌, if◌then◌else◌}
use ldd3_kernel.Int.{pos, is_zero}
use ldd3_kernel.Kernel.{Kernel}
use ldd3_kernel.ScullPipe.{ScullPipe}
use ldd3_kernel.ScullPipe.Poll.{readable_mask, writable_mask}
use ldd3_kernel.ScullPipe.Contents.{queued}

abbrev pub mask : ℕ → ScullPipe → ℕ
mask n dev =
    (if dev.rp == dev.wp then 0 else readable_mask)
    + (if is_zero (pos (n - 1 - queued n dev.rp dev.wp)) then 0 else writable_mask)
