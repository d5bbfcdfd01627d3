-- ===== src/ScullPipe/Open.antt =====
-- scull_pipe_open, scull_pipe_release and scull_pipe_fasync.
use ldd3_kernel.Prelude.{ℕ, Bool, false, List, Option, none, some, ◌&&◌, if◌then◌else◌}
use ldd3_kernel.Int.{pos, ◌+ℤ◌, ◌-ℤ◌, is_zero, to_int}
use ldd3_kernel.Kernel.{Kernel, Reply, ok, err, erestartsys, enomem}
use ldd3_kernel.ScullPipe.{ScullPipe, File, lock, unlock}

abbrev pub scull_p_buffer : ℕ
scull_p_buffer = 4000

-- `++dev->nreaders`, `++dev->nwriters` by the mode of the file
abbrev pub count_open : ScullPipe → File → ScullPipe
count_open dev filp = record dev {
  nreaders = if filp.reads then to_int (dev.nreaders +ℤ pos 1) else dev.nreaders;
  nwriters = if filp.writes then to_int (dev.nwriters +ℤ pos 1) else dev.nwriters;
}

abbrev pub count_release : ScullPipe → File → ScullPipe
count_release dev filp = record dev {
  nreaders = if filp.reads then to_int (dev.nreaders -ℤ pos 1) else dev.nreaders;
  nwriters = if filp.writes then to_int (dev.nwriters -ℤ pos 1) else dev.nwriters;
}

-- The pointers start from the beginning, at every open.
abbrev pub start : ScullPipe → ScullPipe
start dev = record dev { buffersize = scull_p_buffer; end = scull_p_buffer; rp = 0; wp = 0 }

-- `dev->buffer`, allocated if it is null
unfoldable pub buffer_or_new : Kernel → Option (List ℕ) → Option (List ℕ)
buffer_or_new k (some bytes) = some bytes
buffer_or_new k none = k.kmalloc 0 scull_p_buffer

unfoldable pub open_with : ScullPipe → File → Option (List ℕ) → ScullPipe × Reply (Unit {0})
open_with dev filp none = (unlock dev, err enomem)
open_with dev filp (some bytes) =
    (unlock (count_open (start (record dev { buffer = some bytes })) filp), ok tt)

unfoldable pub scull_pipe_open : Kernel → ScullPipe → File → ScullPipe × Reply (Unit {0})
unfolding buffer_or_new open_with
scull_pipe_open k dev filp =
    if k.interrupted
    then (dev, err erestartsys)
    else open_with (lock dev) filp (buffer_or_new k dev.buffer)

-- `fasync_helper` of the kernel: the file, whether it is added, and the queue before.
abbrev pub FasyncHelper : Type 0
FasyncHelper = ℕ → Bool → List ℕ → List ℕ

abbrev pub scull_pipe_fasync : FasyncHelper → ScullPipe → File → Bool → ScullPipe
scull_pipe_fasync helper dev filp mode = record dev {
  async_queue = helper filp.id mode dev.async_queue;
}

-- The buffer goes with the last reader and writer.
abbrev pub free_unused : ScullPipe → ScullPipe
free_unused dev =
    if is_zero dev.nreaders && is_zero dev.nwriters then record dev { buffer = none } else dev

unfoldable pub scull_pipe_release : FasyncHelper → ScullPipe → File → ScullPipe × Reply (Unit {0})
scull_pipe_release helper dev filp = (
  unlock (free_unused (count_release (lock (scull_pipe_fasync helper dev filp false)) filp)),
  ok tt,
)
