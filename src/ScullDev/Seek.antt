-- ===== src/ScullDev/Seek.antt =====
-- scull_dev_llseek.
use ldd3_kernel.Prelude.{ℕ, ◌==◌, if◌then◌else◌, Option, none, some}
use ldd3_kernel.Int.{ℤ, pos, ◌+ℤ◌, is_neg, to_long}
use ldd3_kernel.Kernel.{Reply, ok, err, einval}
use ldd3_kernel.ScullDev.{ScullDev}

-- The position that `whence` asks for, before its sign is tested.
unfoldable pub seek_target : ScullDev → ℤ → ℤ → ℕ → Option ℤ
seek_target dev f_pos off whence =
    if whence == 0
    then some off
    else if whence == 1
    then some (to_long (f_pos +ℤ off))
    else if whence == 2
    then some (to_long (pos dev.size +ℤ off))
    else none

-- The new `filp->f_pos` and the reply, for a target.
abbrev pub seek_to : ℤ → Option ℤ → ℤ × Reply ℤ
seek_to f_pos none = (f_pos, err einval)
seek_to f_pos (some newpos) = if is_neg newpos then (f_pos, err einval) else (newpos, ok newpos)

unfoldable pub scull_dev_llseek : ScullDev → ℤ → ℤ → ℕ → ℤ × Reply ℤ
scull_dev_llseek dev f_pos off whence = seek_to f_pos (seek_target dev f_pos off whence)
