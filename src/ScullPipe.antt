-- ===== src/ScullPipe.antt =====
-- scull_full/include/scull_pipe.h and scull_full/impl/scull_pipe.c: the pipe device. Here: its
-- state, what a call may end in, and spacefree.
pub mod Open
pub mod Read
pub mod Write
pub mod Poll
pub mod Contents
pub mod Advance
pub mod Append
pub mod ReadEffect
pub mod Waiting
pub mod TakeData
pub mod PutData
pub mod WriteEffect
pub mod Fifo
pub mod Readiness
pub mod Users
use ldd3_kernel.Prelude.{
  ℕ, ◌+◌, Bool, true, false, List, [], Option, none, some, ◌==◌, if◌then◌else◌,
}
use ldd3_kernel.Int.{ℤ, pos, ◌-ℤ◌, sub_ℕ, to_int, to_size, div_checked}
use ldd3_kernel.Kernel.{Reply, Run, done, fault, divide_error, ◌>>=◌}

-- `struct scull_pipe`. The pointers `end`, `rp` and `wp` are offsets from `buffer`; `async_queue`
-- lists the files that are to be signalled; `mutex` says whether the mutex is held.
pub record ScullPipe : Type 0 where
  pub buffer : Option (List ℕ)
  pub end : ℕ
  pub buffersize : ℕ
  pub rp : ℕ
  pub wp : ℕ
  pub nreaders : ℤ
  pub nwriters : ℤ
  pub async_queue : List ℕ
  pub mutex : Bool

-- `init_scull_pipe`
unfoldable pub init_scull_pipe : ScullPipe
init_scull_pipe = record {
  buffer = none;
  end = 0;
  buffersize = 0;
  rp = 0;
  wp = 0;
  nreaders = pos 0;
  nwriters = pos 0;
  async_queue = [];
  mutex = false;
}

abbrev pub lock : ScullPipe → ScullPipe
lock dev = record dev { mutex = true }

abbrev pub unlock : ScullPipe → ScullPipe
unlock dev = record dev { mutex = false }

-- `struct file`: FMODE_READ and FMODE_WRITE in `f_mode`, O_NONBLOCK in `f_flags`.
pub record File : Type 0 where
  pub id : ℕ
  pub reads : Bool
  pub writes : Bool
  pub nonblock : Bool

-- `wake_up_interruptible` on `inq` and on `outq`, and `kill_fasync`.
pub data Event : Type 0 where
  wake_readers wake_writers sigio : Event

-- What a sleeping call meets when it runs again: whether a signal woke it, whether one arrives
-- before it has the lock, and the device as the other processes have left it.
pub record Round : Type 0 where
  pub signal : Bool
  pub interrupted : Bool
  pub found : ScullPipe

-- A call that may sleep is still asleep when its rounds are over, or has returned.
pub data Ended {ℓ} (A : Type ℓ) : Type ℓ where
  asleep : ScullPipe → Ended A
  returned : ScullPipe → Reply A → List Event → Ended A

-- How much space is free. The difference of the pointers is a long.
unfoldable pub spacefree : ScullPipe → Run ℤ
spacefree dev =
    if dev.rp == dev.wp
    then done (to_int (pos dev.buffersize -ℤ pos 1))
    else elim (div_checked (sub_ℕ (dev.rp + dev.buffersize) dev.wp) (pos dev.buffersize)) [
      | none ↦ fault divide_error
      | some r ↦ done (to_int (r.1 -ℤ pos 1))
    ]

-- `(size_t)(a - b)` for two pointers
abbrev pub span : ℕ → ℕ → ℕ
span a b = to_size (sub_ℕ a b)
