-- ===== src/ScullDev.antt =====
-- scull_full/include/scull_dev.h and scull_full/impl/scull_dev_common.c: the memory device that
-- every scull driver of scull_full shares. Here: its state and the constructor.
pub mod Follow
pub mod Trim
pub mod Read
pub mod Write
pub mod Ioctl
pub mod Seek
pub mod Valid
pub mod Places
pub mod Lookup
pub mod Reading
pub mod Storage
pub mod Writing
pub mod WriteContent
pub mod WriteEffect
pub mod ReadEffect
pub mod RoundTrip
pub mod TrimFrees
pub mod IoctlEffect
pub mod SeekBounds
use ldd3_kernel.Prelude.{ℕ, Bool, false, List, [], Option, none}
use ldd3_kernel.Int.{ℤ, pos}

abbrev pub Quantum : Type 0
Quantum = List ℕ

-- `struct scull_qset`: the array of quanta, where the pointer `next` is the tail of the list that
-- holds it.
pub record ScullQset : Type 0 where
  pub quanta : Option (List (Option Quantum))

-- `struct scull_dev`; `mutex` says whether the mutex is held.
pub record ScullDev : Type 0 where
  pub qsets : List ScullQset
  pub quantum : ℤ
  pub qset : ℤ
  pub new_quantum : ℤ
  pub new_qset : ℤ
  pub size : ℕ
  pub mutex : Bool

-- A node after its memset.
abbrev pub zeroed_qset : ScullQset
zeroed_qset = record { quanta = none }

abbrev pub default_quantum : ℤ
default_quantum = pos 4000

abbrev pub default_qset : ℤ
default_qset = pos 1000

unfoldable pub construct_scull_dev : ScullDev
construct_scull_dev = record {
  qsets = [];
  quantum = default_quantum;
  qset = default_qset;
  new_quantum = default_quantum;
  new_qset = default_qset;
  size = 0;
  mutex = false;
}

-- `mutex_lock` and `mutex_unlock`, once the lock is had.
abbrev pub lock : ScullDev → ScullDev
lock dev = record dev { mutex = Bool.true }

abbrev pub unlock : ScullDev → ScullDev
unlock dev = record dev { mutex = false }
