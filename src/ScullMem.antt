-- ===== src/ScullMem.antt =====
-- scullc/impl/scullc_dev_common.c, scullp/impl/scullp_dev_common.c and scullv/impl/
-- scullv_dev_common.c: three copies of the memory device of scull_full whose quanta come from
-- another allocator and whose bytes pass through a buffer on the stack. What is the same text in
-- all three is here and in Read and Write; what differs is a value of `Ops`. The text that they
-- share with scull_full is that of ScullDev, on the fields that a device has.
pub mod Read
pub mod Write
pub mod Zeroing
pub mod Simulation
pub mod ReadSame
pub mod WriteSame
pub mod RoundTrip
pub mod Bounce
pub mod Paged
pub mod Smash
use ldd3_kernel.Prelude.{ℕ, Bool, List, Option}
use ldd3_kernel.Kernel.{Run}
use ldd3_kernel.ScullDev.{Quantum}

pub record Ops : Type 0 where
  -- memory for a quantum, as it is put into the array, for a request number; `none` for a null
  -- pointer
  pub alloc : ℕ → Run (Option Quantum)
  -- a quantum, an offset and a count, to the bytes that have gone to the user, or `none` for EFAULT
  pub copy_out : Quantum → ℕ → ℕ → Run (Option (List ℕ))
  -- a quantum, an offset, the user's buffer and a count, to the quantum afterwards and whether the
  -- copy failed
  pub copy_in : Quantum → ℕ → List ℕ → ℕ → Run (Quantum × Bool)
