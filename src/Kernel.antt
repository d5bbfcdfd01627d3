-- ===== src/Kernel.antt =====
-- What the drivers take from the kernel: error numbers, faults, memory, user memory and locks.
-- None of it is code of this repository, so it is a value of `Kernel`, an argument of each
-- operation, with its documented behaviour as `IsLawful`.
use ldd3_kernel.Prelude.{ℕ, ◌≤◌, ◌≡◌, ◌≢◌, Bool, false, List, Option, none, some, length, take}
use ldd3_kernel.Int.{ℤ}

pub data Errno : Type 0 where
  eagain ebusy efault einval eopnotsupp enodev enxio enomem enotty eperm erestartsys : Errno

-- What a system call returns: a value, or the negative of an error number.
pub data Reply {ℓ} (A : Type ℓ) : Type ℓ where
  ok : A → Reply A
  err : Errno → Reply A

-- An exception of the processor inside the driver: the kernel oopses. A copy past the end of an
-- array on the stack is `stack_smashed`, a loop whose fuel is used up is `endless`, and a spin lock
-- that is taken while it is held is `deadlock`.
pub data Fault : Type 0 where
  divide_error bad_access stack_smashed endless deadlock : Fault

pub data Run {ℓ} (A : Type ℓ) : Type ℓ where
  done : A → Run A
  fault : Fault → Run A

infixl 5 ◌>>=◌
abbrev pub ◌>>=◌ {ℓ κ} : {A : Type ℓ} {B : Type κ} → Run A → (A → Run B) → Run B
done a >>= f = f a
fault e >>= f = fault e

-- The kernel as one call of an operation meets it. The requests for memory of a call are numbered.
pub record Kernel : Type 0 where
  -- whether `mutex_lock_interruptible` returns with a signal in place of the lock
  pub interrupted : Bool
  -- request number and size, to the bytes that the memory holds, or `none` for a null pointer; the
  -- requests for memory are those of kmalloc, kmem_cache_alloc, __get_free_pages and vmalloc
  pub kmalloc : ℕ → ℕ → Option (List ℕ)
  -- the bytes offered, to the number that was not copied
  pub copy_to_user : List ℕ → ℕ
  -- the user's buffer and a count, to the bytes that are written to the destination, from its start,
  -- and the number not copied
  pub copy_from_user : List ℕ → ℕ → List ℕ × ℕ

-- The documented behaviour: memory has the size that was asked for; a copy writes to no more than
-- its destination, and all of the bytes if it says so. A buffer of user memory has at least the bytes that are asked of it.
pub record IsLawful (k : Kernel) : Type 0 where
  pub kmalloc_size : (c n : ℕ) (b : List ℕ) → k.kmalloc c n ≡ some b → length b ≡ n
  pub copied_size : (src : List ℕ) (n : ℕ) → n ≤ length src → length (k.copy_from_user src n).0 ≤ n
  pub copied_all :
      (src : List ℕ) (n : ℕ)
      → n ≤ length src
      → (k.copy_from_user src n).1 ≡ 0
      → (k.copy_from_user src n).0 ≡ take n src

-- A kernel that grants the lock and the memory and completes the copies.
pub record IsGenerous (k : Kernel) : Type 0 where
  pub has_lock : k.interrupted ≡ false
  pub has_memory : (c n : ℕ) → k.kmalloc c n ≢ none
  pub copies_in : (src : List ℕ) (n : ℕ) → (k.copy_from_user src n).1 ≡ 0
  pub copies_out : (bytes : List ℕ) → k.copy_to_user bytes ≡ 0

-- The calling process, as an ioctl meets it.
pub record Task : Type 0 where
  pub sys_admin : Bool
  -- address and size
  pub access_ok : ℕ → ℕ → Bool
  -- the value that the variable then holds, and whether the read failed
  pub get_user : ℕ → ℤ × Bool
  -- whether the write failed
  pub put_user : ℕ → ℤ → Bool
