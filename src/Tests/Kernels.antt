-- ===== src/Tests/Kernels.antt =====
-- A kernel and a process for the tests: memory comes filled with 170, and copies are complete.
use ldd3_kernel.Prelude.{
  ◌∙◌, refl, sym, ap, true, false, some, arith, length, take, replicate, length-replicate,
  length-take,
}
use mathlib.Core.Option.{some-injective}
use ldd3_kernel.Int.{pos}
use ldd3_kernel.Kernel.{Kernel, IsLawful, IsGenerous, Task}

abbrev pub kernel : Kernel
kernel = record {
  interrupted = false;
  kmalloc = λ c n. some (replicate n 170);
  copy_to_user = λ bytes. 0;
  copy_from_user = λ src n. (take n src, 0);
}

pub kernel-IsLawful : IsLawful kernel
kernel-IsLawful = record {
  kmalloc_size = λ c n b e. ap length (sym (some-injective _ _ e)) ∙ length-replicate n 170;
  copied_size = λ src n h. omega (arith, length-take n src);
  copied_all = λ src n h e. refl;
}

pub kernel-IsGenerous : IsGenerous kernel
kernel-IsGenerous = record {
  has_lock = refl;
  has_memory = λ c n e. cc;
  copies_in = λ src n. refl;
  copies_out = λ bytes. refl;
}

-- The superuser, whose memory holds the value 8 at every address.
abbrev pub root : Task
root = record {
  sys_admin = true;
  access_ok = λ a n. true;
  get_user = λ a. (pos 8, false);
  put_user = λ a z. false;
}

abbrev pub user : Task
user = record root { sys_admin = false }
