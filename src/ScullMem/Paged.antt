-- ===== src/ScullMem/Paged.antt =====
-- The memory devices of scullp and scullv, which have a page order in place of a quantum.
use ldd3_kernel.Prelude.{ℕ, ◌*◌, ◌%◌, ◌^◌, ◌<◌, ◌≡◌, refl, ap, ◌∙◌, Option, arith}
use ldd3_kernel.Int.{ℤ, pos, to_int, to_int-pos, size_mod, int_min_abs}
use ldd3_kernel.Kernel.{Kernel, Run, done}
use ldd3_kernel.ScullDev.{Quantum}
use ldd3_kernel.ScullMem.{Ops}
use ldd3_kernel.ScullMem.Zeroing.{zero_mem, follow-same, array_or_new-same}
use ldd3_kernel.ScullMem.Simulation.{Simulates}
use ldd3_kernel.ScullMem.Bounce.{
  tmp_buf, bounce_out, bounce_in, bounced, bounce_out_lem, bounce_in_lem,
}

abbrev pub page_size : ℕ
page_size = 4096

-- `int quantum = PAGE_SIZE << dev->order`, for an order that is not negative
unfoldable pub quantum_of : ℕ → ℤ
quantum_of order = to_int (pos (page_size * 2 ^ order % size_mod))

pub quantum_of_lem :
    (order : ℕ)
    → page_size * 2 ^ order < int_min_abs
    → quantum_of order ≡ pos (page_size * 2 ^ order)
unfolding quantum_of
quantum_of_lem order h =
    let e : page_size * 2 ^ order % size_mod ≡ page_size * 2 ^ order = omega (arith, h) in
    ap (λ n. to_int (pos n)) e ∙ to_int-pos (page_size * 2 ^ order) h

abbrev pub paged_ops : Kernel → (ℕ → Run (Option Quantum)) → Ops
paged_ops k alloc = record { alloc = alloc; copy_out = bounce_out k; copy_in = bounce_in k }

pub paged-Simulates :
    (k : Kernel) (q : ℕ) (alloc : ℕ → Run (Option Quantum))
    → ((c : ℕ) → alloc c ≡ done (zero_mem (k.kmalloc c q)))
    → Simulates (paged_ops k alloc) k (bounced k) q tmp_buf
paged-Simulates k q alloc same = record {
  same_lock = refl;
  same_follow = follow-same k (bounced k) (λ c n. refl);
  same_arrays = array_or_new-same k (bounced k) (λ c n. refl);
  same_alloc = same;
  same_out =
      λ block o n l inside small. bounce_out_lem k block o n (omega (arith, l, inside)) small;
  same_in = λ block o buf n l inside small given.
      bounce_in_lem k block o buf n (omega (arith, l, inside)) small;
}
