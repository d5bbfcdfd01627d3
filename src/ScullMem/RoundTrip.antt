-- ===== src/ScullMem/RoundTrip.antt =====
-- What is written over `Ops` is read back.
use ldd3_kernel.Prelude.{ℕ, ◌+◌, ◌*◌, ◌%◌, ◌≤◌, ◌<◌, ◌≡◌, ap, ◌∙◌, false, List, arith, take}
use native.Mathlib.Nat.{mod-lt}
use ldd3_kernel.Int.{pos}
use ldd3_kernel.Kernel.{Kernel, IsLawful, IsGenerous, ok, done}
use ldd3_kernel.ScullDev.{ScullDev}
use ldd3_kernel.ScullDev.Valid.{IsValid}
use ldd3_kernel.ScullDev.Lookup.{Fits}
use ldd3_kernel.ScullDev.Writing.{writable}
use ldd3_kernel.ScullDev.WriteEffect.{CanWrite, write_lem, write_answers}
use ldd3_kernel.ScullDev.RoundTrip.{answered_write, read_back}
use ldd3_kernel.ScullMem.{Ops}
use ldd3_kernel.ScullMem.Read.{read_with}
use ldd3_kernel.ScullMem.Write.{write_with}
use ldd3_kernel.ScullMem.Simulation.{Simulates}
use ldd3_kernel.ScullMem.ReadSame.{read_with-same}
use ldd3_kernel.ScullMem.WriteSame.{write_with-same}

-- What a later call finds: the data as the first call left them, in a device of the same geometry.
abbrev pub as_left : ScullDev → ScullDev → ScullDev
as_left dev mid = record {
  qsets = mid.qsets;
  quantum = dev.quantum;
  qset = dev.qset;
  new_quantum = dev.new_quantum;
  new_qset = dev.new_qset;
  size = mid.size;
  mutex = mid.mutex;
}

as_left-IsValid :
    {q s : ℕ} (dev mid : ScullDev)
    → IsValid q s dev
    → IsValid q s mid
    → IsValid q s (as_left dev mid)
as_left-IsValid dev mid v w = record {
  quantum_is = v.quantum_is;
  qset_is = v.qset_is;
  quantum_pos = v.quantum_pos;
  qset_pos = v.qset_pos;
  item_fits = v.item_fits;
  size_fits = w.size_fits;
  nodes_fit = w.nodes_fit;
}

module _ (q s m : ℕ) (ops ops' : Ops) (k k₁ k' k₂ : Kernel) (sim : Simulates ops k k₁ q m)
    (sim' : Simulates ops' k' k₂ q m) (lawful : IsLawful k₁) (g : IsGenerous k₁)
    (g' : IsGenerous k₂) where
  pub write_with_read :
      (dev : ScullDev) (buf : List ℕ) (count p : ℕ)
      → CanWrite q s dev buf count p
      → dev.mutex ≡ false
      → 0 < count
      → writable q s count p ≤ m
      → let n = writable q s count p in
        (0 < n)
        × (mid : ScullDev) × (last : ScullDev) × (write_with ops k dev buf count (pos p)
            ≡ done (mid, pos (p + n), ok n))
        × (read_with ops' k' (as_left dev mid) n (pos p)
            ≡ done (last, pos (p + n), ok (n, take n buf)))
  write_with_read dev buf count p can free some_count small =
      let (out, is_written, v, unlocked, promise) =
        write_lem k₁ q s dev buf count p lawful can free in
      let (shape, size_is, bytes) =
        answered_write q s dev buf count p out promise
          (write_answers k₁ q s dev buf count p lawful can out g is_written) in
      let n = writable q s count p in
      let some_n : 0 < n = omega (arith, mod-lt (p % (q * s)) can.valid.quantum_pos) in
      let fits : Fits q s (as_left dev out.0) n p = record {
        valid = as_left-IsValid dev out.0 can.valid v;
        reachable = can.reachable;
        position_fits = omega (arith, can.in_range);
        count_fits = omega (arith, can.in_range);
      } in
      let (last, is_read) =
        read_back k₂ q s (as_left dev out.0) buf n p g' fits unlocked some_n
          (omega (arith, can.buf_fits)) (omega arith) (omega (arith, size_is)) bytes in
      (
        some_n,
        out.0,
        last,
        write_with-same ops k k₁ q s m sim lawful can.valid.quantum_pos can.valid.qset_pos
              can.valid.item_fits buf p dev count can small
            ∙ is_written
            ∙ ap done shape,
        read_with-same ops' k' k₂ q s m sim' (as_left dev out.0) n p fits (omega (arith, small))
            ∙ is_read,
      )
