-- ===== src/ScullSingle/Exclusion.antt =====
-- Opens and releases of scull_single in any order of their atomic steps.
use ldd3_kernel.Prelude.{ℕ, zero, suc, ◌+◌, ◌≤◌, ◌<◌, ◌≡◌, refl, sym, ap, ◌∙◌, true, false, arith}
use ldd3_kernel.Int.{pos, ◌+ℤ◌, ◌-ℤ◌, sub_ℕ, is_zero, to_int, int_min_abs}
use ldd3_kernel.ScullDev.{ScullDev}
use ldd3_kernel.ScullSingle.{ScullSingle, init_scull_single, atomic_inc, atomic_dec_and_test}

-- The states that opens and releases lead to, with how many files are open (or in their
-- scull_dev_open), and how many opens have found the device taken and not yet put their decrement
-- back. What the files do to the memory device in between is left open.
pub data Reachable : ScullSingle → ℕ → ℕ → Type 0 where
  fresh : Reachable init_scull_single 0 0
  takes :
      {s : ScullSingle} {held missed : ℕ}
      → Reachable s held missed
      → held + missed + 1 < int_min_abs
      → (atomic_dec_and_test s).1 ≡ true
      → Reachable (atomic_dec_and_test s).0 (held + 1) missed
  misses :
      {s : ScullSingle} {held missed : ℕ}
      → Reachable s held missed
      → held + missed + 1 < int_min_abs
      → (atomic_dec_and_test s).1 ≡ false
      → Reachable (atomic_dec_and_test s).0 held (missed + 1)
  backs_off :
      {s : ScullSingle} {held missed : ℕ}
      → Reachable s held (missed + 1)
      → Reachable (atomic_inc s) held missed
  gives_back :
      {s : ScullSingle} {held missed : ℕ}
      → Reachable s (held + 1) missed
      → Reachable (atomic_inc s) held missed
  uses :
      {s : ScullSingle} {held missed : ℕ} (dev : ScullDev)
      → Reachable s held missed
      → Reachable (record s { dev = dev }) held missed

dec_lem : (n : ℕ) → n + 1 < int_min_abs → to_int (sub_ℕ 1 n -ℤ pos 1) ≡ sub_ℕ 1 (n + 1)
unfolding to_int
dec_lem zero h = ground arith
dec_lem (suc n) h = ground arith

inc_lem : (n : ℕ) → n < int_min_abs → to_int (sub_ℕ 1 (n + 1) +ℤ pos 1) ≡ sub_ℕ 1 n
unfolding to_int
inc_lem zero h = ground arith
inc_lem (suc n) h = ground arith

zero_lem : (n : ℕ) → is_zero (sub_ℕ 1 (n + 1)) ≡ true → n ≡ 0
zero_lem n h = ground arith

decremented :
    (s : ScullSingle) (held missed : ℕ)
    → s.available ≡ sub_ℕ 1 (held + missed)
    → held + missed + 1 < int_min_abs
    → to_int (s.available -ℤ pos 1) ≡ sub_ℕ 1 (held + missed + 1)
decremented s held missed e h = ap (λ z. to_int (z -ℤ pos 1)) e ∙ dec_lem (held + missed) h

incremented :
    (s : ScullSingle) (n : ℕ)
    → s.available ≡ sub_ℕ 1 (n + 1)
    → n < int_min_abs
    → to_int (s.available +ℤ pos 1) ≡ sub_ℕ 1 n
incremented s n e h = ap (λ z. to_int (z +ℤ pos 1)) e ∙ inc_lem n h

-- The counter says how many have it or try for it, and there is never more than one file open.
counted :
    {s : ScullSingle} {held missed : ℕ}
    → Reachable s held missed
    → (s.available ≡ sub_ℕ 1 (held + missed)) × (held ≤ 1) × (held + missed < int_min_abs)
unfolding init_scull_single atomic_inc atomic_dec_and_test
counted fresh = (refl, omega arith, omega arith)
counted (takes {s} {held} {missed} t small got) =
    let (e, one, below) = counted t in
    let e' = decremented s held missed e small in
    let nobody = zero_lem (held + missed) (sym (ap is_zero e') ∙ got) in
    (e' ∙ ap (sub_ℕ 1) (omega arith), omega (arith, nobody), omega arith)
counted (misses {s} {held} {missed} t small got) =
    let (e, one, below) = counted t in
    (decremented s held missed e small ∙ ap (sub_ℕ 1) (omega arith), one, omega arith)
counted (backs_off {s} {held} {missed} t) =
    let (e, one, below) = counted t in
    (incremented s (held + missed) (e ∙ ap (sub_ℕ 1) (omega arith)) (omega arith), one, omega arith)
counted (gives_back {s} {held} {missed} t) =
    let (e, one, below) = counted t in
    (
      incremented s (held + missed) (e ∙ ap (sub_ℕ 1) (omega arith)) (omega arith),
      omega arith,
      omega arith,
    )
counted (uses dev t) = counted t

-- However the atomic steps of opens and releases of a scull_single device interleave, at most one
-- file has it open, and the counter is 1 less the files that have it open and the opens that are
-- about to fail.
pub single_exclusive :
    {s : ScullSingle} {held missed : ℕ}
    → Reachable s held missed
    → (held ≤ 1) × (s.available ≡ sub_ℕ 1 (held + missed))
single_exclusive t = let (e, one, below) = counted t in (one, e)
