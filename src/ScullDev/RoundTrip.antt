-- ===== src/ScullDev/RoundTrip.antt =====
-- What is written is read back.
use ldd3_kernel.Prelude.{
  ℕ, ◌+◌, ◌-◌, ◌*◌, ◌%◌, ◌≤◌, ◌<◌, ◌≡◌, ap, sym, subst, ◌∙◌, false, List, some, inl, inr, arith,
  length, get_elem?, take, max, list_ext, length-take, get_elem?-take, Option-cases, get_elem?-some,
}
use native.Mathlib.Nat.{mod-lt}
use ldd3_kernel.Int.{pos}
use ldd3_kernel.Kernel.{Kernel, IsLawful, IsGenerous, ok, err, done}
use ldd3_kernel.ScullDev.{ScullDev}
use ldd3_kernel.ScullDev.Read.{scull_dev_read, Reading}
use ldd3_kernel.ScullDev.Write.{scull_dev_write, Writing}
use ldd3_kernel.ScullDev.Places.{item, slot, offset, block_at, byte_at}
use ldd3_kernel.ScullDev.Lookup.{Fits}
use ldd3_kernel.ScullDev.Writing.{writable}
use ldd3_kernel.ScullDev.ReadEffect.{given, ReadResult, read_lem, read_replies}
use ldd3_kernel.ScullDev.WriteEffect.{CanWrite, WriteResult, write_lem, write_answers}

-- A write that answers has met the first case of its promise.
pub answered_write :
    (q s : ℕ) (dev : ScullDev) (buf : List ℕ) (count p : ℕ) (out : Writing)
    → WriteResult q s dev buf count p out
    → (m : ℕ) × (out.2 ≡ ok m)
    → let n = writable q s count p in
      (out ≡ (out.0, pos (p + n), ok n))
      × (out.0.size ≡ max dev.size (p + n))
      × ((j : ℕ) → j < n → byte_at q s out.0 (p + j) ≡ get_elem? buf j)
answered_write q s dev buf count p (mid, f_pos, ok n) h a =
    (ground (arith, h.0, h.1), rw (← h.0) h.2, rw (← h.0) h.3)
answered_write q s dev buf count p (mid, f_pos, err e) h a = absurd (err-ne-ok a.1)
  where
    err-ne-ok : {m : ℕ} → err e ≡ ok m → ⊥
    err-ne-ok d = cc

answered_read :
    (q s : ℕ) (dev : ScullDev) (count p n : ℕ) (bytes : List ℕ) (out : Reading)
    → ReadResult q s dev count p out
    → (m : ℕ × List ℕ) × (out.2 ≡ ok m)
    → given q s dev count p ≡ n
    → length bytes ≡ n
    → ((j : ℕ) → j < n → byte_at q s dev (p + j) ≡ get_elem? bytes j)
    → out ≡ (out.0, pos (p + n), ok (n, bytes))
answered_read q s dev count p n bytes (last, f_pos, ok (m, got)) h a g l same = ground (
  arith,
  h.0,
  h.1,
  g,
  list_ext got bytes (omega (arith, h.2, h.0, g, l))
      λ j lt. h.3 j (omega (arith, h.2, lt)) ∙ same j (omega (arith, h.2, h.0, g, lt)),
)
answered_read q s dev count p n bytes (last, f_pos, err e) h a g l same = absurd (err-ne-ok a.1)
  where
    err-ne-ok : {m : ℕ × List ℕ} → err e ≡ ok m → ⊥
    err-ne-ok d = cc

-- Where a byte is stored and the file goes on behind the range, all of the range is given.
given_all :
    (q s : ℕ) (dev : ScullDev) (n p b : ℕ)
    → byte_at q s dev p ≡ some b
    → p + n ≤ dev.size
    → 0 < n
    → n ≤ q - offset q s p
    → given q s dev n p ≡ n
given_all q s dev n p b e h some_n inside =
    elim (Option-cases (block_at dev.qsets (item q s p) (slot q s p))) [
      | inl hole ↦ absurd (ground (arith, hole))
      | inr (block, there) ↦ ground (arith, there)
    ]

add_zero : (x : ℕ) → x + 0 ≡ x
add_zero x = omega arith

-- Where the first bytes of `buf` are stored at `p`, a read of so many gives them.
pub read_back :
    (k : Kernel) (q s : ℕ) (dev : ScullDev) (buf : List ℕ) (n p : ℕ)
    → IsGenerous k
    → Fits q s dev n p
    → dev.mutex ≡ false
    → 0 < n
    → n ≤ length buf
    → n ≤ q - offset q s p
    → p + n ≤ dev.size
    → ((j : ℕ) → j < n → byte_at q s dev (p + j) ≡ get_elem? buf j)
    → (last : ScullDev) × (scull_dev_read k dev n (pos p)
        ≡ done (last, pos (p + n), ok (n, take n buf)))
read_back k q s dev buf n p g fits free some_n given_buf inside sized bytes =
    let (first, there) = get_elem?-some buf 0 (omega (arith, some_n, given_buf)) in
    let (got, is_read, _, _, promise) = read_lem k q s dev n p fits free in
    let at_p : byte_at q s dev p ≡ some first =
      subst (λ z. byte_at q s dev z ≡ some first) (add_zero p) (bytes 0 some_n ∙ there) in
    (
      got.0,
      is_read
          ∙ ap done (
              answered_read q s dev n p n (take n buf) got promise
                (read_replies k q s dev n p got fits g is_read)
                (given_all q s dev n p first at_p sized some_n inside)
                (omega (arith, length-take n buf, given_buf))
                (λ j h. bytes j h ∙ sym (get_elem?-take n buf j h))),
    )

-- With generous and documented kernels, a write of `count` bytes at `p` on a valid device takes
-- `n` bytes, at least one, and a read of `n` bytes at `p` then gives just these.
pub write_read :
    (k k' : Kernel) (q s : ℕ) (dev : ScullDev) (buf : List ℕ) (count p : ℕ)
    → IsLawful k
    → IsGenerous k
    → IsGenerous k'
    → CanWrite q s dev buf count p
    → dev.mutex ≡ false
    → 0 < count
    → let n = writable q s count p in
      (0 < n)
      × (mid : ScullDev) × (last : ScullDev) × (scull_dev_write k dev buf count (pos p)
          ≡ done (mid, pos (p + n), ok n))
      × (scull_dev_read k' mid n (pos p) ≡ done (last, pos (p + n), ok (n, take n buf)))
write_read k k' q s dev buf count p lawful g g' can free some_count =
    let (out, is_written, v, unlocked, promise) = write_lem k q s dev buf count p lawful can free in
    let (shape, size_is, bytes) =
      answered_write q s dev buf count p out promise
        (write_answers k q s dev buf count p lawful can out g is_written) in
    let n = writable q s count p in
    let some_n : 0 < n = omega (arith, mod-lt (p % (q * s)) can.valid.quantum_pos) in
    let fits : Fits q s out.0 n p = record {
      valid = v;
      reachable = can.reachable;
      position_fits = omega (arith, can.in_range);
      count_fits = omega (arith, can.in_range);
    } in
    let (last, is_read) =
      read_back k' q s out.0 buf n p g' fits unlocked some_n (omega (arith, can.buf_fits))
        (omega arith) (omega (arith, size_is)) bytes in
    (some_n, out.0, last, is_written ∙ ap done shape, is_read)
