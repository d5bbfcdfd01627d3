-- ===== src/ScullDev/WriteContent.antt =====
-- What a write leaves stored: the quantum that it copies to, and all the others.
use ldd3_kernel.Prelude.{
  ℕ, ◌+◌, ◌*◌, ◌%◌, ◌≤◌, ◌<◌, ◌≡◌, ap, ◌∙◌, ◌⊎◌, inl, inr, List, none, some, arith, length,
  get_elem?, max, get_elem?-overwrite_in, get_elem?-overwrite_below, get_elem?-overwrite_above,
  get_elem?-take, length-take,
}
use native.Mathlib.Nat.{mod-lt}
use native.Mathlib.Decide.{ℕ_discrete}
use ldd3_kernel.Int.{pos, to_size-pos, long_min_abs}
use ldd3_kernel.Kernel.{Kernel, IsLawful}
use ldd3_kernel.ScullDev.{ScullDev, Quantum}
use ldd3_kernel.ScullDev.Write.{grow}
use ldd3_kernel.ScullDev.Valid.{IsValid}
use ldd3_kernel.ScullDev.Places.{
  item, slot, offset, block_at, byte_at, byte_of, same_quantum, position_of_place,
}
use ldd3_kernel.ScullDev.Storage.{Stored}
use ldd3_kernel.ScullDev.Writing.{writable, copied_over}

pub grow_size :
    (dev : ScullDev) (m : ℕ) → m < long_min_abs → (grow dev (pos m)).size ≡ max dev.size m
grow_size dev m h = ground (arith, to_size-pos m (omega (arith, h)))

grow-same :
    (dev : ScullDev) (m : ℕ)
    → ((grow dev (pos m)).qsets ≡ dev.qsets)
      × ((grow dev (pos m)).quantum ≡ dev.quantum)
      × ((grow dev (pos m)).qset ≡ dev.qset)
grow-same dev m = ground arith

pub byte_at-grow :
    (q s : ℕ) (dev : ScullDev) (m i : ℕ) → byte_at q s (grow dev (pos m)) i ≡ byte_at q s dev i
byte_at-grow q s dev m i =
    ap (λ l. byte_of (block_at l (item q s i) (slot q s i)) (offset q s i)) (grow-same dev m).0

pub mutex-grow : (dev : ScullDev) (m : ℕ) → (grow dev (pos m)).mutex ≡ dev.mutex
mutex-grow dev m = ground arith

pub grow-IsValid :
    {q s : ℕ} (dev : ScullDev) (m : ℕ)
    → m < long_min_abs
    → IsValid q s dev
    → IsValid q s (grow dev (pos m))
grow-IsValid {q} {s} dev m h v = record {
  quantum_is = (grow-same dev m).1 ∙ v.quantum_is;
  qset_is = (grow-same dev m).2 ∙ v.qset_is;
  quantum_pos = v.quantum_pos;
  qset_pos = v.qset_pos;
  item_fits = v.item_fits;
  size_fits = omega (arith, grow_size dev m h, v.size_fits);
  nodes_fit = rw ((grow-same dev m).0) v.nodes_fit;
}

-- Content: the quantum at `p` with the copied bytes, the others as they were.
module _ (k : Kernel) (lawful : IsLawful k) (q s : ℕ) (hq : 0 < q) (hs : 0 < s)
    (dev dev' : ScullDev) (buf : List ℕ) (count p : ℕ) (buf_fits : count ≤ length buf)
    (old : Quantum) (old_length : length old ≡ q)
    (stored : Stored q s dev dev'
      (item q s p)
      (slot q s p)
      (copied_over k q s buf (writable q s count p) p old)) where
  abbrev pub n : ℕ
  n = writable q s count p

  abbrev bytes : List ℕ
  bytes = (k.copy_from_user buf n).0

  bytes-length : length bytes ≤ n
  bytes-length = lawful.copied_size buf n (omega (arith, buf_fits))

  offset-lt : offset q s p < q
  offset-lt = mod-lt (p % (q * s)) hq

  pub written_bytes :
      (k.copy_from_user buf n).1 ≡ 0 → (j : ℕ) → j < n → byte_at q s dev' (p + j) ≡ get_elem? buf j
  written_bytes all_copied j h =
      let all_taken = lawful.copied_all buf n (omega (arith, buf_fits)) all_copied in
      let same = same_quantum q s p j hq hs (omega (arith, h, offset-lt)) in
      rw (same.0, same.1, same.2, stored.put)
        (get_elem?-overwrite_in old (offset q s p) bytes j (omega (arith, offset-lt, old_length))
            (rw all_taken (omega (arith, length-take n buf, buf_fits, h)))
          ∙ ap (λ l. get_elem? l j) all_taken
          ∙ get_elem?-take n buf j h)

  -- A stored byte of the same quantum, before or behind the bytes that are written.
  kept_here :
      (o b : ℕ)
      → (o < offset q s p) ⊎ (offset q s p + n ≤ o)
      → get_elem? old o ≡ some b
      → byte_of (block_at dev'.qsets (item q s p) (slot q s p)) o ≡ some b
  kept_here o b (inl below) e = rw stored.put (
      get_elem?-overwrite_below old (offset q s p) bytes o (omega (arith, offset-lt, old_length))
        below
      ∙ e)
  kept_here o b (inr above) e = rw stored.put (
      get_elem?-overwrite_above old (offset q s p) bytes o (omega (arith, offset-lt, old_length))
        (omega (arith, bytes-length, above))
      ∙ e)

  kept_at :
      (o b : ℕ)
      → (block_at dev.qsets (item q s p) (slot q s p) ≡ none)
        ⊎ (block_at dev.qsets (item q s p) (slot q s p) ≡ some old)
      → (o < offset q s p) ⊎ (offset q s p + n ≤ o)
      → byte_of (block_at dev.qsets (item q s p) (slot q s p)) o ≡ some b
      → byte_of (block_at dev'.qsets (item q s p) (slot q s p)) o ≡ some b
  kept_at o b (inl hole) outside e = absurd (ground (arith, hole))
  kept_at o b (inr was) outside e = kept_here o b outside (rw was at e)

  same_place :
      (i : ℕ)
      → item q s p ≡ item q s i
      → slot q s p ≡ slot q s i
      → (i < p) ⊎ (p + n ≤ i)
      → (offset q s i < offset q s p) ⊎ (offset q s p + n ≤ offset q s i)
  same_place i e f outside = omega (
    arith,
    position_of_place q s p,
    position_of_place q s i,
    ap (λ (x : ℕ). x * (q * s)) e,
    ap (λ (x : ℕ). x * q) f,
    outside,
  )

  pub kept_bytes :
      (block_at dev.qsets (item q s p) (slot q s p) ≡ none)
        ⊎ (block_at dev.qsets (item q s p) (slot q s p) ≡ some old)
      → (i b : ℕ) → (i < p) ⊎ (p + n ≤ i)
      → byte_at q s dev i ≡ some b
      → byte_at q s dev' i ≡ some b
  kept_bytes was i b outside e = elim (ℕ_discrete (item q s p) (item q s i)) [
    | no ne ↦ rw (stored.elsewhere (item q s i) (slot q s i) (inl ne)) e
    | yes same_i ↦ elim (ℕ_discrete (slot q s p) (slot q s i)) [
      | no ne ↦ rw (stored.elsewhere (item q s i) (slot q s i) (inr ne)) e
      | yes same_j ↦
          rw (← same_i, ← same_j)
            (kept_at (offset q s i) b was (same_place i same_i same_j outside)
              (rw (← same_i, ← same_j) at e))
    ]
  ]
