-- ===== src/ScullDev/Reading.antt =====
-- What scull_dev_read does on a valid device, branch by branch.
use ldd3_kernel.Prelude.{
  ℕ, ◌+◌, ◌-◌, ◌*◌, ◌%◌, ◌≤◌, ◌<◌, ◌≡◌, refl, ap, ◌∙◌, min, true, false, List, [], Option, none,
  some, arith, length, take, drop, Option-cases, inl, inr, leb, ◌==◌, if◌then◌else◌, le→leb, lt→leb,
  sym, Bool-cases, div-lt_of_mod,
}
use native.Mathlib.Nat.{mod-lt}
use ldd3_kernel.Int.{ℤ, pos, to_uint, to_uint-pos, to_size, to_size-pos, to_long-pos, long_min_abs}
use ldd3_kernel.Kernel.{Kernel, ok, err, efault, done, ◌>>=◌}
use ldd3_kernel.ScullDev.{ScullDev, Quantum, lock, unlock}
use ldd3_kernel.ScullDev.Follow.{follow}
use ldd3_kernel.ScullDev.Read.{
  scull_dev_read, read_locked, read_place, copy_out, Reading, within_size,
}
use ldd3_kernel.ScullDev.Valid.{IsValid, NodeFits}
use ldd3_kernel.ScullDev.Places.{
  item, slot, offset, place, IsReachable, locate-place, block_at, follow_long, follow-All,
  follow-found, block_at-follow,
}
use ldd3_kernel.ScullDev.Lookup.{within_size-min, within_quantum-min, find_node, block_at-some}

-- How many bytes a read at `p` can give.
abbrev pub readable : ℕ → ℕ → ScullDev → ℕ → ℕ → ℕ
readable q s dev count p = min (min count (dev.size - p)) (q - offset q s p)

abbrev pub found_bytes : ℕ → ℕ → ℕ → Quantum → ℕ → List ℕ
found_bytes q s p block n = take n (drop (offset q s p) block)

-- The lock is taken and given back around the rest of a read.
pub read_unlocks :
    (k : Kernel) (dev : ScullDev) (count : ℕ) (f_pos : ℤ)
    → k.interrupted ≡ false
    → scull_dev_read k dev count f_pos
      ≡ (read_locked k (lock dev) count f_pos >>= λ out. done (unlock out.0, out.1, out.2))
unfolding scull_dev_read
read_unlocks k dev count f_pos h = simp h

module _ (k : Kernel) (q s : ℕ) (dev : ScullDev) (v : IsValid q s dev) (p : ℕ)
    (r : IsReachable q s p) where
  -- The device with the nodes that `scull_follow` may have added.
  abbrev pub followed : ScullDev
  followed = record dev { qsets = (follow k 0 (item q s p) dev.qsets).0 }

  -- The outcome, by the quantum that is stored at `p` and the number of bytes to give.
  abbrev pub reply_of : Option Quantum → ℕ → Reading
  reply_of none n = (followed, pos p, ok (0, []))
  reply_of (some block) n =
      if k.copy_to_user (found_bytes q s p block n) == 0
      then (followed, pos (p + n), ok (n, found_bytes q s p block n))
      else (followed, pos p, err efault)

  copy_out-reply_of :
      (o : Option Quantum) (n m : ℕ)
      → m ≡ min n (q - offset q s p)
      → p + m < long_min_abs
      → ((block : Quantum) → o ≡ some block → length block ≡ q)
      → copy_out k followed n (pos p) (place q s p) o ≡ done (reply_of o m)
  unfolding copy_out
  copy_out-reply_of none n m e h l = refl
  copy_out-reply_of (some block) n m e h l =
      rw
        (
          within_quantum-min q s p n dev v,
          ← e,
          le→leb (offset q s p + m) (length block)
              (grind (arith, l block refl, mod-lt (p % (q * s)) v.quantum_pos)),
          to_long-pos (p + m) h,
        )
        (ground arith)

  pub item_uint : to_uint (pos (item q s p)) ≡ item q s p
  item_uint = to_uint-pos (item q s p) (omega (arith, r))

  pub slot-lt : slot q s p < s
  slot-lt = div-lt_of_mod p q s v.quantum_pos v.qset_pos

  pub stored-fits :
      (block : Quantum)
      → block_at dev.qsets (item q s p) (slot q s p) ≡ some block
      → length block ≡ q
  stored-fits block e =
      (block_at-some q s dev.qsets (item q s p) (slot q s p) block v.nodes_fit e).1

  pub read_place-reached :
      (n : ℕ)
      → (follow k 0 (item q s p) dev.qsets).1 ≡ true
      → read_place k dev n (pos p) (place q s p)
        ≡ copy_out k followed n (pos p) (place q s p) (block_at dev.qsets (item q s p) (slot q s p))
  unfolding read_place
  read_place-reached n e = simp (
    item_uint,
    e,
    find_node q s followed.qsets (item q s p) (slot q s p)
        (follow-All k (NodeFits q s) tt 0 (item q s p) dev.qsets v.nodes_fit)
        (follow-found k 0 (item q s p) dev.qsets e) slot-lt,
    block_at-follow k 0 (item q s p) dev.qsets (item q s p) (slot q s p),
  )

  pub read_place-lost :
      (n : ℕ)
      → (follow k 0 (item q s p) dev.qsets).1 ≡ false
      → read_place k dev n (pos p) (place q s p) ≡ done (followed, pos p, ok (0, []))
  unfolding read_place
  read_place-lost n e = simp (item_uint, e)

  -- What is not reached is not stored.
  lost-none :
      (follow k 0 (item q s p) dev.qsets).1 ≡ false
      → block_at dev.qsets (item q s p) (slot q s p) ≡ none
  lost-none e = elim (Option-cases (block_at dev.qsets (item q s p) (slot q s p))) [
    | inl missing ↦ missing
    | inr (block, there) ↦ ground (
      arith,
      follow_long k 0 (item q s p) dev.qsets,
      block_at-some q s dev.qsets (item q s p) (slot q s p) block v.nodes_fit there,
    )
  ]

  read_place_lem :
      (n m : ℕ)
      → m ≡ min n (q - offset q s p)
      → p + m < long_min_abs
      → read_place k dev n (pos p) (place q s p)
        ≡ done (reply_of (block_at dev.qsets (item q s p) (slot q s p)) m)
  read_place_lem n m e h = elim (Bool-cases (follow k 0 (item q s p) dev.qsets).1) [
    | inl found ↦
        read_place-reached n found
        ∙ copy_out-reply_of (block_at dev.qsets (item q s p) (slot q s p)) n m e h stored-fits
    | inr lost ↦ rw (lost-none lost) (read_place-lost n lost)
  ]

  before_end : p < dev.size → leb dev.size (to_size (pos p)) ≡ false
  before_end h = rw (to_size-pos p (omega (arith, v.size_fits))) (lt→leb dev.size p h)

  -- Inside the file a read is decided by the quantum at its position.
  pub read_inside :
      (count : ℕ)
      → p < dev.size
      → count < long_min_abs
      → read_locked k dev count (pos p)
        ≡ done (reply_of (block_at dev.qsets (item q s p) (slot q s p)) (readable q s dev count p))
  unfolding read_locked
  read_inside count h hc =
      simp (before_end h, locate-place q s p dev v r)
        (read_place_lem (within_size dev (pos p) count) (readable q s dev count p)
          (ap (λ n. min n (q - offset q s p)) (sym (within_size-min dev count p h v.size_fits hc)))
          (omega (arith, v.size_fits)))

  -- At the end of the file and behind it a read gives nothing.
  pub read_outside :
      (count : ℕ)
      → dev.size ≤ p
      → p < long_min_abs
      → read_locked k dev count (pos p) ≡ done (dev, pos p, ok (0, []))
  unfolding read_locked
  read_outside count h hp = simp (to_size-pos p (omega arith), le→leb dev.size p h)
