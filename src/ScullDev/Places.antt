-- ===== src/ScullDev/Places.antt =====
-- Where a file position lies in a valid device, and what is stored there.
use ldd3_kernel.Prelude.{
  ℕ, zero, suc, ◌+◌, ◌*◌, ◌/◌, ◌%◌, ◌≤◌, ◌<◌, ◌≡◌, refl, ap, true, List, [], ◌∷◌, Option, none,
  some, arith, length, get_elem?, All, div_mod_unique, div-lt_of_mod, false, Option-cases, inl, inr,
}
use native.Mathlib.Nat.{div-add-mod', mod-lt}
use ldd3_kernel.Int.{pos, int_min_abs, to_int-pos, div_checked-pos}
use ldd3_kernel.Kernel.{Kernel, done}
use ldd3_kernel.ScullDev.{ScullDev, ScullQset, Quantum, zeroed_qset}
use ldd3_kernel.ScullDev.Follow.{Place, follow, locate, divide, after_node, qset_bytes}
use ldd3_kernel.ScullDev.Valid.{IsValid}

module _ (q s : ℕ) where
  abbrev pub item : ℕ → ℕ
  item p = p / (q * s)

  abbrev pub slot : ℕ → ℕ
  slot p = p % (q * s) / q

  abbrev pub offset : ℕ → ℕ
  offset p = p % (q * s) % q

  abbrev pub place : ℕ → Place
  place p = record { item = pos (item p); s_pos = pos (slot p); q_pos = pos (offset p) }

-- A position whose list item has an int for its number.
abbrev pub IsReachable : ℕ → ℕ → ℕ → Type 0
IsReachable q s p = item q s p < int_min_abs

divide-pos : (a b : ℕ) → 0 < b → divide (pos a) (pos b) ≡ done (pos (a / b), pos (a % b))
divide-pos a b h = rw (div_checked-pos a b h, divide)

-- The driver's arithmetic finds that place, without a division by zero or an overflow.
pub locate-place :
    (q s p : ℕ) (dev : ScullDev)
    → IsValid q s dev
    → IsReachable q s p
    → locate dev (pos p) ≡ done (place q s p)
unfolding locate
locate-place q s p dev v r = rw (
  v.quantum_is,
  v.qset_is,
  to_int-pos (q * s) v.item_fits,
  divide-pos p (q * s) whole,
  to_int-pos (p % (q * s)) (omega (arith, v.item_fits, mod-lt p whole)),
  divide-pos (p % (q * s)) q v.quantum_pos,
  to_int-pos (item q s p) r,
  to_int-pos (slot q s p) (grind arith),
  to_int-pos (offset q s p) (grind arith),
)
  where
    whole : 0 < q * s
    whole = grind arith

-- Below the end of a quantum the next positions lie in the same one.
module _ (q s p j : ℕ) (hq : 0 < q) (hs : 0 < s) (h : offset q s p + j < q) where
  same_item : (item q s (p + j) ≡ item q s p) × ((p + j) % (q * s) ≡ p % (q * s) + j)
  same_item =
      div_mod_unique (p + j) (q * s) (item q s p) (p % (q * s) + j)
        (omega (arith, div-add-mod' p (q * s)))
        (omega (arith, inside, slot_room, div-add-mod' (p % (q * s)) q))
    where
      inside : slot q s p < s
      inside = div-lt_of_mod p q s hq hs

      slot_room : slot q s p * q + q ≤ q * s
      slot_room = grind (arith, inside)

  same_slot : ((p + j) % (q * s) / q ≡ slot q s p) × ((p + j) % (q * s) % q ≡ offset q s p + j)
  same_slot =
      div_mod_unique ((p + j) % (q * s)) q (slot q s p) (offset q s p + j)
        (omega (arith, same_item, div-add-mod' (p % (q * s)) q)) h

  pub same_quantum :
      (item q s (p + j) ≡ item q s p)
      × (slot q s (p + j) ≡ slot q s p)
      × (offset q s (p + j) ≡ offset q s p + j)
  same_quantum = (same_item.0, same_slot.0, same_slot.1)

-- The place determines the position.
pub position_of_place : (q s p : ℕ) → p ≡ item q s p * (q * s) + (slot q s p * q + offset q s p)
position_of_place q s p = omega (arith, div-add-mod' p (q * s), div-add-mod' (p % (q * s)) q)

-- The quantum in place `j` of the array of node `i`, if there is one.
abbrev pub of_array : Option (List (Option Quantum)) → ℕ → Option Quantum
of_array none j = none
of_array (some arr) j = elim (get_elem? arr j) [ none ↦ none | some slot ↦ slot ]

abbrev pub block_at : List ScullQset → ℕ → ℕ → Option Quantum
block_at [] i j = none
block_at (node ∷ rest) zero j = of_array node.quanta j
block_at (node ∷ rest) (suc i) j = block_at rest i j

-- The byte stored at a position; `none` in a hole.
abbrev pub byte_of : Option Quantum → ℕ → Option ℕ
byte_of none o = none
byte_of (some block) o = get_elem? block o

abbrev pub byte_at : ℕ → ℕ → ScullDev → ℕ → Option ℕ
byte_at q s dev p = byte_of (block_at dev.qsets (item q s p) (slot q s p)) (offset q s p)

module _ (k : Kernel) where
  -- Following the list changes no content, though it may add nodes.
  pub block_at-follow :
      (c n : ℕ) (qsets : List ScullQset) (i j : ℕ)
      → block_at (follow k c n qsets).0 i j ≡ block_at qsets i j
  unfolding follow
  block_at-follow c zero [] zero j = ground arith
  block_at-follow c zero [] (suc i) j = ground arith
  block_at-follow c zero (node ∷ rest) i j = refl
  block_at-follow c (suc n) [] zero j = ground arith
  block_at-follow c (suc n) [] (suc i) j = ground (arith, block_at-follow (c + 1) n [] i j)
  block_at-follow c (suc n) (node ∷ rest) zero j = refl
  block_at-follow c (suc n) (node ∷ rest) (suc i) j = block_at-follow c n rest i j

  -- Where the node is reached, the list is long enough.
  pub follow-found :
      (c n : ℕ) (qsets : List ScullQset)
      → (follow k c n qsets).1 ≡ true
      → n < length (follow k c n qsets).0
  unfolding follow
  follow-found c zero [] h = ground arith
  follow-found c zero (node ∷ rest) h = omega arith
  follow-found c (suc n) [] h = ground (arith, follow-found (c + 1) n [])
  follow-found c (suc n) (node ∷ rest) h = omega (arith, follow-found c n rest h)

  -- Where it is not, a request for memory was refused.
  pub follow-lost :
      (c n : ℕ) (qsets : List ScullQset)
      → (follow k c n qsets).1 ≡ false
      → (c' : ℕ) × (m : ℕ) × (k.kmalloc c' m ≡ none)
  unfolding follow
  follow-lost c zero [] h = (c, qset_bytes, ground arith)
  follow-lost c zero (node ∷ rest) h = cc
  follow-lost c (suc n) [] h = elim (Option-cases (k.kmalloc c qset_bytes)) [
    | inl refused ↦ (c, qset_bytes, refused)
    | inr (mem, had) ↦ follow-lost (c + 1) n [] (ground (arith, had))
  ]
  follow-lost c (suc n) (node ∷ rest) h = follow-lost c n rest h

  pub follow-All :
      (P : ScullQset → Type 0)
      → P zeroed_qset
      → (c n : ℕ) (qsets : List ScullQset) → All P qsets
      → All P (follow k c n qsets).0
  unfolding follow
  follow-All P z c zero [] h = ground arith
  follow-All P z c zero (node ∷ rest) h = h
  follow-All P z c (suc n) [] h = ground (arith, follow-All P z (c + 1) n [] tt)
  follow-All P z c (suc n) (node ∷ rest) h = (h.0, follow-All P z c n rest h.1)

  -- A list that is long enough is followed without a request for memory.
  pub follow_long :
      (c n : ℕ) (qsets : List ScullQset) → n < length qsets → follow k c n qsets ≡ (qsets, true, c)
  unfolding follow
  follow_long c n [] h = elim h [ ]
  follow_long c zero (node ∷ rest) h = refl
  follow_long c (suc n) (node ∷ rest) h = ap (after_node node) (follow_long c n rest (omega arith))
