-- ===== src/ScullDev/Lookup.antt =====
-- The lookups and the limits of scull_dev_read and scull_dev_write on a valid device.
use ldd3_kernel.Prelude.{
  ℕ, zero, suc, ◌-◌, ◌*◌, ◌%◌, ◌≤◌, ◌<◌, ◌≡◌, refl, min, List, [], ◌∷◌, Option, none, some, arith,
  length, get_elem?, All, get_elem?-some, All-get_elem?,
}
use ldd3_kernel.Int.{pos, to_int-pos, to_size, to_size-pos, long_min_abs}
use ldd3_kernel.Kernel.{done, ◌>>=◌}
use ldd3_kernel.ScullDev.{ScullDev, ScullQset, Quantum}
use ldd3_kernel.ScullDev.Follow.{fetch, slot_at}
use ldd3_kernel.ScullDev.Read.{within_size, within_quantum}
use native.Mathlib.Nat.{mod-lt}
use ldd3_kernel.Int.{sub_ℕ}
use ldd3_kernel.ScullDev.Valid.{IsValid, NodeFits, ArrayFits, QuantumFits}
use ldd3_kernel.ScullDev.Places.{offset, place, IsReachable, block_at, of_array}

-- A read or a write stays within file sizes.
pub record Fits (q s : ℕ) (dev : ScullDev) (count p : ℕ) : Type 0 where
  pub valid : IsValid q s dev
  pub reachable : IsReachable q s p
  pub position_fits : p < long_min_abs
  pub count_fits : count < long_min_abs

pub sub_ℕ-pos : (a b : ℕ) → b ≤ a → sub_ℕ a b ≡ pos (a - b)
sub_ℕ-pos a b h = ground arith

pub within_size-min :
    (dev : ScullDev) (count p : ℕ)
    → p < dev.size
    → dev.size < long_min_abs
    → count < long_min_abs
    → within_size dev (pos p) count ≡ min count (dev.size - p)
within_size-min dev count p h hs hc =
    let e : to_size (pos p) ≡ p = to_size-pos p (omega arith) in rw e (ground arith)

pub within_quantum-min :
    (q s p n : ℕ) (dev : ScullDev)
    → IsValid q s dev
    → within_quantum dev (place q s p) n ≡ min n (q - offset q s p)
within_quantum-min q s p n dev v =
    rw
      (
        v.quantum_is,
        sub_ℕ-pos q (offset q s p) (omega (arith, mod-lt (p % (q * s)) v.quantum_pos)),
        to_int-pos (q - offset q s p) (grind (arith, v.item_fits, v.quantum_pos, v.qset_pos)),
        to_size-pos (q - offset q s p) (grind (arith, v.item_fits, v.quantum_pos, v.qset_pos)),
      )
      (ground arith)

pub fetch-some {ℓ} :
    {A : Type ℓ} (xs : List A) (i : ℕ) (a : A) → get_elem? xs i ≡ some a → fetch xs i ≡ done a
fetch-some xs i a e = rw (e, fetch)

-- In a list that is long enough, the driver's lookup finds what is stored.
find_array :
    (q s : ℕ) (o : Option (List (Option Quantum))) (j : ℕ)
    → ArrayFits q s o
    → j < s
    → (elim o [ none ↦ done none | some arr ↦ slot_at arr (pos j) ]) ≡ done (of_array o j)
find_array q s none j h hj = refl
find_array q s (some arr) j h hj =
    let (a, e) = get_elem?-some arr j (omega (arith, h.0)) in rw (e, fetch, of_array)

pub find_node :
    (q s : ℕ) (qsets : List ScullQset) (i j : ℕ)
    → All (NodeFits q s) qsets
    → i < length qsets
    → j < s
    → (fetch qsets i >>= λ dptr. elim dptr.quanta [
      | none ↦ done none
      | some arr ↦ slot_at arr (pos j)
    ])
      ≡ done (block_at qsets i j)
find_node q s [] i j h hi hj = elim hi [ ]
find_node q s (node ∷ rest) zero j h hi hj = find_array q s node.quanta j h.0 hj
find_node q s (node ∷ rest) (suc i) j h hi hj = find_node q s rest i j h.1 (omega arith) hj

-- A quantum that is there lies inside the list, and has its bytes.
pub block_at-some :
    (q s : ℕ) (qsets : List ScullQset) (i j : ℕ) (block : Quantum)
    → All (NodeFits q s) qsets
    → block_at qsets i j ≡ some block
    → (i < length qsets) × (length block ≡ q)
block_at-some q s [] i j block h e = absurd (cc)
block_at-some q s (node ∷ rest) zero j block h e = (omega arith, in_array node.quanta h.0 e)
  where
    in_place :
        (o : Option (Option Quantum))
        → ((a : Option Quantum) → o ≡ some a → QuantumFits q a)
        → (elim o [ none ↦ none | some a ↦ a ]) ≡ some block
        → length block ≡ q
    in_place none f d = absurd (cc)
    in_place (some none) f d = absurd (cc)
    in_place (some (some b)) f d = ground (arith, f (some b) refl)

    in_array :
        (o : Option (List (Option Quantum)))
        → ArrayFits q s o
        → of_array o j ≡ some block
        → length block ≡ q
    in_array none f d = absurd (cc)
    in_array (some arr) f d =
        in_place (get_elem? arr j) (λ a g. All-get_elem? (QuantumFits q) arr j a f.1 g) d
block_at-some q s (node ∷ rest) (suc i) j block h e =
    let (a, b) = block_at-some q s rest i j block h.1 e in (omega arith, b)
