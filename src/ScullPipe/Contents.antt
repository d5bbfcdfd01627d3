-- ===== src/ScullPipe/Contents.antt =====
-- What a valid pipe holds: the queue of the bytes between `rp` and `wp`.
use ldd3_kernel.Prelude.{
  ℕ, ◌+◌, ◌-◌, ◌%◌, false, ◌≤◌, ◌<◌, ◌≡◌, refl, List, [], Option, none, some, arith, length, take,
  drop, leb, ltb, if◌then◌else◌, ◌++◌, get_elem?, length-append, length-take, length-drop,
  get_elem?-append_left, get_elem?-append_right, get_elem?-take, get_elem?-drop, Bool-cases, inl,
  inr, ◌∙◌, ap, ◌==◌, ltb, lt→ltb, le→leb, lt→leb,
}
use native.Mathlib.Nat.{mod-eq_of_lt, mod-eq-sub-mod}
use ldd3_kernel.Int.{
  int_min_abs, pos, to_int, to_int-pos, div_checked, div_checked-pos, sub_ℕ, ◌-ℤ◌,
}
use ldd3_kernel.Kernel.{done, fault, divide_error}
use ldd3_kernel.ScullPipe.{ScullPipe, spacefree, lock, unlock}

-- The buffer has `n` bytes, and the pointers lie in it.
pub record IsValid (n : ℕ) (dev : ScullPipe) : Type 0 where
  pub bytes : List ℕ
  pub buffer_is : dev.buffer ≡ some bytes
  pub length_is : length bytes ≡ n
  pub end_is : dev.end ≡ n
  pub buffersize_is : dev.buffersize ≡ n
  pub rp_in : dev.rp < n
  pub wp_in : dev.wp < n
  pub large : 1 < n
  pub small : n < int_min_abs

-- How many bytes lie from `rp` to `wp`, going round.
abbrev pub queued : ℕ → ℕ → ℕ → ℕ
queued n rp wp = if leb rp wp then wp - rp else n - rp + wp

-- The bytes themselves
abbrev pub queue : List ℕ → ℕ → ℕ → List ℕ
queue bytes rp wp =
    if leb rp wp then take (wp - rp) (drop rp bytes) else drop rp bytes ++ take wp bytes

-- The offset `j` places behind `p`
abbrev pub behind : ℕ → ℕ → ℕ → ℕ
behind n p j = if ltb (p + j) n then p + j else p + j - n

module _ (n : ℕ) (bytes : List ℕ) (rp wp : ℕ) (l : length bytes ≡ n) (r : rp < n) (w : wp < n) where
  pub length-queue : length (queue bytes rp wp) ≡ queued n rp wp
  length-queue = ground (
    arith,
    length-append (drop rp bytes) (take wp bytes),
    length-take wp bytes,
    length-drop rp bytes,
    length-take (wp - rp) (drop rp bytes),
  )

  get_elem?-straight :
      rp ≤ wp
      → (j : ℕ) → j < wp - rp
      → get_elem? (queue bytes rp wp) j ≡ get_elem? bytes (behind n rp j)
  get_elem?-straight h j lt =
      rw (le→leb rp wp h, lt→ltb (rp + j) n (omega arith))
        (get_elem?-take (wp - rp) (drop rp bytes) j lt ∙ get_elem?-drop rp bytes j)

  get_elem?-round :
      wp < rp
      → (j : ℕ) → j < n - rp + wp
      → get_elem? (queue bytes rp wp) j ≡ get_elem? bytes (behind n rp j)
  get_elem?-round h j lt = elim (Bool-cases (ltb (rp + j) n)) [
    | inl first ↦
        rw (lt→leb rp wp h, first)
          (get_elem?-append_left (drop rp bytes) (take wp bytes) j
              (ground (arith, length-drop rp bytes))
            ∙ get_elem?-drop rp bytes j)
    | inr second ↦
        rw (lt→leb rp wp h, second)
          (get_elem?-append_right (drop rp bytes) (take wp bytes) j
              (ground (arith, length-drop rp bytes))
            ∙ get_elem?-take wp bytes (j - length (drop rp bytes))
                (ground (arith, length-drop rp bytes))
            ∙ ap (get_elem? bytes) (ground (arith, length-drop rp bytes)))
  ]

  pub get_elem?-queue :
      (j : ℕ)
      → j < queued n rp wp
      → get_elem? (queue bytes rp wp) j ≡ get_elem? bytes (behind n rp j)
  get_elem?-queue j lt = elim (Bool-cases (leb rp wp)) [
    | inl yes' ↦ get_elem?-straight (ground arith) j (ground arith)
    | inr no' ↦ get_elem?-round (ground arith) j (ground arith)
  ]

-- Equal pointers mean that there is nothing.
pub queue_empty : (bytes : List ℕ) (rp wp : ℕ) → rp ≡ wp → queue bytes rp wp ≡ []
queue_empty bytes rp wp e =
    let none_left : wp - rp ≡ 0 = omega arith in rw (le→leb rp wp (omega arith), none_left) refl

abbrev pub of_buffer : Option (List ℕ) → ℕ → ℕ → List ℕ
of_buffer none rp wp = []
of_buffer (some bytes) rp wp = queue bytes rp wp

-- What the pipe holds, oldest byte first
abbrev pub contents : ScullPipe → List ℕ
contents dev = of_buffer dev.buffer dev.rp dev.wp

pub contents-queue :
    {n : ℕ} {dev : ScullPipe} (v : IsValid n dev) → contents dev ≡ queue v.bytes dev.rp dev.wp
contents-queue {n} {dev} v = ap (λ b. of_buffer b dev.rp dev.wp) v.buffer_is

sub-pos : (a b : ℕ) → b ≤ a → sub_ℕ a b ≡ pos (a - b)
sub-pos a b h = ground arith

-- A full pipe still has one unused place.
pub spacefree_lem :
    {n : ℕ} {dev : ScullPipe}
    → IsValid n dev
    → spacefree dev ≡ done (pos (n - 1 - queued n dev.rp dev.wp))
unfolding spacefree
spacefree_lem {n} {dev} v = rw v.buffersize_is (free dev.rp dev.wp v.rp_in v.wp_in)
  where
    around :
        (rp wp : ℕ)
        → rp < n
        → wp < n
        → (rp == wp) ≡ false
        → (1 ≤ (rp + n - wp) % n)
          × ((rp + n - wp) % n - 1 < int_min_abs)
          × ((rp + n - wp) % n - 1 ≡ n - 1 - queued n rp wp)
    around rp wp r w other = elim (Bool-cases (leb rp wp)) [
      | inl le ↦ rw (le, mod-eq_of_lt {n = rp + n - wp} {m = n} (ground arith)) (ground arith)
      | inr gt ↦
          rw
            (
              gt,
              mod-eq-sub-mod {n = rp + n - wp} {m = n} (ground arith),
              mod-eq_of_lt {n = rp + n - wp - n} {m = n} (ground arith),
            )
            (ground arith)
    ]

    free :
        (rp wp : ℕ)
        → rp < n
        → wp < n
        → (if rp == wp
            then done (to_int (pos n -ℤ pos 1))
            else elim (div_checked (sub_ℕ (rp + n) wp) (pos n)) [
              | none ↦ fault divide_error
              | some r ↦ done (to_int (r.1 -ℤ pos 1))
            ])
          ≡ done (pos (n - 1 - queued n rp wp))
    free rp wp r w = elim (Bool-cases (rp == wp)) [
      | inl same ↦
          rw (same, sub-pos n 1 (omega arith), to_int-pos (n - 1) (omega arith))
            (ap (λ z. done (pos z)) (ground arith))
      | inr other ↦
          rw
            (
              other,
              sub-pos (rp + n) wp (omega arith),
              div_checked-pos (rp + n - wp) n (omega arith),
              sub-pos ((rp + n - wp) % n) 1 (around rp wp r w other).0,
              to_int-pos ((rp + n - wp) % n - 1) (around rp wp r w other).1,
            )
            (ap (λ z. done (pos z)) (around rp wp r w other).2)
    ]

pub unlocked-IsValid : {n : ℕ} {dev : ScullPipe} → IsValid n dev → IsValid n (unlock dev)
unlocked-IsValid v = record {
  bytes = v.bytes;
  buffer_is = v.buffer_is;
  length_is = v.length_is;
  end_is = v.end_is;
  buffersize_is = v.buffersize_is;
  rp_in = v.rp_in;
  wp_in = v.wp_in;
  large = v.large;
  small = v.small;
}

pub locked-IsValid : {n : ℕ} {dev : ScullPipe} → IsValid n dev → IsValid n (lock dev)
locked-IsValid v = record {
  bytes = v.bytes;
  buffer_is = v.buffer_is;
  length_is = v.length_is;
  end_is = v.end_is;
  buffersize_is = v.buffersize_is;
  rp_in = v.rp_in;
  wp_in = v.wp_in;
  large = v.large;
  small = v.small;
}
