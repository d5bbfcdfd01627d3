-- ===== src/Scullc/Copies.antt =====
-- The loop over chunks of a read ends, and is one copy.
use ldd3_kernel.Prelude.{
  ℕ, zero, suc, ◌+◌, ◌-◌, ◌≤◌, ◌<◌, ◌≡◌, ◌⊎◌, refl, ap, sym, ◌∙◌, true, false, List, [], ◌++◌,
  Option, none, some, arith, inl, inr, leb, ◌==◌, if◌then◌else◌, length, take, drop, Bool-cases,
  le→leb, length-take, length-drop, drop-drop, take-drop, take-take, take-split, take-all,
}
use mathlib.Core.Path.{ap₂}
use ldd3_kernel.Kernel.{Kernel, done}
use ldd3_kernel.ScullDev.{Quantum}
use ldd3_kernel.Scullc.Chunks.{chunk, send_chunks, after_chunk}

-- How many of the bytes are left when the chunks are offered in order and the first that is not
-- taken ends it
unfoldable pub left_over : ℕ → (ℕ → Kernel) → List ℕ → ℕ → ℕ
left_over zero chunks bytes at = length bytes
left_over (suc fuel) chunks bytes at =
    let n = chunk (length bytes) in
    let later = left_over fuel chunks (drop n bytes) (at + n) in
    if length bytes == 0
    then 0
    else if (chunks at).copy_to_user (take n bytes) == 0
    then later
    else length bytes

abbrev pub answer : ℕ → List ℕ → Option (List ℕ)
answer left bytes = if left == 0 then some bytes else none

after-answer : (left : ℕ) (a b : List ℕ) → after_chunk a (answer left b) ≡ answer left (a ++ b)
after-answer left a b = elim (Bool-cases (left == 0)) [ inl e ↦ rw e refl | inr e ↦ rw e refl ]

pub le-cases : (r n : ℕ) → r ≤ n → (r ≡ n) ⊎ (r < n)
le-cases r n h = ground arith

module _ (chunks : ℕ → Kernel) where
  left_over-nil : (fuel at : ℕ) → left_over fuel chunks [] at ≡ 0
  unfolding left_over
  left_over-nil zero at = refl
  left_over-nil (suc fuel) at = refl

  -- What a chunk takes and leaves of the bytes that are still to go
  module _ (block : Quantum) (o n r : ℕ) (inside : o + n ≤ length block) (more : r < n) where
    abbrev rest : List ℕ
    rest = take (n - r) (drop (o + r) block)

    abbrev now : ℕ
    now = chunk (n - r)

    now_le : now ≤ n - r
    now_le = ground arith

    rest-length : length rest ≡ n - r
    rest-length = omega (arith, length-take (n - r) (drop (o + r) block), length-drop (o + r) block)

    taken_now : take now rest ≡ take now (drop (o + r) block)
    taken_now = take-take now (n - r) (drop (o + r) block) now_le

    left_then : drop now rest ≡ take (n - (r + now)) (drop (o + (r + now)) block)
    left_then =
        ap (λ z. drop now (take z (drop (o + r) block))) (omega (arith, now_le))
        ∙ take-drop now (n - (r + now)) (drop (o + r) block)
        ∙ ap (take (n - (r + now))) (drop-drop now (o + r) block)
        ∙ ap (λ z. take (n - (r + now)) (drop z block)) (omega arith)

    abbrev next : List ℕ
    next = take (n - (r + now)) (drop (o + (r + now)) block)

    joined :
        take now (drop (o + r) block) ++ take (n - (r + now)) (drop (o + (r + now)) block) ≡ rest
    joined =
        ap₂ (λ a b. a ++ b) (sym taken_now) (sym left_then)
        ∙ ap (λ t. take now rest ++ t)
            (sym (
              take-all (n - r - now) (drop now rest)
                (omega (arith, length-drop now rest, rest-length))))
        ∙ take-split now (n - r - now) rest
        ∙ take-all _ rest (omega (arith, rest-length, now_le))

    some_left : (n - r == 0) ≡ false
    some_left = ground arith

    left_step :
        (fuel : ℕ)
        → left_over (suc fuel) chunks rest r ≡ (
            if (chunks r).copy_to_user (take now (drop (o + r) block)) == 0
            then left_over fuel chunks (take (n - (r + now)) (drop (o + (r + now)) block)) (r + now)
            else n - r)
    unfolding left_over
    left_step fuel = rw (rest-length, left_then, taken_now, some_left) refl

    send_step :
        (fuel : ℕ)
        → send_chunks (suc fuel) chunks block o n (r + now)
          ≡ done (
              answer
                (left_over fuel chunks
                  (take (n - (r + now)) (drop (o + (r + now)) block))
                  (r + now))
                (take (n - (r + now)) (drop (o + (r + now)) block)))
        → send_chunks (suc (suc fuel)) chunks block o n r
          ≡ done (answer (left_over (suc fuel) chunks rest r) rest)
    unfolding send_chunks
    send_step fuel h =
        rw (going_on, inside_block, left_step fuel)
          (elim (Bool-cases ((chunks r).copy_to_user (take now (drop (o + r) block)) == 0)) [
            | inl sent ↦
                rw (sent, h)
                  (ap done (
                    after-answer (left_over fuel chunks next (r + now))
                      (take now (drop (o + r) block)) next
                    ∙ ap (answer (left_over fuel chunks next (r + now))) joined))
            | inr refused ↦ rw (refused, some_left) refl
          ])
      where
        going_on : (r == n) ≡ false
        going_on = ground arith

        inside_block : leb (o + r + now) (length block) ≡ true
        inside_block = le→leb (o + r + now) (length block) (omega (arith, now_le))

  at_end :
      (fuel : ℕ) (block : Quantum) (o n r : ℕ)
      → r ≡ n
      → send_chunks (suc fuel) chunks block o n r
        ≡ done (
            answer
              (left_over fuel chunks (take (n - r) (drop (o + r) block)) r)
              (take (n - r) (drop (o + r) block)))
  unfolding send_chunks
  at_end fuel block o n r over =
      let here : (r == n) ≡ true = ground arith in
      let nothing : n - r ≡ 0 = omega arith in rw (here, nothing, left_over-nil fuel r) refl

  -- With fuel for each byte, the loop ends, and has sent all bytes or has failed.
  pub send_chunks_lem :
      (fuel : ℕ) (block : Quantum) (o n r : ℕ)
      → o + n ≤ length block
      → r ≤ n
      → n - r ≤ fuel
      → let bytes = take (n - r) (drop (o + r) block) in
        send_chunks (suc fuel) chunks block o n r
        ≡ done (answer (left_over fuel chunks bytes r) bytes)
  send_chunks_lem zero block o n r inside le f = at_end zero block o n r (omega arith)
  send_chunks_lem (suc fuel) block o n r inside le f =
      let later : r + chunk (n - r) ≤ n
          → n - (r + chunk (n - r)) ≤ fuel
          → send_chunks (suc fuel) chunks block o n (r + chunk (n - r))
            ≡ done (
                answer
                  (left_over fuel chunks
                    (take (n - (r + chunk (n - r))) (drop (o + (r + chunk (n - r))) block))
                    (r + chunk (n - r)))
                  (take (n - (r + chunk (n - r))) (drop (o + (r + chunk (n - r))) block))) =
        send_chunks_lem fuel block o n (r + chunk (n - r)) inside in
      elim (le-cases r n le) [
        | inl over ↦ at_end (suc fuel) block o n r over
        | inr more ↦ send_step block o n r inside more fuel (later (ground arith) (ground arith))
      ]
