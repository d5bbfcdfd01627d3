-- ===== src/Scullc/Receiving.antt =====
-- The loop over chunks of a write ends, and is one copy.
use ldd3_kernel.Prelude.{
  ℕ, zero, suc, ◌+◌, ◌-◌, ◌≤◌, ◌<◌, ◌≡◌, refl, ap, ◌∙◌, true, false, not, List, [], ◌++◌, arith,
  inl, inr, leb, ◌==◌, if◌then◌else◌, if_cases, length, take, drop, overwrite, Bool-cases,
  length-take, length-drop, drop-drop, take-split, overwrite-nil, overwrite-append, length-append,
  length-overwrite,
}
use ldd3_kernel.Kernel.{Kernel, IsLawful, done}
use ldd3_kernel.ScullDev.{Quantum}
use ldd3_kernel.Scullc.Chunks.{chunk, receive_chunks}
use ldd3_kernel.Scullc.Copies.{le-cases}

-- What the chunks that are had before the first that fails leave at the destination, and how many
-- bytes are left, all of them if one fails
unfoldable pub received : ℕ → (ℕ → Kernel) → List ℕ → ℕ → ℕ → List ℕ × ℕ
received zero chunks buf n at = ([], n)
received (suc fuel) chunks buf n at =
    let m = chunk n in
    let tmp = (chunks at).copy_from_user buf m in
    let later = received fuel chunks (drop m buf) (n - m) (at + m) in
    if n == 0 then ([], 0) else if tmp.1 == 0 then (tmp.0 ++ later.0, later.1) else ([], n)

-- A copy of `n` bytes of the user's buffer, as the kernel promises it.
abbrev IsCopy : List ℕ → ℕ → List ℕ × ℕ → Type 0
IsCopy buf n out = (length out.0 ≤ n) × (out.1 ≡ 0 → out.0 ≡ take n buf)

IsCopy-nothing : (buf : List ℕ) (n : ℕ) → IsCopy buf n ([], n)
IsCopy-nothing buf n = (omega arith, λ e. rw e refl)

module _ (chunks : ℕ → Kernel) (lawful : (at : ℕ) → IsLawful (chunks at)) where
  got :
      (at : ℕ) (buf : List ℕ) (m : ℕ)
      → m ≤ length buf
      → ((chunks at).copy_from_user buf m).1 == 0 ≡ true
      → ((chunks at).copy_from_user buf m).0 ≡ take m buf
  got at buf m h e = (lawful at).copied_all buf m h (ground arith)

  joined :
      (at : ℕ) (buf : List ℕ) (n : ℕ) (later : List ℕ × ℕ)
      → n ≤ length buf
      → IsCopy (drop (chunk n) buf) (n - chunk n) later
      → ((chunks at).copy_from_user buf (chunk n)).0 ≡ take (chunk n) buf
      → IsCopy buf n (((chunks at).copy_from_user buf (chunk n)).0 ++ later.0, later.1)
  joined at buf n later h after e = (
    rw e (
        ground
          (arith, length-append (take (chunk n) buf) later.0, length-take (chunk n) buf, after.0)),
    λ z.
        rw (e, after.1 z) (take-split (chunk n) (n - chunk n) buf ∙ ap (λ i. take i buf) (whole n)),
  )
    where
      whole : (n : ℕ) → chunk n + (n - chunk n) ≡ n
      whole n = ground arith

  pub received-IsCopy :
      (fuel : ℕ) (buf : List ℕ) (n at : ℕ)
      → n ≤ length buf
      → IsCopy buf n (received fuel chunks buf n at)
  unfolding received
  received-IsCopy zero buf n at h = IsCopy-nothing buf n
  received-IsCopy (suc fuel) buf n at h =
      if_cases (IsCopy buf n) (n == 0) (λ e. ground arith)
        λ some_n.
          if_cases (IsCopy buf n) (((chunks at).copy_from_user buf (chunk n)).1 == 0)
            (λ e.
              joined at buf n
                (received fuel chunks (drop (chunk n) buf) (n - chunk n) (at + chunk n)) h
                (received-IsCopy fuel (drop (chunk n) buf) (n - chunk n) (at + chunk n)
                  (ground (arith, length-drop (chunk n) buf)))
                (got at buf (chunk n) (ground arith) e))
            (λ e. IsCopy-nothing buf n)

  -- The chunks from `w` on, into the quantum
  module _ (block : Quantum) (o n w : ℕ) (buf : List ℕ) (inside : o + n ≤ length block)
      (given : n ≤ length buf) (more : w < n) where
    abbrev now : ℕ
    now = chunk (n - w)

    abbrev tmp : List ℕ × ℕ
    tmp = (chunks w).copy_from_user (drop w buf) now

    tmp_length : tmp.1 == 0 ≡ true → length tmp.0 ≡ now
    tmp_length e =
        ap length (got w (drop w buf) now (ground (arith, length-drop w buf)) e)
        ∙ length-take now (drop w buf)
        ∙ ground (arith, length-drop w buf)

    abbrev after_tmp : ℕ → List ℕ × ℕ
    after_tmp fuel = received fuel chunks (drop (w + now) buf) (n - (w + now)) (w + now)

    received-tmp :
        (fuel : ℕ)
        → received (suc fuel) chunks (drop w buf) (n - w) w
          ≡ (if tmp.1 == 0 then (tmp.0 ++ (after_tmp fuel).0, (after_tmp fuel).1) else ([], n - w))
    unfolding received
    received-tmp fuel =
        let some_left : (n - w == 0) ≡ false = ground arith in
        let less : n - w - now ≡ n - (w + now) = omega arith in
        rw (some_left, drop-drop now w buf, less) refl

    receive_step :
        (g fuel : ℕ)
        → (length (overwrite block (o + w) tmp.0) ≡ length block
            → receive_chunks g chunks (overwrite block (o + w) tmp.0) o buf n (w + now)
              ≡ done (
                overwrite (overwrite block (o + w) tmp.0) (o + (w + now)) (after_tmp fuel).0,
                not ((after_tmp fuel).1 == 0),
              ))
        → receive_chunks (suc g) chunks block o buf n w
          ≡ done (
            overwrite block (o + w) (received (suc fuel) chunks (drop w buf) (n - w) w).0,
            not ((received (suc fuel) chunks (drop w buf) (n - w) w).1 == 0),
          )
    unfolding receive_chunks
    receive_step g fuel h =
        rw (going_on, received-tmp fuel)
          (elim (Bool-cases (tmp.1 == 0)) [
            | inl taken ↦
                rw (taken, inside_block, h (same_length taken))
                  (ap (λ b. done (b, not ((after_tmp fuel).1 == 0))) (one_write taken))
            | inr refused ↦ rw (refused, some_left, overwrite-nil block (o + w)) refl
          ])
      where
        going_on : (w == n) ≡ false
        going_on = ground arith

        some_left : (n - w == 0) ≡ false
        some_left = ground arith

        inside_block : leb (o + w + now) (length block) ≡ true
        inside_block = ground arith

        same_length : tmp.1 == 0 ≡ true → length (overwrite block (o + w) tmp.0) ≡ length block
        same_length taken = length-overwrite block (o + w) tmp.0 (ground (arith, tmp_length taken))

        one_write :
            tmp.1 == 0 ≡ true
            → overwrite (overwrite block (o + w) tmp.0) (o + (w + now)) (after_tmp fuel).0
              ≡ overwrite block (o + w) (tmp.0 ++ (after_tmp fuel).0)
        one_write taken =
            ap (λ i. overwrite (overwrite block (o + w) tmp.0) i (after_tmp fuel).0) (place taken)
            ∙ overwrite-append block (o + w) tmp.0 (after_tmp fuel).0
                (ground (arith, tmp_length taken))
          where
            place : tmp.1 == 0 ≡ true → o + (w + now) ≡ o + w + length tmp.0
            place taken = omega (arith, tmp_length taken)

  received_none : (fuel : ℕ) (buf : List ℕ) (at : ℕ) → received fuel chunks buf 0 at ≡ ([], 0)
  unfolding received
  received_none zero buf at = refl
  received_none (suc fuel) buf at = refl

  at_end :
      (fuel : ℕ) (block : Quantum) (o : ℕ) (buf : List ℕ) (n w : ℕ)
      → w ≡ n
      → receive_chunks (suc fuel) chunks block o buf n w
        ≡ done (
          overwrite block (o + w) (received fuel chunks (drop w buf) (n - w) w).0,
          not ((received fuel chunks (drop w buf) (n - w) w).1 == 0),
        )
  unfolding receive_chunks
  at_end fuel block o buf n w over =
      let here : (w == n) ≡ true = ground arith in
      let nothing : n - w ≡ 0 = omega arith in
      rw (here, nothing, received_none fuel (drop w buf) w, overwrite-nil block (o + w)) refl

  -- With fuel for each byte, the loop ends, and has taken all bytes or has failed.
  pub receive_chunks_lem :
      (fuel : ℕ) (block : Quantum) (o : ℕ) (buf : List ℕ) (n w : ℕ)
      → o + n ≤ length block
      → n ≤ length buf
      → w ≤ n
      → n - w ≤ fuel
      → receive_chunks (suc fuel) chunks block o buf n w
        ≡ done (
          overwrite block (o + w) (received fuel chunks (drop w buf) (n - w) w).0,
          not ((received fuel chunks (drop w buf) (n - w) w).1 == 0),
        )
  receive_chunks_lem zero block o buf n w inside given le f =
      at_end zero block o buf n w (omega arith)
  receive_chunks_lem (suc fuel) block o buf n w inside given le f = elim (le-cases w n le) [
    | inl over ↦ at_end (suc fuel) block o buf n w over
    | inr more ↦ receive_step block o n w buf inside given more (suc fuel) fuel λ same.
        receive_chunks_lem fuel
          (overwrite block (o + w) ((chunks w).copy_from_user (drop w buf) (chunk (n - w))).0) o buf
          n (w + chunk (n - w)) (omega (arith, inside, same)) given (ground arith) (ground arith)
  ]
