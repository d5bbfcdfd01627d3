-- ===== src/ScullPipe/Advance.antt =====
-- A read takes its bytes off the queue.
use ldd3_kernel.Prelude.{
  ℕ, ◌+◌, ◌-◌, ◌≤◌, ◌<◌, ◌≡◌, ◌≢◌, refl, sym, ap, ◌∙◌, inl, inr, List, arith, min, length, take,
  drop, ◌++◌, ltb, ◌==◌, if◌then◌else◌, get_elem?, get_elem?-take, get_elem?-drop,
  get_elem?-append_left, get_elem?-append_right, length-append, length-take, length-drop, list_ext,
  Bool-cases,
}
use ldd3_kernel.Int.{pos, to_size-pos, sub_ℕ, size_mod}
use ldd3_kernel.ScullPipe.{ScullPipe, span}
use ldd3_kernel.ScullPipe.Read.{readable}
use ldd3_kernel.ScullPipe.Contents.{IsValid, queued, queue, length-queue, get_elem?-queue}

-- The bytes up to the next break: `c` of `count`.
abbrev pub chunk : ℕ → ℕ → ℕ → ℕ → ℕ
chunk n rp wp count = if ltb rp wp then min count (wp - rp) else min count (n - rp)

abbrev pub step : ℕ → ℕ → ℕ → ℕ
step n p c = if p + c == n then 0 else p + c

pub span-pos : (a b : ℕ) → b ≤ a → a < size_mod → span a b ≡ a - b
span-pos a b h l = rw (sub-pos) (to_size-pos (a - b) (omega arith))
  where
    sub-pos : sub_ℕ a b ≡ pos (a - b)
    sub-pos = ground arith

pub readable_lem :
    {n : ℕ} {dev : ScullPipe} (count : ℕ)
    → IsValid n dev
    → readable dev count ≡ chunk n dev.rp dev.wp count
readable_lem {n} {dev} count v = elim (Bool-cases (ltb dev.rp dev.wp)) [
  | inl h ↦ rw (h, span-pos dev.wp dev.rp (ground arith) (omega arith)) refl
  | inr h ↦
      rw (h, span-pos dev.end dev.rp (omega arith) (omega arith))
        (ap (λ e. min count (e - dev.rp)) v.end_is)
]

module _ (n : ℕ) (bytes : List ℕ) (rp wp count : ℕ) (l : length bytes ≡ n) (r : rp < n) (w : wp < n)
    (ne : rp ≢ wp) where
  -- The bytes that are taken off the queue are those at `rp`.
  pub queue_split :
      let c = chunk n rp wp count in
      queue bytes rp wp ≡ take c (drop rp bytes) ++ queue bytes (step n rp c) wp
  queue_split =
      list_ext (queue bytes rp wp) (taken ++ rest) lengths
        λ j lt. at j (omega (arith, length-queue n bytes rp wp l r w, lt))
    where
      c : ℕ
      c = chunk n rp wp count

      taken : List ℕ
      taken = take c (drop rp bytes)

      rest : List ℕ
      rest = queue bytes (step n rp c) wp

      next_in : step n rp c < n
      next_in = ground arith

      taken_length : length taken ≡ c
      taken_length = ground (arith, length-take c (drop rp bytes), length-drop rp bytes)

      rest_length : queued n rp wp ≡ c + queued n (step n rp c) wp
      rest_length = ground arith

      lengths : length (queue bytes rp wp) ≡ length (taken ++ rest)
      lengths = omega (
        arith,
        length-queue n bytes rp wp l r w,
        length-append taken rest,
        taken_length,
        rest_length,
        length-queue n bytes (step n rp c) wp l next_in w,
      )

      at :
          (j : ℕ)
          → j < queued n rp wp
          → get_elem? (queue bytes rp wp) j ≡ get_elem? (taken ++ rest) j
      at j lt = elim (Bool-cases (ltb j c)) [
        | inl first ↦
            get_elem?-queue n bytes rp wp l r w j lt
            ∙ ap (get_elem? bytes) (ground arith)
            ∙ sym (
                get_elem?-append_left taken rest j (ground (arith, taken_length))
                ∙ get_elem?-take c (drop rp bytes) j (ground arith)
                ∙ get_elem?-drop rp bytes j)
        | inr later ↦
            get_elem?-queue n bytes rp wp l r w j lt
            ∙ ap (get_elem? bytes) (ground arith)
            ∙ sym (
                get_elem?-append_right taken rest j (ground (arith, taken_length))
                ∙ ap (get_elem? rest) (ap (λ z. j - z) taken_length)
                ∙ get_elem?-queue n bytes (step n rp c) wp l next_in w (j - c)
                    (ground (arith, rest_length)))
      ]
