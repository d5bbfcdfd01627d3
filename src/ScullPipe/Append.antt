-- ===== src/ScullPipe/Append.antt =====
-- A write puts its bytes at the end of the queue.
use ldd3_kernel.Prelude.{
  ℕ, ◌+◌, ◌-◌, ◌≤◌, ◌<◌, ◌≡◌, sym, ap, ◌∙◌, inl, inr, List, arith, min, length, ◌++◌, leb, ltb,
  if◌then◌else◌, get_elem?, overwrite, length-overwrite, get_elem?-overwrite_in,
  get_elem?-overwrite_below, get_elem?-overwrite_above, get_elem?-append_left,
  get_elem?-append_right, length-append, list_ext, Bool-cases, ltb→lt, ltb→le,
}
use ldd3_kernel.ScullPipe.Contents.{queued, queue, behind, length-queue, get_elem?-queue}
use ldd3_kernel.ScullPipe.Advance.{step}

-- How many bytes of `count` go into the free part without a break
abbrev pub fit : ℕ → ℕ → ℕ → ℕ → ℕ
fit n rp wp count =
    let m = min count (n - 1 - queued n rp wp) in
    if leb rp wp then min m (n - wp) else min m (rp - wp - 1)

module _ (n : ℕ) (bytes src : List ℕ) (rp wp count : ℕ) (l : length bytes ≡ n) (r : rp < n)
    (w : wp < n) (ls : length src ≤ fit n rp wp count) where
  abbrev stored : List ℕ
  stored = overwrite bytes wp src

  inside : wp + length src ≤ length bytes
  inside = ground arith

  pub length-stored : length stored ≡ n
  length-stored = length-overwrite bytes wp src inside ∙ l

  -- The places of the queue are not written to.
  kept :
      (j : ℕ)
      → j < queued n rp wp
      → get_elem? stored (behind n rp j) ≡ get_elem? bytes (behind n rp j)
  kept j lt = elim (Bool-cases (ltb (behind n rp j) wp)) [
    | inl below ↦
        get_elem?-overwrite_below bytes wp src (behind n rp j) (omega arith) (ground arith)
    | inr above ↦
        get_elem?-overwrite_above bytes wp src (behind n rp j) (omega arith) (ground arith)
  ]

  pub queue_kept : queue stored rp wp ≡ queue bytes rp wp
  queue_kept =
      list_ext (queue stored rp wp) (queue bytes rp wp)
        (length-queue n stored rp wp length-stored r w ∙ sym (length-queue n bytes rp wp l r w))
        λ j lt. at j (omega (arith, length-queue n stored rp wp length-stored r w, lt))
    where
      at :
          (j : ℕ)
          → j < queued n rp wp
          → get_elem? (queue stored rp wp) j ≡ get_elem? (queue bytes rp wp) j
      at j lt =
          get_elem?-queue n stored rp wp length-stored r w j lt
          ∙ kept j lt
          ∙ sym (get_elem?-queue n bytes rp wp l r w j lt)

module _ (n : ℕ) (bytes src : List ℕ) (rp wp count : ℕ) (l : length bytes ≡ n) (r : rp < n)
    (w : wp < n) (ls : length src ≡ fit n rp wp count) where
  at_most : length src ≤ fit n rp wp count
  at_most = omega (arith, ls)

  abbrev all_stored : List ℕ
  all_stored = overwrite bytes wp src

  length_lem : length all_stored ≡ n
  length_lem = length-stored n bytes src rp wp count l r w at_most

  abbrev next : ℕ
  next = step n wp (fit n rp wp count)

  pub next_in : next < n
  next_in = ground arith

  queued_more : queued n rp next ≡ queued n rp wp + length src
  queued_more = ground arith

  added :
      (j : ℕ)
      → queued n rp wp ≤ j
      → j < queued n rp next
      → get_elem? all_stored (behind n rp j) ≡ get_elem? src (j - queued n rp wp)
  added j le lt =
      ap (get_elem? all_stored) at_place
      ∙ get_elem?-overwrite_in bytes wp src (j - queued n rp wp) (omega arith)
          (omega (arith, queued_more))
    where
      at_place : behind n rp j ≡ wp + (j - queued n rp wp)
      at_place = ground (arith, queued_more)

  pub queue_append : queue all_stored rp next ≡ queue bytes rp wp ++ src
  queue_append =
      list_ext (queue all_stored rp next) (queue bytes rp wp ++ src)
        (omega (
          arith,
          length-queue n all_stored rp next length_lem r next_in,
          queued_more,
          length-append (queue bytes rp wp) src,
          length-queue n bytes rp wp l r w,
        ))
        λ j lt. at j (omega (arith, length-queue n all_stored rp next length_lem r next_in, lt))
    where
      at :
          (j : ℕ)
          → j < queued n rp next
          → get_elem? (queue all_stored rp next) j ≡ get_elem? (queue bytes rp wp ++ src) j
      at j lt = elim (Bool-cases (ltb j (queued n rp wp))) [
        | inl old ↦
            get_elem?-queue n all_stored rp next length_lem r next_in j lt
            ∙ kept n bytes src rp wp count l r w at_most j (ground arith)
            ∙ sym (
                get_elem?-append_left (queue bytes rp wp) src j
                  (omega (arith, length-queue n bytes rp wp l r w, ltb→lt j (queued n rp wp) old))
                ∙ get_elem?-queue n bytes rp wp l r w j (ground arith))
        | inr new ↦
            get_elem?-queue n all_stored rp next length_lem r next_in j lt
            ∙ added j (ground arith) lt
            ∙ sym (
                get_elem?-append_right (queue bytes rp wp) src j
                  (omega (arith, length-queue n bytes rp wp l r w, ltb→le j (queued n rp wp) new))
                ∙ ap (λ z. get_elem? src (j - z)) (length-queue n bytes rp wp l r w))
      ]
