-- ===== src/ScullPipe/TakeData.antt =====
-- The part of scull_pipe_read behind its loop, which takes the bytes.
use ldd3_kernel.Prelude.{
  ℕ, ◌+◌, ◌≤◌, ◌<◌, ◌≡◌, ◌≢◌, refl, sym, ap, ◌∙◌, inl, inr, true, false, List, [], ◌∷◌, arith,
  length, take, drop, ◌++◌, ◌==◌, if◌then◌else◌, length-take, length-drop, Bool-cases, le→leb,
}
use ldd3_kernel.Kernel.{Kernel, ok, err, efault, done}
use ldd3_kernel.ScullPipe.{ScullPipe, Ended, asleep, returned, wake_writers, unlock}
use ldd3_kernel.ScullPipe.Read.{bytes_from, advance, take_data}
use ldd3_kernel.ScullPipe.Contents.{
  IsValid, queue, queued, queue_empty, contents, length-queue, contents-queue,
}
use ldd3_kernel.ScullPipe.Advance.{chunk, step, readable_lem, queue_split}
use ldd3_kernel.Sleep.{goes_on}
use ldd3_kernel.ScullPipe.Waiting.{Replies}

-- What a read of `count` bytes promises that last found the device as `dev`.
abbrev pub ReadResult : ℕ → ℕ → ScullPipe → Ended (ℕ × List ℕ) → Type 0
ReadResult n count dev (asleep dev') = (contents dev ≡ []) × (dev' ≡ unlock dev)
ReadResult n count dev (returned dev' (ok (m, bytes)) events) =
    (contents dev ≡ bytes ++ contents dev')
    × (length bytes ≡ m)
    × (m ≤ count)
    × (0 < count → 0 < m)
    × IsValid n dev'
    × (dev'.mutex ≡ false)
    × (events ≡ wake_writers ∷ [])
ReadResult n count dev (returned dev' (err e) events) = (dev' ≡ unlock dev) × (events ≡ [])

-- The copy to the user behind a reply is complete.
abbrev pub GoodCopy : Kernel → ℕ × List ℕ → Type 0
GoodCopy k (m, bytes) = k.copy_to_user bytes ≡ 0

-- The copy of the oldest bytes to the user fails.
abbrev pub BadCopy : Kernel → ScullPipe → Type 0
BadCopy k dev =
    (bytes : List ℕ) × (rest : List ℕ) × (contents dev ≡ bytes ++ rest) × (k.copy_to_user bytes ≢ 0)

abbrev pub IsEmpty : ScullPipe → Type 0
IsEmpty dev = contents dev ≡ []

module _ (k : Kernel) (n : ℕ) (dev : ScullPipe) (count : ℕ) (v : IsValid n dev) where
  open v use {bytes}

  abbrev c : ℕ
  c = chunk n dev.rp dev.wp count

  abbrev got : List ℕ
  got = take c (drop dev.rp bytes)

  abbrev after : ScullPipe
  after = unlock (record dev { rp = advance dev dev.rp c })

  advance_lem : advance dev dev.rp c ≡ step n dev.rp c
  advance_lem = ap (λ e. if dev.rp + c == e then 0 else dev.rp + c) v.end_is

  abbrev after-IsValid : IsValid n after
  after-IsValid = record {
    bytes = bytes;
    buffer_is = v.buffer_is;
    length_is = v.length_is;
    end_is = v.end_is;
    buffersize_is = v.buffersize_is;
    rp_in = rw advance_lem (ground (arith, v.rp_in, v.wp_in));
    wp_in = v.wp_in;
    large = v.large;
    small = v.small;
  }

  bytes_there : bytes_from dev.buffer dev.rp c ≡ done got
  unfolding bytes_from
  bytes_there =
      ap (λ b. bytes_from b dev.rp c) v.buffer_is
      ∙ rw (le→leb (dev.rp + c) (length bytes) (ground (arith, v.length_is, v.rp_in, v.wp_in))) refl

  split : dev.rp ≢ dev.wp → contents dev ≡ got ++ contents after
  split ne =
      contents-queue v
      ∙ queue_split n bytes dev.rp dev.wp count v.length_is v.rp_in v.wp_in ne
      ∙ ap (λ z. got ++ queue bytes z dev.wp) (sym advance_lem)
      ∙ ap (λ z. got ++ z) (sym (contents-queue after-IsValid))

  -- With data there a read takes the oldest bytes, or fails in the copy and takes none.
  pub take_data_lem :
      dev.rp ≢ dev.wp
      → (out : Ended (ℕ × List ℕ)) × (take_data k dev count ≡ done out)
        × Replies (GoodCopy k) (BadCopy k dev) goes_on out
        × ReadResult n count dev out
  unfolding take_data
  take_data_lem ne = elim (Bool-cases (k.copy_to_user got == 0)) [
    | inl copied ↦ (
      returned after (ok (c, got)) (wake_writers ∷ []),
      rw (readable_lem count v, bytes_there, copied) refl,
      ground (arith, copied),
      (
        split ne,
        ground (
          arith,
          length-take c (drop dev.rp bytes),
          length-drop dev.rp bytes,
          v.length_is,
          v.rp_in,
          v.wp_in,
        ),
        ground arith,
        λ some_count. ground (arith, v.rp_in, v.wp_in),
        after-IsValid,
        refl,
        refl,
      ),
    )
    | inr failed ↦ (
      returned (unlock dev) (err efault) [],
      rw (readable_lem count v, bytes_there, failed) refl,
      (refl, (got, contents after, split ne, λ e. ground (arith, failed))),
      (refl, refl),
    )
  ]

  -- With a copy that completes it takes them.
  pub take_data_answers :
      k.copy_to_user got ≡ 0
      → take_data k dev count ≡ done (returned after (ok (c, got)) (wake_writers ∷ []))
  unfolding take_data
  take_data_answers copied = rw (readable_lem count v, bytes_there, copied) refl

  pub contents_empty : (dev.rp == dev.wp) ≡ true → contents dev ≡ []
  contents_empty e = contents-queue v ∙ queue_empty bytes dev.rp dev.wp (ground arith)

  pub contents_some : (dev.rp == dev.wp) ≡ false → contents dev ≢ []
  contents_some ne e =
      let l : length (contents dev) ≡ queued n dev.rp dev.wp =
        ap length (contents-queue v)
        ∙ length-queue n bytes dev.rp dev.wp v.length_is v.rp_in v.wp_in in
      let none_there : length (contents dev) ≡ 0 = ap length e in
      ground (arith, l, none_there, v.rp_in, v.wp_in)
