-- ===== src/ScullPipe/Users.antt =====
-- The readers and writers of a pipe, from open to release.
use ldd3_kernel.Prelude.{
  ℕ, zero, suc, ◌+◌, ◌-◌, ◌≤◌, ◌<◌, ◌≡◌, ◌≢◌, refl, sym, ap, ◌∙◌, ◌⊎◌, inl, inr, Bool, true, false,
  List, [], Option, none, some, arith, length, ◌==◌, ◌&&◌, if◌then◌else◌, Bool-cases, if_cases,
  Option-cases,
}
use mathlib.Core.Option.{some-injective}
use ldd3_kernel.Int.{ℤ, pos, ◌+ℤ◌, ◌-ℤ◌, sub_ℕ, is_zero, to_int, to_int-pos, int_min_abs}
use ldd3_kernel.Kernel.{Kernel, IsLawful, ok, err, enomem, erestartsys}
use ldd3_kernel.ScullPipe.{ScullPipe, File, lock, unlock}
use ldd3_kernel.ScullPipe.Open.{
  scull_p_buffer, FasyncHelper, buffer_or_new, open_with, start, count_open, count_release,
  free_unused, scull_pipe_fasync, scull_pipe_open, scull_pipe_release,
}
use ldd3_kernel.ScullPipe.Contents.{IsValid, contents, unlocked-IsValid}

-- `r` readers and `w` writers have the pipe open: the counts say so, and the buffer is there as long
-- as there is one of them, and only then.
pub record Users (r w : ℕ) (dev : ScullPipe) : Type 0 where
  pub readers_are : dev.nreaders ≡ pos r
  pub writers_are : dev.nwriters ≡ pos w
  pub used : 0 < r + w → IsValid scull_p_buffer dev
  pub unused : r + w ≡ 0 → dev.buffer ≡ none
  pub free : dev.mutex ≡ false

abbrev pub one_if : Bool → ℕ
one_if b = if b then 1 else 0

zero_sum : (r w : ℕ) → is_zero (pos r) && is_zero (pos w) ≡ true → r + w ≡ 0
zero_sum zero zero h = refl
zero_sum zero (suc w) h = cc
zero_sum (suc r) w h = cc

sum_zero : (r w : ℕ) → r + w ≡ 0 → is_zero (pos r) && is_zero (pos w) ≡ true
sum_zero zero zero h = refl
sum_zero zero (suc w) h = absurd (omega arith)
sum_zero (suc r) w h = absurd (omega arith)

true-ne-false : true ≡ false → ⊥
true-ne-false e = cc

count_up :
    (b : Bool) (z : ℤ) (r : ℕ)
    → z ≡ pos r
    → r + 1 < int_min_abs
    → (if b then to_int (z +ℤ pos 1) else z) ≡ pos (r + one_if b)
count_up true z r e h = ap (λ y. to_int (y +ℤ pos 1)) e ∙ to_int-pos (r + 1) h
count_up false z r e h = e ∙ ap pos (omega arith)

count_down :
    (b : Bool) (z : ℤ) (r : ℕ)
    → z ≡ pos r
    → r < int_min_abs
    → one_if b ≤ r
    → (if b then to_int (z -ℤ pos 1) else z) ≡ pos (r - one_if b)
count_down true z r e h le =
    let one_less : sub_ℕ r 1 ≡ pos (r - 1) = ground arith in
    ap (λ y. to_int (y -ℤ pos 1)) e ∙ ap to_int one_less ∙ to_int-pos (r - 1) (omega arith)
count_down false z r e h le = e ∙ ap pos (omega arith)

-- The buffer that an open uses has the size that it is meant to have.
buffer_length :
    (k : Kernel) (r w : ℕ) (dev : ScullPipe) (bytes : List ℕ)
    → IsLawful k
    → Users r w dev
    → buffer_or_new k dev.buffer ≡ some bytes
    → length bytes ≡ scull_p_buffer
unfolding buffer_or_new
buffer_length k r w dev bytes lawful u = go dev.buffer refl
  where
    somebody : (b : List ℕ) → dev.buffer ≡ some b → 0 < r + w
    somebody b q = elim (Bool-cases (r + w == 0)) [
      | inl nobody ↦ absurd (none-ne-some (sym (u.unused (ground arith)) ∙ q))
      | inr h ↦ ground arith
    ]
      where
        none-ne-some : {c : List ℕ} → none ≡ some c → ⊥
        none-ne-some e = cc

    go :
        (o : Option (List ℕ))
        → dev.buffer ≡ o
        → buffer_or_new k o ≡ some bytes
        → length bytes ≡ scull_p_buffer
    go none q e = lawful.kmalloc_size 0 scull_p_buffer bytes e
    go (some b) q e =
        let v = u.used (somebody b q) in
        ap length (some-injective _ _ (sym e ∙ sym q ∙ v.buffer_is)) ∙ v.length_is

opened-IsValid :
    (dev : ScullPipe) (filp : File) (bytes : List ℕ)
    → length bytes ≡ scull_p_buffer
    → IsValid scull_p_buffer (unlock (count_open (start (record dev { buffer = some bytes })) filp))
opened-IsValid dev filp bytes l = record {
  bytes = bytes;
  buffer_is = refl;
  length_is = l;
  end_is = refl;
  buffersize_is = refl;
  rp_in = omega arith;
  wp_in = omega arith;
  large = omega arith;
  small = omega arith;
}

-- An open by a reader or a writer, or both, either fails, which changes nothing, or succeeds. A success counts the
-- user in and leaves a valid pipe that holds nothing, whatever it held before.
pub open-Users :
    (k : Kernel) (r w : ℕ) (dev : ScullPipe) (filp : File)
    → IsLawful k
    → Users r w dev
    → r + 1 < int_min_abs
    → w + 1 < int_min_abs
    → 0 < one_if filp.reads + one_if filp.writes
    → ((dev' : ScullPipe) × (scull_pipe_open k dev filp ≡ (dev', ok tt))
        × Users (r + one_if filp.reads) (w + one_if filp.writes) dev'
        × (contents dev' ≡ []))
      ⊎ ((e : _) × (scull_pipe_open k dev filp ≡ (dev, err e)))
unfolding scull_pipe_open open_with
open-Users k r w dev filp lawful u rr ww mode = elim (Bool-cases k.interrupted) [
  | inl signal ↦ inr (erestartsys, simp signal refl)
  | inr had ↦ elim (Option-cases (buffer_or_new k dev.buffer)) [
    | inl no_memory ↦ inr (
      enomem,
      simp (had, no_memory, open_with)
          (ap (λ m. (record dev { mutex = m }, err enomem)) (sym u.free)),
    )
    | inr (bytes, e) ↦ inl (
      unlock (count_open (start (record dev { buffer = some bytes })) filp),
      simp (had, e, open_with) refl,
      record {
        readers_are = count_up filp.reads dev.nreaders r u.readers_are rr;
        writers_are = count_up filp.writes dev.nwriters w u.writers_are ww;
        used = λ h. opened-IsValid dev filp bytes (buffer_length k r w dev bytes lawful u e);
        unused = λ h. absurd (omega arith);
        free = refl;
      },
      refl,
    )
  ]
]

module _ (r w : ℕ) (dev : ScullPipe) (readers_are : dev.nreaders ≡ pos r)
    (writers_are : dev.nwriters ≡ pos w) (v : IsValid scull_p_buffer dev) where
  both_zero : is_zero dev.nreaders && is_zero dev.nwriters ≡ is_zero (pos r) && is_zero (pos w)
  both_zero =
      ap (λ z. is_zero z && is_zero dev.nwriters) readers_are
      ∙ ap (λ z. is_zero (pos r) && is_zero z) writers_are

  free_unused_lem :
      Users r w (unlock (free_unused dev))
      × (0 < r + w → contents (unlock (free_unused dev)) ≡ contents dev)
  free_unused_lem =
      if_cases (λ d. Users r w (unlock d) × (0 < r + w → contents (unlock d) ≡ contents dev))
        (is_zero dev.nreaders && is_zero dev.nwriters)
        (λ gone.
          let nobody : r + w ≡ 0 = zero_sum r w (sym both_zero ∙ gone) in
          (
            record {
              readers_are = readers_are;
              writers_are = writers_are;
              used = λ h. absurd (omega arith);
              unused = λ h. refl;
              free = refl;
            },
            λ h. absurd (omega arith),
          ))
        (λ stay.
          let somebody : r + w ≢ 0 = λ e. true-ne-false (sym (both_zero ∙ sum_zero r w e) ∙ stay) in
          (
            record {
              readers_are = readers_are;
              writers_are = writers_are;
              used = λ h. unlocked-IsValid v;
              unused = λ h. absurd (somebody h);
              free = refl;
            },
            λ h. refl,
          ))

released-IsValid :
    (helper : FasyncHelper) (dev : ScullPipe) (filp : File)
    → IsValid scull_p_buffer dev
    → IsValid scull_p_buffer (count_release (lock (scull_pipe_fasync helper dev filp false)) filp)
released-IsValid helper dev filp v = record {
  bytes = v.bytes;
  buffer_is = v.buffer_is;
  length_is = v.length_is;
  end_is = v.end_is;
  buffersize_is = v.buffersize_is;
  rp_in = v.rp_in;
  wp_in = v.wp_in;
  large = v.large;
  small = v.small;
}

-- A release counts the user out. The buffer goes with the last of them and not before, and until
-- then the pipe holds what it held.
pub release-Users :
    (helper : FasyncHelper) (r w : ℕ) (dev : ScullPipe) (filp : File)
    → Users r w dev
    → r < int_min_abs
    → w < int_min_abs
    → one_if filp.reads ≤ r
    → one_if filp.writes ≤ w
    → 0 < one_if filp.reads + one_if filp.writes
    → let r' = r - one_if filp.reads in
      let w' = w - one_if filp.writes in
      let dev' = (scull_pipe_release helper dev filp).0 in
      Users r' w' dev' × (0 < r' + w' → contents dev' ≡ contents dev)
unfolding scull_pipe_release
release-Users helper r w dev filp u rr ww hr hw mode =
    free_unused_lem (r - one_if filp.reads) (w - one_if filp.writes)
      (count_release (lock (scull_pipe_fasync helper dev filp false)) filp)
      (count_down filp.reads dev.nreaders r u.readers_are rr hr)
      (count_down filp.writes dev.nwriters w u.writers_are ww hw)
      (released-IsValid helper dev filp (u.used (omega arith)))
