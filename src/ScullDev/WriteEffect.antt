-- ===== src/ScullDev/WriteEffect.antt =====
-- What a caller of scull_dev_write may rely on.
use ldd3_kernel.Prelude.{
  ℕ, ◌+◌, ◌≤◌, ◌<◌, ◌≡◌, refl, ap, ◌∙◌, ◌⊎◌, inl, inr, true, false, List, some, arith, length,
  get_elem?, max, ◌==◌, Bool-cases,
}
use ldd3_kernel.Int.{ℤ, pos, long_min_abs}
use ldd3_kernel.Kernel.{
  Kernel, IsLawful, IsGenerous, ok, err, efault, enomem, erestartsys, Run, done, ◌>>=◌,
}
use ldd3_kernel.ScullDev.{ScullDev, lock, unlock}
use ldd3_kernel.ScullDev.Follow.{locate}
use ldd3_kernel.ScullDev.Write.{scull_dev_write, write_place, Writing, grow}
use ldd3_kernel.ScullDev.Valid.{IsValid, locked-IsValid, unlocked-IsValid}
use ldd3_kernel.ScullDev.Places.{item, slot, place, IsReachable, locate-place, byte_at}
use ldd3_kernel.ScullDev.Writing.{writable, NoMemory, Copied, write_place_lem}
use ldd3_kernel.ScullDev.WriteContent.{
  written_bytes, kept_bytes, grow_size, byte_at-grow, mutex-grow, grow-IsValid,
}

-- What the arguments of a write have to meet: a valid device, a user buffer as long as it is said
-- to be, and a range of positions that the types of the driver hold.
pub record CanWrite (q s : ℕ) (dev : ScullDev) (buf : List ℕ) (count p : ℕ) : Type 0 where
  pub valid : IsValid q s dev
  pub buf_fits : count ≤ length buf
  pub reachable : IsReachable q s p
  pub in_range : p + count < long_min_abs

-- The stored bytes before `p` and from `p + n` on are as they were.
abbrev pub Keeps : ℕ → ℕ → ScullDev → ScullDev → ℕ → ℕ → Type 0
Keeps q s dev dev' p n =
    (i b : ℕ) → (i < p) ⊎ (p + n ≤ i) → byte_at q s dev i ≡ some b → byte_at q s dev' i ≡ some b

-- The promise of a write, by its reply. One that takes `n` bytes has put them at `p`, moved the
-- position behind them and grown the file to there; one that fails has moved nothing.
abbrev pub WriteResult : ℕ → ℕ → ScullDev → List ℕ → ℕ → ℕ → Writing → Type 0
WriteResult q s dev buf count p (dev', f_pos, ok n) =
    (n ≡ writable q s count p)
    × (f_pos ≡ pos (p + n))
    × (dev'.size ≡ max dev.size (p + n))
    × ((j : ℕ) → j < n → byte_at q s dev' (p + j) ≡ get_elem? buf j)
    × Keeps q s dev dev' p n
WriteResult q s dev buf count p (dev', f_pos, err e) =
    (f_pos ≡ pos p) × (dev'.size ≡ dev.size) × Keeps q s dev dev' p (writable q s count p)

module _ (k : Kernel) (lawful : IsLawful k) (q s : ℕ) (dev : ScullDev) (buf : List ℕ) (count p : ℕ)
    (can : CanWrite q s dev buf count p) where
  open can use {valid, buf_fits, reachable, in_range}

  -- A write at a device whose lock is held.
  pub record Outcome (out : Run Writing) : Type 0 where
    pub result : Writing
    pub is_done : out ≡ done result
    pub valid_after : IsValid q s result.0
    pub mutex_after : result.0.mutex ≡ dev.mutex
    pub promise : WriteResult q s dev buf count p result
    pub answers : IsGenerous k → (n : ℕ) × (result.2 ≡ ok n)

  refused-Outcome :
      {out : Run Writing}
      → NoMemory k lawful q s dev valid buf count p buf_fits reachable in_range out
      → Outcome out
  refused-Outcome f = record {
    result = (f.dev', pos p, err enomem);
    is_done = f.is_done;
    valid_after = f.same.valid;
    mutex_after = f.same.mutex_kept;
    promise =
        (refl, f.same.size_kept, λ i b outside e. rw (f.same.content (item q s i) (slot q s i)) e);
    answers = λ g. absurd (g.has_memory f.request.0 f.request.1 f.request.2);
  }

  abbrev end : ℕ
  end = p + writable q s count p

  not_left : {n : ℕ} → n ≡ 0 → (n == 0) ≡ false → ⊥
  not_left e f = ground arith

  end_fits : end < long_min_abs
  end_fits = omega (arith, in_range)

  copied-Outcome :
      {out : Run Writing}
      → Copied k lawful q s dev valid buf count p buf_fits reachable in_range out
      → Outcome out
  copied-Outcome f = elim (Bool-cases ((k.copy_from_user buf (writable q s count p)).1 == 0)) [
    | inl all ↦ record {
      result = (grow f.dev' (pos end), pos end, ok (writable q s count p));
      is_done = f.is_done ∙ rw all;
      valid_after = grow-IsValid f.dev' end end_fits f.stored.valid;
      mutex_after = mutex-grow f.dev' end ∙ f.stored.mutex_kept;
      promise = (
        refl,
        refl,
        grow_size f.dev' end end_fits ∙ ap (λ z. max z end) f.stored.size_kept,
        λ j h.
            byte_at-grow q s f.dev' end (p + j)
            ∙ written_bytes k lawful q s valid.quantum_pos valid.qset_pos dev f.dev' buf count p
                buf_fits f.old f.old_length f.stored (ground arith) j h,
        λ i b outside e.
            byte_at-grow q s f.dev' end i
            ∙ kept_bytes k lawful q s valid.quantum_pos valid.qset_pos dev f.dev' buf count p
                buf_fits f.old f.old_length f.stored f.old_stored i b outside e,
      );
      answers = λ _. (writable q s count p, refl);
    }
    | inr some_left ↦ record {
      result = (f.dev', pos p, err efault);
      is_done = f.is_done ∙ rw some_left;
      valid_after = f.stored.valid;
      mutex_after = f.stored.mutex_kept;
      promise = (
        refl,
        f.stored.size_kept,
        kept_bytes k lawful q s valid.quantum_pos valid.qset_pos dev f.dev' buf count p buf_fits
            f.old f.old_length f.stored f.old_stored,
      );
      answers = λ g. absurd (not_left (g.copies_in _ _) some_left);
    }
  ]

  pub write_place-Outcome : Outcome (write_place k dev buf count (pos p) (place q s p))
  write_place-Outcome =
      elim (write_place_lem k lawful q s dev valid buf count p buf_fits reachable in_range) [
        | inl f ↦ refused-Outcome f
        | inr f ↦ copied-Outcome f
      ]

write_unlocks :
    (k : Kernel) (dev : ScullDev) (buf : List ℕ) (count : ℕ) (f_pos : ℤ)
    → k.interrupted ≡ false
    → scull_dev_write k dev buf count f_pos ≡ (
        locate (lock dev) f_pos >>= λ place.
        write_place k (lock dev) buf count f_pos place >>= λ out. done (unlock out.0, out.1, out.2))
unfolding scull_dev_write
write_unlocks k dev buf count f_pos h = simp h

write_interrupted :
    (k : Kernel) (dev : ScullDev) (buf : List ℕ) (count : ℕ) (f_pos : ℤ)
    → k.interrupted ≡ true
    → scull_dev_write k dev buf count f_pos ≡ done (dev, f_pos, err erestartsys)
unfolding scull_dev_write
write_interrupted k dev buf count f_pos h = simp h

result_unlocked :
    (q s : ℕ) (dev : ScullDev) (buf : List ℕ) (count p : ℕ) (out : Writing)
    → WriteResult q s (lock dev) buf count p out
    → WriteResult q s dev buf count p (unlock out.0, out.1, out.2)
result_unlocked q s dev buf count p (dev', f_pos, ok n) h = h
result_unlocked q s dev buf count p (dev', f_pos, err e) h = h

abbrev locked :
    {q s count p : ℕ} {dev : ScullDev} {buf : List ℕ}
    → CanWrite q s dev buf count p
    → CanWrite q s (lock dev) buf count p
locked can = record {
  valid = locked-IsValid can.valid;
  buf_fits = can.buf_fits;
  reachable = can.reachable;
  in_range = can.in_range;
}

module _ (k : Kernel) (q s : ℕ) (dev : ScullDev) (buf : List ℕ) (count p : ℕ) (lawful : IsLawful k)
    (can : CanWrite q s dev buf count p) where
  abbrev outcome :
      Outcome k lawful q s
        (lock dev)
        buf
        count
        p
        (locked can)
        (write_place k (lock dev) buf count (pos p) (place q s p))
  outcome = write_place-Outcome k lawful q s (lock dev) buf count p (locked can)

  -- A write that has the lock returns what `outcome` says, with the lock given back.
  write_result :
      k.interrupted ≡ false
      → scull_dev_write k dev buf count (pos p)
        ≡ done (unlock outcome.result.0, outcome.result.1, outcome.result.2)
  write_result had =
      write_unlocks k dev buf count (pos p) had
      ∙ simp (locate-place q s p (lock dev) (locked-IsValid can.valid) can.reachable)
          (simp (outcome.is_done))

  -- On a valid device whose mutex is free, with a kernel as documented, a user buffer of at least
  -- `count` bytes and a range of positions that fits the types, `scull_dev_write` returns without a
  -- fault, whatever memory and user copies do: the device is valid again and its mutex free. If it
  -- replies `ok n`, then `n` is `count` cut off at the end of the quantum, the position is `p + n`,
  -- the size is the larger of the old one and `p + n`, the first `n` bytes of `buf` stand from `p`
  -- on, and each byte stored outside of them is unchanged. If it fails, then position and size are
  -- unchanged, and so is each byte stored outside the range that it would have written.
  pub write_lem :
      dev.mutex ≡ false
      → (out : Writing) × (scull_dev_write k dev buf count (pos p) ≡ done out)
        × IsValid q s out.0
        × (out.0.mutex ≡ false)
        × WriteResult q s dev buf count p out
  write_lem free = elim (Bool-cases k.interrupted) [
    | inl signal ↦ (
      (dev, pos p, err erestartsys),
      write_interrupted k dev buf count (pos p) signal,
      can.valid,
      free,
      (refl, refl, λ i b _ e. e),
    )
    | inr had ↦ (
      (unlock outcome.result.0, outcome.result.1, outcome.result.2),
      write_result had,
      unlocked-IsValid outcome.valid_after,
      refl,
      result_unlocked q s dev buf count p outcome.result outcome.promise,
    )
  ]

  -- With a kernel as documented that is also generous, a write on a valid device, of a user buffer of
  -- at least `count` bytes to a range of positions that fits the types, never replies with an error.
  pub write_answers :
      (out : Writing)
      → IsGenerous k
      → scull_dev_write k dev buf count (pos p) ≡ done out
      → (n : ℕ) × (out.2 ≡ ok n)
  write_answers out g is_done =
      let (n, answered) = outcome.answers g in
      let e = write_result g.has_lock in (n, ground (arith, answered, e, is_done))
