-- ===== src/ScullDev/ReadEffect.antt =====
-- What a caller of scull_dev_read may rely on.
use ldd3_kernel.Prelude.{
  ℕ, ◌+◌, ◌*◌, ◌%◌, ◌<◌, ◌≡◌, refl, ap, sym, subst, ◌∙◌, inl, inr, true, false, List, Option, none,
  some, arith, length, get_elem?, drop, leb, ◌==◌, if◌then◌else◌, Bool-cases, length-take,
  length-drop, get_elem?-take, get_elem?-drop, [], le→leb,
}
use native.Mathlib.Nat.{mod-lt}
use native.Mathlib.Decide.{dec_lt}
use ldd3_kernel.Int.{ℤ, pos}
use ldd3_kernel.Kernel.{Kernel, IsGenerous, ok, err, efault, erestartsys, Run, done}
use ldd3_kernel.ScullDev.{ScullDev, Quantum, lock, unlock}
use ldd3_kernel.ScullDev.Read.{scull_dev_read, read_locked, Reading}
use ldd3_kernel.ScullDev.Valid.{IsValid, NodeFits, locked-IsValid, unlocked-IsValid}
use ldd3_kernel.ScullDev.Places.{
  item, slot, offset, block_at, byte_at, byte_of, same_quantum, block_at-follow, follow-All,
}
use ldd3_kernel.ScullDev.Lookup.{Fits, block_at-some}
use ldd3_kernel.ScullDev.Reading.{
  readable, found_bytes, reply_of, followed, read_unlocks, read_inside, read_outside,
}

-- How many bytes a read gives: none at the end of the file and in a hole, and otherwise `count` cut
-- off at the end of the file and at the end of the quantum.
abbrev pub given : ℕ → ℕ → ScullDev → ℕ → ℕ → ℕ
given q s dev count p =
    if leb dev.size p then 0 else elim (block_at dev.qsets (item q s p) (slot q s p)) [
      | none ↦ 0
      | some _ ↦ readable q s dev count p
    ]

-- The promise of a read, by its reply: the bytes that are stored, or nothing moved.
abbrev pub ReadResult : ℕ → ℕ → ScullDev → ℕ → ℕ → Reading → Type 0
ReadResult q s dev count p (dev', f_pos, ok (n, bytes)) =
    (n ≡ given q s dev count p)
    × (f_pos ≡ pos (p + n))
    × (length bytes ≡ n)
    × ((j : ℕ) → j < n → get_elem? bytes j ≡ byte_at q s dev (p + j))
ReadResult q s dev count p (dev', f_pos, err e) = f_pos ≡ pos p

-- The same file, though nodes of the list may have been added.
pub record SameFile (q s : ℕ) (dev dev' : ScullDev) : Type 0 where
  pub valid_after : IsValid q s dev'
  pub content : (i : ℕ) → byte_at q s dev' i ≡ byte_at q s dev i
  pub size_kept : dev'.size ≡ dev.size

module _ (k : Kernel) (q s : ℕ) (dev : ScullDev) (count p : ℕ) (fits : Fits q s dev count p) where
  open fits use {valid, reachable, position_fits, count_fits}

  offset-lt : offset q s p < q
  offset-lt = mod-lt (p % (q * s)) valid.quantum_pos

  stored_bytes :
      (block : Quantum)
      → block_at dev.qsets (item q s p) (slot q s p) ≡ some block
      → (j : ℕ) → j < readable q s dev count p
      → get_elem? (found_bytes q s p block (readable q s dev count p)) j ≡ byte_at q s dev (p + j)
  stored_bytes block e j h =
      let same =
        same_quantum q s p j valid.quantum_pos valid.qset_pos (omega (arith, h, offset-lt)) in
      rw (same.0, same.1, same.2, e)
        (get_elem?-take (readable q s dev count p) (drop (offset q s p) block) j h
          ∙ get_elem?-drop (offset q s p) block j)

  found_length :
      (block : Quantum)
      → length block ≡ q
      → length (found_bytes q s p block (readable q s dev count p)) ≡ readable q s dev count p
  found_length block l = omega (
    arith,
    length-take (readable q s dev count p) (drop (offset q s p) block),
    length-drop (offset q s p) block,
    l,
  )

  followed-SameFile : SameFile q s dev (followed k q s dev valid p reachable)
  followed-SameFile = record {
    valid_after = record {
      quantum_is = valid.quantum_is;
      qset_is = valid.qset_is;
      quantum_pos = valid.quantum_pos;
      qset_pos = valid.qset_pos;
      item_fits = valid.item_fits;
      size_fits = valid.size_fits;
      nodes_fit = follow-All k (NodeFits q s) tt 0 (item q s p) dev.qsets valid.nodes_fit;
    };
    content = λ i.
        ap (λ b. byte_of b (offset q s i))
          (block_at-follow k 0 (item q s p) dev.qsets (item q s i) (slot q s i));
    size_kept = refl;
  }

  -- A read at a device whose lock is held.
  pub record Outcome (out : Run Reading) : Type 0 where
    pub result : Reading
    pub is_done : out ≡ done result
    pub same_file : SameFile q s dev result.0
    pub promise : ReadResult q s dev count p result
    pub answers : IsGenerous k → (n : ℕ × List ℕ) × (result.2 ≡ ok n)

  reply_of-Outcome :
      (o : Option Quantum)
      → block_at dev.qsets (item q s p) (slot q s p) ≡ o
      → p < dev.size
      → Outcome (done (reply_of k q s dev valid p reachable o (readable q s dev count p)))
  reply_of-Outcome none e h = record {
    result = (followed k q s dev valid p reachable, pos p, ok (0, []));
    is_done = refl;
    same_file = followed-SameFile;
    promise = (ground (arith, e), ap pos (omega arith), refl, λ j l. absurd (omega arith));
    answers = λ _. ((0, []), refl);
  }
  reply_of-Outcome (some block) e h =
      elim (Bool-cases (k.copy_to_user (found_bytes q s p block (readable q s dev count p)) == 0)) [
        | inl all ↦ record {
          result = (
            followed k q s dev valid p reachable,
            pos (p + readable q s dev count p),
            ok (readable q s dev count p, found_bytes q s p block (readable q s dev count p)),
          );
          is_done = rw all;
          same_file = followed-SameFile;
          promise = (
            given_present,
            refl,
            found_length block
                (block_at-some q s dev.qsets (item q s p) (slot q s p) block valid.nodes_fit e).1,
            stored_bytes block e,
          );
          answers = λ _. (
            (readable q s dev count p, found_bytes q s p block (readable q s dev count p)),
            refl,
          );
        }
        | inr some_left ↦ record {
          result = (followed k q s dev valid p reachable, pos p, err efault);
          is_done = rw some_left;
          same_file = followed-SameFile;
          promise = refl;
          answers = λ g. absurd (not_left (g.copies_out _) some_left);
        }
      ]
    where
      given_present : readable q s dev count p ≡ given q s dev count p
      given_present = ground (arith, e)

      not_left : {n : ℕ} → n ≡ 0 → (n == 0) ≡ false → ⊥
      not_left e f = ground arith

  read_locked-Outcome : Outcome (read_locked k dev count (pos p))
  read_locked-Outcome = elim (dec_lt p dev.size) [
    | yes h ↦
        subst Outcome (sym (read_inside k q s dev valid p reachable count h count_fits))
          (reply_of-Outcome (block_at dev.qsets (item q s p) (slot q s p)) refl h)
    | no h ↦ record {
      result = (dev, pos p, ok (0, []));
      is_done = read_outside k q s dev valid p reachable count (omega arith) position_fits;
      same_file = record { valid_after = valid; content = λ i. refl; size_kept = refl };
      promise = (
        rw (le→leb dev.size p (omega arith)),
        ap pos (omega arith),
        refl,
        λ j l. absurd (omega arith),
      );
      answers = λ _. ((0, []), refl);
    }
  ]

read_interrupted :
    (k : Kernel) (dev : ScullDev) (count : ℕ) (f_pos : ℤ)
    → k.interrupted ≡ true
    → scull_dev_read k dev count f_pos ≡ done (dev, f_pos, err erestartsys)
unfolding scull_dev_read
read_interrupted k dev count f_pos h = simp h

result_unlocked :
    (q s : ℕ) (dev : ScullDev) (count p : ℕ) (out : Reading)
    → ReadResult q s (lock dev) count p out
    → ReadResult q s dev count p (unlock out.0, out.1, out.2)
result_unlocked q s dev count p (dev', f_pos, ok (n, bytes)) h = h
result_unlocked q s dev count p (dev', f_pos, err e) h = h

abbrev locked :
    {q s count p : ℕ} {dev : ScullDev} → Fits q s dev count p → Fits q s (lock dev) count p
locked fits = record {
  valid = locked-IsValid fits.valid;
  reachable = fits.reachable;
  position_fits = fits.position_fits;
  count_fits = fits.count_fits;
}

abbrev outcome :
    (k : Kernel) (q s : ℕ) (dev : ScullDev) (count p : ℕ) (fits : Fits q s dev count p)
    → Outcome k q s (lock dev) count p (locked fits) (read_locked k (lock dev) count (pos p))
outcome k q s dev count p fits = read_locked-Outcome k q s (lock dev) count p (locked fits)

-- A read that has the lock returns what `outcome` says, with the lock given back.
read_result :
    (k : Kernel) (q s : ℕ) (dev : ScullDev) (count p : ℕ) (fits : Fits q s dev count p)
    → k.interrupted ≡ false
    → let out = (outcome k q s dev count p fits).result in
      scull_dev_read k dev count (pos p) ≡ done (unlock out.0, out.1, out.2)
read_result k q s dev count p fits had =
    read_unlocks k dev count (pos p) had ∙ simp ((outcome k q s dev count p fits).is_done)

-- On a valid device whose mutex is free, `scull_dev_read` returns without a fault: the device is
-- valid, its mutex free, its size and every stored byte as before. If it replies with `n` bytes,
-- then `n` is as `given` says, the position is `p + n`, and the bytes are those stored from `p` on.
-- If it fails, the position is unchanged.
pub read_lem :
    (k : Kernel) (q s : ℕ) (dev : ScullDev) (count p : ℕ)
    → Fits q s dev count p
    → dev.mutex ≡ false
    → (out : Reading) × (scull_dev_read k dev count (pos p) ≡ done out)
      × SameFile q s dev out.0
      × (out.0.mutex ≡ false)
      × ReadResult q s dev count p out
read_lem k q s dev count p fits free = elim (Bool-cases k.interrupted) [
  | inl signal ↦ (
    (dev, pos p, err erestartsys),
    read_interrupted k dev count (pos p) signal,
    record { valid_after = fits.valid; content = λ i. refl; size_kept = refl },
    free,
    refl,
  )
  | inr had ↦
      let o = outcome k q s dev count p fits in
      (
        (unlock o.result.0, o.result.1, o.result.2),
        read_result k q s dev count p fits had,
        record {
          valid_after = unlocked-IsValid o.same_file.valid_after;
          content = o.same_file.content;
          size_kept = o.same_file.size_kept;
        },
        refl,
        result_unlocked q s dev count p o.result o.promise,
      )
]

pub read_replies :
    (k : Kernel) (q s : ℕ) (dev : ScullDev) (count p : ℕ) (out : Reading)
    → Fits q s dev count p
    → IsGenerous k
    → scull_dev_read k dev count (pos p) ≡ done out
    → (n : ℕ × List ℕ) × (out.2 ≡ ok n)
read_replies k q s dev count p out fits g is_done =
    let (n, answered) = (outcome k q s dev count p fits).answers g in
    let e = read_result k q s dev count p fits g.has_lock in
    (n, ground (arith, answered, e, is_done))

-- The bytes stored from `p` on, `n` of them
abbrev pub AreStored : ℕ → ℕ → ScullDev → ℕ → ℕ → List ℕ → Type 0
AreStored q s dev p n bytes =
    (length bytes ≡ n) × ((j : ℕ) → j < n → get_elem? bytes j ≡ byte_at q s dev (p + j))

reply_shape :
    (q s : ℕ) (dev : ScullDev) (count p : ℕ) (out : Reading)
    → ReadResult q s dev count p out
    → (m : ℕ × List ℕ) × (out.2 ≡ ok m)
    → let n = given q s dev count p in
      (bytes : List ℕ) × (out ≡ (out.0, pos (p + n), ok (n, bytes))) × AreStored q s dev p n bytes
reply_shape q s dev count p (last, f_pos, ok (m, bytes)) (m_is, f_pos_is, l, same) answered =
    (bytes, ground (arith, m_is, f_pos_is), subst (λ n. AreStored q s dev p n bytes) m_is (l, same))
reply_shape q s dev count p (last, f_pos, err e) h (m, answered) = absurd (err-ne-ok answered)
  where
    err-ne-ok : {m : ℕ × List ℕ} → err e ≡ ok m → ⊥
    err-ne-ok d = cc

-- With a generous kernel a read on a valid device whose mutex is free returns, and replies with as
-- many bytes as `given` says: none at the end of the file and in a hole. They are the bytes stored
-- from `p` on, and the position moves by their number.
pub read_answers :
    (k : Kernel) (q s : ℕ) (dev : ScullDev) (count p : ℕ)
    → Fits q s dev count p
    → dev.mutex ≡ false
    → IsGenerous k
    → let n = given q s dev count p in
      (last : ScullDev) × (bytes : List ℕ) × (scull_dev_read k dev count (pos p)
        ≡ done (last, pos (p + n), ok (n, bytes)))
      × AreStored q s dev p n bytes
read_answers k q s dev count p fits free g =
    let (out, is_read, _, _, promise) = read_lem k q s dev count p fits free in
    let (bytes, shape, stored) =
      reply_shape q s dev count p out promise (read_replies k q s dev count p out fits g is_read) in
    (out.0, bytes, is_read ∙ ap done shape, stored)
