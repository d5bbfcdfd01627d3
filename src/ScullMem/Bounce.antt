-- ===== src/ScullMem/Bounce.antt =====
-- The copies of scullp_dev_read, scullp_dev_write, scullv_dev_read and scullv_dev_write, which pass
-- all bytes at once through `char tmpBuf[968]`, and the kernel that they make of the one below them.
use ldd3_kernel.Prelude.{
  ℕ, ◌+◌, ◌≤◌, ◌<◌, ◌≡◌, refl, ap, sym, ◌∙◌, Bool, true, false, not, List, [], Option, none, some,
  arith, inl, inr, leb, ◌==◌, if◌then◌else◌, if_cases, length, take, drop, overwrite, Bool-cases,
  Option-cases, le→leb, lt→leb, overwrite-nil,
}
use ldd3_kernel.Kernel.{Kernel, IsLawful, IsGenerous, Run, done, fault, bad_access, stack_smashed}
use ldd3_kernel.ScullDev.{Quantum}
use ldd3_kernel.ScullMem.Zeroing.{zero_mem, zeroed_size}
use ldd3_kernel.ScullMem.Simulation.{sent}

abbrev pub tmp_buf : ℕ
tmp_buf = 968

-- `memcpy(tmpBuf, dptr->data[s_pos] + q_pos, count)` and `copy_to_user(buf, tmpBuf, count)`
unfoldable pub bounce_out : Kernel → Quantum → ℕ → ℕ → Run (Option (List ℕ))
bounce_out k block q_pos count =
    if leb count tmp_buf
    then if leb (q_pos + count) (length block)
      then done (sent k (take count (drop q_pos block)))
      else fault bad_access
    else fault stack_smashed

-- `copy_from_user(tmpBuf, buf, count)` and `memcpy(dptr->data[s_pos] + q_pos, tmpBuf, count)`
unfoldable pub bounce_in : Kernel → Quantum → ℕ → List ℕ → ℕ → Run (Quantum × Bool)
bounce_in k block q_pos buf count =
    let tmp = k.copy_from_user buf count in
    if leb count tmp_buf
    then if tmp.1 == 0
      then if leb (q_pos + count) (length block)
        then done (overwrite block q_pos tmp.0, false)
        else fault bad_access
      else done (block, true)
    else fault stack_smashed

-- A copy that does not succeed leaves the quantum alone.
abbrev pub all_or_nothing : List ℕ × ℕ → List ℕ × ℕ
all_or_nothing tmp = if tmp.1 == 0 then tmp else ([], tmp.1)

abbrev pub bounced : Kernel → Kernel
bounced k = record {
  interrupted = k.interrupted;
  kmalloc = λ c n. zero_mem (k.kmalloc c n);
  copy_to_user = k.copy_to_user;
  copy_from_user = λ buf n. all_or_nothing (k.copy_from_user buf n);
}

module _ (k : Kernel) where
  pub bounced-IsLawful : IsLawful k → IsLawful (bounced k)
  bounced-IsLawful lawful = record {
    kmalloc_size = zeroed_size k (bounced k) (λ c n. refl) lawful;
    copied_size = λ src n h.
        if_cases {A = List ℕ × ℕ} (λ t. length t.0 ≤ n) ((k.copy_from_user src n).1 == 0)
          (λ e. lawful.copied_size src n h) (λ e. omega arith);
    copied_all = λ src n h.
        if_cases {A = List ℕ × ℕ} (λ t. t.1 ≡ 0 → t.0 ≡ take n src)
          ((k.copy_from_user src n).1 == 0) (λ e z. lawful.copied_all src n h z)
          (λ e z. absurd (ground arith));
  }

  pub bounced-IsGenerous : IsGenerous k → IsGenerous (bounced k)
  bounced-IsGenerous g = record {
    has_lock = g.has_lock;
    has_memory = λ c n e. elim (Option-cases (k.kmalloc c n)) [
      | inl missing ↦ g.has_memory c n missing
      | inr (mem, there) ↦ absurd (some-ne-none (ap zero_mem (sym there) ∙ e))
    ];
    copies_in = λ src n.
        if_cases {A = List ℕ × ℕ} (λ t. t.1 ≡ 0) ((k.copy_from_user src n).1 == 0)
          (λ e. g.copies_in src n) (λ e. g.copies_in src n);
    copies_out = g.copies_out;
  }
    where
      some-ne-none : {b : List ℕ} → some b ≡ none → ⊥
      some-ne-none d = cc

  pub bounce_out_lem :
      (block : Quantum) (o n : ℕ)
      → o + n ≤ length block
      → n ≤ tmp_buf
      → bounce_out k block o n ≡ done (sent (bounced k) (take n (drop o block)))
  unfolding bounce_out
  bounce_out_lem block o n inside small =
      rw (le→leb n tmp_buf small, le→leb (o + n) (length block) inside) refl

  pub bounce_in_lem :
      (block : Quantum) (o : ℕ) (buf : List ℕ) (n : ℕ)
      → o + n ≤ length block
      → n ≤ tmp_buf
      → bounce_in k block o buf n
        ≡ done (
          overwrite block o ((bounced k).copy_from_user buf n).0,
          not (((bounced k).copy_from_user buf n).1 == 0),
        )
  unfolding bounce_in
  bounce_in_lem block o buf n inside small =
      rw (le→leb n tmp_buf small, le→leb (o + n) (length block) inside)
        (elim (Bool-cases ((k.copy_from_user buf n).1 == 0)) [
          | inl taken ↦ rw (taken, taken) refl
          | inr refused ↦ rw (refused, refused, overwrite-nil block o) refl
        ])

  pub bounce_out-smashes :
      (block : Quantum) (o n : ℕ) → tmp_buf < n → bounce_out k block o n ≡ fault stack_smashed
  unfolding bounce_out
  bounce_out-smashes block o n big = rw (lt→leb n tmp_buf big) refl
