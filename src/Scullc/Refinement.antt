-- ===== src/Scullc/Refinement.antt =====
-- The device of scullc is the memory device of scull_full over a kernel whose memory comes zeroed
-- and whose copies are the loops over chunks.
use ldd3_kernel.Prelude.{
  ℕ, zero, suc, ◌+◌, ◌-◌, ◌≤◌, ◌<◌, ◌≡◌, refl, ap, sym, ◌∙◌, false, List, none, some, arith, length,
  take, drop, ◌==◌, not, overwrite, Option-cases, inl, inr, if_cases, length-take, length-drop,
}
use ldd3_kernel.Int.{pos, to_size, to_size-pos, size_mod}
use ldd3_kernel.Kernel.{Kernel, IsLawful, IsGenerous, ok, done, ◌>>=◌}
use ldd3_kernel.ScullDev.{Quantum}
use ldd3_kernel.ScullDev.Read.{scull_dev_read}
use ldd3_kernel.ScullDev.Write.{scull_dev_write}
use ldd3_kernel.ScullDev.Lookup.{Fits}
use ldd3_kernel.ScullDev.Writing.{writable}
use ldd3_kernel.ScullDev.WriteEffect.{CanWrite}
use ldd3_kernel.ScullMem.Zeroing.{
  zeroed, zero_mem, zeroed_lem, follow-same, array_or_new-same, zeroed_size,
}
use ldd3_kernel.ScullMem.Simulation.{Simulates, sent}
use ldd3_kernel.ScullMem.ReadSame.{read_with-same}
use ldd3_kernel.ScullMem.WriteSame.{write_with-same}
use ldd3_kernel.ScullMem.RoundTrip.{write_with_read}
use ldd3_kernel.Scullc.{
  ScullcDev, as_scull, with_scull, scullc_ops, scullc_dev_read, scullc_dev_write,
}
use ldd3_kernel.Scullc.Chunks.{chunk, send_chunks, receive_chunks}
use ldd3_kernel.Scullc.Copies.{answer, left_over, send_chunks_lem}
use ldd3_kernel.Scullc.Receiving.{received, received-IsCopy, receive_chunks_lem}

-- The kernel that scull_full would need to do the same
abbrev pub chunked : Kernel → (ℕ → Kernel) → Kernel
chunked k chunks = record {
  interrupted = k.interrupted;
  kmalloc = λ c n. zero_mem (k.kmalloc c n);
  copy_to_user = λ bytes. left_over (length bytes) chunks bytes 0;
  copy_from_user = λ buf n. received n chunks buf n 0;
}

module _ (k : Kernel) (chunks : ℕ → Kernel) where
  pub chunked-IsLawful :
      IsLawful k → ((at : ℕ) → IsLawful (chunks at)) → IsLawful (chunked k chunks)
  chunked-IsLawful lawful each = record {
    kmalloc_size = zeroed_size k (chunked k chunks) (λ c n. refl) lawful;
    copied_size = λ src n h. (received-IsCopy chunks each n src n 0 h).0;
    copied_all = λ src n h. (received-IsCopy chunks each n src n 0 h).1;
  }

  module _ (g : (at : ℕ) → IsGenerous (chunks at)) where
    left_over-generous :
        (fuel : ℕ) (bytes : List ℕ) (at : ℕ)
        → length bytes ≤ fuel
        → left_over fuel chunks bytes at ≡ 0
    unfolding left_over
    left_over-generous zero bytes at h = omega (arith, h)
    left_over-generous (suc fuel) bytes at h =
        if_cases (λ z. z ≡ 0) (length bytes == 0) (λ e. refl)
          λ some_left. rw ((g at).copies_out (take (chunk (length bytes)) bytes)) (
            left_over-generous fuel (drop (chunk (length bytes)) bytes) (at + chunk (length bytes))
              (ground (arith, length-drop (chunk (length bytes)) bytes)))

    received-generous :
        (fuel : ℕ) (buf : List ℕ) (n at : ℕ) → n ≤ fuel → (received fuel chunks buf n at).1 ≡ 0
    unfolding received
    received-generous zero buf n at h = omega arith
    received-generous (suc fuel) buf n at h =
        if_cases {A = List ℕ × ℕ} (λ z. z.1 ≡ 0) (n == 0) (λ e. refl)
          λ some_left. rw ((g at).copies_in buf (chunk n)) (
            received-generous fuel (drop (chunk n) buf) (n - chunk n) (at + chunk n) (ground arith))

  pub chunked-IsGenerous :
      IsGenerous k → ((at : ℕ) → IsGenerous (chunks at)) → IsGenerous (chunked k chunks)
  chunked-IsGenerous g each = record {
    has_lock = g.has_lock;
    has_memory = λ c n e. elim (Option-cases (k.kmalloc c n)) [
      | inl missing ↦ g.has_memory c n missing
      | inr (mem, there) ↦ absurd (some-ne-none (ap zero_mem (sym there) ∙ e))
    ];
    copies_in = λ src n. received-generous each n src n 0 (omega arith);
    copies_out = λ bytes. left_over-generous each (length bytes) bytes 0 (omega arith);
  }
    where
      some-ne-none : {b : List ℕ} → some b ≡ none → ⊥
      some-ne-none d = cc

  one_more : (n : ℕ) → n + 1 ≡ suc n
  one_more n = omega arith

  minus_none : (n : ℕ) → n - 0 ≡ n
  minus_none n = omega arith

  plus_none : (n : ℕ) → n + 0 ≡ n
  plus_none n = omega arith

  out_in_chunks :
      (block : Quantum) (o n : ℕ)
      → o + n ≤ length block
      → send_chunks (n + 1) chunks block o n 0
        ≡ done (sent (chunked k chunks) (take n (drop o block)))
  out_in_chunks block o n inside =
      ap (λ f. send_chunks f chunks block o n 0) (one_more n)
      ∙ send_chunks_lem chunks n block o n 0 inside (omega arith) (omega arith)
      ∙ rw (minus_none n, plus_none o)
          (ap
            (λ f.
              done (answer (left_over f chunks (take n (drop o block)) 0) (take n (drop o block))))
            (sym bytes_length))
    where
      bytes_length : length (take n (drop o block)) ≡ n
      bytes_length = omega (arith, length-take n (drop o block), length-drop o block)

  in_in_chunks :
      ((at : ℕ) → IsLawful (chunks at))
      → (block : Quantum) (o : ℕ) (buf : List ℕ) (n : ℕ) → o + n ≤ length block
      → n ≤ length buf
      → receive_chunks (n + 1) chunks block o buf n 0
        ≡ done (
          overwrite block o (received n chunks buf n 0).0,
          not ((received n chunks buf n 0).1 == 0),
        )
  in_in_chunks each block o buf n inside given =
      ap (λ f. receive_chunks f chunks block o buf n 0) (one_more n)
      ∙ receive_chunks_lem chunks each n block o buf n 0 inside given (omega arith) (omega arith)
      ∙ rw (minus_none n, plus_none o) refl

  chunked-Simulates :
      (q : ℕ) (dev : ScullcDev)
      → IsLawful k
      → ((at : ℕ) → IsLawful (chunks at))
      → dev.cache ≡ q
      → dev.quantum ≡ pos q
      → q < size_mod
      → Simulates (scullc_ops k chunks dev) k (chunked k chunks) q q
  unfolding scullc_ops
  chunked-Simulates q dev lawful each cache_is quantum_is fits = record {
    same_lock = refl;
    same_follow = follow-same k (chunked k chunks) (λ c n. refl);
    same_arrays = array_or_new-same k (chunked k chunks) (λ c n. refl);
    same_alloc = λ c.
        ap (λ n. zeroed n (k.kmalloc c dev.cache)) (ap to_size quantum_is ∙ to_size-pos q fits)
        ∙ ap (λ n. zeroed q (k.kmalloc c n)) cache_is
        ∙ zeroed_lem q (k.kmalloc c q) (λ b e. lawful.kmalloc_size c q b e);
    same_out = λ block o n l inside small. out_in_chunks block o n (omega (arith, l, inside));
    same_in = λ block o buf n l inside small given.
        in_in_chunks each block o buf n (omega (arith, l, inside)) given;
  }

-- A device of scullc that holds a valid memory device of quanta of `q` bytes, with a cache of such
-- objects
pub record IsCached (q : ℕ) (dev : ScullcDev) : Type 0 where
  pub cache_is : dev.cache ≡ q
  pub quantum_is : dev.quantum ≡ pos q
  pub quantum_fits : q < size_mod

module _ (q s : ℕ) (k : Kernel) (chunks : ℕ → Kernel) (lawful : IsLawful k)
    (each : (at : ℕ) → IsLawful (chunks at)) (dev : ScullcDev) (cached : IsCached q dev) where
  pub scullc_sim : Simulates (scullc_ops k chunks dev) k (chunked k chunks) q q
  scullc_sim =
      chunked-Simulates k chunks q dev lawful each cached.cache_is cached.quantum_is
        cached.quantum_fits

  -- On a valid device, with kernels as documented, `scullc_dev_read` is `scull_dev_read` under a
  -- kernel whose copy to the user is the loop over chunks, which ends: the same reply, position, bytes
  -- and device, whatever the lock, the memory and the copies do.
  pub scullc_dev_read_lem :
      (count p : ℕ)
      → Fits q s (as_scull dev) count p
      → scullc_dev_read k chunks dev count (pos p) ≡ (
          scull_dev_read (chunked k chunks) (as_scull dev) count (pos p) >>= λ out.
          done (with_scull dev out.0, out.1, out.2))
  unfolding scullc_dev_read
  scullc_dev_read_lem count p fits =
      ap (λ run. run >>= λ out. done (with_scull dev out.0, out.1, out.2))
        (read_with-same (scullc_ops k chunks dev) k (chunked k chunks) q s q scullc_sim
          (as_scull dev) count p fits (omega arith))

  -- On a valid device, with kernels as documented, `scullc_dev_write` is `scull_dev_write` under a
  -- kernel whose memory comes zeroed and whose copy from the user is the loop over chunks, which ends.
  pub scullc_dev_write_lem :
      (buf : List ℕ) (count p : ℕ)
      → CanWrite q s (as_scull dev) buf count p
      → scullc_dev_write k chunks dev buf count (pos p) ≡ (
          scull_dev_write (chunked k chunks) (as_scull dev) buf count (pos p) >>= λ out.
          done (with_scull dev out.0, out.1, out.2))
  unfolding scullc_dev_write
  scullc_dev_write_lem buf count p can =
      ap (λ run. run >>= λ out. done (with_scull dev out.0, out.1, out.2))
        (write_with-same (scullc_ops k chunks dev) k (chunked k chunks) q s q scullc_sim
          (chunked-IsLawful k chunks lawful each) can.valid.quantum_pos can.valid.qset_pos
          can.valid.item_fits buf p (as_scull dev) count can (omega arith))

-- With generous kernels as documented, a write of `count` bytes at `p` on a valid device of scullc
-- takes `n` bytes, at least one, in chunks of 128 bytes, and a later read of `n` bytes at `p` then
-- gives just these.
pub scullc_write_read :
    (q s : ℕ) (k k' : Kernel) (chunks chunks' : ℕ → Kernel)
    → IsLawful k
    → ((at : ℕ) → IsLawful (chunks at))
    → IsGenerous k
    → ((at : ℕ) → IsGenerous (chunks at))
    → IsLawful k'
    → ((at : ℕ) → IsLawful (chunks' at))
    → IsGenerous k'
    → ((at : ℕ) → IsGenerous (chunks' at))
    → (dev : ScullcDev) (buf : List ℕ) (count p : ℕ) → IsCached q dev
    → CanWrite q s (as_scull dev) buf count p
    → dev.mutex ≡ false
    → 0 < count
    → let n = writable q s count p in
      (0 < n)
      × (mid : ScullcDev) × (last : ScullcDev) × (scullc_dev_write k chunks dev buf count (pos p)
          ≡ done (mid, pos (p + n), ok n))
      × (scullc_dev_read k' chunks' mid n (pos p) ≡ done (last, pos (p + n), ok (n, take n buf)))
unfolding scullc_dev_read scullc_dev_write scullc_ops
scullc_write_read q s k k' chunks chunks' l each g gs l' each' g' gs' dev buf count p cached can
      free some_count =
    let (some_n, mid, last, is_written, is_read) =
      write_with_read q s q (scullc_ops k chunks dev) (scullc_ops k' chunks' dev) k
        (chunked k chunks) k' (chunked k' chunks') (scullc_sim q s k chunks l each dev cached)
        (scullc_sim q s k' chunks' l' each' dev cached) (chunked-IsLawful k chunks l each)
        (chunked-IsGenerous k chunks g gs) (chunked-IsGenerous k' chunks' g' gs') (as_scull dev) buf
        count p can free some_count (omega arith) in
    (
      some_n,
      with_scull dev mid,
      with_scull dev last,
      ap (λ run. run >>= λ out. done (with_scull dev out.0, out.1, out.2)) is_written,
      ap (λ run. run >>= λ out. done (with_scull dev out.0, out.1, out.2)) is_read,
    )
