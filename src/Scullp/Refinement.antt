-- ===== src/Scullp/Refinement.antt =====
-- Where no call moves more than 968 bytes, the device of scullp is the memory device of scull_full
-- over a kernel whose memory comes zeroed.
use ldd3_kernel.Prelude.{
  ℕ, ◌+◌, ◌*◌, ◌^◌, ◌≤◌, ◌<◌, ◌≡◌, ap, ◌∙◌, false, List, some, arith, take, min, ◌-◌,
}
use ldd3_kernel.Int.{pos, to_size, to_size-pos, int_min_abs}
use ldd3_kernel.Kernel.{Kernel, IsLawful, IsGenerous, ok, done, fault, stack_smashed, ◌>>=◌}
use ldd3_kernel.ScullDev.Read.{scull_dev_read}
use ldd3_kernel.ScullDev.Write.{scull_dev_write}
use ldd3_kernel.ScullDev.Lookup.{Fits}
use ldd3_kernel.ScullDev.Writing.{writable}
use ldd3_kernel.ScullDev.WriteEffect.{CanWrite}
use ldd3_kernel.ScullMem.Zeroing.{zero_mem, zeroed, zeroed_lem}
use ldd3_kernel.ScullMem.Simulation.{Simulates}
use ldd3_kernel.ScullMem.ReadSame.{read_with-same}
use ldd3_kernel.ScullMem.WriteSame.{write_with-same}
use ldd3_kernel.ScullMem.RoundTrip.{write_with_read}
use ldd3_kernel.ScullMem.Bounce.{tmp_buf, bounced, bounced-IsLawful, bounced-IsGenerous}
use ldd3_kernel.ScullMem.Smash.{big_read-smashes}
use ldd3_kernel.ScullDev.{Quantum}
use ldd3_kernel.ScullDev.Places.{item, slot, offset, block_at}
use ldd3_kernel.ScullMem.Paged.{page_size, quantum_of, quantum_of_lem, paged_ops, paged-Simulates}
use ldd3_kernel.Scullp.{
  ScullpDev, as_scull, with_scull, pages_or_null, scullp_dev_read, scullp_dev_write,
}

-- The bytes of a quantum
abbrev pub block_size : ScullpDev → ℕ
block_size dev = page_size * 2 ^ dev.order

module _ (s : ℕ) (k : Kernel) (lawful : IsLawful k) (dev : ScullpDev)
    (fits_int : block_size dev < int_min_abs) where
  alloc-zeroed :
      (c : ℕ) → pages_or_null k dev.order c ≡ done (zero_mem (k.kmalloc c (block_size dev)))
  unfolding pages_or_null
  alloc-zeroed c =
      ap (λ n. zeroed n (k.kmalloc c (block_size dev))) same_size
      ∙ zeroed_lem (block_size dev) (k.kmalloc c (block_size dev))
          (λ b e. lawful.kmalloc_size c (block_size dev) b e)
    where
      same_size : to_size (quantum_of dev.order) ≡ block_size dev
      same_size =
          ap to_size (quantum_of_lem dev.order fits_int)
          ∙ to_size-pos (block_size dev) (omega (arith, fits_int))

  scullp_sim :
      Simulates (paged_ops k (pages_or_null k dev.order)) k (bounced k) (block_size dev) tmp_buf
  scullp_sim = paged-Simulates k (block_size dev) (pages_or_null k dev.order) alloc-zeroed

  -- On a valid device whose quanta fit an int, with a kernel as documented, a `scullp_dev_read` of at
  -- most 968 bytes of one quantum is `scull_dev_read`.
  pub scullp_dev_read_lem :
      (count p : ℕ)
      → Fits (block_size dev) s (as_scull dev) count p
      → writable (block_size dev) s count p ≤ tmp_buf
      → scullp_dev_read k dev count (pos p) ≡ (
          scull_dev_read (bounced k) (as_scull dev) count (pos p) >>= λ out.
          done (with_scull dev out.0, out.1, out.2))
  unfolding scullp_dev_read
  scullp_dev_read_lem count p fits small =
      ap (λ run. run >>= λ out. done (with_scull dev out.0, out.1, out.2))
        (read_with-same (paged_ops k (pages_or_null k dev.order)) k (bounced k) (block_size dev) s
          tmp_buf scullp_sim (as_scull dev) count p fits small)

  -- On a valid device whose quanta fit an int, with a kernel as documented, a `scullp_dev_write` of at
  -- most 968 bytes of one quantum is `scull_dev_write` under a kernel whose memory comes zeroed and
  -- whose copy that fails leaves the quantum alone.
  pub scullp_dev_write_lem :
      (buf : List ℕ) (count p : ℕ)
      → CanWrite (block_size dev) s (as_scull dev) buf count p
      → writable (block_size dev) s count p ≤ tmp_buf
      → scullp_dev_write k dev buf count (pos p) ≡ (
          scull_dev_write (bounced k) (as_scull dev) buf count (pos p) >>= λ out.
          done (with_scull dev out.0, out.1, out.2))
  unfolding scullp_dev_write
  scullp_dev_write_lem buf count p can small =
      ap (λ run. run >>= λ out. done (with_scull dev out.0, out.1, out.2))
        (write_with-same (paged_ops k (pages_or_null k dev.order)) k (bounced k) (block_size dev) s
          tmp_buf scullp_sim (bounced-IsLawful k lawful) can.valid.quantum_pos can.valid.qset_pos
          can.valid.item_fits buf p (as_scull dev) count can small)

-- With generous kernels as documented, a write at `p` on a valid device of scullp that takes `n` bytes,
-- at most 968, succeeds, and a later read of `n` bytes at `p` then gives just these.
pub scullp_write_read :
    (s : ℕ) (k k' : Kernel)
    → IsLawful k
    → IsGenerous k
    → IsLawful k'
    → IsGenerous k'
    → (dev : ScullpDev) (buf : List ℕ) (count p : ℕ) → block_size dev < int_min_abs
    → CanWrite (block_size dev) s (as_scull dev) buf count p
    → dev.mutex ≡ false
    → 0 < count
    → writable (block_size dev) s count p ≤ tmp_buf
    → let n = writable (block_size dev) s count p in
      (0 < n)
      × (mid : ScullpDev) × (last : ScullpDev) × (scullp_dev_write k dev buf count (pos p)
          ≡ done (mid, pos (p + n), ok n))
      × (scullp_dev_read k' mid n (pos p) ≡ done (last, pos (p + n), ok (n, take n buf)))
unfolding scullp_dev_read scullp_dev_write
scullp_write_read s k k' l g l' g' dev buf count p fits_int can free some_count small =
    let (some_n, mid, last, is_written, is_read) =
      write_with_read (block_size dev) s tmp_buf (paged_ops k (pages_or_null k dev.order))
        (paged_ops k' (pages_or_null k' dev.order)) k (bounced k) k' (bounced k')
        (scullp_sim s k l dev fits_int) (scullp_sim s k' l' dev fits_int) (bounced-IsLawful k l)
        (bounced-IsGenerous k g) (bounced-IsGenerous k' g') (as_scull dev) buf count p can free
        some_count small in
    (
      some_n,
      with_scull dev mid,
      with_scull dev last,
      ap (λ run. run >>= λ out. done (with_scull dev out.0, out.1, out.2)) is_written,
      ap (λ run. run >>= λ out. done (with_scull dev out.0, out.1, out.2)) is_read,
    )

-- On a valid device of scullp whose quanta fit an int, with the lock had, a read whose range holds more
-- than 968 bytes of the quantum that is stored at `p` writes past the end of `tmpBuf`, which is on the
-- stack.
pub scullp_big_read :
    (s : ℕ) (k : Kernel) (dev : ScullpDev) (count p : ℕ) (block : Quantum)
    → Fits (block_size dev) s (as_scull dev) count p
    → k.interrupted ≡ false
    → p < dev.size
    → block_at dev.qsets (item (block_size dev) s p) (slot (block_size dev) s p) ≡ some block
    → tmp_buf < min (min count (dev.size - p)) (block_size dev - offset (block_size dev) s p)
    → scullp_dev_read k dev count (pos p) ≡ fault stack_smashed
unfolding scullp_dev_read
scullp_big_read s k dev count p block fits had before there big =
    ap (λ run. run >>= λ out. done (with_scull dev out.0, out.1, out.2))
      (big_read-smashes k (pages_or_null k dev.order) (block_size dev) s p block (as_scull dev)
        count fits had before there big)
