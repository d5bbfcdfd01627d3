-- ===== src/ScullMem/Smash.antt =====
-- A read of more than 968 bytes of one quantum, in scullp and in scullv.
use ldd3_kernel.Prelude.{
  ℕ, zero, suc, ◌-◌, ◌<◌, ◌≡◌, refl, min, true, false, List, [], ◌∷◌, Option, none, some, arith,
  leb, lt→leb,
}
use ldd3_kernel.Int.{pos, to_size, to_size-pos}
use ldd3_kernel.Kernel.{Kernel, Run, fault, stack_smashed}
use ldd3_kernel.ScullDev.{ScullDev, ScullQset, Quantum, lock}
use ldd3_kernel.ScullDev.Follow.{follow}
use ldd3_kernel.ScullDev.Read.{within_size}
use ldd3_kernel.ScullDev.Valid.{IsValid, NodeFits, locked-IsValid}
use ldd3_kernel.ScullDev.Places.{
  item, slot, offset, place, IsReachable, locate-place, block_at, follow-All, follow-found,
  block_at-follow,
}
use ldd3_kernel.ScullDev.Lookup.{Fits, within_quantum-min, within_size-min, find_node}
use ldd3_kernel.ScullDev.Reading.{followed, item_uint, slot-lt}
use ldd3_kernel.ScullMem.Read.{copy_found, read_at, read_inside_lock, read_with}
use ldd3_kernel.ScullMem.Bounce.{tmp_buf, bounce_out-smashes}
use ldd3_kernel.ScullMem.Paged.{paged_ops}

-- The node that holds a quantum is found.
stored-found :
    (k : Kernel) (c i j : ℕ) (qsets : List ScullQset) (b : Quantum)
    → block_at qsets i j ≡ some b
    → (follow k c i qsets).1 ≡ true
unfolding follow
stored-found k c i j [] b e = absurd (none-ne-some e)
  where
    none-ne-some : none ≡ some b → ⊥
    none-ne-some d = cc
stored-found k c zero j (node ∷ rest) b e = refl
stored-found k c (suc i) j (node ∷ rest) b e = stored-found k c i j rest b e

module _ (k : Kernel) (alloc : ℕ → Run (Option Quantum)) (q s : ℕ) (p : ℕ) (block : Quantum) where
  read_at-smashes :
      (dev : ScullDev) (v : IsValid q s dev) (r : IsReachable q s p) (n : ℕ)
      → block_at dev.qsets (item q s p) (slot q s p) ≡ some block
      → tmp_buf < min n (q - offset q s p)
      → read_at (paged_ops k alloc) k dev n (pos p) (place q s p) ≡ fault stack_smashed
  unfolding read_at copy_found
  read_at-smashes dev v r n there big =
      let found : (follow k 0 (item q s p) dev.qsets).1 ≡ true =
        stored-found k 0 (item q s p) (slot q s p) dev.qsets block there in
      simp
        (
          item_uint k q s dev v p r,
          found,
          find_node q s (followed k q s dev v p r).qsets (item q s p) (slot q s p)
              (follow-All k (NodeFits q s) tt 0 (item q s p) dev.qsets v.nodes_fit)
              (follow-found k 0 (item q s p) dev.qsets found) (slot-lt k q s dev v p r),
          block_at-follow k 0 (item q s p) dev.qsets (item q s p) (slot q s p),
          there,
          within_quantum-min q s p n dev v,
          bounce_out-smashes k block (offset q s p) (min n (q - offset q s p)) big,
        )
        refl

  -- With the lock had, a read on a valid device whose range holds more than 968 bytes of the quantum
  -- that is stored at `p` writes past the end of `tmpBuf`.
  pub big_read-smashes :
      (dev : ScullDev) (count : ℕ)
      → Fits q s dev count p
      → k.interrupted ≡ false
      → p < dev.size
      → block_at dev.qsets (item q s p) (slot q s p) ≡ some block
      → tmp_buf < min (min count (dev.size - p)) (q - offset q s p)
      → read_with (paged_ops k alloc) k dev count (pos p) ≡ fault stack_smashed
  unfolding read_with read_inside_lock
  big_read-smashes dev count fits had before there big =
      simp (had, in_file, locate-place q s p (lock dev) v fits.reachable, smashed) refl
    where
      v : IsValid q s (lock dev)
      v = locked-IsValid fits.valid

      in_file : leb dev.size (to_size (pos p)) ≡ false
      in_file =
          lt→leb dev.size (to_size (pos p))
            (omega (arith, to_size-pos p (omega (arith, fits.position_fits)), before))

      smashed :
          read_at
            (paged_ops k alloc)
            k
            (lock dev)
            (within_size (lock dev) (pos p) count)
            (pos p)
            (place q s p)
          ≡ fault stack_smashed
      smashed =
          read_at-smashes (lock dev) v fits.reachable (within_size (lock dev) (pos p) count) there (
            omega (
              arith,
              big,
              within_size-min (lock dev) count p before fits.valid.size_fits fits.count_fits,
            ))
