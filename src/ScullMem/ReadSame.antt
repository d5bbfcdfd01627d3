-- ===== src/ScullMem/ReadSame.antt =====
-- A read over `Ops` is a read of the memory device of scull_full.
use ldd3_kernel.Prelude.{
  ℕ, ◌+◌, ◌-◌, ◌*◌, ◌%◌, ◌≤◌, ◌<◌, ◌≡◌, refl, ap, sym, ◌∙◌, min, Bool, true, false, List, [],
  Option, none, some, arith, length, take, drop, inl, inr, leb, ◌==◌, if◌then◌else◌, le→leb, leb→lt,
  Bool-cases,
}
use native.Mathlib.Nat.{mod-lt}
use ldd3_kernel.Int.{ℤ, pos, to_uint, to_size, to_size-pos}
use ldd3_kernel.Kernel.{Kernel, ok, err, erestartsys, Run, done, ◌>>=◌}
use ldd3_kernel.ScullDev.{ScullDev, ScullQset, Quantum, lock, unlock}
use ldd3_kernel.ScullDev.Follow.{follow}
use ldd3_kernel.ScullDev.Read.{
  scull_dev_read, read_locked, read_place, copy_out, Reading, find_quantum, within_size,
}
use ldd3_kernel.ScullDev.Valid.{IsValid, NodeFits, locked-IsValid}
use ldd3_kernel.ScullDev.Places.{
  item, slot, offset, place, IsReachable, locate-place, block_at, follow-All, follow-found,
  block_at-follow,
}
use ldd3_kernel.ScullDev.Lookup.{Fits, within_quantum-min, within_size-min, find_node}
use ldd3_kernel.ScullDev.Reading.{
  followed, item_uint, slot-lt, stored-fits, read_place-reached, read_place-lost,
}
use ldd3_kernel.ScullDev.Writing.{writable}
use ldd3_kernel.ScullMem.{Ops}
use ldd3_kernel.ScullMem.Read.{finish_read, copy_found, read_at, read_inside_lock, read_with}
use ldd3_kernel.ScullMem.Simulation.{Simulates, sent}

module _ (ops : Ops) (k k' : Kernel) (q s m : ℕ) (sim : Simulates ops k k' q m) where
  sent-finish :
      (dev : ScullDev) (f_pos : ℤ) (n : ℕ) (bytes : List ℕ)
      → done (finish_read dev f_pos n (sent k' bytes)) ≡ (
          if k'.copy_to_user bytes == 0
          then done (finish_read dev f_pos n (some bytes))
          else done (finish_read dev f_pos n none))
  sent-finish dev f_pos n bytes = elim (Bool-cases (k'.copy_to_user bytes == 0)) [
    | inl h ↦ rw h refl
    | inr h ↦ rw h refl
  ]

  module _ (dev : ScullDev) (v : IsValid q s dev) (p : ℕ) (r : IsReachable q s p) (n : ℕ)
      (small : min n (q - offset q s p) ≤ m) where
    copy_found-same :
        (o : Option Quantum)
        → ((block : Quantum) → o ≡ some block → length block ≡ q)
        → copy_found ops (followed k' q s dev v p r) n (pos p) (place q s p) o
          ≡ copy_out k' (followed k' q s dev v p r) n (pos p) (place q s p) o
    unfolding copy_found copy_out
    copy_found-same none l = refl
    copy_found-same (some block) l =
        rw
          (
            within_quantum-min q s p n dev v,
            sim.same_out block (offset q s p) (min n (q - offset q s p)) (l block refl) inside
                small,
            le→leb (offset q s p + min n (q - offset q s p)) (length block)
                (omega (arith, inside, l block refl)),
          )
          (sent-finish (followed k' q s dev v p r) (pos p) (min n (q - offset q s p))
            (take (min n (q - offset q s p)) (drop (offset q s p) block)))
      where
        inside : offset q s p + min n (q - offset q s p) ≤ q
        inside = grind (arith, mod-lt (p % (q * s)) v.quantum_pos)

    read_at-reached :
        (follow k' 0 (item q s p) dev.qsets).1 ≡ true
        → read_at ops k' dev n (pos p) (place q s p) ≡ read_place k' dev n (pos p) (place q s p)
    unfolding read_at
    read_at-reached e =
        simp
          (
            item_uint k' q s dev v p r,
            e,
            find_node q s (followed k' q s dev v p r).qsets (item q s p) (slot q s p)
                (follow-All k' (NodeFits q s) tt 0 (item q s p) dev.qsets v.nodes_fit)
                (follow-found k' 0 (item q s p) dev.qsets e) (slot-lt k' q s dev v p r),
            block_at-follow k' 0 (item q s p) dev.qsets (item q s p) (slot q s p),
          )
          (copy_found-same (block_at dev.qsets (item q s p) (slot q s p))
              (stored-fits k' q s dev v p r)
            ∙ sym (read_place-reached k' q s dev v p r n e))

    read_at-lost :
        (follow k' 0 (item q s p) dev.qsets).1 ≡ false
        → read_at ops k' dev n (pos p) (place q s p) ≡ read_place k' dev n (pos p) (place q s p)
    unfolding read_at
    read_at-lost e =
        simp (item_uint k' q s dev v p r, e) (sym (read_place-lost k' q s dev v p r n e))

    abbrev resume : List ScullQset × Bool × ℕ → Run Reading
    resume t =
        if t.1
        then (find_quantum t.0 (place q s p) >>= λ o.
            copy_found ops (record dev { qsets = t.0 }) n (pos p) (place q s p) o)
        else done (record dev { qsets = t.0 }, pos p, ok (0, []))

    read_at-same :
        read_at ops k dev n (pos p) (place q s p) ≡ read_place k' dev n (pos p) (place q s p)
    unfolding read_at
    read_at-same =
        ap resume (sim.same_follow 0 (to_uint (pos (item q s p))) dev.qsets)
        ∙ elim (Bool-cases (follow k' 0 (item q s p) dev.qsets).1) [
          | inl found ↦ read_at-reached found
          | inr lost ↦ read_at-lost lost
        ]

  read_inside_lock-same :
      (dev : ScullDev) (count p : ℕ)
      → Fits q s dev count p
      → writable q s count p ≤ m
      → read_inside_lock ops k dev count (pos p) ≡ read_locked k' dev count (pos p)
  unfolding read_inside_lock read_locked
  read_inside_lock-same dev count p fits small =
      elim (Bool-cases (leb dev.size (to_size (pos p)))) [
        | inl behind ↦ simp behind refl
        | inr before ↦
            simp (before, locate-place q s p dev fits.valid fits.reachable)
              (read_at-same dev fits.valid p fits.reachable (within_size dev (pos p) count)
                (cut before))
      ]
    where
      cut :
          leb dev.size (to_size (pos p)) ≡ false
          → min (within_size dev (pos p) count) (q - offset q s p) ≤ m
      cut before =
          let e : to_size (pos p) ≡ p = to_size-pos p (omega (arith, fits.position_fits)) in
          let inside : p < dev.size = leb→lt dev.size p (ap (leb dev.size) (sym e) ∙ before) in
          omega
            (arith, small, within_size-min dev count p inside fits.valid.size_fits fits.count_fits)

  abbrev give_back : Run Reading → Run Reading
  give_back run = run >>= λ out. done (unlock out.0, out.1, out.2)

  -- On a valid device the two reads are the same, whatever the lock and the copies do.
  pub read_with-same :
      (dev : ScullDev) (count p : ℕ)
      → Fits q s dev count p
      → writable q s count p ≤ m
      → read_with ops k dev count (pos p) ≡ scull_dev_read k' dev count (pos p)
  unfolding read_with scull_dev_read
  read_with-same dev count p fits small =
      ap (λ run. if k.interrupted then done (dev, pos p, err erestartsys) else give_back run)
        (read_inside_lock-same (lock dev) count p (locked fits) small)
      ∙ ap
          (λ b.
            if b
            then done (dev, pos p, err erestartsys)
            else give_back (read_locked k' (lock dev) count (pos p)))
          (sym sim.same_lock)
    where
      locked : Fits q s dev count p → Fits q s (lock dev) count p
      locked f = record {
        valid = locked-IsValid f.valid;
        reachable = f.reachable;
        position_fits = f.position_fits;
        count_fits = f.count_fits;
      }
