-- ===== src/Sbull/Devices.antt =====
-- sbull_add_device and sbull_remove_device, for requests through blk-mq: what the driver holds.
use ldd3_kernel.Prelude.{◌≡◌, refl, Bool, true, false, if◌then◌else◌}
use ldd3_kernel.Kernel.{Reply, ok, err, enomem, Errno, Run, done, fault, bad_access, ◌>>=◌}

-- What has been had from the kernel and not been given back: the device's memory, its data, its tag
-- set and its disk, and whether the disk has been added
pub record Held : Type 0 where
  pub dev : Bool
  pub area : Bool
  pub tag_set : Bool
  pub disk : Bool
  pub added : Bool

abbrev pub nothing : Held
nothing = record { dev = false; area = false; tag_set = false; disk = false; added = false }

abbrev pub everything : Held
everything = record { dev = true; area = true; tag_set = true; disk = true; added = true }

-- What the kernel answers; `none` of an error number for success
pub record Answers : Type 0 where
  pub kzalloc : Bool
  pub vmalloc : Bool
  pub alloc_tag_set : Reply (Unit {0})
  pub alloc_disk : Reply (Unit {0})
  pub add_disk : Reply (Unit {0})

-- Giving back what is not held is a fault.
abbrev kfree : Held → Run Held
kfree h = if h.dev then done (record h { dev = false }) else fault bad_access

abbrev vfree : Held → Run Held
vfree h = if h.area then done (record h { area = false }) else fault bad_access

abbrev free_tag_set : Held → Run Held
free_tag_set h = if h.tag_set then done (record h { tag_set = false }) else fault bad_access

abbrev put_disk : Held → Run Held
put_disk h = if h.disk then done (record h { disk = false }) else fault bad_access

abbrev del_gendisk : Held → Run Held
del_gendisk h = if h.added then done (record h { added = false }) else fault bad_access

-- The labels, each of which falls through to the next
abbrev fail : Errno → Held → Run (Held × Reply (Unit {0}))
fail ret h = done (h, err ret)

abbrev fail_kfree : Errno → Held → Run (Held × Reply (Unit {0}))
fail_kfree ret h = kfree h >>= fail ret

abbrev fail_vfree : Errno → Held → Run (Held × Reply (Unit {0}))
fail_vfree ret h = vfree h >>= fail_kfree ret

abbrev fail_free_tag_set : Errno → Held → Run (Held × Reply (Unit {0}))
fail_free_tag_set ret h = free_tag_set h >>= fail_vfree ret

abbrev fail_put_disk : Errno → Held → Run (Held × Reply (Unit {0}))
fail_put_disk ret h = put_disk h >>= fail_free_tag_set ret

abbrev or_fail :
    Reply (Unit {0})
    → Held
    → (Errno → Held → Run (Held × Reply (Unit {0})))
    → Run (Held × Reply (Unit {0}))
    → Run (Held × Reply (Unit {0}))
or_fail (ok _) h label next = next
or_fail (err e) h label next = label e h

unfoldable pub add_device : Answers → Held → Run (Held × Reply (Unit {0}))
add_device a h =
    if a.kzalloc
    then (let h₁ = record h { dev = true } in
        if a.vmalloc
        then (let h₂ = record h₁ { area = true } in
            or_fail a.alloc_tag_set h₂ fail_vfree (
              let h₃ = record h₂ { tag_set = true } in
              or_fail a.alloc_disk h₃ fail_free_tag_set (
                let h₄ = record h₃ { disk = true } in
                or_fail a.add_disk h₄ fail_put_disk (done (record h₄ { added = true }, ok tt)))))
        else fail_kfree enomem h₁)
    else fail enomem h

unfoldable pub remove_device : Held → Run Held
remove_device h = del_gendisk h >>= put_disk >>= free_tag_set >>= vfree >>= kfree

abbrev pub Outcome : Held × Reply (Unit {0}) → Type 0
Outcome (h, ok _) = (h ≡ everything) × (remove_device h ≡ done nothing)
Outcome (h, err _) = h ≡ nothing

-- Whatever the kernel answers, adding the device gives nothing back that it does not hold. If it
-- succeeds, all is held, and removing the device gives all of it back; if it fails, nothing is held.
pub add_device_balance :
    (a : Answers)
    → (out : Held × Reply (Unit {0})) × (add_device a nothing ≡ done out) × Outcome out
unfolding add_device remove_device
add_device_balance a = go a.kzalloc a.vmalloc a.alloc_tag_set a.alloc_disk a.add_disk
  where
    go :
        (z v : Bool) (t d s : Reply (Unit {0}))
        → (out : Held × Reply (Unit {0})) × (add_device
              (record { kzalloc = z; vmalloc = v; alloc_tag_set = t; alloc_disk = d; add_disk = s })
              nothing
            ≡ done out)
          × Outcome out
    go false v t d s = ((nothing, err enomem), refl, refl)
    go true false t d s = ((nothing, err enomem), refl, refl)
    go true true (err e) d s = ((nothing, err e), refl, refl)
    go true true (ok _) (err e) s = ((nothing, err e), refl, refl)
    go true true (ok _) (ok _) (err e) = ((nothing, err e), refl, refl)
    go true true (ok _) (ok _) (ok _) = ((everything, ok tt), refl, (refl, refl))
