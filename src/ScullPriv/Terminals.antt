-- ===== src/ScullPriv/Terminals.antt =====
-- The devices of different terminals, and what a new one is worth.
use ldd3_kernel.Prelude.{
  ℕ, ◌≡◌, ◌≢◌, refl, sym, ap, ◌∙◌, inl, inr, false, List, [], ◌∷◌, Option, none, some, arith,
  Bool-cases,
}
use ldd3_kernel.Int.{ℤ, pos, to_int}
use ldd3_kernel.Kernel.{Kernel, Reply, ok, Run, Fault, done, fault, divide_error, ◌>>=◌}
use ldd3_kernel.ScullDev.{ScullDev}
use ldd3_kernel.ScullDev.Trim.{scull_trim, free_qsets, scull_dev_open, write_only}
use ldd3_kernel.ScullDev.Follow.{itemsize}
use ldd3_kernel.ScullDev.Write.{scull_dev_write}
use ldd3_kernel.ScullDev.IoctlEffect.{write_zero}
use ldd3_kernel.ScullPriv.{
  ScullListitem, ScullPriv, zeroed_dev, find, update, new_item, device_or_new, store_back,
  scull_priv_lookfor_device, open_found, scull_priv_open,
}

pub find-update_ne :
    (items : List ScullListitem) (key other : ℕ) (dev : ScullDev)
    → key ≢ other
    → find (update items key dev) other ≡ find items other
unfolding find update
find-update_ne [] key other dev ne = refl
find-update_ne (item ∷ rest) key other dev ne = ground (arith, find-update_ne rest key other dev ne)

find-update_self :
    (items : List ScullListitem) (key : ℕ) (dev old : ScullDev)
    → find items key ≡ some old
    → find (update items key dev) key ≡ some dev
unfolding find update
find-update_self [] key dev old h = cc
find-update_self (item ∷ rest) key dev old h = ground (arith, find-update_self rest key dev old)

new_item_lem :
    (items : List ScullListitem) (key : ℕ) (mem : List ℕ)
    → new_item items key (some mem)
      ≡ done (record { dev = zeroed_dev; key = key } ∷ items, some zeroed_dev)
unfolding new_item scull_trim free_qsets
new_item_lem items key mem = refl

fault-ne-done : {A : Type 0} {e : Fault} {a : A} → fault e ≡ done a → ⊥
fault-ne-done d = cc

done_injective : {A : Type 0} {a b : A} → done a ≡ done b → a ≡ b
done_injective {a} e = ap (λ r. elim r [ done x ↦ x | fault f ↦ a ]) e

new_item_isolates :
    (items : List ScullListitem) (key other : ℕ) (o : Option (List ℕ))
    → key ≢ other
    → (out : List ScullListitem × Option ScullDev) × (new_item items key o ≡ done out)
      × (find out.0 other ≡ find items other)
unfolding new_item find
new_item_isolates items key other none ne = ((items, none), refl, refl)
new_item_isolates items key other (some mem) ne = (
  (record { dev = zeroed_dev; key = key } ∷ items, some zeroed_dev),
  new_item_lem items key mem,
  ground arith,
)

device_or_new_isolates :
    (k : Kernel) (item_bytes : ℕ) (items : List ScullListitem) (key other : ℕ) (o : Option ScullDev)
    → key ≢ other
    → (out : List ScullListitem × Option ScullDev) × (device_or_new k item_bytes items key o
        ≡ done out)
      × (find out.0 other ≡ find items other)
unfolding device_or_new
device_or_new_isolates k item_bytes items key other (some dev) ne = ((items, some dev), refl, refl)
device_or_new_isolates k item_bytes items key other none ne =
    new_item_isolates items key other (k.kmalloc 0 item_bytes) ne

open_found_isolates :
    (k : Kernel) (priv priv' : ScullPriv) (key other f_flags : ℕ) (r : Reply (Unit {0}))
    (found : List ScullListitem × Option ScullDev)
    → key ≢ other
    → open_found k priv key f_flags found ≡ done (priv', r)
    → find priv'.items other ≡ find found.0 other
unfolding open_found
open_found_isolates k priv priv' key other f_flags r (items, none) ne e =
    ap (λ p. find (ScullPriv.items p.0) other) (sym (done_injective e))
open_found_isolates k priv priv' key other f_flags r (items, some dev) ne e =
    go (scull_dev_open k dev f_flags) e
  where
    stored : ScullDev × Reply (Unit {0}) → Run (ScullPriv × Reply (Unit {0}))
    stored opened = done (store_back priv items key opened)

    go :
        (x : Run (ScullDev × Reply (Unit {0})))
        → (x >>= stored) ≡ done (priv', r)
        → find priv'.items other ≡ find items other
    go (done (dev', r')) d =
        ap (λ p. find (ScullPriv.items p.0) other) (sym (done_injective d))
        ∙ find-update_ne items key other dev' ne
    go (fault f) d = absurd (fault-ne-done d)

-- An open with a terminal leaves the devices of the other terminals alone.
pub priv_isolates :
    (k : Kernel) (item_bytes : ℕ) (priv priv' : ScullPriv) (key other f_flags : ℕ)
    (r : Reply (Unit {0}))
    → key ≢ other
    → scull_priv_open k item_bytes priv (some key) f_flags ≡ done (priv', r)
    → find priv'.items other ≡ find priv.items other
unfolding scull_priv_open scull_priv_lookfor_device
priv_isolates k item_bytes priv priv' key other f_flags r ne e =
    let (found, look, same) =
      device_or_new_isolates k item_bytes priv.items key other (find priv.items key) ne in
    let e' : open_found k priv key f_flags found ≡ done (priv', r) =
      sym (ap (λ x. x >>= λ f. open_found k priv key f_flags f) look) ∙ e in
    open_found_isolates k priv priv' key other f_flags r found ne e' ∙ same

open_zeroed :
    (k : Kernel) (f_flags : ℕ)
    → k.interrupted ≡ false
    → scull_dev_open k zeroed_dev f_flags ≡ done (zeroed_dev, ok tt)
unfolding scull_dev_open scull_trim free_qsets
open_zeroed k f_flags had = elim (Bool-cases (write_only f_flags)) [
  | inl h ↦ simp (h, had) refl
  | inr h ↦ simp h refl
]

itemsize_zeroed : itemsize zeroed_dev ≡ pos 0
unfolding to_int
itemsize_zeroed = refl

new_found :
    (items : List ScullListitem) (key : ℕ)
    → find (record { dev = zeroed_dev; key = key } ∷ items) key ≡ some zeroed_dev
unfolding find
new_found items key = ground arith

-- Where a terminal has no device yet and there is memory for one, opening it succeeds whenever the
-- lock is granted, and every write on the new device that gets the lock divides by zero.
pub fresh_write_faults :
    (k : Kernel) (item_bytes : ℕ) (priv : ScullPriv) (key f_flags : ℕ) (mem : List ℕ)
    → find priv.items key ≡ none
    → k.kmalloc 0 item_bytes ≡ some mem
    → k.interrupted ≡ false
    → (priv' : ScullPriv) × (dev : ScullDev) × (scull_priv_open k item_bytes priv (some key) f_flags
        ≡ done (priv', ok tt))
      × (find priv'.items key ≡ some dev)
      × ((k' : Kernel) (buf : List ℕ) (count : ℕ) (f_pos : ℤ)
          → k'.interrupted ≡ false
          → scull_dev_write k' dev buf count f_pos ≡ fault divide_error)
unfolding scull_priv_open scull_priv_lookfor_device device_or_new open_found
fresh_write_faults k item_bytes priv key f_flags mem missing memory had =
    let items = record { dev = zeroed_dev; key = key } ∷ priv.items in
    (
      record priv { items = update items key zeroed_dev },
      zeroed_dev,
      simp (missing, memory, new_item_lem priv.items key mem, open_zeroed k f_flags had) refl,
      find-update_self items key zeroed_dev zeroed_dev (new_found priv.items key),
      λ k' buf count f_pos had'. write_zero k' zeroed_dev buf count f_pos had' itemsize_zeroed,
    )
