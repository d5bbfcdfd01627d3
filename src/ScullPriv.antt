-- ===== src/ScullPriv.antt =====
-- scull_full/include/scull_priv.h and scull_full/impl/scull_priv.c: a memory device for each
-- terminal, made when it is first opened there. The child Calls has the operations that pass a
-- call on to the memory device that the file has.
pub mod Terminals
pub mod Calls
use ldd3_kernel.Prelude.{ℕ, false, List, [], ◌∷◌, Option, none, some, ◌==◌, if◌then◌else◌}
use ldd3_kernel.Int.{ℤ, pos}
use ldd3_kernel.Kernel.{Kernel, Reply, ok, err, einval, enomem, Run, done, ◌>>=◌}
use ldd3_kernel.ScullDev.{ScullDev}
use ldd3_kernel.ScullDev.Trim.{scull_trim, scull_dev_open}
use ldd3_kernel.ScullDev.Write.{scull_dev_write, Writing}

-- `struct scull_listitem`, where the pointers of the list are a list, and `struct scull_priv`
pub record ScullListitem : Type 0 where
  pub dev : ScullDev
  pub key : ℕ

pub record ScullPriv : Type 0 where
  pub items : List ScullListitem

unfoldable pub init_scull_priv : ScullPriv
init_scull_priv = record { items = [] }

-- A device after `memset(lptr, 0, sizeof(struct scull_listitem))`
abbrev pub zeroed_dev : ScullDev
zeroed_dev = record {
  qsets = [];
  quantum = pos 0;
  qset = pos 0;
  new_quantum = pos 0;
  new_qset = pos 0;
  size = 0;
  mutex = false;
}

-- The device of the first item with the key
unfoldable pub find : List ScullListitem → ℕ → Option ScullDev
find [] key = none
find (item ∷ rest) key = if item.key == key then some item.dev else find rest key

-- The device that `find` finds, after a call has changed it
unfoldable pub update : List ScullListitem → ℕ → ScullDev → List ScullListitem
update [] key dev = []
update (item ∷ rest) key dev =
    let later = update rest key dev in
    if item.key == key then record item { dev = dev } ∷ rest else item ∷ later

-- A new item before the others, if there is memory for it, trimmed to initialize it
unfoldable pub new_item :
    List ScullListitem → ℕ → Option (List ℕ) → Run (List ScullListitem × Option ScullDev)
new_item items key none = done (items, none)
new_item items key (some mem) = scull_trim zeroed_dev >>= λ trimmed.
    (let dev : ScullDev = record (trimmed.0) { mutex = false } in
      done (record { dev = dev; key = key } ∷ items, some dev))

-- The device that was found, or a new one. `item_bytes` is the size of `struct scull_listitem`,
-- which depends on the kernel's `struct mutex`.
unfoldable pub device_or_new :
    Kernel
    → ℕ
    → List ScullListitem
    → ℕ
    → Option ScullDev
    → Run (List ScullListitem × Option ScullDev)
device_or_new k item_bytes items key (some dev) = done (items, some dev)
device_or_new k item_bytes items key none = new_item items key (k.kmalloc 0 item_bytes)

-- The list and the device, `none` where there is no memory for one
unfoldable pub scull_priv_lookfor_device :
    Kernel → ℕ → List ScullListitem → ℕ → Run (List ScullListitem × Option ScullDev)
unfolding new_item device_or_new
scull_priv_lookfor_device k item_bytes items key =
    device_or_new k item_bytes items key (find items key)

-- The device after its open
abbrev pub store_back :
    ScullPriv → List ScullListitem → ℕ → ScullDev × Reply (Unit {0}) → ScullPriv × Reply (Unit {0})
store_back priv items key (dev, r) = (record priv { items = update items key dev }, r)

-- `return scull_dev_open(dev, filp);` for the device that was found
unfoldable pub open_found :
    Kernel
    → ScullPriv
    → ℕ
    → ℕ
    → List ScullListitem × Option ScullDev
    → Run (ScullPriv × Reply (Unit {0}))
open_found k priv key f_flags (items, none) = done (record priv { items = items }, err enomem)
open_found k priv key f_flags (items, some dev) =
    scull_dev_open k dev f_flags >>= λ opened. done (store_back priv items key opened)

-- The terminal is the device number of the controlling terminal, if there is one. A file that is
-- open keeps its device; it is the one that `find` finds for the terminal.
unfoldable pub scull_priv_open :
    Kernel → ℕ → ScullPriv → Option ℕ → ℕ → Run (ScullPriv × Reply (Unit {0}))
scull_priv_open k item_bytes priv none f_flags = done (priv, err einval)
scull_priv_open k item_bytes priv (some key) f_flags =
    scull_priv_lookfor_device k item_bytes priv.items key >>= λ found.
    open_found k priv key f_flags found
