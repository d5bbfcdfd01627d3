-- ===== src/Tests/Access.antt =====
-- The drivers over the memory device.
use ldd3_kernel.Prelude.{
  ◌^◌, ℕ, ◌≤◌, ◌<◌, ◌≡◌, refl, true, false, List, [], ◌∷◌, none, some, All, arith, replicate,
}
use ldd3_kernel.Int.{size_mod, pos, negsuc, sub_ℕ, to_int, to_uint, to_long, to_size, div_checked}
use ldd3_kernel.Kernel.{Kernel, Reply, Run, ◌>>=◌, ok, done, fault, divide_error}
use ldd3_kernel.ScullDev.{ScullDev, construct_scull_dev}
use ldd3_kernel.ScullDev.Trim.{scull_dev_open, scull_trim, free_qsets}
use ldd3_kernel.ScullDev.Write.{scull_dev_write}
use ldd3_kernel.ScullDev.Follow.{locate, follow}
use ldd3_kernel.ScullDev.Read.{scull_dev_read}
use ldd3_kernel.ScullDev.Seek.{scull_dev_llseek, seek_target}
use ldd3_kernel.Scull.{
  Scull, init_scull, scull_open, scull_read, scull_write, scull_llseek, clean_scull,
}
use ldd3_kernel.ScullSingle.{init_scull_single, atomic_dec_and_test}
use ldd3_kernel.ScullSingle.Exclusion
use ldd3_kernel.ScullSingle.Exclusion.{single_exclusive}
use ldd3_kernel.ScullUid.{Caller, init_scull_uid, entered, grab}
use ldd3_kernel.ScullUid.Ownership
use ldd3_kernel.ScullUid.Ownership.{is_admitted, uid_owned}
use ldd3_kernel.ScullWuid.{ScullWuid, Round, enters, scull_w_available, enter, scull_wuid_release}
use ldd3_kernel.Sleep.{Wake}
use ldd3_kernel.ScullWuid.Waiting.{LastMet, entry_at, wuid_enter_lem, wuid_release_lem}
use ldd3_kernel.ScullPriv.{
  ScullPriv, zeroed_dev, find, update, scull_priv_open, scull_priv_lookfor_device, device_or_new,
  new_item, open_found,
}
use ldd3_kernel.ScullPriv.Terminals.{priv_isolates, fresh_write_faults}
use ldd3_kernel.Tests.Kernels.{kernel}

-- One open has the device and a second one has just missed it.
contended :
    Exclusion.Reachable (atomic_dec_and_test (atomic_dec_and_test init_scull_single).0).0 1 1
unfolding init_scull_single atomic_dec_and_test to_int
contended =
    Exclusion.Reachable.misses
      (Exclusion.Reachable.takes Exclusion.Reachable.fresh (omega arith) refl) (omega arith) refl

single_exclusive_example :
    (1 ≤ 1)
    × ((atomic_dec_and_test (atomic_dec_and_test init_scull_single).0).0.available ≡ sub_ℕ 1 2)
single_exclusive_example = single_exclusive contended

abbrev alice : Caller
alice = record { uid = 1000; euid = 1000; dac_override = false }

abbrev superuser : Caller
superuser = record { uid = 0; euid = 0; dac_override = true }

visited :
    Ownership.Reachable (entered (entered init_scull_uid alice) superuser) (superuser ∷ alice ∷ [])
unfolding init_scull_uid grab to_int
visited =
    Ownership.Reachable.enters superuser
      (Ownership.Reachable.enters alice Ownership.Reachable.fresh (omega arith) refl) (omega arith)
      refl

uid_owned_example :
    let u = entered (entered init_scull_uid alice) superuser in
    (u.count ≡ 2)
    × (2 < size_mod)
    × All (λ c. is_admitted u.owner c ≡ true) (superuser ∷ alice ∷ [])
uid_owned_example = uid_owned visited

-- Terminal 5 has a new device.
abbrev desk : ScullPriv
desk = record { items = record { dev = zeroed_dev; key = 5 } ∷ [] }

abbrev desks : ScullPriv
desks = record {
  items = record { dev = zeroed_dev; key = 7 } ∷ record { dev = zeroed_dev; key = 5 } ∷ [];
}

open_runs : scull_priv_open kernel 64 desk (some 7) 2 ≡ done (desks, ok tt)
unfolding scull_priv_open scull_priv_lookfor_device device_or_new new_item open_found find update
    scull_dev_open scull_trim free_qsets
open_runs = refl

priv_isolates_example : find desks.items 5 ≡ find desk.items 5
priv_isolates_example =
    priv_isolates kernel 64 desk desks 7 5 2 (ok tt) (λ e. omega arith) open_runs

missing : find desk.items 7 ≡ none
unfolding find
missing = refl

fresh_write_faults_example :
    (priv' : ScullPriv) × (dev : ScullDev) × (scull_priv_open kernel 64 desk (some 7) 2
      ≡ done (priv', ok tt))
    × (find priv'.items 7 ≡ some dev)
    × ((k' : Kernel) (buf : List ℕ) (count : ℕ) (f_pos : _)
        → k'.interrupted ≡ false
        → scull_dev_write k' dev buf count f_pos ≡ fault divide_error)
fresh_write_faults_example =
    fresh_write_faults kernel 64 desk 7 2 (replicate 64 170) missing refl refl

-- Alice has the device; Bob finds it taken, and free when he wakes.
abbrev bob : Caller
bob = record { uid = 1001; euid = 1001; dac_override = false }

abbrev taken : ScullWuid
taken = record { dev = zeroed_dev; owner = 1000; count = 1 }

abbrev freed : ScullWuid
freed = record taken { count = 0 }

abbrev wait_once : List Round
wait_once = record { signal = false; found = freed } ∷ []

enter_runs : enter wait_once taken bob false ≡ enters (record freed { owner = 1001; count = 1 })
unfolding enter
enter_runs = refl

wuid_enter_lem_example :
    (last : ScullWuid) × (wake : Wake) × LastMet bob false wait_once taken last wake
    × (enter wait_once taken bob false ≡ entry_at bob last wake)
wuid_enter_lem_example = wuid_enter_lem bob false wait_once taken

wuid_release_lem_example :
    let (w', r, woken) = scull_wuid_release taken in
    (w' ≡ freed)
    × (r ≡ ok tt)
    × (woken ≡ true)
    × (1 ≤ 2 ^ 32 → (woken ≡ true) × (woken ≡ true → scull_w_available w' bob ≡ true))
wuid_release_lem_example = wuid_release_lem taken bob (omega arith) (omega arith)

-- A scull device with quanta of 4 bytes in arrays of 2
abbrev tiny : Scull
tiny = record {
  dev = record {
    qsets = [];
    quantum = pos 4;
    qset = pos 2;
    new_quantum = pos 4;
    new_qset = pos 2;
    size = 0;
    mutex = false;
  };
}

-- Opened, written, sought back, read: the reply of the read
abbrev session : Run (Reply (ℕ × List ℕ))
session = scull_open kernel tiny 2 >>= λ opened.
    scull_write kernel opened.0 (7 ∷ 8 ∷ []) 2 (pos 1) >>= λ written.
    let (f_pos, r) = scull_llseek written.0 written.1 (negsuc 1) 1 in
    scull_read kernel written.0 9 f_pos >>= λ out. done out.2

session_runs : session ≡ done (ok (2, 7 ∷ 8 ∷ []))
unfolding scull_dev_open scull_dev_write scull_dev_read scull_dev_llseek seek_target locate follow
    to_int to_uint to_long to_size div_checked
session_runs = refl

clean_runs : clean_scull init_scull ≡ done (init_scull, 0)
unfolding scull_trim free_qsets construct_scull_dev
clean_runs = refl
