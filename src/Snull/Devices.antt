-- ===== src/Snull/Devices.antt =====
-- snull_add_device and snull_remove_device: which interfaces there are and which are registered.
use ldd3_kernel.Prelude.{
  ℕ, ◌+◌, ◌≡◌, refl, Bool, true, false, ◌||◌, Option, none, some, length, if◌then◌else◌, if_cases,
}
use ldd3_kernel.Kernel.{Reply, ok, err, enomem, enodev, Errno}
use ldd3_kernel.Snull.{Side, sn0, sn1, Params, NetKernel, NetDevice}
use ldd3_kernel.Snull.Control.{init}
use ldd3_kernel.Snull.Pool.{teardown_pool}

-- An element of `snull_devs` that is not null, and whether it is registered
pub record Slot : Type 0 where
  pub device : NetDevice
  pub is_registered : Bool

-- `snull_devs`, whether an interface has been unregistered that was not registered, which the
-- kernel warns of, and how many packets have been lost with a receive queue
pub record SnullDevs : Type 0 where
  pub devs : Side → Option Slot
  pub warned : Bool
  pub leaked : ℕ

-- What the kernel answers: a blank interface, or none; and whether it can be registered
pub record NetAnswers : Type 0 where
  pub alloc_netdev : Side → Option NetDevice
  pub register_netdev : Side → Bool

-- `alloc_netdev`, which calls snull_init
abbrev allocate : NetKernel → Params → Side → Option NetDevice → Option Slot
allocate k params side none = none
allocate k params side (some blank) =
    some (record { device = init k params side blank; is_registered = false })

abbrev register : Bool → Option Slot → Option Slot
register success none = none
register success (some slot) = some (record slot { is_registered = success })

abbrev is_null : Option Slot → Bool
is_null none = true
is_null (some slot) = false

abbrev never_registered : Option Slot → Bool
never_registered none = false
never_registered (some slot) = if slot.is_registered then false else true

-- The packets that are left when the pool has been emptied
abbrev left_behind : Option Slot → ℕ
left_behind none = 0
left_behind (some slot) = length (teardown_pool slot.device).priv.rx_queue

-- Each interface is unregistered, its pool emptied and its memory freed.
unfoldable pub remove_devices : SnullDevs → SnullDevs
remove_devices s = record {
  devs = λ side. none;
  warned = s.warned || never_registered (s.devs sn0) || never_registered (s.devs sn1);
  leaked = s.leaked + left_behind (s.devs sn0) + left_behind (s.devs sn1);
}

abbrev out_label : Option Errno → SnullDevs → SnullDevs × Reply (Unit {0})
out_label none s = (s, ok tt)
out_label (some e) s = (remove_devices s, err e)

abbrev made : NetKernel → Params → NetAnswers → SnullDevs → SnullDevs
made k params a s = record s { devs = λ side. allocate k params side (a.alloc_netdev side) }

abbrev registered : NetAnswers → SnullDevs → SnullDevs
registered a s = record s { devs = λ side. register (a.register_netdev side) (s.devs side) }

-- `ret` after the loop: it is enough that one of the two can be registered.
abbrev after_loop : NetAnswers → Option Errno
after_loop a = if a.register_netdev sn0 || a.register_netdev sn1 then none else some enodev

abbrev lacks_one : SnullDevs → Bool
lacks_one s = is_null (s.devs sn0) || is_null (s.devs sn1)

unfoldable pub add_devices :
    NetKernel → Params → NetAnswers → SnullDevs → SnullDevs × Reply (Unit {0})
add_devices k params a s =
    if lacks_one (made k params a s)
    then out_label (some enomem) (made k params a s)
    else out_label (after_loop a) (registered a (made k params a s))

out_label-none :
    (o : Option Errno) (s : SnullDevs) (e : Errno) (side : Side)
    → (out_label o s).1 ≡ err e
    → (out_label o s).0.devs side ≡ none
unfolding remove_devices
out_label-none none s e side h = absurd (ok-ne-err h)
  where
    ok-ne-err : ◌≡◌ {A = Reply (Unit {0})} (ok tt) (err e) → ⊥
    ok-ne-err d = cc
out_label-none (some x) s e side h = refl

-- If adding the interfaces fails, there is none afterwards.
add_devices-failed :
    (k : NetKernel) (params : Params) (a : NetAnswers) (s : SnullDevs) (e : Errno)
    → (add_devices k params a s).1 ≡ err e
    → (side : Side) → (add_devices k params a s).0.devs side ≡ none
unfolding add_devices
add_devices-failed k params a s e h side =
    if_cases (λ out. out.1 ≡ err e → out.0.devs side ≡ none) (lacks_one (made k params a s))
      {x = out_label (some enomem) (made k params a s)}
      {y = out_label (after_loop a) (registered a (made k params a s))}
      (λ _. out_label-none (some enomem) (made k params a s) e side)
      (λ _. out_label-none (after_loop a) (registered a (made k params a s)) e side) h
