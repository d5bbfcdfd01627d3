-- ===== src/Snull.antt =====
-- network_device/snull_device.c: two network interfaces, each of which receives what the other
-- sends. Here: the state of both.
pub mod Pool
pub mod Receive
pub mod Interrupt
pub mod Transmit
pub mod Control
pub mod Devices
pub mod Ledger
pub mod Polling
pub mod Sending
pub mod SendEffect
pub mod Lockups
pub mod Bursts
pub mod Addresses
use ldd3_kernel.Prelude.{ℕ, ◌+◌, ◌%◌, Bool, true, false, List, [], Option, none, if◌then◌else◌}
use ldd3_kernel.Int.{ℤ, size_mod}
use ldd3_kernel.Kernel.{Run, done, fault, deadlock, ◌>>=◌}

-- The elements of `snull_devs`
pub data Side : Type 0 where
  sn0 sn1 : Side

abbrev pub twin : Side → Side
twin sn0 = sn1
twin sn1 = sn0

-- `struct snull_packet`, where `next` is the tail of the list that holds it; `bytes` is `data` up to
-- `datalen`
pub record SnullPacket : Type 0 where
  pub dev : Side
  pub bytes : List ℕ

-- The counters of `struct net_device_stats` that the driver uses, of type unsigned long
pub record NetDeviceStats : Type 0 where
  pub rx_packets : ℕ
  pub rx_bytes : ℕ
  pub rx_dropped : ℕ
  pub tx_packets : ℕ
  pub tx_bytes : ℕ
  pub tx_errors : ℕ

-- `stat += n`
abbrev pub plus : ℕ → ℕ → ℕ
plus stat n = (stat + n) % size_mod

-- `struct snull_priv`: `rx_intr` and `tx_intr` are the two bits of `status`, a socket buffer is a
-- number, and `lock` says whether the spin lock is held.
pub record SnullPriv : Type 0 where
  pub stats : NetDeviceStats
  pub rx_intr : Bool
  pub tx_intr : Bool
  pub ppool : List SnullPacket
  pub rx_queue : List SnullPacket
  pub rx_int_enabled : Bool
  pub tx_packetlen : ℕ
  pub skb : Option ℕ
  pub lock : Bool

-- An interface: its private part and what the driver uses of `struct net_device`. `stopped` is the
-- state of the transmit queue, `scheduled` says that NAPI has been asked to poll, `upward` holds the
-- frames that the upper layers have been given, the first one first, and `freed` the socket buffers
-- that have been given back.
pub record NetDevice : Type 0 where
  pub priv : SnullPriv
  pub stopped : Bool
  pub up : Bool
  pub napi_enabled : Bool
  pub scheduled : Bool
  pub mtu : ℤ
  pub irq : ℕ
  pub base_addr : ℕ
  pub dev_addr : List ℕ
  pub upward : List (List ℕ)
  pub freed : List ℕ

pub record Snull : Type 0 where
  pub first : NetDevice
  pub second : NetDevice

abbrev pub at : Side → Snull → NetDevice
at sn0 s = s.first
at sn1 s = s.second

abbrev pub put : Side → NetDevice → Snull → Snull
put sn0 d s = record s { first = d }
put sn1 d s = record s { second = d }

-- The module's parameters
pub record Params : Type 0 where
  pub lockup : ℕ
  pub use_napi : Bool
  pub pool_size : ℕ

-- The kernel as the interfaces meet it: whether a request for the memory of a packet or of a socket
-- buffer, by its number, is met; whether `napi_complete_done` says that polling is over; the two
-- bytes of the checksum of an IP header.
pub record NetKernel : Type 0 where
  pub kmalloc : ℕ → Bool
  pub dev_alloc_skb : ℕ → Bool
  pub napi_complete_done : ℕ → Bool
  pub ip_fast_csum : List ℕ → ℕ × ℕ

-- `spin_lock` and `spin_unlock`
abbrev pub acquire : NetDevice → Run NetDevice
acquire d =
    if d.priv.lock then fault deadlock else done (record d { priv = record d.priv { lock = true } })

abbrev pub free_lock : NetDevice → NetDevice
free_lock d = record d { priv = record d.priv { lock = false } }
