-- ===== src/Snull/Control.antt =====
-- __snull_open, __snull_release, __snull_config, __snull_change_mtu, __snull_ioctl, __snull_stats,
-- snull_rebuild_header, snull_header and snull_init.
use ldd3_kernel.Prelude.{
  ℕ, Bool, true, false, ◌||◌, List, [], ◌∷◌, ◌++◌, Option, none, some, ltb, ◌==◌, if◌then◌else◌,
  take, drop,
}
use ldd3_kernel.Int.{ℤ, pos, negsuc}
use ldd3_kernel.Kernel.{Reply, ok, err, ebusy, einval, eopnotsupp, Run, done, ◌>>=◌}
use ldd3_kernel.Snull.{
  Side, sn0, sn1, NetDeviceStats, SnullPriv, NetDevice, NetKernel, Params, acquire, free_lock,
}
use ldd3_kernel.Snull.Pool.{setup_pool, rx_ints}
use ldd3_kernel.Snull.Transmit.{xor_one}

-- "\0SNUL0" and "\0SNUL1"
abbrev pub hw_addr : Side → List ℕ
hw_addr sn0 = 0 ∷ 83 ∷ 78 ∷ 85 ∷ 76 ∷ 48 ∷ []
hw_addr sn1 = 0 ∷ 83 ∷ 78 ∷ 85 ∷ 76 ∷ 49 ∷ []

unfoldable pub snull_open : Params → Side → NetDevice → NetDevice × Reply (Unit {0})
snull_open params side d = (
  record d {
    dev_addr = hw_addr side;
    napi_enabled = if params.use_napi then true else d.napi_enabled;
    stopped = false;
  },
  ok tt,
)

unfoldable pub snull_release : Params → NetDevice → NetDevice × Reply (Unit {0})
snull_release params d = (
  record d { stopped = true; napi_enabled = if params.use_napi then false else d.napi_enabled },
  ok tt,
)

-- The fields of `struct ifmap` that are looked at
pub record Ifmap : Type 0 where
  pub base_addr : ℕ
  pub irq : ℕ

unfoldable pub config : NetDevice → Ifmap → NetDevice × Reply (Unit {0})
config d map =
    if d.up
    then (d, err ebusy)
    else if map.base_addr == d.base_addr
    then (if map.irq == d.irq then d else record d { irq = map.irq }, ok tt)
    else (d, err eopnotsupp)

-- `(new_mtu < 68) || (new_mtu > 1500)`
abbrev pub bad_mtu : ℤ → Bool
bad_mtu (pos n) = ltb n 68 || ltb 1500 n
bad_mtu (negsuc n) = true

unfoldable pub change_mtu : NetDevice → ℤ → Run (NetDevice × Reply (Unit {0}))
change_mtu d new_mtu =
    if bad_mtu new_mtu
    then done (d, err einval)
    else (acquire d >>= λ d'. done (free_lock (record d' { mtu = new_mtu }), ok tt))

abbrev ioctl : NetDevice → NetDevice × Reply (Unit {0})
ioctl d = (d, ok tt)

abbrev stats : NetDevice → NetDeviceStats
stats d = d.priv.stats

abbrev flip_first : List ℕ → List ℕ
flip_first [] = []
flip_first (x ∷ xs) = xor_one x ∷ xs

-- An address of 6 bytes with its last byte xor 1
abbrev pub dest_of : List ℕ → List ℕ
dest_of addr = take 5 addr ++ flip_first (drop 5 addr)

-- `h_dest`, then `h_source`, in the first 12 bytes of the frame
unfoldable pub rebuild_header : List ℕ → NetDevice → List ℕ
rebuild_header frame d = dest_of d.dev_addr ++ (d.dev_addr ++ drop 12 frame)

abbrev pub or_own : Option (List ℕ) → List ℕ → List ℕ
or_own none own = own
or_own (some addr) own = addr

-- A header of 14 bytes before the frame; `proto` is `htons(type)`, and the reply is
-- `hard_header_len`, which ether_setup has made 14.
unfoldable pub header : List ℕ → NetDevice → ℕ × ℕ → Option (List ℕ) → Option (List ℕ) → List ℕ × ℕ
header frame d proto daddr saddr = (
  dest_of (or_own daddr d.dev_addr) ++ (or_own saddr d.dev_addr ++ (proto.0 ∷ proto.1 ∷ frame)),
  14,
)

abbrev pub no_stats : NetDeviceStats
no_stats = record {
  rx_packets = 0;
  rx_bytes = 0;
  rx_dropped = 0;
  tx_packets = 0;
  tx_bytes = 0;
  tx_errors = 0;
}

-- `memset(priv, 0, sizeof(struct snull_priv))`
abbrev pub zeroed_priv : SnullPriv
zeroed_priv = record {
  stats = no_stats;
  rx_intr = false;
  tx_intr = false;
  ppool = [];
  rx_queue = [];
  rx_int_enabled = false;
  tx_packetlen = 0;
  skb = none;
  lock = false;
}

unfoldable pub init : NetKernel → Params → Side → NetDevice → NetDevice
init k params side d =
    setup_pool k params.pool_size side (rx_ints (record d { priv = zeroed_priv }) true)
