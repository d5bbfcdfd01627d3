-- ===== src/Snull/Interrupt.antt =====
-- snull_regular_interrupt and snull_napi_interrupt.
use ldd3_kernel.Prelude.{ℕ, Bool, true, false, [], ◌∷◌, ◌++◌, Option, none, some, if◌then◌else◌}
use ldd3_kernel.Kernel.{Run, done, ◌>>=◌}
use ldd3_kernel.Snull.{
  Side, SnullPacket, NetDevice, Snull, NetKernel, at, put, plus, acquire, free_lock,
}
use ldd3_kernel.Snull.Pool.{pop_queue, release_buffer, rx_ints}
use ldd3_kernel.Snull.Receive.{rx}

abbrev pub clear_status : NetDevice → NetDevice
clear_status d = record d { priv = record d.priv { rx_intr = false; tx_intr = false } }

abbrev pub count_tx : NetDevice → NetDevice
count_tx d = record d {
  priv = record d.priv {
    stats = record d.priv.stats {
      tx_packets = plus d.priv.stats.tx_packets 1;
      tx_bytes = plus d.priv.stats.tx_bytes d.priv.tx_packetlen;
    };
  };
}

-- `dev_kfree_skb`
abbrev pub kfree_skb : NetDevice → Option ℕ → NetDevice
kfree_skb d none = d
kfree_skb d (some skb) = record d { freed = d.freed ++ (skb ∷ []) }

abbrev pub rx_one : NetKernel → NetDevice × Option SnullPacket → NetDevice
rx_one k (d, none) = d
rx_one k (d, some pkt) = rx d pkt (k.dev_alloc_skb 0)

abbrev release_if : Snull → Option SnullPacket → Run Snull
release_if s none = done s
release_if s (some pkt) = release_buffer s pkt

-- The part with the lock held, by the two bits of the status word
unfoldable pub regular_locked : NetKernel → NetDevice → NetDevice × Option SnullPacket
regular_locked k d =
    let d₀ = clear_status d in
    let popped = if d.priv.rx_intr then pop_queue d₀ d₀.priv.rx_queue else (d₀, none) in
    let d₁ = rx_one k popped in
    (if d.priv.tx_intr then kfree_skb (count_tx d₁) d₁.priv.skb else d₁, popped.1)

-- The end of the handler: the lock is given back, then the buffer.
abbrev pub regular_end : Side → Snull → NetDevice × Option SnullPacket → Run Snull
regular_end side s out = release_if (put side (free_lock out.0) s) out.1

unfoldable pub regular_interrupt : NetKernel → Side → Snull → Run Snull
regular_interrupt k side s = acquire (at side s) >>= λ d. regular_end side s (regular_locked k d)

unfoldable pub napi_locked : NetDevice → NetDevice
napi_locked d =
    let d₀ = clear_status d in
    let d₁ = if d.priv.rx_intr then record (rx_ints d₀ false) { scheduled = true } else d₀ in
    if d.priv.tx_intr
    then (let d₂ = kfree_skb (count_tx d₁) d₁.priv.skb in
        record d₂ { priv = record d₂.priv { skb = none } })
    else d₁

unfoldable pub napi_interrupt : Side → Snull → Run Snull
napi_interrupt side s = acquire (at side s) >>= λ d. done (put side (free_lock (napi_locked d)) s)

-- `snull_interrupt`, as snull_add_device chooses it
unfoldable pub interrupt : NetKernel → Bool → Side → Snull → Run Snull
interrupt k use_napi side s = if use_napi then napi_interrupt side s else regular_interrupt k side s
