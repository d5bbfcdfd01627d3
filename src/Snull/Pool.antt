-- ===== src/Snull/Pool.antt =====
-- snull_setup_pool, snull_teardown_pool, snull_get_tx_buffer, snull_release_buffer,
-- snull_enqueue_buf, snull_dequeue_buf and snull_rx_ints.
use ldd3_kernel.Prelude.{
  ℕ, zero, suc, ◌+◌, Bool, true, false, ◌&&◌, List, [], ◌∷◌, Option, none, some, if◌then◌else◌,
}
use ldd3_kernel.Kernel.{Run, done, ◌>>=◌}
use ldd3_kernel.Snull.{Side, SnullPacket, NetDevice, Snull, NetKernel, at, put, acquire, free_lock}

abbrev pub with_pool : NetDevice → List SnullPacket → NetDevice
with_pool d pool = record d { priv = record d.priv { ppool = pool } }

abbrev pub with_queue : NetDevice → List SnullPacket → NetDevice
with_queue d queue = record d { priv = record d.priv { rx_queue = queue } }

-- The loop of snull_setup_pool: `n` packets more, the next request for memory is number `c`.
unfoldable pub fill_pool : NetKernel → Side → ℕ → ℕ → List SnullPacket → List SnullPacket
fill_pool k dev c zero pool = pool
fill_pool k dev c (suc n) pool =
    if k.kmalloc c
    then fill_pool k dev (c + 1) n (record { dev = dev; bytes = [] } ∷ pool)
    else pool

unfoldable pub setup_pool : NetKernel → ℕ → Side → NetDevice → NetDevice
setup_pool k pool_size dev d = with_pool d (fill_pool k dev 0 pool_size [])

unfoldable pub teardown_pool : NetDevice → NetDevice
teardown_pool d = with_pool d []

-- With the lock held
abbrev pub take_buffer : NetDevice → List SnullPacket → NetDevice × Option SnullPacket
take_buffer d [] = (d, none)
take_buffer d (pkt ∷ []) = (free_lock (record (with_pool d []) { stopped = true }), some pkt)
take_buffer d (pkt ∷ next ∷ rest) = (free_lock (with_pool d (next ∷ rest)), some pkt)

-- An empty pool is left with its lock held.
unfoldable pub get_tx_buffer : NetDevice → Run (NetDevice × Option SnullPacket)
get_tx_buffer d = acquire d >>= λ d'. done (take_buffer d' d'.priv.ppool)

abbrev pub is_null {ℓ} : {A : Type ℓ} → List A → Bool
is_null [] = true
is_null (x ∷ xs) = false

-- `netif_wake_queue` for a stopped queue whose pool was empty
unfoldable pub give_buffer : NetDevice → SnullPacket → Run NetDevice
give_buffer d pkt = acquire d >>= λ d'.
    let next = d'.priv.ppool in
    let given = free_lock (with_pool d' (pkt ∷ next)) in
    if given.stopped && is_null next then done (record given { stopped = false }) else done given

unfoldable pub release_buffer : Snull → SnullPacket → Run Snull
unfolding give_buffer
release_buffer s pkt = give_buffer (at pkt.dev s) pkt >>= λ d. done (put pkt.dev d s)

unfoldable pub enqueue_buf : NetDevice → SnullPacket → Run NetDevice
enqueue_buf d pkt = acquire d >>= λ d'. done (free_lock (with_queue d' (pkt ∷ d'.priv.rx_queue)))

abbrev pub pop_queue : NetDevice → List SnullPacket → NetDevice × Option SnullPacket
pop_queue d [] = (d, none)
pop_queue d (pkt ∷ rest) = (with_queue d rest, some pkt)

unfoldable pub dequeue_buf : NetDevice → Run (NetDevice × Option SnullPacket)
dequeue_buf d =
    acquire d >>= λ d'. let (d'', pkt) = pop_queue d' d'.priv.rx_queue in done (free_lock d'', pkt)

abbrev pub rx_ints : NetDevice → Bool → NetDevice
rx_ints d enable = record d { priv = record d.priv { rx_int_enabled = enable } }
