-- ===== src/Snull/Transmit.antt =====
-- snull_hw_tx, __snull_tx and __snull_tx_timeout.
use ldd3_kernel.Prelude.{
  ℕ, ◌+◌, ◌-◌, ◌%◌, Bool, true, false, not, ◌&&◌, List, ◌++◌, Option, none, some, ltb, leb, ◌==◌,
  if◌then◌else◌, length, get_elem?, set, drop, replicate,
}
use ldd3_kernel.Kernel.{Run, done, fault, bad_access, ◌>>=◌}
use ldd3_kernel.Snull.{
  Side, twin, SnullPacket, NetDevice, Snull, Params, NetKernel, at, put, plus, acquire, free_lock,
}
use ldd3_kernel.Snull.Pool.{setup_pool, teardown_pool, get_tx_buffer, enqueue_buf}
use ldd3_kernel.Snull.Interrupt.{interrupt}

-- ETH_DATA_LEN and ETH_ZLEN, and the sizes of struct ethhdr and struct iphdr together
abbrev pub eth_data_len : ℕ
eth_data_len = 1500

abbrev pub eth_zlen : ℕ
eth_zlen = 60

abbrev pub eth_ip_len : ℕ
eth_ip_len = 34

-- `x ^ 1`
abbrev pub xor_one : ℕ → ℕ
xor_one x = if x % 2 == 0 then x + 1 else x - 1

-- `buf[i] ^= 1`
abbrev pub flip : ℕ → List ℕ → List ℕ
flip i buf = elim (get_elem? buf i) [ none ↦ buf | some x ↦ set buf i (xor_one x) ]

-- The third octets of `saddr` and `daddr`, which lie 12 and 16 bytes into the IP header, behind the
-- 14 bytes of the Ethernet header
abbrev pub twist : List ℕ → List ℕ
twist buf = flip 32 (flip 28 buf)

-- `ih->check`, 10 bytes into the IP header: set to zero, then to the checksum
unfoldable pub rewrite : NetKernel → List ℕ → List ℕ
rewrite k buf =
    let zeroed = set (set (twist buf) 24 0) 25 0 in
    let sum = k.ip_fast_csum (drop 14 zeroed) in set (set zeroed 24 sum.0) 25 sum.1

-- The frame goes into the buffer and the buffer into the queue of `dest`, which is interrupted.
unfoldable pub deliver : NetKernel → Bool → Side → List ℕ → SnullPacket → Snull → Run Snull
deliver k use_napi dest frame tx_buffer s =
    if leb (length frame) eth_data_len
    then (enqueue_buf (at dest s) (record tx_buffer { bytes = frame }) >>= λ d.
        if d.priv.rx_int_enabled
        then interrupt k use_napi dest
            (put dest (record d { priv = record d.priv { rx_intr = true } }) s)
        else done (put dest d s))
    else fault bad_access

abbrev pub lost : Params → ℕ → Bool
lost params tx_packets = not (params.lockup == 0) && (plus tx_packets 1 % params.lockup == 0)

-- The transmission is done: an interrupt, or none where a lockup is simulated.
unfoldable pub transmitted : NetKernel → Params → Side → ℕ → Snull → Run Snull
transmitted k params side len s =
    let d = at side s in
    let d' = record d { priv = record d.priv { tx_packetlen = len; tx_intr = true } } in
    if lost params d'.priv.stats.tx_packets
    then done (put side (record d' { stopped = true }) s)
    else interrupt k params.use_napi side (put side d' s)

unfoldable pub send_buffer :
    NetKernel → Params → Side → List ℕ → NetDevice × Option SnullPacket → Snull → Run Snull
send_buffer k params side frame (d, none) s = done (put side d s)
send_buffer k params side frame (d, some tx_buffer) s =
    deliver k params.use_napi (twin side) frame tx_buffer (put side d s) >>= λ s'.
    transmitted k params side (length frame) s'

unfoldable pub hw_tx : NetKernel → Params → Side → List ℕ → Snull → Run Snull
hw_tx k params side buf s =
    if ltb (length buf) eth_ip_len
    then done s
    else (get_tx_buffer (at side s) >>= λ out. send_buffer k params side (rewrite k buf) out s)

-- `shortpkt`
abbrev pub padded : List ℕ → List ℕ
padded bytes =
    if ltb (length bytes) eth_zlen then bytes ++ replicate (eth_zlen - length bytes) 0 else bytes

unfoldable pub tx : NetKernel → Params → Side → ℕ → List ℕ → Snull → Run Snull
tx k params side skb bytes s =
    let d = at side s in
    hw_tx k params side (padded bytes)
      (put side (record d { priv = record d.priv { skb = some skb } }) s)

abbrev pub count_error : NetDevice → NetDevice
count_error d = record d {
  priv = record d.priv {
    stats = record d.priv.stats { tx_errors = plus d.priv.stats.tx_errors 1 };
  };
}

-- The pool is thrown away and made anew, and the queue started.
unfoldable pub reset_pool : NetKernel → ℕ → Side → NetDevice → Run NetDevice
reset_pool k pool_size side d = acquire d >>= λ d'.
    done (record (free_lock (setup_pool k pool_size side (teardown_pool d'))) { stopped = false })

unfoldable pub tx_timeout : NetKernel → Params → Side → Snull → Run Snull
tx_timeout k params side s =
    let d = at side s in
    interrupt k params.use_napi side
      (put side (record d { priv = record d.priv { tx_intr = true } }) s)
    >>= λ s'. reset_pool k params.pool_size side (count_error (at side s')) >>= λ d'.
        done (put side d' s')
