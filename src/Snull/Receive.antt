-- ===== src/Snull/Receive.antt =====
-- snull_rx and snull_poll.
use ldd3_kernel.Prelude.{
  ℕ, zero, suc, ◌+◌, Bool, true, false, [], ◌∷◌, ◌++◌, Option, none, some, ltb, length,
  if◌then◌else◌,
}
use ldd3_kernel.Kernel.{Run, done, fault, bad_access, ◌>>=◌}
use ldd3_kernel.Snull.{
  Side, SnullPacket, NetDevice, Snull, NetKernel, at, put, plus, acquire, free_lock,
}
use ldd3_kernel.Snull.Pool.{release_buffer, dequeue_buf, rx_ints}

abbrev pub count_rx : NetDevice → ℕ → NetDevice
count_rx d datalen = record d {
  priv = record d.priv {
    stats = record d.priv.stats {
      rx_packets = plus d.priv.stats.rx_packets 1;
      rx_bytes = plus d.priv.stats.rx_bytes datalen;
    };
  };
}

abbrev pub count_drop : NetDevice → NetDevice
count_drop d = record d {
  priv = record d.priv {
    stats = record d.priv.stats { rx_dropped = plus d.priv.stats.rx_dropped 1 };
  };
}

-- The frame goes up, in a socket buffer if there is memory for one.
unfoldable pub rx : NetDevice → SnullPacket → Bool → NetDevice
rx d pkt has_skb =
    if has_skb
    then record (count_rx d (length pkt.bytes)) { upward = d.upward ++ (pkt.bytes ∷ []) }
    else count_drop d

-- One round of the loop of snull_poll, for the packet that snull_dequeue_buf gives
unfoldable pub poll_packet : Snull → Side → Bool → NetDevice → Option SnullPacket → Run Snull
unfolding rx
poll_packet s side has_skb d none = fault bad_access
poll_packet s side has_skb d (some pkt) = release_buffer (put side (rx d pkt has_skb) s) pkt

-- The loop: `left` is `budget - npackets`.
unfoldable pub poll_loop : NetKernel → Side → ℕ → ℕ → Snull → Run (Snull × ℕ)
unfolding poll_packet
poll_loop k side zero npackets s = done (s, npackets)
poll_loop k side (suc left) npackets s = elim (at side s).priv.rx_queue [
  | [] ↦ done (s, npackets)
  | pkt ∷ rest ↦ dequeue_buf (at side s) >>= λ out.
      poll_packet s side (k.dev_alloc_skb npackets) out.0 out.1 >>= λ s'.
      poll_loop k side left (npackets + 1) s'
]

abbrev pub poll_done : NetKernel → ℕ → NetDevice → Run NetDevice
poll_done k npackets d = acquire d >>= λ d'. done (
    free_lock (
      if k.napi_complete_done npackets then rx_ints (record d' { scheduled = false }) true else d'))

unfoldable pub poll : NetKernel → Side → ℕ → Snull → Run (Snull × ℕ)
unfolding poll_loop
poll k side budget s = poll_loop k side budget 0 s >>= λ out.
    if ltb out.1 budget
    then (poll_done k out.1 (at side out.0) >>= λ d. done (put side d out.0, out.1))
    else done out
