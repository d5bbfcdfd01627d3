-- ===== src/Snull/SendEffect.antt =====
-- What __snull_tx keeps and changes.
use ldd3_kernel.Prelude.{
  ℕ, ◌≤◌, ◌≡◌, refl, ap, sym, subst, ◌∙◌, max, true, false, List, [], ◌∷◌, ◌++◌, none, arith,
  length,
}
use ldd3_kernel.Kernel.{done}
use ldd3_kernel.Snull.{
  Side, sn0, sn1, twin, SnullPacket, NetDevice, Snull, Params, NetKernel, at, plus,
}
use ldd3_kernel.Snull.Interrupt.{napi_locked}
use ldd3_kernel.Snull.Transmit.{eth_data_len, eth_zlen, rewrite, padded, tx}
use ldd3_kernel.Snull.Ledger.{is_side, count_of, owned, IsIdle}
use ldd3_kernel.Snull.Sending.{
  length-rewrite, length-padded, remembering, taken, delivered, sent, after_tx, tx_runs,
}

-- The two interfaces afterwards, the one that has sent and its twin
module _ (k : NetKernel) (skb : ℕ) (bytes : List ℕ) (s : Snull) (pkt : SnullPacket)
    (rest : List SnullPacket) where
  abbrev own_after : NetDevice → NetDevice
  own_after d = sent (taken (remembering d skb) rest pkt) (length (rewrite k (padded bytes)))

  abbrev other_after : NetDevice → NetDevice
  other_after d = delivered d (rewrite k (padded bytes)) pkt

  own_is : (side : Side) → at side (after_tx k side skb bytes s pkt rest) ≡ own_after (at side s)
  own_is sn0 = refl
  own_is sn1 = refl

  other_is :
      (side : Side)
      → at (twin side) (after_tx k side skb bytes s pkt rest) ≡ other_after (at (twin side) s)
  other_is sn0 = refl
  other_is sn1 = refl

-- Fields of the interface that has sent
module _ (d : NetDevice) (rest : List SnullPacket) (pkt : SnullPacket) (skb len : ℕ) where
  abbrev own : NetDevice
  own = sent (taken (remembering d skb) rest pkt) len

  own_free : own.priv.lock ≡ false
  own_free = refl

  own_pool : own.priv.ppool ≡ rest
  unfolding napi_locked
  own_pool = ground arith

  own_queue : own.priv.rx_queue ≡ d.priv.rx_queue
  unfolding napi_locked
  own_queue = ground arith

  own_stopped : rest ≡ [] → own.stopped ≡ true
  unfolding napi_locked
  own_stopped e = ground (arith, e)

  own_freed : own.freed ≡ d.freed ++ (skb ∷ [])
  unfolding napi_locked
  own_freed = ground arith

  own_skb : own.priv.skb ≡ none
  unfolding napi_locked
  own_skb = ground arith

  own_packets : own.priv.stats.tx_packets ≡ plus d.priv.stats.tx_packets 1
  unfolding napi_locked
  own_packets = ground arith

  own_bytes : own.priv.stats.tx_bytes ≡ plus d.priv.stats.tx_bytes len
  unfolding napi_locked
  own_bytes = ground arith

-- Fields of its twin
module _ (d : NetDevice) (frame : List ℕ) (pkt : SnullPacket) where
  abbrev other : NetDevice
  other = delivered d frame pkt

  other_free : other.priv.lock ≡ false
  other_free = ground arith

  other_queue : other.priv.rx_queue ≡ record { dev = pkt.dev; bytes = frame } ∷ d.priv.rx_queue
  unfolding napi_locked
  other_queue = ground arith

  other_pool : other.priv.ppool ≡ d.priv.ppool
  unfolding napi_locked
  other_pool = ground arith

  other_upward : other.upward ≡ d.upward
  unfolding napi_locked
  other_upward = ground arith

  other_scheduled : d.priv.rx_int_enabled ≡ true → other.scheduled ≡ true
  unfolding napi_locked
  other_scheduled e = ground (arith, e)

-- The buffer has gone from the pool of `side` to the queue of its twin.
sent-ledger :
    (side t : Side) (s s' : Snull) (pkt pkt' : SnullPacket) (rest : List SnullPacket)
    → pkt.dev ≡ side
    → pkt'.dev ≡ side
    → (at side s).priv.ppool ≡ pkt ∷ rest
    → (at side s').priv.ppool ≡ rest
    → (at (twin side) s').priv.ppool ≡ (at (twin side) s).priv.ppool
    → (at side s').priv.rx_queue ≡ (at side s).priv.rx_queue
    → (at (twin side) s').priv.rx_queue ≡ pkt' ∷ (at (twin side) s).priv.rx_queue
    → owned t s' ≡ owned t s
sent-ledger side t s s' pkt pkt' rest mine mine' e pool other_pool own other = ground (
  arith,
  ap length e,
  ap length pool,
  ap length other_pool,
  ap (count_of t) own,
  ap (count_of t) other,
  ap (is_side t) mine',
)

-- What the sending of a frame keeps and changes.
pub record Sent (k : NetKernel) (side : Side) (skb : ℕ) (bytes : List ℕ) (s s' : Snull)
    (pkt : SnullPacket) (rest : List SnullPacket) : Type 0 where
  pub idle : IsIdle s'
  pub pool : (at side s').priv.ppool ≡ rest
  pub stopped : rest ≡ [] → (at side s').stopped ≡ true
  pub queue :
      (at (twin side) s').priv.rx_queue
      ≡ record { dev = pkt.dev; bytes = rewrite k (padded bytes) }
        ∷ (at (twin side) s).priv.rx_queue
  pub own_queue : (at side s').priv.rx_queue ≡ (at side s).priv.rx_queue
  pub ledger : pkt.dev ≡ side → (t : Side) → owned t s' ≡ owned t s
  pub skb_freed : (at side s').freed ≡ (at side s).freed ++ (skb ∷ [])
  pub skb_forgotten : (at side s').priv.skb ≡ none
  pub packets : (at side s').priv.stats.tx_packets ≡ plus (at side s).priv.stats.tx_packets 1
  pub bytes_count :
      (at side s').priv.stats.tx_bytes
      ≡ plus (at side s).priv.stats.tx_bytes (max eth_zlen (length bytes))
  pub upward : (at (twin side) s').upward ≡ (at (twin side) s).upward
  pub polls : (at (twin side) s).priv.rx_int_enabled ≡ true → (at (twin side) s').scheduled ≡ true

-- With no lock held, interrupts that schedule NAPI, no simulated lockup, a buffer in the pool and a
-- frame of at most 1500 bytes, `__snull_tx` returns, with no lock held: the frame, padded to 60 bytes
-- and with its addresses and checksum rewritten, is first in the receive queue of the twin, in the
-- buffer; NAPI is scheduled for the twin if its receive interrupts were on; the transmit queue is stopped if
-- the pool is now empty; the frame is counted, its socket buffer freed once and forgotten; and no
-- interface loses or gains a packet, if the buffer was its own.
pub tx_lem :
    (k : NetKernel) (params : Params) (side : Side) (skb : ℕ) (bytes : List ℕ) (s : Snull)
    (pkt : SnullPacket) (rest : List SnullPacket)
    → params.use_napi ≡ true
    → params.lockup ≡ 0
    → IsIdle s
    → (at side s).priv.ppool ≡ pkt ∷ rest
    → length bytes ≤ eth_data_len
    → (s' : Snull) × (tx k params side skb bytes s ≡ done s') × Sent k side skb bytes s s' pkt rest
tx_lem k params side skb bytes s pkt rest napi no_lockup h e fits = (
  s',
  tx_runs k params side skb bytes s pkt rest napi no_lockup h e fits,
  record {
    idle =
        both_free side (by_own (λ d. d.priv.lock ≡ false) refl)
          (by_other (λ d. d.priv.lock ≡ false) (other_free (at (twin side) s) frame pkt));
    pool = pool_is;
    stopped = λ empty.
        by_own (λ d. d.stopped ≡ true) (own_stopped (at side s) rest pkt skb (length frame) empty);
    queue = queue_is;
    own_queue = own_queue_is;
    ledger = λ mine t.
        sent-ledger side t s s' pkt (record { dev = pkt.dev; bytes = frame }) rest mine mine e
          pool_is
          (by_other (λ d. d.priv.ppool ≡ (at (twin side) s).priv.ppool)
            (other_pool (at (twin side) s) frame pkt))
          own_queue_is queue_is;
    skb_freed =
        by_own (λ d. d.freed ≡ (at side s).freed ++ (skb ∷ []))
          (own_freed (at side s) rest pkt skb (length frame));
    skb_forgotten =
        by_own (λ d. d.priv.skb ≡ none) (own_skb (at side s) rest pkt skb (length frame));
    packets =
        by_own (λ d. d.priv.stats.tx_packets ≡ plus (at side s).priv.stats.tx_packets 1)
          (own_packets (at side s) rest pkt skb (length frame));
    bytes_count =
        by_own
          (λ d.
            d.priv.stats.tx_bytes
            ≡ plus (at side s).priv.stats.tx_bytes (max eth_zlen (length bytes)))
          (own_bytes (at side s) rest pkt skb (length frame)
            ∙ ap (plus (at side s).priv.stats.tx_bytes)
                (length-rewrite k (padded bytes) ∙ length-padded bytes));
    upward =
        by_other (λ d. d.upward ≡ (at (twin side) s).upward)
          (other_upward (at (twin side) s) frame pkt);
    polls =
        λ on. by_other (λ d. d.scheduled ≡ true) (other_scheduled (at (twin side) s) frame pkt on);
  },
)
  where
    frame : List ℕ
    frame = rewrite k (padded bytes)

    s' : Snull
    s' = after_tx k side skb bytes s pkt rest

    by_own :
        (P : NetDevice → Type 0) → P (own_after k skb bytes s pkt rest (at side s)) → P (at side s')
    by_own P p = subst P (sym (own_is k skb bytes s pkt rest side)) p

    by_other :
        (P : NetDevice → Type 0)
        → P (other_after k skb bytes s pkt rest (at (twin side) s))
        → P (at (twin side) s')
    by_other P p = subst P (sym (other_is k skb bytes s pkt rest side)) p

    both_free :
        (side' : Side)
        → (at side' s').priv.lock ≡ false
        → (at (twin side') s').priv.lock ≡ false
        → IsIdle s'
    both_free sn0 a b = (a, b)
    both_free sn1 a b = (b, a)

    pool_is : (at side s').priv.ppool ≡ rest
    pool_is = by_own (λ d. d.priv.ppool ≡ rest) (own_pool (at side s) rest pkt skb (length frame))

    own_queue_is : (at side s').priv.rx_queue ≡ (at side s).priv.rx_queue
    own_queue_is =
        by_own (λ d. d.priv.rx_queue ≡ (at side s).priv.rx_queue)
          (own_queue (at side s) rest pkt skb (length frame))

    queue_is :
        (at (twin side) s').priv.rx_queue
        ≡ record { dev = pkt.dev; bytes = frame } ∷ (at (twin side) s).priv.rx_queue
    queue_is =
        by_other
          (λ d.
            d.priv.rx_queue
            ≡ record { dev = pkt.dev; bytes = frame } ∷ (at (twin side) s).priv.rx_queue)
          (other_queue (at (twin side) s) frame pkt)
