-- ===== src/Snull/Polling.antt =====
-- What snull_poll does with the receive queue.
use ldd3_kernel.Prelude.{
  ℕ, zero, suc, ◌+◌, ◌<◌, ◌%◌, ◌≡◌, refl, ap, sym, subst, ◌∙◌, Bool, true, false, List, [], ◌∷◌,
  ◌++◌, map, arith, length, take, drop, min, ltb, if◌then◌else◌, Bool-cases, inl, inr,
}
use mathlib.Core.List.{append_assoc, append-nil}
use ldd3_kernel.Int.{size_mod}
use ldd3_kernel.Kernel.{Run, done, fault, ◌>>=◌}
use ldd3_kernel.Snull.{Side, SnullPacket, NetDevice, Snull, NetKernel, at, put, free_lock}
use ldd3_kernel.Snull.Pool.{rx_ints, with_queue, dequeue_buf}
use ldd3_kernel.Snull.Receive.{rx, poll_done, poll_packet, poll_loop, poll}
use ldd3_kernel.Snull.Ledger.{
  count_of, owned, IsIdle, idle-at, held, acquire_lem, released, release_buffer_lem,
  dequeue_buf_lem,
}

-- The interface after its first packet is off the queue and has gone up
abbrev received : NetDevice → SnullPacket → List SnullPacket → Bool → NetDevice
received d pkt rest has_skb = rx (free_lock (with_queue d rest)) pkt has_skb

-- Both interfaces after one round
abbrev polled : Side → Snull → SnullPacket → List SnullPacket → Bool → Snull
polled side s pkt rest has_skb =
    let s' = put side (received (at side s) pkt rest has_skb) s in
    put pkt.dev (released (at pkt.dev s') pkt) s'

-- What a round keeps and changes, for interface `side`
record Round (side : Side) (s s' : Snull) (pkt : SnullPacket) (rest : List SnullPacket)
    (has_skb : Bool) : Type 0 where
  idle : IsIdle s'
  queue : (at side s').priv.rx_queue ≡ rest
  ledger : (t : Side) → owned t s' ≡ owned t s
  went_up : has_skb ≡ true → (at side s').upward ≡ (at side s).upward ++ (pkt.bytes ∷ [])
  counted :
      ((at side s').priv.stats.rx_packets + (at side s').priv.stats.rx_dropped) % size_mod
      ≡ ((at side s).priv.stats.rx_packets + (at side s).priv.stats.rx_dropped + 1) % size_mod

owned-polled :
    (side u : Side) (s : Snull) (pkt : SnullPacket) (rest : List SnullPacket) (has_skb : Bool)
    → (at side s).priv.rx_queue ≡ pkt ∷ rest
    → owned u (polled side s pkt rest has_skb) ≡ owned u s
unfolding rx
owned-polled side u s pkt rest has_skb e = ground (arith, ap (count_of u) e)

polled-Round :
    (side : Side) (s : Snull) (pkt : SnullPacket) (rest : List SnullPacket) (has_skb : Bool)
    → IsIdle s
    → (at side s).priv.rx_queue ≡ pkt ∷ rest
    → Round side s (polled side s pkt rest has_skb) pkt rest has_skb
unfolding rx
polled-Round side s pkt rest has_skb h e = record {
  idle = ground arith;
  queue = ground arith;
  ledger = λ u. owned-polled side u s pkt rest has_skb e;
  went_up = ground arith;
  counted = ground arith;
}

poll_packet_lem :
    (side : Side) (s : Snull) (pkt : SnullPacket) (rest : List SnullPacket) (has_skb : Bool)
    → IsIdle s
    → (at side s).priv.rx_queue ≡ pkt ∷ rest
    → (dequeue_buf (at side s) >>= λ out. poll_packet s side has_skb out.0 out.1)
      ≡ done (polled side s pkt rest has_skb)
unfolding poll_packet
poll_packet_lem side s pkt rest has_skb h e =
    ap (λ run. run >>= λ out. poll_packet s side has_skb out.0 out.1)
      (dequeue_buf_lem (at side s) pkt rest (idle-at side s h) e)
    ∙ release_buffer_lem (put side (received (at side s) pkt rest has_skb) s) pkt (unlocked has_skb)
  where
    unlocked :
        (has_skb : Bool)
        → (at pkt.dev (put side (received (at side s) pkt rest has_skb) s)).priv.lock ≡ false
    unlocked has_skb = ground (arith, h)

-- What polling keeps and changes: `n` packets of the queue have been taken.
pub record Polled (k : NetKernel) (side : Side) (s s' : Snull) (n : ℕ) : Type 0 where
  pub idle : IsIdle s'
  pub queue : (at side s').priv.rx_queue ≡ drop n (at side s).priv.rx_queue
  pub ledger : (t : Side) → owned t s' ≡ owned t s
  pub went_up :
      ((c : ℕ) → k.dev_alloc_skb c ≡ true)
      → (at side s').upward
        ≡ (at side s).upward ++ map (λ pkt. pkt.bytes) (take n (at side s).priv.rx_queue)
  pub counted :
      ((at side s').priv.stats.rx_packets + (at side s').priv.stats.rx_dropped) % size_mod
      ≡ ((at side s).priv.stats.rx_packets + (at side s).priv.stats.rx_dropped + n) % size_mod

nothing-Polled : (k : NetKernel) (side : Side) (s : Snull) → IsIdle s → Polled k side s s 0
nothing-Polled k side s h = record {
  idle = h;
  queue = refl;
  ledger = λ t. refl;
  went_up = λ g. sym (append-nil (at side s).upward);
  counted = ap (λ x. x % size_mod) (omega arith);
}

one_more :
    (k : NetKernel) (side : Side) (s s₁ s' : Snull) (pkt : SnullPacket) (rest : List SnullPacket)
    (has_skb : Bool) (n : ℕ)
    → (at side s).priv.rx_queue ≡ pkt ∷ rest
    → (((c : ℕ) → k.dev_alloc_skb c ≡ true) → has_skb ≡ true)
    → Round side s s₁ pkt rest has_skb
    → Polled k side s₁ s' n
    → Polled k side s s' (suc n)
one_more k side s s₁ s' pkt rest has_skb n e g r p = record {
  idle = p.idle;
  queue = p.queue ∙ ap (drop n) r.queue ∙ ap (drop (suc n)) (sym e);
  ledger = λ t. p.ledger t ∙ r.ledger t;
  went_up = λ all.
      p.went_up all
      ∙ ap (λ q. (at side s₁).upward ++ map (λ pkt. pkt.bytes) (take n q)) r.queue
      ∙ ap (λ u. u ++ map (λ pkt. pkt.bytes) (take n rest)) (r.went_up (g all))
      ∙ append_assoc (at side s).upward (pkt.bytes ∷ []) (map (λ pkt. pkt.bytes) (take n rest))
      ∙ ap (λ q. (at side s).upward ++ map (λ pkt. pkt.bytes) (take (suc n) q)) (sym e);
  counted = omega (arith, p.counted, r.counted);
}

loop_stops :
    (k : NetKernel) (side : Side) (left npackets : ℕ) (s : Snull)
    → (at side s).priv.rx_queue ≡ []
    → poll_loop k side (suc left) npackets s ≡ done (s, npackets)
unfolding poll_loop
loop_stops k side left npackets s e = rw (e, poll_loop) refl

loop_opens :
    (k : NetKernel) (side : Side) (left npackets : ℕ) (s : Snull) (pkt : SnullPacket)
    (rest : List SnullPacket)
    → (at side s).priv.rx_queue ≡ pkt ∷ rest
    → poll_loop k side (suc left) npackets s ≡ (
        dequeue_buf (at side s) >>= λ out.
        poll_packet s side (k.dev_alloc_skb npackets) out.0 out.1 >>= λ s'.
        poll_loop k side left (npackets + 1) s')
unfolding poll_loop
loop_opens k side left npackets s pkt rest e = rw (e, poll_loop) refl

bind_assoc {ℓ} :
    {A B C : Type ℓ} (run : Run A) (f : A → Run B) (g : B → Run C)
    → (run >>= λ a. f a >>= g) ≡ (run >>= f >>= g)
bind_assoc (done a) f g = refl
bind_assoc (fault e) f g = refl

loop_goes_on :
    (k : NetKernel) (side : Side) (left npackets : ℕ) (s : Snull) (pkt : SnullPacket)
    (rest : List SnullPacket)
    → IsIdle s
    → (at side s).priv.rx_queue ≡ pkt ∷ rest
    → poll_loop k side (suc left) npackets s
      ≡ poll_loop k side left (npackets + 1) (polled side s pkt rest (k.dev_alloc_skb npackets))
loop_goes_on k side left npackets s pkt rest h e =
    loop_opens k side left npackets s pkt rest e
    ∙ bind_assoc (dequeue_buf (at side s))
        (λ out. poll_packet s side (k.dev_alloc_skb npackets) out.0 out.1)
        (λ s'. poll_loop k side left (npackets + 1) s')
    ∙ ap (λ run. run >>= λ s'. poll_loop k side left (npackets + 1) s')
        (poll_packet_lem side s pkt rest (k.dev_alloc_skb npackets) h e)

-- From `npackets` on, with `left` packets to go
poll_loop_lem :
    (k : NetKernel) (side : Side) (left npackets : ℕ) (s : Snull) (queue : List SnullPacket)
    → IsIdle s
    → (at side s).priv.rx_queue ≡ queue
    → (s' : Snull) × (poll_loop k side left npackets s
        ≡ done (s', npackets + min left (length queue)))
      × Polled k side s s' (min left (length queue))
unfolding poll_loop
poll_loop_lem k side zero npackets s queue h e =
    let none_left : min 0 (length queue) ≡ 0 = omega arith in
    let same : npackets + 0 ≡ npackets = omega arith in
    rw (none_left, same) (s, refl, nothing-Polled k side s h)
poll_loop_lem k side (suc left) npackets s [] h e =
    let none_there : min (suc left) 0 ≡ 0 = omega arith in
    let same : npackets + 0 ≡ npackets = omega arith in
    rw (none_there, same) (s, loop_stops k side left npackets s e, nothing-Polled k side s h)
poll_loop_lem k side (suc left) npackets s (pkt ∷ rest) h e =
    let has_skb = k.dev_alloc_skb npackets in
    let r = polled-Round side s pkt rest has_skb h e in
    let (s', runs, p) =
      poll_loop_lem k side left (npackets + 1) (polled side s pkt rest has_skb) rest r.idle
        r.queue in
    let count : npackets + 1 + min left (length rest)
        ≡ npackets + min (suc left) (suc (length rest)) =
      omega arith in
    let one : min (suc left) (suc (length rest)) ≡ suc (min left (length rest)) = omega arith in
    (
      s',
      loop_goes_on k side left npackets s pkt rest h e ∙ runs ∙ ap (λ n. done (s', n)) count,
      subst (Polled k side s s') (sym one) (
          one_more k side s (polled side s pkt rest has_skb) s' pkt rest has_skb
            (min left (length rest)) e (λ all. all npackets) r p),
    )

-- The interface after the loop, where the queue has run empty
abbrev finished : NetKernel → ℕ → NetDevice → NetDevice
finished k n d = free_lock (
    if k.napi_complete_done n then rx_ints (record (held d) { scheduled = false }) true else held d)

poll_done_lem :
    (k : NetKernel) (n : ℕ) (d : NetDevice)
    → d.priv.lock ≡ false
    → poll_done k n d ≡ done (finished k n d)
poll_done_lem k n d h = simp (acquire_lem d h) refl

owned-finished :
    (k : NetKernel) (side t : Side) (s : Snull) (n : ℕ)
    → owned t (put side (finished k n (at side s)) s) ≡ owned t s
owned-finished k side t s n = ground arith

finished-Polled :
    (k : NetKernel) (side : Side) (s s' : Snull) (n m : ℕ)
    → Polled k side s s' n
    → Polled k side s (put side (finished k m (at side s')) s') n
finished-Polled k side s s' n m p = record {
  idle = ground (arith, p.idle);
  queue = ground (arith, p.queue);
  ledger = λ t. owned-finished k side t s' m ∙ p.ledger t;
  went_up = λ all. ground (arith, p.went_up all);
  counted = ground (arith, p.counted);
}

-- With no lock held, `snull_poll` returns, with no lock held: it takes the packets of the receive
-- queue in order, as many as the budget allows, counts each of them as received or dropped, and gives
-- each buffer back, so that no interface loses or gains a packet. Where there is memory for socket
-- buffers, the upper layers get the frames in the order of the queue. If the queue had fewer packets
-- than the budget, then receive interrupts are on again where NAPI completes.
pub poll_lem :
    (k : NetKernel) (side : Side) (budget : ℕ) (s : Snull)
    → IsIdle s
    → let n = min budget (length (at side s).priv.rx_queue) in
      (s' : Snull) × (poll k side budget s ≡ done (s', n))
      × Polled k side s s' n
      × (n < budget → k.napi_complete_done n ≡ true → (at side s').priv.rx_int_enabled ≡ true)
unfolding poll
poll_lem k side budget s h =
    let n = min budget (length (at side s).priv.rx_queue) in
    let (s', runs, p) = poll_loop_lem k side budget 0 s (at side s).priv.rx_queue h refl in
    let counted : 0 + n ≡ n = omega arith in
    elim (Bool-cases (ltb n budget)) [
      | inl few ↦ (
        put side (finished k n (at side s')) s',
        simp (runs, counted, few, poll_done_lem k n (at side s') (idle-at side s' p.idle)) refl,
        finished-Polled k side s s' n n p,
        λ _ complete. ground (arith, complete),
      )
      | inr many ↦
          (s', simp (runs, counted, many) refl, p, λ fewer. absurd (ground (arith, many, fewer)))
    ]
