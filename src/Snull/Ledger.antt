-- ===== src/Snull/Ledger.antt =====
-- Where the packets of an interface are: in its pool, or in one of the two receive queues.
use ldd3_kernel.Prelude.{
  ℕ, ◌+◌, ◌≡◌, refl, ap, Bool, true, false, ◌&&◌, List, [], ◌∷◌, some, length, if◌then◌else◌,
  Bool-cases, inl, inr,
}
use ldd3_kernel.Kernel.{done}
use ldd3_kernel.Snull.{Side, sn0, sn1, SnullPacket, NetDevice, Snull, at, put, acquire, free_lock}
use ldd3_kernel.Snull.Pool.{
  with_pool, with_queue, is_null, give_buffer, release_buffer, enqueue_buf, dequeue_buf, pop_queue,
}

abbrev pub is_side : Side → Side → Bool
is_side sn0 sn0 = true
is_side sn1 sn1 = true
is_side sn0 sn1 = false
is_side sn1 sn0 = false

-- How many packets of a list belong to an interface
abbrev pub count_of : Side → List SnullPacket → ℕ
count_of t [] = 0
count_of t (pkt ∷ rest) = (if is_side t pkt.dev then 1 else 0) + count_of t rest

-- All packets of an interface, those in its pool and those on their way
abbrev pub owned : Side → Snull → ℕ
owned t s =
    length (at t s).priv.ppool
    + count_of t s.first.priv.rx_queue
    + count_of t s.second.priv.rx_queue

-- No lock is held.
abbrev pub IsIdle : Snull → Type 0
IsIdle s = (s.first.priv.lock ≡ false) × (s.second.priv.lock ≡ false)

pub idle-at : (side : Side) (s : Snull) → IsIdle s → (at side s).priv.lock ≡ false
idle-at sn0 s h = h.0
idle-at sn1 s h = h.1

abbrev pub held : NetDevice → NetDevice
held d = record d { priv = record d.priv { lock = true } }

pub acquire_lem : (d : NetDevice) → d.priv.lock ≡ false → acquire d ≡ done (held d)
acquire_lem d h = simp h refl

-- What snull_release_buffer makes of the interface that the packet belongs to
abbrev pub released : NetDevice → SnullPacket → NetDevice
released d pkt = record (free_lock (with_pool d (pkt ∷ d.priv.ppool))) {
  stopped = if d.stopped && is_null d.priv.ppool then false else d.stopped;
}

pub release_buffer_lem :
    (s : Snull) (pkt : SnullPacket)
    → (at pkt.dev s).priv.lock ≡ false
    → release_buffer s pkt ≡ done (put pkt.dev (released (at pkt.dev s) pkt) s)
unfolding release_buffer give_buffer
release_buffer_lem s pkt h =
    simp (acquire_lem (at pkt.dev s) h)
      (elim (Bool-cases ((at pkt.dev s).stopped && is_null (at pkt.dev s).priv.ppool)) [
        | inl wake ↦ simp wake refl
        | inr keep ↦ simp keep refl
      ])

pub dequeue_buf_lem :
    (d : NetDevice) (pkt : SnullPacket) (rest : List SnullPacket)
    → d.priv.lock ≡ false
    → d.priv.rx_queue ≡ pkt ∷ rest
    → dequeue_buf d ≡ done (free_lock (with_queue d rest), some pkt)
unfolding dequeue_buf
dequeue_buf_lem d pkt rest h e =
    simp (acquire_lem d h)
      (ap (λ q. done (free_lock (pop_queue (held d) q).0, (pop_queue (held d) q).1)) e)

pub enqueue_buf_lem :
    (d : NetDevice) (pkt : SnullPacket)
    → d.priv.lock ≡ false
    → enqueue_buf d pkt ≡ done (free_lock (with_queue d (pkt ∷ d.priv.rx_queue)))
unfolding enqueue_buf
enqueue_buf_lem d pkt h = simp (acquire_lem d h) refl
