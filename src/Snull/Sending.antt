-- ===== src/Snull/Sending.antt =====
-- What __snull_tx does with a frame, where interrupts only schedule NAPI.
use ldd3_kernel.Prelude.{
  ℕ, ◌-◌, ◌≤◌, ◌≡◌, refl, ap, ◌∙◌, max, Bool, true, false, List, [], ◌∷◌, some, arith, length,
  get_elem?, replicate, if◌then◌else◌, Option-cases, inl, inr, length-set, length-append,
  length-replicate, le→leb, le→ltb,
}
use ldd3_kernel.Kernel.{Run, done, ◌>>=◌}
use ldd3_kernel.Snull.{
  Side, sn0, sn1, twin, SnullPacket, NetDevice, Snull, Params, NetKernel, at, put, free_lock,
}
use ldd3_kernel.Snull.Pool.{with_pool, with_queue, take_buffer, get_tx_buffer}
use ldd3_kernel.Snull.Interrupt.{napi_locked, napi_interrupt, interrupt}
use ldd3_kernel.Snull.Transmit.{
  eth_data_len, eth_zlen, eth_ip_len, flip, twist, rewrite, padded, deliver, transmitted,
  send_buffer, hw_tx, tx,
}
use ldd3_kernel.Snull.Ledger.{IsIdle, held, acquire_lem, enqueue_buf_lem}

length-flip : (i : ℕ) (buf : List ℕ) → length (flip i buf) ≡ length buf
length-flip i buf = elim (Option-cases (get_elem? buf i)) [
  | inl e ↦ rw (e, flip) refl
  | inr (x, e) ↦ rw (e, flip) (length-set buf i _)
]

-- The rewriting of addresses and checksum keeps the length.
pub length-rewrite : (k : NetKernel) (buf : List ℕ) → length (rewrite k buf) ≡ length buf
unfolding rewrite
length-rewrite k buf =
    length-set _ 25 _
    ∙ length-set _ 24 _
    ∙ length-set _ 25 0
    ∙ length-set (twist buf) 24 0
    ∙ length-flip 32 (flip 28 buf)
    ∙ length-flip 28 buf

pub length-padded : (bytes : List ℕ) → length (padded bytes) ≡ max eth_zlen (length bytes)
length-padded bytes = ground (
  arith,
  length-append bytes (replicate (eth_zlen - length bytes) 0),
  length-replicate {A = ℕ} (eth_zlen - length bytes) 0,
)

pub get_tx_buffer_lem :
    (d : NetDevice)
    → d.priv.lock ≡ false
    → get_tx_buffer d ≡ done (take_buffer (held d) d.priv.ppool)
unfolding get_tx_buffer
get_tx_buffer_lem d h = simp (acquire_lem d h) refl

napi_interrupt_lem :
    (side : Side) (s : Snull)
    → (at side s).priv.lock ≡ false
    → napi_interrupt side s ≡ done (put side (free_lock (napi_locked (held (at side s)))) s)
unfolding napi_interrupt
napi_interrupt_lem side s h = simp (acquire_lem (at side s) h) refl

pub at-put : (side : Side) (d : NetDevice) (s : Snull) → at side (put side d s) ≡ d
at-put sn0 d s = refl
at-put sn1 d s = refl

pub put-put :
    (side : Side) (d d' : NetDevice) (s : Snull) → put side d (put side d' s) ≡ put side d s
put-put sn0 d d' s = refl
put-put sn1 d d' s = refl

-- The interface that the frame is for
abbrev queued : NetDevice → List ℕ → SnullPacket → NetDevice
queued d frame tx_buffer =
    free_lock (with_queue d (record tx_buffer { bytes = frame } ∷ d.priv.rx_queue))

abbrev signalled : NetDevice → NetDevice
signalled d = record d { priv = record d.priv { rx_intr = true } }

abbrev pub delivered : NetDevice → List ℕ → SnullPacket → NetDevice
delivered d frame tx_buffer =
    let d' = queued d frame tx_buffer in
    if d'.priv.rx_int_enabled then free_lock (napi_locked (held (signalled d'))) else d'

pub napi_put_lem :
    (k : NetKernel) (side : Side) (d : NetDevice) (s : Snull)
    → d.priv.lock ≡ false
    → interrupt k true side (put side d s) ≡ done (put side (free_lock (napi_locked (held d))) s)
unfolding interrupt
napi_put_lem k side d s h =
    napi_interrupt_lem side (put side d s) (ap (λ x. x.priv.lock) (at-put side d s) ∙ h)
    ∙ ap (λ x. done (put side (free_lock (napi_locked (held x))) (put side d s))) (at-put side d s)
    ∙ ap done (put-put side (free_lock (napi_locked (held d))) d s)

if_done {ℓ κ} :
    {A : Type ℓ} {B : Type κ} (b : Bool) (f : A → B) {x y : Run B} {a a' : A}
    → x ≡ done (f a)
    → y ≡ done (f a')
    → (if b then x else y) ≡ done (f (if b then a else a'))
if_done true f e e' = e
if_done false f e e' = e'

deliver_lem :
    (k : NetKernel) (dest : Side) (frame : List ℕ) (tx_buffer : SnullPacket) (s : Snull)
    → (at dest s).priv.lock ≡ false
    → length frame ≤ eth_data_len
    → deliver k true dest frame tx_buffer s
      ≡ done (put dest (delivered (at dest s) frame tx_buffer) s)
unfolding deliver
deliver_lem k dest frame tx_buffer s h fits =
    simp
      (
        le→leb (length frame) eth_data_len fits,
        enqueue_buf_lem (at dest s) (record tx_buffer { bytes = frame }) h,
      )
      (if_done (at dest s).priv.rx_int_enabled (λ d. put dest d s)
        (napi_put_lem k dest (signalled (queued (at dest s) frame tx_buffer)) s refl) refl)

-- The interface that has sent
abbrev pub sent : NetDevice → ℕ → NetDevice
sent d len =
    free_lock (
      napi_locked (held (record d { priv = record d.priv { tx_packetlen = len; tx_intr = true } })))

transmitted_lem :
    (k : NetKernel) (params : Params) (side : Side) (len : ℕ) (s : Snull)
    → params.use_napi ≡ true
    → params.lockup ≡ 0
    → (at side s).priv.lock ≡ false
    → transmitted k params side len s ≡ done (put side (sent (at side s) len) s)
unfolding transmitted
transmitted_lem k params side len s napi no_lockup h =
    simp (no_lockup, napi)
      (napi_put_lem k side
        (record (at side s) {
          priv = record (at side s).priv { tx_packetlen = len; tx_intr = true };
        })
        s h)

-- Both interfaces after a frame has gone from `side`
abbrev pub after_send : Side → Snull → List ℕ → SnullPacket → NetDevice → Snull
after_send side s frame tx_buffer d =
    let s₁ = put side d s in
    let s₂ = put (twin side) (delivered (at (twin side) s₁) frame tx_buffer) s₁ in
    put side (sent (at side s₂) (length frame)) s₂

send_buffer_lem :
    (k : NetKernel) (params : Params) (side : Side) (frame : List ℕ) (d : NetDevice)
    (tx_buffer : SnullPacket) (s : Snull)
    → params.use_napi ≡ true
    → params.lockup ≡ 0
    → d.priv.lock ≡ false
    → (at (twin side) s).priv.lock ≡ false
    → length frame ≤ eth_data_len
    → send_buffer k params side frame (d, some tx_buffer) s
      ≡ done (after_send side s frame tx_buffer d)
unfolding send_buffer
send_buffer_lem k params side frame d tx_buffer s napi no_lockup own other fits =
    ap
      (λ b. deliver k b (twin side) frame tx_buffer (put side d s) >>= λ s'.
        transmitted k params side (length frame) s')
      napi
    ∙ ap (λ run. run >>= λ s'. transmitted k params side (length frame) s')
        (deliver_lem k (twin side) frame tx_buffer (put side d s) (other_free side other) fits)
    ∙ transmitted_lem k params side (length frame)
        (put (twin side) (delivered (at (twin side) (put side d s)) frame tx_buffer) (put side d s))
        napi no_lockup
        (own_free side (delivered (at (twin side) (put side d s)) frame tx_buffer) own)
  where
    other_free :
        (side : Side)
        → (at (twin side) s).priv.lock ≡ false
        → (at (twin side) (put side d s)).priv.lock ≡ false
    other_free sn0 h = h
    other_free sn1 h = h

    own_free :
        (side : Side) (x : NetDevice)
        → d.priv.lock ≡ false
        → (at side (put (twin side) x (put side d s))).priv.lock ≡ false
    own_free sn0 x h = h
    own_free sn1 x h = h

abbrev pub remembering : NetDevice → ℕ → NetDevice
remembering d skb = record d { priv = record d.priv { skb = some skb } }

-- The interface that has taken a buffer from its pool
abbrev pub taken : NetDevice → List SnullPacket → SnullPacket → NetDevice
taken d [] pkt = free_lock (record (with_pool (held d) []) { stopped = true })
taken d (next ∷ rest) pkt = free_lock (with_pool (held d) (next ∷ rest))

abbrev pub after_tx : NetKernel → Side → ℕ → List ℕ → Snull → SnullPacket → List SnullPacket → Snull
after_tx k side skb bytes s pkt rest =
    let s₀ = put side (remembering (at side s) skb) s in
    after_send side s₀ (rewrite k (padded bytes)) pkt (taken (at side s₀) rest pkt)

take_buffer_lem :
    (d : NetDevice) (pkt : SnullPacket) (rest : List SnullPacket)
    → take_buffer (held d) (pkt ∷ rest) ≡ (taken d rest pkt, some pkt)
take_buffer_lem d pkt [] = refl
take_buffer_lem d pkt (next ∷ rest) = refl

taken-free :
    (d : NetDevice) (pkt : SnullPacket) (rest : List SnullPacket)
    → (taken d rest pkt).priv.lock ≡ false
taken-free d pkt [] = refl
taken-free d pkt (next ∷ rest) = refl

hw_tx_lem :
    (k : NetKernel) (params : Params) (side : Side) (buf : List ℕ) (s : Snull) (pkt : SnullPacket)
    (rest : List SnullPacket)
    → params.use_napi ≡ true
    → params.lockup ≡ 0
    → (at side s).priv.lock ≡ false
    → (at (twin side) s).priv.lock ≡ false
    → (at side s).priv.ppool ≡ pkt ∷ rest
    → eth_ip_len ≤ length buf
    → length buf ≤ eth_data_len
    → hw_tx k params side buf s
      ≡ done (after_send side s (rewrite k buf) pkt (taken (at side s) rest pkt))
unfolding hw_tx
hw_tx_lem k params side buf s pkt rest napi no_lockup own other e long fits =
    simp (le→ltb (length buf) eth_ip_len long) (
      ap (λ run. run >>= λ out. send_buffer k params side (rewrite k buf) out s)
        (get_tx_buffer_lem (at side s) own
          ∙ ap (λ pool. done (take_buffer (held (at side s)) pool)) e
          ∙ ap done (take_buffer_lem (at side s) pkt rest))
      ∙ send_buffer_lem k params side (rewrite k buf) (taken (at side s) rest pkt) pkt s napi
          no_lockup (taken-free (at side s) pkt rest) other
          (omega (arith, length-rewrite k buf, fits)))

pub tx_runs :
    (k : NetKernel) (params : Params) (side : Side) (skb : ℕ) (bytes : List ℕ) (s : Snull)
    (pkt : SnullPacket) (rest : List SnullPacket)
    → params.use_napi ≡ true
    → params.lockup ≡ 0
    → IsIdle s
    → (at side s).priv.ppool ≡ pkt ∷ rest
    → length bytes ≤ eth_data_len
    → tx k params side skb bytes s ≡ done (after_tx k side skb bytes s pkt rest)
unfolding tx
tx_runs k params side skb bytes s pkt rest napi no_lockup h e fits =
    hw_tx_lem k params side (padded bytes) (put side (remembering (at side s) skb) s) pkt rest napi
      no_lockup (own side) (other side) (pool side e) (omega (arith, length-padded bytes))
      (omega (arith, length-padded bytes, fits))
  where
    own : (side : Side) → (at side (put side (remembering (at side s) skb) s)).priv.lock ≡ false
    own sn0 = h.0
    own sn1 = h.1

    other :
        (side : Side)
        → (at (twin side) (put side (remembering (at side s) skb) s)).priv.lock ≡ false
    other sn0 = h.1
    other sn1 = h.0

    pool :
        (side : Side)
        → (at side s).priv.ppool ≡ pkt ∷ rest
        → (at side (put side (remembering (at side s) skb) s)).priv.ppool ≡ pkt ∷ rest
    pool sn0 e = e
    pool sn1 e = e
