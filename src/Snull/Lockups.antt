-- ===== src/Snull/Lockups.antt =====
-- An empty pool, and the watchdog.
use ldd3_kernel.Prelude.{
  ℕ, zero, suc, ◌+◌, ◌≤◌, ◌≡◌, refl, ap, ◌∙◌, true, false, List, [], ◌∷◌, ◌++◌, none, some, arith,
  length, le→ltb,
}
use ldd3_kernel.Kernel.{done, fault, deadlock, ◌>>=◌}
use ldd3_kernel.Snull.{
  Side, SnullPacket, NetDevice, Snull, Params, NetKernel, at, put, acquire, free_lock,
}
use ldd3_kernel.Snull.Pool.{get_tx_buffer, fill_pool, setup_pool, teardown_pool, take_buffer}
use ldd3_kernel.Snull.Interrupt.{
  clear_status, count_tx, kfree_skb, regular_locked, regular_end, napi_locked, regular_interrupt,
  interrupt,
}
use ldd3_kernel.Snull.Transmit.{
  eth_ip_len, rewrite, padded, send_buffer, hw_tx, tx, reset_pool, count_error, tx_timeout,
}
use ldd3_kernel.Snull.Ledger.{count_of, owned, held, acquire_lem}
use ldd3_kernel.Snull.Sending.{
  length-padded, get_tx_buffer_lem, remembering, at-put, put-put, napi_put_lem,
}

locked_acquire : (d : NetDevice) → d.priv.lock ≡ true → acquire d ≡ fault deadlock
locked_acquire d h = simp h refl

long_enough : (bytes : List ℕ) → eth_ip_len ≤ length (padded bytes)
long_enough bytes = omega (arith, length-padded bytes)

-- Both interfaces after a frame has found the pool empty
abbrev stuck : Side → ℕ → Snull → Snull
stuck side skb s = put side (held (remembering (at side s) skb)) s

hw_tx-empty :
    (k : NetKernel) (params : Params) (side : Side) (buf : List ℕ) (s : Snull)
    → (at side s).priv.lock ≡ false
    → (at side s).priv.ppool ≡ []
    → eth_ip_len ≤ length buf
    → hw_tx k params side buf s ≡ done (put side (held (at side s)) s)
unfolding hw_tx send_buffer
hw_tx-empty k params side buf s h e long = simp (le→ltb (length buf) eth_ip_len long) (
    ap (λ run. run >>= λ out. send_buffer k params side (rewrite k buf) out s)
      (get_tx_buffer_lem (at side s) h ∙ ap (λ pool. done (take_buffer (held (at side s)) pool)) e))

hw_tx-locked :
    (k : NetKernel) (params : Params) (side : Side) (buf : List ℕ) (s : Snull)
    → (at side s).priv.lock ≡ true
    → eth_ip_len ≤ length buf
    → hw_tx k params side buf s ≡ fault deadlock
unfolding hw_tx get_tx_buffer
hw_tx-locked k params side buf s h long =
    simp (le→ltb (length buf) eth_ip_len long, locked_acquire (at side s) h) refl

tx-locked :
    (k : NetKernel) (params : Params) (side : Side) (skb : ℕ) (bytes : List ℕ) (s : Snull)
    → (at side s).priv.lock ≡ true
    → tx k params side skb bytes s ≡ fault deadlock
unfolding tx
tx-locked k params side skb bytes s h =
    hw_tx-locked k params side (padded bytes) (put side (remembering (at side s) skb) s)
      (ap (λ d. d.priv.lock) (at-put side (remembering (at side s) skb) s) ∙ h) (long_enough bytes)

-- Where the pool is empty and the lock free, `__snull_tx` returns, but with the lock held: each
-- later `__snull_tx` of the interface then waits for the lock for ever.
pub tx-empty_pool :
    (k : NetKernel) (params : Params) (side : Side) (skb : ℕ) (bytes : List ℕ) (s : Snull)
    → (at side s).priv.lock ≡ false
    → (at side s).priv.ppool ≡ []
    → (s' : Snull) × (tx k params side skb bytes s ≡ done s')
      × ((k' : NetKernel) (skb' : ℕ) (bytes' : List ℕ)
          → tx k' params side skb' bytes' s' ≡ fault deadlock)
unfolding tx
tx-empty_pool k params side skb bytes s h e = (
  put side (held (at side s₀)) s₀,
  hw_tx-empty k params side (padded bytes) s₀ (own_lock ∙ h) (own_pool ∙ e) (long_enough bytes),
  λ k' skb' bytes'.
      tx-locked k' params side skb' bytes' (put side (held (at side s₀)) s₀)
        (ap (λ d. d.priv.lock) (at-put side (held (at side s₀)) s₀)),
)
  where
    s₀ : Snull
    s₀ = put side (remembering (at side s) skb) s

    own_lock : (at side s₀).priv.lock ≡ (at side s).priv.lock
    own_lock = ap (λ d. d.priv.lock) (at-put side (remembering (at side s) skb) s)

    own_pool : (at side s₀).priv.ppool ≡ (at side s).priv.ppool
    own_pool = ap (λ d. d.priv.ppool) (at-put side (remembering (at side s) skb) s)

-- With memory, the pool is filled.
length-fill_pool :
    (k : NetKernel) (side : Side) (c n : ℕ) (pool : List SnullPacket)
    → ((c : ℕ) → k.kmalloc c ≡ true)
    → length (fill_pool k side c n pool) ≡ n + length pool
unfolding fill_pool
length-fill_pool k side c zero pool g = omega arith
length-fill_pool k side c (suc n) pool g =
    rw (g c) (
      omega (arith, length-fill_pool k side (c + 1) n (record { dev = side; bytes = [] } ∷ pool) g))

-- The interface after the interrupt and the reset of its pool
abbrev reset : NetKernel → ℕ → Side → NetDevice → NetDevice
reset k pool_size side d =
    record (free_lock (setup_pool k pool_size side (teardown_pool (held (count_error d))))) {
      stopped = false;
    }

reset_pool_lem :
    (k : NetKernel) (pool_size : ℕ) (side : Side) (d : NetDevice)
    → d.priv.lock ≡ false
    → reset_pool k pool_size side (count_error d) ≡ done (reset k pool_size side d)
unfolding reset_pool
reset_pool_lem k pool_size side d h = simp (acquire_lem (count_error d) h) refl

abbrev pending : NetDevice → NetDevice
pending d = record d { priv = record d.priv { tx_intr = true } }

-- The watchdog, for an interrupt that leaves `d` behind
timeout_runs :
    (k : NetKernel) (params : Params) (side : Side) (s : Snull) (d : NetDevice)
    → interrupt k params.use_napi side (put side (pending (at side s)) s) ≡ done (put side d s)
    → d.priv.lock ≡ false
    → tx_timeout k params side s ≡ done (put side (reset k params.pool_size side d) s)
unfolding tx_timeout
timeout_runs k params side s d runs free =
    ap
      (λ run. run >>= λ s'. reset_pool k params.pool_size side (count_error (at side s')) >>= λ d'.
        done (put side d' s'))
      runs
    ∙ ap
        (λ x. reset_pool k params.pool_size side (count_error x) >>= λ d'.
          done (put side d' (put side d s)))
        (at-put side d s)
    ∙ ap (λ run. run >>= λ d'. done (put side d' (put side d s)))
        (reset_pool_lem k params.pool_size side d free)
    ∙ ap done (put-put side (reset k params.pool_size side d) d s)

napi-queue : (d : NetDevice) → (napi_locked d).priv.rx_queue ≡ d.priv.rx_queue
unfolding napi_locked
napi-queue d = ground arith

owned-put :
    (side : Side) (d : NetDevice) (s : Snull)
    → d.priv.rx_queue ≡ (at side s).priv.rx_queue
    → owned side (put side d s)
      ≡ length d.priv.ppool
        + count_of side s.first.priv.rx_queue
        + count_of side s.second.priv.rx_queue
owned-put side d s h = ground (arith, ap (count_of side) h)

plus_none : (n : ℕ) → n + 0 ≡ n
plus_none n = omega arith

-- Where interrupts only schedule NAPI, with the lock free and memory for the pool,
-- `__snull_tx_timeout` returns with the lock free, and the pool is as large as a new one whatever
-- packets are on their way: these come on top of it when they are given back.
pub tx_timeout-pool :
    (k : NetKernel) (params : Params) (side : Side) (s : Snull)
    → params.use_napi ≡ true
    → ((c : ℕ) → k.kmalloc c ≡ true)
    → (at side s).priv.lock ≡ false
    → (s' : Snull) × (tx_timeout k params side s ≡ done s')
      × ((at side s').priv.lock ≡ false)
      × ((at side s').stopped ≡ false)
      × (owned side s'
          ≡ params.pool_size
            + count_of side s.first.priv.rx_queue
            + count_of side s.second.priv.rx_queue)
unfolding setup_pool teardown_pool
tx_timeout-pool k params side s napi memory free =
    let d : NetDevice = free_lock (napi_locked (held (pending (at side s)))) in
    (
      put side (reset k params.pool_size side d) s,
      timeout_runs k params side s d
          (ap (λ b. interrupt k b side (put side (pending (at side s)) s)) napi
            ∙ napi_put_lem k side (pending (at side s)) s free)
          refl,
      ap (λ x. x.priv.lock) (at-put side (reset k params.pool_size side d) s),
      ap (λ x. x.stopped) (at-put side (reset k params.pool_size side d) s),
      owned-put side (reset k params.pool_size side d) s (napi-queue (held (pending (at side s))))
          ∙ ap (λ n. n + count_of side s.first.priv.rx_queue + count_of side s.second.priv.rx_queue)
              (length-fill_pool k side 0 params.pool_size [] memory ∙ plus_none params.pool_size),
    )

-- The interface after a regular interrupt at the end of a transmission
abbrev regular_after : NetDevice → ℕ → NetDevice
regular_after d x = free_lock (kfree_skb (count_tx (clear_status (held d))) (some x))

regular_locked_lem :
    (k : NetKernel) (d : NetDevice) (x : ℕ)
    → d.priv.rx_intr ≡ false
    → d.priv.tx_intr ≡ true
    → d.priv.skb ≡ some x
    → regular_locked k d ≡ (kfree_skb (count_tx (clear_status d)) (some x), none)
unfolding regular_locked
regular_locked_lem k d x no_rx has_tx e =
    simp (no_rx, has_tx) (ap (λ o. (kfree_skb (count_tx (clear_status d)) o, none)) e)

regular_put_lem :
    (k : NetKernel) (side : Side) (d : NetDevice) (s : Snull) (x : ℕ)
    → d.priv.lock ≡ false
    → d.priv.rx_intr ≡ false
    → d.priv.tx_intr ≡ true
    → d.priv.skb ≡ some x
    → interrupt k false side (put side d s) ≡ done (put side (regular_after d x) s)
unfolding interrupt regular_interrupt
regular_put_lem k side d s x free no_rx has_tx e =
    ap (λ y. acquire y >>= λ d'. regular_end side (put side d s) (regular_locked k d'))
      (at-put side d s)
    ∙ ap (λ run. run >>= λ d'. regular_end side (put side d s) (regular_locked k d'))
        (acquire_lem d free)
    ∙ ap (regular_end side (put side d s)) (regular_locked_lem k (held d) x no_rx has_tx e)
    ∙ ap done (put-put side (regular_after d x) d s)

-- Without NAPI, with the locks free, no receive interrupt pending and a socket buffer remembered,
-- `__snull_tx_timeout` returns, having freed the socket buffer, and still remembers it: where the
-- transmission was done, the buffer is freed a second time.
pub tx_timeout-frees :
    (k : NetKernel) (params : Params) (side : Side) (s : Snull) (x : ℕ)
    → params.use_napi ≡ false
    → (at side s).priv.lock ≡ false
    → (at side s).priv.rx_intr ≡ false
    → (at side s).priv.skb ≡ some x
    → (s' : Snull) × (tx_timeout k params side s ≡ done s')
      × ((at side s').freed ≡ (at side s).freed ++ (x ∷ []))
      × ((at side s').priv.skb ≡ some x)
unfolding setup_pool teardown_pool
tx_timeout-frees k params side s x no_napi free no_rx e =
    let d : NetDevice = regular_after (pending (at side s)) x in
    (
      put side (reset k params.pool_size side d) s,
      timeout_runs k params side s d
          (ap (λ b. interrupt k b side (put side (pending (at side s)) s)) no_napi
            ∙ regular_put_lem k side (pending (at side s)) s x free no_rx refl e)
          refl,
      ap (λ y. y.freed) (at-put side (reset k params.pool_size side d) s),
      ap (λ y. y.priv.skb) (at-put side (reset k params.pool_size side d) s) ∙ e,
    )
