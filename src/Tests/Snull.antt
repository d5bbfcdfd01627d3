-- ===== src/Tests/Snull.antt =====
-- Two interfaces with two buffers each, in the way that NAPI has it.
use ldd3_kernel.Prelude.{
  none, ℕ, ◌+◌, ◌<◌, ◌≡◌, refl, min, true, false, List, [], ◌∷◌, ◌++◌, some, arith, length,
  replicate,
}
use mathlib.Core.List.{reverse, map}
use ldd3_kernel.Int.{pos}
use ldd3_kernel.Kernel.{err, enomem, done, fault, deadlock}
use ldd3_kernel.Snull.{Side, sn0, sn1, SnullPacket, NetDevice, Snull, Params, NetKernel, at}
use ldd3_kernel.Snull.Pool.{teardown_pool, fill_pool, setup_pool}
use ldd3_kernel.Snull.Receive.{poll}
use ldd3_kernel.Snull.Transmit.{rewrite, padded, tx, tx_timeout}
use ldd3_kernel.Snull.Control.{init, snull_open, zeroed_priv}
use ldd3_kernel.Snull.Devices.{add_devices, remove_devices}
use ldd3_kernel.Snull.Ledger.{owned, IsIdle}
use ldd3_kernel.Snull.Polling.{Polled, poll_lem}
use ldd3_kernel.Snull.SendEffect.{Sent, tx_lem}
use ldd3_kernel.Snull.Lockups.{tx-empty_pool, tx_timeout-pool, tx_timeout-frees}
use ldd3_kernel.Snull.Bursts.{Frame, wire, send_all, burst-reversed}

abbrev net : NetKernel
net = record {
  kmalloc = λ c. true;
  dev_alloc_skb = λ c. true;
  napi_complete_done = λ n. true;
  ip_fast_csum = λ bytes. (18, 52);
}

abbrev params : Params
params = record { lockup = 0; use_napi = true; pool_size = 2 }

abbrev registered : NetDevice
registered = record {
  priv = zeroed_priv;
  stopped = true;
  up = false;
  napi_enabled = false;
  scheduled = false;
  mtu = pos 1500;
  irq = 0;
  base_addr = 0;
  dev_addr = [];
  upward = [];
  freed = [];
}

abbrev ready : Side → NetDevice
ready side = (snull_open params side (init net params side registered)).0

abbrev blank : Side → SnullPacket
blank side = record { dev = side; bytes = [] }

-- An interface that is initialised and open
abbrev iface : Side → List ℕ → NetDevice
iface side addr = record registered {
  priv = record zeroed_priv { ppool = blank side ∷ blank side ∷ []; rx_int_enabled = true };
  stopped = false;
  napi_enabled = true;
  dev_addr = addr;
}

abbrev start : Snull
start = record {
  first = iface sn0 (0 ∷ 83 ∷ 78 ∷ 85 ∷ 76 ∷ 48 ∷ []);
  second = iface sn1 (0 ∷ 83 ∷ 78 ∷ 85 ∷ 76 ∷ 49 ∷ []);
}

init_runs : ready sn1 ≡ start.second
unfolding snull_open init setup_pool fill_pool
init_runs = refl

start-IsIdle : IsIdle start
start-IsIdle = (refl, refl)

abbrev frame : List ℕ
frame = replicate 28 0 ++ (7 ∷ 0 ∷ 0 ∷ 0 ∷ 8 ∷ 0 ∷ 0 ∷ [])

-- Both network octets change, and the frame is filled up.
rewrite_runs :
    rewrite net (padded frame)
    ≡ replicate 24 0 ++ (18 ∷ 52 ∷ 0 ∷ 0 ∷ 6 ∷ 0 ∷ 0 ∷ 0 ∷ 9 ∷ replicate 27 0)
unfolding rewrite
rewrite_runs = refl

tx_lem_example :
    (s' : Snull) × (tx net params sn0 5 frame start ≡ done s')
    × Sent net sn0 5 frame start s' (blank sn0) (blank sn0 ∷ [])
tx_lem_example =
    tx_lem net params sn0 5 frame start (blank sn0) (blank sn0 ∷ []) refl refl start-IsIdle refl
      (omega arith)

-- One frame waits for the second interface.
abbrev waiting_frame : Snull
waiting_frame = record start {
  second = record start.second {
    priv = record start.second.priv { rx_queue = record { dev = sn0; bytes = frame } ∷ [] };
  };
}

poll_lem_example :
    let n = min 64 (length {A = SnullPacket} (record { dev = sn0; bytes = frame } ∷ [])) in
    (s' : Snull) × (poll net sn1 64 waiting_frame ≡ done (s', n))
    × Polled net sn1 waiting_frame s' n
    × (n < 64 → true ≡ true → (at sn1 s').priv.rx_int_enabled ≡ true)
poll_lem_example = poll_lem net sn1 64 waiting_frame (refl, refl)

-- All buffers of the first interface are on their way.
abbrev exhausted : Snull
exhausted = record start {
  first = record start.first { priv = record start.first.priv { ppool = [] } };
}

tx-empty_pool_example :
    (s' : Snull) × (tx net params sn0 5 frame exhausted ≡ done s')
    × ((k : NetKernel) (skb : ℕ) (bytes : List ℕ) → tx k params sn0 skb bytes s' ≡ fault deadlock)
tx-empty_pool_example = tx-empty_pool net params sn0 5 frame exhausted refl refl

tx_timeout-pool_example :
    (s' : Snull) × (tx_timeout net params sn0 waiting_frame ≡ done s')
    × ((at sn0 s').priv.lock ≡ false)
    × ((at sn0 s').stopped ≡ false)
    × (owned sn0 s' ≡ 2 + 0 + 1)
tx_timeout-pool_example = tx_timeout-pool net params sn0 waiting_frame refl (λ c. refl) refl

abbrev without_napi : Params
without_napi = record params { use_napi = false }

abbrev done_before : Snull
done_before = record start {
  first = record start.first { priv = record start.first.priv { skb = some 5 }; freed = 5 ∷ [] };
}

tx_timeout-frees_example :
    (s' : Snull) × (tx_timeout net without_napi sn0 done_before ≡ done s')
    × ((at sn0 s').freed ≡ 5 ∷ 5 ∷ [])
    × ((at sn0 s').priv.skb ≡ some 5)
tx_timeout-frees_example = tx_timeout-frees net without_napi sn0 done_before 5 refl refl refl refl

abbrev burst : List Frame
burst = (5, frame) ∷ (6, replicate 60 1) ∷ []

burst-reversed_example :
    (s₁ : Snull) × (s₂ : Snull) × (send_all net params sn0 burst start ≡ done s₁)
    × (poll net sn1 64 s₁ ≡ done (s₂, 2))
    × ((at sn1 s₂).upward ≡ reverse (map (wire net) burst))
burst-reversed_example =
    burst-reversed net params sn0 burst 64 start refl refl (λ c. refl) start-IsIdle (omega arith)
      (omega arith, (omega arith, tt)) refl (omega arith)

-- The second interface cannot be had: the first one, which was never registered, is unregistered.
half_answers_run :
    add_devices net params
      (record {
        alloc_netdev = λ side. elim side [ sn0 ↦ some registered | sn1 ↦ none ];
        register_netdev = λ side. true;
      })
      (record { devs = λ side. none; warned = false; leaked = 0 })
    ≡ (record { devs = λ side. none; warned = true; leaked = 0 }, err enomem)
unfolding add_devices remove_devices init setup_pool fill_pool teardown_pool
half_answers_run = refl
