-- ===== src/Snull/Bursts.antt =====
-- Frames that are sent one after the other before the twin is polled.
use ldd3_kernel.Prelude.{
  ℕ, suc, ◌+◌, ◌-◌, ◌≤◌, ◌≡◌, refl, ap, sym, ◌∙◌, min, true, List, [], ◌∷◌, ◌++◌, map, arith,
  length, take-all, All,
}
use mathlib.Core.List.{reverse, reverse_aux}
use ldd3_kernel.Kernel.{Run, done, ◌>>=◌}
use ldd3_kernel.Snull.{Side, twin, SnullPacket, Snull, Params, NetKernel, at}
use ldd3_kernel.Snull.Receive.{poll}
use ldd3_kernel.Snull.Transmit.{eth_data_len, rewrite, padded, tx}
use ldd3_kernel.Snull.Ledger.{IsIdle}
use ldd3_kernel.Snull.Polling.{poll_lem}
use ldd3_kernel.Snull.SendEffect.{tx_lem}

-- A socket buffer and its frame
abbrev pub Frame : Type 0
Frame = ℕ × List ℕ

unfoldable pub send_all : NetKernel → Params → Side → List Frame → Snull → Run Snull
send_all k params side [] s = done s
send_all k params side (f ∷ fs) s =
    tx k params side f.0 f.1 s >>= λ s'. send_all k params side fs s'

-- A frame as it is on the wire
abbrev pub wire : NetKernel → Frame → List ℕ
wire k f = rewrite k (padded f.1)

abbrev pub Fits : Frame → Type 0
Fits f = length f.1 ≤ eth_data_len

abbrev waiting : Side → Snull → List (List ℕ)
waiting side s = map (λ pkt. pkt.bytes) (at side s).priv.rx_queue

record Queued (k : NetKernel) (side : Side) (frames : List Frame) (s s' : Snull) : Type 0 where
  idle : IsIdle s'
  queue : waiting (twin side) s' ≡ reverse_aux (map (wire k) frames) (waiting (twin side) s)
  upward : (at (twin side) s').upward ≡ (at (twin side) s).upward
  ends_free : length (at side s').priv.ppool ≡ length (at side s).priv.ppool - length frames

module _ (k : NetKernel) (params : Params) (side : Side) (napi : params.use_napi ≡ true)
    (no_lockup : params.lockup ≡ 0) where
  send_all_lem :
      (frames : List Frame) (s : Snull) (pool : List SnullPacket)
      → IsIdle s
      → (at side s).priv.ppool ≡ pool
      → length frames ≤ length pool
      → All Fits frames
      → (s' : Snull) × (send_all k params side frames s ≡ done s') × Queued k side frames s s'
  unfolding send_all
  send_all_lem [] s pool h e room fits =
      (s, refl, record { idle = h; queue = refl; upward = refl; ends_free = omega arith })
  send_all_lem (f ∷ fs) s [] h e room fits = absurd (omega (arith, room))
  send_all_lem (f ∷ fs) s (pkt ∷ rest) h e room fits =
      let (s₁, runs, one) = tx_lem k params side f.0 f.1 s pkt rest napi no_lockup h e fits.0 in
      let (s', later, all) =
        send_all_lem fs s₁ rest one.idle one.pool (omega (arith, room)) fits.1 in
      (
        s',
        ap (λ run. run >>= λ s'. send_all k params side fs s') runs ∙ later,
        record {
          idle = all.idle;
          queue =
              all.queue
              ∙ ap (λ q. reverse_aux (map (wire k) fs) (map (λ pkt. pkt.bytes) q)) one.queue;
          upward = all.upward ∙ one.upward;
          ends_free = omega (arith, all.ends_free, ap length one.pool, ap length e);
        },
      )

length-map : {A B : Type 0} (f : A → B) (xs : List A) → length (map f xs) ≡ length xs
length-map f [] = refl
length-map f (x ∷ xs) = ap suc (length-map f xs)

length-reverse_aux :
    {A : Type 0} (xs ys : List A) → length (reverse_aux xs ys) ≡ length xs + length ys
length-reverse_aux [] ys = omega arith
length-reverse_aux (x ∷ xs) ys = omega (arith, length-reverse_aux xs (x ∷ ys))

-- Where interrupts only schedule NAPI, with no simulated lockup, no lock held, as many buffers in the
-- pool as there are frames, frames of at most 1500 bytes and an empty receive queue of the twin, the
-- frames can all be sent, and a poll of the twin with a budget for all of them and memory for socket
-- buffers then hands them to the upper layers in the opposite order.
pub burst-reversed :
    (k : NetKernel) (params : Params) (side : Side) (frames : List Frame) (budget : ℕ) (s : Snull)
    → params.use_napi ≡ true
    → params.lockup ≡ 0
    → ((c : ℕ) → k.dev_alloc_skb c ≡ true)
    → IsIdle s
    → length frames ≤ length (at side s).priv.ppool
    → All Fits frames
    → (at (twin side) s).priv.rx_queue ≡ []
    → length frames ≤ budget
    → (s₁ : Snull) × (s₂ : Snull) × (send_all k params side frames s ≡ done s₁)
      × (poll k (twin side) budget s₁ ≡ done (s₂, length frames))
      × ((at (twin side) s₂).upward ≡ (at (twin side) s).upward ++ reverse (map (wire k) frames))
burst-reversed k params side frames budget s napi no_lockup memory h room fits empty enough =
    let (s₁, sends, q) =
      send_all_lem k params side napi no_lockup frames s (at side s).priv.ppool h refl room fits in
    let n = min budget (length (at (twin side) s₁).priv.rx_queue) in
    let (s₂, polls, p, _) = poll_lem k (twin side) budget s₁ q.idle in
    let queue : waiting (twin side) s₁ ≡ reverse (map (wire k) frames) =
      q.queue ∙ ap (λ x. reverse_aux (map (wire k) frames) (map (λ pkt. pkt.bytes) x)) empty in
    let count : length (at (twin side) s₁).priv.rx_queue ≡ length frames =
      sym (length-map (λ pkt. pkt.bytes) (at (twin side) s₁).priv.rx_queue)
      ∙ ap length queue
      ∙ length-reverse_aux (map (wire k) frames) []
      ∙ omega (arith, length-map (wire k) frames) in
    let all : n ≡ length frames = omega (arith, count, enough) in
    (
      s₁,
      s₂,
      sends,
      polls ∙ ap (λ m. done (s₂, m)) all,
      p.went_up memory
          ∙ ap (λ q. (at (twin side) s₁).upward ++ map (λ pkt. pkt.bytes) q)
              (take-all n (at (twin side) s₁).priv.rx_queue (omega (arith, all, count)))
          ∙ ap (λ u. u ++ waiting (twin side) s₁) q.upward
          ∙ ap (λ u. (at (twin side) s).upward ++ u) queue,
    )
