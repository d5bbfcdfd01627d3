-- ===== src/ScullPipe/Waiting.antt =====
-- The sleeps of scull_pipe_read and scull_getwritespace: `mutex_lock_interruptible` at the start,
-- and then rounds of `wait_event_interruptible` and the lock again.
use ldd3_kernel.Prelude.{◌≡◌, ◌⊎◌, ◌||◌, Bool, true, false, List}
use ldd3_kernel.Kernel.{ok, err, eagain, efault, erestartsys}
use ldd3_kernel.ScullPipe.{ScullPipe, Round, Ended, asleep, returned}
use ldd3_kernel.Sleep.{Wake, goes_on, would_block, signalled, still_asleep, LastWake}

-- A signal ends the round, in the sleep or in the lock behind it.
abbrev pub is_stopped : Round → Bool
is_stopped r = r.signal || r.interrupted

abbrev pub LastLocked :
    (ScullPipe → Type 0) → Bool → List Round → ScullPipe → ScullPipe → Wake → Type 0
LastLocked lacks nonblock = LastWake is_stopped (λ r. r.found) lacks nonblock

-- The same from the first lock on
abbrev pub LastMet :
    (ScullPipe → Type 0) → Bool → Bool → List Round → ScullPipe → ScullPipe → Wake → Type 0
LastMet lacks interrupted nonblock rs dev last wake =
    ((interrupted ≡ true) × (last ≡ dev) × (wake ≡ signalled))
    ⊎ ((interrupted ≡ false) × LastLocked lacks nonblock rs dev last wake)

-- The reply that each end of the waiting has; `good_copy x` says that the user copy behind the reply
-- `x` succeeds, `bad_copy` that it fails.
abbrev pub Replies : {A : Type 0} → (A → Type 0) → Type 0 → Wake → Ended A → Type 0
Replies good_copy bad_copy goes_on (asleep dev) = ⊥
Replies good_copy bad_copy goes_on (returned dev (ok x) events) = good_copy x
Replies good_copy bad_copy goes_on (returned dev (err e) events) = (e ≡ efault) × bad_copy
Replies good_copy bad_copy would_block (asleep dev) = ⊥
Replies good_copy bad_copy would_block (returned dev (ok x) events) = ⊥
Replies good_copy bad_copy would_block (returned dev (err e) events) = e ≡ eagain
Replies good_copy bad_copy signalled (asleep dev) = ⊥
Replies good_copy bad_copy signalled (returned dev (ok x) events) = ⊥
Replies good_copy bad_copy signalled (returned dev (err e) events) = e ≡ erestartsys
Replies good_copy bad_copy still_asleep (asleep dev) = Unit
Replies good_copy bad_copy still_asleep (returned dev r events) = ⊥
