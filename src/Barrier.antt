-- ===== src/Barrier.antt =====
-- internal/barrier/barrier.go: the one-shot edge. The channel is open or closed; `sync.Once` runs
-- the trigger's function once. Times are numbers, and zero is the zero `time.Time`.
pub mod Any
pub mod Settled
mod Tests
use zordon.Base.{ℕ, ◌≡◌, refl, Bool, true, false, [], arith, if◌then◌else◌}

-- `Barrier`: `triggered` is the state of `once`
pub record Barrier : Type 0 where
  pub closed : Bool
  pub triggered : Bool
  pub fired_at : ℕ

-- `New`
unfoldable pub new : Barrier
new = record { closed = false; triggered = false; fired_at = 0 }

-- `Trigger`, at the time `now`
unfoldable pub trigger : ℕ → Barrier → Barrier
trigger now b =
    if b.triggered then b else record b { closed = true; triggered = true; fired_at = now }

-- `Triggered`: the receive from the channel succeeds if it is closed
unfoldable pub is_triggered : Barrier → Bool
is_triggered b = b.closed

-- `FiredAt`
unfoldable pub fired : Barrier → ℕ × Bool
fired b = if b.closed then (b.fired_at, true) else (0, false)

-- `Pass`: the barrier that is triggered when the program starts
unfoldable pub pass : ℕ → Barrier
unfolding trigger new
pass start = trigger start new

-- The channel is closed exactly when the trigger has run.
pub record IsValid (b : Barrier) : Type 0 where
  pub once : b.closed ≡ b.triggered

pub new-IsValid : IsValid new
unfolding new
new-IsValid = record { once = refl }

pub trigger-IsValid : (now : ℕ) (b : Barrier) → IsValid b → IsValid (trigger now b)
unfolding trigger
trigger-IsValid now b v = record { once = ground arith }

-- Of a valid barrier: after `Trigger` it is triggered; it reports the time of this call if it was
-- not triggered before, and else what it reported; a later call of `Trigger` changes nothing.
pub trigger_once :
    (now later : ℕ) (b : Barrier)
    → IsValid b
    → (is_triggered (trigger now b) ≡ true)
      × (fired (trigger now b) ≡ (if is_triggered b then fired b else (now, true)))
      × (trigger later (trigger now b) ≡ trigger now b)
unfolding trigger is_triggered fired
trigger_once now later b v = ground (arith, v.once)

pub trigger_fired : (now : ℕ) (b : Barrier) → IsValid b → is_triggered b ≡ true → trigger now b ≡ b
unfolding trigger is_triggered
trigger_fired now b v h = ground (arith, v.once)
