-- ===== src/Probe.antt =====
-- internal/probe/probe.go: the readiness probe. What each attempt finds, and whether the context
-- ends in the wait after it, is given as a list of turns. A duration is in nanoseconds.
pub mod Streak
mod Tests
use zordon.Base.{
  ℕ, zero, suc, ◌+◌, Bool, not, ◌&&◌, ◌||◌, List, [], ◌∷◌, Option, none, some, leb, if◌then◌else◌,
  ℤ, pos, negsuc, ltb_ℤ, Bytes, codes,
}

-- `Probe`; the flags say which action is configured
pub record Probe : Type 0 where
  pub http : Bool
  pub exec : Bool
  pub tcp : Bool
  pub initial_delay : ℤ
  pub period_set : ℤ
  pub timeout_set : ℤ
  pub failure_threshold_set : ℤ
  pub success_threshold_set : ℤ

abbrev pub default_period : ℕ
default_period = 10000000000

abbrev pub default_timeout : ℕ
default_timeout = 1000000000

abbrev pub default_failure_threshold : ℕ
default_failure_threshold = 3

abbrev pub default_success_threshold : ℕ
default_success_threshold = 1

-- the setting, or the default if it is not positive
unfoldable pub or_default : ℤ → ℕ → ℕ
or_default (pos zero) d = d
or_default (pos (suc n)) d = suc n
or_default (negsuc n) d = d

-- `period`
unfoldable pub period : Probe → ℕ
unfolding or_default
period p = or_default p.period_set default_period

-- `timeout`
unfoldable pub timeout : Probe → ℕ
unfolding or_default
timeout p = or_default p.timeout_set default_timeout

-- `failureThreshold`
unfoldable pub failure_threshold : Probe → ℕ
unfolding or_default
failure_threshold p = or_default p.failure_threshold_set default_failure_threshold

-- `successThreshold`
unfoldable pub success_threshold : Probe → ℕ
unfolding or_default
success_threshold p = or_default p.success_threshold_set default_success_threshold

-- what `try` returns, and whether the context ends before the next attempt
pub record Turn : Type 0 where
  pub ok : Bool
  pub reason : Bytes
  pub ends : Bool

-- the outcomes of `Wait`; `waiting` is that the turns are over and the loop goes on
pub data Verdict : Type 0 where
  ready cancelled nil_probe no_action waiting : Verdict
  failed : ℕ → Bytes → Verdict

module _ (success_max failure_max : ℕ) where
  -- the loop of `Wait`, with `wins` and `fails`
  unfoldable pub wait_loop : ℕ → ℕ → List Turn → Verdict
  wait_loop wins fails [] = waiting
  wait_loop wins fails (t ∷ ts) =
      let won = if t.ends then cancelled else wait_loop (wins + 1) 0 ts in
      let lost = if t.ends then cancelled else wait_loop 0 (fails + 1) ts in
      if t.ok
      then if leb success_max (wins + 1) then ready else won
      else if leb failure_max (fails + 1)
      then failed failure_max t.reason
      else lost

-- `Wait`. The flag says whether the context ends in the initial delay.
unfoldable pub wait : Option Probe → Bool → List Turn → Verdict
unfolding wait_loop success_threshold failure_threshold
wait none ends ts = nil_probe
wait (some p) ends ts =
    if not (p.http || p.exec || p.tcp)
    then no_action
    else if ltb_ℤ (pos 0) p.initial_delay && ends
    then cancelled
    else wait_loop (success_threshold p) (failure_threshold p) 0 0 ts

-- `Check`; `none` is a nil error
unfoldable pub check : Option Probe → Turn → Option Bytes
check none t = some (codes "nil probe")
check (some p) t = if t.ok then none else some t.reason
