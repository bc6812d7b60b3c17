-- ===== src/Probe/Streak.antt =====
-- probe.go, `Wait`: its counters and the streaks of its attempts.
use zordon.Base.{
  ℕ, zero, suc, ◌+◌, ◌≤◌, ◌<◌, ◌≡◌, inl, inr, refl, ◌∙◌, Bool, true, false, not, ◌&&◌, ◌||◌, List,
  [], ◌∷◌, ◌++◌, some, arith, Bool-cases, leb, if◌then◌else◌, length, ℤ, pos, negsuc, ltb_ℤ, Bytes,
}
use zordon.Probe.{
  Probe, or_default, failure_threshold, success_threshold, Turn, Verdict, ready, cancelled, waiting,
  failed, wait_loop, wait,
}

-- the length of the streak of attempts that found `b`, the newest first
unfoldable pub streak : Bool → List Turn → ℕ
streak b [] = 0
streak true (t ∷ past) = let n = streak true past in if t.ok then n + 1 else 0
streak false (t ∷ past) = let n = streak false past in if t.ok then 0 else n + 1

-- Attempts that succeed, with no end of the context after them.
abbrev pub AllWin : List Turn → Type 0
AllWin [] = Unit
AllWin (t ∷ ts) = (t.ok ≡ true) × (t.ends ≡ false) × AllWin ts

abbrev pub AllLose : List Turn → Type 0
AllLose [] = Unit
AllLose (t ∷ ts) = (t.ok ≡ false) × (t.ends ≡ false) × AllLose ts

module _ (success_max failure_max : ℕ) where
  -- the verdict read off the attempts so far, after each of them
  unfoldable pub judge : List Turn → List Turn → Verdict
  unfolding streak
  judge past [] = waiting
  judge past (t ∷ ts) =
      let later = judge (t ∷ past) ts in
      if t.ok && leb success_max (streak true (t ∷ past))
      then ready
      else if not t.ok && leb failure_max (streak false (t ∷ past))
      then failed failure_max t.reason
      else if t.ends
      then cancelled
      else later

  wait_loop-judge :
      (past ts : List Turn)
      → wait_loop success_max failure_max (streak true past) (streak false past) ts ≡ judge past ts
  unfolding wait_loop judge streak
  wait_loop-judge past [] = refl
  wait_loop-judge past (t ∷ ts) = ground (arith, wait_loop-judge (t ∷ past) ts)

  wait_loop_ready :
      (wins fails : ℕ) (ts rest : List Turn)
      → wins < success_max
      → success_max ≤ wins + length ts
      → AllWin ts
      → wait_loop success_max failure_max wins fails (ts ++ rest) ≡ ready
  unfolding wait_loop
  wait_loop_ready wins fails [] rest w h a = absurd (omega arith)
  wait_loop_ready wins fails (t ∷ ts) rest w h (o, e, a) =
      elim (Bool-cases (leb success_max (wins + 1))) [
        | inl d ↦ rw (o, d) refl
        | inr d ↦ rw (o, d, e) (wait_loop_ready (wins + 1) 0 ts rest (ground arith) (omega arith) a)
      ]

  wait_loop_fails :
      (wins fails : ℕ) (ts rest : List Turn)
      → fails < failure_max
      → failure_max ≤ fails + length ts
      → AllLose ts
      → (why : Bytes) × (wait_loop success_max failure_max wins fails (ts ++ rest)
          ≡ failed failure_max why)
  unfolding wait_loop
  wait_loop_fails wins fails [] rest w h a = absurd (omega arith)
  wait_loop_fails wins fails (t ∷ ts) rest w h (o, e, a) =
      elim (Bool-cases (leb failure_max (fails + 1))) [
        | inl d ↦ (t.reason, rw (o, d) refl)
        | inr d ↦
            let (why, q) = wait_loop_fails 0 (fails + 1) ts rest (ground arith) (omega arith) a in
            (why, rw (o, d, e) q)
      ]

or_default_pos : (set : ℤ) (d : ℕ) → 1 ≤ d → 1 ≤ or_default set d
unfolding or_default
or_default_pos (pos zero) d h = h
or_default_pos (pos (suc n)) d h = omega arith
or_default_pos (negsuc n) d h = h

-- The probe has an action, and the context does not end in its initial delay.
pub record Starts (p : Probe) (ends : Bool) : Type 0 where
  pub acts : (p.http || p.exec || p.tcp) ≡ true
  pub delays : (ltb_ℤ (pos 0) p.initial_delay && ends) ≡ false

wait-wait_loop :
    (p : Probe) (ends : Bool) (ts : List Turn)
    → Starts p ends
    → wait (some p) ends ts ≡ wait_loop (success_threshold p) (failure_threshold p) 0 0 ts
unfolding wait
wait-wait_loop p ends ts s = ground (arith, s.acts, s.delays)

-- For a probe with an action whose initial delay is not cut short, `Wait` gives the verdict read off
-- the attempts: after each of them it is ready if as many as the success threshold succeeded in a
-- row up to here, failed if as many as the failure threshold failed in a row, and cancelled if the
-- context ends then.
pub wait-judge :
    (p : Probe) (ends : Bool) (ts : List Turn)
    → Starts p ends
    → wait (some p) ends ts ≡ judge (success_threshold p) (failure_threshold p) [] ts
wait-judge p ends ts s =
    wait-wait_loop p ends ts s
    ∙ (unfold streak in wait_loop-judge (success_threshold p) (failure_threshold p) [] ts)

-- For a probe with an action whose initial delay is not cut short, `Wait` returns with success when
-- the first attempts, as many as the success threshold, succeed, if the context does not end.
pub wait-ready :
    (p : Probe) (ends : Bool) (ts rest : List Turn)
    → Starts p ends
    → success_threshold p ≤ length ts
    → AllWin ts
    → wait (some p) ends (ts ++ rest) ≡ ready
wait-ready p ends ts rest s n a =
    wait-wait_loop p ends (ts ++ rest) s
    ∙ wait_loop_ready (success_threshold p) (failure_threshold p) 0 0 ts rest
        (unfold success_threshold in or_default_pos p.success_threshold_set 1 (omega arith))
        (omega (arith, n)) a

-- For a probe with an action whose initial delay is not cut short, `Wait` returns the error of the
-- failure threshold when the first attempts, as many as that, fail, if the context does not end.
pub wait-failed :
    (p : Probe) (ends : Bool) (ts rest : List Turn)
    → Starts p ends
    → failure_threshold p ≤ length ts
    → AllLose ts
    → (why : Bytes) × (wait (some p) ends (ts ++ rest) ≡ failed (failure_threshold p) why)
wait-failed p ends ts rest s n a =
    let (why, q) =
      wait_loop_fails (success_threshold p) (failure_threshold p) 0 0 ts rest
        (unfold failure_threshold in or_default_pos p.failure_threshold_set 3 (omega arith))
        (omega (arith, n)) a in
    (why, wait-wait_loop p ends (ts ++ rest) s ∙ q)
