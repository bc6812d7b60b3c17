-- ===== src/Probe/Tests.antt =====
-- A probe with the default thresholds but for two successes.
use zordon.Base.{◌≡◌, refl, true, false, [], ◌∷◌, ◌++◌, some, arith, pos, negsuc, Bytes, codes}
use zordon.Probe.{Probe, failure_threshold, success_threshold, Turn, ready, failed, wait}
use zordon.Probe.Streak.{Starts, judge, wait-judge, wait-ready, wait-failed}

abbrev http : Probe
http = record {
  http = true;
  exec = false;
  tcp = false;
  initial_delay = pos 5;
  period_set = pos 0;
  timeout_set = negsuc 0;
  failure_threshold_set = pos 0;
  success_threshold_set = pos 2;
}

abbrev up : Turn
up = record { ok = true; reason = []; ends = false }

abbrev down : Turn
down = record { ok = false; reason = codes "refused"; ends = false }

wait-flapping : wait (some http) false (down ∷ up ∷ down ∷ down ∷ up ∷ up ∷ []) ≡ ready
unfolding wait
wait-flapping = refl

wait-down : wait (some http) false (up ∷ down ∷ down ∷ down ∷ up ∷ []) ≡ failed 3 (codes "refused")
unfolding wait
wait-down = refl

http-Starts : Starts http false
http-Starts = record { acts = refl; delays = refl }

wait-judge_example :
    wait (some http) false (down ∷ up ∷ up ∷ [])
    ≡ judge (success_threshold http) (failure_threshold http) [] (down ∷ up ∷ up ∷ [])
wait-judge_example = wait-judge http false (down ∷ up ∷ up ∷ []) http-Starts

wait-ready_example : wait (some http) false ((up ∷ up ∷ []) ++ (down ∷ [])) ≡ ready
wait-ready_example =
    wait-ready http false (up ∷ up ∷ []) (down ∷ []) http-Starts
      (unfold success_threshold in omega arith) (refl, refl, (refl, refl, tt))

wait-failed_example :
    (why : Bytes) × (wait (some http) false ((down ∷ down ∷ down ∷ []) ++ (up ∷ []))
      ≡ failed (failure_threshold http) why)
wait-failed_example =
    wait-failed http false (down ∷ down ∷ down ∷ []) (up ∷ []) http-Starts
      (unfold failure_threshold in omega arith) (refl, refl, (refl, refl, (refl, refl, tt)))
