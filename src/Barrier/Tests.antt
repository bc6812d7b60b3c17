-- ===== src/Barrier/Tests.antt =====
-- Barriers on concrete times.
use zordon.Base.{ℕ, ◌≤◌, ◌≡◌, refl, true, false, ◌||◌, [], ◌∷◌, arith, length, if◌then◌else◌}
use zordon.Barrier.Settled.{waiting-WorkerTurn, any_settled}
use zordon.Barrier.Any.{
  Store, AnyState, any, trigger_in, one_triggered, waiting, Run, start, turn, outside, WorkerTurn,
  fires, stops,
}
use zordon.Barrier.{new, trigger, is_triggered, fired, new-IsValid, trigger_once}

fired-twice : fired (trigger 9 (trigger 5 new)) ≡ (5, true)
unfolding fired trigger new
fired-twice = refl

trigger_once_example :
    (is_triggered (trigger 5 new) ≡ true)
    × (fired (trigger 5 new) ≡ (if is_triggered new then fired new else (5, true)))
    × (trigger 9 (trigger 5 new) ≡ trigger 5 new)
trigger_once_example = trigger_once 5 9 new new-IsValid

-- `Any` with the target 2 and the sources 0 and 1: other code triggers the barrier 1 at the time 5,
-- its goroutine triggers the target at the time 6, and the other one stops.
abbrev fresh : Store
fresh k = new

abbrev after_source : Store
after_source = trigger_in 5 1 fresh

abbrev settled : AnyState
settled = record {
  store = trigger_in 6 2 after_source;
  workers = record { source = 0; ended = true } ∷ record { source = 1; ended = true } ∷ [];
}

run : Run 2 (any (0 ∷ 1 ∷ []) fresh) 2 settled
unfolding trigger_in trigger is_triggered new
run =
    turn
      (turn (outside 5 1 start refl)
        (fires 6 1 after_source (record { source = 0; ended = false } ∷ []) [] refl))
      (stops 0 (trigger_in 6 2 after_source) [] (record { source = 1; ended = true } ∷ []) refl)

settled_stuck : (y : AnyState) → WorkerTurn 2 settled y → ⊥
unfolding waiting
settled_stuck y t = omega (arith, waiting-WorkerTurn 2 settled y t)

any_settled_example :
    (2 ≤ length {A = ℕ} (0 ∷ 1 ∷ []))
    × (is_triggered (settled.store 2)
        ≡ (is_triggered (fresh 2) || one_triggered settled.store (0 ∷ 1 ∷ [])))
any_settled_example =
    any_settled 2 (0 ∷ 1 ∷ []) fresh (λ k. new-IsValid) 2 settled run settled_stuck
