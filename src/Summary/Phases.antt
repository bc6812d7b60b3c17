-- ===== src/Summary/Phases.antt =====
-- summary.go, `Build` and `msBetween`: the phases of a service and its total.
use zordon.Base.{ℕ, ◌+◌, ◌-◌, ◌*◌, ◌≤◌, ◌<◌, arith}
use zordon.Summary.{Sort, Service, ms_between, max_duration, service_timing}

-- The times of a service that was brought up: all are known, in their order, and the first and the
-- last are no further apart than the longest duration, 292 years.
pub record IsUp (x : Service) : Type 0 where
  pub known_start : 1 ≤ x.scheduled
  pub build_after : x.scheduled ≤ x.build_done
  pub start_after : x.build_done ≤ x.started
  pub run_after : x.started ≤ x.running
  pub ready_after : x.running ≤ x.ready
  pub in_range : x.ready - x.scheduled ≤ max_duration

ms_between_lem :
    (a b : ℕ)
    → 1 ≤ a
    → a ≤ b
    → b - a ≤ max_duration
    → (1000000 * ms_between a b ≤ b - a) × (b - a < 1000000 * ms_between a b + 1000000)
unfolding ms_between
ms_between_lem a b p q r = ground arith

-- For a service that was brought up, of which all times are known, in their order, and within the
-- longest duration of each other, the phases build, wait, spawn and ready do not exceed the
-- total, and fall short of it by 3 milliseconds at most.
pub service_timing-sum :
    (sort : Sort) (x : Service)
    → IsUp x
    → ((service_timing sort x).build_ms
          + (service_timing sort x).wait_ms
          + (service_timing sort x).spawn_ms
          + (service_timing sort x).ready_ms
        ≤ (service_timing sort x).total_ms)
      × ((service_timing sort x).total_ms
          ≤ (service_timing sort x).build_ms
            + (service_timing sort x).wait_ms
            + (service_timing sort x).spawn_ms
            + (service_timing sort x).ready_ms
            + 3)
unfolding service_timing
service_timing-sum sort x u =
    let known = u.known_start in
    let build = u.build_after in
    let start = u.start_after in
    let run = u.run_after in
    let ready = u.ready_after in
    let range = u.in_range in
    omega (
      arith,
      ms_between_lem x.scheduled x.build_done known build (omega arith),
      ms_between_lem x.build_done x.started (omega arith) start (omega arith),
      ms_between_lem x.started x.running (omega arith) run (omega arith),
      ms_between_lem x.running x.ready (omega arith) ready (omega arith),
      ms_between_lem x.scheduled x.ready known (omega arith) range,
    )
