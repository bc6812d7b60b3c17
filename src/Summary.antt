-- ===== src/Summary.antt =====
-- internal/summary/summary.go: the timing report of a start. A time is a number of nanoseconds
-- since the zero `time.Time`, which is 0. `slices.SortFunc` is the parameter `sort`, by a key.
pub mod Phases
pub mod Order
mod Tests
use Prim.Native.Nat.{◌/◌, min}
use zordon.Base.{
  ◌||◌, ℕ, ◌-◌, Bool, true, false, List, [], ◌∷◌, map, ◌==◌, ltb, if◌then◌else◌, Bytes,
}

-- `DepTiming`
pub record DepTiming : Type 0 where
  pub ref : Bytes
  pub wait_ms : ℕ
  pub long_pole : Bool

-- `ServiceTiming`
pub record ServiceTiming : Type 0 where
  pub name : Bytes
  pub toolchain : Bytes
  pub deps : List DepTiming
  pub wait_ms : ℕ
  pub build_ms : ℕ
  pub spawn_ms : ℕ
  pub ready_ms : ℕ
  pub total_ms : ℕ

-- `ProvisionTiming`
pub record ProvisionTiming : Type 0 where
  pub name : Bytes
  pub service : Bytes
  pub after : List Bytes
  pub detached : Bool
  pub wait_ms : ℕ
  pub run_ms : ℕ

-- `StartSummary`
pub record StartSummary : Type 0 where
  pub total_ms : ℕ
  pub services : List ServiceTiming
  pub provisions : List ProvisionTiming

-- `Dep`
pub record Dep : Type 0 where
  pub ref : Bytes
  pub satisfied_at : ℕ

-- `Service`
pub record Service : Type 0 where
  pub name : Bytes
  pub toolchain : Bytes
  pub deps : List Dep
  pub scheduled : ℕ
  pub build_done : ℕ
  pub started : ℕ
  pub running : ℕ
  pub ready : ℕ

-- `Provision`
pub record Provision : Type 0 where
  pub name : Bytes
  pub service : Bytes
  pub after : List Bytes
  pub detached : Bool
  pub scheduled : ℕ
  pub running : ℕ
  pub finished : ℕ

-- the longest `time.Duration`, at which `Sub` stops
abbrev pub max_duration : ℕ
max_duration = 9223372036854775807

-- `msBetween`
unfoldable pub ms_between : ℕ → ℕ → ℕ
ms_between a b =
    if a == 0 || b == 0 then 0 else if ltb a b then min (b - a) max_duration / 1000000 else 0

-- `out[len(out)-1].LongPole = true` if `len(out) > 1`
unfoldable pub flag_last : List DepTiming → List DepTiming
flag_last [] = []
flag_last (d ∷ []) = record d { long_pole = true } ∷ []
flag_last (d ∷ e ∷ es) = d ∷ flag_last (e ∷ es)

unfoldable pub flag_long_pole : List DepTiming → List DepTiming
unfolding flag_last
flag_long_pole [] = []
flag_long_pole (d ∷ []) = d ∷ []
flag_long_pole (d ∷ e ∷ es) = flag_last (d ∷ e ∷ es)

unfoldable pub dep_timing : ℕ → Dep → DepTiming
unfolding ms_between
dep_timing scheduled d = record {
  ref = d.ref;
  wait_ms = ms_between scheduled d.satisfied_at;
  long_pole = false;
}

unfoldable pub provision_timing : Provision → ProvisionTiming
unfolding ms_between
provision_timing x = record {
  name = x.name;
  service = x.service;
  after = x.after;
  detached = x.detached;
  wait_ms = ms_between x.scheduled x.running;
  run_ms = ms_between x.running x.finished;
}

-- a sort by a key
abbrev pub Sort : Type 1
Sort = (A : Type 0) → (A → ℕ) → List A → List A

module _ (sort : Sort) where
  -- `depTimings`
  unfoldable pub dep_timings : ℕ → List Dep → List DepTiming
  unfolding flag_long_pole dep_timing
  dep_timings scheduled [] = []
  dep_timings scheduled (d ∷ ds) =
      flag_long_pole (sort DepTiming (λ t. t.wait_ms) (map (dep_timing scheduled) (d ∷ ds)))

  unfoldable pub service_timing : Service → ServiceTiming
  unfolding dep_timings ms_between
  service_timing x = record {
    name = x.name;
    toolchain = x.toolchain;
    deps = dep_timings x.scheduled x.deps;
    build_ms = ms_between x.scheduled x.build_done;
    wait_ms = ms_between x.build_done x.started;
    spawn_ms = ms_between x.started x.running;
    ready_ms = ms_between x.running x.ready;
    total_ms = ms_between x.scheduled x.ready;
  }

  -- `Build`
  unfoldable pub build : ℕ → ℕ → List Service → List Provision → StartSummary
  unfolding service_timing provision_timing ms_between
  build bringup_start now services provisions = record {
    total_ms = ms_between bringup_start now;
    services = map service_timing (sort Service (λ x. x.started) services);
    provisions = map provision_timing (sort Provision (λ x. x.running) provisions);
  }
