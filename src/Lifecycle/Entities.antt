-- ===== src/Lifecycle/Entities.antt =====
-- internal/alphasfile/lifecycle.go: the lifecycles of services, provisions, toolchains and builds.
use zordon.Base.{ℕ, ◌≡◌, refl, true, List, [], ◌∷◌, some, Bytes, codes, equal, mem}
use zordon.Lifecycle.Dfs.{is_declared, Before, edge}
use zordon.Lifecycle.Instances.{reach_each, reach_each-Before}
use zordon.Lifecycle.{Edge, Def, Instance, new_def, new_instance, reached}

abbrev arrow : Bytes → Bytes → Edge
arrow a b = record { from = a; to = b }

-- the arguments of `NewDef` for `ServiceLifecycle`
abbrev pub service_states : List Bytes
service_states =
    codes "scheduled" ∷ codes "running" ∷ codes "ready" ∷ codes "failed" ∷ codes "stopped" ∷ []

abbrev pub service_edges : List Edge
service_edges =
    arrow (codes "scheduled") (codes "running")
    ∷ arrow (codes "running") (codes "ready")
    ∷ arrow (codes "running") (codes "failed")
    ∷ arrow (codes "ready") (codes "stopped")
    ∷ []

-- for `ProvisionLifecycle` and for `BuildLifecycle`
abbrev pub step_states : List Bytes
step_states = codes "scheduled" ∷ codes "running" ∷ codes "success" ∷ codes "failure" ∷ []

abbrev pub step_edges : List Edge
step_edges =
    arrow (codes "scheduled") (codes "running")
    ∷ arrow (codes "running") (codes "success")
    ∷ arrow (codes "running") (codes "failure")
    ∷ []

-- for `ToolchainLifecycle`
abbrev pub toolchain_states : List Bytes
toolchain_states = codes "installing" ∷ codes "ready" ∷ codes "failed" ∷ []

abbrev pub toolchain_edges : List Edge
toolchain_edges =
    arrow (codes "installing") (codes "ready") ∷ arrow (codes "installing") (codes "failed") ∷ []

-- `ServiceTerminalFailure`, `ToolchainTerminalFailure`, `ProvisionTerminalFailure` and
-- `BuildTerminalFailure`
abbrev pub terminal_failed : Bytes
terminal_failed = codes "failed"

abbrev pub terminal_failure : Bytes
terminal_failure = codes "failure"

running_then_failed : Before service_states service_edges (codes "running") terminal_failed
unfolding is_declared mem equal
running_then_failed = edge {p = codes "running"} {s = terminal_failed} refl refl refl

scheduled_then_running : Before service_states service_edges (codes "scheduled") (codes "running")
unfolding is_declared mem equal
scheduled_then_running = edge {p = codes "scheduled"} {s = codes "running"} refl refl refl

running_then_ready : Before service_states service_edges (codes "running") (codes "ready")
unfolding is_declared mem equal
running_then_ready = edge {p = codes "running"} {s = codes "ready"} refl refl refl

ready_then_stopped : Before service_states service_edges (codes "ready") (codes "stopped")
unfolding is_declared mem equal
ready_then_stopped = edge {p = codes "ready"} {s = codes "stopped"} refl refl refl

-- After any calls of `Reach` on a new service, all of which return: a service that is stopped was
-- ready, one that is ready or failed was running, and one that is running was scheduled.
pub service-Ordered :
    (clocks : ℕ → ℕ → ℕ) (ss : List Bytes)
    → (d : Def) × (new_def service_states service_edges ≡ some d)
      × ((i : Instance) × (reach_each clocks (new_instance d) ss ≡ some i)
          × (reached i (codes "stopped") ≡ true → reached i (codes "ready") ≡ true)
          × (reached i (codes "ready") ≡ true → reached i (codes "running") ≡ true)
          × (reached i terminal_failed ≡ true → reached i (codes "running") ≡ true)
          × (reached i (codes "running") ≡ true → reached i (codes "scheduled") ≡ true))
service-Ordered clocks ss =
    let (d, e, (i, f, _, down)) = reach_each-Before service_states service_edges clocks ss in
    let run : (i : Instance) × (reach_each clocks (new_instance d) ss ≡ some i)
        × (reached i (codes "stopped") ≡ true → reached i (codes "ready") ≡ true)
        × (reached i (codes "ready") ≡ true → reached i (codes "running") ≡ true)
        × (reached i terminal_failed ≡ true → reached i (codes "running") ≡ true)
        × (reached i (codes "running") ≡ true → reached i (codes "scheduled") ≡ true) =
      (
        i,
        f,
        λ h. down (codes "stopped") (codes "ready") h ready_then_stopped,
        λ h. down (codes "ready") (codes "running") h running_then_ready,
        λ h. down terminal_failed (codes "running") h running_then_failed,
        λ h. down (codes "running") (codes "scheduled") h scheduled_then_running,
      ) in
    (d, e, run)
