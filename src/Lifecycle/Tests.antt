-- ===== src/Lifecycle/Tests.antt =====
-- The states of a service in a chain, and calls of `Reach` on them.
use zordon.Base.{
  ◌+◌, ◌≡◌, ◌↔◌, refl, sym, ◌∙◌, true, ◌&&◌, List, [], ◌∷◌, some, Bytes, codes, equal, mem, insert,
}
use mathlib.Core.Option.{some-injective}
use mathlib.Core.Path.{subst}
use zordon.Lifecycle.{Edge, Def, Instance, direct, new_def, preds_of, new_instance, reach, reached}
use zordon.Lifecycle.Dfs.{Before}
use zordon.Lifecycle.Closure.{new_def-Before}
use zordon.Lifecycle.Reach.{Reaches, reach-Reaches}
use zordon.Lifecycle.Entities.{
  service_states, service_edges, step_states, step_edges, toolchain_states, toolchain_edges,
  terminal_failed, terminal_failure, service-Ordered,
}
use zordon.Lifecycle.Instances.{Compiled, new_instance-IsInstance, reach_each, reach_each-Before}

abbrev states : List Bytes
states = codes "spawned" ∷ codes "running" ∷ codes "ready" ∷ []

abbrev edges : List Edge
edges =
    record { from = codes "spawned"; to = codes "running" }
    ∷ record { from = codes "running"; to = codes "ready" }
    ∷ record { from = codes "gone"; to = codes "ready" }
    ∷ []

abbrev service : Def
service = record {
  states = states;
  preds =
      (codes "spawned", [])
      ∷ (codes "running", codes "spawned" ∷ [])
      ∷ (codes "ready", codes "running" ∷ codes "spawned" ∷ [])
      ∷ [];
}

new_def-service : new_def states edges ≡ some service
unfolding new_def direct mem equal insert
new_def-service = refl

service-Compiled : Compiled states edges service
service-Compiled =
    let (d, e, same, all) = new_def-Before states edges in
    subst (Compiled states edges) (some-injective _ _ (sym e ∙ new_def-service)) (same, all)

new_def-Before_example :
    (d : Def) × (new_def states edges ≡ some d)
    × (d.states ≡ states)
    × ((s p : Bytes)
        → (mem p (preds_of d s) ≡ true) ↔ (mem s states ≡ true) × Before states edges p s)
new_def-Before_example = new_def-Before states edges

reach-Reaches_example :
    (i' : Instance) × (reach (λ k. k + 7) (new_instance service) (codes "running") ≡ some i')
    × Reaches (new_instance service) i' (codes "running")
reach-Reaches_example =
    reach-Reaches (λ k. k + 7) (new_instance service) (codes "running")
      (new_instance-IsInstance states edges service service-Compiled)

reach_each-Before_example :
    (d : Def) × (new_def states edges ≡ some d)
    × ((i : Instance) × (reach_each
            (λ n k. n + k)
            (new_instance d)
            (codes "running" ∷ codes "gone" ∷ [])
          ≡ some i)
        × ((t : Bytes)
            → mem t (codes "running" ∷ codes "gone" ∷ []) && mem t states ≡ true
            → reached i t ≡ true)
        × ((t p : Bytes) → reached i t ≡ true → Before states edges p t → reached i p ≡ true))
reach_each-Before_example =
    reach_each-Before states edges (λ n k. n + k) (codes "running" ∷ codes "gone" ∷ [])

new_def-steps :
    new_def step_states step_edges
    ≡ some (record {
      states = step_states;
      preds =
          (codes "scheduled", [])
          ∷ (codes "running", codes "scheduled" ∷ [])
          ∷ (codes "success", codes "running" ∷ codes "scheduled" ∷ [])
          ∷ (terminal_failure, codes "running" ∷ codes "scheduled" ∷ [])
          ∷ [];
    })
unfolding new_def direct mem equal insert
new_def-steps = refl

new_def-toolchain :
    new_def toolchain_states toolchain_edges
    ≡ some (record {
      states = toolchain_states;
      preds =
          (codes "installing", [])
          ∷ (codes "ready", codes "installing" ∷ [])
          ∷ (terminal_failed, codes "installing" ∷ [])
          ∷ [];
    })
unfolding new_def direct mem equal insert
new_def-toolchain = refl

service-Ordered_example :
    (d : Def) × (new_def service_states service_edges ≡ some d)
    × ((i : Instance) × (reach_each (λ n k. n + k) (new_instance d) (codes "ready" ∷ []) ≡ some i)
        × (reached i (codes "stopped") ≡ true → reached i (codes "ready") ≡ true)
        × (reached i (codes "ready") ≡ true → reached i (codes "running") ≡ true)
        × (reached i terminal_failed ≡ true → reached i (codes "running") ≡ true)
        × (reached i (codes "running") ≡ true → reached i (codes "scheduled") ≡ true))
service-Ordered_example = service-Ordered (λ n k. n + k) (codes "ready" ∷ [])
