-- ===== src/Alphasfile/Dag/Tests.antt =====
-- Graphs of producers, with a cycle and without one, and `topoSort` on them.
use zordon.Base.{
  string_le, insert_string, sort_strings, Distinct, ℕ, ◌<◌, ◌≡◌, ◌⊎◌, inl, inr, refl, sym, true,
  List, [], ◌∷◌, arith, Bool-cases, if◌then◌else◌, Bytes, codes, equal, equal_iff, mem, lookup,
  mem-cons, mem_head,
}
use zordon.Alphasfile.Dag.{
  Graph, deps_of, or_empty, order, cycle, topo_sort, release, topo_loop, roots, cycle_members,
  dependents,
}
use mathlib.Core.Path.{subst}
use zordon.Alphasfile.Dag.Loop.{IsGraph, Ordered}
use zordon.Alphasfile.Dag.Correct.{topo_sort-cycle, topo_sort-order}

-- what holds of each list of dependencies holds of `g.deps[id]`
abbrev Each : (Bytes → List Bytes → Type 0) → List (Bytes × List Bytes) → Type 0
Each P [] = Unit
Each P ((id, ds) ∷ m) = P id ds × Each P m

lookup-Each :
    (P : Bytes → List Bytes → Type 0) (m : List (Bytes × List Bytes))
    → ((k : Bytes) → P k [])
    → Each P m
    → (k : Bytes) → P k (or_empty (lookup k m))
unfolding lookup
lookup-Each P [] e all k = e k
lookup-Each P ((id, ds) ∷ m) e (p, all) k = elim (Bool-cases (equal id k)) [
  | inl t ↦ rw t (subst (λ j. P j ds) ((equal_iff id k).0 t) p)
  | inr t ↦ rw t (lookup-Each P m e all k)
]

abbrev vars : Bytes
vars = codes "service.go.db.vars"

abbrev env : Bytes
env = codes "service.go.api.env"

abbrev file : Bytes
file = codes "service.go.api.file.conf"

abbrev stack : Graph
stack = record {
  nodes = file ∷ env ∷ vars ∷ [];
  deps = (file, env ∷ vars ∷ []) ∷ (env, vars ∷ []) ∷ (vars, []) ∷ [];
}

abbrev tangle : Graph
tangle = record {
  nodes = file ∷ env ∷ vars ∷ [];
  deps = (file, []) ∷ (env, vars ∷ []) ∷ (vars, env ∷ []) ∷ [];
}

topo_sort-stack : topo_sort stack ≡ order (vars ∷ env ∷ file ∷ [])
unfolding topo_sort topo_loop release roots cycle_members dependents sort_strings insert_string
    string_le lookup mem equal
topo_sort-stack = refl

topo_sort-tangle : topo_sort tangle ≡ cycle (env ∷ vars ∷ [])
unfolding topo_sort topo_loop release roots cycle_members dependents sort_strings insert_string
    string_le lookup mem equal
topo_sort-tangle = refl

abbrev IsKnown : List Bytes → Type 0
IsKnown ds = (d : Bytes) → mem d ds ≡ true → mem d (file ∷ env ∷ vars ∷ []) ≡ true

stack-IsGraph : IsGraph stack
unfolding mem equal
stack-IsGraph = record {
  keys = refl;
  nodes_distinct = (refl, (refl, (refl, tt)));
  deps_distinct =
      lookup-Each (λ _. Distinct) stack.deps (λ _. tt) ((refl, (refl, tt)), ((refl, tt), (tt, tt)));
  deps_known =
      lookup-Each (λ _. IsKnown) stack.deps (λ _ d h. ground (arith, h))
        (λ d h. ground (arith, h), (λ d h. ground (arith, h), (λ d h. ground (arith, h), tt)));
}

tangle-IsGraph : IsGraph tangle
unfolding mem equal
tangle-IsGraph = record {
  keys = refl;
  nodes_distinct = (refl, (refl, (refl, tt)));
  deps_distinct =
      lookup-Each (λ _. Distinct) tangle.deps (λ _. tt) (tt, ((refl, tt), ((refl, tt), tt)));
  deps_known =
      lookup-Each (λ _. IsKnown) tangle.deps (λ _ d h. ground (arith, h))
        (λ d h. ground (arith, h), (λ d h. ground (arith, h), (λ d h. ground (arith, h), tt)));
}

knot :
    (j : Bytes)
    → mem j (env ∷ vars ∷ []) ≡ true
    → (mem j tangle.nodes ≡ true)
      × ((d : Bytes) × (mem d (deps_of tangle j) ≡ true) × (mem d (env ∷ vars ∷ []) ≡ true))
unfolding mem lookup equal
knot j h = go {j = j} (mem-cons j env (vars ∷ []) h)
  where
    Stuck : Bytes → Type 0
    Stuck j =
        (mem j tangle.nodes ≡ true)
        × ((d : Bytes) × (mem d (deps_of tangle j) ≡ true) × (mem d (env ∷ vars ∷ []) ≡ true))

    go : {j : Bytes} → (j ≡ env) ⊎ (mem j (vars ∷ []) ≡ true) → Stuck j
    go (inl e) = subst Stuck (sym e) (refl, (vars, refl, refl))
    go {j = j} (inr h) = elim (mem-cons j vars [] h) [
      | inl e ↦ subst Stuck (sym e) (refl, (env, refl, refl))
      | inr h ↦ ground (arith, h)
    ]

topo_sort-cycle_example : (stuck : List Bytes) × (topo_sort tangle ≡ cycle stuck)
unfolding mem
topo_sort-cycle_example =
    topo_sort-cycle tangle tangle-IsGraph (env ∷ vars ∷ []) env (mem_head env (vars ∷ [])) knot

-- what the dependencies of `stack` lower
abbrev rank : Bytes → ℕ
rank s = if equal s file then 2 else if equal s env then 1 else 0

abbrev IsLower : Bytes → List Bytes → Type 0
IsLower k ds = (d : Bytes) → mem d ds ≡ true → rank d < rank k

below : (k d : Bytes) → mem d (deps_of stack k) ≡ true → rank d < rank k
unfolding mem equal
below =
    lookup-Each IsLower stack.deps (λ k d h. ground (arith, h))
      (
        λ d h. elim (mem-cons d env (vars ∷ []) h) [
          | inl e ↦ subst (λ d. rank d < 2) (sym e) (omega arith)
          | inr h ↦ elim (mem-cons d vars [] h) [
            | inl e ↦ subst (λ d. rank d < 2) (sym e) (omega arith)
            | inr h ↦ ground (arith, h)
          ]
        ],
        (
          λ d h. elim (mem-cons d vars [] h) [
            | inl e ↦ subst (λ d. rank d < 1) (sym e) (omega arith)
            | inr h ↦ ground (arith, h)
          ],
          (λ d h. ground (arith, h), tt),
        ),
      )

topo_sort-order_example :
    (out : List Bytes) × (topo_sort stack ≡ order out)
    × Ordered stack out
    × Distinct out
    × ((k : Bytes) → mem k out ≡ mem k stack.nodes)
topo_sort-order_example = topo_sort-order stack stack-IsGraph rank below
