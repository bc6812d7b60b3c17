-- ===== src/Alphasfile/Dag.antt =====
-- internal/alphasfile/dag.go: the order in which the producers of the services are evaluated. A
-- graph holds the names of its nodes and, for each, the set of names that it depends on.
pub mod Count
pub mod Loop
pub mod Refs
pub mod Nodes
pub mod Correct
pub mod Build
pub mod Sets
pub mod WellFormed
pub mod Edges
pub mod Reads
mod BuildTests
mod Tests
use zordon.Base.{
  sort_strings, ℕ, zero, suc, ◌-◌, List, [], ◌∷◌, ◌++◌, Option, none, some, ◌==◌, ltb,
  if◌then◌else◌, length, Bytes, equal, mem, lookup,
}

-- `graph`: the ids of `nodes`, and `deps`
pub record Graph : Type 0 where
  pub nodes : List Bytes
  pub deps : List (Bytes × List Bytes)

abbrev pub or_empty : Option (List Bytes) → List Bytes
or_empty none = []
or_empty (some ds) = ds

-- `g.deps[id]`
abbrev pub deps_of : Graph → Bytes → List Bytes
deps_of g id = or_empty (lookup id g.deps)

-- the keys of `g.deps` with `d` among their dependencies: `rev[d]`
unfoldable pub dependents : List (Bytes × List Bytes) → Bytes → List Bytes
unfolding mem
dependents [] d = []
dependents ((id, ds) ∷ m) d = let later = dependents m d in if mem d ds then id ∷ later else later

-- the keys without dependencies: `ready` before it is sorted
unfoldable pub roots : List (Bytes × List Bytes) → List Bytes
roots [] = []
roots ((id, ds) ∷ m) = let later = roots m in if length ds == 0 then id ∷ later else later

-- `indeg`
abbrev pub Degrees : Type 0
Degrees = Bytes → ℕ

-- `indeg` with a degree lowered by one
abbrev pub decrement : Bytes → Degrees → Degrees
decrement next indeg k = if equal k next then indeg k - 1 else indeg k

-- The loop over `nxt`. The test is on the degree before the decrement, since the program takes a
-- degree of 0 to -1, where it makes no node ready.
unfoldable pub release : List Bytes → Degrees → List Bytes → Degrees × List Bytes
unfolding sort_strings
release [] indeg ready = (indeg, ready)
release (next ∷ nxt) indeg ready =
    release nxt (decrement next indeg)
      (if indeg next == 1 then sort_strings (ready ++ next ∷ []) else ready)

-- The loop of `topoSort`; each turn moves a node to `out` and costs a unit of fuel. `none` is fuel
-- that ran out.
unfoldable pub topo_loop :
    ℕ → Graph → Degrees → List Bytes → List Bytes → Option (Degrees × List Bytes)
unfolding release dependents
topo_loop fuel g indeg [] out = some (indeg, out)
topo_loop zero g indeg (id ∷ ready) out = none
topo_loop (suc f) g indeg (id ∷ ready) out =
    let (indeg', ready') = release (sort_strings (dependents g.deps id)) indeg ready in
    topo_loop f g indeg' ready' (out ++ id ∷ [])

-- `cycleMembers`, over the keys of `indeg`
unfoldable pub cycle_members : Degrees → List (Bytes × List Bytes) → List Bytes
cycle_members indeg [] = []
cycle_members indeg ((id, ds) ∷ m) =
    let later = cycle_members indeg m in if ltb 0 (indeg id) then id ∷ later else later

-- what `topoSort` returns: the order, or the members that its error names
pub data Sorted : Type 0 where
  order : List Bytes → Sorted
  cycle : List Bytes → Sorted
  out_of_fuel : Sorted

abbrev pub verdict : Graph → Option (Degrees × List Bytes) → Sorted
verdict g none = out_of_fuel
verdict g (some (indeg, out)) =
    if length out == length g.nodes
    then order out
    else cycle (sort_strings (cycle_members indeg g.deps))

-- `topoSort`
unfoldable pub topo_sort : Graph → Sorted
unfolding topo_loop roots cycle_members
topo_sort g =
    verdict g
      (topo_loop (length g.nodes) g (λ id. length (deps_of g id)) (sort_strings (roots g.deps)) [])
