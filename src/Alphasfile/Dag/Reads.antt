-- ===== src/Alphasfile/Dag/Reads.antt =====
-- dag.go, `newGraph` and `topoSort` together: producers behind those that they read.
use zordon.Base.{
  Distinct, ◌≡◌, inl, inr, sym, ap, ◌∙◌, true, false, ◌||◌, List, [], ◌∷◌, ◌++◌, append_assoc, some,
  arith, Bool-cases, Bytes, equal, equal_iff, mem, mem-snoc,
}
use mathlib.Core.List.{Memᴰ}
use mathlib.Core.Path.{subst}
use zordon.Alphasfile.Dag.{Graph, deps_of, order, topo_sort}
use zordon.Alphasfile.Dag.Loop.{Ordered, empty, then_one}
use zordon.Alphasfile.Dag.Correct.{SortOutcome, topo_sort-SortOutcome}
use zordon.Alphasfile.Dag.Refs.{Traversal, Scopes}
use zordon.Alphasfile.Dag.Nodes.{
  ServiceBlock, Output, Input, Producer, Built, ids, names, add_services, NewGraph, graph,
  missing_label, duplicate_service, add_outputs, add_inputs,
}
use zordon.Alphasfile.Dag.Build.{node_read, all_edges, with_packages, new_graph}
use zordon.Alphasfile.Dag.WellFormed.{
  Sound, new_graph-Sound, SoundResult, before_edges, before_edges-Sound,
}
use zordon.Alphasfile.Dag.Edges.{mem-ids, mem-all_edges}

-- the ids before `k` in an order hold all that `k` depends on
before-Ordered :
    (g : Graph) {out : List Bytes}
    → Ordered g out
    → (k : Bytes) → mem k out ≡ true
    → (earlier later : List Bytes) × (out ≡ earlier ++ k ∷ later)
      × ((d : Bytes) → mem d (deps_of g k) ≡ true → mem d earlier ≡ true)
unfolding mem
before-Ordered g empty k m = ground (arith, m)
before-Ordered g (then_one {out} {out'} id o h e) k m = elim (Bool-cases (equal k id)) [
  | inl t ↦
      let same = (equal_iff k id).0 t in
      (
        out,
        [],
        e ∙ ap (λ j. out ++ j ∷ []) (sym same),
        subst (λ j. (d : Bytes) → mem d (deps_of g j) ≡ true → mem d out ≡ true) (sym same) h,
      )
  | inr t ↦
      let listed : (equal k id || mem k out) ≡ true =
        sym (mem-snoc k id out) ∙ sym (ap (mem k) e) ∙ m in
      let (earlier, later, split, all) = before-Ordered g o k (ground (arith, listed, t)) in
      (
        earlier,
        later ++ id ∷ [],
        e ∙ ap (λ xs. xs ++ id ∷ []) split ∙ append_assoc earlier (k ∷ later) (id ∷ []),
        all,
      )
]

new_graph-reads :
    (services : List ServiceBlock) (outputs : List Output) (inputs : List Input) (scopes : Scopes)
    (g : Built)
    → new_graph services outputs inputs scopes ≡ graph g
    → Distinct (ids g.nodes)
    → (n : Producer) (ts : List Traversal) (t : Traversal) (d : Bytes) → Memᴰ n g.nodes
    → Memᴰ (some ts) n.exprs
    → Memᴰ t ts
    → node_read scopes n t ≡ some d
    → mem d (ids g.nodes) ≡ true
    → equal d n.id ≡ false
    → mem d (deps_of (names g) n.id) ≡ true
unfolding new_graph with_packages
new_graph-reads services outputs inputs scopes g made distinct n ts t d q p h r known foreign =
    go (add_services services [] (record { nodes = []; deps = [] }))
      (before_edges-Sound services outputs inputs) made
  where
    Holds : Built → Type 0
    Holds g =
        Distinct (ids g.nodes)
        → Memᴰ n g.nodes
        → mem d (ids g.nodes) ≡ true
        → mem d (deps_of (names g) n.id) ≡ true

    built : NewGraph → Built
    built (graph g) = g
    built _ = g

    go :
        (x : NewGraph)
        → SoundResult (before_edges outputs inputs x)
        → with_packages outputs inputs scopes x ≡ graph g
        → mem d (deps_of (names g) n.id) ≡ true
    go (graph g0) sound e =
        let g1 = add_inputs inputs (add_outputs outputs g0) in
        let holds : Holds
            (record { nodes = g1.nodes; deps = all_edges scopes (ids g1.nodes) g1.nodes g1.deps }) =
          λ u q k.
            mem-all_edges scopes (ids g1.nodes) n d (mem-ids n g1.nodes q) k foreign t ts g1.nodes
              g1.deps (sound u) q p h r in
        subst Holds (ap built e) holds distinct q known
    go missing_label sound e = cc (e)
    go (duplicate_service sid) sound e = cc (e)

-- Where `newGraph` succeeds, no two producers have an id in common, and `topoSort` returns an order,
-- each producer stands in it, behind every other producer that a traversal in one of its
-- expressions reads.
pub topo_sort-new_graph :
    (services : List ServiceBlock) (outputs : List Output) (inputs : List Input) (scopes : Scopes)
    (g : Built)
    → new_graph services outputs inputs scopes ≡ graph g
    → Distinct (ids g.nodes)
    → (out : List Bytes) → topo_sort (names g) ≡ order out
    → (n : Producer) (ts : List Traversal) (t : Traversal) (d : Bytes) → Memᴰ n g.nodes
    → Memᴰ (some ts) n.exprs
    → Memᴰ t ts
    → node_read scopes n t ≡ some d
    → mem d (ids g.nodes) ≡ true
    → equal d n.id ≡ false
    → (earlier later : List Bytes) × (out ≡ earlier ++ n.id ∷ later) × (mem d earlier ≡ true)
topo_sort-new_graph services outputs inputs scopes g made distinct out sorted n ts t d q p h r known
      foreign =
    let sound : Sound g = subst SoundResult made (new_graph-Sound services outputs inputs scopes) in
    let (o, u, same) =
      subst (SortOutcome (names g)) sorted (topo_sort-SortOutcome (names g) (sound distinct)) in
    let (earlier, later, split, all) =
      before-Ordered (names g) o n.id (same n.id ∙ mem-ids n g.nodes q) in
    (
      earlier,
      later,
      split,
      all d (
          new_graph-reads services outputs inputs scopes g made distinct n ts t d q p h r known
            foreign),
    )

-- Where `newGraph` succeeds and no two producers have an id in common, `topoSort` returns every
-- producer once, each behind all it depends on, or names producers, at least one, of which each
-- depends on another of them.
pub new_graph-SortOutcome :
    (services : List ServiceBlock) (outputs : List Output) (inputs : List Input) (scopes : Scopes)
    (g : Built)
    → new_graph services outputs inputs scopes ≡ graph g
    → Distinct (ids g.nodes)
    → SortOutcome (names g) (topo_sort (names g))
new_graph-SortOutcome services outputs inputs scopes g made distinct =
    let sound : Sound g = subst SoundResult made (new_graph-Sound services outputs inputs scopes) in
    topo_sort-SortOutcome (names g) (sound distinct)
