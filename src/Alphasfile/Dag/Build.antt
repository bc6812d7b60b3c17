-- ===== src/Alphasfile/Dag/Build.antt =====
-- dag.go, `newGraph`: an edge for each traversal that reads another producer.
use zordon.Base.{
  not, ◌&&◌, List, [], ◌∷◌, Option, none, some, ltb, if◌then◌else◌, length, Bytes, codes, equal,
  mem,
}
use zordon.Alphasfile.Dag.Refs.{
  Segment, attr, Traversal, input_id, package_of, Scopes, output_node_from_trav,
  producer_node_from_trav,
}
use zordon.Alphasfile.Dag.Nodes.{
  Expr, ServiceBlock, Output, Input, Producer, add_dep, ids, NewGraph, graph, add_services,
  add_outputs, add_inputs,
}

-- The id of the producer that a traversal in `n` reads. One of `inputs` is of nothing else.
unfoldable pub input_read : Bytes → List Segment → Option Bytes
unfolding package_of
input_read scope (attr name ∷ more) = elim (package_of scope) [
  | none ↦ none
  | some pkg ↦ some (input_id pkg name)
]
input_read scope _ = none

abbrev pub or_producer : Option Bytes → Option Bytes → Option Bytes
or_producer (some id) later = some id
or_producer none later = later

unfoldable pub node_read : Scopes → Producer → Traversal → Option Bytes
unfolding input_read output_node_from_trav producer_node_from_trav equal
node_read scopes n t =
    let other_read =
      or_producer (output_node_from_trav scopes n.scope t)
        (producer_node_from_trav scopes n.svc_id n.scope t) in
    if equal t.root (codes "inputs") && ltb 0 (length t.steps)
    then input_read n.scope t.steps
    else other_read

-- the edge of a traversal
unfoldable pub read_edge :
    Producer → List Bytes → Option Bytes → List (Bytes × List Bytes) → List (Bytes × List Bytes)
unfolding add_dep mem equal
read_edge n known none deps = deps
read_edge n known (some id) deps =
    if mem id known && not (equal id n.id) then add_dep n.id id deps else deps

unfoldable pub expr_edges :
    Scopes
    → Producer
    → List Bytes
    → List Traversal
    → List (Bytes × List Bytes)
    → List (Bytes × List Bytes)
unfolding node_read read_edge
expr_edges scopes n known [] deps = deps
expr_edges scopes n known (t ∷ ts) deps =
    expr_edges scopes n known ts (read_edge n known (node_read scopes n t) deps)

unfoldable pub node_edges :
    Scopes
    → Producer
    → List Bytes
    → List Expr
    → List (Bytes × List Bytes)
    → List (Bytes × List Bytes)
unfolding expr_edges
node_edges scopes n known [] deps = deps
node_edges scopes n known (none ∷ es) deps = node_edges scopes n known es deps
node_edges scopes n known (some ts ∷ es) deps =
    node_edges scopes n known es (expr_edges scopes n known ts deps)

unfoldable pub all_edges :
    Scopes → List Bytes → List Producer → List (Bytes × List Bytes) → List (Bytes × List Bytes)
unfolding node_edges
all_edges scopes known [] deps = deps
all_edges scopes known (n ∷ nodes) deps =
    all_edges scopes known nodes (node_edges scopes n known n.exprs deps)

-- what follows the services
unfoldable pub with_packages : List Output → List Input → Scopes → NewGraph → NewGraph
unfolding add_outputs add_inputs all_edges
with_packages outputs inputs scopes (graph g) =
    let g' = add_inputs inputs (add_outputs outputs g) in
    graph (record g' { deps = all_edges scopes (ids g'.nodes) g'.nodes g'.deps })
with_packages outputs inputs scopes err = err

-- `newGraph`
unfoldable pub new_graph : List ServiceBlock → List Output → List Input → Scopes → NewGraph
unfolding add_services with_packages
new_graph services outputs inputs scopes =
    with_packages outputs inputs scopes
      (add_services services [] (record { nodes = []; deps = [] }))
