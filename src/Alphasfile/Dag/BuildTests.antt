-- ===== src/Alphasfile/Dag/BuildTests.antt =====
-- Two services and a package, their graph, and the order of its producers.
use zordon.Base.{
  cut_prefix, last_cut, string_le, insert_string, sort_strings, Distinct, ◌≡◌, refl, true, List, [],
  ◌∷◌, ◌++◌, none, some, Bytes, codes, equal, has_prefix, mem, lookup, insert,
}
use mathlib.Core.List.{Memᴰ}
use zordon.Alphasfile.Identity.{service_ref, module_path, split_package_module}
use zordon.Alphasfile.Dag.{
  order, cycle, topo_sort, topo_loop, release, roots, cycle_members, dependents,
}
use zordon.Alphasfile.Dag.Correct.{SortOutcome}
use zordon.Alphasfile.Dag.Refs.{
  attr, Traversal, env_kind, package_of, package_or, output_node_from_trav, target, field_node,
  producer_node_from_trav, bare_target,
}
use zordon.Alphasfile.Dag.Nodes.{
  FileBlock, ServiceBlock, Output, Input, Producer, set_add, add_dep, Built, ids, names, add_node,
  add_producer, add_files, add_service, add_services, NewGraph, graph, add_outputs, add_parts,
  add_inputs, part_id, decimal,
}
use zordon.Alphasfile.Dag.Build.{
  node_read, input_read, read_edge, expr_edges, node_edges, all_edges, with_packages, new_graph,
}
use zordon.Alphasfile.Dag.Reads.{new_graph-SortOutcome, topo_sort-new_graph}

-- service.go.db.vars.port
abbrev port : Traversal
port = record {
  root = codes "service";
  steps = attr (codes "go") ∷ attr (codes "db") ∷ attr (codes "vars") ∷ attr (codes "port") ∷ [];
}

abbrev db : ServiceBlock
db = record {
  toolchain = codes "go";
  name = codes "db";
  module_id = [];
  vars = some [];
  arguments = none;
  env = none;
  files = [];
}

abbrev api : ServiceBlock
api = record {
  toolchain = codes "go";
  name = codes "api";
  module_id = [];
  vars = none;
  arguments = none;
  env = some (port ∷ []);
  files =
      record {
        name = codes "conf";
        path = none;
        body = some (record { root = codes "self"; steps = attr (codes "env") ∷ [] } ∷ []);
      }
      ∷ [];
}

abbrev size : Input
size = record {
  pkg = codes "pg";
  name = codes "size";
  fallback = none;
  args = ([], some (port ∷ [])) ∷ [];
}

abbrev url : Output
url = record {
  pkg = codes "pg";
  name = codes "url";
  value = some (record { root = codes "inputs"; steps = attr (codes "size") ∷ [] } ∷ []);
}

abbrev built : NewGraph → Built
built (graph g) = g
built _ = record { nodes = []; deps = [] }

abbrev stack : Built
unfolding new_graph
stack = built (new_graph (api ∷ db ∷ []) (url ∷ []) (size ∷ []) [])

abbrev sorted : List Bytes
sorted =
    codes "service.go.api.arguments"
    ∷ codes "service.go.api.vars"
    ∷ codes "service.go.db.arguments"
    ∷ codes "service.go.db.env"
    ∷ codes "service.go.db.vars"
    ∷ codes "input.pg.size.0"
    ∷ codes "input.pg.size"
    ∷ codes "output.pg.url"
    ∷ codes "service.go.api.env"
    ∷ codes "service.go.api.file.conf"
    ∷ []

stack-made : new_graph (api ∷ db ∷ []) (url ∷ []) (size ∷ []) [] ≡ graph stack
unfolding stack new_graph add_services add_service add_producer add_files add_node with_packages
    add_outputs add_inputs service_ref mem equal
stack-made = refl

topo_sort-stack : topo_sort (names stack) ≡ order sorted
unfolding stack new_graph add_services add_service add_producer add_files add_node with_packages
    add_outputs add_inputs add_parts part_id decimal add_dep set_add insert lookup service_ref
    module_path split_package_module last_cut all_edges node_edges expr_edges read_edge node_read
    input_read output_node_from_trav producer_node_from_trav target bare_target field_node
    package_of package_or cut_prefix topo_sort topo_loop release roots cycle_members dependents
    sort_strings insert_string string_le mem equal has_prefix
topo_sort-stack = refl

-- a service with two files of one name, whose graph has a node without a set of its own
abbrev conf : FileBlock
conf = record { name = codes "conf"; path = some []; body = none }

abbrev twice : ServiceBlock
twice = record db { files = conf ∷ conf ∷ [] }

topo_sort-twice : topo_sort (names (built (new_graph (twice ∷ []) [] [] []))) ≡ cycle []
unfolding stack new_graph add_services add_service add_producer add_files add_node with_packages
    add_outputs add_inputs add_parts part_id decimal add_dep set_add insert lookup service_ref
    module_path split_package_module last_cut all_edges node_edges expr_edges read_edge node_read
    input_read output_node_from_trav producer_node_from_trav target bare_target field_node
    package_of package_or cut_prefix topo_sort topo_loop release roots cycle_members dependents
    sort_strings insert_string string_le mem equal has_prefix
topo_sort-twice = refl

stack-Distinct : Distinct (ids stack.nodes)
unfolding stack new_graph add_services add_service add_producer add_files add_node with_packages
    add_outputs add_inputs add_parts part_id decimal service_ref module_path split_package_module
    last_cut node_read output_node_from_trav producer_node_from_trav target bare_target field_node
    mem equal
stack-Distinct = (refl, (refl, (refl, (refl, (refl, (refl, (refl, (refl, (refl, (refl, tt))))))))))

new_graph-SortOutcome_example : SortOutcome (names stack) (topo_sort (names stack))
new_graph-SortOutcome_example =
    new_graph-SortOutcome (api ∷ db ∷ []) (url ∷ []) (size ∷ []) [] stack stack-made stack-Distinct

abbrev api_env : Producer
api_env = record {
  id = codes "service.go.api.env";
  svc_id = codes "service.go.api";
  kind = env_kind;
  exprs = some (port ∷ []) ∷ [];
  scope = [];
}

api_env-read : node_read [] api_env port ≡ some (codes "service.go.db.vars")
unfolding stack new_graph add_services add_service add_producer add_files add_node with_packages
    add_outputs add_inputs add_parts part_id decimal service_ref module_path split_package_module
    last_cut node_read output_node_from_trav producer_node_from_trav target bare_target field_node
    mem equal
api_env-read = refl

api_env-node : Memᴰ api_env stack.nodes
unfolding stack new_graph add_services add_service add_producer add_files add_node with_packages
    add_outputs add_inputs add_parts part_id decimal service_ref module_path split_package_module
    last_cut node_read output_node_from_trav producer_node_from_trav target bare_target field_node
    mem equal
api_env-node = Memᴰ.tail (Memᴰ.tail (Memᴰ.head refl))

db_vars-node : mem (codes "service.go.db.vars") (ids stack.nodes) ≡ true
unfolding stack new_graph add_services add_service add_producer add_files add_node with_packages
    add_outputs add_inputs add_parts part_id decimal service_ref module_path split_package_module
    last_cut node_read output_node_from_trav producer_node_from_trav target bare_target field_node
    mem equal
db_vars-node = refl

topo_sort-new_graph_example :
    (earlier later : List Bytes) × (sorted ≡ earlier ++ codes "service.go.api.env" ∷ later)
    × (mem (codes "service.go.db.vars") earlier ≡ true)
unfolding equal
topo_sort-new_graph_example =
    topo_sort-new_graph (api ∷ db ∷ []) (url ∷ []) (size ∷ []) [] stack stack-made stack-Distinct
      sorted topo_sort-stack api_env (port ∷ []) port (codes "service.go.db.vars") api_env-node
      (Memᴰ.head refl) (Memᴰ.head refl) api_env-read db_vars-node refl
