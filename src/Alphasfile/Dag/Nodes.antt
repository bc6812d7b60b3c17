-- ===== src/Alphasfile/Dag/Nodes.antt =====
-- dag.go, `newGraph`: the producers of the services and of the packages, as nodes. An expression is
-- what its `Variables` method returns, the traversals in it.
use zordon.Base.{
  ℕ, zero, suc, ◌+◌, Bool, true, false, ◌||◌, List, [], ◌∷◌, ◌++◌, map, Option, none, some, ltb,
  if◌then◌else◌, Bytes, codes, equal, mem, insert,
}
use zordon.Alphasfile.Identity.{service_ref}
use zordon.Alphasfile.Dag.Refs.{
  Traversal, Kind, vars_kind, arguments_kind, env_kind, file_kind, part_kind, output_kind,
  input_kind, node_id, output_id, input_id, pkg_scope,
}
use Prim.Native.Nat.{◌/◌, ◌%◌}
use zordon.Alphasfile.Dag.{Graph}

-- `hcl.Expression`, which may be nil
abbrev pub Expr : Type 0
Expr = Option (List Traversal)

pub record FileBlock : Type 0 where
  pub name : Bytes
  pub path : Expr
  pub body : Expr

-- what `newGraph` reads of a `serviceBlock`
pub record ServiceBlock : Type 0 where
  pub toolchain : Bytes
  pub name : Bytes
  pub module_id : Bytes
  pub vars : Expr
  pub arguments : Option Expr
  pub env : Expr
  pub files : List FileBlock

-- `output`, with the value of its declaration
pub record Output : Type 0 where
  pub pkg : Bytes
  pub name : Bytes
  pub value : Expr

-- an `inputArg`: the scope of the import, and its expression
abbrev pub Arg : Type 0
Arg = Bytes × Expr

-- `input`, with the default of its declaration
pub record Input : Type 0 where
  pub pkg : Bytes
  pub name : Bytes
  pub fallback : Expr
  pub args : List Arg

-- `node`
pub record Producer : Type 0 where
  pub id : Bytes
  pub svc_id : Bytes
  pub kind : Kind
  pub exprs : List Expr
  pub scope : Bytes

-- `%d`, from the last digit; the fuel is a bound of the number
unfoldable pub decimal : ℕ → ℕ → Bytes
decimal zero n = []
decimal (suc f) n =
    let high = decimal f (n / 10) in (if ltb n 10 then [] else high) ++ (48 + n % 10) ∷ []

-- `partID`
unfoldable pub part_id : Bytes → Bytes → ℕ → Bytes
unfolding decimal
part_id pkg name i = input_id pkg name ++ (codes "." ++ decimal (suc i) i)

-- A Go set as a list without repetition: `set[id] = struct{}{}`
unfoldable pub set_add : Bytes → List Bytes → List Bytes
unfolding mem
set_add id ids = if mem id ids then ids else ids ++ id ∷ []

-- `g.deps[from][to] = struct{}{}`, where `from` has a set
unfoldable pub add_dep : Bytes → Bytes → List (Bytes × List Bytes) → List (Bytes × List Bytes)
unfolding set_add equal
add_dep from to [] = []
add_dep from to ((id, ds) ∷ m) =
    let rest = add_dep from to m in
    if equal id from then (id, set_add to ds) ∷ m else (id, ds) ∷ rest

-- `graph`, with its nodes in full. The keys of `byID` are the ids of the nodes.
pub record Built : Type 0 where
  pub nodes : List Producer
  pub deps : List (Bytes × List Bytes)

abbrev pub ids : List Producer → List Bytes
ids = map (λ n. n.id)

-- the part of it that `topoSort` reads
abbrev pub names : Built → Graph
names g = record { nodes = ids g.nodes; deps = g.deps }

-- `addNode`
unfoldable pub add_node : Producer → Built → Built
unfolding insert
add_node n g = record { nodes = g.nodes ++ n ∷ []; deps = insert n.id [] g.deps }

-- whether one of the expressions is not nil
abbrev pub any_expr : List Expr → Bool
any_expr [] = false
any_expr (some e ∷ es) = true
any_expr (none ∷ es) = any_expr es

abbrev pub always : Kind → Bool
always vars_kind = true
always arguments_kind = true
always env_kind = true
always _ = false

-- `add`
unfoldable pub add_producer : ServiceBlock → Bytes → Kind → Bytes → List Expr → Built → Built
unfolding add_node
add_producer s sid kind name es g =
    if any_expr es || always kind
    then add_node
        (record {
          id = node_id sid kind name;
          svc_id = sid;
          kind = kind;
          exprs = es;
          scope = s.module_id;
        })
        g
    else g

unfoldable pub add_files : ServiceBlock → Bytes → List FileBlock → Built → Built
unfolding add_producer
add_files s sid [] g = g
add_files s sid (fb ∷ files) g =
    add_files s sid files (add_producer s sid file_kind fb.name (fb.path ∷ fb.body ∷ []) g)

abbrev pub arg_values : Option Expr → Expr
arg_values none = none
arg_values (some values) = values

-- the producers of one service
unfoldable pub add_service : ServiceBlock → Bytes → Built → Built
unfolding add_producer add_files
add_service s sid g = add_files s sid s.files (
    add_producer s sid env_kind [] (s.env ∷ []) (
      add_producer s sid arguments_kind [] (arg_values s.arguments ∷ [])
        (add_producer s sid vars_kind [] (s.vars ∷ []) g)))

pub data NewGraph : Type 0 where
  missing_label : NewGraph
  duplicate_service : Bytes → NewGraph
  graph : Built → NewGraph

-- the loop over `services`, with `seen`
unfoldable pub add_services : List ServiceBlock → List Bytes → Built → NewGraph
unfolding add_service service_ref equal mem
add_services [] seen g = graph g
add_services (s ∷ services) seen g =
    let sid = service_ref s.module_id s.toolchain s.name in
    let rest = add_services services (sid ∷ seen) (add_service s sid g) in
    if equal s.toolchain [] || equal s.name []
    then missing_label
    else if mem sid seen
    then duplicate_service sid
    else rest

unfoldable pub add_outputs : List Output → Built → Built
unfolding add_node
add_outputs [] g = g
add_outputs (o ∷ outputs) g = add_outputs outputs (
    add_node
      (record {
        id = output_id o.pkg o.name;
        svc_id = [];
        kind = output_kind;
        exprs = o.value ∷ [];
        scope = pkg_scope o.pkg;
      })
      g)

-- the parts of an input, from the `i`-th
unfoldable pub add_parts : Input → ℕ → List Arg → Built → Built
unfolding add_node add_dep
add_parts i n [] g = g
add_parts i n ((scope, expr) ∷ args) g =
    let id = part_id i.pkg i.name n in
    let g' =
      add_node (record { id = id; svc_id = []; kind = part_kind; exprs = expr ∷ []; scope = scope })
        g in
    add_parts i (suc n) args (record g' { deps = add_dep (input_id i.pkg i.name) id g'.deps })

unfoldable pub add_inputs : List Input → Built → Built
unfolding add_node add_parts
add_inputs [] g = g
add_inputs (i ∷ inputs) g = add_inputs inputs (
    add_parts i 0 i.args (
      add_node
        (record {
          id = input_id i.pkg i.name;
          svc_id = [];
          kind = input_kind;
          exprs = i.fallback ∷ [];
          scope = pkg_scope i.pkg;
        })
        g))
