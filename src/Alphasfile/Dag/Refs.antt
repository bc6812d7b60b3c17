-- ===== src/Alphasfile/Dag/Refs.antt =====
-- dag.go and tree.go: the producer that a traversal reads, by its id.
use zordon.Base.{
  cut_prefix, ◌&&◌, List, [], ◌∷◌, ◌++◌, Option, none, some, if◌then◌else◌, Bytes, codes, equal,
  lookup,
}
use zordon.Alphasfile.Identity.{split_package_module, service_ref}

-- a step of a traversal: `.name`, or an index or a splat
pub data Segment : Type 0 where
  attr : Bytes → Segment
  other : Segment

-- `hcl.Traversal`: the name of its root, and the steps behind it
pub record Traversal : Type 0 where
  pub root : Bytes
  pub steps : List Segment

-- `nodeKind`
pub data Kind : Type 0 where
  vars_kind : Kind
  arguments_kind : Kind
  env_kind : Kind
  file_kind : Kind
  part_kind : Kind
  output_kind : Kind
  input_kind : Kind

-- `String` of a kind
abbrev pub kind_name : Kind → Bytes
kind_name vars_kind = codes "vars"
kind_name arguments_kind = codes "arguments"
kind_name env_kind = codes "env"
kind_name file_kind = codes "file"
kind_name part_kind = codes "part"
kind_name output_kind = codes "output"
kind_name input_kind = codes "input"

-- `nodeID`
abbrev pub node_id : Bytes → Kind → Bytes → Bytes
node_id svc_id file_kind name = svc_id ++ (codes ".file." ++ name)
node_id svc_id kind name = svc_id ++ (codes "." ++ kind_name kind)

-- `id` of an output and of an input
abbrev pub output_id : Bytes → Bytes → Bytes
output_id pkg name = codes "output." ++ (pkg ++ (codes "." ++ name))

abbrev pub input_id : Bytes → Bytes → Bytes
input_id pkg name = codes "input." ++ (pkg ++ (codes "." ++ name))

-- `pkgScope`
abbrev pub pkg_scope : Bytes → Bytes
pkg_scope name = codes "pkg:" ++ name

-- `packageOf`
unfoldable pub package_or : Bytes → Option Bytes → Option Bytes
unfolding split_package_module
package_or scope (some p) = some p
package_or scope none = elim (split_package_module scope) [ none ↦ none | some s ↦ some s.0 ]

unfoldable pub package_of : Bytes → Option Bytes
unfolding cut_prefix package_or
package_of scope = package_or scope (cut_prefix scope (codes "pkg:"))

-- `resolveModule`
unfoldable pub resolve_module : Bytes → Bytes → Bytes
unfolding package_of
resolve_module scope m = elim (package_of scope) [ none ↦ m | some p ↦ p ++ (codes "/" ++ m) ]

-- `scopes` of a `Tree`, each with its `pkgs`; a nil tree has none
abbrev pub Scopes : Type 0
Scopes = List (Bytes × List (Bytes × Bytes))

-- `t.scopes[scope].pkgs[name]`
unfoldable pub visible : Scopes → Bytes → Bytes → Option Bytes
unfolding lookup
visible scopes scope name = elim (lookup scope scopes) [
  | none ↦ none
  | some pkgs ↦ lookup name pkgs
]

abbrev pub or_visible : Option Bytes → Option Bytes → Option Bytes
or_visible (some target) later = some target
or_visible none later = later

-- `resolvePackageRef`
unfoldable pub resolve_package_ref : Scopes → Bytes → Bytes → Bytes
unfolding package_of visible
resolve_package_ref scopes scope name =
    let in_package : Option Bytes = elim (package_of scope) [
      | none ↦ none
      | some p ↦ visible scopes (pkg_scope p) name
    ] in
    elim (or_visible (visible scopes scope name) in_package) [ none ↦ name | some target ↦ target ]

-- `outputNodeFromTrav`
unfoldable pub output_steps : Scopes → Bytes → List Segment → Option Bytes
unfolding resolve_package_ref equal
output_steps scopes scope (attr pkg ∷ attr kw ∷ attr name ∷ more) =
    if equal kw (codes "outputs")
    then some (output_id (resolve_package_ref scopes scope pkg) name)
    else none
output_steps scopes scope _ = none

unfoldable pub output_node_from_trav : Scopes → Bytes → Traversal → Option Bytes
unfolding output_steps equal
output_node_from_trav scopes scope t =
    if equal t.root (codes "package") then output_steps scopes scope t.steps else none

-- the service of a traversal in `producerNodeFromTrav`, and `rest`
unfoldable pub bare_target : Bytes → List Segment → Option (Bytes × List Segment)
unfolding service_ref
bare_target scope (attr tc ∷ attr nm ∷ rest) = some (service_ref scope tc nm, rest)
bare_target scope _ = none

unfoldable pub component_target : Bytes → List Segment → Option (Bytes × List Segment)
unfolding service_ref resolve_module equal
component_target scope (attr m ∷ attr kw ∷ attr tc ∷ attr nm ∷ rest) =
    if equal kw (codes "service")
    then some (service_ref (resolve_module scope m) tc nm, rest)
    else none
component_target scope _ = none

unfoldable pub package_target : Scopes → Bytes → List Segment → Option (Bytes × List Segment)
unfolding service_ref resolve_package_ref equal
package_target scopes scope (attr pkg ∷ attr kwm ∷ attr m ∷ attr kws ∷ attr tc ∷ attr nm ∷ rest) =
    if equal kwm (codes "component") && equal kws (codes "service")
    then some (service_ref (resolve_package_ref scopes scope pkg ++ (codes "/" ++ m)) tc nm, rest)
    else none
package_target scopes scope _ = none

unfoldable pub target : Scopes → Bytes → Bytes → Traversal → Option (Bytes × List Segment)
unfolding bare_target component_target package_target equal
target scopes svc_id scope t =
    if equal t.root (codes "self")
    then some (svc_id, t.steps)
    else if equal t.root (codes "service")
    then bare_target scope t.steps
    else if equal t.root (codes "component")
    then component_target scope t.steps
    else if equal t.root (codes "package")
    then package_target scopes scope t.steps
    else none

-- the producer that the field names
unfoldable pub field_node : Option (Bytes × List Segment) → Option Bytes
unfolding equal
field_node (some (svc, attr field ∷ more)) =
    if equal field (codes "vars")
    then some (node_id svc vars_kind [])
    else if equal field (codes "arguments")
    then some (node_id svc arguments_kind [])
    else if equal field (codes "env")
    then some (node_id svc env_kind [])
    else if equal field (codes "file")
    then file_node svc more
    else none
  where
    file_node : Bytes → List Segment → Option Bytes
    file_node svc (attr name ∷ more) = some (node_id svc file_kind name)
    file_node svc _ = none
field_node _ = none

-- `producerNodeFromTrav`
unfoldable pub producer_node_from_trav : Scopes → Bytes → Bytes → Traversal → Option Bytes
unfolding target field_node
producer_node_from_trav scopes svc_id scope t = field_node (target scopes svc_id scope t)
