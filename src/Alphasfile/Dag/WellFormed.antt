-- ===== src/Alphasfile/Dag/WellFormed.antt =====
-- dag.go, `newGraph`: what it builds is a graph, where no two producers have an id in common.
use zordon.Base.{
  Distinct, Distinct-snoc_inv, ℕ, suc, ◌≡◌, inl, inr, refl, sym, ap, ◌∙◌, true, not, ◌&&◌, ◌||◌,
  List, [], ◌∷◌, ◌++◌, Option, none, some, arith, Bool-cases, Bytes, equal, mem, lookup, insert,
  mem-snoc, mem_head, mem_tail, lookup-insert,
}
use mathlib.Core.Path.{subst}
use zordon.Alphasfile.Dag.{or_empty}
use zordon.Alphasfile.Dag.Loop.{IsGraph}
use zordon.Alphasfile.Identity.{service_ref}
use zordon.Alphasfile.Dag.Refs.{
  Traversal, Kind, vars_kind, arguments_kind, env_kind, file_kind, Scopes,
}
use zordon.Alphasfile.Dag.Nodes.{
  Expr, FileBlock, ServiceBlock, Output, Input, Arg, Producer, Built, ids, names, add_node,
  any_expr, always, arg_values, add_producer, add_files, add_service, add_services, NewGraph, graph,
  missing_label, duplicate_service, add_outputs, add_parts, add_inputs,
}
use zordon.Alphasfile.Dag.Build.{
  node_read, read_edge, expr_edges, node_edges, all_edges, with_packages, new_graph,
}
use zordon.Alphasfile.Dag.Sets.{DepSets, ids-snoc, keys-insert, IsGraph-add_dep}

last_node : (ns : List Producer) (n : Producer) → mem n.id (ids (ns ++ n ∷ [])) ≡ true
last_node ns n =
    ap (mem n.id) (ids-snoc ns n) ∙ mem-snoc n.id n.id (ids ns) ∙ mem_head n.id (ids ns)

-- A graph, unless two of its producers have an id in common.
abbrev pub Sound : Built → Type 0
Sound g = Distinct (ids g.nodes) → IsGraph (names g)

Sound-add_node : (n : Producer) (g : Built) → Sound g → Sound (add_node n g)
unfolding add_node mem
Sound-add_node n g sound d =
    let all : Distinct (ids g.nodes ++ n.id ∷ []) = subst Distinct (ids-snoc g.nodes n) d in
    let (fresh, d') = Distinct-snoc_inv (ids g.nodes) n.id all in
    let v = sound d' in
    record {
      keys =
          keys-insert n.id [] g.deps (ap (mem n.id) v.keys ∙ fresh)
          ∙ ap (λ ns. ns ++ n.id ∷ []) v.keys
          ∙ sym (ids-snoc g.nodes n);
      nodes_distinct = d;
      deps_distinct = λ k. elim (Bool-cases (equal n.id k)) [
        | inl t ↦ rw (lookup-insert n.id k [] g.deps, t) tt
        | inr t ↦ rw (lookup-insert n.id k [] g.deps, t) (v.deps_distinct k)
      ];
      deps_known = λ k x h.
          ap (mem x) (ids-snoc g.nodes n)
          ∙ mem-snoc x n.id (ids g.nodes)
          ∙ mem_tail x n.id (ids g.nodes) (elim (Bool-cases (equal n.id k)) [
            | inl t ↦
                let e : or_empty (lookup k (insert n.id [] g.deps)) ≡ [] =
                  rw (lookup-insert n.id k [] g.deps, t) refl in
                none_in x (subst (λ ds. mem x ds ≡ true) e h)
            | inr t ↦
                let e : or_empty (lookup k (insert n.id [] g.deps)) ≡ or_empty (lookup k g.deps) =
                  rw (lookup-insert n.id k [] g.deps, t) refl in
                v.deps_known k x (subst (λ ds. mem x ds ≡ true) e h)
          ]);
    }
  where
    none_in : (x : Bytes) → mem x [] ≡ true → mem x (ids g.nodes) ≡ true
    none_in x h = ground (arith, h)

Sound-add_producer :
    (s : ServiceBlock) (sid : Bytes) (kind : Kind) (name : Bytes) (es : List Expr) (g : Built)
    → Sound g
    → Sound (add_producer s sid kind name es g)
unfolding add_producer
Sound-add_producer s sid kind name es g sound = elim (Bool-cases (any_expr es || always kind)) [
  | inl t ↦ rw t (Sound-add_node _ g sound)
  | inr t ↦ rw t sound
]

Sound-add_files :
    (s : ServiceBlock) (sid : Bytes) (files : List FileBlock) (g : Built)
    → Sound g
    → Sound (add_files s sid files g)
unfolding add_files
Sound-add_files s sid [] g sound = sound
Sound-add_files s sid (fb ∷ files) g sound =
    Sound-add_files s sid files _
      (Sound-add_producer s sid file_kind fb.name (fb.path ∷ fb.body ∷ []) g sound)

Sound-add_service :
    (s : ServiceBlock) (sid : Bytes) (g : Built) → Sound g → Sound (add_service s sid g)
unfolding add_service
Sound-add_service s sid g sound =
    let args = arg_values s.arguments ∷ [] in
    let g1 = add_producer s sid vars_kind [] (s.vars ∷ []) g in
    let g2 = add_producer s sid arguments_kind [] args g1 in
    let g3 = add_producer s sid env_kind [] (s.env ∷ []) g2 in
    let v1 = Sound-add_producer s sid vars_kind [] (s.vars ∷ []) g sound in
    let v2 = Sound-add_producer s sid arguments_kind [] args g1 v1 in
    Sound-add_files s sid s.files g3 (Sound-add_producer s sid env_kind [] (s.env ∷ []) g2 v2)

abbrev pub SoundResult : NewGraph → Type 0
SoundResult (graph g) = Sound g
SoundResult missing_label = Unit
SoundResult (duplicate_service sid) = Unit

Sound-add_services :
    (services : List ServiceBlock) (seen : List Bytes) (g : Built)
    → Sound g
    → SoundResult (add_services services seen g)
unfolding add_services
Sound-add_services [] seen g sound = sound
Sound-add_services (s ∷ services) seen g sound =
    let sid = service_ref s.module_id s.toolchain s.name in
    let rest =
      Sound-add_services services (sid ∷ seen) (add_service s sid g)
        (Sound-add_service s sid g sound) in
    elim (Bool-cases (equal s.toolchain [] || equal s.name [])) [
      | inl t ↦ rw t tt
      | inr t ↦ elim (Bool-cases (mem sid seen)) [ inl u ↦ rw (t, u) tt | inr u ↦ rw (t, u) rest ]
    ]

Sound-add_outputs : (outputs : List Output) (g : Built) → Sound g → Sound (add_outputs outputs g)
unfolding add_outputs
Sound-add_outputs [] g sound = sound
Sound-add_outputs (o ∷ outputs) g sound = Sound-add_outputs outputs _ (Sound-add_node _ g sound)

Sound-add_parts :
    (i : Input) (n : ℕ) (args : List Arg) (g : Built) → Sound g → Sound (add_parts i n args g)
unfolding add_parts
Sound-add_parts i n [] g sound = sound
Sound-add_parts i n ((scope, expr) ∷ args) g sound =
    Sound-add_parts i (suc n) args _
      (λ d. IsGraph-add_dep _ _ _ _ (last_node g.nodes _) (Sound-add_node _ g sound d))

Sound-add_inputs : (inputs : List Input) (g : Built) → Sound g → Sound (add_inputs inputs g)
unfolding add_inputs
Sound-add_inputs [] g sound = sound
Sound-add_inputs (i ∷ inputs) g sound =
    Sound-add_inputs inputs _ (Sound-add_parts i 0 i.args _ (Sound-add_node _ g sound))

module _ (scopes : Scopes) (known : List Bytes) where
  pub IsGraph-read_edge :
      (n : Producer) (r : Option Bytes) (m : DepSets)
      → IsGraph (record { nodes = known; deps = m })
      → IsGraph (record { nodes = known; deps = read_edge n known r m })
  unfolding read_edge
  IsGraph-read_edge n none m v = v
  IsGraph-read_edge n (some id) m v = elim (Bool-cases (mem id known && not (equal id n.id))) [
    | inl t ↦ rw t (IsGraph-add_dep n.id id known m (ground (arith, t)) v)
    | inr t ↦ rw t v
  ]

  pub IsGraph-expr_edges :
      (n : Producer) (ts : List Traversal) (m : DepSets)
      → IsGraph (record { nodes = known; deps = m })
      → IsGraph (record { nodes = known; deps = expr_edges scopes n known ts m })
  unfolding expr_edges
  IsGraph-expr_edges n [] m v = v
  IsGraph-expr_edges n (t ∷ ts) m v =
      IsGraph-expr_edges n ts _ (IsGraph-read_edge n (node_read scopes n t) m v)

  pub IsGraph-node_edges :
      (n : Producer) (es : List Expr) (m : DepSets)
      → IsGraph (record { nodes = known; deps = m })
      → IsGraph (record { nodes = known; deps = node_edges scopes n known es m })
  unfolding node_edges
  IsGraph-node_edges n [] m v = v
  IsGraph-node_edges n (none ∷ es) m v = IsGraph-node_edges n es m v
  IsGraph-node_edges n (some ts ∷ es) m v = IsGraph-node_edges n es _ (IsGraph-expr_edges n ts m v)

  pub IsGraph-all_edges :
      (ns : List Producer) (m : DepSets)
      → IsGraph (record { nodes = known; deps = m })
      → IsGraph (record { nodes = known; deps = all_edges scopes known ns m })
  unfolding all_edges
  IsGraph-all_edges [] m v = v
  IsGraph-all_edges (n ∷ ns) m v = IsGraph-all_edges ns _ (IsGraph-node_edges n n.exprs m v)

-- the nodes and sets before the edges of the traversals
abbrev pub before_edges : List Output → List Input → NewGraph → NewGraph
before_edges outputs inputs (graph g) = graph (add_inputs inputs (add_outputs outputs g))
before_edges outputs inputs err = err

pub before_edges-Sound :
    (services : List ServiceBlock) (outputs : List Output) (inputs : List Input)
    → SoundResult
        (before_edges outputs inputs (add_services services [] (record { nodes = []; deps = [] })))
unfolding lookup mem
before_edges-Sound services outputs inputs =
    go (add_services services [] nothing) (Sound-add_services services [] nothing (λ d. empty))
  where
    nothing : Built
    nothing = record { nodes = []; deps = [] }

    empty : IsGraph (names nothing)
    empty = record {
      keys = refl;
      nodes_distinct = tt;
      deps_distinct = λ k. tt;
      deps_known = λ k d h. ground (arith, h);
    }

    go : (r : NewGraph) → SoundResult r → SoundResult (before_edges outputs inputs r)
    go (graph g) sound =
        Sound-add_inputs inputs (add_outputs outputs g) (Sound-add_outputs outputs g sound)
    go missing_label u = tt
    go (duplicate_service sid) u = tt

pub new_graph-Sound :
    (services : List ServiceBlock) (outputs : List Output) (inputs : List Input) (scopes : Scopes)
    → SoundResult (new_graph services outputs inputs scopes)
unfolding new_graph with_packages
new_graph-Sound services outputs inputs scopes =
    go (add_services services [] (record { nodes = []; deps = [] }))
      (before_edges-Sound services outputs inputs)
  where
    go :
        (r : NewGraph)
        → SoundResult (before_edges outputs inputs r)
        → SoundResult (with_packages outputs inputs scopes r)
    go (graph g) sound =
        let g' = add_inputs inputs (add_outputs outputs g) in
        λ d. IsGraph-all_edges scopes (ids g'.nodes) g'.nodes g'.deps (sound d)
    go missing_label u = tt
    go (duplicate_service sid) u = tt
