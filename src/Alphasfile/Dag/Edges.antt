-- ===== src/Alphasfile/Dag/Edges.antt =====
-- dag.go, `newGraph`: the edges of the traversals.
use zordon.Base.{
  ◌≡◌, inl, inr, sym, ap, ◌∙◌, true, false, not, ◌&&◌, List, [], ◌∷◌, map, Option, none, some,
  arith, Bool-cases, Bytes, equal, equal_refl, equal_comm, mem, lookup, mem_head, mem_tail,
}
use mathlib.Core.List.{Memᴰ}
use mathlib.Core.Path.{subst}
use zordon.Alphasfile.Dag.{or_empty}
use zordon.Alphasfile.Dag.Loop.{IsGraph}
use zordon.Alphasfile.Dag.Refs.{Traversal, Scopes}
use zordon.Alphasfile.Dag.Nodes.{Expr, Producer, add_dep, ids}
use zordon.Alphasfile.Dag.Build.{node_read, read_edge, expr_edges, node_edges, all_edges}
use zordon.Alphasfile.Dag.Sets.{DepSets, deps-add_dep, mem-set_add}
use zordon.Alphasfile.Dag.WellFormed.{IsGraph-read_edge, IsGraph-expr_edges, IsGraph-node_edges}

-- the sets of the second keep the ids of the first
abbrev Grows : DepSets → DepSets → Type 0
Grows m m' =
    (k d : Bytes) → mem d (or_empty (lookup k m)) ≡ true → mem d (or_empty (lookup k m')) ≡ true

add_dep-Grows : (from to : Bytes) (m : DepSets) → Grows m (add_dep from to m)
add_dep-Grows from to m k d h = elim (deps-add_dep from to k m) [
  | inl e ↦ ap (mem d) e ∙ h
  | inr e ↦ ap (mem d) e ∙ mem-set_add d to (or_empty (lookup k m)) ∙ ground (arith, h)
]

mem-add_dep :
    (from to : Bytes) (m : DepSets)
    → mem from (map (λ e. e.0) m) ≡ true
    → mem to (or_empty (lookup from (add_dep from to m))) ≡ true
unfolding add_dep lookup mem
mem-add_dep from to [] h = ground (arith, h)
mem-add_dep from to ((id, ds) ∷ m) h = elim (Bool-cases (equal id from)) [
  | inl t ↦ rw (t, t) (mem-set_add to to ds ∙ ground (arith, equal_refl to))
  | inr t ↦ rw (t, t) (mem-add_dep from to m (ground (arith, equal_comm id from)))
]

pub mem-ids : (n : Producer) (ns : List Producer) → Memᴰ n ns → mem n.id (ids ns) ≡ true
unfolding mem
mem-ids n [] h = elim h [ ]
mem-ids n (m ∷ ns) (Memᴰ.head e) =
    subst (λ x. mem x.id (ids (m ∷ ns)) ≡ true) (sym e) (mem_head m.id (ids ns))
mem-ids n (m ∷ ns) (Memᴰ.tail h) = mem_tail n.id m.id (ids ns) (mem-ids n ns h)

module _ (scopes : Scopes) (known : List Bytes) where
  read_edge-Grows :
      (n : Producer) (r : Option Bytes) (m : DepSets) → Grows m (read_edge n known r m)
  unfolding read_edge
  read_edge-Grows n none m k d h = h
  read_edge-Grows n (some id) m k d h = elim (Bool-cases (mem id known && not (equal id n.id))) [
    | inl t ↦ rw t (add_dep-Grows n.id id m k d h)
    | inr t ↦ rw t h
  ]

  expr_edges-Grows :
      (n : Producer) (ts : List Traversal) (m : DepSets) → Grows m (expr_edges scopes n known ts m)
  unfolding expr_edges
  expr_edges-Grows n [] m k d h = h
  expr_edges-Grows n (t ∷ ts) m k d h =
      expr_edges-Grows n ts (read_edge n known (node_read scopes n t) m) k d
        (read_edge-Grows n (node_read scopes n t) m k d h)

  node_edges-Grows :
      (n : Producer) (es : List Expr) (m : DepSets) → Grows m (node_edges scopes n known es m)
  unfolding node_edges
  node_edges-Grows n [] m k d h = h
  node_edges-Grows n (none ∷ es) m k d h = node_edges-Grows n es m k d h
  node_edges-Grows n (some ts ∷ es) m k d h =
      node_edges-Grows n es (expr_edges scopes n known ts m) k d (expr_edges-Grows n ts m k d h)

  all_edges-Grows : (ns : List Producer) (m : DepSets) → Grows m (all_edges scopes known ns m)
  unfolding all_edges
  all_edges-Grows [] m k d h = h
  all_edges-Grows (n ∷ ns) m k d h =
      all_edges-Grows ns (node_edges scopes n known n.exprs m) k d
        (node_edges-Grows n n.exprs m k d h)

  module _ (n : Producer) (d : Bytes) (own : mem n.id known ≡ true) (is_known : mem d known ≡ true)
      (foreign : equal d n.id ≡ false) where
    mem-expr_edges :
        (t : Traversal) (ts : List Traversal) (m : DepSets)
        → IsGraph (record { nodes = known; deps = m })
        → Memᴰ t ts
        → node_read scopes n t ≡ some d
        → mem d (or_empty (lookup n.id (expr_edges scopes n known ts m))) ≡ true
    unfolding expr_edges read_edge
    mem-expr_edges t [] m v h r = elim h [ ]
    mem-expr_edges t (u ∷ ts) m v (Memᴰ.head e) r =
        expr_edges-Grows n ts (read_edge n known (node_read scopes n u) m) n.id d (
          rw (ap (node_read scopes n) (sym e) ∙ r, is_known, foreign)
            (mem-add_dep n.id d m (rw v.keys own)))
    mem-expr_edges t (u ∷ ts) m v (Memᴰ.tail h) r =
        mem-expr_edges t ts (read_edge n known (node_read scopes n u) m)
          (IsGraph-read_edge scopes known n (node_read scopes n u) m v) h r

    mem-node_edges :
        (t : Traversal) (ts : List Traversal) (es : List Expr) (m : DepSets)
        → IsGraph (record { nodes = known; deps = m })
        → Memᴰ (some ts) es
        → Memᴰ t ts
        → node_read scopes n t ≡ some d
        → mem d (or_empty (lookup n.id (node_edges scopes n known es m))) ≡ true
    unfolding node_edges
    mem-node_edges t ts [] m v p h r = elim p [ ]
    mem-node_edges t ts (e ∷ es) m v (Memᴰ.head same) h r =
        subst (λ x. mem d (or_empty (lookup n.id (node_edges scopes n known (x ∷ es) m))) ≡ true)
          same
          (node_edges-Grows n es (expr_edges scopes n known ts m) n.id d
            (mem-expr_edges t ts m v h r))
    mem-node_edges t ts (none ∷ es) m v (Memᴰ.tail p) h r = mem-node_edges t ts es m v p h r
    mem-node_edges t ts (some us ∷ es) m v (Memᴰ.tail p) h r =
        mem-node_edges t ts es (expr_edges scopes n known us m)
          (IsGraph-expr_edges scopes known n us m v) p h r

    pub mem-all_edges :
        (t : Traversal) (ts : List Traversal) (ns : List Producer) (m : DepSets)
        → IsGraph (record { nodes = known; deps = m })
        → Memᴰ n ns
        → Memᴰ (some ts) n.exprs
        → Memᴰ t ts
        → node_read scopes n t ≡ some d
        → mem d (or_empty (lookup n.id (all_edges scopes known ns m))) ≡ true
    unfolding all_edges
    mem-all_edges t ts [] m v q p h r = elim q [ ]
    mem-all_edges t ts (x ∷ ns) m v (Memᴰ.head e) p h r =
        subst (λ y. mem d (or_empty (lookup n.id (all_edges scopes known (y ∷ ns) m))) ≡ true) e
          (all_edges-Grows ns (node_edges scopes n known n.exprs m) n.id d
            (mem-node_edges t ts n.exprs m v p h r))
    mem-all_edges t ts (x ∷ ns) m v (Memᴰ.tail q) p h r =
        mem-all_edges t ts ns (node_edges scopes x known x.exprs m)
          (IsGraph-node_edges scopes known x x.exprs m v) q p h r
