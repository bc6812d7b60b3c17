-- ===== src/Alphasfile/Dag/Loop.antt =====
-- dag.go, `topoSort`: what the inner loop makes of the degrees, and the invariant of the outer one.
use zordon.Base.{
  sort_strings, Distinct, mem-sort_strings, Distinct-sort_strings, Distinct-snoc, ◌+◌, ◌-◌, ◌≡◌,
  inl, inr, refl, ◌∙◌, Bool, true, false, ◌&&◌, ◌||◌, List, [], ◌∷◌, ◌++◌, map, arith, Bool-cases,
  ◌==◌, if◌then◌else◌, length, length-append, Bytes, equal, equal_iff, equal_refl, equal_comm, mem,
  lookup, mem-snoc, mem_head,
}
use zordon.Alphasfile.Dag.Count.{missing, missing-snoc, missing_zero, missing-mem}
use zordon.Alphasfile.Dag.{Graph, or_empty, deps_of, dependents, Degrees, decrement, release}

-- the degrees and the ready names after the dependents `nxt` are mem-visited
pub record Released (nxt : List Bytes) (indeg : Degrees) (ready : List Bytes)
    (after : Degrees × List Bytes) : Type 0 where
  pub degrees : (k : Bytes) → after.0 k ≡ indeg k - (if mem k nxt then 1 else 0)
  pub freed : (k : Bytes) → mem k after.1 ≡ (mem k ready || (mem k nxt && indeg k == 1))
  pub distinct :
      Distinct ready → ((k : Bytes) → mem k ready ≡ true → indeg k ≡ 0) → Distinct after.1

mem_ready :
    (k next : Bytes) (ready : List Bytes) (now : Bool)
    → mem k (if now then sort_strings (ready ++ next ∷ []) else ready)
      ≡ (mem k ready || (equal k next && now))
unfolding mem
mem_ready k next ready true =
    mem-sort_strings k (ready ++ next ∷ []) ∙ mem-snoc k next ready ∙ ground arith
mem_ready k next ready false = ground arith

Distinct-ready :
    (next : Bytes) (indeg : Degrees) (ready : List Bytes)
    → Distinct ready
    → ((k : Bytes) → mem k ready ≡ true → indeg k ≡ 0)
    → Distinct (if indeg next == 1 then sort_strings (ready ++ next ∷ []) else ready)
Distinct-ready next indeg ready e z = elim (Bool-cases (indeg next == 1)) [
  | inl t ↦ rw t (Distinct-sort_strings _ (Distinct-snoc ready next (ground (arith, z next)) e))
  | inr t ↦ rw t e
]

release-Released :
    (nxt : List Bytes) (indeg : Degrees) (ready : List Bytes)
    → Distinct nxt
    → Released nxt indeg ready (release nxt indeg ready)
unfolding release mem
release-Released [] indeg ready d = record {
  degrees = λ k. omega arith;
  freed = λ k. ground arith;
  distinct = λ r z. r;
}
release-Released (next ∷ nxt) indeg ready (m, d) =
    let ready' = if indeg next == 1 then sort_strings (ready ++ next ∷ []) else ready in
    let r = release-Released nxt (decrement next indeg) ready' d in
    record {
      degrees = λ k. r.degrees k ∙ ground (arith, equal_iff k next);
      freed = λ k.
          r.freed k ∙ ground (arith, mem_ready k next ready (indeg next == 1), equal_iff k next);
      distinct = λ e z.
          r.distinct (Distinct-ready next indeg ready e z) (λ k h.
            ground (arith, mem_ready k next ready (indeg next == 1), z k, equal_iff k next));
    }

-- Every node has one entry in the map, with different dependencies that are nodes.
pub record IsGraph (g : Graph) : Type 0 where
  pub keys : map (λ e. e.0) g.deps ≡ g.nodes
  pub nodes_distinct : Distinct g.nodes
  pub deps_distinct : (k : Bytes) → Distinct (deps_of g k)
  pub deps_known : (k d : Bytes) → mem d (deps_of g k) ≡ true → mem d g.nodes ≡ true

-- every name of the list comes after its dependencies
pub data Ordered (g : Graph) : List Bytes → Type 0 where
  empty : Ordered g []
  then_one :
      {out out' : List Bytes} (id : Bytes)
      → Ordered g out
      → ((d : Bytes) → mem d (deps_of g id) ≡ true → mem d out ≡ true)
      → out' ≡ out ++ id ∷ []
      → Ordered g out'

-- Before each turn: the degrees count the dependencies that are not in the order yet, and the names
-- of degree 0 are the ones that are ready or in the order.
pub record Inv (g : Graph) (indeg : Degrees) (ready out : List Bytes) : Type 0 where
  pub counts : (k : Bytes) → mem k g.nodes ≡ true → indeg k ≡ missing out (deps_of g k)
  pub settled : (k : Bytes) → (mem k ready || mem k out) ≡ (mem k g.nodes && indeg k == 0)
  pub apart : (k : Bytes) → mem k ready ≡ true → mem k out ≡ false
  pub ready_distinct : Distinct ready
  pub out_distinct : Distinct out
  pub ordered : Ordered g out
  pub total : length out + missing out g.nodes ≡ length g.nodes

mem-dependents :
    (k d : Bytes) (m : List (Bytes × List Bytes))
    → Distinct (map (λ e. e.0) m)
    → mem k (dependents m d) ≡ (mem k (map (λ e. e.0) m) && mem d (or_empty (lookup k m)))
unfolding mem dependents lookup
mem-dependents k d [] u = refl
mem-dependents k d ((id, ds) ∷ m) (n, u) =
    ground (arith, mem-dependents k d m u, equal_iff k id, equal_comm k id)

Distinct-dependents :
    (d : Bytes) (m : List (Bytes × List Bytes))
    → Distinct (map (λ e. e.0) m)
    → Distinct (dependents m d)
unfolding dependents
Distinct-dependents d [] u = tt
Distinct-dependents d ((id, ds) ∷ m) (n, u) = elim (Bool-cases (mem d ds)) [
  | inl t ↦ rw t (mem-dependents id d m u ∙ rw n refl, Distinct-dependents d m u)
  | inr t ↦ rw t (Distinct-dependents d m u)
]

module _ (g : Graph) (v : IsGraph g) where
  -- the nodes whose degrees a turn lowers
  mem-visited :
      (id k : Bytes)
      → mem k (sort_strings (dependents g.deps id)) ≡ (mem k g.nodes && mem id (deps_of g k))
  mem-visited id k =
      mem-sort_strings k (dependents g.deps id)
      ∙ mem-dependents k id g.deps (rw v.keys v.nodes_distinct)
      ∙ (rw v.keys refl)

  Inv-turn :
      (indeg : Degrees) (id : Bytes) (ready out : List Bytes)
      → Inv g indeg (id ∷ ready) out
      → (after : Degrees × List Bytes)
      → Released (sort_strings (dependents g.deps id)) indeg ready after
      → Inv g after.0 after.1 (out ++ id ∷ [])
  unfolding mem
  Inv-turn indeg id ready out inv after r =
      let fresh = inv.apart id (mem_head id ready) in
      let node : mem id g.nodes && indeg id == 0 ≡ true =
        ground (arith, inv.settled id, equal_refl id) in
      let counts : (k : Bytes)
          → mem k g.nodes ≡ true
          → after.0 k ≡ missing (out ++ id ∷ []) (deps_of g k) =
        λ k m. ground (
          arith,
          r.degrees k,
          inv.counts k m,
          mem-visited id k,
          missing-snoc out (deps_of g k) id (v.deps_distinct k) fresh,
        ) in
      record {
        counts = counts;
        settled = λ k. ground (
          arith,
          r.freed k,
          r.degrees k,
          inv.settled k,
          mem-visited id k,
          mem-snoc k id out,
          inv.counts k,
          missing-mem out (deps_of g k) id,
          equal_iff k id,
        );
        apart = λ k h. ground (
          arith,
          r.freed k,
          inv.settled k,
          inv.apart k,
          inv.ready_distinct,
          mem-snoc k id out,
          equal_iff k id,
        );
        ready_distinct = r.distinct inv.ready_distinct.1 (λ k h. ground (arith, inv.settled k));
        out_distinct = Distinct-snoc out id fresh inv.out_distinct;
        ordered =
            then_one id inv.ordered
              (λ d m. missing_zero out (deps_of g id) d (ground (arith, inv.counts id)) m) refl;
        total = ground (
          arith,
          inv.total,
          missing-snoc out g.nodes id v.nodes_distinct fresh,
          length-append out (id ∷ []),
        );
      }

  pub Inv-release :
      (indeg : Degrees) (id : Bytes) (ready out : List Bytes)
      → Inv g indeg (id ∷ ready) out
      → Inv g
          (release (sort_strings (dependents g.deps id)) indeg ready).0
          (release (sort_strings (dependents g.deps id)) indeg ready).1
          (out ++ id ∷ [])
  Inv-release indeg id ready out inv =
      Inv-turn indeg id ready out inv (release (sort_strings (dependents g.deps id)) indeg ready) (
        release-Released (sort_strings (dependents g.deps id)) indeg ready
          (Distinct-sort_strings _ (Distinct-dependents id g.deps (rw v.keys v.nodes_distinct))))
