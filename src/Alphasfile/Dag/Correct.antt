-- ===== src/Alphasfile/Dag/Correct.antt =====
-- dag.go, `topoSort`: its order and its error against the graph.
use zordon.Base.{
  sort_strings, Distinct, mem-sort_strings, Distinct-sort_strings, ℕ, zero, suc, ◌≤◌, ◌<◌, ◌≡◌, inl,
  inr, refl, sym, ◌∙◌, Bool, true, false, ◌&&◌, List, [], ◌∷◌, ◌++◌, map, some, arith, Bool-cases,
  ◌==◌, ltb, if◌then◌else◌, length, Bytes, equal, equal_iff, equal_comm, mem, lookup, mem-snoc,
  mem_head,
}
use mathlib.Core.Path.{subst}
use zordon.Alphasfile.Dag.Count.{
  missing, missing-snoc, missing_zero, missing_pos, missing-mem, missing_all,
}
use zordon.Alphasfile.Dag.Loop.{IsGraph, Ordered, empty, then_one, Inv, Inv-release}
use zordon.Alphasfile.Dag.{
  Graph, or_empty, deps_of, dependents, roots, Degrees, release, topo_loop, cycle_members, Sorted,
  order, cycle, out_of_fuel, topo_sort,
}

mem-roots :
    (k : Bytes) (m : List (Bytes × List Bytes))
    → Distinct (map (λ e. e.0) m)
    → mem k (roots m) ≡ (mem k (map (λ e. e.0) m) && length (or_empty (lookup k m)) == 0)
unfolding mem roots lookup
mem-roots k [] u = refl
mem-roots k ((id, ds) ∷ m) (n, u) = ground (arith, mem-roots k m u, equal_iff k id, equal_comm k id)

Distinct-roots : (m : List (Bytes × List Bytes)) → Distinct (map (λ e. e.0) m) → Distinct (roots m)
unfolding roots
Distinct-roots [] u = tt
Distinct-roots ((id, ds) ∷ m) (n, u) = elim (Bool-cases (length ds == 0)) [
  | inl t ↦ rw t (mem-roots id m u ∙ (rw n refl), Distinct-roots m u)
  | inr t ↦ rw t (Distinct-roots m u)
]

mem-cycle_members :
    (k : Bytes) (indeg : Degrees) (m : List (Bytes × List Bytes))
    → mem k (cycle_members indeg m) ≡ (mem k (map (λ e. e.0) m) && ltb 0 (indeg k))
unfolding mem cycle_members
mem-cycle_members k indeg [] = refl
mem-cycle_members k indeg ((id, ds) ∷ m) =
    ground (arith, mem-cycle_members k indeg m, equal_iff k id)

-- What `topoSort` may return: every node once, each behind its dependencies; or nodes, at least one,
-- each of which depends on another of them.
abbrev pub SortOutcome : Graph → Sorted → Type 0
SortOutcome g (order out) = Ordered g out × Distinct out × ((k : Bytes) → mem k out ≡ mem k g.nodes)
SortOutcome g (cycle ms) =
    ((k : Bytes) × (mem k ms ≡ true))
    × ((k : Bytes)
        → mem k ms ≡ true
        → (mem k g.nodes ≡ true) × ((d : Bytes) × (mem d (deps_of g k) ≡ true) × (mem d ms ≡ true)))
SortOutcome g out_of_fuel = ⊥

module _ (g : Graph) (v : IsGraph g) where
  start-Inv : Inv g (λ id. length (deps_of g id)) (sort_strings (roots g.deps)) []
  unfolding mem
  start-Inv =
      let u : Distinct (map (λ e. e.0) g.deps) = rw v.keys v.nodes_distinct in
      record {
        counts = λ k m. sym (missing_all (deps_of g k));
        settled = λ k.
            ground (arith, mem-sort_strings k (roots g.deps))
            ∙ mem-roots k g.deps u
            ∙ (rw v.keys refl);
        apart = λ k h. refl;
        ready_distinct = Distinct-sort_strings _ (Distinct-roots g.deps u);
        out_distinct = tt;
        ordered = empty;
        total = omega (arith, missing_all g.nodes);
      }

  topo_loop_lem :
      (f : ℕ) (indeg : Degrees) (ready out : List Bytes)
      → missing out g.nodes ≤ f
      → Inv g indeg ready out
      → (indeg' : Degrees) × (out' : List Bytes) × (topo_loop f g indeg ready out
          ≡ some (indeg', out'))
        × Inv g indeg' [] out'
  unfolding topo_loop
  topo_loop_lem f indeg [] out h inv = (indeg, out, refl, inv)
  topo_loop_lem zero indeg (id ∷ ready) out h inv = absurd (
      omega (
        arith,
        missing-mem out g.nodes id (ground (arith, inv.settled id, mem_head id ready))
            (inv.apart id (mem_head id ready)),
      ))
  topo_loop_lem (suc f) indeg (id ∷ ready) out h inv =
      let fresh = inv.apart id (mem_head id ready) in
      let node : mem id g.nodes ≡ true = ground (arith, inv.settled id, mem_head id ready) in
      topo_loop_lem f (release (sort_strings (dependents g.deps id)) indeg ready).0
        (release (sort_strings (dependents g.deps id)) indeg ready).1 (out ++ id ∷ [])
        (ground (arith, missing-snoc out g.nodes id v.nodes_distinct fresh, node))
        (Inv-release g v indeg id ready out inv)

  mem-stuck :
      (k : Bytes) (indeg : Degrees)
      → mem k (sort_strings (cycle_members indeg g.deps)) ≡ (mem k g.nodes && ltb 0 (indeg k))
  mem-stuck k indeg =
      mem-sort_strings k (cycle_members indeg g.deps)
      ∙ mem-cycle_members k indeg g.deps
      ∙ (rw v.keys refl)

  SortOutcome-verdict :
      (indeg : Degrees) (out : List Bytes)
      → Inv g indeg [] out
      → (same : Bool) → (length out == length g.nodes) ≡ same
      → SortOutcome g
          (if same then order out else cycle (sort_strings (cycle_members indeg g.deps)))
  unfolding mem
  SortOutcome-verdict indeg out inv true e = (
    inv.ordered,
    inv.out_distinct,
    λ k. ground (arith, inv.settled k, missing_zero out g.nodes k (ground (arith, inv.total, e))),
  )
  SortOutcome-verdict indeg out inv false e =
      let (k, m, n) = missing_pos out g.nodes (ground (arith, inv.total, e)) in
      (
        (k, mem-stuck k indeg ∙ ground (arith, inv.settled k, m, n)),
        λ j h.
            let stuck : (mem j g.nodes && ltb 0 (indeg j)) ≡ true = sym (mem-stuck j indeg) ∙ h in
            let (d, a, b) = missing_pos out (deps_of g j) (ground (arith, inv.counts j)) in
            (
              ground (arith, stuck),
              (d, a, mem-stuck d indeg ∙ ground (arith, inv.settled d, v.deps_known j d a, b)),
            ),
      )

  -- `topoSort` returns on every graph. Either it returns every node once, each behind all its
  -- dependencies, or its error names nodes, at least one, of which each depends on another of them.
  pub topo_sort-SortOutcome : SortOutcome g (topo_sort g)
  unfolding topo_sort
  topo_sort-SortOutcome =
      let (indeg, out, e, inv) =
        topo_loop_lem (length g.nodes) (λ id. length (deps_of g id)) (sort_strings (roots g.deps))
          [] (omega (arith, missing_all g.nodes)) start-Inv in
      rw e (SortOutcome-verdict indeg out inv (length out == length g.nodes) refl)

  -- a name of a set in which each has a dependency in the set is in no order
  not-Ordered :
      (ms : List Bytes)
      → ((k : Bytes)
          → mem k ms ≡ true
          → (d : Bytes) × (mem d (deps_of g k) ≡ true) × (mem d ms ≡ true))
      → {out : List Bytes} → Ordered g out
      → (k : Bytes) → mem k ms ≡ true
      → mem k out ≡ false
  unfolding mem
  not-Ordered ms all empty k m = refl
  not-Ordered ms all (then_one {out} id o h e) k m = rw e (
      mem-snoc k id out ∙ (elim (Bool-cases (equal k id)) [
        | inl same ↦
            let (d, a, b) = all k m in
            let listed : mem d out ≡ true =
              h d (subst (λ j. mem d (deps_of g j) ≡ true) ((equal_iff k id).0 same) a) in
            cc (not-Ordered ms all o d b, listed)
        | inr other ↦ rw other (not-Ordered ms all o k m)
      ]))

  -- On a graph whose nodes have different names, and which has for each node, and for nothing else,
  -- a list of its dependencies, nodes without repeats: where some nodes, at least one, each depend on
  -- one of them, `topoSort` returns the error.
  pub topo_sort-cycle :
      (ms : List Bytes) (k : Bytes)
      → mem k ms ≡ true
      → ((j : Bytes)
          → mem j ms ≡ true
          → (mem j g.nodes ≡ true)
            × ((d : Bytes) × (mem d (deps_of g j) ≡ true) × (mem d ms ≡ true)))
      → (stuck : List Bytes) × (topo_sort g ≡ cycle stuck)
  topo_sort-cycle ms k m all = go (topo_sort g) topo_sort-SortOutcome
    where
      go : (s : Sorted) → SortOutcome g s → (stuck : List Bytes) × (s ≡ cycle stuck)
      go (order out) (o, u, same) =
          cc (not-Ordered ms (λ j h. (all j h).1) o k m, same k, (all k m).0)
      go (cycle stuck) o = (stuck, refl)
      go out_of_fuel o = absurd o

  -- On a graph whose nodes have different names, and which has for each node, and for nothing else,
  -- a list of its dependencies, nodes without repeats: where a rank puts every node above its
  -- dependencies, so that there is no cycle, `topoSort` returns an order with every node once, each
  -- behind all its dependencies.
  pub topo_sort-order :
      (rank : Bytes → ℕ)
      → ((k d : Bytes) → mem d (deps_of g k) ≡ true → rank d < rank k)
      → (out : List Bytes) × (topo_sort g ≡ order out)
        × Ordered g out
        × Distinct out
        × ((k : Bytes) → mem k out ≡ mem k g.nodes)
  topo_sort-order rank below = go (topo_sort g) topo_sort-SortOutcome
    where
      descent :
          (ms : List Bytes)
          → ((k : Bytes)
              → mem k ms ≡ true
              → (mem k g.nodes ≡ true)
                × ((d : Bytes) × (mem d (deps_of g k) ≡ true) × (mem d ms ≡ true)))
          → (n : ℕ) (k : Bytes) → mem k ms ≡ true
          → rank k < n
          → ⊥
      descent ms all zero k m h = absurd (omega arith)
      descent ms all (suc n) k m h =
          let (_, (d, a, b)) = all k m in descent ms all n d b (omega (arith, below k d a))

      go :
          (s : Sorted)
          → SortOutcome g s
          → (out : List Bytes) × (s ≡ order out)
            × Ordered g out
            × Distinct out
            × ((k : Bytes) → mem k out ≡ mem k g.nodes)
      go (order out) (o, u, same) = (out, refl, o, u, same)
      go (cycle ms) ((k, m), all) = absurd (descent ms all (suc (rank k)) k m (omega arith))
      go out_of_fuel o = absurd o
