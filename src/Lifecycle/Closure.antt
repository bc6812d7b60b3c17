-- ===== src/Lifecycle/Closure.antt =====
-- lifecycle.go, `NewDef`: the lists of predecessors and the transitive closure of the edges.
use zordon.Base.{
  ◌≡◌, ◌↔◌, ◌⊎◌, inl, inr, refl, sym, ◌∙◌, Bool, true, false, ◌||◌, List, [], ◌∷◌, Option, some,
  arith, if◌then◌else◌, length, Bytes, equal, equal_iff, equal_comm, mem, lookup, insert,
  lookup-insert,
}
use zordon.Lifecycle.Dfs.{
  is_declared, Before, edge, chain, Explored, dfs_loop-Explores, unseen-length, Before-of_direct,
  declared_of_direct, mem-direct_at,
}
use zordon.Lifecycle.{
  Edge, direct, Visit, predecessors, fill_preds, new_def, Def, preds_of, or_empty,
}

module _ (states : List Bytes) (edges : List Edge) where
  abbrev nothing_visited : Visit
  nothing_visited = record { visited = []; out = [] }

  direct_of_declared :
      (p t : Bytes)
      → is_declared edges p t ≡ true
      → mem p states ≡ true
      → mem t states ≡ true
      → mem p (direct states edges t) ≡ true
  direct_of_declared p t a b c = mem-direct_at states edges edges p t ∙ rw (a, b, c) refl

  Before-visited :
      (s : Bytes) (v' : Visit)
      → Explored states edges s nothing_visited v' (direct states edges s)
      → {p t : Bytes} → Before states edges p t
      → (t ≡ s) ⊎ (mem t v'.visited ≡ true)
      → mem p v'.visited ≡ true
  unfolding mem
  Before-visited s v' x (chain {q} a b) h =
      Before-visited s v' x a (inr (Before-visited s v' x b h))
  Before-visited s v' x (edge {p} {s = t} a b c) (inl same) =
      x.covers p (rw same at (direct_of_declared p t a b c))
  Before-visited s v' x (edge {p} {s = t} a b c) (inr seen) = elim (x.closed t seen) [
    | inl none_yet ↦ cc
    | inr all ↦ all p (direct_of_declared p t a b c)
  ]

  -- For every state the search returns, and lists exactly the states before it.
  pub predecessors-Before :
      (s : Bytes)
      → (out : List Bytes) × (predecessors states edges s ≡ some out)
        × ((p : Bytes) → (mem p out ≡ true) ↔ Before states edges p s)
  unfolding predecessors mem
  predecessors-Before s =
      let (v', e, x) =
        dfs_loop-Explores states edges s (length states) (direct states edges s) nothing_visited
          (unseen-length states [])
          (λ q m. (declared_of_direct states edges q s m, Before-of_direct states edges q s m)) in
      (
        v'.out,
        rw (e, predecessors),
        λ p. (
          λ m. elim (x.sound p (sym (x.same_out (λ _. refl) p) ∙ m)) [
            | inl none_yet ↦ cc
            | inr b ↦ b
          ],
          λ b. x.same_out (λ _. refl) p ∙ Before-visited s v' x b (inl refl),
        ),
      )

  fill_preds_lem :
      (ss : List Bytes) (m : List (Bytes × List Bytes))
      → (m' : List (Bytes × List Bytes)) × (fill_preds states edges ss m ≡ some m')
        × ((s : Bytes)
            → lookup s m' ≡ (if mem s ss then predecessors states edges s else lookup s m))
  unfolding fill_preds mem
  fill_preds_lem [] m = (m, refl, λ s. refl)
  fill_preds_lem (t ∷ ss) m =
      let (out, e, _) = predecessors-Before t in
      let (m', f, all) = fill_preds_lem ss (insert t out m) in
      (m', rw (e, fill_preds) f, λ s. all s ∙ step s out e)
    where
      step :
          (s : Bytes) (out : List Bytes)
          → predecessors states edges t ≡ some out
          → (if mem s ss then predecessors states edges s else lookup s (insert t out m))
            ≡ (if equal s t || mem s ss then predecessors states edges s else lookup s m)
      step s out e = ground (arith, lookup-insert t s out m, equal_iff s t, equal_comm s t)

  -- what the list found under a state says, if the state is declared
  listed :
      (s p : Bytes) (declared : Bool) {r : Option (List Bytes)}
      → r ≡ (if declared then predecessors states edges s else lookup {V = List Bytes} s [])
      → (mem p (or_empty r) ≡ true) ↔ (declared ≡ true) × Before states edges p s
  unfolding lookup mem
  listed s p false {r} e = rw e (λ h. cc, λ (h, b). cc)
  listed s p true {r} e =
      let (out, f, all) = predecessors-Before s in
      rw (e, f) (λ m. (refl, (all p).0 m), λ (h, b). (all p).1 b)

  -- `NewDef` returns on every graph, cyclic ones included. It keeps the states, and lists for each
  -- of them exactly the states before it.
  pub new_def-Before :
      (d : Def) × (new_def states edges ≡ some d)
      × (d.states ≡ states)
      × ((s p : Bytes)
          → (mem p (preds_of d s) ≡ true) ↔ (mem s states ≡ true) × Before states edges p s)
  unfolding new_def
  new_def-Before =
      let (m, e, all) = fill_preds_lem states [] in
      (
        record { states = states; preds = m },
        rw (e, new_def),
        refl,
        λ s p. listed s p (mem s states) (all s),
      )
