-- ===== src/LogFilter/Predicate/Order.antt =====
-- logfilter.go, `sortByCost`: the order of the operands of `and` and `or`.
use zordon.Base.{
  ℕ, ◌≤◌, ◌≡◌, inl, inr, refl, ap, ◌∙◌, ◌&&◌, ◌||◌, List, [], ◌∷◌, arith, Bool-cases, ◌==◌, leb,
  if◌then◌else◌, leb→le,
}
use zordon.LogFilter.Deps.{Deps}
use zordon.LogFilter.Predicate.{
  Line, Predicate, Predicates, none_left, one_more, cost, insert_by_cost, sort_by_cost, match,
  match_all, match_any,
}

module _ (d : Deps) where
  -- no kid costs more than a later one, and none less than `n`
  abbrev pub Ascending : ℕ → Predicates d → Type 0
  Ascending n none_left = Unit
  Ascending n (one_more p ps) = (n ≤ cost d p) × Ascending (cost d p) ps

  Ascending-insert_by_cost :
      (n : ℕ) (p : Predicate d) (ps : Predicates d)
      → n ≤ cost d p
      → Ascending n ps
      → Ascending n (insert_by_cost d p ps)
  unfolding insert_by_cost
  Ascending-insert_by_cost n p none_left h a = (h, tt)
  Ascending-insert_by_cost n p (one_more q qs) h (a, b) =
      elim (Bool-cases (leb (cost d p) (cost d q))) [
        | inl e ↦ rw e (h, (leb→le _ _ e, b))
        | inr e ↦ rw e (a, Ascending-insert_by_cost (cost d q) p qs (ground arith) b)
      ]

  -- `sortByCost` puts the kids in the order of their costs, none before a cheaper one.
  pub sort_by_cost-Ascending : (ps : Predicates d) → Ascending 0 (sort_by_cost d ps)
  unfolding sort_by_cost
  sort_by_cost-Ascending none_left = tt
  sort_by_cost-Ascending (one_more p ps) =
      Ascending-insert_by_cost 0 p (sort_by_cost d ps) (omega arith) (sort_by_cost-Ascending ps)

  -- the kids of one cost, in their order
  abbrev pub at_cost : ℕ → Predicates d → List (Predicate d)
  at_cost n none_left = []
  at_cost n (one_more p ps) = if cost d p == n then p ∷ at_cost n ps else at_cost n ps

  at_cost-insert_by_cost :
      (n : ℕ) (p : Predicate d) (ps : Predicates d)
      → at_cost n (insert_by_cost d p ps) ≡ at_cost n (one_more p ps)
  unfolding insert_by_cost
  at_cost-insert_by_cost n p none_left = refl
  at_cost-insert_by_cost n p (one_more q qs) = ground (arith, at_cost-insert_by_cost n p qs)

  -- Stability: sorting keeps the kids of each cost, with their order among themselves.
  pub at_cost-sort_by_cost :
      (n : ℕ) (ps : Predicates d) → at_cost n (sort_by_cost d ps) ≡ at_cost n ps
  unfolding sort_by_cost
  at_cost-sort_by_cost n none_left = refl
  at_cost-sort_by_cost n (one_more p ps) =
      at_cost-insert_by_cost n p (sort_by_cost d ps)
      ∙ ap (λ (r : List (Predicate d)). if cost d p == n then p ∷ r else r)
          (at_cost-sort_by_cost n ps)

  module _ (l : Line) where
    match_all-insert_by_cost :
        (p : Predicate d) (ps : Predicates d)
        → match_all d l (insert_by_cost d p ps) ≡ match d l p && match_all d l ps
    unfolding insert_by_cost match
    match_all-insert_by_cost p none_left = ground arith
    match_all-insert_by_cost p (one_more q qs) = ground (arith, match_all-insert_by_cost p qs)

    match_any-insert_by_cost :
        (p : Predicate d) (ps : Predicates d)
        → match_any d l (insert_by_cost d p ps) ≡ (match d l p || match_any d l ps)
    unfolding insert_by_cost match
    match_any-insert_by_cost p none_left = ground arith
    match_any-insert_by_cost p (one_more q qs) = ground (arith, match_any-insert_by_cost p qs)

    -- A conjunction decides the same after its kids are sorted.
    pub match_all-sort_by_cost :
        (ps : Predicates d) → match_all d l (sort_by_cost d ps) ≡ match_all d l ps
    unfolding sort_by_cost match
    match_all-sort_by_cost none_left = refl
    match_all-sort_by_cost (one_more p ps) =
        ground (arith, match_all-insert_by_cost p (sort_by_cost d ps), match_all-sort_by_cost ps)

    -- A disjunction decides the same after its kids are sorted.
    pub match_any-sort_by_cost :
        (ps : Predicates d) → match_any d l (sort_by_cost d ps) ≡ match_any d l ps
    unfolding sort_by_cost match
    match_any-sort_by_cost none_left = refl
    match_any-sort_by_cost (one_more p ps) =
        ground (arith, match_any-insert_by_cost p (sort_by_cost d ps), match_any-sort_by_cost ps)
