-- ===== src/Lifecycle/Instances.antt =====
-- lifecycle.go: the instances of a definition and sequences of calls of `Reach` on them.
use zordon.Base.{
  ℕ, ◌≡◌, ◌↔◌, refl, ◌∙◌, true, false, ◌&&◌, ◌||◌, List, [], ◌∷◌, Option, none, some, arith, length,
  Bytes, equal_iff, equal_comm, mem, lookup, insert, lookup-insert,
}
use zordon.Barrier
use zordon.Barrier.{Barrier, IsValid, new-IsValid}
use zordon.Lifecycle.Closure.{new_def-Before}
use zordon.Lifecycle.Dfs.{Before, chain, edge}
use zordon.Lifecycle.Reach.{
  Barriers, is_fired, is_present, reached-is_fired, IsInstance, Reaches, reach-Reaches,
}
use zordon.Lifecycle.{
  Edge, Def, Instance, new_def, preds_of, fresh_barriers, new_instance, reach, reached,
}

-- the map holds fresh barriers only
abbrev AllNew : Barriers → Type 0
AllNew m = (s : Bytes) (b : Barrier) → lookup s m ≡ some b → b ≡ Barrier.new

AllNew-insert : (s : Bytes) (m : Barriers) → AllNew m → AllNew (insert s Barrier.new m)
AllNew-insert s m h t b e = ground (arith, lookup-insert s t Barrier.new m, h t b)

fresh_barriers_lem :
    (ss : List Bytes) (m : Barriers)
    → AllNew m
    → AllNew (fresh_barriers ss m)
      × ((s : Bytes)
          → is_present (lookup s (fresh_barriers ss m)) ≡ (mem s ss || is_present (lookup s m)))
unfolding fresh_barriers mem
fresh_barriers_lem [] m h = (h, λ s. refl)
fresh_barriers_lem (t ∷ ss) m h =
    let (a, b) = fresh_barriers_lem ss (insert t Barrier.new m) (AllNew-insert t m h) in
    (a, λ s. ground (arith, b s, lookup-insert t s Barrier.new m, equal_comm s t))

not_fired_of_new :
    (o : Option Barrier) → ((b : Barrier) → o ≡ some b → b ≡ Barrier.new) → is_fired o ≡ false
unfolding Barrier.is_triggered Barrier.new
not_fired_of_new none h = refl
not_fired_of_new (some b) h = rw (h b refl)

-- the instance after one call of `Reach` for each state of a list, each with its clock
pub reach_each : (ℕ → ℕ → ℕ) → Instance → List Bytes → Option Instance
reach_each clocks i [] = some i
reach_each clocks i (s ∷ ss) = elim (reach (clocks (length ss)) i s) [
  | none ↦ none
  | some i' ↦ reach_each clocks i' ss
]

module _ (states : List Bytes) (edges : List Edge) where
  -- the definition lists the states before each declared state
  abbrev pub Compiled : Def → Type 0
  Compiled d =
      (d.states ≡ states)
      × ((s p : Bytes)
          → (mem p (preds_of d s) ≡ true) ↔ (mem s states ≡ true) × Before states edges p s)

  Before-declared : {p s : Bytes} → Before states edges p s → mem p states ≡ true
  Before-declared (edge a b c) = b
  Before-declared (chain a b) = Before-declared a

  Before-declared_later : {p s : Bytes} → Before states edges p s → mem s states ≡ true
  Before-declared_later (edge a b c) = c
  Before-declared_later (chain a b) = Before-declared_later b

  pub new_instance-IsInstance : (d : Def) → Compiled d → IsInstance (new_instance d)
  unfolding new_instance
  new_instance-IsInstance d (same, all) =
      let (fresh, keys) = fresh_barriers_lem d.states [] (λ s b e. unfold lookup in cc) in
      record {
        valid = λ s b e. rw (fresh s b e) new-IsValid;
        keyed = λ s. keys s ∙ (unfold lookup in ground (arith));
        declared = λ s p m. rw same (Before-declared ((all s p).0 m).1);
        transitive =
            λ s p q m n. (all s q).1 (((all s p).0 m).0, chain ((all p q).0 n).1 ((all s p).0 m).1);
      }

  -- a reached state's predecessors are reached
  abbrev IsDownClosed : Instance → Type 0
  IsDownClosed i =
      (t p : Bytes) → reached i t ≡ true → mem p (preds_of i.def t) ≡ true → reached i p ≡ true

  new_instance-IsDownClosed : (d : Def) → IsDownClosed (new_instance d)
  unfolding new_instance
  new_instance-IsDownClosed d t p h m =
      let (fresh, _) = fresh_barriers_lem d.states [] (λ s b e. unfold lookup in cc) in
      let never =
        reached-is_fired (new_instance d) t
        ∙ not_fired_of_new (lookup t (fresh_barriers d.states [])) (fresh t) in
      cc

  Reaches-IsDownClosed :
      (i i' : Instance) (s : Bytes)
      → IsInstance i
      → Reaches i i' s
      → IsDownClosed i
      → IsDownClosed i'
  Reaches-IsDownClosed i i' s v r down t p h m =
      let before : mem p (preds_of i.def t) ≡ true = rw r.kept_def at m in
      ground (arith, r.closes t, r.closes p, equal_iff t s, v.transitive s t p, down t p, before)

  reach_each_lem :
      (clocks : ℕ → ℕ → ℕ) (ss : List Bytes) (i : Instance)
      → IsInstance i
      → IsDownClosed i
      → (i' : Instance) × (reach_each clocks i ss ≡ some i')
        × (i'.def ≡ i.def)
        × IsDownClosed i'
        × ((t : Bytes) → mem t ss && mem t i.def.states ≡ true → reached i' t ≡ true)
        × ((t : Bytes) → reached i t ≡ true → reached i' t ≡ true)
  unfolding reach_each mem
  reach_each_lem clocks [] i v down = (i, refl, refl, down, λ t h. cc, λ t h. h)
  reach_each_lem clocks (s ∷ ss) i v down =
      let (i₁, e, r) = reach-Reaches (clocks (length ss)) i s v in
      let (i', f, d, c, all, kept) =
        reach_each_lem clocks ss i₁ r.kept_instance (Reaches-IsDownClosed i i₁ s v r down) in
      let called_later = λ (t : Bytes). rw r.kept_def at (all t) in
      (
        i',
        rw (e, reach_each) f,
        d ∙ r.kept_def,
        c,
        λ t h. ground (arith, r.closes t, equal_iff t s, called_later t, kept t),
        λ t h. kept t (ground (arith, r.closes t)),
      )

-- Take a definition that `NewDef` compiles, and make any list of calls of `Reach` on a new instance
-- of it, each with any clock. All calls return. Afterwards each declared state of the list is
-- reached, and with every state that is reached, the states before it in the graph are reached.
pub reach_each-Before :
    (states : List Bytes) (edges : List Edge) (clocks : ℕ → ℕ → ℕ) (ss : List Bytes)
    → (d : Def) × (new_def states edges ≡ some d)
      × ((i : Instance) × (reach_each clocks (new_instance d) ss ≡ some i)
          × ((t : Bytes) → mem t ss && mem t states ≡ true → reached i t ≡ true)
          × ((t p : Bytes) → reached i t ≡ true → Before states edges p t → reached i p ≡ true))
unfolding mem new_instance
reach_each-Before states edges clocks ss =
    let (d, e, same, all) = new_def-Before states edges in
    let made : Compiled states edges d = (same, all) in
    let (i, f, kept, down, called, _) =
      reach_each_lem states edges clocks ss (new_instance d)
        (new_instance-IsInstance states edges d made) (new_instance-IsDownClosed states edges d) in
    let run : (i : Instance) × (reach_each clocks (new_instance d) ss ≡ some i)
        × ((t : Bytes) → mem t ss && mem t states ≡ true → reached i t ≡ true)
        × ((t p : Bytes) → reached i t ≡ true → Before states edges p t → reached i p ≡ true) =
      (
        i,
        f,
        λ t h. called t (rw same h),
        λ t p h b. down t p h (rw kept ((all t p).1 (Before-declared_later states edges b, b))),
      ) in
    (d, e, run)
