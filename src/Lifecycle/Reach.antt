-- ===== src/Lifecycle/Reach.antt =====
-- lifecycle.go, `Reach`: the barriers before and after a call.
use mathlib.Core.Option.{some-injective}
use mathlib.Core.Path.{subst}
use zordon.Base.{
  ℕ, suc, ◌≡◌, inl, inr, refl, sym, ap, ◌∙◌, Bool, true, false, ◌&&◌, ◌||◌, List, [], ◌∷◌, ◌++◌,
  Option, none, some, arith, Bool-cases, Bytes, equal, equal_iff, equal_comm, mem, lookup, insert,
  mem-snoc, mem-cons, mem_head, mem_tail, lookup-insert,
}
use zordon.Barrier
use zordon.Barrier.{Barrier, IsValid, trigger-IsValid, trigger_once, trigger_fired}
use zordon.Lifecycle.{Instance, preds_of, trigger_all, reach, reached}

abbrev pub Barriers : Type 0
Barriers = List (Bytes × Barrier)

-- the flag of `Reached`, on what the map holds
abbrev pub is_fired : Option Barrier → Bool
is_fired none = false
is_fired (some b) = Barrier.is_triggered b

abbrev pub is_present : Option Barrier → Bool
is_present none = false
is_present (some b) = true

-- every barrier held is valid
abbrev pub AllValid : Barriers → Type 0
AllValid m = (s : Bytes) (b : Barrier) → lookup s m ≡ some b → IsValid b

-- `m'` has the barriers of `m`, fired where they were or where the name is on the list, and those
-- that had fired are as they were.
record Fires (m m' : Barriers) (ps : List Bytes) : Type 0 where
  valid : AllValid m'
  present : (s : Bytes) → is_present (lookup s m') ≡ is_present (lookup s m)
  fires :
      (s : Bytes)
      → is_present (lookup s m) ≡ true
      → is_fired (lookup s m') ≡ (mem s ps || is_fired (lookup s m))
  keeps : (s : Bytes) → is_fired (lookup s m) ≡ true → lookup s m' ≡ lookup s m

insert-Fires :
    (now : ℕ) (p : Bytes) (b : Barrier) (m : Barriers)
    → AllValid m
    → lookup p m ≡ some b
    → Fires m (insert p (Barrier.trigger now b) m) (p ∷ [])
insert-Fires now p b m v e = record {
  valid = λ s b' h. valid_at s b' h (equal p s) refl;
  present = λ s. ground (arith, lookup-insert p s (Barrier.trigger now b) m, equal_iff p s);
  fires = λ s h.
      unfold mem in
      ground (
        arith,
        lookup-insert p s (Barrier.trigger now b) m,
        equal_iff p s,
        equal_comm s p,
        (trigger_once now now b (v p b e)).0,
      );
  keeps = λ s h. ground (
    arith,
    lookup-insert p s (Barrier.trigger now b) m,
    equal_iff p s,
    trigger_fired now b (v p b e),
  );
}
  where
    valid_at :
        (s : Bytes) (b' : Barrier)
        → lookup s (insert p (Barrier.trigger now b) m) ≡ some b'
        → (same : Bool) → equal p s ≡ same
        → IsValid b'
    valid_at s b' h true q =
        subst IsValid
          (some-injective _ _ ((rw q at (sym (lookup-insert p s (Barrier.trigger now b) m))) ∙ h))
          (trigger-IsValid now b (v p b e))
    valid_at s b' h false q =
        v s b' ((rw q at (sym (lookup-insert p s (Barrier.trigger now b) m))) ∙ h)

Fires-nil : (m : Barriers) → AllValid m → Fires m m []
Fires-nil m v = record {
  valid = v;
  present = λ s. refl;
  fires = λ s h. unfold mem in refl;
  keeps = λ s h. refl;
}

Fires-append :
    {m m₁ m' : Barriers} (p : Bytes) (ps : List Bytes)
    → Fires m m₁ (p ∷ [])
    → Fires m₁ m' ps
    → Fires m m' (p ∷ ps)
Fires-append {m} {m₁} {m'} p ps a b = record {
  valid = b.valid;
  present = λ s. b.present s ∙ a.present s;
  fires = λ s h. unfold mem in ground (arith, b.fires s, a.fires s, a.present s);
  keeps = λ s h. ground (arith, b.keeps s, a.keeps s);
}

some_of_present : (o : Option Barrier) → is_present o ≡ true → (b : Barrier) × (o ≡ some b)
some_of_present none h = cc
some_of_present (some b) h = (b, refl)

trigger_all-Fires :
    (clock : ℕ → ℕ) (k : ℕ) (ps : List Bytes) (m : Barriers)
    → AllValid m
    → ((s : Bytes) → mem s ps ≡ true → is_present (lookup s m) ≡ true)
    → (m' : Barriers) × (trigger_all clock k ps m ≡ some m') × Fires m m' ps
unfolding trigger_all
trigger_all-Fires clock k [] m v h = (m, refl, Fires-nil m v)
trigger_all-Fires clock k (p ∷ ps) m v h =
    let (b, e) = some_of_present (lookup p m) (h p (mem_head p ps)) in
    let a = insert-Fires (clock k) p b m v e in
    let (m', f, x) =
      trigger_all-Fires clock (suc k) ps (insert p (Barrier.trigger (clock k) b) m) a.valid
        (λ s q. a.present s ∙ h s (mem_tail s p ps q)) in
    (m', rw (e, trigger_all) f, Fires-append p ps a x)

-- What holds of the instances of a definition: a barrier for each declared state and no other, the
-- predecessors are declared, and the predecessors of a predecessor are predecessors.
pub record IsInstance (i : Instance) : Type 0 where
  pub valid : AllValid i.barriers
  pub keyed : (s : Bytes) → is_present (lookup s i.barriers) ≡ mem s i.def.states
  pub declared : (s p : Bytes) → mem p (preds_of i.def s) ≡ true → mem p i.def.states ≡ true
  pub transitive :
      (s p q : Bytes)
      → mem p (preds_of i.def s) ≡ true
      → mem q (preds_of i.def p) ≡ true
      → mem q (preds_of i.def s) ≡ true

-- `reaching i s t`: a call of `Reach` with `s` closes the barrier of `t`
abbrev pub reaching : Instance → Bytes → Bytes → Bool
reaching i s t = mem s i.def.states && (equal t s || mem t (preds_of i.def s))

-- What a call of `Reach` with `s` makes of `i`: the barriers of a declared state and of its
-- predecessors close, and no other; a barrier that had closed stays as it was, with its time.
pub record Reaches (i i' : Instance) (s : Bytes) : Type 0 where
  pub kept_instance : IsInstance i'
  pub kept_def : i'.def ≡ i.def
  pub closes : (t : Bytes) → reached i' t ≡ (reaching i s t || reached i t)
  pub keeps : (t : Bytes) → reached i t ≡ true → lookup t i'.barriers ≡ lookup t i.barriers

pub reached-is_fired : (i : Instance) (t : Bytes) → reached i t ≡ is_fired (lookup t i.barriers)
unfolding reached
reached-is_fired i t = go (lookup t i.barriers)
  where
    go :
        (o : Option Barrier)
        → elim o as (λ _. Bool) [ none ↦ false | some b ↦ Barrier.is_triggered b ] ≡ is_fired o
    go none = refl
    go (some b) = refl

fired_absent : (o : Option Barrier) → is_present o ≡ false → is_fired o ≡ false
fired_absent none h = refl
fired_absent (some b) h = cc

Reaches-unknown :
    (i : Instance) (s : Bytes) → IsInstance i → mem s i.def.states ≡ false → Reaches i i s
Reaches-unknown i s v out = record {
  kept_instance = v;
  kept_def = refl;
  closes = λ t. rw out;
  keeps = λ t h. refl;
}

none_of_absent : (o : Option Barrier) → is_present o ≡ false → o ≡ none
none_of_absent none h = refl
none_of_absent (some b) h = cc

Reaches-declared :
    (i : Instance) (s : Bytes) (m : Barriers)
    → IsInstance i
    → mem s i.def.states ≡ true
    → Fires i.barriers m (preds_of i.def s ++ s ∷ [])
    → Reaches i (record i { barriers = m }) s
Reaches-declared i s m v in_def f = record {
  kept_instance = record {
    valid = f.valid;
    keyed = λ t. f.present t ∙ v.keyed t;
    declared = v.declared;
    transitive = v.transitive;
  };
  kept_def = refl;
  closes = λ t. rw (reached-is_fired, reached-is_fired) (closes_at t (mem t i.def.states) refl);
  keeps = λ t h. f.keeps t (sym (reached-is_fired i t) ∙ h);
}
  where
    closes_at :
        (t : Bytes) (declared : Bool)
        → mem t i.def.states ≡ declared
        → is_fired (lookup t m) ≡ (reaching i s t || is_fired (lookup t i.barriers))
    closes_at t true d =
        f.fires t (v.keyed t ∙ d)
        ∙ ap (λ b. b || is_fired (lookup t i.barriers))
            (mem-snoc t s (preds_of i.def s) ∙ (unfold mem in rw in_def))
    closes_at t false d =
        fired_absent (lookup t m) (f.present t ∙ v.keyed t ∙ d)
        ∙ ground (
          arith,
          fired_absent (lookup t i.barriers) (v.keyed t ∙ d),
          equal_iff t s,
          v.declared s t,
        )

-- On an instance with a barrier for each state and transitive predecessor lists, `Reach` returns
-- for every state. It closes the barriers of a declared state and of its predecessors and no
-- other, leaves those that had closed as they were with their times, and keeps the instance of
-- this kind; an undeclared state changes nothing.
pub reach-Reaches :
    (clock : ℕ → ℕ) (i : Instance) (s : Bytes)
    → IsInstance i
    → (i' : Instance) × (reach clock i s ≡ some i') × Reaches i i' s
unfolding reach
reach-Reaches clock i s v = elim (Bool-cases (mem s i.def.states)) [
  | inl in_def ↦
      let (b, e) = some_of_present (lookup s i.barriers) (v.keyed s ∙ in_def) in
      let (m, f, x) =
        trigger_all-Fires clock 0 (preds_of i.def s ++ s ∷ []) i.barriers v.valid
          (λ t h. v.keyed t ∙ known_at in_def t h) in
      (record i { barriers = m }, rw (e, reach) (rw f), Reaches-declared i s m v in_def x)
  | inr out ↦ (
    i,
    rw (none_of_absent (lookup s i.barriers) (v.keyed s ∙ out), reach),
    Reaches-unknown i s v out,
  )
]
  where
    known_at :
        mem s i.def.states ≡ true
        → (t : Bytes) → mem t (preds_of i.def s ++ s ∷ []) ≡ true
        → mem t i.def.states ≡ true
    known_at in_def t h =
        elim (mem-cons t s (preds_of i.def s) (sym (mem-snoc t s (preds_of i.def s)) ∙ h)) [
          | inl same ↦ rw same in_def
          | inr before ↦ v.declared s t before
        ]
