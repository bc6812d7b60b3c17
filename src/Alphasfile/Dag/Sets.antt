-- ===== src/Alphasfile/Dag/Sets.antt =====
-- dag.go, `newGraph`: the ids of the nodes and the sets of their dependencies, under its steps.
use zordon.Base.{
  Distinct, Distinct-snoc, ◌≡◌, ◌⊎◌, inl, inr, refl, sym, ap, ◌∙◌, true, false, ◌||◌, List, [], ◌∷◌,
  ◌++◌, map, arith, Bool-cases, Bytes, equal, equal_iff, equal_comm, mem, lookup, insert, mem-snoc,
}
use mathlib.Core.Path.{subst}
use zordon.Alphasfile.Dag.{or_empty}
use zordon.Alphasfile.Dag.Loop.{IsGraph}
use zordon.Alphasfile.Dag.Nodes.{Producer, set_add, add_dep, ids}

abbrev pub DepSets : Type 0
DepSets = List (Bytes × List Bytes)

abbrev pub keys : DepSets → List Bytes
keys = map (λ e. e.0)

pub ids-snoc : (ns : List Producer) (n : Producer) → ids (ns ++ n ∷ []) ≡ ids ns ++ n.id ∷ []
ids-snoc [] n = refl
ids-snoc (m ∷ ns) n = ap (λ rest. m.id ∷ rest) (ids-snoc ns n)

pub keys-insert :
    (k : Bytes) (v : List Bytes) (m : DepSets)
    → mem k (keys m) ≡ false
    → keys (insert k v m) ≡ keys m ++ k ∷ []
unfolding insert mem
keys-insert k v [] h = refl
keys-insert k v ((j, w) ∷ m) h =
    let apart : equal j k ≡ false = ground (arith, equal_comm j k) in
    rw apart (ap (λ rest. j ∷ rest) (keys-insert k v m (ground arith)))

keys-add_dep : (from to : Bytes) (m : DepSets) → keys (add_dep from to m) ≡ keys m
unfolding add_dep
keys-add_dep from to [] = refl
keys-add_dep from to ((id, ds) ∷ m) = elim (Bool-cases (equal id from)) [
  | inl t ↦ rw t refl
  | inr t ↦ rw t (ap (λ rest. id ∷ rest) (keys-add_dep from to m))
]

-- the set of a key, after an edge
pub deps-add_dep :
    (from to k : Bytes) (m : DepSets)
    → (or_empty (lookup k (add_dep from to m)) ≡ or_empty (lookup k m))
      ⊎ (or_empty (lookup k (add_dep from to m)) ≡ set_add to (or_empty (lookup k m)))
unfolding add_dep lookup
deps-add_dep from to k [] = inl refl
deps-add_dep from to k ((id, ds) ∷ m) = elim (Bool-cases (equal id from)) [
  | inl t ↦ elim (Bool-cases (equal id k)) [
    | inl s ↦ rw (t, s) (inr refl)
    | inr s ↦ rw (t, s) (inl refl)
  ]
  | inr t ↦ elim (Bool-cases (equal id k)) [
    | inl s ↦ rw (t, s) (inl refl)
    | inr s ↦ rw (t, s) (deps-add_dep from to k m)
  ]
]

Distinct-set_add : (a : Bytes) (xs : List Bytes) → Distinct xs → Distinct (set_add a xs)
unfolding set_add
Distinct-set_add a xs d = elim (Bool-cases (mem a xs)) [
  | inl t ↦ rw t d
  | inr t ↦ rw t (Distinct-snoc xs a t d)
]

pub mem-set_add : (k a : Bytes) (xs : List Bytes) → mem k (set_add a xs) ≡ (equal k a || mem k xs)
unfolding set_add
mem-set_add k a xs = elim (Bool-cases (mem a xs)) [
  | inl t ↦ rw t (elim (Bool-cases (equal k a)) [
    | inl s ↦ rw s (subst (λ j. mem j xs ≡ true) (sym ((equal_iff k a).0 s)) t)
    | inr s ↦ rw s refl
  ])
  | inr t ↦ rw t (mem-snoc k a xs ∙ (unfold mem in refl))
]

pub IsGraph-add_dep :
    (from to : Bytes) (ns : List Bytes) (m : DepSets)
    → mem to ns ≡ true
    → IsGraph (record { nodes = ns; deps = m })
    → IsGraph (record { nodes = ns; deps = add_dep from to m })
IsGraph-add_dep from to ns m known v = record {
  keys = keys-add_dep from to m ∙ v.keys;
  nodes_distinct = v.nodes_distinct;
  deps_distinct = λ k. elim (deps-add_dep from to k m) [
    | inl e ↦ rw e (v.deps_distinct k)
    | inr e ↦ rw e (Distinct-set_add to (or_empty (lookup k m)) (v.deps_distinct k))
  ];
  deps_known = λ k d h. elim (deps-add_dep from to k m) [
    | inl e ↦ v.deps_known k d (sym (ap (mem d) e) ∙ h)
    | inr e ↦
        let among : (equal d to || mem d (or_empty (lookup k m))) ≡ true =
          sym (mem-set_add d to (or_empty (lookup k m))) ∙ sym (ap (mem d) e) ∙ h in
        elim (Bool-cases (equal d to)) [
          | inl s ↦ subst (λ j. mem j ns ≡ true) (sym ((equal_iff d to).0 s)) known
          | inr s ↦ v.deps_known k d (ground (arith, among, s))
        ]
  ];
}
