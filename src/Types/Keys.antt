-- ===== src/Types/Keys.antt =====
-- ztypes.go, `merge` of a Map: the keys that the parts set.
use zordon.Base.{
  string_le, Distinct, ◌≡◌, inl, inr, refl, sym, Bool, true, false, ◌||◌, List, [], ◌∷◌, map,
  Option, none, some, arith, Bool-cases, if◌then◌else◌, Bytes, equal, equal_iff, equal_refl,
  equal_comm, mem, lookup, mem_head,
}
use mathlib.Core.Path.{subst}
use zordon.Types.Cty.{Cty}
use zordon.Types.Convert.{Converted, value, failed, panicked}
use zordon.Types.Merge.{is_null, MergeEntry, MergeEntries, insert_entry, unless_set, add_entries}

module _ (c : Cty) where
  abbrev pub keys_of : MergeEntries c → List Bytes
  keys_of = map (λ e. e.0)

  -- the keys whose values are not null
  unfoldable pub set_keys : List (Bytes × c.Value) → List Bytes
  set_keys [] = []
  set_keys ((k, v) ∷ vals) =
      let rest = set_keys vals in if is_null c (c.view v) then rest else k ∷ rest

  -- Keys that are different from each other and from those of the entries.
  abbrev pub AreNew : List Bytes → MergeEntries c → Type 0
  AreNew ks es = Distinct ks × ((k : Bytes) → mem k ks ≡ true → mem k (keys_of es) ≡ false)

  -- The entries with the keys added, where the keys are new; an error where they are not.
  abbrev pub Added : List Bytes → MergeEntries c → Converted (MergeEntries c) → Type 0
  Added ks es (value out) =
      AreNew ks es × ((k : Bytes) → mem k (keys_of out) ≡ (mem k ks || mem k (keys_of es)))
  Added ks es (failed e) = AreNew ks es → ⊥
  Added ks es panicked = ⊥

  mem-insert_entry :
      (j k : Bytes) (e : MergeEntry c) (es : MergeEntries c)
      → mem j (keys_of (insert_entry c k e es)) ≡ (equal j k || mem j (keys_of es))
  unfolding insert_entry mem
  mem-insert_entry j k e [] = refl
  mem-insert_entry j k e ((i, x) ∷ es) = elim (Bool-cases (string_le k i)) [
    | inl t ↦ rw t refl
    | inr t ↦ rw t (ground (arith, mem-insert_entry j k e es))
  ]

  mem-lookup-none :
      (k : Bytes) (es : MergeEntries c) → lookup k es ≡ none → mem k (keys_of es) ≡ false
  unfolding lookup mem
  mem-lookup-none k [] h = refl
  mem-lookup-none k ((i, x) ∷ es) h = ground (arith, mem-lookup-none k es, equal_comm i k)

  mem-lookup-some :
      (k : Bytes) (x : MergeEntry c) (es : MergeEntries c)
      → lookup k es ≡ some x
      → mem k (keys_of es) ≡ true
  unfolding lookup mem
  mem-lookup-some k x [] h = ground (arith, h)
  mem-lookup-some k x ((i, y) ∷ es) h = ground (arith, mem-lookup-some k x es, equal_comm i k)

  Added-one :
      (k : Bytes) (e : MergeEntry c) (ks : List Bytes) (es : MergeEntries c)
      (r : Converted (MergeEntries c))
      → mem k (keys_of es) ≡ false
      → Added ks (insert_entry c k e es) r
      → Added (k ∷ ks) es r
  unfolding mem
  Added-one k e ks es (value out) fresh ((d, apart), same) = (
    (
      (ground (arith, apart k, mem-insert_entry k k e es, equal_refl k), d),
      λ j h. elim (Bool-cases (equal j k)) [
        | inl t ↦ subst (λ i. mem i (keys_of es) ≡ false) (sym ((equal_iff j k).0 t)) fresh
        | inr t ↦ ground (arith, apart j, mem-insert_entry j k e es, h, t)
      ],
    ),
    λ j. ground (arith, same j, mem-insert_entry j k e es),
  )
  Added-one k e ks es (failed f) fresh n = λ g. n (
    g.0.1,
    λ j h. elim (Bool-cases (equal j k)) [
      | inl t ↦ cc (subst (λ i. mem i ks ≡ true) ((equal_iff j k).0 t) h, g.0.0)
      | inr t ↦ ground (arith, mem-insert_entry j k e es, g.1 j, h, t)
    ],
  )
  Added-one k e ks es panicked fresh n = n

  -- The loop of `merge` over the entries of a part fails exactly where a key with a value is there
  -- twice, or has an entry of an earlier part. Otherwise the entries get those keys and no others.
  pub add_entries-Added :
      (at : Bytes) (vals : List (Bytes × c.Value)) (es : MergeEntries c)
      → Added (set_keys vals) es (add_entries c at vals es)
  unfolding add_entries set_keys mem
  add_entries-Added at [] es = ((tt, λ k h. ground (arith, h)), λ k. refl)
  add_entries-Added at ((k, v) ∷ vals) es =
      go (is_null c (c.view v)) (add_entries-Added at vals es)
        (add_entries-Added at vals (insert_entry c k e es))
    where
      e : MergeEntry c
      e = record { val = v; at = at }

      later : Converted (MergeEntries c)
      later = add_entries c at vals (insert_entry c k e es)

      hit :
          (o : Option (MergeEntry c))
          → lookup k es ≡ o
          → Added (set_keys vals) (insert_entry c k e es) later
          → Added (k ∷ set_keys vals) es (unless_set c at k o later)
      hit none h added = Added-one k e (set_keys vals) es later (mem-lookup-none k es h) added
      hit (some x) h added = λ g. cc (g.1 k (mem_head k (set_keys vals)), mem-lookup-some k x es h)

      go :
          (b : Bool)
          → Added (set_keys vals) es (add_entries c at vals es)
          → Added (set_keys vals) (insert_entry c k e es) later
          → Added
              (if b then set_keys vals else k ∷ set_keys vals)
              es
              (if b then add_entries c at vals es else unless_set c at k (lookup k es) later)
      go true skip added = skip
      go false skip added = hit (lookup k es) refl added
