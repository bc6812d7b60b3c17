-- ===== src/Types/Joined.antt =====
-- ztypes.go, `Merge`: the types of the values that it returns.
use zordon.Base.{
  string_le, ◌≡◌, inl, inr, Bool, true, false, List, [], ◌∷◌, Option, none, some, Bool-cases, Bytes,
  lookup,
}
use zordon.Types.Cty.{
  Cty, View, null_view, unknown_view, other_view, bool_view, string_view, number_view,
  sequence_view, entries_view, AllOf, values, IsLawful,
}
use zordon.Types.Convert.{
  Converted, value, failed, panicked, and_then, ZType, bool, string, number, list, map_of, object,
  cty, convert,
}
use zordon.Types.Cty.{MapView}
use zordon.Types.Typed.{Typed}
use zordon.Types.Sound.{HasDefaults, convert-Typed}
use zordon.Types.Single.{set_parts, Single, merge_one-Single}
use zordon.Types.Merge.{
  Part, MergeEntry, MergeEntries, is_null, placed, merge_one, insert_entry, unless_set, add_entries,
  Gathered, gather_view, gather, vals_of, joined, finish_map, merge_map, merge,
}

module _ (c : Cty) (l : IsLawful c) where
  OfType : c.CtyType → MergeEntries c → Type 0
  OfType t es = AllOf c t (values c (vals_of c es))

  OfType-insert_entry :
      (t : c.CtyType) (k : Bytes) (e : MergeEntry c) (es : MergeEntries c)
      → c.type_of e.val ≡ t
      → OfType t es
      → OfType t (insert_entry c k e es)
  unfolding OfType insert_entry
  OfType-insert_entry t k e [] h hs = (h, tt)
  OfType-insert_entry t k e ((j, x) ∷ es) h (hx, hs) = elim (Bool-cases (string_le k j)) [
    | inl q ↦ rw q (h, (hx, hs))
    | inr q ↦ rw q (hx, OfType-insert_entry t k e es h hs)
  ]

  AddedTyped : c.CtyType → Converted (MergeEntries c) → Type 0
  AddedTyped t (value es) = OfType t es
  AddedTyped t (failed e) = Unit
  AddedTyped t panicked = ⊥

  AddedTyped-unless_set :
      (t : c.CtyType) (at k : Bytes) (o : Option (MergeEntry c)) (r : Converted (MergeEntries c))
      → AddedTyped t r
      → AddedTyped t (unless_set c at k o r)
  unfolding AddedTyped
  AddedTyped-unless_set t at k none r h = h
  AddedTyped-unless_set t at k (some e) r h = tt

  AddedTyped-add_entries :
      (t : c.CtyType) (at : Bytes) (vals : List (Bytes × c.Value)) (es : MergeEntries c)
      → AllOf c t (values c vals)
      → OfType t es
      → AddedTyped t (add_entries c at vals es)
  unfolding AddedTyped add_entries
  AddedTyped-add_entries t at [] es h hs = hs
  AddedTyped-add_entries t at ((k, v) ∷ vals) es (h, hv) hs =
      elim (Bool-cases (is_null c (c.view v))) [
        | inl q ↦ rw q (AddedTyped-add_entries t at vals es hv hs)
        | inr q ↦ rw q (
            AddedTyped-unless_set t at k (lookup k es) _ (
              AddedTyped-add_entries t at vals _ hv
                (OfType-insert_entry t k (record { val = v; at = at }) es h hs)))
      ]

  GatherTyped : c.CtyType → Converted (Gathered c) → Type 0
  GatherTyped t (value none) = Unit
  GatherTyped t (value (some (given, es))) = OfType t es
  GatherTyped t (failed e) = Unit
  GatherTyped t panicked = ⊥

  GatherTyped-added :
      (t : c.CtyType) (r : Converted (MergeEntries c))
      (later : MergeEntries c → Converted (Gathered c))
      → AddedTyped t r
      → ((es : MergeEntries c) → OfType t es → GatherTyped t (later es))
      → GatherTyped t (and_then r later)
  unfolding AddedTyped GatherTyped
  GatherTyped-added t (value es) later h k = k es h
  GatherTyped-added t (failed e) later h k = tt
  GatherTyped-added t panicked later h k = elim h [ ]

  GatherTyped-view :
      (t : c.CtyType) (at : Bytes) (given : Bool) (es : MergeEntries c) (w : View c.Value c.Number)
      (later : Bool → MergeEntries c → Converted (Gathered c))
      → MapView c t w
      → OfType t es
      → ((g : Bool) (es : MergeEntries c) → OfType t es → GatherTyped t (later g es))
      → GatherTyped t (gather_view c at given es w later)
  unfolding gather_view GatherTyped
  GatherTyped-view t at given es unknown_view later m h k = tt
  GatherTyped-view t at given es null_view later m h k = k given es h
  GatherTyped-view t at given es (entries_view vals) later m h k =
      GatherTyped-added t (add_entries c at vals es) (λ e. later true e)
        (AddedTyped-add_entries t at vals es m h) (k true)
  GatherTyped-view t at given es other_view later m h k = elim m [ ]
  GatherTyped-view t at given es (bool_view b) later m h k = elim m [ ]
  GatherTyped-view t at given es (string_view s) later m h k = elim m [ ]
  GatherTyped-view t at given es (number_view n) later m h k = elim m [ ]
  GatherTyped-view t at given es (sequence_view vs) later m h k = elim m [ ]

  GatherTyped-placed :
      (t : c.CtyType) (at : Bytes) (r : Converted c.Value)
      (later : c.Value → Converted (Gathered c))
      → Typed c l (c.map_type t) r
      → ((v : c.Value) → c.type_of v ≡ c.map_type t → GatherTyped t (later v))
      → GatherTyped t (and_then (placed c at r) later)
  unfolding GatherTyped
  GatherTyped-placed t at (value v) later h k = k v h
  GatherTyped-placed t at (failed e) later h k = tt
  GatherTyped-placed t at panicked later h k = elim h [ ]

  GatherTyped-gather :
      (elem : ZType c)
      → HasDefaults c l (map_of elem)
      → (parts : List (Part c)) (given : Bool) (es : MergeEntries c) → OfType (cty c elem) es
      → GatherTyped (cty c elem) (gather c (map_of elem) parts given es)
  unfolding gather GatherTyped cty
  GatherTyped-gather elem d [] given es h = h
  GatherTyped-gather elem d (p ∷ parts) given es h =
      GatherTyped-placed (cty c elem) p.at (convert c (map_of elem) p.given []) _
        (convert-Typed c l (map_of elem) d p.given [])
        (λ v e.
          GatherTyped-view (cty c elem) p.at given es (c.view v)
            (λ g es. gather c (map_of elem) parts g es) (l.map_seen v (cty c elem) e) h
            (λ g es hs. GatherTyped-gather elem d parts g es hs))

  Typed-joined :
      (elem : ZType c) (es : MergeEntries c)
      → OfType (cty c elem) es
      → Typed c l (c.map_type (cty c elem)) (joined c elem es)
  unfolding joined OfType
  Typed-joined elem [] h = l.map_empty_type (cty c elem)
  Typed-joined elem ((k, e) ∷ es) h =
      let (w, q, typed) = l.map_made (cty c elem) (k, e.val) (vals_of c es) h in rw q typed

  Typed-close :
      (elem : ZType c) (r : Converted (Gathered c))
      → GatherTyped (cty c elem) r
      → Typed c l (c.map_type (cty c elem)) (and_then r (finish_map c elem))
  unfolding finish_map GatherTyped cty
  Typed-close elem (value none) h = l.unknown_type (c.map_type (cty c elem))
  Typed-close elem (value (some (false, es))) h = l.null_type (c.map_type (cty c elem))
  Typed-close elem (value (some (true, es))) h = Typed-joined elem es h
  Typed-close elem (failed e) h = tt
  Typed-close elem panicked h = elim h [ ]

  Typed-placed :
      (t : c.CtyType) (at : Bytes) (r : Converted c.Value)
      → Typed c l t r
      → Typed c l t (placed c at r)
  Typed-placed t at (value v) h = h
  Typed-placed t at (failed e) h = tt
  Typed-placed t at panicked h = elim h [ ]

  Typed-merge_one :
      (t : ZType c)
      → HasDefaults c l t
      → (parts : List (Part c)) → Typed c l (cty c t) (merge_one c t parts)
  unfolding Single
  Typed-merge_one t d parts = rw (merge_one-Single c t parts) (go (set_parts c parts))
    where
      go : (parts : List (Part c)) → Typed c l (cty c t) (Single c t parts)
      go [] = l.null_type (cty c t)
      go (p ∷ []) =
          Typed-placed (cty c t) p.at (convert c t p.given []) (convert-Typed c l t d p.given [])
      go (p ∷ q ∷ parts) = tt

  -- `Merge` without unique attributes does not panic, and a value that it returns declares the type that
  -- `cty` gives: where the defaults of the attributes are of their types, and the values of go-cty
  -- have the types that it documents.
  pub merge-Typed :
      (t : ZType c)
      → HasDefaults c l t
      → (parts : List (Part c)) → Typed c l (cty c t) (merge c t parts)
  unfolding merge merge_map cty OfType
  merge-Typed (map_of elem) d parts =
      Typed-close elem (gather c (map_of elem) parts false [])
        (GatherTyped-gather elem d parts false [] tt)
  merge-Typed bool d parts = Typed-merge_one bool d parts
  merge-Typed string d parts = Typed-merge_one string d parts
  merge-Typed number d parts = Typed-merge_one number d parts
  merge-Typed (list t) d parts = Typed-merge_one (list t) d parts
  merge-Typed (object attrs) d parts = Typed-merge_one (object attrs) d parts
