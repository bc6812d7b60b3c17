-- ===== src/Types/Merge.antt =====
-- ztypes.go, `Merge` without unique attributes: the values that several places give for one declaration.
use zordon.Base.{
  string_le, Bool, true, false, List, [], ◌∷◌, map, Option, none, some, if◌then◌else◌, Bytes,
  lookup,
}
use zordon.Types.Cty.{Cty, View, null_view, unknown_view, entries_view}
use zordon.Types.Convert.{
  already_set, key_already_set, at_part, Converted, value, failed, panicked, and_then, made, ZType,
  map_of, cty, convert,
}

module _ (c : Cty) where
  -- `Part`
  pub record Part : Type 0 where
    pub given : c.Value
    pub at : Bytes

  abbrev pub is_null : View c.Value c.Number → Bool
  is_null null_view = true
  is_null _ = false

  abbrev pub placed : {A : Type 0} → Bytes → Converted A → Converted A
  placed at (value a) = value a
  placed at (failed e) = failed (at_part at e)
  placed at panicked = panicked

  -- the loop of `mergeOne`, with `got`
  abbrev pub take_part : Option Part → Part → Converted (Option Part) → Converted (Option Part)
  take_part none p later = later
  take_part (some got) p later = failed (already_set p.at got.at)

  unfoldable pub one_loop : Option Part → List Part → Converted (Option Part)
  one_loop got [] = value got
  one_loop got (p ∷ parts) =
      let skip = one_loop got parts in
      let later = one_loop (some p) parts in
      if is_null (c.view p.given) then skip else take_part got p later

  unfoldable pub convert_got : ZType c → Option Part → Converted c.Value
  unfolding convert cty
  convert_got t none = value (c.null_val (cty c t))
  convert_got t (some p) = placed p.at (convert c t p.given [])

  -- `mergeOne`
  unfoldable pub merge_one : ZType c → List Part → Converted c.Value
  unfolding one_loop convert_got
  merge_one t parts = and_then (one_loop none parts) (λ got. convert_got t got)

  -- `entry`
  pub record MergeEntry : Type 0 where
    pub val : c.Value
    pub at : Bytes

  abbrev pub MergeEntries : Type 0
  MergeEntries = List (Bytes × MergeEntry)

  -- `entries[k] = entry`, in the order of the keys
  unfoldable pub insert_entry : Bytes → MergeEntry → MergeEntries → MergeEntries
  unfolding string_le
  insert_entry k e [] = (k, e) ∷ []
  insert_entry k e ((j, x) ∷ es) =
      let later = (j, x) ∷ insert_entry k e es in
      if string_le k j then (k, e) ∷ (j, x) ∷ es else later

  abbrev pub unless_set :
      Bytes → Bytes → Option MergeEntry → Converted MergeEntries → Converted MergeEntries
  unless_set at k none later = later
  unless_set at k (some prev) later = failed (key_already_set at k prev.at)

  -- the loop over the keys of `vals`
  unfoldable pub add_entries :
      Bytes → List (Bytes × c.Value) → MergeEntries → Converted MergeEntries
  unfolding insert_entry lookup
  add_entries at [] entries = value entries
  add_entries at ((k, v) ∷ vals) entries =
      let skip = add_entries at vals entries in
      let later = add_entries at vals (insert_entry k (record { val = v; at = at }) entries) in
      if is_null (c.view v) then skip else unless_set at k (lookup k entries) later

  -- What the loop over `parts` leaves: `given` and `entries`, or none where a value is not known.
  abbrev pub Gathered : Type 0
  Gathered = Option (Bool × MergeEntries)

  unfoldable pub gather_view :
      Bytes
      → Bool
      → MergeEntries
      → View c.Value c.Number
      → (Bool → MergeEntries → Converted Gathered)
      → Converted Gathered
  unfolding add_entries
  gather_view at given entries unknown_view later = value none
  gather_view at given entries null_view later = later given entries
  gather_view at given entries (entries_view vals) later =
      and_then (add_entries at vals entries) (λ es. later true es)
  gather_view at given entries _ later = panicked

  unfoldable pub gather : ZType c → List Part → Bool → MergeEntries → Converted Gathered
  unfolding convert gather_view
  gather t [] given entries = value (some (given, entries))
  gather t (p ∷ parts) given entries =
      and_then (placed p.at (convert c t p.given []))
        (λ v. gather_view p.at given entries (c.view v) (λ g es. gather t parts g es))

  abbrev pub vals_of : MergeEntries → List (Bytes × c.Value)
  vals_of = map (λ e. (e.0, e.1.val))

  unfoldable pub joined : ZType c → MergeEntries → Converted c.Value
  unfolding cty
  joined elem [] = value (c.map_empty (cty c elem))
  joined elem (e ∷ es) = made (c.map_val (vals_of (e ∷ es)))

  unfoldable pub finish_map : ZType c → Gathered → Converted c.Value
  unfolding cty joined
  finish_map elem none = value (c.unknown_val (cty c (map_of elem)))
  finish_map elem (some (false, entries)) = value (c.null_val (cty c (map_of elem)))
  finish_map elem (some (true, entries)) = joined elem entries

  -- `merge` of a Map
  unfoldable pub merge_map : ZType c → List Part → Converted c.Value
  unfolding gather finish_map
  merge_map elem parts = and_then (gather (map_of elem) parts false []) (finish_map elem)

  -- `Merge`
  unfoldable pub merge : ZType c → List Part → Converted c.Value
  unfolding merge_map merge_one
  merge (map_of elem) parts = merge_map elem parts
  merge t parts = merge_one t parts
