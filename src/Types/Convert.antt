-- ===== src/Types/Convert.antt =====
-- ztypes.go: `Type` and its implementations, `cty` and `Convert`.
use zordon.Base.{
  ℕ, suc, Bool, true, false, ◌||◌, List, [], ◌∷◌, Option, none, some, if◌then◌else◌, Bytes, codes,
  equal, lookup,
}
use zordon.Types.Cty.{
  Cty, View, null_view, unknown_view, bool_view, string_view, number_view, sequence_view,
  entries_view,
}

-- where in a value an error is: the steps of `at`, the innermost first
pub data PathStep : Type 0 where
  index : ℕ → PathStep
  key : Bytes → PathStep
  field : Bytes → PathStep

abbrev pub Place : Type 0
Place = List PathStep

-- the errors
pub data Mismatch : Type 0 where
  bool_required string_required number_required list_required map_required object_required :
      Place → Mismatch
  not_declared : Place → Mismatch
  is_required : Place → Bytes → Mismatch
  already_set : Bytes → Bytes → Mismatch
  key_already_set : Bytes → Bytes → Bytes → Mismatch
  at_part : Bytes → Mismatch → Mismatch

-- a value, an error, or a panic of go-cty
pub data Converted (A : Type 0) : Type 0 where
  value : A → Converted A
  failed : Mismatch → Converted A
  panicked : Converted A

abbrev pub and_then : {A B : Type 0} → Converted A → (A → Converted B) → Converted B
and_then (value a) f = f a
and_then (failed e) f = failed e
and_then panicked f = panicked

abbrev pub made : {A : Type 0} → Option A → Converted A
made none = panicked
made (some a) = value a

-- The loops over `elems`: each result, or the first error.
unfoldable pub each : {A B : Type 0} → (ℕ → A → Converted B) → ℕ → List A → Converted (List B)
each f i [] = value []
each f i (a ∷ rest) = and_then (f i a) (λ b. and_then (each f (suc i) rest) (λ bs. value (b ∷ bs)))

unfoldable pub each_entry :
    {A B : Type 0} → (Bytes → A → Converted B) → List (Bytes × A) → Converted (List (Bytes × B))
each_entry f [] = value []
each_entry f ((k, a) ∷ es) =
    and_then (f k a) (λ b. and_then (each_entry f es) (λ bs. value ((k, b) ∷ bs)))

module _ (c : Cty) where
  -- `Type` and its implementations. The attributes of an object are in the order of `Names`, each
  -- with its type, whether it is optional, and its default.
  mutual
    pub data ZType : Type 0 where
      bool string number : ZType
      list : ZType → ZType
      map_of : ZType → ZType
      object : Attributes → ZType

    pub data Attributes : Type 0 where
      no_more : Attributes
      attribute : Bytes → ZType → Bool → Option c.Value → Attributes → Attributes

  -- `Has`
  unfoldable pub declares : Attributes → Bytes → Bool
  unfolding equal
  declares no_more name = false
  declares (attribute n t optional fallback attrs) name = equal name n || declares attrs name

  -- `cty`
  unfoldable mutual
    pub cty : ZType → c.CtyType
    cty bool = c.bool_type
    cty string = c.string_type
    cty number = c.number_type
    cty (list t) = c.list_type (cty t)
    cty (map_of t) = c.map_type (cty t)
    cty (object attrs) = c.object_type (cty_attrs attrs)

    pub cty_attrs : Attributes → List (Bytes × c.CtyType)
    cty_attrs no_more = []
    cty_attrs (attribute n t optional fallback attrs) = (n, cty t) ∷ cty_attrs attrs

  -- `passThrough`
  abbrev pub pass_through :
      c.CtyType → View c.Value c.Number → Converted c.Value → Converted c.Value
  pass_through t null_view r = value (c.null_val t)
  pass_through t unknown_view r = value (c.unknown_val t)
  pass_through t _ r = r

  -- `convert` of a Bool, a String and a Number
  unfoldable pub convert_bool : c.Value → Place → View c.Value c.Number → Converted c.Value
  unfolding equal
  convert_bool v at (bool_view b) = value v
  convert_bool v at (string_view s) =
      if equal s (codes "true")
      then value (c.bool_val true)
      else if equal s (codes "false")
      then value (c.bool_val false)
      else failed (bool_required at)
  convert_bool v at _ = failed (bool_required at)

  unfoldable pub convert_string : c.Value → Place → View c.Value c.Number → Converted c.Value
  convert_string v at (string_view s) = value v
  convert_string v at (bool_view b) =
      value (c.string_val (if b then codes "true" else codes "false"))
  convert_string v at (number_view n) = value (c.string_val (c.number_text n))
  convert_string v at _ = failed (string_required at)

  abbrev pub parsed_number : Place → Option c.Number → Converted c.Value
  parsed_number at none = failed (number_required at)
  parsed_number at (some n) = value (c.number_val n)

  unfoldable pub convert_number : c.Value → Place → View c.Value c.Number → Converted c.Value
  convert_number v at (number_view n) = value v
  convert_number v at (string_view s) = parsed_number at (c.parse_number s)
  convert_number v at _ = failed (number_required at)

  -- `convert` of a List and of a Map, where `f` is that of the element
  unfoldable pub convert_list :
      c.CtyType
      → (c.Value → Place → Converted c.Value)
      → Place
      → View c.Value c.Number
      → Converted c.Value
  unfolding each
  convert_list t f at (sequence_view []) = value (c.list_empty t)
  convert_list t f at (sequence_view (v ∷ vs)) =
      and_then (each (λ i e. f e (index i ∷ at)) 0 (v ∷ vs)) (λ out. made (c.list_val out))
  convert_list t f at _ = failed (list_required at)

  unfoldable pub convert_map :
      c.CtyType
      → (c.Value → Place → Converted c.Value)
      → Place
      → View c.Value c.Number
      → Converted c.Value
  unfolding each_entry
  convert_map t f at (entries_view []) = value (c.map_empty t)
  convert_map t f at (entries_view (e ∷ es)) =
      and_then (each_entry (λ k v. f v (key k ∷ at)) (e ∷ es)) (λ out. made (c.map_val out))
  convert_map t f at _ = failed (map_required at)

  -- the loop over `given`: an attribute that the object does not declare
  unfoldable pub undeclared : Attributes → Place → List (Bytes × c.Value) → Option Mismatch
  unfolding declares
  undeclared attrs at [] = none
  undeclared attrs at ((name, v) ∷ given) =
      let later = undeclared attrs at given in
      if declares attrs name then later else some (not_declared (field name ∷ at))

  -- an attribute that is left out
  unfoldable pub left_out : c.CtyType → Bool → Option c.Value → Place → Bytes → Converted c.Value
  left_out t optional (some d) at name = value d
  left_out t true none at name = value (c.null_val t)
  left_out t false none at name = failed (is_required at name)

  -- what follows the loop over `given` in `convert` of an Object
  abbrev pub unless : Option Mismatch → Converted c.Value → Converted c.Value
  unless (some e) r = failed e
  unless none r = r

  -- `convert` of an Object, where `f` is the loop over its names
  unfoldable pub convert_object :
      Attributes
      → (List (Bytes × c.Value) → Place → Converted (List (Bytes × c.Value)))
      → Place
      → View c.Value c.Number
      → Converted c.Value
  unfolding undeclared
  convert_object attrs f at (entries_view given) =
      unless (undeclared attrs at given) (and_then (f given at) (λ out. value (c.object_val out)))
  convert_object attrs f at _ = failed (object_required at)

  -- an attribute: given, or left out
  abbrev pub given_or :
      (c.Value → Converted c.Value) → Converted c.Value → Option c.Value → Converted c.Value
  given_or f r (some v) = f v
  given_or f r none = r

  -- `convert`, and the loop of an Object over its names
  unfoldable mutual
    unfolding cty convert_bool convert_string convert_number convert_list convert_map convert_object
        left_out lookup

    pub convert : ZType → c.Value → Place → Converted c.Value
    convert bool v at = pass_through (cty bool) (c.view v) (convert_bool v at (c.view v))
    convert string v at = pass_through (cty string) (c.view v) (convert_string v at (c.view v))
    convert number v at = pass_through (cty number) (c.view v) (convert_number v at (c.view v))
    convert (list t) v at =
        pass_through (cty (list t)) (c.view v) (convert_list (cty t) (convert t) at (c.view v))
    convert (map_of t) v at =
        pass_through (cty (map_of t)) (c.view v) (convert_map (cty t) (convert t) at (c.view v))
    convert (object attrs) v at =
        pass_through (cty (object attrs)) (c.view v)
          (convert_object attrs (convert_attrs attrs) at (c.view v))

    pub convert_attrs :
        Attributes → List (Bytes × c.Value) → Place → Converted (List (Bytes × c.Value))
    convert_attrs no_more given at = value []
    convert_attrs (attribute n t optional fallback attrs) given at =
        and_then
          (given_or (λ v. convert t v (field n ∷ at)) (left_out (cty t) optional fallback at n)
            (lookup n given))
          (λ v. and_then (convert_attrs attrs given at) (λ out. value ((n, v) ∷ out)))
