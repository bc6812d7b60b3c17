-- ===== src/Types/Sound.antt =====
-- ztypes.go, `Convert`: its maps and objects, and the whole of it.
use zordon.Base.{
  ◌≡◌, refl, ap, ap₂, ◌∙◌, Bool, true, false, List, [], ◌∷◌, Option, none, some, Bytes, lookup,
}
use zordon.Types.Cty.{
  Cty, View, null_view, unknown_view, other_view, bool_view, string_view, number_view,
  sequence_view, entries_view, AllOf, values, types, IsLawful,
}
use zordon.Types.Convert.{
  Place, Mismatch, Converted, value, failed, panicked, and_then, made, each_entry, ZType, bool,
  string, number, list, map_of, object, Attributes, no_more, attribute, cty, cty_attrs, convert_map,
  undeclared, left_out, unless, convert_object, given_or, convert, convert_attrs, key, field,
}
use zordon.Types.Typed.{
  Typed, Typed-pass_through, Typed-convert_bool, Typed-convert_string, Typed-convert_number,
  Typed-convert_list,
}

module _ (c : Cty) (l : IsLawful c) where
  EntriesTyped : c.CtyType → Converted (List (Bytes × c.Value)) → Type 0
  EntriesTyped t (value es) = AllOf c t (values c es)
  EntriesTyped t (failed e) = Unit
  EntriesTyped t panicked = ⊥

  AttrsTyped : Attributes c → Converted (List (Bytes × c.Value)) → Type 0
  AttrsTyped attrs (value es) = types c es ≡ cty_attrs c attrs
  AttrsTyped attrs (failed e) = Unit
  AttrsTyped attrs panicked = ⊥

  unfoldable pub IsDefault : ZType c → Option c.Value → Type 0
  unfolding cty
  IsDefault t none = Unit
  IsDefault t (some d) = c.type_of d ≡ cty c t

  -- The defaults of the attributes are of their types, as `parseAttribute` converts them.
  unfoldable mutual
    pub HasDefaults : ZType c → Type 0
    HasDefaults bool = Unit
    HasDefaults string = Unit
    HasDefaults number = Unit
    HasDefaults (list t) = HasDefaults t
    HasDefaults (map_of t) = HasDefaults t
    HasDefaults (object attrs) = AllDefaults attrs

    pub AllDefaults : Attributes c → Type 0
    AllDefaults no_more = Unit
    AllDefaults (attribute n t optional fallback attrs) =
        HasDefaults t × AllDefaults attrs × IsDefault t fallback

  cons-EntriesTyped :
      (t : c.CtyType) (k : Bytes) (r : Converted c.Value) (rs : Converted (List (Bytes × c.Value)))
      → Typed c l t r
      → EntriesTyped t rs
      → EntriesTyped t (and_then r (λ b. and_then rs (λ bs. value ((k, b) ∷ bs))))
  unfolding EntriesTyped
  cons-EntriesTyped t k (value b) (value bs) h hs = (h, hs)
  cons-EntriesTyped t k (value b) (failed e) h hs = tt
  cons-EntriesTyped t k (value b) panicked h hs = elim hs [ ]
  cons-EntriesTyped t k (failed e) rs h hs = tt
  cons-EntriesTyped t k panicked rs h hs = elim h [ ]

  EntriesTyped-each_entry :
      (t : c.CtyType) (f : Bytes → c.Value → Converted c.Value)
      → ((k : Bytes) (v : c.Value) → Typed c l t (f k v))
      → (es : List (Bytes × c.Value)) → EntriesTyped t (each_entry f es)
  unfolding each_entry EntriesTyped
  EntriesTyped-each_entry t f h [] = tt
  EntriesTyped-each_entry t f h ((k, v) ∷ es) =
      cons-EntriesTyped t k (f k v) (each_entry f es) (h k v) (EntriesTyped-each_entry t f h es)

  Typed-map_val :
      (t : c.CtyType) (k : Bytes) (r : Converted c.Value) (rs : Converted (List (Bytes × c.Value)))
      → Typed c l t r
      → EntriesTyped t rs
      → Typed c l (c.map_type t) (
          and_then
            (and_then r (λ b. and_then rs (λ bs. value ((k, b) ∷ bs))))
            (λ out. made (c.map_val out)))
  unfolding EntriesTyped
  Typed-map_val t k (value b) (value bs) h hs =
      let (w, e, typed) = l.map_made t (k, b) bs (h, hs) in rw e typed
  Typed-map_val t k (value b) (failed e) h hs = tt
  Typed-map_val t k (value b) panicked h hs = elim hs [ ]
  Typed-map_val t k (failed e) rs h hs = tt
  Typed-map_val t k panicked rs h hs = elim h [ ]

  Typed-convert_map :
      (t : c.CtyType) (f : c.Value → Place → Converted c.Value)
      → ((v : c.Value) (at : Place) → Typed c l t (f v at))
      → (at : Place) (w : View c.Value c.Number) → Typed c l (c.map_type t) (convert_map c t f at w)
  unfolding convert_map each_entry
  Typed-convert_map t f h at (entries_view []) = l.map_empty_type t
  Typed-convert_map t f h at (entries_view ((k, v) ∷ es)) =
      Typed-map_val t k (f v (key k ∷ at)) (each_entry (λ k v. f v (key k ∷ at)) es)
        (h v (key k ∷ at))
        (EntriesTyped-each_entry t (λ k v. f v (key k ∷ at)) (λ k v. h v (key k ∷ at)) es)
  Typed-convert_map t f h at null_view = tt
  Typed-convert_map t f h at unknown_view = tt
  Typed-convert_map t f h at other_view = tt
  Typed-convert_map t f h at (bool_view b) = tt
  Typed-convert_map t f h at (string_view s) = tt
  Typed-convert_map t f h at (number_view n) = tt
  Typed-convert_map t f h at (sequence_view vs) = tt

  cons-AttrsTyped :
      (n : Bytes) (t : ZType c) (optional : Bool) (fallback : Option c.Value) (attrs : Attributes c)
      (r : Converted c.Value) (rs : Converted (List (Bytes × c.Value)))
      → Typed c l (cty c t) r
      → AttrsTyped attrs rs
      → AttrsTyped
          (attribute n t optional fallback attrs)
          (and_then r (λ b. and_then rs (λ bs. value ((n, b) ∷ bs))))
  unfolding AttrsTyped cty_attrs
  cons-AttrsTyped n t o d attrs (value b) (value bs) h hs = ap₂ (λ x xs. (n, x) ∷ xs) h hs
  cons-AttrsTyped n t o d attrs (value b) (failed e) h hs = tt
  cons-AttrsTyped n t o d attrs (value b) panicked h hs = elim hs [ ]
  cons-AttrsTyped n t o d attrs (failed e) rs h hs = tt
  cons-AttrsTyped n t o d attrs panicked rs h hs = elim h [ ]

  Typed-object_val :
      (attrs : Attributes c) (given : Option Mismatch) (r : Converted (List (Bytes × c.Value)))
      → AttrsTyped attrs r
      → Typed c l
          (c.object_type (cty_attrs c attrs))
          (unless c given (and_then r (λ out. value (c.object_val out))))
  unfolding AttrsTyped
  Typed-object_val attrs (some e) r h = tt
  Typed-object_val attrs none (value es) h = l.object_made es ∙ ap c.object_type h
  Typed-object_val attrs none (failed e) h = tt
  Typed-object_val attrs none panicked h = elim h [ ]

  Typed-left_out :
      (t : c.CtyType) (optional : Bool) (at : Place) (n : Bytes)
      → Typed c l t (left_out c t optional none at n)
  unfolding left_out
  Typed-left_out t true at n = l.null_type t
  Typed-left_out t false at n = tt

  Typed-given_or :
      (t : c.CtyType) (f : c.Value → Converted c.Value) (r : Converted c.Value)
      → ((v : c.Value) → Typed c l t (f v))
      → Typed c l t r
      → (o : Option c.Value) → Typed c l t (given_or c f r o)
  Typed-given_or t f r h k (some v) = h v
  Typed-given_or t f r h k none = k

  Typed-convert_object :
      (attrs : Attributes c)
      (f : List (Bytes × c.Value) → Place → Converted (List (Bytes × c.Value)))
      → ((given : List (Bytes × c.Value)) (at : Place) → AttrsTyped attrs (f given at))
      → (at : Place) (w : View c.Value c.Number)
      → Typed c l (c.object_type (cty_attrs c attrs)) (convert_object c attrs f at w)
  unfolding convert_object
  Typed-convert_object attrs f h at (entries_view given) =
      Typed-object_val attrs (undeclared c attrs at given) (f given at) (h given at)
  Typed-convert_object attrs f h at null_view = tt
  Typed-convert_object attrs f h at unknown_view = tt
  Typed-convert_object attrs f h at other_view = tt
  Typed-convert_object attrs f h at (bool_view b) = tt
  Typed-convert_object attrs f h at (string_view s) = tt
  Typed-convert_object attrs f h at (number_view n) = tt
  Typed-convert_object attrs f h at (sequence_view vs) = tt

  mutual
    unfolding convert convert_attrs cty cty_attrs AttrsTyped HasDefaults AllDefaults IsDefault
        left_out

    -- `Convert` does not panic, and a value that it returns declares the type that `cty` gives: where the
    -- defaults of the attributes are of their types, and the values of go-cty have the types that it
    -- documents.
    pub convert-Typed :
        (t : ZType c)
        → HasDefaults t
        → (v : c.Value) (at : Place) → Typed c l (cty c t) (convert c t v at)
    convert-Typed bool h v at =
        Typed-pass_through c l c.bool_type (c.view v) _
          (Typed-convert_bool c l v at (c.view v) refl)
    convert-Typed string h v at =
        Typed-pass_through c l c.string_type (c.view v) _
          (Typed-convert_string c l v at (c.view v) refl)
    convert-Typed number h v at =
        Typed-pass_through c l c.number_type (c.view v) _
          (Typed-convert_number c l v at (c.view v) refl)
    convert-Typed (list t) h v at =
        Typed-pass_through c l (c.list_type (cty c t)) (c.view v) _
          (Typed-convert_list c l (cty c t) (convert c t) (convert-Typed t h) at (c.view v))
    convert-Typed (map_of t) h v at =
        Typed-pass_through c l (c.map_type (cty c t)) (c.view v) _
          (Typed-convert_map (cty c t) (convert c t) (convert-Typed t h) at (c.view v))
    convert-Typed (object attrs) h v at =
        Typed-pass_through c l (c.object_type (cty_attrs c attrs)) (c.view v) _
          (Typed-convert_object attrs (convert_attrs c attrs) (attrs-Typed attrs h) at (c.view v))

    attrs-Typed :
        (attrs : Attributes c)
        → AllDefaults attrs
        → (given : List (Bytes × c.Value)) (at : Place)
        → AttrsTyped attrs (convert_attrs c attrs given at)
    attrs-Typed no_more h given at = refl
    attrs-Typed (attribute n t o none attrs) (h, hs, k) given at =
        cons-AttrsTyped n t o none attrs _ (convert_attrs c attrs given at)
          (Typed-given_or (cty c t) (λ v. convert c t v (field n ∷ at))
            (left_out c (cty c t) o none at n) (λ v. convert-Typed t h v (field n ∷ at))
            (Typed-left_out (cty c t) o at n) (lookup n given))
          (attrs-Typed attrs hs given at)
    attrs-Typed (attribute n t o (some d) attrs) (h, hs, k) given at =
        cons-AttrsTyped n t o (some d) attrs _ (convert_attrs c attrs given at)
          (Typed-given_or (cty c t) (λ v. convert c t v (field n ∷ at)) (value d)
            (λ v. convert-Typed t h v (field n ∷ at)) k (lookup n given))
          (attrs-Typed attrs hs given at)
