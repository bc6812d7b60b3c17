-- ===== src/Types/Parsed.antt =====
-- ztypes.go, `Parse` and `Convert` together.
use zordon.Base.{
  List, string_le, ◌≡◌, inl, inr, Bool, [], Option, none, some, Bool-cases, Bytes, codes, equal,
}
use zordon.Types.Cty.{Cty, IsLawful}
use zordon.Types.Convert.{
  Converted, value, failed, panicked, ZType, list, map_of, Attributes, no_more, attribute, cty,
  convert, declares,
}
use mathlib.Core.Path.{subst}
use zordon.Types.Typed.{Typed}
use zordon.Types.Sound.{IsDefault, HasDefaults, AllDefaults, convert-Typed}
use zordon.Types.Merge.{Part, merge}
use zordon.Types.Joined.{merge-Typed}
use zordon.Types.Parse.{
  Expression, keyword, call, object_cons, other, Arguments, no_argument, one_more, Items, no_item,
  item, keyword_of, Parsed, parsed, refused, parse_panicked, parsed_then, parse_word,
  insert_attribute, Declared, converted_default, with_default, typed_call, add_item, parse_type,
  parse_type_call, parse_object, parse_items, parse_attribute, parse_optional,
}

module _ (c : Cty) (l : IsLawful c) (const_value : Expression → Option c.Value) where
  -- A type whose defaults are of their types, or an error; never a panic.
  abbrev pub IsRead : Parsed (ZType c) → Type 0
  IsRead (parsed t) = HasDefaults c l t
  IsRead (refused e) = Unit
  IsRead parse_panicked = ⊥

  abbrev IsDeclared : Parsed (Declared c const_value) → Type 0
  IsDeclared (parsed (t, o, d)) = HasDefaults c l t × IsDefault c l t d
  IsDeclared (refused e) = Unit
  IsDeclared parse_panicked = ⊥

  IsRead-parse_word : (kw : Bytes) → IsRead (parse_word c const_value kw)
  unfolding parse_word HasDefaults
  IsRead-parse_word kw = elim (Bool-cases (equal kw (codes "bool"))) [
    | inl b ↦ rw b tt
    | inr b ↦ elim (Bool-cases (equal kw (codes "string"))) [
      | inl s ↦ rw (b, s) tt
      | inr s ↦ elim (Bool-cases (equal kw (codes "number"))) [
        | inl n ↦ rw (b, s, n) tt
        | inr n ↦ rw (b, s, n) tt
      ]
    ]
  ]

  AllDefaults-insert_attribute :
      (n : Bytes) (t : ZType c) (o : Bool) (d : Option c.Value) (attrs : Attributes c)
      → HasDefaults c l t
      → IsDefault c l t d
      → AllDefaults c l attrs
      → AllDefaults c l (insert_attribute c const_value n t o d attrs)
  unfolding insert_attribute HasDefaults
  AllDefaults-insert_attribute n t o d no_more h k hs = (h, tt, k)
  AllDefaults-insert_attribute n t o d (attribute m u p e attrs) h k (hu, hs, ku) =
      elim (Bool-cases (string_le n m)) [
        | inl q ↦ rw q (h, (hu, hs, ku), k)
        | inr q ↦ rw q (hu, AllDefaults-insert_attribute n t o d attrs h k hs, ku)
      ]

  IsDeclared-with_default :
      (t : ZType c) (v : Option c.Value)
      → HasDefaults c l t
      → IsDeclared (with_default c const_value t v)
  unfolding with_default IsDefault
  IsDeclared-with_default t none h = tt
  IsDeclared-with_default t (some v) h = go (convert c t v []) (convert-Typed c l t h v [])
    where
      go :
          (r : Converted c.Value)
          → Typed c l (cty c t) r
          → IsDeclared (converted_default c const_value t r)
      go (value d) k = (h, k)
      go (failed e) k = tt
      go panicked k = elim k [ ]

  IsRead-then :
      (r : Parsed (ZType c)) (f : ZType c → Parsed (ZType c))
      → IsRead r
      → ((t : ZType c) → HasDefaults c l t → IsRead (f t))
      → IsRead (parsed_then r f)
  IsRead-then (parsed t) f h k = k t h
  IsRead-then (refused e) f h k = tt
  IsRead-then parse_panicked f h k = elim h [ ]

  IsDeclared-then :
      (r : Parsed (ZType c)) (f : ZType c → Parsed (Declared c const_value))
      → IsRead r
      → ((t : ZType c) → HasDefaults c l t → IsDeclared (f t))
      → IsDeclared (parsed_then r f)
  IsDeclared-then (parsed t) f h k = k t h
  IsDeclared-then (refused e) f h k = tt
  IsDeclared-then parse_panicked f h k = elim h [ ]

  IsRead-typed_call :
      (name : Bytes) (elem obj : Parsed (ZType c))
      → IsRead elem
      → IsRead obj
      → IsRead (typed_call c const_value name elem obj)
  unfolding typed_call HasDefaults
  IsRead-typed_call name elem obj h ho = elim (Bool-cases (equal name (codes "list"))) [
    | inl b ↦ rw b (IsRead-then elem (λ t. parsed (list t)) h (λ t k. k))
    | inr b ↦ elim (Bool-cases (equal name (codes "map"))) [
      | inl s ↦ rw (b, s) (IsRead-then elem (λ t. parsed (map_of t)) h (λ t k. k))
      | inr s ↦ elim (Bool-cases (equal name (codes "object"))) [
        | inl n ↦ rw (b, s, n) ho
        | inr n ↦ rw (b, s, n) tt
      ]
    ]
  ]

  IsRead-add_item :
      (name : Bytes) (attrs : Attributes c) (r : Parsed (Declared c const_value))
      (later : Attributes c → Parsed (ZType c))
      → AllDefaults c l attrs
      → IsDeclared r
      → ((attrs : Attributes c) → AllDefaults c l attrs → IsRead (later attrs))
      → IsRead (add_item c const_value name attrs r later)
  unfolding add_item
  IsRead-add_item name attrs r later hs h k = elim (Bool-cases (equal name [])) [
    | inl b ↦ rw b tt
    | inr b ↦ elim (Bool-cases (declares c attrs name)) [
      | inl s ↦ rw (b, s) tt
      | inr s ↦ rw (b, s) (go r h)
    ]
  ]
    where
      go :
          (r : Parsed (Declared c const_value))
          → IsDeclared r
          → IsRead
              (parsed_then r (λ d. later (insert_attribute c const_value name d.0 d.1 d.2 attrs)))
      go (parsed (t, o, d)) (h, e) = k _ (AllDefaults-insert_attribute name t o d attrs h e hs)
      go (refused e) h = tt
      go parse_panicked h = elim h [ ]

  mutual
    unfolding parse_type HasDefaults IsDefault

    IsRead-parse : (e : Expression) → IsRead (parse_type c const_value e)
    IsRead-parse (keyword kw) = IsRead-parse_word kw
    IsRead-parse (call name args) = IsRead-parse_call name args
    IsRead-parse (object_cons items) = tt
    IsRead-parse (other text) = tt

    IsRead-parse_call :
        (name : Bytes) (args : Arguments) → IsRead (parse_type_call c const_value name args)
    IsRead-parse_call name no_argument = tt
    IsRead-parse_call name (one_more e no_argument) =
        IsRead-typed_call name (parse_type c const_value e) (parse_object c const_value e)
          (IsRead-parse e) (IsRead-parse_object e)
    IsRead-parse_call name (one_more e (one_more d args)) = tt

    IsRead-parse_object : (e : Expression) → IsRead (parse_object c const_value e)
    IsRead-parse_object (object_cons items) = IsRead-parse_items items no_more tt
    IsRead-parse_object (keyword kw) = tt
    IsRead-parse_object (call name args) = tt
    IsRead-parse_object (other text) = tt

    IsRead-parse_items :
        (items : Items) (attrs : Attributes c)
        → AllDefaults c l attrs
        → IsRead (parse_items c const_value items attrs)
    IsRead-parse_items no_item attrs h = h
    IsRead-parse_items (item key e items) attrs h =
        IsRead-add_item (keyword_of key) attrs (parse_attribute c const_value e)
          (λ attrs. parse_items c const_value items attrs) h (IsDeclared-parse_attribute e)
          (λ attrs h. IsRead-parse_items items attrs h)

    IsDeclared-parse_attribute : (e : Expression) → IsDeclared (parse_attribute c const_value e)
    IsDeclared-parse_attribute (call name args) =
        elim (Bool-cases (equal name (codes "optional"))) [
          | inl t ↦ rw t (IsDeclared-parse_optional args)
          | inr t ↦ rw t (
              IsDeclared-then (parse_type_call c const_value name args) _
                (IsRead-parse_call name args) (λ t h. (h, tt)))
        ]
    IsDeclared-parse_attribute (keyword kw) =
        IsDeclared-then (parse_word c const_value kw) _ (IsRead-parse_word kw) (λ t h. (h, tt))
    IsDeclared-parse_attribute (object_cons items) = tt
    IsDeclared-parse_attribute (other text) = tt

    IsDeclared-parse_optional : (args : Arguments) → IsDeclared (parse_optional c const_value args)
    IsDeclared-parse_optional no_argument = tt
    IsDeclared-parse_optional (one_more e no_argument) =
        IsDeclared-then (parse_type c const_value e) _ (IsRead-parse e) (λ t h. (h, tt))
    IsDeclared-parse_optional (one_more e (one_more d no_argument)) =
        IsDeclared-then (parse_type c const_value e) _ (IsRead-parse e)
          (λ t h. IsDeclared-with_default t (const_value d) h)
    IsDeclared-parse_optional (one_more e (one_more d (one_more f args))) = tt

  -- Where `Parse` returns a type, neither `Convert` to it nor `Merge` for it without unique attributes
  -- panics, and a value that they return declares the type that `cty` gives, if the values of go-cty have
  -- the types that it documents.
  pub parse-Typed :
      (e : Expression) (t : ZType c)
      → parse_type c const_value e ≡ parsed t
      → (v : c.Value) (parts : List (Part c))
      → Typed c l (cty c t) (convert c t v []) × Typed c l (cty c t) (merge c t parts)
  parse-Typed e t read v parts =
      let defaults : HasDefaults c l t = subst IsRead read (IsRead-parse e) in
      (convert-Typed c l t defaults v [], merge-Typed c l t defaults parts)
