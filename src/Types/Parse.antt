-- ===== src/Types/Parse.antt =====
-- ztypes.go, `Parse`: types read from expressions.
use zordon.Base.{
  string_le, Bool, true, false, ◌||◌, [], Option, none, some, if◌then◌else◌, Bytes, codes, equal,
}
use zordon.Types.Cty.{Cty}
use zordon.Types.Convert.{
  Mismatch, Converted, value, failed, panicked, ZType, bool, string, number, list, map_of, object,
  Attributes, no_more, attribute, convert, declares,
}

-- `hcl.Expression`, as `parse_type` tells them apart: a bare word, a call, an object, or another, which
-- is its text. An item has a key and a value.
mutual
  pub data Expression : Type 0 where
    keyword : Bytes → Expression
    call : Bytes → Arguments → Expression
    object_cons : Items → Expression
    other : Bytes → Expression

  pub data Arguments : Type 0 where
    no_argument : Arguments
    one_more : Expression → Arguments → Arguments

  pub data Items : Type 0 where
    no_item : Items
    item : Expression → Expression → Items → Items

-- `hcl.ExprAsKeyword`
abbrev pub keyword_of : Expression → Bytes
keyword_of (keyword kw) = kw
keyword_of _ = []

-- the errors
pub data Fault : Type 0 where
  any_type not_a_type takes_one_type misplaced_optional no_set no_tuple not_an_object not_a_word :
      Fault
  optional_takes not_constant : Fault
  unknown_type : Bytes → Fault
  declared_twice : Bytes → Fault
  default_does_not_fit : Mismatch → Fault

pub data Parsed (A : Type 0) : Type 0 where
  parsed : A → Parsed A
  refused : Fault → Parsed A
  parse_panicked : Parsed A

abbrev pub parsed_then : {A B : Type 0} → Parsed A → (A → Parsed B) → Parsed B
parsed_then (parsed a) f = f a
parsed_then (refused e) f = refused e
parsed_then parse_panicked f = parse_panicked

abbrev pub word_fault : Bytes → Fault
unfolding equal
word_fault kw = if equal kw (codes "any") then any_type else unknown_type kw

abbrev pub call_fault : Bytes → Fault
unfolding equal
call_fault name =
    if equal name (codes "optional")
    then misplaced_optional
    else if equal name (codes "set")
    then no_set
    else if equal name (codes "tuple")
    then no_tuple
    else unknown_type name

abbrev pub takes_type : Bytes → Bool
unfolding equal
takes_type name =
    equal name (codes "list") || equal name (codes "map") || equal name (codes "object")

-- `Expression.Value(nil)` is the parameter `const_value`: none where it declares errors.
module _ (c : Cty) (const_value : Expression → Option c.Value) where
  unfoldable pub parse_word : Bytes → Parsed (ZType c)
  unfolding equal word_fault
  parse_word kw =
      if equal kw (codes "bool")
      then parsed bool
      else if equal kw (codes "string")
      then parsed string
      else if equal kw (codes "number")
      then parsed number
      else refused (word_fault kw)

  -- `out.Attrs[name] = attr`, in the order of the names
  unfoldable pub insert_attribute :
      Bytes → ZType c → Bool → Option c.Value → Attributes c → Attributes c
  unfolding string_le
  insert_attribute n t o d no_more = attribute n t o d no_more
  insert_attribute n t o d (attribute m u p e attrs) =
      let later = attribute m u p e (insert_attribute n t o d attrs) in
      if string_le n m then attribute n t o d (attribute m u p e attrs) else later

  -- An `Attribute`: its type, whether it is optional, and its default.
  abbrev pub Declared : Type 0
  Declared = ZType c × Bool × Option c.Value

  abbrev pub converted_default : ZType c → Converted c.Value → Parsed Declared
  converted_default t (value d) = parsed (t, true, some d)
  converted_default t (failed e) = refused (default_does_not_fit e)
  converted_default t panicked = parse_panicked

  unfoldable pub with_default : ZType c → Option c.Value → Parsed Declared
  unfolding convert
  with_default t none = refused not_constant
  with_default t (some v) = converted_default t (convert c t v [])

  -- the cases of a call with one argument
  unfoldable pub typed_call : Bytes → Parsed (ZType c) → Parsed (ZType c) → Parsed (ZType c)
  unfolding equal
  typed_call name elem obj =
      if equal name (codes "list")
      then parsed_then elem (λ t. parsed (list t))
      else if equal name (codes "map")
      then parsed_then elem (λ t. parsed (map_of t))
      else if equal name (codes "object")
      then obj
      else refused (call_fault name)

  unfoldable pub wrong_call : Bytes → Parsed (ZType c)
  unfolding takes_type call_fault
  wrong_call name = refused (if takes_type name then takes_one_type else call_fault name)

  abbrev pub required : Parsed (ZType c) → Parsed Declared
  required r = parsed_then r (λ t. parsed (t, false, none))

  -- the check of an item, and the attribute that it adds
  unfoldable pub add_item :
      Bytes → Attributes c → Parsed Declared → (Attributes c → Parsed (ZType c)) → Parsed (ZType c)
  unfolding equal declares insert_attribute
  add_item name attrs r later =
      if equal name []
      then refused not_a_word
      else if declares c attrs name
      then refused (declared_twice name)
      else parsed_then r (λ d. later (insert_attribute name d.0 d.1 d.2 attrs))

  -- `parse_type`, `parseObject` with its loop over the items, and `parseAttribute`
  unfoldable mutual
    unfolding parse_word typed_call wrong_call with_default add_item equal

    pub parse_type : Expression → Parsed (ZType c)
    parse_type (keyword kw) = parse_word kw
    parse_type (call name args) = parse_type_call name args
    parse_type (object_cons items) = refused not_a_type
    parse_type (other text) = refused not_a_type

    pub parse_type_call : Bytes → Arguments → Parsed (ZType c)
    parse_type_call name (one_more arg no_argument) =
        typed_call name (parse_type arg) (parse_object arg)
    parse_type_call name args = wrong_call name

    pub parse_object : Expression → Parsed (ZType c)
    parse_object (object_cons items) = parse_items items no_more
    parse_object _ = refused not_an_object

    pub parse_items : Items → Attributes c → Parsed (ZType c)
    parse_items no_item attrs = parsed (object attrs)
    parse_items (item key e items) attrs =
        add_item (keyword_of key) attrs (parse_attribute e) (λ attrs. parse_items items attrs)

    pub parse_attribute : Expression → Parsed Declared
    parse_attribute (call name args) =
        let optional = parse_optional args in
        let plain = required (parse_type_call name args) in
        if equal name (codes "optional") then optional else plain
    parse_attribute (keyword kw) = required (parse_word kw)
    parse_attribute (object_cons items) = refused not_a_type
    parse_attribute (other text) = refused not_a_type

    pub parse_optional : Arguments → Parsed Declared
    parse_optional (one_more e no_argument) =
        parsed_then (parse_type e) (λ t. parsed (t, true, none))
    parse_optional (one_more e (one_more d no_argument)) =
        parsed_then (parse_type e) (λ t. with_default t (const_value d))
    parse_optional _ = refused optional_takes
