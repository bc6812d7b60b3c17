-- ===== src/Types/Cty.antt =====
-- What internal/ztypes/ztypes.go relies on of go-cty and of Go's big.Float. A Go map is the list of
-- its entries, in the order of their keys.
use zordon.Base.{◌≡◌, Bool, List, [], ◌∷◌, map, Option, some, Bytes}

-- What `IsNull`, `IsKnown` and `Type` tell of a value, in the order of the code's questions, and
-- what it reads with `True`, `AsString`, `AsBigFloat`, `AsValueSlice` and `AsValueMap`. A sequence is
-- a list, a tuple or a set, and entries are a map's or an object's.
pub data View (Value Number : Type 0) : Type 0 where
  null_view unknown_view other_view : View Value Number
  bool_view : Bool → View Value Number
  string_view : Bytes → View Value Number
  number_view : Number → View Value Number
  sequence_view : List Value → View Value Number
  entries_view : List (Bytes × Value) → View Value Number

-- `cty.Value`, `cty.Type` and their functions. `ListVal` and `MapVal` panic on no values and on
-- values of several types.
pub record Cty : Type 1 where
  pub Value : Type 0
  pub CtyType : Type 0
  pub Number : Type 0
  pub type_of : Value → CtyType
  pub view : Value → View Value Number
  pub bool_type : CtyType
  pub string_type : CtyType
  pub number_type : CtyType
  pub list_type : CtyType → CtyType
  pub map_type : CtyType → CtyType
  pub object_type : List (Bytes × CtyType) → CtyType
  pub null_val : CtyType → Value
  pub unknown_val : CtyType → Value
  pub bool_val : Bool → Value
  pub string_val : Bytes → Value
  pub number_val : Number → Value
  pub list_empty : CtyType → Value
  pub map_empty : CtyType → Value
  pub list_val : List Value → Option Value
  pub map_val : List (Bytes × Value) → Option Value
  pub object_val : List (Bytes × Value) → Value
  pub number_text : Number → Bytes
  pub parse_number : Bytes → Option Number

module _ (c : Cty) where
  -- every value declares the type
  abbrev pub AllOf : c.CtyType → List c.Value → Type 0
  AllOf t [] = Unit
  AllOf t (v ∷ vs) = (c.type_of v ≡ t) × AllOf t vs

  abbrev pub values : List (Bytes × c.Value) → List c.Value
  values = map (λ e. e.1)

  -- the attributes of an object with their types
  abbrev pub types : List (Bytes × c.Value) → List (Bytes × c.CtyType)
  types = map (λ e. (e.0, c.type_of e.1))

  -- what a value of a map type is
  abbrev pub MapView : c.CtyType → View c.Value c.Number → Type 0
  MapView t View.null_view = Unit
  MapView t View.unknown_view = Unit
  MapView t (View.entries_view es) = AllOf t (values es)
  MapView t _ = ⊥

  -- the types of the values that go-cty documents
  pub record IsLawful : Type 0 where
    pub bool_seen :
        (v : c.Value) (b : Bool) → c.view v ≡ View.bool_view b → c.type_of v ≡ c.bool_type
    pub string_seen :
        (v : c.Value) (s : Bytes) → c.view v ≡ View.string_view s → c.type_of v ≡ c.string_type
    pub number_seen :
        (v : c.Value) (n : c.Number) → c.view v ≡ View.number_view n → c.type_of v ≡ c.number_type
    pub map_seen : (v : c.Value) (t : c.CtyType) → c.type_of v ≡ c.map_type t → MapView t (c.view v)
    pub null_type : (t : c.CtyType) → c.type_of (c.null_val t) ≡ t
    pub unknown_type : (t : c.CtyType) → c.type_of (c.unknown_val t) ≡ t
    pub bool_made : (b : Bool) → c.type_of (c.bool_val b) ≡ c.bool_type
    pub string_made : (s : Bytes) → c.type_of (c.string_val s) ≡ c.string_type
    pub number_made : (n : c.Number) → c.type_of (c.number_val n) ≡ c.number_type
    pub list_empty_type : (t : c.CtyType) → c.type_of (c.list_empty t) ≡ c.list_type t
    pub map_empty_type : (t : c.CtyType) → c.type_of (c.map_empty t) ≡ c.map_type t
    pub list_made :
        (t : c.CtyType) (v : c.Value) (vs : List c.Value)
        → AllOf t (v ∷ vs)
        → (w : c.Value) × (c.list_val (v ∷ vs) ≡ some w) × (c.type_of w ≡ c.list_type t)
    pub map_made :
        (t : c.CtyType) (e : Bytes × c.Value) (es : List (Bytes × c.Value))
        → AllOf t (values (e ∷ es))
        → (w : c.Value) × (c.map_val (e ∷ es) ≡ some w) × (c.type_of w ≡ c.map_type t)
    pub object_made :
        (es : List (Bytes × c.Value)) → c.type_of (c.object_val es) ≡ c.object_type (types es)
