-- ===== src/Types/Texts.antt =====
-- Values of go-cty with types written as texts, which have the types that go-cty documents.
use zordon.Base.{
  ℕ, ◌+◌, ◌-◌, ◌≡◌, inl, inr, refl, sym, ap, Bool, true, ◌&&◌, List, [], ◌∷◌, ◌++◌, map, Option,
  none, some, arith, Bool-cases, if◌then◌else◌, drop, Bytes, equal, equal_iff,
}
use zordon.Types.Cty.{
  Cty, View, null_view, unknown_view, bool_view, string_view, number_view, sequence_view,
  entries_view, AllOf, values, types, MapView, IsLawful,
}
use mathlib.Core.Path.{subst}

mutual
  pub data Val : Type 0 where
    null_v unknown_v : Bytes → Val
    bool_v : Bool → Val
    string_v : Bytes → Val
    number_v : ℕ → Val
    list_v map_v : Bytes → Fields → Val
    object_v : Fields → Val

  pub data Fields : Type 0 where
    no_field : Fields
    one_field : Bytes → Val → Fields → Fields

abbrev pub flatten : List (Bytes × Bytes) → Bytes
flatten [] = []
flatten ((n, t) ∷ ts) = n ++ t ++ flatten ts

abbrev pub fields_of : List (Bytes × Val) → Fields
fields_of [] = no_field
fields_of ((n, v) ∷ es) = one_field n v (fields_of es)

abbrev pub unnamed : List Val → List (Bytes × Val)
unnamed = map (λ v. ([], v))

abbrev pub object_code : List (Bytes × Bytes) → Bytes
object_code ts = 5 ∷ flatten ts

unfoldable mutual
  pub type_of : Val → Bytes
  type_of (null_v t) = t
  type_of (unknown_v t) = t
  type_of (bool_v b) = 0 ∷ []
  type_of (string_v s) = 1 ∷ []
  type_of (number_v n) = 2 ∷ []
  type_of (list_v t fs) = 3 ∷ t
  type_of (map_v t fs) = 4 ∷ t
  type_of (object_v fs) = 5 ∷ types_of fs

  pub types_of : Fields → Bytes
  types_of no_field = []
  types_of (one_field n v fs) = n ++ type_of v ++ types_of fs

-- the entries whose values have the type
unfoldable pub keep : Bytes → Fields → List (Bytes × Val)
unfolding type_of equal
keep t no_field = []
keep t (one_field n v fs) =
    let rest = keep t fs in if equal (type_of v) t then (n, v) ∷ rest else rest

abbrev pub entries_of : Fields → List (Bytes × Val)
entries_of no_field = []
entries_of (one_field n v fs) = (n, v) ∷ entries_of fs

unfoldable pub view : Val → View Val ℕ
unfolding keep
view (null_v t) = null_view
view (unknown_v t) = unknown_view
view (bool_v b) = bool_view b
view (string_v s) = string_view s
view (number_v n) = number_view n
view (list_v t fs) = sequence_view (map (λ e. e.1) (keep t fs))
view (map_v t fs) = entries_view (keep t fs)
view (object_v fs) = entries_view (entries_of fs)

unfoldable pub same : Bytes → List (Bytes × Val) → Bool
unfolding type_of equal
same t [] = true
same t ((n, v) ∷ es) = equal (type_of v) t && same t es

abbrev pub uniform : (Bytes → Fields → Val) → List (Bytes × Val) → Option Val
unfolding same type_of
uniform make [] = none
uniform make ((n, v) ∷ es) =
    if same (type_of v) es then some (make (type_of v) (fields_of ((n, v) ∷ es))) else none

abbrev pub parse_digit : Bytes → Option ℕ
parse_digit (d ∷ []) = some (d - 48)
parse_digit _ = none

abbrev pub texts : Cty
texts = record {
  Value = Val;
  CtyType = Bytes;
  Number = ℕ;
  type_of = type_of;
  view = view;
  bool_type = 0 ∷ [];
  string_type = 1 ∷ [];
  number_type = 2 ∷ [];
  list_type = λ t. 3 ∷ t;
  map_type = λ t. 4 ∷ t;
  object_type = object_code;
  null_val = null_v;
  unknown_val = unknown_v;
  bool_val = bool_v;
  string_val = string_v;
  number_val = number_v;
  list_empty = λ t. list_v t no_field;
  map_empty = λ t. map_v t no_field;
  list_val = λ vs. uniform list_v (unnamed vs);
  map_val = uniform map_v;
  object_val = λ es. object_v (fields_of es);
  number_text = λ n. (48 + n) ∷ [];
  parse_number = parse_digit;
}

keep-AllOf : (t : Bytes) (fs : Fields) → AllOf texts t (values texts (keep t fs))
unfolding keep
keep-AllOf t no_field = tt
keep-AllOf t (one_field n v fs) = elim (Bool-cases (equal (type_of v) t)) [
  | inl e ↦ rw e ((equal_iff (type_of v) t).0 e, keep-AllOf t fs)
  | inr e ↦ rw e (keep-AllOf t fs)
]

map_v-seen : (v : Val) (t : Bytes) → type_of v ≡ 4 ∷ t → MapView texts t (view v)
unfolding view type_of
map_v-seen (null_v _) t e = tt
map_v-seen (unknown_v _) t e = tt
map_v-seen (bool_v b) t e = absurd (ground (arith, e))
map_v-seen (string_v s) t e = absurd (ground (arith, e))
map_v-seen (number_v n) t e = absurd (ground (arith, e))
map_v-seen (list_v s fs) t e = absurd (ground (arith, e))
map_v-seen (map_v s fs) t e =
    let same_type : s ≡ t = ap (drop 1) e in
    subst (λ u. AllOf texts t (values texts (keep u fs))) (sym same_type) (keep-AllOf t fs)
map_v-seen (object_v fs) t e = absurd (ground (arith, e))

AllOf-same :
    (t : Bytes) (es : List (Bytes × Val)) → AllOf texts t (values texts es) → same t es ≡ true
unfolding same
AllOf-same t [] h = refl
AllOf-same t ((n, v) ∷ es) (h, hs) =
    ground (arith, AllOf-same t es hs, (equal_iff (type_of v) t).1 h)

uniform-made :
    (make : Bytes → Fields → Val) (t n : Bytes) (v : Val) (es : List (Bytes × Val))
    → AllOf texts t (values texts ((n, v) ∷ es))
    → uniform make ((n, v) ∷ es) ≡ some (make t (fields_of ((n, v) ∷ es)))
unfolding uniform
uniform-made make t n v es (h, hs) =
    let fs = fields_of ((n, v) ∷ es) in
    subst (λ s. (if same s es then some (make s fs) else none) ≡ some (make t fs)) (sym h)
      (rw (AllOf-same t es hs) refl)

unnamed-AllOf :
    (t : Bytes) (vs : List Val) → AllOf texts t vs → AllOf texts t (values texts (unnamed vs))
unnamed-AllOf t [] h = tt
unnamed-AllOf t (v ∷ vs) (h, hs) = (h, unnamed-AllOf t vs hs)

types_of-fields : (es : List (Bytes × Val)) → types_of (fields_of es) ≡ flatten (types texts es)
unfolding type_of types_of
types_of-fields [] = refl
types_of-fields ((n, v) ∷ es) = ap (λ r. n ++ type_of v ++ r) (types_of-fields es)

view-bool : (v : Val) (b : Bool) → view v ≡ bool_view b → type_of v ≡ 0 ∷ []
unfolding view type_of
view-bool (bool_v _) b e = refl
view-bool (null_v _) b e = cc (e)
view-bool (unknown_v _) b e = cc (e)
view-bool (string_v _) b e = cc (e)
view-bool (number_v _) b e = cc (e)
view-bool (list_v _ _) b e = cc (e)
view-bool (map_v _ _) b e = cc (e)
view-bool (object_v _) b e = cc (e)

view-string : (v : Val) (s : Bytes) → view v ≡ string_view s → type_of v ≡ 1 ∷ []
unfolding view type_of
view-string (string_v _) s e = refl
view-string (null_v _) s e = cc (e)
view-string (unknown_v _) s e = cc (e)
view-string (bool_v _) s e = cc (e)
view-string (number_v _) s e = cc (e)
view-string (list_v _ _) s e = cc (e)
view-string (map_v _ _) s e = cc (e)
view-string (object_v _) s e = cc (e)

view-number : (v : Val) (n : ℕ) → view v ≡ number_view n → type_of v ≡ 2 ∷ []
unfolding view type_of
view-number (number_v _) n e = refl
view-number (null_v _) n e = cc (e)
view-number (unknown_v _) n e = cc (e)
view-number (bool_v _) n e = cc (e)
view-number (string_v _) n e = cc (e)
view-number (list_v _ _) n e = cc (e)
view-number (map_v _ _) n e = cc (e)
view-number (object_v _) n e = cc (e)

pub texts-IsLawful : IsLawful texts
unfolding type_of types_of
texts-IsLawful = record {
  bool_seen = view-bool;
  string_seen = view-string;
  number_seen = view-number;
  map_seen = map_v-seen;
  null_type = λ t. refl;
  unknown_type = λ t. refl;
  bool_made = λ b. refl;
  string_made = λ s. refl;
  number_made = λ n. refl;
  list_empty_type = λ t. refl;
  map_empty_type = λ t. refl;
  list_made = λ t v vs h. (
    list_v t (fields_of (unnamed (v ∷ vs))),
    uniform-made list_v t [] v (unnamed vs) (unnamed-AllOf t (v ∷ vs) h),
    refl,
  );
  map_made = λ t e es h. (map_v t (fields_of (e ∷ es)), uniform-made map_v t e.0 e.1 es h, refl);
  object_made = λ es. ap (λ ts. 5 ∷ ts) (types_of-fields es);
}
