-- ===== src/LogFilter/Plan.antt =====
-- internal/logfilter/plan.go: from the syntax tree to a predicate.
use Prim.Native.Nat.{max}
pub mod Meaning
pub mod Flip
mod Leaves
pub mod Correct
use zordon.Base.{
  ◌||◌, ℕ, zero, suc, Bool, true, false, not, ◌&&◌, [], ◌∷◌, Option, none, some, ◌==◌, leb,
  if◌then◌else◌, ℤ, Bytes, codes, equal, has_prefix, contains,
}
use zordon.LogFilter.Ast.{
  Node, bin_node, not_node, call_node, ident_node, str_node, int_node, float_node, bool_node, Nodes,
  nil, cons, append,
}
use zordon.LogFilter.Deps.{Deps}
use zordon.LogFilter.Parser.{parse}
use zordon.LogFilter.Predicate.{
  SubstrMode, anywhere, prefix, suffix, MetaField, stream, service, Predicate, Predicates,
  none_left, one_more, substr_pred, regex_pred, meta_pred, severity_pred, json_str_pred,
  json_num_pred, logfmt_pred, const_pred, and_pred, or_pred, not_pred, sort_by_cost, total_cost,
  Filter,
}
use zordon.LogFilter.Result.{
  Error, Result, ok, err, out_of_fuel, ◌>>=◌, lone_identifier, must_be_compared, unknown_function,
  bad_pattern, one_argument, two_arguments, argument_not_line, first_not_line, second_not_string,
  not_a_condition, two_fields, no_field, meta_operator, meta_literal, severity_literal,
  logfmt_operator, logfmt_literal, json_operator, json_literal,
}
use zordon.LogFilter.Severity.{sev_const}

-- `fieldInfo`
pub data FieldInfo : Type 0 where
  meta_field : MetaField → FieldInfo
  severity_field : FieldInfo
  json_field logfmt_field : Bytes → FieldInfo

-- `*identNode` named `line`
abbrev pub is_line : Node → Bool
is_line (ident_node w) = equal w (codes "line")
is_line _ = false

-- `lineArg1`
unfoldable pub line_arg1 : Bytes → Nodes → Result (Unit {0})
line_arg1 name (cons a nil) = if is_line a then ok tt else err (argument_not_line name)
line_arg1 name _ = err (one_argument name)

-- `strLit`
abbrev pub str_lit : Node → Option Bytes
str_lit (str_node s) = some s
str_lit _ = none

pub str_arg : Bytes → Node → Result Bytes
str_arg name (str_node s) = ok s
str_arg name _ = err (second_not_string name)

-- `lineStrArg2`
unfoldable pub line_str_arg2 : Bytes → Nodes → Result Bytes
unfolding str_arg
line_str_arg2 name (cons a (cons b nil)) =
    if is_line a then str_arg name b else err (first_not_line name)
line_str_arg2 name _ = err (two_arguments name)

-- `sevThreshold`
unfoldable pub sev_threshold : Node → Option ℤ
unfolding sev_const
sev_threshold (int_node v) = some v
sev_threshold (ident_node name) = sev_const name
sev_threshold _ = none

-- `flipOp`
unfoldable pub flip_op : Bytes → Bytes
flip_op op =
    if equal op (codes "<")
    then codes ">"
    else if equal op (codes "<=")
    then codes ">="
    else if equal op (codes ">")
    then codes "<"
    else if equal op (codes ">=")
    then codes "<="
    else op

-- `classifyField` on a call
unfoldable pub classify_call : Bytes → Nodes → Result (Option FieldInfo)
unfolding line_arg1 line_str_arg2
classify_call name args =
    if equal name (codes "severity")
    then (line_arg1 name args >>= λ _. ok (some severity_field))
    else if equal name (codes "json")
    then (line_str_arg2 name args >>= λ path. ok (some (json_field path)))
    else if equal name (codes "logfmt")
    then (line_str_arg2 name args >>= λ key. ok (some (logfmt_field key)))
    else ok none

-- `classifyField`
unfoldable pub classify_field : Node → Result (Option FieldInfo)
unfolding classify_call
classify_field (ident_node name) =
    if equal name (codes "stream")
    then ok (some (meta_field stream))
    else if equal name (codes "service")
    then ok (some (meta_field service))
    else ok none
classify_field (call_node name args) = classify_call name args
classify_field _ = ok none

-- `op != "==" && op != "!="`
abbrev pub not_equality : Bytes → Bool
not_equality op = not (equal op (codes "==")) && not (equal op (codes "!="))

abbrev pub or_error {ℓ} : {A : Type ℓ} → Option A → Error → Result A
or_error none e = err e
or_error (some a) e = ok a

-- the closure `collect` of `compileAndOr`
unfoldable pub collect : Bytes → Node → Nodes
unfolding append
collect op (bin_node op' l r) =
    let parts = append (collect op l) (collect op r) in
    if equal op' op then parts else cons (bin_node op' l r) nil
collect op n = cons n nil

abbrev pub is_logic_op : Bytes → Bool
is_logic_op op = equal op (codes "and") || equal op (codes "or")

module _ (d : Deps) where
  -- `numLit`
  unfoldable pub num_lit : Node → Option d.Float
  num_lit (int_node v) = some (d.float_of_int v)
  num_lit (float_node text) = some (d.parse_float text)
  num_lit _ = none

  -- the case 'j' of `buildCmp`, on the literal as a string or a number
  unfoldable pub build_json : Bytes → Bytes → Option Bytes → Option d.Float → Result (Predicate d)
  build_json path op (some s) num =
      if not_equality op then err json_operator else ok (json_str_pred path op s)
  build_json path op none (some num) = ok (json_num_pred path op num)
  build_json path op none none = err json_literal

  -- `buildCmp`
  unfoldable pub build_cmp : FieldInfo → Bytes → Node → Result (Predicate d)
  unfolding sev_threshold build_json num_lit
  build_cmp (meta_field f) op lit =
      if not_equality op
      then err meta_operator
      else (or_error (str_lit lit) meta_literal >>= λ s. ok (meta_pred f s (equal op (codes "!="))))
  build_cmp severity_field op lit =
      or_error (sev_threshold lit) severity_literal >>= λ th. ok (severity_pred op th)
  build_cmp (logfmt_field key) op lit =
      if not_equality op
      then err logfmt_operator
      else (or_error (str_lit lit) logfmt_literal >>= λ s. ok (logfmt_pred key op s))
  build_cmp (json_field path) op lit = build_json path op (str_lit lit) (num_lit lit)

  -- the switch of `compileCmp`
  unfoldable pub compare_sides :
      Bytes → Node → Node → Option FieldInfo → Option FieldInfo → Result (Predicate d)
  unfolding build_cmp flip_op
  compare_sides op l r (some lf) none = build_cmp lf op r
  compare_sides op l r none (some rf) = build_cmp rf (flip_op op) l
  compare_sides op l r (some lf) (some rf) = err two_fields
  compare_sides op l r none none = err no_field

  -- `compileCmp`
  unfoldable pub compile_cmp : Bytes → Node → Node → Result (Predicate d)
  unfolding classify_field compare_sides
  compile_cmp op l r = do lf ← classify_field l; rf ← classify_field r; compare_sides op l r lf rf

  -- `literalPrefix`
  unfoldable pub literal_prefix : d.Regex → Bytes → Option Bytes
  literal_prefix re pat =
      if not (has_prefix pat (codes "^")) || contains pat (codes "|")
      then none
      else if equal (d.literal_prefix_of re) []
      then none
      else some (d.literal_prefix_of re)

  -- the case "matches" of `compileBoolCall`
  unfoldable pub compile_matches : Bytes → Result (Predicate d)
  unfolding literal_prefix
  compile_matches s = or_error (d.compile_regex s) (bad_pattern s) >>= λ re.
      ok (regex_pred re (literal_prefix re s))

  -- `compileBoolCall`
  unfoldable pub compile_bool_call : Bytes → Nodes → Result (Predicate d)
  unfolding line_str_arg2 compile_matches
  compile_bool_call name args =
      if equal name (codes "contains")
      then (line_str_arg2 name args >>= λ s. ok (substr_pred anywhere s))
      else if equal name (codes "hasPrefix")
      then (line_str_arg2 name args >>= λ s. ok (substr_pred prefix s))
      else if equal name (codes "hasSuffix")
      then (line_str_arg2 name args >>= λ s. ok (substr_pred suffix s))
      else if equal name (codes "matches")
      then (line_str_arg2 name args >>= compile_matches)
      else if equal name (codes "json")
          || equal name (codes "logfmt")
          || equal name (codes "severity")
      then err (must_be_compared name)
      else err (unknown_function name)

  -- the loop of `compileAndOr` over `flat`
  unfoldable pub compile_kids : (Node → Result (Predicate d)) → Nodes → Result (Predicates d)
  compile_kids call nil = ok none_left
  compile_kids call (cons n ns) = do k ← call n; ks ← compile_kids call ns; ok (one_more k ks)

  -- the end of `compileAndOr`
  unfoldable pub join_kids : Bytes → Predicates d → Predicate d
  unfolding sort_by_cost total_cost
  join_kids op kids =
      let sorted = sort_by_cost d kids in
      let total = total_cost d sorted in
      if equal op (codes "and") then and_pred sorted total else or_pred sorted total

  -- `compileBool`, with `compileAndOr`. The nodes that `collect` finds are no structural parts, so
  -- a call costs a unit of fuel; the height of the tree is enough.
  unfoldable pub compile_bool : ℕ → Node → Result (Predicate d)
  unfolding compile_cmp compile_bool_call compile_kids join_kids collect
  compile_bool zero n = out_of_fuel
  compile_bool (suc f) (bin_node op l r) =
      let logic =
        (compile_kids (λ n. compile_bool f n) (collect op (bin_node op l r)) >>= λ kids.
        ok (join_kids op kids)) in
      if is_logic_op op then logic else compile_cmp op l r
  compile_bool (suc f) (not_node x) = compile_bool f x >>= λ p. ok (not_pred p)
  compile_bool (suc f) (call_node name args) = compile_bool_call name args
  compile_bool (suc f) (bool_node b) = ok (const_pred b)
  compile_bool (suc f) (ident_node name) = err (lone_identifier name)
  compile_bool (suc f) (str_node s) = err not_a_condition
  compile_bool (suc f) (int_node v) = err not_a_condition
  compile_bool (suc f) (float_node t) = err not_a_condition

-- the nesting of conditions
unfoldable pub height : Node → ℕ
height (bin_node op l r) = suc (max (height l) (height r))
height (not_node x) = suc (height x)
height _ = 1

-- the white space of `strings.TrimSpace`, by the length of its UTF-8 form
abbrev is_space1 : ℕ → Bool
is_space1 c = c == b' ' || (leb 9 c && leb c 13)

abbrev is_space2 : ℕ → ℕ → Bool
is_space2 a b = a == 0xc2 && (b == 0x85 || b == 0xa0)

abbrev is_space3 : ℕ → ℕ → ℕ → Bool
is_space3 a b c =
    (a == 0xe1 && b == 0x9a && c == 0x80)
    || (a == 0xe2
        && b == 0x80
        && ((leb 0x80 c && leb c 0x8a) || c == 0xa8 || c == 0xa9 || c == 0xaf))
    || (a == 0xe2 && b == 0x81 && c == 0x9f)
    || (a == 0xe3 && b == 0x80 && c == 0x80)

-- `strings.TrimSpace(src) == ""`
unfoldable pub all_blank : Bytes → Bool
all_blank [] = true
all_blank (a ∷ []) = is_space1 a
all_blank (a ∷ b ∷ []) = (is_space1 a && is_space1 b) || is_space2 a b
all_blank (a ∷ b ∷ c ∷ s) =
    let one = all_blank (b ∷ c ∷ s) in
    let two = all_blank (c ∷ s) in
    let three = all_blank s in
    if is_space1 a
    then one
    else if is_space2 a b
    then two
    else if is_space3 a b c
    then three
    else false

-- `Compile`: a blank source is the nil filter
unfoldable pub compile : (d : Deps) → Bytes → Result (Filter d)
unfolding parse compile_bool all_blank height
compile d src =
    let filter = (do n ← parse src; root ← compile_bool d (height n) n; ok (some root)) in
    if all_blank src then ok none else filter

-- `Validate`
unfoldable pub validate : (d : Deps) → Bytes → Result (Unit {0})
unfolding compile
validate d src = compile d src >>= λ _. ok tt
