-- ===== src/LogFilter/Plan/Meaning.antt =====
-- What a filter expression means: the operands in the order and on the sides in which the author
-- wrote them, with no regard to cost, and regular expressions with no prefix test.
use zordon.Base.{
  Bool, true, false, not, ◌&&◌, ◌||◌, [], Option, none, some, if◌then◌else◌, eqb_ℤ, Bytes, codes,
  equal, has_prefix, contains, has_suffix,
}
use zordon.LogFilter.Ast.{
  Node, bin_node, not_node, call_node, ident_node, str_node, int_node, float_node, bool_node, Nodes,
  nil, cons,
}
use zordon.LogFilter.Deps.{Deps, plain_anchor}
use zordon.LogFilter.Plan.{
  FieldInfo, meta_field, severity_field, json_field, logfmt_field, str_lit, sev_threshold, num_lit,
  classify_field,
}
use zordon.LogFilter.Predicate.{MetaField, stream, service, Line, cmp_int, cmp_str, cmp_float}
use zordon.LogFilter.Result.{Result, ok}
use zordon.LogFilter.Severity.{severity_unknown, scan_severity, scan_logfmt}

-- the side of a comparison that is read off the line
abbrev pub as_field : Result (Option FieldInfo) → Option FieldInfo
as_field (ok o) = o
as_field _ = none

abbrev pub meta_value : MetaField → Line → Bytes
meta_value stream l = l.stream_name
meta_value service l = l.service_name

-- On which side of the operator the field stands.
pub data Side : Type 0 where
  field_first field_last : Side

abbrev pub on_side {ℓ} : {A : Type ℓ} → Side → (A → Bytes → A → Bool) → A → Bytes → A → Bool
on_side field_first cmp field op lit = cmp field op lit
on_side field_last cmp field op lit = cmp lit op field

abbrev pub test {ℓ} : {A : Type ℓ} → Option A → (A → Bool) → Bool
test none p = false
test (some a) p = p a

abbrev pub second_text : Nodes → Bytes
second_text (cons a (cons (str_node s) nil)) = s
second_text _ = []

-- whether no pattern of the expression begins with a `^` that is repeated
unfoldable pub plain_anchors : Node → Bool
unfolding plain_anchor
plain_anchors (bin_node op a b) = plain_anchors a && plain_anchors b
plain_anchors (not_node x) = plain_anchors x
plain_anchors (call_node name args) =
    not (equal name (codes "matches")) || plain_anchor (second_text args)
plain_anchors _ = true

module _ (d : Deps) where
  -- A comparison of a field and a literal; a field that the line lacks makes it false.
  unfoldable pub eval_field : Side → Line → FieldInfo → Bytes → Node → Bool
  eval_field side l (meta_field f) op lit =
      test (str_lit lit) λ s. on_side side cmp_str (meta_value f l) op s
  eval_field side l severity_field op lit = test (sev_threshold lit) λ th.
      if eqb_ℤ (scan_severity l.raw) severity_unknown
      then false
      else on_side side cmp_int (scan_severity l.raw) op th
  eval_field side l (logfmt_field key) op lit =
      test (str_lit lit) λ s. test (scan_logfmt l.raw key) λ v. on_side side cmp_str v op s
  eval_field side l (json_field path) op (str_node s) =
      (d.get_bytes l.raw path).exists && on_side side cmp_str (d.get_bytes l.raw path).text op s
  eval_field side l (json_field path) op lit = test (num_lit d lit) λ n.
      (d.get_bytes l.raw path).exists
      && (d.get_bytes l.raw path).is_number
      && on_side side (cmp_float d) (d.get_bytes l.raw path).num op n

  unfoldable pub eval_sides :
      Line → Bytes → Node → Node → Option FieldInfo → Option FieldInfo → Bool
  eval_sides l op a b (some f) _ = eval_field field_first l f op b
  eval_sides l op a b none (some f) = eval_field field_last l f op a
  eval_sides l op a b none none = false

  unfoldable pub eval_call : Line → Bytes → Bytes → Bool
  unfolding contains has_prefix has_suffix
  eval_call l name s =
      if equal name (codes "contains")
      then contains l.raw s
      else if equal name (codes "hasPrefix")
      then has_prefix l.raw s
      else if equal name (codes "hasSuffix")
      then has_suffix l.raw s
      else test (d.compile_regex s) (λ re. d.regex_match re l.raw)

  -- the truth of an expression on a line
  unfoldable pub eval : Line → Node → Bool
  unfolding eval_sides eval_call eval_field
  eval l (bin_node op a b) =
      let both = eval l a && eval l b in
      let either = eval l a || eval l b in
      if equal op (codes "and")
      then both
      else if equal op (codes "or")
      then either
      else eval_sides l op a b (as_field (classify_field a)) (as_field (classify_field b))
  eval l (not_node x) = not (eval l x)
  eval l (call_node name args) = eval_call l name (second_text args)
  eval l (bool_node b) = b
  eval l (ident_node name) = false
  eval l (str_node s) = false
  eval l (int_node v) = false
  eval l (float_node t) = false
