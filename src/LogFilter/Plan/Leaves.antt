-- ===== src/LogFilter/Plan/Leaves.antt =====
-- plan.go: the predicates of comparisons and calls against the meaning of these.
use zordon.LogFilter.Severity.{scan_severity, scan_logfmt, severity_unknown}
use zordon.Base.{
  ◌≡◌, refl, ◌∙◌, Bool, true, false, not, ◌&&◌, ◌||◌, Option, none, some, arith, if◌then◌else◌, ℤ,
  eqb_ℤ, Bytes, codes, equal,
}
use zordon.LogFilter.Ast.{
  Node, call_node, ident_node, str_node, int_node, float_node, Nodes, nil, cons,
}
use zordon.LogFilter.Deps.{Deps, IsLawful, plain_anchor}
use zordon.LogFilter.Plan.Flip.{cmp_int-flip_op, cmp_float-flip_op, cmp_str-flip_op}
use zordon.LogFilter.Plan.Meaning.{
  as_field, meta_value, Side, field_first, field_last, on_side, test, eval_field, eval_sides,
  eval_call, second_text, plain_anchors,
}
use zordon.LogFilter.Plan.{
  FieldInfo, meta_field, severity_field, json_field, logfmt_field, str_lit, sev_threshold, num_lit,
  classify_field, flip_op, not_equality, or_error, build_json, line_arg1, build_cmp, compare_sides,
  compile_cmp, literal_prefix, compile_matches, compile_bool_call, line_str_arg2, is_line, str_arg,
}
use zordon.LogFilter.Predicate.{
  SubstrMode, anywhere, prefix, suffix, MetaField, stream, service, Line, cmp_int, cmp_str,
  cmp_float, Predicate, match, match_meta, match_substr, match_regex, match_json_str,
  match_json_num, match_severity, match_logfmt, substr_pred,
}
use zordon.LogFilter.Result.{
  Error, Result, ok, ◌>>=◌, Ensures, holds, failed, Ensures-if, Ensures-bind,
}

abbrev side_op : Side → Bytes → Bytes
side_op field_first op = op
side_op field_last op = flip_op op

Ensures-or_error {ℓ κ} :
    {A : Type ℓ} {B : Type ℓ} {Q : B → Type κ} (o : Option A) (e : Error) {k : A → Result B}
    → ((a : A) → o ≡ some a → Ensures Q (k a))
    → Ensures Q (or_error o e >>= k)
Ensures-or_error none e h = failed
Ensures-or_error (some a) e h = h a refl

cmp_str-side :
    (side : Side) (a op b : Bytes) → cmp_str a (side_op side op) b ≡ on_side side cmp_str a op b
cmp_str-side field_first a op b = refl
cmp_str-side field_last a op b = cmp_str-flip_op a op b

cmp_int-side :
    (side : Side) (a : ℤ) (op : Bytes) (b : ℤ)
    → cmp_int a (side_op side op) b ≡ on_side side cmp_int a op b
cmp_int-side field_first a op b = refl
cmp_int-side field_last a op b = cmp_int-flip_op a op b

match_meta-cmp_str :
    (d : Deps) (f : MetaField) (s op : Bytes) (l : Line)
    → match_meta d f s (equal op (codes "!=")) l ≡ cmp_str (meta_value f l) op s
unfolding match_meta cmp_str
match_meta-cmp_str d stream s op l = refl
match_meta-cmp_str d service s op l = refl

str_arg-second_text :
    (name : Bytes) (a b : Node)
    → Ensures (λ s. second_text (cons a (cons b nil)) ≡ s) (str_arg name b)
unfolding str_arg
str_arg-second_text name a (str_node s) = holds refl
str_arg-second_text name a _ = failed

line_str_arg2-second_text :
    (name : Bytes) (args : Nodes) → Ensures (λ s. second_text args ≡ s) (line_str_arg2 name args)
unfolding line_str_arg2
line_str_arg2-second_text name (cons a (cons b nil)) =
    Ensures-if (is_line a) (λ _. str_arg-second_text name a b) (λ _. failed)
line_str_arg2-second_text name _ = failed

line_arg1-Returns : (name : Bytes) (args : Nodes) → Ensures (λ _. Unit {0}) (line_arg1 name args)
unfolding line_arg1
line_arg1-Returns name (cons a nil) = Ensures-if (is_line a) (λ _. holds tt) (λ _. failed)
line_arg1-Returns name _ = failed

abbrev Returns : Result (Option FieldInfo) → Type 0
Returns = Ensures (λ _. Unit {0})

classify_field-Returns : (n : Node) → Returns (classify_field n)
unfolding classify_field
classify_field-Returns (ident_node name) =
    Ensures-if (equal name (codes "stream")) (λ _. holds tt)
      λ _. Ensures-if (equal name (codes "service")) (λ _. holds tt) (λ _. holds tt)
classify_field-Returns (call_node name args) =
    Ensures-if (equal name (codes "severity"))
      (λ _. Ensures-bind (line_arg1-Returns name args) (λ _ _. holds tt))
      λ _.
        Ensures-if (equal name (codes "json"))
          (λ _. Ensures-bind (line_str_arg2-second_text name args) (λ _ _. holds tt))
          λ _.
            Ensures-if (equal name (codes "logfmt"))
              (λ _. Ensures-bind (line_str_arg2-second_text name args) (λ _ _. holds tt))
              (λ _. holds tt)
classify_field-Returns _ = holds tt

classify_field-as_field :
    (n : Node) → Ensures (λ o. as_field (classify_field n) ≡ o) (classify_field n)
classify_field-as_field n = keep (classify_field-Returns n)
  where
    keep : {r : Result (Option FieldInfo)} → Returns r → Ensures (λ o. as_field r ≡ o) r
    keep (holds h) = holds refl
    keep failed = failed

module _ (d : Deps) (law : IsLawful d) where
  open law use {float_eq_comm, anchored_prefix}

  cmp_float-side :
      (side : Side) (a : d.Float) (op : Bytes) (b : d.Float)
      → cmp_float d a (side_op side op) b ≡ on_side side (cmp_float d) a op b
  cmp_float-side field_first a op b = refl
  cmp_float-side field_last a op b = cmp_float-flip_op d float_eq_comm a op b

  match_json_str_lem :
      (side : Side) (path op s raw : Bytes)
      → match_json_str d path (side_op side op) s raw
        ≡ ((d.get_bytes raw path).exists && on_side side cmp_str (d.get_bytes raw path).text op s)
  unfolding match_json_str
  match_json_str_lem side path op s raw =
      rw (← cmp_str-side side (d.get_bytes raw path).text op s) (go (d.get_bytes raw path).exists _)
    where
      go : (e b : Bool) → (if not e then false else b) ≡ (e && b)
      go true b = refl
      go false b = refl

  match_json_num_lem :
      (side : Side) (path op : Bytes) (n : d.Float) (raw : Bytes)
      → match_json_num d path (side_op side op) n raw ≡ (
          (d.get_bytes raw path).exists
          && (d.get_bytes raw path).is_number
          && on_side side (cmp_float d) (d.get_bytes raw path).num op n)
  unfolding match_json_num
  match_json_num_lem side path op n raw =
      rw (← cmp_float-side side (d.get_bytes raw path).num op n)
        (go (d.get_bytes raw path).exists (d.get_bytes raw path).is_number _)
    where
      go : (e k b : Bool) → (if not e || not k then false else b) ≡ (e && k && b)
      go true true b = refl
      go true false b = refl
      go false k b = refl

  match_severity_lem :
      (side : Side) (op : Bytes) (th : ℤ) (raw : Bytes)
      → match_severity d (side_op side op) th raw ≡ (
          if eqb_ℤ (scan_severity raw) severity_unknown
          then false
          else on_side side cmp_int (scan_severity raw) op th)
  unfolding match_severity
  match_severity_lem side op th raw = rw (← cmp_int-side side (scan_severity raw) op th)

  match_logfmt_lem :
      (side : Side) (key op s raw : Bytes)
      → match_logfmt d key (side_op side op) s raw
        ≡ test (scan_logfmt raw key) (λ v. on_side side cmp_str v op s)
  unfolding match_logfmt
  match_logfmt_lem side key op s raw = go (scan_logfmt raw key)
    where
      go :
          (o : Option Bytes)
          → elim o as (λ _. Bool) [ none ↦ false | some v ↦ cmp_str v (side_op side op) s ]
            ≡ test o (λ v. on_side side cmp_str v op s)
      go none = refl
      go (some v) = cmp_str-side side v op s

  -- the predicate decides as the Boolean does, on every line
  abbrev pub Decides : (Line → Bool) → Result (Predicate d) → Type 0
  Decides truth = Ensures (λ p. (l : Line) → match d l p ≡ truth l)

  build_json-Decides :
      (side : Side) (path op : Bytes) (lit : Node)
      → Decides
          (λ l. eval_field d side l (json_field path) op lit)
          (build_json d path (side_op side op) (str_lit lit) (num_lit d lit))
  unfolding build_json num_lit eval_field match
  build_json-Decides side path op (str_node s) =
      Ensures-if (not_equality (side_op side op)) (λ _. failed)
        λ _. holds λ l. match_json_str_lem side path op s l.raw
  build_json-Decides side path op (int_node v) =
      holds λ l. match_json_num_lem side path op (d.float_of_int v) l.raw
  build_json-Decides side path op (float_node v) =
      holds λ l. match_json_num_lem side path op (d.parse_float v) l.raw
  build_json-Decides side path op _ = failed

  build_cmp-Decides :
      (side : Side) (f : FieldInfo) (op : Bytes) (lit : Node)
      → Decides (λ l. eval_field d side l f op lit) (build_cmp d f (side_op side op) lit)
  unfolding build_cmp eval_field match
  build_cmp-Decides side (meta_field f) op lit =
      Ensures-if (not_equality (side_op side op)) (λ _. failed)
        λ _. Ensures-or_error (str_lit lit) _ λ s e. holds λ l.
          rw e
            (match_meta-cmp_str d f s (side_op side op) l ∙ cmp_str-side side (meta_value f l) op s)
  build_cmp-Decides side severity_field op lit =
      Ensures-or_error (sev_threshold lit) _
        λ th e. holds λ l. rw e (match_severity_lem side op th l.raw)
  build_cmp-Decides side (logfmt_field key) op lit =
      Ensures-if (not_equality (side_op side op)) (λ _. failed)
        λ _.
          Ensures-or_error (str_lit lit) _
            λ s e. holds λ l. rw e (match_logfmt_lem side key op s l.raw)
  build_cmp-Decides side (json_field path) op lit = build_json-Decides side path op lit

  compare_sides-Decides :
      (op : Bytes) (a b : Node) (lf rf : Option FieldInfo)
      → Decides (λ l. eval_sides d l op a b lf rf) (compare_sides d op a b lf rf)
  unfolding compare_sides eval_sides
  compare_sides-Decides op a b (some f) none = build_cmp-Decides field_first f op b
  compare_sides-Decides op a b none (some f) = build_cmp-Decides field_last f op a
  compare_sides-Decides op a b (some f) (some g) = failed
  compare_sides-Decides op a b none none = failed

  pub compile_cmp-Decides :
      (op : Bytes) (a b : Node)
      → Decides
          (λ l. eval_sides d l op a b (as_field (classify_field a)) (as_field (classify_field b)))
          (compile_cmp d op a b)
  unfolding compile_cmp
  compile_cmp-Decides op a b = Ensures-bind (classify_field-as_field a) λ lf p.
      Ensures-bind (classify_field-as_field b)
        λ rf q. rw (p, q) (compare_sides-Decides op a b lf rf)

  -- The prefix test before an expression changes no answer.
  match_regex_lem :
      (pat : Bytes) (re : d.Regex) (raw : Bytes)
      → plain_anchor pat ≡ true
      → d.compile_regex pat ≡ some re
      → match_regex d re (literal_prefix d re pat) raw ≡ d.regex_match re raw
  unfolding match_regex literal_prefix
  match_regex_lem pat re raw k e = ground (arith, anchored_prefix pat raw re)

  compile_matches-Decides :
      (s : Bytes)
      → plain_anchor s ≡ true
      → Decides (λ l. test (d.compile_regex s) (λ re. d.regex_match re l.raw)) (compile_matches d s)
  unfolding compile_matches match
  compile_matches-Decides s k =
      Ensures-or_error (d.compile_regex s) _
        λ re e. holds λ l. rw e (match_regex_lem s re l.raw k e)

  pub compile_bool_call-Decides :
      (name : Bytes) (args : Nodes)
      → plain_anchors (call_node name args) ≡ true
      → Decides (λ l. eval_call d l name (second_text args)) (compile_bool_call d name args)
  unfolding compile_bool_call eval_call match match_substr plain_anchors
  compile_bool_call-Decides name args k =
      Ensures-if (equal name (codes "contains")) (λ a. substr anywhere λ l. rw a)
        λ a.
          Ensures-if (equal name (codes "hasPrefix")) (λ b. substr prefix λ l. rw (a, b))
            λ b.
              Ensures-if (equal name (codes "hasSuffix")) (λ c. substr suffix λ l. rw (a, b, c))
                λ c.
                  Ensures-if (equal name (codes "matches"))
                    (λ e.
                      Ensures-bind (line_str_arg2-second_text name args)
                        λ s p. rw (a, b, c, p) (compile_matches-Decides s (rw (e, p) at k)))
                    λ e.
                      Ensures-if
                        (equal name (codes "json")
                          || equal name (codes "logfmt")
                          || equal name (codes "severity"))
                        (λ _. failed) (λ _. failed)
    where
      substr :
          (m : SubstrMode)
          → ((l : Line)
              → match_substr d m l.raw (second_text args) ≡ eval_call d l name (second_text args))
          → Decides
              (λ l. eval_call d l name (second_text args))
              (line_str_arg2 name args >>= λ s. ok (substr_pred m s))
      substr m h =
          Ensures-bind (line_str_arg2-second_text name args) λ s p. holds λ l. rw (← p) (h l)
