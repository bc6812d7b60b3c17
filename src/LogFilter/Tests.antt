-- ===== src/LogFilter/Tests.antt =====
-- Runs of the filter on small inputs, and the theorems at inputs that meet their hypotheses.
use zordon.Base.{
  free, ◌≡◌, ◌≢◌, refl, Bool, true, false, [], ◌∷◌, ◌++◌, none, some, arith, if◌then◌else◌, length,
  drop, ℤ, pos, negsuc, ltb_ℤ, leb_ℤ, eqb_ℤ, Bytes, codes, equal, has_prefix,
}
use zordon.LogFilter.Ast.{Node, bin_node, not_node, ident_node, str_node, int_node, bool_node}
use zordon.LogFilter.Result.{Result, ok, out_of_fuel, Ensures}
use zordon.LogFilter.Lexer.{lex}
use zordon.LogFilter.Parser.{parse}
use zordon.LogFilter.Deps.{Deps}
use zordon.LogFilter.Lexer.Sound.{IsLexed, lex-IsLexed}
use zordon.LogFilter.Parser.Ends.{parse-ne-out_of_fuel}
use zordon.LogFilter.Plan.{flip_op}
use zordon.LogFilter.Plan.Meaning.{plain_anchors}
use zordon.LogFilter.Plan.Flip.{cmp_str-flip_op}
use zordon.LogFilter.Severity.{spent, value_after_key, logfmt_loop, scan_logfmt}
use zordon.LogFilter.Severity.Fuel.{scanners-end}
use zordon.LogFilter.Severity.Logfmt.{scan_logfmt-quoted, scan_logfmt-bare}
use zordon.LogFilter.Predicate.{
  Line, Predicates, anywhere, none_left, one_more, substr_pred, regex_pred, const_pred, cmp_str,
  sort_by_cost,
}
use zordon.LogFilter.Predicate.Order.{
  Ascending, at_cost, sort_by_cost-Ascending, at_cost-sort_by_cost,
}

parse-and :
    parse (codes "not (true or stream == \"a\") and 1 < -2")
    ≡ ok (
        bin_node
          (codes "and")
          (not_node (
            bin_node
              (codes "or")
              (bool_node true)
              (bin_node (codes "==") (ident_node (codes "stream")) (str_node (codes "a")))))
          (bin_node (codes "<") (int_node (pos 1)) (int_node (negsuc 1))))
unfolding parse equal
parse-and = refl

-- A string whose text is ")" closes a group: `parsePrimary` looks at the text of the token alone.
parse-string_close : parse (codes "(true \")\"") ≡ ok (bool_node true)
unfolding parse equal
parse-string_close = refl

-- A library whose only expressions are `^` and a text to begin with, whose floats are integers,
-- and whose JSON documents have no fields.
abbrev prefixes : Deps
prefixes = record {
  Float = ℤ;
  float_eq = eqb_ℤ;
  float_lt = ltb_ℤ;
  float_le = leb_ℤ;
  float_of_int = λ n. n;
  parse_float = λ s. pos (length s);
  Regex = Bytes;
  compile_regex = λ s. if has_prefix s (codes "^") then some (drop 1 s) else none;
  regex_match = λ re raw. has_prefix raw re;
  literal_prefix_of = λ re. re;
  get_bytes = λ raw path. record { exists = false; is_number = false; text = []; num = pos 0 };
}

abbrev quiet : Bytes
quiet =
    codes "matches(line, \"^GET /health\") or WARN > severity(line) and not (stream == \"stderr\")"

abbrev is_plain : Result Node → Bool
is_plain (ok n) = plain_anchors n
is_plain _ = true

lex-IsLexed_example : Ensures (IsLexed quiet 0) (lex quiet)
lex-IsLexed_example = lex-IsLexed quiet

parse-ne-out_of_fuel_example : parse quiet ≢ out_of_fuel
parse-ne-out_of_fuel_example = parse-ne-out_of_fuel quiet

abbrev kids : Predicates prefixes
kids =
    one_more (regex_pred (codes "GET") none)
      (one_more (substr_pred anywhere (codes "health")) (one_more (const_pred true) none_left))

abbrev line : Line
line = record {
  raw = codes "GET /health";
  stream_name = codes "stdout";
  service_name = codes "api";
}

sort_by_cost-Ascending_example : Ascending prefixes 0 (sort_by_cost prefixes kids)
sort_by_cost-Ascending_example = sort_by_cost-Ascending prefixes kids

at_cost-sort_by_cost_example :
    at_cost prefixes 1 (sort_by_cost prefixes kids) ≡ at_cost prefixes 1 kids
at_cost-sort_by_cost_example = at_cost-sort_by_cost prefixes 1 kids

cmp_str-flip_op_example :
    cmp_str (codes "a") (flip_op (codes "!=")) (codes "b")
    ≡ cmp_str (codes "b") (codes "!=") (codes "a")
cmp_str-flip_op_example = cmp_str-flip_op (codes "a") (codes "!=") (codes "b")

scanners-end_example :
    ((value_after_key 40 (codes "level") (codes "a level= level=warn") ≢ spent)
      × (value_after_key 40 (codes "level") (codes "a level= level=warn")
          ≡ value_after_key 20 (codes "level") (codes "a level= level=warn")))
    × ((logfmt_loop 40 (codes "a level= level=warn") (codes "level") 0 ≢ spent)
        × (logfmt_loop 40 (codes "a level= level=warn") (codes "level") 0
            ≡ logfmt_loop 20 (codes "a level= level=warn") (codes "level") 0))
scanners-end_example =
    scanners-end (codes "a level= level=warn") (codes "level") 40 20 (omega arith) (omega arith)
      (omega arith)

scan_logfmt-quoted_example :
    scan_logfmt
      ((codes "msg" ++ b'=' ∷ []) ++ (b'"' ∷ (codes "a b" ++ b'"' ∷ codes " x")))
      (codes "msg")
    ≡ some (codes "a b")
unfolding free
scan_logfmt-quoted_example = scan_logfmt-quoted (codes "msg") (codes "a b") (codes " x") refl

scan_logfmt-bare_example :
    (scan_logfmt ((codes "user" ++ b'=' ∷ []) ++ (b'b' ∷ codes "ob")) (codes "user")
      ≡ some (codes "bob"))
    × (scan_logfmt
          ((codes "user" ++ b'=' ∷ []) ++ ((b'b' ∷ codes "ob") ++ b' ' ∷ codes "x=1"))
          (codes "user")
        ≡ some (codes "bob"))
unfolding free
scan_logfmt-bare_example = scan_logfmt-bare (codes "user") b'b' (codes "ob") (codes "x=1") refl refl
