-- ===== src/LogFilter/Deps.antt =====
-- What internal/logfilter calls and this repository does not hold: the regular expressions and
-- floating-point numbers of Go's library, and github.com/tidwall/gjson.
use zordon.Base.{
  ◌≡◌, ◌&&◌, ◌||◌, not, ◌==◌, ℕ, ◌∷◌, Bool, true, false, Option, some, ℤ, Bytes, codes, has_prefix,
  contains,
}

-- what the filter reads of a `gjson.Result`
pub record JsonResult (Float : Type 0) : Type 0 where
  pub exists : Bool
  pub is_number : Bool
  pub text : Bytes
  pub num : Float

pub record Deps : Type 1 where
  pub Float : Type 0
  pub float_eq : Float → Float → Bool
  pub float_lt : Float → Float → Bool
  pub float_le : Float → Float → Bool
  pub float_of_int : ℤ → Float
  -- `strconv.ParseFloat`, whose error the parser drops
  pub parse_float : Bytes → Float
  pub Regex : Type 0
  -- `regexp.Compile`
  pub compile_regex : Bytes → Option Regex
  -- `Regexp.Match`
  pub regex_match : Regex → Bytes → Bool
  -- `Regexp.LiteralPrefix`
  pub literal_prefix_of : Regex → Bytes
  -- `gjson.GetBytes`
  pub get_bytes : Bytes → Bytes → JsonResult Float

-- a sign of repetition in a pattern
abbrev pub repeats : ℕ → Bool
repeats c = c == b'*' || c == b'+' || c == b'?' || c == b'{'

-- whether a `^` that begins the pattern is not repeated, as it is in `^{0}abc`
unfoldable pub plain_anchor : Bytes → Bool
plain_anchor (c ∷ q ∷ pat) = not (c == b'^' && repeats q)
plain_anchor _ = true

-- What the filter relies on: `==` on floats is symmetric. A pattern that begins with a `^` that is
-- not repeated and that has no alternation matches at the beginning of a line only, and a match
-- begins with the literal prefix of the expression.
pub record IsLawful (d : Deps) : Type 0 where
  pub float_eq_comm : (a b : d.Float) → d.float_eq a b ≡ d.float_eq b a
  pub anchored_prefix :
      (pat raw : Bytes) (re : d.Regex)
      → d.compile_regex pat ≡ some re
      → has_prefix pat (codes "^") ≡ true
      → plain_anchor pat ≡ true
      → contains pat (codes "|") ≡ false
      → d.regex_match re raw ≡ true
      → has_prefix raw (d.literal_prefix_of re) ≡ true
