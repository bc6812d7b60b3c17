-- ===== src/LogFilter/Lexer.antt =====
-- internal/logfilter/parse.go: `lex`, `lexString`, `lexNumber` and the character classes.
-- The rest `src[i:]` is a list of bytes, and `i` goes beside it for the columns.
pub mod Runs
pub mod Sound
use zordon.Base.{
  ℕ, zero, suc, ◌+◌, Bool, false, ◌&&◌, ◌||◌, List, [], ◌∷◌, ◌++◌, Option, none, some, ◌==◌, leb,
  if◌then◌else◌, length, take, drop, Bytes, codes, equal,
}
use zordon.LogFilter.Ast.{TokKind, eof, ident, string, int, float, op, keyword, Token}
use zordon.LogFilter.Result.{
  Result, ok, err, out_of_fuel, ◌>>=◌, bad_operator, bad_character, unterminated_string,
}

abbrev within : ℕ → ℕ → ℕ → Bool
within lo hi c = leb lo c && leb c hi

-- `c >= '0' && c <= '9'`
pub is_digit : ℕ → Bool
is_digit c = within b'0' b'9' c

-- `isIdentStart`
pub is_ident_start : ℕ → Bool
is_ident_start c = within b'a' b'z' c || within b'A' b'Z' c || c == b'_'

-- `isIdentPart`
pub is_ident_part : ℕ → Bool
is_ident_part c = is_ident_start c || is_digit c

-- the escapes of `lexString`
pub unescape : ℕ → ℕ
unescape c = if c == b't' then 9 else if c == b'n' then 10 else if c == b'r' then 13 else c

-- the loop of `lexString`: the rest `s[i:]`, the builder and `i`; `none` is the end of the text
pub string_loop : Bytes → Bytes → ℕ → Option (Bytes × ℕ)
string_loop [] b i = none
string_loop (c ∷ []) b i = if c == b'"' then some (b, i + 1) else none
string_loop (c ∷ d ∷ s) b i =
    let escaped = string_loop s (b ++ unescape d ∷ []) (i + 2) in
    let plain = string_loop (d ∷ s) (b ++ c ∷ []) (i + 1) in
    if c == b'"' then some (b, i + 1) else if c == b'\\' then escaped else plain

-- `lexString`, on the text behind the opening quote
unfoldable pub lex_string : Bytes → ℕ → Result (Bytes × ℕ)
unfolding string_loop unescape
lex_string s col = elim (string_loop s [] 1) [
  | some r ↦ ok r
  | none ↦ err (unterminated_string col)
]

-- the loop of `lexNumber`: `i` and `dot` at the end of the run of digits and dots
pub number_loop : Bytes → ℕ → Bool → ℕ × Bool
unfolding is_digit
number_loop [] i dot = (i, dot)
number_loop (c ∷ s) i dot =
    if is_digit c || c == b'.' then number_loop s (i + 1) (dot || c == b'.') else (i, dot)

-- `lexNumber`
unfoldable pub lex_number : Bytes → ℕ → Token × ℕ
unfolding number_loop
lex_number [] col = (record { kind = int; text = []; col = col }, 0)
lex_number (c ∷ s) col =
    let (i, dot) = if c == b'-' then number_loop s 1 false else number_loop (c ∷ s) 0 false in
    (record { kind = if dot then float else int; text = take i (c ∷ s); col = col }, i)

-- `for j < n && isIdentPart(src[j]) { j++ }`: the bytes that the loop passes
pub ident_run : Bytes → ℕ
unfolding is_ident_part is_ident_start is_digit
ident_run [] = 0
ident_run (c ∷ s) = let more = suc (ident_run s) in if is_ident_part c then more else 0

abbrev pub is_keyword : Bytes → Bool
is_keyword w = equal w (codes "and") || equal w (codes "or") || equal w (codes "not")

abbrev pub next_is : (ℕ → Bool) → Bytes → Bool
next_is p [] = false
next_is p (c ∷ s) = p c

abbrev pub Step : Type 0
Step = Option Token × ℕ

abbrev emit : TokKind → Bytes → ℕ → ℕ → Result Step
emit k w i adv = ok (some (record { kind = k; text = w; col = i + 1 }), adv)

abbrev pub is_space : ℕ → Bool
is_space c = c == b' ' || c == 9 || c == 10 || c == 13

abbrev pub is_punct : ℕ → Bool
is_punct c = c == b'(' || c == b')' || c == b','

abbrev pub is_cmp_start : ℕ → Bool
is_cmp_start c = c == b'=' || c == b'!' || c == b'<' || c == b'>'

-- `case c == '=' || …`
unfoldable pub lex_cmp : ℕ → ℕ → Bytes → Result Step
lex_cmp i c s =
    if next_is (λ d. d == b'=') s
    then emit op (c ∷ b'=' ∷ []) i 2
    else if c == b'<' || c == b'>'
    then emit op (c ∷ []) i 1
    else err (bad_operator (c ∷ []) (i + 1))

-- one turn of the loop of `lex` at `src[i] = c`, with `s = src[i+1:]`: the token, if the turn
-- makes one, and how far `i` moves
unfoldable pub lex_step : ℕ → ℕ → Bytes → Result Step
unfolding lex_cmp lex_string lex_number ident_run is_digit is_ident_start
lex_step i c s =
    if is_space c
    then ok (none, 1)
    else if is_punct c
    then emit op (c ∷ []) i 1
    else if is_cmp_start c
    then lex_cmp i c s
    else if c == b'"'
    then (lex_string s (i + 1) >>= λ (w, adv). emit string w i adv)
    else if is_digit c || (c == b'-' && next_is is_digit s)
    then (let (t, adv) = lex_number (c ∷ s) (i + 1) in ok (some t, adv))
    else if is_ident_start c
    then (let j = suc (ident_run s) in
        let word = take j (c ∷ s) in emit (if is_keyword word then keyword else ident) word i j)
    else err (bad_character (c ∷ []) (i + 1))

abbrev pub push_token : Option Token → List Token → List Token
push_token none ts = ts
push_token (some t) ts = t ∷ ts

-- the loop of `lex` over `src[i:]`, with the final `tEOF`
unfoldable pub lex_from : ℕ → ℕ → Bytes → Result (List Token)
unfolding lex_step
lex_from fuel i [] = ok (record { kind = eof; text = []; col = i + 1 } ∷ [])
lex_from zero i (c ∷ s) = out_of_fuel
lex_from (suc f) i (c ∷ s) = do
  (t, adv) ← lex_step i c s
  rest ← lex_from f (i + adv) (drop adv (c ∷ s))
  ok (push_token t rest)

-- `lex`: each turn passes a byte, so the length is fuel enough
unfoldable pub lex : Bytes → Result (List Token)
unfolding lex_from
lex src = lex_from (length src) 0 src
