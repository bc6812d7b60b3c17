-- ===== src/LogFilter/Lexer/Runs.antt =====
-- parse.go: how far the inner loops of the lexer go.
use zordon.Base.{
  ℕ, ◌+◌, ◌≤◌, ◌<◌, ◌≡◌, ◌≢◌, Bool, true, false, ◌||◌, [], ◌∷◌, ◌++◌, some, arith, ◌==◌, length,
  take, Bytes,
}
use zordon.LogFilter.Ast.{eof}
use zordon.LogFilter.Lexer.{is_digit, unescape, string_loop, number_loop, lex_number, ident_run}

pub string_loop-bounds :
    (s b : Bytes) (i : ℕ) {w : Bytes} {j : ℕ}
    → string_loop s b i ≡ some (w, j)
    → (i < j) × (j ≤ i + length s)
unfolding string_loop
string_loop-bounds [] b i {w} {j} e = cc
string_loop-bounds (c ∷ []) b i {w} {j} e = ground arith
string_loop-bounds (c ∷ d ∷ s) b i {w} {j} e = ground (
  arith,
  string_loop-bounds s (b ++ unescape d ∷ []) (i + 2) {w = w} {j = j},
  string_loop-bounds (d ∷ s) (b ++ c ∷ []) (i + 1) {w = w} {j = j},
)

pub number_loop-bounds :
    (s : Bytes) (i : ℕ) (dot : Bool)
    → (i ≤ (number_loop s i dot).0) × ((number_loop s i dot).0 ≤ i + length s)
unfolding number_loop
number_loop-bounds [] i dot = omega arith
number_loop-bounds (c ∷ s) i dot = ground (arith, number_loop-bounds s (i + 1) (dot || c == b'.'))

pub ident_run-le : (s : Bytes) → ident_run s ≤ length s
unfolding ident_run
ident_run-le [] = omega arith
ident_run-le (c ∷ s) = ground (arith, ident_run-le s)

-- A number token is the run of bytes that it passes, and passes at least one.
pub lex_number_lem :
    (c : ℕ) (s : Bytes) (col : ℕ)
    → (is_digit c || c == b'-') ≡ true
    → (1 ≤ (lex_number (c ∷ s) col).1)
      × ((lex_number (c ∷ s) col).1 ≤ length (c ∷ s))
      × ((lex_number (c ∷ s) col).0.col ≡ col)
      × ((lex_number (c ∷ s) col).0.kind ≢ eof)
      × ((lex_number (c ∷ s) col).0.text ≡ take (lex_number (c ∷ s) col).1 (c ∷ s))
unfolding lex_number
lex_number_lem c s col h =
    ground (arith, number_loop-bounds s 1 false, number_loop-bounds s 1 (false || c == b'.'))
