-- ===== src/LogFilter/Parser.antt =====
-- internal/logfilter/parse.go: the recursive-descent parser. The parser's `toks` and `pos` are a
-- cursor: the token at `pos` and those behind it. What a call leaves of the input is no structural
-- part of it, so each call costs a unit of fuel.
use Prim.Native.Nat.{◌^◌, min}
pub mod Ends
use zordon.Base.{
  ℕ, zero, suc, ◌+◌, ◌-◌, ◌*◌, Bool, true, false, ◌&&◌, ◌||◌, List, [], ◌∷◌, ◌==◌, if◌then◌else◌,
  length, ℤ, pos, negsuc, Bytes, codes, equal,
}
use zordon.LogFilter.Ast.{
  TokKind, eof, ident, string, int, float, op, keyword, Token, Node, bin_node, not_node, call_node,
  ident_node, str_node, int_node, float_node, bool_node, Nodes, nil, snoc,
}
use zordon.LogFilter.Lexer.{lex}
use zordon.LogFilter.Result.{
  Result, ok, err, out_of_fuel, ◌>>=◌, unexpected_token, expected_close, expected_comma_or_close,
}

-- `parser`
pub record Cursor : Type 0 where
  pub head : Token
  pub rest : List Token

-- `p.pos++` of `next`, which stays at the last token
abbrev pub advance_to : Token → List Token → Cursor
advance_to t [] = record { head = t; rest = [] }
advance_to t (u ∷ us) = record { head = u; rest = us }

abbrev pub advance : Cursor → Cursor
advance c = advance_to c.head c.rest

abbrev pub is_keyword_kind : TokKind → Bool
is_keyword_kind keyword = true
is_keyword_kind _ = false

abbrev pub is_op_kind : TokKind → Bool
is_op_kind op = true
is_op_kind _ = false

-- `p.peek().kind == tKeyword && p.peek().text == w`
abbrev pub at_keyword : Bytes → Cursor → Bool
at_keyword w c = is_keyword_kind c.head.kind && equal c.head.text w

-- `p.peek().kind == tOp && p.peek().text == w`
abbrev pub at_op : Bytes → Cursor → Bool
at_op w c = is_op_kind c.head.kind && equal c.head.text w

-- `isCmpOp`
pub is_cmp_op : Bytes → Bool
is_cmp_op s =
    equal s (codes "==")
    || equal s (codes "!=")
    || equal s (codes "<")
    || equal s (codes "<=")
    || equal s (codes ">")
    || equal s (codes ">=")

digits_value : ℕ → Bytes → ℕ
digits_value n [] = n
digits_value n (c ∷ s) = digits_value (10 * n + (c - b'0')) s

-- `strconv.ParseInt(text, 10, 64)` on the text of a `tInt`, with the bound that it returns out of
-- range, since the error is dropped
pub parse_int : Bytes → ℤ
unfolding digits_value
parse_int [] = pos 0
parse_int (c ∷ s) =
    if c == b'-'
    then negated (min (digits_value 0 s) (2 ^ 63))
    else pos (min (digits_value 0 (c ∷ s)) (2 ^ 63 - 1))
  where
    negated : ℕ → ℤ
    negated zero = pos zero
    negated (suc n) = negsuc n

abbrev pub is_bool_word : Bytes → Bool
is_bool_word w = equal w (codes "true") || equal w (codes "false")

abbrev pub Parse : Type 0
Parse = Result (Node × Cursor)

-- the end of `parseCall`'s loop body and of a group: on `p.peek().text` alone
abbrev pub close : Node → Cursor → Parse
close n c =
    if equal c.head.text (codes ")") then ok (n, advance c) else err (expected_close c.head.col)

-- the switch of `parseValue` on the kind of the token taken; `call` is the call of `parseCall`
abbrev pub value_at : TokKind → Cursor → (Unit {0} → Parse) → Parse
value_at string c call = ok (str_node c.head.text, advance c)
value_at int c call = ok (int_node (parse_int c.head.text), advance c)
value_at float c call = ok (float_node c.head.text, advance c)
value_at ident c call =
    if is_bool_word c.head.text
    then ok (bool_node (equal c.head.text (codes "true")), advance c)
    else if at_op (codes "(") (advance c)
    then call tt
    else ok (ident_node c.head.text, advance c)
value_at _ c call = err (unexpected_token c.head.text c.head.col)

unfoldable mutual
  unfolding is_cmp_op parse_int

  -- `parseOr`, and `parseExpr`
  pub parse_or : ℕ → Cursor → Parse
  parse_or zero c = out_of_fuel
  parse_or (suc f) c = do (l, c') ← parse_and f c; or_loop f l c'

  -- `for p.peek() is "or"`
  pub or_loop : ℕ → Node → Cursor → Parse
  or_loop zero l c = out_of_fuel
  or_loop (suc f) l c =
      let more = do (r, c') ← parse_and f (advance c); or_loop f (bin_node (codes "or") l r) c'
      in if at_keyword (codes "or") c then more else ok (l, c)

  -- `parseAnd`
  pub parse_and : ℕ → Cursor → Parse
  parse_and zero c = out_of_fuel
  parse_and (suc f) c = do (l, c') ← parse_not f c; and_loop f l c'

  -- `for p.peek() is "and"`
  pub and_loop : ℕ → Node → Cursor → Parse
  and_loop zero l c = out_of_fuel
  and_loop (suc f) l c =
      let more = do (r, c') ← parse_not f (advance c); and_loop f (bin_node (codes "and") l r) c'
      in if at_keyword (codes "and") c then more else ok (l, c)

  -- `parseNot`
  pub parse_not : ℕ → Cursor → Parse
  parse_not zero c = out_of_fuel
  parse_not (suc f) c =
      let negation = (do (x, c') ← parse_not f (advance c); ok (not_node x, c')) in
      let primary = parse_primary f c in if at_keyword (codes "not") c then negation else primary

  -- `parsePrimary`
  pub parse_primary : ℕ → Cursor → Parse
  parse_primary zero c = out_of_fuel
  parse_primary (suc f) c =
      let group = (do (n, c') ← parse_or f (advance c); close n c') in
      let plain = (do (left, c') ← parse_value f c; comparison f left c') in
      if at_op (codes "(") c then group else plain

  -- the part of `parsePrimary` behind the left value
  pub comparison : ℕ → Node → Cursor → Parse
  comparison zero left c = out_of_fuel
  comparison (suc f) left c =
      let compared = do
        (right, c') ← parse_value f (advance c)
        ok (bin_node c.head.text left right, c')
      in if is_op_kind c.head.kind && is_cmp_op c.head.text then compared else ok (left, c)

  -- `parseValue`
  pub parse_value : ℕ → Cursor → Parse
  parse_value zero c = out_of_fuel
  parse_value (suc f) c = value_at c.head.kind c (λ _. parse_call f c.head.text (advance c))

  -- `parseCall`, at the parenthesis
  pub parse_call : ℕ → Bytes → Cursor → Parse
  parse_call zero name c = out_of_fuel
  parse_call (suc f) name c =
      let args = call_args f name nil (advance c) in
      if equal (advance c).head.text (codes ")")
      then ok (call_node name nil, advance (advance c))
      else args

  -- the loop of `parseCall`
  pub call_args : ℕ → Bytes → Nodes → Cursor → Parse
  call_args zero name args c = out_of_fuel
  call_args (suc f) name args c = do
    (arg, c') ← parse_value f c
    after_arg f name (snoc args arg) c'

  -- `switch p.peek().text`
  pub after_arg : ℕ → Bytes → Nodes → Cursor → Parse
  after_arg zero name args c = out_of_fuel
  after_arg (suc f) name args c =
      let more = call_args f name args (advance c) in
      if equal c.head.text (codes ",")
      then more
      else if equal c.head.text (codes ")")
      then ok (call_node name args, advance c)
      else err (expected_comma_or_close c.head.col)

-- The lexer returns at least its `tEOF`, so the case of no token does not arise.
abbrev pub cursor : List Token → Cursor
cursor [] = record { head = record { kind = eof; text = []; col = 0 }; rest = [] }
cursor (t ∷ ts) = record { head = t; rest = ts }

abbrev pub parse_fuel : Cursor → ℕ
parse_fuel c = 10 * length c.rest + 10

abbrev pub at_eof : TokKind → Bool
at_eof eof = true
at_eof _ = false

-- the end of `parse`
pub finish : Node × Cursor → Result Node
finish (n, c) = if at_eof c.head.kind then ok n else err (unexpected_token c.head.text c.head.col)

-- `parse` on the lexer's tokens
unfoldable pub parse_tokens : List Token → Result Node
unfolding parse_or finish
parse_tokens ts = parse_or (parse_fuel (cursor ts)) (cursor ts) >>= finish

-- `parse`
unfoldable pub parse : Bytes → Result Node
unfolding parse_tokens lex
parse src = do ts ← lex src; parse_tokens ts
