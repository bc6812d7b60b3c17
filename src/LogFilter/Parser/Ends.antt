-- ===== src/LogFilter/Parser/Ends.antt =====
-- parse.go: the tokens that a call of the parser leaves, and the fuel it takes.
use zordon.Base.{
  ℕ, zero, suc, ◌+◌, ◌*◌, ◌≤◌, ◌<◌, ◌≡◌, ◌≢◌, refl, Bool, true, ◌&&◌, List, [], ◌∷◌, arith, length,
  Bytes, codes, equal,
}
use zordon.LogFilter.Ast.{TokKind, eof, ident, string, int, float, Token, Node, Nodes, snoc}
use zordon.LogFilter.Lexer.Sound.{IsLexed, at_end, blank, token, lex-IsLexed}
use zordon.LogFilter.Result.{
  Result, out_of_fuel, Ensures, holds, failed, Ensures-out_of_fuel, Ensures-if, Ensures-bind,
}
use zordon.LogFilter.Parser.{
  Cursor, advance_to, advance, is_op_kind, at_keyword, at_op, is_cmp_op, is_bool_word, Parse, close,
  parse_or, or_loop, parse_and, and_loop, parse_not, parse_primary, comparison, value_at,
  parse_value, parse_call, call_args, after_arg, cursor, finish, parse_tokens, parse, at_eof,
}

-- The last token is a `tEOF`.
abbrev pub EndsAt : Token → List Token → Type 0
EndsAt t [] = t.kind ≡ eof
EndsAt t (u ∷ us) = EndsAt u us

abbrev pub Ends : Cursor → Type 0
Ends c = EndsAt c.head c.rest

abbrev pub size : Cursor → ℕ
size c = length c.rest

-- The call left a cursor that ends as its input did, with fewer tokens.
abbrev Passed : ℕ → Node × Cursor → Type 0
Passed n (x, c) = Ends c × (size c < n)

abbrev Below : ℕ → Parse → Type 0
Below n = Ensures (Passed n)

-- Passing the head loses a token, unless the head is the last one.
advance_lem :
    (c : Cursor) → Ends c → c.head.kind ≢ eof → Ends (advance c) × (suc (size (advance c)) ≡ size c)
advance_lem c = go c.head c.rest
  where
    go :
        (t : Token) (ts : List Token)
        → EndsAt t ts
        → t.kind ≢ eof
        → Ends (advance_to t ts) × (suc (size (advance_to t ts)) ≡ length ts)
    go t [] e h = absurd (h e)
    go t (u ∷ us) e h = (e, refl)

advance_le : (c : Cursor) → Ends c → Ends (advance c) × (size (advance c) ≤ size c)
advance_le c = go c.head c.rest
  where
    go :
        (t : Token) (ts : List Token)
        → EndsAt t ts
        → Ends (advance_to t ts) × (size (advance_to t ts) ≤ length ts)
    go t [] e = (e, omega arith)
    go t (u ∷ us) e = (e, omega arith)

keyword-ne-eof : (w : Bytes) (c : Cursor) → at_keyword w c ≡ true → c.head.kind ≢ eof
keyword-ne-eof w c h e = ground arith

op-ne-eof : (k : TokKind) (b : Bool) → (is_op_kind k && b) ≡ true → k ≢ eof
op-ne-eof k b h e = ground arith

close-Below : (n : ℕ) (x : Node) (c : Cursor) → Ends c → size c < n → Below n (close x c)
close-Below n x c e h =
    let (e', s) = advance_le c e in
    Ensures-if (equal c.head.text (codes ")")) (λ _. holds (e', omega arith)) (λ _. failed)

Below-mono : {m n : ℕ} {r : Parse} → m ≤ n → Below m r → Below n r
Below-mono h (holds (e, s)) = holds (e, omega arith)
Below-mono h failed = failed

value_at-Below :
    (k : TokKind) (c : Cursor) (call : Unit {0} → Parse)
    → Ends c
    → c.head.kind ≡ k
    → (Ends (advance c) → suc (size (advance c)) ≡ size c → Below (size c) (call tt))
    → Below (size c) (value_at k c call)
value_at-Below string c call e k h =
    let (e', s) = advance_lem c e (λ x. cc) in holds (e', omega arith)
value_at-Below int c call e k h = let (e', s) = advance_lem c e (λ x. cc) in holds (e', omega arith)
value_at-Below float c call e k h =
    let (e', s) = advance_lem c e (λ x. cc) in holds (e', omega arith)
value_at-Below ident c call e k h =
    let (e', s) = advance_lem c e (λ x. cc) in
    Ensures-if (is_bool_word c.head.text) (λ _. holds (e', omega arith))
      λ _. Ensures-if (at_op (codes "(") (advance c)) (λ _. h e' s) (λ _. holds (e', omega arith))
value_at-Below _ c call e k h = failed

mutual
  unfolding parse_or

  parse_or-Below :
      (f : ℕ) (c : Cursor) → Ends c → 10 * size c + 6 ≤ f → Below (size c) (parse_or f c)
  parse_or-Below zero c e h = absurd (omega arith)
  parse_or-Below (suc f) c e h =
      Ensures-bind (parse_and-Below f c e (omega arith))
        λ (l, c') (e', s). or_loop-Below f l c' (size c) e' (omega arith) s

  or_loop-Below :
      (f : ℕ) (l : Node) (c : Cursor) (n : ℕ)
      → Ends c
      → 10 * size c + 1 ≤ f
      → size c < n
      → Below n (or_loop f l c)
  or_loop-Below zero l c n e h b = absurd (omega arith)
  or_loop-Below (suc f) l c n e h b =
      Ensures-if (at_keyword (codes "or") c)
        (λ k.
          let (e', s) = advance_lem c e (keyword-ne-eof (codes "or") c k) in
          Ensures-bind (parse_and-Below f (advance c) e' (omega arith))
            λ (r, c'') (e'', s'). or_loop-Below f _ c'' n e'' (omega arith) (omega arith))
        (λ _. holds (e, b))

  parse_and-Below :
      (f : ℕ) (c : Cursor) → Ends c → 10 * size c + 5 ≤ f → Below (size c) (parse_and f c)
  parse_and-Below zero c e h = absurd (omega arith)
  parse_and-Below (suc f) c e h =
      Ensures-bind (parse_not-Below f c e (omega arith))
        λ (l, c') (e', s). and_loop-Below f l c' (size c) e' (omega arith) s

  and_loop-Below :
      (f : ℕ) (l : Node) (c : Cursor) (n : ℕ)
      → Ends c
      → 10 * size c + 1 ≤ f
      → size c < n
      → Below n (and_loop f l c)
  and_loop-Below zero l c n e h b = absurd (omega arith)
  and_loop-Below (suc f) l c n e h b =
      Ensures-if (at_keyword (codes "and") c)
        (λ k.
          let (e', s) = advance_lem c e (keyword-ne-eof (codes "and") c k) in
          Ensures-bind (parse_not-Below f (advance c) e' (omega arith))
            λ (r, c'') (e'', s'). and_loop-Below f _ c'' n e'' (omega arith) (omega arith))
        (λ _. holds (e, b))

  parse_not-Below :
      (f : ℕ) (c : Cursor) → Ends c → 10 * size c + 4 ≤ f → Below (size c) (parse_not f c)
  parse_not-Below zero c e h = absurd (omega arith)
  parse_not-Below (suc f) c e h =
      Ensures-if (at_keyword (codes "not") c)
        (λ k.
          let (e', s) = advance_lem c e (keyword-ne-eof (codes "not") c k) in
          Ensures-bind (parse_not-Below f (advance c) e' (omega arith))
            λ (r, c'') (e'', s'). holds (e'', omega arith))
        (λ _. parse_primary-Below f c e (omega arith))

  parse_primary-Below :
      (f : ℕ) (c : Cursor) → Ends c → 10 * size c + 3 ≤ f → Below (size c) (parse_primary f c)
  parse_primary-Below zero c e h = absurd (omega arith)
  parse_primary-Below (suc f) c e h =
      Ensures-if (at_op (codes "(") c)
        (λ k.
          let (e', s) = advance_lem c e (op-ne-eof c.head.kind _ k) in
          Ensures-bind (parse_or-Below f (advance c) e' (omega arith))
            λ (x, c'') (e'', s'). close-Below (size c) x c'' e'' (omega arith))
        (λ _.
          Ensures-bind (parse_value-Below f c e (omega arith))
            λ (x, c') (e', s). comparison-Below f x c' (size c) e' (omega arith) s)

  comparison-Below :
      (f : ℕ) (l : Node) (c : Cursor) (n : ℕ)
      → Ends c
      → 10 * size c + 1 ≤ f
      → size c < n
      → Below n (comparison f l c)
  comparison-Below zero l c n e h b = absurd (omega arith)
  comparison-Below (suc f) l c n e h b =
      Ensures-if (is_op_kind c.head.kind && is_cmp_op c.head.text)
        (λ k.
          let (e', s) = advance_lem c e (op-ne-eof c.head.kind _ k) in
          Ensures-bind (parse_value-Below f (advance c) e' (omega arith))
            λ (r, c'') (e'', s'). holds (e'', omega arith))
        (λ _. holds (e, b))

  parse_value-Below :
      (f : ℕ) (c : Cursor) → Ends c → 10 * size c + 2 ≤ f → Below (size c) (parse_value f c)
  parse_value-Below zero c e h = absurd (omega arith)
  parse_value-Below (suc f) c e h =
      value_at-Below c.head.kind c _ e refl
        λ e' s. parse_call-Below f c.head.text (advance c) (size c) e' (omega arith) (omega arith)

  parse_call-Below :
      (f : ℕ) (w : Bytes) (c : Cursor) (n : ℕ)
      → Ends c
      → 10 * size c + 4 ≤ f
      → size c < n
      → Below n (parse_call f w c)
  parse_call-Below zero w c n e h b = absurd (omega arith)
  parse_call-Below (suc f) w c n e h b =
      let (e', s) = advance_le c e in
      let (e'', s') = advance_le (advance c) e' in
      Ensures-if (equal (advance c).head.text (codes ")")) (λ _. holds (e'', omega arith))
        (λ _. Below-mono (omega arith) (call_args-Below f w _ (advance c) e' (omega arith)))

  call_args-Below :
      (f : ℕ) (w : Bytes) (args : Nodes) (c : Cursor)
      → Ends c
      → 10 * size c + 3 ≤ f
      → Below (size c) (call_args f w args c)
  call_args-Below zero w args c e h = absurd (omega arith)
  call_args-Below (suc f) w args c e h =
      Ensures-bind (parse_value-Below f c e (omega arith))
        λ (x, c') (e', s). after_arg-Below f w (snoc args x) c' (size c) e' (omega arith) s

  after_arg-Below :
      (f : ℕ) (w : Bytes) (args : Nodes) (c : Cursor) (n : ℕ)
      → Ends c
      → 10 * size c + 4 ≤ f
      → size c < n
      → Below n (after_arg f w args c)
  after_arg-Below zero w args c n e h b = absurd (omega arith)
  after_arg-Below (suc f) w args c n e h b =
      let (e', s) = advance_le c e in
      Ensures-if (equal c.head.text (codes ","))
        (λ _. Below-mono (omega arith) (call_args-Below f w args (advance c) e' (omega arith)))
        (λ _.
          Ensures-if (equal c.head.text (codes ")")) (λ _. holds (e', omega arith)) (λ _. failed))

IsLexed-Ends : {s : Bytes} {i : ℕ} {ts : List Token} → IsLexed s i ts → (ts ≢ []) × Ends (cursor ts)
IsLexed-Ends at_end = (cc, refl)
IsLexed-Ends (blank b l) = IsLexed-Ends l
IsLexed-Ends (token {t} {ts} a b d k p l) = (cc, Ends-cons t ts (IsLexed-Ends l))
  where
    Ends-cons : (t : Token) (ts : List Token) → (ts ≢ []) × Ends (cursor ts) → EndsAt t ts
    Ends-cons t [] (n, e) = absurd (n refl)
    Ends-cons t (u ∷ us) (n, e) = e

abbrev pub Returns : Result Node → Type 0
Returns = Ensures (λ _. Unit {0})

finish-Returns : (n : Node) (c : Cursor) → Returns (finish (n, c))
unfolding finish
finish-Returns n c = Ensures-if (at_eof c.head.kind) (λ _. holds tt) (λ _. failed)

-- On tokens that end with a `tEOF` the parser returns a node or an error.
parse_tokens-Returns : (ts : List Token) → Ends (cursor ts) → Returns (parse_tokens ts)
unfolding parse_tokens
parse_tokens-Returns ts e =
    Ensures-bind (parse_or-Below _ (cursor ts) e (omega arith)) λ (n, c) _. finish-Returns n c

pub parse-Returns : (src : Bytes) → Returns (parse src)
unfolding parse
parse-Returns src =
    Ensures-bind (lex-IsLexed src) λ ts l. parse_tokens-Returns ts (IsLexed-Ends l).1

-- `parse` ends on every source, with a node or an error: the recursion of the parser and its loops
-- are bounded by the number of tokens.
pub parse-ne-out_of_fuel : (src : Bytes) → parse src ≢ out_of_fuel
parse-ne-out_of_fuel src = Ensures-out_of_fuel (parse-Returns src)
