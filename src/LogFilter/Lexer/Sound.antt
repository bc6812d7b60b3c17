-- ===== src/LogFilter/Lexer/Sound.antt =====
-- parse.go, `lex`: the relation between a source and its tokens.
use mathlib.Core.Path.{subst}
use zordon.Base.{
  ℕ, zero, suc, ◌+◌, ◌≤◌, ◌≡◌, ◌≢◌, inl, inr, refl, true, ◌&&◌, ◌||◌, List, [], ◌∷◌, Option, none,
  some, arith, Option-cases, ◌==◌, ==_iff, length, take, drop, length-drop, Bytes,
}
use zordon.LogFilter.Ast.{TokKind, eof, string, Token}
use zordon.LogFilter.Result.{Result, ok, ◌>>=◌, Ensures, holds, failed, Ensures-if, Ensures-bind}
use zordon.LogFilter.Lexer.Runs.{string_loop-bounds, ident_run-le, lex_number_lem}
use zordon.LogFilter.Lexer.{
  is_digit, is_ident_start, string_loop, lex_string, lex_number, ident_run, next_is, Step, is_space,
  is_punct, is_cmp_start, lex_cmp, lex_step, push_token, lex_from, lex,
}

-- The token's text is the source text itself, but for a string, which begins with its quote.
pub data Spells (t : Token) : Bytes → Type 0 where
  quoted : {w : Bytes} → t.kind ≡ string → Spells t (b'"' ∷ w)
  plain : {w : Bytes} → t.text ≡ w → Spells t w

-- `ts` is read off the text `s`, which starts at offset `i` of the source.
pub data IsLexed : Bytes → ℕ → List Token → Type 0 where
  at_end : {i : ℕ} → IsLexed [] i (record { kind = eof; text = []; col = i + 1 } ∷ [])
  blank :
      {i c : ℕ} {s : Bytes} {ts : List Token}
      → is_space c ≡ true
      → IsLexed s (i + 1) ts
      → IsLexed (c ∷ s) i ts
  token :
      {i c adv : ℕ} {s : Bytes} {t : Token} {ts : List Token}
      → 1 ≤ adv
      → adv ≤ length (c ∷ s)
      → t.col ≡ i + 1
      → t.kind ≢ eof
      → Spells t (take adv (c ∷ s))
      → IsLexed (drop adv (c ∷ s)) (i + adv) ts
      → IsLexed (c ∷ s) i (t ∷ ts)

abbrev Turn : ℕ → ℕ → Bytes → Step → Type 0
Turn i c s (none, adv) = (is_space c ≡ true) × (adv ≡ 1)
Turn i c s (some t, adv) =
    (1 ≤ adv)
    × (adv ≤ length (c ∷ s))
    × (t.col ≡ i + 1)
    × (t.kind ≢ eof)
    × Spells t (take adv (c ∷ s))

lex_cmp-Turn : (i c : ℕ) (s : Bytes) → Ensures (Turn i c s) (lex_cmp i c s)
unfolding lex_cmp
lex_cmp-Turn i c [] =
    Ensures-if (c == b'<' || c == b'>')
      (λ _. holds (omega arith, omega arith, refl, cc, plain refl)) (λ _. failed)
lex_cmp-Turn i c (d ∷ s) =
    Ensures-if (d == b'=') (λ e. holds (omega arith, omega arith, refl, cc, plain (ground arith)))
      (λ _.
        Ensures-if (c == b'<' || c == b'>')
          (λ _. holds (omega arith, omega arith, refl, cc, plain refl)) (λ _. failed))

abbrev string_token : ℕ → Bytes × ℕ → Result Step
string_token i (w, adv) = ok (some (record { kind = string; text = w; col = i + 1 }), adv)

lex_string-Turn :
    (i : ℕ) (s : Bytes) → Ensures (Turn i b'"' s) (lex_string s (i + 1) >>= string_token i)
unfolding lex_string
lex_string-Turn i s = elim (Option-cases (string_loop s [] 1)) [
  | inl e ↦ rw (e, lex_string) failed
  | inr ((w, suc adv), e) ↦
      let bounds = string_loop-bounds s [] 1 e in
      rw (e, lex_string) (holds (omega arith, omega arith, refl, cc, quoted refl))
  | inr ((w, zero), e) ↦ let bounds = string_loop-bounds s [] 1 e in absurd (omega arith)
]

lex_word-Turn :
    (i c : ℕ) (s : Bytes) (k : TokKind)
    → k ≢ eof
    → let j = suc (ident_run s) in
      Turn i c s (some (record { kind = k; text = take j (c ∷ s); col = i + 1 }), j)
lex_word-Turn i c s k h = (omega arith, omega (arith, ident_run-le s), refl, h, plain refl)

lex_number-Turn :
    (i c : ℕ) (s : Bytes)
    → (is_digit c || c == b'-') ≡ true
    → Turn i c s (some (lex_number (c ∷ s) (i + 1)).0, (lex_number (c ∷ s) (i + 1)).1)
lex_number-Turn i c s h =
    let (a, b, d, e, f) = lex_number_lem c s (i + 1) h in (a, b, d, e, plain f)

lex_step-Turn : (i c : ℕ) (s : Bytes) → Ensures (Turn i c s) (lex_step i c s)
unfolding lex_step
lex_step-Turn i c s =
    Ensures-if (is_space c) (λ h. holds (h, refl))
      λ _.
        Ensures-if (is_punct c) (λ _. holds (omega arith, omega arith, refl, cc, plain refl))
          λ _.
            Ensures-if (is_cmp_start c) (λ _. lex_cmp-Turn i c s)
              λ _.
                Ensures-if (c == b'"') (λ h. rw ((==_iff c b'"').0 h) (lex_string-Turn i s))
                  λ _.
                    Ensures-if (is_digit c || (c == b'-' && next_is is_digit s))
                      (λ h. holds (lex_number-Turn i c s (ground arith)))
                      λ _.
                        Ensures-if (is_ident_start c)
                          (λ _. holds (lex_word-Turn i c s _ (ground arith))) λ _. failed

Turn-pos : (i c : ℕ) (s : Bytes) (o : Option Token) (adv : ℕ) → Turn i c s (o, adv) → 1 ≤ adv
Turn-pos i c s none adv t = omega arith
Turn-pos i c s (some tok) adv t = t.0

IsLexed-push_token :
    (i c : ℕ) (s : Bytes) (o : Option Token) (adv : ℕ) {ts : List Token}
    → Turn i c s (o, adv)
    → IsLexed (drop adv (c ∷ s)) (i + adv) ts
    → IsLexed (c ∷ s) i (push_token o ts)
IsLexed-push_token i c s none adv {ts} (b, e) l =
    blank b (subst (λ k. IsLexed (drop k (c ∷ s)) (i + k) ts) e l)
IsLexed-push_token i c s (some tok) adv (a, b, d, e, f) l = token a b d e f l

lex_from-IsLexed : (f i : ℕ) (s : Bytes) → length s ≤ f → Ensures (IsLexed s i) (lex_from f i s)
unfolding lex_from
lex_from-IsLexed f i [] h = holds at_end
lex_from-IsLexed zero i (c ∷ s) h = absurd (omega arith)
lex_from-IsLexed (suc f) i (c ∷ s) h = Ensures-bind (lex_step-Turn i c s) λ (o, adv) t.
    Ensures-bind
      (lex_from-IsLexed f (i + adv) (drop adv (c ∷ s))
        (omega (arith, Turn-pos i c s o adv t, length-drop adv (c ∷ s))))
      λ ts l. holds (IsLexed-push_token i c s o adv t l)

-- `lex` ends on every source. What it returns covers the source: blanks stand between the
-- tokens, each token but a string is spelled as in the source at its column, a string starts at
-- a quote there, and the last token, the only `tEOF`, is one column past the end.
pub lex-IsLexed : (src : Bytes) → Ensures (IsLexed src 0) (lex src)
unfolding lex
lex-IsLexed src = lex_from-IsLexed (length src) 0 src (omega arith)
