-- ===== src/LogFilter/Severity/Logfmt.antt =====
-- severity.go, `scanLogfmt`: values behind a key at the head of a line.
use zordon.Base.{
  free, ℕ, suc, ◌+◌, ◌≡◌, refl, ap, ◌∙◌, true, false, [], ◌∷◌, ◌++◌, some, arith, ◌==◌, ==_iff,
  length, drop, Bytes, has_prefix, index_of, take_while,
}
use zordon.LogFilter.Severity.{
  found, scanned, is_not, at_boundary, logfmt_value, logfmt_loop, scan_logfmt,
}

has_prefix_self : (k s : Bytes) → has_prefix (k ++ s) k ≡ true
unfolding has_prefix
has_prefix_self [] s = refl
has_prefix_self (c ∷ k) s = ground (arith, has_prefix_self k s)

index_of_head : (k s : Bytes) → index_of (k ++ s) k ≡ some 0
unfolding index_of has_prefix
index_of_head [] [] = refl
index_of_head [] (c ∷ s) = refl
index_of_head (c ∷ k) s = rw (has_prefix_self (c ∷ k) s) refl

drop_head : (k s : Bytes) → drop (length k) (k ++ s) ≡ s
drop_head [] s = refl
drop_head (c ∷ k) s = drop_head k s

take_while-free :
    (c : ℕ) (v rest : Bytes) → free c v ≡ true → take_while (is_not c) (v ++ c ∷ rest) ≡ v
unfolding free
take_while-free c [] rest h = ground (arith, ==_iff c c)
take_while-free c (b ∷ v) rest h = ground (arith, take_while-free c v rest)

logfmt_loop_head :
    (f : ℕ) (raw needle : Bytes)
    → index_of raw needle ≡ some 0
    → logfmt_loop (suc f) raw needle 0 ≡ found (logfmt_value (drop (length needle) raw))
unfolding logfmt_loop at_boundary
logfmt_loop_head f raw needle e =
    rw (e, logfmt_loop) (ap (λ n. found (logfmt_value (drop n raw))) (past (length needle)))
  where
    past : (n : ℕ) → 0 + 0 + n ≡ n
    past n = omega arith

scan_logfmt_head :
    (key s : Bytes) → scan_logfmt ((key ++ b'=' ∷ []) ++ s) key ≡ some (logfmt_value s)
unfolding scan_logfmt
scan_logfmt_head key s =
    ap scanned (
      logfmt_loop_head (length ((key ++ b'=' ∷ []) ++ s)) ((key ++ b'=' ∷ []) ++ s)
        (key ++ b'=' ∷ []) (index_of_head (key ++ b'=' ∷ []) s))
    ∙ ap (λ v. some (logfmt_value v)) (drop_head (key ++ b'=' ∷ []) s)

-- `scanLogfmt` finds a quoted value without quotes in it behind its key at the head of a line.
pub scan_logfmt-quoted :
    (key v rest : Bytes)
    → free b'"' v ≡ true
    → scan_logfmt ((key ++ b'=' ∷ []) ++ (b'"' ∷ (v ++ b'"' ∷ rest))) key ≡ some v
unfolding logfmt_value
scan_logfmt-quoted key v rest h =
    scan_logfmt_head key (b'"' ∷ (v ++ b'"' ∷ rest)) ∙ ap some (take_while-free b'"' v rest h)

take_while-all_free : (c : ℕ) (v : Bytes) → free c v ≡ true → take_while (is_not c) v ≡ v
unfolding free
take_while-all_free c [] h = refl
take_while-all_free c (b ∷ v) h = ground (arith, take_while-all_free c v)

-- `scanLogfmt` finds a value without spaces, which does not begin with a quote and is not empty,
-- behind its key at the head of a line, where the value ends the line or a space follows it.
pub scan_logfmt-bare :
    (key : Bytes) (c : ℕ) (v rest : Bytes)
    → (c == b'"') ≡ false
    → free b' ' (c ∷ v) ≡ true
    → (scan_logfmt ((key ++ b'=' ∷ []) ++ (c ∷ v)) key ≡ some (c ∷ v))
      × (scan_logfmt ((key ++ b'=' ∷ []) ++ ((c ∷ v) ++ b' ' ∷ rest)) key ≡ some (c ∷ v))
unfolding logfmt_value
scan_logfmt-bare key c v rest q h = (
  scan_logfmt_head key (c ∷ v) ∙ ap some (rw q (take_while-all_free b' ' (c ∷ v) h)),
  scan_logfmt_head key ((c ∷ v) ++ b' ' ∷ rest)
      ∙ ap some (rw q (take_while-free b' ' (c ∷ v) rest h)),
)
