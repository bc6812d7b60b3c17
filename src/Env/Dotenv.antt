-- ===== src/Env/Dotenv.antt =====
-- zenv.go, `JoinFile`: the lines of dotenv files and what they say of a key.
use zordon.Base.{
  free, ℕ, ◌≡◌, inl, inr, refl, sym, ap, ◌∙◌, Bool, true, false, ◌||◌, List, [], ◌∷◌, ◌++◌, Option,
  none, some, arith, Option-cases, ◌==◌, if◌then◌else◌, length, take, drop, Bytes, codes, equal,
  equal_refl, has_prefix, lookup, insert, lookup-insert,
}
use zordon.Env.Overlay.{or_else, or_else_assoc}
use zordon.Env.{join_file, Vars, cut, trim_prefix, unquoted, dotenv_line, join_lines}

cut-free : (k v : Bytes) → free b'=' k ≡ true → cut (k ++ b'=' ∷ v) ≡ some (k, v)
unfolding cut free
cut-free [] v h = refl
cut-free (c ∷ k) v h = ground (arith, cut-free k v)

has_prefix-free :
    (k r p : Bytes) → free b'=' p ≡ true → has_prefix (k ++ b'=' ∷ r) p ≡ has_prefix k p
unfolding has_prefix free
has_prefix-free [] r [] h = refl
has_prefix-free [] r (b ∷ p) h = ground arith
has_prefix-free (c ∷ k) r [] h = refl
has_prefix-free (c ∷ k) r (b ∷ p) h = ground (arith, has_prefix-free k r p)

-- `'` or `"`
abbrev pub is_quote : ℕ → Bool
is_quote q = q == b'"' || q == b'\''

-- a value between quotes
abbrev pub quoted : ℕ → Bytes → Bytes
quoted q v = q ∷ (v ++ q ∷ [])

unquoted_nonempty :
    (q c : ℕ) (s : Bytes)
    → is_quote q ≡ true
    → drop (length s) (c ∷ s) ≡ q ∷ []
    → unquoted (q ∷ c ∷ s) ≡ take (length s) (c ∷ s)
unfolding unquoted
unquoted_nonempty q c s h e = rw e (ground (arith, equal_refl (q ∷ [])))

drop_to_last :
    (c : ℕ) (v : Bytes) (q : ℕ) → drop (length (v ++ q ∷ [])) (c ∷ (v ++ q ∷ [])) ≡ q ∷ []
drop_to_last c [] q = refl
drop_to_last c (d ∷ v) q = drop_to_last d v q

take_to_last : (c : ℕ) (v : Bytes) (q : ℕ) → take (length (v ++ q ∷ [])) (c ∷ (v ++ q ∷ [])) ≡ c ∷ v
take_to_last c [] q = refl
take_to_last c (d ∷ v) q = ap (λ xs. c ∷ xs) (take_to_last d v q)

unquoted-quoted : (q : ℕ) (v : Bytes) → is_quote q ≡ true → unquoted (quoted q v) ≡ v
unfolding unquoted
unquoted-quoted q [] h = unquoted_nonempty q q [] h refl
unquoted-quoted q (c ∷ v) h =
    unquoted_nonempty q c (v ++ q ∷ []) h (drop_to_last c v q) ∙ take_to_last c v q

plain_start :
    (k v : Bytes)
    → has_prefix k (codes "#") ≡ false
    → equal (k ++ b'=' ∷ v) [] || has_prefix (k ++ b'=' ∷ v) (codes "#") ≡ false
unfolding equal has_prefix
plain_start [] v h = refl
plain_start (c ∷ k) v h = ground arith

plain_cut :
    (k v : Bytes)
    → free b'=' k ≡ true
    → has_prefix k (codes "export ") ≡ false
    → cut (trim_prefix (k ++ b'=' ∷ v) (codes "export ")) ≡ some (k, v)
unfolding trim_prefix free
plain_cut k v f n = rw (has_prefix-free k v (codes "export ") refl, n) (cut-free k v f)

export_start :
    (s : Bytes)
    → equal (codes "export " ++ s) [] || has_prefix (codes "export " ++ s) (codes "#") ≡ false
unfolding equal has_prefix
export_start s = refl

export_cut :
    (k v : Bytes)
    → free b'=' k ≡ true
    → cut (trim_prefix (codes "export " ++ (k ++ b'=' ∷ v)) (codes "export ")) ≡ some (k, v)
unfolding trim_prefix has_prefix
export_cut k v f = cut-free k v f

module _ (trim_space : Bytes → Bytes) where
  -- what the lines of a file, and then of files, say of a key
  unfoldable pub line_value : Bytes → List Bytes → Option Bytes
  unfolding dotenv_line equal
  line_value k [] = none
  line_value k (text ∷ texts) = or_else (line_value k texts) (elim (dotenv_line trim_space text) [
    | none ↦ none
    | some (j, v) ↦ if equal j k then some v else none
  ])

  unfoldable pub file_value : Bytes → List (Option (List Bytes)) → Option Bytes
  unfolding line_value
  file_value k [] = none
  file_value k (none ∷ files) = file_value k files
  file_value k (some texts ∷ files) = or_else (file_value k files) (line_value k texts)

  lookup-join_lines :
      (k : Bytes) (out : Vars) (texts : List Bytes)
      → lookup k (join_lines trim_space out texts) ≡ or_else (line_value k texts) (lookup k out)
  unfolding join_lines line_value
  lookup-join_lines k out [] = refl
  lookup-join_lines k out (text ∷ texts) = elim (Option-cases (dotenv_line trim_space text)) [
    | inl e ↦ rw (e, join_lines) (lookup-join_lines k out texts ∙ ground arith)
    | inr ((j, v), e) ↦
        rw (e, join_lines)
          (lookup-join_lines k (insert j v out) texts ∙ ground (arith, lookup-insert j k v out))
  ]

  -- After `JoinFile` a key has its value of the last line, in the last of the files that opened,
  -- that sets it, and its value before if no line does.
  pub lookup-join_file :
      (k : Bytes) (out : Vars) (files : List (Option (List Bytes)))
      → lookup k (join_file trim_space out files) ≡ or_else (file_value k files) (lookup k out)
  unfolding join_file file_value
  lookup-join_file k out [] = refl
  lookup-join_file k out (none ∷ files) = lookup-join_file k out files
  lookup-join_file k out (some texts ∷ files) =
      lookup-join_file k (join_lines trim_space out texts) files
      ∙ ap (or_else (file_value k files)) (lookup-join_lines k out texts)
      ∙ sym (or_else_assoc (file_value k files) (line_value k texts) (lookup k out))

  -- the texts have no spaces around them
  abbrev pub Trimmed : Bytes → Type 0
  Trimmed s = trim_space s ≡ s

  -- the rest of `dotenv_line` on a line that is neither blank nor a comment
  dotenv_line_lem :
      (line k v : Bytes)
      → Trimmed line
      → equal line [] || has_prefix line (codes "#") ≡ false
      → cut (trim_prefix line (codes "export ")) ≡ some (k, v)
      → dotenv_line trim_space line ≡ some (trim_space k, unquoted (trim_space v))
  unfolding dotenv_line
  dotenv_line_lem line k v t b e = rw (t, b, e) refl

  -- A line of a key, `=` and a quoted value, with or without `export ` before it, is read as the
  -- key and the value, if the key has no `=` and does not begin with `#` or `export `, and neither
  -- the lines, the key nor the quoted value have spaces around them.
  pub dotenv_line-quoted :
      (k v : Bytes) (q : ℕ)
      → is_quote q ≡ true
      → free b'=' k ≡ true
      → has_prefix k (codes "#") ≡ false
      → has_prefix k (codes "export ") ≡ false
      → Trimmed k
      → Trimmed (quoted q v)
      → Trimmed (k ++ b'=' ∷ quoted q v)
      → Trimmed (codes "export " ++ (k ++ b'=' ∷ quoted q v))
      → (dotenv_line trim_space (k ++ b'=' ∷ quoted q v) ≡ some (k, v))
        × (dotenv_line trim_space (codes "export " ++ (k ++ b'=' ∷ quoted q v)) ≡ some (k, v))
  dotenv_line-quoted k v q iq f nh ne tk tv tl te =
      let unquotes : some (trim_space k, unquoted (trim_space (quoted q v))) ≡ some (k, v) =
        rw (tk, tv) (ap (λ w. some (k, w)) (unquoted-quoted q v iq)) in
      (
        dotenv_line_lem (k ++ b'=' ∷ quoted q v) k (quoted q v) tl (plain_start k (quoted q v) nh)
              (plain_cut k (quoted q v) f ne)
            ∙ unquotes,
        dotenv_line_lem (codes "export " ++ (k ++ b'=' ∷ quoted q v)) k (quoted q v) te
              (export_start (k ++ b'=' ∷ quoted q v)) (export_cut k (quoted q v) f)
            ∙ unquotes,
      )
