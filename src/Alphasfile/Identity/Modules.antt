-- ===== src/Alphasfile/Identity/Modules.antt =====
-- identity.go, `modulePath` and `parseModulePath`: the paths of modules.
use zordon.Base.{
  cut_prefix, cut_at, replace_byte, split_from, join_with, free-append, last_cut-free,
  last_cut-append, has_prefix-word, cut_at-skip, split_from-skip, split_from-pass,
  replace_byte-free, replace_byte-append, free, ℕ, ◌≡◌, refl, ap, ◌∙◌, true, false, List, [], ◌∷◌,
  ◌++◌, append-nil, append_assoc, none, some, arith, ==_iff, Bytes, codes, equal, has_prefix,
}
use zordon.Alphasfile.Identity.{
  both_parts, split_package_module, path_of, module_path, all_names, up_to_dot, behind,
  parse_packages, parse_component, parse_path, parse_module_path, is_word, all_word, is_module_name,
}

-- where a service is declared: outside modules, in a module, or in a module of nested packages
pub data Home : Type 0 where
  default : Home
  component : Bytes → Home
  packaged : Bytes → List Bytes → Bytes → Home

-- the id of the module
unfoldable pub module_id : Home → Bytes
unfolding join_with
module_id default = []
module_id (component m) = m
module_id (packaged p ps m) = join_with (codes "/") (p ∷ ps) ++ (codes "/" ++ m)

-- The names of nested packages. None is `component`.
abbrev AreNested : List Bytes → Type 0
AreNested [] = Unit
AreNested (s ∷ ps) =
    (is_module_name s ≡ true) × (equal s (codes "component") ≡ false) × AreNested ps

abbrev pub IsNamed : Home → Type 0
IsNamed default = Unit
IsNamed (component m) = is_module_name m ≡ true
IsNamed (packaged p ps m) = (is_module_name p ≡ true) × AreNested ps × (is_module_name m ≡ true)

word-free : (c : ℕ) → is_word c ≡ false → (s : Bytes) → all_word s ≡ true → free c s ≡ true
unfolding all_word free
word-free c n [] h = refl
word-free c n (b ∷ s) h = ground (arith, word-free c n s, ==_iff b c)

pub name-free :
    (c : ℕ) → is_word c ≡ false → (s : Bytes) → is_module_name s ≡ true → free c s ≡ true
unfolding is_module_name free
name-free c n [] h = ground (arith, h)
name-free c n (b ∷ s) h = ground (arith, word-free c n s, ==_iff b c)

pub name-full : (s : Bytes) → is_module_name s ≡ true → equal s [] ≡ false
unfolding is_module_name equal
name-full [] h = ground (arith, h)
name-full (b ∷ s) h = refl

-- the packages within the first
abbrev trail : List Bytes → Bytes → Bytes
trail [] end = end
trail (s ∷ ps) end = codes ".package." ++ (s ++ trail ps end)

replace-join :
    (p : Bytes) (ps : List Bytes) (end : Bytes)
    → is_module_name p ≡ true
    → AreNested ps
    → replace_byte 47 (codes ".package.") (join_with (codes "/") (p ∷ ps)) ++ end
      ≡ p ++ trail ps end
unfolding replace_byte join_with
replace-join p [] end h n =
    rw (replace_byte-free 47 (codes ".package.") p (name-free 47 refl p h)) refl
replace-join p (q ∷ ps) end h (a, b, n) =
    rw
      (
        replace_byte-append 47 (codes ".package.") p (codes "/" ++ join_with (codes "/") (q ∷ ps)),
        replace_byte-free 47 (codes ".package.") p (name-free 47 refl p h),
        append_assoc p
            (replace_byte 47 (codes ".package.") (codes "/" ++ join_with (codes "/") (q ∷ ps))) end,
        replace-join q ps end a n,
      )
      refl

trail_dot : (ps : List Bytes) (end : Bytes) → (t : Bytes) × (trail ps (46 ∷ end) ≡ 46 ∷ t)
trail_dot [] end = (end, refl)
trail_dot (s ∷ ps) end = (codes "package." ++ (s ++ trail ps (46 ∷ end)), refl)

not_component :
    (q : Bytes) (ps : List Bytes) (r : Bytes)
    → is_module_name q ≡ true
    → equal q (codes "component") ≡ false
    → has_prefix (q ++ trail ps (codes ".component." ++ r)) (codes "component.") ≡ false
unfolding free
not_component q ps r h n =
    let (t, e) = trail_dot ps (codes "component." ++ r) in
    ap (λ u. has_prefix (q ++ u) (codes "component.")) e
    ∙ has_prefix-word 46 q (codes "component") t (name-free 46 refl q h) refl
    ∙ n

cut_at-trail :
    (p : Bytes) (ps : List Bytes) (r : Bytes)
    → is_module_name p ≡ true
    → AreNested ps
    → cut_at (codes ".component.") (p ++ trail ps (codes ".component." ++ r))
      ≡ some (p ++ trail ps [], r)
unfolding cut_at has_prefix free
cut_at-trail p [] r h n =
    cut_at-skip 46 (codes "component.") p (codes ".component." ++ r) [] r (name-free 46 refl p h)
      refl
cut_at-trail p (q ∷ ps) r h (a, b, n) =
    let rest = q ++ trail ps (codes ".component." ++ r) in
    let nested : cut_at (codes ".component.") (46 ∷ rest) ≡ some (46 ∷ (q ++ trail ps []), r) =
      rw (not_component q ps r a b, cut_at-trail q ps r a n) refl in
    let inner = cut_at-skip 46 (codes "component.") (codes "package") (46 ∷ rest) _ r refl nested in
    cut_at-skip 46 (codes "component.") p (codes ".package." ++ rest) _ r (name-free 46 refl p h)
      (rw inner refl)

split-trail :
    (p : Bytes) (ps : List Bytes)
    → is_module_name p ≡ true
    → AreNested ps
    → split_from 0 (codes ".package.") (p ++ trail ps []) ≡ p ∷ ps
unfolding split_from has_prefix
split-trail p [] h n =
    split_from-skip 46 (codes "package.") p [] (name-free 46 refl p h) [] [] refl
    ∙ ap (λ s. s ∷ []) (append-nil p)
split-trail p (q ∷ ps) h (a, b, n) =
    split_from-skip 46 (codes "package.") p (codes ".package." ++ (q ++ trail ps []))
      (name-free 46 refl p h) [] (q ∷ ps)
      (ap (λ ds. [] ∷ ds)
        (split_from-pass (codes "package.") (codes ".package.") (q ++ trail ps [])
          ∙ split-trail q ps a n))
    ∙ ap (λ s. s ∷ q ∷ ps) (append-nil p)

nested-all_names : (ps : List Bytes) → AreNested ps → all_names ps ≡ true
unfolding all_names
nested-all_names [] n = refl
nested-all_names (q ∷ ps) (a, b, n) =
    ground (arith, name-full q a, name-free 46 refl q a, nested-all_names ps n)

pub up_to_dot-cut_at :
    (m r : Bytes)
    → is_module_name m ≡ true
    → up_to_dot (cut_at (codes ".") (m ++ (codes "." ++ r))) ≡ some (m, r)
unfolding cut_at has_prefix is_module_name
up_to_dot-cut_at m r h =
    let dot = cut_at-skip 46 [] m (codes "." ++ r) [] r (name-free 46 refl m h) refl in
    rw (dot, append-nil m) (full m h)
  where
    full : (m : Bytes) → is_module_name m ≡ true → up_to_dot (some (m, r)) ≡ some (m, r)
    full [] h = ground (arith, h)
    full (b ∷ m) h = refl

pub split-component : (m : Bytes) → is_module_name m ≡ true → split_package_module m ≡ none
unfolding split_package_module
split-component m h = rw (last_cut-free 47 m (name-free 47 refl m h)) refl

longer : (p s : Bytes) → is_module_name p ≡ true → equal (p ++ s) [] ≡ false
unfolding is_module_name equal
longer [] s h = ground (arith, h)
longer (b ∷ p) s h = refl

join-longer :
    (p : Bytes) (ps : List Bytes)
    → is_module_name p ≡ true
    → equal (join_with (codes "/") (p ∷ ps)) [] ≡ false
unfolding join_with
join-longer p [] h = name-full p h
join-longer p (q ∷ ps) h = longer p (codes "/" ++ join_with (codes "/") (q ∷ ps)) h

both_parts-full :
    (s m : Bytes)
    → equal s [] ≡ false
    → is_module_name m ≡ true
    → both_parts (some (s, m)) ≡ some (s, m)
unfolding equal is_module_name
both_parts-full [] m e h = ground (arith, e)
both_parts-full (b ∷ s) [] e h = ground (arith, h)
both_parts-full (b ∷ s) (c ∷ m) e h = refl

pub split-packaged :
    (p : Bytes) (ps : List Bytes) (m : Bytes)
    → IsNamed (packaged p ps m)
    → split_package_module (module_id (packaged p ps m)) ≡ some (join_with (codes "/") (p ∷ ps), m)
unfolding split_package_module module_id
split-packaged p ps m (h, _, n) =
    let s = join_with (codes "/") (p ∷ ps) in
    rw (last_cut-append 47 s m (name-free 47 refl m n)) (both_parts-full s m (join-longer p ps h) n)

path-packaged :
    (p : Bytes) (ps : List Bytes) (m r : Bytes)
    → IsNamed (packaged p ps m)
    → module_path (module_id (packaged p ps m)) ++ (codes "." ++ r)
      ≡ codes "package." ++ (p ++ trail ps (codes ".component." ++ (m ++ (codes "." ++ r))))
unfolding module_path path_of
path-packaged p ps m r n =
    let names = replace_byte 47 (codes ".package.") (join_with (codes "/") (p ∷ ps)) in
    rw (split-packaged p ps m n) (
      ap (λ t. codes "package." ++ t)
        (append_assoc names (codes ".component." ++ m) (codes "." ++ r)
          ∙ replace-join p ps (codes ".component." ++ (m ++ (codes "." ++ r))) n.0 n.1))

pub id-full :
    (p : Bytes) (ps : List Bytes) (m : Bytes)
    → is_module_name p ≡ true
    → equal (module_id (packaged p ps m)) [] ≡ false
unfolding module_id equal
id-full p ps m h = go (join_with (codes "/") (p ∷ ps)) (join-longer p ps h)
  where
    go : (s : Bytes) → equal s [] ≡ false → equal (s ++ (codes "/" ++ m)) [] ≡ false
    go [] e = ground (arith, e)
    go (b ∷ s) e = refl

trail-free : (ps : List Bytes) (end : Bytes) → AreNested ps → free 64 (trail ps end) ≡ free 64 end
unfolding free
trail-free [] end n = refl
trail-free (q ∷ ps) end (a, b, n) =
    rw (free-append 64 q (trail ps end), name-free 64 refl q a) (trail-free ps end n)

pub path-free :
    (home : Home) (r : Bytes)
    → IsNamed home
    → free 64 (module_path (module_id home) ++ (codes "." ++ r)) ≡ free 64 r
unfolding free module_path module_id path_of
path-free default r n = refl
path-free (component m) r n =
    rw (split-component m n, free-append 64 m (codes "." ++ r), name-free 64 refl m n) refl
path-free (packaged p ps m) r n =
    let end = codes ".component." ++ (m ++ (codes "." ++ r)) in
    rw
      (
        path-packaged p ps m r n,
        free-append 64 p (trail ps end),
        name-free 64 refl p n.0,
        trail-free ps end n.1,
        free-append 64 m (codes "." ++ r),
        name-free 64 refl m n.2,
      )
      refl

-- `parseModulePath` reads the path of a module, followed by a dot and any text, back into the id of
-- the module and that text. Its names are as `moduleNameRe` has them, and no package within
-- another is named `component`.
pub parse_module_path-module_path :
    (home : Home) (r : Bytes)
    → IsNamed home
    → equal (module_id home) [] ≡ false
    → parse_module_path (module_path (module_id home) ++ (codes "." ++ r))
      ≡ some (module_id home, r)
unfolding parse_module_path parse_path parse_packages parse_component module_path path_of cut_prefix
    module_id all_names behind
parse_module_path-module_path default r n e = ground (arith, e)
parse_module_path-module_path (component m) r n e =
    rw (split-component m n) (up_to_dot-cut_at m r n)
parse_module_path-module_path (packaged p ps m) r n e =
    let (a, b, c) = n in
    rw
      (
        path-packaged p ps m r n,
        cut_at-trail p ps (m ++ (codes "." ++ r)) a b,
        longer p (trail ps []) a,
        split-trail p ps a b,
        name-full p a,
        name-free 46 refl p a,
        nested-all_names ps b,
        up_to_dot-cut_at m r c,
      )
      refl
