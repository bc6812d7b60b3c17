-- ===== src/Base/Cut.antt =====
-- Go's strings.Cut, CutPrefix, Split and ReplaceAll, and the cut at the last byte of a kind, on
-- texts as lists of bytes.
use zordon.Base.Lists.{length, drop}
use zordon.Base.Tests.{◌==◌, ==_iff, if◌then◌else◌}
use zordon.Base.Text.{Bytes, equal, has_prefix}
use zordon.Base.Search.{free}
use Prim.Native.Nat.{ℕ, zero, suc, ◌-◌}
use mathlib.Core.Path.{◌≡◌, refl}
use mathlib.Core.Bool.{true, ◌&&◌}
use mathlib.Core.List.{List, [], ◌∷◌, ◌++◌, append_assoc}
use mathlib.Core.Option.{Option, none, some}
use native.Mathlib.Omega.{arith}

-- `strings.CutPrefix`
unfoldable pub cut_prefix : Bytes → Bytes → Option Bytes
unfolding has_prefix
cut_prefix s [] = some s
cut_prefix [] (p ∷ ps) = none
cut_prefix (c ∷ s) (p ∷ ps) = if c == p then cut_prefix s ps else none

abbrev pub before_cut : ℕ → Option (Bytes × Bytes) → Option (Bytes × Bytes)
before_cut c none = none
before_cut c (some (before, after)) = some (c ∷ before, after)

-- `strings.Cut`, and what `strings.LastIndexByte` finds, cut at its byte
unfoldable pub cut_at : Bytes → Bytes → Option (Bytes × Bytes)
unfolding has_prefix
cut_at sep [] = if has_prefix [] sep then some ([], []) else none
cut_at sep (c ∷ s) =
    let later = before_cut c (cut_at sep s) in
    if has_prefix (c ∷ s) sep then some ([], drop (length sep) (c ∷ s)) else later

abbrev pub or_here : ℕ → ℕ → Bytes → Option (Bytes × Bytes) → Option (Bytes × Bytes)
or_here c b s none = if b == c then some ([], s) else none
or_here c b s (some (before, after)) = some (b ∷ before, after)

unfoldable pub last_cut : ℕ → Bytes → Option (Bytes × Bytes)
last_cut c [] = none
last_cut c (b ∷ s) = or_here c b s (last_cut c s)

-- `strings.ReplaceAll` of a single byte
unfoldable pub replace_byte : ℕ → Bytes → Bytes → Bytes
replace_byte c new [] = []
replace_byte c new (b ∷ s) =
    let rest = replace_byte c new s in if b == c then new ++ rest else b ∷ rest

abbrev pub push_first : ℕ → List Bytes → List Bytes
push_first b [] = (b ∷ []) ∷ []
push_first b (d ∷ ds) = (b ∷ d) ∷ ds

-- `strings.Split` at a separator that is not empty. The number is of the bytes of a separator that
-- are still to pass.
unfoldable pub split_from : ℕ → Bytes → Bytes → List Bytes
unfolding has_prefix
split_from n sep [] = [] ∷ []
split_from (suc n) sep (c ∷ s) = split_from n sep s
split_from zero sep (c ∷ s) =
    let hit = split_from (length sep - 1) sep s in
    let miss = push_first c (split_from 0 sep s) in
    if has_prefix (c ∷ s) sep then [] ∷ hit else miss

-- `strings.Join`
unfoldable pub join_with : Bytes → List Bytes → Bytes
join_with sep [] = []
join_with sep (s ∷ []) = s
join_with sep (s ∷ t ∷ ss) = s ++ (sep ++ join_with sep (t ∷ ss))

pub cut_prefix-append : (p s : Bytes) → cut_prefix (p ++ s) p ≡ some s
unfolding cut_prefix
cut_prefix-append [] s = refl
cut_prefix-append (c ∷ p) s = ground (arith, cut_prefix-append p s, ==_iff c c)

pub free-append : (c : ℕ) (s t : Bytes) → free c (s ++ t) ≡ (free c s && free c t)
unfolding free
free-append c [] t = refl
free-append c (b ∷ s) t = ground (arith, free-append c s t)

pub last_cut-free : (c : ℕ) (s : Bytes) → free c s ≡ true → last_cut c s ≡ none
unfolding last_cut free
last_cut-free c [] h = refl
last_cut-free c (b ∷ s) h = let e = last_cut-free c s (ground arith) in rw e (ground arith)

-- the cut is at the last of the bytes
pub last_cut-append :
    (c : ℕ) (s t : Bytes) → free c t ≡ true → last_cut c (s ++ c ∷ t) ≡ some (s, t)
unfolding last_cut
last_cut-append c [] t h = rw (last_cut-free c t h) (ground (arith, ==_iff c c))
last_cut-append c (b ∷ s) t h = rw (last_cut-append c s t h) refl

-- two words that end at the same byte
pub has_prefix-word :
    (c : ℕ) (s w t : Bytes)
    → free c s ≡ true
    → free c w ≡ true
    → has_prefix (s ++ c ∷ t) (w ++ c ∷ []) ≡ equal s w
unfolding has_prefix free equal
has_prefix-word c [] [] t hs hw = ground (arith, ==_iff c c)
has_prefix-word c [] (d ∷ w) t hs hw = ground (arith, ==_iff c d, ==_iff d c)
has_prefix-word c (b ∷ s) [] t hs hw = ground (arith, ==_iff b c)
has_prefix-word c (b ∷ s) (d ∷ w) t hs hw = ground (arith, has_prefix-word c s w t)

pub cut_at-skip :
    (c : ℕ) (sep s t : Bytes) (before after : Bytes)
    → free c s ≡ true
    → cut_at (c ∷ sep) t ≡ some (before, after)
    → cut_at (c ∷ sep) (s ++ t) ≡ some (s ++ before, after)
unfolding cut_at free has_prefix
cut_at-skip c sep [] t before after h e = e
cut_at-skip c sep (b ∷ s) t before after h e =
    let later = cut_at-skip c sep s t before after (ground arith) e in
    rw later (ground (arith, ==_iff b c))

pub cut_at-free : (c : ℕ) (s : Bytes) → free c s ≡ true → cut_at (c ∷ []) s ≡ none
unfolding cut_at free has_prefix
cut_at-free c [] h = refl
cut_at-free c (b ∷ s) h =
    let later = cut_at-free c s (ground arith) in rw later (ground (arith, ==_iff b c))

pub split_from-skip :
    (c : ℕ) (sep s t : Bytes)
    → free c s ≡ true
    → (d : Bytes) (ds : List Bytes) → split_from 0 (c ∷ sep) t ≡ d ∷ ds
    → split_from 0 (c ∷ sep) (s ++ t) ≡ (s ++ d) ∷ ds
unfolding split_from free has_prefix
split_from-skip c sep [] t h d ds e = e
split_from-skip c sep (b ∷ s) t h d ds e =
    let later = split_from-skip c sep s t (ground arith) d ds e in
    rw later (ground (arith, ==_iff b c))

pub split_from-pass : (p sep t : Bytes) → split_from (length p) sep (p ++ t) ≡ split_from 0 sep t
unfolding split_from
split_from-pass [] sep t = refl
split_from-pass (c ∷ p) sep t = split_from-pass p sep t

pub replace_byte-free : (c : ℕ) (new s : Bytes) → free c s ≡ true → replace_byte c new s ≡ s
unfolding replace_byte free
replace_byte-free c new [] h = refl
replace_byte-free c new (b ∷ s) h = ground (arith, replace_byte-free c new s)

pub replace_byte-append :
    (c : ℕ) (new s t : Bytes)
    → replace_byte c new (s ++ t) ≡ replace_byte c new s ++ replace_byte c new t
unfolding replace_byte
replace_byte-append c new [] t = refl
replace_byte-append c new (b ∷ s) t = ground (
  arith,
  replace_byte-append c new s t,
  append_assoc new (replace_byte c new s) (replace_byte c new t),
)
