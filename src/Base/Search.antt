-- ===== src/Base/Search.antt =====
-- Go's searches in byte slices (package bytes): Index, Contains, HasSuffix, and the two ends of a
-- run of bytes that pass a test.
use zordon.Base.Lists.{length, drop}
use zordon.Base.Tests.{◌==◌, leb, if◌then◌else◌}
use zordon.Base.Text.{Bytes, equal, has_prefix}
use Prim.Native.Nat.{ℕ, suc, ◌-◌}
use mathlib.Core.Bool.{Bool, true, false, not, ◌&&◌}
use mathlib.Core.List.{[], ◌∷◌}
use mathlib.Core.Option.{Option, none, some}

abbrev shift : Option ℕ → Option ℕ
shift none = none
shift (some i) = some (suc i)

-- `bytes.Index`
unfoldable pub index_of : Bytes → Bytes → Option ℕ
unfolding has_prefix
index_of [] key = if has_prefix [] key then some 0 else none
index_of (c ∷ s) key =
    let later = shift (index_of s key) in if has_prefix (c ∷ s) key then some 0 else later

-- `bytes.Contains`
unfoldable pub contains : Bytes → Bytes → Bool
unfolding index_of
contains s sub = elim (index_of s sub) [ none ↦ false | some i ↦ true ]

-- `bytes.HasSuffix`
unfoldable pub has_suffix : Bytes → Bytes → Bool
unfolding equal
has_suffix s p = leb (length p) (length s) && equal (drop (length s - length p) s) p

abbrev pub take_while : (ℕ → Bool) → Bytes → Bytes
take_while p [] = []
take_while p (c ∷ s) = let run = c ∷ take_while p s in if p c then run else []

abbrev pub drop_while : (ℕ → Bool) → Bytes → Bytes
drop_while p [] = []
drop_while p (c ∷ s) = if p c then drop_while p s else c ∷ s

-- The text has no byte `c`.
unfoldable pub free : ℕ → Bytes → Bool
free c [] = true
free c (b ∷ s) = not (b == c) && free c s
