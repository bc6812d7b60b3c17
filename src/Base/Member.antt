-- ===== src/Base/Member.antt =====
-- Membership of strings in lists, as a test, and finite maps from strings as association lists.
use mathlib.Core.List.{List, [], ◌∷◌, ◌++◌}
use mathlib.Core.Bool.{Bool, true, false, ◌||◌}
use mathlib.Core.Option.{Option, none, some}
use mathlib.Core.Path.{◌≡◌, refl}
use mathlib.Core.Logic.{◌⊎◌}
use native.Mathlib.Omega.{arith}
use zordon.Base.Tests.{if◌then◌else◌}
use zordon.Base.Text.{Bytes, equal, equal_iff}

-- a key of a Go `map[string]bool` or `map[string]struct{}`
unfoldable pub mem : Bytes → List Bytes → Bool
mem a [] = false
mem a (x ∷ xs) = equal a x || mem a xs

pub mem-append : (a : Bytes) (xs ys : List Bytes) → mem a (xs ++ ys) ≡ (mem a xs || mem a ys)
unfolding mem
mem-append a [] ys = refl
mem-append a (x ∷ xs) ys = ground (arith, mem-append a xs ys)

pub mem-cons : (a x : Bytes) (xs : List Bytes) → mem a (x ∷ xs) ≡ true → (a ≡ x) ⊎ (mem a xs ≡ true)
unfolding mem
mem-cons a x xs h = ground (arith, equal_iff a x)

pub mem_head : (a : Bytes) (xs : List Bytes) → mem a (a ∷ xs) ≡ true
unfolding mem
mem_head a xs = ground (arith, equal_iff a a)

pub mem_tail : (a x : Bytes) (xs : List Bytes) → mem a xs ≡ true → mem a (x ∷ xs) ≡ true
unfolding mem
mem_tail a x xs h = ground arith

pub mem-snoc : (a x : Bytes) (xs : List Bytes) → mem a (xs ++ x ∷ []) ≡ mem a (x ∷ xs)
unfolding mem
mem-snoc a x [] = refl
mem-snoc a x (y ∷ xs) = ground (arith, mem-snoc a x xs)

module _ {ℓ} {V : Type ℓ} where
  -- `m[k]`
  unfoldable pub lookup : Bytes → List (Bytes × V) → Option V
  lookup k [] = none
  lookup k ((j, v) ∷ m) = if equal j k then some v else lookup k m

  -- `m[k] = v`
  unfoldable pub insert : Bytes → V → List (Bytes × V) → List (Bytes × V)
  insert k v [] = (k, v) ∷ []
  insert k v ((j, w) ∷ m) = if equal j k then (k, v) ∷ m else (j, w) ∷ insert k v m

  pub lookup-insert :
      (k j : Bytes) (v : V) (m : List (Bytes × V))
      → lookup j (insert k v m) ≡ (if equal k j then some v else lookup j m)
  unfolding lookup insert
  lookup-insert k j v [] = refl
  lookup-insert k j v ((i, w) ∷ m) =
      ground (arith, equal_iff k j, equal_iff i k, equal_iff i j, lookup-insert k j v m)
