-- ===== src/Env/Overlay.antt =====
-- zenv.go, `Join`, `FromHost` and `dedupStrings`: what a key is worth after layers are laid over
-- one another, and what is left of a list without its repeats.
use zordon.Base.{
  true, ◌≡◌, inl, inr, refl, sym, ap, ◌∙◌, false, not, ◌&&◌, ◌||◌, List, [], ◌∷◌, Option, none,
  some, arith, Bool-cases, Option-cases, if◌then◌else◌, Bytes, equal, equal_iff, equal_refl, mem,
  lookup, insert, lookup-insert,
}
use zordon.Env.{Vars, copy, join, dedup, cut, keep_allowed, from_host}

abbrev pub or_else : Option Bytes → Option Bytes → Option Bytes
or_else none b = b
or_else (some v) b = some v

pub or_else_assoc : (a b c : Option Bytes) → or_else (or_else a b) c ≡ or_else a (or_else b c)
or_else_assoc none b c = refl
or_else_assoc (some v) b c = refl

lookup-copy :
    (k : Bytes) (out o : Vars) → lookup k (copy out o) ≡ or_else (lookup k o) (lookup k out)
unfolding copy lookup
lookup-copy k out [] = refl
lookup-copy k out ((j, v) ∷ o) =
    ground (arith, lookup-insert j k v (copy out o), lookup-copy k out o)

-- the value in the last layer that has the key
unfoldable pub topmost : Bytes → List Vars → Option Bytes
unfolding lookup
topmost k [] = none
topmost k (o ∷ os) = or_else (topmost k os) (lookup k o)

-- After `Join` a key has its value of the last layer that has it, and else its value before.
pub lookup-join :
    (k : Bytes) (e : Vars) (os : List Vars)
    → lookup k (join e os) ≡ or_else (topmost k os) (lookup k e)
unfolding join topmost
lookup-join k e [] = refl
lookup-join k e (o ∷ os) =
    lookup-join k (copy e o) os
    ∙ ap (or_else (topmost k os)) (lookup-copy k e o)
    ∙ sym (or_else_assoc (topmost k os) (lookup k o) (lookup k e))

-- the value in the last entry of the host's environment for the key
unfoldable pub host_value : Bytes → List Bytes → Option Bytes
unfolding cut equal
host_value k [] = none
host_value k (kv ∷ kvs) =
    or_else (host_value k kvs)
      (elim (cut kv) [ none ↦ none | some (j, v) ↦ if equal j k then some v else none ])

lookup-keep_allowed :
    (allow : List Bytes) (k : Bytes) (out : Vars) (environ : List Bytes)
    → lookup k (keep_allowed allow out environ)
      ≡ (if mem k allow then or_else (host_value k environ) (lookup k out) else lookup k out)
unfolding keep_allowed host_value
lookup-keep_allowed allow k out [] = ground arith
lookup-keep_allowed allow k out (kv ∷ kvs) = elim (Option-cases (cut kv)) [
  | inl e ↦ rw (e, keep_allowed) (lookup-keep_allowed allow k out kvs ∙ ground arith)
  | inr ((j, v), e) ↦
      rw (e, keep_allowed)
        (lookup-keep_allowed allow k (if mem j allow then insert j v out else out) kvs
          ∙ ground (arith, lookup-insert j k v out, equal_iff j k))
]

-- `FromHost` lets a key of the host's environment through if and only if it is on the list, with
-- the value of its last entry.
pub lookup-from_host :
    (allow : List Bytes) (k : Bytes) (environ : List Bytes)
    → lookup k (from_host allow environ) ≡ (if mem k allow then host_value k environ else none)
unfolding from_host mem lookup
lookup-from_host [] k environ = refl
lookup-from_host (a ∷ allow) k environ =
    lookup-keep_allowed (a ∷ allow) k [] environ ∙ (unfold lookup mem in ground arith)

-- no text of the list is empty or stands in it again
abbrev pub AllDistinct : List Bytes → Type 0
AllDistinct [] = Unit
AllDistinct (x ∷ xs) = (equal x [] ≡ false) × (mem x xs ≡ false) × AllDistinct xs

mem-dedup_seen :
    (a : Bytes) (seen s : List Bytes)
    → mem a (dedup seen s) ≡ (mem a s && not (equal a [] || mem a seen))
unfolding dedup mem
mem-dedup_seen a seen [] = refl
mem-dedup_seen a seen (v ∷ s) =
    ground (arith, mem-dedup_seen a seen s, mem-dedup_seen a (v ∷ seen) s, equal_iff a v)

dedup-AllDistinct : (seen s : List Bytes) → AllDistinct (dedup seen s)
unfolding dedup
dedup-AllDistinct seen [] = tt
dedup-AllDistinct seen (v ∷ s) = elim (Bool-cases (equal v [] || mem v seen)) [
  | inl t ↦ rw t (dedup-AllDistinct seen s)
  | inr t ↦ rw t (
    ground (arith, t),
    mem-dedup_seen v (v ∷ seen) s ∙ (unfold mem in ground (arith, equal_refl v)),
    dedup-AllDistinct (v ∷ seen) s,
  )
]

-- `dedupStrings` keeps the texts that are not empty, each of them once.
pub dedup_lem :
    (s : List Bytes)
    → AllDistinct (dedup [] s) × ((a : Bytes) → mem a (dedup [] s) ≡ (mem a s && not (equal a [])))
dedup_lem s = (dedup-AllDistinct [] s, λ a. mem-dedup_seen a [] s ∙ (unfold mem in ground arith))

-- the texts of the second list that do not stand in the first
unfoldable pub unseen : List Bytes → List Bytes → List Bytes
unfolding mem
unseen seen [] = []
unseen seen (x ∷ xs) = let rest = unseen seen xs in if mem x seen then rest else x ∷ rest

-- the texts of the list that are not empty, in the order of their first occurrences
unfoldable pub firsts : List Bytes → List Bytes
unfolding unseen equal
firsts [] = []
firsts (x ∷ xs) = let rest = firsts xs in if equal x [] then rest else x ∷ unseen (x ∷ []) rest

unseen-unseen_one :
    (v : Bytes) (seen xs : List Bytes) → unseen seen (unseen (v ∷ []) xs) ≡ unseen (v ∷ seen) xs
unfolding unseen mem
unseen-unseen_one v seen [] = refl
unseen-unseen_one v seen (x ∷ xs) = ground (arith, unseen-unseen_one v seen xs)

unseen_again :
    (v : Bytes) (seen xs : List Bytes) → mem v seen ≡ true → unseen (v ∷ seen) xs ≡ unseen seen xs
unfolding unseen mem
unseen_again v seen [] h = refl
unseen_again v seen (x ∷ xs) h = ground (arith, unseen_again v seen xs h, equal_iff x v)

unseen_none : (xs : List Bytes) → unseen [] xs ≡ xs
unfolding unseen mem
unseen_none [] = refl
unseen_none (x ∷ xs) = ground (arith, unseen_none xs)

dedup-unseen : (seen s : List Bytes) → dedup seen s ≡ unseen seen (firsts s)
unfolding dedup firsts unseen
dedup-unseen seen [] = refl
dedup-unseen seen (v ∷ s) = ground (
  arith,
  dedup-unseen seen s,
  dedup-unseen (v ∷ seen) s,
  unseen-unseen_one v seen (firsts s),
  unseen_again v seen (firsts s),
)

pub dedup-firsts : (s : List Bytes) → dedup [] s ≡ firsts s
dedup-firsts s = dedup-unseen [] s ∙ unseen_none (firsts s)
