-- ===== src/Base/Sort.antt =====
-- `sort.Strings`, by insertion in the order of bytes, and lists of different strings.
use zordon.Base.Tests.{ltb, ◌==◌, if◌then◌else◌, Bool-cases}
use zordon.Base.Text.{Bytes, equal, equal_iff, equal_comm}
use zordon.Base.Member.{mem, mem-snoc}
use mathlib.Core.Path.{◌≡◌, refl, sym, ◌∙◌}
use mathlib.Core.Logic.{inl, inr}
use mathlib.Core.Bool.{Bool, true, false, ◌&&◌, ◌||◌}
use mathlib.Core.List.{List, [], ◌∷◌, ◌++◌}
use native.Mathlib.Omega.{arith}

-- `<=` on Go strings
unfoldable pub string_le : Bytes → Bytes → Bool
string_le [] t = true
string_le (c ∷ s) [] = false
string_le (c ∷ s) (d ∷ t) = ltb c d || (c == d && string_le s t)

unfoldable pub insert_string : Bytes → List Bytes → List Bytes
unfolding string_le
insert_string a [] = a ∷ []
insert_string a (x ∷ xs) =
    let later = x ∷ insert_string a xs in if string_le a x then a ∷ x ∷ xs else later

unfoldable pub sort_strings : List Bytes → List Bytes
unfolding insert_string
sort_strings [] = []
sort_strings (x ∷ xs) = insert_string x (sort_strings xs)

mem-insert_string :
    (k a : Bytes) (xs : List Bytes) → mem k (insert_string a xs) ≡ (equal k a || mem k xs)
unfolding insert_string mem
mem-insert_string k a [] = refl
mem-insert_string k a (x ∷ xs) = ground (arith, mem-insert_string k a xs)

pub mem-sort_strings : (k : Bytes) (xs : List Bytes) → mem k (sort_strings xs) ≡ mem k xs
unfolding sort_strings mem
mem-sort_strings k [] = refl
mem-sort_strings k (x ∷ xs) =
    ground (arith, mem-insert_string k x (sort_strings xs), mem-sort_strings k xs)

-- no string stands in the list twice
abbrev pub Distinct : List Bytes → Type 0
Distinct [] = Unit
Distinct (x ∷ xs) = (mem x xs ≡ false) × Distinct xs

Distinct-insert_string :
    (a : Bytes) (xs : List Bytes) → mem a xs ≡ false → Distinct xs → Distinct (insert_string a xs)
unfolding insert_string mem
Distinct-insert_string a [] n d = (refl, tt)
Distinct-insert_string a (x ∷ xs) n (m, d) = elim (Bool-cases (string_le a x)) [
  | inl t ↦ rw t (n, (m, d))
  | inr t ↦ rw t (
    mem-insert_string x a xs ∙ ground (arith, equal_iff x a, equal_comm x a),
    Distinct-insert_string a xs (ground arith) d,
  )
]

pub Distinct-sort_strings : (xs : List Bytes) → Distinct xs → Distinct (sort_strings xs)
unfolding sort_strings
Distinct-sort_strings [] d = tt
Distinct-sort_strings (x ∷ xs) (m, d) =
    Distinct-insert_string x (sort_strings xs) (mem-sort_strings x xs ∙ m)
      (Distinct-sort_strings xs d)

pub Distinct-snoc :
    (xs : List Bytes) (a : Bytes) → mem a xs ≡ false → Distinct xs → Distinct (xs ++ a ∷ [])
unfolding mem
Distinct-snoc [] a n d = (refl, tt)
Distinct-snoc (x ∷ xs) a n (m, d) = (
  mem-snoc x a xs ∙ ground (arith, equal_iff x a, equal_comm x a),
  Distinct-snoc xs a (ground arith) d,
)

pub Distinct-snoc_inv :
    (xs : List Bytes) (a : Bytes) → Distinct (xs ++ a ∷ []) → (mem a xs ≡ false) × Distinct xs
unfolding mem
Distinct-snoc_inv [] a d = (refl, tt)
Distinct-snoc_inv (x ∷ xs) a (n, d) =
    let (f, e) = Distinct-snoc_inv xs a d in
    let apart : (equal x a || mem x xs) ≡ false = sym (mem-snoc x a xs) ∙ n in
    (ground (arith, apart, f, equal_comm x a), (ground (arith, apart), e))
