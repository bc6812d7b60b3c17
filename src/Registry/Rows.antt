-- ===== src/Registry/Rows.antt =====
-- registry.go: the rows that are left when some are taken out.
use zordon.Base.{
  ℕ, suc, ◌≡◌, inl, inr, refl, Bool, false, ◌&&◌, List, [], ◌∷◌, arith, Bool-cases, if◌then◌else◌,
  ℤ, Bytes, equal, equal_iff, equal_refl,
}
use zordon.Registry.{Entry, drop_by_service, of_hash, not_of_hash, found_alive}

-- the rows of one service
unfoldable pub rows_of : Bytes → Bytes → List Entry → List Entry
unfolding equal
rows_of hash name [] = []
rows_of hash name (e ∷ es) =
    let rest = rows_of hash name es in
    if equal e.fs_hash hash && equal e.service name then e ∷ rest else rest

-- the first list is the second with some rows left out
pub data Sublist : List Entry → List Entry → Type 0 where
  nothing : Sublist [] []
  keep : {e : Entry} {xs ys : List Entry} → Sublist xs ys → Sublist (e ∷ xs) (e ∷ ys)
  skip : {e : Entry} {xs ys : List Entry} → Sublist xs ys → Sublist xs (e ∷ ys)

rows_of-drop_by_service :
    (hash name : Bytes) (es : List Entry) → rows_of hash name (drop_by_service es hash name) ≡ []
unfolding rows_of drop_by_service
rows_of-drop_by_service hash name [] = refl
rows_of-drop_by_service hash name (e ∷ es) = ground (arith, rows_of-drop_by_service hash name es)

rows_of_other-drop_by_service :
    (hash name hash' name' : Bytes) (es : List Entry)
    → (equal hash' hash && equal name' name) ≡ false
    → rows_of hash' name' (drop_by_service es hash name) ≡ rows_of hash' name' es
unfolding rows_of drop_by_service
rows_of_other-drop_by_service hash name hash' name' [] h = refl
rows_of_other-drop_by_service hash name hash' name' (e ∷ es) h = ground (
  arith,
  rows_of_other-drop_by_service hash name hash' name' es h,
  equal_iff e.fs_hash hash,
  equal_iff e.service name,
  equal_iff e.fs_hash hash',
  equal_iff e.service name',
  equal_refl hash,
  equal_refl name,
)

drop_by_service-Sublist :
    (hash name : Bytes) (es : List Entry) → Sublist (drop_by_service es hash name) es
unfolding drop_by_service
drop_by_service-Sublist hash name [] = nothing
drop_by_service-Sublist hash name (e ∷ es) =
    elim (Bool-cases (equal e.fs_hash hash && equal e.service name)) [
      | inl t ↦ rw t (skip (drop_by_service-Sublist hash name es))
      | inr t ↦ rw t (keep (drop_by_service-Sublist hash name es))
    ]

-- what is left when the rows of one service, and no others, are taken out, in their order
pub record IsWithout (hash name : Bytes) (es left : List Entry) : Type 0 where
  pub sublist : Sublist left es
  pub own_gone : rows_of hash name left ≡ []
  pub others_kept :
      (hash' name' : Bytes)
      → (equal hash' hash && equal name' name) ≡ false
      → rows_of hash' name' left ≡ rows_of hash' name' es

pub drop_by_service-IsWithout :
    (hash name : Bytes) (es : List Entry) → IsWithout hash name es (drop_by_service es hash name)
drop_by_service-IsWithout hash name es = record {
  sublist = drop_by_service-Sublist hash name es;
  own_gone = rows_of-drop_by_service hash name es;
  others_kept = λ hash' name' h. rows_of_other-drop_by_service hash name hash' name' es h;
}

pub of_hash-not_of_hash : (hash : Bytes) (es : List Entry) → of_hash hash (not_of_hash hash es) ≡ []
unfolding of_hash not_of_hash
of_hash-not_of_hash hash [] = refl
of_hash-not_of_hash hash (e ∷ es) = ground (arith, of_hash-not_of_hash hash es)

pub of_hash-not_of_hash_other :
    (hash other : Bytes) (es : List Entry)
    → equal other hash ≡ false
    → of_hash other (not_of_hash hash es) ≡ of_hash other es
unfolding of_hash not_of_hash
of_hash-not_of_hash_other hash other [] h = refl
of_hash-not_of_hash_other hash other (e ∷ es) h = ground (
  arith,
  of_hash-not_of_hash_other hash other es h,
  equal_iff e.fs_hash hash,
  equal_iff e.fs_hash other,
  equal_iff other hash,
)

pub found_alive-Sublist :
    (probe : ℕ → ℤ → Bool) (k : ℕ) (es : List Entry) → Sublist (found_alive probe k es).0 es
unfolding found_alive
found_alive-Sublist probe k [] = nothing
found_alive-Sublist probe k (e ∷ es) = elim (Bool-cases (probe k e.pgid)) [
  | inl t ↦ rw t (keep (found_alive-Sublist probe (suc k) es))
  | inr t ↦ rw t (skip (found_alive-Sublist probe (suc k) es))
]
