-- ===== src/Alphasfile/Dag/Count.antt =====
-- dag.go: how many names of a list are not yet in the order.
use zordon.Base.{
  Distinct, ℕ, ◌+◌, ◌≤◌, ◌≡◌, inl, inr, refl, true, false, List, [], ◌∷◌, ◌++◌, arith, Bool-cases,
  if◌then◌else◌, length, Bytes, equal, equal_iff, equal_refl, equal_comm, mem, mem-snoc,
}

-- the names of the second list that the first lacks
unfoldable pub missing : List Bytes → List Bytes → ℕ
unfolding mem
missing out [] = 0
missing out (d ∷ ds) = (if mem d out then 0 else 1) + missing out ds

missing_absent :
    (out ds : List Bytes) (id : Bytes)
    → mem id ds ≡ false
    → missing (out ++ id ∷ []) ds ≡ missing out ds
unfolding missing mem
missing_absent out [] id h = refl
missing_absent out (d ∷ ds) id h =
    ground (arith, missing_absent out ds id, mem-snoc d id out, equal_comm d id)

-- one more name in the order
pub missing-snoc :
    (out ds : List Bytes) (id : Bytes)
    → Distinct ds
    → mem id out ≡ false
    → missing (out ++ id ∷ []) ds + (if mem id ds then 1 else 0) ≡ missing out ds
unfolding missing mem
missing-snoc out [] id d n = refl
missing-snoc out (x ∷ ds) id (m, d) n = elim (Bool-cases (equal x id)) [
  | inl same ↦
      ground (arith, missing_absent out ds id, mem-snoc x id out, equal_comm x id, equal_iff x id)
  | inr other ↦ ground (arith, missing-snoc out ds id d n, mem-snoc x id out, equal_comm x id)
]

pub missing_zero :
    (out ds : List Bytes) (k : Bytes) → missing out ds ≡ 0 → mem k ds ≡ true → mem k out ≡ true
unfolding missing mem
missing_zero out [] k z m = cc
missing_zero out (d ∷ ds) k z m = ground (arith, missing_zero out ds k, equal_iff k d)

-- a list with something missing has a name that is missing
pub missing_pos :
    (out ds : List Bytes)
    → 1 ≤ missing out ds
    → (k : Bytes) × (mem k ds ≡ true) × (mem k out ≡ false)
unfolding missing mem
missing_pos out [] h = absurd (omega arith)
missing_pos out (d ∷ ds) h = elim (Bool-cases (mem d out)) [
  | inl t ↦ let (k, a, b) = missing_pos out ds (ground (arith, t)) in (k, ground (arith, a), b)
  | inr t ↦ (d, ground (arith, equal_refl d), t)
]

pub missing-mem :
    (out ds : List Bytes) (k : Bytes) → mem k ds ≡ true → mem k out ≡ false → 1 ≤ missing out ds
unfolding missing mem
missing-mem out [] k m n = cc
missing-mem out (d ∷ ds) k m n = ground (arith, missing-mem out ds k, equal_iff k d)

pub missing_all : (ds : List Bytes) → missing [] ds ≡ length ds
unfolding missing mem
missing_all [] = refl
missing_all (d ∷ ds) = omega (arith, missing_all ds)
