-- ===== src/LogFilter/Severity/Fuel.antt =====
-- severity.go: the loops of `valueAfterKey` and `scanLogfmt` and their fuel.
use zordon.Base.{
  ℕ, zero, suc, ◌+◌, ◌≤◌, ◌<◌, ◌≡◌, ◌≢◌, inl, inr, refl, true, [], ◌∷◌, some, arith, Bool-cases,
  Option-cases, List-cases, length, drop, length-drop, Bytes, has_prefix, index_of,
}
use zordon.LogFilter.Severity.{spent, value_at_key, value_after_key, at_boundary, logfmt_loop}

has_prefix-length : (s p : Bytes) → has_prefix s p ≡ true → length p ≤ length s
unfolding has_prefix
has_prefix-length s [] h = omega arith
has_prefix-length [] (b ∷ p) h = cc
has_prefix-length (c ∷ s) (b ∷ p) h = ground (arith, has_prefix-length s p)

-- what is found lies within the text
index_of-bounds : (s key : Bytes) {i : ℕ} → index_of s key ≡ some i → i + length key ≤ length s
unfolding index_of
index_of-bounds [] key {i} e = ground (arith, has_prefix-length [] key)
index_of-bounds (c ∷ s) key {i} e = elim (Bool-cases (has_prefix (c ∷ s) key)) [
  | inl t ↦ ground (arith, t, has_prefix-length (c ∷ s) key t)
  | inr t ↦ elim (Option-cases (index_of s key)) [
    | inl n ↦ ground (arith, t, n)
    | inr (j, q) ↦ ground (arith, t, q, index_of-bounds s key q)
  ]
]

value_after_key-enough :
    (f g : ℕ) (key rest : Bytes)
    → 1 ≤ length key
    → length rest < f
    → length rest < g
    → (value_after_key f key rest ≢ spent)
      × (value_after_key f key rest ≡ value_after_key g key rest)
unfolding value_after_key
value_after_key-enough zero g key rest k a b = absurd (omega arith)
value_after_key-enough (suc f) zero key rest k a b = absurd (omega arith)
value_after_key-enough (suc f) (suc g) key rest k a b = elim (Option-cases (index_of rest key)) [
  | inl n ↦ rw (n, value_after_key) ((λ e. cc), refl)
  | inr (rel, q) ↦ elim (List-cases (value_at_key (drop (rel + length key) rest))) [
    | inl v ↦
        rw (q, v, value_after_key)
          (value_after_key-enough f g key (drop (rel + length key) rest) k
            (omega (arith, index_of-bounds rest key q, length-drop (rel + length key) rest))
            (omega (arith, index_of-bounds rest key q, length-drop (rel + length key) rest)))
    | inr (c, cs, v) ↦ rw (q, v, value_after_key) ((λ e. cc), refl)
  ]
]

logfmt_loop-enough :
    (f g : ℕ) (raw needle : Bytes) (from : ℕ)
    → 1 ≤ length needle
    → length raw < f + from
    → length raw < g + from
    → from ≤ length raw
    → (logfmt_loop f raw needle from ≢ spent)
      × (logfmt_loop f raw needle from ≡ logfmt_loop g raw needle from)
unfolding logfmt_loop
logfmt_loop-enough zero g raw needle from k a b c = absurd (omega arith)
logfmt_loop-enough (suc f) zero raw needle from k a b c = absurd (omega arith)
logfmt_loop-enough (suc f) (suc g) raw needle from k a b c =
    elim (Option-cases (index_of (drop from raw) needle)) [
      | inl n ↦ rw (n, logfmt_loop) ((λ e. cc), refl)
      | inr (rel, q) ↦ elim (Bool-cases (at_boundary raw (from + rel))) [
        | inl t ↦ rw (q, t, logfmt_loop) ((λ e. cc), refl)
        | inr t ↦
            rw (q, t, logfmt_loop)
              (logfmt_loop-enough f g raw needle (from + rel + length needle) k (omega arith)
                (omega arith)
                (omega (arith, index_of-bounds (drop from raw) needle q, length-drop from raw)))
      ]
    ]

-- The loops of `valueAfterKey` and `scanLogfmt` end: on every line and for every key that is not
-- empty, no fuel above the length of the line is spent, and all of them give the same answer.
pub scanners-end :
    (raw key : Bytes) (f g : ℕ)
    → 1 ≤ length key
    → length raw < f
    → length raw < g
    → ((value_after_key f key raw ≢ spent)
        × (value_after_key f key raw ≡ value_after_key g key raw))
      × ((logfmt_loop f raw key 0 ≢ spent) × (logfmt_loop f raw key 0 ≡ logfmt_loop g raw key 0))
scanners-end raw key f g k a b = (
  value_after_key-enough f g key raw k a b,
  logfmt_loop-enough f g raw key 0 k (omega (arith, a)) (omega (arith, b)) (omega arith),
)
