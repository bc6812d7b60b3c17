-- ===== src/LogFilter/Plan/Flip.antt =====
-- plan.go, `flipOp`: comparisons turned round.
use zordon.Base.{
  ◌≡◌, inl, inr, refl, false, Bool-cases, ℤ, eqb_ℤ_comm, Bytes, codes, equal, equal_iff, equal_comm,
}
use zordon.LogFilter.Deps.{Deps}
use zordon.LogFilter.Plan.{flip_op}
use zordon.LogFilter.Predicate.{cmp_int, cmp_str, cmp_float}

-- none of the four orders
abbrev NoOrder : Bytes → Type 0
NoOrder op =
    (equal op (codes "<") ≡ false)
    × (equal op (codes "<=") ≡ false)
    × (equal op (codes ">") ≡ false)
    × (equal op (codes ">=") ≡ false)

data Orders : Bytes → Type 0 where
  less : {op : Bytes} → op ≡ codes "<" → Orders op
  at_most : {op : Bytes} → op ≡ codes "<=" → Orders op
  more : {op : Bytes} → op ≡ codes ">" → Orders op
  at_least : {op : Bytes} → op ≡ codes ">=" → Orders op
  other : {op : Bytes} → NoOrder op → Orders op

orders : (op : Bytes) → Orders op
orders op = elim (Bool-cases (equal op (codes "<"))) [
  | inl a ↦ less ((equal_iff op _).0 a)
  | inr a ↦ elim (Bool-cases (equal op (codes "<="))) [
    | inl b ↦ at_most ((equal_iff op _).0 b)
    | inr b ↦ elim (Bool-cases (equal op (codes ">"))) [
      | inl c ↦ more ((equal_iff op _).0 c)
      | inr c ↦ elim (Bool-cases (equal op (codes ">="))) [
        | inl e ↦ at_least ((equal_iff op _).0 e)
        | inr e ↦ other (a, b, c, e)
      ]
    ]
  ]
]

-- An operator and its flip: the four orders and their mirrors, and any other word with itself.
flip_cases {ℓ} :
    (P : Bytes → Bytes → Type ℓ)
    → P (codes ">") (codes "<")
    → P (codes ">=") (codes "<=")
    → P (codes "<") (codes ">")
    → P (codes "<=") (codes ">=")
    → ((op : Bytes) → NoOrder op → P op op)
    → (op : Bytes) → P (flip_op op) op
unfolding flip_op equal
flip_cases P l m g n rest op = go op (orders op)
  where
    go : (op : Bytes) → Orders op → P (flip_op op) op
    go op (less e) = rw e l
    go op (at_most e) = rw e m
    go op (more e) = rw e g
    go op (at_least e) = rw e n
    go op (other (a, b, c, e)) = rw (a, b, c, e) (rest op (a, b, c, e))

-- Turning a comparison of integers round with `flipOp` does not change its truth, for every
-- operator, unknown ones included.
pub cmp_int-flip_op : (a : ℤ) (op : Bytes) (b : ℤ) → cmp_int a (flip_op op) b ≡ cmp_int b op a
unfolding cmp_int equal
cmp_int-flip_op a op b =
    flip_cases (λ flipped op. cmp_int a flipped b ≡ cmp_int b op a) refl refl refl refl
      (λ op (u, v, w, x). rw (u, v, w, x, eqb_ℤ_comm a b) refl) op

module _ (d : Deps) (float_eq_comm : (a b : d.Float) → d.float_eq a b ≡ d.float_eq b a) where
  -- Turning a comparison of floats round with `flipOp` does not change its truth, for every
  -- operator, if `==` on floats is symmetric.
  pub cmp_float-flip_op :
      (a : d.Float) (op : Bytes) (b : d.Float) → cmp_float d a (flip_op op) b ≡ cmp_float d b op a
  unfolding cmp_float equal
  cmp_float-flip_op a op b =
      flip_cases (λ flipped op. cmp_float d a flipped b ≡ cmp_float d b op a) refl refl refl refl
        (λ op (u, v, w, x). rw (u, v, w, x, float_eq_comm a b) refl) op

-- Turning a comparison of strings round with `flipOp` does not change its truth, for every
-- operator.
pub cmp_str-flip_op : (a op b : Bytes) → cmp_str a (flip_op op) b ≡ cmp_str b op a
unfolding cmp_str equal
cmp_str-flip_op a op b =
    flip_cases (λ flipped op. cmp_str a flipped b ≡ cmp_str b op a) same same same same
      (λ op _. rw (equal_comm a b) refl) op
  where
    same : equal a b ≡ equal b a
    same = equal_comm a b
