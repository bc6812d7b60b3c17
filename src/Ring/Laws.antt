-- ===== src/Ring/Laws.antt =====
-- ring.go: the lines that a ring holds, as a list.
use mathlib.Core.Option.{some-injective}
use mathlib.Core.Path.{subst}
use zordon.Base.{
  ℕ, zero, suc, ◌+◌, ◌-◌, ◌<◌, ◌≡◌, inl, inr, refl, sym, ap, ap₂, ◌∙◌, false, List, [], ◌∷◌, ◌++◌,
  append-nil, append_assoc, some, arith, Bool-cases, if◌then◌else◌, length, set, take, drop,
  replicate, length-append, length-set, length-take, length-drop, length-replicate, drop_all,
  take-suc-set, drop-suc-set, drop_one-drop, drop-drop, drop-append, set_last, ℤ, pos, negsuc,
  pos_part, Bytes,
}
use zordon.Ring.{Buffer, new, push, len, dump}

pub record IsValid (b : Buffer) : Type 0 where
  pub sized : length b.lines ≡ b.cap
  pub next_in : b.next < b.cap

-- the last `n` items
abbrev pub keep_last : ℕ → List Bytes → List Bytes
keep_last n xs = drop (length xs - n) xs

pub new-IsValid : (c : ℤ) {b : Buffer} → new c ≡ some b → IsValid b
unfolding new
new-IsValid (pos zero) e = cc
new-IsValid (pos (suc n)) e = ground (arith, length-replicate {A = Bytes} (suc n) [])
new-IsValid (negsuc n) e = cc

pub push-IsValid : (b : Buffer) (s : Bytes) → IsValid b → IsValid (push b s)
unfolding push
push-IsValid b s v = ground (arith, length-set b.lines b.next s)

-- On a valid ring `Dump` returns as many lines as `Len` says.
pub length-dump : (b : Buffer) → IsValid b → length (dump b) ≡ len b
unfolding dump len
length-dump b v = ground (
  arith,
  length-append (drop b.next b.lines) (take b.next b.lines),
  length-take b.next b.lines,
  length-drop b.next b.lines,
)

-- the list of the lines kept, after one more is pushed
dump-push_at :
    (b : Buffer) (s : Bytes)
    → IsValid b
    → dump (push b s) ≡ (if b.filled then drop 1 (dump b) else dump b) ++ s ∷ []
unfolding dump push
dump-push_at b s v = ground (
  arith,
  set_last b.lines b.next s,
  take-suc-set b.lines b.next s,
  drop-suc-set b.lines b.next s,
  drop_one-drop b.next b.lines,
  drop_all (suc b.next) b.lines,
  length-drop b.next b.lines,
  drop-append 1 (drop b.next b.lines) (take b.next b.lines),
  append-nil (set b.lines b.next s),
  append_assoc (drop (suc b.next) b.lines) (take b.next b.lines) (s ∷ []),
)

-- On a valid ring, one push keeps the last `cap` of the lines held and the new one, in their order.
pub dump-push :
    (b : Buffer) (s : Bytes) → IsValid b → dump (push b s) ≡ keep_last b.cap (dump b ++ s ∷ [])
unfolding len
dump-push b s v = dump-push_at b s v ∙ elim (Bool-cases b.filled) [
  | inl f ↦ simp f (
      sym (
        excess 1 (ground (arith, facts)) ∙ drop-append 1 (dump b) (s ∷ []) (ground (arith, facts))))
  | inr f ↦ simp f (sym (excess 0 (ground (arith, facts))))
]
  where
    facts :
        (length (dump b) ≡ len b)
        × (length (dump b ++ s ∷ []) ≡ length (dump b) + 1)
        × (b.next < b.cap)
    facts = (length-dump b v, length-append (dump b) (s ∷ []), v.next_in)

    excess :
        (n : ℕ)
        → length (dump b ++ s ∷ []) - b.cap ≡ n
        → keep_last b.cap (dump b ++ s ∷ []) ≡ drop n (dump b ++ s ∷ [])
    excess n e = ap (λ k. drop k (dump b ++ s ∷ [])) e

pub push_all : Buffer → List Bytes → Buffer
push_all b [] = b
push_all b (s ∷ ss) = push_all (push b s) ss

keep_last-keep_last :
    (n : ℕ) (xs : List Bytes) (s : Bytes)
    → keep_last n (keep_last n xs ++ s ∷ []) ≡ keep_last n (xs ++ s ∷ [])
keep_last-keep_last n xs s =
    ap (keep_last n) (sym (drop-append (length xs - n) xs (s ∷ []) (omega arith)))
    ∙ drop-drop _ (length xs - n) (xs ++ s ∷ [])
    ∙ ap (λ k. drop k (xs ++ s ∷ []))
        (omega (arith, length-append xs (s ∷ []), length-drop (length xs - n) (xs ++ s ∷ [])))

cap-push : (b : Buffer) (s : Bytes) → (push b s).cap ≡ b.cap
unfolding push
cap-push b s = ground arith

dump-push_all :
    (ss hist : List Bytes) (b : Buffer)
    → IsValid b
    → dump b ≡ keep_last b.cap hist
    → dump (push_all b ss) ≡ keep_last b.cap (hist ++ ss)
unfolding push_all
dump-push_all [] hist b v e = e ∙ ap (keep_last b.cap) (sym (append-nil hist))
dump-push_all (s ∷ ss) hist b v e =
    dump-push_all ss (hist ++ s ∷ []) (push b s) (push-IsValid b s v) step
    ∙ ap₂ keep_last (cap-push b s) (append_assoc hist (s ∷ []) ss)
  where
    step : dump (push b s) ≡ keep_last (push b s).cap (hist ++ s ∷ [])
    step =
        dump-push b s v
        ∙ ap (λ d. keep_last b.cap (d ++ s ∷ [])) e
        ∙ keep_last-keep_last b.cap hist s
        ∙ ap (λ c. keep_last c (hist ++ s ∷ [])) (sym (cap-push b s))

-- A fresh ring of capacity `cap` dumps, after any lines were pushed, the last `cap` of them in
-- the order in which they came.
pub dump-new :
    (cap : ℤ) {b : Buffer} (ss : List Bytes)
    → new cap ≡ some b
    → dump (push_all b ss) ≡ keep_last (pos_part cap) ss
unfolding new dump
dump-new (pos zero) ss e = cc
dump-new (negsuc n) ss e = cc
dump-new (pos (suc n)) ss e =
    subst (λ b. dump (push_all b ss) ≡ keep_last (suc n) ss) (some-injective _ _ e)
      (dump-push_all ss [] fresh (new-IsValid (pos (suc n)) refl)
        (sym (drop_all (0 - suc n) [] (omega arith))))
  where
    fresh : Buffer
    fresh = record { cap = suc n; lines = replicate (suc n) []; next = 0; filled = false }
