-- ===== src/Summary/Order.antt =====
-- summary.go, `depTimings`: the order of the dependencies and the long pole.
use mathlib.Core.List.{Permᴰ}
use mathlib.Core.Path.{subst}
use mathlib.Core.List.Permᴰ
use mathlib.Core.List.Permᴰ.{nil, cons, swap, trans}
use zordon.Base.{
  ℕ, suc, ◌≤◌, ◌≡◌, ◌⊎◌, inl, inr, refl, ap, ◌∙◌, true, false, List, [], ◌∷◌, ◌++◌, map, arith,
  length,
}
use zordon.Summary.{Sort, DepTiming, Dep, flag_last, flag_long_pole, dep_timing, dep_timings}

-- no key is below an earlier one, or below `n`
abbrev pub Ascending {ℓ} : {A : Type ℓ} → (A → ℕ) → ℕ → List A → Type 0
Ascending key n [] = Unit
Ascending key n (x ∷ xs) = (n ≤ key x) × Ascending key (key x) xs

-- What the report relies on: the sort orders by the key and keeps the items.
pub record IsSort (sort : Sort) : Type 1 where
  pub ascending : (A : Type 0) (key : A → ℕ) (xs : List A) → Ascending key 0 (sort A key xs)
  pub keeps : (A : Type 0) (key : A → ℕ) (xs : List A) → Permᴰ (sort A key xs) xs

abbrev pub Every {ℓ κ} : {A : Type ℓ} → (A → Type κ) → List A → Type κ
Every P [] = Unit
Every P (x ∷ xs) = P x × Every P xs

Every-Permᴰ {ℓ κ} :
    {A : Type ℓ} (P : A → Type κ) {xs ys : List A} → Permᴰ xs ys → Every P xs → Every P ys
Every-Permᴰ P nil h = tt
Every-Permᴰ P (cons e p) (a, h) = (subst P e a, Every-Permᴰ P p h)
Every-Permᴰ P (swap e f) (a, (b, h)) = (subst P f b, (subst P e a, h))
Every-Permᴰ P (trans p q) h = Every-Permᴰ P q (Every-Permᴰ P p h)

-- the items before the last one, and the last one
record Ends (d : DepTiming) (ds : List DepTiming) : Type 0 where
  front : List DepTiming
  pole : DepTiming
  flags : flag_last (d ∷ ds) ≡ front ++ record pole { long_pole = true } ∷ []
  unflagged : Every (λ t. t.long_pole ≡ false) (d ∷ ds) → Every (λ t. t.long_pole ≡ false) front
  most :
      (n : ℕ)
      → Ascending (λ t. t.wait_ms) n (d ∷ ds)
      → (n ≤ pole.wait_ms) × Every (λ t. t.wait_ms ≤ pole.wait_ms) (d ∷ ds)

flag_last-Ends : (d : DepTiming) (ds : List DepTiming) → Ends d ds
unfolding flag_last
flag_last-Ends d [] = record {
  front = [];
  pole = d;
  flags = refl;
  unflagged = λ h. tt;
  most = λ n (a, _). (a, (omega arith, tt));
}
flag_last-Ends d (e ∷ ds) =
    let r = flag_last-Ends e ds in
    record {
      front = d ∷ r.front;
      pole = r.pole;
      flags = ap (λ xs. d ∷ xs) r.flags;
      unflagged = λ (a, h). (a, r.unflagged h);
      most = λ n (a, h). let (b, c) = r.most d.wait_ms h in (omega (arith, a, b), (b, c));
    }

length-Permᴰ {ℓ} : {A : Type ℓ} {xs ys : List A} → Permᴰ xs ys → length xs ≡ length ys
length-Permᴰ nil = refl
length-Permᴰ (cons e p) = ap suc (length-Permᴰ p)
length-Permᴰ (swap e f) = refl
length-Permᴰ (trans p q) = length-Permᴰ p ∙ length-Permᴰ q

length-map {ℓ κ} :
    {A : Type ℓ} {B : Type κ} (f : A → B) (xs : List A) → length (map f xs) ≡ length xs
length-map f [] = refl
length-map f (x ∷ xs) = ap suc (length-map f xs)

-- The last timing is the one long pole, and no other of `ds` is longer; `n` is their number.
abbrev pub OneLongPole : ℕ → List DepTiming → List DepTiming → Type 0
OneLongPole n out ds =
    (2 ≤ n)
    × (front : List DepTiming) × (pole : DepTiming) × (out
        ≡ front ++ record pole { long_pole = true } ∷ [])
    × Every (λ t. t.long_pole ≡ false) front
    × Every (λ t. t.wait_ms ≤ pole.wait_ms) ds

abbrev pub NoLongPole : ℕ → List DepTiming → Type 0
NoLongPole n out = (n ≤ 1) × Every (λ t. t.long_pole ≡ false) out

flag_long_pole_lem :
    (sorted ds : List DepTiming)
    → Permᴰ sorted ds
    → Ascending (λ t. t.wait_ms) 0 sorted
    → Every (λ t. t.long_pole ≡ false) ds
    → OneLongPole (length ds) (flag_long_pole sorted) ds
      ⊎ NoLongPole (length ds) (flag_long_pole sorted)
unfolding flag_long_pole
flag_long_pole_lem [] ds p a h = inr (omega (arith, length-Permᴰ p), tt)
flag_long_pole_lem (x ∷ []) ds p a h =
    inr (omega (arith, length-Permᴰ p), Every-Permᴰ _ (Permᴰ.symm p) h)
flag_long_pole_lem (x ∷ y ∷ zs) ds p a h =
    let r = flag_last-Ends x (y ∷ zs) in
    inl (
      omega (arith, length-Permᴰ p),
      r.front,
      r.pole,
      r.flags,
      r.unflagged (Every-Permᴰ _ (Permᴰ.symm p) h),
      Every-Permᴰ _ p (r.most 0 a).1,
    )

dep_timing-unflagged :
    (scheduled : ℕ) (deps : List Dep)
    → Every (λ t. t.long_pole ≡ false) (map (dep_timing scheduled) deps)
unfolding dep_timing
dep_timing-unflagged scheduled [] = tt
dep_timing-unflagged scheduled (d ∷ ds) = (refl, dep_timing-unflagged scheduled ds)

-- If the sort orders by its key and keeps the items: a service with two dependencies or more has
-- exactly one long pole in its report, which stands last, and no dependency took longer to clear;
-- a service with fewer has none.
pub dep_timings_lem :
    (sort : Sort) (law : IsSort sort) (scheduled : ℕ) (deps : List Dep)
    → OneLongPole (length deps) (dep_timings sort scheduled deps) (map (dep_timing scheduled) deps)
      ⊎ NoLongPole (length deps) (dep_timings sort scheduled deps)
unfolding dep_timings
dep_timings_lem sort law scheduled [] = inr (omega arith, tt)
dep_timings_lem sort law scheduled (d ∷ ds) = rw (length-map (dep_timing scheduled) (d ∷ ds)) at (
    flag_long_pole_lem (sort DepTiming (λ t. t.wait_ms) (map (dep_timing scheduled) (d ∷ ds)))
      (map (dep_timing scheduled) (d ∷ ds))
      (law.keeps DepTiming (λ t. t.wait_ms) (map (dep_timing scheduled) (d ∷ ds)))
      (law.ascending DepTiming (λ t. t.wait_ms) (map (dep_timing scheduled) (d ∷ ds)))
      (dep_timing-unflagged scheduled (d ∷ ds)))
