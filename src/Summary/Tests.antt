-- ===== src/Summary/Tests.antt =====
-- A sort by insertion, which orders and keeps, and reports of small starts.
use mathlib.Core.List.{Permᴰ}
use mathlib.Core.List.Permᴰ
use mathlib.Core.List.Permᴰ.{cons, swap, trans}
use zordon.Base.{
  ℕ, ◌+◌, ◌≤◌, ◌≡◌, ◌⊎◌, inl, inr, refl, List, [], ◌∷◌, map, arith, Bool-cases, leb, if◌then◌else◌,
  leb→le, codes,
}
use zordon.Summary.{Sort, Dep, Service, dep_timing, dep_timings, service_timing}
use zordon.Summary.Phases.{IsUp, service_timing-sum}
use zordon.Summary.Order.{Ascending, IsSort, OneLongPole, NoLongPole, dep_timings_lem}

place : (A : Type 0) → (A → ℕ) → A → List A → List A
place A key x [] = x ∷ []
place A key x (y ∷ ys) =
    let later = y ∷ place A key x ys in if leb (key x) (key y) then x ∷ y ∷ ys else later

insertion : Sort
unfolding place
insertion A key [] = []
insertion A key (x ∷ xs) = place A key x (insertion A key xs)

Ascending-place :
    (A : Type 0) (key : A → ℕ) (n : ℕ) (x : A) (xs : List A)
    → n ≤ key x
    → Ascending key n xs
    → Ascending key n (place A key x xs)
unfolding place
Ascending-place A key n x [] h a = (h, tt)
Ascending-place A key n x (y ∷ ys) h (b, a) = elim (Bool-cases (leb (key x) (key y))) [
  | inl t ↦ rw t (h, (leb→le _ _ t, a))
  | inr t ↦ rw t (b, Ascending-place A key (key y) x ys (ground arith) a)
]

place-Permᴰ : (A : Type 0) (key : A → ℕ) (x : A) (xs : List A) → Permᴰ (place A key x xs) (x ∷ xs)
unfolding place
place-Permᴰ A key x [] = Permᴰ.refl (x ∷ [])
place-Permᴰ A key x (y ∷ ys) = elim (Bool-cases (leb (key x) (key y))) [
  | inl t ↦ rw t (Permᴰ.refl (x ∷ y ∷ ys))
  | inr t ↦ rw t (trans (cons refl (place-Permᴰ A key x ys)) (swap refl refl))
]

insertion-Ascending :
    (A : Type 0) (key : A → ℕ) (xs : List A) → Ascending key 0 (insertion A key xs)
unfolding insertion
insertion-Ascending A key [] = tt
insertion-Ascending A key (x ∷ xs) =
    Ascending-place A key 0 x (insertion A key xs) (omega arith) (insertion-Ascending A key xs)

insertion-Permᴰ : (A : Type 0) (key : A → ℕ) (xs : List A) → Permᴰ (insertion A key xs) xs
unfolding insertion
insertion-Permᴰ A key [] = Permᴰ.refl []
insertion-Permᴰ A key (x ∷ xs) =
    trans (place-Permᴰ A key x (insertion A key xs)) (cons refl (insertion-Permᴰ A key xs))

insertion-IsSort : IsSort insertion
insertion-IsSort = record { ascending = insertion-Ascending; keeps = insertion-Permᴰ }

abbrev two_deps : List Dep
two_deps =
    record { ref = codes "db"; satisfied_at = 63900000000900000000 }
    ∷ record { ref = codes "cache"; satisfied_at = 63900000000300000000 }
    ∷ []

dep_timings-two :
    map (λ t. t.wait_ms) (dep_timings insertion 63900000000100000000 two_deps) ≡ 200 ∷ 800 ∷ []
unfolding dep_timings insertion
dep_timings-two = refl

dep_timings_lem_example :
    OneLongPole 2
      (dep_timings insertion 63900000000100000000 two_deps)
      (map (dep_timing 63900000000100000000) two_deps)
    ⊎ NoLongPole 2 (dep_timings insertion 63900000000100000000 two_deps)
dep_timings_lem_example = dep_timings_lem insertion insertion-IsSort 63900000000100000000 two_deps

abbrev api : Service
api = record {
  name = codes "api";
  toolchain = codes "go";
  deps = two_deps;
  scheduled = 63900000000100000000;
  build_done = 63900000000101999999;
  started = 63900000000900000001;
  running = 63900000000905000000;
  ready = 63900000000999999999;
}

api-IsUp : IsUp api
api-IsUp = record {
  known_start = omega arith;
  build_after = omega arith;
  start_after = omega arith;
  run_after = omega arith;
  ready_after = omega arith;
  in_range = omega arith;
}

service_timing-sum_example :
    ((service_timing insertion api).build_ms
        + (service_timing insertion api).wait_ms
        + (service_timing insertion api).spawn_ms
        + (service_timing insertion api).ready_ms
      ≤ (service_timing insertion api).total_ms)
    × ((service_timing insertion api).total_ms
        ≤ (service_timing insertion api).build_ms
          + (service_timing insertion api).wait_ms
          + (service_timing insertion api).spawn_ms
          + (service_timing insertion api).ready_ms
          + 3)
service_timing-sum_example = service_timing-sum insertion api api-IsUp
