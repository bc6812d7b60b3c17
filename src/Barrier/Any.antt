-- ===== src/Barrier/Any.antt =====
-- internal/barrier/barrier.go, `Any`: a goroutine for each source, which waits for its source or for
-- the target. The barriers are a store, so that some of them may be the same.
use zordon.Base.{
  ℕ, suc, ◌≡◌, Bool, true, false, ◌||◌, List, [], ◌∷◌, ◌++◌, map, ◌==◌, if◌then◌else◌,
}
use zordon.Barrier.{Barrier, trigger, is_triggered}

abbrev pub Store : Type 0
Store = ℕ → Barrier

-- the goroutine of a source, and whether it has ended
pub record Worker : Type 0 where
  pub source : ℕ
  pub ended : Bool

pub record AnyState : Type 0 where
  pub store : Store
  pub workers : List Worker

-- `Any` itself: it starts the goroutines
abbrev pub any : List ℕ → Store → AnyState
any sources store = record {
  store = store;
  workers = map (λ s. record { source = s; ended = false }) sources;
}

-- `Trigger` of the barrier `b`
unfoldable pub trigger_in : ℕ → ℕ → Store → Store
unfolding trigger
trigger_in now b store k = if k == b then trigger now (store k) else store k

-- whether one of the sources is triggered
unfoldable pub any_fired : Store → List Worker → Bool
any_fired store [] = false
any_fired store (w ∷ ws) = is_triggered (store w.source) || any_fired store ws

-- the same of the sources themselves
unfoldable pub one_triggered : Store → List ℕ → Bool
one_triggered store [] = false
one_triggered store (s ∷ sources) = is_triggered (store s) || one_triggered store sources

abbrev pub sources_of : List Worker → List ℕ
sources_of = map (λ w. w.source)

-- the goroutines that have not ended
unfoldable pub waiting : List Worker → ℕ
waiting [] = 0
waiting (w ∷ ws) = let rest = waiting ws in if w.ended then rest else suc rest

module _ (target : ℕ) where
  -- A goroutine receives from its source, and triggers the target, or receives from the target.
  pub data WorkerTurn : AnyState → AnyState → Type 0 where
    fires :
        (now s : ℕ) (store : Store) (before after : List Worker)
        → is_triggered (store s) ≡ true
        → WorkerTurn
            (record {
              store = store;
              workers = before ++ record { source = s; ended = false } ∷ after;
            })
            (record {
              store = trigger_in now target store;
              workers = before ++ record { source = s; ended = true } ∷ after;
            })
    stops :
        (s : ℕ) (store : Store) (before after : List Worker)
        → is_triggered (store target) ≡ true
        → WorkerTurn
            (record {
              store = store;
              workers = before ++ record { source = s; ended = false } ∷ after;
            })
            (record {
              store = store;
              workers = before ++ record { source = s; ended = true } ∷ after;
            })

  -- Runs from `w`, with the number of the turns of goroutines in them. Between the turns, other
  -- code may trigger every barrier but the target.
  pub data Run (w : AnyState) : ℕ → AnyState → Type 0 where
    start : Run w 0 w
    turn : {n : ℕ} {x y : AnyState} → Run w n x → WorkerTurn x y → Run w (suc n) y
    outside :
        {n : ℕ} {x : AnyState} (now b : ℕ)
        → Run w n x
        → (b == target) ≡ false
        → Run w n (record { store = trigger_in now b x.store; workers = x.workers })
