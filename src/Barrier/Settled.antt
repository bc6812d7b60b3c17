-- ===== src/Barrier/Settled.antt =====
-- barrier.go, `Any`: where its goroutines come to rest.
use zordon.Base.{
  ℕ, suc, ◌+◌, ◌≤◌, ◌≡◌, refl, sym, ap, ◌∙◌, inl, inr, Bool, true, false, ◌||◌, List, [], ◌∷◌, ◌++◌,
  arith, Bool-cases, ◌==◌, ==_iff, length,
}
use mathlib.Core.Path.{subst}
use zordon.Barrier.{trigger, is_triggered, IsValid, trigger-IsValid}
use zordon.Barrier.Any.{
  Store, Worker, AnyState, any, trigger_in, any_fired, one_triggered, sources_of, waiting,
  WorkerTurn, fires, stops, Run, start, turn, outside,
}

any_fired_lem :
    (store : Store) (ws : List Worker) → any_fired store ws ≡ one_triggered store (sources_of ws)
unfolding any_fired one_triggered
any_fired_lem store [] = refl
any_fired_lem store (w ∷ ws) = ap (λ b. is_triggered (store w.source) || b) (any_fired_lem store ws)

module _ (target : ℕ) where
  -- the target is triggered once a goroutine has ended
  pub AllDone : Store → List Worker → Type 0
  AllDone store [] = Unit
  AllDone store (w ∷ ws) = (w.ended ≡ true → is_triggered (store target) ≡ true) × AllDone store ws

  pub record IsRunning (w x : AnyState) : Type 0 where
    pub valid : (k : ℕ) → IsValid (x.store k)
    pub done : AllDone x.store x.workers
    pub keeps : is_triggered (w.store target) ≡ true → is_triggered (x.store target) ≡ true
    pub caused :
        is_triggered (x.store target) ≡ true
        → (is_triggered (w.store target) || any_fired x.store x.workers) ≡ true

  trigger_in-IsValid :
      (now b : ℕ) (store : Store)
      → ((k : ℕ) → IsValid (store k))
      → (k : ℕ) → IsValid (trigger_in now b store k)
  unfolding trigger_in
  trigger_in-IsValid now b store v k = elim (Bool-cases (k == b)) [
    | inl e ↦ rw e (trigger-IsValid now (store k) (v k))
    | inr e ↦ rw e (v k)
  ]

  trigger_in-keeps :
      (now b : ℕ) (store : Store)
      → ((k : ℕ) → IsValid (store k))
      → (k : ℕ) → is_triggered (store k) ≡ true
      → is_triggered (trigger_in now b store k) ≡ true
  unfolding trigger_in trigger is_triggered
  trigger_in-keeps now b store v k h = ground (arith, (v k).once)

  trigger_in-hits :
      (now b : ℕ) (store : Store)
      → ((k : ℕ) → IsValid (store k))
      → is_triggered (trigger_in now b store b) ≡ true
  unfolding trigger_in trigger is_triggered
  trigger_in-hits now b store v = ground (arith, (v b).once, ==_iff b b)

  trigger_in-other :
      (now b : ℕ) (store : Store)
      → (b == target) ≡ false
      → is_triggered (trigger_in now b store target) ≡ is_triggered (store target)
  unfolding trigger_in
  trigger_in-other now b store e = let f : (target == b) ≡ false = ground (arith, e) in rw f refl

  any_fired-grows :
      (now b : ℕ) (store : Store)
      → ((k : ℕ) → IsValid (store k))
      → (ws : List Worker) → any_fired store ws ≡ true
      → any_fired (trigger_in now b store) ws ≡ true
  unfolding any_fired
  any_fired-grows now b store v [] h = h
  any_fired-grows now b store v (w ∷ ws) h =
      ground (arith, trigger_in-keeps now b store v w.source, any_fired-grows now b store v ws)

  -- the end of a goroutine changes no source
  any_fired-end :
      (store : Store) (s : ℕ) (e f : Bool) (before after : List Worker)
      → any_fired store (before ++ record { source = s; ended = e } ∷ after)
        ≡ any_fired store (before ++ record { source = s; ended = f } ∷ after)
  unfolding any_fired
  any_fired-end store s e f [] after = refl
  any_fired-end store s e f (w ∷ before) after =
      ap (λ b. is_triggered (store w.source) || b) (any_fired-end store s e f before after)

  any_fired-at :
      (store : Store) (s : ℕ) (e : Bool) (before after : List Worker)
      → is_triggered (store s) ≡ true
      → any_fired store (before ++ record { source = s; ended = e } ∷ after) ≡ true
  unfolding any_fired
  any_fired-at store s e [] after h = ground (arith, h)
  any_fired-at store s e (w ∷ before) after h =
      ground (arith, any_fired-at store s e before after h)

  AllDone-true :
      (store : Store) (ws : List Worker) → is_triggered (store target) ≡ true → AllDone store ws
  unfolding AllDone
  AllDone-true store [] h = tt
  AllDone-true store (w ∷ ws) h = (λ e. h, AllDone-true store ws h)

  AllDone-keeps :
      (old new : Store) (ws : List Worker)
      → (is_triggered (old target) ≡ true → is_triggered (new target) ≡ true)
      → AllDone old ws
      → AllDone new ws
  unfolding AllDone
  AllDone-keeps old new [] k h = tt
  AllDone-keeps old new (w ∷ ws) k (h, hs) = (λ e. k (h e), AllDone-keeps old new ws k hs)

  AllDone-waiting : (store : Store) (sources : List ℕ) → AllDone store (any sources store).workers
  unfolding AllDone
  AllDone-waiting store [] = tt
  AllDone-waiting store (s ∷ sources) = (λ e. ground (arith, e), AllDone-waiting store sources)

  IsRunning-turn : (w x y : AnyState) → IsRunning w x → WorkerTurn target x y → IsRunning w y
  IsRunning-turn w x y i (fires now s store before after h) =
      let hit = trigger_in-hits now target store i.valid in
      record {
        valid = trigger_in-IsValid now target store i.valid;
        done =
            AllDone-true (trigger_in now target store)
              (before ++ record { source = s; ended = true } ∷ after) hit;
        keeps = λ k. hit;
        caused = λ k.
            let at =
              any_fired-at (trigger_in now target store) s true before after
                (trigger_in-keeps now target store i.valid s h) in
            ground (arith, at);
      }
  IsRunning-turn w x y i (stops s store before after h) = record {
    valid = i.valid;
    done = AllDone-true store (before ++ record { source = s; ended = true } ∷ after) h;
    keeps = i.keeps;
    caused = λ k. ground (arith, i.caused k, any_fired-end store s false true before after);
  }

  IsRunning-Run : (w x : AnyState) (n : ℕ) → IsRunning w w → Run target w n x → IsRunning w x
  IsRunning-Run w x n i start = i
  IsRunning-Run w x n i (turn {n = m} {x = z} r t) =
      IsRunning-turn w z x (IsRunning-Run w z m i r) t
  IsRunning-Run w x n i (outside {x = z} now b r e) =
      let j = IsRunning-Run w z n i r in
      let keeps = trigger_in-keeps now b z.store j.valid target in
      let same = trigger_in-other now b z.store e in
      record {
        valid = trigger_in-IsValid now b z.store j.valid;
        done = AllDone-keeps z.store (trigger_in now b z.store) z.workers keeps j.done;
        keeps = λ h. keeps (j.keeps h);
        caused = λ h.
            ground
              (arith, j.caused (sym same ∙ h), any_fired-grows now b z.store j.valid z.workers);
      }

  waiting-end :
      (s : ℕ) (before after : List Worker)
      → waiting (before ++ record { source = s; ended = false } ∷ after)
        ≡ suc (waiting (before ++ record { source = s; ended = true } ∷ after))
  unfolding waiting
  waiting-end s [] after = refl
  waiting-end s (w ∷ before) after = ground (arith, waiting-end s before after)

  pub waiting-WorkerTurn :
      (x y : AnyState) → WorkerTurn target x y → waiting x.workers ≡ suc (waiting y.workers)
  waiting-WorkerTurn x y (fires now s store before after h) = waiting-end s before after
  waiting-WorkerTurn x y (stops s store before after h) = waiting-end s before after

  waiting-Run :
      (w x : AnyState) (n : ℕ) → Run target w n x → n + waiting x.workers ≡ waiting w.workers
  waiting-Run w x n start = omega arith
  waiting-Run w x n (turn {n = m} {x = z} r t) =
      omega (arith, waiting-Run w z m r, waiting-WorkerTurn z x t)
  waiting-Run w x n (outside {x = z} now b r e) = waiting-Run w z n r

  sources-end :
      (s : ℕ) (before after : List Worker)
      → sources_of (before ++ record { source = s; ended = false } ∷ after)
        ≡ sources_of (before ++ record { source = s; ended = true } ∷ after)
  sources-end s [] after = refl
  sources-end s (w ∷ before) after = ap (λ r. w.source ∷ r) (sources-end s before after)

  waiting-any :
      (sources : List ℕ) (store : Store) → waiting (any sources store).workers ≡ length sources
  unfolding waiting
  waiting-any [] store = refl
  waiting-any (s ∷ sources) store = omega (arith, waiting-any sources store)

  sources-turn :
      (x y : AnyState) → WorkerTurn target x y → sources_of x.workers ≡ sources_of y.workers
  sources-turn x y (fires now s store before after h) = sources-end s before after
  sources-turn x y (stops s store before after h) = sources-end s before after

  sources-Run :
      (w x : AnyState) (n : ℕ) → Run target w n x → sources_of x.workers ≡ sources_of w.workers
  sources-Run w x n start = refl
  sources-Run w x n (turn {n = m} {x = z} r t) = sym (sources-turn z x t) ∙ sources-Run w z m r
  sources-Run w x n (outside {x = z} now b r e) = sources-Run w z n r

  sources-any :
      (sources : List ℕ) (store : Store) → sources_of (any sources store).workers ≡ sources
  sources-any [] store = refl
  sources-any (s ∷ sources) store = ap (λ r. s ∷ r) (sources-any sources store)

  -- a goroutine whose source is triggered
  Ready : Store → List Worker → Type 0
  Ready store ws =
      (before after : List Worker) × (s : ℕ) × (e : Bool) × (ws
        ≡ before ++ record { source = s; ended = e } ∷ after)
      × (is_triggered (store s) ≡ true)

  any_fired-Ready : (store : Store) (ws : List Worker) → any_fired store ws ≡ true → Ready store ws
  unfolding any_fired Ready
  any_fired-Ready store [] h = ground (arith, h)
  any_fired-Ready store (w ∷ ws) h = elim (Bool-cases (is_triggered (store w.source))) [
    | inl t ↦ ([], ws, w.source, w.ended, refl, t)
    | inr t ↦
        let (before, after, s, e, split, k) = any_fired-Ready store ws (ground (arith, h, t)) in
        (w ∷ before, after, s, e, ap (λ r. w ∷ r) split, k)
  ]

  AllDone-at :
      (store : Store) (s : ℕ) (before after : List Worker)
      → AllDone store (before ++ record { source = s; ended = true } ∷ after)
      → is_triggered (store target) ≡ true
  unfolding AllDone
  AllDone-at store s [] after (h, hs) = h refl
  AllDone-at store s (w ∷ before) after (h, hs) = AllDone-at store s before after hs

  no_turn-triggered :
      (store : Store) (ws : List Worker)
      → AllDone store ws
      → ((y : AnyState) → WorkerTurn target (record { store = store; workers = ws }) y → ⊥)
      → any_fired store ws ≡ true
      → is_triggered (store target) ≡ true
  unfolding Ready
  no_turn-triggered store ws done stuck h =
      let (before, after, s, e, split, k) = any_fired-Ready store ws h in
      go e before after s split k
    where
      go :
          (e : Bool) (before after : List Worker) (s : ℕ)
          → ws ≡ before ++ record { source = s; ended = e } ∷ after
          → is_triggered (store s) ≡ true
          → is_triggered (store target) ≡ true
      go true before after s split k =
          AllDone-at store s before after (subst (AllDone store) split done)
      go false before after s split k = absurd (
          subst
            (λ v. (y : AnyState) → WorkerTurn target (record { store = store; workers = v }) y → ⊥)
            split stuck _ (fires 0 s store before after k))

  -- In every order of the steps of `Any`'s goroutines and of other code that triggers barriers other
  -- than the target: the goroutines make no more turns than there are sources; and where none can
  -- make one, the target is triggered exactly if it was before `Any` or a source is. The barriers
  -- are valid at the start.
  pub any_settled :
      (sources : List ℕ) (store : Store)
      → ((k : ℕ) → IsValid (store k))
      → (n : ℕ) (x : AnyState) → Run target (any sources store) n x
      → ((y : AnyState) → WorkerTurn target x y → ⊥)
      → (n ≤ length sources)
        × (is_triggered (x.store target)
            ≡ (is_triggered (store target) || one_triggered x.store sources))
  any_settled sources store v n x r stuck =
      let i = IsRunning-Run (any sources store) x n first r in
      let step = no_turn-triggered x.store x.workers i.done stuck in
      (
        omega (arith, waiting-Run (any sources store) x n r, waiting-any sources store),
        ground (arith, i.keeps, i.caused, step)
            ∙ ap (λ b. is_triggered (store target) || b)
                (any_fired_lem x.store x.workers
                  ∙ ap (one_triggered x.store)
                      (sources-Run (any sources store) x n r ∙ sources-any sources store)),
      )
    where
      first : IsRunning (any sources store) (any sources store)
      first = record {
        valid = v;
        done = AllDone-waiting store sources;
        keeps = λ h. h;
        caused = λ h. ground (arith, h);
      }
