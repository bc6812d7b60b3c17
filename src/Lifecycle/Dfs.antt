-- ===== src/Lifecycle/Dfs.antt =====
-- lifecycle.go, the search in `NewDef`: its loop, and the order of the states in the graph.
use zordon.Base.{
  ℕ, zero, suc, ◌+◌, ◌≤◌, ◌<◌, ◌≡◌, ◌⊎◌, inl, inr, refl, sym, ap, ◌∙◌, Bool, true, false, ◌&&◌,
  ◌||◌, List, [], ◌∷◌, some, arith, Bool-cases, if◌then◌else◌, length, Bytes, equal, equal_iff,
  equal_comm, mem, mem-snoc, mem-cons, mem_head, mem_tail,
}
use zordon.Lifecycle.{Edge, direct, Visit, mark, dfs_loop}

-- some edge of the list leads from `p` to `s`
unfoldable pub is_declared : List Edge → Bytes → Bytes → Bool
is_declared [] p s = false
is_declared (e ∷ es) p s = (equal e.from p && equal e.to s) || is_declared es p s

-- the states of a list that are not visited
pub unseen : List Bytes → List Bytes → ℕ
unseen [] seen = 0
unseen (s ∷ ss) seen = (if mem s seen then 0 else 1) + unseen ss seen

unseen-le :
    (ss seen seen' : List Bytes)
    → ((x : Bytes) → mem x seen ≡ true → mem x seen' ≡ true)
    → unseen ss seen' ≤ unseen ss seen
unfolding unseen
unseen-le [] seen seen' h = omega arith
unseen-le (s ∷ ss) seen seen' h = ground (arith, h s, unseen-le ss seen seen' h)

unseen-lt :
    (ss seen : List Bytes) (p : Bytes)
    → mem p ss ≡ true
    → mem p seen ≡ false
    → unseen ss (p ∷ seen) < unseen ss seen
unfolding unseen mem
unseen-lt [] seen p h n = cc
unseen-lt (s ∷ ss) seen p h n = ground (
  arith,
  equal_iff p s,
  equal_comm p s,
  unseen-lt ss seen p,
  unseen-le ss seen (p ∷ seen) (λ x m. mem_tail x p seen m),
)

pub unseen-length : (ss seen : List Bytes) → unseen ss seen ≤ length ss
unfolding unseen
unseen-length [] seen = omega arith
unseen-length (s ∷ ss) seen = ground (arith, unseen-length ss seen)

module _ (states : List Bytes) (edges : List Edge) where
  -- `p` precedes `s`: a chain of declared edges between declared states leads from one to the other
  pub data Before : Bytes → Bytes → Type 0 where
    edge :
        {p s : Bytes}
        → is_declared edges p s ≡ true
        → mem p states ≡ true
        → mem s states ≡ true
        → Before p s
    chain : {p q s : Bytes} → Before p q → Before q s → Before p s

  pub mem-direct_at :
      (es : List Edge) (p s : Bytes)
      → mem p (direct states es s) ≡ (is_declared es p s && mem p states && mem s states)
  unfolding is_declared direct mem
  mem-direct_at [] p s = refl
  mem-direct_at (e ∷ es) p s =
      ground
        (arith, mem-direct_at es p s, equal_iff e.to s, equal_iff e.from p, equal_comm p e.from)

  pub declared_of_direct :
      (p s : Bytes) → mem p (direct states edges s) ≡ true → mem p states ≡ true
  declared_of_direct p s h = ground (arith, mem-direct_at edges p s)

  pub Before-of_direct : (p s : Bytes) → mem p (direct states edges s) ≡ true → Before p s
  Before-of_direct p s h =
      let (a, b, c) =
        split (is_declared edges p s) (mem p states) (mem s states)
          (sym (mem-direct_at edges p s) ∙ h) in
      edge a b c
    where
      split : (a b c : Bool) → (a && b && c) ≡ true → (a ≡ true) × (b ≡ true) × (c ≡ true)
      split a b c h = ground arith

  module _ (s : Bytes) where
    pub record Explored (v v' : Visit) (ps : List Bytes) : Type 0 where
      pub mono : (x : Bytes) → mem x v.visited ≡ true → mem x v'.visited ≡ true
      pub covers : (x : Bytes) → mem x ps ≡ true → mem x v'.visited ≡ true
      pub closed :
          (x : Bytes)
          → mem x v'.visited ≡ true
          → (mem x v.visited ≡ true)
            ⊎ ((y : Bytes) → mem y (direct states edges x) ≡ true → mem y v'.visited ≡ true)
      pub sound : (x : Bytes) → mem x v'.visited ≡ true → (mem x v.visited ≡ true) ⊎ Before x s
      pub same_out :
          ((x : Bytes) → mem x v.out ≡ mem x v.visited)
          → (x : Bytes) → mem x v'.out ≡ mem x v'.visited

    Explored-nil : (v : Visit) → Explored v v []
    unfolding mem
    Explored-nil v = record {
      mono = λ x h. h;
      covers = λ x h. cc;
      closed = λ x h. inl h;
      sound = λ x h. inl h;
      same_out = λ same. same;
    }

    -- a state that was visited before is passed over
    Explored-skip :
        (p : Bytes) (ps : List Bytes) {v v' : Visit}
        → mem p v.visited ≡ true
        → Explored v v' ps
        → Explored v v' (p ∷ ps)
    Explored-skip p ps {v} {v'} seen e = record {
      mono = e.mono;
      covers = λ x h. elim (mem-cons x p ps h) [
        | inl same ↦ e.mono x (rw same seen)
        | inr later ↦ e.covers x later
      ];
      closed = e.closed;
      sound = e.sound;
      same_out = e.same_out;
    }

    mem-mark :
        (x p : Bytes) (v : Visit)
        → mem x (mark p v).visited ≡ true
        → (x ≡ p) ⊎ (mem x v.visited ≡ true)
    mem-mark x p v h = mem-cons x p v.visited h

    -- a new state is marked, then its predecessors are visited, then the rest of the list
    Explored-visit :
        (p : Bytes) (ps : List Bytes) {v v₁ v' : Visit}
        → Before p s
        → Explored (mark p v) v₁ (direct states edges p)
        → Explored v₁ v' ps
        → Explored v v' (p ∷ ps)
    Explored-visit p ps {v} {v₁} {v'} before inner outer = record {
      mono = λ x h. outer.mono x (inner.mono x (mem_tail x p v.visited h));
      covers = λ x h. elim (mem-cons x p ps h) [
        | inl same ↦ rw same found
        | inr later ↦ outer.covers x later
      ];
      closed = λ x h. elim (outer.closed x h) [
        | inr all ↦ inr all
        | inl h₁ ↦ elim (inner.closed x h₁) [
          | inr all ↦ inr (λ y m. outer.mono y (all y m))
          | inl h₂ ↦ elim (mem-mark x p v h₂) [
            | inl same ↦ inr (λ y m. outer.mono y (inner.covers y (rw same at m)))
            | inr old ↦ inl old
          ]
        ]
      ];
      sound = λ x h. elim (outer.sound x h) [
        | inr b ↦ inr b
        | inl h₁ ↦ elim (inner.sound x h₁) [
          | inr b ↦ inr b
          | inl h₂ ↦ elim (mem-mark x p v h₂) [
            | inl same ↦ inr (rw same before)
            | inr old ↦ inl old
          ]
        ]
      ];
      same_out = λ same. outer.same_out (
          inner.same_out
            (λ x. mem-snoc x p v.out ∙ (unfold mem in ap (◌||◌ (equal x p)) (same x))));
    }
      where
        found : mem p v'.visited ≡ true
        found = outer.mono p (inner.mono p (mem_head p v.visited))

    -- the states on the list are declared, and precede `s`
    abbrev pub Precede : List Bytes → Type 0
    Precede ps = (p : Bytes) → mem p ps ≡ true → (mem p states ≡ true) × Before p s

    Precede-direct : (p : Bytes) → Before p s → Precede (direct states edges p)
    Precede-direct p b q h = (declared_of_direct q p h, chain (Before-of_direct q p h) b)

    abbrev pub Explores : ℕ → List Bytes → Visit → Type 0
    Explores f ps v = (v' : Visit) × (dfs_loop states edges f ps v ≡ some v') × Explored v v' ps

    pub dfs_loop-Explores :
        (f : ℕ) (ps : List Bytes) (v : Visit)
        → unseen states v.visited ≤ f
        → Precede ps
        → Explores f ps v
    unfolding dfs_loop
    dfs_loop-Explores f [] v h pre = (v, refl, Explored-nil v)
    dfs_loop-Explores zero (p ∷ ps) v h pre = elim (Bool-cases (mem p v.visited)) [
      | inl seen ↦
          let (v', e, x) = dfs_loop-Explores zero ps v h (λ q m. pre q (mem_tail q p ps m)) in
          (v', rw (seen, dfs_loop) e, Explored-skip p ps seen x)
      | inr new ↦ absurd (omega (arith, unseen-lt states v.visited p (pre p (mem_head p ps)).0 new))
    ]
    dfs_loop-Explores (suc f) (p ∷ ps) v h pre = elim (Bool-cases (mem p v.visited)) [
      | inl seen ↦
          let (v', e, x) = dfs_loop-Explores (suc f) ps v h (λ q m. pre q (mem_tail q p ps m)) in
          (v', rw (seen, dfs_loop) e, Explored-skip p ps seen x)
      | inr new ↦
          let (declared, before) = pre p (mem_head p ps) in
          let (v₁, e₁, x₁) =
            dfs_loop-Explores f (direct states edges p) (mark p v)
              (omega (arith, unseen-lt states v.visited p declared new))
              (Precede-direct p before) in
          let (v', e, x) =
            dfs_loop-Explores (suc f) ps v₁
              (omega (
                arith,
                unseen-le states v.visited v₁.visited (λ y m. x₁.mono y (mem_tail y p v.visited m)),
              ))
              (λ q m. pre q (mem_tail q p ps m)) in
          (v', rw (new, e₁, dfs_loop) e, Explored-visit p ps before x₁ x)
    ]
