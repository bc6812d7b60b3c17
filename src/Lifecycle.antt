-- ===== src/Lifecycle.antt =====
-- internal/lifecycle/lifecycle.go: the precedence graph of an entity's states, with a barrier for
-- each state.
pub mod Dfs
mod Tests
pub mod Instances
pub mod Entities
pub mod Reach
pub mod Closure
use zordon.Base.{
  ℕ, zero, suc, Bool, true, false, ◌&&◌, List, [], ◌∷◌, ◌++◌, Option, none, some, if◌then◌else◌,
  length, Bytes, equal, mem, lookup, insert,
}
use zordon.Barrier
use zordon.Barrier.{Barrier}

-- `Edge`
pub record Edge : Type 0 where
  pub from : Bytes
  pub to : Bytes

-- `Def`. The keys of `set` are the states.
pub record Def : Type 0 where
  pub states : List Bytes
  pub preds : List (Bytes × List Bytes)

-- the two tests of the loop over the edges
abbrev pub known : List Bytes → Edge → Bool
known states e = mem e.from states && mem e.to states

-- `direct[node]`
unfoldable pub direct : List Bytes → List Edge → Bytes → List Bytes
direct states [] node = []
direct states (e ∷ es) node =
    let later = direct states es node in
    if known states e && equal e.to node then e.from ∷ later else later

-- what the closure `dfs` captures: the keys of `visited`, and `out`
pub record Visit : Type 0 where
  pub visited : List Bytes
  pub out : List Bytes

abbrev pub mark : Bytes → Visit → Visit
mark p v = record { visited = p ∷ v.visited; out = v.out ++ p ∷ [] }

module _ (states : List Bytes) (edges : List Edge) where
  -- the loop of `dfs` over `direct[node]`. Each nested call is made on a state not visited before,
  -- and costs a unit of fuel; `none` is fuel that ran out.
  unfoldable pub dfs_loop : ℕ → List Bytes → Visit → Option Visit
  unfolding direct mem
  dfs_loop fuel [] v = some v
  dfs_loop zero (p ∷ ps) v = elim (mem p v.visited) [ true ↦ dfs_loop zero ps v | false ↦ none ]
  dfs_loop (suc f) (p ∷ ps) v = elim (mem p v.visited) [
    | true ↦ dfs_loop (suc f) ps v
    | false ↦ elim (dfs_loop f (direct states edges p) (mark p v)) [
      | none ↦ none
      | some v' ↦ dfs_loop (suc f) ps v'
    ]
  ]

  -- `dfs(s)` with empty `visited` and `out`; there are no more states to visit than declared ones
  unfoldable pub predecessors : Bytes → Option (List Bytes)
  unfolding dfs_loop
  predecessors s =
      elim (dfs_loop (length states) (direct states edges s) (record { visited = []; out = [] })) [
        | none ↦ none
        | some v ↦ some v.out
      ]

  -- the loop that fills `d.preds`
  unfoldable pub fill_preds :
      List Bytes → List (Bytes × List Bytes) → Option (List (Bytes × List Bytes))
  unfolding predecessors insert
  fill_preds [] m = some m
  fill_preds (s ∷ ss) m = elim (predecessors s) [
    | none ↦ none
    | some out ↦ fill_preds ss (insert s out m)
  ]

  -- `NewDef`
  unfoldable pub new_def : Option Def
  unfolding fill_preds
  new_def = elim (fill_preds states []) [
    | none ↦ none
    | some preds ↦ some (record { states = states; preds = preds })
  ]

-- `Has`
unfoldable pub has : Def → Bytes → Bool
unfolding mem
has d s = mem s d.states

-- `Instance`
pub record Instance : Type 0 where
  pub def : Def
  pub barriers : List (Bytes × Barrier)

-- the loop of `NewInstance`
pub fresh_barriers : List Bytes → List (Bytes × Barrier) → List (Bytes × Barrier)
fresh_barriers [] m = m
fresh_barriers (s ∷ ss) m = fresh_barriers ss (insert s Barrier.new m)

-- `NewInstance`
unfoldable pub new_instance : Def → Instance
unfolding fresh_barriers insert Barrier.new
new_instance d = record { def = d; barriers = fresh_barriers d.states [] }

-- `i.barriers[p].Trigger()`; `none` is the call on a nil barrier
unfoldable pub trigger_at : ℕ → Bytes → List (Bytes × Barrier) → Option (List (Bytes × Barrier))
trigger_at now s m = elim (lookup s m) [
  | none ↦ none
  | some b ↦ some (insert s (Barrier.trigger now b) m)
]

-- the loop of `Reach` over the predecessors, and the last trigger. The clock is read anew for each
-- trigger: `clock k` is the reading of the trigger number `k`.
unfoldable pub trigger_all :
    (ℕ → ℕ) → ℕ → List Bytes → List (Bytes × Barrier) → Option (List (Bytes × Barrier))
unfolding trigger_at
trigger_all clock k [] m = some m
trigger_all clock k (p ∷ ps) m = elim (trigger_at (clock k) p m) [
  | none ↦ none
  | some m' ↦ trigger_all clock (suc k) ps m'
]

abbrev pub or_empty : Option (List Bytes) → List Bytes
or_empty none = []
or_empty (some ps) = ps

-- `d.preds[s]`
abbrev pub preds_of : Def → Bytes → List Bytes
preds_of d s = or_empty (lookup s d.preds)

-- `Reach`, with the clock readings of its triggers; `none` is a nil dereference
unfoldable pub reach : (ℕ → ℕ) → Instance → Bytes → Option Instance
unfolding trigger_all
reach clock i s = elim (lookup s i.barriers) [
  | none ↦ some i
  | some _ ↦ elim (trigger_all clock 0 (preds_of i.def s ++ s ∷ []) i.barriers) [
    | none ↦ none
    | some m ↦ some (record i { barriers = m })
  ]
]

-- `Reached`
unfoldable pub reached : Instance → Bytes → Bool
reached i s = elim (lookup s i.barriers) [ none ↦ false | some b ↦ Barrier.is_triggered b ]

-- `ReachedAt`
unfoldable pub reached_at : Instance → Bytes → ℕ × Bool
reached_at i s = elim (lookup s i.barriers) [ none ↦ (0, false) | some b ↦ Barrier.fired b ]
