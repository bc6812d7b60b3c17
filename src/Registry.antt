-- ===== src/Registry.antt =====
-- internal/registry/registry.go: the host-wide directory of the services that hold ports. The file
-- and the lock are a World; every operation holds the lock from before it reads until it has
-- written, so that an operation is one step. The JSON encoding is a parameter.
pub mod Rows
pub mod Laws
mod Tests
use zordon.Base.{
  ℕ, suc, Bool, ◌&&◌, List, [], ◌∷◌, ◌++◌, Option, none, some, ◌==◌, if◌then◌else◌, ℤ, eqb_ℤ, Bytes,
  equal,
}
use zordon.Zfs.{Call, Disk, Written, atomic_write}

-- `Entry`; the zero time is 0
pub record Entry : Type 0 where
  pub port : ℤ
  pub fs_hash : Bytes
  pub service : Bytes
  pub pgid : ℤ
  pub ts : ℕ

pub data Failure : Type 0 where
  empty_home lock_failed read_failed parse_failed marshal_failed : Failure
  write_failed : Call → Failure

pub data Outcome {ℓ} (A : Type ℓ) : Type ℓ where
  done : A → Outcome A
  failed : Failure → Outcome A

-- `json.MarshalIndent` and `json.Unmarshal` on lists of entries
pub record Codec : Type 0 where
  pub marshal : List Entry → Option Bytes
  pub unmarshal : Bytes → Option (List Entry)

-- What the operations meet outside: whether the lock can be taken and the file read, and the disk
-- with registry.json.
pub record World : Type 0 where
  pub lockable : Bool
  pub readable : Bool
  pub disk : Disk

abbrev pub decoded : Option (List Entry) → Outcome (List Entry)
decoded none = failed parse_failed
decoded (some es) = done es

-- what `writeEntries` returns of what `AtomicWrite` returns
abbrev pub entries_written {ℓ} : {A : Type ℓ} → A → World → Written → Outcome A × World
entries_written a w (none, disk) = (done a, record w { disk = disk })
entries_written a w (some k, disk) = (failed (write_failed k), record w { disk = disk })

-- `dropByService`
unfoldable pub drop_by_service : List Entry → Bytes → Bytes → List Entry
unfolding equal
drop_by_service [] hash name = []
drop_by_service (e ∷ es) hash name =
    let rest = drop_by_service es hash name in
    if equal e.fs_hash hash && equal e.service name then rest else e ∷ rest

-- the entries of one instance, and the others
unfoldable pub of_hash : Bytes → List Entry → List Entry
unfolding equal
of_hash hash [] = []
of_hash hash (e ∷ es) =
    let rest = of_hash hash es in if equal e.fs_hash hash then e ∷ rest else rest

unfoldable pub not_of_hash : Bytes → List Entry → List Entry
unfolding equal
not_of_hash hash [] = []
not_of_hash hash (e ∷ es) =
    let rest = not_of_hash hash es in if equal e.fs_hash hash then rest else e ∷ rest

-- the loop of `LookupPort`
unfoldable pub first_at_port : ℤ → List Entry → Option Entry
first_at_port port [] = none
first_at_port port (e ∷ es) =
    let later = first_at_port port es in if eqb_ℤ e.port port then some e else later

-- `e` with its time, which is `now` if it has none
abbrev pub stamped : ℕ → Entry → Entry
stamped now e = record e { ts = if e.ts == 0 then now else e.ts }

module _ (c : Codec) where
  -- `readEntries`: a missing or an empty file is an empty registry
  unfoldable pub read_entries : World → Outcome (List Entry)
  read_entries w =
      if w.readable
      then elim w.disk.file [
        | none ↦ done []
        | some json ↦ elim json [ [] ↦ done [] | b ∷ bs ↦ decoded (c.unmarshal (b ∷ bs)) ]
      ]
      else failed read_failed

  -- `writeEntries`
  unfoldable pub write_entries {ℓ} : {A : Type ℓ} → A → List Entry → World → Outcome A × World
  unfolding atomic_write
  write_entries a es w = elim (c.marshal es) [
    | none ↦ (failed marshal_failed, w)
    | some json ↦ entries_written a w (atomic_write json w.disk)
  ]

  -- `openLocked` before what is done under the lock
  unfoldable pub locked {ℓ} : {A : Type ℓ} → Bytes → World → Outcome A × World → Outcome A × World
  unfolding equal
  locked home w under =
      if equal home []
      then (failed empty_home, w)
      else if w.lockable
      then under
      else (failed lock_failed, w)

  -- `withFile`. What `f` captures is its first component.
  unfoldable pub with_file {ℓ} :
      {A : Type ℓ} → Bytes → (List Entry → A × List Entry) → World → Outcome A × World
  unfolding locked read_entries write_entries
  with_file home f w = locked home w (elim (read_entries w) [
    | failed x ↦ (failed x, w)
    | done es ↦ write_entries (f es).0 (f es).1 w
  ])

  -- `withFileReadOnly`
  unfoldable pub with_file_read_only {ℓ} :
      {A : Type ℓ} → Bytes → (List Entry → A) → World → Outcome A × World
  unfolding locked read_entries
  with_file_read_only home f w =
      locked home w
        (elim (read_entries w) [ failed x ↦ (failed x, w) | done es ↦ (done (f es), w) ])

  -- `Register`
  unfoldable pub register : ℕ → Bytes → Entry → World → Outcome (Unit {0}) × World
  unfolding with_file drop_by_service
  register now home e =
      with_file home λ es. (tt, drop_by_service es e.fs_hash e.service ++ stamped now e ∷ [])

  -- `Remove`
  unfoldable pub remove : Bytes → Bytes → Bytes → World → Outcome (Unit {0}) × World
  unfolding with_file drop_by_service
  remove home hash name = with_file home λ es. (tt, drop_by_service es hash name)

  -- `LookupPort`
  unfoldable pub lookup_port : Bytes → ℤ → World → Outcome (Option Entry) × World
  unfolding with_file_read_only first_at_port
  lookup_port home port = with_file_read_only home (first_at_port port)

  -- `ListByFsHash`
  unfoldable pub list_by_fs_hash : Bytes → Bytes → World → Outcome (List Entry) × World
  unfolding with_file_read_only of_hash
  list_by_fs_hash home hash = with_file_read_only home (of_hash hash)

-- `syscall.Kill(-e.PGID, 0) == nil` for each entry of a list: `probe k` is what the probe number
-- `k` finds. What is left is those found alive, and the number of the next probe.
unfoldable pub found_alive : (ℕ → ℤ → Bool) → ℕ → List Entry → List Entry × ℕ
found_alive probe k [] = ([], k)
found_alive probe k (e ∷ es) =
    let (alive, next) = found_alive probe (suc k) es in
    if probe k e.pgid then (e ∷ alive, next) else (alive, next)

-- the entries whose groups get SIGTERM, and those whose groups get SIGKILL after the grace
pub record Signals : Type 0 where
  pub terminated : List Entry
  pub killed : List Entry

-- `ReapByFsHash` after the file is written
unfoldable pub reap_signals : (ℕ → ℤ → Bool) → List Entry → Signals
unfolding found_alive
reap_signals probe ours =
    let (alive, next) = found_alive probe 0 ours in
    record { terminated = alive; killed = (found_alive probe next alive).0 }

abbrev pub signalled : (ℕ → ℤ → Bool) → Outcome (List Entry) × World → Outcome Signals × World
signalled probe (failed x, w) = (failed x, w)
signalled probe (done ours, w) = (done (reap_signals probe ours), w)

-- `ReapByFsHash`
unfoldable pub reap_by_fs_hash :
    Codec → (ℕ → ℤ → Bool) → Bytes → Bytes → World → Outcome Signals × World
unfolding with_file of_hash not_of_hash reap_signals
reap_by_fs_hash c probe home hash w =
    signalled probe (with_file c home (λ es. (of_hash hash es, not_of_hash hash es)) w)
