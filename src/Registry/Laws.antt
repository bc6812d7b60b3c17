-- ===== src/Registry/Laws.antt =====
-- registry.go: the rows of the file before and after an operation, and the failures.
use zordon.Base.{
  ℕ, ◌≡◌, ◌≢◌, inl, refl, ap, ◌∙◌, Bool, true, false, List, [], ◌∷◌, ◌++◌, Option, none, some,
  arith, if◌then◌else◌, ℤ, Bytes, equal,
}
use zordon.Zfs.{Call, Written, atomic_write}
use zordon.Zfs.Atomic.{Restored, IsAtomic, atomic_write-IsAtomic, atomic_write_all}
use zordon.Registry.Rows.{
  Sublist, IsWithout, drop_by_service-IsWithout, of_hash-not_of_hash, of_hash-not_of_hash_other,
  found_alive-Sublist,
}
use zordon.Registry.{
  entries_written, Entry, marshal_failed, Outcome, done, failed, Codec, World, drop_by_service,
  of_hash, not_of_hash, read_entries, write_entries, locked, with_file, with_file_read_only,
  stamped, register, remove, list_by_fs_hash, Signals, reap_signals, signalled, reap_by_fs_hash,
}

module _ (c : Codec) (home : Bytes) where
  -- the lock and the file can be had, and the file holds `es`
  pub record Ready (w : World) (es : List Entry) : Type 0 where
    pub named : equal home [] ≡ false
    pub locks : w.lockable ≡ true
    pub opens : w.readable ≡ true
    pub reads : read_entries c w ≡ done es
    pub writes : (k : Call) → w.disk.succeeds k ≡ true

  -- the encoding takes `es` and gives it back
  abbrev pub Encodes : List Entry → Type 0
  Encodes es =
      (json : Bytes) × (c.marshal es ≡ some json) × (json ≢ []) × (c.unmarshal json ≡ some es)

  reads_written :
      (w : World) (json : Bytes) (es : List Entry)
      → w.readable ≡ true
      → json ≢ []
      → c.unmarshal json ≡ some es
      → read_entries c (record w { disk = record (w.disk) { file = some json } }) ≡ done es
  unfolding read_entries
  reads_written w [] es r n u = absurd (n refl)
  reads_written w (b ∷ bs) es r n u = rw (r, u) refl

  locked_open {ℓ} :
      {A : Type ℓ} (w : World) (under : Outcome A × World)
      → equal home [] ≡ false
      → w.lockable ≡ true
      → locked c home w under ≡ under
  unfolding locked
  locked_open w under n l = ground (arith, n, l)

  write_entries_lem {ℓ} :
      {A : Type ℓ} (a : A) (es : List Entry) (w : World) (json : Bytes)
      → c.marshal es ≡ some json
      → ((k : Call) → w.disk.succeeds k ≡ true)
      → write_entries c a es w ≡ (done a, record w { disk = record (w.disk) { file = some json } })
  unfolding write_entries
  write_entries_lem a es w json m v =
      rw (m, write_entries) (ap (entries_written a w) (atomic_write_all json w.disk v))

  with_file_lem {ℓ} :
      {A : Type ℓ} (f : List Entry → A × List Entry) (w : World) (es : List Entry)
      → Ready w es
      → Encodes (f es).1
      → (w' : World) × (with_file c home f w ≡ (done (f es).0, w')) × Ready w' (f es).1
  unfolding with_file
  with_file_lem f w es r (json, m, n, u) = (
    record w { disk = record (w.disk) { file = some json } },
    locked_open w _ r.named r.locks
        ∙ rw (r.reads) (write_entries_lem (f es).0 (f es).1 w json m r.writes),
    record {
      named = r.named;
      locks = r.locks;
      opens = r.opens;
      reads = reads_written w json (f es).1 r.opens n u;
      writes = r.writes;
    },
  )

  with_file_read_only_lem {ℓ} :
      {A : Type ℓ} (f : List Entry → A) (w : World) (es : List Entry)
      → Ready w es
      → with_file_read_only c home f w ≡ (done (f es), w)
  unfolding with_file_read_only
  with_file_read_only_lem f w es r = locked_open w _ r.named r.locks ∙ rw r.reads refl

  -- an outcome that is a failure left the registry as it was, and no temporary file that can be
  -- removed
  abbrev pub Unchanged {ℓ} : {A : Type ℓ} → World → Outcome A × World → Type 0
  Unchanged w (done a, w') = Unit
  Unchanged w (failed x, w') = Restored w.disk w'.disk

  Unchanged-written {ℓ} :
      {A : Type ℓ} (a : A) (w : World) (json : Bytes) (r : Written)
      → IsAtomic json w.disk r
      → Unchanged {A = A} w (entries_written a w r)
  Unchanged-written a w json (none, disk) h = tt
  Unchanged-written a w json (some k, disk) h = h

  Unchanged-if {ℓ} :
      {A : Type ℓ} (w : World) (test : Bool) (x y : Outcome A × World)
      → Unchanged {A = A} w x
      → Unchanged {A = A} w y
      → Unchanged {A = A} w (if test then x else y)
  Unchanged-if w true x y hx hy = hx
  Unchanged-if w false x y hx hy = hy

  write_entries-Unchanged {ℓ} :
      {A : Type ℓ} (a : A) (es : List Entry) (w : World)
      → Unchanged {A = A} w (write_entries c a es w)
  unfolding write_entries
  write_entries-Unchanged {A} a es w = go (c.marshal es)
    where
      go :
          (o : Option Bytes)
          → Unchanged {A = A} w (elim o [
            | none ↦ (failed marshal_failed, w)
            | some json ↦ entries_written a w (atomic_write json w.disk)
          ])
      go none = (refl, inl refl)
      go (some json) = Unchanged-written a w json _ (atomic_write-IsAtomic json w.disk)

  with_file-Unchanged {ℓ} :
      {A : Type ℓ} (f : List Entry → A × List Entry) (w : World)
      → Unchanged {A = A} w (with_file c home f w)
  unfolding with_file locked
  with_file-Unchanged {A} f w =
      Unchanged-if w (equal home []) _ _ (refl, inl refl)
        (Unchanged-if w w.lockable _ _ (under (read_entries c w)) (refl, inl refl))
    where
      under :
          (o : Outcome (List Entry))
          → Unchanged {A = A} w
              (elim o [ failed x ↦ (failed x, w) | done es ↦ write_entries c (f es).0 (f es).1 w ])
      under (failed x) = (refl, inl refl)
      under (done es) = write_entries-Unchanged (f es).0 (f es).1 w

module _ (c : Codec) (home : Bytes) (w : World) (es : List Entry) (r : Ready c home w es) where
  -- If the registry can be had and holds `es`, and the encoding takes the new rows, `Register`
  -- succeeds and leaves a registry that can be had. Its rows are those of all other services, each
  -- of them with all the rows it had, in the order of `es`, and behind them the new row, with the
  -- time of the call if it had none, the only one of its service.
  pub register-Replaces :
      (now : ℕ) (e : Entry)
      → Encodes c home (drop_by_service es e.fs_hash e.service ++ stamped now e ∷ [])
      → (w' : World) × (others : List Entry) × (register c now home e w ≡ (done tt, w'))
        × Ready c home w' (others ++ stamped now e ∷ [])
        × IsWithout e.fs_hash e.service es others
  unfolding register
  register-Replaces now e h =
      let (w', q, r') =
        with_file_lem c home
          (λ xs. (tt, drop_by_service xs e.fs_hash e.service ++ stamped now e ∷ [])) w es r h in
      (
        w',
        drop_by_service es e.fs_hash e.service,
        q,
        r',
        drop_by_service-IsWithout e.fs_hash e.service es,
      )

  -- If the registry can be had and holds `es`, and the encoding takes what is left, `Remove`
  -- succeeds and leaves a registry that can be had, without rows of the service. Every other
  -- service has all the rows it had, and all rows are in the order of `es`.
  pub remove-Drops :
      (hash name : Bytes)
      → Encodes c home (drop_by_service es hash name)
      → (w' : World) × (left : List Entry) × (remove c home hash name w ≡ (done tt, w'))
        × Ready c home w' left
        × IsWithout hash name es left
  unfolding remove
  remove-Drops hash name h =
      let (w', q, r') = with_file_lem c home (λ xs. (tt, drop_by_service xs hash name)) w es r h in
      (w', drop_by_service es hash name, q, r', drop_by_service-IsWithout hash name es)

  -- If the registry can be had and holds `es`, and the encoding takes the rows of the other
  -- instances, `ReapByFsHash` succeeds. Afterwards `ListByFsHash` finds no row of the instance, and
  -- for any other instance the rows it had. SIGTERM goes to rows of the instance only, and SIGKILL
  -- to rows that got SIGTERM only, whatever the probes find.
  pub reap_by_fs_hash-Reaps :
      (probe : ℕ → ℤ → Bool) (hash : Bytes)
      → Encodes c home (not_of_hash hash es)
      → (w' : World) × (s : Signals) × (reap_by_fs_hash c probe home hash w ≡ (done s, w'))
        × (list_by_fs_hash c home hash w' ≡ (done [], w'))
        × ((other : Bytes)
            → equal other hash ≡ false
            → list_by_fs_hash c home other w' ≡ (done (of_hash other es), w'))
        × Sublist s.terminated (of_hash hash es)
        × Sublist s.killed s.terminated
  unfolding reap_by_fs_hash list_by_fs_hash reap_signals
  reap_by_fs_hash-Reaps probe hash h =
      let (w', q, r') =
        with_file_lem c home (λ xs. (of_hash hash xs, not_of_hash hash xs)) w es r h in
      (
        w',
        reap_signals probe (of_hash hash es),
        ap (signalled probe) q,
        with_file_read_only_lem c home (of_hash hash) w' (not_of_hash hash es) r'
            ∙ ap (λ xs. (done xs, w')) (of_hash-not_of_hash hash es),
        λ other d.
            with_file_read_only_lem c home (of_hash other) w' (not_of_hash hash es) r'
            ∙ ap (λ xs. (done xs, w')) (of_hash-not_of_hash_other hash other es d),
        found_alive-Sublist probe 0 (of_hash hash es),
        found_alive-Sublist probe _ _,
      )

-- A call of `Register`, `Remove` or `ReapByFsHash` that returns an error, whatever it meets and
-- whichever call of `AtomicWrite` fails, has left registry.json as it was, and the temporary files
-- beside it, but for one more if that cannot be removed.
pub failed-Unchanged :
    (c : Codec) (home : Bytes) (w : World)
    → ((now : ℕ) (e : Entry) → Unchanged c home w (register c now home e w))
      × ((hash name : Bytes) → Unchanged c home w (remove c home hash name w))
      × ((probe : ℕ → ℤ → Bool) (hash : Bytes)
          → Unchanged c home w (reap_by_fs_hash c probe home hash w))
unfolding register remove reap_by_fs_hash
failed-Unchanged c home w = (
  λ now e.
      with_file-Unchanged c home
        (λ xs. (tt, drop_by_service xs e.fs_hash e.service ++ stamped now e ∷ [])) w,
  λ hash name. with_file-Unchanged c home (λ xs. (tt, drop_by_service xs hash name)) w,
  λ probe hash.
      after probe _ (with_file-Unchanged c home (λ xs. (of_hash hash xs, not_of_hash hash xs)) w),
)
  where
    after :
        (probe : ℕ → ℤ → Bool) (o : Outcome (List Entry) × World)
        → Unchanged c home {A = List Entry} w o
        → Unchanged c home {A = Signals} w (signalled probe o)
    after probe (done ours, w') h = tt
    after probe (failed x, w') h = h
