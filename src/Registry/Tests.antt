-- ===== src/Registry/Tests.antt =====
-- A registry of three rows, in an encoding that keeps the ports of rows made by `row`.
use zordon.Base.{
  ℕ, ◌+◌, ◌≡◌, refl, Bool, true, false, List, [], ◌∷◌, ◌++◌, map, Option, none, some, ◌==◌, ltb,
  if◌then◌else◌, ℤ, pos, pos_part, Bytes, codes, equal,
}
use zordon.Zfs.{Call, rename_temp, remove_temp}
use zordon.Registry.{
  Entry, done, Codec, World, drop_by_service, of_hash, not_of_hash, read_entries, register, remove,
  lookup_port, list_by_fs_hash, Signals, reap_by_fs_hash,
}
use zordon.Registry.Rows.{Sublist, IsWithout}
use zordon.Registry.Laws.{
  Ready, Unchanged, register-Replaces, remove-Drops, reap_by_fs_hash-Reaps, failed-Unchanged,
}

abbrev row : ℕ → Entry
row p = record {
  port = pos p;
  fs_hash = if ltb p 100 then codes "a" else codes "b";
  service = p ∷ [];
  pgid = pos (p + 1);
  ts = 3;
}

abbrev port_of : Entry → ℕ
port_of e = pos_part e.port

abbrev tail_rows : Bytes → Option (List Entry)
tail_rows [] = none
tail_rows (b ∷ bs) = some (map row bs)

abbrev ports : Codec
ports = record { marshal = λ es. some (b'[' ∷ map port_of es); unmarshal = tail_rows }

abbrev home : Bytes
home = codes "/home/dev/.zordon"

abbrev rows : List Entry
rows = row 5 ∷ row 7 ∷ row 105 ∷ []

abbrev host : World
host = record {
  lockable = true;
  readable = true;
  disk = record {
    succeeds = λ k. true;
    torn = λ content. [];
    file = some (b'[' ∷ 5 ∷ 7 ∷ 105 ∷ []);
    temps = [];
  };
}

host-Ready : Ready ports home host rows
unfolding read_entries equal
host-Ready = record { named = refl; locks = refl; opens = refl; reads = refl; writes = λ k. refl }

lookup_port-host : lookup_port ports home (pos 7) host ≡ (done (some (row 7)), host)
unfolding lookup_port equal
lookup_port-host = refl

register-Replaces_example :
    (w' : World) × (others : List Entry) × (register ports 3 home (record (row 7) { ts = 0 }) host
      ≡ (done tt, w'))
    × Ready ports home w' (others ++ row 7 ∷ [])
    × IsWithout (codes "a") (7 ∷ []) rows others
unfolding drop_by_service equal
register-Replaces_example =
    register-Replaces ports home host rows host-Ready 3 (record (row 7) { ts = 0 })
      (b'[' ∷ 5 ∷ 105 ∷ 7 ∷ [], refl, (λ e. cc), refl)

remove-Drops_example :
    (w' : World) × (left : List Entry) × (remove ports home (codes "a") (7 ∷ []) host
      ≡ (done tt, w'))
    × Ready ports home w' left
    × IsWithout (codes "a") (7 ∷ []) rows left
unfolding drop_by_service equal
remove-Drops_example =
    remove-Drops ports home host rows host-Ready (codes "a") (7 ∷ [])
      (b'[' ∷ 5 ∷ 105 ∷ [], refl, (λ e. cc), refl)

-- the group of port 5 is gone, and that of port 7 ends after SIGTERM
abbrev probe : ℕ → ℤ → Bool
probe k g = k == 1

reap_by_fs_hash-Reaps_example :
    (w' : World) × (s : Signals) × (reap_by_fs_hash ports probe home (codes "a") host
      ≡ (done s, w'))
    × (list_by_fs_hash ports home (codes "a") w' ≡ (done [], w'))
    × ((other : Bytes)
        → equal other (codes "a") ≡ false
        → list_by_fs_hash ports home other w' ≡ (done (of_hash other rows), w'))
    × Sublist s.terminated (of_hash (codes "a") rows)
    × Sublist s.killed s.terminated
unfolding not_of_hash equal
reap_by_fs_hash-Reaps_example =
    reap_by_fs_hash-Reaps ports home host rows host-Ready probe (codes "a")
      (b'[' ∷ 105 ∷ [], refl, (λ e. cc), refl)

-- a host on which the rename fails, and the temporary file cannot be removed
abbrev stuck_call : Call → Bool
stuck_call rename_temp = false
stuck_call remove_temp = false
stuck_call _ = true

abbrev full_disk : World
full_disk = record host { disk = record (host.disk) { succeeds = stuck_call } }

failed-Unchanged_example :
    ((now : ℕ) (e : Entry) → Unchanged ports home full_disk (register ports now home e full_disk))
    × ((hash name : Bytes) → Unchanged ports home full_disk (remove ports home hash name full_disk))
    × ((p : ℕ → ℤ → Bool) (hash : Bytes)
        → Unchanged ports home full_disk (reap_by_fs_hash ports p home hash full_disk))
failed-Unchanged_example = failed-Unchanged ports home full_disk
