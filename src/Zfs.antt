-- ===== src/Zfs.antt =====
-- internal/zfs/zfs.go, `AtomicWrite`: a file is replaced by way of a temporary file beside it. What
-- each call of the operating system finds is an oracle.
pub mod Atomic
use zordon.Base.{ℕ, Bool, not, List, [], ◌∷◌, Option, none, some, if◌then◌else◌, Bytes, drop}

-- the calls that `AtomicWrite` makes
pub data Call : Type 0 where
  create_temp write_temp sync_temp chmod_temp close_temp rename_temp remove_temp : Call

-- Which calls succeed, and what a write that fails has left of its data. The file at the path is
-- `none` if it is missing; the temporary files beside it stand with the newest first.
pub record Disk : Type 0 where
  pub succeeds : Call → Bool
  pub torn : Bytes → Bytes
  pub file : Option Bytes
  pub temps : List Bytes

-- the call that failed, `none` for no error, and the disk
abbrev pub Written : Type 0
Written = Option Call × Disk

-- `defer os.Remove(tmpPath)`, which does nothing once the file is renamed
abbrev pub removed : Written → Written
removed (none, d) = (none, d)
removed (some k, d) =
    (some k, if d.succeeds remove_temp then record d { temps = drop 1 d.temps } else d)

-- the data in the newest temporary file
abbrev pub fill : Bytes → List Bytes → List Bytes
fill content [] = []
fill content (temp ∷ temps) = content ∷ temps

-- the calls on the temporary file, which is open and empty
unfoldable pub replace : Bytes → Disk → Written
replace content d =
    let full = record d { temps = fill content d.temps } in
    if not (d.succeeds write_temp)
    then (some write_temp, record d { temps = fill (d.torn content) d.temps })
    else if not (d.succeeds sync_temp)
    then (some sync_temp, full)
    else if not (d.succeeds chmod_temp)
    then (some chmod_temp, full)
    else if not (d.succeeds close_temp)
    then (some close_temp, full)
    else if not (d.succeeds rename_temp)
    then (some rename_temp, full)
    else (none, record full { file = some content; temps = drop 1 full.temps })

-- `AtomicWrite`
unfoldable pub atomic_write : Bytes → Disk → Written
unfolding replace
atomic_write content d =
    if d.succeeds create_temp
    then removed (replace content (record d { temps = [] ∷ d.temps }))
    else (some create_temp, d)
