-- ===== src/Env.antt =====
-- internal/zenv/zenv.go: the layers of an environment. A map is an association list in which the
-- first pair of a key counts.
pub mod Overlay
pub mod PathList
pub mod Dotenv
mod Tests
use zordon.Base.{
  ◌||◌, Bool, true, false, ◌&&◌, List, [], ◌∷◌, ◌++◌, Option, none, some, ◌==◌, if◌then◌else◌,
  length, take, drop, Bytes, codes, equal, has_prefix, mem, lookup, insert,
}

-- `EnvironmentVariables`
abbrev pub Vars : Type 0
Vars = List (Bytes × Bytes)

-- `maps.Copy`
unfoldable pub copy : Vars → Vars → Vars
unfolding insert
copy out [] = out
copy out ((k, v) ∷ o) = insert k v (copy out o)

-- the loop of `Join`
unfoldable pub join : Vars → List Vars → Vars
unfolding copy
join e [] = e
join e (o ∷ os) = join (copy e o) os

-- `dedupStrings`, with the keys of `seen`
unfoldable pub dedup : List Bytes → List Bytes → List Bytes
unfolding mem equal
dedup seen [] = []
dedup seen (v ∷ s) =
    let skipped = dedup seen s in
    let kept = dedup (v ∷ seen) s in if equal v [] || mem v seen then skipped else v ∷ kept

-- `strings.Join`
unfoldable pub join_strings : Bytes → List Bytes → Bytes
join_strings sep [] = []
join_strings sep (s ∷ []) = s
join_strings sep (s ∷ t ∷ ts) = s ++ (sep ++ join_strings sep (t ∷ ts))

-- `out[key]`, the empty string if there is none
abbrev pub value_or_empty : Option Bytes → Bytes
value_or_empty none = []
value_or_empty (some v) = v

-- the new value of the list variable, in `pathJoin`
unfoldable pub stacked : Bytes → Bool → Bytes → Bytes → Bytes
unfolding equal
stacked sep prepend cur added =
    if equal cur [] then added else if prepend then added ++ (sep ++ cur) else cur ++ (sep ++ added)

-- `pathJoin`, with the list separator of the system
unfoldable pub path_join : Bytes → Vars → Bytes → List Bytes → Bool → Vars
unfolding dedup join_strings stacked lookup insert
path_join sep e key dirs prepend = elim (dedup [] dirs) [
  | [] ↦ e
  | d ∷ ds ↦
      insert key (stacked sep prepend (value_or_empty (lookup key e)) (join_strings sep (d ∷ ds))) e
]

-- `PrependPath`
unfoldable pub prepend_path : Bytes → Vars → Bytes → List Bytes → Vars
unfolding path_join
prepend_path sep e key dirs = path_join sep e key dirs true

-- `AppendPath`
unfoldable pub append_path : Bytes → Vars → Bytes → List Bytes → Vars
unfolding path_join
append_path sep e key dirs = path_join sep e key dirs false

-- `strings.Cut(s, "=")`
unfoldable pub cut : Bytes → Option (Bytes × Bytes)
cut [] = none
cut (c ∷ s) =
    let rest = cut s in
    if c == b'=' then some ([], s) else elim rest [ none ↦ none | some (k, v) ↦ some (c ∷ k, v) ]

-- `strings.TrimPrefix`
unfoldable pub trim_prefix : Bytes → Bytes → Bytes
unfolding has_prefix
trim_prefix s p = if has_prefix s p then drop (length p) s else s

-- the value without the quotes around it, if it is quoted
unfoldable pub unquoted : Bytes → Bytes
unquoted [] = []
unquoted (q ∷ []) = q ∷ []
unquoted (q ∷ c ∷ s) =
    let last = drop (length s) (c ∷ s) in
    if (q == b'"' || q == b'\'') && equal last (q ∷ []) then take (length s) (c ∷ s) else q ∷ c ∷ s

module _ (trim_space : Bytes → Bytes) where
  -- what the loop of `JoinFile` makes of one line; `trim_space` is `strings.TrimSpace`
  unfoldable pub dotenv_line : Bytes → Option (Bytes × Bytes)
  unfolding trim_prefix cut unquoted equal has_prefix
  dotenv_line text =
      let line = trim_space text in
      if equal line [] || has_prefix line (codes "#")
      then none
      else elim (cut (trim_prefix line (codes "export "))) [
        | none ↦ none
        | some (k, v) ↦ some (trim_space k, unquoted (trim_space v))
      ]

  unfoldable pub join_lines : Vars → List Bytes → Vars
  unfolding dotenv_line insert
  join_lines out [] = out
  join_lines out (text ∷ texts) = elim (dotenv_line text) [
    | none ↦ join_lines out texts
    | some (k, v) ↦ join_lines (insert k v out) texts
  ]

  -- `JoinFile`, with the lines that the scanner reads of each path; `none` is a file that does
  -- not open
  unfoldable pub join_file : Vars → List (Option (List Bytes)) → Vars
  unfolding join_lines
  join_file out [] = out
  join_file out (none ∷ files) = join_file out files
  join_file out (some texts ∷ files) = join_file (join_lines out texts) files

-- the loop of `FromHost` over `os.Environ()`
unfoldable pub keep_allowed : List Bytes → Vars → List Bytes → Vars
unfolding cut mem insert
keep_allowed allow out [] = out
keep_allowed allow out (kv ∷ kvs) = elim (cut kv) [
  | none ↦ keep_allowed allow out kvs
  | some (k, v) ↦ keep_allowed allow (if mem k allow then insert k v out else out) kvs
]

-- `FromHost`
unfoldable pub from_host : List Bytes → List Bytes → Vars
unfolding keep_allowed
from_host [] environ = []
from_host (a ∷ allow) environ = keep_allowed (a ∷ allow) [] environ
