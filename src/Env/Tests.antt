-- ===== src/Env/Tests.antt =====
-- A PATH and a dotenv file. Spaces are trimmed in front only.
use zordon.Base.{
  free, ◌≡◌, refl, false, not, ◌&&◌, List, [], ◌∷◌, ◌++◌, Option, none, some, ◌==◌, if◌then◌else◌,
  Bytes, codes, equal, has_prefix, drop_while, mem, lookup,
}
use zordon.Env.{Vars, prepend_path, append_path, dotenv_line, join_file, from_host}
use zordon.Env.Overlay.{AllDistinct, firsts, or_else, host_value, lookup-from_host}
use zordon.Env.PathList.{all_free, entries_at, path_join-entries}
use zordon.Env.Dotenv.{quoted, file_value, lookup-join_file, dotenv_line-quoted}

abbrev trim : Bytes → Bytes
trim = drop_while (λ c. c == b' ')

abbrev base : Vars
base = (codes "PATH", codes "/usr/bin:/bin") ∷ (codes "HOME", codes "/root") ∷ []

abbrev dirs : List Bytes
dirs = codes "/go/bin" ∷ [] ∷ codes "/opt" ∷ codes "/go/bin" ∷ []

dotenv_line-comment : dotenv_line trim (codes "  # A=1") ≡ none
unfolding dotenv_line equal has_prefix
dotenv_line-comment = refl

dotenv_line-export : dotenv_line trim (codes " export A=\"b c\"") ≡ some (codes "A", codes "b c")
unfolding dotenv_line equal has_prefix
dotenv_line-export = refl

path_join-entries_example :
    (entries_at b':' (codes "PATH") (prepend_path (b':' ∷ []) base (codes "PATH") dirs)
      ≡ firsts dirs ++ entries_at b':' (codes "PATH") base)
    × (entries_at b':' (codes "PATH") (append_path (b':' ∷ []) base (codes "PATH") dirs)
        ≡ entries_at b':' (codes "PATH") base ++ firsts dirs)
    × AllDistinct (firsts dirs)
    × ((d : Bytes) → mem d (firsts dirs) ≡ (mem d dirs && not (equal d [])))
    × ((j : Bytes)
        → equal (codes "PATH") j ≡ false
        → (lookup j (prepend_path (b':' ∷ []) base (codes "PATH") dirs) ≡ lookup j base)
          × (lookup j (append_path (b':' ∷ []) base (codes "PATH") dirs) ≡ lookup j base))
unfolding all_free
path_join-entries_example = path_join-entries b':' base (codes "PATH") dirs refl

dotenv_line-quoted_example :
    (dotenv_line trim (codes "A" ++ b'=' ∷ quoted b'\'' (codes "x=y"))
      ≡ some (codes "A", codes "x=y"))
    × (dotenv_line trim (codes "export " ++ (codes "A" ++ b'=' ∷ quoted b'\'' (codes "x=y")))
        ≡ some (codes "A", codes "x=y"))
unfolding free has_prefix
dotenv_line-quoted_example =
    dotenv_line-quoted trim (codes "A") (codes "x=y") b'\'' refl refl refl refl refl refl refl refl

abbrev overlay : Vars
overlay = (codes "HOME", codes "/tmp") ∷ []

abbrev environ : List Bytes
environ = codes "RUBYLIB=/x" ∷ codes "HOME=/root" ∷ codes "odd" ∷ codes "HOME=/tmp" ∷ []

lookup-from_host_example :
    lookup (codes "HOME") (from_host (codes "HOME" ∷ []) environ)
    ≡ (if mem (codes "HOME") (codes "HOME" ∷ []) then host_value (codes "HOME") environ else none)
lookup-from_host_example = lookup-from_host (codes "HOME" ∷ []) (codes "HOME") environ

abbrev files : List (Option (List Bytes))
files = some (codes "HOME=/a" ∷ codes "B=1" ∷ []) ∷ none ∷ some (codes "HOME='/b'" ∷ []) ∷ []

lookup-join_file_example :
    lookup (codes "HOME") (join_file trim base files)
    ≡ or_else (file_value trim (codes "HOME") files) (lookup (codes "HOME") base)
lookup-join_file_example = lookup-join_file trim (codes "HOME") base files
