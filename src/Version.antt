-- ===== src/Version.antt =====
-- internal/zversion/zversion.go: the build identity of a binary. What `debug.ReadBuildInfo` and
-- `runtime.Version` return is given.
pub mod Ladder
mod Tests
use zordon.Base.{
  ℕ, Bool, false, not, ◌&&◌, List, [], ◌∷◌, ◌++◌, Option, none, some, ltb, if◌then◌else◌, length,
  take, Bytes, codes, equal,
}

-- `Info`
pub record Info : Type 0 where
  pub version : Bytes
  pub commit : Bytes
  pub date : Bytes
  pub go : Bytes

-- what `resolve` reads of a `debug.BuildInfo`
pub record BuildInfo : Type 0 where
  pub main_version : Bytes
  pub settings : List (Bytes × Bytes)

-- `strings.Join(detail, ", ")`
unfoldable pub join_details : List Bytes → Bytes
join_details [] = []
join_details (s ∷ []) = s
join_details (s ∷ t ∷ ts) = s ++ (codes ", " ++ join_details (t ∷ ts))

-- the loop of `String`
unfoldable pub details : List Bytes → List Bytes
unfolding equal
details [] = []
details (part ∷ parts) = let rest = details parts in if equal part [] then rest else part ∷ rest

-- `String`
unfoldable pub to_string : Info → Bytes
unfolding details join_details
to_string i = elim (details (i.commit ∷ i.date ∷ i.go ∷ [])) [
  | [] ↦ i.version
  | d ∷ ds ↦ i.version ++ (codes " (" ++ (join_details (d ∷ ds) ++ codes ")"))
]

-- `Line`, of what `Get` returns
unfoldable pub line : Bytes → Info → Bytes
unfolding to_string
line name i = name ++ (codes " " ++ to_string i)

-- `shortCommitLen`
abbrev pub short_commit_len : ℕ
short_commit_len = 12

-- `s`, or else `t` if `s` is empty
abbrev pub or_text : Bytes → Bytes → Bytes
or_text [] t = t
or_text (c ∷ s) t = c ∷ s

-- the loop over the settings; the flag is `modified`
unfoldable pub read_settings : List (Bytes × Bytes) → Info → Bool → Info × Bool
unfolding equal
read_settings [] out modified = (out, modified)
read_settings ((key, value) ∷ settings) out modified =
    if equal key (codes "vcs.revision")
    then read_settings settings (record out { commit = or_text out.commit value }) modified
    else if equal key (codes "vcs.time")
    then read_settings settings (record out { date = or_text out.date value }) modified
    else if equal key (codes "vcs.modified")
    then read_settings settings out (equal value (codes "true"))
    else read_settings settings out modified

-- what becomes of the commit after the loop
unfoldable pub shown_commit : Bytes → Bool → Bytes
shown_commit commit modified =
    let short =
      if ltb short_commit_len (length commit) then take short_commit_len commit else commit in
    if modified && not (equal short []) then short ++ codes "+dirty" else short

abbrev pub finish_commit : Info × Bool → Info
finish_commit (out, modified) = record out { commit = shown_commit out.commit modified }

abbrev pub with_build_info : Option BuildInfo → Info → Info
with_build_info none out = out
with_build_info (some info) out = finish_commit (
    read_settings info.settings (record out { version = or_text out.version info.main_version })
      false)

-- `resolve`; `none` is a reader that fails or returns nil
unfoldable pub resolve : Bytes → Bytes → Bytes → Bytes → Option BuildInfo → Info
unfolding read_settings shown_commit
resolve ld_version ld_commit ld_date go read =
    let out =
      with_build_info read
        (record { version = ld_version; commit = ld_commit; date = ld_date; go = go }) in
    record out { version = or_text out.version (codes "(devel)") }
