-- ===== src/Version/Ladder.antt =====
-- zversion.go, `resolve`: where each part of the identity comes from.
use zordon.Base.{
  ltb, ◌++◌, true, not, ◌&&◌, ◌≤◌, ◌≡◌, inl, inr, refl, sym, ap, ◌∙◌, Bool, false, List, [], ◌∷◌,
  some, arith, Bool-cases, if◌then◌else◌, length, take, length-append, length-take, take_all, Bytes,
  codes, equal, equal_iff,
}
use mathlib.Core.Path.{subst}
use zordon.Version.{Info, BuildInfo, or_text, read_settings, shown_commit, resolve}

-- the first value of a key that is not empty, the empty text if there is none
unfoldable pub first_of : Bytes → List (Bytes × Bytes) → Bytes
unfolding equal
first_of k [] = []
first_of k ((key, value) ∷ settings) =
    let later = first_of k settings in if equal key k then or_text value later else later

-- whether the last setting of the key is "true"; `before` if there is none
unfoldable pub last_is_true : Bytes → List (Bytes × Bytes) → Bool → Bool
unfolding equal
last_is_true k [] before = before
last_is_true k ((key, value) ∷ settings) before =
    let now = last_is_true k settings (equal value (codes "true")) in
    let kept = last_is_true k settings before in if equal key k then now else kept

or_text_assoc : (a b c : Bytes) → or_text (or_text a b) c ≡ or_text a (or_text b c)
or_text_assoc [] b c = refl
or_text_assoc (x ∷ a) b c = refl

or_text_nil : (a : Bytes) → or_text a [] ≡ a
or_text_nil [] = refl
or_text_nil (x ∷ a) = refl

abbrev settled : List (Bytes × Bytes) → Info → Bool → Info × Bool
settled settings out modified = (
  record out {
    commit = or_text out.commit (first_of (codes "vcs.revision") settings);
    date = or_text out.date (first_of (codes "vcs.time") settings);
  },
  last_is_true (codes "vcs.modified") settings modified,
)

-- The three keys, and any other.
data KnownKey : Bytes → Type 0 where
  revision : KnownKey (codes "vcs.revision")
  time : KnownKey (codes "vcs.time")
  is_modified : KnownKey (codes "vcs.modified")
  other :
      {key : Bytes}
      → equal key (codes "vcs.revision") ≡ false
      → equal key (codes "vcs.time") ≡ false
      → equal key (codes "vcs.modified") ≡ false
      → KnownKey key

known_key : (key : Bytes) → KnownKey key
known_key key = elim (Bool-cases (equal key (codes "vcs.revision"))) [
  | inl a ↦ subst KnownKey (sym ((equal_iff key _).0 a)) revision
  | inr a ↦ elim (Bool-cases (equal key (codes "vcs.time"))) [
    | inl b ↦ subst KnownKey (sym ((equal_iff key _).0 b)) time
    | inr b ↦ elim (Bool-cases (equal key (codes "vcs.modified"))) [
      | inl c ↦ subst KnownKey (sym ((equal_iff key _).0 c)) is_modified
      | inr c ↦ other a b c
    ]
  ]
]

-- one turn of the loop, given what the later turns make
read_setting-settled :
    (key value : Bytes) (settings : List (Bytes × Bytes)) (out : Info) (modified : Bool)
    → ((o : Info) (m : Bool) → read_settings settings o m ≡ settled settings o m)
    → KnownKey key
    → read_settings ((key, value) ∷ settings) out modified
      ≡ settled ((key, value) ∷ settings) out modified
unfolding read_settings first_of last_is_true
read_setting-settled key value settings out modified later revision =
    later (record out { commit = or_text out.commit value }) modified
    ∙ ap
        (λ c. (
          record out { commit = c; date = or_text out.date (first_of (codes "vcs.time") settings) },
          last_is_true (codes "vcs.modified") settings modified,
        ))
        (or_text_assoc out.commit value _)
read_setting-settled key value settings out modified later time =
    later (record out { date = or_text out.date value }) modified
    ∙ ap
        (λ c. (
          record out {
            commit = or_text out.commit (first_of (codes "vcs.revision") settings);
            date = c;
          },
          last_is_true (codes "vcs.modified") settings modified,
        ))
        (or_text_assoc out.date value _)
read_setting-settled key value settings out modified later is_modified =
    later out (equal value (codes "true"))
read_setting-settled key value settings out modified later (other a b c) =
    rw (a, b, c) (later out modified)

read_settings-settled :
    (settings : List (Bytes × Bytes)) (out : Info) (modified : Bool)
    → read_settings settings out modified ≡ settled settings out modified
unfolding read_settings first_of last_is_true
read_settings-settled [] out modified = rw (or_text_nil out.commit, or_text_nil out.date) refl
read_settings-settled ((key, value) ∷ settings) out modified =
    read_setting-settled key value settings out modified (read_settings-settled settings)
      (known_key key)

-- a text with the mark of a modified tree, unless it is empty
abbrev pub marked : Bool → Bytes → Bytes
marked true (c ∷ s) = (c ∷ s) ++ codes "+dirty"
marked true [] = []
marked false s = s

marked_lem :
    (m : Bool) (s : Bytes) → (if m && not (equal s []) then s ++ codes "+dirty" else s) ≡ marked m s
unfolding equal
marked_lem true [] = refl
marked_lem true (c ∷ s) = refl
marked_lem false s = refl

shown_commit_lem :
    (commit : Bytes) (modified : Bool)
    → shown_commit commit modified ≡ marked modified (take 12 commit)
unfolding shown_commit
shown_commit_lem commit modified = elim (Bool-cases (ltb 12 (length commit))) [
  | inl t ↦ rw t (marked_lem modified (take 12 commit))
  | inr t ↦ rw (t, take_all 12 commit (ground arith)) (marked_lem modified commit)
]

-- With build information, each part is the stamp if there is one. Else the version is that of the
-- main module, or "(devel)"; the commit is the first revision of the settings that is not empty,
-- and the date the first such time. The commit, the stamp too, is cut to its first 12 bytes; if it
-- is not empty and the last word of the settings on the tree is that it was modified, "+dirty"
-- follows.
pub resolve-ladder :
    (ld_version ld_commit ld_date go : Bytes) (info : BuildInfo)
    → resolve ld_version ld_commit ld_date go (some info) ≡ record {
      version = or_text ld_version (or_text info.main_version (codes "(devel)"));
      commit =
          marked
            (last_is_true (codes "vcs.modified") info.settings false)
            (take 12 (or_text ld_commit (first_of (codes "vcs.revision") info.settings)));
      date = or_text ld_date (first_of (codes "vcs.time") info.settings);
      go = go;
    }
unfolding resolve
resolve-ladder ld_version ld_commit ld_date go info =
    rw
      (
        read_settings-settled info.settings
            (record {
              version = or_text ld_version info.main_version;
              commit = ld_commit;
              date = ld_date;
              go = go;
            })
            false,
        or_text_assoc ld_version info.main_version (codes "(devel)"),
        shown_commit_lem (or_text ld_commit (first_of (codes "vcs.revision") info.settings))
            (last_is_true (codes "vcs.modified") info.settings false),
      )
      refl

-- The commit that is shown has at most 12 bytes, and 18 with the mark of a modified tree.
pub shown_commit-bounds :
    (commit : Bytes) (modified : Bool)
    → length (shown_commit commit modified) ≤ (if modified then 18 else 12)
unfolding shown_commit
shown_commit-bounds commit modified = ground (
  arith,
  length-take 12 commit,
  length-append (take 12 commit) (codes "+dirty"),
  length-append commit (codes "+dirty"),
)
