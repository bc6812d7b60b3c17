-- ===== src/Version/Tests.antt =====
-- A binary built from a modified tree.
use zordon.Base.{◌≡◌, refl, false, [], ◌∷◌, some, take, codes, equal}
use zordon.Version.{BuildInfo, or_text, resolve, to_string}
use zordon.Version.Ladder.{marked, first_of, last_is_true, resolve-ladder}

abbrev local : BuildInfo
local = record {
  main_version = [];
  settings =
      (codes "vcs", codes "git")
      ∷ (codes "vcs.revision", codes "7c826464877ee707b5d7234ce0c2616109a1ac1d")
      ∷ (codes "vcs.modified", codes "true")
      ∷ [];
}

to_string-local :
    to_string (resolve [] [] [] (codes "go1.26") (some local))
    ≡ codes "(devel) (7c826464877e+dirty, go1.26)"
unfolding to_string resolve equal
to_string-local = refl

resolve-ladder_example : resolve [] [] (codes "2026") (codes "go1.26") (some local) ≡ record {
  version = or_text [] (or_text local.main_version (codes "(devel)"));
  commit =
      marked
        (last_is_true (codes "vcs.modified") local.settings false)
        (take 12 (or_text [] (first_of (codes "vcs.revision") local.settings)));
  date = or_text (codes "2026") (first_of (codes "vcs.time") local.settings);
  go = codes "go1.26";
}
resolve-ladder_example = resolve-ladder [] [] (codes "2026") (codes "go1.26") local
