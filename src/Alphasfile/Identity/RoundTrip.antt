-- ===== src/Alphasfile/Identity/RoundTrip.antt =====
-- identity.go: the names written, read back.
use zordon.Base.{
  cut_prefix, cut_at, last_cut, free-append, last_cut-free, last_cut-append, cut_at-skip,
  cut_at-free, free, ◌≡◌, refl, ap, ◌∙◌, true, false, [], ◌∷◌, ◌++◌, append-nil, append_assoc,
  Option, none, some, arith, Bytes, codes, equal, has_prefix,
}
use zordon.Alphasfile.Identity.{
  module_path, parse_module_path, service_ref, parse_service_ref, before_at, parse_path,
  parse_component, name_and_rest, coordinates, after_service, in_module, display_name,
  split_display_name, toolchain_key, toolchain_ref, parse_toolchain_ref, nonempty, key_in, pin_in,
  toolchain_lang,
}
use zordon.Alphasfile.Identity.Modules.{
  Home, default, component, packaged, module_id, IsNamed, parse_module_path-module_path, path-free,
  name-full, id-full,
}

-- the label of a toolchain or a service
abbrev pub IsLabel : Bytes → Type 0
IsLabel s = (equal s [] ≡ false) × (free 46 s ≡ true) × (free 64 s ≡ true)

-- more segments
abbrev pub dotted : Option Bytes → Bytes
dotted none = []
dotted (some rest) = codes "." ++ rest

abbrev pub or_nothing : Option Bytes → Bytes
or_nothing none = []
or_nothing (some rest) = rest

-- an `@state` suffix
abbrev pub at_state : Option Bytes → Bytes
at_state none = []
at_state (some state) = codes "@" ++ state

abbrev pub AtFree : Option Bytes → Type 0
AtFree none = Unit
AtFree (some s) = free 64 s ≡ true

cut_name :
    (name : Bytes) (rest : Option Bytes)
    → free 46 name ≡ true
    → name_and_rest (name ++ dotted rest) (cut_at (codes ".") (name ++ dotted rest))
      ≡ (name, or_nothing rest)
unfolding cut_at has_prefix
cut_name name none h = rw (append-nil name, cut_at-free 46 name h) refl
cut_name name (some r) h =
    rw (cut_at-skip 46 [] name (codes "." ++ r) [] r h refl) (ap (λ n. (n, r)) (append-nil name))

coordinates-local :
    (m toolchain name : Bytes) (rest : Option Bytes)
    → IsLabel toolchain
    → IsLabel name
    → coordinates m (cut_at (codes ".") (toolchain ++ (codes "." ++ (name ++ dotted rest))))
      ≡ some (m, toolchain, name, or_nothing rest)
unfolding cut_at has_prefix coordinates
coordinates-local m toolchain name rest (t, td, _) (n, nd, _) =
    rw
      (
        cut_at-skip 46 [] toolchain (codes "." ++ (name ++ dotted rest)) [] _ td refl,
        append-nil toolchain,
        cut_name name rest nd,
        t,
        n,
      )
      refl

-- a reference without its module
abbrev local : Bytes → Bytes → Option Bytes → Bytes
local toolchain name rest = toolchain ++ (codes "." ++ (name ++ dotted rest))

-- a reference, with its dot behind the module
abbrev spelled : Home → Bytes → Bytes
unfolding module_path module_id
spelled default l = codes "service." ++ l
spelled home l = module_path (module_id home) ++ (codes "." ++ (codes "service." ++ l))

ref-spelled :
    (home : Home) (toolchain name : Bytes) (rest : Option Bytes)
    → IsNamed home
    → service_ref (module_id home) toolchain name ++ dotted rest
      ≡ spelled home (local toolchain name rest)
unfolding service_ref module_id spelled equal
ref-spelled default toolchain name rest n =
    ap (λ l. codes "service." ++ l) (append_assoc toolchain (codes "." ++ name) (dotted rest))
ref-spelled (component m) toolchain name rest n = rw (name-full m n) (
    append_assoc (module_path m) (codes ".service." ++ (toolchain ++ (codes "." ++ name)))
      (dotted rest)
    ∙ ap (λ l. module_path m ++ (codes ".service." ++ l))
        (append_assoc toolchain (codes "." ++ name) (dotted rest)))
ref-spelled (packaged p ps m) toolchain name rest n =
    let id = module_id (packaged p ps m) in
    rw (id-full p ps m n.0) (
      append_assoc (module_path id) (codes ".service." ++ (toolchain ++ (codes "." ++ name)))
        (dotted rest)
      ∙ ap (λ l. module_path id ++ (codes ".service." ++ l))
          (append_assoc toolchain (codes "." ++ name) (dotted rest)))

spelled-free :
    (home : Home) (l : Bytes) → IsNamed home → free 64 l ≡ true → free 64 (spelled home l) ≡ true
unfolding spelled free
spelled-free default l n h = h
spelled-free (component m) l n h = path-free (component m) (codes "service." ++ l) n ∙ h
spelled-free (packaged p ps m) l n h = path-free (packaged p ps m) (codes "service." ++ l) n ∙ h

in_module-spelled :
    (home : Home) (toolchain name : Bytes) (rest : Option Bytes)
    → IsNamed home
    → IsLabel toolchain
    → IsLabel name
    → in_module
        (spelled home (local toolchain name rest))
        (parse_module_path (spelled home (local toolchain name rest)))
      ≡ some (module_id home, toolchain, name, or_nothing rest)
unfolding spelled in_module after_service parse_module_path parse_path parse_component cut_prefix
    module_id
in_module-spelled default toolchain name rest n t s = coordinates-local [] toolchain name rest t s
in_module-spelled (component m) toolchain name rest n t s =
    rw
      (parse_module_path-module_path (component m) (codes "service." ++ local toolchain name rest) n
        (name-full m n))
      (coordinates-local m toolchain name rest t s)
in_module-spelled (packaged p ps m) toolchain name rest n t s =
    rw
      (parse_module_path-module_path (packaged p ps m)
        (codes "service." ++ local toolchain name rest) n (id-full p ps m n.0))
      (coordinates-local (module_id (packaged p ps m)) toolchain name rest t s)

before_at_lem :
    (bare : Bytes) (state : Option Bytes)
    → free 64 bare ≡ true
    → AtFree state
    → before_at (bare ++ at_state state) (last_cut 64 (bare ++ at_state state)) ≡ bare
before_at_lem bare none h a = rw (append-nil bare, last_cut-free 64 bare h) refl
before_at_lem bare (some s) h a = rw (last_cut-append 64 bare s a) refl

local-free :
    (toolchain name : Bytes) (rest : Option Bytes)
    → IsLabel toolchain
    → IsLabel name
    → AtFree rest
    → free 64 (local toolchain name rest) ≡ true
unfolding free
local-free toolchain name none (_, _, t) (_, _, n) r =
    rw (free-append 64 toolchain (codes "." ++ (name ++ [])), t, free-append 64 name [], n) refl
local-free toolchain name (some rest) (_, _, t) (_, _, n) r =
    rw
      (
        free-append 64 toolchain (codes "." ++ (name ++ (codes "." ++ rest))),
        t,
        free-append 64 name (codes "." ++ rest),
        n,
        r,
      )
      refl

-- `ParseServiceRef` reads what `ServiceRef` writes back into the module, the toolchain and the name,
-- and returns the segments that follow, also where an `@state` stands at the end. The toolchain and
-- the name are not empty and hold no '.' and no '@', the segments and the state hold no '@', the
-- names of the module are as `moduleNameRe` has them, and no package within another is named
-- `component`.
pub parse_service_ref-service_ref :
    (home : Home) (toolchain name : Bytes) (rest state : Option Bytes)
    → IsNamed home
    → IsLabel toolchain
    → IsLabel name
    → AtFree rest
    → AtFree state
    → parse_service_ref
        ((service_ref (module_id home) toolchain name ++ dotted rest) ++ at_state state)
      ≡ some (module_id home, toolchain, name, or_nothing rest)
unfolding parse_service_ref
parse_service_ref-service_ref home toolchain name rest state n t s r a =
    let e = ref-spelled home toolchain name rest n in
    let bare = spelled home (local toolchain name rest) in
    rw
      (
        e,
        before_at_lem bare state
            (spelled-free home (local toolchain name rest) n (local-free toolchain name rest t s r))
            a,
      )
      (in_module-spelled home toolchain name rest n t s)

-- `SplitDisplayName` reads what `DisplayName` writes back into the module and the name, for every
-- module and every name without a '/'.
pub split_display_name-display_name :
    (module_id name : Bytes)
    → free 47 name ≡ true
    → split_display_name (display_name module_id name) ≡ (module_id, name)
unfolding split_display_name display_name equal
split_display_name-display_name [] name h = rw (last_cut-free 47 name h) refl
split_display_name-display_name (b ∷ m) name h = rw (last_cut-append 47 (b ∷ m) name h) refl

nonempty-full : (s : Bytes) → equal s [] ≡ false → nonempty (some s) ≡ some s
unfolding equal
nonempty-full [] e = ground (arith, e)
nonempty-full (b ∷ s) e = refl

pin-key :
    (home : Home) (lang : Bytes)
    → IsNamed home
    → equal lang [] ≡ false
    → pin_in
        (toolchain_ref (module_id home) lang)
        (parse_module_path (toolchain_ref (module_id home) lang))
      ≡ some (toolchain_key (module_id home) lang)
unfolding toolchain_ref pin_in key_in parse_module_path parse_path parse_component cut_prefix
    module_id equal toolchain_key
pin-key default lang n e = nonempty-full lang e
pin-key (component m) lang n e =
    rw
      (
        name-full m n,
        parse_module_path-module_path (component m) (codes "toolchain." ++ lang) n (name-full m n),
        nonempty-full lang e,
        name-full m n,
      )
      refl
pin-key (packaged p ps m) lang n e =
    let full = id-full p ps m n.0 in
    rw
      (
        full,
        parse_module_path-module_path (packaged p ps m) (codes "toolchain." ++ lang) n full,
        nonempty-full lang e,
        full,
      )
      refl

-- `ParseToolchainRef` reads what `ToolchainRef` writes back into the key of the pin, and
-- `ToolchainLang` the key into the language. The language is not empty and holds no '/', the names
-- of the module are as `moduleNameRe` has them, and no package within another is named `component`.
pub parse_toolchain_ref-toolchain_ref :
    (home : Home) (lang : Bytes)
    → IsNamed home
    → equal lang [] ≡ false
    → free 47 lang ≡ true
    → (parse_toolchain_ref (toolchain_ref (module_id home) lang)
        ≡ some (toolchain_key (module_id home) lang))
      × (toolchain_lang (toolchain_key (module_id home) lang) ≡ lang)
unfolding parse_toolchain_ref toolchain_lang toolchain_key equal
parse_toolchain_ref-toolchain_ref home lang n e h =
    (pin-key home lang n e, toolchain_lang-key (module_id home))
  where
    toolchain_lang-key : (m : Bytes) → toolchain_lang (toolchain_key m lang) ≡ lang
    toolchain_lang-key [] = rw (last_cut-free 47 lang h) refl
    toolchain_lang-key (b ∷ m) = rw (last_cut-append 47 (b ∷ m) lang h) refl
