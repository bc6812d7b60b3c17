-- ===== src/Alphasfile/Identity.antt =====
-- internal/alphasfile/identity.go: the names of services, modules and toolchain pins.
pub mod Modules
pub mod RoundTrip
pub mod Annotate
pub mod Checked
mod Tests
use zordon.Base.{
  cut_prefix, cut_at, last_cut, replace_byte, split_from, join_with, free, ℕ, Bool, true, false,
  not, ◌&&◌, ◌||◌, List, [], ◌∷◌, ◌++◌, Option, none, some, ◌==◌, leb, if◌then◌else◌, Bytes, codes,
  equal,
}

-- `SplitPackageModule`
abbrev pub both_parts : Option (Bytes × Bytes) → Option (Bytes × Bytes)
both_parts (some (p ∷ pkg, m ∷ comp)) = some (p ∷ pkg, m ∷ comp)
both_parts _ = none

unfoldable pub split_package_module : Bytes → Option (Bytes × Bytes)
unfolding last_cut
split_package_module module_id = both_parts (last_cut 47 module_id)

-- `PackageOf`
abbrev pub package_of_id : Bytes → Option Bytes
unfolding split_package_module
package_of_id module_id = elim (split_package_module module_id) [ none ↦ none | some s ↦ some s.0 ]

-- `modulePath`
abbrev pub path_of : Bytes → Option (Bytes × Bytes) → Bytes
unfolding replace_byte
path_of module_id (some (p, m)) =
    codes "package." ++ (replace_byte 47 (codes ".package.") p ++ (codes ".component." ++ m))
path_of module_id none = codes "component." ++ module_id

unfoldable pub module_path : Bytes → Bytes
unfolding split_package_module
module_path module_id = path_of module_id (split_package_module module_id)

-- `ServiceRef`
unfoldable pub service_ref : Bytes → Bytes → Bytes → Bytes
unfolding module_path equal
service_ref module_id toolchain name =
    let local = toolchain ++ (codes "." ++ name) in
    if equal module_id []
    then codes "service." ++ local
    else module_path module_id ++ (codes ".service." ++ local)

-- `ProvisionRef`
unfoldable pub provision_ref : Bytes → Bytes → Bytes → Bytes → Bytes
unfolding service_ref
provision_ref module_id toolchain name step =
    service_ref module_id toolchain name ++ (codes ".runtime.provision." ++ step)

-- the loop over `pkgs`
abbrev pub all_names : List Bytes → Bool
unfolding free equal
all_names [] = true
all_names (seg ∷ pkgs) = not (equal seg []) && free 46 seg && all_names pkgs

-- the last steps of `parseModulePath`: the module up to a dot, behind the packages
abbrev pub up_to_dot : Option (Bytes × Bytes) → Option (Bytes × Bytes)
up_to_dot none = none
up_to_dot (some ([], rest)) = none
up_to_dot (some (b ∷ m, rest)) = some (b ∷ m, rest)

abbrev pub behind : List Bytes → Option (Bytes × Bytes) → Option (Bytes × Bytes)
unfolding join_with
behind pkgs none = none
behind pkgs (some (m, rest)) = some (join_with (codes "/") pkgs ++ (codes "/" ++ m), rest)

abbrev pub parse_packages : Option (Bytes × Bytes) → Option (Bytes × Bytes)
unfolding cut_at split_from equal
parse_packages none = none
parse_packages (some (p, after)) =
    let pkgs = split_from 0 (codes ".package.") p in
    if not (equal p []) && all_names pkgs
    then behind pkgs (up_to_dot (cut_at (codes ".") after))
    else none

-- `parseModulePath`
abbrev pub parse_component : Option Bytes → Option (Bytes × Bytes)
unfolding cut_at
parse_component none = none
parse_component (some after) = up_to_dot (cut_at (codes ".") after)

abbrev pub parse_path : Bytes → Option Bytes → Option (Bytes × Bytes)
unfolding cut_at cut_prefix
parse_path id (some after) = parse_packages (cut_at (codes ".component.") after)
parse_path id none = parse_component (cut_prefix id (codes "component."))

unfoldable pub parse_module_path : Bytes → Option (Bytes × Bytes)
unfolding cut_prefix
parse_module_path id = parse_path id (cut_prefix id (codes "package."))

-- `id` without its `@state`
abbrev pub before_at : Bytes → Option (Bytes × Bytes) → Bytes
before_at id none = id
before_at id (some (before, state)) = before

-- The toolchain, the name and the rest: `strings.SplitN(id, ".", 3)` by two cuts.
abbrev pub name_and_rest : Bytes → Option (Bytes × Bytes) → Bytes × Bytes
name_and_rest after none = (after, [])
name_and_rest after (some split) = split

abbrev pub coordinates : Bytes → Option (Bytes × Bytes) → Option (Bytes × Bytes × Bytes × Bytes)
unfolding cut_at equal
coordinates module_id none = none
coordinates module_id (some (toolchain, after)) =
    let split = name_and_rest after (cut_at (codes ".") after) in
    if equal toolchain [] || equal split.0 []
    then none
    else some (module_id, toolchain, split.0, split.1)

abbrev pub after_service : Bytes → Option Bytes → Option (Bytes × Bytes × Bytes × Bytes)
unfolding cut_at
after_service module_id none = none
after_service module_id (some id) = coordinates module_id (cut_at (codes ".") id)

abbrev pub in_module : Bytes → Option (Bytes × Bytes) → Option (Bytes × Bytes × Bytes × Bytes)
unfolding cut_prefix
in_module id (some (m, rest)) = after_service m (cut_prefix rest (codes "service."))
in_module id none = after_service [] (cut_prefix id (codes "service."))

-- `ParseServiceRef`
unfoldable pub parse_service_ref : Bytes → Option (Bytes × Bytes × Bytes × Bytes)
unfolding parse_module_path last_cut
parse_service_ref id =
    let bare = before_at id (last_cut 64 id) in in_module bare (parse_module_path bare)

-- `DisplayName`
unfoldable pub display_name : Bytes → Bytes → Bytes
unfolding equal
display_name module_id name = if equal module_id [] then name else module_id ++ (codes "/" ++ name)

-- `SplitDisplayName`
abbrev pub or_display : Bytes → Option (Bytes × Bytes) → Bytes × Bytes
or_display display none = ([], display)
or_display display (some split) = split

unfoldable pub split_display_name : Bytes → Bytes × Bytes
unfolding last_cut
split_display_name display = or_display display (last_cut 47 display)

-- what follows the last '/', or the whole text: `ToolchainLang`
abbrev pub last_part : Bytes → Option (Bytes × Bytes) → Bytes
last_part s none = s
last_part s (some (before, after)) = after

unfoldable pub toolchain_lang : Bytes → Bytes
unfolding last_cut
toolchain_lang key = last_part key (last_cut 47 key)

-- `ShortName`
abbrev pub short_of : Bytes → Bytes → Option (Bytes × Bytes) → Bytes
unfolding display_name toolchain_lang equal
short_of module_id name none = display_name module_id name
short_of module_id name (some (p, m)) =
    if equal m (toolchain_lang p) then p ++ (codes "/" ++ name) else display_name module_id name

unfoldable pub short_name : Bytes → Bytes → Bytes
unfolding split_package_module
short_name module_id name = short_of module_id name (split_package_module module_id)

-- `ToolchainKey`
unfoldable pub toolchain_key : Bytes → Bytes → Bytes
unfolding equal
toolchain_key module_id lang = if equal module_id [] then lang else module_id ++ (codes "/" ++ lang)

-- `ToolchainRef`
unfoldable pub toolchain_ref : Bytes → Bytes → Bytes
unfolding module_path equal
toolchain_ref module_id lang =
    if equal module_id []
    then codes "toolchain." ++ lang
    else module_path module_id ++ (codes ".toolchain." ++ lang)

-- `ParseToolchainRef`
abbrev pub nonempty : Option Bytes → Option Bytes
nonempty (some (b ∷ key)) = some (b ∷ key)
nonempty _ = none

abbrev pub key_in : Bytes → Option Bytes → Option Bytes
unfolding toolchain_key
key_in m none = none
key_in m (some lang) = some (toolchain_key m lang)

abbrev pub pin_in : Bytes → Option (Bytes × Bytes) → Option Bytes
unfolding cut_prefix
pin_in entity (some (m, rest)) = key_in m (nonempty (cut_prefix rest (codes "toolchain.")))
pin_in entity none = nonempty (cut_prefix entity (codes "toolchain."))

unfoldable pub parse_toolchain_ref : Bytes → Option Bytes
unfolding parse_module_path
parse_toolchain_ref entity = pin_in entity (parse_module_path entity)

-- `moduleNameRe`
abbrev pub is_letter : ℕ → Bool
is_letter c = leb 65 c && leb c 90 || leb 97 c && leb c 122

abbrev pub is_word : ℕ → Bool
is_word c = is_letter c || leb 48 c && leb c 57 || c == 95 || c == 45

unfoldable pub all_word : Bytes → Bool
all_word [] = true
all_word (c ∷ s) = is_word c && all_word s

unfoldable pub is_module_name : Bytes → Bool
unfolding all_word
is_module_name [] = false
is_module_name (c ∷ s) = is_letter c && all_word s
