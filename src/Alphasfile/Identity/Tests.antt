-- ===== src/Alphasfile/Identity/Tests.antt =====
-- Names of services and pins.
use zordon.Base.{
  mem, ◌↔◌, cut_prefix, cut_at, last_cut, replace_byte, split_from, free, ◌≡◌, refl, [], ◌∷◌, ◌++◌,
  none, some, codes, equal, has_prefix,
}
use zordon.Alphasfile.Identity.{
  service_ref, parse_service_ref, module_path, parse_module_path, split_package_module,
  split_display_name, display_name, toolchain_key, toolchain_ref, parse_toolchain_ref,
  toolchain_lang, is_module_name, all_word,
}
use zordon.Alphasfile.Identity.Annotate.{
  RootBlock, annotated, annotate_modules, annotate_blocks, check_clashes, annotate_packages,
  check_slashes, every_service, block_services, package_services,
}
use zordon.Alphasfile.Identity.Checked.{IsIdentified, stamp_root, annotate_modules-IsIdentified}
use zordon.Alphasfile.Identity.Modules.{Home, packaged, module_id, IsNamed}
use zordon.Alphasfile.Identity.RoundTrip.{
  parse_service_ref-service_ref, split_display_name-display_name, parse_toolchain_ref-toolchain_ref,
}

service_ref-nested :
    service_ref (codes "acme/pg/db") (codes "go") (codes "api")
    ≡ codes "package.acme.package.pg.component.db.service.go.api"
unfolding service_ref module_path split_package_module last_cut replace_byte equal
service_ref-nested = refl

-- a module of a package `component` within another, whose path `parseModulePath` cuts too early
parse_service_ref-component :
    parse_service_ref (service_ref (codes "acme/component/db") (codes "go") (codes "api")) ≡ none
unfolding service_ref module_path split_package_module last_cut replace_byte equal parse_service_ref
    parse_module_path cut_prefix cut_at has_prefix split_from free
parse_service_ref-component = refl

abbrev home : Home
home = packaged (codes "acme") (codes "pg" ∷ []) (codes "db")

home-IsNamed : IsNamed home
unfolding is_module_name all_word equal
home-IsNamed = (refl, (refl, refl, tt), refl)

parse_service_ref-service_ref_example :
    parse_service_ref (
      (service_ref (module_id home) (codes "go") (codes "api") ++ codes ".runtime.ready")
      ++ codes "@failed")
    ≡ some (module_id home, codes "go", codes "api", codes "runtime.ready")
unfolding equal free
parse_service_ref-service_ref_example =
    parse_service_ref-service_ref home (codes "go") (codes "api") (some (codes "runtime.ready"))
      (some (codes "failed")) home-IsNamed (refl, refl, refl) (refl, refl, refl) refl refl

split_display_name-display_name_example :
    split_display_name (display_name (codes "acme/db") (codes "api"))
    ≡ (codes "acme/db", codes "api")
unfolding free
split_display_name-display_name_example =
    split_display_name-display_name (codes "acme/db") (codes "api") refl

parse_toolchain_ref-toolchain_ref_example :
    (parse_toolchain_ref (toolchain_ref (module_id home) (codes "go"))
      ≡ some (toolchain_key (module_id home) (codes "go")))
    × (toolchain_lang (toolchain_key (module_id home) (codes "go")) ≡ codes "go")
unfolding equal free
parse_toolchain_ref-toolchain_ref_example =
    parse_toolchain_ref-toolchain_ref home (codes "go") home-IsNamed refl refl

abbrev root : RootBlock
root = record {
  services = record { name = codes "proxy"; module_of = [] } ∷ [];
  modules =
      record { name = codes "db"; services = record { name = codes "pg"; module_of = [] } ∷ [] }
      ∷ [];
  packages =
      record { name = codes "acme"; modules = record { name = codes "db"; services = [] } ∷ [] }
      ∷ [];
}

annotate_modules-root : annotate_modules root ≡ annotated (stamp_root root)
unfolding annotate_modules annotate_blocks check_clashes annotate_packages check_slashes
    every_service block_services package_services is_module_name all_word mem equal free
annotate_modules-root = refl

annotate_modules-IsIdentified_example :
    (annotate_modules root ≡ annotated (stamp_root root))
    ↔ (IsIdentified root × (stamp_root root ≡ stamp_root root))
annotate_modules-IsIdentified_example = annotate_modules-IsIdentified root (stamp_root root)
