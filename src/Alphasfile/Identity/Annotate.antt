-- ===== src/Alphasfile/Identity/Annotate.antt =====
-- identity.go, `annotateModules`: the module of each service, and the checks of the names.
use zordon.Base.{free, not, List, [], ◌∷◌, ◌++◌, map, if◌then◌else◌, Bytes, mem}
use zordon.Alphasfile.Identity.{is_module_name}

-- what it reads of a `serviceBlock`, and the module that it stamps
pub record ServiceDecl : Type 0 where
  pub name : Bytes
  pub module_of : Bytes

pub record ModuleBlock : Type 0 where
  pub name : Bytes
  pub services : List ServiceDecl

pub record PackageBlock : Type 0 where
  pub name : Bytes
  pub modules : List ModuleBlock

pub record RootBlock : Type 0 where
  pub services : List ServiceDecl
  pub modules : List ModuleBlock
  pub packages : List PackageBlock

-- the errors, with the names in them
pub data Rejection : Type 0 where
  invalid_component duplicate_component same_as_service invalid_package : Bytes → Rejection
  invalid_service : Bytes → Rejection

pub data Annotated (A : Type 0) : Type 0 where
  annotated : A → Annotated A
  rejected : Rejection → Annotated A

abbrev pub annotated_then : {A B : Type 0} → Annotated A → (A → Annotated B) → Annotated B
annotated_then (annotated a) f = f a
annotated_then (rejected e) f = rejected e

abbrev pub stamp : Bytes → List ServiceDecl → List ServiceDecl
stamp m = map (λ s. record { name = s.name; module_of = m })

abbrev pub stamp_module : ModuleBlock → ModuleBlock
stamp_module mb = record { name = mb.name; services = stamp mb.name mb.services }

-- the loop over modules, with the names in `seen`
unfoldable pub annotate_blocks : List Bytes → List ModuleBlock → Annotated (List ModuleBlock)
unfolding mem
annotate_blocks seen [] = annotated []
annotate_blocks seen (mb ∷ mbs) =
    let rest = annotate_blocks (mb.name ∷ seen) mbs in
    if not (is_module_name mb.name)
    then rejected (invalid_component mb.name)
    else if mem mb.name seen
    then rejected (duplicate_component mb.name)
    else annotated_then rest (λ out. annotated (stamp_module mb ∷ out))

abbrev pub block_names : List ModuleBlock → List Bytes
block_names = map (λ mb. mb.name)

-- the loop over the services at the top level
unfoldable pub check_clashes : List Bytes → List ServiceDecl → Annotated Unit
unfolding mem
check_clashes seen [] = annotated tt
check_clashes seen (s ∷ services) =
    let rest = check_clashes seen services in
    if mem s.name seen then rejected (same_as_service s.name) else rest

-- the loop over packages
unfoldable pub annotate_packages : List PackageBlock → Annotated (List PackageBlock)
unfolding annotate_blocks
annotate_packages [] = annotated []
annotate_packages (pb ∷ pbs) =
    let rest = annotate_packages pbs in
    if not (is_module_name pb.name)
    then rejected (invalid_package pb.name)
    else annotated_then (annotate_blocks [] pb.modules) (λ mbs.
      annotated_then rest (λ out. annotated (record { name = pb.name; modules = mbs } ∷ out)))

-- `allServices`, and the services of packages behind them
unfoldable pub block_services : List ModuleBlock → List ServiceDecl
block_services [] = []
block_services (mb ∷ mbs) = mb.services ++ block_services mbs

unfoldable pub package_services : List PackageBlock → List ServiceDecl
unfolding block_services
package_services [] = []
package_services (pb ∷ pbs) = block_services pb.modules ++ package_services pbs

unfoldable pub every_service : RootBlock → List ServiceDecl
unfolding block_services package_services
every_service root =
    root.services ++ (block_services root.modules ++ package_services root.packages)

-- the loop over `services`
unfoldable pub check_slashes : List ServiceDecl → Annotated Unit
unfolding free
check_slashes [] = annotated tt
check_slashes (s ∷ services) =
    let rest = check_slashes services in
    if not (free 47 s.name) then rejected (invalid_service s.name) else rest

-- `annotateModules`
unfoldable pub annotate_modules : RootBlock → Annotated RootBlock
unfolding annotate_blocks check_clashes annotate_packages check_slashes every_service
annotate_modules root = annotated_then (annotate_blocks [] root.modules) (λ mbs.
    annotated_then (check_clashes (block_names root.modules) root.services) (λ u.
      annotated_then (annotate_packages root.packages) (λ pbs.
        annotated_then (check_slashes (every_service root))
          (λ w. annotated (record { services = root.services; modules = mbs; packages = pbs })))))
