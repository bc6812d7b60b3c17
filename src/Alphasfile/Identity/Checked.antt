-- ===== src/Alphasfile/Identity/Checked.antt =====
-- identity.go, `annotateModules`: the files that it takes.
use zordon.Base.{
  ◌∙◌, Bool, not, if◌then◌else◌, ◌↔◌, Distinct, free, ◌≡◌, inl, inr, refl, sym, ap, true, false,
  List, [], ◌∷◌, map, arith, Bool-cases, Bytes, equal, equal_iff, equal_refl, mem, mem_head,
}
use mathlib.Core.Path.{subst}
use zordon.Alphasfile.Identity.{is_module_name}
use zordon.Alphasfile.Identity.Annotate.{
  ServiceDecl, ModuleBlock, PackageBlock, RootBlock, Rejection, invalid_component,
  duplicate_component, same_as_service, invalid_package, invalid_service, Annotated, annotated,
  rejected, annotated_then, stamp_module, annotate_blocks, block_names, check_clashes,
  annotate_packages, every_service, check_slashes, annotate_modules,
}

unfoldable pub AllNamed : List Bytes → Type 0
AllNamed [] = Unit
AllNamed (n ∷ ns) = (is_module_name n ≡ true) × AllNamed ns

-- Modules whose names are identifiers and different from each other and from those before.
unfoldable pub IsBlocks : List Bytes → List ModuleBlock → Type 0
IsBlocks seen mbs =
    AllNamed (block_names mbs)
    × Distinct (block_names mbs)
    × ((k : Bytes) → mem k (block_names mbs) ≡ true → mem k seen ≡ false)

-- a result exactly where `P` holds, and then the value
Exactly : {A : Type 0} → Type 0 → A → Annotated A → Type 0
Exactly P a (annotated b) = P × (b ≡ a)
Exactly P a (rejected e) = P → ⊥

-- a check that returns its error
Exactly-check :
    {A : Type 0} (P : Type 0) (a : A) (b : Bool) (e : Rejection) (r : Annotated A)
    → (b ≡ true → P → ⊥)
    → (b ≡ false → Exactly P a r)
    → Exactly P a (if b then rejected e else r)
unfolding Exactly
Exactly-check P a true e r bad good = bad refl
Exactly-check P a false e r bad good = good refl

IsBlocks-more :
    (seen : List Bytes) (mb : ModuleBlock) (mbs : List ModuleBlock)
    → is_module_name mb.name ≡ true
    → mem mb.name seen ≡ false
    → IsBlocks (mb.name ∷ seen) mbs
    → IsBlocks seen (mb ∷ mbs)
unfolding IsBlocks AllNamed mem
IsBlocks-more seen mb mbs named fresh (ns, d, apart) = (
  (named, ns),
  (ground (arith, apart mb.name, equal_refl mb.name), d),
  λ k h. elim (Bool-cases (equal k mb.name)) [
    | inl t ↦ subst (λ j. mem j seen ≡ false) (sym ((equal_iff k mb.name).0 t)) fresh
    | inr t ↦ ground (arith, apart k, h, t)
  ],
)

IsBlocks-less :
    (seen : List Bytes) (mb : ModuleBlock) (mbs : List ModuleBlock)
    → IsBlocks seen (mb ∷ mbs)
    → IsBlocks (mb.name ∷ seen) mbs
unfolding IsBlocks AllNamed mem
IsBlocks-less seen mb mbs ((named, ns), (n, d), apart) = (
  ns,
  d,
  λ k h. elim (Bool-cases (equal k mb.name)) [
    | inl t ↦
        let e = (equal_iff k mb.name).0 t in cc (subst (λ j. mem j (block_names mbs) ≡ true) e h, n)
    | inr t ↦ ground (arith, apart k, h, t)
  ],
)

annotate_blocks-Exactly :
    (seen : List Bytes) (mbs : List ModuleBlock)
    → Exactly (IsBlocks seen mbs) (map stamp_module mbs) (annotate_blocks seen mbs)
unfolding annotate_blocks Exactly IsBlocks AllNamed mem
annotate_blocks-Exactly seen [] = ((tt, tt, λ k h. ground (arith, h)), refl)
annotate_blocks-Exactly seen (mb ∷ mbs) =
    Exactly-check _ _ (not (is_module_name mb.name)) (invalid_component mb.name) _
      (λ t g. ground (arith, t, g.0.0))
      (λ t.
        Exactly-check _ _ (mem mb.name seen) (duplicate_component mb.name) _
          (λ u g. cc (u, g.2 mb.name (mem_head mb.name (block_names mbs))))
          (λ u.
            go (ground (arith, t)) u (annotate_blocks (mb.name ∷ seen) mbs)
              (annotate_blocks-Exactly (mb.name ∷ seen) mbs)))
  where
    go :
        is_module_name mb.name ≡ true
        → mem mb.name seen ≡ false
        → (r : Annotated (List ModuleBlock))
        → Exactly (IsBlocks (mb.name ∷ seen) mbs) (map stamp_module mbs) r
        → Exactly
            (IsBlocks seen (mb ∷ mbs))
            (map stamp_module (mb ∷ mbs))
            (annotated_then r (λ out. annotated (stamp_module mb ∷ out)))
    go t u (annotated out) (g, e) =
        (IsBlocks-more seen mb mbs t u g, ap (λ r. stamp_module mb ∷ r) e)
    go t u (rejected e) n = λ g. n (IsBlocks-less seen mb mbs g)

-- no service at the top level has the name of a module
unfoldable pub AllApart : List Bytes → List ServiceDecl → Type 0
AllApart names [] = Unit
AllApart names (s ∷ services) = (mem s.name names ≡ false) × AllApart names services

check_clashes-Exactly :
    (names : List Bytes) (services : List ServiceDecl)
    → Exactly (AllApart names services) tt (check_clashes names services)
unfolding check_clashes Exactly AllApart
check_clashes-Exactly names [] = (tt, refl)
check_clashes-Exactly names (s ∷ services) =
    Exactly-check _ _ (mem s.name names) (same_as_service s.name) (check_clashes names services)
      (λ t g. cc (t, g.0))
      (λ t. go t (check_clashes names services) (check_clashes-Exactly names services))
  where
    go :
        mem s.name names ≡ false
        → (r : Annotated Unit) → Exactly (AllApart names services) tt r
        → Exactly (AllApart names (s ∷ services)) tt r
    go t (annotated u) (g, e) = ((t, g), e)
    go t (rejected e) n = λ g. n g.1

-- no service has a '/' in its name
unfoldable pub AllFree : List ServiceDecl → Type 0
AllFree [] = Unit
AllFree (s ∷ services) = (free 47 s.name ≡ true) × AllFree services

check_slashes-Exactly :
    (services : List ServiceDecl) → Exactly (AllFree services) tt (check_slashes services)
unfolding check_slashes Exactly AllFree
check_slashes-Exactly [] = (tt, refl)
check_slashes-Exactly (s ∷ services) =
    Exactly-check _ _ (not (free 47 s.name)) (invalid_service s.name) (check_slashes services)
      (λ t g. ground (arith, t, g.0))
      (λ t. go (ground (arith, t)) (check_slashes services) (check_slashes-Exactly services))
  where
    go :
        free 47 s.name ≡ true
        → (r : Annotated Unit) → Exactly (AllFree services) tt r
        → Exactly (AllFree (s ∷ services)) tt r
    go t (annotated u) (g, e) = ((t, g), e)
    go t (rejected e) n = λ g. n g.1

-- packages named by identifiers, each with its own modules
unfoldable pub AllPackages : List PackageBlock → Type 0
AllPackages [] = Unit
AllPackages (pb ∷ pbs) = (is_module_name pb.name ≡ true) × IsBlocks [] pb.modules × AllPackages pbs

abbrev stamp_package : PackageBlock → PackageBlock
stamp_package pb = record { name = pb.name; modules = map stamp_module pb.modules }

Exactly-then :
    {A B : Type 0} (P Q : Type 0) (a : A) (b : B) (r : Annotated A) (f : A → Annotated B)
    → Exactly P a r
    → Exactly Q b (f a)
    → Exactly (P × Q) b (annotated_then r f)
unfolding Exactly
Exactly-then {B = B} P Q a b (annotated c) f (p, e) h =
    go (f c) (subst (λ x. Exactly Q b (f x)) (sym e) h)
  where
    go : (x : Annotated B) → Exactly Q b x → Exactly (P × Q) b x
    go (annotated d) (q, e) = ((p, q), e)
    go (rejected e) n = λ g. n g.1
Exactly-then P Q a b (rejected e) f n h = λ g. n g.0

Exactly-iff :
    {A : Type 0} (P Q : Type 0) (a : A) (r : Annotated A)
    → Exactly P a r
    → (P → Q)
    → (Q → P)
    → Exactly Q a r
unfolding Exactly
Exactly-iff P Q a (annotated b) (p, e) to from = (to p, e)
Exactly-iff P Q a (rejected e) n to from = λ q. n (from q)

Exactly-done : {A : Type 0} (a : A) → Exactly Unit a (annotated a)
unfolding Exactly
Exactly-done a = (tt, refl)

annotate_packages-Exactly :
    (pbs : List PackageBlock)
    → Exactly (AllPackages pbs) (map stamp_package pbs) (annotate_packages pbs)
unfolding annotate_packages AllPackages
annotate_packages-Exactly [] = Exactly-done []
annotate_packages-Exactly (pb ∷ pbs) =
    Exactly-check _ _ (not (is_module_name pb.name)) (invalid_package pb.name) _
      (λ t g. ground (arith, t, g.0))
      (λ t.
        Exactly-iff (IsBlocks [] pb.modules × (AllPackages pbs × Unit)) (AllPackages (pb ∷ pbs)) _ _
          (Exactly-then (IsBlocks [] pb.modules) (AllPackages pbs × Unit)
            (map stamp_module pb.modules) _ (annotate_blocks [] pb.modules) _
            (annotate_blocks-Exactly [] pb.modules)
            (Exactly-then (AllPackages pbs) Unit (map stamp_package pbs) _ (annotate_packages pbs) _
              (annotate_packages-Exactly pbs) (Exactly-done _)))
          (λ g. (ground (arith, t), g.0, g.1.0)) (λ g. (g.1, (g.2, tt))))

-- What `annotateModules` demands. In the file and in each package, the names of the components are
-- identifiers and different; the names of packages are identifiers; no service at the top level has
-- the name of a component of the file; no service has a '/' in its name.
pub record IsIdentified (root : RootBlock) : Type 0 where
  pub components : IsBlocks [] root.modules
  pub apart : AllApart (block_names root.modules) root.services
  pub packages : AllPackages root.packages
  pub slashes : AllFree (every_service root)

-- the file with the module of each service stamped on it
abbrev pub stamp_root : RootBlock → RootBlock
stamp_root root = record {
  services = root.services;
  modules = map stamp_module root.modules;
  packages = map stamp_package root.packages;
}

annotate_modules-Exactly :
    (root : RootBlock) → Exactly (IsIdentified root) (stamp_root root) (annotate_modules root)
unfolding annotate_modules
annotate_modules-Exactly root =
    let names = block_names root.modules in
    let services = every_service root in
    Exactly-iff
      (IsBlocks [] root.modules
        × (AllApart names root.services × (AllPackages root.packages × (AllFree services × Unit))))
      (IsIdentified root) (stamp_root root) _
      (Exactly-then (IsBlocks [] root.modules) _ (map stamp_module root.modules) _ _ _
        (annotate_blocks-Exactly [] root.modules)
        (Exactly-then (AllApart names root.services) _ tt _ _ _
          (check_clashes-Exactly names root.services)
          (Exactly-then (AllPackages root.packages) _ (map stamp_package root.packages) _ _ _
            (annotate_packages-Exactly root.packages)
            (Exactly-then (AllFree services) Unit tt _ _ _ (check_slashes-Exactly services)
              (Exactly-done (stamp_root root))))))
      (λ g. record { components = g.0; apart = g.1.0; packages = g.1.1.0; slashes = g.1.1.1.0 })
      (λ v. (v.components, (v.apart, (v.packages, (v.slashes, tt)))))

-- `annotateModules` succeeds on exactly the files whose names it demands, and its result is then the
-- file with the name of its component stamped on each service of a component.
pub annotate_modules-IsIdentified :
    (root r : RootBlock)
    → (annotate_modules root ≡ annotated r) ↔ (IsIdentified root × (r ≡ stamp_root root))
unfolding Exactly
annotate_modules-IsIdentified root r = (
  λ e. subst (Exactly (IsIdentified root) (stamp_root root)) e (annotate_modules-Exactly root),
  λ v. go (annotate_modules root) (annotate_modules-Exactly root) v.0 v.1,
)
  where
    go :
        (x : Annotated RootBlock)
        → Exactly (IsIdentified root) (stamp_root root) x
        → IsIdentified root
        → r ≡ stamp_root root
        → x ≡ annotated r
    go (annotated y) (v, e) u f = ap annotated (e ∙ sym f)
    go (rejected e) n u f = absurd (n u)
