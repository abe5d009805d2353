-- ===== src/Dependency/Report/Collected.antt =====
-- The map `depVulnMap` of `scanFromCache`, and the dependencies with their vulnerabilities.
use Prim.Native.Nat.{Ordering}
use pci_dss_mcp.Common.{
  any-append, ◌≡◌, refl, ap, ◌∙◌, Bool, false, ◌||◌, List, [], ◌∷◌, ◌++◌, arith, Text, eq_text,
  eq_text_refl, eq_text_iff, any, All,
}
use pci_dss_mcp.Dependency.Report.Firsts.{Pair, pairs_with}
use pci_dss_mcp.Dependency.Osv.{Vulnerability, Dependency, Packages, lookup_cache}
use pci_dss_mcp.Dependency.Report.{DepVulnMap, vulns_of, with_vulns, collect_loop}

-- No two dependencies have the same path.
abbrev pub Distinct : List Dependency → Type 0
Distinct [] = Unit
Distinct (dep ∷ deps) =
    All (λ (d : Dependency). eq_text dep.path d.path ≡ false) deps × Distinct deps

with_vulns-vulns_of :
    (path : Text) (vulns : List Vulnerability) (m : DepVulnMap)
    → vulns_of m path ≡ []
    → vulns_of (with_vulns path vulns m) path ≡ vulns
unfolding vulns_of
with_vulns-vulns_of path [] m h = h
with_vulns-vulns_of path (v ∷ vulns) m h = rw (eq_text_refl path) refl

with_vulns-other :
    (path other : Text) (vulns : List Vulnerability) (m : DepVulnMap)
    → eq_text path other ≡ false
    → vulns_of (with_vulns path vulns m) other ≡ vulns_of m other
unfolding vulns_of
with_vulns-other path other [] m e = refl
with_vulns-other path other (v ∷ vulns) m e = rw e refl

abbrev pub Empties : DepVulnMap → List Dependency → Type 0
Empties m deps = All (λ (d : Dependency). vulns_of m d.path ≡ []) deps

with_vulns-Empties :
    (path : Text) (vulns : List Vulnerability) (m : DepVulnMap) (deps : List Dependency)
    → All (λ (d : Dependency). eq_text path d.path ≡ false) deps
    → Empties m deps
    → Empties (with_vulns path vulns m) deps
with_vulns-Empties path vulns m [] h k = tt
with_vulns-Empties path vulns m (d ∷ deps) (e, h) (k, ks) =
    (with_vulns-other path d.path vulns m e ∙ k, with_vulns-Empties path vulns m deps h ks)

module _ (compare : Text → Text → Ordering) where
  -- The dependencies with the vulnerabilities that the cache has of each.
  unfoldable pub pairs_of : Packages compare → List Dependency → List Pair
  unfolding lookup_cache
  pairs_of packages [] = []
  pairs_of packages (dep ∷ deps) =
      pairs_with dep (lookup_cache compare packages dep) ++ pairs_of packages deps

  abbrev pub IsLookedUp : Packages compare → DepVulnMap → Dependency → Type 0
  IsLookedUp packages m dep = vulns_of m dep.path ≡ lookup_cache compare packages dep

  collect_loop-other :
      (packages : Packages compare) (deps : List Dependency) (all_vulns : List Vulnerability)
      (m : DepVulnMap) (path : Text)
      → All (λ (d : Dependency). eq_text path d.path ≡ false) deps
      → vulns_of (collect_loop compare packages deps all_vulns m).1 path ≡ vulns_of m path
  unfolding collect_loop
  collect_loop-other packages [] all_vulns m path h = refl
  collect_loop-other packages (dep ∷ deps) all_vulns m path (e, h) =
      collect_loop-other packages deps _ _ path h
      ∙ with_vulns-other dep.path path (lookup_cache compare packages dep) m (apart e)
    where
      apart : eq_text path dep.path ≡ false → eq_text dep.path path ≡ false
      apart e = ground (arith, eq_text_iff path dep.path, eq_text_iff dep.path path, e)

  pub collect_loop-IsLookedUp :
      (packages : Packages compare) (deps : List Dependency) (all_vulns : List Vulnerability)
      (m : DepVulnMap)
      → Distinct deps
      → Empties m deps
      → All (IsLookedUp packages (collect_loop compare packages deps all_vulns m).1) deps
  unfolding collect_loop
  collect_loop-IsLookedUp packages [] all_vulns m h k = tt
  collect_loop-IsLookedUp packages (dep ∷ deps) all_vulns m (apart, h) (k, ks) = (
    collect_loop-other packages deps _ _ dep.path apart
        ∙ with_vulns-vulns_of dep.path (lookup_cache compare packages dep) m k,
    collect_loop-IsLookedUp packages deps _ _ h
        (with_vulns-Empties dep.path (lookup_cache compare packages dep) m deps apart ks),
  )

  pub collect_loop-pairs_of :
      (packages : Packages compare) (deps : List Dependency) (all_vulns : List Vulnerability)
      (m : DepVulnMap) (p : Vulnerability → Bool)
      → any p (collect_loop compare packages deps all_vulns m).0
        ≡ (any p all_vulns || any (λ q. p q.1) (pairs_of packages deps))
  unfolding collect_loop pairs_of
  collect_loop-pairs_of packages [] all_vulns m p = ground arith
  collect_loop-pairs_of packages (dep ∷ deps) all_vulns m p = ground (
    arith,
    any-append p all_vulns (lookup_cache compare packages dep),
    any-append (λ (q : Pair). p q.1) (pairs_with dep (lookup_cache compare packages dep))
        (pairs_of packages deps),
    any-pairs_with (lookup_cache compare packages dep),
    collect_loop-pairs_of packages deps (all_vulns ++ lookup_cache compare packages dep)
        (with_vulns dep.path (lookup_cache compare packages dep) m) p,
  )
    where
      any-pairs_with :
          (vulns : List Vulnerability)
          → any (λ (q : Pair). p q.1) (pairs_with dep vulns) ≡ any p vulns
      any-pairs_with [] = refl
      any-pairs_with (v ∷ vulns) = ap (λ b. p v || b) (any-pairs_with vulns)
