-- ===== src/Dependency/Report.antt =====
-- scanner/depscanner/depscanner.go: the findings of a scan of the dependencies.
pub mod Entry
pub mod Firsts
pub mod Collected
pub mod Laws
use Prim.Native.Nat.{Ordering}
use pci_dss_mcp.Common.{
  ℕ, Bool, ◌&&◌, not, Option, none, some, List, [], ◌∷◌, ◌++◌, map, Text, codes, eq_text, ◌==◌,
  if◌then◌else◌, any, filter_by,
}
use pci_dss_mcp.GoStrings.{is_empty}
use pci_dss_mcp.Finding.{Finding, ScanResult}
use pci_dss_mcp.Dependency.Osv.{
  Vulnerability, Dependency, Packages, lookup_cache, deduplicate_vulns,
}
use pci_dss_mcp.Dependency.CacheFile.{CacheState, World, ensure_cache_fresh}
use pci_dss_mcp.Dependency.Report.Entry.{
  build_finding, extract_fix_version, no_dir_finding, cold_finding, stale_finding,
}

-- `depVulnMap`; a later entry of a path stands in front.
abbrev pub DepVulnMap : Type 0
DepVulnMap = List (Text × List Vulnerability)

unfoldable pub vulns_of : DepVulnMap → Text → List Vulnerability
vulns_of [] path = []
vulns_of ((p, vulns) ∷ m) path =
    let rest = vulns_of m path in if eq_text p path then vulns else rest

abbrev pub with_vulns : Text → List Vulnerability → DepVulnMap → DepVulnMap
with_vulns path [] m = m
with_vulns path (v ∷ vulns) m = (path, v ∷ vulns) ∷ m

abbrev pub is_listed : List Text → Vulnerability → Bool
is_listed set vuln = any (λ id. eq_text id vuln.id) set

-- `delete(dedupedSet, vuln.ID)`.
abbrev pub delete_id : Text → List Text → List Text
delete_id id set = filter_by (λ j. not (eq_text j id)) set

-- The errors of a scan, or its result.
pub data Scan : Type 0 where
  invalid_mode parse_failed no_cache load_failed : Scan
  scanned : ScanResult → Scan

abbrev pub scanned_with : List Finding → Scan
scanned_with fs = scanned record {
  findings = fs;
  metadata = record { scanned_files = 0; scanned_lines = 0; duration_ms = 0 };
}

abbrev pub timed : ℕ → Scan → Scan
timed ms (scanned r) = scanned record {
  findings = r.findings;
  metadata = record {
    scanned_files = 1;
    scanned_lines = r.metadata.scanned_lines;
    duration_ms = ms;
  };
}
timed ms invalid_mode = invalid_mode
timed ms parse_failed = parse_failed
timed ms no_cache = no_cache
timed ms load_failed = load_failed

-- What `modfile.ParseLax` gives for a requirement; its syntax may be missing.
pub record Require : Type 0 where
  pub mod_path : Text
  pub mod_version : Text
  pub indirect : Bool
  pub syntax_line : Option ℕ

abbrev pub or_zero : Option ℕ → ℕ
or_zero none = 0
or_zero (some line) = line

unfoldable pub direct_deps : List Require → List Dependency
direct_deps [] = []
direct_deps (r ∷ requires) =
    let rest = direct_deps requires in
    if r.indirect
    then rest
    else record { path = r.mod_path; version = r.mod_version; line = or_zero r.syntax_line } ∷ rest

-- `none` is an error of `filepath.Abs`, of reading go.mod or of parsing it.
unfoldable pub parse_go_mod : Option (List Require) → Option (List Dependency)
unfolding direct_deps
parse_go_mod none = none
parse_go_mod (some requires) = some (direct_deps requires)

-- `semver.Compare`; the packages of the cache are in the order of one range over the map.
module _ (compare : Text → Text → Ordering) where
  unfoldable pub collect_loop :
      Packages compare
      → List Dependency
      → List Vulnerability
      → DepVulnMap
      → List Vulnerability × DepVulnMap
  unfolding lookup_cache
  collect_loop packages [] all_vulns m = (all_vulns, m)
  collect_loop packages (dep ∷ deps) all_vulns m =
      collect_loop packages deps (all_vulns ++ lookup_cache compare packages dep)
        (with_vulns dep.path (lookup_cache compare packages dep) m)

  -- The answers of the file system and the network: whether the canonical file is there, the file of
  -- `latestCacheFile`, `loadCache` of the file that is located, and `loadCache` of the canonical
  -- file after `refreshCache`, which may fail itself.
  pub record CacheAnswers : Type 0 where
    pub canonical_present : Bool
    pub latest : Option (Text × ℕ)
    pub loaded : Text → Option (Packages compare)
    pub refreshed : Option (Option (Packages compare))

  abbrev pub or_refreshed :
      Option (Packages compare) → Option (Option (Packages compare)) → Option (Packages compare)
  or_refreshed (some packages) answer = some packages
  or_refreshed none (some answer) = answer
  or_refreshed none none = none

  unfoldable pub locate_cache_file : Text → CacheAnswers → Option Text
  locate_cache_file canonical w = if w.canonical_present then some canonical else path_of w.latest
    where
      path_of : Option (Text × ℕ) → Option Text
      path_of none = none
      path_of (some (path, date)) = some path

-- What stands behind a pointer of `depVulnMap` after `deduplicateVulns`, which has replaced the aliases
-- of the entries that it returns. The groups are merged from the entries as they were: an entry that two
-- dependencies share and that chains of aliases put in two groups would be read as the first leaves it.
unfoldable pub current : List Vulnerability → Vulnerability → Vulnerability
current [] vuln = vuln
current (d ∷ deduped) vuln =
    let rest = current deduped vuln in
    if d.address == vuln.address then record vuln { aliases = d.aliases } else rest

-- The CVSS packages, and what `deduplicateVulns` has returned.
module _ (cvss40 cvss31 cvss30 cvss20 : Text → Option ℕ) (deduped : List Vulnerability) where
  abbrev pub vuln_finding : Dependency → Vulnerability → Finding
  vuln_finding dep vuln =
      build_finding cvss40 cvss31 cvss30 cvss20 dep (current deduped vuln)
        (extract_fix_version vuln dep.path)

  -- The findings of a dependency, and the set that is left.
  unfoldable pub report_vulns :
      Dependency → List Text → List Vulnerability → List Finding × List Text
  unfolding build_finding extract_fix_version current
  report_vulns dep set [] = ([], set)
  report_vulns dep set (vuln ∷ vulns) =
      let rest =
        report_vulns dep (if is_listed set vuln then delete_id vuln.id set else set) vulns in
      if is_listed set vuln then (vuln_finding dep vuln ∷ rest.0, rest.1) else rest

  unfoldable pub report_deps : DepVulnMap → List Text → List Dependency → List Finding
  unfolding vulns_of report_vulns
  report_deps m set [] = []
  report_deps m set (dep ∷ deps) =
      let first = report_vulns dep set (vulns_of m dep.path) in
      first.0 ++ report_deps m first.1 deps

module _ (compare : Text → Text → Ordering) (cvss40 cvss31 cvss30 cvss20 : Text → Option ℕ) where
  unfoldable pub package_findings : Packages compare → List Dependency → List Finding
  unfolding collect_loop report_deps deduplicate_vulns
  package_findings packages deps =
      let collected = collect_loop compare packages deps [] [] in
      let deduped = deduplicate_vulns collected.0 in
      report_deps cvss40 cvss31 cvss30 cvss20 deduped collected.1
        (map (λ (v : Vulnerability). v.id) deduped) deps

  abbrev pub scan_packages : CacheState → List Dependency → Option (Packages compare) → Scan
  scan_packages state deps none = load_failed
  scan_packages state deps (some packages) = scanned_with (
      package_findings packages deps
      ++ (if state.stale_fallback then stale_finding state.cache_age ∷ [] else []))

  abbrev pub scan_located : CacheState → List Dependency → CacheAnswers compare → Option Text → Scan
  scan_located state deps w none = no_cache
  scan_located state deps w (some path) =
      scan_packages state deps (or_refreshed compare (w.loaded path) w.refreshed)

  unfoldable pub scan_from_cache : Text → CacheState → List Dependency → CacheAnswers compare → Scan
  unfolding package_findings locate_cache_file stale_finding
  scan_from_cache canonical state deps w =
      if state.no_writable_dir
      then scanned_with (no_dir_finding ∷ [])
      else if state.cold_cache
      then scanned_with (cold_finding ∷ [])
      else scan_located state deps w (locate_cache_file compare canonical w)

  abbrev pub scan_parsed : Text → World → CacheAnswers compare → Option (List Dependency) → Scan
  scan_parsed canonical world w none = parse_failed
  scan_parsed canonical world w (some deps) =
      scan_from_cache canonical (ensure_cache_fresh world).0 deps w

  -- The cache directory of the world is empty where `resolveCachePath` fails.
  unfoldable pub scan_with_mode :
      Text → Option (List Require) → Text → World → CacheAnswers compare → ℕ → Scan
  unfolding parse_go_mod scan_from_cache ensure_cache_fresh
  scan_with_mode mode requires canonical world w ms =
      if not (is_empty mode) && not (eq_text mode (codes "auto"))
      then invalid_mode
      else timed ms (scan_parsed canonical world w (parse_go_mod requires))
