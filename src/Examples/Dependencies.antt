-- ===== src/Examples/Dependencies.antt =====
-- The vulnerability scanner at concrete inputs.
use Prim.Native.Nat.{Ordering, compare}
use pci_dss_mcp.Common.{
  false, ◌+◌, ◌≡◌, refl, true, none, some, List, [], ◌∷◌, map, Option, ℕ, arith, Text, codes,
  eq_text, length, any,
}
use pci_dss_mcp.GoStrings.{atoi, has_prefix}
use pci_dss_mcp.Dependency.Osv.{
  Vulnerability, Dependency, Packages, normalize_version, is_affected, deduplicate_vulns,
}
use pci_dss_mcp.Dependency.Osv.Ranges.{
  Interval, is_inside, IsTransitive, Rising, is_affected_lem, semver,
}
use pci_dss_mcp.Dependency.Osv.Duplicates.{mentions, deduplicate_vulns_lem}
use pci_dss_mcp.Dependency.CacheFile.{
  DirEntry, latest_cache_file, World, modified, refresh_failed, cache_stale_ttl, ensure_cache_fresh,
}
use pci_dss_mcp.Finding.{Finding}
use pci_dss_mcp.Dependency.Report.{package_findings}
use pci_dss_mcp.Dependency.CacheFile.Laws.{
  LatestContract, latest_cache_file_lem, CacheContract, ensure_cache_fresh_lem,
}

-- Versions that are ordered by their length.
abbrev by_length : Text → Text → Ordering
by_length a b = compare (length a) (length b)

by_length-IsTransitive : IsTransitive by_length
by_length-IsTransitive a b c h k = ground arith

abbrev two_intervals : List Interval
two_intervals =
    record { from = codes "v"; until = some (codes "v1") }
    ∷ record { from = codes "v11"; until = some (codes "v111") }
    ∷ []

two_intervals-Rising : Rising by_length two_intervals
unfolding normalize_version has_prefix
two_intervals-Rising = (((λ h. cc), (λ h. cc)), refl, ((λ h. cc), (λ h. cc)))

is_affected_lem_example :
    is_affected by_length (codes "v12") (map semver (two_intervals ∷ []))
    ≡ any (any (is_inside by_length (codes "v12"))) (two_intervals ∷ [])
is_affected_lem_example =
    is_affected_lem by_length by_length-IsTransitive (codes "v12") (two_intervals ∷ [])
      (two_intervals-Rising, tt)

abbrev vulnerability : ℕ → Text → List Text → Vulnerability
vulnerability place i others = record {
  address = place;
  id = i;
  summary = [];
  aliases = others;
  severity_data = [];
  database_severity = [];
  affected = [];
}

abbrev two_aliases : List Vulnerability
two_aliases =
    vulnerability 0 (codes "GO-1") (codes "CVE-1" ∷ [])
    ∷ vulnerability 1 (codes "GHSA-1") (codes "CVE-1" ∷ [])
    ∷ []

deduplicate_vulns_lem_example :
    any (mentions (codes "GO-1")) (deduplicate_vulns two_aliases)
    ≡ any (mentions (codes "GO-1")) two_aliases
deduplicate_vulns_lem_example = deduplicate_vulns_lem two_aliases (codes "GO-1")

abbrev stale_world : World
stale_world = record {
  cache_dir = codes "/cache";
  writable = true;
  canonical_age = some (cache_stale_ttl + 1);
  legacy_age = none;
  conditional = modified;
  refresh = refresh_failed;
  present_after = true;
  writable_after = true;
}

ensure_cache_fresh_lem_example : CacheContract stale_world (ensure_cache_fresh stale_world)
ensure_cache_fresh_lem_example = ensure_cache_fresh_lem stale_world

abbrev versioned : ℕ → Text → Text → Vulnerability
versioned place i name = record {
  address = place;
  id = i;
  summary = codes "Overflow";
  aliases = [];
  severity_data = [];
  database_severity = codes "HIGH";
  affected =
      record {
        package_name = name;
        ecosystem = codes "Go";
        ranges =
            record {
              range_type = codes "SEMVER";
              events =
                  record { introduced = codes "0"; fixed = []; last_affected = [] }
                  ∷ record { introduced = []; fixed = codes "2.0"; last_affected = [] }
                  ∷ [];
            }
            ∷ [];
        versions = [];
      }
      ∷ [];
}

abbrev two_packages : Packages by_length
two_packages =
    (codes "a", versioned 0 (codes "GO-1") (codes "a") ∷ [])
    ∷ (codes "b/c", versioned 1 (codes "GO-1") (codes "b/c") ∷ [])
    ∷ []

abbrev two_deps : List Dependency
two_deps =
    record { path = codes "a"; version = codes "v1"; line = 4 }
    ∷ record { path = codes "b"; version = codes "v1"; line = 5 }
    ∷ []

abbrev no_score : Text → Option ℕ
no_score vector = none

-- An entry that affects two dependencies is reported for the first one.
one_finding_test :
    map
      (λ (f : Finding). f.line)
      (package_findings by_length no_score no_score no_score no_score two_packages two_deps)
    ≡ 4 ∷ []
unfolding package_findings normalize_version has_prefix is_affected eq_text
one_finding_test = refl

abbrev two_entries : List DirEntry
two_entries =
    record { name = codes "go-osv-7.json"; is_dir = false; path = codes "/c/go-osv-7.json" }
    ∷ record { name = codes "go-osv-12.json"; is_dir = false; path = codes "/c/go-osv-12.json" }
    ∷ []

latest_cache_file_lem_example : LatestContract atoi two_entries (latest_cache_file atoi two_entries)
latest_cache_file_lem_example = latest_cache_file_lem atoi two_entries
