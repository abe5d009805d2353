-- ===== src/Dependency/Report/Laws.antt =====
-- Theorems on `scanFromCache`: which vulnerabilities of the dependencies are reported.
use Prim.Native.Nat.{Ordering}
use pci_dss_mcp.Common.{Option, ℕ, List, [], Text, map}
use pci_dss_mcp.Dependency.Report.Firsts.{Pair, firsts}
use pci_dss_mcp.Dependency.Report.Collected.{pairs_of}
use pci_dss_mcp.Finding.{Finding}
use pci_dss_mcp.Dependency.Osv.{Vulnerability, Dependency, Packages, deduplicate_vulns}
use pci_dss_mcp.Dependency.Report.{collect_loop, vuln_finding}

module _ (cvss40 cvss31 cvss30 cvss20 : Text → Option ℕ) (deduped : List Vulnerability) where
  abbrev pub pair_finding : Pair → Finding
  pair_finding p = vuln_finding cvss40 cvss31 cvss30 cvss20 deduped p.0 p.1

-- The identifiers that are left of those of all dependencies without duplicates.
abbrev pub merged :
    (compare : Text → Text → Ordering) → Packages compare → List Dependency → List Vulnerability
merged compare packages deps = deduplicate_vulns (collect_loop compare packages deps [] []).0

abbrev pub kept_ids :
    (compare : Text → Text → Ordering) → Packages compare → List Dependency → List Text
kept_ids compare packages deps =
    map (λ (v : Vulnerability). v.id)
      (deduplicate_vulns (collect_loop compare packages deps [] []).0)

abbrev pub reported :
    (compare : Text → Text → Ordering) → Packages compare → List Dependency → List Pair
reported compare packages deps =
    firsts (kept_ids compare packages deps) [] (pairs_of compare packages deps)
