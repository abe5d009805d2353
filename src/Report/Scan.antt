-- ===== src/Report/Scan.antt =====
-- `runAllScanners`, `runSingleScanner` and `applyPackageExclusions` of
-- scanner/reportscanner/report.go: the findings and, in step with them, the names of their scanners.
pub mod Laws
pub mod InStep
use pci_dss_mcp.Common.{
  ℕ, ◌+◌, Bool, true, false, not, Option, none, some, List, [], ◌∷◌, ◌++◌, map, Text, codes,
  eq_text, if◌then◌else◌, any,
}
use pci_dss_mcp.GoStrings.{quote, itoa}
use pci_dss_mcp.Finding.{Finding, ScanResult, Severity}
use pci_dss_mcp.Suppression.IgnoreFile.{
  ExcludePackageRule, FileRead, ParsedIgnoreFile, parse_ignore_file_full,
}
use pci_dss_mcp.Suppression.Pattern.{match_exclude_package}
use pci_dss_mcp.Suppression.Apply.{rel_path}
use pci_dss_mcp.Suppression.Packages.{ExcludedPackageReport, apply_package_exclusions}

-- What a scanner offers: `Scan`, and those of the four optional interfaces that it implements. The
-- path and the context are those of the run; `none` as a result is an error.
pub record Scanner : Type 0 where
  pub name : Text
  pub scan : Option ScanResult
  -- by includeTests and includeTaint
  pub scan_full_with_taint : Option (Bool → Bool → Option ScanResult)
  pub scan_with_package_context : Option (Bool → Option ScanResult)
  pub scan_full : Option (Bool → Option ScanResult)
  -- by the mode
  pub scan_with_mode : Option (Text → Option ScanResult)
  pub requirements : List Text

abbrev or_mode : Option (Text → Option ScanResult) → Text → Option ScanResult → Option ScanResult
or_mode none mode plain = plain
or_mode (some run) mode plain = if eq_text mode [] then plain else run mode

abbrev or_full : Option (Bool → Option ScanResult) → Bool → Option ScanResult → Option ScanResult
or_full none include_tests other = other
or_full (some run) include_tests other = run include_tests

abbrev or_taint :
    Option (Bool → Bool → Option ScanResult) → Bool → Option ScanResult → Option ScanResult
or_taint none include_tests other = other
or_taint (some run) include_tests other = run include_tests true

unfoldable pub run_single_scanner : Scanner → Text → Bool → Bool → Option ScanResult
unfolding eq_text
run_single_scanner s dep_scan_mode include_tests include_taint =
    let narrow =
      or_full s.scan_with_package_context include_tests
        (or_full s.scan_full include_tests (or_mode s.scan_with_mode dep_scan_mode s.scan)) in
    if include_taint then or_taint s.scan_full_with_taint include_tests narrow else narrow

pub record Collected : Type 0 where
  pub findings : List Finding
  pub scanner_names : List Text
  pub total_files : ℕ
  pub total_lines : ℕ

repeat_name : Text → List Finding → List Text
repeat_name name [] = []
repeat_name name (_ ∷ fs) = name ∷ repeat_name name fs

-- A scanner that fails is logged and left out.
collect : Text → Option ScanResult → Collected → Collected
unfolding repeat_name
collect name none c = c
collect name (some result) c = record {
  findings = c.findings ++ result.findings;
  scanner_names = c.scanner_names ++ repeat_name name result.findings;
  total_files = c.total_files + result.metadata.scanned_files;
  total_lines = c.total_lines + result.metadata.scanned_lines;
}

pub run_from : List Scanner → Text → Bool → Bool → Collected → Collected
unfolding collect run_single_scanner
run_from [] mode tests taint c = c
run_from (s ∷ scanners) mode tests taint c =
    run_from scanners mode tests taint (collect s.name (run_single_scanner s mode tests taint) c)

unfoldable pub run_all_scanners : List Scanner → Text → Bool → Bool → Collected
unfolding run_from
run_all_scanners scanners mode tests taint =
    run_from scanners mode tests taint
      (record { findings = []; scanner_names = []; total_files = 0; total_lines = 0 })

unfoldable pub is_excluded : List ExcludePackageRule → Text → Bool
is_excluded rules path = any (λ r. match_exclude_package r.pattern' path) rules

-- The walk over the findings beside the names; it stops taking names where they run out.
names_kept : List ExcludePackageRule → Text → List Finding → List Text → List Text
names_kept rules root [] names = []
names_kept rules root (f ∷ fs) [] = []
names_kept rules root (f ∷ fs) (n ∷ names) =
    let rest = names_kept rules root fs names in
    if is_excluded rules (rel_path root f.file_path) then rest else n ∷ rest

unfoldable pub apply_package_exclusions_parallel :
    List Finding
    → List Text
    → Text
    → List ExcludePackageRule
    → List Finding × List Text × List ExcludedPackageReport
unfolding names_kept apply_package_exclusions
apply_package_exclusions_parallel [] names root rules = ([], names, [])
apply_package_exclusions_parallel (f ∷ fs) names root [] = (f ∷ fs, names, [])
apply_package_exclusions_parallel (f ∷ fs) names root (r ∷ rules) =
    let (filtered, reports) = apply_package_exclusions (f ∷ fs) root (r ∷ rules) in
    (filtered, names_kept (r ∷ rules) root (f ∷ fs) names, reports)

-- `%q` of a pattern of printable characters with no quote and no backslash.
-- The INFO finding that records an exclusion, for a pattern of ASCII bytes.
package_finding : ExcludedPackageReport → Finding
package_finding rpt = record {
  rule_id = codes "SUPPRESSED-PACKAGE";
  severity = Severity.info;
  requirement_id = codes "n/a";
  file_path = rpt.pattern';
  line = rpt.source_line;
  column = 0;
  description =
      codes "Package pattern "
      ++ (quote rpt.pattern'
          ++ (codes " excluded by .pci-dss-mcp-ignore (dropped "
              ++ (itoa rpt.match_count ++ codes " findings).")));
  suggestion =
      codes "Verify exclusion is scoped correctly and does not hide in-scope payment code.";
  related_requirements = [];
  confidence = [];
  dev_context = false;
  code_snippet = none;
  triage_hint = [];
  fix_hint = [];
  middleware_detected = false;
  sql_pattern_matched = false;
}

package_names : List ExcludedPackageReport → List Text
package_names [] = []
package_names (_ ∷ reports) = codes "suppression" ∷ package_names reports

abbrev excluded_with :
    List Finding → List Text → Text → List ExcludePackageRule → List Finding × List Text
excluded_with findings names root [] = (findings, names)
excluded_with findings names root (r ∷ rules) =
    let (filtered, kept, reports) =
      apply_package_exclusions_parallel findings names root (r ∷ rules) in
    (filtered ++ map package_finding reports, kept ++ package_names reports)

abbrev packages_of : Option (Option ParsedIgnoreFile) → List ExcludePackageRule
packages_of none = []
packages_of (some none) = []
packages_of (some (some p)) = p.exclude_packages

-- The method of the generator: a file that is missing, unreadable or without exclusions changes
-- nothing.
unfoldable pub exclude_packages :
    FileRead → List Finding → List Text → Text → List Finding × List Text
unfolding package_finding package_names apply_package_exclusions_parallel
exclude_packages ignore_file findings names root =
    excluded_with findings names root (packages_of (parse_ignore_file_full ignore_file))
