-- ===== src/Examples/Suppressions.antt =====
-- Suppression.
use pci_dss_mcp.Common.{
  ◌+◌, ◌≡◌, refl, ◌||◌, not, some, [], ◌∷◌, map, arith, Text, codes, eq_text, is_some, length, any,
  filter_by,
}
use pci_dss_mcp.GoStrings.{has_prefix, is_empty}
use pci_dss_mcp.Suppression.IgnoreFile.{ParsedIgnoreFile, parse_ignore_file, parse_ignore_file_full}
use pci_dss_mcp.Suppression.IgnoreFile.Laws.{AuditTrail, parse_ignore_file_full-AuditTrail}
use pci_dss_mcp.Suppression.Pattern.{matches_rule, split_double_star}
use pci_dss_mcp.Suppression.Pattern.Laws.{behind_prefix, LacksFinalSlash}
use pci_dss_mcp.Suppression.Apply.{apply_suppression, rel_path, or_no_rules}
use pci_dss_mcp.Suppression.Apply.Laws.{
  suppress_one, comment_at, apply_suppression_lem, map-suppressed,
}
use pci_dss_mcp.Suppression.Packages.{apply_package_exclusions}
use pci_dss_mcp.Suppression.Packages.Counts.{is_kept, reported}
use pci_dss_mcp.Suppression.Packages.Laws.{is_excluded, reports_of, apply_package_exclusions-total}
use pci_dss_mcp.Report.Scan.{apply_package_exclusions_parallel}
use pci_dss_mcp.Report.Scan.Laws.{paired, apply_package_exclusions_parallel_lem}
use pci_dss_mcp.Examples.Data.{
  two_findings, project, ignore_file, ignore_lines, vendor_rule, two_names,
}

map-suppressed_example :
    map (λ r. r.suppressed) (apply_suppression project ignore_file two_findings (codes "/r"))
    ≡ map
        (λ f.
          any
            (λ r. matches_rule r (rel_path (codes "/r") f.file_path) f.line)
            (or_no_rules (parse_ignore_file ignore_file))
          || is_some (comment_at project f.file_path f.line))
        two_findings
map-suppressed_example = map-suppressed project ignore_file two_findings (codes "/r")

apply_suppression_lem_example :
    apply_suppression project ignore_file two_findings (codes "/r")
    ≡ map
        (suppress_one project (or_no_rules (parse_ignore_file ignore_file)) (codes "/r"))
        two_findings
apply_suppression_lem_example = apply_suppression_lem project ignore_file two_findings (codes "/r")

apply_package_exclusions_parallel_lem_example :
    paired
      (apply_package_exclusions_parallel two_findings two_names (codes "/r") (vendor_rule ∷ [])).0
      (apply_package_exclusions_parallel two_findings two_names (codes "/r") (vendor_rule ∷ [])).1
    ≡ filter_by (λ e. is_kept (vendor_rule ∷ []) (codes "/r") e.0) (paired two_findings two_names)
apply_package_exclusions_parallel_lem_example =
    apply_package_exclusions_parallel_lem two_findings two_names (codes "/r") (vendor_rule ∷ [])
      (refl, tt) refl

apply_package_exclusions-total_example :
    ((apply_package_exclusions two_findings (codes "/r") (vendor_rule ∷ [])).0
      ≡ filter_by (λ f. not (is_excluded (vendor_rule ∷ []) (codes "/r") f)) two_findings)
    × ((apply_package_exclusions two_findings (codes "/r") (vendor_rule ∷ [])).1
        ≡ reports_of (vendor_rule ∷ []) (codes "/r") two_findings (vendor_rule ∷ []))
    × (reported (apply_package_exclusions two_findings (codes "/r") (vendor_rule ∷ [])).1
          + length (apply_package_exclusions two_findings (codes "/r") (vendor_rule ∷ [])).0
        ≡ 2)
apply_package_exclusions-total_example =
    apply_package_exclusions-total two_findings (codes "/r") (vendor_rule ∷ []) (tt, tt)

abbrev parsed : ParsedIgnoreFile
parsed = record {
  rules = record { pattern' = codes "b.go"; line = 1; source_line = 2 } ∷ [];
  exclude_packages = record { pattern' = codes "vendor/**"; source_line = 3 } ∷ [];
}

parsed_test : parse_ignore_file_full ignore_file ≡ some (some parsed)
unfolding parse_ignore_file_full pci_dss_mcp.GoStrings.cut_last eq_text pci_dss_mcp.GoStrings.atoi
parsed_test = refl

parse_ignore_file_full-AuditTrail_example : AuditTrail 3 parsed
parse_ignore_file_full-AuditTrail_example =
    parse_ignore_file_full-AuditTrail ignore_lines parsed parsed_test

abbrev nested : Text
nested = codes "vendor/a/x.go"

behind_test : LacksFinalSlash (behind_prefix (codes "vendor/**/x*") nested)
unfolding split_double_star
behind_test = λ h. omega (arith, h)
