-- ===== src/Report/Scan/InStep.antt =====
-- Theorems on the number of scanner names from `runAllScanners` to `buildReportFindings`.
use pci_dss_mcp.Common.{
  suc, ◌≡◌, refl, ap, inl, inr, Bool, List, [], ◌∷◌, map, arith, Text, Bool-cases, length,
  filter_by, length-append, All,
}
use pci_dss_mcp.Finding.{Finding}
use pci_dss_mcp.Suppression.IgnoreFile.{
  ExcludePackageRule, FileRead, missing, failed, read, parse_ignore_file_full,
}
use pci_dss_mcp.Suppression.IgnoreFile.Laws.{HasPattern, parse_ignore_file_full-AuditTrail}
use pci_dss_mcp.Suppression.Packages.{ExcludedPackageReport, apply_package_exclusions}
use pci_dss_mcp.Suppression.Packages.Counts.{is_kept, apply_package_exclusions-filtered}
use pci_dss_mcp.Report.Scan.{
  Scanner, run_all_scanners, names_kept, apply_package_exclusions_parallel, package_finding,
  package_names, excluded_with, exclude_packages, packages_of,
}
use pci_dss_mcp.Report.Scan.Laws.{is_excluded-is_kept, run_from-InStep}

length-names_kept :
    (rules : List ExcludePackageRule) (root : Text) (fs : List Finding) (names : List Text)
    → All HasPattern rules
    → length fs ≡ length names
    → length (names_kept rules root fs names) ≡ length (filter_by (is_kept rules root) fs)
unfolding names_kept
length-names_kept rules root [] names h e = refl
length-names_kept rules root (f ∷ fs) [] h e = absurd (omega arith)
length-names_kept rules root (f ∷ fs) (n ∷ names) h e =
    let ih = length-names_kept rules root fs names h (omega arith) in
    rw (is_excluded-is_kept rules root f h)
      (elim (Bool-cases (is_kept rules root f)) [ inl k ↦ rw k (ap suc ih) | inr k ↦ rw k ih ])

length-package_names :
    (reports : List ExcludedPackageReport)
    → length (map package_finding reports) ≡ length (package_names reports)
unfolding package_names
length-package_names [] = refl
length-package_names (r ∷ reports) = ap suc (length-package_names reports)

excluded_with-length :
    (findings : List Finding) (names : List Text) (root : Text) (rules : List ExcludePackageRule)
    → All HasPattern rules
    → length findings ≡ length names
    → length (excluded_with findings names root rules).0
      ≡ length (excluded_with findings names root rules).1
unfolding apply_package_exclusions_parallel package_names
excluded_with-length findings names root [] h e = e
excluded_with-length [] names root (r ∷ rules) h e = omega (arith, e, length-append names [])
excluded_with-length (f ∷ fs) names root (r ∷ rules) h e =
    let flt : List Finding = (apply_package_exclusions (f ∷ fs) root (r ∷ rules)).0 in
    let rpt : List ExcludedPackageReport = (apply_package_exclusions (f ∷ fs) root (r ∷ rules)).1 in
    let kept : List Text = names_kept (r ∷ rules) root (f ∷ fs) names in
    omega (
      arith,
      length-append flt (map package_finding rpt),
      length-append kept (package_names rpt),
      length-package_names rpt,
      length-names_kept (r ∷ rules) root (f ∷ fs) names h e,
      ap length (apply_package_exclusions-filtered (f ∷ fs) root (r ∷ rules)),
    )

packages_of-HasPattern :
    (file : FileRead) → All HasPattern (packages_of (parse_ignore_file_full file))
unfolding parse_ignore_file_full
packages_of-HasPattern missing = tt
packages_of-HasPattern failed = tt
packages_of-HasPattern (read lines) = (parse_ignore_file_full-AuditTrail lines _ refl).2

-- Whatever the scanners return and the ignore file says, there are as many scanner names as findings.
pub exclude_packages-length :
    (scanners : List Scanner) (mode : Text) (tests taint : Bool) (file : FileRead) (root : Text)
    → length
        (exclude_packages file
          (run_all_scanners scanners mode tests taint).findings
          (run_all_scanners scanners mode tests taint).scanner_names
          root).0
      ≡ length
          (exclude_packages file
            (run_all_scanners scanners mode tests taint).findings
            (run_all_scanners scanners mode tests taint).scanner_names
            root).1
unfolding exclude_packages run_all_scanners
exclude_packages-length scanners mode tests taint file root =
    excluded_with-length _ _ root (packages_of (parse_ignore_file_full file))
      (packages_of-HasPattern file) (run_from-InStep scanners mode tests taint _ refl)
