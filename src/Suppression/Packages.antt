-- ===== src/Suppression/Packages.antt =====
-- `ApplyPackageExclusions` of scanner/suppression/suppression.go.
pub mod Counts
pub mod Laws
use pci_dss_mcp.Common.{
  ℕ, ◌+◌, Option, none, some, List, [], ◌∷◌, ◌++◌, Text, eq_text, ltb, if◌then◌else◌,
}
use pci_dss_mcp.Finding.{Finding}
use pci_dss_mcp.Suppression.IgnoreFile.{ExcludePackageRule}
use pci_dss_mcp.Suppression.Pattern.{match_pattern}
use pci_dss_mcp.Suppression.Apply.{rel_path}

pub record ExcludedPackageReport : Type 0 where
  pub pattern' : Text
  pub match_count : ℕ
  pub source_line : ℕ

-- The two maps are read by key only; an absent key reads as 0.
abbrev pub Counter : Type 0
Counter = Text → ℕ

abbrev put : Text → ℕ → Counter → Counter
put k v m = λ j. if eq_text k j then v else m j

source_lines : List ExcludePackageRule → Counter → Counter
source_lines [] m = m
source_lines (r ∷ rules) m = source_lines rules (put r.pattern' r.source_line m)

-- The pattern of the first rule that matches.
unfoldable pub excluded_by : List ExcludePackageRule → Text → Option Text
excluded_by [] path = none
excluded_by (r ∷ rules) path =
    let later = excluded_by rules path in
    if match_pattern r.pattern' path then some r.pattern' else later

abbrev note : Option Text → Finding → List Finding × Counter → List Finding × Counter
note none f (filtered, counts) = (filtered ++ f ∷ [], counts)
note (some p) f (filtered, counts) = (filtered, put p (counts p + 1) counts)

pub exclude_all :
    List ExcludePackageRule → Text → List Finding → List Finding × Counter → List Finding × Counter
exclude_all rules project_root [] st = st
exclude_all rules project_root (f ∷ findings) st =
    exclude_all rules project_root findings
      (note (excluded_by rules (rel_path project_root f.file_path)) f st)

pub package_reports : List ExcludePackageRule → Counter → Counter → List ExcludedPackageReport
package_reports [] counts sources = []
package_reports (r ∷ rules) counts sources =
    let rest = package_reports rules counts sources in
    if ltb 0 (counts r.pattern')
    then record {
      pattern' = r.pattern';
      match_count = counts r.pattern';
      source_line = sources r.pattern';
    }
      ∷ rest
    else rest

unfoldable pub apply_package_exclusions :
    List Finding → Text → List ExcludePackageRule → List Finding × List ExcludedPackageReport
unfolding exclude_all package_reports source_lines
apply_package_exclusions [] project_root rules = ([], [])
apply_package_exclusions (f ∷ findings) project_root [] = (f ∷ findings, [])
apply_package_exclusions (f ∷ findings) project_root (r ∷ rules) =
    let (filtered, counts) = exclude_all (r ∷ rules) project_root (f ∷ findings) ([], λ _. 0) in
    (filtered, package_reports (r ∷ rules) counts (source_lines (r ∷ rules) (λ _. 0)))
