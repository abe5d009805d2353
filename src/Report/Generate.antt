-- ===== src/Report/Generate.antt =====
-- `GenerateWithOptions` of scanner/reportscanner/report.go, the whole way from the scanners to the
-- report, with `buildScanSummary` and `addSBOMInventoryStatus` of sbom_inventory.go.
pub mod Laws
use pci_dss_mcp.Common.{
  ℕ, Bool, not, Option, none, some, List, [], ◌++◌, map, Text, codes, eq_text, ltb, ◌==◌,
  if◌then◌else◌, length, count_by,
}
use pci_dss_mcp.GoStrings.{itoa}
use pci_dss_mcp.Finding.{Finding, Severity, eq_severity}
use pci_dss_mcp.Suppression.IgnoreFile.{FileRead}
use pci_dss_mcp.Suppression.Apply.{SuppressionResult, apply_suppression}
use pci_dss_mcp.Report.Types.{
  Db, Status, RequirementStatus, ReportFinding, SuppressionEntry, NotCheckedEntry, FindingsByRule,
  ReportSummary,
}
use pci_dss_mcp.Report.Scan.{Scanner, Collected, run_all_scanners, exclude_packages}
use pci_dss_mcp.Report.Status.{
  StatusMap, put_status, get_status, build_requirement_status, classify_findings_by_requirement,
  collect_covered_requirements,
}
use pci_dss_mcp.Report.Status.CrossReference.{
  collect_related_requirement_map, propagate_cross_references,
}
use pci_dss_mcp.Report.Assemble.{
  build_report_findings, sort_findings, build_not_checked_entries, build_report_summary,
  group_findings_by_rule,
}

-- What `sbomscanner.InventoryProbe` answers.
pub data Probe : Type 0 where
  probe_error : Text → Probe
  inventory : (has_go_mod : Bool) (component_count : ℕ) → Probe

abbrev pub sbom_requirement_id : Text
sbom_requirement_id = codes "6.3.2"

abbrev or_inventory : Option RequirementStatus → RequirementStatus
or_inventory (some rs) = rs
or_inventory none = record {
  requirement_id = sbom_requirement_id;
  title = codes "Software Inventory Maintained";
  status = Status.not_checked;
  finding_count = 0;
  coverage_scope = [];
  limitations = [];
  not_covered = [];
  cross_reference = [];
}

unfoldable pub inventory_status : Probe → RequirementStatus → RequirementStatus
inventory_status (probe_error err) rs = record rs {
  status = Status.fail;
  cross_reference = codes "SBOM inventory unavailable: " ++ err;
}
inventory_status (inventory has_go_mod component_count) rs =
    if not has_go_mod
    then record rs {
      status = Status.fail;
      cross_reference = codes "go.mod missing; cannot generate CycloneDX inventory";
    }
    else if component_count == 0
    then record rs {
      status = Status.fail;
      cross_reference = codes "go.mod has no dependencies declared; inventory would be empty";
    }
    else record rs {
      status = Status.pass;
      finding_count = 0;
      cross_reference = codes "SBOM inventory: " ++ (itoa component_count ++ codes " components");
    }

unfoldable pub add_sbom_inventory_status : Probe → StatusMap → StatusMap
unfolding inventory_status
add_sbom_inventory_status probe m =
    put_status sbom_requirement_id
      (inventory_status probe (or_inventory (get_status sbom_requirement_id m))) m

-- The two maps are the counts that they hold, 0 for a missing key.
pub record ScanSummary : Type 0 where
  pub total_findings : ℕ
  pub by_severity : Severity → ℕ
  pub by_category : Text → ℕ
  pub scanned_files : ℕ
  pub ai_triage_hint : Text

unfoldable pub build_scan_summary : List ReportFinding → ℕ → ScanSummary
build_scan_summary findings total_files = record {
  total_findings = length findings;
  by_severity = λ s. count_by (λ f. eq_severity f.finding.severity s) findings;
  by_category = λ name. count_by (λ f. eq_text f.scanner_name name) findings;
  scanned_files = total_files;
  ai_triage_hint =
      if ltb 0 (length findings)
      then codes "Run triage_findings for AI-assisted analysis of these findings"
      else [];
}

-- Without the times of the run and the target path.
pub record ComplianceReport : Type 0 where
  pub total_files : ℕ
  pub total_lines : ℕ
  pub scanner_count : ℕ
  pub summary : ReportSummary
  pub scan_summary : ScanSummary
  pub requirement_status : StatusMap
  pub findings : List ReportFinding
  pub findings_by_rule : List FindingsByRule
  pub suppressions : List SuppressionEntry
  pub not_checked : List NotCheckedEntry

-- The generator, its scanners and the files that it reads. `include_tests` and `include_taint` are
-- the options of the run; `read_file` gives the lines of a file.
pub record Run : Type 0 where
  pub db : Db
  pub scanners : List Scanner
  pub target_path : Text
  pub dep_scan_mode : Text
  pub include_tests : Bool
  pub include_taint : Bool
  pub ignore_file : FileRead
  pub read_file : Text → Option (List Text)
  pub probe : Probe

abbrev pub collected : Run → Collected
collected run = run_all_scanners run.scanners run.dep_scan_mode run.include_tests run.include_taint

-- The findings that the package exclusions leave, beside the names of their scanners.
abbrev pub kept : Run → List Finding × List Text
kept run =
    exclude_packages run.ignore_file (collected run).findings (collected run).scanner_names
      run.target_path

abbrev pub results : Run → List SuppressionResult
results run = apply_suppression run.read_file run.ignore_file (kept run).0 run.target_path

abbrev pub statuses : Run → StatusMap
statuses run = add_sbom_inventory_status run.probe (
    propagate_cross_references (collect_related_requirement_map (results run)) (
      build_requirement_status run.db
        (collect_covered_requirements (map (λ s. s.requirements) run.scanners))
        (classify_findings_by_requirement (results run)) (results run)))

-- The report from the findings and the suppressions; without them Go has panicked.
abbrev pub assembled :
    Run → Option (List ReportFinding × List SuppressionEntry) → Option ComplianceReport
assembled run none = none
assembled run (some (report_findings, suppressions)) =
    let sorted = sort_findings report_findings in
    some (record {
      total_files = (collected run).total_files;
      total_lines = (collected run).total_lines;
      scanner_count = length run.scanners;
      summary = build_report_summary sorted (statuses run);
      scan_summary = build_scan_summary sorted (collected run).total_files;
      requirement_status = statuses run;
      findings = sorted;
      findings_by_rule = group_findings_by_rule sorted;
      suppressions = suppressions;
      not_checked = build_not_checked_entries run.db (statuses run);
    })

unfoldable pub generate_with_options : Run → Option ComplianceReport
generate_with_options run = assembled run (build_report_findings run.db (results run) (kept run).1)
