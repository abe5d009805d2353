-- ===== src/Examples/Data.antt =====
-- Findings, rules and scanners that the examples share.
use pci_dss_mcp.Common.{
  ℕ, true, false, Option, none, some, List, [], ◌∷◌, Text, codes, eq_text, if◌then◌else◌,
}
use pci_dss_mcp.Finding.{Finding, Severity}
use pci_dss_mcp.Suppression.IgnoreFile.{FileRead, ExcludePackageRule}
use pci_dss_mcp.Suppression.Apply.{SuppressionResult}
use pci_dss_mcp.Report.Types.{Requirement, ReportFinding}
use pci_dss_mcp.Report.Scan.{Scanner}

abbrev pub finding_at : Text → Severity → Text → ℕ → Finding
finding_at rule severity path line = record {
  rule_id = rule;
  severity = severity;
  requirement_id = codes "3.4";
  file_path = path;
  line = line;
  column = 1;
  description = [];
  suggestion = [];
  related_requirements = codes "10.2" ∷ [];
  confidence = [];
  dev_context = false;
  code_snippet = none;
  triage_hint = [];
  fix_hint = [];
  middleware_detected = false;
  sql_pattern_matched = false;
}

abbrev pub low_finding : Finding
low_finding = finding_at (codes "A") Severity.low (codes "/r/a.go") 2

abbrev pub high_finding : Finding
high_finding = finding_at (codes "B") Severity.high (codes "/r/b.go") 1

abbrev pub two_findings : List Finding
two_findings = low_finding ∷ high_finding ∷ []

-- The file `/r/a.go` carries a comment on its second line.
abbrev pub project : Text → Option (List Text)
project path =
    if eq_text path (codes "/r/a.go")
    then some (codes "x" ∷ codes "y // pci-ignore: test" ∷ [])
    else none

abbrev pub ignore_lines : List Text
ignore_lines = codes "# comment" ∷ codes "b.go:1" ∷ codes "exclude-package: vendor/**" ∷ []

abbrev pub ignore_file : FileRead
ignore_file = FileRead.read ignore_lines

abbrev pub vendor_rule : ExcludePackageRule
vendor_rule = record { pattern' = codes "b*"; source_line = 3 }

abbrev pub stands : Finding → SuppressionResult
stands f = record {
  finding = f;
  suppressed = false;
  suppression_reason = [];
  suppression_source = [];
}

abbrev pub is_excused : Finding → SuppressionResult
is_excused f = record {
  finding = f;
  suppressed = true;
  suppression_reason = codes "test";
  suppression_source = codes "inline";
}

abbrev pub two_results : List SuppressionResult
two_results = is_excused low_finding ∷ stands high_finding ∷ []

abbrev pub two_names : List Text
two_names = codes "pan" ∷ codes "sql" ∷ []

abbrev pub requirement : Text → Requirement
requirement id = record {
  requirement_id = id;
  title = codes "title";
  description = [];
  testing_procedure = [];
  severity = codes "HIGH";
  detectable = true;
  new_in_v4 = false;
  coverage_scope = [];
  limitations = [];
  not_covered = [];
  covered_by = [];
  not_detectable_reason = [];
  requires_qsa = false;
}

abbrev pub two_requirements : List Requirement
two_requirements = requirement (codes "3.4") ∷ requirement (codes "10.2") ∷ []

abbrev pub reported_finding : Finding → ReportFinding
reported_finding f = record {
  finding = f;
  requirement_title = codes "title";
  scanner_name = codes "pan";
}

abbrev pub two_reported : List ReportFinding
two_reported = reported_finding low_finding ∷ reported_finding high_finding ∷ []

abbrev pub pan_scanner : Scanner
pan_scanner = record {
  name = codes "pan";
  scan = some (record {
    findings = two_findings;
    metadata = record { scanned_files = 2; scanned_lines = 3; duration_ms = 1 };
  });
  scan_full_with_taint = none;
  scan_with_package_context = none;
  scan_full = none;
  scan_with_mode = none;
  requirements = codes "3.4" ∷ [];
}
