-- ===== src/Examples/Reports.antt =====
-- The report.
use mathlib.Core.Option
use mathlib.Core.List.{Perm}
use pci_dss_mcp.Common.{◌≡◌, true, false, none, [], ◌∷◌, map, codes, length, filter_by}
use pci_dss_mcp.Sort.{IsSorted}
use pci_dss_mcp.Report.Filter.{filter_findings, passes, min_rank, rule_test}
use pci_dss_mcp.Report.Filter.Laws.{capped, filter_findings_lem}
use pci_dss_mcp.Report.Assemble.{group_from, group_findings_by_rule, before}
use pci_dss_mcp.Report.Assemble.Groups.{
  instances_of, of_rule, IsCounted, total_count, group_findings_by_rule_lem,
}
use pci_dss_mcp.Report.Generate.{Run, inventory}
use pci_dss_mcp.Examples.Data.{
  two_findings, project, ignore_file, two_requirements, two_reported, pan_scanner,
}

abbrev one_run : Run
one_run = record {
  db = two_requirements;
  scanners = pan_scanner ∷ [];
  target_path = codes "/r";
  dep_scan_mode = [];
  include_tests = false;
  include_taint = false;
  ignore_file = ignore_file;
  read_file = project;
  probe = inventory true 3;
}

filter_findings_lem_example :
    filter_findings (λ _. none) two_findings (codes "HIGH") [] 1
    ≡ Option.map
        (λ test. capped 1 (filter_by (passes (min_rank (codes "HIGH")) test) two_findings))
        (rule_test (λ _. none) [])
filter_findings_lem_example = filter_findings_lem (λ _. none) two_findings (codes "HIGH") [] 1

group_findings_by_rule_lem_example :
    (instances_of (codes "A") (group_from two_reported [])
      ≡ filter_by (of_rule (codes "A")) two_reported)
    × IsCounted (group_from two_reported [])
    × (total_count (group_from two_reported []) ≡ length two_reported)
    × Perm (group_findings_by_rule two_reported) (group_from two_reported [])
    × IsSorted before (group_findings_by_rule two_reported)
group_findings_by_rule_lem_example = group_findings_by_rule_lem two_reported (codes "A")
