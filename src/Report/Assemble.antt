-- ===== src/Report/Assemble.antt =====
-- The lists and the counts of the report: `buildReportFindings`, `buildNotCheckedEntries`,
-- `buildReportSummary`, `groupFindingsByRule` and the final order of scanner/reportscanner/report.go.
pub mod Laws
pub mod Groups
use mathlib.Core.Option
use pci_dss_mcp.Common.{
  ℕ, ◌+◌, Bool, true, false, not, Option, none, some, List, [], ◌∷◌, ◌++◌, map, Text, codes,
  eq_text, ltb, ◌==◌, if◌then◌else◌, length, count_by,
}
use pci_dss_mcp.Sort.{sort_stable}
use pci_dss_mcp.GoStrings.{is_empty}
use pci_dss_mcp.Finding.{Finding, Severity, severity_order, severity_stats}
use pci_dss_mcp.Suppression.Apply.{SuppressionResult}
use pci_dss_mcp.Report.Types.{
  Requirement, Db, find_requirement, Status, RequirementStatus, ReportFinding, SuppressionEntry,
  NotCheckedEntry, FindingsByRule, ReportSummary,
}
use pci_dss_mcp.Report.Status.{StatusMap, get_status}

abbrev pub title_of : Db → Text → Text
title_of db id = elim (find_requirement db id) [ none ↦ [] | some req ↦ req.title ]

abbrev pub report_finding : Db → Finding → Text → ReportFinding
report_finding db f name = record {
  finding = f;
  requirement_title = title_of db f.requirement_id;
  scanner_name = name;
}

abbrev pub entry : Db → SuppressionResult → Text → SuppressionEntry
entry db sr name = record {
  report_finding = report_finding db sr.finding name;
  reason = sr.suppression_reason;
  source = sr.suppression_source;
}

-- The loop, over the results beside the names. Go panics where the names run out (`none`).
build_from :
    Db
    → List SuppressionResult
    → List Text
    → List ReportFinding
    → List SuppressionEntry
    → Option (List ReportFinding × List SuppressionEntry)
build_from db [] names findings entries = some (findings, entries)
build_from db (sr ∷ results) [] findings entries = none
build_from db (sr ∷ results) (n ∷ names) findings entries =
    build_from db results names
      (if sr.suppressed then findings else findings ++ report_finding db sr.finding n ∷ [])
      (if sr.suppressed then entries ++ entry db sr n ∷ [] else entries)

unfoldable pub build_report_findings :
    Db → List SuppressionResult → List Text → Option (List ReportFinding × List SuppressionEntry)
unfolding build_from find_requirement
build_report_findings db results names = build_from db results names [] []

-- The first `sort.SliceStable` of the report.
abbrev pub by_severity : ReportFinding → ReportFinding → Bool
by_severity a b = ltb (severity_order a.finding.severity) (severity_order b.finding.severity)

unfoldable pub sort_findings : List ReportFinding → List ReportFinding
unfolding sort_stable severity_order
sort_findings = sort_stable by_severity

-- The text for a requirement that no scanner checks.
explanation : Db → Requirement → Text
explanation db req =
    if not (is_empty req.covered_by)
    then codes "Parent requirement "
      ++ (req.covered_by
          ++ (codes " ("
              ++ (parent_title (find_requirement db req.covered_by)
                  ++ (codes
                        ") partially covers this. Full verification requires QSA testing procedure "
                      ++ (req.requirement_id ++ codes ".a")))))
    else if not (is_empty req.not_detectable_reason)
    then req.not_detectable_reason
    else req.title ++ codes " -- requires manual review (QSA)"
  where
    parent_title : Option Requirement → Text
    parent_title none = req.covered_by
    parent_title (some parent) = parent.title

not_checked_entry : Db → Requirement → NotCheckedEntry
unfolding explanation
not_checked_entry db req = record {
  requirement_id = req.requirement_id;
  title = req.title;
  explanation = explanation db req;
  covered_by = req.covered_by;
  testing_procedure = req.testing_procedure;
}

abbrev is_status : Status → RequirementStatus → Bool
is_status Status.pass rs = elim rs.status [ Status.pass ↦ true | _ ↦ false ]
is_status Status.fail rs = elim rs.status [ Status.fail ↦ true | _ ↦ false ]
is_status Status.warning rs = elim rs.status [ Status.warning ↦ true | _ ↦ false ]
is_status Status.suppressed rs = elim rs.status [ Status.suppressed ↦ true | _ ↦ false ]
is_status Status.not_checked rs = elim rs.status [ Status.not_checked ↦ true | _ ↦ false ]

abbrev is_not_checked_entry : Option RequirementStatus → Bool
is_not_checked_entry none = false
is_not_checked_entry (some rs) = is_status Status.not_checked rs

not_checked_from : Db → List Requirement → StatusMap → List NotCheckedEntry
unfolding not_checked_entry
not_checked_from db [] m = []
not_checked_from db (req ∷ reqs) m =
    let rest = not_checked_from db reqs m in
    if is_not_checked_entry (get_status req.requirement_id m)
    then not_checked_entry db req ∷ rest
    else rest

unfoldable pub build_not_checked_entries : Db → StatusMap → List NotCheckedEntry
unfolding not_checked_from get_status find_requirement
build_not_checked_entries db m = not_checked_from db db m

abbrev pub count_status : Status → StatusMap → ℕ
count_status st m = count_by (λ e. is_status st e.1) m

unfoldable pub build_report_summary : List ReportFinding → StatusMap → ReportSummary
unfolding severity_stats
build_report_summary findings m =
    let stats = severity_stats (map (λ rf. rf.finding) findings) in
    record {
      total_requirements = length m;
      checked =
          count_status Status.pass m
          + count_status Status.fail m
          + count_status Status.warning m
          + count_status Status.suppressed m;
      not_checked_count = count_status Status.not_checked m;
      pass = count_status Status.pass m;
      fail = count_status Status.fail m;
      warning = count_status Status.warning m;
      suppressed = count_status Status.suppressed m;
      critical = stats.critical;
      high = stats.high;
      medium = stats.medium;
      low = stats.low;
      info = stats.info;
    }

-- The groups by rule, in the order in which their rules are met.
abbrev grown : FindingsByRule → ReportFinding → FindingsByRule
grown g f = record g { count = g.count + 1; instances = g.instances ++ f ∷ [] }

abbrev new_group : ReportFinding → FindingsByRule
new_group f = record {
  rule_id = f.finding.rule_id;
  severity = f.finding.severity;
  requirement = f.finding.requirement_id;
  count = 1;
  instances = f ∷ [];
}

add_to_groups : ReportFinding → List FindingsByRule → List FindingsByRule
add_to_groups f [] = new_group f ∷ []
add_to_groups f (g ∷ groups) =
    let rest = add_to_groups f groups in
    if eq_text g.rule_id f.finding.rule_id then grown g f ∷ groups else g ∷ rest

pub group_from : List ReportFinding → List FindingsByRule → List FindingsByRule
unfolding add_to_groups
group_from [] groups = groups
group_from (f ∷ findings) groups = group_from findings (add_to_groups f groups)

-- By severity, then by falling count.
abbrev pub before : FindingsByRule → FindingsByRule → Bool
before a b =
    let sa = severity_order a.severity in
    let sb = severity_order b.severity in if sa == sb then ltb b.count a.count else ltb sa sb

unfoldable pub group_findings_by_rule : List ReportFinding → List FindingsByRule
unfolding group_from sort_stable severity_order
group_findings_by_rule findings = sort_stable before (group_from findings [])
