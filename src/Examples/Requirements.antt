-- ===== src/Examples/Requirements.antt =====
-- The verdicts on the requirements.
use pci_dss_mcp.Common.{
  ◌≡◌, refl, ◌&&◌, not, some, [], ◌∷◌, Text, codes, eq_text, ◌==◌, if◌then◌else◌, any, count_by,
}
use pci_dss_mcp.Report.Types.{Requirement, Db, find_requirement, new_db, Status, RequirementStatus}
use pci_dss_mcp.Report.Status.{
  verdict, classify_findings_by_requirement, build_requirement_status, get_status, StatusMap,
}
use pci_dss_mcp.Report.Status.Laws.{is_violation, is_active, is_suppressed, verdict_lem}
use pci_dss_mcp.Report.Status.Build.{Unique, requirement_statuses_lem, IsEntry}
use pci_dss_mcp.Report.Status.CrossReference.{
  Related, propagate_cross_references, primary_of, propagated, propagate_cross_references_lem,
}
use pci_dss_mcp.Examples.Data.{two_results, two_requirements}

verdict_lem_example :
    verdict 0 (classify_findings_by_requirement two_results (codes "3.4")) two_results ≡ (
      if any (is_violation (codes "3.4")) two_results
      then (Status.fail, count_by (is_active (codes "3.4")) two_results)
      else if (count_by (is_active (codes "3.4")) two_results == 0)
          && not (count_by (is_suppressed (codes "3.4")) two_results == 0)
      then (Status.suppressed, count_by (is_suppressed (codes "3.4")) two_results)
      else (Status.pass, 0))
verdict_lem_example = verdict_lem 0 (codes "3.4") two_results

loaded_test : new_db two_requirements ≡ some two_requirements
unfolding new_db find_requirement eq_text
loaded_test = refl

Unique-two_requirements : Unique two_requirements
unfolding find_requirement eq_text
Unique-two_requirements = (refl, (refl, tt))

requirement_statuses_lem_example :
    IsEntry (eq_text (codes "3.4")) two_results (find_requirement two_requirements (codes "3.4")) (
      get_status (codes "3.4") (
        build_requirement_status two_requirements
          (eq_text (codes "3.4"))
          (classify_findings_by_requirement two_results)
          two_results))
requirement_statuses_lem_example =
    requirement_statuses_lem two_requirements (eq_text (codes "3.4")) two_results (codes "3.4")
      Unique-two_requirements

abbrev status_of : Text → Status → RequirementStatus
status_of id st = record {
  requirement_id = id;
  title = codes "title";
  status = st;
  finding_count = 0;
  coverage_scope = [];
  limitations = [];
  not_covered = [];
  cross_reference = [];
}

abbrev two_statuses : StatusMap
two_statuses =
    (codes "3.4", status_of (codes "3.4") Status.fail)
    ∷ (codes "10.2", status_of (codes "10.2") Status.not_checked)
    ∷ []

abbrev one_related : Related
one_related = (codes "10.2", codes "3.4") ∷ []

propagate_cross_references_lem_example :
    get_status (codes "10.2") (propagate_cross_references one_related two_statuses)
    ≡ propagated
        (get_status (codes "10.2") two_statuses)
        (primary_of (codes "10.2") one_related)
        (λ k. get_status k two_statuses)
unfolding primary_of get_status eq_text pci_dss_mcp.Report.Types.eq_status
propagate_cross_references_lem_example =
    propagate_cross_references_lem one_related two_statuses (codes "10.2") (refl, tt) (refl, tt)
