-- ===== src/Report/Status.antt =====
-- The verdict on each requirement: `classifyFindingsByRequirement`, `buildRequirementStatus`,
-- `classifyRequirementFromFindings`, `collectRelatedRequirementMap` and `propagateCrossReferences` of
-- scanner/reportscanner/report.go.
pub mod Laws
pub mod Build
pub mod CrossReference
use pci_dss_mcp.Common.{
  ℕ, suc, Bool, true, false, ◌&&◌, not, Option, none, some, List, [], ◌∷◌, ◌++◌, Text, eq_text,
  if◌then◌else◌, length, get_elem?, any,
}
use pci_dss_mcp.Finding.{Finding, Severity}
use pci_dss_mcp.Suppression.Apply.{SuppressionResult}
use pci_dss_mcp.Report.Types.{Requirement, Db, Status, eq_status, RequirementStatus}

-- Indices into the results.
pub record ReqFindings : Type 0 where
  pub active : List ℕ
  pub suppressed : List ℕ

abbrev pub no_findings : ReqFindings
no_findings = record { active = []; suppressed = [] }

-- A Go map that is read by key only; `none` is `nil`.
abbrev pub ReqMap : Type 0
ReqMap = Text → Option ReqFindings

abbrev or_new : Option ReqFindings → ReqFindings
or_new none = no_findings
or_new (some rf) = rf

record_result : ℕ → SuppressionResult → ReqFindings → ReqFindings
record_result i sr rf =
    if sr.suppressed
    then record rf { suppressed = rf.suppressed ++ i ∷ [] }
    else record rf { active = rf.active ++ i ∷ [] }

classify_from : ℕ → List SuppressionResult → ReqMap → ReqMap
unfolding record_result
classify_from i [] m = m
classify_from i (sr ∷ results) m =
    let id = sr.finding.requirement_id in
    classify_from (suc i) results
      (λ j. if eq_text id j then some (record_result i sr (or_new (m id))) else m j)

unfoldable pub classify_findings_by_requirement : List SuppressionResult → ReqMap
unfolding classify_from
classify_findings_by_requirement results = classify_from 0 results (λ _. none)

abbrev pub is_actionable : Severity → Bool
is_actionable Severity.critical = true
is_actionable Severity.high = true
is_actionable Severity.medium = true
is_actionable Severity.low = false
is_actionable Severity.info = false
is_actionable (Severity.unknown _) = false

-- `results[idx]`; the indices of a map made from the results are in range.
abbrev actionable_at : Option SuppressionResult → Bool
actionable_at none = false
actionable_at (some sr) = is_actionable sr.finding.severity

abbrev is_nil : List ℕ → Bool
is_nil [] = true
is_nil (_ ∷ _) = false

-- The status and the finding count of a covered requirement; a count that the code leaves alone is
-- the old one.
unfoldable pub verdict : ℕ → Option ReqFindings → List SuppressionResult → Status × ℕ
verdict old none results = (Status.pass, old)
verdict old (some rf) results =
    if any (λ idx. actionable_at (get_elem? results idx)) rf.active
    then (Status.fail, length rf.active)
    else if is_nil rf.active && not (is_nil rf.suppressed)
    then (Status.suppressed, length rf.suppressed)
    else (Status.pass, old)

unfoldable pub classify_requirement_from_findings :
    RequirementStatus → Option ReqFindings → List SuppressionResult → RequirementStatus
unfolding verdict
classify_requirement_from_findings rs rf results =
    let v = verdict rs.finding_count rf results in record rs { status = v.0; finding_count = v.1 }

-- `requirementStatus[id] = rs`: one entry for each ID.
abbrev pub StatusMap : Type 0
StatusMap = List (Text × RequirementStatus)

unfoldable pub put_status : Text → RequirementStatus → StatusMap → StatusMap
put_status id rs [] = (id, rs) ∷ []
put_status id rs ((j, old) ∷ m) =
    let rest = put_status id rs m in if eq_text j id then (j, rs) ∷ m else (j, old) ∷ rest

unfoldable pub get_status : Text → StatusMap → Option RequirementStatus
get_status id [] = none
get_status id ((j, rs) ∷ m) = let later = get_status id m in if eq_text j id then some rs else later

unfoldable pub requirement_status :
    (Text → Bool) → ReqMap → List SuppressionResult → Requirement → RequirementStatus
unfolding classify_requirement_from_findings
requirement_status covered req_map results req =
    if covered req.requirement_id
    then classify_requirement_from_findings
        (record {
          requirement_id = req.requirement_id;
          title = req.title;
          status = Status.pass;
          finding_count = 0;
          coverage_scope = req.coverage_scope;
          limitations = req.limitations;
          not_covered = req.not_covered;
          cross_reference = [];
        })
        (req_map req.requirement_id) results
    else record {
      requirement_id = req.requirement_id;
      title = req.title;
      status = Status.not_checked;
      finding_count = 0;
      coverage_scope = [];
      limitations = [];
      not_covered = [];
      cross_reference = [];
    }

build_from : (Text → Bool) → ReqMap → List SuppressionResult → Db → StatusMap → StatusMap
build_from covered req_map results [] m = m
build_from covered req_map results (req ∷ db) m =
    build_from covered req_map results db
      (put_status req.requirement_id (requirement_status covered req_map results req) m)

-- `covered` is the set that `collectCoveredRequirements` makes.
unfoldable pub build_requirement_status :
    Db → (Text → Bool) → ReqMap → List SuppressionResult → StatusMap
unfolding build_from
build_requirement_status db covered req_map results = build_from covered req_map results db []

-- `collectCoveredRequirements`: the requirement lists of the scanners.
unfoldable pub collect_covered_requirements : List (List Text) → Text → Bool
collect_covered_requirements scanners id = any (λ reqs. any (λ r. eq_text r id) reqs) scanners
