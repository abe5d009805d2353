-- ===== src/Report/Types.antt =====
-- The data of the report (scanner/reportscanner/types.go) and of the requirements database
-- (pcidb/pcidb.go).
use pci_dss_mcp.Common.{
  ℕ, Bool, true, false, Option, none, some, List, [], ◌∷◌, ◌++◌, Text, eq_text, if◌then◌else◌,
  is_some,
}
use pci_dss_mcp.Finding.{Finding, Severity}

pub record Requirement : Type 0 where
  pub requirement_id : Text
  pub title : Text
  pub description : Text
  pub testing_procedure : Text
  pub severity : Text
  pub detectable : Bool
  pub new_in_v4 : Bool
  pub coverage_scope : Text
  pub limitations : List Text
  pub not_covered : Text
  pub covered_by : Text
  pub not_detectable_reason : Text
  pub requires_qsa : Bool

-- The database: the list `all`, which is also the map by ID, since no ID occurs twice in it.
abbrev pub Db : Type 0
Db = List Requirement

unfoldable pub find_requirement : Db → Text → Option Requirement
find_requirement [] id = none
find_requirement (r ∷ db) id =
    let later = find_requirement db id in if eq_text r.requirement_id id then some r else later

-- The loop of `pcidb.New`: `none` is the error for a duplicate ID.
unfoldable pub load_from : Db → List Requirement → Option Db
load_from db [] = some db
load_from db (r ∷ reqs) =
    let later = load_from (db ++ r ∷ []) reqs in
    if is_some (find_requirement db r.requirement_id) then none else later

unfoldable pub new_db : List Requirement → Option Db
unfolding load_from
new_db reqs = load_from [] reqs

-- PASS, FAIL, WARNING, SUPPRESSED, NOT_CHECKED.
pub data Status : Type 0 where
  pass fail warning suppressed not_checked : Status

unfoldable pub eq_status : Status → Status → Bool
eq_status Status.pass Status.pass = true
eq_status Status.fail Status.fail = true
eq_status Status.warning Status.warning = true
eq_status Status.suppressed Status.suppressed = true
eq_status Status.not_checked Status.not_checked = true
eq_status _ _ = false

pub record RequirementStatus : Type 0 where
  pub requirement_id : Text
  pub title : Text
  pub status : Status
  pub finding_count : ℕ
  pub coverage_scope : Text
  pub limitations : List Text
  pub not_covered : Text
  pub cross_reference : Text

pub record ReportFinding : Type 0 where
  pub finding : Finding
  pub requirement_title : Text
  pub scanner_name : Text

pub record SuppressionEntry : Type 0 where
  pub report_finding : ReportFinding
  pub reason : Text
  pub source : Text

pub record NotCheckedEntry : Type 0 where
  pub requirement_id : Text
  pub title : Text
  pub explanation : Text
  pub covered_by : Text
  pub testing_procedure : Text

pub record FindingsByRule : Type 0 where
  pub rule_id : Text
  pub severity : Severity
  pub requirement : Text
  pub count : ℕ
  pub instances : List ReportFinding

pub record ReportSummary : Type 0 where
  pub total_requirements : ℕ
  pub checked : ℕ
  pub not_checked_count : ℕ
  pub pass : ℕ
  pub fail : ℕ
  pub warning : ℕ
  pub suppressed : ℕ
  pub critical : ℕ
  pub high : ℕ
  pub medium : ℕ
  pub low : ℕ
  pub info : ℕ
