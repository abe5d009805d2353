-- ===== src/Report/Assemble/Laws.antt =====
-- Theorems on the lists, the order and the summary of the report.
use mathlib.Core.List.{Perm}
use pci_dss_mcp.Common.{
  ℕ, ◌+◌, ◌≡◌, refl, ◌∙◌, inl, inr, not, some, List, [], ◌∷◌, ◌++◌, map, append_assoc, append-nil,
  arith, Text, ◌==◌, Bool-cases, length, filter_by,
}
use pci_dss_mcp.Sort.{IsSorted, sort_stable-perm, sort_stable-IsSorted, sort_stable-filter_by}
use pci_dss_mcp.Finding.{severity_order}
use pci_dss_mcp.Suppression.Apply.{SuppressionResult}
use pci_dss_mcp.Report.Types.{Db, Status, ReportFinding, SuppressionEntry}
use pci_dss_mcp.Report.Status.{StatusMap}
use pci_dss_mcp.Report.Assemble.{
  report_finding, entry, build_from, build_report_findings, by_severity, sort_findings,
  count_status, build_report_summary,
}

-- Each result beside the name of its scanner.
abbrev pub named : List SuppressionResult → List Text → List (SuppressionResult × Text)
named [] names = []
named (sr ∷ results) [] = []
named (sr ∷ results) (n ∷ names) = (sr, n) ∷ named results names

abbrev pub as_finding : Db → SuppressionResult × Text → ReportFinding
as_finding db (sr, n) = report_finding db sr.finding n

abbrev pub as_entry : Db → SuppressionResult × Text → SuppressionEntry
as_entry db (sr, n) = entry db sr n

build_from_lem :
    (db : Db) (results : List SuppressionResult) (names : List Text) (fs : List ReportFinding)
    (es : List SuppressionEntry)
    → length results ≡ length names
    → build_from db results names fs es
      ≡ some (
        fs ++ map (as_finding db) (filter_by (λ e. not e.0.suppressed) (named results names)),
        es ++ map (as_entry db) (filter_by (λ e. e.0.suppressed) (named results names)),
      )
unfolding build_from
build_from_lem db [] names fs es h = rw (append-nil, append-nil) refl
build_from_lem db (sr ∷ results) [] fs es h = absurd (omega arith)
build_from_lem db (sr ∷ results) (n ∷ names) fs es h = elim (Bool-cases sr.suppressed) [
  | inl e ↦ simp e (
      build_from_lem db results names fs (es ++ entry db sr n ∷ []) (omega arith)
      ∙ simp append_assoc)
  | inr e ↦ simp e (
      build_from_lem db results names (fs ++ report_finding db sr.finding n ∷ []) es (omega arith)
      ∙ simp append_assoc)
]

-- With a scanner name for each result nothing panics: the report holds the results that stand and the
-- suppression list those that do not, both in their order, each with the name of its own scanner and
-- the title of its own requirement.
pub build_report_findings_lem :
    (db : Db) (results : List SuppressionResult) (names : List Text)
    → length results ≡ length names
    → build_report_findings db results names
      ≡ some (
        map (as_finding db) (filter_by (λ e. not e.0.suppressed) (named results names)),
        map (as_entry db) (filter_by (λ e. e.0.suppressed) (named results names)),
      )
unfolding build_report_findings
build_report_findings_lem db results names h = build_from_lem db results names [] [] h

-- The findings of the report are a rearrangement of the ones that it was given, no finding ranks
-- after a less severe one, and findings of one severity keep their order.
pub sort_findings_lem :
    (findings : List ReportFinding) (rank : ℕ)
    → Perm (sort_findings findings) findings
      × IsSorted by_severity (sort_findings findings)
      × (filter_by (λ f. severity_order f.finding.severity == rank) (sort_findings findings)
          ≡ filter_by (λ f. severity_order f.finding.severity == rank) findings)
unfolding sort_findings
sort_findings_lem findings rank = (
  sort_stable-perm by_severity findings,
  sort_stable-IsSorted by_severity (λ a b h. ground arith) findings,
  sort_stable-filter_by by_severity (λ f. severity_order f.finding.severity == rank)
      (λ a b h k. ground arith) findings,
)

count_status_total :
    (m : StatusMap)
    → count_status Status.pass m
        + count_status Status.fail m
        + count_status Status.warning m
        + count_status Status.suppressed m
        + count_status Status.not_checked m
      ≡ length m
count_status_total [] = refl
count_status_total ((id, rs) ∷ m) = ground (arith, count_status_total m)

-- The checked and the unchecked requirements make up the total.
pub build_report_summary_total :
    (findings : List ReportFinding) (m : StatusMap)
    → (build_report_summary findings m).checked
        + (build_report_summary findings m).not_checked_count
      ≡ (build_report_summary findings m).total_requirements
unfolding build_report_summary
build_report_summary_total findings m = count_status_total m
