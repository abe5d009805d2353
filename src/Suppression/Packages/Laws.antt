-- ===== src/Suppression/Packages/Laws.antt =====
-- Theorems on what `ApplyPackageExclusions` keeps and reports.
use mathlib.Core.Path.{fun_ext}
use native.Mathlib.Nat.{zero-add}
use pci_dss_mcp.Common.{
  any, eq_text_iff, ltb, ℕ, ◌+◌, ◌≡◌, refl, sym, ap, ◌∙◌, inl, inr, Bool, false, not, List, [], ◌∷◌,
  arith, Text, eq_text, eq_text_refl, if◌then◌else◌, Bool-cases, length, filter_by, count_by, All,
}
use pci_dss_mcp.Finding.{Finding}
use pci_dss_mcp.Suppression.IgnoreFile.{ExcludePackageRule}
use pci_dss_mcp.Suppression.Pattern.{match_pattern}
use pci_dss_mcp.Suppression.Apply.{rel_path}
use pci_dss_mcp.Suppression.Packages.{
  ExcludedPackageReport, Counter, put, excluded_by, package_reports, source_lines,
  apply_package_exclusions,
}
use pci_dss_mcp.Suppression.Packages.Counts.{
  is_pattern, first_match, is_kept, exclude_all-filtered, exclude_all-counts, reported, Distinct,
  counted, total-counted, apply_package_exclusions-filtered, exclude_all-total,
}

-- Whether a rule is the first one whose pattern matches the finding's path.
abbrev pub wins : List ExcludePackageRule → Text → ExcludePackageRule → Finding → Bool
wins [] root r f = false
wins (q ∷ rules) root r f =
    if match_pattern q.pattern' (rel_path root f.file_path)
    then eq_text q.pattern' r.pattern'
    else wins rules root r f

wins_lem :
    (rules : List ExcludePackageRule) (root : Text) (r : ExcludePackageRule) (f : Finding)
    → is_pattern r.pattern' (first_match rules root f) ≡ wins rules root r f
unfolding excluded_by
wins_lem [] root r f = refl
wins_lem (q ∷ rules) root r f =
    elim (Bool-cases (match_pattern q.pattern' (rel_path root f.file_path))) [
      | inl e ↦ rw e refl
      | inr e ↦ rw e (wins_lem rules root r f)
    ]

abbrev pub losses : List ExcludePackageRule → Text → List Finding → ExcludePackageRule → ℕ
losses rules root findings r = count_by (wins rules root r) findings

-- The reports of the rules that exclude something.
abbrev pub reports_of :
    List ExcludePackageRule
    → Text
    → List Finding
    → List ExcludePackageRule
    → List ExcludedPackageReport
reports_of rules root findings [] = []
reports_of rules root findings (r ∷ rest) =
    let later = reports_of rules root findings rest in
    if ltb 0 (losses rules root findings r)
    then record {
      pattern' = r.pattern';
      match_count = losses rules root findings r;
      source_line = r.source_line;
    }
      ∷ later
    else later

source_lines-other :
    (rules : List ExcludePackageRule) (p : Text) (m : Counter)
    → All (λ (q : ExcludePackageRule). eq_text p q.pattern' ≡ false) rules
    → source_lines rules m p ≡ m p
unfolding source_lines
source_lines-other [] p m h = refl
source_lines-other (q ∷ rules) p m (h, hs) =
    source_lines-other rules p (put q.pattern' q.source_line m) hs ∙ other
  where
    other : put q.pattern' q.source_line m p ≡ m p
    other = ground (arith, eq_text_iff p q.pattern', eq_text_iff q.pattern' p, h)

-- The map has the line of each rule.
source_lines_lem :
    (rules : List ExcludePackageRule) (m : Counter)
    → Distinct rules
    → All (λ (r : ExcludePackageRule). source_lines rules m r.pattern' ≡ r.source_line) rules
unfolding source_lines
source_lines_lem [] m h = tt
source_lines_lem (r ∷ rules) m (h, hs) = (
  source_lines-other rules r.pattern' (put r.pattern' r.source_line m) h
      ∙ rw (eq_text_refl r.pattern') refl,
  source_lines_lem rules (put r.pattern' r.source_line m) hs,
)

losses-counted :
    (rules : List ExcludePackageRule) (root : Text) (fs : List Finding) (r : ExcludePackageRule)
    → counted rules root fs r.pattern' ≡ losses rules root fs r
losses-counted rules root [] r = refl
losses-counted rules root (f ∷ fs) r =
    rw (wins_lem rules root r f, losses-counted rules root fs r) refl

package_reports_lem :
    (rules rest : List ExcludePackageRule) (root : Text) (fs : List Finding)
    (counts sources : Counter)
    → ((q : Text) → counts q ≡ counted rules root fs q)
    → All (λ (r : ExcludePackageRule). sources r.pattern' ≡ r.source_line) rest
    → package_reports rest counts sources ≡ reports_of rules root fs rest
unfolding package_reports
package_reports_lem rules [] root fs counts sources c h = refl
package_reports_lem rules (r ∷ rest) root fs counts sources c (h, hs) =
    rw
      (
        c r.pattern' ∙ losses-counted rules root fs r,
        h,
        package_reports_lem rules rest root fs counts sources c hs,
      )
      refl

no_losses :
    (rules rest : List ExcludePackageRule) (root : Text) → reports_of rules root [] rest ≡ []
no_losses rules [] root = refl
no_losses rules (r ∷ rest) root = no_losses rules rest root

reported-kept :
    (findings : List Finding) (root : Text) (rules : List ExcludePackageRule)
    → Distinct rules
    → reported (apply_package_exclusions findings root rules).1
        + length (apply_package_exclusions findings root rules).0
      ≡ length findings
unfolding apply_package_exclusions
reported-kept [] root rules h = refl
reported-kept (f ∷ fs) root [] h = omega arith
reported-kept (f ∷ fs) root (r ∷ rules) h = omega (
  arith,
  exclude_all-total (r ∷ rules) root (f ∷ fs) (source_lines (r ∷ rules) (λ _. 0)),
  ap length (exclude_all-filtered (r ∷ rules) root (f ∷ fs) [] (λ _. 0)),
  total-counted (r ∷ rules) root (f ∷ fs) h,
)

apply_package_exclusions-reports :
    (findings : List Finding) (root : Text) (rules : List ExcludePackageRule)
    → Distinct rules
    → (apply_package_exclusions findings root rules).1 ≡ reports_of rules root findings rules
unfolding apply_package_exclusions
apply_package_exclusions-reports [] root rules h = sym (no_losses rules rules root)
apply_package_exclusions-reports (f ∷ fs) root [] h = refl
apply_package_exclusions-reports (f ∷ fs) root (r ∷ rules) h =
    package_reports_lem (r ∷ rules) (r ∷ rules) root (f ∷ fs) _ _
      (λ q. exclude_all-counts (r ∷ rules) root (f ∷ fs) [] (λ _. 0) q ∙ zero-add _)
      (source_lines_lem (r ∷ rules) (λ _. 0) h)

-- Whether some rule matches the path of a finding.
abbrev pub is_excluded : List ExcludePackageRule → Text → Finding → Bool
is_excluded rules root f = any (λ r. match_pattern r.pattern' (rel_path root f.file_path)) rules

is_kept-is_excluded :
    (rules : List ExcludePackageRule) (root : Text) (f : Finding)
    → is_kept rules root f ≡ not (is_excluded rules root f)
unfolding excluded_by
is_kept-is_excluded [] root f = refl
is_kept-is_excluded (r ∷ rules) root f = ground (arith, is_kept-is_excluded rules root f)

-- If no two rules share a pattern: the findings that come out are those whose path no rule matches, in
-- their order. The reports are, in the order of the rules, those of the rules that exclude something,
-- each with its own source line and the number of the findings for which it is the first rule whose
-- pattern matches. The counts of the reports and the findings that are kept add up to all findings.
pub apply_package_exclusions-total :
    (findings : List Finding) (root : Text) (rules : List ExcludePackageRule)
    → Distinct rules
    → ((apply_package_exclusions findings root rules).0
        ≡ filter_by (λ f. not (is_excluded rules root f)) findings)
      × ((apply_package_exclusions findings root rules).1 ≡ reports_of rules root findings rules)
      × (reported (apply_package_exclusions findings root rules).1
            + length (apply_package_exclusions findings root rules).0
          ≡ length findings)
apply_package_exclusions-total findings root rules h = (
  apply_package_exclusions-filtered findings root rules
      ∙ ap (λ p. filter_by p findings) (fun_ext (is_kept-is_excluded rules root)),
  apply_package_exclusions-reports findings root rules h,
  reported-kept findings root rules h,
)
