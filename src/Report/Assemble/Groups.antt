-- ===== src/Report/Assemble/Groups.antt =====
-- Theorems on `groupFindingsByRule`.
use mathlib.Core.List.{Perm}
use pci_dss_mcp.Common.{
  ℕ, suc, ◌+◌, ◌≡◌, refl, sym, ◌∙◌, inl, inr, Bool, List, [], ◌∷◌, ◌++◌, append_assoc, append-nil,
  arith, Text, eq_text, eq_text_iff, if◌then◌else◌, Bool-cases, length, filter_by, length-append,
  All,
}
use pci_dss_mcp.Sort.{IsSorted, sort_stable-perm, sort_stable-IsSorted}
use pci_dss_mcp.Report.Types.{ReportFinding, FindingsByRule}
use pci_dss_mcp.Report.Assemble.{add_to_groups, group_from, before, group_findings_by_rule}

abbrev pub of_rule : Text → ReportFinding → Bool
of_rule id f = eq_text f.finding.rule_id id

-- The instances of the group of one rule.
pub instances_of : Text → List FindingsByRule → List ReportFinding
instances_of id [] = []
instances_of id (g ∷ groups) =
    let later = instances_of id groups in if eq_text g.rule_id id then g.instances else later

instances_of-add_to_groups :
    (id : Text) (f : ReportFinding) (groups : List FindingsByRule)
    → instances_of id (add_to_groups f groups)
      ≡ (if of_rule id f then instances_of id groups ++ f ∷ [] else instances_of id groups)
unfolding instances_of add_to_groups
instances_of-add_to_groups id f [] = refl
instances_of-add_to_groups id f (g ∷ groups) = ground (
  arith,
  eq_text_iff g.rule_id f.finding.rule_id,
  eq_text_iff g.rule_id id,
  eq_text_iff f.finding.rule_id id,
  instances_of-add_to_groups id f groups,
)

instances_of-group_from :
    (id : Text) (findings : List ReportFinding) (groups : List FindingsByRule)
    → instances_of id (group_from findings groups)
      ≡ instances_of id groups ++ filter_by (of_rule id) findings
unfolding group_from
instances_of-group_from id [] groups = sym (append-nil _)
instances_of-group_from id (f ∷ findings) groups =
    instances_of-group_from id findings (add_to_groups f groups)
    ∙ rw (instances_of-add_to_groups id f groups) (elim (Bool-cases (of_rule id f)) [
      | inl e ↦ rw e (append_assoc (instances_of id groups) (f ∷ []) _)
      | inr e ↦ rw e refl
    ])

-- A group counts its instances.
abbrev pub IsCounted : List FindingsByRule → Type 0
IsCounted = All (λ (g : FindingsByRule). g.count ≡ length g.instances)

add_to_groups-IsCounted :
    (f : ReportFinding) (groups : List FindingsByRule)
    → IsCounted groups
    → IsCounted (add_to_groups f groups)
unfolding add_to_groups
add_to_groups-IsCounted f [] h = (refl, tt)
add_to_groups-IsCounted f (g ∷ groups) (h, hs) =
    elim (Bool-cases (eq_text g.rule_id f.finding.rule_id)) [
      | inl e ↦ rw e (omega (arith, h, length-append g.instances (f ∷ [])), hs)
      | inr e ↦ rw e (h, add_to_groups-IsCounted f groups hs)
    ]

group_from-IsCounted :
    (findings : List ReportFinding) (groups : List FindingsByRule)
    → IsCounted groups
    → IsCounted (group_from findings groups)
unfolding group_from
group_from-IsCounted [] groups h = h
group_from-IsCounted (f ∷ findings) groups h =
    group_from-IsCounted findings _ (add_to_groups-IsCounted f groups h)

-- The sum of the counts.
abbrev pub total_count : List FindingsByRule → ℕ
total_count [] = 0
total_count (g ∷ groups) = g.count + total_count groups

total_count-add_to_groups :
    (f : ReportFinding) (groups : List FindingsByRule)
    → total_count (add_to_groups f groups) ≡ suc (total_count groups)
unfolding add_to_groups
total_count-add_to_groups f [] = refl
total_count-add_to_groups f (g ∷ groups) = ground (arith, total_count-add_to_groups f groups)

total_count-group_from :
    (findings : List ReportFinding) (groups : List FindingsByRule)
    → total_count (group_from findings groups) ≡ total_count groups + length findings
unfolding group_from
total_count-group_from [] groups = omega arith
total_count-group_from (f ∷ findings) groups = omega (
  arith,
  total_count-group_from findings (add_to_groups f groups),
  total_count-add_to_groups f groups,
)

-- Before the sort the group of a rule holds exactly the findings of that rule, in their order, every
-- group counts its instances, and the counts add up to the number of findings; the report's groups
-- are a rearrangement of these in which no group goes before the one in front of it, by severity and
-- then by falling count.
pub group_findings_by_rule_lem :
    (findings : List ReportFinding) (id : Text)
    → (instances_of id (group_from findings []) ≡ filter_by (of_rule id) findings)
      × IsCounted (group_from findings [])
      × (total_count (group_from findings []) ≡ length findings)
      × Perm (group_findings_by_rule findings) (group_from findings [])
      × IsSorted before (group_findings_by_rule findings)
unfolding group_findings_by_rule instances_of
group_findings_by_rule_lem findings id = (
  instances_of-group_from id findings [],
  group_from-IsCounted findings [] tt,
  omega (arith, total_count-group_from findings []),
  sort_stable-perm before (group_from findings []),
  sort_stable-IsSorted before (λ a b h. ground arith) (group_from findings []),
)
