-- ===== src/Hybrid/Histogram/Laws.antt =====
-- Theorems on `BuildHistogram` of scanner/hybridcache/histogram.go.
use pci_dss_mcp.Common.{
  ℕ, suc, ◌+◌, ◌≤◌, ◌≡◌, refl, sym, ◌∙◌, inl, inr, true, false, List, [], ◌∷◌, arith, Text, eq_text,
  eq_text_iff, ltb, ◌&&◌, ◌==◌, if◌then◌else◌, ltb→lt, ltb→le, ==_iff, Bool-cases, length, take,
  count_by, length-take, take_all,
}
use pci_dss_mcp.Sort.{sort_stable, IsSorted, sort_stable-IsSorted, sum-sort_stable}
use pci_dss_mcp.Finding.{Finding, severity_stats}
use pci_dss_mcp.Hybrid.Histogram.{
  RuleCount, Histogram, count_rule, rule_counts, less_text, before, cut, build_histogram,
}

-- The count of a rule, 0 for one that is missing.
abbrev pub count_of : Text → List RuleCount → ℕ
count_of id [] = 0
count_of id (r ∷ counts) =
    let later = count_of id counts in if eq_text r.rule_id id then r.count + later else later

abbrev pub total : List RuleCount → ℕ
total [] = 0
total (r ∷ counts) = r.count + total counts

count_of-count_rule :
    (id j : Text) (counts : List RuleCount)
    → count_of j (count_rule id counts) ≡ (if eq_text id j then 1 else 0) + count_of j counts
unfolding count_rule
count_of-count_rule id j [] = ground arith
count_of-count_rule id j (r ∷ counts) = ground (
  arith,
  eq_text_iff r.rule_id id,
  eq_text_iff r.rule_id j,
  eq_text_iff id j,
  count_of-count_rule id j counts,
)

total-count_rule :
    (id : Text) (counts : List RuleCount) → total (count_rule id counts) ≡ suc (total counts)
unfolding count_rule
total-count_rule id [] = refl
total-count_rule id (r ∷ counts) = ground (arith, total-count_rule id counts)

count_of-rule_counts :
    (findings : List Finding) (id : Text) (counts : List RuleCount)
    → count_of id (rule_counts findings counts)
      ≡ count_by (λ f. eq_text f.rule_id id) findings + count_of id counts
unfolding rule_counts
count_of-rule_counts [] id counts = omega arith
count_of-rule_counts (f ∷ findings) id counts = ground (
  arith,
  count_of-rule_counts findings id (count_rule f.rule_id counts),
  count_of-count_rule f.rule_id id counts,
)

total-rule_counts :
    (findings : List Finding) (counts : List RuleCount)
    → total (rule_counts findings counts) ≡ length findings + total counts
unfolding rule_counts
total-rule_counts [] counts = omega arith
total-rule_counts (f ∷ findings) counts = omega (
  arith,
  total-rule_counts findings (count_rule f.rule_id counts),
  total-count_rule f.rule_id counts,
)

-- How many entries a rule has.
abbrev pub entries_of : Text → List RuleCount → ℕ
entries_of id counts = count_by (λ r. eq_text r.rule_id id) counts

entries_of-count_rule :
    (id j : Text) (counts : List RuleCount)
    → entries_of j (count_rule id counts)
      ≡ (if eq_text id j && (entries_of j counts == 0) then 1 else entries_of j counts)
unfolding count_rule
entries_of-count_rule id j [] = ground arith
entries_of-count_rule id j (r ∷ counts) = ground (
  arith,
  eq_text_iff r.rule_id id,
  eq_text_iff r.rule_id j,
  eq_text_iff id j,
  entries_of-count_rule id j counts,
)

-- Each rule has one entry, whose count is not zero, or none.
abbrev one_if_found : ℕ → ℕ → ℕ
one_if_found entries found = if (entries == 0) && (found == 0) then 0 else 1

entries_of-rule_counts :
    (findings : List Finding) (id : Text) (counts : List RuleCount)
    → entries_of id counts ≤ 1
    → entries_of id (rule_counts findings counts)
      ≡ one_if_found (entries_of id counts) (count_by (λ f. eq_text f.rule_id id) findings)
unfolding rule_counts
entries_of-rule_counts [] id counts h = ground arith
entries_of-rule_counts (f ∷ findings) id counts h = ground (
  arith,
  entries_of-count_rule f.rule_id id counts,
  entries_of-rule_counts findings id (count_rule f.rule_id counts),
)

less_text_asym : (s t : Text) → less_text s t ≡ true → less_text t s ≡ false
unfolding less_text
less_text_asym s [] h = ground (arith, h)
less_text_asym [] (d ∷ t) h = refl
less_text_asym (c ∷ s) (d ∷ t) h = ground (arith, h, ==_iff c d, ==_iff d c, less_text_asym s t)

before_asym : (a b : RuleCount) → before a b ≡ true → before b a ≡ false
unfolding before
before_asym a b h = ground (arith, h, less_text_asym a.rule_id b.rule_id)

-- All rules with their counts, in the order of the histogram.
abbrev pub ranked : List Finding → List RuleCount
ranked findings = sort_stable before (rule_counts findings [])

count_of-ranked :
    (findings : List Finding) (id : Text)
    → count_of id (ranked findings) ≡ count_by (λ f. eq_text f.rule_id id) findings
count_of-ranked findings id =
    sum-sort_stable before (λ r. if eq_text r.rule_id id then r.count else 0) (count_of id)
      (λ r rs. ground arith) (rule_counts findings [])
    ∙ (count_of-rule_counts findings id [] ∙ omega arith)

entries_of-ranked :
    (findings : List Finding) (id : Text)
    → entries_of id (ranked findings)
      ≡ (if count_by (λ f. eq_text f.rule_id id) findings == 0 then 0 else 1)
entries_of-ranked findings id =
    sum-sort_stable before (λ r. if eq_text r.rule_id id then 1 else 0) (entries_of id)
      (λ r rs. refl) (rule_counts findings [])
    ∙ (entries_of-rule_counts findings id [] (omega arith) ∙ ground arith)

total-ranked : (findings : List Finding) → total (ranked findings) ≡ length findings
total-ranked findings =
    sum-sort_stable before (λ r. r.count) total (λ r rs. refl) (rule_counts findings [])
    ∙ (total-rule_counts findings [] ∙ omega arith)

abbrev pub IsTop : Histogram → List RuleCount → Type 0
IsTop h counts =
    (h.by_rule ≡ take 10 counts)
    × (length h.by_rule ≤ 10)
    × (length h.by_rule + h.more_rules ≡ length counts)

cut-IsTop :
    (findings : List Finding) (counts : List RuleCount)
    → IsTop (cut (severity_stats findings) counts) counts
unfolding cut
cut-IsTop findings counts = elim (Bool-cases (ltb 10 (length counts))) [
  | inl long ↦
      let lt = ltb→lt 10 (length counts) long in
      let l = length-take 10 counts in rw long (refl, omega (arith, l), omega (arith, l))
  | inr short ↦
      let le = ltb→le 10 (length counts) short in
      rw short (sym (take_all 10 counts le), le, omega arith)
]

-- The histogram shows the first ten, and how many more there are, of a list of rules that is sorted by
-- falling count and then by ID. Each rule of a finding stands in it once, with the number of its
-- findings, and no other rule does; the counts add up to the number of all findings.
pub build_histogram_lem :
    (findings : List Finding) (id : Text)
    → IsTop (build_histogram findings) (ranked findings)
      × IsSorted before (ranked findings)
      × (entries_of id (ranked findings)
          ≡ (if count_by (λ f. eq_text f.rule_id id) findings == 0 then 0 else 1))
      × (count_of id (ranked findings) ≡ count_by (λ f. eq_text f.rule_id id) findings)
      × (total (ranked findings) ≡ length findings)
      × ((build_histogram findings).by_severity ≡ severity_stats findings)
unfolding build_histogram cut
build_histogram_lem findings id = (
  cut-IsTop findings (ranked findings),
  sort_stable-IsSorted before before_asym (rule_counts findings []),
  entries_of-ranked findings id,
  count_of-ranked findings id,
  total-ranked findings,
  refl,
)
