-- ===== src/Hybrid/Histogram.antt =====
-- `BuildHistogram` of scanner/hybridcache/histogram.go.
pub mod Laws
use pci_dss_mcp.Common.{
  ℕ, ◌+◌, ◌-◌, Bool, true, false, List, [], ◌∷◌, Text, eq_text, ltb, ◌==◌, if◌then◌else◌, length,
  take,
}
use pci_dss_mcp.Sort.{sort_stable}
use pci_dss_mcp.Finding.{Finding, SeverityStats, severity_stats}

pub record RuleCount : Type 0 where
  pub rule_id : Text
  pub count : ℕ

pub record Histogram : Type 0 where
  pub by_severity : SeverityStats
  pub by_rule : List RuleCount
  pub more_rules : ℕ

-- `ruleCounts[id]++`, on the map as a list of its entries.
unfoldable pub count_rule : Text → List RuleCount → List RuleCount
count_rule id [] = record { rule_id = id; count = 1 } ∷ []
count_rule id (r ∷ counts) =
    let rest = count_rule id counts in
    if eq_text r.rule_id id then record r { count = r.count + 1 } ∷ counts else r ∷ rest

unfoldable pub rule_counts : List Finding → List RuleCount → List RuleCount
unfolding count_rule
rule_counts [] counts = counts
rule_counts (f ∷ findings) counts = rule_counts findings (count_rule f.rule_id counts)

-- `<` on strings.
unfoldable pub less_text : Text → Text → Bool
less_text s [] = false
less_text [] (d ∷ t) = true
less_text (c ∷ s) (d ∷ t) = let later = less_text s t in if c == d then later else ltb c d

-- By falling count, then by ID.
unfoldable pub before : RuleCount → RuleCount → Bool
unfolding less_text
before a b = if a.count == b.count then less_text a.rule_id b.rule_id else ltb b.count a.count

abbrev pub max_by_rule_entries : ℕ
max_by_rule_entries = 10

unfoldable pub cut : SeverityStats → List RuleCount → Histogram
cut stats hist = record {
  by_severity = stats;
  by_rule = if ltb max_by_rule_entries (length hist) then take max_by_rule_entries hist else hist;
  more_rules =
      if ltb max_by_rule_entries (length hist) then length hist - max_by_rule_entries else 0;
}

unfoldable pub build_histogram : List Finding → Histogram
unfolding sort_stable before rule_counts cut
build_histogram findings =
    cut (severity_stats findings) (sort_stable before (rule_counts findings []))
