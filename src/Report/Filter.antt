-- ===== src/Report/Filter.antt =====
-- scanner/reportscanner/filter.go: `FilterFindings`.
pub mod Laws
use pci_dss_mcp.Common.{
  ℕ, suc, ◌-◌, Bool, true, ◌&&◌, not, Option, none, some, List, [], ◌∷◌, Text, codes, eq_text, ltb,
  leb, if◌then◌else◌, length, take, drop, any,
}
use pci_dss_mcp.GoStrings.{has_prefix, has_suffix, trim_space, to_upper, split, is_empty}
use pci_dss_mcp.Finding.{Finding, Severity, severity_rank}

-- The `switch` of `severityFromString`; `none` is `ok=false`.
unfoldable pub severity_from_string : Text → Option Severity
unfolding to_upper trim_space eq_text
severity_from_string name =
    let n = to_upper (trim_space name) in
    if eq_text n (codes "CRITICAL")
    then some Severity.critical
    else if eq_text n (codes "HIGH")
    then some Severity.high
    else if eq_text n (codes "MEDIUM")
    then some Severity.medium
    else if eq_text n (codes "LOW")
    then some Severity.low
    else if eq_text n (codes "INFO")
    then some Severity.info
    else none

abbrev rank_or_zero : Option Severity → ℕ
rank_or_zero none = 0
rank_or_zero (some sev) = severity_rank sev

unfoldable pub min_rank : Text → ℕ
unfolding severity_from_string severity_rank
min_rank min_severity = rank_or_zero (severity_from_string min_severity)

-- The text without its first and its last byte.
abbrev inner : Text → Text
inner rf = take (length rf - 2) (drop 1 rf)

abbrev is_regex : Text → Bool
is_regex rf = leb 2 (length rf) && has_prefix rf (codes "/") && has_suffix rf (codes "/")

-- The keys of `ruleSet`, as a list.
rule_set : List Text → List Text
rule_set [] = []
rule_set (part ∷ parts) =
    let rest = rule_set parts in let id = trim_space part in if is_empty id then rest else id ∷ rest

-- The rule filter, read: no filter, a compiled expression, or a set of rule IDs.
pub data RuleTest : Type 0 where
  no_test : RuleTest
  matching : (Text → Bool) → RuleTest
  among : List Text → RuleTest

abbrev compiled : Option (Text → Bool) → Option RuleTest
compiled none = none
compiled (some matches) = some (matching matches)

abbrev passes_rule : RuleTest → Text → Bool
passes_rule no_test id = true
passes_rule (matching matches) id = matches id
passes_rule (among ids) id = any (λ k. eq_text k id) ids

-- The first two `continue`s test the rank, the others the rule.
unfoldable pub passes : ℕ → RuleTest → Finding → Bool
unfolding severity_rank
passes min test f =
    not (ltb 0 min && ltb (severity_rank f.severity) min) && passes_rule test f.rule_id

-- The loop, with the number of findings in `out`.
filter_loop : ℕ → (Finding → Bool) → ℕ → List Finding → List Finding
filter_loop limit p kept [] = []
filter_loop limit p kept (f ∷ findings) =
    let skip = filter_loop limit p kept findings in
    let more = f ∷ filter_loop limit p (suc kept) findings in
    if p f then (if ltb 0 limit && leb limit (suc kept) then f ∷ [] else more) else skip

-- `compile` is `regexp.Compile`: `none` for an invalid expression, else `MatchString`.
-- A negative limit acts as 0, so it is a natural number here.
module _ (compile : Text → Option (Text → Bool)) where
  unfoldable pub rule_test : Text → Option RuleTest
  unfolding rule_set trim_space has_prefix has_suffix split
  rule_test rule_filter =
      let rf = trim_space rule_filter in
      if is_empty rf
      then some no_test
      else if is_regex rf
      then compiled (compile (inner rf))
      else some (among (rule_set (split rf b',')))

  abbrev run : ℕ → ℕ → List Finding → Option RuleTest → Option (List Finding)
  run min limit findings none = none
  run min limit findings (some test) = some (filter_loop limit (passes min test) 0 findings)

  unfoldable pub filter_findings : List Finding → Text → Text → ℕ → Option (List Finding)
  unfolding rule_test min_rank filter_loop passes
  filter_findings findings min_severity rule_filter limit =
      run (min_rank min_severity) limit findings (rule_test rule_filter)
