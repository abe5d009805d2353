-- ===== src/Report/Filter/Laws.antt =====
-- Theorems on `FilterFindings` of scanner/reportscanner/filter.go.
use mathlib.Core.Option
use pci_dss_mcp.Common.{
  ℕ, zero, suc, ◌-◌, ◌<◌, ◌≡◌, refl, ap, inl, inr, Bool, Option, none, some, List, [], ◌∷◌, arith,
  Text, leb, lt→ltb, Bool-cases, take, filter_by,
}
use pci_dss_mcp.Finding.{Finding}
use pci_dss_mcp.Report.Filter.{
  RuleTest, passes, filter_loop, rule_test, filter_findings, min_rank, run,
}

-- The first `limit` of a list, or the whole list for the limit 0.
abbrev pub capped : ℕ → List Finding → List Finding
capped zero fs = fs
capped (suc n) fs = take (suc n) fs

filter_loop_unlimited :
    (p : Finding → Bool) (kept : ℕ) (fs : List Finding) → filter_loop 0 p kept fs ≡ filter_by p fs
unfolding filter_loop
filter_loop_unlimited p kept [] = refl
filter_loop_unlimited p kept (f ∷ fs) =
    ground (arith, filter_loop_unlimited p kept fs, filter_loop_unlimited p (suc kept) fs)

filter_loop_limited :
    (limit : ℕ) (p : Finding → Bool) (kept : ℕ) (fs : List Finding)
    → kept < limit
    → filter_loop limit p kept fs ≡ take (limit - kept) (filter_by p fs)
unfolding filter_loop
filter_loop_limited limit p kept [] h =
    let e : limit - kept ≡ suc (limit - kept - 1) = omega arith in rw e refl
filter_loop_limited limit p kept (f ∷ fs) h = elim (Bool-cases (p f)) [
  | inl e ↦
      rw (e, lt→ltb 0 limit (omega arith))
        (elim (Bool-cases (leb limit (suc kept))) [
          | inl full ↦ let one : limit - kept ≡ 1 = ground arith in rw (full, one) refl
          | inr room ↦
              let next : limit - kept ≡ suc (limit - suc kept) = ground arith in
              rw (room, next)
                (ap (λ l. f ∷ l) (filter_loop_limited limit p (suc kept) fs (ground arith)))
        ])
  | inr e ↦ rw e (filter_loop_limited limit p kept fs h)
]

filter_loop_lem :
    (limit : ℕ) (p : Finding → Bool) (fs : List Finding)
    → filter_loop limit p 0 fs ≡ capped limit (filter_by p fs)
filter_loop_lem zero p fs = filter_loop_unlimited p 0 fs
filter_loop_lem (suc n) p fs =
    let e : suc n - 0 ≡ suc n = omega arith in
    rw e at (filter_loop_limited (suc n) p 0 fs (omega arith))

-- The result is an error exactly for an invalid expression; else it is the findings that pass the
-- severity and the rule test, in their order, cut to the limit if that is not 0.
pub filter_findings_lem :
    (compile : Text → Option (Text → Bool)) (findings : List Finding)
    (min_severity rule_filter : Text) (limit : ℕ)
    → filter_findings compile findings min_severity rule_filter limit
      ≡ Option.map
          (λ test. capped limit (filter_by (passes (min_rank min_severity) test) findings))
          (rule_test compile rule_filter)
unfolding filter_findings
filter_findings_lem compile findings min_severity rule_filter limit =
    by_test (rule_test compile rule_filter)
  where
    by_test :
        (o : Option RuleTest)
        → run compile (min_rank min_severity) limit findings o
          ≡ Option.map
              (λ test. capped limit (filter_by (passes (min_rank min_severity) test) findings))
              o
    by_test none = refl
    by_test (some test) =
        ap some (filter_loop_lem limit (passes (min_rank min_severity) test) findings)
