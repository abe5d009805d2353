-- ===== src/Report/Page.antt =====
-- `buildFlatPage`, `pickTopN` and `recomputeSeveritySummary` of scanner/reportscanner/hybrid.go.
pub mod Laws
use pci_dss_mcp.Common.{
  ℕ, suc, ◌-◌, not, Option, none, some, List, [], ◌∷◌, map, Text, ltb, leb, if◌then◌else◌, length,
  take, drop,
}
use pci_dss_mcp.Finding.{Severity, eq_severity, severity_stats}
use pci_dss_mcp.Hybrid.Cursor.{ℤ, pos, negsuc, CursorPayload}
use pci_dss_mcp.Hybrid.Select.{page_end, or_empty}
use pci_dss_mcp.Report.Types.{ReportFinding, ReportSummary}

-- The loop of `pickTopN`; `kept` is the length of `out`.
pick_from : Severity → ℕ → ℕ → List ReportFinding → List ReportFinding
pick_from sev n kept [] = []
pick_from sev n kept (f ∷ findings) =
    let skip = pick_from sev n kept findings in
    let more = pick_from sev n (suc kept) findings in
    if not (eq_severity f.finding.severity sev)
    then skip
    else if leb n (suc kept)
    then f ∷ []
    else f ∷ more

unfoldable pub pick_top_n : List ReportFinding → Severity → ℕ → List ReportFinding
unfolding pick_from
pick_top_n findings sev n = pick_from sev n 0 findings

unfoldable pub recompute_severity_summary : ReportSummary → List ReportFinding → ReportSummary
recompute_severity_summary base findings =
    let stats = severity_stats (map (λ rf. rf.finding) findings) in
    record base {
      critical = stats.critical;
      high = stats.high;
      medium = stats.medium;
      low = stats.low;
      info = stats.info;
    }

-- `FlatResponse`: its findings and its pagination, without the constant hints and the parts that are
-- copied from the session.
pub record FlatPage : Type 0 where
  pub findings : List ReportFinding
  pub total_findings : ℕ
  pub returned : ℕ
  pub next_cursor : Text

abbrev pub end_of_list : ℕ → FlatPage
end_of_list total = record { findings = []; total_findings = total; returned = 0; next_cursor = [] }

-- `entry.findings[off:end]` panics where `end` is below `off`.
abbrev pub upper : ℕ → ℤ → Option ℕ
upper off (pos e) = if ltb e off then none else some e
upper off (negsuc e) = none

module _ (encode_cursor : CursorPayload → Option Text) where
  abbrev pub page_at : List ReportFinding → ℕ → Text → Text → Option ℕ → Option FlatPage
  page_at findings off sid tool none = none
  page_at findings off sid tool (some e) =
      let page = take (e - off) (drop off findings) in
      some (record {
        findings = page;
        total_findings = length findings;
        returned = length page;
        next_cursor =
            if ltb e (length findings)
            then or_empty (encode_cursor (record { sid = sid; off = pos e; tool = tool }))
            else [];
      })

  -- A negative offset passes the test against the total and makes the slice panic.
  unfoldable pub build_flat_page : List ReportFinding → ℤ → ℕ → Text → Text → Option FlatPage
  unfolding page_end
  build_flat_page findings (negsuc off) page_size sid tool = none
  build_flat_page findings (pos off) page_size sid tool =
      if leb (length findings) off
      then some (end_of_list (length findings))
      else page_at findings off sid tool (upper off (page_end off page_size (length findings)))
