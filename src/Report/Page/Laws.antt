-- ===== src/Report/Page/Laws.antt =====
-- Theorems on `buildFlatPage` and `pickTopN` of scanner/reportscanner/hybrid.go.
use pci_dss_mcp.Common.{
  ℕ, suc, ◌+◌, ◌-◌, ◌^◌, ◌≤◌, ◌<◌, ◌≡◌, refl, sym, ap, ◌∙◌, inl, inr, Bool, true, false, Option,
  some, List, [], ◌∷◌, arith, Text, ltb, leb, if◌then◌else◌, le→ltb, Bool-cases, length, take, drop,
  filter_by, drop_all, take_all,
}
use pci_dss_mcp.Finding.{Severity, eq_severity}
use pci_dss_mcp.Hybrid.Cursor.{pos, CursorPayload}
use pci_dss_mcp.Hybrid.Select.{page_end, or_empty}
use pci_dss_mcp.Hybrid.Select.Pages.{page_end_lem, slice-take, capped-next}
use pci_dss_mcp.Report.Types.{ReportFinding}
use pci_dss_mcp.Report.Page.{
  pick_from, pick_top_n, FlatPage, end_of_list, upper, page_at, build_flat_page,
}

abbrev pub of_severity : Severity → ReportFinding → Bool
of_severity sev f = eq_severity f.finding.severity sev

leb-le : (a b : ℕ) → leb a b ≡ true → a ≤ b
leb-le a b h = ground (arith, h)

leb-lt : (a b : ℕ) → leb a b ≡ false → b < a
leb-lt a b h = ground (arith, h)

pick_from_lem :
    (sev : Severity) (n kept : ℕ) (findings : List ReportFinding)
    → kept < n
    → pick_from sev n kept findings ≡ take (n - kept) (filter_by (of_severity sev) findings)
unfolding pick_from
pick_from_lem sev n kept [] h = sym (take_all (n - kept) [] (omega arith))
pick_from_lem sev n kept (f ∷ findings) h = elim (Bool-cases (eq_severity f.finding.severity sev)) [
  | inl same ↦ elim (Bool-cases (leb n (suc kept))) [
    | inl full ↦
        let le = leb-le n (suc kept) full in
        let one : n - kept ≡ 1 = omega arith in rw (same, one) (rw full refl)
    | inr room ↦
        let lt = leb-lt n (suc kept) room in
        let more : n - kept ≡ suc (n - suc kept) = omega arith in
        rw (same, more) (rw room (ap (λ r. f ∷ r) (pick_from_lem sev n (suc kept) findings lt)))
  ]
  | inr other ↦ rw other (pick_from_lem sev n kept findings h)
]

-- The top findings of a severity are the first n of that severity, in their order, if n is not 0.
pub pick_top_n_lem :
    (findings : List ReportFinding) (sev : Severity) (n : ℕ)
    → 0 < n
    → pick_top_n findings sev n ≡ take n (filter_by (of_severity sev) findings)
unfolding pick_top_n
pick_top_n_lem findings sev n h =
    let all : n - 0 ≡ n = omega arith in
    pick_from_lem sev n 0 findings h ∙ ap (λ k. take k (filter_by (of_severity sev) findings)) all

-- The page that a cursor should lead to.
abbrev pub expected :
    (CursorPayload → Option Text) → List ReportFinding → ℕ → ℕ → Text → Text → FlatPage
expected encode_cursor findings off page_size sid tool = record {
  findings = take page_size (drop off findings);
  total_findings = length findings;
  returned = length (take page_size (drop off findings));
  next_cursor =
      if ltb (off + page_size) (length findings)
      then or_empty (encode_cursor (record { sid = sid; off = pos (off + page_size); tool = tool }))
      else [];
}

abbrev page_with : List ReportFinding → List ReportFinding → Text → FlatPage
page_with findings page next = record {
  findings = page;
  total_findings = length findings;
  returned = length page;
  next_cursor = next;
}

module _ (encode_cursor : CursorPayload → Option Text) where
  build_flat_page-unfold :
      (findings : List ReportFinding) (off page_size : ℕ) (sid tool : Text)
      → build_flat_page encode_cursor findings (pos off) page_size sid tool ≡ (
          if leb (length findings) off
          then some (end_of_list (length findings))
          else page_at encode_cursor findings off sid tool
              (upper off (page_end off page_size (length findings))))
  unfolding build_flat_page page_end
  build_flat_page-unfold findings off page_size sid tool = refl

  -- The cap is not below the offset.
  upper-capped :
      (off page_size total : ℕ)
      → off < total
      → upper off (pos (if ltb total (off + page_size) then total else off + page_size))
        ≡ some (if ltb total (off + page_size) then total else off + page_size)
  upper-capped off page_size total h = ground arith

  -- For an offset that is not negative and not near the largest integer, the report's page does not
  -- panic: it has the findings from the offset on, at most a page of them, counts them, and has a cursor
  -- to the next page exactly where findings are left.
  pub build_flat_page_lem :
      (findings : List ReportFinding) (off page_size : ℕ) (sid tool : Text)
      → off + page_size < 2 ^ 63
      → build_flat_page encode_cursor findings (pos off) page_size sid tool
        ≡ some (expected encode_cursor findings off page_size sid tool)
  build_flat_page_lem findings off page_size sid tool fits =
      build_flat_page-unfold findings off page_size sid tool
      ∙ elim (Bool-cases (leb (length findings) off)) [
        | inl past ↦
            let le = leb-le (length findings) off past in
            let empty =
              ap (take page_size) (drop_all off findings le)
              ∙ take_all page_size [] (omega arith) in
            let no_next = le→ltb (off + page_size) (length findings) (omega arith) in
            rw past (
              sym (
                ap
                  (λ p. some (
                    page_with findings p (
                      if ltb (off + page_size) (length findings)
                      then cursor_to (off + page_size)
                      else [])))
                  empty
                ∙ ap
                    (λ b.
                      some (page_with findings [] (if b then cursor_to (off + page_size) else [])))
                    no_next))
        | inr inside ↦
            let lt = leb-lt (length findings) off inside in
            rw inside (
              rw (page_end_lem off page_size (length findings) fits) (
                rw (upper-capped off page_size (length findings) lt) (
                  ap
                    (λ p. some (
                      page_with findings p (
                        next_of (
                          if ltb (length findings) (off + page_size)
                          then length findings
                          else off + page_size))))
                    (slice-take off page_size findings (omega arith))
                  ∙ ap (λ t. some (page_with findings (take page_size (drop off findings)) t))
                      (capped-next cursor_to (off + page_size) (length findings)))))
      ]
    where
      cursor_to : ℕ → Text
      cursor_to k = or_empty (encode_cursor (record { sid = sid; off = pos k; tool = tool }))

      next_of : ℕ → Text
      next_of e = if ltb e (length findings) then cursor_to e else []
