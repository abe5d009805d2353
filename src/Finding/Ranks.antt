-- ===== src/Finding/Ranks.antt =====
-- `Severity` of scanner/scanner.go, and the three tables that rank it.
use pci_dss_mcp.Common.{ℕ, Bool, true, false, Text, eq_text, ◌≡◌, refl, ◌+◌}

-- A Go string with five constants; `unknown` holds any other text.
pub data Severity : Type 0 where
  critical high medium low info : Severity
  unknown : Text → Severity

unfoldable pub eq_severity : Severity → Severity → Bool
unfolding eq_text
eq_severity Severity.critical Severity.critical = true
eq_severity Severity.high Severity.high = true
eq_severity Severity.medium Severity.medium = true
eq_severity Severity.low Severity.low = true
eq_severity Severity.info Severity.info = true
eq_severity (Severity.unknown s) (Severity.unknown t) = eq_text s t
eq_severity _ _ = false

abbrev pub is_known : Severity → Bool
is_known (Severity.unknown _) = false
is_known Severity.critical = true
is_known Severity.high = true
is_known Severity.medium = true
is_known Severity.low = true
is_known Severity.info = true

-- `severityRank` of devcontext.go, filter.go: higher is more severe.
unfoldable pub severity_rank : Severity → ℕ
severity_rank Severity.critical = 5
severity_rank Severity.high = 4
severity_rank Severity.medium = 3
severity_rank Severity.low = 2
severity_rank Severity.info = 1
severity_rank (Severity.unknown _) = 0

-- `severityOrder` of report.go: lower is more severe.
unfoldable pub severity_order : Severity → ℕ
severity_order Severity.critical = 0
severity_order Severity.high = 1
severity_order Severity.medium = 2
severity_order Severity.low = 3
severity_order Severity.info = 4
severity_order (Severity.unknown _) = 5

-- The two tables are one order, read in opposite directions.
pub severity_rank-order : (s : Severity) → severity_rank s + severity_order s ≡ 5
unfolding severity_rank severity_order
severity_rank-order Severity.critical = refl
severity_rank-order _ = refl
