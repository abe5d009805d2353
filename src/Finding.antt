-- ===== src/Finding.antt =====
-- scanner/scanner.go, and the counts of scanner/format.go: what every scanner returns.
pub mod Ranks
unfoldable pub use Ranks.*
use pci_dss_mcp.Common.{
  ℕ, ◌+◌, Bool, List, Text, Option, none, false, count_by, ◌≡◌, arith, [], ◌∷◌,
}

pub record CodeSnippet : Type 0 where
  pub before : Text
  pub line : Text
  pub after : Text

-- Line and column numbers are those of a parser, so never negative.
pub record Finding : Type 0 where
  pub rule_id : Text
  pub severity : Severity
  pub requirement_id : Text
  pub file_path : Text
  pub line : ℕ
  pub column : ℕ
  pub description : Text
  pub suggestion : Text
  pub related_requirements : List Text
  pub confidence : Text
  pub dev_context : Bool
  pub code_snippet : Option CodeSnippet
  pub triage_hint : Text
  pub fix_hint : Text
  pub middleware_detected : Bool
  pub sql_pattern_matched : Bool

-- Go's zero value, which the scanners fill in.
abbrev pub zero_finding : Finding
zero_finding = record {
  rule_id = [];
  severity = Severity.unknown [];
  requirement_id = [];
  file_path = [];
  line = 0;
  column = 0;
  description = [];
  suggestion = [];
  related_requirements = [];
  confidence = [];
  dev_context = false;
  code_snippet = none;
  triage_hint = [];
  fix_hint = [];
  middleware_detected = false;
  sql_pattern_matched = false;
}

pub record ScanMetadata : Type 0 where
  pub scanned_files : ℕ
  pub scanned_lines : ℕ
  pub duration_ms : ℕ

pub record ScanResult : Type 0 where
  pub findings : List Finding
  pub metadata : ScanMetadata

-- The map that `CountBySeverity` returns, at one of its keys.
unfoldable pub count_by_severity : List Finding → Severity → ℕ
unfolding eq_severity
count_by_severity findings sev = count_by (λ f. eq_severity f.severity sev) findings

-- `SeverityStats`, filled from the map as every caller does.
pub record SeverityStats : Type 0 where
  pub critical : ℕ
  pub high : ℕ
  pub medium : ℕ
  pub low : ℕ
  pub info : ℕ

unfoldable pub severity_stats : List Finding → SeverityStats
unfolding count_by_severity
severity_stats findings = record {
  critical = count_by_severity findings Severity.critical;
  high = count_by_severity findings Severity.high;
  medium = count_by_severity findings Severity.medium;
  low = count_by_severity findings Severity.low;
  info = count_by_severity findings Severity.info;
}

abbrev pub stats_total : SeverityStats → ℕ
stats_total s = s.critical + s.high + s.medium + s.low + s.info

-- Every finding of one of the five severities is in one count, and in no other.
pub severity_stats_lem :
    (findings : List Finding)
    → stats_total (severity_stats findings) ≡ count_by (λ f. is_known f.severity) findings
unfolding severity_stats
severity_stats_lem [] = omega arith
severity_stats_lem (f ∷ findings) = ground (arith, severity_stats_lem findings)
