-- ===== src/Dependency/Severities.antt =====
-- scanner/depscanner/severity.go: the severity of a vulnerability.
use pci_dss_mcp.Common.{
  ℕ, Option, none, some, List, [], ◌∷◌, Text, codes, eq_text, leb, if◌then◌else◌,
}
use pci_dss_mcp.GoStrings.{has_prefix, to_upper, is_empty}
use pci_dss_mcp.Finding.{Severity}
use pci_dss_mcp.Dependency.Osv.{Vulnerability}

abbrev pub database_severity : Text → Option Severity
database_severity s =
    if eq_text s (codes "CRITICAL")
    then some Severity.critical
    else if eq_text s (codes "HIGH")
    then some Severity.high
    else if eq_text s (codes "MODERATE")
    then some Severity.medium
    else if eq_text s (codes "MEDIUM")
    then some Severity.medium
    else if eq_text s (codes "LOW")
    then some Severity.low
    else none

-- A score in tenths.
abbrev pub score_severity : ℕ → Option Severity
score_severity score =
    if leb 90 score
    then some Severity.critical
    else if leb 70 score
    then some Severity.high
    else if leb 40 score
    then some Severity.medium
    else if leb 1 score
    then some Severity.low
    else none

-- The four CVSS packages: the base score of a vector in tenths, the unit of these scores; `none` is
-- a parse error.
module _ (cvss40 cvss31 cvss30 cvss20 : Text → Option ℕ) where
  unfoldable pub parse_cvss_base_score : Text → Option ℕ
  parse_cvss_base_score vector =
      if has_prefix vector (codes "CVSS:4.0/")
      then cvss40 vector
      else if has_prefix vector (codes "CVSS:3.1/")
      then cvss31 vector
      else if has_prefix vector (codes "CVSS:3.0/")
      then cvss30 vector
      else cvss20 vector

  abbrev pub by_vector : List Text → Option Severity
  by_vector [] = none
  by_vector (vector ∷ _) = by_score (parse_cvss_base_score vector)
    where
      by_score : Option ℕ → Option Severity
      by_score none = none
      by_score (some score) = score_severity score

  unfoldable pub resolve_severity : Vulnerability → Severity
  unfolding parse_cvss_base_score
  resolve_severity vuln =
      first
        (if is_empty vuln.database_severity
          then none
          else database_severity (to_upper vuln.database_severity))
        (by_vector vuln.severity_data)
    where
      first : Option Severity → Option Severity → Severity
      first (some sev) vector = sev
      first none (some sev) = sev
      first none none = Severity.high
