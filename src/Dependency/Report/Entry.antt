-- ===== src/Dependency/Report/Entry.antt =====
-- scanner/depscanner/depscanner.go: the finding of a vulnerability, and those on the cache.
-- `durationHuman` is of cache.go.
use pci_dss_mcp.Common.{
  ℕ, ◌*◌, ◌/◌, ◌%◌, ◌^◌, Option, none, some, List, [], ◌∷◌, ◌++◌, Text, codes, eq_text, ltb,
  if◌then◌else◌,
}
use pci_dss_mcp.GoStrings.{is_empty, join, itoa}
use pci_dss_mcp.Finding.{Finding, Severity, zero_finding}
use pci_dss_mcp.Dependency.Osv.{
  Event, Range, Affected, Vulnerability, Dependency, normalize_version,
}
use pci_dss_mcp.Dependency.Severities.{parse_cvss_base_score, resolve_severity}

abbrev pub or_later : Text → Text → Text
or_later [] later = later
or_later (c ∷ s) later = c ∷ s

unfoldable pub fix_of_events : List Event → Text
unfolding normalize_version
fix_of_events [] = []
fix_of_events (e ∷ events) =
    let rest = fix_of_events events in if is_empty e.fixed then rest else normalize_version e.fixed

-- A normalized version is never empty.
unfoldable pub fix_of_ranges : List Range → Text
unfolding fix_of_events
fix_of_ranges [] = []
fix_of_ranges (r ∷ ranges) = or_later (fix_of_events r.events) (fix_of_ranges ranges)

unfoldable pub fix_of_affected : Text → List Affected → Text
unfolding fix_of_ranges
fix_of_affected module_path [] = []
fix_of_affected module_path (a ∷ affected) =
    let rest = fix_of_affected module_path affected in
    if eq_text a.package_name module_path then or_later (fix_of_ranges a.ranges) rest else rest

unfoldable pub extract_fix_version : Vulnerability → Text → Text
unfolding fix_of_affected
extract_fix_version vuln module_path = fix_of_affected module_path vuln.affected

abbrev pub introduced_by : Event → Text → Text
introduced_by e introduced =
    if is_empty e.introduced
    then introduced
    else if eq_text e.introduced (codes "0")
    then codes "v0.0.0"
    else normalize_version e.introduced

-- The versions `introduced` and `fixed` after the events of a range.
unfoldable pub bounds_loop : Text → Text → List Event → Text × Text
unfolding normalize_version
bounds_loop introduced fixed [] = (introduced, fixed)
bounds_loop introduced fixed (e ∷ events) =
    bounds_loop (introduced_by e introduced)
      (if is_empty e.fixed then fixed else normalize_version e.fixed) events

abbrev pub range_text : Text × Text → Text
range_text (introduced, fixed) =
    if is_empty introduced
    then []
    else if is_empty fixed
    then codes ">=" ++ introduced
    else codes ">=" ++ (introduced ++ (codes ", <" ++ fixed))

unfoldable pub text_of_ranges : List Range → Text
unfolding bounds_loop
text_of_ranges [] = []
text_of_ranges (r ∷ ranges) =
    or_later (range_text (bounds_loop [] [] r.events)) (text_of_ranges ranges)

unfoldable pub text_of_affected : Text → List Affected → Text
unfolding text_of_ranges
text_of_affected module_path [] = []
text_of_affected module_path (a ∷ affected) =
    let rest = text_of_affected module_path affected in
    if eq_text a.package_name module_path then or_later (text_of_ranges a.ranges) rest else rest

unfoldable pub extract_affected_range : Vulnerability → Text → Text
unfolding text_of_affected
extract_affected_range vuln module_path = text_of_affected module_path vuln.affected

unfoldable pub format_vuln_ids : Vulnerability → Text
unfolding join
format_vuln_ids vuln = join (vuln.id ∷ vuln.aliases) (codes " / ")

unfoldable pub pci_context_note : Severity → Text
pci_context_note Severity.critical = codes "PCI DSS 6.3.3 requires remediation within 30 days."
pci_context_note Severity.high = codes "PCI DSS 6.3.3 requires remediation within 30 days."
pci_context_note Severity.medium = codes "PCI DSS 6.3.3 requires remediation within 30 days."
pci_context_note Severity.low =
    codes
      "CVSS < 4.0: below ASV scan failure threshold, but PCI DSS requires tracking and remediation plan."
pci_context_note Severity.info = []
pci_context_note (Severity.unknown s) = []

abbrev pub range_note : Text → Text
range_note [] = []
range_note (c ∷ s) = codes " Affected: " ++ ((c ∷ s) ++ codes ".")

abbrev pub fix_note : Text → Text
fix_note [] = codes " Fix: no fix available."
fix_note (c ∷ s) = codes " Fix: " ++ ((c ∷ s) ++ codes ".")

-- A score in tenths, printed by `%.1f`.
abbrev pub score_note : Option ℕ → Text
score_note none = []
score_note (some score) =
    codes " CVSS: " ++ (itoa (score / 10) ++ (codes "." ++ (itoa (score % 10) ++ codes ".")))

abbrev pub fix_suggestion : Text → Text → Text
fix_suggestion path [] =
    codes "No fix available -- consider replacing dependency or pinning to unaffected version"
fix_suggestion path (c ∷ s) =
    codes "Run 'go get " ++ (path ++ (codes "@" ++ ((c ∷ s) ++ codes "'")))

-- The CVSS packages, which give scores in tenths.
module _ (cvss40 cvss31 cvss30 cvss20 : Text → Option ℕ) where
  abbrev pub first_score : List Text → Option ℕ
  first_score [] = none
  first_score (vector ∷ vectors) = parse_cvss_base_score cvss40 cvss31 cvss30 cvss20 vector

  unfoldable pub vuln_description : Dependency → Vulnerability → Text → Text
  unfolding format_vuln_ids extract_affected_range parse_cvss_base_score resolve_severity
      pci_context_note itoa
  vuln_description dep vuln fix_version =
      format_vuln_ids vuln
      ++ (codes " in "
          ++ (dep.path
              ++ (codes "@"
                  ++ (dep.version
                      ++ (codes ": "
                          ++ (vuln.summary
                              ++ (range_note (extract_affected_range vuln dep.path)
                                  ++ (fix_note fix_version
                                      ++ (score_note (first_score vuln.severity_data)
                                          ++ (codes " "
                                              ++ pci_context_note (
                                                  resolve_severity cvss40 cvss31 cvss30 cvss20
                                                    vuln)))))))))))

  unfoldable pub build_finding : Dependency → Vulnerability → Text → Finding
  unfolding vuln_description resolve_severity
  build_finding dep vuln fix_version = record zero_finding {
    rule_id = codes "DEP-VULN";
    severity = resolve_severity cvss40 cvss31 cvss30 cvss20 vuln;
    requirement_id = codes "6.3.3";
    file_path = codes "go.mod";
    line = dep.line;
    description = vuln_description dep vuln fix_version;
    suggestion = fix_suggestion dep.path fix_version;
  }

-- An age in nanoseconds.
unfoldable pub duration_human : ℕ → Text
unfolding itoa
duration_human d =
    let hours = d / (3600 * 10 ^ 9) in
    if ltb hours 48
    then itoa hours ++ codes "h"
    else itoa (hours / 24) ++ (codes "d " ++ (itoa (hours % 24) ++ codes "h"))

abbrev pub cache_finding : Text → Text → Text → Finding
cache_finding rule text advice = record zero_finding {
  rule_id = rule;
  severity = Severity.info;
  requirement_id = codes "6.3.3";
  file_path = codes "go.mod";
  description = text;
  suggestion = advice;
}

abbrev pub no_dir_finding : Finding
no_dir_finding =
    cache_finding (codes "DEP-CACHE-NO-DIR")
      (codes
        "OSV vulnerability cache directory cannot be determined. Set PCI_MCP_CACHE_DIR to a writable path or ensure HOME / XDG_CACHE_HOME is set.")
      (codes "Set PCI_MCP_CACHE_DIR to a writable directory and re-run.")

abbrev pub cold_finding : Finding
cold_finding =
    cache_finding (codes "DEP-CACHE-COLD")
      (codes
        "OSV vulnerability cache is empty and network refresh failed. Run with network access OR bind-mount the cache directory to enable scanning. Run update_vulnerability_db once with network to bootstrap.")
      (codes
        "Run update_vulnerability_db with network access, or bind-mount a populated cache directory.")

unfoldable pub stale_finding : ℕ → Finding
unfolding duration_human
stale_finding age =
    cache_finding (codes "DEP-CACHE-STALE")
      (codes "OSV vulnerability cache is "
        ++ (duration_human age
            ++ codes
                " old; network refresh failed. Run with network access OR bind-mount the cache directory to refresh."))
      (codes "Run update_vulnerability_db to refresh OSV cache.")
