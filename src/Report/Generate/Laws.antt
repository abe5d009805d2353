-- ===== src/Report/Generate/Laws.antt =====
-- Theorems on `GenerateWithOptions`, from the scanners to the report.
use pci_dss_mcp.Common.{Bool, not, List, map, Text, filter_by}
use pci_dss_mcp.Suppression.Apply.{SuppressionResult}
use pci_dss_mcp.Finding.{Finding}
use pci_dss_mcp.Report.Types.{ReportFinding, SuppressionEntry}
use pci_dss_mcp.Report.Assemble.Laws.{named, as_finding, as_entry}
use pci_dss_mcp.Report.Generate.{Run, kept, results}

-- The two lists of the report, over the kept findings.
abbrev standing : Run → List ReportFinding
standing run =
    map (as_finding run.db) (filter_by (λ e. not e.0.suppressed) (named (results run) (kept run).1))

abbrev excused : Run → List SuppressionEntry
excused run =
    map (as_entry run.db) (filter_by (λ e. e.0.suppressed) (named (results run) (kept run).1))

-- A test of a finding together with the name of its scanner.
abbrev pub NamedTest : Type 0
NamedTest = Finding → Text → Bool

abbrev pub on_report : NamedTest → ReportFinding → Bool
on_report p f = p f.finding f.scanner_name

abbrev pub on_result : NamedTest → SuppressionResult × Text → Bool
on_result p (sr, name) = p sr.finding name

-- The kept findings with what was decided for each, beside the names of their scanners.
abbrev pub decided : Run → List (SuppressionResult × Text)
decided run = named (results run) (kept run).1
