-- ===== src/Secrets/Severities.antt =====
-- Theorems on `analyzeKeyValueInRoot`: the severities of its findings.
use pci_dss_mcp.Common.{◌≡◌, Bool, false, ◌&&◌, ◌||◌, not, Text, eq_text, if◌then◌else◌}
use pci_dss_mcp.Finding.{Finding, Severity}
use pci_dss_mcp.DevContext.{is_prod_path, is_dev_path, is_dedicated_dev_path, is_placeholder_value}
use pci_dss_mcp.Secrets.{KeyValue, rule_high_entropy}

-- The severity that a rule gives.
abbrev pub severity_of_rule : Text → Severity
severity_of_rule rule = if eq_text rule rule_high_entropy then Severity.high else Severity.critical

-- The severity by the place of the file and the look of the value.
abbrev pub severity_in_context : KeyValue → Text → Severity → Severity
severity_in_context kv root sev =
    if is_prod_path kv.file_path
    then Severity.critical
    else if is_dedicated_dev_path kv.file_path
    then Severity.info
    else if is_dev_path kv.file_path root && is_placeholder_value kv.value
    then Severity.info
    else if is_dev_path kv.file_path root || is_placeholder_value kv.value
    then Severity.medium
    else sev

abbrev pub is_in_dev_context : KeyValue → Text → Bool
is_in_dev_context kv root =
    not (is_prod_path kv.file_path)
    && (is_dedicated_dev_path kv.file_path
        || is_dev_path kv.file_path root
        || is_placeholder_value kv.value)

abbrev pub IsRaw : Finding → Type 0
IsRaw f = (f.severity ≡ severity_of_rule f.rule_id) × (f.dev_context ≡ false)

abbrev pub IsAdjusted : KeyValue → Text → Finding → Type 0
IsAdjusted kv root f =
    (f.severity ≡ severity_in_context kv root (severity_of_rule f.rule_id))
    × (f.dev_context ≡ is_in_dev_context kv root)
