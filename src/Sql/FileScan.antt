-- ===== src/Sql/FileScan.antt =====
-- scanner/sqlscanner/sqlscanner.go: the findings of one migration file.
pub mod Laws
use pci_dss_mcp.Common.{
  ℕ, ◌+◌, Bool, true, ◌&&◌, not, Option, none, some, List, [], ◌∷◌, ◌++◌, map, Text, codes, eq_text,
  if◌then◌else◌, drop, filter_by,
}
use pci_dss_mcp.GoStrings.{escape_all, quote}
use pci_dss_mcp.Finding.{Finding, Severity, zero_finding}
use pci_dss_mcp.Sql.{Column, newlines, CreateMatch, AlterMatch, parse_sql_file}
use pci_dss_mcp.Sql.Keywords.{
  classify, requirement_of_kind, is_pan_protected_in_table, is_sensitive_column_in_context,
  is_sql_expiry_column, is_plaintext_string_type,
}

abbrev pub rule_sql_sensitive_column : Text
rule_sql_sensitive_column = codes "SQL-SENSITIVE-COLUMN"

abbrev pub rule_sql_text_type : Text
rule_sql_text_type = codes "SQL-TEXT-TYPE"

pub record SqlFindingMeta : Type 0 where
  pub table_name : Text
  pub column_name : Text

abbrev pub meta_of : Column → SqlFindingMeta
meta_of c = record { table_name = c.table_name; column_name = c.name }

module _ (sad_matcher pan_matcher : Text → Bool) where
  abbrev pub requirement_for_sql_column : Text → Text
  requirement_for_sql_column name = requirement_of_kind (classify sad_matcher pan_matcher name)

  unfoldable pub column_finding : Text → Column → Finding
  unfolding classify escape_all
  column_finding path c = record zero_finding {
    rule_id = rule_sql_sensitive_column;
    severity = Severity.high;
    requirement_id = requirement_for_sql_column c.name;
    file_path = path;
    line = c.line;
    description =
        codes "Sensitive column "
        ++ (quote c.name
            ++ codes
                " declared in SQL schema. PCI DSS 3.3.1 forbids storing Sensitive Authentication Data (track data, CVV, PIN block) after authorization. For PAN, storage must be rendered unreadable per 3.5.1.");
    suggestion =
        codes
          "If this column stores SAD (CVV/track/PIN) drop it. If it stores PAN, change the column type to bytea and encrypt at the application layer via a BeforeCreate/BeforeSave hook.";
    sql_pattern_matched = true;
    confidence = codes "high";
  }

  unfoldable pub type_finding : Text → Column → Finding
  unfolding escape_all
  type_finding path c = record zero_finding {
    rule_id = rule_sql_text_type;
    severity = Severity.medium;
    requirement_id = codes "3.5.1";
    file_path = path;
    line = c.line;
    description =
        codes "Sensitive column "
        ++ (quote c.name
            ++ (codes " stored as plaintext type "
                ++ (quote c.sql_type
                    ++ codes
                        ". PCI DSS 3.5.1 requires PAN/SAD to be rendered unreadable at rest (use bytea + application-level encryption).")));
    suggestion =
        codes
          "Change the column type to bytea and encrypt at the application layer before insertion.";
    sql_pattern_matched = true;
    confidence = codes "high";
  }

  -- `byTable` at a table.
  abbrev pub columns_of : List Column → Text → List Column
  columns_of all_cols table = filter_by (λ c. eq_text c.table_name table) all_cols

  -- Whether the two `continue`s of the loop are passed.
  unfoldable pub is_reported : List Column → Column → Bool
  unfolding is_sensitive_column_in_context
  is_reported all_cols c =
      let pan_protected = is_pan_protected_in_table (columns_of all_cols c.table_name) in
      is_sensitive_column_in_context c.table_name c.name pan_protected
      && not (is_sql_expiry_column c.name && pan_protected)

  abbrev pub column_findings : Text → List Column → Column → List (Finding × SqlFindingMeta)
  column_findings path all_cols c =
      if not (is_reported all_cols c)
      then []
      else if is_plaintext_string_type c.sql_type
      then (column_finding path c, meta_of c) ∷ (type_finding path c, meta_of c) ∷ []
      else (column_finding path c, meta_of c) ∷ []

  unfoldable pub scan_columns :
      Text → List Column → List Column → List Finding × List SqlFindingMeta
  unfolding is_reported column_finding type_finding
  scan_columns path all_cols [] = ([], [])
  scan_columns path all_cols (c ∷ cols) =
      let (findings, metas) = scan_columns path all_cols cols in
      (
        map (λ p. p.0) (column_findings path all_cols c) ++ findings,
        map (λ p. p.1) (column_findings path all_cols c) ++ metas,
      )

  -- `contents` is what `os.ReadFile` gives; its error is passed on.
  unfoldable pub scan_sql_file_with_meta :
      (Text → List CreateMatch)
      → (Text → List AlterMatch)
      → Text
      → Option Text
      → Option (List Finding × List SqlFindingMeta × ℕ)
  unfolding scan_columns parse_sql_file
  scan_sql_file_with_meta create_table_head alter_add_column path none = none
  scan_sql_file_with_meta create_table_head alter_add_column path (some src) =
      let all_cols = parse_sql_file create_table_head alter_add_column src in
      let (findings, metas) = scan_columns path all_cols all_cols in
      some (findings, metas, newlines src + 1)
