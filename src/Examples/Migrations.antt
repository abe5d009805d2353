-- ===== src/Examples/Migrations.antt =====
-- The SQL scanner at concrete inputs.
use pci_dss_mcp.Common.{
  ℕ, ◌+◌, ◌≤◌, ◌≡◌, refl, Bool, true, false, some, List, [], ◌∷◌, ◌++◌, Text, codes, length, take,
  drop, All,
}
use pci_dss_mcp.Finding.{Finding, Severity}
use pci_dss_mcp.Examples.Data.{finding_at}
use pci_dss_mcp.GoStrings.{contains}
use pci_dss_mcp.Sql.{
  Column, CreateMatch, AlterMatch, line_comment, newlines, strip_line_comments, find_matching_close,
  parse_sql_file,
}
use pci_dss_mcp.Sql.Comments.{Blanks, strip_line_comments_lem}
use pci_dss_mcp.Sql.Lines.{CloseContract, parse_sql_file_lem, find_matching_close_lem}
use pci_dss_mcp.Sql.FileScan.{
  rule_sql_sensitive_column, rule_sql_text_type, SqlFindingMeta, scan_sql_file_with_meta,
}
use pci_dss_mcp.Sql.FileScan.Laws.{FileContract, scan_sql_file_with_meta_lem}
use pci_dss_mcp.Sql.CrossRef.{GoEncryptInfo, cross_ref_sql_with_go_encryption}
use pci_dss_mcp.Sql.CrossRef.Laws.{
  kept, kept_findings, kept_metas, cross_ref_sql_with_go_encryption_lem,
}
use pci_dss_mcp.Sql.Drop.{Outside, apply_migration_drop_downgrade}
use pci_dss_mcp.Sql.Drop.Laws.{all_downgraded, apply_migration_drop_downgrade_lem}

abbrev migration : Text
migration = codes "CREATE TABLE cards ( -- all\n  pan text,\n  exp_date text\n);"

strip_line_comments_lem_example :
    Blanks migration (strip_line_comments migration)
    × (length (strip_line_comments migration) ≡ length migration)
    × ((n : ℕ) → newlines (take n (strip_line_comments migration)) ≡ newlines (take n migration))
    × (contains (strip_line_comments migration) line_comment ≡ false)
strip_line_comments_lem_example = strip_line_comments_lem migration

find_matching_close_lem_example :
    CloseContract 1 2 (drop 2 (codes "f(a(b)c)")) (find_matching_close (codes "f(a(b)c)") 2)
find_matching_close_lem_example = find_matching_close_lem (codes "f(a(b)c)") 2

-- The one match of the first expression in the migration, and none of the second.
abbrev head_match : Text → List CreateMatch
head_match s = record { match_end = 20; table_start = 13; table_end = 18 } ∷ []

abbrev no_match : Text → List AlterMatch
no_match s = []

parse_sql_file_lem_example :
    All
      (λ (c : Column). (1 ≤ c.line) × (c.line ≤ 1 + newlines migration))
      (parse_sql_file head_match no_match migration)
parse_sql_file_lem_example = parse_sql_file_lem head_match no_match migration

abbrev never : Text → Bool
never s = false

scan_sql_file_with_meta_lem_example :
    FileContract never never
      (codes "/m/1.sql")
      (newlines migration + 1)
      (parse_sql_file head_match no_match migration)
      (scan_sql_file_with_meta never never head_match no_match (codes "/m/1.sql") (some migration))
scan_sql_file_with_meta_lem_example =
    scan_sql_file_with_meta_lem never never head_match no_match (codes "/m/1.sql") migration

abbrev migration_path : Text
migration_path = codes "/r/migrations/001_a.sql"

abbrev column_section : List Finding
column_section =
    finding_at rule_sql_sensitive_column Severity.high migration_path 2
    ∷ finding_at rule_sql_text_type Severity.medium migration_path 2
    ∷ []

abbrev pan_metas : List SqlFindingMeta
pan_metas =
    record { table_name = codes "cards"; column_name = codes "exp_date" }
    ∷ record { table_name = codes "cards"; column_name = codes "pan" }
    ∷ []

abbrev encrypted_cards : List (Text × GoEncryptInfo)
encrypted_cards =
    (
      codes "cards",
      record {
        table_name = codes "cards";
        encrypted_fields = codes "Pan" ∷ [];
        has_encrypt_hook = true;
        column_to_field = (codes "pan", codes "Pan") ∷ [];
      },
    )
    ∷ []

abbrev other_finding : Finding
other_finding = finding_at (codes "A") Severity.low (codes "/r/a.go") 2

cross_ref_sql_with_go_encryption_lem_example :
    cross_ref_sql_with_go_encryption
      (other_finding ∷ (column_section ++ other_finding ∷ []))
      1
      (1 + 2)
      pan_metas
      encrypted_cards
    ≡ (
      other_finding
          ∷ (kept_findings encrypted_cards column_section pan_metas ++ other_finding ∷ []),
      kept_metas encrypted_cards column_section pan_metas,
      1 + length (kept encrypted_cards column_section pan_metas),
    )
cross_ref_sql_with_go_encryption_lem_example =
    cross_ref_sql_with_go_encryption_lem encrypted_cards (other_finding ∷ []) column_section
      (other_finding ∷ []) pan_metas refl

-- Two migrations, the second of which drops every column.
abbrev two_migrations : Outside
two_migrations = record {
  read_dir = λ folder. some (
      record { name = codes "001_a.sql"; is_dir = false }
      ∷ record { name = codes "002_b.sql"; is_dir = false }
      ∷ []);
  read_file = λ path. some (codes "DROP");
  migration_ts = λ name. some (take 3 name);
  sort_by_ts = λ files. files;
  drops = λ column src. true;
  adds = λ column src. false;
  adds_by_alter = λ column src. false;
}

apply_migration_drop_downgrade_lem_example :
    apply_migration_drop_downgrade two_migrations
      (other_finding ∷ (column_section ++ other_finding ∷ []))
      pan_metas
      1
      (1 + 2)
    ≡ other_finding ∷ (all_downgraded two_migrations column_section pan_metas ++ other_finding ∷ [])
apply_migration_drop_downgrade_lem_example =
    apply_migration_drop_downgrade_lem two_migrations (other_finding ∷ []) column_section
      (other_finding ∷ []) pan_metas refl
