-- ===== src/Sql/CrossRef.antt =====
-- scanner/sqlscanner/sqlscanner.go, `crossRefSQLWithGoEncryption`: the findings of migrations, lowered
-- or dropped where a Go struct encrypts the column.
pub mod Laws
use pci_dss_mcp.Common.{
  ℕ, ◌+◌, ◌-◌, Bool, false, ◌&&◌, ◌||◌, not, Option, none, some, List, [], ◌∷◌, ◌++◌, Text, codes,
  eq_text, ltb, leb, ◌==◌, if◌then◌else◌, length, take, drop, any,
}
use pci_dss_mcp.GoStrings.{to_lower, escape_all, quote, is_empty}
use pci_dss_mcp.Finding.{Finding, Severity}
use pci_dss_mcp.Sql.Keywords.{is_pan_column, is_sensitive_column, is_sql_expiry_column}
use pci_dss_mcp.Sql.FileScan.{rule_sql_sensitive_column, rule_sql_text_type, SqlFindingMeta}

-- The maps are association lists with one entry for a key.
pub record GoEncryptInfo : Type 0 where
  pub table_name : Text
  pub encrypted_fields : List Text
  pub has_encrypt_hook : Bool
  pub column_to_field : List (Text × Text)

unfoldable pub lookup : {V : Type 0} → Text → List (Text × V) → Option V
lookup key [] = none
lookup key ((k, v) ∷ entries) =
    let rest = lookup key entries in if eq_text k key then some v else rest

abbrev pub is_encrypted : GoEncryptInfo → Text → Bool
is_encrypted info field = any (eq_text field) info.encrypted_fields

-- Whether a table is put into `tablesWithPANEncrypt`.
abbrev pub encrypts_pan : GoEncryptInfo → Bool
encrypts_pan info =
    info.has_encrypt_hook
    && any (λ p. is_pan_column p.0 && is_encrypted info p.1) info.column_to_field

-- Whether the hook encrypts the field of a column; a column without a field has the empty name.
abbrev pub field_encrypted : GoEncryptInfo → Option Text → Bool
field_encrypted info none = false
field_encrypted info (some field) = not (is_empty field) && is_encrypted info field

abbrev pub column_encrypted : Option GoEncryptInfo → Text → Bool
column_encrypted none column = false
column_encrypted (some info) column =
    info.has_encrypt_hook && field_encrypted info (lookup (to_lower column) info.column_to_field)

abbrev pub pan_encrypted : Option GoEncryptInfo → Bool
pan_encrypted none = false
pan_encrypted (some info) = encrypts_pan info

-- Whether the index of a finding is put into `suppress`.
unfoldable pub is_suppressed : List (Text × GoEncryptInfo) → Finding → SqlFindingMeta → Bool
unfolding lookup is_sensitive_column
is_suppressed go_encrypt f meta =
    eq_text f.rule_id rule_sql_sensitive_column
    && is_sql_expiry_column meta.column_name
    && pan_encrypted (lookup (to_lower meta.table_name) go_encrypt)

-- The three bytes of the dash in the two texts below.
abbrev em_dash : Text
em_dash = 226 ∷ 128 ∷ 148 ∷ []

-- What the body of the loop leaves of a finding that is not suppressed.
unfoldable pub cross_referenced : List (Text × GoEncryptInfo) → Finding → SqlFindingMeta → Finding
unfolding lookup escape_all
cross_referenced go_encrypt f meta =
    if not (column_encrypted (lookup (to_lower meta.table_name) go_encrypt) meta.column_name)
    then f
    else if eq_text f.rule_id rule_sql_sensitive_column
    then record f {
      severity = Severity.info;
      triage_hint =
          codes
            "App-level encryption detected via gorm BeforeCreate/BeforeSave hook for this field.";
      description =
          codes "Sensitive column "
          ++ (quote meta.column_name
              ++ (codes " declared in SQL schema "
                  ++ (em_dash
                      ++ codes
                          " app-level encryption detected via gorm hook. PCI DSS 3.3.1 forbids storing SAD after authorization; PAN must be rendered unreadable per 3.5.1.")));
    }
    else if eq_text f.rule_id rule_sql_text_type
    then record f {
      severity = Severity.info;
      triage_hint =
          codes "App-level encryption detected via gorm hook "
          ++ (em_dash ++ codes " SQL type is plaintext but data is encrypted before storage.");
    }
    else f

-- The findings of the section with the loop's changes, and the list `suppress`. The loop ends with
-- the section or with the metas.
unfoldable pub cross_loop :
    List (Text × GoEncryptInfo) → ℕ → List Finding → List SqlFindingMeta → List Finding × List ℕ
unfolding is_suppressed cross_referenced
cross_loop go_encrypt i [] metas = ([], [])
cross_loop go_encrypt i (f ∷ section) [] = (f ∷ section, [])
cross_loop go_encrypt i (f ∷ section) (meta ∷ metas) =
    let (findings, suppress) = cross_loop go_encrypt (i + 1) section metas in
    if is_suppressed go_encrypt f meta
    then (f ∷ findings, i ∷ suppress)
    else (cross_referenced go_encrypt f meta ∷ findings, suppress)

-- `append(xs[:i], xs[i+1:]...)`.
abbrev pub delete_at : {A : Type 0} → ℕ → List A → List A
delete_at i xs = take i xs ++ drop (i + 1) xs

-- The loop that deletes from the last index to the first.
unfoldable pub delete_suppressed :
    ℕ → List ℕ → List Finding × List SqlFindingMeta → List Finding × List SqlFindingMeta
delete_suppressed sql_start [] state = state
delete_suppressed sql_start (idx ∷ suppress) state =
    let (findings, metas) = delete_suppressed sql_start suppress state in
    (
      delete_at idx findings,
      if leb sql_start idx && ltb (idx - sql_start) (length metas)
          then delete_at (idx - sql_start) metas
          else metas,
    )

unfoldable pub cross_ref_sql_with_go_encryption :
    List Finding
    → ℕ
    → ℕ
    → List SqlFindingMeta
    → List (Text × GoEncryptInfo)
    → List Finding × List SqlFindingMeta × ℕ
unfolding cross_loop delete_suppressed
cross_ref_sql_with_go_encryption findings sql_start sql_end metas go_encrypt =
    let (section, suppress) =
      cross_loop go_encrypt sql_start (drop sql_start (take sql_end findings)) metas in
    let (left, left_metas) =
      delete_suppressed sql_start suppress
        (take sql_start findings ++ (section ++ drop sql_end findings), metas) in
    if leb sql_end sql_start || length metas == 0
    then (findings, metas, sql_end)
    else (left, left_metas, sql_end - length suppress)
