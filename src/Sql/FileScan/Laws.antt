-- ===== src/Sql/FileScan/Laws.antt =====
-- Theorems on `scanSQLFileWithMeta`.
use pci_dss_mcp.Common.{
  ℕ, ◌+◌, ◌≤◌, ◌≡◌, refl, ◌⊎◌, inl, inr, Bool, true, false, ◌&&◌, Option, none, some, List, [], ◌∷◌,
  arith, Text, eq_text, Bool-cases, count_by, All,
}
use pci_dss_mcp.Finding.{Finding, Severity}
use pci_dss_mcp.Sql.{Column, newlines, CreateMatch, AlterMatch, parse_sql_file}
use pci_dss_mcp.Sql.Keywords.{is_plaintext_string_type}
use pci_dss_mcp.Sql.Lines.{parse_sql_file_lem}
use pci_dss_mcp.Sql.FileScan.{
  rule_sql_sensitive_column, rule_sql_text_type, SqlFindingMeta, meta_of, column_finding,
  type_finding, requirement_for_sql_column, is_reported, scan_columns, scan_sql_file_with_meta,
}

-- One of a list of columns.
abbrev pub IsListed : Column → List Column → Type 0
IsListed c [] = ⊥
IsListed c (d ∷ cols) = (d ≡ c) ⊎ IsListed c cols

-- The two lists have the same length, and the entries in the same place belong together.
abbrev pub InLockstep :
    (Finding → SqlFindingMeta → Type 0) → List Finding → List SqlFindingMeta → Type 0
InLockstep P [] [] = Unit
InLockstep P [] (m ∷ metas) = ⊥
InLockstep P (f ∷ findings) [] = ⊥
InLockstep P (f ∷ findings) (m ∷ metas) = P f m × InLockstep P findings metas

abbrev pub of_rule : Text → Finding → Bool
of_rule rule f = eq_text f.rule_id rule

module _ (sad_matcher pan_matcher : Text → Bool) where
  -- A finding and its meta: what the rules of the file say of one column that is reported.
  abbrev pub IsColumnReport :
      Text → ℕ → List Column → List Column → Finding → SqlFindingMeta → Type 0
  IsColumnReport path lines all_cols cols f meta =
      (c : Column) × IsListed c cols
      × (is_reported sad_matcher pan_matcher all_cols c ≡ true)
      × (meta.table_name ≡ c.table_name)
      × (meta.column_name ≡ c.name)
      × (f.file_path ≡ path)
      × (f.line ≡ c.line)
      × (1 ≤ f.line)
      × (f.line ≤ lines)
      × (((f.rule_id ≡ rule_sql_sensitive_column)
            × (f.severity ≡ Severity.high)
            × (f.requirement_id ≡ requirement_for_sql_column sad_matcher pan_matcher c.name))
          ⊎ ((f.rule_id ≡ rule_sql_text_type)
              × (f.severity ≡ Severity.medium)
              × (is_plaintext_string_type c.sql_type ≡ true)))

  abbrev pub ScanContract :
      Text → ℕ → List Column → List Column → List Finding × List SqlFindingMeta → Type 0
  ScanContract path lines all_cols cols (findings, metas) =
      InLockstep (IsColumnReport path lines all_cols cols) findings metas
      × (count_by (of_rule rule_sql_sensitive_column) findings
          ≡ count_by (is_reported sad_matcher pan_matcher all_cols) cols)
      × (count_by (of_rule rule_sql_text_type) findings
          ≡ count_by
              (λ c.
                is_reported sad_matcher pan_matcher all_cols c
                && is_plaintext_string_type c.sql_type)
              cols)

  abbrev pub FileContract :
      Text → ℕ → List Column → Option (List Finding × List SqlFindingMeta × ℕ) → Type 0
  FileContract path lines cols none = ⊥
  FileContract path lines cols (some (findings, metas, n)) =
      (n ≡ lines) × ScanContract path lines cols cols (findings, metas)

  column_finding-of_rule :
      (path : Text) (c : Column)
      → (of_rule rule_sql_sensitive_column (column_finding sad_matcher pan_matcher path c) ≡ true)
        × (of_rule rule_sql_text_type (column_finding sad_matcher pan_matcher path c) ≡ false)
  unfolding column_finding eq_text
  column_finding-of_rule path c = (refl, refl)

  type_finding-of_rule :
      (path : Text) (c : Column)
      → (of_rule rule_sql_sensitive_column (type_finding sad_matcher pan_matcher path c) ≡ false)
        × (of_rule rule_sql_text_type (type_finding sad_matcher pan_matcher path c) ≡ true)
  unfolding type_finding eq_text
  type_finding-of_rule path c = (refl, refl)

  column_finding-IsColumnReport :
      (path : Text) (lines : ℕ) (all_cols cols : List Column) (c : Column)
      → (1 ≤ c.line) × (c.line ≤ lines)
      → is_reported sad_matcher pan_matcher all_cols c ≡ true
      → IsColumnReport path lines all_cols
          (c ∷ cols)
          (column_finding sad_matcher pan_matcher path c)
          (meta_of c)
  unfolding column_finding
  column_finding-IsColumnReport path lines all_cols cols c (l, h) e =
      (c, inl refl, e, refl, refl, refl, refl, l, h, inl (refl, refl, refl))

  type_finding-IsColumnReport :
      (path : Text) (lines : ℕ) (all_cols cols : List Column) (c : Column)
      → (1 ≤ c.line) × (c.line ≤ lines)
      → is_reported sad_matcher pan_matcher all_cols c ≡ true
      → is_plaintext_string_type c.sql_type ≡ true
      → IsColumnReport path lines all_cols
          (c ∷ cols)
          (type_finding sad_matcher pan_matcher path c)
          (meta_of c)
  unfolding type_finding
  type_finding-IsColumnReport path lines all_cols cols c (l, h) e p =
      (c, inl refl, e, refl, refl, refl, refl, l, h, inr (refl, refl, p))

  InLockstep-cons :
      (path : Text) (lines : ℕ) (all_cols cols : List Column) (c : Column) (findings : List Finding)
      (metas : List SqlFindingMeta)
      → InLockstep (IsColumnReport path lines all_cols cols) findings metas
      → InLockstep (IsColumnReport path lines all_cols (c ∷ cols)) findings metas
  InLockstep-cons path lines all_cols cols c [] [] h = tt
  InLockstep-cons path lines all_cols cols c [] (m ∷ metas) h = elim h [ ]
  InLockstep-cons path lines all_cols cols c (f ∷ findings) [] h = elim h [ ]
  InLockstep-cons path lines all_cols cols c (f ∷ findings) (m ∷ metas)
        ((d, listed, e, t, n, file, l, low, high, rule), hs) =
      (
        (d, inr listed, e, t, n, file, l, low, high, rule),
        InLockstep-cons path lines all_cols cols c findings metas hs,
      )

  scan_columns-ScanContract :
      (path : Text) (lines : ℕ) (all_cols cols : List Column)
      → All (λ (c : Column). (1 ≤ c.line) × (c.line ≤ lines)) cols
      → ScanContract path lines all_cols cols
          (scan_columns sad_matcher pan_matcher path all_cols cols)
  unfolding scan_columns
  scan_columns-ScanContract path lines all_cols [] h = (tt, refl, refl)
  scan_columns-ScanContract path lines all_cols (c ∷ cols) (l, h) =
      let (before, columns, types) = scan_columns-ScanContract path lines all_cols cols h in
      let lock = InLockstep-cons path lines all_cols cols c _ _ before in
      elim (Bool-cases (is_reported sad_matcher pan_matcher all_cols c)) [
        | inr e ↦ rw e (lock, omega arith, omega arith)
        | inl e ↦ elim (Bool-cases (is_plaintext_string_type c.sql_type)) [
          | inl p ↦
              rw
                (
                  e,
                  p,
                  (column_finding-of_rule path c).0,
                  (column_finding-of_rule path c).1,
                  (type_finding-of_rule path c).0,
                  (type_finding-of_rule path c).1,
                )
                (
                  (
                    column_finding-IsColumnReport path lines all_cols cols c l e,
                    (type_finding-IsColumnReport path lines all_cols cols c l e p, lock),
                  ),
                  omega arith,
                  omega arith,
                )
          | inr p ↦
              rw (e, p, (column_finding-of_rule path c).0, (column_finding-of_rule path c).1)
                (
                  (column_finding-IsColumnReport path lines all_cols cols c l e, lock),
                  omega arith,
                  omega arith,
                )
        ]
      ]

  -- Of a file that can be read, there are as many findings as metas, and each finding with the meta in
  -- its place is of one column of the file that is reported: the meta names its table and itself, the
  -- finding is on its line, which is a line of the file, and under one of two rules, the one for
  -- sensitive columns, which is HIGH and has the requirement for the column's name, or the one for text
  -- types, which is MEDIUM, if the column's type is a plaintext type. There are as many findings of the
  -- first rule as columns that are reported, and as many of the second as those of a plaintext type;
  -- the line count is one more than the newlines.
  pub scan_sql_file_with_meta_lem :
      (create_table_head : Text → List CreateMatch) (alter_add_column : Text → List AlterMatch)
      (path src : Text)
      → FileContract path
          (newlines src + 1)
          (parse_sql_file create_table_head alter_add_column src)
          (scan_sql_file_with_meta sad_matcher pan_matcher create_table_head alter_add_column path
            (some src))
  unfolding scan_sql_file_with_meta
  scan_sql_file_with_meta_lem create_table_head alter_add_column path src = (
    refl,
    scan_columns-ScanContract path (newlines src + 1) _ _
        (turned _ (parse_sql_file_lem create_table_head alter_add_column src)),
  )
    where
      turned :
          (cols : List Column)
          → All (λ (c : Column). (1 ≤ c.line) × (c.line ≤ 1 + newlines src)) cols
          → All (λ (c : Column). (1 ≤ c.line) × (c.line ≤ newlines src + 1)) cols
      turned [] h = tt
      turned (c ∷ cols) (l, h) = ((l.0, omega arith), turned cols h)
