-- ===== src/Sql/Keywords/Laws.antt =====
-- Theorems on the names of columns.
use pci_dss_mcp.Common.{◌≡◌, ◌↔◌, Bool, true, false, ◌&&◌, ◌||◌, not, arith, Text, if◌then◌else◌}
use pci_dss_mcp.Sql.Keywords.{
  normalize, is_sensitive_keyword, listed, card_context_keywords, expiry_keywords,
  is_card_context_table, is_sensitive_column_in_context,
}

-- A column is reported exactly where its name is one of the keywords, or its table is one of cards
-- and its name is a card word or, with the card number unprotected, a word of an expiry date. So
-- protecting the card number never adds a report.
pub is_sensitive_column_in_context_lem :
    (table_name column_name : Text) (pan_protected : Bool)
    → ((is_sensitive_column_in_context table_name column_name pan_protected ≡ true) ↔ (
        (is_sensitive_keyword column_name
          || (is_card_context_table table_name
              && (listed (normalize column_name) card_context_keywords
                  || (not pan_protected && listed (normalize column_name) expiry_keywords))))
        ≡ true))
      × (is_sensitive_column_in_context table_name column_name true ≡ true
          → is_sensitive_column_in_context table_name column_name pan_protected ≡ true)
unfolding is_sensitive_column_in_context
is_sensitive_column_in_context_lem table_name column_name pan_protected =
    cases (is_sensitive_keyword column_name) (is_card_context_table table_name)
      (listed (normalize column_name) card_context_keywords)
      (listed (normalize column_name) expiry_keywords) pan_protected
  where
    cases :
        (a b c d p : Bool)
        → ((◌≡◌ {A = Bool}
              (if a then true else if not b then false else if c then true else not p && d)
              true)
            ↔ ((a || (b && (c || (not p && d)))) ≡ true))
          × (◌≡◌ {A = Bool}
                (if a then true else if not b then false else if c then true else false)
                true
              → ◌≡◌ {A = Bool}
                  (if a then true else if not b then false else if c then true else not p && d)
                  true)
    cases a b c d p = ground arith
