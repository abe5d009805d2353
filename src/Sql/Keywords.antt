-- ===== src/Sql/Keywords.antt =====
-- scanner/sqlscanner/keywords.go, scanner/panscanner/keywords.go and
-- scanner/internal/sensitivedata: the names of columns that hold card data.
pub mod Laws
use pci_dss_mcp.Common.{
  ◌≡◌, refl, Bool, true, false, ◌&&◌, ◌||◌, not, List, [], ◌∷◌, map, Text, codes, eq_text, ◌==◌,
  if◌then◌else◌, length, drop, any, filter_by,
}
use pci_dss_mcp.Sql.{Column, run_of, trim_quotes_right, trim_quotes}
use pci_dss_mcp.GoStrings.{
  to_lower, lower, contains, has_prefix, is_empty, trim_space, without, is_digit,
}

abbrev pub sensitive_keywords : List Text
sensitive_keywords =
    codes "pan"
    ∷ codes "cvv"
    ∷ codes "cvc"
    ∷ codes "cardnumber"
    ∷ codes "cardnum"
    ∷ codes "creditcard"
    ∷ codes "debitcard"
    ∷ codes "accountnumber"
    ∷ codes "expiry"
    ∷ codes "primaryaccountnumber"
    ∷ codes "securitycode"
    ∷ codes "verificationcode"
    ∷ codes "cardholder"
    ∷ codes "trackdata"
    ∷ codes "track1"
    ∷ codes "track2"
    ∷ codes "magneticstripe"
    ∷ codes "pinblock"
    ∷ []

abbrev pub test_prefixes : List Text
test_prefixes = codes "test" ∷ codes "mock" ∷ codes "fake" ∷ codes "dummy" ∷ codes "stub" ∷ []

unfoldable pub normalize : Text → Text
unfolding lower
normalize name = map lower (filter_by (λ c. not (c == b'_' || c == b'-')) name)

abbrev pub listed : Text → List Text → Bool
listed s texts = any (eq_text s) texts

unfoldable pub is_sensitive_keyword : Text → Bool
unfolding normalize
is_sensitive_keyword name = listed (normalize name) sensitive_keywords

unfoldable pub has_test_prefix : Text → Bool
has_test_prefix name =
    not (is_empty name) && any (λ prefix. has_prefix (to_lower name) prefix) test_prefixes

abbrev pub card_context_keywords : List Text
card_context_keywords = codes "number" ∷ codes "account" ∷ codes "code" ∷ codes "verification" ∷ []

abbrev pub expiry_keywords : List Text
expiry_keywords =
    codes "expmonth"
    ∷ codes "expyear"
    ∷ codes "expirationmonth"
    ∷ codes "expirationyear"
    ∷ codes "month"
    ∷ codes "year"
    ∷ []

abbrev pub sql_expiry_columns : List Text
sql_expiry_columns =
    codes "exp_month"
    ∷ codes "exp_year"
    ∷ codes "expiration_month"
    ∷ codes "expiration_year"
    ∷ codes "exp_date"
    ∷ codes "expiration_date"
    ∷ []

unfoldable pub is_sql_expiry_column : Text → Bool
unfolding run_of trim_quotes_right
is_sql_expiry_column name = listed (to_lower (trim_quotes name)) sql_expiry_columns

abbrev pub card_context_table_keywords : List Text
card_context_table_keywords =
    codes "card"
    ∷ codes "cards"
    ∷ codes "creditcard"
    ∷ codes "creditcards"
    ∷ codes "debitcard"
    ∷ codes "debitcards"
    ∷ codes "paymentmethod"
    ∷ codes "paymentmethods"
    ∷ codes "token"
    ∷ codes "tokens"
    ∷ codes "vault"
    ∷ codes "wallet"
    ∷ []

unfoldable pub is_card_context_table : Text → Bool
unfolding normalize
is_card_context_table name = any (contains (normalize name)) card_context_table_keywords

unfoldable pub is_sensitive_column : Text → Bool
unfolding is_sensitive_keyword
is_sensitive_column name = is_sensitive_keyword name

unfoldable pub is_sensitive_column_in_context : Text → Text → Bool → Bool
unfolding is_sensitive_keyword is_card_context_table normalize
is_sensitive_column_in_context table_name column_name pan_protected =
    if is_sensitive_keyword column_name
    then true
    else if not (is_card_context_table table_name)
    then false
    else if listed (normalize column_name) card_context_keywords
    then true
    else not pan_protected && listed (normalize column_name) expiry_keywords

-- The regular expression of the plaintext types, read as a test.
abbrev pub is_size : Text → Bool
is_size [] = false
is_size (c ∷ s) = c == b'(' && closed false s
  where
    closed : Bool → Text → Bool
    closed some_digit [] = false
    closed some_digit (d ∷ t) =
        let rest = closed true t in
        if is_digit d then rest else (some_digit && d == b')' && is_empty t)

abbrev pub with_optional_size : Text → Text → Bool
with_optional_size t base =
    has_prefix t base && (is_empty (drop (length base) t) || is_size (drop (length base) t))

unfoldable pub is_plaintext_string_type : Text → Bool
unfolding is_digit has_prefix
is_plaintext_string_type t =
    let s : Text = trim_space (to_lower t) in
    eq_text s (codes "text")
    || eq_text s (codes "citext")
    || eq_text s (codes "string")
    || with_optional_size s (codes "varchar")
    || with_optional_size s (codes "character varying")
    || with_optional_size s (codes "char")

pub data Kind : Type 0 where
  kind_unknown kind_pan kind_sad : Kind

-- `sad_matcher` and `pan_matcher` are `MatchString` of the two regular expressions.
unfoldable pub classify : (Text → Bool) → (Text → Bool) → Text → Kind
classify sad_matcher pan_matcher name =
    if is_empty name
    then kind_unknown
    else if sad_matcher name
    then kind_sad
    else if pan_matcher name
    then kind_pan
    else kind_unknown

abbrev pub requirement_of_kind : Kind → Text
requirement_of_kind kind_pan = codes "3.5.1"
requirement_of_kind kind_sad = codes "3.3.1"
requirement_of_kind kind_unknown = codes "3.3.1"

-- `norm` of the loop, and its test.
abbrev pub is_pan_column : Text → Bool
is_pan_column name =
    is_sensitive_column name
    || eq_text (to_lower (without b'-' (without b'_' name))) (codes "number")
    || eq_text (to_lower (without b'-' (without b'_' name))) (codes "account")

unfoldable pub is_pan_protected_in_table : List Column → Bool
unfolding is_sensitive_column
is_pan_protected_in_table [] = true
is_pan_protected_in_table (c ∷ columns) =
    let rest = is_pan_protected_in_table columns in
    if is_pan_column c.name then eq_text (to_lower c.sql_type) (codes "bytea") else rest

type_test : is_plaintext_string_type (codes " VARCHAR(255)") ≡ true
unfolding is_plaintext_string_type trim_space to_lower is_digit has_prefix eq_text
type_test = refl
