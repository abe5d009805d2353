-- ===== src/Payment.antt =====
-- internal/keywords/payment.go and payment_context.go: whether a function handles payments.
pub mod Laws
use pci_dss_mcp.Common.{
  ℕ, ◌+◌, Bool, false, ◌&&◌, ◌||◌, not, Option, none, some, List, [], ◌∷◌, ◌++◌, map, Text, codes,
  eq_text, leb, if◌then◌else◌, any,
}
use pci_dss_mcp.GoStrings.{to_lower, contains, has_prefix, split, is_empty}
use pci_dss_mcp.FilePath.{slash}

abbrev pub payment_path_segments : List Text
payment_path_segments =
    codes "pay"
    ∷ codes "payment"
    ∷ codes "payments"
    ∷ codes "checkout"
    ∷ codes "check-out"
    ∷ codes "card"
    ∷ codes "cards"
    ∷ codes "transaction"
    ∷ codes "transactions"
    ∷ codes "charge"
    ∷ codes "charges"
    ∷ codes "refund"
    ∷ codes "refunds"
    ∷ codes "transfer"
    ∷ codes "transfers"
    ∷ codes "billing"
    ∷ codes "bill"
    ∷ codes "invoice"
    ∷ codes "invoices"
    ∷ codes "order"
    ∷ codes "orders"
    ∷ codes "purchase"
    ∷ codes "purchases"
    ∷ codes "tokenize"
    ∷ codes "detokenize"
    ∷ codes "token"
    ∷ codes "vault"
    ∷ []

abbrev pub payment_func_keywords : List Text
payment_func_keywords =
    codes "pay"
    ∷ codes "payment"
    ∷ codes "card"
    ∷ codes "checkout"
    ∷ codes "transaction"
    ∷ codes "charge"
    ∷ codes "refund"
    ∷ codes "transfer"
    ∷ codes "billing"
    ∷ codes "invoice"
    ∷ codes "purchase"
    ∷ codes "tokenize"
    ∷ codes "detokenize"
    ∷ codes "processcard"
    ∷ codes "handlecard"
    ∷ []

abbrev pub tier1_keywords : List Text
tier1_keywords =
    codes "pay"
    ∷ codes "payment"
    ∷ codes "checkout"
    ∷ codes "charge"
    ∷ codes "transaction"
    ∷ codes "refund"
    ∷ codes "transfer"
    ∷ codes "billing"
    ∷ codes "card"
    ∷ codes "vault"
    ∷ codes "tokenize"
    ∷ []

abbrev pub tier2_keywords : List Text
tier2_keywords =
    codes "invoice" ∷ codes "order" ∷ codes "purchase" ∷ codes "settlement" ∷ codes "merchant" ∷ []

abbrev pub tier3_keywords : List Text
tier3_keywords = codes "callback" ∷ codes "webhook" ∷ codes "notify" ∷ []

abbrev pub shared_path_whitelist : List Text
shared_path_whitelist =
    codes "/payment"
    ∷ codes "/payments"
    ∷ codes "/billing"
    ∷ codes "/checkout"
    ∷ codes "/card"
    ∷ codes "/invoice"
    ∷ codes "/tokens"
    ∷ codes "/transaction"
    ∷ codes "/order"
    ∷ []

abbrev pub payment_sdk_substrings : List Text
payment_sdk_substrings =
    codes "stripe"
    ∷ codes "paypal"
    ∷ codes "go-jose/go-jose"
    ∷ codes "braintree-go-sdk"
    ∷ codes "square/connect"
    ∷ codes "razorpay"
    ∷ codes "mollie"
    ∷ codes "adyen"
    ∷ codes "plaid"
    ∷ codes "checkout.com"
    ∷ []

abbrev pub chd_type_names : List Text
chd_type_names =
    codes "card"
    ∷ codes "pan"
    ∷ codes "token"
    ∷ codes "payment"
    ∷ codes "transaction"
    ∷ codes "invoice"
    ∷ codes "charge"
    ∷ codes "checkout"
    ∷ []

abbrev pub chd_field_names : List Text
chd_field_names =
    codes "pan"
    ∷ codes "cvv"
    ∷ codes "cardnumber"
    ∷ codes "cardnum"
    ∷ codes "expiry"
    ∷ codes "expirydate"
    ∷ codes "cvc"
    ∷ codes "cardholder"
    ∷ []

-- A loop over a list of parts that a text is to contain.
abbrev pub contains_any : List Text → Text → Bool
contains_any parts s = any (contains s) parts

unfoldable pub payment_func_tier : Text → Bool → ℕ
unfolding to_lower contains
payment_func_tier func_name file_tier1_present =
    if contains_any tier1_keywords (to_lower func_name)
    then 1
    else if contains_any tier2_keywords (to_lower func_name)
    then 2
    else if file_tier1_present && contains_any tier3_keywords (to_lower func_name)
    then 3
    else 0

unfoldable pub file_has_tier1_keyword : List Text → Bool
unfolding to_lower contains
file_has_tier1_keyword func_names =
    any (λ name. contains_any tier1_keywords (to_lower name)) func_names

unfoldable pub matches_payment_func_keyword : Text → Bool
unfolding to_lower contains
matches_payment_func_keyword func_name = contains_any payment_func_keywords (to_lower func_name)

unfoldable pub is_payment_path : Text → Bool
unfolding to_lower split
is_payment_path path =
    any
      (λ seg.
        not (is_empty seg) && any (eq_text (to_lower seg)) (map to_lower payment_path_segments))
      (split path slash)

-- The kinds of type expression that the code tells apart.
pub data TypeExpr : Type 0 where
  ident : Text → TypeExpr
  star : TypeExpr → TypeExpr
  selector : Text → TypeExpr
  array_of : TypeExpr → TypeExpr
  indexed : TypeExpr → TypeExpr
  other_type : TypeExpr

-- What the code reads of an `*ast.FuncDecl` with a name: its name, its receiver's type, the name of
-- its file, which is empty without a file set, the types of its parameters, and in its body the types
-- of the `ValueSpec`s that have one and the names of the `SelectorExpr`s.
pub record FuncDecl : Type 0 where
  pub name : Text
  pub receiver : Option TypeExpr
  pub filename : Text
  pub params : List TypeExpr
  pub locals : List TypeExpr
  pub selected : List Text

abbrev pub CachedScore : Type 0
CachedScore = ℕ × List Text

-- `Imports` is a set, in the order of one range over it.
pub record PackageInfo : Type 0 where
  pub dir : Text
  pub imports : List Text
  pub score_cache : List (Text × CachedScore)

abbrev pub payment_context_threshold : ℕ
payment_context_threshold = 2

unfoldable pub star_before : Text → Text
star_before inner = if is_empty inner then [] else b'*' ∷ inner

unfoldable pub receiver_type_name : TypeExpr → Text
unfolding star_before
receiver_type_name (ident n) = n
receiver_type_name (star t) = star_before (receiver_type_name t)
receiver_type_name (selector n) = []
receiver_type_name (array_of t) = []
receiver_type_name (indexed t) = receiver_type_name t ++ codes "[]"
receiver_type_name other_type = []

abbrev pub receiver_text : Option TypeExpr → Text
receiver_text none = []
receiver_text (some t) = receiver_type_name t

unfoldable pub score_cache_key : FuncDecl → Text
unfolding receiver_type_name
score_cache_key fn =
    fn.filename ++ (codes "#" ++ (receiver_text fn.receiver ++ (codes "." ++ fn.name)))

unfoldable pub type_expr_name : TypeExpr → Text
type_expr_name (ident n) = n
type_expr_name (star t) = type_expr_name t
type_expr_name (selector n) = n
type_expr_name (array_of t) = type_expr_name t
type_expr_name (indexed t) = []
type_expr_name other_type = []

unfoldable pub type_expr_matches_chd : TypeExpr → Bool
unfolding type_expr_name to_lower contains
type_expr_matches_chd t =
    not (is_empty (type_expr_name t)) && contains_any chd_type_names (to_lower (type_expr_name t))

unfoldable pub chd_type_in_signature : FuncDecl → Bool
unfolding type_expr_matches_chd
chd_type_in_signature fn = any type_expr_matches_chd fn.params

unfoldable pub chd_type_in_locals : FuncDecl → Bool
unfolding type_expr_matches_chd
chd_type_in_locals fn = any type_expr_matches_chd fn.locals

unfoldable pub chd_field_in_body : FuncDecl → Bool
unfolding to_lower contains
chd_field_in_body fn = any (λ n. contains_any chd_field_names (to_lower n)) fn.selected

unfoldable pub has_sdk_import : List Text → Bool
unfolding to_lower contains
has_sdk_import imports = any (λ imp. contains_any payment_sdk_substrings (to_lower imp)) imports

unfoldable pub has_internal_payment_import : List Text → Bool
unfolding to_lower contains
has_internal_payment_import imports =
    any (λ imp. contains_any shared_path_whitelist (to_lower imp)) imports

abbrev pub rooted : Text → Text
rooted dir = if has_prefix dir (codes "/") then dir else b'/' ∷ dir

unfoldable pub in_payment_dir : Text → Bool
unfolding to_lower contains has_prefix
in_payment_dir dir =
    not (is_empty dir) && contains_any shared_path_whitelist (rooted (to_lower dir))

-- The signals that read the package, with no package.
abbrev pub of_package : (PackageInfo → Bool) → Option PackageInfo → Bool
of_package test none = false
of_package test (some pkg) = test pkg

-- One `if` of the scorer.
abbrev pub signal : Bool → ℕ → Text → CachedScore → CachedScore
signal fires weight name (score, signals) =
    if fires then (score + weight, signals ++ name ∷ []) else (score, signals)

-- The six signals in their order.
abbrev pub scored : Bool → Bool → Bool → Bool → Bool → Bool → CachedScore
scored in_name in_path in_sdk in_param in_field in_import =
    signal in_import 2 (codes "internal-import") (
      signal in_field 2 (codes "chd-field") (
        signal in_param 2 (codes "chd-param") (
          signal in_sdk 3 (codes "sdk")
            (signal in_path 2 (codes "path") (signal in_name 2 (codes "name") (0, []))))))

-- The scorer without its cache.
unfoldable pub signals_of : FuncDecl → Option PackageInfo → CachedScore
unfolding matches_payment_func_keyword in_payment_dir has_sdk_import chd_type_in_signature
    chd_type_in_locals chd_field_in_body has_internal_payment_import
signals_of fn pkg =
    scored (matches_payment_func_keyword fn.name) (of_package (λ p. in_payment_dir p.dir) pkg)
      (of_package (λ p. has_sdk_import p.imports) pkg)
      (chd_type_in_signature fn || chd_type_in_locals fn) (chd_field_in_body fn)
      (of_package (λ p. has_internal_payment_import p.imports) pkg)

unfoldable pub lookup_score : Text → List (Text × CachedScore) → Option CachedScore
lookup_score key [] = none
lookup_score key ((k, v) ∷ entries) =
    let rest = lookup_score key entries in if eq_text k key then some v else rest

abbrev pub cached_or_scored :
    FuncDecl → PackageInfo → Option CachedScore → CachedScore × Option PackageInfo
cached_or_scored fn pkg (some hit) = (hit, some pkg)
cached_or_scored fn pkg none = (
  signals_of fn (some pkg),
  some (record pkg {
    score_cache = (score_cache_key fn, signals_of fn (some pkg)) ∷ pkg.score_cache;
  }),
)

-- With the package that it leaves, whose cache may have a new entry. A package that has no cache is
-- none that `PackageInfoFromFile` makes.
unfoldable pub payment_context_score_internal :
    Option FuncDecl → Option PackageInfo → CachedScore × Option PackageInfo
unfolding lookup_score signals_of score_cache_key
payment_context_score_internal none pkg = ((0, []), pkg)
payment_context_score_internal (some fn) none = (signals_of fn none, none)
payment_context_score_internal (some fn) (some pkg) =
    cached_or_scored fn pkg (lookup_score (score_cache_key fn) pkg.score_cache)

unfoldable pub payment_context_score : Option FuncDecl → Option PackageInfo → ℕ × Option PackageInfo
unfolding payment_context_score_internal
payment_context_score fn pkg =
    let ((score, signals), left) = payment_context_score_internal fn pkg in (score, left)

unfoldable pub is_payment_context : Option FuncDecl → Option PackageInfo → Bool × Option PackageInfo
unfolding payment_context_score
is_payment_context fn pkg =
    let (score, left) = payment_context_score fn pkg in (leb payment_context_threshold score, left)

-- The calls of a scanner for the functions of one package, one after the other.
unfoldable pub payment_contexts : List FuncDecl → Option PackageInfo → List Bool
unfolding is_payment_context
payment_contexts [] pkg = []
payment_contexts (fn ∷ fns) pkg =
    let (result, left) = is_payment_context (some fn) pkg in result ∷ payment_contexts fns left
