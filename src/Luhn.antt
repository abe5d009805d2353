-- ===== src/Luhn.antt =====
-- scanner/panscanner/luhn.go: which digit strings look like a card number.
pub mod Detection
use mathlib.Core.List.{reverse}
use pci_dss_mcp.Common.{
  ℕ, ◌+◌, ◌-◌, ◌*◌, ◌%◌, ◌≡◌, refl, Bool, true, false, ◌&&◌, ◌||◌, not, Option, none, some, List,
  [], ◌∷◌, Text, codes, ltb, leb, ◌==◌, if◌then◌else◌, length, take, any, filter_by,
}
use pci_dss_mcp.GoStrings.{has_prefix, atoi, is_digit, is_empty}

-- What one digit adds to the sum; every second one counts double.
unfoldable pub luhn_digit : Bool → ℕ → ℕ
luhn_digit false digit = digit
luhn_digit true digit = if ltb 9 (digit * 2) then digit * 2 - 9 else digit * 2

-- The loop from the right, over the reversed text; `none` is the early `return false`.
unfoldable pub luhn_sum : Bool → ℕ → Text → Option ℕ
unfolding luhn_digit is_digit
luhn_sum double sum [] = some sum
luhn_sum double sum (d ∷ number) =
    let rest = luhn_sum (not double) (sum + luhn_digit double (d - b'0')) number in
    if is_digit d then rest else none

abbrev pub divisible_by_ten : Option ℕ → Bool
divisible_by_ten none = false
divisible_by_ten (some sum) = sum % 10 == 0

unfoldable pub luhn_valid : Text → Bool
unfolding luhn_sum
luhn_valid number =
    let n = length number in
    let sum = luhn_sum false 0 (reverse number) in
    if ltb n 13 || ltb 19 n then false else divisible_by_ten sum

-- A brand: a range for the first `digit_len` digits, or fixed prefixes, and the lengths.
pub record IinRule : Type 0 where
  pub digit_len : ℕ
  pub range_lo : ℕ
  pub range_hi : ℕ
  pub fixed_prefixes : List Text
  pub lengths : List ℕ

abbrev ranged : ℕ → ℕ → ℕ → List ℕ → IinRule
ranged n lo hi lengths = record {
  digit_len = n;
  range_lo = lo;
  range_hi = hi;
  fixed_prefixes = [];
  lengths = lengths;
}

abbrev prefixed : List Text → List ℕ → IinRule
prefixed prefixes lengths = record {
  digit_len = 0;
  range_lo = 0;
  range_hi = 0;
  fixed_prefixes = prefixes;
  lengths = lengths;
}

abbrev sixteen_up : List ℕ
sixteen_up = 16 ∷ 17 ∷ 18 ∷ 19 ∷ []

-- Visa, Mastercard, Mastercard 2-series, Amex, Discover three times, JCB.
abbrev pub iin_rules : List IinRule
iin_rules =
    ranged 1 4 4 (13 ∷ 16 ∷ 19 ∷ [])
    ∷ ranged 2 51 55 (16 ∷ [])
    ∷ ranged 4 2221 2720 (16 ∷ [])
    ∷ prefixed (codes "34" ∷ codes "37" ∷ []) (15 ∷ [])
    ∷ prefixed (codes "6011" ∷ []) sixteen_up
    ∷ ranged 3 644 649 sixteen_up
    ∷ prefixed (codes "65" ∷ []) sixteen_up
    ∷ ranged 4 3528 3589 sixteen_up
    ∷ []

unfoldable pub contains_int : List ℕ → ℕ → Bool
contains_int xs v = any (λ x. x == v) xs

abbrev within : Option ℕ → ℕ → ℕ → Bool
within none lo hi = false
within (some prefix) lo hi = leb lo prefix && leb prefix hi

unfoldable pub matches_iin_rule : Text → ℕ → IinRule → Bool
unfolding contains_int has_prefix atoi
matches_iin_rule number n rule =
    if not (contains_int rule.lengths n)
    then false
    else if not (is_empty rule.fixed_prefixes)
    then any (λ p. has_prefix number p) rule.fixed_prefixes
    else if rule.digit_len == 0 || ltb (length number) rule.digit_len
    then false
    else within (atoi (take rule.digit_len number)) rule.range_lo rule.range_hi

unfoldable pub matches_iin_prefix : Text → Bool
unfolding matches_iin_rule
matches_iin_prefix number =
    let n = length number in
    if ltb n 13 || ltb 19 n then false else any (λ rule. matches_iin_rule number n rule) iin_rules

unfoldable pub is_likely_pan : Text → Bool
unfolding luhn_valid matches_iin_prefix
is_likely_pan number = luhn_valid number && matches_iin_prefix number

unfoldable pub extract_digits : Text → Text
unfolding is_digit
extract_digits s = filter_by is_digit s

visa_test : is_likely_pan (codes "4111111111111111") ≡ true
unfolding is_likely_pan
visa_test = refl

amex_test : is_likely_pan (codes "378282246310005") ≡ true
unfolding is_likely_pan
amex_test = refl

wrong_test : is_likely_pan (codes "4111111111111112") ≡ false
unfolding is_likely_pan
wrong_test = refl
