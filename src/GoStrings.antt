-- ===== src/GoStrings.antt =====
-- The functions of Go's package `strings` (and `strconv.Atoi`) that the program calls, on texts of
-- ASCII bytes. The argument order is Go's.
use mathlib.Core.Option
use pci_dss_mcp.Common.{
  ℕ, zero, suc, ◌+◌, ◌-◌, ◌*◌, ◌/◌, ◌%◌, ◌^◌, Bool, true, false, ◌&&◌, ◌||◌, List, [], ◌∷◌, ◌++◌,
  map, Option, none, some, Text, codes, eq_text, leb, ◌==◌, if◌then◌else◌, length, drop, filter_by,
  not, ◌≡◌, refl,
}

unfoldable pub has_prefix : Text → Text → Bool
has_prefix s [] = true
has_prefix [] (p ∷ ps) = false
has_prefix (c ∷ s) (p ∷ ps) = c == p && has_prefix s ps

unfoldable pub has_suffix : Text → Text → Bool
has_suffix [] suffix = eq_text [] suffix
has_suffix (c ∷ s) suffix = eq_text (c ∷ s) suffix || has_suffix s suffix

unfoldable pub trim_prefix : Text → Text → Text
unfolding has_prefix
trim_prefix s prefix = if has_prefix s prefix then drop (length prefix) s else s

unfoldable pub trim_suffix : Text → Text → Text
trim_suffix [] suffix = []
trim_suffix (c ∷ s) suffix =
    let rest = c ∷ trim_suffix s suffix in if eq_text (c ∷ s) suffix then [] else rest

-- The place of the first occurrence; Go's -1 is `none`.
unfoldable pub index : Text → Text → Option ℕ
unfolding has_prefix
index [] sub = if has_prefix [] sub then some 0 else none
index (c ∷ s) sub =
    let later = Option.map suc (index s sub) in if has_prefix (c ∷ s) sub then some 0 else later

unfoldable pub contains : Text → Text → Bool
unfolding has_prefix
contains [] sub = has_prefix [] sub
contains (c ∷ s) sub = has_prefix (c ∷ s) sub || contains s sub

-- `LastIndex` of one byte, given with the texts before and behind it.
unfoldable pub cut_last : ℕ → Text → Option (Text × Text)
cut_last sep [] = none
cut_last sep (c ∷ s) = elim (cut_last sep s) [
  | some (before, after) ↦ some (c ∷ before, after)
  | none ↦ if c == sep then some ([], s) else none
]

-- `Split` by a separator of one byte: there is always at least one part.
abbrev pub prepend : ℕ → List Text → List Text
prepend c [] = (c ∷ []) ∷ []
prepend c (p ∷ ps) = (c ∷ p) ∷ ps

unfoldable pub split : Text → ℕ → List Text
split [] sep = [] ∷ []
split (c ∷ s) sep = let rest = split s sep in if c == sep then [] ∷ rest else prepend c rest

unfoldable pub join : List Text → Text → Text
join [] sep = []
join (p ∷ []) sep = p
join (p ∷ q ∷ ps) sep = p ++ (sep ++ join (q ∷ ps) sep)

unfoldable pub is_space : ℕ → Bool
is_space c = (leb 9 c && leb c 13) || c == 32

unfoldable pub trim_left : Text → Text
unfolding is_space
trim_left [] = []
trim_left (c ∷ s) = let rest = trim_left s in if is_space c then rest else c ∷ s

abbrev pub is_empty {ℓ} : {A : Type ℓ} → List A → Bool
is_empty [] = true
is_empty (_ ∷ _) = false

unfoldable pub trim_right : Text → Text
unfolding is_space
trim_right [] = []
trim_right (c ∷ s) = let rest = trim_right s in if is_space c && is_empty rest then [] else c ∷ rest

unfoldable pub trim_space : Text → Text
unfolding trim_left trim_right
trim_space s = trim_right (trim_left s)

-- `Fields`: the words between runs of space.
unfoldable pub fields_from : Text → Text → List Text
unfolding is_space
fields_from [] word = if is_empty word then [] else word ∷ []
fields_from (c ∷ s) word =
    let close = (let rest = fields_from s [] in if is_empty word then rest else word ∷ rest) in
    let open' = fields_from s (word ++ c ∷ []) in if is_space c then close else open'

unfoldable pub fields : Text → List Text
unfolding fields_from
fields s = fields_from s []

unfoldable pub lower : ℕ → ℕ
lower c = if leb b'A' c && leb c b'Z' then c + 32 else c

unfoldable pub upper : ℕ → ℕ
upper c = if leb b'a' c && leb c b'z' then c - 32 else c

unfoldable pub to_lower : Text → Text
unfolding lower
to_lower s = map lower s

unfoldable pub to_upper : Text → Text
unfolding upper
to_upper s = map upper s

-- `EqualFold` on ASCII.
unfoldable pub equal_fold : Text → Text → Bool
unfolding to_lower
equal_fold s t = eq_text (to_lower s) (to_lower t)

unfoldable pub is_digit : ℕ → Bool
is_digit c = leb b'0' c && leb c b'9'

-- The number that digits spell behind `n`.
unfoldable pub digits_value : ℕ → Text → Option ℕ
unfolding is_digit
digits_value n [] = some n
digits_value n (c ∷ s) =
    let rest = digits_value (n * 10 + (c - b'0')) s in if is_digit c then rest else none

abbrev pub max_int : ℕ
max_int = 2 ^ 63 - 1

abbrev in_range : Option ℕ → Option ℕ
in_range none = none
in_range (some n) = if leb n max_int then some n else none

-- `strconv.Atoi`, for the callers that read the result only where it is positive or zero: `none`
-- stands for an error and for a negative number alike.
unfoldable pub atoi : Text → Option ℕ
unfolding digits_value
atoi [] = none
atoi (c ∷ []) = in_range (digits_value 0 (c ∷ []))
atoi (c ∷ d ∷ s) = in_range (digits_value 0 (if c == b'+' then d ∷ s else c ∷ d ∷ s))

-- `strconv.Itoa` of a natural number, with the number of digits as fuel.
unfoldable pub digits_from : ℕ → ℕ → Text → Text
digits_from zero n out = out
digits_from (suc fuel) n out =
    let q = n / 10 in
    let more = digits_from fuel q ((b'0' + n % 10) ∷ out) in if n == 0 then out else more

unfoldable pub itoa : ℕ → Text
unfolding digits_from
itoa n = if n == 0 then b'0' ∷ [] else digits_from n n []

-- `strconv.Quote` of a text of ASCII bytes, which the verb `%q` writes.
abbrev pub hex_digit : ℕ → ℕ
hex_digit d = if leb d 9 then b'0' + d else b'a' + (d - 10)

abbrev pub escaped : ℕ → Text
escaped c =
    if c == 34 || c == 92
    then 92 ∷ c ∷ []
    else if c == 7
    then codes "\\a"
    else if c == 8
    then codes "\\b"
    else if c == 9
    then codes "\\t"
    else if c == 10
    then codes "\\n"
    else if c == 11
    then codes "\\v"
    else if c == 12
    then codes "\\f"
    else if c == 13
    then codes "\\r"
    else if leb 32 c && leb c 126
    then c ∷ []
    else codes "\\x" ++ hex_digit (c / 16) ∷ hex_digit (c % 16) ∷ []

unfoldable pub escape_all : Text → Text
escape_all [] = []
escape_all (c ∷ s) = escaped c ++ escape_all s

abbrev pub quote : Text → Text
quote s = 34 ∷ escape_all s ++ 34 ∷ []

-- `ReplaceAll` of one byte by nothing.
abbrev pub without : ℕ → Text → Text
without d s = filter_by (λ c. not (c == d)) s

split_test : split (codes "a//b") b'/' ≡ codes "a" ∷ [] ∷ codes "b" ∷ []
unfolding split
split_test = refl

fields_test : fields (codes "  a  bc ") ≡ codes "a" ∷ codes "bc" ∷ []
unfolding fields
fields_test = refl

atoi_test : atoi (codes "042") ≡ some 42
unfolding atoi
atoi_test = refl

itoa_test : itoa 1204 ≡ codes "1204"
unfolding itoa
itoa_test = refl

quote_test : quote (codes "a b" ++ 34 ∷ 9 ∷ 1 ∷ []) ≡ codes "\"a b\\\"\\t\\x01\""
unfolding escape_all
quote_test = refl
