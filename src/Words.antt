-- ===== src/Words.antt =====
-- scanner/cryptoscanner/wordboundary.go: the words of an identifier, and a keyword among them.
pub mod Laws
use pci_dss_mcp.Common.{
  ℕ, ◌≡◌, refl, Bool, true, false, ◌&&◌, ◌||◌, List, [], ◌∷◌, ◌++◌, Text, codes, eq_text, leb, ◌==◌,
  if◌then◌else◌, any,
}
use pci_dss_mcp.GoStrings.{is_digit, to_lower, equal_fold, is_empty, prepend}

abbrev pub value_suffixes : List Text
value_suffixes =
    codes "base64"
    ∷ codes "string"
    ∷ codes "password"
    ∷ codes "value"
    ∷ codes "data"
    ∷ codes "bytes"
    ∷ codes "pem"
    ∷ codes "jwe"
    ∷ codes "encoded"
    ∷ codes "path"
    ∷ codes "file"
    ∷ codes "dir"
    ∷ []

abbrev pub is_delimiter : ℕ → Bool
is_delimiter c = c == b'_' || c == b'-'

abbrev pub is_upper : ℕ → Bool
is_upper c = leb b'A' c && leb c b'Z'

abbrev pub is_lower : ℕ → Bool
is_lower c = leb b'a' c && leb c b'z'

-- The segment that is built, if there is something in it.
abbrev pub flush : Text → List Text
flush [] = []
flush (c ∷ current) = (c ∷ current) ∷ []

unfoldable pub delimiter_loop : Text → Text → List Text
delimiter_loop current [] = flush current
delimiter_loop current (c ∷ s) =
    (if is_delimiter c then flush current else [])
    ++ delimiter_loop (if is_delimiter c then [] else current ++ c ∷ []) s

unfoldable pub split_on_delimiters : Text → List Text
unfolding delimiter_loop
split_on_delimiters s = delimiter_loop [] s

-- `rest` is what stands behind `curr`.
unfoldable pub should_split : ℕ → ℕ → Text → Bool
unfolding is_digit
should_split prev curr [] = (is_lower prev && is_upper curr) || (is_digit prev && is_upper curr)
should_split prev curr (next ∷ rest) =
    (is_lower prev && is_upper curr)
    || (is_digit prev && is_upper curr)
    || (is_upper prev && is_upper curr && is_lower next)

-- The rest of the word that `prev` stands in, and the words behind it.
unfoldable pub camel_loop : ℕ → Text → List Text
unfolding should_split
camel_loop prev [] = [] ∷ []
camel_loop prev (c ∷ s) =
    (if should_split prev c s then [] ∷ [] else []) ++ prepend c (camel_loop c s)

unfoldable pub split_camel_segment : Text → List Text
unfolding camel_loop
split_camel_segment [] = []
split_camel_segment (c ∷ s) = prepend c (camel_loop c s)

unfoldable pub split_segments : List Text → List Text
unfolding split_camel_segment
split_segments [] = []
split_segments (segment ∷ segments) = split_camel_segment segment ++ split_segments segments

unfoldable pub split_camel_case : Text → List Text
unfolding split_segments split_on_delimiters
split_camel_case s = split_segments (split_on_delimiters s)

-- Whether the words behind a keyword let it count.
abbrev pub may_follow : List Text → Bool
may_follow [] = true
may_follow (word ∷ words) = any (eq_text (to_lower word)) value_suffixes

unfoldable pub keyword_loop : Text → List Text → Bool
unfolding equal_fold
keyword_loop keyword [] = false
keyword_loop keyword (word ∷ words) =
    (equal_fold word keyword && may_follow words) || keyword_loop keyword words

unfoldable pub is_keyword_at_word_boundary : Text → Text → Bool
unfolding keyword_loop split_camel_case
is_keyword_at_word_boundary var_name keyword =
    keyword_loop keyword (split_camel_case var_name)
    || eq_text (to_lower var_name) (to_lower keyword)

words_test :
    split_camel_case (codes "LogKey_RequestID-HTTPSKey")
    ≡ codes "Log" ∷ codes "Key" ∷ codes "Request" ∷ codes "ID" ∷ codes "HTTPS" ∷ codes "Key" ∷ []
unfolding split_camel_case split_segments split_on_delimiters delimiter_loop split_camel_segment
    camel_loop should_split is_digit
words_test = refl

suffix_test : is_keyword_at_word_boundary (codes "signingKeyBase64") (codes "key") ≡ true
unfolding is_keyword_at_word_boundary keyword_loop equal_fold to_lower split_camel_case
    split_segments split_on_delimiters delimiter_loop split_camel_segment camel_loop should_split
    is_digit eq_text
suffix_test = refl
