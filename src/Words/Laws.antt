-- ===== src/Words/Laws.antt =====
-- Theorems on `SplitCamelCase`.
use pci_dss_mcp.Common.{
  ℕ, ◌≡◌, refl, sym, ap, ◌∙◌, inl, inr, Bool, true, false, not, List, [], ◌∷◌, ◌++◌, append_assoc,
  append-nil, Text, if◌then◌else◌, Bool-cases, filter_by, All,
}
use pci_dss_mcp.GoStrings.{is_empty, prepend}
use pci_dss_mcp.Words.{
  is_delimiter, flush, delimiter_loop, split_on_delimiters, should_split, camel_loop,
  split_camel_segment, split_segments, split_camel_case,
}

abbrev pub concat : List Text → Text
concat [] = []
concat (word ∷ words) = word ++ concat words

abbrev pub AllFull : List Text → Type 0
AllFull words = All (λ (w : Text). is_empty w ≡ false) words

concat-append : (xs ys : List Text) → concat (xs ++ ys) ≡ concat xs ++ concat ys
concat-append [] ys = refl
concat-append (x ∷ xs) ys =
    ap (λ t. x ++ t) (concat-append xs ys) ∙ sym (append_assoc x (concat xs) (concat ys))

AllFull-append : (xs ys : List Text) → AllFull xs → AllFull ys → AllFull (xs ++ ys)
AllFull-append [] ys h k = k
AllFull-append (x ∷ xs) ys (full, h) k = (full, AllFull-append xs ys h k)

concat-flush : (s : Text) → concat (flush s) ≡ s
concat-flush [] = refl
concat-flush (c ∷ s) = append-nil (c ∷ s)

flush-AllFull : (s : Text) → AllFull (flush s)
flush-AllFull [] = tt
flush-AllFull (c ∷ s) = (refl, tt)

abbrev kept : Text → Text
kept s = filter_by (λ c. not (is_delimiter c)) s

concat-delimiter_loop : (current s : Text) → concat (delimiter_loop current s) ≡ current ++ kept s
unfolding delimiter_loop
concat-delimiter_loop current [] = concat-flush current ∙ sym (append-nil current)
concat-delimiter_loop current (c ∷ s) = elim (Bool-cases (is_delimiter c)) [
  | inl e ↦ rw e (
      concat-append (flush current) (delimiter_loop [] s)
      ∙ (ap (λ t. t ++ concat (delimiter_loop [] s)) (concat-flush current)
          ∙ ap (λ t. current ++ t) (concat-delimiter_loop [] s)))
  | inr e ↦
      rw e (concat-delimiter_loop (current ++ c ∷ []) s ∙ append_assoc current (c ∷ []) (kept s))
]

delimiter_loop-AllFull : (current s : Text) → AllFull (delimiter_loop current s)
unfolding delimiter_loop
delimiter_loop-AllFull current [] = flush-AllFull current
delimiter_loop-AllFull current (c ∷ s) = elim (Bool-cases (is_delimiter c)) [
  | inl e ↦
      rw e (AllFull-append (flush current) _ (flush-AllFull current) (delimiter_loop-AllFull [] s))
  | inr e ↦ rw e (delimiter_loop-AllFull (current ++ c ∷ []) s)
]

-- The loop gives the rest of a word and then words that are not empty.
abbrev Continues : Text → List Text → Type 0
Continues s [] = ⊥
Continues s (word ∷ words) = (word ++ concat words ≡ s) × AllFull words

prepend-Continues :
    (c : ℕ) (s : Text) (words : List Text)
    → Continues s words
    → (concat (prepend c words) ≡ c ∷ s) × AllFull (prepend c words)
prepend-Continues c s [] h = elim h [ ]
prepend-Continues c s (word ∷ words) (e, h) = (ap (λ t. c ∷ t) e, (refl, h))

camel_loop-Continues : (prev : ℕ) (s : Text) → Continues s (camel_loop prev s)
unfolding camel_loop
camel_loop-Continues prev [] = (refl, tt)
camel_loop-Continues prev (c ∷ s) =
    step (should_split prev c s) (camel_loop c s) (camel_loop-Continues c s)
  where
    step :
        (b : Bool) (words : List Text)
        → Continues s words
        → Continues (c ∷ s) ((if b then [] ∷ [] else []) ++ prepend c words)
    step true words h = prepend-Continues c s words h
    step false [] h = elim h [ ]
    step false (word ∷ words) (e, h) = (ap (λ t. c ∷ t) e, h)

split_camel_segment_lem :
    (s : Text) → (concat (split_camel_segment s) ≡ s) × AllFull (split_camel_segment s)
unfolding split_camel_segment
split_camel_segment_lem [] = (refl, tt)
split_camel_segment_lem (c ∷ s) = prepend-Continues c s (camel_loop c s) (camel_loop-Continues c s)

split_segments_lem :
    (segments : List Text)
    → (concat (split_segments segments) ≡ concat segments) × AllFull (split_segments segments)
unfolding split_segments
split_segments_lem [] = (refl, tt)
split_segments_lem (s ∷ segments) = (
  concat-append (split_camel_segment s) (split_segments segments)
      ∙ (ap (λ t. t ++ concat (split_segments segments)) (split_camel_segment_lem s).0
          ∙ ap (λ t. s ++ t) (split_segments_lem segments).0),
  AllFull-append (split_camel_segment s) _ (split_camel_segment_lem s).1
      (split_segments_lem segments).1,
)

-- The words of an identifier, one behind the other, are the identifier without its underscores and
-- hyphens, and no word is empty.
pub split_camel_case_lem :
    (s : Text)
    → (concat (split_camel_case s) ≡ filter_by (λ c. not (is_delimiter c)) s)
      × AllFull (split_camel_case s)
unfolding split_camel_case split_on_delimiters
split_camel_case_lem s = (
  (split_segments_lem (delimiter_loop [] s)).0 ∙ concat-delimiter_loop [] s,
  (split_segments_lem (delimiter_loop [] s)).1,
)
