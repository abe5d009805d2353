-- ===== src/Walk/Snippet/Laws.antt =====
-- Theorems on `ReadCodeSnippet`.
use pci_dss_mcp.Common.{
  ℕ, zero, suc, ◌+◌, ◌-◌, ◌≤◌, ◌<◌, ◌≡◌, refl, sym, ap, ◌∙◌, ◌⊎◌, false, Option, none, some, List,
  [], ◌∷◌, ◌++◌, arith, Text, ltb, length, get_elem?, take, drop,
}
use Prim.Native.Nat.{min}
use native.Mathlib.Numerals.{add-one}
use native.Mathlib.Nat.{zero-add, suc-add, add-zero}
use pci_dss_mcp.GoStrings.{split, join}
use pci_dss_mcp.Finding.{CodeSnippet}
use pci_dss_mcp.Walk.Snippet.{
  line_feed, or_empty, collect_lines, before_lines, after_lines, read_code_snippet,
}

drop-get_elem? :
    (lines : List Text) (i : ℕ)
    → i < length lines
    → drop i lines ≡ or_empty (get_elem? lines i) ∷ drop (suc i) lines
drop-get_elem? [] i h = absurd (omega arith)
drop-get_elem? (l ∷ lines) zero h = refl
drop-get_elem? (l ∷ lines) (suc i) h = drop-get_elem? lines i (omega arith)

-- What the loop collects are the lines from the index on.
collect_lines_lem :
    (lines : List Text) (i n : ℕ)
    → i + n ≤ length lines
    → collect_lines lines i n ≡ take n (drop i lines)
unfolding collect_lines
collect_lines_lem lines i zero h = refl
collect_lines_lem lines i (suc n) h =
    rw
      (
        drop-get_elem? lines i (omega arith),
        collect_lines_lem lines (i + 1) n (omega arith),
        add-one,
      )
      refl

collect_lines-append :
    (lines : List Text) (i n m : ℕ)
    → collect_lines lines i n ++ collect_lines lines (i + n) m ≡ collect_lines lines i (n + m)
unfolding collect_lines
collect_lines-append lines i zero m = rw (add-zero, zero-add) refl
collect_lines-append lines i (suc n) m =
    rw (suc-add, sym (collect_lines-append lines (i + 1) n m), shift) refl
  where
    shift : i + suc n ≡ i + 1 + n
    shift = omega arith

length-collect_lines : (lines : List Text) (i n : ℕ) → length (collect_lines lines i n) ≡ n
unfolding collect_lines
length-collect_lines lines i zero = refl
length-collect_lines lines i (suc n) = ap suc (length-collect_lines lines (i + 1) n)

-- Two stretches with one line between them.
collect_around :
    (lines : List Text) (a k idx m : ℕ)
    → idx ≡ a + k
    → a + (k + suc m) ≤ length lines
    → collect_lines lines a k ++ or_empty (get_elem? lines idx) ∷ collect_lines lines (idx + 1) m
      ≡ take
          (length (collect_lines lines a k) + suc (length (collect_lines lines (idx + 1) m)))
          (drop a lines)
unfolding collect_lines
collect_around lines a k idx m e h =
    rw (length-collect_lines lines a k, length-collect_lines lines (idx + 1) m, e)
      (collect_lines-append lines a k (suc m) ∙ collect_lines_lem lines a (k + suc m) h)

-- A snippet of up to two lines on each side.
abbrev pub IsWindow : List Text → ℕ → Option CodeSnippet → Type 0
IsWindow lines line none = ⊥
IsWindow lines line (some snippet) =
    (before : List Text) × (after : List Text) × (snippet.before ≡ join before line_feed)
    × (snippet.after ≡ join after line_feed)
    × (length before ≡ min 2 (line - 1))
    × (length after ≡ min 2 (length lines - line))
    × (before ++ snippet.line ∷ after
        ≡ take (length before + suc (length after)) (drop (line - 3) lines))

-- Of a text that is read, a line number from 1 to the number of lines gives a snippet, which consists
-- of the line, of the two lines before it and of the two behind it, or as many as there are: one
-- behind the other they are a part of the text's lines. Any other number gives none.
pub read_code_snippet_lem :
    (text : Text) (line : ℕ)
    → (1 ≤ line
        → line ≤ length (split text 10)
        → IsWindow (split text 10) line (read_code_snippet (some text) line))
      × ((line ≡ 0) ⊎ (length (split text 10) < line) → read_code_snippet (some text) line ≡ none)
unfolding read_code_snippet
read_code_snippet_lem text line = (inside, outside)
  where
    lines : List Text
    lines = split text 10

    inside :
        1 ≤ line
        → line ≤ length (split text 10)
        → IsWindow (split text 10) line (read_code_snippet (some text) line)
    inside l h =
        rw (low, high)
          (
            before_lines lines (line - 1),
            after_lines lines (line - 1),
            refl,
            refl,
            length-collect_lines lines _ _ ∙ omega arith,
            length-collect_lines lines _ _ ∙ ground arith,
            rw same_start
                (collect_around lines (line - 1 - 2) _ (line - 1) _ (omega arith) (ground arith)),
          )
      where
        same_start : line - 3 ≡ line - 1 - 2
        same_start = omega arith

        low : ltb line 1 ≡ false
        low = ground arith

        high : ltb (length (split text 10)) line ≡ false
        high = ground arith

    outside :
        (line ≡ 0) ⊎ (length (split text 10) < line) → read_code_snippet (some text) line ≡ none
    outside h = ground arith
