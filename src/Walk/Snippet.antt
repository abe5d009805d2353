-- ===== src/Walk/Snippet.antt =====
-- scanner/snippet.go: the lines around a finding.
pub mod Laws
use pci_dss_mcp.Common.{
  ℕ, zero, suc, ◌+◌, ◌-◌, ◌≡◌, refl, Option, none, some, List, [], ◌∷◌, ◌++◌, Text, codes, ltb,
  if◌then◌else◌, length, get_elem?,
}
use pci_dss_mcp.GoStrings.{split, join}
use pci_dss_mcp.Finding.{CodeSnippet}

abbrev pub line_feed : Text
line_feed = 10 ∷ []

abbrev or_empty : Option Text → Text
or_empty none = []
or_empty (some line) = line

-- The loop from an index over a number of lines.
unfoldable pub collect_lines : List Text → ℕ → ℕ → List Text
collect_lines lines i zero = []
collect_lines lines i (suc n) = or_empty (get_elem? lines i) ∷ collect_lines lines (i + 1) n

abbrev pub before_lines : List Text → ℕ → List Text
before_lines lines idx = collect_lines lines (idx - 2) (idx - (idx - 2))

abbrev pub after_lines : List Text → ℕ → List Text
after_lines lines idx =
    collect_lines lines (idx + 1)
      ((if ltb (length lines) (idx + 3) then length lines else idx + 3) - (idx + 1))

abbrev snippet_at : List Text → ℕ → Option CodeSnippet
snippet_at lines line =
    if ltb (length lines) line
    then none
    else some (record {
      before = join (before_lines lines (line - 1)) line_feed;
      line = or_empty (get_elem? lines (line - 1));
      after = join (after_lines lines (line - 1)) line_feed;
    })

-- `contents` is what `os.ReadFile` gives.
unfoldable pub read_code_snippet : Option Text → ℕ → Option CodeSnippet
unfolding split join collect_lines
read_code_snippet none line = none
read_code_snippet (some text) line = if ltb line 1 then none else snippet_at (split text 10) line

middle_test :
    read_code_snippet (some (codes "a" ++ (10 ∷ codes "b" ++ (10 ∷ codes "c")))) 3
    ≡ some (record { before = codes "a" ++ 10 ∷ codes "b"; line = codes "c"; after = [] })
unfolding read_code_snippet
middle_test = refl
