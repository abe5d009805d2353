-- ===== src/Suppression/IgnoreFile.antt =====
-- scanner/suppression/ignorefile.go: the directives of `.pci-dss-mcp-ignore`.
pub mod Laws
use pci_dss_mcp.Common.{
  ℕ, suc, ◌||◌, Option, none, some, List, [], ◌∷◌, ◌++◌, map, Text, codes, eq_text, ltb,
  if◌then◌else◌,
}
use mathlib.Core.Option
use pci_dss_mcp.GoStrings.{has_prefix, trim_prefix, trim_space, cut_last, atoi, is_empty}

pub record IgnoreRule : Type 0 where
  pub pattern' : Text
  pub line : ℕ
  pub source_line : ℕ

pub record ExcludePackageRule : Type 0 where
  pub pattern' : Text
  pub source_line : ℕ

pub record ParsedIgnoreFile : Type 0 where
  pub rules : List IgnoreRule
  pub exclude_packages : List ExcludePackageRule

-- What one trimmed line says.
pub data Directive : Type 0 where
  blank : Directive
  exclude : ExcludePackageRule → Directive
  ignore : IgnoreRule → Directive

abbrev pub exclude_keyword : Text
exclude_keyword = codes "exclude-package:"

abbrev pub whole_file : Text → ℕ → IgnoreRule
whole_file pattern' line_num = record { pattern' = pattern'; line = 0; source_line = line_num }

abbrev pub one_line : Text → ℕ → ℕ → IgnoreRule
one_line pattern' n line_num = record { pattern' = pattern'; line = n; source_line = line_num }

-- `n` is what `Atoi` reads behind the last colon.
numbered : Text → Text → Option ℕ → ℕ → IgnoreRule
numbered line prefix none line_num = whole_file line line_num
numbered line prefix (some n) line_num =
    if ltb 0 n then one_line prefix n line_num else whole_file line line_num

-- The part of the loop behind the keyword: `file:*`, `file:N`, or a glob.
parse_rule : ℕ → Text → IgnoreRule
unfolding numbered
parse_rule line_num line = elim (cut_last b':' line) [
  | none ↦ whole_file line line_num
  | some (prefix, suffix) ↦
      if is_empty prefix
      then whole_file line line_num
      else if eq_text suffix (codes "*")
      then whole_file prefix line_num
      else numbered line prefix (atoi suffix) line_num
]

parse_line : ℕ → Text → Directive
unfolding parse_rule trim_space has_prefix trim_prefix
parse_line line_num raw =
    let line = trim_space raw in
    let pattern' = trim_space (trim_prefix line exclude_keyword) in
    if is_empty line || has_prefix line (codes "#")
    then blank
    else if has_prefix line exclude_keyword
    then (if is_empty pattern'
        then blank
        else exclude (record { pattern' = pattern'; source_line = line_num }))
    else ignore (parse_rule line_num line)

add : Directive → ParsedIgnoreFile → ParsedIgnoreFile
add blank p = p
add (exclude r) p = record p { exclude_packages = p.exclude_packages ++ r ∷ [] }
add (ignore r) p = record p { rules = p.rules ++ r ∷ [] }

-- The scanner's loop; the first argument is `lineNum` before the line.
parse_lines : ℕ → List Text → ParsedIgnoreFile → ParsedIgnoreFile
unfolding parse_line add
parse_lines line_num [] p = p
parse_lines line_num (raw ∷ lines) p =
    parse_lines (suc line_num) lines (add (parse_line (suc line_num) raw) p)

-- What the file system answers: no file, an error on opening or reading, or the lines.
pub data FileRead : Type 0 where
  missing : FileRead
  failed : FileRead
  read : List Text → FileRead

-- `none` is an error, `some none` the `nil` for a missing file.
unfoldable pub parse_ignore_file_full : FileRead → Option (Option ParsedIgnoreFile)
unfolding parse_lines
parse_ignore_file_full missing = some none
parse_ignore_file_full failed = none
parse_ignore_file_full (read lines) =
    some (some (parse_lines 0 lines (record { rules = []; exclude_packages = [] })))

abbrev rules_of : Option ParsedIgnoreFile → List IgnoreRule
rules_of none = []
rules_of (some p) = p.rules

unfoldable pub parse_ignore_file : FileRead → Option (List IgnoreRule)
unfolding parse_ignore_file_full
parse_ignore_file file = Option.map rules_of (parse_ignore_file_full file)
