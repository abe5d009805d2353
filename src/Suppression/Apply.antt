-- ===== src/Suppression/Apply.antt =====
-- scanner/suppression/suppression.go: `ApplySuppression` with its file cache, and the comments that
-- it looks for.
pub mod Laws
use mathlib.Core.Option
use pci_dss_mcp.Common.{
  ℕ, zero, suc, ◌+◌, Bool, true, false, Option, none, some, List, [], ◌∷◌, ◌++◌, Text, codes,
  eq_text, if◌then◌else◌, length, get_elem?, drop, any,
}
use pci_dss_mcp.GoStrings.{index, trim_space, trim_suffix, to_lower, itoa}
use pci_dss_mcp.FilePath.{ext, is_abs, rel, or_self}
use pci_dss_mcp.Finding.{Finding}
use pci_dss_mcp.Suppression.IgnoreFile.{IgnoreRule, FileRead, parse_ignore_file}
use pci_dss_mcp.Suppression.Pattern.{matches_any_rule}

pub record SuppressionResult : Type 0 where
  pub finding : Finding
  pub suppressed : Bool
  pub suppression_reason : Text
  pub suppression_source : Text

unfoldable pub format_ignore_file_source : ℕ → Text
unfolding itoa
format_ignore_file_source source_line = codes ".pci-dss-mcp-ignore:" ++ itoa source_line

abbrev go_prefixes : List Text
go_prefixes = codes "// pci-ignore:" ∷ codes "//pci-ignore:" ∷ []

abbrev hash_prefixes : List Text
hash_prefixes = codes "# pci-ignore:" ∷ codes "#pci-ignore:" ∷ []

abbrev html_prefixes : List Text
html_prefixes = codes "<!-- pci-ignore:" ∷ codes "<!--pci-ignore:" ∷ []

abbrev one_of : Text → List Text → Bool
one_of s = any (λ e. eq_text s e)

abbrev is_html : Text → Bool
is_html e = one_of e (codes ".html" ∷ codes ".tmpl" ∷ codes ".gohtml" ∷ [])

-- The `switch` on the extension; no prefix is the default case.
abbrev comment_prefixes : Text → List Text
comment_prefixes e =
    if eq_text e (codes ".go")
    then go_prefixes
    else if one_of e (codes ".yaml" ∷ codes ".yml" ∷ codes ".env" ∷ codes ".toml" ∷ [])
    then hash_prefixes
    else if is_html e
    then html_prefixes
    else []

reason_behind : Bool → Text → Text
reason_behind html after =
    trim_space (if html then trim_suffix (trim_space after) (codes "-->") else after)

find_reason : Bool → List Text → Text → Option Text
find_reason html [] line = none
find_reason html (prefix ∷ prefixes) line =
    let later = find_reason html prefixes line in
    elim (index line prefix) [
      | none ↦ later
      | some i ↦ some (reason_behind html (drop (i + length prefix) line))
    ]

unfoldable pub detect_inline_suppression : Text → Text → Option Text
unfolding find_reason reason_behind index trim_space trim_suffix ext to_lower eq_text
detect_inline_suppression file_path line =
    let e = to_lower (ext file_path) in find_reason (is_html e) (comment_prefixes e) line

-- The path against which the rules are matched.
unfoldable pub rel_path : Text → Text → Text
rel_path project_root file_path =
    if is_abs file_path then or_self (rel project_root file_path) file_path else file_path

abbrev pub Cache : Type 0
Cache = List (Text × List Text)

pub cache_lookup : Text → Cache → Option (List Text)
cache_lookup path [] = none
cache_lookup path ((p, lines) ∷ cache) =
    let later = cache_lookup path cache in if eq_text p path then some lines else later

abbrev pub nth_line : List Text → ℕ → Option Text
nth_line lines zero = none
nth_line lines (suc n) = get_elem? lines n

abbrev pub plain : Finding → SuppressionResult
plain f = record {
  finding = f;
  suppressed = false;
  suppression_reason = [];
  suppression_source = [];
}

abbrev pub by_rule : Finding → IgnoreRule → SuppressionResult
by_rule f rule = record {
  finding = f;
  suppressed = true;
  suppression_reason = codes "matched pattern: " ++ rule.pattern';
  suppression_source = format_ignore_file_source rule.source_line;
}

abbrev by_comment : Finding → Option Text → SuppressionResult
by_comment f none = plain f
by_comment f (some reason) = record {
  finding = f;
  suppressed = true;
  suppression_reason = reason;
  suppression_source = codes "inline comment";
}

abbrev pub from_line : Finding → Option Text → SuppressionResult
from_line f none = plain f
from_line f (some line) = by_comment f (detect_inline_suppression f.file_path line)

abbrev pub or_no_rules : Option (List IgnoreRule) → List IgnoreRule
or_no_rules none = []
or_no_rules (some rules) = rules

-- `read_file` is `readFileLines`: the lines of the file on disk, `none` on an error.
module _ (read_file : Text → Option (List Text)) where
  store : Option (List Text) → Text → ℕ → Cache → Option Text × Cache
  store none path n cache = (none, cache)
  store (some lines) path n cache = (nth_line lines n, (path, lines) ∷ cache)

  pub cached_read_line : Cache → Text → ℕ → Option Text × Cache
  unfolding store cache_lookup
  cached_read_line cache path n = elim (cache_lookup path cache) [
    | none ↦ store (read_file path) path n cache
    | some lines ↦ (nth_line lines n, cache)
  ]

  -- One round of the loop, with the cache that it leaves.
  suppress_cached : List IgnoreRule → Text → Finding → Cache → SuppressionResult × Cache
  suppress_cached rules project_root f cache =
      let read = cached_read_line cache f.file_path f.line in
      elim (matches_any_rule rules (rel_path project_root f.file_path) f.line) [
        | some rule ↦ (by_rule f rule, cache)
        | none ↦ (from_line f read.0, read.1)
      ]

  suppress_all : List IgnoreRule → Text → List Finding → Cache → List SuppressionResult
  unfolding suppress_cached
  suppress_all rules project_root [] cache = []
  suppress_all rules project_root (f ∷ findings) cache =
      let step = suppress_cached rules project_root f cache in
      step.0 ∷ suppress_all rules project_root findings step.1

  -- A file that cannot be parsed counts as no rules.
  unfoldable pub apply_suppression : FileRead → List Finding → Text → List SuppressionResult
  unfolding suppress_all
  apply_suppression ignore_file findings project_root =
      suppress_all (or_no_rules (parse_ignore_file ignore_file)) project_root findings []
