-- ===== src/Suppression/Pattern.antt =====
-- The patterns of an ignore rule: `MatchesRule`, `matchPattern` and `matchDoubleStar` of
-- scanner/suppression/ignorefile.go, `MatchExcludePackage` of suppression.go.
pub mod Laws
use pci_dss_mcp.Common.{
  ℕ, ◌+◌, ◌≡◌, refl, Bool, true, false, ◌&&◌, ◌||◌, not, Option, none, some, List, [], ◌∷◌, Text,
  codes, eq_text, ltb, ◌==◌, if◌then◌else◌, length, take, drop,
}
use pci_dss_mcp.GoStrings.{has_prefix, contains, index, is_empty}
use pci_dss_mcp.FilePath.{slash, base, match}
use pci_dss_mcp.Suppression.IgnoreFile.{IgnoreRule}

abbrev pub double_star : Text
double_star = codes "**"

-- `SplitN(pattern, "**", 2)`: the texts before and behind the first double star.
unfoldable pub split_double_star : Text → Text × Text
unfolding index
split_double_star pattern' = elim (index pattern' double_star) [
  | none ↦ (pattern', [])
  | some i ↦ (take i pattern', drop (i + 2) pattern')
]

-- The last loop: the glob against the base of every tail that begins the text or at a slash.
unfoldable pub any_subpath : Bool → Text → Text → Bool
any_subpath first glob [] = false
any_subpath first glob (c ∷ s) =
    (c == slash || first) && match glob (base (c ∷ s)) || any_subpath false glob s

unfoldable pub match_double_star : Text → Text → Bool
unfolding split_double_star any_subpath has_prefix
match_double_star pattern' file_path =
    let (prefix, suffix) = split_double_star pattern' in
    let remaining = drop (length prefix) file_path in
    if not (is_empty prefix) && not (has_prefix file_path prefix)
    then false
    else if is_empty suffix || eq_text suffix (codes "/")
    then true
    else any_subpath true (drop 1 suffix) remaining

unfoldable pub match_pattern : Text → Text → Bool
unfolding match_double_star contains
match_pattern pattern' file_path =
    if contains pattern' double_star
    then match_double_star pattern' file_path
    else match pattern' file_path

unfoldable pub matches_rule : IgnoreRule → Text → ℕ → Bool
unfolding match_pattern eq_text match base
matches_rule rule file_path line =
    if not (match_pattern rule.pattern' file_path)
    then false
    else if ltb 0 rule.line && not (rule.line == line)
    then false
    else true

-- `none` is Go's `(false, IgnoreRule{})`.
unfoldable pub matches_any_rule : List IgnoreRule → Text → ℕ → Option IgnoreRule
matches_any_rule [] file_path line = none
matches_any_rule (rule ∷ rules) file_path line =
    let later = matches_any_rule rules file_path line in
    if matches_rule rule file_path line then some rule else later

unfoldable pub match_exclude_package : Text → Text → Bool
unfolding match_pattern eq_text match base
match_exclude_package pattern' file_path =
    if is_empty pattern' then false else match_pattern pattern' file_path

tree_test : match_pattern (codes "internal/card/**") (codes "internal/card/x/y.go") ≡ true
unfolding match_pattern eq_text match base
tree_test = refl

depth_test : match_pattern (codes "**/*_gen.go") (codes "a/b/c_gen.go") ≡ true
unfolding match_pattern eq_text match base
depth_test = refl
