-- ===== src/Suppression/IgnoreFile/Laws.antt =====
-- Theorems on the line numbers that the parsed ignore file keeps for the audit trail.
use mathlib.Core.Path.{subst}
use native.Mathlib.Nat.{add-zero, zero-add}
use pci_dss_mcp.Common.{
  ℕ, suc, ◌+◌, ◌≤◌, ◌<◌, ◌≡◌, refl, false, ◌||◌, Option, none, some, List, [], ◌∷◌, ◌++◌, arith,
  Text, codes, if◌then◌else◌, length, All,
}
use pci_dss_mcp.GoStrings.{trim_space, cut_last, atoi, is_empty, has_prefix, trim_prefix}
use pci_dss_mcp.Suppression.IgnoreFile.{
  IgnoreRule, ExcludePackageRule, ParsedIgnoreFile, Directive, blank, exclude, ignore, parse_rule,
  parse_line, parse_lines, add, numbered, exclude_keyword, read, parse_ignore_file_full,
}

-- The numbers rise strictly, above `lo` and up to `hi`.
abbrev pub Rising : ℕ → ℕ → List ℕ → Type 0
Rising lo hi [] = lo ≤ hi
Rising lo hi (n ∷ ns) = (lo < n) × Rising n hi ns

Rising-snoc : (lo hi : ℕ) (ns : List ℕ) → Rising lo hi ns → Rising lo (suc hi) (ns ++ suc hi ∷ [])
Rising-snoc lo hi [] h = omega arith
Rising-snoc lo hi (n ∷ ns) (l, h) = (l, Rising-snoc n hi ns h)

Rising-suc : (lo hi : ℕ) (ns : List ℕ) → Rising lo hi ns → Rising lo (suc hi) ns
Rising-suc lo hi [] h = omega arith
Rising-suc lo hi (n ∷ ns) (l, h) = (l, Rising-suc n hi ns h)

abbrev pub rule_lines : List IgnoreRule → List ℕ
rule_lines [] = []
rule_lines (r ∷ rules) = r.source_line ∷ rule_lines rules

abbrev pub package_lines : List ExcludePackageRule → List ℕ
package_lines [] = []
package_lines (r ∷ rules) = r.source_line ∷ package_lines rules

rule_lines-snoc :
    (rs : List IgnoreRule) (r : IgnoreRule)
    → rule_lines (rs ++ r ∷ []) ≡ rule_lines rs ++ r.source_line ∷ []
rule_lines-snoc [] r = refl
rule_lines-snoc (q ∷ rs) r = rw (rule_lines-snoc rs r)

package_lines-snoc :
    (rs : List ExcludePackageRule) (r : ExcludePackageRule)
    → package_lines (rs ++ r ∷ []) ≡ package_lines rs ++ r.source_line ∷ []
package_lines-snoc [] r = refl
package_lines-snoc (q ∷ rs) r = rw (package_lines-snoc rs r)

abbrev pub HasPattern : ExcludePackageRule → Type 0
HasPattern r = is_empty r.pattern' ≡ false

-- What holds of the directives of the first `hi` lines.
abbrev pub AuditTrail : ℕ → ParsedIgnoreFile → Type 0
AuditTrail hi p =
    Rising 0 hi (rule_lines p.rules)
    × Rising 0 hi (package_lines p.exclude_packages)
    × All HasPattern p.exclude_packages

-- A directive carries the number of its line; an exclusion has a pattern.
abbrev At : ℕ → Directive → Type 0
At n blank = Unit
At n (exclude r) = (r.source_line ≡ n) × HasPattern r
At n (ignore r) = r.source_line ≡ n

numbered-source_line :
    (line prefix : Text) (o : Option ℕ) (n : ℕ) → (numbered line prefix o n).source_line ≡ n
unfolding numbered
numbered-source_line line prefix none n = refl
numbered-source_line line prefix (some k) n = ground arith

parse_rule-source_line : (n : ℕ) (line : Text) → (parse_rule n line).source_line ≡ n
unfolding parse_rule
parse_rule-source_line n line = go (cut_last b':' line) refl
  where
    go : (o : Option (Text × Text)) → cut_last b':' line ≡ o → (parse_rule n line).source_line ≡ n
    go none e = rw (e, parse_rule)
    go (some (prefix, suffix)) e =
        rw (e, parse_rule) (ground (arith, numbered-source_line line prefix (atoi suffix) n))

parse_line-At : (n : ℕ) (raw : Text) → At n (parse_line n raw)
unfolding parse_line
parse_line-At n raw = go (trim_space raw)
  where
    go :
        (line : Text)
        → At n (
            if is_empty line || has_prefix line (codes "#")
            then blank
            else if has_prefix line exclude_keyword
            then (if is_empty (trim_space (trim_prefix line exclude_keyword))
                then blank
                else exclude (record {
                  pattern' = trim_space (trim_prefix line exclude_keyword);
                  source_line = n;
                }))
            else ignore (parse_rule n line))
    go line = ground (arith, parse_rule-source_line n line)

All-snoc :
    (rs : List ExcludePackageRule) (r : ExcludePackageRule)
    → All HasPattern rs
    → HasPattern r
    → All HasPattern (rs ++ r ∷ [])
All-snoc [] r h k = (k, tt)
All-snoc (q ∷ rs) r (h, hs) k = (h, All-snoc rs r hs k)

add-AuditTrail :
    (hi : ℕ) (d : Directive) (p : ParsedIgnoreFile)
    → At (suc hi) d
    → AuditTrail hi p
    → AuditTrail (suc hi) (add d p)
unfolding add
add-AuditTrail hi blank p at (r, q, t) = (Rising-suc 0 hi _ r, Rising-suc 0 hi _ q, t)
add-AuditTrail hi (exclude e) p (at, some_pattern) (r, q, t) = (
  Rising-suc 0 hi _ r,
  rw (package_lines-snoc p.exclude_packages e, at) (Rising-snoc 0 hi _ q),
  All-snoc p.exclude_packages e t some_pattern,
)
add-AuditTrail hi (ignore e) p at (r, q, t) =
    (rw (rule_lines-snoc p.rules e, at) (Rising-snoc 0 hi _ r), Rising-suc 0 hi _ q, t)

parse_lines-AuditTrail :
    (n : ℕ) (lines : List Text) (p : ParsedIgnoreFile)
    → AuditTrail n p
    → AuditTrail (n + length lines) (parse_lines n lines p)
unfolding parse_lines
parse_lines-AuditTrail n [] p h = rw add-zero h
parse_lines-AuditTrail n (raw ∷ lines) p h =
    let e : n + suc (length lines) ≡ suc n + length lines = omega arith in
    rw e (
      parse_lines-AuditTrail (suc n) lines _
        (add-AuditTrail n (parse_line (suc n) raw) p (parse_line-At (suc n) raw) h))

-- What is parsed from a file of n lines cites source lines from 1 to n, in strictly rising order for
-- the rules and for the package exclusions, and every exclusion has a pattern.
pub parse_ignore_file_full-AuditTrail :
    (lines : List Text) (p : ParsedIgnoreFile)
    → parse_ignore_file_full (read lines) ≡ some (some p)
    → AuditTrail (length lines) p
unfolding parse_ignore_file_full
parse_ignore_file_full-AuditTrail lines p h =
    let trail =
      parse_lines-AuditTrail 0 lines (record { rules = []; exclude_packages = [] })
        (omega arith, omega arith, tt) in
    let e : parse_lines 0 lines (record { rules = []; exclude_packages = [] }) ≡ p = cc in
    subst (AuditTrail (length lines)) e (rw zero-add at trail)
