-- ===== src/Suppression/Packages/Counts.antt =====
-- What `ApplyPackageExclusions` keeps and counts.
use mathlib.Core.Path.{subst, fun_ext}
use native.Mathlib.Nat.{zero-add}
use pci_dss_mcp.Common.{
  ℕ, ◌+◌, ◌≡◌, refl, sym, ap, ◌∙◌, inl, inr, Bool, false, not, Option, none, some, List, [], ◌∷◌,
  ◌++◌, append_assoc, append-nil, arith, Text, eq_text, eq_text_refl, eq_text_cases, if◌then◌else◌,
  Bool-cases, is_some, length, filter_by, count_by, All,
}
use pci_dss_mcp.Finding.{Finding}
use pci_dss_mcp.Suppression.IgnoreFile.{ExcludePackageRule}
use pci_dss_mcp.Suppression.Pattern.{match_pattern}
use pci_dss_mcp.Suppression.Apply.{rel_path}
use pci_dss_mcp.Suppression.Packages.{
  ExcludedPackageReport, Counter, put, note, excluded_by, exclude_all, package_reports,
  apply_package_exclusions,
}

-- Whether a first match is the pattern.
abbrev pub is_pattern : Text → Option Text → Bool
is_pattern p none = false
is_pattern p (some q) = eq_text q p

abbrev pub first_match : List ExcludePackageRule → Text → Finding → Option Text
first_match rules root f = excluded_by rules (rel_path root f.file_path)

-- No rule matches the finding's path.
abbrev pub is_kept : List ExcludePackageRule → Text → Finding → Bool
is_kept rules root f = not (is_some (first_match rules root f))

pub exclude_all-filtered :
    (rules : List ExcludePackageRule) (root : Text) (fs out : List Finding) (counts : Counter)
    → (exclude_all rules root fs (out, counts)).0 ≡ out ++ filter_by (is_kept rules root) fs
unfolding exclude_all
exclude_all-filtered rules root [] out counts = sym (append-nil out)
exclude_all-filtered rules root (f ∷ fs) out counts =
    go (first_match rules root f) (λ o c. exclude_all-filtered rules root fs o c)
  where
    go :
        (o : Option Text)
        → ((out' : List Finding) (c : Counter)
            → (exclude_all rules root fs (out', c)).0 ≡ out' ++ filter_by (is_kept rules root) fs)
        → (exclude_all rules root fs (note o f (out, counts))).0
          ≡ out
            ++ (if not (is_some o)
                then f ∷ filter_by (is_kept rules root) fs
                else filter_by (is_kept rules root) fs)
    go none ih = ih (out ++ f ∷ []) counts ∙ append_assoc out (f ∷ []) _
    go (some p) ih = ih out (put p (counts p + 1) counts)

pub exclude_all-counts :
    (rules : List ExcludePackageRule) (root : Text) (fs out : List Finding) (counts : Counter)
    (q : Text)
    → (exclude_all rules root fs (out, counts)).1 q
      ≡ counts q + count_by (λ f. is_pattern q (first_match rules root f)) fs
unfolding exclude_all
exclude_all-counts rules root [] out counts q = omega arith
exclude_all-counts rules root (f ∷ fs) out counts q =
    go (first_match rules root f) (λ o c. exclude_all-counts rules root fs o c q)
  where
    rest : ℕ
    rest = count_by (λ f. is_pattern q (first_match rules root f)) fs

    go :
        (o : Option Text)
        → ((out' : List Finding) (c : Counter)
            → (exclude_all rules root fs (out', c)).1 q ≡ c q + rest)
        → (exclude_all rules root fs (note o f (out, counts))).1 q
          ≡ counts q + ((if is_pattern q o then 1 else 0) + rest)
    go none ih = omega (arith, ih (out ++ f ∷ []) counts)
    go (some p) ih = elim (eq_text_cases p q) [
      | inl (e, same) ↦ ih out (put p (counts p + 1) counts) ∙ rw e (rw same (omega arith))
      | inr e ↦ ih out (put p (counts p + 1) counts) ∙ rw e (omega arith)
    ]

-- The sum of the reported counts.
abbrev pub reported : List ExcludedPackageReport → ℕ
reported [] = 0
reported (r ∷ reports) = r.match_count + reported reports

-- The sum of a map of counts over the patterns of the rules.
abbrev total : List ExcludePackageRule → Counter → ℕ
total [] m = 0
total (r ∷ rules) m = m r.pattern' + total rules m

reported-package_reports :
    (rules : List ExcludePackageRule) (m sources : Counter)
    → reported (package_reports rules m sources) ≡ total rules m
unfolding package_reports
reported-package_reports [] m sources = refl
reported-package_reports (r ∷ rules) m sources =
    ground (arith, reported-package_reports rules m sources)

-- No two rules have the same pattern.
abbrev pub Distinct : List ExcludePackageRule → Type 0
Distinct [] = Unit
Distinct (r ∷ rules) =
    All (λ (q : ExcludePackageRule). eq_text r.pattern' q.pattern' ≡ false) rules × Distinct rules

abbrev at_pattern : Option Text → Counter
at_pattern o q = if is_pattern q o then 1 else 0

total-absent :
    (rules : List ExcludePackageRule) (p : Text)
    → All (λ (q : ExcludePackageRule). eq_text p q.pattern' ≡ false) rules
    → total rules (at_pattern (some p)) ≡ 0
total-absent [] p h = refl
total-absent (r ∷ rules) p (h, hs) = rw h (omega (arith, total-absent rules p hs))

total-none : (rules : List ExcludePackageRule) → total rules (at_pattern none) ≡ 0
total-none [] = refl
total-none (r ∷ rules) = omega (arith, total-none rules)

-- A finding that is excluded counts for one rule.
total-excluded_by :
    (rules : List ExcludePackageRule) (path : Text)
    → Distinct rules
    → total rules (at_pattern (excluded_by rules path))
      ≡ (if is_some (excluded_by rules path) then 1 else 0)
unfolding excluded_by
total-excluded_by [] path h = refl
total-excluded_by (r ∷ rules) path (h, hs) = elim (Bool-cases (match_pattern r.pattern' path)) [
  | inl e ↦ rw e (rw eq_text_refl (omega (arith, total-absent rules r.pattern' h)))
  | inr e ↦ rw e (later (excluded_by rules path) refl (total-excluded_by rules path hs))
]
  where
    later :
        (o : Option Text)
        → excluded_by rules path ≡ o
        → total rules (at_pattern o) ≡ (if is_some o then 1 else 0)
        → (at_pattern o r.pattern') + total rules (at_pattern o) ≡ (if is_some o then 1 else 0)
    later none e t = omega (arith, t)
    later (some p) e t = elim (eq_text_cases p r.pattern') [
      | inl (_, same) ↦ absurd (
          omega (
            arith,
            t,
            subst (λ q. total rules (at_pattern (some q)) ≡ 0) (sym same)
                (total-absent rules r.pattern' h),
          ))
      | inr other ↦ rw other (omega (arith, t))
    ]

total-add :
    (rules : List ExcludePackageRule) (m n : Counter)
    → total rules (λ q. m q + n q) ≡ total rules m + total rules n
total-add [] m n = omega arith
total-add (r ∷ rules) m n = omega (arith, total-add rules m n)

total-zero : (rules : List ExcludePackageRule) → total rules (λ _. 0) ≡ 0
total-zero [] = refl
total-zero (r ∷ rules) = omega (arith, total-zero rules)

-- What a run of the loop has counted, for each pattern.
abbrev pub counted : List ExcludePackageRule → Text → List Finding → Counter
counted rules root fs q = count_by (λ f. is_pattern q (first_match rules root f)) fs

pub total-counted :
    (rules : List ExcludePackageRule) (root : Text) (fs : List Finding)
    → Distinct rules
    → total rules (counted rules root fs) + length (filter_by (is_kept rules root) fs) ≡ length fs
total-counted rules root [] h = omega (arith, total-zero rules)
total-counted rules root (f ∷ fs) h = ground (
  arith,
  total-add rules (at_pattern (first_match rules root f)) (counted rules root fs),
  total-excluded_by rules (rel_path root f.file_path) h,
  total-counted rules root fs h,
)

filter_by-no_rules : (root : Text) (fs : List Finding) → filter_by (is_kept [] root) fs ≡ fs
unfolding excluded_by
filter_by-no_rules root [] = refl
filter_by-no_rules root (f ∷ fs) = ap (λ l. f ∷ l) (filter_by-no_rules root fs)

-- The findings that come out are those whose path no rule matches, in their order.
pub apply_package_exclusions-filtered :
    (findings : List Finding) (root : Text) (rules : List ExcludePackageRule)
    → (apply_package_exclusions findings root rules).0 ≡ filter_by (is_kept rules root) findings
unfolding apply_package_exclusions
apply_package_exclusions-filtered [] root rules = refl
apply_package_exclusions-filtered (f ∷ fs) root [] = sym (filter_by-no_rules root (f ∷ fs))
apply_package_exclusions-filtered (f ∷ fs) root (r ∷ rules) =
    exclude_all-filtered (r ∷ rules) root (f ∷ fs) [] (λ _. 0)

pub exclude_all-total :
    (rules : List ExcludePackageRule) (root : Text) (fs : List Finding) (sources : Counter)
    → reported (package_reports rules (exclude_all rules root fs ([], λ _. 0)).1 sources)
      ≡ total rules (counted rules root fs)
exclude_all-total rules root fs sources =
    reported-package_reports rules _ sources
    ∙ ap (total rules) (fun_ext (λ q. exclude_all-counts rules root fs [] (λ _. 0) q ∙ zero-add _))
