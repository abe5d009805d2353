-- ===== src/Report/Scan/Laws.antt =====
-- Theorems on the scanner names beside the findings (scanner/reportscanner/report.go).
use pci_dss_mcp.Common.{
  suc, ◌≡◌, refl, sym, ap, inl, inr, Bool, not, Option, none, some, List, [], ◌∷◌, arith, Text,
  Bool-cases, length, filter_by, length-append, All,
}
use pci_dss_mcp.Finding.{Finding, ScanResult}
use pci_dss_mcp.Suppression.IgnoreFile.{ExcludePackageRule}
use pci_dss_mcp.Suppression.IgnoreFile.Laws.{HasPattern}
use pci_dss_mcp.Suppression.Pattern.{match_exclude_package, match_pattern}
use pci_dss_mcp.Suppression.Apply.{rel_path}
use pci_dss_mcp.Suppression.Packages.{excluded_by}
use pci_dss_mcp.Suppression.Packages.Counts.{is_kept, apply_package_exclusions-filtered}
use pci_dss_mcp.Report.Scan.{
  Scanner, Collected, collect, repeat_name, run_from, is_excluded, names_kept,
  apply_package_exclusions_parallel,
}

-- Each finding beside the name of its scanner.
abbrev pub paired : List Finding → List Text → List (Finding × Text)
paired [] names = []
paired (f ∷ fs) [] = []
paired (f ∷ fs) (n ∷ names) = (f, n) ∷ paired fs names

pub is_excluded-is_kept :
    (rules : List ExcludePackageRule) (root : Text) (f : Finding)
    → All HasPattern rules
    → is_excluded rules (rel_path root f.file_path) ≡ not (is_kept rules root f)
unfolding is_excluded excluded_by match_exclude_package
is_excluded-is_kept [] root f h = refl
is_excluded-is_kept (r ∷ rules) root f (h, hs) =
    rw h (elim (Bool-cases (match_pattern r.pattern' (rel_path root f.file_path))) [
      | inl e ↦ rw e refl
      | inr e ↦ rw e (is_excluded-is_kept rules root f hs)
    ])

-- The walk over the names keeps those whose findings the exclusion keeps.
paired-names_kept :
    (rules : List ExcludePackageRule) (root : Text) (fs : List Finding) (names : List Text)
    → All HasPattern rules
    → length fs ≡ length names
    → paired (filter_by (is_kept rules root) fs) (names_kept rules root fs names)
      ≡ filter_by (λ e. is_kept rules root e.0) (paired fs names)
unfolding names_kept
paired-names_kept rules root [] names h e = refl
paired-names_kept rules root (f ∷ fs) [] h e = absurd (omega arith)
paired-names_kept rules root (f ∷ fs) (n ∷ names) h e =
    rw (is_excluded-is_kept rules root f h) (elim (Bool-cases (is_kept rules root f)) [
      | inl k ↦ rw k (ap (λ l. (f, n) ∷ l) (paired-names_kept rules root fs names h (omega arith)))
      | inr k ↦ rw k (paired-names_kept rules root fs names h (omega arith))
    ])

filter_by-all :
    (root : Text) (fs : List Finding) (names : List Text)
    → filter_by (λ e. is_kept [] root e.0) (paired fs names) ≡ paired fs names
unfolding excluded_by
filter_by-all root [] names = refl
filter_by-all root (f ∷ fs) [] = refl
filter_by-all root (f ∷ fs) (n ∷ names) = ap (λ l. (f, n) ∷ l) (filter_by-all root fs names)

-- If every rule has a pattern and there is a name for each finding, the two lists that come out are
-- still in step: pairing them gives the pairs that went in whose finding no rule matches.
pub apply_package_exclusions_parallel_lem :
    (findings : List Finding) (names : List Text) (root : Text) (rules : List ExcludePackageRule)
    → All HasPattern rules
    → length findings ≡ length names
    → paired
        (apply_package_exclusions_parallel findings names root rules).0
        (apply_package_exclusions_parallel findings names root rules).1
      ≡ filter_by (λ e. is_kept rules root e.0) (paired findings names)
unfolding apply_package_exclusions_parallel
apply_package_exclusions_parallel_lem [] names root rules h e = refl
apply_package_exclusions_parallel_lem (f ∷ fs) names root [] h e =
    sym (filter_by-all root (f ∷ fs) names)
apply_package_exclusions_parallel_lem (f ∷ fs) names root (r ∷ rules) h e =
    rw (apply_package_exclusions-filtered (f ∷ fs) root (r ∷ rules))
      (paired-names_kept (r ∷ rules) root (f ∷ fs) names h e)

length-repeat_name : (name : Text) (fs : List Finding) → length (repeat_name name fs) ≡ length fs
unfolding repeat_name
length-repeat_name name [] = refl
length-repeat_name name (f ∷ fs) = ap suc (length-repeat_name name fs)

abbrev pub InStep : Collected → Type 0
InStep c = length c.findings ≡ length c.scanner_names

collect-InStep :
    (name : Text) (o : Option ScanResult) (c : Collected) → InStep c → InStep (collect name o c)
unfolding collect
collect-InStep name none c h = h
collect-InStep name (some result) c h = omega (
  arith,
  length-append c.findings result.findings,
  length-append c.scanner_names (repeat_name name result.findings),
  length-repeat_name name result.findings,
)

pub run_from-InStep :
    (scanners : List Scanner) (mode : Text) (tests taint : Bool) (c : Collected)
    → InStep c
    → InStep (run_from scanners mode tests taint c)
unfolding run_from
run_from-InStep [] mode tests taint c h = h
run_from-InStep (s ∷ scanners) mode tests taint c h =
    run_from-InStep scanners mode tests taint _ (collect-InStep s.name _ c h)
