-- ===== src/Walk.antt =====
-- scanner/walker.go and scanner/pathsegments.go: which files a scan reads. The children walk a
-- directory tree, ask git, and cut out the lines around a finding.
pub mod Tree
pub mod Git
pub mod Snippet
use pci_dss_mcp.Common.{
  ℕ, ◌*◌, Bool, true, false, ◌&&◌, ◌||◌, not, Option, none, some, List, [], ◌∷◌, ◌++◌, map, Text,
  codes, eq_text, leb, ◌==◌, if◌then◌else◌, any, filter_by,
}
use pci_dss_mcp.Hybrid.Cursor.{ℤ, pos, negsuc}
use pci_dss_mcp.GoStrings.{to_lower, has_suffix, trim_suffix, split, is_empty, equal_fold}
use pci_dss_mcp.FilePath.{slash, base, ext, rel, to_slash, or_self, match}

pub record WalkConfig : Type 0 where
  pub extensions : List Text
  pub exclude_dirs : List Text
  pub max_file_size : ℤ
  pub exclude_globs : List Text
  pub include_tests : Bool

abbrev pub default_exclude_dirs : List Text
default_exclude_dirs =
    codes ".git"
    ∷ codes "vendor"
    ∷ codes "node_modules"
    ∷ codes "testdata"
    ∷ codes ".idea"
    ∷ codes ".vscode"
    ∷ []

abbrev pub default_max_file_size : ℕ
default_max_file_size = 10 * 1024 * 1024

-- The limit that is tested; `none` where it is negative.
abbrev pub max_size : ℤ → Option ℕ
max_size (pos n) = some (if n == 0 then default_max_file_size else n)
max_size (negsuc n) = none

-- The sets of the walker, as the lists that fill them.
abbrev pub excluded : WalkConfig → List Text
excluded cfg = map to_lower (default_exclude_dirs ++ cfg.exclude_dirs)

abbrev pub ext_set : WalkConfig → List Text
ext_set cfg = map to_lower cfg.extensions

abbrev pub is_dir_pattern : Text → Bool
is_dir_pattern pattern = has_suffix pattern (codes "/")

abbrev pub without_slash : Text → Text
without_slash pattern = trim_suffix pattern (codes "/")

abbrev pub exclude_glob_dirs : WalkConfig → List Text
exclude_glob_dirs cfg = map without_slash (filter_by is_dir_pattern cfg.exclude_globs)

abbrev pub exclude_glob_files : WalkConfig → List Text
exclude_glob_files cfg = filter_by (λ p. not (is_dir_pattern p)) cfg.exclude_globs

abbrev pub test_dir_segments : List Text
test_dir_segments =
    codes "test" ∷ codes "testing" ∷ codes "mocks" ∷ codes "fixtures" ∷ codes "e2e" ∷ []

abbrev pub relative_to : Text → Text → Text
relative_to root path = if is_empty root then path else or_self (rel root path) path

unfoldable pub has_test_dir_segment : Text → Text → Bool
has_test_dir_segment root path =
    any (λ seg. any (eq_text seg) test_dir_segments)
      (split (to_slash (relative_to root path)) slash)

-- Whether `WalkFiles` skips a directory of a name.
unfoldable pub skips_dir : WalkConfig → Text → Bool
unfolding to_lower equal_fold
skips_dir cfg name =
    any (eq_text (to_lower name)) (excluded cfg) || any (equal_fold name) (exclude_glob_dirs cfg)

-- The size of a file, `none` where it cannot be read, against the limit.
abbrev pub within : Option ℕ → Option ℕ → Bool
within none size = true
within (some limit) none = false
within (some limit) (some size) = leb size limit

-- Whether `WalkFiles` yields a file, which the rest of the callback decides.
unfoldable pub yields_file : WalkConfig → Text → Text → Option ℕ → Bool
unfolding has_test_dir_segment
yields_file cfg root path size =
    if any (λ pattern. match pattern (base path)) (exclude_glob_files cfg)
    then false
    else if not cfg.include_tests && has_suffix (base path) (codes "_test.go")
    then false
    else if not cfg.include_tests && has_test_dir_segment root path
    then false
    else if not (is_empty (ext_set cfg)) && not (any (eq_text (to_lower (ext path))) (ext_set cfg))
    then false
    else within (max_size cfg.max_file_size) size
