-- ===== src/Walk/Git.antt =====
-- scanner/gitwalker.go: the files that git tracks.
pub mod Laws
use pci_dss_mcp.Common.{
  ℕ, Bool, true, false, ◌&&◌, not, Option, none, some, List, [], ◌∷◌, ◌++◌, map, Text, codes,
  eq_text, if◌then◌else◌, any,
}
use pci_dss_mcp.GoStrings.{to_lower, has_prefix, has_suffix, split, is_empty}
use pci_dss_mcp.FilePath.{slash, base, ext, rel, dir, join_path, match}
use pci_dss_mcp.Walk.{
  WalkConfig, default_exclude_dirs, max_size, is_dir_pattern, without_slash, has_test_dir_segment,
  within,
}

pub record GitWalkFilter : Type 0 where
  pub ext_set : List Text
  pub excluded : List Text
  pub exclude_glob_files : List Text
  pub include_tests : Bool
  pub max_size : Option ℕ

-- The loop over `ExcludeGlobs`: what it adds to `excluded`, and the file patterns.
unfoldable pub sort_globs : List Text → List Text × List Text
sort_globs [] = ([], [])
sort_globs (pattern ∷ patterns) =
    let (dirs, files) = sort_globs patterns in
    if is_dir_pattern pattern
    then (to_lower (without_slash pattern) ∷ dirs, files)
    else (dirs, pattern ∷ files)

unfoldable pub build_git_walk_filter : WalkConfig → GitWalkFilter
unfolding sort_globs
build_git_walk_filter cfg =
    let (dirs, files) = sort_globs cfg.exclude_globs in
    record {
      ext_set = map to_lower cfg.extensions;
      excluded = map to_lower default_exclude_dirs ++ (map to_lower cfg.exclude_dirs ++ dirs);
      exclude_glob_files = files;
      include_tests = cfg.include_tests;
      max_size = max_size cfg.max_file_size;
    }

unfoldable pub is_under_root : Text → Text → Bool
unfolding has_prefix
is_under_root abs_path abs_root =
    if eq_text abs_path abs_root
    then true
    else if has_prefix abs_path (abs_root ++ slash ∷ [])
    then true
    else has_prefix abs_path abs_root

-- An error of `Rel` leaves the empty path.
abbrev pub or_empty : Option Text → Text
or_empty none = []
or_empty (some path) = path

abbrev pub dir_segments : Text → Text → List Text
dir_segments abs_root abs_path = split (dir (or_empty (rel abs_root abs_path))) slash

unfoldable pub has_excluded_dir_segment : GitWalkFilter → Text → Text → Bool
has_excluded_dir_segment f abs_root abs_path =
    any (λ part. any (eq_text (to_lower part)) f.excluded) (dir_segments abs_root abs_path)

unfoldable pub matches_exclude_glob : GitWalkFilter → Text → Bool
matches_exclude_glob f name = any (λ pattern. match pattern name) f.exclude_glob_files

-- `size` is what `os.Stat` of the path gives.
unfoldable pub within_size : GitWalkFilter → Option ℕ → Bool
within_size f size = within f.max_size size

unfoldable pub accepts : GitWalkFilter → Text → Text → Option ℕ → Bool
unfolding has_excluded_dir_segment matches_exclude_glob within_size has_test_dir_segment
accepts f abs_root abs_path size =
    if has_excluded_dir_segment f abs_root abs_path
    then false
    else if not f.include_tests && has_suffix (base abs_path) (codes "_test.go")
    then false
    else if not f.include_tests && has_test_dir_segment abs_root abs_path
    then false
    else if matches_exclude_glob f (base abs_path)
    then false
    else if not (is_empty f.ext_set) && not (any (eq_text (to_lower (ext abs_path))) f.ext_set)
    then false
    else within_size f size

-- What `gitLoadTrackedFiles` finds: the resolved roots, and the lines that `bufio.Scanner` makes of the
-- answer of `git ls-files`.
pub record Tracked : Type 0 where
  pub abs_root : Text
  pub repo_root : Text
  pub lines : List Text

-- The paths that are yielded. `stat` is the size by `os.Stat`, and `walked` what the fallback yields.
module _ (stat : Text → Option ℕ) where
  abbrev pub tracked_path : WalkConfig → Tracked → Text → List Text
  tracked_path cfg tracked rel_path =
      let abs_path : Text = join_path tracked.repo_root rel_path in
      if is_empty rel_path
      then []
      else if not (is_under_root abs_path tracked.abs_root)
      then []
      else if not (accepts (build_git_walk_filter cfg) tracked.abs_root abs_path (stat abs_path))
      then []
      else abs_path ∷ []

  unfoldable pub tracked_paths : WalkConfig → Tracked → List Text → List Text
  unfolding is_under_root accepts build_git_walk_filter
  tracked_paths cfg tracked [] = []
  tracked_paths cfg tracked (rel_path ∷ rel_paths) =
      tracked_path cfg tracked rel_path ++ tracked_paths cfg tracked rel_paths

  unfoldable pub git_tracked_files : WalkConfig → Option Tracked → List Text → List Text
  unfolding tracked_paths
  git_tracked_files cfg none walked = walked
  git_tracked_files cfg (some tracked) walked = tracked_paths cfg tracked tracked.lines
