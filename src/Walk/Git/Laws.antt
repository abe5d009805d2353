-- ===== src/Walk/Git/Laws.antt =====
-- Theorems on the filter of `GitTrackedFiles`.
use pci_dss_mcp.Common.{
  ℕ, ◌≡◌, refl, ap, ◌∙◌, inl, inr, Bool, true, false, ◌&&◌, ◌||◌, not, Option, List, [], ◌∷◌, ◌++◌,
  map, arith, Text, codes, eq_text, eq_text_cases, if◌then◌else◌, Bool-cases, any, filter_by,
  any-append,
}
use pci_dss_mcp.GoStrings.{to_lower, equal_fold, has_prefix, has_suffix, is_empty}
use pci_dss_mcp.FilePath.{slash, base, ext, match}
use pci_dss_mcp.Walk.{
  WalkConfig, default_exclude_dirs, is_dir_pattern, without_slash, has_test_dir_segment, within,
  skips_dir, yields_file, ext_set, max_size,
}
use pci_dss_mcp.Walk.Git.{sort_globs, build_git_walk_filter, is_under_root, dir_segments, accepts}

-- The loop sorts the patterns as `WalkFiles` does, with the directories in lower case.
sort_globs_lem :
    (patterns : List Text)
    → sort_globs patterns ≡ (
      map (λ p. to_lower (without_slash p)) (filter_by is_dir_pattern patterns),
      filter_by (λ p. not (is_dir_pattern p)) patterns,
    )
unfolding sort_globs
sort_globs_lem [] = refl
sort_globs_lem (p ∷ patterns) = elim (Bool-cases (is_dir_pattern p)) [
  | inl e ↦ rw (e, sort_globs_lem patterns) refl
  | inr e ↦ rw (e, sort_globs_lem patterns) refl
]

any-equal_fold :
    (name : Text) (patterns : List Text)
    → any (equal_fold name) (map without_slash patterns)
      ≡ any (eq_text (to_lower name)) (map (λ p. to_lower (without_slash p)) patterns)
unfolding equal_fold
any-equal_fold name [] = refl
any-equal_fold name (p ∷ patterns) = rw (any-equal_fold name patterns) refl

map-append : {A B : Type 0} (f : A → B) (xs ys : List A) → map f (xs ++ ys) ≡ map f xs ++ map f ys
map-append f [] ys = refl
map-append f (x ∷ xs) ys = ap (λ l. f x ∷ l) (map-append f xs ys)

any_excluded :
    (name : Text) (defaults dirs patterns : List Text)
    → any (eq_text (to_lower name)) (
        map to_lower defaults
        ++ (map to_lower dirs ++ map (λ p. to_lower (without_slash p)) patterns))
      ≡ (any (eq_text (to_lower name)) (map to_lower (defaults ++ dirs))
          || any (equal_fold name) (map without_slash patterns))
any_excluded name defaults dirs patterns =
    rw
      (
        map-append to_lower defaults dirs,
        any-append (eq_text (to_lower name)) (map to_lower defaults) (map to_lower dirs),
        any-equal_fold name patterns,
        any-append (eq_text (to_lower name)) (map to_lower defaults)
            (map to_lower dirs ++ map (λ p. to_lower (without_slash p)) patterns),
        any-append (eq_text (to_lower name)) (map to_lower dirs)
            (map (λ p. to_lower (without_slash p)) patterns),
      )
      (or_assoc (any (eq_text (to_lower name)) (map to_lower defaults))
        (any (eq_text (to_lower name)) (map to_lower dirs))
        (any (eq_text (to_lower name)) (map (λ p. to_lower (without_slash p)) patterns)))
  where
    or_assoc : (a b c : Bool) → (a || (b || c)) ≡ ((a || b) || c)
    or_assoc true b c = refl
    or_assoc false b c = refl

-- The tests of a file, behind a first one that the two walkers place differently.
abbrev passes : Bool → Bool → Bool → Bool → Bool → Bool
passes glob test test_dir ext_left size =
    if glob
    then false
    else if test
    then false
    else if test_dir
    then false
    else if ext_left
    then false
    else size

reordered :
    (skipped glob test test_dir ext_left size : Bool)
    → (if skipped
        then false
        else if test
        then false
        else if test_dir
        then false
        else if glob
        then false
        else if ext_left
        then false
        else size)
      ≡ (not skipped && passes glob test test_dir ext_left size)
reordered skipped glob test test_dir ext_left size = ground arith

any_ext : {A : Type 0} (p q : A → Bool) (xs : List A) → ((x : A) → p x ≡ q x) → any p xs ≡ any q xs
any_ext p q [] h = refl
any_ext p q (x ∷ xs) h = rw (h x, any_ext p q xs h) refl

module _ (cfg : WalkConfig) where
  -- The two walkers leave out the directories of the same names.
  excluded-skips_dir :
      (name : Text)
      → any (eq_text (to_lower name)) (build_git_walk_filter cfg).excluded ≡ skips_dir cfg name
  unfolding build_git_walk_filter skips_dir
  excluded-skips_dir name =
      ap
        (λ (r : List Text × List Text).
          any (eq_text (to_lower name))
            (map to_lower default_exclude_dirs ++ (map to_lower cfg.exclude_dirs ++ r.0)))
        (sort_globs_lem cfg.exclude_globs)
      ∙ any_excluded name default_exclude_dirs cfg.exclude_dirs
          (filter_by is_dir_pattern cfg.exclude_globs)

  accepts-yields_file :
      (abs_root abs_path : Text) (size : Option ℕ)
      → accepts (build_git_walk_filter cfg) abs_root abs_path size ≡ (
          not (any (skips_dir cfg) (dir_segments abs_root abs_path))
          && yields_file cfg abs_root abs_path size)
  unfolding accepts build_git_walk_filter yields_file
  accepts-yields_file abs_root abs_path size =
      let test : Bool = not cfg.include_tests && has_suffix (base abs_path) (codes "_test.go") in
      let test_dir : Bool = not cfg.include_tests && has_test_dir_segment abs_root abs_path in
      let ext_left : Bool =
        not (is_empty (ext_set cfg))
        && not (any (eq_text (to_lower (ext abs_path))) (ext_set cfg)) in
      let in_size : Bool = within (max_size cfg.max_file_size) size in
      let globs : List Text → Bool = λ l. any (λ pattern. match pattern (base abs_path)) l in
      reordered
        (any (λ part. any (eq_text (to_lower part)) (build_git_walk_filter cfg).excluded)
          (dir_segments abs_root abs_path))
        (globs (sort_globs cfg.exclude_globs).1) test test_dir ext_left in_size
      ∙ (ap
            (λ x.
              not x
              && passes (globs (sort_globs cfg.exclude_globs).1) test test_dir ext_left in_size)
            (any_ext _ (skips_dir cfg) (dir_segments abs_root abs_path) excluded-skips_dir)
          ∙ ap
              (λ (r : List Text × List Text).
                not (any (skips_dir cfg) (dir_segments abs_root abs_path))
                && passes (globs r.1) test test_dir ext_left in_size)
              (sort_globs_lem cfg.exclude_globs))

  -- Where the size that `os.Stat` gives, which follows a link, and the one of the walk, which does not,
  -- are both within the limit or both not: the filter on a path that git tracks accepts it exactly
  -- where `WalkFiles` would yield it and would skip no directory on the way to it from the root, the
  -- root itself not counted.
  pub accepts_lem :
      (abs_root abs_path : Text) (stat info : Option ℕ)
      → within (max_size cfg.max_file_size) stat ≡ within (max_size cfg.max_file_size) info
      → accepts (build_git_walk_filter cfg) abs_root abs_path stat ≡ (
          not (any (skips_dir cfg) (dir_segments abs_root abs_path))
          && yields_file cfg abs_root abs_path info)
  unfolding yields_file
  accepts_lem abs_root abs_path stat info h = accepts-yields_file abs_root abs_path stat ∙ rw h refl

has_prefix_refl : (s : Text) → has_prefix s s ≡ true
unfolding has_prefix
has_prefix_refl [] = refl
has_prefix_refl (c ∷ s) = ground (arith, has_prefix_refl s)

has_prefix-append : (s p q : Text) → has_prefix s (p ++ q) ≡ true → has_prefix s p ≡ true
unfolding has_prefix
has_prefix-append [] [] q h = refl
has_prefix-append (c ∷ s) [] q h = refl
has_prefix-append [] (d ∷ p) q h = cc
has_prefix-append (c ∷ s) (d ∷ p) q h = ground (arith, has_prefix-append s p q)

-- The separator is not needed: a path counts as inside the root wherever the root is a prefix of its
-- text, a sibling directory whose name continues the root's included.
pub is_under_root_lem :
    (abs_path abs_root : Text) → is_under_root abs_path abs_root ≡ has_prefix abs_path abs_root
unfolding is_under_root
is_under_root_lem abs_path abs_root = elim (eq_text_cases abs_path abs_root) [
  | inl (e, same) ↦ rw (e, same, has_prefix_refl abs_root) refl
  | inr e ↦ rw e (elim (Bool-cases (has_prefix abs_path (abs_root ++ slash ∷ []))) [
    | inl p ↦ rw (p, has_prefix-append abs_path abs_root (slash ∷ []) p) refl
    | inr p ↦ rw p refl
  ])
]
