-- ===== src/Suppression/Apply/Laws.antt =====
-- Theorems on `ApplySuppression`: a specification by single findings, without the cache.
use pci_dss_mcp.Common.{
  ℕ, ◌≡◌, refl, ap, ◌||◌, Option, none, some, List, [], ◌∷◌, map, arith, Text, eq_text_iff, is_some,
  any, All,
}
use pci_dss_mcp.Finding.{Finding}
use pci_dss_mcp.Suppression.IgnoreFile.{IgnoreRule, FileRead, parse_ignore_file}
use pci_dss_mcp.Suppression.Pattern.{matches_any_rule, matches_rule}
use pci_dss_mcp.Suppression.Apply.{
  SuppressionResult, Cache, cache_lookup, nth_line, cached_read_line, by_rule, from_line,
  suppress_cached, suppress_all, or_no_rules, apply_suppression, detect_inline_suppression,
  rel_path, store,
}

module _ (read_file : Text → Option (List Text)) where
  -- The line that the file holds on disk.
  abbrev pub line_on_disk : Text → ℕ → Option Text
  line_on_disk path n = elim (read_file path) [ none ↦ none | some lines ↦ nth_line lines n ]

  -- What one finding gets: the first rule that matches, or else the comment on its line.
  unfoldable pub suppress_one : List IgnoreRule → Text → Finding → SuppressionResult
  suppress_one rules project_root f =
      elim (matches_any_rule rules (rel_path project_root f.file_path) f.line) [
        | some rule ↦ by_rule f rule
        | none ↦ from_line f (line_on_disk f.file_path f.line)
      ]

  pub suppress_one-finding :
      (rules : List IgnoreRule) (root : Text) (f : Finding)
      → (suppress_one rules root f).finding ≡ f
  unfolding suppress_one
  suppress_one-finding rules root f =
      go (matches_any_rule rules (rel_path root f.file_path) f.line)
        (line_on_disk f.file_path f.line)
    where
      with_line : (o : Option Text) → (from_line f o).finding ≡ f
      with_line none = refl
      with_line (some line) = ground arith

      go :
          (o : Option IgnoreRule) (line : Option Text)
          → (elim o as (λ x. SuppressionResult) [
            | some rule ↦ by_rule f rule
            | none ↦ from_line f line
          ]).finding
            ≡ f
      go none line = with_line line
      go (some rule) line = refl

  -- Every cached entry is what the file holds.
  abbrev IsFresh : Cache → Type 0
  IsFresh = All (λ e. read_file e.0 ≡ some e.1)

  cache_lookup_lem :
      (path : Text) (cache : Cache) (lines : List Text)
      → IsFresh cache
      → cache_lookup path cache ≡ some lines
      → read_file path ≡ some lines
  unfolding cache_lookup
  cache_lookup_lem path [] lines h e = cc
  cache_lookup_lem path ((p, ls) ∷ cache) lines (h, hs) e =
      ground (arith, eq_text_iff p path, cache_lookup_lem path cache lines hs)

  -- Reading through a fresh cache gives the line on disk, and leaves a fresh cache.
  cached_read_line_lem :
      (cache : Cache) (path : Text) (n : ℕ)
      → IsFresh cache
      → ((cached_read_line read_file cache path n).0 ≡ line_on_disk path n)
        × IsFresh (cached_read_line read_file cache path n).1
  unfolding cached_read_line store
  cached_read_line_lem cache path n h = by_lookup (cache_lookup path cache) refl
    where
      by_read :
          (r : Option (List Text))
          → read_file path ≡ r
          → ((store read_file r path n cache).0
              ≡ elim r [ none ↦ none | some lines ↦ nth_line lines n ])
            × IsFresh (store read_file r path n cache).1
      by_read none r = (refl, h)
      by_read (some lines) r = (refl, (r, h))

      by_lookup :
          (o : Option (List Text))
          → cache_lookup path cache ≡ o
          → ((cached_read_line read_file cache path n).0 ≡ line_on_disk path n)
            × IsFresh (cached_read_line read_file cache path n).1
      by_lookup none e = rw (e, cached_read_line) (by_read (read_file path) refl)
      by_lookup (some lines) e =
          rw (e, cached_read_line)
            (rw (cache_lookup_lem path cache lines h e, line_on_disk) (refl, h))

  suppress_cached_lem :
      (rules : List IgnoreRule) (root : Text) (f : Finding) (cache : Cache)
      → IsFresh cache
      → ((suppress_cached read_file rules root f cache).0 ≡ suppress_one rules root f)
        × IsFresh (suppress_cached read_file rules root f cache).1
  unfolding suppress_cached suppress_one
  suppress_cached_lem rules root f cache h =
      by_rules (matches_any_rule rules (rel_path root f.file_path) f.line) refl
    where
      read :
          ((cached_read_line read_file cache f.file_path f.line).0
            ≡ line_on_disk f.file_path f.line)
          × IsFresh (cached_read_line read_file cache f.file_path f.line).1
      read = cached_read_line_lem cache f.file_path f.line h

      by_rules :
          (o : Option IgnoreRule)
          → matches_any_rule rules (rel_path root f.file_path) f.line ≡ o
          → ((suppress_cached read_file rules root f cache).0 ≡ suppress_one rules root f)
            × IsFresh (suppress_cached read_file rules root f cache).1
      by_rules none e = rw (e, suppress_cached, suppress_one) (ap (from_line f) read.0, read.1)
      by_rules (some rule) e = rw (e, suppress_cached, suppress_one) (refl, h)

  suppress_all_lem :
      (rules : List IgnoreRule) (root : Text) (findings : List Finding) (cache : Cache)
      → IsFresh cache
      → suppress_all read_file rules root findings cache ≡ map (suppress_one rules root) findings
  unfolding suppress_all
  suppress_all_lem rules root [] cache h = refl
  suppress_all_lem rules root (f ∷ findings) cache h =
      let (same, fresh) = suppress_cached_lem rules root f cache h in
      cc (same, suppress_all_lem rules root findings _ fresh)

  -- Every finding gets, in its place, what its own path, line and file decide: the file cache and
  -- the other findings change nothing.
  pub apply_suppression_lem :
      (ignore_file : FileRead) (findings : List Finding) (root : Text)
      → apply_suppression read_file ignore_file findings root
        ≡ map (suppress_one (or_no_rules (parse_ignore_file ignore_file)) root) findings
  unfolding apply_suppression
  apply_suppression_lem ignore_file findings root = suppress_all_lem _ root findings [] tt

  -- The comment that the line of a finding carries, on disk.
  abbrev pub comment_at : Text → ℕ → Option Text
  comment_at path n = elim (line_on_disk path n) [
    | none ↦ none
    | some line ↦ detect_inline_suppression path line
  ]

  suppress_one_lem :
      (rules : List IgnoreRule) (root : Text) (f : Finding)
      → (suppress_one rules root f).suppressed ≡ (
          is_some (matches_any_rule rules (rel_path root f.file_path) f.line)
          || is_some (comment_at f.file_path f.line))
  unfolding suppress_one
  suppress_one_lem rules root f = ground arith

  matches_any_rule-any :
      (rules : List IgnoreRule) (path : Text) (n : ℕ)
      → is_some (matches_any_rule rules path n) ≡ any (λ r. matches_rule r path n) rules
  unfolding matches_any_rule
  matches_any_rule-any [] path n = refl
  matches_any_rule-any (r ∷ rules) path n = ground (arith, matches_any_rule-any rules path n)

  -- The findings that come out suppressed are exactly those that some rule matches, by path and
  -- line, and those whose line on disk carries a comment for its type of file.
  pub map-suppressed :
      (ignore_file : FileRead) (findings : List Finding) (root : Text)
      → map (λ r. r.suppressed) (apply_suppression read_file ignore_file findings root)
        ≡ map
            (λ f.
              any
                (λ r. matches_rule r (rel_path root f.file_path) f.line)
                (or_no_rules (parse_ignore_file ignore_file))
              || is_some (comment_at f.file_path f.line))
            findings
  map-suppressed ignore_file findings root =
      rw (apply_suppression_lem ignore_file findings root) (over findings)
    where
      rules : List IgnoreRule
      rules = or_no_rules (parse_ignore_file ignore_file)

      over :
          (fs : List Finding)
          → map (λ r. r.suppressed) (map (suppress_one rules root) fs)
            ≡ map
                (λ f.
                  any (λ r. matches_rule r (rel_path root f.file_path) f.line) rules
                  || is_some (comment_at f.file_path f.line))
                fs
      over [] = refl
      over (f ∷ fs) = cc (
        suppress_one_lem rules root f,
        matches_any_rule-any rules (rel_path root f.file_path) f.line,
        over fs,
      )
