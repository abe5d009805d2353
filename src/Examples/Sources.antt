-- ===== src/Examples/Sources.antt =====
-- The words of identifiers, the secrets of configuration files and the walkers at concrete inputs.
use pci_dss_mcp.Common.{
  ℕ, ◌+◌, ◌≤◌, ◌<◌, ◌≡◌, ◌⊎◌, inr, true, false, ◌&&◌, ◌||◌, not, none, some, [], ◌∷◌, ◌++◌, Text,
  codes, if◌then◌else◌, length, any, filter_by, count_by,
}
use pci_dss_mcp.GoStrings.{split}
use pci_dss_mcp.FilePath.{base}
use pci_dss_mcp.Finding.{Finding}
use pci_dss_mcp.Hybrid.Cursor.{pos}
use pci_dss_mcp.Words.{is_delimiter, split_camel_case}
use pci_dss_mcp.Words.Laws.{concat, AllFull, split_camel_case_lem}
use pci_dss_mcp.Secrets.{
  KeyValue, Patterns, rule_prefix, is_basic_placeholder, analyze_key_value_in_root,
}
use pci_dss_mcp.Secrets.Counts.{
  of_rule, high_count, low_count, is_discarded, analyze_key_value_in_root_lem,
}
use pci_dss_mcp.Walk.{within, max_size, WalkConfig, skips_dir, yields_file}
use pci_dss_mcp.Walk.Tree.{Forest, file, folder, end, entry, walk_files}
use pci_dss_mcp.Walk.Tree.Laws.{all_files, wanted_paths, walk_files_lem}
use pci_dss_mcp.Walk.Git.{build_git_walk_filter, dir_segments, accepts}
use pci_dss_mcp.Walk.Git.Laws.{accepts_lem}
use pci_dss_mcp.Walk.Snippet.{read_code_snippet}
use pci_dss_mcp.Walk.Snippet.Laws.{IsWindow, read_code_snippet_lem}

split_camel_case_lem_example :
    (concat (split_camel_case (codes "api_keyBase64"))
      ≡ filter_by (λ c. not (is_delimiter c)) (codes "api_keyBase64"))
    × AllFull (split_camel_case (codes "api_keyBase64"))
split_camel_case_lem_example = split_camel_case_lem (codes "api_keyBase64")

abbrev no_patterns : Patterns
no_patterns = record {
  sql_query = λ s. false;
  conn_strings = [];
  file_system_path = λ s. false;
  relative_path = λ s. false;
  hostname = λ s. false;
  entropy_above = λ s. true;
}

abbrev aws_key : KeyValue
aws_key = record {
  key = codes "aws.token_url";
  value = codes "AKIA0123456789ABCDEF";
  line = 3;
  file_path = codes "/r/config/app.yaml";
}

analyze_key_value_in_root_lem_example :
    count_by (of_rule rule_prefix) (analyze_key_value_in_root no_patterns aws_key (codes "/r")) ≡ (
      if is_basic_placeholder aws_key.value || no_patterns.sql_query aws_key.value
      then 0
      else high_count no_patterns rule_prefix aws_key
        + (if is_discarded no_patterns aws_key
            then 0
            else low_count no_patterns rule_prefix aws_key))
analyze_key_value_in_root_lem_example =
    analyze_key_value_in_root_lem no_patterns aws_key (codes "/r") rule_prefix

abbrev go_files : WalkConfig
go_files = record {
  extensions = codes ".go" ∷ [];
  exclude_dirs = [];
  max_file_size = pos 0;
  exclude_globs = codes "mocks/" ∷ codes "*.pb.go" ∷ [];
  include_tests = false;
}

abbrev small_tree : Forest
small_tree =
    entry (codes "a.go") (file (some 10))
      (entry (codes "vendor") (folder true (entry (codes "b.go") (file (some 10)) end)) end)

walk_files_lem_example :
    walk_files go_files (codes "/r") (some true) (folder true small_tree)
    ≡ inr (
        wanted_paths go_files
          (codes "/r")
          (all_files (codes "/r") (base (codes "/r")) [] true (folder true small_tree)))
walk_files_lem_example = walk_files_lem go_files (codes "/r") (folder true small_tree)

same_limit_test :
    within (max_size go_files.max_file_size) (some 10)
    ≡ within (max_size go_files.max_file_size) (some 12)
same_limit_test = cc

accepts_lem_example :
    accepts (build_git_walk_filter go_files) (codes "/r") (codes "/r/mocks/a.go") (some 10) ≡ (
      not (any (skips_dir go_files) (dir_segments (codes "/r") (codes "/r/mocks/a.go")))
      && yields_file go_files (codes "/r") (codes "/r/mocks/a.go") (some 12))
accepts_lem_example =
    accepts_lem go_files (codes "/r") (codes "/r/mocks/a.go") (some 10) (some 12) same_limit_test

abbrev three_lines : Text
three_lines = codes "a" ++ (10 ∷ codes "b" ++ (10 ∷ codes "c"))

read_code_snippet_lem_example :
    (1 ≤ 3
      → 3 ≤ length (split three_lines 10)
      → IsWindow (split three_lines 10) 3 (read_code_snippet (some three_lines) 3))
    × ((◌≡◌ {A = ℕ} 3 0) ⊎ (length (split three_lines 10) < 3)
        → read_code_snippet (some three_lines) 3 ≡ none)
read_code_snippet_lem_example = read_code_snippet_lem three_lines 3
