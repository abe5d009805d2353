-- ===== src/Secrets/Scan.antt =====
-- scanner/secretscanner/secretscanner.go: the scan of the configuration files of a project.
pub mod Laws
use pci_dss_mcp.Common.{
  ℕ, ◌+◌, ◌⊎◌, inl, inr, Bool, ◌||◌, Option, none, some, List, [], ◌∷◌, ◌++◌, Text, codes, eq_text,
  if◌then◌else◌,
}
use pci_dss_mcp.GoStrings.{to_lower}
use pci_dss_mcp.FilePath.{ext}
use pci_dss_mcp.Finding.{Finding}
use pci_dss_mcp.Secrets.{KeyValue, Patterns, analyze_key_value_in_root}
use pci_dss_mcp.Secrets.Env.{parse_env_file}
use pci_dss_mcp.Secrets.Json.{Members, parse_json_file}

-- What the files and the decoders give for a path. `line_count` is what `countLines` returns, an error
-- or not.
pub record Files : Type 0 where
  pub env_contents : Text → Option Text
  pub json_root : Text → Option Members
  pub yaml_values : Text → Option (List KeyValue)
  pub toml_values : Text → Option (List KeyValue)
  pub line_count : Text → ℕ

abbrev with_count : Option (List KeyValue) → ℕ → Option (List KeyValue × ℕ)
with_count none n = none
with_count (some kvs) n = some (kvs, n)

unfoldable pub parse_config_file : Files → Text → Option (List KeyValue × ℕ)
unfolding parse_env_file parse_json_file
parse_config_file files path =
    let extension : Text = to_lower (ext path) in
    if eq_text extension (codes ".env")
    then with_count (parse_env_file path (files.env_contents path)) (files.line_count path)
    else if eq_text extension (codes ".yaml") || eq_text extension (codes ".yml")
    then with_count (files.yaml_values path) (files.line_count path)
    else if eq_text extension (codes ".json")
    then with_count (parse_json_file path (files.json_root path)) (files.line_count path)
    else if eq_text extension (codes ".toml")
    then with_count (files.toml_values path) (files.line_count path)
    else some ([], 0)

-- One turn of the loop over the walker: whether the context is done, and the path, `none` for an error
-- of the walk.
pub record Turn : Type 0 where
  pub is_done : Bool
  pub walked : Option Text

pub data ScanError : Type 0 where
  cancelled walk_failed : ScanError
  parse_failed : Text → ScanError

-- The findings, `ScannedFiles` and `ScannedLines`.
abbrev pub Scanned : Type 0
Scanned = List Finding × ℕ × ℕ

unfoldable pub analyze_all : Patterns → Text → List KeyValue → List Finding
unfolding analyze_key_value_in_root
analyze_all patterns root [] = []
analyze_all patterns root (kv ∷ kvs) =
    analyze_key_value_in_root patterns kv root ++ analyze_all patterns root kvs

module _ (files : Files) (patterns : Patterns) (root : Text) where
  abbrev pub of_file : Text → Option (List KeyValue × ℕ) → ScanError ⊎ Scanned
  of_file path none = inl (parse_failed path)
  of_file path (some (kvs, lines)) = inr (analyze_all patterns root kvs, 1, lines)

  abbrev pub of_path : Option Text → ScanError ⊎ Scanned
  of_path none = inl walk_failed
  of_path (some path) = of_file path (parse_config_file files path)

  unfoldable pub scan_turn : Turn → ScanError ⊎ Scanned
  unfolding analyze_all parse_config_file
  scan_turn t = if t.is_done then inl cancelled else of_path t.walked

  abbrev pub add : Scanned → ScanError ⊎ Scanned → ScanError ⊎ Scanned
  add so_far (inl e) = inl e
  add (fs, n, lines) (inr (gs, m, more)) = inr (fs ++ gs, n + m, lines + more)

  abbrev pub and_then : ScanError ⊎ Scanned → (Scanned → ScanError ⊎ Scanned) → ScanError ⊎ Scanned
  and_then (inl e) next = inl e
  and_then (inr scanned) next = next scanned

  unfoldable pub scan_loop : Scanned → List Turn → ScanError ⊎ Scanned
  unfolding scan_turn
  scan_loop so_far [] = inr so_far
  scan_loop so_far (t ∷ turns) =
      and_then (add so_far (scan_turn t)) (λ scanned. scan_loop scanned turns)

  unfoldable pub scan_full : List Turn → ScanError ⊎ Scanned
  unfolding scan_loop
  scan_full turns = scan_loop ([], 0, 0) turns
