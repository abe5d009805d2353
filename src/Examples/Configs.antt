-- ===== src/Examples/Configs.antt =====
-- The parsers and the scan of configuration files, and the scorer of payment functions.
use pci_dss_mcp.Common.{◌≡◌, refl, false, none, some, List, [], ◌∷◌, map, Text, codes, All}
use pci_dss_mcp.GoStrings.{is_space}
use pci_dss_mcp.Secrets.{Patterns}
use pci_dss_mcp.Secrets.Env.Space.{trim_space}
use pci_dss_mcp.Secrets.Env.{parse_env_line, parse_env_file}
use pci_dss_mcp.Secrets.Env.RoundTrip.{IsSetting, written, numbered, parse_env_file_lem}
use pci_dss_mcp.Secrets.Json.{Members, string, null, object, object_end, member, parse_json_file}
use pci_dss_mcp.Secrets.Json.Depth.{all_members, pruned_members, parse_json_file_lem}
use pci_dss_mcp.Secrets.Scan.{Files, Turn, scan_full}
use pci_dss_mcp.Secrets.Scan.Laws.{LoopContract, scan_full_lem}
use pci_dss_mcp.Payment.{FuncDecl, ident, payment_contexts}
use pci_dss_mcp.Payment.Laws.{with_cache, answer, payment_contexts_lem}

abbrev two_settings : List (Text × Text)
two_settings = (codes "DB_PASS", codes " a=b # ") ∷ (codes "TOKEN", codes "x") ∷ []

two_settings-IsSetting : All IsSetting two_settings
unfolding is_space
two_settings-IsSetting = (
  ((refl, (refl, (refl, (refl, (refl, (refl, (refl, tt))))))), refl, refl),
  (((refl, (refl, (refl, (refl, (refl, tt))))), refl, refl), tt),
)

parse_env_file_lem_example :
    parse_env_file (codes "/r/.env") (some (written two_settings))
    ≡ some (numbered (codes "/r/.env") 0 two_settings)
parse_env_file_lem_example =
    parse_env_file_lem (codes "/r/.env") two_settings two_settings-IsSetting

abbrev nested_root : Members
nested_root =
    member (codes "db") (object (member (codes "password") (string (codes "secret")) object_end))
      (member (codes "x") null object_end)

parse_json_file_lem_example :
    parse_json_file (codes "/r/a.json") (some nested_root)
    ≡ some (all_members (codes "/r/a.json") [] (pruned_members 19 nested_root))
parse_json_file_lem_example = parse_json_file_lem (codes "/r/a.json") nested_root

abbrev config_files : Files
config_files = record {
  env_contents = λ path. some (written two_settings);
  json_root = λ path. some nested_root;
  yaml_values = λ path. none;
  toml_values = λ path. some [];
  line_count = λ path. 2;
}

abbrev plain_patterns : Patterns
plain_patterns = record {
  sql_query = λ s. false;
  conn_strings = [];
  file_system_path = λ s. false;
  relative_path = λ s. false;
  hostname = λ s. false;
  entropy_above = λ s. false;
}

abbrev two_turns : List Turn
two_turns =
    record { is_done = false; walked = some (codes "/r/.env") }
    ∷ record { is_done = false; walked = some (codes "/r/a.yaml") }
    ∷ []

scan_full_lem_example :
    LoopContract config_files plain_patterns
      (codes "/r")
      ([], 0, 0)
      two_turns
      (scan_full config_files plain_patterns (codes "/r") two_turns)
scan_full_lem_example = scan_full_lem config_files plain_patterns (codes "/r") two_turns

abbrev exchange : FuncDecl
exchange = record {
  name = codes "Exchange";
  receiver = none;
  filename = codes "/r/a.go";
  params = ident (codes "CardData") ∷ [];
  locals = [];
  selected = [];
}

-- Another function of the file with the same name, which mentions no card data.
abbrev exchange_again : FuncDecl
exchange_again = record exchange { params = [] }

payment_contexts_lem_example :
    payment_contexts (exchange ∷ exchange_again ∷ []) (some (with_cache (codes "/r") [] []))
    ≡ map (answer (codes "/r") [] (exchange ∷ exchange_again ∷ [])) (exchange ∷ exchange_again ∷ [])
payment_contexts_lem_example = payment_contexts_lem (codes "/r") [] (exchange ∷ exchange_again ∷ [])

export_test :
    parse_env_line (codes "  export DB_PASS = 'a b' ") ≡ some (codes "DB_PASS", codes "a b")
unfolding parse_env_line trim_space
export_test = refl
