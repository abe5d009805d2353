-- ===== src/Secrets/Json.antt =====
-- scanner/secretscanner/json.go: the keys and values of a JSON file.
pub mod Depth
use pci_dss_mcp.Common.{
  ℕ, ◌+◌, Bool, true, false, Option, none, some, List, [], ◌∷◌, ◌++◌, Text, codes, leb,
  if◌then◌else◌,
}
use pci_dss_mcp.GoStrings.{itoa, is_empty}
use pci_dss_mcp.Secrets.{KeyValue}

-- What `json.Unmarshal` gives. A number is the text that `%v` writes for it. A map has no order: the
-- members stand in the one in which the only range over it takes them, which is any, so that a
-- document is many of these, and what holds of all of them holds whatever order the ranges take.
mutual
  pub data Json : Type 0 where
    string number : Text → Json
    boolean : Bool → Json
    null : Json
    object : Members → Json
    array : Elements → Json

  pub data Members : Type 0 where
    object_end : Members
    member : Text → Json → Members → Members

  pub data Elements : Type 0 where
    array_end : Elements
    element : Json → Elements → Elements

abbrev pub max_json_depth : ℕ
max_json_depth = 20

abbrev pub json_key_value : Text → Text → Text → KeyValue
json_key_value path k v = record { key = k; value = v; line = 0; file_path = path }

abbrev pub full_key : Text → Text → Text
full_key prefix key = if is_empty prefix then key else prefix ++ (codes "." ++ key)

abbrev pub index_key : Text → ℕ → Text
index_key prefix i = prefix ++ (codes "[" ++ (itoa i ++ codes "]"))

abbrev pub bool_text : Bool → Text
bool_text true = codes "true"
bool_text false = codes "false"

-- The bodies of the two loops share their cases; `depth` is that of the map or slice.
module _ (path : Text) where
  unfoldable mutual
    unfolding itoa

    pub walk_json_value : Text → ℕ → Json → List KeyValue
    walk_json_value key depth (string v) = if is_empty v then [] else json_key_value path key v ∷ []
    walk_json_value key depth (number v) = json_key_value path key v ∷ []
    walk_json_value key depth (boolean b) = json_key_value path key (bool_text b) ∷ []
    walk_json_value key depth null = []
    walk_json_value key depth (object members) =
        let below = walk_json_map key (depth + 1) members in
        if leb max_json_depth (depth + 1) then [] else below
    walk_json_value key depth (array elements) =
        let below = walk_json_slice key (depth + 1) 0 elements in
        if leb max_json_depth (depth + 1) then [] else below

    pub walk_json_map : Text → ℕ → Members → List KeyValue
    walk_json_map prefix depth object_end = []
    walk_json_map prefix depth (member key value members) =
        walk_json_value (full_key prefix key) depth value ++ walk_json_map prefix depth members

    pub walk_json_slice : Text → ℕ → ℕ → Elements → List KeyValue
    walk_json_slice prefix depth i array_end = []
    walk_json_slice prefix depth i (element value elements) =
        walk_json_value (index_key prefix i) depth value
        ++ walk_json_slice prefix depth (i + 1) elements

  -- `root` is what `os.ReadFile`, `StripJSONComments` and `json.Unmarshal` give, one after the other.
  unfoldable pub parse_json_file : Option Members → Option (List KeyValue)
  unfolding walk_json_map
  parse_json_file none = none
  parse_json_file (some root) = some (walk_json_map [] 0 root)
