-- ===== src/Secrets/Json/Depth.antt =====
-- Theorems on the depth limit of `walkJSONMap` and `walkJSONSlice`.
use pci_dss_mcp.Common.{
  ℕ, zero, suc, ◌+◌, ◌≡◌, refl, ap, ◌∙◌, true, false, some, List, [], ◌∷◌, ◌++◌, arith, Text, leb,
  if◌then◌else◌,
}
use pci_dss_mcp.GoStrings.{is_empty}
use pci_dss_mcp.Secrets.{KeyValue}
use pci_dss_mcp.Secrets.Json.{
  Json, Members, Elements, string, number, boolean, null, object, array, object_end, member,
  array_end, element, max_json_depth, json_key_value, full_key, index_key, bool_text,
  walk_json_value, walk_json_map, walk_json_slice, parse_json_file,
}

-- The document without the objects and arrays that stand more than a number of levels deep.
unfoldable mutual
  pub pruned : ℕ → Json → Json
  pruned n (string v) = string v
  pruned n (number v) = number v
  pruned n (boolean b) = boolean b
  pruned n null = null
  pruned zero (object members) = null
  pruned (suc n) (object members) = object (pruned_members n members)
  pruned zero (array elements) = null
  pruned (suc n) (array elements) = array (pruned_elements n elements)

  pub pruned_members : ℕ → Members → Members
  pruned_members n object_end = object_end
  pruned_members n (member key value members) =
      member key (pruned n value) (pruned_members n members)

  pub pruned_elements : ℕ → Elements → Elements
  pruned_elements n array_end = array_end
  pruned_elements n (element value elements) = element (pruned n value) (pruned_elements n elements)

module _ (path : Text) where
  -- Every value of a document with its key, at any depth.
  unfoldable mutual
    pub all_values : Text → Json → List KeyValue
    all_values key (string v) = if is_empty v then [] else json_key_value path key v ∷ []
    all_values key (number v) = json_key_value path key v ∷ []
    all_values key (boolean b) = json_key_value path key (bool_text b) ∷ []
    all_values key null = []
    all_values key (object members) = all_members key members
    all_values key (array elements) = all_elements key 0 elements

    pub all_members : Text → Members → List KeyValue
    all_members prefix object_end = []
    all_members prefix (member key value members) =
        all_values (full_key prefix key) value ++ all_members prefix members

    pub all_elements : Text → ℕ → Elements → List KeyValue
    all_elements prefix i array_end = []
    all_elements prefix i (element value elements) =
        all_values (index_key prefix i) value ++ all_elements prefix (i + 1) elements

  too_deep : (depth : ℕ) → depth + 0 + 1 ≡ max_json_depth → leb max_json_depth (depth + 1) ≡ true
  too_deep depth h = ground arith

  not_too_deep :
      (depth n : ℕ) → depth + suc n + 1 ≡ max_json_depth → leb max_json_depth (depth + 1) ≡ false
  not_too_deep depth n h = ground arith

  append-both : {a b c d : List KeyValue} → a ≡ c → b ≡ d → a ++ b ≡ c ++ d
  append-both {a} {b} {c} {d} h k = ap (λ l. l ++ b) h ∙ ap (λ l. c ++ l) k

  mutual
    unfolding walk_json_value walk_json_map walk_json_slice all_values all_members all_elements
        pruned pruned_members pruned_elements

    walk_json_value_lem :
        (v : Json) (key : Text) (n depth : ℕ)
        → depth + n + 1 ≡ max_json_depth
        → walk_json_value path key depth v ≡ all_values key (pruned n v)
    walk_json_value_lem (string v) key n depth h = refl
    walk_json_value_lem (number v) key n depth h = refl
    walk_json_value_lem (boolean b) key n depth h = refl
    walk_json_value_lem null key n depth h = refl
    walk_json_value_lem (object members) key zero depth h = rw (too_deep depth h) refl
    walk_json_value_lem (object members) key (suc n) depth h =
        rw (not_too_deep depth n h) (walk_json_map_lem members key n (depth + 1) (omega arith))
    walk_json_value_lem (array elements) key zero depth h = rw (too_deep depth h) refl
    walk_json_value_lem (array elements) key (suc n) depth h =
        rw (not_too_deep depth n h) (walk_json_slice_lem elements key 0 n (depth + 1) (omega arith))

    walk_json_map_lem :
        (members : Members) (prefix : Text) (n depth : ℕ)
        → depth + n + 1 ≡ max_json_depth
        → walk_json_map path prefix depth members ≡ all_members prefix (pruned_members n members)
    walk_json_map_lem object_end prefix n depth h = refl
    walk_json_map_lem (member key value members) prefix n depth h =
        append-both (walk_json_value_lem value (full_key prefix key) n depth h)
          (walk_json_map_lem members prefix n depth h)

    walk_json_slice_lem :
        (elements : Elements) (prefix : Text) (i n depth : ℕ)
        → depth + n + 1 ≡ max_json_depth
        → walk_json_slice path prefix depth i elements
          ≡ all_elements prefix i (pruned_elements n elements)
    walk_json_slice_lem array_end prefix i n depth h = refl
    walk_json_slice_lem (element value elements) prefix i n depth h =
        append-both (walk_json_value_lem value (index_key prefix i) n depth h)
          (walk_json_slice_lem elements prefix (i + 1) n depth h)

  -- For every order in which the ranges over the maps take their members: the values of a file are
  -- those of the document without what is nested more than 19 levels below the root, each with its
  -- whole key, in that order; nothing else is left out but null and empty strings.
  pub parse_json_file_lem :
      (root : Members)
      → parse_json_file path (some root) ≡ some (all_members [] (pruned_members 19 root))
  unfolding parse_json_file
  parse_json_file_lem root = ap some (walk_json_map_lem root [] 19 0 refl)
