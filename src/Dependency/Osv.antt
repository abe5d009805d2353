-- ===== src/Dependency/Osv.antt =====
-- scanner/depscanner/osv.go: the OSV entries, the versions that they affect, and the removal of
-- duplicates. `lookupCache` of cache.go looks the entries up.
pub mod Ranges
pub mod Duplicates
use Prim.Native.Nat.{Ordering}
use pci_dss_mcp.Common.{
  ℕ, Bool, true, false, ◌&&◌, ◌||◌, not, Option, none, some, List, [], ◌∷◌, ◌++◌, Text, codes,
  eq_text, if◌then◌else◌, any, filter_by,
}
use pci_dss_mcp.GoStrings.{has_prefix, is_empty}

pub record Event : Type 0 where
  pub introduced : Text
  pub fixed : Text
  pub last_affected : Text

pub record Range : Type 0 where
  pub range_type : Text
  pub events : List Event

pub record Affected : Type 0 where
  pub package_name : Text
  pub ecosystem : Text
  pub ranges : List Range
  pub versions : List Text

-- `SeverityData` holds the vectors; `DatabaseSpecific.Severity` is `database_severity`. `address` is the
-- place of the entry in the cache, by which the pointers to it are known.
pub record Vulnerability : Type 0 where
  pub address : ℕ
  pub id : Text
  pub summary : Text
  pub aliases : List Text
  pub severity_data : List Text
  pub database_severity : Text
  pub affected : List Affected

pub record Dependency : Type 0 where
  pub path : Text
  pub version : Text
  pub line : ℕ

unfoldable pub normalize_version : Text → Text
unfolding has_prefix
normalize_version version = if has_prefix version (codes "v") then version else b'v' ∷ version

-- `semver.Compare` gives -1, 0 or 1.
module _ (compare : Text → Text → Ordering) where
  abbrev pub at_least : Text → Text → Bool
  at_least a b = elim (compare a b) [ Ordering.lt ↦ false | _ ↦ true ]

  abbrev pub introduces : Text → Event → Bool
  introduces version e =
      not (is_empty e.introduced)
      && (eq_text e.introduced (codes "0") || at_least version (normalize_version e.introduced))

  abbrev pub fixes : Text → Event → Bool
  fixes version e = not (is_empty e.fixed) && at_least version (normalize_version e.fixed)

  -- The loop over the events of a range.
  unfoldable pub event_loop : Text → Bool → List Event → Bool
  event_loop version affected [] = affected
  event_loop version affected (e ∷ events) =
      event_loop version
        (if fixes version e then false else if introduces version e then true else affected) events

  abbrev pub is_versioned : Range → Bool
  is_versioned r = eq_text r.range_type (codes "SEMVER") || eq_text r.range_type (codes "ECOSYSTEM")

  unfoldable pub is_affected : Text → List Range → Bool
  unfolding event_loop
  is_affected version ranges = any (λ r. is_versioned r && event_loop version false r.events) ranges

  -- `CacheFile.Packages`, in the order of one range over the map.
  abbrev pub Packages : Type 0
  Packages = List (Text × List Vulnerability)

  abbrev pub covers : Dependency → Text → Bool
  covers dep name = eq_text name dep.path || has_prefix name (dep.path ++ codes "/")

  abbrev pub hits : Dependency → Text → Vulnerability → Bool
  hits dep name vuln =
      any (λ a. eq_text a.package_name name && is_affected dep.version a.ranges) vuln.affected

  unfoldable pub lookup_cache : Packages → Dependency → List Vulnerability
  lookup_cache [] dep = []
  lookup_cache ((name, vulns) ∷ packages) dep =
      let rest = lookup_cache packages dep in
      if covers dep name then filter_by (hits dep name) vulns ++ rest else rest

-- The removal of duplicates.
abbrev pub collect_all_ids : Vulnerability → List Text
collect_all_ids v = v.id ∷ v.aliases

abbrev pub Groups : Type 0
Groups = List (Text × List Vulnerability)

-- `aliasToGroup`; a later entry of an ID stands in front.
abbrev pub AliasMap : Type 0
AliasMap = List (Text × Text)

unfoldable pub group_of : AliasMap → Text → Option Text
group_of [] id = none
group_of ((k, g) ∷ m) id = let rest = group_of m id in if eq_text k id then some g else rest

-- The group of the first ID that has one.
unfoldable pub first_group : AliasMap → List Text → Option Text
unfolding group_of
first_group m [] = none
first_group m (id ∷ ids) = or_later (group_of m id) (first_group m ids)
  where
    or_later : Option Text → Option Text → Option Text
    or_later (some g) later = some g
    or_later none later = later

-- The empty key stands for no group.
abbrev pub key_or_id : Option Text → Text → Text
key_or_id none id = id
key_or_id (some []) id = id
key_or_id (some (c ∷ g)) id = c ∷ g

unfoldable pub assign_all : List Text → Text → AliasMap → AliasMap
assign_all [] g m = m
assign_all (id ∷ ids) g m = assign_all ids g ((id, g) ∷ m)

unfoldable pub append_to_group : Text → Vulnerability → Groups → Groups
append_to_group key v [] = (key, v ∷ []) ∷ []
append_to_group key v ((k, vs) ∷ groups) =
    let rest = append_to_group key v groups in
    if eq_text k key then (k, vs ++ v ∷ []) ∷ groups else (k, vs) ∷ rest

unfoldable pub group_all : List Vulnerability → AliasMap → Groups → Groups
unfolding first_group assign_all append_to_group
group_all [] m groups = groups
group_all (v ∷ vulns) m groups =
    let key = key_or_id (first_group m (collect_all_ids v)) v.id in
    group_all vulns (assign_all (collect_all_ids v) key m) (append_to_group key v groups)

-- `pickBest`, from the first of a group on.
abbrev pub is_better : Vulnerability → Vulnerability → Bool
is_better v best = not (is_empty v.database_severity) && is_empty best.database_severity

abbrev pub is_ghsa : Vulnerability → Bool
is_ghsa v = has_prefix v.id (codes "GHSA-")

unfoldable pub pick_best : Vulnerability → List Vulnerability → Vulnerability
pick_best best [] = best
pick_best best (v ∷ group) =
    pick_best
      (let preferred = if is_better v best then v else best in
        if is_ghsa v && not (is_ghsa preferred) then v else preferred)
      group

-- The keys of the set `mergedIDs`, in the order of one range over it.
unfoldable pub merged_ids : List Vulnerability → List Text
merged_ids [] = []
merged_ids (v ∷ group) = collect_all_ids v ++ merged_ids group

unfoldable pub as_set : List Text → List Text
as_set [] = []
as_set (id ∷ ids) =
    let rest = as_set ids in if any (λ j. eq_text j id) rest then rest else id ∷ rest

abbrev pub merge_group : Text × List Vulnerability → List Vulnerability
merge_group (key, []) = []
merge_group (key, v ∷ group) =
    let best = pick_best v group in
    record best {
      aliases = filter_by (λ id. not (eq_text best.id id)) (as_set (merged_ids (v ∷ group)));
    }
    ∷ []

unfoldable pub merge_groups : Groups → List Vulnerability
unfolding pick_best merged_ids as_set
merge_groups [] = []
merge_groups (g ∷ groups) = merge_group g ++ merge_groups groups

unfoldable pub deduplicate_vulns : List Vulnerability → List Vulnerability
unfolding group_all merge_groups
deduplicate_vulns vulns = merge_groups (group_all vulns [] [])
