-- ===== src/Dependency/Osv/Duplicates.antt =====
-- Theorems on `deduplicateVulns`: the identifiers of its result.
use mathlib.Core.Path.{subst}
use pci_dss_mcp.GoStrings.{is_empty}
use pci_dss_mcp.Common.{
  ◌≡◌, refl, sym, ap, ◌∙◌, inl, inr, Bool, true, false, ◌&&◌, ◌||◌, not, List, [], ◌∷◌, ◌++◌, arith,
  Text, eq_text, eq_text_refl, eq_text_iff, eq_text_cases, if◌then◌else◌, Bool-cases, any,
  filter_by, any-append, All,
}
use pci_dss_mcp.Dependency.Osv.{
  Vulnerability, collect_all_ids, Groups, AliasMap, append_to_group, group_all, is_better, is_ghsa,
  pick_best, merged_ids, as_set, merge_group, merge_groups, deduplicate_vulns,
}

-- Whether an entry goes by an identifier, as its own or as an alias.
abbrev pub mentions : Text → Vulnerability → Bool
mentions id v = any (λ j. eq_text j id) (collect_all_ids v)

abbrev in_groups : (Vulnerability → Bool) → Groups → Bool
in_groups p groups = any (λ g. any p g.1) groups

abbrev AllFull : Groups → Type 0
AllFull groups = All (λ (g : Text × List Vulnerability). is_empty g.1 ≡ false) groups

in_groups-append_to_group :
    (p : Vulnerability → Bool) (key : Text) (v : Vulnerability) (groups : Groups)
    → in_groups p (append_to_group key v groups) ≡ (p v || in_groups p groups)
unfolding append_to_group
in_groups-append_to_group p key v [] = or_false _
  where
    or_false : (b : Bool) → (b || false || false) ≡ (b || false)
    or_false true = refl
    or_false false = refl
in_groups-append_to_group p key v ((k, vs) ∷ groups) =
    ground (arith, any-append p vs (v ∷ []), in_groups-append_to_group p key v groups)

in_groups-group_all :
    (p : Vulnerability → Bool) (vulns : List Vulnerability) (m : AliasMap) (groups : Groups)
    → in_groups p (group_all vulns m groups) ≡ (any p vulns || in_groups p groups)
unfolding group_all
in_groups-group_all p [] m groups = refl
in_groups-group_all p (v ∷ vulns) m groups =
    in_groups-group_all p vulns _ _
    ∙ (ap (λ b. any p vulns || b) (in_groups-append_to_group p _ v groups)
        ∙ swap (any p vulns) (p v) (in_groups p groups))
  where
    swap : (a b c : Bool) → (a || (b || c)) ≡ (b || a || c)
    swap a b c = ground arith

is_empty-append : {A : Type 0} (xs : List A) (x : A) → is_empty (xs ++ x ∷ []) ≡ false
is_empty-append [] x = refl
is_empty-append (y ∷ xs) x = refl

append_to_group-AllFull :
    (key : Text) (v : Vulnerability) (groups : Groups)
    → AllFull groups
    → AllFull (append_to_group key v groups)
unfolding append_to_group
append_to_group-AllFull key v [] h = (refl, tt)
append_to_group-AllFull key v ((k, vs) ∷ groups) (full, h) = elim (Bool-cases (eq_text k key)) [
  | inl e ↦ rw e (is_empty-append vs v, h)
  | inr e ↦ rw e (full, append_to_group-AllFull key v groups h)
]

-- The representative of a group is one of it.
mentions-pick_best :
    (best : Vulnerability) (group : List Vulnerability)
    → any (λ v. eq_text v.id (pick_best best group).id) (best ∷ group) ≡ true
unfolding pick_best
mentions-pick_best best [] = rw (eq_text_refl best.id) refl
mentions-pick_best best (v ∷ group) =
    chosen (is_better v best) (is_ghsa v && not (is_ghsa (if is_better v best then v else best)))
      (ground (arith, mentions-pick_best v group)) (ground (arith, mentions-pick_best best group))
  where
    listed : Vulnerability → Type 0
    listed b =
        (eq_text best.id (pick_best b group).id
          || (eq_text v.id (pick_best b group).id
              || any (λ w. eq_text w.id (pick_best b group).id) group))
        ≡ true

    chosen : (c d : Bool) → listed v → listed best → listed (if d then v else if c then v else best)
    chosen c true hv hb = hv
    chosen true false hv hb = hv
    chosen false false hv hb = hb

any-as_set :
    (id : Text) (ids : List Text)
    → any (λ j. eq_text j id) (as_set ids) ≡ any (λ j. eq_text j id) ids
unfolding as_set
any-as_set id [] = refl
any-as_set id (j ∷ ids) = elim (Bool-cases (any (λ k. eq_text k j) (as_set ids))) [
  | inl listed ↦ rw listed (elim (eq_text_cases j id) [
    | inl (e, same) ↦ rw e (subst (λ k. any (λ l. eq_text l k) (as_set ids) ≡ true) same listed)
    | inr e ↦ rw e (any-as_set id ids)
  ])
  | inr new ↦ rw new (ap (λ b. eq_text j id || b) (any-as_set id ids))
]

any-merged_ids :
    (id : Text) (group : List Vulnerability)
    → any (λ j. eq_text j id) (merged_ids group) ≡ any (mentions id) group
unfolding merged_ids
any-merged_ids id [] = refl
any-merged_ids id (v ∷ group) =
    any-append (λ j. eq_text j id) (collect_all_ids v) (merged_ids group)
    ∙ ap (λ b. mentions id v || b) (any-merged_ids id group)

-- The identifiers of a list without one of them, and that one.
any-filter_by :
    (best id : Text) (ids : List Text)
    → any (λ j. eq_text j best) ids ≡ true
    → (eq_text best id || any (λ j. eq_text j id) (filter_by (λ j. not (eq_text best j)) ids))
      ≡ any (λ j. eq_text j id) ids
any-filter_by best id ids h = elim (eq_text_cases best id) [
  | inl (e, same) ↦ rw e (sym (subst (λ k. any (λ j. eq_text j k) ids ≡ true) same h))
  | inr e ↦ rw e (others ids e)
]
  where
    others :
        (js : List Text)
        → eq_text best id ≡ false
        → any (λ j. eq_text j id) (filter_by (λ j. not (eq_text best j)) js)
          ≡ any (λ j. eq_text j id) js
    others [] e = refl
    others (j ∷ js) e = ground (arith, e, eq_text_iff best j, eq_text_iff j id, others js e)

-- An entry goes by its own identifier.
any-mentions :
    (id : Text) (group : List Vulnerability)
    → any (λ v. eq_text v.id id) group ≡ true
    → any (mentions id) group ≡ true
any-mentions id [] h = h
any-mentions id (v ∷ group) h = ground (arith, h, any-mentions id group)

or_false : (b : Bool) → (b || false) ≡ b
or_false true = refl
or_false false = refl

any-merged_set :
    (id : Text) (group : List Vulnerability)
    → any (λ j. eq_text j id) (as_set (merged_ids group)) ≡ any (mentions id) group
any-merged_set id group = any-as_set id (merged_ids group) ∙ any-merged_ids id group

mentions-merge_group :
    (id key : Text) (v : Vulnerability) (group : List Vulnerability)
    → any (mentions id) (merge_group (key, v ∷ group)) ≡ any (mentions id) (v ∷ group)
mentions-merge_group id key v group =
    or_false _
    ∙ (any-filter_by (pick_best v group).id id (as_set (merged_ids (v ∷ group)))
          (any-merged_set _ (v ∷ group) ∙ any-mentions _ (v ∷ group) (mentions-pick_best v group))
        ∙ any-merged_set id (v ∷ group))

mentions-merge_groups :
    (id : Text) (groups : Groups)
    → AllFull groups
    → any (mentions id) (merge_groups groups) ≡ in_groups (mentions id) groups
unfolding merge_groups
mentions-merge_groups id [] h = refl
mentions-merge_groups id ((key, []) ∷ groups) (full, h) = ground (arith, full)
mentions-merge_groups id ((key, v ∷ vs) ∷ groups) (full, h) =
    any-append (mentions id) (merge_group (key, v ∷ vs)) (merge_groups groups)
    ∙ (ap (λ b. b || any (mentions id) (merge_groups groups)) (mentions-merge_group id key v vs)
        ∙ ap (λ b. any (mentions id) (v ∷ vs) || b) (mentions-merge_groups id groups h))

group_all-AllFull :
    (vulns : List Vulnerability) (m : AliasMap) (groups : Groups)
    → AllFull groups
    → AllFull (group_all vulns m groups)
unfolding group_all
group_all-AllFull [] m groups h = h
group_all-AllFull (v ∷ vulns) m groups h =
    group_all-AllFull vulns _ _ (append_to_group-AllFull _ v groups h)

-- The entries that are left go by exactly the identifiers, their own and aliases, of the entries that
-- were given: no vulnerability is lost, and none is made up.
pub deduplicate_vulns_lem :
    (vulns : List Vulnerability) (id : Text)
    → any (mentions id) (deduplicate_vulns vulns) ≡ any (mentions id) vulns
unfolding deduplicate_vulns
deduplicate_vulns_lem vulns id =
    mentions-merge_groups id (group_all vulns [] []) (group_all-AllFull vulns [] [] tt)
    ∙ (in_groups-group_all (mentions id) vulns [] [] ∙ or_false _)

-- The representative of a group has the identifier of one of its entries.
any-merge_groups :
    (id : Text) (groups : Groups)
    → any (λ v. eq_text v.id id) (merge_groups groups) ≡ true
    → in_groups (λ v. eq_text v.id id) groups ≡ true
unfolding merge_groups
any-merge_groups id [] h = h
any-merge_groups id ((key, []) ∷ groups) h = any-merge_groups id groups h
any-merge_groups id ((key, v ∷ vs) ∷ groups) h = elim (eq_text_cases (pick_best v vs).id id) [
  | inl (e, same) ↦
      rw (subst (λ j. any (λ w. eq_text w.id j) (v ∷ vs) ≡ true) same (mentions-pick_best v vs))
        refl
  | inr e ↦ ground (arith, e, h, any-merge_groups id groups)
]

-- An identifier of the result is one of an entry that was given.
pub any-deduplicate_vulns :
    (vulns : List Vulnerability) (id : Text)
    → any (λ v. eq_text v.id id) (deduplicate_vulns vulns) ≡ true
    → any (λ v. eq_text v.id id) vulns ≡ true
unfolding deduplicate_vulns
any-deduplicate_vulns vulns id h =
    sym (in_groups-group_all (λ v. eq_text v.id id) vulns [] [] ∙ or_false _)
    ∙ any-merge_groups id (group_all vulns [] []) h
