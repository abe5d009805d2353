-- ===== src/Report/Status/CrossReference.antt =====
-- `collectRelatedRequirementMap` and `propagateCrossReferences`: a requirement that no scanner covers
-- takes the status of one that shares a finding with it.
use mathlib.Core.Path.{subst}
use pci_dss_mcp.Common.{
  ◌≡◌, refl, sym, ap, ◌∙◌, ◌⊎◌, inl, inr, Bool, true, false, not, Option, none, some, List, [], ◌∷◌,
  ◌++◌, arith, Text, codes, eq_text, eq_text_cases, if◌then◌else◌, Bool-cases, is_some, All,
}
use pci_dss_mcp.Suppression.Apply.{SuppressionResult}
use pci_dss_mcp.Report.Types.{Status, eq_status, RequirementStatus}
use pci_dss_mcp.Report.Status.{StatusMap, put_status, get_status}
use pci_dss_mcp.Report.Status.Build.{get_status-put_status}

-- The map from related to primary requirement, which the program ranges over. Go leaves the order
-- open: a value of this type is the map in the order of one run.
abbrev pub Related : Type 0
Related = List (Text × Text)

unfoldable pub primary_of : Text → Related → Option Text
primary_of id [] = none
primary_of id ((rel, primary) ∷ m) =
    let later = primary_of id m in if eq_text rel id then some primary else later

add_related : Text → List Text → Related → Related
add_related primary [] m = m
add_related primary (rel ∷ rels) m =
    add_related primary rels (if is_some (primary_of rel m) then m else m ++ (rel, primary) ∷ [])

collect_from : List SuppressionResult → Related → Related
collect_from [] m = m
collect_from (sr ∷ results) m = collect_from results (
    if sr.suppressed
    then m
    else add_related sr.finding.requirement_id sr.finding.related_requirements m)

unfoldable pub collect_related_requirement_map : List SuppressionResult → Related
unfolding collect_from add_related
collect_related_requirement_map results = collect_from results []

abbrev pub is_not_checked : RequirementStatus → Bool
is_not_checked rs = eq_status rs.status Status.not_checked

abbrev pub cross_referenced : Text → RequirementStatus → RequirementStatus → RequirementStatus
cross_referenced primary primary_rs rs = record rs {
  status = primary_rs.status;
  cross_reference = codes "Covered by same finding (see " ++ (primary ++ codes ")");
}

propagate_one :
    Text → Text → Option RequirementStatus → Option RequirementStatus → StatusMap → StatusMap
propagate_one rel primary none primary_rs m = m
propagate_one rel primary (some rs) none m = m
propagate_one rel primary (some rs) (some primary_rs) m =
    if is_not_checked rs then put_status rel (cross_referenced primary primary_rs rs) m else m

unfoldable pub propagate_cross_references : Related → StatusMap → StatusMap
unfolding propagate_one
propagate_cross_references [] m = m
propagate_cross_references ((rel, primary) ∷ related) m =
    propagate_cross_references related
      (propagate_one rel primary (get_status rel m) (get_status primary m) m)

abbrev from_primary : Text → Option RequirementStatus → RequirementStatus → Option RequirementStatus
from_primary primary none rs = some rs
from_primary primary (some primary_rs) rs =
    if is_not_checked rs then some (cross_referenced primary primary_rs rs) else some rs

-- What a requirement with the first status gets, if the map names a primary one for it.
abbrev pub propagated :
    Option RequirementStatus
    → Option Text
    → (Text → Option RequirementStatus)
    → Option RequirementStatus
propagated none primary look = none
propagated (some rs) none look = some rs
propagated (some rs) (some primary) look = from_primary primary (look primary) rs

abbrev settled : Option RequirementStatus → Bool
settled none = true
settled (some rs) = not (is_not_checked rs)

-- The map names no requirement twice, as a Go map does not.
abbrev pub UniqueKeys : Related → Type 0
UniqueKeys [] = Unit
UniqueKeys ((rel, primary) ∷ m) = (primary_of rel m ≡ none) × UniqueKeys m

-- Every primary requirement is one that some scanner covers, or is not in the database.
abbrev pub Settled : StatusMap → Related → Type 0
Settled m = All (λ e. settled (get_status e.1 m) ≡ true)

get_status-propagate_one :
    (rel primary id : Text) (m : StatusMap)
    → get_status id (propagate_one rel primary (get_status rel m) (get_status primary m) m) ≡ (
        if eq_text rel id
        then propagated (get_status rel m) (some primary) (λ k. get_status k m)
        else get_status id m)
unfolding propagate_one
get_status-propagate_one rel primary id m = go (get_status rel m) (get_status primary m) refl refl
  where
    self :
        (o : Option RequirementStatus)
        → get_status rel m ≡ o
        → get_status id m ≡ (if eq_text rel id then o else get_status id m)
    self o e = elim (eq_text_cases rel id) [
      | inl (h, same) ↦ rw h (subst (λ k. get_status k m ≡ o) same e)
      | inr h ↦ rw h
    ]

    go :
        (o p : Option RequirementStatus)
        → get_status rel m ≡ o
        → get_status primary m ≡ p
        → get_status id (propagate_one rel primary o p m) ≡ (
            if eq_text rel id
            then propagated o (some primary) (λ k. get_status k m)
            else get_status id m)
    go none p e f = self none e
    go (some rs) none e f = rw f (self (some rs) e)
    go (some rs) (some prs) e f = elim (Bool-cases (is_not_checked rs)) [
      | inl h ↦ rw (h, f) (rw h (get_status-put_status rel id _ m))
      | inr h ↦ rw (h, f) (rw h (self (some rs) e))
    ]

propagated-settled :
    (o : Option RequirementStatus) (p : Option Text) (look : Text → Option RequirementStatus)
    → settled o ≡ true
    → propagated o p look ≡ o
propagated-settled none p look h = refl
propagated-settled (some rs) none look h = refl
propagated-settled (some rs) (some p) look h = go (look p)
  where
    go : (q : Option RequirementStatus) → from_primary p q rs ≡ some rs
    go none = refl
    go (some prs) = ground arith

propagated-none :
    (o : Option RequirementStatus) (look : Text → Option RequirementStatus)
    → propagated o none look ≡ o
propagated-none none look = refl
propagated-none (some rs) look = refl

-- A round leaves a settled requirement alone.
propagate_one-settled :
    (rel primary id : Text) (m : StatusMap)
    → settled (get_status id m) ≡ true
    → get_status id (propagate_one rel primary (get_status rel m) (get_status primary m) m)
      ≡ get_status id m
propagate_one-settled rel primary id m h =
    get_status-propagate_one rel primary id m ∙ (elim (eq_text_cases rel id) [
      | inl (e, same) ↦ rw e (rw same (propagated-settled (get_status id m) _ _ h))
      | inr e ↦ rw e refl
    ])

Settled-propagate_one :
    (rel primary : Text) (m : StatusMap) (related : Related)
    → Settled m related
    → Settled (propagate_one rel primary (get_status rel m) (get_status primary m) m) related
Settled-propagate_one rel primary m [] h = tt
Settled-propagate_one rel primary m ((r, p) ∷ related) (h, hs) =
    (rw (propagate_one-settled rel primary p m h) h, Settled-propagate_one rel primary m related hs)

-- The map names only settled primaries, so a lookup of one may be made before or after a round.
propagated-propagate_one :
    (rel primary id : Text) (m : StatusMap) (o : Option RequirementStatus) (related : Related)
    → Settled m related
    → propagated o
        (primary_of id related)
        (λ k. get_status k (propagate_one rel primary (get_status rel m) (get_status primary m) m))
      ≡ propagated o (primary_of id related) (λ k. get_status k m)
unfolding primary_of
propagated-propagate_one rel primary id m none related h = refl
propagated-propagate_one rel primary id m (some rs) [] h = refl
propagated-propagate_one rel primary id m (some rs) ((r, p) ∷ related) (h, hs) =
    elim (Bool-cases (eq_text r id)) [
      | inl e ↦ rw e (ap (λ q. from_primary p q rs) (propagate_one-settled rel primary p m h))
      | inr e ↦ rw e (propagated-propagate_one rel primary id m (some rs) related hs)
    ]

-- If every primary requirement is covered by a scanner or unknown to the database, each requirement
-- ends with the status that the map before the loop decides: a NOT_CHECKED one with a known primary
-- takes that one's status, any other keeps its own. So the order in which Go ranges over the map
-- does not matter.
pub propagate_cross_references_lem :
    (related : Related) (m : StatusMap) (id : Text)
    → UniqueKeys related
    → Settled m related
    → get_status id (propagate_cross_references related m)
      ≡ propagated (get_status id m) (primary_of id related) (λ k. get_status k m)
unfolding propagate_cross_references primary_of
propagate_cross_references_lem [] m id u h = sym (propagated-none _ _)
propagate_cross_references_lem ((rel, primary) ∷ related) m id (new, u) (h, hs) =
    propagate_cross_references_lem related _ id u (Settled-propagate_one rel primary m related hs)
    ∙ propagated-propagate_one rel primary id m _ related hs
    ∙ rw (get_status-propagate_one rel primary id m) (by_id (eq_text_cases rel id))
  where
    by_id :
        ((eq_text rel id ≡ true) × (rel ≡ id)) ⊎ (eq_text rel id ≡ false)
        → propagated
            (if eq_text rel id
              then propagated (get_status rel m) (some primary) (λ k. get_status k m)
              else get_status id m)
            (primary_of id related)
            (λ k. get_status k m)
          ≡ propagated
              (get_status id m)
              (if eq_text rel id then some primary else primary_of id related)
              (λ k. get_status k m)
    by_id (inl (e, same)) =
        rw (e, subst (λ k. primary_of k related ≡ none) same new) (rw same (propagated-none _ _))
    by_id (inr e) = rw e refl
