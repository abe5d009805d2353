-- ===== src/Report/Status/Build.antt =====
-- Theorems on `buildRequirementStatus`, and on the database of pcidb/pcidb.go that it reads.
use mathlib.Core.Option
use mathlib.Core.Path.{subst}
use pci_dss_mcp.Common.{
  ◌≤◌, ◌≡◌, refl, sym, ◌∙◌, ◌⊎◌, inl, inr, Bool, true, false, Option, none, some, List, [], ◌∷◌,
  ◌++◌, arith, Text, eq_text, eq_text_iff, eq_text_cases, if◌then◌else◌, Bool-cases, Option-cases,
  any, count_by,
}
use pci_dss_mcp.Suppression.Apply.{SuppressionResult}
use pci_dss_mcp.Report.Types.{Status}
use pci_dss_mcp.Report.Status.Laws.{is_violation, is_active, is_suppressed, verdict_lem}
use pci_dss_mcp.Report.Status.{classify_findings_by_requirement, classify_requirement_from_findings}
use pci_dss_mcp.Report.Types.{
  Requirement, Db, RequirementStatus, find_requirement, new_db, load_from,
}
use pci_dss_mcp.Report.Status.{
  ReqMap, StatusMap, put_status, get_status, requirement_status, build_from,
  build_requirement_status,
}

pub get_status-put_status :
    (id j : Text) (rs : RequirementStatus) (m : StatusMap)
    → get_status j (put_status id rs m) ≡ (if eq_text id j then some rs else get_status j m)
unfolding get_status put_status
get_status-put_status id j rs [] = refl
get_status-put_status id j rs ((k, old) ∷ m) =
    ground
      (arith, eq_text_iff k id, eq_text_iff k j, eq_text_iff id j, get_status-put_status id j rs m)

-- No ID occurs twice.
abbrev pub Unique : Db → Type 0
Unique [] = Unit
Unique (r ∷ db) = (find_requirement db r.requirement_id ≡ none) × Unique db

module _ (covered : Text → Bool) (req_map : ReqMap) (results : List SuppressionResult) where
  abbrev later_or : Option Requirement → Option RequirementStatus → Option RequirementStatus
  later_or none old = old
  later_or (some req) old = some (requirement_status covered req_map results req)

  build_from_lem :
      (db : Db) (m : StatusMap) (id : Text)
      → Unique db
      → get_status id (build_from covered req_map results db m)
        ≡ later_or (find_requirement db id) (get_status id m)
  unfolding build_from find_requirement
  build_from_lem [] m id u = refl
  build_from_lem (req ∷ db) m id (new, u) =
      build_from_lem db _ id u
      ∙ rw (get_status-put_status req.requirement_id id _ m)
          (by_id (eq_text_cases req.requirement_id id))
    where
      by_id :
          ((eq_text req.requirement_id id ≡ true) × (req.requirement_id ≡ id))
            ⊎ (eq_text req.requirement_id id ≡ false)
          → later_or (find_requirement db id) (
              if eq_text req.requirement_id id
              then some (requirement_status covered req_map results req)
              else get_status id m)
            ≡ later_or
                (if eq_text req.requirement_id id then some req else find_requirement db id)
                (get_status id m)
      by_id (inl (e, same)) =
          let absent : find_requirement db id ≡ none =
            subst (λ k. find_requirement db k ≡ none) same new in
          rw (e, absent) refl
      by_id (inr e) = rw e refl

  -- For a database with no ID twice, the map has exactly the IDs of the database, each with the
  -- status computed from its own findings.
  pub build_requirement_status_lem :
      (db : Db) (id : Text)
      → Unique db
      → get_status id (build_requirement_status db covered req_map results)
        ≡ Option.map (requirement_status covered req_map results) (find_requirement db id)
  unfolding build_requirement_status get_status
  build_requirement_status_lem db id u = build_from_lem db [] id u ∙ as_map (find_requirement db id)
    where
      as_map :
          (o : Option Requirement)
          → later_or o none ≡ Option.map (requirement_status covered req_map results) o
      as_map none = refl
      as_map (some req) = refl

-- What a status says of a requirement: that it was not checked, or the verdict on its findings.
abbrev pub IsStatusOf :
    (Text → Bool) → List SuppressionResult → Requirement → RequirementStatus → Type 0
IsStatusOf covered results req rs =
    (rs.requirement_id ≡ req.requirement_id)
    × (rs.title ≡ req.title)
    × (covered req.requirement_id ≡ false
        → (rs.status ≡ Status.not_checked) × (rs.finding_count ≡ 0))
    × (covered req.requirement_id ≡ true
        → any (is_violation req.requirement_id) results ≡ true
        → (rs.status ≡ Status.fail)
          × (rs.finding_count ≡ count_by (is_active req.requirement_id) results))
    × (covered req.requirement_id ≡ true
        → count_by (is_active req.requirement_id) results ≡ 0
        → 1 ≤ count_by (is_suppressed req.requirement_id) results
        → (rs.status ≡ Status.suppressed)
          × (rs.finding_count ≡ count_by (is_suppressed req.requirement_id) results))
    × (covered req.requirement_id ≡ true
        → any (is_violation req.requirement_id) results ≡ false
        → (1 ≤ count_by (is_active req.requirement_id) results)
          ⊎ (count_by (is_suppressed req.requirement_id) results ≡ 0)
        → (rs.status ≡ Status.pass) × (rs.finding_count ≡ 0))

no_violation :
    (id : Text) (results : List SuppressionResult)
    → count_by (is_active id) results ≡ 0
    → any (is_violation id) results ≡ false
no_violation id [] h = refl
no_violation id (sr ∷ results) h = ground (arith, no_violation id results)

requirement_status-IsStatusOf :
    (covered : Text → Bool) (results : List SuppressionResult) (req : Requirement)
    → IsStatusOf covered results req
        (requirement_status covered (classify_findings_by_requirement results) results req)
unfolding requirement_status classify_requirement_from_findings
requirement_status-IsStatusOf covered results req = elim (Bool-cases (covered req.requirement_id)) [
  | inr e ↦ rw e (refl, refl, (λ h. (refl, refl)), (λ h a. cc), (λ h a b. cc), (λ h a b. cc))
  | inl e ↦
      rw (e, verdict_lem 0 req.requirement_id results)
        (
          refl,
          refl,
          (λ h. cc),
          (λ h a. rw a (refl, refl)),
          (λ h a b. (
            ground (arith, no_violation req.requirement_id results),
            ground (arith, no_violation req.requirement_id results),
          )),
          (λ h a b. rw a (ground arith, ground arith)),
        )
]

-- What the map has at an ID: a status for each requirement of the database, and nothing for any other
-- ID.
abbrev pub IsEntry :
    (Text → Bool) → List SuppressionResult → Option Requirement → Option RequirementStatus → Type 0
IsEntry covered results none none = Unit
IsEntry covered results none (some rs) = ⊥
IsEntry covered results (some req) none = ⊥
IsEntry covered results (some req) (some rs) = IsStatusOf covered results req rs

-- For a database with no ID twice, the map that is built from the classified findings has exactly the
-- IDs of the database. A requirement that no scanner covers is NOT_CHECKED, with no findings. A
-- covered one is FAIL with the number of its standing findings if one of these is CRITICAL, HIGH or
-- MEDIUM; SUPPRESSED with the number of its suppressed findings if there are some and none stands; and
-- otherwise PASS, with the count 0.
pub requirement_statuses_lem :
    (db : Db) (covered : Text → Bool) (results : List SuppressionResult) (id : Text)
    → Unique db
    → IsEntry covered results (find_requirement db id) (
        get_status id
          (build_requirement_status db covered (classify_findings_by_requirement results) results))
requirement_statuses_lem db covered results id u =
    subst (IsEntry covered results (find_requirement db id))
      (sym (
        build_requirement_status_lem covered (classify_findings_by_requirement results) results db
          id u))
      (entry (find_requirement db id))
  where
    entry :
        (o : Option Requirement)
        → IsEntry covered results o (
            Option.map
              (requirement_status covered (classify_findings_by_requirement results) results)
              o)
    entry none = tt
    entry (some req) = requirement_status-IsStatusOf covered results req

find_requirement-append :
    (db : Db) (r : Requirement) (id : Text)
    → find_requirement db id ≡ none
    → eq_text r.requirement_id id ≡ false
    → find_requirement (db ++ r ∷ []) id ≡ none
unfolding find_requirement
find_requirement-append [] r id h e = rw e
find_requirement-append (q ∷ db) r id h e = ground (arith, find_requirement-append db r id)

Unique-append :
    (db : Db) (r : Requirement)
    → Unique db
    → find_requirement db r.requirement_id ≡ none
    → Unique (db ++ r ∷ [])
unfolding find_requirement
Unique-append [] r u h = (refl, tt)
Unique-append (q ∷ db) r (new, u) h = (
  find_requirement-append db r q.requirement_id new (
      ground (
        arith,
        eq_text_iff q.requirement_id r.requirement_id,
        eq_text_iff r.requirement_id q.requirement_id,
      )),
  Unique-append db r u (ground arith),
)

load_from-Unique :
    (db : Db) (reqs : List Requirement) (db' : Db)
    → Unique db
    → load_from db reqs ≡ some db'
    → Unique db'
unfolding load_from
load_from-Unique db [] db' u h = let e : db ≡ db' = cc in subst Unique e u
load_from-Unique db (r ∷ reqs) db' u h =
    elim (Option-cases (find_requirement db r.requirement_id)) [
      | inl e ↦ load_from-Unique (db ++ r ∷ []) reqs db' (Unique-append db r u e) (rw e at h)
      | inr (q, e) ↦ (let k = rw e at h in cc)
    ]

-- A database that `New` returns has no ID twice.
pub new_db-Unique : (reqs : List Requirement) (db : Db) → new_db reqs ≡ some db → Unique db
unfolding new_db
new_db-Unique reqs db h = load_from-Unique [] reqs db tt h
