-- ===== src/Dependency/Report/Firsts.antt =====
-- The first of the pairs of dependencies and vulnerabilities for each identifier, and the set of
-- `scanFromCache` from which the reported identifiers are deleted.
use pci_dss_mcp.Common.{
  map, ℕ, count_by, ◌≡◌, refl, ap, inl, inr, Bool, ◌&&◌, not, List, [], ◌∷◌, ◌++◌, arith, Text,
  eq_text, eq_text_iff, eq_text_cases, if◌then◌else◌, Bool-cases, any,
}
use pci_dss_mcp.Dependency.Osv.{Vulnerability, Dependency}
use pci_dss_mcp.Dependency.Report.{is_listed, delete_id}

-- A dependency with a vulnerability that affects it.
abbrev pub Pair : Type 0
Pair = Dependency × Vulnerability

abbrev pub has_id : Text → Pair → Bool
has_id id p = eq_text p.1.id id

abbrev pub is_in : List Text → Text → Bool
is_in ids id = any (λ j. eq_text j id) ids

-- The first pair of each identifier that is wanted and was not seen before.
abbrev pub firsts : List Text → List Text → List Pair → List Pair
firsts wanted seen [] = []
firsts wanted seen (p ∷ pairs) =
    let rest = firsts wanted (p.1.id ∷ seen) pairs in
    if is_in wanted p.1.id && not (is_in seen p.1.id) then p ∷ rest else rest

abbrev wanted_once : Bool → Bool → Bool → ℕ
wanted_once wanted seen listed = if wanted && not seen && listed then 1 else 0

pub count-firsts :
    (wanted seen : List Text) (pairs : List Pair) (id : Text)
    → count_by (has_id id) (firsts wanted seen pairs)
      ≡ wanted_once (is_in wanted id) (is_in seen id) (any (has_id id) pairs)
count-firsts wanted seen [] id = ground arith
count-firsts wanted seen (p ∷ pairs) id = elim (eq_text_cases p.1.id id) [
  | inl (e, same) ↦ ground (
    arith,
    e,
    ap (is_in wanted) same,
    ap (is_in seen) same,
    count-firsts wanted (p.1.id ∷ seen) pairs id,
  )
  | inr e ↦ ground (arith, e, count-firsts wanted (p.1.id ∷ seen) pairs id)
]

is_in-delete_id :
    (id j : Text) (set : List Text)
    → is_in (delete_id id set) j ≡ (is_in set j && not (eq_text id j))
is_in-delete_id id j [] = refl
is_in-delete_id id j (k ∷ set) =
    ground (arith, eq_text_iff k j, eq_text_iff k id, eq_text_iff id j, is_in-delete_id id j set)

-- The set that the loop deletes from holds what is wanted and was not seen.
abbrev pub Tracks : List Text → List Text → List Text → Type 0
Tracks set wanted seen = (j : Text) → is_in set j ≡ (is_in wanted j && not (is_in seen j))

pub Tracks-delete_id :
    (set wanted seen : List Text) (v : Vulnerability)
    → Tracks set wanted seen
    → Tracks (if is_listed set v then delete_id v.id set else set) wanted (v.id ∷ seen)
Tracks-delete_id set wanted seen v h j = elim (Bool-cases (is_in set v.id)) [
  | inl e ↦ rw e (ground (arith, is_in-delete_id v.id j set, h j))
  | inr e ↦ rw e (elim (eq_text_cases v.id j) [
    | inl (f, same) ↦ ground (arith, e, f, ap (is_in set) same)
    | inr f ↦ ground (arith, f, h j)
  ])
]

abbrev pub seen_after : List Text → List Pair → List Text
seen_after seen [] = seen
seen_after seen (p ∷ pairs) = seen_after (p.1.id ∷ seen) pairs

pub firsts-append :
    (wanted seen : List Text) (ps qs : List Pair)
    → firsts wanted seen (ps ++ qs) ≡ firsts wanted seen ps ++ firsts wanted (seen_after seen ps) qs
firsts-append wanted seen [] qs = refl
firsts-append wanted seen (p ∷ ps) qs =
    elim (Bool-cases (is_in wanted p.1.id && not (is_in seen p.1.id))) [
      | inl e ↦ rw e (ap (λ rest. p ∷ rest) (firsts-append wanted (p.1.id ∷ seen) ps qs))
      | inr e ↦ rw e (firsts-append wanted (p.1.id ∷ seen) ps qs)
    ]

abbrev pub pairs_with : Dependency → List Vulnerability → List Pair
pairs_with dep vulns = map (λ v. (dep, v)) vulns
