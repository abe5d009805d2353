-- ===== src/Report/Status/Laws.antt =====
-- The verdict on a requirement, stated by the findings themselves instead of lists of indices.
use mathlib.Core.Path.{subst}
use pci_dss_mcp.Common.{
  ℕ, suc, ◌≡◌, refl, sym, ap, ◌∙◌, inl, inr, Bool, true, false, ◌&&◌, not, Option, none, some, List,
  [], ◌∷◌, ◌++◌, append_assoc, append-nil, arith, Text, eq_text, eq_text_cases, ◌==◌, if◌then◌else◌,
  Bool-cases, length, get_elem?, any, count_by,
}
use pci_dss_mcp.Suppression.Apply.{SuppressionResult}
use pci_dss_mcp.Report.Types.{Status}
use pci_dss_mcp.Report.Status.{
  ReqFindings, ReqMap, record_result, classify_from, classify_findings_by_requirement,
  is_actionable, actionable_at, is_nil, verdict, or_new,
}

abbrev is_for : Text → SuppressionResult → Bool
is_for id sr = eq_text sr.finding.requirement_id id

-- A finding of the requirement that stands, and one that was suppressed.
abbrev pub is_active : Text → SuppressionResult → Bool
is_active id sr = is_for id sr && not sr.suppressed

abbrev pub is_suppressed : Text → SuppressionResult → Bool
is_suppressed id sr = is_for id sr && sr.suppressed

abbrev pub is_violation : Text → SuppressionResult → Bool
is_violation id sr = is_active id sr && is_actionable sr.finding.severity

-- The indices of the results that a test accepts, counted from `i`.
indices : (SuppressionResult → Bool) → ℕ → List SuppressionResult → List ℕ
indices p i [] = []
indices p i (sr ∷ results) = let rest = indices p (suc i) results in if p sr then i ∷ rest else rest

abbrev entry_active : Option ReqFindings → List ℕ
entry_active o = (or_new o).active

abbrev entry_suppressed : Option ReqFindings → List ℕ
entry_suppressed o = (or_new o).suppressed

abbrev one_if : Bool → ℕ → List ℕ
one_if b i = if b then i ∷ [] else []

one_if_step :
    (b : Bool) (i : ℕ) (before after : List ℕ)
    → (before ++ one_if b i) ++ after ≡ before ++ (if b then i ∷ after else after)
one_if_step true i before after = append_assoc before (i ∷ []) after
one_if_step false i before after = ap (λ l. l ++ after) (append-nil before)

record_result_lem :
    (i : ℕ) (sr : SuppressionResult) (rf : ReqFindings)
    → ((record_result i sr rf).active ≡ rf.active ++ one_if (not sr.suppressed) i)
      × ((record_result i sr rf).suppressed ≡ rf.suppressed ++ one_if sr.suppressed i)
unfolding record_result
record_result_lem i sr rf = elim (Bool-cases sr.suppressed) [
  | inl e ↦ rw e (sym (append-nil _), refl)
  | inr e ↦ rw e (refl, sym (append-nil _))
]

-- The entry of one key after one round.
step_lem :
    (id : Text) (i : ℕ) (sr : SuppressionResult) (m : ReqMap)
    → let entry : Option ReqFindings =
        if eq_text sr.finding.requirement_id id
        then some (record_result i sr (or_new (m sr.finding.requirement_id)))
        else m id in
      (entry_active entry ≡ entry_active (m id) ++ one_if (is_active id sr) i)
      × (entry_suppressed entry ≡ entry_suppressed (m id) ++ one_if (is_suppressed id sr) i)
unfolding record_result
step_lem id i sr m = elim (eq_text_cases sr.finding.requirement_id id) [
  | inl (e, same) ↦ rw e (rw same (record_result_lem i sr (or_new (m id))))
  | inr e ↦ rw e (sym (append-nil _), sym (append-nil _))
]

-- The map at one key holds the indices of that key's results, in order.
classify_from_lem :
    (id : Text) (i : ℕ) (results : List SuppressionResult) (m : ReqMap)
    → (entry_active (classify_from i results m id)
        ≡ entry_active (m id) ++ indices (is_active id) i results)
      × (entry_suppressed (classify_from i results m id)
          ≡ entry_suppressed (m id) ++ indices (is_suppressed id) i results)
unfolding classify_from indices
classify_from_lem id i [] m = (sym (append-nil _), sym (append-nil _))
classify_from_lem id i (sr ∷ results) m =
    let (a, s) = step_lem id i sr m in
    let (ia, is) = classify_from_lem id (suc i) results _ in
    (
      ia
          ∙ ap (λ l. l ++ indices (is_active id) (suc i) results) a
          ∙ one_if_step (is_active id sr) i (entry_active (m id)) _,
      is
          ∙ ap (λ l. l ++ indices (is_suppressed id) (suc i) results) s
          ∙ one_if_step (is_suppressed id sr) i (entry_suppressed (m id)) _,
    )

length-indices :
    (p : SuppressionResult → Bool) (i : ℕ) (results : List SuppressionResult)
    → length (indices p i results) ≡ count_by p results
unfolding indices
length-indices p i [] = refl
length-indices p i (sr ∷ results) = ground (arith, length-indices p (suc i) results)

get_elem?-append :
    (done : List SuppressionResult) (sr : SuppressionResult) (rest : List SuppressionResult)
    → get_elem? (done ++ sr ∷ rest) (length done) ≡ some sr
get_elem?-append [] sr rest = refl
get_elem?-append (d ∷ done) sr rest = get_elem?-append done sr rest

length-snoc :
    (done : List SuppressionResult) (sr : SuppressionResult)
    → length (done ++ sr ∷ []) ≡ suc (length done)
length-snoc [] sr = refl
length-snoc (d ∷ done) sr = ap suc (length-snoc done sr)

-- Asking the results behind the indices is asking the results.
any-indices :
    (p : SuppressionResult → Bool) (done rest : List SuppressionResult)
    → any (λ idx. actionable_at (get_elem? (done ++ rest) idx)) (indices p (length done) rest)
      ≡ any (λ sr. p sr && is_actionable sr.finding.severity) rest
unfolding indices
any-indices p done [] = refl
any-indices p done (sr ∷ rest) =
    let later : any (λ idx. actionable_at (get_elem? (done ++ sr ∷ rest) idx))
          (indices p (suc (length done)) rest)
        ≡ any (λ s. p s && is_actionable s.finding.severity) rest =
      subst
        (λ (e : List SuppressionResult × ℕ).
          any (λ idx. actionable_at (get_elem? e.0 idx)) (indices p e.1 rest)
          ≡ any (λ s. p s && is_actionable s.finding.severity) rest)
        (λ i. (append_assoc done (sr ∷ []) rest i, length-snoc done sr i))
        (any-indices p (done ++ sr ∷ []) rest) in
    elim (Bool-cases (p sr)) [
      | inl e ↦ rw e (rw (get_elem?-append done sr rest) (rw later))
      | inr e ↦ rw e later
    ]

is_nil-length : (xs : List ℕ) → is_nil xs ≡ (length xs == 0)
is_nil-length [] = refl
is_nil-length (x ∷ xs) = ground arith

verdict-or_new :
    (old : ℕ) (o : Option ReqFindings) (results : List SuppressionResult)
    → verdict old o results ≡ verdict old (some (or_new o)) results
unfolding verdict
verdict-or_new old none results = refl
verdict-or_new old (some rf) results = refl

-- The verdict of the code on the findings of one requirement: FAIL with the number of standing
-- findings if one of them is CRITICAL, HIGH or MEDIUM; else SUPPRESSED with the number of suppressed
-- ones if none stands and some were suppressed; else PASS, with the count unchanged.
pub verdict_lem :
    (old : ℕ) (id : Text) (results : List SuppressionResult)
    → verdict old (classify_findings_by_requirement results id) results ≡ (
        if any (is_violation id) results
        then (Status.fail, count_by (is_active id) results)
        else if (count_by (is_active id) results == 0)
            && not (count_by (is_suppressed id) results == 0)
        then (Status.suppressed, count_by (is_suppressed id) results)
        else (Status.pass, old))
unfolding classify_findings_by_requirement verdict
verdict_lem old id results =
    let (a, s) = classify_from_lem id 0 results (λ _. none) in
    verdict-or_new old (classify_from 0 results (λ _. none) id) results
    ∙ by_lists (entry_active (classify_from 0 results (λ _. none) id))
        (entry_suppressed (classify_from 0 results (λ _. none) id)) a s
  where
    by_lists :
        (acts supps : List ℕ)
        → acts ≡ indices (is_active id) 0 results
        → supps ≡ indices (is_suppressed id) 0 results
        → verdict old (some (record { active = acts; suppressed = supps })) results ≡ (
            if any (is_violation id) results
            then (Status.fail, count_by (is_active id) results)
            else if (count_by (is_active id) results == 0)
                && not (count_by (is_suppressed id) results == 0)
            then (Status.suppressed, count_by (is_suppressed id) results)
            else (Status.pass, old))
    by_lists acts supps a s =
        simp (a, s, any-indices (is_active id) [] results, is_nil-length, length-indices)
