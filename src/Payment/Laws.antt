-- ===== src/Payment/Laws.antt =====
-- Theorems on `IsPaymentContext` and the cache of its scores.
use pci_dss_mcp.Common.{
  ◌≡◌, refl, sym, ap, ◌∙◌, ◌⊎◌, inl, inr, Bool, true, false, ◌||◌, Option, none, some, List, [],
  ◌∷◌, ◌++◌, map, append_assoc, arith, Text, eq_text, eq_text_refl, eq_text_cases, leb,
  if◌then◌else◌, Bool-cases,
}
use mathlib.Core.Path.{subst}
use pci_dss_mcp.Payment.{
  FuncDecl, CachedScore, PackageInfo, payment_context_threshold, score_cache_key,
  matches_payment_func_keyword, in_payment_dir, has_sdk_import, chd_type_in_signature,
  chd_type_in_locals, chd_field_in_body, has_internal_payment_import, of_package, scored,
  signals_of, lookup_score, cached_or_scored, payment_context_score_internal, payment_context_score,
  is_payment_context, payment_contexts,
}

-- Whether one of the six signals fires.
abbrev pub any_signal : FuncDecl → Option PackageInfo → Bool
any_signal fn pkg =
    matches_payment_func_keyword fn.name
    || of_package (λ p. in_payment_dir p.dir) pkg
    || of_package (λ p. has_sdk_import p.imports) pkg
    || (chd_type_in_signature fn || chd_type_in_locals fn)
    || chd_field_in_body fn
    || of_package (λ p. has_internal_payment_import p.imports) pkg

scored_lem :
    (a b c d e f : Bool)
    → leb payment_context_threshold (scored a b c d e f).0 ≡ (a || b || c || d || e || f)
scored_lem a b c d e f = ground arith

signals_of-any_signal :
    (fn : FuncDecl) (pkg : Option PackageInfo)
    → leb payment_context_threshold (signals_of fn pkg).0 ≡ any_signal fn pkg
unfolding signals_of
signals_of-any_signal fn pkg =
    scored_lem (matches_payment_func_keyword fn.name) (of_package (λ p. in_payment_dir p.dir) pkg)
      (of_package (λ p. has_sdk_import p.imports) pkg)
      (chd_type_in_signature fn || chd_type_in_locals fn) (chd_field_in_body fn)
      (of_package (λ p. has_internal_payment_import p.imports) pkg)

score_cases :
    (fn : FuncDecl) (pkg : PackageInfo)
    → payment_context_score_internal (some fn) (some pkg)
      ≡ cached_or_scored fn pkg (lookup_score (score_cache_key fn) pkg.score_cache)
unfolding payment_context_score_internal
score_cases fn pkg = refl

abbrev pub with_cache : Text → List Text → List (Text × CachedScore) → PackageInfo
with_cache dir imports cache = record { dir = dir; imports = imports; score_cache = cache }

-- The first function of a list that has the key, or else the one that is given.
abbrev pub first_of_key : Text → List FuncDecl → FuncDecl → FuncDecl
first_of_key key [] fn = fn
first_of_key key (g ∷ fns) fn =
    let later = first_of_key key fns fn in if eq_text (score_cache_key g) key then g else later

first_of_key-append :
    (earlier later : List FuncDecl) (fn : FuncDecl)
    → first_of_key (score_cache_key fn) (earlier ++ fn ∷ later) fn
      ≡ first_of_key (score_cache_key fn) earlier fn
first_of_key-append [] later fn = rw (eq_text_refl (score_cache_key fn)) refl
first_of_key-append (g ∷ earlier) later fn = rw (first_of_key-append earlier later fn) refl

abbrev or_else : Option CachedScore → Option CachedScore → Option CachedScore
or_else (some s) t = some s
or_else none t = t

module _ (dir : Text) (imports : List Text) where
  abbrev signals : FuncDecl → CachedScore
  signals fn = signals_of fn (some (with_cache dir imports []))

  -- The score of the first function with the key.
  abbrev scored_first : Text → List FuncDecl → Option CachedScore
  scored_first key [] = none
  scored_first key (g ∷ fns) =
      let later = scored_first key fns in
      if eq_text (score_cache_key g) key then some (signals g) else later

  scored_first-append :
      (key : Text) (earlier : List FuncDecl) (fn : FuncDecl)
      → scored_first key (earlier ++ fn ∷ [])
        ≡ or_else
            (scored_first key earlier)
            (if eq_text (score_cache_key fn) key then some (signals fn) else none)
  scored_first-append key [] fn = refl
  scored_first-append key (g ∷ earlier) fn = elim (Bool-cases (eq_text (score_cache_key g) key)) [
    | inl e ↦ rw e refl
    | inr e ↦ rw e (scored_first-append key earlier fn)
  ]

  scored_first-first_of_key :
      (earlier : List FuncDecl) (fn : FuncDecl) (hit : CachedScore)
      → scored_first (score_cache_key fn) earlier ≡ some hit
      → hit ≡ signals (first_of_key (score_cache_key fn) earlier fn)
  scored_first-first_of_key [] fn hit e = cc
  scored_first-first_of_key (g ∷ earlier) fn hit e =
      elim (Bool-cases (eq_text (score_cache_key g) (score_cache_key fn))) [
        | inl same ↦
            let first : some (signals g) ≡ some hit = rw same at e in
            let found : signals g ≡ hit = cc first in rw same (sym found)
        | inr differ ↦ rw differ (scored_first-first_of_key earlier fn hit (rw differ at e))
      ]

  scored_first-absent :
      (earlier : List FuncDecl) (fn : FuncDecl)
      → scored_first (score_cache_key fn) earlier ≡ none
      → first_of_key (score_cache_key fn) earlier fn ≡ fn
  scored_first-absent [] fn e = refl
  scored_first-absent (g ∷ earlier) fn e =
      elim (Bool-cases (eq_text (score_cache_key g) (score_cache_key fn))) [
        | inl same ↦ (let first : some (signals g) ≡ none = rw same at e in cc first)
        | inr differ ↦ rw differ (scored_first-absent earlier fn (rw differ at e))
      ]

  -- The cache has, at each key, the score of the first function that was asked for with it.
  abbrev IsCache : List FuncDecl → List (Text × CachedScore) → Type 0
  IsCache earlier cache = (key : Text) → lookup_score key cache ≡ scored_first key earlier

  signals_of-with_cache :
      (fn : FuncDecl) (cache : List (Text × CachedScore))
      → signals_of fn (some (with_cache dir imports cache)) ≡ signals fn
  unfolding signals_of
  signals_of-with_cache fn cache = refl

  IsCache-hit :
      (earlier : List FuncDecl) (fn : FuncDecl) (cache : List (Text × CachedScore))
      (hit : CachedScore)
      → IsCache earlier cache
      → lookup_score (score_cache_key fn) cache ≡ some hit
      → IsCache (earlier ++ fn ∷ []) cache
  IsCache-hit earlier fn cache hit h e key =
      h key
      ∙ (by_key (eq_text_cases (score_cache_key fn) key) ∙ sym (scored_first-append key earlier fn))
    where
      kept : (o : Option CachedScore) → o ≡ or_else o none
      kept none = refl
      kept (some s) = refl

      by_key :
          ((eq_text (score_cache_key fn) key ≡ true) × (score_cache_key fn ≡ key))
            ⊎ (eq_text (score_cache_key fn) key ≡ false)
          → scored_first key earlier
            ≡ or_else
                (scored_first key earlier)
                (if eq_text (score_cache_key fn) key then some (signals fn) else none)
      by_key (inl (same, eq)) =
          let found : scored_first key earlier ≡ some hit =
            subst (λ k. scored_first k earlier ≡ some hit) eq (sym (h (score_cache_key fn)) ∙ e) in
          rw found refl
      by_key (inr differ) = rw differ (kept (scored_first key earlier))

  IsCache-miss :
      (earlier : List FuncDecl) (fn : FuncDecl) (cache : List (Text × CachedScore))
      → IsCache earlier cache
      → lookup_score (score_cache_key fn) cache ≡ none
      → IsCache (earlier ++ fn ∷ []) ((score_cache_key fn, signals fn) ∷ cache)
  unfolding lookup_score
  IsCache-miss earlier fn cache h e key =
      by_key (eq_text_cases (score_cache_key fn) key) ∙ sym (scored_first-append key earlier fn)
    where
      kept : (o : Option CachedScore) → o ≡ or_else o none
      kept none = refl
      kept (some s) = refl

      by_key :
          ((eq_text (score_cache_key fn) key ≡ true) × (score_cache_key fn ≡ key))
            ⊎ (eq_text (score_cache_key fn) key ≡ false)
          → (if eq_text (score_cache_key fn) key then some (signals fn) else lookup_score key cache)
            ≡ or_else
                (scored_first key earlier)
                (if eq_text (score_cache_key fn) key then some (signals fn) else none)
      by_key (inl (same, eq)) =
          let absent : scored_first key earlier ≡ none =
            subst (λ k. scored_first k earlier ≡ none) eq (sym (h (score_cache_key fn)) ∙ e) in
          rw (same, absent) refl
      by_key (inr differ) = rw differ (h key ∙ kept (scored_first key earlier))

  abbrev Leaves : List FuncDecl → FuncDecl → CachedScore × Option PackageInfo → Type 0
  Leaves earlier fn (result, none) = ⊥
  Leaves earlier fn (result, some pkg) =
      (result ≡ signals (first_of_key (score_cache_key fn) earlier fn))
      × (cache : List (Text × CachedScore)) × (pkg ≡ with_cache dir imports cache)
      × IsCache (earlier ++ fn ∷ []) cache

  cached_step :
      (earlier : List FuncDecl) (fn : FuncDecl) (cache : List (Text × CachedScore))
      (o : Option CachedScore)
      → IsCache earlier cache
      → lookup_score (score_cache_key fn) cache ≡ o
      → Leaves earlier fn (cached_or_scored fn (with_cache dir imports cache) o)
  cached_step earlier fn cache none h e = (
    signals_of-with_cache fn cache
        ∙ ap signals (sym (scored_first-absent earlier fn (sym (h (score_cache_key fn)) ∙ e))),
    (score_cache_key fn, signals_of fn (some (with_cache dir imports cache))) ∷ cache,
    refl,
    rw (signals_of-with_cache fn cache) (IsCache-miss earlier fn cache h e),
  )
  cached_step earlier fn cache (some hit) h e = (
    scored_first-first_of_key earlier fn hit (sym (h (score_cache_key fn)) ∙ e),
    cache,
    refl,
    IsCache-hit earlier fn cache hit h e,
  )

  -- The answer for a function of a scan: whether a signal fires for the first function of its key.
  abbrev pub answer : List FuncDecl → FuncDecl → Bool
  answer fns f =
      any_signal (first_of_key (score_cache_key f) fns f) (some (with_cache dir imports []))

  payment_contexts_loop :
      (fns earlier : List FuncDecl) (cache : List (Text × CachedScore))
      → IsCache earlier cache
      → payment_contexts fns (some (with_cache dir imports cache))
        ≡ map (answer (earlier ++ fns)) fns
  unfolding payment_contexts is_payment_context payment_context_score
  payment_contexts_loop [] earlier cache h = refl
  payment_contexts_loop (fn ∷ fns) earlier cache h =
      go (payment_context_score_internal (some fn) (some (with_cache dir imports cache)))
        (rw (score_cases fn (with_cache dir imports cache)) (cached_step earlier fn cache _ h refl))
        (λ c. payment_contexts_loop fns (earlier ++ fn ∷ []) c)
    where
      go :
          (r : CachedScore × Option PackageInfo)
          → Leaves earlier fn r
          → ((c : List (Text × CachedScore))
              → IsCache (earlier ++ fn ∷ []) c
              → payment_contexts fns (some (with_cache dir imports c))
                ≡ map (answer ((earlier ++ fn ∷ []) ++ fns)) fns)
          → (leb payment_context_threshold r.0.0 ∷ payment_contexts fns r.1)
            ≡ (answer (earlier ++ fn ∷ fns) fn ∷ map (answer (earlier ++ fn ∷ fns)) fns)
      go (result, none) l ih = elim l [ ]
      go (result, some pkg) (same, c, left, coherent) ih =
          let now : leb payment_context_threshold result.0 ≡ answer (earlier ++ fn ∷ fns) fn =
            ap (λ (r : CachedScore). leb payment_context_threshold r.0) same
            ∙ (signals_of-any_signal (first_of_key (score_cache_key fn) earlier fn)
                  (some (with_cache dir imports []))
                ∙ ap (λ (f : FuncDecl). any_signal f (some (with_cache dir imports [])))
                    (sym (first_of_key-append earlier fns fn))) in
          let later : payment_contexts fns (some pkg) ≡ map (answer (earlier ++ fn ∷ fns)) fns =
            ap (λ (q : PackageInfo). payment_contexts fns (some q)) left
            ∙ (ih c coherent
                ∙ ap (λ (l : List FuncDecl). map (answer l) fns)
                    (append_assoc earlier (fn ∷ []) fns)) in
          λ i. now i ∷ later i

  -- Asked for the functions of a scan one after the other, with the cache that the calls before left,
  -- the scorer answers for each function as for the first function of the scan that has its cache key,
  -- which is the function itself where no earlier one has its key: it is taken for one of payments
  -- exactly if one of the six signals fires for that first function: its name, its package's
  -- directory, an import of a payment SDK, a type of card data among its parameters or variables, a
  -- field of card data in its body, or an import of a payment package.
  pub payment_contexts_lem :
      (fns : List FuncDecl)
      → payment_contexts fns (some (with_cache dir imports [])) ≡ map (answer fns) fns
  unfolding lookup_score
  payment_contexts_lem fns = payment_contexts_loop fns [] [] (λ key. refl)
