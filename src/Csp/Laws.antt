-- ===== src/Csp/Laws.antt =====
-- Theorems on `parseCSP` of scanner/scriptscanner/cspparse.go: its directives and flags.
use mathlib.Core.Path.{subst}
use pci_dss_mcp.Common.{
  ◌≡◌, refl, sym, ap, ◌∙◌, Bool, true, false, ◌&&◌, ◌||◌, not, Option, none, some, List, [], ◌∷◌,
  arith, Text, codes, eq_text, eq_text_sound, if◌then◌else◌, any,
}
use pci_dss_mcp.GoStrings.{split, to_lower, has_prefix, fields, trim_space}
use pci_dss_mcp.Csp.{
  CspAnalysis, Found, note_directive, find_directives, analyze_values, initial, values_to_analyze,
  override, analysis, parse_csp,
}

abbrev pub is_value : Text → Text → Bool
is_value name v = eq_text (to_lower v) name

abbrev pub is_inline : Text → Bool
is_inline = is_value (codes "'unsafe-inline'")

abbrev pub is_eval : Text → Bool
is_eval = is_value (codes "'unsafe-eval'")

abbrev pub is_dynamic : Text → Bool
is_dynamic = is_value (codes "'strict-dynamic'")

abbrev pub is_nonce : Text → Bool
is_nonce v = has_prefix (to_lower v) (codes "'nonce-")

-- A test that fails on a word does not hold where the word is.
excluded : (t w : Text) (p : Text → Bool) → p w ≡ false → eq_text t w ≡ true → p t ≡ false
excluded t w p absent at_word = subst (λ u. p u ≡ false) (sym (eq_text_sound t w at_word)) absent

-- The three words are different, and none begins like a nonce.
Apart : Text → Type 0
Apart v =
    (is_inline v ≡ true → is_eval v ≡ false)
    × (is_inline v ≡ true → is_dynamic v ≡ false)
    × (is_inline v ≡ true → is_nonce v ≡ false)
    × (is_eval v ≡ true → is_dynamic v ≡ false)
    × (is_eval v ≡ true → is_nonce v ≡ false)
    × (is_dynamic v ≡ true → is_nonce v ≡ false)

apart : (v : Text) → Apart v
unfolding Apart has_prefix eq_text
apart v = (
  excluded (to_lower v) (codes "'unsafe-inline'") (λ t. eq_text t (codes "'unsafe-eval'")) refl,
  excluded (to_lower v) (codes "'unsafe-inline'") (λ t. eq_text t (codes "'strict-dynamic'")) refl,
  excluded (to_lower v) (codes "'unsafe-inline'") (λ t. has_prefix t (codes "'nonce-")) refl,
  excluded (to_lower v) (codes "'unsafe-eval'") (λ t. eq_text t (codes "'strict-dynamic'")) refl,
  excluded (to_lower v) (codes "'unsafe-eval'") (λ t. has_prefix t (codes "'nonce-")) refl,
  excluded (to_lower v) (codes "'strict-dynamic'") (λ t. has_prefix t (codes "'nonce-")) refl,
)

-- The flags of a result, and the fields that the loop leaves alone.
abbrev pub Flags : Bool → Bool → Bool → Bool → CspAnalysis → CspAnalysis → Type 0
Flags inline eval' dynamic nonce r old =
    (r.has_unsafe_inline ≡ inline)
    × (r.has_unsafe_eval ≡ eval')
    × (r.has_strict_dynamic ≡ dynamic)
    × (r.has_nonce ≡ nonce)
    × (r.has_script_src ≡ old.has_script_src)
    × (r.has_default_src ≡ old.has_default_src)
    × (r.no_script_restriction ≡ old.no_script_restriction)

one_value : Text → CspAnalysis → CspAnalysis
one_value v r =
    if is_inline v
    then record r { has_unsafe_inline = true }
    else if is_eval v
    then record r { has_unsafe_eval = true }
    else if is_dynamic v
    then record r { has_strict_dynamic = true }
    else if is_nonce v
    then record r { has_nonce = true }
    else r

one_value_lem :
    (v : Text) (r : CspAnalysis)
    → Flags
        (r.has_unsafe_inline || is_inline v)
        (r.has_unsafe_eval || is_eval v)
        (r.has_strict_dynamic || is_dynamic v)
        (r.has_nonce || is_nonce v)
        (one_value v r)
        r
unfolding one_value Apart
one_value_lem v r = let h = apart v in ground (arith, h)

chain :
    (r mid out : CspAnalysis) (i1 e1 d1 n1 i2 e2 d2 n2 : Bool)
    → Flags
        (r.has_unsafe_inline || i1)
        (r.has_unsafe_eval || e1)
        (r.has_strict_dynamic || d1)
        (r.has_nonce || n1)
        mid
        r
    → Flags
        (mid.has_unsafe_inline || i2)
        (mid.has_unsafe_eval || e2)
        (mid.has_strict_dynamic || d2)
        (mid.has_nonce || n2)
        out
        mid
    → Flags
        (r.has_unsafe_inline || (i1 || i2))
        (r.has_unsafe_eval || (e1 || e2))
        (r.has_strict_dynamic || (d1 || d2))
        (r.has_nonce || (n1 || n2))
        out
        r
chain r mid out i1 e1 d1 n1 i2 e2 d2 n2 (a, b, c, d, e, f, g) (a', b', c', d', e', f', g') = (
  ground (arith, a, a'),
  ground (arith, b, b'),
  ground (arith, c, c'),
  ground (arith, d, d'),
  e' ∙ e,
  f' ∙ f,
  g' ∙ g,
)

analyze_values_cons :
    (v : Text) (vs : List Text) (r : CspAnalysis)
    → analyze_values (v ∷ vs) r ≡ analyze_values vs (one_value v r)
unfolding analyze_values one_value
analyze_values_cons v vs r = refl

analyze_values_nil : (r : CspAnalysis) → analyze_values [] r ≡ r
unfolding analyze_values
analyze_values_nil r = refl

analyze_values_lem :
    (vs : List Text) (r : CspAnalysis)
    → Flags
        (r.has_unsafe_inline || any is_inline vs)
        (r.has_unsafe_eval || any is_eval vs)
        (r.has_strict_dynamic || any is_dynamic vs)
        (r.has_nonce || any is_nonce vs)
        (analyze_values vs r)
        r
analyze_values_lem [] r = rw (analyze_values_nil r) (ground arith)
analyze_values_lem (v ∷ vs) r = rw (analyze_values_cons v vs r) (
    chain r (one_value v r) (analyze_values vs (one_value v r)) _ _ _ _ _ _ _ _ (one_value_lem v r)
      (analyze_values_lem vs (one_value v r)))

-- The values of the last directive of a name.
abbrev own : Text → List Text → Option (List Text)
own name [] = none
own name (w ∷ values) = if eq_text (to_lower w) name then some values else none

abbrev later_of : Option (List Text) → Option (List Text) → Option (List Text)
later_of none o = o
later_of (some vs) o = some vs

abbrev pub last_named : Text → List Text → Option (List Text)
last_named name [] = none
last_named name (d ∷ ds) = later_of (last_named name ds) (own name (fields (trim_space d)))

later_of_assoc :
    (o p q : Option (List Text)) → later_of o (later_of p q) ≡ later_of (later_of o p) q
later_of_assoc none p q = refl
later_of_assoc (some vs) p q = refl

script-default : eq_text (codes "script-src") (codes "default-src") ≡ false
unfolding eq_text
script-default = refl

note_directive_lem :
    (ws : List Text) (found : Found)
    → ((note_directive ws found).script_src
        ≡ later_of (own (codes "script-src") ws) found.script_src)
      × ((note_directive ws found).default_src
          ≡ later_of (own (codes "default-src") ws) found.default_src)
unfolding note_directive
note_directive_lem [] found = (refl, refl)
note_directive_lem (w ∷ values) found =
    let apart' =
      excluded (to_lower w) (codes "script-src") (λ t. eq_text t (codes "default-src"))
        script-default in
    ground (arith, apart')

find_directives_lem :
    (ds : List Text) (found : Found)
    → ((find_directives ds found).script_src
        ≡ later_of (last_named (codes "script-src") ds) found.script_src)
      × ((find_directives ds found).default_src
          ≡ later_of (last_named (codes "default-src") ds) found.default_src)
unfolding find_directives
find_directives_lem [] found = (refl, refl)
find_directives_lem (d ∷ ds) found =
    let ws = fields (trim_space d) in
    let (a, b) = note_directive_lem ws found in
    let (c, e) = find_directives_lem ds (note_directive ws found) in
    (
      c
          ∙ (ap (later_of (last_named (codes "script-src") ds)) a
              ∙ later_of_assoc (last_named (codes "script-src") ds) (own (codes "script-src") ws)
                  found.script_src),
      e
          ∙ (ap (later_of (last_named (codes "default-src") ds)) b
              ∙ later_of_assoc (last_named (codes "default-src") ds) (own (codes "default-src") ws)
                  found.default_src),
    )

-- The values that count: those of the last `script-src`, else those of the last `default-src`.
abbrev pub script_values : Text → Option (List Text)
script_values csp_value =
    later_of (last_named (codes "script-src") (split csp_value 59))
      (last_named (codes "default-src") (split csp_value 59))

abbrev pub Restricted : List Text → CspAnalysis → Type 0
Restricted vs r =
    (r.has_unsafe_inline ≡ any is_inline vs && not (any is_nonce vs || any is_dynamic vs))
    × (r.has_unsafe_eval ≡ any is_eval vs)
    × (r.has_strict_dynamic ≡ any is_dynamic vs)
    × (r.has_nonce ≡ any is_nonce vs)
    × (r.no_script_restriction ≡ false)

abbrev pub Describes : Option (List Text) → CspAnalysis → Type 0
Describes none r = (r.no_script_restriction ≡ true) × (r.has_unsafe_inline ≡ false)
Describes (some vs) r = Restricted vs r

later_of-none : (o : Option (List Text)) → later_of o none ≡ o
later_of-none none = refl
later_of-none (some vs) = refl

values_to_analyze_lem :
    (found : Found) → values_to_analyze found ≡ later_of found.script_src found.default_src
values_to_analyze_lem found = go found.script_src found.default_src
  where
    go :
        (s d : Option (List Text))
        → values_to_analyze (record { script_src = s; default_src = d }) ≡ later_of s d
    go none d = refl
    go (some vs) d = refl

override_lem :
    (vs : List Text) (r old : CspAnalysis)
    → Flags (any is_inline vs) (any is_eval vs) (any is_dynamic vs) (any is_nonce vs) r old
    → old.no_script_restriction ≡ false
    → Restricted vs (override r)
override_lem vs r old (a, b, c, d, e, f, g) h = ground (arith, a, b, c, d, g, h)

analysis-Describes :
    (found : Found) (o : Option (List Text)) → Describes o (analysis (initial found) o)
analysis-Describes found none = (refl, refl)
analysis-Describes found (some vs) =
    override_lem vs (analyze_values vs (initial found)) (initial found)
      (analyze_values_lem vs (initial found)) refl

-- The analysis of a header value goes by the values of its last `script-src` directive, else of its
-- last `default-src`. With either, each flag says whether a value of its kind is listed, except that
-- `unsafe-inline` counts only where neither a nonce nor `strict-dynamic` is listed. With neither, the
-- analysis says that scripts are not restricted.
pub parse_csp_lem : (csp_value : Text) → Describes (script_values csp_value) (parse_csp csp_value)
unfolding parse_csp
parse_csp_lem csp_value =
    let found =
      find_directives (split csp_value 59) (record { script_src = none; default_src = none }) in
    let (a, b) =
      find_directives_lem (split csp_value 59) (record { script_src = none; default_src = none }) in
    let same : values_to_analyze found ≡ script_values csp_value =
      values_to_analyze_lem found
      ∙ (ap (λ o. later_of o found.default_src) (a ∙ later_of-none _)
          ∙ ap (later_of (last_named (codes "script-src") (split csp_value 59)))
              (b ∙ later_of-none _)) in
    subst (λ o. Describes o (analysis (initial found) (values_to_analyze found))) same
      (analysis-Describes found (values_to_analyze found))
