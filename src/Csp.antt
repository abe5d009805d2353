-- ===== src/Csp.antt =====
-- scanner/scriptscanner/cspparse.go: what a Content-Security-Policy header allows to scripts.
pub mod Laws
use pci_dss_mcp.Common.{
  Bool, true, false, ◌&&◌, ◌||◌, Option, none, some, List, [], ◌∷◌, Text, codes, eq_text,
  if◌then◌else◌, is_some,
}
use pci_dss_mcp.GoStrings.{split, trim_space, fields, to_lower, has_prefix}

pub record CspAnalysis : Type 0 where
  pub has_script_src : Bool
  pub has_default_src : Bool
  pub no_script_restriction : Bool
  pub has_unsafe_inline : Bool
  pub has_unsafe_eval : Bool
  pub has_nonce : Bool
  pub has_strict_dynamic : Bool
  pub value_analyzable : Bool

-- The values of the last directive `script-src` and of the last `default-src`, if there is one.
pub record Found : Type 0 where
  pub script_src : Option (List Text)
  pub default_src : Option (List Text)

-- One directive, by its fields.
unfoldable pub note_directive : List Text → Found → Found
note_directive [] found = found
note_directive (name ∷ values) found =
    if eq_text (to_lower name) (codes "script-src")
    then record found { script_src = some values }
    else if eq_text (to_lower name) (codes "default-src")
    then record found { default_src = some values }
    else found

unfoldable pub find_directives : List Text → Found → Found
unfolding note_directive
find_directives [] found = found
find_directives (d ∷ ds) found = find_directives ds (note_directive (fields (trim_space d)) found)

unfoldable pub analyze_values : List Text → CspAnalysis → CspAnalysis
analyze_values [] result = result
analyze_values (v ∷ vs) result = analyze_values vs (
    if eq_text (to_lower v) (codes "'unsafe-inline'")
    then record result { has_unsafe_inline = true }
    else if eq_text (to_lower v) (codes "'unsafe-eval'")
    then record result { has_unsafe_eval = true }
    else if eq_text (to_lower v) (codes "'strict-dynamic'")
    then record result { has_strict_dynamic = true }
    else if has_prefix (to_lower v) (codes "'nonce-")
    then record result { has_nonce = true }
    else result)

abbrev pub override : CspAnalysis → CspAnalysis
override result =
    if result.has_unsafe_inline && (result.has_nonce || result.has_strict_dynamic)
    then record result { has_unsafe_inline = false }
    else result

abbrev pub initial : Found → CspAnalysis
initial found = record {
  has_script_src = is_some found.script_src;
  has_default_src = is_some found.default_src;
  no_script_restriction = false;
  has_unsafe_inline = false;
  has_unsafe_eval = false;
  has_nonce = false;
  has_strict_dynamic = false;
  value_analyzable = true;
}

-- `script-src` comes first, `default-src` is the fallback.
abbrev pub values_to_analyze : Found → Option (List Text)
values_to_analyze found = first found.script_src
  where
    first : Option (List Text) → Option (List Text)
    first none = found.default_src
    first (some vs) = some vs

abbrev pub analysis : CspAnalysis → Option (List Text) → CspAnalysis
analysis result none = record result { no_script_restriction = true }
analysis result (some vs) = override (analyze_values vs result)

unfoldable pub parse_csp : Text → CspAnalysis
unfolding find_directives analyze_values
parse_csp csp_value =
    let found =
      find_directives (split csp_value 59) (record { script_src = none; default_src = none }) in
    analysis (initial found) (values_to_analyze found)
