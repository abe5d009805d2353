-- ===== src/Examples/Texts.antt =====
-- Paths, card numbers, commented JSON and header values.
use pci_dss_mcp.Common.{◌≡◌, refl, inl, inr, true, false, [], ◌∷◌, ◌++◌, arith, Text, codes}
use pci_dss_mcp.Finding.{Severity}
use pci_dss_mcp.DevContext.{
  is_prod_path, is_dev_path, is_placeholder_value, classify_dev_context_in_root, is_examples_path,
  is_dedicated_dev_path,
}
use pci_dss_mcp.DevContext.Laws.{Lowered, classify_lem}
use pci_dss_mcp.Luhn.{luhn_valid}
use pci_dss_mcp.Luhn.Detection.{luhn_valid-replace, luhn_valid-exchange}
use pci_dss_mcp.Csp.{parse_csp}
use pci_dss_mcp.Csp.Laws.{Describes, script_values, parse_csp_lem}

abbrev header : Text
header = codes "default-src 'self'; script-src 'unsafe-inline' 'nonce-abc'"

parse_csp_lem_example : Describes (script_values header) (parse_csp header)
parse_csp_lem_example = parse_csp_lem header

abbrev commented : Text
commented = 91 ∷ 49 ∷ 44 ∷ 47 ∷ 47 ∷ 34 ∷ 10 ∷ 93 ∷ []

valid_test : luhn_valid (codes "411111111111111" ++ 49 ∷ []) ≡ true
unfolding luhn_valid
valid_test = refl

luhn_valid-replace_example : luhn_valid (codes "411111111111111" ++ 50 ∷ []) ≡ false
luhn_valid-replace_example =
    luhn_valid-replace (codes "411111111111111") 49 50 [] valid_test (λ h. omega (arith, h))

valid_pair_test : luhn_valid ([] ++ (52 ∷ 49 ∷ codes "11111111111111")) ≡ true
unfolding luhn_valid
valid_pair_test = refl

luhn_valid-exchange_example : luhn_valid ([] ++ (49 ∷ 52 ∷ codes "11111111111111")) ≡ false
luhn_valid-exchange_example =
    luhn_valid-exchange [] 52 49 (codes "11111111111111") valid_pair_test (λ h. omega (arith, h))
      (λ h. elim h [ inl (e, f) ↦ omega (arith, e) | inr (e, f) ↦ omega (arith, e) ])

classify_lem_example :
    (is_prod_path (codes "/r/test/a.go") ≡ true
      → (classify_dev_context_in_root
          (codes "/r/test/a.go")
          (codes "changeme")
          Severity.high
          (codes "/r")).adjusted_sev
        ≡ Severity.critical)
    × (is_prod_path (codes "/r/test/a.go") ≡ false
        → Lowered
            (is_dev_path (codes "/r/test/a.go") (codes "/r"))
            (is_placeholder_value (codes "changeme"))
            Severity.high
            (classify_dev_context_in_root
              (codes "/r/test/a.go")
              (codes "changeme")
              Severity.high
              (codes "/r")).adjusted_sev)
classify_lem_example =
    classify_lem (codes "/r/test/a.go") (codes "changeme") Severity.high (codes "/r")

examples_test : is_examples_path (codes "/r/examples/a.go") (codes "/r") ≡ true
unfolding is_examples_path
examples_test = refl

sandbox_test : is_dedicated_dev_path (codes "/r/sandbox/a.go") ≡ true
unfolding is_dedicated_dev_path
sandbox_test = refl
