-- ===== src/Secrets/Counts.antt =====
-- Theorems on `analyzeKeyValueInRoot`: which rules report a value.
use pci_dss_mcp.Common.{
  ℕ, ◌+◌, ◌≡◌, refl, ap, ◌∙◌, inl, inr, Bool, ◌&&◌, ◌||◌, List, [], ◌∷◌, ◌++◌, map, arith, Text,
  eq_text, leb, if◌then◌else◌, Bool-cases, length, any, count_by,
}
use pci_dss_mcp.GoStrings.{has_prefix}
use pci_dss_mcp.Finding.{Finding}
use pci_dss_mcp.Secrets.{
  KeyValue, SecretPrefix, known_secret_prefixes, has_path_or_url_key_suffix, is_basic_placeholder,
  is_substring_placeholder, is_credential_key, Patterns, rule_prefix, rule_connstr,
  rule_credential_key, rule_high_entropy, prefix_findings, conn_findings, credential_findings,
  adjusted_early, adjusted, is_path_or_url_value, is_high_entropy, entropy_findings,
  high_confidence, analyze_key_value_in_root,
}

abbrev pub of_rule : Text → Finding → Bool
of_rule rule f = eq_text f.rule_id rule

-- One finding of a rule under a condition, counted for a rule.
abbrev pub once : Text → Text → Bool → ℕ
once emits rule condition = if eq_text emits rule && condition then 1 else 0

abbrev pub is_known_secret : Text → SecretPrefix → Bool
is_known_secret value sp = has_prefix value sp.prefix && leb sp.min_len (length value)

count-prefix_findings :
    (rule : Text) (kv : KeyValue) (prefixes : List SecretPrefix)
    → count_by (of_rule rule) (prefix_findings kv prefixes)
      ≡ once rule_prefix rule (any (is_known_secret kv.value) prefixes)
unfolding prefix_findings
count-prefix_findings rule kv [] = ground arith
count-prefix_findings rule kv (sp ∷ prefixes) = elim (Bool-cases (is_known_secret kv.value sp)) [
  | inl e ↦ rw e (ground arith)
  | inr e ↦ rw e (count-prefix_findings rule kv prefixes)
]

count-conn_findings :
    (rule : Text) (kv : KeyValue) (patterns : List (Text → Bool))
    → count_by (of_rule rule) (conn_findings kv patterns)
      ≡ once rule_connstr rule (any (λ matches. matches kv.value) patterns)
unfolding conn_findings
count-conn_findings rule kv [] = ground arith
count-conn_findings rule kv (pat ∷ patterns) = elim (Bool-cases (pat kv.value)) [
  | inl e ↦ rw e (ground arith)
  | inr e ↦ rw e (count-conn_findings rule kv patterns)
]

count-credential_findings :
    (rule : Text) (kv : KeyValue)
    → count_by (of_rule rule) (credential_findings kv)
      ≡ once rule_credential_key rule (is_credential_key kv.key)
unfolding credential_findings
count-credential_findings rule kv = elim (Bool-cases (is_credential_key kv.key)) [
  | inl e ↦ rw e (ground arith)
  | inr e ↦ rw e (ground arith)
]

count_by-append :
    {A : Type 0} (p : A → Bool) (xs ys : List A)
    → count_by p (xs ++ ys) ≡ count_by p xs + count_by p ys
count_by-append p [] ys = omega arith
count_by-append p (x ∷ xs) ys = omega (arith, count_by-append p xs ys)

count_by-map :
    {A : Type 0} (p : A → Bool) (f : A → A) (xs : List A)
    → ((x : A) → p (f x) ≡ p x)
    → count_by p (map f xs) ≡ count_by p xs
count_by-map p f [] h = refl
count_by-map p f (x ∷ xs) h = rw (h x, count_by-map p f xs h) refl

of_rule-adjusted :
    (rule : Text) (kv : KeyValue) (root : Text) (f : Finding)
    → of_rule rule (adjusted kv root f) ≡ of_rule rule f
unfolding adjusted
of_rule-adjusted rule kv root f = refl

of_rule-adjusted_early :
    (rule : Text) (kv : KeyValue) (root : Text) (f : Finding)
    → of_rule rule (adjusted_early kv root f) ≡ of_rule rule f
unfolding adjusted_early
of_rule-adjusted_early rule kv root f = refl

module _ (patterns : Patterns) where
  count-entropy_findings :
      (rule : Text) (kv : KeyValue)
      → count_by (of_rule rule) (entropy_findings patterns kv)
        ≡ once rule_high_entropy rule
            (is_credential_key kv.key && is_high_entropy patterns kv.value)
  unfolding entropy_findings
  count-entropy_findings rule kv =
      elim (Bool-cases (is_credential_key kv.key && is_high_entropy patterns kv.value)) [
        | inl e ↦ rw e (ground arith)
        | inr e ↦ rw e (ground arith)
      ]

  abbrev pub high_count : Text → KeyValue → ℕ
  high_count rule kv =
      once rule_prefix rule (any (is_known_secret kv.value) known_secret_prefixes)
      + once rule_connstr rule (any (λ matches. matches kv.value) patterns.conn_strings)

  abbrev pub low_count : Text → KeyValue → ℕ
  low_count rule kv =
      once rule_credential_key rule (is_credential_key kv.key)
      + once rule_high_entropy rule (is_credential_key kv.key && is_high_entropy patterns kv.value)

  -- Whether the two rules on keys are skipped.
  abbrev pub is_discarded : KeyValue → Bool
  is_discarded kv =
      is_substring_placeholder kv.value
      || (has_path_or_url_key_suffix kv.key && is_path_or_url_value patterns kv.value)

  count-high_confidence :
      (rule : Text) (kv : KeyValue)
      → count_by (of_rule rule) (high_confidence patterns kv) ≡ high_count rule kv
  unfolding high_confidence
  count-high_confidence rule kv =
      count_by-append (of_rule rule) (prefix_findings kv known_secret_prefixes) _
      ∙ (ap (λ n. n + count_by (of_rule rule) (conn_findings kv patterns.conn_strings))
            (count-prefix_findings rule kv known_secret_prefixes)
          ∙ ap
              (λ n.
                once rule_prefix rule (any (is_known_secret kv.value) known_secret_prefixes) + n)
              (count-conn_findings rule kv patterns.conn_strings))

  all_counts :
      (rule : Text) (kv : KeyValue)
      → count_by
          (of_rule rule)
          (high_confidence patterns kv ++ (credential_findings kv ++ entropy_findings patterns kv))
        ≡ high_count rule kv + low_count rule kv
  all_counts rule kv = omega (
    arith,
    count_by-append (of_rule rule) (high_confidence patterns kv)
        (credential_findings kv ++ entropy_findings patterns kv),
    count_by-append (of_rule rule) (credential_findings kv) (entropy_findings patterns kv),
    count-high_confidence rule kv,
    count-credential_findings rule kv,
    count-entropy_findings rule kv,
  )

  -- A placeholder or a query has no finding. Of any other value, a known prefix and a connection
  -- string are each reported once, whatever the key is, and, unless the value is discarded, a key
  -- that names a credential is reported once, and once more if the value is of high entropy. There is
  -- no other finding.
  pub analyze_key_value_in_root_lem :
      (kv : KeyValue) (root rule : Text)
      → count_by (of_rule rule) (analyze_key_value_in_root patterns kv root) ≡ (
          if is_basic_placeholder kv.value || patterns.sql_query kv.value
          then 0
          else high_count rule kv + (if is_discarded kv then 0 else low_count rule kv))
  unfolding analyze_key_value_in_root
  analyze_key_value_in_root_lem kv root rule =
      elim (Bool-cases (is_basic_placeholder kv.value || patterns.sql_query kv.value)) [
        | inl e ↦ rw e refl
        | inr e ↦ rw e (elim (Bool-cases (is_substring_placeholder kv.value)) [
          | inl s ↦ rw s (omega (arith, count-high_confidence rule kv))
          | inr s ↦
              rw s
                (elim (Bool-cases
                  (has_path_or_url_key_suffix kv.key && is_path_or_url_value patterns kv.value)) [
                    | inl p ↦
                        rw
                          (
                            p,
                            count_by-map (of_rule rule) (adjusted_early kv root)
                                (high_confidence patterns kv) (of_rule-adjusted_early rule kv root),
                          )
                          (omega (arith, count-high_confidence rule kv))
                    | inr p ↦
                        rw
                          (
                            p,
                            count_by-map (of_rule rule) (adjusted kv root)
                                (high_confidence patterns kv
                                  ++ (credential_findings kv ++ entropy_findings patterns kv))
                                (of_rule-adjusted rule kv root),
                          )
                          (all_counts rule kv)
                  ])
        ])
      ]
