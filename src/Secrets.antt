-- ===== src/Secrets.antt =====
-- scanner/secretscanner/detect.go: the secrets in the values of configuration files.
pub mod Counts
pub mod Severities
pub mod Env
pub mod Json
pub mod Scan
use pci_dss_mcp.Common.{
  ℕ, Bool, true, ◌&&◌, ◌||◌, not, List, [], ◌∷◌, ◌++◌, map, Text, codes, eq_text, ltb, leb, ◌==◌,
  if◌then◌else◌, length, any, count_by,
}
use pci_dss_mcp.GoStrings.{
  has_prefix, has_suffix, contains, to_lower, split, is_empty, escape_all, quote, without,
}
use pci_dss_mcp.Finding.{Finding, Severity, zero_finding}
use pci_dss_mcp.DevContext.{DevContext, classify_dev_context_in_root}

pub record KeyValue : Type 0 where
  pub key : Text
  pub value : Text
  pub line : ℕ
  pub file_path : Text

pub record SecretPrefix : Type 0 where
  pub name : Text
  pub prefix : Text
  pub min_len : ℕ

abbrev secret_prefix : Text → Text → ℕ → SecretPrefix
secret_prefix n p l = record { name = n; prefix = p; min_len = l }

abbrev pub known_secret_prefixes : List SecretPrefix
known_secret_prefixes =
    secret_prefix (codes "AWS Access Key") (codes "AKIA") 20
    ∷ secret_prefix (codes "AWS Temporary Key") (codes "ASIA") 20
    ∷ secret_prefix (codes "GitHub PAT") (codes "ghp_") 40
    ∷ secret_prefix (codes "GitHub OAuth") (codes "gho_") 40
    ∷ secret_prefix (codes "GitHub User-to-Server") (codes "ghu_") 40
    ∷ secret_prefix (codes "GitHub Server-to-Server") (codes "ghs_") 40
    ∷ secret_prefix (codes "GitHub Refresh") (codes "ghr_") 40
    ∷ secret_prefix (codes "GitHub Fine-Grained PAT") (codes "github_pat_") 82
    ∷ secret_prefix (codes "GitLab PAT") (codes "glpat-") 26
    ∷ secret_prefix (codes "Stripe Live Secret") (codes "sk_live_") 32
    ∷ secret_prefix (codes "Stripe Live Public") (codes "pk_live_") 32
    ∷ secret_prefix (codes "Stripe Test Secret") (codes "sk_test_") 32
    ∷ secret_prefix (codes "Stripe Restricted") (codes "rk_live_") 32
    ∷ secret_prefix (codes "Google API Key") (codes "AIza") 39
    ∷ secret_prefix (codes "Slack Bot Token") (codes "xoxb-") 50
    ∷ secret_prefix (codes "Slack User Token") (codes "xoxp-") 50
    ∷ secret_prefix (codes "Slack App Token") (codes "xoxa-") 50
    ∷ secret_prefix (codes "Slack Socket Token") (codes "xoxs-") 50
    ∷ secret_prefix (codes "Slack Refresh Token") (codes "xoxr-") 50
    ∷ secret_prefix (codes "Anthropic API Key") (codes "sk-ant-") 20
    ∷ secret_prefix (codes "NPM Token") (codes "npm_") 36
    ∷ secret_prefix (codes "PyPI Token") (codes "pypi-") 20
    ∷ secret_prefix (codes "Shopify Private App") (codes "shpat_") 32
    ∷ secret_prefix (codes "Shopify Custom App") (codes "shpca_") 32
    ∷ secret_prefix (codes "Shopify Partner App") (codes "shppa_") 32
    ∷ secret_prefix (codes "SendGrid API Key") (codes "SG.") 20
    ∷ secret_prefix (codes "NVIDIA API Key") (codes "nvapi-") 20
    ∷ secret_prefix (codes "Groq API Key") (codes "gsk_") 20
    ∷ []

abbrev pub credential_key_substrings : List Text
credential_key_substrings =
    codes "password"
    ∷ codes "passwd"
    ∷ codes "secret"
    ∷ codes "apikey"
    ∷ codes "api_key"
    ∷ codes "token"
    ∷ codes "accesskey"
    ∷ codes "privatekey"
    ∷ codes "credential"
    ∷ codes "auth"
    ∷ []

abbrev pub placeholder_exact_values : List Text
placeholder_exact_values =
    codes "xxx"
    ∷ codes "changeme"
    ∷ codes "todo"
    ∷ codes "fixme"
    ∷ codes "replace_me"
    ∷ codes "your_key"
    ∷ codes "your_secret"
    ∷ codes "your_token"
    ∷ codes "your_password"
    ∷ codes "example"
    ∷ codes "dummy"
    ∷ codes "test"
    ∷ codes "none"
    ∷ codes "null"
    ∷ codes "undefined"
    ∷ codes "n/a"
    ∷ []

abbrev pub placeholder_substrings : List Text
placeholder_substrings = codes "changeme" ∷ codes "replace_me" ∷ codes "your_" ∷ codes "fixme" ∷ []

abbrev pub path_url_key_suffixes : List Text
path_url_key_suffixes =
    codes "_path"
    ∷ codes "_dir"
    ∷ codes "_file"
    ∷ codes "_location"
    ∷ codes "_url"
    ∷ codes "_uri"
    ∷ codes "_endpoint"
    ∷ codes "_host"
    ∷ []

-- `parts[len(parts)-1]` of a split by dots, which is never empty.
unfoldable pub last_part : List Text → Text
last_part [] = []
last_part (p ∷ []) = p
last_part (p ∷ q ∷ ps) = last_part (q ∷ ps)

unfoldable pub has_path_or_url_key_suffix : Text → Bool
unfolding last_part
has_path_or_url_key_suffix key =
    any (has_suffix (to_lower (last_part (split key b'.')))) path_url_key_suffixes

unfoldable pub is_alphanum_only : Text → Bool
is_alphanum_only [] = true
is_alphanum_only (c ∷ s) =
    let rest = is_alphanum_only s in
    ((leb b'a' c && leb c b'z') || (leb b'A' c && leb c b'Z') || (leb b'0' c && leb c b'9')) && rest

unfoldable pub looks_like_base64_segment : Text → Bool
unfolding is_alphanum_only
looks_like_base64_segment val =
    any (λ seg. leb 20 (length seg) && is_alphanum_only seg) (split val b'/')

unfoldable pub is_basic_placeholder : Text → Bool
is_basic_placeholder value =
    is_empty value
    || ltb (length value) 4
    || (has_prefix value (codes "<") && has_suffix value (codes ">"))
    || any (eq_text (to_lower value)) placeholder_exact_values

unfoldable pub is_substring_placeholder : Text → Bool
is_substring_placeholder value = any (contains (to_lower value)) placeholder_substrings

unfoldable pub normalize_key : Text → Text
unfolding last_part
normalize_key key = without b'-' (without b'_' (to_lower (last_part (split key b'.'))))

unfoldable pub is_credential_key : Text → Bool
unfolding normalize_key
is_credential_key key =
    any (λ sub. contains (normalize_key key) (without b'_' sub)) credential_key_substrings

-- `MatchString` of the package's regular expressions, those of `connStringPatterns` in their order,
-- and whether `scanner.ShannonEntropy` of a value is above 4.5.
pub record Patterns : Type 0 where
  pub sql_query : Text → Bool
  pub conn_strings : List (Text → Bool)
  pub file_system_path : Text → Bool
  pub relative_path : Text → Bool
  pub hostname : Text → Bool
  pub entropy_above : Text → Bool

abbrev pub rule_prefix : Text
rule_prefix = codes "SEC-PREFIX"

abbrev pub rule_connstr : Text
rule_connstr = codes "SEC-CONNSTR"

abbrev pub rule_credential_key : Text
rule_credential_key = codes "SEC-CREDENTIAL-KEY"

abbrev pub rule_high_entropy : Text
rule_high_entropy = codes "SEC-HIGH-ENTROPY"

abbrev pub emitted : KeyValue → Text → Severity → Text → Text → Finding
emitted kv rule sev text advice = record zero_finding {
  rule_id = rule;
  severity = sev;
  requirement_id = codes "8.6.2";
  file_path = kv.file_path;
  line = kv.line;
  description = text;
  suggestion = advice;
}

-- The first loop: a finding for the first prefix that fits.
unfoldable pub prefix_findings : KeyValue → List SecretPrefix → List Finding
unfolding escape_all has_prefix
prefix_findings kv [] = []
prefix_findings kv (sp ∷ prefixes) =
    let rest = prefix_findings kv prefixes in
    if has_prefix kv.value sp.prefix && leb sp.min_len (length kv.value)
    then emitted kv rule_prefix Severity.critical
        (codes "Possible " ++ (sp.name ++ (codes " detected in key " ++ quote kv.key)))
        (codes "Remove hardcoded secret. Use a vault or environment variable injection.")
      ∷ []
    else rest

unfoldable pub conn_findings : KeyValue → List (Text → Bool) → List Finding
unfolding escape_all
conn_findings kv [] = []
conn_findings kv (pat ∷ patterns) =
    let rest = conn_findings kv patterns in
    if pat kv.value
    then emitted kv rule_connstr Severity.critical
        (codes "Connection string with embedded credentials in key " ++ quote kv.key)
        (codes "Remove credentials from connection string. Use separate credential injection.")
      ∷ []
    else rest

unfoldable pub credential_findings : KeyValue → List Finding
unfolding escape_all is_credential_key
credential_findings kv =
    if is_credential_key kv.key
    then emitted kv rule_credential_key Severity.critical
        (codes "Hardcoded credential value in key " ++ quote kv.key)
        (codes "Remove hardcoded credential. Use a vault or environment variable injection.")
      ∷ []
    else []

abbrev pub marked : DevContext → Finding → Finding
marked dc f = record f {
  dev_context =
      if dc.dedicated_dev || dc.is_dev_path || dc.is_placeholder then true else f.dev_context;
  description =
      if is_empty dc.label
      then f.description
      else f.description ++ (codes " [" ++ (dc.label ++ codes "]"));
}

-- The two loops over the findings; only the second sets a hint.
abbrev pub with_severity : DevContext → Finding → Finding
with_severity dc f = record f {
  severity = if dc.dedicated_dev && not dc.is_prod_path then Severity.info else dc.adjusted_sev;
}

abbrev pub with_hint : DevContext → Finding → Finding
with_hint dc f = record f {
  triage_hint =
      if dc.dedicated_dev && not dc.is_prod_path && dc.examples_path
      then codes "dev_path_examples_skipped"
      else f.triage_hint;
}

unfoldable pub adjusted_early : KeyValue → Text → Finding → Finding
unfolding classify_dev_context_in_root
adjusted_early kv project_root f =
    let dc = classify_dev_context_in_root kv.file_path kv.value f.severity project_root in
    marked dc (with_severity dc f)

unfoldable pub adjusted : KeyValue → Text → Finding → Finding
unfolding classify_dev_context_in_root
adjusted kv project_root f =
    let dc = classify_dev_context_in_root kv.file_path kv.value f.severity project_root in
    marked dc (with_hint dc (with_severity dc f))

module _ (patterns : Patterns) where
  abbrev has_scheme : Text → Bool
  has_scheme lower =
      has_prefix lower (codes "http://")
      || has_prefix lower (codes "https://")
      || has_prefix lower (codes "file://")
      || has_prefix lower (codes "s3://")
      || has_prefix lower (codes "gs://")

  -- A blank, a tab, an equals sign, a quote or a backquote.
  abbrev is_noise : ℕ → Bool
  is_noise c = c == b' ' || c == 9 || c == b'=' || c == 39 || c == 34 || c == 96

  unfoldable pub is_path_or_url_value : Text → Bool
  unfolding looks_like_base64_segment
  is_path_or_url_value val =
      not (is_empty val || any is_noise val)
      && (has_scheme (to_lower val)
          || patterns.file_system_path val
          || (leb 2 (count_by (λ c. c == b'/') val)
              && patterns.relative_path val
              && not (looks_like_base64_segment val))
          || patterns.hostname val)

  abbrev pub is_high_entropy : Text → Bool
  is_high_entropy value = leb 16 (length value) && patterns.entropy_above value

  unfoldable pub entropy_findings : KeyValue → List Finding
  unfolding escape_all is_credential_key
  entropy_findings kv =
      if is_credential_key kv.key && is_high_entropy kv.value
      then emitted kv rule_high_entropy Severity.high
          (codes "High-entropy value in credential key "
            ++ (quote kv.key ++ codes " (possible secret)"))
          (codes
            "Verify this is not a hardcoded secret. Use a vault or environment variable injection.")
        ∷ []
      else []

  unfoldable pub high_confidence : KeyValue → List Finding
  unfolding prefix_findings conn_findings
  high_confidence kv =
      prefix_findings kv known_secret_prefixes ++ conn_findings kv patterns.conn_strings

  unfoldable pub analyze_key_value_in_root : KeyValue → Text → List Finding
  unfolding is_basic_placeholder is_substring_placeholder has_path_or_url_key_suffix
      is_path_or_url_value high_confidence credential_findings entropy_findings adjusted
      adjusted_early
  analyze_key_value_in_root kv project_root =
      if is_basic_placeholder kv.value || patterns.sql_query kv.value
      then []
      else if is_substring_placeholder kv.value
      then high_confidence kv
      else if has_path_or_url_key_suffix kv.key && is_path_or_url_value kv.value
      then map (adjusted_early kv project_root) (high_confidence kv)
      else map (adjusted kv project_root)
          (high_confidence kv ++ (credential_findings kv ++ entropy_findings kv))

  unfoldable pub analyze_key_value : KeyValue → List Finding
  unfolding analyze_key_value_in_root
  analyze_key_value kv = analyze_key_value_in_root kv []
