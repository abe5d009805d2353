-- ===== src/DevContext.antt =====
-- scanner/devcontext.go: how the place of a file and the text of a value lower a severity.
pub mod Laws
use pci_dss_mcp.Common.{
  Bool, true, false, ◌&&◌, ◌||◌, List, [], ◌∷◌, Text, codes, eq_text, if◌then◌else◌, any, ltb,
}
use pci_dss_mcp.GoStrings.{has_prefix, contains, to_lower, split, is_empty}
use pci_dss_mcp.FilePath.{slash, base, rel, to_slash, or_self}
use pci_dss_mcp.Finding.{Severity, severity_rank}

pub record DevContext : Type 0 where
  pub is_dev_path : Bool
  pub is_prod_path : Bool
  pub is_placeholder : Bool
  pub dedicated_dev : Bool
  pub examples_path : Bool
  pub original_sev : Severity
  pub adjusted_sev : Severity
  pub label : Text

abbrev pub prod_path_segments : List Text
prod_path_segments = codes "prod" ∷ codes "production" ∷ codes "k8s" ∷ codes "kubernetes" ∷ []

abbrev pub prod_file_patterns : List Text
prod_file_patterns = codes ".env.prod" ∷ codes ".env.production" ∷ []

abbrev pub prod_path_prefixes : List Text
prod_path_prefixes =
    codes "config/prod."
    ∷ codes "config/prod/"
    ∷ codes "config/production."
    ∷ codes "config/production/"
    ∷ []

abbrev pub examples_segments : List Text
examples_segments = codes "example" ∷ codes "examples" ∷ codes "sample" ∷ codes "samples" ∷ []

abbrev pub dev_path_segments : List Text
dev_path_segments =
    codes "dev"
    ∷ codes "local"
    ∷ codes "docker"
    ∷ codes "fixtures"
    ∷ codes "test"
    ∷ codes "testseed"
    ∷ codes "e2e"
    ∷ codes "example"
    ∷ codes "examples"
    ∷ codes "sample"
    ∷ codes "samples"
    ∷ []

abbrev pub dedicated_dev_segments : List Text
dedicated_dev_segments =
    codes "dev"
    ∷ codes "local"
    ∷ codes "development"
    ∷ codes "sandbox"
    ∷ codes "test"
    ∷ codes "testseed"
    ∷ codes "example"
    ∷ codes "examples"
    ∷ codes "sample"
    ∷ codes "samples"
    ∷ []

abbrev pub dev_file_patterns : List Text
dev_file_patterns =
    codes "docker-compose.dev."
    ∷ codes "docker-compose.local."
    ∷ codes "docker-compose.override."
    ∷ codes ".env.local"
    ∷ codes ".env.dev"
    ∷ codes ".env.development"
    ∷ codes ".env.example"
    ∷ codes ".env.sample"
    ∷ codes ".env.template"
    ∷ codes "config.example."
    ∷ codes "config.sample."
    ∷ []

abbrev pub placeholder_values : List Text
placeholder_values =
    codes "password"
    ∷ codes "changeme"
    ∷ codes "secret"
    ∷ codes "example"
    ∷ codes "localhost"
    ∷ codes "127.0.0.1"
    ∷ codes "test123"
    ∷ codes "dummy"
    ∷ codes "placeholder"
    ∷ []

-- The two nested loops over segments and markers.
unfoldable pub any_segment : List Text → Text → Bool
unfolding split eq_text
any_segment markers path = any (λ seg. any (λ m. eq_text seg m) markers) (split path slash)

unfoldable pub is_prod_path : Text → Bool
unfolding any_segment base contains to_lower
is_prod_path file_path =
    let lower = to_lower (to_slash file_path) in
    any_segment prod_path_segments lower
    || any (λ pat. eq_text (base lower) pat) prod_file_patterns
    || any (λ prefix. contains lower prefix) prod_path_prefixes

-- The path that the segment tests read: inside the scanned tree if the root is known.
unfoldable pub path_for_segments : Text → Text → Text
unfolding rel to_lower
path_for_segments file_path project_root =
    if is_empty project_root
    then to_lower (to_slash file_path)
    else to_lower (to_slash (or_self (rel project_root file_path) file_path))

unfoldable pub is_dev_path : Text → Text → Bool
unfolding path_for_segments any_segment base has_prefix
is_dev_path file_path project_root =
    let b = base (to_lower (to_slash file_path)) in
    any_segment dev_path_segments (path_for_segments file_path project_root)
    || any (λ pat. has_prefix b pat || eq_text b pat) dev_file_patterns

unfoldable pub is_placeholder_value : Text → Bool
unfolding to_lower eq_text
is_placeholder_value value = any (λ p. eq_text (to_lower value) p) placeholder_values

unfoldable pub is_dedicated_dev_path : Text → Bool
unfolding any_segment to_lower
is_dedicated_dev_path file_path = any_segment dedicated_dev_segments (to_lower (to_slash file_path))

unfoldable pub is_examples_path : Text → Text → Bool
unfolding path_for_segments any_segment
is_examples_path file_path project_root =
    any_segment examples_segments (path_for_segments file_path project_root)

abbrev pub dev_label : Text
dev_label = codes "dev-context"

-- The `switch` over the two signals, and the last test: a severity is lowered, never raised.
unfoldable pub lowered : Bool → Bool → Severity → Severity × Text
unfolding severity_rank
lowered false false sev = (sev, [])
lowered dev placeholder sev =
    let candidate = if dev && placeholder then Severity.info else Severity.medium in
    (if ltb (severity_rank candidate) (severity_rank sev) then candidate else sev, dev_label)

unfoldable pub classify_dev_context_in_root : Text → Text → Severity → Text → DevContext
unfolding lowered
classify_dev_context_in_root file_path value sev project_root =
    let dev = is_dev_path file_path project_root in
    let placeholder = is_placeholder_value value in
    let adjusted = lowered dev placeholder sev in
    if is_prod_path file_path
    then record {
      is_dev_path = false;
      is_prod_path = true;
      is_placeholder = false;
      dedicated_dev = false;
      examples_path = false;
      original_sev = sev;
      adjusted_sev = Severity.critical;
      label = [];
    }
    else record {
      is_dev_path = dev;
      is_prod_path = false;
      is_placeholder = placeholder;
      dedicated_dev = is_dedicated_dev_path file_path;
      examples_path = is_examples_path file_path project_root;
      original_sev = sev;
      adjusted_sev = adjusted.0;
      label = adjusted.1;
    }

unfoldable pub classify_dev_context : Text → Text → Severity → DevContext
unfolding classify_dev_context_in_root
classify_dev_context file_path value sev = classify_dev_context_in_root file_path value sev []
