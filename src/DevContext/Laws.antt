-- ===== src/DevContext/Laws.antt =====
-- Theorems on the classification of scanner/devcontext.go.
use pci_dss_mcp.Common.{
  ◌≤◌, ◌<◌, ◌≡◌, refl, ◌⊎◌, Bool, true, false, ◌&&◌, ◌||◌, List, [], ◌∷◌, arith, Text, codes,
  eq_text, if◌then◌else◌, any,
}
use pci_dss_mcp.Finding.{Severity, severity_rank}
use pci_dss_mcp.DevContext.{
  slash, dedicated_dev_segments, split, to_lower, examples_segments, dev_path_segments,
  path_for_segments, is_placeholder_value, is_dev_path, is_dedicated_dev_path, is_examples_path,
  any_segment, is_prod_path, lowered, classify_dev_context_in_root,
}

-- The severity that the switch picks for a signal.
abbrev pub candidate : Bool → Bool → Severity
candidate dev placeholder = if dev && placeholder then Severity.info else Severity.medium

-- How the switch moves a severity.
abbrev pub Lowered : Bool → Bool → Severity → Severity → Type 0
Lowered dev placeholder sev adjusted =
    ((dev || placeholder) ≡ false → adjusted ≡ sev)
    × ((dev || placeholder) ≡ true
        → severity_rank (candidate dev placeholder) < severity_rank sev
        → adjusted ≡ candidate dev placeholder)
    × ((dev || placeholder) ≡ true
        → severity_rank sev ≤ severity_rank (candidate dev placeholder)
        → adjusted ≡ sev)

lowered-Lowered :
    (dev placeholder : Bool) (sev : Severity)
    → Lowered dev placeholder sev (lowered dev placeholder sev).0
unfolding lowered
lowered-Lowered false false sev = ((λ h. refl), (λ h. cc), (λ h. cc))
lowered-Lowered true placeholder sev = ((λ h. cc), (λ h k. ground arith), (λ h k. ground arith))
lowered-Lowered false true sev = ((λ h. cc), (λ h k. ground arith), (λ h k. ground arith))

-- On a production path the adjusted severity is CRITICAL. On any other path it is INFO for a
-- placeholder in a dev path, and MEDIUM where one of the two holds, if that ranks below the original
-- severity; if it does not, or neither holds, it is the original one.
pub classify_lem :
    (file_path value : Text) (sev : Severity) (root : Text)
    → (is_prod_path file_path ≡ true
        → (classify_dev_context_in_root file_path value sev root).adjusted_sev ≡ Severity.critical)
      × (is_prod_path file_path ≡ false
          → Lowered
              (is_dev_path file_path root)
              (is_placeholder_value value)
              sev
              (classify_dev_context_in_root file_path value sev root).adjusted_sev)
unfolding classify_dev_context_in_root
classify_lem file_path value sev root = ((λ h. rw h refl), (λ h. rw h (lowered-Lowered _ _ sev)))

-- A marker list that holds another finds every path that the other finds.
any_segment_mono :
    (ms ns : List Text)
    → ((seg : Text) → any (λ m. eq_text seg m) ms ≡ true → any (λ m. eq_text seg m) ns ≡ true)
    → (path : Text) → any_segment ms path ≡ true
    → any_segment ns path ≡ true
unfolding any_segment
any_segment_mono ms ns sub path h = over (split path slash) h
  where
    over :
        (segs : List Text)
        → any (λ seg. any (λ m. eq_text seg m) ms) segs ≡ true
        → any (λ seg. any (λ m. eq_text seg m) ns) segs ≡ true
    over [] e = e
    over (seg ∷ segs) e = ground (arith, sub seg, over segs)

-- A file in an examples directory is in a dev path.
pub is_examples_path-is_dev_path :
    (file_path root : Text)
    → is_examples_path file_path root ≡ true
    → is_dev_path file_path root ≡ true
unfolding is_examples_path is_dev_path
is_examples_path-is_dev_path file_path root h =
    let e : any_segment dev_path_segments (path_for_segments file_path root) ≡ true =
      any_segment_mono examples_segments dev_path_segments (λ seg. ground arith)
        (path_for_segments file_path root) h in
    rw e

-- The two markers of a dedicated dev directory that are no marker of a dev path.
abbrev pub unlisted_segments : List Text
unlisted_segments = codes "development" ∷ codes "sandbox" ∷ []

any_segment-append :
    (ms ns ks : List Text)
    → ((seg : Text)
        → any (λ m. eq_text seg m) ms ≡ true
        → (any (λ m. eq_text seg m) ns ≡ true) ⊎ (any (λ m. eq_text seg m) ks ≡ true))
    → (path : Text) → any_segment ms path ≡ true
    → (any_segment ns path ≡ true) ⊎ (any_segment ks path ≡ true)
unfolding any_segment
any_segment-append ms ns ks cover path h = over (split path slash) h
  where
    over :
        (segs : List Text)
        → any (λ seg. any (λ m. eq_text seg m) ms) segs ≡ true
        → (any (λ seg. any (λ m. eq_text seg m) ns) segs ≡ true)
          ⊎ (any (λ seg. any (λ m. eq_text seg m) ks) segs ≡ true)
    over [] e = cc
    over (seg ∷ segs) e = ground (arith, cover seg, over segs)

-- A path in a dedicated dev directory is a dev path for a scan with no root, unless the directory is
-- one of `development` and `sandbox`, which the dev markers lack.
pub is_dedicated_dev_path-is_dev_path :
    (file_path : Text)
    → is_dedicated_dev_path file_path ≡ true
    → (is_dev_path file_path [] ≡ true)
      ⊎ (any_segment unlisted_segments (to_lower file_path) ≡ true)
unfolding is_dedicated_dev_path is_dev_path path_for_segments
is_dedicated_dev_path-is_dev_path file_path h =
    let found =
      any_segment-append dedicated_dev_segments dev_path_segments unlisted_segments
        (λ seg. ground arith) (to_lower file_path) h in
    ground (arith, found)
