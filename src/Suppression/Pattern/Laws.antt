-- ===== src/Suppression/Pattern/Laws.antt =====
-- Theorems on `matchDoubleStar` and its loop over the tails of a path.
use pci_dss_mcp.Common.{
  ℕ, ◌≡◌, refl, ap, ◌≢◌, inl, inr, Bool, true, false, ◌&&◌, ◌||◌, not, [], ◌∷◌, arith, Text, codes,
  eq_text, ◌==◌, if◌then◌else◌, Bool-cases, length, drop, any,
}
use pci_dss_mcp.GoStrings.{is_empty, has_prefix}
use pci_dss_mcp.FilePath.{slash, base, match, strip_slashes, after_last_slash}
use pci_dss_mcp.Suppression.Pattern.{any_subpath, match_double_star, split_double_star}

-- The text does not end in a slash; the walkers never give a path that does.
abbrev pub LacksFinalSlash : Text → Type 0
LacksFinalSlash [] = Unit
LacksFinalSlash (c ∷ []) = c ≢ slash
LacksFinalSlash (c ∷ d ∷ s) = LacksFinalSlash (d ∷ s)

strip_slashes_lem : (s : Text) → LacksFinalSlash s → strip_slashes s ≡ s
unfolding strip_slashes
strip_slashes_lem [] h = refl
strip_slashes_lem (c ∷ []) h = ground arith
strip_slashes_lem (c ∷ d ∷ s) h = rw (strip_slashes_lem (d ∷ s) h) (ground arith)

abbrev has_slash : Text → Bool
has_slash = any (λ d. d == slash)

-- A byte before a tail that holds a slash does not change the base name.
base_tail :
    (c : ℕ) (s : Text) → LacksFinalSlash (c ∷ s) → has_slash s ≡ true → base (c ∷ s) ≡ base s
unfolding base after_last_slash
base_tail c [] h e = cc
base_tail c (d ∷ s) h e =
    rw (strip_slashes_lem (c ∷ d ∷ s) h, strip_slashes_lem (d ∷ s) h) (ground arith)

LacksFinalSlash-tail : (c : ℕ) (s : Text) → LacksFinalSlash (c ∷ s) → LacksFinalSlash s
LacksFinalSlash-tail c [] h = tt
LacksFinalSlash-tail c (d ∷ s) h = h

any_subpath_rest :
    (glob s : Text)
    → LacksFinalSlash s
    → any_subpath false glob s ≡ (has_slash s && match glob (base s))
unfolding any_subpath
any_subpath_rest glob [] h = refl
any_subpath_rest glob (c ∷ s) h = elim (Bool-cases (has_slash s)) [
  | inl e ↦ ground (
    arith,
    any_subpath_rest glob s (LacksFinalSlash-tail c s h),
    ap (match glob) (base_tail c s h e),
  )
  | inr e ↦ ground (arith, any_subpath_rest glob s (LacksFinalSlash-tail c s h))
]

-- Trying every tail of a path is one test of its base name.
any_subpath_lem :
    (glob s : Text)
    → LacksFinalSlash s
    → any_subpath true glob s ≡ (not (is_empty s) && match glob (base s))
unfolding any_subpath
any_subpath_lem glob [] h = refl
any_subpath_lem glob (c ∷ s) h = elim (Bool-cases (has_slash s)) [
  | inl e ↦ ground (
    arith,
    any_subpath_rest glob s (LacksFinalSlash-tail c s h),
    ap (match glob) (base_tail c s h e),
  )
  | inr e ↦ ground (arith, any_subpath_rest glob s (LacksFinalSlash-tail c s h))
]

-- The part of the path behind the text before the first double star.
abbrev pub behind_prefix : Text → Text → Text
behind_prefix pattern' file_path = drop (length (split_double_star pattern').0) file_path

-- A double-star pattern matches exactly the paths that begin with the text before the stars and,
-- unless nothing or one slash follows the stars, whose rest is not empty and has a base name that
-- the text behind the stars, less its first byte, matches.
pub match_double_star_lem :
    (pattern' file_path : Text)
    → LacksFinalSlash (behind_prefix pattern' file_path)
    → match_double_star pattern' file_path ≡ (
        has_prefix file_path (split_double_star pattern').0
        && (is_empty (split_double_star pattern').1
            || eq_text (split_double_star pattern').1 (codes "/")
            || not (is_empty (behind_prefix pattern' file_path))
              && match
                  (drop 1 (split_double_star pattern').1)
                  (base (behind_prefix pattern' file_path))))
unfolding match_double_star
match_double_star_lem pattern' file_path h = go (split_double_star pattern') h
  where
    empty_prefix : (p : Text) → is_empty p ≡ true → has_prefix file_path p ≡ true
    empty_prefix [] e = refl
    empty_prefix (c ∷ p) e = cc

    go :
        (parts : Text × Text)
        → LacksFinalSlash (drop (length parts.0) file_path)
        → (if not (is_empty parts.0) && not (has_prefix file_path parts.0)
            then false
            else if is_empty parts.1 || eq_text parts.1 (codes "/")
            then true
            else any_subpath true (drop 1 parts.1) (drop (length parts.0) file_path))
          ≡ (has_prefix file_path parts.0
              && (is_empty parts.1
                  || eq_text parts.1 (codes "/")
                  || not (is_empty (drop (length parts.0) file_path))
                    && match (drop 1 parts.1) (base (drop (length parts.0) file_path))))
    go (p, q) k =
        ground (arith, empty_prefix p, any_subpath_lem (drop 1 q) (drop (length p) file_path) k)
