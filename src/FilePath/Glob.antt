-- ===== src/FilePath/Glob.antt =====
-- `filepath.Match`: a pattern is read into items, and a malformed one matches nothing, as for the
-- program, which drops the error.
use pci_dss_mcp.Common.{
  ℕ, zero, suc, Bool, true, false, ◌&&◌, ◌||◌, not, List, [], ◌∷◌, ◌++◌, Option, none, some, Text,
  codes, leb, ◌==◌, if◌then◌else◌, length, any, ◌≡◌, refl,
}
use pci_dss_mcp.GoStrings.{is_empty}

abbrev Ranges : Type 0
Ranges = List (ℕ × ℕ)

pub data Item : Type 0 where
  star : Item
  any_char : Item
  literal : ℕ → Item
  class : Bool → Ranges → Item

-- `getEsc`: one character of a class, and the rest, which must not be empty.
get_esc : Text → Option (ℕ × Text)
get_esc [] = none
get_esc (c ∷ []) = none
get_esc (c ∷ d ∷ s) =
    if c == b'-' || c == b']'
    then none
    else if c == b'\\'
    then (if is_empty s then none else some (d, s))
    else some (c, d ∷ s)

-- A range is one character, or two with a dash between them.
get_range : Text → Option ((ℕ × ℕ) × Text)
get_range s = elim (get_esc s) [ none ↦ none | some (lo, rest) ↦ upper_end lo rest ]
  where
    upper_end : ℕ → Text → Option ((ℕ × ℕ) × Text)
    upper_end lo [] = none
    upper_end lo (c ∷ r) =
        if c == b'-'
        then elim (get_esc r) [ none ↦ none | some (hi, more) ↦ some ((lo, hi), more) ]
        else some ((lo, lo), c ∷ r)

get_ranges : ℕ → Text → Ranges → Option (Ranges × Text)
get_ranges zero s done = none
get_ranges (suc fuel) [] done = none
get_ranges (suc fuel) (c ∷ s) done =
    if c == b']' && not (is_empty done) then some (done, s) else elim (get_range (c ∷ s)) [
      | none ↦ none
      | some (r, rest) ↦ get_ranges fuel rest (done ++ r ∷ [])
    ]

get_class : Text → Option (Item × Text)
get_class s = elim (get_ranges (suc (length s)) (after_caret s) []) [
  | none ↦ none
  | some (ranges, rest) ↦ some (class (negated s) ranges, rest)
]
  where
    negated : Text → Bool
    negated [] = false
    negated (c ∷ _) = c == b'^'

    after_caret : Text → Text
    after_caret [] = []
    after_caret (c ∷ s) = if c == b'^' then s else c ∷ s

next_item : ℕ → Text → Option (Item × Text)
next_item c s =
    if c == b'*'
    then some (star, s)
    else if c == b'?'
    then some (any_char, s)
    else if c == b'['
    then get_class s
    else if c == b'\\'
    then escaped s
    else some (literal c, s)
  where
    escaped : Text → Option (Item × Text)
    escaped [] = none
    escaped (d ∷ s) = some (literal d, s)

-- Every item takes at least one byte, so the length of the pattern is enough fuel.
compile : ℕ → Text → Option (List Item)
compile fuel [] = some []
compile zero (c ∷ s) = none
compile (suc fuel) (c ∷ s) = elim (next_item c s) [
  | none ↦ none
  | some (item, rest) ↦ elim (compile fuel rest) [ none ↦ none | some items ↦ some (item ∷ items) ]
]

accepts : Item → ℕ → Bool
accepts star c = not (c == b'/')
accepts any_char c = not (c == b'/')
accepts (literal d) c = c == d
accepts (class negate ranges) c =
    let inside = any (λ r. leb r.0 c && leb c r.1) ranges in if negate then not inside else inside

matches : List Item → Text → Bool
matches [] [] = true
matches [] (_ ∷ _) = false
matches (star ∷ p) [] = matches p []
matches (star ∷ p) (c ∷ s) = matches p (c ∷ s) || accepts star c && matches (star ∷ p) s
matches (item ∷ p) [] = false
matches (item ∷ p) (c ∷ s) = accepts item c && matches p s

unfoldable pub match : Text → Text → Bool
unfolding matches accepts compile next_item get_class get_ranges get_range get_esc
match pattern' name = elim (compile (length pattern') pattern') [
  | none ↦ false
  | some items ↦ matches items name
]

star_test : match (codes "*.pb.go") (codes "a.b.pb.go") ≡ true
unfolding match
star_test = refl

slash_test : match (codes "a/*") (codes "a/b/c") ≡ false
unfolding match
slash_test = refl

class_test : match (codes "v[0-9^]?") (codes "v^x") ≡ true
unfolding match
class_test = refl

malformed_test : match (codes "a[") (codes "a[") ≡ false
unfolding match
malformed_test = refl
