-- ===== src/Sql/Comments.antt =====
-- Theorems on `stripLineComments`.
use pci_dss_mcp.Common.{
  ℕ, zero, suc, ◌≡◌, refl, ap, ◌≢◌, ◌⊎◌, inl, inr, Bool, false, [], ◌∷◌, arith, Text, Bool-cases,
  length, take,
}
use pci_dss_mcp.GoStrings.{has_prefix, contains}
use pci_dss_mcp.Sql.{line_comment, starts_comment, strip_loop, strip_line_comments, newlines}

-- A text of the same length, with each byte kept or, if it is no newline, replaced by a space.
abbrev pub Blanks : Text → Text → Type 0
Blanks [] [] = Unit
Blanks [] (d ∷ t) = ⊥
Blanks (c ∷ s) [] = ⊥
Blanks (c ∷ s) (d ∷ t) = ((d ≡ c) ⊎ ((c ≢ 10) × (d ≡ b' '))) × Blanks s t

refl-Blanks : (s : Text) → Blanks s s
refl-Blanks [] = tt
refl-Blanks (c ∷ s) = (inl refl, refl-Blanks s)

strip_loop-Blanks : (s : Text) (m : Bool) → Blanks s (strip_loop m s)
unfolding strip_loop
strip_loop-Blanks [] m = tt
strip_loop-Blanks (c ∷ []) m = (ground arith, tt)
strip_loop-Blanks (c ∷ d ∷ s) m = (ground arith, strip_loop-Blanks (d ∷ s) _)

pub length-Blanks : (s t : Text) → Blanks s t → length t ≡ length s
length-Blanks [] [] h = refl
length-Blanks [] (d ∷ t) h = elim h [ ]
length-Blanks (c ∷ s) [] h = elim h [ ]
length-Blanks (c ∷ s) (d ∷ t) (e, h) = ap suc (length-Blanks s t h)

pub newlines-Blanks : (n : ℕ) (s t : Text) → Blanks s t → newlines (take n t) ≡ newlines (take n s)
newlines-Blanks zero s t h = refl
newlines-Blanks (suc n) [] [] h = refl
newlines-Blanks (suc n) [] (d ∷ t) h = elim h [ ]
newlines-Blanks (suc n) (c ∷ s) [] h = elim h [ ]
newlines-Blanks (suc n) (c ∷ s) (d ∷ t) (e, h) = ground (arith, newlines-Blanks n s t h)

has_prefix-line_comment : (s : Text) → has_prefix s line_comment ≡ starts_comment s
unfolding has_prefix
has_prefix-line_comment [] = refl
has_prefix-line_comment (c ∷ []) = ground arith
has_prefix-line_comment (c ∷ d ∷ s) = ground arith

starts_comment-strip_loop : (m : Bool) (s : Text) → starts_comment (strip_loop m s) ≡ false
unfolding strip_loop
starts_comment-strip_loop m [] = refl
starts_comment-strip_loop m (c ∷ []) = refl
starts_comment-strip_loop m (c ∷ d ∷ []) = ground arith
starts_comment-strip_loop m (c ∷ d ∷ e ∷ s) = ground arith

contains-line_comment :
    (c : ℕ) (s : Text)
    → starts_comment (c ∷ s) ≡ false
    → contains s line_comment ≡ false
    → contains (c ∷ s) line_comment ≡ false
unfolding contains
contains-line_comment c s h k = rw (has_prefix-line_comment (c ∷ s)) (rw (h, k) refl)

contains_nil : contains [] line_comment ≡ false
unfolding contains has_prefix
contains_nil = refl

contains-strip_loop : (s : Text) (m : Bool) → contains (strip_loop m s) line_comment ≡ false
unfolding strip_loop
contains-strip_loop [] m = contains_nil
contains-strip_loop (c ∷ s) m =
    contains-line_comment _ _ (starts_comment-strip_loop m (c ∷ s)) (contains-strip_loop s _)

-- What is left has the length of the source, each byte is the source's or a space in place of one
-- that is no newline, as many newlines stand before each index, and there is no comment in it.
pub strip_line_comments_lem :
    (src : Text)
    → Blanks src (strip_line_comments src)
      × (length (strip_line_comments src) ≡ length src)
      × ((n : ℕ) → newlines (take n (strip_line_comments src)) ≡ newlines (take n src))
      × (contains (strip_line_comments src) line_comment ≡ false)
unfolding strip_line_comments
strip_line_comments_lem src = elim (Bool-cases (contains src line_comment)) [
  | inl e ↦
      rw e
        (whole (strip_loop false src) (strip_loop-Blanks src false) (contains-strip_loop src false))
  | inr e ↦ rw e (whole src (refl-Blanks src) e)
]
  where
    whole :
        (t : Text)
        → Blanks src t
        → contains t line_comment ≡ false
        → Blanks src t
          × (length t ≡ length src)
          × ((n : ℕ) → newlines (take n t) ≡ newlines (take n src))
          × (contains t line_comment ≡ false)
    whole t h k = (h, length-Blanks src t h, (λ n. newlines-Blanks n src t h), k)
