-- ===== src/Common/Bytes.antt =====
-- A Go string as the list of its bytes.
use Prim.Native.Nat.{ℕ}
use Prim.Native.Char.{code}
use Prim.Native.String.{String}
use mathlib.Core.Path.{◌≡◌, refl}
use mathlib.Core.Logic.{◌↔◌, ◌⊎◌, inl, inr}
use mathlib.Core.Bool.{Bool, true, false, ◌&&◌}
use mathlib.Core.List.{List, [], ◌∷◌}
use native.Mathlib.Omega.{arith}
use pci_dss_mcp.Common.Tests.{◌==◌, Bool-cases}

abbrev pub Text : Type 0
Text = List ℕ

-- The bytes of a literal in ASCII.
abbrev pub codes : String → Text
codes String.[] = []
codes (String.◌∷◌ c s) = code c ∷ codes s

-- `a == b` on strings.
unfoldable pub eq_text : Text → Text → Bool
eq_text [] [] = true
eq_text [] (_ ∷ _) = false
eq_text (_ ∷ _) [] = false
eq_text (a ∷ s) (b ∷ t) = a == b && eq_text s t

pub eq_text_sound : (s t : Text) → eq_text s t ≡ true → s ≡ t
unfolding eq_text
eq_text_sound [] [] h = refl
eq_text_sound [] (_ ∷ _) h = cc
eq_text_sound (_ ∷ _) [] h = cc
eq_text_sound (a ∷ s) (b ∷ t) h = ground (arith, eq_text_sound s t)

pub eq_text_refl : (s : Text) → eq_text s s ≡ true
unfolding eq_text
eq_text_refl [] = refl
eq_text_refl (a ∷ s) = ground (arith, eq_text_refl s)

pub eq_text_iff : (s t : Text) → (eq_text s t ≡ true) ↔ (s ≡ t)
eq_text_iff s t = (eq_text_sound s t, λ e. rw (← e) (eq_text_refl s))

-- Two texts are equal, or the test tells them apart.
pub eq_text_cases : (s t : Text) → ((eq_text s t ≡ true) × (s ≡ t)) ⊎ (eq_text s t ≡ false)
eq_text_cases s t = elim (Bool-cases (eq_text s t)) [
  | inl e ↦ inl (e, eq_text_sound s t e)
  | inr e ↦ inr e
]
