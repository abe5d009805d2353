-- ===== src/Secrets/Env/Space.antt =====
-- `strings.TrimSpace` on UTF-8, with the white space beyond ASCII, as scanner/secretscanner/env.go
-- uses it.
use pci_dss_mcp.Common.{
  ℕ, ◌≡◌, refl, Bool, true, false, ◌&&◌, ◌||◌, not, [], ◌∷◌, ◌++◌, arith, Text, leb, ltb, ◌==◌,
  if◌then◌else◌,
}
use pci_dss_mcp.GoStrings.{is_space, is_empty}

-- U+0085 and U+00A0.
abbrev pub is_space_of_two : ℕ → ℕ → Bool
is_space_of_two c d = c == 194 && (d == 133 || d == 160)

-- U+1680, U+2000 to U+200A, U+2028, U+2029, U+202F, U+205F and U+3000.
abbrev pub is_space_of_three : ℕ → ℕ → ℕ → Bool
is_space_of_three c d e =
    (c == 225 && d == 154 && e == 128)
    || (c == 226 && d == 128 && ((leb 128 e && leb e 138) || e == 168 || e == 169 || e == 175))
    || (c == 226 && d == 129 && e == 159)
    || (c == 227 && d == 128 && e == 128)

unfoldable pub trim_left : Text → Text
unfolding is_space
trim_left [] = []
trim_left (c ∷ []) = if is_space c then [] else c ∷ []
trim_left (c ∷ d ∷ []) = elim (is_space c) as (λ x. Text) [
  | true ↦ trim_left (d ∷ [])
  | false ↦ if is_space_of_two c d then [] else c ∷ d ∷ []
]
trim_left (c ∷ d ∷ e ∷ s) = elim (is_space c) as (λ x. Text) [
  | true ↦ trim_left (d ∷ e ∷ s)
  | false ↦ elim (is_space_of_two c d) as (λ x. Text) [
    | true ↦ trim_left (e ∷ s)
    | false ↦ elim (is_space_of_three c d e) as (λ x. Text) [
      | true ↦ trim_left s
      | false ↦ c ∷ d ∷ e ∷ s
    ]
  ]
]

-- A text of white space alone is dropped, at the first place where one begins.
unfoldable pub trim_right : Text → Text
unfolding trim_left
trim_right [] = []
trim_right (c ∷ s) =
    let rest = trim_right s in if is_empty (trim_left (c ∷ s)) then [] else c ∷ rest

unfoldable pub trim_space : Text → Text
unfolding trim_left trim_right
trim_space s = trim_right (trim_left s)

-- An ASCII byte that is no white space.
abbrev pub is_plain : ℕ → Bool
is_plain c = ltb c 128 && not (is_space c)

pub trim_left_plain : (c : ℕ) (s : Text) → is_plain c ≡ true → trim_left (c ∷ s) ≡ c ∷ s
unfolding trim_left
trim_left_plain c [] h = ground arith
trim_left_plain c (d ∷ []) h = ground arith
trim_left_plain c (d ∷ e ∷ s) h = ground arith

-- A text that ends with a plain byte is no white space.
is_empty-trim_left :
    (s : Text) (c : ℕ) → is_plain c ≡ true → is_empty (trim_left (s ++ c ∷ [])) ≡ false
unfolding trim_left
is_empty-trim_left [] c h = ground arith
is_empty-trim_left (a ∷ []) c h = ground arith
is_empty-trim_left (a ∷ b ∷ []) c h = ground (arith, is_empty-trim_left (b ∷ []) c h)
is_empty-trim_left (a ∷ b ∷ d ∷ s) c h = ground (
  arith,
  is_empty-trim_left (b ∷ d ∷ s) c h,
  is_empty-trim_left (d ∷ s) c h,
  is_empty-trim_left s c h,
)

pub trim_right_end : (s : Text) (c : ℕ) → is_plain c ≡ true → trim_right (s ++ c ∷ []) ≡ s ++ c ∷ []
unfolding trim_right
trim_right_end [] c h = rw (is_empty-trim_left [] c h) refl
trim_right_end (d ∷ s) c h = rw (is_empty-trim_left (d ∷ s) c h, trim_right_end s c h) refl

wide_test : trim_space (194 ∷ 160 ∷ 9 ∷ 120 ∷ 32 ∷ 194 ∷ 226 ∷ 128 ∷ 138 ∷ []) ≡ 120 ∷ 32 ∷ 194 ∷ []
unfolding trim_space
wide_test = refl
