-- ===== src/Luhn/Detection.antt =====
-- Theorems on the errors that `LuhnValid` of scanner/panscanner/luhn.go detects.
use mathlib.Core.List.{reverse, reverse-append}
use mathlib.Core.Path.{subst}
use native.Mathlib.Nat.{add-zero}
use pci_dss_mcp.Common.{
  ℕ, ◌+◌, ◌-◌, ◌%◌, ◌<◌, ◌≡◌, refl, sym, ap, ◌∙◌, ◌≢◌, ◌⊎◌, inl, inr, Bool, true, false, ◌&&◌, not,
  none, some, [], ◌∷◌, ◌++◌, append_assoc, arith, Text, if◌then◌else◌, Bool-cases,
}
use pci_dss_mcp.GoStrings.{is_digit}
use pci_dss_mcp.Luhn.{luhn_digit, luhn_sum, luhn_valid, divisible_by_ten}

abbrev all_digits : Text → Bool
all_digits [] = true
all_digits (d ∷ s) = is_digit d && all_digits s

-- The sum that the checksum reads, from the last digit on, with no loop state.
weight : Bool → Text → ℕ
weight double [] = 0
weight double (d ∷ s) = luhn_digit double (d - b'0') + weight (not double) s

luhn_sum_lem :
    (double : Bool) (sum : ℕ) (s : Text)
    → luhn_sum double sum s ≡ (if all_digits s then some (sum + weight double s) else none)
unfolding luhn_sum weight
luhn_sum_lem double sum [] = ap some (sym (add-zero sum))
luhn_sum_lem double sum (d ∷ s) = elim (Bool-cases (is_digit d)) [
  | inl e ↦
      rw (e, luhn_sum_lem (not double) (sum + luhn_digit double (d - b'0')) s)
        (elim (Bool-cases (all_digits s)) [
          | inl a ↦ rw a (ap some (omega arith))
          | inr a ↦ rw a refl
        ])
  | inr e ↦ rw e refl
]

abbrev flip : Bool → Text → Bool
flip double [] = double
flip double (_ ∷ s) = flip (not double) s

weight-append :
    (double : Bool) (s t : Text)
    → weight double (s ++ t) ≡ weight double s + weight (flip double s) t
unfolding weight
weight-append double [] t = omega arith
weight-append double (d ∷ s) t = omega (arith, weight-append (not double) s t)

all_digits-append : (s t : Text) → all_digits (s ++ t) ≡ (all_digits s && all_digits t)
all_digits-append [] t = refl
all_digits-append (d ∷ s) t = ground (arith, all_digits-append s t)

-- The checksum of a text whose reverse is `s ++ m ++ t`.
abbrev split_sum : Text → Text → Text → ℕ
split_sum s m t = weight false s + (weight (flip false s) m + weight (flip (flip false s) m) t)

reverse-parts : (p m q : Text) → reverse (p ++ (m ++ q)) ≡ reverse q ++ (reverse m ++ reverse p)
reverse-parts p m q =
    reverse-append p (m ++ q)
    ∙ ap (λ l. l ++ reverse p) (reverse-append m q)
    ∙ append_assoc (reverse q) (reverse m) (reverse p)

luhn_sum-parts :
    (s m t : Text)
    → divisible_by_ten (luhn_sum false 0 (s ++ (m ++ t))) ≡ true
    → (all_digits m ≡ true) × (split_sum s m t % 10 ≡ 0)
luhn_sum-parts s m t h =
    let k = rw (luhn_sum_lem false 0 (s ++ (m ++ t))) at h in
    let e : all_digits (s ++ (m ++ t)) ≡ true = ground arith in
    (
      ground (arith, all_digits-append s (m ++ t), all_digits-append m t),
      ground (arith, weight-append false s (m ++ t), weight-append (flip false s) m t),
    )

luhn_valid-parts :
    (p m q : Text)
    → luhn_valid (p ++ (m ++ q)) ≡ true
    → (all_digits (reverse m) ≡ true) × (split_sum (reverse q) (reverse m) (reverse p) % 10 ≡ 0)
unfolding luhn_valid
luhn_valid-parts p m q h =
    luhn_sum-parts (reverse q) (reverse m) (reverse p) (
      subst (λ l. divisible_by_ten (luhn_sum false 0 l) ≡ true) (reverse-parts p m q)
        (ground arith))

-- On digits the value that counts double is a permutation of the digits.
luhn_digit-injective :
    (double : Bool) (a b : ℕ)
    → is_digit a ≡ true
    → is_digit b ≡ true
    → luhn_digit double (a - b'0') ≡ luhn_digit double (b - b'0')
    → a ≡ b
unfolding luhn_digit is_digit
luhn_digit-injective false a b ha hb h = ground arith
luhn_digit-injective true a b ha hb h = ground arith

luhn_digit-lt : (double : Bool) (a : ℕ) → is_digit a ≡ true → luhn_digit double (a - b'0') < 10
unfolding luhn_digit is_digit
luhn_digit-lt false a ha = ground arith
luhn_digit-lt true a ha = ground arith

sums_differ :
    (before x y after : ℕ)
    → x < 10
    → y < 10
    → (before + (x + 0 + after)) % 10 ≡ 0
    → (before + (y + 0 + after)) % 10 ≡ 0
    → x ≡ y
sums_differ before x y after hx hy h k = omega arith

-- A change of one digit of a valid number is detected: whatever stands there instead, the number is
-- no longer valid.
pub luhn_valid-replace :
    (p : Text) (a b : ℕ) (q : Text)
    → luhn_valid (p ++ a ∷ q) ≡ true
    → a ≢ b
    → luhn_valid (p ++ b ∷ q) ≡ false
unfolding weight
luhn_valid-replace p a b q h ne = elim (Bool-cases (luhn_valid (p ++ b ∷ q))) [
  | inl k ↦ absurd (ne (same (luhn_valid-parts p (a ∷ []) q h) (luhn_valid-parts p (b ∷ []) q k)))
  | inr k ↦ k
]
  where
    side : Bool
    side = flip false (reverse q)

    same :
        (all_digits (a ∷ []) ≡ true) × (split_sum (reverse q) (a ∷ []) (reverse p) % 10 ≡ 0)
        → (all_digits (b ∷ []) ≡ true) × (split_sum (reverse q) (b ∷ []) (reverse p) % 10 ≡ 0)
        → a ≡ b
    same (da, sa) (db, sb) =
        let ia : is_digit a ≡ true = ground arith in
        let ib : is_digit b ≡ true = ground arith in
        luhn_digit-injective side a b ia ib (
          sums_differ (weight false (reverse q)) (luhn_digit side (a - b'0'))
            (luhn_digit side (b - b'0')) (weight (not side) (reverse p)) (luhn_digit-lt side a ia)
            (luhn_digit-lt side b ib) sa sb)

-- The digits 0 and 9 are the one pair whose exchange the sum does not see.
abbrev pub IsBlind : ℕ → ℕ → Type 0
IsBlind a b = ((a ≡ b'0') × (b ≡ b'9')) ⊎ ((a ≡ b'9') × (b ≡ b'0'))

exchange_seen :
    (double : Bool) (a b before after : ℕ)
    → is_digit a ≡ true
    → is_digit b ≡ true
    → (before + (luhn_digit double (b - b'0') + (luhn_digit (not double) (a - b'0') + 0) + after))
        % 10
      ≡ 0
    → (before + (luhn_digit double (a - b'0') + (luhn_digit (not double) (b - b'0') + 0) + after))
        % 10
      ≡ 0
    → (a ≡ b) ⊎ IsBlind a b
unfolding luhn_digit is_digit
exchange_seen false a b before after ha hb h k = ground arith
exchange_seen true a b before after ha hb h k = ground arith

-- An exchange of two different neighbours of a valid number is detected, unless they are 0 and 9.
pub luhn_valid-exchange :
    (p : Text) (a b : ℕ) (q : Text)
    → luhn_valid (p ++ (a ∷ b ∷ q)) ≡ true
    → a ≢ b
    → ¬ IsBlind a b
    → luhn_valid (p ++ (b ∷ a ∷ q)) ≡ false
unfolding weight
luhn_valid-exchange p a b q h ne seen = elim (Bool-cases (luhn_valid (p ++ (b ∷ a ∷ q)))) [
  | inl k ↦
      absurd (refute (luhn_valid-parts p (a ∷ b ∷ []) q h) (luhn_valid-parts p (b ∷ a ∷ []) q k))
  | inr k ↦ k
]
  where
    side : Bool
    side = flip false (reverse q)

    contra : (a ≡ b) ⊎ IsBlind a b → ⊥
    contra (inl e) = ne e
    contra (inr e) = seen e

    refute :
        (all_digits (b ∷ a ∷ []) ≡ true) × (split_sum (reverse q) (b ∷ a ∷ []) (reverse p) % 10 ≡ 0)
        → (all_digits (a ∷ b ∷ []) ≡ true)
          × (split_sum (reverse q) (a ∷ b ∷ []) (reverse p) % 10 ≡ 0)
        → ⊥
    refute (d, s) (_, t) =
        let ia : is_digit a ≡ true = ground arith in
        let ib : is_digit b ≡ true = ground arith in
        contra (
          exchange_seen side a b (weight false (reverse q)) (weight (not (not side)) (reverse p)) ia
            ib s t)
