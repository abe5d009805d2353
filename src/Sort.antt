-- ===== src/Sort.antt =====
-- `sort.SliceStable` of the Go library, as the stable insertion sort, which gives the one result
-- that the library documents.
use mathlib.Core.List.{Perm}
use mathlib.Core.List.Perm
use pci_dss_mcp.Common.{
  ℕ, ◌+◌, ◌≡◌, refl, ap, ◌∙◌, inl, inr, Bool, true, false, List, [], ◌∷◌, arith, if◌then◌else◌,
  Bool-cases, filter_by,
}

module _ {ℓ} {A : Type ℓ} (less : A → A → Bool) where
  unfoldable pub insert : A → List A → List A
  insert x [] = x ∷ []
  insert x (y ∷ ys) = let later = y ∷ insert x ys in if less y x then later else x ∷ y ∷ ys

  unfoldable pub sort_stable : List A → List A
  unfolding insert
  sort_stable [] = []
  sort_stable (x ∷ xs) = insert x (sort_stable xs)

  -- No element is less than the one before it.
  abbrev pub IsSorted : List A → Type 0
  IsSorted [] = Unit
  IsSorted (x ∷ []) = Unit
  IsSorted (x ∷ y ∷ ys) = (less y x ≡ false) × IsSorted (y ∷ ys)

  insert-perm : (x : A) (ys : List A) → Perm (insert x ys) (x ∷ ys)
  unfolding insert
  insert-perm x [] = Perm.refl (x ∷ [])
  insert-perm x (y ∷ ys) = elim (Bool-cases (less y x)) [
    | inl e ↦ rw e (Perm.trans (Perm.cons y (insert-perm x ys)) (Perm.swap x y ys))
    | inr e ↦ rw e (Perm.refl (x ∷ y ∷ ys))
  ]

  pub sort_stable-perm : (xs : List A) → Perm (sort_stable xs) xs
  unfolding sort_stable
  sort_stable-perm [] = Perm.refl []
  sort_stable-perm (x ∷ xs) =
      Perm.trans (insert-perm x (sort_stable xs)) (Perm.cons x (sort_stable-perm xs))

  module _ (asym : (x y : A) → less x y ≡ true → less y x ≡ false) where
    insert-IsSorted : (x : A) (ys : List A) → IsSorted ys → IsSorted (insert x ys)
    unfolding insert
    insert-IsSorted x [] h = tt
    insert-IsSorted x (y ∷ []) h = ground (arith, asym y x)
    insert-IsSorted x (y ∷ z ∷ zs) (h, hs) = ground (arith, asym y x, insert-IsSorted x (z ∷ zs) hs)

    pub sort_stable-IsSorted : (xs : List A) → IsSorted (sort_stable xs)
    unfolding sort_stable
    sort_stable-IsSorted [] = tt
    sort_stable-IsSorted (x ∷ xs) = insert-IsSorted x (sort_stable xs) (sort_stable-IsSorted xs)

  -- What a predicate keeps of the sorted list is what it keeps of the list, in the same order, if
  -- the order does not tell the elements that it keeps apart.
  module _ (p : A → Bool) (level : (x y : A) → p x ≡ true → p y ≡ true → less x y ≡ false) where
    insert-filter_by : (x : A) (ys : List A) → filter_by p (insert x ys) ≡ filter_by p (x ∷ ys)
    unfolding insert
    insert-filter_by x [] = refl
    insert-filter_by x (y ∷ ys) = ground (arith, level y x, insert-filter_by x ys)

    pub sort_stable-filter_by : (xs : List A) → filter_by p (sort_stable xs) ≡ filter_by p xs
    unfolding sort_stable
    sort_stable-filter_by [] = refl
    sort_stable-filter_by (x ∷ xs) =
        insert-filter_by x (sort_stable xs)
        ∙ ap (λ r. if p x then x ∷ r else r) (sort_stable-filter_by xs)

  -- A sum over the elements does not see the sort.
  module _ (w : A → ℕ) (sum : List A → ℕ)
      (sum-cons : (x : A) (xs : List A) → sum (x ∷ xs) ≡ w x + sum xs) where
    sum-insert : (x : A) (ys : List A) → sum (insert x ys) ≡ w x + sum ys
    unfolding insert
    sum-insert x [] = sum-cons x []
    sum-insert x (y ∷ ys) = elim (Bool-cases (less y x)) [
      | inl e ↦ rw e (omega (arith, sum-cons y (insert x ys), sum-cons y ys, sum-insert x ys))
      | inr e ↦ rw e (sum-cons x (y ∷ ys))
    ]

    pub sum-sort_stable : (xs : List A) → sum (sort_stable xs) ≡ sum xs
    unfolding sort_stable
    sum-sort_stable [] = refl
    sum-sort_stable (x ∷ xs) =
        omega (arith, sum-insert x (sort_stable xs), sum-sort_stable xs, sum-cons x xs)
