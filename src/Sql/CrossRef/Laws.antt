-- ===== src/Sql/CrossRef/Laws.antt =====
-- Theorems on `crossRefSQLWithGoEncryption`.
use pci_dss_mcp.Common.{
  drop-append_suc, take-append_length, drop-append_length, take-append_part, drop-append_part, ℕ,
  ◌+◌, ◌-◌, ◌≡◌, refl, sym, ap, inl, inr, true, false, ◌&&◌, ◌||◌, List, [], ◌∷◌, ◌++◌, map,
  append_assoc, arith, Text, ltb, leb, ◌==◌, if◌then◌else◌, Bool-cases, length, length-append,
}
use native.Mathlib.Numerals.{add-one}
use pci_dss_mcp.Finding.{Finding}
use pci_dss_mcp.Sql.FileScan.{SqlFindingMeta}
use pci_dss_mcp.Sql.CrossRef.{
  GoEncryptInfo, is_suppressed, cross_referenced, cross_loop, delete_at, delete_suppressed,
  cross_ref_sql_with_go_encryption,
}

delete_at-append :
    {A : Type 0} (i : ℕ) (xs ys : List A) (y : A)
    → length xs ≡ i
    → delete_at i (xs ++ y ∷ ys) ≡ xs ++ ys
delete_at-append i xs ys y h =
    rw (sym h, add-one, take-append_length xs (y ∷ ys), drop-append_suc xs ys y) refl

-- The deletion of one index and its meta.
delete_one :
    (base idx : ℕ) (suppress : List ℕ) (state : List Finding × List SqlFindingMeta)
    (fs gs : List Finding) (f : Finding) (ms ns : List SqlFindingMeta) (m : SqlFindingMeta)
    → delete_suppressed base suppress state ≡ (fs ++ f ∷ gs, ms ++ m ∷ ns)
    → length fs ≡ idx
    → base + length ms ≡ idx
    → delete_suppressed base (idx ∷ suppress) state ≡ (fs ++ gs, ms ++ ns)
unfolding delete_suppressed
delete_one base idx suppress state fs gs f ms ns m e h k =
    rw (e, delete_at-append idx fs gs f h, in_range)
      (ap (λ l. (fs ++ gs, l)) (delete_at-append (idx - base) ms ns m (omega arith)))
  where
    in_range : (leb base idx && ltb (idx - base) (length (ms ++ m ∷ ns))) ≡ true
    in_range = ground (arith, length-append ms (m ∷ ns))

delete_suppressed_nil :
    (base : ℕ) (state : List Finding × List SqlFindingMeta)
    → delete_suppressed base [] state ≡ state
unfolding delete_suppressed
delete_suppressed_nil base state = refl

module _ (go_encrypt : List (Text × GoEncryptInfo)) where
  -- The findings that stay, each with its meta.
  unfoldable pub kept : List Finding → List SqlFindingMeta → List (Finding × SqlFindingMeta)
  kept [] metas = []
  kept (f ∷ section) [] = []
  kept (f ∷ section) (meta ∷ metas) =
      (if is_suppressed go_encrypt f meta
        then []
        else (cross_referenced go_encrypt f meta, meta) ∷ [])
      ++ kept section metas

  abbrev pub kept_findings : List Finding → List SqlFindingMeta → List Finding
  kept_findings section metas = map (λ p. p.0) (kept section metas)

  abbrev pub kept_metas : List Finding → List SqlFindingMeta → List SqlFindingMeta
  kept_metas section metas = map (λ p. p.1) (kept section metas)

  -- The induction hypothesis with one finding and its meta moved behind the prefixes.
  moved :
      (base : ℕ) (suppress : List ℕ) (pre xs ys : List Finding) (ge : Finding)
      (mpre ms ns : List SqlFindingMeta) (m : SqlFindingMeta)
      → delete_suppressed base suppress ((pre ++ ge ∷ []) ++ xs, (mpre ++ m ∷ []) ++ ms)
        ≡ ((pre ++ ge ∷ []) ++ ys, (mpre ++ m ∷ []) ++ ns)
      → delete_suppressed base suppress (pre ++ ge ∷ xs, mpre ++ m ∷ ms)
        ≡ (pre ++ ge ∷ ys, mpre ++ m ∷ ns)
  moved base suppress pre xs ys ge mpre ms ns m e = simp append_assoc at e

  one_more :
      {A : Type 0} (xs : List A) (x : A) (n : ℕ) → length xs ≡ n → length (xs ++ x ∷ []) ≡ n + 1
  one_more xs x n h = omega (arith, length-append xs (x ∷ []))

  delete-cross_loop :
      (section : List Finding) (metas : List SqlFindingMeta) (base i : ℕ)
      (pre behind : List Finding) (mpre : List SqlFindingMeta)
      → length section ≡ length metas
      → length pre ≡ i
      → base + length mpre ≡ i
      → delete_suppressed base
          (cross_loop go_encrypt i section metas).1
          (pre ++ ((cross_loop go_encrypt i section metas).0 ++ behind), mpre ++ metas)
        ≡ (pre ++ (kept_findings section metas ++ behind), mpre ++ kept_metas section metas)
  unfolding cross_loop kept
  delete-cross_loop [] [] base i pre behind mpre e h k = delete_suppressed_nil base _
  delete-cross_loop [] (m ∷ metas) base i pre behind mpre e h k = absurd (omega arith)
  delete-cross_loop (f ∷ section) [] base i pre behind mpre e h k = absurd (omega arith)
  delete-cross_loop (f ∷ section) (m ∷ metas) base i pre behind mpre e h k =
      let rest = λ (ge : Finding).
        moved base (cross_loop go_encrypt (i + 1) section metas).1 pre
          ((cross_loop go_encrypt (i + 1) section metas).0 ++ behind)
          (kept_findings section metas ++ behind) ge mpre metas (kept_metas section metas) m
          (delete-cross_loop section metas base (i + 1) (pre ++ ge ∷ []) behind (mpre ++ m ∷ [])
            (omega arith) (one_more pre ge i h)
            (omega (arith, one_more mpre m (length mpre) refl))) in
      elim (Bool-cases (is_suppressed go_encrypt f m)) [
        | inl s ↦ rw s (
            delete_one base i (cross_loop go_encrypt (i + 1) section metas).1 _ pre
              (kept_findings section metas ++ behind) f mpre (kept_metas section metas) m (rest f) h
              k)
        | inr s ↦ rw s (rest (cross_referenced go_encrypt f m))
      ]

  kept_nil : kept [] [] ≡ []
  unfolding kept
  kept_nil = refl

  length-kept :
      (section : List Finding) (metas : List SqlFindingMeta) (i : ℕ)
      → length section ≡ length metas
      → length (kept section metas) + length (cross_loop go_encrypt i section metas).1
        ≡ length section
  unfolding kept cross_loop
  length-kept [] [] i h = omega arith
  length-kept [] (m ∷ metas) i h = absurd (omega arith)
  length-kept (f ∷ section) [] i h = absurd (omega arith)
  length-kept (f ∷ section) (m ∷ metas) i h = elim (Bool-cases (is_suppressed go_encrypt f m)) [
    | inl s ↦ rw s (omega (arith, length-kept section metas (i + 1) (omega arith)))
    | inr s ↦ rw s (omega (arith, length-kept section metas (i + 1) (omega arith)))
  ]

  -- With one meta for each finding of the section, the findings before and behind the section stay
  -- as they are. In the section exactly the suppressed findings are left out, each with its own meta,
  -- and any other is still in the place of its meta. The new end is that of the shorter section.
  pub cross_ref_sql_with_go_encryption_lem :
      (before section behind : List Finding) (metas : List SqlFindingMeta)
      → length section ≡ length metas
      → cross_ref_sql_with_go_encryption
          (before ++ (section ++ behind))
          (length before)
          (length before + length section)
          metas
          go_encrypt
        ≡ (
          before ++ (kept_findings section metas ++ behind),
          kept_metas section metas,
          length before + length (kept section metas),
        )
  unfolding cross_ref_sql_with_go_encryption
  cross_ref_sql_with_go_encryption_lem before [] behind [] h = rw (not_less, kept_nil) refl
    where
      not_less : leb (length before + 0) (length before) ≡ true
      not_less = ground arith
  cross_ref_sql_with_go_encryption_lem before [] behind (m ∷ metas) h = absurd (omega arith)
  cross_ref_sql_with_go_encryption_lem before (f ∷ section) behind [] h = absurd (omega arith)
  cross_ref_sql_with_go_encryption_lem before (f ∷ section) behind (m ∷ metas) h =
      rw
        (
          less,
          take-append_part before (f ∷ section) behind,
          drop-append_length before (f ∷ section),
          take-append_length before (f ∷ section ++ behind),
          drop-append_part before (f ∷ section) behind,
          delete-cross_loop (f ∷ section) (m ∷ metas) (length before) (length before) before behind
              [] h refl (omega arith),
        )
        (ap
          (λ n. (
            before ++ (kept_findings (f ∷ section) (m ∷ metas) ++ behind),
            kept_metas (f ∷ section) (m ∷ metas),
            n,
          ))
          (omega (arith, length-kept (f ∷ section) (m ∷ metas) (length before) h)))
    where
      less :
          (leb (length before + length (f ∷ section)) (length before) || length (m ∷ metas) == 0)
          ≡ false
      less = ground arith
