-- ===== src/Sql/Drop/Laws.antt =====
-- Theorems on `applyMigrationDropDowngrade`.
use pci_dss_mcp.Common.{
  ◌+◌, ◌≡◌, refl, ap, ◌∙◌, inl, inr, Bool, true, false, ◌&&◌, ◌||◌, not, Option, none, some, List,
  [], ◌∷◌, ◌++◌, arith, Text, eq_text_cases, ltb, leb, ◌==◌, if◌then◌else◌, Bool-cases,
  Option-cases, length, any, length-append, take-append_length, drop-append_length,
  take-append_part, drop-append_part,
}
use pci_dss_mcp.GoStrings.{is_empty}
use pci_dss_mcp.FilePath.{dir, base}
use pci_dss_mcp.Finding.{Finding}
use pci_dss_mcp.Sql.FileScan.{SqlFindingMeta}
use pci_dss_mcp.Sql.CrossRef.{lookup}
use pci_dss_mcp.Sql.Drop.{
  Outside, MigrationFile, Bodies, Folders, Caches, behind_self, lowered,
  list_ordered_migration_files, text_of, read_body, if_not_re_added, find_drop, re_added,
  dropped_in, ordered_files, with_later, with_ordered, is_candidate, downgrade_step, downgrade_loop,
  apply_migration_drop_downgrade,
}

-- Every entry of a cache is what its key gives.
abbrev Coherent : {V : Type 0} → (Text → V) → List (Text × V) → Type 0
Coherent {V} read cache = (key : Text) (v : V) → lookup key cache ≡ some v → v ≡ read key

nil-Coherent : {V : Type 0} (read : Text → V) → Coherent read []
unfolding lookup
nil-Coherent read key v h = cc

cons-Coherent :
    {V : Type 0} (read : Text → V) (key : Text) (cache : List (Text × V))
    → Coherent read cache
    → Coherent read ((key, read key) ∷ cache)
unfolding lookup
cons-Coherent read key cache h other v e = elim (eq_text_cases key other) [
  | inl (same, k) ↦ cc (rw same at e)
  | inr differ ↦ h other v (rw differ at e)
]

module _ (outside : Outside) where
  abbrev contents : Text → Text
  contents path = text_of (outside.read_file path)

  -- What a file does to a column, read from the file itself.
  abbrev pub does : (Text → Text → Bool) → Text → MigrationFile → Bool
  does test column file = not (is_empty (contents file.path)) && test column (contents file.path)

  abbrev pub adds_again : Text → Text → Bool
  adds_again column src = outside.adds column src || outside.adds_by_alter column src

  -- The first file that drops the column, if none behind it adds the column again.
  unfoldable pub dropped_for_good : Text → List MigrationFile → Option MigrationFile
  dropped_for_good column [] = none
  dropped_for_good column (file ∷ files) =
      let rest = dropped_for_good column files in
      if does outside.drops column file
      then (if any (does adds_again column) files then none else some file)
      else rest

  abbrev among : Finding → Text → Option (List MigrationFile) → Finding
  among f column none = f
  among f column (some later) = lowered f (dropped_for_good column later)

  abbrev in_order : Finding → Text → Option (List MigrationFile) → Finding
  in_order f column none = f
  in_order f column (some files) = among f column (behind_self (base f.file_path) files)

  -- The verdict on one finding, by the files of its directory alone.
  unfoldable pub downgraded : Finding → SqlFindingMeta → Finding
  unfolding dropped_for_good
  downgraded f meta =
      if is_candidate f
      then in_order f meta.column_name (list_ordered_migration_files outside (dir f.file_path))
      else f

  read_body_lem :
      (body : Bodies) (path : Text)
      → Coherent contents body
      → ((read_body outside body path).0 ≡ contents path)
        × Coherent contents (read_body outside body path).1
  unfolding read_body
  read_body_lem body path h = elim (Option-cases (lookup path body)) [
    | inl e ↦ rw e (refl, cons-Coherent contents path body h)
    | inr (text, e) ↦ rw e (h path text e, h)
  ]

  re_added_lem :
      (column : Text) (files : List MigrationFile) (body : Bodies)
      → Coherent contents body
      → ((re_added outside column files body).0 ≡ any (does adds_again column) files)
        × Coherent contents (re_added outside column files body).1
  unfolding re_added
  re_added_lem column [] body h = (refl, h)
  re_added_lem column (file ∷ files) body h =
      let (same, coherent) = read_body_lem body file.path h in
      let ih = re_added_lem column files (read_body outside body file.path).1 coherent in
      elim (Bool-cases (does adds_again column file)) [
        | inl e ↦ rw (same, e) (refl, coherent)
        | inr e ↦ rw (same, e) ih
      ]

  if_not_re_added_lem :
      (file : MigrationFile) (r : Bool × Bodies) (b : Bool)
      → (r.0 ≡ b) × Coherent contents r.1
      → ((if_not_re_added outside file r).0 ≡ (if b then none else some file))
        × Coherent contents (if_not_re_added outside file r).1
  if_not_re_added_lem file (true, body) true (e, h) = (refl, h)
  if_not_re_added_lem file (true, body) false (e, h) = cc
  if_not_re_added_lem file (false, body) true (e, h) = cc
  if_not_re_added_lem file (false, body) false (e, h) = (refl, h)

  -- The verdict of the first drop, as a reading of the files.
  dropped_in_lem :
      (column : Text) (files : List MigrationFile) (body : Bodies)
      → Coherent contents body
      → ((dropped_in outside column files body).0 ≡ dropped_for_good column files)
        × Coherent contents (dropped_in outside column files body).1
  unfolding dropped_in find_drop dropped_for_good
  dropped_in_lem column [] body h = (refl, h)
  dropped_in_lem column (file ∷ files) body h =
      let (same, coherent) = read_body_lem body file.path h in
      let ih = dropped_in_lem column files (read_body outside body file.path).1 coherent in
      elim (Bool-cases (does outside.drops column file)) [
        | inl e ↦
            rw (same, e)
              (if_not_re_added_lem file _ _
                (re_added_lem column files (read_body outside body file.path).1 coherent))
        | inr e ↦ rw (same, e) ih
      ]

  abbrev CoherentCaches : Caches → Type 0
  CoherentCaches caches =
      Coherent (list_ordered_migration_files outside) caches.cache × Coherent contents caches.body

  ordered_files_lem :
      (cache : Folders) (folder : Text)
      → Coherent (list_ordered_migration_files outside) cache
      → ((ordered_files outside cache folder).0 ≡ list_ordered_migration_files outside folder)
        × Coherent (list_ordered_migration_files outside) (ordered_files outside cache folder).1
  unfolding ordered_files
  ordered_files_lem cache folder h = elim (Option-cases (lookup folder cache)) [
    | inl e ↦ rw e (refl, cons-Coherent (list_ordered_migration_files outside) folder cache h)
    | inr (ordered, e) ↦ rw e (h folder ordered e, h)
  ]

  with_later_lem :
      (f : Finding) (column : Text) (later : Option (List MigrationFile)) (cache : Folders)
      (body : Bodies)
      → Coherent (list_ordered_migration_files outside) cache
      → Coherent contents body
      → ((with_later outside f column later cache body).0 ≡ among f column later)
        × CoherentCaches (with_later outside f column later cache body).1
  with_later_lem f column none cache body h k = (refl, (h, k))
  with_later_lem f column (some files) cache body h k =
      let (same, coherent) = dropped_in_lem column files body k in
      (ap (lowered f) same, (h, coherent))

  with_ordered_lem :
      (f : Finding) (column : Text) (r : Option (List MigrationFile) × Folders) (body : Bodies)
      → Coherent (list_ordered_migration_files outside) r.1
      → Coherent contents body
      → ((with_ordered outside f column r body).0 ≡ in_order f column r.0)
        × CoherentCaches (with_ordered outside f column r body).1
  with_ordered_lem f column (none, cache) body h k = (refl, (h, k))
  with_ordered_lem f column (some files, cache) body h k =
      with_later_lem f column (behind_self (base f.file_path) files) cache body h k

  downgrade_step_lem :
      (f : Finding) (meta : SqlFindingMeta) (caches : Caches)
      → CoherentCaches caches
      → ((downgrade_step outside f meta caches).0 ≡ downgraded f meta)
        × CoherentCaches (downgrade_step outside f meta caches).1
  unfolding downgrade_step downgraded
  downgrade_step_lem f meta caches (h, k) = elim (Bool-cases (is_candidate f)) [
    | inl e ↦
        let (same, coherent) = ordered_files_lem caches.cache (dir f.file_path) h in
        let (verdict, left) =
          with_ordered_lem f meta.column_name (ordered_files outside caches.cache (dir f.file_path))
            caches.body coherent k in
        rw e (verdict ∙ ap (in_order f meta.column_name) same, left)
    | inr e ↦ rw e (refl, (h, k))
  ]

  abbrev pub all_downgraded : List Finding → List SqlFindingMeta → List Finding
  all_downgraded [] metas = []
  all_downgraded (f ∷ section) [] = f ∷ section
  all_downgraded (f ∷ section) (meta ∷ metas) = downgraded f meta ∷ all_downgraded section metas

  downgrade_loop_lem :
      (section : List Finding) (metas : List SqlFindingMeta) (caches : Caches)
      → CoherentCaches caches
      → downgrade_loop outside section metas caches ≡ all_downgraded section metas
  unfolding downgrade_loop
  downgrade_loop_lem [] metas caches h = refl
  downgrade_loop_lem (f ∷ section) [] caches h = refl
  downgrade_loop_lem (f ∷ section) (meta ∷ metas) caches h =
      let (same, coherent) = downgrade_step_lem f meta caches h in
      rw (same, downgrade_loop_lem section metas (downgrade_step outside f meta caches).1 coherent)
        refl

  -- The caches change nothing: with one meta for each finding of the section, each of its findings is
  -- given the verdict that reading its directory and the later files anew gives, with its own meta,
  -- and the findings before and behind the section stay as they are.
  pub apply_migration_drop_downgrade_lem :
      (before section behind : List Finding) (metas : List SqlFindingMeta)
      → length section ≡ length metas
      → apply_migration_drop_downgrade outside
          (before ++ (section ++ behind))
          metas
          (length before)
          (length before + length section)
        ≡ before ++ (all_downgraded section metas ++ behind)
  unfolding apply_migration_drop_downgrade
  apply_migration_drop_downgrade_lem before [] behind [] h = rw not_less refl
    where
      not_less :
          (leb (length before + 0) (length before)
            || ltb (length (before ++ behind)) (length before + 0)
            || true)
          ≡ true
      not_less = ground arith
  apply_migration_drop_downgrade_lem before [] behind (m ∷ metas) h = absurd (omega arith)
  apply_migration_drop_downgrade_lem before (f ∷ section) behind [] h = absurd (omega arith)
  apply_migration_drop_downgrade_lem before (f ∷ section) behind (m ∷ metas) h =
      rw
        (
          inside,
          take-append_part before (f ∷ section) behind,
          drop-append_length before (f ∷ section),
          take-append_length before (f ∷ section ++ behind),
          drop-append_part before (f ∷ section) behind,
        )
        (ap (λ l. before ++ (l ++ behind))
          (downgrade_loop_lem (f ∷ section) (m ∷ metas) (record { cache = []; body = [] })
            (nil-Coherent (list_ordered_migration_files outside), nil-Coherent contents)))
    where
      inside :
          (leb (length before + length (f ∷ section)) (length before)
            || ltb
                (length (before ++ (f ∷ section ++ behind)))
                (length before + length (f ∷ section))
            || length (m ∷ metas) == 0)
          ≡ false
      inside =
          ground (arith, length-append before (f ∷ section ++ behind), length-append section behind)
