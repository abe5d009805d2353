-- ===== src/Sql/Drop.antt =====
-- scanner/sqlscanner/migration_drop.go: findings on columns that a later migration drops.
pub mod Laws
use pci_dss_mcp.Common.{
  ℕ, Bool, true, false, ◌&&◌, ◌||◌, not, Option, none, some, List, [], ◌∷◌, ◌++◌, Text, codes,
  eq_text, ltb, leb, ◌==◌, if◌then◌else◌, length, take, drop,
}
use pci_dss_mcp.GoStrings.{to_lower, contains, has_suffix, trim_suffix, is_empty}
use pci_dss_mcp.FilePath.{dir, base, ext, join_path}
use pci_dss_mcp.Finding.{Finding, Severity, eq_severity}
use pci_dss_mcp.Sql.FileScan.{rule_sql_sensitive_column, rule_sql_text_type, SqlFindingMeta}
use pci_dss_mcp.Sql.CrossRef.{lookup}

unfoldable pub is_migration_dir : Text → Bool
is_migration_dir folder =
    contains (to_lower folder) (codes "/migrations/")
    || contains (to_lower folder) (codes "/migration/")
    || has_suffix (to_lower folder) (codes "/migrations")
    || has_suffix (to_lower folder) (codes "/migration")

pub record FolderEntry : Type 0 where
  pub name : Text
  pub is_dir : Bool

pub record MigrationFile : Type 0 where
  pub ts : Text
  pub name : Text
  pub path : Text

abbrev pub Bodies : Type 0
Bodies = List (Text × Text)

abbrev pub Folders : Type 0
Folders = List (Text × Option (List MigrationFile))

pub record Caches : Type 0 where
  pub cache : Folders
  pub body : Bodies

-- The files behind the one of a name.
unfoldable pub behind_self : Text → List MigrationFile → Option (List MigrationFile)
behind_self self [] = none
behind_self self (file ∷ files) =
    let rest = behind_self self files in if eq_text file.name self then some files else rest

abbrev pub lowered : Finding → Option MigrationFile → Finding
lowered f none = f
lowered f (some file) = record f {
  severity = Severity.info;
  confidence = codes "high";
  triage_hint =
      codes "downgrade:column_dropped_in_"
      ++ (trim_suffix file.name (ext file.name)
          ++ (codes " | Column dropped in later migration "
              ++ (file.name ++ codes " and not re-added.")));
}

abbrev pub text_of : Option Text → Text
text_of none = []
text_of (some text) = text

-- The three `continue`s that read nothing.
unfoldable pub is_candidate : Finding → Bool
unfolding eq_severity is_migration_dir
is_candidate f =
    (eq_text f.rule_id rule_sql_sensitive_column || eq_text f.rule_id rule_sql_text_type)
    && not (eq_severity f.severity Severity.info)
    && is_migration_dir (dir f.file_path)

-- What the code asks the system and the library: `read_dir` and `read_file` are those of `os`,
-- `migration_ts` is the first group of `migrationFilenameRE`, `sort_by_ts` is the call of
-- `sort.Slice`, and the last three are `MatchString` of the regular expressions for a column.
pub record Outside : Type 0 where
  pub read_dir : Text → Option (List FolderEntry)
  pub read_file : Text → Option Text
  pub migration_ts : Text → Option Text
  pub sort_by_ts : List MigrationFile → List MigrationFile
  pub drops : Text → Text → Bool
  pub adds : Text → Text → Bool
  pub adds_by_alter : Text → Text → Bool

module _ (outside : Outside) where
  unfoldable pub collect_files : Text → List FolderEntry → Option (List MigrationFile)
  collect_files folder [] = some []
  collect_files folder (e ∷ entries) =
      let rest = collect_files folder entries in
      if e.is_dir || not (has_suffix (to_lower e.name) (codes ".sql"))
      then rest
      else with_ts (outside.migration_ts e.name) rest
    where
      with_ts : Option Text → Option (List MigrationFile) → Option (List MigrationFile)
      with_ts none rest = none
      with_ts (some t) none = none
      with_ts (some t) (some files) =
          some (record { ts = t; name = e.name; path = join_path folder e.name } ∷ files)

  abbrev sorted_files : Option (List MigrationFile) → Option (List MigrationFile)
  sorted_files none = none
  sorted_files (some []) = none
  sorted_files (some (file ∷ files)) = some (outside.sort_by_ts (file ∷ files))

  abbrev in_folder : Text → Option (List FolderEntry) → Option (List MigrationFile)
  in_folder folder none = none
  in_folder folder (some entries) = sorted_files (collect_files folder entries)

  unfoldable pub list_ordered_migration_files : Text → Option (List MigrationFile)
  unfolding collect_files
  list_ordered_migration_files folder = in_folder folder (outside.read_dir folder)

  -- `readBody`, with what it leaves in `body`.
  abbrev read_cached : Option Text → Bodies → Text → Text × Bodies
  read_cached (some text) body path = (text, body)
  read_cached none body path =
      (text_of (outside.read_file path), (path, text_of (outside.read_file path)) ∷ body)

  unfoldable pub read_body : Bodies → Text → Text × Bodies
  unfolding lookup
  read_body body path = read_cached (lookup path body) body path

  unfoldable pub find_drop :
      Text → List MigrationFile → Bodies → Option (MigrationFile × List MigrationFile) × Bodies
  unfolding read_body
  find_drop column [] body = (none, body)
  find_drop column (file ∷ files) body =
      let (src, read) = read_body body file.path in
      let rest = find_drop column files read in
      if not (is_empty src) && outside.drops column src then (some (file, files), read) else rest

  unfoldable pub re_added : Text → List MigrationFile → Bodies → Bool × Bodies
  unfolding read_body
  re_added column [] body = (false, body)
  re_added column (file ∷ files) body =
      let (src, read) = read_body body file.path in
      let rest = re_added column files read in
      if not (is_empty src) && (outside.adds column src || outside.adds_by_alter column src)
      then (true, read)
      else rest

  abbrev if_not_re_added : MigrationFile → Bool × Bodies → Option MigrationFile × Bodies
  if_not_re_added file (true, body) = (none, body)
  if_not_re_added file (false, body) = (some file, body)

  abbrev after_drop :
      Text → Option (MigrationFile × List MigrationFile) × Bodies → Option MigrationFile × Bodies
  after_drop column (none, body) = (none, body)
  after_drop column (some (file, files), body) = if_not_re_added file (re_added column files body)

  -- The file that outside.drops the column for good.
  unfoldable pub dropped_in : Text → List MigrationFile → Bodies → Option MigrationFile × Bodies
  unfolding find_drop re_added
  dropped_in column files body = after_drop column (find_drop column files body)

  abbrev listed_cached :
      Option (Option (List MigrationFile)) → Folders → Text → Option (List MigrationFile) × Folders
  listed_cached (some ordered) cache folder = (ordered, cache)
  listed_cached none cache folder =
      (list_ordered_migration_files folder, (folder, list_ordered_migration_files folder) ∷ cache)

  unfoldable pub ordered_files : Folders → Text → Option (List MigrationFile) × Folders
  unfolding lookup list_ordered_migration_files
  ordered_files cache folder = listed_cached (lookup folder cache) cache folder

  abbrev with_later :
      Finding → Text → Option (List MigrationFile) → Folders → Bodies → Finding × Caches
  with_later f column none cache body = (f, record { cache = cache; body = body })
  with_later f column (some files) cache body =
      let (file, read) = dropped_in column files body in
      (lowered f file, record { cache = cache; body = read })

  abbrev with_ordered :
      Finding → Text → Option (List MigrationFile) × Folders → Bodies → Finding × Caches
  with_ordered f column (none, cache) body = (f, record { cache = cache; body = body })
  with_ordered f column (some files, cache) body =
      with_later f column (behind_self (base f.file_path) files) cache body

  unfoldable pub downgrade_step : Finding → SqlFindingMeta → Caches → Finding × Caches
  unfolding is_candidate ordered_files dropped_in behind_self
  downgrade_step f meta caches =
      if is_candidate f
      then with_ordered f meta.column_name (ordered_files caches.cache (dir f.file_path))
          caches.body
      else (f, caches)

  unfoldable pub downgrade_loop : List Finding → List SqlFindingMeta → Caches → List Finding
  unfolding downgrade_step
  downgrade_loop [] metas caches = []
  downgrade_loop (f ∷ section) [] caches = f ∷ section
  downgrade_loop (f ∷ section) (meta ∷ metas) caches =
      let (g, read) = downgrade_step f meta caches in g ∷ downgrade_loop section metas read

  unfoldable pub apply_migration_drop_downgrade :
      List Finding → List SqlFindingMeta → ℕ → ℕ → List Finding
  unfolding downgrade_loop
  apply_migration_drop_downgrade findings sql_metas sql_start sql_end =
      if leb sql_end sql_start || ltb (length findings) sql_end || length sql_metas == 0
      then findings
      else take sql_start findings
        ++ (downgrade_loop (drop sql_start (take sql_end findings)) sql_metas
              (record { cache = []; body = [] })
            ++ drop sql_end findings)
