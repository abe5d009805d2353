-- ===== src/Walk/Tree/Laws.antt =====
-- Theorems on `WalkFiles`.
use pci_dss_mcp.Common.{
  ℕ, ◌≡◌, refl, sym, ap, ◌∙◌, inl, inr, Bool, true, false, ◌&&◌, ◌||◌, not, Option, some, List, [],
  ◌∷◌, ◌++◌, map, arith, Text, if◌then◌else◌, Bool-cases, any, filter_by,
}
use pci_dss_mcp.FilePath.{join_path, base}
use pci_dss_mcp.Walk.{WalkConfig, skips_dir, yields_file}
use pci_dss_mcp.Walk.Tree.{
  Tree, Forest, file, folder, end, entry, walk_dir, walk_entries, walk_files,
}

-- A file of a tree, with the names of the directories on the way to it and whether all of them can be
-- read.
pub record FileAt : Type 0 where
  pub path : Text
  pub folders : List Text
  pub readable : Bool
  pub size : Option ℕ

-- Every file of a tree, whatever the configuration is.
unfoldable mutual
  pub all_files : Text → Text → List Text → Bool → Tree → List FileAt
  all_files path name folders readable (file size) =
      record { path = path; folders = folders; readable = readable; size = size } ∷ []
  all_files path name folders readable (folder r children) =
      all_entries path (name ∷ folders) (readable && r) children

  pub all_entries : Text → List Text → Bool → Forest → List FileAt
  all_entries path folders readable end = []
  all_entries path folders readable (entry name tree forest) =
      all_files (join_path path name) name folders readable tree
      ++ all_entries path folders readable forest

module _ (cfg : WalkConfig) (root : Text) where
  abbrev pub is_open : List Text → Bool → Bool
  is_open folders readable = readable && not (any (skips_dir cfg) folders)

  -- The test of one file by itself.
  abbrev pub is_wanted : FileAt → Bool
  is_wanted f = is_open f.folders f.readable && yields_file cfg root f.path f.size

  abbrev pub wanted_paths : List FileAt → List Text
  wanted_paths files = map (λ f. f.path) (filter_by is_wanted files)

  wanted_paths-append :
      (xs ys : List FileAt) → wanted_paths (xs ++ ys) ≡ wanted_paths xs ++ wanted_paths ys
  wanted_paths-append [] ys = refl
  wanted_paths-append (x ∷ xs) ys = elim (Bool-cases (is_wanted x)) [
    | inl e ↦ rw e (ap (λ l. x.path ∷ l) (wanted_paths-append xs ys))
    | inr e ↦ rw e (wanted_paths-append xs ys)
  ]

  -- Paths under a condition.
  abbrev when : Bool → List Text → List Text
  when b paths = if b then paths else []

  when-append : (b : Bool) (xs ys : List Text) → when b xs ++ when b ys ≡ when b (xs ++ ys)
  when-append true xs ys = refl
  when-append false xs ys = refl

  when_folder :
      (readable skipped above r : Bool) (below : List Text)
      → when ((readable && r) && not (skipped || above)) below
        ≡ when (readable && not above) (if skipped then [] else if r then below else [])
  when_folder readable skipped above r below = ground arith

  when_none : (b : Bool) → ◌≡◌ {A = List Text} [] (when b [])
  when_none true = refl
  when_none false = refl

  mutual
    unfolding all_files all_entries walk_dir walk_entries

    walk_dir-wanted_paths :
        (tree : Tree) (path name : Text) (folders : List Text) (readable : Bool)
        → wanted_paths (all_files path name folders readable tree)
          ≡ when (is_open folders readable) (walk_dir cfg root path name tree)
    walk_dir-wanted_paths (file size) path name folders readable =
        one (is_open folders readable) (yields_file cfg root path size)
      where
        one :
            (a b : Bool)
            → map
                (λ (f : FileAt). f.path)
                (if a && b
                  then record { path = path; folders = folders; readable = readable; size = size }
                    ∷ []
                  else [])
              ≡ when a (if b then path ∷ [] else [])
        one true true = refl
        one true false = refl
        one false b = refl
    walk_dir-wanted_paths (folder r children) path name folders readable =
        walk_entries-wanted_paths children path (name ∷ folders) (readable && r)
        ∙ when_folder readable (skips_dir cfg name) (any (skips_dir cfg) folders) r
            (walk_entries cfg root path children)

    walk_entries-wanted_paths :
        (forest : Forest) (path : Text) (folders : List Text) (readable : Bool)
        → wanted_paths (all_entries path folders readable forest)
          ≡ when (is_open folders readable) (walk_entries cfg root path forest)
    walk_entries-wanted_paths end path folders readable = when_none (is_open folders readable)
    walk_entries-wanted_paths (entry name tree forest) path folders readable =
        wanted_paths-append (all_files (join_path path name) name folders readable tree) _
        ∙ (ap (λ l. l ++ wanted_paths (all_entries path folders readable forest))
              (walk_dir-wanted_paths tree (join_path path name) name folders readable)
            ∙ (ap
                  (λ l.
                    when (is_open folders readable)
                      (walk_dir cfg root (join_path path name) name tree)
                    ++ l)
                  (walk_entries-wanted_paths forest path folders readable)
                ∙ when-append (is_open folders readable)
                    (walk_dir cfg root (join_path path name) name tree)
                    (walk_entries cfg root path forest)))

  -- Of a root that `os.Stat` calls a directory, leaving a directory out while walking is the same as
  -- testing each file by itself. A path is yielded exactly for a file of the tree that passes the tests
  -- on files and on whose way from the root, which counts, every directory can be read and none is
  -- skipped; the order is the tree's.
  pub walk_files_lem :
      (tree : Tree)
      → walk_files cfg root (some true) tree
        ≡ inr (wanted_paths (all_files root (base root) [] true tree))
  unfolding walk_files
  walk_files_lem tree = ap inr (sym (walk_dir-wanted_paths tree root (base root) [] true))
