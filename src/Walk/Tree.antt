-- ===== src/Walk/Tree.antt =====
-- scanner/walker.go, `WalkFiles`: the walk of a directory tree.
pub mod Laws
use pci_dss_mcp.Common.{
  ℕ, ◌⊎◌, inl, inr, Bool, true, false, Option, none, some, List, [], ◌∷◌, ◌++◌, Text, if◌then◌else◌,
}
use pci_dss_mcp.FilePath.{join_path, base}
use pci_dss_mcp.Walk.{WalkConfig, skips_dir, yields_file}

-- What stands under a root when it is walked, in the order of `os.ReadDir`. A file has the size that
-- `Info` gives, `none` for its error, and a directory that cannot be read has `readable = false`.
mutual
  pub data Tree : Type 0 where
    file : Option ℕ → Tree
    folder : (readable : Bool) → Forest → Tree

  pub data Forest : Type 0 where
    end : Forest
    entry : Text → Tree → Forest → Forest

-- `WalkDir` with the callback: what it yields from a path of a name. A directory that is skipped, or
-- whose reading fails, yields nothing.
unfoldable mutual
  unfolding skips_dir yields_file

  pub walk_dir : WalkConfig → Text → Text → Text → Tree → List Text
  walk_dir cfg root path name (file size) = if yields_file cfg root path size then path ∷ [] else []
  walk_dir cfg root path name (folder readable children) =
      let below = walk_entries cfg root path children in
      if skips_dir cfg name then [] else if readable then below else []

  pub walk_entries : WalkConfig → Text → Text → Forest → List Text
  walk_entries cfg root path end = []
  walk_entries cfg root path (entry name tree forest) =
      walk_dir cfg root (join_path path name) name tree ++ walk_entries cfg root path forest

pub data WalkError : Type 0 where
  no_root not_a_directory : WalkError

-- The paths that are yielded to a consumer that takes them all, or the one error. `is_dir` is what
-- `os.Stat` says of the root, `none` for its error, and the tree what the walk sees, which does not
-- follow a root that is a link: such a root is a file. The root's name is its last element.
unfoldable pub walk_files : WalkConfig → Text → Option Bool → Tree → WalkError ⊎ List Text
unfolding walk_dir
walk_files cfg root none tree = inl no_root
walk_files cfg root (some false) tree = inl not_a_directory
walk_files cfg root (some true) tree = inr (walk_dir cfg root root (base root) tree)
