-- ===== src/Fs/Index.antt =====
-- The maps that directoryMap of internal/fs/fs.go builds over the tree of a snapshot.
pub mod Maps
pub mod Laws
use configfs.Prelude.{Bool, true, false, List, [], ◌∷◌, Option, none, some, if◌then◌else◌}
use configfs.Strings.{Text, text_eq}
use configfs.Proto.{
  Config, Directory, Tree, Trees, node, no_trees, tree_cons, full_path, config_full_path,
}

-- A map keyed by texts, the latest entry first.
abbrev pub TextMap : Type 0 → Type 0
TextMap V = List (Text × V)

module _ {V : Type 0} where
  -- m[k], and whether it is there
  unfoldable pub get_value : Text → TextMap V → Option V
  get_value k [] = none
  get_value k ((j, v) ∷ m) = if text_eq j k then some v else get_value k m

  -- m[k] = v
  abbrev pub put_value : Text → V → TextMap V → TextMap V
  put_value k v m = (k, v) ∷ m

  unfoldable pub put_if_absent : Text → V → TextMap V → TextMap V
  put_if_absent k v m = elim (get_value k m) [ some _ ↦ m | none ↦ put_value k v m ]

pub record Index : Type 0 where
  pub path_directory : TextMap Tree
  pub id_config : TextMap Config
  pub full_path_config : TextMap Config

abbrev pub empty_index : Index
empty_index = record { path_directory = []; id_config = []; full_path_config = [] }

abbrev pub top_of : Tree → Directory
top_of (node d ts cs) = d

abbrev pub configs_of : Tree → List Config
configs_of (node d ts cs) = cs

abbrev pub directories_of : Tree → Trees
directories_of (node d ts cs) = ts

-- the loop over the configs of a directory
unfoldable pub add_configs : List Config → Index → Index
add_configs [] m = m
add_configs (c ∷ cs) m = add_configs cs (record m {
  id_config = put_value c.id c m.id_config;
  full_path_config = put_value (config_full_path c) c m.full_path_config;
})

unfoldable pub add_directory : Tree → Index → Index
add_directory t m = record m {
  path_directory = put_if_absent (full_path (top_of t)) t m.path_directory;
}

-- directoryMap
unfoldable mutual
  pub directory_map : Tree → Index → Index
  directory_map (node d ts cs) m =
      directory_maps ts (add_configs cs (add_directory (node d ts cs) m))

  pub directory_maps : Trees → Index → Index
  directory_maps no_trees m = m
  directory_maps (tree_cons t ts) m = directory_maps ts (directory_map t m)
