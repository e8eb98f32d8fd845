-- ===== src/Store/Tree.antt =====
-- The tree that internal/store/sqlite/store.go builds for a caller: TreeForACLTags,
-- readableDirectories and populateDirectory.
pub mod Safety
pub mod Depth
pub mod Readable
pub mod Fetched
pub mod Complete
use configfs.Prelude.{
  ℕ, zero, suc, ◌+◌, ℤ, int_eq, Bool, true, false, not, ◌||◌, ◌&&◌, List, [], ◌∷◌, ◌++◌, map,
  Option, none, some, ltb, if◌then◌else◌, any, keep, find, length,
}
use configfs.Strings.{Text, codes, root, slash, text_eq, contains, has_prefix, count_slashes}
use configfs.Strings.Like.{like}
use configfs.Proto.{
  acl_read, ConfigAcl, Config, Directory, Tree, Trees, node, no_trees, tree_cons, full_path,
  config_allows, directory_allows,
}
use configfs.Exec.{pure, raise, ◌>>=◌, ◌>>◌}
use configfs.Store.Db.{ConfigRow, DirectoryRow, Db, Op, query, tree_directory_missing}
use configfs.Store.Acls.{load_config_acls, load_directory_acls}
use configfs.Store.Directories.{order_by_path, directory_of}
use configfs.Store.Configs.{ConfigSelect, select_row, config_of}

-- rootNormalised
unfoldable pub root_normalised : Text → Text
root_normalised path = if text_eq path [] then root else path

-- the configs that populateDirectory attaches to a directory
unfoldable pub configs_in : Directory → List Config → List Config
configs_in d configs = keep (λ (c : Config). text_eq (root_normalised c.path) (full_path d)) configs

-- the child directories
unfoldable pub children_of : Directory → List Directory → List Directory
children_of d others = keep (λ (o : Directory). text_eq o.path (full_path d)) others

unfoldable pub trees_of : (Directory → Tree) → List Directory → Trees
trees_of build [] = no_trees
trees_of build (d ∷ ds) = tree_cons (build d) (trees_of build ds)

-- populateDirectory, with fuel for the depth of the tree
unfoldable pub populate : ℕ → List Directory → List Config → Directory → Tree
populate zero others configs d = node d no_trees (configs_in d configs)
populate (suc fuel) others configs d =
    node d (trees_of (populate fuel others configs) (children_of d others)) (configs_in d configs)

-- The lengths of all full paths together: no chain of directories is deeper.
unfoldable pub total_length : List Directory → ℕ
total_length [] = 0
total_length (d ∷ ds) = length (full_path d) + total_length ds

-- A map from paths to Booleans, the latest entry first; an absent key reads as false.
abbrev pub PathMap : Type 0
PathMap = List (Text × Bool)

unfoldable pub get_path : Text → PathMap → Bool
get_path k [] = false
get_path k ((j, v) ∷ m) = if text_eq j k then v else get_path k m

-- the number of slashes of the full path
unfoldable pub depth_of : Directory → ℕ
depth_of d = count_slashes (full_path d)

unfoldable pub insert_by_depth : Directory → List Directory → List Directory
insert_by_depth d [] = d ∷ []
insert_by_depth d (e ∷ es) =
    let rest = insert_by_depth d es in
    if ltb (depth_of e) (depth_of d) then e ∷ rest else d ∷ e ∷ es

-- slices.SortFunc by depth, shallowest first
unfoldable pub sort_by_depth : List Directory → List Directory
sort_by_depth [] = []
sort_by_depth (d ∷ ds) = insert_by_depth d (sort_by_depth ds)

unfoldable pub mark_readable : List Text → PathMap → List Directory → PathMap
mark_readable tags m [] = m
mark_readable tags m (d ∷ ds) =
    mark_readable tags
      ((full_path d, get_path d.path m && directory_allows tags acl_read d.acls) ∷ m) ds

abbrev pub readable_roots : PathMap
readable_roots = ([], true) ∷ (root, true) ∷ []

-- readableDirectories
unfoldable pub readable_directories : List Directory → List Text → PathMap
readable_directories dirs tags = mark_readable tags readable_roots (sort_by_depth dirs)

-- allDirectoriesWithACLs
unfoldable pub all_directories_with_acls : Op (List Directory)
all_directories_with_acls = do
  rows ← query (λ db. order_by_path db.directory)
  acls ← load_directory_acls (map (λ (r : DirectoryRow). r.id) rows)
  pure (map (directory_of acls) rows)

-- the WHERE of the query for configs: equality or LIKE, only where there is a prefix
unfoldable pub prefilter : Text → ConfigRow → Bool
prefilter prefix c =
    if text_eq prefix [] then true else text_eq c.path prefix || like (prefix ++ codes "/%") c.path

-- the exact test that follows
unfoldable pub under_prefix : Text → Text → Bool
under_prefix prefix path =
    text_eq prefix [] || text_eq path prefix || has_prefix path (prefix ++ slash ∷ [])

-- config.Path names the root, or a directory that is there
unfoldable pub has_directory : List Directory → Text → Bool
has_directory dirs path = text_eq path [] || text_eq path root || contains (map full_path dirs) path

-- the loop over the fetched configs
unfoldable pub visible_configs :
    List Text → Text → List Directory → PathMap → List Config → Op (List Config)
visible_configs tags prefix dirs readable [] = pure []
visible_configs tags prefix dirs readable (c ∷ cs) =
    let rest = visible_configs tags prefix dirs readable cs in
    if not (under_prefix prefix c.path)
    then rest
    else if not (config_allows tags acl_read c.acls)
    then rest
    else if not (has_directory dirs c.path)
    then raise (tree_directory_missing c.path)
    else if not (get_path c.path readable)
    then rest
    else (do others ← rest; pure (c ∷ others))

abbrev pub tree_root : Directory
tree_root = record { id = codes "0"; name = root; path = []; acls = [] }

-- TreeForACLTags
unfoldable pub tree_for_acl_tags : List Text → Text → Op Tree
tree_for_acl_tags tags prefix = do
  dirs ← all_directories_with_acls
  let readable = readable_directories dirs tags
  cs ← query (λ db. map (select_row db) (keep (prefilter prefix) db.config))
  acls ← load_config_acls (map (λ (s : ConfigSelect). s.row.id) cs)
  configs ←
      visible_configs tags prefix dirs readable
        (map (λ (s : ConfigSelect). config_of (acls s.row.id) s) cs)
  let included = keep (λ d. get_path (full_path d) readable) dirs
  pure (populate (suc (total_length included)) included configs tree_root)
