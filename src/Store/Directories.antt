-- ===== src/Store/Directories.antt =====
-- Directories in internal/store/sqlite/store.go: looking paths up, materialising them, and the
-- operations of `DirectoryStore`.
pub mod Chain
pub mod Growth
pub mod Deletion
pub mod Replacement
use configfs.Prelude.{
  ℤ, int_eq, Bool, true, false, not, ◌||◌, ◌&&◌, List, [], ◌∷◌, ◌++◌, map, Option, none, some,
  if◌then◌else◌, any, keep, find,
}
use configfs.Strings.{
  Text, codes, root, slash, text_eq, text_lt, contains, trim_space, split, join, cut_last,
}
use configfs.Strings.Decimal.{parse_int, format_int}
use configfs.Strings.Like.{like}
use configfs.Proto.{ConfigAcl, Directory, full_path, full_path_of}
use configfs.Exec.{pure, raise, ◌>>=◌, ◌>>◌}
use configfs.Store.Db.{
  DirectoryRow, Db, Op, Error, query, execute, next_inode, with_tx, bad_id, name_required,
  directory_exists, not_found_after_creation, no_such_directory_id, name_mismatch, path_mismatch,
  has_subdirectories, has_configs, directory_missing, panicked, ConfigRow,
}
use configfs.Store.Acls.{
  load_directory_acls, directory_acls, insert_directory_acls, delete_directory_acls,
  replace_directory_acls,
}

-- The parts of a path: split at "/", trimmed, the empty ones dropped.
unfoldable pub components : Text → List Text
components path = keep (λ part. not (text_eq part [])) (map trim_space (split slash path))

-- "/" + strings.Join(parts, "/")
abbrev pub absolute : List Text → Text
absolute parts = slash ∷ join parts

-- The pairs (path, name) asked for, one for each part.
unfoldable pub constraints_from : List Text → List Text → List (Text × Text)
constraints_from before [] = []
constraints_from before (name ∷ parts) =
    (absolute before, name) ∷ constraints_from (before ++ name ∷ []) parts

unfoldable pub constraints : List Text → List (Text × Text)
constraints [] = []
constraints (target ∷ targets) = constraints_from [] (components target) ++ constraints targets

-- path = ? AND name = ?
unfoldable pub satisfies : DirectoryRow → Text × Text → Bool
satisfies row c = text_eq row.path c.0 && text_eq row.name c.1

-- ORDER BY path
unfoldable pub insert_by_path : DirectoryRow → List DirectoryRow → List DirectoryRow
insert_by_path r [] = r ∷ []
insert_by_path r (q ∷ rows) =
    let rest = insert_by_path r rows in if text_lt q.path r.path then q ∷ rest else r ∷ q ∷ rows

unfoldable pub order_by_path : List DirectoryRow → List DirectoryRow
order_by_path [] = []
order_by_path (r ∷ rows) = insert_by_path r (order_by_path rows)

-- SELECT id, name, path FROM directory WHERE … ORDER BY path
unfoldable pub select_directories : List (Text × Text) → Db → List DirectoryRow
select_directories cs db = order_by_path (keep (λ row. any (satisfies row) cs) db.directory)

-- The message built from a row and the map of ACLs.
unfoldable pub directory_of : (ℤ → List ConfigAcl) → DirectoryRow → Directory
directory_of acls r = record {
  id = format_int r.id;
  name = r.name;
  path = r.path;
  acls = acls r.id;
}

-- Targets that are no fetched path.
unfoldable pub missing_of : List Text → List Directory → List Text
missing_of targets dirs = keep (λ t. not (contains (map full_path dirs) t)) targets

unfoldable pub fetch_constrained : List Text → List (Text × Text) → Op (List Directory × List Text)
fetch_constrained targets [] = pure ([], targets)
fetch_constrained targets (c ∷ cs) = do
  rows ← query (select_directories (c ∷ cs))
  acls ← load_directory_acls (map (λ r. r.id) rows)
  let dirs = map (directory_of acls) rows
  pure (dirs, missing_of targets dirs)

-- getDirectoriesByPathString: the directories found, and the targets that are missing
unfoldable pub get_directories_by_path_string : List Text → Op (List Directory × List Text)
get_directories_by_path_string targets = fetch_constrained targets (constraints targets)

-- An INTEGER column stores a decimal text as the number.
unfoldable pub integer_affinity : Option Text → Option ℤ
integer_affinity none = none
integer_affinity (some t) = parse_int t

-- createDirectory
unfoldable pub create_directory_row : Text → Text → Option Text → List ConfigAcl → Op Directory
create_directory_row path name parent acls = do
  inode ← next_inode
  execute (λ db. record db {
    directory =
        db.directory
        ++ record { id = inode; name = name; path = path; parent_id = integer_affinity parent }
          ∷ [];
  })
  insert_directory_acls inode acls
  pure (record { id = format_int inode; name = name; path = path; acls = acls })

-- slices.Sort
unfoldable pub insert_text : Text → List Text → List Text
insert_text t [] = t ∷ []
insert_text t (u ∷ us) = let rest = insert_text t us in if text_lt u t then u ∷ rest else t ∷ u ∷ us

unfoldable pub sort_texts : List Text → List Text
sort_texts [] = []
sort_texts (t ∷ ts) = insert_text t (sort_texts ts)

-- parentPath, where an empty one is the root
abbrev pub or_root : Text → Text
or_root t = if text_eq t [] then root else t

-- The id of the first directory at a path; none for the root.
unfoldable pub parent_id_of : Text → List Directory → Option Text
parent_id_of parent dirs =
    if text_eq parent root
    then none
    else elim (find (λ d. text_eq (full_path d) parent) dirs) [ some d ↦ some d.id | none ↦ none ]

-- one round of the loop over `missing`
unfoldable pub create_one :
    List Directory → List ConfigAcl → Option (Text × Text) → Op (List Directory)
create_one dirs acls none = raise panicked
create_one dirs acls (some (before, name)) = do
  let parent = or_root before
  new_dir ← create_directory_row parent name (parent_id_of parent dirs) acls
  pure (dirs ++ new_dir ∷ [])

unfoldable pub create_missing : List Directory → List ConfigAcl → List Text → Op (List Directory)
create_missing dirs acls [] = pure dirs
create_missing dirs acls (miss ∷ misses) = do
  dirs' ← create_one dirs acls (cut_last miss)
  create_missing dirs' acls misses

-- pathsToFetch: the path of each ancestor and of the directory itself
unfoldable pub paths_from : List Text → List Text → List Text
paths_from before [] = []
paths_from before (part ∷ parts) =
    absolute (before ++ part ∷ []) ∷ paths_from (before ++ part ∷ []) parts

unfoldable pub paths_to_fetch : Text → List Text
paths_to_fetch path = paths_from [] (components path)

-- ensureDirectories
unfoldable pub ensure_directories : Text → List ConfigAcl → Op (List Directory)
ensure_directories path acls = do
  found ← get_directories_by_path_string (paths_to_fetch path)
  create_missing found.0 acls (sort_texts found.1)

unfoldable pub directory_missing_unless : Text → List Text → Op (Unit {0})
directory_missing_unless path [] = pure tt
directory_missing_unless path (m ∷ ms) = raise (directory_missing path)

-- requireDirectoryExists
unfoldable pub require_directory_exists : Text → Op (Unit {0})
require_directory_exists path = if text_eq path [] || text_eq path root then pure tt else do
  found ← get_directories_by_path_string (path ∷ [])
  directory_missing_unless path found.1

unfoldable pub directory_with_acls : Option DirectoryRow → Op (Option Directory)
directory_with_acls none = pure none
directory_with_acls (some r) = do
  acls ← directory_acls r.id
  pure (some (directory_of (λ _. acls) r))

unfoldable pub parsed_directory : Text → Option ℤ → Op (Option Directory)
parsed_directory id none = raise (bad_id id)
parsed_directory id (some n) = do
  row ← query (λ db. find (λ (r : DirectoryRow). int_eq r.id n) db.directory)
  directory_with_acls row

-- GetDirectoryByID; `none` where there is no such row
unfoldable pub get_directory_by_id : Text → Op (Option Directory)
get_directory_by_id id = parsed_directory id (parse_int id)

-- DirectoryChain
unfoldable pub directory_chain : Text → Op (List Directory × List Text)
directory_chain path =
    if text_eq path [] || text_eq path root
    then pure ([], [])
    else get_directories_by_path_string (path ∷ [])

-- fullPath of CreateDirectory
unfoldable pub new_directory_path : Text → Text → Text
new_directory_path parent name =
    if text_eq (or_root parent) root then slash ∷ name else parent ++ slash ∷ name

-- the last loop of CreateDirectory
unfoldable pub return_created : Text → Option Directory → Op (Option Directory)
return_created path none = raise (not_found_after_creation path)
return_created path (some d) = get_directory_by_id d.id

unfoldable pub create_directory_body : Text → List ConfigAcl → Op (Option Directory)
create_directory_body path acls = do
  found ← get_directories_by_path_string (path ∷ [])
  if not (contains found.1 path) then raise (directory_exists path) else do
    dirs ← ensure_directories path acls
    return_created path (find (λ d. text_eq (full_path d) path) dirs)

-- CreateDirectory
unfoldable pub create_directory : Directory → Op (Option Directory)
create_directory dir =
    let name = trim_space dir.name in
    if text_eq name []
    then raise name_required
    else with_tx (create_directory_body (new_directory_path dir.path name) dir.acls)

-- dir.GetX() != "" && dir.GetX() != existing.GetX()
abbrev pub contradicts : Text → Text → Bool
contradicts given stored = not (text_eq given []) && not (text_eq given stored)

unfoldable pub replace_checked : Directory → ℤ → Option Directory → Op (Option Directory)
replace_checked dir n none = raise (no_such_directory_id dir.id)
replace_checked dir n (some existing) =
    if contradicts dir.name existing.name
    then raise (name_mismatch existing.name)
    else if contradicts dir.path existing.path
    then raise (path_mismatch existing.path)
    else do replace_directory_acls n dir.acls; get_directory_by_id dir.id

unfoldable pub update_directory_body : Directory → ℤ → Op (Option Directory)
update_directory_body dir n = do
  existing ← get_directory_by_id dir.id
  replace_checked dir n existing

unfoldable pub update_parsed_directory : Directory → Option ℤ → Op (Option Directory)
update_parsed_directory dir none = raise (bad_id dir.id)
update_parsed_directory dir (some n) = with_tx (update_directory_body dir n)

-- UpdateDirectory
unfoldable pub update_directory : Directory → Op (Option Directory)
update_directory dir = update_parsed_directory dir (parse_int dir.id)

-- SELECT COUNT(*) FROM directory WHERE parent_id = ?, compared with 0
unfoldable pub has_parent : ℤ → DirectoryRow → Bool
has_parent n r = elim r.parent_id [ some p ↦ int_eq p n | none ↦ false ]

-- path = ? OR path LIKE ? of the count of child configs
unfoldable pub config_under : Text → ConfigRow → Bool
config_under path c = text_eq c.path path || like (path ++ codes "/%") c.path

unfoldable pub delete_found_directory : Text → ℤ → Option Directory → Op (Unit {0})
delete_found_directory id n none = raise (no_such_directory_id id)
delete_found_directory id n (some existing) = do
  let path = full_path existing
  child_dirs ← query (λ db. any (has_parent n) db.directory)
  if child_dirs then raise (has_subdirectories path) else do
    child_configs ← query (λ db. any (config_under path) db.config)
    if child_configs then raise (has_configs path) else do
      delete_directory_acls n
      execute (λ db. record db {
        directory = keep (λ (r : DirectoryRow). not (int_eq r.id n)) db.directory;
      })

unfoldable pub delete_directory_body : Text → ℤ → Op (Unit {0})
delete_directory_body id n = do
  existing ← get_directory_by_id id
  delete_found_directory id n existing

unfoldable pub delete_parsed_directory : Text → Option ℤ → Op (Unit {0})
delete_parsed_directory id none = raise (bad_id id)
delete_parsed_directory id (some n) = with_tx (delete_directory_body id n)

-- DeleteDirectory
unfoldable pub delete_directory : Text → Op (Unit {0})
delete_directory id = delete_parsed_directory id (parse_int id)
