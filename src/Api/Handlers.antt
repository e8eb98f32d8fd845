-- ===== src/Api/Handlers.antt =====
-- The RPC handlers of internal/api/server.go. `tags` is aclTags(ctx).
pub mod Requests
pub mod Reading
pub mod Writing
pub mod Changing
pub mod Updating
pub mod Creating
pub mod Listing
use configfs.Prelude.{Bool, true, false, not, List, [], ◌∷◌, Option, none, some, if◌then◌else◌}
use configfs.Strings.{Text, text_eq, trim_space}
use configfs.Proto.{
  acl_read, acl_write, Config, Directory, Tree, Trees, node, no_trees, tree_cons, full_path,
  config_allows, directory_allows, allows_or_nil,
}
use configfs.Exec.{pure, raise, ◌>>=◌, ◌>>◌}
use configfs.Store.Db.{
  Error, directory_exists, name_mismatch, path_mismatch, has_subdirectories, has_configs,
}
use configfs.Store.Directories.{
  create_directory, delete_directory, directory_chain, get_directory_by_id, update_directory,
}
use configfs.Store.Configs.{delete_config, get_config_by_id, upsert}
use configfs.Store.Tree.{tree_for_acl_tags}
use configfs.Api.Server.{
  Server, Code, Handler, call, can_create, internal_code, invalid_argument, not_found,
  already_exists, permission_denied, failed_precondition,
}
use configfs.Api.Gates.{
  Containing, the_root, existing_directory, no_directory, is_root, path_readable,
  containing_directory, directory_writable, deepest_existing_ancestor,
}

-- A result that must be there.
unfoldable pub require_some : {A : Type 0} → Option A → Handler A
require_some none = raise not_found
require_some (some a) = pure a

-- Refuses unless the test holds.
abbrev pub unless : Bool → Code → Handler (Unit {0})
unless ok code = if ok then pure tt else raise code

abbrev pub first_of : Option Tree → Option Tree → Option Tree
first_of (some t) other = some t
first_of none other = other

abbrev pub tree_id : Tree → Text
tree_id (node d ts cs) = d.id

-- findDirectory
unfoldable mutual
  pub find_directory : Text → Tree → Option Tree
  find_directory id (node d ts cs) = find_among id ts

  pub find_among : Text → Trees → Option Tree
  find_among id no_trees = none
  find_among id (tree_cons t ts) =
      let below = find_directory id t in
      let others = find_among id ts in
      if text_eq (tree_id t) id then some t else first_of below others

-- List
unfoldable pub list_rpc : List Text → Text → Handler (Option Tree)
list_rpc tags directory_id =
    if text_eq directory_id []
    then (do tree ← call internal_code (tree_for_acl_tags tags []); pure (some tree))
    else (do
      found ← call internal_code (get_directory_by_id directory_id)
      directory ← require_some found
      tree ← call internal_code (tree_for_acl_tags tags (full_path directory))
      pure (find_directory directory.id tree))

abbrev pub version_or_empty : Option Text → Text
version_or_empty none = []
version_or_empty (some v) = v

-- GetConfig
unfoldable pub get_config_rpc : List Text → Text → Option Text → Handler Config
get_config_rpc tags id version = if text_eq id [] then raise invalid_argument else do
  found ← call internal_code (get_config_by_id id true (version_or_empty version))
  conf ← require_some found
  unless (config_allows tags acl_read conf.acls) permission_denied
  readable ← call internal_code (path_readable conf.path tags)
  unless readable permission_denied
  pure conf

-- the gate of SetConfig on an update, and on a create
unfoldable pub write_gate : Server → List Text → Config → Handler (Unit {0})
write_gate s tags conf =
    if not (text_eq conf.id [])
    then (do
      found ← call internal_code (get_config_by_id conf.id false [])
      existing ← require_some found
      unless (config_allows tags acl_write existing.acls) permission_denied)
    else unless (can_create s tags) permission_denied

unfoldable pub containing_gate : List Text → Containing → Handler (Unit {0})
containing_gate tags no_directory = raise failed_precondition
containing_gate tags the_root = unless (allows_or_nil tags acl_write none) permission_denied
containing_gate tags (existing_directory d) =
    unless (allows_or_nil tags acl_write (some d)) permission_denied

-- SetConfig
unfoldable pub set_config_rpc : Server → List Text → Option Config → Handler (Option Config)
set_config_rpc s tags none = raise invalid_argument
set_config_rpc s tags (some conf) = do
  write_gate s tags conf
  containing ← call internal_code (containing_directory conf.path)
  containing_gate tags containing
  call internal_code (upsert conf)

-- DeleteConfig
unfoldable pub delete_config_rpc : List Text → Text → Handler (Unit {0})
delete_config_rpc tags id = if text_eq id [] then raise invalid_argument else do
  found ← call internal_code (get_config_by_id id false [])
  existing ← require_some found
  unless (config_allows tags acl_write existing.acls) permission_denied
  call internal_code (delete_config id)

-- The gate of CreateDirectory on the deepest ancestor that exists.
unfoldable pub ancestor_gate : List Text → Text → Handler (Unit {0})
ancestor_gate tags parent = if is_root parent then pure tt else do
  found ← call internal_code (directory_chain parent)
  unless (allows_or_nil tags acl_write (deepest_existing_ancestor found.0)) permission_denied

abbrev pub create_code : Error → Code
create_code (directory_exists _) = already_exists
create_code e = internal_code e

-- CreateDirectory
unfoldable pub create_directory_rpc :
    Server → List Text → Option Directory → Handler (Option Directory)
create_directory_rpc s tags none = raise invalid_argument
create_directory_rpc s tags (some dir) =
    if text_eq (trim_space dir.name) [] then raise invalid_argument else do
      unless (can_create s tags) permission_denied
      ancestor_gate tags dir.path
      call create_code (create_directory dir)

-- GetDirectory
unfoldable pub get_directory_rpc : List Text → Text → Handler Directory
get_directory_rpc tags id = if text_eq id [] then raise invalid_argument else do
  found ← call internal_code (get_directory_by_id id)
  dir ← require_some found
  readable ← call internal_code (path_readable (full_path dir) tags)
  unless readable permission_denied
  pure dir

abbrev pub update_code : Error → Code
update_code (name_mismatch _) = invalid_argument
update_code (path_mismatch _) = invalid_argument
update_code e = internal_code e

unfoldable pub update_directory_with_id : List Text → Directory → Handler (Option Directory)
update_directory_with_id tags dir = if text_eq dir.id [] then raise invalid_argument else do
  found ← call internal_code (get_directory_by_id dir.id)
  existing ← require_some found
  writable ← call internal_code (directory_writable existing tags)
  unless writable permission_denied
  call update_code (update_directory dir)

-- UpdateDirectory
unfoldable pub update_directory_rpc : List Text → Option Directory → Handler (Option Directory)
update_directory_rpc tags none = raise invalid_argument
update_directory_rpc tags (some dir) = update_directory_with_id tags dir

abbrev pub delete_code : Error → Code
delete_code (has_subdirectories _) = failed_precondition
delete_code (has_configs _) = failed_precondition
delete_code e = internal_code e

-- DeleteDirectory
unfoldable pub delete_directory_rpc : List Text → Text → Handler (Unit {0})
delete_directory_rpc tags id = if text_eq id [] then raise invalid_argument else do
  found ← call internal_code (get_directory_by_id id)
  existing ← require_some found
  writable ← call internal_code (directory_writable existing tags)
  unless writable permission_denied
  call delete_code (delete_directory id)
