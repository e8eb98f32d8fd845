-- ===== src/Pulumi/Directories.antt =====
-- The resource of a directory: DirectoryResource of cmd/pulumi/main.go.
pub mod Requests
use configfs.Prelude.{Bool, not, List, [], ◌++◌, Option, none, some, if◌then◌else◌}
use configfs.Strings.{Text, codes, text_eq}
use configfs.Proto.{Directory}
use configfs.Exec.{Exec, pure, raise, ◌>>=◌, ◌>>◌}
use configfs.Client.{Client}
use configfs.Pulumi.Acls.{AclEntry, acls_to_proto, acls_from_proto, acls_equal, validate_acls}
use configfs.Pulumi.Resource.{
  ProviderError, invalid_acl_level, update, update_replace, DetailedDiff, difference, config_client,
  wrapped, unless_missing,
}

pub record DirectoryArgs : Type 0 where
  pub name : Text
  pub path : Text
  pub acls : List AclEntry

pub record DirectoryState : Type 0 where
  pub name : Text
  pub path : Text
  pub acls : List AclEntry

-- directoryFromArgs
unfoldable pub directory_from_args : Text → DirectoryArgs → Directory
directory_from_args id a = record {
  id = id;
  name = a.name;
  path = a.path;
  acls = acls_to_proto a.acls;
}

-- directoryStateFromArgs
unfoldable pub directory_state_from_args : DirectoryArgs → DirectoryState
directory_state_from_args a = record { name = a.name; path = a.path; acls = a.acls }

-- the arguments that Read makes of a directory
unfoldable pub args_from_directory : Directory → DirectoryArgs
args_from_directory d = record { name = d.name; path = d.path; acls = acls_from_proto d.acls }

abbrev pub directory_id_or_empty : Option Directory → Text
directory_id_or_empty none = []
directory_id_or_empty (some d) = d.id

-- what Read makes of the response
unfoldable pub directory_read_as : Option Directory → Option (DirectoryArgs × DirectoryState)
directory_read_as none = none
directory_read_as (some dir) =
    let args = args_from_directory dir in some (args, directory_state_from_args args)

-- DirectoryResource.Diff
unfoldable pub diff_directory : DirectoryArgs → DirectoryState → DetailedDiff
diff_directory inputs state =
    difference (not (text_eq inputs.name state.name)) (codes "name") update_replace
    ++ difference (not (text_eq inputs.path state.path)) (codes "path") update_replace
    ++ difference (not (acls_equal inputs.acls state.acls)) (codes "acls") update

module _ {R : Type 0} (client : Option (Client R)) where
  -- DirectoryResource.Create: the id, and the state
  unfoldable pub create_directory_resource :
      Bool → DirectoryArgs → Exec R ProviderError (Text × DirectoryState)
  create_directory_resource dry_run inputs =
      if not (validate_acls inputs.acls)
      then raise invalid_acl_level
      else if dry_run
      then pure ([], directory_state_from_args inputs)
      else do
        c ← config_client client
        resp ← wrapped (c.create_directory (some (directory_from_args [] inputs)))
        pure (directory_id_or_empty resp, directory_state_from_args inputs)

  -- DirectoryResource.Read; `none` where the directory is gone
  unfoldable pub read_directory :
      Text → Exec R ProviderError (Option (DirectoryArgs × DirectoryState))
  read_directory id = do
    c ← config_client client
    resp ← unless_missing (c.get_directory id)
    pure (directory_read_as resp)

  -- DirectoryResource.Update
  unfoldable pub update_directory_resource :
      Bool → Text → DirectoryArgs → Exec R ProviderError DirectoryState
  update_directory_resource dry_run id inputs =
      if not (validate_acls inputs.acls)
      then raise invalid_acl_level
      else if dry_run
      then pure (directory_state_from_args inputs)
      else do
        c ← config_client client
        wrapped (c.update_directory (some (directory_from_args id inputs)))
        pure (directory_state_from_args inputs)

  -- DirectoryResource.Delete
  unfoldable pub delete_directory_resource : Text → Exec R ProviderError (Unit {0})
  delete_directory_resource id = do
    c ← config_client client
    unless_missing (c.delete_directory id)
    pure tt
