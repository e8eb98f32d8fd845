-- ===== src/Pulumi/Configs.antt =====
-- The resource of a config: ConfigResource of cmd/pulumi/main.go.
pub mod Diffs
pub mod Requests
use configfs.Prelude.{
  ℕ, Bool, true, false, not, List, [], ◌∷◌, ◌++◌, Option, none, some, length, if◌then◌else◌, ◌==◌,
}
use configfs.Strings.{Text, codes, text_eq}
use configfs.Proto.{Config}
use configfs.Exec.{Exec, pure, raise, ◌>>=◌, ◌>>◌}
use configfs.Client.{Client}
use configfs.Fs.Snapshot.{id_or_empty}
use configfs.Pulumi.Acls.{AclEntry, acls_to_proto, acls_from_proto, acls_equal, validate_acls}
use configfs.Pulumi.Resource.{
  ProviderError, invalid_acl_level, DiffKind, update, update_replace, DetailedDiff, difference,
  config_client, wrapped, unless_missing,
}

-- ConfigArgs; the content as bytes
pub record ConfigArgs : Type 0 where
  pub name : Text
  pub path : Text
  pub content : List ℕ
  pub acls : List AclEntry

pub record ConfigState : Type 0 where
  pub name : Text
  pub path : Text
  pub content : List ℕ
  pub acls : List AclEntry
  pub content_size : ℕ

-- configFromArgs
unfoldable pub config_from_args : Text → ConfigArgs → Config
config_from_args id a = record {
  id = id;
  name = a.name;
  path = a.path;
  content = some a.content;
  content_size = length a.content;
  acls = acls_to_proto a.acls;
  created_at = none;
  updated_at = none;
  current_content_id = [];
}

-- stateFromArgs
unfoldable pub state_from_args : ConfigArgs → ConfigState
state_from_args a = record {
  name = a.name;
  path = a.path;
  content = a.content;
  acls = a.acls;
  content_size = length a.content;
}

abbrev pub content_or_empty : Option (List ℕ) → List ℕ
content_or_empty none = []
content_or_empty (some bytes) = bytes

-- the arguments that Read makes of a config
unfoldable pub args_from_config : Config → ConfigArgs
args_from_config c = record {
  name = c.name;
  path = c.path;
  content = content_or_empty c.content;
  acls = acls_from_proto c.acls;
}

-- what Read makes of the response
unfoldable pub read_as : Option Config → Option (ConfigArgs × ConfigState)
read_as none = none
read_as (some cfg) = let args = args_from_config cfg in some (args, state_from_args args)

-- ConfigResource.Diff
unfoldable pub diff_config : ConfigArgs → ConfigState → DetailedDiff
diff_config inputs state =
    difference (not (text_eq inputs.name state.name)) (codes "name") update_replace
    ++ difference (not (text_eq inputs.path state.path)) (codes "path") update_replace
    ++ difference (not (text_eq inputs.content state.content)) (codes "content") update
    ++ difference (not (acls_equal inputs.acls state.acls)) (codes "acls") update

module _ {R : Type 0} (client : Option (Client R)) where
  -- ConfigResource.Create: the id, and the state
  unfoldable pub create_config : Bool → ConfigArgs → Exec R ProviderError (Text × ConfigState)
  create_config dry_run inputs =
      if not (validate_acls inputs.acls)
      then raise invalid_acl_level
      else if dry_run
      then pure ([], state_from_args inputs)
      else do
        c ← config_client client
        resp ← wrapped (c.set_config (some (config_from_args [] inputs)))
        pure (id_or_empty resp, state_from_args inputs)

  -- ConfigResource.Read; `none` where the config is gone
  unfoldable pub read_config : Text → Exec R ProviderError (Option (ConfigArgs × ConfigState))
  read_config id = do
    c ← config_client client
    resp ← unless_missing (c.get_config id none)
    pure (read_as resp)

  -- ConfigResource.Update
  unfoldable pub update_config_resource :
      Bool → Text → ConfigArgs → Exec R ProviderError ConfigState
  update_config_resource dry_run id inputs =
      if not (validate_acls inputs.acls)
      then raise invalid_acl_level
      else if dry_run
      then pure (state_from_args inputs)
      else do
        c ← config_client client
        wrapped (c.set_config (some (config_from_args id inputs)))
        pure (state_from_args inputs)

  -- ConfigResource.Delete
  unfoldable pub delete_config_resource : Text → Exec R ProviderError (Unit {0})
  delete_config_resource id = do
    c ← config_client client
    unless_missing (c.delete_config id)
    pure tt
