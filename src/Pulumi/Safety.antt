-- ===== src/Pulumi/Safety.antt =====
-- The resources of cmd/pulumi/main.go over the server's own handlers: an operation that fails has
-- changed no table.
use configfs.Prelude.{◌≡◌, refl, Bool, not, List, [], none, some, if◌then◌else◌}
use configfs.Strings.{Text}
use configfs.Exec.{Result, ok, err, Exec, pure, raise, ◌>>=◌}
use configfs.Store.Db.{World}
use configfs.Store.Db.Reads.{IsRead-pure, IsRead-raise}
use configfs.Api.Server.{Server, Code}
use configfs.Api.Service.Calculus.{IsSafe, IsSafe-IsRead, IsSafe-if, IsSafe-map}
use configfs.Api.Service.Gates.{get_config_rpc-IsRead, get_directory_rpc-IsRead}
use configfs.Api.Service.Safety.{
  set_config_rpc-IsSafe, delete_config_rpc-IsSafe, create_directory_rpc-IsSafe,
  update_directory_rpc-IsSafe, delete_directory_rpc-IsSafe,
}
use configfs.Client.{Client, served}
use configfs.Pulumi.Acls.{validate_acls}
use configfs.Pulumi.Resource.{
  ProviderError, invalid_acl_level, refused_unless, none_if_missing, config_client, wrapped,
  unless_missing,
}
use configfs.Pulumi.Configs.{
  ConfigArgs, config_from_args, read_as, create_config, read_config, update_config_resource,
  delete_config_resource,
}
use configfs.Pulumi.Directories.{
  DirectoryArgs, directory_read_as, create_directory_resource, read_directory,
  update_directory_resource, delete_directory_resource,
}

module _ {A : Type 0} where
  refused_err :
      (r : Result Code A) (e : ProviderError)
      → refused_unless r ≡ err e
      → (code : Code) × (r ≡ err code)
  refused_err (ok a) e h = cc
  refused_err (err c) e h = (c, refl)

  missing_err :
      (r : Result Code A) (e : ProviderError)
      → none_if_missing r ≡ err e
      → (code : Code) × (r ≡ err code)
  missing_err (ok a) e h = cc
  missing_err (err c) e h = (c, refl)

  IsSafe-wrapped : (m : Exec World Code A) → IsSafe m → IsSafe (wrapped m)
  unfolding wrapped
  IsSafe-wrapped m s = record {
    undone = λ w e h. let (c, p) = refused_err (m w).0 e h in s.undone w c p;
    consistent = s.consistent;
  }

  IsSafe-unless_missing : (m : Exec World Code A) → IsSafe m → IsSafe (unless_missing m)
  unfolding unless_missing
  IsSafe-unless_missing m s = record {
    undone = λ w e h. let (c, p) = missing_err (m w).0 e h in s.undone w c p;
    consistent = s.consistent;
  }

module _ {A : Type 0} where
  -- a call with the configured client, and then a result
  IsSafe-configured :
      {B : Type 0} (d : Client World) (m : Client World → Exec World ProviderError A) (f : A → B)
      → IsSafe (m d)
      → IsSafe (config_client (some d) >>= λ c. m c >>= λ a. pure (f a))
  unfolding config_client ◌>>=◌
  IsSafe-configured d m f s =
      let mapped = IsSafe-map (m d) f s in
      record { undone = mapped.undone; consistent = mapped.consistent }

  -- the checks before a call
  IsSafe-checked :
      (valid dry_run : Bool) (a : A) (m : Exec World ProviderError A)
      → IsSafe m
      → IsSafe (if not valid then raise invalid_acl_level else if dry_run then pure a else m)
  IsSafe-checked valid dry_run a m s =
      IsSafe-if (not valid) (raise invalid_acl_level) _ (IsSafe-IsRead _ (IsRead-raise _))
        (IsSafe-if dry_run (pure a) m (IsSafe-IsRead _ (IsRead-pure a)) s)

module _ (s : Server) (tags : List Text) (dry_run : Bool) (id : Text) where
  config_resource-IsSafe :
      (c : ConfigArgs)
      → IsSafe (create_config (some (served s tags)) dry_run c)
        × IsSafe (read_config (some (served s tags)) id)
        × IsSafe (update_config_resource (some (served s tags)) dry_run id c)
        × IsSafe (delete_config_resource (some (served s tags)) id)
  unfolding create_config read_config update_config_resource delete_config_resource
  config_resource-IsSafe c =
      let set = λ (n : Text).
        IsSafe-wrapped _ (set_config_rpc-IsSafe s tags (some (config_from_args n c))) in
      (
        IsSafe-checked (validate_acls c.acls) dry_run _ _ (IsSafe-configured _ _ _ (set [])),
        IsSafe-configured _ _ read_as
            (IsSafe-unless_missing _ (IsSafe-IsRead _ (get_config_rpc-IsRead tags id none))),
        IsSafe-checked (validate_acls c.acls) dry_run _ _ (IsSafe-configured _ _ _ (set id)),
        IsSafe-configured _ _ _ (IsSafe-unless_missing _ (delete_config_rpc-IsSafe tags id)),
      )

  directory_resource-IsSafe :
      (d : DirectoryArgs)
      → IsSafe (create_directory_resource (some (served s tags)) dry_run d)
        × IsSafe (read_directory (some (served s tags)) id)
        × IsSafe (update_directory_resource (some (served s tags)) dry_run id d)
        × IsSafe (delete_directory_resource (some (served s tags)) id)
  unfolding create_directory_resource read_directory update_directory_resource
      delete_directory_resource
  directory_resource-IsSafe d = (
    IsSafe-checked (validate_acls d.acls) dry_run _ _
        (IsSafe-configured _ _ _ (IsSafe-wrapped _ (create_directory_rpc-IsSafe s tags _))),
    IsSafe-configured _ _ directory_read_as
        (IsSafe-unless_missing _ (IsSafe-IsRead _ (get_directory_rpc-IsRead tags id))),
    IsSafe-checked (validate_acls d.acls) dry_run _ _
        (IsSafe-configured _ _ _ (IsSafe-wrapped _ (update_directory_rpc-IsSafe tags _))),
    IsSafe-configured _ _ _ (IsSafe-unless_missing _ (delete_directory_rpc-IsSafe tags id)),
  )

  -- Over the server's own handlers, and whatever statements fail: each of the four operations of
  -- a config and of a directory that returns an error has changed no table, and each keeps the
  -- tables of configs consistent.
  pub resources-IsSafe :
      (c : ConfigArgs) (d : DirectoryArgs)
      → (IsSafe (create_config (some (served s tags)) dry_run c)
          × IsSafe (read_config (some (served s tags)) id)
          × IsSafe (update_config_resource (some (served s tags)) dry_run id c)
          × IsSafe (delete_config_resource (some (served s tags)) id))
        × (IsSafe (create_directory_resource (some (served s tags)) dry_run d)
            × IsSafe (read_directory (some (served s tags)) id)
            × IsSafe (update_directory_resource (some (served s tags)) dry_run id d)
            × IsSafe (delete_directory_resource (some (served s tags)) id))
  resources-IsSafe c d = (config_resource-IsSafe c, directory_resource-IsSafe d)
