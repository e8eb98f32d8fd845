-- ===== src/Pulumi/Directories/Requests.antt =====
-- What DirectoryResource of cmd/pulumi/main.go has done to the tables, over the server's own
-- handlers.
use configfs.Prelude.{◌≡◌, refl, ◌⊎◌, inl, inr, true, false, List, [], some}
use configfs.Strings.{Text}
use configfs.Proto.{Directory}
use configfs.Exec.{ok, err, Exec, pure, ◌>>=◌}
use configfs.Exec.Ensures.{bind_rest}
use configfs.Store.Db.{World}
use configfs.Store.Atomic.{Lost}
use configfs.Store.Directories.Deletion.{IsRemoved}
use configfs.Store.Directories.Growth.{IsCreated}
use configfs.Store.Directories.Replacement.{IsReplaced}
use configfs.Api.Server.{Server, not_found, can_create}
use configfs.Api.Handlers.{update_directory_rpc, delete_directory_rpc}
use configfs.Api.Handlers.Changing.{IsModifiable, delete_directory_rpc_safe}
use configfs.Api.Handlers.Creating.{MayExtend}
use configfs.Api.Handlers.Updating.{update_directory_rpc_safe}
use configfs.Api.Service.Safety.{delete_directory_rpc-IsSafe}
use configfs.Client.{served}
use configfs.Pulumi.Acls.{validate_acls}
use configfs.Pulumi.Resource.{ProviderError, config_client, wrapped, unless_missing}
use configfs.Pulumi.Configs.Requests.{checked_ok, missing_ok, refused_ok, returned}
use configfs.Pulumi.Directories.{
  DirectoryArgs, DirectoryState, directory_from_args, directory_state_from_args,
  directory_id_or_empty, update_directory_resource, delete_directory_resource,
}

module _ (s : Server) (tags : List Text) where
  -- What an accepted directory has done: its missing directories are created.
  abbrev pub Extends : Directory → World → World → Type 0
  Extends dir w w' =
      (can_create s tags ≡ true)
      × MayExtend tags dir.path w.db
      × (Lost w w' ⊎ IsCreated dir w.db w'.db)

  abbrev creation : DirectoryArgs → Exec World ProviderError (Text × DirectoryState)
  creation args = config_client (some (served s tags)) >>= λ c.
      wrapped (c.create_directory (some (directory_from_args [] args))) >>= λ resp.
      pure (directory_id_or_empty resp, directory_state_from_args args)

  -- Over the server's own handlers, and whatever statements fail: where Update of a directory
  -- returns, and it is no dry run, the access list was acceptable and the state holds the arguments;
  -- the caller could write the stored directory with the given id; and exactly its entries are
  -- replaced, or a statement of the run has
  -- failed, as a commit can without an error, and no table has changed.
  update_directory_resource_safe :
      (id : Text) (args : DirectoryArgs) (w : World) (st : DirectoryState)
      → (update_directory_resource (some (served s tags)) false id args w).0 ≡ ok st
      → (validate_acls args.acls ≡ true)
        × (st ≡ directory_state_from_args args)
        × IsModifiable tags id w.db
        × (Lost w (update_directory_resource (some (served s tags)) false id args w).1
            ⊎ IsReplaced
                (directory_from_args id args)
                w.db
                (update_directory_resource (some (served s tags)) false id args w).1.db)
  unfolding update_directory_resource directory_from_args config_client wrapped ◌>>=◌
  update_directory_resource_safe id args w st h =
      let dir = directory_from_args id args in
      let m = wrapped (update_directory_rpc tags (some dir)) in
      let (valid, same) =
        checked_ok (validate_acls args.acls) false (directory_state_from_args args) st
          (m >>= λ _. pure (directory_state_from_args args)) w refl h in
      let (r, p, q, e) =
        bind_rest m (λ _. pure (directory_state_from_args args)) w st (rw same at h) in
      let ran = refused_ok (update_directory_rpc tags (some dir) w).0 r p in
      let (may, done) = update_directory_rpc_safe tags dir w r ran in
      (
        valid,
        returned (directory_state_from_args args) st (ok (directory_state_from_args args)) refl e,
        may,
        (rw (same, q) done),
      )

  -- Over the server's own handlers, and whatever statements fail: where Delete of a directory
  -- returns, either the server had no such directory and no table has changed, or the caller could
  -- write the stored directory and exactly its rows are gone, or a statement of the run has
  -- failed, as a commit can without an error, and no table has changed.
  delete_directory_resource_safe :
      (id : Text) (w : World)
      → (delete_directory_resource (some (served s tags)) id w).0 ≡ ok tt
      → (((delete_directory_rpc tags id w).0 ≡ err not_found)
          × ((delete_directory_resource (some (served s tags)) id w).1.db ≡ w.db))
        ⊎ (IsModifiable tags id w.db
            × (Lost w (delete_directory_resource (some (served s tags)) id w).1
                ⊎ IsRemoved id w.db (delete_directory_resource (some (served s tags)) id w).1.db))
  unfolding delete_directory_resource config_client unless_missing ◌>>=◌
  delete_directory_resource_safe id w h =
      let m = unless_missing (delete_directory_rpc tags id) in
      let (o, p, q, e) = bind_rest m (λ _. pure tt) w tt h in
      elim (missing_ok (delete_directory_rpc tags id w).0 o p) [
        | inl (a, ran) ↦ inr (rw q (delete_directory_rpc_safe tags id w ran))
        | inr missing ↦
            inl (missing, (rw q ((delete_directory_rpc-IsSafe tags id).undone w not_found missing)))
      ]
