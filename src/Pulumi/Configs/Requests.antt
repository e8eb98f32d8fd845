-- ===== src/Pulumi/Configs/Requests.antt =====
-- What ConfigResource of cmd/pulumi/main.go has done to the tables, over the server's own handlers.
use configfs.Prelude.{
  ◌≡◌, ◌≢◌, refl, ap, ◌⊎◌, inl, inr, arith, Bool, true, false, not, List, [], Option, none, some,
  if◌then◌else◌,
}
use configfs.Strings.{Text}
use configfs.Strings.Decimal.{parse_int}
use configfs.Proto.{Config}
use configfs.Exec.{Result, ok, err, Exec, pure, raise, ◌>>=◌}
use configfs.Exec.Ensures.{bind_rest}
use configfs.Store.Db.{World}
use configfs.Store.Atomic.{Lost}
use configfs.Store.Configs.Upsert.{UpsertEffect}
use configfs.Api.Server.{Server, Code, not_found, can_create}
use configfs.Api.Handlers.{set_config_rpc, delete_config_rpc}
use configfs.Api.Handlers.Writing.{
  MayStore, MayWriteInto, IsWritable, IsDeleted, set_config_rpc_safe, delete_config_rpc_safe,
}
use configfs.Api.Service.Safety.{delete_config_rpc-IsSafe}
use configfs.Client.{served}
use configfs.Fs.Snapshot.{id_or_empty}
use configfs.Pulumi.Acls.{validate_acls}
use configfs.Pulumi.Resource.{
  ProviderError, invalid_acl_level, refused_unless, none_if_missing, config_client, wrapped,
  unless_missing,
}
use configfs.Pulumi.Configs.{
  ConfigArgs, ConfigState, config_from_args, state_from_args, create_config, update_config_resource,
  delete_config_resource,
}

not_ok : {A : Type 0} (e : ProviderError) (a : A) → err e ≢ ok a
not_ok e a h = cc

module _ {A : Type 0} where
  pub refused_ok : (r : Result Code A) (a : A) → refused_unless r ≡ ok a → r ≡ ok a
  refused_ok (ok a) b h = ground arith
  refused_ok (err e) b h = cc

  pub missing_ok :
      (r : Result Code A) (o : Option A)
      → none_if_missing r ≡ ok o
      → ((a : A) × (r ≡ ok a)) ⊎ (r ≡ err not_found)
  missing_ok (ok a) o h = inl (a, refl)
  missing_ok (err not_found) o h = inr refl
  missing_ok (err e) o h = absurd (not_ok _ o h)

pub returned : {A : Type 0} (a b : A) (r : Result ProviderError A) → r ≡ ok a → r ≡ ok b → b ≡ a
returned a b r g h = cc

-- A dry run, or a list that is not accepted, ends before any request.
pub checked_ok :
    {A : Type 0} (valid dry_run : Bool) (a b : A) (m : Exec World ProviderError A) (w : World)
    → dry_run ≡ false
    → ((if not valid then raise invalid_acl_level else if dry_run then pure a else m) w).0 ≡ ok b
    → (valid ≡ true)
      × ((if not valid then raise invalid_acl_level else if dry_run then pure a else m) w ≡ m w)
checked_ok true false a b m w real h = (refl, refl)
checked_ok false dry_run a b m w real h = cc
checked_ok true true a b m w real h = cc

none-ne-some : {A : Type 0} (a : A) → none ≢ some a
none-ne-some a h = cc

module _ (s : Server) (tags : List Text) where
  -- What an accepted resource has done, under the id given.
  abbrev pub Stored : Config → World → World → Type 0
  Stored c w w' =
      MayStore s tags c.id w.db
      × MayWriteInto tags c.path w.db
      × (Lost w w' ⊎ UpsertEffect c w.now w.db w'.db)

  abbrev sends : {A : Type 0} → Config → (Option Config → A) → Exec World ProviderError A
  sends c f = config_client (some (served s tags)) >>= λ d.
      wrapped (d.set_config (some c)) >>= λ r. pure (f r)

  set_through :
      {A : Type 0} (c : Config) (f : Option Config → A) (w : World) (a : A)
      → (sends c f w).0 ≡ ok a
      → ((r : Option Config) × ((set_config_rpc s tags (some c) w).0 ≡ ok r) × (a ≡ f r))
        × Stored c w (sends c f w).1
  unfolding config_client wrapped ◌>>=◌
  set_through c f w a h =
      let m = wrapped (set_config_rpc s tags (some c)) in
      let (r, p, q, e) = bind_rest m (λ r. pure (f r)) w a h in
      let ran = refused_ok (set_config_rpc s tags (some c) w).0 r p in
      ((r, ran, returned (f r) a (ok (f r)) refl e), (rw q (set_config_rpc_safe s tags c w r ran)))

  -- No stored config has the empty id.
  creates : (id : Text) (w : World) → id ≡ [] → MayStore s tags id w.db → can_create s tags ≡ true
  unfolding parse_int IsWritable
  creates id w empty (MayStore.may_change (row, m, p, g)) =
      absurd (none-ne-some row.id (rw empty at p))
  creates id w empty (MayStore.may_create e allowed) = allowed

  -- Over the server's own handlers, and whatever statements fail: where Create returns, and it is
  -- no dry run, the access list was acceptable; the caller is on the allow-list of creations, or
  -- there is none, and may write into the directory; the id is the one of the server's response and
  -- the state holds the arguments; and the tables are those after the upsert of exactly these
  -- arguments as a new config, or a statement of the run has
  -- failed, as a commit can without an error, and no table has changed.
  pub create_config_safe :
      (args : ConfigArgs) (w : World) (id : Text) (st : ConfigState)
      → (create_config (some (served s tags)) false args w).0 ≡ ok (id, st)
      → (validate_acls args.acls ≡ true)
        × (can_create s tags ≡ true)
        × ((r : Option Config) × ((set_config_rpc s tags (some (config_from_args [] args)) w).0
              ≡ ok r)
            × (id ≡ id_or_empty r))
        × (st ≡ state_from_args args)
        × Stored (config_from_args [] args) w (create_config (some (served s tags)) false args w).1
  unfolding create_config config_from_args
  create_config_safe args w id st h =
      let (valid, same) =
        checked_ok (validate_acls args.acls) false ([], state_from_args args) (id, st)
          (sends (config_from_args [] args) (λ r. (id_or_empty r, state_from_args args))) w refl
          h in
      let ((r, ran, is), done) =
        set_through (config_from_args [] args) (λ r. (id_or_empty r, state_from_args args)) w
          (id, st) (rw same at h) in
      (
        valid,
        creates (config_from_args [] args).id w refl done.0,
        (r, ran, ap (λ (o : Text × ConfigState). o.0) is),
        ap (λ (o : Text × ConfigState). o.1) is,
        (rw same done),
      )

  -- Over the server's own handlers, and whatever statements fail: where Update returns, and it is
  -- no dry run, the access list was acceptable and the state holds the arguments; the caller may
  -- write the stored config with the given id, or, where the id is empty, is on the allow-list of
  -- creations or there is none; the caller may write into the directory; and the tables are those
  -- after the upsert of exactly these arguments under the id, or a statement of the run has
  -- failed, as a commit can without an error, and no table has changed.
  update_config_safe :
      (id : Text) (args : ConfigArgs) (w : World) (st : ConfigState)
      → (update_config_resource (some (served s tags)) false id args w).0 ≡ ok st
      → (validate_acls args.acls ≡ true)
        × (st ≡ state_from_args args)
        × Stored
            (config_from_args id args)
            w
            (update_config_resource (some (served s tags)) false id args w).1
  unfolding update_config_resource
  update_config_safe id args w st h =
      let (valid, same) =
        checked_ok (validate_acls args.acls) false (state_from_args args) st
          (sends (config_from_args id args) (λ _. state_from_args args)) w refl h in
      let ((r, ran, is), done) =
        set_through (config_from_args id args) (λ _. state_from_args args) w st (rw same at h) in
      (valid, is, (rw same done))

  -- Over the server's own handlers, and whatever statements fail: where Delete returns, either the
  -- server had no such config for the caller and no table has changed, or the caller could write the
  -- stored config and exactly it is gone, or a statement of the run has
  -- failed, as a commit can without an error, and no table has changed.
  pub delete_config_resource_safe :
      (id : Text) (w : World)
      → (delete_config_resource (some (served s tags)) id w).0 ≡ ok tt
      → (((delete_config_rpc tags id w).0 ≡ err not_found)
          × ((delete_config_resource (some (served s tags)) id w).1.db ≡ w.db))
        ⊎ (IsWritable tags id w.db
            × (Lost w (delete_config_resource (some (served s tags)) id w).1
                ⊎ IsDeleted id w.db (delete_config_resource (some (served s tags)) id w).1.db))
  unfolding delete_config_resource config_client unless_missing ◌>>=◌
  delete_config_resource_safe id w h =
      let m = unless_missing (delete_config_rpc tags id) in
      let (o, p, q, e) = bind_rest m (λ _. pure tt) w tt h in
      elim (missing_ok (delete_config_rpc tags id w).0 o p) [
        | inl (a, ran) ↦ inr (rw q (delete_config_rpc_safe tags id w ran))
        | inr missing ↦
            inl (missing, (rw q ((delete_config_rpc-IsSafe tags id).undone w not_found missing)))
      ]
