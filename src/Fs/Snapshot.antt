-- ===== src/Fs/Snapshot.antt =====
-- The snapshot of the tree that a mount serves, and the requests that change the server and load
-- the tree again (FilesystemSnapshot of internal/fs/fs.go). `R` is the state of the client's side.
pub mod Refresh
pub mod Requests
use configfs.Prelude.{
  ℕ, zero, suc, Bool, true, false, List, [], ◌∷◌, Option, none, some, find, if◌then◌else◌,
}
use configfs.Strings.{Text, text_eq}
use configfs.Proto.{ConfigAcl, Config, Directory, Tree, Trees, node, no_trees, tree_cons}
use configfs.Exec.{Result, ok, err, Exec, pure, raise, ◌>>=◌, ◌>>◌}
use configfs.Api.Server.{Code}
use configfs.Api.Handlers.{tree_id}
use configfs.Client.{Client}
use configfs.Fs.Index.{
  TextMap, get_value, Index, empty_index, top_of, configs_of, directories_of, directory_map,
}

-- syscall.ENOENT, or the error of a request
pub data FsError : Type 0 where
  no_entry : FsError
  request_failed : Code → FsError

pub record Snapshot : Type 0 where
  pub directory : Option Tree
  pub index : Index

abbrev pub empty_snapshot : Snapshot
empty_snapshot = record { directory = none; index = empty_index }

-- RemoteConfigFS: its snapshot, `none` before LoadSnapshot, whether the last load failed, the
-- times of the reads in this session and the clock; and the other side.
pub record Mount (R : Type 0) : Type 0 where
  pub snapshot : Snapshot
  pub refresh_failing : Bool
  pub times : TextMap ℕ
  pub clock : ℕ
  pub remote : R

abbrev pub FsOp : Type 0 → Type 0 → Type 0
FsOp R A = Exec (Mount R) FsError A

-- The maps of a loaded tree. A nil tree leaves the maps without an entry that is not nil.
unfoldable pub snapshot_of : Option Tree → Snapshot
snapshot_of none = empty_snapshot
snapshot_of (some t) = record { directory = some t; index = directory_map t empty_index }

-- The getters of a message that may be nil.
abbrev pub id_or_empty : Option Config → Text
id_or_empty none = []
id_or_empty (some c) = c.id

abbrev pub subdirectories : Option Tree → Trees
subdirectories none = no_trees
subdirectories (some t) = directories_of t

abbrev pub configs_within : Option Tree → List Config
configs_within none = []
configs_within (some t) = configs_of t

-- the loop over parent.GetDirectories()
unfoldable pub child_named : Text → Trees → Option Tree
child_named name no_trees = none
child_named name (tree_cons t ts) =
    let rest = child_named name ts in if text_eq (top_of t).name name then some t else rest

abbrev pub answer : {A : Type 0} → Result Code A → Result FsError A
answer (ok a) = ok a
answer (err e) = err (request_failed e)

module _ {R : Type 0} where
  -- A request, on the other side's state.
  unfoldable pub request : {A : Type 0} → Exec R Code A → FsOp R A
  request m s = let (r, w) = m s.remote in (answer r, record s { remote = w })

  unfoldable pub install : Option Tree → FsOp R (Unit {0})
  install top s = (ok tt, record s { snapshot = snapshot_of top })

  -- Directory, Config, ConfigByPath
  unfoldable pub directory : Text → FsOp R (Option Tree)
  directory path s = (ok (get_value path s.snapshot.index.path_directory), s)

  unfoldable pub config : Text → FsOp R (Option Config)
  config id s = (ok (get_value id s.snapshot.index.id_config), s)

  unfoldable pub config_by_path : Text → FsOp R (Option Config)
  config_by_path path s = (ok (get_value path s.snapshot.index.full_path_config), s)

  -- ENOENT where there is nothing
  unfoldable pub entry : {A : Type 0} → Option A → FsOp R A
  entry none = raise no_entry
  entry (some a) = pure a

  module _ (client : Client R) where
    -- Refresh
    unfoldable pub refresh_snapshot : FsOp R (Unit {0})
    refresh_snapshot = do top ← request (client.list []); install top

    -- FullConfig
    unfoldable pub full_config : Option Config → FsOp R Config
    full_config c = request (client.get_config (id_or_empty c) none)

    -- Remove
    unfoldable pub remove : Text → FsOp R (Unit {0})
    remove path = do
      found ← config_by_path path
      conf ← entry found
      request (client.delete_config conf.id)
      refresh_snapshot

    -- Create
    unfoldable pub create : Config → FsOp R (Option Config)
    create c = do
      created ← request (client.set_config (some c))
      refresh_snapshot
      config (id_or_empty created)

    -- Mkdir
    unfoldable pub mkdir : Text → Text → List ConfigAcl → FsOp R (Option Directory)
    mkdir parent name acls = do
      created ← request (
          client.create_directory
            (some (record { id = []; name = name; path = parent; acls = acls })))
      refresh_snapshot
      pure created

    -- Rmdir
    unfoldable pub rmdir : Text → Text → FsOp R (Unit {0})
    rmdir parent_path name = do
      found ← directory parent_path
      parent ← entry found
      target ← entry (child_named name (directories_of parent))
      request (client.delete_directory (tree_id target))
      refresh_snapshot

    -- Write, with the handler `h` on the config
    unfoldable pub write : Option Config → (Config → Config) → FsOp R (Unit {0})
    write c h = do
      full ← full_config c
      request (client.set_config (some (h full)))
      refresh_snapshot

    -- RemoteConfigFS.refresh, which notes whether the load failed and returns nothing
    unfoldable pub refresh : Mount R → Mount R
    refresh s =
        let (r, s') = refresh_snapshot s in
        record s' { refresh_failing = elim r [ ok _ ↦ false | err _ ↦ true ] }

    -- LoadSnapshot
    unfoldable pub load_snapshot : Mount R → Mount R
    load_snapshot s = refresh (record s { snapshot = empty_snapshot })

    -- the rounds of backgroundLoop, whose snapshot is there since LoadSnapshot
    unfoldable pub ticks : ℕ → Mount R → Mount R
    ticks zero s = s
    ticks (suc n) s = ticks n (refresh s)
