-- ===== src/Fs/Nodes/Making.antt =====
-- About Dir.Mkdir and Dir.Create of internal/fs/fs.go, with the requests they make of the server's
-- own handlers.
use configfs.Prelude.{◌≡◌, refl, ap, ◌∙◌, ◌⊎◌, true, List, [], Option, some}
use configfs.Strings.{Text}
use configfs.Proto.{Directory, Tree}
use configfs.Exec.{Result, ok, pure, ◌>>=◌}
use configfs.Exec.Ensures.{bind_rest}
use configfs.Store.Db.{World}
use configfs.Store.Atomic.{unchanged_or}
use configfs.Store.Directories.Growth.{IsCreated}
use configfs.Api.Server.{Server, can_create}
use configfs.Api.Handlers.{create_directory_rpc}
use configfs.Api.Handlers.Creating.{MayExtend, create_directory_rpc_safe}
use configfs.Client.{served}
use configfs.Fs.Index.{get_value}
use configfs.Fs.Snapshot.{Mount, FsOp, FsError, directory, mkdir}
use configfs.Fs.Nodes.{Node, dir_node, created_path, acls_or_none, dir_mkdir}
use configfs.Fs.Nodes.Changing.{kept_after, find_directory}

module _ (s : Server) (tags : List Text) where
  abbrev new_directory : Text → Text → Mount World → Directory
  new_directory path name m = record {
    id = [];
    name = name;
    path = path;
    acls = acls_or_none (get_value path m.snapshot.index.path_directory);
  }

  -- Over the server's own handlers, and whatever statements fail: where Mkdir of a directory of the
  -- mount returns, the caller is on the allow-list of creations, or there is none, and may extend the
  -- path; and exactly the missing ones of the new directory and its ancestors are created, with the
  -- entries that the mount has for this directory, or the tables are as they were, as after a
  -- commit that fails.
  dir_mkdir_safe :
      (path name : Text) (m : Mount World) (n : Node)
      → (dir_mkdir (served s tags) path name m).0 ≡ ok n
      → (can_create s tags ≡ true)
        × MayExtend tags path m.remote.db
        × (((dir_mkdir (served s tags) path name m).1.remote.db ≡ m.remote.db)
            ⊎ IsCreated
                (new_directory path name m)
                m.remote.db
                (dir_mkdir (served s tags) path name m).1.remote.db)
  unfolding dir_mkdir mkdir directory
  dir_mkdir_safe path name m n e =
      let dir = new_directory path name m in
      let q = create_directory_rpc s tags (some dir) in
      let f : Option Tree → FsOp World Node = λ t.
        mkdir (served s tags) path name (acls_or_none t) >>= λ c.
        pure (dir_node (created_path c)) in
      let made : FsOp World (Option Directory) = mkdir (served s tags) path name dir.acls in
      let (created, p, same, _) =
        bind_rest made (λ c. pure (dir_node (created_path c))) m n
          (rw (find_directory path f m) at e) in
      let (r, ran, kept) = kept_after s tags q (λ c. pure c) m created (λ a x. refl) p in
      let (listed, may, done) = create_directory_rpc_safe s tags dir m.remote r ran in
      let after =
        ap (λ (o : Result FsError Node × Mount World). o.1.remote.db)
          (find_directory path f m ∙ same)
        ∙ kept in
      (listed, may, rw after (unchanged_or done))
