-- ===== src/Fs/Nodes/Changing.antt =====
-- About Dir.Remove of internal/fs/fs.go, with the requests it makes of the server's own handlers.
use configfs.Prelude.{
  ◌≡◌, refl, sym, ap, ◌∙◌, ◌⊎◌, Bool, true, false, List, ◌∷◌, ◌++◌, Option, some,
}
use configfs.Strings.{Text, slash}
use configfs.Proto.{Config, Tree}
use configfs.Exec.{Result, ok, Exec, ◌>>=◌}
use configfs.Exec.Ensures.{bind_rest}
use configfs.Store.Db.{Db, World}
use configfs.Store.Directories.Deletion.{IsRemoved}
use configfs.Api.Server.{Server, Code}
use configfs.Api.Handlers.{tree_id}
use configfs.Api.Handlers.Writing.{IsWritable, IsDeleted}
use configfs.Api.Handlers.Changing.{IsModifiable}
use configfs.Client.{served}
use configfs.Fs.Index.{get_value, directories_of}
use configfs.Fs.Snapshot.{Mount, FsOp, FsError, request, directory, refresh_snapshot, child_named}
use configfs.Fs.Snapshot.Requests.{request_ok}
use configfs.Fs.Nodes.Writing.{reload_keeps}

-- A chain that begins with a request has had its answer, and goes on from there.
answered_chain :
    {A B : Type 0} (q : Exec World Code A) (k : A → FsOp World B) (m : Mount World) (b : B)
    → ((request q >>= k) m).0 ≡ ok b
    → (a : A) × ((q m.remote).0 ≡ ok a)
      × ((request q >>= k) m ≡ k a (record m { remote = (q m.remote).1 }))
      × ((k a (record m { remote = (q m.remote).1 })).0 ≡ ok b)
answered_chain q k m b e =
    let (a, p, same, rest) = bind_rest (request q) k m b e in
    let (ran, after) = request_ok q m a p in
    (a, ran, same ∙ ap (k a) after, ap (λ (x : Mount World). (k a x).0) (sym after) ∙ rest)

pub find_directory :
    {B : Type 0} (path : Text) (f : Option Tree → FsOp World B) (m : Mount World)
    → (directory path >>= f) m ≡ f (get_value path m.snapshot.index.path_directory) m
unfolding ◌>>=◌ directory
find_directory path f m = refl

module _ (s : Server) (tags : List Text) where
  -- What the removal of a file has done.
  abbrev pub Unlinked : Text → Mount World → Db → Type 0
  Unlinked path m db' =
      (c : Config) × (get_value path m.snapshot.index.full_path_config ≡ some c)
      × IsWritable tags c.id m.remote.db
      × ((db' ≡ m.remote.db) ⊎ IsDeleted c.id m.remote.db db')

  -- What the removal of a directory has done: the one that the mount shows in the parent under the
  -- name is the one that is gone.
  abbrev pub RemovedIn : Text → Text → Mount World → Db → Type 0
  RemovedIn path name m db' =
      (parent : Tree) × (target : Tree) × (get_value path m.snapshot.index.path_directory
        ≡ some parent)
      × (child_named name (directories_of parent) ≡ some target)
      × IsModifiable tags (tree_id target) m.remote.db
      × ((db' ≡ m.remote.db) ⊎ IsRemoved (tree_id target) m.remote.db db')

  abbrev pub RemovedBy : Text → Bool → Text → Mount World → Db → Type 0
  RemovedBy path true name m db' = RemovedIn path name m db'
  RemovedBy path false name m db' = Unlinked (path ++ slash ∷ name) m db'

  -- After a request whose answer is kept, the tables are those that the request has left.
  pub kept_after :
      {A B : Type 0} (q : Exec World Code A) (h : A → FsOp World B) (m : Mount World) (b : B)
      → ((a : A) (n : Mount World) → (h a n).1.remote ≡ n.remote)
      → ((request q >>= λ a. (refresh_snapshot (served s tags) >>= λ _. h a)) m).0 ≡ ok b
      → (a : A) × ((q m.remote).0 ≡ ok a)
        × (((request q >>= λ a. (refresh_snapshot (served s tags) >>= λ _. h a)) m).1.remote.db
            ≡ (q m.remote).1.db)
  kept_after q h m b still e =
      let reload : FsOp World (Unit {0}) = refresh_snapshot (served s tags) in
      let (a, ran, next, rest) = answered_chain q (λ a. reload >>= λ _. h a) m b e in
      let m1 = record m { remote = (q m.remote).1 } in
      let (_, _, same, _) = bind_rest reload (λ _. h a) m1 b rest in
      (
        a,
        ran,
        ap (λ (o : Result FsError _ × Mount World). o.1.remote.db) (next ∙ same)
            ∙ ap (λ (w : World). w.db) (still a (reload m1).1)
            ∙ reload_keeps s tags m1,
      )
