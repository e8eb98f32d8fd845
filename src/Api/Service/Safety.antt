-- ===== src/Api/Service/Safety.antt =====
-- What a refused or failed request leaves behind, and what every request keeps.
use configfs.Prelude.{◌≡◌, refl, false, List, [], Option, none, some}
use configfs.Strings.{Text, text_eq, trim_space}
use configfs.Proto.{Config, Directory, acl_write, config_allows}
use configfs.Exec.{err, raise, ◌>>=◌, ◌>>◌}
use configfs.Store.Db.{World, Error, Op}
use configfs.Store.Db.Reads.{IsRead-raise}
use configfs.Store.Reads.{get_directory_by_id-IsRead, get_config_by_id-IsRead}
use configfs.Store.Directories.{
  get_directory_by_id, create_directory, update_directory, delete_directory,
}
use configfs.Store.Configs.{upsert, delete_config}
use configfs.Store.Configs.Consistent.{IsConsistent}
use configfs.Store.Atomic.{
  upsert_of, delete_of, create_directory_of, update_directory_of, delete_directory_of, run,
  run_atomic,
}
use configfs.Store.Integrity.{run-IsConsistent}
use configfs.Api.Server.{
  Server, Code, call, can_create, internal_code, invalid_argument, permission_denied,
}
use configfs.Api.Gates.{directory_writable}
use configfs.Api.Handlers.{
  require_some, unless, set_config_rpc, delete_config_rpc, create_directory_rpc, update_code,
  update_directory_with_id, update_directory_rpc, delete_code, delete_directory_rpc,
}
use configfs.Api.Service.Calculus.{
  IsSafe, IsSafe-IsRead, IsSafe-bind, IsSafe-if, IsSafe-map, IsSafe-call, IsRead-call,
}
use configfs.Api.Service.Gates.{
  require_some-IsRead, unless-IsRead, directory_writable-IsRead, containing_directory-IsRead,
  get_config_rpc-IsRead, get_directory_rpc-IsRead, list_rpc-IsRead, write_gate-IsRead,
  containing_gate-IsRead, ancestor_gate-IsRead,
}
use configfs.Api.Service.{
  Request, list, get_config, set_config, delete_config_at, create_directory_at, get_directory,
  update_directory_at, delete_directory_at, serve,
}

upsert-IsSafe : (c : Config) → IsSafe (upsert c)
unfolding run
upsert-IsSafe c = record {
  undone = λ w e h. run_atomic (upsert_of c) w e (rw h refl);
  consistent = λ w v. run-IsConsistent (upsert_of c) w v;
}

delete_config-IsSafe : (id : Text) → IsSafe (delete_config id)
unfolding run
delete_config-IsSafe id = record {
  undone = λ w e h. run_atomic (delete_of id) w e (rw h refl);
  consistent = λ w v. run-IsConsistent (delete_of id) w v;
}

create_directory-IsSafe : (d : Directory) → IsSafe (create_directory d)
unfolding run
create_directory-IsSafe d = record {
  undone = λ w e h. run_atomic (create_directory_of d) w e (rw h refl);
  consistent = λ w v. run-IsConsistent (create_directory_of d) w v;
}

update_directory-IsSafe : (d : Directory) → IsSafe (update_directory d)
unfolding run
update_directory-IsSafe d = record {
  undone = λ w e h. run_atomic (update_directory_of d) w e (rw h refl);
  consistent = λ w v. run-IsConsistent (update_directory_of d) w v;
}

delete_directory-IsSafe : (id : Text) → IsSafe (delete_directory id)
unfolding run
delete_directory-IsSafe id = record {
  undone = λ w e h. run_atomic (delete_directory_of id) w e (rw h refl);
  consistent = λ w v. run-IsConsistent (delete_directory_of id) w v;
}

pub set_config_rpc-IsSafe :
    (s : Server) (tags : List Text) (o : Option Config) → IsSafe (set_config_rpc s tags o)
unfolding set_config_rpc
set_config_rpc-IsSafe s tags none = IsSafe-IsRead _ (IsRead-raise _)
set_config_rpc-IsSafe s tags (some c) = IsSafe-bind _ _ (write_gate-IsRead s tags c) (λ _.
    IsSafe-bind _ _ (IsRead-call _ _ (containing_directory-IsRead c.path)) (λ d.
      IsSafe-bind _ _ (containing_gate-IsRead tags d) (λ _. IsSafe-call _ _ (upsert-IsSafe c))))

pub delete_config_rpc-IsSafe : (tags : List Text) (id : Text) → IsSafe (delete_config_rpc tags id)
unfolding delete_config_rpc
delete_config_rpc-IsSafe tags id =
    IsSafe-if (text_eq id []) (raise invalid_argument) _ (IsSafe-IsRead _ (IsRead-raise _)) (
      IsSafe-bind _ _ (IsRead-call _ _ (get_config_by_id-IsRead id false [])) (λ o.
        IsSafe-bind _ _ (require_some-IsRead o) (λ c.
          IsSafe-bind _ _ (unless-IsRead (config_allows tags acl_write c.acls) permission_denied)
            (λ _. IsSafe-call _ _ (delete_config-IsSafe id)))))

pub create_directory_rpc-IsSafe :
    (s : Server) (tags : List Text) (o : Option Directory) → IsSafe (create_directory_rpc s tags o)
unfolding create_directory_rpc
create_directory_rpc-IsSafe s tags none = IsSafe-IsRead _ (IsRead-raise _)
create_directory_rpc-IsSafe s tags (some d) =
    IsSafe-if (text_eq (trim_space d.name) []) (raise invalid_argument) _
      (IsSafe-IsRead _ (IsRead-raise _))
      (IsSafe-bind _ _ (unless-IsRead (can_create s tags) permission_denied) (λ _.
        IsSafe-bind _ _ (ancestor_gate-IsRead tags d.path)
          (λ _. IsSafe-call _ _ (create_directory-IsSafe d))))

module _ {A : Type 0} (tags : List Text) (id : Text) (code : Error → Code) (m : Op A) where
  -- The gate of the handlers that change a directory.
  gated-IsSafe :
      IsSafe m
      → IsSafe (do
        found ← call internal_code (get_directory_by_id id)
        existing ← require_some found
        writable ← call internal_code (directory_writable existing tags)
        unless writable permission_denied
        call code m)
  gated-IsSafe s = IsSafe-bind _ _ (IsRead-call _ _ (get_directory_by_id-IsRead id)) (λ o.
      IsSafe-bind _ _ (require_some-IsRead o) (λ d.
        IsSafe-bind _ _ (IsRead-call _ _ (directory_writable-IsRead d tags))
          (λ b. IsSafe-bind _ _ (unless-IsRead b permission_denied) (λ _. IsSafe-call _ _ s))))

pub update_directory_rpc-IsSafe :
    (tags : List Text) (o : Option Directory) → IsSafe (update_directory_rpc tags o)
unfolding update_directory_rpc update_directory_with_id
update_directory_rpc-IsSafe tags none = IsSafe-IsRead _ (IsRead-raise _)
update_directory_rpc-IsSafe tags (some d) =
    IsSafe-if (text_eq d.id []) (raise invalid_argument) _ (IsSafe-IsRead _ (IsRead-raise _))
      (gated-IsSafe tags d.id update_code (update_directory d) (update_directory-IsSafe d))

pub delete_directory_rpc-IsSafe :
    (tags : List Text) (id : Text) → IsSafe (delete_directory_rpc tags id)
unfolding delete_directory_rpc
delete_directory_rpc-IsSafe tags id =
    IsSafe-if (text_eq id []) (raise invalid_argument) _ (IsSafe-IsRead _ (IsRead-raise _))
      (gated-IsSafe tags id delete_code (delete_directory id) (delete_directory-IsSafe id))

serve-IsSafe : (s : Server) (tags : List Text) (r : Request) → IsSafe (serve s tags r)
unfolding serve
serve-IsSafe s tags (list id) = IsSafe-map _ _ (IsSafe-IsRead _ (list_rpc-IsRead tags id))
serve-IsSafe s tags (get_config id version) =
    IsSafe-map _ _ (IsSafe-IsRead _ (get_config_rpc-IsRead tags id version))
serve-IsSafe s tags (set_config c) = IsSafe-map _ _ (set_config_rpc-IsSafe s tags c)
serve-IsSafe s tags (delete_config_at id) = IsSafe-map _ _ (delete_config_rpc-IsSafe tags id)
serve-IsSafe s tags (create_directory_at d) = IsSafe-map _ _ (create_directory_rpc-IsSafe s tags d)
serve-IsSafe s tags (get_directory id) =
    IsSafe-map _ _ (IsSafe-IsRead _ (get_directory_rpc-IsRead tags id))
serve-IsSafe s tags (update_directory_at d) = IsSafe-map _ _ (update_directory_rpc-IsSafe tags d)
serve-IsSafe s tags (delete_directory_at id) = IsSafe-map _ _ (delete_directory_rpc-IsSafe tags id)

-- Whatever statements fail, a request of any kind that ends in an error has changed no table.
pub serve_atomic :
    (s : Server) (tags : List Text) (r : Request) (w : World) (e : Code)
    → (serve s tags r w).0 ≡ err e
    → (serve s tags r w).1.db ≡ w.db
serve_atomic s tags r w e h = (serve-IsSafe s tags r).undone w e h

-- Whatever statements fail: where every config has its current version stored and every version and
-- ACL entry has its config, that is so after a request of any kind.
pub serve-IsConsistent :
    (s : Server) (tags : List Text) (r : Request) (w : World)
    → IsConsistent w.db
    → IsConsistent (serve s tags r w).1.db
serve-IsConsistent s tags r w c = (serve-IsSafe s tags r).consistent w c
