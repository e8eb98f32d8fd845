-- ===== src/Api/Service.antt =====
-- The RPCs of internal/api/server.go as one service.
pub mod Calculus
pub mod Gates
pub mod Safety
use configfs.Prelude.{
  ℤ, ◌≡◌, refl, sym, ap, ◌∙◌, subst, ◌⊎◌, inl, inr, Bool, true, false, not, List, [], ◌∷◌, Option,
  none, some, arith, Bool-cases, if◌then◌else◌,
}
use configfs.Strings.{Text, text_eq, trim_space, root}
use configfs.Proto.{
  Tree, Config, Directory, ConfigAcl, acl_read, acl_write, config_allows, directory_allows,
  full_path, allows_or_nil,
}
use configfs.Exec.{Result, ok, err, Exec, pure, raise, continue, ◌>>=◌, ◌>>◌}
use configfs.Store.Db.{tree_directory_missing, Db, World, Error, Op}
use configfs.Store.Db.Reads.{IsRead, IsRead-pure, IsRead-raise, IsRead-if, IsRead-bind, read_rules}
use configfs.Store.Reads.{
  load_acls-IsRead, directory_chain-IsRead, get_directory_by_id-IsRead, get_config_by_id-IsRead,
}
use configfs.Store.Directories.{
  get_directory_by_id, create_directory, update_directory, delete_directory,
}
use configfs.Store.Tree.{
  PathMap, get_path, all_directories_with_acls, under_prefix, has_directory, visible_configs,
  tree_for_acl_tags,
}
use configfs.Store.Configs.{upsert, delete_config}
use configfs.Store.Configs.Consistent.{IsConsistent}
use configfs.Store.Atomic.{
  Mutation, upsert_of, delete_of, create_directory_of, update_directory_of, delete_directory_of,
  run, run_atomic,
}
use configfs.Store.Integrity.{run-IsConsistent}
use configfs.Api.Server.{
  Server, Code, Handler, call, can_create, internal_code, invalid_argument, permission_denied,
  failed_precondition,
}
use configfs.Api.Gates.{
  is_root, path_readable, directory_writable, Containing, the_root, existing_directory,
  no_directory, containing_directory,
}
use configfs.Api.Handlers.{
  require_some, unless, version_or_empty, write_gate, containing_gate, ancestor_gate,
  get_config_rpc, set_config_rpc, delete_config_rpc, create_code, create_directory_rpc, list_rpc,
  get_directory_rpc, update_code, update_directory_with_id, update_directory_rpc, delete_code,
  delete_directory_rpc,
}

-- A request, with the arguments that its handler reads.
pub data Request : Type 0 where
  list : Text → Request
  get_config : Text → Option Text → Request
  set_config : Option Config → Request
  delete_config_at : Text → Request
  create_directory_at : Option Directory → Request
  get_directory : Text → Request
  update_directory_at : Option Directory → Request
  delete_directory_at : Text → Request

pub data Response : Type 0 where
  listed : Option Tree → Response
  got_config : Config → Response
  set_to : Option Config → Response
  done : Response
  got_directory : Directory → Response
  stored_directory : Option Directory → Response

-- The handlers, each for its own request: the dispatch that RegisterConfigFSServerServer sets up.
unfoldable pub serve : Server → List Text → Request → Handler Response
serve s tags (list id) = do t ← list_rpc tags id; pure (listed t)
serve s tags (get_config id version) = do c ← get_config_rpc tags id version; pure (got_config c)
serve s tags (set_config c) = set_config_rpc s tags c >>= λ r. pure (set_to r)
serve s tags (delete_config_at id) = delete_config_rpc tags id >> pure done
serve s tags (create_directory_at d) =
    create_directory_rpc s tags d >>= λ r. pure (stored_directory r)
serve s tags (get_directory id) = do d ← get_directory_rpc tags id; pure (got_directory d)
serve s tags (update_directory_at d) =
    update_directory_rpc tags d >>= λ r. pure (stored_directory r)
serve s tags (delete_directory_at id) = delete_directory_rpc tags id >> pure done
