-- ===== src/Api/Service/Gates.antt =====
-- The gates and the reading handlers of internal/api/server.go write nothing.
use configfs.Prelude.{Bool, true, not, List, [], ◌∷◌, Option, none, some}
use configfs.Strings.{Text}
use configfs.Proto.{Config, Directory, acl_read, config_allows}
use configfs.Exec.{pure, raise}
use configfs.Store.Db.{tree_directory_missing}
use configfs.Store.Db.Reads.{IsRead, IsRead-pure, IsRead-raise, IsRead-if, IsRead-bind, read_rules}
use configfs.Store.Reads.{
  load_acls-IsRead, directory_chain-IsRead, get_directory_by_id-IsRead, get_config_by_id-IsRead,
}
use configfs.Store.Tree.{
  PathMap, get_path, all_directories_with_acls, under_prefix, has_directory, visible_configs,
  tree_for_acl_tags,
}
use configfs.Api.Server.{Server, Code}
use configfs.Api.Gates.{
  is_root, path_readable, directory_writable, Containing, the_root, existing_directory,
  no_directory, containing_directory,
}
use configfs.Api.Handlers.{
  require_some, unless, write_gate, containing_gate, ancestor_gate, get_config_rpc, list_rpc,
  get_directory_rpc,
}
use configfs.Api.Service.Calculus.{IsRead-call}

pub require_some-IsRead : {A : Type 0} (o : Option A) → IsRead (require_some o)
unfolding require_some
require_some-IsRead none = IsRead-raise _
require_some-IsRead (some a) = IsRead-pure a

pub unless-IsRead : (b : Bool) (code : Code) → IsRead (unless b code)
unless-IsRead b code = IsRead-if b (pure tt) (raise code) (IsRead-pure tt) (IsRead-raise code)

pub path_readable-IsRead : (path : Text) (tags : List Text) → IsRead (path_readable path tags)
unfolding path_readable
path_readable-IsRead path tags =
    IsRead-if (is_root path) (pure true) _ (IsRead-pure true)
      (search (read_rules, directory_chain-IsRead))

pub directory_writable-IsRead :
    (d : Directory) (tags : List Text) → IsRead (directory_writable d tags)
unfolding directory_writable
directory_writable-IsRead d tags = search (read_rules, path_readable-IsRead)

pub containing_directory-IsRead : (path : Text) → IsRead (containing_directory path)
unfolding containing_directory
containing_directory-IsRead path =
    IsRead-if (is_root path) (pure the_root) _ (IsRead-pure the_root)
      (search (read_rules, directory_chain-IsRead))

pub ruleset gate_rules = (
  read_rules, IsRead-call, require_some-IsRead, unless-IsRead, path_readable-IsRead,
  directory_writable-IsRead, containing_directory-IsRead, get_directory_by_id-IsRead,
  get_config_by_id-IsRead, directory_chain-IsRead,
)

pub get_config_rpc-IsRead :
    (tags : List Text) (id : Text) (version : Option Text) → IsRead (get_config_rpc tags id version)
unfolding get_config_rpc
get_config_rpc-IsRead tags id version = search gate_rules depth 10

pub get_directory_rpc-IsRead : (tags : List Text) (id : Text) → IsRead (get_directory_rpc tags id)
unfolding get_directory_rpc
get_directory_rpc-IsRead tags id = search gate_rules depth 10

pub write_gate-IsRead : (s : Server) (tags : List Text) (c : Config) → IsRead (write_gate s tags c)
unfolding write_gate
write_gate-IsRead s tags c = search gate_rules depth 10

pub containing_gate-IsRead : (tags : List Text) (c : Containing) → IsRead (containing_gate tags c)
unfolding containing_gate
containing_gate-IsRead tags the_root = unless-IsRead _ _
containing_gate-IsRead tags (existing_directory d) = unless-IsRead _ _
containing_gate-IsRead tags no_directory = IsRead-raise _

pub ancestor_gate-IsRead : (tags : List Text) (parent : Text) → IsRead (ancestor_gate tags parent)
unfolding ancestor_gate
ancestor_gate-IsRead tags parent = search gate_rules depth 10

pub visible_configs-IsRead :
    (tags : List Text) (prefix : Text) (dirs : List Directory) (readable : PathMap)
    (cs : List Config)
    → IsRead (visible_configs tags prefix dirs readable cs)
unfolding visible_configs
visible_configs-IsRead tags prefix dirs readable [] = IsRead-pure _
visible_configs-IsRead tags prefix dirs readable (c ∷ cs) =
    let others = visible_configs-IsRead tags prefix dirs readable cs in
    IsRead-if (not (under_prefix prefix c.path)) _ _ others (
      IsRead-if (not (config_allows tags acl_read c.acls)) _ _ others (
        IsRead-if (not (has_directory dirs c.path)) (raise (tree_directory_missing c.path)) _
          (IsRead-raise _)
          (IsRead-if (not (get_path c.path readable)) _ _ others
            (IsRead-bind _ _ others (λ _. IsRead-pure _)))))

pub all_directories-IsRead : IsRead all_directories_with_acls
unfolding all_directories_with_acls
all_directories-IsRead = search (read_rules, load_acls-IsRead)

pub tree_for_acl_tags-IsRead :
    (tags : List Text) (prefix : Text) → IsRead (tree_for_acl_tags tags prefix)
unfolding tree_for_acl_tags
tree_for_acl_tags-IsRead tags prefix =
    search (read_rules, load_acls-IsRead, all_directories-IsRead, visible_configs-IsRead) depth 10

pub list_rpc-IsRead : (tags : List Text) (id : Text) → IsRead (list_rpc tags id)
unfolding list_rpc
list_rpc-IsRead tags id = search (gate_rules, tree_for_acl_tags-IsRead) depth 10
