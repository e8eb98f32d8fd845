-- ===== src/Store/Reads.antt =====
-- The operations of internal/store/sqlite/store.go that only read.
use configfs.Prelude.{ℤ, Bool, List, [], ◌∷◌, Option, none, some}
use configfs.Strings.{Text}
use configfs.Strings.Decimal.{parse_int}
use configfs.Proto.{Config}
use configfs.Store.Db.{DirectoryRow}
use configfs.Store.Db.Reads.{IsRead, read_rules}
use configfs.Store.Acls.{AclTable, load_acls, acls_for_owner}
use configfs.Store.Directories.{
  fetch_constrained, constraints, get_directories_by_path_string, require_directory_exists,
  directory_missing_unless, directory_with_acls, parsed_directory, get_directory_by_id,
  directory_chain,
}
use configfs.Store.Configs.{
  ConfigSelect, get_config_by_path_and_name, load_version, requested_version, version_to_load,
  load_config, get_parsed_config, get_config_by_id,
}

pub load_acls-IsRead : (table : AclTable) (ids : List ℤ) → IsRead (load_acls table ids)
unfolding load_acls
load_acls-IsRead table [] = search read_rules
load_acls-IsRead table (id ∷ ids) = search read_rules

acls_for_owner-IsRead : (table : AclTable) (n : ℤ) → IsRead (acls_for_owner table n)
unfolding acls_for_owner
acls_for_owner-IsRead table n = search (read_rules, load_acls-IsRead)

fetch_constrained-IsRead :
    (targets : List Text) (cs : List (Text × Text)) → IsRead (fetch_constrained targets cs)
unfolding fetch_constrained
fetch_constrained-IsRead targets [] = search read_rules
fetch_constrained-IsRead targets (c ∷ cs) = search (read_rules, load_acls-IsRead)

pub get_directories-IsRead : (targets : List Text) → IsRead (get_directories_by_path_string targets)
unfolding get_directories_by_path_string
get_directories-IsRead targets = fetch_constrained-IsRead targets (constraints targets)

directory_missing_unless-IsRead :
    (path : Text) (missing : List Text) → IsRead (directory_missing_unless path missing)
unfolding directory_missing_unless
directory_missing_unless-IsRead path [] = search read_rules
directory_missing_unless-IsRead path (m ∷ ms) = search read_rules

pub require_directory_exists-IsRead : (path : Text) → IsRead (require_directory_exists path)
unfolding require_directory_exists
require_directory_exists-IsRead path =
    search (read_rules, get_directories-IsRead, directory_missing_unless-IsRead)

pub directory_chain-IsRead : (path : Text) → IsRead (directory_chain path)
unfolding directory_chain
directory_chain-IsRead path = search (read_rules, get_directories-IsRead)

directory_with_acls-IsRead : (row : Option DirectoryRow) → IsRead (directory_with_acls row)
unfolding directory_with_acls
directory_with_acls-IsRead none = search read_rules
directory_with_acls-IsRead (some r) = search (read_rules, acls_for_owner-IsRead)

parsed_directory-IsRead : (id : Text) (o : Option ℤ) → IsRead (parsed_directory id o)
unfolding parsed_directory
parsed_directory-IsRead id none = search read_rules
parsed_directory-IsRead id (some n) = search (read_rules, directory_with_acls-IsRead)

pub get_directory_by_id-IsRead : (id : Text) → IsRead (get_directory_by_id id)
unfolding get_directory_by_id
get_directory_by_id-IsRead id = parsed_directory-IsRead id (parse_int id)

pub get_config_by_path_and_name-IsRead :
    (path name : Text) → IsRead (get_config_by_path_and_name path name)
unfolding get_config_by_path_and_name
get_config_by_path_and_name-IsRead path name = search read_rules

load_version-IsRead : (c : Config) (n : ℤ) (v : Option ℤ) → IsRead (load_version c n v)
unfolding load_version
load_version-IsRead c n none = search read_rules
load_version-IsRead c n (some v) = search read_rules

requested_version-IsRead : (version : Text) (o : Option ℤ) → IsRead (requested_version version o)
unfolding requested_version
requested_version-IsRead version none = search read_rules
requested_version-IsRead version (some n) = search read_rules

version_to_load-IsRead : (version : Text) (cs : ConfigSelect) → IsRead (version_to_load version cs)
unfolding version_to_load
version_to_load-IsRead version cs = search (read_rules, requested_version-IsRead)

load_config-IsRead :
    (n : ℤ) (include : Bool) (version : Text) (o : Option ConfigSelect)
    → IsRead (load_config n include version o)
unfolding load_config
load_config-IsRead n include version none = search read_rules
load_config-IsRead n include version (some cs) =
    search (read_rules, acls_for_owner-IsRead, version_to_load-IsRead, load_version-IsRead) depth 8

get_parsed_config-IsRead :
    (id : Text) (o : Option ℤ) (include : Bool) (version : Text)
    → IsRead (get_parsed_config id o include version)
unfolding get_parsed_config
get_parsed_config-IsRead id none include version = search read_rules
get_parsed_config-IsRead id (some n) include version = search (read_rules, load_config-IsRead)

pub get_config_by_id-IsRead :
    (id : Text) (include : Bool) (version : Text) → IsRead (get_config_by_id id include version)
unfolding get_config_by_id
get_config_by_id-IsRead id include version =
    get_parsed_config-IsRead id (parse_int id) include version
