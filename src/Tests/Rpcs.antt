-- ===== src/Tests/Rpcs.antt =====
-- Runs of the RPCs on small tables, and the theorems applied to them.
use configfs.Prelude.{
  ℤ, pos, int_eq, ◌≡◌, ◌⊎◌, refl, true, false, [], ◌∷◌, none, some, any, find, keep, Option,
}
use configfs.Strings.{Text, codes, root, text_eq}
use configfs.Strings.Decimal.{parse_int, format_nat, format_int}
use configfs.Proto.{
  Tree, node, no_trees, acl_grants, tag_matches, entry_allows, config_allows, full_path_of,
  full_path, allows_or_nil,
}
use configfs.Exec.{ok, err, ◌>>=◌}
use configfs.Store.Atomic.{Lost}
use configfs.Store.Db.{
  Db, World, statement, query, execute, finish, with_tx, next_inode, current_time,
}
use configfs.Store.Acls.{
  acl_of_int, int_of_acl, to_proto, is_recognised, acl_row, owned_by, acls_of, load_acls,
  acls_for_owner, insert_rows, insert_acls, delete_acls, replace_acls,
}
use configfs.Store.Directories.{order_by_path, require_directory_exists}
use configfs.Store.Configs.{
  timestamp_from_unix_nano, id_string_from_null_int, current_content, select_row, select_first,
  config_of, load_config, get_parsed_config, get_config_by_id, insert_content_row, touch_row,
  update_config_row, insert_version, update_parsed_config, update_config, delete_config_body,
  delete_parsed_config, delete_config, upsert_existing, upsert_inode, upsert_body, upsert,
}
use configfs.Store.Configs.Consistent.{IsConsistent}
use configfs.Store.Configs.Upsert.{UpsertEffect}
use configfs.Store.Tree.{
  root_normalised, configs_in, children_of, trees_of, populate, total_length, get_path,
  sort_by_depth, mark_readable, readable_directories, all_directories_with_acls, prefilter,
  under_prefix, has_directory, visible_configs, tree_root, tree_for_acl_tags,
}
use configfs.Api.Server.{
  Server, permission_denied, WhoIs, Metadata, acl_tags_key, call, identities_of,
  identities_from_who_is, delete_key, assign_key, acl_tags, authenticate,
}
use configfs.Api.Gates.{containing_directory}
use configfs.Api.Handlers.{
  require_some, write_gate, containing_gate, set_config_rpc, delete_config_rpc,
}
use configfs.Api.Handlers.Requests.{intercept, IsPeers, intercept_sound}
use configfs.Api.Handlers.Writing.{
  MayStore, MayWriteInto, IsWritable, IsDeleted, set_config_rpc_safe, delete_config_rpc_safe,
}
use configfs.Api.Service.{delete_config_at, set_config, serve}
use configfs.Api.Service.Safety.{serve_atomic, serve-IsConsistent}
use configfs.Api.Handlers.{list_rpc}
use configfs.Store.Directories.{order_by_path}
use configfs.Api.Handlers.Listing.{ShowsVisible, list_rpc_safe}
use configfs.Tests.{tag_a, tables, tables-IsConsistent, world, shown, change, saved}

abbrev pub tag_b : Text
tag_b = codes "tag:b"

-- Anyone may create.
abbrev pub server : Server
server = record { create_allowed_tags = [] }

-- The config, writable by tag:b.
abbrev pub writable_tables : Db
writable_tables = record tables {
  config_acl = record { owner_id = pos 1; acl = 2; tag = tag_b; everyone = 0 } ∷ [];
}

abbrev pub writable : World
writable = record world { db = writable_tables }

set_runs : (set_config_rpc server (tag_b ∷ []) (some change) writable).0 ≡ ok (some saved)
unfolding set_config_rpc write_gate containing_gate containing_directory allows_or_nil require_some
    call config_allows entry_allows acl_grants tag_matches upsert upsert_body upsert_inode
    upsert_existing require_directory_exists update_config update_parsed_config insert_version
    insert_content_row update_config_row touch_row replace_acls delete_acls insert_acls insert_rows
    is_recognised acl_row int_of_acl with_tx finish current_time next_inode execute get_config_by_id
    get_parsed_config load_config select_first select_row current_content config_of acls_for_owner
    load_acls acls_of owned_by to_proto acl_of_int timestamp_from_unix_nano id_string_from_null_int
    format_int format_nat parse_int query statement ◌>>=◌ find keep any text_eq int_eq
set_runs = refl

set_config_rpc_safe_example :
    MayStore server (tag_b ∷ []) (codes "1") writable_tables
    × MayWriteInto (tag_b ∷ []) root writable_tables
    × (Lost writable (set_config_rpc server (tag_b ∷ []) (some change) writable).1
        ⊎ UpsertEffect change 9 writable_tables
            (set_config_rpc server (tag_b ∷ []) (some change) writable).1.db)
set_config_rpc_safe_example =
    set_config_rpc_safe server (tag_b ∷ []) change writable (some saved) set_runs

delete_runs : (delete_config_rpc (tag_b ∷ []) (codes "1") writable).0 ≡ ok tt
unfolding delete_config_rpc require_some call config_allows entry_allows acl_grants tag_matches
    delete_config delete_parsed_config delete_config_body delete_acls with_tx finish execute
    get_config_by_id get_parsed_config load_config select_first select_row current_content config_of
    acls_for_owner load_acls acls_of owned_by to_proto acl_of_int timestamp_from_unix_nano
    id_string_from_null_int format_int format_nat parse_int query statement ◌>>=◌ find keep any
    text_eq int_eq
delete_runs = refl

delete_config_rpc_safe_example :
    IsWritable (tag_b ∷ []) (codes "1") writable_tables
    × (Lost writable (delete_config_rpc (tag_b ∷ []) (codes "1") writable).1
        ⊎ IsDeleted
            (codes "1")
            writable_tables
            (delete_config_rpc (tag_b ∷ []) (codes "1") writable).1.db)
delete_config_rpc_safe_example =
    delete_config_rpc_safe (tag_b ∷ []) (codes "1") writable delete_runs

refusal : (serve server (tag_a ∷ []) (delete_config_at (codes "1")) world).0 ≡ err permission_denied
unfolding serve delete_config_rpc require_some call config_allows entry_allows acl_grants
    tag_matches get_config_by_id get_parsed_config load_config select_first select_row
    current_content config_of acls_for_owner load_acls acls_of owned_by to_proto acl_of_int
    timestamp_from_unix_nano id_string_from_null_int format_int format_nat parse_int query statement
    ◌>>=◌ find keep any text_eq int_eq
refusal = refl

serve_atomic_example :
    (serve server (tag_a ∷ []) (delete_config_at (codes "1")) world).1.db ≡ tables
serve_atomic_example =
    serve_atomic server (tag_a ∷ []) (delete_config_at (codes "1")) world permission_denied refusal

serve-IsConsistent_example :
    IsConsistent (serve server (tag_b ∷ []) (set_config (some change)) world).1.db
serve-IsConsistent_example =
    serve-IsConsistent server (tag_b ∷ []) (set_config (some change)) world tables-IsConsistent

-- WhoIs gives the tags of the one node.
abbrev directory_service : ℤ → Option (Option WhoIs)
directory_service n = some (some (record { node_tags = some (tag_a ∷ []); login_name = none }))

abbrev forged : Metadata
forged = (acl_tags_key, tag_b ∷ []) ∷ []

abbrev seen : Metadata
seen = (acl_tags_key, tag_a ∷ []) ∷ []

interception : intercept false directory_service (some (pos 7)) (some forged) ≡ ok (some seen)
unfolding intercept authenticate assign_key delete_key identities_from_who_is identities_of text_eq
interception = refl

intercept_sound_example :
    ((false ≡ true) × (acl_tags (some seen) ≡ []))
    ⊎ IsPeers directory_service (some (pos 7)) (acl_tags (some seen))
intercept_sound_example =
    intercept_sound directory_service false (some (pos 7)) (some forged) (some seen) interception

abbrev small_tree : Tree
small_tree = node tree_root no_trees (record shown { content = none } ∷ [])

listing_runs : (list_rpc (tag_a ∷ []) [] world).0 ≡ ok (some small_tree)
unfolding list_rpc call tree_for_acl_tags all_directories_with_acls order_by_path visible_configs
    under_prefix has_directory prefilter readable_directories mark_readable sort_by_depth get_path
    populate trees_of children_of configs_in root_normalised total_length full_path full_path_of
    config_allows entry_allows acl_grants tag_matches select_row current_content config_of load_acls
    acls_of owned_by to_proto acl_of_int timestamp_from_unix_nano id_string_from_null_int format_int
    format_nat query statement ◌>>=◌ find keep any text_eq int_eq
listing_runs = refl

list_rpc_safe_example :
    ((list_rpc (tag_a ∷ []) [] world).1.db ≡ tables) × ShowsVisible (tag_a ∷ []) tables small_tree
list_rpc_safe_example = list_rpc_safe (tag_a ∷ []) [] world small_tree listing_runs
