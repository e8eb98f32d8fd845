-- ===== src/Tests/Provider.antt =====
-- Runs of the Pulumi provider and of the flags, and the theorems applied to them.
use configfs.Prelude.{
  int_eq, ◌≡◌, ◌⊎◌, ◌↔◌, refl, true, false, List, Memᴰ, [], ◌∷◌, some, any, find, keep, Option,
}
use configfs.Strings.{codes, root, text_eq, trim_space, trim_left, trim_right, is_space}
use configfs.Strings.Decimal.{parse_int, format_nat, format_int}
use configfs.Proto.{
  acl_read, acl_write, ConfigAcl, Config, acl_grants, tag_matches, entry_allows, config_allows,
  allows_or_nil,
}
use configfs.Exec.{ok, ◌>>=◌}
use configfs.Store.Atomic.{Lost}
use configfs.Store.Db.{World, statement, query, execute, finish, with_tx, next_inode, current_time}
use configfs.Store.Acls.{
  acl_of_int, int_of_acl, to_proto, is_recognised, acl_row, owned_by, acls_of, load_acls,
  acls_for_owner, insert_rows, insert_acls, delete_acls, replace_acls,
}
use configfs.Store.Directories.{require_directory_exists}
use configfs.Store.Configs.{
  timestamp_from_unix_nano, id_string_from_null_int, current_content, select_row, select_first,
  config_of, at_path_and_name, get_config_by_path_and_name, load_config, get_parsed_config,
  get_config_by_id, insert_config_row, insert_content_row, store_content, insert_config, touch_row,
  update_config_row, insert_version, update_parsed_config, update_config, delete_config_body,
  delete_parsed_config, delete_config, upsert_new, upsert_existing, upsert_inode, upsert_body,
  upsert,
}
use configfs.Store.Configs.Upsert.{UpsertEffect}
use configfs.Api.Server.{call, can_create}
use configfs.Api.Gates.{containing_directory}
use configfs.Api.Handlers.{
  require_some, write_gate, containing_gate, set_config_rpc, delete_config_rpc,
}
use configfs.Api.Handlers.Writing.{MayStore, MayWriteInto}
use configfs.Api.Service.Calculus.{IsSafe}
use configfs.Client.{Client, served}
use configfs.Fs.Snapshot.{id_or_empty}
use configfs.Pulumi.Acls.{
  AclEntry, to_upper, to_upper_code, acl_value, acl_level, acl_eq, acl_to_proto, acls_to_proto,
  validate_acls,
}
use configfs.Pulumi.Resource.{config_client, wrapped, unless_missing, has_changes}
use configfs.Pulumi.Configs.{
  ConfigArgs, config_from_args, state_from_args, args_from_config, diff_config, create_config,
  read_config, update_config_resource, delete_config_resource,
}
use configfs.Pulumi.Configs.Diffs.{replaces, diff_config_iff, diff_config-stored}
use configfs.Api.Handlers.Writing.{IsWritable, IsDeleted}
use configfs.Api.Server.{not_found}
use configfs.Exec.{err}
use configfs.Api.Handlers.{delete_config_rpc}
use configfs.Pulumi.Configs.Requests.{create_config_safe, delete_config_resource_safe}
use configfs.Pulumi.Directories.{
  DirectoryArgs, create_directory_resource, read_directory, update_directory_resource,
  delete_directory_resource,
}
use configfs.Pulumi.Safety.{resources-IsSafe}
use configfs.Command.{additional_acls}
use configfs.Command.Laws.{IsSayable, has_code, print_acls, additional_acls-print}
use configfs.Tests.{tag_a, shown}
use configfs.Tests.Rpcs.{tag_b, server, writable_tables, writable}

-- WRITE for tag:b, with the level as a program may write it
abbrev writers : List AclEntry
writers = record { acl = codes " write"; tag = tag_b; everyone = false } ∷ []

abbrev args : ConfigArgs
args = record { name = codes "c"; path = root; content = 33 ∷ []; acls = writers }

abbrev new_args : ConfigArgs
new_args = record args { name = codes "d" }

abbrev provider : Option (Client World)
provider = some (served server (tag_b ∷ []))

diff_config_iff_example :
    ((has_changes (diff_config new_args (state_from_args args)) ≡ false)
      ↔ (config_from_args (codes "1") new_args ≡ config_from_args (codes "1") args))
    × ((replaces (diff_config new_args (state_from_args args)) ≡ false)
        ↔ ((codes "d" ≡ codes "c") × (root ≡ root)))
diff_config_iff_example = diff_config_iff (codes "1") new_args args

-- The config as the server has it after the resource was created.
abbrev stored : Config
stored = record shown {
  content = some (33 ∷ []);
  acls = record { acl = acl_write; tag = tag_b; everyone = false } ∷ [];
}

stored_acls : stored.acls ≡ keep is_recognised (acls_to_proto writers)
unfolding keep is_recognised acl_to_proto acl_level acl_value to_upper to_upper_code trim_space
    trim_left trim_right is_space text_eq
stored_acls = refl

diff_config-stored_example :
    (has_changes (diff_config (args_from_config stored) (state_from_args args)) ≡ false)
    ↔ (validate_acls writers ≡ true)
diff_config-stored_example = diff_config-stored args stored refl refl refl stored_acls

create_runs :
    (create_config provider false new_args writable).0 ≡ ok (codes "3", state_from_args new_args)
unfolding create_config config_client wrapped validate_acls acl_eq acl_level acl_value to_upper
    to_upper_code trim_space trim_left trim_right is_space config_from_args acl_to_proto can_create
    upsert_new insert_config insert_config_row store_content at_path_and_name
    get_config_by_path_and_name set_config_rpc write_gate containing_gate containing_directory
    allows_or_nil require_some call config_allows entry_allows acl_grants tag_matches upsert
    upsert_body upsert_inode upsert_existing require_directory_exists update_config
    update_parsed_config insert_version insert_content_row update_config_row touch_row replace_acls
    delete_acls insert_acls insert_rows is_recognised acl_row int_of_acl with_tx finish current_time
    next_inode execute get_config_by_id get_parsed_config load_config select_first select_row
    current_content config_of acls_for_owner load_acls acls_of owned_by to_proto acl_of_int
    timestamp_from_unix_nano id_string_from_null_int format_int format_nat parse_int query statement
    ◌>>=◌ find keep any text_eq int_eq
create_runs = refl

delete_runs : (delete_config_resource provider (codes "1") writable).0 ≡ ok tt
unfolding delete_config_resource config_client unless_missing delete_config_rpc require_some call
    config_allows entry_allows acl_grants tag_matches delete_config delete_parsed_config
    delete_config_body delete_acls with_tx finish execute get_config_by_id get_parsed_config
    load_config select_first select_row current_content config_of acls_for_owner load_acls acls_of
    owned_by to_proto acl_of_int timestamp_from_unix_nano id_string_from_null_int format_int
    format_nat parse_int query statement ◌>>=◌ find keep any text_eq int_eq
delete_runs = refl

create_config_safe_example :
    (validate_acls writers ≡ true)
    × (can_create server (tag_b ∷ []) ≡ true)
    × ((r : Option Config) × ((set_config_rpc server
            (tag_b ∷ [])
            (some (config_from_args [] new_args))
            writable).0
          ≡ ok r)
        × (codes "3" ≡ id_or_empty r))
    × (state_from_args new_args ≡ state_from_args new_args)
    × (MayStore server (tag_b ∷ []) [] writable_tables
        × MayWriteInto (tag_b ∷ []) root writable_tables
        × (Lost writable (create_config provider false new_args writable).1
            ⊎ UpsertEffect
                (config_from_args [] new_args)
                9
                writable_tables
                (create_config provider false new_args writable).1.db))
unfolding config_from_args
create_config_safe_example =
    create_config_safe server (tag_b ∷ []) new_args writable (codes "3") (state_from_args new_args)
      create_runs

delete_config_resource_safe_example :
    (((delete_config_rpc (tag_b ∷ []) (codes "1") writable).0 ≡ err not_found)
      × ((delete_config_resource provider (codes "1") writable).1.db ≡ writable_tables))
    ⊎ (IsWritable (tag_b ∷ []) (codes "1") writable_tables
        × (Lost writable (delete_config_resource provider (codes "1") writable).1
            ⊎ IsDeleted
                (codes "1")
                writable_tables
                (delete_config_resource provider (codes "1") writable).1.db))
delete_config_resource_safe_example =
    delete_config_resource_safe server (tag_b ∷ []) (codes "1") writable delete_runs

abbrev directory_args : DirectoryArgs
directory_args = record { name = codes "d"; path = root; acls = writers }

resources-IsSafe_example :
    (IsSafe (create_config provider false args)
      × IsSafe (read_config provider (codes "1"))
      × IsSafe (update_config_resource provider false (codes "1") args)
      × IsSafe (delete_config_resource provider (codes "1")))
    × (IsSafe (create_directory_resource provider false directory_args)
        × IsSafe (read_directory provider (codes "1"))
        × IsSafe (update_directory_resource provider false (codes "1") directory_args)
        × IsSafe (delete_directory_resource provider (codes "1")))
resources-IsSafe_example =
    resources-IsSafe server (tag_b ∷ []) false (codes "1") args directory_args

-- Two entries of the flag
abbrev extra : List ConfigAcl
extra =
    record { acl = acl_read; tag = tag_a; everyone = false }
    ∷ record { acl = acl_write; tag = []; everyone = true }
    ∷ []

sayable : (a : ConfigAcl) → Memᴰ a extra → IsSayable a
unfolding is_recognised text_eq has_code any
sayable a (Memᴰ.head e) =
    rw e (record { level = refl; no_comma = refl; no_at = refl; named = refl })
sayable a (Memᴰ.tail (Memᴰ.head e)) =
    rw e (record { level = refl; no_comma = refl; no_at = refl; named = refl })
sayable a (Memᴰ.tail (Memᴰ.tail m)) = elim m [ ]

additional_acls-print_example : additional_acls (print_acls extra) ≡ extra
additional_acls-print_example = additional_acls-print extra sayable
