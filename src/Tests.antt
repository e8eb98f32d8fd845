-- ===== src/Tests.antt =====
-- Runs of the operations on small tables, and the theorems applied to them.
pub mod Rpcs
pub mod Directories
pub mod Mounts
pub mod Provider
pub mod Files
pub mod Trees
pub mod Logs
pub mod Changes
use mathlib.Core.List
use configfs.Prelude.{
  ℤ, pos, int_eq, ◌≡◌, ◌≢◌, ◌⊎◌, ◌↔◌, refl, sym, ap, true, false, List, [], ◌∷◌, ◌++◌, Memᴰ, none,
  some, any, find, keep, Option,
}
use configfs.Strings.{Text, codes, root, text_eq}
use configfs.Strings.Decimal.{parse_int, format_nat, format_int}
use configfs.Proto.{
  acl_read, acl_write, ConfigAcl, Config, acl_grants, tag_matches, entry_allows, config_allows,
  directory_allows,
}
use configfs.Proto.Access.{Granted, config_allows_iff, directory_allows_iff}
use configfs.Exec.{ok, err, ◌>>=◌}
use configfs.Store.Atomic.{Lost}
use configfs.Store.Db.{
  AclRow, ConfigRow, ContentRow, Db, World, statement, query, execute, finish, with_tx, next_inode,
  current_time, db_failed,
}
use configfs.Store.Acls.{
  of_config, acl_of_int, int_of_acl, to_proto, is_recognised, acl_row, owned_by, acls_of, load_acls,
  acls_for_owner, insert_rows, insert_acls, delete_acls, replace_acls,
}
use configfs.Store.Acls.Laws.{acls_of-replace_acls}
use configfs.Store.Directories.{require_directory_exists}
use configfs.Store.Configs.{
  timestamp_from_unix_nano, id_string_from_null_int, current_content, select_row, select_first,
  config_of, at_path_and_name, get_config_by_path_and_name, is_version, load_version,
  requested_version, version_to_load, load_config, get_parsed_config, get_config_by_id,
  insert_config_row, insert_content_row, store_content, insert_config, touch_row, update_config_row,
  insert_version, update_parsed_config, update_config, delete_config_body, delete_parsed_config,
  delete_config, upsert_new, upsert_existing, upsert_inode, upsert_body, upsert,
}
use configfs.Store.Configs.Lookup.{Found, get_config_by_id_sound}
use configfs.Store.Configs.Consistent.{HasConfig, HasCurrent, IsConsistent}
use configfs.Store.Configs.Upsert.{UpsertEffect, upsert_sound}
use configfs.Store.Atomic.{Mutation, upsert_of, delete_of, run}
use configfs.Store.Integrity.{run-IsConsistent, run_keeps_versions}

abbrev pub tag_a : Text
tag_a = codes "tag:a"

-- READ for tag:a
abbrev pub readers : List ConfigAcl
readers = record { acl = acl_read; tag = tag_a; everyone = false } ∷ []

abbrev pub conf_row : ConfigRow
conf_row = record {
  id = pos 1;
  name = codes "c";
  path = root;
  current_content_id = some (pos 2);
  created_at = 7;
  updated_at = 7;
}

abbrev pub version_2 : ContentRow
version_2 = record {
  id = pos 2;
  config_id = pos 1;
  content = 104 ∷ 105 ∷ [];
  content_size = 2;
  created_at = 7;
  updated_at = 7;
}

abbrev pub entry_1 : AclRow
entry_1 = record { owner_id = pos 1; acl = 1; tag = tag_a; everyone = 0 }

-- One config at the root, with one version, readable by tag:a.
abbrev pub tables : Db
tables = record {
  inode = 2;
  config = conf_row ∷ [];
  directory = [];
  config_content = version_2 ∷ [];
  config_acl = entry_1 ∷ [];
  directory_acl = [];
}

abbrev pub world : World
world = record { db = tables; faults = []; now = 9 }

abbrev faulty : World
faulty = record { db = tables; faults = false ∷ false ∷ true ∷ []; now = 9 }

abbrev pub shown : Config
shown = record {
  id = codes "1";
  name = codes "c";
  content = some (104 ∷ 105 ∷ []);
  content_size = 2;
  path = root;
  acls = readers;
  created_at = some 7;
  updated_at = some 7;
  current_content_id = codes "2";
}

-- An update of the content.
abbrev pub change : Config
change = record shown { content = some (33 ∷ []); content_size = 1 }

abbrev pub saved : Config
saved = record shown {
  content = none;
  content_size = 1;
  updated_at = some 9;
  current_content_id = codes "3";
}

lookup_runs : (get_config_by_id (codes "1") true [] world).0 ≡ ok (some shown)
unfolding get_config_by_id get_parsed_config load_config version_to_load requested_version
    load_version is_version select_first select_row current_content config_of acls_for_owner
    load_acls acls_of owned_by to_proto acl_of_int timestamp_from_unix_nano id_string_from_null_int
    format_int format_nat parse_int query statement ◌>>=◌ find keep any text_eq int_eq
lookup_runs = refl

get_config_by_id_sound_example :
    ((get_config_by_id (codes "1") true [] world).1.db ≡ tables)
    × Found (codes "1") true [] tables (some shown)
get_config_by_id_sound_example = get_config_by_id_sound (codes "1") true [] world shown lookup_runs

upsert_runs : (upsert change world).0 ≡ ok (some saved)
unfolding upsert upsert_body upsert_inode upsert_existing require_directory_exists update_config
    update_parsed_config insert_version insert_content_row update_config_row touch_row replace_acls
    delete_acls insert_acls insert_rows is_recognised acl_row int_of_acl with_tx finish current_time
    next_inode execute get_config_by_id get_parsed_config load_config select_first select_row
    current_content config_of acls_for_owner load_acls acls_of owned_by to_proto acl_of_int
    timestamp_from_unix_nano id_string_from_null_int format_int format_nat parse_int query statement
    ◌>>=◌ find keep any text_eq int_eq
upsert_runs = refl

upsert_sound_example :
    Lost world (upsert change world).1 ⊎ UpsertEffect change 9 tables (upsert change world).1.db
upsert_sound_example = upsert_sound change world (some saved) upsert_runs

pub tables-IsConsistent : IsConsistent tables
unfolding HasConfig HasCurrent
tables-IsConsistent = record {
  current = λ c m.
      let e = List.Memᴰ.eq_of_singleton m in
      (
        version_2,
        Memᴰ.head refl,
        ap (λ (r : ConfigRow). r.current_content_id) e,
        ap (λ (r : ConfigRow). r.id) (sym e),
      );
  owned_versions = λ r m. (
    conf_row,
    Memᴰ.head refl,
    ap (λ (q : ContentRow). q.config_id) (sym (List.Memᴰ.eq_of_singleton m)),
  );
  owned_acls = λ r m. (
    conf_row,
    Memᴰ.head refl,
    ap (λ (q : AclRow). q.owner_id) (sym (List.Memᴰ.eq_of_singleton m)),
  );
}

run-IsConsistent_example : IsConsistent (run (upsert_of change) faulty).1.db
run-IsConsistent_example = run-IsConsistent (upsert_of change) faulty tables-IsConsistent

run_keeps_versions_example : Memᴰ version_2 (run (upsert_of change) world).1.db.config_content
run_keeps_versions_example =
    run_keeps_versions (upsert_of change) world version_2 (Memᴰ.head refl) tt

config_allows_iff_example :
    (config_allows (tag_a ∷ []) acl_read readers ≡ true) ↔ Granted (tag_a ∷ []) acl_read readers
config_allows_iff_example = config_allows_iff (tag_a ∷ []) acl_read readers

directory_allows_iff_example :
    (directory_allows (tag_a ∷ []) acl_write readers ≡ true)
    ↔ ((readers ≡ []) ⊎ Granted (tag_a ∷ []) acl_write readers)
directory_allows_iff_example = directory_allows_iff (tag_a ∷ []) acl_write readers

-- READ for tag:a and WRITE for tag:b
abbrev acls : List ConfigAcl
acls = record { acl = acl_write; tag = codes "tag:b"; everyone = false } ∷ readers

replacement_runs : (replace_acls of_config (pos 1) acls world).0 ≡ ok tt
unfolding replace_acls delete_acls insert_acls insert_rows execute statement ◌>>=◌ is_recognised
    keep
replacement_runs = refl

acls_of-replace_acls_example :
    (acls_of (pos 1) (replace_acls of_config (pos 1) acls world).1.db.config_acl
      ≡ keep is_recognised acls)
    × ((other : ℤ)
        → other ≢ pos 1
        → acls_of other (replace_acls of_config (pos 1) acls world).1.db.config_acl
          ≡ acls_of other tables.config_acl)
acls_of-replace_acls_example = acls_of-replace_acls of_config (pos 1) acls world replacement_runs
