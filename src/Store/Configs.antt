-- ===== src/Store/Configs.antt =====
-- Configs in internal/store/sqlite/store.go: reading one with a version of its content, and the
-- operations that insert, update and delete it.
pub mod Effects
pub mod Consistent
pub mod Lookup
pub mod Upsert
use configfs.Prelude.{
  ℕ, ℤ, pos, int_eq, Bool, true, false, not, ◌||◌, ◌&&◌, List, [], ◌∷◌, ◌++◌, map, Option, none,
  some, ◌==◌, if◌then◌else◌, any, keep, find,
}
use configfs.Strings.{Text, text_eq}
use configfs.Strings.Decimal.{parse_int, format_int}
use configfs.Proto.{ConfigAcl, Config}
use configfs.Exec.{pure, raise, ◌>>=◌, ◌>>◌}
use configfs.Store.Db.{
  ConfigRow, ContentRow, Db, Op, query, execute, next_inode, current_time, with_tx, bad_id,
  bad_version, name_mismatch, path_mismatch, config_exists, panicked, db_failed,
}
use configfs.Store.Acls.{config_acls, insert_config_acls, delete_config_acls, replace_config_acls}
use configfs.Store.Directories.{require_directory_exists}

-- timestampFromUnixNano
unfoldable pub timestamp_from_unix_nano : ℕ → Option ℕ
timestamp_from_unix_nano ns = if ns == 0 then none else some ns

-- idStringFromNullInt
unfoldable pub id_string_from_null_int : Option ℤ → Text
id_string_from_null_int none = []
id_string_from_null_int (some n) = format_int n

-- LEFT JOIN config_content cc ON cc.id = c.current_content_id
unfoldable pub current_content : ConfigRow → Db → Option ContentRow
current_content c db = elim c.current_content_id [
  | some n ↦ find (λ (r : ContentRow). int_eq r.id n) db.config_content
  | none ↦ none
]

-- configSelect: a config row with COALESCE(cc.content_size, 0)
pub record ConfigSelect : Type 0 where
  pub row : ConfigRow
  pub content_size : ℕ

abbrev pub size_or_zero : Option ContentRow → ℕ
size_or_zero none = 0
size_or_zero (some r) = r.content_size

unfoldable pub select_row : Db → ConfigRow → ConfigSelect
select_row db c = record { row = c; content_size = size_or_zero (current_content c db) }

unfoldable pub select_first : (ConfigRow → Bool) → Db → Option ConfigSelect
select_first p db = elim (find p db.config) [ some c ↦ some (select_row db c) | none ↦ none ]

unfoldable pub config_of : List ConfigAcl → ConfigSelect → Config
config_of acls cs = record {
  id = format_int cs.row.id;
  name = cs.row.name;
  content = none;
  content_size = cs.content_size;
  path = cs.row.path;
  acls = acls;
  created_at = timestamp_from_unix_nano cs.row.created_at;
  updated_at = timestamp_from_unix_nano cs.row.updated_at;
  current_content_id = id_string_from_null_int cs.row.current_content_id;
}

unfoldable pub at_path_and_name : Text → Text → ConfigRow → Bool
at_path_and_name path name c = text_eq c.name name && text_eq c.path path

abbrev pub without_acls : Option ConfigSelect → Option Config
without_acls none = none
without_acls (some cs) = some (config_of [] cs)

-- getConfigByPathAndName, which loads no ACLs
unfoldable pub get_config_by_path_and_name : Text → Text → Op (Option Config)
get_config_by_path_and_name path name = do
  found ← query (select_first (at_path_and_name path name))
  pure (without_acls found)

unfoldable pub is_version : ℤ → ℤ → ContentRow → Bool
is_version content config r = int_eq r.id content && int_eq r.config_id config

-- The last statements of GetConfigByID: the version `content` of the config, if it is one of its
-- own.
unfoldable pub load_version : Config → ℤ → Option ℤ → Op (Option Config)
load_version conf n none = pure none
load_version conf n (some content) = do
  row ← query (λ db. find (is_version content n) db.config_content)
  pure (elim row [
    | some r ↦ some (record conf { content = some r.content; content_size = r.content_size })
    | none ↦ none
  ])

unfoldable pub requested_version : Text → Option ℤ → Op (Option ℤ)
requested_version version none = raise (bad_version version)
requested_version version (some n) = pure (some n)

-- the switch on the version
unfoldable pub version_to_load : Text → ConfigSelect → Op (Option ℤ)
version_to_load version cs =
    if text_eq version []
    then pure cs.row.current_content_id
    else requested_version version (parse_int version)

unfoldable pub load_config : ℤ → Bool → Text → Option ConfigSelect → Op (Option Config)
load_config n include version none = pure none
load_config n include version (some cs) = do
  acls ← config_acls cs.row.id
  let conf = config_of acls cs
  if not include
      then pure (some conf)
      else do content ← version_to_load version cs; load_version conf n content

unfoldable pub get_parsed_config : Text → Option ℤ → Bool → Text → Op (Option Config)
get_parsed_config id none include version = raise (bad_id id)
get_parsed_config id (some n) include version = do
  found ← query (select_first (λ c. int_eq c.id n))
  load_config n include version found

-- GetConfigByID; `none` where the config, or the version asked for, is not there
unfoldable pub get_config_by_id : Text → Bool → Text → Op (Option Config)
get_config_by_id id include version = get_parsed_config id (parse_int id) include version

unfoldable pub insert_config_row : ConfigRow → Db → Db
insert_config_row r db = record db { config = db.config ++ r ∷ [] }

unfoldable pub insert_content_row : ContentRow → Db → Db
insert_content_row r db = record db { config_content = db.config_content ++ r ∷ [] }

-- Unset content is NULL, which `content BLOB NOT NULL` refuses.
unfoldable pub store_content : Option (List ℕ) → (List ℕ → ContentRow) → Op (Unit {0})
store_content none row = raise db_failed
store_content (some bytes) row = execute (insert_content_row (row bytes))

-- insert
unfoldable pub insert_config : Config → Op ℤ
insert_config config = do
  config_inode ← next_inode
  content_inode ← next_inode
  now ← current_time
  execute (
      insert_config_row (record {
        id = config_inode;
        name = config.name;
        path = config.path;
        current_content_id = some content_inode;
        created_at = now;
        updated_at = now;
      }))
  store_content config.content (λ bytes. record {
    id = content_inode;
    config_id = config_inode;
    content = bytes;
    content_size = config.content_size;
    created_at = now;
    updated_at = now;
  })
  insert_config_acls config_inode config.acls
  pure config_inode

-- UPDATE config SET updated_at = ?, and current_content_id = ? where there is new content
unfoldable pub touch_row : ℤ → ℕ → Option ℤ → ConfigRow → ConfigRow
touch_row n now none r = if int_eq r.id n then record r { updated_at = now } else r
touch_row n now (some content) r =
    if int_eq r.id n then record r { updated_at = now; current_content_id = some content } else r

unfoldable pub update_config_row : ℤ → ℕ → Option ℤ → Db → Db
update_config_row n now content db = record db { config = map (touch_row n now content) db.config }

-- The new version, where content is supplied.
unfoldable pub insert_version : ℤ → ℕ → ℕ → Option (List ℕ) → Op (Option ℤ)
insert_version n now size none = pure none
insert_version n now size (some bytes) = do
  content_inode ← next_inode
  execute (
      insert_content_row (record {
        id = content_inode;
        config_id = n;
        content = bytes;
        content_size = size;
        created_at = now;
        updated_at = now;
      }))
  pure (some content_inode)

unfoldable pub update_parsed_config : Config → Option ℤ → Op (Unit {0})
update_parsed_config config none = raise (bad_id config.id)
update_parsed_config config (some n) = do
  now ← current_time
  version ← insert_version n now config.content_size config.content
  execute (update_config_row n now version)
  replace_config_acls n config.acls

-- update
unfoldable pub update_config : Config → Op (Unit {0})
update_config config = update_parsed_config config (parse_int config.id)

unfoldable pub delete_config_body : ℤ → Op (Unit {0})
delete_config_body n = do
  delete_config_acls n
  execute (λ db. record db {
    config_content = keep (λ (r : ContentRow). not (int_eq r.config_id n)) db.config_content;
  })
  execute (λ db. record db { config = keep (λ (r : ConfigRow). not (int_eq r.id n)) db.config })

unfoldable pub delete_parsed_config : Text → Option ℤ → Op (Unit {0})
delete_parsed_config id none = raise (bad_id id)
delete_parsed_config id (some n) = with_tx (delete_config_body n)

-- Delete
unfoldable pub delete_config : Text → Op (Unit {0})
delete_config id = delete_parsed_config id (parse_int id)

-- the insert branch of Upsert
unfoldable pub upsert_new : Config → Option Config → Op ℤ
upsert_new config none = insert_config config
upsert_new config (some existing) = raise config_exists

-- the update branch of Upsert; the getters of a nil config give "", and a write through it panics
unfoldable pub upsert_existing : Config → Option Config → Op ℤ
upsert_existing config none =
    if not (text_eq [] config.name)
    then raise (name_mismatch [])
    else if not (text_eq [] config.path)
    then raise (path_mismatch [])
    else raise panicked
upsert_existing config (some existing) =
    if not (text_eq existing.name config.name)
    then raise (name_mismatch existing.name)
    else if not (text_eq existing.path config.path)
    then raise (path_mismatch existing.path)
    else do
      update_config (record existing {
        acls = config.acls;
        content_size = config.content_size;
        content = config.content;
      })
      pure (elim (parse_int existing.id) [ some n ↦ n | none ↦ pos 0 ])

unfoldable pub upsert_inode : Config → Op ℤ
upsert_inode config =
    if text_eq config.id []
    then (do
      existing ← get_config_by_path_and_name config.path config.name
      upsert_new config existing)
    else (do existing ← get_config_by_id config.id false []; upsert_existing config existing)

unfoldable pub upsert_body : Config → Op (Option Config)
upsert_body config = do
  require_directory_exists config.path
  inode ← upsert_inode config
  get_config_by_id (format_int inode) false []

-- Upsert
unfoldable pub upsert : Config → Op (Option Config)
upsert config = with_tx (upsert_body config)
