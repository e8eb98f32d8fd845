-- ===== src/Store/Migrations/Opening.antt =====
-- NewStore of internal/store/sqlite/store.go and the two migrations that rebuild tables:
-- migrateContentVersions and migrateContentSize.
use configfs.Prelude.{
  ℤ, int_eq, Bool, true, false, ◌&&◌, List, [], ◌∷◌, map, Option, none, some, length, any,
  if◌then◌else◌,
}
use configfs.Exec.{Result, ok, err, Exec, pure, ◌>>=◌, ◌>>◌}
use configfs.Store.Db.{ConfigRow, ContentRow, fails, later}
use configfs.Store.Migrations.{
  ConfigTable, ContentTable, File, Disk, Failure, duplicate_column, failed, OpenError,
  schema_panics, migration_failed, versioning_failed, content_size_failed, index_failed, Statement,
  Opening, exec, exec_all, or_error, schema, on_config, on_content, migrations,
}

-- the error of a statement of the loop: a column that is there is no error
abbrev pub unless_duplicate : Result Failure (Unit {0}) → Result OpenError (Unit {0})
unless_duplicate (ok a) = ok a
unless_duplicate (err duplicate_column) = ok tt
unless_duplicate (err failed) = err migration_failed

abbrev pub with_result :
    {E F A B : Type 0} → (Result E A → Result F B) → Exec Disk E A → Exec Disk F B
with_result h m w = let (r, w') = m w in (h r, w')

unfoldable pub apply_migrations : List Statement → Opening (Unit {0})
unfolding exec
apply_migrations [] = pure tt
apply_migrations (s ∷ ss) = with_result unless_duplicate (exec s) >> apply_migrations ss

-- a missing table has no columns
abbrev pub column_in : (ContentTable → Bool) → Option ContentTable → Bool
column_in column none = false
column_in column (some t) = column t

-- tableHasColumn, for config_content
unfoldable pub table_has_column : (ContentTable → Bool) → Exec Disk Failure Bool
table_has_column column w =
    let w' = record w { faults = later w.faults } in
    if fails w.faults then (err failed, w') else (ok (column_in column w.file.config_content), w')

-- an error rolls back; after a failed COMMIT nothing is written either
abbrev pub end_transaction :
    OpenError → File → Result Failure (Unit {0}) × Disk → Result OpenError (Unit {0}) × Disk
end_transaction e before (ok tt, w) =
    let w' = record w { faults = later w.faults } in
    if fails w.faults then (err e, record w' { file = before }) else (ok tt, w')
end_transaction e before (err _, w) = (err e, record w { file = before })

-- db.Beginx, the loop over the statements, and tx.Rollback or tx.Commit
unfoldable pub in_transaction : OpenError → List Statement → Opening (Unit {0})
unfolding exec_all
in_transaction e stmts w =
    let w' = record w { faults = later w.faults } in
    if fails w.faults then (err e, w') else end_transaction e w.file (exec_all stmts w')

abbrev pub renamed : Option ContentTable → Option ContentTable → Statement
renamed (some t) none f = ok (record f { config_content = none; config_content_legacy = some t })
renamed none _ f = err failed
renamed (some t) (some u) f = err failed

-- ALTER TABLE config_content RENAME TO config_content_legacy
unfoldable pub rename_content : Statement
rename_content f = renamed f.config_content f.config_content_legacy f

abbrev pub versioned_content : ContentTable
versioned_content = record {
  has_config_id = true;
  has_content_size = false;
  has_created_at = true;
  has_updated_at = true;
  rows = [];
}

abbrev pub created_content : Option ContentTable → Statement
created_content none f = ok (record f { config_content = some versioned_content })
created_content (some t) f = err failed

-- CREATE TABLE config_content
unfoldable pub create_content : Statement
create_content f = created_content f.config_content f

abbrev pub ids_of : Option ConfigTable → List ℤ
ids_of none = []
ids_of (some t) = map (λ (r : ConfigRow). r.id) t.rows

-- the foreign key of the new table: every id is that of a config
unfoldable pub all_configs : List ℤ → List ContentRow → Bool
all_configs ids [] = true
all_configs ids (r ∷ rs) = any (int_eq r.id) ids && all_configs ids rs

abbrev pub versioned_row : ContentRow → ContentRow
versioned_row r = record r { config_id = r.id }

-- the SELECT needs the columns that it copies
abbrev pub copied : List ℤ → ContentTable → Result Failure (List ContentRow)
copied ids u =
    if u.has_created_at && u.has_updated_at && all_configs ids u.rows
    then ok (map versioned_row u.rows)
    else err failed

abbrev pub with_rows : Result Failure (List ContentRow) → ContentTable → File → Result Failure File
with_rows (ok rows) t f = ok (record f { config_content = some (record t { rows = rows }) })
with_rows (err e) t f = err e

abbrev pub copied_to : Option ContentTable → Option ContentTable → Statement
copied_to (some t) (some u) f = with_rows (copied (ids_of f.config) u) t f
copied_to (some t) none f = err failed
copied_to none _ f = err failed

-- INSERT INTO config_content … SELECT id, id, … FROM config_content_legacy
unfoldable pub copy_content : Statement
unfolding all_configs
copy_content f = copied_to f.config_content f.config_content_legacy f

abbrev pub dropped : Option ContentTable → Statement
dropped none f = err failed
dropped (some u) f = ok (record f { config_content_legacy = none })

-- DROP TABLE config_content_legacy
unfoldable pub drop_legacy : Statement
drop_legacy f = dropped f.config_content_legacy f

unfoldable pub version_statements : List Statement
unfolding rename_content create_content copy_content drop_legacy
version_statements = rename_content ∷ create_content ∷ copy_content ∷ drop_legacy ∷ []

-- migrateContentVersions
unfoldable pub migrate_content_versions : Opening (Unit {0})
unfolding table_has_column in_transaction version_statements
migrate_content_versions = do
  has ← with_result (or_error versioning_failed) (table_has_column (λ t. t.has_config_id))
  if has then pure tt else in_transaction versioning_failed version_statements

-- ALTER TABLE config_content ADD COLUMN content_size INTEGER NOT NULL DEFAULT 0
abbrev pub add_content_size : ContentTable → Result Failure ContentTable
add_content_size t =
    if t.has_content_size
    then err duplicate_column
    else ok (record t {
      has_content_size = true;
      rows = map (λ (r : ContentRow). record r { content_size = 0 }) t.rows;
    })

-- UPDATE config_content SET content_size = length(content)
abbrev pub measure_content : ContentTable → Result Failure ContentTable
measure_content t =
    if t.has_content_size
    then ok (record t {
      rows = map (λ (r : ContentRow). record r { content_size = length r.content }) t.rows;
    })
    else err failed

-- ALTER TABLE config DROP COLUMN content_size
abbrev pub drop_config_size : ConfigTable → Result Failure ConfigTable
drop_config_size t =
    if t.has_content_size then ok (record t { has_content_size = false }) else err failed

unfoldable pub size_statements : List Statement
unfolding on_content on_config
size_statements =
    on_content add_content_size ∷ on_content measure_content ∷ on_config drop_config_size ∷ []

-- migrateContentSize
unfoldable pub migrate_content_size : Opening (Unit {0})
unfolding table_has_column in_transaction size_statements
migrate_content_size = do
  has ← with_result (or_error content_size_failed) (table_has_column (λ t. t.has_content_size))
  if has then pure tt else in_transaction content_size_failed size_statements

-- CREATE INDEX IF NOT EXISTS config_content_config_id ON config_content (config_id)
abbrev pub index_content : ContentTable → Result Failure ContentTable
index_content t = if t.has_config_id then ok t else err failed

-- NewStore
unfoldable pub new_store : Opening (Unit {0})
unfolding schema exec_all migrations apply_migrations migrate_content_versions migrate_content_size
    on_content exec
new_store = do
  with_result (or_error schema_panics) (exec_all schema)
  apply_migrations migrations
  migrate_content_versions
  migrate_content_size
  with_result (or_error index_failed) (exec (on_content index_content))
