-- ===== src/Store/Migrations.antt =====
-- How internal/store/sqlite/store.go opens a database file: `schema`, `migrations`, NewStore,
-- tableHasColumn, migrateContentVersions and migrateContentSize.
-- A table may be missing, and may lack columns that are newer than the file: a flag says whether a
-- column is there, and a row's value for a column that is not there means nothing. The values of
-- config.content_size are left out, since nothing reads them. A statement may fail for its own
-- reasons, or because the list `faults` says so.
pub mod Opening
pub mod Upgrade
pub mod Steps
pub mod Keeps
pub mod Runs
pub mod Rebuilds
pub mod Sizes
pub mod Reopening
pub mod Calm
pub mod Opened
pub mod Returned
pub mod Consistent
use configfs.Prelude.{
  ℕ, ℤ, int_eq, Bool, true, false, not, ◌&&◌, List, [], ◌∷◌, map, Option, none, some, length, any,
  if◌then◌else◌,
}
use configfs.Exec.{Result, ok, err, Exec, pure, raise, ◌>>=◌, ◌>>◌}
use configfs.Store.Db.{ConfigRow, DirectoryRow, ContentRow, AclRow, fails, later}

pub record ConfigTable : Type 0 where
  pub has_content_size : Bool
  pub has_created_at : Bool
  pub has_updated_at : Bool
  pub has_current_content_id : Bool
  pub rows : List ConfigRow

pub record ContentTable : Type 0 where
  pub has_config_id : Bool
  pub has_content_size : Bool
  pub has_created_at : Bool
  pub has_updated_at : Bool
  pub rows : List ContentRow

-- The tables of a file, `none` for one that is missing.
pub record File : Type 0 where
  pub inode : Option ℕ
  pub config : Option ConfigTable
  pub directory : Option (List DirectoryRow)
  pub config_content : Option ContentTable
  pub config_content_legacy : Option ContentTable
  pub config_acl : Option (List AclRow)
  pub directory_acl : Option (List AclRow)

pub record Disk : Type 0 where
  pub file : File
  pub faults : List Bool

-- `duplicate_column` is an error whose text contains "duplicate column name".
pub data Failure : Type 0 where
  duplicate_column : Failure
  failed : Failure

-- The errors of NewStore; MustExec panics.
pub data OpenError : Type 0 where
  schema_panics : OpenError
  migration_failed : OpenError
  versioning_failed : OpenError
  content_size_failed : OpenError
  index_failed : OpenError

abbrev pub Statement : Type 0
Statement = File → Result Failure File

abbrev pub Opening : Type 0 → Type 0
Opening A = Exec Disk OpenError A

abbrev pub applied : Result Failure File → Disk → Result Failure (Unit {0}) × Disk
applied (ok f) w = (ok tt, record w { file = f })
applied (err e) w = (err e, w)

-- db.Exec and tx.Exec
unfoldable pub exec : Statement → Exec Disk Failure (Unit {0})
exec s w =
    let w' = record w { faults = later w.faults } in
    if fails w.faults then (err failed, w') else applied (s w.file) w'

-- several statements, to the first that fails
unfoldable pub exec_all : List Statement → Exec Disk Failure (Unit {0})
unfolding exec
exec_all [] = pure tt
exec_all (s ∷ ss) = exec s >> exec_all ss

-- a wrapped error
abbrev pub or_error : {A : Type 0} → OpenError → Result Failure A → Result OpenError A
or_error e (ok a) = ok a
or_error e (err _) = err e

-- CREATE TABLE IF NOT EXISTS
abbrev pub or_new : {A : Type 0} → A → Option A → A
or_new new none = new
or_new new (some t) = t

abbrev pub new_config : ConfigTable
new_config = record {
  has_content_size = false;
  has_created_at = true;
  has_updated_at = true;
  has_current_content_id = true;
  rows = [];
}

abbrev pub new_content : ContentTable
new_content = record {
  has_config_id = true;
  has_content_size = true;
  has_created_at = true;
  has_updated_at = true;
  rows = [];
}

-- PRAGMA foreign_keys and CREATE INDEX: no table changes
abbrev pub no_change : Statement
no_change f = ok f

-- The order is that of the source; each index follows its table.
unfoldable pub schema : List Statement
schema =
    no_change
    ∷ (λ (f : File). ok (record f { inode = some (or_new 0 f.inode) }))
    ∷ (λ (f : File). ok (record f { config = some (or_new new_config f.config) }))
    ∷ (λ (f : File). ok (record f { directory = some (or_new [] f.directory) }))
    ∷ (λ (f : File). ok (record f { config_content = some (or_new new_content f.config_content) }))
    ∷ (λ (f : File). ok (record f { config_acl = some (or_new [] f.config_acl) }))
    ∷ no_change
    ∷ (λ (f : File). ok (record f { directory_acl = some (or_new [] f.directory_acl) }))
    ∷ no_change
    ∷ []

abbrev pub with_config : Result Failure ConfigTable → File → Result Failure File
with_config (ok t) f = ok (record f { config = some t })
with_config (err e) f = err e

abbrev pub with_content : Result Failure ContentTable → File → Result Failure File
with_content (ok t) f = ok (record f { config_content = some t })
with_content (err e) f = err e

-- a statement on one table, which fails where there is no such table
abbrev pub on_config_table :
    (ConfigTable → Result Failure ConfigTable) → Option ConfigTable → Statement
on_config_table g none f = err failed
on_config_table g (some t) f = with_config (g t) f

abbrev pub on_content_table :
    (ContentTable → Result Failure ContentTable) → Option ContentTable → Statement
on_content_table g none f = err failed
on_content_table g (some t) f = with_content (g t) f

unfoldable pub on_config : (ConfigTable → Result Failure ConfigTable) → Statement
on_config g f = on_config_table g f.config f

unfoldable pub on_content : (ContentTable → Result Failure ContentTable) → Statement
on_content g f = on_content_table g f.config_content f

-- the four ALTER TABLE … ADD COLUMN … NOT NULL DEFAULT 0
abbrev pub add_config_created_at : ConfigTable → Result Failure ConfigTable
add_config_created_at t =
    if t.has_created_at
    then err duplicate_column
    else ok (record t {
      has_created_at = true;
      rows = map (λ (r : ConfigRow). record r { created_at = 0 }) t.rows;
    })

abbrev pub add_config_updated_at : ConfigTable → Result Failure ConfigTable
add_config_updated_at t =
    if t.has_updated_at
    then err duplicate_column
    else ok (record t {
      has_updated_at = true;
      rows = map (λ (r : ConfigRow). record r { updated_at = 0 }) t.rows;
    })

abbrev pub add_content_created_at : ContentTable → Result Failure ContentTable
add_content_created_at t =
    if t.has_created_at
    then err duplicate_column
    else ok (record t {
      has_created_at = true;
      rows = map (λ (r : ContentRow). record r { created_at = 0 }) t.rows;
    })

abbrev pub add_content_updated_at : ContentTable → Result Failure ContentTable
add_content_updated_at t =
    if t.has_updated_at
    then err duplicate_column
    else ok (record t {
      has_updated_at = true;
      rows = map (λ (r : ContentRow). record r { updated_at = 0 }) t.rows;
    })

-- ALTER TABLE config ADD COLUMN current_content_id
abbrev pub add_current_content_id : ConfigTable → Result Failure ConfigTable
add_current_content_id t =
    if t.has_current_content_id
    then err duplicate_column
    else ok (record t {
      has_current_content_id = true;
      rows = map (λ (r : ConfigRow). record r { current_content_id = none }) t.rows;
    })

abbrev pub or_own_id : ℤ → Option ℤ → Option ℤ
or_own_id n none = some n
or_own_id n (some v) = some v

-- UPDATE config SET current_content_id = id WHERE current_content_id IS NULL
abbrev pub fill_current_content_id : ConfigTable → Result Failure ConfigTable
fill_current_content_id t =
    if t.has_current_content_id
    then ok (record t {
      rows =
          map
            (λ (r : ConfigRow). record r {
              current_content_id = or_own_id r.id r.current_content_id;
            })
            t.rows;
    })
    else err failed

unfoldable pub migrations : List Statement
unfolding on_config on_content
migrations =
    on_config add_config_created_at
    ∷ on_config add_config_updated_at
    ∷ on_content add_content_created_at
    ∷ on_content add_content_updated_at
    ∷ on_config add_current_content_id
    ∷ on_config fill_current_content_id
    ∷ []
