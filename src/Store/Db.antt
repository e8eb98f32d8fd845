-- ===== src/Store/Db.antt =====
-- The database of internal/store/sqlite/store.go: its tables (`schema`), the statements as they are
-- run through `querier`, and `withTx`.
-- A table is the list of its rows in the order of their primary keys. A statement may fail: the
-- list `faults` says which of the coming statements do, and nothing more fails once it is empty.
pub mod Laws
pub mod Reads
pub mod Ensures
pub mod Keeps
use configfs.Prelude.{
  ℕ, suc, ℤ, pos, Bool, true, false, List, [], ◌∷◌, Option, none, some, if◌then◌else◌,
}
use configfs.Strings.{Text}
use configfs.Exec.{Result, ok, err, Exec}

pub record ConfigRow : Type 0 where
  pub id : ℤ
  pub name : Text
  pub path : Text
  pub current_content_id : Option ℤ
  pub created_at : ℕ
  pub updated_at : ℕ

pub record DirectoryRow : Type 0 where
  pub id : ℤ
  pub name : Text
  pub path : Text
  pub parent_id : Option ℤ

pub record ContentRow : Type 0 where
  pub id : ℤ
  pub config_id : ℤ
  pub content : List ℕ
  pub content_size : ℕ
  pub created_at : ℕ
  pub updated_at : ℕ

-- A row of config_acl or directory_acl.
pub record AclRow : Type 0 where
  pub owner_id : ℤ
  pub acl : ℕ
  pub tag : Text
  pub everyone : ℕ

-- `inode` is the largest id of the inode table, 0 while it is empty.
pub record Db : Type 0 where
  pub inode : ℕ
  pub config : List ConfigRow
  pub directory : List DirectoryRow
  pub config_content : List ContentRow
  pub config_acl : List AclRow
  pub directory_acl : List AclRow

pub record World : Type 0 where
  pub db : Db
  pub faults : List Bool
  pub now : ℕ

-- The errors that the store returns.
pub data Error : Type 0 where
  db_failed : Error
  bad_id : Text → Error
  bad_version : Text → Error
  name_required : Error
  directory_exists : Text → Error
  not_found_after_creation : Text → Error
  no_such_directory_id : Text → Error
  name_mismatch : Text → Error
  path_mismatch : Text → Error
  has_subdirectories : Text → Error
  has_configs : Text → Error
  directory_missing : Text → Error
  config_exists : Error
  tree_directory_missing : Text → Error
  panicked : Error

abbrev pub Op : Type 0 → Type 0
Op A = Exec World Error A

abbrev pub fails : List Bool → Bool
fails [] = false
fails (b ∷ bs) = b

abbrev pub later : List Bool → List Bool
later [] = []
later (b ∷ bs) = bs

module _ {A : Type 0} where
  unfoldable pub statement : (Db → A × Db) → Op A
  statement f w =
      let w' = record w { faults = later w.faults } in
      if fails w.faults then (err db_failed, w') else (ok (f w.db).0, record w' { db = (f w.db).1 })

  -- a SELECT
  unfoldable pub query : (Db → A) → Op A
  unfolding statement
  query f = statement (λ db. (f db, db))

  -- `finish`: an error rolls back; a failed commit is only logged, and nothing was written
  unfoldable pub finish : Db → Result Error A × World → Result Error A × World
  finish before (ok a, w) =
      let w' = record w { faults = later w.faults } in
      if fails w.faults then (ok a, record w' { db = before }) else (ok a, w')
  finish before (err e, w) = (err e, record w { db = before })

  -- withTx, the body and `finish(err)`
  unfoldable pub with_tx : Op A → Op A
  unfolding finish
  with_tx body w =
      let w' = record w { faults = later w.faults } in
      if fails w.faults then (err db_failed, w') else finish w.db (body w')

-- an INSERT, UPDATE or DELETE
unfoldable pub execute : (Db → Db) → Op (Unit {0})
unfolding statement
execute f = statement (λ db. (tt, f db))

-- s.now().UnixNano()
unfoldable pub current_time : Op ℕ
current_time w = (ok w.now, w)

-- nextInode: INSERT INTO inode (id) VALUES (NULL), and LastInsertId
unfoldable pub next_inode : Op ℤ
unfolding statement
next_inode = statement (λ db. (pos (suc db.inode), record db { inode = suc db.inode }))
