-- ===== src/Store/Numbers.antt =====
-- The ids that `nextInode` of internal/store/sqlite/store.go gives out: configs, their versions and
-- directories draw them from one counter.
pub mod Keys
pub mod Steps
pub mod Runs
use configfs.Prelude.{ℕ, ◌≡◌, ◌≢◌, Memᴰ}
use configfs.Store.Db.{ConfigRow, ContentRow, DirectoryRow, Db}
use configfs.Store.Numbers.Keys.{Numbered}

-- In each table every id is at most the counter and names one row, and no config shares its id with
-- a directory.
pub record IsNumbered (db : Db) : Type 0 where
  pub configs : Numbered (λ (r : ConfigRow). r.id) db.inode db.config
  pub contents : Numbered (λ (r : ContentRow). r.id) db.inode db.config_content
  pub directories : Numbered (λ (r : DirectoryRow). r.id) db.inode db.directory
  pub apart :
      (c : ConfigRow) (d : DirectoryRow) → Memᴰ c db.config → Memᴰ d db.directory → c.id ≢ d.id
