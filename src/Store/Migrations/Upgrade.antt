-- ===== src/Store/Migrations/Upgrade.antt =====
-- What opening a database file (NewStore of internal/store/sqlite/store.go) makes of it, in one
-- pass over its rows, and which files there are.
use configfs.Prelude.{
  ℤ, ◌≡◌, Bool, true, false, not, List, [], map, Memᴰ, none, some, length, if◌then◌else◌,
}
use configfs.Store.Db.{ConfigRow, ContentRow, Db}
use configfs.Store.Migrations.{
  ConfigTable, ContentTable, File, or_new, new_config, new_content, or_own_id,
}

abbrev pub upgraded_config_row : ConfigTable → ConfigRow → ConfigRow
upgraded_config_row t r = record r {
  current_content_id =
      if t.has_current_content_id then or_own_id r.id r.current_content_id else some r.id;
  created_at = if t.has_created_at then r.created_at else 0;
  updated_at = if t.has_updated_at then r.updated_at else 0;
}

abbrev pub upgraded_config : ConfigTable → ConfigTable
upgraded_config t = record {
  has_content_size = false;
  has_created_at = true;
  has_updated_at = true;
  has_current_content_id = true;
  rows = map (upgraded_config_row t) t.rows;
}

abbrev pub upgraded_content_row : ContentTable → ContentRow → ContentRow
upgraded_content_row t r = record r {
  config_id = if t.has_config_id then r.config_id else r.id;
  content_size = if t.has_content_size then r.content_size else length r.content;
  created_at = if t.has_created_at then r.created_at else 0;
  updated_at = if t.has_updated_at then r.updated_at else 0;
}

abbrev pub upgraded_content : ContentTable → ContentTable
upgraded_content t = record {
  has_config_id = true;
  has_content_size = true;
  has_created_at = true;
  has_updated_at = true;
  rows = map (upgraded_content_row t) t.rows;
}

abbrev pub config_of_file : File → ConfigTable
config_of_file f = or_new new_config f.config

abbrev pub content_of_file : File → ContentTable
content_of_file f = or_new new_content f.config_content

-- The tables that the store works on, once every missing column and table has been filled in.
unfoldable pub upgraded : File → Db
upgraded f = record {
  inode = or_new 0 f.inode;
  config = (upgraded_config (config_of_file f)).rows;
  directory = or_new [] f.directory;
  config_content = (upgraded_content (content_of_file f)).rows;
  config_acl = or_new [] f.config_acl;
  directory_acl = or_new [] f.directory_acl;
}

-- The file in its newest form that holds these tables.
unfoldable pub file_of : Db → File
file_of db = record {
  inode = some db.inode;
  config = some (record new_config { rows = db.config });
  directory = some db.directory;
  config_content = some (record new_content { rows = db.config_content });
  config_content_legacy = none;
  config_acl = some db.config_acl;
  directory_acl = some db.directory_acl;
}

-- What a file of any version keeps. content_size is a column of config or of config_content, of the
-- latter only where it has versions; and where it has none, each row is that of the config with
-- its id.
pub record IsPair (config_size : Bool) (configs : List ℤ) (size versioned : Bool)
    (contents : List ℤ) : Type 0 where
  pub one_size : config_size ≡ not size
  pub sized : size ≡ true → versioned ≡ true
  pub keyed : versioned ≡ false → (n : ℤ) → Memᴰ n contents → Memᴰ n configs

abbrev pub config_ids : ConfigTable → List ℤ
config_ids t = map (λ (r : ConfigRow). r.id) t.rows

abbrev pub content_ids : ContentTable → List ℤ
content_ids t = map (λ (r : ContentRow). r.id) t.rows

pub record IsFile (f : File) : Type 0 where
  pub no_legacy : f.config_content_legacy ≡ none
  pub pair :
      let t = config_of_file f in
      let u = content_of_file f in
      IsPair t.has_content_size (config_ids t) u.has_content_size u.has_config_id (content_ids u)
