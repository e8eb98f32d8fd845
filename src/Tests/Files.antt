-- ===== src/Tests/Files.antt =====
-- Opening a database file from before content versions, as TestNewStoreMigratesPreTimestampDatabase of
-- internal/store/sqlite/store_timestamps_test.go does.
use configfs.Prelude.{pos, ◌≡◌, refl, ap, true, false, [], ◌∷◌, none, some}
use configfs.Strings.{codes}
use configfs.Exec.{ok}
use configfs.Store.Db.{ConfigRow, ContentRow}
use configfs.Store.Configs.Consistent.{IsConsistent}
use configfs.Store.Migrations.{ConfigTable, ContentTable, File}
use configfs.Store.Migrations.Opening.{new_store}
use configfs.Store.Migrations.Upgrade.{upgraded, file_of}
use configfs.Store.Migrations.Calm.{calm}
use configfs.Store.Migrations.Opened.{new_store_opens}
use configfs.Store.Migrations.Returned.{attempts, reopened}
use configfs.Store.Migrations.Consistent.{IsUnversioned, opened-IsConsistent}

abbrev legacy_row : ConfigRow
legacy_row = record {
  id = pos 2;
  name = codes "legacy";
  path = codes "/a";
  current_content_id = none;
  created_at = 0;
  updated_at = 0;
}

abbrev legacy_content : ContentRow
legacy_content = record {
  id = pos 2;
  config_id = pos 0;
  content = codes "xyz";
  content_size = 0;
  created_at = 0;
  updated_at = 0;
}

abbrev legacy_configs : ConfigTable
legacy_configs = record {
  has_content_size = true;
  has_created_at = false;
  has_updated_at = false;
  has_current_content_id = false;
  rows = legacy_row ∷ [];
}

abbrev legacy_contents : ContentTable
legacy_contents = record {
  has_config_id = false;
  has_content_size = false;
  has_created_at = false;
  has_updated_at = false;
  rows = legacy_content ∷ [];
}

abbrev legacy : File
legacy = record {
  inode = some 2;
  config = some legacy_configs;
  directory = some [];
  config_content = some legacy_contents;
  config_content_legacy = none;
  config_acl = some [];
  directory_acl = none;
}

legacy-IsUnversioned : IsUnversioned legacy
legacy-IsUnversioned = record {
  file = record {
    no_legacy = refl;
    pair = record { one_size = refl; sized = λ h. cc; keyed = λ h n m. m };
  };
  unversioned = refl;
  unpointed = refl;
  has_content = λ n m. m;
  owned_acls = λ r m. elim m [ ];
}

-- The content is the first version of the config, and its size has been measured.
legacy-upgraded :
    ((upgraded legacy).config ≡ (record legacy_row { current_content_id = some (pos 2) } ∷ []))
    × ((upgraded legacy).config_content
        ≡ (record legacy_content { config_id = pos 2; content_size = 3 } ∷ []))
unfolding upgraded
legacy-upgraded = (refl, refl)

reopened_example :
    new_store (calm (attempts ((true ∷ []) ∷ (false ∷ false ∷ true ∷ []) ∷ []) legacy))
    ≡ (ok tt, calm (file_of (upgraded legacy)))
reopened_example =
    reopened ((true ∷ []) ∷ (false ∷ false ∷ true ∷ []) ∷ []) legacy legacy-IsUnversioned.file

opened-IsConsistent_example :
    ((new_store (calm legacy)).1.file ≡ file_of (upgraded legacy)) × IsConsistent (upgraded legacy)
opened-IsConsistent_example =
    opened-IsConsistent (calm legacy) legacy-IsUnversioned
      (ap (λ r. r.0) (new_store_opens legacy legacy-IsUnversioned.file))
