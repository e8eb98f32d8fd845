-- ===== src/Store/Migrations/Consistent.antt =====
-- The tables that a file from before content versions comes to (migrateContentVersions of
-- internal/store/sqlite/store.go).
use mathlib.Core.List
use configfs.Prelude.{ℤ, ◌≡◌, refl, ap, ◌∙◌, sym, subst, false, [], Memᴰ, some}
use configfs.Store.Db.{AclRow, ConfigRow, ContentRow}
use configfs.Store.Configs.Consistent.{HasConfig, HasCurrent, IsConsistent}
use configfs.Store.Migrations.{File, Disk, or_new}
use configfs.Exec.{ok}
use configfs.Store.Migrations.Opening.{new_store}
use configfs.Store.Migrations.Returned.{new_store_returns}
use configfs.Store.Migrations.Upgrade.{
  upgraded_config_row, upgraded_content_row, config_of_file, content_of_file, upgraded, config_ids,
  content_ids, IsFile, file_of,
}

-- A file from before content versions: each config has one row of config_content, under its own id.
pub record IsUnversioned (f : File) : Type 0 where
  pub file : IsFile f
  pub unversioned : (content_of_file f).has_config_id ≡ false
  pub unpointed : (config_of_file f).has_current_content_id ≡ false
  pub has_content :
      (n : ℤ) → Memᴰ n (config_ids (config_of_file f)) → Memᴰ n (content_ids (content_of_file f))
  pub owned_acls :
      (r : AclRow)
      → Memᴰ r (or_new [] f.config_acl)
      → Memᴰ r.owner_id (config_ids (config_of_file f))

module _ (f : File) (v : IsUnversioned f) where
  upgraded_has : (n : ℤ) → Memᴰ n (config_ids (config_of_file f)) → HasConfig (upgraded f).config n
  unfolding HasConfig upgraded
  upgraded_has n m =
      let (r, i, e) = List.Memᴰ.of_map (λ (r : ConfigRow). r.id) _ m in
      (_, List.Memᴰ.map (upgraded_config_row (config_of_file f)) i, e)

  upgraded_current :
      (c : ConfigRow) → Memᴰ c (upgraded f).config → HasCurrent (upgraded f).config_content c
  unfolding HasCurrent upgraded
  upgraded_current c m =
      let (r, i, e) = List.Memᴰ.of_map (upgraded_config_row (config_of_file f)) _ m in
      let has = v.has_content r.id (List.Memᴰ.map (λ (r : ConfigRow). r.id) i) in
      let (s, j, same) = List.Memᴰ.of_map (λ (r : ContentRow). r.id) _ has in
      let id_of : c.id ≡ r.id = sym (ap (λ (x : ConfigRow). x.id) e) in
      let points : c.current_content_id ≡ some r.id =
        sym (ap (λ (x : ConfigRow). x.current_content_id) e) ∙ rw v.unpointed refl in
      (
        _,
        List.Memᴰ.map (upgraded_content_row (content_of_file f)) j,
        points ∙ ap some (sym same),
        rw v.unversioned (same ∙ sym id_of),
      )

  upgraded_versions :
      (r : ContentRow)
      → Memᴰ r (upgraded f).config_content
      → HasConfig (upgraded f).config r.config_id
  unfolding upgraded HasConfig
  upgraded_versions r m =
      let (s, j, e) = List.Memᴰ.of_map (upgraded_content_row (content_of_file f)) _ m in
      let taken : s.id ≡ (upgraded_content_row (content_of_file f) s).config_id =
        rw v.unversioned refl in
      let own : s.id ≡ r.config_id = taken ∙ ap (λ (x : ContentRow). x.config_id) e in
      subst (HasConfig (upgraded f).config) own (
        upgraded_has s.id
          (v.file.pair.keyed v.unversioned s.id (List.Memᴰ.map (λ (r : ContentRow). r.id) j)))

  upgraded_acls :
      (r : AclRow) → Memᴰ r (upgraded f).config_acl → HasConfig (upgraded f).config r.owner_id
  unfolding upgraded
  upgraded_acls r m = upgraded_has r.owner_id (v.owned_acls r m)

  upgraded-IsConsistent : IsConsistent (upgraded f)
  upgraded-IsConsistent = record {
    current = upgraded_current;
    owned_versions = upgraded_versions;
    owned_acls = upgraded_acls;
  }

-- Where NewStore returns for a file from before content versions, in which each config has one row
-- of config_content under its own id and no ACL entry is left without its config: the file is in its
-- newest form, each config has a current version, which is stored as a version of this config, and
-- each version and each entry of config_acl has its config.
pub opened-IsConsistent :
    (w : Disk)
    → IsUnversioned w.file
    → (new_store w).0 ≡ ok tt
    → ((new_store w).1.file ≡ file_of (upgraded w.file)) × IsConsistent (upgraded w.file)
opened-IsConsistent w v h = (new_store_returns w v.file h, upgraded-IsConsistent w.file v)
