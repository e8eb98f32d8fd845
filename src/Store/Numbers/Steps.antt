-- ===== src/Store/Numbers/Steps.antt =====
-- What each change of the tables does to the numbering of the rows.
use mathlib.Core.List
use configfs.Prelude.{
  ℕ, suc, ℤ, pos, ◌≡◌, ◌≢◌, refl, sym, ap, ◌∙◌, inl, inr, List, [], ◌∷◌, ◌++◌, map, Memᴰ, Option,
  none, some, arith, mem_of_keep,
}
use configfs.Proto.{Config}
use configfs.Store.Db.{AclRow, ConfigRow, DirectoryRow, Db}
use configfs.Store.Configs.{touch_row}
use configfs.Store.Configs.Consistent.{touch_row_keeps}
use configfs.Store.Configs.Effects.{inserted, versioned, updated, deleted}
use configfs.Store.Directories.Deletion.{without_directory}
use configfs.Store.Numbers.{IsNumbered}
use configfs.Store.Numbers.Keys.{
  IsGiven-ne, Numbered-mono, Numbered-keep, Numbered-map, Numbered-add,
}

module _ {db : Db} (n : IsNumbered db) where
  pub inserted-IsNumbered : (now : ℕ) (c : Config) → IsNumbered (inserted now c db)
  inserted-IsNumbered now c = record {
    configs =
        Numbered-mono (suc db.inode) _ _ (omega arith)
          (Numbered-add db.inode (suc db.inode) db.config _ refl (omega arith) n.configs);
    contents =
        Numbered-add db.inode (suc (suc db.inode)) db.config_content _ refl (omega arith)
          n.contents;
    directories = Numbered-mono db.inode _ _ (omega arith) n.directories;
    apart = λ r d m i. elim (List.Memᴰ.append_cases db.config m) [
      | inl old ↦ n.apart r d old i
      | inr new ↦ λ e.
          IsGiven-ne d.id db.inode (suc db.inode) (n.directories.given d i) (omega arith)
            (sym e ∙ ap (λ (x : ConfigRow). x.id) (List.Memᴰ.eq_of_singleton new))
    ];
  }

  touched_apart :
      (k : ℤ) (now : ℕ) (v : Option ℤ) (r : ConfigRow) (d : DirectoryRow)
      → Memᴰ r (map (touch_row k now v) db.config)
      → Memᴰ d db.directory
      → r.id ≢ d.id
  touched_apart k now v r d m i e =
      let (a, j, q) = List.Memᴰ.of_map (touch_row k now v) db.config m in
      n.apart a d j i (sym (touch_row_keeps k now v a).0 ∙ ap (λ (x : ConfigRow). x.id) q ∙ e)

  versioned-IsNumbered :
      (k : ℤ) (now size : ℕ) (content : Option (List ℕ))
      → IsNumbered (versioned k now size content db)
  versioned-IsNumbered k now size none = record {
    configs =
        Numbered-map db.inode (touch_row k now none) db.config
          (λ r. (touch_row_keeps k now none r).0) n.configs;
    contents = n.contents;
    directories = n.directories;
    apart = touched_apart k now none;
  }
  versioned-IsNumbered k now size (some bytes) =
      let v = some (pos (suc db.inode)) in
      record {
        configs = Numbered-mono db.inode _ _ (omega arith) (
            Numbered-map db.inode (touch_row k now v) db.config (λ r. (touch_row_keeps k now v r).0)
              n.configs);
        contents =
            Numbered-add db.inode (suc db.inode) db.config_content _ refl (omega arith) n.contents;
        directories = Numbered-mono db.inode _ _ (omega arith) n.directories;
        apart = touched_apart k now v;
      }

  pub updated-IsNumbered : (k : ℤ) (now : ℕ) (c : Config) → IsNumbered (updated k now c db)
  updated-IsNumbered k now c =
      let v = versioned-IsNumbered k now c.content_size c.content in
      record {
        configs = v.configs;
        contents = v.contents;
        directories = v.directories;
        apart = v.apart;
      }

  pub deleted-IsNumbered : (k : ℤ) → IsNumbered (deleted k db)
  deleted-IsNumbered k = record {
    configs = Numbered-keep db.inode _ db.config n.configs;
    contents = Numbered-keep db.inode _ db.config_content n.contents;
    directories = n.directories;
    apart = λ r d m i. n.apart r d (mem_of_keep _ db.config r m).0 i;
  }

  pub without_directory-IsNumbered : (k : ℤ) → IsNumbered (without_directory k db)
  without_directory-IsNumbered k = record {
    configs = n.configs;
    contents = n.contents;
    directories = Numbered-keep db.inode _ db.directory n.directories;
    apart = λ r d m i. n.apart r d m (mem_of_keep _ db.directory d i).0;
  }

  -- the entries of directories have no ids of their own
  pub entries-IsNumbered : (acls : List AclRow) → IsNumbered (record db { directory_acl = acls })
  entries-IsNumbered acls = record {
    configs = n.configs;
    contents = n.contents;
    directories = n.directories;
    apart = n.apart;
  }

  -- a directory with the next id, and its entries
  pub grown-IsNumbered :
      (r : DirectoryRow) (acls : List AclRow)
      → r.id ≡ pos (suc db.inode)
      → IsNumbered (record db {
        inode = suc db.inode;
        directory = db.directory ++ r ∷ [];
        directory_acl = acls;
      })
  grown-IsNumbered r acls e = record {
    configs = Numbered-mono db.inode _ _ (omega arith) n.configs;
    contents = Numbered-mono db.inode _ _ (omega arith) n.contents;
    directories = Numbered-add db.inode (suc db.inode) db.directory r e (omega arith) n.directories;
    apart = λ c d m i. elim (List.Memᴰ.append_cases db.directory i) [
      | inl old ↦ n.apart c d m old
      | inr new ↦ λ q.
          IsGiven-ne c.id db.inode (suc db.inode) (n.configs.given c m) (omega arith)
            (q ∙ ap (λ (x : DirectoryRow). x.id) (List.Memᴰ.eq_of_singleton new) ∙ e)
    ];
  }
