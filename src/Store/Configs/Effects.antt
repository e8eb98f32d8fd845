-- ===== src/Store/Configs/Effects.antt =====
-- What the operations on configs have written when they return.
use mathlib.Core.Path.{ap₂}
use configfs.Prelude.{
  ℕ, suc, ℤ, pos, int_eq, ◌≡◌, refl, ◌∙◌, not, List, [], ◌∷◌, ◌++◌, map, Option, none, some, keep,
}
use configfs.Proto.{Config}
use configfs.Store.Db.{ConfigRow, ContentRow, Db}
use configfs.Store.Db.Ensures.{
  Ensures, Ensures-pure, Ensures-raise, Ensures-execute, Ensures-next_inode, Ensures-current_time,
  Ensures-bind, Ensures-weaken,
}
use configfs.Store.Acls.{of_config, is_recognised, acl_row, delete_acls, owned_by}
use configfs.Store.Acls.Laws.{replaced_rows, insert_acls-Ensures, replace_acls-Ensures}
use configfs.Store.Configs.{
  store_content, insert_config_row, insert_content_row, insert_config, touch_row, update_config_row,
  insert_version, update_parsed_config, delete_config_body,
}

abbrev content_or_empty : Option (List ℕ) → List ℕ
content_or_empty none = []
content_or_empty (some bytes) = bytes

-- The rows of a new config, given its id, the id of its first version and the time.
abbrev pub new_config_row : ℤ → ℤ → ℕ → Config → ConfigRow
new_config_row n v now c = record {
  id = n;
  name = c.name;
  path = c.path;
  current_content_id = some v;
  created_at = now;
  updated_at = now;
}

abbrev pub new_content_row : ℤ → ℤ → ℕ → ℕ → List ℕ → ContentRow
new_content_row n v now size bytes = record {
  id = v;
  config_id = n;
  content = bytes;
  content_size = size;
  created_at = now;
  updated_at = now;
}

-- The tables after an insertion.
abbrev pub inserted : ℕ → Config → Db → Db
inserted now c db =
    let n : ℤ = pos (suc db.inode) in
    let v : ℤ = pos (suc (suc db.inode)) in
    record {
      inode = suc (suc db.inode);
      config = db.config ++ new_config_row n v now c ∷ [];
      directory = db.directory;
      config_content =
          db.config_content
          ++ new_content_row n v now c.content_size (content_or_empty c.content) ∷ [];
      config_acl = db.config_acl ++ map (acl_row n) (keep is_recognised c.acls);
      directory_acl = db.directory_acl;
    }

store_content-Ensures :
    (o : Option (List ℕ)) (row : List ℕ → ContentRow) (db : Db) (now : ℕ)
    → Ensures
        (store_content o row)
        db
        now
        (λ _ db'. db' ≡ insert_content_row (row (content_or_empty o)) db)
unfolding store_content
store_content-Ensures none row db now = Ensures-raise _
store_content-Ensures (some bytes) row db now = Ensures-execute _ refl

pub insert_config-Ensures :
    (c : Config) (db : Db) (now : ℕ)
    → Ensures
        (insert_config c)
        db
        now
        (λ n db'. (n ≡ pos (suc db.inode)) × (db' ≡ inserted now c db))
unfolding insert_config insert_config_row insert_content_row
insert_config-Ensures c db now = Ensures-bind _ _ (
    Ensures-next_inode (
      Ensures-bind _ _ (
        Ensures-next_inode (
          Ensures-bind _ _ (
            Ensures-current_time (
              Ensures-bind _ _ (
                Ensures-execute _ (
                  Ensures-bind _ _ (
                    Ensures-weaken (store_content-Ensures c.content _ _ now) (λ _ db1 e1. rw e1 (
                      Ensures-bind _ _ (
                        Ensures-weaken (insert_acls-Ensures of_config _ c.acls _ now)
                          (λ _ db' e. Ensures-pure _ (refl, e))))))))))))))

-- The tables after an update of the config `n`.
abbrev pub versioned : ℤ → ℕ → ℕ → Option (List ℕ) → Db → Db
versioned n now size none db = record db { config = map (touch_row n now none) db.config }
versioned n now size (some bytes) db =
    let v : ℤ = pos (suc db.inode) in
    record db {
      inode = suc db.inode;
      config = map (touch_row n now (some v)) db.config;
      config_content = db.config_content ++ new_content_row n v now size bytes ∷ [];
    }

abbrev pub updated : ℤ → ℕ → Config → Db → Db
updated n now c db = record (versioned n now c.content_size c.content db) {
  config_acl = replaced_rows n c.acls db.config_acl;
}

-- The tables after the new version, if there is one, and the id of that version.
VersionWritten : ℤ → ℕ → ℕ → Option (List ℕ) → Db → Option ℤ → Db → Type 0
VersionWritten n now size none db v db' = (v ≡ none) × (db' ≡ db)
VersionWritten n now size (some bytes) db v db' =
    (v ≡ some (pos (suc db.inode)))
    × (db' ≡ record db {
      inode = suc db.inode;
      config_content =
          db.config_content ++ new_content_row n (pos (suc db.inode)) now size bytes ∷ [];
    })

insert_version-Ensures :
    (n : ℤ) (now size : ℕ) (content : Option (List ℕ)) (db : Db)
    → Ensures (insert_version n now size content) db now (VersionWritten n now size content db)
unfolding insert_version insert_content_row VersionWritten
insert_version-Ensures n now size none db = Ensures-pure _ (refl, refl)
insert_version-Ensures n now size (some bytes) db =
    Ensures-bind _ _
      (Ensures-next_inode (Ensures-bind _ _ (Ensures-execute _ (Ensures-pure _ (refl, refl)))))

VersionWritten-updated :
    (n : ℤ) (now size : ℕ) (content : Option (List ℕ)) (db : Db) (v : Option ℤ) (db1 : Db)
    → VersionWritten n now size content db v db1
    → (record db1 { config = map (touch_row n now v) db1.config } ≡ versioned n now size content db)
      × (db1.config_acl ≡ db.config_acl)
unfolding VersionWritten
VersionWritten-updated n now size none db v db1 (p, q) = rw (p, q) (refl, refl)
VersionWritten-updated n now size (some bytes) db v db1 (p, q) = rw (p, q) (refl, refl)

pub update_config-Ensures :
    (c : Config) (o : Option ℤ) (db : Db) (now : ℕ)
    → Ensures
        (update_parsed_config c o)
        db
        now
        (λ _ db'. (n : ℤ) × (o ≡ some n) × (db' ≡ updated n now c db))
unfolding update_parsed_config insert_content_row update_config_row
update_config-Ensures c none db now = Ensures-raise _
update_config-Ensures c (some n) db now = Ensures-bind _ _ (
    Ensures-current_time (
      Ensures-bind _ _ (
        Ensures-weaken (insert_version-Ensures n now c.content_size c.content db) (λ v db1 e.
          Ensures-bind _ _ (
            Ensures-execute _ (
              Ensures-weaken (replace_acls-Ensures of_config n c.acls _ now)
                (λ _ db' e'. (n, refl, written v db1 e db' e'))))))))
  where
    written :
        (v : Option ℤ) (db1 : Db)
        → VersionWritten n now c.content_size c.content db v db1
        → (db' : Db)
        → db' ≡ record db1 {
          config = map (touch_row n now v) db1.config;
          config_acl = replaced_rows n c.acls db1.config_acl;
        }
        → db' ≡ updated n now c db
    written v db1 e db' e' =
        let (p, q) = VersionWritten-updated n now c.content_size c.content db v db1 e in
        e' ∙ ap₂ (λ (d : Db) acl. record d { config_acl = replaced_rows n c.acls acl }) p q

-- The tables after a deletion of the config `n`.
abbrev pub deleted : ℤ → Db → Db
deleted n db = record db {
  config = keep (λ (r : ConfigRow). not (int_eq r.id n)) db.config;
  config_content = keep (λ (r : ContentRow). not (int_eq r.config_id n)) db.config_content;
  config_acl = keep (λ r. not (owned_by n r)) db.config_acl;
}

pub delete_config-Ensures :
    (n : ℤ) (db : Db) (now : ℕ)
    → Ensures (delete_config_body n) db now (λ _ db'. db' ≡ deleted n db)
unfolding delete_config_body delete_acls
delete_config-Ensures n db now =
    Ensures-bind _ _
      (Ensures-execute _ (Ensures-bind _ _ (Ensures-execute _ (Ensures-execute _ refl))))
