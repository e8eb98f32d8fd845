-- ===== src/Api/Handlers/Writing.antt =====
-- What SetConfig and DeleteConfig of internal/api/server.go let a caller write.
use configfs.Prelude.{
  ℕ, ℤ, ◌≡◌, refl, sym, ap, ◌∙◌, ◌⊎◌, true, false, not, List, [], Memᴰ, Option, none, some, arith,
}
use configfs.Strings.{Text, text_eq}
use configfs.Strings.Laws.{eq_of_text_eq}
use configfs.Strings.Decimal.{parse_int}
use configfs.Proto.{acl_write, Config, config_allows, full_path, allows_or_nil}
use configfs.Proto.Access.{Granted, config_allows_iff}
use configfs.Exec.{ok, raise}
use configfs.Store.Db.{ConfigRow, DirectoryRow, Db, World}
use configfs.Store.Db.Ensures.{
  Yields, Yields-weaken, Ensures, Ensures-raise, Ensures-if, Ensures-bind, Ensures-weaken,
}
use configfs.Store.Acls.{acls_of}
use configfs.Store.Atomic.{Lost, Ensures-with_tx}
use configfs.Store.Directories.{directory_of}
use configfs.Store.Directories.Chain.{directory_at}
use configfs.Store.Configs.{
  config_of, upsert, upsert_body, delete_config, delete_parsed_config, delete_config_body,
}
use configfs.Store.Configs.Effects.{deleted, delete_config-Ensures}
use configfs.Store.Configs.Lookup.{Loaded, Found, get_config_by_id-Ensures}
use configfs.Store.Configs.Upsert.{UpsertEffect, upsert_body-Ensures}
use configfs.Api.Server.{Server, can_create, invalid_argument, permission_denied}
use configfs.Api.Gates.{is_root, Containing, the_root, existing_directory, no_directory}
use configfs.Api.Gates.Meaning.{Grants, IsContaining, containing_directory-Ensures}
use configfs.Api.Handlers.{unless, write_gate, containing_gate, set_config_rpc, delete_config_rpc}
use configfs.Api.Handlers.Reading.{Ensures-call, Ensures-require_some, Ensures-unless}

-- The config is stored under that id, and its stored entries grant the caller WRITE.
unfoldable pub IsWritable : List Text → Text → Db → Type 0
IsWritable tags id db =
    (row : ConfigRow) × Memᴰ row db.config
    × (parse_int id ≡ some row.id)
    × Granted tags acl_write (acls_of row.id db.config_acl)

-- A change needs WRITE of the stored config, a creation needs the allow-list.
pub data MayStore (s : Server) (tags : List Text) (id : Text) (db : Db) : Type 0 where
  may_change : IsWritable tags id db → MayStore s tags id db
  may_create : id ≡ [] → can_create s tags ≡ true → MayStore s tags id db

-- The path is the root, or the full path of a stored directory that grants WRITE.
pub data MayWriteInto (tags : List Text) (path : Text) (db : Db) : Type 0 where
  into_root : is_root path ≡ true → MayWriteInto tags path db
  into_directory :
      (r : DirectoryRow)
      → Memᴰ r db.directory
      → full_path (directory_at db r) ≡ path
      → Grants tags acl_write db r
      → MayWriteInto tags path db

IsWritable-of_Found :
    (tags : List Text) (id : Text) (db : Db) (conf : Config)
    → Found id false [] db (some conf)
    → config_allows tags acl_write conf.acls ≡ true
    → IsWritable tags id db
unfolding IsWritable Found Loaded config_of
IsWritable-of_Found tags id db conf (row, m, p, e) h = (
  row,
  m,
  p,
  (config_allows_iff tags acl_write (acls_of row.id db.config_acl)).0
      (rw (ap (λ (c : Config). c.acls) e) at h),
)

write_gate-Ensures :
    (s : Server) (tags : List Text) (conf : Config) (db : Db) (now : ℕ)
    → Ensures (write_gate s tags conf) db now (λ _ db'. (db' ≡ db) × MayStore s tags conf.id db)
unfolding write_gate
write_gate-Ensures s tags conf db now =
    Ensures-if (not (text_eq conf.id [])) _ (unless (can_create s tags) permission_denied)
      (λ _. Ensures-bind _ _ (
        Ensures-weaken (Ensures-call _ _ (get_config_by_id-Ensures conf.id false [] db now))
          (λ o db1 (same, found). rw same (
            Ensures-bind _ _ (
              Ensures-require_some o (λ existing is_existing.
                Ensures-unless (config_allows tags acl_write existing.acls) permission_denied
                  (λ allowed. (
                    refl,
                    MayStore.may_change (
                        IsWritable-of_Found tags conf.id db existing (rw is_existing at found)
                          allowed),
                  ))))))))
      (λ new. Ensures-unless (can_create s tags) permission_denied (λ allowed.
        (refl, MayStore.may_create (eq_of_text_eq conf.id [] (ground (arith, new))) allowed)))

containing_gate-Ensures :
    (tags : List Text) (path : Text) (c : Containing) (db : Db) (now : ℕ)
    → IsContaining path db c
    → Ensures (containing_gate tags c) db now (λ _ db'. (db' ≡ db) × MayWriteInto tags path db)
unfolding containing_gate IsContaining allows_or_nil directory_of
containing_gate-Ensures tags path no_directory db now i = Ensures-raise _
containing_gate-Ensures tags path the_root db now at =
    Ensures-unless (allows_or_nil tags acl_write none) permission_denied
      (λ _. (refl, MayWriteInto.into_root at))
containing_gate-Ensures tags path (existing_directory d) db now (r, m, e, at) =
    Ensures-unless (allows_or_nil tags acl_write (some d)) permission_denied (λ allowed.
      (refl, MayWriteInto.into_directory r m (ap full_path (sym e) ∙ at) (rw e at allowed)))

set_config-Ensures :
    {L : Type 0} (s : Server) (tags : List Text) (conf : Config) (db : Db) (now : ℕ)
    → Yields L (set_config_rpc s tags (some conf)) db now (λ _ db'.
      MayStore s tags conf.id db
      × MayWriteInto tags conf.path db
      × ((L × (db' ≡ db)) ⊎ UpsertEffect conf now db db'))
unfolding set_config_rpc upsert
set_config-Ensures s tags conf db now = Ensures-bind _ _ (
    Ensures-weaken (write_gate-Ensures s tags conf db now) (λ _ db1 (same, may). rw same (
      Ensures-bind _ _ (
        Ensures-weaken (Ensures-call _ _ (containing_directory-Ensures conf.path db now))
          (λ c db2 (same2, is_c). rw same2 (
            Ensures-bind _ _ (
              Ensures-weaken (containing_gate-Ensures tags conf.path c db now is_c)
                (λ _ db3 (same3, into). rw same3 (
                  Yields-weaken
                    (Ensures-call _ _
                      (Ensures-with_tx (upsert_body conf) (upsert_body-Ensures conf db now)))
                    (λ _ db' done. (may, into, done)))))))))))

-- Whatever statements fail: where SetConfig returns, the caller may write the stored config with the
-- given id, or, where no id is given, is on the allow-list of creations or there is none; and the given
-- path is the root or a stored directory that grants the caller WRITE or has no entries. The tables are changed as by an Upsert of
-- the config, or a statement of the run has failed, as a commit can
-- without an error, and no table has changed.
pub set_config_rpc_safe :
    (s : Server) (tags : List Text) (conf : Config) (w : World) (r : Option Config)
    → (set_config_rpc s tags (some conf) w).0 ≡ ok r
    → MayStore s tags conf.id w.db
      × MayWriteInto tags conf.path w.db
      × (Lost w (set_config_rpc s tags (some conf) w).1
          ⊎ UpsertEffect conf w.now w.db (set_config_rpc s tags (some conf) w).1.db)
set_config_rpc_safe s tags conf w r h =
    ((set_config-Ensures s tags conf w.db w.now).post w refl refl r h (λ x. x)).0

-- The tables without the config of that id, its versions and its entries.
abbrev pub IsDeleted : Text → Db → Db → Type 0
IsDeleted id db db' = (n : ℤ) × (parse_int id ≡ some n) × (db' ≡ deleted n db)

delete_parsed-Ensures :
    {L : Type 0} (id : Text) (o : Option ℤ) (db : Db) (now : ℕ)
    → parse_int id ≡ o
    → Yields L (delete_parsed_config id o) db now (λ _ db'. (L × (db' ≡ db)) ⊎ IsDeleted id db db')
unfolding delete_parsed_config
delete_parsed-Ensures id none db now p = Ensures-raise _
delete_parsed-Ensures id (some n) db now p =
    Ensures-with_tx (delete_config_body n)
      (Ensures-weaken (delete_config-Ensures n db now) (λ _ db' e. (n, p, e)))

delete_config_rpc-Ensures :
    {L : Type 0} (tags : List Text) (id : Text) (db : Db) (now : ℕ)
    → Yields L
        (delete_config_rpc tags id)
        db
        now
        (λ _ db'. IsWritable tags id db × ((L × (db' ≡ db)) ⊎ IsDeleted id db db'))
unfolding delete_config_rpc delete_config
delete_config_rpc-Ensures tags id db now =
    Ensures-if (text_eq id []) (raise invalid_argument) _ (λ _. Ensures-raise _)
      (λ _. Ensures-bind _ _ (
        Ensures-weaken (Ensures-call _ _ (get_config_by_id-Ensures id false [] db now))
          (λ o db1 (same, found). rw same (
            Ensures-bind _ _ (
              Ensures-require_some o (λ existing is_existing. Ensures-bind _ _ (
                Ensures-unless (config_allows tags acl_write existing.acls) permission_denied
                  (λ allowed.
                    Yields-weaken
                      (Ensures-call _ _ (delete_parsed-Ensures id (parse_int id) db now refl))
                      (λ _ db' done. (
                        IsWritable-of_Found tags id db existing (rw is_existing at found) allowed,
                        done,
                      ))))))))))

-- Whatever statements fail: where DeleteConfig returns, the entries of the stored config with the
-- given id grant the caller WRITE, and exactly that config, its versions and its entries are gone,
-- or a statement of the run has failed, as a commit can
-- without an error, and no table has changed.
pub delete_config_rpc_safe :
    (tags : List Text) (id : Text) (w : World)
    → (delete_config_rpc tags id w).0 ≡ ok tt
    → IsWritable tags id w.db
      × (Lost w (delete_config_rpc tags id w).1
          ⊎ IsDeleted id w.db (delete_config_rpc tags id w).1.db)
delete_config_rpc_safe tags id w h =
    ((delete_config_rpc-Ensures tags id w.db w.now).post w refl refl tt h (λ x. x)).0
