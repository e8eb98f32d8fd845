-- ===== src/Store/Configs/Upsert.antt =====
-- What Upsert of internal/store/sqlite/store.go has done when it returns.
use mathlib.Core.Option.{some-injective}
use configfs.Prelude.{
  ℕ, ℤ, ◌≡◌, ◌≢◌, ◌⊎◌, inl, inr, refl, sym, ap, ◌∙◌, false, not, [], Memᴰ, Option, none, some,
  arith, find, not_of_find-none, Option-cases,
}
use configfs.Strings.{Text, text_eq}
use configfs.Strings.Laws.{text_eq_iff, eq_of_text_eq}
use configfs.Strings.Decimal.{parse_int, format_int, parse_int-IsInt64, parse_int-format_int}
use configfs.Proto.{Config}
use configfs.Exec.{ok, raise}
use configfs.Store.Db.{ConfigRow, Db, World, name_mismatch, path_mismatch, panicked}
use configfs.Store.Db.Reads.{Ensures-IsRead}
use configfs.Store.Db.Ensures.{
  Ensures, Ensures-pure, Ensures-raise, Ensures-query, Ensures-if, Ensures-bind, Ensures-weaken,
}
use configfs.Store.Reads.{require_directory_exists-IsRead, get_config_by_id-IsRead}
use configfs.Store.Atomic.{Lost, Ensures-with_tx}
use configfs.Store.Configs.{
  without_acls, select_row, select_first, at_path_and_name, config_of, get_config_by_path_and_name,
  update_config, upsert_new, upsert_existing, upsert_inode, upsert_body, upsert,
}
use configfs.Store.Configs.Effects.{inserted, updated, insert_config-Ensures, update_config-Ensures}
use configfs.Store.Configs.Lookup.{message_of, Loaded, Found, get_config_by_id-Ensures}

-- No stored config has this path and this name.
pub IsFree : Text → Text → Db → Type 0
IsFree path name db = (c : ConfigRow) → Memᴰ c db.config → c.path ≡ path → c.name ≢ name

-- What an Upsert does: it inserts a config at a free path and name, or it updates the stored config
-- with the given id, whose name and path are the given ones.
pub data UpsertEffect (c : Config) (now : ℕ) (db : Db) : Db → Type 0 where
  insertion :
      {db' : Db}
      → c.id ≡ []
      → IsFree c.path c.name db
      → db' ≡ inserted now c db
      → UpsertEffect c now db db'
  change :
      {db' : Db} (row : ConfigRow)
      → Memᴰ row db.config
      → parse_int c.id ≡ some row.id
      → row.name ≡ c.name
      → row.path ≡ c.path
      → db' ≡ updated row.id now c db
      → UpsertEffect c now db db'

IsFree-of_find :
    (path name : Text) (db : Db)
    → find (at_path_and_name path name) db.config ≡ none
    → IsFree path name db
unfolding IsFree at_path_and_name
IsFree-of_find path name db h c m p q =
    let refused = not_of_find-none (at_path_and_name path name) db.config c h m in
    ground (arith, text_eq_iff c.name name, text_eq_iff c.path path)

IsFree-of_lookup :
    (path name : Text) (db : Db)
    → without_acls (select_first (at_path_and_name path name) db) ≡ none
    → IsFree path name db
unfolding select_first
IsFree-of_lookup path name db h =
    elim (Option-cases (find (at_path_and_name path name) db.config)) [
      | inl absent ↦ IsFree-of_find path name db absent
      | inr (c, found) ↦ cc (rw (found, select_first) at h)
    ]

get_config_by_path_and_name-Ensures :
    (path name : Text) (db : Db) (now : ℕ)
    → Ensures
        (get_config_by_path_and_name path name)
        db
        now
        (λ o db'. (db' ≡ db) × (o ≡ none → IsFree path name db))
unfolding get_config_by_path_and_name
get_config_by_path_and_name-Ensures path name db now =
    Ensures-bind _ _ (Ensures-query _ (Ensures-pure _ (refl, IsFree-of_lookup path name db)))

upsert_new-Ensures :
    (c : Config) (o : Option Config) (db : Db) (now : ℕ)
    → c.id ≡ []
    → (o ≡ none → IsFree c.path c.name db)
    → Ensures (upsert_new c o) db now (λ _ db'. UpsertEffect c now db db')
unfolding upsert_new
upsert_new-Ensures c none db now no_id free =
    Ensures-weaken (insert_config-Ensures c db now)
      (λ n db' (_, e). UpsertEffect.insertion no_id (free refl) e)
upsert_new-Ensures c (some existing) db now no_id free = Ensures-raise _

-- The id of a message is that of its row, printed.
parse_message_id :
    (db : Db) (row : ConfigRow) (id : Text) (n : ℤ)
    → parse_int id ≡ some row.id
    → parse_int (message_of db row).id ≡ some n
    → n ≡ row.id
unfolding config_of select_row
parse_message_id db row id n p q =
    some-injective _ _ (sym q ∙ parse_int-format_int row.id (parse_int-IsInt64 id row.id p))

message-name : (db : Db) (row : ConfigRow) (m : Config) → m ≡ message_of db row → m.name ≡ row.name
unfolding config_of select_row
message-name db row m e = ap (λ (c : Config). c.name) e

message-path : (db : Db) (row : ConfigRow) (m : Config) → m ≡ message_of db row → m.path ≡ row.path
unfolding config_of select_row
message-path db row m e = ap (λ (c : Config). c.path) e

upsert_existing-Ensures :
    (c : Config) (o : Option Config) (db : Db) (now : ℕ)
    → Found c.id false [] db o
    → Ensures (upsert_existing c o) db now (λ _ db'. UpsertEffect c now db db')
unfolding upsert_existing
upsert_existing-Ensures c none db now found =
    Ensures-if (not (text_eq [] c.name)) (raise (name_mismatch [])) _ (λ _. Ensures-raise _)
      (λ _.
        Ensures-if (not (text_eq [] c.path)) (raise (path_mismatch [])) (raise panicked)
          (λ _. Ensures-raise _) (λ _. Ensures-raise _))
upsert_existing-Ensures c (some existing) db now found =
    unfold Found Loaded in
    let (row, stored, p, e) = found in
    Ensures-if (not (text_eq existing.name c.name)) (raise (name_mismatch existing.name)) _
      (λ _. Ensures-raise _)
      (λ same_name.
        Ensures-if (not (text_eq existing.path c.path)) (raise (path_mismatch existing.path)) _
          (λ _. Ensures-raise _)
          (λ same_path.
            unfold update_config in
            Ensures-bind _ _ (
              Ensures-weaken (update_config-Ensures _ _ db now) (λ _ db' (n, q, eq).
                Ensures-pure _ (
                  UpsertEffect.change row stored p
                    (sym (message-name db row existing e)
                      ∙ eq_of_text_eq existing.name c.name (ground arith))
                    (sym (message-path db row existing e)
                      ∙ eq_of_text_eq existing.path c.path (ground arith))
                    (eq
                      ∙ ap (λ k. updated k now c db)
                          (parse_message_id db row c.id n p (rw e at q))))))))

upsert_inode-Ensures :
    (c : Config) (db : Db) (now : ℕ)
    → Ensures (upsert_inode c) db now (λ _ db'. UpsertEffect c now db db')
unfolding upsert_inode
upsert_inode-Ensures c db now =
    Ensures-if (text_eq c.id []) _ _
      (λ no_id. Ensures-bind _ _ (
        Ensures-weaken (get_config_by_path_and_name-Ensures c.path c.name db now)
          (λ o db1 (same, free).
            rw same (upsert_new-Ensures c o db now (eq_of_text_eq c.id [] no_id) free))))
      (λ _. Ensures-bind _ _ (
        Ensures-weaken (get_config_by_id-Ensures c.id false [] db now)
          (λ o db1 (same, found). rw same (upsert_existing-Ensures c o db now found))))

pub upsert_body-Ensures :
    (c : Config) (db : Db) (now : ℕ)
    → Ensures (upsert_body c) db now (λ _ db'. UpsertEffect c now db db')
unfolding upsert_body
upsert_body-Ensures c db now = Ensures-bind _ _ (
    Ensures-IsRead (require_directory_exists-IsRead c.path) (λ _. Ensures-bind _ _ (
      Ensures-weaken (upsert_inode-Ensures c db now) (λ n db' done.
        Ensures-IsRead (get_config_by_id-IsRead (format_int n) false []) (λ _. done)))))

-- Whatever statements fail: an Upsert that returns has inserted the config at a path and name that
-- were free, or updated the stored config with the given id, whose name and path are the given
-- ones; or a statement of the run has failed, as a commit can without an error, and every table is as
-- before.
pub upsert_sound :
    (c : Config) (w : World) (r : Option Config)
    → (upsert c w).0 ≡ ok r
    → Lost w (upsert c w).1 ⊎ UpsertEffect c w.now w.db (upsert c w).1.db
unfolding upsert
upsert_sound c w r h =
    let body = Ensures-with_tx (upsert_body c) (upsert_body-Ensures c w.db w.now) in
    (body.post w refl refl r h (λ x. x)).0
