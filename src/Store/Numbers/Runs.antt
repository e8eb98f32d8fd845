-- ===== src/Store/Numbers/Runs.antt =====
-- Every operation of internal/store/sqlite/store.go keeps the numbering of the rows.
use configfs.Prelude.{ℕ, ℤ, ◌≡◌, refl, ◌⊎◌, inl, inr, not, List, [], ◌∷◌, Option, none, some}
use configfs.Strings.{Text, text_eq, cut_last, trim_space, contains}
use configfs.Strings.Decimal.{parse_int}
use configfs.Proto.{ConfigAcl, Config, Directory}
use configfs.Exec.{Result, ok, err, raise, pure, ◌>>=◌}
use configfs.Store.Db.{Db, World, Error, Op, name_required, directory_exists}
use configfs.Store.Db.Ensures.{
  Ensures, Ensures-pure, Ensures-raise, Ensures-execute, Ensures-next_inode, Ensures-if,
  Ensures-bind, Ensures-weaken,
}
use configfs.Store.Db.Reads.{IsRead, Ensures-IsRead}
use configfs.Store.Acls.{of_directory}
use configfs.Store.Acls.Laws.{insert_acls-Ensures}
use configfs.Store.Atomic.{
  Mutation, upsert_of, delete_of, create_directory_of, update_directory_of, delete_directory_of,
  run, run_atomic, Ensures-with_tx,
}
use configfs.Store.Configs.{
  upsert, upsert_body, delete_config, delete_parsed_config, delete_config_body,
}
use configfs.Store.Configs.Effects.{delete_config-Ensures}
use configfs.Store.Configs.Upsert.{UpsertEffect, upsert_body-Ensures}
use configfs.Store.Reads.{get_directories-IsRead, get_directory_by_id-IsRead}
use configfs.Store.Directories.{
  create_directory_row, create_one, create_missing, ensure_directories, return_created,
  create_directory_body, create_directory, new_directory_path, update_directory, delete_directory,
}
use configfs.Store.Directories.Deletion.{IsRemoved, delete_directory-Ensures}
use configfs.Store.Directories.Replacement.{IsReplaced, update_directory-Ensures}
use configfs.Store.Numbers.{IsNumbered}
use configfs.Store.Numbers.Steps.{
  inserted-IsNumbered, updated-IsNumbered, deleted-IsNumbered, without_directory-IsNumbered,
  entries-IsNumbered, grown-IsNumbered,
}

-- Where the operation returns, numbered tables are numbered after it.
abbrev Renumbers : {A : Type 0} → Op A → Db → ℕ → Type 0
Renumbers m db now = Ensures m db now (λ _ db'. IsNumbered db → IsNumbered db')

module _ {A : Type 0} where
  Renumbers-read : (m : Op A) (db : Db) (now : ℕ) → IsRead m → Renumbers m db now
  Renumbers-read m db now r = Ensures-IsRead r (λ _ n. n)

  Renumbers-pure : (a : A) (db : Db) (now : ℕ) → Renumbers (pure a) db now
  Renumbers-pure a db now = Ensures-pure a (λ n. n)

module _ {A B : Type 0} where
  Renumbers-bind :
      (m : Op A) (f : A → Op B) (db : Db) (now : ℕ)
      → Renumbers m db now
      → ((a : A) (db1 : Db) → Renumbers (f a) db1 now)
      → Renumbers (m >>= f) db now
  Renumbers-bind m f db now p q =
      Ensures-bind m f
        (Ensures-weaken p (λ a db1 n1. Ensures-weaken (q a db1) (λ _ _ n2 n. n2 (n1 n))))

create_directory_row-Renumbers :
    (path name : Text) (parent : Option Text) (acls : List ConfigAcl) (db : Db) (now : ℕ)
    → Renumbers (create_directory_row path name parent acls) db now
unfolding create_directory_row
create_directory_row-Renumbers path name parent acls db now = Ensures-bind _ _ (
    Ensures-next_inode (
      Ensures-bind _ _ (
        Ensures-execute _ (
          Ensures-bind _ _ (
            Ensures-weaken (insert_acls-Ensures of_directory _ acls _ now)
              (λ _ db' e. rw e (Ensures-pure _ (λ n. grown-IsNumbered n _ _ refl))))))))

create_one-Renumbers :
    (dirs : List Directory) (acls : List ConfigAcl) (o : Option (Text × Text)) (db : Db) (now : ℕ)
    → Renumbers (create_one dirs acls o) db now
unfolding create_one
create_one-Renumbers dirs acls none db now = Ensures-raise _
create_one-Renumbers dirs acls (some (before, name)) db now =
    Renumbers-bind _ _ db now (create_directory_row-Renumbers _ name _ acls db now)
      (λ d db1. Renumbers-pure _ db1 now)

create_missing-Renumbers :
    (dirs : List Directory) (acls : List ConfigAcl) (misses : List Text) (db : Db) (now : ℕ)
    → Renumbers (create_missing dirs acls misses) db now
unfolding create_missing
create_missing-Renumbers dirs acls [] db now = Renumbers-pure _ db now
create_missing-Renumbers dirs acls (miss ∷ misses) db now =
    Renumbers-bind _ _ db now (create_one-Renumbers dirs acls (cut_last miss) db now)
      (λ dirs' db1. create_missing-Renumbers dirs' acls misses db1 now)

ensure_directories-Renumbers :
    (path : Text) (acls : List ConfigAcl) (db : Db) (now : ℕ)
    → Renumbers (ensure_directories path acls) db now
unfolding ensure_directories
ensure_directories-Renumbers path acls db now =
    Renumbers-bind _ _ db now (Renumbers-read _ db now (get_directories-IsRead _))
      (λ found db1. create_missing-Renumbers found.0 acls _ db1 now)

return_created-Renumbers :
    (path : Text) (o : Option Directory) (db : Db) (now : ℕ)
    → Renumbers (return_created path o) db now
unfolding return_created
return_created-Renumbers path none db now = Ensures-raise _
return_created-Renumbers path (some d) db now =
    Renumbers-read _ db now (get_directory_by_id-IsRead d.id)

create_directory_body-Renumbers :
    (path : Text) (acls : List ConfigAcl) (db : Db) (now : ℕ)
    → Renumbers (create_directory_body path acls) db now
unfolding create_directory_body
create_directory_body-Renumbers path acls db now =
    Renumbers-bind _ _ db now (Renumbers-read _ db now (get_directories-IsRead _)) (λ found db1.
      Ensures-if (not (contains found.1 path)) (raise (directory_exists path)) _
        (λ _. Ensures-raise _)
        (λ _.
          Renumbers-bind _ _ db1 now (ensure_directories-Renumbers path acls db1 now)
            (λ dirs db2. return_created-Renumbers path _ db2 now)))

module _ {A : Type 0} (m : Op A) (db : Db) (now : ℕ) where
  -- An operation that has changed nothing, or has an effect that renumbers.
  Renumbers-of_effect :
      {Q : Db → Type 0}
      → Ensures m db now (λ _ db'. ((Unit {0}) × (db' ≡ db)) ⊎ Q db')
      → ((db' : Db) → Q db' → IsNumbered db → IsNumbered db')
      → Renumbers m db now
  Renumbers-of_effect p h =
      Ensures-weaken p (λ _ db' done n. elim done [ inl (_, same) ↦ rw same n | inr q ↦ h db' q n ])

create_directory-Renumbers :
    (d : Directory) (db : Db) (now : ℕ) → Renumbers (create_directory d) db now
unfolding create_directory
create_directory-Renumbers d db now =
    Ensures-if (text_eq (trim_space d.name) []) (raise name_required) _ (λ _. Ensures-raise _)
      (λ _.
        Renumbers-of_effect _ db now
          (Ensures-with_tx _ (
            create_directory_body-Renumbers (new_directory_path d.path (trim_space d.name)) d.acls
              db now))
          (λ db' h. h))

upserted-IsNumbered :
    (c : Config) (now : ℕ) (db db' : Db)
    → UpsertEffect c now db db'
    → IsNumbered db
    → IsNumbered db'
upserted-IsNumbered c now db db' (UpsertEffect.insertion _ _ e) n =
    rw e (inserted-IsNumbered n now c)
upserted-IsNumbered c now db db' (UpsertEffect.change row _ _ _ _ e) n =
    rw e (updated-IsNumbered n row.id now c)

upsert-Renumbers : (c : Config) (db : Db) (now : ℕ) → Renumbers (upsert c) db now
unfolding upsert
upsert-Renumbers c db now =
    Renumbers-of_effect _ db now (Ensures-with_tx (upsert_body c) (upsert_body-Ensures c db now))
      (upserted-IsNumbered c now db)

delete_parsed-Renumbers :
    (id : Text) (o : Option ℤ) (db : Db) (now : ℕ) → Renumbers (delete_parsed_config id o) db now
unfolding delete_parsed_config
delete_parsed-Renumbers id none db now = Ensures-raise _
delete_parsed-Renumbers id (some k) db now =
    Renumbers-of_effect _ db now
      (Ensures-with_tx (delete_config_body k) (delete_config-Ensures k db now))
      (λ db' e n. rw e (deleted-IsNumbered n k))

update_directory-Renumbers :
    (d : Directory) (db : Db) (now : ℕ) → Renumbers (update_directory d) db now
unfolding IsReplaced
update_directory-Renumbers d db now =
    Renumbers-of_effect _ db now (update_directory-Ensures d db now)
      (λ db' (r, m, p, q, s, e) n. rw e (entries-IsNumbered n _))

delete_directory-Renumbers :
    (id : Text) (db : Db) (now : ℕ) → Renumbers (delete_directory id) db now
unfolding IsRemoved
delete_directory-Renumbers id db now =
    Renumbers-of_effect _ db now (delete_directory-Ensures id db now)
      (λ db' (r, m, p, q, e) n. rw e (without_directory-IsNumbered n r.id))

-- An operation that fails has changed nothing.
renumbered :
    {A : Type 0} (m : Op A) (w : World) (r : Result Error A)
    → (m w).0 ≡ r
    → Renumbers m w.db w.now
    → ((e : Error) → (m w).0 ≡ err e → (m w).1.db ≡ w.db)
    → IsNumbered w.db
    → IsNumbered (m w).1.db
renumbered m w (ok a) h p undone n = (p.post w refl refl a h (λ _. tt)).0 n
renumbered m w (err e) h p undone n = rw (undone e h) n

-- Where in each table every id is at most the counter and names one row, and no config shares its id
-- with a directory, that is so after any operation, whatever statements fail.
pub run-IsNumbered : (m : Mutation) (w : World) → IsNumbered w.db → IsNumbered (run m w).1.db
unfolding run delete_config
run-IsNumbered (upsert_of c) w n =
    renumbered (upsert c) w _ refl (upsert-Renumbers c w.db w.now)
      (λ e h. run_atomic (upsert_of c) w e (rw h refl)) n
run-IsNumbered (delete_of id) w n =
    renumbered (delete_config id) w _ refl (delete_parsed-Renumbers id (parse_int id) w.db w.now)
      (λ e h. run_atomic (delete_of id) w e (rw h refl)) n
run-IsNumbered (create_directory_of d) w n =
    renumbered (create_directory d) w _ refl (create_directory-Renumbers d w.db w.now)
      (λ e h. run_atomic (create_directory_of d) w e (rw h refl)) n
run-IsNumbered (update_directory_of d) w n =
    renumbered (update_directory d) w _ refl (update_directory-Renumbers d w.db w.now)
      (λ e h. run_atomic (update_directory_of d) w e (rw h refl)) n
run-IsNumbered (delete_directory_of id) w n =
    renumbered (delete_directory id) w _ refl (delete_directory-Renumbers id w.db w.now)
      (λ e h. run_atomic (delete_directory_of id) w e (rw h refl)) n
