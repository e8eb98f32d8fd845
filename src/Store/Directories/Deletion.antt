-- ===== src/Store/Directories/Deletion.antt =====
-- What a deletion of a directory has checked (DeleteDirectory of internal/store/sqlite/store.go).
use mathlib.Core.Option.{some-injective}
use configfs.Prelude.{
  ℕ, ℤ, int_eq, int_eq_iff, int_eq_refl, ◌≡◌, ◌≢◌, refl, sym, ap, ◌∙◌, ◌⊎◌, inl, inr, Bool, false,
  not, List, [], ◌∷◌, ◌++◌, Memᴰ, Option, none, some, arith, any, any_iff, find, find_passes,
  mem_of_find, keep, append_assoc, Bool-cases,
}
use configfs.Strings.{Text, slash, has_prefix}
use configfs.Strings.Like.{like_of_has_prefix}
use configfs.Strings.Laws.{text_eq_iff}
use configfs.Strings.Decimal.{parse_int}
use configfs.Proto.{Directory, full_path}
use configfs.Exec.{ok, raise}
use configfs.Store.Db.{ConfigRow, DirectoryRow, Db, World, has_subdirectories, has_configs}
use configfs.Store.Db.Ensures.{
  Yields, Ensures, Ensures-pure, Ensures-raise, Ensures-query, Ensures-execute, Ensures-if,
  Ensures-bind, Ensures-weaken,
}
use configfs.Store.Acls.{of_directory, owned_by, acls_for_owner, delete_acls}
use configfs.Store.Atomic.{Lost, Ensures-with_tx}
use configfs.Store.Directories.{
  directory_of, directory_with_acls, parsed_directory, get_directory_by_id, has_parent,
  config_under, delete_found_directory, delete_directory_body, delete_parsed_directory,
  delete_directory,
}
use configfs.Store.Directories.Chain.{directory_at, load_acls-Ensures}

-- The directory that an id names, as it is stored.
abbrev pub IsAt : Text → Db → Directory → Type 0
IsAt id db d =
    (r : DirectoryRow) × Memᴰ r db.directory × (parse_int id ≡ some r.id) × (d ≡ directory_at db r)

row_with_acls :
    (r : DirectoryRow) (db : Db) (now : ℕ)
    → Ensures
        (directory_with_acls (some r))
        db
        now
        (λ o db'. (db' ≡ db) × (o ≡ some (directory_at db r)))
unfolding directory_with_acls acls_for_owner directory_of
row_with_acls r db now = Ensures-bind _ _ (
    Ensures-bind _ _ (
      Ensures-weaken (load_acls-Ensures of_directory (r.id ∷ []) db now) (λ f db1 (same, loaded).
        rw same (Ensures-pure _ (Ensures-pure _ (refl, rw (loaded r.id (Memᴰ.head refl)) refl))))))

selected_directory :
    (id : Text) (n : ℤ) (db : Db) (now : ℕ) (o : Option DirectoryRow)
    → parse_int id ≡ some n
    → find (λ (r : DirectoryRow). int_eq r.id n) db.directory ≡ o
    → Ensures
        (directory_with_acls o)
        db
        now
        (λ o db'. (db' ≡ db) × ((d : Directory) → o ≡ some d → IsAt id db d))
selected_directory id n db now none p h =
    unfold directory_with_acls in Ensures-pure none (refl, λ d e. cc)
selected_directory id n db now (some r) p h =
    let m = mem_of_find (λ (r : DirectoryRow). int_eq r.id n) db.directory r h in
    let e =
      (int_eq_iff r.id n).0 (find_passes (λ (r : DirectoryRow). int_eq r.id n) db.directory r h) in
    Ensures-weaken (row_with_acls r db now) (λ o db' (same, is_o).
      (same, λ d eq. (r, m, p ∙ ap some (sym e), some-injective _ _ (sym eq ∙ is_o))))

parsed_directory-Ensures :
    (id : Text) (o : Option ℤ) (db : Db) (now : ℕ)
    → parse_int id ≡ o
    → Ensures
        (parsed_directory id o)
        db
        now
        (λ o db'. (db' ≡ db) × ((d : Directory) → o ≡ some d → IsAt id db d))
unfolding parsed_directory
parsed_directory-Ensures id none db now p = Ensures-raise _
parsed_directory-Ensures id (some n) db now p =
    Ensures-bind _ _ (Ensures-query _ (selected_directory id n db now _ p refl))

pub get_directory_by_id-Ensures :
    (id : Text) (db : Db) (now : ℕ)
    → Ensures
        (get_directory_by_id id)
        db
        now
        (λ o db'. (db' ≡ db) × ((d : Directory) → o ≡ some d → IsAt id db d))
unfolding get_directory_by_id
get_directory_by_id-Ensures id db now = parsed_directory-Ensures id (parse_int id) db now refl

-- No stored directory has this one as its parent, and no stored config is in it or below it.
pub record IsEmpty (n : ℤ) (path : Text) (db : Db) : Type 0 where
  pub no_child : (r : DirectoryRow) → Memᴰ r db.directory → r.parent_id ≢ some n
  pub no_config : (c : ConfigRow) → Memᴰ c db.config → c.path ≢ path
  pub none_below :
      (c : ConfigRow) → Memᴰ c db.config → has_prefix c.path (path ++ slash ∷ []) ≡ false

refused :
    {A : Type 0} (p : A → Bool) (xs : List A) (a : A) → any p xs ≡ false → Memᴰ a xs → p a ≡ false
refused p xs a h m = elim (Bool-cases (p a)) [
  | inl yes_a ↦ cc (rw ((any_iff p xs).1 (a, m, yes_a)) at h)
  | inr no_a ↦ no_a
]

has_parent_lem : (n : ℤ) (r : DirectoryRow) → has_parent n r ≡ false → r.parent_id ≢ some n
unfolding has_parent
has_parent_lem n r h e = cc (rw (e, int_eq_refl n) at h)

config_under_lem :
    (path : Text) (c : ConfigRow)
    → config_under path c ≡ false
    → (c.path ≢ path) × (has_prefix c.path (path ++ slash ∷ []) ≡ false)
unfolding config_under
config_under_lem path c h = (
  (λ e. ground (arith, text_eq_iff c.path path)),
  elim (Bool-cases (has_prefix c.path (path ++ slash ∷ []))) [
    | inl below ↦
        let found = like_of_has_prefix (path ++ slash ∷ []) c.path below in
        ground (arith, rw append_assoc at found)
    | inr not_below ↦ not_below
  ],
)

IsEmpty-of_counts :
    (n : ℤ) (path : Text) (db : Db)
    → any (has_parent n) db.directory ≡ false
    → any (config_under path) db.config ≡ false
    → IsEmpty n path db
IsEmpty-of_counts n path db h k = record {
  no_child = λ r m. has_parent_lem n r (refused (has_parent n) db.directory r h m);
  no_config = λ c m. (config_under_lem path c (refused (config_under path) db.config c k m)).0;
  none_below = λ c m. (config_under_lem path c (refused (config_under path) db.config c k m)).1;
}

-- The tables without the directory and its entries.
abbrev pub without_directory : ℤ → Db → Db
without_directory n db = record db {
  directory = keep (λ (r : DirectoryRow). not (int_eq r.id n)) db.directory;
  directory_acl = keep (λ r. not (owned_by n r)) db.directory_acl;
}

-- The deletion of an empty directory.
unfoldable pub IsRemoved : Text → Db → Db → Type 0
IsRemoved id db db' =
    (r : DirectoryRow) × Memᴰ r db.directory
    × (parse_int id ≡ some r.id)
    × IsEmpty r.id (full_path (directory_at db r)) db
    × (db' ≡ without_directory r.id db)

delete_found-Ensures :
    (id : Text) (n : ℤ) (o : Option Directory) (db : Db) (now : ℕ)
    → parse_int id ≡ some n
    → ((d : Directory) → o ≡ some d → IsAt id db d)
    → Ensures (delete_found_directory id n o) db now (λ _ db'. IsRemoved id db db')
unfolding delete_found_directory delete_acls IsRemoved
delete_found-Ensures id n none db now p at = Ensures-raise _
delete_found-Ensures id n (some existing) db now p at =
    let (r, m, q, e) = at existing refl in
    let same = some-injective _ _ (sym p ∙ q) in
    Ensures-bind _ _ (
      Ensures-query _ (
        Ensures-if (any (has_parent n) db.directory)
          (raise (has_subdirectories (full_path existing))) _ (λ _. Ensures-raise _)
          (λ no_child. Ensures-bind _ _ (
            Ensures-query _ (
              Ensures-if (any (config_under (full_path existing)) db.config)
                (raise (has_configs (full_path existing))) _ (λ _. Ensures-raise _)
                (λ no_config. Ensures-bind _ _ (
                  Ensures-execute _ (
                    Ensures-execute _ (
                      r,
                      m,
                      q,
                      IsEmpty-of_counts r.id (full_path (directory_at db r)) db
                          (rw same at no_child) (rw e at no_config),
                      ap (λ k. without_directory k db) same,
                    )))))))))

delete_body-Ensures :
    (id : Text) (n : ℤ) (db : Db) (now : ℕ)
    → parse_int id ≡ some n
    → Ensures (delete_directory_body id n) db now (λ _ db'. IsRemoved id db db')
unfolding delete_directory_body
delete_body-Ensures id n db now p = Ensures-bind _ _ (
    Ensures-weaken (get_directory_by_id-Ensures id db now)
      (λ o db1 (same, at). rw same (delete_found-Ensures id n o db now p at)))

delete_parsed-Ensures :
    {L : Type 0} (id : Text) (o : Option ℤ) (db : Db) (now : ℕ)
    → parse_int id ≡ o
    → Yields L
        (delete_parsed_directory id o)
        db
        now
        (λ _ db'. (L × (db' ≡ db)) ⊎ IsRemoved id db db')
unfolding delete_parsed_directory
delete_parsed-Ensures id none db now p = Ensures-raise _
delete_parsed-Ensures id (some n) db now p =
    Ensures-with_tx (delete_directory_body id n) (delete_body-Ensures id n db now p)

pub delete_directory-Ensures :
    {L : Type 0} (id : Text) (db : Db) (now : ℕ)
    → Yields L (delete_directory id) db now (λ _ db'. (L × (db' ≡ db)) ⊎ IsRemoved id db db')
unfolding delete_directory
delete_directory-Ensures id db now = delete_parsed-Ensures id (parse_int id) db now refl

-- Whatever statements fail: where DeleteDirectory returns, either the directory with the given id was
-- stored, no stored directory had it as its parent and no stored config was in it or below it, and
-- exactly its row and its ACL entries are gone; or a statement of the run has failed, as a commit
-- can without an error, and no table has changed.
pub delete_directory_safe :
    (id : Text) (w : World)
    → (delete_directory id w).0 ≡ ok tt
    → Lost w (delete_directory id w).1 ⊎ IsRemoved id w.db (delete_directory id w).1.db
delete_directory_safe id w h =
    ((delete_directory-Ensures id w.db w.now).post w refl refl tt h (λ x. x)).0
