-- ===== src/Store/Acls/Laws.antt =====
-- The ACL tables as a map from owners to entries: what a replacement stores is what is read back.
use configfs.Prelude.{
  ℕ, ℤ, int_eq_refl, int_eq_iff, ◌≡◌, ◌≢◌, refl, ap, ◌∙◌, true, not, List, [], ◌∷◌, ◌++◌, map,
  arith, keep, keep-append, append-nil, Bool-cases, inl, inr,
}
use configfs.Proto.{ConfigAcl}
use configfs.Exec.{ok}
use configfs.Store.Db.Ensures.{Ensures, Ensures-pure, Ensures-execute, Ensures-bind, Ensures-weaken}
use configfs.Store.Db.{AclRow, Db, World}
use configfs.Store.Acls.{
  AclTable, of_config, of_directory, acl_rows, with_acl_rows, acl_of_int, int_of_acl, to_proto,
  is_recognised, acl_row, owned_by, acls_of, insert_rows, insert_acls, delete_acls, replace_acls,
}

to_proto-acl_row :
    (owner : ℤ) (a : ConfigAcl) → is_recognised a ≡ true → to_proto (acl_row owner a) ≡ a
unfolding to_proto acl_row is_recognised acl_of_int int_of_acl
to_proto-acl_row owner a h = ground arith

module _ (owner : ℤ) where
  keep_disowned :
      (rows : List AclRow) → keep (owned_by owner) (keep (λ r. not (owned_by owner r)) rows) ≡ []
  unfolding keep
  keep_disowned [] = refl
  keep_disowned (r ∷ rows) = ground (arith, keep_disowned rows)

  keep_stored :
      (acls : List ConfigAcl)
      → map to_proto (keep (owned_by owner) (map (acl_row owner) (keep is_recognised acls)))
        ≡ keep is_recognised acls
  unfolding keep owned_by acl_row
  keep_stored [] = refl
  keep_stored (a ∷ acls) = elim (Bool-cases (is_recognised a)) [
    | inl good ↦
        rw (good, int_eq_refl owner, keep_stored acls)
          (ap (λ b. b ∷ keep is_recognised acls) (to_proto-acl_row owner a good))
    | inr skipped ↦ rw skipped (keep_stored acls)
  ]

  module _ (other : ℤ) (ne : other ≢ owner) where
    keep_others :
        (rows : List AclRow)
        → keep (owned_by other) (keep (λ r. not (owned_by owner r)) rows)
          ≡ keep (owned_by other) rows
    unfolding keep owned_by
    keep_others [] = refl
    keep_others (r ∷ rows) =
        ground (arith, keep_others rows, int_eq_iff r.owner_id owner, int_eq_iff r.owner_id other)

    keep_no_others : (acls : List ConfigAcl) → keep (owned_by other) (map (acl_row owner) acls) ≡ []
    unfolding keep owned_by acl_row
    keep_no_others [] = refl
    keep_no_others (a ∷ acls) = ground (arith, keep_no_others acls, int_eq_iff owner other)

-- The rows of an owner after the two statements of a replacement.
abbrev pub replaced_rows : ℤ → List ConfigAcl → List AclRow → List AclRow
replaced_rows owner acls rows =
    keep (λ r. not (owned_by owner r)) rows ++ map (acl_row owner) (keep is_recognised acls)

acls_of-replaced_rows :
    (owner : ℤ) (acls : List ConfigAcl) (rows : List AclRow)
    → acls_of owner (replaced_rows owner acls rows) ≡ keep is_recognised acls
unfolding acls_of
acls_of-replaced_rows owner acls rows =
    rw (keep-append, keep_disowned owner rows) (keep_stored owner acls)

acls_of-replaced_rows_ne :
    (owner other : ℤ) (acls : List ConfigAcl) (rows : List AclRow)
    → other ≢ owner
    → acls_of other (replaced_rows owner acls rows) ≡ acls_of other rows
unfolding acls_of
acls_of-replaced_rows_ne owner other acls rows ne = rw (
  keep-append,
  keep_others owner other ne rows,
  keep_no_others owner other ne (keep is_recognised acls),
  append-nil,
)

insert_rows-Ensures :
    (table : AclTable) (rows : List AclRow) (db : Db) (now : ℕ)
    → Ensures
        (insert_rows table rows)
        db
        now
        (λ _ db'. db' ≡ with_acl_rows table (acl_rows table db ++ rows) db)
unfolding insert_rows
insert_rows-Ensures of_config [] db now = Ensures-pure tt (rw append-nil refl)
insert_rows-Ensures of_directory [] db now = Ensures-pure tt (rw append-nil refl)
insert_rows-Ensures table (r ∷ rows) db now = Ensures-execute _ refl

-- The table after an insertion that returns.
pub insert_acls-Ensures :
    (table : AclTable) (owner : ℤ) (acls : List ConfigAcl) (db : Db) (now : ℕ)
    → Ensures (insert_acls table owner acls) db now (λ _ db'.
      db'
      ≡ with_acl_rows table (acl_rows table db ++ map (acl_row owner) (keep is_recognised acls)) db)
unfolding insert_acls
insert_acls-Ensures table owner acls db now = insert_rows-Ensures table _ db now

with_acl_rows_twice :
    (table : AclTable) (rows rows' : List AclRow) (db : Db)
    → (acl_rows table (with_acl_rows table rows db) ≡ rows)
      × (with_acl_rows table rows' (with_acl_rows table rows db) ≡ with_acl_rows table rows' db)
with_acl_rows_twice of_config rows rows' db = (refl, refl)
with_acl_rows_twice of_directory rows rows' db = (refl, refl)

-- The table after a replacement that returns; no other table is touched.
pub replace_acls-Ensures :
    (table : AclTable) (owner : ℤ) (acls : List ConfigAcl) (db : Db) (now : ℕ)
    → Ensures
        (replace_acls table owner acls)
        db
        now
        (λ _ db'. db' ≡ with_acl_rows table (replaced_rows owner acls (acl_rows table db)) db)
unfolding replace_acls delete_acls
replace_acls-Ensures table owner acls db now =
    let kept : List AclRow = keep (λ r. not (owned_by owner r)) (acl_rows table db) in
    let added : List AclRow = map (acl_row owner) (keep is_recognised acls) in
    let (read, written) = with_acl_rows_twice table kept (kept ++ added) db in
    Ensures-bind _ _ (
      Ensures-execute _ (
        Ensures-weaken (insert_acls-Ensures table owner acls _ now)
          (λ _ db' e. e ∙ rw read written)))

-- A replacement that returns, whatever statements were to fail: the owner's entries are the
-- recognised ones of the new set, in their order; every other owner has the entries that it had.
pub acls_of-replace_acls :
    (table : AclTable) (owner : ℤ) (acls : List ConfigAcl) (w : World)
    → (replace_acls table owner acls w).0 ≡ ok tt
    → (acls_of owner (acl_rows table (replace_acls table owner acls w).1.db)
        ≡ keep is_recognised acls)
      × ((other : ℤ)
          → other ≢ owner
          → acls_of other (acl_rows table (replace_acls table owner acls w).1.db)
            ≡ acls_of other (acl_rows table w.db))
acls_of-replace_acls table owner acls w h =
    let rows : List AclRow = acl_rows table w.db in
    let (read, _) = with_acl_rows_twice table (replaced_rows owner acls rows) rows w.db in
    let (after, _, _) =
      (replace_acls-Ensures table owner acls w.db w.now).post w refl refl tt h (λ _. tt) in
    rw (after, read)
      (
        acls_of-replaced_rows owner acls rows,
        λ other ne. acls_of-replaced_rows_ne owner other acls rows ne,
      )
