-- ===== src/Store/Directories/Replacement.antt =====
-- What UpdateDirectory of internal/store/sqlite/store.go has checked and done when it returns.
use mathlib.Core.Option.{some-injective}
use configfs.Prelude.{
  ℕ, ℤ, ◌≡◌, refl, sym, ◌∙◌, ◌⊎◌, inl, inr, false, [], Memᴰ, Option, none, some, arith, Bool-cases,
}
use configfs.Strings.{Text, text_eq}
use configfs.Strings.Laws.{text_eq_iff}
use configfs.Strings.Decimal.{parse_int}
use configfs.Proto.{Directory}
use configfs.Exec.{raise}
use configfs.Store.Db.{DirectoryRow, Db, name_mismatch, path_mismatch}
use configfs.Store.Db.Ensures.{
  Yields, Ensures, Ensures-raise, Ensures-if, Ensures-bind, Ensures-weaken,
}
use configfs.Store.Db.Reads.{Ensures-IsRead}
use configfs.Store.Reads.{get_directory_by_id-IsRead}
use configfs.Store.Acls.{of_directory}
use configfs.Store.Acls.Laws.{replaced_rows, replace_acls-Ensures}
use configfs.Store.Atomic.{Ensures-with_tx}
use configfs.Store.Directories.{
  directory_of, contradicts, replace_checked, update_directory_body, update_parsed_directory,
  update_directory,
}
use configfs.Store.Directories.Deletion.{IsAt, get_directory_by_id-Ensures}

-- The given text is empty or the stored one.
abbrev pub Agrees : Text → Text → Type 0
Agrees given stored = (given ≡ []) ⊎ (given ≡ stored)

Agrees-of_contradicts :
    (given stored : Text) → contradicts given stored ≡ false → Agrees given stored
Agrees-of_contradicts given stored h = elim (Bool-cases (text_eq given [])) [
  | inl empty ↦ inl ((text_eq_iff given []).0 empty)
  | inr other ↦ inr ((text_eq_iff given stored).0 (ground arith))
]

-- The replacement of the entries of a stored directory, and of nothing else.
unfoldable pub IsReplaced : Directory → Db → Db → Type 0
IsReplaced dir db db' =
    (r : DirectoryRow) × Memᴰ r db.directory
    × (parse_int dir.id ≡ some r.id)
    × Agrees dir.name r.name
    × Agrees dir.path r.path
    × (db' ≡ record db { directory_acl = replaced_rows r.id dir.acls db.directory_acl })

replace_checked-Ensures :
    (dir : Directory) (n : ℤ) (o : Option Directory) (db : Db) (now : ℕ)
    → parse_int dir.id ≡ some n
    → ((d : Directory) → o ≡ some d → IsAt dir.id db d)
    → Ensures (replace_checked dir n o) db now (λ _ db'. IsReplaced dir db db')
unfolding replace_checked IsReplaced directory_of
replace_checked-Ensures dir n none db now p at = Ensures-raise _
replace_checked-Ensures dir n (some existing) db now p at =
    let (r, m, q, e) = at existing refl in
    let same = some-injective _ _ (sym p ∙ q) in
    Ensures-if (contradicts dir.name existing.name) (raise (name_mismatch existing.name)) _
      (λ _. Ensures-raise _)
      (λ name.
        Ensures-if (contradicts dir.path existing.path) (raise (path_mismatch existing.path)) _
          (λ _. Ensures-raise _)
          (λ path. Ensures-bind _ _ (
            Ensures-weaken (replace_acls-Ensures of_directory n dir.acls db now) (λ _ db1 done.
              Ensures-IsRead (get_directory_by_id-IsRead dir.id) (λ _. (
                r,
                m,
                q,
                Agrees-of_contradicts dir.name r.name (rw e at name),
                Agrees-of_contradicts dir.path r.path (rw e at path),
                (rw same at done),
              ))))))

update_parsed-Ensures :
    {L : Type 0} (dir : Directory) (o : Option ℤ) (db : Db) (now : ℕ)
    → parse_int dir.id ≡ o
    → Yields L
        (update_parsed_directory dir o)
        db
        now
        (λ _ db'. (L × (db' ≡ db)) ⊎ IsReplaced dir db db')
unfolding update_parsed_directory update_directory_body
update_parsed-Ensures dir none db now p = Ensures-raise _
update_parsed-Ensures dir (some n) db now p = Ensures-with_tx (update_directory_body dir n) (
    Ensures-bind _ _ (
      Ensures-weaken (get_directory_by_id-Ensures dir.id db now)
        (λ o db1 (same, at). rw same (replace_checked-Ensures dir n o db now p at))))

pub update_directory-Ensures :
    {L : Type 0} (dir : Directory) (db : Db) (now : ℕ)
    → Yields L (update_directory dir) db now (λ _ db'. (L × (db' ≡ db)) ⊎ IsReplaced dir db db')
unfolding update_directory
update_directory-Ensures dir db now = update_parsed-Ensures dir (parse_int dir.id) db now refl
