-- ===== src/Api/Handlers/Changing.antt =====
-- What GetDirectory and DeleteDirectory of internal/api/server.go let a caller do.
use configfs.Prelude.{ℕ, ◌≡◌, refl, ◌⊎◌, inl, inr, true, List, [], arith, Bool-cases}
use configfs.Strings.{Text, text_eq}
use configfs.Proto.{acl_write, Directory, directory_allows}
use configfs.Exec.{ok, raise}
use configfs.Store.Db.{Db, World}
use configfs.Store.Atomic.{Lost}
use configfs.Store.Db.Ensures.{
  Yields, Yields-weaken, Ensures, Ensures-pure, Ensures-raise, Ensures-if, Ensures-bind,
  Ensures-weaken,
}
use configfs.Store.Directories.Deletion.{
  IsAt, IsRemoved, get_directory_by_id-Ensures, delete_directory-Ensures,
}
use configfs.Api.Server.{invalid_argument, permission_denied}
use configfs.Api.Gates.{directory_writable}
use configfs.Api.Gates.Meaning.{IsReadable, path_readable-Ensures}
use configfs.Api.Handlers.{delete_directory_rpc}
use configfs.Api.Handlers.Reading.{Ensures-call, Ensures-require_some, Ensures-unless}

-- The stored directory with that id, which the caller may change: its own entries grant WRITE, or
-- there are none, and its parent's path is readable.
unfoldable pub IsModifiable : List Text → Text → Db → Type 0
IsModifiable tags id db =
    (d : Directory) × IsAt id db d
    × (directory_allows tags acl_write d.acls ≡ true)
    × IsReadable tags db d.path

pub writable-Ensures :
    (d : Directory) (tags : List Text) (db : Db) (now : ℕ)
    → Ensures (directory_writable d tags) db now (λ b db'.
      (db' ≡ db)
      × (b ≡ true → (directory_allows tags acl_write d.acls ≡ true) × IsReadable tags db d.path))
unfolding directory_writable
writable-Ensures d tags db now = Ensures-bind _ _ (
    Ensures-weaken (path_readable-Ensures d.path tags db now) (λ b db1 (same, readable). rw same (
      Ensures-pure _ (
        refl,
        λ h. elim (Bool-cases b) [
          | inl yes_b ↦ (ground (arith, h), readable yes_b)
          | inr no_b ↦ cc (rw no_b at h)
        ],
      ))))

delete_directory_rpc-Ensures :
    {L : Type 0} (tags : List Text) (id : Text) (db : Db) (now : ℕ)
    → Yields L
        (delete_directory_rpc tags id)
        db
        now
        (λ _ db'. IsModifiable tags id db × ((L × (db' ≡ db)) ⊎ IsRemoved id db db'))
unfolding delete_directory_rpc IsModifiable
delete_directory_rpc-Ensures tags id db now =
    Ensures-if (text_eq id []) (raise invalid_argument) _ (λ _. Ensures-raise _)
      (λ _. Ensures-bind _ _ (
        Ensures-weaken (Ensures-call _ _ (get_directory_by_id-Ensures id db now))
          (λ o db1 (same, at). rw same (
            Ensures-bind _ _ (
              Ensures-require_some o (λ d is_d. Ensures-bind _ _ (
                Ensures-weaken (Ensures-call _ _ (writable-Ensures d tags db now))
                  (λ b db2 (same2, gate). rw same2 (
                    Ensures-bind _ _ (
                      Ensures-unless b permission_denied (λ yes_b.
                        Yields-weaken (Ensures-call _ _ (delete_directory-Ensures id db now))
                          (λ _ db' done.
                            let (allowed, readable) = gate yes_b in
                            ((d, at d is_d, allowed, readable), done)))))))))))))

-- Whatever statements fail: where DeleteDirectory returns, the directory with the given id is
-- stored, its entries grant the caller WRITE or there are none, and its parent's path is the root or
-- readable for the caller. Beyond that, either no stored directory has it as its parent and no stored config is in it or
-- below it, and exactly its row and its ACL entries are gone; or a
-- statement of the run has failed, as a commit can without an error, and no table has changed.
pub delete_directory_rpc_safe :
    (tags : List Text) (id : Text) (w : World)
    → (delete_directory_rpc tags id w).0 ≡ ok tt
    → IsModifiable tags id w.db
      × (Lost w (delete_directory_rpc tags id w).1
          ⊎ IsRemoved id w.db (delete_directory_rpc tags id w).1.db)
delete_directory_rpc_safe tags id w h =
    ((delete_directory_rpc-Ensures tags id w.db w.now).post w refl refl tt h (λ x. x)).0
