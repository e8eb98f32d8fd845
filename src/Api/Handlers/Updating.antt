-- ===== src/Api/Handlers/Updating.antt =====
-- What UpdateDirectory of internal/api/server.go lets a caller do.
use configfs.Prelude.{ℕ, ◌≡◌, refl, ◌⊎◌, List, [], Option, some}
use configfs.Strings.{Text, text_eq}
use configfs.Proto.{Directory}
use configfs.Exec.{ok, raise}
use configfs.Store.Db.{Db, World}
use configfs.Store.Atomic.{Lost}
use configfs.Store.Db.Ensures.{
  Yields, Yields-weaken, Ensures-raise, Ensures-if, Ensures-bind, Ensures-weaken,
}
use configfs.Store.Directories.Deletion.{get_directory_by_id-Ensures}
use configfs.Store.Directories.Replacement.{IsReplaced, update_directory-Ensures}
use configfs.Api.Server.{invalid_argument, permission_denied}
use configfs.Api.Handlers.{update_directory_rpc, update_directory_with_id}
use configfs.Api.Handlers.Reading.{Ensures-call, Ensures-require_some, Ensures-unless}
use configfs.Api.Handlers.Changing.{IsModifiable, writable-Ensures}

update_directory_rpc-Ensures :
    {L : Type 0} (tags : List Text) (dir : Directory) (db : Db) (now : ℕ)
    → Yields L
        (update_directory_rpc tags (some dir))
        db
        now
        (λ _ db'. IsModifiable tags dir.id db × ((L × (db' ≡ db)) ⊎ IsReplaced dir db db'))
unfolding update_directory_rpc update_directory_with_id IsModifiable
update_directory_rpc-Ensures tags dir db now =
    Ensures-if (text_eq dir.id []) (raise invalid_argument) _ (λ _. Ensures-raise _)
      (λ _. Ensures-bind _ _ (
        Ensures-weaken (Ensures-call _ _ (get_directory_by_id-Ensures dir.id db now))
          (λ o db1 (same, at). rw same (
            Ensures-bind _ _ (
              Ensures-require_some o (λ d is_d. Ensures-bind _ _ (
                Ensures-weaken (Ensures-call _ _ (writable-Ensures d tags db now))
                  (λ b db2 (same2, gate). rw same2 (
                    Ensures-bind _ _ (
                      Ensures-unless b permission_denied (λ yes_b.
                        Yields-weaken (Ensures-call _ _ (update_directory-Ensures dir db now))
                          (λ _ db' done.
                            let (allowed, readable) = gate yes_b in
                            ((d, at d is_d, allowed, readable), done)))))))))))))

-- Whatever statements fail: where UpdateDirectory returns, the directory with the given id is
-- stored, its entries grant the caller WRITE or there are none, and its parent's path is the root or
-- readable for the caller. Beyond that, either the given name and path are empty or the stored ones
-- and exactly the entries of this directory are replaced by the recognised given ones, or a
-- statement of the run has failed, as a commit can without an error, and no table has changed.
pub update_directory_rpc_safe :
    (tags : List Text) (dir : Directory) (w : World) (r : Option Directory)
    → (update_directory_rpc tags (some dir) w).0 ≡ ok r
    → IsModifiable tags dir.id w.db
      × (Lost w (update_directory_rpc tags (some dir) w).1
          ⊎ IsReplaced dir w.db (update_directory_rpc tags (some dir) w).1.db)
update_directory_rpc_safe tags dir w r h =
    ((update_directory_rpc-Ensures tags dir w.db w.now).post w refl refl r h (λ x. x)).0
