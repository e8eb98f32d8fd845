-- ===== src/Api/Handlers/Creating.antt =====
-- What CreateDirectory of internal/api/server.go lets a caller do.
use configfs.Prelude.{
  ℕ, ◌≤◌, ◌≡◌, refl, subst, ◌⊎◌, inl, inr, true, List, [], ◌∷◌, Memᴰ, Option, some,
}
use configfs.Strings.{Text, text_eq, byte_len, trim_space}
use configfs.Proto.{acl_write, Directory, full_path, directory_allows, allows_or_nil}
use configfs.Exec.{ok, pure, raise}
use configfs.Store.Db.{DirectoryRow, Db, World}
use configfs.Store.Atomic.{Lost}
use configfs.Store.Db.Ensures.{
  Yields, Yields-weaken, Ensures, Ensures-pure, Ensures-raise, Ensures-if, Ensures-bind,
  Ensures-weaken,
}
use configfs.Store.Directories.{constraints, directory_of}
use configfs.Store.Directories.Chain.{directory_at, Fetched, chain-Ensures}
use configfs.Store.Directories.Growth.{IsCreated, create_directory-Ensures}
use configfs.Api.Server.{Server, can_create, invalid_argument, permission_denied}
use configfs.Api.Gates.{is_root, deepest_existing_ancestor}
use configfs.Api.Gates.Meaning.{Grants}
use configfs.Api.Gates.Deepest.{deepest-longest}
use configfs.Api.Handlers.{ancestor_gate, create_directory_rpc}
use configfs.Api.Handlers.Reading.{Ensures-call, Ensures-unless}

-- A stored directory that is the path or one of its ancestors.
abbrev pub IsOnPath : Text → Db → DirectoryRow → Type 0
IsOnPath path db r = Memᴰ r db.directory × Memᴰ (r.path, r.name) (constraints (path ∷ []))

-- The path is the root, nothing on it is stored, or of the stored directories on it one with the
-- longest full path grants WRITE or has no entries.
pub data MayExtend (tags : List Text) (path : Text) (db : Db) : Type 0 where
  at_root : is_root path ≡ true → MayExtend tags path db
  nothing_there : ((r : DirectoryRow) → IsOnPath path db r → ⊥) → MayExtend tags path db
  below :
      (r : DirectoryRow)
      → IsOnPath path db r
      → ((q : DirectoryRow)
          → IsOnPath path db q
          → byte_len (full_path (directory_at db q)) ≤ byte_len (full_path (directory_at db r)))
      → Grants tags acl_write db r
      → MayExtend tags path db

MayExtend-of_chain :
    (tags : List Text) (path : Text) (db : Db) (found : List Directory × List Text)
    → Fetched (path ∷ []) (constraints (path ∷ [])) db found
    → allows_or_nil tags acl_write (deepest_existing_ancestor found.0) ≡ true
    → MayExtend tags path db
unfolding allows_or_nil directory_of
MayExtend-of_chain tags path db found f allowed = elim (deepest-longest found.0) [
  | inl (empty, _) ↦ MayExtend.nothing_there (λ r (m, c).
      nothing_in (directory_at db r) (subst (Memᴰ (directory_at db r)) empty (f.complete r m c)))
  | inr (d, is_d, i, longest) ↦
      let (r, m, e, c) = f.selected d i in
      let grants : directory_allows tags acl_write d.acls ≡ true = rw is_d at allowed in
      MayExtend.below r (m, c)
        (λ q (n, b).
          subst
            (λ (x : Directory). byte_len (full_path (directory_at db q)) ≤ byte_len (full_path x)) e
            (longest (directory_at db q) (f.complete q n b)))
        (subst (λ (x : Directory). directory_allows tags acl_write x.acls ≡ true) e grants)
]
  where
    nothing_in : (d : Directory) → Memᴰ d [] → ⊥
    nothing_in d m = elim m [ ]

ancestor_gate-Ensures :
    (tags : List Text) (path : Text) (db : Db) (now : ℕ)
    → Ensures (ancestor_gate tags path) db now (λ _ db'. (db' ≡ db) × MayExtend tags path db)
unfolding ancestor_gate
ancestor_gate-Ensures tags path db now =
    Ensures-if (is_root path) (pure tt) _ (λ at. Ensures-pure tt (refl, MayExtend.at_root at))
      (λ below. Ensures-bind _ _ (
        Ensures-weaken (Ensures-call _ _ (chain-Ensures path db now below)) (λ found db1 (same, f).
          rw same (
            Ensures-unless (allows_or_nil tags acl_write (deepest_existing_ancestor found.0))
              permission_denied
              (λ allowed. (refl, MayExtend-of_chain tags path db found f allowed))))))

create_directory_rpc-Ensures :
    {L : Type 0} (s : Server) (tags : List Text) (dir : Directory) (db : Db) (now : ℕ)
    → Yields L (create_directory_rpc s tags (some dir)) db now (λ _ db'.
      (can_create s tags ≡ true)
      × MayExtend tags dir.path db
      × ((L × (db' ≡ db)) ⊎ IsCreated dir db db'))
unfolding create_directory_rpc
create_directory_rpc-Ensures s tags dir db now =
    Ensures-if (text_eq (trim_space dir.name) []) (raise invalid_argument) _ (λ _. Ensures-raise _)
      (λ _. Ensures-bind _ _ (
        Ensures-unless (can_create s tags) permission_denied (λ listed. Ensures-bind _ _ (
          Ensures-weaken (ancestor_gate-Ensures tags dir.path db now) (λ _ db1 (same, may).
            rw same (
              Yields-weaken (Ensures-call _ _ (create_directory-Ensures dir db now))
                (λ _ db' done. (listed, may, done))))))))

pub create_directory_rpc_safe :
    (s : Server) (tags : List Text) (dir : Directory) (w : World) (r : Option Directory)
    → (create_directory_rpc s tags (some dir) w).0 ≡ ok r
    → (can_create s tags ≡ true)
      × MayExtend tags dir.path w.db
      × (Lost w (create_directory_rpc s tags (some dir) w).1
          ⊎ IsCreated dir w.db (create_directory_rpc s tags (some dir) w).1.db)
create_directory_rpc_safe s tags dir w r h =
    ((create_directory_rpc-Ensures s tags dir w.db w.now).post w refl refl r h (λ x. x)).0
