-- ===== src/Api/Gates/Meaning.antt =====
-- What the gates of internal/api/server.go let through.
use configfs.Prelude.{
  ℕ, ◌≡◌, refl, sym, ap, ◌∙◌, inl, inr, true, not, List, [], ◌∷◌, Memᴰ, Option, none, some, any_iff,
  find, find_passes, mem_of_find, Bool-cases,
}
use configfs.Strings.{Text, text_eq, contains}
use configfs.Strings.Laws.{eq_of_text_eq}
use configfs.Proto.{Acl, acl_read, Directory, full_path, directory_allows}
use configfs.Exec.{pure}
use configfs.Store.Db.{DirectoryRow, Db}
use configfs.Store.Db.Ensures.{Ensures, Ensures-pure, Ensures-if, Ensures-bind, Ensures-weaken}
use configfs.Store.Acls.{acls_of}
use configfs.Store.Directories.{constraints, directory_of}
use configfs.Store.Directories.Chain.{directory_at, Fetched, chain-Ensures}
use configfs.Api.Gates.{
  is_root, all_readable, chain_readable, path_readable, Containing, the_root, existing_directory,
  no_directory, located, locate, containing_directory,
}

-- A stored directory whose own entries grant the level, or that has none.
abbrev pub Grants : List Text → Acl → Db → DirectoryRow → Type 0
Grants tags required db r = directory_allows tags required (acls_of r.id db.directory_acl) ≡ true

-- The path is the root, or it is the full path of a stored directory, and every stored directory
-- that is one of its components grants READ.
pub data IsReadable (tags : List Text) (db : Db) (path : Text) : Type 0 where
  at_root : is_root path ≡ true → IsReadable tags db path
  below_root :
      (r : DirectoryRow)
      → Memᴰ r db.directory
      → full_path (directory_at db r) ≡ path
      → ((q : DirectoryRow)
          → Memᴰ q db.directory
          → Memᴰ (q.path, q.name) (constraints (path ∷ []))
          → Grants tags acl_read db q)
      → IsReadable tags db path

all_readable_sound :
    (tags : List Text) (dirs : List Directory) (d : Directory)
    → all_readable tags dirs ≡ true
    → Memᴰ d dirs
    → directory_allows tags acl_read d.acls ≡ true
unfolding all_readable
all_readable_sound tags dirs d h m = elim (Bool-cases (directory_allows tags acl_read d.acls)) [
  | inl yes_d ↦ yes_d
  | inr no_d ↦
      let found =
        (any_iff (λ (d : Directory). not (directory_allows tags acl_read d.acls)) dirs).1
          (d, m, rw no_d refl) in
      cc (rw found at h)
]

IsReadable-of_chain :
    (tags : List Text) (path : Text) (db : Db) (found : List Directory × List Text)
    → Fetched (path ∷ []) (constraints (path ∷ [])) db found
    → chain_readable tags found ≡ true
    → IsReadable tags db path
unfolding chain_readable directory_of
IsReadable-of_chain tags path db (dirs, []) f h =
    let (d, i, at) = f.all_there path (Memᴰ.head refl) refl in
    let (r, m, e) = f.stored d i in
    IsReadable.below_root r m (ap full_path (sym e) ∙ at)
      (λ q n c. all_readable_sound tags dirs (directory_at db q) h (f.complete q n c))
IsReadable-of_chain tags path db (dirs, m ∷ ms) f h = cc

pub path_readable-Ensures :
    (path : Text) (tags : List Text) (db : Db) (now : ℕ)
    → Ensures
        (path_readable path tags)
        db
        now
        (λ b db'. (db' ≡ db) × (b ≡ true → IsReadable tags db path))
unfolding path_readable
path_readable-Ensures path tags db now =
    Ensures-if (is_root path) (pure true) _
      (λ at. Ensures-pure true (refl, λ _. IsReadable.at_root at))
      (λ below. Ensures-bind _ _ (
        Ensures-weaken (chain-Ensures path db now below) (λ found db1 (same, f).
          rw same (Ensures-pure _ (refl, IsReadable-of_chain tags path db found f)))))

-- The directory that a config at the path is written into: none for the root, or the stored one
-- with that full path, as it is stored.
unfoldable pub IsContaining : Text → Db → Containing → Type 0
IsContaining path db the_root = is_root path ≡ true
IsContaining path db (existing_directory d) =
    (r : DirectoryRow) × Memᴰ r db.directory × (d ≡ directory_at db r) × (full_path d ≡ path)
IsContaining path db no_directory = Unit

located-IsContaining :
    (path : Text) (db : Db) (found : List Directory × List Text) (o : Option Directory)
    → Fetched (path ∷ []) (constraints (path ∷ [])) db found
    → find (λ d. text_eq (full_path d) path) found.0 ≡ o
    → IsContaining path db (located o)
unfolding IsContaining
located-IsContaining path db found none f h = tt
located-IsContaining path db found (some d) f h =
    let (r, m, e) = f.stored d (mem_of_find (λ d. text_eq (full_path d) path) found.0 d h) in
    (
      r,
      m,
      e,
      eq_of_text_eq (full_path d) path (find_passes (λ d. text_eq (full_path d) path) found.0 d h),
    )

locate-IsContaining :
    (path : Text) (db : Db) (found : List Directory × List Text)
    → Fetched (path ∷ []) (constraints (path ∷ [])) db found
    → IsContaining path db (locate path found)
unfolding locate
locate-IsContaining path db (dirs, misses) f = elim (Bool-cases (contains misses path)) [
  | inl missing ↦ rw missing (unfold IsContaining in tt)
  | inr there ↦ rw there (located-IsContaining path db (dirs, misses) _ f refl)
]

pub containing_directory-Ensures :
    (path : Text) (db : Db) (now : ℕ)
    → Ensures (containing_directory path) db now (λ c db'. (db' ≡ db) × IsContaining path db c)
unfolding containing_directory
containing_directory-Ensures path db now =
    Ensures-if (is_root path) (pure the_root) _
      (λ at. Ensures-pure the_root (refl, unfold IsContaining in at))
      (λ below. Ensures-bind _ _ (
        Ensures-weaken (chain-Ensures path db now below) (λ found db1 (same, f).
          rw same (Ensures-pure _ (refl, locate-IsContaining path db found f)))))
