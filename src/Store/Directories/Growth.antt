-- ===== src/Store/Directories/Growth.antt =====
-- What CreateDirectory of internal/store/sqlite/store.go writes.
use configfs.Prelude.{
  ℕ, suc, ℤ, pos, ◌≡◌, ◌≢◌, refl, sym, ap, ◌∙◌, subst, ◌⊎◌, inl, inr, true, not, List, [], ◌∷◌,
  ◌++◌, map, Memᴰ, Option, none, some, keep, any, any_iff, arith, Bool-cases,
}
use configfs.Strings.{Text, text_eq, text_lt, cut_last, trim_space, contains}
use configfs.Strings.Laws.{eq_of_text_eq}
use configfs.Proto.{ConfigAcl, Directory, full_path}
use configfs.Exec.{raise}
use configfs.Store.Db.{DirectoryRow, Db, name_required, directory_exists}
use configfs.Store.Db.Ensures.{
  Yields, Ensures, Ensures-pure, Ensures-raise, Ensures-execute, Ensures-next_inode, Ensures-if,
  Ensures-bind, Ensures-weaken,
}
use configfs.Store.Db.Reads.{Ensures-IsRead}
use configfs.Store.Acls.{of_directory, acl_row, is_recognised}
use configfs.Store.Acls.Laws.{insert_acls-Ensures}
use configfs.Store.Atomic.{Ensures-with_tx}
use configfs.Store.Reads.{get_directory_by_id-IsRead}
use configfs.Store.Directories.{
  constraints, integer_affinity, create_directory_row, insert_text, sort_texts, or_root, create_one,
  create_missing, paths_to_fetch, ensure_directories, return_created, create_directory_body,
  create_directory, new_directory_path,
}
use configfs.Store.Directories.Chain.{Fetched, directory_at, lookup-Ensures}

-- The tables with one more directory, under the next id and with the recognised entries.
abbrev pub with_new_directory : Text → Text → Option ℤ → List ConfigAcl → Db → Db
with_new_directory path name parent acls db = record db {
  inode = suc db.inode;
  directory =
      db.directory
      ++ record { id = pos (suc db.inode); name = name; path = path; parent_id = parent } ∷ [];
  directory_acl = db.directory_acl ++ map (acl_row (pos (suc db.inode))) (keep is_recognised acls);
}

-- One new directory for each path, in turn, in the part before the last slash and named by the rest.
abbrev pub Grown : List ConfigAcl → List Text → Db → Db → Type 0
Grown acls [] db db' = db' ≡ db
Grown acls (t ∷ ts) db db' =
    (before : Text) × (name : Text) × (parent : Option ℤ) × (cut_last t ≡ some (before, name))
    × Grown acls ts (with_new_directory (or_root before) name parent acls db) db'

module _ (acls : List ConfigAcl) where
  create_directory_row-Ensures :
      (path name : Text) (parent : Option Text) (db : Db) (now : ℕ)
      → Ensures
          (create_directory_row path name parent acls)
          db
          now
          (λ _ db'. db' ≡ with_new_directory path name (integer_affinity parent) acls db)
  unfolding create_directory_row
  create_directory_row-Ensures path name parent db now = Ensures-bind _ _ (
      Ensures-next_inode (
        Ensures-bind _ _ (
          Ensures-execute _ (
            Ensures-bind _ _ (
              Ensures-weaken (insert_acls-Ensures of_directory _ acls _ now)
                (λ _ db' e. rw e (Ensures-pure _ refl)))))))

  create_missing-Ensures :
      (dirs : List Directory) (ts : List Text) (db : Db) (now : ℕ)
      → Ensures (create_missing dirs acls ts) db now (λ _ db'. Grown acls ts db db')
  unfolding create_missing
  create_missing-Ensures dirs [] db now = Ensures-pure _ refl
  create_missing-Ensures dirs (t ∷ ts) db now = Ensures-bind _ _ (
      Ensures-weaken (one (cut_last t) refl) (λ dirs' db1 (before, name, parent, cut, e).
        Ensures-weaken (create_missing-Ensures dirs' ts db1 now)
          (λ _ db' g. (before, name, parent, cut, rw e at g))))
    where
      one :
          (o : Option (Text × Text))
          → cut_last t ≡ o
          → Ensures (create_one dirs acls o) db now (λ _ db1.
            (before : Text) × (name : Text) × (parent : Option ℤ) × (cut_last t
              ≡ some (before, name))
            × (db1 ≡ with_new_directory (or_root before) name parent acls db))
      one none cut = unfold create_one in Ensures-raise _
      one (some (before, name)) cut =
          unfold create_one in
          Ensures-bind _ _ (
            Ensures-weaken (create_directory_row-Ensures (or_root before) name _ db now)
              (λ d db1 e. rw e (Ensures-pure _ (before, name, _, cut, refl))))

mem_of_insert_text : (t u : Text) (us : List Text) → Memᴰ t (insert_text u us) → Memᴰ t (u ∷ us)
unfolding insert_text
mem_of_insert_text t u [] m = m
mem_of_insert_text t u (v ∷ us) m = elim (Bool-cases (text_lt v u)) [
  | inl before ↦ elim (rw before at m) [
    | Memᴰ.head p ↦ Memᴰ.tail (Memᴰ.head p)
    | Memᴰ.tail i ↦ elim (mem_of_insert_text t u us i) [
      | Memᴰ.head p ↦ Memᴰ.head p
      | Memᴰ.tail j ↦ Memᴰ.tail (Memᴰ.tail j)
    ]
  ]
  | inr here ↦ rw here at m
]

mem_of_sort_texts : (t : Text) (ts : List Text) → Memᴰ t (sort_texts ts) → Memᴰ t ts
unfolding sort_texts
mem_of_sort_texts t [] m = m
mem_of_sort_texts t (u ∷ ts) m = elim (mem_of_insert_text t u (sort_texts ts) m) [
  | Memᴰ.head p ↦ Memᴰ.head p
  | Memᴰ.tail i ↦ Memᴰ.tail (mem_of_sort_texts t ts i)
]

-- The path of an ancestor or the path itself, which no stored directory has that the lookup of the
-- path names.
pub record IsMissing (path : Text) (db : Db) (t : Text) : Type 0 where
  pub on_path : Memᴰ t (paths_to_fetch path)
  pub absent :
      (r : DirectoryRow)
      → Memᴰ r db.directory
      → Memᴰ (r.path, r.name) (constraints (paths_to_fetch path))
      → full_path (directory_at db r) ≢ t

-- Of the path and its ancestors exactly those that are missing are there in addition, each with the
-- given entries.
unfoldable pub IsExtended : Text → List ConfigAcl → Db → Db → Type 0
IsExtended path acls db db' =
    (ts : List Text) × ((t : Text) → Memᴰ t ts → IsMissing path db t)
    × ((t : Text)
        → Memᴰ t (paths_to_fetch path)
        → ((r : DirectoryRow) × Memᴰ r db.directory × (full_path (directory_at db r) ≡ t))
          ⊎ Memᴰ t ts)
    × Grown acls ts db db'

mem-insert_text : (t u : Text) (us : List Text) → Memᴰ t (u ∷ us) → Memᴰ t (insert_text u us)
unfolding insert_text
mem-insert_text t u [] m = m
mem-insert_text t u (v ∷ us) m = elim (Bool-cases (text_lt v u)) [
  | inl before ↦ rw before (elim m [
    | Memᴰ.head p ↦ Memᴰ.tail (mem-insert_text t u us (Memᴰ.head p))
    | Memᴰ.tail i ↦ elim i [
      | Memᴰ.head p ↦ Memᴰ.head p
      | Memᴰ.tail j ↦ Memᴰ.tail (mem-insert_text t u us (Memᴰ.tail j))
    ]
  ])
  | inr here ↦ rw here m
]

mem-sort_texts : (t : Text) (ts : List Text) → Memᴰ t ts → Memᴰ t (sort_texts ts)
unfolding sort_texts
mem-sort_texts t [] m = m
mem-sort_texts t (u ∷ ts) (Memᴰ.head p) = mem-insert_text t u (sort_texts ts) (Memᴰ.head p)
mem-sort_texts t (u ∷ ts) (Memᴰ.tail i) =
    mem-insert_text t u (sort_texts ts) (Memᴰ.tail (mem-sort_texts t ts i))

-- No stored directory that the lookup of the path names has this full path.
abbrev pub IsFree : Text → Db → Type 0
IsFree path db =
    (r : DirectoryRow)
    → Memᴰ r db.directory
    → Memᴰ (r.path, r.name) (constraints (path ∷ []))
    → full_path (directory_at db r) ≢ path

module _ (path : Text) (acls : List ConfigAcl) (db : Db) (now : ℕ) where
  extended :
      (found : List Directory × List Text) (db' : Db)
      → Fetched (paths_to_fetch path) (constraints (paths_to_fetch path)) db found
      → Grown acls (sort_texts found.1) db db'
      → IsExtended path acls db db'
  unfolding IsExtended
  extended found db' f g = (
    sort_texts found.1,
    λ t m.
        let (on, none_at) = f.absent t (mem_of_sort_texts t found.1 m) in
        record { on_path = on; absent = λ r i c. none_at (directory_at db r) (f.complete r i c) },
    λ t m. elim (f.accounted t m) [
      | inl (d, i, at) ↦ let (r, j, e) = f.stored d i in inl (r, j, ap full_path (sym e) ∙ at)
      | inr missing ↦ inr (mem-sort_texts t found.1 missing)
    ],
    g,
  )

  ensure_directories-Ensures :
      Ensures (ensure_directories path acls) db now (λ _ db'. IsExtended path acls db db')
  unfolding ensure_directories
  ensure_directories-Ensures = Ensures-bind _ _ (
      Ensures-weaken (lookup-Ensures (paths_to_fetch path) db now) (λ found db1 (same, f). rw same (
        Ensures-weaken (create_missing-Ensures acls found.0 (sort_texts found.1) db now)
          (λ _ db' g. extended found db' f g))))

  return_created-Keeps :
      (o : Option Directory) (db1 : Db)
      → IsExtended path acls db db1
      → Ensures (return_created path o) db1 now (λ _ db'. IsExtended path acls db db')
  unfolding return_created
  return_created-Keeps none db1 e = Ensures-raise _
  return_created-Keeps (some d) db1 e = Ensures-IsRead (get_directory_by_id-IsRead d.id) (λ _. e)

  create_directory_body-Ensures :
      Ensures
        (create_directory_body path acls)
        db
        now
        (λ _ db'. IsFree path db × IsExtended path acls db db')
  unfolding create_directory_body contains
  create_directory_body-Ensures = Ensures-bind _ _ (
      Ensures-weaken (lookup-Ensures (path ∷ []) db now) (λ found db1 (same, f). rw same (
        Ensures-if (not (contains found.1 path)) (raise (directory_exists path)) _
          (λ _. Ensures-raise _)
          (λ missing. Ensures-bind _ _ (
            Ensures-weaken ensure_directories-Ensures (λ dirs db2 e.
              Ensures-weaken (return_created-Keeps _ db2 e)
                (λ _ db' x. (free found f (ground (arith, missing)), x))))))))
    where
      free :
          (found : List Directory × List Text)
          → Fetched (path ∷ []) (constraints (path ∷ [])) db found
          → any (λ u. text_eq u path) found.1 ≡ true
          → IsFree path db
      free found f there =
          let (u, i, same) = (any_iff (λ u. text_eq u path) found.1).0 there in
          let (_, none_at) =
            f.absent path (subst (λ t. Memᴰ t found.1) (eq_of_text_eq u path same) i) in
          λ r j c. none_at (directory_at db r) (f.complete r j c)

-- The directory and its missing ancestors are there in addition, where its full path was free.
unfoldable pub IsCreated : Directory → Db → Db → Type 0
IsCreated dir db db' =
    let path = new_directory_path dir.path (trim_space dir.name) in
    IsFree path db × IsExtended path dir.acls db db'

pub create_directory-Ensures :
    {L : Type 0} (dir : Directory) (db : Db) (now : ℕ)
    → Yields L (create_directory dir) db now (λ _ db'. (L × (db' ≡ db)) ⊎ IsCreated dir db db')
unfolding create_directory IsCreated
create_directory-Ensures dir db now =
    Ensures-if (text_eq (trim_space dir.name) []) (raise name_required) _ (λ _. Ensures-raise _)
      (λ _. Ensures-with_tx _ (
        create_directory_body-Ensures (new_directory_path dir.path (trim_space dir.name)) dir.acls
          db now))
