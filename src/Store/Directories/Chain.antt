-- ===== src/Store/Directories/Chain.antt =====
-- What a lookup of directories by their paths returns (getDirectoriesByPathString and
-- DirectoryChain of internal/store/sqlite/store.go).
use mathlib.Core.List
use mathlib.Core.Path.{subst₂}
use configfs.Prelude.{
  arith, ◌||◌, ◌≢◌, ◌⊎◌, ℕ, ℤ, int_eq, int_eq_refl, ◌≡◌, refl, sym, ◌∙◌, subst, false, not, List,
  [], ◌∷◌, map, Memᴰ, any, any_iff, keep, mem-keep, mem_of_keep, Bool-cases, inl, inr,
}
use configfs.Strings.{Text, text_eq, contains, text_lt, root}
use configfs.Strings.Laws.{text_eq_refl, eq_of_text_eq}
use configfs.Proto.{ConfigAcl, Directory, full_path}
use configfs.Store.Db.{DirectoryRow, Db}
use configfs.Store.Db.Ensures.{Ensures, Ensures-pure, Ensures-query, Ensures-bind, Ensures-weaken}
use configfs.Store.Acls.{AclTable, of_directory, acl_rows, acls_of, load_acls}
use configfs.Store.Directories.{
  constraints, satisfies, insert_by_path, order_by_path, select_directories, directory_of,
  missing_of, fetch_constrained, get_directories_by_path_string, directory_chain,
}

mem-insert :
    (r q : DirectoryRow) (rows : List DirectoryRow)
    → (Memᴰ r (insert_by_path q rows) → Memᴰ r (q ∷ rows))
      × (Memᴰ r (q ∷ rows) → Memᴰ r (insert_by_path q rows))
unfolding insert_by_path
mem-insert r q [] = (λ m. m, λ m. m)
mem-insert r q (p ∷ rows) = elim (Bool-cases (text_lt p.path q.path)) [
  | inl later ↦ rw later (
    (λ m. elim m [
      | Memᴰ.head e ↦ Memᴰ.tail (Memᴰ.head e)
      | Memᴰ.tail i ↦ elim ((mem-insert r q rows).0 i) [
        | Memᴰ.head e ↦ Memᴰ.head e
        | Memᴰ.tail j ↦ Memᴰ.tail (Memᴰ.tail j)
      ]
    ]),
    (λ m. elim m [
      | Memᴰ.head e ↦ Memᴰ.tail ((mem-insert r q rows).1 (Memᴰ.head e))
      | Memᴰ.tail i ↦ elim i [
        | Memᴰ.head e ↦ Memᴰ.head e
        | Memᴰ.tail j ↦ Memᴰ.tail ((mem-insert r q rows).1 (Memᴰ.tail j))
      ]
    ]),
  )
  | inr here ↦ rw here (λ m. m, λ m. m)
]

-- ORDER BY keeps the rows.
pub mem-order_by_path :
    (r : DirectoryRow) (rows : List DirectoryRow)
    → (Memᴰ r (order_by_path rows) → Memᴰ r rows) × (Memᴰ r rows → Memᴰ r (order_by_path rows))
unfolding order_by_path
mem-order_by_path r [] = (λ m. m, λ m. m)
mem-order_by_path r (q ∷ rows) = (
  (λ m. elim ((mem-insert r q (order_by_path rows)).0 m) [
    | Memᴰ.head e ↦ Memᴰ.head e
    | Memᴰ.tail i ↦ Memᴰ.tail ((mem-order_by_path r rows).0 i)
  ]),
  (λ m. (mem-insert r q (order_by_path rows)).1 (elim m [
    | Memᴰ.head e ↦ Memᴰ.head e
    | Memᴰ.tail i ↦ Memᴰ.tail ((mem-order_by_path r rows).1 i)
  ])),
)

-- The message of a stored directory, with its own ACL entries.
abbrev pub directory_at : Db → DirectoryRow → Directory
directory_at db r = directory_of (λ n. acls_of n db.directory_acl) r

pub load_acls-Ensures :
    (table : AclTable) (ids : List ℤ) (db : Db) (now : ℕ)
    → Ensures
        (load_acls table ids)
        db
        now
        (λ f db'. (db' ≡ db) × ((n : ℤ) → Memᴰ n ids → f n ≡ acls_of n (acl_rows table db)))
unfolding load_acls
load_acls-Ensures table [] db now = Ensures-pure _ (refl, λ n m. elim m [ ])
load_acls-Ensures table (id ∷ ids) db now =
    Ensures-query _ (refl, λ n m. rw ((any_iff (int_eq n) (id ∷ ids)).1 (n, m, int_eq_refl n)) refl)

-- What a lookup finds: stored directories with their own ACL entries, every stored one that some
-- constraint names, and where nothing is missing, one at each target.
pub record Fetched (targets : List Text) (cs : List (Text × Text)) (db : Db)
    (found : List Directory × List Text) : Type 0 where
  pub stored :
      (d : Directory)
      → Memᴰ d found.0
      → (r : DirectoryRow) × Memᴰ r db.directory × (d ≡ directory_at db r)
  pub complete :
      (r : DirectoryRow)
      → Memᴰ r db.directory
      → Memᴰ (r.path, r.name) cs
      → Memᴰ (directory_at db r) found.0
  pub all_there :
      (t : Text)
      → Memᴰ t targets
      → found.1 ≡ []
      → (d : Directory) × Memᴰ d found.0 × (full_path d ≡ t)
  pub absent :
      (t : Text)
      → Memᴰ t found.1
      → Memᴰ t targets × ((d : Directory) → Memᴰ d found.0 → full_path d ≢ t)
  pub selected :
      (d : Directory)
      → Memᴰ d found.0
      → (r : DirectoryRow) × Memᴰ r db.directory
        × (d ≡ directory_at db r)
        × Memᴰ (r.path, r.name) cs
  pub accounted :
      (t : Text)
      → Memᴰ t targets
      → ((d : Directory) × Memᴰ d found.0 × (full_path d ≡ t)) ⊎ Memᴰ t found.1

not_in_nil : {A : Type 0} (a : A) → Memᴰ a [] → ⊥
not_in_nil a m = elim m [ ]

-- Where no target is missing, each one is the full path of a directory found.
present :
    (targets : List Text) (dirs : List Directory) (t : Text)
    → Memᴰ t targets
    → missing_of targets dirs ≡ []
    → (d : Directory) × Memᴰ d dirs × (full_path d ≡ t)
unfolding missing_of contains
present targets dirs t m e = elim (Bool-cases (any (λ u. text_eq u t) (map full_path dirs))) [
  | inl there ↦
      let (u, i, same) = (any_iff (λ u. text_eq u t) (map full_path dirs)).0 there in
      let (d, j, at) = List.Memᴰ.of_map full_path dirs i in (d, j, at ∙ eq_of_text_eq u t same)
  | inr absent ↦ absurd (
      not_in_nil t (
        rw e at (
          mem-keep (λ t. not (any (λ u. text_eq u t) (map full_path dirs))) targets t m
            (rw absent refl))))
]

-- A missing target is the full path of no directory found, and every other target is of one.
missing_of-absent :
    (targets : List Text) (dirs : List Directory) (t : Text)
    → Memᴰ t (missing_of targets dirs)
    → Memᴰ t targets × ((d : Directory) → Memᴰ d dirs → full_path d ≢ t)
unfolding missing_of contains
missing_of-absent targets dirs t m =
    let (i, refused) =
      mem_of_keep (λ t. not (any (λ u. text_eq u t) (map full_path dirs))) targets t m in
    (
      i,
      λ d j e.
          let there =
            (any_iff (λ u. text_eq u t) (map full_path dirs)).1
              (full_path d, List.Memᴰ.map full_path j, rw e (text_eq_refl t)) in
          cc (rw there at refused),
    )

missing_of-accounted :
    (targets : List Text) (dirs : List Directory) (t : Text)
    → Memᴰ t targets
    → ((d : Directory) × Memᴰ d dirs × (full_path d ≡ t)) ⊎ Memᴰ t (missing_of targets dirs)
unfolding missing_of contains
missing_of-accounted targets dirs t m =
    elim (Bool-cases (any (λ u. text_eq u t) (map full_path dirs))) [
      | inl there ↦
          let (u, i, same) = (any_iff (λ u. text_eq u t) (map full_path dirs)).0 there in
          let (d, j, at) = List.Memᴰ.of_map full_path dirs i in
          inl (d, j, at ∙ eq_of_text_eq u t same)
      | inr absent ↦ inr (
          mem-keep (λ t. not (any (λ u. text_eq u t) (map full_path dirs))) targets t m
            (rw absent refl))
    ]

module _ (cs : List (Text × Text)) (db : Db) where
  abbrev rows : List DirectoryRow
  rows = select_directories cs db

  row_selected : (r : DirectoryRow) → Memᴰ r db.directory → Memᴰ (r.path, r.name) cs → Memᴰ r rows
  unfolding select_directories satisfies
  row_selected r m i = (mem-order_by_path r (keep (λ row. any (satisfies row) cs) db.directory)).1 (
      mem-keep _ db.directory r m (
        (any_iff (satisfies r) cs).1
          ((r.path, r.name), i, rw (text_eq_refl r.path, text_eq_refl r.name) refl)))

  row_stored : (r : DirectoryRow) → Memᴰ r rows → Memᴰ r db.directory
  unfolding select_directories
  row_stored r m =
      (mem_of_keep (λ row. any (satisfies row) cs) db.directory r
        ((mem-order_by_path r (keep (λ row. any (satisfies row) cs) db.directory)).0 m)).0

  row_named : (r : DirectoryRow) → Memᴰ r rows → Memᴰ (r.path, r.name) cs
  unfolding select_directories satisfies
  row_named r m =
      let picked =
        (mem_of_keep (λ row. any (satisfies row) cs) db.directory r
          ((mem-order_by_path r (keep (λ row. any (satisfies row) cs) db.directory)).0 m)).1 in
      let ((p, n), i, e) = (any_iff (satisfies r) cs).0 picked in
      let same_path : r.path ≡ p = eq_of_text_eq r.path p (ground (arith, e)) in
      let same_name : r.name ≡ n = eq_of_text_eq r.name n (ground (arith, e)) in
      subst₂ (λ a b. Memᴰ (a, b) cs) (sym same_path) (sym same_name) i

  module _ (acls : ℤ → List ConfigAcl)
      (loaded : (n : ℤ)
        → Memᴰ n (map (λ (r : DirectoryRow). r.id) rows)
        → acls n ≡ acls_of n db.directory_acl) where
    message-eq : (r : DirectoryRow) → Memᴰ r rows → directory_of acls r ≡ directory_at db r
    unfolding directory_of
    message-eq r m = rw (loaded r.id (List.Memᴰ.map (λ (q : DirectoryRow). q.id) m)) refl

    Fetched-of_rows :
        (targets : List Text)
        → Fetched targets cs db
            (map (directory_of acls) rows, missing_of targets (map (directory_of acls) rows))
    Fetched-of_rows targets = record {
      stored = λ d m.
          let (r, i, e) = List.Memᴰ.of_map (directory_of acls) rows m in
          (r, row_stored r i, sym e ∙ message-eq r i);
      complete = λ r m i.
          let j = row_selected r m i in
          subst (λ d. Memᴰ d (map (directory_of acls) rows)) (message-eq r j)
            (List.Memᴰ.map (directory_of acls) j);
      all_there = λ t m e. present targets (map (directory_of acls) rows) t m e;
      selected = λ d m.
          let (r, i, e) = List.Memᴰ.of_map (directory_of acls) rows m in
          (r, row_stored r i, sym e ∙ message-eq r i, row_named r i);
      absent = λ t m. missing_of-absent targets (map (directory_of acls) rows) t m;
      accounted = λ t m. missing_of-accounted targets (map (directory_of acls) rows) t m;
    }

fetch_constrained-Ensures :
    (targets : List Text) (cs : List (Text × Text)) (db : Db) (now : ℕ)
    → Ensures
        (fetch_constrained targets cs)
        db
        now
        (λ found db'. (db' ≡ db) × Fetched targets cs db found)
unfolding fetch_constrained
fetch_constrained-Ensures targets [] db now = Ensures-pure _ (
  refl,
  record {
    stored = λ d m. elim m [ ];
    complete = λ r m i. elim i [ ];
    all_there = λ t m e. absurd (not_in_nil t (subst (Memᴰ t) e m));
    selected = λ d m. elim m [ ];
    absent = λ t m. (m, λ d i. elim i [ ]);
    accounted = λ t m. inr m;
  },
)
fetch_constrained-Ensures targets (c ∷ cs) db now = Ensures-bind _ _ (
    Ensures-query _ (
      Ensures-bind _ _ (
        Ensures-weaken (load_acls-Ensures of_directory _ db now) (λ acls db1 (same, loaded).
          rw same (Ensures-pure _ (refl, Fetched-of_rows (c ∷ cs) db acls loaded targets))))))

-- Any lookup.
pub lookup-Ensures :
    (targets : List Text) (db : Db) (now : ℕ)
    → Ensures
        (get_directories_by_path_string targets)
        db
        now
        (λ found db'. (db' ≡ db) × Fetched targets (constraints targets) db found)
unfolding get_directories_by_path_string
lookup-Ensures targets db now = fetch_constrained-Ensures targets (constraints targets) db now

-- The chain of a path that is not the root.
pub chain-Ensures :
    (path : Text) (db : Db) (now : ℕ)
    → (text_eq path [] || text_eq path root) ≡ false
    → Ensures
        (directory_chain path)
        db
        now
        (λ found db'. (db' ≡ db) × Fetched (path ∷ []) (constraints (path ∷ [])) db found)
unfolding directory_chain get_directories_by_path_string
chain-Ensures path db now h =
    rw h (fetch_constrained-Ensures (path ∷ []) (constraints (path ∷ [])) db now)
