-- ===== src/Store/Tree/Safety.antt =====
-- What the tree of TreeForACLTags (internal/store/sqlite/store.go) shows a caller.
use mathlib.Core.List
use configfs.Prelude.{
  ℕ, zero, suc, ℤ, ◌≡◌, refl, sym, ap, ◌∙◌, subst, ◌⊎◌, inl, inr, true, not, ◌&&◌, List, [], ◌∷◌,
  map, Memᴰ, arith, keep, ltb, mem_of_keep, Bool-cases,
}
use configfs.Strings.{Text, root, text_eq}
use configfs.Strings.Laws.{eq_of_text_eq}
use configfs.Proto.{
  acl_read, ConfigAcl, Config, Directory, Tree, Trees, node, no_trees, tree_cons, full_path,
  config_allows, directory_allows,
}
use configfs.Proto.Access.{Granted, config_allows_iff}
use configfs.Exec.{ok, raise}
use configfs.Store.Db.{ConfigRow, DirectoryRow, Db, World, tree_directory_missing}
use configfs.Store.Db.Ensures.{
  Ensures, Ensures-pure, Ensures-raise, Ensures-query, Ensures-if, Ensures-bind, Ensures-weaken,
}
use configfs.Store.Acls.{of_config, of_directory, acls_of}
use configfs.Store.Configs.{ConfigSelect, select_row, config_of}
use configfs.Store.Configs.Lookup.{message_of}
use configfs.Store.Directories.{order_by_path, directory_of}
use configfs.Store.Directories.Chain.{directory_at, load_acls-Ensures, mem-order_by_path}
use configfs.Store.Tree.{
  configs_in, children_of, trees_of, populate, PathMap, get_path, depth_of, insert_by_depth,
  sort_by_depth, mark_readable, readable_roots, readable_directories, all_directories_with_acls,
  prefilter, under_prefix, has_directory, visible_configs, tree_for_acl_tags,
}

-- A config attached to some directory of the tree.
mutual
  pub data InTree (c : Config) : Tree → Type 0 where
    here : {d : Directory} {ts : Trees} {cs : List Config} → Memᴰ c cs → InTree c (node d ts cs)
    below : {d : Directory} {ts : Trees} {cs : List Config} → InTrees c ts → InTree c (node d ts cs)

  pub data InTrees (c : Config) : Trees → Type 0 where
    first : {t : Tree} {ts : Trees} → InTree c t → InTrees c (tree_cons t ts)
    later : {t : Tree} {ts : Trees} → InTrees c ts → InTrees c (tree_cons t ts)

-- From the root, every step goes into a stored directory that grants READ.
pub data IsWalkable (tags : List Text) (db : Db) : Text → Type 0 where
  at_root : {path : Text} → (path ≡ []) ⊎ (path ≡ root) → IsWalkable tags db path
  into :
      (r : DirectoryRow) {path : Text}
      → Memᴰ r db.directory
      → full_path (directory_at db r) ≡ path
      → directory_allows tags acl_read (acls_of r.id db.directory_acl) ≡ true
      → IsWalkable tags db r.path
      → IsWalkable tags db path

abbrev AreStored : Db → List Directory → Type 0
AreStored db dirs =
    (d : Directory)
    → Memᴰ d dirs
    → (r : DirectoryRow) × Memᴰ r db.directory × (d ≡ directory_at db r)

module _ (tags : List Text) (db : Db) where
  abbrev IsSound : PathMap → Type 0
  IsSound m = (k : Text) → get_path k m ≡ true → IsWalkable tags db k

  entered :
      (m : PathMap) (d : Directory)
      → IsSound m
      → (r : DirectoryRow) × Memᴰ r db.directory × (d ≡ directory_at db r)
      → get_path d.path m && directory_allows tags acl_read d.acls ≡ true
      → IsWalkable tags db (full_path d)
  unfolding directory_of
  entered m d sound (r, i, e) h =
      IsWalkable.into r i (ap full_path (sym e))
        (subst (λ (x : Directory). directory_allows tags acl_read x.acls ≡ true) e
          (ground (arith, h)))
        (subst (λ (x : Directory). IsWalkable tags db x.path) e (sound d.path (ground (arith, h))))

  mark-IsSound :
      (ds : List Directory) (m : PathMap)
      → AreStored db ds
      → IsSound m
      → IsSound (mark_readable tags m ds)
  unfolding mark_readable get_path
  mark-IsSound [] m stored sound = sound
  mark-IsSound (d ∷ ds) m stored sound =
      mark-IsSound ds
        ((full_path d, get_path d.path m && directory_allows tags acl_read d.acls) ∷ m)
        (λ e i. stored e (Memᴰ.tail i))
        (λ k h. elim (Bool-cases (text_eq (full_path d) k)) [
          | inl same ↦
              subst (IsWalkable tags db) (eq_of_text_eq (full_path d) k same)
                (entered m d sound (stored d (Memᴰ.head refl)) (rw same at h))
          | inr other ↦ sound k (rw other at h)
        ])

  roots-IsSound : IsSound readable_roots
  unfolding get_path
  roots-IsSound k h = elim (Bool-cases (text_eq [] k)) [
    | inl empty ↦ IsWalkable.at_root (inl (sym (eq_of_text_eq [] k empty)))
    | inr more ↦ elim (Bool-cases (text_eq root k)) [
      | inl is_root ↦ IsWalkable.at_root (inr (sym (eq_of_text_eq root k is_root)))
      | inr other ↦ cc (rw (more, other) at h)
    ]
  ]

pub mem_of_insert :
    (d e : Directory) (ds : List Directory) → Memᴰ d (insert_by_depth e ds) → Memᴰ d (e ∷ ds)
unfolding insert_by_depth
mem_of_insert d e [] m = m
mem_of_insert d e (f ∷ ds) m = elim (Bool-cases (ltb (depth_of f) (depth_of e))) [
  | inl deeper ↦ elim (rw deeper at m) [
    | Memᴰ.head p ↦ Memᴰ.tail (Memᴰ.head p)
    | Memᴰ.tail i ↦ elim (mem_of_insert d e ds i) [
      | Memᴰ.head p ↦ Memᴰ.head p
      | Memᴰ.tail j ↦ Memᴰ.tail (Memᴰ.tail j)
    ]
  ]
  | inr no_deeper ↦ rw no_deeper at m
]

pub mem_of_sort : (d : Directory) (ds : List Directory) → Memᴰ d (sort_by_depth ds) → Memᴰ d ds
unfolding sort_by_depth
mem_of_sort d [] m = m
mem_of_sort d (e ∷ ds) m = elim (mem_of_insert d e (sort_by_depth ds) m) [
  | Memᴰ.head p ↦ Memᴰ.head p
  | Memᴰ.tail i ↦ Memᴰ.tail (mem_of_sort d ds i)
]

readable_sound :
    (tags : List Text) (db : Db) (dirs : List Directory) (path : Text)
    → AreStored db dirs
    → get_path path (readable_directories dirs tags) ≡ true
    → IsWalkable tags db path
unfolding readable_directories
readable_sound tags db dirs path stored h =
    mark-IsSound tags db (sort_by_depth dirs) readable_roots
      (λ d i. stored d (mem_of_sort d dirs i)) (roots-IsSound tags db) path h

-- A stored config that the caller may see: with its own entries, which grant READ, under the prefix,
-- in a directory that the caller can walk to.
unfoldable pub IsVisible : List Text → Text → Db → Config → Type 0
IsVisible tags prefix db c =
    (row : ConfigRow) × Memᴰ row db.config
    × (c ≡ message_of db row)
    × Granted tags acl_read c.acls
    × (under_prefix prefix c.path ≡ true)
    × IsWalkable tags db c.path

abbrev StoredConfigs : Db → List Config → Type 0
StoredConfigs db cs =
    (c : Config) → Memᴰ c cs → (row : ConfigRow) × Memᴰ row db.config × (c ≡ message_of db row)

visible_configs-Ensures :
    (tags : List Text) (prefix : Text) (dirs : List Directory) (db : Db) (now : ℕ)
    (cs : List Config)
    → AreStored db dirs
    → StoredConfigs db cs
    → Ensures
        (visible_configs tags prefix dirs (readable_directories dirs tags) cs)
        db
        now
        (λ shown db'. (db' ≡ db) × ((c : Config) → Memᴰ c shown → IsVisible tags prefix db c))
unfolding visible_configs IsVisible
visible_configs-Ensures tags prefix dirs db now [] stored are =
    Ensures-pure _ (refl, λ c m. elim m [ ])
visible_configs-Ensures tags prefix dirs db now (c ∷ cs) stored are =
    let others =
      visible_configs-Ensures tags prefix dirs db now cs stored (λ c m. are c (Memᴰ.tail m)) in
    Ensures-if (not (under_prefix prefix c.path)) _ _ (λ _. others)
      (λ under.
        Ensures-if (not (config_allows tags acl_read c.acls)) _ _ (λ _. others)
          (λ allowed.
            Ensures-if (not (has_directory dirs c.path)) (raise (tree_directory_missing c.path)) _
              (λ _. Ensures-raise _)
              (λ _.
                Ensures-if (not (get_path c.path (readable_directories dirs tags))) _ _
                  (λ _. others)
                  (λ readable. Ensures-bind _ _ (
                    Ensures-weaken others (λ shown db' (same, all). rw same (
                      Ensures-pure _ (
                        refl,
                        λ e m. elim m [
                          | Memᴰ.head p ↦
                              let (row, i, q) = are c (Memᴰ.head refl) in
                              subst
                                (λ x.
                                  (row : ConfigRow) × Memᴰ row db.config
                                  × (x ≡ message_of db row)
                                  × Granted tags acl_read x.acls
                                  × (under_prefix prefix x.path ≡ true)
                                  × IsWalkable tags db x.path)
                                (sym p)
                                (
                                  row,
                                  i,
                                  q,
                                  (config_allows_iff tags acl_read c.acls).0
                                      (ground (arith, allowed)),
                                  ground (arith, under),
                                  readable_sound tags db dirs c.path stored
                                      (ground (arith, readable)),
                                )
                          | Memᴰ.tail i ↦ all e i
                        ],
                      ))))))))

stored_rows :
    (db : Db) (acls : ℤ → List ConfigAcl)
    → ((n : ℤ)
        → Memᴰ n (map (λ (r : DirectoryRow). r.id) (order_by_path db.directory))
        → acls n ≡ acls_of n db.directory_acl)
    → AreStored db (map (directory_of acls) (order_by_path db.directory))
unfolding directory_of
stored_rows db acls loaded d m =
    let (r, i, e) = List.Memᴰ.of_map (directory_of acls) (order_by_path db.directory) m in
    (
      r,
      (mem-order_by_path r db.directory).0 i,
      sym e ∙ (rw (loaded r.id (List.Memᴰ.map (λ (q : DirectoryRow). q.id) i)) refl),
    )

all_directories-Ensures :
    (db : Db) (now : ℕ)
    → Ensures all_directories_with_acls db now (λ dirs db'. (db' ≡ db) × AreStored db dirs)
unfolding all_directories_with_acls
all_directories-Ensures db now = Ensures-bind _ _ (
    Ensures-query _ (
      Ensures-bind _ _ (
        Ensures-weaken (load_acls-Ensures of_directory _ db now) (λ acls db1 (same, loaded).
          rw same (Ensures-pure _ (refl, stored_rows db acls loaded))))))

stored_configs :
    (prefix : Text) (db : Db) (acls : ℤ → List ConfigAcl)
    → ((n : ℤ)
        → Memᴰ n (
            map
              (λ (s : ConfigSelect). s.row.id)
              (map (select_row db) (keep (prefilter prefix) db.config)))
        → acls n ≡ acls_of n db.config_acl)
    → StoredConfigs db (
        map
          (λ (s : ConfigSelect). config_of (acls s.row.id) s)
          (map (select_row db) (keep (prefilter prefix) db.config)))
unfolding select_row
stored_configs prefix db acls loaded c m =
    let (s, i, e) = List.Memᴰ.of_map (λ (s : ConfigSelect). config_of (acls s.row.id) s) _ m in
    let (row, j, p) = List.Memᴰ.of_map (select_row db) (keep (prefilter prefix) db.config) i in
    (
      row,
      (mem_of_keep (prefilter prefix) db.config row j).0,
      sym e
          ∙ ap (λ a. config_of a s)
              (loaded s.row.id (List.Memᴰ.map (λ (s : ConfigSelect). s.row.id) i))
          ∙ ap (λ (x : ConfigSelect). config_of (acls_of x.row.id db.config_acl) x) (sym p),
    )

module _ (configs : List Config) (c : Config) where
  in_node :
      (d : Directory) (ts : Trees) (cs : List Config)
      → (Memᴰ c cs → Memᴰ c configs)
      → (InTrees c ts → Memᴰ c configs)
      → InTree c (node d ts cs)
      → Memᴰ c configs
  in_node d ts cs p q (InTree.here m) = p m
  in_node d ts cs p q (InTree.below m) = q m

  in_cons :
      (t : Tree) (ts : Trees)
      → (InTree c t → Memᴰ c configs)
      → (InTrees c ts → Memᴰ c configs)
      → InTrees c (tree_cons t ts)
      → Memᴰ c configs
  in_cons t ts p q (InTrees.first m) = p m
  in_cons t ts p q (InTrees.later m) = q m

  not_in_no_trees : InTrees c no_trees → Memᴰ c configs
  not_in_no_trees m = elim m [ ]

  in_trees :
      (build : Directory → Tree) (ds : List Directory)
      → ((d : Directory) → InTree c (build d) → Memᴰ c configs)
      → InTrees c (trees_of build ds)
      → Memᴰ c configs
  unfolding trees_of
  in_trees build [] h m = not_in_no_trees m
  in_trees build (d ∷ ds) h m = in_cons (build d) (trees_of build ds) (h d) (in_trees build ds h) m

  in_populate :
      (fuel : ℕ) (others : List Directory) (d : Directory)
      → InTree c (populate fuel others configs d)
      → Memᴰ c configs
  unfolding populate configs_in
  in_populate zero others d m =
      in_node d no_trees _ (λ i. (mem_of_keep _ configs c i).0) not_in_no_trees m
  in_populate (suc fuel) others d m =
      in_node d _ _ (λ i. (mem_of_keep _ configs c i).0)
        (in_trees (populate fuel others configs) (children_of d others) (in_populate fuel others)) m

pub tree-Ensures :
    (tags : List Text) (prefix : Text) (db : Db) (now : ℕ)
    → Ensures
        (tree_for_acl_tags tags prefix)
        db
        now
        (λ t db'. (db' ≡ db) × ((c : Config) → InTree c t → IsVisible tags prefix db c))
unfolding tree_for_acl_tags
tree-Ensures tags prefix db now = Ensures-bind _ _ (
    Ensures-weaken (all_directories-Ensures db now) (λ dirs db1 (same1, stored). rw same1 (
      Ensures-bind _ _ (
        Ensures-query _ (
          Ensures-bind _ _ (
            Ensures-weaken (load_acls-Ensures of_config _ db now) (λ acls db2 (same2, loaded).
              rw same2 (
                Ensures-bind _ _ (
                  Ensures-weaken
                    (visible_configs-Ensures tags prefix dirs db now _ stored
                      (stored_configs prefix db acls loaded))
                    (λ shown db3 (same3, all).
                      rw same3 (
                        Ensures-pure _ (refl, λ c m. all c (in_populate shown c _ _ _ m)))))))))))))

-- Whatever statements fail: every config in a tree that TreeForACLTags returns is stored, is shown
-- with its own entries, which grant the caller READ, lies under the prefix, and is at the root or in
-- a directory that the caller reaches from the root through stored directories that each
-- grant READ or have no entries; and no table is changed.
pub tree_safe :
    (tags : List Text) (prefix : Text) (w : World) (t : Tree)
    → (tree_for_acl_tags tags prefix w).0 ≡ ok t
    → ((tree_for_acl_tags tags prefix w).1.db ≡ w.db)
      × ((c : Config) → InTree c t → IsVisible tags prefix w.db c)
tree_safe tags prefix w t h =
    ((tree-Ensures tags prefix w.db w.now).post w refl refl t h (λ _. tt)).0
