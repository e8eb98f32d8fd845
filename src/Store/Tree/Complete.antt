-- ===== src/Store/Tree/Complete.antt =====
-- What the tree of TreeForACLTags (internal/store/sqlite/store.go) does not leave out.
use mathlib.Core.List
use configfs.Prelude.{
  ℕ, suc, ◌≡◌, ◌≢◌, ◌↔◌, refl, sym, ap, ◌∙◌, subst, inl, inr, true, List, [], ◌∷◌, Memᴰ, arith,
  keep, length, mem-keep, mem_of_keep, Bool-cases,
}
use configfs.Strings.{Text, text_eq}
use configfs.Strings.Laws.{text_eq_refl, eq_of_text_eq}
use configfs.Proto.{acl_read, Config, Directory, Tree, full_path, full_path_of}
use configfs.Proto.Access.{config_allows_iff}
use configfs.Exec.{ok}
use configfs.Store.Db.{DirectoryRow, Db, World}
use configfs.Store.Db.Ensures.{Ensures, Ensures-pure, Ensures-query, Ensures-bind, Ensures-weaken}
use configfs.Store.Acls.{of_config}
use configfs.Store.Configs.{config_of, select_row}
use configfs.Store.Configs.Lookup.{message_of}
use configfs.Store.Directories.{directory_of}
use configfs.Store.Directories.Chain.{directory_at, load_acls-Ensures, mem-order_by_path}
use configfs.Store.Tree.{
  root_normalised, configs_in, children_of, trees_of, populate, total_length, get_path,
  readable_directories, prefilter, under_prefix, tree_root, tree_for_acl_tags,
}
use configfs.Store.Tree.Safety.{InTree, InTrees, IsWalkable, IsVisible, tree_safe}
use configfs.Store.Tree.Depth.{populate_unfolds, full_path-not_empty}
use configfs.Store.Tree.Readable.{readable-below, readable-at_root}
use configfs.Store.Tree.Fetched.{
  HasPlainDirectories, directories_at, directories-ArePlain, directories-exact, configs_at,
  configs-exact, prefilter_of_under, IsShown, visible_configs_complete,
}

in_trees_of :
    (c : Config) (build : Directory → Tree) (ds : List Directory) (d : Directory)
    → Memᴰ d ds
    → InTree c (build d)
    → InTrees c (trees_of build ds)
unfolding trees_of
in_trees_of c build [] d m t = elim m [ ]
in_trees_of c build (e ∷ ds) d (Memᴰ.head p) t = InTrees.first (subst (λ x. InTree c (build x)) p t)
in_trees_of c build (e ∷ ds) d (Memᴰ.tail i) t = InTrees.later (in_trees_of c build ds d i t)

module _ (tags : List Text) (db : Db) (p : HasPlainDirectories db) where
  abbrev dirs : List Directory
  dirs = directories_at db

  stored_here : (r : DirectoryRow) → Memᴰ r db.directory → Memᴰ (directory_at db r) dirs
  stored_here r m = List.Memᴰ.map (directory_at db) ((mem-order_by_path r db.directory).1 m)

  -- A path that the caller can walk to is marked.
  walkable-readable :
      (path : Text)
      → IsWalkable tags db path
      → get_path path (readable_directories dirs tags) ≡ true
  unfolding directory_of
  walkable-readable path (IsWalkable.at_root at) =
      readable-at_root tags dirs path (directories-ArePlain db p) at
  walkable-readable path (IsWalkable.into r m e allowed w) =
      subst (λ k. get_path k (readable_directories dirs tags) ≡ true) e
        (readable-below tags dirs (directory_at db r) (directories-ArePlain db p) (stored_here r m)
          allowed (walkable-readable r.path w))

  abbrev included : List Directory
  included = keep (λ d. get_path (full_path d) (readable_directories dirs tags)) dirs

  included-named : (d : Directory) → Memᴰ d included → d.name ≢ []
  included-named d m = ((directories-ArePlain db p).plain d (mem_of_keep _ dirs d m).0).named

  normal : (path : Text) → path ≢ [] → root_normalised path ≡ path
  unfolding root_normalised
  normal path h = elim (Bool-cases (text_eq path [])) [
    | inl empty ↦ absurd (h (eq_of_text_eq path [] empty))
    | inr some_text ↦ rw some_text refl
  ]

  module _ (configs : List Config) (c : Config) where
    abbrev build : Directory → Tree
    build = populate (suc (total_length included)) included configs

    in_directory :
        (d : Directory) → Memᴰ c configs → root_normalised c.path ≡ full_path d → InTree c (build d)
    unfolding configs_in
    in_directory d m e =
        subst (InTree c) (sym (populate_unfolds included configs included-named d)) (
          InTree.here (
            mem-keep (λ (x : Config). text_eq (root_normalised x.path) (full_path d)) configs c m
              (rw e (text_eq_refl (full_path d)))))

    in_child :
        (d e : Directory)
        → Memᴰ e included
        → e.path ≡ full_path d
        → InTree c (build e)
        → InTree c (build d)
    unfolding children_of
    in_child d e m at t =
        subst (InTree c) (sym (populate_unfolds included configs included-named d)) (
          InTree.below (
            in_trees_of c build (children_of d included) e
              (mem-keep (λ (o : Directory). text_eq o.path (full_path d)) included e m
                (rw at (text_eq_refl (full_path d))))
              t))

    -- What hangs at a path that the caller can walk to hangs in the tree of the root.
    reached :
        (path : Text)
        → IsWalkable tags db path
        → (d : Directory) × (full_path d ≡ root_normalised path)
          × (InTree c (build d) → InTree c (build tree_root))
    unfolding root_normalised full_path full_path_of text_eq directory_of
    reached path (IsWalkable.at_root at) =
        (tree_root, elim at [ inl empty ↦ rw empty refl | inr top ↦ rw top refl ], λ t. t)
    reached path (IsWalkable.into r m e allowed w) =
        let (above, at, climb) = reached r.path w in
        let here = directory_at db r in
        let open_here : get_path (full_path here) (readable_directories dirs tags) ≡ true =
          subst (λ k. get_path k (readable_directories dirs tags) ≡ true) (sym e)
            (walkable-readable path (IsWalkable.into r m e allowed w)) in
        let inside : Memᴰ here included = mem-keep _ dirs here (stored_here r m) open_here in
        let some_path : path ≢ [] = λ q.
          let none_there : length (full_path here) ≡ 0 = ap length (e ∙ q) in
          omega (arith, full_path-not_empty here) in
        (
          here,
          e ∙ sym (normal path some_path),
          λ t. climb (in_child above here inside (sym (normal r.path (p.plain r m).0) ∙ sym at) t),
        )

    in_tree : Memᴰ c configs → IsWalkable tags db c.path → InTree c (build tree_root)
    in_tree m w = let (d, at, climb) = reached c.path w in climb (in_directory d m (sym at))

-- A visible config is fetched, and kept by the loop.
visible-IsShown :
    (tags : List Text) (prefix : Text) (db : Db) (p : HasPlainDirectories db) (c : Config)
    → IsVisible tags prefix db c
    → Memᴰ c (configs_at prefix db)
      × IsShown tags prefix (readable_directories (directories_at db) tags) c
      × IsWalkable tags db c.path
unfolding IsVisible config_of select_row
visible-IsShown tags prefix db p c (row, m, e, granted, under, w) =
    let in_row : under_prefix prefix row.path ≡ true =
      subst (λ (x : Config). under_prefix prefix x.path ≡ true) e under in
    (
      subst (λ x. Memᴰ x (configs_at prefix db)) (sym e)
          (List.Memᴰ.map (message_of db)
            (mem-keep (prefilter prefix) db.config row m (prefilter_of_under prefix row in_row))),
      record {
        under = under;
        allowed = (config_allows_iff tags acl_read c.acls).1 granted;
        reachable = walkable-readable tags db p c.path w;
      },
      w,
    )

tree_complete-Ensures :
    (tags : List Text) (prefix : Text) (db : Db) (now : ℕ)
    → HasPlainDirectories db
    → Ensures
        (tree_for_acl_tags tags prefix)
        db
        now
        (λ t db'. (c : Config) → IsVisible tags prefix db c → InTree c t)
unfolding tree_for_acl_tags
tree_complete-Ensures tags prefix db now p = Ensures-bind _ _ (
    Ensures-weaken (directories-exact db now) (λ dirs db1 (same1, exact).
      rw (same1, exact)
        (Ensures-bind _ _ (
          Ensures-query _ (
            Ensures-bind _ _ (
              Ensures-weaken (load_acls-Ensures of_config _ db now) (λ acls db2 (same2, loaded).
                rw (same2, configs-exact prefix db acls loaded)
                  (Ensures-bind _ _ (
                    Ensures-weaken
                      (visible_configs_complete tags prefix (directories_at db) _ db now
                        (configs_at prefix db))
                      (λ shown db3 (same3, all). rw same3 (
                        Ensures-pure _ (λ c visible.
                          let (m, s, w) = visible-IsShown tags prefix db p c visible in
                          in_tree tags db p shown c (all c m s) w))))))))))))

-- Whatever statements fail: where the stored directories have paths and names and no two of them
-- the same full path, a config is in a tree that TreeForACLTags returns exactly when it is stored,
-- with its own entries, which grant the caller READ, lies under the prefix, and is at the root or
-- in a directory that the caller reaches from the root through stored directories that each grant
-- READ or have no entries.
pub tree_exact :
    (tags : List Text) (prefix : Text) (w : World) (t : Tree)
    → HasPlainDirectories w.db
    → (tree_for_acl_tags tags prefix w).0 ≡ ok t
    → (c : Config) → InTree c t ↔ IsVisible tags prefix w.db c
tree_exact tags prefix w t p h c = (
  (tree_safe tags prefix w t h).1 c,
  ((tree_complete-Ensures tags prefix w.db w.now p).post w refl refl t h (λ _. tt)).0 c,
)
