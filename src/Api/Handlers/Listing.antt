-- ===== src/Api/Handlers/Listing.antt =====
-- What List of internal/api/server.go shows a caller.
use mathlib.Core.Option.{some-injective}
use configfs.Prelude.{ℕ, ◌≡◌, refl, ◌∙◌, inl, inr, List, [], some, Bool-cases, Option-cases}
use configfs.Strings.{Text, text_eq}
use configfs.Proto.{Config, Tree, Trees, node, no_trees, tree_cons, full_path}
use configfs.Exec.{ok}
use configfs.Store.Db.{Db, World}
use configfs.Store.Db.Ensures.{Ensures, Ensures-pure, Ensures-if, Ensures-bind, Ensures-weaken}
use configfs.Store.Directories.Deletion.{get_directory_by_id-Ensures}
use configfs.Store.Tree.Safety.{InTree, InTrees, IsVisible, tree-Ensures}
use configfs.Api.Handlers.{tree_id, find_directory, find_among, list_rpc}
use configfs.Api.Handlers.Reading.{Ensures-call, Ensures-require_some}

module _ (id : Text) (c : Config) where
  mutual
    unfolding find_directory

    in_found : (t s : Tree) → find_directory id t ≡ some s → InTree c s → InTree c t
    in_found (node d ts cs) s h m = InTree.below (in_found_among ts s h m)

    in_found_among : (ts : Trees) (s : Tree) → find_among id ts ≡ some s → InTree c s → InTrees c ts
    in_found_among no_trees s h m = cc
    in_found_among (tree_cons t ts) s h m = elim (Bool-cases (text_eq (tree_id t) id)) [
      | inl this ↦ InTrees.first (rw (some-injective _ _ (rw this at h)) m)
      | inr other ↦ elim (Option-cases (find_directory id t)) [
        | inl absent ↦ InTrees.later (in_found_among ts s (rw (other, absent) at h) m)
        | inr (u, found) ↦ InTrees.first (in_found t s (found ∙ (rw (other, found) at h)) m)
      ]
    ]

-- Every config of the tree is one that the caller may see, under some prefix.
abbrev pub ShowsVisible : List Text → Db → Tree → Type 0
ShowsVisible tags db t = (c : Config) → InTree c t → (prefix : Text) × IsVisible tags prefix db c

found_visible :
    (tags : List Text) (db : Db) (prefix id : Text) (t s : Tree)
    → ((c : Config) → InTree c t → IsVisible tags prefix db c)
    → find_directory id t ≡ some s
    → ShowsVisible tags db s
found_visible tags db prefix id t s all h c m = (prefix, all c (in_found id c t s h m))

list_rpc-Ensures :
    (tags : List Text) (id : Text) (db : Db) (now : ℕ)
    → Ensures
        (list_rpc tags id)
        db
        now
        (λ o db'. (db' ≡ db) × ((t : Tree) → o ≡ some t → ShowsVisible tags db t))
unfolding list_rpc
list_rpc-Ensures tags id db now =
    Ensures-if (text_eq id []) _ _
      (λ _. Ensures-bind _ _ (
        Ensures-weaken (Ensures-call _ _ (tree-Ensures tags [] db now)) (λ t db1 (same, all).
          rw same
            (Ensures-pure _ (refl, λ s e c m. ([], all c (rw (← some-injective _ _ e) at m)))))))
      (λ _. Ensures-bind _ _ (
        Ensures-weaken (Ensures-call _ _ (get_directory_by_id-Ensures id db now))
          (λ o db1 (same, _). rw same (
            Ensures-bind _ _ (
              Ensures-require_some o (λ d _. Ensures-bind _ _ (
                Ensures-weaken (Ensures-call _ _ (tree-Ensures tags (full_path d) db now))
                  (λ t db2 (same2, all). rw same2 (
                    Ensures-pure _
                      (refl, λ s e. found_visible tags db (full_path d) d.id t s all e))))))))))

-- Whatever statements fail: every config in a tree that List returns is stored, is shown with its
-- own entries, which grant the caller READ, and is at the root or in a directory that the caller
-- reaches from the root through stored directories that each grant READ or have no entries; and no
-- table is changed.
pub list_rpc_safe :
    (tags : List Text) (id : Text) (w : World) (t : Tree)
    → (list_rpc tags id w).0 ≡ ok (some t)
    → ((list_rpc tags id w).1.db ≡ w.db) × ShowsVisible tags w.db t
list_rpc_safe tags id w t h =
    let ((same, all), _, _) =
      (list_rpc-Ensures tags id w.db w.now).post w refl refl (some t) h (λ _. tt) in
    (same, all t refl)
