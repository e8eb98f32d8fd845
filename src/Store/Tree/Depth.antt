-- ===== src/Store/Tree/Depth.antt =====
-- The depth of the tree that populateDirectory of internal/store/sqlite/store.go builds.
use configfs.Prelude.{
  ℕ, zero, suc, ◌+◌, ◌≤◌, ◌<◌, ◌≡◌, ◌≢◌, refl, ap, inl, inr, List, [], ◌∷◌, Memᴰ, arith,
  mem_of_keep, length, length-append, Bool-cases,
}
use configfs.Strings.{Text, root, slash, text_eq, join}
use configfs.Strings.Laws.{eq_of_text_eq}
use configfs.Proto.{Config, Directory, Tree, node, full_path_of, full_path}
use configfs.Store.Tree.{configs_in, children_of, trees_of, populate, total_length}

pub length_positive : (s : Text) → s ≢ [] → 1 ≤ length s
length_positive [] h = absurd (h refl)
length_positive (c ∷ s) h = omega arith

pub length-join :
    (path name : Text) → length (join (path ∷ name ∷ [])) ≡ length path + suc (length name)
unfolding join
length-join path name = length-append path (slash ∷ name)

pub full_path-not_empty : (d : Directory) → 1 ≤ length (full_path d)
unfolding full_path full_path_of
full_path-not_empty d = elim (Bool-cases (text_eq d.path [])) [
  | inl no_path ↦ rw no_path (omega arith)
  | inr some_path ↦ elim (Bool-cases (text_eq d.path root)) [
    | inl at_root ↦ rw (some_path, at_root) (omega arith)
    | inr below ↦ rw (some_path, below) (omega (arith, length-join d.path d.name))
  ]
]

-- The full path of a directory with a name is longer than the path that it is in.
pub longer_than_path :
    (o : Directory) → o.name ≢ [] → 1 ≤ length o.path → length o.path < length (full_path o)
unfolding full_path full_path_of
longer_than_path o named some_text = elim (Bool-cases (text_eq o.path [])) [
  | inl no_path ↦
      let none_there : length o.path ≡ 0 = ap length (eq_of_text_eq o.path [] no_path) in
      absurd (omega arith)
  | inr some_path ↦ elim (Bool-cases (text_eq o.path root)) [
    | inl at_root ↦
        let one : length o.path ≡ 1 = ap length (eq_of_text_eq o.path root at_root) in
        rw (some_path, at_root) (omega (arith, length_positive o.name named))
    | inr below ↦ rw (some_path, below) (omega (arith, length-join o.path o.name))
  ]
]

full_path-total :
    (others : List Directory) (o : Directory)
    → Memᴰ o others
    → length (full_path o) ≤ total_length others
unfolding total_length
full_path-total [] o m = elim m [ ]
full_path-total (d ∷ ds) o (Memᴰ.head e) = rw e (omega arith)
full_path-total (d ∷ ds) o (Memᴰ.tail m) = omega (arith, full_path-total ds o m)

empty_of : {A : Type 0} (xs : List A) → ((a : A) → Memᴰ a xs → ⊥) → xs ≡ []
empty_of [] h = refl
empty_of (x ∷ xs) h = absurd (h x (Memᴰ.head refl))

trees_of-eq :
    (f g : Directory → Tree) (ds : List Directory)
    → ((d : Directory) → Memᴰ d ds → f d ≡ g d)
    → trees_of f ds ≡ trees_of g ds
unfolding trees_of
trees_of-eq f g [] h = refl
trees_of-eq f g (d ∷ ds) h =
    rw (h d (Memᴰ.head refl), trees_of-eq f g ds (λ e m. h e (Memᴰ.tail m))) refl

module _ (others : List Directory) (configs : List Config)
    (named : (o : Directory) → Memᴰ o others → o.name ≢ []) where
  child_longer :
      (d o : Directory)
      → Memᴰ o (children_of d others)
      → Memᴰ o others × (length (full_path d) < length (full_path o))
  unfolding children_of
  child_longer d o m =
      let (i, at) = mem_of_keep (λ (o : Directory). text_eq o.path (full_path d)) others o m in
      let same : length o.path ≡ length (full_path d) =
        ap length (eq_of_text_eq o.path (full_path d) at) in
      let some_text : 1 ≤ length o.path = omega (arith, full_path-not_empty d) in
      (i, omega (arith, longer_than_path o (named o i) some_text))

  no_child :
      (d : Directory) → total_length others < length (full_path d) → children_of d others ≡ []
  no_child d h =
      empty_of (children_of d others)
        (λ o m. let (i, more) = child_longer d o m in omega (arith, full_path-total others o i))

  -- More fuel than the paths can use builds the same tree.
  populate_more :
      (f g : ℕ) (d : Directory)
      → f ≤ g
      → total_length others < f + length (full_path d)
      → populate g others configs d ≡ populate f others configs d
  unfolding populate trees_of
  populate_more zero zero d le h = refl
  populate_more zero (suc g) d le h = rw (no_child d (omega arith)) refl
  populate_more (suc f) zero d le h = absurd (omega arith)
  populate_more (suc f) (suc g) d le h =
      rw
        (trees_of-eq (populate g others configs) (populate f others configs) (children_of d others)
          (λ o m.
            let (i, more) = child_longer d o m in populate_more f g o (omega arith) (omega arith)))
        refl

  -- With the fuel that TreeForACLTags gives it, and where every directory has a name, the tree of
  -- each directory is, as populateDirectory builds it, the directory with its configs and with the
  -- trees of its children: the fuel never runs out.
  pub populate_unfolds :
      (d : Directory)
      → populate (suc (total_length others)) others configs d
        ≡ node d
            (trees_of (populate (suc (total_length others)) others configs) (children_of d others))
            (configs_in d configs)
  unfolding populate
  populate_unfolds d =
      let top = total_length others in
      rw
        (trees_of-eq (populate (suc top) others configs) (populate top others configs)
          (children_of d others)
          (λ o m.
            populate_more top (suc top) o (omega arith) (omega (arith, full_path-not_empty o))))
        refl
