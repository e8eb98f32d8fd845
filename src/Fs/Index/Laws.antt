-- ===== src/Fs/Index/Laws.antt =====
-- A snapshot's maps hold exactly what its tree holds.
use configfs.Prelude.{◌≡◌, refl, List, [], ◌∷◌, Memᴰ}
use configfs.Strings.{Text}
use configfs.Proto.{
  Config, Directory, Tree, Trees, node, no_trees, tree_cons, full_path, config_full_path,
}
use configfs.Store.Tree.Safety.{InTree, InTrees}
use configfs.Fs.Index.Maps.{
  Entries, Entries-put, Entries-put_if_absent, Entries-nil, Has, Has-put_self, Has-put,
  Has-put_if_absent_self, Has-put_if_absent,
}
use configfs.Fs.Index.{
  put_value, Index, empty_index, top_of, add_configs, add_directory, directory_map, directory_maps,
}

-- A directory of the tree, the top included.
mutual
  pub data Within (n : Tree) : Tree → Type 0 where
    itself : {t : Tree} → n ≡ t → Within n t
    inside :
        {d : Directory} {ts : Trees} {cs : List Config} → WithinSome n ts → Within n (node d ts cs)

  pub data WithinSome (n : Tree) : Trees → Type 0 where
    first : {t : Tree} {ts : Trees} → Within n t → WithinSome n (tree_cons t ts)
    later : {t : Tree} {ts : Trees} → WithinSome n ts → WithinSome n (tree_cons t ts)

-- What each map holds, under its key.
pub record IsSound (P : Tree → Type 0) (Q : Config → Type 0) (m : Index) : Type 0 where
  pub directories : Entries (λ k n. P n × (full_path (top_of n) ≡ k)) m.path_directory
  pub by_id : Entries (λ k (c : Config). Q c × (c.id ≡ k)) m.id_config
  pub by_path : Entries (λ k c. Q c × (config_full_path c ≡ k)) m.full_path_config

module _ (P : Tree → Type 0) (Q : Config → Type 0) where
  add_configs-IsSound :
      (cs : List Config) (m : Index)
      → ((c : Config) → Memᴰ c cs → Q c)
      → IsSound P Q m
      → IsSound P Q (add_configs cs m)
  unfolding add_configs
  add_configs-IsSound [] m q s = s
  add_configs-IsSound (c ∷ cs) m q s =
      let here = q c (Memᴰ.head refl) in
      add_configs-IsSound cs _ (λ e i. q e (Memᴰ.tail i))
        (record {
          directories = s.directories;
          by_id = Entries-put _ c.id c m.id_config (here, refl) s.by_id;
          by_path = Entries-put _ (config_full_path c) c m.full_path_config (here, refl) s.by_path;
        })

  add_directory-IsSound :
      (t : Tree) (m : Index) → P t → IsSound P Q m → IsSound P Q (add_directory t m)
  unfolding add_directory
  add_directory-IsSound t m p s = record {
    directories =
        Entries-put_if_absent _ (full_path (top_of t)) t m.path_directory (p, refl) s.directories;
    by_id = s.by_id;
    by_path = s.by_path;
  }

  mutual
    unfolding directory_map

    directory_map-IsSound :
        (t : Tree) (m : Index)
        → ((n : Tree) → Within n t → P n)
        → ((c : Config) → InTree c t → Q c)
        → IsSound P Q m
        → IsSound P Q (directory_map t m)
    directory_map-IsSound (node d ts cs) m p q s =
        directory_maps-IsSound ts _ (λ n i. p n (Within.inside i)) (λ c i. q c (InTree.below i))
          (add_configs-IsSound cs _ (λ c i. q c (InTree.here i))
            (add_directory-IsSound (node d ts cs) m (p (node d ts cs) (Within.itself refl)) s))

    directory_maps-IsSound :
        (ts : Trees) (m : Index)
        → ((n : Tree) → WithinSome n ts → P n)
        → ((c : Config) → InTrees c ts → Q c)
        → IsSound P Q m
        → IsSound P Q (directory_maps ts m)
    directory_maps-IsSound no_trees m p q s = s
    directory_maps-IsSound (tree_cons t ts) m p q s =
        directory_maps-IsSound ts _ (λ n i. p n (WithinSome.later i)) (λ c i. q c (InTrees.later i))
          (directory_map-IsSound t m (λ n i. p n (WithinSome.first i))
            (λ c i. q c (InTrees.first i)) s)

-- Each key of the first index is one of the second.
record Grows (m n : Index) : Type 0 where
  directories : (k : Text) → Has k m.path_directory → Has k n.path_directory
  ids : (k : Text) → Has k m.id_config → Has k n.id_config
  paths : (k : Text) → Has k m.full_path_config → Has k n.full_path_config

Grows-refl : (m : Index) → Grows m m
Grows-refl m = record { directories = λ k h. h; ids = λ k h. h; paths = λ k h. h }

Grows-trans : {l m n : Index} → Grows l m → Grows m n → Grows l n
Grows-trans g h = record {
  directories = λ k x. h.directories k (g.directories k x);
  ids = λ k x. h.ids k (g.ids k x);
  paths = λ k x. h.paths k (g.paths k x);
}

abbrev add_config : Config → Index → Index
add_config c m = record m {
  id_config = put_value c.id c m.id_config;
  full_path_config = put_value (config_full_path c) c m.full_path_config;
}

add_config-Grows : (c : Config) (m : Index) → Grows m (add_config c m)
add_config-Grows c m = record {
  directories = λ k h. h;
  ids = λ k h. Has-put k c.id c m.id_config h;
  paths = λ k h. Has-put k (config_full_path c) c m.full_path_config h;
}

add_configs-Grows : (cs : List Config) (m : Index) → Grows m (add_configs cs m)
unfolding add_configs
add_configs-Grows [] m = Grows-refl m
add_configs-Grows (c ∷ cs) m =
    Grows-trans (add_config-Grows c m) (add_configs-Grows cs (add_config c m))

add_directory-Grows : (t : Tree) (m : Index) → Grows m (add_directory t m)
unfolding add_directory
add_directory-Grows t m = record {
  directories = λ k h. Has-put_if_absent k (full_path (top_of t)) t m.path_directory h;
  ids = λ k h. h;
  paths = λ k h. h;
}

mutual
  unfolding directory_map

  directory_map-Grows : (t : Tree) (m : Index) → Grows m (directory_map t m)
  directory_map-Grows (node d ts cs) m =
      Grows-trans (add_directory-Grows (node d ts cs) m)
        (Grows-trans (add_configs-Grows cs _) (directory_maps-Grows ts _))

  directory_maps-Grows : (ts : Trees) (m : Index) → Grows m (directory_maps ts m)
  directory_maps-Grows no_trees m = Grows-refl m
  directory_maps-Grows (tree_cons t ts) m =
      Grows-trans (directory_map-Grows t m) (directory_maps-Grows ts (directory_map t m))

abbrev HasConfigAt : Config → Index → Type 0
HasConfigAt c m = Has c.id m.id_config × Has (config_full_path c) m.full_path_config

HasConfigAt-Grows : (c : Config) (m n : Index) → Grows m n → HasConfigAt c m → HasConfigAt c n
HasConfigAt-Grows c m n g (i, p) = (g.ids c.id i, g.paths (config_full_path c) p)

added : (cs : List Config) (m : Index) (c : Config) → Memᴰ c cs → HasConfigAt c (add_configs cs m)
unfolding add_configs
added [] m c i = elim i [ ]
added (e ∷ cs) m c (Memᴰ.head p) = rw p (
    HasConfigAt-Grows e (add_config e m) _ (add_configs-Grows cs (add_config e m))
      (Has-put_self e.id e m.id_config, Has-put_self (config_full_path e) e m.full_path_config))
added (e ∷ cs) m c (Memᴰ.tail i) = added cs (add_config e m) c i

module _ (c : Config) where
  mutual
    unfolding directory_map

    config_mapped : (t : Tree) (m : Index) → InTree c t → HasConfigAt c (directory_map t m)
    config_mapped (node d ts cs) m (InTree.here i) =
        HasConfigAt-Grows c _ _ (directory_maps-Grows ts _) (added cs _ c i)
    config_mapped (node d ts cs) m (InTree.below i) = config_mapped_among ts _ i

    config_mapped_among :
        (ts : Trees) (m : Index) → InTrees c ts → HasConfigAt c (directory_maps ts m)
    config_mapped_among no_trees m i = elim i [ ]
    config_mapped_among (tree_cons t ts) m (InTrees.first i) =
        HasConfigAt-Grows c _ _ (directory_maps-Grows ts (directory_map t m)) (config_mapped t m i)
    config_mapped_among (tree_cons t ts) m (InTrees.later i) =
        config_mapped_among ts (directory_map t m) i

module _ (n : Tree) where
  abbrev HasPath : Index → Type 0
  HasPath m = Has (full_path (top_of n)) m.path_directory

  top_mapped :
      (d : Directory) (ts : Trees) (cs : List Config) (m : Index)
      → n ≡ node d ts cs
      → HasPath (directory_map (node d ts cs) m)
  unfolding directory_map add_directory
  top_mapped d ts cs m e =
      (Grows-trans (add_configs-Grows cs _) (directory_maps-Grows ts _)).directories
        (full_path (top_of n))
        (rw e (Has-put_if_absent_self (full_path d) (node d ts cs) m.path_directory))

  mutual
    unfolding directory_map

    directory_mapped : (t : Tree) (m : Index) → Within n t → HasPath (directory_map t m)
    directory_mapped (node d ts cs) m (Within.itself e) = top_mapped d ts cs m e
    directory_mapped (node d ts cs) m (Within.inside i) = directory_mapped_among ts _ i

    directory_mapped_among :
        (ts : Trees) (m : Index) → WithinSome n ts → HasPath (directory_maps ts m)
    directory_mapped_among no_trees m i = elim i [ ]
    directory_mapped_among (tree_cons t ts) m (WithinSome.first i) =
        (directory_maps-Grows ts (directory_map t m)).directories (full_path (top_of n))
          (directory_mapped t m i)
    directory_mapped_among (tree_cons t ts) m (WithinSome.later i) =
        directory_mapped_among ts (directory_map t m) i

-- The maps of a tree: what a map gives for a key is in the tree and has that key, and every
-- directory and every config of the tree has an entry under its full path, and its id.
pub directory_map_exact :
    (t : Tree)
    → IsSound (λ n. Within n t) (λ c. InTree c t) (directory_map t empty_index)
      × ((n : Tree)
          → Within n t
          → Has (full_path (top_of n)) (directory_map t empty_index).path_directory)
      × ((c : Config)
          → InTree c t
          → Has c.id (directory_map t empty_index).id_config
            × Has (config_full_path c) (directory_map t empty_index).full_path_config)
directory_map_exact t = (
  directory_map-IsSound (λ n. Within n t) (λ c. InTree c t) t empty_index (λ n i. i) (λ c i. i)
      (record { directories = Entries-nil _; by_id = Entries-nil _; by_path = Entries-nil _ }),
  λ n i. directory_mapped n t empty_index i,
  λ c i. config_mapped c t empty_index i,
)
