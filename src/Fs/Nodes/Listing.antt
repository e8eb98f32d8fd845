-- ===== src/Fs/Nodes/Listing.antt =====
-- A directory of the mount lists exactly the names that can be looked up in it.
use configfs.Prelude.{
  ◌≡◌, refl, ap, ◌∙◌, inl, inr, List, [], ◌∷◌, ◌++◌, map, Memᴰ, Option, some, arith, Bool-cases,
  Option-cases,
}
use configfs.Strings.{Text, text_eq}
use configfs.Strings.Laws.{text_eq_refl, eq_of_text_eq}
use configfs.Proto.{Config, Tree, Trees, no_trees, tree_cons, full_path, numerical_inode}
use configfs.Exec.{ok, ◌>>=◌}
use configfs.Fs.Index.{top_of, get_value}
use configfs.Fs.Snapshot.{Mount, subdirectories, configs_within, directory}
use configfs.Fs.Nodes.{
  Node, dir_node, config_node, Dirent, dt_dir, dt_file, directory_entries, config_entry,
  lookup_config, lookup_among, found, lookup, read_dir_all,
}

-- The node that an entry of a listing stands for: a directory, or a config whose inode it shows.
pub data Shows : Dirent → Node → Type 0 where
  shows_directory : {e : Dirent} {path : Text} → e.kind ≡ dt_dir → Shows e (dir_node path)
  shows_config :
      {e : Dirent} {id : Text}
      → e.kind ≡ dt_file
      → e.inode ≡ numerical_inode (some id)
      → Shows e (config_node id)

abbrev entries : Trees → List Config → List Dirent
entries ts cs = directory_entries ts ++ map config_entry cs

-- The entry of a name that is looked up.
abbrev pub Listed : List Dirent → Text → Node → Type 0
Listed es name n = (e : Dirent) × Memᴰ e es × (e.name ≡ name) × Shows e n

module _ (name : Text) where
  lookup_config-Listed :
      (cs : List Config) (n : Node)
      → lookup_config name cs ≡ some n
      → Listed (map config_entry cs) name n
  unfolding lookup_config config_entry
  lookup_config-Listed [] n h = cc
  lookup_config-Listed (c ∷ cs) n h = elim (Bool-cases (text_eq c.name name)) [
    | inl same ↦ (
      config_entry c,
      Memᴰ.head refl,
      eq_of_text_eq c.name name same,
      rw (← some_node (rw same at h)) (Shows.shows_config refl refl),
    )
    | inr other ↦
        let (e, m, p, q) = lookup_config-Listed cs n (rw other at h) in (e, Memᴰ.tail m, p, q)
  ]
    where
      some_node : {a b : Node} → some a ≡ some b → a ≡ b
      some_node e = ground arith

  lookup-Listed :
      (ts : Trees) (cs : List Config) (n : Node)
      → lookup_among name ts cs ≡ some n
      → Listed (entries ts cs) name n
  unfolding lookup_among directory_entries
  lookup-Listed no_trees cs n h = lookup_config-Listed cs n h
  lookup-Listed (tree_cons t ts) cs n h = elim (Bool-cases (text_eq (top_of t).name name)) [
    | inl same ↦ (
      _,
      Memᴰ.head refl,
      eq_of_text_eq (top_of t).name name same,
      rw (← some_node (rw same at h)) (Shows.shows_directory refl),
    )
    | inr other ↦ let (e, m, p, q) = lookup-Listed ts cs n (rw other at h) in (e, Memᴰ.tail m, p, q)
  ]
    where
      some_node : {a b : Node} → some a ≡ some b → a ≡ b
      some_node e = ground arith

-- A name that some entry has is found.
lookup_config_found :
    (cs : List Config) (e : Dirent)
    → Memᴰ e (map config_entry cs)
    → (n : Node) × (lookup_config e.name cs ≡ some n)
unfolding lookup_config config_entry
lookup_config_found [] e m = elim m [ ]
lookup_config_found (c ∷ cs) e (Memᴰ.head p) = (config_node c.id, rw (p, text_eq_refl c.name) refl)
lookup_config_found (c ∷ cs) e (Memᴰ.tail m) =
    let (n, h) = lookup_config_found cs e m in
    elim (Bool-cases (text_eq c.name e.name)) [
      | inl same ↦ (config_node c.id, rw same refl)
      | inr other ↦ (n, rw other h)
    ]

lookup_found :
    (ts : Trees) (cs : List Config) (e : Dirent)
    → Memᴰ e (entries ts cs)
    → (n : Node) × (lookup_among e.name ts cs ≡ some n)
unfolding lookup_among directory_entries
lookup_found no_trees cs e m = lookup_config_found cs e m
lookup_found (tree_cons t ts) cs e (Memᴰ.head p) =
    (dir_node (full_path (top_of t)), rw (p, text_eq_refl (top_of t).name) refl)
lookup_found (tree_cons t ts) cs e (Memᴰ.tail m) =
    let (n, h) = lookup_found ts cs e m in
    elim (Bool-cases (text_eq (top_of t).name e.name)) [
      | inl same ↦ (dir_node (full_path (top_of t)), rw same refl)
      | inr other ↦ (n, rw other h)
    ]

module _ {R : Type 0} where
  -- In one state of the mount, reading a directory and looking names up in it agree: every listed
  -- name is found, and every name that is found is listed, by an entry of the kind of the node
  -- found and, for a config, with its inode.
  pub lookup-read_dir_all :
      (path : Text) (s : Mount R)
      → (es : List Dirent) × ((read_dir_all path s).0 ≡ ok es)
        × ((e : Dirent) → Memᴰ e es → (n : Node) × ((lookup path e.name s).0 ≡ ok n))
        × ((name : Text) (n : Node) → (lookup path name s).0 ≡ ok n → Listed es name n)
  unfolding read_dir_all lookup directory found ◌>>=◌
  lookup-read_dir_all path s =
      let dir : Option Tree = get_value path s.snapshot.index.path_directory in
      (
        entries (subdirectories dir) (configs_within dir),
        refl,
        (λ e m.
            let (n, h) = lookup_found (subdirectories dir) (configs_within dir) e m in
            (n, rw (h, found) refl)),
        λ name n h.
            elim (Option-cases (lookup_among name (subdirectories dir) (configs_within dir))) [
              | inl absent ↦ cc (rw (absent, found) at h)
              | inr (k, there) ↦
                  lookup-Listed name (subdirectories dir) (configs_within dir) n
                    (there ∙ ap some (ground (arith, rw (there, found) at h)))
            ],
      )
