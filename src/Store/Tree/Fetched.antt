-- ===== src/Store/Tree/Fetched.antt =====
-- What TreeForACLTags (internal/store/sqlite/store.go) fetches, and which configs it keeps.
use mathlib.Core.List
use configfs.Prelude.{
  ℕ, ℤ, ◌≡◌, ◌≢◌, refl, sym, ap, ◌∙◌, subst, inl, inr, true, not, List, [], ◌∷◌, ◌++◌, map, Memᴰ,
  arith, keep, append_assoc, Bool-cases,
}
use configfs.Strings.{Text, slash, text_eq}
use configfs.Strings.Like.{like, like_of_has_prefix}
use configfs.Proto.{acl_read, ConfigAcl, Config, Directory, full_path, config_allows}
use configfs.Exec.{raise}
use configfs.Store.Db.{ConfigRow, DirectoryRow, Db, tree_directory_missing}
use configfs.Store.Db.Ensures.{
  Ensures, Ensures-pure, Ensures-raise, Ensures-query, Ensures-if, Ensures-bind, Ensures-weaken,
}
use configfs.Store.Acls.{of_directory, acls_of}
use configfs.Store.Configs.{ConfigSelect, select_row, config_of}
use configfs.Store.Configs.Lookup.{message_of}
use configfs.Store.Directories.{order_by_path, directory_of}
use configfs.Store.Directories.Chain.{directory_at, load_acls-Ensures, mem-order_by_path}
use configfs.Store.Tree.{
  PathMap, get_path, all_directories_with_acls, prefilter, under_prefix, has_directory,
  visible_configs,
}
use configfs.Store.Tree.Readable.{IsPlain, ArePlain}

-- The stored directories have paths and names, and no two of them the same full path.
pub record HasPlainDirectories (db : Db) : Type 0 where
  pub plain : (r : DirectoryRow) → Memᴰ r db.directory → (r.path ≢ []) × (r.name ≢ [])
  pub unique :
      (r q : DirectoryRow)
      → Memᴰ r db.directory
      → Memᴰ q db.directory
      → full_path (directory_at db r) ≡ full_path (directory_at db q)
      → r ≡ q

abbrev pub directories_at : Db → List Directory
directories_at db = map (directory_at db) (order_by_path db.directory)

pub directories-ArePlain : (db : Db) → HasPlainDirectories db → ArePlain (directories_at db)
unfolding directory_of
directories-ArePlain db h = record {
  plain = λ d m.
      let (r, i, e) = List.Memᴰ.of_map (directory_at db) (order_by_path db.directory) m in
      let (some_path, named) = h.plain r ((mem-order_by_path r db.directory).0 i) in
      subst IsPlain e (record { rooted = some_path; named = named });
  unique = λ d e m n same.
      let (r, i, p) = List.Memᴰ.of_map (directory_at db) (order_by_path db.directory) m in
      let (q, j, o) = List.Memᴰ.of_map (directory_at db) (order_by_path db.directory) n in
      sym p
      ∙ ap (directory_at db) (
          h.unique r q ((mem-order_by_path r db.directory).0 i)
            ((mem-order_by_path q db.directory).0 j) (ap full_path p ∙ same ∙ sym (ap full_path o)))
      ∙ o;
}

map-eq :
    {A B : Type 0} (f g : A → B) (xs : List A)
    → ((x : A) → Memᴰ x xs → f x ≡ g x)
    → map f xs ≡ map g xs
map-eq f g [] h = refl
map-eq f g (x ∷ xs) h = rw (h x (Memᴰ.head refl), map-eq f g xs (λ y m. h y (Memᴰ.tail m))) refl

pub directories-exact :
    (db : Db) (now : ℕ)
    → Ensures all_directories_with_acls db now (λ dirs db'. (db' ≡ db) × (dirs ≡ directories_at db))
unfolding all_directories_with_acls directory_of
directories-exact db now = Ensures-bind _ _ (
    Ensures-query _ (
      Ensures-bind _ _ (
        Ensures-weaken (load_acls-Ensures of_directory _ db now) (λ acls db1 (same, loaded).
          rw same (
            Ensures-pure _ (
              refl,
              map-eq _ _ (order_by_path db.directory)
                  (λ r m. rw (loaded r.id (List.Memᴰ.map (λ (q : DirectoryRow). q.id) m)) refl),
            ))))))

abbrev pub configs_at : Text → Db → List Config
configs_at prefix db = map (message_of db) (keep (prefilter prefix) db.config)

pub configs-exact :
    (prefix : Text) (db : Db) (acls : ℤ → List ConfigAcl)
    → ((n : ℤ)
        → Memᴰ n (
            map
              (λ (s : ConfigSelect). s.row.id)
              (map (select_row db) (keep (prefilter prefix) db.config)))
        → acls n ≡ acls_of n db.config_acl)
    → map
        (λ (s : ConfigSelect). config_of (acls s.row.id) s)
        (map (select_row db) (keep (prefilter prefix) db.config))
      ≡ configs_at prefix db
unfolding select_row
configs-exact prefix db acls loaded =
    List.map-map _ _ (keep (prefilter prefix) db.config)
    ∙ map-eq _ _ (keep (prefilter prefix) db.config) (λ row m.
      ap (λ a. config_of a (select_row db row))
        (loaded row.id
          (List.Memᴰ.map (λ (s : ConfigSelect). s.row.id) (List.Memᴰ.map (select_row db) m))))

-- The query for configs fetches all that the exact test keeps.
pub prefilter_of_under :
    (prefix : Text) (c : ConfigRow) → under_prefix prefix c.path ≡ true → prefilter prefix c ≡ true
unfolding under_prefix prefilter
prefilter_of_under prefix c h = elim (Bool-cases (text_eq prefix [])) [
  | inl everything ↦ rw everything refl
  | inr some_prefix ↦ elim (Bool-cases (text_eq c.path prefix)) [
    | inl same ↦ rw (some_prefix, same) refl
    | inr below ↦
        let longer : like (prefix ++ slash ∷ 0x25 ∷ []) c.path ≡ true =
          rw (← append_assoc prefix (slash ∷ []) (0x25 ∷ [])) (
            like_of_has_prefix (prefix ++ slash ∷ []) c.path
              (ground (arith, h, some_prefix, below))) in
        rw (some_prefix, below) longer
  ]
]

-- The configs that the loop must keep.
pub record IsShown (tags : List Text) (prefix : Text) (readable : PathMap) (c : Config)
    : Type 0 where
  pub under : under_prefix prefix c.path ≡ true
  pub allowed : config_allows tags acl_read c.acls ≡ true
  pub reachable : get_path c.path readable ≡ true

module _ (tags : List Text) (prefix : Text) (dirs : List Directory) (readable : PathMap) (db : Db)
    (now : ℕ) where
  pub visible_configs_complete :
      (cs : List Config)
      → Ensures (visible_configs tags prefix dirs readable cs) db now (λ shown db'.
        (db' ≡ db) × ((c : Config) → Memᴰ c cs → IsShown tags prefix readable c → Memᴰ c shown))
  unfolding visible_configs
  visible_configs_complete [] = Ensures-pure _ (refl, λ c m s. m)
  visible_configs_complete (c ∷ cs) =
      let others = visible_configs_complete cs in
      let skipped : ((IsShown tags prefix readable c) → ⊥)
          → Ensures (visible_configs tags prefix dirs readable cs) db now (λ shown db'.
            (db' ≡ db)
            × ((e : Config) → Memᴰ e (c ∷ cs) → IsShown tags prefix readable e → Memᴰ e shown)) =
        λ hidden. Ensures-weaken others (λ shown db' (same, all). (
          same,
          λ e m s. elim m [
            | Memᴰ.head p ↦ absurd (hidden (subst (IsShown tags prefix readable) p s))
            | Memᴰ.tail i ↦ all e i s
          ],
        )) in
      Ensures-if (not (under_prefix prefix c.path)) _ _
        (λ h. skipped (λ s. ground (arith, h, s.under)))
        (λ under.
          Ensures-if (not (config_allows tags acl_read c.acls)) _ _
            (λ h. skipped (λ s. ground (arith, h, s.allowed)))
            (λ allowed.
              Ensures-if (not (has_directory dirs c.path)) (raise (tree_directory_missing c.path)) _
                (λ _. Ensures-raise _)
                (λ _.
                  Ensures-if (not (get_path c.path readable)) _ _
                    (λ h. skipped (λ s. ground (arith, h, s.reachable)))
                    (λ _. Ensures-bind _ _ (
                      Ensures-weaken others (λ shown db' (same, all). rw same (
                        Ensures-pure _ (
                          refl,
                          λ e m s. elim m [
                            | Memᴰ.head p ↦ Memᴰ.head p
                            | Memᴰ.tail i ↦ Memᴰ.tail (all e i s)
                          ],
                        ))))))))
