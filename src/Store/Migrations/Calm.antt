-- ===== src/Store/Migrations/Calm.antt =====
-- NewStore of internal/store/sqlite/store.go where no statement fails for a reason from outside.
use mathlib.Core.List
use mathlib.Core.Path.{fun_ext}
use configfs.Store.Migrations.Steps.{map-same, or_own_id-twice}
use configfs.Prelude.{
  ℤ, int_eq, int_eq_refl, ◌≡◌, ◌⊎◌, refl, ap, ◌∙◌, sym, subst, true, false, not, List, [], ◌∷◌, map,
  Memᴰ, Option, none, some, arith, any, any_iff, if◌then◌else◌, Bool-cases, inl, inr,
}
use configfs.Exec.{Result, ok, err, ◌>>=◌}
use configfs.Store.Db.{ConfigRow, ContentRow}
use configfs.Store.Migrations.{
  ConfigTable, ContentTable, File, Disk, or_new, Failure, duplicate_column, Statement, or_own_id,
  exec, exec_all, on_config, on_content, schema, migrations, add_config_created_at,
  add_config_updated_at, add_content_created_at, add_content_updated_at, add_current_content_id,
  fill_current_content_id,
}
use configfs.Store.Migrations.Opening.{
  apply_migrations, table_has_column, in_transaction, version_statements, rename_content,
  create_content, copy_content, drop_legacy, all_configs, size_statements, migrate_content_versions,
  migrate_content_size,
}
use configfs.Store.Migrations.Upgrade.{
  IsFile, upgraded, file_of, upgraded_config_row, upgraded_content_row, config_of_file,
  content_of_file, config_ids,
}
use configfs.Store.Migrations.Rebuilds.{rebuilt}
use configfs.Store.Migrations.Sizes.{measured}
use configfs.Store.Migrations.Reopening.{index_step}

abbrev pub calm : File → Disk
calm f = record { file = f; faults = [] }

-- The file with every table there.
abbrev pub with_tables : File → ConfigTable → ContentTable → File
with_tables f t u = record f {
  inode = some (or_new 0 f.inode);
  config = some t;
  directory = some (or_new [] f.directory);
  config_content = some u;
  config_content_legacy = none;
  config_acl = some (or_new [] f.config_acl);
  directory_acl = some (or_new [] f.directory_acl);
}

pub schema-calm :
    (f : File)
    → f.config_content_legacy ≡ none
    → exec_all schema (calm f)
      ≡ (ok tt, calm (with_tables f (config_of_file f) (content_of_file f)))
unfolding exec_all exec schema ◌>>=◌
schema-calm f none_left =
    ap
      (λ (o : Option ContentTable). (
        ok tt,
        calm (record (with_tables f (config_of_file f) (content_of_file f)) {
          config_content_legacy = o;
        }),
      ))
      none_left

module _ (f : File) (ss : List Statement) where
  -- A round of the loop adds a column, or finds it there.
  config_round :
      (g : ConfigTable → Result Failure ConfigTable) (t t' : ConfigTable) (u : ContentTable)
      → (g t ≡ ok t') ⊎ ((g t ≡ err duplicate_column) × (t' ≡ t))
      → apply_migrations (on_config g ∷ ss) (calm (with_tables f t u))
        ≡ apply_migrations ss (calm (with_tables f t' u))
  unfolding apply_migrations exec on_config ◌>>=◌
  config_round g t t' u (inl e) = rw e refl
  config_round g t t' u (inr (e, same)) = rw (e, same) refl

  content_round :
      (g : ContentTable → Result Failure ContentTable) (t : ConfigTable) (u u' : ContentTable)
      → (g u ≡ ok u') ⊎ ((g u ≡ err duplicate_column) × (u' ≡ u))
      → apply_migrations (on_content g ∷ ss) (calm (with_tables f t u))
        ≡ apply_migrations ss (calm (with_tables f t u'))
  unfolding apply_migrations exec on_content ◌>>=◌
  content_round g t u u' (inl e) = rw e refl
  content_round g t u u' (inr (e, same)) = rw (e, same) refl

-- The table that a statement leaves, when a duplicate column is no error.
abbrev settled : {T : Type 0} → T → Result Failure T → T
settled t (ok t') = t'
settled t (err e) = t

abbrev Settles : {T : Type 0} → (T → Result Failure T) → T → Type 0
Settles g t = (g t ≡ ok (settled t (g t))) ⊎ ((g t ≡ err duplicate_column) × (settled t (g t) ≡ t))

created-Settles : (t : ConfigTable) → Settles add_config_created_at t
created-Settles t = elim (Bool-cases t.has_created_at) [
  | inl there ↦ inr (rw there (refl, refl))
  | inr missing ↦ inl (rw missing refl)
]

updated-Settles : (t : ConfigTable) → Settles add_config_updated_at t
updated-Settles t = elim (Bool-cases t.has_updated_at) [
  | inl there ↦ inr (rw there (refl, refl))
  | inr missing ↦ inl (rw missing refl)
]

current-Settles : (t : ConfigTable) → Settles add_current_content_id t
current-Settles t = elim (Bool-cases t.has_current_content_id) [
  | inl there ↦ inr (rw there (refl, refl))
  | inr missing ↦ inl (rw missing refl)
]

content_created-Settles : (t : ContentTable) → Settles add_content_created_at t
content_created-Settles t = elim (Bool-cases t.has_created_at) [
  | inl there ↦ inr (rw there (refl, refl))
  | inr missing ↦ inl (rw missing refl)
]

content_updated-Settles : (t : ContentTable) → Settles add_content_updated_at t
content_updated-Settles t = elim (Bool-cases t.has_updated_at) [
  | inl there ↦ inr (rw there (refl, refl))
  | inr missing ↦ inl (rw missing refl)
]

unfoldable pub dated : ConfigTable → ConfigTable
dated t =
    let a = settled t (add_config_created_at t) in
    let b = settled a (add_config_updated_at a) in settled b (add_current_content_id b)

unfoldable pub pointed : ConfigTable → ConfigTable
pointed t = settled t (fill_current_content_id t)

unfoldable pub dated_content : ContentTable → ContentTable
dated_content t =
    let a = settled t (add_content_created_at t) in settled a (add_content_updated_at a)

pub record IsDated (t : ConfigTable) : Type 0 where
  pub created : t.has_created_at ≡ true
  pub updated : t.has_updated_at ≡ true
  pub current : t.has_current_content_id ≡ true

pub record IsDatedContent (t : ContentTable) : Type 0 where
  pub created : t.has_created_at ≡ true
  pub updated : t.has_updated_at ≡ true

pub dated-IsDated : (t : ConfigTable) → IsDated (dated t)
unfolding dated
dated-IsDated t = ground arith

pub pointed-IsDated : (t : ConfigTable) → IsDated t → IsDated (pointed t)
unfolding pointed
pointed-IsDated t d = ground (arith, d.created, d.updated, d.current)

pub dated_content-IsDated : (t : ContentTable) → IsDatedContent (dated_content t)
unfolding dated_content
dated_content-IsDated t = ground arith

fill-Settles : (t : ConfigTable) → IsDated t → Settles fill_current_content_id t
fill-Settles t d = inl (rw d.current refl)

pub loop_calm :
    (f : File) (t : ConfigTable) (u : ContentTable)
    → apply_migrations migrations (calm (with_tables f t u))
      ≡ (ok tt, calm (with_tables f (pointed (dated t)) (dated_content u)))
unfolding migrations dated pointed dated_content
loop_calm f t u =
    let a = settled t (add_config_created_at t) in
    let b = settled a (add_config_updated_at a) in
    let c = settled b (add_current_content_id b) in
    let x = settled u (add_content_created_at u) in
    let y = settled x (add_content_updated_at x) in
    config_round f _ add_config_created_at t a u (created-Settles t)
    ∙ config_round f _ add_config_updated_at a b u (updated-Settles a)
    ∙ content_round f _ add_content_created_at b u x (content_created-Settles u)
    ∙ content_round f _ add_content_updated_at b x y (content_updated-Settles x)
    ∙ config_round f _ add_current_content_id b c y (current-Settles b)
    ∙ config_round f _ fill_current_content_id c (settled c (fill_current_content_id c)) y
        (fill-Settles c (dated-IsDated t))
    ∙ (unfold apply_migrations in refl)

all_configs_of :
    (ids : List ℤ) (rs : List ContentRow)
    → ((n : ℤ) → Memᴰ n (map (λ (r : ContentRow). r.id) rs) → Memᴰ n ids)
    → all_configs ids rs ≡ true
unfolding all_configs
all_configs_of ids [] h = refl
all_configs_of ids (r ∷ rs) h =
    let here : any (int_eq r.id) ids ≡ true =
      (any_iff (int_eq r.id) ids).1 (r.id, h r.id (Memᴰ.head refl), int_eq_refl r.id) in
    rw here (all_configs_of ids rs (λ n m. h n (Memᴰ.tail m)))

abbrev pub versioned_table : ContentTable → ContentTable
versioned_table u = if u.has_config_id then u else rebuilt u

pub versions_calm :
    (f : File) (t : ConfigTable) (u : ContentTable)
    → IsFile (with_tables f t u)
    → IsDatedContent u
    → migrate_content_versions (calm (with_tables f t u))
      ≡ (ok tt, calm (with_tables f t (versioned_table u)))
unfolding migrate_content_versions table_has_column in_transaction version_statements exec_all exec
    rename_content create_content copy_content drop_legacy ◌>>=◌
versions_calm f t u v d = elim (Bool-cases u.has_config_id) [
  | inl there ↦ rw there refl
  | inr missing ↦
      let keyed = all_configs_of (config_ids t) u.rows (v.pair.keyed missing) in
      rw (missing, d.created, d.updated, keyed) refl
]

abbrev pub sized_config : ContentTable → ConfigTable → ConfigTable
sized_config u t = if u.has_content_size then t else record t { has_content_size = false }

abbrev pub sized_content : ContentTable → ContentTable
sized_content u = if u.has_content_size then u else measured u

pub sizes_calm :
    (f : File) (t : ConfigTable) (u : ContentTable)
    → t.has_content_size ≡ not u.has_content_size
    → migrate_content_size (calm (with_tables f t u))
      ≡ (ok tt, calm (with_tables f (sized_config u t) (sized_content u)))
unfolding migrate_content_size table_has_column in_transaction size_statements exec_all exec
    on_content on_config ◌>>=◌
sizes_calm f t u one = elim (Bool-cases u.has_content_size) [
  | inl there ↦ rw there refl
  | inr missing ↦
      let old : t.has_content_size ≡ true = one ∙ ap not missing in rw (missing, old) refl
]

pub index_calm :
    (f : File) (t : ConfigTable) (u : ContentTable)
    → u.has_config_id ≡ true
    → index_step (calm (with_tables f t u)) ≡ (ok tt, calm (with_tables f t u))
unfolding exec on_content
index_calm f t u versioned = rw versioned refl

abbrev pub pointed_row : ConfigRow → ConfigRow
pointed_row r = record r { current_content_id = or_own_id r.id r.current_content_id }

-- Every config names a current version.
abbrev pub IsPointed : ConfigTable → Type 0
IsPointed t = map pointed_row t.rows ≡ t.rows

pub pointed-IsPointed : (t : ConfigTable) → IsDated t → IsPointed (pointed t)
unfolding pointed
pointed-IsPointed t d =
    let rows : (pointed t).rows ≡ map pointed_row t.rows = rw d.current refl in
    subst (λ (l : List ConfigRow). map pointed_row l ≡ l) (sym rows)
      (map-same pointed_row pointed_row pointed_row t.rows (λ r.
        ap (λ o. record r { current_content_id = o }) (or_own_id-twice r.id r.current_content_id)))

-- A table that has every column holds what the store reads.
pub newest :
    (f : File) (t : ConfigTable) (u : ContentTable)
    → IsDated t
    → IsPointed t
    → IsDatedContent u
    → t.has_content_size ≡ false
    → u.has_content_size ≡ true
    → u.has_config_id ≡ true
    → with_tables f t u ≡ file_of (upgraded (with_tables f t u))
unfolding upgraded file_of
newest f t u d p e small sized versioned =
    let configs : map (upgraded_config_row t) t.rows ≡ t.rows =
      ap (λ (m : ConfigRow → ConfigRow). map m t.rows)
        (fun_ext (λ r. ground (arith, d.created, d.updated, d.current)))
      ∙ p in
    let contents : map (upgraded_content_row u) u.rows ≡ u.rows =
      ap (λ (m : ContentRow → ContentRow). map m u.rows)
        (fun_ext (λ r. ground (arith, e.created, e.updated, sized, versioned)))
      ∙ List.map-id u.rows in
    rw (configs, contents)
      (ground
        (arith, d.created, d.updated, d.current, e.created, e.updated, small, sized, versioned))
