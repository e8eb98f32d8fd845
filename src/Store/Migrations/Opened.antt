-- ===== src/Store/Migrations/Opened.antt =====
-- What NewStore of internal/store/sqlite/store.go leaves when it returns.
use configfs.Prelude.{◌≡◌, refl, ap, ◌∙◌, sym, subst, true, false, not, arith, Bool-cases, inl, inr}
use configfs.Exec.{Result, ok, Exec, ◌>>=◌}
use configfs.Store.Migrations.{
  ConfigTable, ContentTable, File, Disk, OpenError, schema_panics, or_error, exec_all, schema,
  migrations,
}
use configfs.Store.Migrations.Opening.{
  with_result, apply_migrations, migrate_content_versions, migrate_content_size, new_store,
}
use configfs.Store.Migrations.Upgrade.{IsFile, upgraded, file_of, config_of_file, content_of_file}
use configfs.Store.Migrations.Keeps.{migrations-IsKept}
use configfs.Store.Migrations.Runs.{IsSafe-apply}
use configfs.Store.Migrations.Reopening.{index_step, rebuilds, versions-IsSafe, reopening_safe}
use configfs.Store.Migrations.Calm.{
  calm, with_tables, dated, pointed, dated_content, IsDated, IsDatedContent, IsPointed, newest,
  schema-calm, loop_calm, versioned_table, versions_calm, sized_config, sized_content, sizes_calm,
  index_calm, dated-IsDated, pointed-IsDated, dated_content-IsDated, pointed-IsPointed,
}

pub bind_calm :
    {E A B : Type 0} (m : Exec Disk E A) (k : A → Exec Disk E B) (w w' : Disk) (a : A)
    → m w ≡ (ok a, w')
    → (m >>= k) w ≡ k a w'
unfolding ◌>>=◌
bind_calm m k w w' a e = rw e refl

versioned_table-versions : (u : ContentTable) → (versioned_table u).has_config_id ≡ true
versioned_table-versions u = ground arith

versioned_table-IsDated : (u : ContentTable) → IsDatedContent u → IsDatedContent (versioned_table u)
versioned_table-IsDated u d = ground (arith, d.created, d.updated)

module _ (u : ContentTable) where
  sized_content-sized : (sized_content u).has_content_size ≡ true
  sized_content-sized = ground arith

  sized_content-versions : (sized_content u).has_config_id ≡ u.has_config_id
  sized_content-versions = ground arith

  sized_content-IsDated : IsDatedContent u → IsDatedContent (sized_content u)
  sized_content-IsDated d = ground (arith, d.created, d.updated)

  module _ (t : ConfigTable) where
    sized_config-small :
        t.has_content_size ≡ not u.has_content_size → (sized_config u t).has_content_size ≡ false
    sized_config-small one = ground (arith, one)

    sized_config-IsDated : IsDated t → IsDated (sized_config u t)
    sized_config-IsDated d = ground (arith, d.created, d.updated, d.current)

    sized_config-IsPointed : IsPointed t → IsPointed (sized_config u t)
    sized_config-IsPointed p = elim (Bool-cases u.has_content_size) [
      | inl there ↦ rw there p
      | inr missing ↦ rw missing p
    ]

module _ (f : File) (v : IsFile f) where
  abbrev t : ConfigTable
  t = pointed (dated (config_of_file f))

  abbrev u : ContentTable
  u = dated_content (content_of_file f)

  abbrev versioned : ContentTable
  versioned = versioned_table u

  abbrev last_file : File
  last_file = with_tables f (sized_config versioned t) (sized_content versioned)

  flat-IsFile : IsFile (with_tables f t u)
  flat-IsFile =
      let f1 = with_tables f (config_of_file f) (content_of_file f) in
      let v1 : IsFile f1 = record { no_legacy = refl; pair = v.pair } in
      subst (λ (r : Result OpenError (Unit {0}) × Disk). IsFile r.1.file) (loop_calm f _ _)
        ((IsSafe-apply migrations migrations-IsKept).keeps (calm f1) v1).valid

  versioned-IsFile : IsFile (with_tables f t versioned)
  versioned-IsFile =
      subst (λ (r : Result OpenError (Unit {0}) × Disk). IsFile r.1.file)
        (versions_calm f t u flat-IsFile (dated_content-IsDated _))
        (versions-IsSafe.keeps (calm (with_tables f t u)) flat-IsFile).valid

  opened : new_store (calm f) ≡ (ok tt, calm last_file)
  unfolding new_store
  opened =
      bind_calm (with_result (or_error schema_panics) (exec_all schema)) _ (calm f) _ tt
        (rw (schema-calm f v.no_legacy) refl)
      ∙ bind_calm (apply_migrations migrations) (λ _. rebuilds) _ _ tt (loop_calm f _ _)
      ∙ bind_calm migrate_content_versions _ _ _ tt
          (versions_calm f t u flat-IsFile (dated_content-IsDated _))
      ∙ bind_calm migrate_content_size (λ _. index_step) _ _ tt
          (sizes_calm f t versioned versioned-IsFile.pair.one_size)
      ∙ index_calm f _ (sized_content versioned)
          (sized_content-versions versioned ∙ versioned_table-versions u)

  last-newest : last_file ≡ file_of (upgraded last_file)
  last-newest =
      let d = dated-IsDated (config_of_file f) in
      let one = versioned-IsFile.pair.one_size in
      newest f _ _ (sized_config-IsDated versioned t (pointed-IsDated _ d))
        (sized_config-IsPointed versioned t (pointed-IsPointed _ d))
        (sized_content-IsDated versioned (versioned_table-IsDated u (dated_content-IsDated _)))
        (sized_config-small versioned t one) (sized_content-sized versioned)
        (sized_content-versions versioned ∙ versioned_table-versions u)

-- Where no statement fails for a reason from outside, a file of any version is opened: NewStore
-- returns, and the file holds, in its newest form, the tables that it comes to.
pub new_store_opens :
    (f : File) → IsFile f → new_store (calm f) ≡ (ok tt, calm (file_of (upgraded f)))
new_store_opens f v =
    let same : upgraded (last_file f v) ≡ upgraded f =
      ap (λ (r : Result OpenError (Unit {0}) × Disk). upgraded r.1.file) (sym (opened f v))
      ∙ (reopening_safe (calm f) v).1 in
    opened f v ∙ ap (λ (g : File). (ok tt, calm g)) (last-newest f v ∙ ap file_of same)
