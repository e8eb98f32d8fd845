-- ===== src/Store/Migrations/Reopening.antt =====
-- NewStore of internal/store/sqlite/store.go, when it fails at any statement.
use configfs.Prelude.{
  ◌≡◌, ◌⊎◌, refl, sym, subst, Bool, true, false, List, arith, if◌then◌else◌, Bool-cases, inl, inr,
}
use configfs.Exec.{Result, ok, err, Exec, pure, continue, ◌>>=◌}
use configfs.Store.Db.{fails, later}
use configfs.Store.Migrations.{
  ContentTable, File, Disk, OpenError, schema_panics, versioning_failed, content_size_failed,
  index_failed, Statement, or_error, exec, exec_all, on_content, schema, migrations,
}
use configfs.Store.Migrations.Opening.{
  with_result, apply_migrations, column_in, table_has_column, in_transaction, version_statements,
  size_statements, migrate_content_versions, migrate_content_size, index_content, new_store,
}
use configfs.Store.Migrations.Upgrade.{IsFile, upgraded}
use configfs.Store.Migrations.Steps.{IsSameContent}
use configfs.Store.Migrations.Keeps.{
  Keeps, Keeps-refl, Keeps-trans, IsKept, on_content-IsKept, migrations-IsKept, schema-IsKept,
}
use configfs.Store.Migrations.Runs.{
  Ran, IsSafe, IsSafe-bind, IsSafe-with_result, IsSafe-exec, IsSafe-exec_all, IsSafe-apply,
  in_transaction-Keeps, in_transaction_ok,
}
use configfs.Store.Migrations.Rebuilds.{versions_Ran, versions_keep}
use configfs.Store.Migrations.Sizes.{sizes_keep}

-- The shape of both rebuilds: nothing where the column is there, and else a transaction.
module _ (e : OpenError) (column : ContentTable → Bool) (ss : List Statement) where
  abbrev rebuild : Exec Disk OpenError (Unit {0})
  rebuild = with_result (or_error e) (table_has_column column) >>= λ has.
      if has then pure tt else in_transaction e ss

  rebuild-Keeps :
      (w : Disk)
      → IsFile w.file
      → (column_in column w.file.config_content ≡ false
          → (g : File) → Ran ss w.file g
          → Keeps w.file g)
      → Keeps w.file (rebuild w).1.file
  unfolding ◌>>=◌ table_has_column
  rebuild-Keeps w v p = elim (Bool-cases (fails w.faults)) [
    | inl fault ↦ rw fault (Keeps-refl v)
    | inr ran ↦ elim (Bool-cases (column_in column w.file.config_content)) [
      | inl there ↦ rw (ran, there) (Keeps-refl v)
      | inr missing ↦
          rw (ran, missing)
            (in_transaction-Keeps e ss (record w { faults = later w.faults }) v (p missing))
    ]
  ]

  rebuild_ok :
      (w : Disk)
      → (rebuild w).0 ≡ ok tt
      → ((column_in column w.file.config_content ≡ true) × ((rebuild w).1.file ≡ w.file))
        ⊎ Ran ss w.file (rebuild w).1.file
  unfolding ◌>>=◌ table_has_column
  rebuild_ok w h = elim (Bool-cases (fails w.faults)) [
    | inl fault ↦ cc (rw fault at h)
    | inr ran ↦ elim (Bool-cases (column_in column w.file.config_content)) [
      | inl there ↦ rw (ran, there) (inl (refl, refl))
      | inr missing ↦
          rw (ran, missing)
            (inr (
              in_transaction_ok e ss (record w { faults = later w.faults })
                (rw (ran, missing) at h)))
    ]
  ]

pub versions-IsSafe : IsSafe migrate_content_versions
unfolding migrate_content_versions
versions-IsSafe = record {
  keeps = λ w v.
      rebuild-Keeps versioning_failed (λ t. t.has_config_id) version_statements w v
        (λ missing g ran. versions_keep w.file g v missing ran);
}

versions_ok :
    (w : Disk)
    → (migrate_content_versions w).0 ≡ ok tt
    → column_in (λ t. t.has_config_id) (migrate_content_versions w).1.file.config_content ≡ true
unfolding migrate_content_versions
versions_ok w h =
    elim (rebuild_ok versioning_failed (λ t. t.has_config_id) version_statements w h) [
      | inl (there, same) ↦
          subst (λ (f : File). column_in (λ t. t.has_config_id) f.config_content ≡ true) (sym same)
            there
      | inr ran ↦
          let (t, at, c, u, e) = versions_Ran w.file _ ran in
          subst (λ (f : File). column_in (λ t. t.has_config_id) f.config_content ≡ true) (sym e)
            refl
    ]

sizes-Keeps :
    (w : Disk)
    → IsFile w.file
    → column_in (λ t. t.has_config_id) w.file.config_content ≡ true
    → Keeps w.file (migrate_content_size w).1.file
unfolding migrate_content_size
sizes-Keeps w v versioned =
    rebuild-Keeps content_size_failed (λ t. t.has_content_size) size_statements w v
      (λ missing g ran. sizes_keep w.file g v versioned ran)

index-IsKept : IsKept (on_content index_content)
index-IsKept = on_content-IsKept index_content (λ t t' e.
    let same : t ≡ t' = ground (arith, e) in
    subst (IsSameContent t) same
      (record { comes_to = refl; size = refl; versioned = refl; ids = refl }))

-- A step after one that leaves something to rely on.
IsSafe-after :
    {A B : Type 0} (m : Exec Disk OpenError A) (f : A → Exec Disk OpenError B) (w : Disk)
    → Keeps w.file (m w).1.file
    → ((a : A) → (m w).0 ≡ ok a → Keeps (m w).1.file (f a (m w).1).1.file)
    → Keeps w.file ((m >>= f) w).1.file
unfolding ◌>>=◌
IsSafe-after {A} {B} m f w k p = ended (m w).0 refl
  where
    ended : (r : Result OpenError A) → (m w).0 ≡ r → Keeps w.file (continue r f (m w).1).1.file
    ended (ok a) e = Keeps-trans k (p a e)
    ended (err x) e = k

abbrev pub index_step : Exec Disk OpenError (Unit {0})
index_step = with_result (or_error index_failed) (exec (on_content index_content))

abbrev pub rebuilds : Exec Disk OpenError (Unit {0})
rebuilds = migrate_content_versions >>= λ _. (migrate_content_size >>= λ _. index_step)

index-IsSafe : IsSafe index_step
index-IsSafe =
    IsSafe-with_result (or_error index_failed) _
      (IsSafe-exec (on_content index_content) index-IsKept)

rebuilds-IsSafe : IsSafe rebuilds
rebuilds-IsSafe = record {
  keeps = λ w v.
      let k = versions-IsSafe.keeps w v in
      IsSafe-after migrate_content_versions _ w k (λ a e.
        let w2 = (migrate_content_versions w).1 in
        let k2 = sizes-Keeps w2 k.valid (versions_ok w e) in
        IsSafe-after migrate_content_size (λ _. index_step) w2 k2
          (λ b h. index-IsSafe.keeps (migrate_content_size w2).1 k2.valid));
}

new_store-IsSafe : IsSafe new_store
unfolding new_store
new_store-IsSafe =
    IsSafe-bind (with_result (or_error schema_panics) (exec_all schema)) _
      (IsSafe-with_result (or_error schema_panics) _ (IsSafe-exec_all schema schema-IsKept))
      (λ _.
        IsSafe-bind (apply_migrations migrations) _ (IsSafe-apply migrations migrations-IsKept)
          (λ _. rebuilds-IsSafe))

-- Whatever statements fail, at whatever point: after an attempt to open a file of any version, the
-- file is still one, and comes to the same tables as before.
pub reopening_safe :
    (w : Disk)
    → IsFile w.file
    → IsFile (new_store w).1.file × (upgraded (new_store w).1.file ≡ upgraded w.file)
reopening_safe w v = let k = new_store-IsSafe.keeps w v in (k.valid, k.same)
