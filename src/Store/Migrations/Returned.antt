-- ===== src/Store/Migrations/Returned.antt =====
-- A step of NewStore (internal/store/sqlite/store.go) that returns has done what it does where
-- nothing fails from outside.
use configfs.Prelude.{
  ◌≡◌, refl, ap, ◌∙◌, sym, Bool, true, false, List, [], ◌∷◌, arith, if◌then◌else◌, Bool-cases, inl,
  inr,
}
use configfs.Exec.{Result, ok, err, Exec, pure, ◌>>=◌}
use configfs.Exec.Ensures.{bind_rest}
use configfs.Store.Db.{Db, fails, later}
use configfs.Store.Migrations.Reopening.{reopening_safe}
use configfs.Store.Migrations.{
  ContentTable, File, Disk, Failure, OpenError, schema_panics, versioning_failed,
  content_size_failed, index_failed, Statement, applied, or_error, exec, exec_all, on_content,
  schema, migrations,
}
use configfs.Store.Migrations.Opening.{
  unless_duplicate, with_result, apply_migrations, table_has_column, in_transaction,
  version_statements, size_statements, migrate_content_versions, migrate_content_size,
  index_content, new_store,
}
use configfs.Store.Migrations.Upgrade.{IsFile, upgraded, file_of}
use configfs.Store.Migrations.Runs.{ended_ok}
use configfs.Store.Migrations.Calm.{calm}
use configfs.Store.Migrations.Opened.{bind_calm, new_store_opens}

-- A run that returns is the run where nothing fails from outside.
record IsSteady {E A : Type 0} (m : Exec Disk E A) : Type 0 where
  steady : (w : Disk) (a : A) → (m w).0 ≡ ok a → m (calm w.file) ≡ (ok a, calm (m w).1.file)

module _ {E A : Type 0} where
  IsSteady-pure : (a : A) → IsSteady {E = E} (pure a)
  IsSteady-pure a = record { steady = λ w b h. ap (λ r. (r, calm w.file)) h }

  IsSteady-if :
      (b : Bool) (m n : Exec Disk E A) → IsSteady m → IsSteady n → IsSteady (if b then m else n)
  IsSteady-if true m n p q = p
  IsSteady-if false m n p q = q

IsSteady-bind :
    {E A B : Type 0} (m : Exec Disk E A) (f : A → Exec Disk E B)
    → IsSteady m
    → ((a : A) → IsSteady (f a))
    → IsSteady (m >>= f)
IsSteady-bind m f p q = record {
  steady = λ w b h.
      let (a, ea, same, eb) = bind_rest m f w b h in
      let first = p.steady w a ea in
      let rest = (q a).steady (m w).1 b eb in
      rw same (bind_calm m f (calm w.file) _ a first ∙ rest);
}

or_error_ok :
    {A : Type 0} (e : OpenError) (r : Result Failure A) (a : A) → or_error e r ≡ ok a → r ≡ ok a
or_error_ok e (ok b) a h = ground (arith, h)
or_error_ok e (err x) a h = cc

IsSteady-or_error :
    {A : Type 0} (e : OpenError) (m : Exec Disk Failure A)
    → IsSteady m
    → IsSteady (with_result (or_error e) m)
IsSteady-or_error e m p = record {
  steady = λ w a h. rw (p.steady w a (or_error_ok e (m w).0 a h)) refl;
}

applied-file :
    (r : Result Failure File) (w w' : Disk)
    → w.file ≡ w'.file
    → ((applied r w).0 ≡ (applied r w').0) × ((applied r w).1.file ≡ (applied r w').1.file)
applied-file (ok f) w w' e = (refl, refl)
applied-file (err x) w w' e = (refl, e)

-- A statement that nothing from outside stops does the same as in a calm run.
exec-calm :
    (s : Statement) (w : Disk)
    → fails w.faults ≡ false
    → exec s (calm w.file) ≡ ((exec s w).0, calm (exec s w).1.file)
unfolding exec
exec-calm s w ran = rw ran (from (s w.file) w.file (later w.faults))
  where
    from :
        (r : Result Failure File) (f : File) (faults : List Bool)
        → let w' : Disk = record { file = f; faults = faults } in
          applied r (calm f) ≡ ((applied r w').0, calm (applied r w').1.file)
    from (ok g) f faults = refl
    from (err x) f faults = refl

IsSteady-exec : (s : Statement) → IsSteady (exec s)
unfolding exec
IsSteady-exec s = record {
  steady = λ w a h. elim (Bool-cases (fails w.faults)) [
    | inl fault ↦ cc (rw fault at h)
    | inr ran ↦ exec-calm s w ran ∙ ap (λ r. (r, calm (exec s w).1.file)) h
  ];
}

-- The loop takes a duplicate column for no error, but an error from outside it returns.
IsSteady-round : (s : Statement) → IsSteady (with_result unless_duplicate (exec s))
unfolding exec
IsSteady-round s = record {
  steady = λ w a h. elim (Bool-cases (fails w.faults)) [
    | inl fault ↦ cc (rw fault at h)
    | inr ran ↦ rw (exec-calm s w ran) (ap (λ r. (r, calm (exec s w).1.file)) h)
  ];
}

IsSteady-exec_all : (ss : List Statement) → IsSteady (exec_all ss)
unfolding exec_all
IsSteady-exec_all [] = IsSteady-pure tt
IsSteady-exec_all (s ∷ ss) =
    IsSteady-bind (exec s) (λ _. exec_all ss) (IsSteady-exec s) (λ _. IsSteady-exec_all ss)

IsSteady-apply : (ss : List Statement) → IsSteady (apply_migrations ss)
unfolding apply_migrations
IsSteady-apply [] = IsSteady-pure tt
IsSteady-apply (s ∷ ss) =
    IsSteady-bind (with_result unless_duplicate (exec s)) (λ _. apply_migrations ss)
      (IsSteady-round s) (λ _. IsSteady-apply ss)

IsSteady-column : (column : ContentTable → Bool) → IsSteady (table_has_column column)
unfolding table_has_column
IsSteady-column column = record {
  steady = λ w a h. elim (Bool-cases (fails w.faults)) [
    | inl fault ↦ cc (rw fault at h)
    | inr ran ↦ rw ran (ap (λ r. (r, calm w.file)) (rw ran at h))
  ];
}

module _ (e : OpenError) (ss : List Statement) where
  IsSteady-transaction : IsSteady (in_transaction e ss)
  unfolding in_transaction
  IsSteady-transaction = record {
    steady = λ w a h. elim (Bool-cases (fails w.faults)) [
      | inl fault ↦ cc (rw fault at h)
      | inr ran ↦
          let w' = record w { faults = later w.faults } in
          let (p, q) = ended_ok e ss w.file (exec_all ss w').0 (exec_all ss w').1 (rw ran at h) in
          let inner = (IsSteady-exec_all ss).steady w' tt p in rw (ran, inner, q) refl
    ];
  }

  IsSteady-rebuild :
      (column : ContentTable → Bool)
      → IsSteady (
          with_result (or_error e) (table_has_column column) >>= λ has.
          if has then pure tt else in_transaction e ss)
  IsSteady-rebuild column =
      IsSteady-bind (with_result (or_error e) (table_has_column column)) _
        (IsSteady-or_error e (table_has_column column) (IsSteady-column column))
        (λ has.
          IsSteady-if has (pure tt) (in_transaction e ss) (IsSteady-pure tt) IsSteady-transaction)

new_store-IsSteady : IsSteady new_store
unfolding new_store migrate_content_versions migrate_content_size
new_store-IsSteady =
    IsSteady-bind (with_result (or_error schema_panics) (exec_all schema)) _
      (IsSteady-or_error schema_panics (exec_all schema) (IsSteady-exec_all schema))
      (λ _. IsSteady-bind (apply_migrations migrations) _ (IsSteady-apply migrations) (λ _.
        IsSteady-bind migrate_content_versions _
          (IsSteady-rebuild versioning_failed version_statements (λ t. t.has_config_id))
          (λ _.
            IsSteady-bind migrate_content_size _
              (IsSteady-rebuild content_size_failed size_statements (λ t. t.has_content_size))
              (λ _.
                IsSteady-or_error index_failed (exec (on_content index_content))
                  (IsSteady-exec (on_content index_content))))))

-- Whatever statements fail: where NewStore returns for a file of any version, the file holds, in
-- its newest form, the tables that it comes to.
pub new_store_returns :
    (w : Disk)
    → IsFile w.file
    → (new_store w).0 ≡ ok tt
    → (new_store w).1.file ≡ file_of (upgraded w.file)
new_store_returns w v h =
    ap (λ (r : Result OpenError (Unit {0}) × Disk). r.1.file)
      (sym (new_store-IsSteady.steady w tt h) ∙ new_store_opens w.file v)

-- The file after some attempts to open it, each with its own faults.
unfoldable pub attempts : List (List Bool) → File → File
attempts [] f = f
attempts (faults ∷ more) f = attempts more (new_store (record { file = f; faults = faults })).1.file

-- However often an attempt to open a file of any version has failed, at whatever statement: an
-- attempt in which nothing fails from outside returns, and the file then holds, in its newest form,
-- the tables that the first file comes to: every config and every version, with the columns that it
-- had, where its version is older than content versions each row of config_content as the first
-- version of the config with its id, and where it had no content_size the length of the content.
pub reopened :
    (faults : List (List Bool)) (f : File)
    → IsFile f
    → new_store (calm (attempts faults f)) ≡ (ok tt, calm (file_of (upgraded f)))
unfolding attempts
reopened [] f v = new_store_opens f v
reopened (now ∷ more) f v =
    let (valid, same) = reopening_safe (record { file = f; faults = now }) v in
    reopened more _ valid ∙ ap (λ (db : Db). (ok tt, calm (file_of db))) same
