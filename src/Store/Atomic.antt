-- ===== src/Store/Atomic.antt =====
-- Transactions: what `withTx` of internal/store/sqlite/store.go makes of an operation that fails,
-- and of a commit that fails.
use configfs.Prelude.{
  ℕ, ℤ, ◌≡◌, refl, sym, ◌∙◌, subst, ◌⊎◌, [], Option, none, some, arith, Bool-cases, inl, inr,
}
use configfs.Strings.{Text, text_eq, trim_space}
use configfs.Strings.Decimal.{parse_int}
use configfs.Proto.{Config, Directory}
use configfs.Exec.{Result, ok, err}
use configfs.Store.Db.{Db, World, Error, Op, fails, later, finish, with_tx}
use configfs.Store.Db.Ensures.{Ensures, Yields}
use configfs.Store.Db.Laws.{
  Passed, Struck, Passed-later, Passed-trans, Struck-of_fails, Struck-after,
}
use configfs.Store.Directories.{
  create_directory, create_directory_body, new_directory_path, update_directory,
  update_parsed_directory, update_directory_body, delete_directory, delete_parsed_directory,
  delete_directory_body,
}
use configfs.Store.Configs.{
  upsert, upsert_body, delete_config, delete_parsed_config, delete_config_body,
}

abbrev pub begun : World → World
begun w = record w { faults = later w.faults }

-- A statement of the run from `w` to `w'` has failed, and the tables are as before.
abbrev pub Lost : World → World → Type 0
Lost w w' = Struck w.faults w'.faults × (w'.db ≡ w.db)

pub unchanged_or : {S P X : Type 0} → (S × P) ⊎ X → P ⊎ X
unchanged_or done = elim done [ inl (_, same) ↦ inl same | inr x ↦ inr x ]

-- After a commit: it has failed, and the tables are those before the transaction, or they are those
-- that the body left.
abbrev Committed : Db → World → World → Type 0
Committed before w w' = (Struck w.faults w'.faults × (w'.db ≡ before)) ⊎ (w'.db ≡ w.db)

module _ {A : Type 0} where
  finish_err :
      (before : Db) (r : Result Error A) (w : World) (e : Error)
      → (finish before (r, w)).0 ≡ err e
      → (finish before (r, w)).1.db ≡ before
  unfolding finish
  finish_err before (ok a) w e h = ground arith
  finish_err before (err e') w e h = refl

  finish_ok :
      (before : Db) (r : Result Error A) (w : World) (a : A)
      → (finish before (r, w)).0 ≡ ok a
      → (r ≡ ok a)
        × Committed before w (finish before (r, w)).1
        × Passed w.faults (finish before (r, w)).1.faults
  unfolding finish
  finish_ok before (ok a') w a h = elim (Bool-cases (fails w.faults)) [
    | inl lost ↦ (
      ground arith,
      inl (rw lost (Struck-of_fails w.faults lost, refl)),
      (rw lost (Passed-later w.faults)),
    )
    | inr kept ↦ (ground arith, inr (ground arith), (rw kept (Passed-later w.faults)))
  ]
  finish_ok before (err e) w a h = cc

  pub with_tx_err :
      (body : Op A) (w : World) (e : Error)
      → (with_tx body w).0 ≡ err e
      → (with_tx body w).1.db ≡ w.db
  unfolding with_tx
  with_tx_err body w e h = elim (Bool-cases (fails w.faults)) [
    | inl no_begin ↦ rw no_begin refl
    | inr began ↦ rw began (finish_err w.db (body (begun w)).0 (body (begun w)).1 e (rw began at h))
  ]

  -- A transaction that returns a value has run its body to that value, and either the state that
  -- the body left is kept or the commit has failed, with the state before.
  with_tx_ran :
      (body : Op A) (w : World) (a : A)
      → (with_tx body w).0 ≡ ok a
      → ((body (begun w)).0 ≡ ok a)
        × Committed w.db (body (begun w)).1 (with_tx body w).1
        × Passed (body (begun w)).1.faults (with_tx body w).1.faults
  unfolding with_tx
  with_tx_ran body w a h = elim (Bool-cases (fails w.faults)) [
    | inl no_begin ↦ cc (rw no_begin at h)
    | inr began ↦ rw began (finish_ok w.db (body (begun w)).0 (body (begun w)).1 a (rw began at h))
  ]

  finish-now : (before : Db) (r : Result Error A) (w : World) → (finish before (r, w)).1.now ≡ w.now
  unfolding finish
  finish-now before (ok a) w = elim (Bool-cases (fails w.faults)) [
    | inl lost ↦ rw lost refl
    | inr kept ↦ rw kept refl
  ]
  finish-now before (err e) w = refl

  with_tx-now :
      (body : Op A) (w : World) (a : A)
      → (with_tx body w).0 ≡ ok a
      → (with_tx body w).1.now ≡ (body (begun w)).1.now
  unfolding with_tx
  with_tx-now body w a h = elim (Bool-cases (fails w.faults)) [
    | inl no_begin ↦ cc (rw no_begin at h)
    | inr began ↦ rw began (finish-now w.db (body (begun w)).0 (body (begun w)).1)
  ]

  -- What the body ensures of the tables, the transaction ensures, or a statement has failed and the
  -- tables are as before.
  pub Ensures-with_tx :
      {L : Type 0} {db : Db} {now : ℕ} {Q : A → Db → Type 0} (body : Op A)
      → Ensures body db now Q
      → Yields L (with_tx body) db now (λ a db'. (L × (db' ≡ db)) ⊎ Q a db')
  Ensures-with_tx {Q} body p = record {
    post = λ w d t a h l.
        let (ran, kept, committed) = with_tx_ran body w a h in
        let (done, t', rest) = p.post (begun w) d t a ran (λ _. tt) in
        let before = Passed-trans (Passed-later w.faults) rest in
        (
          elim kept [
            | inl (struck, lost) ↦ inl (l (Struck-after before struck), lost ∙ d)
            | inr written ↦ inr (subst (Q a) (sym written) done)
          ],
          with_tx-now body w a h ∙ t',
          Passed-trans before committed,
        );
  }

-- The operations of the store that write.
pub data Mutation : Type 0 where
  upsert_of : Config → Mutation
  delete_of : Text → Mutation
  create_directory_of : Directory → Mutation
  update_directory_of : Directory → Mutation
  delete_directory_of : Text → Mutation

abbrev error_of : {A : Type 0} → Result Error A → Option Error
error_of (ok a) = none
error_of (err e) = some e

-- The error that the operation returns, if any, and the state that it leaves.
unfoldable pub run : Mutation → World → Option Error × World
run (upsert_of c) w = let (r, w') = upsert c w in (error_of r, w')
run (delete_of id) w = let (r, w') = delete_config id w in (error_of r, w')
run (create_directory_of d) w = let (r, w') = create_directory d w in (error_of r, w')
run (update_directory_of d) w = let (r, w') = update_directory d w in (error_of r, w')
run (delete_directory_of id) w = let (r, w') = delete_directory id w in (error_of r, w')

error_of-eq-some : {A : Type 0} (r : Result Error A) (e : Error) → error_of r ≡ some e → r ≡ err e
error_of-eq-some (ok a) e h = cc
error_of-eq-some (err e') e h = ground arith

tx_atomic :
    {A : Type 0} (body : Op A) (w : World) (e : Error)
    → error_of (with_tx body w).0 ≡ some e
    → (with_tx body w).1.db ≡ w.db
tx_atomic body w e h = with_tx_err body w e (error_of-eq-some (with_tx body w).0 e h)

delete_config_atomic :
    (id : Text) (o : Option ℤ) (w : World) (e : Error)
    → error_of (delete_parsed_config id o w).0 ≡ some e
    → (delete_parsed_config id o w).1.db ≡ w.db
unfolding delete_parsed_config
delete_config_atomic id none w e h = refl
delete_config_atomic id (some n) w e h = tx_atomic (delete_config_body n) w e h

update_directory_atomic :
    (d : Directory) (o : Option ℤ) (w : World) (e : Error)
    → error_of (update_parsed_directory d o w).0 ≡ some e
    → (update_parsed_directory d o w).1.db ≡ w.db
unfolding update_parsed_directory
update_directory_atomic d none w e h = refl
update_directory_atomic d (some n) w e h = tx_atomic (update_directory_body d n) w e h

delete_directory_atomic :
    (id : Text) (o : Option ℤ) (w : World) (e : Error)
    → error_of (delete_parsed_directory id o w).0 ≡ some e
    → (delete_parsed_directory id o w).1.db ≡ w.db
unfolding delete_parsed_directory
delete_directory_atomic id none w e h = refl
delete_directory_atomic id (some n) w e h = tx_atomic (delete_directory_body id n) w e h

-- Whatever statements fail, an operation that returns an error has changed no table.
pub run_atomic :
    (m : Mutation) (w : World) (e : Error) → (run m w).0 ≡ some e → (run m w).1.db ≡ w.db
unfolding run upsert delete_config create_directory update_directory delete_directory
run_atomic (upsert_of c) w e h = tx_atomic (upsert_body c) w e h
run_atomic (delete_of id) w e h = delete_config_atomic id (parse_int id) w e h
run_atomic (create_directory_of d) w e h = elim (Bool-cases (text_eq (trim_space d.name) [])) [
  | inl no_name ↦ rw no_name refl
  | inr named ↦ rw named (
      tx_atomic (create_directory_body (new_directory_path d.path (trim_space d.name)) d.acls) w e
        (rw named at h))
]
run_atomic (update_directory_of d) w e h = update_directory_atomic d (parse_int d.id) w e h
run_atomic (delete_directory_of id) w e h = delete_directory_atomic id (parse_int id) w e h
