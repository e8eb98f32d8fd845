-- ===== src/Store/Migrations/Runs.antt =====
-- Runs of the steps of NewStore (internal/store/sqlite/store.go), with any faults.
use configfs.Prelude.{
  ◌≡◌, refl, sym, subst, Bool, true, false, List, [], ◌∷◌, arith, All, if◌then◌else◌, Bool-cases,
  inl, inr,
}
use configfs.Exec.{Result, ok, err, Exec, pure, continue, ◌>>=◌}
use configfs.Exec.Ensures.{bind_rest}
use configfs.Store.Db.{fails, later}
use configfs.Store.Migrations.{
  ContentTable, File, Disk, Failure, OpenError, Statement, applied, exec, exec_all,
}
use configfs.Store.Migrations.Opening.{
  unless_duplicate, with_result, apply_migrations, table_has_column, end_transaction,
  in_transaction,
}
use configfs.Store.Migrations.Upgrade.{IsFile}
use configfs.Store.Migrations.Keeps.{Keeps, Keeps-refl, Keeps-trans, IsKept}

-- Whether it returns or fails, the file stays one and comes to the same tables.
pub record IsSafe {E A : Type 0} (m : Exec Disk E A) : Type 0 where
  pub keeps : (w : Disk) → IsFile w.file → Keeps w.file (m w).1.file

module _ {E A : Type 0} where
  pub IsSafe-pure : (a : A) → IsSafe {E = E} (pure a)
  IsSafe-pure a = record { keeps = λ w v. Keeps-refl v }

  pub IsSafe-if :
      (b : Bool) (m n : Exec Disk E A) → IsSafe m → IsSafe n → IsSafe (if b then m else n)
  IsSafe-if true m n p q = p
  IsSafe-if false m n p q = q

module _ {E A B : Type 0} where
  continue-Keeps :
      (r : Result E A) (f : A → Exec Disk E B) (w : Disk)
      → ((a : A) → IsSafe (f a))
      → IsFile w.file
      → Keeps w.file (continue r f w).1.file
  continue-Keeps (ok a) f w p v = (p a).keeps w v
  continue-Keeps (err e) f w p v = Keeps-refl v

  pub IsSafe-bind :
      (m : Exec Disk E A) (f : A → Exec Disk E B)
      → IsSafe m
      → ((a : A) → IsSafe (f a))
      → IsSafe (m >>= f)
  unfolding ◌>>=◌
  IsSafe-bind m f p q = record {
    keeps =
        λ w v. let k = p.keeps w v in Keeps-trans k (continue-Keeps (m w).0 f (m w).1 q k.valid);
  }

pub IsSafe-with_result :
    {E F A B : Type 0} (h : Result E A → Result F B) (m : Exec Disk E A)
    → IsSafe m
    → IsSafe (with_result h m)
IsSafe-with_result h m p = record { keeps = λ w v. p.keeps w v }

applied-Keeps :
    (r : Result Failure File) (w : Disk)
    → IsFile w.file
    → ((f : File) → r ≡ ok f → Keeps w.file f)
    → Keeps w.file (applied r w).1.file
applied-Keeps (ok f) w v p = p f refl
applied-Keeps (err e) w v p = Keeps-refl v

pub IsSafe-exec : (s : Statement) → IsKept s → IsSafe (exec s)
unfolding exec
IsSafe-exec s p = record {
  keeps = λ w v. elim (Bool-cases (fails w.faults)) [
    | inl fault ↦ rw fault (Keeps-refl v)
    | inr ran ↦
        rw ran (
          applied-Keeps (s w.file) (record w { faults = later w.faults }) v (λ f e. p w.file f v e))
  ];
}

pub IsSafe-exec_all : (ss : List Statement) → All IsKept ss → IsSafe (exec_all ss)
unfolding exec_all
IsSafe-exec_all [] p = IsSafe-pure tt
IsSafe-exec_all (s ∷ ss) (p, ps) =
    IsSafe-bind (exec s) (λ _. exec_all ss) (IsSafe-exec s p) (λ _. IsSafe-exec_all ss ps)

pub IsSafe-apply : (ss : List Statement) → All IsKept ss → IsSafe (apply_migrations ss)
unfolding apply_migrations
IsSafe-apply [] p = IsSafe-pure tt
IsSafe-apply (s ∷ ss) (p, ps) =
    IsSafe-bind (with_result unless_duplicate (exec s)) (λ _. apply_migrations ss)
      (IsSafe-with_result unless_duplicate (exec s) (IsSafe-exec s p)) (λ _. IsSafe-apply ss ps)

pub table_has_column-file :
    (column : ContentTable → Bool) (w : Disk) → (table_has_column column w).1.file ≡ w.file
unfolding table_has_column
table_has_column-file column w = ground arith

-- Each statement, run on the tables that the one before it has left.
abbrev pub Ran : List Statement → File → File → Type 0
Ran [] f g = g ≡ f
Ran (s ∷ ss) f g = (h : File) × (s f ≡ ok h) × Ran ss h g

applied_ok :
    (r : Result Failure File) (w : Disk) → (applied r w).0 ≡ ok tt → r ≡ ok (applied r w).1.file
applied_ok (ok f) w h = refl
applied_ok (err e) w h = cc

pub exec_ok : (s : Statement) (w : Disk) → (exec s w).0 ≡ ok tt → s w.file ≡ ok (exec s w).1.file
unfolding exec
exec_ok s w h = elim (Bool-cases (fails w.faults)) [
  | inl fault ↦ cc (rw fault at h)
  | inr ran ↦ rw ran (applied_ok (s w.file) (record w { faults = later w.faults }) (rw ran at h))
]

pub exec_all_ok :
    (ss : List Statement) (w : Disk)
    → (exec_all ss w).0 ≡ ok tt
    → Ran ss w.file (exec_all ss w).1.file
unfolding exec_all
exec_all_ok [] w h = refl
exec_all_ok (s ∷ ss) w h =
    let (a, p, same, q) = bind_rest (exec s) (λ _. exec_all ss) w tt h in
    ((exec s w).1.file, exec_ok s w p, rw same (exec_all_ok ss (exec s w).1 q))

module _ (e : OpenError) (ss : List Statement) where
  ended :
      (f : File) (r : Result Failure (Unit {0})) (w : Disk)
      → IsFile f
      → (r ≡ ok tt → Keeps f w.file)
      → Keeps f (end_transaction e f (r, w)).1.file
  ended f (ok tt) w v p = elim (Bool-cases (fails w.faults)) [
    | inl fault ↦ rw fault (Keeps-refl v)
    | inr ran ↦ rw ran (p refl)
  ]
  ended f (err x) w v p = Keeps-refl v

  -- A transaction leaves the file as it was, or has run all its statements.
  pub in_transaction-Keeps :
      (w : Disk)
      → IsFile w.file
      → ((g : File) → Ran ss w.file g → Keeps w.file g)
      → Keeps w.file (in_transaction e ss w).1.file
  unfolding in_transaction
  in_transaction-Keeps w v p = elim (Bool-cases (fails w.faults)) [
    | inl fault ↦ rw fault (Keeps-refl v)
    | inr ran ↦
        let w' = record w { faults = later w.faults } in
        rw ran (
          ended w.file (exec_all ss w').0 (exec_all ss w').1 v
            (λ h. p (exec_all ss w').1.file (exec_all_ok ss w' h)))
  ]

  pub ended_ok :
      (f : File) (r : Result Failure (Unit {0})) (w : Disk)
      → (end_transaction e f (r, w)).0 ≡ ok tt
      → (r ≡ ok tt) × ((end_transaction e f (r, w)).1.file ≡ w.file)
  ended_ok f (ok tt) w h = elim (Bool-cases (fails w.faults)) [
    | inl fault ↦ cc (rw fault at h)
    | inr ran ↦ rw ran (refl, refl)
  ]
  ended_ok f (err x) w h = cc

  -- A transaction that returns has run all its statements.
  pub in_transaction_ok :
      (w : Disk) → (in_transaction e ss w).0 ≡ ok tt → Ran ss w.file (in_transaction e ss w).1.file
  unfolding in_transaction
  in_transaction_ok w h = elim (Bool-cases (fails w.faults)) [
    | inl fault ↦ cc (rw fault at h)
    | inr ran ↦
        let w' = record w { faults = later w.faults } in
        let (p, q) = ended_ok w.file (exec_all ss w').0 (exec_all ss w').1 (rw ran at h) in
        rw ran (subst (Ran ss w.file) (sym q) (exec_all_ok ss w' p))
  ]
