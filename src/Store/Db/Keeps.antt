-- ===== src/Store/Db/Keeps.antt =====
-- Operations that leave a part of the tables alone, one rule for each way to build one.
use configfs.Prelude.{
  suc, pos, ◌≡◌, refl, ap, ◌∙◌, Bool, true, false, if◌then◌else◌, Bool-cases, inl, inr,
}
use configfs.Exec.{Result, ok, err, Exec, pure, raise, continue, ◌>>=◌}
use configfs.Store.Db.{
  Db, World, Error, Op, fails, statement, execute, next_inode, finish, later, with_tx,
}
use configfs.Store.Db.Reads.{IsRead}

-- `view` is the same after `m`, whether it returns or fails.
pub record Keeps {V E A : Type 0} (view : Db → V) (m : Exec World E A) : Type 0 where
  pub same : (w : World) → view (m w).1.db ≡ view w.db

module _ {V A : Type 0} (view : Db → V) where
  statement-same :
      (f : Db → A × Db) (w : World)
      → ((db : Db) → view (f db).1 ≡ view db)
      → view (statement f w).1.db ≡ view w.db
  unfolding statement
  statement-same f w h = elim (Bool-cases (fails w.faults)) [
    | inl failed ↦ rw failed refl
    | inr ran ↦ rw ran (h w.db)
  ]

  finish-same :
      (before : Db) (r : Result Error A) (w : World)
      → view w.db ≡ view before
      → view (finish before (r, w)).1.db ≡ view before
  unfolding finish
  finish-same before (ok a) w h = elim (Bool-cases (fails w.faults)) [
    | inl lost ↦ rw lost refl
    | inr kept ↦ rw kept h
  ]
  finish-same before (err e) w h = refl

module _ {V A : Type 0} {view : Db → V} where
  pub Keeps-raise : (e : Error) → Keeps view (raise {A = A} e)
  Keeps-raise e = record { same = λ w. refl }

  pub Keeps-if :
      (b : Bool) (m n : Op A) → Keeps view m → Keeps view n → Keeps view (if b then m else n)
  Keeps-if true m n p q = p
  Keeps-if false m n p q = q

  pub Keeps-IsRead : (m : Op A) → IsRead m → Keeps view m
  Keeps-IsRead m r = record { same = λ w. ap view (r.keeps w) }

  pub Keeps-with_tx : (m : Op A) → Keeps view m → Keeps view (with_tx m)
  unfolding with_tx
  Keeps-with_tx m p = record {
    same = λ w.
        let began : World = record w { faults = later w.faults } in
        elim (Bool-cases (fails w.faults)) [
          | inl failed ↦ rw failed refl
          | inr ran ↦ rw ran (finish-same view w.db (m began).0 (m began).1 (p.same began))
        ];
  }

module _ {V : Type 0} {view : Db → V} where
  pub Keeps-execute : (f : Db → Db) → ((db : Db) → view (f db) ≡ view db) → Keeps view (execute f)
  unfolding execute
  Keeps-execute f h = record { same = λ w. statement-same view (λ db. (tt, f db)) w h }

  pub Keeps-next_inode :
      ((db : Db) → view (record db { inode = suc db.inode }) ≡ view db) → Keeps view next_inode
  unfolding next_inode
  Keeps-next_inode h = record {
    same = λ w.
        statement-same view (λ db. (pos (suc db.inode), record db { inode = suc db.inode })) w h;
  }

module _ {V A B : Type 0} {view : Db → V} where
  continue-same :
      (r : Result Error A) (f : A → Op B) (w : World)
      → ((a : A) → Keeps view (f a))
      → view (continue r f w).1.db ≡ view w.db
  continue-same (ok a) f w p = (p a).same w
  continue-same (err e) f w p = refl

  pub Keeps-bind :
      (m : Op A) (f : A → Op B) → Keeps view m → ((a : A) → Keeps view (f a)) → Keeps view (m >>= f)
  unfolding ◌>>=◌
  Keeps-bind m f p q = record { same = λ w. continue-same (m w).0 f (m w).1 q ∙ p.same w }

pub Keeps-pure : {V A : Type 0} {view : Db → V} (a : A) → Keeps view (pure {E = Error} a)
Keeps-pure a = record { same = λ w. refl }

pub ruleset keeps_rules =
    (Keeps-pure, Keeps-raise, Keeps-if, Keeps-execute, Keeps-next_inode, Keeps-with_tx, Keeps-bind)
