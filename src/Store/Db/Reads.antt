-- ===== src/Store/Db/Reads.antt =====
-- Operations that write nothing, one rule for each way to build one.
use configfs.Prelude.{ℕ, [], subst, ◌≡◌, refl, sym, ◌∙◌, Bool, true, false, if◌then◌else◌}
use configfs.Exec.{Result, ok, err, Exec, pure, raise, continue, ◌>>=◌}
use configfs.Store.Db.{Db, World, query}
use configfs.Store.Db.Ensures.{Ensures, Yields}
use configfs.Store.Db.Laws.{query_keeps, query-now, statement_passes, Passed, Passed-trans}

-- The tables after `m` are those before it, whether it returns or fails.
pub record IsRead {E A : Type 0} (m : Exec World E A) : Type 0 where
  pub keeps : (w : World) → (m w).1.db ≡ w.db
  pub clock : (w : World) → (m w).1.now ≡ w.now
  pub passes : (w : World) → Passed w.faults (m w).1.faults

module _ {E A : Type 0} where
  pub IsRead-pure : (a : A) → IsRead {E = E} (pure a)
  IsRead-pure a = record { keeps = λ w. refl; clock = λ w. refl; passes = λ w. ([], refl) }

  pub IsRead-raise : (e : E) → IsRead {A = A} (raise e)
  IsRead-raise e = record { keeps = λ w. refl; clock = λ w. refl; passes = λ w. ([], refl) }

  pub IsRead-if :
      (b : Bool) (m n : Exec World E A) → IsRead m → IsRead n → IsRead (if b then m else n)
  IsRead-if true m n p q = p
  IsRead-if false m n p q = q

query_passes : {A : Type 0} (f : Db → A) (w : World) → Passed w.faults (query f w).1.faults
unfolding query
query_passes f w = statement_passes (λ db. (f db, db)) w

pub IsRead-query : {A : Type 0} (f : Db → A) → IsRead (query f)
IsRead-query f = record { keeps = query_keeps f; clock = query-now f; passes = query_passes f }

module _ {E A B : Type 0} where
  continue-db :
      (r : Result E A) (f : A → Exec World E B) (w : World)
      → ((a : A) → IsRead (f a))
      → (continue r f w).1.db ≡ w.db
  continue-db (ok a) f w p = (p a).keeps w
  continue-db (err e) f w p = refl

  continue-now :
      (r : Result E A) (f : A → Exec World E B) (w : World)
      → ((a : A) → IsRead (f a))
      → (continue r f w).1.now ≡ w.now
  continue-now (ok a) f w p = (p a).clock w
  continue-now (err e) f w p = refl

  continue_passes :
      (r : Result E A) (f : A → Exec World E B) (w : World)
      → ((a : A) → IsRead (f a))
      → Passed w.faults (continue r f w).1.faults
  continue_passes (ok a) f w p = (p a).passes w
  continue_passes (err e) f w p = ([], refl)

  pub IsRead-bind :
      (m : Exec World E A) (f : A → Exec World E B)
      → IsRead m
      → ((a : A) → IsRead (f a))
      → IsRead (m >>= f)
  unfolding ◌>>=◌
  IsRead-bind m f p q = record {
    keeps = λ w. continue-db (m w).0 f (m w).1 q ∙ p.keeps w;
    clock = λ w. continue-now (m w).0 f (m w).1 q ∙ p.clock w;
    passes = λ w. Passed-trans (p.passes w) (continue_passes (m w).0 f (m w).1 q);
  }

pub ruleset read_rules = (IsRead-pure, IsRead-raise, IsRead-if, IsRead-query, IsRead-bind)

module _ {L E A : Type 0} {m : Exec World E A} {db : Db} {now : ℕ} {Q : A → Db → Type 0} where
  -- What holds of the result of a read holds of it with the tables as they were.
  pub Ensures-read :
      {P : A → Type 0}
      → IsRead m
      → Ensures m db now (λ a _. P a)
      → ((a : A) → P a → Q a db)
      → Yields L m db now Q
  Ensures-read r e h = record {
    post = λ w d t a ea l.
        let (p, t', z) = e.post w d t a ea (λ _. tt) in
        (subst (Q a) (sym (r.keeps w ∙ d)) (h a p), t', z);
  }

  pub Ensures-IsRead : IsRead m → ((a : A) → Q a db) → Yields L m db now Q
  Ensures-IsRead r h = record {
    post = λ w d t a ea l. (subst (Q a) (sym (r.keeps w ∙ d)) (h a), r.clock w ∙ t, r.passes w);
  }
