-- ===== src/Store/Db/Ensures.antt =====
-- A calculus for what an operation has returned and written when it returns: one rule for each way
-- to build an operation. Whatever statements fail, nothing is said of a run that ends in an error.
use mathlib.Core.Path.{subst₂}
use configfs.Prelude.{
  [], subst, ℕ, suc, ℤ, pos, ◌≡◌, refl, ap, ◌∙◌, sym, Bool, true, false, if◌then◌else◌, arith,
}
use configfs.Exec.{Result, ok, Exec, pure, raise, ◌>>=◌}
use configfs.Exec.Ensures.{bind_rest}
use configfs.Store.Db.{Db, World, statement, query, execute, next_inode, current_time}
use configfs.Store.Db.Laws.{
  statement_ok, statement_passes, Passed, Struck, Passed-trans, Struck-after,
}

-- From the tables `db`, at the time `now`, a run of `m` that returns `a` leaves tables with `Q a`,
-- where `L` is what `Q` may conclude from a statement of the run that failed.
pub record Yields (L : Type 0) {E A : Type 0} (m : Exec World E A) (db : Db) (now : ℕ)
    (Q : A → Db → Type 0) : Type 0 where
  pub post :
      (w : World)
      → w.db ≡ db
      → w.now ≡ now
      → (a : A) → (m w).0 ≡ ok a
      → (Struck w.faults (m w).1.faults → L)
      → Q a (m w).1.db × ((m w).1.now ≡ now) × Passed w.faults (m w).1.faults

-- The same, where nothing is concluded from a failure.
abbrev pub Ensures : {E A : Type 0} → Exec World E A → Db → ℕ → (A → Db → Type 0) → Type 0
Ensures m db now Q = Yields (Unit {0}) m db now Q

ok-injective : {E A : Type 0} {a b : A} → ◌≡◌ {A = Result E A} (ok a) (ok b) → a ≡ b
ok-injective e = ground arith

module _ {L E A : Type 0} {db : Db} {now : ℕ} {Q : A → Db → Type 0} where
  pub Ensures-pure : (a : A) → Q a db → Yields L {E = E} (pure a) db now Q
  Ensures-pure a q = record {
    post = λ w d t b e l. (subst₂ Q (ok-injective e) (sym d) q, t, ([], refl));
  }

  pub Ensures-raise : (e : E) → Yields L (raise e) db now Q
  Ensures-raise e = record { post = λ w d t b h l. cc }

  pub Ensures-if :
      (b : Bool) (m n : Exec World E A)
      → (b ≡ true → Yields L m db now Q)
      → (b ≡ false → Yields L n db now Q)
      → Yields L (if b then m else n) db now Q
  Ensures-if true m n p q = p refl
  Ensures-if false m n p q = q refl

statement-now : {A : Type 0} (f : Db → A × Db) (w : World) → (statement f w).1.now ≡ w.now
unfolding statement
statement-now f w = ground arith

module _ {L A : Type 0} {db : Db} {now : ℕ} {Q : A → Db → Type 0} where
  pub Ensures-statement : (f : Db → A × Db) → Q (f db).0 (f db).1 → Yields L (statement f) db now Q
  Ensures-statement f q = record {
    post = λ w d t a e l.
        let (p, r) = statement_ok f w a e in
        (
          subst₂ Q (ap (λ x. (f x).0) (sym d) ∙ p) (ap (λ x. (f x).1) (sym d) ∙ sym r) q,
          statement-now f w ∙ t,
          statement_passes f w,
        );
  }

  pub Ensures-query : (f : Db → A) → Q (f db) db → Yields L (query f) db now Q
  unfolding query
  Ensures-query f q = Ensures-statement (λ x. (f x, x)) q

module _ {L : Type 0} {db : Db} {now : ℕ} where
  pub Ensures-execute :
      {Q : Unit {0} → Db → Type 0} (f : Db → Db) → Q tt (f db) → Yields L (execute f) db now Q
  unfolding execute
  Ensures-execute f q = Ensures-statement (λ x. (tt, f x)) q

  pub Ensures-next_inode :
      {Q : ℤ → Db → Type 0}
      → Q (pos (suc db.inode)) (record db { inode = suc db.inode })
      → Yields L next_inode db now Q
  unfolding next_inode
  Ensures-next_inode q =
      Ensures-statement (λ x. (pos (suc x.inode), record x { inode = suc x.inode })) q

  pub Ensures-current_time : {Q : ℕ → Db → Type 0} → Q now db → Yields L current_time db now Q
  unfolding current_time
  Ensures-current_time {Q} q = record {
    post = λ w d t a e l. (subst₂ Q (sym t ∙ ok-injective e) (sym d) q, t, ([], refl));
  }

module _ {L E A B : Type 0} {db : Db} {now : ℕ} {Q : B → Db → Type 0} where
  pub Ensures-bind :
      (m : Exec World E A) (f : A → Exec World E B)
      → Ensures m db now (λ a db'. Yields L (f a) db' now Q)
      → Yields L (m >>= f) db now Q
  Ensures-bind m f p = record {
    post = λ w d t b e l.
        let (a, ea, same, eb) = bind_rest m f w b e in
        let (rest, t', before) = p.post w d t a ea (λ _. tt) in
        let (q, t2, after) = rest.post (m w).1 refl t' b eb (λ x. l (
          subst (λ (o : Result E B × World). Struck w.faults o.1.faults) (sym same)
            (Struck-after before x))) in
        rw same (q, t2, Passed-trans before after);
  }

module _ {L E A : Type 0} {m : Exec World E A} {db : Db} {now : ℕ} {P Q : A → Db → Type 0} where
  -- A weaker postcondition.
  pub Yields-weaken :
      Yields L m db now P → ((a : A) (db' : Db) → P a db' → Q a db') → Yields L m db now Q
  Yields-weaken p h = record {
    post = λ w d t a e l. let (x, y, z) = p.post w d t a e l in (h a (m w).1.db x, y, z);
  }

  pub Ensures-weaken :
      Ensures m db now P → ((a : A) (db' : Db) → P a db' → Q a db') → Yields L m db now Q
  Ensures-weaken p h = record {
    post = λ w d t a e l. let (x, y, z) = p.post w d t a e (λ _. tt) in (h a (m w).1.db x, y, z);
  }
