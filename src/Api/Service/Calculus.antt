-- ===== src/Api/Service/Calculus.antt =====
-- A calculus for handlers that undo what they did when they fail: gates that only read, and then a
-- safe step of the store.
use configfs.Prelude.{◌≡◌, refl, sym, ◌∙◌, subst, Bool, true, false, if◌then◌else◌}
use configfs.Exec.{Result, ok, err, Exec, pure, continue, ◌>>=◌}
use configfs.Store.Db.{World, Error, Op}
use configfs.Store.Db.Reads.{IsRead}
use configfs.Store.Configs.Consistent.{IsConsistent}
use configfs.Api.Server.{Code, call}

-- A handler that leaves the tables as they were when it fails, and that keeps them consistent.
pub record IsSafe {E A : Type 0} (m : Exec World E A) : Type 0 where
  pub undone : (w : World) (e : E) → (m w).0 ≡ err e → (m w).1.db ≡ w.db
  pub consistent : (w : World) → IsConsistent w.db → IsConsistent (m w).1.db

pub IsSafe-IsRead : {E A : Type 0} (m : Exec World E A) → IsRead m → IsSafe m
IsSafe-IsRead m r = record {
  undone = λ w e h. r.keeps w;
  consistent = λ w c. subst IsConsistent (sym (r.keeps w)) c;
}

module _ {E A B : Type 0} where
  -- Gates that only read, and then a safe step.
  pub IsSafe-bind :
      (m : Exec World E A) (f : A → Exec World E B)
      → IsRead m
      → ((a : A) → IsSafe (f a))
      → IsSafe (m >>= f)
  unfolding ◌>>=◌
  IsSafe-bind m f r s = record {
    undone = λ w e h. continued (m w).0 (m w).1 e h ∙ r.keeps w;
    consistent =
        λ w c. continue-consistent (m w).0 (m w).1 (subst IsConsistent (sym (r.keeps w)) c);
  }
    where
      continued :
          (o : Result E A) (w : World) (e : E)
          → (continue o f w).0 ≡ err e
          → (continue o f w).1.db ≡ w.db
      continued (ok a) w e h = (s a).undone w e h
      continued (err d) w e h = refl

      continue-consistent :
          (o : Result E A) (w : World) → IsConsistent w.db → IsConsistent (continue o f w).1.db
      continue-consistent (ok a) w c = (s a).consistent w c
      continue-consistent (err d) w c = c

module _ {E A : Type 0} where
  pub IsSafe-if :
      (b : Bool) (m n : Exec World E A) → IsSafe m → IsSafe n → IsSafe (if b then m else n)
  IsSafe-if true m n p q = p
  IsSafe-if false m n p q = q

module _ {E A B : Type 0} where
  -- A safe step, and then a response.
  pub IsSafe-map : (m : Exec World E A) (f : A → B) → IsSafe m → IsSafe (m >>= λ a. pure (f a))
  unfolding ◌>>=◌
  IsSafe-map m f s = record {
    undone = λ w e h. mapped_back w (m w).0 e refl h;
    consistent = λ w c. kept (m w).0 (m w).1 (s.consistent w c);
  }
    where
      mapped_back :
          (w : World) (o : Result E A) (e : E)
          → (m w).0 ≡ o
          → (continue o (λ a. pure (f a)) (m w).1).0 ≡ err e
          → (continue (m w).0 (λ a. pure (f a)) (m w).1).1.db ≡ w.db
      mapped_back w (ok a) e p h = cc
      mapped_back w (err d) e p h = rw p (s.undone w d p)

      kept :
          (o : Result E A) (w : World)
          → IsConsistent w.db
          → IsConsistent (continue o (λ a. pure (f a)) w).1.db
      kept (ok a) w c = c
      kept (err d) w c = c

module _ {A : Type 0} (code : Error → Code) (m : Op A) where
  call-db : (w : World) → (call code m w).1 ≡ (m w).1
  unfolding call
  call-db w = refl

  uncoded_err :
      (r : Result Error A) (e : Code)
      → ◌≡◌ {A = Result Code A} (elim r [ ok a ↦ ok a | err d ↦ err (code d) ]) (err e)
      → (d : Error) × (r ≡ err d)
  uncoded_err (ok a) e h = cc
  uncoded_err (err d) e h = (d, refl)

  pub IsRead-call : IsRead m → IsRead (call code m)
  unfolding call
  IsRead-call r = record {
    keeps = λ w. r.keeps w;
    clock = λ w. r.clock w;
    passes = λ w. r.passes w;
  }

  pub IsSafe-call : IsSafe m → IsSafe (call code m)
  unfolding call
  IsSafe-call s = record {
    undone = λ w e h. let (d, f) = uncoded_err (m w).0 e h in s.undone w d f;
    consistent = λ w c. s.consistent w c;
  }
