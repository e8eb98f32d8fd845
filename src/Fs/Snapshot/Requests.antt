-- ===== src/Fs/Snapshot/Requests.antt =====
-- The requests of internal/fs/fs.go and its lookups by id, as the steps of a chain.
use configfs.Prelude.{arith, ◌≡◌, refl, Option}
use configfs.Strings.{Text}
use configfs.Proto.{Config}
use configfs.Exec.{Result, ok, err, Exec, ◌>>=◌}
use configfs.Api.Server.{Code}
use configfs.Fs.Index.{get_value}
use configfs.Fs.Snapshot.{Mount, FsOp, request, answer, config}

answered : {A : Type 0} (r : Result Code A) (a : A) → answer r ≡ ok a → r ≡ ok a
answered (ok b) a e = ground arith
answered (err b) a e = cc

module _ {R A : Type 0} where
  -- A request that returns has returned on the other side, and only that side has changed.
  pub request_ok :
      (q : Exec R Code A) (m : Mount R) (a : A)
      → (request q m).0 ≡ ok a
      → ((q m.remote).0 ≡ ok a) × ((request q m).1 ≡ record m { remote = (q m.remote).1 })
  unfolding request
  request_ok q m a h = (answered (q m.remote).0 a h, refl)

module _ {R : Type 0} where
  pub find_first :
      {B : Type 0} (id : Text) (f : Option Config → FsOp R B) (m : Mount R)
      → (config id >>= f) m ≡ f (get_value id m.snapshot.index.id_config) m
  unfolding ◌>>=◌ config
  find_first id f m = refl
