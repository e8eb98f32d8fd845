-- ===== src/Api/Handlers/Reading.antt =====
-- What GetConfig of internal/api/server.go shows a caller.
use configfs.Prelude.{subst, ℕ, ◌≡◌, refl, Bool, true, List, [], Option, none, some, arith}
use configfs.Strings.{Text, text_eq}
use configfs.Proto.{acl_read, Config, config_allows}
use configfs.Proto.Access.{Granted, config_allows_iff}
use configfs.Exec.{Result, ok, err, pure, raise}
use configfs.Store.Db.{Db, World, Error, Op}
use configfs.Store.Db.Laws.{Struck}
use configfs.Store.Db.Ensures.{
  Yields, Ensures, Ensures-pure, Ensures-raise, Ensures-if, Ensures-bind, Ensures-weaken,
}
use configfs.Store.Configs.Lookup.{Found, get_config_by_id-Ensures}
use configfs.Api.Server.{Code, call, invalid_argument, permission_denied}
use configfs.Api.Gates.Meaning.{IsReadable, path_readable-Ensures}
use configfs.Api.Handlers.{require_some, unless, version_or_empty, get_config_rpc}

module _ {A : Type 0} where
  uncoded :
      (code : Error → Code) (r : Result Error A) (a : A)
      → ◌≡◌ {A = Result Code A} (elim r [ ok b ↦ ok b | err e ↦ err (code e) ]) (ok a)
      → r ≡ ok a
  uncoded code (ok b) a e = ground arith
  uncoded code (err b) a e = cc

  call_ok :
      (code : Error → Code) (m : Op A) (w : World) (a : A)
      → (call code m w).0 ≡ ok a
      → ((m w).0 ≡ ok a) × ((call code m w).1 ≡ (m w).1)
  unfolding call
  call_ok code m w a h = (uncoded code (m w).0 a h, refl)

  pub Ensures-call :
      {L : Type 0} {db : Db} {now : ℕ} {Q : A → Db → Type 0} (code : Error → Code) (m : Op A)
      → Yields L m db now Q
      → Yields L (call code m) db now Q
  Ensures-call {L} code m p = record {
    post = λ w d t a e l.
        let (ran, same) = call_ok code m w a e in
        rw same (p.post w d t a ran (subst (λ (v : World). Struck w.faults v.faults → L) same l));
  }

  pub Ensures-require_some :
      {L : Type 0} {db : Db} {now : ℕ} {Q : A → Db → Type 0} (o : Option A)
      → ((a : A) → o ≡ some a → Q a db)
      → Yields L (require_some o) db now Q
  unfolding require_some
  Ensures-require_some none h = Ensures-raise _
  Ensures-require_some (some a) h = Ensures-pure a (h a refl)

pub Ensures-unless :
    {L : Type 0} {db : Db} {now : ℕ} {Q : Unit {0} → Db → Type 0} (b : Bool) (code : Code)
    → (b ≡ true → Q tt db)
    → Yields L (unless b code) db now Q
Ensures-unless b code h =
    Ensures-if b (pure tt) (raise code) (λ e. Ensures-pure tt (h e)) (λ _. Ensures-raise code)

-- A config as it is stored, with the version asked for, that the caller may read in a directory
-- that the caller may read.
abbrev pub IsShown : List Text → Text → Option Text → Db → Config → Type 0
IsShown tags id version db conf =
    Found id true (version_or_empty version) db (some conf)
    × Granted tags acl_read conf.acls
    × IsReadable tags db conf.path

get_config_rpc-Ensures :
    (tags : List Text) (id : Text) (version : Option Text) (db : Db) (now : ℕ)
    → Ensures
        (get_config_rpc tags id version)
        db
        now
        (λ conf db'. (db' ≡ db) × IsShown tags id version db conf)
unfolding get_config_rpc
get_config_rpc-Ensures tags id version db now =
    Ensures-if (text_eq id []) (raise invalid_argument) _ (λ _. Ensures-raise _)
      (λ _. Ensures-bind _ _ (
        Ensures-weaken
          (Ensures-call _ _ (get_config_by_id-Ensures id true (version_or_empty version) db now))
          (λ o db1 (same, found). rw same (
            Ensures-bind _ _ (
              Ensures-require_some o (λ conf is_conf. Ensures-bind _ _ (
                Ensures-unless (config_allows tags acl_read conf.acls) permission_denied (λ allowed.
                  Ensures-bind _ _ (
                    Ensures-weaken (Ensures-call _ _ (path_readable-Ensures conf.path tags db now))
                      (λ b db2 (same2, readable). rw same2 (
                        Ensures-bind _ _ (
                          Ensures-unless b permission_denied (λ yes_b. Ensures-pure conf (
                            refl,
                            (
                              (rw is_conf at found),
                              (config_allows_iff tags acl_read conf.acls).0 allowed,
                              readable yes_b,
                            ),
                          ))))))))))))))

pub get_config_rpc_safe :
    (tags : List Text) (id : Text) (version : Option Text) (w : World) (conf : Config)
    → (get_config_rpc tags id version w).0 ≡ ok conf
    → ((get_config_rpc tags id version w).1.db ≡ w.db) × IsShown tags id version w.db conf
get_config_rpc_safe tags id version w conf h =
    ((get_config_rpc-Ensures tags id version w.db w.now).post w refl refl conf h (λ _. tt)).0
