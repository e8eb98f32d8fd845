-- ===== src/Store/Configs/Lookup.antt =====
-- What GetConfigByID and getConfigByPathAndName return.
use mathlib.Core.Option.{some-injective}
use configfs.Prelude.{
  ℕ, ℤ, int_eq, int_eq_iff, int_eq_refl, ◌≡◌, ◌⊎◌, inl, inr, refl, ap, sym, ◌∙◌, Bool, true, false,
  [], Memᴰ, Option, none, some, arith, any, find, find_passes, mem_of_find, Option-cases,
}
use configfs.Strings.{Text}
use configfs.Strings.Laws.{eq_of_text_eq}
use configfs.Strings.Decimal.{parse_int}
use configfs.Proto.{Config}
use configfs.Exec.{ok}
use configfs.Store.Db.{World, ConfigRow, ContentRow, Db}
use configfs.Store.Db.Ensures.{
  Ensures, Ensures-pure, Ensures-raise, Ensures-query, Ensures-if, Ensures-bind, Ensures-weaken,
}
use configfs.Store.Acls.{of_config, acls_of, acls_for_owner, load_acls}
use configfs.Store.Configs.{
  ConfigSelect, select_row, select_first, config_of, is_version, load_version, requested_version,
  version_to_load, load_config, get_parsed_config, get_config_by_id,
}

-- The message of a row, with its ACL entries and the size of its current version.
abbrev pub message_of : Db → ConfigRow → Config
message_of db c = config_of (acls_of c.id db.config_acl) (select_row db c)

-- The version to load is the one asked for, or the current one where none is asked for.
unfoldable pub IsAsked : Text → ConfigRow → ℤ → Type 0
IsAsked version c v =
    ((version ≡ []) × (c.current_content_id ≡ some v)) ⊎ (parse_int version ≡ some v)

-- What a lookup returns for a row: its message, and where content is included, the content and size
-- of a version that belongs to the config and is the one to load.
unfoldable pub Loaded : Bool → Text → Db → ConfigRow → Config → Type 0
Loaded false version db c conf = conf ≡ message_of db c
Loaded true version db c conf =
    (r : ContentRow) × Memᴰ r db.config_content
    × (r.config_id ≡ c.id)
    × IsAsked version c r.id
    × (conf ≡ record (message_of db c) { content = some r.content; content_size = r.content_size })

unfoldable pub Found : Text → Bool → Text → Db → Option Config → Type 0
Found id include version db none = Unit
Found id include version db (some conf) =
    (c : ConfigRow) × Memᴰ c db.config
    × (parse_int id ≡ some c.id)
    × Loaded include version db c conf

acls_for_owner-Ensures :
    (n : ℤ) (db : Db) (now : ℕ)
    → Ensures
        (acls_for_owner of_config n)
        db
        now
        (λ acls db'. (acls ≡ acls_of n db.config_acl) × (db' ≡ db))
unfolding acls_for_owner load_acls any
acls_for_owner-Ensures n db now =
    Ensures-bind _ _ (Ensures-query _ (Ensures-pure _ (rw (int_eq_refl n) refl, refl)))

is_version_sound :
    (v n : ℤ) (r : ContentRow) → is_version v n r ≡ true → (v ≡ r.id) × (r.config_id ≡ n)
unfolding is_version
is_version_sound v n r h =
    (ground (arith, int_eq_iff r.id v), ground (arith, int_eq_iff r.config_id n))

with_version : Config → Option ContentRow → Option Config
with_version conf o = elim o [
  | some r ↦ some (record conf { content = some r.content; content_size = r.content_size })
  | none ↦ none
]

version_found :
    (conf : Config) (n v : ℤ) (db : Db) (o : Option ContentRow) (conf' : Config)
    → find (is_version v n) db.config_content ≡ o
    → with_version conf o ≡ some conf'
    → (r : ContentRow) × Memᴰ r db.config_content
      × (r.config_id ≡ n)
      × (v ≡ r.id)
      × (conf' ≡ record conf { content = some r.content; content_size = r.content_size })
unfolding with_version
version_found conf n v db none conf' f e = cc
version_found conf n v db (some r) conf' f e =
    let (same, owner) =
      is_version_sound v n r (find_passes (is_version v n) db.config_content r f) in
    (r, mem_of_find (is_version v n) db.config_content r f, owner, same, sym (some-injective _ _ e))

-- A version is returned only where its row belongs to the config.
abbrev VersionLoaded : Config → ℤ → Option ℤ → Db → Option Config → Type 0
VersionLoaded conf n v db o =
    (conf' : Config)
    → o ≡ some conf'
    → (r : ContentRow) × Memᴰ r db.config_content
      × (r.config_id ≡ n)
      × (v ≡ some r.id)
      × (conf' ≡ record conf { content = some r.content; content_size = r.content_size })

load_version-Ensures :
    (conf : Config) (n : ℤ) (v : Option ℤ) (db : Db) (now : ℕ)
    → Ensures (load_version conf n v) db now (λ o db'. (db' ≡ db) × VersionLoaded conf n v db o)
unfolding load_version with_version
load_version-Ensures conf n none db now = Ensures-pure _ (refl, λ conf' e. cc)
load_version-Ensures conf n (some v) db now = Ensures-bind _ _ (
    Ensures-query _ (
      Ensures-pure _ (
        refl,
        λ conf' e.
            let (r, m, owner, same, eq) =
              version_found conf n v db (find (is_version v n) db.config_content) conf' refl e in
            (r, m, owner, ap some same, eq),
      )))

requested_version-Ensures :
    (version : Text) (o : Option ℤ) (db : Db) (now : ℕ)
    → Ensures (requested_version version o) db now (λ v db'. (db' ≡ db) × (v ≡ o))
unfolding requested_version
requested_version-Ensures version none db now = Ensures-raise _
requested_version-Ensures version (some n) db now = Ensures-pure _ (refl, refl)

version_to_load-Ensures :
    (version : Text) (cs : ConfigSelect) (db : Db) (now : ℕ)
    → Ensures
        (version_to_load version cs)
        db
        now
        (λ o db'. (db' ≡ db) × ((v : ℤ) → o ≡ some v → IsAsked version cs.row v))
unfolding version_to_load IsAsked
version_to_load-Ensures version cs db now =
    Ensures-if _ _ _
      (λ empty. Ensures-pure _ (refl, λ v e. inl (eq_of_text_eq version [] empty, e)))
      (λ given.
        Ensures-weaken (requested_version-Ensures version (parse_int version) db now)
          (λ o db' (same, eq). (same, λ v e. inr (sym eq ∙ e))))

load_config-Ensures :
    (n : ℤ) (include : Bool) (version : Text) (c : ConfigRow) (db : Db) (now : ℕ)
    → c.id ≡ n
    → Ensures
        (load_config n include version (some (select_row db c)))
        db
        now
        (λ o db'. (db' ≡ db) × ((conf : Config) → o ≡ some conf → Loaded include version db c conf))
unfolding load_config select_row Loaded
load_config-Ensures n false version c db now same = Ensures-bind _ _ (
    Ensures-weaken (acls_for_owner-Ensures c.id db now) (λ acls db1 (ea, e1).
      rw (e1, ea) (Ensures-pure _ (refl, λ conf e. sym (some-injective _ _ e)))))
load_config-Ensures n true version c db now same = Ensures-bind _ _ (
    Ensures-weaken (acls_for_owner-Ensures c.id db now) (λ acls db1 (ea, e1).
      rw (e1, ea)
        (Ensures-bind _ _ (
          Ensures-weaken (version_to_load-Ensures version (select_row db c) db now)
            (λ v db2 (e2, asked). rw e2 (
              Ensures-weaken (load_version-Ensures (message_of db c) n v db now)
                (λ o db' (e, loaded). (
                  e,
                  λ conf ec.
                      let (r, m, owner, is_v, eq) = loaded conf ec in
                      (r, m, owner ∙ sym same, asked r.id is_v, eq),
                ))))))))

load_none-Ensures :
    (n : ℤ) (include : Bool) (version id : Text) (db : Db) (now : ℕ)
    → Ensures
        (load_config n include version none)
        db
        now
        (λ conf db'. (db' ≡ db) × Found id include version db conf)
unfolding load_config Found
load_none-Ensures n include version id db now = Ensures-pure _ (refl, tt)

Found-of_Loaded :
    (id : Text) (include : Bool) (version : Text) (db : Db) (c : ConfigRow) (o : Option Config)
    → Memᴰ c db.config
    → parse_int id ≡ some c.id
    → ((conf : Config) → o ≡ some conf → Loaded include version db c conf)
    → Found id include version db o
unfolding Found
Found-of_Loaded id include version db c none m p h = tt
Found-of_Loaded id include version db c (some conf) m p h = (c, m, p, h conf refl)

load_selected-Ensures :
    (id : Text) (n : ℤ) (include : Bool) (version : Text) (db : Db) (now : ℕ)
    → parse_int id ≡ some n
    → Ensures
        (load_config n include version (select_first (λ c. int_eq c.id n) db))
        db
        now
        (λ conf db'. (db' ≡ db) × Found id include version db conf)
unfolding select_first
load_selected-Ensures id n include version db now p =
    elim (Option-cases (find (λ (c : ConfigRow). int_eq c.id n) db.config)) [
      | inl absent ↦ rw (absent, select_first) (load_none-Ensures n include version id db now)
      | inr (c, found) ↦
          let m = mem_of_find (λ (r : ConfigRow). int_eq r.id n) db.config c found in
          let same =
            (int_eq_iff c.id n).0
              (find_passes (λ (r : ConfigRow). int_eq r.id n) db.config c found) in
          rw (found, select_first)
            (Ensures-weaken (load_config-Ensures n include version c db now same) (λ o db' (e, h).
              (e, Found-of_Loaded id include version db c o m (p ∙ ap some (sym same)) h)))
    ]

get_parsed_config-Ensures :
    (id : Text) (o : Option ℤ) (include : Bool) (version : Text) (db : Db) (now : ℕ)
    → parse_int id ≡ o
    → Ensures
        (get_parsed_config id o include version)
        db
        now
        (λ conf db'. (db' ≡ db) × Found id include version db conf)
unfolding get_parsed_config
get_parsed_config-Ensures id none include version db now p = Ensures-raise _
get_parsed_config-Ensures id (some n) include version db now p =
    Ensures-bind _ _ (Ensures-query _ (load_selected-Ensures id n include version db now p))

pub get_config_by_id-Ensures :
    (id : Text) (include : Bool) (version : Text) (db : Db) (now : ℕ)
    → Ensures
        (get_config_by_id id include version)
        db
        now
        (λ conf db'. (db' ≡ db) × Found id include version db conf)
unfolding get_config_by_id
get_config_by_id-Ensures id include version db now =
    get_parsed_config-Ensures id (parse_int id) include version db now refl

-- A lookup that returns changes no table; the config that it returns has the requested id, its
-- stored fields and its own ACL entries. Where content is included, content and size are those of a
-- stored version that belongs to this very config and that is the requested version, or the current
-- one where none is requested.
pub get_config_by_id_sound :
    (id : Text) (include : Bool) (version : Text) (w : World) (conf : Config)
    → (get_config_by_id id include version w).0 ≡ ok (some conf)
    → ((get_config_by_id id include version w).1.db ≡ w.db)
      × Found id include version w.db (some conf)
get_config_by_id_sound id include version w conf h =
    let ((same, found), _, _) =
      (get_config_by_id-Ensures id include version w.db w.now).post w refl refl (some conf) h
        (λ _. tt) in
    (same, found)
