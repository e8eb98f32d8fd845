-- ===== src/Store/Integrity.antt =====
-- Invariants of the tables of configs that every operation of internal/store/sqlite/store.go keeps,
-- whatever statements fail.
use mathlib.Core.List
use configfs.Prelude.{
  ℕ, ℤ, int_eq, int_eq_iff, ◌≡◌, ◌≢◌, inl, inr, refl, sym, ap, ◌∙◌, subst, true, not, List, Memᴰ,
  Option, none, some, arith, mem-keep,
}
use configfs.Strings.{Text}
use configfs.Strings.Decimal.{parse_int}
use configfs.Proto.{Config}
use configfs.Exec.{Result, ok, err}
use configfs.Store.Db.{AclRow, ConfigRow, ContentRow, Db, World, Error}
use configfs.Store.Frames.{
  configs_view, create_directory-Keeps, update_directory-Keeps, delete_directory-Keeps,
}
use configfs.Store.Configs.{
  upsert, upsert_body, delete_config, delete_parsed_config, delete_config_body,
}
use configfs.Store.Configs.Effects.{versioned, deleted, delete_config-Ensures}
use configfs.Store.Configs.Consistent.{
  HasConfig, IsConsistent, inserted-IsConsistent, updated-IsConsistent, deleted-IsConsistent,
}
use configfs.Store.Configs.Upsert.{UpsertEffect, upsert_sound}
use configfs.Store.Atomic.{
  Mutation, upsert_of, delete_of, create_directory_of, update_directory_of, delete_directory_of,
  run, Ensures-with_tx, with_tx_err,
}

-- Every operation changes the tables of configs in one of these ways, whether it returns or fails.
data Change (m : Mutation) (w : World) : Db → Type 0 where
  nothing : {db' : Db} → configs_view db' ≡ configs_view w.db → Change m w db'
  upserted :
      {db' : Db} (c : Config) → m ≡ upsert_of c → UpsertEffect c w.now w.db db' → Change m w db'
  removed :
      {db' : Db} (id : Text) (n : ℤ)
      → m ≡ delete_of id
      → parse_int id ≡ some n
      → db' ≡ deleted n w.db
      → Change m w db'

upsert-Change :
    (c : Config) (w : World) (r : Result Error (Option Config))
    → (upsert c w).0 ≡ r
    → Change (upsert_of c) w (upsert c w).1.db
unfolding upsert
upsert-Change c w (ok r) h = elim (upsert_sound c w r h) [
  | inl (_, lost) ↦ Change.nothing (ap configs_view lost)
  | inr done ↦ Change.upserted c refl done
]
upsert-Change c w (err e) h = Change.nothing (ap configs_view (with_tx_err (upsert_body c) w e h))

delete-Change :
    (id : Text) (o : Option ℤ) (w : World) (r : Result Error (Unit {0}))
    → parse_int id ≡ o
    → (delete_parsed_config id o w).0 ≡ r
    → Change (delete_of id) w (delete_parsed_config id o w).1.db
unfolding delete_parsed_config
delete-Change id none w r p h = Change.nothing refl
delete-Change id (some n) w (ok u) p h =
    let body = Ensures-with_tx (delete_config_body n) (delete_config-Ensures n w.db w.now) in
    elim (body.post w refl refl u h (λ _. tt)).0 [
      | inl (_, lost) ↦ Change.nothing (ap configs_view lost)
      | inr done ↦ Change.removed id n refl p done
    ]
delete-Change id (some n) w (err e) p h =
    Change.nothing (ap configs_view (with_tx_err (delete_config_body n) w e h))

-- What an operation does to the tables of configs, whatever statements fail: an Upsert that does
-- anything has its whole effect, a deletion removes exactly the config, its versions and its ACL
-- entries, and the operations on directories leave these tables as they are.
run-Change : (m : Mutation) (w : World) → Change m w (run m w).1.db
unfolding run delete_config
run-Change (upsert_of c) w = upsert-Change c w (upsert c w).0 refl
run-Change (delete_of id) w =
    delete-Change id (parse_int id) w (delete_parsed_config id (parse_int id) w).0 refl refl
run-Change (create_directory_of d) w = Change.nothing ((create_directory-Keeps d).same w)
run-Change (update_directory_of d) w = Change.nothing ((update_directory-Keeps d).same w)
run-Change (delete_directory_of id) w = Change.nothing ((delete_directory-Keeps id).same w)

IsConsistent-of_view :
    {db db' : Db} → configs_view db' ≡ configs_view db → IsConsistent db → IsConsistent db'
IsConsistent-of_view e v =
    let configs = ap (λ (p : List ConfigRow × List ContentRow × List AclRow). p.0) e in
    let contents = ap (λ (p : List ConfigRow × List ContentRow × List AclRow). p.1) e in
    let acls = ap (λ (p : List ConfigRow × List ContentRow × List AclRow). p.2) e in
    record {
      current = rw (configs, contents) v.current;
      owned_versions = rw (configs, contents) v.owned_versions;
      owned_acls = rw (configs, acls) v.owned_acls;
    }

effect-IsConsistent :
    (c : Config) (w : World) {db' : Db}
    → UpsertEffect c w.now w.db db'
    → IsConsistent w.db
    → IsConsistent db'
effect-IsConsistent c w (UpsertEffect.insertion _ _ e) v = rw e (inserted-IsConsistent w.now c v)
effect-IsConsistent c w (UpsertEffect.change row m _ _ _ e) v =
    rw e (updated-IsConsistent row.id w.now c v (unfold HasConfig in (row, m, refl)))

Change-IsConsistent :
    (m : Mutation) (w : World) {db' : Db} → Change m w db' → IsConsistent w.db → IsConsistent db'
Change-IsConsistent m w (Change.nothing e) v = IsConsistent-of_view e v
Change-IsConsistent m w (Change.upserted c _ done) v = effect-IsConsistent c w done v
Change-IsConsistent m w (Change.removed id n _ _ e) v = rw e (deleted-IsConsistent n v)

-- Where every config has its current version stored and every version and ACL entry has its config,
-- that is so after any operation, whatever statements fail.
pub run-IsConsistent : (m : Mutation) (w : World) → IsConsistent w.db → IsConsistent (run m w).1.db
run-IsConsistent m w v = Change-IsConsistent m w (run-Change m w) v

-- The versions that an operation may remove: those of the config that it deletes.
abbrev pub Spares : Mutation → ContentRow → Type 0
Spares (delete_of id) r = parse_int id ≢ some r.config_id
Spares _ r = Unit

Spares-delete :
    (m : Mutation) (id : Text) (n : ℤ) (r : ContentRow)
    → m ≡ delete_of id
    → parse_int id ≡ some n
    → Spares m r
    → not (int_eq r.config_id n) ≡ true
Spares-delete m id n r e p s =
    let kept : parse_int id ≢ some r.config_id = subst (λ x. Spares x r) e s in
    ground (arith, int_eq_iff r.config_id n, λ (q : r.config_id ≡ n). kept (p ∙ ap some (sym q)))

versioned_keeps :
    (n : ℤ) (now size : ℕ) (content : Option (List ℕ)) (db : Db) (r : ContentRow)
    → Memᴰ r db.config_content
    → Memᴰ r (versioned n now size content db).config_content
versioned_keeps n now size none db r i = i
versioned_keeps n now size (some bytes) db r i = List.Memᴰ.append_left _ i

effect_keeps :
    (c : Config) (now : ℕ) {db db' : Db} (r : ContentRow)
    → UpsertEffect c now db db'
    → Memᴰ r db.config_content
    → Memᴰ r db'.config_content
effect_keeps c now r (UpsertEffect.insertion _ _ e) i = rw e (List.Memᴰ.append_left _ i)
effect_keeps c now {db} r (UpsertEffect.change row _ _ _ _ e) i =
    rw e (versioned_keeps row.id now c.content_size c.content db r i)

change_keeps :
    (m : Mutation) (w : World) {db' : Db} (r : ContentRow)
    → Change m w db'
    → Memᴰ r w.db.config_content
    → Spares m r
    → Memᴰ r db'.config_content
change_keeps m w r (Change.nothing e) i s =
    rw (ap (λ (p : List ConfigRow × List ContentRow × List AclRow). p.1) e) i
change_keeps m w r (Change.upserted c _ done) i s = effect_keeps c w.now r done i
change_keeps m w r (Change.removed id n p q e) i s =
    rw e (mem-keep _ w.db.config_content r i (Spares-delete m id n r p q s))

-- No operation removes or alters a stored version, whatever statements fail: only the deletion of a
-- config removes any, and then only that config's versions.
pub run_keeps_versions :
    (m : Mutation) (w : World) (r : ContentRow)
    → Memᴰ r w.db.config_content
    → Spares m r
    → Memᴰ r (run m w).1.db.config_content
run_keeps_versions m w r i s = change_keeps m w r (run-Change m w) i s
