-- ===== src/Fs/Nodes/Writing.antt =====
-- Config.Write of internal/fs/fs.go over the server's own handlers, from the file to the tables.
use configfs.Prelude.{◌≡◌, refl, ◌∙◌, ap, ◌⊎◌, inl, inr, subst, List, [], Option, none, some}
use configfs.Strings.{Text}
use configfs.Proto.{Config, Tree}
use configfs.Exec.{Result, ok, err, ◌>>=◌}
use configfs.Exec.Ensures.{bind_rest}
use configfs.Store.Db.{Db, World}
use configfs.Store.Db.Laws.{Struck}
use configfs.Store.Configs.Upsert.{UpsertEffect}
use configfs.Api.Server.{Server, Code}
use configfs.Api.Handlers.{list_rpc, get_config_rpc, set_config_rpc}
use configfs.Api.Handlers.Reading.{IsShown, get_config_rpc_safe}
use configfs.Api.Handlers.Writing.{MayStore, MayWriteInto, set_config_rpc_safe}
use configfs.Api.Service.Gates.{list_rpc-IsRead, get_config_rpc-IsRead}
use configfs.Client.{served}
use configfs.Fs.Snapshot.Requests.{request_ok}
use configfs.Fs.Snapshot.{
  Mount, request, id_or_empty, full_config, refresh_snapshot, write, install,
}

module _ (s : Server) (tags : List Text) where
  -- `LostBy w c db'`: a statement of the request that stores `c`, asked of `w`, has failed, and the
  -- tables are as before.
  abbrev pub LostBy : World → World → Config → Db → Type 0
  LostBy w asked c db' =
      Struck asked.faults (set_config_rpc s tags (some c) asked).1.faults × (db' ≡ w.db)

  -- What a write over the handlers has read, was allowed to do, and has done to the tables.
  pub record WroteThrough (id : Text) (h : Config → Config) (w : World) (db' : Db) : Type 0 where
    pub conf : Config
    pub shown : IsShown tags id none w.db conf
    pub stored : MayStore s tags (h conf).id w.db
    pub placed : MayWriteInto tags (h conf).path w.db
    pub changed :
        LostBy w (get_config_rpc tags id none w).1 (h conf) db'
        ⊎ UpsertEffect (h conf) w.now w.db db'

  reload_from :
      (m : Mount World) (r : Result Code (Option Tree))
      → (list_rpc tags [] m.remote).0 ≡ r
      → (refresh_snapshot (served s tags) m).1.remote ≡ (list_rpc tags [] m.remote).1
  unfolding refresh_snapshot request install ◌>>=◌
  reload_from m (ok t) p = rw p refl
  reload_from m (err e) p = rw p refl

  pub reload_keeps :
      (m : Mount World) → (refresh_snapshot (served s tags) m).1.remote.db ≡ m.remote.db
  reload_keeps m =
      ap (λ (w : World). w.db) (reload_from m (list_rpc tags [] m.remote).0 refl)
      ∙ (list_rpc-IsRead tags []).keeps m.remote

  sent :
      (c : Config) (m : Mount World)
      → ((request (set_config_rpc s tags (some c)) >>= (λ _. refresh_snapshot (served s tags))) m).0
        ≡ ok tt
      → MayStore s tags c.id m.remote.db
        × MayWriteInto tags c.path m.remote.db
        × (LostBy m.remote m.remote c
              ((request (set_config_rpc s tags (some c))
                  >>= (λ _. refresh_snapshot (served s tags)))
                m).1.remote.db
            ⊎ UpsertEffect c m.remote.now m.remote.db
                ((request (set_config_rpc s tags (some c))
                    >>= (λ _. refresh_snapshot (served s tags)))
                  m).1.remote.db)
  sent c m e =
      let (r, p, q, e') = bind_rest _ _ m tt e in
      let (p', m1) = request_ok (set_config_rpc s tags (some c)) m r p in
      let after : World = (set_config_rpc s tags (some c) m.remote).1 in
      let (may, into, done) = set_config_rpc_safe s tags c m.remote r p' in
      (may, into, (rw (q, m1, reload_keeps (record m { remote = after })) done))

  -- What a Write of the snapshot that returns has done.
  pub write_sound :
      (c : Option Config) (h : Config → Config) (m : Mount World)
      → (write (served s tags) c h m).0 ≡ ok tt
      → WroteThrough (id_or_empty c) h m.remote (write (served s tags) c h m).1.remote.db
  unfolding write full_config
  write_sound c h m e =
      let (conf, p, q, e1) = bind_rest _ _ m tt e in
      let (p', m1) = request_ok _ m conf p in
      let (same, shown) = get_config_rpc_safe tags (id_or_empty c) none m.remote conf p' in
      let (may, into, done) = sent (h conf) (full_config (served s tags) c m).1 e1 in
      let kept = ap (λ (o : Mount World). o.remote.db) m1 ∙ same in
      let clock =
        ap (λ (o : Mount World). o.remote.now) m1
        ∙ (get_config_rpc-IsRead tags (id_or_empty c) none).clock m.remote in
      record {
        conf = conf;
        shown = shown;
        stored = (rw kept at may);
        placed = (rw kept at into);
        changed = rw q (elim done [
          | inl (struck, same1) ↦ inl (
            subst
                (λ (v : World). Struck v.faults (set_config_rpc s tags (some (h conf)) v).1.faults)
                (ap (λ (o : Mount World). o.remote) m1) struck,
            same1 ∙ kept,
          )
          | inr made ↦ inr (rw (kept, clock) at made)
        ]);
      }
