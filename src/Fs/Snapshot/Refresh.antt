-- ===== src/Fs/Snapshot/Refresh.antt =====
-- RemoteConfigFS.refresh of internal/fs/fs.go: what a load leaves behind, and what a mount then
-- serves.
use configfs.Prelude.{
  ℕ, zero, suc, ◌≡◌, refl, ◌∙◌, ◌⊎◌, inl, inr, true, false, List, [], Option, none, some,
}
use configfs.Strings.{Text}
use configfs.Proto.{Config, Tree}
use configfs.Exec.{Result, ok, err, ◌>>=◌}
use configfs.Store.Db.{World}
use configfs.Store.Tree.Safety.{IsVisible}
use configfs.Api.Server.{Server, Code}
use configfs.Api.Handlers.{list_rpc}
use configfs.Api.Handlers.Listing.{list_rpc_safe}
use configfs.Api.Service.Gates.{list_rpc-IsRead}
use configfs.Client.{Client, served}
use configfs.Fs.Index.{get_value}
use configfs.Fs.Index.Laws.{directory_map_exact}
use configfs.Fs.Snapshot.{
  Mount, snapshot_of, refresh, ticks, refresh_snapshot, request, install, load_snapshot,
  empty_snapshot,
}

module _ {R : Type 0} (client : Client R) (m : Mount R) where
  -- the mount after a load that returned `t`
  abbrev pub reloaded : Option Tree → Mount R
  reloaded t = record m {
    snapshot = snapshot_of t;
    refresh_failing = false;
    remote = (client.list [] m.remote).1;
  }

  abbrev pub kept : Mount R
  kept = record m { refresh_failing = true; remote = (client.list [] m.remote).1 }

  refreshed :
      (r : Result Code (Option Tree))
      → (client.list [] m.remote).0 ≡ r
      → ((t : Option Tree) × ((client.list [] m.remote).0 ≡ ok t) × (refresh client m ≡ reloaded t))
        ⊎ ((e : Code) × ((client.list [] m.remote).0 ≡ err e) × (refresh client m ≡ kept))
  unfolding refresh refresh_snapshot request install ◌>>=◌
  refreshed (ok t) p = inl (t, p, (rw p refl))
  refreshed (err e) p = inr (e, p, (rw p refl))

  -- A load either returns, and the mount then serves exactly the returned tree and notes that loads
  -- succeed, or it fails, and the mount keeps the tree it had, the times of reads and everything
  -- else, and notes the failure.
  pub refresh_lem :
      ((t : Option Tree) × ((client.list [] m.remote).0 ≡ ok t) × (refresh client m ≡ reloaded t))
      ⊎ ((e : Code) × ((client.list [] m.remote).0 ≡ err e) × (refresh client m ≡ kept))
  refresh_lem = refreshed (client.list [] m.remote).0 refl

module _ (tags : List Text) (m : Mount World) where
  IsVisible-within :
      (t : Option Tree)
      → (list_rpc tags [] m.remote).0 ≡ ok t
      → (id : Text) (c : Config) → get_value id (snapshot_of t).index.id_config ≡ some c
      → (c.id ≡ id) × ((prefix : Text) × IsVisible tags prefix m.remote.db c)
  unfolding snapshot_of get_value
  IsVisible-within none p id c h = cc
  IsVisible-within (some t) p id c h =
      let (within, same) = (directory_map_exact t).0.by_id id c h in
      (same, (list_rpc_safe tags [] m.remote t p).1 c within)

-- Every config that the mount serves under an id has that id and is one that the caller may see.
abbrev pub IsFresh : List Text → Mount World → Type 0
IsFresh tags m =
    (id : Text) (c : Config)
    → get_value id m.snapshot.index.id_config ≡ some c
    → (c.id ≡ id) × ((prefix : Text) × IsVisible tags prefix m.remote.db c)

module _ (s : Server) (tags : List Text) where
  refresh-db : (m : Mount World) → (refresh (served s tags) m).remote.db ≡ m.remote.db
  refresh-db m = elim (refresh_lem (served s tags) m) [
    | inl (t, p, q) ↦ rw q ((list_rpc-IsRead tags []).keeps m.remote)
    | inr (e, p, q) ↦ rw q ((list_rpc-IsRead tags []).keeps m.remote)
  ]

  refresh-IsFresh : (m : Mount World) → IsFresh tags m → IsFresh tags (refresh (served s tags) m)
  refresh-IsFresh m fresh id c e = elim (refresh_lem (served s tags) m) [
    | inl (t, p, q) ↦
        rw (q, (list_rpc-IsRead tags []).keeps m.remote)
          (IsVisible-within tags m t p id c (rw q at e))
    | inr (f, p, q) ↦ rw (q, (list_rpc-IsRead tags []).keeps m.remote) (fresh id c (rw q at e))
  ]

  ticks-IsFresh :
      (n : ℕ) (m : Mount World)
      → IsFresh tags m
      → ((ticks (served s tags) n m).remote.db ≡ m.remote.db)
        × IsFresh tags (ticks (served s tags) n m)
  unfolding ticks
  ticks-IsFresh zero m fresh = (refl, fresh)
  ticks-IsFresh (suc n) m fresh =
      let (same, all) = ticks-IsFresh n (refresh (served s tags) m) (refresh-IsFresh m fresh) in
      (same ∙ refresh-db m, all)

  empty-IsFresh : (m : Mount World) → IsFresh tags (record m { snapshot = empty_snapshot })
  unfolding get_value
  empty-IsFresh m id c e = cc

  -- Over the server's own handlers, and whatever statements of whichever load fail: after the first
  -- load of a mount and any number of the loads in the background, every config that the mount
  -- serves under an id has that id, is stored and is visible to the caller, and no load has changed a table.
  pub loaded-IsFresh :
      (n : ℕ) (m : Mount World)
      → ((ticks (served s tags) n (load_snapshot (served s tags) m)).remote.db ≡ m.remote.db)
        × IsFresh tags (ticks (served s tags) n (load_snapshot (served s tags) m))
  unfolding load_snapshot
  loaded-IsFresh n m =
      let empty = record m { snapshot = empty_snapshot } in
      let (same, all) =
        ticks-IsFresh n (refresh (served s tags) empty) (refresh-IsFresh empty (empty-IsFresh m)) in
      (same ∙ refresh-db empty, all)
