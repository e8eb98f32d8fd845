-- ===== src/Store/Configs/Consistent.antt =====
-- The references between config, config_content and config_acl, which the store keeps by its own
-- transactions: `schema` puts no foreign key on current_content_id, and the others may be off.
use mathlib.Core.List
use configfs.Prelude.{
  ℕ, suc, ℤ, pos, int_eq, int_eq_iff, ◌≡◌, ◌≢◌, inl, inr, refl, sym, ap, ◌∙◌, true, not, List, [],
  ◌∷◌, ◌++◌, map, Memᴰ, Option, none, some, arith, keep, mem_of_keep, mem-keep, Bool-cases,
}
use configfs.Proto.{ConfigAcl, Config}
use configfs.Store.Db.{AclRow, ConfigRow, ContentRow, Db}
use configfs.Store.Acls.{is_recognised, acl_row, owned_by}
use configfs.Store.Configs.{touch_row}
use configfs.Store.Configs.Effects.{new_content_row, inserted, versioned, updated, deleted}

-- A config with that id is stored.
unfoldable pub HasConfig : List ConfigRow → ℤ → Type 0
HasConfig configs n = (c : ConfigRow) × Memᴰ c configs × (c.id ≡ n)

-- The current version of a config is stored, and is a version of this config.
unfoldable pub HasCurrent : List ContentRow → ConfigRow → Type 0
HasCurrent contents c =
    (r : ContentRow) × Memᴰ r contents × (c.current_content_id ≡ some r.id) × (r.config_id ≡ c.id)

-- Every config has its current version, and every version and ACL entry has its config.
pub record IsConsistent (db : Db) : Type 0 where
  pub current : (c : ConfigRow) → Memᴰ c db.config → HasCurrent db.config_content c
  pub owned_versions : (r : ContentRow) → Memᴰ r db.config_content → HasConfig db.config r.config_id
  pub owned_acls : (r : AclRow) → Memᴰ r db.config_acl → HasConfig db.config r.owner_id

HasConfig-append : (cs ds : List ConfigRow) (n : ℤ) → HasConfig cs n → HasConfig (cs ++ ds) n
unfolding HasConfig
HasConfig-append cs ds n (c, m, e) = (c, List.Memᴰ.append_left ds m, e)

HasCurrent-append :
    (rs ss : List ContentRow) (c : ConfigRow) → HasCurrent rs c → HasCurrent (rs ++ ss) c
unfolding HasCurrent
HasCurrent-append rs ss c (r, m, e, own) = (r, List.Memᴰ.append_left ss m, e, own)

owner_of_acl_row :
    (n : ℤ) (acls : List ConfigAcl) (r : AclRow) → Memᴰ r (map (acl_row n) acls) → r.owner_id ≡ n
unfolding acl_row
owner_of_acl_row n acls r m =
    let (a, _, e) = List.Memᴰ.of_map (acl_row n) acls m in ap (λ (x : AclRow). x.owner_id) (sym e)

module _ (now : ℕ) (c : Config) {db : Db} (v : IsConsistent db) where
  abbrev after : Db
  after = inserted now c db

  new_row : HasConfig after.config (pos (suc db.inode))
  unfolding HasConfig
  new_row = (_, List.Memᴰ.append_right db.config (Memᴰ.head refl), refl)

  inserted_current : (d : ConfigRow) → Memᴰ d after.config → HasCurrent after.config_content d
  inserted_current d m = elim (List.Memᴰ.append_cases db.config m) [
    | inl old ↦ HasCurrent-append db.config_content _ d (v.current d old)
    | inr new ↦ rw (List.Memᴰ.eq_of_singleton new) (
        unfold HasCurrent in
        (_, List.Memᴰ.append_right db.config_content (Memᴰ.head refl), refl, refl))
  ]

  inserted_versions :
      (r : ContentRow) → Memᴰ r after.config_content → HasConfig after.config r.config_id
  inserted_versions r m = elim (List.Memᴰ.append_cases db.config_content m) [
    | inl old ↦ HasConfig-append db.config _ r.config_id (v.owned_versions r old)
    | inr new ↦ rw (List.Memᴰ.eq_of_singleton new) new_row
  ]

  inserted_acls : (r : AclRow) → Memᴰ r after.config_acl → HasConfig after.config r.owner_id
  inserted_acls r m = elim (List.Memᴰ.append_cases db.config_acl m) [
    | inl old ↦ HasConfig-append db.config _ r.owner_id (v.owned_acls r old)
    | inr new ↦ rw (owner_of_acl_row _ (keep is_recognised c.acls) r new) new_row
  ]

  pub inserted-IsConsistent : IsConsistent (inserted now c db)
  inserted-IsConsistent = record {
    current = inserted_current;
    owned_versions = inserted_versions;
    owned_acls = inserted_acls;
  }

keep-HasConfig :
    (n k : ℤ) (cs : List ConfigRow)
    → k ≢ n
    → HasConfig cs k
    → HasConfig (keep (λ (r : ConfigRow). not (int_eq r.id n)) cs) k
unfolding HasConfig
keep-HasConfig n k cs ne (c, m, e) = (c, mem-keep _ cs c m (ground (arith, int_eq_iff c.id n)), e)

ne_of_kept : (k n : ℤ) → not (int_eq k n) ≡ true → k ≢ n
ne_of_kept k n h = ground (arith, int_eq_iff k n)

pub deleted-IsConsistent : (n : ℤ) {db : Db} → IsConsistent db → IsConsistent (deleted n db)
deleted-IsConsistent n {db} v = record {
  current = λ c m.
      let (old, h) = mem_of_keep _ db.config c m in
      unfold HasCurrent in
      let (r, stored, cur, own) = v.current c old in
      (
        r,
        mem-keep _ db.config_content r stored
            (ground (arith, int_eq_iff c.id n, int_eq_iff r.config_id n)),
        cur,
        own,
      );
  owned_versions = λ r m.
      let (old, h) = mem_of_keep _ db.config_content r m in
      keep-HasConfig n r.config_id db.config (ne_of_kept r.config_id n h) (v.owned_versions r old);
  owned_acls = λ r m.
      let (old, h) = mem_of_keep _ db.config_acl r m in
      unfold owned_by in
      keep-HasConfig n r.owner_id db.config (ne_of_kept r.owner_id n h) (v.owned_acls r old);
}

pub touch_row_keeps :
    (n : ℤ) (now : ℕ) (v : Option ℤ) (c : ConfigRow)
    → ((touch_row n now v c).id ≡ c.id)
      × ((touch_row n now v c).name ≡ c.name)
      × ((touch_row n now v c).path ≡ c.path)
unfolding touch_row
touch_row_keeps n now none c = ground arith
touch_row_keeps n now (some k) c = ground arith

touched-HasConfig :
    (n : ℤ) (now : ℕ) (v : Option ℤ) (cs : List ConfigRow) (k : ℤ)
    → HasConfig cs k
    → HasConfig (map (touch_row n now v) cs) k
unfolding HasConfig
touched-HasConfig n now v cs k (c, m, e) =
    (touch_row n now v c, List.Memᴰ.map (touch_row n now v) m, (touch_row_keeps n now v c).0 ∙ e)

touched_none-HasCurrent :
    (n : ℤ) (now : ℕ) (rs : List ContentRow) (c : ConfigRow)
    → HasCurrent rs c
    → HasCurrent rs (touch_row n now none c)
unfolding HasCurrent touch_row
touched_none-HasCurrent n now rs c (r, m, e, own) = (r, m, ground arith, ground arith)

touched_some-HasCurrent :
    (n : ℤ) (now size : ℕ) (k : ℤ) (bytes : List ℕ) (rs : List ContentRow) (c : ConfigRow)
    → HasCurrent rs c
    → HasCurrent (rs ++ new_content_row n k now size bytes ∷ []) (touch_row n now (some k) c)
unfolding HasCurrent touch_row
touched_some-HasCurrent n now size k bytes rs c (r, m, e, own) = elim (Bool-cases (int_eq c.id n)) [
  | inl this ↦ rw this (
    new_content_row n k now size bytes,
    List.Memᴰ.append_right rs (Memᴰ.head refl),
    refl,
    sym ((int_eq_iff c.id n).0 this),
  )
  | inr other ↦ rw other (r, List.Memᴰ.append_left _ m, e, own)
]

module _ (n : ℤ) (now size : ℕ) {db : Db} (v : IsConsistent db)
    (there : HasConfig db.config n) where
  versioned_current :
      (content : Option (List ℕ)) (c : ConfigRow)
      → Memᴰ c (versioned n now size content db).config
      → HasCurrent (versioned n now size content db).config_content c
  versioned_current none c m =
      let (d, stored, e) = List.Memᴰ.of_map (touch_row n now none) db.config m in
      rw (← e) (touched_none-HasCurrent n now db.config_content d (v.current d stored))
  versioned_current (some bytes) c m =
      let k : ℤ = pos (suc db.inode) in
      let (d, stored, e) = List.Memᴰ.of_map (touch_row n now (some k)) db.config m in
      rw (← e) (touched_some-HasCurrent n now size k bytes db.config_content d (v.current d stored))

  versioned-HasConfig :
      (content : Option (List ℕ)) (k : ℤ)
      → HasConfig db.config k
      → HasConfig (versioned n now size content db).config k
  versioned-HasConfig none k h = touched-HasConfig n now none db.config k h
  versioned-HasConfig (some bytes) k h =
      touched-HasConfig n now (some (pos (suc db.inode))) db.config k h

  versioned_versions :
      (content : Option (List ℕ)) (r : ContentRow)
      → Memᴰ r (versioned n now size content db).config_content
      → HasConfig (versioned n now size content db).config r.config_id
  versioned_versions none r m = versioned-HasConfig none r.config_id (v.owned_versions r m)
  versioned_versions (some bytes) r m = elim (List.Memᴰ.append_cases db.config_content m) [
    | inl old ↦ versioned-HasConfig (some bytes) r.config_id (v.owned_versions r old)
    | inr new ↦ rw (List.Memᴰ.eq_of_singleton new) (versioned-HasConfig (some bytes) n there)
  ]

pub updated-IsConsistent :
    (n : ℤ) (now : ℕ) (c : Config) {db : Db}
    → IsConsistent db
    → HasConfig db.config n
    → IsConsistent (updated n now c db)
updated-IsConsistent n now c {db} v there = record {
  current = versioned_current n now c.content_size v there c.content;
  owned_versions = versioned_versions n now c.content_size v there c.content;
  owned_acls = λ r m.
      elim (List.Memᴰ.append_cases (keep (λ x. not (owned_by n x)) db.config_acl) m) [
        | inl old ↦
            versioned-HasConfig n now c.content_size v there c.content r.owner_id
              (v.owned_acls r (mem_of_keep _ db.config_acl r old).0)
        | inr new ↦
            rw (owner_of_acl_row n (keep is_recognised c.acls) r new)
              (versioned-HasConfig n now c.content_size v there c.content n there)
      ];
}
