-- ===== src/Store/Migrations/Rebuilds.antt =====
-- The transaction of migrateContentVersions (internal/store/sqlite/store.go).
use configfs.Prelude.{
  ◌≡◌, refl, ap, ◌∙◌, subst, true, false, not, ◌&&◌, List, map, Option, none, some, arith,
  Bool-cases, inl, inr,
}
use configfs.Exec.{ok}
use configfs.Store.Db.{ContentRow}
use configfs.Store.Migrations.{ContentTable, File, or_new, new_content}
use configfs.Store.Migrations.Opening.{
  renamed, rename_content, versioned_content, created_content, create_content, ids_of, all_configs,
  versioned_row, copied, with_rows, copy_content, column_in, drop_legacy, version_statements,
}
use configfs.Store.Migrations.Upgrade.{
  IsFile, upgraded, upgraded_content, upgraded_content_row, config_of_file, content_ids, config_ids,
  IsPair,
}
use configfs.Store.Migrations.Steps.{map-same}
use configfs.Store.Migrations.Keeps.{Keeps, Keeps-tables}
use configfs.Store.Migrations.Runs.{Ran}

renamed_ok :
    (o p : Option ContentTable) (f g : File)
    → renamed o p f ≡ ok g
    → (t : ContentTable) × (o ≡ some t)
      × (g ≡ record f { config_content = none; config_content_legacy = some t })
renamed_ok none p f g e = cc
renamed_ok (some t) none f g e = (t, refl, ground (arith, e))
renamed_ok (some t) (some u) f g e = cc

created_ok :
    (o : Option ContentTable) (f g : File)
    → created_content o f ≡ ok g
    → g ≡ record f { config_content = some versioned_content }
created_ok none f g e = ground (arith, e)
created_ok (some t) f g e = cc

copied_ok :
    (t u : ContentTable) (f g : File)
    → with_rows (copied (ids_of f.config) u) t f ≡ ok g
    → (u.has_created_at ≡ true)
      × (u.has_updated_at ≡ true)
      × (g ≡ record f { config_content = some (record t { rows = map versioned_row u.rows }) })
copied_ok t u f g e =
    elim (Bool-cases
      (u.has_created_at && u.has_updated_at && all_configs (ids_of f.config) u.rows)) [
        | inl can ↦ (ground (arith, can), ground (arith, can), ground (arith, can, e))
        | inr cannot ↦ cc (rw cannot at e)
      ]

-- What the rebuilt table holds.
abbrev pub rebuilt : ContentTable → ContentTable
rebuilt t = record versioned_content { rows = map versioned_row t.rows }

pub versions_Ran :
    (f g : File)
    → Ran version_statements f g
    → (t : ContentTable) × (f.config_content ≡ some t)
      × (t.has_created_at ≡ true)
      × (t.has_updated_at ≡ true)
      × (g ≡ record f { config_content = some (rebuilt t); config_content_legacy = none })
unfolding version_statements rename_content create_content copy_content drop_legacy
versions_Ran f g (f1, e1, (f2, e2, (f3, e3, (f4, e4, last)))) =
    let (t, at, p1) = renamed_ok f.config_content f.config_content_legacy f f1 e1 in
    let p2 = created_ok f1.config_content f1 f2 e2 in
    let q2 : f2
        ≡ record f { config_content = some versioned_content; config_content_legacy = some t } =
      rw p1 at p2 in
    let (c, u, p3) = copied_ok versioned_content t _ f3 (rw q2 at e3) in
    (t, at, c, u, ground (arith, last, rw p3 at e4))

rebuilt_same :
    (t : ContentTable)
    → t.has_config_id ≡ false
    → t.has_content_size ≡ false
    → t.has_created_at ≡ true
    → t.has_updated_at ≡ true
    → upgraded_content (rebuilt t) ≡ upgraded_content t
rebuilt_same t old unmeasured c u =
    ap (λ (l : List ContentRow). record new_content { rows = l })
      (map-same (upgraded_content_row (rebuilt t)) versioned_row (upgraded_content_row t) t.rows
        (λ r. ground (arith, old, unmeasured, c, u)))

-- The content table of a file that has one.
module _ (f : File) (v : IsFile f) (t : ContentTable) (at : f.config_content ≡ some t) where
  IsPair-at :
      let c = config_of_file f in
      IsPair c.has_content_size (config_ids c) t.has_content_size t.has_config_id (content_ids t)
  IsPair-at =
      subst
        (λ (o : Option ContentTable).
          let c = config_of_file f in
          let u = or_new new_content o in
          IsPair c.has_content_size (config_ids c) u.has_content_size u.has_config_id
            (content_ids u))
        at v.pair

  unsized : t.has_config_id ≡ false → t.has_content_size ≡ false
  unsized old = elim (Bool-cases t.has_content_size) [
    | inl sized ↦ cc (IsPair-at.sized sized)
    | inr h ↦ h
  ]

pub versions_keep :
    (f g : File)
    → IsFile f
    → column_in (λ t. t.has_config_id) f.config_content ≡ false
    → Ran version_statements f g
    → Keeps f g
unfolding upgraded
versions_keep f g v old ran =
    let (t, at, c, u, e) = versions_Ran f g ran in
    let t_old : t.has_config_id ≡ false =
      subst (λ o. column_in (λ t. t.has_config_id) o ≡ false) at old in
    let small = unsized f v t at t_old in
    rw e (
      Keeps-tables f _ v refl (ground (arith, at, rebuilt_same t t_old small c u)) (record {
        one_size = (IsPair-at f v t at).one_size ∙ ap not small;
        sized = λ h. refl;
        keyed = λ h. cc;
      }))
