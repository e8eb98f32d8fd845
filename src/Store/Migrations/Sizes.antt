-- ===== src/Store/Migrations/Sizes.antt =====
-- The transaction of migrateContentSize (internal/store/sqlite/store.go).
use configfs.Prelude.{
  ◌≡◌, refl, ap, ◌∙◌, sym, subst, true, false, List, map, Option, some, length, arith,
}
use configfs.Store.Db.{ContentRow}
use configfs.Store.Migrations.{ConfigTable, ContentTable, File, new_content}
use configfs.Store.Migrations.Opening.{
  column_in, add_content_size, measure_content, drop_config_size, size_statements,
}
use configfs.Store.Migrations.Upgrade.{IsFile, upgraded, upgraded_content, upgraded_content_row}
use configfs.Store.Migrations.Steps.{map-same}
use configfs.Store.Migrations.Keeps.{Keeps, Keeps-tables, on_config_ok, on_content_ok}
use configfs.Store.Migrations.Runs.{Ran}

abbrev pub zeroed : ContentTable → ContentTable
zeroed u = record u {
  has_content_size = true;
  rows = map (λ (r : ContentRow). record r { content_size = 0 }) u.rows;
}

abbrev pub sized_rows : ContentTable → ContentTable
sized_rows u = record u {
  rows = map (λ (r : ContentRow). record r { content_size = length r.content }) u.rows;
}

-- What the content table holds once its sizes are measured.
abbrev pub measured : ContentTable → ContentTable
measured u = sized_rows (zeroed u)

some-injective : {A : Type 0} {a b : A} → ◌≡◌ {A = Option A} (some a) (some b) → a ≡ b
some-injective e = ground arith

abbrev pub measured_file : File → ConfigTable → ContentTable → File
measured_file f t u = record f {
  config = some (record t { has_content_size = false });
  config_content = some (measured u);
}

pub sizes_Ran :
    (f g : File)
    → Ran size_statements f g
    → (t : ConfigTable) × (u : ContentTable) × (f.config ≡ some t)
      × (f.config_content ≡ some u)
      × (u.has_content_size ≡ false)
      × (g ≡ measured_file f t u)
unfolding size_statements
sizes_Ran f g (f1, e1, (f2, e2, (f3, e3, last))) =
    let (u, u1, at, p1, q1) = on_content_ok add_content_size f f1 e1 in
    let (v, v1, at2, p2, q2) = on_content_ok measure_content f1 f2 e2 in
    let (t, t1, at3, p3, q3) = on_config_ok drop_config_size f2 f3 e3 in
    let small : u.has_content_size ≡ false = ground (arith, p1) in
    let first : u1 ≡ zeroed u = ground (arith, p1) in
    let second : v1 ≡ record v {
      rows = map (λ (r : ContentRow). record r { content_size = length r.content }) v.rows;
    } =
      ground (arith, p2) in
    let third : t1 ≡ record t { has_content_size = false } = ground (arith, p3) in
    let there : v ≡ zeroed u =
      some-injective (sym at2 ∙ ap (λ (x : File). x.config_content) q1) ∙ first in
    let done : v1 ≡ measured u = second ∙ ap sized_rows there in
    let config_at : f.config ≡ some t =
      sym (ap (λ (x : File). x.config) q1) ∙ sym (ap (λ (x : File). x.config) q2) ∙ at3 in
    (
      t,
      u,
      config_at,
      at,
      small,
      last
          ∙ q3
          ∙ ap (λ (x : File). record x { config = some t1 })
              (q2 ∙ ap (λ (x : File). record x { config_content = some v1 }) q1)
          ∙ ap (λ (x : ConfigTable). record f { config = some x; config_content = some v1 }) third
          ∙ ap
              (λ (x : ContentTable). record f {
                config = some (record t { has_content_size = false });
                config_content = some x;
              })
              done,
    )

measured_same :
    (u : ContentTable)
    → u.has_content_size ≡ false
    → upgraded_content (measured u) ≡ upgraded_content u
measured_same u small =
    ap (λ (l : List ContentRow). record new_content { rows = l })
      (map-same (upgraded_content_row (measured u))
          (λ (r : ContentRow). record r { content_size = length r.content })
          (λ (r : ContentRow). upgraded_content_row u (record r { content_size = 0 }))
          (map (λ (r : ContentRow). record r { content_size = 0 }) u.rows)
          (λ r. ground (arith, small))
        ∙ map-same _ _ _ u.rows (λ r. ground (arith, small)))

pub sizes_keep :
    (f g : File)
    → IsFile f
    → column_in (λ t. t.has_config_id) f.config_content ≡ true
    → Ran size_statements f g
    → Keeps f g
unfolding upgraded
sizes_keep f g v versioned ran =
    let (t, u, at, here, small, e) = sizes_Ran f g ran in
    let u_versioned : u.has_config_id ≡ true =
      subst (λ o. column_in (λ t. t.has_config_id) o ≡ true) here versioned in
    rw e (
      Keeps-tables f _ v v.no_legacy (ground (arith, at, here, measured_same u small))
        (record { one_size = refl; sized = λ h. u_versioned; keyed = λ h. cc }))
