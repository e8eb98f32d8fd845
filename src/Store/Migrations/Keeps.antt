-- ===== src/Store/Migrations/Keeps.antt =====
-- Single statements on a file of any version (internal/store/sqlite/store.go): it stays one, and
-- comes to the same tables in the end.
use configfs.Prelude.{◌≡◌, refl, ◌∙◌, subst, Option, none, some, arith, All}
use configfs.Exec.{Result, ok, err}
use configfs.Store.Migrations.{
  add_config_created_at, add_config_updated_at, add_content_created_at, add_content_updated_at,
  add_current_content_id, fill_current_content_id, ConfigTable, ContentTable, File, Failure,
  Statement, or_new, new_config, new_content, no_change, with_config, with_content, on_config_table,
  on_content_table, on_config, on_content, schema, migrations,
}
use configfs.Store.Migrations.Upgrade.{
  config_of_file, content_of_file, upgraded, config_ids, content_ids, IsPair, IsFile,
}
use configfs.Store.Migrations.Steps.{
  IsSameConfig, IsSameContent, IsConfigStep, IsContentStep, created_at-IsConfigStep,
  updated_at-IsConfigStep, current-IsConfigStep, fill-IsConfigStep, created_at-IsContentStep,
  updated_at-IsContentStep,
}

pub record Keeps (f f' : File) : Type 0 where
  pub valid : IsFile f'
  pub same : upgraded f' ≡ upgraded f

pub Keeps-refl : {f : File} → IsFile f → Keeps f f
Keeps-refl v = record { valid = v; same = refl }

pub Keeps-trans : {f g h : File} → Keeps f g → Keeps g h → Keeps f h
Keeps-trans p q = record { valid = q.valid; same = q.same ∙ p.same }

abbrev pub IsKept : Statement → Type 0
IsKept s = (f f' : File) → IsFile f → s f ≡ ok f' → Keeps f f'

-- A change of the two tables that are rewritten.
pub Keeps-tables :
    (f f' : File)
    → IsFile f
    → f'.config_content_legacy ≡ none
    → upgraded f' ≡ upgraded f
    → let t = config_of_file f' in
      let u = content_of_file f' in
      IsPair t.has_content_size (config_ids t) u.has_content_size u.has_config_id (content_ids u)
      → Keeps f f'
Keeps-tables f f' v legacy e p = record {
  valid = record { no_legacy = legacy; pair = p };
  same = e;
}

config-Keeps :
    (f : File) (t t' : ConfigTable)
    → IsFile f
    → f.config ≡ some t
    → IsSameConfig t t'
    → Keeps f (record f { config = some t' })
unfolding upgraded
config-Keeps f t t' v at s = Keeps-tables f _ v v.no_legacy (ground (arith, at, s.comes_to)) (
    rw (s.size, s.ids)
      (subst
        (λ (o : Option ConfigTable).
          let x = or_new new_config o in
          let u = content_of_file f in
          IsPair x.has_content_size (config_ids x) u.has_content_size u.has_config_id
            (content_ids u))
        at v.pair))

content-Keeps :
    (f : File) (t t' : ContentTable)
    → IsFile f
    → f.config_content ≡ some t
    → IsSameContent t t'
    → Keeps f (record f { config_content = some t' })
unfolding upgraded
content-Keeps f t t' v at s = Keeps-tables f _ v v.no_legacy (ground (arith, at, s.comes_to)) (
    rw (s.size, s.versioned, s.ids)
      (subst
        (λ (o : Option ContentTable).
          let x = config_of_file f in
          let u = or_new new_content o in
          IsPair x.has_content_size (config_ids x) u.has_content_size u.has_config_id
            (content_ids u))
        at v.pair))

config_table_ok :
    (g : ConfigTable → Result Failure ConfigTable) (o : Option ConfigTable) (f f' : File)
    → on_config_table g o f ≡ ok f'
    → (t : ConfigTable) × (t' : ConfigTable) × (o ≡ some t)
      × (g t ≡ ok t')
      × (f' ≡ record f { config = some t' })
config_table_ok g none f f' e = cc
config_table_ok g (some t) f f' e = with_ok (g t) refl e
  where
    with_ok :
        (r : Result Failure ConfigTable)
        → g t ≡ r
        → with_config r f ≡ ok f'
        → (u : ConfigTable) × (t' : ConfigTable) × (some t ≡ some u)
          × (g u ≡ ok t')
          × (f' ≡ record f { config = some t' })
    with_ok (ok t') p h = (t, t', refl, p, ground (arith, h))
    with_ok (err x) p h = cc

content_table_ok :
    (g : ContentTable → Result Failure ContentTable) (o : Option ContentTable) (f f' : File)
    → on_content_table g o f ≡ ok f'
    → (t : ContentTable) × (t' : ContentTable) × (o ≡ some t)
      × (g t ≡ ok t')
      × (f' ≡ record f { config_content = some t' })
content_table_ok g none f f' e = cc
content_table_ok g (some t) f f' e = with_ok (g t) refl e
  where
    with_ok :
        (r : Result Failure ContentTable)
        → g t ≡ r
        → with_content r f ≡ ok f'
        → (u : ContentTable) × (t' : ContentTable) × (some t ≡ some u)
          × (g u ≡ ok t')
          × (f' ≡ record f { config_content = some t' })
    with_ok (ok t') p h = (t, t', refl, p, ground (arith, h))
    with_ok (err x) p h = cc

pub on_config_ok :
    (g : ConfigTable → Result Failure ConfigTable) (f f' : File)
    → on_config g f ≡ ok f'
    → (t : ConfigTable) × (t' : ConfigTable) × (f.config ≡ some t)
      × (g t ≡ ok t')
      × (f' ≡ record f { config = some t' })
unfolding on_config
on_config_ok g f f' e = config_table_ok g f.config f f' e

pub on_content_ok :
    (g : ContentTable → Result Failure ContentTable) (f f' : File)
    → on_content g f ≡ ok f'
    → (t : ContentTable) × (t' : ContentTable) × (f.config_content ≡ some t)
      × (g t ≡ ok t')
      × (f' ≡ record f { config_content = some t' })
unfolding on_content
on_content_ok g f f' e = content_table_ok g f.config_content f f' e

pub on_config-IsKept :
    (g : ConfigTable → Result Failure ConfigTable) → IsConfigStep g → IsKept (on_config g)
on_config-IsKept g step f f' v e =
    let (t, t', at, p, q) = on_config_ok g f f' e in rw q (config-Keeps f t t' v at (step t t' p))

pub on_content-IsKept :
    (g : ContentTable → Result Failure ContentTable) → IsContentStep g → IsKept (on_content g)
on_content-IsKept g step f f' v e =
    let (t, t', at, p, q) = on_content_ok g f f' e in rw q (content-Keeps f t t' v at (step t t' p))

pub migrations-IsKept : All IsKept migrations
unfolding migrations
migrations-IsKept = (
  on_config-IsKept add_config_created_at created_at-IsConfigStep,
  (
    on_config-IsKept add_config_updated_at updated_at-IsConfigStep,
    (
      on_content-IsKept add_content_created_at created_at-IsContentStep,
      (
        on_content-IsKept add_content_updated_at updated_at-IsContentStep,
        (
          on_config-IsKept add_current_content_id current-IsConfigStep,
          (on_config-IsKept fill_current_content_id fill-IsConfigStep, tt),
        ),
      ),
    ),
  ),
)

no_change-IsKept : IsKept no_change
no_change-IsKept f f' v e =
    let same : f ≡ f' = ground (arith, e) in subst (Keeps f) same (Keeps-refl v)

-- A missing table comes to an empty one, which is what CREATE TABLE makes.
pub schema-IsKept : All IsKept schema
unfolding schema upgraded
schema-IsKept = (
  no_change-IsKept,
  (
    (λ f f' v e. kept f f' _ v e v.no_legacy refl v.pair),
    (
      (λ f f' v e. kept f f' _ v e v.no_legacy refl v.pair),
      (
        (λ f f' v e. kept f f' _ v e v.no_legacy refl v.pair),
        (
          (λ f f' v e. kept f f' _ v e v.no_legacy refl v.pair),
          (
            (λ f f' v e. kept f f' _ v e v.no_legacy refl v.pair),
            (
              no_change-IsKept,
              ((λ f f' v e. kept f f' _ v e v.no_legacy refl v.pair), (no_change-IsKept, tt)),
            ),
          ),
        ),
      ),
    ),
  ),
)
  where
    kept :
        (f f' g : File)
        → IsFile f
        → ◌≡◌ {A = Result Failure File} (ok g) (ok f')
        → g.config_content_legacy ≡ none
        → upgraded g ≡ upgraded f
        → let t = config_of_file g in
          let u = content_of_file g in
          IsPair t.has_content_size
            (config_ids t)
            u.has_content_size
            u.has_config_id
            (content_ids u)
          → Keeps f f'
    kept f f' g v e legacy same p =
        let here : g ≡ f' = ground (arith, e) in
        subst (Keeps f) here (Keeps-tables f g v legacy same p)
