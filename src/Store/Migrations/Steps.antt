-- ===== src/Store/Migrations/Steps.antt =====
-- One statement of `migrations` or `schema` (internal/store/sqlite/store.go): what the file comes to
-- in the end stays the same.
use mathlib.Core.List
use mathlib.Core.Path.{fun_ext}
use configfs.Prelude.{ℤ, ◌≡◌, refl, ap, ◌∙◌, List, map, Option, none, some, arith}
use configfs.Exec.{Result, ok}
use configfs.Store.Db.{ConfigRow, ContentRow}
use configfs.Store.Migrations.{
  ConfigTable, ContentTable, Failure, new_config, new_content, or_own_id, add_config_created_at,
  add_config_updated_at, add_content_created_at, add_content_updated_at, add_current_content_id,
  fill_current_content_id,
}
use configfs.Store.Migrations.Upgrade.{
  upgraded_config_row, upgraded_config, upgraded_content_row, upgraded_content, config_ids,
  content_ids,
}

-- The two tables come to the same, and keep what makes a file one.
pub record IsSameConfig (t t' : ConfigTable) : Type 0 where
  pub comes_to : upgraded_config t' ≡ upgraded_config t
  pub size : t'.has_content_size ≡ t.has_content_size
  pub ids : config_ids t' ≡ config_ids t

pub map-same :
    {A B : Type 0} (f : A → B) (g : A → A) (k : A → B) (xs : List A)
    → ((x : A) → f (g x) ≡ k x)
    → map f (map g xs) ≡ map k xs
map-same f g k xs h = List.map-map f g xs ∙ ap (λ m. map m xs) (fun_ext h)

config-IsSame :
    (t t' : ConfigTable) (g : ConfigRow → ConfigRow)
    → t'.rows ≡ map g t.rows
    → t'.has_content_size ≡ t.has_content_size
    → ((r : ConfigRow) → upgraded_config_row t' (g r) ≡ upgraded_config_row t r)
    → ((r : ConfigRow) → (g r).id ≡ r.id)
    → IsSameConfig t t'
config-IsSame t t' g rows size h i = record {
  comes_to =
      ap (λ (l : List ConfigRow). record new_config { rows = l })
        (ap (map (upgraded_config_row t')) rows ∙ map-same _ _ _ t.rows h);
  size = size;
  ids = ap (map (λ (r : ConfigRow). r.id)) rows ∙ map-same _ _ _ t.rows i;
}

abbrev pub IsConfigStep : (ConfigTable → Result Failure ConfigTable) → Type 0
IsConfigStep g = (t t' : ConfigTable) → g t ≡ ok t' → IsSameConfig t t'

pub created_at-IsConfigStep : IsConfigStep add_config_created_at
created_at-IsConfigStep t t' e =
    config-IsSame t t' (λ (r : ConfigRow). record r { created_at = 0 }) (ground (arith, e))
      (ground (arith, e)) (λ r. ground (arith, e)) (λ r. refl)

pub updated_at-IsConfigStep : IsConfigStep add_config_updated_at
updated_at-IsConfigStep t t' e =
    config-IsSame t t' (λ (r : ConfigRow). record r { updated_at = 0 }) (ground (arith, e))
      (ground (arith, e)) (λ r. ground (arith, e)) (λ r. refl)

pub current-IsConfigStep : IsConfigStep add_current_content_id
current-IsConfigStep t t' e =
    config-IsSame t t' (λ (r : ConfigRow). record r { current_content_id = none })
      (ground (arith, e)) (ground (arith, e)) (λ r. ground (arith, e)) (λ r. refl)

pub or_own_id-twice : (n : ℤ) (o : Option ℤ) → or_own_id n (or_own_id n o) ≡ or_own_id n o
or_own_id-twice n none = refl
or_own_id-twice n (some v) = refl

pub fill-IsConfigStep : IsConfigStep fill_current_content_id
fill-IsConfigStep t t' e =
    config-IsSame t t'
      (λ (r : ConfigRow). record r { current_content_id = or_own_id r.id r.current_content_id })
      (ground (arith, e)) (ground (arith, e))
      (λ r. ground (arith, e, or_own_id-twice r.id r.current_content_id)) (λ r. refl)

pub record IsSameContent (t t' : ContentTable) : Type 0 where
  pub comes_to : upgraded_content t' ≡ upgraded_content t
  pub size : t'.has_content_size ≡ t.has_content_size
  pub versioned : t'.has_config_id ≡ t.has_config_id
  pub ids : content_ids t' ≡ content_ids t

content-IsSame :
    (t t' : ContentTable) (g : ContentRow → ContentRow)
    → t'.rows ≡ map g t.rows
    → t'.has_content_size ≡ t.has_content_size
    → t'.has_config_id ≡ t.has_config_id
    → ((r : ContentRow) → upgraded_content_row t' (g r) ≡ upgraded_content_row t r)
    → ((r : ContentRow) → (g r).id ≡ r.id)
    → IsSameContent t t'
content-IsSame t t' g rows size versioned h i = record {
  comes_to =
      ap (λ (l : List ContentRow). record new_content { rows = l })
        (ap (map (upgraded_content_row t')) rows ∙ map-same _ _ _ t.rows h);
  size = size;
  versioned = versioned;
  ids = ap (map (λ (r : ContentRow). r.id)) rows ∙ map-same _ _ _ t.rows i;
}

abbrev pub IsContentStep : (ContentTable → Result Failure ContentTable) → Type 0
IsContentStep g = (t t' : ContentTable) → g t ≡ ok t' → IsSameContent t t'

pub created_at-IsContentStep : IsContentStep add_content_created_at
created_at-IsContentStep t t' e =
    content-IsSame t t' (λ (r : ContentRow). record r { created_at = 0 }) (ground (arith, e))
      (ground (arith, e)) (ground (arith, e)) (λ r. ground (arith, e)) (λ r. refl)

pub updated_at-IsContentStep : IsContentStep add_content_updated_at
updated_at-IsContentStep t t' e =
    content-IsSame t t' (λ (r : ContentRow). record r { updated_at = 0 }) (ground (arith, e))
      (ground (arith, e)) (ground (arith, e)) (λ r. ground (arith, e)) (λ r. refl)
