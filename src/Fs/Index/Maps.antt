-- ===== src/Fs/Index/Maps.antt =====
-- Maps keyed by texts: what their entries satisfy, and which keys they have.
use mathlib.Core.Option.{some-injective}
use configfs.Prelude.{◌≡◌, refl, subst, inl, inr, [], some, Bool-cases, Option-cases, if◌then◌else◌}
use configfs.Strings.{Text, text_eq}
use configfs.Strings.Laws.{eq_of_text_eq, text_eq_refl}
use configfs.Fs.Index.{TextMap, get_value, put_value, put_if_absent}

module _ {V : Type 0} where
  get_value_put :
      (k j : Text) (v : V) (m : TextMap V)
      → get_value k (put_value j v m) ≡ (if text_eq j k then some v else get_value k m)
  unfolding get_value
  get_value_put k j v m = refl

  -- Every entry of the map has the property.
  abbrev pub Entries : (Text → V → Type 0) → TextMap V → Type 0
  Entries P m = (k : Text) (v : V) → get_value k m ≡ some v → P k v

  pub Entries-put :
      (P : Text → V → Type 0) (k : Text) (v : V) (m : TextMap V)
      → P k v
      → Entries P m
      → Entries P (put_value k v m)
  unfolding get_value
  Entries-put P k v m p h j w e = elim (Bool-cases (text_eq k j)) [
    | inl same ↦
        subst (λ i. P i w) (eq_of_text_eq k j same)
          (subst (P k) (some-injective _ _ (rw same at e)) p)
    | inr other ↦ h j w (rw other at e)
  ]

  pub Entries-put_if_absent :
      (P : Text → V → Type 0) (k : Text) (v : V) (m : TextMap V)
      → P k v
      → Entries P m
      → Entries P (put_if_absent k v m)
  unfolding put_if_absent
  Entries-put_if_absent P k v m p h = elim (Option-cases (get_value k m)) [
    | inl absent ↦ rw (absent, put_if_absent) (Entries-put P k v m p h)
    | inr (w, there) ↦ rw (there, put_if_absent) h
  ]

  pub Entries-nil : (P : Text → V → Type 0) → Entries P []
  unfolding get_value
  Entries-nil P k v e = cc

module _ {V : Type 0} where
  -- The key has an entry.
  abbrev pub Has : Text → TextMap V → Type 0
  Has k m = (v : V) × (get_value k m ≡ some v)

  pub Has-put_self : (k : Text) (v : V) (m : TextMap V) → Has k (put_value k v m)
  unfolding get_value
  Has-put_self k v m = (v, rw (text_eq_refl k) refl)

  pub Has-put : (k j : Text) (v : V) (m : TextMap V) → Has k m → Has k (put_value j v m)
  unfolding get_value
  Has-put k j v m (w, e) = elim (Bool-cases (text_eq j k)) [
    | inl same ↦ (v, rw same refl)
    | inr other ↦ (w, rw other e)
  ]

  pub Has-put_if_absent_self : (k : Text) (v : V) (m : TextMap V) → Has k (put_if_absent k v m)
  unfolding put_if_absent
  Has-put_if_absent_self k v m = elim (Option-cases (get_value k m)) [
    | inl absent ↦ rw (absent, put_if_absent) (Has-put_self k v m)
    | inr (w, there) ↦ rw (there, put_if_absent) (w, there)
  ]

  pub Has-put_if_absent :
      (k j : Text) (v : V) (m : TextMap V) → Has k m → Has k (put_if_absent j v m)
  unfolding put_if_absent
  Has-put_if_absent k j v m h = elim (Option-cases (get_value j m)) [
    | inl absent ↦ rw (absent, put_if_absent) (Has-put k j v m h)
    | inr (w, there) ↦ rw (there, put_if_absent) h
  ]
