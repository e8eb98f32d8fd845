-- ===== src/Proto/Access.antt =====
-- The access rule of internal/proto/extra.go against a description of who is granted what.
use mathlib.Core.Logic.{◌≢◌}
use mathlib.Core.List.{cons-ne-nil}
use mathlib.Core.List
use configfs.Prelude.{
  ◌≡◌, refl, ◌↔◌, ◌⊎◌, inl, inr, true, not, ◌&&◌, List, [], ◌∷◌, ◌++◌, Memᴰ, arith, any_iff,
  Bool-cases,
}
use configfs.Strings.{Text, text_eq}
use configfs.Strings.Laws.{text_eq_refl, text_eq_iff, eq_of_text_eq}
use configfs.Proto.{
  Acl, acl_read, acl_write, ConfigAcl, acl_grants, tag_matches, entry_allows, config_allows,
  directory_allows,
}

-- A level that satisfies a request: WRITE implies READ, and nothing else is implied.
pub data Covers : Acl → Acl → Type 0 where
  read_for_read : Covers acl_read acl_read
  write_for_read : Covers acl_write acl_read
  write_for_write : Covers acl_write acl_write

-- An entry for everyone, or for a non-empty tag that the caller has.
pub Addresses : List Text → ConfigAcl → Type 0
Addresses tags e = (e.everyone ≡ true) ⊎ ((e.tag ≢ []) × Memᴰ e.tag tags)

-- Some entry covers the request and addresses the caller.
pub Granted : List Text → Acl → List ConfigAcl → Type 0
Granted tags required acls =
    (e : ConfigAcl) × Memᴰ e acls × Covers e.acl required × Addresses tags e

Covers-of_acl_grants :
    (have required : Acl) → acl_grants have required ≡ true → Covers have required
unfolding acl_grants
Covers-of_acl_grants acl_read acl_read h = Covers.read_for_read
Covers-of_acl_grants acl_write acl_read h = Covers.write_for_read
Covers-of_acl_grants acl_write acl_write h = Covers.write_for_write
Covers-of_acl_grants _ _ h = cc

acl_grants_of_Covers :
    (have required : Acl) → Covers have required → acl_grants have required ≡ true
unfolding acl_grants
acl_grants_of_Covers have required Covers.read_for_read = refl
acl_grants_of_Covers have required Covers.write_for_read = refl
acl_grants_of_Covers have required Covers.write_for_write = refl

tag_matches_sound :
    (tags : List Text) (tag : Text) → tag_matches tags tag ≡ true → (tag ≢ []) × Memᴰ tag tags
unfolding tag_matches
tag_matches_sound tags tag h =
    let (t, m, e) = (any_iff (λ provided. not (text_eq tag []) && text_eq tag provided) tags).0 h in
    (λ p. ground (arith, text_eq_iff tag []), rw (eq_of_text_eq tag t (ground arith)) m)

tag_matches_complete :
    (tags : List Text) (tag : Text) → tag ≢ [] → Memᴰ tag tags → tag_matches tags tag ≡ true
unfolding tag_matches
tag_matches_complete tags tag h m =
    (any_iff (λ provided. not (text_eq tag []) && text_eq tag provided) tags).1
      (tag, m, ground (arith, text_eq_refl tag, text_eq_iff tag []))

entry_allows_sound :
    (tags : List Text) (required : Acl) (e : ConfigAcl)
    → entry_allows tags required e ≡ true
    → Covers e.acl required × Addresses tags e
unfolding entry_allows Addresses
entry_allows_sound tags required e h = elim (Bool-cases e.everyone) [
  | inl all ↦ (Covers-of_acl_grants e.acl required (ground arith), inl all)
  | inr some_tag ↦ (
    Covers-of_acl_grants e.acl required (ground arith),
    inr (tag_matches_sound tags e.tag (ground arith)),
  )
]

entry_allows_complete :
    (tags : List Text) (required : Acl) (e : ConfigAcl)
    → Covers e.acl required
    → Addresses tags e
    → entry_allows tags required e ≡ true
unfolding entry_allows Addresses
entry_allows_complete tags required e c (inl all) =
    ground (arith, acl_grants_of_Covers e.acl required c)
entry_allows_complete tags required e c (inr (h, m)) =
    ground (arith, acl_grants_of_Covers e.acl required c, tag_matches_complete tags e.tag h m)

-- A config grants a level exactly when some entry covers the level and addresses the caller: an
-- entry for everyone, or one for a non-empty tag of the caller. So no entries grant nothing.
pub config_allows_iff :
    (tags : List Text) (required : Acl) (acls : List ConfigAcl)
    → (config_allows tags required acls ≡ true) ↔ Granted tags required acls
unfolding config_allows Granted
config_allows_iff tags required acls = (
  (λ h.
      let (e, m, p) = (any_iff (entry_allows tags required) acls).0 h in
      let (c, a) = entry_allows_sound tags required e p in (e, m, c, a)),
  (λ (e, m, c, a).
      (any_iff (entry_allows tags required) acls).1
        (e, m, entry_allows_complete tags required e c a)),
)

directory-eq-config :
    (tags : List Text) (required : Acl) (acls : List ConfigAcl)
    → acls ≢ []
    → directory_allows tags required acls ≡ config_allows tags required acls
unfolding directory_allows config_allows
directory-eq-config tags required [] h = absurd (h refl)
directory-eq-config tags required (e ∷ acls) h = refl

-- A directory grants a level exactly when it has no entries, or some entry covers the level and
-- addresses the caller.
pub directory_allows_iff :
    (tags : List Text) (required : Acl) (acls : List ConfigAcl)
    → (directory_allows tags required acls ≡ true) ↔ ((acls ≡ []) ⊎ Granted tags required acls)
directory_allows_iff tags required [] = (λ _. inl refl, λ _. unfold directory_allows in refl)
directory_allows_iff tags required (e ∷ acls) = (
  (λ h. inr (
      (config_allows_iff tags required (e ∷ acls)).0
        (rw (← directory-eq-config tags required (e ∷ acls) (cons-ne-nil e acls)) h))),
  elim [
    | inl none_at_all ↦ absurd (cons-ne-nil e acls none_at_all)
    | inr g ↦
        rw (directory-eq-config tags required (e ∷ acls) (cons-ne-nil e acls))
          ((config_allows_iff tags required (e ∷ acls)).1 g)
  ],
)

Covers-read : {have : Acl} → Covers have acl_write → Covers have acl_read
Covers-read Covers.write_for_write = Covers.write_for_read

Addresses-more :
    (tags more : List Text) (e : ConfigAcl) → Addresses tags e → Addresses (tags ++ more) e
unfolding Addresses
Addresses-more tags more e (inl all) = inl all
Addresses-more tags more e (inr (h, m)) = inr (h, List.Memᴰ.append_left more m)

Granted-mono :
    (tags more : List Text) (acls : List ConfigAcl)
    → Granted tags acl_write acls
    → Granted (tags ++ more) acl_read acls
unfolding Granted
Granted-mono tags more acls (e, m, c, a) = (e, m, Covers-read c, Addresses-more tags more e a)

-- Whoever may write a config may read it, and so with a directory; and a caller with more tags is
-- refused nothing that one with fewer tags is granted.
access_mono :
    (tags more : List Text) (acls : List ConfigAcl)
    → (config_allows tags acl_write acls ≡ true → config_allows (tags ++ more) acl_read acls ≡ true)
      × (directory_allows tags acl_write acls ≡ true
          → directory_allows (tags ++ more) acl_read acls ≡ true)
access_mono tags more acls = (
  (λ h.
      (config_allows_iff (tags ++ more) acl_read acls).1
        (Granted-mono tags more acls ((config_allows_iff tags acl_write acls).0 h))),
  (λ h.
      (directory_allows_iff (tags ++ more) acl_read acls).1
        (elim ((directory_allows_iff tags acl_write acls).0 h) [
          | inl none_at_all ↦ inl none_at_all
          | inr g ↦ inr (Granted-mono tags more acls g)
        ])),
)
