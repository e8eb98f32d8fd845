-- ===== src/Api/Handlers/Requests.antt =====
-- Which interceptor stands before the handlers (newGRPCServer of cmd/server/main.go), and what it
-- lets a client say of its own identity.
use configfs.Prelude.{
  ◌≡◌, refl, ◌⊎◌, inl, inr, Bool, true, false, List, [], ◌∷◌, Option, none, some, arith, Bool-cases,
}
use configfs.Strings.{Text, text_eq}
use configfs.Strings.Laws.{text_eq_refl}
use configfs.Exec.{Result, ok, err}
use configfs.Api.Server.{
  Code, Metadata, WhoIs, acl_tags_key, delete_key, assign_key, values_of, acl_tags,
  identities_from_who_is, authenticate, strip_acl_tags,
}

-- The authenticator of `localClient` unless --kernel_networking is set.
unfoldable pub intercept :
    {Addr : Type 0}
    → Bool
    → (Addr → Option (Option WhoIs))
    → Option Addr
    → Option Metadata
    → Result Code (Option Metadata)
unfolding authenticate strip_acl_tags
intercept false who_is peer md = authenticate who_is peer md
intercept true who_is peer md = ok (strip_acl_tags md)

values_of-delete_key : (k : Text) (md : Metadata) → values_of k (delete_key k md) ≡ []
unfolding delete_key values_of
values_of-delete_key k [] = refl
values_of-delete_key k ((j, v) ∷ md) = elim (Bool-cases (text_eq j k)) [
  | inl same ↦ rw same (values_of-delete_key k md)
  | inr other ↦ rw (other, values_of, other) (values_of-delete_key k md)
]

acl_tags-strip : (md : Option Metadata) → acl_tags (strip_acl_tags md) ≡ []
unfolding acl_tags strip_acl_tags
acl_tags-strip none = refl
acl_tags-strip (some md) = values_of-delete_key acl_tags_key md

values_of-assign_key :
    (k : Text) (values : List Text) (md : Metadata) → values_of k (assign_key k values md) ≡ values
unfolding assign_key values_of
values_of-assign_key k values md = rw (text_eq_refl k) refl

acl_tags-assign :
    (values : List Text) (md : Metadata)
    → acl_tags (some (assign_key acl_tags_key values md)) ≡ values
unfolding acl_tags
acl_tags-assign values md = values_of-assign_key acl_tags_key values md

unwrapped : {a b : Option Metadata} → ◌≡◌ {A = Result Code (Option Metadata)} (ok a) (ok b) → a ≡ b
unwrapped e = ground arith

module _ {Addr : Type 0} (who_is : Addr → Option (Option WhoIs)) where
  -- The tags are those that WhoIs gives for the peer's address.
  pub IsPeers : Option Addr → List Text → Type 0
  IsPeers peer tags =
      (addr : Addr) × (resp : Option WhoIs) × (peer ≡ some addr)
      × (who_is addr ≡ some resp)
      × (tags ≡ identities_from_who_is resp)

  authenticate_sound :
      (peer : Option Addr) (md seen : Option Metadata)
      → authenticate who_is peer md ≡ ok seen
      → IsPeers peer (acl_tags seen)
  unfolding authenticate IsPeers
  authenticate_sound none md seen h = cc
  authenticate_sound (some addr) md seen h = identified (who_is addr) md refl h
    where
      identified :
          (o : Option (Option WhoIs)) (md : Option Metadata)
          → who_is addr ≡ o
          → ◌≡◌ {A = Result Code (Option Metadata)}
              (elim o [
                | none ↦ err Code.unauthenticated
                | some resp ↦ elim md [
                  | none ↦ err Code.data_loss
                  | some given ↦
                      ok (some (assign_key acl_tags_key (identities_from_who_is resp) given))
                ]
              ])
              (ok seen)
          → IsPeers (some addr) (acl_tags seen)
      identified none md e h = cc
      identified (some resp) none e h = cc
      identified (some resp) (some given) e h = (
        addr,
        resp,
        refl,
        e,
        rw (← unwrapped h) (acl_tags-assign (identities_from_who_is resp) given),
      )

  -- Where a request reaches a handler, the tags that the handler sees are none, under
  -- --kernel_networking, or exactly the identities that WhoIs gives for the peer's address, whatever
  -- the client sent as acl_tags.
  pub intercept_sound :
      (kernel_networking : Bool) (peer : Option Addr) (md seen : Option Metadata)
      → intercept kernel_networking who_is peer md ≡ ok seen
      → ((kernel_networking ≡ true) × (acl_tags seen ≡ [])) ⊎ IsPeers peer (acl_tags seen)
  unfolding intercept
  intercept_sound false peer md seen h = inr (authenticate_sound peer md seen h)
  intercept_sound true peer md seen h = inl (refl, rw (← unwrapped h) (acl_tags-strip md))
