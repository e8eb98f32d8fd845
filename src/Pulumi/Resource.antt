-- ===== src/Pulumi/Resource.antt =====
-- What the two resources of cmd/pulumi/main.go share: their errors, the client of the configured
-- provider, and the differences they report.
use configfs.Prelude.{Bool, true, false, List, [], ◌∷◌, Option, none, some, if◌then◌else◌}
use configfs.Strings.{Text, codes}
use configfs.Exec.{Result, ok, err, Exec, pure, raise}
use configfs.Api.Server.{Code, not_found}
use configfs.Client.{Client}
use configfs.Fs.Index.{TextMap, get_value, put_value}

pub data ProviderError : Type 0 where
  invalid_acl_level : ProviderError
  not_configured : ProviderError
  refused : Code → ProviderError

-- p.Update and p.UpdateReplace
pub data DiffKind : Type 0 where
  update update_replace : DiffKind

-- The properties that differ, in the order in which they are compared
abbrev pub DetailedDiff : Type 0
DetailedDiff = List (Text × DiffKind)

-- HasChanges
unfoldable pub has_changes : DetailedDiff → Bool
has_changes [] = false
has_changes (d ∷ ds) = true

abbrev pub difference : Bool → Text → DiffKind → DetailedDiff
difference b property kind = if b then (property, kind) ∷ [] else []

-- Check: the inputs, with the resource's name where they have none
unfoldable pub with_name : {V : Type 0} → V → TextMap V → TextMap V
with_name name inputs = elim (get_value (codes "name") inputs) [
  | some _ ↦ inputs
  | none ↦ put_value (codes "name") name inputs
]

module _ {A : Type 0} where
  abbrev pub refused_unless : Result Code A → Result ProviderError A
  refused_unless (ok a) = ok a
  refused_unless (err e) = err (refused e)

  abbrev pub none_if_missing : Result Code A → Result ProviderError (Option A)
  none_if_missing (ok a) = ok (some a)
  none_if_missing (err not_found) = ok none
  none_if_missing (err e) = err (refused e)

module _ {R : Type 0} where
  -- configClient
  unfoldable pub config_client : Option (Client R) → Exec R ProviderError (Client R)
  config_client none = raise not_configured
  config_client (some c) = pure c

  module _ {A : Type 0} where
    -- a call whose error is wrapped
    unfoldable pub wrapped : Exec R Code A → Exec R ProviderError A
    wrapped m s = let (r, s') = m s in (refused_unless r, s')

    -- a call that may find nothing, which is no error
    unfoldable pub unless_missing : Exec R Code A → Exec R ProviderError (Option A)
    unless_missing m s = let (r, s') = m s in (none_if_missing r, s')
