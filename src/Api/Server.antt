-- ===== src/Api/Server.antt =====
-- The server of internal/api/server.go, its allow-list, and where a caller's tags come from.
use configfs.Prelude.{
  Bool, true, not, List, [], ◌∷◌, ◌++◌, map, Option, none, some, if◌then◌else◌, any, keep,
}
use configfs.Strings.{Text, codes, text_eq, contains, trim_space}
use configfs.Exec.{Result, ok, err, Exec}
use configfs.Store.Db.{World, Error, Op, panicked}

-- grpc codes; `crashed` stands for a panic that leaves the handler
pub data Code : Type 0 where
  invalid_argument not_found already_exists permission_denied failed_precondition : Code
  internal unauthenticated data_loss crashed : Code

abbrev pub Handler : Type 0 → Type 0
Handler A = Exec World Code A

pub record Server : Type 0 where
  pub create_allowed_tags : List Text

-- NewServer
unfoldable pub new_server : List Text → Server
unfolding trim_space keep text_eq
new_server tags = record {
  create_allowed_tags = keep (λ t. not (text_eq t [])) (map trim_space tags);
}

-- canCreate
unfoldable pub can_create : Server → List Text → Bool
unfolding any contains
can_create s identities = elim s.create_allowed_tags [
  | [] ↦ true
  | t ∷ ts ↦ any (contains (t ∷ ts)) identities
]

-- The code that a handler gives to an error of the store, unless it looks into it.
abbrev pub internal_code : Error → Code
internal_code panicked = crashed
internal_code _ = internal

module _ {A : Type 0} where
  -- A call of the store, its errors turned into codes.
  unfoldable pub call : (Error → Code) → Op A → Handler A
  call code m w = let (r, w') = m w in (elim r [ ok a ↦ ok a | err e ↦ err (code e) ], w')

-- WhoIsResponse: the node's tags, where there is a node, and the login name, where there is a
-- user profile
pub record WhoIs : Type 0 where
  pub node_tags : Option (List Text)
  pub login_name : Option Text

unfoldable pub user_identity : Option Text → List Text
user_identity none = []
user_identity (some login) = if text_eq login [] then [] else (codes "user:" ++ login) ∷ []

unfoldable pub identities_of : Option (List Text) → Option Text → List Text
identities_of (some (tag ∷ tags)) login = tag ∷ tags
identities_of _ login = user_identity login

-- identitiesFromWhoIs
unfoldable pub identities_from_who_is : Option WhoIs → List Text
unfolding identities_of user_identity text_eq
identities_from_who_is none = []
identities_from_who_is (some resp) = identities_of resp.node_tags resp.login_name

-- Request metadata: each key with its values.
abbrev pub Metadata : Type 0
Metadata = List (Text × List Text)

abbrev pub acl_tags_key : Text
acl_tags_key = codes "acl_tags"

-- delete(md, key)
unfoldable pub delete_key : Text → Metadata → Metadata
unfolding text_eq
delete_key k [] = []
delete_key k ((j, v) ∷ md) =
    let rest = delete_key k md in if text_eq j k then rest else (j, v) ∷ rest

-- md[key] = values
unfoldable pub assign_key : Text → List Text → Metadata → Metadata
unfolding delete_key
assign_key k values md = (k, values) ∷ delete_key k md

-- the values of a key, none where it is absent
unfoldable pub values_of : Text → Metadata → List Text
unfolding text_eq
values_of k [] = []
values_of k ((j, v) ∷ md) = if text_eq j k then v else values_of k md

-- aclTags; a context without metadata has no tags
unfoldable pub acl_tags : Option Metadata → List Text
unfolding values_of
acl_tags none = []
acl_tags (some md) = values_of acl_tags_key md

-- TailscaleAuthenticationInterceptor: the metadata that the handler sees, from the peer's address,
-- what WhoIs says of it (`none` for an error) and the metadata of the request
unfoldable pub authenticate :
    {Addr : Type 0}
    → (Addr → Option (Option WhoIs))
    → Option Addr
    → Option Metadata
    → Result Code (Option Metadata)
unfolding assign_key identities_from_who_is
authenticate who_is none md = err unauthenticated
authenticate who_is (some addr) md = elim (who_is addr) [
  | none ↦ err unauthenticated
  | some resp ↦ elim md [
    | none ↦ err data_loss
    | some given ↦ ok (some (assign_key acl_tags_key (identities_from_who_is resp) given))
  ]
]

-- StripACLTagsInterceptor
unfoldable pub strip_acl_tags : Option Metadata → Option Metadata
unfolding delete_key
strip_acl_tags none = none
strip_acl_tags (some md) = some (delete_key acl_tags_key md)
