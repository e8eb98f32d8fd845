-- ===== src/Command.antt =====
-- The flags that cmd/fs/main.go and cmd/server/main.go parse themselves: lists of access entries and
-- of tags.
pub mod Laws
use configfs.Prelude.{
  ℕ, Bool, true, false, not, ◌&&◌, List, [], ◌∷◌, ◌++◌, map, keep, Option, none, some,
  if◌then◌else◌,
}
use configfs.Strings.{Text, codes, text_eq, split, trim_space}
use configfs.Proto.{Acl, unknown_acl, acl_read, acl_write, ConfigAcl}
use configfs.Api.Server.{Server, new_server}

abbrev pub comma : ℕ
comma = 0x2C

abbrev pub at_sign : ℕ
at_sign = 0x40

abbrev pub level_of : Text → Acl
level_of s =
    if text_eq s (codes "WRITE")
    then acl_write
    else if text_eq s (codes "READ")
    then acl_read
    else unknown_acl

-- the entry of a part with these two components
unfoldable pub acl_of_components : Text → Text → Option ConfigAcl
acl_of_components name level =
    if not (text_eq level (codes "READ")) && not (text_eq level (codes "WRITE"))
    then none
    else some (
        if text_eq name (codes "everyone")
        then record { acl = level_of level; tag = []; everyone = true }
        else record { acl = level_of level; tag = name; everyone = false })

-- the components of a part
unfoldable pub acl_of_parts : List Text → Option ConfigAcl
acl_of_parts (name ∷ level ∷ []) = acl_of_components name level
acl_of_parts _ = none

abbrev pub add_some : Option ConfigAcl → List ConfigAcl → List ConfigAcl
add_some none acls = acls
add_some (some a) acls = a ∷ acls

-- the loop over aclParts
unfoldable pub acls_of_flag_parts : List Text → List ConfigAcl
acls_of_flag_parts [] = []
acls_of_flag_parts (part ∷ parts) =
    let rest = acls_of_flag_parts parts in
    if text_eq part [] then rest else add_some (acl_of_parts (split at_sign part)) rest

-- AdditionalACLOnCreate, from --additional_acl_on_create
unfoldable pub additional_acls : Text → List ConfigAcl
additional_acls flag = acls_of_flag_parts (split comma flag)

-- AdvertiseTags, from --tailscale_tags
unfoldable pub advertise_tags : Text → List Text
advertise_tags flag = keep (λ t. not (text_eq t [])) (map trim_space (split comma flag))

-- the server that cmd/server/main.go makes of --create_allowed_tags
unfoldable pub server_of_flag : Text → Server
server_of_flag flag = new_server (split comma flag)
