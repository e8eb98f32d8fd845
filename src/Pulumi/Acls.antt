-- ===== src/Pulumi/Acls.antt =====
-- Access lists of the Pulumi provider, and their conversion to and from the messages
-- (cmd/pulumi/main.go).
pub mod Laws
use configfs.Prelude.{
  ℕ, ◌-◌, ◌==◌, leb, Bool, true, false, not, ◌&&◌, ◌||◌, List, [], ◌∷◌, map, any, if◌then◌else◌,
}
use configfs.Strings.{Text, codes, text_eq, trim_space}
use configfs.Proto.{Acl, unknown_acl, acl_read, acl_write, out_of_range, ConfigAcl}

-- ConfigAcl of the provider
pub record AclEntry : Type 0 where
  pub acl : Text
  pub tag : Text
  pub everyone : Bool

-- unicode.ToUpper where the result is in ASCII: the small letters, and the dotless i and the long
-- s. Every other code point is left as it is: its capital is none of the letters that the names of
-- levels have.
unfoldable pub to_upper_code : ℕ → ℕ
to_upper_code c =
    if leb 0x61 c && leb c 0x7A
    then c - 32
    else if c == 0x131
    then 0x49
    else if c == 0x17F
    then 0x53
    else c

-- strings.ToUpper, up to the code points above
unfoldable pub to_upper : Text → Text
to_upper s = map to_upper_code s

-- Acl_value
unfoldable pub acl_value : Text → Acl
acl_value s =
    if text_eq s (codes "READ")
    then acl_read
    else if text_eq s (codes "WRITE")
    then acl_write
    else unknown_acl

-- Acl_name
unfoldable pub acl_name : Acl → Text
acl_name unknown_acl = codes "UNKNOWN_ACL"
acl_name acl_read = codes "READ"
acl_name acl_write = codes "WRITE"
acl_name (out_of_range n) = []

-- aclLevel
unfoldable pub acl_level : Text → Acl
acl_level s = acl_value (to_upper (trim_space s))

unfoldable pub acl_eq : Acl → Acl → Bool
acl_eq unknown_acl unknown_acl = true
acl_eq acl_read acl_read = true
acl_eq acl_write acl_write = true
acl_eq (out_of_range m) (out_of_range n) = m == n
acl_eq _ _ = false

unfoldable pub bool_eq : Bool → Bool → Bool
bool_eq true b = b
bool_eq false b = not b

-- aclsToProto
unfoldable pub acl_to_proto : AclEntry → ConfigAcl
acl_to_proto a = record { acl = acl_level a.acl; tag = a.tag; everyone = a.everyone }

abbrev pub acls_to_proto : List AclEntry → List ConfigAcl
acls_to_proto acls = map acl_to_proto acls

-- aclsFromProto
unfoldable pub acl_from_proto : ConfigAcl → AclEntry
acl_from_proto a = record { acl = acl_name a.acl; tag = a.tag; everyone = a.everyone }

abbrev pub acls_from_proto : List ConfigAcl → List AclEntry
acls_from_proto acls = map acl_from_proto acls

-- aclsEqual
unfoldable pub acls_equal : List AclEntry → List AclEntry → Bool
acls_equal [] [] = true
acls_equal (a ∷ xs) (b ∷ ys) =
    let rest = acls_equal xs ys in
    if not (acl_eq (acl_level a.acl) (acl_level b.acl))
      || not (text_eq a.tag b.tag)
      || not (bool_eq a.everyone b.everyone)
    then false
    else rest
acls_equal _ _ = false

-- validateACLs, whether it accepts
unfoldable pub validate_acls : List AclEntry → Bool
validate_acls [] = true
validate_acls (a ∷ xs) =
    let rest = validate_acls xs in if acl_eq (acl_level a.acl) unknown_acl then false else rest
