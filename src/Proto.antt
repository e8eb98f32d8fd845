-- ===== src/Proto.antt =====
-- internal/proto/extra.go, and the messages of proto/configfs.proto that it works on: access
-- levels, ACL entries, configs, directories, their full paths and the access rule.
pub mod Access
use configfs.Prelude.{
  ℕ, Bool, true, false, ◌&&◌, ◌||◌, not, List, [], ◌∷◌, ◌++◌, Option, none, some, if◌then◌else◌,
  any,
}
use configfs.Strings.{Text, text_eq, root, slash, join}
use configfs.Strings.Decimal.{parse_uint}

-- proto3 enums are open: a message may carry any number.
pub data Acl : Type 0 where
  unknown_acl : Acl
  acl_read : Acl
  acl_write : Acl
  out_of_range : ℕ → Acl

pub record ConfigAcl : Type 0 where
  pub acl : Acl
  pub tag : Text
  pub everyone : Bool

-- An unset timestamp is `none`.
pub record Config : Type 0 where
  pub id : Text
  pub name : Text
  pub content : Option (List ℕ)
  pub content_size : ℕ
  pub path : Text
  pub acls : List ConfigAcl
  pub created_at : Option ℕ
  pub updated_at : Option ℕ
  pub current_content_id : Text

-- A directory without its children.
pub record Directory : Type 0 where
  pub id : Text
  pub name : Text
  pub path : Text
  pub acls : List ConfigAcl

-- A directory with its child directories and its configs.
mutual
  pub data Tree : Type 0 where
    node : Directory → Trees → List Config → Tree

  pub data Trees : Type 0 where
    no_trees : Trees
    tree_cons : Tree → Trees → Trees

-- Directory.FullPath and the parts that it is made of
unfoldable pub full_path_of : Text → Text → Text
unfolding text_eq
full_path_of path name =
    if text_eq path []
    then root
    else if text_eq path root
    then slash ∷ name
    else join (path ∷ name ∷ [])

unfoldable pub full_path : Directory → Text
unfolding full_path_of
full_path d = full_path_of d.path d.name

-- Config.FullPath
unfoldable pub config_full_path : Config → Text
config_full_path c = join (c.path ∷ c.name ∷ [])

-- NumericalInode of a directory and of a config, on its id; `none` for a nil receiver
unfoldable pub numerical_inode : Option Text → ℕ
numerical_inode none = 1
numerical_inode (some id) = elim (parse_uint id) [ some n ↦ n | none ↦ 0 ]

-- aclGrants(have, required)
unfoldable pub acl_grants : Acl → Acl → Bool
acl_grants acl_read acl_read = true
acl_grants acl_write acl_read = true
acl_grants acl_write acl_write = true
acl_grants _ _ = false

-- acl.GetTag() != "" && acl.GetTag() == providedTag, over the provided tags
unfoldable pub tag_matches : List Text → Text → Bool
unfolding any text_eq
tag_matches tags tag = any (λ provided. not (text_eq tag []) && text_eq tag provided) tags

-- the body of the loop over the entries
unfoldable pub entry_allows : List Text → Acl → ConfigAcl → Bool
unfolding acl_grants tag_matches
entry_allows tags required entry =
    if not (acl_grants entry.acl required)
    then false
    else if entry.everyone
    then true
    else tag_matches tags entry.tag

-- Config.Allows
unfoldable pub config_allows : List Text → Acl → List ConfigAcl → Bool
unfolding any entry_allows
config_allows tags required acls = any (entry_allows tags required) acls

-- Directory.Allows, on the entries of the directory
unfoldable pub directory_allows : List Text → Acl → List ConfigAcl → Bool
unfolding any entry_allows
directory_allows tags required [] = true
directory_allows tags required (entry ∷ acls) = any (entry_allows tags required) (entry ∷ acls)

-- Directory.Allows on a receiver that may be nil
unfoldable pub allows_or_nil : List Text → Acl → Option Directory → Bool
unfolding directory_allows
allows_or_nil tags required none = true
allows_or_nil tags required (some d) = directory_allows tags required d.acls

-- Config.VisibileTo
unfoldable pub visible_to : List Text → List ConfigAcl → Bool
unfolding config_allows
visible_to tags acls = config_allows tags acl_read acls
