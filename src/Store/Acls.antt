-- ===== src/Store/Acls.antt =====
-- The ACL tables config_acl and directory_acl of internal/store/sqlite/store.go. Both have one
-- shape, so the operations take the table.
pub mod Laws
use configfs.Prelude.{
  ℕ, zero, suc, ℤ, int_eq, Bool, true, false, not, ◌||◌, List, [], ◌∷◌, ◌++◌, map, ◌==◌,
  if◌then◌else◌, any, keep,
}
use configfs.Proto.{Acl, unknown_acl, acl_read, acl_write, out_of_range, ConfigAcl}
use configfs.Exec.{pure, ◌>>=◌, ◌>>◌}
use configfs.Store.Db.{AclRow, Db, Op, query, execute}

-- The parameters `table` and `ownerCol`.
pub data AclTable : Type 0 where
  of_config of_directory : AclTable

abbrev pub acl_rows : AclTable → Db → List AclRow
acl_rows of_config db = db.config_acl
acl_rows of_directory db = db.directory_acl

abbrev pub with_acl_rows : AclTable → List AclRow → Db → Db
with_acl_rows of_config rows db = record db { config_acl = rows }
with_acl_rows of_directory rows db = record db { directory_acl = rows }

-- types.Acl(n)
unfoldable pub acl_of_int : ℕ → Acl
acl_of_int zero = unknown_acl
acl_of_int (suc zero) = acl_read
acl_of_int (suc (suc zero)) = acl_write
acl_of_int (suc (suc (suc n))) = out_of_range (suc (suc (suc n)))

-- int(acl)
unfoldable pub int_of_acl : Acl → ℕ
int_of_acl unknown_acl = 0
int_of_acl acl_read = 1
int_of_acl acl_write = 2
int_of_acl (out_of_range n) = n

-- aclRow.toProto
unfoldable pub to_proto : AclRow → ConfigAcl
to_proto r = record { acl = acl_of_int r.acl; tag = r.tag; everyone = not (r.everyone == 0) }

-- The entries that insertACLs does not skip.
unfoldable pub is_recognised : ConfigAcl → Bool
is_recognised a = elim a.acl [ acl_read ↦ true | acl_write ↦ true | _ ↦ false ]

-- The values that insertACLs writes for an entry.
unfoldable pub acl_row : ℤ → ConfigAcl → AclRow
acl_row owner a = record {
  owner_id = owner;
  acl = int_of_acl a.acl;
  tag = a.tag;
  everyone = if a.everyone then 1 else 0;
}

unfoldable pub owned_by : ℤ → AclRow → Bool
owned_by owner r = int_eq r.owner_id owner

-- The stored entries of an owner, in the order of their rows.
unfoldable pub acls_of : ℤ → List AclRow → List ConfigAcl
acls_of owner rows = map to_proto (keep (owned_by owner) rows)

-- loadACLs: the map that it returns, as a function that gives [] where an owner is absent
unfoldable pub load_acls : AclTable → List ℤ → Op (ℤ → List ConfigAcl)
load_acls table [] = pure (λ _. [])
load_acls table (id ∷ ids) =
    query
      λ db owner. if any (int_eq owner) (id ∷ ids) then acls_of owner (acl_rows table db) else []

-- aclsForOwner
unfoldable pub acls_for_owner : AclTable → ℤ → Op (List ConfigAcl)
acls_for_owner table owner = do by_id ← load_acls table (owner ∷ []); pure (by_id owner)

unfoldable pub insert_rows : AclTable → List AclRow → Op (Unit {0})
insert_rows table [] = pure tt
insert_rows table (r ∷ rows) = execute λ db. with_acl_rows table (acl_rows table db ++ r ∷ rows) db

-- insertACLs
unfoldable pub insert_acls : AclTable → ℤ → List ConfigAcl → Op (Unit {0})
insert_acls table owner acls = insert_rows table (map (acl_row owner) (keep is_recognised acls))

-- deleteACLs
unfoldable pub delete_acls : AclTable → ℤ → Op (Unit {0})
delete_acls table owner =
    execute λ db. with_acl_rows table (keep (λ r. not (owned_by owner r)) (acl_rows table db)) db

-- replaceACLs
unfoldable pub replace_acls : AclTable → ℤ → List ConfigAcl → Op (Unit {0})
replace_acls table owner acls = do delete_acls table owner; insert_acls table owner acls

-- loadConfigACLs, configACLs, insertConfigACLs, deleteConfigACLs, replaceConfigACLs
abbrev pub load_config_acls : List ℤ → Op (ℤ → List ConfigAcl)
load_config_acls = load_acls of_config

abbrev pub config_acls : ℤ → Op (List ConfigAcl)
config_acls = acls_for_owner of_config

abbrev pub insert_config_acls : ℤ → List ConfigAcl → Op (Unit {0})
insert_config_acls = insert_acls of_config

abbrev pub delete_config_acls : ℤ → Op (Unit {0})
delete_config_acls = delete_acls of_config

abbrev pub replace_config_acls : ℤ → List ConfigAcl → Op (Unit {0})
replace_config_acls = replace_acls of_config

-- loadDirectoryACLs, directoryACLs, insertDirectoryACLs, deleteDirectoryACLs, replaceDirectoryACLs
abbrev pub load_directory_acls : List ℤ → Op (ℤ → List ConfigAcl)
load_directory_acls = load_acls of_directory

abbrev pub directory_acls : ℤ → Op (List ConfigAcl)
directory_acls = acls_for_owner of_directory

abbrev pub insert_directory_acls : ℤ → List ConfigAcl → Op (Unit {0})
insert_directory_acls = insert_acls of_directory

abbrev pub delete_directory_acls : ℤ → Op (Unit {0})
delete_directory_acls = delete_acls of_directory

abbrev pub replace_directory_acls : ℤ → List ConfigAcl → Op (Unit {0})
replace_directory_acls = replace_acls of_directory
