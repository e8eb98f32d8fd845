-- ===== src/Store/Frames.antt =====
-- The operations on directories leave the tables of configs alone.
use configfs.Prelude.{ℤ, refl, List, [], ◌∷◌, Option, none, some}
use configfs.Strings.{Text, cut_last}
use configfs.Strings.Decimal.{parse_int}
use configfs.Proto.{ConfigAcl, Directory}
use configfs.Exec.{raise}
use configfs.Store.Db.{AclRow, ConfigRow, ContentRow, Db, name_mismatch, path_mismatch}
use configfs.Store.Db.Reads.{IsRead-query}
use configfs.Store.Db.Keeps.{
  Keeps, Keeps-pure, Keeps-raise, Keeps-if, Keeps-execute, Keeps-next_inode, Keeps-with_tx,
  Keeps-bind, Keeps-IsRead, keeps_rules,
}
use configfs.Store.Acls.{of_directory, insert_rows, insert_acls, delete_acls, replace_acls}
use configfs.Store.Reads.{get_directories-IsRead, get_directory_by_id-IsRead}
use configfs.Store.Directories.{
  create_directory_row, create_one, create_missing, ensure_directories, return_created,
  create_directory_body, create_directory, contradicts, replace_checked, update_directory_body,
  update_parsed_directory, update_directory, delete_found_directory, delete_directory_body,
  delete_parsed_directory, delete_directory,
}

-- The tables of configs.
abbrev pub configs_view : Db → List ConfigRow × List ContentRow × List AclRow
configs_view db = (db.config, db.config_content, db.config_acl)

insert_rows-Keeps : (rows : List AclRow) → Keeps configs_view (insert_rows of_directory rows)
unfolding insert_rows
insert_rows-Keeps [] = search keeps_rules
insert_rows-Keeps (r ∷ rows) = Keeps-execute _ (λ db. refl)

insert_acls-Keeps :
    (n : ℤ) (acls : List ConfigAcl) → Keeps configs_view (insert_acls of_directory n acls)
unfolding insert_acls
insert_acls-Keeps n acls = insert_rows-Keeps _

delete_acls-Keeps : (n : ℤ) → Keeps configs_view (delete_acls of_directory n)
unfolding delete_acls
delete_acls-Keeps n = Keeps-execute _ (λ db. refl)

replace_acls-Keeps :
    (n : ℤ) (acls : List ConfigAcl) → Keeps configs_view (replace_acls of_directory n acls)
unfolding replace_acls
replace_acls-Keeps n acls = search (keeps_rules, delete_acls-Keeps, insert_acls-Keeps)

create_directory_row-Keeps :
    (path name : Text) (parent : Option Text) (acls : List ConfigAcl)
    → Keeps configs_view (create_directory_row path name parent acls)
unfolding create_directory_row
create_directory_row-Keeps path name parent acls =
    Keeps-bind _ _ (Keeps-next_inode (λ db. refl)) (λ n.
      Keeps-bind _ _ (Keeps-execute _ (λ db. refl))
        (λ _. Keeps-bind _ _ (insert_acls-Keeps n acls) (λ _. Keeps-pure _)))

create_one-Keeps :
    (dirs : List Directory) (acls : List ConfigAcl) (o : Option (Text × Text))
    → Keeps configs_view (create_one dirs acls o)
unfolding create_one
create_one-Keeps dirs acls none = search keeps_rules
create_one-Keeps dirs acls (some (before, name)) = search (keeps_rules, create_directory_row-Keeps)

create_missing-Keeps :
    (dirs : List Directory) (acls : List ConfigAcl) (misses : List Text)
    → Keeps configs_view (create_missing dirs acls misses)
unfolding create_missing
create_missing-Keeps dirs acls [] = search keeps_rules
create_missing-Keeps dirs acls (miss ∷ misses) =
    Keeps-bind _ _ (create_one-Keeps dirs acls (cut_last miss))
      (λ dirs'. create_missing-Keeps dirs' acls misses)

ensure_directories-Keeps :
    (path : Text) (acls : List ConfigAcl) → Keeps configs_view (ensure_directories path acls)
unfolding ensure_directories
ensure_directories-Keeps path acls =
    Keeps-bind _ _ (Keeps-IsRead _ (get_directories-IsRead _))
      (λ found. create_missing-Keeps found.0 acls _)

return_created-Keeps :
    (path : Text) (o : Option Directory) → Keeps configs_view (return_created path o)
unfolding return_created
return_created-Keeps path none = search keeps_rules
return_created-Keeps path (some d) = Keeps-IsRead _ (get_directory_by_id-IsRead d.id)

create_directory_body-Keeps :
    (path : Text) (acls : List ConfigAcl) → Keeps configs_view (create_directory_body path acls)
unfolding create_directory_body
create_directory_body-Keeps path acls =
    Keeps-bind _ _ (Keeps-IsRead _ (get_directories-IsRead _)) (λ found.
      Keeps-if _ _ _ (Keeps-raise _)
        (Keeps-bind _ _ (ensure_directories-Keeps path acls) (λ dirs. return_created-Keeps path _)))

pub create_directory-Keeps : (d : Directory) → Keeps configs_view (create_directory d)
unfolding create_directory
create_directory-Keeps d =
    Keeps-if _ _ _ (Keeps-raise _) (Keeps-with_tx _ (create_directory_body-Keeps _ d.acls))

replace_checked-Keeps :
    (d : Directory) (n : ℤ) (o : Option Directory) → Keeps configs_view (replace_checked d n o)
unfolding replace_checked
replace_checked-Keeps d n none = search keeps_rules
replace_checked-Keeps d n (some existing) =
    Keeps-if (contradicts d.name existing.name) (raise (name_mismatch existing.name)) _
      (Keeps-raise _)
      (Keeps-if (contradicts d.path existing.path) (raise (path_mismatch existing.path)) _
        (Keeps-raise _)
        (Keeps-bind _ _ (replace_acls-Keeps n d.acls)
          (λ _. Keeps-IsRead _ (get_directory_by_id-IsRead d.id))))

update_body-Keeps : (d : Directory) (n : ℤ) → Keeps configs_view (update_directory_body d n)
unfolding update_directory_body
update_body-Keeps d n =
    Keeps-bind _ _ (Keeps-IsRead _ (get_directory_by_id-IsRead d.id)) (replace_checked-Keeps d n)

update_parsed-Keeps :
    (d : Directory) (o : Option ℤ) → Keeps configs_view (update_parsed_directory d o)
unfolding update_parsed_directory
update_parsed-Keeps d none = search keeps_rules
update_parsed-Keeps d (some n) = Keeps-with_tx _ (update_body-Keeps d n)

pub update_directory-Keeps : (d : Directory) → Keeps configs_view (update_directory d)
unfolding update_directory
update_directory-Keeps d = update_parsed-Keeps d (parse_int d.id)

delete_found-Keeps :
    (id : Text) (n : ℤ) (o : Option Directory) → Keeps configs_view (delete_found_directory id n o)
unfolding delete_found_directory
delete_found-Keeps id n none = search keeps_rules
delete_found-Keeps id n (some existing) = Keeps-bind _ _ (Keeps-IsRead _ (IsRead-query _)) (λ dirs.
    Keeps-if dirs _ _ (Keeps-raise _) (
      Keeps-bind _ _ (Keeps-IsRead _ (IsRead-query _)) (λ configs.
        Keeps-if configs _ _ (Keeps-raise _)
          (Keeps-bind _ _ (delete_acls-Keeps n) (λ _. Keeps-execute _ (λ db. refl))))))

delete_body-Keeps : (id : Text) (n : ℤ) → Keeps configs_view (delete_directory_body id n)
unfolding delete_directory_body
delete_body-Keeps id n =
    Keeps-bind _ _ (Keeps-IsRead _ (get_directory_by_id-IsRead id)) (delete_found-Keeps id n)

delete_parsed-Keeps : (id : Text) (o : Option ℤ) → Keeps configs_view (delete_parsed_directory id o)
unfolding delete_parsed_directory
delete_parsed-Keeps id none = search keeps_rules
delete_parsed-Keeps id (some n) = Keeps-with_tx _ (delete_body-Keeps id n)

pub delete_directory-Keeps : (id : Text) → Keeps configs_view (delete_directory id)
unfolding delete_directory
delete_directory-Keeps id = delete_parsed-Keeps id (parse_int id)
