-- ===== src/Tests/Directories.antt =====
-- Runs of the operations on directories, and the theorems applied to them.
use mathlib.Core.List
use mathlib.Core.List.{cons-ne-nil}
use configfs.Prelude.{
  pos, int_eq, ◌≡◌, ◌⊎◌, refl, sym, ap, ◌∙◌, false, [], ◌∷◌, none, some, any, find, keep, arith,
}
use configfs.Proto.{acl_write}
use configfs.Store.Atomic.{Lost}
use configfs.Store.Db.{ConfigRow}
use configfs.Store.Acls.{replace_acls, insert_acls, insert_rows, is_recognised, acl_row, int_of_acl}
use configfs.Store.Directories.{
  update_directory, update_parsed_directory, update_directory_body, replace_checked,
}
use configfs.Store.Directories.Replacement.{IsReplaced}
use configfs.Store.Atomic.{delete_of, run}
use configfs.Store.Numbers.{IsNumbered}
use configfs.Fs.Inodes.{AreApart, run-AreApart}
use configfs.Store.Configs.{delete_config, delete_parsed_config, delete_config_body}
use configfs.Api.Handlers.{update_directory_rpc, update_directory_with_id}
use configfs.Api.Handlers.Updating.{update_directory_rpc_safe}
use configfs.Proto.{node}
use configfs.Prelude.{suc, List, Memᴰ, ◌≢◌}
use configfs.Store.Tree.{populate, trees_of, children_of, configs_in, total_length, tree_root}
use configfs.Store.Tree.Depth.{populate_unfolds}
use configfs.Tests.{tag_a}
use configfs.Strings.{codes, root, text_eq}
use configfs.Strings.Decimal.{parse_int, format_nat, format_int}
use configfs.Strings.Like.{like}
use configfs.Proto.{full_path_of, full_path}
use configfs.Exec.{ok, ◌>>=◌}
use configfs.Store.Db.{DirectoryRow, World, statement, query, execute, finish, with_tx}
use configfs.Store.Acls.{
  acl_of_int, to_proto, owned_by, acls_of, load_acls, acls_for_owner, delete_acls,
}
use configfs.Store.Directories.{
  order_by_path, directory_of, directory_with_acls, parsed_directory, get_directory_by_id,
  has_parent, config_under, delete_found_directory, delete_directory_body, delete_parsed_directory,
  delete_directory,
}
use configfs.Store.Directories.Deletion.{IsRemoved, delete_directory_safe}
use configfs.Api.Server.{call}
use configfs.Api.Gates.{path_readable}
use configfs.Api.Handlers.{require_some}
use configfs.Proto.{Directory, directory_allows}
use configfs.Api.Gates.{directory_writable}
use configfs.Api.Handlers.{delete_directory_rpc}
use configfs.Api.Handlers.Changing.{IsModifiable, delete_directory_rpc_safe}
use configfs.Store.Directories.{order_by_path}
use configfs.Tests.{tables, world}

abbrev pub dir_row : DirectoryRow
dir_row = record { id = pos 3; name = codes "d"; path = root; parent_id = none }

abbrev pub with_directory : World
with_directory = record world { db = record tables { directory = dir_row ∷ [] } }

removal_runs : (delete_directory (codes "3") with_directory).0 ≡ ok tt
unfolding delete_directory delete_parsed_directory delete_directory_body delete_found_directory
    has_parent config_under like full_path full_path_of get_directory_by_id parsed_directory
    directory_with_acls directory_of delete_acls with_tx finish execute acls_for_owner load_acls
    acls_of owned_by to_proto acl_of_int format_int format_nat parse_int query statement ◌>>=◌ find
    keep any text_eq int_eq
removal_runs = refl

delete_directory_safe_example :
    Lost with_directory (delete_directory (codes "3") with_directory).1
    ⊎ IsRemoved (codes "3") with_directory.db (delete_directory (codes "3") with_directory).1.db
delete_directory_safe_example = delete_directory_safe (codes "3") with_directory removal_runs

abbrev pub dir : Directory
dir = record { id = codes "3"; name = codes "d"; path = root; acls = [] }

delete_directory_runs : (delete_directory_rpc [] (codes "3") with_directory).0 ≡ ok tt
unfolding delete_directory_rpc require_some call directory_writable path_readable directory_allows
    delete_directory delete_parsed_directory delete_directory_body delete_found_directory has_parent
    config_under like full_path full_path_of get_directory_by_id parsed_directory
    directory_with_acls directory_of delete_acls with_tx finish execute acls_for_owner load_acls
    acls_of owned_by to_proto acl_of_int format_int format_nat parse_int query statement ◌>>=◌ find
    keep any text_eq int_eq
delete_directory_runs = refl

delete_directory_rpc_safe_example :
    IsModifiable [] (codes "3") with_directory.db
    × (Lost with_directory (delete_directory_rpc [] (codes "3") with_directory).1
        ⊎ IsRemoved
            (codes "3")
            with_directory.db
            (delete_directory_rpc [] (codes "3") with_directory).1.db)
delete_directory_rpc_safe_example =
    delete_directory_rpc_safe [] (codes "3") with_directory delete_directory_runs

-- New entries, for a caller with none of the old ones: a directory without entries is open.
abbrev new_entries : Directory
new_entries = record dir {
  name = [];
  acls = record { acl = acl_write; tag = tag_a; everyone = false } ∷ [];
}

update_directory_runs :
    (update_directory_rpc [] (some new_entries) with_directory).0
    ≡ ok (some (record dir { acls = new_entries.acls }))
unfolding update_directory_rpc update_directory_with_id require_some call directory_writable
    path_readable directory_allows update_directory update_parsed_directory update_directory_body
    replace_checked full_path full_path_of get_directory_by_id parsed_directory directory_with_acls
    directory_of delete_acls replace_acls insert_acls insert_rows is_recognised acl_row int_of_acl
    with_tx finish execute acls_for_owner load_acls acls_of owned_by to_proto acl_of_int format_int
    format_nat parse_int query statement ◌>>=◌ find keep any text_eq int_eq
update_directory_runs = refl

update_directory_rpc_safe_example :
    IsModifiable [] (codes "3") with_directory.db
    × (Lost with_directory (update_directory_rpc [] (some new_entries) with_directory).1
        ⊎ IsReplaced new_entries with_directory.db
            (update_directory_rpc [] (some new_entries) with_directory).1.db)
update_directory_rpc_safe_example =
    update_directory_rpc_safe [] new_entries with_directory
      (some (record dir { acls = new_entries.acls })) update_directory_runs

-- The same tables after three ids were given out.
abbrev pub counted : World
counted = record with_directory { db = record with_directory.db { inode = 3 } }

counted-IsNumbered : IsNumbered counted.db
counted-IsNumbered = record {
  configs = record {
    given = λ r m. rw (List.Memᴰ.eq_of_singleton m) (omega arith);
    one = λ r s m i _. List.Memᴰ.eq_of_singleton m ∙ sym (List.Memᴰ.eq_of_singleton i);
  };
  contents = record {
    given = λ r m. rw (List.Memᴰ.eq_of_singleton m) (omega arith);
    one = λ r s m i _. List.Memᴰ.eq_of_singleton m ∙ sym (List.Memᴰ.eq_of_singleton i);
  };
  directories = record {
    given = λ r m. rw (List.Memᴰ.eq_of_singleton m) (omega arith);
    one = λ r s m i _. List.Memᴰ.eq_of_singleton m ∙ sym (List.Memᴰ.eq_of_singleton i);
  };
  apart = λ c d m i e.
      let same : pos 1 ≡ pos 3 =
        ap (λ (r : ConfigRow). r.id) (sym (List.Memᴰ.eq_of_singleton m))
        ∙ e
        ∙ ap (λ (r : DirectoryRow). r.id) (List.Memᴰ.eq_of_singleton i) in
      ground arith;
}

deletion_counts : (run (delete_of (codes "1")) counted).1.db.inode ≡ 3
unfolding run delete_config delete_parsed_config delete_config_body delete_acls with_tx finish
    execute statement ◌>>=◌ parse_int
deletion_counts = refl

run-AreApart_example :
    IsNumbered (run (delete_of (codes "1")) counted).1.db
    × AreApart (run (delete_of (codes "1")) counted).1.db
run-AreApart_example =
    run-AreApart (delete_of (codes "1")) counted counted-IsNumbered
      (rw deletion_counts (omega arith))

-- a directory at the root, and one in it
abbrev two_directories : List Directory
two_directories = dir ∷ record dir { id = codes "4"; name = codes "e"; path = codes "/d" } ∷ []

two_directories_named : (o : Directory) → Memᴰ o two_directories → o.name ≢ []
two_directories_named o (Memᴰ.head e) n =
    cons-ne-nil _ _ (ap (λ (d : Directory). d.name) (sym e) ∙ n)
two_directories_named o (Memᴰ.tail (Memᴰ.head e)) n =
    cons-ne-nil _ _ (ap (λ (d : Directory). d.name) (sym e) ∙ n)
two_directories_named o (Memᴰ.tail (Memᴰ.tail m)) n = elim m [ ]

populate_unfolds_example :
    populate (suc (total_length two_directories)) two_directories [] tree_root
    ≡ node tree_root
        (trees_of
          (populate (suc (total_length two_directories)) two_directories [])
          (children_of tree_root two_directories))
        (configs_in tree_root [])
populate_unfolds_example = populate_unfolds two_directories [] two_directories_named tree_root
