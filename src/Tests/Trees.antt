-- ===== src/Tests/Trees.antt =====
-- The tree of a caller over one directory, and new directories in it.
use configfs.Client.{Client, served}
use configfs.Exec.{ok, ◌>>=◌}
use configfs.Prelude.{
  Option, ◌≡◌, ◌↔◌, refl, sym, ap, ◌∙◌, [], ◌∷◌, find, keep, any, int_eq, none, some,
}
use configfs.Proto.{
  Directory, Tree, node, no_trees, tree_cons, full_path, full_path_of, config_allows,
  directory_allows, entry_allows, acl_grants, tag_matches,
}
use configfs.Pulumi.Directories.{DirectoryArgs}
use configfs.Store.Acls.{load_acls, acls_of, owned_by, to_proto, acl_of_int}
use configfs.Store.Configs.{
  select_row, current_content, config_of, timestamp_from_unix_nano, id_string_from_null_int,
}
use configfs.Store.Db.{World, DirectoryRow, query, statement}
use configfs.Store.Directories.{order_by_path, insert_by_path, directory_of}
use configfs.Store.Tree.{
  insert_by_depth, depth_of, tree_root, tree_for_acl_tags, all_directories_with_acls,
  visible_configs, under_prefix, has_directory, prefilter, readable_directories, mark_readable,
  sort_by_depth, get_path, populate, trees_of, children_of, configs_in, root_normalised,
  total_length,
}
use configfs.Store.Tree.Complete.{tree_exact}
use configfs.Store.Tree.Fetched.{HasPlainDirectories}
use configfs.Store.Tree.Safety.{InTree, IsVisible}
use configfs.Strings.{codes, text_eq}
use configfs.Strings.Decimal.{format_int, format_nat}
use configfs.Tests.{tag_a, shown, readers}
use configfs.Tests.Directories.{with_directory, dir}
use configfs.Tests.Rpcs.{server}
use mathlib.Core.List.{cons-ne-nil}
use mathlib.Core.List

plain_tables : HasPlainDirectories with_directory.db
plain_tables = record {
  plain = λ r m. (
    λ e.
        cons-ne-nil _ _ (ap (λ (x : DirectoryRow). x.path) (sym (List.Memᴰ.eq_of_singleton m)) ∙ e),
    λ e.
        cons-ne-nil _ _ (ap (λ (x : DirectoryRow). x.name) (sym (List.Memᴰ.eq_of_singleton m)) ∙ e),
  );
  unique = λ r q m i e. List.Memᴰ.eq_of_singleton m ∙ sym (List.Memᴰ.eq_of_singleton i);
}

abbrev two_nodes : Tree
two_nodes =
    node tree_root (tree_cons (node dir no_trees []) no_trees)
      (record shown { content = none } ∷ [])

two_nodes_run : (tree_for_acl_tags (tag_a ∷ []) [] with_directory).0 ≡ ok two_nodes
unfolding tree_for_acl_tags all_directories_with_acls order_by_path insert_by_path visible_configs
    under_prefix has_directory prefilter readable_directories mark_readable sort_by_depth
    insert_by_depth depth_of get_path populate trees_of children_of configs_in root_normalised
    total_length full_path full_path_of config_allows directory_allows entry_allows acl_grants
    tag_matches select_row current_content config_of directory_of load_acls acls_of owned_by
    to_proto acl_of_int timestamp_from_unix_nano id_string_from_null_int format_int format_nat query
    statement ◌>>=◌ find keep any text_eq int_eq
two_nodes_run = refl

tree_exact_example :
    InTree (record shown { content = none }) two_nodes
    ↔ IsVisible (tag_a ∷ []) [] with_directory.db (record shown { content = none })
tree_exact_example =
    tree_exact (tag_a ∷ []) [] with_directory two_nodes plain_tables two_nodes_run
      (record shown { content = none })

-- A new directory in the one that is there.
abbrev inner : Directory
inner = record { id = []; name = codes "e"; path = codes "/d"; acls = readers }

abbrev created_inner : Directory
created_inner = record inner { id = codes "4" }

abbrev inner_args : DirectoryArgs
inner_args = record { name = codes "e"; path = codes "/d"; acls = [] }

abbrev provider : Option (Client World)
provider = some (served server (tag_a ∷ []))
