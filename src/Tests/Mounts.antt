-- ===== src/Tests/Mounts.antt =====
-- Runs of a mount on small tables, and the theorems of the file system applied to them.
use configfs.Prelude.{
  ℕ, pos, int_eq, ◌≡◌, ◌≢◌, ◌↔◌, refl, Bool, true, false, List, Memᴰ, [], ◌∷◌, none, some, any,
  find, keep, Option, length, ltb, leb, ◌&&◌, ◌-◌, if◌then◌else◌,
}
use configfs.Strings.{Text, codes, root, text_eq}
use configfs.Strings.Decimal.{parse_int, parse_uint, format_nat, format_int}
use configfs.Proto.{
  Config, Tree, node, no_trees, acl_grants, tag_matches, entry_allows, config_allows, full_path,
  numerical_inode, config_full_path,
}
use configfs.Exec.{ok, err, ◌>>=◌}
use configfs.Store.Db.{World, statement, query}
use configfs.Store.Acls.{acl_of_int, to_proto, owned_by, acls_of, load_acls, acls_for_owner}
use configfs.Store.Configs.{
  timestamp_from_unix_nano, id_string_from_null_int, current_content, select_row, select_first,
  config_of, is_version, load_version, requested_version, version_to_load, load_config,
  get_parsed_config, get_config_by_id,
}
use configfs.Store.Tree.Safety.{InTree}
use configfs.Api.Server.{call}
use configfs.Api.Gates.{path_readable}
use configfs.Api.Handlers.{require_some, get_config_rpc}
use configfs.Client.{Client, served}
use configfs.Fs.Bytes.{write_at}
use configfs.Fs.Bytes.Laws.{byte_at, write_at_lem}
use configfs.Fs.Index.{top_of, get_value, empty_index, directory_map}
use configfs.Fs.Index.Maps.{Has}
use configfs.Fs.Index.Laws.{Within, IsSound, directory_map_exact}
use configfs.Fs.Snapshot.{Mount, request, config, full_config, load_snapshot, ticks}
use configfs.Fs.Snapshot.Refresh.{IsFresh, loaded-IsFresh}
use configfs.Fs.Nodes.{
  Attr, Node, Dirent, read_all, config_attr, lookup, read_dir_all, touch, accessed, read_time,
  merge_opts_with_attr, no_attr,
}
use configfs.Fs.Nodes.Listing.{Listed, lookup-read_dir_all}
use configfs.Fs.MountPoint.{
  other_error, exited, not_there, System, mount_exists, mount_found, attempt_unmount_if_necessary,
  ensure_mount_point, ensure_on,
}
use configfs.Fs.MountPoint.Outcomes.{failures, attempt_unmount_lem}
use configfs.Tests.{shown}
use configfs.Tests.Rpcs.{tag_b, server, writable_tables, writable}

-- The tree of one config at the root
abbrev top : Tree
top = node (record { id = []; name = []; path = []; acls = [] }) no_trees (shown ∷ [])

abbrev pub mounted : Mount World
mounted = record {
  snapshot = record {
    directory = some top;
    index = record {
      path_directory = (root, top) ∷ [];
      id_config = (codes "1", shown) ∷ [];
      full_path_config = [];
    };
  };
  refresh_failing = false;
  times = [];
  clock = 5;
  remote = writable;
}

-- the bytes of a write
abbrev bang : List ℕ
bang = 33 ∷ []

abbrev pub client : Client World
client = served server (tag_b ∷ [])

loaded-IsFresh_example :
    ((ticks client 2 (load_snapshot client mounted)).remote.db ≡ writable_tables)
    × IsFresh (tag_b ∷ []) (ticks client 2 (load_snapshot client mounted))
loaded-IsFresh_example = loaded-IsFresh server (tag_b ∷ []) 2 mounted

lookup-read_dir_all_example :
    (es : List Dirent) × ((read_dir_all root mounted).0 ≡ ok es)
    × ((e : Dirent) → Memᴰ e es → (n : Node) × ((lookup root e.name mounted).0 ≡ ok n))
    × ((name : Text) (n : Node) → (lookup root name mounted).0 ≡ ok n → Listed es name n)
lookup-read_dir_all_example = lookup-read_dir_all root mounted

directory_map_exact_example :
    IsSound (λ n. Within n top) (λ c. InTree c top) (directory_map top empty_index)
    × ((n : Tree)
        → Within n top
        → Has (full_path (top_of n)) (directory_map top empty_index).path_directory)
    × ((c : Config)
        → InTree c top
        → Has c.id (directory_map top empty_index).id_config
          × Has (config_full_path c) (directory_map top empty_index).full_path_config)
directory_map_exact_example = directory_map_exact top

write_at_lem_example :
    (length (write_at (1 ∷ 2 ∷ []) 4 (7 ∷ [])) ≡ 5)
    × ((i : ℕ)
        → byte_at (write_at (1 ∷ 2 ∷ []) 4 (7 ∷ [])) i
          ≡ (if leb 4 i && ltb i 5 then byte_at (7 ∷ []) (i - 4) else byte_at (1 ∷ 2 ∷ []) i))
write_at_lem_example = write_at_lem (1 ∷ 2 ∷ []) 4 (7 ∷ [])

abbrev attr : Option ℕ → Attr
attr t = record no_attr { inode = 1; size = 2; mtime = some 7; ctime = some 7; atime = t }

read_runs : (read_all client (codes "1") mounted).0 ≡ ok (104 ∷ 105 ∷ [])
unfolding read_all full_config request config get_value touch get_config_rpc call require_some
    path_readable config_allows entry_allows acl_grants tag_matches get_config_by_id
    get_parsed_config load_config version_to_load requested_version load_version is_version
    select_first select_row current_content config_of acls_for_owner load_acls acls_of owned_by
    to_proto acl_of_int timestamp_from_unix_nano id_string_from_null_int format_int format_nat
    parse_int query statement ◌>>=◌ find keep any text_eq int_eq
read_runs = refl

before : (config_attr none (codes "1") mounted).0 ≡ ok (attr (some 7))
unfolding config_attr config accessed get_value read_time merge_opts_with_attr ◌>>=◌ text_eq
    numerical_inode parse_uint
before = refl

after :
    (config_attr none (codes "1") (read_all client (codes "1") mounted).1).0 ≡ ok (attr (some 5))
unfolding config_attr config accessed get_value read_time merge_opts_with_attr read_all full_config
    request touch numerical_inode parse_uint get_config_rpc call require_some path_readable
    config_allows entry_allows acl_grants tag_matches get_config_by_id get_parsed_config load_config
    version_to_load requested_version load_version is_version select_first select_row
    current_content config_of acls_for_owner load_acls acls_of owned_by to_proto acl_of_int
    timestamp_from_unix_nano id_string_from_null_int format_int format_nat parse_int query statement
    ◌>>=◌ find keep any text_eq int_eq
after = refl

-- findmnt finds a mount that nothing can remove.
abbrev stuck : System (Unit {0})
stuck = record {
  run = λ c s. (
    elim c [
      | [] ↦ err (other_error [])
      | program ∷ _ ↦ if text_eq program (codes "findmnt") then ok tt else err (exited (pos 1) [])
    ],
    s,
  );
  unmount = λ _ s. (err tt, s);
  stat = λ _ s. (ok true, s);
  mkdir_all = λ _ s. (ok tt, s);
  fuse_mount = λ _ _ s. (ok tt, s);
}

stuck_found : (mount_exists stuck (codes "/mnt") tt).0 ≡ ok true
unfolding mount_exists mount_found text_eq
stuck_found = refl

attempt_unmount_lem_example :
    ((attempt_unmount_if_necessary stuck (codes "/mnt") tt).0 ≡ ok tt)
    ↔ (failures stuck (codes "/mnt") (mount_exists stuck (codes "/mnt") tt).1 ≢ 2)
attempt_unmount_lem_example = attempt_unmount_lem stuck (codes "/mnt") tt stuck_found

-- The state is whether there is a directory.
abbrev fresh_host : System Bool
fresh_host = record {
  run = λ _ s. (err (other_error []), s);
  unmount = λ _ s. (err tt, s);
  stat = λ _ s. (if s then ok true else err not_there, s);
  mkdir_all = λ _ s. (ok tt, true);
  fuse_mount = λ _ _ s. (ok tt, s);
}

made : (ensure_mount_point fresh_host (codes "/mnt") false).0 ≡ ok tt
unfolding ensure_mount_point ensure_on
made = refl
