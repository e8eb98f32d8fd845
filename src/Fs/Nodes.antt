-- ===== src/Fs/Nodes.antt =====
-- The nodes of the file system: Dir and Config of internal/fs/fs.go, their attributes and the times
-- of reads.
pub mod Listing
pub mod Writing
pub mod Changing
pub mod Making
pub mod Times
use Prim.Native.Nat.{bit_or}
use configfs.Prelude.{
  ℕ, ◌+◌, Bool, true, false, List, [], ◌∷◌, ◌++◌, map, Option, none, some, length, if◌then◌else◌,
}
use configfs.Strings.{Text, slash, root, text_eq}
use configfs.Proto.{
  acl_write, ConfigAcl, Config, Directory, Tree, Trees, node, no_trees, tree_cons, full_path,
  numerical_inode,
}
use configfs.Exec.{Result, ok, err, Exec, pure, raise, ◌>>=◌, ◌>>◌}
use configfs.Client.{Client}
use configfs.Fs.Bytes.{write_at}
use configfs.Fs.Index.{get_value, put_value, top_of}
use configfs.Fs.Snapshot.{
  FsError, no_entry, Mount, FsOp, id_or_empty, subdirectories, configs_within, directory, config,
  full_config, remove, create, mkdir, rmdir, write,
}

-- fuse.Attr; a time that is not set is `none`
pub record Attr : Type 0 where
  pub inode : ℕ
  pub size : ℕ
  pub mode : ℕ
  pub uid : ℕ
  pub gid : ℕ
  pub atime : Option ℕ
  pub mtime : Option ℕ
  pub ctime : Option ℕ

abbrev pub no_attr : Attr
no_attr = record {
  inode = 0;
  size = 0;
  mode = 0;
  uid = 0;
  gid = 0;
  atime = none;
  mtime = none;
  ctime = none;
}

-- The options that the attributes take.
pub record Options : Type 0 where
  pub owner : Option ℕ
  pub group : Option ℕ
  pub file_mode : Option ℕ

abbrev pub or_old : Option ℕ → ℕ → ℕ
or_old none old = old
or_old (some new) old = new

-- The options of NewRemoteConfigFS where it is given none: the super-user, and mode 0444.
unfoldable pub options_or_default : Option Options → Options
options_or_default none = record { owner = some 0; group = some 0; file_mode = some 0x124 }
options_or_default (some o) = o

-- mergeOptsWithAttr
unfoldable pub merge_opts_with_attr : Option Options → Attr → Attr
merge_opts_with_attr none a = a
merge_opts_with_attr (some opts) a = record a {
  mode = elim opts.file_mode [ some m ↦ bit_or a.mode m | none ↦ a.mode ];
  uid = or_old opts.owner a.uid;
  gid = or_old opts.group a.gid;
}

-- os.ModeDir
abbrev pub mode_dir : ℕ
mode_dir = 0x80000000

abbrev pub tree_inode : Option Tree → ℕ
tree_inode none = numerical_inode none
tree_inode (some t) = numerical_inode (some (top_of t).id)

abbrev pub config_inode : Option Config → ℕ
config_inode none = numerical_inode none
config_inode (some c) = numerical_inode (some c.id)

abbrev pub size_of : Option Config → ℕ
size_of none = 0
size_of (some c) = c.content_size

abbrev pub updated_of : Option Config → Option ℕ
updated_of none = none
updated_of (some c) = c.updated_at

-- the times of Config.Attr: the last read, and else the last change
unfoldable pub read_time : Option ℕ → Option ℕ → Option ℕ
read_time none updated = updated
read_time (some t) updated = some t

-- Directory nodes carry their path, config nodes their id.
pub data Node : Type 0 where
  dir_node : Text → Node
  config_node : Text → Node

-- RemoteConfigFS.Root
abbrev pub root_node : Node
root_node = dir_node root

pub data DirentType : Type 0 where
  dt_dir dt_file : DirentType

pub record Dirent : Type 0 where
  pub inode : ℕ
  pub name : Text
  pub kind : DirentType

-- the loop over the directories of ReadDirAll, and of Lookup
unfoldable pub directory_entries : Trees → List Dirent
directory_entries no_trees = []
directory_entries (tree_cons t ts) =
    record { inode = numerical_inode (some (top_of t).id); name = (top_of t).name; kind = dt_dir }
    ∷ directory_entries ts

unfoldable pub config_entry : Config → Dirent
config_entry c = record { inode = numerical_inode (some c.id); name = c.name; kind = dt_file }

unfoldable pub lookup_config : Text → List Config → Option Node
lookup_config name [] = none
lookup_config name (c ∷ cs) =
    let rest = lookup_config name cs in
    if text_eq c.name name then some (config_node c.id) else rest

unfoldable pub lookup_among : Text → Trees → List Config → Option Node
lookup_among name no_trees cs = lookup_config name cs
lookup_among name (tree_cons t ts) cs =
    let rest = lookup_among name ts cs in
    if text_eq (top_of t).name name then some (dir_node (full_path (top_of t))) else rest

abbrev pub acls_or_none : Option Tree → List ConfigAcl
acls_or_none none = []
acls_or_none (some t) = (top_of t).acls

abbrev pub created_path : Option Directory → Text
created_path none = root
created_path (some d) = full_path d

-- the config that Dir.Create asks for
unfoldable pub new_file : Text → Text → Config
new_file path name = record {
  id = [];
  name = name;
  content = some [];
  content_size = 0;
  path = path;
  acls = record { acl = acl_write; tag = []; everyone = true } ∷ [];
  created_at = none;
  updated_at = none;
  current_content_id = [];
}

abbrev pub content_of : Option (List ℕ) → List ℕ
content_of none = []
content_of (some bytes) = bytes

-- the function that Config.Write hands to the snapshot
unfoldable pub written : ℕ → List ℕ → Config → Config
written offset bytes conf =
    let content : List ℕ = write_at (content_of conf.content) offset bytes in
    record conf { content = some content; content_size = length content }

module _ {R : Type 0} where
  -- Dir.Attr
  unfoldable pub dir_attr : Option Options → Text → FsOp R Attr
  dir_attr opts path = do
    dir ← directory path
    pure (
        merge_opts_with_attr opts
          (record no_attr { inode = tree_inode dir; mode = bit_or 0 mode_dir }))

  unfoldable pub found : Option Node → FsOp R Node
  found none = raise no_entry
  found (some n) = pure n

  -- Dir.Lookup
  unfoldable pub lookup : Text → Text → FsOp R Node
  lookup path name = do
    dir ← directory path
    found (lookup_among name (subdirectories dir) (configs_within dir))

  -- Dir.ReadDirAll
  unfoldable pub read_dir_all : Text → FsOp R (List Dirent)
  read_dir_all path = do
    dir ← directory path
    pure (directory_entries (subdirectories dir) ++ map config_entry (configs_within dir))

  -- touch
  unfoldable pub touch : Text → FsOp R (Unit {0})
  touch id s = (ok tt, record s { times = put_value id s.clock s.times })

  -- get
  unfoldable pub accessed : Text → FsOp R (Option ℕ)
  accessed id s = (ok (get_value id s.times), s)

  -- Config.Attr
  unfoldable pub config_attr : Option Options → Text → FsOp R Attr
  config_attr opts id = do
    c ← config id
    read ← accessed id
    pure (
        merge_opts_with_attr opts (record no_attr {
          inode = config_inode c;
          size = size_of c;
          mtime = updated_of c;
          ctime = updated_of c;
          atime = read_time read (updated_of c);
        }))

  module _ (client : Client R) where
    -- Dir.Remove; `is_dir` is req.Dir
    unfoldable pub dir_remove : Text → Bool → Text → FsOp R (Unit {0})
    dir_remove path is_dir name =
        if is_dir then rmdir client path name else remove client (path ++ slash ∷ name)

    -- Dir.Mkdir
    unfoldable pub dir_mkdir : Text → Text → FsOp R Node
    dir_mkdir path name = do
      parent ← directory path
      created ← mkdir client path name (acls_or_none parent)
      pure (dir_node (created_path created))

    -- Dir.Create
    unfoldable pub dir_create : Option Options → Text → Text → FsOp R (Node × Attr)
    dir_create opts path name = do
      created ← create client (new_file path name)
      attr ← config_attr opts (id_or_empty created)
      pure (config_node (id_or_empty created), attr)

    -- Config.ReadAll
    unfoldable pub read_all : Text → FsOp R (List ℕ)
    read_all id = do
      c ← config id
      full ← full_config client c
      touch id
      pure (content_of full.content)

    -- Config.Write, and the size of its response
    unfoldable pub config_write : Text → ℕ → List ℕ → FsOp R ℕ
    config_write id offset bytes = do
      c ← config id
      write client c (written offset bytes)
      pure (length bytes)
