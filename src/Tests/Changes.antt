-- ===== src/Tests/Changes.antt =====
-- A file removed from a mount, and one created in it.
use configfs.Fs.Nodes.{Node, Attr, config_node}
use configfs.Fs.Snapshot.{Mount}
use configfs.Prelude.{[], ◌∷◌, some}
use configfs.Store.Db.{World}
use configfs.Strings.{codes}
use configfs.Tests.{shown}
use configfs.Tests.Mounts.{mounted}

-- The same mount with the file under its full path.
abbrev holding : Mount World
holding = record mounted {
  snapshot = record mounted.snapshot {
    index = record mounted.snapshot.index { full_path_config = (codes "//c", shown) ∷ [] };
  };
}

-- The new file, with the attributes the refreshed mount shows.
abbrev new_node : Node × Attr
new_node = (
  config_node (codes "3"),
  record {
    inode = 3;
    size = 0;
    mode = 0;
    uid = 0;
    gid = 0;
    atime = some 9;
    mtime = some 9;
    ctime = some 9;
  },
)
