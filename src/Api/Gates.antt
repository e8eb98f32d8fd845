-- ===== src/Api/Gates.antt =====
-- The directory gates of internal/api/server.go.
pub mod Meaning
pub mod Deepest
use configfs.Prelude.{
  Bool, true, false, not, ◌||◌, List, [], ◌∷◌, Option, none, some, ltb, if◌then◌else◌, any, find,
}
use configfs.Strings.{Text, root, text_eq, contains, byte_len}
use configfs.Proto.{acl_read, acl_write, Directory, full_path, directory_allows}
use configfs.Exec.{pure, ◌>>=◌}
use configfs.Store.Db.{Op}
use configfs.Store.Directories.{directory_chain}

abbrev pub is_root : Text → Bool
is_root path = text_eq path [] || text_eq path root

unfoldable pub all_readable : List Text → List Directory → Bool
all_readable tags dirs =
    not (any (λ (d : Directory). not (directory_allows tags acl_read d.acls)) dirs)

unfoldable pub chain_readable : List Text → List Directory × List Text → Bool
chain_readable tags (chain, []) = all_readable tags chain
chain_readable tags (chain, m ∷ ms) = false

-- pathReadable
unfoldable pub path_readable : Text → List Text → Op Bool
path_readable path tags =
    if is_root path
    then pure true
    else do found ← directory_chain path; pure (chain_readable tags found)

-- The directory that a config is written into: the root, one that exists, or none.
pub data Containing : Type 0 where
  the_root : Containing
  existing_directory : Directory → Containing
  no_directory : Containing

abbrev pub located : Option Directory → Containing
located (some d) = existing_directory d
located none = no_directory

unfoldable pub locate : Text → List Directory × List Text → Containing
locate path (chain, missing) =
    if contains missing path
    then no_directory
    else located (find (λ d. text_eq (full_path d) path) chain)

-- containingDirectory
unfoldable pub containing_directory : Text → Op Containing
containing_directory path =
    if is_root path
    then pure the_root
    else do found ← directory_chain path; pure (locate path found)

-- directoryWritable
unfoldable pub directory_writable : Directory → List Text → Op Bool
directory_writable dir tags = do
  readable ← path_readable dir.path tags
  pure (if not readable then false else directory_allows tags acl_write dir.acls)

unfoldable pub deeper : Option Directory → Directory → Option Directory
deeper none d = some d
deeper (some best) d =
    if ltb (byte_len (full_path best)) (byte_len (full_path d)) then some d else some best

unfoldable pub deepest_from : Option Directory → List Directory → Option Directory
deepest_from best [] = best
deepest_from best (d ∷ ds) = deepest_from (deeper best d) ds

-- deepestExistingAncestor
unfoldable pub deepest_existing_ancestor : List Directory → Option Directory
deepest_existing_ancestor chain = deepest_from none chain
