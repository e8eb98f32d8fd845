-- ===== src/Fs/Inodes.antt =====
-- The inodes that a mount shows for the rows of the store (NumericalInode of
-- internal/proto/extra.go on the ids of internal/store/sqlite/store.go).
use configfs.Prelude.{ℕ, ℤ, pos, negsuc, ◌<◌, ◌≡◌, ◌≢◌, refl, sym, ap, ◌∙◌, Memᴰ, some, arith}
use configfs.Strings.{Text}
use configfs.Strings.Decimal.{format_int, uint64_limit, parse_uint, parse_uint-format_nat}
use configfs.Proto.{numerical_inode}
use configfs.Store.Db.{ConfigRow, DirectoryRow, Db, World}
use configfs.Store.Atomic.{Mutation, run}
use configfs.Store.Numbers.Runs.{run-IsNumbered}
use configfs.Store.Numbers.{IsNumbered}
use configfs.Store.Numbers.Keys.{IsGiven}

-- the inode of the row with this id
abbrev pub inode_of : ℤ → ℕ
inode_of n = numerical_inode (some (format_int n))

inode_parsed : (id : Text) (n : ℕ) → parse_uint id ≡ some n → numerical_inode (some id) ≡ n
unfolding numerical_inode
inode_parsed id n p = rw (p, numerical_inode) refl

inode_of_given : (n : ℤ) (k : ℕ) → IsGiven n k → k < uint64_limit → n ≡ pos (inode_of n)
unfolding format_int
inode_of_given (pos n) k g h =
    ap pos (sym (inode_parsed (format_int (pos n)) n (parse_uint-format_nat n (omega arith))))
inode_of_given (negsuc n) k g h = absurd g

same_id :
    (m n : ℤ) (k : ℕ)
    → IsGiven m k
    → IsGiven n k
    → k < uint64_limit
    → inode_of m ≡ inode_of n
    → m ≡ n
same_id m n k g i h e = inode_of_given m k g h ∙ ap pos e ∙ sym (inode_of_given n k i h)

-- Equal inodes of two configs, or of two directories, are those of one row, and no config has the
-- inode of a directory.
abbrev pub AreApart : Db → Type 0
AreApart db =
    ((c e : ConfigRow)
      → Memᴰ c db.config
      → Memᴰ e db.config
      → inode_of c.id ≡ inode_of e.id
      → c ≡ e)
    × ((c e : DirectoryRow)
        → Memᴰ c db.directory
        → Memᴰ e db.directory
        → inode_of c.id ≡ inode_of e.id
        → c ≡ e)
    × ((c : ConfigRow) (d : DirectoryRow)
        → Memᴰ c db.config
        → Memᴰ d db.directory
        → inode_of c.id ≢ inode_of d.id)

AreApart-of_IsNumbered : (db : Db) → IsNumbered db → db.inode < uint64_limit → AreApart db
AreApart-of_IsNumbered db n h = (
  (λ c e m i same.
      n.configs.one c e m i
        (same_id c.id e.id db.inode (n.configs.given c m) (n.configs.given e i) h same)),
  (λ c e m i same.
      n.directories.one c e m i
        (same_id c.id e.id db.inode (n.directories.given c m) (n.directories.given e i) h same)),
  λ c d m i same.
      n.apart c d m i
        (same_id c.id d.id db.inode (n.configs.given c m) (n.directories.given d i) h same),
)

-- Where in each table every id is at most the counter and names one row, and no config shares its id
-- with a directory, that is so after any operation that leaves the counter below 2 ^ 64, whatever
-- statements fail; and the inodes that a mount shows for the rows then tell them apart: equal inodes
-- of two configs, or of two directories, are those of one row, and no config has the inode of a
-- directory.
pub run-AreApart :
    (m : Mutation) (w : World)
    → IsNumbered w.db
    → (run m w).1.db.inode < uint64_limit
    → IsNumbered (run m w).1.db × AreApart (run m w).1.db
run-AreApart m w n h =
    let after = run-IsNumbered m w n in (after, AreApart-of_IsNumbered (run m w).1.db after h)
