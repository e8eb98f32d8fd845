-- ===== src/Fs/Bytes.antt =====
-- The bytes of a file under a write: the function that Config.Write of internal/fs/fs.go hands to
-- the snapshot.
pub mod Laws
use configfs.Prelude.{ℕ, zero, suc, ◌+◌, List, [], ◌∷◌, length, ltb, if◌then◌else◌}

-- make([]byte, n)
unfoldable pub zeros : ℕ → List ℕ
zeros zero = []
zeros (suc n) = 0 ∷ zeros n

-- copy(target[offset:], source), which stops at the end of the shorter one
unfoldable pub copy_at : List ℕ → ℕ → List ℕ → List ℕ
copy_at [] offset source = []
copy_at (x ∷ target) (suc offset) source = x ∷ copy_at target offset source
copy_at (x ∷ target) zero [] = x ∷ target
copy_at (x ∷ target) zero (y ∷ source) = y ∷ copy_at target zero source

-- content, or a copy of it that is `end` long
unfoldable pub grown : List ℕ → ℕ → List ℕ
grown content end = if ltb (length content) end then copy_at (zeros end) 0 content else content

unfoldable pub write_at : List ℕ → ℕ → List ℕ → List ℕ
write_at content offset bytes = copy_at (grown content (offset + length bytes)) offset bytes
