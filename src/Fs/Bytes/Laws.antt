-- ===== src/Fs/Bytes/Laws.antt =====
-- What a write leaves at each position of a file.
use configfs.Prelude.{
  ℕ, zero, suc, ◌+◌, ◌-◌, ◌≤◌, ◌≡◌, refl, ◌&&◌, List, [], ◌∷◌, length, arith, ltb, leb,
  if◌then◌else◌, ◌∙◌,
}
use configfs.Fs.Bytes.{zeros, copy_at, grown, write_at}

-- The byte at a position, 0 past the end.
abbrev pub byte_at : List ℕ → ℕ → ℕ
byte_at [] i = 0
byte_at (x ∷ xs) zero = x
byte_at (x ∷ xs) (suc i) = byte_at xs i

length-zeros : (n : ℕ) → length (zeros n) ≡ n
unfolding zeros
length-zeros zero = refl
length-zeros (suc n) = omega (arith, length-zeros n)

byte_at-zeros : (n i : ℕ) → byte_at (zeros n) i ≡ 0
unfolding zeros
byte_at-zeros zero i = refl
byte_at-zeros (suc n) zero = refl
byte_at-zeros (suc n) (suc i) = byte_at-zeros n i

length-copy_at :
    (target : List ℕ) (offset : ℕ) (source : List ℕ)
    → length (copy_at target offset source) ≡ length target
unfolding copy_at
length-copy_at [] offset source = refl
length-copy_at (x ∷ target) (suc offset) source = omega (arith, length-copy_at target offset source)
length-copy_at (x ∷ target) zero [] = refl
length-copy_at (x ∷ target) zero (y ∷ source) = omega (arith, length-copy_at target zero source)

-- Where the source fits, each position holds the source's byte or what it held.
byte_at-copy_at :
    (target : List ℕ) (offset : ℕ) (source : List ℕ) (i : ℕ)
    → offset + length source ≤ length target
    → byte_at (copy_at target offset source) i ≡ (
        if leb offset i && ltb i (offset + length source)
        then byte_at source (i - offset)
        else byte_at target i)
unfolding copy_at
byte_at-copy_at [] offset source i h = ground arith
byte_at-copy_at (x ∷ target) (suc offset) source zero h = ground arith
byte_at-copy_at (x ∷ target) (suc offset) source (suc i) h =
    ground (arith, byte_at-copy_at target offset source i)
byte_at-copy_at (x ∷ target) zero [] i h = ground arith
byte_at-copy_at (x ∷ target) zero (y ∷ source) zero h = ground arith
byte_at-copy_at (x ∷ target) zero (y ∷ source) (suc i) h =
    ground (arith, byte_at-copy_at target zero source i)

byte_at_past : (content : List ℕ) (i : ℕ) → length content ≤ i → byte_at content i ≡ 0
byte_at_past [] i h = refl
byte_at_past (x ∷ content) zero h = absurd (omega arith)
byte_at_past (x ∷ content) (suc i) h = byte_at_past content i (omega arith)

length-grown :
    (content : List ℕ) (end : ℕ)
    → length (grown content end) ≡ (if ltb (length content) end then end else length content)
unfolding grown
length-grown content end = ground (arith, length-copy_at (zeros end) 0 content, length-zeros end)

byte_at-grown : (content : List ℕ) (end i : ℕ) → byte_at (grown content end) i ≡ byte_at content i
unfolding grown
byte_at-grown content end i = ground (
  arith,
  byte_at-copy_at (zeros end) 0 content i,
  length-zeros end,
  byte_at-zeros end i,
  byte_at_past content i,
)

-- After a write of n bytes at an offset, a file is as long as it was, or reaches to the end of the
-- write; the positions of the write hold the bytes written, every other one holds what it held, and
-- those between the old end and the offset hold 0.
pub write_at_lem :
    (content : List ℕ) (offset : ℕ) (bytes : List ℕ)
    → (length (write_at content offset bytes) ≡ (
        if ltb (length content) (offset + length bytes)
        then offset + length bytes
        else length content))
      × ((i : ℕ)
          → byte_at (write_at content offset bytes) i ≡ (
              if leb offset i && ltb i (offset + length bytes)
              then byte_at bytes (i - offset)
              else byte_at content i))
unfolding write_at
write_at_lem content offset bytes =
    let end : ℕ = offset + length bytes in
    (
      length-copy_at (grown content end) offset bytes ∙ length-grown content end,
      λ i. ground (
        arith,
        byte_at-copy_at (grown content end) offset bytes i,
        length-grown content end,
        byte_at-grown content end i,
      ),
    )
