-- ===== src/Strings/Like.antt =====
-- SQL's `x LIKE pattern` as SQLite has it by default: `%` stands for any text, `_` for any one
-- character, and the ASCII letters are compared without their case.
use configfs.Prelude.{
  ℕ, ◌+◌, ◌≡◌, refl, Bool, true, false, ◌&&◌, ◌||◌, [], ◌∷◌, ◌++◌, arith, leb, ◌==◌, if◌then◌else◌,
}
use configfs.Strings.{Text, has_prefix}

fold_case : ℕ → ℕ
fold_case c = if leb 0x41 c && leb c 0x5a then c + 32 else c

unfoldable pub like : Text → Text → Bool
unfolding fold_case
like [] [] = true
like [] (c ∷ s) = false
like (p ∷ ps) [] = let rest = like ps [] in if p == 0x25 then rest else false
like (p ∷ ps) (c ∷ s) =
    let none_of_it = like ps (c ∷ s) in
    let one_more = like (p ∷ ps) s in
    let rest = like ps s in
    if p == 0x25
    then none_of_it || one_more
    else if p == 0x5f
    then rest
    else (fold_case p == fold_case c) && rest

like_percent : (s : Text) → like (0x25 ∷ []) s ≡ true
unfolding like
like_percent [] = refl
like_percent (c ∷ s) = ground (arith, like_percent s)

-- `%` may stand for no character.
like_skip : (q s : Text) → like q s ≡ true → like (0x25 ∷ q) s ≡ true
unfolding like
like_skip q [] h = ground arith
like_skip q (c ∷ s) h = ground arith

like_skip_at : (a : ℕ) (q s : Text) → a ≡ 0x25 → like q s ≡ true → like (a ∷ q) s ≡ true
like_skip_at a q s e h = rw e (like_skip q s h)

-- A text that begins with p matches the pattern p followed by `%`, whatever wildcards p holds.
pub like_of_has_prefix : (p s : Text) → has_prefix s p ≡ true → like (p ++ 0x25 ∷ []) s ≡ true
unfolding like has_prefix
like_of_has_prefix [] s h = like_percent s
like_of_has_prefix (a ∷ p) [] h = cc
like_of_has_prefix (a ∷ p) (b ∷ s) h =
    ground (arith, like_of_has_prefix p s, like_skip_at a (p ++ 0x25 ∷ []) s)
