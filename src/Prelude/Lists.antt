-- ===== src/Prelude/Lists.antt =====
-- Lists: measures over the native numbers, Boolean searches and filters that compute, and their
-- laws.
use Prim.Native.Nat.{ℕ, suc, ◌+◌}
use mathlib.Core.Path.{◌≡◌, refl}
use mathlib.Core.Logic.{◌↔◌, inl, inr}
use mathlib.Core.Bool.{Bool, true, false, ◌||◌}
use mathlib.Core.List.{Memᴰ, List, [], ◌∷◌, ◌++◌}
use mathlib.Core.Option.{Option, none, some}
use native.Mathlib.Omega.{arith}
use configfs.Prelude.Tests.{if◌then◌else◌, Bool-cases}

module _ {ℓ} {A : Type ℓ} where
  abbrev pub length : List A → ℕ
  length [] = 0
  length (x ∷ xs) = suc (length xs)

  pub length-append : (xs ys : List A) → length (xs ++ ys) ≡ length xs + length ys
  length-append [] ys = omega arith
  length-append (x ∷ xs) ys = omega (arith, length-append xs ys)

  -- What a Go loop with an early `return true` computes.
  unfoldable pub any : (A → Bool) → List A → Bool
  any p [] = false
  any p (x ∷ xs) = p x || any p xs

  -- The elements that pass a test, in order.
  unfoldable pub keep : (A → Bool) → List A → List A
  keep p [] = []
  keep p (x ∷ xs) = let rest = keep p xs in if p x then x ∷ rest else rest

  -- The first element that passes a test.
  unfoldable pub find : (A → Bool) → List A → Option A
  find p [] = none
  find p (x ∷ xs) = let rest = find p xs in if p x then some x else rest

  abbrev pub All {κ} : (A → Type κ) → List A → Type κ
  All P [] = Unit
  All P (x ∷ xs) = P x × All P xs

  pub keep-append : (p : A → Bool) (xs ys : List A) → keep p (xs ++ ys) ≡ keep p xs ++ keep p ys
  unfolding keep
  keep-append p [] ys = refl
  keep-append p (x ∷ xs) ys = ground (arith, keep-append p xs ys)

  pub any-append : (p : A → Bool) (xs ys : List A) → any p (xs ++ ys) ≡ (any p xs || any p ys)
  unfolding any
  any-append p [] ys = refl
  any-append p (x ∷ xs) ys = ground (arith, any-append p xs ys)

  pub any-true_of_find : (p : A → Bool) (xs : List A) (a : A) → find p xs ≡ some a → any p xs ≡ true
  unfolding any find
  any-true_of_find p [] a h = cc
  any-true_of_find p (x ∷ xs) a h = ground (arith, any-true_of_find p xs a)

  pub find_passes : (p : A → Bool) (xs : List A) (a : A) → find p xs ≡ some a → p a ≡ true
  unfolding find
  find_passes p [] a h = cc
  find_passes p (x ∷ xs) a h = ground (arith, find_passes p xs a)

  any_of_mem : (p : A → Bool) (xs : List A) (a : A) → Memᴰ a xs → p a ≡ true → any p xs ≡ true
  unfolding any
  any_of_mem p [] a m h = elim m [ ]
  any_of_mem p (x ∷ xs) a (Memᴰ.head e) h = rw (← e, h)
  any_of_mem p (x ∷ xs) a (Memᴰ.tail m) h = ground (arith, any_of_mem p xs a m h)

  mem_of_any : (p : A → Bool) (xs : List A) → any p xs ≡ true → (a : A) × Memᴰ a xs × (p a ≡ true)
  unfolding any
  mem_of_any p [] h = cc
  mem_of_any p (x ∷ xs) h = elim (Bool-cases (p x)) [
    | inl yes_x ↦ (x, Memᴰ.head refl, yes_x)
    | inr no_x ↦ let (a, m, e) = mem_of_any p xs (ground arith) in (a, Memᴰ.tail m, e)
  ]

  -- A search succeeds exactly when some element passes the test.
  pub any_iff :
      (p : A → Bool) (xs : List A) → (any p xs ≡ true) ↔ ((a : A) × Memᴰ a xs × (p a ≡ true))
  any_iff p xs = (mem_of_any p xs, λ (a, m, e). any_of_mem p xs a m e)

  pub mem_of_find : (p : A → Bool) (xs : List A) (a : A) → find p xs ≡ some a → Memᴰ a xs
  unfolding find
  mem_of_find p [] a h = cc
  mem_of_find p (x ∷ xs) a h = elim (Bool-cases (p x)) [
    | inl yes_x ↦ Memᴰ.head (ground arith)
    | inr no_x ↦ Memᴰ.tail (mem_of_find p xs a (ground arith))
  ]

  mem_of_kept :
      (p : A → Bool) (x : A) (xs ys : List A) (a : A)
      → (Memᴰ a ys → Memᴰ a xs × (p a ≡ true))
      → p x ≡ true
      → Memᴰ a (x ∷ ys)
      → Memᴰ a (x ∷ xs) × (p a ≡ true)
  mem_of_kept p x xs ys a ih h (Memᴰ.head e) = (Memᴰ.head e, rw e h)
  mem_of_kept p x xs ys a ih h (Memᴰ.tail m) = let (m', e) = ih m in (Memᴰ.tail m', e)

  pub mem_of_keep :
      (p : A → Bool) (xs : List A) (a : A) → Memᴰ a (keep p xs) → Memᴰ a xs × (p a ≡ true)
  unfolding keep
  mem_of_keep p [] a m = elim m [ ]
  mem_of_keep p (x ∷ xs) a m = elim (Bool-cases (p x)) [
    | inl yes_x ↦ mem_of_kept p x xs (keep p xs) a (mem_of_keep p xs a) yes_x (rw yes_x at m)
    | inr no_x ↦ let (m', e) = mem_of_keep p xs a (rw no_x at m) in (Memᴰ.tail m', e)
  ]

  pub mem-keep : (p : A → Bool) (xs : List A) (a : A) → Memᴰ a xs → p a ≡ true → Memᴰ a (keep p xs)
  unfolding keep
  mem-keep p [] a m h = elim m [ ]
  mem-keep p (x ∷ xs) a (Memᴰ.head e) h = rw (← e, h) (Memᴰ.head refl)
  mem-keep p (x ∷ xs) a (Memᴰ.tail m) h = elim (Bool-cases (p x)) [
    | inl yes_x ↦ rw yes_x (Memᴰ.tail (mem-keep p xs a m h))
    | inr no_x ↦ rw no_x (mem-keep p xs a m h)
  ]

  -- A search that finds nothing has refused every element.
  pub not_of_find-none :
      (p : A → Bool) (xs : List A) (a : A) → find p xs ≡ none → Memᴰ a xs → p a ≡ false
  unfolding find
  not_of_find-none p [] a h m = elim m [ ]
  not_of_find-none p (x ∷ xs) a h (Memᴰ.head e) = rw e (ground arith)
  not_of_find-none p (x ∷ xs) a h (Memᴰ.tail m) = not_of_find-none p xs a (ground arith) m
