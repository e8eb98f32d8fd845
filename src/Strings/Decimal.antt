-- ===== src/Strings/Decimal.antt =====
-- Decimal integers as text: strconv.ParseInt(s, 10, 64), strconv.FormatInt and "%d".
use configfs.Prelude.{
  ℕ, zero, suc, ◌+◌, ◌-◌, ◌*◌, ◌/◌, ◌%◌, ◌≤◌, ◌<◌, ◌≡◌, ◌≢◌, refl, ℤ, pos, negsuc, ◌&&◌, [], ◌∷◌,
  ◌++◌, Option, none, some, arith, ap, ◌∙◌, ltb, leb, ◌==◌, if◌then◌else◌, Bool-cases, inl, inr,
}
use configfs.Strings.{Text}

-- 2 ^ 63
abbrev pub int64_limit : ℕ
int64_limit = 0x8000000000000000

digits : ℕ → ℕ → Text
digits zero n = []
digits (suc f) n =
    let rest = digits f (n / 10) ++ (0x30 + n % 10) ∷ [] in
    if ltb n 10 then (0x30 + n) ∷ [] else rest

-- fmt.Sprintf("%d", n) for n at least 0
unfoldable pub format_nat : ℕ → Text
unfolding digits
format_nat n = digits (suc n) n

-- strconv.FormatInt(v, 10)
unfoldable pub format_int : ℤ → Text
unfolding format_nat
format_int (pos n) = format_nat n
format_int (negsuc n) = 0x2d ∷ format_nat (suc n)

parse_digits : ℕ → Text → Option ℕ
parse_digits n [] = some n
parse_digits n (c ∷ s) =
    let rest = parse_digits (n * 10 + (c - 0x30)) s in
    if leb 0x30 c && leb c 0x39 then rest else none

parse_unsigned : Text → Option ℕ
unfolding parse_digits
parse_unsigned [] = none
parse_unsigned (c ∷ s) = parse_digits 0 (c ∷ s)

positive : Option ℕ → Option ℤ
positive none = none
positive (some n) = if ltb n int64_limit then some (pos n) else none

negative : Option ℕ → Option ℤ
negative none = none
negative (some zero) = some (pos 0)
negative (some (suc n)) = if ltb n int64_limit then some (negsuc n) else none

-- 2 ^ 64
abbrev pub uint64_limit : ℕ
uint64_limit = 0x10000000000000000

below_limit : Option ℕ → Option ℕ
below_limit none = none
below_limit (some n) = if ltb n uint64_limit then some n else none

-- strconv.ParseUint(s, 10, 64), which takes no sign
unfoldable pub parse_uint : Text → Option ℕ
unfolding parse_unsigned below_limit
parse_uint s = below_limit (parse_unsigned s)

-- strconv.ParseInt(s, 10, 64)
unfoldable pub parse_int : Text → Option ℤ
unfolding parse_unsigned positive negative
parse_int [] = none
parse_int (c ∷ s) =
    if c == 0x2d
    then negative (parse_unsigned s)
    else if c == 0x2b
    then positive (parse_unsigned s)
    else positive (parse_unsigned (c ∷ s))

parse_digits-snoc :
    (acc : ℕ) (xs : Text) (m d : ℕ)
    → parse_digits acc xs ≡ some m
    → d < 10
    → parse_digits acc (xs ++ (0x30 + d) ∷ []) ≡ some (m * 10 + d)
unfolding parse_digits
parse_digits-snoc acc [] m d h lt = ground arith
parse_digits-snoc acc (c ∷ s) m d h lt =
    ground (arith, parse_digits-snoc (acc * 10 + (c - 0x30)) s m d)

parse_digits-digits : (f n : ℕ) → n < f → parse_digits 0 (digits f n) ≡ some n
unfolding digits
parse_digits-digits zero n h = elim h [ ]
parse_digits-digits (suc f) n h = elim (Bool-cases (ltb n 10)) [
  | inl small ↦ rw small (unfold parse_digits in ground arith)
  | inr large ↦ rw large (
      parse_digits-snoc 0 (digits f (n / 10)) (n / 10) (n % 10)
        (parse_digits-digits f (n / 10) (ground arith)) (omega arith)
      ∙ ap some (omega arith))
]

-- The first character of a printed number is a digit.
StartsWithDigit : Text → Type 0
StartsWithDigit [] = ⊥
StartsWithDigit (c ∷ s) = (0x30 ≤ c) × (c ≤ 0x39)

StartsWithDigit-append : (s t : Text) → StartsWithDigit s → StartsWithDigit (s ++ t)
unfolding StartsWithDigit
StartsWithDigit-append [] t h = absurd h
StartsWithDigit-append (c ∷ s) t h = h

digits-StartsWithDigit : (f n : ℕ) → n < f → StartsWithDigit (digits f n)
unfolding digits
digits-StartsWithDigit zero n h = elim h [ ]
digits-StartsWithDigit (suc f) n h = elim (Bool-cases (ltb n 10)) [
  | inl small ↦ rw small (unfold StartsWithDigit in ground arith)
  | inr large ↦
      rw large (StartsWithDigit-append _ _ (digits-StartsWithDigit f (n / 10) (ground arith)))
]

parse_int_of_digit :
    (s : Text) (n : ℕ)
    → StartsWithDigit s
    → parse_digits 0 s ≡ some n
    → n < int64_limit
    → parse_int s ≡ some (pos n)
unfolding parse_int StartsWithDigit
parse_int_of_digit [] n h e lt = absurd h
parse_int_of_digit (c ∷ s) n h e lt = ground arith

-- Reading a printed id gives it back.
pub parse_int-format_nat : (n : ℕ) → n < int64_limit → parse_int (format_nat n) ≡ some (pos n)
unfolding format_nat
parse_int-format_nat n h =
    parse_int_of_digit (digits (suc n) n) n (digits-StartsWithDigit (suc n) n (omega arith))
      (parse_digits-digits (suc n) n (omega arith)) h

-- A printed id is not the empty text.
pub format_nat-ne-nil : (n : ℕ) → format_nat n ≢ []
unfolding format_nat
format_nat-ne-nil n e =
    let h : StartsWithDigit [] = rw e at (digits-StartsWithDigit (suc n) n (omega arith)) in
    unfold StartsWithDigit in h

-- The values of an int64.
abbrev pub IsInt64 : ℤ → Type 0
IsInt64 (pos n) = n < int64_limit
IsInt64 (negsuc n) = n < int64_limit

positive-IsInt64 : (o : Option ℕ) (n : ℤ) → positive o ≡ some n → IsInt64 n
unfolding positive
positive-IsInt64 none n h = cc
positive-IsInt64 (some k) (pos m) h = ground arith
positive-IsInt64 (some k) (negsuc m) h = ground arith

negative-IsInt64 : (o : Option ℕ) (n : ℤ) → negative o ≡ some n → IsInt64 n
unfolding negative
negative-IsInt64 none n h = cc
negative-IsInt64 (some zero) (pos m) h = ground arith
negative-IsInt64 (some zero) (negsuc m) h = ground arith
negative-IsInt64 (some (suc k)) (pos m) h = ground arith
negative-IsInt64 (some (suc k)) (negsuc m) h = ground arith

-- What is read is an int64.
pub parse_int-IsInt64 : (s : Text) (n : ℤ) → parse_int s ≡ some n → IsInt64 n
unfolding parse_int
parse_int-IsInt64 [] n h = cc
parse_int-IsInt64 (c ∷ s) n h = elim (Bool-cases (c == 0x2d)) [
  | inl minus ↦ negative-IsInt64 (parse_unsigned s) n (rw minus at h)
  | inr other ↦ elim (Bool-cases (c == 0x2b)) [
    | inl plus ↦ positive-IsInt64 (parse_unsigned s) n (ground arith)
    | inr digit ↦ positive-IsInt64 (parse_unsigned (c ∷ s)) n (ground arith)
  ]
]

parse_unsigned_of_digit : (s : Text) → StartsWithDigit s → parse_unsigned s ≡ parse_digits 0 s
unfolding parse_unsigned StartsWithDigit
parse_unsigned_of_digit [] h = absurd h
parse_unsigned_of_digit (c ∷ s) h = refl

parse_unsigned-format_nat : (n : ℕ) → parse_unsigned (format_nat n) ≡ some n
unfolding format_nat
parse_unsigned-format_nat n =
    parse_unsigned_of_digit (digits (suc n) n) (digits-StartsWithDigit (suc n) n (omega arith))
    ∙ parse_digits-digits (suc n) n (omega arith)

parse_int-minus : (s : Text) → parse_int (0x2d ∷ s) ≡ negative (parse_unsigned s)
unfolding parse_int
parse_int-minus s = refl

negative-suc : (n : ℕ) → n < int64_limit → negative (some (suc n)) ≡ some (negsuc n)
unfolding negative
negative-suc n h = ground arith

-- Printing an int64 and reading it gives it back.
pub parse_int-format_int : (n : ℤ) → IsInt64 n → parse_int (format_int n) ≡ some n
unfolding format_int
parse_int-format_int (pos n) h = parse_int-format_nat n h
parse_int-format_int (negsuc n) h =
    parse_int-minus (format_nat (suc n))
    ∙ ap negative (parse_unsigned-format_nat (suc n))
    ∙ negative-suc n h

pub format_int-ne-nil : (n : ℤ) → format_int n ≢ []
unfolding format_int
format_int-ne-nil (pos n) e = format_nat-ne-nil n e
format_int-ne-nil (negsuc n) e = cc

below_limit_lem : (n : ℕ) → n < uint64_limit → below_limit (some n) ≡ some n
unfolding below_limit
below_limit_lem n h = ground arith

-- An unsigned number that is printed is read back.
pub parse_uint-format_nat : (n : ℕ) → n < uint64_limit → parse_uint (format_nat n) ≡ some n
unfolding parse_uint
parse_uint-format_nat n h = ap below_limit (parse_unsigned-format_nat n) ∙ below_limit_lem n h
