-- ===== src/Pulumi/Acls/Laws.antt =====
-- What the conversions of cmd/pulumi/main.go keep.
use mathlib.Core.List.{cons-ne-nil}
use configfs.Prelude.{
  length, ◌≤◌, arith, ◌≡◌, ◌≢◌, refl, ◌∙◌, sym, ap, ◌↔◌, inl, inr, Bool, true, false, not, ◌||◌,
  List, [], ◌∷◌, keep, Bool-cases,
}
use configfs.Strings.{Text, codes, text_eq, trim_space, is_space, trim_left, trim_right}
use configfs.Strings.Laws.{eq_of_text_eq, text_eq_iff}
use configfs.Proto.{Acl, unknown_acl, ConfigAcl}
use configfs.Store.Acls.{is_recognised}
use configfs.Pulumi.Acls.{
  AclEntry, to_upper, to_upper_code, acl_value, acl_name, acl_level, acl_eq, bool_eq, acl_to_proto,
  acls_to_proto, acl_from_proto, acls_from_proto, acls_equal, validate_acls,
}

acl_eq_iff : (a b : Acl) → (acl_eq a b ≡ true) ↔ (a ≡ b)
unfolding acl_eq
acl_eq_iff a b = ground arith

bool_eq_iff : (a b : Bool) → (bool_eq a b ≡ true) ↔ (a ≡ b)
unfolding bool_eq
bool_eq_iff a b = ground arith

-- The name of a level that some text stands for reads back as that level.
acl_level_name : (s : Text) → acl_level (acl_name (acl_level s)) ≡ acl_level s
unfolding acl_level acl_value acl_name to_upper to_upper_code trim_space trim_left trim_right
    is_space text_eq
acl_level_name s = elim (Bool-cases (text_eq (to_upper (trim_space s)) (codes "READ"))) [
  | inl is_read ↦ rw is_read refl
  | inr not_read ↦ elim (Bool-cases (text_eq (to_upper (trim_space s)) (codes "WRITE"))) [
    | inl is_write ↦ rw (not_read, is_write) refl
    | inr not_write ↦ rw (not_read, not_write) refl
  ]
]

abbrev differs : AclEntry → AclEntry → Bool
differs a b =
    not (acl_eq (acl_level a.acl) (acl_level b.acl))
    || not (text_eq a.tag b.tag)
    || not (bool_eq a.everyone b.everyone)

none_of :
    (p q r : Bool) → ((not p || not q || not r) ≡ false) ↔ ((p ≡ true) × (q ≡ true) × (r ≡ true))
none_of true true true = (λ _. (refl, refl, refl), λ _. refl)
none_of true true false = ground arith
none_of true false r = ground arith
none_of false q r = ground arith

differs_iff : (a b : AclEntry) → (differs a b ≡ false) ↔ (acl_to_proto a ≡ acl_to_proto b)
unfolding acl_to_proto
differs_iff a b =
    let parts =
      none_of (acl_eq (acl_level a.acl) (acl_level b.acl)) (text_eq a.tag b.tag)
        (bool_eq a.everyone b.everyone) in
    (
      λ h.
          let (p, q, r) = parts.0 h in
          rw
            (
              (acl_eq_iff (acl_level a.acl) (acl_level b.acl)).0 p,
              eq_of_text_eq a.tag b.tag q,
              (bool_eq_iff a.everyone b.everyone).0 r,
            )
            refl,
      λ e. parts.1 (
        (acl_eq_iff (acl_level a.acl) (acl_level b.acl)).1 (ap (λ (c : ConfigAcl). c.acl) e),
        (text_eq_iff a.tag b.tag).1 (ap (λ (c : ConfigAcl). c.tag) e),
        (bool_eq_iff a.everyone b.everyone).1 (ap (λ (c : ConfigAcl). c.everyone) e),
      ),
    )

module _ {A : Type 0} {x y : A} {xs ys : List A} where
  cons_head : x ∷ xs ≡ y ∷ ys → x ≡ y
  cons_head h = cc

  cons_tail : x ∷ xs ≡ y ∷ ys → xs ≡ ys
  cons_tail h = cc

-- Two access lists are equal to the provider exactly when they send the same entries in the same order.
pub acls_equal_iff :
    (xs ys : List AclEntry) → (acls_equal xs ys ≡ true) ↔ (acls_to_proto xs ≡ acls_to_proto ys)
unfolding acls_equal
acls_equal_iff [] [] = (λ _. refl, λ _. refl)
acls_equal_iff [] (b ∷ ys) = (λ h. ground arith, λ h. absurd (cons-ne-nil _ _ (sym h)))
acls_equal_iff (a ∷ xs) [] = (λ h. ground arith, λ h. absurd (cons-ne-nil _ _ h))
acls_equal_iff (a ∷ xs) (b ∷ ys) = elim (Bool-cases (differs a b)) [
  | inl other ↦
      (λ h. ground (arith, rw other at h), λ h. let e = (differs_iff a b).1 (cons_head h) in cc)
  | inr same ↦ (
    λ h. rw ((differs_iff a b).0 same, (acls_equal_iff xs ys).0 (rw same at h)) refl,
    λ h. rw same ((acls_equal_iff xs ys).1 (cons_tail h)),
  )
]

length-keep : {A : Type 0} (p : A → Bool) (xs : List A) → length (keep p xs) ≤ length xs
unfolding keep
length-keep p [] = omega arith
length-keep p (x ∷ xs) = ground (arith, length-keep p xs)

is_recognised_lem :
    (a : AclEntry) → is_recognised (acl_to_proto a) ≡ not (acl_eq (acl_level a.acl) unknown_acl)
unfolding acl_level acl_value acl_to_proto is_recognised acl_eq
is_recognised_lem a = elim (Bool-cases (text_eq (to_upper (trim_space a.acl)) (codes "READ"))) [
  | inl is_read ↦ rw is_read refl
  | inr not_read ↦ elim (Bool-cases (text_eq (to_upper (trim_space a.acl)) (codes "WRITE"))) [
    | inl is_write ↦ rw (not_read, is_write) refl
    | inr not_write ↦ rw (not_read, not_write) refl
  ]
]

keep_shorter : {A : Type 0} (p : A → Bool) (x : A) (xs : List A) → keep p xs ≢ x ∷ xs
keep_shorter p x xs e = omega (arith, length-keep p xs, ap length e)

validate_acls_iff :
    (xs : List AclEntry)
    → (validate_acls xs ≡ true) ↔ (keep is_recognised (acls_to_proto xs) ≡ acls_to_proto xs)
unfolding validate_acls keep
validate_acls_iff [] = (λ _. refl, λ _. refl)
validate_acls_iff (a ∷ xs) = elim (Bool-cases (acl_eq (acl_level a.acl) unknown_acl)) [
  | inl unknown ↦ (
    λ h. ground (arith, rw unknown at h),
    λ h. absurd (keep_shorter is_recognised _ _ (rw (is_recognised_lem a, unknown) at h)),
  )
  | inr known ↦ (
    λ h. rw (is_recognised_lem a, known, (validate_acls_iff xs).0 (rw known at h)) refl,
    λ h. rw known ((validate_acls_iff xs).1 (cons_tail (rw (is_recognised_lem a, known) at h))),
  )
]

-- what is sent, read, and sent again
acls_to_proto-from_proto :
    (xs : List AclEntry)
    → acls_to_proto (acls_from_proto (keep is_recognised (acls_to_proto xs)))
      ≡ keep is_recognised (acls_to_proto xs)
unfolding keep acl_to_proto acl_from_proto
acls_to_proto-from_proto [] = refl
acls_to_proto-from_proto (a ∷ xs) = elim (Bool-cases (is_recognised (acl_to_proto a))) [
  | inl yes_a ↦ rw (yes_a, acl_level_name a.acl, acls_to_proto-from_proto xs) refl
  | inr no_a ↦ rw (no_a, acls_to_proto-from_proto xs) refl
]

-- An access list sent to a server, which stores the entries with a known level, and read back from
-- there, is equal to the provider exactly when the provider's own check accepts the list.
pub acls_round_trip :
    (xs : List AclEntry)
    → (acls_equal (acls_from_proto (keep is_recognised (acls_to_proto xs))) xs ≡ true)
      ↔ (validate_acls xs ≡ true)
acls_round_trip xs =
    let sent = acls_to_proto-from_proto xs in
    let (same, equal) =
      acls_equal_iff (acls_from_proto (keep is_recognised (acls_to_proto xs))) xs in
    (
      λ h. (validate_acls_iff xs).1 (sym sent ∙ same h),
      λ h. equal (sent ∙ (validate_acls_iff xs).0 h),
    )
