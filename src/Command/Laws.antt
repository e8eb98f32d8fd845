-- ===== src/Command/Laws.antt =====
-- The flag --additional_acl_on_create of cmd/fs/main.go, written as its help says, is read back.
use configfs.Prelude.{
  ℕ, arith, ◌≡◌, refl, Bool, true, false, not, ◌==◌, List, [], ◌∷◌, ◌++◌, Memᴰ, any, some,
  if◌then◌else◌,
}
use configfs.Strings.{Text, codes, text_eq, split}
use configfs.Strings.Laws.{eq_of_text_eq}
use configfs.Proto.{Acl, unknown_acl, out_of_range, acl_read, acl_write, ConfigAcl}
use configfs.Store.Acls.{is_recognised}
use configfs.Pulumi.Acls.{acl_name}
use configfs.Command.{
  comma, at_sign, acl_of_components, acl_of_parts, acls_of_flag_parts, additional_acls,
}

unfoldable pub has_code : ℕ → Text → Bool
has_code sep s = any (λ c. c == sep) s

no_head : (sep c : ℕ) (s : Text) → has_code sep (c ∷ s) ≡ false → (c == sep) ≡ false
unfolding has_code any
no_head sep c s h = ground arith

no_tail : (sep c : ℕ) (s : Text) → has_code sep (c ∷ s) ≡ false → has_code sep s ≡ false
unfolding has_code any
no_tail sep c s h = ground arith

eq_self : (n : ℕ) → (n == n) ≡ true
eq_self n = ground arith

has_code-append :
    (sep : ℕ) (s t : Text)
    → has_code sep s ≡ false
    → has_code sep t ≡ false
    → has_code sep (s ++ t) ≡ false
unfolding has_code any
has_code-append sep [] t h k = k
has_code-append sep (c ∷ s) t h k =
    rw (no_head sep c s h) (has_code-append sep s t (no_tail sep c s h) k)

split_none : (sep : ℕ) (s : Text) → has_code sep s ≡ false → split sep s ≡ s ∷ []
unfolding split
split_none sep [] h = refl
split_none sep (c ∷ s) h = rw (no_head sep c s h, split_none sep s (no_tail sep c s h)) refl

split_first :
    (sep : ℕ) (s rest : Text)
    → has_code sep s ≡ false
    → split sep (s ++ sep ∷ rest) ≡ s ∷ split sep rest
unfolding split
split_first sep [] rest h = rw (eq_self sep) refl
split_first sep (c ∷ s) rest h =
    rw (no_head sep c s h, split_first sep s rest (no_tail sep c s h)) refl

-- An entry as the flag's help writes it: tag:name@ACL, with everyone in place of the tag.
unfoldable pub print_acl : ConfigAcl → Text
print_acl a = (if a.everyone then codes "everyone" else a.tag) ++ at_sign ∷ acl_name a.acl

unfoldable pub print_acls : List ConfigAcl → Text
print_acls [] = []
print_acls (a ∷ []) = print_acl a
print_acls (a ∷ b ∷ more) = print_acl a ++ comma ∷ print_acls (b ∷ more)

-- The flag can say the entry: READ or WRITE, for everyone and then without a tag, or for a tag
-- without the separators that is not the word everyone.
pub record IsSayable (a : ConfigAcl) : Type 0 where
  pub level : is_recognised a ≡ true
  pub no_comma : has_code comma a.tag ≡ false
  pub no_at : has_code at_sign a.tag ≡ false
  pub named :
      (if a.everyone then text_eq a.tag [] else not (text_eq a.tag (codes "everyone"))) ≡ true

not_empty : (s : Text) (c : ℕ) (t : Text) → text_eq (s ++ c ∷ t) [] ≡ false
unfolding text_eq
not_empty [] c t = refl
not_empty (d ∷ s) c t = refl

at_first : (s : Text) → has_code comma s ≡ false → has_code comma (at_sign ∷ s) ≡ false
unfolding has_code any
at_first s h = h

flipped : (b : Bool) → not b ≡ true → b ≡ false
flipped b h = ground arith

-- An entry is read back from what is printed of it, and what is printed has no comma.
abbrev ReadsBack : ConfigAcl → Type 0
ReadsBack a =
    (acl_of_parts (split at_sign (print_acl a)) ≡ some a)
    × (has_code comma (print_acl a) ≡ false)
    × (text_eq (print_acl a) [] ≡ false)

ReadsBack-of_name :
    (name level : Text) (a : ConfigAcl)
    → print_acl a ≡ name ++ at_sign ∷ level
    → has_code at_sign name ≡ false
    → has_code comma name ≡ false
    → has_code at_sign level ≡ false
    → has_code comma level ≡ false
    → acl_of_components name level ≡ some a
    → ReadsBack a
unfolding acl_of_parts
ReadsBack-of_name name level a p n1 n2 l1 l2 e = (
  (rw (p, split_first at_sign name level n1, split_none at_sign level l1) e),
  (rw p (has_code-append comma name (at_sign ∷ level) n2 (at_first level l2))),
  (rw p (not_empty name (at_sign) level)),
)

said :
    (l : Acl) (tag : Text) (everyone : Bool)
    → IsSayable (record { acl = l; tag = tag; everyone = everyone })
    → ReadsBack (record { acl = l; tag = tag; everyone = everyone })
unfolding print_acl acl_of_components is_recognised acl_name text_eq has_code any
said acl_read tag false s =
    ReadsBack-of_name tag (codes "READ") _ refl s.no_at s.no_comma refl refl
      (rw (flipped _ s.named) refl)
said acl_write tag false s =
    ReadsBack-of_name tag (codes "WRITE") _ refl s.no_at s.no_comma refl refl
      (rw (flipped _ s.named) refl)
said acl_read tag true s =
    ReadsBack-of_name (codes "everyone") (codes "READ") _ refl refl refl refl refl
      (rw (eq_of_text_eq tag [] s.named) refl)
said acl_write tag true s =
    ReadsBack-of_name (codes "everyone") (codes "WRITE") _ refl refl refl refl refl
      (rw (eq_of_text_eq tag [] s.named) refl)
said unknown_acl tag e s = let h = s.level in cc
said (out_of_range n) tag e s = let h = s.level in cc

-- Entries that the flag can say, printed as its help describes it and separated by commas, are read
-- back in their order.
pub additional_acls-print :
    (acls : List ConfigAcl)
    → ((a : ConfigAcl) → Memᴰ a acls → IsSayable a)
    → additional_acls (print_acls acls) ≡ acls
unfolding additional_acls acls_of_flag_parts print_acls split text_eq
additional_acls-print [] h = refl
additional_acls-print (a ∷ []) h =
    let (reads, whole, some_text) = said a.acl a.tag a.everyone (h a (Memᴰ.head refl)) in
    rw (split_none comma (print_acl a) whole, some_text, reads) refl
additional_acls-print (a ∷ b ∷ more) h =
    let (reads, whole, some_text) = said a.acl a.tag a.everyone (h a (Memᴰ.head refl)) in
    rw
      (
        split_first comma (print_acl a) (print_acls (b ∷ more)) whole,
        some_text,
        reads,
        additional_acls-print (b ∷ more) (λ c m. h c (Memᴰ.tail m)),
      )
      refl
