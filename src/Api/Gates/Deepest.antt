-- ===== src/Api/Gates/Deepest.antt =====
-- deepestExistingAncestor of internal/api/server.go.
use configfs.Prelude.{
  ℕ, ◌≤◌, ◌≡◌, refl, ◌⊎◌, inl, inr, ltb, List, [], ◌∷◌, Memᴰ, none, some, arith, Bool-cases,
}
use configfs.Strings.{byte_len}
use configfs.Proto.{Directory, full_path}
use configfs.Api.Gates.{deeper, deepest_from, deepest_existing_ancestor}

abbrev pub bytes_of : Directory → ℕ
bytes_of d = byte_len (full_path d)

-- The best of a start and a list: one of them, and none of them is longer.
record IsBest (best : Directory) (ds : List Directory) (d : Directory) : Type 0 where
  among : (d ≡ best) ⊎ Memᴰ d ds
  beats : bytes_of best ≤ bytes_of d
  longest : (e : Directory) → Memᴰ e ds → bytes_of e ≤ bytes_of d

deepest_from-IsBest :
    (best : Directory) (ds : List Directory)
    → (d : Directory) × (deepest_from (some best) ds ≡ some d) × IsBest best ds d
unfolding deepest_from deeper
deepest_from-IsBest best [] =
    (best, refl, record { among = inl refl; beats = omega arith; longest = λ e m. elim m [ ] })
deepest_from-IsBest best (x ∷ ds) = elim (Bool-cases (ltb (bytes_of best) (bytes_of x))) [
  | inl longer ↦
      let (d, e, b) = deepest_from-IsBest x ds in
      (
        d,
        rw longer e,
        record {
          among = elim b.among [ inl p ↦ inr (Memᴰ.head p) | inr i ↦ inr (Memᴰ.tail i) ];
          beats = ground (arith, longer, b.beats);
          longest = λ y m. elim m [ Memᴰ.head p ↦ rw p b.beats | Memᴰ.tail i ↦ b.longest y i ];
        },
      )
  | inr no_longer ↦
      let (d, e, b) = deepest_from-IsBest best ds in
      (
        d,
        rw no_longer e,
        record {
          among = elim b.among [ inl p ↦ inl p | inr i ↦ inr (Memᴰ.tail i) ];
          beats = b.beats;
          longest = λ y m. elim m [
            | Memᴰ.head p ↦ rw p (ground (arith, no_longer, b.beats))
            | Memᴰ.tail i ↦ b.longest y i
          ];
        },
      )
]

-- The deepest directory of a chain is one of it with the longest full path, and an empty chain has
-- none.
pub deepest-longest :
    (chain : List Directory)
    → ((chain ≡ []) × (deepest_existing_ancestor chain ≡ none))
      ⊎ ((d : Directory) × (deepest_existing_ancestor chain ≡ some d)
          × Memᴰ d chain
          × ((e : Directory) → Memᴰ e chain → bytes_of e ≤ bytes_of d))
unfolding deepest_existing_ancestor deepest_from deeper
deepest-longest [] = inl (refl, refl)
deepest-longest (x ∷ ds) =
    let (d, e, b) = deepest_from-IsBest x ds in
    inr (
      d,
      e,
      elim b.among [ inl p ↦ Memᴰ.head p | inr i ↦ Memᴰ.tail i ],
      λ y m. elim m [ Memᴰ.head p ↦ rw p b.beats | Memᴰ.tail i ↦ b.longest y i ],
    )
