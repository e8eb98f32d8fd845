-- ===== src/Store/Numbers/Keys.antt =====
-- Rows whose ids are different and at most a counter.
use mathlib.Core.List
use configfs.Prelude.{
  ℕ, ℤ, pos, negsuc, ◌≤◌, ◌<◌, ◌≡◌, ◌≢◌, sym, ap, ◌∙◌, inl, inr, Bool, List, [], ◌∷◌, ◌++◌, map,
  Memᴰ, arith, keep, mem_of_keep,
}

-- An id that the counter has given out
abbrev pub IsGiven : ℤ → ℕ → Type 0
IsGiven (pos n) k = n ≤ k
IsGiven (negsuc n) k = ⊥

IsGiven-mono : (n : ℤ) (k l : ℕ) → k ≤ l → IsGiven n k → IsGiven n l
IsGiven-mono (pos n) k l h g = omega arith
IsGiven-mono (negsuc n) k l h g = g

pub IsGiven-ne : (n : ℤ) (k l : ℕ) → IsGiven n k → k < l → n ≢ pos l
IsGiven-ne (pos n) k l g h e = let same : n ≡ l = cc in omega arith
IsGiven-ne (negsuc n) k l g h e = g

module _ {A : Type 0} (key : A → ℤ) where
  pub record Numbered (k : ℕ) (rows : List A) : Type 0 where
    pub given : (r : A) → Memᴰ r rows → IsGiven (key r) k
    pub one : (r s : A) → Memᴰ r rows → Memᴰ s rows → key r ≡ key s → r ≡ s

module _ {A : Type 0} {key : A → ℤ} where
  pub Numbered-mono : (k l : ℕ) (rows : List A) → k ≤ l → Numbered key k rows → Numbered key l rows
  Numbered-mono k l rows h n = record {
    given = λ r m. IsGiven-mono (key r) k l h (n.given r m);
    one = n.one;
  }

  pub Numbered-keep :
      (k : ℕ) (p : A → Bool) (rows : List A) → Numbered key k rows → Numbered key k (keep p rows)
  Numbered-keep k p rows n = record {
    given = λ r m. n.given r (mem_of_keep p rows r m).0;
    one = λ r s m i. n.one r s (mem_of_keep p rows r m).0 (mem_of_keep p rows s i).0;
  }

  pub Numbered-map :
      (k : ℕ) (f : A → A) (rows : List A)
      → ((r : A) → key (f r) ≡ key r)
      → Numbered key k rows
      → Numbered key k (map f rows)
  Numbered-map k f rows h n = record {
    given = λ r m. let (a, i, e) = List.Memᴰ.of_map f rows m in rw (← e, h) (n.given a i);
    one = λ r s m i q.
        let (a, j, e) = List.Memᴰ.of_map f rows m in
        let (b, l, d) = List.Memᴰ.of_map f rows i in
        sym e ∙ ap f (n.one a b j l (sym (h a) ∙ ap key e ∙ q ∙ ap key (sym d) ∙ h b)) ∙ d;
  }

  -- A row with a later id
  pub Numbered-add :
      (k l : ℕ) (rows : List A) (r : A)
      → key r ≡ pos l
      → k < l
      → Numbered key k rows
      → Numbered key l (rows ++ r ∷ [])
  Numbered-add k l rows r e h n = record {
    given = λ s m. elim (List.Memᴰ.append_cases rows m) [
      | inl old ↦ IsGiven-mono (key s) k l (omega arith) (n.given s old)
      | inr new ↦ rw (List.Memᴰ.eq_of_singleton new, e) (omega arith)
    ];
    one = λ s t m i q. elim (List.Memᴰ.append_cases rows m) [
      | inl old ↦ elim (List.Memᴰ.append_cases rows i) [
        | inl old_t ↦ n.one s t old old_t q
        | inr new_t ↦ absurd (
            IsGiven-ne (key s) k l (n.given s old) h
              (q ∙ ap key (List.Memᴰ.eq_of_singleton new_t) ∙ e))
      ]
      | inr new ↦ elim (List.Memᴰ.append_cases rows i) [
        | inl old_t ↦ absurd (
            IsGiven-ne (key t) k l (n.given t old_t) h
              (sym q ∙ ap key (List.Memᴰ.eq_of_singleton new) ∙ e))
        | inr new_t ↦ List.Memᴰ.eq_of_singleton new ∙ sym (List.Memᴰ.eq_of_singleton new_t)
      ]
    ];
  }
