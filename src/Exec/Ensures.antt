-- ===== src/Exec/Ensures.antt =====
-- Inversion of a chain of fallible steps.
use configfs.Prelude.{◌≡◌, refl, ap, ◌∙◌, sym}
use configfs.Exec.{Result, ok, err, Exec, continue, ◌>>=◌}

module _ {S E A B : Type 0} where
  continue_ok :
      (r : Result E A) (f : A → Exec S E B) (s : S) (b : B)
      → (continue r f s).0 ≡ ok b
      → (a : A) × (r ≡ ok a) × (continue r f s ≡ f a s)
  continue_ok (ok a) f s b h = (a, refl, refl)
  continue_ok (err e) f s b h = cc

  -- A chain that returns has run its first step to a value, and is the rest from there.
  pub bind_ok :
      (m : Exec S E A) (f : A → Exec S E B) (s : S) (b : B)
      → ((m >>= f) s).0 ≡ ok b
      → (a : A) × ((m s).0 ≡ ok a) × ((m >>= f) s ≡ f a (m s).1)
  unfolding ◌>>=◌
  bind_ok m f s b h = continue_ok (m s).0 f (m s).1 b h

  -- The same, with what the rest returns.
  pub bind_rest :
      (m : Exec S E A) (f : A → Exec S E B) (s : S) (b : B)
      → ((m >>= f) s).0 ≡ ok b
      → (a : A) × ((m s).0 ≡ ok a) × ((m >>= f) s ≡ f a (m s).1) × ((f a (m s).1).0 ≡ ok b)
  bind_rest m f s b h =
      let (a, p, q) = bind_ok m f s b h in (a, p, q, ap (λ (o : Result E B × S). o.0) (sym q) ∙ h)
