-- ===== src/Plugins/Ends.antt =====
-- How a step of hydra/plugins/executor.py ends: with a result, or with an error and the runtime that
-- `view` shows as it was at the start.
use hydra_ultimate.Base.{◌≡◌, refl, Result, ok, err, Exec, Exception, try_except, ◌>>=◌}

module _ {W V : Type 0} (view : W → V) (start : V) where
  -- An end by an error is back at the start; any other end satisfies `R`.
  abbrev pub Ends : {A : Type 0} → (A → W → Type 0) → Result A × W → Type 0
  Ends R (ok a, w) = R a w
  Ends R (err exc, w) = view w ≡ start

  pub bind-Ends :
      {A B : Type 0} (R : A → W → Type 0) (R' : B → W → Type 0) (m : Exec W A) (f : A → Exec W B)
      (w : W)
      → Ends R (m w)
      → ((a : A) (w' : W) → R a w' → Ends R' (f a w'))
      → Ends R' ((m >>= f) w)
  bind-Ends {A} {B} R R' m f w h k = go (m w) h
    where
      go :
          (x : Result A × W)
          → Ends R x
          → Ends R' (elim x.0 as (λ y. Result B × W) [ ok a ↦ f a x.1 | err e ↦ (err e, x.1) ])
      go (ok a, w') r = k a w' r
      go (err e, w') r = r

  pub try-Ends :
      {A : Type 0} (R : A → W → Type 0) (m : Exec W A) (handler : Exception → Exec W A) (w : W)
      → ((a : A) → m w ≡ (ok a, (m w).1) → R a (m w).1)
      → ((exc : Exception) → Ends R (handler exc (m w).1))
      → Ends R (try_except m handler w)
  try-Ends {A} R m handler w h k = go (m w) h k
    where
      go :
          (x : Result A × W)
          → ((a : A) → x ≡ (ok a, x.1) → R a x.1)
          → ((exc : Exception) → Ends R (handler exc x.1))
          → Ends R (elim x.0 as (λ y. Result A × W) [ ok a ↦ (ok a, x.1) | err e ↦ handler e x.1 ])
      go (ok a, w') h' k' = h' a refl
      go (err e, w') h' k' = k' e
