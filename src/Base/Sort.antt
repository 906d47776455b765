-- ===== src/Base/Sort.antt =====
-- Python's `sorted`: a stable insertion sort by a test `before`, which says that its first argument
-- may stand in front of its second.
use mathlib.Core.Path.{◌≡◌, refl}
use mathlib.Core.Logic.{inl, inr}
use mathlib.Core.Bool.{Bool, true, false}
use mathlib.Core.List.{List, [], ◌∷◌, ◌++◌, Perm}
use mathlib.Core.List.Perm
use hydra_ultimate.Base.Tests.{if◌then◌else◌, Bool-cases}
use hydra_ultimate.Base.Lists.{All}

module _ {ℓ} {A : Type ℓ} (before : A → A → Bool) where
  unfoldable pub place : A → List A → List A
  place a [] = a ∷ []
  place a (b ∷ bs) = let rest = place a bs in if before a b then a ∷ b ∷ bs else b ∷ rest

  unfoldable pub sorted : List A → List A
  unfolding place
  sorted [] = []
  sorted (a ∷ xs) = place a (sorted xs)

  place-perm : (a : A) (bs : List A) → Perm (place a bs) (a ∷ bs)
  unfolding place
  place-perm a [] = Perm.refl (a ∷ [])
  place-perm a (b ∷ bs) = elim (Bool-cases (before a b)) [
    | inl h ↦ rw h (Perm.refl (a ∷ b ∷ bs))
    | inr h ↦ rw h (Perm.trans (Perm.cons b (place-perm a bs)) (Perm.swap a b bs))
  ]

  pub sorted-perm : (xs : List A) → Perm (sorted xs) xs
  unfolding sorted
  sorted-perm [] = Perm.refl []
  sorted-perm (a ∷ xs) = Perm.trans (place-perm a (sorted xs)) (Perm.cons a (sorted-perm xs))

  -- An element goes behind all those that it may not stand in front of.
  pub place-append :
      (a : A) (bs cs : List A)
      → All (λ b. before a b ≡ false) bs
      → place a (bs ++ cs) ≡ bs ++ place a cs
  unfolding place
  place-append a [] cs h = refl
  place-append a (b ∷ bs) cs h = rw (h.0, place-append a bs cs h.1)

  pub place_last :
      (a : A) (bs : List A) → All (λ b. before a b ≡ false) bs → place a bs ≡ bs ++ a ∷ []
  unfolding place
  place_last a [] h = refl
  place_last a (b ∷ bs) h = rw (h.0, place_last a bs h.1)

  -- Each element may stand in front of all that follow.
  abbrev pub IsOrdered : List A → Type 0
  IsOrdered [] = Unit
  IsOrdered (a ∷ xs) = All (λ b. before a b ≡ true) xs × IsOrdered xs

  module _ (total : (a b : A) → before a b ≡ false → before b a ≡ true)
      (transitive : (a b c : A) → before a b ≡ true → before b c ≡ true → before a c ≡ true) where
    All-weaken :
        (a b : A) (cs : List A)
        → before a b ≡ true
        → All (λ c. before b c ≡ true) cs
        → All (λ c. before a c ≡ true) cs
    All-weaken a b [] h hs = tt
    All-weaken a b (c ∷ cs) h hs = (transitive a b c h hs.0, All-weaken a b cs h hs.1)

    All-place :
        (b a : A) (cs : List A)
        → before b a ≡ true
        → All (λ c. before b c ≡ true) cs
        → All (λ c. before b c ≡ true) (place a cs)
    unfolding place
    All-place b a [] h hs = (h, tt)
    All-place b a (c ∷ cs) h hs = elim (Bool-cases (before a c)) [
      | inl e ↦ rw e (h, hs)
      | inr e ↦ rw e (hs.0, All-place b a cs h hs.1)
    ]

    place-IsOrdered : (a : A) (bs : List A) → IsOrdered bs → IsOrdered (place a bs)
    unfolding place
    place-IsOrdered a [] h = (tt, tt)
    place-IsOrdered a (b ∷ bs) h = elim (Bool-cases (before a b)) [
      | inl e ↦ rw e ((e, All-weaken a b bs e h.0), h)
      | inr e ↦ rw e (All-place b a bs (total a b e) h.0, place-IsOrdered a bs h.1)
    ]

    pub sorted-IsOrdered : (xs : List A) → IsOrdered (sorted xs)
    unfolding sorted
    sorted-IsOrdered [] = tt
    sorted-IsOrdered (a ∷ xs) = place-IsOrdered a (sorted xs) (sorted-IsOrdered xs)
