-- ===== src/Transaction/Order.antt =====
-- The order in which a transaction undoes.
use mathlib.Core.List.{Perm}
use hydra_ultimate.Base.{
  ◌≤◌, ◌⊎◌, ◌≡◌, refl, ap, ◌∙◌, true, false, List, [], ◌∷◌, ◌++◌, arith, All, Bool-cases, inl, inr,
  sorted, sorted-perm, sorted-IsOrdered, place, place-append, place_last, IsOrdered,
}
use hydra_ultimate.Base.Int.{ℤ, pos, ltb_ℤ, ◌<ℤ◌, ◌≤ℤ◌}
use hydra_ultimate.Transaction.{RollbackAction, ApplyTransaction, before}

module _ {W : Type 0} where
  before_total : (a b : RollbackAction W) → before a b ≡ false → before b a ≡ true
  unfolding before
  before_total a b h = ground arith

  before_trans :
      (a b c : RollbackAction W) → before a b ≡ true → before b c ≡ true → before a c ≡ true
  unfolding before
  before_trans a b c h k = ground arith

  pub before_of_lt : (a b : RollbackAction W) → b.priority <ℤ a.priority → before a b ≡ false
  unfolding before
  before_of_lt a b h = ground arith

  -- The actions of a transaction in the order in which a rollback runs them.
  abbrev pub schedule : ApplyTransaction W → List (RollbackAction W)
  schedule t = sorted before t.actions

  -- A lower priority, or the same one and a number that is no greater.
  abbrev pub Precedes : RollbackAction W → RollbackAction W → Type 0
  Precedes a b =
      (a.priority <ℤ b.priority) ⊎ ((a.priority ≡ b.priority) × (a.sequence ≤ b.sequence))

  -- Each action precedes all those behind it.
  abbrev pub InOrder : List (RollbackAction W) → Type 0
  InOrder [] = Unit
  InOrder (a ∷ rest) = All (Precedes a) rest × InOrder rest

  Precedes-before : (a b : RollbackAction W) → before a b ≡ true → Precedes a b
  unfolding before
  Precedes-before a b h = elim (Bool-cases (ltb_ℤ a.priority b.priority)) [
    | inl lower ↦ inl (ground arith)
    | inr other ↦ inr (ground arith, ground arith)
  ]

  All-Precedes :
      (a : RollbackAction W) (xs : List (RollbackAction W))
      → All (λ b. before a b ≡ true) xs
      → All (Precedes a) xs
  All-Precedes a [] h = tt
  All-Precedes a (x ∷ xs) h = (Precedes-before a x h.0, All-Precedes a xs h.1)

  IsOrdered-InOrder : (xs : List (RollbackAction W)) → IsOrdered before xs → InOrder xs
  IsOrdered-InOrder [] h = tt
  IsOrdered-InOrder (x ∷ xs) h = (All-Precedes x xs h.0, IsOrdered-InOrder xs h.1)

  -- The schedule of a transaction, which a rollback runs, holds each registered action as often as it
  -- was registered. A lower priority comes first, and of two actions with the same priority the one
  -- with the lower number, which is the one that was registered earlier.
  pub schedule_lem : (t : ApplyTransaction W) → Perm (schedule t) t.actions × InOrder (schedule t)
  schedule_lem t = (
    sorted-perm before t.actions,
    IsOrdered-InOrder (schedule t) (sorted-IsOrdered before before_total before_trans t.actions),
  )

  -- Each action has a lower priority than the one registered before it, and than `bound`.
  abbrev pub Falls : ℤ → List (RollbackAction W) → Type 0
  Falls bound [] = Unit
  Falls bound (a ∷ rest) = (a.priority <ℤ bound) × Falls a.priority rest

  abbrev pub reversed : List (RollbackAction W) → List (RollbackAction W)
  reversed [] = []
  reversed (a ∷ rest) = reversed rest ++ a ∷ []

  pub reversed-append :
      (xs : List (RollbackAction W)) (a : RollbackAction W)
      → reversed (xs ++ a ∷ []) ≡ a ∷ reversed xs
  reversed-append [] a = refl
  reversed-append (x ∷ xs) a = rw (reversed-append xs a)

  pub Falls-append :
      (bound : ℤ) (xs : List (RollbackAction W)) (a : RollbackAction W)
      → Falls bound xs
      → All (λ b. a.priority <ℤ b.priority) xs
      → a.priority <ℤ bound
      → Falls bound (xs ++ a ∷ [])
  Falls-append bound [] a f h p = (p, tt)
  Falls-append bound (x ∷ xs) a f h p = (f.0, Falls-append x.priority xs a f.1 h.1 h.0)

  pub All-append :
      (P : RollbackAction W → Type 0) (xs : List (RollbackAction W)) (y : RollbackAction W)
      → All P xs
      → P y
      → All P (xs ++ y ∷ [])
  All-append P [] y h k = (k, tt)
  All-append P (x ∷ xs) y h k = (h.0, All-append P xs y h.1 k)

  Falls-reversed :
      (a : RollbackAction W) (bound : ℤ) (rest : List (RollbackAction W))
      → bound ≤ℤ a.priority
      → Falls bound rest
      → All (λ b. before a b ≡ false) (reversed rest)
  Falls-reversed a bound [] h f = tt
  Falls-reversed a bound (b ∷ rest) h f =
      All-append (λ c. before a c ≡ false) (reversed rest) b
        (Falls-reversed a b.priority rest (omega arith) f.1) (before_of_lt a b (omega arith))

  pub sorted-Falls :
      (bound : ℤ) (rest : List (RollbackAction W))
      → Falls bound rest
      → sorted before rest ≡ reversed rest
  unfolding sorted
  sorted-Falls bound [] f = refl
  sorted-Falls bound (a ∷ rest) f =
      rw (sorted-Falls a.priority rest f.1)
        (place_last before a (reversed rest) (Falls-reversed a a.priority rest (omega arith) f.1))

  place-first :
      (s c : RollbackAction W)
      → s.priority ≡ pos 20
      → c.priority ≡ pos 30
      → place before s (c ∷ []) ≡ s ∷ c ∷ []
  unfolding place before
  place-first s c hs hc = rw (hs, hc) (ground arith)

  -- Actions registered with falling priorities below those of the skeleton are undone first, the
  -- latest one first; then the state and then the configuration are restored.
  pub sorted-skeleton :
      (s c : RollbackAction W) (rest : List (RollbackAction W))
      → s.priority ≡ pos 20
      → c.priority ≡ pos 30
      → Falls (pos 20) rest
      → sorted before (s ∷ c ∷ rest) ≡ reversed rest ++ s ∷ c ∷ []
  unfolding sorted
  sorted-skeleton s c rest hs hc f = rw (sorted-Falls (pos 20) rest f) (
      rw
        (place_last before c (reversed rest)
          (Falls-reversed c (pos 20) rest (rw hc (omega arith)) f))
        (place-append before s (reversed rest) (c ∷ [])
            (Falls-reversed s (pos 20) rest (rw hs (omega arith)) f)
          ∙ ap (λ xs. reversed rest ++ xs) (place-first s c hs hc)))

  All-place :
      (P : RollbackAction W → Type 0) (a : RollbackAction W) (xs : List (RollbackAction W))
      → P a
      → All P xs
      → All P (place before a xs)
  unfolding place
  All-place P a [] h k = (h, tt)
  All-place P a (x ∷ xs) h k = elim (Bool-cases (before a x)) [
    | inl yes_before ↦ rw yes_before (h, k)
    | inr not_before ↦ rw not_before (k.0, All-place P a xs h k.1)
  ]

  All-sorted :
      (P : RollbackAction W → Type 0) (xs : List (RollbackAction W))
      → All P xs
      → All P (sorted before xs)
  unfolding sorted
  All-sorted P [] h = tt
  All-sorted P (x ∷ xs) h = All-place P x (sorted before xs) h.0 (All-sorted P xs h.1)

  -- Has a lower priority than the skeleton, which restores the state.
  abbrev pub IsLow : RollbackAction W → Type 0
  IsLow a = a.priority <ℤ pos 20

  IsLow-behind :
      (s : RollbackAction W) (xs : List (RollbackAction W))
      → pos 20 ≤ℤ s.priority
      → All IsLow xs
      → All (λ b. before s b ≡ false) xs
  IsLow-behind s [] h k = tt
  IsLow-behind s (x ∷ xs) h k = (before_of_lt s x (omega arith), IsLow-behind s xs h k.1)

  -- Actions below the skeleton run first, in whatever order, and then the skeleton.
  pub sorted-low :
      (s c : RollbackAction W) (rest : List (RollbackAction W))
      → s.priority ≡ pos 20
      → c.priority ≡ pos 30
      → All IsLow rest
      → sorted before (s ∷ c ∷ rest) ≡ sorted before rest ++ s ∷ c ∷ []
  unfolding sorted
  sorted-low s c rest hs hc low =
      let behind = All-sorted IsLow rest low in
      rw
        (place_last before c (sorted before rest)
          (IsLow-behind c (sorted before rest) (rw hc (omega arith)) behind))
        (place-append before s (sorted before rest) (c ∷ [])
            (IsLow-behind s (sorted before rest) (rw hs (omega arith)) behind)
          ∙ ap (λ xs. sorted before rest ++ xs) (place-first s c hs hc))
