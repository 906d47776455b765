-- ===== src/State/Laws.antt =====
-- The users of a state: e-mails and UUIDs stay unique.
use mathlib.Core.Path.{subst}
use hydra_ultimate.Base.{
  sym, String, ◌≡◌, ◌≢◌, inl, inr, Bool, false, not, ◌&&◌, none, some, List, [], ◌∷◌, ◌++◌, arith,
  All, str_eq, eq_iff, find, ok, Bool-cases, Option-cases,
}
use hydra_ultimate.State.{UserView, find_user, replace_user, duplicate_uuid, add_user}

module _ {U : Type 0} (view : UserView U) where
  -- No two users share an e-mail or a UUID.
  abbrev pub IsApart : U → U → Type 0
  IsApart a b = (view.email a ≢ view.email b) × (view.uuid a ≢ view.uuid b)

  abbrev pub AreUnique : List U → Type 0
  AreUnique [] = Unit
  AreUnique (user ∷ rest) = All (IsApart user) rest × AreUnique rest

  -- A user found by an e-mail has it.
  pub find_user-email :
      (users : List U) (email : String) (user : U)
      → find_user view users email ≡ some user
      → view.email user ≡ email
  unfolding find_user
  find_user-email [] email user h = cc
  find_user-email (x ∷ users) email user h =
      ground (arith, eq_iff (view.email x) email, find_user-email users email user)

find-none : {A : Type 0} (p : A → Bool) (xs : List A) → find p xs ≡ none → All (λ x. p x ≡ false) xs
find-none p [] h = tt
find-none p (x ∷ xs) h = elim (Bool-cases (p x)) [
  | inl hit ↦ absurd (ground arith)
  | inr miss ↦ (miss, find-none p xs (ground arith))
]

module _ {U : Type 0} (view : UserView U) (user : U) where
  -- The tests of `duplicate_uuid` and of `find_user` fail on `other`.
  abbrev NotSame : U → Type 0
  NotSame other =
      (str_eq (view.uuid other) (view.uuid user)
        && not (str_eq (view.email other) (view.email user)))
      ≡ false

  abbrev NotEmail : U → Type 0
  NotEmail other = str_eq (view.email other) (view.email user) ≡ false

  IsApart-of_tests : (other : U) → NotSame other → NotEmail other → IsApart view other user
  IsApart-of_tests other same mail = (
    λ e. ground (arith, eq_iff (view.email other) (view.email user)),
    λ e. ground (arith, eq_iff (view.uuid other) (view.uuid user)),
  )

  IsApart-sym : (a b : U) → IsApart view a b → IsApart view b a
  IsApart-sym a b h = (λ e. h.0 (sym e), λ e. h.1 (sym e))

  AreUnique-append :
      (users : List U)
      → AreUnique view users
      → All NotSame users
      → All NotEmail users
      → AreUnique view (users ++ user ∷ [])
  AreUnique-append [] u s m = (tt, tt)
  AreUnique-append (x ∷ users) u s m = (snoc users u.0, AreUnique-append users u.1 s.1 m.1)
    where
      snoc : (xs : List U) → All (IsApart view x) xs → All (IsApart view x) (xs ++ user ∷ [])
      snoc [] h = (IsApart-of_tests x s.0 m.0, tt)
      snoc (y ∷ xs) h = (h.0, snoc xs h.1)

  -- Those that are apart from the replaced user are apart from the new one.
  All-replaced :
      (x : U) (rest : List U)
      → view.email x ≡ view.email user
      → All (IsApart view x) rest
      → All NotSame rest
      → All (IsApart view user) rest
  All-replaced x [] e h s = tt
  All-replaced x (y ∷ rest) e h s = (
    IsApart-sym y user
        (IsApart-of_tests y s.0 (ground (arith, eq_iff (view.email y) (view.email user), h.0.0))),
    All-replaced x rest e h.1 s.1,
  )

  All-replace_user :
      (x : U) (users : List U)
      → IsApart view x user
      → All (IsApart view x) users
      → All (IsApart view x) (replace_user view user users)
  unfolding replace_user
  All-replace_user x [] a h = tt
  All-replace_user x (y ∷ users) a h = elim (Bool-cases (str_eq (view.email y) (view.email user))) [
    | inl same ↦ rw same (a, h.1)
    | inr other ↦ rw other (h.0, All-replace_user x users a h.1)
  ]

  replace_user-AreUnique :
      (users : List U)
      → AreUnique view users
      → All NotSame users
      → AreUnique view (replace_user view user users)
  unfolding replace_user
  replace_user-AreUnique [] u s = tt
  replace_user-AreUnique (x ∷ users) u s =
      elim (Bool-cases (str_eq (view.email x) (view.email user))) [
        | inl same ↦ rw same (
          All-replaced x users (ground (arith, eq_iff (view.email x) (view.email user))) u.0 s.1,
          u.1,
        )
        | inr other ↦ rw other (
          All-replace_user x users (IsApart-of_tests x s.0 other) u.0,
          replace_user-AreUnique users u.1 s.1,
        )
      ]

-- Adding a user, whether it is new or replaces the one with its e-mail, keeps e-mails and UUIDs unique.
pub add_user-AreUnique :
    {U : Type 0} (view : UserView U) (users : List U) (user : U) (users' : List U)
    → AreUnique view users
    → add_user view users user ≡ ok users'
    → AreUnique view users'
unfolding add_user duplicate_uuid find_user
add_user-AreUnique view users user users' u h =
    elim (Option-cases (duplicate_uuid view user users)) [
      | inr (other, d) ↦ absurd (ground arith)
      | inl d ↦
          let same =
            find-none
              (λ other.
                str_eq (view.uuid other) (view.uuid user)
                && not (str_eq (view.email other) (view.email user)))
              users d in
          elim (Option-cases (find_user view users (view.email user))) [
            | inl f ↦ subst (AreUnique view) (ground arith) (
                AreUnique-append view user users u same
                  (find-none (λ other. str_eq (view.email other) (view.email user)) users f))
            | inr (found, f) ↦
                subst (AreUnique view) (ground arith)
                  (replace_user-AreUnique view user users u same)
          ]
    ]
