-- ===== src/Plugins/Authorized.antt =====
-- What a plugin is shown of the users.
use hydra_ultimate.Base.{
  ◌≡◌, refl, Bool, true, not, ◌&&◌, ◌||◌, List, [], ◌∷◌, arith, All, keep, length, length-keep-le,
  str_eq, contains, if◌then◌else◌, Bool-cases, inl, inr,
}
use hydra_ultimate.State.{AppState, User, user_can_use}
use hydra_ultimate.Plugins.{
  PluginMeta, same_category, transport, shares_credentials, authorized_state,
}

module _ {A : Type 0} (p : A → Bool) where
  keep-All : (xs : List A) → All (λ x. p x ≡ true) (keep p xs)
  keep-All [] = tt
  keep-All (x ∷ xs) = ground (arith, keep-All xs)

  -- A filter that drops nothing by number drops nothing.
  keep_same_length : (xs : List A) → length (keep p xs) ≡ length xs → keep p xs ≡ xs
  keep_same_length [] h = refl
  keep_same_length (x ∷ xs) h = ground (arith, keep_same_length xs, length-keep-le p xs)

-- A plugin of another kind than a transport, and the two transports whose users share one credential,
-- are shown all users. Every other transport is shown those users that are not blocked and have not
-- disabled it, and no others, in their order, whether or not the number of users is unchanged.
pub authorized_exactly :
    (m : PluginMeta) (state : AppState User)
    → (authorized_state m state).users ≡ (
        if not (same_category m.category transport) || str_eq m.name "wdtt" || str_eq m.name "snell"
        then state.users
        else keep
            (λ user. not user.blocked && not (contains m.name user.disabled_protocols))
            state.users)
unfolding authorized_state user_can_use
authorized_exactly m state = elim (Bool-cases (shares_credentials m)) [
  | inl shared ↦ rw shared refl
  | inr own ↦ rw own (
      ground (
        arith,
        keep_same_length (λ user. not user.blocked && not (contains m.name user.disabled_protocols))
            state.users,
      ))
]
