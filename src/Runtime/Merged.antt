-- ===== src/Runtime/Merged.antt =====
-- What a merge keeps: traffic that was counted and devices that were bound meanwhile.
use hydra_ultimate.Base.{
  max, String, ◌≡◌, refl, Bool, true, false, not, ◌&&◌, ◌||◌, Option, none, some, List, [], ◌∷◌,
  arith, if◌then◌else◌, contains, ok, Gives, Gives-and_then, Gives-map, Gives-all, Gives-any, inl,
  ◌⊎◌, inr,
}
use hydra_ultimate.Base.Dict.{Dict, has_key}
use hydra_ultimate.Base.Value.{Value}
use hydra_ultimate.State.{AppState, User}
use hydra_ultimate.Runtime.{
  update, merge_credentials, merge_user, last_user, merge_users, merge_found, all_protocols,
  with_merged, merge_runtime_state, reset_emails,
}
use hydra_ultimate.Runtime.Totals.{has_key-update, total_in, NotBelow, merge_credentials-NotBelow}

-- What a user keeps of the counters and devices that the latest copy of the user has.
pub record Keeps (reset device_reset : Bool) (current user merged : User) : Type 0 where
  pub used : merged.traffic_used_bytes ≡ (
      if reset
      then current.traffic_used_bytes
      else max user.traffic_used_bytes current.traffic_used_bytes)
  pub totals :
      (protocol : String)
      → (reset ≡ true)
        ⊎ (NotBelow (total_in protocol current.credentials) (total_in protocol merged.credentials)
            × NotBelow (total_in protocol user.credentials) (total_in protocol merged.credentials))
  pub bound :
      (device : String)
      → has_key device merged.devices
        ≡ (has_key device user.devices || (not device_reset && has_key device current.devices))

module _ (resets device_resets : List String) where
  bound-merge :
      (reset : Bool) (device : String) (user current : Dict (Dict String))
      → has_key device (if reset then user else update user current)
        ≡ (has_key device user || (not reset && has_key device current))
  bound-merge true device user current = ground arith
  bound-merge false device user current = has_key-update device user current

  totals-merge :
      (reset : Bool) (current user : Dict (Dict Value))
      → Gives
          (λ credentials.
            (p : String)
            → (reset ≡ true)
              ⊎ (NotBelow (total_in p current) (total_in p credentials)
                  × NotBelow (total_in p user) (total_in p credentials)))
          (merge_credentials reset current (all_protocols current user) user)
  totals-merge true current user =
      Gives-map (merge_credentials true current (all_protocols current user) user)
        (Gives-any (merge_credentials true current (all_protocols current user) user))
        (λ credentials _ p. inl refl)
  totals-merge false current user =
      Gives-all
        (λ p credentials.
          (◌≡◌ {A = Bool} false true)
          ⊎ (NotBelow (total_in p current) (total_in p credentials)
              × NotBelow (total_in p user) (total_in p credentials)))
        (merge_credentials false current (all_protocols current user) user)
        (λ p.
          Gives-map (merge_credentials false current (all_protocols current user) user)
            (merge_credentials-NotBelow current user p) (λ credentials h. inr h))

  merge_user-Keeps :
      (current user : User)
      → Gives
          (Keeps (contains user.email resets) (contains user.uuid device_resets) current user)
          (merge_user resets device_resets current user)
  unfolding merge_user
  merge_user-Keeps current user =
      Gives-and_then
        (Keeps (contains user.email resets) (contains user.uuid device_resets) current user)
        (λ credentials.
          (p : String)
          → (contains user.email resets ≡ true)
            ⊎ (NotBelow (total_in p current.credentials) (total_in p credentials)
                × NotBelow (total_in p user.credentials) (total_in p credentials)))
        (merge_credentials (contains user.email resets) current.credentials
          (all_protocols current.credentials user.credentials) user.credentials)
        (λ credentials. ok (
          with_merged (contains user.email resets) (contains user.uuid device_resets) current user
            credentials))
        (totals-merge (contains user.email resets) current.credentials user.credentials)
        (λ credentials h. record {
          used = refl;
          totals = h;
          bound = λ device.
              bound-merge (contains user.uuid device_resets) device user.devices current.devices;
        })

-- Each merged user keeps what the latest copy of the user has, if there is one, and stays as it is
-- otherwise.
abbrev pub KeptBy : List String → List String → Option User → User → User → Type 0
KeptBy resets device_resets none user merged = merged ≡ user
KeptBy resets device_resets (some current) user merged =
    Keeps (contains user.email resets) (contains user.uuid device_resets) current user merged

abbrev pub AllKeep : List String → List String → List User → List User → List User → Type 0
AllKeep resets device_resets latest [] [] = Unit
AllKeep resets device_resets latest [] (m ∷ ms) = ⊥
AllKeep resets device_resets latest (u ∷ us) [] = ⊥
AllKeep resets device_resets latest (u ∷ us) (m ∷ ms) =
    KeptBy resets device_resets (last_user u.email latest) u m
    × AllKeep resets device_resets latest us ms

module _ (resets device_resets : List String) where
  merge_found-KeptBy :
      (user : User) (found : Option User)
      → Gives (KeptBy resets device_resets found user) (merge_found resets device_resets user found)
  merge_found-KeptBy user none = refl
  merge_found-KeptBy user (some current) = merge_user-Keeps resets device_resets current user

  merge_users-AllKeep :
      (latest users : List User)
      → Gives
          (AllKeep resets device_resets latest users)
          (merge_users resets device_resets latest users)
  unfolding merge_users
  merge_users-AllKeep latest [] = tt
  merge_users-AllKeep latest (user ∷ rest) =
      let found = last_user user.email latest in
      Gives-and_then (AllKeep resets device_resets latest (user ∷ rest))
        (KeptBy resets device_resets found user) (merge_found resets device_resets user found) _
        (merge_found-KeptBy user found)
        (λ merged kept.
          Gives-and_then (AllKeep resets device_resets latest (user ∷ rest))
            (AllKeep resets device_resets latest rest)
            (merge_users resets device_resets latest rest) _ (merge_users-AllKeep latest rest)
            (λ others h. (kept, h)))

-- Merging in the latest state loses nothing that was observed meanwhile: for each user that it has too,
-- unless the user's traffic was reset, the total becomes the larger one and no counter of a protocol
-- falls, on either side, and unless the devices were reset, just those devices are bound that either
-- copy binds.
pub merge_runtime_state-Keeps :
    (state latest : AppState User) (device_resets : List String)
    → Gives
        (λ merged.
          AllKeep (reset_emails latest.install) device_resets latest.users state.users merged.users)
        (merge_runtime_state state latest device_resets)
unfolding merge_runtime_state
merge_runtime_state-Keeps state latest device_resets =
    Gives-and_then
      (λ merged.
        AllKeep (reset_emails latest.install) device_resets latest.users state.users merged.users)
      (AllKeep (reset_emails latest.install) device_resets latest.users state.users)
      (merge_users (reset_emails latest.install) device_resets latest.users state.users) _
      (merge_users-AllKeep (reset_emails latest.install) device_resets latest.users state.users)
      (λ users h. h)
