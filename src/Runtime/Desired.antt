-- ===== src/Runtime/Desired.antt =====
-- What a merge with the latest state leaves of the desired configuration.
use hydra_ultimate.Base.{
  String, ◌≡◌, refl, ap, ◌∙◌, Bool, true, false, ◌||◌, Option, none, some, List, [], ◌∷◌, map, All,
  arith, eq_iff, str_eq, contains, Gives, Gives-and_then, Gives-map, Gives-any, Bool-cases,
  Option-cases, inl, inr,
}
use hydra_ultimate.Base.Int.{ℤ, ltb_ℤ}
use hydra_ultimate.Base.Dict.{Dict, lookup, insert, erase}
use hydra_ultimate.Base.Value.{Value}
use hydra_ultimate.State.{AppState, User}
use hydra_ultimate.Runtime.{
  is_traffic, used_key, last_key, without_traffic, only_traffic, desired_credentials, desired_user,
  desired_install, desired_payload, update, total_of, copy_others, adopt, merge_stats,
  merge_credentials, merge_user, last_user, merge_users, merge_install, with_values, merge_found,
  set_or_pop, all_protocols, or_empty, merge_runtime_state, runtime_install_keys, reset_emails,
}

without_traffic-insert :
    (key : String) (v : Value) (d : Dict Value)
    → is_traffic key ≡ true
    → without_traffic (insert key v d) ≡ without_traffic d
unfolding without_traffic insert
without_traffic-insert key v [] h = ground arith
without_traffic-insert key v ((j, w) ∷ d) h =
    ground (arith, eq_iff j key, without_traffic-insert key v d)

without_traffic-erased : (d : Dict Value) → without_traffic (without_traffic d) ≡ without_traffic d
unfolding without_traffic
without_traffic-erased [] = refl
without_traffic-erased ((k, v) ∷ d) = ground (arith, without_traffic-erased d)

without_traffic-update :
    (source target : Dict Value)
    → without_traffic (update (only_traffic source) target) ≡ without_traffic target
unfolding update only_traffic
without_traffic-update [] target = refl
without_traffic-update ((k, v) ∷ source) target = elim (Bool-cases (is_traffic k)) [
  | inl h ↦
      rw (h, update)
        (without_traffic-update source (insert k v target) ∙ without_traffic-insert k v target h)
  | inr h ↦ rw h (without_traffic-update source target)
]

without_traffic-copy_others :
    (current target : Dict Value)
    → without_traffic (copy_others current target) ≡ without_traffic target
unfolding copy_others
without_traffic-copy_others [] target = refl
without_traffic-copy_others ((k, v) ∷ current) target = elim (Bool-cases (is_traffic k)) [
  | inr h ↦ rw h (without_traffic-copy_others current target)
  | inl h ↦ elim (Bool-cases (str_eq k used_key || str_eq k last_key)) [
    | inl own ↦ rw (h, own) (without_traffic-copy_others current target)
    | inr other ↦
        rw (h, other)
          (without_traffic-copy_others current (insert k v target)
            ∙ without_traffic-insert k v target h)
  ]
]

used_key-is_traffic : is_traffic used_key ≡ true
unfolding is_traffic
used_key-is_traffic = refl

last_key-is_traffic : is_traffic last_key ≡ true
unfolding is_traffic
last_key-is_traffic = refl

without_traffic-adopt :
    (total : ℤ) (current target : Dict Value)
    → without_traffic (adopt total current target) ≡ without_traffic target
unfolding adopt
without_traffic-adopt total current target = elim (Option-cases (lookup last_key current)) [
  | inl missing ↦ rw missing (
      without_traffic-copy_others current (insert used_key (Value.int total) target)
      ∙ without_traffic-insert used_key (Value.int total) target used_key-is_traffic)
  | inr (v, e) ↦ rw e (
      without_traffic-copy_others current
        (insert last_key v (insert used_key (Value.int total) target))
      ∙ without_traffic-insert last_key v (insert used_key (Value.int total) target)
          last_key-is_traffic
      ∙ without_traffic-insert used_key (Value.int total) target used_key-is_traffic)
]

merge_stats-same :
    (reset : Bool) (current target : Dict Value)
    → Gives
        (λ stats. without_traffic stats ≡ without_traffic target)
        (merge_stats reset current target)
unfolding merge_stats
merge_stats-same true current target =
    without_traffic-update current (without_traffic target) ∙ without_traffic-erased target
merge_stats-same false current target =
    Gives-and_then (λ stats. without_traffic stats ≡ without_traffic target) (λ z. Unit {0})
      (total_of current) _ (Gives-any (total_of current))
      (λ current_total _.
        Gives-and_then (λ stats. without_traffic stats ≡ without_traffic target) (λ z. Unit {0})
          (total_of target) _ (Gives-any (total_of target))
          (λ target_total _. elim (Bool-cases (ltb_ℤ current_total target_total)) [
            | inl h ↦ rw h refl
            | inr h ↦ rw h (without_traffic-adopt current_total current target)
          ]))

desired_credentials-insert :
    (protocol : String) (stats : Dict Value) (credentials : Dict (Dict Value))
    → without_traffic stats ≡ without_traffic (or_empty (lookup protocol credentials))
    → desired_credentials (insert protocol stats credentials) ≡ desired_credentials credentials
unfolding desired_credentials lookup insert without_traffic
desired_credentials-insert protocol stats [] h = rw h refl
desired_credentials-insert protocol stats ((other, values) ∷ rest) h =
    elim (Bool-cases (str_eq other protocol)) [
      | inl same ↦ rw (same, same_values same) refl
      | inr apart ↦ rw apart (
          ap (with_values other (without_traffic values))
            (desired_credentials-insert protocol stats rest (others apart)))
    ]
  where
    same_values : str_eq other protocol ≡ true → without_traffic stats ≡ without_traffic values
    same_values e = h ∙ rw e refl

    others :
        str_eq other protocol ≡ false
        → without_traffic stats ≡ without_traffic (or_empty (lookup protocol rest))
    others e = h ∙ rw e refl

merge_credentials-same :
    (reset : Bool) (current : Dict (Dict Value)) (protocols : List String)
    (credentials : Dict (Dict Value))
    → Gives
        (λ merged. desired_credentials merged ≡ desired_credentials credentials)
        (merge_credentials reset current protocols credentials)
unfolding merge_credentials
merge_credentials-same reset current [] credentials = refl
merge_credentials-same reset current (protocol ∷ rest) credentials =
    let target = or_empty (lookup protocol credentials) in
    Gives-and_then (λ merged. desired_credentials merged ≡ desired_credentials credentials)
      (λ stats. without_traffic stats ≡ without_traffic target)
      (merge_stats reset (or_empty (lookup protocol current)) target) _
      (merge_stats-same reset (or_empty (lookup protocol current)) target)
      (λ stats e.
        Gives-map (merge_credentials reset current rest (insert protocol stats credentials))
          (merge_credentials-same reset current rest (insert protocol stats credentials))
          (λ merged f. f ∙ desired_credentials-insert protocol stats credentials e))

merge_user-same :
    (resets device_resets : List String) (current user : User)
    → Gives
        (λ merged. desired_user merged ≡ desired_user user)
        (merge_user resets device_resets current user)
unfolding merge_user desired_user
merge_user-same resets device_resets current user =
    Gives-and_then (λ merged. desired_user merged ≡ desired_user user)
      (λ merged. desired_credentials merged ≡ desired_credentials user.credentials) _ _
      (merge_credentials-same (contains user.email resets) current.credentials
        (all_protocols current.credentials user.credentials) user.credentials)
      (λ credentials e.
        ap
          (λ (c : Dict (Dict Value)). record user {
            traffic_used_bytes = 0;
            devices = [];
            credentials = c;
          })
          e)

pub merge_found-same :
    (resets device_resets : List String) (user : User) (found : Option User)
    → Gives
        (λ merged. desired_user merged ≡ desired_user user)
        (merge_found resets device_resets user found)
merge_found-same resets device_resets user none = refl
merge_found-same resets device_resets user (some current) =
    merge_user-same resets device_resets current user

merge_users-same :
    (resets device_resets : List String) (latest users : List User)
    → Gives
        (λ merged. map desired_user merged ≡ map desired_user users)
        (merge_users resets device_resets latest users)
unfolding merge_users
merge_users-same resets device_resets latest [] = refl
merge_users-same resets device_resets latest (user ∷ rest) =
    let same = λ (merged : List User). map desired_user merged ≡ map desired_user (user ∷ rest) in
    Gives-and_then same (λ merged. desired_user merged ≡ desired_user user)
      (merge_found resets device_resets user (last_user user.email latest)) _
      (merge_found-same resets device_resets user (last_user user.email latest))
      (λ merged e.
        Gives-and_then same (λ others. map desired_user others ≡ map desired_user rest)
          (merge_users resets device_resets latest rest) _
          (merge_users-same resets device_resets latest rest) (λ others f. rw (e, f) refl))

module _ (key : String) (runtime : contains key runtime_install_keys ≡ true) where
  desired_install-insert :
      (v : Value) (d : Dict Value) → desired_install (insert key v d) ≡ desired_install d
  unfolding desired_install insert
  desired_install-insert v [] = rw runtime refl
  desired_install-insert v ((j, w) ∷ d) = elim (Bool-cases (str_eq j key)) [
    | inr apart ↦ rw (apart, desired_install-insert v d) refl
    | inl same ↦ rw (same, (eq_iff j key).0 same, runtime) refl
  ]

  desired_install-erase : (d : Dict Value) → desired_install (erase key d) ≡ desired_install d
  unfolding desired_install erase
  desired_install-erase [] = refl
  desired_install-erase ((j, w) ∷ d) = elim (Bool-cases (str_eq j key)) [
    | inr apart ↦ rw (apart, desired_install-erase d) refl
    | inl same ↦ rw (same, (eq_iff j key).0 same, runtime) (desired_install-erase d)
  ]

  desired_install-set_or_pop :
      (o : Option Value) (d : Dict Value) → desired_install (set_or_pop key o d) ≡ desired_install d
  desired_install-set_or_pop none d = desired_install-erase d
  desired_install-set_or_pop (some v) d = desired_install-insert v d

merge_install-same :
    (names : List String) (latest install : Dict Value)
    → All (λ key. contains key runtime_install_keys ≡ true) names
    → desired_install (merge_install names latest install) ≡ desired_install install
unfolding merge_install
merge_install-same [] latest install h = refl
merge_install-same (key ∷ rest) latest install h =
    merge_install-same rest latest (set_or_pop key (lookup key latest) install) h.1
    ∙ desired_install-set_or_pop key h.0 (lookup key latest) install

All-runtime : All (λ key. contains key runtime_install_keys ≡ true) runtime_install_keys
All-runtime = ground arith

-- Merging in the latest observations leaves the desired configuration of the state as it is, and its
-- revision.
pub merge_runtime_state-desired :
    (state latest : AppState User) (device_resets : List String)
    → Gives
        (λ merged.
          (desired_payload merged ≡ desired_payload state) × (merged.revision ≡ state.revision))
        (merge_runtime_state state latest device_resets)
unfolding merge_runtime_state desired_payload
merge_runtime_state-desired state latest device_resets =
    Gives-and_then
      (λ merged.
        (desired_payload merged ≡ desired_payload state) × (merged.revision ≡ state.revision))
      (λ users. map desired_user users ≡ map desired_user state.users) _ _
      (merge_users-same (reset_emails latest.install) device_resets latest.users state.users)
      (λ users e. (
        rw (e, merge_install-same runtime_install_keys latest.install state.install All-runtime)
            refl,
        refl,
      ))
