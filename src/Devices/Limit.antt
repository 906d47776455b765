-- ===== src/Devices/Limit.antt =====
-- The device limit of a subscription.
use hydra_ultimate.Base.{
  ◌+◌, ◌≤◌, ◌<◌, max, String, ◌≡◌, refl, ◌∙◌, ◌⊎◌, Bool, true, false, Option, List, [], ◌∷◌, arith,
  eq_refl, if◌then◌else◌, keep, length, Bool-cases, inl, inr, contains,
}
use hydra_ultimate.Base.Dict.{Dict, lookup, insert, erase, has_key, keys, lookup-erase}
use hydra_ultimate.State.{User}
use hydra_ultimate.Devices.{
  earliest_of, stored_records, record_of, DeviceFingerprint, is_legacy, legacy_ids, forget,
  is_known, is_refused, bound_devices, bind, limit, allowed,
}

module _ {V : Type 0} where
  length-insert :
      (k : String) (v : V) (d : Dict V)
      → length (insert k v d) ≡ (if has_key k d then length d else length d + 1)
  unfolding insert lookup
  length-insert k v [] = refl
  length-insert k v ((j, w) ∷ d) = ground (arith, length-insert k v d)

  length-erase : (k : String) (d : Dict V) → length (erase k d) ≤ length d
  unfolding erase
  length-erase k [] = omega arith
  length-erase k ((j, w) ∷ d) = ground (arith, length-erase k d)

  length-erase-has :
      (k : String) (d : Dict V) → has_key k d ≡ true → length (erase k d) + 1 ≤ length d
  unfolding erase lookup
  length-erase-has k [] h = absurd (ground arith)
  length-erase-has k ((j, w) ∷ d) h = ground (arith, length-erase k d, length-erase-has k d)

length-forget : (ks : List String) (d : Dict (Dict String)) → length (forget ks d) ≤ length d
length-forget [] d = omega arith
length-forget (k ∷ ks) d = omega (arith, length-forget ks (erase k d), length-erase k d)

-- A device that none of the forgotten ones is stays.
has_key-forget :
    (key : String) (ks : List String) (d : Dict (Dict String))
    → contains key ks ≡ false
    → has_key key (forget ks d) ≡ has_key key d
has_key-forget key [] d h = refl
has_key-forget key (k ∷ ks) d h =
    has_key-forget key ks (erase k d) (ground arith) ∙ ground (arith, lookup-erase k key d)

legacy-other :
    (f : DeviceFingerprint) (d : Dict (Dict String))
    → contains f.device_id (keys (keep (is_legacy f) d)) ≡ false
unfolding is_legacy
legacy-other f [] = refl
legacy-other f ((k, v) ∷ d) = ground (arith, legacy-other f d)

first_kept-has_key :
    (p : String × Dict String → Bool) (d : Dict (Dict String)) (k : String) (ks : List String)
    → keys (keep p d) ≡ k ∷ ks
    → has_key k d ≡ true
unfolding lookup
first_kept-has_key p [] k ks h = cc
first_kept-has_key p ((j, w) ∷ d) k ks h = elim (Bool-cases (p (j, w))) [
  | inl kept ↦ let (same, _) = split h kept in rw same (rw (eq_refl k) refl)
  | inr dropped ↦ ground (arith, first_kept-has_key p d k ks (later h dropped))
]
  where
    split : keys (keep p ((j, w) ∷ d)) ≡ k ∷ ks → p (j, w) ≡ true → (j ≡ k) × Unit {0}
    split h' kept = (ground arith, tt)

    later : keys (keep p ((j, w) ∷ d)) ≡ k ∷ ks → p (j, w) ≡ false → keys (keep p d) ≡ k ∷ ks
    later h' dropped = ground arith

-- Either nothing is forgotten, or the devices become fewer.
forget-shorter :
    (p : String × Dict String → Bool) (d : Dict (Dict String))
    → (keys (keep p d) ≡ []) ⊎ (length (forget (keys (keep p d)) d) + 1 ≤ length d)
forget-shorter p d = go (keys (keep p d)) refl
  where
    go :
        (ks : List String)
        → keys (keep p d) ≡ ks
        → (keys (keep p d) ≡ []) ⊎ (length (forget (keys (keep p d)) d) + 1 ≤ length d)
    go [] e = inl e
    go (k ∷ ks) e = inr (
        rw e (
          omega (
            arith,
            length-forget ks (erase k d),
            length-erase-has k d (first_kept-has_key p d k ks e),
          )))

-- A device that is bound to a subscription with a limit never raises the number of its devices above
-- the limit: they are at most as many as before, or as the limit says.
bound-length :
    (f : DeviceFingerprint) (now : String) (user : User)
    → 0 < user.device_limit
    → is_refused f user ≡ false
    → length (bound_devices f now user) ≤ max (length user.devices) user.device_limit
bound-length f now user limited open_ = elim (forget-shorter (is_legacy f) user.devices) [
  | inr fewer ↦ ground (
    arith,
    length-insert f.device_id (record_of f now previous) (forget (legacy_ids f user) user.devices),
  )
  | inl none_forgotten ↦ ground (
    arith,
    length-insert f.device_id (record_of f now previous) (forget (legacy_ids f user) user.devices),
    length-forget (legacy_ids f user) user.devices,
    has_key-forget f.device_id (legacy_ids f user) user.devices (legacy-other f user.devices),
  )
]
  where
    previous : Option (Dict String)
    previous = earliest_of now (stored_records (f.device_id ∷ legacy_ids f user) user.devices)

-- Binding a device to a subscription with a limit leaves at most as many devices as before or as the
-- limit says. A known device, or the guessed predecessor of one, is never refused, and a refusal
-- changes nothing.
pub bind-limit :
    (f : DeviceFingerprint) (now : String) (user : User)
    → 0 < user.device_limit
    → let (status, user') = bind f now user in
      (length user'.devices ≤ max (length user.devices) user.device_limit)
      × (is_known f user ≡ true → status ≡ allowed)
      × (status ≡ limit → user' ≡ user)
unfolding bind
bind-limit f now user limited = elim (Bool-cases (is_refused f user)) [
  | inl refused ↦ rw (refused, bind) (omega arith, λ known. ground arith, λ same. refl)
  | inr open_ ↦ rw (open_, bind) (bound-length f now user limited open_, λ known. refl, λ same. cc)
]
