-- ===== src/Users/Profile.antt =====
-- hydra/services/user_lifecycle.py: the operations on one user's name, protocols, devices and key.
use hydra_ultimate.Base.{
  ℕ, ◌+◌, String, Bool, true, false, not, ◌||◌, Option, none, some, List, [], ◌∷◌, ◌++◌, str_eq,
  ◌==◌, if◌then◌else◌, concat, contains, find, keep, any, Result, ok, err, Exec, Exception,
  value_error, other_error, pure, raise, lift, gets, try_except, modify, ◌>>=◌, ◌>>◌,
}
use hydra_ultimate.Base.Int.{ℤ, pos, negsuc}
use hydra_ultimate.Base.Dict.{insert, lookup}
use hydra_ultimate.Base.Value.{Value, Items}
use hydra_ultimate.Base.Text.{strip, lower, has_space}
use hydra_ultimate.State.{AppState, User, protocol_enabled}
use hydra_ultimate.Users.{
  Operations, carry, commit_change, new_transaction, restore_and_save, restart_subscriptions,
  find_ref, update_user,
}
use hydra_ultimate.Users.Memory.{World, write_user, deep_copy}

-- `supports_personal_protocol_access` of core/state_validation.py
unfoldable pub supports_personal_protocol_access : String → Bool
supports_personal_protocol_access name = not (str_eq name "wdtt")

abbrev pub is_no_identifier : String → Bool
is_no_identifier normalized = str_eq normalized "" || has_space normalized

abbrev is_equal : Bool → Bool → Bool
is_equal true b = b
is_equal false b = not b

abbrev not_found : String → Exception
not_found email = value_error (concat ("User " ∷ email ∷ " not found" ∷ []))

-- `names.remove(name)`: the first one that equals `name`
abbrev pub remove_first : String → List String → List String
remove_first name [] = []
remove_first name (other ∷ rest) =
    if str_eq other name then rest else other ∷ remove_first name rest

-- `items.append(text)`
abbrev append_item : Items → Value → Items
append_item Items.no_items v = Items.with_item v Items.no_items
append_item (Items.with_item x xs) v = Items.with_item x (append_item xs v)

-- `install.setdefault("_device_binding_resets", []).append(uuid)`
abbrev append_reset : String → Option Value → Result Value
append_reset uuid none = ok (Value.list (Items.with_item (Value.text uuid) Items.no_items))
append_reset uuid (some (Value.list xs)) = ok (Value.list (append_item xs (Value.text uuid)))
append_reset uuid (some other) = err (other_error "AttributeError" "no attribute 'append'")

abbrev pub is_duplicate : Option ℕ → ℕ → Bool
is_duplicate none user = false
is_duplicate (some other) user = not (other == user)

module _ {H : Type 0} where
  -- `copy.deepcopy(user)`: a fresh object with the same contents
  abbrev pub copy_user : ℕ → Exec (World H) ℕ
  copy_user user w =
      let copy = w.fresh in
      (ok copy, write_user copy (w.objects user) (record w { fresh = copy + 1 }))

  abbrev pub user_field : {A : Type 0} → ℕ → (User → A) → Exec (World H) A
  user_field user f = gets (λ w. f (w.objects user))

  abbrev record_reset : String → Exec (World H) (Unit {0})
  record_reset uuid = do
    install ← gets (λ w. w.state.install)
    resets ← lift (append_reset uuid (lookup "_device_binding_resets" install))
    modify (λ w.
        let state = w.state in
        record w {
          state = record state { install = insert "_device_binding_resets" resets state.install };
        })

module _ {P H : Type 0} (ops : Operations P H) where
  open ops use {name, transports, apply_config, save_state, user_add, user_remove, generate_key}

  -- `_restore_plugin_identity`
  unfoldable pub restore_plugin_identity : ℕ → ℕ → P → Exec (World H) (Unit {0})
  restore_plugin_identity previous renamed plugin = do
    user_remove plugin renamed
    user_add plugin previous

  abbrev pub rename_label : String → P → World H → String
  rename_label email plugin w = concat ("rename " ∷ email ∷ " plugin " ∷ name plugin ∷ [])

  -- `previous` and `renamed` are copies of the user under the old and under the new e-mail.
  abbrev pub rename_object : String → ℕ → Exec (World H) (ℕ × ℕ)
  rename_object normalized user = do
    previous ← copy_user user
    update_user ops user (λ u. record u { email = normalized })
    renamed ← copy_user user
    pure (previous, renamed)

  abbrev pub carry_rename : AppState User → String → ℕ → ℕ × ℕ → Exec (World H) (Unit {0})
  carry_rename snapshot email user (previous, renamed) =
      carry ops snapshot (rename_label email) (restore_plugin_identity previous renamed)
        (λ p. user_remove p previous >> user_add p user)

  unfoldable pub rename_to : String → String → ℕ → Exec (World H) (Unit {0})
  unfolding carry restart_subscriptions restore_plugin_identity
  rename_to email normalized user = do
    snapshot ← gets deep_copy
    copies ← rename_object normalized user
    carry_rename snapshot email user copies
    restart_subscriptions ops

  abbrev pub not_unique : String → Exec (World H) (Unit {0})
  not_unique normalized =
      raise (value_error (concat ("User " ∷ normalized ∷ " already exists" ∷ [])))

  abbrev pub rename_unless_same : String → String → ℕ → String → Exec (World H) (Unit {0})
  rename_unless_same email normalized user current =
      if str_eq normalized current then pure tt else rename_to email normalized user

  abbrev pub rename_checked : String → String → ℕ → Exec (World H) (Unit {0})
  rename_checked email normalized user = do
    duplicate ← find_ref ops normalized
    current ← user_field user (λ u. u.email)
    if is_duplicate duplicate user
        then not_unique normalized
        else rename_unless_same email normalized user current

  abbrev pub not_an_identifier : Exec (World H) (Unit {0})
  not_an_identifier =
      raise (value_error "User identifier must be non-empty and contain no whitespace")

  unfoldable pub rename_found : String → String → Option ℕ → Exec (World H) (Unit {0})
  unfolding rename_to
  rename_found email new_email none = raise (not_found email)
  rename_found email new_email (some user) = do
    let normalized = lower (strip new_email)
    if is_no_identifier normalized then not_an_identifier else rename_checked email normalized user

  unfoldable pub rename : String → String → Exec (World H) (Unit {0})
  unfolding rename_found
  rename email new_email = do user ← find_ref ops email; rename_found email new_email user

  -- The names that `_enabled_transports` yields while no hook runs.
  abbrev enabled_plugins : World H → List P
  enabled_plugins w = keep (λ p. protocol_enabled w.state (name p)) (transports w)

  abbrev named : String → P → Bool
  named protocol plugin = str_eq (name plugin) protocol

  abbrev add_or_restore : AppState User → ℕ → Option P → Exec (World H) (Unit {0})
  add_or_restore snapshot user none = raise (other_error "StopIteration" "")
  add_or_restore snapshot user (some plugin) =
      try_except (user_add plugin user) (λ exc. restore_and_save ops snapshot >> raise exc)

  unfoldable pub allow_protocol : AppState User → String → ℕ → Exec (World H) (Unit {0})
  unfolding restore_and_save
  allow_protocol snapshot protocol user = do
    update_user ops user
        (λ u. record u { disabled_protocols = remove_first protocol u.disabled_protocols })
    blocked ← user_field user (λ u. u.blocked)
    plugin ← gets (λ w. find (named protocol) (enabled_plugins w))
    if blocked then pure tt else add_or_restore snapshot user plugin

  abbrev forbid_protocol : String → ℕ → Exec (World H) (Unit {0})
  forbid_protocol protocol user =
      update_user ops user
        (λ u. record u { disabled_protocols = u.disabled_protocols ++ protocol ∷ [] })

  unfoldable pub set_protocol_found : String → String → Bool → Option ℕ → Exec (World H) (Unit {0})
  unfolding allow_protocol commit_change new_transaction supports_personal_protocol_access
  set_protocol_found email protocol enabled none = raise (not_found email)
  set_protocol_found email protocol enabled (some user) = do
    available ← gets (λ w. any (named protocol) (enabled_plugins w))
    if not (supports_personal_protocol_access protocol) || not available
        then raise (
            value_error
              (concat ("Protocol " ∷ protocol ∷ " is unavailable for per-user access" ∷ [])))
        else do
          was_disabled ← user_field user (λ u. contains protocol u.disabled_protocols)
          snapshot ← gets deep_copy
          if is_equal (not was_disabled) enabled then pure tt else do
            if enabled then allow_protocol snapshot protocol user else forbid_protocol protocol user
            tx ← lift (new_transaction ops snapshot)
            commit_change ops tx

  unfoldable pub set_protocol_enabled : String → String → Bool → Exec (World H) (Unit {0})
  unfolding set_protocol_found
  set_protocol_enabled email protocol enabled = do
    user ← find_ref ops email
    set_protocol_found email protocol enabled user

  abbrev reset_devices : ℕ → Bool → Exec (World H) (Unit {0})
  reset_devices user false = pure tt
  reset_devices user true = do
    update_user ops user (λ u. record u { devices = [] })
    uuid ← user_field user (λ u. u.uuid)
    record_reset uuid

  unfoldable pub set_device_limit_found : String → ℤ → Bool → Option ℕ → Exec (World H) (Unit {0})
  set_device_limit_found email limit reset none = raise (not_found email)
  set_device_limit_found email (negsuc n) reset (some user) =
      raise (value_error "Device limit must be a non-negative integer")
  set_device_limit_found email (pos limit) reset (some user) = do
    update_user ops user (λ u. record u { device_limit = limit })
    reset_devices user reset
    save_state

  unfoldable pub set_device_limit : String → ℤ → Bool → Exec (World H) (Unit {0})
  unfolding set_device_limit_found
  set_device_limit email limit reset = do
    user ← find_ref ops email
    set_device_limit_found email limit reset user

  unfoldable pub rotate_found : String → Option ℕ → Exec (World H) (Unit {0})
  unfolding restart_subscriptions
  rotate_found email none = raise (not_found email)
  rotate_found email (some user) = do
    previous ← user_field user (λ u. u.hydrabox_jwe_key)
    key ← generate_key
    update_user ops user (λ u. record u { hydrabox_jwe_key = key })
    try_except save_state
        (λ exc. update_user ops user (λ u. record u { hydrabox_jwe_key = previous }) >> raise exc)
    restart_subscriptions ops

  unfoldable pub rotate_hydrabox_key : String → Exec (World H) (Unit {0})
  unfolding rotate_found
  rotate_hydrabox_key email = do user ← find_ref ops email; rotate_found email user
