-- ===== src/Runtime.antt =====
-- hydra/core/state_runtime.py: which parts of the state are observations of background writers, and
-- how they are kept when an older copy of the state is saved.
pub mod Desired
pub mod Totals
pub mod Merged
mod Tests
use hydra_ultimate.Base.{
  ℕ, max, String, Bool, true, false, not, ◌&&◌, ◌||◌, Option, none, some, List, [], ◌∷◌, ◌++◌, map,
  str_eq, ◌==◌, if◌then◌else◌, contains, is_some, keep, Result, ok, err, Exception, value_error,
  and_then,
}
use hydra_ultimate.Base.Int.{ℤ, pos, ltb_ℤ, eqb_ℤ}
use hydra_ultimate.Base.Dict.{Dict, lookup, insert, erase, has_key, keys}
use hydra_ultimate.Base.Value.{Value, int_of, as_dict}
use hydra_ultimate.Base.Text.{starts_with}
use hydra_ultimate.State.{AppState, User}

-- `_RUNTIME_INSTALL_KEYS`
abbrev pub runtime_install_keys : List String
runtime_install_keys =
    "certificates_last_check" ∷ "certificates_report" ∷ "device_sessions"
    ∷ "protocol_traffic_totals" ∷ "singbox_last_update_check" ∷ "singbox_latest_version"
    ∷ "singbox_update_available" ∷ "sync_config_pending" ∷ "sync_config_pending_source"
    ∷ "traffic_connection_counters" ∷ "traffic_daemon_last_poll" ∷ "traffic_log_cursors"
    ∷ "traffic_report_totals" ∷ "traffic_user_reset_epochs" ∷ []

-- `key.startswith("traffic_")`
unfoldable pub is_traffic : String → Bool
unfolding starts_with
is_traffic key = starts_with "traffic_" key

abbrev pub used_key : String
used_key = "traffic_used_bytes"

abbrev pub last_key : String
last_key = "traffic_last_raw_bytes"

-- What is left of one protocol's values once the keys that start with `traffic_` are removed.
unfoldable pub without_traffic : Dict Value → Dict Value
without_traffic [] = []
without_traffic ((key, v) ∷ values) =
    let rest = without_traffic values in if is_traffic key then rest else (key, v) ∷ rest

abbrev pub with_values : String → Dict Value → Dict (Dict Value) → Dict (Dict Value)
with_values protocol [] rest = rest
with_values protocol (entry ∷ values) rest = (protocol, entry ∷ values) ∷ rest

-- The loop over the credentials: a protocol with nothing left is removed.
unfoldable pub desired_credentials : Dict (Dict Value) → Dict (Dict Value)
unfolding without_traffic
desired_credentials [] = []
desired_credentials ((protocol, values) ∷ credentials) =
    with_values protocol (without_traffic values) (desired_credentials credentials)

unfoldable pub desired_user : User → User
unfolding desired_credentials
desired_user user = record user {
  traffic_used_bytes = 0;
  devices = [];
  credentials = desired_credentials user.credentials;
}

unfoldable pub desired_install : Dict Value → Dict Value
desired_install [] = []
desired_install ((key, v) ∷ install) =
    let rest = desired_install install in
    if contains key runtime_install_keys then rest else (key, v) ∷ rest

-- `desired_payload`. A key that the code removes holds a fixed value here.
unfoldable pub desired_payload : AppState User → AppState User
unfolding desired_user desired_install
desired_payload state = record state {
  revision = 0;
  install = desired_install state.install;
  users = map desired_user state.users;
}

-- `{user.email: user for user in users}.get(email)`: the last user with the e-mail.
unfoldable pub last_user : String → List User → Option User
last_user email [] = none
last_user email (user ∷ rest) = elim (last_user email rest) [
  | some found ↦ some found
  | none ↦ if str_eq user.email email then some user else none
]

-- `target.update(source)`
unfoldable pub update : {V : Type 0} → Dict V → Dict V → Dict V
unfolding insert
update [] target = target
update ((key, v) ∷ source) target = update source (insert key v target)

abbrev keys_of : Option (Dict Value) → List String
keys_of none = []
keys_of (some d) = keys d

abbrev dict_of : Option Value → Option (Dict Value)
dict_of none = none
dict_of (some v) = as_dict v

-- The e-mails in `latest.install.get("traffic_user_reset_epochs", {})`, which is a dict.
abbrev pub reset_emails : Dict Value → List String
reset_emails install = keys_of (dict_of (lookup "traffic_user_reset_epochs" install))

abbrev result_of : Option ℤ → Result ℤ
result_of none = err (value_error "invalid literal for int()")
result_of (some z) = ok z

abbrev value_or_zero : Option Value → Value
value_or_zero none = Value.int (pos 0)
value_or_zero (some v) = v

-- `int(stats.get("traffic_used_bytes", 0))`
unfoldable pub total_of : Dict Value → Result ℤ
unfolding lookup int_of
total_of stats = result_of (int_of (value_or_zero (lookup used_key stats)))

abbrev copy_last : Option Value → Dict Value → Dict Value
copy_last none target = target
copy_last (some v) target = insert last_key v target

abbrev pub is_other : String → Bool
is_other key = is_traffic key && not (str_eq key used_key || str_eq key last_key)

-- `for stat_key, stat_value in current_stats.items()`
unfoldable pub copy_others : Dict Value → Dict Value → Dict Value
unfolding is_traffic insert
copy_others [] target = target
copy_others ((key, v) ∷ current) target =
    copy_others current (if is_other key then insert key v target else target)

unfoldable pub adopt : ℤ → Dict Value → Dict Value → Dict Value
unfolding copy_others
adopt total current target =
    copy_others current
      (copy_last (lookup last_key current) (insert used_key (Value.int total) target))

unfoldable pub only_traffic : Dict Value → Dict Value
only_traffic [] = []
only_traffic ((key, v) ∷ values) =
    let rest = only_traffic values in if is_traffic key then (key, v) ∷ rest else rest

-- The body of the loop over the protocols, on the stats of one.
unfoldable pub merge_stats : Bool → Dict Value → Dict Value → Result (Dict Value)
unfolding without_traffic only_traffic update total_of adopt
merge_stats true current target = ok (update (only_traffic current) (without_traffic target))
merge_stats false current target = and_then (total_of current) (λ current_total.
    and_then (total_of target) (λ target_total.
      ok (if ltb_ℤ current_total target_total then target else adopt current_total current target)))

abbrev pub or_empty : Option (Dict Value) → Dict Value
or_empty none = []
or_empty (some stats) = stats

-- The loop over the protocols.
unfoldable pub merge_credentials :
    Bool → Dict (Dict Value) → List String → Dict (Dict Value) → Result (Dict (Dict Value))
unfolding merge_stats
merge_credentials reset current [] credentials = ok credentials
merge_credentials reset current (protocol ∷ rest) credentials =
    and_then
      (merge_stats reset (or_empty (lookup protocol current))
        (or_empty (lookup protocol credentials)))
      (λ stats. merge_credentials reset current rest (insert protocol stats credentials))

abbrev pub new_in : Dict (Dict Value) → List String → List String
new_in credentials [] = []
new_in credentials (protocol ∷ rest) =
    let later = new_in credentials rest in
    if has_key protocol credentials then later else protocol ∷ later

-- A user with the merged fields.
abbrev pub with_merged : Bool → Bool → User → User → Dict (Dict Value) → User
with_merged reset device_reset current user credentials = record user {
  traffic_used_bytes =
      (if reset
        then current.traffic_used_bytes
        else max user.traffic_used_bytes current.traffic_used_bytes);
  devices = (if device_reset then user.devices else update user.devices current.devices);
  credentials = credentials;
}

-- The protocols of `credentials`, and then those of `current` alone; the code takes them in the order
-- of a set.
abbrev pub all_protocols : Dict (Dict Value) → Dict (Dict Value) → List String
all_protocols current credentials = keys credentials ++ new_in credentials (keys current)

-- The body of the loop over the users, for a user that the latest state has.
unfoldable pub merge_user : List String → List String → User → User → Result User
unfolding merge_credentials update
merge_user resets device_resets current user =
    let reset = contains user.email resets in
    and_then
      (merge_credentials reset current.credentials
        (all_protocols current.credentials user.credentials) user.credentials)
      (λ credentials.
        ok (with_merged reset (contains user.uuid device_resets) current user credentials))

abbrev pub merge_found : List String → List String → User → Option User → Result User
merge_found resets device_resets user none = ok user
merge_found resets device_resets user (some current) = merge_user resets device_resets current user

unfoldable pub merge_users : List String → List String → List User → List User → Result (List User)
unfolding merge_user last_user
merge_users resets device_resets latest [] = ok []
merge_users resets device_resets latest (user ∷ rest) =
    and_then (merge_found resets device_resets user (last_user user.email latest)) (λ merged.
      and_then (merge_users resets device_resets latest rest) (λ others. ok (merged ∷ others)))

abbrev pub set_or_pop : String → Option Value → Dict Value → Dict Value
set_or_pop key none install = erase key install
set_or_pop key (some v) install = insert key v install

-- The loop over `_RUNTIME_INSTALL_KEYS`.
unfoldable pub merge_install : List String → Dict Value → Dict Value → Dict Value
unfolding lookup insert erase
merge_install [] latest install = install
merge_install (key ∷ rest) latest install =
    merge_install rest latest (set_or_pop key (lookup key latest) install)

-- `merge_runtime_state`; what it has changed when it raises is not kept here.
unfoldable pub merge_runtime_state :
    AppState User → AppState User → List String → Result (AppState User)
unfolding merge_users merge_install
merge_runtime_state state latest device_resets =
    and_then (merge_users (reset_emails latest.install) device_resets latest.users state.users)
      (λ users. ok (record state {
        users = users;
        install = merge_install runtime_install_keys latest.install state.install;
      }))
