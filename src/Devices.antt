-- ===== src/Devices.antt =====
-- hydra/services/subscriptions/devices.py: the devices that a subscription is bound to.
pub mod Limit
mod Tests
use hydra_ultimate.Base.{
  ℕ, String, Bool, true, false, not, ◌&&◌, ◌||◌, Option, none, some, List, [], ◌∷◌, ◌++◌, str_eq,
  ltb, leb, ◌==◌, if◌then◌else◌, concat, keep, length, is_some,
}
use hydra_ultimate.Base.Dict.{Dict, lookup, insert, erase, has_key, keys}
use hydra_ultimate.Base.Text.{squeeze, prefix, text_leb}
use hydra_ultimate.State.{User}

pub record DeviceFingerprint : Type 0 where
  pub device_id : String
  pub source : String
  pub user_agent : String
  pub address : String

abbrev pub network_source : String
network_source = "network-client"

abbrev text_or_empty : Option String → String
text_or_empty none = ""
text_or_empty (some s) = s

-- `str(record.get(key, ""))`
abbrev pub get_text : String → Dict String → String
get_text key stored = text_or_empty (lookup key stored)

-- `_normalized_agent`
unfoldable pub normalized_agent : String → String
normalized_agent s = prefix 120 (squeeze s)

abbrev or_else : String → String → String
or_else s t = if str_eq s "" then t else s

abbrev pub seen_or : String → Dict String → String
seen_or now stored = or_else (get_text "first_seen" stored) now

abbrev or_empty : Option (Dict String) → Dict String
or_empty none = []
or_empty (some stored) = stored

-- `DeviceFingerprint.record`
unfoldable pub record_of : DeviceFingerprint → String → Option (Dict String) → Dict String
record_of f now previous =
    ("first_seen", seen_or now (or_empty previous))
    ∷ ("last_seen", now)
    ∷ ("source", f.source)
    ∷ ("user_agent", prefix 120 f.user_agent)
    ∷ ("address", f.address)
    ∷ []

-- The test in `legacy_ids`: the same client, which was guessed then and is guessed now.
unfoldable pub is_legacy : DeviceFingerprint → String × Dict String → Bool
unfolding normalized_agent
is_legacy f entry =
    not (str_eq entry.0 f.device_id)
    && str_eq f.source network_source
    && not (str_eq f.user_agent "")
    && str_eq (get_text "source" entry.1) network_source
    && str_eq (normalized_agent (get_text "user_agent" entry.1)) f.user_agent

abbrev pub legacy_ids : DeviceFingerprint → User → List String
legacy_ids f user = keys (keep (is_legacy f) user.devices)

abbrev pub stored_records : List String → Dict (Dict String) → List (Dict String)
stored_records [] devices = []
stored_records (known ∷ rest) devices =
    let later = stored_records rest devices in
    elim (lookup known devices) [ none ↦ later | some stored ↦ stored ∷ later ]

-- `min(records, key=…)`: the first of the least ones.
abbrev earliest : String → Dict String → List (Dict String) → Dict String
earliest now best [] = best
earliest now best (stored ∷ rest) =
    let next = if text_leb (seen_or now best) (seen_or now stored) then best else stored in
    earliest now next rest

abbrev pub earliest_of : String → List (Dict String) → Option (Dict String)
earliest_of now [] = none
earliest_of now (stored ∷ rest) = some (earliest now stored rest)

abbrev pub forget : List String → Dict (Dict String) → Dict (Dict String)
forget [] devices = devices
forget (known ∷ rest) devices = forget rest (erase known devices)

abbrev pub is_known : DeviceFingerprint → User → Bool
is_known f user = has_key f.device_id user.devices || not (length (legacy_ids f user) == 0)

-- The guards of `mutate` for a new device.
abbrev pub is_refused : DeviceFingerprint → User → Bool
is_refused f user =
    ltb 0 user.device_limit && not (is_known f user) && leb user.device_limit (length user.devices)

abbrev pub bound_devices : DeviceFingerprint → String → User → Dict (Dict String)
bound_devices f now user =
    let legacy = legacy_ids f user in
    let previous = earliest_of now (stored_records (f.device_id ∷ legacy) user.devices) in
    insert f.device_id (record_of f now previous) (forget legacy user.devices)

pub data Status : Type 0 where
  missing limit allowed : Status

-- `mutate` for the user that was found
unfoldable pub bind : DeviceFingerprint → String → User → Status × User
unfolding is_legacy record_of
bind f now user =
    if is_refused f user
    then (limit, user)
    else (allowed, record user { devices = bound_devices f now user })

-- `mutate`: the status, the e-mail and the users
unfoldable pub register :
    String → DeviceFingerprint → String → List User → (Status × String) × List User
unfolding bind
register token f now [] = ((missing, ""), [])
register token f now (user ∷ rest) =
    let (status, user') = bind f now user in
    let (result, rest') = register token f now rest in
    if str_eq user.uuid token then ((status, user.email), user' ∷ rest) else (result, user ∷ rest')
