-- ===== src/Persistence.antt =====
-- hydra/core/state.py: the persisted state. It is one document with a revision, which every operation
-- reads and writes under a lock; here it is the state in the document, if there is one.
pub mod Saves
pub mod Conflict
pub mod Files
mod Tests
use hydra_ultimate.Base.{
  ℕ, suc, ◌+◌, ◌*◌, ◌^◌, max, String, Bool, true, false, not, ◌&&◌, Option, none, some, List, [],
  ◌∷◌, str_eq, ◌==◌, if◌then◌else◌, Result, ok, err, Exec, Exception, other_error, runtime_error,
  lift, pure, raise, ◌>>=◌, ◌>>◌, and_then,
}
use hydra_ultimate.Base.Int.{pos}
use hydra_ultimate.Base.Dict.{Dict, lookup, insert, erase, has_key}
use hydra_ultimate.Base.Value.{Value, Items, of_dict}
use hydra_ultimate.Base.Equality.{value_eq, dict_eq, list_eq, bool_eq}
use hydra_ultimate.State.{AppState, User, PluginState, Gigabytes, NetworkConfig}
use hydra_ultimate.Runtime.{desired_payload, merge_runtime_state}

abbrev gigabytes_eq : Gigabytes → Gigabytes → Bool
gigabytes_eq a b = a.num * 2 ^ b.shift == b.num * 2 ^ a.shift

abbrev telegram_id_eq : Option ℕ → Option ℕ → Bool
telegram_id_eq none none = true
telegram_id_eq none (some n) = false
telegram_id_eq (some m) none = false
telegram_id_eq (some m) (some n) = m == n

abbrev user_eq : User → User → Bool
user_eq a b =
    str_eq a.email b.email
    && str_eq a.uuid b.uuid
    && gigabytes_eq a.traffic_limit_gb b.traffic_limit_gb
    && a.traffic_used_bytes == b.traffic_used_bytes
    && str_eq a.expiry_date b.expiry_date
    && bool_eq a.blocked b.blocked
    && str_eq a.created_at b.created_at
    && telegram_id_eq a.telegram_id b.telegram_id
    && dict_eq (dict_eq value_eq) a.credentials b.credentials
    && a.device_limit == b.device_limit
    && dict_eq (dict_eq str_eq) a.devices b.devices
    && str_eq a.hydrabox_jwe_key b.hydrabox_jwe_key
    && dict_eq str_eq a.configuration_name_overrides b.configuration_name_overrides
    && list_eq str_eq a.disabled_protocols b.disabled_protocols

abbrev plugin_eq : PluginState → PluginState → Bool
plugin_eq a b =
    bool_eq a.enabled b.enabled
    && a.port == b.port
    && bool_eq a.installed b.installed
    && dict_eq value_eq a.config b.config

abbrev network_eq : NetworkConfig → NetworkConfig → Bool
network_eq a b =
    str_eq a.domain b.domain
    && str_eq a.sub_domain b.sub_domain
    && str_eq a.server_ip b.server_ip
    && list_eq str_eq a.dns_servers b.dns_servers
    && a.dnscrypt_port == b.dnscrypt_port
    && bool_eq a.tproxy_enabled b.tproxy_enabled
    && a.tproxy_port == b.tproxy_port
    && bool_eq a.clash_api_enabled b.clash_api_enabled
    && a.clash_api_port == b.clash_api_port
    && str_eq a.clash_api_secret b.clash_api_secret

-- `==` on two payloads, which are dicts
unfoldable pub payload_eq : AppState User → AppState User → Bool
unfolding value_eq dict_eq list_eq
payload_eq a b =
    a.format_version == b.format_version
    && a.revision == b.revision
    && dict_eq value_eq a.install b.install
    && dict_eq str_eq a.configuration_names b.configuration_names
    && dict_eq plugin_eq a.protocols b.protocols
    && list_eq user_eq a.users b.users
    && value_eq a.telegram b.telegram
    && network_eq a.network b.network
    && value_eq a.headless_creator b.headless_creator
    && value_eq a.kernel b.kernel
    && dict_eq value_eq a.core_extensions b.core_extensions
    && dict_eq value_eq a.feature_extensions b.feature_extensions

-- `_desired_payload(a) != _desired_payload(b)`
unfoldable pub differs : AppState User → AppState User → Bool
unfolding payload_eq desired_payload
differs a b = not (payload_eq (desired_payload a) (desired_payload b))

-- `DECOY_ROUTE`
abbrev decoy_route : Value
decoy_route = Value.dict (
    of_dict (
      ("kind", Value.text "http_path_proxy")
      ∷ ("internal_port_config", Value.text "core_port")
      ∷ ("domain_config", Value.text "origin_host")
      ∷ ("decoy_http_port", Value.int (pos 10806))
      ∷ ("decoy_root", Value.text "/var/www/decoy-cdn")
      ∷ ("decoy_theme", Value.text "status")
      ∷ ("path_config", Value.text "xhttp_path")
      ∷ ("assets_prefix", Value.text "/assets")
      ∷ ("origin_http2", Value.bool true)
      ∷ ("upstream_tls", Value.bool false)
      ∷ ("public_host_config", Value.text "cdn_domain")
      ∷ []))

abbrev dict_value : Dict Value → Value
dict_value d = Value.dict (of_dict d)

-- `AppState()`
abbrev pub initial : AppState User
initial = record {
  format_version = 1;
  revision = 0;
  install = [];
  configuration_names = [];
  protocols = [];
  users = [];
  telegram = dict_value (
      ("admin_token", Value.text "")
      ∷ ("admin_chat_id", Value.text "")
      ∷ ("bot_token", Value.text "")
      ∷ ("bot_enabled", Value.bool false)
      ∷ ("admin_enabled", Value.bool false)
      ∷ ("allowed_users", Value.list Items.no_items)
      ∷ ("notifications_enabled", Value.bool true)
      ∷ ("notify_antidpi", Value.bool true)
      ∷ ("notify_honeypot", Value.bool true)
      ∷ ("notify_fail2ban", Value.bool true)
      ∷ ("notify_unbans", Value.bool false)
      ∷ ("notify_system", Value.bool true)
      ∷ ("notify_only_blocks", Value.bool false)
      ∷ ("quiet_hours_enabled", Value.bool false)
      ∷ ("quiet_hours_start", Value.int (pos 23))
      ∷ ("quiet_hours_end", Value.int (pos 8))
      ∷ []);
  network = record {
    domain = "";
    sub_domain = "";
    server_ip = "";
    dns_servers = [];
    dnscrypt_port = 5300;
    tproxy_enabled = false;
    tproxy_port = 1081;
    clash_api_enabled = false;
    clash_api_port = 9090;
    clash_api_secret = "";
  };
  headless_creator = dict_value (("providers", dict_value []) ∷ ("consumers", dict_value []) ∷ []);
  kernel =
      dict_value (("provider", Value.text "hydracore") ∷ ("channel", Value.text "stable") ∷ []);
  core_extensions = [];
  feature_extensions = [];
}

abbrev route_key : String
route_key = "_tls_http_decoy_route"

abbrev refreshed : PluginState → PluginState
refreshed protocol =
    if has_key route_key protocol.config
    then record protocol { config = insert route_key decoy_route protocol.config }
    else protocol

abbrev refreshed_in : Option PluginState → AppState User → AppState User
refreshed_in none state = state
refreshed_in (some protocol) state = record state {
  protocols = insert "vless_cdn" (refreshed protocol) state.protocols;
}

-- `_refresh_protocol_routes`
unfoldable pub refresh_protocol_routes : AppState User → AppState User
refresh_protocol_routes state = refreshed_in (lookup "vless_cdn" state.protocols) state

-- The document, if the file exists.
abbrev pub Disk : Type 0
Disk = Option (AppState User)

-- `_load_state_unlocked`
unfoldable pub load : Disk → AppState User
unfolding refresh_protocol_routes
load none = initial
load (some document) = refresh_protocol_routes document

abbrev pub latest_of : Disk → Option (AppState User)
latest_of none = none
latest_of (some document) = some (load (some document))

abbrev texts : Items → List String
texts Items.no_items = []
texts (Items.with_item (Value.text s) xs) = s ∷ texts xs
texts (Items.with_item _ xs) = texts xs

abbrev texts_of : Option Value → List String
texts_of (some (Value.list xs)) = texts xs
texts_of _ = []

abbrev resets_key : String
resets_key = "_device_binding_resets"

-- `set(state.install.pop("_device_binding_resets", []))`, which is a list of texts
abbrev pub device_resets : AppState User → List String
device_resets state = texts_of (lookup resets_key state.install)

abbrev pub without_resets : AppState User → AppState User
without_resets state = record state { install = erase resets_key state.install }

abbrev pub with_key : String → User → User
with_key key user = record user {
  hydrabox_jwe_key = (if str_eq user.hydrabox_jwe_key "" then key else user.hydrabox_jwe_key);
}

-- The class of the error of `_save_state_unlocked`.
abbrev pub conflict : Exception
conflict = other_error "StateConflictError" "state changed since it was loaded; reload and retry"

abbrev pub revision_after : Bool → ℕ → ℕ → Result ℕ
revision_after changed mine current =
    if changed then if mine == current then ok (current + 1) else err conflict else ok current

-- The revision under which the state is saved.
unfoldable pub next_revision : AppState User → Option (AppState User) → Result ℕ
next_revision state none = ok (max 1 state.revision)
next_revision state (some current) =
    revision_after (differs state current) state.revision current.revision

abbrev pub merged_with :
    AppState User → List String → Option (AppState User) → Result (AppState User)
merged_with state resets none = ok state
merged_with state resets (some latest) = merge_runtime_state state latest resets

abbrev pub at_revision : Option (AppState User) → AppState User → AppState User
at_revision none state = state
at_revision (some latest) state = record state { revision = latest.revision }

-- The keys that `generate_hydrabox_jwe_key` gives are a sequence.
module _ (new_key : ℕ → String) where
  unfoldable pub fill_keys : ℕ → List User → List User
  fill_keys n [] = []
  fill_keys n (user ∷ rest) = with_key (new_key n) user ∷ fill_keys (suc n) rest

  abbrev pub filled : AppState User → AppState User
  filled state = record state { users = fill_keys 0 state.users }

-- `validate_state` is a parameter, any check that may raise.
module _ (validate_state : AppState User → Result (Unit {0})) (new_key : ℕ → String) where
  abbrev write : AppState User → Exec Disk (Unit {0})
  write document disk = (ok tt, some document)

  -- `_save_state_unlocked`, which also returns the state as it has changed it
  unfoldable pub save_unlocked : AppState User → Option (AppState User) → Exec Disk (AppState User)
  unfolding fill_keys next_revision
  save_unlocked state current = do
    let document = filled new_key state
    revision ← lift (next_revision document current)
    lift (validate_state (record document { revision = revision }))
    write (record document { revision = revision })
    pure (record document { revision = revision })

  unfoldable pub save_state : AppState User → Exec Disk (AppState User)
  unfolding save_unlocked merge_runtime_state load
  save_state state disk =
      let latest = latest_of disk in
      (lift (merged_with (without_resets state) (device_resets state) latest) >>= λ merged.
      save_unlocked merged latest)
        disk

  unfoldable pub restore_desired_state : AppState User → Exec Disk (AppState User)
  unfolding save_unlocked merge_runtime_state load
  restore_desired_state snapshot disk =
      let latest = latest_of disk in
      (lift (merged_with (without_resets snapshot) (device_resets snapshot) latest) >>= λ restored.
      save_unlocked (at_revision latest restored) latest)
        disk

  -- `update_state`: `mutator` gives the state as it has changed it, and its result.
  unfoldable pub update_state :
      {T : Type 0} → (AppState User → Result (AppState User × T)) → Exec Disk (AppState User × T)
  unfolding save_unlocked load
  update_state mutator disk =
      (lift (mutator (load disk)) >>= λ mutated.
      save_unlocked mutated.0 (some (load disk)) >>= λ saved. pure (saved, mutated.1))
        disk
