-- ===== src/Lifecycle/Tests.antt =====
-- Runs of the plugin operations on a host that keeps the calls.
use hydra_ultimate.Base.{
  ℕ, String, ◌≡◌, refl, ◌≢◌, Bool, true, false, none, some, List, [], ◌∷◌, ◌++◌, str_eq, ok, sorted,
  if◌then◌else◌,
}
use hydra_ultimate.Base.Value.{Value}
use hydra_ultimate.Base.Text.{lower, strip}
use hydra_ultimate.Base.Dict.{lookup, insert}
use hydra_ultimate.State.{AppState, User, PluginState, get_protocol}
use hydra_ultimate.Transaction.{
  rollback, run_actions, run_action, failure_of, report, before, add_rollback, advance,
  state_transaction,
}
use hydra_ultimate.Users.{Operations, new_transaction, restore_and_save, reapply_restored_state}
use hydra_ultimate.Users.Memory.{World, deep_copy, restore_state_in_place}
use hydra_ultimate.Lifecycle.{
  Hooks, enable, uninstall, unwinding, add_users, rollback_after_apply_failure,
}
use hydra_ultimate.Lifecycle.Restore.{KeepsProtocols, SameEntries}
use hydra_ultimate.Lifecycle.Setup.{
  Capabilities, Provider, prepare_enable, prepare_enabled, normalize_protocol_config,
}
use hydra_ultimate.Lifecycle.Setup.Completed.{asked_domain, completed_at, prepare_enable_lem}
use hydra_ultimate.Base.Dict.{lookup}
use hydra_ultimate.Base.Text.{lower, strip}
use hydra_ultimate.Routing.{normal_domain}
use hydra_ultimate.Lifecycle.Setup.Readings.{prepare_enabled-Keeps}
use hydra_ultimate.Lifecycle.Atomic.{enabling, perform, lifecycle_atomic}
use hydra_ultimate.Lifecycle.Reinstall.{reinstall, reinstall_atomic}

abbrev someone : User
someone = record {
  email = "ann";
  uuid = "u-1";
  traffic_limit_gb = record { num = 0; shift = 0 };
  traffic_used_bytes = 0;
  expiry_date = "";
  blocked = false;
  created_at = "";
  telegram_id = none;
  credentials = [];
  device_limit = 0;
  devices = [];
  hydrabox_jwe_key = "";
  configuration_name_overrides = [];
  disabled_protocols = [];
}

abbrev state : AppState ℕ
state = record {
  format_version = 1;
  revision = 7;
  install = [];
  configuration_names = [];
  protocols = ("naive", record { enabled = false; port = 443; installed = true; config = [] }) ∷ [];
  users = 0 ∷ [];
  telegram = Value.null;
  network = record {
    domain = "a.example";
    sub_domain = "";
    server_ip = "";
    dns_servers = [];
    dnscrypt_port = 5300;
    tproxy_enabled = true;
    tproxy_port = 1;
    clash_api_enabled = false;
    clash_api_port = 9090;
    clash_api_secret = "";
  };
  headless_creator = Value.null;
  kernel = Value.null;
  core_extensions = [];
  feature_extensions = [];
}

abbrev world : World (List String)
world = record { objects = λ r. someone; fresh = 1; state = state; host = [] }

abbrev note : String → World (List String) → World (List String)
note s w = record w { host = w.host ++ s ∷ [] }

-- The plugin needs a certificate for the domain of the network and has a default.
abbrev provider : Provider (List String)
provider = record {
  get_plugin = λ name.
      if str_eq name "naive"
      then some (
          some (record {
            tls_domain_source = "network";
            config_defaults = ("network", Value.text "tcp") ∷ [];
            needs_tls_domain = λ w. true;
            certificate_requirements = λ w. [];
          }))
      else none;
  ensure = λ domain config host. (ok ("cert", "key"), host ++ domain ∷ []);
  str = λ value. "";
}

-- The configurations are completed, and the rest of the apply fails.
abbrev completed : World (List String) → World (List String)
unfolding prepare_enabled
completed w = (prepare_enabled provider w).1

abbrev shared : Operations String (List String)
shared = record {
  name = λ p. p;
  transports = λ w. "naive" ∷ [];
  apply_config = λ w. (ok false, note "apply" (completed w));
  save_state = λ w. (ok tt, note "save" w);
  last_apply_error = λ w. "port is in use";
  log_rollback_error = λ m w. note m w;
  user_add = λ p r w. (ok tt, note "add" w);
  user_remove = λ p r w. (ok tt, note "remove" w);
  user_block = λ p r w. (ok tt, note "block" w);
  generate_key = λ w. (ok "key", w);
  is_active = λ s w. (false, w);
  restart = λ s w. w;
}

-- The configuration is never applied.
abbrev hooks : Hooks String (List String)
hooks = record {
  shared = shared;
  get_plugin = λ name. if str_eq name "naive" then some "naive" else none;
  lifecycle_result = λ p operation w. (ok true, note operation w);
  set_apply_error = λ m w. note m w;
  prepare_enable = λ name w. (ok tt, w);
  failure_stage = λ p kind w. "";
}

-- The switches and the port of an entry.
abbrev switches : PluginState → Bool × (Bool × ℕ)
switches p = (p.enabled, (p.installed, p.port))

keeps : KeepsProtocols switches hooks
unfolding completed
keeps = record {
  saving = λ w. refl;
  applying = λ w. prepare_enabled-Keeps switches (λ p config. refl) provider w;
  logging = λ m w. refl;
  noting = λ m w. refl;
}

-- The plugin is disabled again, then the state is restored, and the error of the apply survives.
enable_fails :
    ((enable hooks "naive" world).0 ≡ ok false)
    × ((enable hooks "naive" world).1.host
        ≡ "enable" ∷ "save" ∷ "add" ∷ "save" ∷ "a.example" ∷ "apply" ∷ "disable" ∷ "save" ∷ "apply"
          ∷ "Rollback restored configuration failed: port is in use" ∷ "port is in use" ∷ [])
unfolding enable rollback run_actions run_action failure_of report before sorted add_rollback
    advance state_transaction new_transaction restore_and_save reapply_restored_state
    restore_state_in_place deep_copy unwinding add_users rollback_after_apply_failure get_protocol
    lookup insert completed lower strip
enable_fails = (refl, refl)

failed : (enable hooks "naive" world).0 ≢ ok true
failed h = cc (enable_fails.0, h)

lifecycle_atomic_example :
    SameEntries switches (perform hooks enabling "naive" world).1.state world.state
lifecycle_atomic_example = lifecycle_atomic hooks keeps enabling "naive" world failed

reinstall_fails : (reinstall hooks "naive" world).0 ≡ ok false
unfolding reinstall uninstall completed rollback run_actions run_action failure_of report before
    sorted add_rollback advance state_transaction new_transaction restore_and_save
    reapply_restored_state restore_state_in_place deep_copy unwinding rollback_after_apply_failure
    get_protocol lookup insert
reinstall_fails = refl

not_reinstalled : (reinstall hooks "naive" world).0 ≢ ok true
not_reinstalled h = cc (reinstall_fails, h)

reinstall_atomic_example : SameEntries switches (reinstall hooks "naive" world).1.state world.state
reinstall_atomic_example = reinstall_atomic hooks keeps "naive" world not_reinstalled

-- A protocol with a domain of its own, and with a default that counts only where a key is missing.
abbrev owning : Capabilities (List String)
owning = record {
  tls_domain_source = "protocol";
  config_defaults = ("network", Value.text "tcp") ∷ ("domain", Value.text "b.example") ∷ [];
  needs_tls_domain = λ w. true;
  certificate_requirements = λ w. [];
}

abbrev own : Provider (List String)
own = record {
  get_plugin = λ name. some (some owning);
  ensure = λ domain config host. (ok ("cert", "key"), host ++ domain ∷ []);
  str = written;
}
  where
    written : Value → String
    written (Value.text s) = s
    written _ = ""

abbrev entry : PluginState
entry = record {
  enabled = true;
  port = 443;
  installed = true;
  config = ("domain", Value.text " A.Example. ") ∷ [];
}

abbrev with_entry : World (List String)
with_entry = record world { state = record state { protocols = ("naive", entry) ∷ [] } }

entry_prepared : (prepare_enable own "naive" with_entry).0 ≡ ok tt
unfolding prepare_enable lower strip
entry_prepared = refl

entry_completed :
    lookup "naive" (prepare_enable own "naive" with_entry).1.state.protocols
    ≡ some (record entry {
      config =
          ("domain", Value.text "a.example")
          ∷ ("network", Value.text "tcp")
          ∷ ("cert_file", Value.text "cert")
          ∷ ("key_file", Value.text "key")
          ∷ [];
    })
unfolding prepare_enable lower strip
entry_completed = refl

entry_found : lookup "naive" with_entry.state.protocols ≡ some entry
unfolding lookup
entry_found = refl

prepare_enable_example :
    (domain : String) × (pair : String × String) × (q : PluginState) × (domain
      ≡ normal_domain (asked_domain own owning with_entry entry))
    × (str_eq domain "" ≡ false)
    × ((own.ensure domain (normalize_protocol_config entry.config owning.config_defaults) []).0
        ≡ ok pair)
    × (lookup "naive" (prepare_enable own "naive" with_entry).1.state.protocols ≡ some q)
    × ((key : String)
        → lookup key q.config
          ≡ completed_at own true domain pair entry.config owning.config_defaults key)
prepare_enable_example =
    prepare_enable_lem own owning "naive" with_entry entry refl entry_found refl refl entry_prepared
