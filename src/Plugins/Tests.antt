-- ===== src/Plugins/Tests.antt =====
-- Runs of the plugin executor on three plugins, the last of which fails.
use hydra_ultimate.Base.{
  String, ◌≡◌, refl, true, false, not, ◌&&◌, contains, none, List, [], ◌∷◌, ◌++◌, ok, err, ap,
  Exception, runtime_error, keep, sorted, str_eq,
}
use hydra_ultimate.Base.Value.{Value}
use hydra_ultimate.State.{AppState, User, user_can_use}
use hydra_ultimate.Transaction.{
  rollback, run_actions, run_action, failure_of, report, before, add_rollback, advance, commit,
}
use hydra_ultimate.Plugins.{PluginMeta, transport, authorized_state, uses_central_apply}
use hydra_ultimate.Base.Dict.{Dict}
use hydra_ultimate.Plugins.Healthy.{is_empty, all_healthy, health_all-healthy}
use hydra_ultimate.Plugins.Authorized.{authorized_exactly}
use hydra_ultimate.Plugins.Executor.{
  health_all, Hooks, apply_enabled, apply_all, apply_one, apply_checked, unwind,
  apply_failure_message,
}
use hydra_ultimate.Plugins.Unwind.{Restorable, apply_enabled_atomic}

-- The world is what runs, and a log.
abbrev Host : Type 0
Host = List String × List String

abbrev plugin : String → PluginMeta
plugin name = record { name = name; category = transport; central_apply = none }

abbrev hooks : Hooks Host PluginMeta (List String) String
hooks = record {
  meta = λ p. p;
  configure = λ p w. (ok p.name, w);
  validate_fragment = λ f w. (ok tt, w);
  is_empty = λ f. str_eq f "";
  snapshot = λ p w. (ok w.0, w);
  apply = λ p w. (ok (not (str_eq p.name "naive")), (p.name ∷ w.0, w.1));
  roll_back = λ p s w. (ok true, (s, w.1 ++ p.name ∷ []));
  health = λ p w. (ok (record { healthy = true; detail = "" }), w);
  failure_stage = λ p w. "port is in use";
  log_error = λ m w. (w.0, w.1 ++ m ∷ []);
}

abbrev running : Host → List String
running w = w.0

restorable : Restorable hooks running
restorable = record { taking = λ p w. refl; undoing = λ p s w w' v h e. cc; logging = λ m w. refl }

abbrev start : Host
start = ("ssh" ∷ [], [])

abbrev chosen : List PluginMeta
chosen = plugin "anytls" ∷ plugin "wdtt" ∷ plugin "naive" ∷ []

reason : Exception
reason = runtime_error "Plugin naive apply returned false: port is in use"

-- The plugin "wdtt" is left out, and the failed plugin is undone before the one that was applied.
naive_fails : apply_enabled hooks chosen start ≡ (err reason, ("ssh" ∷ [], "naive" ∷ "anytls" ∷ []))
unfolding reason apply_enabled apply_all apply_one apply_checked unwind apply_failure_message
    rollback run_actions run_action failure_of report before sorted add_rollback advance commit
    uses_central_apply
naive_fails = refl

apply_enabled_atomic_example : running (apply_enabled hooks chosen start).1 ≡ running start
apply_enabled_atomic_example =
    apply_enabled_atomic hooks running restorable chosen start reason (ap (λ x. x.0) naive_fails)

abbrev someone : String → List String → User
someone email disabled = record {
  email = email;
  uuid = email;
  traffic_limit_gb = record { num = 0; shift = 0 };
  traffic_used_bytes = 0;
  expiry_date = "";
  blocked = false;
  created_at = "";
  telegram_id = none;
  credentials = [];
  device_limit = 0;
  devices = [];
  hydrabox_jwe_key = "";
  configuration_name_overrides = [];
  disabled_protocols = disabled;
}

abbrev state : AppState User
state = record {
  format_version = 1;
  revision = 7;
  install = [];
  configuration_names = [];
  protocols = [];
  users = someone "ann" [] ∷ someone "bob" ("naive" ∷ []) ∷ [];
  telegram = Value.null;
  network = record {
    domain = "";
    sub_domain = "";
    server_ip = "";
    dns_servers = [];
    dnscrypt_port = 5300;
    tproxy_enabled = true;
    tproxy_port = 1;
    clash_api_enabled = false;
    clash_api_port = 9090;
    clash_api_secret = "";
  };
  headless_creator = Value.null;
  kernel = Value.null;
  core_extensions = [];
  feature_extensions = [];
}

only_ann : keep (λ user. user_can_use user "naive") state.users ≡ someone "ann" [] ∷ []
unfolding user_can_use
only_ann = refl

authorized_exactly_example :
    (authorized_state (plugin "naive") state).users
    ≡ keep (λ user. not user.blocked && not (contains "naive" user.disabled_protocols)) state.users
authorized_exactly_example = authorized_exactly (plugin "naive") state

-- The plugin "anytls" is asked, and "wdtt" is not.
health_all-healthy_example :
    (failures : Dict String) × ((health_all hooks [] chosen [] start).0 ≡ ok failures)
    × (is_empty failures ≡ all_healthy hooks [] chosen start)
health_all-healthy_example = health_all-healthy hooks [] chosen start
