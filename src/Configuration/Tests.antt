-- ===== src/Configuration/Tests.antt =====
-- The rollback plan of an apply that started two plugins.
use hydra_ultimate.Base.{
  String, ◌≡◌, refl, Bool, true, some, List, [], ◌∷◌, ok, err, and_then, runtime_error, sorted,
}
use hydra_ultimate.Transaction.{
  before, add_rollback, rollback, run_actions, run_action, failure_of, report, advance,
}
use hydra_ultimate.Transaction.Order.{reversed, schedule}
use hydra_ultimate.Configuration.{
  Services, restore_config, restore_nft, caddy_callback, register_plugin_rollbacks, fail,
  run_preflight, ensure_tproxy_enabled, register_caddy_rollback, reload_runtime,
}
use hydra_ultimate.Configuration.Apply.{
  apply, apply_fragments, apply_network, apply_plugins, finish,
}
use hydra_ultimate.Configuration.Order.{plugin_actions, numbered, registered, registered-schedule}

abbrev Host : Type 0
Host = List String

abbrev call : String → Host → Host
call s w = s ∷ w

-- Every call is put in front of the earlier ones; the reload of Sing-Box raises.
abbrev services : Services Host String String String String String String String
services = record {
  plugin_name = λ p. p;
  set_apply_error = λ s w. w;
  log = λ s w. w;
  journal = λ s d w. w;
  prepare_state = λ w. (ok tt, w);
  tproxy_enabled = λ w. true;
  enable_tproxy = λ w. w;
  save_state = λ w. (ok tt, call "save" w);
  collect_fragments = λ w. (ok [], w);
  generate_config = λ d w. (ok "new", w);
  config_exists = λ w. true;
  read_config = λ w. (ok (some "old"), w);
  write_config = λ c w. (ok true, call c w);
  singbox_error = λ w. "";
  put_config = λ b w. (ok tt, call "old document" w);
  is_os_error = λ exc. Bool.false;
  snapshot_tproxy = λ w. (ok "rules", w);
  restore_tproxy = λ n w. (ok tt, call "old rules" w);
  apply_tproxy = λ d w. (ok tt, call "rules" w);
  migrate_haproxy = λ w. (ok tt, w);
  needs_mux = λ w. true;
  snapshot_runtime = λ w. (ok "router", w);
  is_absent = λ r. Bool.false;
  restore_runtime = λ r w. (ok tt, call "old router" w);
  stop_mux = λ w. (ok tt, call "stop" w);
  wait_for_port_release = λ w. w;
  apply_enabled = λ w. (ok (("a", "") ∷ ("b", "") ∷ []), call "plugins" w);
  enabled_names = λ w. [];
  roll_back = λ p s w. (ok true, call p w);
  reload = λ w. (err (runtime_error "busy"), call "reload" w);
  rebuild = λ w. (ok true, call "rebuild" w);
  finalize = λ p w. (ok true, w);
  finalize_detail = λ p w. "";
  manage_traffic_daemon = λ w. (ok tt, w);
  health_all = λ w. (ok [], w);
}

-- A reload that raises restores the document, the rules, the router and the plugins from the last one
-- back, and then reloads Sing-Box again.
reload_fails : apply services [] ≡ (
  ok Bool.false,
  "reload" ∷ "a" ∷ "b" ∷ "old router" ∷ "old rules" ∷ "old document" ∷ "reload" ∷ "plugins"
      ∷ "rules" ∷ "new" ∷ [],
)
unfolding apply run_preflight ensure_tproxy_enabled apply_fragments apply_network apply_plugins
    finish fail register_caddy_rollback register_plugin_rollbacks reload_runtime add_rollback
    advance rollback run_actions run_action failure_of report sorted before
reload_fails = refl

registered-schedule_example :
    and_then
      (registered services
        (some "old")
        "rules"
        (some "router")
        (("a", "") ∷ ("b", "") ∷ [])
        (record { phase = "snapshot"; actions = []; sequence = 0; finalized = Bool.false }))
      (λ tx. ok (schedule tx))
    ≡ ok (
        numbered services 10 0 "sing-box config" (restore_config services (some "old"))
        ∷ numbered services 20 1 "nftables" (restore_nft services "rules")
        ∷ numbered services 25 2 "caddy runtime" (caddy_callback services "router")
        ∷ reversed (plugin_actions services 2 0 3 (("a", "") ∷ ("b", "") ∷ [])))
registered-schedule_example =
    registered-schedule services (some "old") "rules" "router" (("a", "") ∷ ("b", "") ∷ [])
      "snapshot" refl
