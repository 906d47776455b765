-- ===== src/Configuration/Apply.antt =====
-- The stages of `ConfigurationApplier.apply`, from its end to its start.
use hydra_ultimate.Base.{
  String, Bool, true, false, not, ◌&&◌, Option, none, List, [], ◌∷◌, map, str_eq, if◌then◌else◌,
  concat, length, Result, ok, err, Exec, message, pure, lift, gets, try_except, modify, ◌>>=◌, ◌>>◌,
}
use hydra_ultimate.Base.Int.{pos}
use hydra_ultimate.Base.Dict.{Dict}
use hydra_ultimate.Transaction.{ApplyTransaction, new, advance, add_rollback, commit}
use hydra_ultimate.Configuration.{
  Services, Reloaded, with_message, fail, journal_failed, run_preflight, ensure_tproxy_enabled,
  register_caddy_rollback, register_plugin_rollbacks, finalize_plugins, reload_runtime,
  restore_config, restore_nft,
}

-- How a guarded call ends.
abbrev attempted : {W A : Type 0} → Exec W A → Exec W (Result A)
attempted m = try_except (m >>= λ a. pure (ok a)) (λ exc. pure (err exc))

module _ {W P S F C B N R : Type 0} (services : Services W P S F C B N R) where
  open services use {
    plugin_name, set_apply_error, log, journal, save_state, collect_fragments, generate_config,
    config_exists, read_config, write_config, singbox_error, snapshot_tproxy, apply_tproxy,
    migrate_haproxy, needs_mux, stop_mux, wait_for_port_release, apply_enabled, enabled_names,
    manage_traffic_daemon, health_all,
  }

  abbrev health_details : Dict String → String
  health_details [] = ""
  health_details ((name, reason) ∷ []) = concat (name ∷ ": " ∷ reason ∷ [])
  health_details ((name, reason) ∷ more ∷ rest) =
      concat (name ∷ ": " ∷ reason ∷ "; " ∷ health_details (more ∷ rest) ∷ [])

  abbrev saved : ApplyTransaction W → Result (Unit {0}) → Exec W Bool
  saved tx (err exc) =
      fail services tx "state"
        (with_message services "Не удалось сохранить применённую конфигурацию: " exc) true
  saved tx (ok done) = do lift (commit tx); modify (journal "committed" []); pure true

  abbrev or_default : String → String → String
  or_default s t = if str_eq s "" then t else s

  abbrev runtime_failed : ApplyTransaction W → Bool → Exec W Bool
  runtime_failed tx singbox_ok = do
    text ← gets (λ w.
        if singbox_ok
        then "SNI-маршрутизатор не запустился после применения"
        else or_default (singbox_error w) "Sing-Box не запустился после применения")
    modify (set_apply_error text)
    fail services tx "healthcheck" text true

  -- After the health check
  unfoldable pub check_runtime : ApplyTransaction W → Reloaded services → Exec W Bool
  unfolding fail commit
  check_runtime tx r =
      if r.singbox_ok && r.mux_ok
      then (attempted save_state >>= saved tx)
      else runtime_failed tx r.singbox_ok

  abbrev checked : ApplyTransaction W → Reloaded services → Dict String → Exec W Bool
  checked tx r [] = check_runtime tx r
  checked tx r (failure ∷ rest) =
      fail services tx "plugin_health"
        (concat ("Проверка сервисов не пройдена: " ∷ health_details (failure ∷ rest) ∷ [])) true

  abbrev daemon_managed : ApplyTransaction W → Reloaded services → Result (Unit {0}) → Exec W Bool
  daemon_managed tx r (err exc) =
      fail services tx "traffic_daemon"
        (with_message services "Не удалось применить сервис учёта трафика: " exc) true
  daemon_managed tx r (ok done) = do
    tx' ← lift (advance "healthcheck" tx)
    failures ← health_all
    checked tx' r failures

  abbrev finalized : ApplyTransaction W → Reloaded services → String → Exec W Bool
  finalized tx r reason =
      if r.mux_ok && not (str_eq reason "")
      then fail services tx "plugin_finalize" reason true
      else (attempted manage_traffic_daemon >>= daemon_managed tx r)

  abbrev finalize_if : Bool → List (P × S) → Exec W String
  finalize_if mux_ok applied = if mux_ok then finalize_plugins services applied else pure ""

  -- After the reload
  unfoldable pub finish : ApplyTransaction W → List (P × S) → Reloaded services → Exec W Bool
  unfolding fail finalize_plugins check_runtime advance
  finish tx applied r =
      if str_eq r.error ""
      then (finalize_if r.mux_ok applied >>= finalized tx r)
      else fail services tx r.stage r.error true

  abbrev plugins_applied : ApplyTransaction W → Bool → Result (List (P × S)) → Exec W Bool
  plugins_applied tx mux_active (err exc) =
      fail services tx "plugins"
        (with_message services "Не удалось применить конфигурацию плагина: " exc) false
  plugins_applied tx mux_active (ok applied) = do
    tx' ← lift (register_plugin_rollbacks services (length applied) 0 applied tx)
    r ← reload_runtime services mux_active
    finish tx' applied r

  abbrev journal_plugins : Exec W (Unit {0})
  journal_plugins =
      modify (λ w. journal "plugins_applied" (map (λ name. ("plugins", name)) (enabled_names w)) w)

  -- After nftables
  unfoldable pub apply_plugins : ApplyTransaction W → Exec W Bool
  unfolding register_caddy_rollback register_plugin_rollbacks reload_runtime finish
  apply_plugins tx = do
    migrate_haproxy
    mux_active ← gets needs_mux
    tx' ← register_caddy_rollback services tx
    (if mux_active then pure tt else (stop_mux >> modify wait_for_port_release))
    applied ← attempted (do plugins ← apply_enabled; journal_plugins; pure plugins)
    plugins_applied tx' mux_active applied

  abbrev nft_applied : ApplyTransaction W → Result (Unit {0}) → Exec W Bool
  nft_applied tx (err exc) =
      fail services tx "nft"
        (with_message services "Не удалось применить сетевую конфигурацию: " exc) false
  nft_applied tx (ok done) = apply_plugins tx

  abbrev pub register_config : Option B → ApplyTransaction W → Result (ApplyTransaction W)
  register_config previous tx =
      add_rollback "sing-box config" (restore_config services previous) (pos 10) tx

  abbrev pub register_nft : N → ApplyTransaction W → Result (ApplyTransaction W)
  register_nft taken tx = add_rollback "nftables" (restore_nft services taken) (pos 20) tx

  -- After the Sing-Box document was written: `previous` is the document that it replaces.
  unfoldable pub apply_network : Option B → Dict F → ApplyTransaction W → Exec W Bool
  unfolding add_rollback advance apply_plugins
  apply_network previous fragments tx = do
    tx' ← lift (register_config previous tx)
    taken ← snapshot_tproxy
    tx'' ← lift (register_nft taken tx')
    tx''' ← lift (advance "apply" tx'')
    done ← attempted (apply_tproxy fragments >> modify (journal "nft_applied" []))
    nft_applied tx''' done

  abbrev not_written : Exec W Bool
  not_written = do
    text ← gets (λ w. or_default (singbox_error w) "Не удалось записать конфигурацию Sing-Box")
    modify (set_apply_error text)
    journal_failed services "singbox_config" text

  abbrev read_previous : Bool → Exec W (Option B)
  read_previous exists = if exists then try_except read_config (λ exc. pure none) else pure none

  unfoldable pub apply_fragments : Dict F → ApplyTransaction W → Exec W Bool
  unfolding apply_network
  apply_fragments fragments tx = do
    config ← generate_config fragments
    tx' ← lift (advance "snapshot" tx)
    exists ← gets config_exists
    previous ← read_previous exists
    written ← write_config config
    if written then apply_network previous fragments tx' else not_written

  abbrev collected : ApplyTransaction W → Result (Dict F) → Exec W Bool
  collected tx (err exc) = do
    modify (set_apply_error (message exc))
    modify (log (message exc))
    journal_failed services "collect_fragments" (message exc)
  collected tx (ok fragments) = apply_fragments fragments tx

  abbrev prepared : Bool → Exec W Bool
  prepared false = pure false
  prepared true = do
    ensure_tproxy_enabled services
    fragments ← attempted (do
      found ← collect_fragments
      modify (journal "fragments_collected" (map (λ f. ("plugins", f.0)) found))
      pure found)
    collected new fragments

  -- `apply`
  unfoldable pub apply : Exec W Bool
  unfolding run_preflight ensure_tproxy_enabled apply_fragments
  apply = do
    modify (set_apply_error "")
    modify (journal "started" [])
    ready ← run_preflight services
    prepared ready
