-- ===== src/Configuration.antt =====
-- hydra/services/configuration.py: `ConfigurationApplier.apply`, which brings the host to the state.
pub mod Apply
pub mod Order
mod Tests
use hydra_ultimate.Base.{
  ℕ, ◌+◌, ◌-◌, String, Bool, true, false, not, ◌&&◌, ◌||◌, Option, none, some, List, [], ◌∷◌, ◌++◌,
  map, str_eq, if◌then◌else◌, concat, length, take, Result, ok, err, Exec, Exception, message, pure,
  raise, lift, gets, try_except, modify, ◌>>=◌, ◌>>◌,
}
use hydra_ultimate.Base.Int.{ℤ, pos}
use hydra_ultimate.Base.Text.{prefix}
use hydra_ultimate.Base.Dict.{Dict, keys}
use hydra_ultimate.Transaction.{
  Outcome, flag, object, RollbackFailure, ApplyTransaction, new, advance, add_rollback, rollback,
  commit,
}

-- What `apply` calls, on a world `W` that holds the state and the host: plugins `P` with snapshots `S`,
-- fragments `F`, a Sing-Box document `C` and its bytes `B`, nftables rules `N`, and a router `R`.
pub record Services (W P S F C B N R : Type 0) : Type 0 where
  pub plugin_name : P → String
  pub set_apply_error : String → W → W
  pub log : String → W → W
  pub journal : String → Dict String → W → W
  pub prepare_state : Exec W (Unit {0})
  pub tproxy_enabled : W → Bool
  pub enable_tproxy : W → W
  pub save_state : Exec W (Unit {0})
  pub collect_fragments : Exec W (Dict F)
  pub generate_config : Dict F → Exec W C
  pub config_exists : W → Bool
  pub read_config : Exec W (Option B)
  pub write_config : C → Exec W Bool
  pub singbox_error : W → String
  pub put_config : Option B → Exec W (Unit {0})
  pub is_os_error : Exception → Bool
  pub snapshot_tproxy : Exec W N
  pub restore_tproxy : N → Exec W (Unit {0})
  pub apply_tproxy : Dict F → Exec W (Unit {0})
  pub migrate_haproxy : Exec W (Unit {0})
  pub needs_mux : W → Bool
  pub snapshot_runtime : Exec W R
  pub is_absent : R → Bool
  pub restore_runtime : R → Exec W (Unit {0})
  pub stop_mux : Exec W (Unit {0})
  pub wait_for_port_release : W → W
  pub apply_enabled : Exec W (List (P × S))
  pub enabled_names : W → List String
  pub roll_back : P → S → Exec W Bool
  pub reload : Exec W Bool
  pub rebuild : Exec W Bool
  pub finalize : P → Exec W Bool
  pub finalize_detail : P → W → String
  pub manage_traffic_daemon : Exec W (Unit {0})
  pub health_all : Exec W (Dict String)

module _ {W P S F C B N R : Type 0} (services : Services W P S F C B N R) where
  open services use {
    plugin_name, set_apply_error, log, journal, prepare_state, tproxy_enabled, enable_tproxy,
    save_state, collect_fragments, generate_config, config_exists, read_config, write_config,
    singbox_error, put_config, is_os_error, snapshot_tproxy, restore_tproxy, apply_tproxy,
    migrate_haproxy, needs_mux, snapshot_runtime, is_absent, restore_runtime, stop_mux,
    wait_for_port_release, apply_enabled, roll_back, reload, rebuild, finalize, finalize_detail,
    manage_traffic_daemon, health_all,
  }

  abbrev pub with_message : String → Exception → String
  with_message text exc = concat (text ∷ message exc ∷ [])

  -- `try: m` / `except Exception as exc: log(…)`, as a rollback callback.
  abbrev logged : String → Exec W (Unit {0}) → Exec W Outcome
  logged text m = try_except m (λ exc. modify (log (with_message text exc))) >> pure object

  abbrev action_errors : List RollbackFailure → String
  action_errors [] = ""
  action_errors (failure ∷ rest) =
      concat (failure.action ∷ ": " ∷ prefix 200 failure.error ∷ "; " ∷ action_errors rest ∷ [])

  abbrev journal_failures : String → String → List RollbackFailure → W → W
  journal_failures stage text [] w = w
  journal_failures stage text (failure ∷ rest) w =
      journal "rollback_failed"
        (("stage", stage)
          ∷ ("error", text)
          ∷ ("failures", action_errors (take 5 (failure ∷ rest)))
          ∷ [])
        w

  abbrev pub reload_again : Exec W (Unit {0})
  reload_again =
      try_except (reload >> pure tt) (λ exc.
        modify (log (with_message "Не удалось перезагрузить восстановленный Sing-Box: " exc)))

  -- `fail`
  unfoldable pub fail : ApplyTransaction W → String → String → Bool → Exec W Bool
  fail tx stage text reload_restored = do
    modify (set_apply_error text)
    modify (log text)
    failures ← (λ w. let undone = rollback (some log) tx w in (ok undone.0, undone.2))
    modify (journal "rolled_back" (("stage", stage) ∷ ("error", text) ∷ []))
    modify (journal_failures stage text failures)
    (if reload_restored then reload_again else pure tt)
    pure false

  abbrev pub journal_failed : String → String → Exec W Bool
  journal_failed stage text =
      modify (journal "failed" (("stage", stage) ∷ ("error", text) ∷ [])) >> pure false

  -- `_run_preflight`
  unfoldable pub run_preflight : Exec W Bool
  run_preflight = try_except (prepare_state >> pure true) (λ exc. do
    modify (set_apply_error (with_message "TLS preflight failed: " exc))
    modify (log (with_message "TLS preflight failed: " exc))
    journal_failed "preflight" (with_message "TLS preflight failed: " exc))

  -- `_ensure_tproxy_enabled`
  unfoldable pub ensure_tproxy_enabled : Exec W (Unit {0})
  ensure_tproxy_enabled = do
    enabled ← gets tproxy_enabled
    if enabled then pure tt else (modify enable_tproxy >> save_state)

  -- `_register_caddy_rollback`
  abbrev pub caddy_callback : R → Exec W Outcome
  caddy_callback backup =
      logged "Не удалось восстановить SNI-маршрутизатор: " (restore_runtime backup)

  abbrev pub plan_caddy : Option R → ApplyTransaction W → Result (ApplyTransaction W)
  plan_caddy none tx = ok tx
  plan_caddy (some backup) tx =
      if is_absent backup
      then ok tx
      else add_rollback "caddy runtime" (caddy_callback backup) (pos 25) tx

  unfoldable pub register_caddy_rollback : ApplyTransaction W → Exec W (ApplyTransaction W)
  unfolding add_rollback
  register_caddy_rollback tx = do
    backup ← try_except (snapshot_runtime >>= λ backup. pure (some backup)) (λ exc.
        modify (log (with_message "Не удалось снять снимок SNI-маршрутизатора: " exc)) >> pure none)
    lift (plan_caddy backup tx)

  -- `_register_plugin_rollbacks`, from the given index
  unfoldable pub register_plugin_rollbacks :
      ℕ → ℕ → List (P × S) → ApplyTransaction W → Result (ApplyTransaction W)
  unfolding add_rollback
  register_plugin_rollbacks count index [] tx = ok tx
  register_plugin_rollbacks count index ((plugin, taken) ∷ rest) tx =
      elim (add_rollback (concat ("plugin " ∷ plugin_name plugin ∷ []))
        (do done ← roll_back plugin taken; pure (flag done)) (pos (30 + count - index)) tx) [
          | err exc ↦ err exc
          | ok tx' ↦ register_plugin_rollbacks count (index + 1) rest tx'
        ]

  -- `_plugin_finalize_detail`
  abbrev pub detail_of : P → W → String
  detail_of plugin w =
      let detail = finalize_detail plugin w in
      if str_eq detail ""
      then concat ("Плагин " ∷ plugin_name plugin ∷ " не подтвердил готовность" ∷ [])
      else detail

  -- `_finalize_plugins`: the reason of the first failure, or the empty text
  unfoldable pub finalize_plugins : List (P × S) → Exec W String
  finalize_plugins [] = pure ""
  finalize_plugins ((plugin, taken) ∷ rest) = do
    reason ←
        try_except
          (do
            finalized ← finalize plugin
            detail ← gets (detail_of plugin)
            pure (if finalized then "" else detail))
          (λ exc. pure (
            concat
              ("Не удалось завершить применение " ∷ plugin_name plugin ∷ ": " ∷ message exc ∷ [])))
    if str_eq reason "" then finalize_plugins rest else pure reason

  -- What `_reload_runtime` returns.
  pub record Reloaded : Type 0 where
    pub singbox_ok : Bool
    pub mux_ok : Bool
    pub stage : String
    pub error : String

  abbrev rebuilt : Bool → Exec W Reloaded
  rebuilt singbox_ok = do
    modify wait_for_port_release
    try_except
        (rebuild >>= λ mux_ok.
          pure (record { singbox_ok = singbox_ok; mux_ok = mux_ok; stage = ""; error = "" }))
        (λ exc. pure (record {
          singbox_ok = singbox_ok;
          mux_ok = false;
          stage = "sni_router";
          error = with_message "Не удалось перестроить SNI-маршрутизатор: " exc;
        }))

  abbrev singbox_reloaded : Exec W (Result Bool)
  singbox_reloaded = try_except (reload >>= λ done. pure (ok done)) (λ exc. pure (err exc))

  abbrev after_reload : Bool → Result Bool → Exec W Reloaded
  after_reload mux_active (err exc) = pure (record {
    singbox_ok = false;
    mux_ok = true;
    stage = "singbox_reload";
    error = with_message "Не удалось перезагрузить Sing-Box: " exc;
  })
  after_reload true (ok singbox_ok) = rebuilt singbox_ok
  after_reload false (ok singbox_ok) =
      pure (record { singbox_ok = singbox_ok; mux_ok = true; stage = ""; error = "" })

  unfoldable pub reload_runtime : Bool → Exec W Reloaded
  reload_runtime mux_active = singbox_reloaded >>= after_reload mux_active

  abbrev pub restore_config : Option B → Exec W Outcome
  restore_config previous =
      try_except (put_config previous) (λ exc.
        if is_os_error exc
        then modify (log (with_message "Failed to restore sing-box config: " exc))
        else raise exc)
      >> pure object

  abbrev pub restore_nft : N → Exec W Outcome
  restore_nft taken =
      logged "Не удалось восстановить правила nftables HYDRA: " (restore_tproxy taken)
