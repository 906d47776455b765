-- ===== src/Lifecycle.antt =====
-- hydra/services/plugin_lifecycle.py: installing, removing, enabling and disabling a plugin.
pub mod Setup
pub mod Restore
pub mod Ends
pub mod Atomic
pub mod Reinstall
mod Tests
use hydra_ultimate.Base.{
  ℕ, String, Bool, true, false, Option, none, some, List, [], ◌∷◌, str_eq, if◌then◌else◌, concat,
  Result, ok, err, Exec, Exception, runtime_error, pure, raise, lift, gets, try_except, modify,
  ◌>>=◌, ◌>>◌,
}
use hydra_ultimate.Base.Int.{ℤ, pos}
use hydra_ultimate.State.{AppState, User, PluginState, get_protocol, put_protocol}
use hydra_ultimate.Transaction.{Outcome, object, ApplyTransaction, add_rollback, rollback, commit}
use hydra_ultimate.Users.{Operations, as_callback, new_transaction}
use hydra_ultimate.Users.Memory.{World, deep_copy}

-- The callables of `PluginLifecycleOperations` beside those that it shares with the user lifecycle.
-- `lifecycle_result` gives the `ok` of the `LifecycleResult`.
pub record Hooks (P H : Type 0) : Type 0 where
  pub shared : Operations P H
  pub get_plugin : String → Option P
  pub lifecycle_result : P → String → Exec (World H) Bool
  pub set_apply_error : String → World H → World H
  pub prepare_enable : String → Exec (World H) (Unit {0})
  pub failure_stage : P → String → World H → String

-- An update of `get_protocol(state, name)`, which is created if it is missing.
abbrev pub update_protocol :
    {U : Type 0} → String → (PluginState → PluginState) → AppState U → AppState U
update_protocol name f state =
    let (protocol, state') = get_protocol state name in put_protocol name (f protocol) state'

module _ {P H : Type 0} (hooks : Hooks P H) where
  open hooks use {
    shared, get_plugin, lifecycle_result, set_apply_error, prepare_enable, failure_stage,
  }
  open shared use {apply_config, save_state, last_apply_error, log_rollback_error, user_add}

  abbrev pub put_state : AppState ℕ → World H → World H
  put_state state w = record w { state = state }

  -- `self.get_protocol(state, name)`
  abbrev pub protocol_of : String → Exec (World H) PluginState
  protocol_of name w =
      let (protocol, state) = get_protocol w.state name in (ok protocol, put_state state w)

  abbrev pub change_protocol : String → (PluginState → PluginState) → Exec (World H) (Unit {0})
  change_protocol name f = modify (λ w. put_state (update_protocol name f w.state) w)

  abbrev pub roll_back : ApplyTransaction (World H) → Exec (World H) (Unit {0})
  roll_back tx = modify (λ w. (rollback (some log_rollback_error) tx w).2)

  -- `try: …` / `except Exception: transaction.rollback(…)`; `raise`
  unfoldable pub unwinding :
      {A : Type 0} → ApplyTransaction (World H) → Exec (World H) A → Exec (World H) A
  unwinding tx m = try_except m (λ exc. roll_back tx >> raise exc)

  unfoldable pub require_success : Exec (World H) Bool → String → Exec (World H) (Unit {0})
  require_success m message = do done ← m; if done then pure tt else raise (runtime_error message)

  unfoldable pub rollback_after_apply_failure :
      ApplyTransaction (World H) → Exec (World H) (Unit {0})
  rollback_after_apply_failure tx = do
    failure ← gets last_apply_error
    roll_back tx
    modify (set_apply_error failure)

  -- The end of an operation, once the new configuration was applied or not.
  abbrev pub settle : ApplyTransaction (World H) → Bool → Exec (World H) Bool
  settle tx applied =
      if applied
      then (lift (commit tx) >> pure true)
      else (rollback_after_apply_failure tx >> pure false)

  abbrev pub title : String → String → String
  title name hook = concat ("plugin " ∷ name ∷ "." ∷ hook ∷ [])

  abbrev pub about : String → String → String
  about name rest = concat ("Plugin " ∷ name ∷ rest ∷ [])

  abbrev pub installed_text : String → String → String
  installed_text name stage =
      if str_eq stage ""
      then concat ("Установка " ∷ name ∷ " не удалась" ∷ [])
      else concat ("Установка " ∷ name ∷ ": " ∷ stage ∷ [])

  abbrev pub note_install_failure : String → P → Exec (World H) (Unit {0})
  note_install_failure name plugin =
      modify (λ w. set_apply_error (installed_text name (failure_stage plugin "install" w)) w)

  -- `_note_apply_failure`
  abbrev pub noted_apply : String → String → String → World H → World H
  noted_apply name stage failure w =
      if str_eq stage ""
      then if str_eq failure ""
        then set_apply_error (concat ("Включение " ∷ name ∷ " не удалось" ∷ [])) w
        else w
      else set_apply_error (concat ("Применение " ∷ name ∷ ": " ∷ stage ∷ [])) w

  abbrev pub note_apply_failure : String → P → Exec (World H) (Unit {0})
  note_apply_failure name plugin =
      modify (λ w. noted_apply name (failure_stage plugin "apply" w) (last_apply_error w) w)

  -- `if not plugin: return False`
  abbrev pub on_found : Option P → (P → Exec (World H) Bool) → Exec (World H) Bool
  on_found none f = pure false
  on_found (some plugin) f = f plugin

  abbrev with_plugin : (String → P → Exec (World H) Bool) → String → Exec (World H) Bool
  with_plugin f name = on_found (get_plugin name) (f name)

  abbrev cleanup : String → P → Exec (World H) Outcome
  cleanup name plugin =
      as_callback shared
        (require_success (lifecycle_result plugin "uninstall") (about name " cleanup failed"))

  abbrev pub applied_if : Bool → Exec (World H) Bool
  applied_if enabled = if enabled then apply_config else pure true

  unfoldable pub save_installed : String → ApplyTransaction (World H) → Exec (World H) Bool
  unfolding rollback_after_apply_failure
  save_installed name tx = do
    change_protocol name (λ p. record p { installed = true })
    save_state
    protocol ← protocol_of name
    applied ← applied_if protocol.enabled
    if applied then pure true else (rollback_after_apply_failure tx >> pure false)

  abbrev pub commit_if : ApplyTransaction (World H) → Bool → Exec (World H) Bool
  commit_if tx applied = if applied then (lift (commit tx) >> pure true) else pure false

  unfoldable pub install_save : String → ApplyTransaction (World H) → Exec (World H) Bool
  unfolding unwinding save_installed
  install_save name tx = do
    protocol_of name
    applied ← unwinding tx (save_installed name tx)
    commit_if tx applied

  -- `install` after a successful hook
  unfoldable pub install_done : String → P → Bool → ApplyTransaction (World H) → Exec (World H) Bool
  unfolding add_rollback install_save
  install_done name plugin true tx = install_save name tx
  install_done name plugin false tx = do
    tx' ← lift (add_rollback (title name "uninstall") (cleanup name plugin) (pos 10) tx)
    install_save name tx'

  unfoldable pub install_failed : String → P → ApplyTransaction (World H) → Exec (World H) Bool
  install_failed name plugin tx = do
    note_install_failure name plugin
    failure ← gets last_apply_error
    roll_back tx
    modify (λ w. if str_eq failure "" then w else set_apply_error failure w)
    pure false

  -- `get_protocol(snapshot, name)` creates the entry in the snapshot that is restored later.
  unfoldable pub install_ended :
      String → P → AppState User → ApplyTransaction (World H) → Bool → Exec (World H) Bool
  unfolding new_transaction install_done install_failed
  install_ended name plugin snapshot tx false = install_failed name plugin tx
  install_ended name plugin snapshot tx true = do
    tx' ← lift (new_transaction shared (get_protocol snapshot name).1)
    install_done name plugin (get_protocol snapshot name).0.installed tx'

  unfoldable pub install_found : String → P → Exec (World H) Bool
  unfolding new_transaction unwinding install_ended
  install_found name plugin = do
    snapshot ← gets deep_copy
    tx ← lift (new_transaction shared snapshot)
    installed ← unwinding tx (lifecycle_result plugin "install")
    install_ended name plugin snapshot tx installed

  unfoldable pub install : String → Exec (World H) Bool
  unfolding install_found
  install name = with_plugin install_found name

  abbrev pub enable_again : P → Exec (World H) Outcome
  enable_again plugin = lifecycle_result plugin "enable" >> pure object

  abbrev pub install_again : String → P → String → Exec (World H) (Unit {0})
  install_again name plugin rest =
      require_success (lifecycle_result plugin "install") (about name rest)

  abbrev cleared : PluginState → PluginState
  cleared p = record { enabled = false; port = 0; installed = false; config = [] }

  abbrev pub apply_cleared : String → Exec (World H) Bool
  apply_cleared name = do change_protocol name cleared; save_state; apply_config

  unfoldable pub uninstall_ended : String → ApplyTransaction (World H) → Bool → Exec (World H) Bool
  unfolding unwinding rollback_after_apply_failure
  uninstall_ended name tx false = roll_back tx >> pure false
  uninstall_ended name tx true = do applied ← unwinding tx (apply_cleared name); settle tx applied

  unfoldable pub uninstall_run : String → P → ApplyTransaction (World H) → Exec (World H) Bool
  unfolding unwinding uninstall_ended
  uninstall_run name plugin tx = do
    uninstalled ← unwinding tx (lifecycle_result plugin "uninstall")
    uninstall_ended name tx uninstalled

  unfoldable pub uninstall_installed :
      String → P → Bool → ApplyTransaction (World H) → Exec (World H) Bool
  unfolding add_rollback uninstall_run
  uninstall_installed name plugin false tx = uninstall_run name plugin tx
  uninstall_installed name plugin true tx = do
    tx' ← lift (
        add_rollback (title name "install")
          (as_callback shared (install_again name plugin " reinstall failed")) (pos 5) tx)
    uninstall_run name plugin tx'

  unfoldable pub disable_first :
      String → P → Bool → ApplyTransaction (World H) → Exec (World H) Bool
  unfolding add_rollback unwinding uninstall_installed
  disable_first name plugin was_installed tx = do
    unwinding tx (lifecycle_result plugin "disable")
    tx' ← lift (add_rollback (title name "on_enable") (enable_again plugin) (pos 10) tx)
    uninstall_installed name plugin was_installed tx'

  abbrev pub uninstall_from :
      String → P → PluginState → ApplyTransaction (World H) → Exec (World H) Bool
  uninstall_from name plugin protocol tx =
      if protocol.enabled
      then disable_first name plugin protocol.installed tx
      else uninstall_installed name plugin protocol.installed tx

  unfoldable pub uninstall_found : String → P → Exec (World H) Bool
  unfolding new_transaction disable_first uninstall_installed
  uninstall_found name plugin = do
    snapshot ← gets deep_copy
    protocol ← protocol_of name
    tx ← lift (new_transaction shared snapshot)
    uninstall_from name plugin protocol tx

  unfoldable pub uninstall : String → Exec (World H) Bool
  unfolding uninstall_found
  uninstall name = with_plugin uninstall_found name

  unfoldable pub add_users : P → List ℕ → Exec (World H) (Unit {0})
  add_users plugin [] = pure tt
  add_users plugin (user ∷ rest) = do
    blocked ← gets (λ w. (w.objects user).blocked)
    (if blocked then pure tt else user_add plugin user)
    add_users plugin rest

  abbrev pub apply_enabled : String → P → Exec (World H) Bool
  apply_enabled name plugin = do
    prepare_enable name
    lifecycle_result plugin "enable"
    change_protocol name (λ p. record p { enabled = true })
    save_state
    users ← gets (λ w. w.state.users)
    add_users plugin users
    save_state
    apply_config

  abbrev pub enable_ended : String → P → ApplyTransaction (World H) → Bool → Exec (World H) Bool
  enable_ended name plugin tx applied =
      (if applied then pure tt else note_apply_failure name plugin) >> settle tx applied

  unfoldable pub enable_found : String → P → Exec (World H) Bool
  unfolding new_transaction add_rollback unwinding add_users rollback_after_apply_failure
  enable_found name plugin = do
    snapshot ← gets deep_copy
    tx ← lift (new_transaction shared snapshot)
    tx' ← lift (
        add_rollback (title name "on_disable") (lifecycle_result plugin "disable" >> pure object)
          (pos 10) tx)
    applied ← unwinding tx' (apply_enabled name plugin)
    enable_ended name plugin tx' applied

  unfoldable pub enable : String → Exec (World H) Bool
  unfolding enable_found
  enable name = with_plugin enable_found name

  abbrev pub apply_disabled : String → Exec (World H) Bool
  apply_disabled name = do
    change_protocol name (λ p. record p { enabled = false })
    save_state
    apply_config

  unfoldable pub disable_ended : String → P → ApplyTransaction (World H) → Exec (World H) Bool
  unfolding add_rollback unwinding rollback_after_apply_failure
  disable_ended name plugin tx = do
    tx' ← lift (add_rollback (title name "on_enable") (enable_again plugin) (pos 10) tx)
    applied ← unwinding tx' (apply_disabled name)
    settle tx' applied

  unfoldable pub disable_found : String → P → Exec (World H) Bool
  unfolding new_transaction unwinding disable_ended
  disable_found name plugin = do
    snapshot ← gets deep_copy
    tx ← lift (new_transaction shared snapshot)
    unwinding tx (lifecycle_result plugin "disable")
    disable_ended name plugin tx

  unfoldable pub disable : String → Exec (World H) Bool
  unfolding disable_found
  disable name = with_plugin disable_found name
