-- ===== src/Lifecycle/Reinstall.antt =====
-- `PluginLifecycleOperations.reinstall`: a repair that keeps the configuration.
use hydra_ultimate.Base.{
  ℕ, String, ◌∙◌, ◌≢◌, Bool, true, false, List, [], ◌∷◌, arith, All, Result, ok, err, Exec, ◌>>=◌,
  ◌>>◌, if◌then◌else◌, pure, lift, gets,
}
use hydra_ultimate.Base.Int.{pos}
use hydra_ultimate.State.{AppState, User, PluginState, get_protocol}
use hydra_ultimate.Transaction.{
  RollbackAction, ApplyTransaction, add_rollback, advance, state_transaction,
}
use hydra_ultimate.Transaction.Order.{IsLow}
use hydra_ultimate.Users.{new_transaction, as_callback}
use hydra_ultimate.Users.Memory.{World, deep_copy}
use hydra_ultimate.Users.Saga.{with_actions}
use hydra_ultimate.Lifecycle.{
  Hooks, on_found, install, enable, uninstall, unwinding, roll_back, commit_if, change_protocol,
  protocol_of, put_state, require_success, title, enable_again, install_again,
}
use hydra_ultimate.Lifecycle.Restore.{
  KeepsProtocols, SameEntries, SameEntries-created, Ends, roll_back-protocols,
}
use hydra_ultimate.Lifecycle.Atomic.{
  uninstalling, perform-Unchanged, Unchanged, Ends-Unchanged, Unchanged-failed, copied,
  on_found-Unchanged,
}
use hydra_ultimate.Lifecycle.Ends.{FalseEnds, FalseEnds-bind, unwinding-Ends, commit_if-Ends}

module _ {P H : Type 0} (hooks : Hooks P H) where
  open hooks use {shared, get_plugin, lifecycle_result}
  open shared use {save_state}

  -- `_restore_plugin_install`
  unfoldable pub restore_plugin_install : String → P → Exec (World H) (Unit {0})
  unfolding require_success
  restore_plugin_install name plugin = do
    protocol ← protocol_of hooks name
    if protocol.installed then pure tt else install_again hooks name plugin " repair install failed"

  abbrev refuse : ApplyTransaction (World H) → Exec (World H) Bool
  refuse tx = roll_back hooks tx >> pure false

  abbrev enable_back : String → ApplyTransaction (World H) → Bool → Exec (World H) Bool
  enable_back name tx false = pure true
  enable_back name tx true = do
    enabled ← enable hooks name
    if enabled then pure true else refuse tx

  abbrev install_back : String → ApplyTransaction (World H) → Bool → Exec (World H) Bool
  install_back name tx was_enabled = do
    installed ← install hooks name
    if installed then enable_back name tx was_enabled else refuse tx

  unfoldable pub put_back : String → PluginState → ApplyTransaction (World H) → Exec (World H) Bool
  unfolding install enable
  put_back name saved tx = do
    change_protocol hooks name (λ p. record p { port = saved.port; config = saved.config })
    save_state
    install_back name tx saved.enabled

  unfoldable pub reinstall_run :
      String → PluginState → ApplyTransaction (World H) → Exec (World H) Bool
  unfolding unwinding put_back
  reinstall_run name saved tx = do
    done ← unwinding hooks tx (put_back name saved tx)
    commit_if hooks tx done

  unfoldable pub reinstall_planned :
      String → P → PluginState → Bool → ApplyTransaction (World H) → Exec (World H) Bool
  unfolding add_rollback reinstall_run
  reinstall_planned name plugin saved false tx = reinstall_run name saved tx
  reinstall_planned name plugin saved true tx = do
    tx' ← lift (add_rollback (title hooks name "on_enable") (enable_again hooks plugin) (pos 10) tx)
    reinstall_run name saved tx'

  unfoldable pub reinstall_removed :
      String → P → AppState User → PluginState → Bool → Exec (World H) Bool
  unfolding new_transaction add_rollback reinstall_planned restore_plugin_install
  reinstall_removed name plugin snapshot saved false = pure false
  reinstall_removed name plugin snapshot saved true = do
    tx ← lift (new_transaction shared snapshot)
    tx' ← lift (
        add_rollback (title hooks name "install")
          (as_callback shared (restore_plugin_install name plugin)) (pos 5) tx)
    reinstall_planned name plugin saved saved.enabled tx'

  unfoldable pub reinstall_found : String → P → Exec (World H) Bool
  unfolding uninstall reinstall_removed
  reinstall_found name plugin = do
    snapshot ← gets deep_copy
    saved ← protocol_of hooks name
    removed ← uninstall hooks name
    reinstall_removed name plugin snapshot saved removed

  unfoldable pub reinstall : String → Exec (World H) Bool
  unfolding reinstall_found
  reinstall name = on_found hooks (get_plugin name) (reinstall_found name)

module _ {P H R : Type 0} {read : PluginState → R} (hooks : Hooks P H)
    (keeps : KeepsProtocols read hooks) where
  open hooks use {shared, get_plugin}
  open shared use {save_state}

  module _ (snapshot : AppState User) where
    refuse-FalseEnds :
        (n : ℕ) (called : List (RollbackAction (World H))) (go_on : Exec (World H) Bool)
        (good : Bool) (w : World H)
        → All IsLow called
        → ((v : World H) → FalseEnds hooks keeps snapshot (go_on v))
        → FalseEnds hooks keeps snapshot
            ((if good then go_on else refuse hooks (with_actions shared snapshot n called)) w)
    refuse-FalseEnds n called go_on true w low h = h w
    refuse-FalseEnds n called go_on false w low h =
        roll_back-protocols hooks keeps snapshot n called w low

    enable_back-FalseEnds :
        (name : String) (n : ℕ) (called : List (RollbackAction (World H))) (was_enabled : Bool)
        (w : World H)
        → All IsLow called
        → FalseEnds hooks keeps snapshot
            (enable_back hooks name (with_actions shared snapshot n called) was_enabled w)
    enable_back-FalseEnds name n called false w low = tt
    enable_back-FalseEnds name n called true w low =
        FalseEnds-bind hooks keeps snapshot (enable hooks name)
          (λ enabled.
            if enabled then pure true else refuse hooks (with_actions shared snapshot n called))
          w (λ enabled v. refuse-FalseEnds n called (pure true) enabled v low (λ u. tt))

    put_back-FalseEnds :
        (name : String) (saved : PluginState) (n : ℕ) (called : List (RollbackAction (World H)))
        (w : World H)
        → All IsLow called
        → FalseEnds hooks keeps snapshot
            (put_back hooks name saved (with_actions shared snapshot n called) w)
    unfolding put_back
    put_back-FalseEnds name saved n called w low =
        let tx = with_actions shared snapshot n called in
        let (_, w') =
          change_protocol hooks name (λ p. record p { port = saved.port; config = saved.config })
            w in
        FalseEnds-bind hooks keeps snapshot save_state
          (λ _. install_back hooks name tx saved.enabled) w'
          (λ _ v.
            FalseEnds-bind hooks keeps snapshot (install hooks name)
              (λ installed.
                if installed then enable_back hooks name tx saved.enabled else refuse hooks tx)
              v
              (λ installed u.
                refuse-FalseEnds n called (enable_back hooks name tx saved.enabled) installed u low
                  (λ z. enable_back-FalseEnds name n called saved.enabled z low)))

    reinstall_run-Ends :
        (name : String) (saved : PluginState) (n : ℕ) (called : List (RollbackAction (World H)))
        (w : World H)
        → All IsLow called
        → Ends hooks keeps snapshot
            (reinstall_run hooks name saved (with_actions shared snapshot n called) w)
    unfolding reinstall_run
    reinstall_run-Ends name saved n called w low =
        let tx = with_actions shared snapshot n called in
        commit_if-Ends hooks keeps snapshot n called
          (unwinding hooks tx (put_back hooks name saved tx)) w
          (unwinding-Ends hooks keeps snapshot n called (put_back hooks name saved tx) w low
            (put_back-FalseEnds name saved n called w low))

  abbrev repair : String → P → RollbackAction (World H)
  repair name plugin = record {
    priority = pos 5;
    sequence = 2;
    name = title hooks name "install";
    callback = as_callback shared (restore_plugin_install hooks name plugin);
  }

  planned-Ends :
      (name : String) (plugin : P) (saved : PluginState) (snapshot : AppState User) (enabled : Bool)
      (w : World H)
      → Ends hooks keeps snapshot (
          reinstall_planned hooks name plugin saved enabled
            (with_actions shared snapshot 3 (repair name plugin ∷ []))
            w)
  unfolding reinstall_planned add_rollback
  planned-Ends name plugin saved snapshot false w =
      reinstall_run-Ends snapshot name saved 3 _ w (omega arith, tt)
  planned-Ends name plugin saved snapshot true w =
      reinstall_run-Ends snapshot name saved 4 _ w (omega arith, (omega arith, tt))

  reinstall_removed-Unchanged :
      (name : String) (plugin : P) (saved : PluginState) (w w' : World H)
      → Unchanged hooks keeps w (reinstall_removed hooks name plugin (deep_copy w) saved true w')
  unfolding reinstall_removed new_transaction state_transaction advance add_rollback
  reinstall_removed-Unchanged name plugin saved w w' =
      Ends-Unchanged hooks keeps (deep_copy w) w
        (reinstall_planned hooks name plugin saved saved.enabled
          (with_actions shared (deep_copy w) 3 (repair name plugin ∷ [])) w')
        (copied hooks keeps w) (planned-Ends name plugin saved (deep_copy w) saved.enabled w')

  uninstalled-Unchanged :
      (name : String) (plugin : P) (saved : PluginState) (w v : World H)
      → SameEntries read v.state w.state
      → (x : Result Bool × World H) → Unchanged hooks keeps v x
      → Unchanged hooks keeps w (elim x.0 [
        | ok removed ↦ reinstall_removed hooks name plugin (deep_copy w) saved removed x.1
        | err e ↦ (err e, x.1)
      ])
  unfolding reinstall_removed
  uninstalled-Unchanged name plugin saved w v same (ok true, w') h =
      reinstall_removed-Unchanged name plugin saved w w'
  uninstalled-Unchanged name plugin saved w v same (ok false, w') h = λ other. h other ∙ same other
  uninstalled-Unchanged name plugin saved w v same (err exc, w') h = λ other. h other ∙ same other

  reinstall_found-Unchanged :
      (name : String) (plugin : P) (w : World H)
      → Unchanged hooks keeps w (reinstall_found hooks name plugin w)
  unfolding reinstall_found
  reinstall_found-Unchanged name plugin w =
      let (saved, created) = get_protocol w.state name in
      let v = put_state hooks created w in
      uninstalled-Unchanged name plugin saved w v (SameEntries-created read w.state name)
        (uninstall hooks name v) (perform-Unchanged hooks keeps uninstalling name v)

  -- A repair is atomic on the protocols, although it uninstalls, installs and enables by operations
  -- that have committed: where it ends by `False` or by an exception, what is read of the entry that
  -- `get_protocol` gives of every protocol is what was read before. This holds of every reading that
  -- saving, applying, logging and noting an error leave as it is.
  pub reinstall_atomic :
      (name : String) (w : World H)
      → (reinstall hooks name w).0 ≢ ok true
      → SameEntries read (reinstall hooks name w).1.state w.state
  unfolding reinstall
  reinstall_atomic name w failed = Unchanged-failed hooks keeps w (reinstall hooks name w) failed (
      on_found-Unchanged hooks keeps (get_plugin name) (reinstall_found hooks name) w
        (λ plugin. reinstall_found-Unchanged name plugin w))
