-- ===== src/Lifecycle/Atomic.antt =====
-- A change of a plugin that does not succeed changes no protocol.
use hydra_ultimate.Base.{
  String, ◌≡◌, refl, ◌∙◌, ◌≢◌, Bool, true, false, Option, none, some, [], arith, Result, ok, err,
  Exec, str_eq, ◌>>=◌, if◌then◌else◌,
}
use hydra_ultimate.State.{AppState, User, PluginState, get_protocol}
use hydra_ultimate.Transaction.{add_rollback, advance, state_transaction}
use hydra_ultimate.Users.{new_transaction}
use hydra_ultimate.Users.Memory.{World, deep_copy}
use hydra_ultimate.Users.Saga.{with_actions}
use hydra_ultimate.Lifecycle.{
  Hooks, on_found, install_failed, install_done, unwinding, install, install_found, uninstall,
  uninstall_found, enable, enable_found, disable, disable_found, disable_ended, apply_enabled,
  enable_ended, install_ended, put_state,
}
use hydra_ultimate.Lifecycle.Restore.{
  KeepsProtocols, seen, SameEntries, SameEntries-of_protocols, SameEntries-created, Errs, Ends,
  unwinding-Errs, roll_back-protocols,
}
use hydra_ultimate.Lifecycle.Ends.{
  unwinding_then-Ends, disable_ended-Ends, uninstall_from-Ends, enable_ended-Ends,
  install_done-Ends,
}

module _ {P H R : Type 0} {read : PluginState → R} (hooks : Hooks P H)
    (keeps : KeepsProtocols read hooks) where
  open hooks use {shared, lifecycle_result}

  disable_found-Ends :
      (name : String) (plugin : P) (w : World H)
      → Ends hooks keeps (deep_copy w) (disable_found hooks name plugin w)
  unfolding disable_found new_transaction state_transaction advance add_rollback
  disable_found-Ends name plugin w =
      unwinding_then-Ends hooks keeps (deep_copy w) 2 [] (lifecycle_result plugin "disable")
        (λ _. disable_ended hooks name plugin (with_actions shared (deep_copy w) 2 [])) w tt
        (λ _ w'. disable_ended-Ends hooks keeps (deep_copy w) name plugin w')

  uninstall_found-Ends :
      (name : String) (plugin : P) (w : World H)
      → Ends hooks keeps (deep_copy w) (uninstall_found hooks name plugin w)
  unfolding uninstall_found new_transaction state_transaction advance add_rollback
  uninstall_found-Ends name plugin w =
      let (protocol, state') = get_protocol w.state name in
      uninstall_from-Ends hooks keeps (deep_copy w) name plugin protocol.enabled protocol.installed
        (put_state hooks state' w)

  enable_found-Ends :
      (name : String) (plugin : P) (w : World H)
      → Ends hooks keeps (deep_copy w) (enable_found hooks name plugin w)
  unfolding enable_found new_transaction state_transaction advance add_rollback
  enable_found-Ends name plugin w =
      unwinding_then-Ends hooks keeps (deep_copy w) 3 _ (apply_enabled hooks name plugin)
        (enable_ended hooks name plugin (with_actions shared (deep_copy w) 3 _)) w (omega arith, tt)
        (λ applied w'.
          enable_ended-Ends hooks keeps (deep_copy w) name plugin 3 _ applied w' (omega arith, tt))

  -- An end but by `True` gives each protocol the entry that it had in `w`.
  abbrev pub Unchanged : World H → Result Bool × World H → Type 0
  Unchanged w (ok true, w') = Unit
  Unchanged w (ok false, w') = SameEntries read w'.state w.state
  Unchanged w (err exc, w') = SameEntries read w'.state w.state

  pub Ends-Unchanged :
      (snapshot : AppState User) (w : World H) (x : Result Bool × World H)
      → SameEntries read snapshot w.state
      → Ends hooks keeps snapshot x
      → Unchanged w x
  Ends-Unchanged snapshot w (ok true, w') same h = tt
  Ends-Unchanged snapshot w (ok false, w') same h =
      λ name. SameEntries-of_protocols read w'.state snapshot h name ∙ same name
  Ends-Unchanged snapshot w (err exc, w') same h =
      λ name. SameEntries-of_protocols read w'.state snapshot h name ∙ same name

  pub copied : (w : World H) → SameEntries read (deep_copy w) w.state
  unfolding deep_copy
  copied w = SameEntries-of_protocols read (deep_copy w) w.state refl

  forget-protocols :
      (failure : String) (w : World H)
      → seen read (if str_eq failure "" then w else hooks.set_apply_error failure w).state.protocols
        ≡ seen read w.state.protocols
  forget-protocols failure w = ground (arith, keeps.noting failure w)

  install_ended-Unchanged :
      (name : String) (plugin : P) (w : World H) (done : Bool) (w' : World H)
      → Unchanged w (
          install_ended hooks name plugin
            (deep_copy w)
            (with_actions shared (deep_copy w) 2 [])
            done
            w')
  unfolding install_ended install_failed new_transaction state_transaction advance add_rollback
  install_ended-Unchanged name plugin w false w' =
      Ends-Unchanged (deep_copy w) w
        (install_failed hooks name plugin (with_actions shared (deep_copy w) 2 []) w') (copied w)
        (forget-protocols _ _ ∙ roll_back-protocols hooks keeps (deep_copy w) 2 [] _ tt)
  install_ended-Unchanged name plugin w true w' =
      let (protocol, created) = get_protocol (deep_copy w) name in
      Ends-Unchanged created w
        (install_done hooks name plugin protocol.installed (with_actions shared created 2 []) w')
        (λ other. SameEntries-created read (deep_copy w) name other ∙ copied w other)
        (install_done-Ends hooks keeps created name plugin protocol.installed w')

  Unchanged-bind :
      (snapshot : AppState User) (m : Exec (World H) Bool) (f : Bool → Exec (World H) Bool)
      (w : World H)
      → SameEntries read snapshot w.state
      → Errs hooks keeps snapshot (m w)
      → ((a : Bool) (w' : World H) → Unchanged w (f a w'))
      → Unchanged w ((m >>= f) w)
  Unchanged-bind snapshot m f w same h k = go (m w) h
    where
      go :
          (x : Result Bool × World H)
          → Errs hooks keeps snapshot x
          → Unchanged w (elim x.0 [ ok a ↦ f a x.1 | err e ↦ (err e, x.1) ])
      go (ok a, w') h' = k a w'
      go (err exc, w') h' =
          λ name. SameEntries-of_protocols read w'.state snapshot h' name ∙ same name

  install_found-Unchanged :
      (name : String) (plugin : P) (w : World H) → Unchanged w (install_found hooks name plugin w)
  unfolding install_found new_transaction state_transaction advance add_rollback
  install_found-Unchanged name plugin w =
      let snapshot = deep_copy w in
      Unchanged-bind snapshot
        (unwinding hooks (with_actions shared snapshot 2 []) (lifecycle_result plugin "install"))
        (install_ended hooks name plugin snapshot (with_actions shared snapshot 2 [])) w (copied w)
        (unwinding-Errs hooks keeps snapshot 2 [] (lifecycle_result plugin "install") w tt)
        (install_ended-Unchanged name plugin w)

-- The operations on a plugin.
pub data Action : Type 0 where
  installing uninstalling enabling disabling : Action

abbrev pub perform : {P H : Type 0} → Hooks P H → Action → String → Exec (World H) Bool
perform hooks installing name = install hooks name
perform hooks uninstalling name = uninstall hooks name
perform hooks enabling name = enable hooks name
perform hooks disabling name = disable hooks name

module _ {P H R : Type 0} {read : PluginState → R} (hooks : Hooks P H)
    (keeps : KeepsProtocols read hooks) where
  open hooks use {get_plugin}

  pub on_found-Unchanged :
      (found : Option P) (f : P → Exec (World H) Bool) (w : World H)
      → ((plugin : P) → Unchanged hooks keeps w (f plugin w))
      → Unchanged hooks keeps w (on_found hooks found f w)
  on_found-Unchanged none f w h = λ other. refl
  on_found-Unchanged (some plugin) f w h = h plugin

  pub perform-Unchanged :
      (action : Action) (name : String) (w : World H)
      → Unchanged hooks keeps w (perform hooks action name w)
  unfolding install uninstall enable disable
  perform-Unchanged installing name w =
      on_found-Unchanged (get_plugin name) (install_found hooks name) w
        (λ plugin. install_found-Unchanged hooks keeps name plugin w)
  perform-Unchanged uninstalling name w =
      on_found-Unchanged (get_plugin name) (uninstall_found hooks name) w (λ plugin.
        Ends-Unchanged hooks keeps (deep_copy w) w (uninstall_found hooks name plugin w)
          (copied hooks keeps w) (uninstall_found-Ends hooks keeps name plugin w))
  perform-Unchanged enabling name w =
      on_found-Unchanged (get_plugin name) (enable_found hooks name) w (λ plugin.
        Ends-Unchanged hooks keeps (deep_copy w) w (enable_found hooks name plugin w)
          (copied hooks keeps w) (enable_found-Ends hooks keeps name plugin w))
  perform-Unchanged disabling name w =
      on_found-Unchanged (get_plugin name) (disable_found hooks name) w (λ plugin.
        Ends-Unchanged hooks keeps (deep_copy w) w (disable_found hooks name plugin w)
          (copied hooks keeps w) (disable_found-Ends hooks keeps name plugin w))

  pub Unchanged-failed :
      (w : World H) (x : Result Bool × World H)
      → x.0 ≢ ok true
      → Unchanged hooks keeps w x
      → SameEntries read x.1.state w.state
  Unchanged-failed w (ok true, w') failed h = absurd (failed refl)
  Unchanged-failed w (ok false, w') failed h = h
  Unchanged-failed w (err exc, w') failed h = h

  -- Installing, uninstalling, enabling and disabling a plugin are atomic on the protocols: where one
  -- ends by `False` or by an exception, what is read of the entry that `get_protocol` gives of every
  -- protocol is what was read before, whatever the plugin's hooks and its compensations have written.
  -- This holds of every reading that saving, applying, logging and noting an error leave as it is.
  pub lifecycle_atomic :
      (action : Action) (name : String) (w : World H)
      → (perform hooks action name w).0 ≢ ok true
      → SameEntries read (perform hooks action name w).1.state w.state
  lifecycle_atomic action name w failed =
      Unchanged-failed w (perform hooks action name w) failed (perform-Unchanged action name w)
