-- ===== src/Lifecycle/Ends.antt =====
-- How the parts of an operation on a plugin end: well, or with the protocols of the snapshot.
use hydra_ultimate.Base.{
  ℕ, ◌+◌, String, ◌≡◌, Bool, true, false, List, [], arith, All, Result, ok, err, Exec, ◌>>=◌, ◌>>◌,
  if◌then◌else◌, pure, raise,
}
use hydra_ultimate.State.{AppState, User, PluginState}
use hydra_ultimate.Transaction.{RollbackAction, ApplyTransaction, add_rollback, commit}
use hydra_ultimate.Transaction.Order.{IsLow, All-append}
use hydra_ultimate.Users.Memory.{World}
use hydra_ultimate.Users.Saga.{with_actions}
use hydra_ultimate.Lifecycle.{
  Hooks, applied_if, update_protocol, install_done, unwinding, roll_back, settle, disable_ended,
  apply_disabled, enable_ended, install_save, save_installed, commit_if, apply_cleared,
  uninstall_ended, uninstall_run, uninstall_installed, disable_first, rollback_after_apply_failure,
  protocol_of, put_state,
}
use hydra_ultimate.Lifecycle.Restore.{
  KeepsProtocols, seen, Ends, unwinding-Errs, roll_back-protocols, Ends-bind,
  after_failure-protocols,
}

module _ {P H R : Type 0} {read : PluginState → R} (hooks : Hooks P H)
    (keeps : KeepsProtocols read hooks) (snapshot : AppState User) where
  open hooks use {shared, lifecycle_result}

  abbrev pub opened : ℕ → List (RollbackAction (World H)) → ApplyTransaction (World H)
  opened n called = with_actions shared snapshot n called

  pub settle-Ends :
      (n : ℕ) (called : List (RollbackAction (World H))) (applied : Bool) (w : World H)
      → All IsLow called
      → Ends hooks keeps snapshot (settle hooks (opened n called) applied w)
  unfolding commit rollback_after_apply_failure
  settle-Ends n called true w low = tt
  settle-Ends n called false w low = after_failure-protocols hooks keeps snapshot n called w low

  -- A part of an operation that is undone where it raises, and what follows it.
  pub unwinding_then-Ends :
      {A : Type 0} (n : ℕ) (called : List (RollbackAction (World H))) (m : Exec (World H) A)
      (f : A → Exec (World H) Bool) (w : World H)
      → All IsLow called
      → ((a : A) (w' : World H) → Ends hooks keeps snapshot (f a w'))
      → Ends hooks keeps snapshot ((unwinding hooks (opened n called) m >>= f) w)
  unwinding_then-Ends n called m f w low k =
      Ends-bind hooks keeps snapshot (unwinding hooks (opened n called) m) f w
        (unwinding-Errs hooks keeps snapshot n called m w low) k

  pub disable_ended-Ends :
      (name : String) (plugin : P) (w : World H)
      → Ends hooks keeps snapshot (disable_ended hooks name plugin (opened 2 []) w)
  unfolding disable_ended add_rollback
  disable_ended-Ends name plugin w =
      unwinding_then-Ends 3 _ (apply_disabled hooks name) (λ applied. settle hooks _ applied) w
        (omega arith, tt) (λ applied w'. settle-Ends 3 _ applied w' (omega arith, tt))

  pub uninstall_ended-Ends :
      (name : String) (n : ℕ) (called : List (RollbackAction (World H))) (done : Bool) (w : World H)
      → All IsLow called
      → Ends hooks keeps snapshot (uninstall_ended hooks name (opened n called) done w)
  unfolding uninstall_ended
  uninstall_ended-Ends name n called false w low =
      roll_back-protocols hooks keeps snapshot n called w low
  uninstall_ended-Ends name n called true w low =
      unwinding_then-Ends n called (apply_cleared hooks name) (settle hooks (opened n called)) w low
        (λ applied w'. settle-Ends n called applied w' low)

  pub uninstall_run-Ends :
      (name : String) (plugin : P) (n : ℕ) (called : List (RollbackAction (World H))) (w : World H)
      → All IsLow called
      → Ends hooks keeps snapshot (uninstall_run hooks name plugin (opened n called) w)
  unfolding uninstall_run
  uninstall_run-Ends name plugin n called w low =
      unwinding_then-Ends n called (lifecycle_result plugin "uninstall")
        (uninstall_ended hooks name (opened n called)) w low
        (λ done w'. uninstall_ended-Ends name n called done w' low)

  pub uninstall_installed-Ends :
      (name : String) (plugin : P) (installed : Bool) (n : ℕ)
      (called : List (RollbackAction (World H))) (w : World H)
      → All IsLow called
      → Ends hooks keeps snapshot
          (uninstall_installed hooks name plugin installed (opened n called) w)
  unfolding uninstall_installed add_rollback
  uninstall_installed-Ends name plugin false n called w low =
      uninstall_run-Ends name plugin n called w low
  uninstall_installed-Ends name plugin true n called w low =
      uninstall_run-Ends name plugin (n + 1) _ w (All-append IsLow called _ low (omega arith))

  pub disable_first-Ends :
      (name : String) (plugin : P) (installed : Bool) (w : World H)
      → Ends hooks keeps snapshot (disable_first hooks name plugin installed (opened 2 []) w)
  unfolding disable_first add_rollback
  disable_first-Ends name plugin installed w =
      unwinding_then-Ends 2 [] (lifecycle_result plugin "disable")
        (λ _. uninstall_installed hooks name plugin installed (opened 3 _)) w tt
        (λ _ w'. uninstall_installed-Ends name plugin installed 3 _ w' (omega arith, tt))

  pub uninstall_from-Ends :
      (name : String) (plugin : P) (enabled installed : Bool) (w : World H)
      → Ends hooks keeps snapshot (
          (if enabled
              then disable_first hooks name plugin installed (opened 2 [])
              else uninstall_installed hooks name plugin installed (opened 2 []))
            w)
  uninstall_from-Ends name plugin true installed w = disable_first-Ends name plugin installed w
  uninstall_from-Ends name plugin false installed w =
      uninstall_installed-Ends name plugin installed 2 [] w tt

  pub enable_ended-Ends :
      (name : String) (plugin : P) (n : ℕ) (called : List (RollbackAction (World H)))
      (applied : Bool) (w : World H)
      → All IsLow called
      → Ends hooks keeps snapshot (enable_ended hooks name plugin (opened n called) applied w)
  enable_ended-Ends name plugin n called true w low = settle-Ends n called true w low
  enable_ended-Ends name plugin n called false w low = settle-Ends n called false _ low

  -- A part of an operation that ends by `False` has rolled back already.
  abbrev pub FalseEnds : Result Bool × World H → Type 0
  FalseEnds (ok true, w) = Unit
  FalseEnds (ok false, w) = seen read w.state.protocols ≡ seen read snapshot.protocols
  FalseEnds (err exc, w) = Unit

  pub FalseEnds-bind :
      {A : Type 0} (m : Exec (World H) A) (f : A → Exec (World H) Bool) (w : World H)
      → ((a : A) (w' : World H) → FalseEnds (f a w'))
      → FalseEnds ((m >>= f) w)
  FalseEnds-bind {A} m f w k = go (m w)
    where
      go : (x : Result A × World H) → FalseEnds (elim x.0 [ ok a ↦ f a x.1 | err e ↦ (err e, x.1) ])
      go (ok a, w') = k a w'
      go (err exc, w') = tt

  pub unwinding-Ends :
      (n : ℕ) (called : List (RollbackAction (World H))) (m : Exec (World H) Bool) (w : World H)
      → All IsLow called
      → FalseEnds (m w)
      → Ends hooks keeps snapshot (unwinding hooks (opened n called) m w)
  unfolding unwinding
  unwinding-Ends n called m w low h = go (m w) h
    where
      go :
          (x : Result Bool × World H)
          → FalseEnds x
          → Ends hooks keeps snapshot (elim x.0 [
            | ok a ↦ (ok a, x.1)
            | err exc ↦ (roll_back hooks (opened n called) >> raise exc) x.1
          ])
      go (ok true, w') h' = tt
      go (ok false, w') h' = h'
      go (err exc, w') h' = roll_back-protocols hooks keeps snapshot n called w' low

  pub commit_if-Ends :
      (n : ℕ) (called : List (RollbackAction (World H))) (m : Exec (World H) Bool) (w : World H)
      → Ends hooks keeps snapshot (m w)
      → Ends hooks keeps snapshot ((m >>= λ applied. commit_if hooks (opened n called) applied) w)
  unfolding commit
  commit_if-Ends n called m w h = go (m w) h
    where
      go :
          (x : Result Bool × World H)
          → Ends hooks keeps snapshot x
          → Ends hooks keeps snapshot
              (elim x.0 [ ok a ↦ commit_if hooks (opened n called) a x.1 | err e ↦ (err e, x.1) ])
      go (ok true, w') h' = tt
      go (ok false, w') h' = h'
      go (err exc, w') h' = h'

  pub saved-FalseEnds :
      (n : ℕ) (called : List (RollbackAction (World H))) (applied : Bool) (w : World H)
      → All IsLow called
      → FalseEnds (
          (if applied
              then pure true
              else (rollback_after_apply_failure hooks (opened n called) >> pure false))
            w)
  unfolding rollback_after_apply_failure
  saved-FalseEnds n called true w low = tt
  saved-FalseEnds n called false w low = after_failure-protocols hooks keeps snapshot n called w low

  pub save_installed-FalseEnds :
      (name : String) (n : ℕ) (called : List (RollbackAction (World H))) (w : World H)
      → All IsLow called
      → FalseEnds (save_installed hooks name (opened n called) w)
  unfolding save_installed
  save_installed-FalseEnds name n called w low =
      FalseEnds-bind shared.save_state
        (λ _. protocol_of hooks name >>= λ protocol.
          applied_if hooks protocol.enabled >>= λ applied.
          if applied
          then pure true
          else (rollback_after_apply_failure hooks (opened n called) >> pure false))
        (put_state hooks (update_protocol name (λ p. record p { installed = true }) w.state) w)
        (λ _ w'.
          FalseEnds-bind (protocol_of hooks name >>= λ protocol. applied_if hooks protocol.enabled)
            (λ applied.
              if applied
              then pure true
              else (rollback_after_apply_failure hooks (opened n called) >> pure false))
            w' (λ applied v. saved-FalseEnds n called applied v low))

  pub install_save-Ends :
      (name : String) (n : ℕ) (called : List (RollbackAction (World H))) (w : World H)
      → All IsLow called
      → Ends hooks keeps snapshot (install_save hooks name (opened n called) w)
  unfolding install_save
  install_save-Ends name n called w low =
      let (_, w') = protocol_of hooks name w in
      commit_if-Ends n called
        (unwinding hooks (opened n called) (save_installed hooks name (opened n called))) w'
        (unwinding-Ends n called (save_installed hooks name (opened n called)) w' low
          (save_installed-FalseEnds name n called w' low))

  pub install_done-Ends :
      (name : String) (plugin : P) (installed : Bool) (w : World H)
      → Ends hooks keeps snapshot (install_done hooks name plugin installed (opened 2 []) w)
  unfolding install_done add_rollback
  install_done-Ends name plugin true w = install_save-Ends name 2 [] w tt
  install_done-Ends name plugin false w = install_save-Ends name 3 _ w (omega arith, tt)
