-- ===== src/Lifecycle/Restore.antt =====
-- Where a change of a plugin fails, the protocols are those from before.
use hydra_ultimate.Base.{
  ℕ, String, ◌≡◌, refl, sym, ap, ◌∙◌, Bool, true, false, some, List, [], ◌∷◌, arith, All, eq_iff,
  Result, ok, err, Exec, Option-cases, or_default, inl, inr, ◌>>=◌, ◌>>◌, sorted, raise,
}
use hydra_ultimate.Base.Dict.{Dict, lookup, lookup-insert}
use hydra_ultimate.State.{AppState, User, PluginState, get_protocol, default_protocol}
use hydra_ultimate.Transaction.{
  RollbackAction, RollbackFailure, run_actions, run_action, failure_of, report, rollback, before,
}
use hydra_ultimate.Transaction.Order.{IsLow, sorted-low}
use hydra_ultimate.Users.{as_callback, restore_and_save, reapply_restored_state}
use hydra_ultimate.Users.Memory.{World, restore_state_in_place}
use hydra_ultimate.Users.Saga.{state_action, config_action, with_actions}
use hydra_ultimate.Users.Restore.{run_actions-append}
use hydra_ultimate.Lifecycle.{Hooks, roll_back, unwinding, rollback_after_apply_failure}

-- The entry of a protocol; a missing one reads as the default.
abbrev pub entry_in : Dict PluginState → String → PluginState
entry_in protocols name = or_default (lookup name protocols) default_protocol

-- What is read of each protocol.
abbrev pub seen : {R : Type 0} → (PluginState → R) → Dict PluginState → String → R
seen read protocols name = read (entry_in protocols name)

-- Saving, applying, the log and the error text leave a reading of every protocol as it is. Applying
-- completes the configurations first, so it keeps the switches and the ports.
pub record KeepsProtocols {P H R : Type 0} (read : PluginState → R) (hooks : Hooks P H)
    : Type 0 where
  pub saving :
      (w : World H)
      → seen read (hooks.shared.save_state w).1.state.protocols ≡ seen read w.state.protocols
  pub applying :
      (w : World H)
      → seen read (hooks.shared.apply_config w).1.state.protocols ≡ seen read w.state.protocols
  pub logging :
      (m : String) (w : World H)
      → seen read (hooks.shared.log_rollback_error m w).state.protocols
        ≡ seen read w.state.protocols
  pub noting :
      (m : String) (w : World H)
      → seen read (hooks.set_apply_error m w).state.protocols ≡ seen read w.state.protocols

-- What `get_protocol` returns.
abbrev pub entry : {U : Type 0} → AppState U → String → PluginState
entry state name = (get_protocol state name).0

-- The two states give every protocol an entry of the same reading.
abbrev pub SameEntries : {U V R : Type 0} → (PluginState → R) → AppState U → AppState V → Type 0
SameEntries read s t = (name : String) → read (entry s name) ≡ read (entry t name)

entry_lem : {U : Type 0} (s : AppState U) (name : String) → entry s name ≡ entry_in s.protocols name
unfolding get_protocol
entry_lem s name = ground arith

pub SameEntries-of_protocols :
    {U V R : Type 0} (read : PluginState → R) (s : AppState U) (t : AppState V)
    → seen read s.protocols ≡ seen read t.protocols
    → SameEntries read s t
SameEntries-of_protocols read s t e name =
    ap read (entry_lem s name) ∙ ap (λ f. f name) e ∙ sym (ap read (entry_lem t name))

entry-created :
    {U : Type 0} (s : AppState U) (name other : String)
    → entry (get_protocol s name).1 other ≡ entry s other
unfolding get_protocol
entry-created s name other = elim (Option-cases (lookup name s.protocols)) [
  | inl missing ↦
      ground (arith, eq_iff name other, lookup-insert name other default_protocol s.protocols)
  | inr (protocol, e) ↦ rw (e, get_protocol) refl
]

pub SameEntries-created :
    {U R : Type 0} (read : PluginState → R) (s : AppState U) (name : String)
    → SameEntries read (get_protocol s name).1 s
SameEntries-created read s name other = ap read (entry-created s name other)

module _ {P H R : Type 0} {read : PluginState → R} (hooks : Hooks P H)
    (keeps : KeepsProtocols read hooks) (snapshot : AppState User) where
  open hooks use {shared}
  open shared use {log_rollback_error, save_state, apply_config}

  run_action-protocols :
      (a : RollbackAction (World H)) (acc : List RollbackFailure × World H)
      → seen read (run_action (some log_rollback_error) a acc).1.state.protocols
        ≡ seen read (a.callback acc.1).1.state.protocols
  unfolding run_action report
  run_action-protocols a (failures, w) = elim (Option-cases (failure_of a.name (a.callback w).0)) [
    | inl none_failed ↦ rw (none_failed, run_action) refl
    | inr (failure, e) ↦ rw (e, run_action) (keeps.logging _ _)
  ]

  restore_and_save-protocols :
      (w : World H)
      → seen read (as_callback shared (restore_and_save shared snapshot) w).1.state.protocols
        ≡ seen read snapshot.protocols
  unfolding restore_and_save restore_state_in_place
  restore_and_save-protocols w = ground (arith, keeps.saving (restore_state_in_place snapshot w))

  reapply-protocols :
      (w : World H)
      → seen read (as_callback shared (reapply_restored_state shared) w).1.state.protocols
        ≡ seen read w.state.protocols
  unfolding reapply_restored_state
  reapply-protocols w = ground (arith, keeps.applying w)

  skeleton-protocols :
      (acc : List RollbackFailure × World H)
      → seen read
          (run_actions
            (some log_rollback_error)
            (state_action shared snapshot ∷ config_action shared snapshot ∷ [])
            acc).1.state.protocols
        ≡ seen read snapshot.protocols
  unfolding run_actions
  skeleton-protocols acc =
      let state' = state_action shared snapshot in
      let config' = config_action shared snapshot in
      let restored = run_action (some log_rollback_error) state' acc in
      run_action-protocols config' restored
      ∙ reapply-protocols restored.1
      ∙ run_action-protocols state' acc
      ∙ restore_and_save-protocols acc.1

  -- A rollback brings the protocols back, whatever the plugin's compensations do.
  pub roll_back-protocols :
      (n : ℕ) (called : List (RollbackAction (World H))) (w : World H)
      → All IsLow called
      → seen read (roll_back hooks (with_actions shared snapshot n called) w).1.state.protocols
        ≡ seen read snapshot.protocols
  unfolding rollback
  roll_back-protocols n called w low =
      let skeleton = state_action shared snapshot ∷ config_action shared snapshot ∷ [] in
      ap (λ xs. seen read (run_actions (some log_rollback_error) xs ([], w)).1.state.protocols)
        (sorted-low (state_action shared snapshot) (config_action shared snapshot) called refl refl
          low)
      ∙ ap (λ (x : List RollbackFailure × World H). seen read x.1.state.protocols)
          (run_actions-append (some log_rollback_error) (sorted before called) skeleton ([], w))
      ∙ skeleton-protocols (run_actions (some log_rollback_error) (sorted before called) ([], w))

  -- An end by an error leaves the protocols of the snapshot.
  abbrev pub Errs : {A : Type 0} → Result A × World H → Type 0
  Errs (ok a, w) = Unit
  Errs (err exc, w) = seen read w.state.protocols ≡ seen read snapshot.protocols

  -- So does any end but `True`.
  abbrev pub Ends : Result Bool × World H → Type 0
  Ends (ok true, w) = Unit
  Ends (ok false, w) = seen read w.state.protocols ≡ seen read snapshot.protocols
  Ends (err exc, w) = seen read w.state.protocols ≡ seen read snapshot.protocols

  pub unwinding-Errs :
      {A : Type 0} (n : ℕ) (called : List (RollbackAction (World H))) (m : Exec (World H) A)
      (w : World H)
      → All IsLow called
      → Errs {A = A} (unwinding hooks (with_actions shared snapshot n called) m w)
  unfolding unwinding
  unwinding-Errs {A} n called m w low = go (m w)
    where
      go :
          (x : Result A × World H)
          → Errs {A = A} (elim x.0 [
            | ok a ↦ (ok a, x.1)
            | err exc ↦ (roll_back hooks (with_actions shared snapshot n called) >> raise exc) x.1
          ])
      go (ok a, w') = tt
      go (err exc, w') = roll_back-protocols n called w' low

  pub Ends-bind :
      {A : Type 0} (m : Exec (World H) A) (f : A → Exec (World H) Bool) (w : World H)
      → Errs (m w)
      → ((a : A) (w' : World H) → Ends (f a w'))
      → Ends ((m >>= f) w)
  Ends-bind {A} m f w h k = go (m w) h
    where
      go :
          (x : Result A × World H)
          → Errs x
          → Ends (elim x.0 [ ok a ↦ f a x.1 | err e ↦ (err e, x.1) ])
      go (ok a, w') h' = k a w'
      go (err exc, w') h' = h'

  pub after_failure-protocols :
      (n : ℕ) (called : List (RollbackAction (World H))) (w : World H)
      → All IsLow called
      → seen read
          (rollback_after_apply_failure hooks
            (with_actions shared snapshot n called)
            w).1.state.protocols
        ≡ seen read snapshot.protocols
  unfolding rollback_after_apply_failure
  after_failure-protocols n called w low = keeps.noting _ _ ∙ roll_back-protocols n called w low
