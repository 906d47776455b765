-- ===== src/Users.antt =====
-- hydra/services/user_lifecycle.py: a change of one user, carried to every enabled transport.
pub mod Memory
pub mod Saga
pub mod Restore
pub mod Atomic
pub mod Profile
mod Tests
use Memory.{World, view, write_user, put_users, deep_copy, restore_state_in_place}
use hydra_ultimate.Base.{
  ℕ, ◌+◌, String, Bool, true, false, not, ◌&&◌, ◌||◌, Option, none, some, List, [], ◌∷◌, str_eq,
  ◌==◌, if◌then◌else◌, concat, contains, find, keep, Result, ok, err, Exec, Exception, value_error,
  runtime_error, pure, raise, lift, gets, try_except, modify, ◌>>=◌, ◌>>◌, is_some,
}
use hydra_ultimate.Base.Int.{ℤ, pos, sub_ℕ}
use hydra_ultimate.Base.Dict.{Dict, insert, lookup}
use hydra_ultimate.Base.Value.{Value}
use hydra_ultimate.Base.Text.{strip, lower, has_space}
use hydra_ultimate.State
use hydra_ultimate.State.{AppState, User, protocol_enabled}
use hydra_ultimate.Transaction.{
  Outcome, object, ApplyTransaction, add_rollback, rollback, commit, state_transaction,
}

-- The callables of `UserLifecycleOperations`, the hooks of `PluginInvoker`, and the services that
-- the module imports. `P` is the type of the plugins.
pub record Operations (P H : Type 0) : Type 0 where
  pub name : P → String
  pub transports : World H → List P
  pub apply_config : Exec (World H) Bool
  pub save_state : Exec (World H) (Unit {0})
  pub last_apply_error : World H → String
  pub log_rollback_error : String → World H → World H
  pub user_add : P → ℕ → Exec (World H) (Unit {0})
  pub user_remove : P → ℕ → Exec (World H) (Unit {0})
  pub user_block : P → ℕ → Exec (World H) (Unit {0})
  pub generate_key : Exec (World H) String
  pub is_active : String → World H → Bool × World H
  pub restart : String → World H → World H

module _ {P H : Type 0} (ops : Operations P H) where
  open ops use {
    name, transports, apply_config, save_state, last_apply_error, log_rollback_error, user_add,
    user_remove, user_block, generate_key, is_active, restart,
  }

  -- A callback whose value is no `bool`.
  abbrev pub as_callback : Exec (World H) (Unit {0}) → Exec (World H) Outcome
  as_callback m = m >> pure object

  unfoldable pub restore_and_save : AppState User → Exec (World H) (Unit {0})
  restore_and_save snapshot = modify (restore_state_in_place snapshot) >> save_state

  abbrev reported_or_generic : String → String
  reported_or_generic e = if str_eq e "" then "restored configuration apply failed" else e

  unfoldable pub reapply_restored_state : Exec (World H) (Unit {0})
  reapply_restored_state = do
    applied ← apply_config
    detail ← gets (λ w. reported_or_generic (last_apply_error w))
    if applied then pure tt else raise (runtime_error detail)

  unfoldable pub new_transaction : AppState User → Result (ApplyTransaction (World H))
  unfolding state_transaction restore_and_save reapply_restored_state
  new_transaction snapshot =
      state_transaction (as_callback (restore_and_save snapshot))
        (as_callback reapply_restored_state)

  -- `transaction.rollback(self.log_rollback_error)`; `raise`
  unfoldable pub roll_back_and_raise :
      {A : Type 0} → ApplyTransaction (World H) → Exception → Exec (World H) A
  roll_back_and_raise tx exc w = (err exc, (rollback (some log_rollback_error) tx w).2)

  -- One round of the loop over the transports: the compensation is registered before the hook runs.
  unfoldable pub visit :
      (P → World H → String)
      → (P → Exec (World H) (Unit {0}))
      → (P → Exec (World H) (Unit {0}))
      → ℕ
      → P
      → ApplyTransaction (World H)
      → Exec (World H) (ApplyTransaction (World H))
  unfolding add_rollback roll_back_and_raise
  visit label undo act index plugin tx = do
    title ← gets (label plugin)
    tx' ← lift (add_rollback title (as_callback (undo plugin)) (sub_ℕ 10 index) tx)
    try_except (act plugin) (roll_back_and_raise tx')
    pure tx'

  -- `for index, plugin in self._enabled_transports(state)`: a generator, which looks up whether a
  -- plugin is enabled when the loop comes to it.
  unfoldable pub fan_out :
      (P → World H → String)
      → (P → Exec (World H) (Unit {0}))
      → (P → Exec (World H) (Unit {0}))
      → ℕ
      → List P
      → ApplyTransaction (World H)
      → Exec (World H) (ApplyTransaction (World H))
  fan_out label undo act index [] tx w = (ok tx, w)
  fan_out label undo act index (plugin ∷ rest) tx w =
      elim (protocol_enabled w.state (name plugin)) [
        | true ↦
            (visit label undo act index plugin tx >>= λ tx'.
            fan_out label undo act (index + 1) rest tx')
              w
        | false ↦ fan_out label undo act (index + 1) rest tx w
      ]

  abbrev pub apply_failed : Exception
  apply_failed = runtime_error "Configuration apply failed; user change was rolled back"

  -- `_commit`
  unfoldable pub commit_change : ApplyTransaction (World H) → Exec (World H) (Unit {0})
  unfolding roll_back_and_raise commit
  commit_change tx = do
    applied ← try_except (save_state >> apply_config) (roll_back_and_raise tx)
    if applied then (lift (commit tx) >> pure tt) else roll_back_and_raise tx apply_failed

  -- What `add`, `remove`, `block`, `unblock` and `rename` do once the state is changed.
  unfoldable pub carry :
      AppState User
      → (P → World H → String)
      → (P → Exec (World H) (Unit {0}))
      → (P → Exec (World H) (Unit {0}))
      → Exec (World H) (Unit {0})
  unfolding new_transaction fan_out visit commit_change
  carry snapshot label undo act = do
    tx ← lift (new_transaction snapshot)
    plugins ← gets transports
    tx' ← fan_out label undo act 0 plugins tx
    commit_change tx'

  unfoldable pub restart_subscriptions : Exec (World H) (Unit {0})
  restart_subscriptions w =
      let (active, w') = is_active "hydra-sub" w in
      (ok tt, if active then restart "hydra-sub" w' else w')

  -- f"{verb} {user.email} plugin {plugin.meta.name}"
  abbrev title_of : String → ℕ → P → World H → String
  title_of verb user plugin w =
      concat (verb ∷ " " ∷ (w.objects user).email ∷ " plugin " ∷ name plugin ∷ [])

  abbrev pub update_user : ℕ → (User → User) → Exec (World H) (Unit {0})
  update_user user f = modify (λ w. write_user user (f (w.objects user)) w)

  abbrev pub find_ref : String → Exec (World H) (Option ℕ)
  find_ref email = gets (λ w. State.find_user (view w) w.state.users email)

  unfoldable pub add : ℕ → Exec (World H) (Unit {0})
  unfolding carry restart_subscriptions
  add user = do
    snapshot ← gets deep_copy
    users ← λ w. (State.add_user (view w) w.state.users user, w)
    modify (put_users users)
    carry snapshot (title_of "user" user) (λ p. user_remove p user) (λ p. user_add p user)
    restart_subscriptions

  abbrev remove_user : String → World H → World H
  remove_user email w =
      put_users (keep (λ r. not (str_eq (w.objects r).email email)) w.state.users) w

  unfoldable pub remove_found : String → Option ℕ → Exec (World H) (Unit {0})
  unfolding carry restart_subscriptions
  remove_found email none = pure tt
  remove_found email (some user) = do
    snapshot ← gets deep_copy
    modify (remove_user email)
    carry snapshot (title_of "user" user) (λ p. user_add p user) (λ p. user_remove p user)
    restart_subscriptions

  unfoldable pub remove : String → Exec (World H) (Unit {0})
  unfolding remove_found
  remove email = do user ← find_ref email; remove_found email user

  unfoldable pub block_found : Option ℕ → Exec (World H) (Unit {0})
  unfolding carry
  block_found none = pure tt
  block_found (some user) = do
    snapshot ← gets deep_copy
    update_user user (λ u. record u { blocked = true })
    carry snapshot (title_of "block" user) (λ p. user_add p user) (λ p. user_block p user)

  unfoldable pub block : String → Exec (World H) (Unit {0})
  unfolding block_found
  block email = do user ← find_ref email; block_found user

  unfoldable pub unblock_found : Option ℕ → Exec (World H) (Unit {0})
  unfolding carry
  unblock_found none = pure tt
  unblock_found (some user) = do
    snapshot ← gets deep_copy
    update_user user (λ u. record u { blocked = false })
    carry snapshot (title_of "unblock" user) (λ p. user_block p user) (λ p. user_add p user)

  unfoldable pub unblock : String → Exec (World H) (Unit {0})
  unfolding unblock_found
  unblock email = do user ← find_ref email; unblock_found user
