-- ===== src/Users/Restore.antt =====
-- Where a change of a user fails, the users are those from before.
use mathlib.Core.Path.{subst}
use hydra_ultimate.Base.{
  ℕ, String, ◌≡◌, refl, sym, ap, ◌∙◌, Bool, true, false, Option, some, List, [], ◌∷◌, ◌++◌, arith,
  Result, ok, err, Exec, Exception, Option-cases, inl, inr, ◌>>=◌, >>=-ok, >>=-err, try_except,
  try_except-ok, ◌>>◌, if◌then◌else◌, try_except-err, Exec-cases, pure, lift,
}
use hydra_ultimate.Base.Int.{pos}
use hydra_ultimate.State.{AppState, User}
use hydra_ultimate.Transaction.{
  RollbackAction, RollbackFailure, ApplyTransaction, run_actions, run_action, failure_of, report,
  commit,
}
use hydra_ultimate.Transaction.Order.{Falls, reversed}
use hydra_ultimate.Users.{
  Operations, as_callback, restore_and_save, reapply_restored_state, roll_back_and_raise, fan_out,
  commit_change, carry, apply_failed,
}
use hydra_ultimate.Users.Memory.{World, users_of, users_of-restore, restore_state_in_place}
use hydra_ultimate.Users.Saga.{
  Attempt, completed, failed, attempt, finish, compensate, state_action, config_action,
  with_actions, fan_out-attempt, IsOrderly, attempt-IsOrderly, rollback-compensate,
}

-- Saving and applying the state, and the log, leave a reading of the users as it is. Saving fills in
-- missing keys and merges in what was observed meanwhile, so it keeps the desired part of the users.
pub record KeepsUsers {P H V : Type 0} (read : List User → V) (ops : Operations P H) : Type 0 where
  pub saving : (w : World H) → read (users_of (ops.save_state w).1) ≡ read (users_of w)
  pub applying : (w : World H) → read (users_of (ops.apply_config w).1) ≡ read (users_of w)
  pub logging :
      (m : String) (w : World H) → read (users_of (ops.log_rollback_error m w)) ≡ read (users_of w)

pub run_actions-append :
    {W : Type 0} (log : Option (String → W → W)) (xs ys : List (RollbackAction W))
    (acc : List RollbackFailure × W)
    → run_actions log (xs ++ ys) acc ≡ run_actions log ys (run_actions log xs acc)
unfolding run_actions
run_actions-append log [] ys acc = refl
run_actions-append log (x ∷ xs) ys acc = run_actions-append log xs ys (run_action log x acc)

module _ {P H V : Type 0} {read : List User → V} (ops : Operations P H)
    (keeps : KeepsUsers read ops) where
  open ops use {log_rollback_error, save_state, apply_config}

  -- A rollback step leaves the users that its callback leaves.
  run_action-users :
      (a : RollbackAction (World H)) (acc : List RollbackFailure × World H)
      → read (users_of (run_action (some log_rollback_error) a acc).1)
        ≡ read (users_of (a.callback acc.1).1)
  unfolding run_action report
  run_action-users a (failures, w) = elim (Option-cases (failure_of a.name (a.callback w).0)) [
    | inl none_failed ↦ rw (none_failed, run_action)
    | inr (failure, e) ↦ rw (e, run_action) (keeps.logging _ _)
  ]

  restore_and_save-users :
      (snapshot : AppState User) (w : World H)
      → read (users_of (as_callback ops (restore_and_save ops snapshot) w).1) ≡ read snapshot.users
  unfolding restore_and_save
  restore_and_save-users snapshot w = ground (
    arith,
    ap read (users_of-restore snapshot w),
    keeps.saving (restore_state_in_place snapshot w),
  )

  reapply-users :
      (w : World H)
      → read (users_of (as_callback ops (reapply_restored_state ops) w).1) ≡ read (users_of w)
  unfolding reapply_restored_state
  reapply-users w = ground (arith, keeps.applying w)

  pub compensate-users :
      (snapshot : AppState User) (called : List (RollbackAction (World H))) (w : World H)
      → read (users_of (compensate ops snapshot called w)) ≡ read snapshot.users
  unfolding run_actions
  compensate-users snapshot called w =
      let state' = state_action ops snapshot in
      let config' = config_action ops snapshot in
      let undone = run_actions (some log_rollback_error) (reversed called) ([], w) in
      let restored = run_action (some log_rollback_error) state' undone in
      ap (λ (x : List RollbackFailure × World H). read (users_of x.1))
        (run_actions-append (some log_rollback_error) (reversed called) (state' ∷ config' ∷ [])
          ([], w))
      ∙ run_action-users config' restored
      ∙ reapply-users restored.1
      ∙ run_action-users state' undone
      ∙ restore_and_save-users snapshot undone.1

  module _ (snapshot : AppState User) where
    -- An end that is an error leaves the users of the snapshot.
    abbrev pub Restores : {A : Type 0} → Result A × World H → Type 0
    Restores (ok a, w) = Unit
    Restores (err exc, w) = read (users_of w) ≡ read snapshot.users

    rolled_back-Restores :
        (A : Type 0) (n : ℕ) (called : List (RollbackAction (World H))) (exc : Exception)
        (w : World H)
        → Falls (pos 20) called
        → Restores (roll_back_and_raise ops {A = A} (with_actions ops snapshot n called) exc w)
    unfolding roll_back_and_raise
    rolled_back-Restores A n called exc w f =
        ap (λ v. read (users_of v)) (rollback-compensate ops snapshot n called w f)
        ∙ compensate-users snapshot called w

    commit_change-Restores :
        (n : ℕ) (called : List (RollbackAction (World H))) (w : World H)
        → Falls (pos 20) called
        → Restores (commit_change ops (with_actions ops snapshot n called) w)
    unfolding commit_change roll_back_and_raise
    commit_change-Restores n called w f =
        let tx = with_actions ops snapshot n called in
        let decide = λ (applied : Bool).
          if applied
          then lift (commit tx) >> pure tt
          else roll_back_and_raise ops tx (apply_failed ops) in
        elim (Exec-cases (save_state >> apply_config) w) [
          | inr (exc, w', e) ↦
              subst Restores
                (sym (
                  >>=-err (try_except (save_state >> apply_config) (roll_back_and_raise ops tx))
                    decide {w = w}
                    (try_except-err (save_state >> apply_config) (roll_back_and_raise ops tx) e)))
                (rolled_back-Restores Bool n called exc w' f)
          | inl (applied, w', e) ↦
              subst Restores
                (sym (
                  >>=-ok (try_except (save_state >> apply_config) (roll_back_and_raise ops tx))
                    decide {w = w}
                    (try_except-ok (save_state >> apply_config) (roll_back_and_raise ops tx) e)))
                (decided applied w')
        ]
      where
        decided :
            (applied : Bool) (w' : World H)
            → Restores (
                (if applied
                    then lift (commit (with_actions ops snapshot n called)) >> pure tt
                    else roll_back_and_raise ops
                        (with_actions ops snapshot n called)
                        (apply_failed ops))
                  w')
        decided true w' = tt
        decided false w' = rolled_back-Restores (Unit {0}) n called (apply_failed ops) w' f

    finish-Restores :
        (label : P → World H → String) (undo act : P → Exec (World H) (Unit {0}))
        (a : Attempt (World H))
        → IsOrderly ops snapshot label undo act a
        → (m : Exec (World H) (ApplyTransaction (World H))) (w : World H)
        → m w ≡ finish ops snapshot label undo act a
        → Restores ((m >>= λ tx. commit_change ops tx) w)
    finish-Restores label undo act (completed n called w') f m w e =
        subst Restores (sym (>>=-ok m (λ tx. commit_change ops tx) {w = w} e))
          (commit_change-Restores n called w' f)
    finish-Restores label undo act (failed exc called w') f m w e =
        subst Restores (sym (>>=-err m (λ tx. commit_change ops tx) {w = w} e))
          (compensate-users snapshot called w')

    -- Carrying a change to the plugins and applying it ends well, or the users are those of the
    -- snapshot, whatever the hooks have done.
    pub carry-Restores :
        (label : P → World H → String) (undo act : P → Exec (World H) (Unit {0})) (w : World H)
        → Restores (carry ops snapshot label undo act w)
    unfolding carry
    carry-Restores label undo act w =
        let plugins = ops.transports w in
        let loop = fan_out ops label undo act 0 plugins (with_actions ops snapshot 2 []) in
        finish-Restores label undo act (attempt ops snapshot label undo act 2 0 plugins [] w)
          (attempt-IsOrderly ops snapshot label undo act plugins 2 0 [] w tt tt) loop w
          (fan_out-attempt ops snapshot label undo act plugins 2 0 [] w tt tt)
