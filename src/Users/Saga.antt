-- ===== src/Users/Saga.antt =====
-- The change of a user as a saga: what the hooks have done is undone in reverse order.
use mathlib.Core.Path.{subst}
use hydra_ultimate.Base.{
  ℕ, ◌+◌, String, ◌≡◌, refl, sym, ap, ◌∙◌, true, false, some, List, [], ◌∷◌, ◌++◌, arith, All,
  Result, ok, err, Exec, Exception, Bool-cases, inl, inr, ◌>>=◌, >>=-ok, >>=-err, try_except-ok,
  try_except-err, Exec-cases, try_except, pure,
}
use hydra_ultimate.Base.Int.{ℤ, pos, sub_ℕ, ◌<ℤ◌}
use hydra_ultimate.State.{AppState, User, protocol_enabled}
use hydra_ultimate.Transaction.{RollbackAction, ApplyTransaction, rollback, run_actions}
use hydra_ultimate.Transaction.Order.{Falls, Falls-append, reversed, sorted-skeleton}
use hydra_ultimate.Users.{
  Operations, as_callback, restore_and_save, reapply_restored_state, roll_back_and_raise, visit,
  fan_out,
}
use hydra_ultimate.Users.Memory.{World}

module _ {W : Type 0} where
  -- All the actions have a higher priority.
  abbrev pub Above : ℤ → List (RollbackAction W) → Type 0
  Above p xs = All (λ a. p <ℤ a.priority) xs

  Above-append :
      (index : ℕ) (xs : List (RollbackAction W)) (a : RollbackAction W)
      → a.priority ≡ sub_ℕ 10 index
      → Above (sub_ℕ 10 index) xs
      → Above (sub_ℕ 10 (index + 1)) (xs ++ a ∷ [])
  Above-append index [] a e h = rw e (ground arith, tt)
  Above-append index (x ∷ xs) a e h = (ground arith, Above-append index xs a e h.1)

module _ {W : Type 0} where
  Above-step :
      (index : ℕ) (xs : List (RollbackAction W))
      → Above (sub_ℕ 10 index) xs
      → Above (sub_ℕ 10 (index + 1)) xs
  Above-step index [] h = tt
  Above-step index (x ∷ xs) h = (ground arith, Above-step index xs h.1)

  Above-index :
      (index : ℕ) (xs : List (RollbackAction W)) (p : ℤ)
      → p ≡ sub_ℕ 10 index
      → Above (sub_ℕ 10 index) xs
      → Above p xs
  Above-index index xs p e h = rw e h

-- How the round over the transports ends: the compensations that it has registered, and the world.
pub data Attempt (W : Type 0) : Type 0 where
  completed : ℕ → List (RollbackAction W) → W → Attempt W
  failed : Exception → List (RollbackAction W) → W → Attempt W

module _ {P H : Type 0} (ops : Operations P H) (snapshot : AppState User) where
  open ops use {name, log_rollback_error}

  abbrev pub state_action : RollbackAction (World H)
  state_action = record {
    priority = pos 20;
    sequence = 0;
    name = "application state";
    callback = as_callback ops (restore_and_save ops snapshot);
  }

  abbrev pub config_action : RollbackAction (World H)
  config_action = record {
    priority = pos 30;
    sequence = 1;
    name = "restored configuration";
    callback = as_callback ops (reapply_restored_state ops);
  }

  -- An open transaction of the lifecycle, with the compensations that it has registered.
  abbrev pub with_actions : ℕ → List (RollbackAction (World H)) → ApplyTransaction (World H)
  with_actions n called = record {
    phase = "apply";
    actions = state_action ∷ config_action ∷ called;
    sequence = n;
    finalized = false;
  }

  -- The latest compensation runs first; then the state is restored and saved, and then the
  -- configuration is applied again.
  abbrev pub compensate : List (RollbackAction (World H)) → World H → World H
  compensate called w =
      let plan = reversed called ++ state_action ∷ config_action ∷ [] in
      (run_actions (some log_rollback_error) plan ([], w)).1

  pub rollback-compensate :
      (n : ℕ) (called : List (RollbackAction (World H))) (w : World H)
      → Falls (pos 20) called
      → (rollback (some log_rollback_error) (with_actions n called) w).2 ≡ compensate called w
  unfolding rollback
  rollback-compensate n called w f =
      ap (λ xs. (run_actions (some log_rollback_error) xs ([], w)).1)
        (sorted-skeleton state_action config_action called refl refl f)

  module _ (label : P → World H → String) (undo act : P → Exec (World H) (Unit {0})) where
    abbrev pub compensation : ℕ → ℕ → P → World H → RollbackAction (World H)
    compensation n index plugin w = record {
      priority = sub_ℕ 10 index;
      sequence = n;
      name = label plugin w;
      callback = as_callback ops (undo plugin);
    }

    -- The hooks of the enabled plugins run in order, until one raises; each has its compensation
    -- registered before it runs.
    unfoldable pub attempt :
        ℕ → ℕ → List P → List (RollbackAction (World H)) → World H → Attempt (World H)
    attempt n index [] called w = completed n called w
    attempt n index (plugin ∷ rest) called w =
        let called' = called ++ compensation n index plugin w ∷ [] in
        let (r, w') = act plugin w in
        elim (protocol_enabled w.state (name plugin)) [
          | true ↦ elim r [
            | ok done ↦ attempt (n + 1) (index + 1) rest called' w'
            | err exc ↦ failed exc called' w'
          ]
          | false ↦ attempt n (index + 1) rest called w
        ]

    -- What the operation makes of it.
    abbrev pub finish : Attempt (World H) → Result (ApplyTransaction (World H)) × World H
    finish (completed n called w) = (ok (with_actions n called), w)
    finish (failed exc called w) = (err exc, compensate called w)

    visit-ok :
        (n index : ℕ) (plugin : P) (called : List (RollbackAction (World H))) (w w' : World H)
        → act plugin w ≡ (ok tt, w')
        → visit ops label undo act index plugin (with_actions n called) w
          ≡ (ok (with_actions (n + 1) (called ++ compensation n index plugin w ∷ [])), w')
    unfolding visit roll_back_and_raise
    visit-ok n index plugin called w w' e =
        let tx' = with_actions (n + 1) (called ++ compensation n index plugin w ∷ []) in
        >>=-ok (try_except (act plugin) (roll_back_and_raise ops tx')) (λ _. pure tx') {w = w}
          (try_except-ok (act plugin) (roll_back_and_raise ops tx') e)

    visit-err :
        (n index : ℕ) (plugin : P) (called : List (RollbackAction (World H))) (w w' : World H)
        (exc : Exception)
        → act plugin w ≡ (err exc, w')
        → Falls (pos 20) (called ++ compensation n index plugin w ∷ [])
        → visit ops label undo act index plugin (with_actions n called) w
          ≡ (err exc, compensate (called ++ compensation n index plugin w ∷ []) w')
    unfolding visit roll_back_and_raise
    visit-err n index plugin called w w' exc e f =
        let called' = called ++ compensation n index plugin w ∷ [] in
        let tx' = with_actions (n + 1) called' in
        >>=-err (try_except (act plugin) (roll_back_and_raise ops tx')) (λ _. pure tx') {w = w}
          (try_except-err (act plugin) (roll_back_and_raise ops tx') e
            ∙ ap (λ (u : World H). (err exc, u)) (rollback-compensate (n + 1) called' w' f))

    fan_out-on :
        (plugin : P) (rest : List P) (index : ℕ) (tx : ApplyTransaction (World H)) (w : World H)
        → protocol_enabled w.state (name plugin) ≡ true
        → fan_out ops label undo act index (plugin ∷ rest) tx w
          ≡ (visit ops label undo act index plugin tx >>= λ tx'.
                fan_out ops label undo act (index + 1) rest tx')
              w
    unfolding fan_out
    fan_out-on plugin rest index tx w on = rw (on, fan_out)

    fan_out-off :
        (plugin : P) (rest : List P) (index : ℕ) (tx : ApplyTransaction (World H)) (w : World H)
        → protocol_enabled w.state (name plugin) ≡ false
        → fan_out ops label undo act index (plugin ∷ rest) tx w
          ≡ fan_out ops label undo act (index + 1) rest tx w
    unfolding fan_out
    fan_out-off plugin rest index tx w off = rw (off, fan_out)

    module _ (n index : ℕ) (plugin : P) (rest : List P) (called : List (RollbackAction (World H)))
        (w : World H) where
      attempt-ok :
          (w' : World H)
          → protocol_enabled w.state (name plugin) ≡ true
          → act plugin w ≡ (ok tt, w')
          → attempt n index (plugin ∷ rest) called w
            ≡ attempt (n + 1) (index + 1) rest (called ++ compensation n index plugin w ∷ []) w'
      unfolding attempt
      attempt-ok w' on e =
          rw (on, attempt)
            (ap
              (λ (x : Result (Unit {0}) × World H). elim x.0 [
                | ok done ↦
                    attempt (n + 1) (index + 1) rest (called ++ compensation n index plugin w ∷ [])
                      x.1
                | err exc ↦ failed exc (called ++ compensation n index plugin w ∷ []) x.1
              ])
              e)

      attempt-err :
          (w' : World H) (exc : Exception)
          → protocol_enabled w.state (name plugin) ≡ true
          → act plugin w ≡ (err exc, w')
          → attempt n index (plugin ∷ rest) called w
            ≡ failed exc (called ++ compensation n index plugin w ∷ []) w'
      unfolding attempt
      attempt-err w' exc on e =
          rw (on, attempt)
            (ap
              (λ (x : Result (Unit {0}) × World H). elim x.0 [
                | ok done ↦
                    attempt (n + 1) (index + 1) rest (called ++ compensation n index plugin w ∷ [])
                      x.1
                | err exc ↦ failed exc (called ++ compensation n index plugin w ∷ []) x.1
              ])
              e)

      attempt-off :
          protocol_enabled w.state (name plugin) ≡ false
          → attempt n index (plugin ∷ rest) called w ≡ attempt n (index + 1) rest called w
      unfolding attempt
      attempt-off off = rw (off, attempt)

    -- The code's loop, on an open transaction, does what `attempt` and `compensate` say.
    pub fan_out-attempt :
        (plugins : List P) (n index : ℕ) (called : List (RollbackAction (World H))) (w : World H)
        → Falls (pos 20) called
        → Above (sub_ℕ 10 index) called
        → fan_out ops label undo act index plugins (with_actions n called) w
          ≡ finish (attempt n index plugins called w)
    unfolding fan_out attempt
    fan_out-attempt [] n index called w f h = refl
    fan_out-attempt (plugin ∷ rest) n index called w f h =
        let tx = with_actions n called in
        let next = compensation n index plugin w in
        let go_on =
          λ (tx' : ApplyTransaction (World H)). fan_out ops label undo act (index + 1) rest tx' in
        let falls = Falls-append (pos 20) called next f h (ground arith) in
        elim (Bool-cases (protocol_enabled w.state (name plugin))) [
          | inr off ↦
              fan_out-off plugin rest index tx w off
              ∙ fan_out-attempt rest n (index + 1) called w f (Above-step index called h)
              ∙ ap finish (sym (attempt-off n index plugin rest called w off))
          | inl on ↦ elim (Exec-cases (act plugin) w) [
            | inl (tt, w', e) ↦
                fan_out-on plugin rest index tx w on
                ∙ >>=-ok (visit ops label undo act index plugin tx) go_on {w = w}
                    (visit-ok n index plugin called w w' e)
                ∙ fan_out-attempt rest (n + 1) (index + 1) (called ++ next ∷ []) w' falls
                    (Above-append index called next refl h)
                ∙ ap finish (sym (attempt-ok n index plugin rest called w w' on e))
            | inr (exc, w', e) ↦
                fan_out-on plugin rest index tx w on
                ∙ >>=-err (visit ops label undo act index plugin tx) go_on {w = w}
                    (visit-err n index plugin called w w' exc e falls)
                ∙ ap finish (sym (attempt-err n index plugin rest called w w' exc on e))
          ]
        ]

    -- A round that completes leaves its compensations in the order that a rollback needs.
    abbrev pub IsOrderly : Attempt (World H) → Type 0
    IsOrderly (completed n called w) = Falls (pos 20) called
    IsOrderly (failed exc called w) = Unit

    pub attempt-IsOrderly :
        (plugins : List P) (n index : ℕ) (called : List (RollbackAction (World H))) (w : World H)
        → Falls (pos 20) called
        → Above (sub_ℕ 10 index) called
        → IsOrderly (attempt n index plugins called w)
    unfolding attempt
    attempt-IsOrderly [] n index called w f h = f
    attempt-IsOrderly (plugin ∷ rest) n index called w f h =
        let next = compensation n index plugin w in
        let falls = Falls-append (pos 20) called next f h (ground arith) in
        elim (Bool-cases (protocol_enabled w.state (name plugin))) [
          | inr off ↦
              subst IsOrderly (sym (attempt-off n index plugin rest called w off))
                (attempt-IsOrderly rest n (index + 1) called w f (Above-step index called h))
          | inl on ↦ elim (Exec-cases (act plugin) w) [
            | inl (tt, w', e) ↦
                subst IsOrderly (sym (attempt-ok n index plugin rest called w w' on e)) (
                  attempt-IsOrderly rest (n + 1) (index + 1) (called ++ next ∷ []) w' falls
                    (Above-append index called next refl h))
            | inr (exc, w', e) ↦
                subst IsOrderly (sym (attempt-err n index plugin rest called w w' exc on e)) tt
          ]
        ]
