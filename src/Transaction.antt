-- ===== src/Transaction.antt =====
-- hydra/core/apply_transaction.py and hydra/core/transaction_helpers.py: the rollback plan of one
-- configuration change.
pub mod Order
pub mod Phases
pub mod Undo
mod Tests
use hydra_ultimate.Base.{
  ℕ, ◌+◌, String, Bool, true, false, not, ◌&&◌, ◌||◌, Option, none, some, List, [], ◌∷◌, ◌++◌, leb,
  str_eq, if◌then◌else◌, concat, Result, ok, err, Exec, Exception, runtime_error, message,
  class_name, sorted, and_then,
}
use hydra_ultimate.Base.Int.{ℤ, pos, ltb_ℤ, eqb_ℤ}

pub record RollbackFailure : Type 0 where
  pub action : String
  pub error : String

-- What a rollback callback returns: a `bool`, or any other object.
pub data Outcome : Type 0 where
  flag : Bool → Outcome
  object : Outcome

pub record RollbackAction (W : Type 0) : Type 0 where
  pub priority : ℤ
  pub sequence : ℕ
  pub name : String
  pub callback : Exec W Outcome

-- `actions` is `_actions`, in the order of registration.
pub record ApplyTransaction (W : Type 0) : Type 0 where
  pub phase : String
  pub actions : List (RollbackAction W)
  pub sequence : ℕ
  pub finalized : Bool

-- `except Exception as exc`: the failure that one callback's end stands for, if it failed.
unfoldable pub failure_of : String → Result Outcome → Option RollbackFailure
failure_of name (ok (flag false)) =
    some (record { action = name; error = "rollback step reported failure" })
failure_of name (ok _) = none
failure_of name (err exc) =
    let detail = message exc in
    some (record { action = name; error = if str_eq detail "" then class_name exc else detail })

module _ {W : Type 0} where
  -- `__init__`
  abbrev pub new : ApplyTransaction W
  new = record { phase = "validate"; actions = []; sequence = 0; finalized = false }

  unfoldable pub advance : String → ApplyTransaction W → Result (ApplyTransaction W)
  advance phase t =
      if t.finalized
      then err (runtime_error "apply transaction is already finalized")
      else ok (record t { phase = phase })

  unfoldable pub add_rollback :
      String → Exec W Outcome → ℤ → ApplyTransaction W → Result (ApplyTransaction W)
  add_rollback name callback priority t =
      if t.finalized
      then err (runtime_error "cannot add rollback action to finalized transaction")
      else ok (record t {
        actions =
            t.actions
            ++ record {
              priority = priority;
              sequence = t.sequence;
              name = name;
              callback = callback;
            }
              ∷ [];
        sequence = t.sequence + 1;
      })

  -- The order of `@dataclass(order=True)`: by priority, then by sequence.
  unfoldable pub before : RollbackAction W → RollbackAction W → Bool
  before a b =
      ltb_ℤ a.priority b.priority || (eqb_ℤ a.priority b.priority && leb a.sequence b.sequence)

  -- `on_error(f"Rollback {action.name} failed: {failure.error}")`, where a logger is given.
  unfoldable pub report : Option (String → W → W) → RollbackFailure → W → W
  report none failure w = w
  report (some on_error) failure w =
      on_error (concat ("Rollback " ∷ failure.action ∷ " failed: " ∷ failure.error ∷ [])) w

  -- One round of the loop in `rollback`.
  unfoldable pub run_action :
      Option (String → W → W)
      → RollbackAction W
      → List RollbackFailure × W
      → List RollbackFailure × W
  run_action on_error action (failures, w) =
      let (outcome, w') = action.callback w in
      elim (failure_of action.name outcome) [
        | none ↦ (failures, w')
        | some failure ↦ (failures ++ failure ∷ [], report on_error failure w')
      ]

  unfoldable pub run_actions :
      Option (String → W → W)
      → List (RollbackAction W)
      → List RollbackFailure × W
      → List RollbackFailure × W
  run_actions on_error [] acc = acc
  run_actions on_error (action ∷ rest) acc =
      run_actions on_error rest (run_action on_error action acc)

  unfoldable pub rollback :
      Option (String → W → W)
      → ApplyTransaction W
      → W
      → List RollbackFailure × ApplyTransaction W × W
  rollback on_error t w =
      let undone = run_actions on_error (sorted before t.actions) ([], w) in
      if t.finalized
      then ([], t, w)
      else (undone.0, record t { phase = "rolled_back"; finalized = true }, undone.1)

  unfoldable pub commit : ApplyTransaction W → Result (ApplyTransaction W)
  commit t =
      if t.finalized
      then err (runtime_error "apply transaction is already finalized")
      else ok (record t { phase = "committed"; finalized = true; actions = [] })

  -- `state_transaction` of transaction_helpers.py
  unfoldable pub state_transaction : Exec W Outcome → Exec W Outcome → Result (ApplyTransaction W)
  unfolding advance add_rollback
  state_transaction restore_state restore_config = and_then (advance "apply" new) λ t.
      and_then (add_rollback "application state" restore_state (pos 20) t)
        λ t'. add_rollback "restored configuration" restore_config (pos 30) t'
