-- ===== src/Transaction/Tests.antt =====
-- Runs of a transaction with three actions on a world that records the calls.
use mathlib.Core.List.{Perm}
use hydra_ultimate.Base.{
  ℕ, String, ◌≡◌, refl, true, false, some, List, [], ◌∷◌, ◌++◌, Result, ok, err, Exec,
  runtime_error, sorted,
}
use hydra_ultimate.Base.Int.{ℤ, pos, negsuc}
use hydra_ultimate.Transaction.{
  Outcome, flag, object, RollbackAction, ApplyTransaction, new, add_rollback, before, rollback,
  run_actions, run_action, failure_of, report, commit,
}
use hydra_ultimate.Transaction.Order.{InOrder, schedule, schedule_lem}
use hydra_ultimate.Transaction.Phases.{
  IsValid, Reach, here, next, registered, committed, transaction_life,
}
use hydra_ultimate.Transaction.Undo.{Undone, rollback_undoes}

abbrev calling : String → Result Outcome → Exec (List String) Outcome
calling name outcome w = (outcome, w ++ name ∷ [])

abbrev action : ℤ → ℕ → String → Result Outcome → RollbackAction (List String)
action priority sequence name outcome = record {
  priority = priority;
  sequence = sequence;
  name = name;
  callback = calling name outcome;
}

abbrev state_action : RollbackAction (List String)
state_action = action (pos 20) 0 "state" (ok object)

abbrev late_action : RollbackAction (List String)
late_action = action (negsuc 1) 1 "late" (err (runtime_error "gone"))

abbrev early_action : RollbackAction (List String)
early_action = action (negsuc 1) 2 "early" (ok (flag false))

abbrev three : ApplyTransaction (List String)
three = record {
  phase = "apply";
  actions = state_action ∷ late_action ∷ early_action ∷ [];
  sequence = 3;
  finalized = false;
}

-- The lower priority comes first, and equal priorities keep the order of registration.
schedule-three : schedule three ≡ late_action ∷ early_action ∷ state_action ∷ []
unfolding sorted before
schedule-three = refl

schedule_lem_example : Perm (schedule three) three.actions × InOrder (schedule three)
schedule_lem_example = schedule_lem three

abbrev logger : String → List String → List String
logger message w = w ++ message ∷ []

rollback_undoes_example :
    let (failures, t', w') = rollback (some logger) three [] in
    Undone (some logger) (schedule three) [] failures w'
    × (t'.finalized ≡ true)
    × (t'.phase ≡ "rolled_back")
rollback_undoes_example = rollback_undoes (some logger) three [] refl

-- The two that fail are reported, each before the next one runs.
three_undone :
    (rollback (some logger) three []).2
    ≡ "late" ∷ "Rollback late failed: gone" ∷ "early"
      ∷ "Rollback early failed: rollback step reported failure" ∷ "state" ∷ []
unfolding rollback sorted before run_actions run_action failure_of report
three_undone = refl

abbrev one : ApplyTransaction (List String)
one = record {
  phase = "validate";
  actions =
      record {
        priority = pos 20;
        sequence = 0;
        name = "state";
        callback = calling "state" (ok object);
      }
      ∷ [];
  sequence = 1;
  finalized = false;
}

abbrev ended : ApplyTransaction (List String)
ended = record { phase = "committed"; actions = []; sequence = 1; finalized = true }

registering : Reach new one
unfolding add_rollback
registering = next here (registered "state" (calling "state" (ok object)) (pos 20) refl)

committing : Reach new ended
unfolding commit
committing = next registering (committed refl)

transaction_life_example : IsValid ended × (ended.finalized ≡ true → ended ≡ ended)
transaction_life_example = transaction_life ended ended committing here
