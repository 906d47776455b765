-- ===== src/Transaction/Undo.antt =====
-- What a rollback does to the world, and what it reports.
use mathlib.Core.Path.{subst}
use hydra_ultimate.Base.{
  ◌≡◌, refl, sym, ◌∙◌, true, false, Option, none, some, String, List, [], ◌∷◌, ◌++◌, str_eq,
  if◌then◌else◌, concat, append_nil, append_assoc, Result, ok, err, Exception, message, class_name,
}
use hydra_ultimate.Transaction.{
  Outcome, flag, object, RollbackAction, RollbackFailure, ApplyTransaction, rollback, run_actions,
  run_action, failure_of, report,
}
use hydra_ultimate.Transaction.Order.{schedule}

-- The message for the logger, where there is one.
abbrev pub told : {W : Type 0} → Option (String → W → W) → String → String → W → W
told none action error w = w
told (some log) action error w = log (concat ("Rollback " ∷ action ∷ " failed: " ∷ error ∷ [])) w

-- The text of an exception, or its class where the text is empty.
abbrev pub text_of : Exception → String
text_of exc = if str_eq (message exc) "" then class_name exc else message exc

abbrev pub failure : String → String → RollbackFailure
failure action error = record { action = action; error = error }

-- Running actions one after the other from a world: the failures in their order, and the world that is
-- left. An action fails by returning `False` or by raising, and the next one runs all the same.
pub data Undone {W : Type 0} (log : Option (String → W → W))
    : List (RollbackAction W) → W → List RollbackFailure → W → Type 0 where
  done : {w : W} → Undone log [] w [] w
  agreed :
      {a : RollbackAction W} {rest : List (RollbackAction W)} {w w' end : W}
      {failures : List RollbackFailure}
      → a.callback w ≡ (ok (flag true), w')
      → Undone log rest w' failures end
      → Undone log (a ∷ rest) w failures end
  returned :
      {a : RollbackAction W} {rest : List (RollbackAction W)} {w w' end : W}
      {failures : List RollbackFailure}
      → a.callback w ≡ (ok object, w')
      → Undone log rest w' failures end
      → Undone log (a ∷ rest) w failures end
  refused :
      {a : RollbackAction W} {rest : List (RollbackAction W)} {w w' end : W}
      {failures : List RollbackFailure}
      → a.callback w ≡ (ok (flag false), w')
      → Undone log rest (told log a.name "rollback step reported failure" w') failures end
      → Undone log (a ∷ rest) w (failure a.name "rollback step reported failure" ∷ failures) end
  raised :
      {a : RollbackAction W} {rest : List (RollbackAction W)} {w w' end : W} {exc : Exception}
      {failures : List RollbackFailure}
      → a.callback w ≡ (err exc, w')
      → Undone log rest (told log a.name (text_of exc) w') failures end
      → Undone log (a ∷ rest) w (failure a.name (text_of exc) ∷ failures) end

module _ {W : Type 0} where
  report_lem :
      (log : Option (String → W → W)) (f : RollbackFailure) (w : W)
      → report log f w ≡ told log f.action f.error w
  unfolding report
  report_lem none f w = refl
  report_lem (some log) f w = refl

module _ {W : Type 0} (log : Option (String → W → W)) where
  -- The failures from before stand in front.
  abbrev Runs :
      List (RollbackAction W) → W → List RollbackFailure → List RollbackFailure × W → Type 0
  Runs xs w earlier (failures, end) =
      (new : List RollbackFailure) × (failures ≡ earlier ++ new) × Undone log xs w new end

  -- One more failure.
  Runs-failing :
      (a : RollbackAction W) (rest : List (RollbackAction W)) (w w' : W)
      (earlier : List RollbackFailure) (f : RollbackFailure) (r : List RollbackFailure × W)
      → ((new : List RollbackFailure)
          → Undone log rest (told log f.action f.error w') new r.1
          → Undone log (a ∷ rest) w (f ∷ new) r.1)
      → Runs rest (report log f w') (earlier ++ f ∷ []) r
      → Runs (a ∷ rest) w earlier r
  Runs-failing a rest w w' earlier f r step (new, same, undone) = (
    f ∷ new,
    same ∙ append_assoc earlier (f ∷ []) new,
    step new (subst (λ v. Undone log rest v new r.1) (report_lem log f w') undone),
  )

  Runs-agreeing :
      (a : RollbackAction W) (rest : List (RollbackAction W)) (w w' : W)
      (earlier : List RollbackFailure) (r : List RollbackFailure × W)
      → ((new : List RollbackFailure)
          → Undone log rest w' new r.1
          → Undone log (a ∷ rest) w new r.1)
      → Runs rest w' earlier r
      → Runs (a ∷ rest) w earlier r
  Runs-agreeing a rest w w' earlier r step (new, same, undone) = (new, same, step new undone)

  -- Where a loop stands after an action that ended as given.
  abbrev after :
      RollbackAction W → List RollbackFailure → Result Outcome × W → List RollbackFailure × W
  after a earlier x = elim (failure_of a.name x.0) [
    | none ↦ (earlier, x.1)
    | some f ↦ (earlier ++ f ∷ [], report log f x.1)
  ]

  run_actions-Runs :
      (xs : List (RollbackAction W)) (earlier : List RollbackFailure) (w : W)
      → Runs xs w earlier (run_actions log xs (earlier, w))
  unfolding run_actions run_action failure_of
  run_actions-Runs [] earlier w = ([], sym (append_nil earlier), done)
  run_actions-Runs (a ∷ rest) earlier w =
      go (a.callback w) refl (λ earlier' w'. run_actions-Runs rest earlier' w')
    where
      go :
          (x : Result Outcome × W)
          → a.callback w ≡ x
          → ((failures : List RollbackFailure) (v : W)
              → Runs rest v failures (run_actions log rest (failures, v)))
          → Runs (a ∷ rest) w earlier (run_actions log rest (after a earlier x))
      go (ok (flag true), w') e later =
          Runs-agreeing a rest w w' earlier _ (λ new u. agreed e u) (later earlier w')
      go (ok object, w') e later =
          Runs-agreeing a rest w w' earlier _ (λ new u. returned e u) (later earlier w')
      go (ok (flag false), w') e later =
          Runs-failing a rest w w' earlier _ _ (λ new u. refused e u) (later _ (report log _ w'))
      go (err exc, w') e later =
          Runs-failing a rest w w' earlier _ _ (λ new u. raised e u) (later _ (report log _ w'))

-- A rollback of an open transaction runs every registered action once, in the order of its schedule and
-- whatever the earlier ones did, with or without a logger. It reports exactly the actions that return
-- `False` or raise, in their order, each by its name and the text of its error, and tells the logger of
-- each before the next one runs. It closes the transaction.
pub rollback_undoes :
    {W : Type 0} (log : Option (String → W → W)) (t : ApplyTransaction W) (w : W)
    → t.finalized ≡ false
    → let (failures, t', w') = rollback log t w in
      Undone log (schedule t) w failures w' × (t'.finalized ≡ true) × (t'.phase ≡ "rolled_back")
unfolding rollback
rollback_undoes log t w e =
    let (new, same, undone) = run_actions-Runs log (schedule t) [] w in
    rw e (rw same undone, refl, refl)
