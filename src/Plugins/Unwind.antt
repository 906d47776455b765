-- ===== src/Plugins/Unwind.antt =====
-- A failed round of `apply_enabled` leaves the plugins' runtime as it found it.
use mathlib.Core.Path.{subst}
use hydra_ultimate.Base.{
  ℕ, ◌+◌, String, ◌≡◌, refl, sym, ap, ◌∙◌, Bool, true, false, some, List, [], ◌∷◌, ◌++◌, arith, All,
  length, length-append, Result, ok, err, Exception, runtime_error, Bool-cases, Option-cases, inl,
  inr, pure, try_except, ◌>>◌, if◌then◌else◌,
}
use hydra_ultimate.Base.Int.{pos, negsuc, ◌<ℤ◌}
use hydra_ultimate.Transaction.{
  RollbackAction, RollbackFailure, ApplyTransaction, rollback, run_actions, run_action, failure_of,
  report,
}
use hydra_ultimate.Transaction.Order.{Falls, reversed, reversed-append, Falls-append, sorted-Falls}
use hydra_ultimate.Plugins.{uses_central_apply}
use hydra_ultimate.Plugins.Ends.{Ends, bind-Ends, try-Ends}
use hydra_ultimate.Plugins.Executor.{
  Hooks, unwind, undo, title, apply_failed, apply_failure_message, apply_checked, apply_one,
  apply_all, apply_enabled,
}

-- What `rollback` promises: run right after `apply`, it brings back the runtime that the snapshot was
-- taken of. Taking a snapshot and logging change nothing that `view` shows.
pub record Restorable {W P S F V : Type 0} (hooks : Hooks W P S F) (view : W → V) : Type 0 where
  pub taking : (p : P) (w : W) → view (hooks.snapshot p w).1 ≡ view w
  pub undoing :
      (p : P) (s : S) (w w' v : W)
      → hooks.snapshot p w ≡ (ok s, w')
      → view v ≡ view (hooks.apply p w').1
      → view (hooks.roll_back p s v).1 ≡ view w
  pub logging : (m : String) (w : W) → view (hooks.log_error m w) ≡ view w

module _ {W P S F V : Type 0} (hooks : Hooks W P S F) (view : W → V)
    (restorable : Restorable hooks view) (start : V) where
  open hooks use {log_error}

  -- Running the compensations backwards from a runtime like that of `w` leads back to the start.
  abbrev Undoes : List (RollbackAction W) → W → Type 0
  Undoes called w =
      (fs : List RollbackFailure) (v : W)
      → view v ≡ view w
      → view (run_actions (some log_error) (reversed called) (fs, v)).1 ≡ start

  record IsOpen (called : List (RollbackAction W)) (applied : List (P × S)) (w : W) : Type 0 where
    falls : Falls (pos 0) called
    above : All (λ a. negsuc (length applied) <ℤ a.priority) called
    undoes : Undoes called w

  abbrev with_actions : String → ℕ → List (RollbackAction W) → ApplyTransaction W
  with_actions phase n called = record {
    phase = phase;
    actions = called;
    sequence = n;
    finalized = false;
  }

  run_action-view :
      (a : RollbackAction W) (fs : List RollbackFailure) (w : W)
      → view (run_action (some log_error) a (fs, w)).1 ≡ view (a.callback w).1
  unfolding run_action report
  run_action-view a fs w = elim (Option-cases (failure_of a.name (a.callback w).0)) [
    | inl none_failed ↦ rw (none_failed, run_action)
    | inr (failure, e) ↦ rw (e, run_action) (restorable.logging _ _)
  ]

  undo-view : (p : P) (s : S) (w : W) → view (undo hooks p s w).1 ≡ view (hooks.roll_back p s w).1
  undo-view p s w = ground arith

  unwind-Ends :
      (A : Type 0) (R : A → W → Type 0) (phase : String) (n : ℕ) (called : List (RollbackAction W))
      (exc : W → Exception) (w : W)
      → Falls (pos 0) called
      → Undoes called w
      → Ends view start R (unwind hooks {A = A} (with_actions phase n called) exc w)
  unfolding unwind rollback
  unwind-Ends A R phase n called exc w falls undoes =
      ap (λ xs. view (run_actions (some log_error) xs ([], w)).1)
        (sorted-Falls (pos 0) called falls)
      ∙ undoes [] w refl

  abbrev registered : ℕ → List (P × S) → P → S → RollbackAction W
  registered n applied p s = record {
    priority = negsuc (length applied);
    sequence = n;
    name = title hooks p;
    callback = undo hooks p s;
  }

  Undoes-append :
      (n : ℕ) (applied : List (P × S)) (called : List (RollbackAction W)) (p : P) (s : S) (w w' : W)
      → hooks.snapshot p w ≡ (ok s, w')
      → Undoes called w
      → Undoes (called ++ registered n applied p s ∷ []) (hooks.apply p w').1
  unfolding run_actions
  Undoes-append n applied called p s w w' e undoes fs v same =
      let a = registered n applied p s in
      let acc = run_action (some log_error) a (fs, v) in
      rw (reversed-append called a) (
        undoes acc.0 acc.1
          (run_action-view a fs v ∙ undo-view p s v ∙ restorable.undoing p s w w' v e same))

  above-append :
      (k : ℕ) (xs : List (RollbackAction W)) (a : RollbackAction W)
      → a.priority ≡ negsuc k
      → All (λ b. negsuc k <ℤ b.priority) xs
      → All (λ b. negsuc (k + 1) <ℤ b.priority) (xs ++ a ∷ [])
  above-append k [] a e h = rw e (omega arith, tt)
  above-append k (x ∷ xs) a e h = (omega arith, above-append k xs a e h.1)

  above_length :
      (k m : ℕ) (xs : List (RollbackAction W))
      → k ≡ m
      → All (λ b. negsuc k <ℤ b.priority) xs
      → All (λ b. negsuc m <ℤ b.priority) xs
  above_length k m xs e h = subst (λ j. All (λ b. negsuc j <ℤ b.priority) xs) e h

  -- A transaction that is open, with what a rollback will undo.
  abbrev Opened : ApplyTransaction W × List (P × S) → W → Type 0
  Opened (tx, applied) w =
      (phase : String) × (n : ℕ) × (called : List (RollbackAction W)) × (tx
        ≡ with_actions phase n called)
      × IsOpen called applied w

  module _ (phase : String) (n : ℕ) (called : List (RollbackAction W)) (applied : List (P × S))
      (p : P) (s : S) (w w' : W) (taken : hooks.snapshot p w ≡ (ok s, w'))
      (opened : IsOpen called applied w) where
    abbrev grown : List (RollbackAction W)
    grown = called ++ registered n applied p s ∷ []

    grown-Falls : Falls (pos 0) grown
    grown-Falls =
        Falls-append (pos 0) called (registered n applied p s) opened.falls opened.above
          (omega arith)

    grown-IsOpen : IsOpen grown (applied ++ (p, s) ∷ []) (hooks.apply p w').1
    grown-IsOpen = record {
      falls = grown-Falls;
      above =
          above_length (length applied + 1) (length (applied ++ (p, s) ∷ [])) grown
            (omega (arith, length-append {0} applied ((p, s) ∷ [])))
            (above-append (length applied) called (registered n applied p s) refl opened.above);
      undoes = Undoes-append n applied called p s w w' taken opened.undoes;
    }

    apply_checked-Ends :
        Ends view start
          (λ done v. v ≡ (hooks.apply p w').1)
          (apply_checked hooks p (with_actions "apply" (n + 1) grown) w')
    unfolding apply_checked
    apply_checked-Ends =
        let tx = with_actions "apply" (n + 1) grown in
        let landed = λ (v : W). v ≡ (hooks.apply p w').1 in
        bind-Ends view start (λ (applied : Bool) v. landed v) (λ done v. landed v)
          (try_except (hooks.apply p) (λ exc. unwind hooks tx (λ _. apply_failed hooks p exc)))
          (λ ok_so_far.
            if ok_so_far
            then pure tt
            else unwind hooks tx (λ u. runtime_error (apply_failure_message hooks p u)))
          w'
          (try-Ends view start (λ (applied : Bool) v. landed v) (hooks.apply p)
            (λ exc. unwind hooks tx (λ _. apply_failed hooks p exc)) w' (λ a e. refl)
            (λ exc.
              unwind-Ends Bool (λ applied v. landed v) "apply" (n + 1) grown
                (λ _. apply_failed hooks p exc) (hooks.apply p w').1 grown-Falls
                grown-IsOpen.undoes))
          decided
      where
        decided :
            (a : Bool) (v : W)
            → v ≡ (hooks.apply p w').1
            → Ends view start
                (λ (done : Unit {0}) u. u ≡ (hooks.apply p w').1)
                ((if a
                    then pure tt
                    else unwind hooks
                        (with_actions "apply" (n + 1) grown)
                        (λ u. runtime_error (apply_failure_message hooks p u)))
                  v)
        decided true v e = e
        decided false v e =
            unwind-Ends (Unit {0}) (λ done u. u ≡ (hooks.apply p w').1) "apply" (n + 1) grown
              (λ u. runtime_error (apply_failure_message hooks p u)) v grown-Falls
              (subst (Undoes grown) (sym e) grown-IsOpen.undoes)

  apply_one-Ends :
      (phase : String) (n : ℕ) (called : List (RollbackAction W)) (applied : List (P × S)) (p : P)
      (w : W)
      → IsOpen called applied w
      → Ends view start Opened (apply_one hooks p (with_actions phase n called) applied w)
  unfolding apply_one
  apply_one-Ends phase n called applied p w opened =
      let tx = with_actions phase n called in
      bind-Ends view start (λ s w'. hooks.snapshot p w ≡ (ok s, w')) Opened
        (try_except (hooks.snapshot p) (λ exc. unwind hooks tx (λ _. apply_failed hooks p exc)))
        (λ s.
          apply_checked hooks p
            (with_actions "apply" (n + 1) (called ++ registered n applied p s ∷ []))
          >> pure (
            with_actions "apply" (n + 1) (called ++ registered n applied p s ∷ []),
            applied ++ (p, s) ∷ [],
          ))
        w
        (try-Ends view start (λ s w'. hooks.snapshot p w ≡ (ok s, w')) (hooks.snapshot p)
          (λ exc. unwind hooks tx (λ _. apply_failed hooks p exc)) w (λ a e. e)
          (λ exc.
            unwind-Ends S (λ s w'. hooks.snapshot p w ≡ (ok s, w')) phase n called
              (λ _. apply_failed hooks p exc) (hooks.snapshot p w).1 opened.falls
              (λ fs v same. opened.undoes fs v (same ∙ restorable.taking p w))))
        (λ s w' taken.
          bind-Ends view start (λ done v. v ≡ (hooks.apply p w').1) Opened
            (apply_checked hooks p
              (with_actions "apply" (n + 1) (called ++ registered n applied p s ∷ [])))
            (λ done. pure (
              with_actions "apply" (n + 1) (called ++ registered n applied p s ∷ []),
              applied ++ (p, s) ∷ [],
            ))
            w' (apply_checked-Ends phase n called applied p s w w' taken opened)
            (λ done v e. (
              "apply",
              n + 1,
              called ++ registered n applied p s ∷ [],
              refl,
              subst (IsOpen (called ++ registered n applied p s ∷ []) (applied ++ (p, s) ∷ []))
                  (sym e) (grown-IsOpen phase n called applied p s w w' taken opened),
            )))

  apply_all-Ends :
      (plugins : List P) (phase : String) (n : ℕ) (called : List (RollbackAction W))
      (applied : List (P × S)) (w : W)
      → IsOpen called applied w
      → Ends view start
          (λ result v. Unit {0})
          (apply_all hooks plugins (with_actions phase n called) applied w)
  unfolding apply_all
  apply_all-Ends [] phase n called applied w opened = tt
  apply_all-Ends (p ∷ rest) phase n called applied w opened =
      elim (Bool-cases (uses_central_apply (hooks.meta p))) [
        | inr skipped ↦
            rw (skipped, apply_all) (apply_all-Ends rest phase n called applied w opened)
        | inl central ↦
            rw (central, apply_all)
              (bind-Ends view start Opened (λ result v. Unit {0})
                (apply_one hooks p (with_actions phase n called) applied)
                (λ next. apply_all hooks rest next.0 next.1) w
                (apply_one-Ends phase n called applied p w opened)
                (λ next v (phase', n', called', e, opened').
                  subst
                    (λ tx.
                      Ends view start (λ result u. Unit {0}) (apply_all hooks rest tx next.1 v))
                    (sym e) (apply_all-Ends rest phase' n' called' next.1 v opened')))
      ]

-- `apply_enabled` is atomic on what the plugins own: where it raises, because a snapshot or an apply
-- raises or an apply returns `False`, the runtime that `view` shows is the one from before the call.
-- This supposes that each plugin's rollback undoes its apply when it runs right after it, and that
-- taking a snapshot and writing to the log leave the runtime as it is.
pub apply_enabled_atomic :
    {W P S F V : Type 0} (hooks : Hooks W P S F) (view : W → V)
    → Restorable hooks view
    → (plugins : List P) (w : W) (exc : Exception) → (apply_enabled hooks plugins w).0 ≡ err exc
    → view (apply_enabled hooks plugins w).1 ≡ view w
unfolding apply_enabled run_actions
apply_enabled_atomic {W} {P} {S} {F} {V} hooks view restorable plugins w exc h =
    ended
      (apply_all hooks plugins (with_actions hooks view restorable (view w) "snapshot" 0 []) [] w)
      (apply_all-Ends hooks view restorable (view w) plugins "snapshot" 0 [] [] w
        (record { falls = tt; above = tt; undoes = λ fs v same. same }))
      h
  where
    ended :
        (x : Result (List (P × S)) × W)
        → Ends view (view w) (λ result v. Unit {0}) x
        → x.0 ≡ err exc
        → view x.1 ≡ view w
    ended (ok a, v) e h' = cc
    ended (err e', v) e h' = e
