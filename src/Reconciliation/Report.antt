-- ===== src/Reconciliation/Report.antt =====
-- The report of a reconciliation says what became of each action.
use hydra_ultimate.Base.{
  String, ◌≡◌, refl, Bool, true, false, ◌||◌, Option, none, some, List, [], ◌∷◌, ◌++◌, arith, All,
  eq_refl, contains, Result, ok, err, Exec, is_some,
}
use hydra_ultimate.Base.Dict.{Dict, insert, has_key, lookup-insert}
use hydra_ultimate.Reconciliation.{
  reason_of, ReconcileAction, ReconcileReport, plan, settled, carried, apply_actions, apply,
}

-- The report names the plugin as applied or as failed.
abbrev pub is_reported : String → ReconcileReport → Bool
is_reported name report = contains name report.applied || has_key name report.failed

contains_last :
    (name n : String) (xs : List String)
    → contains name xs ≡ true
    → contains name (xs ++ n ∷ []) ≡ true
contains_last name n [] h = absurd (ground arith)
contains_last name n (x ∷ xs) h = ground (arith, contains_last name n xs)

last_contained : (n : String) (xs : List String) → contains n (xs ++ n ∷ []) ≡ true
last_contained n [] = rw (eq_refl n) refl
last_contained n (x ∷ xs) = ground (arith, last_contained n xs)

insert_keeps :
    {V : Type 0} (name n : String) (v : V) (d : Dict V)
    → has_key name d ≡ true
    → has_key name (insert n v d) ≡ true
insert_keeps name n v d h = ground (arith, lookup-insert n name v d)

inserted : {V : Type 0} (n : String) (v : V) (d : Dict V) → has_key n (insert n v d) ≡ true
inserted n v d = ground (arith, lookup-insert n n v d, eq_refl n)

module _ {W : Type 0} (call : String → String → Exec W Bool) where
  settled_keeps :
      (name n : String) (result : Result Bool) (report : ReconcileReport)
      → is_reported name report ≡ true
      → is_reported name (settled call n result report) ≡ true
  settled_keeps name n (ok true) report h = ground (arith, contains_last name n report.applied)
  settled_keeps name n (ok false) report h =
      ground (arith, insert_keeps name n "операция не выполнена" report.failed)
  settled_keeps name n (err exc) report h =
      ground (arith, insert_keeps name n (reason_of call exc) report.failed)

  settled_reports :
      (n : String) (result : Result Bool) (report : ReconcileReport)
      → is_reported n (settled call n result report) ≡ true
  settled_reports n (ok true) report = ground (arith, last_contained n report.applied)
  settled_reports n (ok false) report =
      ground (arith, inserted n "операция не выполнена" report.failed)
  settled_reports n (err exc) report = ground (arith, inserted n (reason_of call exc) report.failed)

  carried_keeps :
      (name : String) (a : ReconcileAction) (operation : Option String) (acc : ReconcileReport × W)
      → is_reported name acc.0 ≡ true
      → is_reported name (carried call a operation acc).0 ≡ true
  carried_keeps name a none acc h = h
  carried_keeps name a (some operation) (report, w) h =
      settled_keeps name a.plugin (call operation a.plugin w).0 report h

  apply_actions_keeps :
      (name : String) (actions : List ReconcileAction) (acc : ReconcileReport × W)
      → is_reported name acc.0 ≡ true
      → is_reported name (apply_actions call actions acc).0 ≡ true
  unfolding apply_actions
  apply_actions_keeps name [] acc h = h
  apply_actions_keeps name (a ∷ rest) acc h =
      apply_actions_keeps name rest (carried call a a.operation acc)
        (carried_keeps name a a.operation acc h)

  carried_reports :
      (a : ReconcileAction) (operation : Option String) (acc : ReconcileReport × W)
      → is_some operation ≡ true
      → is_reported a.plugin (carried call a operation acc).0 ≡ true
  carried_reports a none acc h = cc
  carried_reports a (some operation) (report, w) h =
      settled_reports a.plugin (call operation a.plugin w).0 report

  actions_reported :
      (actions : List ReconcileAction) (acc : ReconcileReport × W)
      → All
          (λ a.
            is_some a.operation ≡ true
            → is_reported a.plugin (apply_actions call actions acc).0 ≡ true)
          actions
  unfolding apply_actions
  actions_reported [] acc = tt
  actions_reported (a ∷ rest) acc =
      let acc' = carried call a a.operation acc in
      (
        λ h. apply_actions_keeps a.plugin rest acc' (carried_reports a a.operation acc h),
        actions_reported rest acc',
      )

  -- Each planned action that has an operation ends in the report, as applied or as failed, also where
  -- an operation before it returns `False` or raises.
  pub apply_reports :
      (statuses : Dict String) (w : W)
      → All
          (λ a. is_some a.operation ≡ true → is_reported a.plugin (apply call statuses w).0 ≡ true)
          (plan statuses)
  unfolding apply
  apply_reports statuses w =
      actions_reported (plan statuses)
        (record { planned = plan statuses; applied = []; failed = [] }, w)
