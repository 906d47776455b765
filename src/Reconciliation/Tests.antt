-- ===== src/Reconciliation/Tests.antt =====
-- A reconciliation of three plugins, the first of which raises.
use hydra_ultimate.Base.{
  String, ◌≡◌, refl, Bool, true, List, [], ◌∷◌, All, str_eq, Result, ok, err, runtime_error,
  if◌then◌else◌, is_some,
}
use hydra_ultimate.Base.Dict.{Dict, insert}
use hydra_ultimate.Reconciliation.{plan, plan_one, apply, apply_actions}
use hydra_ultimate.Reconciliation.Report.{is_reported, apply_reports}

abbrev statuses : Dict String
statuses = ("naive", "stopped") ∷ ("warp", "missing") ∷ ("snell", "unexpectedly_running") ∷ []

abbrev call : String → String → List String → Result Bool × List String
call operation plugin w =
    if str_eq plugin "naive" then (err (runtime_error ""), w) else (ok true, operation ∷ plugin ∷ w)

reconciled :
    ((apply call statuses []).0.applied ≡ "snell" ∷ [])
    × ((apply call statuses []).0.failed ≡ ("naive", "RuntimeError") ∷ [])
    × ((apply call statuses []).1 ≡ "disable" ∷ "snell" ∷ [])
unfolding apply plan plan_one apply_actions insert
reconciled = (refl, refl, refl)

apply_reports_example :
    All
      (λ a. is_some a.operation ≡ true → is_reported a.plugin (apply call statuses []).0 ≡ true)
      (plan statuses)
apply_reports_example = apply_reports call statuses []
