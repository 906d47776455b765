-- ===== src/Reconciliation.antt =====
-- hydra/services/reconciliation.py: what is done about plugins that do not run as the state wants.
pub mod Report
mod Tests
use hydra_ultimate.Base.{
  ℕ, suc, ◌+◌, String, ◌≡◌, refl, Bool, true, false, not, ◌&&◌, ◌||◌, Option, none, some, List, [],
  ◌∷◌, ◌++◌, arith, str_eq, if◌then◌else◌, concat, any, length, keep, Result, ok, err, Exec,
  Exception, message, class_name, try_except, pure, ◌>>=◌, is_some,
}
use hydra_ultimate.Base.Dict.{Dict, insert, keys}
use hydra_ultimate.State.{AppState, User, user_can_use}
use hydra_ultimate.Plugins.{PluginMeta, transport, same_category, uses_central_apply}
use hydra_ultimate.Plugins.Executor.{Health}

pub record ReconcileAction : Type 0 where
  pub plugin : String
  pub drift : String
  pub operation : Option String
  pub reason : String

pub record ReconcileReport : Type 0 where
  pub planned : List ReconcileAction
  pub applied : List String
  pub failed : Dict String

abbrev action : String → String → Option String → String → List ReconcileAction
action name drift operation reason =
    record { plugin = name; drift = drift; operation = operation; reason = reason } ∷ []

-- One round of the loop of `plan`, for a plugin and its `drift`
unfoldable pub plan_one : String → String → List ReconcileAction
plan_one name drift =
    if str_eq drift "stopped"
    then action name drift (some "enable") "сервис должен работать"
    else if str_eq drift "unexpectedly_running"
    then action name drift (some "disable") "сервис выключен в настройках"
    else if str_eq drift "missing"
    then action name drift none "требуется установка зависимостей"
    else if str_eq drift "unknown"
    then action name drift none "фактическое состояние неизвестно"
    else []

-- `plan`, over the plugins and their drifts
unfoldable pub plan : Dict String → List ReconcileAction
unfolding plan_one
plan [] = []
plan ((name, drift) ∷ rest) = plan_one name drift ++ plan rest

module _ {W : Type 0} (call : String → String → Exec W Bool) where
  abbrev pub reason_of : Exception → String
  reason_of exc = if str_eq (message exc) "" then class_name exc else message exc

  -- `report.applied.append(…)` or `report.failed[…] = …`
  abbrev pub settled : String → Result Bool → ReconcileReport → ReconcileReport
  settled name (ok true) report = record report { applied = report.applied ++ name ∷ [] }
  settled name (ok false) report = record report {
    failed = insert name "операция не выполнена" report.failed;
  }
  settled name (err exc) report = record report {
    failed = insert name (reason_of exc) report.failed;
  }

  abbrev pub carried : ReconcileAction → Option String → ReconcileReport × W → ReconcileReport × W
  carried a none acc = acc
  carried a (some operation) (report, w) =
      let (result, w') = call operation a.plugin w in (settled a.plugin result report, w')

  -- The loop of `apply`, where `call` is `getattr(self.operations, operation)(state, plugin)`
  unfoldable pub apply_actions : List ReconcileAction → ReconcileReport × W → ReconcileReport × W
  apply_actions [] acc = acc
  apply_actions (a ∷ rest) acc = apply_actions rest (carried a a.operation acc)

  unfoldable pub apply : Dict String → W → ReconcileReport × W
  unfolding plan apply_actions
  apply statuses w =
      let planned = plan statuses in
      apply_actions planned (record { planned = planned; applied = []; failed = [] }, w)
