-- ===== src/Plugins/Executor.antt =====
-- hydra/plugins/executor.py: configuration, apply and health of the enabled plugins.
use hydra_ultimate.Base.{
  String, Bool, true, false, some, List, [], ◌∷◌, ◌++◌, str_eq, if◌then◌else◌, concat, length, err,
  Exec, Exception, runtime_error, other_error, message, pure, raise, lift, try_except, modify,
  ◌>>=◌, ◌>>◌,
}
use hydra_ultimate.Base.Int.{negsuc}
use hydra_ultimate.Base.Dict.{Dict, insert}
use hydra_ultimate.Transaction.{
  Outcome, flag, ApplyTransaction, new, advance, add_rollback, rollback, commit,
}
use hydra_ultimate.Base.{any, length, class_name, ◌==◌, not, ◌&&◌}
use hydra_ultimate.State.{User, user_can_use}
use hydra_ultimate.Plugins.{PluginMeta, transport, same_category, uses_central_apply}

pub record Health : Type 0 where
  pub healthy : Bool
  pub detail : String

-- The hooks of `PluginInvoker` on a world `W`, for plugins `P`, with snapshots `S` and fragments `F`.
pub record Hooks (W P S F : Type 0) : Type 0 where
  pub meta : P → PluginMeta
  pub configure : P → Exec W F
  pub validate_fragment : F → Exec W (Unit {0})
  pub is_empty : F → Bool
  pub snapshot : P → Exec W S
  pub apply : P → Exec W Bool
  pub roll_back : P → S → Exec W Bool
  pub health : P → Exec W Health
  pub failure_stage : P → W → String
  pub log_error : String → W → W

module _ {W P S F : Type 0} (hooks : Hooks W P S F) where
  open hooks use {
    meta, configure, validate_fragment, is_empty, snapshot, apply, roll_back, health, failure_stage,
    log_error,
  }

  abbrev named : P → String
  named plugin = (meta plugin).name

  abbrev configuration_failed : P → Exception → Exec W F
  configuration_failed plugin exc = do
    modify
        (log_error (concat ("Error configuring plugin " ∷ named plugin ∷ ": " ∷ message exc ∷ [])))
    raise (
        other_error "PluginConfigurationError"
          (concat ("Plugin " ∷ named plugin ∷ " configuration failed: " ∷ message exc ∷ [])))

  abbrev configured : P → Exec W F
  configured plugin =
      try_except (do fragment ← configure plugin; validate_fragment fragment; pure fragment)
        (configuration_failed plugin)

  -- `collect_fragments`, over `self.catalog.enabled(state)`
  unfoldable pub collect_fragments : List P → Dict F → Exec W (Dict F)
  collect_fragments [] fragments = pure fragments
  collect_fragments (plugin ∷ rest) fragments = do
    fragment ← configured plugin
    collect_fragments rest
        (if is_empty fragment then fragments else insert (named plugin) fragment fragments)

  abbrev pub apply_failed : P → Exception → Exception
  apply_failed plugin exc =
      runtime_error (concat ("Plugin " ∷ named plugin ∷ " apply failed: " ∷ message exc ∷ []))

  -- `apply_failure_message`
  unfoldable pub apply_failure_message : P → W → String
  apply_failure_message plugin w =
      let text = concat ("Plugin " ∷ named plugin ∷ " apply returned false" ∷ []) in
      let detail = failure_stage plugin w in
      if str_eq detail "" then text else concat (text ∷ ": " ∷ detail ∷ [])

  -- `transaction.rollback(log_error)` and then `raise`, where the exception is made after the rollback.
  unfoldable pub unwind : {A : Type 0} → ApplyTransaction W → (W → Exception) → Exec W A
  unwind tx exc w = let w' = (rollback (some log_error) tx w).2 in (err (exc w'), w')

  -- `rollback_plugin`
  abbrev pub undo : P → S → Exec W Outcome
  undo plugin taken = do done ← roll_back plugin taken; pure (flag done)

  abbrev pub title : P → String
  title plugin = concat ("plugin " ∷ named plugin ∷ [])

  -- The call of `apply`: it raises, it returns `False`, or it succeeds.
  unfoldable pub apply_checked : P → ApplyTransaction W → Exec W (Unit {0})
  unfolding unwind apply_failure_message
  apply_checked plugin tx = do
    applied ← try_except (apply plugin) (λ exc. unwind tx (λ _. apply_failed plugin exc))
    if applied then pure tt else unwind tx (λ w. runtime_error (apply_failure_message plugin w))

  -- One round of `apply_enabled` for a plugin that is applied centrally.
  unfoldable pub apply_one :
      P → ApplyTransaction W → List (P × S) → Exec W (ApplyTransaction W × List (P × S))
  unfolding add_rollback advance apply_checked
  apply_one plugin tx applied = do
    taken ← try_except (snapshot plugin) (λ exc. unwind tx (λ _. apply_failed plugin exc))
    tx' ← lift (add_rollback (title plugin) (undo plugin taken) (negsuc (length applied)) tx)
    tx'' ← lift (advance "apply" tx')
    apply_checked plugin tx''
    pure (tx'', applied ++ (plugin, taken) ∷ [])

  unfoldable pub apply_all : List P → ApplyTransaction W → List (P × S) → Exec W (List (P × S))
  unfolding apply_one commit
  apply_all [] tx applied = do done ← lift (commit tx); pure applied
  apply_all (plugin ∷ rest) tx applied = elim (uses_central_apply (meta plugin)) [
    | false ↦ apply_all rest tx applied
    | true ↦ apply_one plugin tx applied >>= λ next. apply_all rest next.0 next.1
  ]

  -- `apply_enabled`, over `self.catalog.enabled(state)`
  unfoldable pub apply_enabled : List P → Exec W (List (P × S))
  unfolding apply_all
  apply_enabled plugins = do tx ← lift (advance "snapshot" new); apply_all plugins tx []

  -- `except Exception as exc: …`
  abbrev pub unhealthy : Exception → Exec W Health
  unhealthy exc = pure (record {
    healthy = false;
    detail = if str_eq (message exc) "" then class_name exc else message exc;
  })

  abbrev pub explained : String → String → String
  explained name detail =
      if str_eq detail "service is not active"
      then concat (
          "service is not active while enabled in configuration; disable " ∷ name
          ∷ " in the TUI protocol menu" ∷ [])
      else if str_eq detail ""
      then "проверка не пройдена"
      else detail

  -- A transport that no user may use is not asked.
  abbrev pub is_unused : List User → PluginMeta → Bool
  is_unused users m =
      not (length users == 0)
      && same_category m.category transport
      && not (str_eq m.name "wdtt")
      && not (any (λ user. user_can_use user m.name) users)

  abbrev pub note_health : P → Health → Dict String → Dict String
  note_health plugin h failures =
      if h.healthy
      then failures
      else insert (named plugin) (explained (named plugin) h.detail) failures

  -- `health_all`, over `self.catalog.enabled(state)` and the state's users
  unfoldable pub health_all : List User → List P → Dict String → Exec W (Dict String)
  health_all users [] failures = pure failures
  health_all users (plugin ∷ rest) failures = do
    failures' ←
        (if uses_central_apply (meta plugin) && not (is_unused users (meta plugin))
          then (try_except (health plugin) unhealthy >>= λ h. pure (note_health plugin h failures))
          else pure failures)
    health_all users rest failures'
