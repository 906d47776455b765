-- ===== src/Plugins.antt =====
-- hydra/plugins/catalog.py and hydra/plugins/invoker.py: which plugins are chosen, and which users a
-- plugin is shown.
pub mod Executor
pub mod Ends
pub mod Unwind
pub mod Authorized
pub mod Healthy
mod Tests
use hydra_ultimate.Base.{
  ℕ, String, Bool, true, false, not, ◌&&◌, ◌||◌, Option, none, some, List, [], ◌∷◌, str_eq, ◌==◌,
  if◌then◌else◌, concat, find, keep, length, Result, ok, err, Exception, value_error,
}
use hydra_ultimate.Base.Dict.{lookup}
use hydra_ultimate.State.{AppState, User, PluginState, protocol_enabled, user_can_use}

pub data PluginCategory : Type 0 where
  transport enhancement security : PluginCategory

-- What the modelled code reads of `PluginMeta`. `central_apply` is `none` on a legacy plugin.
pub record PluginMeta : Type 0 where
  pub name : String
  pub category : PluginCategory
  pub central_apply : Option Bool

abbrev pub same_category : PluginCategory → PluginCategory → Bool
same_category transport transport = true
same_category enhancement enhancement = true
same_category security security = true
same_category _ _ = false

module _ {P : Type 0} (meta : P → PluginMeta) where
  -- `PluginCatalog.get`
  unfoldable pub get : List P → String → Option P
  get plugins name = find (λ p. str_eq (meta p).name name) plugins

  -- `PluginCatalog.category`
  unfoldable pub in_category : List P → PluginCategory → List P
  in_category plugins category = keep (λ p. same_category (meta p).category category) plugins

  abbrev pub pool : List P → Option PluginCategory → List P
  pool plugins none = plugins
  pool plugins (some category) = in_category plugins category

  -- `PluginCatalog.enabled`
  unfoldable pub enabled : {U : Type 0} → List P → AppState U → Option PluginCategory → List P
  unfolding in_category
  enabled plugins state category =
      keep (λ p. protocol_enabled state (meta p).name) (pool plugins category)

-- `uses_central_apply` of executor.py
unfoldable pub uses_central_apply : PluginMeta → Bool
uses_central_apply m = elim m.central_apply [
  | none ↦ not (str_eq m.name "wdtt")
  | some value ↦ value
]

abbrev pub shares_credentials : PluginMeta → Bool
shares_credentials m =
    not (same_category m.category transport) || str_eq m.name "wdtt" || str_eq m.name "snell"

abbrev pub with_values : List User → AppState User → AppState User
with_values users state = record state { users = users }

-- `PluginInvoker._authorized_state`
unfoldable pub authorized_state : PluginMeta → AppState User → AppState User
authorized_state m state =
    let users = keep (λ user. user_can_use user m.name) state.users in
    if shares_credentials m
    then state
    else if length users == length state.users
    then state
    else with_values users state

-- The guard of `configure` and `apply`: the calls plugin with nobody to serve is left alone.
unfoldable pub is_idle : PluginMeta → AppState User → Bool
is_idle m scoped = str_eq m.name "calls" && length scoped.users == 0

-- `PluginInvoker._can_issue`
unfoldable pub can_issue : PluginMeta → User → Bool
can_issue m user =
    not (same_category m.category transport) || str_eq m.name "wdtt" || user_can_use user m.name
