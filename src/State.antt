-- ===== src/State.antt =====
-- hydra/core/state_models.py: the application state and the operations on its users and protocols.
pub mod Laws
mod Tests
use hydra_ultimate.Base.{
  ℕ, String, Bool, true, false, not, ◌&&◌, Option, none, some, List, [], ◌∷◌, ◌++◌, str_eq,
  if◌then◌else◌, concat, contains, find, Result, ok, err, value_error,
}
use hydra_ultimate.Base.Dict.{Dict, lookup, insert}
use hydra_ultimate.Base.Value.{Value}

pub record PluginState : Type 0 where
  pub enabled : Bool
  pub port : ℕ
  pub installed : Bool
  pub config : Dict Value

-- `traffic_limit_gb` is a float: `num` / 2 ^ `shift`.
pub record Gigabytes : Type 0 where
  pub num : ℕ
  pub shift : ℕ

pub record User : Type 0 where
  pub email : String
  pub uuid : String
  pub traffic_limit_gb : Gigabytes
  pub traffic_used_bytes : ℕ
  pub expiry_date : String
  pub blocked : Bool
  pub created_at : String
  pub telegram_id : Option ℕ
  pub credentials : Dict (Dict Value)
  pub device_limit : ℕ
  pub devices : Dict (Dict String)
  pub hydrabox_jwe_key : String
  pub configuration_name_overrides : Dict String
  pub disabled_protocols : List String

pub record NetworkConfig : Type 0 where
  pub domain : String
  pub sub_domain : String
  pub server_ip : String
  pub dns_servers : List String
  pub dnscrypt_port : ℕ
  pub tproxy_enabled : Bool
  pub tproxy_port : ℕ
  pub clash_api_enabled : Bool
  pub clash_api_port : ℕ
  pub clash_api_secret : String

-- `U` is the type of the users: values in a copied or a loaded state, references to objects in one
-- that hooks share. The fields that the modelled code only copies are kept as documents.
pub record AppState (U : Type 0) : Type 0 where
  pub format_version : ℕ
  pub revision : ℕ
  pub install : Dict Value
  pub configuration_names : Dict String
  pub protocols : Dict PluginState
  pub users : List U
  pub telegram : Value
  pub network : NetworkConfig
  pub headless_creator : Value
  pub kernel : Value
  pub core_extensions : Dict Value
  pub feature_extensions : Dict Value

-- `PluginState()`
abbrev pub default_protocol : PluginState
default_protocol = record { enabled = false; port = 0; installed = false; config = [] }

abbrev create_protocol :
    {U : Type 0} → AppState U → String → Option PluginState → PluginState × AppState U
create_protocol state name (some protocol) = (protocol, state)
create_protocol state name none =
    (default_protocol, record state { protocols = insert name default_protocol state.protocols })

-- `get_protocol`: the entry, and the state with the entry created if it was missing.
unfoldable pub get_protocol : {U : Type 0} → AppState U → String → PluginState × AppState U
get_protocol state name = create_protocol state name (lookup name state.protocols)

-- `state.protocols[name] = protocol`
abbrev pub put_protocol : {U : Type 0} → String → PluginState → AppState U → AppState U
put_protocol name protocol state = record state { protocols = insert name protocol state.protocols }

-- `protocol = state.protocols.get(name)`, `protocol and protocol.enabled`
unfoldable pub protocol_enabled : {U : Type 0} → AppState U → String → Bool
protocol_enabled state name = elim (lookup name state.protocols) [
  | none ↦ false
  | some protocol ↦ protocol.enabled
]

unfoldable pub user_can_use : User → String → Bool
user_can_use user protocol = not user.blocked && not (contains protocol user.disabled_protocols)

-- What `find_user` and `add_user` read of a user.
pub record UserView (U : Type 0) : Type 0 where
  pub email : U → String
  pub uuid : U → String

module _ {U : Type 0} (view : UserView U) where
  unfoldable pub find_user : List U → String → Option U
  find_user users email = find (λ user. str_eq (view.email user) email) users

  -- `state.users[state.users.index(existing)] = user`, where `existing` is the first user with the
  -- e-mail of `user`, and so the first that equals itself.
  unfoldable pub replace_user : U → List U → List U
  replace_user user [] = []
  replace_user user (other ∷ rest) =
      if str_eq (view.email other) (view.email user)
      then user ∷ rest
      else other ∷ replace_user user rest

  unfoldable pub duplicate_uuid : U → List U → Option U
  duplicate_uuid user users =
      find
        (λ other.
          str_eq (view.uuid other) (view.uuid user)
          && not (str_eq (view.email other) (view.email user)))
        users

  unfoldable pub add_user : List U → U → Result (List U)
  unfolding find_user replace_user duplicate_uuid
  add_user users user = elim (duplicate_uuid user users) [
    | some other ↦
        err (value_error (concat ("UUID уже используется пользователем " ∷ view.email other ∷ [])))
    | none ↦ elim (find_user users (view.email user)) [
      | none ↦ ok (users ++ user ∷ [])
      | some existing ↦ ok (replace_user user users)
    ]
  ]

-- The users of a copied or a loaded state.
abbrev pub of_values : UserView User
of_values = record { email = λ user. user.email; uuid = λ user. user.uuid }
