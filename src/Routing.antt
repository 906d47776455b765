-- ===== src/Routing.antt =====
-- hydra/core/sni_router_planning.py: who owns the public ports and the names behind them.
pub mod Ownership
mod Tests
use Prim.Native.Char.{code}
use Prim.Native.String
use text.Mathlib.Text
use hydra_ultimate.Base.{
  ℕ, String, Bool, true, false, not, ◌&&◌, ◌||◌, Option, none, some, List, [], ◌∷◌, ◌++◌, str_eq,
  leb, ◌==◌, if◌then◌else◌, concat, length, ltb, any, Result, ok, err, Exception, value_error,
  and_then, is_some,
}
use hydra_ultimate.Base.Int.{ℤ, pos, negsuc, eqb_ℤ, ltb_ℤ, pos_part}
use hydra_ultimate.Base.Dict.{Dict, lookup, insert}
use hydra_ultimate.Base.Value.{Value, int_of, as_dict, as_text}
use hydra_ultimate.Base.Text.{strip, lower, has_space}
use hydra_ultimate.State.{AppState, PluginState}

-- What the modelled code reads of a backend.
pub record Backend : Type 0 where
  pub name : String
  pub domain : String
  pub port : ℕ
  pub cert_file : Value
  pub key_file : Value
  pub route_kind : String

abbrev pub value_or : Value → Option Value → Value
value_or default none = default
value_or default (some value) = value

-- `config.get(key, default)`
abbrev pub get_or : String → Value → Dict Value → Value
get_or key default config = value_or default (lookup key config)

abbrev says : String → Value → Bool
says text value = elim (as_text value) [ none ↦ false | some s ↦ str_eq s text ]

abbrev is_prospective : String → Option String → Bool
is_prospective name none = false
is_prospective name (some other) = str_eq other name

-- The test that `get_quic_owners` makes of one protocol.
abbrev claims : String → String → Option String → Option PluginState → Bool
claims name key prospective none = false
claims name key prospective (some p) =
    let mode = get_or key (Value.text "tcp") p.config in
    (p.enabled || is_prospective name prospective) && (says "quic" mode || says "both" mode)

abbrev pub claims_udp : {U : Type 0} → AppState U → String → String → Option String → Bool
claims_udp state name key prospective = claims name key prospective (lookup name state.protocols)

-- `get_quic_owners`
unfoldable pub get_quic_owners : {U : Type 0} → AppState U → Option String → List String
get_quic_owners state prospective =
    (if claims_udp state "naive" "network" prospective then "naive" ∷ [] else [])
    ++ (if claims_udp state "trusttunnel" "transport" prospective then "trusttunnel" ∷ [] else [])

abbrev joined : List String → String
joined [] = ""
joined (s ∷ []) = s
joined (s ∷ more ∷ rest) = concat (s ∷ ", " ∷ joined (more ∷ rest) ∷ [])

abbrev sole_owner : List String → Result (Option String)
sole_owner [] = ok none
sole_owner (owner ∷ []) = ok (some owner)
sole_owner (owner ∷ other ∷ rest) = err (
    value_error (
      concat (
        "UDP/443 одновременно запрошен несколькими QUIC-протоколами: "
        ∷ joined (owner ∷ other ∷ rest)
        ∷ [])))

-- `get_quic_owner`
unfoldable pub get_quic_owner : {U : Type 0} → AppState U → Option String → Result (Option String)
unfolding get_quic_owners
get_quic_owner state prospective = sole_owner (get_quic_owners state prospective)

-- `text.rstrip(".")`
unfoldable pub rstrip_dots : String → String
rstrip_dots String.[] = ""
rstrip_dots (String.◌∷◌ c s) =
    let rest = rstrip_dots s in if code c == 46 && str_eq rest "" then "" else String.◌∷◌ c rest

-- `str(…).strip().lower().rstrip(".")`
unfoldable pub normal_domain : String → String
unfolding rstrip_dots
normal_domain s = rstrip_dots (lower (strip s))

-- The loop of `_validate_unique_domains`, over the owners so far
unfoldable pub validate_from : List Backend → Dict String → Result (Unit {0})
unfolding normal_domain
validate_from [] owners = ok tt
validate_from (backend ∷ rest) owners =
    let domain = normal_domain backend.domain in
    let later = validate_from rest owners in
    let claimed = validate_from rest (insert domain backend.name owners) in
    if str_eq domain "" then later else elim (lookup domain owners) [
      | none ↦ claimed
      | some previous ↦ err (
          value_error (
            concat (
              "TLS domain " ∷ domain ∷ " is assigned to both " ∷ previous ∷ " and " ∷ backend.name
              ∷ [])))
    ]

unfoldable pub validate_unique_domains : List Backend → Result (Unit {0})
unfolding validate_from
validate_unique_domains backends = validate_from backends []

abbrev pub route_error : {A : Type 0} → String → String → Result A
route_error name detail =
    err (value_error (concat ("Invalid plugin-owned TLS route for " ∷ name ∷ ": " ∷ detail ∷ [])))

-- `isinstance(value, (int, float, str))` and not a `bool`, with `int(value)`
abbrev port_value : Value → Option ℤ
port_value Value.null = none
port_value (Value.bool b) = none
port_value (Value.dict fs) = none
port_value (Value.list xs) = none
port_value value = int_of value

abbrev pub occupies : ℕ → List ℕ → Bool
occupies port occupied = any (λ other. other == port) occupied

abbrev checked_port : String → String → List ℕ → Option ℤ → Result ℕ
checked_port name field occupied none =
    route_error name (concat (field ∷ " must be an integer port" ∷ []))
checked_port name field occupied (some (negsuc n)) =
    route_error name (concat (field ∷ " must be a private high port" ∷ []))
checked_port name field occupied (some (pos port)) =
    if not (leb 1024 port && leb port 65535) || port == 80 || port == 443
    then route_error name (concat (field ∷ " must be a private high port" ∷ []))
    else if occupies port occupied
    then route_error name (concat (field ∷ " conflicts with the port of another route" ∷ []))
    else ok port

-- `_route_port`. The text of a conflict leaves out the number of the port.
unfoldable pub route_port : String → Value → String → List ℕ → Result ℕ
unfolding int_of
route_port name value field occupied = checked_port name field occupied (port_value value)

abbrev has_dot : String → Bool
has_dot String.[] = false
has_dot (String.◌∷◌ c s) = code c == 46 || has_dot s

abbrev has_scheme : String → Bool
has_scheme String.[] = false
has_scheme (String.◌∷◌ c s) = Text.starts_with (String.◌∷◌ c s) "://" || has_scheme s

unfoldable pub is_sni : String → Bool
is_sni s = not (str_eq s "") && not (has_scheme s) && has_dot s && not (has_space s)

-- `str` is Python's `str` on a value of the configuration.
module _ (str : Value → String) where
  abbrev with_file : String → Dict Value → Value → String → Result Value
  with_file name config route_value config_key = elim (as_text route_value) [
    | none ↦ route_error name (concat (config_key ∷ " must name a config field" ∷ []))
    | some key ↦
        if str_eq key ""
        then route_error name (concat (config_key ∷ " must name a config field" ∷ []))
        else ok (get_or key (Value.text "") config)
  ]

  abbrev file_from : String → Dict Value → String → Value → Result Value
  file_from name config config_key Value.null = ok (Value.text "")
  file_from name config config_key value = with_file name config value config_key

  -- One of the two optional files: `route.get(config_key)` names the field that holds it.
  abbrev file_of : String → Dict Value → Dict Value → String → Result Value
  file_of name config route config_key =
      file_from name config config_key (get_or config_key Value.null route)

  abbrev made_of : String → String → ℕ → String → Result Value → Result Value → Result Backend
  made_of backend_name sni port kind (err exc) key = err exc
  made_of backend_name sni port kind (ok cert) (err exc) = err exc
  made_of backend_name sni port kind (ok cert) (ok file) = ok (record {
    name = backend_name;
    domain = sni;
    port = port;
    cert_file = cert;
    key_file = file;
    route_kind = kind;
  })

  abbrev sni_key_of : Dict Value → Option String
  sni_key_of route = as_text (get_or "sni_config" Value.null route)

  abbrev with_sni :
      String → Dict Value → Dict Value → String → String → ℕ → Option String → Result Backend
  with_sni name config route kind backend_name port none =
      route_error name "sni_config must name a config field"
  with_sni name config route kind backend_name port (some key) =
      let sni = normal_domain (str (get_or key (Value.text "") config)) in
      let made =
        made_of backend_name sni port kind (file_of name config route "cert_config")
          (file_of name config route "key_config") in
      if str_eq key ""
      then route_error name "sni_config must name a config field"
      else if is_sni sni
      then made
      else route_error name (concat (key ∷ " is not a valid SNI" ∷ []))

  abbrev of_route :
      String → Dict Value → List ℕ → String → String → Option (Dict Value) → Result Backend
  of_route name config occupied kind backend_name none =
      route_error name (concat ("kind must be " ∷ kind ∷ []))
  of_route name config occupied kind backend_name (some route) =
      let made =
        and_then
          (route_port name (get_or "internal_port" Value.null route) "internal_port" occupied)
          (λ port. with_sni name config route kind backend_name port (sni_key_of route)) in
      if says kind (get_or "kind" Value.null route)
      then made
      else route_error name (concat ("kind must be " ∷ kind ∷ []))

  -- `_plugin_route_backend`
  unfoldable pub plugin_route_backend :
      String → Dict Value → Value → List ℕ → String → String → Result Backend
  unfolding route_port is_sni normal_domain
  plugin_route_backend name config route occupied kind backend_name =
      of_route name config occupied kind backend_name (as_dict route)
