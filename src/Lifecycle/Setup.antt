-- ===== src/Lifecycle/Setup.antt =====
-- hydra/services/protocol_setup.py (`prepare_enabled`): what every apply completes in the configurations
-- of the enabled protocols before it does anything else.
pub mod Certificates
pub mod Completed
pub mod Readings
use mathlib.Core.Path.{fun_ext, subst}
use hydra_ultimate.Base.{
  String, ◌≡◌, refl, sym, ap, ◌∙◌, Bool, true, false, ◌&&◌, ◌||◌, Option, none, some, List, [], ◌∷◌,
  eq_iff, str_eq, if◌then◌else◌, if_cases, Bool-cases, or_default, inl, inr, is_some, Result, ok,
  err, Exec, value_error, other_error, pure, raise, lift, ◌>>=◌, ◌>>◌, sorted, concat,
}
use hydra_ultimate.Base.Dict.{Dict, lookup, insert, has_key, lookup-insert}
use hydra_ultimate.Base.Value.{Value, truthy}
use hydra_ultimate.Base.Text.{has_space, text_leb}
use hydra_ultimate.State.{PluginState, default_protocol}
use hydra_ultimate.Routing.{normal_domain, get_or}
use hydra_ultimate.AntiDpi.Detector.{has_text}
use hydra_ultimate.Users.Memory.{World}
use hydra_ultimate.Lifecycle.Restore.{seen}

-- `PluginCapabilities` as far as it is read, and the two optional hooks with their defaults.
pub record Capabilities (H : Type 0) : Type 0 where
  pub tls_domain_source : String
  pub config_defaults : Dict Value
  pub needs_tls_domain : World H → Bool
  pub certificate_requirements : World H → List (String × (String × String))

-- The registry (a plugin may lack capabilities), the provider of certificates, and `str` on a value.
pub record Provider (H : Type 0) : Type 0 where
  pub get_plugin : String → Option (Option (Capabilities H))
  pub ensure : String → Dict Value → H → Result (String × String) × H
  pub str : Value → String

-- `normalize_protocol_config`
unfoldable pub normalize_protocol_config : Dict Value → Dict Value → Dict Value
unfolding lookup insert
normalize_protocol_config config [] = config
normalize_protocol_config config ((key, value) ∷ defaults) =
    normalize_protocol_config (if has_key key config then config else insert key value config)
      defaults

-- `normalize_required_domain`, of `str(value or "")`
unfoldable pub normalize_required_domain : String → Result String
unfolding normal_domain has_space has_text
normalize_required_domain text =
    let normalized = normal_domain text in
    if str_eq normalized "" || has_text "://" normalized || has_space normalized
    then err (value_error "Некорректный домен")
    else ok normalized

abbrev pub put_entry :
    Dict PluginState → String → (Dict Value → Dict Value) → Option PluginState → Dict PluginState
unfolding insert
put_entry protocols name f none = protocols
put_entry protocols name f (some p) = insert name (record p { config = f p.config }) protocols

-- A write to the configuration of a protocol.
abbrev pub configured : String → (Dict Value → Dict Value) → Dict PluginState → Dict PluginState
unfolding lookup insert
configured name f protocols = put_entry protocols name f (lookup name protocols)

module _ {H : Type 0} (provider : Provider H) where
  open provider use {get_plugin, ensure, str}

  abbrev pub write_config : String → (Dict Value → Dict Value) → Exec (World H) (Unit {0})
  unfolding lookup insert
  write_config name f w =
      let state = w.state in
      (ok tt, record w { state = record state { protocols = configured name f state.protocols } })

  abbrev pub config_in : Option PluginState → Dict Value
  config_in none = []
  config_in (some p) = p.config

  abbrev pub config_of : String → World H → Dict Value
  unfolding lookup
  config_of name w = config_in (lookup name w.state.protocols)

  -- `self.certificates.ensure(domain, protocol.config)`
  abbrev pub certify : String → String → Exec (World H) (String × String)
  unfolding lookup
  certify domain name w =
      let (result, host) = ensure domain (config_of name w) w.host in
      (result, record w { host = host })

  abbrev pub certified : String → String → String → String × String → Dict Value → Dict Value
  unfolding insert
  certified cert_key key_key domain (cert, key) config =
      insert key_key (Value.text key) (insert cert_key (Value.text cert) config)

  -- A certificate for a domain, entered in the configuration.
  abbrev pub obtain : String → String → String → String → Exec (World H) (Unit {0})
  obtain cert_key key_key name normalized = certify normalized name >>= λ pair.
      write_config name (certified cert_key key_key normalized pair)

  abbrev pub add_certificate : String → String → String → String → Exec (World H) (Unit {0})
  add_certificate name domain cert_key key_key =
      lift (normalize_required_domain domain) >>= λ normalized.
      obtain cert_key key_key name normalized

  -- `_apply_additional_certificates`
  unfoldable pub apply_additional_certificates :
      List (String × (String × String)) → String → Exec (World H) (Unit {0})
  unfolding normalize_required_domain lookup insert
  apply_additional_certificates [] name = pure tt
  apply_additional_certificates ((domain, (cert_key, key_key)) ∷ rest) name =
      add_certificate name domain cert_key key_key >> apply_additional_certificates rest name

  abbrev pub with_domain : Bool → String → Dict Value → Dict Value
  unfolding insert
  with_domain true domain config = insert "domain" (Value.text domain) config
  with_domain false domain config = config

  -- `str(value or "")`
  abbrev pub text_of : Value → String
  unfolding truthy
  text_of value = if truthy value then str value else ""

  abbrev pub domain_for : String → String → World H → String
  unfolding truthy lookup
  domain_for source name w =
      if str_eq source "network"
      then w.state.network.domain
      else text_of (get_or "domain" (Value.text "") (config_of name w))

  abbrev pub required_domain : String → Result String → Result String
  required_domain name (ok domain) = ok domain
  required_domain name (err exc) =
      err (value_error (concat ("Корректный домен обязателен для " ∷ name ∷ [])))

  -- With a certificate for the main domain.
  unfoldable pub prepare_domain : String → String → Exec (World H) (Unit {0})
  unfolding normalize_required_domain lookup insert truthy
  prepare_domain source name w =
      (lift (required_domain name (normalize_required_domain (domain_for source name w)))
          >>= λ normalized.
              (obtain "cert_file" "key_file" name normalized
                >> write_config name (with_domain (str_eq source "protocol") normalized)))
        w

  abbrev pub prepare_source : Capabilities H → String → String → Exec (World H) (Unit {0})
  prepare_source capabilities source name w =
      if str_eq source ""
      then apply_additional_certificates (capabilities.certificate_requirements w) name w
      else prepare_domain source name w

  unfoldable pub is_nothing : Dict Value → Bool
  is_nothing [] = true
  is_nothing (x ∷ d) = false

  unfoldable pub prepare_with : Capabilities H → String → Exec (World H) (Unit {0})
  unfolding lookup insert normalize_protocol_config apply_additional_certificates prepare_domain
  prepare_with capabilities name w =
      let declared = capabilities.tls_domain_source in
      let source = if capabilities.needs_tls_domain w then declared else "" in
      let prepared =
        (write_config name (λ config. normalize_protocol_config config capabilities.config_defaults)
            >> prepare_source capabilities source name)
          w in
      if is_some (lookup name w.state.protocols)
      then prepared
      else (err (value_error (concat ("Конфигурация " ∷ name ∷ " отсутствует" ∷ []))), w)

  unfoldable pub prepare_found :
      String → Option (Option (Capabilities H)) → Exec (World H) (Unit {0})
  unfolding prepare_with is_nothing
  prepare_found name none =
      raise (other_error "LookupError" (concat ("Неизвестный протокол: " ∷ name ∷ [])))
  prepare_found name (some none) = pure tt
  prepare_found name (some (some capabilities)) =
      if str_eq capabilities.tls_domain_source "" && is_nothing capabilities.config_defaults
      then pure tt
      else prepare_with capabilities name

  unfoldable pub prepare_enable : String → Exec (World H) (Unit {0})
  unfolding prepare_found
  prepare_enable name = prepare_found name (get_plugin name)

  -- The loop over the items as they are at its start.
  unfoldable pub prepare_all : Dict PluginState → Exec (World H) (Unit {0})
  unfolding prepare_enable
  prepare_all [] = pure tt
  prepare_all ((name, protocol) ∷ rest) =
      (if protocol.enabled && is_some (get_plugin name) then prepare_enable name else pure tt)
      >> prepare_all rest

  abbrev pub by_name : String × PluginState → String × PluginState → Bool
  unfolding text_leb
  by_name a b = text_leb a.0 b.0

  unfoldable pub prepare_enabled : Exec (World H) (Unit {0})
  unfolding prepare_all sorted text_leb
  prepare_enabled w = prepare_all (sorted by_name w.state.protocols) w
