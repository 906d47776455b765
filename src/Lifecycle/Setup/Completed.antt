-- ===== src/Lifecycle/Setup/Completed.antt =====
-- What `prepare_enable` of hydra/services/protocol_setup.py enters in the configuration of a protocol.
use hydra_ultimate.Base.{
  String, ◌≡◌, refl, sym, ap, ◌∙◌, Bool, true, false, ◌&&◌, Option, none, some, [], ◌∷◌, arith,
  eq_iff, str_eq, if◌then◌else◌, ok,
}
use hydra_ultimate.Base.Dict.{Dict, lookup, insert, has_key, lookup-insert}
use hydra_ultimate.Base.Value.{Value}
use hydra_ultimate.State.{PluginState}
use hydra_ultimate.Routing.{normal_domain, value_or}
use hydra_ultimate.Users.Memory.{World}
use hydra_ultimate.Lifecycle.Setup.{
  Capabilities, Provider, normalize_protocol_config, write_config, certified, with_domain,
  domain_for, prepare_domain, prepare_with, prepare_found, prepare_enable, config_in, text_of,
}
use hydra_ultimate.Lifecycle.Setup.Certificates.{
  normalize_required_domain-Ok, At, write_config-At, prepare_domain-Obtained,
}

abbrev pub first : Option Value → Option Value → Option Value
first (some value) other = some value
first none other = other

-- A value of the configuration stays, and of the defaults for a key the first one counts.
normalize_protocol_config-lookup :
    (key : String) (config defaults : Dict Value)
    → lookup key (normalize_protocol_config config defaults)
      ≡ first (lookup key config) (lookup key defaults)
unfolding normalize_protocol_config
normalize_protocol_config-lookup key config [] = first-none (lookup key config)
  where
    first-none : (found : Option Value) → found ≡ first found none
    first-none none = refl
    first-none (some value) = refl
normalize_protocol_config-lookup key config ((k, value) ∷ defaults) =
    normalize_protocol_config-lookup key
      (if has_key k config then config else insert k value config) defaults
    ∙ ground (arith, lookup-insert k key value config, eq_iff k key)

module _ {H : Type 0} (provider : Provider H) where
  -- A configuration that an enabled protocol has after its preparation, key by key.
  abbrev pub completed_at :
      Bool → String → String × String → Dict Value → Dict Value → String → Option Value
  completed_at own domain (cert, key_path) config defaults key =
      if own && str_eq "domain" key
      then some (Value.text domain)
      else if str_eq "key_file" key
      then some (Value.text key_path)
      else if str_eq "cert_file" key
      then some (Value.text cert)
      else first (lookup key config) (lookup key defaults)

  certified-lookup :
      (domain cert key_path : String) (config defaults : Dict Value) (key : String)
      → lookup key (
          certified provider "cert_file" "key_file" domain
            (cert, key_path)
            (normalize_protocol_config config defaults))
        ≡ completed_at false domain (cert, key_path) config defaults key
  unfolding certified
  certified-lookup domain cert key_path config defaults key =
      lookup-insert "key_file" key (Value.text key_path) _
      ∙ ap (λ (r : Option Value). if str_eq "key_file" key then some (Value.text key_path) else r)
          (lookup-insert "cert_file" key (Value.text cert) _
            ∙ ap
                (λ (r : Option Value). if str_eq "cert_file" key then some (Value.text cert) else r)
                (normalize_protocol_config-lookup key config defaults))

  completed-lookup :
      (own : Bool) (domain : String) (pair : String × String) (config defaults : Dict Value)
      (key : String)
      → lookup key (
          with_domain provider own domain (
            certified provider "cert_file" "key_file" domain pair
              (normalize_protocol_config config defaults)))
        ≡ completed_at own domain pair config defaults key
  unfolding with_domain certified
  completed-lookup false domain (cert, key_path) config defaults key =
      certified-lookup domain cert key_path config defaults key
  completed-lookup true domain (cert, key_path) config defaults key =
      lookup-insert "domain" key (Value.text domain) _
      ∙ ap (λ (r : Option Value). if str_eq "domain" key then some (Value.text domain) else r)
          (certified-lookup domain cert key_path config defaults key)

  -- The domain that a certificate is asked for.
  abbrev pub asked_domain : Capabilities H → World H → PluginState → String
  asked_domain c w p =
      if str_eq c.tls_domain_source "network"
      then w.state.network.domain
      else text_of provider (
          value_or (Value.text "")
            (first (lookup "domain" p.config) (lookup "domain" c.config_defaults)))

  -- The defaults are entered first.
  abbrev started : Capabilities H → String → World H → World H
  started c name w =
      (write_config provider name (λ config. normalize_protocol_config config c.config_defaults)
        w).1

  domain_for_lem :
      (c : Capabilities H) (name : String) (w : World H) (p : PluginState)
      → At name w p
      → domain_for provider c.tls_domain_source name (started c name w) ≡ asked_domain c w p
  unfolding domain_for write_config At
  domain_for_lem c name w p at =
      let from : Option Value → String = (λ found.
        if str_eq c.tls_domain_source "network"
        then w.state.network.domain
        else text_of provider (value_or (Value.text "") found)) in
      ap (λ found. from (lookup "domain" (config_in provider found)))
        (write_config-At provider name
          (λ config. normalize_protocol_config config c.config_defaults) w p at)
      ∙ ap from (normalize_protocol_config-lookup "domain" p.config c.config_defaults)

  prepare_enable-started :
      (c : Capabilities H) (name : String) (w : World H) (p : PluginState)
      → provider.get_plugin name ≡ some (some c)
      → lookup name w.state.protocols ≡ some p
      → str_eq c.tls_domain_source "" ≡ false
      → c.needs_tls_domain w ≡ true
      → prepare_enable provider name w
        ≡ prepare_domain provider c.tls_domain_source name (started c name w)
  unfolding prepare_enable prepare_found prepare_with
  prepare_enable-started c name w p found at used needed = rw (found, used, at, needed, used) refl

  -- The preparation of a plugin with a certificate, where it succeeds: the provider is asked for the
  -- domain of the network or of the protocol, which is not empty, with its case, the white space around
  -- it and final dots removed; and in the configuration every key reads as before, or as in the defaults
  -- if it was missing, but for the paths of the certificate and of its key, which are the answer of the
  -- provider, and for the domain of a protocol with a domain of its own.
  pub prepare_enable_lem :
      (c : Capabilities H) (name : String) (w : World H) (p : PluginState)
      → provider.get_plugin name ≡ some (some c)
      → lookup name w.state.protocols ≡ some p
      → str_eq c.tls_domain_source "" ≡ false
      → c.needs_tls_domain w ≡ true
      → (prepare_enable provider name w).0 ≡ ok tt
      → (domain : String) × (pair : String × String) × (q : PluginState) × (domain
          ≡ normal_domain (asked_domain c w p))
        × (str_eq domain "" ≡ false)
        × ((provider.ensure domain (normalize_protocol_config p.config c.config_defaults) w.host).0
            ≡ ok pair)
        × (lookup name (prepare_enable provider name w).1.state.protocols ≡ some q)
        × ((key : String)
            → lookup key q.config
              ≡ completed_at
                  (str_eq c.tls_domain_source "protocol")
                  domain
                  pair
                  p.config
                  c.config_defaults
                  key)
  unfolding At write_config
  prepare_enable_lem c name w p found at used needed e =
      let source = c.tls_domain_source in
      let config = normalize_protocol_config p.config c.config_defaults in
      let same = prepare_enable-started c name w p found at used needed in
      let (domain, pair, named, answered, entered) =
        prepare_domain-Obtained provider source name (started c name w)
          (record p { config = config })
          (write_config-At provider name
            (λ config. normalize_protocol_config config c.config_defaults) w p at)
          (ap (λ x. x.0) (sym same) ∙ e) in
      let (normal, present) = normalize_required_domain-Ok _ domain named in
      (
        domain,
        pair,
        record p {
          config =
              with_domain provider (str_eq source "protocol") domain
                (certified provider "cert_file" "key_file" domain pair config);
        },
        normal ∙ ap normal_domain (domain_for_lem c name w p at),
        present,
        answered,
        ap (λ x. lookup name x.1.state.protocols) same ∙ entered,
        completed-lookup (str_eq source "protocol") domain pair p.config c.config_defaults,
      )
