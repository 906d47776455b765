-- ===== src/Lifecycle/Setup/Readings.antt =====
-- What `prepare_enabled` of hydra/services/protocol_setup.py leaves as it is: everything of a protocol but
-- its configuration.
use mathlib.Core.Path.{fun_ext, subst}
use hydra_ultimate.Base.{
  String, ◌≡◌, refl, sym, ap, ◌∙◌, Bool, true, false, ◌&&◌, Option, none, some, List, [], ◌∷◌,
  eq_iff, str_eq, if◌then◌else◌, if_cases, Bool-cases, or_default, inl, inr, is_some, Result, ok,
  err, Exec, pure, lift, ◌>>=◌, ◌>>◌, sorted,
}
use hydra_ultimate.Base.Dict.{Dict, lookup, lookup-insert}
use hydra_ultimate.Base.Value.{Value}
use hydra_ultimate.State.{PluginState, default_protocol}
use hydra_ultimate.Users.Memory.{World}
use hydra_ultimate.Lifecycle.Restore.{seen}
use hydra_ultimate.Lifecycle.Setup.{
  Capabilities, Provider, add_certificate, apply_additional_certificates, by_name, certified,
  certify, configured, domain_for, is_nothing, normalize_protocol_config, normalize_required_domain,
  obtain, prepare_all, prepare_domain, prepare_enable, prepare_enabled, prepare_found,
  prepare_source, prepare_with, put_entry, required_domain, with_domain, write_config,
}

-- A reading that does not look at the configuration of a protocol.
module _ {R : Type 0} (read : PluginState → R)
    (blind : (p : PluginState) (config : Dict Value)
      → read (record p { config = config }) ≡ read p) where
  reading : Option PluginState → R
  reading found = read (or_default found default_protocol)

  put_entry-seen :
      (protocols : Dict PluginState) (name other : String) (f : Dict Value → Dict Value)
      (found : Option PluginState)
      → lookup name protocols ≡ found
      → seen read (put_entry protocols name f found) other ≡ seen read protocols other
  unfolding put_entry reading
  put_entry-seen protocols name other f none e = refl
  put_entry-seen protocols name other f (some p) e =
      let written : PluginState = record p { config = f p.config } in
      ap reading (lookup-insert name other written protocols)
      ∙ elim (Bool-cases (str_eq name other)) [
        | inr apart ↦ rw apart refl
        | inl same ↦ rw same (
            blind p (f p.config)
            ∙ sym (
                ap reading
                  (subst (λ n. lookup n protocols ≡ some p) ((eq_iff name other).0 same) e)))
      ]

  configured-seen :
      (name : String) (f : Dict Value → Dict Value) (protocols : Dict PluginState)
      → seen read (configured name f protocols) ≡ seen read protocols
  unfolding configured put_entry
  configured-seen name f protocols =
      fun_ext (λ other. put_entry-seen protocols name other f (lookup name protocols) refl)

  module _ {H : Type 0} (provider : Provider H) where
    abbrev pub Keeps : {A : Type 0} → Exec (World H) A → Type 0
    Keeps m = (w : World H) → seen read (m w).1.state.protocols ≡ seen read w.state.protocols

    Keeps-bind :
        {A B : Type 0} (m : Exec (World H) A) (f : A → Exec (World H) B)
        → Keeps m
        → ((a : A) → Keeps (f a))
        → Keeps (m >>= f)
    Keeps-bind {A} {B} m f h k w = go (m w) (h w)
      where
        go :
            (x : Result A × World H)
            → seen read x.1.state.protocols ≡ seen read w.state.protocols
            → seen read
                (elim x.0 as (λ y. Result B × World H) [
                  | ok a ↦ f a x.1
                  | err e ↦ (err e, x.1)
                ]).1.state.protocols
              ≡ seen read w.state.protocols
        go (ok a, v) e = k a v ∙ e
        go (err exc, v) e = e

    Keeps-write :
        (name : String) (f : Dict Value → Dict Value) → Keeps (write_config provider name f)
    unfolding write_config configured
    Keeps-write name f w = configured-seen name f w.state.protocols

    obtain-Keeps :
        (cert_key key_key name normalized : String)
        → Keeps (obtain provider cert_key key_key name normalized)
    unfolding certify
    obtain-Keeps cert_key key_key name normalized =
        Keeps-bind (certify provider normalized name)
          (λ pair. write_config provider name (certified provider cert_key key_key normalized pair))
          (λ w. refl)
          (λ pair. Keeps-write name (certified provider cert_key key_key normalized pair))

    apply_additional_certificates-Keeps :
        (rest : List (String × (String × String))) (name : String)
        → Keeps (apply_additional_certificates provider rest name)
    unfolding apply_additional_certificates
    apply_additional_certificates-Keeps [] name = λ w. refl
    apply_additional_certificates-Keeps ((domain, (cert_key, key_key)) ∷ rest) name =
        Keeps-bind (add_certificate provider name domain cert_key key_key)
          (λ _. apply_additional_certificates provider rest name)
          (Keeps-bind (lift (normalize_required_domain domain))
            (obtain provider cert_key key_key name) (λ w. refl)
            (obtain-Keeps cert_key key_key name))
          (λ _. apply_additional_certificates-Keeps rest name)

    prepare_domain-Keeps : (source name : String) → Keeps (prepare_domain provider source name)
    unfolding prepare_domain
    prepare_domain-Keeps source name w =
        Keeps-bind
          (lift (
            required_domain provider name
              (normalize_required_domain (domain_for provider source name w))))
          (λ normalized.
            obtain provider "cert_file" "key_file" name normalized
            >> write_config provider name
                (with_domain provider (str_eq source "protocol") normalized))
          (λ v. refl)
          (λ normalized.
            Keeps-bind (obtain provider "cert_file" "key_file" name normalized)
              (λ _.
                write_config provider name
                  (with_domain provider (str_eq source "protocol") normalized))
              (obtain-Keeps "cert_file" "key_file" name normalized)
              (λ _. Keeps-write name (with_domain provider (str_eq source "protocol") normalized)))
          w

    prepare_source-Keeps :
        (c : Capabilities H) (source name : String) → Keeps (prepare_source provider c source name)
    prepare_source-Keeps c source name w =
        if_cases
          (λ (x : Result (Unit {0}) × World H).
            seen read x.1.state.protocols ≡ seen read w.state.protocols)
          (str_eq source "") _ _
          (λ none. apply_additional_certificates-Keeps (c.certificate_requirements w) name w)
          (λ needed. prepare_domain-Keeps source name w)

    Keeps-if :
        {A : Type 0} (c : Bool) (m n : Exec (World H) A)
        → Keeps m
        → Keeps n
        → Keeps (if c then m else n)
    Keeps-if true m n h k = h
    Keeps-if false m n h k = k

    prepare_found-Keeps :
        (name : String) (found : Option (Option (Capabilities H)))
        → Keeps (prepare_found provider name found)
    unfolding prepare_found
    prepare_found-Keeps name none = λ w. refl
    prepare_found-Keeps name (some none) = λ w. refl
    prepare_found-Keeps name (some (some capabilities)) =
        Keeps-if
          (str_eq capabilities.tls_domain_source ""
            && is_nothing provider capabilities.config_defaults)
          (pure tt) (prepare_with provider capabilities name) (λ w. refl)
          (with_capabilities capabilities)
      where
        with_capabilities : (c : Capabilities H) → Keeps (prepare_with provider c name)
        with_capabilities c w =
            let source = if c.needs_tls_domain w then c.tls_domain_source else "" in
            if_cases
              (λ (x : Result (Unit {0}) × World H).
                seen read x.1.state.protocols ≡ seen read w.state.protocols)
              (is_some (lookup name w.state.protocols)) _ _
              (λ present.
                Keeps-bind
                  (write_config provider name
                    (λ config. normalize_protocol_config config c.config_defaults))
                  (λ _. prepare_source provider c source name)
                  (Keeps-write name (λ config. normalize_protocol_config config c.config_defaults))
                  (λ _. prepare_source-Keeps c source name) w)
              (λ missing. refl)

    prepare_all-Keeps : (items : Dict PluginState) → Keeps (prepare_all provider items)
    unfolding prepare_all prepare_enable
    prepare_all-Keeps [] = λ w. refl
    prepare_all-Keeps ((name, protocol) ∷ rest) =
        Keeps-bind
          (if protocol.enabled && is_some (provider.get_plugin name)
            then prepare_enable provider name
            else pure tt)
          (λ _. prepare_all provider rest)
          (Keeps-if (protocol.enabled && is_some (provider.get_plugin name))
            (prepare_enable provider name) (pure tt)
            (prepare_found-Keeps name (provider.get_plugin name)) (λ w. refl))
          (λ _. prepare_all-Keeps rest)

    -- Whatever is completed, a reading that does not look at the configurations stays, also where a
    -- certificate is refused halfway.
    pub prepare_enabled-Keeps : Keeps (prepare_enabled provider)
    unfolding prepare_enabled
    prepare_enabled-Keeps w = prepare_all-Keeps (sorted (by_name provider) w.state.protocols) w
