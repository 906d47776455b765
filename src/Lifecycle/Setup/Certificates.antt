-- ===== src/Lifecycle/Setup/Certificates.antt =====
-- How `prepare_enable` of hydra/services/protocol_setup.py obtains the certificate of a protocol.
use mathlib.Core.Path.{subst}
use hydra_ultimate.Base.{
  String, ◌≡◌, refl, sym, ap, ◌∙◌, false, ◌||◌, some, arith, eq_refl, str_eq, if_cases, Result, ok,
  err, Exec, lift, ◌>>=◌, ◌>>◌,
}
use hydra_ultimate.Base.Dict.{Dict, lookup, lookup-insert}
use hydra_ultimate.Base.Value.{Value}
use hydra_ultimate.State.{PluginState}
use hydra_ultimate.Base.Text.{has_space}
use hydra_ultimate.AntiDpi.Detector.{has_text}
use hydra_ultimate.Routing.{normal_domain}
use hydra_ultimate.Users.Memory.{World}
use hydra_ultimate.Lifecycle.Setup.{
  Provider, normalize_required_domain, configured, put_entry, write_config, certify, certified,
  obtain, with_domain, domain_for, required_domain, prepare_domain, config_in,
}

bind-Ok :
    {W A B : Type 0} (m : Exec W A) (f : A → Exec W B) (w : W) (b : B)
    → ((m >>= f) w).0 ≡ ok b
    → (a : A) × ((m w).0 ≡ ok a) × ((m >>= f) w ≡ f a (m w).1)
bind-Ok {W} {A} {B} m f w b = go (m w)
  where
    go :
        (x : Result A × W)
        → (elim x.0 as (λ y. Result B × W) [ ok a ↦ f a x.1 | err e ↦ (err e, x.1) ]).0 ≡ ok b
        → (a : A) × (x.0 ≡ ok a)
          × ((elim x.0 as (λ y. Result B × W) [ ok a ↦ f a x.1 | err e ↦ (err e, x.1) ]) ≡ f a x.1)
    go (ok a, v) e = (a, refl, refl)
    go (err exc, v) e = cc

configured-lookup :
    (name : String) (f : Dict Value → Dict Value) (protocols : Dict PluginState) (p : PluginState)
    → lookup name protocols ≡ some p
    → lookup name (configured name f protocols) ≡ some (record p { config = f p.config })
unfolding configured put_entry
configured-lookup name f protocols p e =
    rw e (
      lookup-insert name name (record p { config = f p.config }) protocols ∙ rw (eq_refl name) refl)

pub normalize_required_domain-Ok :
    (text domain : String)
    → normalize_required_domain text ≡ ok domain
    → (domain ≡ normal_domain text) × (str_eq domain "" ≡ false)
unfolding normalize_required_domain
normalize_required_domain-Ok text domain =
    let n = normal_domain text in
    if_cases (λ (r : Result String). r ≡ ok domain → (domain ≡ n) × (str_eq domain "" ≡ false))
      (str_eq n "" || has_text "://" n || has_space n) _ _ (λ bad e. cc)
      (λ good e.
        let same : domain ≡ n = cc in
        (same, subst (λ d. str_eq d "" ≡ false) (sym same) (ground (arith, good))))

-- The entry of a protocol.
unfoldable pub At : {H : Type 0} → String → World H → PluginState → Type 0
At name w p = lookup name w.state.protocols ≡ some p

module _ {H : Type 0} (provider : Provider H) where
  pub write_config-At :
      (name : String) (f : Dict Value → Dict Value) (w : World H) (p : PluginState)
      → At name w p
      → At name (write_config provider name f w).1 (record p { config = f p.config })
  unfolding write_config At
  write_config-At name f w p e = configured-lookup name f w.state.protocols p e

  required_domain-Ok :
      (name : String) (r : Result String) (domain : String)
      → required_domain provider name r ≡ ok domain
      → r ≡ ok domain
  required_domain-Ok name (ok d) domain e = e
  required_domain-Ok name (err exc) domain e = cc

  certify-Ok :
      (domain name : String) (w : World H) (p : PluginState) (pair : String × String)
      → At name w p
      → (certify provider domain name w).0 ≡ ok pair
      → (provider.ensure domain p.config w.host).0 ≡ ok pair
  unfolding certify At
  certify-Ok domain name w p pair at e =
      subst (λ found. (provider.ensure domain (config_in provider found) w.host).0 ≡ ok pair) at e

  -- The entry after a certificate for a domain was obtained.
  abbrev pub Obtained : String → String → World H → PluginState → World H → Type 0
  Obtained source name w p after =
      (domain : String) × (pair : String × String) × (normalize_required_domain
          (domain_for provider source name w)
        ≡ ok domain)
      × ((provider.ensure domain p.config w.host).0 ≡ ok pair)
      × At name after (record p {
        config =
            with_domain provider (str_eq source "protocol") domain
              (certified provider "cert_file" "key_file" domain pair p.config);
      })

  obtain-At :
      (name domain : String) (w : World H) (p : PluginState)
      → At name w p
      → (obtain provider "cert_file" "key_file" name domain w).0 ≡ ok tt
      → (pair : String × String) × ((provider.ensure domain p.config w.host).0 ≡ ok pair)
        × At name
            (obtain provider "cert_file" "key_file" name domain w).1
            (record p { config = certified provider "cert_file" "key_file" domain pair p.config })
  unfolding certify At
  obtain-At name domain w p at e =
      let entering : String × String → Exec (World H) (Unit {0}) = (λ pair.
        write_config provider name (certified provider "cert_file" "key_file" domain pair)) in
      let (pair, answered, written) = bind-Ok (certify provider domain name) entering w tt e in
      (
        pair,
        certify-Ok domain name w p pair at answered,
        subst
            (λ (x : Result (Unit {0}) × World H). At name x.1 (record p {
              config = certified provider "cert_file" "key_file" domain pair p.config;
            }))
            (sym written)
            (write_config-At name (certified provider "cert_file" "key_file" domain pair)
              (certify provider domain name w).1 p at),
      )

  pub prepare_domain-Obtained :
      (source name : String) (w : World H) (p : PluginState)
      → At name w p
      → (prepare_domain provider source name w).0 ≡ ok tt
      → Obtained source name w p (prepare_domain provider source name w).1
  unfolding prepare_domain
  prepare_domain-Obtained source name w p at e =
      let asked =
        required_domain provider name
          (normalize_required_domain (domain_for provider source name w)) in
      let naming : String → Exec (World H) (Unit {0}) = (λ domain.
        write_config provider name (with_domain provider (str_eq source "protocol") domain)) in
      let entering : String → Exec (World H) (Unit {0}) =
        (λ domain. obtain provider "cert_file" "key_file" name domain >> naming domain) in
      let (domain, named, rest) = bind-Ok (lift asked) entering w tt e in
      let obtained = obtain provider "cert_file" "key_file" name domain in
      let (_, done, last) =
        bind-Ok obtained (λ _. naming domain) w tt (ap (λ x. x.0) (sym rest) ∙ e) in
      let (pair, answered, entered) = obtain-At name domain w p at done in
      (
        domain,
        pair,
        required_domain-Ok name _ domain named,
        answered,
        subst
            (λ (x : Result (Unit {0}) × World H). At name x.1 (record p {
              config =
                  with_domain provider (str_eq source "protocol") domain
                    (certified provider "cert_file" "key_file" domain pair p.config);
            }))
            (sym (rest ∙ last))
            (write_config-At name (with_domain provider (str_eq source "protocol") domain)
              (obtained w).1 _ entered),
      )
