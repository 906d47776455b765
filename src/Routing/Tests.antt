-- ===== src/Routing/Tests.antt =====
-- Backends with and without a common name, and ports of a route.
use hydra_ultimate.Base.{◌≤◌, String, ◌≡◌, refl, false, List, [], ◌∷◌, ok, err, value_error}
use hydra_ultimate.Base.Dict.{lookup, insert}
use hydra_ultimate.Base.Text.{strip, lower}
use hydra_ultimate.Base.Value.{Value, int_of}
use hydra_ultimate.Routing.{
  Backend, validate_unique_domains, validate_from, normal_domain, rstrip_dots, route_port, occupies,
}
use hydra_ultimate.Routing.Ownership.{
  AreDistinct, named, validate_unique_domains-AreDistinct, route_port-private,
}

abbrev backend : String → String → Backend
backend name domain = record {
  name = name;
  domain = domain;
  port = 9000;
  cert_file = Value.text "";
  key_file = Value.text "";
  route_kind = "";
}

abbrev apart : List Backend
apart = backend "naive" "a.example" ∷ backend "snell" "" ∷ backend "anytls" "b.example" ∷ []

passing : validate_unique_domains apart ≡ ok tt
unfolding validate_unique_domains validate_from normal_domain rstrip_dots strip lower lookup insert
passing = refl

clash :
    validate_unique_domains (backend "naive" "a.example" ∷ backend "anytls" " A.example. " ∷ [])
    ≡ err (value_error "TLS domain a.example is assigned to both naive and anytls")
unfolding validate_unique_domains validate_from normal_domain rstrip_dots strip lower lookup insert
clash = refl

validate_unique_domains_example : AreDistinct (named apart)
validate_unique_domains_example = validate_unique_domains-AreDistinct apart passing

taken : route_port "x" (Value.text "9001") "internal_port" (9000 ∷ []) ≡ ok 9001
unfolding route_port int_of
taken = refl

route_port-private_example : (1024 ≤ 9001) × (9001 ≤ 65535) × (occupies 9001 (9000 ∷ []) ≡ false)
route_port-private_example =
    route_port-private "x" (Value.text "9001") "internal_port" (9000 ∷ []) 9001 taken
