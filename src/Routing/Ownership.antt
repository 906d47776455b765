-- ===== src/Routing/Ownership.antt =====
-- What the planning rules out: two owners of a name, and a port that is public or taken.
use hydra_ultimate.Base.{
  ℕ, ◌≤◌, String, ◌≡◌, ◌≢◌, ap, true, false, not, Option, none, some, List, [], ◌∷◌, arith, All,
  str_eq, eq_refl, keep, ok, Option-cases, Bool-cases, inl, inr,
}
use hydra_ultimate.Base.Int.{ℤ, pos, negsuc}
use hydra_ultimate.Base.Dict.{Dict, lookup, insert, has_key, lookup-insert}
use hydra_ultimate.Base.Value.{Value}
use hydra_ultimate.Routing.{
  Backend, normal_domain, validate_from, validate_unique_domains, route_port, occupies,
  checked_port, port_value,
}

-- The backends with a name.
abbrev pub named : List Backend → List Backend
named backends = keep (λ b. not (str_eq (normal_domain b.domain) "")) backends

abbrev Differs : String → List Backend → Type 0
Differs domain backends = All (λ b. normal_domain b.domain ≢ domain) backends

abbrev pub AreDistinct : List Backend → Type 0
AreDistinct [] = Unit
AreDistinct (b ∷ rest) =
    All (λ c. normal_domain c.domain ≢ normal_domain b.domain) rest × AreDistinct rest

-- Backends that pass do not have the name of an earlier owner.
validate_from-Differs :
    (domain : String) (backends : List Backend) (owners : Dict String)
    → has_key domain owners ≡ true
    → validate_from backends owners ≡ ok tt
    → Differs domain (named backends)
unfolding validate_from
validate_from-Differs domain [] owners h e = tt
validate_from-Differs domain (b ∷ rest) owners h e =
    elim (Bool-cases (str_eq (normal_domain b.domain) "")) [
      | inl nameless ↦ rw nameless (validate_from-Differs domain rest owners h (ground arith))
      | inr has_name ↦ elim (Option-cases (lookup (normal_domain b.domain) owners)) [
        | inr (previous, taken) ↦ absurd (ground arith)
        | inl free ↦ rw has_name (
          λ same. ground (arith, ap (λ d. lookup d owners) same),
          validate_from-Differs domain rest (insert (normal_domain b.domain) b.name owners)
              (ground (arith, lookup-insert (normal_domain b.domain) domain b.name owners))
              (ground arith),
        )
      ]
    ]

validate_from-AreDistinct :
    (backends : List Backend) (owners : Dict String)
    → validate_from backends owners ≡ ok tt
    → AreDistinct (named backends)
unfolding validate_from
validate_from-AreDistinct [] owners e = tt
validate_from-AreDistinct (b ∷ rest) owners e =
    elim (Bool-cases (str_eq (normal_domain b.domain) "")) [
      | inl nameless ↦ rw nameless (validate_from-AreDistinct rest owners (ground arith))
      | inr has_name ↦ elim (Option-cases (lookup (normal_domain b.domain) owners)) [
        | inr (previous, taken) ↦ absurd (ground arith)
        | inl free ↦
            let claimed = insert (normal_domain b.domain) b.name owners in
            rw has_name (
              validate_from-Differs (normal_domain b.domain) rest claimed
                  (ground (
                    arith,
                    eq_refl (normal_domain b.domain),
                    lookup-insert (normal_domain b.domain) (normal_domain b.domain) b.name owners,
                  ))
                  (ground arith),
              validate_from-AreDistinct rest claimed (ground arith),
            )
      ]
    ]

-- Backends that pass the validation have different names, up to case, white space around them and
-- final dots; backends without a name are left out of account.
pub validate_unique_domains-AreDistinct :
    (backends : List Backend)
    → validate_unique_domains backends ≡ ok tt
    → AreDistinct (named backends)
unfolding validate_unique_domains
validate_unique_domains-AreDistinct backends e = validate_from-AreDistinct backends [] e

checked_port-private :
    (name field : String) (occupied : List ℕ) (value : Option ℤ) (port : ℕ)
    → checked_port name field occupied value ≡ ok port
    → (1024 ≤ port) × (port ≤ 65535) × (occupies port occupied ≡ false)
checked_port-private name field occupied none port e = absurd (ground arith)
checked_port-private name field occupied (some (negsuc n)) port e = absurd (ground arith)
checked_port-private name field occupied (some (pos n)) port e =
    (ground arith, ground arith, ground arith)

-- A port that a plugin's route gets is a private high port that nobody occupies.
pub route_port-private :
    (name : String) (value : Value) (field : String) (occupied : List ℕ) (port : ℕ)
    → route_port name value field occupied ≡ ok port
    → (1024 ≤ port) × (port ≤ 65535) × (occupies port occupied ≡ false)
unfolding route_port
route_port-private name value field occupied port e =
    checked_port-private name field occupied (port_value value) port e
