-- ===== src/Creators/Created.antt =====
-- What a created group of sessions is like, and what becomes of one that is refused.
use hydra_ultimate.Base.{
  ◌≡◌, refl, ap, ◌∙◌, true, false, ◌&&◌, List, [], ◌∷◌, arith, All, str_eq, any, length, Result, ok,
  err, Exception, is_ok, ◌⊎◌, Bool-cases, inl, inr, lift, ◌>>=◌, ◌>>◌,
}
use hydra_ultimate.Base.Dict.{Dict}
use hydra_ultimate.Base.Int.{ℤ, pos, negsuc, eqb_ℤ}
use hydra_ultimate.Creators.{
  CreatorSessionRequest, CreatorSessionGroup, CreatorEndpoint, Driver, validate_request, driver_of,
  request_eq, fits, lacks_token, accept, reject, create,
}

eqb_ℤ-same : (a b : ℤ) → eqb_ℤ a b ≡ true → a ≡ b
eqb_ℤ-same (pos m) (pos n) h = ap pos (ground arith)
eqb_ℤ-same (pos m) (negsuc n) h = absurd (ground arith)
eqb_ℤ-same (negsuc m) (pos n) h = absurd (ground arith)
eqb_ℤ-same (negsuc m) (negsuc n) h = ap negsuc (ground arith)

-- A group that a request asked for.
pub record Answers {H : Type 0} (request : CreatorSessionRequest) (group : CreatorSessionGroup H)
    : Type 0 where
  pub same : request_eq group.request request ≡ true
  pub number : pos (length group.endpoints) ≡ request.count
  pub tokens : All (λ endpoint. str_eq endpoint.token "" ≡ false) group.endpoints

tokens-All :
    (endpoints : List CreatorEndpoint)
    → any (λ endpoint. str_eq endpoint.token "") endpoints ≡ false
    → All (λ endpoint. str_eq endpoint.token "" ≡ false) endpoints
tokens-All [] h = tt
tokens-All (e ∷ rest) h = (ground arith, tokens-All rest (ground arith))

module _ {W H : Type 0} where
  -- Either the group is answered and the world is left alone, or it is rolled back.
  abbrev Decided :
      Driver W H
      → CreatorSessionRequest
      → CreatorSessionGroup H
      → W
      → Result (CreatorSessionGroup H) × W
      → Type 0
  Decided driver request group w (ok result, w') =
      (result ≡ group) × Answers request result × (w' ≡ w)
  Decided driver request group w (err exc, w') = w' ≡ (driver.rollback_sessions group w).1

  accept-Decided :
      (driver : Driver W H) (request : CreatorSessionRequest) (group : CreatorSessionGroup H)
      (w : W)
      → Decided driver request group w (accept driver request group w)
  unfolding accept reject
  accept-Decided driver request group w = elim (Bool-cases (fits request group)) [
    | inr misfit ↦ rw misfit refl
    | inl fit ↦ elim (Bool-cases (lacks_token group)) [
      | inl lacking ↦ rw (fit, lacking) refl
      | inr complete ↦
          rw (fit, complete)
            (
              refl,
              record {
                same = ground (arith, fit);
                number = eqb_ℤ-same _ _ (ground (arith, fit));
                tokens = tokens-All group.endpoints complete;
              },
              refl,
            )
    ]
  ]

  module _ (providers : Dict (Driver W H)) (request : CreatorSessionRequest) (w : W) where
    -- The driver was asked for the group, which answers the request.
    abbrev Delivered : CreatorSessionGroup H → W → Type 0
    Delivered group w' =
        (driver : Driver W H) × (driver_of providers request.provider ≡ ok driver)
        × (validate_request request ≡ ok tt)
        × (driver.create_sessions request w ≡ (ok group, w'))
        × Answers request group

    -- The request is refused before the driver sees it.
    abbrev Refused : W → Type 0
    Refused w' =
        ((is_ok (driver_of providers request.provider) && is_ok (validate_request request)) ≡ false)
        × (w' ≡ w)

    -- The driver raises, or its group is rolled back.
    abbrev Failed : Exception → W → Type 0
    Failed exc w' =
        (driver : Driver W H) × (driver_of providers request.provider ≡ ok driver)
        × ((driver.create_sessions request w ≡ (err exc, w'))
            ⊎ ((group : CreatorSessionGroup H) × (made : W) × (driver.create_sessions request w
                  ≡ (ok group, made))
                × (w' ≡ (driver.rollback_sessions group made).1)))

    abbrev pub Created : Result (CreatorSessionGroup H) × W → Type 0
    Created (ok group, w') = Delivered group w'
    Created (err exc, w') = Refused w' ⊎ Failed exc w'

    made-Created :
        (driver : Driver W H)
        → driver_of providers request.provider ≡ ok driver
        → validate_request request ≡ ok tt
        → (x : Result (CreatorSessionGroup H) × W) → driver.create_sessions request w ≡ x
        → Created (elim x.0 as (λ r. Result (CreatorSessionGroup H) × W) [
          | ok group ↦ accept driver request group x.1
          | err exc ↦ (err exc, x.1)
        ])
    made-Created driver p q (err exc, w') c = inr (driver, p, inl c)
    made-Created driver p q (ok group, made) c =
        decided (accept driver request group made) (accept-Decided driver request group made)
      where
        decided :
            (x : Result (CreatorSessionGroup H) × W)
            → Decided driver request group made x
            → Created x
        decided (ok result, w') (e, answers, f) = (driver, p, q, c ∙ rw (e, f), answers)
        decided (err exc, w') f = inr (driver, p, inr (group, made, c, f))

    -- `create` ends with a group only if the request is valid and the driver of its provider gave this
    -- group, which has the request, as many endpoints as it says, and a token for each. It ends with an
    -- exception only if the request is refused and nothing has changed, if the driver raised, or if the
    -- driver's group was rolled back.
    pub create_lem : Created (create providers request w)
    unfolding create
    create_lem = go (driver_of providers request.provider) refl (validate_request request) refl
      where
        go :
            (d : Result (Driver W H))
            → driver_of providers request.provider ≡ d
            → (v : Result (Unit {0})) → validate_request request ≡ v
            → Created (
                (lift d >>= λ driver.
                lift v >> (driver.create_sessions request >>= accept driver request))
                  w)
        go (err exc) p v q = inl (ap (λ r. is_ok r && is_ok (validate_request request)) p, refl)
        go (ok driver) p (err exc) q =
            inl (ap (λ r. is_ok r && is_ok (validate_request request)) p ∙ ap is_ok q, refl)
        go (ok driver) p (ok tt) q = made-Created driver p q (driver.create_sessions request w) refl
