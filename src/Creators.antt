-- ===== src/Creators.antt =====
-- hydra/services/creator_sessions.py: sessions of room creators, behind the drivers of the providers.
pub mod Created
mod Tests
use hydra_ultimate.Base.{
  ℕ, ◌+◌, String, Bool, true, false, not, ◌&&◌, ◌||◌, Option, none, some, List, [], ◌∷◌, str_eq,
  leb, ltb, ◌==◌, if◌then◌else◌, contains, any, length, concat, Result, ok, err, Exec, value_error,
  runtime_error, pure, raise, lift, ◌>>=◌, ◌>>◌, and_then,
}
use hydra_ultimate.Base.Dict.{Dict, lookup}
use hydra_ultimate.Base.Int.{ℤ, pos, ltb_ℤ, eqb_ℤ}
use hydra_ultimate.Base.Text.{strip, lower, is_name}

pub record CreatorSessionRequest : Type 0 where
  pub provider : String
  pub consumer : String
  pub lifetime : String
  pub count : ℤ
  pub previous_tokens : List String

pub record CreatorEndpoint : Type 0 where
  pub uri : String
  pub token : String

pub record CreatorSessionGroup (H : Type 0) : Type 0 where
  pub request : CreatorSessionRequest
  pub endpoints : List CreatorEndpoint
  pub handle : H

-- The operations of `CreatorProviderDriver` that move a group through its life.
pub record Driver (W H : Type 0) : Type 0 where
  pub create_sessions : CreatorSessionRequest → Exec W (CreatorSessionGroup H)
  pub commit_sessions : CreatorSessionGroup H → Exec W (Unit {0})
  pub finalize_sessions : CreatorSessionGroup H → Exec W (Unit {0})
  pub rollback_sessions : CreatorSessionGroup H → Exec W (Unit {0})
  pub close_sessions : CreatorSessionGroup H → Exec W (Unit {0})

-- `_name`
unfoldable pub name_of : String → String → Result String
unfolding is_name
name_of value field_name =
    let normalized = lower (strip value) in
    if is_name false normalized
    then ok normalized
    else err (value_error (concat ("creator " ∷ field_name ∷ " has an invalid name" ∷ [])))

-- `len(set(xs)) == len(xs)`
unfoldable pub are_distinct : List String → Bool
are_distinct [] = true
are_distinct (x ∷ xs) = not (contains x xs) && are_distinct xs

-- What follows the name in `_validate_request`.
unfoldable pub validate_rest : CreatorSessionRequest → Result (Unit {0})
unfolding are_distinct
validate_rest request =
    if not (str_eq request.lifetime "transient" || str_eq request.lifetime "managed")
    then err (value_error "creator lifetime must be transient or managed")
    else if ltb_ℤ request.count (pos 1)
    then err (value_error "creator session count must be a positive integer")
    else if str_eq request.lifetime "transient" && not (eqb_ℤ request.count (pos 1))
    then err (value_error "transient creator requests must contain one session")
    else if not (are_distinct request.previous_tokens)
    then err (value_error "previous creator endpoint tokens must be unique")
    else ok tt

unfoldable pub validate_request : CreatorSessionRequest → Result (Unit {0})
unfolding name_of validate_rest
validate_request request =
    and_then (name_of request.consumer "consumer") (λ _. validate_rest request)

abbrev pub texts_eq : List String → List String → Bool
texts_eq [] [] = true
texts_eq [] (y ∷ ys) = false
texts_eq (x ∷ xs) [] = false
texts_eq (x ∷ xs) (y ∷ ys) = str_eq x y && texts_eq xs ys

-- `a == b` of two requests
unfoldable pub request_eq : CreatorSessionRequest → CreatorSessionRequest → Bool
request_eq a b =
    str_eq a.provider b.provider
    && str_eq a.consumer b.consumer
    && str_eq a.lifetime b.lifetime
    && eqb_ℤ a.count b.count
    && texts_eq a.previous_tokens b.previous_tokens

-- The driver of a provider; `providers` is a mapping by name.
abbrev driver_in : {D : Type 0} → Dict D → String → Result D
driver_in providers name = elim (lookup name providers) [
  | none ↦ err (value_error (concat ("unknown creator provider: " ∷ name ∷ [])))
  | some driver ↦ ok driver
]

-- `_driver`
unfoldable pub driver_of : {D : Type 0} → Dict D → String → Result D
unfolding name_of
driver_of providers provider = and_then (name_of provider "provider") (driver_in providers)

abbrev pub fits : {H : Type 0} → CreatorSessionRequest → CreatorSessionGroup H → Bool
fits request group =
    request_eq group.request request && eqb_ℤ (pos (length group.endpoints)) request.count

abbrev pub lacks_token : {H : Type 0} → CreatorSessionGroup H → Bool
lacks_token group = any (λ endpoint. str_eq endpoint.token "") group.endpoints

module _ {W H : Type 0} where
  -- `try: driver.rollback_sessions(group)` / `finally: raise RuntimeError(…)`
  unfoldable pub reject :
      Driver W H → CreatorSessionGroup H → String → Exec W (CreatorSessionGroup H)
  reject driver group message w =
      (err (runtime_error message), (driver.rollback_sessions group w).1)

  -- The checks of `create` on the group that the driver gave.
  unfoldable pub accept :
      Driver W H → CreatorSessionRequest → CreatorSessionGroup H → Exec W (CreatorSessionGroup H)
  unfolding request_eq reject
  accept driver request group =
      if not (fits request group)
      then reject driver group "creator provider returned an invalid session group"
      else if lacks_token group
      then reject driver group "creator provider returned an empty endpoint token"
      else pure group

  module _ (providers : Dict (Driver W H)) where
    -- `CreatorSessionManager.create`
    unfoldable pub create : CreatorSessionRequest → Exec W (CreatorSessionGroup H)
    unfolding driver_of validate_request accept
    create request = do
      driver ← lift (driver_of providers request.provider)
      lift (validate_request request)
      group ← driver.create_sessions request
      accept driver request group

    abbrev dispatch :
        (Driver W H → CreatorSessionGroup H → Exec W (Unit {0}))
        → CreatorSessionGroup H
        → Exec W (Unit {0})
    dispatch operation group = do
      driver ← lift (driver_of providers group.request.provider)
      operation driver group

    unfoldable pub commit : CreatorSessionGroup H → Exec W (Unit {0})
    unfolding driver_of
    commit group = dispatch (λ driver. driver.commit_sessions) group

    unfoldable pub finalize : CreatorSessionGroup H → Exec W (Unit {0})
    unfolding driver_of
    finalize group = dispatch (λ driver. driver.finalize_sessions) group

    unfoldable pub rollback : CreatorSessionGroup H → Exec W (Unit {0})
    unfolding driver_of
    rollback group = dispatch (λ driver. driver.rollback_sessions) group

    unfoldable pub close : CreatorSessionGroup H → Exec W (Unit {0})
    unfolding driver_of
    close group = dispatch (λ driver. driver.close_sessions) group
