-- ===== src/Sync/Limits.antt =====
-- Whom a round blocks, and that nobody keeps an access that the limits do not allow.
use hydra_ultimate.Base.{
  ℕ, String, ◌≡◌, refl, ap, ◌∙◌, Bool, true, false, not, ◌&&◌, ◌||◌, Option, none, some, contains,
  List, [], ◌∷◌, map, arith, any, str_eq, ◌==◌, ◌*◌, ◌/◌, ◌^◌, if◌then◌else◌, Bool-cases, inl, inr,
}
use hydra_ultimate.Base.Int.{ℤ, ltb_ℤ, leb_ℤ}
use hydra_ultimate.Base.Dict.{Dict, insert}
use hydra_ultimate.State.{User}
use hydra_ultimate.Traffic.{over_limit, limit_bytes}
use hydra_ultimate.Sync.{
  block_restricted, refresh_and_block, restriction_reason, expiry_passed, with_zone, block_for,
  expired_at, is_empty, has_access, access_status, entitlement_status,
}

module _ (parse : String → Option ℤ) where
  -- The point in time that was read has come.
  abbrev pub has_come : ℤ → Option ℤ → Bool
  has_come now none = false
  has_come now (some end) = leb_ℤ end now

  -- The user is not blocked yet, and either over the traffic limit or past an expiry date that can be
  -- read.
  abbrev pub is_restricted : List String → ℤ → User → Bool
  is_restricted exceeded now user =
      not user.blocked
      && (contains user.email exceeded
          || (not (str_eq user.expiry_date "")
              && has_come now (parse (with_zone user.expiry_date))))

  not-ltb_ℤ : (a b : ℤ) → not (ltb_ℤ a b) ≡ leb_ℤ b a
  not-ltb_ℤ a b = ground arith

  shown_exactly :
      (passed : Bool)
      → not (str_eq (elim passed [ true ↦ "subscription expired" | false ↦ "" ]) "") ≡ passed
  shown_exactly true = refl
  shown_exactly false = refl

  reason_cases :
      (stopped over endless : Bool) (now : ℤ) (end : Option ℤ)
      → (not stopped
          && not (
              str_eq
                (if over
                  then "traffic limit exceeded"
                  else elim (if endless then some false else expired_at parse now end) [
                    | none ↦ ""
                    | some true ↦ "subscription expired"
                    | some false ↦ ""
                  ])
                ""))
        ≡ (not stopped && (over || (not endless && has_come now end)))
  reason_cases true over endless now end = refl
  reason_cases false true endless now end = refl
  reason_cases false false true now end = refl
  reason_cases false false false now none = refl
  reason_cases false false false now (some end) =
      shown_exactly (not (ltb_ℤ now end)) ∙ not-ltb_ℤ now end

  reason_lem :
      (exceeded : List String) (now : ℤ) (user : User)
      → (not user.blocked && not (str_eq (restriction_reason parse exceeded now user) ""))
        ≡ is_restricted exceeded now user
  unfolding restriction_reason expiry_passed
  reason_lem exceeded now user =
      reason_cases user.blocked (contains user.email exceeded) (str_eq user.expiry_date "") now
        (parse (with_zone user.expiry_date))

  abbrev marked : List String → ℤ → User → User
  marked exceeded now user =
      if is_restricted exceeded now user then record user { blocked = true } else user

  block_restricted-users :
      (exceeded : List String) (now : ℤ) (users : List User) (blocked : Dict String)
      → (block_restricted parse exceeded now users blocked).users
        ≡ map
            (λ user.
              if is_restricted exceeded now user then record user { blocked = true } else user)
            users
  unfolding block_restricted
  block_restricted-users exceeded now [] blocked = refl
  block_restricted-users exceeded now (user ∷ rest) blocked =
      ap
        (λ (users : List User).
          block_for parse (restriction_reason parse exceeded now user) user ∷ users)
        (block_restricted-users exceeded now rest _)
      ∙ ap
          (λ (restricted : Bool).
            (if restricted then record user { blocked = true } else user)
            ∷ map (marked exceeded now) rest)
          (reason_lem exceeded now user)

  insert-is_empty :
      (email reason : String) (blocked : Dict String)
      → is_empty parse (insert email reason blocked) ≡ false
  unfolding insert
  insert-is_empty email reason [] = refl
  insert-is_empty email reason ((j, other) ∷ blocked) = ground arith

  block_restricted-blocked :
      (exceeded : List String) (now : ℤ) (users : List User) (blocked : Dict String)
      → is_empty parse (block_restricted parse exceeded now users blocked).blocked_users
        ≡ (is_empty parse blocked && not (any (is_restricted exceeded now) users))
  unfolding block_restricted
  block_restricted-blocked exceeded now [] blocked = ground arith
  block_restricted-blocked exceeded now (user ∷ rest) blocked =
      elim (Bool-cases (is_restricted exceeded now user)) [
        | inl fresh ↦
            rw (reason_lem exceeded now user ∙ fresh, fresh)
              (block_restricted-blocked exceeded now rest
                  (insert user.email (restriction_reason parse exceeded now user) blocked)
                ∙ rw
                    (insert-is_empty user.email (restriction_reason parse exceeded now user)
                      blocked)
                    (ground arith))
        | inr stale ↦
            rw (reason_lem exceeded now user ∙ stale, stale)
              (block_restricted-blocked exceeded now rest blocked)
      ]

  -- A round blocks exactly the users that are over a limit or expired, it unblocks nobody, and it asks
  -- for a new configuration if it was asked for before or if somebody was blocked now.
  pub refresh_and_block_lem :
      (exceeded : List String) (now : ℤ) (users : List User) (pending : Bool)
      → ((refresh_and_block parse exceeded now users pending).0.users
          ≡ map
              (λ user.
                if is_restricted exceeded now user then record user { blocked = true } else user)
              users)
        × ((refresh_and_block parse exceeded now users pending).1
            ≡ (pending || any (is_restricted exceeded now) users))
  unfolding refresh_and_block
  refresh_and_block_lem exceeded now users pending = (
    block_restricted-users exceeded now users [],
    ground (arith, block_restricted-blocked exceeded now users []),
  )

no_quota : (num shift : ℕ) → num ≡ 0 → num * 1073741824 / 2 ^ shift ≡ 0
no_quota num shift h = rw h (ground arith)

-- A user whom the check of the traffic limits reports has no access, and neither has a blocked one,
-- whatever the expiry date says.
pub over_limit-has_access :
    (parse : String → Option ℤ) (now : ℤ) (user : User)
    → (over_limit user || user.blocked) ≡ true
    → has_access parse now user ≡ false
unfolding over_limit limit_bytes has_access access_status entitlement_status
over_limit-has_access parse now user h = elim (Bool-cases (user.traffic_limit_gb.num == 0)) [
  | inl zero_quota ↦
      ground (arith, no_quota user.traffic_limit_gb.num user.traffic_limit_gb.shift (ground arith))
  | inr limited ↦ ground arith
]
