-- ===== src/Sync.antt =====
-- hydra/services/sync_cycle.py (the enforcement of limits in the background) and
-- hydra/services/user_access.py (who may connect).
pub mod Limits
mod Tests
use Prim.Native.Char.{code}
use Prim.Native.String
use hydra_ultimate.Base.{
  ℕ, String, Bool, true, false, not, ◌&&◌, ◌||◌, Option, none, some, List, [], ◌∷◌, ◌++◌, str_eq,
  ltb, leb, ◌==◌, if◌then◌else◌, concat, contains, find,
}
use hydra_ultimate.Base.Int.{ℤ, ltb_ℤ}
use hydra_ultimate.Base.Dict.{Dict, lookup, insert}
use hydra_ultimate.State.{User}
use hydra_ultimate.Traffic.{limit_bytes}

-- A final "Z" of a time stands for the zone "+00:00".
unfoldable pub with_zone : String → String
with_zone String.[] = ""
with_zone (String.◌∷◌ c String.[]) = if code c == 90 then "+00:00" else String.◌∷◌ c ""
with_zone (String.◌∷◌ c (String.◌∷◌ d s)) = String.◌∷◌ c (with_zone (String.◌∷◌ d s))

-- What was blocked, by e-mail, and what was logged.
pub record Round : Type 0 where
  pub users : List User
  pub blocked_users : Dict String
  pub logged : List String

-- `parse` is `datetime.fromisoformat`, in UTC where the text names no zone; `none` is a TypeError or a
-- ValueError.
module _ (parse : String → Option ℤ) where
  abbrev pub expired_at : ℤ → Option ℤ → Option Bool
  expired_at now none = none
  expired_at now (some expiry) = some (not (ltb_ℤ now expiry))

  -- Whether the subscription of a user has expired; `none` where the date cannot be read.
  unfoldable pub expiry_passed : ℤ → User → Option Bool
  unfolding with_zone
  expiry_passed now user =
      if str_eq user.expiry_date ""
      then some false
      else expired_at now (parse (with_zone user.expiry_date))

  -- `_restriction_reason`
  unfoldable pub restriction_reason : List String → ℤ → User → String
  unfolding expiry_passed
  restriction_reason exceeded now user =
      if contains user.email exceeded
      then "traffic limit exceeded"
      else elim (expiry_passed now user) [
        | none ↦ ""
        | some true ↦ "subscription expired"
        | some false ↦ ""
      ]

  abbrev date_log : List String → ℤ → User → List String
  date_log exceeded now user =
      if contains user.email exceeded then [] else elim (expiry_passed now user) [
        | none ↦ concat ("User " ∷ user.email ∷ " has an invalid expiry date" ∷ []) ∷ []
        | some passed ↦ []
      ]

  abbrev pub block_for : String → User → User
  block_for reason user =
      if not user.blocked && not (str_eq reason "") then record user { blocked = true } else user

  -- The loop of `refresh_and_block`
  unfoldable pub block_restricted : List String → ℤ → List User → Dict String → Round
  unfolding restriction_reason
  block_restricted exceeded now [] blocked = record {
    users = [];
    blocked_users = blocked;
    logged = [];
  }
  block_restricted exceeded now (user ∷ rest) blocked =
      let reason = restriction_reason exceeded now user in
      let fresh = not user.blocked && not (str_eq reason "") in
      let after =
        block_restricted exceeded now rest
          (if fresh then insert user.email reason blocked else blocked) in
      record after {
        users = block_for reason user ∷ after.users;
        logged = (if user.blocked then [] else date_log exceeded now user) ++ after.logged;
      }

  abbrev pub is_empty : Dict String → Bool
  is_empty [] = true
  is_empty (entry ∷ rest) = false

  -- `refresh_and_block`, after the check of the traffic limits: the round, and `sync_config_pending`
  unfoldable pub refresh_and_block : List String → ℤ → List User → Bool → Round × Bool
  unfolding block_restricted
  refresh_and_block exceeded now users pending =
      let round = block_restricted exceeded now users [] in
      (round, pending || not (is_empty round.blocked_users))

  -- `entitlement_status`, where the float `traffic_limit_gb` is true unless it is 0
  unfoldable pub entitlement_status : ℤ → User → Bool × String
  unfolding expiry_passed limit_bytes
  entitlement_status now user =
      let limited = not (user.traffic_limit_gb.num == 0) in
      let quota =
        (if limited && leb (limit_bytes user.traffic_limit_gb) user.traffic_used_bytes
          then (false, "лимит исчерпан")
          else (true, "активен")) in
      elim (expiry_passed now user) [
        | none ↦ (false, "ошибка даты")
        | some true ↦ (false, "срок истёк")
        | some false ↦ quota
      ]

  -- `access_status`
  unfoldable pub access_status : ℤ → User → Bool × String
  unfolding entitlement_status
  access_status now user =
      let (entitled, reason) = entitlement_status now user in
      if user.blocked
      then (false, if entitled then "заблокирован" else reason)
      else (entitled, reason)

  unfoldable pub has_access : ℤ → User → Bool
  unfolding access_status
  has_access now user = (access_status now user).0
