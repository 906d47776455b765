-- ===== src/Sync/Tests.antt =====
-- A round over a user that has expired and one over the limit.
use hydra_ultimate.Base.{
  String, ◌≡◌, refl, true, false, ◌||◌, Option, none, some, List, [], ◌∷◌, map, any, str_eq,
  if◌then◌else◌,
}
use hydra_ultimate.Base.Int.{ℤ, pos}
use hydra_ultimate.Base.Dict.{insert}
use hydra_ultimate.State.{User}
use hydra_ultimate.Traffic.{over_limit, limit_bytes}
use hydra_ultimate.Sync.{
  has_access, refresh_and_block, block_restricted, restriction_reason, expiry_passed, with_zone,
}
use hydra_ultimate.Sync.Limits.{over_limit-has_access, is_restricted, refresh_and_block_lem}

abbrev someone : String → String → User
someone email expiry = record {
  email = email;
  uuid = email;
  traffic_limit_gb = record { num = 0; shift = 0 };
  traffic_used_bytes = 0;
  expiry_date = expiry;
  blocked = false;
  created_at = "";
  telegram_id = none;
  credentials = [];
  device_limit = 0;
  devices = [];
  hydrabox_jwe_key = "";
  configuration_name_overrides = [];
  disabled_protocols = [];
}

abbrev parse : String → Option ℤ
parse s = if str_eq s "1970+00:00" then some (pos 0) else none

abbrev users : List User
users = someone "ann" "1970Z" ∷ someone "bob" "" ∷ someone "eve" "never" ∷ []

blocked_now :
    (refresh_and_block parse ("bob" ∷ []) (pos 9) users false).0.blocked_users
    ≡ ("ann", "subscription expired") ∷ ("bob", "traffic limit exceeded") ∷ []
unfolding refresh_and_block block_restricted restriction_reason expiry_passed with_zone insert
blocked_now = refl

refresh_and_block_example :
    ((refresh_and_block parse ("bob" ∷ []) (pos 9) users false).0.users
      ≡ map
          (λ user.
            if is_restricted parse ("bob" ∷ []) (pos 9) user
            then record user { blocked = true }
            else user)
          users)
    × ((refresh_and_block parse ("bob" ∷ []) (pos 9) users false).1
        ≡ (false || any (is_restricted parse ("bob" ∷ []) (pos 9)) users))
refresh_and_block_example = refresh_and_block_lem parse ("bob" ∷ []) (pos 9) users false

abbrev spent : User
spent = record (someone "bob" "") {
  traffic_limit_gb = record { num = 1; shift = 0 };
  traffic_used_bytes = 1073741824;
}

spent_over : (over_limit spent || spent.blocked) ≡ true
unfolding over_limit limit_bytes
spent_over = refl

over_limit-has_access_example : has_access parse (pos 9) spent ≡ false
over_limit-has_access_example = over_limit-has_access parse (pos 9) spent spent_over
