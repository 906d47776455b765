-- ===== src/Devices/Tests.antt =====
-- Runs of the device binding for a user with two devices, one of them guessed, and a limit of two.
use hydra_ultimate.Base.{◌≤◌, max, ◌≡◌, refl, true, false, none, [], ◌∷◌, arith, length}
use hydra_ultimate.Base.Dict.{lookup, insert, erase, keys}
use hydra_ultimate.State.{User}
use hydra_ultimate.Devices.{
  DeviceFingerprint, bind, limit, allowed, is_known, is_legacy, normalized_agent, record_of,
}
use hydra_ultimate.Devices.Limit.{bind-limit}
use hydra_ultimate.Base.Text.{squeeze, prefix, is_space}

abbrev user : User
user = record {
  email = "ann";
  uuid = "u-1";
  traffic_limit_gb = record { num = 0; shift = 0 };
  traffic_used_bytes = 0;
  expiry_date = "";
  blocked = false;
  created_at = "";
  telegram_id = none;
  credentials = [];
  device_limit = 2;
  devices =
      (
        "d1",
        ("first_seen", "2026-01-01")
            ∷ ("source", "network-client")
            ∷ ("user_agent", "Box  1.0")
            ∷ [],
      )
      ∷ ("d2", ("first_seen", "2026-02-01") ∷ ("source", "x-hwid") ∷ [])
      ∷ [];
  hydrabox_jwe_key = "";
  configuration_name_overrides = [];
  disabled_protocols = [];
}

abbrev moved : DeviceFingerprint
moved = record {
  device_id = "d3";
  source = "network-client";
  user_agent = "Box 1.0";
  address = "10.0.0.1";
}

abbrev stranger : DeviceFingerprint
stranger = record {
  device_id = "d4";
  source = "x-hwid";
  user_agent = "Box 1.0";
  address = "10.0.0.2";
}

-- The guessed device is recognised by its agent and takes the place of its predecessor.
moved_known :
    ((bind moved "2026-03-01" user).0 ≡ allowed)
    × (keys (bind moved "2026-03-01" user).1.devices ≡ "d2" ∷ "d3" ∷ [])
unfolding bind is_legacy normalized_agent squeeze prefix lookup insert record_of is_space erase
moved_known = (refl, refl)

refused : (bind stranger "2026-03-01" user).0 ≡ limit
unfolding bind is_legacy normalized_agent squeeze prefix lookup insert record_of is_space erase
refused = refl

bind-limit_example :
    let (status, user') = bind moved "2026-03-01" user in
    (length user'.devices ≤ max (length user.devices) user.device_limit)
    × (is_known moved user ≡ true → status ≡ allowed)
    × (status ≡ limit → user' ≡ user)
bind-limit_example = bind-limit moved "2026-03-01" user (omega arith)
