-- ===== src/Runtime/Tests.antt =====
-- A menu saves an old copy of a user whose traffic and devices have gone on.
use hydra_ultimate.Base.{ℕ, String, ◌≡◌, refl, false, none, [], ◌∷◌, ok, Gives}
use hydra_ultimate.Base.Int.{pos}
use hydra_ultimate.Base.Dict.{Dict, lookup, insert, erase}
use hydra_ultimate.Base.Value.{Value, int_of}
use hydra_ultimate.State.{AppState, User}
use hydra_ultimate.Runtime.{merge_runtime_state, reset_emails, used_key, last_key}
use hydra_ultimate.Runtime.Merged.{AllKeep, merge_runtime_state-Keeps}

abbrev counters : ℕ → ℕ → Dict Value
counters total raw = (used_key, Value.int (pos total)) ∷ (last_key, Value.int (pos raw)) ∷ []

abbrev ann : ℕ → Dict (Dict Value) → Dict (Dict String) → User
ann used credentials devices = record {
  email = "ann";
  uuid = "u-1";
  traffic_limit_gb = record { num = 0; shift = 0 };
  traffic_used_bytes = used;
  expiry_date = "";
  blocked = false;
  created_at = "";
  telegram_id = none;
  credentials = credentials;
  device_limit = 0;
  devices = devices;
  hydrabox_jwe_key = "k";
  configuration_name_overrides = [];
  disabled_protocols = [];
}

abbrev state_of : User → AppState User
state_of user = record {
  format_version = 1;
  revision = 3;
  install = [];
  configuration_names = [];
  protocols = [];
  users = user ∷ [];
  telegram = Value.null;
  network = record {
    domain = "";
    sub_domain = "";
    server_ip = "";
    dns_servers = [];
    dnscrypt_port = 5300;
    tproxy_enabled = false;
    tproxy_port = 1081;
    clash_api_enabled = false;
    clash_api_port = 9090;
    clash_api_secret = "";
  };
  headless_creator = Value.null;
  kernel = Value.null;
  core_extensions = [];
  feature_extensions = [];
}

abbrev old_copy : AppState User
old_copy =
    state_of
      (ann 10 (("naive", ("password", Value.text "x") ∷ counters 10 4) ∷ []) (("phone", []) ∷ []))

abbrev latest : AppState User
latest = state_of (ann 30 (("naive", counters 30 9) ∷ []) (("laptop", []) ∷ []))

merged :
    merge_runtime_state old_copy latest []
    ≡ ok (
        state_of (
          ann 30
            (("naive", ("password", Value.text "x") ∷ counters 30 9) ∷ [])
            (("laptop", []) ∷ ("phone", []) ∷ [])))
unfolding merge_runtime_state lookup insert erase int_of
merged = refl

merge_runtime_state-Keeps_example :
    Gives
      (λ state. AllKeep (reset_emails latest.install) [] latest.users old_copy.users state.users)
      (merge_runtime_state old_copy latest [])
merge_runtime_state-Keeps_example = merge_runtime_state-Keeps old_copy latest []
