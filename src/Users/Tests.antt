-- ===== src/Users/Tests.antt =====
-- Runs of the lifecycle operations on a state with two users and two transports.
use hydra_ultimate.Base.{
  ℕ, String, ◌≡◌, refl, ap, ◌∙◌, map, Result, Gives, true, false, none, List, [], ◌∷◌, ◌++◌, str_eq,
  ◌==◌, if◌then◌else◌, ok, err, runtime_error,
}
use hydra_ultimate.Base.Dict.{lookup}
use hydra_ultimate.Base.Value.{Value}
use hydra_ultimate.State.{
  AppState, User, PluginState, find_user, add_user, duplicate_uuid, replace_user, protocol_enabled,
}
use hydra_ultimate.Transaction.{rollback, run_actions, run_action, failure_of, report, before}
use hydra_ultimate.Base.{sorted}
use hydra_ultimate.Users.{Operations, add}
use hydra_ultimate.Users.Memory.{
  World, users_of, users_of-map, restore_state_in_place, deep_copy, deep_copy-restore,
}
use hydra_ultimate.Users.{fan_out}
use hydra_ultimate.Users.Saga.{with_actions, attempt, finish, fan_out-attempt}
use hydra_ultimate.Base.Int.{pos}
use hydra_ultimate.Runtime.{merge_found, last_user, desired_user}
use hydra_ultimate.Runtime.Desired.{merge_found-same}
use hydra_ultimate.Persistence.{with_key}
use hydra_ultimate.Users.Restore.{KeepsUsers}
use hydra_ultimate.Users.Atomic.{added, perform, change_atomic}

abbrev someone : String → String → User
someone email uuid = record {
  email = email;
  uuid = uuid;
  traffic_limit_gb = record { num = 0; shift = 0 };
  traffic_used_bytes = 0;
  expiry_date = "";
  blocked = false;
  created_at = "";
  telegram_id = none;
  credentials = [];
  device_limit = 0;
  devices = [];
  hydrabox_jwe_key = "k";
  configuration_name_overrides = [];
  disabled_protocols = [];
}

abbrev switched_on : PluginState
switched_on = record { enabled = true; port = 443; installed = true; config = [] }

abbrev state : AppState ℕ
state = record {
  format_version = 1;
  revision = 7;
  install = [];
  configuration_names = [];
  protocols = ("anytls", switched_on) ∷ ("naive", switched_on) ∷ [];
  users = 0 ∷ 1 ∷ [];
  telegram = Value.null;
  network = record {
    domain = "";
    sub_domain = "";
    server_ip = "";
    dns_servers = [];
    dnscrypt_port = 5300;
    tproxy_enabled = true;
    tproxy_port = 1;
    clash_api_enabled = false;
    clash_api_port = 9090;
    clash_api_secret = "";
  };
  headless_creator = Value.null;
  kernel = Value.null;
  core_extensions = [];
  feature_extensions = [];
}

-- The host keeps the calls that were made; object 2 is the user that will be added.
abbrev world : World (List String)
world = record {
  objects = λ r.
      if r == 0
      then someone "ann" "u-1"
      else if r == 1
      then someone "bob" "u-2"
      else someone "eve" "u-3";
  fresh = 3;
  state = state;
  host = [];
}

abbrev note : String → World (List String) → World (List String)
note s w = record w { host = w.host ++ s ∷ [] }

-- The document that another writer has saved meanwhile.
abbrev latest : List User
latest =
    record (someone "ann" "u-1") {
      traffic_used_bytes = 40;
      devices = ("d-1", []) ∷ [];
      credentials = ("naive", ("traffic_used_bytes", Value.int (pos 40)) ∷ []) ∷ [];
    }
    ∷ someone "bob" "u-2"
    ∷ []

abbrev merged_or : User → Result User → User
merged_or user (ok merged) = with_key "new-key" merged
merged_or user (err e) = user

-- What a save does to a user: what was observed is merged in, and a missing key is made.
abbrev saved : User → User
saved user = merged_or user (merge_found [] [] user (last_user user.email latest))

-- A user but for what is observed, and the key.
abbrev lasting : User → User
unfolding desired_user
lasting user = record (desired_user user) { hydrabox_jwe_key = "" }

lasting-merged_or :
    (user : User) (merged : Result User)
    → Gives (λ m. desired_user m ≡ desired_user user) merged
    → lasting (merged_or user merged) ≡ lasting user
unfolding desired_user
lasting-merged_or user (ok m) h = ap (λ (u : User). record u { hydrabox_jwe_key = "" }) h
lasting-merged_or user (err e) h = refl

lasting-saved : (user : User) → lasting (saved user) ≡ lasting user
lasting-saved user =
    lasting-merged_or user (merge_found [] [] user (last_user user.email latest))
      (merge_found-same [] [] user (last_user user.email latest))

map-saved : (users : List User) → map lasting (map saved users) ≡ map lasting users
map-saved [] = refl
map-saved (user ∷ users) =
    ap (λ u. u ∷ map lasting (map saved users)) (lasting-saved user)
    ∙ ap (λ us. lasting user ∷ us) (map-saved users)

abbrev save : World (List String) → World (List String)
save w = note "save" (record w { objects = λ r. saved (w.objects r) })

-- The hook of "naive" raises when a user is added.
abbrev ops : Operations String (List String)
ops = record {
  name = λ p. p;
  transports = λ w. "anytls" ∷ "naive" ∷ [];
  apply_config = λ w. (ok true, note "apply" w);
  save_state = λ w. (ok tt, save w);
  last_apply_error = λ w. "";
  log_rollback_error = λ m w. w;
  user_add = λ p r w.
      if str_eq p "naive"
      then (err (runtime_error "no credentials"), note "failed add" w)
      else (ok tt, note "add" w);
  user_remove = λ p r w. (ok tt, note p w);
  user_block = λ p r w. (ok tt, note "block" w);
  generate_key = λ w. (ok "key", w);
  is_active = λ s w. (false, w);
  restart = λ s w. w;
}

keeps : KeepsUsers (map lasting) ops
unfolding users_of
keeps = record {
  saving = λ w. ap (map lasting) (users_of-map saved w) ∙ map-saved (users_of w);
  applying = λ w. refl;
  logging = λ m w. refl;
}

-- The hook that fails is compensated too, before the earlier one; then the state is restored,
-- saved and applied again.
add_fails :
    ((perform ops (added 2) world).0 ≡ err (runtime_error "no credentials"))
    × ((perform ops (added 2) world).1.host
        ≡ "add" ∷ "failed add" ∷ "naive" ∷ "anytls" ∷ "save" ∷ "apply" ∷ [])
unfolding add find_user add_user duplicate_uuid replace_user protocol_enabled lookup rollback
    run_actions run_action failure_of report before sorted restore_state_in_place deep_copy
add_fails = (refl, refl)

change_atomic_example :
    map lasting (users_of (perform ops (added 2) world).1) ≡ map lasting (users_of world)
change_atomic_example =
    change_atomic ops keeps (added 2) world (runtime_error "no credentials") add_fails.0

-- Before the restore the user 0 is blocked; afterwards the state reads as the copy, which was taken earlier.
abbrev snapshot : AppState User
unfolding deep_copy
snapshot = deep_copy world

abbrev later : World (List String)
later = record world { objects = λ r. record (world.objects r) { blocked = true } }

deep_copy-restore_example :
    deep_copy (restore_state_in_place snapshot later)
    ≡ record snapshot { revision = later.state.revision }
deep_copy-restore_example = deep_copy-restore snapshot later

abbrev label : String → World (List String) → String
label p w = p

fan_out-attempt_example :
    fan_out ops label
      (λ p. ops.user_remove p 2)
      (λ p. ops.user_add p 2)
      0
      ("anytls" ∷ "naive" ∷ [])
      (with_actions ops snapshot 2 [])
      world
    ≡ finish ops snapshot label
        (λ p. ops.user_remove p 2)
        (λ p. ops.user_add p 2)
        (attempt ops snapshot label
          (λ p. ops.user_remove p 2)
          (λ p. ops.user_add p 2)
          2
          0
          ("anytls" ∷ "naive" ∷ [])
          []
          world)
fan_out-attempt_example =
    fan_out-attempt ops snapshot label (λ p. ops.user_remove p 2) (λ p. ops.user_add p 2)
      ("anytls" ∷ "naive" ∷ []) 2 0 [] world tt tt
