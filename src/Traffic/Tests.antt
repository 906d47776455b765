-- ===== src/Traffic/Tests.antt =====
-- Runs of the accounting on one user's counters.
use hydra_ultimate.Base.{ℕ, ◌+◌, String, ◌≡◌, refl, true, false, Option, none, some, [], ◌∷◌, arith}
use hydra_ultimate.State.{User}
use hydra_ultimate.Traffic.Connections.{
  Item, apply_connection_snapshot, observe_all, observe, new_record, delta_of, credited_after,
  add_delta, source_address, age, credit_all, credit, credit_user, record_report_delta,
}
use hydra_ultimate.Traffic.{
  Accounts, accumulate_snapshot, update_by_email, accumulate, next_total, non_negative, counter,
}
use hydra_ultimate.Base.Value.{int_of}
use hydra_ultimate.Base.{sorted, All, ◌≤◌, ok, err, runtime_error}
use hydra_ultimate.Traffic.Refresh.{
  Access, credential_sum, refresh_user_traffic, refresh_protocols, refresh_protocol,
  ensure_report_totals, report_delta, protocol_total, legacy_protocol_totals,
}
use hydra_ultimate.Traffic.Totals.{Grows, Grows-refl, refresh_user_traffic-Grows}
use hydra_ultimate.Traffic.Credit.{
  deltas_sum, credited_once, used_by, earned_all, apply_connection_snapshot-used,
}
use hydra_ultimate.Base.Int.{pos}
use hydra_ultimate.Base.Dict.{lookup, insert}
use hydra_ultimate.Base.Value.{Value}
use hydra_ultimate.Traffic.{Stats, used, last_key, reset_stats}
use hydra_ultimate.Traffic.Monotone.{
  accumulate_all, total_growth, accumulate_all_lem, reset-accumulate_all,
}

abbrev counted : Stats
counted =
    ("traffic_used_bytes", Value.int (pos 500))
    ∷ ("traffic_last_raw_bytes", Value.int (pos 100))
    ∷ ("traffic_log_bytes", Value.int (pos 9))
    ∷ []

recorded : lookup last_key counted ≡ some (Value.int (pos 100))
unfolding lookup
recorded = refl

-- From 100 the counter rises to 130, starts again and reads 20, and rises to 50.
grown : total_growth 100 (130 ∷ 20 ∷ 50 ∷ []) ≡ 80
grown = refl

accumulate_all_example :
    used (accumulate_all (130 ∷ 20 ∷ 50 ∷ []) counted)
    ≡ used counted + total_growth 100 (130 ∷ 20 ∷ 50 ∷ [])
accumulate_all_example = accumulate_all_lem (130 ∷ 20 ∷ 50 ∷ []) counted 100 recorded

reset-accumulate_all_example :
    used (accumulate_all (130 ∷ 20 ∷ 50 ∷ []) (reset_stats counted))
    ≡ total_growth 100 (130 ∷ 20 ∷ 50 ∷ [])
reset-accumulate_all_example = reset-accumulate_all (130 ∷ 20 ∷ 50 ∷ []) counted 100 recorded

-- The connection carries 40 bytes before it is attributed, and 100 at the last poll.
credited_once_example :
    deltas_sum ((false, 40) ∷ (true, 70) ∷ (false, 90) ∷ (true, 100) ∷ []) 0 0 + 0 ≡ 100
credited_once_example =
    credited_once ((false, 40) ∷ (true, 70) ∷ (false, 90) ∷ (true, 100) ∷ []) 0 0 100 (omega arith)
      (omega arith, (omega arith, (omega arith, (omega arith, tt)))) refl

abbrev ann : User
ann = record {
  email = "ann";
  uuid = "u-1";
  traffic_limit_gb = record { num = 0; shift = 0 };
  traffic_used_bytes = 7;
  expiry_date = "";
  blocked = false;
  created_at = "";
  telegram_id = none;
  credentials = [];
  device_limit = 0;
  devices = [];
  hydrabox_jwe_key = "";
  configuration_name_overrides = [];
  disabled_protocols = [];
}

abbrev poll : Item
poll = record {
  id = "c1";
  upload = pos 30;
  download = pos 10;
  source_ip = "10.0.0.1";
  source_port = 4000;
}

abbrev identify : Item → String × String
identify item = ("ann", "naive")

abbrev resolve : String → ℕ → Option String
resolve protocol port = none

polled :
    used_by "ann"
      (apply_connection_snapshot identify resolve 5 (poll ∷ poll ∷ []) ([], ann ∷ [], [])).2
    ≡ 47
unfolding apply_connection_snapshot observe_all observe new_record delta_of credited_after add_delta
    source_address age credit_all credit credit_user record_report_delta lookup insert
polled = refl

apply_connection_snapshot-used_example :
    let (changed, active', users', reports') =
      apply_connection_snapshot identify resolve 5 (poll ∷ poll ∷ []) ([], ann ∷ [], []) in
    used_by "ann" users'
    ≡ used_by "ann" (ann ∷ []) + earned_all identify resolve 5 "ann" (poll ∷ poll ∷ []) ([], [])
apply_connection_snapshot-used_example =
    apply_connection_snapshot-used identify resolve 5 "ann" (poll ∷ poll ∷ []) [] (ann ∷ []) [] refl

-- One protocol whose snapshot can be read; its logs cannot.
abbrev access : Access Unit
access = record {
  enabled_names = λ accounts. "naive" ∷ [];
  ingest_traffic = λ protocol acc. (err (runtime_error "no log"), acc);
  traffic_snapshot = λ protocol accounts host. ok (some (("ann", Value.int (pos 60)) ∷ []));
  aggregate_traffic_snapshot = λ protocol accounts host. ok none;
}

abbrev accounts : Accounts
accounts = record { users = ann ∷ []; reports = none; protocol_totals = []; reset_epochs = [] }

refreshed : used_by "ann" (refresh_user_traffic access (accounts, tt)).0.users ≡ 60
unfolding refresh_user_traffic refresh_protocols refresh_protocol ensure_report_totals sorted
    accumulate_snapshot update_by_email accumulate next_total non_negative counter lookup insert
    int_of report_delta protocol_total legacy_protocol_totals record_report_delta
refreshed = refl

refresh_user_traffic_example :
    Grows accounts.users (refresh_user_traffic access (accounts, tt)).0.users
    × All
        (λ u. credential_sum u.credentials ≤ u.traffic_used_bytes)
        (refresh_user_traffic access (accounts, tt)).0.users
refresh_user_traffic_example =
    refresh_user_traffic-Grows access (λ protocol acc. Grows-refl acc.0.users) accounts tt
