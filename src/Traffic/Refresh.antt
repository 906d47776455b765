-- ===== src/Traffic/Refresh.antt =====
-- `refresh_user_traffic` and the report totals: what the plugins count becomes the users' totals.
use hydra_ultimate.Base.{
  ℕ, ◌+◌, ◌-◌, max, String, Option, none, some, List, [], ◌∷◌, map, ltb, ◌==◌, if◌then◌else◌,
  sorted, Result, ok, err, Exec,
}
use hydra_ultimate.Base.Text.{text_leb}
use hydra_ultimate.Base.Dict.{Dict, lookup, insert}
use hydra_ultimate.Base.Value.{Value}
use hydra_ultimate.State.{User}
use hydra_ultimate.Traffic.{
  Accounts, Stats, used, number, accumulate_snapshot, accumulate_protocol_total,
}
use hydra_ultimate.Traffic.Connections.{record_report_delta}

abbrev or_zero : Option ℕ → ℕ
or_zero none = 0
or_zero (some n) = n

-- The bodies of the two loops of `_legacy_protocol_totals`.
abbrev add_used : String → Stats → Dict ℕ → Dict ℕ
add_used protocol stats totals =
    if used stats == 0
    then totals
    else insert protocol (or_zero (lookup protocol totals) + used stats) totals

abbrev raise_used : String → Stats → Dict ℕ → Dict ℕ
raise_used protocol stats totals =
    if used stats == 0
    then totals
    else insert protocol (max (or_zero (lookup protocol totals)) (used stats)) totals

abbrev each_stats : (String → Stats → Dict ℕ → Dict ℕ) → Dict Stats → Dict ℕ → Dict ℕ
each_stats f [] totals = totals
each_stats f ((protocol, stats) ∷ rest) totals = each_stats f rest (f protocol stats totals)

abbrev users_totals : List User → Dict ℕ → Dict ℕ
users_totals [] totals = totals
users_totals (user ∷ rest) totals = users_totals rest (each_stats add_used user.credentials totals)

-- `_legacy_protocol_totals`
unfoldable pub legacy_protocol_totals : Accounts → Dict ℕ
legacy_protocol_totals accounts =
    each_stats raise_used accounts.protocol_totals (users_totals accounts.users [])

abbrev as_values : Dict ℕ → Dict Value
as_values totals = map (λ entry. (entry.0, number entry.1)) totals

abbrev reports_or : Dict Value → Option (Dict Value) → Dict Value
reports_or fallback none = fallback
reports_or fallback (some reports) = reports

abbrev reports_of : Accounts → Dict Value
reports_of accounts = reports_or (as_values (legacy_protocol_totals accounts)) accounts.reports

-- `ensure_report_totals`
unfoldable pub ensure_report_totals : Accounts → Accounts
unfolding legacy_protocol_totals
ensure_report_totals accounts = record accounts { reports = some (reports_of accounts) }

-- `record_report_delta`
unfoldable pub report_delta : String → ℕ → Accounts → Accounts
unfolding legacy_protocol_totals
report_delta protocol delta accounts =
    if ltb 0 delta
    then record accounts {
      reports = some (record_report_delta protocol delta (reports_of accounts));
    }
    else accounts

-- `_protocol_total`
unfoldable pub protocol_total : String → Accounts → ℕ
protocol_total protocol accounts = or_zero (lookup protocol (legacy_protocol_totals accounts))

-- `TrafficProtocolAccess` on a host `H`, which holds the logs and the cursors in them.
pub record Access (H : Type 0) : Type 0 where
  pub enabled_names : Accounts → List String
  pub ingest_traffic : String → Exec (Accounts × H) (Unit {0})
  pub traffic_snapshot : String → Accounts → H → Result (Option (Dict Value))
  pub aggregate_traffic_snapshot : String → Accounts → H → Result (Option Value)

abbrev pub with_snapshot : String → Result (Option (Dict Value)) → Accounts → Accounts
with_snapshot protocol (ok (some snapshot)) accounts = record accounts {
  users = accumulate_snapshot protocol snapshot accounts.users;
}
with_snapshot protocol (ok none) accounts = accounts
with_snapshot protocol (err exc) accounts = accounts

abbrev pub with_aggregate : String → Result (Option Value) → Accounts → Accounts
with_aggregate protocol (ok (some raw)) accounts = accumulate_protocol_total protocol raw accounts
with_aggregate protocol (ok none) accounts = accounts
with_aggregate protocol (err exc) accounts = accounts

abbrev pub credential_sum : Dict Stats → ℕ
credential_sum [] = 0
credential_sum ((protocol, stats) ∷ rest) = used stats + credential_sum rest

-- The last loop: a total is never reduced.
abbrev pub rebuild : User → User
rebuild user = record user {
  traffic_used_bytes = max user.traffic_used_bytes (credential_sum user.credentials);
}

module _ {H : Type 0} (access : Access H) where
  open access use {enabled_names, ingest_traffic, traffic_snapshot, aggregate_traffic_snapshot}

  -- One round of the loop over the protocols. A source that raises keeps what it has written.
  unfoldable pub refresh_protocol : String → Accounts × H → Accounts × H
  unfolding protocol_total report_delta
  refresh_protocol protocol (accounts, host) =
      let before = protocol_total protocol accounts in
      let (done, (ingested, host')) = ingest_traffic protocol (accounts, host) in
      let counted = with_snapshot protocol (traffic_snapshot protocol ingested host') ingested in
      let summed =
        with_aggregate protocol (aggregate_traffic_snapshot protocol counted host') counted in
      (report_delta protocol (protocol_total protocol summed - before) summed, host')

  unfoldable pub refresh_protocols : List String → Accounts × H → Accounts × H
  unfolding refresh_protocol
  refresh_protocols [] acc = acc
  refresh_protocols (protocol ∷ rest) acc = refresh_protocols rest (refresh_protocol protocol acc)

  -- `refresh_user_traffic`
  unfoldable pub refresh_user_traffic : Accounts × H → Accounts × H
  unfolding refresh_protocols ensure_report_totals
  refresh_user_traffic (accounts, host) =
      let names = sorted text_leb (enabled_names accounts) in
      let (collected, host') = refresh_protocols names (ensure_report_totals accounts, host) in
      (record collected { users = map rebuild collected.users }, host')
