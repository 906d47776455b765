-- ===== src/Traffic/Totals.antt =====
-- What a refresh does to the totals of the users.
use mathlib.Core.Path.{subst}
use hydra_ultimate.Base.{
  ℕ, ◌-◌, ◌≤◌, String, ◌≡◌, refl, sym, ◌∙◌, Bool, true, false, Option, none, some, List, [], ◌∷◌,
  map, arith, All, str_eq, if◌then◌else◌, sorted, Result, ok, err, any,
}
use hydra_ultimate.Base.Text.{text_leb}
use hydra_ultimate.Base.Dict.{Dict}
use hydra_ultimate.Base.Value.{Value}
use hydra_ultimate.State.{User}
use hydra_ultimate.Traffic.{
  Accounts, Stats, accumulate_snapshot, accumulate_protocol_total, update_by_email, update_stats,
  accumulate, non_negative,
}
use hydra_ultimate.Traffic.Refresh.{
  ensure_report_totals, report_delta, protocol_total, Access, with_snapshot, with_aggregate,
  credential_sum, rebuild, refresh_protocol, refresh_protocols, refresh_user_traffic,
}

-- The same users in the same order, each with a total that is not lower.
abbrev pub Grows : List User → List User → Type 0
Grows [] [] = Unit
Grows [] (v ∷ vs) = ⊥
Grows (u ∷ us) [] = ⊥
Grows (u ∷ us) (v ∷ vs) =
    (v.email ≡ u.email) × (u.traffic_used_bytes ≤ v.traffic_used_bytes) × Grows us vs

pub Grows-refl : (us : List User) → Grows us us
Grows-refl [] = tt
Grows-refl (u ∷ us) = (refl, omega arith, Grows-refl us)

Grows-trans : (us vs ws : List User) → Grows us vs → Grows vs ws → Grows us ws
Grows-trans [] [] ws h k = k
Grows-trans (u ∷ us) (v ∷ vs) [] h k = k
Grows-trans (u ∷ us) (v ∷ vs) (w ∷ ws) h k = (k.0 ∙ h.0, omega arith, Grows-trans us vs ws h.2 k.2)
Grows-trans [] (v ∷ vs) ws h k = absurd h
Grows-trans (u ∷ us) [] ws h k = absurd h

update_by_email-Grows :
    (protocol email : String) (f : Stats → Stats) (us : List User)
    → Grows us (update_by_email email (update_stats protocol f) us)
unfolding update_by_email
update_by_email-Grows protocol email f [] = tt
update_by_email-Grows protocol email f (u ∷ us) =
    go (any (λ other. str_eq other.email email) us) (str_eq u.email email)
      (update_by_email-Grows protocol email f us)
  where
    go :
        (later here : Bool)
        → Grows us (update_by_email email (update_stats protocol f) us)
        → Grows (u ∷ us) (
            if later
            then u ∷ update_by_email email (update_stats protocol f) us
            else if here
            then update_stats protocol f u ∷ us
            else u ∷ us)
    go true here rest = (refl, omega arith, rest)
    go false true rest = (refl, omega arith, Grows-refl us)
    go false false rest = Grows-refl (u ∷ us)

accumulate_snapshot-Grows :
    (protocol : String) (snapshot : Dict Value) (us : List User)
    → Grows us (accumulate_snapshot protocol snapshot us)
unfolding accumulate_snapshot
accumulate_snapshot-Grows protocol [] us = Grows-refl us
accumulate_snapshot-Grows protocol ((email, raw) ∷ rest) us =
    let f = λ (stats : Stats). accumulate stats (non_negative raw) in
    let next = update_by_email email (update_stats protocol f) us in
    Grows-trans us next (accumulate_snapshot protocol rest next)
      (update_by_email-Grows protocol email f us) (accumulate_snapshot-Grows protocol rest next)

rebuild-Grows : (us : List User) → Grows us (map rebuild us)
rebuild-Grows [] = tt
rebuild-Grows (u ∷ us) = (refl, omega arith, rebuild-Grows us)

rebuild-covers :
    (us : List User)
    → All (λ u. credential_sum u.credentials ≤ u.traffic_used_bytes) (map rebuild us)
rebuild-covers [] = tt
rebuild-covers (u ∷ us) = (omega arith, rebuild-covers us)

with_snapshot-Grows :
    (protocol : String) (result : Result (Option (Dict Value))) (accounts : Accounts)
    → Grows accounts.users (with_snapshot protocol result accounts).users
with_snapshot-Grows protocol (ok (some snapshot)) accounts =
    accumulate_snapshot-Grows protocol snapshot accounts.users
with_snapshot-Grows protocol (ok none) accounts = Grows-refl accounts.users
with_snapshot-Grows protocol (err exc) accounts = Grows-refl accounts.users

with_aggregate-users :
    (protocol : String) (result : Result (Option Value)) (accounts : Accounts)
    → (with_aggregate protocol result accounts).users ≡ accounts.users
unfolding accumulate_protocol_total
with_aggregate-users protocol (ok (some raw)) accounts = refl
with_aggregate-users protocol (ok none) accounts = refl
with_aggregate-users protocol (err exc) accounts = refl

report_delta-users :
    (protocol : String) (delta : ℕ) (accounts : Accounts)
    → (report_delta protocol delta accounts).users ≡ accounts.users
unfolding report_delta
report_delta-users protocol delta accounts = ground arith

-- A plugin that reads its logs lowers no total and keeps the users.
abbrev pub IngestGrows : {H : Type 0} → Access H → Type 0
IngestGrows {H} access =
    (protocol : String) (acc : Accounts × H)
    → Grows acc.0.users (access.ingest_traffic protocol acc).1.0.users

module _ {H : Type 0} (access : Access H) (grows : IngestGrows access) where
  open access use {enabled_names, ingest_traffic, traffic_snapshot, aggregate_traffic_snapshot}

  refresh_protocol-Grows :
      (protocol : String) (acc : Accounts × H)
      → Grows acc.0.users (refresh_protocol access protocol acc).0.users
  unfolding refresh_protocol
  refresh_protocol-Grows protocol acc =
      let (ingested, host') = (ingest_traffic protocol acc).1 in
      let counted = with_snapshot protocol (traffic_snapshot protocol ingested host') ingested in
      let result = aggregate_traffic_snapshot protocol counted host' in
      let summed = with_aggregate protocol result counted in
      let delta = protocol_total protocol summed - protocol_total protocol acc.0 in
      subst (Grows acc.0.users)
        (sym
          (report_delta-users protocol delta summed ∙ with_aggregate-users protocol result counted))
        (Grows-trans acc.0.users ingested.users counted.users (grows protocol acc)
          (with_snapshot-Grows protocol (traffic_snapshot protocol ingested host') ingested))

  refresh_protocols-Grows :
      (names : List String) (acc : Accounts × H)
      → Grows acc.0.users (refresh_protocols access names acc).0.users
  unfolding refresh_protocols
  refresh_protocols-Grows [] acc = Grows-refl acc.0.users
  refresh_protocols-Grows (protocol ∷ rest) acc =
      let next = refresh_protocol access protocol acc in
      Grows-trans acc.0.users next.0.users (refresh_protocols access rest next).0.users
        (refresh_protocol-Grows protocol acc) (refresh_protocols-Grows rest next)

  -- A refresh keeps the users and lowers no total, also where sources of the plugins raise or their
  -- counters start again, and afterwards each total covers the sum of the user's counters. This
  -- supposes that reading the logs keeps the users and lowers no total.
  pub refresh_user_traffic-Grows :
      (accounts : Accounts) (host : H)
      → Grows accounts.users (refresh_user_traffic access (accounts, host)).0.users
        × All
            (λ u. credential_sum u.credentials ≤ u.traffic_used_bytes)
            (refresh_user_traffic access (accounts, host)).0.users
  unfolding refresh_user_traffic ensure_report_totals
  refresh_user_traffic-Grows accounts host =
      let names = sorted text_leb (enabled_names accounts) in
      let collected = (refresh_protocols access names (ensure_report_totals accounts, host)).0 in
      (
        Grows-trans accounts.users collected.users (map rebuild collected.users)
            (refresh_protocols-Grows names (ensure_report_totals accounts, host))
            (rebuild-Grows collected.users),
        rebuild-covers collected.users,
      )
