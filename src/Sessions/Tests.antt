-- ===== src/Sessions/Tests.antt =====
-- Runs of the device limit on three devices, of which two are allowed.
use hydra_ultimate.Base.{
  some, ℕ, ◌-◌, ◌≤◌, ◌≡◌, refl, true, ◌&&◌, if◌then◌else◌, [], ◌∷◌, arith, All, keep, length, take,
  drop, sorted,
}
use hydra_ultimate.Sessions.Active.{traffic_daemon_fresh, tracked_active_connections}
use hydra_ultimate.Sessions.Active.Grouped.{
  shown, summary, records_of, tracked_active_connections_lem,
}
use hydra_ultimate.Base.Dict.{Dict, keys}
use hydra_ultimate.Sessions.{Session, Connection, order, over_limit, mark, update_sessions}
use hydra_ultimate.Sessions.Limit.{over_limit_lem, allowed_within_limit, update_sessions-bounded}

abbrev seen : ℕ → Session
seen first = record {
  first_seen = first;
  last_seen = 90;
  connections = 1;
  bytes_total = 5;
  allowed = true;
}

abbrev three : Dict Session
three = ("b", seen 20) ∷ ("c", seen 30) ∷ ("a", seen 10) ∷ []

newcomer : over_limit 2 three ≡ "c" ∷ []
unfolding over_limit sorted
newcomer = refl

over_limit_example :
    (over_limit 2 three ≡ keys (drop 2 (order three)))
    × (length (over_limit 2 three) ≡ length three - 2)
    × All
        (λ a. All (λ b. a.1.first_seen ≤ b.1.first_seen) (drop 2 (order three)))
        (take 2 (order three))
over_limit_example = over_limit_lem 2 three (omega arith)

allowed_within_limit_example :
    length (keep (λ entry. entry.1.allowed) (mark (over_limit 2 three) three)) ≤ 2
allowed_within_limit_example = allowed_within_limit 2 three (omega arith)

abbrev counters : Dict Connection
counters =
    (
      "1",
      record {
        user = "ann";
        protocol = "naive";
        total = 9;
        upload = 4;
        download = 5;
        credited_total = some 9;
        missed_polls = 0;
        seen_at = 90;
        address = "a";
      },
    )
    ∷ []

update_sessions-bounded_example :
    All (λ entry. length entry.1 ≤ 32) (update_sessions 90 600 [] counters (("ann", three) ∷ [])).1
update_sessions-bounded_example = update_sessions-bounded 90 600 [] counters (("ann", three) ∷ [])

abbrev seen_counter : ℕ → ℕ → Connection
seen_counter missed at = record {
  user = "ann";
  protocol = "naive";
  total = 9;
  upload = 4;
  download = 5;
  credited_total = some 9;
  missed_polls = missed;
  seen_at = at;
  address = "a";
}

abbrev polled : Dict Connection
polled = ("1", seen_counter 0 90) ∷ ("2", seen_counter 1 95) ∷ ("3", seen_counter 0 80) ∷ []

shown_once :
    tracked_active_connections true 100 (some 90) polled
    ≡ record {
      plugin = "naive";
      email = "ann";
      online = true;
      rx = 10;
      tx = 8;
      connections = 2;
      last_handshake = 90;
      traffic_scope = "active";
    }
      ∷ []
unfolding tracked_active_connections
shown_once = refl

shown_stale : tracked_active_connections true 110 (some 90) polled ≡ []
unfolding tracked_active_connections
shown_stale = refl

tracked_active_connections_example :
    shown "naive" "ann" (tracked_active_connections true 100 (some 90) polled) ≡ (
      if true && traffic_daemon_fresh 100 (some 90) 15
      then summary "naive" "ann" (records_of "naive" "ann" polled)
      else [])
tracked_active_connections_example =
    tracked_active_connections_lem "naive" "ann" true 100 (some 90) polled
