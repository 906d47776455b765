-- ===== src/Sessions/Active.antt =====
-- hydra/services/active_connections.py: the active sessions, out of the daemon's counters.
pub mod Grouped
use hydra_ultimate.Base.{
  ℕ, ◌+◌, max, String, Bool, true, false, not, ◌&&◌, ◌||◌, Option, none, some, List, [], ◌∷◌,
  str_eq, leb, ◌==◌, if◌then◌else◌,
}
use hydra_ultimate.Base.Dict.{Dict}
use hydra_ultimate.Sessions.{Connection}

-- An entry of the view. A time is a number of seconds.
pub record ActiveConnection : Type 0 where
  pub plugin : String
  pub email : String
  pub online : Bool
  pub rx : ℕ
  pub tx : ℕ
  pub connections : ℕ
  pub last_handshake : ℕ
  pub traffic_scope : String

-- `traffic_daemon_fresh`, on `float(state.install.get("traffic_daemon_last_poll", 0))`, which is `none`
-- where it raises
unfoldable pub traffic_daemon_fresh : ℕ → Option ℕ → ℕ → Bool
traffic_daemon_fresh now none max_age = false
traffic_daemon_fresh now (some last_poll) max_age = leb now (last_poll + max_age)

-- The guards of the loop.
unfoldable pub counts : Connection → Bool
counts c =
    (c.missed_polls == 0)
    && not (str_eq c.protocol "" || str_eq c.protocol "unknown")
    && not (str_eq c.user "")

-- The entry that `setdefault` puts in.
abbrev pub opened : Connection → ActiveConnection
opened c = record {
  plugin = c.protocol;
  email = c.user;
  online = true;
  rx = 0;
  tx = 0;
  connections = 0;
  last_handshake = c.seen_at;
  traffic_scope = "active";
}

abbrev pub extended : Connection → ActiveConnection → ActiveConnection
extended c item = record item {
  rx = item.rx + c.download;
  tx = item.tx + c.upload;
  connections = item.connections + 1;
  last_handshake = max item.last_handshake c.seen_at;
}

-- `grouped.setdefault(key, …)`, and the updates of the entry
unfoldable pub join : Connection → List ActiveConnection → List ActiveConnection
join c [] = extended c (opened c) ∷ []
join c (item ∷ rest) =
    if str_eq item.plugin c.protocol && str_eq item.email c.user
    then extended c item ∷ rest
    else item ∷ join c rest

-- The loop over `counters.values()`.
unfoldable pub group : Dict Connection → List ActiveConnection → List ActiveConnection
unfolding counts join
group [] grouped = grouped
group ((id, c) ∷ rest) grouped = group rest (if counts c then join c grouped else grouped)

-- `tracked_active_connections`
unfoldable pub tracked_active_connections :
    Bool → ℕ → Option ℕ → Dict Connection → List ActiveConnection
unfolding traffic_daemon_fresh group
tracked_active_connections clash_api_enabled now last_poll counters =
    if not clash_api_enabled || not (traffic_daemon_fresh now last_poll 15)
    then []
    else group counters []
