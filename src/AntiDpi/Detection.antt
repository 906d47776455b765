-- ===== src/AntiDpi/Detection.antt =====
-- hydra/plugins/antidpi/detection.py: what is decided of one event, and the ban that follows.
use hydra_ultimate.Base.{
  ℕ, ◌+◌, ◌%◌, String, Bool, false, some, List, [], ◌∷◌, ◌++◌, ◌==◌, if◌then◌else◌, or_default,
}
use hydra_ultimate.Base.Dict.{Dict, lookup, insert, has_key}
use hydra_ultimate.Base.Text.{prefix}
use hydra_ultimate.AntiDpi.{
  Ban, Data, Address, active_bans, expire_bans, prune_ban_counts, newest_history, new_item,
}
use hydra_ultimate.AntiDpi.Evidence.{evidence_signal}

pub record Observation : Type 0 where
  pub address : String
  pub event : Dict String
  pub timestamp : ℕ
  pub enforced_at : ℕ
  pub source : String
  pub signals : List String
  pub active_ban : Bool

abbrev pub get : String → String → Dict String → String
unfolding lookup
get key default event = or_default (lookup key event) default

unfoldable pub observe_state : Address → Dict String → ℕ → ℕ → Data → Observation × Data
unfolding lookup prefix active_bans expire_bans prune_ban_counts
observe_state parsed event timestamp enforced_at d =
    let source = prefix 80 (get "source" "unknown" event) in
    let counted = record d {
      events = d.events + 1;
      last_event_at = timestamp;
      last_event_source = source;
    } in
    let swept =
      if counted.events % 256 == 0
      then prune_ban_counts enforced_at (expire_bans enforced_at counted)
      else counted in
    let signal = evidence_signal event in
    (
      record {
        address = parsed.compressed;
        event = event;
        timestamp = timestamp;
        enforced_at = enforced_at;
        source = source;
        signals = signal ∷ [];
        active_ban = has_key (parsed.compressed) (active_bans enforced_at swept.banned);
      },
      swept,
    )

abbrev automatic_metadata : Observation → ℕ → ℕ → Ban
unfolding lookup prefix
automatic_metadata o duration offense_count = record {
  at = o.enforced_at;
  signals = o.signals;
  source = o.source;
  protocol = prefix 40 (get "protocol" "unknown" o.event);
  kind = prefix 80 (get "kind" (get "reason" "anomaly" o.event) o.event);
  reason = some (prefix 80 (get "reason" "" o.event));
  attribution = some (prefix 20 (get "attribution" "" o.event));
  duration = duration;
  offense_count = offense_count;
  permanent = false;
}

unfoldable pub record_automatic_ban : Observation → ℕ → Data → Ban × Data
unfolding lookup insert prefix
record_automatic_ban o duration d =
    let offense_count = or_default (lookup o.address d.ban_counts) 0 + 1 in
    let metadata = automatic_metadata o duration offense_count in
    (
      metadata,
      record d {
        ban_counts = insert o.address offense_count d.ban_counts;
        banned = insert o.address metadata d.banned;
        history = newest_history (d.history ++ (new_item o.address metadata ∷ []));
      },
    )
