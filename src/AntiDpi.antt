-- ===== src/AntiDpi.antt =====
-- hydra/plugins/antidpi/model.py: the bans of the AntiDPI detector,
-- their history and the escalation counts. Times are whole seconds. The scores that earlier versions
-- left in the document are not modelled, and nothing reads them for a decision.
pub mod Evidence
pub mod Detection
pub mod Detector
pub mod Management
pub mod Blocked
pub mod Firewall
pub mod Agreement
pub mod Runs
pub mod Proven
pub mod Discards
pub mod Answers
mod Tests
use hydra_ultimate.Base.{
  ℕ, zero, suc, ◌+◌, ◌-◌, ◌%◌, String, Bool, true, false, not, ◌&&◌, ◌||◌, Option, none, some, List,
  [], ◌∷◌, ◌++◌, str_eq, ◌==◌, ltb, leb, if◌then◌else◌, or_default, is_some, length, drop, keep,
  any, contains,
}
use hydra_ultimate.Base.Dict.{Dict, lookup, insert, erase, has_key, keys}
use hydra_ultimate.Base.Text.{prefix}

-- The metadata of a ban; a manual ban has no reason and no attribution.
pub record Ban : Type 0 where
  pub at : ℕ
  pub signals : List String
  pub source : String
  pub protocol : String
  pub kind : String
  pub reason : Option String
  pub attribution : Option String
  pub duration : ℕ
  pub offense_count : ℕ
  pub permanent : Bool

pub data Status : Type 0 where
  active : Status
  expired : ℕ → Status
  unbanned : ℕ → Status
  failed : ℕ → Status

pub record HistoryItem : Type 0 where
  pub ip : String
  pub ban : Ban
  pub status : Status

pub record Failures : Type 0 where
  pub count : ℕ
  pub last_at : ℕ
  pub last_ip : String

-- The document of the detector; a key that is missing is the default with which it is read.
pub record Data : Type 0 where
  pub banned : Dict Ban
  pub ban_counts : Dict ℕ
  pub history : List HistoryItem
  pub whitelist : List String
  pub events : ℕ
  pub last_event_at : ℕ
  pub last_event_source : String
  pub journal_cursor : String
  pub ban_failures : Failures
  pub last_ban_notification_at : ℕ
  pub suppressed_ban_notifications : ℕ

-- `ipaddress.IPv4Address | ipaddress.IPv6Address`
pub record Address : Type 0 where
  pub compressed : String
  pub is_loopback : Bool
  pub is_link_local : Bool

-- `BAN_DURATIONS`, of which the last one is repeated
unfoldable pub get_ban_duration : ℕ → ℕ
get_ban_duration zero = 600
get_ban_duration (suc zero) = 600
get_ban_duration (suc (suc zero)) = 3600
get_ban_duration (suc (suc (suc zero))) = 86400
get_ban_duration (suc (suc (suc (suc n)))) = 604800

abbrev default_trusted_networks : List String
default_trusted_networks = "10.0.0.0/8" ∷ "172.16.0.0/12" ∷ "192.168.0.0/16" ∷ "fc00::/7" ∷ []

-- `inside address raw` is `address in ipaddress.ip_network(raw, strict=False)`, and `false` on a text
-- that is no network.
unfoldable pub is_whitelisted :
    (Address → String → Bool) → Address → List String → List String → Bool
is_whitelisted inside address configured host_addresses =
    address.is_loopback
    || address.is_link_local
    || contains (address.compressed) host_addresses
    || any (inside address) (default_trusted_networks ++ configured)

-- The test of `active_bans` and the opposite of that of `expire_bans`
unfoldable pub is_active : ℕ → Ban → Bool
is_active now b = b.permanent || ltb now (b.at + b.duration)

unfoldable pub active_bans : ℕ → Dict Ban → Dict Ban
active_bans now banned = keep (λ (entry : String × Ban). is_active now entry.1) banned

abbrev is_status_active : Status → Bool
is_status_active active = true
is_status_active (expired at) = false
is_status_active (unbanned at) = false
is_status_active (failed at) = false

-- The history loop of `expire_bans`
abbrev pub expire_history : ℕ → Dict Ban → List HistoryItem → List HistoryItem
expire_history now banned [] = []
expire_history now banned (item ∷ items) =
    (if is_status_active item.status && not (has_key item.ip banned)
      then record item { status = expired now }
      else item)
    ∷ expire_history now banned items

unfoldable pub expire_bans : ℕ → Data → Data
unfolding active_bans lookup
expire_bans now d = record d {
  banned = active_bans now d.banned;
  history = expire_history now (active_bans now d.banned) d.history;
}

abbrev in_history : String → List HistoryItem → Bool
in_history address [] = false
in_history address (item ∷ items) =
    (str_eq item.ip address && not (str_eq address "")) || in_history address items

unfoldable pub prune_ban_counts : ℕ → Data → Data
unfolding active_bans lookup
prune_ban_counts now d = record d {
  ban_counts =
      keep
        (λ (entry : String × ℕ).
          has_key entry.0 (active_bans now d.banned) || in_history entry.0 d.history)
        d.ban_counts;
}

unfoldable pub record_ban_failure : String → ℕ → Data → Data
unfolding prefix
record_ban_failure address now d = record d {
  ban_failures = record {
    count = d.ban_failures.count + 1;
    last_at = now;
    last_ip = prefix 64 address;
  };
}

-- The newest item of the address that is active takes the place that `close` gives it; there may be
-- none. The Boolean tells whether there was one.
unfoldable pub close_newest :
    String → (HistoryItem → HistoryItem) → List HistoryItem → Bool × List HistoryItem
close_newest address close [] = (false, [])
close_newest address close (item ∷ items) =
    let rest = close_newest address close items in
    if rest.0
    then (true, item ∷ rest.1)
    else if str_eq item.ip address && is_status_active item.status
    then (true, close item ∷ items)
    else (false, item ∷ items)

unfoldable pub record_unban : String → ℕ → Data → Data
unfolding erase close_newest
record_unban address now d = record d {
  banned = erase address d.banned;
  history = (close_newest address (λ item. record item { status = unbanned now }) d.history).1;
}

-- `history[-MAX_HISTORY_ENTRIES:]`
abbrev pub max_history_entries : ℕ
max_history_entries = 1000

abbrev pub newest_history : List HistoryItem → List HistoryItem
newest_history items = drop (length items - max_history_entries) items

-- The ban that `record_manual_ban` writes over the current one, if there is one.
abbrev manual_offenses : String → Option Ban → Dict ℕ → ℕ
manual_offenses address (some current) counts =
    if leb 1 current.offense_count then current.offense_count else 1
manual_offenses address none counts = or_default (lookup address counts) 0 + 1

abbrev pub manual_metadata : String → String → ℕ → Option Ban → Data → Ban
unfolding lookup prefix
manual_metadata address source timestamp current d = record {
  at = timestamp;
  signals = "manual_ban" ∷ [];
  source = prefix 80 source;
  protocol = "manual";
  kind = "manual_ban";
  reason = none;
  attribution = none;
  duration = 0;
  offense_count = manual_offenses address current d.ban_counts;
  permanent = true;
}

abbrev pub new_item : String → Ban → HistoryItem
new_item address metadata = record { ip = address; ban = metadata; status = active }

-- The newest active item is promoted when there is a current ban, and else an item is added.
abbrev promote : String → Ban → Option Ban → List HistoryItem → List HistoryItem
unfolding close_newest
promote address metadata none items = items ++ (new_item address metadata ∷ [])
promote address metadata (some current) items =
    let promoted = close_newest address (λ item. new_item address metadata) items in
    if promoted.0 then promoted.1 else items ++ (new_item address metadata ∷ [])

unfoldable pub record_manual_ban : String → String → ℕ → Option Ban → Data → Data
unfolding insert lookup prefix close_newest
record_manual_ban address source timestamp current d =
    let metadata = manual_metadata address source timestamp current d in
    record d {
      ban_counts = insert address metadata.offense_count d.ban_counts;
      banned = insert address metadata d.banned;
      history = newest_history (promote address metadata current d.history);
    }
