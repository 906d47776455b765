-- ===== src/Sessions.antt =====
-- hydra/services/device_sessions.py: the devices that a user is connected from, and their limit.
pub mod Limit
pub mod Active
mod Tests
use hydra_ultimate.Base.{
  ℕ, ◌+◌, ◌-◌, String, Bool, true, false, not, ◌&&◌, ◌||◌, Option, none, some, List, [], ◌∷◌, ◌++◌,
  map, str_eq, ltb, leb, ◌==◌, if◌then◌else◌, any, keep, contains, length, take, drop, sorted, find,
}
use hydra_ultimate.Base.Dict.{Dict, lookup, insert, has_key, keys}
use hydra_ultimate.State.{User}
use hydra_ultimate.Base.Text.{text_leb}

-- A record of `traffic_connection_counters`. A time is a number of seconds.
pub record Connection : Type 0 where
  pub user : String
  pub protocol : String
  pub total : ℕ
  pub upload : ℕ
  pub download : ℕ
  pub credited_total : Option ℕ
  pub missed_polls : ℕ
  pub seen_at : ℕ
  pub address : String

-- A record of `device_sessions`, under the user and the address.
pub record Session : Type 0 where
  pub first_seen : ℕ
  pub last_seen : ℕ
  pub connections : ℕ
  pub bytes_total : ℕ
  pub allowed : Bool

abbrev pub max_sessions_per_user : ℕ
max_sessions_per_user = 32

abbrev or_empty : Option (Dict Session) → Dict Session
or_empty none = []
or_empty (some devices) = devices

abbrev pub devices_of : String → Dict (Dict Session) → Dict Session
devices_of user sessions = or_empty (lookup user sessions)

-- `setdefault(address, …)` and the two increments
abbrev count_in : ℕ → Connection → Option Session → Session
count_in now c none = record {
  first_seen = now;
  last_seen = now;
  connections = 1;
  bytes_total = c.total;
  allowed = true;
}
count_in now c (some s) = record s {
  connections = s.connections + 1;
  bytes_total = s.bytes_total + c.total;
}

abbrev pub is_live : Connection → Bool
is_live c = c.missed_polls == 0

abbrev is_counted : Connection → Bool
is_counted c = is_live c && not (str_eq c.user "") && not (str_eq c.address "")

unfoldable pub observe : ℕ → Connection → Dict (Dict Session) → Dict (Dict Session)
observe now c sessions =
    let devices = devices_of c.user sessions in
    if is_counted c
    then insert c.user (insert c.address (count_in now c (lookup c.address devices)) devices)
        sessions
    else sessions

-- `observed_devices`, over the values of the counters
unfoldable pub observed_devices : ℕ → List Connection → Dict (Dict Session) → Dict (Dict Session)
unfolding observe
observed_devices now [] sessions = sessions
observed_devices now (c ∷ rest) sessions = observed_devices now rest (observe now c sessions)

abbrev first_seen_or : ℕ → Option Session → ℕ
first_seen_or t none = t
first_seen_or t (some known) = known.first_seen

-- A device of the snapshot keeps the time at which it was first seen.
abbrev pub merge_known : ℕ → Dict Session → Dict Session → Dict Session
merge_known now previous [] = []
merge_known now previous ((address, s) ∷ rest) =
    (
      address,
      record s {
        first_seen = first_seen_or s.first_seen (lookup address previous);
        last_seen = now;
      },
    )
    ∷ merge_known now previous rest

-- The order by which a limit is enforced: the device seen first comes first.
abbrev pub seen_before : String × Session → String × Session → Bool
seen_before a b = leb a.1.first_seen b.1.first_seen

abbrev pub order : Dict Session → Dict Session
order merged = sorted seen_before merged

unfoldable pub over_limit : ℕ → Dict Session → List String
over_limit limit merged = if ltb 0 limit then keys (drop limit (order merged)) else []

abbrev pub mark : List String → Dict Session → Dict Session
mark refused [] = []
mark refused ((address, s) ∷ rest) =
    (address, record s { allowed = not (contains address refused) }) ∷ mark refused rest

-- The second half of `_retain`: the most recent devices, if there are too many.
abbrev pub newer : String × Session → String × Session → Bool
newer a b = leb b.1.last_seen a.1.last_seen

unfoldable pub newest : Dict Session → Dict Session
newest merged =
    if leb (length merged) max_sessions_per_user
    then merged
    else take max_sessions_per_user (sorted newer merged)

-- `now - float(last_seen) > ttl`
abbrev expired : ℕ → ℕ → Session → Bool
expired now ttl s = ltb ttl (now - s.last_seen)

unfoldable pub remember : ℕ → ℕ → Dict Session → Dict Session → Dict Session
remember now ttl merged [] = merged
remember now ttl merged ((address, s) ∷ rest) =
    remember now ttl
      (if has_key address merged || expired now ttl s
        then merged
        else insert address (record s { connections = 0 }) merged)
      rest

unfoldable pub retain : Dict Session → Dict Session → ℕ → ℕ → Dict Session
unfolding newest remember
retain active previous now ttl = newest (remember now ttl active previous)

-- What `update_sessions` makes of one user: the addresses over the limit and the sessions to keep.
unfoldable pub enforce : ℕ → ℕ → ℕ → Dict Session → Dict Session → List String × Dict Session
unfolding over_limit retain
enforce now ttl limit previous devices =
    let merged = merge_known now previous devices in
    let refused = over_limit limit merged in
    (refused, retain (mark refused merged) previous now ttl)

-- `limits.get(user, 0)`
abbrev pub limit_of : String → Dict ℕ → ℕ
limit_of user limits = elim (lookup user limits) [ none ↦ 0 | some limit ↦ limit ]

abbrev pub insert_unless_empty : {A : Type 0} → String → List A → Dict (List A) → Dict (List A)
insert_unless_empty user [] d = d
insert_unless_empty user (x ∷ xs) d = insert user (x ∷ xs) d

unfoldable pub enforce_all :
    ℕ
    → ℕ
    → Dict ℕ
    → Dict (Dict Session)
    → Dict (Dict Session)
    → Dict (List String) × Dict (Dict Session)
    → Dict (List String) × Dict (Dict Session)
unfolding enforce
enforce_all now ttl limits stored [] done = done
enforce_all now ttl limits stored ((user, devices) ∷ rest) (refused, result) =
    let (over, kept) = enforce now ttl (limit_of user limits) (devices_of user stored) devices in
    enforce_all now ttl limits stored rest
      (insert_unless_empty user over refused, insert user kept result)

unfoldable pub retain_absent :
    ℕ → ℕ → Dict (Dict Session) → Dict (Dict Session) → Dict (Dict Session)
unfolding retain
retain_absent now ttl [] result = result
retain_absent now ttl ((user, previous) ∷ rest) result =
    let kept = retain [] previous now ttl in
    retain_absent now ttl rest
      (if has_key user result then result else insert_unless_empty user kept result)

-- `{user.email: int(user.device_limit or 0) for user in state.users}`
abbrev pub limits_from : Dict ℕ → List User → Dict ℕ
limits_from limits [] = limits
limits_from limits (user ∷ rest) = limits_from (insert user.email user.device_limit limits) rest

-- `update_sessions`: the addresses over each limit, and the stored sessions
unfoldable pub update_sessions :
    ℕ
    → ℕ
    → List User
    → Dict Connection
    → Dict (Dict Session)
    → Dict (List String) × Dict (Dict Session)
unfolding observed_devices enforce_all retain_absent
update_sessions now ttl users counters stored =
    let observed = observed_devices now (map (λ entry. entry.1) counters) [] in
    let (refused, result) = enforce_all now ttl (limits_from [] users) stored observed ([], []) in
    (refused, retain_absent now ttl stored result)

-- `(user, address) in unwanted`
abbrev is_refused : Dict (List String) → Connection → Bool
is_refused refused c = elim (lookup c.user refused) [
  | none ↦ false
  | some over ↦ contains c.address over
]

-- `connections_to_close`
unfoldable pub connections_to_close : Dict (List String) → Dict Connection → List String
connections_to_close refused counters =
    sorted text_leb (keys (keep (λ entry. is_live entry.1 && is_refused refused entry.1) counters))
