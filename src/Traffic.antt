-- ===== src/Traffic.antt =====
-- hydra/services/traffic.py and hydra/services/traffic_accounting.py: totals that only grow, out of
-- counters that may start again from zero.
pub mod Monotone
pub mod Connections
pub mod Credit
pub mod Refresh
pub mod Totals
mod Tests
use hydra_ultimate.Base.{
  ℕ, ◌+◌, ◌-◌, ◌*◌, ◌/◌, ◌^◌, max, String, Bool, true, false, not, ◌&&◌, Option, none, some, List,
  [], ◌∷◌, ◌++◌, map, str_eq, ltb, leb, ◌==◌, if◌then◌else◌, any, keep, find, concat, Result, ok,
  err, value_error,
}
use hydra_ultimate.Base.Int.{ℤ, pos, pos_part}
use hydra_ultimate.Base.Dict.{Dict, lookup, insert, erase, keys}
use hydra_ultimate.Base.Value.{Value, int_of}
use hydra_ultimate.State.{User, Gigabytes}
use text.Mathlib.Text

-- One protocol's counters, of a user or of a whole protocol.
abbrev pub Stats : Type 0
Stats = Dict Value

-- The parts of `AppState` that the accounting reads and writes: the users, and the sections
-- `traffic_report_totals`, `protocol_traffic_totals` and `traffic_user_reset_epochs` of `install`.
pub record Accounts : Type 0 where
  pub users : List User
  pub reports : Option (Dict Value)
  pub protocol_totals : Dict Stats
  pub reset_epochs : Dict Value

abbrev non_negative_int : Option ℤ → ℕ
non_negative_int none = 0
non_negative_int (some z) = pos_part z

-- `_non_negative` and `_as_non_negative_int`: `max(0, int(value))`, or 0 where that raises
unfoldable pub non_negative : Value → ℕ
non_negative value = non_negative_int (int_of value)

abbrev pub number : ℕ → Value
number n = Value.int (pos n)

abbrev non_negative_or_zero : Option Value → ℕ
non_negative_or_zero none = 0
non_negative_or_zero (some value) = non_negative value

-- `_non_negative(d.get(key, 0))`
unfoldable pub counter : String → Dict Value → ℕ
unfolding non_negative
counter key d = non_negative_or_zero (lookup key d)

-- `d.get(key)`: `None` where the key is missing or holds `None`.
abbrev pub present : Option Value → Option Value
present none = none
present (some Value.null) = none
present (some value) = some value

abbrev pub used_key : String
used_key = "traffic_used_bytes"

abbrev pub last_key : String
last_key = "traffic_last_raw_bytes"

abbrev pub used : Stats → ℕ
used stats = counter used_key stats

-- The next total, from the total so far, the raw value seen before, if any, and the raw value now.
unfoldable pub next_total : ℕ → Option ℕ → ℕ → ℕ
next_total accumulated none raw = max accumulated raw
next_total accumulated (some previous) raw =
    if leb previous raw then accumulated + (raw - previous) else accumulated + raw

abbrev pub previous_raw : Option Value → Option ℕ
previous_raw none = none
previous_raw (some value) = some (non_negative value)

-- The body of the loop of `_accumulate_snapshot`, and of `_accumulate_protocol_total`.
unfoldable pub accumulate : Stats → ℕ → Stats
unfolding next_total non_negative
accumulate stats raw =
    let previous = previous_raw (present (lookup last_key stats)) in
    let total = next_total (counter used_key stats) previous raw in
    insert used_key (number total) (insert last_key (number raw) stats)

-- `d.setdefault(key, {})`
abbrev pub section_or_empty : String → Dict Stats → Stats
section_or_empty key d = elim (lookup key d) [ none ↦ [] | some stats ↦ stats ]

-- An update of the user that `{user.email: user for user in state.users}` has for an e-mail, which is
-- the last one with it.
unfoldable pub update_by_email : String → (User → User) → List User → List User
update_by_email email f [] = []
update_by_email email f (user ∷ rest) =
    if any (λ other. str_eq other.email email) rest
    then user ∷ update_by_email email f rest
    else if str_eq user.email email
    then f user ∷ rest
    else user ∷ rest

abbrev pub update_stats : String → (Stats → Stats) → User → User
update_stats protocol f user = record user {
  credentials = insert protocol (f (section_or_empty protocol user.credentials)) user.credentials;
}

-- `_accumulate_snapshot`
unfoldable pub accumulate_snapshot : String → Dict Value → List User → List User
unfolding accumulate update_by_email
accumulate_snapshot protocol [] users = users
accumulate_snapshot protocol ((email, raw) ∷ rest) users = accumulate_snapshot protocol rest (
    update_by_email email (update_stats protocol (λ stats. accumulate stats (non_negative raw)))
      users)

-- `_accumulate_protocol_total`
unfoldable pub accumulate_protocol_total : String → Value → Accounts → Accounts
unfolding accumulate
accumulate_protocol_total protocol raw accounts = record accounts {
  protocol_totals =
      insert protocol
        (accumulate (section_or_empty protocol accounts.protocol_totals) (non_negative raw))
        accounts.protocol_totals;
}

-- `key.startswith("traffic_") and key != "traffic_last_raw_bytes"`
abbrev pub dropped_by_reset : String → Bool
dropped_by_reset key = Text.starts_with key "traffic_" && not (str_eq key last_key)

abbrev pub reset_stats : Stats → Stats
reset_stats stats =
    insert used_key (number 0) (keep (λ entry. not (dropped_by_reset entry.0)) stats)

abbrev pub reset_user : User → User
reset_user user = record user {
  traffic_used_bytes = 0;
  credentials = map (λ entry. (entry.0, reset_stats entry.1)) user.credentials;
}

-- The body of `check_traffic_limits` for one user: `int(user.traffic_limit_gb * 1073741824)`.
unfoldable pub limit_bytes : Gigabytes → ℕ
limit_bytes g = g.num * 1073741824 / 2 ^ g.shift

unfoldable pub over_limit : User → Bool
unfolding limit_bytes
over_limit user =
    let limit = limit_bytes user.traffic_limit_gb in
    not user.blocked && ltb 0 limit && leb limit user.traffic_used_bytes

-- The rest of `check_traffic_limits`, after the refresh
unfoldable pub exceeded : List User → List String
unfolding over_limit
exceeded users = map (λ user. user.email) (keep over_limit users)
