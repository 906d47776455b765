-- ===== src/Traffic/Connections.antt =====
-- hydra/services/traffic_accounting.py: snapshots of connections, turned into bytes of users.
use hydra_ultimate.Base.{
  ℕ, ◌+◌, ◌-◌, String, Bool, true, false, not, ◌&&◌, Option, none, some, List, [], ◌∷◌, map, str_eq,
  ltb, ◌==◌, if◌then◌else◌, contains,
}
use hydra_ultimate.Base.Int.{ℤ, pos_part}
use hydra_ultimate.Base.Dict.{Dict, lookup, insert}
use hydra_ultimate.Base.Value.{Value}
use hydra_ultimate.State.{User}
use hydra_ultimate.Sessions.{Connection}
use hydra_ultimate.Traffic.{counter, number, used_key, used, section_or_empty}

-- A connection of the snapshot. `source_port` is 0 where the code cannot read it.
pub record Item : Type 0 where
  pub id : String
  pub upload : ℤ
  pub download : ℤ
  pub source_ip : String
  pub source_port : ℕ

-- The deltas of a round, by e-mail and protocol.
abbrev pub Deltas : Type 0
Deltas = List ((String × String) × ℕ)

-- `deltas[key] = deltas.get(key, 0) + delta`
unfoldable pub add_delta : String × String → ℕ → Deltas → Deltas
add_delta key delta [] = (key, delta) ∷ []
add_delta key delta ((other, n) ∷ rest) =
    if str_eq other.0 key.0 && str_eq other.1 key.1
    then (other, n + delta) ∷ rest
    else (other, n) ∷ add_delta key delta rest

abbrev is_loopback : String → Bool
is_loopback s = contains s ("127.0.0.1" ∷ "::1" ∷ "::ffff:127.0.0.1" ∷ [])

abbrev or_text : String → String → String
or_text s t = if str_eq s "" then t else s

-- What an earlier record says, or what is read where there is none.
abbrev pub old_total : Option Connection → ℕ
old_total none = 0
old_total (some c) = c.total

abbrev previous_user : Option Connection → String
previous_user none = ""
previous_user (some c) = c.user

abbrev previous_address : Option Connection → String
previous_address none = ""
previous_address (some c) = c.address

-- `previous.get("credited_total", old_total if previous.get("user") else 0)`
abbrev credited_of : Connection → Option ℕ → ℕ
credited_of c (some n) = n
credited_of c none = if str_eq c.user "" then 0 else c.total

abbrev pub credited_before : Option Connection → ℕ
credited_before none = 0
credited_before (some c) = credited_of c c.credited_total

abbrev known_protocol : String → Option Connection → String
known_protocol protocol none = protocol
known_protocol protocol (some c) =
    if str_eq protocol "unknown" && not (str_eq c.protocol "") then c.protocol else protocol

-- `_source_address`, where `resolve` is `resolve_mapping`
unfoldable pub source_address :
    (String → ℕ → Option String) → Item → String → Option Connection → String
source_address resolve item protocol previous =
    let address = item.source_ip in
    let earlier = previous_address previous in
    let mapped =
      (if not (str_eq protocol "unknown") && not (item.source_port == 0)
        then resolve protocol item.source_port
        else none) in
    let fallback =
      (if not (str_eq earlier "") && not (is_loopback earlier)
        then earlier
        else or_text address earlier) in
    if is_loopback address
    then elim mapped [ none ↦ fallback | some found ↦ or_text found fallback ]
    else or_text address earlier

-- The bytes that one connection earns: from the total before, the total now and what was credited.
unfoldable pub delta_of : Bool → ℕ → ℕ → ℕ → ℕ
delta_of attributed old total credited =
    let kept = if ltb total old then 0 else credited in if attributed then total - kept else 0

unfoldable pub credited_after : Bool → ℕ → ℕ → ℕ → ℕ
unfolding delta_of
credited_after attributed old total credited =
    let kept = if ltb total old then 0 else credited in
    if delta_of attributed old total credited == 0 then kept else total

-- `identify` is `attributor.identify` on the state and the evidence: a user, or the empty text, and a
-- protocol, or "unknown".
module _ (identify : Item → String × String) (resolve : String → ℕ → Option String) (now : ℕ) where
  abbrev pub user_of : Item → Option Connection → String
  user_of item previous = or_text (identify item).0 (previous_user previous)

  abbrev pub protocol_of : Item → Option Connection → String
  protocol_of item previous = known_protocol (identify item).1 previous

  abbrev pub is_attributed : Item → Option Connection → Bool
  is_attributed item previous =
      not (str_eq (user_of item previous) "") && not (str_eq (protocol_of item previous) "unknown")

  abbrev pub total_of : Item → ℕ
  total_of item = pos_part item.upload + pos_part item.download

  unfoldable pub new_record : Item → Option Connection → Connection
  unfolding credited_after source_address
  new_record item previous = record {
    user = user_of item previous;
    protocol = protocol_of item previous;
    total = total_of item;
    upload = pos_part item.upload;
    download = pos_part item.download;
    credited_total = some (
        credited_after (is_attributed item previous) (old_total previous) (total_of item)
          (credited_before previous));
    missed_polls = 0;
    seen_at = now;
    address = source_address resolve item (protocol_of item previous) previous;
  }

  -- The body of the loop over the snapshot.
  unfoldable pub observe : Item → Dict Connection × Deltas → Dict Connection × Deltas
  unfolding new_record delta_of add_delta
  observe item (active, deltas) =
      let previous = lookup item.id active in
      let delta =
        delta_of (is_attributed item previous) (old_total previous) (total_of item)
          (credited_before previous) in
      if str_eq item.id "" then (active, deltas) else (
        insert item.id (new_record item previous) active,
        (if delta == 0
            then deltas
            else add_delta (user_of item previous, protocol_of item previous) delta deltas),
      )

  unfoldable pub observe_all : List Item → Dict Connection × Deltas → Dict Connection × Deltas
  unfolding observe
  observe_all [] acc = acc
  observe_all (item ∷ rest) acc = observe_all rest (observe item acc)

-- The loop over `set(active) - current_ids`: a record survives five missed polls.
unfoldable pub age : List String → Dict Connection → Dict Connection
age current [] = []
age current ((id, c) ∷ rest) =
    let later = age current rest in
    let missed = c.missed_polls + 1 in
    if contains id current
    then (id, c) ∷ later
    else if ltb 5 missed
    then later
    else (id, record c { missed_polls = missed }) ∷ later

-- What a delta adds to the user's own total and to the user's counter of the protocol, which is a
-- number that is not negative.
unfoldable pub credit_user : String → ℕ → User → User
credit_user protocol delta user =
    let stats = section_or_empty protocol user.credentials in
    record user {
      traffic_used_bytes = user.traffic_used_bytes + delta;
      credentials =
          insert protocol (insert used_key (number (used stats + delta)) stats) user.credentials;
    }

-- `record_report_delta`
unfoldable pub record_report_delta : String → ℕ → Dict Value → Dict Value
record_report_delta protocol delta reports =
    if ltb 0 delta
    then insert protocol (number (counter protocol reports + delta)) reports
    else reports

-- The first user with the e-mail is credited; without one the delta is dropped.
unfoldable pub credit : (String × String) × ℕ → List User × Dict Value → List User × Dict Value
unfolding credit_user record_report_delta
credit ((email, protocol), delta) ([], reports) = ([], reports)
credit ((email, protocol), delta) (user ∷ rest, reports) =
    let (rest', reports') = credit ((email, protocol), delta) (rest, reports) in
    if str_eq user.email email
    then (credit_user protocol delta user ∷ rest, record_report_delta protocol delta reports)
    else (user ∷ rest', reports')

unfoldable pub credit_all : Deltas → List User × Dict Value → List User × Dict Value
unfolding credit
credit_all [] acc = acc
credit_all (entry ∷ rest) acc = credit_all rest (credit entry acc)

abbrev is_empty : Deltas → Bool
is_empty [] = true
is_empty (entry ∷ rest) = false

-- `apply_connection_snapshot`, on the counters, the users and the report totals
unfoldable pub apply_connection_snapshot :
    (Item → String × String)
    → (String → ℕ → Option String)
    → ℕ
    → List Item
    → Dict Connection × List User × Dict Value
    → Bool × Dict Connection × List User × Dict Value
unfolding observe_all age credit_all
apply_connection_snapshot identify resolve now items (active, users, reports) =
    let (observed, deltas) = observe_all identify resolve now items (active, []) in
    let (users', reports') = credit_all deltas (users, reports) in
    (not (is_empty deltas), age (map (λ item. item.id) items) observed, users', reports')
