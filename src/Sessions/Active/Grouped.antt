-- ===== src/Sessions/Active/Grouped.antt =====
-- What the view of the active sessions shows of a user's use of a protocol.
use text.Mathlib.TextEquality.{eq_iff}
use hydra_ultimate.Base.{
  ℕ, ◌+◌, max, String, ◌≡◌, refl, sym, ap, ◌∙◌, Bool, true, false, ◌&&◌, Option, List, [], ◌∷◌,
  ◌++◌, arith, str_eq, if◌then◌else◌, keep, append_assoc, append_nil, Bool-cases, inl, inr,
}
use hydra_ultimate.Base.Dict.{Dict}
use hydra_ultimate.Sessions.{Connection}
use hydra_ultimate.Sessions.Active.{
  ActiveConnection, counts, opened, extended, join, group, traffic_daemon_fresh,
  tracked_active_connections,
}

abbrev sum_of : (Connection → ℕ) → List Connection → ℕ
sum_of f [] = 0
sum_of f (c ∷ rest) = f c + sum_of f rest

abbrev latest : List Connection → ℕ
latest [] = 0
latest (c ∷ rest) = max c.seen_at (latest rest)

abbrev number_of : List Connection → ℕ
number_of [] = 0
number_of (c ∷ rest) = 1 + number_of rest

-- The records that count for a protocol and a user.
abbrev pub belongs : String → String → Connection → Bool
belongs protocol user c = str_eq c.protocol protocol && str_eq c.user user

abbrev pub records_of : String → String → Dict Connection → List Connection
records_of protocol user [] = []
records_of protocol user ((id, c) ∷ rest) =
    let later = records_of protocol user rest in
    if counts c && belongs protocol user c then c ∷ later else later

abbrev entry : String → String → ℕ → ℕ → ℕ → ℕ → ActiveConnection
entry protocol user rx tx connections last = record {
  plugin = protocol;
  email = user;
  online = true;
  rx = rx;
  tx = tx;
  connections = connections;
  last_handshake = last;
  traffic_scope = "active";
}

-- The entry for these records: none where there is no record.
abbrev pub summary : String → String → List Connection → List ActiveConnection
summary protocol user [] = []
summary protocol user (c ∷ rest) =
    entry protocol user (sum_of (λ d. d.download) (c ∷ rest)) (sum_of (λ d. d.upload) (c ∷ rest))
      (number_of (c ∷ rest)) (latest (c ∷ rest))
    ∷ []

abbrev pub shown : String → String → List ActiveConnection → List ActiveConnection
shown protocol user items =
    keep (λ item. str_eq item.plugin protocol && str_eq item.email user) items

abbrev joined : Connection → List ActiveConnection → List ActiveConnection
joined c [] = extended c (opened c) ∷ []
joined c (item ∷ rest) = extended c item ∷ rest

shown-join :
    (protocol user : String) (c : Connection) (items : List ActiveConnection)
    → shown protocol user (join c items) ≡ (
        if belongs protocol user c
        then joined c (shown protocol user items)
        else shown protocol user items)
unfolding join
shown-join protocol user c [] = ground arith
shown-join protocol user c (item ∷ rest) = ground (
  arith,
  eq_iff item.plugin c.protocol,
  eq_iff item.email c.user,
  eq_iff item.plugin protocol,
  eq_iff item.email user,
  eq_iff c.protocol protocol,
  eq_iff c.user user,
  shown-join protocol user c rest,
)

sum_of-append :
    (f : Connection → ℕ) (xs : List Connection) (c : Connection)
    → sum_of f (xs ++ c ∷ []) ≡ sum_of f xs + f c
sum_of-append f [] c = omega arith
sum_of-append f (x ∷ xs) c = omega (arith, sum_of-append f xs c)

latest-append :
    (xs : List Connection) (c : Connection) → latest (xs ++ c ∷ []) ≡ max (latest xs) c.seen_at
latest-append [] c = omega arith
latest-append (x ∷ xs) c = omega (arith, latest-append xs c)

number_of-append :
    (xs : List Connection) (c : Connection) → number_of (xs ++ c ∷ []) ≡ number_of xs + 1
number_of-append [] c = refl
number_of-append (x ∷ xs) c = omega (arith, number_of-append xs c)

entry-same :
    (protocol user : String) (rx rx' tx tx' n n' last last' : ℕ)
    → rx ≡ rx'
    → tx ≡ tx'
    → n ≡ n'
    → last ≡ last'
    → entry protocol user rx tx n last ≡ entry protocol user rx' tx' n' last'
entry-same protocol user rx rx' tx tx' n n' last last' e f g h = rw (e, f, g, h)

joined-summary :
    (c : Connection) (xs : List Connection)
    → joined c (summary c.protocol c.user xs) ≡ summary c.protocol c.user (xs ++ c ∷ [])
joined-summary c [] =
    ap (λ i. i ∷ [])
      (entry-same c.protocol c.user _ _ _ _ _ _ _ _ (omega arith) (omega arith) refl (omega arith))
joined-summary c (x ∷ xs) =
    ap (λ i. i ∷ [])
      (entry-same c.protocol c.user _ _ _ _ _ _ _ _
        (sym (sum_of-append (λ d. d.download) (x ∷ xs) c))
        (sym (sum_of-append (λ d. d.upload) (x ∷ xs) c)) (sym (number_of-append (x ∷ xs) c))
        (sym (latest-append (x ∷ xs) c)))

joined_if :
    (protocol user : String) (c : Connection) (xs : List Connection)
    → belongs protocol user c ≡ true
    → joined c (summary protocol user xs) ≡ summary protocol user (xs ++ c ∷ [])
joined_if protocol user c xs h =
    let e : protocol ≡ c.protocol = ground (arith, eq_iff c.protocol protocol, h) in
    let f : user ≡ c.user = ground (arith, eq_iff c.user user, h) in rw (e, f) (joined-summary c xs)

group_lem :
    (protocol user : String) (counters : Dict Connection) (items : List ActiveConnection)
    (seen : List Connection)
    → shown protocol user items ≡ summary protocol user seen
    → shown protocol user (group counters items)
      ≡ summary protocol user (seen ++ records_of protocol user counters)
unfolding group
group_lem protocol user [] items seen h = h ∙ ap (summary protocol user) (sym (append_nil seen))
group_lem protocol user ((id, c) ∷ rest) items seen h = elim (Bool-cases (counts c)) [
  | inr skipped ↦ rw skipped (group_lem protocol user rest items seen h)
  | inl counted ↦ elim (Bool-cases (belongs protocol user c)) [
    | inl mine ↦
        rw (counted, mine)
          (group_lem protocol user rest (join c items) (seen ++ c ∷ []) (
              shown-join protocol user c items ∙ rw (mine, h) (joined_if protocol user c seen mine))
            ∙ ap (summary protocol user)
                (append_assoc seen (c ∷ []) (records_of protocol user rest)))
    | inr other ↦
        rw (counted, other)
          (group_lem protocol user rest (join c items) seen
            (shown-join protocol user c items ∙ rw other h))
  ]
]

-- Where the clash API is on and the daemon's last poll is at most 15 seconds old,
-- `tracked_active_connections` shows a user's use of a protocol in one entry, which holds the sums of
-- the downloads and of the uploads, the number and the latest time of the records that count for
-- them, and in no entry where no record counts. Elsewhere it shows nothing.
pub tracked_active_connections_lem :
    (protocol user : String) (clash_api_enabled : Bool) (now : ℕ) (last_poll : Option ℕ)
    (counters : Dict Connection)
    → shown protocol user (tracked_active_connections clash_api_enabled now last_poll counters) ≡ (
        if clash_api_enabled && traffic_daemon_fresh now last_poll 15
        then summary protocol user (records_of protocol user counters)
        else [])
unfolding tracked_active_connections
tracked_active_connections_lem protocol user false now last_poll counters = refl
tracked_active_connections_lem protocol user true now last_poll counters =
    elim (Bool-cases (traffic_daemon_fresh now last_poll 15)) [
      | inl fresh ↦ rw fresh (group_lem protocol user counters [] [] refl)
      | inr stale ↦ rw stale
    ]
