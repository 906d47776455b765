-- ===== src/Traffic/Credit.antt =====
-- Each byte of a connection is credited once.
use hydra_ultimate.Base.{
  ℕ, ◌+◌, ◌≤◌, String, ◌≡◌, refl, ◌∙◌, Bool, true, false, Option, none, some, List, [], ◌∷◌, arith,
  str_eq, eq_iff, if◌then◌else◌, ◌==◌, Bool-cases, inl, inr,
}
use hydra_ultimate.Base.Dict.{Dict, lookup}
use hydra_ultimate.Base.Value.{Value}
use hydra_ultimate.State.{User}
use hydra_ultimate.Sessions.{Connection}
use hydra_ultimate.Traffic.Connections.{
  user_of, protocol_of, is_attributed, total_of, old_total, credited_before, observe, observe_all,
  apply_connection_snapshot, Item, Deltas, add_delta, delta_of, credited_after, credit, credit_all,
  credit_user,
}

-- The polls of one connection: whether it could be attributed, and its total.
abbrev pub deltas_sum : List (Bool × ℕ) → ℕ → ℕ → ℕ
deltas_sum [] old credited = 0
deltas_sum ((attributed, total) ∷ rest) old credited =
    delta_of attributed old total credited
    + deltas_sum rest total (credited_after attributed old total credited)

abbrev pub credited_end : List (Bool × ℕ) → ℕ → ℕ → ℕ
credited_end [] old credited = credited
credited_end ((attributed, total) ∷ rest) old credited =
    credited_end rest total (credited_after attributed old total credited)

abbrev pub Rises : ℕ → List (Bool × ℕ) → Type 0
Rises old [] = Unit
Rises old ((attributed, total) ∷ rest) = (old ≤ total) × Rises total rest

-- The last poll, if there is one, could be attributed.
abbrev pub last_total : ℕ → List (Bool × ℕ) → Option ℕ
last_total old [] = none
last_total old ((true, total) ∷ []) = some total
last_total old ((false, total) ∷ []) = none
last_total old ((attributed, total) ∷ poll ∷ rest) = last_total total (poll ∷ rest)

step-delta :
    (attributed : Bool) (old total credited : ℕ)
    → credited ≤ old
    → old ≤ total
    → (delta_of attributed old total credited + credited
        ≡ credited_after attributed old total credited)
      × (credited_after attributed old total credited ≤ total)
unfolding delta_of credited_after
step-delta true old total credited h k = (ground arith, ground arith)
step-delta false old total credited h k = (ground arith, ground arith)

-- While the total of a connection does not fall, the bytes that its polls credit add up to the growth
-- of what is credited, and no more is ever credited than the connection has carried.
deltas-credited :
    (polls : List (Bool × ℕ)) (old credited : ℕ)
    → credited ≤ old
    → Rises old polls
    → deltas_sum polls old credited + credited ≡ credited_end polls old credited
deltas-credited [] old credited h r = omega arith
deltas-credited ((attributed, total) ∷ rest) old credited h r =
    let (sum, bound) = step-delta attributed old total credited h r.0 in
    omega
      (arith, deltas-credited rest total (credited_after attributed old total credited) bound r.1)

attributed-end :
    (polls : List (Bool × ℕ)) (old credited final : ℕ)
    → credited ≤ old
    → Rises old polls
    → last_total old polls ≡ some final
    → credited_end polls old credited ≡ final
unfolding credited_after delta_of
attributed-end [] old credited final h r e = cc
attributed-end ((true, total) ∷ []) old credited final h r e = ground arith
attributed-end ((false, total) ∷ []) old credited final h r e = cc
attributed-end ((attributed, total) ∷ poll ∷ rest) old credited final h r e =
    attributed-end (poll ∷ rest) total (credited_after attributed old total credited) final
      (step-delta attributed old total credited h r.0).1 r.1 e

-- While the total of a connection does not fall, its bytes are credited once: the polls up to one that
-- could be attributed credit together what the connection has carried beyond what was credited
-- before, however many polls in between could not be attributed.
pub credited_once :
    (polls : List (Bool × ℕ)) (old credited final : ℕ)
    → credited ≤ old
    → Rises old polls
    → last_total old polls ≡ some final
    → deltas_sum polls old credited + credited ≡ final
credited_once polls old credited final h r e =
    deltas-credited polls old credited h r ∙ attributed-end polls old credited final h r e

-- The bytes of the deltas for one e-mail.
abbrev pub bytes_for : String → Deltas → ℕ
bytes_for email [] = 0
bytes_for email ((key, n) ∷ rest) = (if str_eq key.0 email then n else 0) + bytes_for email rest

add_delta-bytes :
    (email : String) (key : String × String) (n : ℕ) (deltas : Deltas)
    → bytes_for email (add_delta key n deltas)
      ≡ bytes_for email deltas + (if str_eq key.0 email then n else 0)
unfolding add_delta
add_delta-bytes email key n [] = ground arith
add_delta-bytes email key n ((other, m) ∷ rest) = ground (
  arith,
  add_delta-bytes email key n rest,
  eq_iff other.0 key.0,
  eq_iff other.0 email,
  eq_iff key.0 email,
)

-- The total of the first user with an e-mail.
abbrev pub used_by : String → List User → ℕ
used_by email [] = 0
used_by email (user ∷ rest) =
    if str_eq user.email email then user.traffic_used_bytes else used_by email rest

abbrev pub has_user : String → List User → Bool
has_user email [] = false
has_user email (user ∷ rest) = if str_eq user.email email then true else has_user email rest

credit-used :
    (email : String) (key : String × String) (n : ℕ) (users : List User) (reports : Dict Value)
    → (used_by email (credit (key, n) (users, reports)).0
        ≡ used_by email users
          + (if has_user email users then (if str_eq key.0 email then n else 0) else 0))
      × (has_user email (credit (key, n) (users, reports)).0 ≡ has_user email users)
unfolding credit credit_user
credit-used email (to, protocol) n [] reports = (ground arith, refl)
credit-used email (to, protocol) n (user ∷ rest) reports =
    let (sum, same) = credit-used email (to, protocol) n rest reports in
    (
      ground (arith, eq_iff user.email to, eq_iff user.email email, eq_iff to email),
      ground (arith, eq_iff user.email to, eq_iff user.email email, eq_iff to email),
    )

credit_all-used :
    (email : String) (deltas : Deltas) (users : List User) (reports : Dict Value)
    → has_user email users ≡ true
    → used_by email (credit_all deltas (users, reports)).0
      ≡ used_by email users + bytes_for email deltas
unfolding credit_all
credit_all-used email [] users reports h = omega arith
credit_all-used email ((key, n) ∷ rest) users reports h =
    let (sum, same) = credit-used email key n users reports in
    let (users', reports') = credit (key, n) (users, reports) in
    credit_all-used email rest users' reports' (same ∙ h) ∙ ground arith

added-bytes :
    (email : String) (key : String × String) (n : ℕ) (deltas : Deltas)
    → bytes_for email (if n == 0 then deltas else add_delta key n deltas)
      ≡ bytes_for email deltas + (if str_eq key.0 email then n else 0)
added-bytes email key n deltas = ground (arith, add_delta-bytes email key n deltas)

module _ (identify : Item → String × String) (resolve : String → ℕ → Option String) (now : ℕ) where
  -- What one connection of a round earns for an e-mail.
  abbrev pub earned : String → Item → Dict Connection → ℕ
  earned email item active =
      let previous = lookup item.id active in
      if str_eq item.id ""
      then 0
      else if str_eq (user_of identify resolve now item previous) email
      then delta_of (is_attributed identify resolve now item previous) (old_total previous)
          (total_of identify resolve now item) (credited_before previous)
      else 0

  abbrev pub earned_all : String → List Item → Dict Connection × Deltas → ℕ
  earned_all email [] acc = 0
  earned_all email (item ∷ rest) acc =
      earned email item acc.0 + earned_all email rest (observe identify resolve now item acc)

  observe-bytes :
      (email : String) (item : Item) (active : Dict Connection) (deltas : Deltas)
      → bytes_for email (observe identify resolve now item (active, deltas)).1
        ≡ bytes_for email deltas + earned email item active
  unfolding observe
  observe-bytes email item active deltas =
      let previous = lookup item.id active in
      elim (Bool-cases (str_eq item.id "")) [
        | inl nameless ↦ rw nameless (omega arith)
        | inr named ↦ rw named (
            added-bytes email
              (
                user_of identify resolve now item previous,
                protocol_of identify resolve now item previous,
              )
              (delta_of (is_attributed identify resolve now item previous) (old_total previous)
                (total_of identify resolve now item) (credited_before previous))
              deltas)
      ]

  observe_all-bytes :
      (email : String) (items : List Item) (active : Dict Connection) (deltas : Deltas)
      → bytes_for email (observe_all identify resolve now items (active, deltas)).1
        ≡ bytes_for email deltas + earned_all email items (active, deltas)
  unfolding observe_all
  observe_all-bytes email [] active deltas = omega arith
  observe_all-bytes email (item ∷ rest) active deltas =
      let (active', deltas') = observe identify resolve now item (active, deltas) in
      observe_all-bytes email rest active' deltas'
      ∙ omega (arith, observe-bytes email item active deltas)

  -- A snapshot adds to the total of the first user with an e-mail exactly what its connections earn for
  -- the e-mail one after another, if the state has such a user.
  pub apply_connection_snapshot-used :
      (email : String) (items : List Item) (active : Dict Connection) (users : List User)
      (reports : Dict Value)
      → has_user email users ≡ true
      → let (changed, active', users', reports') =
          apply_connection_snapshot identify resolve now items (active, users, reports) in
        used_by email users' ≡ used_by email users + earned_all email items (active, [])
  unfolding apply_connection_snapshot
  apply_connection_snapshot-used email items active users reports h =
      credit_all-used email (observe_all identify resolve now items (active, [])).1 users reports h
      ∙ omega (arith, observe_all-bytes email items active [])
