-- ===== src/Sessions/Limit.antt =====
-- The device limit: who is refused, and how many stay.
use hydra_ultimate.Base.{
  map, ℕ, zero, suc, ◌+◌, ◌-◌, ◌≤◌, ◌<◌, String, ◌≡◌, refl, ◌∙◌, Bool, true, false, not, List, [],
  ◌∷◌, arith, All, str_eq, eq_refl, if◌then◌else◌, keep, contains, length, take, drop, sorted,
  place, IsOrdered, sorted-IsOrdered, length-take-le, Bool-cases, inl, inr,
}
use hydra_ultimate.State.{User}
use hydra_ultimate.Base.Dict.{Dict, keys, insert, has_key}
use hydra_ultimate.Sessions.{
  limits_from, observed_devices, Session, Connection, limit_of, devices_of, enforce_all,
  retain_absent, update_sessions, insert_unless_empty, order, seen_before, over_limit, mark,
  merge_known, enforce, retain, newest, newer, remember, max_sessions_per_user,
}

module _ {A : Type 0} (before : A → A → Bool) where
  length-place : (a : A) (bs : List A) → length (place before a bs) ≡ suc (length bs)
  unfolding place
  length-place a [] = refl
  length-place a (b ∷ bs) = ground (arith, length-place a bs)

  length-sorted : (xs : List A) → length (sorted before xs) ≡ length xs
  unfolding sorted
  length-sorted [] = refl
  length-sorted (x ∷ xs) = omega (arith, length-place x (sorted before xs), length-sorted xs)

  -- A sort changes no count.
  length-keep-place :
      (p : A → Bool) (a : A) (bs : List A)
      → length (keep p (place before a bs)) ≡ length (keep p (a ∷ bs))
  unfolding place
  length-keep-place p a [] = refl
  length-keep-place p a (b ∷ bs) = ground (arith, length-keep-place p a bs)

  length-keep-sorted :
      (p : A → Bool) (xs : List A) → length (keep p (sorted before xs)) ≡ length (keep p xs)
  unfolding sorted
  length-keep-sorted p [] = refl
  length-keep-sorted p (x ∷ xs) =
      length-keep-place p x (sorted before xs) ∙ ground (arith, length-keep-sorted p xs)

  -- What is taken of an ordered list may stand in front of what is dropped.
  abbrev pub Divides : ℕ → List A → Type 0
  Divides n xs = All (λ a. All (λ b. before a b ≡ true) (drop n xs)) (take n xs)

  All-drop : (P : A → Type 0) (n : ℕ) (xs : List A) → All P xs → All P (drop n xs)
  All-drop P zero xs h = h
  All-drop P (suc n) [] h = tt
  All-drop P (suc n) (x ∷ xs) h = All-drop P n xs h.1

  Divides-IsOrdered : (n : ℕ) (xs : List A) → IsOrdered before xs → Divides n xs
  Divides-IsOrdered zero xs h = tt
  Divides-IsOrdered (suc n) [] h = tt
  Divides-IsOrdered (suc n) (x ∷ xs) h =
      (All-drop (λ b. before x b ≡ true) n xs h.0, Divides-IsOrdered n xs h.1)

seen_before-total : (a b : String × Session) → seen_before a b ≡ false → seen_before b a ≡ true
seen_before-total a b h = ground arith

seen_before_trans :
    (a b c : String × Session)
    → seen_before a b ≡ true
    → seen_before b c ≡ true
    → seen_before a c ≡ true
seen_before_trans a b c h k = ground arith

length-drop : {A : Type 0} (n : ℕ) (xs : List A) → length (drop n xs) ≡ length xs - n
length-drop zero xs = omega arith
length-drop (suc n) [] = omega arith
length-drop (suc n) (x ∷ xs) = omega (arith, length-drop n xs)

length-keys : {V : Type 0} (d : Dict V) → length (keys d) ≡ length d
length-keys [] = refl
length-keys ((k, v) ∷ d) = omega (arith, length-keys d)

-- With a limit, the devices over it are those behind the first ones in the order in which they were
-- first seen. They are as many as there are too many, and each device that is kept was seen no later
-- than each of them.
pub over_limit_lem :
    (limit : ℕ) (merged : Dict Session)
    → 0 < limit
    → (over_limit limit merged ≡ keys (drop limit (order merged)))
      × (length (over_limit limit merged) ≡ length merged - limit)
      × All
          (λ a. All (λ b. a.1.first_seen ≤ b.1.first_seen) (drop limit (order merged)))
          (take limit (order merged))
unfolding over_limit
over_limit_lem limit merged h = (
  ground arith,
  ground (
    arith,
    length-keys (drop limit (order merged)),
    length-drop limit (order merged),
    length-sorted seen_before merged,
  ),
  go (take limit (order merged)) (
      Divides-IsOrdered seen_before limit (order merged)
        (sorted-IsOrdered seen_before seen_before-total seen_before_trans merged)),
)
  where
    each :
        (a : String × Session) (bs : Dict Session)
        → All (λ b. seen_before a b ≡ true) bs
        → All (λ b. a.1.first_seen ≤ b.1.first_seen) bs
    each a [] k = tt
    each a (b ∷ bs) k = (ground (arith, k.0), each a bs k.1)

    go :
        (taken : Dict Session)
        → All (λ a. All (λ b. seen_before a b ≡ true) (drop limit (order merged))) taken
        → All (λ a. All (λ b. a.1.first_seen ≤ b.1.first_seen) (drop limit (order merged))) taken
    go [] k = tt
    go (a ∷ taken) k = (each a (drop limit (order merged)) k.0, go taken k.1)

length-mark :
    (refused : List String) (merged : Dict Session)
    → length (keep (λ entry. entry.1.allowed) (mark refused merged))
      ≡ length (keep (λ entry. not (contains entry.0 refused)) merged)
length-mark refused [] = refl
length-mark refused ((address, s) ∷ rest) = ground (arith, length-mark refused rest)

module _ {A : Type 0} (p : A → Bool) where
  length-keep-drop : (n : ℕ) (xs : List A) → length (keep p xs) ≤ n + length (keep p (drop n xs))
  length-keep-drop zero xs = omega arith
  length-keep-drop (suc n) [] = omega arith
  length-keep-drop (suc n) (x ∷ xs) = ground (arith, length-keep-drop n xs)

  length-keep-none : (xs : List A) → All (λ x. p x ≡ false) xs → length (keep p xs) ≡ 0
  length-keep-none [] h = refl
  length-keep-none (x ∷ xs) h = rw h.0 (length-keep-none xs h.1)

module _ {V : Type 0} where
  abbrev AllIn : List String → Dict V → Type 0
  AllIn ks d = All (λ entry. not (contains entry.0 ks) ≡ false) d

  AllIn-cons : (k : String) (ks : List String) (d : Dict V) → AllIn ks d → AllIn (k ∷ ks) d
  AllIn-cons k ks [] h = tt
  AllIn-cons k ks ((j, v) ∷ d) h = (ground (arith, h.0), AllIn-cons k ks d h.1)

  AllIn-keys : (d : Dict V) → AllIn (keys d) d
  AllIn-keys [] = tt
  AllIn-keys ((k, v) ∷ d) = (rw (eq_refl k) refl, AllIn-cons k (keys d) d (AllIn-keys d))

-- With a limit, no more of a user's connected devices are marked as allowed than the limit says.
pub allowed_within_limit :
    (limit : ℕ) (merged : Dict Session)
    → 0 < limit
    → length (keep (λ entry. entry.1.allowed) (mark (over_limit limit merged) merged)) ≤ limit
unfolding over_limit
allowed_within_limit limit merged h =
    let over = keys (drop limit (order merged)) in
    let p = λ (entry : String × Session). not (contains entry.0 over) in
    ground (
      arith,
      length-mark over merged,
      length-keep-sorted seen_before p merged,
      length-keep-drop p limit (order merged),
      length-keep-none p (drop limit (order merged)) (AllIn-keys (drop limit (order merged))),
    )

newest-bounded : (merged : Dict Session) → length (newest merged) ≤ max_sessions_per_user
unfolding newest
newest-bounded merged = ground (arith, length-take-le max_sessions_per_user (sorted newer merged))

enforce-bounded :
    (now ttl limit : ℕ) (previous devices : Dict Session)
    → length (enforce now ttl limit previous devices).1 ≤ max_sessions_per_user
unfolding enforce retain
enforce-bounded now ttl limit previous devices =
    let merged = merge_known now previous devices in
    newest-bounded (remember now ttl (mark (over_limit limit merged) merged) previous)

abbrev AreBounded : Dict (Dict Session) → Type 0
AreBounded d = All (λ entry. length entry.1 ≤ max_sessions_per_user) d

AreBounded-insert :
    (user : String) (devices : Dict Session) (d : Dict (Dict Session))
    → length devices ≤ max_sessions_per_user
    → AreBounded d
    → AreBounded (insert user devices d)
unfolding insert
AreBounded-insert user devices [] h k = (h, tt)
AreBounded-insert user devices ((j, other) ∷ d) h k = elim (Bool-cases (str_eq j user)) [
  | inl same ↦ rw same (h, k.1)
  | inr differ ↦ rw differ (k.0, AreBounded-insert user devices d h k.1)
]

enforce_all-AreBounded :
    (now ttl : ℕ) (limits : Dict ℕ) (stored observed : Dict (Dict Session))
    (refused : Dict (List String)) (result : Dict (Dict Session))
    → AreBounded result
    → AreBounded (enforce_all now ttl limits stored observed (refused, result)).1
unfolding enforce_all
enforce_all-AreBounded now ttl limits stored [] refused result h = h
enforce_all-AreBounded now ttl limits stored ((user, devices) ∷ rest) refused result h =
    enforce_all-AreBounded now ttl limits stored rest _ _ (
      AreBounded-insert user _ result
        (enforce-bounded now ttl (limit_of user limits) (devices_of user stored) devices) h)

unless_empty-AreBounded :
    (user : String) (kept : Dict Session) (result : Dict (Dict Session))
    → length kept ≤ max_sessions_per_user
    → AreBounded result
    → AreBounded (insert_unless_empty user kept result)
unless_empty-AreBounded user [] result h k = k
unless_empty-AreBounded user (x ∷ kept) result h k = AreBounded-insert user (x ∷ kept) result h k

retain_absent-AreBounded :
    (now ttl : ℕ) (stored result : Dict (Dict Session))
    → AreBounded result
    → AreBounded (retain_absent now ttl stored result)
unfolding retain_absent retain
retain_absent-AreBounded now ttl [] result h = h
retain_absent-AreBounded now ttl ((user, previous) ∷ rest) result h =
    retain_absent-AreBounded now ttl rest _ (go (has_key user result))
  where
    go :
        (known : Bool)
        → AreBounded (
            if known
            then result
            else insert_unless_empty user (newest (remember now ttl [] previous)) result)
    go true = h
    go false =
        unless_empty-AreBounded user (newest (remember now ttl [] previous)) result
          (newest-bounded (remember now ttl [] previous)) h

-- After `update_sessions`, whatever was stored and observed, at most 32 sessions are stored of each user.
pub update_sessions-bounded :
    (now ttl : ℕ) (users : List User) (counters : Dict Connection) (stored : Dict (Dict Session))
    → All (λ entry. length entry.1 ≤ 32) (update_sessions now ttl users counters stored).1
unfolding update_sessions
update_sessions-bounded now ttl users counters stored = retain_absent-AreBounded now ttl stored _ (
    enforce_all-AreBounded now ttl (limits_from [] users) stored
      (observed_devices now (map (λ entry. entry.1) counters) []) [] [] tt)
