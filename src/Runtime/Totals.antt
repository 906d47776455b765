-- ===== src/Runtime/Totals.antt =====
-- The counters of the protocols under a merge: no total falls.
use mathlib.Core.Path.{subst}
use hydra_ultimate.Base.{
  String, ◌≡◌, refl, sym, ◌∙◌, true, false, not, ◌&&◌, ◌||◌, List, [], ◌∷◌, ◌++◌, arith, eq_iff,
  str_eq, if◌then◌else◌, contains, Result, ok, err, and_then, Gives, Gives-and_then, Gives-map,
  Gives-both, Bool-cases, Option-cases, inl, inr,
}
use hydra_ultimate.Base.Int.{ℤ, ltb_ℤ, ◌≤ℤ◌}
use hydra_ultimate.Base.Dict.{Dict, lookup, insert, keys, has_key, lookup-insert}
use hydra_ultimate.Base.Value.{Value}
use hydra_ultimate.Runtime.{
  used_key, last_key, update, total_of, copy_others, is_other, adopt, merge_stats,
  merge_credentials, new_in, or_empty, all_protocols,
}

module _ {V : Type 0} where
  has_key-insert :
      (k j : String) (v : V) (d : Dict V) → has_key k (insert j v d) ≡ (str_eq j k || has_key k d)
  has_key-insert k j v d = ground (arith, lookup-insert j k v d)

  pub has_key-update :
      (k : String) (source target : Dict V)
      → has_key k (update source target) ≡ (has_key k source || has_key k target)
  unfolding update lookup
  has_key-update k [] target = refl
  has_key-update k ((j, v) ∷ source) target =
      ground (arith, has_key-update k source (insert j v target), has_key-insert k j v target)

  contains-keys : (k : String) (d : Dict V) → contains k (keys d) ≡ has_key k d
  unfolding lookup
  contains-keys k [] = refl
  contains-keys k ((j, v) ∷ d) = ground (arith, contains-keys k d, eq_iff k j, eq_iff j k)

abbrev pub total_in : String → Dict (Dict Value) → Result ℤ
total_in protocol credentials = total_of (or_empty (lookup protocol credentials))

-- The second total is an integer that is not below the first, if the first is one.
abbrev pub NotBelow : Result ℤ → Result ℤ → Type 0
NotBelow (ok a) (ok b) = a ≤ℤ b
NotBelow (ok a) (err exc) = ⊥
NotBelow (err exc) b = Unit

NotBelow-refl : (a : Result ℤ) → NotBelow a a
NotBelow-refl (ok a) = omega arith
NotBelow-refl (err exc) = tt

NotBelow-trans : (a b c : Result ℤ) → NotBelow a b → NotBelow b c → NotBelow a c
NotBelow-trans (ok a) (ok b) (ok c) h k = omega arith
NotBelow-trans (ok a) (ok b) (err exc) h k = k
NotBelow-trans (ok a) (err exc) c h k = absurd h
NotBelow-trans (err exc) b c h k = tt

lookup-copy_others :
    (current target : Dict Value)
    → lookup used_key (copy_others current target) ≡ lookup used_key target
unfolding copy_others
lookup-copy_others [] target = refl
lookup-copy_others ((k, v) ∷ current) target =
    lookup-copy_others current (if is_other k then insert k v target else target)
    ∙ ground (arith, lookup-insert k used_key v target)

total_of-adopt :
    (total : ℤ) (current target : Dict Value) → total_of (adopt total current target) ≡ ok total
unfolding adopt total_of
total_of-adopt total current target = elim (Option-cases (lookup last_key current)) [
  | inl missing ↦
      rw
        (
          missing,
          lookup-copy_others current (insert used_key (Value.int total) target),
          lookup-insert used_key used_key (Value.int total) target,
        )
        refl
  | inr (v, e) ↦
      let target' = insert used_key (Value.int total) target in
      rw
        (
          e,
          lookup-copy_others current (insert last_key v target'),
          lookup-insert last_key used_key v target',
          lookup-insert used_key used_key (Value.int total) target,
        )
        refl
]

merge_stats-NotBelow :
    (current target : Dict Value)
    → Gives
        (λ stats.
          NotBelow (total_of current) (total_of stats)
          × NotBelow (total_of target) (total_of stats))
        (merge_stats false current target)
unfolding merge_stats
merge_stats-NotBelow current target = go (total_of current) refl (total_of target) refl
  where
    go :
        (c : Result ℤ)
        → total_of current ≡ c
        → (t : Result ℤ) → total_of target ≡ t
        → Gives
            (λ stats.
              NotBelow (total_of current) (total_of stats)
              × NotBelow (total_of target) (total_of stats))
            (and_then c (λ current_total. and_then t (λ target_total. ok (
              if ltb_ℤ current_total target_total
              then target
              else adopt current_total current target))))
    go (err exc) e t f = tt
    go (ok c) e (err exc) f = tt
    go (ok c) e (ok t) f = elim (Bool-cases (ltb_ℤ c t)) [
      | inl less ↦ rw (less, e, f) (ground arith, ground arith)
      | inr more ↦ rw (more, total_of-adopt c current target, e, f) (ground arith, ground arith)
    ]

total_in-insert :
    (p q : String) (stats : Dict Value) (d : Dict (Dict Value))
    → total_in p (insert q stats d) ≡ (if str_eq q p then total_of stats else total_in p d)
total_in-insert p q stats d = elim (Bool-cases (str_eq q p)) [
  | inl same ↦ rw (lookup-insert q p stats d, same) refl
  | inr apart ↦ rw (lookup-insert q p stats d, apart) refl
]

module _ (current : Dict (Dict Value)) (p : String) where
  -- What is merged for one protocol is not below what was there, for any protocol.
  inserted-NotBelow :
      (q : String) (stats : Dict Value) (credentials : Dict (Dict Value))
      → NotBelow (total_in q credentials) (total_of stats)
      → NotBelow (total_in p credentials) (total_in p (insert q stats credentials))
  inserted-NotBelow q stats credentials h = elim (Bool-cases (str_eq q p)) [
    | inl same ↦ rw (total_in-insert p q stats credentials, same) (rw (← (eq_iff q p).0 same) h)
    | inr apart ↦
        rw (total_in-insert p q stats credentials, apart) (NotBelow-refl (total_in p credentials))
  ]

  merge_credentials-user :
      (protocols : List String) (credentials : Dict (Dict Value))
      → Gives
          (λ merged. NotBelow (total_in p credentials) (total_in p merged))
          (merge_credentials false current protocols credentials)
  unfolding merge_credentials
  merge_credentials-user [] credentials = NotBelow-refl (total_in p credentials)
  merge_credentials-user (q ∷ rest) credentials =
      let before = or_empty (lookup q credentials) in
      let latest = or_empty (lookup q current) in
      Gives-and_then (λ merged. NotBelow (total_in p credentials) (total_in p merged))
        (λ stats.
          NotBelow (total_of latest) (total_of stats) × NotBelow (total_of before) (total_of stats))
        (merge_stats false latest before) _ (merge_stats-NotBelow latest before)
        (λ stats h.
          let next = insert q stats credentials in
          Gives-map (merge_credentials false current rest next) (merge_credentials-user rest next)
            (λ merged k.
              NotBelow-trans (total_in p credentials) (total_in p next) (total_in p merged)
                (inserted-NotBelow q stats credentials h.1) k))

  merge_credentials-current :
      (protocols : List String) (credentials : Dict (Dict Value))
      → contains p protocols ≡ true
      → Gives
          (λ merged. NotBelow (total_in p current) (total_in p merged))
          (merge_credentials false current protocols credentials)
  unfolding merge_credentials
  merge_credentials-current [] credentials c = absurd (ground arith)
  merge_credentials-current (q ∷ rest) credentials c =
      let before = or_empty (lookup q credentials) in
      let latest = or_empty (lookup q current) in
      Gives-and_then (λ merged. NotBelow (total_in p current) (total_in p merged))
        (λ stats.
          NotBelow (total_of latest) (total_of stats) × NotBelow (total_of before) (total_of stats))
        (merge_stats false latest before) _ (merge_stats-NotBelow latest before)
        (λ stats h. elim (Bool-cases (str_eq q p)) [
          | inl same ↦
              Gives-map (merge_credentials false current rest (insert q stats credentials))
                (merge_credentials-user rest (insert q stats credentials))
                (λ merged k.
                  NotBelow-trans (total_in p current) (total_in p (insert q stats credentials))
                    (total_in p merged)
                    (rw (total_in-insert p q stats credentials, same)
                      (rw (← (eq_iff q p).0 same) h.0))
                    k)
          | inr apart ↦ merge_credentials-current rest (insert q stats credentials) (ground arith)
        ])

contains-append :
    (p : String) (xs ys : List String) → contains p (xs ++ ys) ≡ (contains p xs || contains p ys)
contains-append p [] ys = refl
contains-append p (x ∷ xs) ys = ground (arith, contains-append p xs ys)

contains-new_in :
    (p : String) (credentials : Dict (Dict Value)) (ps : List String)
    → contains p (new_in credentials ps) ≡ (contains p ps && not (has_key p credentials))
contains-new_in p credentials [] = refl
contains-new_in p credentials (q ∷ ps) = elim (Bool-cases (str_eq q p)) [
  | inl same ↦
      rw ((eq_iff q p).0 same) (ground (arith, contains-new_in p credentials ps, eq_iff p p))
  | inr apart ↦ ground (arith, contains-new_in p credentials ps)
]

total_in-none :
    (p : String) (d : Dict (Dict Value)) → has_key p d ≡ false → total_in p d ≡ total_of []
total_in-none p d h = elim (Option-cases (lookup p d)) [
  | inl missing ↦ rw missing refl
  | inr (v, e) ↦ absurd (ground (arith, h, e))
]

module _ (current credentials : Dict (Dict Value)) where
  missing_both :
      (p : String)
      → contains p (all_protocols current credentials) ≡ false
      → (has_key p current ≡ false) × (has_key p credentials ≡ false)
  missing_both p h =
      let both = contains-append p (keys credentials) (new_in credentials (keys current)) in
      let new = contains-new_in p credentials (keys current) in
      (
        ground (arith, h, both, new, contains-keys p current, contains-keys p credentials),
        ground (arith, h, both, contains-keys p credentials),
      )

  pub merge_credentials-NotBelow :
      (p : String)
      → Gives
          (λ merged.
            NotBelow (total_in p current) (total_in p merged)
            × NotBelow (total_in p credentials) (total_in p merged))
          (merge_credentials false current (all_protocols current credentials) credentials)
  merge_credentials-NotBelow p =
      Gives-both (λ merged. NotBelow (total_in p current) (total_in p merged))
        (λ merged. NotBelow (total_in p credentials) (total_in p merged))
        (merge_credentials false current (all_protocols current credentials) credentials)
        (elim (Bool-cases (contains p (all_protocols current credentials))) [
          | inl listed ↦
              merge_credentials-current current p (all_protocols current credentials) credentials
                listed
          | inr absent ↦
              let (left, right) = missing_both p absent in
              subst
                (λ total.
                  Gives (λ merged. NotBelow total (total_in p merged))
                    (merge_credentials false current (all_protocols current credentials)
                      credentials))
                (total_in-none p credentials right ∙ sym (total_in-none p current left))
                (merge_credentials-user current p (all_protocols current credentials) credentials)
        ])
        (merge_credentials-user current p (all_protocols current credentials) credentials)
