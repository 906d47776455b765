-- ===== src/AntiDpi/Answers.antt =====
-- `observe_event` of hydra/plugins/antidpi/detector_service.py: what it answers to each event.
use hydra_ultimate.Base.{
  ℕ, ◌+◌, ◌-◌, ◌%◌, String, ◌≡◌, refl, sym, ap, ◌∙◌, ◌⊎◌, inl, inr, Bool, true, false, not, ◌&&◌,
  ◌||◌, Option, none, some, arith, str_eq, ◌==◌, or_default, if_cases, Bool-cases, from_false,
}
use hydra_ultimate.Base.Dict.{Dict, lookup}
use hydra_ultimate.AntiDpi.{
  Ban, Address, Data, is_whitelisted, get_ban_duration, expire_bans, prune_ban_counts,
  record_ban_failure,
}
use hydra_ultimate.AntiDpi.Detection.{Observation, observe_state, record_automatic_ban}
use hydra_ultimate.AntiDpi.Evidence.{is_enforcement_evidence}
use hydra_ultimate.AntiDpi.Detector.{
  Host, Detector, Enforced, after_intent, enforce_ban, decide, observe_parsed, observe_address,
  observe_event, strip_brackets, with_cursor, normalized, cursor_of, plausible, revert_ban_intent,
}
use hydra_ultimate.AntiDpi.Blocked.{banned_at, banned_at-active_bans}
use hydra_ultimate.AntiDpi.Discards.{is_spared, is_discarded, IsKept, observe_event-discards}

or_false : (b c : Bool) → (b || c) ≡ false → (b ≡ false) × (c ≡ false)
or_false b c h = ground arith

not-false : (b : Bool) → not b ≡ false → b ≡ true
not-false b h = ground arith

with_cursor-ban_counts :
    (cursor : String) (d : Data) → (with_cursor cursor d).ban_counts ≡ d.ban_counts
with_cursor-ban_counts cursor d = ground arith

-- A sweep hides no active ban.
observe_state-banned :
    (a : Address) (event : Dict String) (timestamp now : ℕ) (d : Data)
    → (observe_state a event timestamp now d).0.active_ban ≡ banned_at a.compressed now d.banned
unfolding observe_state expire_bans prune_ban_counts
observe_state-banned a event timestamp now d =
    if_cases
      (λ (e : Data). banned_at a.compressed now e.banned ≡ banned_at a.compressed now d.banned)
      ((d.events + 1) % 256 == 0) _ _
      (λ full. banned_at-active_bans a.compressed now now d.banned (omega arith)) (λ other. refl)

after_intent-answer :
    {F : Type 0} (o : Observation) (metadata : Ban) (d : Data) (result : Bool × F)
    → (after_intent o metadata d result).banned ≡ result.0
unfolding revert_ban_intent record_ban_failure
after_intent-answer o metadata d (true, fw) = refl
after_intent-answer o metadata d (false, fw) = refl

module _ {F : Type 0} (host : Host F) where
  -- What is left of the ban that is due for the evidence, which may have come late.
  abbrev remaining : String → ℕ → ℕ → Data → ℕ
  remaining address timestamp now d =
      get_ban_duration (or_default (lookup address d.ban_counts) 0 + 1) - (now - timestamp)

  -- The firewall is asked for the rest of the ban, if there is one.
  abbrev enforced : String → ℕ → ℕ → Data → F → Bool
  enforced address timestamp now d fw =
      let rest = remaining address timestamp now d in
      not (rest == 0) && (host.add address rest now fw).0

  enforce_ban-answer :
      (o : Observation) (d : Data) (fw : F)
      → (enforce_ban host o d fw).banned ≡ enforced o.address o.timestamp o.enforced_at d fw
  unfolding enforce_ban
  enforce_ban-answer o d fw =
      let rest = remaining o.address o.timestamp o.enforced_at d in
      let accepted = (host.add o.address rest o.enforced_at fw).0 in
      if_cases (λ (e : Enforced F). e.banned ≡ (not (rest == 0) && accepted)) (rest == 0) _ _
        (λ late. sym (ap (λ z. not z && accepted) late))
        (λ due.
          let intent = record_automatic_ban o rest d in
          after_intent-answer o intent.0 intent.1 (host.add o.address rest o.enforced_at fw)
          ∙ sym (ap (λ z. not z && accepted) due))

  decide-answer :
      (o : Observation) (d : Data) (s : Detector F)
      → (decide host o d s).0
        ≡ (o.active_ban || enforced o.address o.timestamp o.enforced_at d s.firewall)
  unfolding decide
  decide-answer o d s =
      let answer = enforced o.address o.timestamp o.enforced_at d s.firewall in
      if_cases (λ (r : Bool × Detector F). r.0 ≡ (o.active_ban || answer)) o.active_ban _ _
        (λ already. sym (ap (λ z. z || answer) already))
        (λ new. enforce_ban-answer o d s.firewall ∙ sym (ap (λ z. z || answer) new))

  -- The document with which the ban of an event is decided.
  abbrev pub counted : Address → Dict String → ℕ → ℕ → Data → Data
  counted a event timestamp now d = (observe_state a event timestamp now d).1

  -- The answer to an event that is not discarded.
  abbrev pub answer : Address → Dict String → ℕ → ℕ → Detector F → Bool
  answer a event timestamp now s =
      banned_at a.compressed now s.document.banned
      || enforced a.compressed timestamp now (counted a event timestamp now s.document) s.firewall

  decide_observed-answer :
      (a : Address) (event : Dict String) (cursor : String) (timestamp now : ℕ) (s : Detector F)
      → let observed = observe_state a event timestamp now s.document in
        (decide host observed.0 (with_cursor cursor observed.1) s).0
        ≡ answer a event timestamp now s
  unfolding observe_state
  decide_observed-answer a event cursor timestamp now s =
      let observed = observe_state a event timestamp now s.document in
      decide-answer observed.0 (with_cursor cursor observed.1) s
      ∙ ap
          (λ z. z || enforced a.compressed timestamp now (with_cursor cursor observed.1) s.firewall)
          (observe_state-banned a event timestamp now s.document)
      ∙ ap
          (λ counts.
            banned_at a.compressed now s.document.banned
            || enforced a.compressed timestamp now (record (observed.1) { ban_counts = counts })
                s.firewall)
          (with_cursor-ban_counts cursor observed.1)

  observe_parsed-answer :
      (a : Address) (event : Dict String) (cursor : String) (event_time : Option ℕ) (now : ℕ)
      (s : Detector F)
      → is_spared host (some a) cursor s ≡ false
      → (observe_parsed host a event cursor event_time now s).0
        ≡ answer a event (plausible now event_time) now s
  unfolding observe_parsed
  observe_parsed-answer a event cursor event_time now s h =
      if_cases (λ (r : Bool × Detector F). r.0 ≡ answer a event (plausible now event_time) now s)
        (not (str_eq cursor "") && str_eq s.document.journal_cursor cursor) _ _
        (λ seen. from_false (sym (or_false _ _ h).0 ∙ seen))
        (λ fresh.
          if_cases
            (λ (r : Bool × Detector F). r.0 ≡ answer a event (plausible now event_time) now s)
            (is_whitelisted host.inside a s.document.whitelist host.host_addresses) _ _
            (λ spared. from_false (sym (or_false _ _ h).1 ∙ spared))
            (λ exposed. decide_observed-answer a event cursor (plausible now event_time) now s))

  -- An event is discarded and changes the cursor at most, or it gets its answer.
  abbrev pub Decides : String → Dict String → Option ℕ → ℕ → Detector F → Bool × Detector F → Type 0
  Decides ip event event_time now s r =
      ((is_discarded host ip event s ≡ true) × IsKept host s r)
      ⊎ ((is_discarded host ip event s ≡ false)
          × ((a : Address) × (host.parse (strip_brackets ip) ≡ some a)
              × (r.0 ≡ answer a (normalized event) (plausible now event_time) now s)))

  observe_event-answer :
      (ip : String) (event : Dict String) (event_time : Option ℕ) (now : ℕ) (s : Detector F)
      → is_discarded host ip event s ≡ false
      → (a : Address) × (host.parse (strip_brackets ip) ≡ some a)
        × ((observe_event host ip event event_time now s).0
            ≡ answer a (normalized event) (plausible now event_time) now s)
  unfolding observe_event
  observe_event-answer ip event event_time now s h =
      rw (not-false (is_enforcement_evidence (normalized event)) (or_false _ _ h).0)
        (parsed (host.parse (strip_brackets ip)) refl (or_false _ _ h).1)
    where
      parsed :
          (address : Option Address)
          → host.parse (strip_brackets ip) ≡ address
          → is_spared host address (cursor_of event) s ≡ false
          → (a : Address) × (host.parse (strip_brackets ip) ≡ some a)
            × ((observe_address host address
                  (normalized event)
                  (cursor_of event)
                  event_time
                  now
                  s).0
                ≡ answer a (normalized event) (plausible now event_time) now s)
      parsed none e k = from_false (sym k)
      parsed (some a) e k =
          (a, e, observe_parsed-answer a (normalized event) (cursor_of event) event_time now s k)

-- An event that is no evidence, whose address cannot be read or is on the whitelist, or that the
-- journal cursor shows to be a repetition, is answered `false` and changes at most the journal cursor.
-- Every other event is answered `true` exactly if its address has an active ban, or if something of the
-- next ban is left in spite of the delay of the event and the firewall takes it.
pub observe_event-Decides :
    {F : Type 0} (host : Host F) (ip : String) (event : Dict String) (event_time : Option ℕ)
    (now : ℕ) (s : Detector F)
    → Decides host ip event event_time now s (observe_event host ip event event_time now s)
observe_event-Decides host ip event event_time now s =
    elim (Bool-cases (is_discarded host ip event s)) [
      | inl discarded ↦
          inl (discarded, observe_event-discards host ip event event_time now s discarded)
      | inr kept ↦ inr (kept, observe_event-answer host ip event event_time now s kept)
    ]
