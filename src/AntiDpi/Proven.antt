-- ===== src/AntiDpi/Proven.antt =====
-- `observe_event` of hydra/plugins/antidpi/detector_service.py: what its answer says, and which events
-- are discarded.
use hydra_ultimate.Base.{
  ℕ, ◌+◌, ◌-◌, ◌≤◌, String, ◌≡◌, refl, sym, ap, ◌∙◌, Bool, true, false, not, ◌&&◌, Option, none,
  some, arith, str_eq, eq_refl, ◌==◌, or_default, if_cases, from_false,
}
use hydra_ultimate.Base.Dict.{Dict, lookup}
use hydra_ultimate.AntiDpi.Detection.{Observation, observe_state, record_automatic_ban}
use hydra_ultimate.AntiDpi.{
  Ban, Data, Address, is_active, get_ban_duration, record_ban_failure, is_whitelisted,
}
use hydra_ultimate.AntiDpi.Evidence.{is_enforcement_evidence}
use hydra_ultimate.AntiDpi.Detector.{
  Host, Detector, Enforced, enforce_ban, after_intent, deliver, decide, observe_parsed,
  observe_address, observe_event, strip_brackets, with_cursor, normalized, cursor_of,
  revert_ban_intent,
}
use hydra_ultimate.AntiDpi.Blocked.{
  banned_at, banned_at-insert, ban_notice_due-banned, with_cursor-banned,
}
use hydra_ultimate.AntiDpi.Firewall.{IsIpset}
use hydra_ultimate.AntiDpi.Agreement.{Agrees, observe_event-Agrees}

module _ {F : Type 0} (host : Host F) where
  after_intent-banned :
      (o : Observation) (remaining : ℕ) (d : Data) (result : Bool × F)
      → (remaining == 0) ≡ false
      → banned_at o.address o.enforced_at d.banned ≡ false
      → let intent = record_automatic_ban o remaining d in
        let after = after_intent o intent.0 intent.1 result in
        after.banned ≡ true → banned_at o.address o.enforced_at after.document.banned ≡ true
  unfolding record_automatic_ban revert_ban_intent record_ban_failure is_active
  after_intent-banned o remaining d (false, fw) nonzero free e = from_false e
  after_intent-banned o remaining d (true, fw) nonzero free e =
      banned_at-insert o.address o.address o.enforced_at _ d.banned (ground (arith, free))
      ∙ ground (arith, nonzero, eq_refl o.address)

  enforce_ban-banned :
      (o : Observation) (d : Data) (fw : F)
      → banned_at o.address o.enforced_at d.banned ≡ false
      → (enforce_ban host o d fw).banned ≡ true
      → banned_at o.address o.enforced_at (enforce_ban host o d fw).document.banned ≡ true
  unfolding enforce_ban
  enforce_ban-banned o d fw free =
      if_cases
        (λ (e : Enforced F).
          e.banned ≡ true → banned_at o.address o.enforced_at e.document.banned ≡ true)
        (remaining == 0) _ _ (λ zero h. ground (arith, h))
        (λ nonzero.
          after_intent-banned o remaining d (host.add o.address remaining o.enforced_at fw) nonzero
            free)
    where
      remaining : ℕ
      remaining =
          get_ban_duration (or_default (lookup o.address d.ban_counts) 0 + 1)
          - (o.enforced_at - o.timestamp)

  deliver-banned :
      (o : Observation) (notice : Option Ban) (s : Detector F)
      → (deliver host o notice s).document.banned ≡ s.document.banned
  unfolding deliver
  deliver-banned o none s = refl
  deliver-banned o (some ban) s = ban_notice_due-banned o.enforced_at s.document

  decide-banned :
      (o : Observation) (d : Data) (s : Detector F)
      → o.active_ban ≡ banned_at o.address o.enforced_at d.banned
      → (decide host o d s).0 ≡ true
      → banned_at o.address o.enforced_at (decide host o d s).1.document.banned ≡ true
  unfolding decide
  decide-banned o d s e =
      if_cases
        (λ (r : Bool × Detector F).
          r.0 ≡ true → banned_at o.address o.enforced_at r.1.document.banned ≡ true)
        o.active_ban _ _ (λ already h. sym e ∙ already)
        (λ new h.
          ap (banned_at o.address o.enforced_at) (deliver-banned o _ _)
          ∙ enforce_ban-banned o d s.firewall (sym e ∙ new) h)

  -- What the answer `true` says of the address.
  abbrev Exposed : Address → ℕ → Detector F → Detector F → Type 0
  Exposed a now s after =
      (is_whitelisted host.inside a s.document.whitelist host.host_addresses ≡ false)
      × (banned_at a.compressed now after.document.banned ≡ true)

  decide_observed-banned :
      (a : Address) (event : Dict String) (cursor : String) (timestamp now : ℕ) (s : Detector F)
      → let observed = observe_state a event timestamp now s.document in
        let decided = decide host observed.0 (with_cursor cursor observed.1) s in
        decided.0 ≡ true → banned_at a.compressed now decided.1.document.banned ≡ true
  unfolding observe_state
  decide_observed-banned a event cursor timestamp now s =
      let observed = observe_state a event timestamp now s.document in
      decide-banned observed.0 (with_cursor cursor observed.1) s
        (sym (ap (banned_at (a.compressed) now) (with_cursor-banned cursor observed.1)))

  observe_parsed-Exposed :
      (a : Address) (event : Dict String) (cursor : String) (event_time : Option ℕ) (now : ℕ)
      (s : Detector F)
      → (observe_parsed host a event cursor event_time now s).0 ≡ true
      → Exposed a now s (observe_parsed host a event cursor event_time now s).1
  unfolding observe_parsed
  observe_parsed-Exposed a event cursor event_time now s =
      if_cases (λ (r : Bool × Detector F). r.0 ≡ true → Exposed a now s r.1)
        (not (str_eq cursor "") && str_eq s.document.journal_cursor cursor) _ _
        (λ seen h. ground (arith, h))
        (λ fresh.
          if_cases (λ (r : Bool × Detector F). r.0 ≡ true → Exposed a now s r.1)
            (is_whitelisted host.inside a s.document.whitelist host.host_addresses) _ _
            (λ spared h. ground (arith, h))
            (λ exposed h. (exposed, decide_observed-banned a event cursor _ now s h)))

module _ {F : Type 0} (host : Host F) where
  observe_event-Exposed :
      (ip : String) (event : Dict String) (event_time : Option ℕ) (now : ℕ) (s : Detector F)
      → (observe_event host ip event event_time now s).0 ≡ true
      → (is_enforcement_evidence (normalized event) ≡ true)
        × ((a : Address) × (host.parse (strip_brackets ip) ≡ some a)
            × Exposed host a now s (observe_event host ip event event_time now s).1)
  unfolding observe_event
  observe_event-Exposed ip event event_time now s =
      if_cases
        (λ (r : Bool × Detector F).
          r.0 ≡ true
          → (is_enforcement_evidence (normalized event) ≡ true)
            × ((a : Address) × (host.parse (strip_brackets ip) ≡ some a)
                × Exposed host a now s r.1))
        (is_enforcement_evidence (normalized event)) _ _
        (λ proven h. (proven, parsed (host.parse (strip_brackets ip)) refl h)) (λ other h. cc)
    where
      parsed :
          (address : Option Address)
          → host.parse (strip_brackets ip) ≡ address
          → (observe_address host address (normalized event) (cursor_of event) event_time now s).0
            ≡ true
          → (a : Address) × (host.parse (strip_brackets ip) ≡ some a)
            × Exposed host a now s
                (observe_address host address
                  (normalized event)
                  (cursor_of event)
                  event_time
                  now
                  s).1
      parsed none e h = cc
      parsed (some a) e h = (
        a,
        e,
        observe_parsed-Exposed host a (normalized event) (cursor_of event) event_time now s h,
      )

-- When the firewall and the document agree before, an answer `true` is given only to a proven event of
-- an address that can be read and is not on the whitelist. The firewall then drops what comes from it,
-- and goes on as long as the ban lasts that the document holds for it, and no longer.
pub observe_event-proven :
    {F : Type 0} (host : Host F) (blocks : F → String → ℕ → Bool) (laws : IsIpset host blocks)
    (ip : String) (event : Dict String) (event_time : Option ℕ) (now : ℕ) (s : Detector F)
    → Agrees host blocks laws now s
    → (observe_event host ip event event_time now s).0 ≡ true
    → (is_enforcement_evidence (normalized event) ≡ true)
      × ((a : Address) × (host.parse (strip_brackets ip) ≡ some a)
          × (is_whitelisted host.inside a s.document.whitelist host.host_addresses ≡ false)
          × (blocks (observe_event host ip event event_time now s).1.firewall a.compressed now
              ≡ true)
          × ((t : ℕ)
              → now ≤ t
              → blocks (observe_event host ip event event_time now s).1.firewall a.compressed t
                ≡ banned_at a.compressed t
                    (observe_event host ip event event_time now s).1.document.banned))
observe_event-proven {F} host blocks laws ip event event_time now s agrees h =
    let exposed = observe_event-Exposed host ip event event_time now s h in
    let a = exposed.1.0 in
    let agreeing =
      observe_event-Agrees host blocks laws ip event event_time now s agrees a.compressed in
    (
      exposed.0,
      (
        a,
        exposed.1.1,
        exposed.1.2.0,
        agreeing now (omega arith) ∙ exposed.1.2.1,
        λ t le. agreeing t le,
      ),
    )
