-- ===== src/AntiDpi/Agreement.antt =====
-- The bans in the document and in the firewall (hydra/plugins/antidpi/detector_service.py,
-- management.py), over any sequence of operations.
use hydra_ultimate.Base.{
  ℕ, ◌+◌, ◌%◌, ◌≤◌, String, ◌≡◌, refl, sym, ap, ◌∙◌, Bool, true, false, not, ◌&&◌, Option, none,
  some, List, [], ◌∷◌, arith, str_eq, ◌==◌, Bool-cases, if_cases, inl, inr,
}
use hydra_ultimate.Base.Dict.{Dict, lookup, insert}
use hydra_ultimate.Base.Text.{strip}
use hydra_ultimate.AntiDpi.Detection.{Observation, observe_state}
use hydra_ultimate.AntiDpi.Management.{
  unban, unban_each, release_whitelisted_bans, covered_bans, unban_address, manual_ban,
  manual_ban_address, manual_locked, manual_current, manual_new, manual_enforced, ManualResult,
}
use hydra_ultimate.AntiDpi.{
  Ban, Data, is_active, active_bans, expire_bans, prune_ban_counts, record_manual_ban, record_unban,
  record_ban_failure, manual_metadata, is_whitelisted, Address,
}
use hydra_ultimate.AntiDpi.Evidence.{is_enforcement_evidence}
use hydra_ultimate.AntiDpi.Detector.{
  Host, Detector, enforce_ban, deliver, decide, observe_parsed, observe_address, observe_event,
  del_failed, strip_brackets, with_cursor, normalized, cursor_of,
}
use hydra_ultimate.AntiDpi.Blocked.{
  banned_at, banned_at-erase, banned_at-active_bans, ban_notice_due-banned, with_cursor-banned,
}
use hydra_ultimate.AntiDpi.Firewall.{IsIpset, Agree, Agree-insert, enforce_ban-Agree}

module _ {F : Type 0} (host : Host F) (blocks : F → String → ℕ → Bool)
    (laws : IsIpset host blocks) where
  abbrev pub Agrees : ℕ → Detector F → Type 0
  Agrees now s = Agree host blocks laws now s.document.banned s.firewall

  pub Agrees-later : (n now : ℕ) (s : Detector F) → n ≤ now → Agrees n s → Agrees now s
  Agrees-later n now s le h a t k = h a t (omega arith)

  -- The notices touch neither.
  deliver-Agrees :
      (now : ℕ) (o : Observation) (notice : Option Ban) (s : Detector F)
      → Agrees now s
      → Agrees now (deliver host o notice s)
  unfolding deliver
  deliver-Agrees now o none s h = h
  deliver-Agrees now o (some ban) s h = rw (ban_notice_due-banned o.enforced_at s.document) h

  decide-Agrees :
      (o : Observation) (d : Data) (s : Detector F)
      → o.active_ban ≡ banned_at o.address o.enforced_at d.banned
      → Agree host blocks laws o.enforced_at d.banned s.firewall
      → Agrees o.enforced_at (decide host o d s).1
  unfolding decide
  decide-Agrees o d s e h =
      if_cases (λ (r : Bool × Detector F). Agrees o.enforced_at r.1) o.active_ban _ _ (λ already. h)
        (λ new.
          deliver-Agrees o.enforced_at o (enforce_ban host o d s.firewall).notice
            (record s {
              document = (enforce_ban host o d s.firewall).document;
              firewall = (enforce_ban host o d s.firewall).firewall;
            })
            (enforce_ban-Agree host blocks laws o d s.firewall (sym e ∙ new) h))

  -- What has elapsed may be swept away.
  Agree-active_bans :
      (now : ℕ) (banned : Dict Ban) (fw : F)
      → Agree host blocks laws now banned fw
      → Agree host blocks laws now (active_bans now banned) fw
  Agree-active_bans now banned fw h a t le =
      h a t le ∙ sym (banned_at-active_bans a now t banned le)

  observe_state-Agree :
      (parsed : Address) (event : Dict String) (timestamp now : ℕ) (d : Data) (fw : F)
      → Agree host blocks laws now d.banned fw
      → Agree host blocks laws now (observe_state parsed event timestamp now d).1.banned fw
  unfolding observe_state expire_bans prune_ban_counts
  observe_state-Agree parsed event timestamp now d fw h =
      elim (Bool-cases ((d.events + 1) % 256 == 0)) [
        | inl full ↦ rw full (Agree-active_bans now d.banned fw h)
        | inr other ↦ rw other h
      ]

  with_cursor-Agree :
      (now : ℕ) (cursor : String) (d : Data) (fw : F)
      → Agree host blocks laws now d.banned fw
      → Agree host blocks laws now (with_cursor cursor d).banned fw
  with_cursor-Agree now cursor d fw h a t le =
      h a t le ∙ sym (ap (banned_at a t) (with_cursor-banned cursor d))

  decide_observed-Agrees :
      (parsed : Address) (event : Dict String) (cursor : String) (timestamp now : ℕ)
      (s : Detector F)
      → Agrees now s
      → let observed = observe_state parsed event timestamp now s.document in
        Agrees now (decide host observed.0 (with_cursor cursor observed.1) s).1
  unfolding observe_state
  decide_observed-Agrees parsed event cursor timestamp now s h =
      let observed = observe_state parsed event timestamp now s.document in
      decide-Agrees observed.0 (with_cursor cursor observed.1) s
        (sym (ap (banned_at (parsed.compressed) now) (with_cursor-banned cursor observed.1)))
        (with_cursor-Agree now cursor observed.1 s.firewall
          (observe_state-Agree parsed event timestamp now s.document s.firewall h))

  observe_parsed-Agrees :
      (parsed : Address) (event : Dict String) (cursor : String) (event_time : Option ℕ) (now : ℕ)
      (s : Detector F)
      → Agrees now s
      → Agrees now (observe_parsed host parsed event cursor event_time now s).1
  unfolding observe_parsed
  observe_parsed-Agrees parsed event cursor event_time now s h =
      if_cases (λ (r : Bool × Detector F). Agrees now r.1)
        (not (str_eq cursor "") && str_eq s.document.journal_cursor cursor) _ _ (λ seen. h)
        (λ fresh.
          if_cases (λ (r : Bool × Detector F). Agrees now r.1)
            (is_whitelisted host.inside parsed s.document.whitelist host.host_addresses) _ _
            (λ spared. with_cursor-Agree now cursor s.document s.firewall h)
            (λ exposed. decide_observed-Agrees parsed event cursor _ now s h))

  pub observe_event-Agrees :
      (ip : String) (event : Dict String) (event_time : Option ℕ) (now : ℕ) (s : Detector F)
      → Agrees now s
      → Agrees now (observe_event host ip event event_time now s).1
  unfolding observe_event
  observe_event-Agrees ip event event_time now s h =
      if_cases (λ (r : Bool × Detector F). Agrees now r.1)
        (is_enforcement_evidence (normalized event)) _ _
        (λ proven. parsed (host.parse (strip_brackets ip)))
        (λ other. with_cursor-Agree now (cursor_of event) s.document s.firewall h)
    where
      parsed :
          (address : Option Address)
          → Agrees now
              (observe_address host address (normalized event) (cursor_of event) event_time now s).1
      parsed none = h
      parsed (some a) =
          observe_parsed-Agrees a (normalized event) (cursor_of event) event_time now s h

  pub unban-Agrees :
      (raw : String) (now : ℕ) (s : Detector F) → Agrees now s → Agrees now (unban host raw now s).1
  unfolding unban record_unban
  unban-Agrees raw now s h = parsed (host.parse (strip_brackets raw))
    where
      parsed : (address : Option Address) → Agrees now (unban_address host address now s).1
      parsed none = h
      parsed (some a) =
          if_cases (λ (r : Bool × Detector F). Agrees now r.1)
            (del_failed (host.del a.compressed now s.firewall).0) _ _
            (λ kept b t le.
              laws.deleted a.compressed b now t s.firewall _ _ le refl
              ∙ ground (arith, kept, h b t le))
            (λ removed b t le.
              laws.deleted a.compressed b now t s.firewall _ _ le refl
              ∙ ground
                  (arith, removed, h b t le, banned_at-erase a.compressed b t s.document.banned))

  manual_enforced-Agrees :
      (a : Address) (metadata : Ban) (now : ℕ) (old new : Data) (s : Detector F) (result : Bool × F)
      → host.add a.compressed 0 now s.firewall ≡ result
      → new.banned ≡ insert a.compressed metadata old.banned
      → metadata.permanent ≡ true
      → Agree host blocks laws now old.banned s.firewall
      → Agrees now (manual_enforced host a metadata now old new s result).1
  unfolding manual_enforced record_ban_failure is_active
  manual_enforced-Agrees a metadata now old new s (true, fw) e written forever h b t le =
      rw written (
        Agree-insert host blocks laws a.compressed 0 now metadata old.banned s.firewall fw e
          (λ t. ground (arith, forever)) (λ t le. ground (arith, forever)) h b t le)
  manual_enforced-Agrees a metadata now old new s (false, fw) e written forever h b t le =
      laws.not_added a.compressed b 0 now t s.firewall fw e ∙ h b t le

  manual_new-Agrees :
      (a : Address) (source : String) (now : ℕ) (current : Option Ban) (old : Data) (s : Detector F)
      → Agree host blocks laws now old.banned s.firewall
      → Agrees now (manual_new host a source now current old s).1
  unfolding manual_new record_manual_ban
  manual_new-Agrees a source now current old s h =
      manual_enforced-Agrees a (manual_metadata a.compressed source now current old) now old
        (record_manual_ban a.compressed source now current old) s
        (host.add a.compressed 0 now s.firewall) refl refl refl h

  manual_locked-Agrees :
      (a : Address) (source : String) (now : ℕ) (s : Detector F)
      → Agrees now s
      → Agrees now (manual_locked host a source now s).1
  unfolding manual_locked manual_current expire_bans
  manual_locked-Agrees a source now s h =
      if_cases (λ (r : ManualResult × Detector F). Agrees now r.1)
        (is_whitelisted host.inside a s.document.whitelist host.host_addresses) _ _ (λ spared. h)
        (λ exposed.
          current (lookup a.compressed (active_bans now (active_bans now s.document.banned))))
    where
      swept : Agree host blocks laws now (expire_bans now s.document).banned s.firewall
      swept = Agree-active_bans now s.document.banned s.firewall h

      current :
          (ban : Option Ban)
          → Agrees now (manual_current host a source now ban (expire_bans now s.document) s).1
      current none = manual_new-Agrees a source now none (expire_bans now s.document) s swept
      current (some ban) =
          if_cases (λ (r : ManualResult × Detector F). Agrees now r.1) ban.permanent _ _
            (λ already. h)
            (λ timed.
              manual_new-Agrees a source now (some ban) (expire_bans now s.document) s swept)

  pub manual_ban-Agrees :
      (raw source : String) (now : ℕ) (s : Detector F)
      → Agrees now s
      → Agrees now (manual_ban host raw source now s).1
  unfolding manual_ban
  manual_ban-Agrees raw source now s h = parsed (host.parse (strip_brackets (strip raw)))
    where
      prepared : Detector F
      prepared = record s { firewall = (host.prepare s.firewall).1 }

      prepared-Agrees : Agrees now prepared
      prepared-Agrees b t le = laws.prepared b t s.firewall ∙ h b t le

      parsed :
          (address : Option Address) → Agrees now (manual_ban_address host address source now s).1
      parsed none = h
      parsed (some a) =
          if_cases (λ (r : ManualResult × Detector F). Agrees now r.1) (host.prepare s.firewall).0 _
            _ (λ ready. manual_locked-Agrees a source now prepared prepared-Agrees)
            (λ broken. prepared-Agrees)

  unban_each-Agrees :
      (addresses : List String) (now : ℕ) (s : Detector F)
      → Agrees now s
      → Agrees now (unban_each host addresses now s).1
  unfolding unban_each
  unban_each-Agrees [] now s h = h
  unban_each-Agrees (address ∷ addresses) now s h =
      unban_each-Agrees addresses now (unban host address now s).1 (unban-Agrees address now s h)

  pub release_whitelisted_bans-Agrees :
      (now : ℕ) (s : Detector F) → Agrees now s → Agrees now (release_whitelisted_bans host now s).1
  unfolding release_whitelisted_bans
  release_whitelisted_bans-Agrees now s h =
      unban_each-Agrees (covered_bans host now s.document) now s h
