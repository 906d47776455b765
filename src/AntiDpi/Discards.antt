-- ===== src/AntiDpi/Discards.antt =====
-- `observe_event` of hydra/plugins/antidpi/detector_service.py: which events are discarded.
use hydra_ultimate.Base.{
  ℕ, String, ◌≡◌, refl, sym, ap, ◌∙◌, Bool, true, false, not, ◌&&◌, ◌||◌, Option, none, some,
  str_eq, if_cases, from_false, or_right,
}
use hydra_ultimate.Base.Dict.{Dict}
use hydra_ultimate.AntiDpi.{Address, is_whitelisted}
use hydra_ultimate.AntiDpi.Evidence.{is_enforcement_evidence}
use hydra_ultimate.AntiDpi.Detector.{
  Host, Detector, observe_parsed, observe_address, observe_event, strip_brackets, with_cursor,
  normalized, cursor_of,
}

module _ {F : Type 0} (host : Host F) where
  -- The address cannot be read, the event has been seen, or the address is spared.
  abbrev pub is_spared : Option Address → String → Detector F → Bool
  is_spared none cursor s = true
  is_spared (some a) cursor s =
      (not (str_eq cursor "") && str_eq s.document.journal_cursor cursor)
      || is_whitelisted host.inside a s.document.whitelist host.host_addresses

  abbrev pub is_discarded : String → Dict String → Detector F → Bool
  is_discarded ip event s =
      not (is_enforcement_evidence (normalized event))
      || is_spared (host.parse (strip_brackets ip)) (cursor_of event) s

  -- All but the cursor is as it was.
  abbrev pub with_journal_cursor : String → Detector F → Detector F
  with_journal_cursor cursor s = record s {
    document = record (s.document) { journal_cursor = cursor };
  }

  abbrev pub IsKept : Detector F → Bool × Detector F → Type 0
  IsKept s r = (cursor : String) × (r ≡ (false, with_journal_cursor cursor s))

  with_cursor-IsKept :
      (cursor : String) (s : Detector F)
      → IsKept s (false, record s { document = with_cursor cursor s.document })
  with_cursor-IsKept cursor s = go (str_eq cursor "") refl
    where
      go :
          (empty : Bool)
          → str_eq cursor "" ≡ empty
          → IsKept s (false, record s { document = with_cursor cursor s.document })
      go true e = (s.document.journal_cursor, rw e refl)
      go false e = (cursor, rw e refl)

  spared-IsKept :
      (address : Option Address) (event : Dict String) (cursor : String) (event_time : Option ℕ)
      (now : ℕ) (s : Detector F)
      → is_spared address cursor s ≡ true
      → IsKept s (observe_address host address event cursor event_time now s)
  unfolding observe_parsed
  spared-IsKept none event cursor event_time now s h = (s.document.journal_cursor, refl)
  spared-IsKept (some a) event cursor event_time now s h =
      if_cases (IsKept s) (not (str_eq cursor "") && str_eq s.document.journal_cursor cursor) _ _
        (λ seen. (s.document.journal_cursor, refl))
        (λ fresh.
          if_cases (IsKept s)
            (is_whitelisted host.inside a s.document.whitelist host.host_addresses) _ _
            (λ spared. with_cursor-IsKept cursor s)
            (λ exposed. from_false (sym exposed ∙ or_right _ _ h fresh)))

-- A discarded event changes no ban, no count, no history, not the firewall and not the queue of notices.
pub observe_event-discards :
    {F : Type 0} (host : Host F) (ip : String) (event : Dict String) (event_time : Option ℕ)
    (now : ℕ) (s : Detector F)
    → is_discarded host ip event s ≡ true
    → IsKept host s (observe_event host ip event event_time now s)
unfolding observe_event
observe_event-discards host ip event event_time now s h =
    if_cases (IsKept host s) (is_enforcement_evidence (normalized event)) _ _
      (λ proven.
        spared-IsKept host (host.parse (strip_brackets ip)) (normalized event) (cursor_of event)
          event_time now s (or_right _ _ h (ap not proven)))
      (λ other. with_cursor-IsKept host (cursor_of event) s)
