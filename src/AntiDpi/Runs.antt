-- ===== src/AntiDpi/Runs.antt =====
-- Sequences of the operations of the AntiDPI detector (hydra/plugins/antidpi), each at a time.
use hydra_ultimate.Base.{ℕ, ◌≤◌, String, Bool, Option, List, [], ◌∷◌}
use hydra_ultimate.Base.Dict.{Dict}
use hydra_ultimate.AntiDpi.Management.{
  release_whitelisted_bans, sync_host_whitelist, unban, manual_ban,
}
use hydra_ultimate.AntiDpi.Detector.{Host, Detector, observe_event}
use hydra_ultimate.AntiDpi.Firewall.{IsIpset}
use hydra_ultimate.AntiDpi.Agreement.{
  Agrees, Agrees-later, observe_event-Agrees, unban-Agrees, manual_ban-Agrees,
  release_whitelisted_bans-Agrees,
}

pub data Operation : Type 0 where
  observe : String → Dict String → Option ℕ → Operation
  release : String → Operation
  ban : String → String → Operation
  release_whitelisted : Operation
  sync_whitelist : List String → Operation

-- No operation is earlier than the one before it.
abbrev pub Ascending : ℕ → List (ℕ × Operation) → Type 0
Ascending start [] = Unit
Ascending start ((now, operation) ∷ rest) = (start ≤ now) × Ascending now rest

abbrev pub end_of : ℕ → List (ℕ × Operation) → ℕ
end_of start [] = start
end_of start ((now, operation) ∷ rest) = end_of now rest

module _ {F : Type 0} (host : Host F) where
  unfoldable pub operate : Operation → ℕ → Detector F → Detector F
  unfolding observe_event unban manual_ban release_whitelisted_bans sync_host_whitelist
  operate (observe ip event event_time) now s = (observe_event host ip event event_time now s).1
  operate (release raw) now s = (unban host raw now s).1
  operate (ban raw source) now s = (manual_ban host raw source now s).1
  operate release_whitelisted now s = (release_whitelisted_bans host now s).1
  operate (sync_whitelist addresses) now s = sync_host_whitelist addresses s

  unfoldable pub operate_all : List (ℕ × Operation) → Detector F → Detector F
  unfolding operate
  operate_all [] s = s
  operate_all ((now, operation) ∷ rest) s = operate_all rest (operate operation now s)

module _ {F : Type 0} (host : Host F) (blocks : F → String → ℕ → Bool)
    (laws : IsIpset host blocks) where
  operate-Agrees :
      (operation : Operation) (now : ℕ) (s : Detector F)
      → Agrees host blocks laws now s
      → Agrees host blocks laws now (operate host operation now s)
  unfolding operate sync_host_whitelist
  operate-Agrees (observe ip event event_time) now s h =
      observe_event-Agrees host blocks laws ip event event_time now s h
  operate-Agrees (release raw) now s h = unban-Agrees host blocks laws raw now s h
  operate-Agrees (ban raw source) now s h = manual_ban-Agrees host blocks laws raw source now s h
  operate-Agrees release_whitelisted now s h =
      release_whitelisted_bans-Agrees host blocks laws now s h
  operate-Agrees (sync_whitelist addresses) now s h = h

-- Over any sequence of observed events, releases, manual bans and changes of the whitelist in the order of time, whatever the
-- firewall refuses: when it drops at the start exactly what comes from the addresses that have an
-- active ban, now and at every later time, it does so at the end.
pub operate_all-Agrees :
    {F : Type 0} (host : Host F) (blocks : F → String → ℕ → Bool) (laws : IsIpset host blocks)
    (start : ℕ) (operations : List (ℕ × Operation)) (s : Detector F)
    → Ascending start operations
    → Agrees host blocks laws start s
    → Agrees host blocks laws (end_of start operations) (operate_all host operations s)
unfolding operate_all
operate_all-Agrees host blocks laws start [] s h agrees = agrees
operate_all-Agrees host blocks laws start ((now, operation) ∷ rest) s h agrees =
    operate_all-Agrees host blocks laws now rest (operate host operation now s) h.1 (
      operate-Agrees host blocks laws operation now s
        (Agrees-later host blocks laws start now s h.0 agrees))
