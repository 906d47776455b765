-- ===== src/AntiDpi/Tests.antt =====
-- A firewall that holds the end of each entry, and that refuses one address.
use hydra_ultimate.Base.{
  ℕ, ◌+◌, ◌≤◌, String, ◌≡◌, refl, sym, ap, ◌∙◌, Bool, true, false, not, ◌&&◌, ◌||◌, Option, none,
  some, List, [], ◌∷◌, arith, str_eq, ltb, ◌==◌, if◌then◌else◌, if_cases, from_false,
}
use hydra_ultimate.Base.Dict.{Dict, lookup, insert, erase, lookup-insert, lookup-erase}
use hydra_ultimate.Base.Text.{prefix, starts_with}
use hydra_ultimate.AntiDpi.Management.{manual_current}
use hydra_ultimate.AntiDpi.{Data, Address, active_bans, is_active, is_whitelisted}
use hydra_ultimate.AntiDpi.Evidence.{is_enforcement_evidence}
use hydra_ultimate.AntiDpi.Detector.{
  Host, Detector, CommandResult, observe_event, del_failed, strip_brackets, normalized,
}
use hydra_ultimate.AntiDpi.Blocked.{banned_at}
use hydra_ultimate.AntiDpi.Firewall.{IsIpset}
use hydra_ultimate.AntiDpi.Agreement.{Agrees}
use hydra_ultimate.AntiDpi.Runs.{
  Operation, observe, release, ban, release_whitelisted, sync_whitelist, operate_all,
  operate_all-Agrees,
}
use hydra_ultimate.AntiDpi.Proven.{observe_event-proven}
use hydra_ultimate.AntiDpi.Discards.{is_discarded}
use hydra_ultimate.AntiDpi.Answers.{Decides, observe_event-Decides}

-- The end of an entry; one without an end stays.
abbrev Entries : Type 0
Entries = Dict (Option ℕ)

abbrev entry : ℕ → ℕ → Option ℕ
entry duration now = if duration == 0 then none else some (now + duration)

abbrev holds : Option (Option ℕ) → ℕ → Bool
holds none t = false
holds (some none) t = true
holds (some (some end)) t = ltb t end

abbrev blocks : Entries → String → ℕ → Bool
blocks entries a t = holds (lookup a entries) t

abbrev parse : String → Option Address
parse text =
    if starts_with "203.0.113." text || starts_with "10." text
    then some (record { compressed = text; is_loopback = false; is_link_local = false })
    else none

abbrev inside : Address → String → Bool
inside a raw =
    str_eq raw a.compressed || (str_eq raw "10.0.0.0/8" && starts_with "10." a.compressed)

abbrev add : String → ℕ → ℕ → Entries → Bool × Entries
add a duration now entries =
    if str_eq a "203.0.113.66"
    then (false, entries)
    else (true, insert a (entry duration now) entries)

abbrev done : CommandResult
done = record { returncode = 0; stdout = ""; stderr = "" }

abbrev host : Host Entries
host = record {
  parse = parse;
  inside = inside;
  host_addresses = "203.0.113.1" ∷ [];
  prepare = λ entries. (true, entries);
  add = add;
  del = λ a now entries. (done, erase a entries);
}

holds-entry :
    (duration now t : ℕ)
    → holds (some (entry duration now)) t ≡ ((duration == 0) || ltb t (now + duration))
holds-entry duration now t = ground arith

blocks-insert :
    (a b : String) (duration now t : ℕ) (entries : Entries)
    → blocks (insert a (entry duration now) entries) b t
      ≡ (if str_eq a b then (duration == 0) || ltb t (now + duration) else blocks entries b t)
blocks-insert a b duration now t entries =
    ground (arith, lookup-insert a b (entry duration now) entries, holds-entry duration now t)

blocks-erase :
    (a b : String) (t : ℕ) (entries : Entries)
    → blocks (erase a entries) b t ≡ (if str_eq a b then false else blocks entries b t)
blocks-erase a b t entries = ground (arith, lookup-erase a b entries)

added :
    (a b : String) (duration now t : ℕ) (entries new : Entries)
    → add a duration now entries ≡ (true, new)
    → blocks new b t
      ≡ (if str_eq a b then (duration == 0) || ltb t (now + duration) else blocks entries b t)
added a b duration now t entries new =
    if_cases
      (λ (r : Bool × Entries).
        r ≡ (true, new)
        → blocks new b t
          ≡ (if str_eq a b then (duration == 0) || ltb t (now + duration) else blocks entries b t))
      (str_eq a "203.0.113.66") _ _ (λ refused e. from_false (ap (λ r. r.0) e))
      (λ taken e. ap (λ r. blocks r.1 b t) (sym e) ∙ blocks-insert a b duration now t entries)

not_added :
    (a b : String) (duration now t : ℕ) (entries new : Entries)
    → add a duration now entries ≡ (false, new)
    → blocks new b t ≡ blocks entries b t
not_added a b duration now t entries new =
    if_cases (λ (r : Bool × Entries). r ≡ (false, new) → blocks new b t ≡ blocks entries b t)
      (str_eq a "203.0.113.66") _ _ (λ refused e. ap (λ r. blocks r.1 b t) (sym e))
      (λ taken e. from_false (sym (ap (λ r. r.0) e)))

done_succeeds : del_failed done ≡ false
unfolding del_failed
done_succeeds = refl

deleted :
    (a b : String) (now t : ℕ) (entries new : Entries) (r : CommandResult)
    → ◌≡◌ {A = CommandResult × Entries} (done, erase a entries) (r, new)
    → blocks new b t ≡ (if str_eq a b && not (del_failed r) then false else blocks entries b t)
deleted a b now t entries new r e =
    ap (λ q. blocks q.1 b t) (sym e)
    ∙ blocks-erase a b t entries
    ∙ ground (arith, sym (ap (λ q. del_failed q.0) e) ∙ done_succeeds)

abbrev laws : IsIpset host blocks
laws = record {
  added = λ a b duration now t entries new le e. added a b duration now t entries new e;
  not_added = not_added;
  deleted = λ a b now t entries new r le e. deleted a b now t entries new r e;
  prepared = λ b t entries. refl;
}

abbrev document : Data
document = record {
  banned = [];
  ban_counts = [];
  history = [];
  whitelist = [];
  events = 0;
  last_event_at = 0;
  last_event_source = "";
  journal_cursor = "";
  ban_failures = record { count = 0; last_at = 0; last_ip = "" };
  last_ban_notification_at = 0;
  suppressed_ban_notifications = 0;
}

abbrev detector : Detector Entries
detector = record { document = document; firewall = []; queue = [] }

abbrev scan : String → Dict String
scan cursor =
    ("kind", "decoy_scan")
    ∷ ("protocol", "HTTPS")
    ∷ ("reason", "scanner_path")
    ∷ ("source", "caddy-decoy")
    ∷ ("attribution", "direct")
    ∷ ("_journal_cursor", cursor)
    ∷ []

abbrev after : ℕ → String → Bool × Detector Entries
after now ip = observe_event host ip (scan "c1") none now detector

scan_is_banned : (after 100 "[203.0.113.9]").0 ≡ true
unfolding observe_event starts_with
scan_is_banned = refl

scan_is_blocked : (after 100 "[203.0.113.9]").1.firewall ≡ (("203.0.113.9", some 700) ∷ [])
unfolding observe_event starts_with
scan_is_blocked = refl

refused_is_no_ban : (after 100 "203.0.113.66").1.document.banned ≡ []
unfolding observe_event starts_with
refused_is_no_ban = refl

detector-Agrees : Agrees host blocks laws 100 detector
unfolding lookup active_bans
detector-Agrees a t le = refl

abbrev operations : List (ℕ × Operation)
operations =
    (100, observe "203.0.113.9" (scan "c1") none)
    ∷ (200, observe "203.0.113.66" (scan "c2") none)
    ∷ (250, release "203.0.113.9")
    ∷ (300, ban "203.0.113.7" "menu")
    ∷ (400, observe "203.0.113.9" (scan "c3") (some 350))
    ∷ (450, sync_whitelist ("203.0.113.9" ∷ []))
    ∷ (460, release_whitelisted)
    ∷ []

operations_end : (operate_all host operations detector).firewall ≡ (("203.0.113.7", none) ∷ [])
unfolding operate_all starts_with is_active manual_current del_failed
operations_end = refl

operate_all-Agrees_example : Agrees host blocks laws 460 (operate_all host operations detector)
operate_all-Agrees_example =
    operate_all-Agrees host blocks laws 100 operations detector
      (
        omega arith,
        (
          omega arith,
          (omega arith, (omega arith, (omega arith, (omega arith, (omega arith, tt))))),
        ),
      )
      detector-Agrees

observe_event-proven_example :
    (is_enforcement_evidence (normalized (scan "c1")) ≡ true)
    × ((a : Address) × (host.parse (strip_brackets "[203.0.113.9]") ≡ some a)
        × (is_whitelisted host.inside a detector.document.whitelist host.host_addresses ≡ false)
        × (blocks (after 100 "[203.0.113.9]").1.firewall a.compressed 100 ≡ true)
        × ((t : ℕ)
            → 100 ≤ t
            → blocks (after 100 "[203.0.113.9]").1.firewall a.compressed t
              ≡ banned_at a.compressed t (after 100 "[203.0.113.9]").1.document.banned))
observe_event-proven_example =
    observe_event-proven host blocks laws "[203.0.113.9]" (scan "c1") none 100 detector
      detector-Agrees scan_is_banned

trusted_is_discarded : is_discarded host "10.1.2.3" (scan "c1") detector ≡ true
unfolding is_enforcement_evidence starts_with strip_brackets is_whitelisted lookup erase prefix
trusted_is_discarded = refl

observe_event-Decides_example :
    Decides host "203.0.113.9" (scan "c1") none 100 detector (after 100 "203.0.113.9")
observe_event-Decides_example =
    observe_event-Decides host "203.0.113.9" (scan "c1") none 100 detector
