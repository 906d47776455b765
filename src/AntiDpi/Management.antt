-- ===== src/AntiDpi/Management.antt =====
-- hydra/plugins/antidpi/management.py: releases and manual bans.
use hydra_ultimate.Base.{
  ℕ, String, Bool, true, false, Option, none, some, List, [], ◌∷◌, ◌++◌, if◌then◌else◌, contains,
  keep, ◌+◌,
}
use hydra_ultimate.Base.Dict.{lookup, keys}
use hydra_ultimate.Base.Text.{prefix, lower, strip}
use hydra_ultimate.AntiDpi.{
  Ban, Data, Address, is_whitelisted, active_bans, expire_bans, record_ban_failure, record_unban,
  record_manual_ban, manual_metadata,
}
use hydra_ultimate.AntiDpi.Detector.{Host, Detector, strip_brackets, has_text, del_failed}

module _ {F : Type 0} (host : Host F) where
  abbrev pub unban_address : Option Address → ℕ → Detector F → Bool × Detector F
  unfolding has_text lower record_unban
  unban_address none now s = (false, s)
  unban_address (some a) now s =
      let deleted = host.del (a.compressed) now s.firewall in
      if del_failed deleted.0 then (false, record s { firewall = deleted.1 }) else (
        true,
        record s { document = record_unban (a.compressed) now s.document; firewall = deleted.1 },
      )

  unfoldable pub unban : String → ℕ → Detector F → Bool × Detector F
  unfolding strip_brackets has_text lower record_unban
  unban raw now s = unban_address (host.parse (strip_brackets raw)) now s

  -- The active bans that the whitelist covers, as in `release_whitelisted_bans` and `whitelisted_bans`
  abbrev is_covered : List String → Option Address → Bool
  unfolding is_whitelisted
  is_covered whitelist none = false
  is_covered whitelist (some a) = is_whitelisted host.inside a whitelist host.host_addresses

  unfoldable pub covered_bans : ℕ → Data → List String
  unfolding is_whitelisted active_bans
  covered_bans now d =
      keep (λ address. is_covered d.whitelist (host.parse address))
        (keys (active_bans now d.banned))

  -- Each address is released on its own; the number of those that were.
  unfoldable pub unban_each : List String → ℕ → Detector F → ℕ × Detector F
  unfolding unban
  unban_each [] now s = (0, s)
  unban_each (address ∷ addresses) now s =
      let first = unban address now s in
      let rest = unban_each addresses now first.1 in
      (if first.0 then rest.0 + 1 else rest.0, rest.1)

  unfoldable pub release_whitelisted_bans : ℕ → Detector F → ℕ × Detector F
  unfolding covered_bans unban_each
  release_whitelisted_bans now s = unban_each (covered_bans now s.document) now s

-- `sync_host_whitelist`: the addresses that are not yet listed, at the end of the list
abbrev with_addresses : List String → List String → List String
with_addresses [] values = values
with_addresses (address ∷ addresses) values =
    with_addresses addresses (if contains address values then values else values ++ (address ∷ []))

unfoldable pub sync_host_whitelist : {F : Type 0} → List String → Detector F → Detector F
sync_host_whitelist addresses s = record s {
  document = record (s.document) { whitelist = with_addresses addresses s.document.whitelist };
}

-- What `manual_ban` returns: `error`, or the metadata of the ban.
pub data ManualResult : Type 0 where
  error : String → ManualResult
  already_active : Ban → ManualResult
  banned_now : Ban → ManualResult

module _ {F : Type 0} (host : Host F) where
  -- From the durable intent on; `old` is the document as it was before.
  unfoldable pub manual_enforced :
      Address → Ban → ℕ → Data → Data → Detector F → Bool × F → ManualResult × Detector F
  unfolding record_ban_failure
  manual_enforced a metadata now old new s (true, fw) =
      (banned_now metadata, record s { document = new; firewall = fw })
  manual_enforced a metadata now old new s (false, fw) = (
    error "firewall_error",
    record s { document = record_ban_failure (a.compressed) now old; firewall = fw },
  )

  unfoldable pub manual_new :
      Address → String → ℕ → Option Ban → Data → Detector F → ManualResult × Detector F
  unfolding manual_enforced record_manual_ban lookup prefix
  manual_new a source now current old s =
      let intent = record_manual_ban (a.compressed) source now current old in
      let metadata = manual_metadata (a.compressed) source now current old in
      manual_enforced a metadata now old intent s (host.add (a.compressed) 0 now s.firewall)

  -- A permanent ban is left as it is.
  unfoldable pub manual_current :
      Address → String → ℕ → Option Ban → Data → Detector F → ManualResult × Detector F
  unfolding manual_new
  manual_current a source now none old s = manual_new a source now none old s
  manual_current a source now (some ban) old s =
      if ban.permanent then (already_active ban, s) else manual_new a source now (some ban) old s

  -- Under the lock.
  unfoldable pub manual_locked : Address → String → ℕ → Detector F → ManualResult × Detector F
  unfolding is_whitelisted expire_bans active_bans lookup manual_current
  manual_locked a source now s =
      let old = expire_bans now s.document in
      let current = lookup (a.compressed) (active_bans now old.banned) in
      if is_whitelisted host.inside a s.document.whitelist host.host_addresses
      then (error "whitelisted", s)
      else manual_current a source now current old s

  abbrev pub manual_ban_address :
      Option Address → String → ℕ → Detector F → ManualResult × Detector F
  unfolding manual_locked
  manual_ban_address none source now s = (error "invalid_ip", s)
  manual_ban_address (some a) source now s =
      let prepared = host.prepare s.firewall in
      let s_prepared = record s { firewall = prepared.1 } in
      if prepared.0
      then manual_locked a source now s_prepared
      else (error "firewall_error", s_prepared)

  unfoldable pub manual_ban : String → String → ℕ → Detector F → ManualResult × Detector F
  unfolding strip_brackets strip manual_locked
  manual_ban raw source now s =
      manual_ban_address (host.parse (strip_brackets (strip raw))) source now s
