-- ===== src/AntiDpi/Detector.antt =====
-- hydra/plugins/antidpi/detector_service.py (`observe_event`): what changes the bans, in the document and in the firewall.
use hydra_ultimate.Base.{
  ℕ, ◌+◌, ◌-◌, String, Bool, true, false, not, ◌&&◌, ◌||◌, Option, none, some, List, [], ◌∷◌, ◌++◌,
  str_eq, ◌==◌, ltb, if◌then◌else◌, or_default,
}
use hydra_ultimate.Base.Dict.{Dict, lookup, insert, erase}
use hydra_ultimate.Base.Text.{prefix, lower, starts_with}
use hydra_ultimate.AntiDpi.Detection.{Observation, observe_state, record_automatic_ban}
use hydra_ultimate.AntiDpi.{
  Ban, Data, Address, failed, get_ban_duration, is_whitelisted, record_ban_failure, close_newest,
}
use hydra_ultimate.AntiDpi.Evidence.{is_enforcement_evidence}

-- The result of a command.
pub record CommandResult : Type 0 where
  pub returncode : ℕ
  pub stdout : String
  pub stderr : String

-- What is not of this program: `ipaddress` (the parser and the membership in a network), the addresses
-- of the machine, and the firewall `F` with the commands `ipset add A timeout D -exist` and
-- `ipset del A` at a time, and those that make the sets and the rules.
pub record Host (F : Type 0) : Type 0 where
  pub parse : String → Option Address
  pub inside : Address → String → Bool
  pub host_addresses : List String
  pub prepare : F → Bool × F
  pub add : String → ℕ → ℕ → F → Bool × F
  pub del : String → ℕ → F → CommandResult × F

-- The queue holds the notices for the messenger: who is banned, and how.
pub record Detector (F : Type 0) : Type 0 where
  pub document : Data
  pub firewall : F
  pub queue : List (Observation × Ban)

-- `s.strip("[]")`
is_bracket : String → Bool
is_bracket s = str_eq s "[" || str_eq s "]"

lstrip_brackets : String → String
unfolding is_bracket
lstrip_brackets String.[] = String.[]
lstrip_brackets (String.◌∷◌ c s) =
    let rest = lstrip_brackets s in
    if is_bracket (String.◌∷◌ c String.[]) then rest else String.◌∷◌ c s

rstrip_brackets : String → String
unfolding is_bracket
rstrip_brackets String.[] = String.[]
rstrip_brackets (String.◌∷◌ c s) =
    let rest = rstrip_brackets s in
    if is_bracket (String.◌∷◌ c String.[]) && str_eq rest "" then String.[] else String.◌∷◌ c rest

unfoldable pub strip_brackets : String → String
unfolding lstrip_brackets rstrip_brackets
strip_brackets s = rstrip_brackets (lstrip_brackets s)

-- `needle in s`
unfoldable pub has_text : String → String → Bool
unfolding starts_with
has_text needle String.[] = str_eq needle ""
has_text needle (String.◌∷◌ c s) = starts_with needle (String.◌∷◌ c s) || has_text needle s

-- `_ban_notice_due`
unfoldable pub ban_notice_due : ℕ → Data → Bool × Data
ban_notice_due timestamp d =
    if ltb timestamp (d.last_ban_notification_at + 5)
    then (false, record d { suppressed_ban_notifications = d.suppressed_ban_notifications + 1 })
    else (true, record d { last_ban_notification_at = timestamp })

-- `_revert_ban_intent`
unfoldable pub revert_ban_intent : String → ℕ → Data → Data
unfolding lookup insert erase close_newest
revert_ban_intent address now d = record d {
  banned = erase address d.banned;
  ban_counts = insert address (or_default (lookup address d.ban_counts) 0 - 1) d.ban_counts;
  history = (close_newest address (λ item. record item { status = failed now }) d.history).1;
}

-- What `_enforce_ban` returns and leaves.
pub record Enforced (F : Type 0) : Type 0 where
  pub banned : Bool
  pub notice : Option Ban
  pub document : Data
  pub firewall : F

-- The end of `_enforce_ban`: the ban is in the document before the firewall is asked.
abbrev pub after_intent : {F : Type 0} → Observation → Ban → Data → Bool × F → Enforced F
unfolding revert_ban_intent record_ban_failure
after_intent o metadata d (true, fw) = record {
  banned = true;
  notice = some metadata;
  document = d;
  firewall = fw;
}
after_intent o metadata d (false, fw) = record {
  banned = false;
  notice = none;
  document =
      record_ban_failure o.address o.enforced_at (revert_ban_intent o.address o.enforced_at d);
  firewall = fw;
}

abbrev pub with_cursor : String → Data → Data
with_cursor cursor d = if str_eq cursor "" then d else record d { journal_cursor = cursor }

-- `timestamp` of `observe_event`
abbrev pub plausible : ℕ → Option ℕ → ℕ
plausible enforced_at none = enforced_at
plausible enforced_at (some timestamp) =
    if timestamp == 0 || ltb (enforced_at + 5) timestamp then enforced_at else timestamp

-- The cursor travels in the event.
abbrev pub cursor_of : Dict String → String
unfolding lookup prefix
cursor_of event = prefix 4096 (or_default (lookup "_journal_cursor" event) "")

abbrev pub normalized : Dict String → Dict String
unfolding erase
normalized event = erase "_journal_cursor" event

-- Whether `ipset del` has failed for another reason than that there was nothing to delete.
unfoldable pub del_failed : CommandResult → Bool
unfolding has_text lower
del_failed r =
    let detail = lower (if str_eq r.stderr "" then r.stdout else r.stderr) in
    not (r.returncode == 0) && not (has_text "not in set" detail)

module _ {F : Type 0} (host : Host F) where
  -- `_enforce_ban`
  unfoldable pub enforce_ban : Observation → Data → F → Enforced F
  unfolding lookup get_ban_duration record_automatic_ban revert_ban_intent record_ban_failure
  enforce_ban o d fw =
      let duration = get_ban_duration (or_default (lookup o.address d.ban_counts) 0 + 1) in
      let remaining = duration - (o.enforced_at - o.timestamp) in
      let intent = record_automatic_ban o remaining d in
      if remaining == 0
      then record { banned = false; notice = none; document = d; firewall = fw }
      else after_intent o intent.0 intent.1 (host.add o.address remaining o.enforced_at fw)

  -- `_deliver_notices` of one notice, up to the queue
  unfoldable pub deliver : Observation → Option Ban → Detector F → Detector F
  unfolding ban_notice_due
  deliver o none s = s
  deliver o (some metadata) s =
      let due = ban_notice_due o.enforced_at s.document in
      record s {
        document = due.1;
        queue = if due.0 then s.queue ++ ((o, metadata) ∷ []) else s.queue;
      }

  -- The part of `observe_event` that follows on a decision.
  unfoldable pub decide : Observation → Data → Detector F → Bool × Detector F
  unfolding enforce_ban deliver
  decide o d s =
      let enforced = enforce_ban o d s.firewall in
      if o.active_ban then (true, record s { document = d }) else (
        enforced.banned,
        deliver o enforced.notice
            (record s { document = enforced.document; firewall = enforced.firewall }),
      )

  unfoldable pub observe_parsed :
      Address → Dict String → String → Option ℕ → ℕ → Detector F → Bool × Detector F
  unfolding is_whitelisted observe_state decide
  observe_parsed parsed event cursor event_time enforced_at s =
      let observed =
        observe_state parsed event (plausible enforced_at event_time) enforced_at s.document in
      if not (str_eq cursor "") && str_eq s.document.journal_cursor cursor
      then (false, s)
      else if is_whitelisted host.inside parsed s.document.whitelist host.host_addresses
      then (false, record s { document = with_cursor cursor s.document })
      else decide observed.0 (with_cursor cursor observed.1) s

  abbrev pub observe_address :
      Option Address → Dict String → String → Option ℕ → ℕ → Detector F → Bool × Detector F
  unfolding observe_parsed
  observe_address none event cursor event_time enforced_at s = (false, s)
  observe_address (some parsed) event cursor event_time enforced_at s =
      observe_parsed parsed event cursor event_time enforced_at s

  unfoldable pub observe_event :
      String → Dict String → Option ℕ → ℕ → Detector F → Bool × Detector F
  unfolding lookup erase prefix is_enforcement_evidence strip_brackets observe_parsed
  observe_event ip event event_time now s =
      let observed =
        observe_address (host.parse (strip_brackets ip)) (normalized event) (cursor_of event)
          event_time now s in
      if is_enforcement_evidence (normalized event)
      then observed
      else (false, record s { document = with_cursor (cursor_of event) s.document })
