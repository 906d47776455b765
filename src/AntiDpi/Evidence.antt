-- ===== src/AntiDpi/Evidence.antt =====
-- hydra/plugins/antidpi/detection.py: which events are evidence.
use hydra_ultimate.Base.{
  String, Bool, not, Option, none, some, List, [], ◌∷◌, str_eq, if◌then◌else◌, or_default, contains,
  concat,
}
use hydra_ultimate.Base.Dict.{Dict, lookup}
use hydra_ultimate.Base.Text.{strip, lower, prefix}

-- `str(event.get(key, "")).strip()`
abbrev field : String → Dict String → String
unfolding lookup strip
field key event = strip (or_default (lookup key event) "")

-- `PROTOCOL_REJECT_RULES`
abbrev protocol_reject_rules : Dict (List String)
protocol_reject_rules = []

abbrev attributions : List String
attributions = "direct" ∷ "relay-exact" ∷ []

abbrev protocol_reject_sources : List String
protocol_reject_sources = "journal" ∷ "caddy-source-relay" ∷ []

-- `value or "?"`
abbrev or_unknown : String → String
or_unknown value = if str_eq value "" then "?" else value

abbrev reject_problem : String → Dict String → Option (List String) → String
unfolding lookup strip
reject_problem protocol event none =
    concat ("protocol " ∷ or_unknown protocol ∷ " has no proven reject" ∷ [])
reject_problem protocol event (some allowed) =
    if not (contains (field "reason" event) allowed)
    then "reason is not a proven reject"
    else if not (contains (field "source" event) protocol_reject_sources)
    then "source is not a proven reject stream"
    else ""

abbrev decoy_problem : Dict String → String
unfolding lookup strip lower
decoy_problem event =
    if not (contains (lower (field "protocol" event)) ("https" ∷ []))
    then "decoy scan protocol mismatch"
    else if not (contains (field "reason" event) ("scanner_path" ∷ []))
    then "decoy scan reason mismatch"
    else if not (contains (field "source" event) ("caddy-decoy" ∷ []))
    then "source is not a decoy surface"
    else ""

unfoldable pub evidence_problem : Dict String → String
unfolding lookup strip lower
evidence_problem event =
    let kind = field "kind" event in
    let protocol = lower (field "protocol" event) in
    let reject = reject_problem protocol event (lookup protocol protocol_reject_rules) in
    let decoy = decoy_problem event in
    if not (contains (field "attribution" event) attributions)
    then "unproven attribution"
    else if str_eq kind "protocol_reject"
    then reject
    else if str_eq kind "decoy_scan"
    then decoy
    else concat ("kind " ∷ or_unknown kind ∷ " is not enforcement evidence" ∷ [])

unfoldable pub is_enforcement_evidence : Dict String → Bool
unfolding evidence_problem
is_enforcement_evidence event = str_eq (evidence_problem event) ""

-- `_evidence_signal`
unfoldable pub evidence_signal : Dict String → String
unfolding lookup prefix
evidence_signal event =
    let protocol = prefix 40 (or_default (lookup "protocol" event) "unknown") in
    let kind = or_default (lookup "kind" event) "unknown" in
    let reason = prefix 60 (or_default (lookup "reason" event) kind) in
    concat (protocol ∷ ":" ∷ reason ∷ [])
