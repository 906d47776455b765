-- ===== src/Notifications.antt =====
-- hydra/services/security_notifications.py: which events are delivered to the administrator, and when.
pub mod Quiet
mod Tests
use hydra_ultimate.Base.{
  ℕ, ◌+◌, ◌-◌, ◌%◌, String, Bool, true, false, not, ◌&&◌, ◌||◌, Option, none, some, [], ◌∷◌, str_eq,
  ltb, leb, ◌==◌, if◌then◌else◌, contains,
}
use hydra_ultimate.Base.Int.{ℤ, pos, negsuc}
use hydra_ultimate.Base.Text.{strip, upper}

-- The settings of the `telegram` section that the decision reads.
pub record Telegram : Type 0 where
  pub notifications_enabled : Bool
  pub notify_antidpi : Bool
  pub notify_honeypot : Bool
  pub notify_fail2ban : Bool
  pub notify_unbans : Bool
  pub notify_system : Bool
  pub notify_only_blocks : Bool
  pub quiet_hours_enabled : Bool
  pub quiet_hours_start : ℤ
  pub quiet_hours_end : ℤ

-- `z % 24`, which is never negative
abbrev pub of_day : ℤ → ℕ
of_day (pos n) = n % 24
of_day (negsuc n) = 23 - n % 24

-- `_NOTIFICATION_FIELDS`, and the field that it names
unfoldable pub field_of : String → Telegram → Bool
field_of category telegram =
    if str_eq category "antidpi"
    then telegram.notify_antidpi
    else if str_eq category "honeypot"
    then telegram.notify_honeypot
    else if str_eq category "fail2ban"
    then telegram.notify_fail2ban
    else if str_eq category "fail2ban_unban"
    then telegram.notify_unbans
    else telegram.notify_system

unfoldable pub is_blocking : String → Bool
is_blocking action =
    contains (upper (strip action)) ("BAN" ∷ "UNBAN" ∷ "BLOCK" ∷ "ERROR" ∷ "FAILURE" ∷ [])

-- `in_quiet_hours`, once the three hours are reduced.
unfoldable pub in_window : ℕ → ℕ → ℕ → Bool
in_window start end current =
    if start == end
    then false
    else if ltb start end
    then leb start current && ltb current end
    else leb start current || ltb current end

unfoldable pub in_quiet_hours : Telegram → ℤ → Bool
unfolding in_window
in_quiet_hours telegram hour =
    if not telegram.quiet_hours_enabled
    then false
    else in_window (of_day telegram.quiet_hours_start) (of_day telegram.quiet_hours_end)
        (of_day hour)

abbrev or_now : ℤ → Option ℤ → ℤ
or_now now none = now
or_now now (some hour) = hour

-- `now` is `datetime.now().hour`.
unfoldable pub notification_allowed : ℤ → Telegram → String → String → Option ℤ → Bool
unfolding field_of is_blocking in_quiet_hours
notification_allowed now telegram category action hour =
    if not telegram.notifications_enabled
    then false
    else if not (field_of category telegram)
    then false
    else if is_blocking action
    then true
    else if telegram.notify_only_blocks
    then false
    else not (in_quiet_hours telegram (or_now now hour))
