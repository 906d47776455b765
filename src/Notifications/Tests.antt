-- ===== src/Notifications/Tests.antt =====
-- Quiet hours over midnight.
use hydra_ultimate.Base.{◌≡◌, refl, true, false, ◌&&◌, none, ltb}
use hydra_ultimate.Base.Int.{pos, negsuc}
use hydra_ultimate.Base.Text.{strip, upper}
use hydra_ultimate.Notifications.{Telegram, of_day, in_quiet_hours, notification_allowed}
use hydra_ultimate.Notifications.Quiet.{hours_until, in_quiet_hours_lem}

abbrev asleep : Telegram
asleep = record {
  notifications_enabled = true;
  notify_antidpi = true;
  notify_honeypot = true;
  notify_fail2ban = true;
  notify_unbans = false;
  notify_system = true;
  notify_only_blocks = false;
  quiet_hours_enabled = true;
  quiet_hours_start = pos 23;
  quiet_hours_end = pos 8;
}

before_midnight : in_quiet_hours asleep (negsuc 0) ≡ true
unfolding in_quiet_hours
before_midnight = refl

in_the_morning : in_quiet_hours asleep (pos 8) ≡ false
unfolding in_quiet_hours
in_the_morning = refl

by_day : notification_allowed (pos 12) asleep "honeypot" "scan" none ≡ true
unfolding notification_allowed upper strip
by_day = refl

by_night : notification_allowed (pos 3) asleep "honeypot" "scan" none ≡ false
unfolding notification_allowed upper strip
by_night = refl

banned_by_night : notification_allowed (pos 3) asleep "fail2ban" " ban" none ≡ true
unfolding notification_allowed upper strip
banned_by_night = refl

in_quiet_hours_example : in_quiet_hours asleep (pos 3) ≡ (
    true
    && ltb
        (hours_until (of_day (pos 23)) (of_day (pos 3)))
        (hours_until (of_day (pos 23)) (of_day (pos 8))))
in_quiet_hours_example = in_quiet_hours_lem asleep (pos 3)

three_is_quiet : in_quiet_hours asleep (pos 3) ≡ true
unfolding in_quiet_hours
three_is_quiet = refl
