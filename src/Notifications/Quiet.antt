-- ===== src/Notifications/Quiet.antt =====
-- The quiet hours as a stretch of the clock.
use hydra_ultimate.Base.{ℕ, ◌+◌, ◌-◌, ◌%◌, ◌<◌, ◌≡◌, ◌&&◌, arith, ltb, Bool-cases, inl, inr}
use hydra_ultimate.Base.Int.{ℤ, pos, negsuc}
use hydra_ultimate.Notifications.{Telegram, of_day, in_window, in_quiet_hours}

-- The hours from `a` on the clock until it shows `b`.
abbrev pub hours_until : ℕ → ℕ → ℕ
hours_until a b = (b + 24 - a) % 24

of_day-bound : (z : ℤ) → of_day z < 24
of_day-bound (pos n) = omega arith
of_day-bound (negsuc n) = omega arith

in_window-stretch :
    (start end current : ℕ)
    → start < 24
    → end < 24
    → current < 24
    → in_window start end current ≡ ltb (hours_until start current) (hours_until start end)
unfolding in_window
in_window-stretch start end current h k l = ground arith

-- The quiet hours, where they are on, are the stretch of the clock that begins with the first hour and
-- lasts until the clock shows the last one, also over midnight, and they are empty where both agree.
-- It does not matter by how many days an hour is off.
pub in_quiet_hours_lem :
    (telegram : Telegram) (hour : ℤ)
    → in_quiet_hours telegram hour ≡ (
        telegram.quiet_hours_enabled
        && ltb
            (hours_until (of_day telegram.quiet_hours_start) (of_day hour))
            (hours_until (of_day telegram.quiet_hours_start) (of_day telegram.quiet_hours_end)))
unfolding in_quiet_hours
in_quiet_hours_lem telegram hour =
    let start = of_day telegram.quiet_hours_start in
    let end = of_day telegram.quiet_hours_end in
    elim (Bool-cases telegram.quiet_hours_enabled) [
      | inr off ↦ rw off
      | inl on ↦ rw on (
          in_window-stretch start end (of_day hour) (of_day-bound telegram.quiet_hours_start)
            (of_day-bound telegram.quiet_hours_end) (of_day-bound hour))
    ]
