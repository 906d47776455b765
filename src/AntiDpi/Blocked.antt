-- ===== src/AntiDpi/Blocked.antt =====
-- hydra/plugins/antidpi/model.py: who has an active ban at a time, after each change of the bans.
use hydra_ultimate.Base.{
  ℕ, ◌≤◌, String, ◌≡◌, refl, Bool, true, false, ◌∷◌, [], arith, eq_iff, str_eq, ◌||◌, not,
  if◌then◌else◌,
}
use hydra_ultimate.Base.Dict.{Dict, lookup, insert, erase, has_key}
use hydra_ultimate.AntiDpi.{Ban, is_active, active_bans, Data}
use hydra_ultimate.AntiDpi.Detector.{ban_notice_due, with_cursor}

-- `address in active_bans(data, now=t)`, as a test on the bans
abbrev pub banned_at : String → ℕ → Dict Ban → Bool
unfolding lookup active_bans
banned_at address t banned = has_key address (active_bans t banned)

pub banned_at-insert :
    (a b : String) (t : ℕ) (v : Ban) (d : Dict Ban)
    → (is_active t v || not (banned_at a t d)) ≡ true
    → banned_at b t (insert a v d) ≡ (if str_eq a b then is_active t v else banned_at b t d)
unfolding lookup active_bans insert
banned_at-insert a b t v [] h = ground (arith, eq_iff a b)
banned_at-insert a b t v ((k, w) ∷ d) h =
    ground (arith, eq_iff a b, eq_iff k a, eq_iff k b, banned_at-insert a b t v d)

pub banned_at-erase :
    (a b : String) (t : ℕ) (d : Dict Ban)
    → banned_at b t (erase a d) ≡ (if str_eq a b then false else banned_at b t d)
unfolding lookup active_bans erase
banned_at-erase a b t [] = ground (arith, eq_iff a b)
banned_at-erase a b t ((k, w) ∷ d) =
    ground (arith, eq_iff a b, eq_iff k a, eq_iff k b, banned_at-erase a b t d)

is_active-later : (n t : ℕ) (v : Ban) → n ≤ t → is_active t v ≡ true → is_active n v ≡ true
unfolding is_active
is_active-later n t v h k = ground arith

-- The bans that have elapsed are not missed later.
pub banned_at-active_bans :
    (a : String) (n t : ℕ) (d : Dict Ban)
    → n ≤ t
    → banned_at a t (active_bans n d) ≡ banned_at a t d
unfolding lookup active_bans
banned_at-active_bans a n t [] h = refl
banned_at-active_bans a n t ((k, w) ∷ d) h =
    ground (arith, is_active-later n t w h, banned_at-active_bans a n t d h)

pub banned_at-later :
    (a : String) (n t : ℕ) (d : Dict Ban)
    → n ≤ t
    → banned_at a n d ≡ false
    → banned_at a t d ≡ false
unfolding lookup active_bans
banned_at-later a n t [] h k = refl
banned_at-later a n t ((j, w) ∷ d) h k =
    ground (arith, is_active-later n t w h, banned_at-later a n t d h)

-- An intent that is taken back.
pub banned_at-erase-insert :
    (a b : String) (t : ℕ) (v : Ban) (d : Dict Ban)
    → banned_at a t d ≡ false
    → banned_at b t (erase a (insert a v d)) ≡ banned_at b t d
banned_at-erase-insert a b t v d h =
    grind (arith, eq_iff a b, banned_at-erase a b t (insert a v d), banned_at-insert a b t v d)

pub ban_notice_due-banned : (t : ℕ) (d : Data) → (ban_notice_due t d).1.banned ≡ d.banned
unfolding ban_notice_due
ban_notice_due-banned t d = ground arith

pub with_cursor-banned : (cursor : String) (d : Data) → (with_cursor cursor d).banned ≡ d.banned
with_cursor-banned cursor d = ground arith
