-- ===== src/Users/Atomic.antt =====
-- Each operation on a user is atomic: where it raises, the users are those from before.
use mathlib.Core.Path.{subst}
use hydra_ultimate.Base.{
  ℕ, ◌+◌, str_eq, pure, String, ◌≡◌, refl, sym, Bool, true, false, Option, none, some, List, arith,
  Result, ok, err, Exec, Exception, ◌>>=◌, ◌>>◌, lift, modify, >>=-ok, if◌then◌else◌,
}
use hydra_ultimate.Base.Text.{lower, strip}
use hydra_ultimate.State
use hydra_ultimate.State.{AppState, User}
use hydra_ultimate.Users.{
  Operations, carry, add, remove, remove_found, remove_user, block, block_found, unblock,
  unblock_found, restart_subscriptions, title_of,
}
use hydra_ultimate.Users.Memory.{World, view, users_of, deep_copy, put_users}
use hydra_ultimate.Users.Profile.{
  rename, rename_found, rename_to, rename_object, carry_rename, rename_label,
  restore_plugin_identity, is_no_identifier, not_an_identifier, rename_checked, is_duplicate,
  not_unique, rename_unless_same,
}
use hydra_ultimate.Users.Restore.{KeepsUsers, Restores, carry-Restores}

-- The operations that go to the plugins.
pub data Change : Type 0 where
  added : ℕ → Change
  removed blocked unblocked : String → Change
  renamed : String → String → Change

abbrev pub perform : {P H : Type 0} → Operations P H → Change → Exec (World H) (Unit {0})
perform ops (added user) = add ops user
perform ops (removed email) = remove ops email
perform ops (blocked email) = block ops email
perform ops (unblocked email) = unblock ops email
perform ops (renamed email new_email) = rename ops email new_email

module _ {P H V : Type 0} {read : List User → V} (ops : Operations P H)
    (keeps : KeepsUsers read ops) where
  then_restart :
      (snapshot : AppState User) (m : Exec (World H) (Unit {0})) (w : World H)
      → Restores ops keeps snapshot (m w)
      → Restores ops keeps snapshot ((m >> restart_subscriptions ops) w)
  unfolding restart_subscriptions
  then_restart snapshot m w h = ground arith

  Restores-error :
      {A : Type 0} (snapshot : AppState User) (x : Result A × World H) (exc : Exception)
      → Restores ops keeps snapshot x
      → x.0 ≡ err exc
      → read (users_of x.1) ≡ read snapshot.users
  Restores-error snapshot (ok a, w) exc h e = cc
  Restores-error snapshot (err e', w) exc h e = h

  add-Restores : (user : ℕ) (w : World H) → Restores ops keeps (deep_copy w) (add ops user w)
  unfolding add deep_copy
  add-Restores user w = let added = State.add_user (view w) w.state.users user in go added
    where
      go :
          (added : Result (List ℕ))
          → Restores ops keeps (deep_copy w) (
              (lift added >>= λ users.
              modify (put_users users)
              >> (carry ops
                    (deep_copy w)
                    (title_of ops "user" user)
                    (λ p. ops.user_remove p user)
                    (λ p. ops.user_add p user)
                  >> restart_subscriptions ops))
                w)
      go (ok users) =
          then_restart (deep_copy w)
            (carry ops (deep_copy w) (title_of ops "user" user) (λ p. ops.user_remove p user)
              (λ p. ops.user_add p user))
            (put_users users w)
            (carry-Restores ops keeps (deep_copy w) (title_of ops "user" user)
              (λ p. ops.user_remove p user) (λ p. ops.user_add p user) (put_users users w))
      go (err exc) = refl

  block-Restores :
      (user : Option ℕ) (w : World H) → Restores ops keeps (deep_copy w) (block_found ops user w)
  unfolding block_found
  block-Restores none w = tt
  block-Restores (some user) w = carry-Restores ops keeps (deep_copy w) _ _ _ _

  unblock-Restores :
      (user : Option ℕ) (w : World H) → Restores ops keeps (deep_copy w) (unblock_found ops user w)
  unfolding unblock_found
  unblock-Restores none w = tt
  unblock-Restores (some user) w = carry-Restores ops keeps (deep_copy w) _ _ _ _

  remove-Restores :
      (email : String) (user : Option ℕ) (w : World H)
      → Restores ops keeps (deep_copy w) (remove_found ops email user w)
  unfolding remove_found
  remove-Restores email none w = tt
  remove-Restores email (some user) w =
      then_restart (deep_copy w)
        (carry ops (deep_copy w) (title_of ops "user" user) (λ p. ops.user_add p user)
          (λ p. ops.user_remove p user))
        (remove_user ops email w)
        (carry-Restores ops keeps (deep_copy w) (title_of ops "user" user)
          (λ p. ops.user_add p user) (λ p. ops.user_remove p user) (remove_user ops email w))

  bind-Restores :
      {A B : Type 0} (snapshot : AppState User) (m : Exec (World H) A) (f : A → Exec (World H) B)
      {w w' : World H} {a : A}
      → m w ≡ (ok a, w')
      → Restores ops keeps snapshot (f a w')
      → Restores ops keeps snapshot ((m >>= f) w)
  bind-Restores snapshot m f {w = w} e h =
      subst (Restores ops keeps snapshot) (sym (>>=-ok m f {w = w} e)) h

  Restores-if :
      {A : Type 0} (snapshot : AppState User) (b : Bool) (m n : Exec (World H) A) (w : World H)
      → Restores ops keeps snapshot (m w)
      → Restores ops keeps snapshot (n w)
      → Restores ops keeps snapshot ((if b then m else n) w)
  Restores-if snapshot true m n w hm hn = hm
  Restores-if snapshot false m n w hm hn = hn

  rename_to-Restores :
      (email normalized : String) (user : ℕ) (w : World H)
      → Restores ops keeps (deep_copy w) (rename_to ops email normalized user w)
  unfolding rename_to
  rename_to-Restores email normalized user w =
      let snapshot = deep_copy w in
      let (r, w') = rename_object ops normalized user w in
      bind-Restores snapshot (rename_object ops normalized user)
        (λ copies. carry_rename ops snapshot email user copies >> restart_subscriptions ops) {w = w}
        refl
        (then_restart snapshot (carry_rename ops snapshot email user (w.fresh, w.fresh + 1)) w' (
          carry-Restores ops keeps snapshot (rename_label ops email)
            (restore_plugin_identity ops w.fresh (w.fresh + 1))
            (λ p. ops.user_remove p w.fresh >> ops.user_add p user) w'))

  rename-Restores :
      (email new_email : String) (user : Option ℕ) (w : World H)
      → Restores ops keeps (deep_copy w) (rename_found ops email new_email user w)
  unfolding rename_found deep_copy
  rename-Restores email new_email none w = refl
  rename-Restores email new_email (some user) w =
      let normalized = lower (strip new_email) in
      let snapshot = deep_copy w in
      let current = (w.objects user).email in
      let duplicate = State.find_user (view w) w.state.users normalized in
      Restores-if snapshot (is_no_identifier normalized) (not_an_identifier ops)
        (rename_checked ops email normalized user) w refl
        (Restores-if snapshot (is_duplicate duplicate user) (not_unique ops normalized)
          (rename_unless_same ops email normalized user current) w refl
          (Restores-if snapshot (str_eq normalized current) (pure tt)
            (rename_to ops email normalized user) w tt
            (rename_to-Restores email normalized user w)))

  perform-Restores :
      (change : Change) (w : World H) → Restores ops keeps (deep_copy w) (perform ops change w)
  unfolding remove block unblock rename
  perform-Restores (added user) w = add-Restores user w
  perform-Restores (removed email) w =
      remove-Restores email (State.find_user (view w) w.state.users email) w
  perform-Restores (blocked email) w =
      block-Restores (State.find_user (view w) w.state.users email) w
  perform-Restores (unblocked email) w =
      unblock-Restores (State.find_user (view w) w.state.users email) w
  perform-Restores (renamed email new_email) w =
      rename-Restores email new_email (State.find_user (view w) w.state.users email) w

  -- Adding, removing, blocking, unblocking and renaming a user are atomic: where one raises, the
  -- users of the state read as before, whatever the plugins' hooks do and wherever they fail. This
  -- holds of every reading of the users that saving, applying and logging leave as it is.
  pub change_atomic :
      (change : Change) (w : World H) (exc : Exception)
      → (perform ops change w).0 ≡ err exc
      → read (users_of (perform ops change w).1) ≡ read (users_of w)
  unfolding deep_copy
  change_atomic change w exc h =
      Restores-error (deep_copy w) (perform ops change w) exc (perform-Restores change w) h
