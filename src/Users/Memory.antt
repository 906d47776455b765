-- ===== src/Users/Memory.antt =====
-- The memory that the lifecycle operations share with the plugin hooks. A user is an object that
-- `state.users` and the local variables refer to, so a hook that writes to the user writes to the
-- state as well. `copy.deepcopy(state)` and `restore_state_in_place` (services/configuration.py).
use hydra_ultimate.Base.{
  ℕ, zero, suc, ◌+◌, ◌<◌, ◌≡◌, refl, ap, ◌∙◌, List, [], ◌∷◌, arith, map, ◌==◌, if◌then◌else◌,
  length,
}
use hydra_ultimate.State.{AppState, User, UserView}

-- `host` is all that lies outside: the files, the services and the other plugins' data.
pub record World (H : Type 0) : Type 0 where
  pub objects : ℕ → User
  pub fresh : ℕ
  pub state : AppState ℕ
  pub host : H

module _ {H : Type 0} where
  abbrev pub view : World H → UserView ℕ
  view w = record { email = λ r. (w.objects r).email; uuid = λ r. (w.objects r).uuid }

  -- A write to the object that `r` refers to.
  abbrev pub write_user : ℕ → User → World H → World H
  write_user r user w = record w { objects = λ s. if s == r then user else w.objects s }

  abbrev pub put_users : List ℕ → World H → World H
  put_users refs w = let state = w.state in record w { state = record state { users = refs } }

-- A state with its users replaced.
abbrev pub with_users : {U V : Type 0} → List V → AppState U → AppState V
with_users users s = record {
  format_version = s.format_version;
  revision = s.revision;
  install = s.install;
  configuration_names = s.configuration_names;
  protocols = s.protocols;
  users = users;
  telegram = s.telegram;
  network = s.network;
  headless_creator = s.headless_creator;
  kernel = s.kernel;
  core_extensions = s.core_extensions;
  feature_extensions = s.feature_extensions;
}

read_all : (ℕ → User) → List ℕ → List User
read_all objects [] = []
read_all objects (r ∷ refs) = objects r ∷ read_all objects refs

-- Fresh objects with the given contents.
allocate : List User → (ℕ → User) → ℕ → (ℕ → User)
allocate [] objects next = objects
allocate (user ∷ rest) objects next =
    allocate rest (λ s. if s == next then user else objects s) (suc next)

-- The references of so many fresh objects.
refs_from : ℕ → ℕ → List ℕ
refs_from next zero = []
refs_from next (suc n) = next ∷ refs_from (suc next) n

module _ {H : Type 0} where
  -- The users of the state, by their contents.
  unfoldable pub users_of : World H → List User
  unfolding read_all
  users_of w = read_all w.objects w.state.users

  -- `copy.deepcopy(state)`
  unfoldable pub deep_copy : World H → AppState User
  unfolding users_of
  deep_copy w = with_users (users_of w) w.state

  -- Every field but the revision is set to a copy of the snapshot's.
  unfoldable pub restore_state_in_place : AppState User → World H → World H
  unfolding allocate refs_from
  restore_state_in_place snapshot w =
      let refs = refs_from w.fresh (length snapshot.users) in
      let restored = with_users refs snapshot in
      record w {
        objects = allocate snapshot.users w.objects w.fresh;
        fresh = w.fresh + length snapshot.users;
        state = record restored { revision = w.state.revision };
      }

read_all-map :
    (f : User → User) (objects : ℕ → User) (refs : List ℕ)
    → read_all (λ r. f (objects r)) refs ≡ map f (read_all objects refs)
unfolding read_all
read_all-map f objects [] = refl
read_all-map f objects (r ∷ refs) =
    ap (λ users. f (objects r) ∷ users) (read_all-map f objects refs)

-- A write to every user.
pub users_of-map :
    {H : Type 0} (f : User → User) (w : World H)
    → users_of (record w { objects = λ r. f (w.objects r) }) ≡ map f (users_of w)
unfolding users_of
users_of-map f w = read_all-map f w.objects w.state.users

allocate_below :
    (users : List User) (objects : ℕ → User) (next r : ℕ)
    → r < next
    → allocate users objects next r ≡ objects r
unfolding allocate
allocate_below [] objects next r h = refl
allocate_below (user ∷ rest) objects next r h =
    allocate_below rest (λ s. if s == next then user else objects s) (suc next) r (omega arith)
    ∙ ground arith

read_all-allocate :
    (users : List User) (objects : ℕ → User) (next : ℕ)
    → read_all (allocate users objects next) (refs_from next (length users)) ≡ users
unfolding read_all allocate refs_from
read_all-allocate [] objects next = refl
read_all-allocate (user ∷ rest) objects next =
    let objects' : ℕ → User = λ s. if s == next then user else objects s in
    cc (
      read_all-allocate rest objects' (suc next),
      allocate_below rest objects' (suc next) next (omega arith),
      here,
    )
  where
    here : (if next == next then user else objects next) ≡ user
    here = ground arith

module _ {H : Type 0} (snapshot : AppState User) (w : World H) where
  -- What is restored reads as the snapshot, under the revision that the state had.
  pub deep_copy-restore :
      deep_copy (restore_state_in_place snapshot w)
      ≡ record snapshot { revision = w.state.revision }
  unfolding deep_copy restore_state_in_place
  deep_copy-restore =
      ap (λ users. with_users users (record snapshot { revision = w.state.revision }))
        (read_all-allocate snapshot.users w.objects w.fresh)

  pub users_of-restore : users_of (restore_state_in_place snapshot w) ≡ snapshot.users
  unfolding users_of restore_state_in_place
  users_of-restore = read_all-allocate snapshot.users w.objects w.fresh
