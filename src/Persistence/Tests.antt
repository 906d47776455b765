-- ===== src/Persistence/Tests.antt =====
-- Two menus with the same copy of the state, and saves that are cut off.
use hydra_ultimate.Base.{ℕ, String, ◌≡◌, refl, true, false, Option, none, some, Result, ok, err}
use hydra_ultimate.Base.Dict.{lookup, erase}
use hydra_ultimate.State.{AppState, User}
use hydra_ultimate.Runtime.{desired_payload}
use hydra_ultimate.Persistence.{
  initial, load, differs, conflict, filled, fill_keys, without_resets, save_state,
}
use hydra_ultimate.Persistence.Saves.{changed, revision_of}
use hydra_ultimate.Persistence.Conflict.{Wrote, Writes, Refused, no_lost_update, save_state-desired}
use hydra_ultimate.Persistence.Files.{
  Content, Files, whole, torn, corrupt, load_files, cut_off, seen_after, cut_off_lem,
}

abbrev any_state : AppState User → Result (Unit {0})
any_state state = ok tt

abbrev key : ℕ → String
key n = "key"

abbrev with_domain : String → ℕ → AppState User
with_domain domain revision = record initial {
  revision = revision;
  network = record (initial.network) { domain = domain };
}

abbrev stored : AppState User
stored = with_domain "a.example" 4

first_saves :
    save_state any_state key (with_domain "b.example" 4) (some stored)
    ≡ (ok (with_domain "b.example" 5), some (with_domain "b.example" 5))
unfolding save_state lookup erase differs
first_saves = refl

second_is_refused :
    save_state any_state key (with_domain "c.example" 4) (some (with_domain "b.example" 5))
    ≡ (err conflict, some (with_domain "b.example" 5))
unfolding save_state lookup erase differs
second_is_refused = refl

first_changed : changed (some stored) (some (with_domain "b.example" 5)) ≡ true
unfolding differs load lookup
first_changed = refl

stored_revision : (with_domain "c.example" 4).revision ≡ revision_of (some stored)
unfolding load lookup
stored_revision = refl

second_differs :
    differs
      (filled key (without_resets (with_domain "c.example" 4)))
      (load (some (with_domain "b.example" 5)))
    ≡ true
unfolding differs load lookup fill_keys erase
second_differs = refl

no_lost_update_example :
    Refused any_state key
      (with_domain "c.example" 4)
      (some (with_domain "b.example" 5))
      (save_state any_state key (with_domain "c.example" 4) (some (with_domain "b.example" 5)))
no_lost_update_example =
    no_lost_update any_state key (Unit {0}) (some stored) (some stored)
      (some (with_domain "b.example" 5)) (with_domain "b.example" 5) (with_domain "c.example" 4)
      Writes.none_yet
      (Wrote.save (with_domain "b.example" 4) (with_domain "b.example" 5) first_saves) first_changed
      Writes.none_yet stored_revision second_differs

save_state-desired_example :
    (◌≡◌ {A = Option (AppState User)}
      (some (with_domain "b.example" 5))
      (some (with_domain "b.example" 5)))
    × (desired_payload (with_domain "b.example" 5)
        ≡ desired_payload (filled key (without_resets (with_domain "b.example" 4))))
    × (differs (with_domain "b.example" 5) (load (some stored)) ≡ true
        → (◌≡◌ {A = ℕ} 4 4) × (◌≡◌ {A = ℕ} 5 5))
    × (differs (with_domain "b.example" 5) (load (some stored)) ≡ false → ◌≡◌ {A = ℕ} 5 4)
save_state-desired_example =
    save_state-desired any_state key (with_domain "b.example" 4) stored (with_domain "b.example" 5)
      (some (with_domain "b.example" 5)) first_saves

abbrev files_with : Content ℕ → Files ℕ
files_with content = record {
  state = some content;
  backup = some (whole 7);
  pending = none;
  tmp = none;
}

-- The backup is still there, and a save that is cut off after the backup was replaced loses it.
torn_is_recovered : load_files 0 (files_with torn) ≡ ok 7
unfolding load_files
torn_is_recovered = refl

torn_is_lost : load_files 0 (cut_off 4 9 (files_with torn)) ≡ err corrupt
unfolding load_files cut_off
torn_is_lost = refl

cut_off_example :
    load_files 0 (cut_off 5 9 (files_with (whole 8)))
    ≡ seen_after 5 0 9 (files_with (whole 8)) (some (whole 8))
cut_off_example = cut_off_lem 5 0 9 (files_with (whole 8))
