-- ===== src/Persistence/Conflict.antt =====
-- Saving an older copy of the state: nothing that was changed meanwhile is overwritten.
use mathlib.Core.Path.{subst}
use hydra_ultimate.Base.{
  ℕ, suc, ◌+◌, ◌≤◌, ◌<◌, String, ◌≡◌, refl, sym, ap, ◌∙◌, ◌⊎◌, Bool, true, false, Option, none,
  some, List, [], ◌∷◌, map, arith, ◌==◌, Result, ok, err, lift, ◌>>=◌, Gives, Gives-map, Gives-ok,
  Bool-cases, inl, inr,
}
use hydra_ultimate.State.{AppState, User}
use hydra_ultimate.Runtime.{desired_payload, desired_user, merge_runtime_state}
use hydra_ultimate.Runtime.Desired.{merge_runtime_state-desired}
use hydra_ultimate.Persistence.{
  Disk, load, latest_of, merged_with, differs, device_resets, without_resets, conflict, fill_keys,
  filled, next_revision, revision_after, save_unlocked, save_state, restore_desired_state,
  update_state,
}
use hydra_ultimate.Persistence.Saves.{
  save_unlocked_raises, Advances, changed, revision_of, load-revision, differs-same, Saved-Advances,
  Current-latest, save_state-Saved, restore-Saved, update_state-Saved,
}

module _ (validate_state : AppState User → Result (Unit {0})) (new_key : ℕ → String) where
  -- One operation that writes the state, by any process. A mutator's result is of type `T`.
  pub data Wrote (T : Type 0) (before after : Disk) : Type 0 where
    save :
        (state saved : AppState User)
        → save_state validate_state new_key state before ≡ (ok saved, after)
        → Wrote T before after
    restore :
        (snapshot saved : AppState User)
        → restore_desired_state validate_state new_key snapshot before ≡ (ok saved, after)
        → Wrote T before after
    mutate :
        (mutator : AppState User → Result (AppState User × T)) (r : AppState User × T)
        → update_state validate_state new_key mutator before ≡ (ok r, after)
        → Wrote T before after

  pub data Writes (T : Type 0) (before : Disk) : Disk → Type 0 where
    none_yet : Writes T before before
    and_then_one :
        {between after : Disk}
        → Writes T before between
        → Wrote T between after
        → Writes T before after

  Wrote-Advances :
      {T : Type 0} (before after : Disk)
      → Wrote T before after
      → Advances validate_state new_key before after
  Wrote-Advances before after (save state saved h) =
      let (merged, e, s) = save_state-Saved validate_state new_key state saved before after h in
      Saved-Advances validate_state new_key before after merged saved (latest_of before)
        (Current-latest validate_state new_key before) s
  Wrote-Advances before after (restore snapshot saved h) =
      let (restored, s) = restore-Saved validate_state new_key snapshot saved before after h in
      Saved-Advances validate_state new_key before after restored saved (latest_of before)
        (Current-latest validate_state new_key before) s
  Wrote-Advances before after (mutate mutator r h) =
      let (mutated, s) = update_state-Saved validate_state new_key mutator r before after h in
      Saved-Advances validate_state new_key before after mutated r.0 (some (load before)) refl s

  Writes-grow :
      {T : Type 0} {before after : Disk}
      → Writes T before after
      → revision_of before ≤ revision_of after
  Writes-grow none_yet = omega arith
  Writes-grow (and_then_one {between} {after} ws w) =
      omega (arith, Writes-grow ws, (Wrote-Advances between after w).0)

  fill_keys-desired :
      (n : ℕ) (users : List User)
      → map desired_user (fill_keys new_key n users) ≡ fill_keys new_key n (map desired_user users)
  unfolding fill_keys desired_user
  fill_keys-desired n [] = refl
  fill_keys-desired n (user ∷ rest) = rw (fill_keys-desired (suc n) rest) refl

  filled-desired :
      (state : AppState User)
      → desired_payload (filled new_key state) ≡ filled new_key (desired_payload state)
  unfolding desired_payload
  filled-desired state =
      ap (λ (users : List User). record (filled new_key (desired_payload state)) { users = users })
        (fill_keys-desired 0 state.users)

  -- The merge changes neither the desired configuration nor the revision.
  abbrev AsDesired : AppState User → AppState User → Type 0
  AsDesired state merged =
      (desired_payload (filled new_key merged) ≡ desired_payload (filled new_key state))
      × (merged.revision ≡ state.revision)

  merged-AsDesired :
      (state : AppState User) (resets : List String) (latest : Option (AppState User))
      → Gives (AsDesired state) (merged_with state resets latest)
  merged-AsDesired state resets none = (refl, refl)
  merged-AsDesired state resets (some latest) =
      Gives-map (merge_runtime_state state latest resets)
        (merge_runtime_state-desired state latest resets)
        (λ merged (same, revision).
          (filled-desired merged ∙ ap (filled new_key) same ∙ sym (filled-desired state), revision))

  -- The save is refused: the disk stays as it is, and the error is the conflict, unless the merge has
  -- raised one before.
  abbrev pub Refused : AppState User → Disk → Result (AppState User) × Disk → Type 0
  Refused state disk (ok saved, after) = ⊥
  Refused state disk (err exc, after) =
      (after ≡ disk)
      × ((exc ≡ conflict)
          ⊎ (merged_with (without_resets state) (device_resets state) (latest_of disk) ≡ err exc))

  stale-conflict :
      (state current : AppState User)
      → differs (filled new_key state) current ≡ true
      → (state.revision == current.revision) ≡ false
      → next_revision (filled new_key state) (some current) ≡ err conflict
  unfolding next_revision
  stale-conflict state current new old = rw (new, old) refl

  save_state-Refused :
      (state document : AppState User)
      → state.revision < revision_of (some document)
      → differs (filled new_key (without_resets state)) (load (some document)) ≡ true
      → Refused state (some document) (save_state validate_state new_key state (some document))
  unfolding save_state save_unlocked
  save_state-Refused state document old new =
      go (merged_with (without_resets state) (device_resets state) (some (load (some document))))
        refl
        (merged-AsDesired (without_resets state) (device_resets state)
          (some (load (some document))))
    where
      go :
          (m : Result (AppState User))
          → merged_with (without_resets state) (device_resets state) (some (load (some document)))
            ≡ m
          → Gives (AsDesired (without_resets state)) m
          → Refused state (some document) (
              (lift m >>= λ merged.
              save_unlocked validate_state new_key merged (some (load (some document))))
                (some document))
      go (err exc) e h = (refl, inr e)
      go (ok merged) e (same, revision) =
          let current = load (some document) in
          subst (Refused state (some document))
            (sym (
              save_unlocked_raises validate_state new_key merged (some current) (some document)
                conflict
                (stale-conflict merged current
                  (differs-same validate_state new_key (filled new_key merged)
                      (filled new_key (without_resets state)) current same
                    ∙ new)
                  (ground arith))))
            (refl, inl refl)

-- No update is lost: if the desired configuration was changed by a write after a client had loaded the
-- state, whatever else was saved, restored or updated before and after it, then a save of the client's
-- copy, under the revision that it was loaded with, is refused and leaves the document as it is, if
-- the copy's desired configuration differs from the document's. It raises the conflict, unless the
-- merge has raised an error before.
pub no_lost_update :
    (validate_state : AppState User → Result (Unit {0})) (new_key : ℕ → String) (T : Type 0)
    (loaded before after : Disk) (document state : AppState User)
    → Writes validate_state new_key T loaded before
    → Wrote validate_state new_key T before after
    → changed before after ≡ true
    → Writes validate_state new_key T after (some document)
    → state.revision ≡ revision_of loaded
    → differs (filled new_key (without_resets state)) (load (some document)) ≡ true
    → Refused validate_state new_key state
        (some document)
        (save_state validate_state new_key state (some document))
no_lost_update validate_state new_key T loaded before after document state ws w new vs same differ =
    save_state-Refused validate_state new_key state document
      (omega (
        arith,
        Writes-grow validate_state new_key ws,
        (Wrote-Advances validate_state new_key before after w).1 new,
        Writes-grow validate_state new_key vs,
        same,
      ))
      differ

next_revision-ok :
    (state current : AppState User) (r : ℕ)
    → next_revision state (some current) ≡ ok r
    → (differs state current ≡ true
        → (state.revision ≡ current.revision) × (r ≡ current.revision + 1))
      × (differs state current ≡ false → r ≡ current.revision)
unfolding next_revision
next_revision-ok state current r h =
    go (differs state current) (Bool-cases (state.revision == current.revision)) h
  where
    go :
        (new : Bool)
        → ((state.revision == current.revision) ≡ true)
          ⊎ ((state.revision == current.revision) ≡ false)
        → revision_after new state.revision current.revision ≡ ok r
        → (new ≡ true → (state.revision ≡ current.revision) × (r ≡ current.revision + 1))
          × (new ≡ false → r ≡ current.revision)
    go true (inl same) e = (λ _. (ground arith, ground (arith, e, same)), λ f. cc)
    go true (inr other) e = absurd (ground (arith, e, other))
    go false c e = (λ f. cc, λ _. ground (arith, e))

-- A save that ends well over an older document writes what it returns. Its desired configuration is
-- that of the state, with the keys that were missing; if this differs from the document's, the state
-- has the document's revision and the new document has the next one, and otherwise the revision stays.
pub save_state-desired :
    (validate_state : AppState User → Result (Unit {0})) (new_key : ℕ → String)
    (state document saved : AppState User) (after : Disk)
    → save_state validate_state new_key state (some document) ≡ (ok saved, after)
    → (after ≡ some saved)
      × (desired_payload saved ≡ desired_payload (filled new_key (without_resets state)))
      × (differs saved (load (some document)) ≡ true
          → (state.revision ≡ document.revision) × (saved.revision ≡ document.revision + 1))
      × (differs saved (load (some document)) ≡ false → saved.revision ≡ document.revision)
save_state-desired validate_state new_key state document saved after h =
    let (merged, e, s) =
      save_state-Saved validate_state new_key state saved (some document) after h in
    let current = load (some document) in
    let (same, revision) = Gives-ok (AsDesired validate_state new_key (without_resets state)) e (
      merged-AsDesired validate_state new_key (without_resets state) (device_resets state)
        (some current)) in
    let compared =
      differs-same validate_state new_key saved (filled new_key merged) current s.same in
    let (new, old) = next_revision-ok (filled new_key merged) current saved.revision s.revised in
    (
      s.as_saved,
      s.same ∙ same,
      λ d.
          let (mine, next) = new (sym compared ∙ d) in
          (
            sym revision ∙ mine ∙ load-revision document,
            next ∙ ap (λ (n : ℕ). n + 1) (load-revision document),
          ),
      λ d. old (sym compared ∙ d) ∙ load-revision document,
    )
