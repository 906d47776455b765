-- ===== src/Persistence/Saves.antt =====
-- What the operations that write the state have in common.
use mathlib.Core.Path.{subst}
use hydra_ultimate.Base.{
  ℕ, ◌+◌, ◌≤◌, ◌<◌, String, ◌≡◌, refl, sym, ap, ◌∙◌, Bool, true, false, not, Option, none, some,
  arith, ◌==◌, if◌then◌else◌, Result, ok, err, Exec, Exception, lift, pure, ◌>>=◌, ◌>>◌, >>=-err,
  Option-cases, inl, inr,
}
use hydra_ultimate.Base.Dict.{lookup}
use hydra_ultimate.State.{AppState, User}
use hydra_ultimate.Runtime.{desired_payload}
use hydra_ultimate.Persistence.{
  Disk, load, latest_of, merged_with, at_revision, differs, payload_eq, device_resets,
  without_resets, conflict, filled, next_revision, save_unlocked, save_state, restore_desired_state,
  update_state,
}

pub load-revision : (document : AppState User) → (load (some document)).revision ≡ document.revision
unfolding load
load-revision document = elim (Option-cases (lookup "vless_cdn" document.protocols)) [
  | inl missing ↦ rw missing refl
  | inr (protocol, e) ↦ rw e refl
]

abbrev pub revision_of : Disk → ℕ
revision_of disk = (load disk).revision

-- Whether a write has changed the desired configuration, as the code compares it.
abbrev pub changed : Disk → Disk → Bool
changed before none = false
changed before (some document) = differs document (load before)

next_revision-first : (state : AppState User) (r : ℕ) → next_revision state none ≡ ok r → 1 ≤ r
unfolding next_revision
next_revision-first state r h = ground arith

pub load-none : (load none).revision ≡ 0
unfolding load
load-none = refl

next_revision-grows :
    (state current : AppState User) (r : ℕ)
    → next_revision state (some current) ≡ ok r
    → (current.revision ≤ r) × (differs state current ≡ true → current.revision < r)
unfolding next_revision
next_revision-grows state current r h =
    go (differs state current) (state.revision == current.revision) h
  where
    go :
        (new same : Bool)
        → (if new
            then if same then ok (current.revision + 1) else err conflict
            else ok current.revision)
          ≡ ok r
        → (current.revision ≤ r) × (new ≡ true → current.revision < r)
    go true true e = (ground arith, λ _. ground arith)
    go true false e = cc
    go false same e = (ground arith, λ f. cc)

module _ (validate_state : AppState User → Result (Unit {0})) (new_key : ℕ → String) where
  -- What is written where nothing is raised.
  pub record Saved (state : AppState User) (current : Option (AppState User))
      (saved : AppState User) (after : Disk) : Type 0 where
    pub revised : next_revision (filled new_key state) current ≡ ok saved.revision
    pub as_saved : after ≡ some saved
    pub same : desired_payload saved ≡ desired_payload (filled new_key state)

  abbrev document_at : AppState User → ℕ → AppState User
  document_at state r = record (filled new_key state) { revision = r }

  written :
      (document : AppState User) (v : Result (Unit {0})) (before after : Disk)
      (saved : AppState User)
      → (lift v >> ((λ disk. (ok tt, some document)) >> pure document)) before ≡ (ok saved, after)
      → (document ≡ saved) × (after ≡ some document)
  written document (err exc) before after saved h = cc
  written document (ok tt) before after saved h = (cc, cc)

  save_unlocked-Saved :
      (state : AppState User) (current : Option (AppState User)) (before after : Disk)
      (saved : AppState User)
      → save_unlocked validate_state new_key state current before ≡ (ok saved, after)
      → Saved state current saved after
  unfolding save_unlocked desired_payload
  save_unlocked-Saved state current before after saved h =
      go (next_revision (filled new_key state) current) refl h
    where
      go :
          (r : Result ℕ)
          → next_revision (filled new_key state) current ≡ r
          → (lift r >>= λ revision.
                lift (validate_state (document_at state revision))
                >> ((λ disk. (ok tt, some (document_at state revision)))
                    >> pure (document_at state revision)))
              before
            ≡ (ok saved, after)
          → Saved state current saved after
      go (err exc) e k = cc
      go (ok r) e k =
          let (is_saved, is_after) =
            written (document_at state r) (validate_state (document_at state r)) before after saved
              k in
          subst (λ s. Saved state current s after) is_saved
            (record { revised = e; as_saved = is_after; same = refl })

  -- What a write compares the state with: what is loaded, or nothing where there is no document.
  abbrev pub Current : Disk → Option (AppState User) → Type 0
  Current before none = before ≡ none
  Current before (some current) = current ≡ load before

  pub Current-latest : (before : Disk) → Current before (latest_of before)
  Current-latest none = refl
  Current-latest (some document) = refl

  -- The revision never falls, and it grows where the desired configuration changes.
  abbrev pub Advances : Disk → Disk → Type 0
  Advances before after =
      (revision_of before ≤ revision_of after)
      × (changed before after ≡ true → revision_of before < revision_of after)

  pub differs-same :
      (a a' b : AppState User) → desired_payload a ≡ desired_payload a' → differs a b ≡ differs a' b
  unfolding differs
  differs-same a a' b e = ap (λ p. not (payload_eq p (desired_payload b))) e

  pub Saved-Advances :
      (before after : Disk) (state saved : AppState User) (current : Option (AppState User))
      → Current before current
      → Saved state current saved after
      → Advances before after
  Saved-Advances before after state saved current c s =
      subst (Advances before) (sym s.as_saved) (go current c s.revised)
    where
      revision_of-saved : revision_of (some saved) ≡ saved.revision
      revision_of-saved = load-revision saved

      go :
          (current' : Option (AppState User))
          → Current before current'
          → next_revision (filled new_key state) current' ≡ ok saved.revision
          → Advances before (some saved)
      go none e r =
          let first = next_revision-first (filled new_key state) saved.revision r in
          rw e (
            omega (arith, load-none, first, revision_of-saved),
            λ h. omega (arith, load-none, first, revision_of-saved),
          )
      go (some other) e r =
          let (grows, strictly) =
            next_revision-grows (filled new_key state) other saved.revision r in
          (
            omega (arith, grows, ap (λ (s : AppState User). s.revision) e, revision_of-saved),
            λ h. omega (
              arith,
              ap (λ (s : AppState User). s.revision) e,
              revision_of-saved,
              strictly (
                  ap (differs (filled new_key state)) e
                  ∙ sym (differs-same saved (filled new_key state) (load before) s.same)
                  ∙ h),
            ),
          )

  lifted :
      {A B : Type 0} (m : Result A) (f : A → Exec Disk B) (before after : Disk) (b : B)
      → (lift m >>= f) before ≡ (ok b, after)
      → (a : A) × (m ≡ ok a) × (f a before ≡ (ok b, after))
  lifted (ok a) f before after b h = (a, refl, h)
  lifted (err exc) f before after b h = cc

  -- `save_state` on a state is a save of what the merge gives.
  pub save_state-Saved :
      (state saved : AppState User) (before after : Disk)
      → save_state validate_state new_key state before ≡ (ok saved, after)
      → (merged : AppState User) × (merged_with
            (without_resets state)
            (device_resets state)
            (latest_of before)
          ≡ ok merged)
        × Saved merged (latest_of before) saved after
  unfolding save_state
  save_state-Saved state saved before after h =
      let (merged, e, k) =
        lifted (merged_with (without_resets state) (device_resets state) (latest_of before))
          (λ merged. save_unlocked validate_state new_key merged (latest_of before)) before after
          saved h in
      (merged, e, save_unlocked-Saved merged (latest_of before) before after saved k)

  pub restore-Saved :
      (snapshot saved : AppState User) (before after : Disk)
      → restore_desired_state validate_state new_key snapshot before ≡ (ok saved, after)
      → (restored : AppState User) × Saved restored (latest_of before) saved after
  unfolding restore_desired_state
  restore-Saved snapshot saved before after h =
      let (restored, e, k) =
        lifted (merged_with (without_resets snapshot) (device_resets snapshot) (latest_of before))
          (λ restored.
            save_unlocked validate_state new_key (at_revision (latest_of before) restored)
              (latest_of before))
          before after saved h in
      (
        at_revision (latest_of before) restored,
        save_unlocked-Saved (at_revision (latest_of before) restored) (latest_of before) before
            after saved k,
      )

  first_part : {A T : Type 0} → Result (A × T) × Disk → Result A × Disk
  first_part (ok p, disk) = (ok p.0, disk)
  first_part (err exc, disk) = (err exc, disk)

  paired :
      {A T : Type 0} (m : Exec Disk A) (t : T) (before after : Disk) (r : A × T)
      → (m >>= λ a. pure (a, t)) before ≡ (ok r, after)
      → m before ≡ (ok r.0, after)
  unfolding first_part
  paired {A} {T} m t before after r h = go (m before) h
    where
      go :
          (x : Result A × Disk)
          → elim x.0 as (λ y. Result (A × T) × Disk) [
            | ok a ↦ (ok (a, t), x.1)
            | err exc ↦ (err exc, x.1)
          ]
            ≡ (ok r, after)
          → x ≡ (ok r.0, after)
      go (ok a, disk) k = ap first_part k
      go (err exc, disk) k = cc

  pub update_state-Saved :
      {T : Type 0} (mutator : AppState User → Result (AppState User × T)) (r : AppState User × T)
      (before after : Disk)
      → update_state validate_state new_key mutator before ≡ (ok r, after)
      → (mutated : AppState User) × Saved mutated (some (load before)) r.0 after
  unfolding update_state
  update_state-Saved mutator r before after h =
      let (mutated, e, k) =
        lifted (mutator (load before))
          (λ mutated.
            save_unlocked validate_state new_key mutated.0 (some (load before)) >>= λ saved.
            pure (saved, mutated.1))
          before after r h in
      (
        mutated.0,
        save_unlocked-Saved mutated.0 (some (load before)) before after r.0 (
            paired (save_unlocked validate_state new_key mutated.0 (some (load before))) mutated.1
              before after r k),
      )

  pub save_unlocked_raises :
      (state : AppState User) (current : Option (AppState User)) (disk : Disk) (exc : Exception)
      → next_revision (filled new_key state) current ≡ err exc
      → save_unlocked validate_state new_key state current disk ≡ (err exc, disk)
  unfolding save_unlocked
  save_unlocked_raises state current disk exc e =
      >>=-err (lift (next_revision (filled new_key state) current))
        (λ revision.
          lift (validate_state (document_at state revision))
          >> ((λ disk. (ok tt, some (document_at state revision)))
              >> pure (document_at state revision)))
        (ap (λ (r : Result ℕ). lift r disk) e)
