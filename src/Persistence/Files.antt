-- ===== src/Persistence/Files.antt =====
-- The files of hydra/core/state.py (`_save_state_unlocked`, `_read_raw_state_unlocked`): what is read
-- after a save that was cut off at any point.
use hydra_ultimate.Base.{
  ℕ, zero, suc, ◌≡◌, refl, ap, ◌∙◌, Option, none, some, List, [], ◌∷◌, ◌++◌, arith, ltb,
  if◌then◌else◌, is_some, Result, ok, err, Exception, runtime_error,
}

-- What a file holds: a document that can be read and is valid, or a part of one.
pub data Content (D : Type 0) : Type 0 where
  whole : D → Content D
  torn : Content D

-- `state.json`, `state.json.bak`, `state.json.bak.pending` and the temporary file of the process.
pub record Files (D : Type 0) : Type 0 where
  pub state : Option (Content D)
  pub backup : Option (Content D)
  pub pending : Option (Content D)
  pub tmp : Option (Content D)

abbrev pub corrupt : Exception
corrupt = runtime_error "State file is corrupt; recovery copy was saved"

module _ {D : Type 0} where
  abbrev read_backup : Option (Content D) → Result D
  read_backup none = err corrupt
  read_backup (some torn) = err corrupt
  read_backup (some (whole d)) = ok d

  abbrev read_primary : Option (Content D) → Option (Content D) → Result D
  read_primary (some (whole d)) backup = ok d
  read_primary (some torn) backup = read_backup backup
  read_primary none backup = read_backup backup

  -- `_read_raw_state_unlocked`
  unfoldable pub read_raw : Files D → Result D
  read_raw files = read_primary files.state files.backup

  -- `_load_state_unlocked`; `empty` stands for `AppState()`.
  unfoldable pub load_files : D → Files D → Result D
  unfolding read_raw
  load_files empty files = if is_some files.state then read_raw files else ok empty

  -- `copy2` writes the copy bit by bit, `replace` and `unlink` are atomic.
  abbrev backup_steps : List (Files D → Files D)
  backup_steps =
      (λ files. record files { pending = some torn })
      ∷ (λ files. record files { pending = files.state })
      ∷ (λ files. record files { backup = files.pending; pending = none })
      ∷ (λ files. record files { pending = none })
      ∷ []

  abbrev document_steps : D → List (Files D → Files D)
  document_steps document =
      (λ files. record files { tmp = some torn })
      ∷ (λ files. record files { tmp = some (whole document) })
      ∷ (λ files. record files { state = files.tmp; tmp = none })
      ∷ (λ files. record files { tmp = none })
      ∷ []

  -- The writes of `_save_state_unlocked`, in their order.
  unfoldable pub save_steps : D → Files D → List (Files D → Files D)
  save_steps document files =
      if is_some files.state
      then backup_steps ++ document_steps document
      else document_steps document

  -- The first `n` steps alone are carried out.
  unfoldable pub run_steps : ℕ → List (Files D → Files D) → Files D → Files D
  run_steps zero steps files = files
  run_steps (suc n) [] files = files
  run_steps (suc n) (step ∷ steps) files = run_steps n steps (step files)

  unfoldable pub cut_off : ℕ → D → Files D → Files D
  unfolding save_steps run_steps
  cut_off n document files = run_steps n (save_steps document files) files

  -- What can be seen of a save after its first `n` writes. Over a valid document it is the old one up
  -- to the replacement. Over a torn one it is the backup up to the point where the torn document has
  -- taken its place, and then nothing, up to the replacement.
  abbrev pub seen_after : ℕ → D → D → Files D → Option (Content D) → Result D
  seen_after n empty document files none = if ltb n 3 then ok empty else ok document
  seen_after n empty document files (some (whole old)) = if ltb n 7 then ok old else ok document
  seen_after n empty document files (some torn) =
      if ltb n 3 then read_backup files.backup else if ltb n 7 then err corrupt else ok document

  run_steps_end : (n : ℕ) (files : Files D) → run_steps n [] files ≡ files
  unfolding run_steps
  run_steps_end zero files = refl
  run_steps_end (suc n) files = refl

  abbrev files_of :
      Option (Content D) → Option (Content D) → Option (Content D) → Option (Content D) → Files D
  files_of state backup pending tmp = record {
    state = state;
    backup = backup;
    pending = pending;
    tmp = tmp;
  }

  cut_off-first :
      (n : ℕ) (empty document : D) (backup pending tmp : Option (Content D))
      → load_files empty (cut_off n document (files_of none backup pending tmp))
        ≡ (if ltb n 3 then ok empty else ok document)
  unfolding load_files cut_off
  cut_off-first zero empty document backup pending tmp = refl
  cut_off-first (suc zero) empty document backup pending tmp = refl
  cut_off-first (suc (suc zero)) empty document backup pending tmp = refl
  cut_off-first (suc (suc (suc zero))) empty document backup pending tmp = refl
  cut_off-first (suc (suc (suc (suc n)))) empty document backup pending tmp =
      rw (run_steps_end n (files_of (some (whole document)) backup pending none)) (ground arith)

  cut_off-whole :
      (n : ℕ) (empty document old : D) (backup pending tmp : Option (Content D))
      → load_files empty (cut_off n document (files_of (some (whole old)) backup pending tmp))
        ≡ (if ltb n 7 then ok old else ok document)
  unfolding load_files cut_off
  cut_off-whole zero empty document old backup pending tmp = refl
  cut_off-whole (suc zero) empty document old backup pending tmp = refl
  cut_off-whole (suc (suc zero)) empty document old backup pending tmp = refl
  cut_off-whole (suc (suc (suc zero))) empty document old backup pending tmp = refl
  cut_off-whole (suc (suc (suc (suc zero)))) empty document old backup pending tmp = refl
  cut_off-whole (suc (suc (suc (suc (suc zero))))) empty document old backup pending tmp = refl
  cut_off-whole (suc (suc (suc (suc (suc (suc zero)))))) empty document old backup pending tmp =
      refl
  cut_off-whole (suc (suc (suc (suc (suc (suc (suc zero))))))) empty document old backup pending
        tmp =
      refl
  cut_off-whole (suc (suc (suc (suc (suc (suc (suc (suc n)))))))) empty document old backup pending
        tmp =
      rw (run_steps_end n (files_of (some (whole document)) (some (whole old)) none none))
        (ground arith)

  cut_off-torn :
      (n : ℕ) (empty document : D) (backup pending tmp : Option (Content D))
      → load_files empty (cut_off n document (files_of (some torn) backup pending tmp))
        ≡ (if ltb n 3 then read_backup backup else if ltb n 7 then err corrupt else ok document)
  unfolding load_files cut_off
  cut_off-torn zero empty document backup pending tmp = refl
  cut_off-torn (suc zero) empty document backup pending tmp = refl
  cut_off-torn (suc (suc zero)) empty document backup pending tmp = refl
  cut_off-torn (suc (suc (suc zero))) empty document backup pending tmp = refl
  cut_off-torn (suc (suc (suc (suc zero)))) empty document backup pending tmp = refl
  cut_off-torn (suc (suc (suc (suc (suc zero))))) empty document backup pending tmp = refl
  cut_off-torn (suc (suc (suc (suc (suc (suc zero)))))) empty document backup pending tmp = refl
  cut_off-torn (suc (suc (suc (suc (suc (suc (suc zero))))))) empty document backup pending tmp =
      refl
  cut_off-torn (suc (suc (suc (suc (suc (suc (suc (suc n)))))))) empty document backup pending tmp =
      rw (run_steps_end n (files_of (some (whole document)) (some torn) none none)) (ground arith)

-- A save that is cut off at any point leaves what `seen_after` says. So over a valid document it is
-- never lost: the old one is read up to the replacement, and the new one from there on.
pub cut_off_lem :
    {D : Type 0} (n : ℕ) (empty document : D) (files : Files D)
    → load_files empty (cut_off n document files) ≡ seen_after n empty document files files.state
cut_off_lem {D} n empty document files = go files.state refl
  where
    -- The files with their state written out.
    opened :
        (state : Option (Content D))
        → files.state ≡ state
        → load_files empty (cut_off n document (record files { state = state }))
          ≡ seen_after n empty document files state
        → load_files empty (cut_off n document files) ≡ seen_after n empty document files state
    opened state e h =
        ap
          (λ (s : Option (Content D)).
            load_files empty (cut_off n document (record files { state = s })))
          e
        ∙ h

    go :
        (state : Option (Content D))
        → files.state ≡ state
        → load_files empty (cut_off n document files) ≡ seen_after n empty document files state
    go none e = opened none e (cut_off-first n empty document files.backup files.pending files.tmp)
    go (some (whole old)) e =
        opened (some (whole old)) e
          (cut_off-whole n empty document old files.backup files.pending files.tmp)
    go (some torn) e =
        opened (some torn) e (cut_off-torn n empty document files.backup files.pending files.tmp)
