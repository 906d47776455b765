-- ===== src/Transaction/Phases.antt =====
-- The life of a transaction: registration, then one end, after which nothing happens.
use mathlib.Core.Path.{subst}
use hydra_ultimate.Base.{
  ℕ, ◌+◌, String, ◌≡◌, refl, ap, ◌∙◌, ◌⊎◌, true, false, Option, List, [], ◌∷◌, ◌++◌, arith, length,
  length-append, Exec, ok, Bool-cases, inl, inr,
}
use hydra_ultimate.Base.Int.{ℤ}
use hydra_ultimate.Transaction.{
  Outcome, RollbackAction, ApplyTransaction, new, advance, add_rollback, rollback, commit,
}

module _ {W : Type 0} where
  -- The sequence numbers count up from `k`.
  abbrev pub IsNumbered : ℕ → List (RollbackAction W) → Type 0
  IsNumbered k [] = Unit
  IsNumbered k (a ∷ rest) = (a.sequence ≡ k) × IsNumbered (k + 1) rest

  IsNumbered-append :
      (k : ℕ) (xs : List (RollbackAction W)) (a : RollbackAction W)
      → IsNumbered k xs
      → a.sequence ≡ k + length xs
      → IsNumbered k (xs ++ a ∷ [])
  IsNumbered-append k [] a h e = (omega arith, tt)
  IsNumbered-append k (x ∷ xs) a h e = (h.0, IsNumbered-append (k + 1) xs a h.1 (omega arith))

-- The actions are numbered in the order of registration, and an ended transaction says how it ended.
pub record IsValid {W : Type 0} (t : ApplyTransaction W) : Type 0 where
  pub numbered : IsNumbered 0 t.actions
  pub counted : t.finalized ≡ false → t.sequence ≡ length t.actions
  pub ended : t.finalized ≡ true → (t.phase ≡ "committed") ⊎ (t.phase ≡ "rolled_back")

-- What a caller can do to a transaction. A call that raises leaves it as it is.
pub data Step {W : Type 0} (t u : ApplyTransaction W) : Type 0 where
  advanced : (phase : String) → advance phase t ≡ ok u → Step t u
  registered :
      (name : String) (callback : Exec W Outcome) (priority : ℤ)
      → add_rollback name callback priority t ≡ ok u
      → Step t u
  rolled_back :
      (on_error : Option (String → W → W)) (w : W) → (rollback on_error t w).1 ≡ u → Step t u
  committed : commit t ≡ ok u → Step t u

pub data Reach {W : Type 0} (t : ApplyTransaction W) : ApplyTransaction W → Type 0 where
  here : Reach t t
  next : {u v : ApplyTransaction W} → Reach t u → Step u v → Reach t v

module _ {W : Type 0} where
  new-IsValid : IsValid (new {W = W})
  new-IsValid = record { numbered = tt; counted = λ h. refl; ended = λ h. cc }

  add_rollback-IsValid :
      (name : String) (callback : Exec W Outcome) (priority : ℤ) (t : ApplyTransaction W)
      → IsValid t
      → t.finalized ≡ false
      → IsValid (record t {
        actions =
            t.actions
            ++ record {
              priority = priority;
              sequence = t.sequence;
              name = name;
              callback = callback;
            }
              ∷ [];
        sequence = t.sequence + 1;
      })
  add_rollback-IsValid name callback priority t v e = record {
    numbered = IsNumbered-append 0 t.actions _ v.numbered (v.counted e ∙ omega arith);
    counted = λ h. omega (arith, v.counted e, length-append {0} t.actions _);
    ended = λ h. cc;
  }

  advance-IsValid :
      (phase : String) (t : ApplyTransaction W)
      → IsValid t
      → t.finalized ≡ false
      → IsValid (record t { phase = phase })
  advance-IsValid phase t v e = record {
    numbered = v.numbered;
    counted = v.counted;
    ended = λ h. cc;
  }

  rolled_back-IsValid :
      (t : ApplyTransaction W)
      → IsValid t
      → IsValid (record t { phase = "rolled_back"; finalized = true })
  rolled_back-IsValid t v = record {
    numbered = v.numbered;
    counted = λ h. cc;
    ended = λ h. inr refl;
  }

  committed-IsValid :
      (t : ApplyTransaction W)
      → IsValid (record t { phase = "committed"; finalized = true; actions = [] })
  committed-IsValid t = record { numbered = tt; counted = λ h. cc; ended = λ h. inl refl }

  -- Every step keeps a transaction valid.
  pub Step-IsValid : {t u : ApplyTransaction W} → Step t u → IsValid t → IsValid u
  unfolding advance add_rollback rollback commit
  Step-IsValid {t} {u} (advanced phase h) v = elim (Bool-cases t.finalized) [
    | inl e ↦ absurd (ground arith)
    | inr e ↦ subst IsValid (ground arith) (advance-IsValid phase t v e)
  ]
  Step-IsValid {t} {u} (registered n c p h) v = elim (Bool-cases t.finalized) [
    | inl e ↦ absurd (ground arith)
    | inr e ↦ subst IsValid (ground arith) (add_rollback-IsValid n c p t v e)
  ]
  Step-IsValid {t} {u} (rolled_back l w h) v = elim (Bool-cases t.finalized) [
    | inl e ↦ subst IsValid (ground arith) v
    | inr e ↦ subst IsValid (ground arith) (rolled_back-IsValid t v)
  ]
  Step-IsValid {t} {u} (committed h) v = elim (Bool-cases t.finalized) [
    | inl e ↦ absurd (ground arith)
    | inr e ↦ subst IsValid (ground arith) (committed-IsValid t)
  ]

  -- Nothing changes a transaction once it has ended: no phase, no action and no second rollback.
  Step-ended : {t u : ApplyTransaction W} → Step t u → t.finalized ≡ true → u ≡ t
  unfolding advance add_rollback rollback commit
  Step-ended (advanced p h) e = ground arith
  Step-ended (registered n c p h) e = ground arith
  Step-ended (rolled_back l w h) e = ground arith
  Step-ended (committed h) e = ground arith

  Reach-IsValid : {t u : ApplyTransaction W} → IsValid t → Reach t u → IsValid u
  Reach-IsValid v here = v
  Reach-IsValid v (next r s) = Step-IsValid s (Reach-IsValid v r)

  Reach-ended : {t u : ApplyTransaction W} → t.finalized ≡ true → Reach t u → u ≡ t
  Reach-ended e here = refl
  Reach-ended {t} e (next r s) =
      let same = Reach-ended e r in
      Step-ended s (ap (λ (x : ApplyTransaction W). x.finalized) same ∙ e) ∙ same

-- From a new transaction, whatever the calls: the actions are numbered 0, 1, … in the order of
-- their registration, an ended transaction is committed or rolled back, and once it has ended
-- no further calls change it.
pub transaction_life :
    {W : Type 0} (t u : ApplyTransaction W)
    → Reach new t
    → Reach t u
    → IsValid t × (t.finalized ≡ true → u ≡ t)
transaction_life t u r s = (Reach-IsValid new-IsValid r, λ e. Reach-ended e s)
