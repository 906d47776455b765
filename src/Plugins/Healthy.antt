-- ===== src/Plugins/Healthy.antt =====
-- What an empty answer of `health_all` means.
use mathlib.Core.Path.{subst}
use hydra_ultimate.Base.{
  message, class_name, String, ◌≡◌, refl, Bool, true, false, not, ◌&&◌, List, [], ◌∷◌, arith,
  str_eq, if◌then◌else◌, Result, ok, err, Exec, pure, try_except, ◌>>=◌, Bool-cases, inl, inr,
}
use hydra_ultimate.Base.Dict.{Dict, insert}
use hydra_ultimate.State.{User}
use hydra_ultimate.Plugins.{uses_central_apply}
use hydra_ultimate.Plugins.Executor.{
  Hooks, Health, health_all, is_unused, note_health, unhealthy, explained,
}

abbrev pub is_empty : {V : Type 0} → Dict V → Bool
is_empty [] = true
is_empty (entry ∷ rest) = false

insert-is_empty : {V : Type 0} (k : String) (v : V) (d : Dict V) → is_empty (insert k v d) ≡ false
unfolding insert
insert-is_empty k v [] = refl
insert-is_empty k v ((j, w) ∷ d) = ground arith

module _ {W P S F : Type 0} (hooks : Hooks W P S F) (users : List User) where
  open hooks use {meta, health}

  abbrev pub is_asked : P → Bool
  is_asked plugin = uses_central_apply (meta plugin) && not (is_unused hooks users (meta plugin))

  abbrev answers_well : Result Health → Bool
  answers_well (ok h) = h.healthy
  answers_well (err exc) = false

  -- Whether all the plugins that are asked, one after the other, answer that they are healthy.
  abbrev pub all_healthy : List P → W → Bool
  all_healthy [] w = true
  all_healthy (plugin ∷ rest) w =
      let (answer, w') = health plugin w in
      if is_asked plugin then answers_well answer && all_healthy rest w' else all_healthy rest w

  -- An answer without an exception.
  abbrev Answers : Bool → Result (Dict String) → Type 0
  Answers good (ok failures) = is_empty failures ≡ good
  Answers good (err exc) = ⊥

  note_health-is_empty :
      (plugin : P) (h : Health) (failures : Dict String)
      → is_empty (note_health hooks plugin h failures) ≡ (is_empty failures && h.healthy)
  note_health-is_empty plugin h failures = ground (
    arith,
    insert-is_empty (meta plugin).name (explained hooks (meta plugin).name h.detail) failures,
  )

  abbrev asked : P → Dict String → Exec W (Dict String)
  asked plugin failures = try_except (health plugin) (unhealthy hooks) >>= λ h.
      pure (note_health hooks plugin h failures)

  noted-Answers :
      (plugin : P) (h : Health) (failures : Dict String) (rest : List P) (w : W)
      → ((failures' : Dict String)
          → Answers
              (is_empty failures' && all_healthy rest w)
              (health_all hooks users rest failures' w).0)
      → Answers
          (is_empty failures && (h.healthy && all_healthy rest w))
          (health_all hooks users rest (note_health hooks plugin h failures) w).0
  noted-Answers plugin h failures rest w k =
      subst (λ b. Answers b (health_all hooks users rest (note_health hooks plugin h failures) w).0)
        (ground (arith, note_health-is_empty plugin h failures))
        (k (note_health hooks plugin h failures))

  health_all-Answers :
      (plugins : List P) (failures : Dict String) (w : W)
      → Answers
          (is_empty failures && all_healthy plugins w)
          (health_all hooks users plugins failures w).0
  unfolding health_all
  health_all-Answers [] failures w = ground arith
  health_all-Answers (plugin ∷ rest) failures w = elim (Bool-cases (is_asked plugin)) [
    | inr skipped ↦ rw skipped (health_all-Answers rest failures w)
    | inl on ↦ rw on (go (health plugin w) (health_all-Answers rest))
  ]
    where
      go :
          (x : Result Health × W)
          → ((failures' : Dict String) (w' : W)
              → Answers
                  (is_empty failures' && all_healthy rest w')
                  (health_all hooks users rest failures' w').0)
          → Answers
              (is_empty failures && (answers_well x.0 && all_healthy rest x.1))
              ((((λ (v : W). elim x.0 [ ok h ↦ (ok h, x.1) | err exc ↦ unhealthy hooks exc x.1 ])
                    >>= (λ h. pure (note_health hooks plugin h failures)))
                  >>= λ failures'. health_all hooks users rest failures')
                w).0
      go (ok h, w') k = noted-Answers plugin h failures rest w' (λ failures'. k failures' w')
      go (err exc, w') k =
          noted-Answers plugin
            (record {
              healthy = false;
              detail = if str_eq (message exc) "" then class_name exc else message exc;
            })
            failures rest w' (λ failures'. k failures' w')

  Answers-ok :
      (good : Bool) (r : Result (Dict String))
      → Answers good r
      → (failures : Dict String) × (r ≡ ok failures) × (is_empty failures ≡ good)
  Answers-ok good (ok failures) h = (failures, refl, h)
  Answers-ok good (err exc) h = absurd h

  -- The health check raises nothing, and it reports no failure just where all the plugins that it asks,
  -- one after the other, answer that they are healthy.
  pub health_all-healthy :
      (plugins : List P) (w : W)
      → (failures : Dict String) × ((health_all hooks users plugins [] w).0 ≡ ok failures)
        × (is_empty failures ≡ all_healthy plugins w)
  health_all-healthy plugins w =
      Answers-ok (all_healthy plugins w) (health_all hooks users plugins [] w).0
        (health_all-Answers plugins [] w)
