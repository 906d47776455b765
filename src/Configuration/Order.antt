-- ===== src/Configuration/Order.antt =====
-- The order in which a failed apply restores the host.
use mathlib.Core.Path.{subst}
use hydra_ultimate.Base.{
  ℕ, ◌+◌, ◌-◌, ◌≤◌, ◌≡◌, refl, ap, ◌∙◌, append_assoc, false, String, Option, some, Result, Exec,
  List, [], ◌∷◌, ◌++◌, arith, All, concat, length, ok, pure, ◌>>=◌, sorted, place, and_then,
}
use hydra_ultimate.Base.Int.{pos, ◌<ℤ◌}
use hydra_ultimate.Transaction.{
  RollbackAction, ApplyTransaction, Outcome, flag, add_rollback, advance, before,
}
use hydra_ultimate.Transaction.Order.{Falls, reversed, sorted-Falls, schedule, All-append}
use hydra_ultimate.Configuration.{
  Services, register_plugin_rollbacks, plan_caddy, caddy_callback, restore_config, restore_nft,
}
use hydra_ultimate.Configuration.Apply.{register_config, register_nft}

module _ {W : Type 0} where
  -- All the actions have a higher priority than `a`.
  abbrev Higher : RollbackAction W → List (RollbackAction W) → Type 0
  Higher a xs = All (λ b. a.priority <ℤ b.priority) xs

  place-Higher :
      (a : RollbackAction W) (xs : List (RollbackAction W))
      → Higher a xs
      → place before a xs ≡ a ∷ xs
  unfolding place before
  place-Higher a [] h = refl
  place-Higher a (x ∷ xs) h = ground (arith, h.0)

  Higher-reversed :
      (a : RollbackAction W) (xs : List (RollbackAction W)) → Higher a xs → Higher a (reversed xs)
  Higher-reversed a [] h = tt
  Higher-reversed a (x ∷ xs) h =
      All-append (λ b. a.priority <ℤ b.priority) (reversed xs) x (Higher-reversed a xs h.1) h.0

module _ {W P S F C B N R : Type 0} (services : Services W P S F C B N R) where
  open services use {plugin_name, roll_back, is_absent}

  abbrev pub plugin_action : ℕ → ℕ → ℕ → P → S → RollbackAction W
  plugin_action count index n plugin taken = record {
    priority = pos (30 + count - index);
    sequence = n;
    name = concat ("plugin " ∷ plugin_name plugin ∷ []);
    callback = roll_back plugin taken >>= λ done. pure (flag done);
  }

  -- The rollbacks of the applied plugins, in the order in which these were applied.
  abbrev pub plugin_actions : ℕ → ℕ → ℕ → List (P × S) → List (RollbackAction W)
  plugin_actions count index n [] = []
  plugin_actions count index n ((plugin, taken) ∷ rest) =
      plugin_action count index n plugin taken ∷ plugin_actions count (index + 1) (n + 1) rest

  abbrev opened : List (RollbackAction W) → ℕ → ApplyTransaction W
  opened actions n = record { phase = "apply"; actions = actions; sequence = n; finalized = false }

  register-actions :
      (count index n : ℕ) (applied : List (P × S)) (actions : List (RollbackAction W))
      → register_plugin_rollbacks services count index applied (opened actions n)
        ≡ ok (opened (actions ++ plugin_actions count index n applied) (n + length applied))
  unfolding register_plugin_rollbacks add_rollback
  register-actions count index n [] actions =
      ap (λ (xs : List (RollbackAction W)). ok (opened xs n)) (append-empty actions)
      ∙ ap (λ k. ok (opened (actions ++ []) k)) (omega arith)
    where
      append-empty : (xs : List (RollbackAction W)) → xs ≡ xs ++ []
      append-empty [] = refl
      append-empty (x ∷ xs) = ap (λ r. x ∷ r) (append-empty xs)
  register-actions count index n ((plugin, taken) ∷ rest) actions =
      register-actions count (index + 1) (n + 1) rest
        (actions ++ plugin_action count index n plugin taken ∷ [])
      ∙ ap (λ (xs : List (RollbackAction W)). ok (opened xs (n + 1 + length rest)))
          (append_assoc actions (plugin_action count index n plugin taken ∷ [])
            (plugin_actions count (index + 1) (n + 1) rest))
      ∙ ap (λ k. ok (opened (actions ++ plugin_actions count index n ((plugin, taken) ∷ rest)) k))
          (omega arith)

  plugin_actions-Falls :
      (count index n : ℕ) (applied : List (P × S))
      → index + length applied ≤ count
      → Falls (pos (31 + count - index)) (plugin_actions count index n applied)
  plugin_actions-Falls count index n [] h = tt
  plugin_actions-Falls count index n ((plugin, taken) ∷ rest) h = (
    ground arith,
    subst (λ k. Falls (pos k) (plugin_actions count (index + 1) (n + 1) rest)) (omega arith)
        (plugin_actions-Falls count (index + 1) (n + 1) rest (omega arith)),
  )

  plugin_actions-Higher :
      (a : RollbackAction W) (count index n : ℕ) (applied : List (P × S))
      → a.priority <ℤ pos 31
      → index + length applied ≤ count
      → Higher a (plugin_actions count index n applied)
  plugin_actions-Higher a count index n [] low h = tt
  plugin_actions-Higher a count index n ((plugin, taken) ∷ rest) low h =
      (omega arith, plugin_actions-Higher a count (index + 1) (n + 1) rest low (omega arith))

  prioritized-schedule :
      (config nft caddy : RollbackAction W)
      → config.priority ≡ pos 10
      → nft.priority ≡ pos 20
      → caddy.priority ≡ pos 25
      → (n : ℕ) (applied : List (P × S))
      → and_then
          (register_plugin_rollbacks services (length applied) 0 applied (record {
            phase = "apply";
            actions = config ∷ nft ∷ caddy ∷ [];
            sequence = n;
            finalized = false;
          }))
          (λ tx. ok (schedule tx))
        ≡ ok (config ∷ nft ∷ caddy ∷ reversed (plugin_actions (length applied) 0 n applied))
  unfolding sorted
  prioritized-schedule config nft caddy hc hn hy n applied =
      let plugins = plugin_actions (length applied) 0 n applied in
      let behind = λ (a : RollbackAction W) (low : a.priority <ℤ pos 31).
        Higher-reversed a plugins
          (plugin_actions-Higher a (length applied) 0 n applied low (omega arith)) in
      rw (register-actions (length applied) 0 n applied (config ∷ nft ∷ caddy ∷ [])) (
        ap ok (
          rw
            (sorted-Falls (pos (31 + length applied - 0)) plugins
              (plugin_actions-Falls (length applied) 0 n applied (omega arith)))
            (rw (place-Higher caddy (reversed plugins) (behind caddy (rw hy (omega arith)))) (
              rw
                (place-Higher nft (caddy ∷ reversed plugins)
                  (rw (hn, hy) (omega arith), behind nft (rw hn (omega arith))))
                (place-Higher config (nft ∷ caddy ∷ reversed plugins) (
                  rw (hc, hn) (omega arith),
                  (rw (hc, hy) (omega arith), behind config (rw hc (omega arith))),
                ))))))

  -- The registrations of `apply`, in its order, until the plugins are applied.
  abbrev pub registered :
      Option B → N → Option R → List (P × S) → ApplyTransaction W → Result (ApplyTransaction W)
  registered previous taken backup applied tx = and_then (register_config services previous tx) λ t.
      and_then (register_nft services taken t) λ t. and_then (advance "apply" t) λ t.
        and_then (plan_caddy services backup t)
          λ t. register_plugin_rollbacks services (length applied) 0 applied t

  abbrev pub numbered : ℕ → ℕ → String → Exec W Outcome → RollbackAction W
  numbered priority n name callback = record {
    priority = pos priority;
    sequence = n;
    name = name;
    callback = callback;
  }

  -- The registrations of an apply succeed, where there is a router to restore, and a rollback then
  -- restores the Sing-Box document first, the nftables rules, the router, and then the plugins from the
  -- one that was applied last back to the first one.
  pub registered-schedule :
      (previous : Option B) (taken : N) (backup : R) (applied : List (P × S)) (phase : String)
      → is_absent backup ≡ false
      → and_then
          (registered previous taken
            (some backup)
            applied
            (record { phase = phase; actions = []; sequence = 0; finalized = false }))
          (λ tx. ok (schedule tx))
        ≡ ok (
            numbered 10 0 "sing-box config" (restore_config services previous)
            ∷ numbered 20 1 "nftables" (restore_nft services taken)
            ∷ numbered 25 2 "caddy runtime" (caddy_callback services backup)
            ∷ reversed (plugin_actions (length applied) 0 3 applied))
  unfolding add_rollback advance
  registered-schedule previous taken backup applied phase present =
      rw present (prioritized-schedule _ _ _ refl refl refl 3 applied)
