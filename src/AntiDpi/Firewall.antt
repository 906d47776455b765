-- ===== src/AntiDpi/Firewall.antt =====
-- What is documented of ipset, and a ban that hydra/plugins/antidpi/detector_service.py (`_enforce_ban`)
-- writes to the document and to the firewall.
use hydra_ultimate.Base.{
  ℕ, ◌+◌, ◌-◌, ◌≤◌, String, ◌≡◌, refl, sym, ◌∙◌, Bool, true, false, not, ◌&&◌, ◌||◌, arith, str_eq,
  ltb, ◌==◌, if◌then◌else◌, or_default, Bool-cases, inl, inr,
}
use hydra_ultimate.Base.Dict.{Dict, lookup, insert}
use hydra_ultimate.AntiDpi.Detection.{Observation, record_automatic_ban}
use hydra_ultimate.AntiDpi.{Ban, Data, is_active, get_ban_duration, record_ban_failure}
use hydra_ultimate.AntiDpi.Detector.{
  Host, CommandResult, enforce_ban, after_intent, revert_ban_intent, del_failed,
}
use hydra_ultimate.AntiDpi.Blocked.{
  banned_at, banned_at-insert, banned_at-later, banned_at-erase-insert,
}

-- What is documented of `ipset`, with `blocks fw a t` for a firewall `fw` that drops what comes from
-- `a` at the time `t`: a timeout of 0 is none, `-exist` writes over an entry, and a command that fails
-- changes no entry.
pub record IsIpset {F : Type 0} (host : Host F) (blocks : F → String → ℕ → Bool) : Type 0 where
  pub added :
      (a b : String) (d now t : ℕ) (fw new : F)
      → now ≤ t
      → host.add a d now fw ≡ (true, new)
      → blocks new b t ≡ (if str_eq a b then (d == 0) || ltb t (now + d) else blocks fw b t)
  pub not_added :
      (a b : String) (d now t : ℕ) (fw new : F)
      → host.add a d now fw ≡ (false, new)
      → blocks new b t ≡ blocks fw b t
  pub deleted :
      (a b : String) (now t : ℕ) (fw new : F) (r : CommandResult)
      → now ≤ t
      → host.del a now fw ≡ (r, new)
      → blocks new b t ≡ (if str_eq a b && not (del_failed r) then false else blocks fw b t)
  pub prepared : (b : String) (t : ℕ) (fw : F) → blocks (host.prepare fw).1 b t ≡ blocks fw b t

module _ {F : Type 0} (host : Host F) (blocks : F → String → ℕ → Bool)
    (laws : IsIpset host blocks) where
  -- From `now` on, the firewall drops what comes from an address exactly while it has an active ban.
  abbrev pub Agree : ℕ → Dict Ban → F → Type 0
  Agree now banned fw = (a : String) (t : ℕ) → now ≤ t → blocks fw a t ≡ banned_at a t banned

  pub Agree-insert :
      (a : String) (duration now : ℕ) (v : Ban) (banned : Dict Ban) (fw new : F)
      → host.add a duration now fw ≡ (true, new)
      → ((t : ℕ) → is_active t v ≡ ((duration == 0) || ltb t (now + duration)))
      → ((t : ℕ) → now ≤ t → (is_active t v || not (banned_at a t banned)) ≡ true)
      → Agree now banned fw
      → Agree now (insert a v banned) new
  Agree-insert a duration now v banned fw new e active free h b t le =
      laws.added a b duration now t fw new le e
      ∙ sym (banned_at-insert a b t v banned (free t le) ∙ ground (arith, active t, h b t le))

  -- The ban is in both, or in neither.
  after_intent-Agree :
      (o : Observation) (remaining : ℕ) (d : Data) (fw : F) (result : Bool × F)
      → host.add o.address remaining o.enforced_at fw ≡ result
      → (remaining == 0) ≡ false
      → banned_at o.address o.enforced_at d.banned ≡ false
      → Agree o.enforced_at d.banned fw
      → let intent = record_automatic_ban o remaining d in
        let after = after_intent o intent.0 intent.1 result in
        Agree o.enforced_at after.document.banned after.firewall
  unfolding record_automatic_ban revert_ban_intent record_ban_failure is_active
  after_intent-Agree o remaining d fw (true, new) e nonzero free h a t le =
      Agree-insert o.address remaining o.enforced_at _ d.banned fw new e
        (λ t. ground (arith, nonzero))
        (λ t le. ground (arith, banned_at-later o.address o.enforced_at t d.banned le free)) h a t
        le
  after_intent-Agree o remaining d fw (false, new) e nonzero free h a t le =
      laws.not_added o.address a remaining o.enforced_at t fw new e
      ∙ h a t le
      ∙ sym (
          banned_at-erase-insert o.address a t _ d.banned
            (banned_at-later o.address o.enforced_at t d.banned le free))

  pub enforce_ban-Agree :
      (o : Observation) (d : Data) (fw : F)
      → banned_at o.address o.enforced_at d.banned ≡ false
      → Agree o.enforced_at d.banned fw
      → Agree o.enforced_at
          (enforce_ban host o d fw).document.banned
          (enforce_ban host o d fw).firewall
  unfolding enforce_ban
  enforce_ban-Agree o d fw free h = elim (Bool-cases (remaining == 0)) [
    | inl zero ↦ rw zero h
    | inr nonzero ↦ rw nonzero (
        after_intent-Agree o remaining d fw (host.add o.address remaining o.enforced_at fw) refl
          nonzero free h)
  ]
    where
      remaining : ℕ
      remaining =
          get_ban_duration (or_default (lookup o.address d.ban_counts) 0 + 1)
          - (o.enforced_at - o.timestamp)
