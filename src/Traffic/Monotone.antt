-- ===== src/Traffic/Monotone.antt =====
-- The totals under a run of raw counters.
use hydra_ultimate.Base.{
  ℕ, ◌+◌, ◌-◌, String, ◌≡◌, refl, ap, ◌∙◌, Bool, true, some, List, [], ◌∷◌, arith, keep, not, leb,
  eq_iff, if◌then◌else◌,
}
use hydra_ultimate.Base.Int.{pos}
use hydra_ultimate.Base.Dict.{lookup, lookup-insert}
use hydra_ultimate.Base.Value.{Value, int_of}
use hydra_ultimate.Traffic.{
  Stats, used, used_key, last_key, counter, non_negative, accumulate, next_total, previous_raw,
  present, reset_stats, number, dropped_by_reset,
}

-- What one reading adds: the growth, or all of it where the counter has started again.
abbrev pub growth : ℕ → ℕ → ℕ
growth previous raw = if leb previous raw then raw - previous else raw

used-accumulate :
    (stats : Stats) (raw : ℕ)
    → used (accumulate stats raw)
      ≡ next_total (used stats) (previous_raw (present (lookup last_key stats))) raw
unfolding accumulate counter non_negative int_of
used-accumulate stats raw = simp lookup-insert

last-accumulate :
    (stats : Stats) (raw : ℕ) → lookup last_key (accumulate stats raw) ≡ some (Value.int (pos raw))
unfolding accumulate
last-accumulate stats raw = simp lookup-insert

-- The readings of a run, one after another.
abbrev pub accumulate_all : List ℕ → Stats → Stats
accumulate_all [] stats = stats
accumulate_all (raw ∷ raws) stats = accumulate_all raws (accumulate stats raw)

-- What a run of readings adds after a reading `previous`.
abbrev pub total_growth : ℕ → List ℕ → ℕ
total_growth previous [] = 0
total_growth previous (raw ∷ raws) = growth previous raw + total_growth raw raws

abbrev Baseline : Stats → ℕ → Type 0
Baseline stats previous = lookup last_key stats ≡ some (Value.int (pos previous))

used-accumulate-Baseline :
    (stats : Stats) (previous raw : ℕ)
    → Baseline stats previous
    → used (accumulate stats raw) ≡ used stats + growth previous raw
unfolding non_negative int_of next_total
used-accumulate-Baseline stats previous raw base =
    used-accumulate stats raw
    ∙ ap (λ o. next_total (used stats) (previous_raw (present o)) raw) base
    ∙ ground arith

-- From a recorded reading, a run of readings adds to the total exactly what the counter grew by at each
-- step, where a reading below the one before it counts in full.
pub accumulate_all_lem :
    (raws : List ℕ) (stats : Stats) (previous : ℕ)
    → lookup last_key stats ≡ some (Value.int (pos previous))
    → used (accumulate_all raws stats) ≡ used stats + total_growth previous raws
accumulate_all_lem [] stats previous base = omega arith
accumulate_all_lem (raw ∷ raws) stats previous base =
    accumulate_all_lem raws (accumulate stats raw) raw (last-accumulate stats raw)
    ∙ omega (arith, used-accumulate-Baseline stats previous raw base)

lookup-keep :
    (key : String) (p : String → Bool) (stats : Stats)
    → p key ≡ true
    → lookup key (keep (λ entry. p entry.0) stats) ≡ lookup key stats
unfolding lookup
lookup-keep key p [] passes = refl
lookup-keep key p ((k, v) ∷ stats) passes =
    ground (arith, eq_iff k key, lookup-keep key p stats passes)

lookup-reset : (stats : Stats) → lookup last_key (reset_stats stats) ≡ lookup last_key stats
lookup-reset stats =
    lookup-insert used_key last_key (number 0)
      (keep (λ entry. not (dropped_by_reset entry.0)) stats)
    ∙ lookup-keep last_key (λ key. not (dropped_by_reset key)) stats refl

used-reset : (stats : Stats) → used (reset_stats stats) ≡ 0
unfolding counter non_negative int_of
used-reset stats = simp lookup-insert

-- A reset of a user's counters starts a new period: with a recorded reading, what a run of readings
-- after the reset adds up to is the growth since that reading, whatever was counted before.
pub reset-accumulate_all :
    (raws : List ℕ) (stats : Stats) (previous : ℕ)
    → lookup last_key stats ≡ some (Value.int (pos previous))
    → used (accumulate_all raws (reset_stats stats)) ≡ total_growth previous raws
reset-accumulate_all raws stats previous base =
    accumulate_all_lem raws (reset_stats stats) previous (lookup-reset stats ∙ base)
    ∙ omega (arith, used-reset stats)
