-- ===== src/Kernel/ClockManager/Selection.antt =====
-- The searches of kernel/timing/ClockManager.cpp find a best source.
use cro_cos.Base.{
  ℕ, ◌≤◌, ◌≡◌, ◌⊎◌, ◌&&◌, Bool, true, false, Option, none, some, ltb, List, [], ◌∷◌, refl, arith,
  inl, inr, Bool-cases,
}
use cro_cos.Kernel.ClockManager.{
  ClockSource, best_of, find_bootstrap_clock, find_best_watchdog_clock, find_best_clock,
  is_calibrated,
}

-- Every eligible source of the list has at most this quality.
abbrev pub AtMost : (ClockSource → Bool) → ℕ → List ClockSource → Type 0
AtMost eligible q [] = Unit
AtMost eligible q (cs ∷ sources) = (eligible cs ≡ true → cs.quality ≤ q) × AtMost eligible q sources

abbrev pub NoneOf : (ClockSource → Bool) → List ClockSource → Type 0
NoneOf eligible [] = Unit
NoneOf eligible (cs ∷ sources) = (eligible cs ≡ false) × NoneOf eligible sources

-- The source is one of the list.
abbrev pub OneOf : ClockSource → List ClockSource → Type 0
OneOf best [] = ⊥
OneOf best (cs ∷ sources) = (cs ≡ best) ⊎ OneOf best sources

-- What a search may return: an eligible source of the list that no eligible one exceeds, or nothing, if none is
-- eligible.
abbrev pub IsBest : (ClockSource → Bool) → List ClockSource → Option ClockSource → Type 0
IsBest eligible sources none = NoneOf eligible sources
IsBest eligible sources (some best) =
    OneOf best sources × (eligible best ≡ true) × AtMost eligible best.quality sources

module _ (eligible : ClockSource → Bool) where
  -- With a source found already.
  from_some :
      (b : ClockSource) (sources : List ClockSource)
      → eligible b ≡ true
      → (best : ClockSource) × (best_of eligible (some b) sources ≡ some best)
        × ((b ≡ best) ⊎ OneOf best sources)
        × (eligible best ≡ true)
        × (b.quality ≤ best.quality)
        × AtMost eligible best.quality sources
  unfolding best_of
  from_some b [] ok = (b, refl, inl refl, ok, omega arith, tt)
  from_some b (cs ∷ sources) ok = elim (Bool-cases (eligible cs && ltb b.quality cs.quality)) [
    | inl e ↦
        let (best, found, one, fine, more, rest) = from_some cs sources (ground (arith, e)) in
        (best, rw (e, best_of) found, inr one, fine, ground (arith, e, more), ((λ _. more), rest))
    | inr e ↦
        let (best, found, one, fine, more, rest) = from_some b sources ok in
        (
          best,
          rw (e, best_of) found,
          elim one [ inl same ↦ inl same | inr later ↦ inr (inr later) ],
          fine,
          more,
          ((λ h. ground (arith, e, h, more)), rest),
        )
  ]

  skipped :
      (cs : ClockSource) (sources : List ClockSource) (found : Option ClockSource)
      → eligible cs ≡ false
      → IsBest eligible sources found
      → IsBest eligible (cs ∷ sources) found
  skipped cs sources none e h = (e, h)
  skipped cs sources (some best) e (one, fine, rest) =
      (inr one, fine, ((λ h. absurd (ground (arith, e, h))), rest))

  best_of-IsBest :
      (sources : List ClockSource) → IsBest eligible sources (best_of eligible none sources)
  unfolding best_of
  best_of-IsBest [] = tt
  best_of-IsBest (cs ∷ sources) = elim (Bool-cases (eligible cs)) [
    | inl e ↦
        let (best, found, one, fine, more, rest) = from_some cs sources e in
        rw (e, found, best_of) (one, fine, ((λ _. more), rest))
    | inr e ↦ rw (e, best_of) (skipped cs sources _ e (best_of-IsBest sources))
  ]

-- Each of the three searches returns a source of the list that fits and that no source of the list
-- that fits exceeds in quality, and returns none only if none of the list fits.
pub searches-IsBest :
    (sources : List ClockSource)
    → IsBest (λ cs. is_calibrated cs && cs.stable) sources (find_bootstrap_clock sources)
      × IsBest (λ cs. cs.stable) sources (find_best_watchdog_clock sources)
      × IsBest (λ _. true) sources (find_best_clock sources)
unfolding find_bootstrap_clock find_best_watchdog_clock find_best_clock
searches-IsBest sources = (
  best_of-IsBest (λ cs. is_calibrated cs && cs.stable) sources,
  best_of-IsBest (λ cs. cs.stable) sources,
  best_of-IsBest (λ _. true) sources,
)
