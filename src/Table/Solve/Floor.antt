-- ===== src/Table/Solve/Floor.antt =====
-- Widths that are not below the least ones, through the last steps that the solvers share.
use personal_productivity_ai.Common.{
  ◌≡◌, refl, ℕ, Bool, true, false, Option, List, length, leb, Bool-cases, inl, inr,
}
use personal_productivity_ai.Table.{F32, IsIeee, ColumnWidths, sum}
use personal_productivity_ai.Table.Shrink.{at}
use personal_productivity_ai.Table.Shrink.Floor.{
  IsAtLeast, IsAtLeast-refl, set-IsAtLeast, IsAbove, set-IsAbove,
}
use personal_productivity_ai.Table.Solve.{guarded, fit_or_scroll, drift_into}

-- A scroll comes with the least widths, and without one the sum of the widths does not compare greater
-- than what is available and 0.001.
pub record Fits (f : F32) (min_c : List (f.F)) (available : f.F) (r : ColumnWidths f) : Type 0 where
  pub scrolls : r.needs_horizontal_scroll ≡ true → r.widths ≡ min_c
  pub fits :
      r.needs_horizontal_scroll ≡ false
      → f.lt (f.add available (f.milli)) (sum f (r.widths)) ≡ false

module _ (f : F32) (laws : IsIeee f) where
  pub drift_into-IsAtLeast :
      (target : ℕ) (min_c : List (f.F)) (available : f.F) (widths : List (f.F))
      → IsAtLeast f min_c widths
      → IsAtLeast f min_c (drift_into f target min_c available widths)
  unfolding drift_into
  drift_into-IsAtLeast target min_c available widths a =
      elim (Bool-cases (f.lt (f.zero_float) (f.abs (f.sub available (sum f widths))))) [
        | inl e ↦
            rw e (set-IsAtLeast f laws min_c widths target _ (laws.lt-fmax _ (at f min_c target)) a)
        | inr e ↦ rw e a
      ]

  pub drift_into-IsAbove :
      (target : ℕ) (min_c : List (f.F)) (available : f.F) (widths : List (f.F))
      → IsAbove f min_c min_c
      → IsAbove f min_c widths
      → IsAbove f min_c (drift_into f target min_c available widths)
  unfolding drift_into
  drift_into-IsAbove target min_c available widths m a =
      elim (Bool-cases (f.lt (f.zero_float) (f.abs (f.sub available (sum f widths))))) [
        | inl e ↦ rw e (set-IsAbove f laws min_c widths target _ (laws.le-fmax _ _ (m target)) a)
        | inr e ↦ rw e a
      ]

  pub scroll-Fits :
      (min_c : List (f.F)) (available : f.F)
      → Fits f min_c available (record { widths = min_c; needs_horizontal_scroll = true })
  scroll-Fits min_c available = record { scrolls = λ e. refl; fits = λ e. absurd cc }

  -- Widths that do not exceed what is available at all.
  pub within-Fits :
      (min_c widths : List (f.F)) (available : f.F)
      → f.lt available (sum f widths) ≡ false
      → Fits f min_c available (record { widths = widths; needs_horizontal_scroll = false })
  within-Fits min_c widths available h = record {
    scrolls = λ e. absurd cc;
    fits = λ e. laws.lt-add available (f.milli) (sum f widths) h (laws.lt_milli);
  }

  pub fit_or_scroll-Fits :
      (min_c : List (f.F)) (available : f.F) (widths : List (f.F))
      → Fits f min_c available (fit_or_scroll f min_c available widths)
  unfolding fit_or_scroll
  fit_or_scroll-Fits min_c available widths =
      elim (Bool-cases (f.lt (f.add available (f.milli)) (sum f widths))) [
        | inl e ↦ rw e (scroll-Fits min_c available)
        | inr e ↦ rw e (record { scrolls = λ g. absurd cc; fits = λ g. e })
      ]

  pub fit_or_scroll-IsAtLeast :
      (min_c : List (f.F)) (available : f.F) (widths : List (f.F))
      → IsAtLeast f min_c widths
      → IsAtLeast f min_c ((fit_or_scroll f min_c available widths).widths)
  unfolding fit_or_scroll
  fit_or_scroll-IsAtLeast min_c available widths a =
      elim (Bool-cases (f.lt (f.add available (f.milli)) (sum f widths))) [
        | inl e ↦ rw e (IsAtLeast-refl f laws min_c)
        | inr e ↦ rw e a
      ]

-- In the regime of a deficit a solver's asserts hold and its first tests fail.
pub guarded-deficit :
    (f : F32) (lengths_agree : Bool) (max_c min_c : List (f.F)) (available sum_max sum_min : f.F)
    (solved : Option (ColumnWidths f))
    → lengths_agree ≡ true
    → f.is_finite available ≡ true
    → f.le (f.zero_float) available ≡ true
    → leb (length max_c) 0 ≡ false
    → f.le sum_max available ≡ false
    → f.lt available sum_min ≡ false
    → guarded f lengths_agree max_c min_c available sum_max sum_min solved ≡ solved
unfolding guarded
guarded-deficit f lengths_agree max_c min_c available sum_max sum_min solved a b c d e g =
    rw (a, b, c, d, e, g) refl
