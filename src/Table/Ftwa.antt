-- ===== src/Table/Ftwa.antt =====
-- The width algorithm: `ftwa`, lines 220 to 533 of src/app/markdown/table_width/mod.rs
-- `none` is a panic of an assertion.
pub mod Solved
pub mod Regimes
pub mod Sound
pub mod Panics
pub mod Narrowed
use personal_productivity_ai.Common.{
  ℕ, Bool, true, false, not, ◌&&◌, ◌||◌, Option, none, some, List, [], ◌∷◌, length, set, leb, ◌==◌,
  if◌then◌else◌,
}
use personal_productivity_ai.Table.{F32, Breakpoint, ColumnWidths, sum, sum_from}
use personal_productivity_ai.Table.Strategy.{
  DeficitStrategy, proportional_to_slack, breakpoint_water_fill, water_fill_ratio, lagrange_penalty,
  hybrid_min_penalty_water_fill,
}
use personal_productivity_ai.Table.Shrink.{at, b2_proportional_to_slack, b2_breakpoint_water_fill}
use personal_productivity_ai.Table.Shrink.Wrap.{positives_of, take_until, deepest}
use personal_productivity_ai.Table.Solve.{drift_into, solve_waterfill_ratio}
use personal_productivity_ai.Table.Solve.Lagrange.{solve_lagrange_penalty}
use personal_productivity_ai.Table.Solve.Hybrid.{solve_hybrid}

module _ (f : F32) where
  abbrev pub all_of : (f.F → Bool) → List (f.F) → Bool
  all_of p [] = true
  all_of p (x ∷ xs) = p x && all_of p xs

  -- A least width that is above the greatest by a drift of at most 1 is lowered to it.
  unfoldable pub snap_one : f.F → f.F → Option (List (f.F)) → Option (List (f.F))
  snap_one mx mn none = none
  snap_one mx mn (some rest) =
      if f.lt mx mn
      then (if f.le (f.sub mn mx) (f.one_float) then some (mx ∷ rest) else none)
      else some (mn ∷ rest)

  unfoldable pub snap : List (f.F) → List (f.F) → Option (List (f.F))
  unfolding snap_one
  snap [] min_c = some []
  snap (mx ∷ max_c) [] = some []
  snap (mx ∷ max_c) (mn ∷ min_c) = snap_one mx mn (snap max_c min_c)

  -- The overflow guard.
  unfoldable pub guard_overflow : List (f.F) → f.F → List (f.F) → ColumnWidths f
  unfolding sum_from
  guard_overflow min_c available widths =
      if f.lt available (sum f widths)
      then record { widths = min_c; needs_horizontal_scroll = true }
      else record { widths = widths; needs_horizontal_scroll = false }

  abbrev pub drift_to : Option ℕ → List (f.F) → f.F → List (f.F) → List (f.F)
  drift_to none min_c available widths = widths
  drift_to (some target) min_c available widths = drift_into f target min_c available widths

  -- The drift and the guard behind a strategy.
  unfoldable pub shrunk_result :
      Option ℕ → List (f.F) → f.F → Option (List (f.F)) → Option (ColumnWidths f)
  unfolding drift_into guard_overflow
  shrunk_result target min_c available none = none
  shrunk_result target min_c available (some widths) =
      some (guard_overflow min_c available (drift_to target min_c available widths))

  -- The wrap set shrunk by its strategy, and what is missing given to its deepest column.
  unfoldable pub shrink_wrap_set :
      (List ℕ → f.F → f.F → Option (List (f.F)))
      → List (f.F)
      → List (f.F)
      → f.F
      → f.F
      → Option (ColumnWidths f)
  unfolding positives_of take_until deepest shrunk_result
  shrink_wrap_set shrink max_c min_c available sum_max =
      let deficit = f.sub sum_max available in
      let (wrap_set, total_slack) =
        take_until f max_c min_c deficit (f.zero_float) (positives_of f max_c min_c) in
      shrunk_result (deepest f max_c min_c wrap_set) min_c available
        (shrink wrap_set deficit total_slack)

  unfoldable pub solve :
      DeficitStrategy
      → List (f.F)
      → List (f.F)
      → List (List (Breakpoint f))
      → f.F
      → f.F
      → f.F
      → Option (ColumnWidths f)
  unfolding shrink_wrap_set b2_proportional_to_slack b2_breakpoint_water_fill solve_waterfill_ratio
      solve_lagrange_penalty solve_hybrid
  solve water_fill_ratio max_c min_c breakpoints available sum_max sum_min =
      solve_waterfill_ratio f max_c min_c available sum_max sum_min
  solve lagrange_penalty max_c min_c breakpoints available sum_max sum_min =
      solve_lagrange_penalty f max_c min_c breakpoints available sum_max sum_min
  solve hybrid_min_penalty_water_fill max_c min_c breakpoints available sum_max sum_min =
      solve_hybrid f max_c min_c breakpoints available sum_max sum_min
  solve proportional_to_slack max_c min_c breakpoints available sum_max sum_min =
      shrink_wrap_set
        (λ wrap_set deficit acc.
          some (b2_proportional_to_slack f wrap_set max_c max_c min_c deficit acc))
        max_c min_c available sum_max
  solve breakpoint_water_fill max_c min_c breakpoints available sum_max sum_min =
      shrink_wrap_set
        (λ wrap_set deficit acc.
          b2_breakpoint_water_fill f wrap_set max_c max_c min_c breakpoints deficit)
        max_c min_c available sum_max

  -- The three regimes, with least widths that are snapped.
  unfoldable pub regimes :
      DeficitStrategy
      → List (f.F)
      → List (f.F)
      → List (List (Breakpoint f))
      → f.F
      → Option (ColumnWidths f)
  unfolding solve sum_from
  regimes strategy max_c min_c breakpoints available =
      let sum_max = sum f max_c in
      let sum_min = sum f min_c in
      if f.lt available sum_min
      then some (record { widths = min_c; needs_horizontal_scroll = true })
      else if f.le sum_max available
      then some (record { widths = max_c; needs_horizontal_scroll = false })
      else solve strategy max_c min_c breakpoints available sum_max sum_min

  unfoldable pub with_snapped :
      DeficitStrategy
      → List (f.F)
      → List (List (Breakpoint f))
      → f.F
      → Option (List (f.F))
      → Option (ColumnWidths f)
  unfolding regimes
  with_snapped strategy max_c breakpoints available none = none
  with_snapped strategy max_c breakpoints available (some min_c) =
      regimes strategy max_c min_c breakpoints available

  -- What the assertions on the numbers ask.
  unfoldable pub is_valid : List (f.F) → List (f.F) → f.F → Bool
  is_valid max_c min_c available =
      f.is_finite available
      && all_of (f.is_finite) max_c
      && all_of (f.is_finite) min_c
      && f.le (f.zero_float) available
      && all_of (f.le (f.zero_float)) max_c
      && all_of (f.le (f.zero_float)) min_c

  unfoldable pub ftwa :
      List (f.F)
      → List (f.F)
      → List (List (Breakpoint f))
      → f.F
      → DeficitStrategy
      → Option (ColumnWidths f)
  unfolding is_valid snap with_snapped
  ftwa max_c min_c breakpoints available strategy =
      let n = length max_c in
      if not ((n == length min_c) && (n == length breakpoints))
      then none
      else if leb n 0
      then some (record { widths = []; needs_horizontal_scroll = false })
      else if not (is_valid max_c min_c available)
      then none
      else with_snapped strategy max_c breakpoints available (snap max_c min_c)
