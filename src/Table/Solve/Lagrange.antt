-- ===== src/Table/Solve/Lagrange.antt =====
-- The Lagrange solver: lines 1009 to 1197 of src/app/markdown/table_width/mod.rs
use personal_productivity_ai.Common.{
  ℕ, zero, suc, ◌&&◌, ◌||◌, Option, some, List, [], ◌∷◌, length, ◌==◌, if◌then◌else◌,
}
use personal_productivity_ai.Common.Int.{ℤ, pos}
use personal_productivity_ai.Table.{F32, Breakpoint, ColumnWidths, sum, sum_from}
use personal_productivity_ai.Table.Columns.{get_or, collect}
use personal_productivity_ai.Table.Shrink.{at}
use personal_productivity_ai.Table.Solve.{guarded, fit_or_scroll, drift_into, most_headroom}

module _ (f : F32) where
  -- The width that is best so far, and its cost.
  abbrev Best : Type 0
  Best = f.F × f.F

  -- A candidate of cost `cost` is taken where it is cheaper, or as cheap and wider.
  unfoldable consider : f.F → f.F → Best → Best
  consider cost w (best_w, best_cost) =
      if f.lt cost best_cost || (f.float_eq cost best_cost && f.lt best_w w)
      then (w, cost)
      else (best_w, best_cost)

  abbrev extra_of_first : List (Breakpoint f) → ℤ
  extra_of_first [] = pos 0
  extra_of_first (bp ∷ bps) = bp.extra_lines

  -- The breakpoints from the widest down: those behind a breakpoint come before it, and the first of
  -- them gives its lines.
  unfoldable search : f.F → List (Breakpoint f) → Best → Best
  unfolding consider
  search lambda [] best = best
  search lambda (bp ∷ bps) best =
      let wider = search lambda bps best in
      consider (f.add (f.of_int (extra_of_first bps)) (f.mul lambda (bp.width))) (bp.width) wider

  unfoldable pub lagrange_optimal_width :
      f.F → ℕ → List (f.F) → List (f.F) → List (List (Breakpoint f)) → f.F
  unfolding search consider
  lagrange_optimal_width lambda j max_c min_c breakpoints =
      let max_j = at f max_c j in
      let min_j = at f min_c j in
      let bps = get_or [] breakpoints j in
      let best = search lambda bps (max_j, f.mul lambda max_j) in
      (consider (f.add (f.of_int (extra_of_first bps)) (f.mul lambda min_j)) min_j best).0

  unfoldable pub lagrange_widths :
      f.F → List (f.F) → List (f.F) → List (List (Breakpoint f)) → List (f.F)
  unfolding lagrange_optimal_width
  lagrange_widths lambda max_c min_c breakpoints =
      collect (length max_c) (λ j. lagrange_optimal_width lambda j max_c min_c breakpoints)

  unfoldable pub lagrange_sum : f.F → List (f.F) → List (f.F) → List (List (Breakpoint f)) → f.F
  unfolding lagrange_widths sum_from
  lagrange_sum lambda max_c min_c breakpoints =
      sum f (lagrange_widths lambda max_c min_c breakpoints)

  -- The upper end of the interval after a number of bisections.
  unfoldable bisect : (f.F → f.F) → f.F → ℕ → f.F → f.F → f.F
  bisect sum_at available zero lo hi = hi
  bisect sum_at available (suc rounds) lo hi =
      let mid = f.mul (f.half) (f.add lo hi) in
      let too_wide = f.lt available (sum_at mid) in
      bisect sum_at available rounds (if too_wide then mid else lo) (if too_wide then hi else mid)

  -- The widths after a number of bisections, with the drift given to one column.
  unfoldable pub penalty_widths :
      ℕ → List (f.F) → List (f.F) → List (List (Breakpoint f)) → f.F → List (f.F)
  unfolding bisect lagrange_sum lagrange_widths most_headroom drift_into
  penalty_widths rounds max_c min_c breakpoints available =
      let hi =
        bisect (λ lambda. lagrange_sum lambda max_c min_c breakpoints) available rounds
          (f.zero_float) (f.mega) in
      let widths = lagrange_widths hi max_c min_c breakpoints in
      drift_into f (most_headroom f min_c widths) min_c available widths

  unfoldable pub solve_lagrange_penalty :
      List (f.F)
      → List (f.F)
      → List (List (Breakpoint f))
      → f.F
      → f.F
      → f.F
      → Option (ColumnWidths f)
  unfolding guarded penalty_widths fit_or_scroll
  solve_lagrange_penalty max_c min_c breakpoints available sum_max sum_min =
      guarded f ((length max_c == length min_c) && (length max_c == length breakpoints)) max_c min_c
        available sum_max sum_min
        (some
          (fit_or_scroll f min_c available (penalty_widths 100 max_c min_c breakpoints available)))
