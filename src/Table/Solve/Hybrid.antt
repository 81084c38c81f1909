-- ===== src/Table/Solve/Hybrid.antt =====
-- The hybrid solver: lines 1220 to 1340 of src/app/markdown/table_width/mod.rs
-- `none` is the panic of `clamp`, whose bounds must be in order.
use personal_productivity_ai.Common.{
  ℕ, Bool, true, ◌&&◌, Option, none, some, List, [], ◌∷◌, length, ◌==◌, if◌then◌else◌,
}
use personal_productivity_ai.Table.{F32, Breakpoint, ColumnWidths, sum, sum_from}
use personal_productivity_ai.Table.Columns.{get_or, collect}
use personal_productivity_ai.Table.Shrink.{at}
use personal_productivity_ai.Table.Solve.{guarded, fit_or_scroll, drift_into, most_headroom}

module _ (f : F32) where
  abbrev pub last_width : f.F → List (Breakpoint f) → f.F
  last_width w [] = w
  last_width w (bp ∷ bps) = last_width (bp.width) bps

  -- `clamp` of bounds that are in order.
  unfoldable pub clamp : f.F → f.F → f.F → f.F
  clamp x low high = if f.lt x low then low else if f.lt high x then high else x

  unfoldable pub target_of : List (f.F) → List (f.F) → List (List (Breakpoint f)) → ℕ → f.F
  unfolding clamp
  target_of max_c min_c breakpoints j =
      clamp (last_width (at f max_c j) (get_or [] breakpoints j)) (at f min_c j) (at f max_c j)

  -- The bounds of each clamp are in order.
  unfoldable pub in_order : List (f.F) → List (f.F) → Bool
  in_order [] min_c = true
  in_order (mx ∷ max_c) [] = true
  in_order (mx ∷ max_c) (mn ∷ min_c) = f.le mn mx && in_order max_c min_c

  -- The residual is shared out in proportion to the room that each column has.
  unfoldable pub widen : List (f.F) → List (f.F) → f.F → List (f.F)
  unfolding sum_from
  widen max_c targets residual =
      let n = length max_c in
      let headroom =
        collect n (λ j. f.fmax (f.sub (at f max_c j) (at f targets j)) (f.zero_float)) in
      let total = sum f headroom in
      if f.lt (f.zero_float) total
      then collect n (λ j.
        f.fmin (f.add (at f targets j) (f.div (f.mul residual (at f headroom j)) total))
          (at f max_c j))
      else targets

  unfoldable pub narrow : List (f.F) → List (f.F) → f.F → List (f.F)
  unfolding sum_from
  narrow min_c targets residual =
      let n = length targets in
      let above_min =
        collect n (λ j. f.fmax (f.sub (at f targets j) (at f min_c j)) (f.zero_float)) in
      let total = sum f above_min in
      let take = f.neg residual in
      if f.lt (f.zero_float) total
      then collect n (λ j.
        f.fmax (f.sub (at f targets j) (f.div (f.mul take (at f above_min j)) total))
          (at f min_c j))
      else targets

  unfoldable pub share_residual : List (f.F) → List (f.F) → List (f.F) → f.F → List (f.F)
  unfolding widen narrow
  share_residual max_c min_c targets residual =
      if f.lt (f.zero_float) (f.abs residual)
      then (if f.lt (f.zero_float) residual
          then widen max_c targets residual
          else narrow min_c targets residual)
      else targets

  unfoldable pub hybrid_widths :
      List (f.F) → List (f.F) → List (List (Breakpoint f)) → f.F → Option (ColumnWidths f)
  unfolding target_of in_order share_residual most_headroom drift_into fit_or_scroll sum_from
  hybrid_widths max_c min_c breakpoints available =
      let targets = collect (length max_c) (target_of max_c min_c breakpoints) in
      let widths = share_residual max_c min_c targets (f.sub available (sum f targets)) in
      if in_order max_c min_c
      then some (
          fit_or_scroll f min_c available
            (drift_into f (most_headroom f min_c widths) min_c available widths))
      else none

  unfoldable pub solve_hybrid :
      List (f.F)
      → List (f.F)
      → List (List (Breakpoint f))
      → f.F
      → f.F
      → f.F
      → Option (ColumnWidths f)
  unfolding guarded hybrid_widths
  solve_hybrid max_c min_c breakpoints available sum_max sum_min =
      guarded f ((length max_c == length min_c) && (length max_c == length breakpoints)) max_c min_c
        available sum_max sum_min (hybrid_widths max_c min_c breakpoints available)
