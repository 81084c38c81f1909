-- ===== src/Table/Solve.antt =====
-- The solvers that work on all columns: lines 836 to 1340 of src/app/markdown/table_width/mod.rs
-- `none` is a panic of an assertion. The loop of the ratio solver has a turn for each column and one
-- more, since a turn that is not the last one makes a column inactive.
pub mod Lagrange
pub mod Hybrid
pub mod Floor
pub mod RatioFloor
pub mod HybridFloor
use personal_productivity_ai.Common.{
  ℕ, zero, suc, ◌+◌, Bool, true, false, not, ◌&&◌, ◌||◌, Option, none, some, List, [], ◌∷◌, map,
  keep, length, set, leb, ◌==◌, if◌then◌else◌, get_elem?,
}
use personal_productivity_ai.Common.Int.{ℤ, pos}
use personal_productivity_ai.Table.{F32, Breakpoint, ColumnWidths, cmp, sum, sum_from}
use personal_productivity_ai.Table.Columns.{get_or, collect, replicate, max_by, and_then, cmp_ℕ}
use personal_productivity_ai.Table.Shrink.{at}

abbrev pub count_active : List Bool → ℕ
count_active [] = 0
count_active (a ∷ active) = if a then suc (count_active active) else count_active active

module _ (f : F32) where
  -- The asserts, the surplus and the fallback, and the solver proper for what is left.
  unfoldable pub guarded :
      Bool
      → List (f.F)
      → List (f.F)
      → f.F
      → f.F
      → f.F
      → Option (ColumnWidths f)
      → Option (ColumnWidths f)
  guarded lengths_agree max_c min_c available sum_max sum_min solved =
      if not (lengths_agree && f.is_finite available && f.le (f.zero_float) available)
      then none
      else if leb (length max_c) 0
      then some (record { widths = []; needs_horizontal_scroll = false })
      else if f.le sum_max available
      then some (record { widths = max_c; needs_horizontal_scroll = false })
      else if f.lt available sum_min
      then some (record { widths = min_c; needs_horizontal_scroll = true })
      else solved

  -- The overflow guard at the end of each solver.
  unfoldable pub fit_or_scroll : List (f.F) → f.F → List (f.F) → ColumnWidths f
  unfolding sum_from
  fit_or_scroll min_c available widths =
      if f.lt (f.add available (f.milli)) (sum f widths)
      then record { widths = min_c; needs_horizontal_scroll = true }
      else record { widths = widths; needs_horizontal_scroll = false }

  -- What is missing to `available`, or is too much, is given to one column.
  unfoldable pub drift_into : ℕ → List (f.F) → f.F → List (f.F) → List (f.F)
  unfolding sum_from
  drift_into target min_c available widths =
      let drift = f.sub available (sum f widths) in
      if f.lt (f.zero_float) (f.abs drift)
      then set widths target (f.fmax (f.add (at f widths target) drift) (at f min_c target))
      else widths

  abbrev pub or_zero : Option ℕ → ℕ
  or_zero none = 0
  or_zero (some j) = j

  -- The column with the most room above its least width; the first of several.
  unfoldable pub most_headroom : List (f.F) → List (f.F) → ℕ
  unfolding max_by
  most_headroom min_c widths = or_zero (
      max_by
        (λ a b.
          and_then
            (cmp f (f.sub (at f widths a) (at f min_c a)) (f.sub (at f widths b) (at f min_c b)))
            (cmp_ℕ b a))
        (collect (length widths) (λ j. j)))

  pub record RatioState : Type 0 where
    pub widths : List (f.F)
    pub active : List Bool
    pub active_max_sum : f.F
    pub remaining : f.F

  -- Is the column clamped in this turn?
  unfoldable pub is_clamped : List (f.F) → List (f.F) → f.F → List Bool → ℕ → Bool
  is_clamped max_c min_c ratio active j =
      get_or false active j && f.lt (f.div (at f max_c j) ratio) (at f min_c j)

  abbrev pub width_in_turn : List (f.F) → List (f.F) → f.F → RatioState → ℕ → f.F
  width_in_turn max_c min_c ratio s j =
      if get_or false (s.active) j
      then (if f.lt (f.div (at f max_c j) ratio) (at f min_c j)
          then at f min_c j
          else f.div (at f max_c j) ratio)
      else at f (s.widths) j

  unfoldable pub subtract_all : f.F → List (f.F) → List ℕ → f.F
  subtract_all x xs [] = x
  subtract_all x xs (j ∷ js) = subtract_all (f.sub x (at f xs j)) xs js

  -- A turn of the loop, and the columns that it clamps.
  unfoldable pub ratio_turn : List (f.F) → List (f.F) → RatioState → RatioState × List ℕ
  unfolding is_clamped
  ratio_turn max_c min_c s =
      let n = length max_c in
      let ratio = f.div (s.active_max_sum) (s.remaining) in
      let next = record s {
        widths = collect n (width_in_turn max_c min_c ratio s);
        active =
            collect n
              (λ j. get_or false (s.active) j && not (is_clamped max_c min_c ratio (s.active) j));
      } in
      (next, keep (is_clamped max_c min_c ratio (s.active)) (collect n (λ j. j)))

  unfoldable pub ratio_loop : List (f.F) → List (f.F) → ℕ → RatioState → Option RatioState
  unfolding ratio_turn subtract_all
  ratio_loop max_c min_c zero s = none
  ratio_loop max_c min_c (suc fuel) s =
      let (next, new_clamped) = ratio_turn max_c min_c s in
      let rest = ratio_loop max_c min_c fuel (record next {
        remaining = subtract_all (s.remaining) min_c new_clamped;
        active_max_sum = subtract_all (s.active_max_sum) max_c new_clamped;
      }) in
      if leb (count_active (s.active)) 0
      then some s
      else if leb (length new_clamped) 0
      then some next
      else rest

  abbrev pub room_ratio : List (f.F) → List (f.F) → ℕ → f.F
  room_ratio max_c min_c j =
      if f.lt (f.zero_float) (at f min_c j) then f.div (at f max_c j) (at f min_c j) else f.infinity

  -- Of the columns that are active, the one with the greatest ratio; the first of several.
  unfoldable pub ratio_target : List (f.F) → List (f.F) → List Bool → ℕ
  unfolding max_by
  ratio_target max_c min_c active = or_zero (
      max_by
        (λ a b. and_then (cmp f (room_ratio max_c min_c a) (room_ratio max_c min_c b)) (cmp_ℕ b a))
        (keep (get_or false active) (collect (length max_c) (λ j. j))))

  -- The drift and the guard at the end of the loop.
  unfoldable pub ratio_result :
      List (f.F) → List (f.F) → f.F → Option RatioState → Option (ColumnWidths f)
  unfolding ratio_target drift_into fit_or_scroll
  ratio_result max_c min_c available none = none
  ratio_result max_c min_c available (some s) = some (
      fit_or_scroll min_c available
        (drift_into (ratio_target max_c min_c (s.active)) min_c available (s.widths)))

  unfoldable pub ratio_widths : List (f.F) → List (f.F) → f.F → f.F → Option (ColumnWidths f)
  unfolding ratio_loop ratio_result
  ratio_widths max_c min_c available sum_max =
      let n = length max_c in
      let first : RatioState = record {
        widths = replicate n (f.zero_float);
        active = replicate n true;
        active_max_sum = sum_max;
        remaining = available;
      } in
      ratio_result max_c min_c available (ratio_loop max_c min_c (suc n) first)

  unfoldable pub solve_waterfill_ratio :
      List (f.F) → List (f.F) → f.F → f.F → f.F → Option (ColumnWidths f)
  unfolding guarded ratio_widths
  solve_waterfill_ratio max_c min_c available sum_max sum_min =
      guarded (length max_c == length min_c) max_c min_c available sum_max sum_min
        (ratio_widths max_c min_c available sum_max)
