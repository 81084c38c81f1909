-- ===== src/Table/Layout.antt =====
-- The layout of a table: `TableLayoutBuilder::build` of src/app/markdown/table_layout.rs
-- The measurer is a parameter, and so is the type of a cell's content. `none` is a panic of `ftwa`.
-- Its line count is a copy of the solver's, which stands for both.
pub mod Kept
pub mod Built
use personal_productivity_ai.Common.{
  ℕ, zero, suc, ◌+◌, Bool, true, false, Option, none, some, List, [], ◌∷◌, ◌++◌, map, length, set,
  max, if◌then◌else◌, leb,
}
use personal_productivity_ai.Common.Int.{pos}
use personal_productivity_ai.Table.{F32, Breakpoint, ColumnWidths, sum, sum_from}
use personal_productivity_ai.Table.Columns.{get_or, replicate}
use personal_productivity_ai.Table.Strategy.{DeficitStrategy}
use personal_productivity_ai.Table.Shrink.{at}
use personal_productivity_ai.Table.Lines.{greedy_line_count, compute_column_breakpoints}
use personal_productivity_ai.Table.Ftwa.{ftwa}

module _ (f : F32) (Cell : Type 0) where
  -- What `measure_cell` gives of a cell.
  pub record Measured : Type 0 where
    pub max_width : f.F
    pub min_width : f.F
    pub tokens : List (f.F)

  pub record TextMeasurer : Type 0 where
    pub measure_cell : Cell → Measured
    pub space_width : f.F
    pub line_height : f.F

  pub record TableLayoutBuilder : Type 0 where
    pub measurer : TextMeasurer
    pub strategy : DeficitStrategy
    pub available_width : f.F
    pub padding_h : f.F
    pub padding_v : f.F
    pub col_spacing : f.F
    pub row_spacing : f.F

  pub record LayoutCell : Type 0 where
    pub x : f.F
    pub y : f.F
    pub width : f.F
    pub height : f.F
    pub content : Cell

  pub record TableLayout : Type 0 where
    pub rows : List (List LayoutCell)
    pub total_width : f.F
    pub total_height : f.F
    pub needs_horizontal_scroll : Bool

  -- The measurements of the columns so far.
  pub record Measures : Type 0 where
    pub max_w : List (f.F)
    pub min_w : List (f.F)
    pub cell_tokens : List (List (List (f.F)))

  unfoldable pub columns_of : List (List Cell) → ℕ
  columns_of [] = 0
  columns_of (row ∷ ast) = max (length row) (columns_of ast)

  abbrev pub raise : List (f.F) → ℕ → f.F → List (f.F)
  raise widths j w = if f.lt (at f widths j) w then set widths j w else widths

  unfoldable pub measure_one : Measured → ℕ → Measures → Measures
  measure_one c j m = record {
    max_w = raise (m.max_w) j (c.max_width);
    min_w = raise (m.min_w) j (c.min_width);
    cell_tokens = set (m.cell_tokens) j (get_or [] (m.cell_tokens) j ++ c.tokens ∷ []);
  }

  unfoldable pub measure_row : TextMeasurer → ℕ → List Cell → Measures → Measures
  unfolding measure_one
  measure_row t j [] m = m
  measure_row t j (cell ∷ row) m = measure_row t (suc j) row (measure_one (t.measure_cell cell) j m)

  unfoldable pub measure_all : TextMeasurer → List (List Cell) → Measures → Measures
  unfolding measure_row
  measure_all t [] m = m
  measure_all t (row ∷ ast) m = measure_all t ast (measure_row t 0 row m)

  -- An empty column is 1 wide; then the padding is added.
  unfoldable pub padded : f.F → List (f.F) → List (f.F)
  padded padding_h widths =
      map (λ (w : f.F). f.add (if f.le w (f.zero_float) then f.one_float else w) padding_h) widths

  unfoldable pub measures_of : TableLayoutBuilder → List (List Cell) → Measures
  unfolding columns_of measure_all padded
  measures_of b ast =
      let n = columns_of ast in
      let m = measure_all (b.measurer) ast (record {
        max_w = replicate n (f.zero_float);
        min_w = replicate n (f.zero_float);
        cell_tokens = replicate n [];
      }) in
      record m { max_w = padded (b.padding_h) (m.max_w); min_w = padded (b.padding_h) (m.min_w) }

  -- The spaces between the columns.
  abbrev pub spacing_of : TableLayoutBuilder → ℕ → f.F
  spacing_of b n = f.mul (f.sub (f.of_int (pos n)) (f.one_float)) (b.col_spacing)

  unfoldable pub content_avail : TableLayoutBuilder → ℕ → f.F
  content_avail b n = f.fmax (f.sub (b.available_width) (spacing_of b n)) (f.zero_float)

  -- The first pass over a row: the height of its highest cell.
  unfoldable pub row_height : TableLayoutBuilder → List (f.F) → ℕ → List Cell → f.F → f.F
  unfolding greedy_line_count
  row_height b col_widths j [] row_max_h = row_max_h
  row_height b col_widths j (cell ∷ row) row_max_h =
      let inner_w = f.fmax (f.sub (at f col_widths j) (b.padding_h)) (f.zero_float) in
      let tokens = (b.measurer.measure_cell cell).tokens in
      let lines = greedy_line_count f tokens (b.measurer.space_width) inner_w in
      let cell_h = f.add (f.mul (f.of_int lines) (b.measurer.line_height)) (b.padding_v) in
      row_height b col_widths (suc j) row (if f.lt row_max_h cell_h then cell_h else row_max_h)

  -- The second pass: the cells, from the position `x` on.
  unfoldable pub layout_cells :
      TableLayoutBuilder → List (f.F) → f.F → f.F → f.F → ℕ → List Cell → List LayoutCell
  layout_cells b col_widths x y height j [] = []
  layout_cells b col_widths x y height j (cell ∷ row) =
      record { x = x; y = y; width = at f col_widths j; height = height; content = cell }
      ∷ layout_cells b col_widths (f.add x (f.add (at f col_widths j) (b.col_spacing))) y height
          (suc j) row

  -- The rows, and the position below the last one.
  unfoldable pub layout_rows :
      TableLayoutBuilder → List (f.F) → f.F → List (List Cell) → List (List LayoutCell) × f.F
  unfolding row_height layout_cells
  layout_rows b col_widths y [] = ([], y)
  layout_rows b col_widths y (row ∷ ast) =
      let height = row_height b col_widths 0 row (b.measurer.line_height) in
      let below = layout_rows b col_widths (f.add y (f.add height (b.row_spacing))) ast in
      (layout_cells b col_widths (f.zero_float) y height 0 row ∷ below.0, below.1)

  unfoldable pub layout_of : TableLayoutBuilder → List (List Cell) → ColumnWidths f → TableLayout
  unfolding layout_rows measures_of sum_from columns_of
  layout_of b ast decision =
      let n = columns_of ast in
      let col_widths =
        if decision.needs_horizontal_scroll then (measures_of b ast).max_w else decision.widths in
      let rows = layout_rows b col_widths (f.zero_float) ast in
      record {
        rows = rows.0;
        total_width = f.add (sum f col_widths) (spacing_of b n);
        total_height = f.fmax (f.sub (rows.1) (b.row_spacing)) (f.zero_float);
        needs_horizontal_scroll = decision.needs_horizontal_scroll;
      }

  abbrev pub map_option :
      (ColumnWidths f → TableLayout) → Option (ColumnWidths f) → Option TableLayout
  map_option g none = none
  map_option g (some d) = some (g d)

  unfoldable pub breakpoints_of : TableLayoutBuilder → Measures → List (List (Breakpoint f))
  unfolding compute_column_breakpoints
  breakpoints_of b m =
      map (λ tokens. compute_column_breakpoints f tokens (b.measurer.space_width)) (m.cell_tokens)

  unfoldable pub build : TableLayoutBuilder → List (List Cell) → Option TableLayout
  unfolding measures_of breakpoints_of content_avail layout_of columns_of ftwa
  build b ast =
      let n = columns_of ast in
      let m = measures_of b ast in
      if leb n 0
      then some (record {
        rows = [];
        total_width = f.zero_float;
        total_height = f.zero_float;
        needs_horizontal_scroll = false;
      })
      else map_option (layout_of b ast)
          (ftwa f (m.max_w) (m.min_w) (breakpoints_of b m) (content_avail b n) (b.strategy))
