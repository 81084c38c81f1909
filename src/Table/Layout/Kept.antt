-- ===== src/Table/Layout/Kept.antt =====
-- The layout of a table has each cell once, in a grid of the widths that the solver chose.
use personal_productivity_ai.Common.{
  ◌≡◌, refl, sym, ap, ◌∙◌, subst, ℕ, zero, suc, ◌+◌, some, List, [], ◌∷◌, map, length, length-map,
  length-set, get_elem?, arith,
}
use mathlib.Core.Option.{some-injective}
use personal_productivity_ai.Table.{F32}
use personal_productivity_ai.Table.Columns.{length-replicate}
use personal_productivity_ai.Table.Shrink.{at}
use personal_productivity_ai.Table.Layout.{
  Measured, TextMeasurer, TableLayoutBuilder, LayoutCell, Measures, columns_of, raise, measure_one,
  measure_row, measure_all, padded, measures_of, layout_cells, layout_rows, row_height,
}

cons_eq : {A : Type 0} {x y : A} {xs ys : List A} → x ≡ y → xs ≡ ys → x ∷ xs ≡ y ∷ ys
cons_eq e h = cc

module _ (f : F32) (Cell : Type 0) where
  -- Of the cells of a row all stand at `y`, are `height` high, and have the width of their column,
  -- from column `j` on.
  abbrev IsLevel : List (f.F) → f.F → f.F → ℕ → List (LayoutCell f Cell) → Type 0
  IsLevel ws y height j row =
      (k : ℕ) (c : LayoutCell f Cell)
      → get_elem? row k ≡ some c
      → (c.y ≡ y) × ((c.height ≡ height) × (c.width ≡ at f ws (k + j)))

  -- Each cell stands once, in its row and its place, and a row is a level.
  pub record IsGrid (ast : List (List Cell)) (ws : List (f.F))
      (rows : List (List (LayoutCell f Cell))) : Type 0 where
    pub contents : map (map (λ (c : LayoutCell f Cell). c.content)) rows ≡ ast
    pub levels :
        (i : ℕ) (row : List (LayoutCell f Cell))
        → get_elem? rows i ≡ some row
        → (y : f.F) × ((height : f.F) × IsLevel ws y height 0 row)

  layout_cells-content :
      (b : TableLayoutBuilder f Cell) (ws : List (f.F)) (y height : f.F) (row : List Cell) (x : f.F)
      (j : ℕ)
      → map (λ (c : LayoutCell f Cell). c.content) (layout_cells f Cell b ws x y height j row) ≡ row
  unfolding layout_cells
  layout_cells-content b ws y height [] x j = refl
  layout_cells-content b ws y height (cell ∷ row) x j =
      ap (λ (l : List Cell). cell ∷ l) (layout_cells-content b ws y height row _ (suc j))

  layout_cells-IsLevel :
      (b : TableLayoutBuilder f Cell) (ws : List (f.F)) (y height : f.F) (row : List Cell) (x : f.F)
      (j : ℕ)
      → IsLevel ws y height j (layout_cells f Cell b ws x y height j row)
  unfolding layout_cells
  layout_cells-IsLevel b ws y height [] x j k c h = absurd cc
  layout_cells-IsLevel b ws y height (cell ∷ row) x j zero c h =
      let e = some-injective _ _ h in
      (
        sym (ap (λ (c : LayoutCell f Cell). c.y) e),
        (
          sym (ap (λ (c : LayoutCell f Cell). c.height) e),
          sym (ap (λ (c : LayoutCell f Cell). c.width) e)
              ∙ ap (at f ws) {x = j} {y = 0 + j} (omega arith),
        ),
      )
  layout_cells-IsLevel b ws y height (cell ∷ row) x j (suc k) c h =
      let ih = layout_cells-IsLevel b ws y height row _ (suc j) k c h in
      (ih.0, (ih.1.0, ih.1.1 ∙ ap (at f ws) {x = k + suc j} {y = suc k + j} (omega arith)))

  -- A row in front of rows that are levels.
  levels-cons :
      (ws : List (f.F)) (y height : f.F) (cells : List (LayoutCell f Cell))
      (rows : List (List (LayoutCell f Cell)))
      → IsLevel ws y height 0 cells
      → ((i : ℕ) (row : List (LayoutCell f Cell))
          → get_elem? rows i ≡ some row
          → (y : f.F) × ((height : f.F) × IsLevel ws y height 0 row))
      → (i : ℕ) (row : List (LayoutCell f Cell)) → get_elem? (cells ∷ rows) i ≡ some row
      → (y : f.F) × ((height : f.F) × IsLevel ws y height 0 row)
  levels-cons ws y height cells rows l h zero row e =
      (y, (height, subst (IsLevel ws y height 0) (some-injective _ _ e) l))
  levels-cons ws y height cells rows l h (suc i) row e = h i row e

  pub layout_rows-IsGrid :
      (b : TableLayoutBuilder f Cell) (ws : List (f.F)) (ast : List (List Cell)) (y : f.F)
      → IsGrid ast ws ((layout_rows f Cell b ws y ast).0)
  unfolding layout_rows
  layout_rows-IsGrid b ws [] y = record { contents = refl; levels = λ i row h. absurd cc }
  layout_rows-IsGrid b ws (row ∷ ast) y =
      let height = row_height f Cell b ws 0 row (b.measurer.line_height) in
      let ih = layout_rows-IsGrid b ws ast (f.add y (f.add height (b.row_spacing))) in
      let first = layout_cells-content b ws y height row (f.zero_float) 0 in
      record {
        contents = cons_eq first (ih.contents);
        levels =
            levels-cons ws y height _ _ (layout_cells-IsLevel b ws y height row (f.zero_float) 0)
              (ih.levels);
      }

  -- The vectors have an item for each column.
  pub record HasColumns (n : ℕ) (m : Measures f Cell) : Type 0 where
    pub of_max : length (m.max_w) ≡ n
    pub of_min : length (m.min_w) ≡ n
    pub of_tokens : length (m.cell_tokens) ≡ n

  length-raise :
      (widths : List (f.F)) (j : ℕ) (w : f.F) → length (raise f Cell widths j w) ≡ length widths
  length-raise widths j w = ground (arith, length-set widths j w)

  measure_one-HasColumns :
      (n : ℕ) (c : Measured f Cell) (j : ℕ) (m : Measures f Cell)
      → HasColumns n m
      → HasColumns n (measure_one f Cell c j m)
  unfolding measure_one
  measure_one-HasColumns n c j m h = record {
    of_max = length-raise (m.max_w) j (c.max_width) ∙ h.of_max;
    of_min = length-raise (m.min_w) j (c.min_width) ∙ h.of_min;
    of_tokens = length-set (m.cell_tokens) j _ ∙ h.of_tokens;
  }

  measure_row-HasColumns :
      (n : ℕ) (t : TextMeasurer f Cell) (row : List Cell) (j : ℕ) (m : Measures f Cell)
      → HasColumns n m
      → HasColumns n (measure_row f Cell t j row m)
  unfolding measure_row
  measure_row-HasColumns n t [] j m h = h
  measure_row-HasColumns n t (cell ∷ row) j m h =
      measure_row-HasColumns n t row (suc j) _
        (measure_one-HasColumns n (t.measure_cell cell) j m h)

  measure_all-HasColumns :
      (n : ℕ) (t : TextMeasurer f Cell) (ast : List (List Cell)) (m : Measures f Cell)
      → HasColumns n m
      → HasColumns n (measure_all f Cell t ast m)
  unfolding measure_all
  measure_all-HasColumns n t [] m h = h
  measure_all-HasColumns n t (row ∷ ast) m h =
      measure_all-HasColumns n t ast _ (measure_row-HasColumns n t row 0 m h)

  pub measures_of-HasColumns :
      (b : TableLayoutBuilder f Cell) (ast : List (List Cell))
      → HasColumns (columns_of f Cell ast) (measures_of f Cell b ast)
  unfolding measures_of padded
  measures_of-HasColumns b ast =
      let n = columns_of f Cell ast in
      let h = measure_all-HasColumns n (b.measurer) ast _ (record {
        of_max = length-replicate n (f.zero_float);
        of_min = length-replicate n (f.zero_float);
        of_tokens = length-replicate n [];
      }) in
      record {
        of_max = length-map _ _ ∙ h.of_max;
        of_min = length-map _ _ ∙ h.of_min;
        of_tokens = h.of_tokens;
      }
