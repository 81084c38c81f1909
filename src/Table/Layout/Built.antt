-- ===== src/Table/Layout/Built.antt =====
-- What a layout that is built promises, from the measurements to the cells.
use personal_productivity_ai.Common.{
  ◌≡◌, refl, sym, ap, ◌∙◌, true, false, some, List, length-map, leb, if◌then◌else◌,
}
use personal_productivity_ai.Table.{F32, IsIeee, ColumnWidths}
use personal_productivity_ai.Table.Strategy.{DeficitStrategy}
use personal_productivity_ai.Table.Ftwa.{snap, is_valid}
use personal_productivity_ai.Table.Ftwa.Sound.{HasWidths, ftwa-returns}
use personal_productivity_ai.Table.Layout.{
  TableLayoutBuilder, TableLayout, columns_of, measures_of, content_avail, layout_of, map_option,
  breakpoints_of, build,
}
use personal_productivity_ai.Table.Layout.Kept.{IsGrid, layout_rows-IsGrid, measures_of-HasColumns}

module _ (f : F32) (Cell : Type 0) where
  -- A grid of widths `ws`: the greatest ones where the table scrolls. Else their sum is at most what is
  -- available and 0.001, or NaN; and but for the Lagrange solver each of them is at least the least one of
  -- its column, or NaN. Where the deficit is shared in proportion none of these is NaN.
  pub record IsLaidOut (b : TableLayoutBuilder f Cell) (ast : List (List Cell)) (min_c : List (f.F))
      (layout : TableLayout f Cell) : Type 0 where
    pub ws : List (f.F)
    pub grid : IsGrid f Cell ast ws (layout.rows)
    pub scrolled : layout.needs_horizontal_scroll ≡ true → ws ≡ (measures_of f Cell b ast).max_w
    pub fitted :
        layout.needs_horizontal_scroll ≡ false
        → HasWidths f
            (b.strategy)
            min_c
            (content_avail f Cell b (columns_of f Cell ast))
            (record { widths = ws; needs_horizontal_scroll = false })

  HasWidths-eq :
      (strategy : DeficitStrategy) (min_c : List (f.F)) (available : f.F) (r : ColumnWidths f)
      → r.needs_horizontal_scroll ≡ false
      → HasWidths f strategy min_c available r
      → HasWidths f strategy min_c available
          (record { widths = r.widths; needs_horizontal_scroll = false })
  HasWidths-eq strategy min_c available r e h = record {
    scrolled = λ g. absurd cc;
    same_length = h.same_length;
    within = λ g. h.within e;
    at_least = h.at_least;
    exact = λ p. ((h.exact p).0, λ g. (h.exact p).1 e);
  }

  layout_of-IsLaidOut :
      (b : TableLayoutBuilder f Cell) (ast : List (List Cell)) (min_c : List (f.F))
      (r : ColumnWidths f)
      → HasWidths f (b.strategy) min_c (content_avail f Cell b (columns_of f Cell ast)) r
      → IsLaidOut b ast min_c (layout_of f Cell b ast r)
  unfolding layout_of
  layout_of-IsLaidOut b ast min_c r s =
      let max_w = (measures_of f Cell b ast).max_w in
      let ws = if r.needs_horizontal_scroll then max_w else r.widths in
      record {
        ws = ws;
        grid = layout_rows-IsGrid f Cell b ws ast (f.zero_float);
        scrolled = λ e. rw e refl;
        fitted = λ e. rw e (
            HasWidths-eq (b.strategy) min_c (content_avail f Cell b (columns_of f Cell ast)) r e s);
      }

  module _ (laws : IsIeee f) where
    -- Where the measurements are finite and not negative, and no least width of a column exceeds
    -- its greatest by more than 1, a table that has a column is laid out: each cell once, in its
    -- row and its place, with one height in a row and the width of its column. If the table scrolls
    -- these are the greatest widths. Else their sum is at most what is available and 0.001, or is NaN, and
    -- but for the Lagrange solver each is at least the least one of its column, lowered to the greatest
    -- where it is above, or is NaN; where the deficit is shared in proportion to the slack, none of these
    -- is NaN.
    pub build-IsLaidOut :
        (b : TableLayoutBuilder f Cell) (ast : List (List Cell)) (snapped : List (f.F))
        → leb (columns_of f Cell ast) 0 ≡ false
        → is_valid f
            ((measures_of f Cell b ast).max_w)
            ((measures_of f Cell b ast).min_w)
            (content_avail f Cell b (columns_of f Cell ast))
          ≡ true
        → snap f ((measures_of f Cell b ast).max_w) ((measures_of f Cell b ast).min_w)
          ≡ some snapped
        → (layout : TableLayout f Cell) × ((build f Cell b ast ≡ some layout)
            × IsLaidOut b ast snapped layout)
    unfolding build breakpoints_of
    build-IsLaidOut b ast snapped n v s =
        let m = measures_of f Cell b ast in
        let h = measures_of-HasColumns f Cell b ast in
        let bps = breakpoints_of f Cell b m in
        let r =
          ftwa-returns f laws (m.max_w) (m.min_w) snapped bps
            (content_avail f Cell b (columns_of f Cell ast)) (b.strategy)
            (h.of_max ∙ sym (h.of_min))
            (h.of_max ∙ sym (length-map _ (m.cell_tokens) ∙ h.of_tokens)) v s in
        (
          layout_of f Cell b ast (r.0),
          (
            rw n (ap (map_option f Cell (layout_of f Cell b ast)) (r.1.0)),
            layout_of-IsLaidOut b ast snapped (r.0) (r.1.1),
          ),
        )
