-- ===== src/Table/Lines.antt =====
-- Lines and breakpoints of a cell and of a column: lines 680 to 825 of
-- src/app/markdown/table_width/mod.rs, and the line count of src/app/markdown/table_layout.rs
pub mod Monotone
use personal_productivity_ai.Common.{
  ℕ, zero, suc, Bool, true, false, List, [], ◌∷◌, ◌++◌, map, if◌then◌else◌, length,
}
use personal_productivity_ai.Common.Int.{ℤ, pos, ◌+ℤ◌, ◌-ℤ◌, ltb_ℤ}
use personal_productivity_ai.Table.{F32, Breakpoint, cmp}
use personal_productivity_ai.Table.Columns.{sort_by}

module _ (f : F32) where
  -- The lines so far and the width of the last one. A token behind the first of a cell has a space
  -- before it, which is dropped where a line begins.
  unfoldable pub pack : f.F → f.F → ℤ → f.F → List (f.F) → ℤ
  unfolding ◌+ℤ◌
  pack space col lines line_w [] = lines
  pack space col lines line_w (tw ∷ tws) =
      let token_w = f.add space tw in
      let wraps = f.lt (f.add col (f.micro)) (f.add line_w token_w) in
      pack space col (if wraps then lines +ℤ pos 1 else lines)
        (if wraps then tw else f.add line_w token_w) tws

  unfoldable pub greedy_line_count : List (f.F) → f.F → f.F → ℤ
  unfolding pack ◌+ℤ◌
  greedy_line_count [] space col = pos 1
  greedy_line_count (tw ∷ tws) space col =
      let line_w = f.add (f.zero_float) tw in
      let wraps = f.lt (f.add col (f.micro)) line_w in
      pack space col (if wraps then pos 1 +ℤ pos 1 else pos 1) (if wraps then tw else line_w) tws

  -- The widths of the runs of tokens that begin with the one of width `line_w`.
  unfoldable pub runs_from : f.F → f.F → List (f.F) → List (f.F)
  runs_from space line_w [] = line_w ∷ []
  runs_from space line_w (tw ∷ tws) = line_w ∷ runs_from space (f.add line_w (f.add space tw)) tws

  unfoldable pub candidates_of : f.F → List (f.F) → List (f.F)
  unfolding runs_from
  candidates_of space [] = []
  candidates_of space (tw ∷ tws) = runs_from space tw tws ++ candidates_of space tws

  -- `dedup_by`, which compares an item with the last one kept, here `last`.
  unfoldable pub dedup_from : f.F → List (f.F) → List (f.F)
  dedup_from last [] = last ∷ []
  dedup_from last (w ∷ ws) = elim (f.lt (f.abs (f.sub w last)) (f.micro)) [
    | true ↦ dedup_from last ws
    | false ↦ last ∷ dedup_from w ws
  ]

  unfoldable pub dedup : List (f.F) → List (f.F)
  unfolding dedup_from
  dedup [] = []
  dedup (w ∷ ws) = dedup_from w ws

  -- The loop over the candidates, the widest first: `prev_w` is the candidate before, and of the
  -- first one the candidate itself.
  unfoldable pub transitions : List (f.F) → f.F → f.F → ℤ → List (f.F) → List (Breakpoint f)
  unfolding greedy_line_count ◌-ℤ◌
  transitions tokens space prev_w prev_extra [] = []
  transitions tokens space prev_w prev_extra (w ∷ ws) =
      let extra = greedy_line_count tokens space w -ℤ pos 1 in
      elim (ltb_ℤ prev_extra extra) [
        | true ↦
            record { width = prev_w; extra_lines = extra } ∷ transitions tokens space w extra ws
        | false ↦ transitions tokens space w prev_extra ws
      ]

  unfoldable pub transitions_of : List (f.F) → f.F → List (f.F) → List (Breakpoint f)
  unfolding transitions
  transitions_of tokens space [] = []
  transitions_of tokens space (w ∷ ws) = transitions tokens space w (pos 0) (w ∷ ws)

  unfoldable pub cell_breakpoints : List (f.F) → f.F → List (Breakpoint f)
  unfolding candidates_of dedup transitions_of sort_by
  cell_breakpoints [] space = []
  cell_breakpoints (tw ∷ tws) space =
      let tokens = tw ∷ tws in
      let candidates = dedup (sort_by (λ a b. cmp f b a) (candidates_of space tokens)) in
      sort_by (λ a b. cmp f (a.width) (b.width)) (transitions_of tokens space candidates)

  -- The last breakpoint of the leading ones that are not above `w`; `extra` is of the one before.
  unfoldable pub extra_from : ℤ → List (Breakpoint f) → f.F → ℤ
  extra_from extra [] w = extra
  extra_from extra (bp ∷ bps) w =
      let rest = extra_from (bp.extra_lines) bps w in
      if f.le (bp.width) (f.add w (f.micro)) then rest else extra

  unfoldable pub extra_lines_at_width : List (Breakpoint f) → f.F → ℤ
  unfolding extra_from
  extra_lines_at_width bps w = extra_from (pos 0) bps w

  unfoldable pub total_lines : List (List (Breakpoint f)) → f.F → ℤ
  unfolding extra_lines_at_width ◌+ℤ◌
  total_lines [] w = pos 0
  total_lines (bps ∷ cells) w = extra_lines_at_width bps w +ℤ total_lines cells w

  unfoldable pub merge_widths : List (List (Breakpoint f)) → List (f.F) → List (Breakpoint f)
  unfolding total_lines
  merge_widths cells [] = []
  merge_widths cells (w ∷ ws) =
      let rest = merge_widths cells ws in
      let total = total_lines cells w in
      if ltb_ℤ (pos 0) total then record { width = w; extra_lines = total } ∷ rest else rest

  unfoldable pub all_widths : List (List (Breakpoint f)) → List (f.F)
  all_widths [] = []
  all_widths (bps ∷ cells) = map (λ (bp : Breakpoint f). bp.width) bps ++ all_widths cells

  -- The tokens of each cell of the column are given by their widths (`CellTokens`).
  unfoldable pub compute_column_breakpoints : List (List (f.F)) → f.F → List (Breakpoint f)
  unfolding cell_breakpoints merge_widths all_widths sort_by dedup
  compute_column_breakpoints cell_tokens space =
      let cells = map (λ tokens. cell_breakpoints tokens space) cell_tokens in
      merge_widths cells (dedup (sort_by (λ a b. cmp f a b) (all_widths cells)))
