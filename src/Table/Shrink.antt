-- ===== src/Table/Shrink.antt =====
-- The deficit taken from the columns of the wrap set: `b2_proportional_to_slack`,
-- `b2_breakpoint_water_fill` and `next_breakpoint_below` of src/app/markdown/table_width/mod.rs
-- The heap is a list of which the least step is taken. Each turn of the loop takes a step from it and
-- puts one back only for a breakpoint that is used up, so that the steps and the breakpoints left bound
-- the turns.
pub mod Wrap
pub mod Turns
pub mod Ends
pub mod Floor
pub mod Ranked
pub mod Minimal
use personal_productivity_ai.Common.{
  ℕ, zero, suc, ◌+◌, Bool, true, false, ◌||◌, Option, none, some, List, [], ◌∷◌, ◌++◌, map, ◌-◌,
  length, set, get_elem?, leb, if◌then◌else◌,
}
use personal_productivity_ai.Common.Int.{ℤ, pos, ◌+ℤ◌, ◌-ℤ◌, ltb_ℤ}
use personal_productivity_ai.Table.{F32, Breakpoint, cmp, Order, less, equal, greater}
use personal_productivity_ai.Table.Columns.{get_or, and_then, cmp_ℕ}

module _ (f : F32) where
  abbrev pub at : List (f.F) → ℕ → f.F
  at xs j = get_or (f.zero_float) xs j

  abbrev pub slack : List (f.F) → List (f.F) → ℕ → f.F
  slack max_c min_c j = f.sub (at max_c j) (at min_c j)

  -- The share of the deficit that a column gives.
  unfoldable pub share_of : f.F → f.F → f.F → f.F
  share_of deficit acc slack_j =
      if f.lt (f.zero_float) acc then f.mul deficit (f.div slack_j acc) else f.zero_float

  unfoldable pub b2_proportional_to_slack :
      List ℕ → List (f.F) → List (f.F) → List (f.F) → f.F → f.F → List (f.F)
  unfolding share_of
  b2_proportional_to_slack [] widths max_c min_c deficit acc = widths
  b2_proportional_to_slack (j ∷ wrap_set) widths max_c min_c deficit acc =
      let share = share_of deficit acc (slack max_c min_c j) in
      let widths = set widths j (f.fmax (f.sub (at max_c j) share) (at min_c j)) in
      b2_proportional_to_slack wrap_set widths max_c min_c deficit acc

  -- The scan downward from an index that is in the list; the length of the list says it is used up.
  unfoldable pub scan_below : List (Breakpoint f) → ℕ → f.F → Option (Breakpoint f) × ℕ
  scan_below bps zero below = elim (get_elem? bps zero) [
    | none ↦ (none, zero)
    | some bp ↦
        if f.lt (bp.width) (f.sub below (f.micro))
        then (some bp, length bps)
        else (none, length bps)
  ]
  scan_below bps (suc i) below =
      let rest = scan_below bps i below in
      elim (get_elem? bps (suc i)) [
        | none ↦ (none, suc i)
        | some bp ↦ if f.lt (bp.width) (f.sub below (f.micro)) then (some bp, i) else rest
      ]

  unfoldable pub next_breakpoint_below : List (Breakpoint f) → ℕ → f.F → Option (Breakpoint f) × ℕ
  unfolding scan_below
  next_breakpoint_below bps bp_idx below =
      if leb (length bps) bp_idx then (none, bp_idx) else scan_below bps bp_idx below

  pub record ShrinkStep : Type 0 where
    pub cost : f.F
    pub col : ℕ
    pub target_width : f.F
    pub delta_lines : ℤ

  -- The step to a breakpoint, where it makes the column narrower.
  unfoldable pub step_to : f.F → ℤ → ℕ → Breakpoint f → List ShrinkStep
  unfolding ◌-ℤ◌
  step_to from_width extra si bp =
      let delta_w = f.sub from_width (bp.width) in
      let delta_l = bp.extra_lines -ℤ extra in
      let cost = if ltb_ℤ (pos 0) delta_l then f.div (f.of_int delta_l) delta_w else f.zero_float in
      if f.lt (f.zero_float) delta_w
      then record { cost = cost; col = si; target_width = bp.width; delta_lines = delta_l } ∷ []
      else []

  -- The state of the loop; `extra` and `bp_idx` have an item for each column of the wrap set.
  pub record Water : Type 0 where
    pub heap : List ShrinkStep
    pub extra : List ℤ
    pub bp_idx : List ℕ
    pub widths : List (f.F)
    pub remaining : f.F

  -- The step to a breakpoint that is found is put on the heap.
  unfoldable pub push_found : f.F → ℕ → Option (Breakpoint f) → Water → Water
  unfolding step_to
  push_found from_width si none w = w
  push_found from_width si (some bp) w = record w {
    heap = step_to from_width (get_or (pos 0) (w.extra) si) si bp ++ w.heap;
  }

  -- The next breakpoint of a column is looked up, and where the scan stopped is kept.
  unfoldable pub push_next : List (List (Breakpoint f)) → ℕ → ℕ → f.F → Water → Water
  unfolding next_breakpoint_below push_found
  push_next breakpoints si j from_width w =
      let (found, idx) =
        next_breakpoint_below (get_or [] breakpoints j) (get_or 0 (w.bp_idx) si) from_width in
      push_found from_width si found (record w { bp_idx = set (w.bp_idx) si idx })

  -- The heap is seeded with a step for each column, from `si` on.
  unfoldable pub seed : List (List (Breakpoint f)) → List (f.F) → ℕ → List ℕ → Water → Water
  unfolding push_next
  seed breakpoints max_c si [] w = w
  seed breakpoints max_c si (j ∷ js) w =
      seed breakpoints max_c (suc si) js (push_next breakpoints si j (at max_c j) w)

  -- The order of the steps: by cost, then by column.
  abbrev pub cmp_step : ShrinkStep → ShrinkStep → Order
  cmp_step a b = and_then (cmp f (a.cost) (b.cost)) (cmp_ℕ (a.col) (b.col))

  unfoldable pub pop_from : ShrinkStep → List ShrinkStep → ShrinkStep × List ShrinkStep
  pop_from best [] = (best, [])
  pop_from best (s ∷ steps) = elim (cmp_step s best) [
    | less ↦ let (least, rest) = pop_from s steps in (least, best ∷ rest)
    | _ ↦ let (least, rest) = pop_from best steps in (least, s ∷ rest)
  ]

  -- `heap.pop()`, of `Reverse` steps.
  unfoldable pub pop : List ShrinkStep → Option (ShrinkStep × List ShrinkStep)
  unfolding pop_from
  pop [] = none
  pop (s ∷ steps) = some (pop_from s steps)

  -- A turn of the loop, with the step that it took from the heap.
  unfoldable pub take_step : List (List (Breakpoint f)) → List ℕ → ShrinkStep → Water → Water
  unfolding push_next ◌+ℤ◌
  take_step breakpoints wrap_set step w =
      let si = step.col in
      let j = get_or 0 wrap_set si in
      let current = at (w.widths) j in
      let delta_w = f.sub current (step.target_width) in
      let can_shrink = f.fmin delta_w (w.remaining) in
      let shrunk = record w {
        widths = set (w.widths) j (f.sub current can_shrink);
        remaining = f.sub (w.remaining) can_shrink;
      } in
      let crossed = record shrunk {
        extra = set (w.extra) si (get_or (pos 0) (w.extra) si +ℤ step.delta_lines);
      } in
      if f.le current (f.add (step.target_width) (f.micro))
      then w
      else if f.le (f.sub delta_w (f.micro)) can_shrink
      then push_next breakpoints si j (step.target_width) crossed
      else shrunk

  unfoldable pub water : List (List (Breakpoint f)) → List ℕ → ℕ → Water → Option Water
  unfolding pop take_step
  water breakpoints wrap_set zero w = none
  water breakpoints wrap_set (suc fuel) w =
      if f.lt (f.zero_float) (w.remaining)
      then elim (pop (w.heap)) [
        | none ↦ some w
        | some (step, heap) ↦
            water breakpoints wrap_set fuel
              (take_step breakpoints wrap_set step (record w { heap = heap }))
      ]
      else some w

  -- The breakpoints of a column that are not used up.
  abbrev pub left : List (Breakpoint f) → ℕ → ℕ
  left bps bp_idx = if leb (length bps) bp_idx then 0 else suc bp_idx

  unfoldable pub left_of : List (List (Breakpoint f)) → List ℕ → List ℕ → ℕ
  left_of breakpoints [] idxs = 0
  left_of breakpoints (j ∷ js) [] = 0
  left_of breakpoints (j ∷ js) (idx ∷ idxs) =
      left (get_or [] breakpoints j) idx + left_of breakpoints js idxs

  abbrev pub turns_left : List (List (Breakpoint f)) → List ℕ → Water → ℕ
  turns_left breakpoints wrap_set w = length (w.heap) + left_of breakpoints wrap_set (w.bp_idx)

  -- The columns of the wrap set are given their least width where they are below it.
  unfoldable pub clamp_to_min : List ℕ → List (f.F) → List (f.F) → List (f.F)
  clamp_to_min [] min_c widths = widths
  clamp_to_min (j ∷ wrap_set) min_c widths =
      clamp_to_min wrap_set min_c
        (if f.lt (at widths j) (at min_c j) then set widths j (at min_c j) else widths)

  unfoldable pub first_water :
      List (List (Breakpoint f)) → List ℕ → List (f.F) → List (f.F) → f.F → Water
  unfolding seed
  first_water breakpoints wrap_set widths max_c deficit =
      seed breakpoints max_c 0 wrap_set (record {
        heap = [];
        extra = map (λ j. pos 0) wrap_set;
        bp_idx = map (λ j. length (get_or [] breakpoints j) - 1) wrap_set;
        widths = widths;
        remaining = deficit;
      })

  unfoldable pub b2_breakpoint_water_fill :
      List ℕ
      → List (f.F)
      → List (f.F)
      → List (f.F)
      → List (List (Breakpoint f))
      → f.F
      → Option (List (f.F))
  unfolding first_water left_of water clamp_to_min
  b2_breakpoint_water_fill wrap_set widths max_c min_c breakpoints deficit =
      let w = first_water breakpoints wrap_set widths max_c deficit in
      let fuel = suc (turns_left breakpoints wrap_set w) in
      if leb (length wrap_set) 0 || f.le deficit (f.zero_float)
      then some widths
      else elim (water breakpoints wrap_set fuel w) [
        | none ↦ none
        | some end ↦ some (clamp_to_min wrap_set min_c (end.widths))
      ]
