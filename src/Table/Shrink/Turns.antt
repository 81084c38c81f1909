-- ===== src/Table/Shrink/Turns.antt =====
-- The loop of the water fill: its state, and the bound on its turns.
use personal_productivity_ai.Common.{
  ◌≡◌, refl, ap, ◌∙◌, ℕ, zero, suc, ◌+◌, ◌≤◌, ◌<◌, Bool, true, false, ◌||◌, Option, none, some,
  List, [], ◌∷◌, ◌++◌, length, length-append, length-map, set, length-set, All, ◌==◌, arith,
}
use personal_productivity_ai.Common.Int.{pos}
use personal_productivity_ai.Table.{F32, Breakpoint}
use personal_productivity_ai.Table.Columns.{get_or}
use personal_productivity_ai.Table.Shrink.{
  at, scan_below, next_breakpoint_below, ShrinkStep, Water, step_to, push_found, push_next, seed,
  pop_from, left, left_of, turns_left, first_water,
}

abbrev pub is_in : ℕ → List ℕ → Bool
is_in j [] = false
is_in j (i ∷ is) = (i == j) || is_in j is

pub is_in-get_or : (si : ℕ) (js : List ℕ) → si < length js → is_in (get_or 0 js si) js ≡ true
is_in-get_or si [] h = absurd (omega arith)
is_in-get_or zero (j ∷ js) h = ground arith
is_in-get_or (suc si) (j ∷ js) h = ground (arith, is_in-get_or si js)

module _ (f : F32) where
  abbrev size : Option (Breakpoint f) → ℕ
  size none = 0
  size (some bp) = 1

  left-scan_below :
      (bps : List (Breakpoint f)) (i : ℕ) (below : f.F)
      → left f bps ((scan_below f bps i below).1) + size ((scan_below f bps i below).0) ≤ suc i
  unfolding scan_below
  left-scan_below bps zero below = ground arith
  left-scan_below bps (suc i) below = ground (arith, left-scan_below bps i below)

  left-next_breakpoint_below :
      (bps : List (Breakpoint f)) (i : ℕ) (below : f.F)
      → left f bps ((next_breakpoint_below f bps i below).1)
          + size ((next_breakpoint_below f bps i below).0)
        ≤ left f bps i
  unfolding next_breakpoint_below
  left-next_breakpoint_below bps i below = ground (arith, left-scan_below bps i below)

  left_of-set :
      (breakpoints : List (List (Breakpoint f))) (js idxs : List ℕ) (si v : ℕ)
      → length idxs ≡ length js
      → si < length js
      → left_of f breakpoints js (set idxs si v)
          + left f (get_or [] breakpoints (get_or 0 js si)) (get_or 0 idxs si)
        ≡ left_of f breakpoints js idxs + left f (get_or [] breakpoints (get_or 0 js si)) v
  unfolding left_of
  left_of-set breakpoints [] idxs si v e h = absurd (omega arith)
  left_of-set breakpoints (j ∷ js) [] si v e h = absurd (omega arith)
  left_of-set breakpoints (j ∷ js) (i ∷ idxs) zero v e h = omega arith
  left_of-set breakpoints (j ∷ js) (i ∷ idxs) (suc si) v e h =
      omega (arith, left_of-set breakpoints js idxs si v (omega arith) (omega arith))

  length-step_to :
      (from : f.F) (extra : _) (si : ℕ) (bp : Breakpoint f)
      → length (step_to f from extra si bp) ≤ 1
  unfolding step_to
  length-step_to from extra si bp = ground arith

  -- The steps are of columns of the wrap set, and no other column has another width than at first.
  pub record IsWater (wrap_set : List ℕ) (first : List (f.F)) (w : Water f) : Type 0 where
    pub cols : All (λ (s : ShrinkStep f). s.col < length wrap_set) (w.heap)
    pub idxs : length (w.bp_idx) ≡ length wrap_set
    pub kept : (j : ℕ) → is_in j wrap_set ≡ false → at f (w.widths) j ≡ at f first j
    pub same_length : length (w.widths) ≡ length first

  length-push_found :
      (from : f.F) (si : ℕ) (found : Option (Breakpoint f)) (w : Water f)
      → (length ((push_found f from si found w).heap) ≤ size found + length (w.heap))
        × ((push_found f from si found w).bp_idx ≡ w.bp_idx)
  unfolding push_found
  length-push_found from si none w = (omega arith, refl)
  length-push_found from si (some bp) w = (
    omega (
      arith,
      length-append (step_to f from (get_or (pos 0) (w.extra) si) si bp) (w.heap),
      length-step_to from (get_or (pos 0) (w.extra) si) si bp,
    ),
    refl,
  )

  pub turns_left-push_next :
      (breakpoints : List (List (Breakpoint f))) (js : List ℕ) (si : ℕ) (from : f.F) (w : Water f)
      → length (w.bp_idx) ≡ length js
      → si < length js
      → turns_left f breakpoints js (push_next f breakpoints si (get_or 0 js si) from w)
        ≤ turns_left f breakpoints js w
  unfolding push_next
  turns_left-push_next breakpoints js si from w e h =
      let bps = get_or [] breakpoints (get_or 0 js si) in
      let next = next_breakpoint_below f bps (get_or 0 (w.bp_idx) si) from in
      let moved : Water f = record w { bp_idx = set (w.bp_idx) si (next.1) } in
      let found = length-push_found from si (next.0) moved in
      let same = ap (left_of f breakpoints js) (found.1) in
      omega (
        arith,
        found.0,
        same,
        left-next_breakpoint_below bps (get_or 0 (w.bp_idx) si) from,
        left_of-set breakpoints js (w.bp_idx) si (next.1) e h,
      )

  step_to-All :
      (n : ℕ) (from : f.F) (extra : _) (si : ℕ) (bp : Breakpoint f) (heap : List (ShrinkStep f))
      → si < n
      → All (λ (s : ShrinkStep f). s.col < n) heap
      → All (λ (s : ShrinkStep f). s.col < n) (step_to f from extra si bp ++ heap)
  unfolding step_to
  step_to-All n from extra si bp heap h a = ground arith

  push_found-IsWater :
      (js : List ℕ) (first : List (f.F)) (si : ℕ) (from : f.F) (found : Option (Breakpoint f))
      (w : Water f)
      → si < length js
      → IsWater js first w
      → IsWater js first (push_found f from si found w)
  unfolding push_found
  push_found-IsWater js first si from none w h i = i
  push_found-IsWater js first si from (some bp) w h i = record {
    cols = step_to-All (length js) from (get_or (pos 0) (w.extra) si) si bp (w.heap) h (i.cols);
    idxs = i.idxs;
    kept = i.kept;
    same_length = i.same_length;
  }

  pub push_next-IsWater :
      (breakpoints : List (List (Breakpoint f))) (js : List ℕ) (first : List (f.F)) (si j : ℕ)
      (from : f.F) (w : Water f)
      → si < length js
      → IsWater js first w
      → IsWater js first (push_next f breakpoints si j from w)
  unfolding push_next
  push_next-IsWater breakpoints js first si j from w h i =
      let next = next_breakpoint_below f (get_or [] breakpoints j) (get_or 0 (w.bp_idx) si) from in
      push_found-IsWater js first si from (next.0) _ h (record {
        cols = i.cols;
        idxs = length-set (w.bp_idx) si (next.1) ∙ i.idxs;
        kept = i.kept;
        same_length = i.same_length;
      })

  seed-IsWater :
      (breakpoints : List (List (Breakpoint f))) (max_c : List (f.F)) (wrap_set : List ℕ)
      (first : List (f.F)) (si : ℕ) (js : List ℕ) (w : Water f)
      → si + length js ≤ length wrap_set
      → IsWater wrap_set first w
      → IsWater wrap_set first (seed f breakpoints max_c si js w)
  unfolding seed
  seed-IsWater breakpoints max_c wrap_set first si [] w h i = i
  seed-IsWater breakpoints max_c wrap_set first si (j ∷ js) w h i =
      seed-IsWater breakpoints max_c wrap_set first (suc si) js _ (omega arith)
        (push_next-IsWater breakpoints wrap_set first si j (at f max_c j) w (omega arith) i)

  pub first_water-IsWater :
      (breakpoints : List (List (Breakpoint f))) (wrap_set : List ℕ) (widths max_c : List (f.F))
      (deficit : f.F)
      → IsWater wrap_set widths (first_water f breakpoints wrap_set widths max_c deficit)
  unfolding first_water
  first_water-IsWater breakpoints wrap_set widths max_c deficit =
      seed-IsWater breakpoints max_c wrap_set widths 0 wrap_set _ (omega arith)
        (record { cols = _; idxs = length-map _ wrap_set; kept = λ j h. refl; same_length = refl })

  pub pop_from-All :
      (n : ℕ) (best : ShrinkStep f) (steps : List (ShrinkStep f))
      → best.col < n
      → All (λ (s : ShrinkStep f). s.col < n) steps
      → ((pop_from f best steps).0.col < n)
        × (All (λ (s : ShrinkStep f). s.col < n) ((pop_from f best steps).1)
            × (length ((pop_from f best steps).1) ≡ length steps))
  unfolding pop_from
  pop_from-All n best [] h a = (h, (a, refl))
  pop_from-All n best (s ∷ steps) h a =
      ground (arith, pop_from-All n s steps, pop_from-All n best steps)
