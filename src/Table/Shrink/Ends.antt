-- ===== src/Table/Shrink/Ends.antt =====
-- The loop of the water fill ends.
use personal_productivity_ai.Common.{
  ◌≡◌, refl, ◌∙◌, ℕ, zero, suc, ◌≤◌, ◌<◌, none, some, List, [], ◌∷◌, length, set, length-set, All,
  Bool-cases, ◌⊎◌, inl, inr, arith,
}
use personal_productivity_ai.Common.Int.{pos, ◌+ℤ◌}
use personal_productivity_ai.Table.{F32, Breakpoint}
use personal_productivity_ai.Table.Columns.{get_or, get_or-set}
use personal_productivity_ai.Table.Shrink.{
  at, ShrinkStep, Water, pop_from, pop, take_step, water, turns_left,
}
use personal_productivity_ai.Table.Shrink.Turns.{
  is_in-get_or, IsWater, turns_left-push_next, push_next-IsWater, pop_from-All,
}

module _ (f : F32) where
  -- A column of the wrap set that is made narrower, with other lines.
  shrunk-IsWater :
      (js : List ℕ) (first : List (f.F)) (si : ℕ) (v : f.F) (w : Water f) (extra : _) (rest : f.F)
      → si < length js
      → IsWater f js first w
      → IsWater f js first
          (record w { extra = extra; widths = set (w.widths) (get_or 0 js si) v; remaining = rest })
  shrunk-IsWater js first si v w extra rest h i = record {
    cols = i.cols;
    idxs = i.idxs;
    kept = λ j out. elim (get_or-set (f.zero_float) (w.widths) (get_or 0 js si) v j) [
      | inl e ↦ e ∙ i.kept j out
      | inr (e, same) ↦ absurd (let a = is_in-get_or si js h in cc)
    ];
    same_length = length-set (w.widths) (get_or 0 js si) v ∙ i.same_length;
  }

  take_step_lem :
      (breakpoints : List (List (Breakpoint f))) (js : List ℕ) (first : List (f.F))
      (step : ShrinkStep f) (w : Water f)
      → step.col < length js
      → IsWater f js first w
      → IsWater f js first (take_step f breakpoints js step w)
        × (turns_left f breakpoints js (take_step f breakpoints js step w)
            ≤ turns_left f breakpoints js w)
  unfolding take_step
  take_step_lem breakpoints js first step w h i =
      let current = at f (w.widths) (get_or 0 js (step.col)) in
      let delta_w = f.sub current (step.target_width) in
      let can = f.fmin delta_w (w.remaining) in
      let extra' =
        set (w.extra) (step.col) (get_or (pos 0) (w.extra) (step.col) +ℤ step.delta_lines) in
      let shrunk =
        shrunk-IsWater js first (step.col) (f.sub current can) w (w.extra) (f.sub (w.remaining) can)
          h i in
      let crossed =
        shrunk-IsWater js first (step.col) (f.sub current can) w extra' (f.sub (w.remaining) can) h
          i in
      elim (Bool-cases (f.le current (f.add (step.target_width) (f.micro)))) [
        | inl e ↦ rw e (i, omega arith)
        | inr e ↦ elim (Bool-cases (f.le (f.sub delta_w (f.micro)) can)) [
          | inl g ↦
              rw (e, g)
                (
                  push_next-IsWater f breakpoints js first (step.col) _ (step.target_width) _ h
                      crossed,
                  turns_left-push_next f breakpoints js (step.col) (step.target_width) _
                      (crossed.idxs) h,
                )
          | inr g ↦ rw (e, g) (shrunk, omega arith)
        ]
      ]

  pop_lem :
      (n : ℕ) (heap : List (ShrinkStep f))
      → All (λ (s : ShrinkStep f). s.col < n) heap
      → (pop f heap ≡ none)
        ⊎ ((step : ShrinkStep f) × ((rest : List (ShrinkStep f)) × ((pop f heap ≡ some (step, rest))
                × ((step.col < n)
                    × (All (λ (s : ShrinkStep f). s.col < n) rest
                        × (suc (length rest) ≡ length heap))))))
  unfolding pop
  pop_lem n [] a = inl refl
  pop_lem n (s ∷ heap) a =
      let p = pop_from-All f n s heap (a.0) (a.1) in
      inr (
        (pop_from f s heap).0,
        ((pop_from f s heap).1, (refl, (p.0, (p.1.0, omega (arith, p.1.1))))),
      )

  -- More fuel than there are turns left is enough, and the state at the end is one of the loop.
  pub water-ends :
      (breakpoints : List (List (Breakpoint f))) (js : List ℕ) (first : List (f.F)) (fuel : ℕ)
      (w : Water f)
      → turns_left f breakpoints js w < fuel
      → IsWater f js first w
      → (end : Water f) × ((water f breakpoints js fuel w ≡ some end) × IsWater f js first end)
  unfolding water
  water-ends breakpoints js first zero w h i = absurd (omega arith)
  water-ends breakpoints js first (suc fuel) w h i =
      elim (Bool-cases (f.lt (f.zero_float) (w.remaining))) [
        | inr e ↦ (w, rw e (refl, i))
        | inl e ↦ elim (pop_lem (length js) (w.heap) (i.cols)) [
          | inl none_left ↦ (w, rw (e, none_left) (refl, i))
          | inr (step, (rest, (popped, (c, (a, l))))) ↦
              let popped_w : Water f = record w { heap = rest } in
              let j : IsWater f js first popped_w = record {
                cols = a;
                idxs = i.idxs;
                kept = i.kept;
                same_length = i.same_length;
              } in
              let t = take_step_lem breakpoints js first step popped_w c j in
              rw (e, popped) (water-ends breakpoints js first fuel _ (omega (arith, t.1, l)) (t.0))
        ]
      ]
