-- ===== src/Table/Ftwa/Narrowed.antt =====
-- Which columns the strategies of the wrap set make narrower.
use personal_productivity_ai.Common.{
  ◌≡◌, refl, ◌∙◌, subst, ℕ, suc, Bool, true, false, ◌&&◌, ◌||◌, Option, none, some, List, [], ◌∷◌,
  length, set, leb, ◌==◌, Bool-cases, inl, inr, arith,
}
use personal_productivity_ai.Table.{F32, Breakpoint, ColumnWidths, sum, Order}
use personal_productivity_ai.Table.Columns.{get_or-set, max_from, max_by}
use personal_productivity_ai.Table.Strategy.{
  DeficitStrategy, proportional_to_slack, breakpoint_water_fill, water_fill_ratio, lagrange_penalty,
  hybrid_min_penalty_water_fill,
}
use personal_productivity_ai.Table.Shrink.{
  at, b2_proportional_to_slack, b2_breakpoint_water_fill, clamp_to_min, first_water, turns_left,
}
use personal_productivity_ai.Table.Shrink.Turns.{is_in, first_water-IsWater}
use personal_productivity_ai.Table.Shrink.Ends.{water-ends}
use personal_productivity_ai.Table.Shrink.Wrap.{positives_of, take_until, deepest, wrap_set_of}
use personal_productivity_ai.Table.Solve.{drift_into}
use personal_productivity_ai.Table.Ftwa.{
  snap, guard_overflow, drift_to, shrunk_result, shrink_wrap_set, solve, regimes, with_snapped,
  is_valid, ftwa,
}

-- `max_by` gives an item of the list.
max_from-is_in :
    (cmp : ℕ → ℕ → Order) (best : ℕ) (js : List ℕ) → is_in (max_from cmp best js) (best ∷ js) ≡ true
unfolding max_from
max_from-is_in cmp best [] = ground arith
max_from-is_in cmp best (j ∷ js) =
    ground (arith, max_from-is_in cmp best js, max_from-is_in cmp j js)

max_by-is_in :
    (cmp : ℕ → ℕ → Order) (js : List ℕ) (j : ℕ) → max_by cmp js ≡ some j → is_in j js ≡ true
unfolding max_by
max_by-is_in cmp [] j h = cc
max_by-is_in cmp (i ∷ js) j h =
    let e : max_from cmp i js ≡ j = cc in
    subst (λ k. is_in k (i ∷ js) ≡ true) e (max_from-is_in cmp i js)

module _ (f : F32) where
  -- The columns outside a set have the widths they had.
  abbrev pub IsKept : List ℕ → List (f.F) → List (f.F) → Type 0
  IsKept js before after = (j : ℕ) → is_in j js ≡ false → at f after j ≡ at f before j

  set-IsKept :
      (js : List ℕ) (before after : List (f.F)) (i : ℕ) (v : f.F)
      → is_in i js ≡ true
      → IsKept js before after
      → IsKept js before (set after i v)
  set-IsKept js before after i v h k j out = elim (get_or-set (f.zero_float) after i v j) [
    | inl e ↦ e ∙ k j out
    | inr (e, same) ↦ absurd (cc)
  ]

  b2_proportional_to_slack-IsKept :
      (all js : List ℕ) (widths max_c min_c before : List (f.F)) (deficit acc : f.F)
      → ((i : ℕ) → is_in i js ≡ true → is_in i all ≡ true)
      → IsKept all before widths
      → IsKept all before (b2_proportional_to_slack f js widths max_c min_c deficit acc)
  unfolding b2_proportional_to_slack
  b2_proportional_to_slack-IsKept all [] widths max_c min_c before deficit acc h k = k
  b2_proportional_to_slack-IsKept all (j ∷ js) widths max_c min_c before deficit acc h k =
      b2_proportional_to_slack-IsKept all js _ max_c min_c before deficit acc
        (λ i e. h i (ground (arith, e))) (set-IsKept all before widths j _ (h j (ground arith)) k)

  clamp_to_min-IsKept :
      (all js : List ℕ) (min_c widths before : List (f.F))
      → ((i : ℕ) → is_in i js ≡ true → is_in i all ≡ true)
      → IsKept all before widths
      → IsKept all before (clamp_to_min f js min_c widths)
  unfolding clamp_to_min
  clamp_to_min-IsKept all [] min_c widths before h k = k
  clamp_to_min-IsKept all (j ∷ js) min_c widths before h k =
      clamp_to_min-IsKept all js min_c _ before (λ i e. h i (ground (arith, e)))
        (elim (Bool-cases (f.lt (at f widths j) (at f min_c j))) [
          | inl e ↦ rw e (set-IsKept all before widths j _ (h j (ground arith)) k)
          | inr e ↦ rw e k
        ])

  b2_breakpoint_water_fill-IsKept :
      (js : List ℕ) (max_c min_c widths : List (f.F)) (breakpoints : List (List (Breakpoint f)))
      (deficit : f.F)
      → b2_breakpoint_water_fill f js max_c max_c min_c breakpoints deficit ≡ some widths
      → IsKept js max_c widths
  unfolding b2_breakpoint_water_fill
  b2_breakpoint_water_fill-IsKept js max_c min_c widths breakpoints deficit h =
      elim (Bool-cases (leb (length js) 0 || f.le deficit (f.zero_float))) [
        | inl e ↦
            let g = rw e at h in
            let same : max_c ≡ widths = cc in subst (IsKept js max_c) same (λ j out. refl)
        | inr e ↦
            let w = first_water f breakpoints js max_c max_c deficit in
            let (end, (ended, i)) =
              water-ends f breakpoints js max_c (suc (turns_left f breakpoints js w)) w
                (omega arith) (first_water-IsWater f breakpoints js max_c max_c deficit) in
            let g = rw (e, ended) at h in
            let same : clamp_to_min f js min_c (end.widths) ≡ widths = cc in
            subst (IsKept js max_c) same
              (clamp_to_min-IsKept js js min_c (end.widths) max_c (λ i e. e) (i.kept))
      ]

  drift_to-IsKept :
      (max_c min_c widths before : List (f.F)) (available : f.F) (js : List ℕ) (target : Option ℕ)
      → deepest f max_c min_c js ≡ target
      → IsKept js before widths
      → IsKept js before (drift_to f target min_c available widths)
  unfolding deepest drift_into
  drift_to-IsKept max_c min_c widths before available js none e k = k
  drift_to-IsKept max_c min_c widths before available js (some target) e k =
      elim (Bool-cases (f.lt (f.zero_float) (f.abs (f.sub available (sum f widths))))) [
        | inl g ↦ rw g (set-IsKept js before widths target _ (max_by-is_in _ js target e) k)
        | inr g ↦ rw g k
      ]

  -- Of a result without a scroll the columns outside a set have the greatest widths.
  abbrev Keeps : List ℕ → List (f.F) → Option (ColumnWidths f) → Type 0
  Keeps js max_c o =
      (r : ColumnWidths f)
      → o ≡ some r
      → r.needs_horizontal_scroll ≡ false
      → IsKept js max_c (r.widths)

  shrunk_result-Keeps :
      (max_c min_c : List (f.F)) (available : f.F) (js : List ℕ) (o : Option (List (f.F)))
      → ((widths : List (f.F)) → o ≡ some widths → IsKept js max_c widths)
      → Keeps js max_c (shrunk_result f (deepest f max_c min_c js) min_c available o)
  unfolding shrunk_result guard_overflow
  shrunk_result-Keeps max_c min_c available js none h r e n = absurd cc
  shrunk_result-Keeps max_c min_c available js (some widths) h r e n =
      let last = drift_to f (deepest f max_c min_c js) min_c available widths in
      elim (Bool-cases (f.lt available (sum f last))) [
        | inl g ↦ absurd (let k = rw g at e in cc)
        | inr g ↦
            let k = rw g at e in
            let same : last ≡ r.widths = cc in
            subst (IsKept js max_c) same (
              drift_to-IsKept max_c min_c widths max_c available js (deepest f max_c min_c js) refl
                (h widths refl))
      ]

  abbrev pub builds_wrap_set : DeficitStrategy → Bool
  builds_wrap_set proportional_to_slack = true
  builds_wrap_set breakpoint_water_fill = true
  builds_wrap_set water_fill_ratio = false
  builds_wrap_set lagrange_penalty = false
  builds_wrap_set hybrid_min_penalty_water_fill = false

  solve-Keeps :
      (strategy : DeficitStrategy) (max_c min_c : List (f.F))
      (breakpoints : List (List (Breakpoint f))) (available sum_min : f.F)
      → builds_wrap_set strategy ≡ true
      → Keeps
          (wrap_set_of f max_c min_c available)
          max_c
          (solve f strategy max_c min_c breakpoints available (sum f max_c) sum_min)
  unfolding solve shrink_wrap_set wrap_set_of
  solve-Keeps proportional_to_slack max_c min_c breakpoints available sum_min b =
      let js = wrap_set_of f max_c min_c available in
      let deficit = f.sub (sum f max_c) available in
      let acc = (take_until f max_c min_c deficit (f.zero_float) (positives_of f max_c min_c)).1 in
      let shrunk = b2_proportional_to_slack f js max_c max_c min_c deficit acc in
      shrunk_result-Keeps max_c min_c available js (some shrunk) (λ widths e.
        let same : b2_proportional_to_slack f js max_c max_c min_c deficit acc ≡ widths = cc in
        subst (IsKept js max_c) same (
          b2_proportional_to_slack-IsKept js js max_c max_c min_c max_c deficit acc (λ i g. g)
            (λ j out. refl)))
  solve-Keeps breakpoint_water_fill max_c min_c breakpoints available sum_min b =
      shrunk_result-Keeps max_c min_c available (wrap_set_of f max_c min_c available) _ (λ widths e.
        b2_breakpoint_water_fill-IsKept (wrap_set_of f max_c min_c available) max_c min_c widths
          breakpoints _ e)
  solve-Keeps water_fill_ratio max_c min_c breakpoints available sum_min b = absurd cc
  solve-Keeps lagrange_penalty max_c min_c breakpoints available sum_min b = absurd cc
  solve-Keeps hybrid_min_penalty_water_fill max_c min_c breakpoints available sum_min b = absurd cc

  regimes-Keeps :
      (strategy : DeficitStrategy) (max_c min_c : List (f.F))
      (breakpoints : List (List (Breakpoint f))) (available : f.F)
      → builds_wrap_set strategy ≡ true
      → Keeps
          (wrap_set_of f max_c min_c available)
          max_c
          (regimes f strategy max_c min_c breakpoints available)
  unfolding regimes
  regimes-Keeps strategy max_c min_c breakpoints available b r h n =
      elim (Bool-cases (f.lt available (sum f min_c))) [
        | inl e ↦ absurd (let g = rw e at h in cc)
        | inr e ↦ elim (Bool-cases (f.le (sum f max_c) available)) [
          | inl d ↦
              let g = rw (e, d) at h in
              let same : max_c ≡ r.widths = cc in
              subst (IsKept (wrap_set_of f max_c min_c available) max_c) same (λ j out. refl)
          | inr d ↦
              solve-Keeps strategy max_c min_c breakpoints available (sum f min_c) b r
                (rw (e, d) at h) n
        ]
      ]

  none-IsKept :
      (max_c : List (f.F)) (js : List ℕ) → leb (length max_c) 0 ≡ true → IsKept js max_c []
  none-IsKept [] js h = λ j out. refl
  none-IsKept (mx ∷ max_c) js h = absurd (ground arith)

  -- A strategy that builds a wrap set leaves the columns outside it at their greatest widths, unless a
  -- scroll is asked for.
  pub ftwa-Keeps :
      (max_c min_c snapped : List (f.F)) (breakpoints : List (List (Breakpoint f)))
      (available : f.F) (strategy : DeficitStrategy) (r : ColumnWidths f)
      → builds_wrap_set strategy ≡ true
      → snap f max_c min_c ≡ some snapped
      → ftwa f max_c min_c breakpoints available strategy ≡ some r
      → r.needs_horizontal_scroll ≡ false
      → IsKept (wrap_set_of f max_c snapped available) max_c (r.widths)
  unfolding ftwa with_snapped
  ftwa-Keeps max_c min_c snapped breakpoints available strategy r b s h n =
      elim (Bool-cases ((length max_c == length min_c) && (length max_c == length breakpoints))) [
        | inr e ↦ absurd (let g = rw e at h in cc)
        | inl e ↦ elim (Bool-cases (leb (length max_c) 0)) [
          | inl d ↦
              let g = rw (e, d) at h in
              let same : [] ≡ r.widths = cc in
              subst (IsKept (wrap_set_of f max_c snapped available) max_c) same
                (none-IsKept max_c _ d)
          | inr d ↦ elim (Bool-cases (is_valid f max_c min_c available)) [
            | inr v ↦ absurd (let g = rw (e, d, v) at h in cc)
            | inl v ↦
                regimes-Keeps strategy max_c snapped breakpoints available b r
                  (rw (e, d, v, s) at h) n
          ]
        ]
      ]
