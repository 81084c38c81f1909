-- ===== src/Table/Shrink/Floor.antt =====
-- Widths that are not below the least ones, through the strategies of the wrap set:
-- src/app/markdown/table_width/mod.rs. Not below is a comparison that fails, as it does of NaN.
use personal_productivity_ai.Common.{
  ◌≡◌, refl, ◌∙◌, subst, ℕ, suc, true, false, ◌||◌, some, List, [], ◌∷◌, length, set, length-set,
  leb, ◌==◌, if◌then◌else◌, Bool-cases, inl, inr, arith, ==_iff, ltb, ltb→lt, ◌≤◌,
}
use personal_productivity_ai.Table.{F32, IsIeee, Breakpoint}
use personal_productivity_ai.Table.Columns.{get_or-set, get_or-set_self, get_or_beyond}
use personal_productivity_ai.Table.Shrink.{
  at, b2_proportional_to_slack, b2_breakpoint_water_fill, clamp_to_min, first_water, turns_left,
}
use personal_productivity_ai.Table.Shrink.Turns.{is_in, first_water-IsWater}
use personal_productivity_ai.Table.Shrink.Ends.{water-ends}

-- There are as many widths as least ones, and none of them compares less than its least one.
abbrev pub IsAtLeast : (f : F32) → List (f.F) → List (f.F) → Type 0
IsAtLeast f min_c widths =
    (length widths ≡ length min_c) × ((j : ℕ) → f.lt (at f widths j) (at f min_c j) ≡ false)

-- Each width is at least the least one of its column, so that neither of them is NaN.
abbrev pub IsAbove : (f : F32) → List (f.F) → List (f.F) → Type 0
IsAbove f min_c widths = (j : ℕ) → f.le (at f min_c j) (at f widths j) ≡ true

-- The first of these of the widths that are outside a set of columns.
abbrev IsAtLeastOutside : (f : F32) → List ℕ → List (f.F) → List (f.F) → Type 0
IsAtLeastOutside f js min_c widths =
    (length widths ≡ length min_c)
    × ((j : ℕ) → is_in j js ≡ false → f.lt (at f widths j) (at f min_c j) ≡ false)

module _ (f : F32) (laws : IsIeee f) where
  pub IsAtLeast-refl : (min_c : List (f.F)) → IsAtLeast f min_c min_c
  IsAtLeast-refl min_c = (refl, λ j. laws.lt_irrefl (at f min_c j))

  pub set-IsAtLeast :
      (min_c widths : List (f.F)) (i : ℕ) (v : f.F)
      → f.lt v (at f min_c i) ≡ false
      → IsAtLeast f min_c widths
      → IsAtLeast f min_c (set widths i v)
  set-IsAtLeast min_c widths i v h (l, a) = (
    length-set widths i v ∙ l,
    λ j. elim (get_or-set (f.zero_float) widths i v j) [
      | inl e ↦ rw e (a j)
      | inr (e, same) ↦ rw e (subst (λ k. f.lt v (at f min_c k) ≡ false) same h)
    ],
  )

  pub set-IsAbove :
      (min_c widths : List (f.F)) (i : ℕ) (v : f.F)
      → f.le (at f min_c i) v ≡ true
      → IsAbove f min_c widths
      → IsAbove f min_c (set widths i v)
  set-IsAbove min_c widths i v h a j = elim (get_or-set (f.zero_float) widths i v j) [
    | inl e ↦ rw e (a j)
    | inr (e, same) ↦ rw e (subst (λ k. f.le (at f min_c k) v ≡ true) same h)
  ]

  pub b2_proportional_to_slack-IsAbove :
      (wrap_set : List ℕ) (widths max_c min_c : List (f.F)) (deficit acc : f.F)
      → IsAbove f min_c min_c
      → IsAbove f min_c widths
      → IsAbove f min_c (b2_proportional_to_slack f wrap_set widths max_c min_c deficit acc)
  unfolding b2_proportional_to_slack
  b2_proportional_to_slack-IsAbove [] widths max_c min_c deficit acc m a = a
  b2_proportional_to_slack-IsAbove (j ∷ wrap_set) widths max_c min_c deficit acc m a =
      b2_proportional_to_slack-IsAbove wrap_set _ max_c min_c deficit acc m
        (set-IsAbove min_c widths j _ (laws.le-fmax _ (at f min_c j) (m j)) a)

  pub b2_proportional_to_slack-IsAtLeast :
      (wrap_set : List ℕ) (widths max_c min_c : List (f.F)) (deficit acc : f.F)
      → IsAtLeast f min_c widths
      → IsAtLeast f min_c (b2_proportional_to_slack f wrap_set widths max_c min_c deficit acc)
  unfolding b2_proportional_to_slack
  b2_proportional_to_slack-IsAtLeast [] widths max_c min_c deficit acc a = a
  b2_proportional_to_slack-IsAtLeast (j ∷ wrap_set) widths max_c min_c deficit acc a =
      b2_proportional_to_slack-IsAtLeast wrap_set _ max_c min_c deficit acc
        (set-IsAtLeast min_c widths j _ (laws.lt-fmax _ (at f min_c j)) a)

  -- A column that is given its least width is not below it, be it there or not.
  at-set_min :
      (min_c widths : List (f.F)) (j : ℕ)
      → length widths ≡ length min_c
      → f.lt (at f (set widths j (at f min_c j)) j) (at f min_c j) ≡ false
  at-set_min min_c widths j l = elim (Bool-cases (ltb j (length widths))) [
    | inl e ↦
        rw (get_or-set_self (f.zero_float) widths j (at f min_c j) (omega (arith, ltb→lt _ _ e)))
          (laws.lt_irrefl _)
    | inr e ↦
        let out : length widths ≤ j = ground arith in
        rw
          (
            get_or_beyond (f.zero_float) (set widths j (at f min_c j)) j
                (omega (arith, length-set widths j (at f min_c j))),
            get_or_beyond (f.zero_float) min_c j (omega arith),
          )
          (laws.lt_irrefl _)
  ]

  -- The clamp of one column takes it out of those that may be too narrow.
  clamp_one-IsAtLeast :
      (j : ℕ) (js : List ℕ) (min_c widths : List (f.F))
      → IsAtLeastOutside f (j ∷ js) min_c widths
      → IsAtLeastOutside f js min_c
          (if f.lt (at f widths j) (at f min_c j) then set widths j (at f min_c j) else widths)
  clamp_one-IsAtLeast j js min_c widths (l, a) =
      elim (Bool-cases (f.lt (at f widths j) (at f min_c j))) [
        | inl e ↦ rw e (
          length-set widths j (at f min_c j) ∙ l,
          λ i out. elim (Bool-cases (j == i)) [
            | inl same ↦
                subst (λ k. f.lt (at f (set widths j (at f min_c j)) k) (at f min_c k) ≡ false)
                  ((==_iff j i).0 same) (at-set_min min_c widths j l)
            | inr other ↦ elim (get_or-set (f.zero_float) widths j (at f min_c j) i) [
              | inr (g, same) ↦ absurd (ground arith)
              | inl g ↦ rw g (a i (rw other out))
            ]
          ],
        )
        | inr e ↦ rw e (
          l,
          λ i out. elim (Bool-cases (j == i)) [
            | inr other ↦ a i (rw other out)
            | inl same ↦
                subst (λ k. f.lt (at f widths k) (at f min_c k) ≡ false) ((==_iff j i).0 same) e
          ],
        )
      ]

  clamp_to_min-IsAtLeast :
      (js : List ℕ) (min_c widths : List (f.F))
      → IsAtLeastOutside f js min_c widths
      → IsAtLeast f min_c (clamp_to_min f js min_c widths)
  unfolding clamp_to_min
  clamp_to_min-IsAtLeast [] min_c widths (l, a) = (l, λ j. a j refl)
  clamp_to_min-IsAtLeast (j ∷ js) min_c widths a =
      clamp_to_min-IsAtLeast js min_c _ (clamp_one-IsAtLeast j js min_c widths a)

  -- The water fill ends, with widths that are not below the least ones.
  pub b2_breakpoint_water_fill-ends :
      (wrap_set : List ℕ) (max_c min_c : List (f.F)) (breakpoints : List (List (Breakpoint f)))
      (deficit : f.F)
      → IsAtLeast f min_c max_c
      → (widths : List (f.F)) × ((b2_breakpoint_water_fill f wrap_set max_c max_c min_c breakpoints
              deficit
            ≡ some widths)
          × IsAtLeast f min_c widths)
  unfolding b2_breakpoint_water_fill
  b2_breakpoint_water_fill-ends wrap_set max_c min_c breakpoints deficit a =
      elim (Bool-cases (leb (length wrap_set) 0 || f.le deficit (f.zero_float))) [
        | inl e ↦ (max_c, rw e (refl, a))
        | inr e ↦
            let w = first_water f breakpoints wrap_set max_c max_c deficit in
            let (end, (ended, i)) =
              water-ends f breakpoints wrap_set max_c (suc (turns_left f breakpoints wrap_set w)) w
                (omega arith) (first_water-IsWater f breakpoints wrap_set max_c max_c deficit) in
            (
              clamp_to_min f wrap_set min_c (end.widths),
              rw (e, ended)
                  (
                    refl,
                    clamp_to_min-IsAtLeast wrap_set min_c (end.widths)
                        (i.same_length ∙ a.0, λ j out. rw (i.kept j out) (a.1 j)),
                  ),
            )
      ]
