-- ===== src/Table/Ftwa/Solved.antt =====
-- The strategies return in the regime of a deficit, whose widths are sound: the loops of the solvers end.
use personal_productivity_ai.Common.{
  ◌≡◌, ◌≢◌, refl, ap, ◌∙◌, ℕ, zero, suc, Bool, true, false, Option, none, some, List, [], ◌∷◌,
  length, leb, ==_iff, Bool-cases, inl, inr, arith,
}
use personal_productivity_ai.Table.{F32, IsIeee, Breakpoint, ColumnWidths, sum}
use personal_productivity_ai.Table.Strategy.{
  DeficitStrategy, proportional_to_slack, breakpoint_water_fill, water_fill_ratio, lagrange_penalty,
  hybrid_min_penalty_water_fill,
}
use personal_productivity_ai.Table.Shrink.{at, b2_proportional_to_slack}
use personal_productivity_ai.Table.Shrink.Wrap.{positives_of, take_until, deepest}
use personal_productivity_ai.Table.Shrink.Floor.{
  IsAbove, b2_proportional_to_slack-IsAbove, IsAtLeast, IsAtLeast-refl,
  b2_proportional_to_slack-IsAtLeast, b2_breakpoint_water_fill-ends,
}
use personal_productivity_ai.Table.Solve.{guarded, solve_waterfill_ratio, fit_or_scroll}
use personal_productivity_ai.Table.Solve.Lagrange.{solve_lagrange_penalty, penalty_widths}
use personal_productivity_ai.Table.Solve.Hybrid.{in_order, solve_hybrid}
use personal_productivity_ai.Table.Solve.Floor.{
  drift_into-IsAbove, Fits, scroll-Fits, within-Fits, fit_or_scroll-Fits, drift_into-IsAtLeast,
  guarded-deficit,
}
use personal_productivity_ai.Table.Solve.RatioFloor.{ratio_widths-ends}
use personal_productivity_ai.Table.Solve.HybridFloor.{hybrid_widths-ends}
use personal_productivity_ai.Table.Ftwa.{
  all_of, snap_one, snap, guard_overflow, drift_to, shrunk_result, shrink_wrap_set, solve,
}

-- The result fits, or asks for a scroll, and but for the Lagrange solver no width compares less than its
-- least one; each is at least that where the deficit is shared in proportion.
pub record IsSound (f : F32) (strategy : DeficitStrategy) (min_c : List (f.F)) (available : f.F)
    (r : ColumnWidths f) : Type 0 where
  pub outcome : Fits f min_c available r
  pub at_least : strategy ≢ lagrange_penalty → IsAtLeast f min_c (r.widths)
  pub above : strategy ≡ proportional_to_slack → IsAbove f min_c (r.widths)

abbrev pub Returned :
    (f : F32) → DeficitStrategy → List (f.F) → f.F → Option (ColumnWidths f) → Type 0
Returned f strategy min_c available o =
    (r : ColumnWidths f) × ((o ≡ some r) × IsSound f strategy min_c available r)

module _ (f : F32) (laws : IsIeee f) where
  abbrev pub OfSnap : List (f.F) → Option (List (f.F)) → Type 0
  OfSnap max_c none = Unit
  OfSnap max_c (some snapped) =
      IsAtLeast f snapped max_c
      × (in_order f max_c snapped ≡ true)
      × (all_of f (f.is_finite) snapped ≡ true)

  at_cons-lt :
      (mx mn : f.F) (max_c rest : List (f.F))
      → f.lt mx mn ≡ false
      → ((j : ℕ) → f.lt (at f max_c j) (at f rest j) ≡ false)
      → (j : ℕ) → f.lt (at f (mx ∷ max_c) j) (at f (mn ∷ rest) j) ≡ false
  at_cons-lt mx mn max_c rest g a zero = g
  at_cons-lt mx mn max_c rest g a (suc j) = a j

  OfSnap-cons :
      (mx mn : f.F) (max_c rest : List (f.F))
      → f.lt mx mn ≡ false
      → f.le mn mx ≡ true
      → f.is_finite mn ≡ true
      → OfSnap max_c (some rest)
      → OfSnap (mx ∷ max_c) (some (mn ∷ rest))
  unfolding in_order
  OfSnap-cons mx mn max_c rest g h n (a, i, k) =
      ((ap suc (a.0), at_cons-lt mx mn max_c rest g (a.1)), rw h i, rw n k)

  snap_one-lem :
      (mx mn : f.F) (max_c : List (f.F)) (o : Option (List (f.F)))
      → f.is_finite mx ≡ true
      → f.is_finite mn ≡ true
      → OfSnap max_c o
      → OfSnap (mx ∷ max_c) (snap_one f mx mn o)
  unfolding snap_one
  snap_one-lem mx mn max_c none g h a = _
  snap_one-lem mx mn max_c (some rest) g h a = elim (Bool-cases (f.lt mx mn)) [
    | inr e ↦ rw e (OfSnap-cons mx mn max_c rest e (laws.le_of_finite mn mx h g e) h a)
    | inl e ↦ elim (Bool-cases (f.le (f.sub mn mx) (f.one_float))) [
      | inl k ↦
          let i = laws.lt_irrefl mx in
          rw (e, k) (OfSnap-cons mx mx max_c rest i (laws.le_of_finite mx mx g g i) g a)
      | inr k ↦ rw (e, k) _
    ]
  ]

  -- Least widths that are snapped are not above the greatest ones.
  pub snap-OfSnap :
      (max_c min_c : List (f.F))
      → length max_c ≡ length min_c
      → all_of f (f.is_finite) max_c ≡ true
      → all_of f (f.is_finite) min_c ≡ true
      → OfSnap max_c (snap f max_c min_c)
  unfolding snap in_order
  snap-OfSnap [] min_c l g h = ((refl, λ j. laws.lt_irrefl (f.zero_float)), refl, refl)
  snap-OfSnap (mx ∷ max_c) [] l g h = absurd (omega arith)
  snap-OfSnap (mx ∷ max_c) (mn ∷ min_c) l g h =
      snap_one-lem mx mn max_c (snap f max_c min_c) (ground arith) (ground arith)
        (snap-OfSnap max_c min_c (omega arith) (ground arith) (ground arith))

  pub at-is_finite :
      (xs : List (f.F)) (j : ℕ) → all_of f (f.is_finite) xs ≡ true → f.is_finite (at f xs j) ≡ true
  at-is_finite [] j h = laws.is_finite_zero
  at-is_finite (x ∷ xs) zero h = ground arith
  at-is_finite (x ∷ xs) (suc j) h = at-is_finite xs j (ground arith)

  -- Finite numbers that are not below are above.
  pub IsAbove-of_finite :
      (min_c xs : List (f.F))
      → all_of f (f.is_finite) min_c ≡ true
      → all_of f (f.is_finite) xs ≡ true
      → IsAtLeast f min_c xs
      → IsAbove f min_c xs
  IsAbove-of_finite min_c xs g h (l, a) j =
      laws.le_of_finite (at f min_c j) (at f xs j) (at-is_finite min_c j g) (at-is_finite xs j h)
        (a j)

  guard_overflow-IsSound :
      (strategy : DeficitStrategy) (min_c : List (f.F)) (available : f.F) (widths : List (f.F))
      → IsAbove f min_c min_c
      → IsAtLeast f min_c widths
      → (strategy ≡ proportional_to_slack → IsAbove f min_c widths)
      → IsSound f strategy min_c available (guard_overflow f min_c available widths)
  unfolding guard_overflow
  guard_overflow-IsSound strategy min_c available widths m a b =
      elim (Bool-cases (f.lt available (sum f widths))) [
        | inl e ↦ rw e (record {
          outcome = scroll-Fits f laws min_c available;
          at_least = λ h. IsAtLeast-refl f laws min_c;
          above = λ h. m;
        })
        | inr e ↦ rw e (record {
          outcome = within-Fits f laws min_c widths available e;
          at_least = λ h. a;
          above = b;
        })
      ]

  drift_to-IsAtLeast :
      (target : Option ℕ) (min_c : List (f.F)) (available : f.F) (widths : List (f.F))
      → IsAtLeast f min_c widths
      → IsAtLeast f min_c (drift_to f target min_c available widths)
  drift_to-IsAtLeast none min_c available widths a = a
  drift_to-IsAtLeast (some target) min_c available widths a =
      drift_into-IsAtLeast f laws target min_c available widths a

  drift_to-IsAbove :
      (target : Option ℕ) (min_c : List (f.F)) (available : f.F) (widths : List (f.F))
      → IsAbove f min_c min_c
      → IsAbove f min_c widths
      → IsAbove f min_c (drift_to f target min_c available widths)
  drift_to-IsAbove none min_c available widths m a = a
  drift_to-IsAbove (some target) min_c available widths m a =
      drift_into-IsAbove f laws target min_c available widths m a

  -- The widths of a strategy that shrinks the wrap set.
  abbrev Shrunk : DeficitStrategy → List (f.F) → Option (List (f.F)) → Type 0
  Shrunk strategy min_c o =
      (widths : List (f.F)) × (o ≡ some widths)
      × IsAtLeast f min_c widths
      × (strategy ≡ proportional_to_slack → IsAbove f min_c widths)

  shrunk_result-Returned :
      (strategy : DeficitStrategy) (target : Option ℕ) (min_c : List (f.F)) (available : f.F)
      (o : Option (List (f.F)))
      → IsAbove f min_c min_c
      → Shrunk strategy min_c o
      → Returned f strategy min_c available (shrunk_result f target min_c available o)
  unfolding shrunk_result
  shrunk_result-Returned strategy target min_c available o m (widths, e, a, b) =
      let last = drift_to f target min_c available widths in
      (
        guard_overflow f min_c available last,
        (
          ap (shrunk_result f target min_c available) e,
          guard_overflow-IsSound strategy min_c available last m
              (drift_to-IsAtLeast target min_c available widths a)
              (λ h. drift_to-IsAbove target min_c available widths m (b h)),
        ),
      )

  shrink_wrap_set-Returned :
      (strategy : DeficitStrategy) (shrink : List ℕ → f.F → f.F → Option (List (f.F)))
      (max_c min_c : List (f.F)) (available sum_max : f.F)
      → IsAbove f min_c min_c
      → ((wrap_set : List ℕ) (deficit acc : f.F)
          → Shrunk strategy min_c (shrink wrap_set deficit acc))
      → Returned f strategy min_c available (shrink_wrap_set f shrink max_c min_c available sum_max)
  unfolding shrink_wrap_set
  shrink_wrap_set-Returned strategy shrink max_c min_c available sum_max m h =
      let deficit = f.sub sum_max available in
      let taken = take_until f max_c min_c deficit (f.zero_float) (positives_of f max_c min_c) in
      shrunk_result-Returned strategy (deepest f max_c min_c (taken.0)) min_c available
        (shrink (taken.0) deficit (taken.1)) m (h (taken.0) deficit (taken.1))

  -- A solver of all columns, in the regime of a deficit.
  guarded-Returned :
      (strategy : DeficitStrategy) (agree : Bool) (max_c min_c : List (f.F))
      (available sum_max sum_min : f.F) (solved : Option (ColumnWidths f))
      → agree ≡ true
      → f.is_finite available ≡ true
      → f.le (f.zero_float) available ≡ true
      → leb (length max_c) 0 ≡ false
      → f.le sum_max available ≡ false
      → f.lt available sum_min ≡ false
      → Returned f strategy min_c available solved
      → Returned f strategy min_c available
          (guarded f agree max_c min_c available sum_max sum_min solved)
  guarded-Returned strategy agree max_c min_c available sum_max sum_min solved a b c d e g
        (r, (h, s)) =
      (r, (guarded-deficit f agree max_c min_c available sum_max sum_min solved a b c d e g ∙ h, s))

  of_ends :
      (strategy : DeficitStrategy) (min_c : List (f.F)) (available : f.F)
      (o : Option (ColumnWidths f))
      → strategy ≢ proportional_to_slack
      → ((r : ColumnWidths f) × ((o ≡ some r)
            × (Fits f min_c available r × IsAtLeast f min_c (r.widths))))
      → Returned f strategy min_c available o
  of_ends strategy min_c available o n (r, (h, (k, m))) =
      (r, (h, record { outcome = k; at_least = λ n. m; above = λ e. absurd (n e) }))

  pub solve-Returned :
      (strategy : DeficitStrategy) (max_c min_c : List (f.F))
      (breakpoints : List (List (Breakpoint f))) (available sum_max sum_min : f.F)
      → IsAbove f min_c min_c
      → IsAbove f min_c max_c
      → IsAtLeast f min_c max_c
      → in_order f max_c min_c ≡ true
      → length max_c ≡ length breakpoints
      → f.is_finite available ≡ true
      → f.le (f.zero_float) available ≡ true
      → leb (length max_c) 0 ≡ false
      → f.le sum_max available ≡ false
      → f.lt available sum_min ≡ false
      → Returned f strategy min_c available
          (solve f strategy max_c min_c breakpoints available sum_max sum_min)
  unfolding solve solve_waterfill_ratio solve_lagrange_penalty solve_hybrid
  solve-Returned proportional_to_slack max_c min_c breakpoints available sum_max sum_min m x a i l b
        c d e g =
      shrink_wrap_set-Returned proportional_to_slack _ max_c min_c available sum_max m
        (λ wrap_set deficit acc. (
          b2_proportional_to_slack f wrap_set max_c max_c min_c deficit acc,
          refl,
          b2_proportional_to_slack-IsAtLeast f laws wrap_set max_c max_c min_c deficit acc a,
          λ h. b2_proportional_to_slack-IsAbove f laws wrap_set max_c max_c min_c deficit acc m x,
        ))
  solve-Returned breakpoint_water_fill max_c min_c breakpoints available sum_max sum_min m x a i l b
        c d e g =
      shrink_wrap_set-Returned breakpoint_water_fill _ max_c min_c available sum_max m
        (λ wrap_set deficit acc.
          let (widths, (e, b)) =
            b2_breakpoint_water_fill-ends f laws wrap_set max_c min_c breakpoints deficit a in
          (widths, e, b, λ h. absurd cc))
  solve-Returned water_fill_ratio max_c min_c breakpoints available sum_max sum_min m x a i l b c d
        e g =
      guarded-Returned water_fill_ratio _ max_c min_c available sum_max sum_min _
        ((==_iff _ _).1 (a.0)) b c d e g
        (of_ends water_fill_ratio min_c available _ (λ h. absurd cc)
          (ratio_widths-ends f laws max_c min_c (a.0) available sum_max))
  solve-Returned lagrange_penalty max_c min_c breakpoints available sum_max sum_min m x a i l b c d
        e g =
      let widths = penalty_widths f 100 max_c min_c breakpoints available in
      guarded-Returned lagrange_penalty _ max_c min_c available sum_max sum_min _
        (ground (arith, a.0)) b c d e g
        (
          fit_or_scroll f min_c available widths,
          (
            refl,
            record {
              outcome = fit_or_scroll-Fits f laws min_c available widths;
              at_least = λ n. absurd (n refl);
              above = λ h. absurd cc;
            },
          ),
        )
  solve-Returned hybrid_min_penalty_water_fill max_c min_c breakpoints available sum_max sum_min m x
        a i l b c d e g =
      guarded-Returned hybrid_min_penalty_water_fill _ max_c min_c available sum_max sum_min _
        (ground (arith, a.0)) b c d e g
        (of_ends hybrid_min_penalty_water_fill min_c available _ (λ h. absurd cc)
          (hybrid_widths-ends f laws max_c min_c breakpoints available a i))
