-- ===== src/Table/Ftwa/Regimes.antt =====
-- The regimes of `ftwa` return, each with sound widths: src/app/markdown/table_width/mod.rs
use personal_productivity_ai.Common.{
  ◌≡◌, refl, subst, true, false, ◌&&◌, some, List, [], ◌∷◌, length, leb, ◌==◌, Bool-cases, inl, inr,
  arith,
}
use mathlib.Core.Option.{some-injective}
use personal_productivity_ai.Table.{F32, IsIeee, Breakpoint, ColumnWidths, sum, sum_from}
use personal_productivity_ai.Table.Strategy.{DeficitStrategy}
use personal_productivity_ai.Table.Shrink.Floor.{IsAtLeast, IsAtLeast-refl, IsAbove}
use personal_productivity_ai.Table.Solve.Floor.{scroll-Fits, within-Fits}
use personal_productivity_ai.Table.Ftwa.{all_of, snap, regimes, with_snapped, is_valid, ftwa}
use personal_productivity_ai.Table.Ftwa.Solved.{
  IsAbove-of_finite, IsSound, Returned, OfSnap, snap-OfSnap, solve-Returned,
}

module _ (f : F32) (laws : IsIeee f) where
  -- Widths that fit are sound without a scroll, and least ones with one.
  surplus-IsSound :
      (strategy : DeficitStrategy) (max_c min_c : List (f.F)) (available : f.F)
      → IsAbove f min_c max_c
      → IsAtLeast f min_c max_c
      → f.lt available (sum f max_c) ≡ false
      → IsSound f strategy min_c available
          (record { widths = max_c; needs_horizontal_scroll = false })
  surplus-IsSound strategy max_c min_c available x a h = record {
    outcome = within-Fits f laws min_c max_c available h;
    at_least = λ n. a;
    above = λ e. x;
  }

  scroll-IsSound :
      (strategy : DeficitStrategy) (min_c : List (f.F)) (available : f.F)
      → IsAbove f min_c min_c
      → IsSound f strategy min_c available
          (record { widths = min_c; needs_horizontal_scroll = true })
  scroll-IsSound strategy min_c available m = record {
    outcome = scroll-Fits f laws min_c available;
    at_least = λ n. IsAtLeast-refl f laws min_c;
    above = λ e. m;
  }

  regimes-Returned :
      (strategy : DeficitStrategy) (max_c min_c : List (f.F))
      (breakpoints : List (List (Breakpoint f))) (available : f.F)
      → OfSnap f laws max_c (some min_c)
      → IsAbove f min_c max_c
      → IsAbove f min_c min_c
      → length max_c ≡ length breakpoints
      → f.is_finite available ≡ true
      → f.le (f.zero_float) available ≡ true
      → leb (length max_c) 0 ≡ false
      → Returned f strategy min_c available (regimes f strategy max_c min_c breakpoints available)
  unfolding regimes
  regimes-Returned strategy max_c min_c breakpoints available (a, i, _) x m l b c d =
      elim (Bool-cases (f.lt available (sum f min_c))) [
        | inl e ↦ (
          record { widths = min_c; needs_horizontal_scroll = true },
          (rw e refl, scroll-IsSound strategy min_c available m),
        )
        | inr e ↦ elim (Bool-cases (f.le (sum f max_c) available)) [
          | inl g ↦ (
            record { widths = max_c; needs_horizontal_scroll = false },
            (
              rw (e, g) refl,
              surplus-IsSound strategy max_c min_c available x a (laws.lt_of_le _ _ g),
            ),
          )
          | inr g ↦
              rw (e, g)
                (solve-Returned f laws strategy max_c min_c breakpoints available (sum f max_c)
                  (sum f min_c) m x a i l b c d g e)
        ]
      ]

  -- What the assertions ask holds of the numbers.
  pub valid_parts :
      (max_c min_c : List (f.F)) (available : f.F)
      → is_valid f max_c min_c available ≡ true
      → (f.is_finite available ≡ true)
        × ((f.le (f.zero_float) available ≡ true)
            × ((all_of f (f.is_finite) max_c ≡ true) × (all_of f (f.is_finite) min_c ≡ true)))
  unfolding is_valid
  valid_parts max_c min_c available h = ground arith

  IsAbove-nil : IsAbove f [] []
  IsAbove-nil j =
      laws.le_of_finite _ _ (laws.is_finite_zero) (laws.is_finite_zero) (laws.lt_irrefl _)

  no_columns :
      (max_c min_c snapped : List (f.F)) (available : f.F) (strategy : DeficitStrategy)
      → length max_c ≡ length min_c
      → is_valid f max_c min_c available ≡ true
      → snap f max_c min_c ≡ some snapped
      → length max_c ≡ 0
      → Returned f strategy snapped available
          (some (record { widths = []; needs_horizontal_scroll = false }))
  unfolding snap sum_from
  no_columns [] min_c snapped available strategy l v s z =
      let nonneg = (valid_parts [] min_c available v).1.0 in
      (
        record { widths = []; needs_horizontal_scroll = false },
        (
          refl,
          subst
              (λ m.
                IsSound f strategy m available
                  (record { widths = []; needs_horizontal_scroll = false }))
              (some-injective _ _ s)
              (surplus-IsSound strategy [] [] available (IsAbove-nil) (IsAtLeast-refl f laws [])
                (laws.lt_of_le _ _ nonneg)),
        ),
      )
  no_columns (mx ∷ max_c) min_c snapped available strategy l v s z = absurd (omega arith)

  -- Beyond the asserts, a table that has columns comes to one of the regimes.
  with_snapped-Returned :
      (strategy : DeficitStrategy) (max_c min_c snapped : List (f.F))
      (breakpoints : List (List (Breakpoint f))) (available : f.F)
      → length max_c ≡ length min_c
      → length max_c ≡ length breakpoints
      → is_valid f max_c min_c available ≡ true
      → snap f max_c min_c ≡ some snapped
      → leb (length max_c) 0 ≡ false
      → Returned f strategy snapped available
          (with_snapped f strategy max_c breakpoints available (snap f max_c min_c))
  unfolding with_snapped
  with_snapped-Returned strategy max_c min_c snapped breakpoints available l k v s d =
      let (finite, (nonneg, (g, h))) = valid_parts max_c min_c available v in
      let of_snap = subst (OfSnap f laws max_c) s (snap-OfSnap f laws max_c min_c l g h) in
      rw s (
        regimes-Returned strategy max_c snapped breakpoints available of_snap
          (IsAbove-of_finite f laws snapped max_c (of_snap.2) g (of_snap.0))
          (IsAbove-of_finite f laws snapped snapped (of_snap.2) (of_snap.2)
            (IsAtLeast-refl f laws snapped))
          k finite nonneg d)

  pub ftwa-Returned :
      (max_c min_c snapped : List (f.F)) (breakpoints : List (List (Breakpoint f)))
      (available : f.F) (strategy : DeficitStrategy)
      → length max_c ≡ length min_c
      → length max_c ≡ length breakpoints
      → is_valid f max_c min_c available ≡ true
      → snap f max_c min_c ≡ some snapped
      → (r : ColumnWidths f) × ((ftwa f max_c min_c breakpoints available strategy ≡ some r)
          × IsSound f strategy snapped available r)
  unfolding ftwa
  ftwa-Returned max_c min_c snapped breakpoints available strategy l k v s =
      let agree : ((length max_c == length min_c) && (length max_c == length breakpoints)) ≡ true =
        ground arith in
      elim (Bool-cases (leb (length max_c) 0)) [
        | inl d ↦
            rw (agree, d) (no_columns max_c min_c snapped available strategy l v s (ground arith))
        | inr d ↦
            rw (agree, d, v)
              (with_snapped-Returned strategy max_c min_c snapped breakpoints available l k v s d)
      ]
