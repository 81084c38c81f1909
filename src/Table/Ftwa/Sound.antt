-- ===== src/Table/Ftwa/Sound.antt =====
-- What `ftwa` promises of the widths it returns, and that it returns: src/app/markdown/table_width/mod.rs
-- Its comparisons are those of floats, which a NaN fails. The promises name it where it can come up.
use personal_productivity_ai.Common.{
  ◌≡◌, ◌≢◌, refl, subst, Option, none, ℕ, zero, suc, true, false, some, List, [], ◌∷◌, length, ◌⊎◌,
  Bool-cases, inl, inr, arith,
}
use personal_productivity_ai.Table.{F32, IsIeee, Breakpoint, ColumnWidths, sum, sum_from}
use personal_productivity_ai.Table.Strategy.{
  DeficitStrategy, lagrange_penalty, proportional_to_slack,
}
use personal_productivity_ai.Table.Shrink.{at}
use personal_productivity_ai.Table.Shrink.Floor.{IsAbove}
use personal_productivity_ai.Table.Ftwa.{all_of, snap_one, snap, is_valid, ftwa}
use personal_productivity_ai.Table.Ftwa.Solved.{IsSound, at-is_finite, snap-OfSnap, OfSnap}
use personal_productivity_ai.Table.Ftwa.Regimes.{ftwa-Returned, valid_parts}

-- The float is NaN: no comparison of it holds, not even with itself.
abbrev pub IsNan : (f : F32) → f.F → Type 0
IsNan f x = f.le x x ≡ false

-- The widths of a result, by what is available and the least widths. A scroll comes with the least widths.
-- Without one the sum of the widths is at most what is available and 0.001, or it is NaN. But for the
-- Lagrange solver each width is at least the least one of its column, or it is NaN. Where the deficit is
-- shared in proportion none of them is NaN.
pub record HasWidths (f : F32) (strategy : DeficitStrategy) (min_c : List (f.F)) (available : f.F)
    (r : ColumnWidths f) : Type 0 where
  pub scrolled : r.needs_horizontal_scroll ≡ true → r.widths ≡ min_c
  pub same_length : strategy ≢ lagrange_penalty → length (r.widths) ≡ length min_c
  pub within :
      r.needs_horizontal_scroll ≡ false
      → (f.le (sum f (r.widths)) (f.add available (f.milli)) ≡ true) ⊎ IsNan f (sum f (r.widths))
  pub at_least :
      strategy ≢ lagrange_penalty
      → (j : ℕ) → (f.le (at f min_c j) (at f (r.widths) j) ≡ true) ⊎ IsNan f (at f (r.widths) j)
  pub exact :
      strategy ≡ proportional_to_slack
      → IsAbove f min_c (r.widths)
        × (r.needs_horizontal_scroll ≡ false
            → f.le (sum f (r.widths)) (f.add available (f.milli)) ≡ true)

module _ (f : F32) (laws : IsIeee f) where
  le_of_finite_self : (a : f.F) → f.is_finite a ≡ true → f.le a a ≡ true
  le_of_finite_self a h = laws.le_of_finite a a h h (laws.lt_irrefl a)

  -- A number that does not compare less than another is at least that, or NaN.
  le-IsNan : (a b : f.F) → f.le a a ≡ true → f.lt b a ≡ false → (f.le a b ≡ true) ⊎ IsNan f b
  le-IsNan a b h k = elim (Bool-cases (f.le b b)) [
    | inl e ↦ inl (laws.le_of_not_lt a b h e k)
    | inr e ↦ inr e
  ]

  ge-IsNan : (a b : f.F) → f.le b b ≡ true → f.lt b a ≡ false → (f.le a b ≡ true) ⊎ IsNan f a
  ge-IsNan a b h k = elim (Bool-cases (f.le a a)) [
    | inl e ↦ inl (laws.le_of_not_lt a b e h k)
    | inr e ↦ inr e
  ]

  -- Sums of numbers that are not negative are not NaN.
  sum_from-nonneg :
      (s : f.F) (xs : List (f.F))
      → f.le (f.zero_float) s ≡ true
      → ((j : ℕ) → f.le (f.zero_float) (at f xs j) ≡ true)
      → f.le (f.zero_float) (sum_from f s xs) ≡ true
  unfolding sum_from
  sum_from-nonneg s [] h k = h
  sum_from-nonneg s (x ∷ xs) h k =
      sum_from-nonneg (f.add s x) xs (laws.le-add s x h (k zero)) (λ j. k (suc j))

  at-nonneg :
      (xs : List (f.F)) (j : ℕ)
      → all_of f (f.le (f.zero_float)) xs ≡ true
      → f.le (f.zero_float) (at f xs j) ≡ true
  at-nonneg [] j h = le_of_finite_self _ (laws.is_finite_zero)
  at-nonneg (x ∷ xs) zero h = ground arith
  at-nonneg (x ∷ xs) (suc j) h = at-nonneg xs j (ground arith)

  abbrev IsNonneg : Option (List (f.F)) → Type 0
  IsNonneg none = Unit
  IsNonneg (some xs) = all_of f (f.le (f.zero_float)) xs ≡ true

  snap_one-IsNonneg :
      (mx mn : f.F) (o : Option (List (f.F)))
      → f.le (f.zero_float) mx ≡ true
      → f.le (f.zero_float) mn ≡ true
      → IsNonneg o
      → IsNonneg (snap_one f mx mn o)
  unfolding snap_one
  snap_one-IsNonneg mx mn none g h k = _
  snap_one-IsNonneg mx mn (some rest) g h k = elim (Bool-cases (f.lt mx mn)) [
    | inr e ↦ rw e (rw (h, k) refl)
    | inl e ↦ elim (Bool-cases (f.le (f.sub mn mx) (f.one_float))) [
      | inl i ↦ rw (e, i) (rw (g, k) refl)
      | inr i ↦ rw (e, i) _
    ]
  ]

  -- Least widths that are snapped are not negative.
  snap-IsNonneg :
      (max_c min_c : List (f.F))
      → all_of f (f.le (f.zero_float)) max_c ≡ true
      → all_of f (f.le (f.zero_float)) min_c ≡ true
      → IsNonneg (snap f max_c min_c)
  unfolding snap
  snap-IsNonneg [] min_c g h = refl
  snap-IsNonneg (mx ∷ max_c) [] g h = refl
  snap-IsNonneg (mx ∷ max_c) (mn ∷ min_c) g h =
      snap_one-IsNonneg mx mn (snap f max_c min_c) (ground arith) (ground arith)
        (snap-IsNonneg max_c min_c (ground arith) (ground arith))

  nonneg_parts :
      (max_c min_c : List (f.F)) (available : f.F)
      → is_valid f max_c min_c available ≡ true
      → (all_of f (f.le (f.zero_float)) max_c ≡ true)
        × (all_of f (f.le (f.zero_float)) min_c ≡ true)
  unfolding is_valid
  nonneg_parts max_c min_c available h = ground arith

  -- The sum of widths that do not go below least ones is not NaN.
  sum-IsAbove :
      (min_c widths : List (f.F))
      → all_of f (f.le (f.zero_float)) min_c ≡ true
      → IsAbove f min_c widths
      → f.le (sum f widths) (sum f widths) ≡ true
  sum-IsAbove min_c widths h a = laws.le_self (f.zero_float) _ (
      sum_from-nonneg (f.zero_float) widths (le_of_finite_self _ (laws.is_finite_zero))
        (λ j. laws.le_trans _ _ _ (at-nonneg min_c j h) (a j)))

  IsSound-HasWidths :
      (strategy : DeficitStrategy) (min_c : List (f.F)) (available : f.F) (r : ColumnWidths f)
      → f.is_finite available ≡ true
      → all_of f (f.is_finite) min_c ≡ true
      → all_of f (f.le (f.zero_float)) min_c ≡ true
      → IsSound f strategy min_c available r
      → HasWidths f strategy min_c available r
  IsSound-HasWidths strategy min_c available r g h k s = record {
    scrolled = s.outcome.scrolls;
    same_length = λ n. (s.at_least n).0;
    within = λ e.
        ge-IsNan (sum f (r.widths)) (f.add available (f.milli))
          (laws.is_finite-add_milli available g) (s.outcome.fits e);
    at_least = λ n j.
        le-IsNan (at f min_c j) (at f (r.widths) j)
          (le_of_finite_self _ (at-is_finite f laws min_c j h)) ((s.at_least n).1 j);
    exact = λ e. (
      s.above e,
      λ w.
          laws.le_of_not_lt (sum f (r.widths)) (f.add available (f.milli))
            (sum-IsAbove min_c (r.widths) k (s.above e)) (laws.is_finite-add_milli available g)
            (s.outcome.fits w),
    );
  }

  -- Where the numbers of columns agree, the measurements are finite and not negative, and no least
  -- width exceeds the greatest by more than 1, `ftwa` returns: no loop runs on and no assertion
  -- fails. A scroll is asked for, with the least widths, or else the sum of the widths is at most what is
  -- available and 0.001, or is NaN. But for the Lagrange solver each width is at least the least one of its
  -- column, lowered to the greatest where it is above, or is NaN. Where the deficit is shared in proportion
  -- to the slack, no width and no such sum is NaN.
  pub ftwa-returns :
      (max_c min_c snapped : List (f.F)) (breakpoints : List (List (Breakpoint f)))
      (available : f.F) (strategy : DeficitStrategy)
      → length max_c ≡ length min_c
      → length max_c ≡ length breakpoints
      → is_valid f max_c min_c available ≡ true
      → snap f max_c min_c ≡ some snapped
      → (r : ColumnWidths f) × ((ftwa f max_c min_c breakpoints available strategy ≡ some r)
          × HasWidths f strategy snapped available r)
  ftwa-returns max_c min_c snapped breakpoints available strategy l k v s =
      let (finite, (_, (g, h))) = valid_parts f laws max_c min_c available v in
      let (g', h') = nonneg_parts max_c min_c available v in
      let (r, (e, i)) =
        ftwa-Returned f laws max_c min_c snapped breakpoints available strategy l k v s in
      (
        r,
        (
          e,
          IsSound-HasWidths strategy snapped available r finite
              ((subst (OfSnap f laws max_c) s (snap-OfSnap f laws max_c min_c l g h)).2)
              (subst IsNonneg s (snap-IsNonneg max_c min_c g' h')) i,
        ),
      )
