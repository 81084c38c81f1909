-- ===== src/Table/Ftwa/Panics.antt =====
-- When `ftwa` panics.
use personal_productivity_ai.Common.{
  ◌≡◌, ◌≢◌, ◌↔◌, refl, Bool, true, false, not, ◌&&◌, ◌||◌, none, some, List, [], ◌∷◌, length, leb,
  ◌==◌, Bool-cases, ◌⊎◌, inl, inr, arith,
}
use personal_productivity_ai.Table.{F32, IsIeee, Breakpoint}
use personal_productivity_ai.Table.Strategy.{DeficitStrategy}
use personal_productivity_ai.Table.Ftwa.{snap_one, snap, with_snapped, is_valid, ftwa}
use personal_productivity_ai.Table.Ftwa.Sound.{ftwa-returns}

module _ (f : F32) where
  -- No least width exceeds the greatest by more than 1.
  abbrev pub drifts_at_most_one : List (f.F) → List (f.F) → Bool
  drifts_at_most_one [] min_c = true
  drifts_at_most_one (mx ∷ max_c) [] = true
  drifts_at_most_one (mx ∷ max_c) (mn ∷ min_c) =
      (not (f.lt mx mn) || f.le (f.sub mn mx) (f.one_float)) && drifts_at_most_one max_c min_c

  -- The input that the contract of `ftwa` allows.
  abbrev pub is_accepted : List (f.F) → List (f.F) → List (List (Breakpoint f)) → f.F → Bool
  is_accepted max_c min_c breakpoints available =
      ((length max_c == length min_c) && (length max_c == length breakpoints))
      && (leb (length max_c) 0
          || (is_valid f max_c min_c available && drifts_at_most_one max_c min_c))

  snap-drifts :
      (max_c min_c : List (f.F))
      → ((snap f max_c min_c ≡ none) × (drifts_at_most_one max_c min_c ≡ false))
        ⊎ ((snapped : List (f.F)) × ((snap f max_c min_c ≡ some snapped)
              × (drifts_at_most_one max_c min_c ≡ true)))
  unfolding snap snap_one
  snap-drifts [] min_c = inr ([], (refl, refl))
  snap-drifts (mx ∷ max_c) [] = inr ([], (refl, refl))
  snap-drifts (mx ∷ max_c) (mn ∷ min_c) = elim (snap-drifts max_c min_c) [
    | inl (k, d) ↦ inl (rw k refl, ground (arith, d))
    | inr (rest, (k, d)) ↦ elim (Bool-cases (f.lt mx mn)) [
      | inr e ↦ inr (mn ∷ rest, (rw (k, e) refl, rw (e, d) refl))
      | inl e ↦ elim (Bool-cases (f.le (f.sub mn mx) (f.one_float))) [
        | inl g ↦ inr (mx ∷ rest, (rw (k, e, g) refl, rw (e, g, d) refl))
        | inr g ↦ inl (rw (k, e, g) refl, rw (e, g) refl)
      ]
    ]
  ]

  asserts_fail :
      (max_c min_c : List (f.F)) (breakpoints : List (List (Breakpoint f))) (available : f.F)
      (strategy : DeficitStrategy)
      → is_accepted max_c min_c breakpoints available ≡ false
      → ftwa f max_c min_c breakpoints available strategy ≡ none
  unfolding ftwa with_snapped
  asserts_fail max_c min_c breakpoints available strategy h =
      elim (Bool-cases ((length max_c == length min_c) && (length max_c == length breakpoints))) [
        | inr e ↦ rw e refl
        | inl e ↦ elim (Bool-cases (leb (length max_c) 0)) [
          | inl d ↦ absurd (ground (arith, h))
          | inr d ↦ elim (Bool-cases (is_valid f max_c min_c available)) [
            | inr v ↦ rw (e, d, v) refl
            | inl v ↦ elim (snap-drifts max_c min_c) [
              | inl (k, g) ↦ rw (e, d, v, k) refl
              | inr (s, (k, g)) ↦ absurd (ground (arith, h))
            ]
          ]
        ]
      ]

  asserts_hold :
      (laws : IsIeee f) (max_c min_c : List (f.F)) (breakpoints : List (List (Breakpoint f)))
      (available : f.F) (strategy : DeficitStrategy)
      → is_accepted max_c min_c breakpoints available ≡ true
      → ftwa f max_c min_c breakpoints available strategy ≢ none
  unfolding ftwa
  asserts_hold laws max_c min_c breakpoints available strategy h failed =
      let agree : ((length max_c == length min_c) && (length max_c == length breakpoints)) ≡ true =
        ground (arith, h) in
      elim (Bool-cases (leb (length max_c) 0)) [
        | inl d ↦ let g = rw (agree, d) at failed in cc
        | inr d ↦ elim (snap-drifts max_c min_c) [
          | inl (k, g) ↦ absurd (ground (arith, h))
          | inr (s, (k, g)) ↦
              let r =
                ftwa-returns f laws max_c min_c s breakpoints available strategy (ground arith)
                  (ground arith) (ground (arith, h)) k in
              let e = r.1.0 in cc
        ]
      ]

  -- `ftwa` panics exactly on the input that its contract excludes: numbers of columns that differ, or,
  -- of a table that has columns, a measurement that is not finite or is negative, or a least width
  -- that exceeds the greatest by more than 1.
  pub ftwa-panics :
      (laws : IsIeee f) (max_c min_c : List (f.F)) (breakpoints : List (List (Breakpoint f)))
      (available : f.F) (strategy : DeficitStrategy)
      → (ftwa f max_c min_c breakpoints available strategy ≡ none)
        ↔ (is_accepted max_c min_c breakpoints available ≡ false)
  ftwa-panics laws max_c min_c breakpoints available strategy = (
    λ h. elim (Bool-cases (is_accepted max_c min_c breakpoints available)) [
      | inl e ↦ absurd (asserts_hold laws max_c min_c breakpoints available strategy e h)
      | inr e ↦ e
    ],
    asserts_fail max_c min_c breakpoints available strategy,
  )
