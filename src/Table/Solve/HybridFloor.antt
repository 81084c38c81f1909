-- ===== src/Table/Solve/HybridFloor.antt =====
-- The hybrid solver returns widths that are not below the least ones.
use personal_productivity_ai.Common.{
  ◌≡◌, refl, ◌∙◌, ℕ, true, false, some, List, length, ltb, Bool-cases, inl, inr, arith,
}
use personal_productivity_ai.Table.{F32, IsIeee, Breakpoint, ColumnWidths, sum}
use personal_productivity_ai.Table.Columns.{collect, length-collect, get_or-collect, get_or_beyond}
use personal_productivity_ai.Table.Shrink.{at}
use personal_productivity_ai.Table.Shrink.Floor.{IsAtLeast}
use personal_productivity_ai.Table.Solve.{fit_or_scroll, drift_into, most_headroom}
use personal_productivity_ai.Table.Solve.Floor.{
  Fits, fit_or_scroll-Fits, fit_or_scroll-IsAtLeast, drift_into-IsAtLeast,
}
use personal_productivity_ai.Table.Solve.Hybrid.{
  clamp, target_of, in_order, widen, narrow, share_residual, hybrid_widths,
}

module _ (f : F32) (laws : IsIeee f) where
  clamp-lt : (x low high : f.F) → f.lt high low ≡ false → f.lt (clamp f x low high) low ≡ false
  unfolding clamp
  clamp-lt x low high h = ground (arith, laws.lt_irrefl low)

  -- Widths that are computed one by one.
  collect-IsAtLeast :
      (n : ℕ) (min_c : List (f.F)) (g : ℕ → f.F)
      → n ≡ length min_c
      → ((j : ℕ) → f.lt (g j) (at f min_c j) ≡ false)
      → IsAtLeast f min_c (collect n g)
  collect-IsAtLeast n min_c g same h = (
    length-collect n g ∙ same,
    λ j. elim (Bool-cases (ltb j n)) [
      | inl e ↦ rw (get_or-collect (f.zero_float) n g j, e) (h j)
      | inr e ↦
          rw
            (
              get_or-collect (f.zero_float) n g j,
              e,
              get_or_beyond (f.zero_float) min_c j (ground (arith, same)),
            )
            (laws.lt_irrefl (f.zero_float))
    ],
  )

  collect_room-lt :
      (n : ℕ) (g : ℕ → f.F) (j : ℕ)
      → f.lt (at f (collect n (λ i. f.fmax (g i) (f.zero_float))) j) (f.zero_float) ≡ false
  collect_room-lt n g j = elim (Bool-cases (ltb j n)) [
    | inl e ↦
        rw (get_or-collect (f.zero_float) n (λ i. f.fmax (g i) (f.zero_float)) j, e)
          (laws.lt-fmax (g j) (f.zero_float))
    | inr e ↦
        rw (get_or-collect (f.zero_float) n (λ i. f.fmax (g i) (f.zero_float)) j, e)
          (laws.lt_irrefl (f.zero_float))
  ]

  widen-IsAtLeast :
      (max_c min_c targets : List (f.F)) (residual : f.F)
      → IsAtLeast f min_c max_c
      → IsAtLeast f min_c targets
      → f.lt (f.zero_float) residual ≡ true
      → IsAtLeast f min_c (widen f max_c targets residual)
  unfolding widen
  widen-IsAtLeast max_c min_c targets residual m t h =
      let n = length max_c in
      let room : ℕ → f.F = λ j. f.sub (at f max_c j) (at f targets j) in
      let headroom = collect n (λ j. f.fmax (room j) (f.zero_float)) in
      elim (Bool-cases (f.lt (f.zero_float) (sum f headroom))) [
        | inr e ↦ rw e t
        | inl e ↦ rw e (
            collect-IsAtLeast n min_c _ (m.0) (λ j.
              laws.lt-fmin _ _ (at f min_c j)
                (laws.lt-add _ _ (at f min_c j) (t.1 j) (
                  laws.lt-div _ _ (laws.lt-mul _ _ (laws.lt_asym _ _ h) (collect_room-lt n room j))
                    e))
                (m.1 j)))
      ]

  narrow-IsAtLeast :
      (min_c targets : List (f.F)) (residual : f.F)
      → IsAtLeast f min_c targets
      → IsAtLeast f min_c (narrow f min_c targets residual)
  unfolding narrow
  narrow-IsAtLeast min_c targets residual t =
      let n = length targets in
      let above_min =
        collect n (λ j. f.fmax (f.sub (at f targets j) (at f min_c j)) (f.zero_float)) in
      elim (Bool-cases (f.lt (f.zero_float) (sum f above_min))) [
        | inr e ↦ rw e t
        | inl e ↦ rw e (collect-IsAtLeast n min_c _ (t.0) (λ j. laws.lt-fmax _ (at f min_c j)))
      ]

  share_residual-IsAtLeast :
      (max_c min_c targets : List (f.F)) (residual : f.F)
      → IsAtLeast f min_c max_c
      → IsAtLeast f min_c targets
      → IsAtLeast f min_c (share_residual f max_c min_c targets residual)
  unfolding share_residual
  share_residual-IsAtLeast max_c min_c targets residual m t =
      elim (Bool-cases (f.lt (f.zero_float) (f.abs residual))) [
        | inr e ↦ rw e t
        | inl e ↦ elim (Bool-cases (f.lt (f.zero_float) residual)) [
          | inl g ↦ rw (e, g) (widen-IsAtLeast max_c min_c targets residual m t g)
          | inr g ↦ rw (e, g) (narrow-IsAtLeast min_c targets residual t)
        ]
      ]

  -- The hybrid solver returns in the regime of a deficit, where the least widths are in order.
  pub hybrid_widths-ends :
      (max_c min_c : List (f.F)) (breakpoints : List (List (Breakpoint f))) (available : f.F)
      → IsAtLeast f min_c max_c
      → in_order f max_c min_c ≡ true
      → (r : ColumnWidths f) × ((hybrid_widths f max_c min_c breakpoints available ≡ some r)
          × (Fits f min_c available r × IsAtLeast f min_c (r.widths)))
  unfolding hybrid_widths target_of
  hybrid_widths-ends max_c min_c breakpoints available m h =
      let targets = collect (length max_c) (target_of f max_c min_c breakpoints) in
      let t =
        collect-IsAtLeast (length max_c) min_c (target_of f max_c min_c breakpoints) (m.0)
          (λ j. clamp-lt _ (at f min_c j) (at f max_c j) (m.1 j)) in
      let shared = share_residual f max_c min_c targets (f.sub available (sum f targets)) in
      let s = share_residual-IsAtLeast max_c min_c targets (f.sub available (sum f targets)) m t in
      let target = most_headroom f min_c shared in
      let widths = drift_into f target min_c available shared in
      (
        fit_or_scroll f min_c available widths,
        (
          rw h refl,
          (
            fit_or_scroll-Fits f laws min_c available widths,
            fit_or_scroll-IsAtLeast f laws min_c available widths
                (drift_into-IsAtLeast f laws target min_c available shared s),
          ),
        ),
      )
