-- ===== src/Table/Solve/RatioFloor.antt =====
-- The ratio solver ends, with widths that are not below the least ones.
use personal_productivity_ai.Common.{
  ◌≡◌, refl, sym, ap, ◌∙◌, ℕ, zero, suc, ◌+◌, ◌≤◌, ◌<◌, Bool, true, false, not, ◌&&◌, Option, some,
  List, [], ◌∷◌, keep, length, leb, ltb, Bool-cases, inl, inr, arith,
}
use personal_productivity_ai.Table.{F32, IsIeee, ColumnWidths}
use personal_productivity_ai.Table.Columns.{
  get_or, collect, replicate, length-collect, get_or-collect, length-replicate, get_or_beyond,
  get_or-replicate_self,
}
use personal_productivity_ai.Table.Shrink.{at}
use personal_productivity_ai.Table.Shrink.Floor.{IsAtLeast}
use personal_productivity_ai.Table.Solve.{
  RatioState, is_clamped, width_in_turn, ratio_turn, count_active, ratio_loop, ratio_target,
  ratio_result, ratio_widths, fit_or_scroll, drift_into,
}
use personal_productivity_ai.Table.Solve.Floor.{
  Fits, fit_or_scroll-Fits, fit_or_scroll-IsAtLeast, drift_into-IsAtLeast,
}

-- The columns that stay active and those that a turn clamps are together the active ones.
count_active-turn :
    (n : ℕ) (g : ℕ → ℕ) (active low : ℕ → Bool)
    → count_active (collect n (λ j. active (g j) && not (active (g j) && low (g j))))
        + length (keep (λ j. active j && low j) (collect n g))
      ≡ count_active (collect n (λ j. active (g j)))
count_active-turn zero g active low = refl
count_active-turn (suc n) g active low =
    ground (arith, count_active-turn n (λ j. g (suc j)) active low)

count_active-collect :
    (active : List Bool)
    → count_active (collect (length active) (get_or false active)) ≡ count_active active
count_active-collect [] = refl
count_active-collect (a ∷ active) = ground (arith, count_active-collect active)

count_active_none :
    (active : List Bool) (j : ℕ) → count_active active ≡ 0 → get_or false active j ≡ false
count_active_none [] j h = refl
count_active_none (true ∷ active) j h = absurd (omega arith)
count_active_none (false ∷ active) zero h = refl
count_active_none (false ∷ active) (suc j) h = count_active_none active j h

count_active-replicate : (n : ℕ) → count_active (replicate n true) ≡ n
count_active-replicate zero = refl
count_active-replicate (suc n) = ap suc (count_active-replicate n)

replicate_active : (n j : ℕ) → get_or false (replicate n true) j ≡ false → n ≤ j
replicate_active zero j h = omega arith
replicate_active (suc n) zero h = absurd cc
replicate_active (suc n) (suc j) h = omega (arith, replicate_active n j h)

module _ (f : F32) (laws : IsIeee f) (max_c min_c : List (f.F))
    (same : length max_c ≡ length min_c) where
  -- The columns that are no longer active are not below their least width.
  pub record IsRatio (s : RatioState f) : Type 0 where
    pub same_widths : length (s.widths) ≡ length min_c
    pub same_active : length (s.active) ≡ length max_c
    pub clamped :
        (j : ℕ)
        → get_or false (s.active) j ≡ false
        → f.lt (at f (s.widths) j) (at f min_c j) ≡ false

  width_in_turn-lt :
      (ratio : f.F) (s : RatioState f) (j : ℕ)
      → IsRatio s
      → f.lt (width_in_turn f max_c min_c ratio s j) (at f min_c j) ≡ false
  width_in_turn-lt ratio s j i = elim (Bool-cases (get_or false (s.active) j)) [
    | inr e ↦ rw e (i.clamped j e)
    | inl e ↦ elim (Bool-cases (f.lt (f.div (at f max_c j) ratio) (at f min_c j))) [
      | inl g ↦ rw (e, g) (laws.lt_irrefl (at f min_c j))
      | inr g ↦ rw (e, g) g
    ]
  ]

  turn-IsAtLeast :
      (s : RatioState f) → IsRatio s → IsAtLeast f min_c ((ratio_turn f max_c min_c s).0.widths)
  unfolding ratio_turn
  turn-IsAtLeast s i =
      let ratio = f.div (s.active_max_sum) (s.remaining) in
      let n = length max_c in
      (
        length-collect n _ ∙ same,
        λ j. elim (Bool-cases (ltb j n)) [
          | inl e ↦
              rw (get_or-collect (f.zero_float) n (width_in_turn f max_c min_c ratio s) j, e)
                (width_in_turn-lt ratio s j i)
          | inr e ↦
              rw
                (
                  get_or-collect (f.zero_float) n (width_in_turn f max_c min_c ratio s) j,
                  e,
                  get_or_beyond (f.zero_float) min_c j (ground (arith, same)),
                )
                (laws.lt_irrefl (f.zero_float))
        ],
      )

  turn-count :
      (s : RatioState f)
      → IsRatio s
      → count_active ((ratio_turn f max_c min_c s).0.active)
          + length ((ratio_turn f max_c min_c s).1)
        ≡ count_active (s.active)
  unfolding ratio_turn is_clamped
  turn-count s i =
      let ratio = f.div (s.active_max_sum) (s.remaining) in
      count_active-turn (length max_c) (λ j. j) (get_or false (s.active))
        (λ j. f.lt (f.div (at f max_c j) ratio) (at f min_c j))
      ∙ ap (λ n. count_active (collect n (get_or false (s.active)))) (sym (i.same_active))
      ∙ count_active-collect (s.active)

  turn-length : (s : RatioState f) → length ((ratio_turn f max_c min_c s).0.active) ≡ length max_c
  unfolding ratio_turn
  turn-length s = length-collect (length max_c) _

  pub ratio_loop-ends :
      (fuel : ℕ) (s : RatioState f)
      → count_active (s.active) < fuel
      → IsRatio s
      → (end : RatioState f) × ((ratio_loop f max_c min_c fuel s ≡ some end)
          × IsAtLeast f min_c (end.widths))
  unfolding ratio_loop
  ratio_loop-ends zero s h i = absurd (omega arith)
  ratio_loop-ends (suc fuel) s h i =
      let turn = ratio_turn f max_c min_c s in
      let a = turn-IsAtLeast s i in
      elim (Bool-cases (leb (count_active (s.active)) 0)) [
        | inl e ↦ (
          s,
          (
            rw e refl,
            (i.same_widths, λ j. i.clamped j (count_active_none (s.active) j (ground arith))),
          ),
        )
        | inr e ↦ elim (Bool-cases (leb (length (turn.1)) 0)) [
          | inl g ↦ (turn.0, (rw (e, g) refl, a))
          | inr g ↦
              rw (e, g)
                (ratio_loop-ends fuel _ (ground (arith, turn-count s i)) (record {
                  same_widths = a.0;
                  same_active = turn-length s;
                  clamped = λ j out. a.1 j;
                }))
        ]
      ]

  abbrev first_ratio : f.F → f.F → RatioState f
  first_ratio available sum_max = record {
    widths = replicate (length max_c) (f.zero_float);
    active = replicate (length max_c) true;
    active_max_sum = sum_max;
    remaining = available;
  }

  first_ratio-IsRatio : (available sum_max : f.F) → IsRatio (first_ratio available sum_max)
  first_ratio-IsRatio available sum_max = record {
    same_widths = length-replicate (length max_c) (f.zero_float) ∙ same;
    same_active = length-replicate (length max_c) true;
    clamped = λ j out.
        rw
          (
            get_or-replicate_self (length max_c) (f.zero_float) j,
            get_or_beyond (f.zero_float) min_c j
                (omega (arith, replicate_active (length max_c) j out)),
          )
          (laws.lt_irrefl (f.zero_float));
  }

  abbrev IsReturned : f.F → Option (ColumnWidths f) → Type 0
  IsReturned available o =
      (r : ColumnWidths f) × ((o ≡ some r)
        × (Fits f min_c available r × IsAtLeast f min_c (r.widths)))

  ratio_widths-end :
      (available sum_max : f.F) (end : RatioState f)
      → ratio_loop f max_c min_c (suc (length max_c)) (first_ratio available sum_max) ≡ some end
      → IsAtLeast f min_c (end.widths)
      → IsReturned available (ratio_widths f max_c min_c available sum_max)
  unfolding ratio_widths ratio_result
  ratio_widths-end available sum_max end ended a =
      let target = ratio_target f max_c min_c (end.active) in
      let widths = drift_into f target min_c available (end.widths) in
      (
        fit_or_scroll f min_c available widths,
        (
          ap (ratio_result f max_c min_c available) ended,
          (
            fit_or_scroll-Fits f laws min_c available widths,
            fit_or_scroll-IsAtLeast f laws min_c available widths
                (drift_into-IsAtLeast f laws target min_c available (end.widths) a),
          ),
        ),
      )

  -- The ratio solver returns in the regime of a deficit.
  pub ratio_widths-ends :
      (available sum_max : f.F)
      → (r : ColumnWidths f) × ((ratio_widths f max_c min_c available sum_max ≡ some r)
          × (Fits f min_c available r × IsAtLeast f min_c (r.widths)))
  ratio_widths-ends available sum_max =
      let end =
        ratio_loop-ends (suc (length max_c)) (first_ratio available sum_max)
          (omega (arith, count_active-replicate (length max_c)))
          (first_ratio-IsRatio available sum_max) in
      ratio_widths-end available sum_max (end.0) (end.1.0) (end.1.1)
