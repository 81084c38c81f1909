-- ===== src/Table/Lines/Monotone.antt =====
-- A wider column never needs more lines.
use personal_productivity_ai.Common.{
  ◌≡◌, refl, ap, subst, ℕ, ◌+◌, ◌<◌, true, false, List, [], ◌∷◌, All, leb, leb→le, if◌then◌else◌,
  Bool-cases, ◌⊎◌, inl, inr, arith,
}
use personal_productivity_ai.Common.Int.{
  ℤ, pos, ◌+ℤ◌, ◌≤ℤ◌, pos_part, neg_part, +ℤ_parts, eq_of_parts,
}
use personal_productivity_ai.Table.{F32}
use personal_productivity_ai.Table.Lines.{pack, greedy_line_count}

-- Laws of the order and the rounded sum, of floats that are not negative and not NaN.
pub record IsOrdered (f : F32) : Type 0 where
  pub le_trans : (a b c : f.F) → f.le a b ≡ true → f.le b c ≡ true → f.le a c ≡ true
  pub lt_of_le_lt : (a b c : f.F) → f.le a b ≡ true → f.lt b c ≡ true → f.lt a c ≡ true
  pub lt_of_lt_le : (a b c : f.F) → f.lt a b ≡ true → f.le b c ≡ true → f.lt a c ≡ true
  pub add_mono :
      (a b c : f.F)
      → f.le (f.zero_float) a ≡ true
      → f.le (f.zero_float) c ≡ true
      → f.le a b ≡ true
      → f.le (f.add a c) (f.add b c) ≡ true
  pub le-add_right :
      (a b : f.F)
      → f.le (f.zero_float) a ≡ true
      → f.le (f.zero_float) b ≡ true
      → f.le b (f.add a b) ≡ true
  pub le_micro : f.le (f.zero_float) (f.micro) ≡ true
  pub le_zero : f.le (f.zero_float) (f.zero_float) ≡ true

suc_le : (a b : ℤ) → a +ℤ pos 1 ≤ℤ b → (a +ℤ pos 1) +ℤ pos 1 ≤ℤ b +ℤ pos 1
suc_le a b h = omega (arith, +ℤ_parts)

le_suc : (a b : ℤ) → a +ℤ pos 1 ≤ℤ b → a +ℤ pos 1 ≤ℤ b +ℤ pos 1
le_suc a b h = omega (arith, +ℤ_parts)

le_pred : (a b : ℤ) → a +ℤ pos 1 ≤ℤ b → a ≤ℤ b
le_pred a b h = omega (arith, +ℤ_parts)

ints_le : (a b : ℤ) → a ≡ b → a ≤ℤ b
ints_le a b h = subst (λ c. a ≤ℤ c) h (omega arith)

le_of_eq : (a b : ℤ) → a ≡ b → a +ℤ pos 1 ≤ℤ b +ℤ pos 1
le_of_eq a b h = ints_le _ _ (ap (λ l. l +ℤ pos 1) h)

lt_of_leb : (a b : ℕ) → leb a b ≡ false → b < a
lt_of_leb a b h = ground arith

le_or_eq : (a b : ℤ) → a +ℤ pos 1 ≤ℤ b → ((a +ℤ pos 1) +ℤ pos 1 ≤ℤ b) ⊎ (a +ℤ pos 1 ≡ b)
le_or_eq a b h =
    elim (Bool-cases (
      leb (pos_part ((a +ℤ pos 1) +ℤ pos 1) + neg_part b)
        (pos_part b + neg_part ((a +ℤ pos 1) +ℤ pos 1)))) [
          | inl e ↦ inl (leb→le _ _ e)
          | inr e ↦ inr (eq_of_parts (a +ℤ pos 1) b (omega (arith, +ℤ_parts, lt_of_leb _ _ e)))
        ]

module _ (f : F32) (laws : IsOrdered f) where
  abbrev Nonneg : f.F → Type 0
  Nonneg a = f.le (f.zero_float) a ≡ true

  -- The packing in the wider column is ahead: on an earlier line, or as far on the same one.
  abbrev Ahead : ℤ → f.F → ℤ → f.F → Type 0
  Ahead lines' line_w' lines line_w =
      (lines' +ℤ pos 1 ≤ℤ lines) ⊎ ((lines' ≡ lines) × (f.le line_w' line_w ≡ true))

  -- The line and the width behind a token that takes `w` in all, where the line ends at `stop`.
  abbrev next_line : f.F → f.F → ℤ → ℤ
  next_line stop w lines = if f.lt stop w then lines +ℤ pos 1 else lines

  abbrev next_width : f.F → f.F → f.F → f.F
  next_width stop w t = if f.lt stop w then t else w

  step-Ahead :
      (stop stop' w w' t : f.F) (lines lines' : ℤ)
      → f.le stop stop' ≡ true
      → f.le t t ≡ true
      → f.le t w ≡ true
      → (lines' +ℤ pos 1 ≤ℤ lines) ⊎ ((lines' ≡ lines) × (f.le w' w ≡ true))
      → Ahead
          (next_line stop' w' lines')
          (next_width stop' w' t)
          (next_line stop w lines)
          (next_width stop w t)
  step-Ahead stop stop' w w' t lines lines' s tt tw (inl h) = elim (Bool-cases (f.lt stop' w')) [
    | inl e' ↦ elim (Bool-cases (f.lt stop w)) [
      | inl e ↦ rw (e', e) (inl (suc_le lines' lines h))
      | inr e ↦ rw (e', e) (elim (le_or_eq lines' lines h) [ inl g ↦ inl g | inr g ↦ inr (g, tw) ])
    ]
    | inr e' ↦ elim (Bool-cases (f.lt stop w)) [
      | inl e ↦ rw (e', e) (inl (le_suc lines' lines h))
      | inr e ↦ rw (e', e) (inl h)
    ]
  ]
  step-Ahead stop stop' w w' t lines lines' s tt tw (inr (same, h)) =
      elim (Bool-cases (f.lt stop' w')) [
        | inl e' ↦
            let e : f.lt stop w ≡ true =
              laws.lt_of_le_lt stop stop' w s (laws.lt_of_lt_le stop' w' w e' h) in
            rw (e', e) (inr (ap (λ l. l +ℤ pos 1) same, tt))
        | inr e' ↦ elim (Bool-cases (f.lt stop w)) [
          | inl e ↦ rw (e', e) (inl (le_of_eq lines' lines same))
          | inr e ↦ rw (e', e) (inr (same, h))
        ]
      ]

  -- The tokens are not negative, and are not NaN.
  abbrev pub IsTokens : List (f.F) → Type 0
  IsTokens tws = All (λ (t : f.F). (f.le (f.zero_float) t ≡ true) × (f.le t t ≡ true)) tws

  Nonneg-add : (a b : f.F) → Nonneg a → Nonneg b → Nonneg (f.add a b)
  Nonneg-add a b g h = laws.le_trans _ b _ h (laws.le-add_right a b g h)

  Nonneg-next_width : (stop w t : f.F) → Nonneg w → Nonneg t → Nonneg (next_width stop w t)
  Nonneg-next_width stop w t g h = ground (arith, g, h)

  add-Ahead :
      (c line_w line_w' : f.F) (lines lines' : ℤ)
      → Nonneg line_w'
      → Nonneg c
      → Ahead lines' line_w' lines line_w
      → Ahead lines' (f.add line_w' c) lines (f.add line_w c)
  add-Ahead c line_w line_w' lines lines' g h (inl a) = inl a
  add-Ahead c line_w line_w' lines lines' g h (inr (e, a)) =
      inr (e, laws.add_mono line_w' line_w c g h a)

  Ahead-le : (lines lines' : ℤ) (w w' : f.F) → Ahead lines' w' lines w → lines' ≤ℤ lines
  Ahead-le lines lines' w w' (inl h) = le_pred lines' lines h
  Ahead-le lines lines' w w' (inr (e, h)) = ints_le lines' lines e

  pack-le :
      (space col col' : f.F) (tws : List (f.F)) (lines lines' : ℤ) (line_w line_w' : f.F)
      → Nonneg space
      → f.le (f.add col (f.micro)) (f.add col' (f.micro)) ≡ true
      → IsTokens tws
      → Nonneg line_w
      → Nonneg line_w'
      → Ahead lines' line_w' lines line_w
      → pack f space col' lines' line_w' tws ≤ℤ pack f space col lines line_w tws
  unfolding pack
  pack-le space col col' [] lines lines' line_w line_w' s c n w w' a =
      Ahead-le lines lines' line_w line_w' a
  pack-le space col col' (t ∷ tws) lines lines' line_w line_w' s c ((nt, tt), n) w w' a =
      let token_w = f.add space t in
      let long = Nonneg-add space t s nt in
      let grown = Nonneg-add line_w token_w w long in
      let grown' = Nonneg-add line_w' token_w w' long in
      let fits =
        laws.le_trans t token_w _ (laws.le-add_right space t s nt)
          (laws.le-add_right line_w token_w w long) in
      pack-le space col col' tws _ _ _ _ s c n (Nonneg-next_width _ _ t grown nt)
        (Nonneg-next_width _ _ t grown' nt)
        (step-Ahead (f.add col (f.micro)) (f.add col' (f.micro)) (f.add line_w token_w)
          (f.add line_w' token_w) t lines lines' c tt fits
          (add-Ahead token_w line_w line_w' lines lines' w' long a))

  -- In a wider column the same tokens take no more lines.
  pub greedy_line_count-le :
      (tokens : List (f.F)) (space col col' : f.F)
      → f.le (f.zero_float) space ≡ true
      → f.le (f.zero_float) col ≡ true
      → f.le col col' ≡ true
      → IsTokens tokens
      → greedy_line_count f tokens space col' ≤ℤ greedy_line_count f tokens space col
  unfolding greedy_line_count
  greedy_line_count-le [] space col col' s c h n = omega arith
  greedy_line_count-le (t ∷ tws) space col col' s c h ((nt, tt), n) =
      let z = laws.le_zero in
      let stops = laws.add_mono col col' (f.micro) c (laws.le_micro) h in
      let w = f.add (f.zero_float) t in
      let nw = Nonneg-add (f.zero_float) t z nt in
      let tw = laws.le-add_right (f.zero_float) t z nt in
      let ww = laws.add_mono (f.zero_float) (f.zero_float) t z nt z in
      let first =
        step-Ahead (f.add col (f.micro)) (f.add col' (f.micro)) w w t (pos 1) (pos 1) stops tt tw
          (inr (refl, ww)) in
      pack-le space col col' tws _ _ _ _ s stops n (Nonneg-next_width _ _ t nw nt)
        (Nonneg-next_width _ _ t nw nt) first
