-- ===== src/Table/Shrink/Minimal.antt =====
-- The wrap set is as short as its order allows.
use personal_productivity_ai.Common.{
  ◌≡◌, refl, ap, ℕ, zero, suc, ◌<◌, true, false, List, [], ◌∷◌, length, take, Bool-cases, ◌⊎◌, inl,
  inr, arith,
}
use personal_productivity_ai.Table.{F32, IsIeee, sum}
use personal_productivity_ai.Table.Shrink.{slack}
use personal_productivity_ai.Table.Shrink.Ranked.{IsRanked, positives_of-IsRanked}
use personal_productivity_ai.Table.Shrink.Wrap.{take_until, positives_of, wrap_set_of}

module _ (f : F32) (max_c min_c : List (f.F)) where
  -- The slack of columns, added up from `acc` on.
  abbrev pub slack_sum : f.F → List ℕ → f.F
  slack_sum acc [] = acc
  slack_sum acc (j ∷ js) = slack_sum (f.add acc (slack f max_c min_c j)) js

  -- The first columns of a list, which are the fewest that cover the deficit, or are all.
  pub record IsShortest (deficit acc : f.F) (js taken : List ℕ) : Type 0 where
    pub prefix : taken ≡ take (length taken) js
    pub needed : (k : ℕ) → k < length taken → f.le deficit (slack_sum acc (take k js)) ≡ false
    pub enough : (f.le deficit (slack_sum acc taken) ≡ true) ⊎ (taken ≡ js)

  needed-cons :
      (deficit acc : f.F) (j : ℕ) (js taken : List ℕ)
      → f.le deficit acc ≡ false
      → f.le deficit (f.add acc (slack f max_c min_c j)) ≡ false
      → ((k : ℕ)
          → k < length taken
          → f.le deficit (slack_sum (f.add acc (slack f max_c min_c j)) (take k js)) ≡ false)
      → (k : ℕ) → k < suc (length taken)
      → f.le deficit (slack_sum acc (take k (j ∷ js))) ≡ false
  needed-cons deficit acc j js taken z e h zero q = z
  needed-cons deficit acc j js taken z e h (suc k) q = h k (omega arith)

  needed_one :
      (deficit acc : f.F) (j : ℕ) (js : List ℕ)
      → f.le deficit acc ≡ false
      → (k : ℕ) → k < 1
      → f.le deficit (slack_sum acc (take k (j ∷ js))) ≡ false
  needed_one deficit acc j js z zero q = z
  needed_one deficit acc j js z (suc k) q = absurd (omega arith)

  take_until-IsShortest :
      (deficit acc : f.F) (js : List ℕ)
      → f.le deficit acc ≡ false
      → IsShortest deficit acc js ((take_until f max_c min_c deficit acc js).0)
  unfolding take_until
  take_until-IsShortest deficit acc [] z = record {
    prefix = refl;
    needed = λ k q. absurd (omega arith);
    enough = inr refl;
  }
  take_until-IsShortest deficit acc (j ∷ js) z =
      let sum = f.add acc (slack f max_c min_c j) in
      elim (Bool-cases (f.le deficit sum)) [
        | inl e ↦
            rw e (record { prefix = refl; needed = needed_one deficit acc j js z; enough = inl e })
        | inr e ↦
            let ih = take_until-IsShortest deficit sum js e in
            rw e (record {
              prefix = ap (λ (l : List ℕ). j ∷ l) (ih.prefix);
              needed = needed-cons deficit acc j js _ z e (ih.needed);
              enough = elim (ih.enough) [
                | inl g ↦ inl g
                | inr g ↦ inr (ap (λ (l : List ℕ). j ∷ l) g)
              ];
            })
      ]

  -- Where there is a deficit, the wrap set consists of the first of the columns that have slack. These are
  -- taken each once and by their slack, the greatest first, and the first columns first where slacks compare
  -- the same. The wrap set is the shortest such set: none that leaves out its last columns covers the
  -- deficit, not even the empty one, and it covers the deficit itself unless all columns with slack are in it.
  pub wrap_set_of-IsShortest :
      (laws : IsIeee f) (available : f.F)
      → f.le (f.sub (sum f max_c) available) (f.zero_float) ≡ false
      → IsRanked f max_c min_c (positives_of f max_c min_c)
        × IsShortest
            (f.sub (sum f max_c) available)
            (f.zero_float)
            (positives_of f max_c min_c)
            (wrap_set_of f max_c min_c available)
  unfolding wrap_set_of
  wrap_set_of-IsShortest laws available h = (
    positives_of-IsRanked f max_c min_c laws,
    take_until-IsShortest (f.sub (sum f max_c) available) (f.zero_float)
        (positives_of f max_c min_c) h,
  )
