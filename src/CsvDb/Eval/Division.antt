-- ===== src/CsvDb/Eval/Division.antt =====
-- Division of integers in src/agent/tools/csv_db/predicate.rs.
use native.Mathlib.Nat.{div-le_self, div-lt_self, div-zero, zero-div, mul-div-le, lt-mul-div-succ}
use personal_productivity_ai.Common.{
  ℕ, zero, suc, ◌+◌, ◌*◌, ◌/◌, ◌^◌, ◌≤◌, ◌<◌, ◌-◌, ◌≡◌, ◌≢◌, ◌∙◌, refl, Bool-cases, ◌==◌, ==_iff,
  ap, inl, inr, ◌⊎◌, Bool, true, false, arith,
}
use personal_productivity_ai.Common.Int.{ℤ, pos, negsuc, pos_part, neg_part, sub_ℕ}
use personal_productivity_ai.CsvDb.Value.{
  Float, Value, Outcome, int, div, ok, err, panic, division_by_zero, is_i64, div_ℤ, fit_quotient,
}
use personal_productivity_ai.CsvDb.Eval.{eval_binary_op, arithmetic_op, is_zero}

-- The difference of two numbers, the first of which is small and the second not too large.
is_i64_sub : (a b : ℕ) → a < 2 ^ 63 → b ≤ 2 ^ 63 → is_i64 (sub_ℕ a b) ≡ true
unfolding is_i64
is_i64_sub a b h g = ground arith

-- The quotient of two numbers one of which bounds it.
quotient_small : (n m : ℕ) → n ≤ 2 ^ 63 → (n < 2 ^ 63) ⊎ (1 < m) → n / m < 2 ^ 63
quotient_small n m h (inl l) = omega (arith, div-le_self n m)
quotient_small zero m h (inr l) = omega (arith, div-le_self 0 m)
quotient_small (suc n) m h (inr l) = omega (arith, div-lt_self {n = suc n} {k = m} (omega arith) l)

pos_bound : (a : ℤ) → is_i64 a ≡ true → pos_part a < 2 ^ 63
unfolding is_i64
pos_bound a h = ground (arith, h)

neg_bound : (a : ℤ) → is_i64 a ≡ true → neg_part a ≤ 2 ^ 63
unfolding is_i64
neg_bound a h = ground (arith, h)

not_extreme :
    (n m : ℕ)
    → n < 2 ^ 63
    → ¬ ((negsuc n ≡ negsuc (2 ^ 63 - 1)) × (negsuc m ≡ negsuc 0))
    → (suc n < 2 ^ 63) ⊎ (1 < suc m)
not_extreme n zero l e = inl (ground (arith, e))
not_extreme n (suc m) l e = inr (omega arith)

div_ℤ-is_i64 :
    (a b : ℤ)
    → is_i64 a ≡ true
    → is_i64 b ≡ true
    → ¬ ((a ≡ negsuc (2 ^ 63 - 1)) × (b ≡ negsuc 0))
    → is_i64 (div_ℤ a b) ≡ true
unfolding div_ℤ
div_ℤ-is_i64 (pos n) (pos m) h g e =
    is_i64_sub (n / m + 0 / 0) (n / 0 + 0 / m)
      (omega (arith, pos_bound (pos n) h, div-le_self n m, div-le_self 0 0))
      (omega (arith, pos_bound (pos n) h, div-le_self n 0, div-le_self 0 m))
div_ℤ-is_i64 (pos n) (negsuc m) h g e =
    is_i64_sub (n / 0 + 0 / suc m) (n / suc m + 0 / 0)
      (omega (arith, pos_bound (pos n) h, div-le_self n 0, div-le_self 0 (suc m)))
      (omega (arith, pos_bound (pos n) h, div-le_self n (suc m), div-le_self 0 0))
div_ℤ-is_i64 (negsuc n) (pos m) h g e =
    is_i64_sub (0 / m + suc n / 0) (0 / 0 + suc n / m)
      (omega (arith, div-le_self 0 m, div-zero (suc n)))
      (omega (arith, neg_bound (negsuc n) h, div-le_self (suc n) m, div-le_self 0 0))
div_ℤ-is_i64 (negsuc n) (negsuc m) h g e =
    is_i64_sub (0 / 0 + suc n / suc m) (0 / suc m + suc n / 0)
      (omega (
        arith,
        div-le_self 0 0,
        quotient_small (suc n) (suc m) (neg_bound (negsuc n) h)
            (not_extreme n m (omega (arith, neg_bound (negsuc n) h)) e),
      ))
      (omega (arith, div-le_self 0 (suc m), div-zero (suc n)))

abbrev pub magnitude : ℤ → ℕ
magnitude (pos n) = n
magnitude (negsuc n) = suc n

abbrev pub is_negative : ℤ → Bool
is_negative (pos n) = false
is_negative (negsuc n) = true

-- The quotient rounded towards zero: of the numbers that times the divisor do not exceed the dividend, it
-- is the greatest, signs aside; and it is negative, or 0, exactly where one of the two is negative.
pub record IsTruncated (a b q : ℤ) : Type 0 where
  pub below : magnitude b * magnitude q ≤ magnitude a
  pub greatest : magnitude a < magnitude b * (magnitude q + 1)
  pub same_sign : is_negative a ≡ is_negative b → neg_part q ≡ 0
  pub other_sign : is_negative a ≢ is_negative b → pos_part q ≡ 0

sub_pos : (k x y z : ℕ) → x ≡ 0 → y ≡ 0 → z ≡ 0 → sub_ℕ (k + x) (y + z) ≡ pos k
sub_pos k x y z e g h = ground arith

sub_pos_right : (k x y z : ℕ) → x ≡ 0 → y ≡ 0 → z ≡ 0 → sub_ℕ (x + k) (y + z) ≡ pos k
sub_pos_right k x y z e g h = ground arith

magnitude-sub : (x y k : ℕ) → x ≡ 0 → y ≡ 0 → (magnitude (sub_ℕ (x + y) k) ≡ k)
magnitude-sub x y k e g = ground arith

pos_part-sub : (x y k : ℕ) → x ≡ 0 → y ≡ 0 → pos_part (sub_ℕ (x + y) k) ≡ 0
pos_part-sub x y k e g = ground arith

-- A quotient that is not negative, and one that is not positive.
of_agreeing :
    (a b : ℤ)
    → is_negative a ≡ is_negative b
    → 0 < magnitude b
    → IsTruncated a b (pos (magnitude a / magnitude b))
of_agreeing a b e h = record {
  below = mul-div-le (magnitude a) (magnitude b);
  greatest = lt-mul-div-succ (magnitude a) h;
  same_sign = λ g. refl;
  other_sign = λ g. absurd (g e);
}

of_differing :
    (a b : ℤ) (x y k : ℕ)
    → is_negative a ≢ is_negative b
    → 0 < magnitude b
    → x ≡ 0
    → y ≡ 0
    → k ≡ magnitude a / magnitude b
    → IsTruncated a b (sub_ℕ (x + y) k)
of_differing a b x y k e h p q g =
    let m : magnitude (sub_ℕ (x + y) k) ≡ magnitude a / magnitude b = magnitude-sub x y k p q ∙ g in
    record {
      below = rw m (mul-div-le (magnitude a) (magnitude b));
      greatest = rw m (lt-mul-div-succ (magnitude a) h);
      same_sign = λ i. absurd (e i);
      other_sign = λ i. pos_part-sub x y k p q;
    }

div_ℤ-IsTruncated : (a b : ℤ) → 0 < magnitude b → IsTruncated a b (div_ℤ a b)
unfolding div_ℤ
div_ℤ-IsTruncated (pos n) (pos m) h =
    rw (sub_pos (n / m) (0 / 0) (n / 0) (0 / m) (div-zero 0) (div-zero n) (zero-div m))
      (of_agreeing (pos n) (pos m) refl h)
div_ℤ-IsTruncated (pos n) (negsuc m) h =
    of_differing (pos n) (negsuc m) (n / 0) (0 / suc m) (n / suc m + 0 / 0) (λ e. cc) h (div-zero n)
      (zero-div (suc m)) (omega (arith, div-zero 0))
div_ℤ-IsTruncated (negsuc n) (pos m) h =
    of_differing (negsuc n) (pos m) (0 / m) (suc n / 0) (0 / 0 + suc n / m) (λ e. cc) h (zero-div m)
      (div-zero (suc n)) (omega (arith, div-zero 0))
div_ℤ-IsTruncated (negsuc n) (negsuc m) h =
    rw
      (sub_pos_right (suc n / suc m) (0 / 0) (0 / suc m) (suc n / 0) (div-zero 0) (zero-div (suc m))
        (div-zero (suc n)))
      (of_agreeing (negsuc n) (negsuc m) refl h)

abbrev pub IsExtreme : ℤ → ℤ → Type 0
IsExtreme a b = (a ≡ negsuc (2 ^ 63 - 1)) × (b ≡ negsuc 0)

-- What division makes of two integers: an error, a panic or the quotient.
abbrev pub Divides : {F : Type 0} → ℤ → ℤ → Outcome F (Value F) → Type 0
Divides a b o =
    ((b ≡ pos 0) × (o ≡ err division_by_zero))
    ⊎ (IsExtreme a b × (o ≡ panic))
    ⊎ ((q : ℤ) × (o ≡ ok (int q)) × IsTruncated a b q × (is_i64 q ≡ true))

module _ (f : Float) (checks : Bool) where
  quotient-Divides :
      (a b : ℤ)
      → is_i64 a ≡ true
      → is_i64 b ≡ true
      → is_zero f checks (int b) ≡ false
      → 0 < magnitude b
      → ¬ IsExtreme a b
      → Divides a b (eval_binary_op f checks div (int a) (int b))
  unfolding eval_binary_op arithmetic_op fit_quotient
  quotient-Divides a b h g z m e =
      let i = div_ℤ-is_i64 a b h g e in
      inr (inr (div_ℤ a b, rw (z, i) refl, div_ℤ-IsTruncated a b m, i))

  extreme-eq : eval_binary_op f checks div (int (negsuc (2 ^ 63 - 1))) (int (negsuc 0)) ≡ panic
  unfolding eval_binary_op arithmetic_op fit_quotient is_i64 div_ℤ is_zero
  extreme-eq = refl

  is_zero-suc : (n : ℕ) → is_zero f checks (int (pos (suc n))) ≡ false
  unfolding is_zero
  is_zero-suc n = ground arith

  is_zero-negsuc : (n : ℕ) → is_zero f checks (int (negsuc n)) ≡ false
  unfolding is_zero
  is_zero-negsuc n = refl

  -- The division of two i64 values is an error where the second is 0, and a panic where the smallest i64 is
  -- divided by -1, in every build. Else it gives the quotient rounded towards zero, which is an i64: times
  -- the divisor it does not exceed the dividend, no greater number does so, signs aside, and its sign is
  -- that of the exact quotient.
  pub eval_binary_op-div :
      (a b : ℤ)
      → is_i64 a ≡ true
      → is_i64 b ≡ true
      → Divides a b (eval_binary_op f checks div (int a) (int b))
  unfolding eval_binary_op is_zero
  eval_binary_op-div a (pos zero) h g = inl (refl, refl)
  eval_binary_op-div a (pos (suc m)) h g =
      quotient-Divides a (pos (suc m)) h g (is_zero-suc m) (omega arith) (λ (e, g). absurd cc)
  eval_binary_op-div (pos n) (negsuc m) h g =
      quotient-Divides (pos n) (negsuc m) h g (is_zero-negsuc m) (omega arith) (λ (e, g). absurd cc)
  eval_binary_op-div (negsuc n) (negsuc (suc m)) h g =
      quotient-Divides (negsuc n) (negsuc (suc m)) h g (is_zero-negsuc (suc m)) (omega arith)
        (λ (e, g). absurd cc)
  eval_binary_op-div (negsuc n) (negsuc zero) h g = elim (Bool-cases (n == 2 ^ 63 - 1)) [
    | inl e ↦
        let same : n ≡ 2 ^ 63 - 1 = (==_iff _ _).0 e in
        inr (
          inl (
            (ap negsuc same, refl),
            ap (λ n. eval_binary_op f checks div (int (negsuc n)) (int (negsuc 0))) same
                ∙ extreme-eq,
          ))
    | inr e ↦
        quotient-Divides (negsuc n) (negsuc zero) h g (is_zero-negsuc zero) (omega arith)
          (λ x. let same : n ≡ 2 ^ 63 - 1 = ground (arith, x.0) in absurd (ground arith))
  ]
