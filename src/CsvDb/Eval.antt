-- ===== src/CsvDb/Eval.antt =====
-- The evaluator of src/agent/tools/csv_db/predicate.rs.
-- A context is the list of the columns' values in a row. `checks` tells whether the build checks
-- arithmetic overflow.
pub mod Laws
pub mod Division
use Prim.Native.Nat.{Ordering}
use personal_productivity_ai.Common.{
  ℕ, Bool, true, false, not, Option, none, some, ◌==◌, if◌then◌else◌,
}
use personal_productivity_ai.Common.Text.{Text, text_eq}
use personal_productivity_ai.Common.Dict.{Dict, lookup}
use personal_productivity_ai.Common.Int.{
  ℤ, pos, negsuc, pos_part, neg_part, sub_ℕ, ◌+ℤ◌, ◌-ℤ◌, ◌*ℤ◌,
}
use personal_productivity_ai.CsvDb.Value.{
  Float, Value, int, float, string, bool, BinaryOp, eq, ne, lt, le, gt, ge, conj, disj, add, sub,
  mul, div, UnaryOp, minus, negation, Error, not_found, cannot_negate, cannot_compare,
  no_arithmetic, division_by_zero, Outcome, ok, err, panic, ◌>>=◌, fit, fit_quotient, div_ℤ,
  as_bool, cmp_ℤ, cmp_text,
}
use personal_productivity_ai.CsvDb.Parser.{Expr, literal, identifier, unary, binary}

-- The comparisons of an ordering, the `c` of the source, with 0.
abbrev pub is_lt : Ordering → Bool
is_lt Ordering.lt = true
is_lt _ = false

abbrev pub is_gt : Ordering → Bool
is_gt Ordering.gt = true
is_gt _ = false

abbrev pub is_eq : Ordering → Bool
is_eq Ordering.eq = true
is_eq _ = false

module _ (f : Float) (checks : Bool) where
  open f use {F, of_int, float_eq, partial_cmp, neg, zero_float}

  -- A comparison with NaN counts as less.
  abbrev pub or_less : Option Ordering → Ordering
  or_less none = Ordering.lt
  or_less (some o) = o

  unfoldable pub values_equal : Value F → Value F → Bool
  unfolding cmp_ℤ text_eq
  values_equal (int a) (int b) = is_eq (cmp_ℤ a b)
  values_equal (float a) (float b) = float_eq a b
  values_equal (int a) (float b) = float_eq (of_int a) b
  values_equal (float a) (int b) = float_eq a (of_int b)
  values_equal (string a) (string b) = text_eq a b
  values_equal (bool true) (bool b) = b
  values_equal (bool false) (bool b) = not b
  values_equal _ _ = false

  unfoldable pub compare_values : Value F → Value F → Outcome F Ordering
  unfolding cmp_ℤ cmp_text
  compare_values (int a) (int b) = ok (cmp_ℤ a b)
  compare_values (float a) (float b) = ok (or_less (partial_cmp a b))
  compare_values (int a) (float b) = ok (or_less (partial_cmp (of_int a) b))
  compare_values (float a) (int b) = ok (or_less (partial_cmp a (of_int b)))
  compare_values (string a) (string b) = ok (cmp_text a b)
  compare_values a b = err (cannot_compare a b)

  unfoldable pub arithmetic_op :
      (ℤ → ℤ → Outcome F ℤ) → (F → F → F) → Value F → Value F → Outcome F (Value F)
  arithmetic_op int_op float_op (int a) (int b) = int_op a b >>= λ z. ok (int z)
  arithmetic_op int_op float_op (float a) (float b) = ok (float (float_op a b))
  arithmetic_op int_op float_op (int a) (float b) = ok (float (float_op (of_int a) b))
  arithmetic_op int_op float_op (float a) (int b) = ok (float (float_op a (of_int b)))
  arithmetic_op int_op float_op a b = err (no_arithmetic a b)

  unfoldable pub is_zero : Value F → Bool
  is_zero (int (pos n)) = n == 0
  is_zero (int (negsuc n)) = false
  is_zero (float x) = float_eq x zero_float
  is_zero v = false

  -- The operators but `and` and `or`, which the evaluator treats itself: `panic` is `unreachable!`.
  unfoldable pub eval_binary_op : BinaryOp → Value F → Value F → Outcome F (Value F)
  unfolding values_equal compare_values arithmetic_op is_zero fit fit_quotient div_ℤ
  eval_binary_op eq l r = ok (bool (values_equal l r))
  eval_binary_op ne l r = ok (bool (not (values_equal l r)))
  eval_binary_op lt l r = compare_values l r >>= λ c. ok (bool (is_lt c))
  eval_binary_op le l r = compare_values l r >>= λ c. ok (bool (not (is_gt c)))
  eval_binary_op gt l r = compare_values l r >>= λ c. ok (bool (is_gt c))
  eval_binary_op ge l r = compare_values l r >>= λ c. ok (bool (not (is_lt c)))
  eval_binary_op add l r = arithmetic_op (λ a b. fit checks (a +ℤ b)) f.add l r
  eval_binary_op sub l r = arithmetic_op (λ a b. fit checks (a -ℤ b)) f.sub l r
  eval_binary_op mul l r = arithmetic_op (λ a b. fit checks (a *ℤ b)) f.mul l r
  eval_binary_op div l r =
      if is_zero r
      then err division_by_zero
      else arithmetic_op (λ a b. fit_quotient (div_ℤ a b)) f.div l r
  eval_binary_op conj l r = panic
  eval_binary_op disj l r = panic

  unfoldable pub negate : Value F → Outcome F (Value F)
  unfolding fit
  negate (int i) = fit checks (pos 0 -ℤ i) >>= λ z. ok (int z)
  negate (float x) = ok (float (neg x))
  negate v = err (cannot_negate v)

  unfoldable pub eval_unary : UnaryOp → Value F → Outcome F (Value F)
  unfolding as_bool negate
  eval_unary negation v = as_bool v >>= λ b. ok (bool (not b))
  eval_unary minus v = negate v

  -- The rest of `and` and `or`: the right operand is evaluated only where the left does not decide.
  unfoldable pub eval_conj : Outcome F (Value F) → Bool → Outcome F (Value F)
  unfolding as_bool
  eval_conj r false = ok (bool false)
  eval_conj r true = r >>= λ v. as_bool v >>= λ b. ok (bool b)

  unfoldable pub eval_disj : Outcome F (Value F) → Bool → Outcome F (Value F)
  unfolding as_bool
  eval_disj r true = ok (bool true)
  eval_disj r false = r >>= λ v. as_bool v >>= λ b. ok (bool b)

  abbrev pub found : Text → Option (Value F) → Outcome F (Value F)
  found name none = err (not_found name)
  found name (some v) = ok v

  -- What a binary expression does with the outcomes of its operands.
  unfoldable pub eval_binary :
      BinaryOp → Outcome F (Value F) → Outcome F (Value F) → Outcome F (Value F)
  unfolding as_bool eval_binary_op eval_conj eval_disj
  eval_binary conj l r = l >>= λ v. as_bool v >>= eval_conj r
  eval_binary disj l r = l >>= λ v. as_bool v >>= eval_disj r
  eval_binary op l r = l >>= λ v. r >>= eval_binary_op op v

  unfoldable pub eval_expr : Dict (Value F) → Expr F → Outcome F (Value F)
  unfolding lookup eval_binary eval_unary
  eval_expr context (literal v) = ok v
  eval_expr context (identifier name) = found name (lookup name context)
  eval_expr context (unary op e) = eval_expr context e >>= eval_unary op
  eval_expr context (binary op l r) = eval_binary op (eval_expr context l) (eval_expr context r)

  -- `Predicate::eval_boolean`
  unfoldable pub eval_boolean : Dict (Value F) → Expr F → Outcome F Bool
  unfolding eval_expr as_bool
  eval_boolean context e = eval_expr context e >>= as_bool
