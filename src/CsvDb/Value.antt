-- ===== src/CsvDb/Value.antt =====
-- Values, errors and the machine integers of src/agent/tools/csv_db/predicate.rs.
-- `f64` is a parameter (`Float`), and so are Rust's Unicode classes and case mapping (`Unicode`). An
-- `i64` is an integer in range; `checks` tells whether the build checks arithmetic overflow (debug)
-- or wraps (release).
use Prim.Native.Nat.{compare, Ordering}
use personal_productivity_ai.Common.{
  ◌≡◌, refl, ℕ, ◌+◌, ◌-◌, ◌/◌, ◌%◌, ◌^◌, Bool, true, ◌&&◌, Option, [], ◌∷◌, leb, ltb, if◌then◌else◌,
}
use personal_productivity_ai.Common.Text.{Text}
use personal_productivity_ai.Common.Int.{ℤ, pos, negsuc, pos_part, neg_part, sub_ℕ}

-- The type `f64` with the operations that the evaluator uses.
pub record Float : Type 1 where
  pub F : Type 0
  pub of_int : ℤ → F
  pub parse_float : Text → Option F
  pub float_eq : F → F → Bool
  pub partial_cmp : F → F → Option Ordering
  pub neg : F → F
  pub add : F → F → F
  pub sub : F → F → F
  pub mul : F → F → F
  pub div : F → F → F
  pub zero_float : F

-- `char::is_alphabetic`, `char::is_alphanumeric`, and `str::to_lowercase`. An alphabetic character
-- is alphanumeric.
pub record Unicode : Type 0 where
  pub is_alphabetic : ℕ → Bool
  pub is_alphanumeric : ℕ → Bool
  pub to_lowercase : Text → Text
  pub alphanumeric_of_alphabetic : (c : ℕ) → is_alphabetic c ≡ true → is_alphanumeric c ≡ true

pub data Value (F : Type 0) : Type 0 where
  int : ℤ → Value F
  float : F → Value F
  string : Text → Value F
  bool : Bool → Value F

pub data BinaryOp : Type 0 where
  eq ne lt le gt ge conj disj add sub mul div : BinaryOp

pub data UnaryOp : Type 0 where
  negation minus : UnaryOp

pub data Token (F : Type 0) : Type 0 where
  ident : Text → Token F
  int : ℤ → Token F
  float : F → Token F
  str : Text → Token F
  bool : Bool → Token F
  eq ne lt le gt ge conj disj negation plus minus star slash lparen rparen : Token F

-- The messages of the tool, with what they interpolate.
pub data Error (F : Type 0) : Type 0 where
  empty_expression unclosed_string invalid_float invalid_int missing_paren unexpected_end
        division_by_zero :
      Error F
  trailing_tokens single_equals single_ampersand single_bar : ℕ → Error F
  unexpected_char : ℕ → ℕ → Error F
  unexpected_token : Token F → Error F
  not_boolean cannot_negate : Value F → Error F
  not_found : Text → Error F
  cannot_compare no_arithmetic : Value F → Value F → Error F
  no_database database_exists unsupported_aggregate : Text → Error F
  cannot_read cannot_read_headers invalid_record cannot_write : Error F
  invalid_header missing_header : ℕ → Text → Error F

-- `panic` is an arithmetic panic; `out_of_fuel` is the model's own, and never returned.
pub data Outcome {ℓ} (F : Type 0) (A : Type ℓ) : Type ℓ where
  ok : A → Outcome F A
  err : Error F → Outcome F A
  panic out_of_fuel : Outcome F A

infixl 5 ◌>>=◌
abbrev pub ◌>>=◌ {ℓ κ} :
    {F : Type 0} {A : Type ℓ} {B : Type κ} → Outcome F A → (A → Outcome F B) → Outcome F B
ok a >>= f = f a
err e >>= f = err e
panic >>= f = panic
out_of_fuel >>= f = out_of_fuel

unfoldable pub is_i64 : ℤ → Bool
is_i64 z = leb (pos_part z) (2 ^ 63 - 1) && leb (neg_part z) (2 ^ 63)

-- The residue modulo 2^64, read as a two's complement number.
unfoldable pub wrap64 : ℤ → ℤ
wrap64 z =
    let u = (pos_part z + (2 ^ 64 - neg_part z % 2 ^ 64)) % 2 ^ 64 in
    if ltb u (2 ^ 63) then pos u else negsuc (2 ^ 64 - u - 1)

-- `a / b` on `i64`: the quotient is rounded towards zero.
unfoldable pub div_ℤ : ℤ → ℤ → ℤ
div_ℤ a b =
    sub_ℕ (pos_part a / pos_part b + neg_part a / neg_part b)
      (pos_part a / neg_part b + neg_part a / pos_part b)

module _ {F : Type 0} where
  -- The result of `+`, `-`, `*` or unary `-` on `i64`.
  unfoldable pub fit : Bool → ℤ → Outcome F ℤ
  unfolding is_i64 wrap64
  fit checks z = if is_i64 z then ok z else if checks then panic else ok (wrap64 z)

  -- `i64::MIN / -1` panics in every build.
  unfoldable pub fit_quotient : ℤ → Outcome F ℤ
  unfolding is_i64
  fit_quotient z = if is_i64 z then ok z else panic

  unfoldable pub as_bool : Value F → Outcome F Bool
  as_bool (bool b) = ok b
  as_bool v = err (not_boolean v)

-- Rust compares `i64`s, and texts by their bytes: the order of UTF-8 is that of the code points.
unfoldable pub cmp_ℤ : ℤ → ℤ → Ordering
cmp_ℤ a b = compare (pos_part a + neg_part b) (pos_part b + neg_part a)

abbrev pub then_cmp : Ordering → Ordering → Ordering
then_cmp Ordering.lt next = Ordering.lt
then_cmp Ordering.eq next = next
then_cmp Ordering.gt next = Ordering.gt

unfoldable pub cmp_text : Text → Text → Ordering
cmp_text [] [] = Ordering.eq
cmp_text [] (d ∷ t) = Ordering.lt
cmp_text (c ∷ s) [] = Ordering.gt
cmp_text (c ∷ s) (d ∷ t) = then_cmp (compare c d) (cmp_text s t)

-- An outcome that is a value comes from the values of its parts.
pub ok_of_bind {ℓ κ} :
    {F : Type 0} {A : Type ℓ} {B : Type κ} (r : Outcome F A) (k : A → Outcome F B) (b : B)
    → r >>= k ≡ ok b
    → (a : A) × (r ≡ ok a) × (k a ≡ ok b)
ok_of_bind (ok a) k b h = (a, refl, h)
ok_of_bind (err e) k b h = absurd cc
ok_of_bind panic k b h = absurd cc
ok_of_bind out_of_fuel k b h = absurd cc

pub eq_of_ok {ℓ} : {F : Type 0} {A : Type ℓ} {a b : A} → Path (Outcome F A) (ok a) (ok b) → a ≡ b
eq_of_ok h = cc
