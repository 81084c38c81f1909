-- ===== src/Table.antt =====
-- The widths of a table's columns: src/app/markdown/table_width/mod.rs and src/app/markdown/table_layout.rs
-- `f32` is a parameter (`F32`), and the laws of IEEE 754 that a theorem needs are its hypotheses
-- (`IsIeee`), which hold of all floats, infinities and NaN too. A vector that is read by an index is a
-- list, and `at` reads it; an index that is used is below the length. Numbers of lines, `i32` in the source, are
-- integers without a bound: tables of fewer than 2 ^ 31 lines, where no sum or difference overflows.
pub mod Columns
pub mod Lines
pub mod Shrink
pub mod Solve
pub mod Ftwa
pub mod Layout
pub mod Strategy
mod Tests
use personal_productivity_ai.Common.{
  ◌≡◌, ℕ, zero, suc, Bool, true, false, not, List, [], ◌∷◌, if◌then◌else◌,
}
use personal_productivity_ai.Common.Int.{ℤ}

-- The type `f32` with what the solver uses of it. `micro` is 1e-6, `milli` 1e-3 and `mega` 1e6.
pub record F32 : Type 1 where
  pub F : Type 0
  pub of_int : ℤ → F
  pub zero_float : F
  pub one_float : F
  pub half : F
  pub micro : F
  pub milli : F
  pub mega : F
  pub infinity : F
  pub lt : F → F → Bool
  pub le : F → F → Bool
  pub float_eq : F → F → Bool
  pub is_finite : F → Bool
  pub add : F → F → F
  pub sub : F → F → F
  pub mul : F → F → F
  pub div : F → F → F
  pub neg : F → F
  pub abs : F → F
  pub fmax : F → F → F
  pub fmin : F → F → F

-- Laws of the comparisons and the rounded operations. `lt a b` and `le a b` are false where one of the two
-- is NaN, and `fmax` and `fmin` give the other one then; so `le a a` is false of NaN alone.
pub record IsIeee (f : F32) : Type 0 where
  pub lt_irrefl : (a : f.F) → f.lt a a ≡ false
  pub lt_asym : (a b : f.F) → f.lt a b ≡ true → f.lt b a ≡ false
  pub lt_of_le : (a b : f.F) → f.le a b ≡ true → f.lt b a ≡ false
  pub le_of_finite :
      (a b : f.F) → f.is_finite a ≡ true → f.is_finite b ≡ true → f.lt b a ≡ false → f.le a b ≡ true
  pub lt-fmax : (a b : f.F) → f.lt (f.fmax a b) b ≡ false
  pub lt-fmin : (a b c : f.F) → f.lt a c ≡ false → f.lt b c ≡ false → f.lt (f.fmin a b) c ≡ false
  pub lt-add :
      (a x c : f.F) → f.lt a c ≡ false → f.lt x (f.zero_float) ≡ false → f.lt (f.add a x) c ≡ false
  pub lt-mul :
      (a b : f.F)
      → f.lt a (f.zero_float) ≡ false
      → f.lt b (f.zero_float) ≡ false
      → f.lt (f.mul a b) (f.zero_float) ≡ false
  pub lt-div :
      (a b : f.F)
      → f.lt a (f.zero_float) ≡ false
      → f.lt (f.zero_float) b ≡ true
      → f.lt (f.div a b) (f.zero_float) ≡ false
  pub lt_milli : f.lt (f.milli) (f.zero_float) ≡ false
  pub le_of_not_lt :
      (a b : f.F) → f.le a a ≡ true → f.le b b ≡ true → f.lt b a ≡ false → f.le a b ≡ true
  pub le_trans : (a b c : f.F) → f.le a b ≡ true → f.le b c ≡ true → f.le a c ≡ true
  pub le_self : (a b : f.F) → f.le a b ≡ true → f.le b b ≡ true
  pub is_finite_zero : f.is_finite (f.zero_float) ≡ true
  pub is_finite-add_milli :
      (a : f.F) → f.is_finite a ≡ true → f.le (f.add a (f.milli)) (f.add a (f.milli)) ≡ true
  pub le-fmax : (a b : f.F) → f.le b b ≡ true → f.le b (f.fmax a b) ≡ true
  pub le-add :
      (a b : f.F)
      → f.le (f.zero_float) a ≡ true
      → f.le (f.zero_float) b ≡ true
      → f.le (f.zero_float) (f.add a b) ≡ true

-- `partial_cmp`, with `Equal` where two floats cannot be compared.
pub data Order : Type 0 where
  less equal greater : Order

module _ (f : F32) where
  abbrev pub cmp : f.F → f.F → Order
  cmp a b = if f.lt a b then less else if f.lt b a then greater else equal

  pub record Breakpoint : Type 0 where
    pub width : f.F
    pub extra_lines : ℤ

  pub record ColumnWidths : Type 0 where
    pub widths : List (f.F)
    pub needs_horizontal_scroll : Bool

  -- `iter().sum()`.
  unfoldable pub sum_from : f.F → List (f.F) → f.F
  sum_from s [] = s
  sum_from s (x ∷ xs) = sum_from (f.add s x) xs

  abbrev pub sum : List (f.F) → f.F
  sum xs = sum_from (f.zero_float) xs
