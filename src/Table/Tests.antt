-- ===== src/Table/Tests.antt =====
-- Runs of the width algorithm and the witnesses, with natural numbers for floats.
use personal_productivity_ai.Common.{
  ◌≡◌, ◌↔◌, refl, ℕ, ◌+◌, ◌-◌, ◌*◌, ◌/◌, true, false, none, some, List, [], ◌∷◌, ltb, leb, ◌==◌,
  min, max, arith,
}
use personal_productivity_ai.Common.Int.{pos, pos_part, ◌≤ℤ◌}
use personal_productivity_ai.Table.{F32, IsIeee, Breakpoint, ColumnWidths, sum_from}
use personal_productivity_ai.Table.Strategy.{
  proportional_to_slack, breakpoint_water_fill, water_fill_ratio, lagrange_penalty,
  hybrid_min_penalty_water_fill,
}
use personal_productivity_ai.Table.Lines.{greedy_line_count}
use personal_productivity_ai.Table.Lines.Monotone.{IsOrdered, greedy_line_count-le}
use personal_productivity_ai.Table.Shrink.Wrap.{positives_of, wrap_set_of}
use personal_productivity_ai.Table.Shrink.Ranked.{IsRanked}
use personal_productivity_ai.Table.Shrink.Minimal.{IsShortest, wrap_set_of-IsShortest}
use personal_productivity_ai.Table.Ftwa.{snap, is_valid, ftwa}
use personal_productivity_ai.Table.Ftwa.Sound.{HasWidths, ftwa-returns}
use personal_productivity_ai.Table.Ftwa.Panics.{is_accepted, ftwa-panics}
use personal_productivity_ai.Table.Ftwa.Narrowed.{IsKept, ftwa-Keeps}
use personal_productivity_ai.Table.Layout.{
  TextMeasurer, TableLayoutBuilder, TableLayout, columns_of, measures_of, content_avail, build,
}
use personal_productivity_ai.Table.Layout.Built.{IsLaidOut, build-IsLaidOut}

abbrev thousandths : F32
thousandths = record {
  F = ℕ;
  of_int = λ n. 1000 * pos_part n;
  zero_float = 0;
  one_float = 1000;
  half = 500;
  micro = 0;
  milli = 1;
  mega = 1000000000;
  infinity = 1000000000000;
  lt = ltb;
  le = leb;
  float_eq = ◌==◌;
  is_finite = λ a. true;
  add = λ a b. a + b;
  sub = λ a b. a - b;
  mul = λ a b. a * b / 1000;
  div = λ a b. 1000 * a / b;
  neg = λ a. a;
  abs = λ a. a;
  fmax = max;
  fmin = min;
}

thousandths-IsIeee : IsIeee thousandths
thousandths-IsIeee = record {
  lt_irrefl = λ a. ground arith;
  lt_asym = λ a b h. ground arith;
  lt_of_le = λ a b h. ground arith;
  le_of_finite = λ a b g h k. ground arith;
  lt-fmax = λ a b. ground arith;
  lt-fmin = λ a b c h k. ground arith;
  lt-add = λ a x c h k. ground arith;
  lt-mul = λ a b h k. ground arith;
  lt-div = λ a b h k. ground arith;
  lt_milli = refl;
  le_of_not_lt = λ a b g h k. ground arith;
  le_trans = λ a b c h k. ground arith;
  le_self = λ a b h. ground arith;
  is_finite_zero = refl;
  is_finite-add_milli = λ a h. ground arith;
  le-fmax = λ a b h. ground arith;
  le-add = λ a b h k. ground arith;
}

thousandths-IsOrdered : IsOrdered thousandths
thousandths-IsOrdered = record {
  le_trans = λ a b c h k. ground arith;
  lt_of_le_lt = λ a b c h k. ground arith;
  lt_of_lt_le = λ a b c h k. ground arith;
  add_mono = λ a b c g h k. ground arith;
  le-add_right = λ a b g h. ground arith;
  le_micro = refl;
  le_zero = refl;
}

abbrev Bps : Type 0
Bps = List (List (Breakpoint thousandths))

abbrev bps : Bps
bps =
    (record { width = 20000; extra_lines = pos 3 }
      ∷ record { width = 60000; extra_lines = pos 1 }
      ∷ [])
    ∷ []
    ∷ []

abbrev wide : List ℕ
wide = 100000 ∷ 100000 ∷ []

abbrev slim : List ℕ
slim = 10000 ∷ 50000 ∷ []

abbrev narrowed : ColumnWidths thousandths
narrowed = record { widths = 20000 ∷ 100000 ∷ []; needs_horizontal_scroll = false }

abbrev scrolled : ColumnWidths thousandths
scrolled = record { widths = slim; needs_horizontal_scroll = true }

proportional_run : ftwa thousandths wide slim bps 120000 proportional_to_slack ≡ some narrowed
unfolding ftwa
proportional_run = refl

water_run : ftwa thousandths wide slim bps 120000 breakpoint_water_fill ≡ some narrowed
unfolding ftwa
water_run = refl

narrow_run : ftwa thousandths wide slim bps 50000 hybrid_min_penalty_water_fill ≡ some scrolled
unfolding ftwa
narrow_run = refl

-- The first column has tokens that are 50 wide and is made 20 wide, without a scroll.
lagrange_run :
    ftwa thousandths wide
      (50000 ∷ 40000 ∷ [])
      ((record { width = 20000; extra_lines = pos 3 }
          ∷ record { width = 80000; extra_lines = pos 1 }
          ∷ [])
        ∷ (record { width = 60000; extra_lines = pos 1 } ∷ [])
        ∷ [])
      110000
      lagrange_penalty
    ≡ some (record { widths = 20000 ∷ 90000 ∷ []; needs_horizontal_scroll = false })
unfolding ftwa
lagrange_run = refl

-- A single token that is wider than the column takes a second line.
phantom_run : greedy_line_count thousandths (100000 ∷ []) 10000 50000 ≡ pos 2
unfolding greedy_line_count
phantom_run = refl

slim-IsSnapped : snap thousandths wide slim ≡ some slim
unfolding snap
slim-IsSnapped = refl

slim-IsValid : is_valid thousandths wide slim 120000 ≡ true
unfolding is_valid
slim-IsValid = refl

ftwa-returns_example :
    (r : ColumnWidths thousandths) × ((ftwa thousandths wide slim bps 120000 water_fill_ratio
        ≡ some r)
      × HasWidths thousandths water_fill_ratio slim 120000 r)
ftwa-returns_example =
    ftwa-returns thousandths thousandths-IsIeee wide slim slim bps 120000 water_fill_ratio refl refl
      slim-IsValid slim-IsSnapped

ftwa-panics_example :
    (ftwa thousandths wide (120000 ∷ 50000 ∷ []) bps 120000 water_fill_ratio ≡ none)
    ↔ (is_accepted thousandths wide (120000 ∷ 50000 ∷ []) bps 120000 ≡ false)
ftwa-panics_example =
    ftwa-panics thousandths thousandths-IsIeee wide (120000 ∷ 50000 ∷ []) bps 120000
      water_fill_ratio

ftwa-Keeps_example :
    IsKept thousandths (wrap_set_of thousandths wide slim 120000) wide (narrowed.widths)
ftwa-Keeps_example =
    ftwa-Keeps thousandths wide slim slim bps 120000 breakpoint_water_fill narrowed refl
      slim-IsSnapped water_run refl

wrap_set_of-IsShortest_example :
    IsRanked thousandths wide slim (positives_of thousandths wide slim)
    × IsShortest thousandths wide slim 80000 0
        (positives_of thousandths wide slim)
        (wrap_set_of thousandths wide slim 120000)
unfolding sum_from
wrap_set_of-IsShortest_example =
    wrap_set_of-IsShortest thousandths wide slim thousandths-IsIeee 120000 refl

abbrev tokens : List ℕ
tokens = 20000 ∷ 30000 ∷ 25000 ∷ []

greedy_line_count-le_example :
    greedy_line_count thousandths tokens 10000 65000
    ≤ℤ greedy_line_count thousandths tokens 10000 40000
greedy_line_count-le_example =
    greedy_line_count-le thousandths thousandths-IsOrdered tokens 10000 40000 65000 refl refl refl
      ((refl, refl), ((refl, refl), ((refl, refl), _)))

-- A cell is given by the widths of its tokens.
abbrev measurer : TextMeasurer thousandths (List ℕ)
measurer = record {
  measure_cell = λ cell. record { max_width = 100000; min_width = 30000; tokens = cell };
  space_width = 10000;
  line_height = 20000;
}

abbrev builder : TableLayoutBuilder thousandths (List ℕ)
builder = record {
  measurer = measurer;
  strategy = breakpoint_water_fill;
  available_width = 150000;
  padding_h = 4000;
  padding_v = 2000;
  col_spacing = 10000;
  row_spacing = 2000;
}

abbrev ast : List (List (List ℕ))
ast = (tokens ∷ tokens ∷ []) ∷ (tokens ∷ []) ∷ []

ast-IsValid :
    is_valid thousandths
      ((measures_of thousandths (List ℕ) builder ast).max_w)
      ((measures_of thousandths (List ℕ) builder ast).min_w)
      (content_avail thousandths (List ℕ) builder (columns_of thousandths (List ℕ) ast))
    ≡ true
unfolding is_valid measures_of content_avail columns_of
ast-IsValid = refl

ast-IsSnapped :
    snap thousandths
      ((measures_of thousandths (List ℕ) builder ast).max_w)
      ((measures_of thousandths (List ℕ) builder ast).min_w)
    ≡ some (34000 ∷ 34000 ∷ [])
unfolding snap measures_of
ast-IsSnapped = refl

ast_columns : leb (columns_of thousandths (List ℕ) ast) 0 ≡ false
unfolding columns_of
ast_columns = refl

build-IsLaidOut_example :
    (layout : TableLayout thousandths (List ℕ)) × ((build thousandths (List ℕ) builder ast
        ≡ some layout)
      × IsLaidOut thousandths (List ℕ) builder ast (34000 ∷ 34000 ∷ []) layout)
build-IsLaidOut_example =
    build-IsLaidOut thousandths (List ℕ) thousandths-IsIeee builder ast (34000 ∷ 34000 ∷ [])
      ast_columns ast-IsValid ast-IsSnapped
