-- ===== src/CsvDb/Eval/Laws.antt =====
-- The connectives of src/agent/tools/csv_db/predicate.rs, and the order on texts.
use Prim.Native.Nat.{Ordering}
use personal_productivity_ai.Common.{◌≡◌, Bool, true, false}
use personal_productivity_ai.Common.Dict.{Dict}
use personal_productivity_ai.CsvDb.Value.{Float, Value, bool, conj, disj, negation, ok}
use personal_productivity_ai.CsvDb.Parser.{Expr, unary, binary}
use personal_productivity_ai.CsvDb.Eval.{eval_expr}

module _ (f : Float) (checks : Bool) where
  open f use {F}

  -- What `and` and `or` make of their operands: De Morgan's law, and that the right operand is not evaluated
  -- where the left one decides. An operand that is not evaluated cannot fail, so any other may stand for it.
  pub record IsLazy (context : Dict (Value F)) (a b : Expr F) : Type 0 where
    pub de_morgan :
        eval_expr f checks context (unary negation (binary conj a b))
        ≡ eval_expr f checks context (binary disj (unary negation a) (unary negation b))
    pub lazy_conj :
        eval_expr f checks context a ≡ ok (bool false)
        → eval_expr f checks context (binary conj a b) ≡ ok (bool false)
    pub lazy_disj :
        eval_expr f checks context a ≡ ok (bool true)
        → eval_expr f checks context (binary disj a b) ≡ ok (bool true)
    pub strict_conj :
        (c : Bool)
        → eval_expr f checks context a ≡ ok (bool true)
        → eval_expr f checks context b ≡ ok (bool c)
        → eval_expr f checks context (binary conj a b) ≡ ok (bool c)
    pub strict_disj :
        (c : Bool)
        → eval_expr f checks context a ≡ ok (bool false)
        → eval_expr f checks context b ≡ ok (bool c)
        → eval_expr f checks context (binary disj a b) ≡ ok (bool c)

flip : Ordering → Ordering
flip Ordering.lt = Ordering.gt
flip Ordering.eq = Ordering.eq
flip Ordering.gt = Ordering.lt
