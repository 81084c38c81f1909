-- ===== src/CsvDb/Parser.antt =====
-- The recursive descent parser of src/agent/tools/csv_db/predicate.rs, and `Predicate::parse`.
-- A parser's state is the list of the tokens from `pos` on. The loops take the tokens left as fuel,
-- and the descent into parentheses takes fuel, for which one more than the tokens is enough.
pub mod Total
use personal_productivity_ai.Common.{
  ℕ, zero, suc, ◌-◌, Bool, Option, none, some, List, [], ◌∷◌, length, if◌then◌else◌,
}
use personal_productivity_ai.Common.Text.{Text}
use personal_productivity_ai.Common.Trim.{trim, is_empty}
use personal_productivity_ai.CsvDb.Value.{
  Float, Unicode, Value, BinaryOp, eq, ne, lt, le, gt, ge, conj, disj, add, sub, mul, div, UnaryOp,
  minus, negation, Token, lparen, rparen, Error, empty_expression, trailing_tokens, missing_paren,
  unexpected_end, unexpected_token, Outcome, ok, err, panic, out_of_fuel, ◌>>=◌,
}
use personal_productivity_ai.CsvDb.Lexer.{tokenize}

pub data Expr (F : Type 0) : Type 0 where
  literal : Value F → Expr F
  identifier : Text → Expr F
  unary : UnaryOp → Expr F → Expr F
  binary : BinaryOp → Expr F → Expr F → Expr F

abbrev pub Parse : Type 0 → Type 0
Parse F = List (Token F) → Outcome F (Expr F × List (Token F))

module _ {F : Type 0} where
  -- The operator that each level's loop takes at a token.
  unfoldable pub or_op : Token F → Option BinaryOp
  or_op Token.disj = some BinaryOp.disj
  or_op _ = none

  unfoldable pub and_op : Token F → Option BinaryOp
  and_op Token.conj = some BinaryOp.conj
  and_op _ = none

  unfoldable pub comparison_op : Token F → Option BinaryOp
  comparison_op Token.eq = some BinaryOp.eq
  comparison_op Token.ne = some BinaryOp.ne
  comparison_op Token.lt = some BinaryOp.lt
  comparison_op Token.le = some BinaryOp.le
  comparison_op Token.gt = some BinaryOp.gt
  comparison_op Token.ge = some BinaryOp.ge
  comparison_op _ = none

  unfoldable pub additive_op : Token F → Option BinaryOp
  additive_op Token.plus = some BinaryOp.add
  additive_op Token.minus = some BinaryOp.sub
  additive_op _ = none

  unfoldable pub multiplicative_op : Token F → Option BinaryOp
  multiplicative_op Token.star = some BinaryOp.mul
  multiplicative_op Token.slash = some BinaryOp.div
  multiplicative_op _ = none

  -- `self.peek()` against an operator table, with the tokens behind it.
  abbrev pub peek_op :
      (Token F → Option BinaryOp) → List (Token F) → Option (BinaryOp × List (Token F))
  peek_op op [] = none
  peek_op op (t ∷ ts) = elim (op t) [ none ↦ none | some o ↦ some (o, ts) ]

  abbrev pub loop_step :
      (Expr F → Parse F)
      → Parse F
      → Expr F
      → List (Token F)
      → Option (BinaryOp × List (Token F))
      → Outcome F (Expr F × List (Token F))
  loop_step again operand left ts none = ok (left, ts)
  loop_step again operand left ts (some (o, rest)) = do
    (right, rest') ← operand rest
    again (binary o left right) rest'

  -- The loop that `parse_or`, `parse_and`, `parse_comparison`, `parse_additive` and
  -- `parse_multiplicative` share: operators of one level, to the left.
  unfoldable pub left_loop : ℕ → (Token F → Option BinaryOp) → Parse F → Expr F → Parse F
  left_loop zero op operand left ts = out_of_fuel
  left_loop (suc fuel) op operand left ts =
      loop_step (left_loop fuel op operand) operand left ts (peek_op op ts)

  unfoldable pub level : (Token F → Option BinaryOp) → Parse F → Parse F
  unfolding left_loop
  level op operand ts = do
    (left, rest) ← operand ts
    left_loop (suc (length rest)) op operand left rest

  abbrev pub close_paren : Expr F → List (Token F) → Outcome F (Expr F × List (Token F))
  close_paren inner (Token.rparen ∷ rest) = ok (inner, rest)
  close_paren inner (_ ∷ rest) = err missing_paren
  close_paren inner [] = err missing_paren

  -- `parse_primary`, where `parse_inner` parses between parentheses.
  unfoldable pub parse_primary : Parse F → Parse F
  parse_primary parse_inner (Token.int i ∷ ts) = ok (literal (Value.int i), ts)
  parse_primary parse_inner (Token.float x ∷ ts) = ok (literal (Value.float x), ts)
  parse_primary parse_inner (Token.str s ∷ ts) = ok (literal (Value.string s), ts)
  parse_primary parse_inner (Token.bool b ∷ ts) = ok (literal (Value.bool b), ts)
  parse_primary parse_inner (Token.ident name ∷ ts) = ok (identifier name, ts)
  parse_primary parse_inner (Token.lparen ∷ ts) = do
    (inner, rest) ← parse_inner ts
    close_paren inner rest
  parse_primary parse_inner (t ∷ ts) = err (unexpected_token t)
  parse_primary parse_inner [] = err unexpected_end

  unfoldable pub parse_unary : Parse F → Parse F
  unfolding parse_primary
  parse_unary parse_inner (Token.negation ∷ ts) = do
    (inner, rest) ← parse_unary parse_inner ts
    ok (unary negation inner, rest)
  parse_unary parse_inner (Token.minus ∷ ts) = do
    (inner, rest) ← parse_unary parse_inner ts
    ok (unary minus inner, rest)
  parse_unary parse_inner ts = parse_primary parse_inner ts

  unfoldable pub parse_multiplicative : Parse F → Parse F
  unfolding multiplicative_op parse_unary level
  parse_multiplicative parse_inner = level multiplicative_op (parse_unary parse_inner)

  unfoldable pub parse_additive : Parse F → Parse F
  unfolding additive_op parse_multiplicative
  parse_additive parse_inner = level additive_op (parse_multiplicative parse_inner)

  unfoldable pub parse_comparison : Parse F → Parse F
  unfolding comparison_op parse_additive
  parse_comparison parse_inner = level comparison_op (parse_additive parse_inner)

  unfoldable pub parse_and : Parse F → Parse F
  unfolding and_op parse_comparison
  parse_and parse_inner = level and_op (parse_comparison parse_inner)

  unfoldable pub parse_or : Parse F → Parse F
  unfolding or_op parse_and
  parse_or parse_inner = level or_op (parse_and parse_inner)

  unfoldable pub parse_expr : ℕ → Parse F
  unfolding parse_or
  parse_expr zero ts = out_of_fuel
  parse_expr (suc fuel) ts = parse_or (parse_expr fuel) ts

  -- The check for trailing tokens, at position `pos`.
  abbrev pub at_end : ℕ → Expr F × List (Token F) → Outcome F (Expr F)
  at_end len (e, []) = ok e
  at_end len (e, t ∷ ts) = err (trailing_tokens (len - length (t ∷ ts)))

  -- The parser's part of `Predicate::parse`.
  unfoldable pub parse_tokens : List (Token F) → Outcome F (Expr F)
  unfolding parse_expr
  parse_tokens ts = parse_expr (suc (length ts)) ts >>= at_end (length ts)

module _ (f : Float) (u : Unicode) where
  open f use {F}

  -- `Predicate::parse`
  unfoldable pub parse : Text → Outcome F (Expr F)
  unfolding trim is_empty tokenize parse_tokens
  parse input =
      let trimmed = trim input in
      if is_empty trimmed
      then err empty_expression
      else do ts ← tokenize f u trimmed; parse_tokens ts
