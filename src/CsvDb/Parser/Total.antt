-- ===== src/CsvDb/Parser/Total.antt =====
-- The parser of src/agent/tools/csv_db/predicate.rs ends on every list of tokens.
use personal_productivity_ai.Common.{
  ℕ, zero, suc, ◌≤◌, ◌<◌, ◌≡◌, refl, inl, inr, Option, none, some, List, [], ◌∷◌, length, arith,
  Bool-cases,
}
use personal_productivity_ai.Common.Text.{Text}
use personal_productivity_ai.Common.Trim.{trim, is_empty}
use personal_productivity_ai.CsvDb.Value.{
  Float, Unicode, BinaryOp, Token, Outcome, ok, err, panic, out_of_fuel, ◌>>=◌,
}
use personal_productivity_ai.CsvDb.Lexer.{tokenize}
use personal_productivity_ai.CsvDb.Lexer.Total.{IsReturned, IsReturned-bind, tokenize-IsReturned}
use personal_productivity_ai.CsvDb.Parser.{
  Expr, binary, Parse, peek_op, loop_step, left_loop, level, close_paren, parse_primary,
  parse_unary, parse_multiplicative, parse_additive, parse_comparison, parse_and, parse_or,
  parse_expr, at_end, parse_tokens, parse, or_op, and_op, comparison_op, additive_op,
  multiplicative_op,
}

module _ {F : Type 0} where
  -- An expression was read that leaves fewer than `n` tokens, or the tokens are refused.
  abbrev pub Reads : ℕ → Outcome F (Expr F × List (Token F)) → Type 0
  Reads n (ok (e, rest)) = length rest < n
  Reads n (err e) = Unit
  Reads n panic = ⊥
  Reads n out_of_fuel = ⊥

  Reads-bind :
      (n m : ℕ) (r : Outcome F (Expr F × List (Token F)))
      (k : Expr F × List (Token F) → Outcome F (Expr F × List (Token F)))
      → Reads n r
      → ((e : Expr F) (rest : List (Token F)) → length rest < n → Reads m (k (e, rest)))
      → Reads m (r >>= k)
  Reads-bind n m (ok (e, rest)) k h g = g e rest h
  Reads-bind n m (err e) k h g = tt
  Reads-bind n m panic k h g = h
  Reads-bind n m out_of_fuel k h g = h

  Reads-mono : {m n : ℕ} (r : Outcome F (Expr F × List (Token F))) → Reads m r → m ≤ n → Reads n r
  Reads-mono (ok (e, rest)) h l = omega arith
  Reads-mono (err e) h l = tt
  Reads-mono panic h l = h
  Reads-mono out_of_fuel h l = h

  -- A parser that reads at least one token of every list of at most `n`.
  abbrev IsReader : ℕ → Parse F → Type 0
  IsReader n p = (ts : List (Token F)) → length ts ≤ n → Reads (length ts) (p ts)

  loop_step-Reads :
      (n : ℕ) (again : Expr F → Parse F) (operand : Parse F) (left : Expr F) (ts : List (Token F))
      (o : Option (BinaryOp × List (Token F)))
      → ((op : BinaryOp) (rest : List (Token F)) → o ≡ some (op, rest) → length rest < length ts)
      → length ts ≤ n
      → IsReader n operand
      → ((e : Expr F) (rest : List (Token F))
          → length rest < length ts
          → Reads (suc (length rest)) (again e rest))
      → Reads (suc (length ts)) (loop_step again operand left ts o)
  loop_step-Reads n again operand left ts none h l r g = omega arith
  loop_step-Reads n again operand left ts (some (op, rest)) h l r g =
      let lt = h op rest refl in
      Reads-bind _ _ (operand rest) _ (r rest (omega arith)) λ e rest' lt'.
        Reads-mono (again (binary op left e) rest') (g _ rest' (omega arith)) (omega arith)

  peek_op_shorter :
      (op : Token F → Option BinaryOp) (ts : List (Token F)) (o : BinaryOp) (rest : List (Token F))
      → peek_op op ts ≡ some (o, rest)
      → length rest < length ts
  peek_op_shorter op [] o rest h = cc
  peek_op_shorter op (t ∷ ts) o rest h = ground (arith, h)

  left_loop-Reads :
      (n fuel : ℕ) (op : Token F → Option BinaryOp) (operand : Parse F) (left : Expr F)
      (ts : List (Token F))
      → IsReader n operand
      → length ts ≤ n
      → length ts < fuel
      → Reads (suc (length ts)) (left_loop fuel op operand left ts)
  unfolding left_loop
  left_loop-Reads n zero op operand left ts r l f = absurd (omega arith)
  left_loop-Reads n (suc fuel) op operand left ts r l f =
      loop_step-Reads n (left_loop fuel op operand) operand left ts (peek_op op ts)
        (peek_op_shorter op ts) l r
        λ e rest lt. left_loop-Reads n fuel op operand e rest r (omega arith) (omega arith)

  level-IsReader :
      (n : ℕ) (op : Token F → Option BinaryOp) (operand : Parse F)
      → IsReader n operand
      → IsReader n (level op operand)
  unfolding level
  level-IsReader n op operand r ts l = Reads-bind _ _ (operand ts) _ (r ts l) λ e rest lt.
      Reads-mono (left_loop (suc (length rest)) op operand e rest)
        (left_loop-Reads n (suc (length rest)) op operand e rest r (omega arith) (omega arith))
        (omega arith)

  close_paren-Reads :
      (e : Expr F) (rest : List (Token F)) (n : ℕ) → length rest < n → Reads n (close_paren e rest)
  close_paren-Reads e [] n h = tt
  close_paren-Reads e (Token.rparen ∷ rest) n h = omega arith
  close_paren-Reads e (_ ∷ rest) n h = tt

  parse_primary-IsReader :
      (n : ℕ) (inner : Parse F) → IsReader n inner → IsReader (suc n) (parse_primary inner)
  unfolding parse_primary
  parse_primary-IsReader n inner r [] l = tt
  parse_primary-IsReader n inner r (Token.lparen ∷ ts) l =
      Reads-bind _ _ (inner ts) _ (r ts (omega arith))
        λ e rest lt. close_paren-Reads e rest _ (omega arith)
  parse_primary-IsReader n inner r (Token.int i ∷ ts) l = omega arith
  parse_primary-IsReader n inner r (Token.float i ∷ ts) l = omega arith
  parse_primary-IsReader n inner r (Token.str i ∷ ts) l = omega arith
  parse_primary-IsReader n inner r (Token.bool i ∷ ts) l = omega arith
  parse_primary-IsReader n inner r (Token.ident i ∷ ts) l = omega arith
  parse_primary-IsReader n inner r (_ ∷ ts) l = tt

  parse_unary-IsReader :
      (n : ℕ) (inner : Parse F) → IsReader n inner → IsReader (suc n) (parse_unary inner)
  unfolding parse_unary
  parse_unary-IsReader n inner r (Token.negation ∷ ts) l =
      Reads-bind _ _ (parse_unary inner ts) _ (parse_unary-IsReader n inner r ts (omega arith))
        λ e rest lt. omega arith
  parse_unary-IsReader n inner r (Token.minus ∷ ts) l =
      Reads-bind _ _ (parse_unary inner ts) _ (parse_unary-IsReader n inner r ts (omega arith))
        λ e rest lt. omega arith
  parse_unary-IsReader n inner r [] l = parse_primary-IsReader n inner r [] l
  parse_unary-IsReader n inner r (t ∷ ts) l = parse_primary-IsReader n inner r (t ∷ ts) l

  parse_or-IsReader :
      (n : ℕ) (inner : Parse F) → IsReader n inner → IsReader (suc n) (parse_or inner)
  unfolding parse_or
  parse_or-IsReader n inner r = level-IsReader (suc n) or_op _ (
      level-IsReader (suc n) and_op _ (
        level-IsReader (suc n) comparison_op _ (
          level-IsReader (suc n) additive_op _
            (level-IsReader (suc n) multiplicative_op _ (parse_unary-IsReader n inner r)))))

  parse_expr-IsReader : (n fuel : ℕ) → n < fuel → IsReader n (parse_expr {F = F} fuel)
  unfolding parse_expr parse_or parse_and parse_comparison parse_additive parse_multiplicative level
      parse_unary parse_primary
  parse_expr-IsReader n zero h ts l = absurd (omega arith)
  parse_expr-IsReader zero (suc fuel) h [] l = tt
  parse_expr-IsReader zero (suc fuel) h (t ∷ ts) l = absurd (omega arith)
  parse_expr-IsReader (suc n) (suc fuel) h ts l =
      parse_or-IsReader n (parse_expr fuel) (parse_expr-IsReader n fuel (omega arith)) ts l

  at_end-IsReturned : (len : ℕ) (r : Expr F × List (Token F)) → IsReturned (at_end len r)
  at_end-IsReturned len (e, []) = tt
  at_end-IsReturned len (e, t ∷ ts) = tt

  Reads-IsReturned : (n : ℕ) (r : Outcome F (Expr F × List (Token F))) → Reads n r → IsReturned r
  Reads-IsReturned n (ok (e, rest)) h = tt
  Reads-IsReturned n (err e) h = tt
  Reads-IsReturned n panic h = h
  Reads-IsReturned n out_of_fuel h = h

  parse_tokens-IsReturned : (ts : List (Token F)) → IsReturned (parse_tokens ts)
  unfolding parse_tokens
  parse_tokens-IsReturned ts =
      IsReturned-bind (parse_expr (suc (length ts)) ts) _
        (Reads-IsReturned (length ts) (parse_expr (suc (length ts)) ts)
          (parse_expr-IsReader (length ts) (suc (length ts)) (omega arith) ts (omega arith)))
        (at_end-IsReturned (length ts))

module _ (f : Float) (u : Unicode) where
  -- On every input `Predicate::parse` comes to an end, with an expression or an error.
  pub parse-IsReturned : (input : Text) → IsReturned (parse f u input)
  unfolding parse
  parse-IsReturned input = elim (Bool-cases (is_empty (trim input))) [
    | inl e ↦ rw e tt
    | inr e ↦ rw e (
        IsReturned-bind (tokenize f u (trim input)) _ (tokenize-IsReturned f u (trim input))
          λ ts. parse_tokens-IsReturned ts)
  ]
