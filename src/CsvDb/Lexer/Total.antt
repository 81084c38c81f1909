-- ===== src/CsvDb/Lexer/Total.antt =====
-- `tokenize` of src/agent/tools/csv_db/predicate.rs ends on every input.
use personal_productivity_ai.Common.{
  ℕ, zero, suc, ◌-◌, ◌≤◌, ◌≡◌, refl, inl, inr, Bool, true, false, ◌||◌, Option, none, some, [], ◌∷◌,
  length, ◌==◌, if◌then◌else◌, arith, Bool-cases,
}
use personal_productivity_ai.Common.Text.{Text}
use personal_productivity_ai.Common.Trim.{is_whitespace}
use personal_productivity_ai.CsvDb.Value.{
  Float, Unicode, Token, Outcome, ok, err, panic, out_of_fuel, ◌>>=◌,
}
use personal_productivity_ai.CsvDb.Lexer.{
  Number, is_digit, push_char, scan_string, scan_number, span, one_or_two, string_token,
  number_token, is_word_char, lex_token, tokenize_from, tokenize,
}

-- A token was read that leaves at most `n` characters, or the input is refused.
abbrev pub Lexes {ℓ} : {F : Type 0} {A : Type ℓ} → ℕ → Outcome F (A × Text) → Type 0
Lexes n (ok (a, rest)) = length rest ≤ n
Lexes n (err e) = Unit
Lexes n panic = ⊥
Lexes n out_of_fuel = ⊥

-- The call came to its end, with a result or an error.
abbrev pub IsReturned {ℓ} : {F : Type 0} {A : Type ℓ} → Outcome F A → Type 0
IsReturned (ok a) = Unit
IsReturned (err e) = Unit
IsReturned panic = ⊥
IsReturned out_of_fuel = ⊥

abbrev Leaves : ℕ → Option (Text × Text) → Type 0
Leaves n none = Unit
Leaves n (some (a, rest)) = length rest ≤ n

Leaves-push_char :
    (c m n : ℕ) (o : Option (Text × Text)) → m ≤ n → Leaves m o → Leaves n (push_char c o)
Leaves-push_char c m n none h l = tt
Leaves-push_char c m n (some (a, rest)) h l = omega arith

scan_string_rest : (quote : ℕ) (s : Text) → Leaves (length s) (scan_string quote s)
unfolding scan_string
scan_string_rest quote [] = tt
scan_string_rest quote (c ∷ []) = ground arith
scan_string_rest quote (c ∷ d ∷ s) = ground (
  arith,
  Leaves-push_char d (length s) (length (c ∷ d ∷ s)) (scan_string quote s) (omega arith)
      (scan_string_rest quote s),
  Leaves-push_char c (length (d ∷ s)) (length (c ∷ d ∷ s)) (scan_string quote (d ∷ s)) (omega arith)
      (scan_string_rest quote (d ∷ s)),
)

scan_number_rest : (b : Bool) (s : Text) → length (scan_number b s).rest ≤ length s
unfolding scan_number
scan_number_rest b [] = omega arith
scan_number_rest b (c ∷ s) = ground (arith, scan_number_rest (b || c == b'.') s)

scan_number_digit :
    (c : ℕ) (s : Text) → is_digit c ≡ true → length (scan_number false (c ∷ s)).rest ≤ length s
unfolding scan_number
scan_number_digit c s h = ground (arith, scan_number_rest (false || c == b'.') s)

span_rest : (p : ℕ → Bool) (s : Text) → length (span p s).1 ≤ length s
unfolding span
span_rest p [] = omega arith
span_rest p (c ∷ s) = ground (arith, span_rest p s)

span_first : (p : ℕ → Bool) (c : ℕ) (s : Text) → p c ≡ true → length (span p (c ∷ s)).1 ≤ length s
unfolding span
span_first p c s h = ground (arith, span_rest p s)

Lexes-if :
    {F : Type 0} {A : Type 0} (n : ℕ) (b : Bool) (x y : Outcome F (A × Text))
    → (b ≡ true → Lexes n x)
    → (b ≡ false → Lexes n y)
    → Lexes n (if b then x else y)
Lexes-if n true x y hx hy = hx refl
Lexes-if n false x y hx hy = hy refl

pub IsReturned-bind :
    {F A B : Type 0} (r : Outcome F A) (k : A → Outcome F B)
    → IsReturned r
    → ((a : A) → IsReturned (k a))
    → IsReturned (r >>= k)
IsReturned-bind (ok a) k h g = g a
IsReturned-bind (err e) k h g = tt
IsReturned-bind panic k h g = h
IsReturned-bind out_of_fuel k h g = h

IsReturned-bind_lexed :
    {F A B : Type 0} (n : ℕ) (r : Outcome F (A × Text)) (k : A × Text → Outcome F B)
    → Lexes n r
    → ((a : A) (rest : Text) → length rest ≤ n → IsReturned (k (a, rest)))
    → IsReturned (r >>= k)
IsReturned-bind_lexed n (ok (a, rest)) k h g = g a rest h
IsReturned-bind_lexed n (err e) k h g = tt
IsReturned-bind_lexed n panic k h g = h
IsReturned-bind_lexed n out_of_fuel k h g = h

module _ (f : Float) (u : Unicode) where
  open f use {F, parse_float}

  Lexes-one_or_two :
      (c : ℕ) (s : Text) (t : Token F) (r : Outcome F (Token F × Text))
      → Lexes (length s) r
      → Lexes (length s) (one_or_two f u c s t r)
  Lexes-one_or_two c [] t r h = h
  Lexes-one_or_two c (d ∷ s) t r h =
      Lexes-if (suc (length s)) (d == c) _ _ (λ _. omega arith) (λ _. h)

  Lexes-string_token :
      (n : ℕ) (o : Option (Text × Text)) → Leaves n o → Lexes n (string_token f u o)
  Lexes-string_token n none h = tt
  Lexes-string_token n (some (a, rest)) h = h

  Lexes-number_token : (m : Number) (n : ℕ) → length m.rest ≤ n → Lexes n (number_token f u m)
  unfolding number_token
  Lexes-number_token m n h = ground arith

  word_char_of_start : (c : ℕ) → (u.is_alphabetic c || c == b'_') ≡ true → is_word_char f u c ≡ true
  unfolding is_word_char
  word_char_of_start c h = ground (arith, u.alphanumeric_of_alphabetic c)

  lex_token-Lexes : (i c : ℕ) (s : Text) → Lexes (length s) (lex_token f u i c s)
  unfolding lex_token
  lex_token-Lexes i c s =
      Lexes-if (length s) (c == b'(') _ _ (λ _. omega arith)
        λ _.
          Lexes-if (length s) (c == b')') _ _ (λ _. omega arith)
            λ _.
              Lexes-if (length s) (c == b'+') _ _ (λ _. omega arith)
                λ _.
                  Lexes-if (length s) (c == b'-') _ _ (λ _. omega arith)
                    λ _.
                      Lexes-if (length s) (c == b'*') _ _ (λ _. omega arith)
                        λ _.
                          Lexes-if (length s) (c == b'/') _ _ (λ _. omega arith)
                            λ _.
                              Lexes-if (length s) (c == b'=') _ _
                                (λ _. Lexes-one_or_two b'=' s _ _ tt)
                                λ _.
                                  Lexes-if (length s) (c == b'!') _ _
                                    (λ _. Lexes-one_or_two b'=' s _ _ (omega arith))
                                    λ _.
                                      Lexes-if (length s) (c == b'<') _ _
                                        (λ _. Lexes-one_or_two b'=' s _ _ (omega arith))
                                        λ _.
                                          Lexes-if (length s) (c == b'>') _ _
                                            (λ _. Lexes-one_or_two b'=' s _ _ (omega arith))
                                            λ _.
                                              Lexes-if (length s) (c == b'&') _ _
                                                (λ _. Lexes-one_or_two b'&' s _ _ tt)
                                                λ _.
                                                  Lexes-if (length s) (c == b'|') _ _
                                                    (λ _. Lexes-one_or_two b'|' s _ _ tt)
                                                    λ _.
                                                      Lexes-if (length s) (c == b'"' || c == b'\'')
                                                        _ _
                                                        (λ _.
                                                          Lexes-string_token (length s)
                                                            (scan_string c s)
                                                            (scan_string_rest c s))
                                                        λ _.
                                                          Lexes-if (length s) (is_digit c) _ _
                                                            (λ e.
                                                            Lexes-number_token
                                                            (scan_number false (c ∷ s)) (length s)
                                                            (scan_number_digit c s e))
                                                            λ _.
                                                            Lexes-if (length s)
                                                            (u.is_alphabetic c || c == b'_') _ _
                                                            (λ e.
                                                            span_first (is_word_char f u) c s
                                                            (word_char_of_start c e))
                                                            λ _. tt

  tokenize_from-IsReturned :
      (fuel len : ℕ) (s : Text) → length s ≤ fuel → IsReturned (tokenize_from f u fuel len s)
  unfolding tokenize_from
  tokenize_from-IsReturned fuel len [] h = tt
  tokenize_from-IsReturned zero len (c ∷ s) h = absurd (omega arith)
  tokenize_from-IsReturned (suc fuel) len (c ∷ s) h = elim (Bool-cases (is_whitespace c)) [
    | inl e ↦ rw e (tokenize_from-IsReturned fuel len s (omega arith))
    | inr e ↦ rw e (
        IsReturned-bind_lexed (length s) (lex_token f u (len - length (c ∷ s)) c s) _
          (lex_token-Lexes (len - length (c ∷ s)) c s)
          λ t rest g.
            IsReturned-bind (tokenize_from f u fuel len rest) _
              (tokenize_from-IsReturned fuel len rest (omega arith)) λ ts. tt)
  ]

  -- The tokenizer comes to an end on every input, with the tokens or an error.
  pub tokenize-IsReturned : (input : Text) → IsReturned (tokenize f u input)
  unfolding tokenize
  tokenize-IsReturned input =
      tokenize_from-IsReturned (length input) (length input) input (omega arith)
