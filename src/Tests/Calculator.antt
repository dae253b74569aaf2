-- ===== src/Tests/Calculator.antt =====
-- The calculator over the natural numbers, written in decimal, with one value more for what is none.
use eltex_education.Common.{
  ℕ, suc, ◌+◌, ◌-◌, ◌*◌, ◌/◌, ◌%◌, ◌^◌, ◌≡◌, refl, Bool, true, false, Option, none, some, List, [],
  ◌∷◌, ◌==◌, arith, ltb, if◌then◌else◌,
}
use eltex_education.Common.CString.{strcmp, isdigit, CString}
use eltex_education.Calculator.{
  done, CalcStatus, to_postfix, convert, convert_token, pop_operators, drain, calculate_postfix,
  calculate_tokens, calculate_token, operate, Result, Arithmetic, Token, Calculator,
}
use eltex_education.Calculator.Expression.{
  Expr, value, previous, binary, parens, IsExpr, written, evaluate,
}
use eltex_education.Calculator.Expression.Evaluate.{settled}
use eltex_education.Calculator.Tokens.{
  tokenize_loop, next_token, starts_ans, tokenize, calculate_expression,
}
use eltex_education.Calculator.Tokens.RoundTrip.{
  Legible, spelled, tokenize_ends, calculate_expression-spelled,
}

-- A number is natural, or `none` for one that is not, which no text is read as.
abbrev Number : Type 0
Number = Option ℕ

-- The value of the digits at the front, on that of those before, and how many there are.
abbrev read_digits : ℕ → ℕ → CString → ℕ × ℕ
read_digits n taken [] = (n, taken)
read_digits n taken (c ∷ cs) =
    if isdigit c then read_digits (n * 10 + (c - 48)) (suc taken) cs else (n, taken)

-- `strtod` on decimal digits: without any, it takes nothing.
abbrev strtod : CString → Number × ℕ × Bool
strtod text = let (n, taken) = read_digits 0 0 text in (some n, taken, false)

-- The numbers of the expression below, and no others.
abbrev spell : Number → CString
spell none = b'n' ∷ b'a' ∷ b'n' ∷ []
spell (some n) = if n == 12 then b'1' ∷ b'2' ∷ [] else if n == 5 then b'5' ∷ [] else b'0' ∷ []

twelve-Legible : Legible strtod (spell (some 12)) (some 12)
twelve-Legible = record {
  first = b'1';
  more = b'2' ∷ [];
  split = refl;
  start = refl;
  reads = λ rest. refl;
}

five-Legible : Legible strtod (spell (some 5)) (some 5)
five-Legible = record { first = b'5'; more = []; split = refl; start = refl; reads = λ rest. refl }

abbrev on_both : (ℕ → ℕ → Number) → Number → Number → Number
on_both f none y = none
on_both f (some x) none = none
on_both f (some x) (some y) = f x y

abbrev is_zero : Number → Bool
is_zero none = false
is_zero (some n) = n == 0

abbrev naturals : Arithmetic Number
naturals = record {
  plus = on_both (λ x y. some (x + y));
  minus = on_both (λ x y. if ltb x y then none else some (x - y));
  multiply = on_both (λ x y. some (x * y));
  quotient = on_both (λ x y. if x % y == 0 then some (x / y) else none);
  pow = on_both (λ x y. some (x ^ y));
  is_zero = is_zero;
  zero_value = some 0;
}

abbrev calc : Calculator Number
calc = record { last = some 3; has_result = true }

-- `12 + ans * ( 12 - 5 )`
abbrev sum : Expr Number
sum =
    binary b'+' (value (some 12))
      (binary b'*' previous (parens (binary b'-' (value (some 12)) (value (some 5)))))

sum-IsExpr : IsExpr sum
sum-IsExpr = ground arith

sum_value : evaluate naturals calc sum ≡ done (some 33)
unfolding evaluate operate
sum_value = refl

calculate_expression-spelled_example :
    calculate_expression strtod naturals (spelled strtod spell (written sum)) calc
    ≡ some (settled calc (evaluate naturals calc sum))
calculate_expression-spelled_example =
    calculate_expression-spelled strtod spell naturals calc sum sum-IsExpr
      (twelve-Legible, (tt, (twelve-Legible, five-Legible))) (omega arith)

tokenize_ends_example :
    (q : Result (List (Token Number))) × (tokenize strtod (b'2' ∷ b'?' ∷ []) ≡ some q)
tokenize_ends_example = tokenize_ends strtod (b'2' ∷ b'?' ∷ [])

-- Operands in front of their operator are taken for an expression.
postfix_accepted :
    calculate_expression strtod naturals (b'1' ∷ 32 ∷ b'2' ∷ 32 ∷ b'+' ∷ []) calc
    ≡ some (CalcStatus.ok, record { last = some 3; has_result = true })
unfolding calculate_expression tokenize tokenize_loop next_token starts_ans strcmp to_postfix
    convert convert_token pop_operators drain calculate_postfix calculate_tokens calculate_token
    operate
postfix_accepted = refl
