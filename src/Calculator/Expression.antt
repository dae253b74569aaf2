-- ===== src/Calculator/Expression.antt =====
-- Expressions as trees: how they are written as tokens, in which order their tokens stand in
-- postfix, and what they are worth.
pub mod Convert
pub mod Correct
pub mod Evaluate
use eltex_education.Common.{
  ℕ, ◌+◌, ◌<◌, ◌≤◌, Bool, true, false, not, List, [], ◌∷◌, ◌++◌, ◌||◌, ◌==◌, if◌then◌else◌,
}
use eltex_education.Calculator.{
  CalcStatus, Result, done, fail, and_then, Arithmetic, Token, Calculator, number, operator,
  left_paren, right_paren, ans, is_right_associative, operate,
}

pub data Expr (D : Type 0) : Type 0 where
  value : D → Expr D
  previous : Expr D
  binary : ℕ → Expr D → Expr D → Expr D
  parens : Expr D → Expr D

-- How tightly an operator binds; 0 for any other character.
abbrev pub rank : ℕ → ℕ
rank c =
    if c == b'+' || c == b'-'
    then 1
    else if c == b'*' || c == b'/'
    then 2
    else if c == b'^'
    then 3
    else 0

module _ {D : Type 0} where
  -- How tightly an expression binds: an operand without an operator binds most tightly.
  abbrev pub level : Expr D → ℕ
  level (value x) = 4
  level previous = 4
  level (binary c l r) = rank c
  level (parens e) = 4

  -- Every operator is one, and parentheses stand where the grammar needs them: `^` groups to the
  -- right, the others to the left.
  abbrev pub IsExpr : Expr D → Type 0
  IsExpr (value x) = Unit {0}
  IsExpr previous = Unit {0}
  IsExpr (binary c l r) =
      (0 < rank c)
      × (rank c + (if is_right_associative c then 1 else 0) ≤ level l)
      × (rank c + (if is_right_associative c then 0 else 1) ≤ level r)
      × IsExpr l
      × IsExpr r
  IsExpr (parens e) = IsExpr e

  -- The expression as it is written.
  abbrev pub written : Expr D → List (Token D)
  written (value x) = number x ∷ []
  written previous = ans ∷ []
  written (binary c l r) = written l ++ (operator c ∷ written r)
  written (parens e) = left_paren ∷ (written e ++ (right_paren ∷ []))

  -- The expression in postfix.
  abbrev pub postfix : Expr D → List (Token D)
  postfix (value x) = number x ∷ []
  postfix previous = ans ∷ []
  postfix (binary c l r) = postfix l ++ (postfix r ++ (operator c ∷ []))
  postfix (parens e) = postfix e

  -- The value, from left to right; the first error is the result.
  unfoldable pub evaluate : Arithmetic D → Calculator D → Expr D → Result D
  evaluate a calc (value x) = done x
  evaluate a calc previous =
      if calc.has_result then done calc.last else fail CalcStatus.invalid_input
  evaluate a calc (binary c l r) =
      and_then (evaluate a calc l) (λ x. and_then (evaluate a calc r) (λ y. operate a c x y))
  evaluate a calc (parens e) = evaluate a calc e
