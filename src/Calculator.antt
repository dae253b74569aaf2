-- ===== src/Calculator.antt =====
-- src/calculator.c of 02-c-programming/02-02-calculator: tokens, the conversion to postfix and the
-- evaluation. `double` is a parameter: its type `D`, and a record of its operations.

pub mod Expression
pub mod Tokens
use eltex_education.Common.{
  ℕ, ◌<◌, ◌≤◌, Bool, true, false, not, ◌&&◌, ◌||◌, Option, none, some, List, [], ◌∷◌, ◌++◌, ltb,
  leb, ◌==◌, if◌then◌else◌, length,
}
use eltex_education.Common.Int.{ℤ, pos, negsuc, ltb_ℤ}

-- `CalcStatus`
pub data CalcStatus : Type 0 where
  ok exit invalid_input division_by_zero too_many_tokens : CalcStatus

-- What a function that returns `CALC_OK` leaves behind, or the other status.
pub data Result (A : Type 0) : Type 0 where
  done : A → Result A
  fail : CalcStatus → Result A

abbrev pub and_then : {A B : Type 0} → Result A → (A → Result B) → Result B
and_then (done a) k = k a
and_then (fail s) k = fail s

-- The operations of `double` that the source uses; `is_zero x` is `x == 0.0`.
pub record Arithmetic (D : Type 0) : Type 0 where
  pub plus : D → D → D
  pub minus : D → D → D
  pub multiply : D → D → D
  pub quotient : D → D → D
  pub pow : D → D → D
  pub is_zero : D → Bool
  pub zero_value : D

pub data Token (D : Type 0) : Type 0 where
  number : D → Token D
  operator : ℕ → Token D
  left_paren right_paren ans : Token D

pub record Calculator (D : Type 0) : Type 0 where
  pub last : D
  pub has_result : Bool

abbrev pub token_arr_size : ℕ
token_arr_size = 100

-- -1 where there is no such operator.
abbrev pub priority : ℕ → ℤ
priority oper =
    if oper == b'+' || oper == b'-'
    then pos 1
    else if oper == b'*' || oper == b'/'
    then pos 2
    else if oper == b'^'
    then pos 3
    else negsuc 0

abbrev pub is_right_associative : ℕ → Bool
is_right_associative oper = oper == b'^'

abbrev pub is_operator : ℕ → Bool
is_operator oper = oper == b'+' || oper == b'-' || oper == b'/' || oper == b'*' || oper == b'^'

unfoldable pub top_goes_first : ℕ → ℕ → Bool
top_goes_first top current =
    ltb_ℤ (priority current) (priority top)
    || (not (ltb_ℤ (priority current) (priority top))
        && not (ltb_ℤ (priority top) (priority current))
        && not (is_right_associative current))

module _ {D : Type 0} where
  abbrev pub append_token : List (Token D) → Token D → Result (List (Token D))
  append_token items t =
      if leb token_arr_size (length items) then fail too_many_tokens else done (items ++ (t ∷ []))

  -- `append_token` on the stack, which is kept here with its top first.
  abbrev pub push_token : List (Token D) → Token D → Result (List (Token D))
  push_token stack t =
      if leb token_arr_size (length stack) then fail too_many_tokens else done (t ∷ stack)

  -- The loop that an operator starts.
  unfoldable pub pop_operators :
      List (Token D) → ℕ → List (Token D) → Result (List (Token D) × List (Token D))
  unfolding top_goes_first
  pop_operators [] current out = done ([], out)
  pop_operators (operator top ∷ stack) current out =
      if not (top_goes_first top current)
      then done (operator top ∷ stack, out)
      else and_then (append_token out (operator top)) (λ out'. pop_operators stack current out')
  pop_operators (number x ∷ stack) current out = done (number x ∷ stack, out)
  pop_operators (left_paren ∷ stack) current out = done (left_paren ∷ stack, out)
  pop_operators (right_paren ∷ stack) current out = done (right_paren ∷ stack, out)
  pop_operators (ans ∷ stack) current out = done (ans ∷ stack, out)

  -- The loop that a right parenthesis starts, and the left one taken off.
  unfoldable pub pop_to_paren :
      List (Token D) → List (Token D) → Result (List (Token D) × List (Token D))
  pop_to_paren [] out = fail invalid_input
  pop_to_paren (left_paren ∷ stack) out = done (stack, out)
  pop_to_paren (operator c ∷ stack) out =
      and_then (append_token out (operator c)) (λ out'. pop_to_paren stack out')
  pop_to_paren (number x ∷ stack) out =
      and_then (append_token out (number x)) (λ out'. pop_to_paren stack out')
  pop_to_paren (right_paren ∷ stack) out =
      and_then (append_token out right_paren) (λ out'. pop_to_paren stack out')
  pop_to_paren (ans ∷ stack) out = and_then (append_token out ans) (λ out'. pop_to_paren stack out')

  -- The loop that empties the stack at the end.
  unfoldable pub drain : List (Token D) → List (Token D) → Result (List (Token D))
  drain [] out = done out
  drain (left_paren ∷ stack) out = fail invalid_input
  drain (right_paren ∷ stack) out = fail invalid_input
  drain (operator c ∷ stack) out =
      and_then (append_token out (operator c)) (λ out'. drain stack out')
  drain (number x ∷ stack) out = and_then (append_token out (number x)) (λ out'. drain stack out')
  drain (ans ∷ stack) out = and_then (append_token out ans) (λ out'. drain stack out')

  abbrev pub push_under :
      Token D → List (Token D) × List (Token D) → Result (List (Token D) × List (Token D))
  push_under t (stack, out) = and_then (push_token stack t) (λ stack'. done (stack', out))

  -- One round of the loop of `to_postfix`.
  unfoldable pub convert_token :
      Token D → List (Token D) → List (Token D) → Result (List (Token D) × List (Token D))
  convert_token (number x) stack out =
      and_then (append_token out (number x)) (λ out'. done (stack, out'))
  convert_token ans stack out = and_then (append_token out ans) (λ out'. done (stack, out'))
  convert_token left_paren stack out = push_under left_paren (stack, out)
  convert_token (operator c) stack out =
      and_then (pop_operators stack c out) (push_under (operator c))
  convert_token right_paren stack out = pop_to_paren stack out

  unfoldable pub convert :
      List (Token D) → List (Token D) → List (Token D) → Result (List (Token D))
  convert [] stack out = drain stack out
  convert (t ∷ ts) stack out = and_then (convert_token t stack out) (λ r. convert ts r.0 r.1)

  unfoldable pub to_postfix : List (Token D) → Result (List (Token D))
  to_postfix infix_tokens = convert infix_tokens [] []

  abbrev pub get_operation : Arithmetic D → ℕ → Option (D → D → D)
  get_operation a oper =
      if oper == b'+'
      then some a.plus
      else if oper == b'-'
      then some a.minus
      else if oper == b'*'
      then some a.multiply
      else if oper == b'/'
      then some a.quotient
      else if oper == b'^'
      then some a.pow
      else none

  -- An operator on the two values that were taken off the stack.
  abbrev pub operate_with : Option (D → D → D) → D → D → Result D
  operate_with none left right = fail invalid_input
  operate_with (some f) left right = done (f left right)

  unfoldable pub operate : Arithmetic D → ℕ → D → D → Result D
  operate a oper left right =
      if oper == b'/' && a.is_zero right
      then fail division_by_zero
      else operate_with (get_operation a oper) left right

  abbrev pub push_value : List D → D → Result (List D)
  push_value stack x =
      if leb token_arr_size (length stack) then fail too_many_tokens else done (x ∷ stack)

  -- One round of the loop of `calculate_postfix`, on the stack with its top first.
  unfoldable pub calculate_token : Arithmetic D → Calculator D → Token D → List D → Result (List D)
  unfolding operate
  calculate_token a calc ans stack =
      if not calc.has_result then fail invalid_input else push_value stack calc.last
  calculate_token a calc (number x) stack = push_value stack x
  calculate_token a calc (operator c) [] = fail invalid_input
  calculate_token a calc (operator c) (x ∷ []) = fail invalid_input
  calculate_token a calc (operator c) (right ∷ left ∷ stack) =
      and_then (operate a c left right) (λ x. done (x ∷ stack))
  calculate_token a calc left_paren stack = fail invalid_input
  calculate_token a calc right_paren stack = fail invalid_input

  unfoldable pub calculate_tokens :
      Arithmetic D → Calculator D → List (Token D) → List D → Result (List D)
  calculate_tokens a calc [] stack = done stack
  calculate_tokens a calc (t ∷ ts) stack =
      and_then (calculate_token a calc t stack) (λ stack'. calculate_tokens a calc ts stack')

  -- The status and the calculator after the last test.
  abbrev pub keep_result : Calculator D → Result (List D) → CalcStatus × Calculator D
  keep_result calc (fail s) = (s, calc)
  keep_result calc (done (x ∷ [])) = (ok, record { last = x; has_result = true })
  keep_result calc (done []) = (invalid_input, calc)
  keep_result calc (done (x ∷ y ∷ ys)) = (invalid_input, calc)

  unfoldable pub calculate_postfix :
      Arithmetic D → Calculator D → List (Token D) → CalcStatus × Calculator D
  unfolding calculate_tokens
  calculate_postfix a calc tokens = keep_result calc (calculate_tokens a calc tokens [])
