-- ===== src/Calculator/Tokens.antt =====
-- `tokenize`, `calculate_expression` and `process_command` of calculator.c. `strtod` is a parameter:
-- the number that a text begins with, how many characters it takes, and whether it sets `ERANGE`.
pub mod RoundTrip
use eltex_education.Common.{
  ℕ, zero, suc, ◌-◌, Bool, true, false, not, ◌&&◌, ◌||◌, Option, none, some, List, [], ◌∷◌, leb,
  ◌==◌, if◌then◌else◌, length, drop, take,
}
use eltex_education.Common.CString.{CString, same_text, isspace, isdigit, isalnum}
use eltex_education.Calculator.{
  CalcStatus, Result, done, fail, and_then, Arithmetic, Token, Calculator, number, operator,
  left_paren, right_paren, ans, is_operator, append_token, to_postfix, calculate_postfix,
}

-- The character at the front, NUL at the end.
abbrev pub front : CString → ℕ
front [] = 0
front (c ∷ cs) = c

-- `strncmp(current, "ans", 3) == 0` and the two tests of `current[3]`.
unfoldable pub starts_ans : CString → Bool
starts_ans text =
    same_text (take 3 text) (b'a' ∷ b'n' ∷ b's' ∷ [])
    && not (isalnum (front (drop 3 text)))
    && not (front (drop 3 text) == b'_')

module _ {D : Type 0} (strtod : CString → D × ℕ × Bool) where
  -- A number: nothing but the characters that it takes goes on.
  abbrev pub number_at : D × ℕ × Bool → CString → Result (Option (Token D) × CString)
  number_at (x, taken, erange) text =
      if taken == 0 || erange
      then fail CalcStatus.invalid_input
      else done (some (number x), drop taken text)

  -- One round of the loop of `tokenize` at a text that is not empty: the token, if any, and the rest.
  unfoldable pub next_token : ℕ → CString → Result (Option (Token D) × CString)
  unfolding starts_ans
  next_token c cs =
      if isspace c
      then done (none, cs)
      else if isdigit c || c == b'.'
      then number_at (strtod (c ∷ cs)) (c ∷ cs)
      else if is_operator c
      then done (some (operator c), cs)
      else if c == b'('
      then done (some left_paren, cs)
      else if c == b')'
      then done (some right_paren, cs)
      else if starts_ans (c ∷ cs)
      then done (some ans, drop 3 (c ∷ cs))
      else fail CalcStatus.invalid_input

  abbrev pub go_on :
      Result (List (Token D))
      → CString
      → (CString → List (Token D) → Option (Result (List (Token D))))
      → Option (Result (List (Token D)))
  go_on (done res) text rest = rest text res
  go_on (fail s) text rest = some (fail s)

  -- What stands behind a round: the token is appended, and the loop goes on.
  abbrev pub append_next :
      Result (Option (Token D) × CString)
      → List (Token D)
      → (CString → List (Token D) → Option (Result (List (Token D))))
      → Option (Result (List (Token D)))
  append_next (fail s) res rest = some (fail s)
  append_next (done (none, text)) res rest = rest text res
  append_next (done (some t, text)) res rest = go_on (append_token res t) text rest

  -- The loop on fuel, `none` if it runs out.
  unfoldable pub tokenize_loop : ℕ → CString → List (Token D) → Option (Result (List (Token D)))
  unfolding next_token
  tokenize_loop zero text res = none
  tokenize_loop (suc k) [] res = some (done res)
  tokenize_loop (suc k) (c ∷ cs) res =
      append_next (next_token c cs) res (λ text res'. tokenize_loop k text res')

  abbrev pub not_empty : Result (List (Token D)) → Result (List (Token D))
  not_empty (done []) = fail CalcStatus.invalid_input
  not_empty (done (t ∷ ts)) = done (t ∷ ts)
  not_empty (fail s) = fail s

  abbrev pub ended : Option (Result (List (Token D))) → Option (Result (List (Token D)))
  ended none = none
  ended (some r) = some (not_empty r)

  -- Each round takes a character, so one more than there are suffices.
  unfoldable pub tokenize : CString → Option (Result (List (Token D)))
  unfolding tokenize_loop
  tokenize input = ended (tokenize_loop (suc (length input)) input [])

  abbrev pub calculate_converted :
      Arithmetic D → Calculator D → Result (List (Token D)) → CalcStatus × Calculator D
  calculate_converted a calc (fail s) = (s, calc)
  calculate_converted a calc (done postfix) = calculate_postfix a calc postfix

  abbrev pub calculate_tokenized :
      Arithmetic D → Calculator D → Result (List (Token D)) → CalcStatus × Calculator D
  calculate_tokenized a calc (fail s) = (s, calc)
  calculate_tokenized a calc (done tokens) = calculate_converted a calc (to_postfix tokens)

  abbrev pub with_tokens :
      Arithmetic D
      → Calculator D
      → Option (Result (List (Token D)))
      → Option (CalcStatus × Calculator D)
  with_tokens a calc none = none
  with_tokens a calc (some r) = some (calculate_tokenized a calc r)

  unfoldable pub calculate_expression :
      Arithmetic D → CString → Calculator D → Option (CalcStatus × Calculator D)
  unfolding tokenize
  calculate_expression a input calc = with_tokens a calc (tokenize input)

  -- `print_help` writes to the terminal.
  unfoldable pub process_command :
      Arithmetic D → CString → Calculator D → Option (CalcStatus × Calculator D)
  unfolding calculate_expression
  process_command a input calc =
      if same_text input (b'e' ∷ b'x' ∷ b'i' ∷ b't' ∷ [])
      then some (CalcStatus.exit, calc)
      else if same_text input (b'c' ∷ b'l' ∷ b'e' ∷ b'a' ∷ b'r' ∷ [])
      then some (CalcStatus.ok, record { last = a.zero_value; has_result = false })
      else if same_text input (b'h' ∷ b'e' ∷ b'l' ∷ b'p' ∷ [])
      then some (CalcStatus.ok, calc)
      else calculate_expression a input calc
