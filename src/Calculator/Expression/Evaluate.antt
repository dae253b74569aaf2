-- ===== src/Calculator/Expression/Evaluate.antt =====
-- `calculate_postfix` on the postfix form of an expression.
use mathlib.Core.List.{append_assoc, append-nil}
use eltex_education.Common.{
  ℕ, ◌+◌, ◌≤◌, ◌≡◌, ◌∙◌, fun_ext, refl, sym, ap, List, [], ◌∷◌, ◌++◌, arith, length, length-append,
  Bool-cases, inl, inr, ◌⊎◌, true,
}
use eltex_education.Calculator.{
  CalcStatus, Result, done, fail, and_then, Token, operator, token_arr_size, operate, Arithmetic,
  Calculator, calculate_token, calculate_tokens, calculate_postfix, keep_result, to_postfix,
}
use eltex_education.Calculator.Expression.{
  Expr, value, previous, binary, parens, IsExpr, written, postfix, evaluate,
}
use eltex_education.Calculator.Expression.Convert.{room, length-postfix}
use eltex_education.Calculator.Expression.Correct.{to_postfix-written}

pub Result-cases :
    {A : Type 0} (r : Result A) → ((x : A) × (r ≡ done x)) ⊎ ((s : CalcStatus) × (r ≡ fail s))
Result-cases (done x) = inl (x, refl)
Result-cases (fail s) = inr (s, refl)

-- What an expression with this value leaves behind.
abbrev pub settled : {D : Type 0} → Calculator D → Result D → CalcStatus × Calculator D
settled calc (done x) = (CalcStatus.ok, record { last = x; has_result = true })
settled calc (fail s) = (s, calc)

positive : {D : Type 0} (e : Expr D) → 1 ≤ length (postfix e)
positive (value x) = omega arith
positive previous = omega arith
positive (parens e) = positive e
positive (binary c l r) =
    omega (arith, positive l, length-append (postfix l) (postfix r ++ (operator c ∷ [])))

module _ {D : Type 0} (a : Arithmetic D) (calc : Calculator D) where
  -- An operator after its operands.
  abbrev Combined : ℕ → List (Token D) → List D → Result D → Result D → Type 0
  Combined c ts stack x y =
      and_then x (λ u. and_then y (λ v. calculate_tokens a calc (operator c ∷ ts) (v ∷ u ∷ stack)))
      ≡ and_then (and_then x (λ u. and_then y (λ v. operate a c u v)))
          (λ w. calculate_tokens a calc ts (w ∷ stack))

  combine :
      (c : ℕ) (ts : List (Token D)) (stack : List D) (x y : Result D) → Combined c ts stack x y
  unfolding calculate_tokens calculate_token
  combine c ts stack (fail s) y = refl
  combine c ts stack (done u) (fail s) = refl
  combine c ts stack (done u) (done v) = elim (Result-cases (operate a c u v)) [
    | inl (w, e) ↦ rw e refl
    | inr (s, e) ↦ rw e refl
  ]

  calculate_postfix_form :
      (e : Expr D) (ts : List (Token D)) (stack : List D)
      → length stack + length (postfix e) ≤ token_arr_size
      → calculate_tokens a calc (postfix e ++ ts) stack
        ≡ and_then (evaluate a calc e) (λ x. calculate_tokens a calc ts (x ∷ stack))
  unfolding calculate_tokens calculate_token evaluate
  calculate_postfix_form (value x) ts stack h = rw (room (length stack) (omega arith)) refl
  calculate_postfix_form previous ts stack h = elim (Bool-cases calc.has_result) [
    | inl e ↦ simp (e, room (length stack) (omega arith))
    | inr e ↦ simp e
  ]
  calculate_postfix_form (parens e) ts stack h = calculate_postfix_form e ts stack h
  calculate_postfix_form (binary c l r) ts stack h =
      let size = length-append (postfix l) (postfix r ++ (operator c ∷ [])) in
      let size' = length-append (postfix r) (operator c ∷ []) in
      let right = λ (x : D).
        calculate_postfix_form r (operator c ∷ ts) (x ∷ stack)
          (omega (arith, size, size', positive l)) in
      ap (λ t. calculate_tokens a calc t stack)
        (append_assoc (postfix l) (postfix r ++ (operator c ∷ [])) ts
          ∙ ap (λ t. postfix l ++ t) (append_assoc (postfix r) (operator c ∷ []) ts))
      ∙ calculate_postfix_form l (postfix r ++ (operator c ∷ ts)) stack (omega (arith, size))
      ∙ ap (λ k. and_then (evaluate a calc l) k) (fun_ext right)
      ∙ combine c ts stack (evaluate a calc l) (evaluate a calc r)

  keep : (r : Result D) → keep_result calc (and_then r (λ x. done (x ∷ []))) ≡ settled calc r
  keep (done x) = refl
  keep (fail s) = refl

  -- The tokens of an expression, of at most 100, are converted to its postfix form, and that form is
  -- worth the expression's value.
  pub calculate_postfix-postfix :
      (e : Expr D)
      → IsExpr e
      → length (written e) ≤ token_arr_size
      → (to_postfix (written e) ≡ done (postfix e))
        × (calculate_postfix a calc (postfix e) ≡ settled calc (evaluate a calc e))
  unfolding calculate_postfix calculate_tokens
  calculate_postfix-postfix e v h = (
    to_postfix-written e v h,
    ap (λ t. keep_result calc (calculate_tokens a calc t [])) (sym (append-nil (postfix e)))
        ∙ ap (keep_result calc) (calculate_postfix_form e [] [] (omega (arith, length-postfix e)))
        ∙ keep (evaluate a calc e),
  )
