-- ===== src/Calculator/Expression/Correct.antt =====
-- `to_postfix` and `calculate_postfix` on the tokens of an expression.
use mathlib.Core.List.{append_assoc, append-nil}
use eltex_education.Common.{
  ℕ, ◌+◌, ◌<◌, ◌≤◌, if◌then◌else◌, ◌≡◌, ◌∙◌, refl, sym, ap, List, [], ◌∷◌, ◌++◌, arith, length,
  length-append,
}
use eltex_education.Calculator.{
  done, Token, operator, left_paren, right_paren, token_arr_size, convert_token, convert,
  to_postfix, is_right_associative,
}
use eltex_education.Calculator.Expression.{
  Expr, value, previous, binary, parens, IsExpr, rank, level, written, postfix,
}
use eltex_education.Calculator.Expression.Convert.{
  room, pending, emitted, Admits, Blocks, emitted-pending, length-pending, length-postfix,
  pending-IsFirst, Blocks-left, Blocks-right, pop-first, pending-IsOperator, pop_to_paren-pending,
  drain-pending,
}

module _ {D : Type 0} where
  abbrev Fits : List (Token D) → List (Token D) → Expr D → Type 0
  Fits stack out e = length stack + length out + length (written e) ≤ token_arr_size

  Admits-paren : (e : Expr D) (stack : List (Token D)) → Admits (left_paren ∷ stack) e
  Admits-paren (value x) stack = tt
  Admits-paren previous stack = tt
  Admits-paren (binary c l r) stack = tt
  Admits-paren (parens e) stack = tt

  Admits-nil : (e : Expr D) → Admits [] e
  Admits-nil (value x) = tt
  Admits-nil previous = tt
  Admits-nil (binary c l r) = tt
  Admits-nil (parens e) = tt

  -- An operator whose left operand has been read.
  step_operator :
      (c : ℕ) (l : Expr D) (ts stack out : List (Token D))
      → IsExpr l
      → 0 < rank c
      → rank c + (if is_right_associative c then 1 else 0) ≤ level l
      → Blocks stack c
      → length stack + length out + length (written l) + 1 ≤ token_arr_size
      → convert (operator c ∷ ts) (pending l ++ stack) (out ++ emitted l)
        ≡ convert ts (operator c ∷ stack) (out ++ postfix l)
  unfolding convert convert_token
  step_operator c l ts stack out v z p b h =
      let popped =
        pop-first c (pending l) stack (out ++ emitted l) (pending-IsFirst c l v z p) b
          (omega (arith, length-pending l, length-append out (emitted l))) in
      rw
        (
          popped,
          room (length stack) (omega arith),
          append_assoc out (emitted l) (pending l),
          emitted-pending l,
        )
        refl

  convert-written :
      (e : Expr D) (ts stack out : List (Token D))
      → IsExpr e
      → Admits stack e
      → Fits stack out e
      → convert (written e ++ ts) stack out ≡ convert ts (pending e ++ stack) (out ++ emitted e)
  unfolding convert convert_token
  convert-written (value x) ts stack out v b h = rw (room (length out) (omega arith)) refl
  convert-written previous ts stack out v b h = rw (room (length out) (omega arith)) refl
  convert-written (parens e) ts stack out v b h =
      let inner =
        convert-written e (right_paren ∷ ts) (left_paren ∷ stack) out v (Admits-paren e stack)
          (omega (arith, length-append (written e) (right_paren ∷ []))) in
      let popped =
        pop_to_paren-pending (pending e) stack (out ++ emitted e) (pending-IsOperator e) (
          omega (
            arith,
            length-pending e,
            length-append out (emitted e),
            length-append (written e) (right_paren ∷ []),
          )) in
      rw (room (length stack) (omega arith), append_assoc (written e) (right_paren ∷ []) ts)
        (inner
          ∙ rw popped (
              ap (λ o. convert ts stack o)
                (append_assoc out (emitted e) (pending e)
                  ∙ ap (λ t. out ++ t) (emitted-pending e))))
  convert-written (binary c l r) ts stack out (z, p, q, v, w) b h =
      let size = length-append (written l) (operator c ∷ written r) in
      ap (λ t. convert t stack out) (append_assoc (written l) (operator c ∷ written r) ts)
      ∙ convert-written l (operator c ∷ (written r ++ ts)) stack out v
          (Blocks-left stack c l b v z p) (omega (arith, size))
      ∙ step_operator c l (written r ++ ts) stack out v z p b (omega (arith, size))
      ∙ convert-written r ts (operator c ∷ stack) (out ++ postfix l) w
          (Blocks-right stack c r w z q)
          (omega (arith, size, length-append out (postfix l), length-postfix l))
      ∙ ap (λ t. convert ts t ((out ++ postfix l) ++ emitted r))
          (sym (append_assoc (pending r) (operator c ∷ []) stack))
      ∙ ap (λ t. convert ts ((pending r ++ (operator c ∷ [])) ++ stack) t)
          (append_assoc out (postfix l) (emitted r))

  -- The conversion of an expression is its postfix form.
  pub to_postfix-written :
      (e : Expr D)
      → IsExpr e
      → length (written e) ≤ token_arr_size
      → to_postfix (written e) ≡ done (postfix e)
  unfolding to_postfix convert
  to_postfix-written e v h =
      ap (λ t. convert t [] []) (sym (append-nil (written e)))
      ∙ convert-written e [] [] [] v (Admits-nil e) (omega arith)
      ∙ drain-pending (pending e ++ []) (emitted e)
          (rw (append-nil (pending e)) (pending-IsOperator e))
          (omega (arith, length-pending e, length-append (pending e) []))
      ∙ ap done (ap (λ t. emitted e ++ t) (append-nil (pending e)) ∙ emitted-pending e)
