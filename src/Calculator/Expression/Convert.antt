-- ===== src/Calculator/Expression/Convert.antt =====
-- `to_postfix` on the tokens of an expression.
use mathlib.Core.List.{append_assoc, append-nil}
use eltex_education.Common.{
  ℕ, ◌+◌, ◌<◌, ◌≤◌, ◌≡◌, ◌≢◌, ◌∙◌, refl, sym, ap, true, false, not, ◌&&◌, ◌||◌, List, [], ◌∷◌, ◌++◌,
  arith, ltb, leb, ◌==◌, if◌then◌else◌, length, length-append, All, All-append,
}
use native.Mathlib.Decide.{ℕ_discrete}
use eltex_education.Calculator.{
  done, Token, number, operator, left_paren, right_paren, ans, token_arr_size, top_goes_first,
  pop_operators, pop_to_paren, drain,
}
use eltex_education.Calculator.Expression.{
  Expr, value, previous, binary, parens, rank, level, IsExpr, written, postfix,
}

goes_first-rank :
    (t c : ℕ)
    → 0 < rank t
    → 0 < rank c
    → top_goes_first t c ≡ (ltb (rank c) (rank t) || (rank c == rank t && not (rank c == 3)))
unfolding top_goes_first
goes_first-rank t c h k = ground arith

-- A left operand that binds tightly enough, by ranks alone.
tight : (c n : ℕ) → rank c + (if c == b'^' then 1 else 0) ≤ n → (rank c ≤ n) × (rank c ≡ 3 → 3 < n)
tight c n h = (ground arith, λ e. ground arith)

loose :
    (c n : ℕ) → rank c + (if c == b'^' then 0 else 1) ≤ n → (rank c ≤ n) × (rank c ≢ 3 → rank c < n)
loose c n h = (ground arith, λ e. ground arith)

pub room : (n : ℕ) → n < token_arr_size → leb token_arr_size n ≡ false
room n h = ground arith

rank-le : (c : ℕ) → rank c ≤ 3
rank-le c = ground arith

leaves : (p q : ℕ) → q ≤ p → (q ≡ 3 → 3 < p) → p ≤ 3 → (ltb q p || (q == p && not (q == 3))) ≡ true
leaves p q h k l = ground arith

stays : (p q : ℕ) → p ≤ q → (p ≢ 3 → p < q) → q ≤ 3 → (ltb q p || (q == p && not (q == 3))) ≡ false
stays p q h k l = elim (ℕ_discrete p 3) [
  | yes e ↦ ground arith
  | no ne ↦ let lt = k ne in ground arith
]

stays_below :
    (u c t : ℕ)
    → (ltb c u || (c == u && not (c == 3))) ≡ false
    → c ≤ t
    → (c ≡ 3 → 3 < t)
    → t ≤ 3
    → (ltb t u || (t == u && not (t == 3))) ≡ false
stays_below u c t b h k l = ground arith

-- An operator that binds less tightly than another does so than the other's right operand.
further :
    (c t n : ℕ)
    → rank c + (if c == b'^' then 1 else 0) ≤ rank t
    → rank t + (if t == b'^' then 0 else 1) ≤ n
    → rank c + (if c == b'^' then 1 else 0) ≤ n
further c t n h k = let g = loose t n k in omega (arith, g.0)

module _ {D : Type 0} where
  -- The operators that wait on the stack when the expression has been read, the last first, and
  -- the tokens that have gone out by then.
  abbrev pub pending : Expr D → List (Token D)
  pending (value x) = []
  pending previous = []
  pending (binary c l r) = pending r ++ (operator c ∷ [])
  pending (parens e) = []

  abbrev pub emitted : Expr D → List (Token D)
  emitted (value x) = number x ∷ []
  emitted previous = ans ∷ []
  emitted (binary c l r) = postfix l ++ emitted r
  emitted (parens e) = postfix e

  pub emitted-pending : (e : Expr D) → emitted e ++ pending e ≡ postfix e
  emitted-pending (value x) = refl
  emitted-pending previous = refl
  emitted-pending (parens e) = append-nil (postfix e)
  emitted-pending (binary c l r) =
      append_assoc (postfix l) (emitted r) (pending r ++ (operator c ∷ []))
      ∙ ap (λ t. postfix l ++ t)
          (sym (append_assoc (emitted r) (pending r) (operator c ∷ []))
            ∙ ap (λ t. t ++ (operator c ∷ [])) (emitted-pending r))

  pub length-postfix : (e : Expr D) → length (postfix e) ≤ length (written e)
  length-postfix (value x) = omega arith
  length-postfix previous = omega arith
  length-postfix (parens e) =
      omega (arith, length-postfix e, length-append (written e) (right_paren ∷ []))
  length-postfix (binary c l r) = omega (
    arith,
    length-postfix l,
    length-postfix r,
    length-append (postfix l) (postfix r ++ (operator c ∷ [])),
    length-append (postfix r) (operator c ∷ []),
    length-append (written l) (operator c ∷ written r),
  )

  pub length-pending : (e : Expr D) → length (emitted e) + length (pending e) ≤ length (written e)
  length-pending e = omega (
    arith,
    length-postfix e,
    length-append (emitted e) (pending e),
    ap length (emitted-pending e),
  )

  -- An operator that leaves the stack before one of this rank is pushed.
  abbrev pub IsFirst : ℕ → Token D → Type 0
  IsFirst c (operator t) = top_goes_first t c ≡ true
  IsFirst c (number x) = true ≡ false
  IsFirst c left_paren = true ≡ false
  IsFirst c right_paren = true ≡ false
  IsFirst c ans = true ≡ false

  -- The top of the stack stays when the operator is pushed.
  abbrev pub Blocks : List (Token D) → ℕ → Type 0
  Blocks [] c = Unit {0}
  Blocks (operator t ∷ stack) c = (0 < rank t) × (top_goes_first t c ≡ false)
  Blocks (number x ∷ stack) c = true ≡ false
  Blocks (left_paren ∷ stack) c = Unit {0}
  Blocks (right_paren ∷ stack) c = true ≡ false
  Blocks (ans ∷ stack) c = true ≡ false

  abbrev pub Admits : List (Token D) → Expr D → Type 0
  Admits stack (binary c l r) = Blocks stack c
  Admits stack (value x) = Unit {0}
  Admits stack previous = Unit {0}
  Admits stack (parens e) = Unit {0}

  pub pending-IsFirst :
      (c : ℕ) (e : Expr D)
      → IsExpr e
      → 0 < rank c
      → (rank c + (if c == b'^' then 1 else 0)) ≤ level e
      → All (IsFirst c) (pending e)
  pending-IsFirst c (value x) v h l = tt
  pending-IsFirst c previous v h l = tt
  pending-IsFirst c (parens e) v h l = tt
  pending-IsFirst c (binary t x y) (z, p, q, vx, vy) h l =
      All-append (IsFirst c) (pending y) (operator t ∷ [])
        (pending-IsFirst c y vy h (further c t (level y) l q))
        (
          let f = tight c (rank t) l in
              goes_first-rank t c z h ∙ leaves (rank t) (rank c) f.0 f.1 (rank-le t),
          tt,
        )

  pub Blocks-left :
      (stack : List (Token D)) (c : ℕ) (l : Expr D)
      → Blocks stack c
      → IsExpr l
      → 0 < rank c
      → (rank c + (if c == b'^' then 1 else 0)) ≤ level l
      → Admits stack l
  Blocks-left stack c (value x) b v h k = tt
  Blocks-left stack c previous b v h k = tt
  Blocks-left stack c (parens e) b v h k = tt
  Blocks-left [] c (binary t x y) b v h k = tt
  Blocks-left (left_paren ∷ stack) c (binary t x y) b v h k = tt
  Blocks-left (number d ∷ stack) c (binary t x y) b v h k = b
  Blocks-left (right_paren ∷ stack) c (binary t x y) b v h k = b
  Blocks-left (ans ∷ stack) c (binary t x y) b v h k = b
  Blocks-left (operator u ∷ stack) c (binary t x y) (p, b) v h k =
      let f = tight c (rank t) k in
      (
        p,
        goes_first-rank u t p v.0
            ∙ stays_below (rank u) (rank c) (rank t) (sym (goes_first-rank u c p h) ∙ b) f.0 f.1
                (rank-le t),
      )

  pub Blocks-right :
      (stack : List (Token D)) (c : ℕ) (r : Expr D)
      → IsExpr r
      → 0 < rank c
      → (rank c + (if c == b'^' then 0 else 1)) ≤ level r
      → Admits (operator c ∷ stack) r
  Blocks-right stack c (value x) v h k = tt
  Blocks-right stack c previous v h k = tt
  Blocks-right stack c (parens e) v h k = tt
  Blocks-right stack c (binary t x y) v h k =
      let f = loose c (rank t) k in
      (h, goes_first-rank c t h v.0 ∙ stays (rank c) (rank t) f.0 f.1 (rank-le t))

  -- There is room for what the loop moves.
  pub pop-first :
      (c : ℕ) (ps stack out : List (Token D))
      → All (IsFirst c) ps
      → Blocks stack c
      → length out + length ps ≤ token_arr_size
      → pop_operators (ps ++ stack) c out ≡ done (stack, out ++ ps)
  unfolding pop_operators
  pop-first c [] [] out f b h = ap (λ o. done ([], o)) (sym (append-nil out))
  pop-first c [] (operator t ∷ stack) out f (p, b) h =
      rw b (ap (λ o. done (operator t ∷ stack, o)) (sym (append-nil out)))
  pop-first c [] (left_paren ∷ stack) out f b h =
      ap (λ o. done (left_paren ∷ stack, o)) (sym (append-nil out))
  pop-first c [] (number x ∷ stack) out f b h = cc
  pop-first c [] (right_paren ∷ stack) out f b h = cc
  pop-first c [] (ans ∷ stack) out f b h = cc
  pop-first c (operator t ∷ ps) stack out (p, f) b h =
      rw (p, room (length out) (omega arith))
        (pop-first c ps stack (out ++ (operator t ∷ [])) f b
            (omega (arith, length-append out (operator t ∷ [])))
          ∙ ap (λ o. done (stack, o)) (append_assoc out (operator t ∷ []) ps))
  pop-first c (number x ∷ ps) stack out (p, f) b h = cc
  pop-first c (left_paren ∷ ps) stack out (p, f) b h = cc
  pop-first c (right_paren ∷ ps) stack out (p, f) b h = cc
  pop-first c (ans ∷ ps) stack out (p, f) b h = cc

  abbrev pub IsOperator : Token D → Type 0
  IsOperator (operator t) = Unit {0}
  IsOperator (number x) = true ≡ false
  IsOperator left_paren = true ≡ false
  IsOperator right_paren = true ≡ false
  IsOperator ans = true ≡ false

  pub pending-IsOperator : (e : Expr D) → All IsOperator (pending e)
  pending-IsOperator (value x) = tt
  pending-IsOperator previous = tt
  pending-IsOperator (parens e) = tt
  pending-IsOperator (binary c l r) =
      All-append IsOperator (pending r) (operator c ∷ []) (pending-IsOperator r) (tt, tt)

  pub pop_to_paren-pending :
      (ps stack out : List (Token D))
      → All IsOperator ps
      → length out + length ps ≤ token_arr_size
      → pop_to_paren (ps ++ (left_paren ∷ stack)) out ≡ done (stack, out ++ ps)
  unfolding pop_to_paren
  pop_to_paren-pending [] stack out f h = ap (λ o. done (stack, o)) (sym (append-nil out))
  pop_to_paren-pending (operator t ∷ ps) stack out (p, f) h = rw (room (length out) (omega arith)) (
      pop_to_paren-pending ps stack (out ++ (operator t ∷ [])) f
        (omega (arith, length-append out (operator t ∷ [])))
      ∙ ap (λ o. done (stack, o)) (append_assoc out (operator t ∷ []) ps))
  pop_to_paren-pending (number x ∷ ps) stack out (p, f) h = cc
  pop_to_paren-pending (left_paren ∷ ps) stack out (p, f) h = cc
  pop_to_paren-pending (right_paren ∷ ps) stack out (p, f) h = cc
  pop_to_paren-pending (ans ∷ ps) stack out (p, f) h = cc

  pub drain-pending :
      (ps out : List (Token D))
      → All IsOperator ps
      → length out + length ps ≤ token_arr_size
      → drain ps out ≡ done (out ++ ps)
  unfolding drain
  drain-pending [] out f h = ap done (sym (append-nil out))
  drain-pending (operator t ∷ ps) out (p, f) h = rw (room (length out) (omega arith)) (
      drain-pending ps (out ++ (operator t ∷ [])) f
        (omega (arith, length-append out (operator t ∷ [])))
      ∙ ap done (append_assoc out (operator t ∷ []) ps))
  drain-pending (number x ∷ ps) out (p, f) h = cc
  drain-pending (left_paren ∷ ps) out (p, f) h = cc
  drain-pending (right_paren ∷ ps) out (p, f) h = cc
  drain-pending (ans ∷ ps) out (p, f) h = cc
