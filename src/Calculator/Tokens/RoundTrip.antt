-- ===== src/Calculator/Tokens/RoundTrip.antt =====
-- `tokenize` ends, and reads back tokens that are written with a space behind each.
use mathlib.Core.List.{append_assoc, append-nil}
use eltex_education.Common.{
  ℕ, zero, suc, ◌+◌, ◌-◌, ◌<◌, ◌≤◌, ◌≡◌, ◌≢◌, inl, inr, ◌∙◌, refl, sym, ap, Bool, true, false, ◌||◌,
  Option, none, some, List, [], ◌∷◌, ◌++◌, arith, leb, ◌==◌, length, drop, length-drop, drop-append,
  length-append, All, All-append, Bool-cases,
}
use eltex_education.Common.CString.{isdigit, CString, strcmp}
use eltex_education.Calculator.{
  CalcStatus, Result, done, fail, Arithmetic, Token, Calculator, number, operator, left_paren,
  right_paren, ans, token_arr_size,
}
use eltex_education.Calculator.Expression.{
  Expr, value, previous, binary, parens, IsExpr, rank, written, evaluate,
}
use eltex_education.Calculator.Expression.Convert.{room}
use eltex_education.Calculator.Expression.Evaluate.{settled, calculate_postfix-postfix}
use eltex_education.Calculator.Tokens.{
  starts_ans, number_at, next_token, append_next, tokenize_loop, not_empty, ended, tokenize,
  with_tokens, calculate_converted, calculate_expression,
}

drop_less :
    {A : Type 0} (n : ℕ) (x : A) (xs : List A) → n ≢ 0 → length (drop n (x ∷ xs)) ≤ length xs
drop_less zero x xs h = absurd (h refl)
drop_less (suc n) x xs h = length-drop n xs

module _ {D : Type 0} (strtod : CString → D × ℕ × Bool) where
  -- A round fails, or what it leaves is shorter.
  abbrev Shrinks : Result (Option (Token D) × CString) → ℕ → Type 0
  Shrinks (fail s) n = Unit {0}
  Shrinks (done (o, text)) n = length text ≤ n

  number-Shrinks :
      (x : D) (taken : ℕ) (erange : Bool) (c : ℕ) (cs : CString)
      → Shrinks (number_at strtod (x, taken, erange) (c ∷ cs)) (length cs)
  number-Shrinks x taken erange c cs = elim (Bool-cases (taken == 0 || erange)) [
    | inl e ↦ rw e tt
    | inr e ↦ rw e (drop_less taken c cs (ground arith))
  ]

  next_token-Shrinks : (c : ℕ) (cs : CString) → Shrinks (next_token strtod c cs) (length cs)
  unfolding next_token
  next_token-Shrinks c cs = ground (
    arith,
    length-drop 2 cs,
    number-Shrinks (strtod (c ∷ cs)).0 (strtod (c ∷ cs)).1 (strtod (c ∷ cs)).2 c cs,
  )

  append_next_ends :
      (r : Result (Option (Token D) × CString)) (n : ℕ) (res : List (Token D))
      → (rest : CString → List (Token D) → Option (Result (List (Token D)))) → Shrinks r n
      → ((text : CString) (res' : List (Token D))
          → length text ≤ n
          → (q : Result (List (Token D))) × (rest text res' ≡ some q))
      → (q : Result (List (Token D))) × (append_next strtod r res rest ≡ some q)
  append_next_ends (fail s) n res rest h k = (fail s, refl)
  append_next_ends (done (none, text)) n res rest h k = k text res h
  append_next_ends (done (some t, text)) n res rest h k =
      elim (Bool-cases (leb token_arr_size (length res))) [
        | inl e ↦ (fail CalcStatus.too_many_tokens, rw e refl)
        | inr e ↦ let (q, p) = k text (res ++ (t ∷ [])) h in (q, rw e p)
      ]

  tokenize_loop_ends :
      (k : ℕ) (text : CString) (res : List (Token D))
      → length text < k
      → (q : Result (List (Token D))) × (tokenize_loop strtod k text res ≡ some q)
  unfolding tokenize_loop
  tokenize_loop_ends zero text res h = absurd (omega arith)
  tokenize_loop_ends (suc k) [] res h = (done res, refl)
  tokenize_loop_ends (suc k) (c ∷ cs) res h =
      append_next_ends (next_token strtod c cs) (length cs) res
        (λ text res'. tokenize_loop strtod k text res') (next_token-Shrinks c cs)
        (λ text res' l. tokenize_loop_ends k text res' (omega arith))

  -- `tokenize` ends on every input, whatever number and length `strtod` answers.
  pub tokenize_ends :
      (input : CString) → (q : Result (List (Token D))) × (tokenize strtod input ≡ some q)
  unfolding tokenize
  tokenize_ends input =
      let (q, e) = tokenize_loop_ends (suc (length input)) input [] (omega arith) in
      (not_empty strtod q, ap (ended strtod) e)

-- A predicate of every number that an expression names.
abbrev pub Literals : {D : Type 0} → (D → Type 0) → Expr D → Type 0
Literals P (value x) = P x
Literals P previous = Unit {0}
Literals P (binary c l r) = Literals P l × Literals P r
Literals P (parens e) = Literals P e

-- A character that a number starts with.
abbrev pub starts_number : ℕ → Bool
starts_number c = isdigit c || c == b'.'

-- A number that is written in this way, from a digit or a point on: `strtod` reads it back where a space
-- follows, and sets no `ERANGE`.
pub record Legible {D : Type 0} (strtod : CString → D × ℕ × Bool) (spelling : CString) (x : D)
    : Type 0 where
  pub first : ℕ
  pub more : CString
  pub split : spelling ≡ first ∷ more
  pub start : starts_number first ≡ true
  pub reads : (rest : CString) → strtod (spelling ++ (32 ∷ rest)) ≡ (x, length spelling, false)

-- `spell` says how each number is written.
module _ {D : Type 0} (strtod : CString → D × ℕ × Bool) (spell : D → CString) where
  abbrev pub IsLegible : D → Type 0
  IsLegible x = Legible strtod (spell x) x

  -- The tokens that `tokenize` makes.
  abbrev IsToken : Token D → Type 0
  IsToken (operator c) = 0 < rank c
  IsToken (number x) = IsLegible x
  IsToken left_paren = Unit {0}
  IsToken right_paren = Unit {0}
  IsToken ans = Unit {0}

  written-IsToken : (e : Expr D) → IsExpr e → Literals IsLegible e → All IsToken (written e)
  written-IsToken (value x) v s = (s, tt)
  written-IsToken previous v s = (tt, tt)
  written-IsToken (parens e) v s =
      (tt, All-append IsToken (written e) (right_paren ∷ []) (written-IsToken e v s) (tt, tt))
  written-IsToken (binary c l r) (z, p, q, v, w) (s, t) =
      All-append IsToken (written l) (operator c ∷ written r) (written-IsToken l v s)
        (z, written-IsToken r w t)

  abbrev spell_token : Token D → CString
  spell_token (number x) = spell x
  spell_token (operator c) = c ∷ []
  spell_token left_paren = b'(' ∷ []
  spell_token right_paren = b')' ∷ []
  spell_token ans = b'a' ∷ b'n' ∷ b's' ∷ []

  -- Each token with a space behind it.
  abbrev pub spelled : List (Token D) → CString
  spelled [] = []
  spelled (t ∷ ts) = spell_token t ++ (32 ∷ spelled ts)

  next_token-operator :
      (c : ℕ) (cs : CString) → 0 < rank c → next_token strtod c cs ≡ done (some (operator c), cs)
  unfolding next_token
  next_token-operator c cs h = ground arith

  next_token-number :
      (c : ℕ) (cs : CString)
      → starts_number c ≡ true
      → next_token strtod c cs ≡ number_at strtod (strtod (c ∷ cs)) (c ∷ cs)
  unfolding next_token
  next_token-number c cs h = ground arith

  next_token-spell :
      (x : D) (l : IsLegible x) (rest : CString)
      → next_token strtod l.first (l.more ++ (32 ∷ rest)) ≡ done (some (number x), 32 ∷ rest)
  next_token-spell x l rest =
      next_token-number l.first (l.more ++ (32 ∷ rest)) l.start
      ∙ ap (λ r. number_at strtod r (l.first ∷ (l.more ++ (32 ∷ rest))))
          (ap (λ t. strtod (t ++ (32 ∷ rest))) (sym l.split)
            ∙ l.reads rest
            ∙ ap (λ t. (x, length t, false)) l.split)
      ∙ (let p = drop-append l.more (32 ∷ rest) in ground (arith, p))

  tokenize_round :
      (t : Token D) (k : ℕ) (text : CString) (res : List (Token D))
      → IsToken t
      → length res < token_arr_size
      → tokenize_loop strtod (suc (suc k)) (spell_token t ++ (32 ∷ text)) res
        ≡ tokenize_loop strtod k text (res ++ (t ∷ []))
  unfolding tokenize_loop next_token starts_ans strcmp
  tokenize_round (operator c) k text res v h =
      unfold tokenize_loop in
      ap (λ r. append_next strtod r res (λ text' res'. tokenize_loop strtod (suc k) text' res'))
        (next_token-operator c (32 ∷ text) v)
      ∙ rw (room (length res) h) refl
  tokenize_round (number x) k text res v h =
      ap (λ t. tokenize_loop strtod (suc (suc k)) (t ++ (32 ∷ text)) res) v.split
      ∙ ap (λ r. append_next strtod r res (λ text' res'. tokenize_loop strtod (suc k) text' res'))
          (next_token-spell x v text)
      ∙ rw (room (length res) h) refl
  tokenize_round left_paren k text res v h = rw (room (length res) h) refl
  tokenize_round right_paren k text res v h = rw (room (length res) h) refl
  tokenize_round ans k text res v h = rw (room (length res) h) refl

  length-spell : (t : Token D) → IsToken t → 1 ≤ length (spell_token t)
  length-spell (operator c) v = omega arith
  length-spell left_paren v = omega arith
  length-spell right_paren v = omega arith
  length-spell ans v = omega arith
  length-spell (number x) v = omega (arith, ap length v.split)

  length-spelled :
      (ts : List (Token D)) → All IsToken ts → length ts + length ts ≤ length (spelled ts)
  length-spelled [] v = omega arith
  length-spelled (t ∷ ts) (p, v) = omega (
    arith,
    length-spell t p,
    length-spelled ts v,
    length-append (spell_token t) (32 ∷ spelled ts),
  )

  tokenize_loop-spelled :
      (ts : List (Token D)) (k : ℕ) (res : List (Token D))
      → All IsToken ts
      → length res + length ts ≤ token_arr_size
      → tokenize_loop strtod (length ts + length ts + suc k) (spelled ts) res
        ≡ some (done (res ++ ts))
  tokenize_loop-spelled [] k res v h =
      let f : 0 + suc k ≡ suc k = omega arith in
      rw f (unfold tokenize_loop in ap (λ r. some (done r)) (sym (append-nil res)))
  tokenize_loop-spelled (t ∷ ts) k res (p, v) h =
      let fuel : length (t ∷ ts) + length (t ∷ ts) + suc k
          ≡ suc (suc (length ts + length ts + suc k)) =
        omega arith in
      rw fuel (
        tokenize_round t (length ts + length ts + suc k) (spelled ts) res p (omega arith)
        ∙ tokenize_loop-spelled ts k (res ++ (t ∷ [])) v (omega (arith, length-append res (t ∷ [])))
        ∙ ap (λ r. some (done r)) (append_assoc res (t ∷ []) ts))

  tokenize-spelled :
      (ts : List (Token D))
      → All IsToken ts
      → 0 < length ts
      → length ts ≤ token_arr_size
      → tokenize strtod (spelled ts) ≡ some (done ts)
  unfolding tokenize
  tokenize-spelled [] v p h = absurd (omega arith)
  tokenize-spelled (t ∷ ts) v p h =
      let n = length (t ∷ ts) in
      let m = length (spelled (t ∷ ts)) in
      let fuel : suc m ≡ n + n + suc (m - (n + n)) = omega (arith, length-spelled (t ∷ ts) v) in
      ap (λ k. ended strtod (tokenize_loop strtod k (spelled (t ∷ ts)) [])) fuel
      ∙ ap (ended strtod) (tokenize_loop-spelled (t ∷ ts) (m - (n + n)) [] v (omega arith))

  written-positive : (e : Expr D) → 0 < length (written e)
  written-positive (value x) = omega arith
  written-positive previous = omega arith
  written-positive (parens e) = omega arith
  written-positive (binary c l r) =
      omega (arith, written-positive l, length-append (written l) (operator c ∷ written r))

  -- For an expression whose parentheses stand where priorities and associativity need them, of at
  -- most 100 tokens, written with a space behind each token and its numbers in a way that starts
  -- with a digit or a point and that `strtod` reads back, `calculate_expression` gives the
  -- expression's value and keeps it as the last result, or the first error of evaluating it from
  -- left to right, and then keeps the calculator as it was.
  pub calculate_expression-spelled :
      (a : Arithmetic D) (calc : Calculator D) (e : Expr D)
      → IsExpr e
      → Literals IsLegible e
      → length (written e) ≤ token_arr_size
      → calculate_expression strtod a (spelled (written e)) calc
        ≡ some (settled calc (evaluate a calc e))
  unfolding calculate_expression
  calculate_expression-spelled a calc e v s h =
      let (converted, result) = calculate_postfix-postfix a calc e v h in
      ap (with_tokens strtod a calc)
        (tokenize-spelled (written e) (written-IsToken e v s) (written-positive e) h)
      ∙ ap (λ r. some (calculate_converted strtod a calc r)) converted
      ∙ ap some result
