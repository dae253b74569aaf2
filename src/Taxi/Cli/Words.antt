-- ===== src/Taxi/Cli/Words.antt =====
-- `split_tokens` on words with spaces between them.
use mathlib.Core.List.{append_assoc, append-nil}
use eltex_education.Common.{
  ℕ, zero, suc, ◌+◌, ◌≤◌, ◌<◌, ◌≡◌, ◌∙◌, refl, sym, ap, true, false, some, List, [], ◌∷◌, ◌++◌,
  arith, ◌==◌, length, length-append, All,
}
use eltex_education.Common.CString.{CString, isspace}
use eltex_education.Taxi.Cli.{
  skip_spaces, front_token, behind_token, take_token, split_loop, split_tokens,
}

abbrev pub IsSpaces : CString → Type 0
IsSpaces s = All (λ c. isspace c ≡ true) s

abbrev IsDense : CString → Type 0
IsDense w = All (λ c. isspace c ≡ false) w

abbrev pub IsWord : CString → Type 0
IsWord [] = ⊥
IsWord (c ∷ w) = (isspace c ≡ false) × IsDense w

-- A word and how it is set off from the one in front: a space, and more spaces.
pub record Spaced : Type 0 where
  pub first : ℕ
  pub more : CString
  pub word : CString

abbrev pub IsSpaced : Spaced → Type 0
IsSpaced t = (isspace t.first ≡ true) × IsSpaces t.more × IsWord t.word

abbrev pub words : List Spaced → List CString
words [] = []
words (t ∷ ts) = t.word ∷ words ts

-- The rest of a line, behind its first word, and with spaces at its end.
abbrev pub line_rest : CString → List Spaced → CString
line_rest trail [] = trail
line_rest trail (t ∷ ts) = t.first ∷ (t.more ++ (t.word ++ line_rest trail ts))

-- Empty, or a space first.
abbrev IsApart : CString → Type 0
IsApart [] = Unit {0}
IsApart (c ∷ cs) = isspace c ≡ true

line_rest-IsApart :
    (trail : CString) (ts : List Spaced)
    → IsSpaces trail
    → All IsSpaced ts
    → IsApart (line_rest trail ts)
line_rest-IsApart [] [] a h = tt
line_rest-IsApart (c ∷ trail) [] (a, b) h = a
line_rest-IsApart trail (t ∷ ts) a ((s, m, x), h) = s

skip_spaces-append : (s text : CString) → IsSpaces s → skip_spaces (s ++ text) ≡ skip_spaces text
skip_spaces-append [] text a = refl
skip_spaces-append (c ∷ s) text (a, b) = rw a (skip_spaces-append s text b)

skip_spaces-word : (w text : CString) → IsWord w → skip_spaces (w ++ text) ≡ w ++ text
skip_spaces-word [] text v = absurd v
skip_spaces-word (c ∷ w) text (a, b) = rw a refl

front_token-dense : (w text : CString) → IsDense w → IsApart text → front_token (w ++ text) ≡ w
front_token-dense [] [] v a = refl
front_token-dense [] (c ∷ text) v a = rw a refl
front_token-dense (c ∷ w) text (v, vs) a = rw v (ap (λ l. c ∷ l) (front_token-dense w text vs a))

abbrev behind : CString → CString
behind [] = []
behind (c ∷ cs) = cs

behind_token-dense :
    (w text : CString) → IsDense w → IsApart text → behind_token (w ++ text) ≡ behind text
behind_token-dense [] [] v a = refl
behind_token-dense [] (c ∷ text) v a = rw a refl
behind_token-dense (c ∷ w) text (v, vs) a = rw v (behind_token-dense w text vs a)

split_round :
    (capacity fuel : ℕ) (lead w text : CString) (tokens : List CString)
    → IsSpaces lead
    → IsWord w
    → IsApart text
    → length tokens < capacity
    → split_loop (suc fuel) capacity (lead ++ (w ++ text)) tokens
      ≡ split_loop fuel capacity (behind text) (tokens ++ (w ∷ []))
unfolding split_loop
split_round capacity fuel lead [] text tokens a v i l = absurd v
split_round capacity fuel lead (c ∷ w) text tokens a (v, vs) i l =
    let space : (length tokens == capacity) ≡ false = ground arith in
    unfold split_loop in
    ap (λ t. take_token capacity t tokens (λ text' tokens'. split_loop fuel capacity text' tokens'))
      (skip_spaces-append lead ((c ∷ w) ++ text) a ∙ skip_spaces-word (c ∷ w) text (v, vs))
    ∙ rw (space, v, front_token-dense w text vs i, behind_token-dense w text vs i) refl

IsSpaces-behind : (s : CString) → IsSpaces s → IsSpaces (behind s)
IsSpaces-behind [] a = tt
IsSpaces-behind (c ∷ s) (a, b) = b

split_spaces :
    (capacity fuel : ℕ) (s : CString) (tokens : List CString)
    → IsSpaces s
    → split_loop (suc fuel) capacity s tokens ≡ some tokens
unfolding split_loop
split_spaces capacity fuel s tokens a =
    ap (λ t. take_token capacity t tokens (λ text' tokens'. split_loop fuel capacity text' tokens'))
      (ap skip_spaces (sym (append-nil s)) ∙ skip_spaces-append s [] a)

split_loop-words :
    (ts : List Spaced) (capacity fuel : ℕ) (lead w trail : CString) (tokens : List CString)
    → IsSpaces lead
    → IsWord w
    → All IsSpaced ts
    → IsSpaces trail
    → length tokens + suc (length ts) ≤ capacity
    → length ts + 2 ≤ fuel
    → split_loop fuel capacity (lead ++ (w ++ line_rest trail ts)) tokens
      ≡ some (tokens ++ (w ∷ words ts))
split_loop-words ts capacity zero lead w trail tokens a v h b l f = absurd (omega arith)
split_loop-words ts capacity (suc zero) lead w trail tokens a v h b l f = absurd (omega arith)
split_loop-words [] capacity (suc (suc fuel)) lead w trail tokens a v h b l f =
    split_round capacity (suc fuel) lead w trail tokens a v (line_rest-IsApart trail [] b tt)
      (omega arith)
    ∙ split_spaces capacity fuel (behind trail) (tokens ++ (w ∷ [])) (IsSpaces-behind trail b)
split_loop-words (t ∷ ts) capacity (suc (suc fuel)) lead w trail tokens a v ((s, m, x), h) b l f =
    split_round capacity (suc fuel) lead w (line_rest trail (t ∷ ts)) tokens a v s (omega arith)
    ∙ split_loop-words ts capacity (suc fuel) t.more t.word trail (tokens ++ (w ∷ [])) m x h b
        (omega (arith, length-append tokens (w ∷ []))) (omega arith)
    ∙ ap some (append_assoc tokens (w ∷ []) (t.word ∷ words ts))

line_rest-length : (trail : CString) (ts : List Spaced) → length ts ≤ length (line_rest trail ts)
line_rest-length trail [] = omega arith
line_rest-length trail (t ∷ ts) = omega (
  arith,
  line_rest-length trail ts,
  length-append t.more (t.word ++ line_rest trail ts),
  length-append t.word (line_rest trail ts),
)

pub split_tokens-words :
    (ts : List Spaced) (capacity : ℕ) (lead w trail : CString)
    → IsSpaces lead
    → IsWord w
    → All IsSpaced ts
    → IsSpaces trail
    → suc (length ts) ≤ capacity
    → split_tokens (lead ++ (w ++ line_rest trail ts)) capacity ≡ some (w ∷ words ts)
unfolding split_tokens
split_tokens-words ts capacity lead [] trail a v h b l = absurd v
split_tokens-words ts capacity lead (c ∷ w) trail a v h b l =
    split_loop-words ts capacity (suc (length (lead ++ ((c ∷ w) ++ line_rest trail ts)))) lead
      (c ∷ w) trail [] a v h b (omega arith)
      (omega (
        arith,
        line_rest-length trail ts,
        length-append lead ((c ∷ w) ++ line_rest trail ts),
        length-append w (line_rest trail ts),
      ))
