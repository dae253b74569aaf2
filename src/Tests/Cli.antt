-- ===== src/Tests/Cli.antt =====
-- The command `send_task 2 3` on a line with a space at its end, with numbers of ten decimal digits.
use eltex_education.Common.{
  ℕ, zero, suc, ◌+◌, ◌-◌, ◌*◌, ◌/◌, ◌%◌, ◌^◌, ◌<◌, ◌≤◌, ◌≡◌, ◌≢◌, ◌∙◌, refl, ap, Bool, true, false,
  some, List, [], ◌∷◌, ◌++◌, arith, ltb, if◌then◌else◌,
}
use eltex_education.Common.CString.{CString, isdigit}
use eltex_education.Taxi.Cli.{ParseResult, zero_command, send_task_text, cli_parse_command}
use eltex_education.Taxi.Cli.RoundTrip.{send_task, command_of, cli_parse_command-request}
use eltex_education.Taxi.Cli.Words.{Spaced, line_rest}

-- The digits at the front, on the value of those before, and what stands behind them.
abbrev read_digits : ℕ → CString → ℕ × CString
read_digits value [] = (value, [])
read_digits value (c ∷ cs) =
    if isdigit c then read_digits (value * 10 + (c - 48)) cs else (value, c ∷ cs)

-- Out of range, `strtoul` returns `ULONG_MAX` and sets `errno`.
abbrev in_range : ℕ × CString → ℕ × CString × Bool
in_range (value, rest) =
    if ltb (2 ^ 64 - 1) value then (2 ^ 64 - 1, rest, true) else (value, rest, false)

-- `strtoul` on a text without spaces and signs at its front.
abbrev strtoul : CString → ℕ × CString × Bool
strtoul text = in_range (read_digits 0 text)

-- The last `k` decimal digits of a number.
abbrev digits : ℕ → ℕ → CString → CString
digits zero n rest = rest
digits (suc k) n rest = digits k (n / 10) ((48 + n % 10) ∷ rest)

abbrev spell : ℕ → CString
spell n = digits 10 n []

abbrev ten_to : ℕ → ℕ
ten_to zero = 1
ten_to (suc k) = 10 * ten_to k

read_digit :
    (value n : ℕ) (rest : CString)
    → read_digits value ((48 + n % 10) ∷ rest) ≡ read_digits (value * 10 + n % 10) rest
read_digit value n rest =
    let d : isdigit (48 + n % 10) ≡ true = ground arith in
    let e : 48 + n % 10 - 48 ≡ n % 10 = omega arith in rw (d, e) refl

read_digits-digits :
    (k n : ℕ) (rest : CString) → n < ten_to k → read_digits 0 (digits k n rest) ≡ read_digits n rest
read_digits-digits zero n rest l = let e : n ≡ 0 = omega arith in rw e refl
read_digits-digits (suc k) n rest l =
    let e : n / 10 * 10 + n % 10 ≡ n = omega arith in
    read_digits-digits k (n / 10) ((48 + n % 10) ∷ rest) (omega arith)
    ∙ read_digit (n / 10) n rest
    ∙ ap (λ m. read_digits m rest) e

strtoul-spell : (n : ℕ) → n < 2 ^ 32 → strtoul (spell n) ≡ (n, [], false)
strtoul-spell n l =
    ap in_range (read_digits-digits 10 n [] (omega arith))
    ∙ (let e : ltb (2 ^ 64 - 1) n ≡ false = ground arith in rw e refl)

digits-front :
    (k n : ℕ) (c : ℕ) (cs : CString)
    → 48 ≤ c
    → (d : ℕ) × (ds : CString) × (digits k n (c ∷ cs) ≡ d ∷ ds) × (d ≢ b'-')
digits-front zero n c cs l = (c, cs, refl, omega arith)
digits-front (suc k) n c cs l = digits-front k (n / 10) (48 + n % 10) (c ∷ cs) (omega arith)

spell_digit : (n : ℕ) → (c : ℕ) × (cs : CString) × (spell n ≡ c ∷ cs) × (c ≢ b'-')
spell_digit n = digits-front 9 (n / 10) (48 + n % 10) [] (omega arith)

abbrev arguments : List Spaced
arguments =
    record { first = 32; more = []; word = spell 2 }
    ∷ record { first = 32; more = 9 ∷ []; word = spell 3 }
    ∷ []

cli_parse_command-request_example :
    cli_parse_command strtoul
      (some ([] ++ (send_task_text ++ line_rest (32 ∷ []) arguments)))
      (some zero_command)
    ≡ some (ParseResult.parse_complete, some (command_of (send_task 2 3)))
cli_parse_command-request_example =
    cli_parse_command-request strtoul spell spell_digit strtoul-spell (send_task 2 3) arguments []
      (32 ∷ []) zero_command (omega arith) refl tt (ground arith) (refl, tt) (omega arith)
