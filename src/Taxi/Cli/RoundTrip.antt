-- ===== src/Taxi/Cli/RoundTrip.antt =====
-- Lines that a command is written on are read back.
use eltex_education.Common.{
  ℕ, suc, ◌-◌, ◌^◌, ◌≤◌, ◌<◌, ◌≡◌, ◌≢◌, ◌∙◌, refl, sym, ap, Bool, false, some, List, [], ◌∷◌, ◌++◌,
  arith, ltb, ◌==◌, length, All,
}
use eltex_education.Common.CString.{CString, strcmp}
use eltex_education.Taxi.Cli.{
  line_max, token_count_max, command_create_driver, command_send_task, command_get_status,
  command_get_drivers, ParseResult, Command, zero_command, create_driver_text, get_drivers_text,
  get_status_text, send_task_text, converted, parse_positive_uint32, token_command, parsed,
  cli_parse_command,
}
use eltex_education.Taxi.Cli.Words.{
  IsSpaces, IsWord, Spaced, IsSpaced, words, line_rest, split_tokens-words,
}

-- What a user asks for.
pub data Request : Type 0 where
  create_driver get_drivers : Request
  get_status : ℕ → Request
  send_task : ℕ → ℕ → Request

abbrev pub IsRequest : Request → Type 0
IsRequest create_driver = Unit {0}
IsRequest get_drivers = Unit {0}
IsRequest (get_status pid) = (0 < pid) × (pid < 2 ^ 32)
IsRequest (send_task pid timer) = ((0 < pid) × (pid < 2 ^ 32)) × ((0 < timer) × (timer < 2 ^ 32))

abbrev pub command_of : Request → Command
command_of create_driver = record zero_command { type = command_create_driver }
command_of get_drivers = record zero_command { type = command_get_drivers }
command_of (get_status pid) = record zero_command { type = command_get_status; driver_pid = pid }
command_of (send_task pid timer) = record {
  type = command_send_task;
  driver_pid = pid;
  task_timer = timer;
}

abbrev pub name_of : Request → CString
name_of create_driver = create_driver_text
name_of get_drivers = get_drivers_text
name_of (get_status pid) = get_status_text
name_of (send_task pid timer) = send_task_text

name_of-IsWord : (r : Request) → IsWord (name_of r)
name_of-IsWord create_driver = ground arith
name_of-IsWord get_drivers = ground arith
name_of-IsWord (get_status pid) = ground arith
name_of-IsWord (send_task pid timer) = ground arith

module _ (strtoul : CString → ℕ × CString × Bool) (spell : ℕ → CString)
    (spell_digit : (n : ℕ) → (c : ℕ) × (cs : CString) × (spell n ≡ c ∷ cs) × (c ≢ b'-'))
    (strtoul-spell : (n : ℕ) → n < 2 ^ 32 → strtoul (spell n) ≡ (n, [], false)) where
  abbrev pub arguments_of : Request → List CString
  arguments_of create_driver = []
  arguments_of get_drivers = []
  arguments_of (get_status pid) = spell pid ∷ []
  arguments_of (send_task pid timer) = spell pid ∷ spell timer ∷ []

  parse-spell : (n : ℕ) → (0 < n) × (n < 2 ^ 32) → parse_positive_uint32 strtoul (spell n) ≡ some n
  unfolding parse_positive_uint32
  parse-spell n (p, l) =
      let (c, cs, e, d) = spell_digit n in
      let plain : (c == b'-') ≡ false = ground arith in
      let value : (n == 0) ≡ false = ground arith in
      let fits : ltb (2 ^ 32 - 1) n ≡ false = ground arith in
      ap (parse_positive_uint32 strtoul) e
      ∙ rw plain (
          ap (λ t. converted strtoul (strtoul t)) (sym e)
          ∙ ap (converted strtoul) (strtoul-spell n l)
          ∙ rw (value, fits) refl)

  token_command-request :
      (r : Request)
      → IsRequest r
      → token_command strtoul (name_of r) (arguments_of r)
        ≡ (ParseResult.parse_complete, command_of r)
  unfolding token_command strcmp
  token_command-request create_driver v = refl
  token_command-request get_drivers v = refl
  token_command-request (get_status pid) v = rw (parse-spell pid v) refl
  token_command-request (send_task pid timer) (v, w) =
      rw (parse-spell pid v, parse-spell timer w) refl

  arguments_few : (r : Request) → length (arguments_of r) ≤ 2
  arguments_few create_driver = omega arith
  arguments_few get_drivers = omega arith
  arguments_few (get_status pid) = omega arith
  arguments_few (send_task pid timer) = omega arith

  length-words : (ts : List Spaced) → length (words ts) ≡ length ts
  length-words [] = refl
  length-words (t ∷ ts) = ap suc (length-words ts)

  -- A request whose numbers are from 1 to 2 ^ 32 - 1, written so that `strtoul` reads them back,
  -- on a line of at most 255 characters with spaces before its words and at the end, is read by
  -- `cli_parse_command` as a complete command of the same kind with the same pid and timer.
  pub cli_parse_command-request :
      (r : Request) (ts : List Spaced) (lead trail : CString) (command : Command)
      → IsRequest r
      → words ts ≡ arguments_of r
      → IsSpaces lead
      → All IsSpaced ts
      → IsSpaces trail
      → length (lead ++ (name_of r ++ line_rest trail ts)) ≤ line_max
      → cli_parse_command strtoul (some (lead ++ (name_of r ++ line_rest trail ts))) (some command)
        ≡ some (ParseResult.parse_complete, some (command_of r))
  unfolding cli_parse_command
  cli_parse_command-request r ts lead trail command v e a h b l =
      let line = lead ++ (name_of r ++ line_rest trail ts) in
      let short : ltb line_max (length line) ≡ false = ground arith in
      rw short (
        ap (λ t. parsed strtoul t command)
          (split_tokens-words ts token_count_max lead (name_of r) trail a (name_of-IsWord r) h b
            (omega (arith, length-words ts, ap length e, arguments_few r)))
        ∙ ap (λ t. parsed strtoul (some (name_of r ∷ t)) command) e
        ∙ ap (λ t. some (t.0, some t.1)) (token_command-request r v))
