-- ===== src/Taxi/Cli.antt =====
-- src/cli.c: the commands of the terminal. `strtoul(text, &end, 10)` is a parameter: its value, the text
-- at `end`, and whether it sets `errno`.
pub mod Words
pub mod RoundTrip
use eltex_education.Common.{
  ℕ, zero, suc, ◌-◌, ◌^◌, Bool, true, false, not, ◌&&◌, ◌||◌, Option, none, some, List, [], ◌∷◌,
  ◌++◌, ltb, ◌==◌, ◌!=◌, if◌then◌else◌, length,
}
use eltex_education.Common.Memory.{Pointer}
use eltex_education.Common.CString.{CString, same_text, isspace}

-- `CLI_LINE_MAX`
abbrev pub line_max : ℕ
line_max = 255

abbrev pub token_count_max : ℕ
token_count_max = 4

-- `cli_command_type_t`; 0 is none of them.
abbrev pub command_create_driver : ℕ
command_create_driver = 1

abbrev pub command_send_task : ℕ
command_send_task = 2

abbrev pub command_get_status : ℕ
command_get_status = 3

abbrev pub command_get_drivers : ℕ
command_get_drivers = 4

-- `cli_parse_result_t`
pub data ParseResult : Type 0 where
  parse_invalid parse_empty parse_complete : ParseResult

-- `cli_command_t`
pub record Command : Type 0 where
  pub type : ℕ
  pub driver_pid : ℕ
  pub task_timer : ℕ

abbrev pub zero_command : Command
zero_command = record { type = 0; driver_pid = 0; task_timer = 0 }

-- The two inner loops of `split_tokens`: what stands behind the spaces, the token at the front, and what
-- stands behind it, without the character at its end, which becomes NUL.
abbrev pub skip_spaces : CString → CString
skip_spaces [] = []
skip_spaces (c ∷ cs) = if isspace c then skip_spaces cs else c ∷ cs

abbrev pub front_token : CString → CString
front_token [] = []
front_token (c ∷ cs) = if isspace c then [] else c ∷ front_token cs

abbrev pub behind_token : CString → CString
behind_token [] = []
behind_token (c ∷ cs) = if isspace c then cs else behind_token cs

-- A round of the outer loop, at a text without spaces at its front.
abbrev pub take_token :
    ℕ
    → CString
    → List CString
    → (CString → List CString → Option (List CString))
    → Option (List CString)
take_token capacity [] tokens rest = some tokens
take_token capacity (c ∷ cs) tokens rest =
    if length tokens == capacity
    then some tokens
    else rest (behind_token (c ∷ cs)) (tokens ++ (front_token (c ∷ cs) ∷ []))

-- The loop on fuel, `none` if it runs out.
unfoldable pub split_loop : ℕ → ℕ → CString → List CString → Option (List CString)
split_loop zero capacity text tokens = none
split_loop (suc fuel) capacity text tokens =
    take_token capacity (skip_spaces text) tokens
      (λ text' tokens'. split_loop fuel capacity text' tokens')

-- A round takes a character at least.
unfoldable pub split_tokens : CString → ℕ → Option (List CString)
unfolding split_loop
split_tokens line capacity = split_loop (suc (length line)) capacity line []

-- The names of the commands.
abbrev pub create_driver_text : CString
create_driver_text =
    b'c' ∷ b'r' ∷ b'e' ∷ b'a' ∷ b't' ∷ b'e' ∷ b'_' ∷ b'd' ∷ b'r' ∷ b'i' ∷ b'v' ∷ b'e' ∷ b'r' ∷ []

abbrev pub get_drivers_text : CString
get_drivers_text = b'g' ∷ b'e' ∷ b't' ∷ b'_' ∷ b'd' ∷ b'r' ∷ b'i' ∷ b'v' ∷ b'e' ∷ b'r' ∷ b's' ∷ []

abbrev pub get_status_text : CString
get_status_text = b'g' ∷ b'e' ∷ b't' ∷ b'_' ∷ b's' ∷ b't' ∷ b'a' ∷ b't' ∷ b'u' ∷ b's' ∷ []

abbrev pub send_task_text : CString
send_task_text = b's' ∷ b'e' ∷ b'n' ∷ b'd' ∷ b'_' ∷ b't' ∷ b'a' ∷ b's' ∷ b'k' ∷ []

module _ (strtoul : CString → ℕ × CString × Bool) where
  abbrev pub converted : ℕ × CString × Bool → Option ℕ
  converted (value, c ∷ cs, failed) = none
  converted (value, [], failed) =
      if failed || value == 0 || ltb (2 ^ 32 - 1) value then none else some value

  -- `*value` on true, `none` on false.
  unfoldable pub parse_positive_uint32 : CString → Option ℕ
  parse_positive_uint32 [] = none
  parse_positive_uint32 (c ∷ cs) = if c == b'-' then none else converted (strtoul (c ∷ cs))

  abbrev pub status_command : Option ℕ → ParseResult × Command
  status_command none = (parse_invalid, zero_command)
  status_command (some pid) =
      (parse_complete, record { type = command_get_status; driver_pid = pid; task_timer = 0 })

  abbrev pub task_command : Option ℕ → Option ℕ → ParseResult × Command
  task_command none timer = (parse_invalid, zero_command)
  task_command (some pid) none =
      (parse_invalid, record { type = 0; driver_pid = pid; task_timer = 0 })
  task_command (some pid) (some timer) =
      (parse_complete, record { type = command_send_task; driver_pid = pid; task_timer = timer })

  abbrev pub get_status : List CString → ParseResult × Command
  get_status (pid ∷ []) = status_command (parse_positive_uint32 pid)
  get_status [] = (parse_invalid, zero_command)
  get_status (pid ∷ t ∷ ts) = (parse_invalid, zero_command)

  abbrev pub send_task : List CString → ParseResult × Command
  send_task (pid ∷ timer ∷ []) =
      task_command (parse_positive_uint32 pid) (parse_positive_uint32 timer)
  send_task [] = (parse_invalid, zero_command)
  send_task (pid ∷ []) = (parse_invalid, zero_command)
  send_task (pid ∷ timer ∷ t ∷ ts) = (parse_invalid, zero_command)

  abbrev pub no_arguments : List CString → Bool
  no_arguments [] = true
  no_arguments (t ∷ ts) = false

  -- The command that the tokens form, from a command that is zero.
  unfoldable pub token_command : CString → List CString → ParseResult × Command
  unfolding parse_positive_uint32
  token_command name arguments =
      if no_arguments arguments && same_text name create_driver_text
      then (parse_complete, record zero_command { type = command_create_driver })
      else if no_arguments arguments && same_text name get_drivers_text
      then (parse_complete, record zero_command { type = command_get_drivers })
      else if same_text name get_status_text
      then get_status arguments
      else if same_text name send_task_text
      then send_task arguments
      else (parse_invalid, zero_command)

  abbrev pub parsed : Option (List CString) → Command → Option (ParseResult × Pointer Command)
  parsed none command = none
  parsed (some []) command = some (parse_empty, some command)
  parsed (some (name ∷ arguments)) command =
      let (result, c) = token_command name arguments in some (result, some c)

  -- `none` only if `split_tokens` ran out of fuel.
  unfoldable pub cli_parse_command :
      Pointer CString → Pointer Command → Option (ParseResult × Pointer Command)
  unfolding split_tokens token_command
  cli_parse_command none command = some (parse_invalid, command)
  cli_parse_command (some line) none = some (parse_invalid, none)
  cli_parse_command (some line) (some command) =
      if ltb line_max (length line)
      then some (parse_invalid, some command)
      else parsed (split_tokens line token_count_max) command
