-- ===== src/Taxi/Driver/Input.antt =====
-- `process_input` of driver.c: the loop over the frames in the input buffer, against the messages
-- that the bytes stand for.
pub mod Framing
use mathlib.Core.Option
use eltex_education.Common.{
  ℕ, zero, suc, ◌+◌, ◌-◌, ◌*◌, ◌≤◌, ◌<◌, ◌≡◌, refl, ◌∙◌, ap, Bool, true, false, not, ◌&&◌, Option,
  none, some, List, [], ◌∷◌, ◌++◌, arith, ltb, ◌==◌, if◌then◌else◌, length, ◌≢◌, ◌⊎◌, inl, inr,
  Bool-cases,
}
use eltex_education.Common.Memory.{Memory, Pointer, offset, memcpy, AgreeBelow}
use eltex_education.Taxi.Protocol.{
  Message, FrameStatus, frame_bytes, message_of, protocol_frame_size, protocol_decode,
}
use eltex_education.Taxi.Protocol.Codec.{IsFrame}
use eltex_education.Taxi.Driver.{Timespec, Driver, Outcome, handle_message}
use eltex_education.Taxi.Driver.Handle.{handle_message-input}

-- What one call of `process_input` does: its result, the driver and `*running` after it, and the
-- messages handed to `send_message`, oldest first.
pub record Processed : Type 0 where
  pub done : Bool
  pub driver : Driver
  pub running : Bool
  pub replies : List Message

abbrev pub reply_list : Option Message → List Message
reply_list none = []
reply_list (some m) = m ∷ []

abbrev pub earlier : Option Message → Processed → Processed
earlier r p = record p { replies = reply_list r ++ p.replies }

-- `memmove` of the bytes behind the frame to the front, and the new size.
abbrev pub drop_frame : Driver → ℕ → Driver
drop_frame d n = record d {
  input = λ i. if ltb i (d.input_size - n) then d.input (n + i) else d.input i;
  input_size = d.input_size - n;
}

abbrev pub finish : Outcome → Processed
finish o = record {
  done = o.done;
  driver = o.driver;
  running = o.running;
  replies = reply_list o.reply;
}

abbrev pub stop_at : Bool → Driver → Bool → Processed
stop_at done d running = record { done = done; driver = d; running = running; replies = [] }

-- The rest of the loop, `none` if its fuel runs out.
abbrev pub Rest : Type 0
Rest = Driver → Bool → Option Processed

-- What stands behind the call of `handle_message` in the body of the loop.
pub after_message : Outcome → ℕ → Rest → Option Processed
after_message o n rest =
    if not o.done
    then some (finish o)
    else if not o.running
    then some (finish (record o { driver = drop_frame o.driver n }))
    else Option.map (earlier o.reply) (rest (drop_frame o.driver n) o.running)

-- The local `message` before `protocol_decode` fills it.
abbrev pub blank : Message
blank = record { type = 0; request_id = 0; driver_pid = 0; task_timer = 0 }

-- `clock k` and `send k` are what the clock and `send_message` answer for the `k`-th message.
module _ (pid : ℕ) (clock : ℕ → Option Timespec) (send : ℕ → Message → Bool) where
  pub process_decoded : Bool × Pointer Message → ℕ → ℕ → Driver → Bool → Rest → Option Processed
  process_decoded (true, some m) n k d running rest =
      after_message (handle_message pid (send k) d m running (clock k)) n rest
  process_decoded (true, none) n k d running rest = some (stop_at false d running)
  process_decoded (false, m) n k d running rest = some (stop_at false d running)

  -- The body behind the call of `protocol_frame_size`.
  pub process_frame : FrameStatus × Pointer ℕ → ℕ → Driver → Bool → Rest → Option Processed
  unfolding process_decoded
  process_frame (FrameStatus.incomplete, size) k d running rest = some (stop_at true d running)
  process_frame (FrameStatus.invalid, size) k d running rest = some (stop_at false d running)
  process_frame (FrameStatus.complete, none) k d running rest = some (stop_at false d running)
  process_frame (FrameStatus.complete, some n) k d running rest =
      process_decoded (protocol_decode (some d.input) n (some blank)) n k d running rest

  -- The loop on fuel. `k` messages came before.
  pub process_loop : ℕ → ℕ → Driver → Bool → Option Processed
  unfolding process_frame
  process_loop zero k d running = none
  process_loop (suc fuel) k d running =
      let rest = λ (d' : Driver) (r : Bool). process_loop fuel (suc k) d' r in
      if d.input_size == 0
      then some (stop_at true d running)
      else process_frame (protocol_frame_size (some d.input) d.input_size (some 0)) k d running rest

  -- Each round takes 24 bytes off the buffer, so one more than its size suffices.
  unfoldable pub process_input : Driver → Bool → Option Processed
  unfolding process_loop
  process_input d running = process_loop (suc d.input_size) 0 d running

  -- The messages in order: each is handled once, and the first that fails or stops the driver ends
  -- the row. Its bytes leave the buffer unless it failed.
  unfoldable pub serve_all : ℕ → List Message → Driver → Bool → Processed
  serve_all k [] d running = stop_at true d running
  serve_all k (m ∷ ms) d running =
      let o = handle_message pid (send k) d m running (clock k) in
      let rest = serve_all (suc k) ms (drop_frame o.driver frame_bytes) o.running in
      if not o.done
      then finish o
      else if not o.running
      then finish (record o { driver = drop_frame o.driver frame_bytes })
      else earlier o.reply rest
