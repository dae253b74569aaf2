-- ===== src/Taxi/Driver/Receive.antt =====
-- `receive_input` of driver.c: what the socket answers goes behind the bytes in the input buffer,
-- and `process_input` takes the frames off it.
use eltex_education.Common.{
  ℕ, ◌+◌, ◌<◌, ◌≡◌, Bool, true, false, Option, some, arith, ltb, ◌==◌, if◌then◌else◌, inl, inr,
  Bool-cases,
}
use eltex_education.Common.Memory.{Memory, memcpy}
use eltex_education.Taxi.Protocol.{Message, frame_bytes}
use eltex_education.Taxi.Driver.{Timespec, Driver, input_capacity}
use eltex_education.Taxi.Driver.Input.{Processed, stop_at, process_input}
use eltex_education.Taxi.Driver.Input.Framing.{process_input-ends}

-- An answer of `recv`: some bytes (none when the manager has closed), `EAGAIN`, or another error.
pub data ReceiveEvent : Type 0 where
  received : ℕ → Memory → ReceiveEvent
  would_block failed : ReceiveEvent

-- The bytes that arrived, behind the others.
abbrev pub append_input : Driver → ℕ → Memory → Driver
append_input d n bytes = record d {
  input = memcpy d.input d.input_size bytes n;
  input_size = d.input_size + n;
}

module _ (pid : ℕ) (clock : ℕ → Option Timespec) (send : ℕ → Message → Bool) where
  unfoldable pub receive_event : Driver → Bool → ReceiveEvent → Option Processed
  receive_event d running (received n bytes) =
      if ltb 0 n
      then process_input pid clock send (append_input d n bytes) running
      else some (stop_at false d running)
  receive_event d running would_block = some (stop_at true d running)
  receive_event d running failed = some (stop_at false d running)

  unfoldable pub receive_input : Driver → Bool → ReceiveEvent → Option Processed
  unfolding receive_event
  receive_input d running event =
      if d.input_size == input_capacity
      then some (stop_at false d running)
      else receive_event d running event

  -- With fewer than 24 bytes in the input buffer, `receive_input` ends whatever the socket
  -- answers; when it succeeds and leaves the driver running, fewer than 24 bytes are again in the
  -- buffer, so that the next call has room.
  pub receive_input-ends :
      (d : Driver) (running : Bool) (event : ReceiveEvent)
      → d.input_size < frame_bytes
      → (p : Processed) × (receive_input d running event ≡ some p)
        × (p.done ≡ true → p.running ≡ true → p.driver.input_size < frame_bytes)
  unfolding receive_input receive_event
  receive_input-ends d running would_block h = (stop_at true d running, ground arith, λ _ _. h)
  receive_input-ends d running failed h =
      (stop_at false d running, ground arith, λ e _. ground arith)
  receive_input-ends d running (received n bytes) h = elim (Bool-cases (ltb 0 n)) [
    | inl e ↦
        let (p, q, r) = process_input-ends pid clock send (append_input d n bytes) running in
        (p, rw e (ground (arith, q)), r)
    | inr e ↦ (stop_at false d running, rw e (ground arith), λ e _. ground arith)
  ]
