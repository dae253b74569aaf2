-- ===== src/Taxi/Driver/Handle.antt =====
-- The handler of one message against an abstract taxi: free, or taken until a moment.
use eltex_education.Common.{
  ℕ, ◌+◌, ◌-◌, ◌*◌, ◌/◌, ◌<◌, ◌≡◌, ◌↔◌, Bool, true, false, not, ◌&&◌, Option, none, some, arith,
  min, ltb, ◌==◌, if◌then◌else◌, inl, inr, Bool-cases,
}
use eltex_education.Common.Memory.Words.{u32}
use eltex_education.Taxi.Protocol.{
  Message, send_task, get_status, shutdown, task_accepted, status_available, status_busy, error,
  invalid_message, invalid_timer,
}
use eltex_education.Taxi.Protocol.Codec.{IsMessage}
use eltex_education.Taxi.Driver.{
  Timespec, Driver, uint32_max, update_state, dispatch, handle_message,
}
use eltex_education.Taxi.Driver.Clock.{
  nanos, IsNormal, update_state-busy, remaining_seconds-eq, remaining_seconds-lt,
}

-- `none`: free. `some t`: taken until `t` nanoseconds.
abbrev pub Taxi : Type 0
Taxi = Option ℕ

pub data Request : Type 0 where
  task : ℕ → Request
  status stop other : Request

pub data Answer : Type 0 where
  accepted : ℕ → Answer
  busy_for : ℕ → Answer
  available bad_timer bad_message : Answer

-- Whole seconds until `t`, rounded up, in 32 bits.
abbrev pub seconds_until : ℕ → ℕ → ℕ
seconds_until t now = min uint32_max ((t - now + 999999999) / 1000000000)

-- What the manager is promised.
abbrev pub serve : Taxi → ℕ → Request → Taxi × Option Answer
serve (some t) now (task k) = (some t, some (busy_for (seconds_until t now)))
serve none now (task k) =
    if k == 0 then (none, some bad_timer) else (some (now + k * 1000000000), some (accepted k))
serve (some t) now status = (some t, some (busy_for (seconds_until t now)))
serve none now status = (none, some available)
serve taxi now stop = (taxi, none)
serve taxi now other = (taxi, some bad_message)

abbrev pub request_of : Message → Request
request_of m =
    if m.type == send_task
    then task m.task_timer
    else if m.type == get_status
    then status
    else if m.type == shutdown
    then stop
    else other

abbrev reply_with : ℕ → ℕ → ℕ → ℕ → Message
reply_with pid id t timer = record {
  type = t;
  request_id = id;
  driver_pid = u32 pid;
  task_timer = timer;
}

abbrev pub reply_of : ℕ → ℕ → Option Answer → Option Message
reply_of pid id none = none
reply_of pid id (some (accepted k)) = some (reply_with pid id task_accepted k)
reply_of pid id (some (busy_for k)) = some (reply_with pid id status_busy k)
reply_of pid id (some available) = some (reply_with pid id status_available 0)
reply_of pid id (some bad_timer) = some (reply_with pid id error invalid_timer)
reply_of pid id (some bad_message) = some (reply_with pid id error invalid_message)

-- The taxi that a driver stands for at a moment.
abbrev pub taxi_at : Driver → ℕ → Taxi
taxi_at d now = if d.busy && ltb now (nanos d.deadline) then some (nanos d.deadline) else none

module _ (pid : ℕ) (send : Message → Bool) where
  dispatch_free :
      (d : Driver) (m : Message) (running : Bool) (now : Timespec)
      → d.busy ≡ false
      → IsNormal now
      → let o = dispatch pid send d m running now in
        let r = serve none (nanos now) (request_of m) in
        (taxi_at o.driver (nanos now) ≡ r.0) × (o.reply ≡ reply_of pid m.request_id r.1)
  unfolding dispatch
  dispatch_free d m running now free n = ground arith

  dispatch_busy :
      (d : Driver) (m : Message) (running : Bool) (now : Timespec)
      → d.busy ≡ true
      → IsNormal now
      → IsNormal d.deadline
      → nanos now < nanos d.deadline
      → let o = dispatch pid send d m running now in
        let r = serve (some (nanos d.deadline)) (nanos now) (request_of m) in
        (taxi_at o.driver (nanos now) ≡ r.0) × (o.reply ≡ reply_of pid m.request_id r.1)
  unfolding dispatch
  dispatch_busy d m running now busy n nd l = ground (arith, remaining_seconds-eq d now nd n)

  update_expired :
      (d : Driver) (now : Timespec)
      → IsNormal d.deadline
      → IsNormal now
      → (d.busy && ltb (nanos now) (nanos d.deadline)) ≡ false
      → (update_state d now).busy ≡ false
  update_expired d now nd n e = rw (update_state-busy d now nd n) e

  update_ahead :
      (d : Driver) (now : Timespec)
      → IsNormal d.deadline
      → IsNormal now
      → (d.busy && ltb (nanos now) (nanos d.deadline)) ≡ true
      → update_state d now ≡ d
  unfolding update_state
  update_ahead d now nd n e = ground (arith, update_state-busy d now nd n)

  -- When the deadline and the clock are normal times, `handle_message` takes the taxi, seen as
  -- idle or busy until a deadline, to the state that the specification `serve` gives for the
  -- request, and its reply is the one that `serve` prescribes, with the request's number.
  pub handle_message-refines :
      (d : Driver) (m : Message) (running : Bool) (now : Timespec)
      → IsNormal d.deadline
      → IsNormal now
      → let o = handle_message pid send d m running (some now) in
        let r = serve (taxi_at d (nanos now)) (nanos now) (request_of m) in
        (taxi_at o.driver (nanos now) ≡ r.0) × (o.reply ≡ reply_of pid m.request_id r.1)
  unfolding handle_message
  handle_message-refines d m running now nd n =
      elim (Bool-cases (d.busy && ltb (nanos now) (nanos d.deadline))) [
        | inl ahead ↦
            rw (update_ahead d now nd n ahead)
              (rw ahead (dispatch_busy d m running now (ground arith) n nd (ground arith)))
        | inr free ↦
            rw free
              (dispatch_free (update_state d now) m running now (update_expired d now nd n free) n)
      ]

  -- When the deadline and the clock are normal times, the driver is busy and the clock is before
  -- its deadline, `handle_message` leaves the driver as it is, whatever the message.
  pub handle_message-keeps_task :
      (d : Driver) (m : Message) (running : Bool) (now : Timespec)
      → IsNormal d.deadline
      → IsNormal now
      → d.busy ≡ true
      → nanos now < nanos d.deadline
      → (handle_message pid send d m running (some now)).driver ≡ d
  unfolding handle_message dispatch
  handle_message-keeps_task d m running now nd n busy l =
      rw (update_ahead d now nd n (ground arith)) (ground arith)

  abbrev pub result_of : Option Message → Bool
  result_of none = true
  result_of (some r) = send r

  -- When the clock can be read, `handle_message` stops the driver exactly on `shutdown`, which
  -- alone is not answered, and its result is that of sending the reply, or true without one.
  pub handle_message-result :
      (d : Driver) (m : Message) (running : Bool) (now : Timespec)
      → let o = handle_message pid send d m running (some now) in
        (o.running ≡ (running && not (m.type == shutdown)))
        × (o.done ≡ result_of o.reply)
        × ((o.reply ≡ none) ↔ (m.type ≡ shutdown))
  unfolding handle_message dispatch
  handle_message-result d m running now =
      (ground arith, ground arith, (λ h. ground arith, λ h. ground arith))

  -- The input buffer is not touched.
  pub handle_message-input :
      (d : Driver) (m : Message) (running : Bool) (clock : Option Timespec)
      → let o = handle_message pid send d m running clock in
        (o.driver.input ≡ d.input) × (o.driver.input_size ≡ d.input_size)
  unfolding handle_message dispatch update_state
  handle_message-input d m running none = ground arith
  handle_message-input d m running (some now) = ground arith

  -- The deadline stays a normal time.
  pub handle_message-IsNormal :
      (d : Driver) (m : Message) (running : Bool) (now : Timespec)
      → IsNormal d.deadline
      → IsNormal now
      → let o = handle_message pid send d m running (some now) in IsNormal o.driver.deadline
  unfolding handle_message dispatch update_state
  handle_message-IsNormal d m running now nd n = ground arith

  dispatch-IsMessage :
      (d : Driver) (m : Message) (running : Bool) (now : Timespec) (r : Message)
      → IsMessage m
      → (dispatch pid send d m running now).reply ≡ some r
      → IsMessage r × (r.request_id ≡ m.request_id) × (r.driver_pid ≡ u32 pid)
  unfolding dispatch
  dispatch-IsMessage d m running now r v e = ground (arith, remaining_seconds-lt d now)

  -- When the request's fields are within their ranges and the clock can be read, so are those of
  -- any reply, which has the request's number and the driver's pid.
  pub handle_message-IsMessage :
      (d : Driver) (m : Message) (running : Bool) (now : Timespec) (r : Message)
      → IsMessage m
      → (handle_message pid send d m running (some now)).reply ≡ some r
      → IsMessage r × (r.request_id ≡ m.request_id) × (r.driver_pid ≡ u32 pid)
  unfolding handle_message
  handle_message-IsMessage d m running now r v e =
      dispatch-IsMessage (update_state d now) m running now r v e
