-- ===== src/Taxi/Driver/Loop.antt =====
-- `send_hello` and the body of the `while` loop of `run_event_loop` of driver.c.
use eltex_education.Common.{
  ℕ, ◌<◌, ◌≡◌, Bool, true, ◌||◌, Option, none, some, arith, ltb, ◌==◌, if◌then◌else◌, inl, inr,
  Bool-cases,
}
use eltex_education.Common.Memory.Words.{u32}
use eltex_education.Taxi.Protocol.{Message, frame_bytes, hello}
use eltex_education.Taxi.Driver.{Timespec, Timeval, Driver, uint32_max, update_state, make_timeout}
use eltex_education.Taxi.Driver.Input.{Processed}
use eltex_education.Taxi.Driver.Receive.{ReceiveEvent, receive_input, receive_input-ends}

-- The message that `send_hello` sends, `none` where the pid does not fit. A pid that is not positive
-- is 0 here.
unfoldable pub hello_message : ℕ → Option Message
hello_message pid =
    if pid == 0 || ltb uint32_max pid
    then none
    else some (record { type = hello; request_id = 0; driver_pid = u32 pid; task_timer = 0 })

-- What `select` answers: an interrupt, another error, a timeout, or a socket to read from.
pub data SelectEvent : Type 0 where
  interrupted select_failed timed_out : SelectEvent
  readable : ReceiveEvent → SelectEvent

-- A round returns `EXIT_FAILURE` or goes back to the test of `running`.
pub data Round : Type 0 where
  exit_failure : Round
  again : Driver → Bool → Round

-- `timeout_pointer`, where a driver that is idle waits without limit.
unfoldable pub select_timeout : Driver → Timespec → Option Timeval
select_timeout d now = if d.busy then some (make_timeout d now) else none

pub after_receive : Option Processed → Round
after_receive none = exit_failure
after_receive (some p) = if p.done then again p.driver p.running else exit_failure

module _ (pid : ℕ) (clock : ℕ → Option Timespec) (send : ℕ → Message → Bool) where
  pub after_select : Driver → Bool → SelectEvent → Round
  unfolding after_receive
  after_select d running interrupted = again d running
  after_select d running select_failed = exit_failure
  after_select d running timed_out = again d running
  after_select d running (readable event) =
      after_receive (receive_input pid clock send d running event)

  -- `clock_now` is the time at the start of the round.
  unfoldable pub event_loop_round : Driver → Bool → Option Timespec → SelectEvent → Round
  unfolding after_select
  event_loop_round d running none event = exit_failure
  event_loop_round d running (some now) event = after_select (update_state d now) running event

  abbrev pub HasRoom : Round → Type 0
  HasRoom exit_failure = 0 < frame_bytes
  HasRoom (again d running) = running ≡ true → d.input_size < frame_bytes

  after_receive-HasRoom :
      (p : Processed)
      → (p.done ≡ true → p.running ≡ true → p.driver.input_size < frame_bytes)
      → HasRoom (after_receive (some p))
  unfolding after_receive
  after_receive-HasRoom p h = elim (Bool-cases p.done) [
    | inl e ↦ rw e (h e)
    | inr e ↦ rw e (omega arith)
  ]

  after_select-HasRoom :
      (d : Driver) (event : SelectEvent)
      → d.input_size < frame_bytes
      → HasRoom (after_select d true event)
  unfolding after_select
  after_select-HasRoom d interrupted h = λ _. h
  after_select-HasRoom d select_failed h = omega arith
  after_select-HasRoom d timed_out h = λ _. h
  after_select-HasRoom d (readable event) h =
      let (p, e, r) = receive_input-ends pid clock send d true event h in
      rw e (after_receive-HasRoom p r)

  -- Whatever the clock, `select` and the socket answer, a round of the event loop that starts with
  -- fewer than 24 bytes in the input buffer and goes on with the driver running ends with fewer
  -- than 24, so that the next round has room to receive.
  pub event_loop_round-HasRoom :
      (d : Driver) (now : Option Timespec) (event : SelectEvent)
      → d.input_size < frame_bytes
      → HasRoom (event_loop_round d true now event)
  unfolding event_loop_round update_state
  event_loop_round-HasRoom d none event h = omega arith
  event_loop_round-HasRoom d (some now) event h =
      after_select-HasRoom (update_state d now) event (ground arith)
