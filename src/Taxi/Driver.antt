-- ===== src/Taxi/Driver.antt =====
-- src/driver.c of cross-02-taxi-process-manager: the clock arithmetic, the handler of one message
-- and the loop over the input buffer. What `clock_gettime`, `getpid` and the socket answer are
-- arguments; a clock that fails is `none`.
pub mod Clock
pub mod Send
pub mod Handle
pub mod Input
pub mod Receive
pub mod Loop
use eltex_education.Common.{
  ℕ, zero, suc, ◌+◌, ◌-◌, ◌/◌, ◌^◌, Bool, true, false, not, ◌&&◌, Option, none, some, List, [], ◌∷◌,
  ltb, leb, ◌==◌, if◌then◌else◌,
}
use eltex_education.Common.Int.{ℤ, pos, negsuc, sub_ℕ, ◌+ℤ◌, ◌-ℤ◌, ltb_ℤ, pos_part}
use eltex_education.Common.Memory.{Memory}
use eltex_education.Common.Memory.Words.{u32}
use eltex_education.Taxi.Protocol.{
  Message, FrameStatus, frame_bytes, hello, send_task, get_status, shutdown, task_accepted,
  status_available, status_busy, error, invalid_message, invalid_timer, protocol_frame_size,
  protocol_decode,
}

-- `struct timespec` of the monotonic clock, whose fields are not negative.
pub record Timespec : Type 0 where
  pub tv_sec : ℕ
  pub tv_nsec : ℕ

-- `struct timeval`
pub record Timeval : Type 0 where
  pub tv_sec : ℕ
  pub tv_usec : ℕ

-- `driver_t` but for its socket.
pub record Driver : Type 0 where
  pub input : Memory
  pub input_size : ℕ
  pub busy : Bool
  pub deadline : Timespec

abbrev pub input_capacity : ℕ
input_capacity = 96

abbrev pub uint32_max : ℕ
uint32_max = 2 ^ 32 - 1

-- The result is -1, 0 or 1.
unfoldable pub compare_time : Timespec → Timespec → ℤ
compare_time left right =
    if not (left.tv_sec == right.tv_sec)
    then (if ltb left.tv_sec right.tv_sec then negsuc 0 else pos 1)
    else if not (left.tv_nsec == right.tv_nsec)
    then (if ltb left.tv_nsec right.tv_nsec then negsuc 0 else pos 1)
    else pos 0

unfoldable pub update_state : Driver → Timespec → Driver
unfolding compare_time
update_state driver now =
    if driver.busy && not (ltb_ℤ (compare_time now driver.deadline) (pos 0))
    then record driver { busy = false }
    else driver

-- `seconds` after the correction by the sign of the nanoseconds.
abbrev pub rounded_seconds : ℤ → ℤ → ℤ
rounded_seconds seconds nanoseconds =
    if ltb_ℤ (pos 0) nanoseconds
    then seconds +ℤ pos 1
    else if ltb_ℤ nanoseconds (pos 0)
    then seconds -ℤ pos 1 +ℤ pos 1
    else seconds

abbrev pub clamp_seconds : ℤ → ℕ
clamp_seconds seconds =
    if not (ltb_ℤ (pos 0) seconds)
    then 0
    else if ltb uint32_max (pos_part seconds)
    then uint32_max
    else u32 (pos_part seconds)

unfoldable pub remaining_seconds : Driver → Timespec → ℕ
remaining_seconds driver now = clamp_seconds (
    rounded_seconds (sub_ℕ driver.deadline.tv_sec now.tv_sec)
      (sub_ℕ driver.deadline.tv_nsec now.tv_nsec))

-- The last test of `make_timeout`. The nanoseconds are not negative there.
abbrev timeval_of : ℤ → ℤ → Timeval
timeval_of seconds nanoseconds =
    if ltb_ℤ seconds (pos 0)
    then record { tv_sec = 0; tv_usec = 0 }
    else record { tv_sec = pos_part seconds; tv_usec = pos_part nanoseconds / 1000 }

unfoldable pub make_timeout : Driver → Timespec → Timeval
make_timeout driver now =
    let seconds = sub_ℕ driver.deadline.tv_sec now.tv_sec in
    let nanoseconds = sub_ℕ driver.deadline.tv_nsec now.tv_nsec in
    if ltb_ℤ nanoseconds (pos 0)
    then timeval_of (seconds -ℤ pos 1) (nanoseconds +ℤ pos 1000000000)
    else timeval_of seconds nanoseconds

-- What one call of `handle_message` does: its result, the driver and `*running` after it, and the
-- message that it handed to `send_message`, if any.
pub record Outcome : Type 0 where
  pub done : Bool
  pub driver : Driver
  pub running : Bool
  pub reply : Option Message

-- `status_of` is the message that `send_status` builds.
abbrev pub status_of : ℕ → Driver → ℕ → Timespec → Message
status_of pid driver request_id now = record {
  type = if driver.busy then status_busy else status_available;
  request_id = request_id;
  driver_pid = u32 pid;
  task_timer = if driver.busy then remaining_seconds driver now else 0;
}

-- `process_id` is the answer of `getpid`, and `send` the result of `send_message` on each message.
module _ (process_id : ℕ) (send : Message → Bool) where
  abbrev respond : Driver → Bool → Message → Outcome
  respond driver running m = record {
    done = send m;
    driver = driver;
    running = running;
    reply = some m;
  }

  abbrev pub error_of : Message → ℕ → Message
  error_of m code = record {
    type = error;
    request_id = m.request_id;
    driver_pid = u32 process_id;
    task_timer = code;
  }

  unfoldable pub send_status : Driver → Bool → ℕ → Timespec → Outcome
  send_status driver running request_id now =
      respond driver running (status_of process_id driver request_id now)

  -- The `switch`, on the driver that `update_state` left.
  unfoldable pub dispatch : Driver → Message → Bool → Timespec → Outcome
  unfolding send_status
  dispatch driver m running now =
      if m.type == send_task
      then (if driver.busy
          then send_status driver running m.request_id now
          else if m.task_timer == 0
          then respond driver running (error_of m invalid_timer)
          else respond
              (record driver {
                busy = true;
                deadline = record { tv_sec = now.tv_sec + m.task_timer; tv_nsec = now.tv_nsec };
              })
              running
              (record {
                type = task_accepted;
                request_id = m.request_id;
                driver_pid = u32 process_id;
                task_timer = m.task_timer;
              }))
      else if m.type == get_status
      then send_status driver running m.request_id now
      else if m.type == shutdown
      then record { done = true; driver = driver; running = false; reply = none }
      else respond driver running (error_of m invalid_message)

  unfoldable pub handle_message : Driver → Message → Bool → Option Timespec → Outcome
  unfolding dispatch update_state
  handle_message driver m running none = record {
    done = false;
    driver = driver;
    running = running;
    reply = none;
  }
  handle_message driver m running (some now) = dispatch (update_state driver now) m running now
