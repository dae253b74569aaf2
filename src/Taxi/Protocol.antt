-- ===== src/Taxi/Protocol.antt =====
-- src/protocol.c and include/protocol.h of cross-02-taxi-process-manager: frames of 24 bytes.
-- An enum is the number that C keeps; an out-parameter is the pointer's contents after the call.
pub mod Codec
use eltex_education.Common.{
  ℕ, ◌+◌, Bool, true, false, not, ◌&&◌, ◌||◌, none, some, ltb, leb, ◌==◌, ◌!=◌, if◌then◌else◌,
}
use eltex_education.Common.Memory.{Memory, Pointer, store, memzero}
use eltex_education.Common.Memory.Words.{u8, read_u32, write_u32}

abbrev pub magic : ℕ
magic = 0x54415849

abbrev pub version : ℕ
version = 1

abbrev pub header_size : ℕ
header_size = 16

abbrev pub payload_size : ℕ
payload_size = 8

abbrev pub frame_bytes : ℕ
frame_bytes = header_size + payload_size

-- `taxi_message_type_t`
abbrev pub hello : ℕ
hello = 1

abbrev pub send_task : ℕ
send_task = 2

abbrev pub get_status : ℕ
get_status = 3

abbrev pub shutdown : ℕ
shutdown = 4

abbrev pub task_accepted : ℕ
task_accepted = 5

abbrev pub status_available : ℕ
status_available = 6

abbrev pub status_busy : ℕ
status_busy = 7

abbrev pub error : ℕ
error = 8

-- `taxi_error_t`
abbrev pub invalid_message : ℕ
invalid_message = 1

abbrev pub invalid_timer : ℕ
invalid_timer = 2

-- `protocol_frame_status_t`
pub data FrameStatus : Type 0 where
  invalid incomplete complete : FrameStatus

-- `taxi_message_t`
pub record Message : Type 0 where
  pub type : ℕ
  pub request_id : ℕ
  pub driver_pid : ℕ
  pub task_timer : ℕ

abbrev pub message_type_is_valid : ℕ → Bool
message_type_is_valid t = leb hello t && leb t error

unfoldable pub header_is_invalid : Memory → Bool
header_is_invalid b =
    read_u32 b 0 != magic
    || b 4 != version
    || not (message_type_is_valid (b 5))
    || b 6 != 0
    || b 7 != 0
    || read_u32 b 8 != payload_size

unfoldable pub protocol_frame_size : Pointer Memory → ℕ → Pointer ℕ → FrameStatus × Pointer ℕ
unfolding header_is_invalid
protocol_frame_size none available frame_size = (FrameStatus.invalid, frame_size)
protocol_frame_size (some b) available none = (FrameStatus.invalid, none)
protocol_frame_size (some b) available (some size) =
    if ltb available header_size
    then (FrameStatus.incomplete, some size)
    else if header_is_invalid b
    then (FrameStatus.invalid, some size)
    else (
      if ltb available frame_bytes then FrameStatus.incomplete else FrameStatus.complete,
      some frame_bytes,
    )

-- What `protocol_encode` leaves in the buffer.
abbrev pub frame_of : Message → Memory → Memory
frame_of m b =
    let b1 : Memory = write_u32 (memzero b frame_bytes) 0 magic in
    let b2 : Memory = store (store b1 4 version) 5 (u8 m.type) in
    let b3 : Memory = write_u32 b2 8 payload_size in
    write_u32 (write_u32 (write_u32 b3 12 m.request_id) 16 m.driver_pid) 20 m.task_timer

unfoldable pub protocol_encode :
    Pointer Message → Pointer Memory → ℕ → Pointer ℕ → Bool × Pointer Memory × Pointer ℕ
protocol_encode none buffer capacity encoded_size = (false, buffer, encoded_size)
protocol_encode (some m) none capacity encoded_size = (false, none, encoded_size)
protocol_encode (some m) (some b) capacity none = (false, some b, none)
protocol_encode (some m) (some b) capacity (some size) =
    if ltb capacity frame_bytes || not (message_type_is_valid m.type)
    then (false, some b, some size)
    else (true, some (frame_of m b), some frame_bytes)

abbrev pub message_of : Memory → Message
message_of b = record {
  type = b 5;
  request_id = read_u32 b 12;
  driver_pid = read_u32 b 16;
  task_timer = read_u32 b 20;
}

-- The frame is complete and has the size that the caller gave.
decode_accepts : FrameStatus × Pointer ℕ → ℕ → Bool
decode_accepts (FrameStatus.complete, some frame_size) size = size == frame_size
decode_accepts (FrameStatus.complete, none) size = false
decode_accepts (FrameStatus.invalid, frame_size) size = false
decode_accepts (FrameStatus.incomplete, frame_size) size = false

unfoldable pub protocol_decode : Pointer Memory → ℕ → Pointer Message → Bool × Pointer Message
unfolding decode_accepts protocol_frame_size
protocol_decode buffer size none = (false, none)
protocol_decode none size (some m) = (false, some m)
protocol_decode (some b) size (some m) =
    if decode_accepts (protocol_frame_size (some b) size (some 0)) size
    then (true, some (message_of b))
    else (false, some m)
