-- ===== src/Echo/Protocol.antt =====
-- src/protocol.c and include/protocol.h of cross-01-raw-udp-echo: a header of 12 bytes and a
-- payload. An enum is the number that C keeps; an out-parameter is the pointer's contents after
-- the call.
pub mod Codec
use eltex_education.Common.{
  ℕ, ◌+◌, Bool, true, false, not, ◌&&◌, ◌||◌, none, some, ltb, leb, ◌==◌, ◌!=◌, if◌then◌else◌,
}
use eltex_education.Common.Memory.{Memory, Pointer, store, offset, memcpy}
use eltex_education.Common.Memory.Words.{u8, u16, read_u16, read_u32, write_u16, write_u32}

abbrev pub magic : ℕ
magic = 0x4543484F

abbrev pub version : ℕ
version = 1

abbrev pub payload_max : ℕ
payload_max = 1024

abbrev pub header_size : ℕ
header_size = 12

-- `packet_type_t`
abbrev pub request : ℕ
request = 1

abbrev pub response : ℕ
response = 2

abbrev pub close : ℕ
close = 3

-- `protocol_message_t`
pub record Message : Type 0 where
  pub type : ℕ
  pub counter : ℕ
  pub payload_size : ℕ
  pub payload : Memory

abbrev pub packet_type_is_valid : ℕ → Bool
packet_type_is_valid t = t == close || t == request || t == response

unfoldable pub message_fields_are_valid : ℕ → ℕ → ℕ → Bool
message_fields_are_valid type counter payload_size =
    if not (packet_type_is_valid type) || ltb payload_max payload_size
    then false
    else if type == close
    then counter == 0 && payload_size == 0
    else if type == request
    then counter == 0
    else ltb 0 counter

-- What `protocol_encode` leaves in the buffer.
abbrev pub packet_of : Message → Memory → Memory
packet_of m b =
    let head : Memory = store (store (write_u32 b 0 magic) 4 version) 5 (u8 m.type) in
    let sized : Memory = write_u32 (write_u16 head 6 (u16 m.payload_size)) 8 m.counter in
    if ltb 0 m.payload_size then memcpy sized header_size m.payload m.payload_size else sized

unfoldable pub protocol_encode :
    Pointer Message → Pointer Memory → ℕ → Pointer ℕ → Bool × Pointer Memory × Pointer ℕ
unfolding message_fields_are_valid
protocol_encode m buffer capacity none = (false, buffer, none)
protocol_encode none buffer capacity (some size) = (false, buffer, some 0)
protocol_encode (some m) none capacity (some size) = (false, none, some 0)
protocol_encode (some m) (some b) capacity (some size) =
    if not (message_fields_are_valid m.type m.counter m.payload_size)
    then (false, some b, some 0)
    else if ltb capacity (header_size + m.payload_size)
    then (false, some b, some 0)
    else (true, some (packet_of m b), some (header_size + m.payload_size))

-- The message that `protocol_decode` fills in over `m`.
abbrev pub message_of : Memory → Message → Message
message_of b m =
    let size = read_u16 b 6 in
    let copied : Memory =
      if ltb 0 size then memcpy m.payload 0 (offset b header_size) size else m.payload in
    record {
      type = b 5;
      counter = read_u32 b 8;
      payload_size = size;
      payload = store copied size 0;
    }

unfoldable pub protocol_decode : Pointer Memory → ℕ → Pointer Message → Bool × Pointer Message
unfolding message_fields_are_valid
protocol_decode none size m = (false, m)
protocol_decode (some b) size none = (false, none)
protocol_decode (some b) size (some m) =
    if ltb size header_size
    then (false, some m)
    else if read_u32 b 0 != magic
    then (false, some m)
    else if b 4 != version
    then (false, some m)
    else if not (message_fields_are_valid (b 5) (read_u32 b 8) (read_u16 b 6))
    then (false, some m)
    else if size != header_size + read_u16 b 6
    then (false, some m)
    else (true, some (message_of b m))
