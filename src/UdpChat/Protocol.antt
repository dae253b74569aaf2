-- ===== src/UdpChat/Protocol.antt =====
-- src/protocol.c and include/protocol.h of 06-udp-broadcast-chat: a header of 18 bytes, a name and
-- a text. An enum is the number that C keeps; an out-parameter is the pointer's contents after the
-- call; a `char` array is memory.
pub mod Codec
use eltex_education.Common.{
  ℕ, ◌+◌, ◌/◌, ◌^◌, Bool, true, false, not, ◌&&◌, ◌||◌, none, some, ltb, leb, ◌==◌, ◌!=◌,
  if◌then◌else◌,
}
use eltex_education.Common.Memory.{Memory, Pointer, store, offset, memcpy, strnlen}
use eltex_education.Common.Memory.Words.{
  u8, u16, read_u16, read_u32, read_u64, write_u16, write_u32, write_u64,
}

abbrev pub magic : ℕ
magic = 0x4D335436

abbrev pub version : ℕ
version = 1

abbrev pub name_max : ℕ
name_max = 31

abbrev pub text_max : ℕ
text_max = 1023

abbrev pub header_size : ℕ
header_size = 18

-- `chat_packet_type_t`
abbrev pub join : ℕ
join = 1

abbrev pub message : ℕ
message = 2

abbrev pub leave : ℕ
leave = 3

-- `chat_message_t`
pub record ChatMessage : Type 0 where
  pub type : ℕ
  pub sender_id : ℕ
  pub sender_name : Memory
  pub text : Memory

abbrev pub packet_type_is_valid : ℕ → Bool
packet_type_is_valid t = t == join || t == message || t == leave

-- The guards of `protocol_encode` after the null checks.
unfoldable pub encode_refuses : ChatMessage → ℕ → ℕ → ℕ → Bool
encode_refuses m name_size text_size capacity =
    if not (packet_type_is_valid m.type) || m.sender_id == 0
    then true
    else if name_size == 0 || ltb name_max name_size
    then true
    else if ltb text_max text_size
    then true
    else if m.type == message && text_size == 0
    then true
    else if m.type != message && text_size != 0
    then true
    else ltb capacity (header_size + name_size + text_size)

abbrev pub header_of : ChatMessage → Memory → ℕ → ℕ → Memory
header_of m b name_size text_size =
    let head : Memory = store (store (write_u32 b 0 magic) 4 version) 5 (u8 m.type) in
    write_u16 (write_u16 (write_u64 head 6 m.sender_id) 14 (u16 name_size)) 16 (u16 text_size)

-- What `protocol_encode` leaves in the buffer.
abbrev pub packet_of : ChatMessage → Memory → ℕ → ℕ → Memory
packet_of m b name_size text_size =
    memcpy (memcpy (header_of m b name_size text_size) header_size m.sender_name name_size)
      (header_size + name_size) m.text text_size

unfoldable pub protocol_encode :
    Pointer ChatMessage → Pointer Memory → ℕ → Pointer ℕ → Bool × Pointer Memory × Pointer ℕ
protocol_encode m buffer capacity none = (false, buffer, none)
protocol_encode none buffer capacity (some size) = (false, buffer, some 0)
protocol_encode (some m) none capacity (some size) = (false, none, some 0)
protocol_encode (some m) (some b) capacity (some size) =
    let name_size = strnlen m.sender_name (name_max + 1) in
    let text_size = strnlen m.text (text_max + 1) in
    if encode_refuses m name_size text_size capacity then (false, some b, some 0) else (
      true,
      some (packet_of m b name_size text_size),
      some (header_size + name_size + text_size),
    )

-- The message that `protocol_decode` fills in over `m`.
abbrev pub message_of : Memory → ChatMessage → ChatMessage
message_of b m =
    let name_size = read_u16 b 14 in
    let text_size = read_u16 b 16 in
    record {
      type = b 5;
      sender_id = read_u64 b 6;
      sender_name = store (memcpy m.sender_name 0 (offset b header_size) name_size) name_size 0;
      text = store (memcpy m.text 0 (offset b (header_size + name_size)) text_size) text_size 0;
    }

-- The guards of `protocol_decode` after the null checks.
unfoldable pub decode_refuses : Memory → ℕ → Bool
decode_refuses b size =
    let type = b 5 in
    let name_size = read_u16 b 14 in
    let text_size = read_u16 b 16 in
    if ltb size header_size
    then true
    else if read_u32 b 0 != magic
    then true
    else if b 4 != version
    then true
    else if not (packet_type_is_valid type) || read_u64 b 6 == 0
    then true
    else if name_size == 0 || ltb name_max name_size || ltb text_max text_size
    then true
    else if size != header_size + name_size + text_size
    then true
    else if type == message && text_size == 0
    then true
    else type != message && text_size != 0

unfoldable pub protocol_decode :
    Pointer Memory → ℕ → Pointer ChatMessage → Bool × Pointer ChatMessage
protocol_decode none size m = (false, m)
protocol_decode (some b) size none = (false, none)
protocol_decode (some b) size (some m) =
    if decode_refuses b size then (false, some m) else (true, some (message_of b m))
