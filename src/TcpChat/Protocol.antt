-- ===== src/TcpChat/Protocol.antt =====
-- src/protocol.c and include/protocol.h of 07-tcp-chat-and-file-transfer: a header of 32 bytes, a
-- name and the content that the packet's type asks for. An enum is the number that C keeps; an
-- out-parameter is the pointer's contents after the call; an array is memory.
pub mod Frames
use eltex_education.Common.{
  ℕ, ◌+◌, ◌-◌, ◌^◌, Bool, true, false, not, ◌&&◌, ◌||◌, Option, none, some, ltb, leb, ◌==◌, ◌!=◌,
  if◌then◌else◌,
}
use eltex_education.Common.Memory.{Memory, Pointer, store, offset, memcpy, strnlen}
use eltex_education.Common.Memory.Words.{
  u8, u16, u32, read_u16, read_u32, read_u64, write_u16, write_u32, write_u64,
}

abbrev pub magic : ℕ
magic = 0x4D335437

abbrev pub version : ℕ
version = 2

abbrev pub name_max : ℕ
name_max = 31

abbrev pub text_max : ℕ
text_max = 1023

abbrev pub file_name_max : ℕ
file_name_max = 255

abbrev pub file_chunk_max : ℕ
file_chunk_max = 16384

abbrev pub header_size : ℕ
header_size = 32

abbrev pub file_size_field_size : ℕ
file_size_field_size = 8

-- `chat_packet_type_t`
abbrev pub join : ℕ
join = 1

abbrev pub message : ℕ
message = 2

abbrev pub leave : ℕ
leave = 3

abbrev pub file_begin : ℕ
file_begin = 4

abbrev pub file_chunk : ℕ
file_chunk = 5

abbrev pub file_end : ℕ
file_end = 6

-- `protocol_frame_status_t`
pub data FrameStatus : Type 0 where
  invalid incomplete complete : FrameStatus

-- `chat_message_t`
pub record ChatMessage : Type 0 where
  pub type : ℕ
  pub sender_id : ℕ
  pub transfer_id : ℕ
  pub sender_name : Memory
  pub text : Memory
  pub file_name : Memory
  pub file_size : ℕ
  pub file_data : Memory
  pub file_data_size : ℕ

abbrev pub packet_type_is_valid : ℕ → Bool
packet_type_is_valid type = leb join type && leb type file_end

unfoldable pub lengths_are_valid : ℕ → ℕ → ℕ → Bool
lengths_are_valid type transfer_id content_size =
    if type == join || type == leave
    then transfer_id == 0 && content_size == 0
    else if type == message
    then transfer_id == 0 && leb 1 content_size && leb content_size text_max
    else if type == file_begin
    then transfer_id != 0
      && leb (file_size_field_size + 1) content_size
      && leb content_size (file_size_field_size + file_name_max)
    else if type == file_chunk
    then transfer_id != 0 && leb 1 content_size && leb content_size file_chunk_max
    else if type == file_end
    then transfer_id != 0 && content_size == 0
    else false

-- `*body_size` on true, `none` on false.
unfoldable pub header_is_valid : Memory → Option ℕ
unfolding lengths_are_valid
header_is_valid b =
    let type = b 5 in
    let body_size = read_u32 b 8 in
    let name_size = read_u16 b 28 in
    let content_size = read_u16 b 30 in
    if read_u32 b 0 != magic
    then none
    else if b 4 != version
    then none
    else if read_u16 b 6 != 0
    then none
    else if not (packet_type_is_valid type) || read_u64 b 12 == 0
    then none
    else if name_size == 0 || ltb name_max name_size
    then none
    else if body_size != name_size + content_size
    then none
    else if ltb (name_max + file_chunk_max) body_size
    then none
    else if not (lengths_are_valid type (read_u64 b 20) content_size)
    then none
    else some body_size

abbrev pub sized : Option ℕ → ℕ → FrameStatus × Pointer ℕ
sized none available = (FrameStatus.invalid, some 0)
sized (some body_size) available = (
  (if ltb available (header_size + body_size)
      then FrameStatus.incomplete
      else FrameStatus.complete),
  some (header_size + body_size),
)

unfoldable pub protocol_frame_size : Pointer Memory → ℕ → Pointer ℕ → FrameStatus × Pointer ℕ
unfolding header_is_valid
protocol_frame_size buffer available none = (FrameStatus.invalid, none)
protocol_frame_size none available (some size) =
    ((if available != 0 then FrameStatus.invalid else FrameStatus.incomplete), some 0)
protocol_frame_size (some b) available (some size) =
    if ltb available header_size
    then (FrameStatus.incomplete, some 0)
    else sized (header_is_valid b) available

-- `content`, `content_size` and `file_name_size`; `none` on false.
unfoldable pub message_content : ChatMessage → Option (Pointer Memory × ℕ × ℕ)
message_content m =
    let text_size = strnlen m.text (text_max + 1) in
    let name_size = strnlen m.file_name (file_name_max + 1) in
    if m.type == join || m.type == leave || m.type == file_end
    then some (none, 0, 0)
    else if m.type == message
    then (if leb text_size text_max then some (some m.text, text_size, 0) else none)
    else if m.type == file_begin
    then (if leb 1 name_size && leb name_size file_name_max
        then some (none, file_size_field_size + name_size, name_size)
        else none)
    else if m.type == file_chunk
    then (if leb m.file_data_size file_chunk_max
        then some (some m.file_data, m.file_data_size, 0)
        else none)
    else none

abbrev pub header_of : ChatMessage → Memory → ℕ → ℕ → Memory
header_of m b name_size content_size =
    let head : Memory =
      write_u32 (write_u16 (store (store (write_u32 b 0 magic) 4 version) 5 (u8 m.type)) 6 0) 8
        (u32 (name_size + content_size)) in
    write_u16
      (write_u16 (write_u64 (write_u64 head 12 m.sender_id) 20 m.transfer_id) 28 (u16 name_size)) 30
      (u16 content_size)

-- The content behind the name, at `o`. A NULL `content` has size 0 unless a file begins.
abbrev pub write_content : ChatMessage → Memory → ℕ → Pointer Memory × ℕ × ℕ → Memory
write_content m b o (content, content_size, file_name_size) =
    if m.type == file_begin
    then memcpy (write_u64 b o m.file_size) (o + file_size_field_size) m.file_name file_name_size
    else elim content [ none ↦ b | some c ↦ memcpy b o c content_size ]

-- What `protocol_encode` leaves in the buffer.
abbrev pub packet_of : ChatMessage → Memory → ℕ → Pointer Memory × ℕ × ℕ → Memory
packet_of m b name_size c =
    write_content m (memcpy (header_of m b name_size c.1) header_size m.sender_name name_size)
      (header_size + name_size) c

abbrev pub encode_content :
    ChatMessage
    → Memory
    → ℕ
    → ℕ
    → Option (Pointer Memory × ℕ × ℕ)
    → Bool × Pointer Memory × Pointer ℕ
encode_content m b capacity name_size none = (false, some b, some 0)
encode_content m b capacity name_size (some c) =
    if not (lengths_are_valid m.type m.transfer_id c.1)
    then (false, some b, some 0)
    else if ltb capacity (header_size + name_size + c.1)
    then (false, some b, some 0)
    else (true, some (packet_of m b name_size c), some (header_size + name_size + c.1))

unfoldable pub protocol_encode :
    Pointer ChatMessage → Pointer Memory → ℕ → Pointer ℕ → Bool × Pointer Memory × Pointer ℕ
unfolding message_content
protocol_encode m buffer capacity none = (false, buffer, none)
protocol_encode none buffer capacity (some size) = (false, buffer, some 0)
protocol_encode (some m) none capacity (some size) = (false, none, some 0)
protocol_encode (some m) (some b) capacity (some size) =
    let name_size = strnlen m.sender_name (name_max + 1) in
    if not (packet_type_is_valid m.type) || m.sender_id == 0
    then (false, some b, some 0)
    else if name_size == 0 || ltb name_max name_size
    then (false, some b, some 0)
    else encode_content m b capacity name_size (message_content m)

-- `memchr(b, 0, n) != NULL`
abbrev pub has_nul : Memory → ℕ → Bool
has_nul b n = strnlen b n != n

-- An array after `memset` to 0 and `memcpy`.
abbrev pub filled : Bool → Memory → ℕ → Memory
filled used b n i = if used && ltb i n then b i else 0

-- The message that `protocol_decode` fills in.
abbrev pub message_of : Memory → ChatMessage
message_of b =
    let type = b 5 in
    let name_size = read_u16 b 28 in
    let content_size = read_u16 b 30 in
    let content = offset b (header_size + name_size) in
    record {
      type = type;
      sender_id = read_u64 b 12;
      transfer_id = read_u64 b 20;
      sender_name = filled true (offset b header_size) name_size;
      text = filled (type == message) content content_size;
      file_name =
          filled (type == file_begin) (offset content file_size_field_size)
            (content_size - file_size_field_size);
      file_size = if type == file_begin then read_u64 content 0 else 0;
      file_data = filled (type == file_chunk) content content_size;
      file_data_size = if type == file_chunk then content_size else 0;
    }

-- The three searches for a NUL.
unfoldable pub has_bad_text : Memory → Bool
has_bad_text b =
    let type = b 5 in
    let name_size = read_u16 b 28 in
    let content_size = read_u16 b 30 in
    let content = offset b (header_size + name_size) in
    has_nul (offset b header_size) name_size
    || (type == message && has_nul content content_size)
    || (type == file_begin
        && has_nul (offset content file_size_field_size) (content_size - file_size_field_size))

abbrev pub decode_sized :
    FrameStatus × Pointer ℕ → Memory → ℕ → ChatMessage → Bool × Pointer ChatMessage
decode_sized (FrameStatus.complete, some n) b size m =
    if n != size
    then (false, some m)
    else if has_bad_text b
    then (false, some m)
    else (true, some (message_of b))
decode_sized (FrameStatus.complete, none) b size m = (false, some m)
decode_sized (FrameStatus.invalid, n) b size m = (false, some m)
decode_sized (FrameStatus.incomplete, n) b size m = (false, some m)

unfoldable pub protocol_decode :
    Pointer Memory → ℕ → Pointer ChatMessage → Bool × Pointer ChatMessage
unfolding protocol_frame_size has_bad_text
protocol_decode buffer size none = (false, none)
protocol_decode none size (some m) = (false, some m)
protocol_decode (some b) size (some m) =
    decode_sized (protocol_frame_size (some b) size (some 0)) b size m
