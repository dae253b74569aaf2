-- ===== src/Capture/Filter.antt =====
-- src/filter.c of 08-raw-socket-packet-capture: which UDP packets a capture keeps. A packet is
-- what `udp_packet_t` of include/packet.h holds; an IPv4 address is its four bytes.
pub mod Chat
use Prim.Native.Nat.{bit_and}
use eltex_education.Common.{
  ℕ, zero, suc, ◌+◌, ◌/◌, ◌%◌, Bool, true, false, not, ◌&&◌, ◌||◌, Option, none, some, ltb, ◌==◌,
  ◌!=◌, if◌then◌else◌,
}
use eltex_education.Common.Memory.{Memory, Pointer, offset}
use eltex_education.Common.Memory.Words.{read_u16, read_u32}

pub record UdpPacket : Type 0 where
  pub source_mac : Memory
  pub destination_mac : Memory
  pub source_ip : Memory
  pub destination_ip : Memory
  pub source_port : ℕ
  pub destination_port : ℕ
  pub payload : Pointer Memory
  pub payload_size : ℕ

-- `capture_filter_t`
pub data CaptureFilter : Type 0 where
  chat dns : CaptureFilter

abbrev pub chat_header_size : ℕ
chat_header_size = 18

abbrev pub chat_magic : ℕ
chat_magic = 0x4D335436

abbrev pub chat_name_max : ℕ
chat_name_max = 31

abbrev pub chat_text_max : ℕ
chat_text_max = 1023

abbrev pub dns_port : ℕ
dns_port = 53

abbrev pub dns_header_size : ℕ
dns_header_size = 12

abbrev pub dns_reserved_flag : ℕ
dns_reserved_flag = 0x0040

-- `data[index] .. data[index + size)`, from the front.
unfoldable pub bytes_are_not_all_zero : Memory → ℕ → ℕ → Bool
bytes_are_not_all_zero b index zero = false
bytes_are_not_all_zero b index (suc size) =
    if b index != 0 then true else bytes_are_not_all_zero b (suc index) size

-- The tests on a payload of at least the header's size.
abbrev pub chat_payload_matches : Memory → ℕ → Bool
chat_payload_matches payload size =
    let type = payload 5 in
    let name_size = read_u16 payload 14 in
    let text_size = read_u16 payload 16 in
    if read_u32 payload 0 != chat_magic || payload 4 != 1
    then false
    else if type != 1 && type != 2 && type != 3
    then false
    else if not (bytes_are_not_all_zero payload 6 8)
    then false
    else if name_size == 0 || ltb chat_name_max name_size || ltb chat_text_max text_size
    then false
    else if size != chat_header_size + name_size + text_size
    then false
    else if type == 2 && text_size == 0
    then false
    else not (type != 2 && text_size != 0)

abbrev pub chat_matches_at : Pointer Memory → ℕ → Bool
chat_matches_at none size = false
chat_matches_at (some payload) size =
    if ltb size chat_header_size then false else chat_payload_matches payload size

unfoldable pub filter_chat_matches : Pointer UdpPacket → Bool
filter_chat_matches none = false
filter_chat_matches (some packet) = chat_matches_at packet.payload packet.payload_size

abbrev pub dns_matches_at : Pointer Memory → UdpPacket → Bool
dns_matches_at none packet = false
dns_matches_at (some payload) packet =
    if packet.source_port != dns_port && packet.destination_port != dns_port
    then false
    else if ltb packet.payload_size dns_header_size
    then false
    else bit_and (read_u16 payload 2) dns_reserved_flag == 0

unfoldable pub filter_dns_matches : Pointer UdpPacket → Bool
filter_dns_matches none = false
filter_dns_matches (some packet) = dns_matches_at packet.payload packet

unfoldable pub filter_matches : CaptureFilter → Pointer UdpPacket → Bool
unfolding filter_chat_matches filter_dns_matches
filter_matches chat packet = filter_chat_matches packet
filter_matches dns packet = filter_dns_matches packet
