-- ===== src/Capture/Packet.antt =====
-- src/packet.c of 08-raw-socket-packet-capture: the UDP packet in an Ethernet frame. Pointers into
-- the frame are offsets of its memory.
pub mod Bounds
use Prim.Native.Nat.{bit_and}
use eltex_education.Common.{
  ℕ, ◌+◌, ◌-◌, ◌*◌, ◌/◌, ◌%◌, Bool, true, false, ◌||◌, none, some, ltb, ◌==◌, ◌!=◌, if◌then◌else◌,
}
use eltex_education.Common.Memory.{Memory, Pointer, offset}
use eltex_education.Common.Memory.Words.{read_u16}
use eltex_education.Capture.Filter.{UdpPacket}

abbrev pub ethernet_header_size : ℕ
ethernet_header_size = 14

abbrev pub ethernet_type_ipv4 : ℕ
ethernet_type_ipv4 = 0x0800

abbrev pub ipv4_min_header_size : ℕ
ipv4_min_header_size = 20

abbrev pub ipv4_protocol_udp : ℕ
ipv4_protocol_udp = 17

-- `IPV4_MORE_FRAGMENTS | IPV4_FRAGMENT_OFFSET`
abbrev pub ipv4_fragment_bits : ℕ
ipv4_fragment_bits = 0x3FFF

abbrev pub udp_header_size : ℕ
udp_header_size = 8

-- `packet_parse_result_t`
pub data ParseResult : Type 0 where
  ok unsupported fragmented malformed : ParseResult

-- The packet in the frame, with the offset and the size of its UDP part.
abbrev pub packet_at : Memory → ℕ → ℕ → UdpPacket
packet_at frame udp udp_size = record {
  source_mac = offset frame 6;
  destination_mac = frame;
  source_ip = offset frame (ethernet_header_size + 12);
  destination_ip = offset frame (ethernet_header_size + 16);
  source_port = read_u16 frame udp;
  destination_port = read_u16 frame (udp + 2);
  payload = some (offset frame (udp + udp_header_size));
  payload_size = udp_size - udp_header_size;
}

-- The tests behind those of the IPv4 header, whose sizes these are.
unfoldable pub parse_udp_part : Memory → ℕ → ℕ → Pointer UdpPacket → ParseResult × Pointer UdpPacket
parse_udp_part frame header total packet =
    let udp = ethernet_header_size + header in
    let udp_size = read_u16 frame (udp + 4) in
    if bit_and (read_u16 frame (ethernet_header_size + 6)) ipv4_fragment_bits != 0
    then (ParseResult.fragmented, packet)
    else if frame (ethernet_header_size + 9) != ipv4_protocol_udp
    then (ParseResult.unsupported, packet)
    else if ltb (total - header) udp_header_size
    then (ParseResult.malformed, packet)
    else if ltb udp_size udp_header_size || ltb (total - header) udp_size
    then (ParseResult.malformed, packet)
    else (ParseResult.ok, some (packet_at frame udp udp_size))

unfoldable pub parse_ipv4 : Memory → ℕ → Pointer UdpPacket → ParseResult × Pointer UdpPacket
unfolding parse_udp_part
parse_ipv4 frame captured packet =
    let version = frame ethernet_header_size / 16 in
    let header = frame ethernet_header_size % 16 * 4 in
    let total = read_u16 frame (ethernet_header_size + 2) in
    if ltb captured ipv4_min_header_size
    then (ParseResult.malformed, packet)
    else if version != 4 || ltb header ipv4_min_header_size
    then (ParseResult.malformed, packet)
    else if ltb captured header
    then (ParseResult.malformed, packet)
    else if ltb total header || ltb captured total
    then (ParseResult.malformed, packet)
    else parse_udp_part frame header total packet

unfoldable pub packet_parse_udp :
    Pointer Memory → ℕ → Pointer UdpPacket → ParseResult × Pointer UdpPacket
unfolding parse_ipv4
packet_parse_udp none frame_size packet = (ParseResult.malformed, packet)
packet_parse_udp (some frame) frame_size none = (ParseResult.malformed, none)
packet_parse_udp (some frame) frame_size (some packet) =
    if ltb frame_size ethernet_header_size
    then (ParseResult.malformed, some packet)
    else if read_u16 frame 12 != ethernet_type_ipv4
    then (ParseResult.unsupported, some packet)
    else parse_ipv4 frame (frame_size - ethernet_header_size) (some packet)
