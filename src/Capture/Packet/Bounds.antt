-- ===== src/Capture/Packet/Bounds.antt =====
-- A packet that is accepted lies within the captured frame.
use eltex_education.Common.{ℕ, ◌+◌, ◌*◌, ◌%◌, ◌≤◌, ◌≡◌, ◌≢◌, some, arith, ◌⊎◌}
use eltex_education.Common.Memory.{Memory, Pointer}
use eltex_education.Common.Memory.Words.{read_u16}
use eltex_education.Capture.Filter.{UdpPacket}
use eltex_education.Capture.Packet.{
  ParseResult, packet_at, ethernet_header_size, udp_header_size, parse_udp_part, parse_ipv4,
  packet_parse_udp,
}

-- The UDP part at `udp` ends within the `size` bytes of the frame and holds a header.
abbrev pub Lies : Memory → ℕ → ℕ → ParseResult × Pointer UdpPacket → Type 0
Lies frame size udp r =
    let udp_size = read_u16 frame (udp + 4) in
    (r ≡ (ParseResult.ok, some (packet_at frame udp udp_size)))
    × (udp_header_size ≤ udp_size)
    × (udp + udp_size ≤ size)

udp_part-Lies :
    (frame : Memory) (header total size : ℕ) (packet : UdpPacket)
    → header ≤ total
    → ethernet_header_size + total ≤ size
    → let r = parse_udp_part frame header total (some packet) in
      Lies frame size (ethernet_header_size + header) r
      ⊎ ((r.0 ≢ ParseResult.ok) × (r.1 ≡ some packet))
unfolding parse_udp_part
udp_part-Lies frame header total size packet h t = ground arith

-- For every frame, header length included, `packet_parse_udp` either reports the packet whose UDP
-- part holds a header and ends within the captured bytes, or fails and leaves the packet as it
-- was.
pub packet_parse_udp-Lies :
    (frame : Memory) (size : ℕ) (packet : UdpPacket)
    → let r = packet_parse_udp (some frame) size (some packet) in
      Lies frame size (ethernet_header_size + frame ethernet_header_size % 16 * 4) r
      ⊎ ((r.0 ≢ ParseResult.ok) × (r.1 ≡ some packet))
unfolding packet_parse_udp parse_ipv4
packet_parse_udp-Lies frame size packet = ground (
  arith,
  udp_part-Lies frame (frame ethernet_header_size % 16 * 4)
      (read_u16 frame (ethernet_header_size + 2)) size packet,
)
