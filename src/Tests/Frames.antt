-- ===== src/Tests/Frames.antt =====
-- Frames as they come off the network: an Ethernet frame with a UDP packet, a frame of the
-- stream chat, and an IPv4 address as text.
use eltex_education.Common.{arith, ℕ, ◌+◌, ◌*◌, ◌%◌, ◌≡◌, ◌≢◌, refl, ◌⊎◌, some, List, [], ◌∷◌}
use eltex_education.Common.Memory.{Memory, memory_of}
use eltex_education.Capture.Filter.{UdpPacket}
use eltex_education.Capture.Packet.{ParseResult, ethernet_header_size, packet_parse_udp}
use eltex_education.Capture.Packet.Bounds.{Lies, packet_parse_udp-Lies}
use eltex_education.Subnet.{Status, Address, dotted, decimal, ipv4_parse, ipv4_to_string}
use eltex_education.Subnet.RoundTrip.{ipv4_parse-to_string}
use eltex_education.TcpChat.Protocol.{FrameStatus, protocol_frame_size}

abbrev ethernet : List ℕ
ethernet = 1 ∷ 2 ∷ 3 ∷ 4 ∷ 5 ∷ 6 ∷ 7 ∷ 8 ∷ 9 ∷ 10 ∷ 11 ∷ 12 ∷ 8 ∷ 0 ∷ ipv4
  where
    ipv4 : List ℕ
    ipv4 =
        0x45 ∷ 0 ∷ 0 ∷ 30 ∷ 0 ∷ 0 ∷ 0 ∷ 0 ∷ 64 ∷ 17 ∷ 0 ∷ 0 ∷ 10 ∷ 0 ∷ 0 ∷ 1 ∷ 10 ∷ 0 ∷ 0 ∷ 2 ∷ udp
      where
        udp : List ℕ
        udp = 0 ∷ 53 ∷ 16 ∷ 0 ∷ 0 ∷ 10 ∷ 0 ∷ 0 ∷ 104 ∷ 105 ∷ []

abbrev nothing : UdpPacket
nothing = record {
  source_mac = memory_of [];
  destination_mac = memory_of [];
  source_ip = memory_of [];
  destination_ip = memory_of [];
  source_port = 0;
  destination_port = 0;
  payload = some (memory_of []);
  payload_size = 0;
}

accepted : (packet_parse_udp (some (memory_of ethernet)) 44 (some nothing)).0 ≡ ParseResult.ok
unfolding packet_parse_udp
accepted = refl

packet_parse_udp-Lies_example :
    Lies
      (memory_of ethernet)
      44
      (ethernet_header_size + memory_of ethernet ethernet_header_size % 16 * 4)
      (packet_parse_udp (some (memory_of ethernet)) 44 (some nothing))
    ⊎ (((packet_parse_udp (some (memory_of ethernet)) 44 (some nothing)).0 ≢ ParseResult.ok)
        × ((packet_parse_udp (some (memory_of ethernet)) 44 (some nothing)).1 ≡ some nothing))
packet_parse_udp-Lies_example = packet_parse_udp-Lies (memory_of ethernet) 44 nothing

-- bob joins
abbrev joined : Memory
joined = memory_of (
    0x4D ∷ 0x33 ∷ 0x54 ∷ 0x37 ∷ 2 ∷ 1 ∷ 0 ∷ 0 ∷ 0 ∷ 0 ∷ 0 ∷ 3 ∷ 0 ∷ 0 ∷ 0 ∷ 0 ∷ 0 ∷ 0 ∷ 0 ∷ 1 ∷ 0
    ∷ 0 ∷ 0 ∷ 0 ∷ 0 ∷ 0 ∷ 0 ∷ 0 ∷ 0 ∷ 3 ∷ 0 ∷ 0 ∷ 98 ∷ 111 ∷ 98 ∷ [])

joined-complete : protocol_frame_size (some joined) 40 (some 0) ≡ (FrameStatus.complete, some 35)
unfolding protocol_frame_size
joined-complete = refl

abbrev router : Address
router = record { first = 192; second = 168; third = 0; fourth = 17 }

ipv4_parse-to_string_example :
    (ipv4_to_string (some router) (some []) 16 ≡ (Status.ok, some (dotted router)))
    × (ipv4_parse (some (dotted router)) (some router) ≡ (Status.ok, some router))
unfolding dotted decimal
ipv4_parse-to_string_example =
    ipv4_parse-to_string router router [] 16
      (record {
        first = omega arith;
        second = omega arith;
        third = omega arith;
        fourth = omega arith;
      })
      (omega arith)
