-- ===== src/Capture/Filter/Chat.antt =====
-- The capture keeps exactly the packets that the chat of 06-udp-broadcast-chat would decode.
use eltex_education.Common.{◌≡◌, not, some, arith, ◌==◌}
use eltex_education.Common.Memory.{Memory}
use eltex_education.Common.Memory.Words.{read_u64}
use eltex_education.UdpChat.Protocol.{ChatMessage, decode_refuses, protocol_decode}
use eltex_education.Capture.Filter.{UdpPacket, bytes_are_not_all_zero, filter_chat_matches}

id-zero : (b : Memory) → bytes_are_not_all_zero b 6 8 ≡ not (read_u64 b 6 == 0)
unfolding bytes_are_not_all_zero
id-zero b = ground arith

-- On every packet with a payload, the capture's chat filter accepts exactly what `protocol_decode`
-- of the chat accepts.
pub filter_chat_matches-decode :
    (packet : UdpPacket) (b : Memory) (m : ChatMessage)
    → packet.payload ≡ some b
    → filter_chat_matches (some packet) ≡ (protocol_decode (some b) packet.payload_size (some m)).0
unfolding filter_chat_matches protocol_decode decode_refuses
filter_chat_matches-decode packet b m e = rw e (ground (arith, id-zero b))
