-- ===== src/Tests/Messages.antt =====
-- The echo service, the broadcast chat and its capture filter, and the priority queue.
use eltex_education.Common.{
  ◌+◌, ◌≤◌, ◌≡◌, inl, inr, Bool-cases, refl, true, not, ◌&&◌, ◌||◌, some, List, [], ◌∷◌, arith, ltb,
  ◌==◌, if◌then◌else◌,
}
use eltex_education.Common.Memory.{Memory, strnlen, memory_of}
use eltex_education.Echo.Protocol.{
  Message, header_size, packet_of, message_of, protocol_encode, protocol_decode,
}
use eltex_education.Echo.Protocol.Codec.{IsMessage, decode-encode_echo}
use eltex_education.Echo.Server.{Client, uint32_max, server_state_next_counter}
use eltex_education.Echo.Server.Counters.{IsTable, count_of, next_counter-count}
use eltex_education.UdpChat
use eltex_education.UdpChat.Protocol.{ChatMessage}
use eltex_education.UdpChat.Protocol.Codec
use eltex_education.UdpChat.Protocol.Codec.{Carries, name_size, text_size, decode-encode_chat}
use eltex_education.Capture.Filter.{UdpPacket, filter_chat_matches}
use eltex_education.Capture.Filter.Chat.{filter_chat_matches-decode}
use eltex_education.PriorityQueue.{Levels, pop_first}
use eltex_education.PriorityQueue.Order.{IsStored, PopsHighest, pop_first-PopsHighest}

abbrev hello : Memory
hello = memory_of (104 ∷ 105 ∷ [])

abbrev reply : Message
reply = record { type = 2; counter = 3; payload_size = 2; payload = hello }

abbrev zeros : Memory
zeros = λ _. 0

decode-encode_echo_example :
    let (done, b', n) = protocol_encode (some reply) (some zeros) 64 (some 0) in
    (done ≡ true)
    × (n ≡ some (header_size + 2))
    × (b' ≡ some (packet_of reply zeros))
    × (protocol_decode (some (packet_of reply zeros)) (header_size + 2) (some reply)
        ≡ (true, some (message_of (packet_of reply zeros) reply)))
    × ((message_of (packet_of reply zeros) reply).type ≡ 2)
    × ((message_of (packet_of reply zeros) reply).counter ≡ 3)
    × ((message_of (packet_of reply zeros) reply).payload_size ≡ 2)
decode-encode_echo_example = decode-encode_echo reply reply zeros 64 0 reply-IsMessage (omega arith)
  where
    reply-IsMessage : IsMessage reply
    reply-IsMessage = record {
      kind = inr (inl (refl, omega arith));
      size_fits = omega arith;
      counter_fits = omega arith;
    }

abbrev clients : List Client
clients = record { ip = 1; port = 10; counter = 4 } ∷ record { ip = 2; port = 20; counter = 9 } ∷ []

clients-IsTable : IsTable clients
clients-IsTable = (omega arith, omega arith, (refl, tt), (omega arith, omega arith, tt, tt))

next_counter-count_example :
    let (ok, n, cs') = server_state_next_counter true clients 2 20 in
    (ok ≡ ltb 0 n)
    × (n ≡ (if ◌==◌ 9 uint32_max || not (true || ltb 0 9) then 0 else 9 + 1))
    × (count_of cs' 1 10 ≡ (if ◌==◌ 2 1 && ◌==◌ 20 10 && ltb 0 n then n else 4))
next_counter-count_example = next_counter-count true clients 2 20 1 10 clients-IsTable

abbrev greeting : ChatMessage
greeting = record { type = 2; sender_id = 77; sender_name = hello; text = hello }

greeting-IsMessage : Codec.IsMessage greeting
unfolding strnlen
greeting-IsMessage = record {
  kind = inl (refl, omega arith);
  has_id = omega arith;
  id_fits = omega arith;
  has_name = omega arith;
  name_fits = omega arith;
  text_fits = omega arith;
}

greeting_fits : UdpChat.Protocol.header_size + name_size greeting + text_size greeting ≤ 100
unfolding strnlen
greeting_fits = omega arith

decode-encode_chat_example :
    (packet : Memory) × (got : ChatMessage) × (UdpChat.Protocol.protocol_encode
        (some greeting)
        (some zeros)
        100
        (some 0)
      ≡ (
        true,
        some packet,
        some (UdpChat.Protocol.header_size + name_size greeting + text_size greeting),
      ))
    × (UdpChat.Protocol.protocol_decode
          (some packet)
          (UdpChat.Protocol.header_size + name_size greeting + text_size greeting)
          (some greeting)
        ≡ (true, some got))
    × Carries greeting got
decode-encode_chat_example =
    decode-encode_chat greeting greeting zeros 100 0 greeting-IsMessage greeting_fits

abbrev captured : UdpPacket
captured = record {
  source_mac = zeros;
  destination_mac = zeros;
  source_ip = zeros;
  destination_ip = zeros;
  source_port = 7;
  destination_port = 9;
  payload = some zeros;
  payload_size = 22;
}

filter_chat_matches-decode_example :
    filter_chat_matches (some captured)
    ≡ (UdpChat.Protocol.protocol_decode (some zeros) 22 (some greeting)).0
filter_chat_matches-decode_example = filter_chat_matches-decode captured zeros greeting refl

abbrev waiting : Levels
waiting p = if p == 7 then (1 ∷ []) ∷ (2 ∷ []) ∷ [] else []

waiting-IsStored : IsStored waiting
waiting-IsStored p = elim (Bool-cases (p == 7)) [ inl e ↦ rw e (omega arith) | inr e ↦ rw e tt ]

pop_first-PopsHighest_example : PopsHighest waiting 0 (pop_first waiting)
pop_first-PopsHighest_example = pop_first-PopsHighest waiting waiting-IsStored
