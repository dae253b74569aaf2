-- ===== src/Echo/Protocol/Codec.antt =====
-- The echo codec: round trip, what a receiver accepts, and the bytes that it reads.
use eltex_education.Common.{ℕ, ◌+◌, ◌-◌, ◌^◌, ◌≤◌, ◌<◌, ◌≡◌, ap, ◌⊎◌, true, some, arith}
use eltex_education.Common.Memory.{Memory}
use eltex_education.Common.Memory.Words.{word_u32, word_u16, read_u16}
use eltex_education.Echo.Protocol.{
  Message, payload_max, header_size, request, response, close, message_fields_are_valid, packet_of,
  message_of, protocol_encode, protocol_decode,
}

-- A message that may be sent: a request or a close counts 0, a response counts from 1, a close
-- has no payload.
pub record IsMessage (m : Message) : Type 0 where
  pub kind :
      ((m.type ≡ request) × (m.counter ≡ 0))
      ⊎ (((m.type ≡ response) × (0 < m.counter))
          ⊎ ((m.type ≡ close) × (m.counter ≡ 0) × (m.payload_size ≡ 0)))
  pub size_fits : m.payload_size ≤ payload_max
  pub counter_fits : m.counter < 2 ^ 32

fields-valid :
    (m : Message) → IsMessage m → message_fields_are_valid m.type m.counter m.payload_size ≡ true
unfolding message_fields_are_valid
fields-valid m v = ground arith

-- For a message whose fields are valid and a buffer that is large enough, `protocol_encode`
-- succeeds and reports the size of the packet, and `protocol_decode` accepts the packet with the
-- same type, counter and payload size.
pub decode-encode_echo :
    (m m' : Message) (b : Memory) (capacity size : ℕ)
    → IsMessage m
    → header_size + m.payload_size ≤ capacity
    → let (done, b', n) = protocol_encode (some m) (some b) capacity (some size) in
      (done ≡ true)
      × (n ≡ some (header_size + m.payload_size))
      × (b' ≡ some (packet_of m b))
      × (protocol_decode (some (packet_of m b)) (header_size + m.payload_size) (some m')
          ≡ (true, some (message_of (packet_of m b) m')))
      × ((message_of (packet_of m b) m').type ≡ m.type)
      × ((message_of (packet_of m b) m').counter ≡ m.counter)
      × ((message_of (packet_of m b) m').payload_size ≡ m.payload_size)
unfolding protocol_encode protocol_decode
decode-encode_echo m m' b c s v h = ground (arith, word_u32 m.counter, word_u16 m.payload_size)

packet-size :
    (m : Message) (b : Memory)
    → m.payload_size < 2 ^ 16
    → read_u16 (packet_of m b) 6 ≡ m.payload_size
packet-size m b h = ground (arith, word_u16 m.payload_size)

packet-payload :
    (m : Message) (b : Memory) (i : ℕ)
    → i < m.payload_size
    → packet_of m b (header_size + i) ≡ m.payload i
packet-payload m b i l =
    let e : header_size + i - header_size ≡ i = omega arith in ground (arith, ap m.payload e)

-- Every byte of a payload of at most 1024 bytes comes out of the packet that `protocol_encode`
-- writes, with a NUL behind the last.
pub decode-encode_payload :
    (m m' : Message) (b : Memory) (i : ℕ)
    → m.payload_size ≤ payload_max
    → i < m.payload_size
    → ((message_of (packet_of m b) m').payload i ≡ m.payload i)
      × ((message_of (packet_of m b) m').payload m.payload_size ≡ 0)
decode-encode_payload m m' b i h l =
    rw (packet-size m b (omega arith)) (ground (arith, packet-payload m b i l))
