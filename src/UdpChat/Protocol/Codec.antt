-- ===== src/UdpChat/Protocol/Codec.antt =====
-- The chat codec: what is sent is read back, byte for byte.
use eltex_education.Common.{
  ℕ, ◌+◌, ◌-◌, ◌/◌, ◌%◌, ◌^◌, ◌≤◌, ◌<◌, ◌≡◌, ◌⊎◌, refl, ap, true, false, some, arith,
}
use eltex_education.Common.Memory.{Memory, strnlen}
use eltex_education.Common.Memory.Words.{word_u32, word_u16, read_u16, read_u32, read_u64}
use eltex_education.UdpChat.Protocol.{
  ChatMessage, magic, version, name_max, text_max, header_size, join, message, leave,
  encode_refuses, packet_of, message_of, decode_refuses, protocol_encode, protocol_decode,
}

abbrev pub name_size : ChatMessage → ℕ
name_size m = strnlen m.sender_name (name_max + 1)

abbrev pub text_size : ChatMessage → ℕ
text_size m = strnlen m.text (text_max + 1)

-- A message that may be sent: a name and an id; a text exactly in a chat message.
pub record IsMessage (m : ChatMessage) : Type 0 where
  pub kind :
      ((m.type ≡ message) × (0 < text_size m))
      ⊎ (((m.type ≡ join) ⊎ (m.type ≡ leave)) × (text_size m ≡ 0))
  pub has_id : 0 < m.sender_id
  pub id_fits : m.sender_id < 2 ^ 64
  pub has_name : 0 < name_size m
  pub name_fits : name_size m ≤ name_max
  pub text_fits : text_size m ≤ text_max

packet-name_size :
    (m : ChatMessage) (b : Memory) (n t : ℕ) → n < 2 ^ 16 → read_u16 (packet_of m b n t) 14 ≡ n
packet-name_size m b n t h = ground (arith, word_u16 n)

packet-text_size :
    (m : ChatMessage) (b : Memory) (n t : ℕ) → t < 2 ^ 16 → read_u16 (packet_of m b n t) 16 ≡ t
packet-text_size m b n t h = ground (arith, word_u16 t)

packet-id :
    (m : ChatMessage) (b : Memory) (n t : ℕ)
    → m.sender_id < 2 ^ 64
    → read_u64 (packet_of m b n t) 6 ≡ m.sender_id
packet-id m b n t h =
    ground (arith, word_u32 (m.sender_id / 2 ^ 32), word_u32 (m.sender_id % 2 ^ 32))

packet-magic : (m : ChatMessage) (b : Memory) (n t : ℕ) → read_u32 (packet_of m b n t) 0 ≡ magic
packet-magic m b n t = ground arith

packet-type : (m : ChatMessage) (b : Memory) (n t : ℕ) → m.type < 256 → packet_of m b n t 5 ≡ m.type
packet-type m b n t h = ground arith

packet-version : (m : ChatMessage) (b : Memory) (n t : ℕ) → packet_of m b n t 4 ≡ version
packet-version m b n t = ground arith

packet-accepted :
    (m : ChatMessage) (b : Memory)
    → IsMessage m
    → decode_refuses
        (packet_of m b (name_size m) (text_size m))
        (header_size + name_size m + text_size m)
      ≡ false
unfolding decode_refuses
packet-accepted m b v =
    rw
      (
        packet-magic m b (name_size m) (text_size m),
        packet-version m b (name_size m) (text_size m),
        packet-type m b (name_size m) (text_size m) (ground arith),
        packet-id m b (name_size m) (text_size m) v.id_fits,
        packet-name_size m b (name_size m) (text_size m) (omega arith),
        packet-text_size m b (name_size m) (text_size m) (omega arith),
      )
      (ground arith)

packet-name :
    (m : ChatMessage) (b : Memory) (n t i : ℕ)
    → i < n
    → packet_of m b n t (header_size + i) ≡ m.sender_name i
packet-name m b n t i h =
    let e : header_size + i - header_size ≡ i = omega arith in ground (arith, ap m.sender_name e)

packet-text :
    (m : ChatMessage) (b : Memory) (n t i : ℕ)
    → i < t
    → packet_of m b n t (header_size + n + i) ≡ m.text i
packet-text m b n t i h =
    let e : header_size + n + i - (header_size + n) ≡ i = omega arith in ground (arith, ap m.text e)

-- What the receiver holds after decoding a packet.
pub record Carries (m : ChatMessage) (got : ChatMessage) : Type 0 where
  pub same_type : got.type ≡ m.type
  pub same_id : got.sender_id ≡ m.sender_id
  pub same_name : (i : ℕ) → i < name_size m → got.sender_name i ≡ m.sender_name i
  pub name_ends : got.sender_name (name_size m) ≡ 0
  pub same_text : (i : ℕ) → i < text_size m → got.text i ≡ m.text i
  pub text_ends : got.text (text_size m) ≡ 0

got-name :
    (m m' : ChatMessage) (b : Memory) (n t i : ℕ)
    → n < 2 ^ 16
    → i < n
    → (message_of (packet_of m b n t) m').sender_name i ≡ m.sender_name i
got-name m m' b n t i h l =
    rw (packet-name_size m b n t h) (ground (arith, packet-name m b n t i l))

got-name_end :
    (m m' : ChatMessage) (b : Memory) (n t : ℕ)
    → n < 2 ^ 16
    → (message_of (packet_of m b n t) m').sender_name n ≡ 0
got-name_end m m' b n t h = rw (packet-name_size m b n t h) (ground arith)

got-text :
    (m m' : ChatMessage) (b : Memory) (n t i : ℕ)
    → n < 2 ^ 16
    → t < 2 ^ 16
    → i < t
    → (message_of (packet_of m b n t) m').text i ≡ m.text i
got-text m m' b n t i h k l =
    rw (packet-name_size m b n t h, packet-text_size m b n t k)
      (ground (arith, packet-text m b n t i l))

got-text_end :
    (m m' : ChatMessage) (b : Memory) (n t : ℕ)
    → t < 2 ^ 16
    → (message_of (packet_of m b n t) m').text t ≡ 0
got-text_end m m' b n t h = rw (packet-text_size m b n t h) (ground arith)

packet-Carries :
    (m m' : ChatMessage) (b : Memory)
    → IsMessage m
    → Carries m (message_of (packet_of m b (name_size m) (text_size m)) m')
packet-Carries m m' b v = record {
  same_type = packet-type m b (name_size m) (text_size m) (ground arith);
  same_id = packet-id m b (name_size m) (text_size m) v.id_fits;
  same_name = λ i h. got-name m m' b (name_size m) (text_size m) i (omega arith) h;
  name_ends = got-name_end m m' b (name_size m) (text_size m) (omega arith);
  same_text = λ i h. got-text m m' b (name_size m) (text_size m) i (omega arith) (omega arith) h;
  text_ends = got-text_end m m' b (name_size m) (text_size m) (omega arith);
}

encode-accepts :
    (m : ChatMessage) (capacity : ℕ)
    → IsMessage m
    → header_size + name_size m + text_size m ≤ capacity
    → encode_refuses m (name_size m) (text_size m) capacity ≡ false
unfolding encode_refuses
encode-accepts m c v h = ground arith

-- A message that may be sent is encoded if the buffer is large enough, and the receiver decodes
-- the packet to the same type, sender, name and text, both with their NUL.
pub decode-encode_chat :
    (m m' : ChatMessage) (b : Memory) (capacity size : ℕ)
    → IsMessage m
    → header_size + name_size m + text_size m ≤ capacity
    → (packet : Memory) × (got : ChatMessage) × (protocol_encode
          (some m)
          (some b)
          capacity
          (some size)
        ≡ (true, some packet, some (header_size + name_size m + text_size m)))
      × (protocol_decode (some packet) (header_size + name_size m + text_size m) (some m')
          ≡ (true, some got))
      × Carries m got
unfolding protocol_encode protocol_decode
decode-encode_chat m m' b c s v h =
    let packet = packet_of m b (name_size m) (text_size m) in
    (
      packet,
      message_of packet m',
      rw (encode-accepts m c v h) refl,
      rw (packet-accepted m b v) refl,
      packet-Carries m m' b v,
    )
