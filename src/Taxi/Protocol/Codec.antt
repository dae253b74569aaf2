-- ===== src/Taxi/Protocol/Codec.antt =====
-- The frame codec: round trip, what a receiver accepts, and the bytes touched.
use native.Mathlib.Decide.{dec_le}
use eltex_education.Common.{
  Bool-cases, inl, inr, ◌==◌, ℕ, ◌^◌, ◌≤◌, ◌<◌, ◌≡◌, ◌≢◌, ◌⊎◌, ◌↔◌, true, false, some, arith,
}
use eltex_education.Common.Memory.{Memory, AgreeBelow, IsBytes, AllBelow→all, all→AllBelow}
use eltex_education.Common.Memory.Words.{word_u32, read_u32}
use eltex_education.Taxi.Protocol.{
  Message, FrameStatus, magic, version, hello, error, header_size, frame_bytes, payload_size,
  header_is_invalid, protocol_frame_size, protocol_encode, protocol_decode, message_of, frame_of,
}

-- A message that fits its fields: every field a `uint32_t`, and a type of the enum.
pub record IsMessage (m : Message) : Type 0 where
  pub type_low : hello ≤ m.type
  pub type_high : m.type ≤ error
  pub request_fits : m.request_id < 2 ^ 32
  pub pid_fits : m.driver_pid < 2 ^ 32
  pub timer_fits : m.task_timer < 2 ^ 32

-- What the protocol calls a frame, in plain terms.
pub record IsFrame (b : Memory) : Type 0 where
  pub magic_ok : read_u32 b 0 ≡ magic
  pub version_ok : b 4 ≡ version
  pub type_low : hello ≤ b 5
  pub type_high : b 5 ≤ error
  pub reserved_low : b 6 ≡ 0
  pub reserved_high : b 7 ≡ 0
  pub payload_ok : read_u32 b 8 ≡ payload_size

IsFrame→valid : (b : Memory) → IsFrame b → header_is_invalid b ≡ false
unfolding header_is_invalid
IsFrame→valid b f = ground arith

valid→IsFrame : (b : Memory) → header_is_invalid b ≡ false → IsFrame b
unfolding header_is_invalid
valid→IsFrame b h = ground arith

-- `protocol_frame_size` reports a complete frame, of 24 bytes, exactly when 24 bytes or more are
-- there and the first 24 form a frame.
pub protocol_frame_size-complete_iff :
    (b : Memory) (available size : ℕ)
    → (protocol_frame_size (some b) available (some size)
        ≡ (FrameStatus.complete, some frame_bytes))
      ↔ ((frame_bytes ≤ available) × IsFrame b)
unfolding protocol_frame_size header_is_invalid
protocol_frame_size-complete_iff b n s = (λ h. ground arith, λ h. ground arith)

-- A verdict of `protocol_frame_size` other than incomplete is still the same when more bytes have
-- arrived.
pub protocol_frame_size_stable :
    (b : Memory) (n m size : ℕ)
    → n ≤ m
    → (protocol_frame_size (some b) n (some size)).0 ≢ FrameStatus.incomplete
    → protocol_frame_size (some b) m (some size) ≡ protocol_frame_size (some b) n (some size)
unfolding protocol_frame_size header_is_invalid
protocol_frame_size_stable b n m s h q = ground arith

-- What `protocol_encode` writes decodes to the message.
pub decode-frame_of :
    (m m' : Message) (b : Memory)
    → IsMessage m
    → protocol_decode (some (frame_of m b)) frame_bytes (some m') ≡ (true, some m)
unfolding protocol_decode
decode-frame_of m m' b v =
    ground (arith, word_u32 m.request_id, word_u32 m.driver_pid, word_u32 m.task_timer)

-- `protocol_encode` succeeds on a message within the ranges of its fields if the buffer has 24
-- bytes or more, reports 24 bytes, and they decode to the message.
pub decode-encode :
    (m m' : Message) (b : Memory) (capacity size : ℕ)
    → IsMessage m
    → frame_bytes ≤ capacity
    → let (done, b', n) = protocol_encode (some m) (some b) capacity (some size) in
      (done ≡ true)
      × (n ≡ some frame_bytes)
      × (protocol_decode b' frame_bytes (some m') ≡ (true, some m))
unfolding protocol_encode
decode-encode m m' b c s v h = ground (arith, decode-frame_of m m' b v)

-- `protocol_decode` accepts exactly 24 bytes that form a frame, and then fills in their message;
-- otherwise it fails, and the message is as before.
pub decode-accepts_iff :
    (b : Memory) (size : ℕ) (m : Message)
    → ((protocol_decode (some b) size (some m) ≡ (true, some (message_of b)))
        × (size ≡ frame_bytes)
        × IsFrame b)
      ⊎ ((protocol_decode (some b) size (some m) ≡ (false, some m))
          × ¬ ((size ≡ frame_bytes) × IsFrame b))
unfolding protocol_decode header_is_invalid
decode-accepts_iff b size m = elim (Bool-cases (header_is_invalid b)) [
  | inl bad ↦ inr (ground arith, λ h. ground arith)
  | inr good ↦ elim (Bool-cases (size == frame_bytes)) [
    | inl e ↦ inl (ground arith, ground arith, ground arith)
    | inr ne ↦ inr (ground arith, λ h. ground arith)
  ]
]

-- `protocol_decode` reads no byte at or past `size`: it does the same on two buffers that agree on
-- the bytes below `size`.
pub decode_reads_below_size :
    (a b : Memory) (size : ℕ) (m : Message)
    → AgreeBelow size a b
    → protocol_decode (some a) size (some m) ≡ protocol_decode (some b) size (some m)
unfolding protocol_decode header_is_invalid
decode_reads_below_size a b size m h = elim (dec_le frame_bytes size) [
  | yes p ↦ let same = all→AllBelow (λ i. a i ≡ b i) 24 (λ i l. h i (omega arith)) in ground arith
  | no p ↦ ground arith
]

pub protocol_frame_size-agree :
    (a b : Memory) (n size : ℕ)
    → AgreeBelow n a b
    → protocol_frame_size (some a) n (some size) ≡ protocol_frame_size (some b) n (some size)
unfolding protocol_frame_size header_is_invalid
protocol_frame_size-agree a b n size h = elim (dec_le header_size n) [
  | yes p ↦ let same = all→AllBelow (λ i. a i ≡ b i) 16 (λ i l. h i (omega arith)) in ground arith
  | no p ↦ ground arith
]

pub decode_of_IsFrame :
    (b : Memory) (m : Message)
    → IsFrame b
    → protocol_decode (some b) frame_bytes (some m) ≡ (true, some (message_of b))
unfolding protocol_decode header_is_invalid
decode_of_IsFrame b m f = ground arith

-- 24 bytes that form a frame are the encoding of the message that they decode to:
-- `protocol_encode` of it succeeds in a buffer of 24 bytes or more and writes the same bytes.
pub encode-decode :
    (b b' : Memory) (capacity size : ℕ)
    → IsBytes frame_bytes b
    → IsFrame b
    → frame_bytes ≤ capacity
    → let (done, b'', n) = protocol_encode (some (message_of b)) (some b') capacity (some size) in
      (done ≡ true)
      × (n ≡ some frame_bytes)
      × (b'' ≡ some (frame_of (message_of b) b'))
      × AgreeBelow frame_bytes (frame_of (message_of b) b') b
unfolding protocol_encode
encode-decode b b' c s v f h =
    let bytes = all→AllBelow (λ i. b i < 256) 24 v in
    (ground arith, ground arith, ground arith, AllBelow→all _ 24 (omega arith))

pub protocol_frame_size-cases :
    (b : Memory) (n size : ℕ)
    → (((protocol_frame_size (some b) n (some size)).0 ≡ FrameStatus.incomplete)
        × (n < frame_bytes))
      ⊎ (((protocol_frame_size (some b) n (some size)).0 ≡ FrameStatus.invalid)
          ⊎ ((frame_bytes ≤ n) × IsFrame b))
unfolding protocol_frame_size
protocol_frame_size-cases b n size = elim (dec_le header_size n) [
  | no p ↦ inl (ground arith, omega arith)
  | yes p ↦ elim (Bool-cases (header_is_invalid b)) [
    | inl bad ↦ inr (inl (ground arith))
    | inr good ↦ elim (dec_le frame_bytes n) [
      | yes q ↦ inr (inr (q, valid→IsFrame b good))
      | no q ↦ inl (ground arith, omega arith)
    ]
  ]
]
