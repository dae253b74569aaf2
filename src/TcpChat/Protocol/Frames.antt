-- ===== src/TcpChat/Protocol/Frames.antt =====
-- What the frames of the stream chat promise about sizes.
use eltex_education.Common.{ℕ, ◌+◌, ◌≤◌, ◌<◌, ◌≡◌, some, arith, Option-cases, inl, inr}
use eltex_education.Common.Memory.{Memory}
use eltex_education.Common.Memory.Words.{read_u16}
use eltex_education.TcpChat.Protocol.{
  FrameStatus, header_size, name_max, file_chunk_max, header_is_valid, protocol_frame_size,
}

pub header_is_valid-bounds :
    (b : Memory) (n : ℕ)
    → header_is_valid b ≡ some n
    → (n ≡ read_u16 b 28 + read_u16 b 30) × (0 < read_u16 b 28) × (n ≤ name_max + file_chunk_max)
unfolding header_is_valid
header_is_valid-bounds b n h = ground arith

-- A frame that `protocol_frame_size` of the stream chat reports complete has the size of its
-- header, name and content, has a name, lies within the available bytes, and is no larger than the
-- largest packet.
pub frame_complete-bounds :
    (b : Memory) (available size : ℕ)
    → protocol_frame_size (some b) available (some 0) ≡ (FrameStatus.complete, some size)
    → (size ≡ header_size + read_u16 b 28 + read_u16 b 30)
      × (header_size < size)
      × (size ≤ available)
      × (size ≤ header_size + name_max + file_chunk_max)
unfolding protocol_frame_size
frame_complete-bounds b available size h = elim (Option-cases (header_is_valid b)) [
  | inl e ↦ ground arith
  | inr (n, e) ↦ let q = header_is_valid-bounds b n e in ground arith
]
