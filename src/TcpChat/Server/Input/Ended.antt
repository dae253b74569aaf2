-- ===== src/TcpChat/Server/Input/Ended.antt =====
-- `process_input` ends, and leaves room in the input buffer.
use eltex_education.Common.{
  ℕ, zero, suc, ◌+◌, ◌-◌, ◌≤◌, ◌<◌, ◌≡◌, inl, inr, ◌∙◌, refl, ap, Bool, true, false, not, Option,
  none, some, arith, ltb, ◌==◌, ◌!=◌, ◌||◌, if◌then◌else◌, Bool-cases,
}
use eltex_education.Common.Memory.{Memory, Pointer}
use eltex_education.TcpChat.Protocol.{
  ChatMessage, FrameStatus, join, leave, header_size, header_is_valid, sized, protocol_frame_size,
  protocol_decode,
}
use eltex_education.TcpChat.Protocol.Frames.{header_is_valid-bounds}
use eltex_education.TcpChat.Server.{
  Client, Clients, packet_max_size, set_client, client_identity_matches, validate_file_transfer,
  handle_validated, handle_decoded, handle_message,
}
use eltex_education.TcpChat.Server.Input.{
  drop_input, after_message, process_frame, process_loop, process_input,
}
use eltex_education.TcpChat.Server.Broadcast.{broadcast_frame-own}

-- What `protocol_frame_size` may answer: an incomplete frame is smaller than the largest packet.
abbrev Verdict : ℕ → FrameStatus × Pointer ℕ → Type 0
Verdict available (FrameStatus.invalid, n) = Unit {0}
Verdict available (FrameStatus.incomplete, n) = available < packet_max_size
Verdict available (FrameStatus.complete, none) = Unit {0}
Verdict available (FrameStatus.complete, some size) = (0 < size) × (size ≤ available)

sized-Verdict :
    (b : Memory) (o : Option ℕ) (available : ℕ)
    → header_is_valid b ≡ o
    → Verdict available (sized o available)
sized-Verdict b none available e = tt
sized-Verdict b (some n) available e =
    let q = header_is_valid-bounds b n e in
    elim (Bool-cases (ltb available (header_size + n))) [
      | inl l ↦ rw l (ground arith)
      | inr l ↦ rw l (ground arith)
    ]

frame_size-Verdict :
    (b : Memory) (available : ℕ)
    → Verdict available (protocol_frame_size (some b) available (some 0))
unfolding protocol_frame_size
frame_size-Verdict b available = elim (Bool-cases (ltb available header_size)) [
  | inl l ↦ rw l (ground arith)
  | inr l ↦ rw l (sized-Verdict b (header_is_valid b) available refl)
]

-- A message that goes on leaves the input of its client as it was.
abbrev Keeps : ℕ → Clients → Bool × Clients → Type 0
Keeps index cs (false, cs') = Unit {0}
Keeps index cs (true, cs') = (cs' index).input_size ≡ (cs index).input_size

if-Keeps :
    (cs : Clients) (index : ℕ) (b : Bool) (x y : Bool × Clients)
    → Keeps index cs x
    → Keeps index cs y
    → Keeps index cs (if b then x else y)
if-Keeps cs index true x y h k = h
if-Keeps cs index false x y h k = k

-- A result of `process_input`: when it succeeds, less than a packet stays in the buffer.
abbrev pub Ended : ℕ → Option (Bool × Clients) → Type 0
Ended index none = ⊥
Ended index (some (false, cs)) = Unit {0}
Ended index (some (true, cs)) = (cs index).input_size < packet_max_size

if-Ended :
    (index : ℕ) (b : Bool) (x y : Option (Bool × Clients))
    → Ended index x
    → Ended index y
    → Ended index (if b then x else y)
if-Ended index true x y h k = h
if-Ended index false x y h k = k

after_message-Ended :
    (index size : ℕ) (rest : Clients → Option (Bool × Clients)) (cs : Clients) (r : Bool × Clients)
    → Keeps index cs r
    → ((cs' : Clients)
        → (cs' index).input_size ≡ (cs index).input_size - size
        → Ended index (rest cs'))
    → Ended index (after_message index size rest r)
after_message-Ended index size rest cs (false, cs') k h = tt
after_message-Ended index size rest cs (true, cs') k h =
    if-Ended index (not (cs' index).active) _ _ tt
      (h (set_client cs' index (drop_input (cs' index) size)) (ground arith))

module _ (epoll_ok : ℕ → Bool) where
  validated-Keeps :
      (cs : Clients) (index : ℕ) (frame : Memory) (size : ℕ) (m : ChatMessage) (r : Bool × Client)
      → r.1.input_size ≡ (cs index).input_size
      → Keeps index cs (handle_validated epoll_ok cs index frame size m r)
  validated-Keeps cs index frame size m (false, c) e = tt
  validated-Keeps cs index frame size m (true, c) e =
      if-Keeps cs index (m.type == leave) _ _ tt
        (ap (λ d. d.input_size) (broadcast_frame-own epoll_ok cs index c frame size) ∙ e)

  transfer-input :
      (c : Client) (m : ChatMessage) → (validate_file_transfer c m).1.input_size ≡ c.input_size
  unfolding validate_file_transfer
  transfer-input c m = ground arith

  decoded-Keeps :
      (cs : Clients) (index : ℕ) (frame : Memory) (size : ℕ) (r : Bool × Pointer ChatMessage)
      → Keeps index cs (handle_decoded epoll_ok cs index frame size r)
  decoded-Keeps cs index frame size (false, m) = tt
  decoded-Keeps cs index frame size (true, none) = tt
  decoded-Keeps cs index frame size (true, some m) =
      if-Keeps cs index (not (cs index).joined) _ _
        (if-Keeps cs index (m.type != join) _ _ tt
          (ap (λ d. d.input_size) (broadcast_frame-own epoll_ok cs index _ frame size)))
        (if-Keeps cs index (not (client_identity_matches (cs index) m) || m.type == join) _ _ tt (
          validated-Keeps cs index frame size m (validate_file_transfer (cs index) m)
            (transfer-input (cs index) m)))

  message-Keeps :
      (blank : ChatMessage) (cs : Clients) (index : ℕ) (frame : Memory) (size : ℕ)
      → Keeps index cs (handle_message epoll_ok blank cs index frame size)
  unfolding handle_message
  message-Keeps blank cs index frame size =
      decoded-Keeps cs index frame size (protocol_decode (some frame) size (some blank))

  process_frame-Ended :
      (blank : ChatMessage) (index : ℕ) (rest : Clients → Option (Bool × Clients)) (cs : Clients)
      (r : FrameStatus × Pointer ℕ)
      → Verdict (cs index).input_size r
      → ((cs' : Clients) → (cs' index).input_size < (cs index).input_size → Ended index (rest cs'))
      → Ended index (process_frame epoll_ok blank index rest cs r)
  process_frame-Ended blank index rest cs (FrameStatus.invalid, n) v h = tt
  process_frame-Ended blank index rest cs (FrameStatus.incomplete, n) v h = v
  process_frame-Ended blank index rest cs (FrameStatus.complete, none) v h = tt
  process_frame-Ended blank index rest cs (FrameStatus.complete, some size) v h =
      after_message-Ended index size rest cs
        (handle_message epoll_ok blank cs index (cs index).input size)
        (message-Keeps blank cs index (cs index).input size) (λ cs' e. h cs' (omega arith))

loop-Ended :
    (epoll_ok : ℕ → ℕ → Bool) (blank : ChatMessage) (fuel : ℕ) (cs : Clients) (index : ℕ)
    → (cs index).input_size < fuel
    → Ended index (process_loop epoll_ok blank fuel cs index)
unfolding process_loop
loop-Ended epoll_ok blank zero cs index l = absurd (omega arith)
loop-Ended epoll_ok blank (suc fuel) cs index l = elim (Bool-cases ((cs index).input_size == 0)) [
  | inl e ↦ rw e (ground arith)
  | inr e ↦ rw e (
      process_frame-Ended (epoll_ok 0) blank index
        (λ cs'. process_loop (λ k. epoll_ok (suc k)) blank fuel cs' index) cs
        (protocol_frame_size (some (cs index).input) (cs index).input_size (some 0))
        (frame_size-Verdict (cs index).input (cs index).input_size)
        (λ cs' l'. loop-Ended (λ k. epoll_ok (suc k)) blank fuel cs' index (omega arith)))
]

-- `process_input` of the chat server ends for every client and input; when it succeeds, less than
-- the largest packet stays in the client's input, so that `receive_client_data` has room to go on.
pub process_input-Ended :
    (epoll_ok : ℕ → ℕ → Bool) (blank : ChatMessage) (cs : Clients) (index : ℕ)
    → Ended index (process_input epoll_ok blank cs index)
unfolding process_input
process_input-Ended epoll_ok blank cs index =
    loop-Ended epoll_ok blank (suc (cs index).input_size) cs index (omega arith)
