-- ===== src/Tests/Taxi.antt =====
-- The taxi driver: an order of five seconds, the status after two and a half, and its frames.
use eltex_education.Common.{
  ℕ, ◌+◌, ◌-◌, ◌/◌, ◌<◌, ◌≡◌, ◌≢◌, ◌⊎◌, refl, min, Bool, true, false, Option, some, List, [], ◌∷◌,
  arith, length,
}
use eltex_education.Common.Memory.{Memory, AgreeBelow, IsBytes, memory_of}
use eltex_education.Taxi.Protocol.{
  Message, FrameStatus, frame_bytes, frame_of, message_of, protocol_frame_size, protocol_encode,
  protocol_decode,
}
use eltex_education.Taxi.Protocol.Codec.{
  IsMessage, IsFrame, decode-encode, decode-accepts_iff, encode-decode,
}
use eltex_education.Taxi.Driver.{Timespec, Driver, uint32_max, remaining_seconds, handle_message}
use eltex_education.Taxi.Driver.Clock.{nanos, remaining_seconds-eq}
use eltex_education.Taxi.Driver.Send.{
  SendEvent, sent, would_block, send_message, send_message-delivers, send_message_ends,
}
use eltex_education.Taxi.Driver.Handle.{
  serve, taxi_at, request_of, reply_of, handle_message-refines,
}
use eltex_education.Taxi.Driver.Input.{Processed, process_input, serve_all}
use eltex_education.Taxi.Driver.Receive.{received}
use eltex_education.Taxi.Driver.Loop.{readable, HasRoom, event_loop_round, event_loop_round-HasRoom}
use eltex_education.Taxi.Driver.Input.Framing.{Holds, process_input-serve, process_input-ends}

abbrev zeros : Memory
zeros = λ _. 0

abbrev order : Message
order = record { type = 2; request_id = 7; driver_pid = 9; task_timer = 5 }

abbrev query : Message
query = record { type = 3; request_id = 8; driver_pid = 9; task_timer = 0 }

abbrev start : Timespec
start = record { tv_sec = 100; tv_nsec = 500000000 }

abbrev later : Timespec
later = record { tv_sec = 103; tv_nsec = 0 }

abbrev until : Timespec
until = record { tv_sec = 105; tv_nsec = 500000000 }

-- An order and six bytes of the next frame are buffered.
abbrev idle : Driver
idle = record { input = frame_of order zeros; input_size = 30; busy = false; deadline = start }

abbrev taken : Driver
taken = record { input = zeros; input_size = 0; busy = true; deadline = until }

abbrev accepts : Message → Bool
accepts m = true

order-IsMessage : IsMessage order
order-IsMessage = omega arith

order-IsFrame : IsFrame (frame_of order zeros)
order-IsFrame = omega arith

decode-encode_example :
    let (done, b', n) = protocol_encode (some order) (some zeros) 96 (some 0) in
    (done ≡ true)
    × (n ≡ some frame_bytes)
    × (protocol_decode b' frame_bytes (some query) ≡ (true, some order))
decode-encode_example = decode-encode order query zeros 96 0 order-IsMessage (omega arith)

decode-accepts_iff_example :
    ((protocol_decode (some zeros) 24 (some order) ≡ (true, some (message_of zeros)))
      × (◌≡◌ {A = ℕ} 24 frame_bytes)
      × IsFrame zeros)
    ⊎ ((protocol_decode (some zeros) 24 (some order) ≡ (false, some order))
        × ¬ ((◌≡◌ {A = ℕ} 24 frame_bytes) × IsFrame zeros))
decode-accepts_iff_example = decode-accepts_iff zeros 24 order

abbrev noisy : Memory
noisy = frame_of order (λ i. i)

order_invalid : (protocol_frame_size (some zeros) 20 (some 0)).0 ≢ FrameStatus.incomplete
unfolding protocol_frame_size
order_invalid e = cc

order-IsBytes : IsBytes frame_bytes (frame_of order zeros)
order-IsBytes i h = ground arith

remaining_seconds-eq_example :
    remaining_seconds taken later
    ≡ min uint32_max ((nanos until - nanos later + 999999999) / 1000000000)
remaining_seconds-eq_example = remaining_seconds-eq taken later (omega arith) (omega arith)

three_left : remaining_seconds taken later ≡ 3
unfolding remaining_seconds
three_left = refl

handle_message-refines_example :
    let o = handle_message 9 accepts idle order true (some start) in
    let r = serve (taxi_at idle (nanos start)) (nanos start) (request_of order) in
    (taxi_at o.driver (nanos start) ≡ r.0) × (o.reply ≡ reply_of 9 7 r.1)
handle_message-refines_example =
    handle_message-refines 9 accepts idle order true start (omega arith) (omega arith)

abbrev busy_reply : Message
busy_reply = record { type = 7; request_id = 8; driver_pid = 9; task_timer = 3 }

asked : (handle_message 9 accepts taken query true (some later)).reply ≡ some busy_reply
unfolding handle_message remaining_seconds
asked = refl

query-IsMessage : IsMessage query
query-IsMessage = omega arith

abbrev answers : List SendEvent
answers = sent 10 ∷ would_block true ∷ sent 14 ∷ []

send_message-delivers_example :
    let (result, wire) = send_message zeros order answers in
    ((result ≡ some true)
      × (length wire ≡ frame_bytes)
      × (protocol_decode (some (memory_of wire)) frame_bytes (some query) ≡ (true, some order)))
    ⊎ ((result ≢ some true) × (length wire < frame_bytes))
send_message-delivers_example =
    send_message-delivers zeros order query answers order-IsMessage (omega arith)

abbrev two_parts : List SendEvent
two_parts = sent 10 ∷ would_block true ∷ sent 14 ∷ []

send_message_ends_example : (send_message zeros order two_parts).0 ≡ some true
send_message_ends_example =
    send_message_ends zeros order two_parts order-IsMessage (omega arith, (refl, (omega arith, tt)))
      (omega arith)

abbrev clock : ℕ → Option Timespec
clock k = some start

abbrev always : ℕ → Message → Bool
always k m = true

idle-Holds : Holds idle.input idle.input_size (order ∷ [])
unfolding protocol_frame_size
idle-Holds = (order-IsFrame, omega arith, refl, refl)

process_input-serve_example :
    process_input 9 clock always idle true
    ≡ some (serve_all 9 clock always 0 (order ∷ []) idle true)
process_input-serve_example = process_input-serve 9 clock always idle true (order ∷ []) idle-Holds

process_input-ends_example :
    (p : Processed) × (process_input 9 clock always idle true ≡ some p)
    × (p.done ≡ true → p.running ≡ true → p.driver.input_size < frame_bytes)
process_input-ends_example = process_input-ends 9 clock always idle true

event_loop_round-HasRoom_example : HasRoom 9 clock always (
    event_loop_round 9 clock always taken true
      (some later)
      (readable (received 24 (frame_of order zeros))))
event_loop_round-HasRoom_example =
    event_loop_round-HasRoom 9 clock always taken (some later)
      (readable (received 24 (frame_of order zeros))) (omega arith)

encode-decode_example :
    let (done, b'', n) =
      protocol_encode (some (message_of (frame_of order zeros))) (some noisy) 24 (some 0) in
    (done ≡ true)
    × (n ≡ some frame_bytes)
    × (b'' ≡ some (frame_of (message_of (frame_of order zeros)) noisy))
    × AgreeBelow frame_bytes
        (frame_of (message_of (frame_of order zeros)) noisy)
        (frame_of order zeros)
encode-decode_example =
    encode-decode (frame_of order zeros) noisy 24 0 order-IsBytes order-IsFrame (omega arith)
