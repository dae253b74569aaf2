-- ===== src/Taxi/Driver/Send.antt =====
-- `send_message` of driver.c: what reaches the manager, however `send` splits the frame.
use native.Mathlib.Decide.{ℕ_discrete}
use eltex_education.Common.{
  ◌⊎◌, inl, inr, ◌≢◌, ℕ, ◌+◌, ◌-◌, ◌≤◌, ◌<◌, ◌≡◌, refl, ◌∙◌, ap, Bool, true, false, not, Option,
  none, some, List, [], ◌∷◌, ◌++◌, arith, ltb, if◌then◌else◌, length, length-append,
}
use eltex_education.Common.Memory.{
  Memory, Pointer, slice, memory_of, slice-append, memory_of-slice, length-slice,
}
use eltex_education.Taxi.Protocol.{Message, frame_bytes, frame_of, protocol_encode, protocol_decode}
use eltex_education.Taxi.Protocol.Codec.{IsMessage, decode-frame_of, decode_reads_below_size}

-- One answer of the socket: `tcp_socket_send` takes `n` bytes; it would block, and
-- `wait_until_writable` then returns the Boolean; any other failure.
pub data SendEvent : Type 0 where
  sent : ℕ → SendEvent
  would_block : Bool → SendEvent
  failed : SendEvent

-- The result, or `none` while the call waits for another answer; and the bytes sent.
abbrev pub Sending : Type 0
Sending = Option Bool × List ℕ

-- The bytes `buffer[offset .. offset + n)` go out before the rest.
abbrev sent_before : List ℕ → Sending → Sending
sent_before bytes (result, wire) = (result, bytes ++ wire)

-- The `while (offset < encoded_size)` loop.
pub send_loop : List SendEvent → Memory → ℕ → ℕ → Sending
send_loop [] b offset size = (if ltb offset size then none else some true, [])
send_loop (sent n ∷ es) b offset size =
    let rest = send_loop es b (offset + n) size in
    if not (ltb offset size)
    then (some true, [])
    else if ltb 0 n
    then sent_before (slice b offset n) rest
    else (some false, [])
send_loop (would_block writable ∷ es) b offset size =
    let rest = send_loop es b offset size in
    if not (ltb offset size) then (some true, []) else if writable then rest else (some false, [])
send_loop (failed ∷ es) b offset size =
    if not (ltb offset size) then (some true, []) else (some false, [])

-- The loop runs on what `protocol_encode` left.
send_encoded : Bool × Pointer Memory × Pointer ℕ → List SendEvent → Sending
send_encoded (true, some b, some size) es = send_loop es b 0 size
send_encoded (true, none, size) es = (some false, [])
send_encoded (true, some b, none) es = (some false, [])
send_encoded (false, b, size) es = (some false, [])

-- `scratch` is the uninitialised local buffer.
unfoldable pub send_message : Memory → Message → List SendEvent → Sending
unfolding send_encoded
send_message scratch m es =
    send_encoded (protocol_encode (some m) (some scratch) frame_bytes (some 0)) es

-- `send` never takes more than it was offered.
abbrev pub IsLegal : List SendEvent → ℕ → ℕ → Type 0
IsLegal [] offset size = offset ≤ size
IsLegal (sent n ∷ es) offset size = (offset + n ≤ size) × IsLegal es (offset + n) size
IsLegal (would_block w ∷ es) offset size = IsLegal es offset size
IsLegal (failed ∷ es) offset size = offset ≤ size

-- Every answer makes progress or lets the loop wait.
abbrev pub IsAlive : List SendEvent → Type 0
IsAlive [] = Unit
IsAlive (sent n ∷ es) = (0 < n) × IsAlive es
IsAlive (would_block w ∷ es) = (w ≡ true) × IsAlive es
IsAlive (failed ∷ es) = ⊥

-- The bytes that the answers bring altogether.
abbrev pub bytes_sent : List SendEvent → ℕ
bytes_sent [] = 0
bytes_sent (sent n ∷ es) = n + bytes_sent es
bytes_sent (would_block w ∷ es) = bytes_sent es
bytes_sent (failed ∷ es) = bytes_sent es

-- What has gone out is the beginning of the frame, all of it exactly if the call returns true.
record IsPrefix (b : Memory) (offset size : ℕ) (s : Sending) : Type 0 where
  in_order : s.1 ≡ slice b offset (length s.1)
  within : length s.1 ≤ size - offset
  whole : s.0 ≡ some true → length s.1 ≡ size - offset
  partial : length s.1 ≡ size - offset → s.0 ≡ some true

send_loop-IsPrefix :
    (es : List SendEvent) (b : Memory) (offset size : ℕ)
    → IsLegal es offset size
    → IsPrefix b offset size (send_loop es b offset size)
unfolding send_loop
send_loop-IsPrefix [] b o size l = ground arith
send_loop-IsPrefix (sent n ∷ es) b o size (p, l) =
    let (result, wire) = send_loop es b (o + n) size in
    let ih = send_loop-IsPrefix es b (o + n) size l in
    ground (
      arith,
      ih,
      length-append (slice b o n) wire,
      length-slice b o n,
      slice-append b o n (length wire) (o + n) (n + length wire) refl refl,
    )
send_loop-IsPrefix (would_block true ∷ es) b o size l =
    let ih = send_loop-IsPrefix es b o size l in ground arith
send_loop-IsPrefix (would_block false ∷ es) b o size l = ground arith
send_loop-IsPrefix (failed ∷ es) b o size l = ground arith

-- Answers that make progress and bring the bytes that are left end the loop.
send_loop_ends :
    (es : List SendEvent) (b : Memory) (offset size : ℕ)
    → IsAlive es
    → size ≤ offset + bytes_sent es
    → (send_loop es b offset size).0 ≡ some true
unfolding send_loop
send_loop_ends [] b o size a h = ground arith
send_loop_ends (sent n ∷ es) b o size (p, a) h =
    let ih = send_loop_ends es b (o + n) size a (omega arith) in ground arith
send_loop_ends (would_block w ∷ es) b o size (e, a) h =
    let ih = send_loop_ends es b o size a (omega arith) in ground arith
send_loop_ends (failed ∷ es) b o size a h = absurd a

send_message-loop :
    (scratch : Memory) (m : Message) (es : List SendEvent)
    → IsMessage m
    → send_message scratch m es ≡ send_loop es (frame_of m scratch) 0 frame_bytes
unfolding send_message protocol_encode
send_message-loop scratch m es v = ground arith

-- For a message within the ranges of its fields, and answers of `send` that the socket may give,
-- when `send_message` returns true, the manager has received 24 bytes that decode to the message,
-- however the socket split them; when it does not, fewer than 24 bytes have gone out.
pub send_message-delivers :
    (scratch : Memory) (m m' : Message) (es : List SendEvent)
    → IsMessage m
    → IsLegal es 0 frame_bytes
    → let (result, wire) = send_message scratch m es in
      ((result ≡ some true)
        × (length wire ≡ frame_bytes)
        × (protocol_decode (some (memory_of wire)) frame_bytes (some m') ≡ (true, some m)))
      ⊎ ((result ≢ some true) × (length wire < frame_bytes))
send_message-delivers scratch m m' es v l =
    rw (send_message-loop scratch m es v) (elim (ℕ_discrete (length wire) frame_bytes) [
      | yes e ↦ inl (p.partial e, e, same e ∙ decoded)
      | no ne ↦ inr (λ h. ne (p.whole h), omega (arith, p.within))
    ])
  where
    b : Memory
    b = frame_of m scratch

    wire : List ℕ
    wire = (send_loop es b 0 frame_bytes).1

    p : IsPrefix b 0 frame_bytes (send_loop es b 0 frame_bytes)
    p = send_loop-IsPrefix es b 0 frame_bytes l

    decoded : protocol_decode (some b) frame_bytes (some m') ≡ (true, some m)
    decoded = decode-frame_of m m' scratch v

    same :
        length wire ≡ frame_bytes
        → protocol_decode (some (memory_of wire)) frame_bytes (some m')
          ≡ protocol_decode (some b) frame_bytes (some m')
    same e = decode_reads_below_size (memory_of wire) b frame_bytes m' (λ i h.
        ap (λ x. memory_of x i) (p.in_order ∙ ap (slice b 0) e)
        ∙ memory_of-slice b 24 0 i i h (omega arith))

-- For a message within the ranges of its fields, answers of `send` that bring 24 bytes altogether,
-- one byte or more each, with waits between them that succeed, end `send_message` with success.
pub send_message_ends :
    (scratch : Memory) (m : Message) (es : List SendEvent)
    → IsMessage m
    → IsAlive es
    → frame_bytes ≤ bytes_sent es
    → (send_message scratch m es).0 ≡ some true
send_message_ends scratch m es v a h =
    rw (send_message-loop scratch m es v)
      (send_loop_ends es (frame_of m scratch) 0 frame_bytes a (omega arith))
