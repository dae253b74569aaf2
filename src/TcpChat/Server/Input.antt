-- ===== src/TcpChat/Server/Input.antt =====
-- What the server of src/server.c does on the events of its sockets: `process_input`,
-- `receive_client_data`, `flush_client_output`, `find_free_client`, `accept_clients` and the body of
-- the event loop of `server_run`. What a socket answers is a list of answers; a run that needs more of
-- them than there are is `none`.
pub mod Ended
pub mod Flush
pub mod Bounds
pub mod Total
use eltex_education.Common.{
  ℕ, zero, suc, ◌+◌, ◌-◌, ◌*◌, Bool, true, false, not, ◌&&◌, ◌||◌, Option, none, some, List, [],
  ◌∷◌, ◌++◌, take, ltb, leb, ◌==◌, ◌!=◌, if◌then◌else◌, length,
}
use eltex_education.Common.Memory.{Memory, Pointer, memcpy, memory_of, slice}
use eltex_education.TcpChat.Protocol.{ChatMessage, FrameStatus, protocol_frame_size}
use eltex_education.TcpChat.Server.{
  Client, Clients, zero_client, packet_max_size, server_max_clients, set_client, close_client,
  handle_message, disconnect_client,
}

-- The frame taken off the input.
abbrev pub drop_input : Client → ℕ → Client
drop_input c size = record c {
  input = λ i. if ltb i (c.input_size - size) then c.input (size + i) else c.input i;
  input_size = c.input_size - size;
}

-- What `tcp_socket_receive` finds: bytes, of which it takes as many as it is asked for at most, the end
-- of the stream, nothing yet (`EAGAIN` or `EWOULDBLOCK`), or another error.
pub data Received : Type 0 where
  bytes : List ℕ → Received
  end_of_stream would_block failed : Received

abbrev pub append_received : Client → List ℕ → Client
append_received c found =
    let got = take (packet_max_size - c.input_size) found in
    record c {
      input = memcpy c.input c.input_size (memory_of got) (length got);
      input_size = c.input_size + length got;
    }

-- What `tcp_socket_send` finds: room for a number of bytes, of which it takes those that it is given,
-- none (`EAGAIN` or `EWOULDBLOCK`), or another error.
pub data Sent : Type 0 where
  sent : ℕ → Sent
  again broken : Sent

abbrev pub taken : Client → ℕ → ℕ
taken c n = if leb n (c.output_size - c.output_offset) then n else c.output_size - c.output_offset

abbrev pub advanced : Client → ℕ → Client
advanced c n = record c { output_offset = c.output_offset + taken c n }

abbrev pub emptied : Client → Client
emptied c = record c { output_offset = 0; output_size = 0 }

-- `epoll` is the success of `update_client_events`. The third result is what the socket took, behind
-- `out`.
unfoldable pub flush_client_output :
    Bool → Client → List Sent → List ℕ → Option (Bool × Client × List ℕ)
flush_client_output epoll c [] out =
    if ltb c.output_offset c.output_size then none else some (epoll, emptied c, out)
flush_client_output epoll c (sent n ∷ as') out =
    let rest =
      flush_client_output epoll (advanced c n) as'
        (out ++ slice c.output c.output_offset (taken c n)) in
    if not (ltb c.output_offset c.output_size)
    then some (epoll, emptied c, out)
    else if ltb 0 n
    then rest
    else some (false, c, out)
flush_client_output epoll c (again ∷ as') out =
    if ltb c.output_offset c.output_size then some (true, c, out) else some (epoll, emptied c, out)
flush_client_output epoll c (broken ∷ as') out =
    if ltb c.output_offset c.output_size then some (false, c, out) else some (epoll, emptied c, out)

-- The loop of `find_free_client` at `index`, with `k` rounds to go.
unfoldable pub find_free_loop : ℕ → Clients → ℕ → ℕ
find_free_loop zero cs index = server_max_clients
find_free_loop (suc k) cs index =
    let rest = find_free_loop k cs (suc index) in if not (cs index).active then index else rest

unfoldable pub find_free_client : Clients → ℕ
unfolding find_free_loop
find_free_client cs = find_free_loop server_max_clients cs 0

-- A connection that `accept` returned; `added` is the success of `epoll_ctl`.
unfoldable pub accept_client : Bool → Clients → Clients
unfolding find_free_client close_client
accept_client added cs =
    let index = find_free_client cs in
    let client : Client = record zero_client { active = true } in
    if index == server_max_clients
    then cs
    else set_client cs index (if added then client else close_client client)

-- One answer for each connection that waits.
unfoldable pub accept_clients : Clients → List Bool → Clients
unfolding accept_client
accept_clients cs [] = cs
accept_clients cs (added ∷ more) = accept_clients (accept_client added cs) more

-- What stands behind the call of `handle_message` in the loop of `process_input`.
abbrev pub after_message :
    ℕ → ℕ → (Clients → Option (Bool × Clients)) → Bool × Clients → Option (Bool × Clients)
after_message index size rest (false, cs) = some (false, cs)
after_message index size rest (true, cs) =
    if not (cs index).active
    then some (false, cs)
    else rest (set_client cs index (drop_input (cs index) size))

abbrev pub after_input :
    ℕ → (Clients → Option (Bool × Clients)) → Option (Bool × Clients) → Option (Bool × Clients)
after_input index rest none = none
after_input index rest (some (false, cs)) = some (false, cs)
after_input index rest (some (true, cs)) =
    if not (cs index).active then some (false, cs) else rest cs

module _ (epoll_ok : ℕ → Bool) where
  abbrev pub process_frame :
      ChatMessage
      → ℕ
      → (Clients → Option (Bool × Clients))
      → Clients
      → FrameStatus × Pointer ℕ
      → Option (Bool × Clients)
  process_frame blank index rest cs (FrameStatus.invalid, n) = some (false, cs)
  process_frame blank index rest cs (FrameStatus.incomplete, n) = some (true, cs)
  process_frame blank index rest cs (FrameStatus.complete, none) = some (false, cs)
  process_frame blank index rest cs (FrameStatus.complete, some size) =
      after_message index size rest (handle_message epoll_ok blank cs index (cs index).input size)

-- The loop on fuel. `epoll_ok k i` is what `epoll_ctl` answers for the client `i` in round `k`, which
-- asks for it once at most.
unfoldable pub process_loop :
    (ℕ → ℕ → Bool) → ChatMessage → ℕ → Clients → ℕ → Option (Bool × Clients)
process_loop epoll_ok blank zero cs index = none
process_loop epoll_ok blank (suc fuel) cs index =
    let rest = λ (cs' : Clients). process_loop (λ k. epoll_ok (suc k)) blank fuel cs' index in
    if (cs index).input_size == 0
    then some (true, cs)
    else process_frame (epoll_ok 0) blank index rest cs
        (protocol_frame_size (some (cs index).input) (cs index).input_size (some 0))

-- A frame has 33 bytes or more, so one round for each byte suffices.
unfoldable pub process_input : (ℕ → ℕ → Bool) → ChatMessage → Clients → ℕ → Option (Bool × Clients)
unfolding process_loop
process_input epoll_ok blank cs index =
    process_loop epoll_ok blank (suc (cs index).input_size) cs index

-- `epoll_ok r` are the answers while the bytes of call `r` of the socket are processed.
unfoldable pub receive_client_data :
    (ℕ → ℕ → ℕ → Bool) → ChatMessage → Clients → ℕ → List Received → Option (Bool × Clients)
unfolding process_input
receive_client_data epoll_ok blank cs index [] =
    if (cs index).input_size == packet_max_size then some (false, cs) else none
receive_client_data epoll_ok blank cs index (bytes got ∷ as') =
    let rest = λ (cs' : Clients). receive_client_data (λ r. epoll_ok (suc r)) blank cs' index as' in
    if (cs index).input_size == packet_max_size
    then some (false, cs)
    else if length got == 0
    then some (false, cs)
    else after_input index rest (
        process_input (epoll_ok 0) blank (set_client cs index (append_received (cs index) got))
          index)
receive_client_data epoll_ok blank cs index (end_of_stream ∷ as') = some (false, cs)
receive_client_data epoll_ok blank cs index (would_block ∷ as') =
    some ((if (cs index).input_size == packet_max_size then false else true), cs)
receive_client_data epoll_ok blank cs index (failed ∷ as') = some (false, cs)

-- The three parts of an event of a client in the loop of `server_run`. An event announces a leave once
-- at most: `leave_ok` is what `epoll_ctl` then answers for each client, and `scratch` the buffer.
module _ (leave_ok : ℕ → Bool) where
  abbrev pub after_flags : Memory → ℕ → Bool → Clients → Option Clients
  after_flags scratch index hangup cs =
      some (if hangup then disconnect_client leave_ok scratch cs index true else cs)

  abbrev pub after_flush :
      Memory → ℕ → Bool → Clients → Option (Bool × Client × List ℕ) → Option Clients
  after_flush scratch index hangup cs none = none
  after_flush scratch index hangup cs (some (false, c, out)) =
      some (disconnect_client leave_ok scratch (set_client cs index c) index true)
  after_flush scratch index hangup cs (some (true, c, out)) =
      after_flags scratch index hangup (set_client cs index c)

  -- `flush_ok` is the answer of the call at the end of `flush_client_output`.
  abbrev pub write_event : Bool → Memory → ℕ → Bool → Bool → List Sent → Clients → Option Clients
  write_event flush_ok scratch index writable hangup sents cs =
      if writable
      then after_flush scratch index hangup cs (flush_client_output flush_ok (cs index) sents [])
      else after_flags scratch index hangup cs

  abbrev pub after_receive :
      Memory → ℕ → (Clients → Option Clients) → Option (Bool × Clients) → Option Clients
  after_receive scratch index rest none = none
  after_receive scratch index rest (some (false, cs)) =
      some (if (cs index).active then disconnect_client leave_ok scratch cs index true else cs)
  after_receive scratch index rest (some (true, cs)) =
      if not (cs index).active then some cs else rest cs

-- No two calls of `epoll_ctl` share an answer: those for the frames received, by call of the socket,
-- round and client, those of a leave, and that of the flush.
unfoldable pub client_event :
    (ℕ → ℕ → ℕ → Bool)
    → (ℕ → Bool)
    → Bool
    → ChatMessage
    → Memory
    → Clients
    → ℕ
    → Bool
    → Bool
    → Bool
    → List Received
    → List Sent
    → Option Clients
unfolding receive_client_data flush_client_output disconnect_client
client_event epoll_ok leave_ok flush_ok blank scratch cs index readable writable hangup receipts
      sents =
    let write = write_event leave_ok flush_ok scratch index writable hangup sents in
    if leb server_max_clients index || not (cs index).active
    then some cs
    else if readable
    then after_receive leave_ok scratch index write
        (receive_client_data epoll_ok blank cs index receipts)
    else write cs
