-- ===== src/TcpChat/Server.antt =====
-- src/server.c of 07-tcp-chat-and-file-transfer: the clients, their output queues, the broadcast, the
-- transfer rules and the handling of frames. The sockets and the `epoll` set are outside: whether
-- `epoll_ctl` succeeds for a client, and what the socket answers, are parameters.
pub mod Queue
pub mod Broadcast
pub mod Transfer
pub mod Input
pub mod Bounds
use eltex_education.Common.{
  ℕ, zero, suc, ◌+◌, ◌-◌, ◌*◌, ◌%◌, ◌^◌, Bool, true, false, not, ◌&&◌, ◌||◌, Option, none, some,
  List, [], ◌∷◌, ltb, ◌==◌, ◌!=◌, if◌then◌else◌,
}
use eltex_education.Common.Memory.{Memory, Pointer, offset, memcpy, slice, strnlen}
use eltex_education.Common.Memory.Words.{u64}
use eltex_education.Common.CString.{CString, same_text}
use eltex_education.TcpChat.Protocol.{
  ChatMessage, FrameStatus, name_max, file_chunk_max, header_size, join, leave, file_begin,
  file_chunk, file_end, protocol_frame_size, protocol_encode, protocol_decode,
}

-- `CHAT_PACKET_MAX_SIZE`, the size of `input`
abbrev pub packet_max_size : ℕ
packet_max_size = header_size + name_max + file_chunk_max

abbrev pub server_output_capacity : ℕ
server_output_capacity = packet_max_size * 4

abbrev pub server_max_clients : ℕ
server_max_clients = 64

-- `server_client_t`
pub record Client : Type 0 where
  pub active : Bool
  pub joined : Bool
  pub sender_id : ℕ
  pub sender_name : Memory
  pub transfer_active : Bool
  pub transfer_id : ℕ
  pub transfer_size : ℕ
  pub transferred_size : ℕ
  pub input : Memory
  pub input_size : ℕ
  pub output : Memory
  pub output_offset : ℕ
  pub output_size : ℕ

-- After `memset` to 0.
abbrev pub zero_client : Client
zero_client = record {
  active = false;
  joined = false;
  sender_id = 0;
  sender_name = λ _. 0;
  transfer_active = false;
  transfer_id = 0;
  transfer_size = 0;
  transferred_size = 0;
  input = λ _. 0;
  input_size = 0;
  output = λ _. 0;
  output_offset = 0;
  output_size = 0;
}

-- `server->clients`
abbrev pub Clients : Type 0
Clients = ℕ → Client

abbrev pub set_client : Clients → ℕ → Client → Clients
set_client cs index c i = if i == index then c else cs i

unfoldable pub close_client : Client → Client
close_client c = if not c.active then c else zero_client

-- What waits in the queue moved to the front.
abbrev pub compacted : Client → Client
compacted c =
    let pending = c.output_size - c.output_offset in
    record c {
      output =
          if c.output_offset != 0 && pending != 0
          then (λ i. if ltb i pending then c.output (c.output_offset + i) else c.output i)
          else c.output;
      output_offset = 0;
      output_size = pending;
    }

-- `epoll_ok` is the success of `update_client_events`.
unfoldable pub queue_frame : Bool → Client → Memory → ℕ → Bool × Client
queue_frame epoll_ok client frame size =
    let c = compacted client in
    if ltb (server_output_capacity - c.output_size) size then (false, c) else (
      epoll_ok,
      record c {
        output = memcpy c.output c.output_size frame size;
        output_size = c.output_size + size;
      },
    )

-- The text of a `char` array of a name.
abbrev pub name_text : Memory → CString
name_text b = slice b 0 (strnlen b (name_max + 1))

abbrev pub client_identity_matches : Client → ChatMessage → Bool
client_identity_matches client m =
    client.sender_id == m.sender_id
    && same_text (name_text client.sender_name) (name_text m.sender_name)

-- `transfer_size - transferred_size` is a `uint64_t`.
unfoldable pub validate_file_transfer : Client → ChatMessage → Bool × Client
validate_file_transfer client m =
    let wanted = (client.transfer_size + 2 ^ 64 - client.transferred_size) % 2 ^ 64 in
    if m.type == file_begin
    then (if client.transfer_active then (false, client) else (
      true,
      record client {
        transfer_active = true;
        transfer_id = m.transfer_id;
        transfer_size = m.file_size;
        transferred_size = 0;
      },
    ))
    else if m.type == file_chunk
    then (if not client.transfer_active || m.transfer_id != client.transfer_id
        then (false, client)
        else if ltb wanted m.file_data_size
        then (false, client)
        else (
          true,
          record client { transferred_size = u64 (client.transferred_size + m.file_data_size) },
        ))
    else if m.type == file_end
    then (if not client.transfer_active || m.transfer_id != client.transfer_id
        then (false, client)
        else if client.transferred_size != client.transfer_size
        then (false, client)
        else (
          true,
          record client {
            transfer_active = false;
            transfer_id = 0;
            transfer_size = 0;
            transferred_size = 0;
          },
        ))
    else (true, client)

abbrev pub keep_or_close : Bool × Client → Client
keep_or_close (true, c) = c
keep_or_close (false, c) = close_client c

-- What `epoll_ctl` answers for each client.
module _ (epoll_ok : ℕ → Bool) where
  -- A round of the loop of `broadcast_frame`.
  unfoldable pub deliver : ℕ → Memory → ℕ → ℕ → Client → Client
  unfolding queue_frame close_client
  deliver excluded frame size index c =
      if index == excluded || not c.active || not c.joined
      then c
      else keep_or_close (queue_frame (epoll_ok index) c frame size)

  -- The first `n` rounds.
  unfoldable pub broadcast_loop : ℕ → Clients → ℕ → Memory → ℕ → Clients
  unfolding deliver
  broadcast_loop zero cs excluded frame size = cs
  broadcast_loop (suc n) cs excluded frame size =
      let before = broadcast_loop n cs excluded frame size in
      set_client before n (deliver excluded frame size n (before n))

  unfoldable pub broadcast_frame : Clients → ℕ → Memory → ℕ → Clients
  unfolding broadcast_loop
  broadcast_frame cs excluded frame size = broadcast_loop server_max_clients cs excluded frame size

  abbrev pub broadcast_encoded : Clients → ℕ → Bool × Pointer Memory × Pointer ℕ → Clients
  broadcast_encoded cs index (true, some frame, some size) = broadcast_frame cs index frame size
  broadcast_encoded cs index (true, some frame, none) = cs
  broadcast_encoded cs index (true, none, size) = cs
  broadcast_encoded cs index (false, frame, size) = cs

  abbrev pub leave_message : Client → ChatMessage
  leave_message c = record {
    type = leave;
    sender_id = c.sender_id;
    transfer_id = 0;
    sender_name = c.sender_name;
    text = λ _. 0;
    file_name = λ _. 0;
    file_size = 0;
    file_data = λ _. 0;
    file_data_size = 0;
  }

  -- `scratch` is the local buffer.
  unfoldable pub announce_leave : Memory → Clients → ℕ → Clients
  announce_leave scratch cs index =
      if not (cs index).joined
      then cs
      else broadcast_encoded cs index (
          protocol_encode (some (leave_message (cs index))) (some scratch) packet_max_size (some 0))

  unfoldable pub disconnect_client : Memory → Clients → ℕ → Bool → Clients
  unfolding announce_leave
  disconnect_client scratch cs index announce =
      let cs' : Clients = if announce then announce_leave scratch cs index else cs in
      set_client cs' index (close_client (cs' index))

  -- A message of a client that has joined, after the transfer's rules were asked.
  abbrev pub handle_validated :
      Clients → ℕ → Memory → ℕ → ChatMessage → Bool × Client → Bool × Clients
  handle_validated cs index frame size m (false, c) = (false, set_client cs index c)
  handle_validated cs index frame size m (true, c) =
      let sent = broadcast_frame (set_client cs index c) index frame size in
      if m.type == leave
      then (false, set_client sent index (close_client (sent index)))
      else (true, sent)

  abbrev pub handle_decoded : Clients → ℕ → Memory → ℕ → Bool × Pointer ChatMessage → Bool × Clients
  handle_decoded cs index frame size (false, m) = (false, cs)
  handle_decoded cs index frame size (true, none) = (false, cs)
  handle_decoded cs index frame size (true, some m) =
      let client = cs index in
      if not client.joined
      then (if m.type != join then (false, cs) else (
        true,
        broadcast_frame
            (set_client cs index (record client {
              joined = true;
              sender_id = m.sender_id;
              sender_name = m.sender_name;
            }))
            index frame size,
      ))
      else if not (client_identity_matches client m) || m.type == join
      then (false, cs)
      else handle_validated cs index frame size m (validate_file_transfer client m)

  -- `blank` is the local `message` before it is filled.
  unfoldable pub handle_message : ChatMessage → Clients → ℕ → Memory → ℕ → Bool × Clients
  unfolding broadcast_frame validate_file_transfer close_client
  handle_message blank cs index frame size =
      handle_decoded cs index frame size (protocol_decode (some frame) size (some blank))
