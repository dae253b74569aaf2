-- ===== src/Tests/Server.antt =====
-- The chat server with two clients, of which the second has two bytes of its queue sent.
use eltex_education.Common.{
  ℕ, zero, suc, ◌+◌, ◌≡◌, ◌&&◌, refl, Bool, true, false, [], ◌∷◌, ◌++◌, arith, ◌==◌,
}
use eltex_education.Common.Memory.{Memory}
use eltex_education.TcpChat.Protocol.{ChatMessage, file_begin, file_chunk, file_end}
use eltex_education.TcpChat.Server.{Client, Clients, zero_client, broadcast_frame}
use eltex_education.TcpChat.Server.Queue.{pending, IsQueue}
use eltex_education.TcpChat.Server.Broadcast.{Reached, broadcast_frame-Reached}
use eltex_education.TcpChat.Server.Transfer.{accepts, all_of, total, accepts-transfer}
use eltex_education.TcpChat.Server.Bounds.{IsServer}
use eltex_education.TcpChat.Server.Input.{
  bytes, would_block, sent, again, process_input, flush_client_output, client_event,
}
use eltex_education.TcpChat.Server.Input.Ended.{Ended, process_input-Ended}
use eltex_education.TcpChat.Server.Input.Flush.{Flushed, flush_client_output-Flushed}
use eltex_education.TcpChat.Server.Input.Total.{Served, client_event-Served}

abbrev up : ℕ → Bool
up i = true

-- Answers that change from call to call.
abbrev changing : ℕ → ℕ → ℕ → Bool
changing r k i = r == k

abbrev frame : Memory
frame i = 65 + i

abbrev reader : Client
reader = record zero_client {
  active = true;
  joined = true;
  sender_id = 2;
  input_size = 40;
  output = λ i. i;
  output_offset = 2;
  output_size = 5;
}

abbrev clients : Clients
clients zero = record zero_client { active = true; joined = true; sender_id = 1 }
clients (suc i) = reader

reader-IsQueue : IsQueue reader
reader-IsQueue = record { ordered = omega arith; bounded = omega arith }

clients-IsServer : IsServer clients
clients-IsServer zero = record {
  queue = record { ordered = omega arith; bounded = omega arith };
  room = omega arith;
}
clients-IsServer (suc i) = record { queue = reader-IsQueue; room = omega arith }

broadcast_frame-Reached_example :
    Reached true 0 frame 3 1 reader (broadcast_frame up clients 0 frame 3 1)
broadcast_frame-Reached_example = broadcast_frame-Reached up clients 0 frame 3 1 reader-IsQueue

abbrev blank : ChatMessage
blank = record {
  type = 0;
  sender_id = 1;
  transfer_id = 9;
  sender_name = λ _. 0;
  text = λ _. 0;
  file_name = λ _. 0;
  file_size = 5;
  file_data = λ _. 0;
  file_data_size = 0;
}

abbrev begin_message : ChatMessage
begin_message = record blank { type = file_begin }

abbrev chunk : ℕ → ChatMessage
chunk n = record blank { type = file_chunk; file_data_size = n }

abbrev end_message : ChatMessage
end_message = record blank { type = file_end }

accepts-transfer_example :
    accepts reader (begin_message ∷ ((chunk 3 ∷ chunk 2 ∷ []) ++ (end_message ∷ [])))
    ≡ (all_of 9 (chunk 3 ∷ chunk 2 ∷ []) && (9 == 9) && (total (chunk 3 ∷ chunk 2 ∷ []) == 5))
accepts-transfer_example =
    accepts-transfer reader begin_message (chunk 3 ∷ chunk 2 ∷ []) end_message refl refl
      (refl, (refl, tt)) refl (omega arith)

flush_client_output-Flushed_example :
    Flushed ([] ++ pending reader) (flush_client_output true reader (sent 2 ∷ again ∷ []) [])
flush_client_output-Flushed_example =
    flush_client_output-Flushed true reader (sent 2 ∷ again ∷ []) [] reader-IsQueue tt

process_input-Ended_example : Ended 1 (process_input (λ k. up) blank clients 1)
process_input-Ended_example = process_input-Ended (λ k. up) blank clients 1

client_event-Served_example : Served (
    client_event changing up false blank frame clients 1 true true false
      (bytes (1 ∷ 2 ∷ []) ∷ would_block ∷ [])
      (sent 2 ∷ again ∷ []))
client_event-Served_example =
    client_event-Served changing up false blank frame clients 1 true true false
      (bytes (1 ∷ 2 ∷ []) ∷ would_block ∷ []) (sent 2 ∷ again ∷ []) clients-IsServer tt tt
