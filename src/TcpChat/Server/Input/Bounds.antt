-- ===== src/TcpChat/Server/Input/Bounds.antt =====
-- The buffers of every client keep within their bounds through an event.
use eltex_education.Common.{
  ℕ, zero, suc, ◌-◌, ◌≤◌, Bool, true, false, not, List, [], ◌∷◌, length, length-take, Option, none,
  some, arith, ltb, leb, ◌==◌, ◌||◌, if◌then◌else◌,
}
use eltex_education.Common.Memory.{Memory, Pointer}
use eltex_education.TcpChat.Protocol.{ChatMessage, FrameStatus}
use eltex_education.TcpChat.Server.{
  Client, Clients, packet_max_size, server_max_clients, set_client, close_client, broadcast_encoded,
  announce_leave, disconnect_client, handle_message,
}
use eltex_education.TcpChat.Server.Queue.{IsQueue}
use eltex_education.TcpChat.Server.Input.{
  drop_input, after_message, process_frame, process_loop, process_input, Received, bytes,
  end_of_stream, would_block, failed, append_received, after_input, receive_client_data, Sent, sent,
  again, broken, advanced, emptied, flush_client_output, after_flags, after_flush, write_event,
  after_receive, client_event,
}
use eltex_education.TcpChat.Server.Bounds.{
  IsClient, IsServer, set_client-IsServer, close_client-IsClient, broadcast-IsServer,
  message-IsServer,
}

-- A result with the buffers in bounds.
abbrev pub Bounded : Option (Bool × Clients) → Type 0
Bounded none = Unit {0}
Bounded (some (ok, cs)) = IsServer cs

if-Bounded :
    (b : Bool) (x y : Option (Bool × Clients))
    → Bounded x
    → Bounded y
    → Bounded (if b then x else y)
if-Bounded true x y v w = v
if-Bounded false x y v w = w

after_message-Bounded :
    (index size : ℕ) (rest : Clients → Option (Bool × Clients)) (r : Bool × Clients)
    → IsServer r.1
    → ((cs : Clients) → IsServer cs → Bounded (rest cs))
    → Bounded (after_message index size rest r)
after_message-Bounded index size rest (false, cs) v h = v
after_message-Bounded index size rest (true, cs) v h =
    if-Bounded (not (cs index).active) (some (false, cs)) _ v (
      h (set_client cs index (drop_input (cs index) size)) (
        set_client-IsServer cs index (drop_input (cs index) size) v (record {
          queue = record { ordered = (v index).queue.ordered; bounded = (v index).queue.bounded };
          room = omega (arith, (v index).room);
        })))

after_input-Bounded :
    (index : ℕ) (rest : Clients → Option (Bool × Clients)) (r : Option (Bool × Clients))
    → Bounded r
    → ((cs : Clients) → IsServer cs → Bounded (rest cs))
    → Bounded (after_input index rest r)
after_input-Bounded index rest none v h = tt
after_input-Bounded index rest (some (false, cs)) v h = v
after_input-Bounded index rest (some (true, cs)) v h =
    if-Bounded (not (cs index).active) (some (false, cs)) (rest cs) v (h cs v)

received-IsClient : (c : Client) (found : List ℕ) → IsClient c → IsClient (append_received c found)
received-IsClient c found v = record {
  queue = record { ordered = v.queue.ordered; bounded = v.queue.bounded };
  room = omega (arith, v.room, length-take (packet_max_size - c.input_size) found);
}

choose-IsServer :
    (b : Bool) (x y : Clients) → IsServer x → IsServer y → IsServer (if b then x else y)
choose-IsServer true x y v w = v
choose-IsServer false x y v w = w

-- The same for an event.
abbrev pub AllBounded : Option Clients → Type 0
AllBounded none = Unit {0}
AllBounded (some cs) = IsServer cs

if-AllBounded :
    (b : Bool) (x y : Option Clients)
    → AllBounded x
    → AllBounded y
    → AllBounded (if b then x else y)
if-AllBounded true x y v w = v
if-AllBounded false x y v w = w

abbrev FlushBounded : Option (Bool × Client × List ℕ) → Type 0
FlushBounded none = Unit {0}
FlushBounded (some (ok, c, out)) = IsClient c

if-Flush :
    (b : Bool) (x y : Option (Bool × Client × List ℕ))
    → FlushBounded x
    → FlushBounded y
    → FlushBounded (if b then x else y)
if-Flush true x y v w = v
if-Flush false x y v w = w

emptied-IsClient : (c : Client) → IsClient c → IsClient (emptied c)
emptied-IsClient c v = record {
  queue = record { ordered = omega arith; bounded = omega arith };
  room = v.room;
}

in_order :
    (c : Client) (n : ℕ) → IsQueue c → (advanced c n).output_offset ≤ (advanced c n).output_size
in_order c n v = let o = v.ordered in ground arith

flush-FlushBounded :
    (epoll : Bool) (c : Client) (sents : List Sent) (out : List ℕ)
    → IsClient c
    → FlushBounded (flush_client_output epoll c sents out)
unfolding flush_client_output
flush-FlushBounded epoll c [] out v =
    if-Flush (ltb c.output_offset c.output_size) none _ tt (emptied-IsClient c v)
flush-FlushBounded epoll c (again ∷ as') out v =
    if-Flush (ltb c.output_offset c.output_size) (some (true, c, out)) _ v (emptied-IsClient c v)
flush-FlushBounded epoll c (broken ∷ as') out v =
    if-Flush (ltb c.output_offset c.output_size) (some (false, c, out)) _ v (emptied-IsClient c v)
flush-FlushBounded epoll c (sent n ∷ as') out v =
    if-Flush (not (ltb c.output_offset c.output_size)) (some (epoll, emptied c, out)) _
      (emptied-IsClient c v)
      (if-Flush (ltb 0 n) _ (some (false, c, out))
        (flush-FlushBounded epoll (advanced c n) as' _ (record {
          queue = record { ordered = in_order c n v.queue; bounded = v.queue.bounded };
          room = v.room;
        }))
        v)

module _ (epoll_ok : ℕ → Bool) where
  frame-Bounded :
      (blank : ChatMessage) (index : ℕ) (rest : Clients → Option (Bool × Clients)) (cs : Clients)
      (r : FrameStatus × Pointer ℕ)
      → IsServer cs
      → ((cs' : Clients) → IsServer cs' → Bounded (rest cs'))
      → Bounded (process_frame epoll_ok blank index rest cs r)
  frame-Bounded blank index rest cs (FrameStatus.invalid, n) v h = v
  frame-Bounded blank index rest cs (FrameStatus.incomplete, n) v h = v
  frame-Bounded blank index rest cs (FrameStatus.complete, none) v h = v
  frame-Bounded blank index rest cs (FrameStatus.complete, some size) v h =
      after_message-Bounded index size rest
        (handle_message epoll_ok blank cs index (cs index).input size)
        (message-IsServer epoll_ok blank cs index (cs index).input size v) h

  encoded-IsServer :
      (cs : Clients) (index : ℕ) (r : Bool × Pointer Memory × Pointer ℕ)
      → IsServer cs
      → IsServer (broadcast_encoded epoll_ok cs index r)
  encoded-IsServer cs index (true, some frame, some size) v =
      broadcast-IsServer epoll_ok cs index frame size v
  encoded-IsServer cs index (true, some frame, none) v = v
  encoded-IsServer cs index (true, none, size) v = v
  encoded-IsServer cs index (false, frame, size) v = v

  leave-IsServer :
      (scratch : Memory) (cs : Clients) (index : ℕ)
      → IsServer cs
      → IsServer (announce_leave epoll_ok scratch cs index)
  unfolding announce_leave
  leave-IsServer scratch cs index v =
      choose-IsServer (not (cs index).joined) cs _ v (encoded-IsServer cs index _ v)

  disconnect-IsServer :
      (scratch : Memory) (cs : Clients) (index : ℕ)
      → IsServer cs
      → IsServer (disconnect_client epoll_ok scratch cs index true)
  unfolding disconnect_client
  disconnect-IsServer scratch cs index v =
      let left = announce_leave epoll_ok scratch cs index in
      let w = leave-IsServer scratch cs index v in
      set_client-IsServer left index (close_client (left index)) w
        (close_client-IsClient (left index) (w index))

  flags-AllBounded :
      (scratch : Memory) (index : ℕ) (hangup : Bool) (cs : Clients)
      → IsServer cs
      → AllBounded (after_flags epoll_ok scratch index hangup cs)
  flags-AllBounded scratch index hangup cs v =
      choose-IsServer hangup (disconnect_client epoll_ok scratch cs index true) cs
        (disconnect-IsServer scratch cs index v) v

  after_flush-AllBounded :
      (scratch : Memory) (index : ℕ) (hangup : Bool) (cs : Clients)
      (r : Option (Bool × Client × List ℕ))
      → IsServer cs
      → FlushBounded r
      → AllBounded (after_flush epoll_ok scratch index hangup cs r)
  after_flush-AllBounded scratch index hangup cs none v w = tt
  after_flush-AllBounded scratch index hangup cs (some (false, c, out)) v w =
      disconnect-IsServer scratch (set_client cs index c) index (set_client-IsServer cs index c v w)
  after_flush-AllBounded scratch index hangup cs (some (true, c, out)) v w =
      flags-AllBounded scratch index hangup (set_client cs index c)
        (set_client-IsServer cs index c v w)

  write-AllBounded :
      (flush_ok : Bool) (scratch : Memory) (index : ℕ) (writable hangup : Bool) (sents : List Sent)
      (cs : Clients)
      → IsServer cs
      → AllBounded (write_event epoll_ok flush_ok scratch index writable hangup sents cs)
  write-AllBounded flush_ok scratch index writable hangup sents cs v =
      if-AllBounded writable _ _
        (after_flush-AllBounded scratch index hangup cs _ v
          (flush-FlushBounded flush_ok (cs index) sents [] (v index)))
        (flags-AllBounded scratch index hangup cs v)

  after_receive-AllBounded :
      (scratch : Memory) (index : ℕ) (rest : Clients → Option Clients) (r : Option (Bool × Clients))
      → Bounded r
      → ((cs : Clients) → IsServer cs → AllBounded (rest cs))
      → AllBounded (after_receive epoll_ok scratch index rest r)
  after_receive-AllBounded scratch index rest none v h = tt
  after_receive-AllBounded scratch index rest (some (false, cs)) v h =
      choose-IsServer (cs index).active (disconnect_client epoll_ok scratch cs index true) cs
        (disconnect-IsServer scratch cs index v) v
  after_receive-AllBounded scratch index rest (some (true, cs)) v h =
      if-AllBounded (not (cs index).active) (some cs) (rest cs) v (h cs v)

input-Bounded :
    (epoll_ok : ℕ → ℕ → Bool) (blank : ChatMessage) (fuel : ℕ) (cs : Clients) (index : ℕ)
    → IsServer cs
    → Bounded (process_loop epoll_ok blank fuel cs index)
unfolding process_loop
input-Bounded epoll_ok blank zero cs index v = tt
input-Bounded epoll_ok blank (suc fuel) cs index v =
    if-Bounded ((cs index).input_size == 0) (some (true, cs)) _ v (
      frame-Bounded (epoll_ok 0) blank index
        (λ cs'. process_loop (λ k. epoll_ok (suc k)) blank fuel cs' index) cs _ v
        (λ cs' w. input-Bounded (λ k. epoll_ok (suc k)) blank fuel cs' index w))

receive_client_data-Bounded :
    (epoll_ok : ℕ → ℕ → ℕ → Bool) (blank : ChatMessage) (cs : Clients) (index : ℕ)
    (answers : List Received)
    → IsServer cs
    → Bounded (receive_client_data epoll_ok blank cs index answers)
unfolding receive_client_data process_input
receive_client_data-Bounded epoll_ok blank cs index [] v =
    if-Bounded ((cs index).input_size == packet_max_size) (some (false, cs)) none v tt
receive_client_data-Bounded epoll_ok blank cs index (bytes got ∷ as') v =
    let c = append_received (cs index) got in
    let r = process_input (epoll_ok 0) blank (set_client cs index c) index in
    if-Bounded ((cs index).input_size == packet_max_size) (some (false, cs)) _ v (
      if-Bounded (length got == 0) (some (false, cs)) _ v (
        after_input-Bounded index
          (λ cs'. receive_client_data (λ r. epoll_ok (suc r)) blank cs' index as') r
          (input-Bounded (epoll_ok 0) blank (suc (set_client cs index c index).input_size)
            (set_client cs index c) index
            (set_client-IsServer cs index c v (received-IsClient (cs index) got (v index))))
          (λ cs' w. receive_client_data-Bounded (λ r. epoll_ok (suc r)) blank cs' index as' w)))
receive_client_data-Bounded epoll_ok blank cs index (end_of_stream ∷ as') v = v
receive_client_data-Bounded epoll_ok blank cs index (would_block ∷ as') v = v
receive_client_data-Bounded epoll_ok blank cs index (failed ∷ as') v = v

-- When the queue and the input of every client lie within their buffers, they still do behind
-- any event of a client, whatever its flags, the bytes that come, what the socket takes, and
-- which calls of `epoll_ctl` succeed, if the event's loops end.
pub client_event-AllBounded :
    (epoll_ok : ℕ → ℕ → ℕ → Bool) (leave_ok : ℕ → Bool) (flush_ok : Bool) (blank : ChatMessage)
    (scratch : Memory) (cs : Clients) (index : ℕ) (readable writable hangup : Bool)
    (receipts : List Received) (sents : List Sent)
    → IsServer cs
    → AllBounded (
        client_event epoll_ok leave_ok flush_ok blank scratch cs index readable writable hangup
          receipts sents)
unfolding client_event
client_event-AllBounded epoll_ok leave_ok flush_ok blank scratch cs index readable writable hangup
      receipts sents v =
    let write =
      λ (cs' : Clients). write_event leave_ok flush_ok scratch index writable hangup sents cs' in
    if-AllBounded (leb server_max_clients index || not (cs index).active) (some cs) _ v (
      if-AllBounded readable _ (write cs)
        (after_receive-AllBounded leave_ok scratch index write
          (receive_client_data epoll_ok blank cs index receipts)
          (receive_client_data-Bounded epoll_ok blank cs index receipts v)
          (λ cs' w. write-AllBounded leave_ok flush_ok scratch index writable hangup sents cs' w))
        (write-AllBounded leave_ok flush_ok scratch index writable hangup sents cs v))
