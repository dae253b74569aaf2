-- ===== src/TcpChat/Server/Input/Total.antt =====
-- An event of a client ends when the sockets answer as often as they are asked.
use eltex_education.Common.{
  ℕ, suc, ◌≡◌, refl, Bool, true, false, not, ◌||◌, Option, none, some, List, [], ◌∷◌, ltb, leb,
  ◌==◌, if◌then◌else◌, length,
}
use eltex_education.Common.Memory.{Memory}
use eltex_education.TcpChat.Protocol.{ChatMessage}
use eltex_education.TcpChat.Server.{
  Client, Clients, packet_max_size, server_max_clients, set_client,
}
use eltex_education.TcpChat.Server.Bounds.{IsServer}
use eltex_education.TcpChat.Server.Input.{
  Received, bytes, end_of_stream, would_block, failed, Sent, sent, again, broken, advanced,
  append_received, after_input, process_input, receive_client_data, flush_client_output,
  after_flush, write_event, after_receive, client_event,
}
use eltex_education.TcpChat.Server.Input.Ended.{Ended, process_input-Ended}
use eltex_education.TcpChat.Server.Input.Bounds.{AllBounded, client_event-AllBounded}

-- Answers that end with one that stops the loop.
abbrev pub Stops : List Received → Type 0
Stops [] = ⊥
Stops (bytes got ∷ as') = Stops as'
Stops (end_of_stream ∷ as') = Unit {0}
Stops (would_block ∷ as') = Unit {0}
Stops (failed ∷ as') = Unit {0}

abbrev pub SendStops : List Sent → Type 0
SendStops [] = ⊥
SendStops (sent n ∷ as') = SendStops as'
SendStops (again ∷ as') = Unit {0}
SendStops (broken ∷ as') = Unit {0}

abbrev IsSome : {A : Type 0} → Option A → Type 0
IsSome none = ⊥
IsSome (some a) = Unit {0}

if-IsSome :
    {A : Type 0} (b : Bool) (x y : Option A) → IsSome x → IsSome y → IsSome (if b then x else y)
if-IsSome true x y v w = v
if-IsSome false x y v w = w

flush-IsSome :
    (epoll : Bool) (c : Client) (sents : List Sent) (out : List ℕ)
    → SendStops sents
    → IsSome (flush_client_output epoll c sents out)
unfolding flush_client_output
flush-IsSome epoll c [] out v = absurd v
flush-IsSome epoll c (again ∷ as') out v = if-IsSome (ltb c.output_offset c.output_size) _ _ tt tt
flush-IsSome epoll c (broken ∷ as') out v = if-IsSome (ltb c.output_offset c.output_size) _ _ tt tt
flush-IsSome epoll c (sent n ∷ as') out v =
    if-IsSome (not (ltb c.output_offset c.output_size)) _ _ tt
      (if-IsSome (ltb 0 n) _ _ (flush-IsSome epoll (advanced c n) as' _ v) tt)

after_input-IsSome :
    (index : ℕ) (rest : Clients → Option (Bool × Clients)) (r : Option (Bool × Clients))
    → Ended index r
    → ((cs : Clients) → IsSome (rest cs))
    → IsSome (after_input index rest r)
after_input-IsSome index rest none v h = absurd v
after_input-IsSome index rest (some (false, cs)) v h = tt
after_input-IsSome index rest (some (true, cs)) v h =
    if-IsSome (not (cs index).active) (some (false, cs)) (rest cs) tt (h cs)

receive-IsSome :
    (epoll_ok : ℕ → ℕ → ℕ → Bool) (blank : ChatMessage) (cs : Clients) (index : ℕ)
    (answers : List Received)
    → Stops answers
    → IsSome (receive_client_data epoll_ok blank cs index answers)
unfolding receive_client_data
receive-IsSome epoll_ok blank cs index [] v = absurd v
receive-IsSome epoll_ok blank cs index (bytes got ∷ as') v =
    let c = append_received (cs index) got in
    if-IsSome ((cs index).input_size == packet_max_size) (some (false, cs)) _ tt (
      if-IsSome (length got == 0) (some (false, cs)) _ tt (
        after_input-IsSome index
          (λ cs'. receive_client_data (λ r. epoll_ok (suc r)) blank cs' index as')
          (process_input (epoll_ok 0) blank (set_client cs index c) index)
          (process_input-Ended (epoll_ok 0) blank (set_client cs index c) index)
          (λ cs'. receive-IsSome (λ r. epoll_ok (suc r)) blank cs' index as' v)))
receive-IsSome epoll_ok blank cs index (end_of_stream ∷ as') v = tt
receive-IsSome epoll_ok blank cs index (would_block ∷ as') v = tt
receive-IsSome epoll_ok blank cs index (failed ∷ as') v = tt

module _ (leave_ok : ℕ → Bool) where
  after_flush-IsSome :
      (scratch : Memory) (index : ℕ) (hangup : Bool) (cs : Clients)
      (r : Option (Bool × Client × List ℕ))
      → IsSome r
      → IsSome (after_flush leave_ok scratch index hangup cs r)
  after_flush-IsSome scratch index hangup cs none v = absurd v
  after_flush-IsSome scratch index hangup cs (some (false, c, out)) v = tt
  after_flush-IsSome scratch index hangup cs (some (true, c, out)) v = tt

  write-IsSome :
      (flush_ok : Bool) (scratch : Memory) (index : ℕ) (writable hangup : Bool) (sents : List Sent)
      (cs : Clients)
      → SendStops sents
      → IsSome (write_event leave_ok flush_ok scratch index writable hangup sents cs)
  write-IsSome flush_ok scratch index writable hangup sents cs v =
      if-IsSome writable _ _
        (after_flush-IsSome scratch index hangup cs
          (flush_client_output flush_ok (cs index) sents [])
          (flush-IsSome flush_ok (cs index) sents [] v))
        tt

  after_receive-IsSome :
      (scratch : Memory) (index : ℕ) (rest : Clients → Option Clients) (r : Option (Bool × Clients))
      → IsSome r
      → ((cs : Clients) → IsSome (rest cs))
      → IsSome (after_receive leave_ok scratch index rest r)
  after_receive-IsSome scratch index rest none v h = absurd v
  after_receive-IsSome scratch index rest (some (false, cs)) v h = tt
  after_receive-IsSome scratch index rest (some (true, cs)) v h =
      if-IsSome (not (cs index).active) (some cs) (rest cs) tt (h cs)

event-IsSome :
    (epoll_ok : ℕ → ℕ → ℕ → Bool) (leave_ok : ℕ → Bool) (flush_ok : Bool) (blank : ChatMessage)
    (scratch : Memory) (cs : Clients) (index : ℕ) (readable writable hangup : Bool)
    (receipts : List Received) (sents : List Sent)
    → Stops receipts
    → SendStops sents
    → IsSome (
        client_event epoll_ok leave_ok flush_ok blank scratch cs index readable writable hangup
          receipts sents)
unfolding client_event
event-IsSome epoll_ok leave_ok flush_ok blank scratch cs index readable writable hangup receipts
      sents v w =
    let write =
      λ (cs' : Clients). write_event leave_ok flush_ok scratch index writable hangup sents cs' in
    if-IsSome (leb server_max_clients index || not (cs index).active) (some cs) _ tt (
      if-IsSome readable _ (write cs)
        (after_receive-IsSome leave_ok scratch index write
          (receive_client_data epoll_ok blank cs index receipts)
          (receive-IsSome epoll_ok blank cs index receipts v)
          (λ cs'. write-IsSome leave_ok flush_ok scratch index writable hangup sents cs' w))
        (write-IsSome leave_ok flush_ok scratch index writable hangup sents cs w))

-- What an event leaves.
abbrev pub Served : Option Clients → Type 0
Served r = (cs' : Clients) × (r ≡ some cs') × IsServer cs'

both-Served : (r : Option Clients) → IsSome r → AllBounded r → Served r
both-Served none v w = absurd v
both-Served (some cs) v w = (cs, refl, w)

-- When the queue and the input of every client lie within their buffers, and the sockets answer as
-- often as they are asked, any event of a client ends, whatever its flags, the bytes that come,
-- what the socket takes, and which of the calls of `epoll_ctl` succeed, and every queue and input
-- still lies within its buffer.
pub client_event-Served :
    (epoll_ok : ℕ → ℕ → ℕ → Bool) (leave_ok : ℕ → Bool) (flush_ok : Bool) (blank : ChatMessage)
    (scratch : Memory) (cs : Clients) (index : ℕ) (readable writable hangup : Bool)
    (receipts : List Received) (sents : List Sent)
    → IsServer cs
    → Stops receipts
    → SendStops sents
    → Served (
        client_event epoll_ok leave_ok flush_ok blank scratch cs index readable writable hangup
          receipts sents)
client_event-Served epoll_ok leave_ok flush_ok blank scratch cs index readable writable hangup
      receipts sents v s t =
    both-Served
      (client_event epoll_ok leave_ok flush_ok blank scratch cs index readable writable hangup
        receipts sents)
      (event-IsSome epoll_ok leave_ok flush_ok blank scratch cs index readable writable hangup
        receipts sents s t)
      (client_event-AllBounded epoll_ok leave_ok flush_ok blank scratch cs index readable writable
        hangup receipts sents v)
