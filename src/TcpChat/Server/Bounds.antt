-- ===== src/TcpChat/Server/Bounds.antt =====
-- The buffers of every client keep within their bounds while the server handles a message.
use eltex_education.Common.{
  ℕ, zero, suc, ◌≤◌, ◌≡◌, inl, inr, Bool, true, false, not, none, some, arith, ◌==◌, ◌!=◌, ◌||◌,
  if◌then◌else◌, Bool-cases,
}
use eltex_education.Common.Memory.{Memory, Pointer}
use eltex_education.TcpChat.Protocol.{ChatMessage, protocol_decode, join, leave}
use eltex_education.TcpChat.Server.{
  Client, Clients, zero_client, packet_max_size, server_max_clients, set_client, close_client,
  client_identity_matches, queue_frame, keep_or_close, deliver, broadcast_loop, broadcast_frame,
  validate_file_transfer, handle_validated, handle_decoded, handle_message,
}
use eltex_education.TcpChat.Server.Queue.{IsQueue, queue_frame-Queued}

pub record IsClient (c : Client) : Type 0 where
  pub queue : IsQueue c
  pub room : c.input_size ≤ packet_max_size

abbrev pub IsServer : Clients → Type 0
IsServer cs = (i : ℕ) → IsClient (cs i)

pub zero-IsClient : IsClient zero_client
zero-IsClient = record {
  queue = record { ordered = omega arith; bounded = omega arith };
  room = omega arith;
}

pub set_client-IsServer :
    (cs : Clients) (index : ℕ) (c : Client)
    → IsServer cs
    → IsClient c
    → IsServer (set_client cs index c)
set_client-IsServer cs index c v w i = elim (Bool-cases (i == index)) [
  | inl e ↦ rw e w
  | inr e ↦ rw e (v i)
]

pub if-IsClient :
    (b : Bool) (x y : Client) → IsClient x → IsClient y → IsClient (if b then x else y)
if-IsClient true x y v w = v
if-IsClient false x y v w = w

pub close_client-IsClient : (c : Client) → IsClient c → IsClient (close_client c)
unfolding close_client
close_client-IsClient c v = if-IsClient (not c.active) c zero_client v zero-IsClient

queue_frame-room :
    (epoll : Bool) (c : Client) (frame : Memory) (size : ℕ)
    → (queue_frame epoll c frame size).1.input_size ≡ c.input_size
unfolding queue_frame
queue_frame-room epoll c frame size = ground arith

pub kept-IsClient : (q : Bool × Client) → IsClient q.1 → IsClient (keep_or_close q)
kept-IsClient (true, c) v = v
kept-IsClient (false, c) v = close_client-IsClient c v

transfer-buffers :
    (c : Client) (m : ChatMessage)
    → let c' = (validate_file_transfer c m).1 in
      (c'.input_size ≡ c.input_size)
      × (c'.output_offset ≡ c.output_offset)
      × (c'.output_size ≡ c.output_size)
unfolding validate_file_transfer
transfer-buffers c m = ground arith

pub transfer-IsClient :
    (c : Client) (m : ChatMessage) → IsClient c → IsClient (validate_file_transfer c m).1
transfer-IsClient c m v =
    let (i, o, s) = transfer-buffers c m in
    record { queue = record { ordered = omega arith; bounded = omega arith }; room = omega arith }

module _ (epoll_ok : ℕ → Bool) where
  pub deliver-IsClient :
      (excluded : ℕ) (frame : Memory) (size i : ℕ) (c : Client)
      → IsClient c
      → IsClient (deliver epoll_ok excluded frame size i c)
  unfolding deliver
  deliver-IsClient excluded frame size i c v =
      let q = queue_frame (epoll_ok i) c frame size in
      if-IsClient (i == excluded || not c.active || not c.joined) c (keep_or_close q) v (
        kept-IsClient q (record {
          queue = (queue_frame-Queued (epoll_ok i) c frame size v.queue).1;
          room = omega (arith, v.room, queue_frame-room (epoll_ok i) c frame size);
        }))

  pub loop-IsServer :
      (n : ℕ) (cs : Clients) (excluded : ℕ) (frame : Memory) (size : ℕ)
      → IsServer cs
      → IsServer (broadcast_loop epoll_ok n cs excluded frame size)
  unfolding broadcast_loop
  loop-IsServer zero cs excluded frame size v = v
  loop-IsServer (suc n) cs excluded frame size v =
      let w = loop-IsServer n cs excluded frame size v in
      set_client-IsServer (broadcast_loop epoll_ok n cs excluded frame size) n _ w (
        deliver-IsClient excluded frame size n (broadcast_loop epoll_ok n cs excluded frame size n)
          (w n))

  pub broadcast-IsServer :
      (cs : Clients) (excluded : ℕ) (frame : Memory) (size : ℕ)
      → IsServer cs
      → IsServer (broadcast_frame epoll_ok cs excluded frame size)
  unfolding broadcast_frame
  broadcast-IsServer cs excluded frame size v =
      loop-IsServer server_max_clients cs excluded frame size v

  pub if-IsServer :
      (b : Bool) (x y : Bool × Clients)
      → IsServer x.1
      → IsServer y.1
      → IsServer (if b then x else y).1
  if-IsServer true x y v w = v
  if-IsServer false x y v w = w

  pub validated-IsServer :
      (cs : Clients) (index : ℕ) (frame : Memory) (size : ℕ) (m : ChatMessage) (r : Bool × Client)
      → IsServer cs
      → IsClient r.1
      → IsServer (handle_validated epoll_ok cs index frame size m r).1
  validated-IsServer cs index frame size m (false, c) v w = set_client-IsServer cs index c v w
  validated-IsServer cs index frame size m (true, c) v w =
      let sent = broadcast_frame epoll_ok (set_client cs index c) index frame size in
      let s =
        broadcast-IsServer (set_client cs index c) index frame size
          (set_client-IsServer cs index c v w) in
      if-IsServer (m.type == leave) (false, _) (true, sent)
        (set_client-IsServer sent index (close_client (sent index)) s
          (close_client-IsClient (sent index) (s index)))
        s

  pub decoded-IsServer :
      (cs : Clients) (index : ℕ) (frame : Memory) (size : ℕ) (r : Bool × Pointer ChatMessage)
      → IsServer cs
      → IsServer (handle_decoded epoll_ok cs index frame size r).1
  decoded-IsServer cs index frame size (false, m) v = v
  decoded-IsServer cs index frame size (true, none) v = v
  decoded-IsServer cs index frame size (true, some m) v =
      if-IsServer (not (cs index).joined) _ _
        (if-IsServer (m.type != join) _ (true, _) v
          (broadcast-IsServer _ index frame size (
            set_client-IsServer cs index _ v (record {
              queue = record {
                ordered = (v index).queue.ordered;
                bounded = (v index).queue.bounded;
              };
              room = (v index).room;
            }))))
        (if-IsServer (not (client_identity_matches (cs index) m) || m.type == join) _ _ v (
          validated-IsServer cs index frame size m (validate_file_transfer (cs index) m) v
            (transfer-IsClient (cs index) m (v index))))

  pub message-IsServer :
      (blank : ChatMessage) (cs : Clients) (index : ℕ) (frame : Memory) (size : ℕ)
      → IsServer cs
      → IsServer (handle_message epoll_ok blank cs index frame size).1
  unfolding handle_message
  message-IsServer blank cs index frame size v =
      decoded-IsServer cs index frame size (protocol_decode (some frame) size (some blank)) v
