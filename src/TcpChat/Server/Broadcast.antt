-- ===== src/TcpChat/Server/Broadcast.antt =====
-- Whom a broadcast reaches.
use eltex_education.Common.{
  ℕ, zero, suc, ◌+◌, ◌≤◌, ◌<◌, ◌≡◌, ◌⊎◌, inl, inr, ◌∙◌, refl, sym, Bool, true, false, not, ◌||◌,
  ◌++◌, arith, ltb, ◌==◌, if◌then◌else◌, Bool-cases, ◌&&◌,
}
use eltex_education.Common.Memory.{Memory, slice}
use eltex_education.TcpChat.Server.{
  Client, Clients, zero_client, server_output_capacity, server_max_clients, set_client,
  close_client, queue_frame, keep_or_close, deliver, broadcast_loop, broadcast_frame,
}
use eltex_education.TcpChat.Server.Queue.{
  pending_size, pending, IsQueue, Queued, queue_frame-Queued,
}

-- Whether a frame of another client is for the client at `index`.
abbrev pub listens : ℕ → ℕ → Client → Bool
listens excluded index c =
    ltb index server_max_clients && not (index == excluded || not c.active || not c.joined)

-- A client before a broadcast and behind it.
abbrev pub Reached : Bool → ℕ → Memory → ℕ → ℕ → Client → Client → Type 0
Reached epoll excluded frame size index c c' =
    ((listens excluded index c ≡ false) × (c' ≡ c))
    ⊎ ((listens excluded index c ≡ true)
        × (((pending_size c + size ≤ server_output_capacity)
              × (epoll ≡ true)
              × (pending c' ≡ pending c ++ slice frame 0 size))
            ⊎ (((epoll ≡ false) ⊎ (server_output_capacity < pending_size c + size))
                × (c' ≡ zero_client))))

skipped :
    (near here : Bool) (x y : Client)
    → (near && not here) ≡ false
    → (if near then (if here then x else y) else x) ≡ x
skipped true true x y e = refl
skipped true false x y e = cc
skipped false here x y e = refl

both : (near here : Bool) → (near && not here) ≡ true → (near ≡ true) × (here ≡ false)
both true false e = (refl, refl)
both true true e = cc
both false here e = cc

awake : (x a j : Bool) → (x || not a || not j) ≡ false → a ≡ true
awake true a j e = cc
awake false true j e = refl
awake false false j e = cc

module _ (epoll_ok : ℕ → Bool) where
  broadcast_loop-at :
      (n : ℕ) (cs : Clients) (excluded : ℕ) (frame : Memory) (size i : ℕ)
      → broadcast_loop epoll_ok n cs excluded frame size i
        ≡ (if ltb i n then deliver epoll_ok excluded frame size i (cs i) else cs i)
  unfolding broadcast_loop
  broadcast_loop-at zero cs excluded frame size i = ground arith
  broadcast_loop-at (suc n) cs excluded frame size i =
      let ih = broadcast_loop-at n cs excluded frame size i in
      elim (Bool-cases (i == n)) [
        | inl e ↦
            let p : i ≡ n = ground arith in
            let before = broadcast_loop-at n cs excluded frame size n in
            rw p (ground (arith, before))
        | inr e ↦ rw (e, ih) (ground arith)
      ]

  pub broadcast_frame-excluded :
      (cs : Clients) (excluded : ℕ) (frame : Memory) (size : ℕ)
      → broadcast_frame epoll_ok cs excluded frame size excluded ≡ cs excluded
  unfolding broadcast_frame deliver
  broadcast_frame-excluded cs excluded frame size =
      broadcast_loop-at server_max_clients cs excluded frame size excluded
      ∙ (let e : (excluded == excluded) ≡ true = ground arith in ground (arith, e))

  -- The sender, whose state is set before its frame is sent on.
  pub broadcast_frame-own :
      (cs : Clients) (index : ℕ) (c : Client) (frame : Memory) (size : ℕ)
      → broadcast_frame epoll_ok (set_client cs index c) index frame size index ≡ c
  broadcast_frame-own cs index c frame size =
      broadcast_frame-excluded (set_client cs index c) index frame size ∙ ground arith

  queue_frame-active :
      (epoll : Bool) (c : Client) (frame : Memory) (size : ℕ)
      → (queue_frame epoll c frame size).1.active ≡ c.active
  unfolding queue_frame
  queue_frame-active epoll c frame size = ground arith

  delivered :
      (ok : Bool) (c : Client) (frame : Memory) (size : ℕ) (q : Bool × Client)
      → Queued ok c frame size q
      → q.1.active ≡ true
      → ((pending_size c + size ≤ server_output_capacity)
          × (ok ≡ true)
          × (pending (keep_or_close q) ≡ pending c ++ slice frame 0 size))
        ⊎ (((ok ≡ false) ⊎ (server_output_capacity < pending_size c + size))
            × (keep_or_close q ≡ zero_client))
  unfolding close_client
  delivered ok c frame size (true, c') (inl (l, e, p)) a = inl (l, sym e, p)
  delivered ok c frame size (true, c') (inr (l, e, p)) a = absurd (ground arith)
  delivered ok c frame size (false, c') (inl (l, e, p)) a = inr (inl (sym e), rw a refl)
  delivered ok c frame size (false, c') (inr (l, e, p)) a = inr (inr l, rw a refl)

  -- For each client whose queue is within its bounds, `broadcast_frame` appends the frame to what
  -- waits in the queue if the client is active, has joined and is not the excluded one, if the
  -- queue has room and `epoll_ctl` succeeds; it clears such a client if there is no room or
  -- `epoll_ctl` fails, and leaves every other as it was.
  pub broadcast_frame-Reached :
      (cs : Clients) (excluded : ℕ) (frame : Memory) (size i : ℕ)
      → IsQueue (cs i)
      → Reached
          (epoll_ok i)
          excluded
          frame
          size
          i
          (cs i)
          (broadcast_frame epoll_ok cs excluded frame size i)
  unfolding broadcast_frame deliver
  broadcast_frame-Reached cs excluded frame size i v =
      let at = broadcast_loop-at server_max_clients cs excluded frame size i in
      elim (Bool-cases (listens excluded i (cs i))) [
        | inr e ↦ inl (
          e,
          at
              ∙ skipped (ltb i server_max_clients)
                  (i == excluded || not (cs i).active || not (cs i).joined) (cs i)
                  (keep_or_close (queue_frame (epoll_ok i) (cs i) frame size)) e,
        )
        | inl e ↦
            let here = i == excluded || not (cs i).active || not (cs i).joined in
            let (near, hears) = both (ltb i server_max_clients) here e in
            let up = awake (i == excluded) (cs i).active (cs i).joined hears in
            rw (at, near, hears)
              (inr (
                refl,
                delivered (epoll_ok i) (cs i) frame size
                    (queue_frame (epoll_ok i) (cs i) frame size)
                    (queue_frame-Queued (epoll_ok i) (cs i) frame size v).0
                    (queue_frame-active (epoll_ok i) (cs i) frame size ∙ up),
              ))
      ]
