-- ===== src/Taxi/Driver/Input/Framing.antt =====
-- `process_input` against the messages that the buffered bytes stand for.
use eltex_education.Common.{
  ℕ, zero, suc, ◌+◌, ◌-◌, ◌≤◌, ◌<◌, ◌≡◌, ◌∙◌, ap, sym, Bool, true, false, Option, some, List, [],
  ◌∷◌, arith, ◌==◌, inl, inr, Bool-cases,
}
use eltex_education.Common.Memory.{Memory, offset, AgreeBelow, all→AllBelow}
use eltex_education.Taxi.Protocol.{
  Message, FrameStatus, frame_bytes, message_of, protocol_frame_size,
}
use eltex_education.Taxi.Protocol.Codec.{
  IsFrame, protocol_frame_size-cases, protocol_frame_size-agree, protocol_frame_size-complete_iff,
  decode_of_IsFrame,
}
use eltex_education.Taxi.Driver.{Timespec, Driver, Outcome, handle_message}
use eltex_education.Taxi.Driver.Input.{
  Processed, drop_frame, finish, earlier, stop_at, after_message, blank, process_loop,
  process_input, serve_all,
}
use eltex_education.Taxi.Driver.Handle.{handle_message-input}

-- The first `n` bytes are the frames of these messages, then the start of a frame or nothing.
abbrev pub Holds : Memory → ℕ → List Message → Type 0
Holds b n [] = (protocol_frame_size (some b) n (some 0)).0 ≡ FrameStatus.incomplete
Holds b n (m ∷ ms) =
    IsFrame b
    × (frame_bytes ≤ n)
    × (message_of b ≡ m)
    × Holds (offset b frame_bytes) (n - frame_bytes) ms

Holds-agree :
    (ms : List Message) (n : ℕ) (a b : Memory) → AgreeBelow n a b → Holds a n ms → Holds b n ms
Holds-agree [] n a b h e = ap (λ r. r.0) (sym (protocol_frame_size-agree a b n 0 h)) ∙ e
Holds-agree (m ∷ ms) n a b h (f, l, e, r) =
    let same = all→AllBelow (λ i. a i ≡ b i) 24 (λ i p. h i (omega arith)) in
    (
      ground arith,
      l,
      ground arith,
      Holds-agree ms (n - frame_bytes) (offset a frame_bytes) (offset b frame_bytes)
          (λ i p. h (frame_bytes + i) (omega arith)) r,
    )

drop_frame-Holds :
    (ms : List Message) (d e : Driver)
    → e.input ≡ d.input
    → e.input_size ≡ d.input_size
    → Holds (offset d.input frame_bytes) (d.input_size - frame_bytes) ms
    → Holds (drop_frame e frame_bytes).input (drop_frame e frame_bytes).input_size ms
drop_frame-Holds ms d e p q r =
    rw (p, q)
      (Holds-agree ms (d.input_size - frame_bytes) (offset d.input frame_bytes) _
        (λ i h. ground arith) r)

module _ (pid : ℕ) (clock : ℕ → Option Timespec) (send : ℕ → Message → Bool) where
  one_message :
      (d : Driver) (k : ℕ) (running : Bool) (fuel : ℕ)
      → IsFrame d.input
      → frame_bytes ≤ d.input_size
      → process_loop pid clock send (suc fuel) k d running
        ≡ after_message
            (handle_message pid (send k) d (message_of d.input) running (clock k))
            frame_bytes
            (process_loop pid clock send fuel (suc k))
  unfolding process_loop
  one_message d k running fuel f l =
      rw ((protocol_frame_size-complete_iff d.input d.input_size 0).1 (l, f))
        (rw (decode_of_IsFrame d.input blank f) (ground arith))

  no_message :
      (d : Driver) (k : ℕ) (running : Bool) (fuel : ℕ)
      → (protocol_frame_size (some d.input) d.input_size (some 0)).0 ≡ FrameStatus.incomplete
      → process_loop pid clock send (suc fuel) k d running ≡ some (stop_at true d running)
  unfolding process_loop
  no_message d k running fuel h = ground arith

  process_loop-serve :
      (ms : List Message) (fuel k : ℕ) (d : Driver) (running : Bool)
      → d.input_size < fuel
      → Holds d.input d.input_size ms
      → process_loop pid clock send fuel k d running
        ≡ some (serve_all pid clock send k ms d running)
  unfolding serve_all after_message
  process_loop-serve ms zero k d running l h = absurd (omega arith)
  process_loop-serve [] (suc fuel) k d running l h = no_message d k running fuel h
  process_loop-serve (m ∷ ms) (suc fuel) k d running l (f, s, e, r) =
      let o = handle_message pid (send k) d m running (clock k) in
      let same = handle_message-input pid (send k) d m running (clock k) in
      let d' = drop_frame o.driver frame_bytes in
      let ih =
        process_loop-serve ms fuel (suc k) d' o.running (omega arith)
          (drop_frame-Holds ms d o.driver same.0 same.1 r) in
      one_message d k running fuel f s ∙ rw e (ground (arith, ih))

  -- On a buffer that holds the frames of `ms` and then nothing or the start of another frame,
  -- `process_input` handles exactly the messages `ms`, in order, up to the first that fails or
  -- stops the driver.
  pub process_input-serve :
      (d : Driver) (running : Bool) (ms : List Message)
      → Holds d.input d.input_size ms
      → process_input pid clock send d running ≡ some (serve_all pid clock send 0 ms d running)
  unfolding process_input
  process_input-serve d running ms h =
      process_loop-serve ms (suc d.input_size) 0 d running (omega arith) h

  bad_frame :
      (d : Driver) (k : ℕ) (running : Bool) (fuel : ℕ)
      → (protocol_frame_size (some d.input) d.input_size (some 0)).0 ≡ FrameStatus.invalid
      → (b : Bool) × (process_loop pid clock send (suc fuel) k d running
          ≡ some (stop_at b d running))
        × (b ≡ true → d.input_size ≡ 0)
  unfolding process_loop
  bad_frame d k running fuel h = elim (Bool-cases (d.input_size == 0)) [
    | inl e ↦ (true, ground arith, λ _. ground arith)
    | inr e ↦ (false, ground arith, λ q. cc)
  ]

  -- The call has ended; if it left the driver running, less than a frame is buffered.
  abbrev Ended : Option Processed → Type 0
  Ended r =
      (p : Processed) × (r ≡ some p)
      × (p.done ≡ true → p.running ≡ true → p.driver.input_size < frame_bytes)

  after_message-Ended :
      (o : Outcome) (n : ℕ) (rest : Driver → Bool → Option Processed)
      → Ended (rest (drop_frame o.driver n) o.running)
      → Ended (after_message o n rest)
  unfolding after_message
  after_message-Ended o n rest (p, e, q) = elim (Bool-cases o.done) [
    | inr f ↦ (finish o, ground arith, λ t. cc)
    | inl t ↦ elim (Bool-cases o.running) [
      | inr f ↦ (finish (record o { driver = drop_frame o.driver n }), ground arith, λ _ t. cc)
      | inl u ↦ (earlier o.reply p, ground arith, q)
    ]
  ]

  process_loop-Ended :
      (fuel k : ℕ) (d : Driver) (running : Bool)
      → d.input_size < fuel
      → Ended (process_loop pid clock send fuel k d running)
  process_loop-Ended zero k d running l = absurd (omega arith)
  process_loop-Ended (suc fuel) k d running l =
      elim (protocol_frame_size-cases d.input d.input_size 0) [
        | inl (e, s) ↦ (stop_at true d running, no_message d k running fuel e, λ _ _. s)
        | inr (inl e) ↦
            let (b, r, z) = bad_frame d k running fuel e in
            (stop_at b d running, r, λ t _. omega (arith, z t))
        | inr (inr (s, f)) ↦
            let o = handle_message pid (send k) d (message_of d.input) running (clock k) in
            let same = handle_message-input pid (send k) d (message_of d.input) running (clock k) in
            rw (one_message d k running fuel f s) (
              after_message-Ended o frame_bytes (process_loop pid clock send fuel (suc k)) (
                process_loop-Ended fuel (suc k) (drop_frame o.driver frame_bytes) o.running
                  (omega (arith, same.1))))
      ]

  -- `process_input` ends on every buffer and size; when it succeeds and leaves the driver running,
  -- fewer than 24 bytes stay in the buffer.
  pub process_input-ends :
      (d : Driver) (running : Bool)
      → (p : Processed) × (process_input pid clock send d running ≡ some p)
        × (p.done ≡ true → p.running ≡ true → p.driver.input_size < frame_bytes)
  unfolding process_input
  process_input-ends d running = process_loop-Ended (suc d.input_size) 0 d running (omega arith)
