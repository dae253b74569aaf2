-- ===== src/TcpChat/Server/Queue.antt =====
-- The output queue of a client: what `queue_frame` appends to it.
use eltex_education.Common.{
  ℕ, zero, suc, ◌+◌, ◌-◌, ◌≤◌, ◌<◌, ◌≡◌, ◌⊎◌, inl, inr, ◌∙◌, refl, sym, ap, Bool, false, List, ◌∷◌,
  ◌++◌, ◌&&◌, ◌!=◌, arith, ltb, if◌then◌else◌, Bool-cases,
}
use eltex_education.Common.Memory.{Memory, memcpy, slice, slice-append}
use eltex_education.TcpChat.Server.{Client, server_output_capacity, compacted, queue_frame}

-- The bytes that wait to be sent.
abbrev pub pending_size : Client → ℕ
pending_size c = c.output_size - c.output_offset

unfoldable pub pending : Client → List ℕ
pending c = slice c.output c.output_offset (pending_size c)

-- The bounds of a queue.
pub record IsQueue (c : Client) : Type 0 where
  pub ordered : c.output_offset ≤ c.output_size
  pub bounded : c.output_size ≤ server_output_capacity

pub slice-same :
    (a b : Memory) (n i j : ℕ)
    → ((k : ℕ) → k < n → a (i + k) ≡ b (j + k))
    → slice a i n ≡ slice b j n
slice-same a b zero i j h = refl
slice-same a b (suc n) i j h =
    let z : i + 0 ≡ i = omega arith in
    let w : j + 0 ≡ j = omega arith in
    let first : a i ≡ b j = sym (ap a z) ∙ h 0 (omega arith) ∙ ap b w in
    rw first (
      ap (λ l. b j ∷ l)
        (slice-same a b n (suc i) (suc j) (λ k l.
          let s : suc i + k ≡ i + suc k = omega arith in
          let t : suc j + k ≡ j + suc k = omega arith in rw (s, t) (h (suc k) (omega arith)))))

shifted :
    (o : Memory) (from n k i : ℕ)
    → k < n
    → i ≡ k
    → (if from != 0 && n != 0 then (λ i. if ltb i n then o (from + i) else o i) else o) i
      ≡ o (from + k)
shifted o from n k i l e = elim (Bool-cases (from != 0 && n != 0)) [
  | inl f ↦ rw (f, e) (ground arith)
  | inr f ↦ let z : from + k ≡ k = ground arith in rw (f, e, z) refl
]

compacted-slice :
    (c : Client) (n : ℕ) → n ≡ pending_size c → slice (compacted c).output 0 n ≡ pending c
unfolding pending
compacted-slice c n e = rw e (
    slice-same (compacted c).output c.output (pending_size c) 0 c.output_offset
      (λ k l. shifted c.output c.output_offset (pending_size c) k (0 + k) l (omega arith)))

-- How `queue_frame` leaves a client: with the frame behind what waited, or without it.
abbrev pub Queued : Bool → Client → Memory → ℕ → Bool × Client → Type 0
Queued epoll c frame size (ok, c') =
    ((pending_size c + size ≤ server_output_capacity)
      × (ok ≡ epoll)
      × (pending c' ≡ pending c ++ slice frame 0 size))
    ⊎ ((server_output_capacity < pending_size c + size) × (ok ≡ false) × (pending c' ≡ pending c))

-- The frame joins the end of a queue that has room for it; without room, the queue stays as it was.
pub queue_frame-Queued :
    (epoll : Bool) (c : Client) (frame : Memory) (size : ℕ)
    → IsQueue c
    → let r = queue_frame epoll c frame size in Queued epoll c frame size r × IsQueue r.1
unfolding queue_frame pending
queue_frame-Queued epoll c frame size v =
    elim (Bool-cases (ltb (server_output_capacity - pending_size c) size)) [
      | inl e ↦ rw e (
        (inr (ground arith, refl, compacted-slice c (pending_size c - 0) (omega arith))),
        record { ordered = omega arith; bounded = omega arith },
      )
      | inr e ↦ rw e (
        (inl (ground arith, refl, appended)),
        record { ordered = omega arith; bounded = ground arith },
      )
    ]
  where
    both :
        (b : Memory) (p n : ℕ)
        → n ≡ p + size
        → slice (memcpy b p frame size) 0 n ≡ slice b 0 p ++ slice frame 0 size
    both b p n e = rw e (
        sym (slice-append (memcpy b p frame size) 0 p size p (p + size) (omega arith) refl)
        ∙ ap (λ l. l ++ slice (memcpy b p frame size) p size)
            (slice-same (memcpy b p frame size) b p 0 0 (λ k l. ground arith))
        ∙ ap (λ l. slice b 0 p ++ l)
            (slice-same (memcpy b p frame size) frame size p 0 (λ k l. behind b p k l)))
      where
        behind : (b : Memory) (p k : ℕ) → k < size → memcpy b p frame size (p + k) ≡ frame (0 + k)
        behind b p k l =
            let e : p + k - p ≡ 0 + k = omega arith in let f = ap frame e in ground arith

    appended :
        slice
          (memcpy (compacted c).output (pending_size c) frame size)
          0
          (pending_size c + size - 0)
        ≡ pending c ++ slice frame 0 size
    appended =
        both (compacted c).output (pending_size c) (pending_size c + size - 0) (omega arith)
        ∙ ap (λ l. l ++ slice frame 0 size) (compacted-slice c (pending_size c) refl)
