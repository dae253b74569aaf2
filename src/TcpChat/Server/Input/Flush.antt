-- ===== src/TcpChat/Server/Input/Flush.antt =====
-- `flush_client_output` hands the queue to the socket in order, and loses nothing.
use mathlib.Core.List.{append_assoc}
use eltex_education.Common.{
  ℕ, ◌+◌, ◌-◌, ◌≤◌, ◌≡◌, ◌∙◌, refl, ap, subst, Bool, false, Option, none, some, List, [], ◌∷◌, ◌++◌,
  arith, ltb, Bool-cases, inl, inr,
}
use eltex_education.Common.Memory.{slice, slice-append}
use eltex_education.TcpChat.Server.{Client}
use eltex_education.TcpChat.Server.Queue.{pending, pending_size, IsQueue}
use eltex_education.TcpChat.Server.Input.{
  Sent, sent, again, broken, taken, advanced, emptied, flush_client_output,
}

-- Answers of a socket, which answers as often as it is asked.
abbrev pub Answered : Client → List Sent → Type 0
Answered c [] = c.output_size ≤ c.output_offset
Answered c (sent n ∷ as') = Answered (advanced c n) as'
Answered c (again ∷ as') = Unit {0}
Answered c (broken ∷ as') = Unit {0}

-- What a run of `flush_client_output` leaves: what the socket took, and then what still waits.
abbrev pub Flushed : List ℕ → Option (Bool × Client × List ℕ) → Type 0
Flushed all none = ⊥
Flushed all (some (ok, c, out)) = (out ++ pending c ≡ all) × IsQueue c

emptied-Flushed :
    (epoll : Bool) (c : Client) (out : List ℕ)
    → ltb c.output_offset c.output_size ≡ false
    → Flushed (out ++ pending c) (some (epoll, emptied c, out))
unfolding pending
emptied-Flushed epoll c out e =
    let z : pending_size c ≡ 0 = ground arith in
    rw z (refl, record { ordered = omega arith; bounded = omega arith })

pending-advanced :
    (c : Client) (n : ℕ)
    → slice c.output c.output_offset (taken c n) ++ pending (advanced c n) ≡ pending c
unfolding pending
pending-advanced c n =
    slice-append c.output c.output_offset (taken c n)
      (c.output_size - (c.output_offset + taken c n)) (c.output_offset + taken c n) (pending_size c)
      refl (ground arith)

-- When the socket answers as often as it is asked, `flush_client_output` ends, on every branch,
-- with a queue within its bounds; what the socket took and then what still waits are the bytes
-- that waited before, in order.
pub flush_client_output-Flushed :
    (epoll : Bool) (c : Client) (answers : List Sent) (out : List ℕ)
    → IsQueue c
    → Answered c answers
    → Flushed (out ++ pending c) (flush_client_output epoll c answers out)
unfolding flush_client_output
flush_client_output-Flushed epoll c [] out v h =
    elim (Bool-cases (ltb c.output_offset c.output_size)) [
      | inl e ↦ absurd (ground arith)
      | inr e ↦ rw e (emptied-Flushed epoll c out e)
    ]
flush_client_output-Flushed epoll c (again ∷ as') out v h =
    elim (Bool-cases (ltb c.output_offset c.output_size)) [
      | inl e ↦ rw e (refl, v)
      | inr e ↦ rw e (emptied-Flushed epoll c out e)
    ]
flush_client_output-Flushed epoll c (broken ∷ as') out v h =
    elim (Bool-cases (ltb c.output_offset c.output_size)) [
      | inl e ↦ rw e (refl, v)
      | inr e ↦ rw e (emptied-Flushed epoll c out e)
    ]
flush_client_output-Flushed epoll c (sent n ∷ as') out v h =
    elim (Bool-cases (ltb c.output_offset c.output_size)) [
      | inr e ↦ rw e (emptied-Flushed epoll c out e)
      | inl e ↦ elim (Bool-cases (ltb 0 n)) [
        | inr z ↦ rw (e, z) (refl, v)
        | inl p ↦
            let took = slice c.output c.output_offset (taken c n) in
            rw (e, p)
              (subst
                (λ all. Flushed all (flush_client_output epoll (advanced c n) as' (out ++ took)))
                (append_assoc out took (pending (advanced c n))
                  ∙ ap (λ t. out ++ t) (pending-advanced c n))
                (flush_client_output-Flushed epoll (advanced c n) as' (out ++ took)
                  (record { ordered = ground arith; bounded = v.bounded }) h))
      ]
    ]
