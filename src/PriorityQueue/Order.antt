-- ===== src/PriorityQueue/Order.antt =====
-- Messages leave by priority, and within one priority in the order of their arrival.
use eltex_education.Common.{
  ℕ, zero, suc, ◌≤◌, ◌<◌, ◌≡◌, ◌≢◌, ◌⊎◌, inl, inr, refl, subst, Bool, true, false, Option, none,
  some, List, [], ◌∷◌, ◌++◌, arith, leb, length, All, Option-cases,
}
use native.Mathlib.Decide.{dec_lt, ℕ_discrete}
use eltex_education.Common.CString.{CString}
use eltex_education.PriorityQueue.{
  message_size, priority_levels, Levels, set_level, Popped, refused, highest, pop_from_queue,
  pop_at, push, peek, pop_first, pop_by_priority_or_upper, copy_message, peek_head, pop_head,
}

-- Every stored message fits its array.
abbrev pub IsStored : Levels → Type 0
IsStored levels = (p : ℕ) → All (λ m. length m < message_size) (levels p)

-- The loop finds the greatest level in its range that is not empty.
abbrev pub IsHighest : Levels → ℕ → ℕ → Option ℕ → Type 0
IsHighest levels lowest n none = (p : ℕ) → lowest ≤ p → p < n → levels p ≡ []
IsHighest levels lowest n (some q) =
    (lowest ≤ q) × (q < n) × (levels q ≢ []) × ((p : ℕ) → q < p → p < n → levels p ≡ [])

le_test : (a b : ℕ) → a ≤ b → leb a b ≡ true
le_test a b h = ground arith

highest-below : (levels : Levels) (lowest c : ℕ) → c < lowest → highest levels lowest (suc c) ≡ none
unfolding highest
highest-below levels lowest c h = ground arith

highest-skip :
    (levels : Levels) (lowest c : ℕ)
    → lowest ≤ c
    → levels c ≡ []
    → highest levels lowest (suc c) ≡ highest levels lowest c
unfolding highest
highest-skip levels lowest c h e = rw (e, le_test lowest c h)

highest-stop :
    (levels : Levels) (lowest c : ℕ) (m : CString) (ms : List CString)
    → lowest ≤ c
    → levels c ≡ m ∷ ms
    → highest levels lowest (suc c) ≡ some c
unfolding highest
highest-stop levels lowest c m ms h e = rw (e, le_test lowest c h)

List-cases : (l : List CString) → (l ≡ []) ⊎ ((m : CString) × (ms : List CString) × (l ≡ m ∷ ms))
List-cases [] = inl refl
List-cases (m ∷ ms) = inr (m, ms, refl)

IsHighest-suc :
    (levels : Levels) (lowest c : ℕ) (o : Option ℕ)
    → levels c ≡ []
    → IsHighest levels lowest c o
    → IsHighest levels lowest (suc c) o
IsHighest-suc levels lowest c none e h =
    λ p l k. elim (ℕ_discrete p c) [ yes q ↦ rw q e | no q ↦ h p l (omega arith) ]
IsHighest-suc levels lowest c (some q) e (a, b, n, h) = (
  a,
  omega arith,
  n,
  λ p l k. elim (ℕ_discrete p c) [ yes r ↦ rw r e | no r ↦ h p l (omega arith) ],
)

highest_zero : (levels : Levels) (lowest : ℕ) → highest levels lowest 0 ≡ none
unfolding highest
highest_zero levels lowest = refl

highest-IsHighest :
    (levels : Levels) (lowest n : ℕ) → IsHighest levels lowest n (highest levels lowest n)
highest-IsHighest levels lowest zero =
    rw (highest_zero levels lowest) (λ p l k. absurd (omega arith))
highest-IsHighest levels lowest (suc c) =
    let ih = highest-IsHighest levels lowest c in
    elim (dec_lt c lowest) [
      | yes h ↦ rw (highest-below levels lowest c h) (λ p l k. absurd (omega arith))
      | no h ↦ elim (List-cases (levels c)) [
        | inl e ↦
            rw (highest-skip levels lowest c (omega arith) e)
              (IsHighest-suc levels lowest c (highest levels lowest c) e ih)
        | inr (m, ms, e) ↦
            rw (highest-stop levels lowest c m ms (omega arith) e)
              (omega arith, omega arith, λ z. cc, λ p l k. absurd (omega arith))
      ]
    ]

-- What a pop over the levels from `lowest` on must do.
abbrev pub PopsHighest : Levels → ℕ → Popped → Type 0
PopsHighest levels lowest r =
    (((p : ℕ) → lowest ≤ p → p < priority_levels → levels p ≡ []) × (r ≡ refused levels))
    ⊎ ((q : ℕ) × (m : CString) × (ms : List CString) × (lowest ≤ q)
        × (q < priority_levels)
        × ((p : ℕ) → q < p → p < priority_levels → levels p ≡ [])
        × (levels q ≡ m ∷ ms)
        × (r ≡ record { done = true; levels = set_level levels q ms; message = some m }))

pop_from_queue-some :
    (levels : Levels) (q : ℕ) (m : CString) (ms : List CString)
    → length m < message_size
    → levels q ≡ m ∷ ms
    → pop_from_queue levels q
      ≡ record { done = true; levels = set_level levels q ms; message = some m }
unfolding pop_from_queue
pop_from_queue-some levels q m ms h e = rw e (unfold copy_message in ground arith)

pop_at-PopsHighest :
    (levels : Levels) (lowest : ℕ) (o : Option ℕ)
    → IsStored levels
    → IsHighest levels lowest priority_levels o
    → PopsHighest levels lowest (pop_at levels o)
pop_at-PopsHighest levels lowest none s h = inl (h, refl)
pop_at-PopsHighest levels lowest (some q) s (a, b, n, h) = elim (List-cases (levels q)) [
  | inl e ↦ absurd (n e)
  | inr (m, ms, e) ↦
      let fits = subst (All (λ m. length m < message_size)) e (s q) in
      inr (q, m, ms, a, b, h, e, pop_from_queue-some levels q m ms fits.0 e)
]

level_exists : (p : ℕ) → p < priority_levels → leb priority_levels p ≡ false
level_exists p h = ground arith

-- In a queue whose messages fit their nodes, `pop_first` takes the oldest message of the greatest
-- priority that has one and leaves every other message in place; it refuses, and changes nothing,
-- exactly if all levels are empty.
pub pop_first-PopsHighest :
    (levels : Levels) → IsStored levels → PopsHighest levels 0 (pop_first levels)
unfolding pop_first
pop_first-PopsHighest levels s =
    pop_at-PopsHighest levels 0 (highest levels 0 priority_levels) s
      (highest-IsHighest levels 0 priority_levels)

-- In a queue whose messages fit their nodes, `pop_by_priority_or_upper` takes the oldest message
-- of the greatest priority from `priority` on that has one, leaves every other message in place,
-- and refuses exactly if those levels are empty or `priority` does not exist.
pub pop_by_priority_or_upper-PopsHighest :
    (levels : Levels) (p : ℕ)
    → IsStored levels
    → ((p < priority_levels) × PopsHighest levels p (pop_by_priority_or_upper levels p))
      ⊎ ((priority_levels ≤ p) × (pop_by_priority_or_upper levels p ≡ refused levels))
unfolding pop_by_priority_or_upper
pop_by_priority_or_upper-PopsHighest levels p s = elim (dec_lt p priority_levels) [
  | yes h ↦ inl (
    h,
    rw (level_exists p h) (
        pop_at-PopsHighest levels p (highest levels p priority_levels) s
          (highest-IsHighest levels p priority_levels)),
  )
  | no h ↦ inr (omega arith, ground arith)
]

-- A message that is pushed joins the end of its level and every other level stays; it is refused,
-- and the queue stays, exactly if there is no memory, no such level, or no room for its text.
pub push_lem :
    (alloc : Bool) (levels : Levels) (p : ℕ) (m : CString)
    → ((alloc ≡ true)
        × (p < priority_levels)
        × (length m < message_size)
        × (push alloc levels p (some m) ≡ (true, set_level levels p (levels p ++ (m ∷ [])))))
      ⊎ (((alloc ≡ false) ⊎ ((priority_levels ≤ p) ⊎ (message_size ≤ length m)))
          × (push alloc levels p (some m) ≡ (false, levels)))
unfolding push
push_lem alloc levels p m = ground arith

peek_head-pop_head :
    (levels : Levels) (q : ℕ) (l : List CString) → peek_head l ≡ (pop_head levels q l).message
peek_head-pop_head levels q [] = refl
peek_head-pop_head levels q (m ∷ ms) = elim (Option-cases (copy_message m)) [
  | inl e ↦ rw e
  | inr (t, e) ↦ rw e
]

-- `peek` shows the message that `pop_first` would take.
pub peek-pop_first : (levels : Levels) → peek levels ≡ (pop_first levels).message
unfolding peek pop_first pop_from_queue
peek-pop_first levels = elim (Option-cases (highest levels 0 priority_levels)) [
  | inl e ↦ rw e
  | inr (q, e) ↦ rw e (peek_head-pop_head levels q (levels q))
]
