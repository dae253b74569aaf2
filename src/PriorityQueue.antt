-- ===== src/PriorityQueue.antt =====
-- The priority queue of messages: src/priority_queue.c and include/priority_queue.h of
-- 02-c-programming/04-02-priority-queue. A level's linked list is the list of its messages from
-- the head; `tail` is its last node. `levels` is the array of 256 queues.
pub mod Order
use eltex_education.Common.{
  ℕ, zero, suc, ◌+◌, Bool, true, false, not, ◌&&◌, ◌||◌, Option, none, some, List, [], ◌∷◌, ◌++◌,
  ltb, leb, ◌==◌, if◌then◌else◌, length,
}
use eltex_education.Common.Memory.{Pointer}
use eltex_education.Common.CString.{CString}

abbrev pub message_size : ℕ
message_size = 100

abbrev pub priority_levels : ℕ
priority_levels = 256

-- `PriorityQueue`: what each level holds.
abbrev pub Levels : Type 0
Levels = ℕ → List CString

-- `queue[p] = q`
abbrev pub set_level : Levels → ℕ → List CString → Levels
set_level levels p q i = if i == p then q else levels i

-- The result, the queue, and what `res_message` holds if it was written.
pub record Popped : Type 0 where
  pub done : Bool
  pub levels : Levels
  pub message : Option CString

abbrev pub refused : Levels → Popped
refused levels = record { done = false; levels = levels; message = none }

-- `priority_queue_init`, and what `priority_queue_free` leaves.
unfoldable pub priority_queue_init : Levels → Levels
priority_queue_init levels i = if ltb i priority_levels then [] else levels i

-- `create_node`: `alloc` is the success of `malloc`. A message that does not fit is refused.
unfoldable pub create_node : Bool → CString → Option CString
create_node alloc message =
    if not alloc then none else if leb message_size (length message) then none else some message

-- `snprintf` of a stored message writes its first 99 bytes; it is refused if there are more.
unfoldable pub copy_message : CString → Option CString
copy_message source = if ltb (length source) message_size then some source else none

-- `pop_from_queue` of level `p`, where `res_message` is not NULL.
abbrev pub pop_copied : Levels → ℕ → List CString → Option CString → Popped
pop_copied levels p ms none = refused levels
pop_copied levels p ms (some text) = record {
  done = true;
  levels = set_level levels p ms;
  message = some text;
}

abbrev pub pop_head : Levels → ℕ → List CString → Popped
pop_head levels p [] = refused levels
pop_head levels p (m ∷ ms) = pop_copied levels p ms (copy_message m)

unfoldable pub pop_from_queue : Levels → ℕ → Popped
unfolding copy_message
pop_from_queue levels p = pop_head levels p (levels p)

abbrev push_node : Levels → ℕ → Option CString → Bool × Levels
push_node levels p none = (false, levels)
push_node levels p (some node) = (true, set_level levels p (levels p ++ (node ∷ [])))

unfoldable pub push : Bool → Levels → ℕ → Pointer CString → Bool × Levels
unfolding create_node
push alloc levels p none = (false, levels)
push alloc levels p (some message) =
    if leb priority_levels p
    then (false, levels)
    else push_node levels p (create_node alloc message)

abbrev pub is_empty : List CString → Bool
is_empty [] = true
is_empty (m ∷ ms) = false

-- The loop `for (current = n; current-- > lowest;)`: the first level that is not empty.
unfoldable pub highest : Levels → ℕ → ℕ → Option ℕ
highest levels lowest zero = none
highest levels lowest (suc current) =
    let below = highest levels lowest current in
    if not (leb lowest current)
    then none
    else if is_empty (levels current)
    then below
    else some current

abbrev pub peek_head : List CString → Option CString
peek_head [] = none
peek_head (m ∷ ms) = copy_message m

abbrev pub peek_at : Levels → Option ℕ → Option CString
peek_at levels none = none
peek_at levels (some p) = peek_head (levels p)

-- `none` for false.
unfoldable pub peek : Levels → Option CString
unfolding highest copy_message
peek levels = peek_at levels (highest levels 0 priority_levels)

abbrev pub pop_at : Levels → Option ℕ → Popped
pop_at levels none = refused levels
pop_at levels (some p) = pop_from_queue levels p

unfoldable pub pop_first : Levels → Popped
pop_first levels = pop_at levels (highest levels 0 priority_levels)

unfoldable pub pop_by_priority : Levels → ℕ → Popped
pop_by_priority levels p = if leb priority_levels p then refused levels else pop_from_queue levels p

unfoldable pub pop_by_priority_or_upper : Levels → ℕ → Popped
pop_by_priority_or_upper levels p =
    if leb priority_levels p
    then refused levels
    else pop_at levels (highest levels p priority_levels)
