-- ===== src/PhoneList/Operations.antt =====
-- The functions of phone_book.c. `*head` is a parameter and a result; a status is true for 0 and
-- false for -1. A loop runs on fuel, which is more than the list has nodes.
use eltex_education.Common.{ℕ, zero, suc, Bool, true, false, none, ◌==◌, ◌!=◌, if◌then◌else◌}
use eltex_education.Common.CString.{CString, follows}
use eltex_education.PhoneTree.Book.{IdManager, release_id}
use eltex_education.PhoneList.Heap.{
  Ptr, null, Node, Cmd, pure, ◌>>=◌, ◌>>◌, load, set_next, set_previous, free,
}

-- The loop of `phone_book_add`: the first node whose last name is greater, or NULL.
unfoldable pub find_place : ℕ → CString → Ptr → Cmd Ptr
find_place zero name current = λ _. none
find_place (suc fuel) name current = if current == null then pure null else do
  n ← load current
  if follows n.contact.last_name name then pure current else find_place fuel name n.next

unfoldable pub find_tail : ℕ → Ptr → Cmd Ptr
find_tail zero tail = λ _. none
find_tail (suc fuel) tail = do
  n ← load tail
  if n.next == null then pure tail else find_tail fuel n.next

-- The three branches behind the loop; the result is the new `*head`.
unfoldable pub link_at : ℕ → Ptr → Ptr → Ptr → Cmd Ptr
unfolding find_tail
link_at fuel head new current =
    if current == head
    then (do set_next new head; set_previous head new; pure new)
    else if current == null
    then (do tail ← find_tail fuel head; set_next tail new; set_previous new tail; pure head)
    else do
      c ← load current
      set_previous new c.previous
      set_next new current
      c' ← load current
      set_next c'.previous new
      set_previous current new
      pure head

unfoldable pub add : ℕ → Ptr → Ptr → Cmd (Bool × Ptr)
unfolding find_place link_at
add fuel head new = if new == null then pure (false, head) else do
  set_next new null
  set_previous new null
  if head == null then pure (true, new) else do
    n ← load new
    current ← find_place fuel n.contact.last_name head
    head' ← link_at fuel head new current
    pure (true, head')

unfoldable pub bypass : Ptr → Node → Cmd Ptr
bypass head n =
    if n.previous != null then (do set_next n.previous n.next; pure head) else pure n.next

-- `phone_book_detach`; the result is the new `*head`.
unfoldable pub detach : Ptr → Ptr → Cmd Ptr
unfolding bypass
detach head p = do
  n ← load p
  head' ← bypass head n
  m ← load p
  (if m.next != null then set_previous m.next m.previous else pure tt)
  set_next p null
  set_previous p null
  pure head'

-- NULL where no contact has the id.
unfoldable pub find_by_id : ℕ → Ptr → ℕ → Cmd Ptr
find_by_id zero head id = λ _. none
find_by_id (suc fuel) head id =
    if head == null
    then pure null
    else do n ← load head; if n.contact.id == id then pure head else find_by_id fuel n.next id

unfoldable pub remove_released : Ptr → Ptr → Bool × IdManager → Cmd (Bool × Ptr × IdManager)
unfolding detach
remove_released head p (false, ids) = pure (false, head, ids)
remove_released head p (true, ids) = do head' ← detach head p; free p; pure (true, head', ids)

-- The loop of `phone_book_remove` at `current`. `alloc` is the success of `malloc`.
unfoldable pub remove : Bool → ℕ → Ptr → Ptr → ℕ → IdManager → Cmd (Bool × Ptr × IdManager)
unfolding remove_released
remove alloc zero head current id ids = λ _. none
remove alloc (suc fuel) head current id ids =
    if current == null then pure (false, head, ids) else do
      n ← load current
      if n.contact.id == id
          then remove_released head current (release_id alloc ids id)
          else remove alloc fuel head n.next id ids
